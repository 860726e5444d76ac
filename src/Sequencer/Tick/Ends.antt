-- ===== src/Sequencer/Tick/Ends.antt =====
-- What a tick of xtce_sim/sequencer.py has done when it returns.
use xtce_sim.Prelude.{
  ℕ, ◌<◌, ◌≡◌, refl, arith, List, Option, none, some, Bool, true, false, Bool-cases, inl, inr, ◌&&◌,
  ltb,
}
use xtce_sim.Prelude.Dict.{Dict}
use xtce_sim.Utf8.{Text}
use xtce_sim.Sequencer.{Kind, ats, rts, Fired, Slot, exhausted, is_running, Sequencer, slot_of}
use xtce_sim.Sequencer.Tick.{due, earlier, next_due, finished, finish_all, tick}
use xtce_sim.Sequencer.Tick.Drain.{remaining, StartsNothing, drain-ends, drain-idle}

-- No running slot is at the end of its plan, and no running slot's next entry is due.
abbrev pub IsSettled : ℕ → Sequencer → Type 0
IsSettled now q =
    (next_due q now ≡ none)
    × ((kind : Kind) → is_running (slot_of q kind) ≡ true → exhausted (slot_of q kind) ≡ false)

due-finished :
    (kind : Kind) (s : Slot) (now : ℕ)
    → due kind s now ≡ none
    → due kind (finished now s) now ≡ none
unfolding due finished
due-finished kind s now h = elim (Bool-cases (is_running s && exhausted s)) [
  | inl e ↦ rw (due, finished, e) refl
  | inr e ↦ rw (finished, e) h
]

not_both : (a : Bool) → a ≡ true → a ≡ false → ⊥
not_both a h k = ground (arith, h, k)

ended_run :
    (s : Slot) (now : ℕ)
    → (is_running s && exhausted s) ≡ true
    → is_running (finished now s) ≡ false
unfolding finished
ended_run s now e = rw (finished, e) refl

left_over : (a b : Bool) → (a && b) ≡ false → a ≡ true → b ≡ false
left_over true b h k = h
left_over false b h k = absurd (ground (arith, k))

finished-left :
    (s : Slot) (now : ℕ) → is_running (finished now s) ≡ true → exhausted (finished now s) ≡ false
finished-left s now h = elim (Bool-cases (is_running s && exhausted s)) [
  | inl e ↦ absurd (not_both (is_running (finished now s)) h (ended_run s now e))
  | inr e ↦
      let same : finished now s ≡ s = unfold finished in rw (finished, e) refl in
      rw same (left_over (is_running s) (exhausted s) e (rw same at h))
]

none-earlier : (a r : Option ℕ) → earlier a r ≡ none → (a ≡ none) × (r ≡ none)
none-earlier none none h = (refl, refl)
none-earlier none (some r) h = absurd (ground (arith, h))
none-earlier (some a) none h = absurd (ground (arith, h))
none-earlier (some a) (some r) h =
    absurd
      (elim (Bool-cases (ltb r a)) [ inl e ↦ ground (arith, h, e) | inr e ↦ ground (arith, h, e) ])

next_due-dues :
    (q : Sequencer) (now : ℕ)
    → next_due q now ≡ none
    → (due ats q.ats_slot now ≡ none) × (due rts q.rts_slot now ≡ none)
next_due-dues q now h =
    none-earlier (due ats q.ats_slot now) (due rts q.rts_slot now) (unfold next_due in h)

settled : (q : Sequencer) (now : ℕ) → next_due q now ≡ none → IsSettled now (finish_all now q)
settled q now h = (
  unfold next_due finish_all in
      rw
        (
          next_due,
          due-finished ats q.ats_slot now (next_due-dues q now h).0,
          due-finished rts q.rts_slot now (next_due-dues q now h).1,
        )
        refl,
  left,
)
  where
    left :
        (kind : Kind)
        → is_running (slot_of (finish_all now q) kind) ≡ true
        → exhausted (slot_of (finish_all now q) kind) ≡ false
    left ats = unfold finish_all in finished-left q.ats_slot now
    left rts = unfold finish_all in finished-left q.rts_slot now

module _ {W : Type 0}
    (execute : W → Sequencer → Text → Dict Text Text → Bool × (Sequencer × W)) where
  -- A tick whose executor starts no run returns within as many firings as the running plans have
  -- entries left. When it returns nothing is due, and no running plan is at its end.
  pub tick-ends :
      StartsNothing execute
      → (fuel : ℕ) (w : W) (q : Sequencer) (now : ℕ) → remaining q < fuel
      → (r : List Fired × (Sequencer × W)) × (tick execute fuel w q now ≡ some r)
        × IsSettled now r.1.0
  unfolding tick
  tick-ends tame fuel w q now k =
      let (r, done) = drain-ends execute tame fuel w q now k in
      (
        (r.0, (finish_all now r.1.0, r.1.1)),
        rw done refl,
        settled r.1.0 now (rw done at (drain-idle execute fuel w q now)),
      )
