-- ===== src/Sequencer/Tick/Drain.antt =====
-- `tick` of xtce_sim/sequencer.py: it ends, it leaves nothing due, and it keeps the slots sound.
use xtce_sim.Prelude.{
  ℕ, zero, suc, ◌+◌, ◌-◌, ◌≤◌, ◌<◌, ◌≡◌, refl, arith, ap, length, List, [], ◌∷◌, get_elem?, Option,
  none, some, Bool, true, Bool-cases, Option-cases, inl, inr, if◌then◌else◌, ◌==◌, ◌∙◌,
}
use xtce_sim.Prelude.Dict.{Dict}
use xtce_sim.Utf8.{Text}
use xtce_sim.Sequencer.{
  Kind, ats, rts, SequenceEntry, Fired, Slot, entries_of, total, is_running, Sequencer, slot_of,
  with_slot,
}
use xtce_sim.Sequencer.Tick.{next_due, claimed, book, fire_entry, fire, consed, drain}
use xtce_sim.Sequencer.Tick.Due.{next_due_lem, upcoming-pending}

-- The entries that a slot has still to fire in its run.
abbrev pub pending : Slot → ℕ
pending s = if is_running s then total s - s.position else 0

abbrev pub remaining : Sequencer → ℕ
remaining q = pending q.ats_slot + pending q.rts_slot

pub get_elem?-lt :
    (es : List SequenceEntry) (i : ℕ) (e : SequenceEntry) → get_elem? es i ≡ some e → i < length es
get_elem?-lt [] i e h = absurd (ground (arith, h))
get_elem?-lt (x ∷ es) zero e h = omega arith
get_elem?-lt (x ∷ es) (suc i) e h = omega (arith, get_elem?-lt es i e h)

pending-step :
    (s : Slot) (e : SequenceEntry)
    → is_running s ≡ true
    → get_elem? (entries_of s.sequence) s.position ≡ some e
    → pending (record s { position = s.position + 1 }) < pending s
pending-step s e r h = ground (arith, r, get_elem?-lt (entries_of s.sequence) s.position e h)

remaining-claimed :
    (q : Sequencer) (kind : Kind) (e : SequenceEntry)
    → is_running (slot_of q kind) ≡ true
    → get_elem? (entries_of (slot_of q kind).sequence) (slot_of q kind).position ≡ some e
    → remaining (claimed q kind) < remaining q
remaining-claimed q ats e r h = omega (arith, pending-step q.ats_slot e r h)
remaining-claimed q rts e r h = omega (arith, pending-step q.rts_slot e r h)

pending-book : (g : ℕ) (c : Text) (ok : Bool) (s : Slot) → pending (book g c ok s) ≡ pending s
unfolding book
pending-book g c ok s = elim (Bool-cases (s.generation == g)) [
  | inl e ↦ rw e refl
  | inr e ↦ rw e refl
]

remaining-book :
    (q : Sequencer) (kind : Kind) (g : ℕ) (c : Text) (ok : Bool)
    → remaining (with_slot q kind (book g c ok (slot_of q kind))) ≡ remaining q
remaining-book q ats g c ok = omega (arith, pending-book g c ok q.ats_slot)
remaining-book q rts g c ok = omega (arith, pending-book g c ok q.rts_slot)

module _ {W : Type 0}
    (execute : W → Sequencer → Text → Dict Text Text → Bool × (Sequencer × W)) where
  -- A command that the executor runs may end a run or load a plan, but it starts no run again.
  abbrev pub StartsNothing : Type 0
  StartsNothing =
      (w : W) (q : Sequencer) (name : Text) (args : Dict Text Text)
      → remaining (execute w q name args).1.0 ≤ remaining q

  -- The next entry is there to fire, and firing it leaves fewer.
  fire-remaining :
      StartsNothing
      → (w : W) (q : Sequencer) (now : ℕ) (kind : Kind) → next_due q now ≡ some kind
      → (e : SequenceEntry) × (fire execute w q kind ≡ some (fire_entry execute w q kind e))
        × (remaining (fire_entry execute w q kind e).1.0 < remaining q)
  fire-remaining tame w q now kind h =
      let (t, up, k, first) = next_due_lem q now kind h in
      let (r, (e, there)) = upcoming-pending kind (slot_of q kind) t up in
      (
        e,
        unfold fire in rw (fire, there) refl,
        unfold fire_entry in
            omega (
              arith,
              remaining-book (execute w (claimed q kind) e.command e.args).1.0 kind
                  (slot_of q kind).generation e.command
                  (execute w (claimed q kind) e.command e.args).0,
              tame w (claimed q kind) e.command e.args,
              remaining-claimed q kind e r there,
            ),
      )

  pub drain-done :
      (fuel : ℕ) (w : W) (q : Sequencer) (now : ℕ)
      → next_due q now ≡ none
      → drain execute (suc fuel) w q now ≡ some ([], (q, w))
  unfolding drain
  drain-done fuel w q now e = rw (drain, e) refl

  pub drain-fired :
      (fuel : ℕ) (w : W) (q : Sequencer) (now : ℕ) (kind : Kind) (r : Fired × (Sequencer × W))
      → next_due q now ≡ some kind
      → fire execute w q kind ≡ some r
      → drain execute (suc fuel) w q now ≡ consed execute r.0 (drain execute fuel r.1.1 r.1.0 now)
  unfolding drain
  drain-fired fuel w q now kind r e f = rw (drain, e, f) refl

  pub drain-ends :
      StartsNothing
      → (fuel : ℕ) (w : W) (q : Sequencer) (now : ℕ) → remaining q < fuel
      → (r : List Fired × (Sequencer × W)) × (drain execute fuel w q now ≡ some r)
  drain-ends tame zero w q now k = absurd (omega arith)
  drain-ends tame (suc fuel) w q now k = elim (Option-cases (next_due q now)) [
    | inl e ↦ (([], (q, w)), drain-done fuel w q now e)
    | inr (kind, e) ↦
        let (entry, done, less) = fire-remaining tame w q now kind e in
        let f = fire_entry execute w q kind entry in
        let (r, rest) = drain-ends tame fuel f.1.1 f.1.0 now (omega (arith, less, k)) in
        ((f.0 ∷ r.0, r.1), drain-fired fuel w q now kind f e done ∙ ap (consed execute f.0) rest)
  ]

  -- A property of the sequencer that a run of the loop leaves, if it ends.
  abbrev pub Leaves : (Sequencer → Type 0) → Option (List Fired × (Sequencer × W)) → Type 0
  Leaves P none = Unit {0}
  Leaves P (some r) = P r.1.0

  pub consed-Leaves :
      (P : Sequencer → Type 0) (f : Fired) (r : Option (List Fired × (Sequencer × W)))
      → Leaves P r
      → Leaves P (consed execute f r)
  consed-Leaves P f none h = tt
  consed-Leaves P f (some r) h = h

  pub drain-missing :
      (fuel : ℕ) (w : W) (q : Sequencer) (now : ℕ) (kind : Kind)
      → next_due q now ≡ some kind
      → fire execute w q kind ≡ none
      → drain execute (suc fuel) w q now ≡ none
  unfolding drain
  drain-missing fuel w q now kind e f = rw (drain, e, f) refl

  -- Whatever the executor does, a drain that ends leaves nothing due.
  pub drain-idle :
      (fuel : ℕ) (w : W) (q : Sequencer) (now : ℕ)
      → Leaves (λ q'. next_due q' now ≡ none) (drain execute fuel w q now)
  drain-idle zero w q now = unfold drain in tt
  drain-idle (suc fuel) w q now = elim (Option-cases (next_due q now)) [
    | inl e ↦ rw (drain-done fuel w q now e) e
    | inr (kind, e) ↦ elim (Option-cases (fire execute w q kind)) [
      | inl gone ↦ rw (drain-missing fuel w q now kind e gone) tt
      | inr (f, done) ↦ rw (drain-fired fuel w q now kind f e done) (
          consed-Leaves (λ q'. next_due q' now ≡ none) f.0 (drain execute fuel f.1.1 f.1.0 now)
            (drain-idle fuel f.1.1 f.1.0 now))
    ]
  ]
