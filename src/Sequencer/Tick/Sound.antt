-- ===== src/Sequencer/Tick/Sound.antt =====
-- The slots of xtce_sim/sequencer.py stay sound when fired commands act on the sequencer itself:
-- what the run number of a slot is for.
use xtce_sim.Prelude.{
  ℕ, zero, suc, ◌+◌, ◌≡◌, refl, arith, List, [], ◌∷◌, get_elem?, Option, none, some, Bool, true,
  false, Bool-cases, Option-cases, inl, inr, is_some, ◌&&◌, ◌==◌, leb, leb→le,
}
use xtce_sim.Prelude.Dict.{Dict}
use xtce_sim.Utf8.{Text}
use xtce_sim.Sequencer.{
  Kind, ats, rts, SequenceEntry, Fired, Slot, entries_of, total, exhausted, is_running, Sequencer,
  slot_of,
}
use xtce_sim.Sequencer.Commands.{SequencerCommand, run}
use xtce_sim.Sequencer.Commands.Machine.{is_running-state}
use xtce_sim.Sequencer.Commands.Laws.{
  Fits, IsCounted, IsSound, AllSound, Kept, FitsAll, run-Kept, Kept-Fits, Kept-IsSound,
  running-plan,
}
use xtce_sim.Sequencer.Tick.{
  next_due, claimed, book, finished, finish_all, fire_entry, fire, drain, ended, tick,
}
use xtce_sim.Sequencer.Tick.Due.{next_due_lem, upcoming-pending}
use xtce_sim.Sequencer.Tick.Drain.{Leaves, consed-Leaves, drain-done, drain-fired, get_elem?-lt}

-- The commands that one dispatch runs, in order.
unfoldable pub run_all : Sequencer → List SequencerCommand → Sequencer
run_all q [] = q
run_all q (c ∷ cs) = run_all (run q c).1 cs

Kept-trans : (s s' s'' : Slot) → Kept s s' → Kept s' s'' → Kept s s''
Kept-trans s s' s'' (inl e) k = rw e at k
Kept-trans s s' s'' (inr h) (inl e) = inr (rw e h)
Kept-trans s s' s'' (inr h) (inr k) = inr (omega (arith, h.0, k.0), k.1)

run_all-Kept :
    (q : Sequencer) (cs : List SequencerCommand) (j : Kind)
    → FitsAll q
    → Kept (slot_of q j) (slot_of (run_all q cs) j)
unfolding run_all
run_all-Kept q [] j f = inl refl
run_all-Kept q (c ∷ cs) j f =
    Kept-trans (slot_of q j) (slot_of (run q c).1 j) (slot_of (run_all q (c ∷ cs)) j)
      (run-Kept q c j f)
      (run_all-Kept (run q c).1 cs j
        (λ k. Kept-Fits (slot_of q k) (slot_of (run q c).1 k) (run-Kept q c k f) (f k)))

Fits-both :
    (q : Sequencer)
    → Fits q.ats_slot.state q.ats_slot.sequence q.ats_slot.position
    → Fits q.rts_slot.state q.rts_slot.sequence q.rts_slot.position
    → FitsAll q
Fits-both q a r ats = a
Fits-both q a r rts = r

self : (g : ℕ) → (g == g) ≡ true
self g = ground arith

and_left : (a b : Bool) → (a && b) ≡ true → a ≡ true
and_left true b h = refl
and_left false b h = h

and_right : (a b : Bool) → (a && b) ≡ true → b ≡ true
and_right true b h = h
and_right false b h = absurd (ground (arith, h))

-- A slot whose entry was claimed and then booked, in the same run or not.
book-IsSound :
    (s s' : Slot) (command : Text) (ok : Bool)
    → is_running s ≡ true
    → Fits s.state s.sequence (s.position + 1)
    → IsCounted s
    → Kept (record s { position = s.position + 1 }) s'
    → IsSound (book s.generation command ok s')
unfolding book
book-IsSound s s' command ok r f c (inl e) = rw (e, self s.generation) (f, omega (arith, c))
book-IsSound s s' command ok r f c (inr h) =
    let gone : (s'.generation == s.generation) ≡ false = ground (arith, h.0) in rw gone h.1

claimed-Fits :
    (s : Slot) (e : SequenceEntry)
    → is_running s ≡ true
    → Fits s.state s.sequence s.position
    → get_elem? (entries_of s.sequence) s.position ≡ some e
    → Fits s.state s.sequence (s.position + 1)
claimed-Fits s e r f there =
    rw (is_running-state s r) (
      (running-plan s r f).0,
      omega (arith, get_elem?-lt (entries_of s.sequence) s.position e there),
    )

at_end :
    (s : Slot)
    → is_running s ≡ true
    → Fits s.state s.sequence s.position
    → (is_running s && exhausted s) ≡ true
    → (is_some s.sequence ≡ true) × (s.position ≡ total s)
at_end s r f e = (
  (running-plan s r f).0,
  omega (
    arith,
    (running-plan s r f).1,
    leb→le (total s) s.position (
        and_right (is_some s.sequence) (leb (total s) s.position)
          (and_right (is_running s) (exhausted s) e)),
  ),
)

finished-IsSound : (s : Slot) (now : ℕ) → IsSound s → IsSound (finished now s)
unfolding finished
finished-IsSound s now h = elim (Bool-cases (is_running s && exhausted s)) [
  | inr e ↦ rw e h
  | inl e ↦ rw e (at_end s (and_left (is_running s) (exhausted s) e) h.0 e, h.1)
]

module _ {W : Type 0}
    (execute : W → Sequencer → Text → Dict Text Text → Bool × (Sequencer × W)) where
  -- A dispatch acts on the sequencer by commands alone.
  abbrev pub RunsCommands : Type 0
  RunsCommands =
      (w : W) (q : Sequencer) (name : Text) (args : Dict Text Text)
      → (cs : List SequencerCommand) × ((execute w q name args).1.0 ≡ run_all q cs)

  dispatched :
      RunsCommands
      → (w : W) (q : Sequencer) (kind : Kind) (e : SequenceEntry) → FitsAll (claimed q kind)
      → (j : Kind)
      → Kept
          (slot_of (claimed q kind) j)
          (slot_of (execute w (claimed q kind) e.command e.args).1.0 j)
  dispatched obeys w q kind e f j =
      let (cs, done) = obeys w (claimed q kind) e.command e.args in
      rw done (run_all-Kept (claimed q kind) cs j f)

  fire-AllSound :
      RunsCommands
      → (w : W) (q : Sequencer) (kind : Kind) (e : SequenceEntry) → AllSound q
      → is_running (slot_of q kind) ≡ true
      → get_elem? (entries_of (slot_of q kind).sequence) (slot_of q kind).position ≡ some e
      → AllSound (fire_entry execute w q kind e).1.0
  unfolding fire_entry
  fire-AllSound obeys w q ats e h r there =
      let next = claimed-Fits q.ats_slot e r h.0.0 there in
      let kept = dispatched obeys w q ats e (Fits-both (claimed q ats) next h.1.0) in
      let (ok, (q', w')) = execute w (claimed q ats) e.command e.args in
      (
        book-IsSound q.ats_slot q'.ats_slot e.command ok r next h.0.1 (kept ats),
        Kept-IsSound q.rts_slot q'.rts_slot (kept rts) h.1,
      )
  fire-AllSound obeys w q rts e h r there =
      let next = claimed-Fits q.rts_slot e r h.1.0 there in
      let kept = dispatched obeys w q rts e (Fits-both (claimed q rts) h.0.0 next) in
      let (ok, (q', w')) = execute w (claimed q rts) e.command e.args in
      (
        Kept-IsSound q.ats_slot q'.ats_slot (kept ats) h.0,
        book-IsSound q.rts_slot q'.rts_slot e.command ok r next h.1.1 (kept rts),
      )

  drain-AllSound :
      RunsCommands
      → (fuel : ℕ) (w : W) (q : Sequencer) (now : ℕ) → AllSound q
      → Leaves execute AllSound (drain execute fuel w q now)
  drain-AllSound obeys zero w q now h = unfold drain in tt
  drain-AllSound obeys (suc fuel) w q now h = elim (Option-cases (next_due q now)) [
    | inl e ↦ rw (drain-done execute fuel w q now e) h
    | inr (kind, e) ↦
        let (t, up, k, first) = next_due_lem q now kind e in
        let (r, (entry, there)) = upcoming-pending kind (slot_of q kind) t up in
        let f = fire_entry execute w q kind entry in
        rw (drain-fired execute fuel w q now kind f e (unfold fire in rw (fire, there) refl)) (
          consed-Leaves execute AllSound f.0 (drain execute fuel f.1.1 f.1.0 now) (
            drain-AllSound obeys fuel f.1.1 f.1.0 now
              (fire-AllSound obeys w q kind entry h r there)))
  ]

  ended-AllSound :
      (now : ℕ) (r : Option (List Fired × (Sequencer × W)))
      → Leaves execute AllSound r
      → Leaves execute AllSound (ended execute now r)
  ended-AllSound now none h = tt
  ended-AllSound now (some r) h =
      unfold finish_all in
      (finished-IsSound r.1.0.ats_slot now h.0, finished-IsSound r.1.0.rts_slot now h.1)

  -- If fired commands act on the sequencer by its own commands alone, starting, stopping, aborting
  -- and replacing the very run that fired them among these, a tick that returns leaves both slots
  -- sound.
  pub tick-AllSound :
      RunsCommands
      → (fuel : ℕ) (w : W) (q : Sequencer) (now : ℕ) → AllSound q
      → Leaves execute AllSound (tick execute fuel w q now)
  tick-AllSound obeys fuel w q now h =
      unfold tick in
      ended-AllSound now (drain execute fuel w q now) (drain-AllSound obeys fuel w q now h)
