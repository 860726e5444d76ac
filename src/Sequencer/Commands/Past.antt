-- ===== src/Sequencer/Commands/Past.antt =====
-- START of an ATS, xtce_sim/sequencer.py: which entries it skips.
use xtce_sim.Prelude.{
  ℕ, ◌≤◌, ◌<◌, ◌≡◌, refl, arith, length, take, drop, All, List, [], ◌∷◌, true, false, Bool-cases,
  inl, inr, ltb, ◌==◌, ◌⊎◌, suc, ap, subst, take_all,
}
use xtce_sim.Sequencer.{
  SeqState, loaded, running, complete, ats, SequenceEntry, entries_of, total, Sequencer,
}
use xtce_sim.Sequencer.Commands.{Verdict, start, start_plan, past}
use xtce_sim.Sequencer.Commands.Laws.{past-le}

-- Sorted by time, as the parser leaves a plan.
abbrev pub InOrder : List SequenceEntry → Type 0
InOrder [] = Unit {0}
InOrder (e ∷ es) = All (λ (x : SequenceEntry). e.time ≤ x.time) es × InOrder es

abbrev pub IsPast : ℕ → SequenceEntry → Type 0
IsPast now e = e.time < now

abbrev pub IsAhead : ℕ → SequenceEntry → Type 0
IsAhead now e = now ≤ e.time

later-none :
    (t : ℕ) (es : List SequenceEntry) (now : ℕ)
    → All (λ (x : SequenceEntry). t ≤ x.time) es
    → now ≤ t
    → (past es now ≡ 0) × All (IsAhead now) es
unfolding past
later-none t [] now h k = (refl, tt)
later-none t (e ∷ es) now h k = (
  ground (arith, h.0, later-none t es now h.1 k),
  (omega (arith, h.0), (later-none t es now h.1 k).1),
)

past_nil : (now : ℕ) → past [] now ≡ 0
unfolding past
past_nil now = refl

past-cons :
    (e : SequenceEntry) (es : List SequenceEntry) (now : ℕ)
    → ltb e.time now ≡ true
    → past (e ∷ es) now ≡ suc (past es now)
unfolding past
past-cons e es now h = ground (arith, h)

-- The number of past entries of a sorted plan is where its past ends.
past-split :
    (es : List SequenceEntry) (now : ℕ)
    → InOrder es
    → All (IsPast now) (take (past es now) es) × All (IsAhead now) (drop (past es now) es)
past-split [] now h = rw (past_nil now) (tt, tt)
past-split (e ∷ es) now h = elim (Bool-cases (ltb e.time now)) [
  | inl b ↦
      rw (past-cons e es now b)
        ((ground (arith, b), (past-split es now h.1).0), (past-split es now h.1).1)
  | inr b ↦
      let none_past = later-none e.time (e ∷ es) now (omega arith, h.0) (ground (arith, b)) in
      rw none_past.0 (tt, none_past.1)
]

abbrev Ready : Sequencer → Type 0
Ready q = (q.ats_slot.state ≡ loaded) ⊎ (q.ats_slot.state ≡ complete)

abbrev by_state : Sequencer → ℕ → SeqState → Verdict
by_state q now st = elim st [
  | loaded ↦ start_plan q ats now
  | complete ↦ start_plan q ats now
  | _ ↦ (false, q)
]

start-Ready : (q : Sequencer) (now : ℕ) → Ready q → start q ats now ≡ start_plan q ats now
unfolding start
start-Ready q now (inl e) = ap (by_state q now) e
start-Ready q now (inr e) = ap (by_state q now) e

-- START of a loaded or complete ATS in time order is accepted if and only if some entry is not past.
-- Then the run begins at an entry such that all before it are past, and it and all after it are not.
pub start-ats :
    (q : Sequencer) (now : ℕ)
    → Ready q
    → InOrder (entries_of q.ats_slot.sequence)
    → ((start q ats now ≡ (false, q)) × All (IsPast now) (entries_of q.ats_slot.sequence))
      ⊎ (((start q ats now).0 ≡ true)
          × ((start q ats now).1.ats_slot.state ≡ running)
          × ((start q ats now).1.ats_slot.position < total q.ats_slot)
          × All
              (IsPast now)
              (take (start q ats now).1.ats_slot.position (entries_of q.ats_slot.sequence))
          × All
              (IsAhead now)
              (drop (start q ats now).1.ats_slot.position (entries_of q.ats_slot.sequence)))
unfolding start_plan
start-ats q now h k = rw (start-Ready q now h) (elim (Bool-cases (n == total q.ats_slot)) [
  | inl e ↦ rw e (inl (refl, all_past (ground (arith, e))))
  | inr e ↦ rw e (
      inr (
        refl,
        refl,
        ground (arith, e, past-le es now),
        (past-split es now k).0,
        (past-split es now k).1,
      ))
])
  where
    es : List SequenceEntry
    es = entries_of q.ats_slot.sequence

    n : ℕ
    n = past es now

    all_past : n ≡ length es → All (IsPast now) es
    all_past e =
        subst (λ (l : List SequenceEntry). All (IsPast now) l) (take_all n es (omega (arith, e)))
          (past-split es now k).0
