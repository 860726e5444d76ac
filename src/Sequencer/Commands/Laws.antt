-- ===== src/Sequencer/Commands/Laws.antt =====
-- The invariant of a slot, xtce_sim/sequencer.py, and what its run number tells.
use xtce_sim.Prelude.{
  ℕ, ◌+◌, ◌≤◌, ◌<◌, ◌≡◌, refl, arith, length, List, [], ◌∷◌, Option, none, true, Bool-cases, ◌⊎◌,
  inl, inr, is_some, ◌==◌,
}
use xtce_sim.Utf8.{Text}
use xtce_sim.Sequencer.{
  SeqState, idle, loaded, running, complete, error, Kind, ats, rts, Sequence, SequenceEntry, Slot,
  reset_run, clear, is_running, entries_of, total, Sequencer, slot_of, with_slot,
}
use xtce_sim.Sequencer.Commands.{
  SequencerCommand, to_load, to_load_failed, to_start, to_stop, to_abort, load, load_failed, start,
  start_plan, stop, abort, past, run, filled, spoiled, rewound, started,
}
use xtce_sim.Sequencer.Commands.Machine.{is_running-state}

-- What the state says of the plan and the position: IDLE and ERROR hold no plan, the others do;
-- a run has not passed the end of its plan, and a complete one is at the end.
abbrev pub Fits : SeqState → Option Sequence → ℕ → Type 0
Fits idle p i = (p ≡ none) × (i ≡ 0)
Fits error p i = (p ≡ none) × (i ≡ 0)
Fits loaded p i = (is_some p ≡ true) × (i ≡ 0)
Fits running p i = (is_some p ≡ true) × (i ≤ length (entries_of p))
Fits complete p i = (is_some p ≡ true) × (i ≡ length (entries_of p))

-- Every entry before the position was executed or skipped.
abbrev pub IsCounted : Slot → Type 0
IsCounted s = s.executed + s.skipped ≡ s.position

abbrev pub IsSound : Slot → Type 0
IsSound s = Fits s.state s.sequence s.position × IsCounted s

abbrev pub AllSound : Sequencer → Type 0
AllSound q = IsSound q.ats_slot × IsSound q.rts_slot

-- The run goes on untouched, or it is over and the slot is sound.
abbrev pub Kept : Slot → Slot → Type 0
Kept s s' = (s' ≡ s) ⊎ ((s.generation < s'.generation) × IsSound s')

pub past-le : (es : List SequenceEntry) (now : ℕ) → past es now ≤ length es
unfolding past
past-le [] now = omega arith
past-le (e ∷ es) now = ground (arith, past-le es now)

filled-Kept : (s : Slot) (p : Sequence) → Kept s (filled s p)
unfolding clear reset_run
filled-Kept s p = inr (omega arith, ((refl, refl), refl))

spoiled-Kept : (s : Slot) (name : Text) → Kept s (spoiled s name)
unfolding clear reset_run
spoiled-Kept s name = inr (omega arith, ((refl, refl), refl))

clear-Kept : (s : Slot) → Kept s (clear s)
unfolding clear reset_run
clear-Kept s = inr (omega arith, ((refl, refl), refl))

rewound-Kept : (s : Slot) → is_some s.sequence ≡ true → Kept s (rewound s)
unfolding reset_run
rewound-Kept s h = inr (omega arith, ((h, refl), refl))

started-Kept :
    (s : Slot) (now n : ℕ) → is_some s.sequence ≡ true → n ≤ total s → Kept s (started s now n)
unfolding reset_run
started-Kept s now n h k = inr (omega arith, ((h, k), omega arith))

same : (s : Slot) → Kept s s
same s = inl refl

-- One slot's change is a change of both.
Kept-with :
    (q : Sequencer) (kind j : Kind) (s : Slot)
    → Kept (slot_of q kind) s
    → Kept (slot_of q j) (slot_of (with_slot q kind s) j)
Kept-with q ats ats s h = h
Kept-with q ats rts s h = same q.rts_slot
Kept-with q rts ats s h = same q.ats_slot
Kept-with q rts rts s h = h

abbrev pub FitsAll : Sequencer → Type 0
FitsAll q = (j : Kind) → Fits (slot_of q j).state (slot_of q j).sequence (slot_of q j).position

plan-Kept :
    (q : Sequencer) (kind j : Kind) (now : ℕ)
    → is_some (slot_of q kind).sequence ≡ true
    → Kept (slot_of q j) (slot_of (start_plan q kind now).1 j)
unfolding start_plan
plan-Kept q rts j now h =
    Kept-with q rts j (started q.rts_slot now 0) (started-Kept q.rts_slot now 0 h (omega arith))
plan-Kept q ats j now h =
    elim (Bool-cases (past (entries_of q.ats_slot.sequence) now == total q.ats_slot)) [
      | inl e ↦ rw e (same (slot_of q j))
      | inr e ↦ rw e (
          Kept-with q ats j (started q.ats_slot now (past (entries_of q.ats_slot.sequence) now)) (
            started-Kept q.ats_slot now (past (entries_of q.ats_slot.sequence) now) h
              (past-le (entries_of q.ats_slot.sequence) now)))
    ]

start-Kept :
    (q : Sequencer) (kind j : Kind) (now : ℕ) (st : SeqState)
    → Fits st (slot_of q kind).sequence (slot_of q kind).position
    → (slot_of q kind).state ≡ st
    → Kept (slot_of q j) (slot_of (start q kind now).1 j)
unfolding start
start-Kept q kind j now idle f e = rw (start, e) (same (slot_of q j))
start-Kept q kind j now running f e = rw (start, e) (same (slot_of q j))
start-Kept q kind j now error f e = rw (start, e) (same (slot_of q j))
start-Kept q kind j now loaded f e = rw (start, e) (plan-Kept q kind j now f.0)
start-Kept q kind j now complete f e = rw (start, e) (plan-Kept q kind j now f.0)

pub running-plan :
    (s : Slot)
    → is_running s ≡ true
    → Fits s.state s.sequence s.position
    → (is_some s.sequence ≡ true) × (s.position ≤ total s)
running-plan s r f = rw (is_running-state s r) at f

stop-Kept :
    (q : Sequencer) (kind j : Kind) → FitsAll q → Kept (slot_of q j) (slot_of (stop q kind).1 j)
unfolding stop
stop-Kept q kind j f = elim (Bool-cases (is_running (slot_of q kind))) [
  | inr r ↦ rw r (same (slot_of q j))
  | inl r ↦ rw r (
      Kept-with q kind j (rewound (slot_of q kind))
        (rewound-Kept (slot_of q kind) (running-plan (slot_of q kind) r (f kind)).0))
]

pub run-Kept :
    (q : Sequencer) (c : SequencerCommand) (j : Kind)
    → FitsAll q
    → Kept (slot_of q j) (slot_of (run q c).1 j)
unfolding run load load_failed abort
run-Kept q (to_load p) j f = elim (Bool-cases (is_running (slot_of q p.kind))) [
  | inl r ↦ rw r (same (slot_of q j))
  | inr r ↦
      rw r (Kept-with q p.kind j (filled (slot_of q p.kind) p) (filled-Kept (slot_of q p.kind) p))
]
run-Kept q (to_load_failed kind name) j f = elim (Bool-cases (is_running (slot_of q kind))) [
  | inl r ↦ rw r (same (slot_of q j))
  | inr r ↦
      rw r (Kept-with q kind j (spoiled (slot_of q kind) name) (spoiled-Kept (slot_of q kind) name))
]
run-Kept q (to_start kind now) j f = start-Kept q kind j now (slot_of q kind).state (f kind) refl
run-Kept q (to_stop kind) j f = stop-Kept q kind j f
run-Kept q (to_abort kind) j f =
    Kept-with q kind j (clear (slot_of q kind)) (clear-Kept (slot_of q kind))

-- A run that a command keeps or ends stays as its state says.
pub Kept-Fits :
    (s s' : Slot)
    → Kept s s'
    → Fits s.state s.sequence s.position
    → Fits s'.state s'.sequence s'.position
Kept-Fits s s' (inl e) f = rw e f
Kept-Fits s s' (inr h) f = h.1.0

pub Kept-IsSound : (s s' : Slot) → Kept s s' → IsSound s → IsSound s'
Kept-IsSound s s' (inl e) f = rw e f
Kept-IsSound s s' (inr h) f = h.1

pub sound-FitsAll : (q : Sequencer) → AllSound q → FitsAll q
sound-FitsAll q h ats = h.0.0
sound-FitsAll q h rts = h.1.0

-- Every command, accepted or refused, keeps both slots sound.
pub run-AllSound : (q : Sequencer) (c : SequencerCommand) → AllSound q → AllSound (run q c).1
run-AllSound q c h = (
  Kept-IsSound q.ats_slot (run q c).1.ats_slot (run-Kept q c ats (sound-FitsAll q h)) h.0,
  Kept-IsSound q.rts_slot (run q c).1.rts_slot (run-Kept q c rts (sound-FitsAll q h)) h.1,
)
