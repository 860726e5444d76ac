-- ===== src/Sequencer/Commands/Machine.antt =====
-- The five-state machine of a slot, xtce_sim/sequencer.py, as a relation.
use xtce_sim.Prelude.{ℕ, ◌≡◌, ◌≢◌, refl, arith, true, false, Bool-cases, ◌⊎◌, inl, inr, ◌==◌}
use xtce_sim.Utf8.{Text}
use xtce_sim.Sequencer.{
  SeqState, idle, loaded, running, complete, error, Kind, ats, rts, Sequence, Slot, reset_run,
  clear, is_running, entries_of, total, Sequencer, slot_of, with_slot,
}
use xtce_sim.Sequencer.Commands.{
  SequencerCommand, to_load, to_load_failed, to_start, to_stop, to_abort, load, load_failed, start,
  start_plan, stop, abort, past, run, filled, spoiled, rewound, started,
}

-- The moves of a slot's state under an accepted command.
pub data Transition : SeqState → SeqState → Type 0 where
  installed : (from : SeqState) → from ≢ running → Transition from loaded
  refused : (from : SeqState) → from ≢ running → Transition from error
  launched : Transition loaded running
  relaunched : Transition complete running
  halted : Transition running loaded
  discarded : (from : SeqState) → Transition from idle

abbrev pub target : SequencerCommand → Kind
target (to_load p) = p.kind
target (to_load_failed kind name) = kind
target (to_start kind now) = kind
target (to_stop kind) = kind
target (to_abort kind) = kind

abbrev pub other : Kind → Kind
other ats = rts
other rts = ats

not-running : (s : Slot) → is_running s ≡ false → s.state ≢ running
not-running s h e = absurd (ground (arith, h, e))

pub is_running-state : (s : Slot) → is_running s ≡ true → s.state ≡ running
is_running-state s h = go s.state refl
  where
    go : (st : SeqState) → s.state ≡ st → s.state ≡ running
    go running e = e
    go idle e = absurd (ground (arith, h, e))
    go loaded e = absurd (ground (arith, h, e))
    go complete e = absurd (ground (arith, h, e))
    go error e = absurd (ground (arith, h, e))

-- The slot that a command is about made a move of the machine, and the other slot is as it was.
abbrev pub Moved : Sequencer → Sequencer → Kind → Type 0
Moved q q' kind =
    Transition (slot_of q kind).state (slot_of q' kind).state
    × (slot_of q' (other kind) ≡ slot_of q (other kind))

abbrev Outcome : Sequencer → SequencerCommand → Type 0
Outcome q c = (run q c ≡ (false, q)) ⊎ (((run q c).0 ≡ true) × Moved q (run q c).1 (target c))

pub slot-with : (q : Sequencer) (kind : Kind) (s : Slot) → slot_of (with_slot q kind s) kind ≡ s
slot-with q ats s = refl
slot-with q rts s = refl

pub other-with :
    (q : Sequencer) (kind : Kind) (s : Slot)
    → slot_of (with_slot q kind s) (other kind) ≡ slot_of q (other kind)
other-with q ats s = refl
other-with q rts s = refl

move :
    (q : Sequencer) (kind : Kind) (s : Slot)
    → Transition (slot_of q kind).state s.state
    → Moved q (with_slot q kind s) kind
move q kind s t = (rw (slot-with q kind s) t, other-with q kind s)

load-Outcome : (q : Sequencer) (p : Sequence) → Outcome q (to_load p)
unfolding run load
load-Outcome q p = elim (Bool-cases (is_running (slot_of q p.kind))) [
  | inl r ↦ inl (rw r refl)
  | inr r ↦ inr (
    rw r refl,
    rw r (
        move q p.kind (filled (slot_of q p.kind) p)
          (installed (slot_of q p.kind).state (not-running (slot_of q p.kind) r))),
  )
]

fail-Outcome : (q : Sequencer) (kind : Kind) (name : Text) → Outcome q (to_load_failed kind name)
unfolding run load_failed
fail-Outcome q kind name = elim (Bool-cases (is_running (slot_of q kind))) [
  | inl r ↦ inl (rw r refl)
  | inr r ↦ inr (
    rw r refl,
    rw r (
        move q kind (spoiled (slot_of q kind) name)
          (refused (slot_of q kind).state (not-running (slot_of q kind) r))),
  )
]

stop-Outcome : (q : Sequencer) (kind : Kind) → Outcome q (to_stop kind)
unfolding run stop
stop-Outcome q kind = elim (Bool-cases (is_running (slot_of q kind))) [
  | inr r ↦ inl (rw r refl)
  | inl r ↦ inr (
    rw r refl,
    rw r (move q kind (rewound (slot_of q kind)) (rw (is_running-state (slot_of q kind) r) halted)),
  )
]

-- A START of a slot that holds a plan.
plan-Outcome :
    (q : Sequencer) (kind : Kind) (now : ℕ)
    → Transition (slot_of q kind).state running
    → (start_plan q kind now ≡ (false, q))
      ⊎ (((start_plan q kind now).0 ≡ true) × Moved q (start_plan q kind now).1 kind)
unfolding start_plan
plan-Outcome q rts now t = inr (refl, move q rts (started q.rts_slot now 0) t)
plan-Outcome q ats now t =
    elim (Bool-cases (past (entries_of q.ats_slot.sequence) now == total q.ats_slot)) [
      | inl e ↦ inl (rw e refl)
      | inr e ↦ inr (
        rw e refl,
        rw e (move q ats (started q.ats_slot now (past (entries_of q.ats_slot.sequence) now)) t),
      )
    ]

start-plan :
    (q : Sequencer) (kind : Kind) (now : ℕ) (st : SeqState)
    → (slot_of q kind).state ≡ st
    → Outcome q (to_start kind now)
unfolding run start
start-plan q kind now idle e = inl (rw (start, e) refl)
start-plan q kind now running e = inl (rw (start, e) refl)
start-plan q kind now error e = inl (rw (start, e) refl)
start-plan q kind now loaded e = rw (start, e) (rw e at (plan-Outcome q kind now (rw e launched)))
start-plan q kind now complete e =
    rw (start, e) (rw e at (plan-Outcome q kind now (rw e relaunched)))

start-Outcome : (q : Sequencer) (kind : Kind) (now : ℕ) → Outcome q (to_start kind now)
start-Outcome q kind now = start-plan q kind now (slot_of q kind).state refl

-- A refused command changes nothing. An accepted one moves the state of its slot along the machine
-- and leaves the other slot as it was.
pub run-Moved :
    (q : Sequencer) (c : SequencerCommand)
    → (run q c ≡ (false, q)) ⊎ (((run q c).0 ≡ true) × Moved q (run q c).1 (target c))
unfolding run abort clear reset_run
run-Moved q (to_load p) = load-Outcome q p
run-Moved q (to_load_failed kind name) = fail-Outcome q kind name
run-Moved q (to_start kind now) = start-Outcome q kind now
run-Moved q (to_stop kind) = stop-Outcome q kind
run-Moved q (to_abort kind) =
    inr (refl, move q kind (clear (slot_of q kind)) (discarded (slot_of q kind).state))
