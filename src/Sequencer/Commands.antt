-- ===== src/Sequencer/Commands.antt =====
-- The commands of `Sequencer` in xtce_sim/sequencer.py, and `status`.
pub mod Laws
pub mod Machine
pub mod Past
pub mod Status
use xtce_sim.Prelude.{
  ℕ, ◌+◌, ◌-◌, ◌/◌, List, [], ◌∷◌, length, Option, none, some, Bool, true, false, leb, ltb, ◌==◌,
  ◌&&◌, ◌||◌, not, if◌then◌else◌, is_some,
}
use xtce_sim.Utf8.{Text}
use xtce_sim.Sequencer.{
  SeqState, idle, loaded, running, complete, error, CmdResult, Kind, ats, rts, SequenceEntry,
  Sequence, Slot, reset_run, clear, total, exhausted, is_running, is_ats, entries_of, deadline,
  elapsed, Sequencer, slot_of, with_slot,
}

-- The first part of an answer is whether the command was accepted.
abbrev pub Verdict : Type 0
Verdict = Bool × Sequencer

-- The slots that an accepted LOAD, a failed one and an accepted STOP leave.
abbrev pub filled : Slot → Sequence → Slot
filled s p = record (clear s) { sequence = some p; state = loaded }

abbrev pub spoiled : Slot → Text → Slot
spoiled s name = record (clear s) { state = error; error_name = name }

abbrev pub rewound : Slot → Slot
rewound s = record (reset_run s) { state = loaded }

unfoldable pub load : Sequencer → Sequence → Verdict
load q p =
    let s = slot_of q p.kind in
    if is_running s then (false, q) else (true, with_slot q p.kind (filled s p))

unfoldable pub load_failed : Sequencer → Kind → Text → Verdict
load_failed q kind name =
    let s = slot_of q kind in
    if is_running s then (false, q) else (true, with_slot q kind (spoiled s name))

-- `sum(1 for e in entries if e.time < now)`
unfoldable pub past : List SequenceEntry → ℕ → ℕ
past [] now = 0
past (e ∷ es) now = (if ltb e.time now then 1 else 0) + past es now

-- The slot that an accepted START leaves, with that many entries skipped.
abbrev pub started : Slot → ℕ → ℕ → Slot
started s now n = record (reset_run s) { base = now; position = n; skipped = n; state = running }

-- `start` of a slot that holds a plan.
unfoldable pub start_plan : Sequencer → Kind → ℕ → Verdict
start_plan q rts now = (true, with_slot q rts (started q.rts_slot now 0))
start_plan q ats now =
    let n = past (entries_of q.ats_slot.sequence) now in
    if n == total q.ats_slot then (false, q) else (true, with_slot q ats (started q.ats_slot now n))

unfoldable pub start : Sequencer → Kind → ℕ → Verdict
start q kind now = elim (slot_of q kind).state [
  | loaded ↦ start_plan q kind now
  | complete ↦ start_plan q kind now
  | _ ↦ (false, q)
]

unfoldable pub stop : Sequencer → Kind → Verdict
stop q kind =
    let s = slot_of q kind in
    if is_running s then (true, with_slot q kind (rewound s)) else (false, q)

unfoldable pub abort : Sequencer → Kind → Verdict
abort q kind = (true, with_slot q kind (clear (slot_of q kind)))

-- A command to the sequencer, and its dispatch.
pub data SequencerCommand : Type 0 where
  to_load : Sequence → SequencerCommand
  to_load_failed : Kind → Text → SequencerCommand
  to_start : Kind → ℕ → SequencerCommand
  to_stop to_abort : Kind → SequencerCommand

unfoldable pub run : Sequencer → SequencerCommand → Verdict
unfolding load load_failed start stop abort
run q (to_load p) = load q p
run q (to_load_failed kind name) = load_failed q kind name
run q (to_start kind now) = start q kind now
run q (to_stop kind) = stop q kind
run q (to_abort kind) = abort q kind

-- The values of a status packet.
pub record StatusValues : Type 0 where
  pub seq_id : ℕ
  pub seq_name : Text
  pub state : SeqState
  pub cmd_total : ℕ
  pub cmd_executed : ℕ
  pub cmd_skipped : ℕ
  pub cmd_remaining : ℕ
  pub next_cmd_time : ℕ
  pub elapsed_sec : ℕ
  pub last_cmd_name : Text
  pub last_cmd_result : CmdResult

-- `int(...)` of a number of seconds.
abbrev pub whole_seconds : ℕ → ℕ
whole_seconds t = t / 1000000

abbrev seconds_or_zero : Option ℕ → ℕ
seconds_or_zero none = 0
seconds_or_zero (some t) = whole_seconds t

next_time : Kind → Slot → ℕ
next_time kind s =
    if is_some s.sequence && not (exhausted s) && (is_ats kind || is_running s)
    then seconds_or_zero (deadline kind s s.position)
    else 0

unfoldable pub status : Sequencer → Kind → ℕ → StatusValues
unfolding next_time
status q kind now =
    let s = slot_of q kind in
    record {
      seq_id = elim s.state [ idle ↦ 0 | error ↦ 0 | _ ↦ 1 ];
      seq_name = elim s.sequence [ none ↦ s.error_name | some p ↦ p.name ];
      state = s.state;
      cmd_total = total s;
      cmd_executed = s.executed;
      cmd_skipped = s.skipped;
      cmd_remaining = total s - s.executed - s.skipped;
      next_cmd_time = next_time kind s;
      elapsed_sec = whole_seconds (elapsed s now);
      last_cmd_name = s.last_name;
      last_cmd_result = s.last_result;
    }
