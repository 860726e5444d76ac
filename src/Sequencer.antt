-- ===== src/Sequencer.antt =====
-- xtce_sim/sequencer.py: one ATS slot and one RTS slot, and `SequenceEntry` and `Sequence` of
-- xtce_sim/sequences.py. A time is a number of microseconds, where the code has a float of seconds;
-- a difference on ℕ stops at 0, as the code's `max(0.0, ...)` does. Log lines and the texts of the
-- answers are left out.
pub mod Commands
pub mod Tick
use xtce_sim.Prelude.{
  ℕ, ◌+◌, ◌-◌, ◌/◌, List, [], ◌∷◌, length, get_elem?, Option, none, some, Bool, true, false, leb,
  ltb, ◌==◌, ◌&&◌, ◌||◌, not, if◌then◌else◌, is_some,
}
use xtce_sim.Prelude.Dict.{Dict}
use xtce_sim.Utf8.{Text}

pub data SeqState : Type 0 where
  idle loaded running complete error : SeqState

pub data CmdResult : Type 0 where
  success failed pending : CmdResult

pub data Kind : Type 0 where
  ats rts : Kind

pub record SequenceEntry : Type 0 where
  pub time : ℕ
  pub command : Text
  pub args : Dict Text Text
  pub line : ℕ

pub record Sequence : Type 0 where
  pub kind : Kind
  pub name : Text
  pub entries : List SequenceEntry

-- `Fired`
pub record Fired : Type 0 where
  pub kind : Kind
  pub command : Text
  pub args : Dict Text Text
  pub success : Bool

-- `_Slot`; its kind is the field of `Sequencer` that it stands in.
pub record Slot : Type 0 where
  pub sequence : Option Sequence
  pub state : SeqState
  pub position : ℕ
  pub base : ℕ
  pub final_elapsed : ℕ
  pub executed : ℕ
  pub skipped : ℕ
  pub last_name : Text
  pub last_result : CmdResult
  pub error_name : Text
  pub generation : ℕ

abbrev pub empty_slot : Slot
empty_slot = record {
  sequence = none;
  state = idle;
  position = 0;
  base = 0;
  final_elapsed = 0;
  executed = 0;
  skipped = 0;
  last_name = [];
  last_result = pending;
  error_name = [];
  generation = 0;
}

-- `_Slot.reset_run`
unfoldable pub reset_run : Slot → Slot
reset_run s = record s {
  position = 0;
  base = 0;
  final_elapsed = 0;
  executed = 0;
  skipped = 0;
  last_name = [];
  last_result = pending;
  generation = s.generation + 1;
}

-- `_Slot.clear`
unfoldable pub clear : Slot → Slot
clear s = reset_run (record s { sequence = none; state = idle; error_name = [] })

abbrev pub entries_of : Option Sequence → List SequenceEntry
entries_of none = []
entries_of (some p) = p.entries

-- `_Slot.total`
abbrev pub total : Slot → ℕ
total s = length (entries_of s.sequence)

-- `_Slot.exhausted`
abbrev pub exhausted : Slot → Bool
exhausted s = is_some s.sequence && leb (total s) s.position

abbrev pub is_running : Slot → Bool
is_running s = elim s.state [ running ↦ true | _ ↦ false ]

abbrev pub is_ats : Kind → Bool
is_ats ats = true
is_ats rts = false

-- `_Slot.deadline`; `none` stands for the exception of a missing entry.
unfoldable pub deadline : Kind → Slot → ℕ → Option ℕ
deadline kind s index = elim (get_elem? (entries_of s.sequence) index) [
  | none ↦ none
  | some entry ↦ some (if is_ats kind then entry.time else s.base + entry.time)
]

-- `_Slot.elapsed`
unfoldable pub elapsed : Slot → ℕ → ℕ
elapsed s now = elim s.state [ running ↦ now - s.base | complete ↦ s.final_elapsed | _ ↦ 0 ]

pub record Sequencer : Type 0 where
  pub ats_slot : Slot
  pub rts_slot : Slot

-- `Sequencer.__init__`
abbrev pub new_sequencer : Sequencer
new_sequencer = record { ats_slot = empty_slot; rts_slot = empty_slot }

-- `self._slots[kind]`, and what an assignment to that slot's fields leaves.
abbrev pub slot_of : Sequencer → Kind → Slot
slot_of q ats = q.ats_slot
slot_of q rts = q.rts_slot

abbrev pub with_slot : Sequencer → Kind → Slot → Sequencer
with_slot q ats s = record q { ats_slot = s }
with_slot q rts s = record q { rts_slot = s }
