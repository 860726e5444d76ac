-- ===== src/SeqService.antt =====
-- `SequenceService` of xtce_sim/seqservice.py: the commands of the sequencer, LOAD's reading of a plan,
-- and the values of the two status packets. Log lines, the reports of what a definition lacks, and the
-- texts of the answers are left out. The clock's reading is an argument.
pub mod Commands
pub mod Loading
pub mod Routes
use xtce_sim.Prelude.{
  ℕ, suc, zero, ◌+◌, ◌-◌, ◌/◌, ◌%◌, List, [], ◌∷◌, ◌++◌, length, Option, none, some, Bool, true,
  false, ◌&&◌, ◌||◌, not, Result, ok, err, value_error, sequence_refused, key_error, leb, ltb, ◌==◌,
  if◌then◌else◌, is_some,
}
use xtce_sim.Prelude.Int.{ℤ, pos, negsuc, eqb_ℤ}
use xtce_sim.Prelude.Texts.{codes, lower, remove_prefix}
use xtce_sim.Prelude.Equality.{list_eq, list_beq, nat_eq}
use xtce_sim.Prelude.Dict
use xtce_sim.Prelude.Dict.{Dict}
use xtce_sim.Utf8.{Text, encode, decode, strict}
use xtce_sim.Schema.{ParamInfo, CommandDef, FieldInfo, PacketDef, SimDefinition}
use xtce_sim.Definition.{command_by_name}
use xtce_sim.Codec.{Value, int, flag, text, raw, is_string_type}
use xtce_sim.Codec.Command.{is_enumerated}
use xtce_sim.FileStore.{FileStore, read}
use xtce_sim.FileService.Commands.{
  Argument, absent, raw as raw_argument, shown, decode_filename_arg,
}
use xtce_sim.Sequencer.{
  SeqState, idle, loaded, running, complete, error, CmdResult, success, failed, pending, Kind, ats,
  rts, Sequence, Sequencer,
}
use xtce_sim.Sequencer.Commands.{
  Verdict, load, load_failed, start, stop, abort, StatusValues, status, whole_seconds,
}
use xtce_sim.SequenceFile.{Parsed, rejected, accepted, kind_for, parse}

pub data Verb : Type 0 where
  to_load to_start to_stop to_abort : Verb

-- `SEQUENCE_COMMANDS`
abbrev pub sequence_commands : Dict Text (Kind × Verb)
sequence_commands =
    (codes "LOAD_ATS", (ats, to_load))
    ∷ (codes "START_ATS", (ats, to_start))
    ∷ (codes "STOP_ATS", (ats, to_stop))
    ∷ (codes "ABORT_ATS", (ats, to_abort))
    ∷ (codes "LOAD_RTS", (rts, to_load))
    ∷ (codes "START_RTS", (rts, to_start))
    ∷ (codes "STOP_RTS", (rts, to_stop))
    ∷ (codes "ABORT_RTS", (rts, to_abort))
    ∷ []

-- `handles`
unfoldable pub handles : Text → Bool
handles name = is_some (Dict.get sequence_commands name)

-- `next((p for p in params if p.name == name), None)`
unfoldable pub param_named : List ParamInfo → Text → Option ParamInfo
param_named [] name = none
param_named (p ∷ ps) name = if list_beq p.name name then some p else param_named ps name

abbrev value_of_label : Option ParamInfo → Text → Value
value_of_label none l = text l
value_of_label (some p) l =
    if is_enumerated p
    then elim (Dict.get p.enumerations l) [ none ↦ text l | some z ↦ int z ]
    else text l

abbrev param_of : Option CommandDef → Text → Option ParamInfo
param_of none name = none
param_of (some c) name = param_named c.params name

-- `_seq_id_wire_value`
unfoldable pub seq_id_wire_value : SimDefinition → Text → Dict Text Value → Option Value
seq_id_wire_value simdef name args = elim (Dict.get args (codes "SeqId")) [
  | some (text l) ↦
      some (value_of_label (param_of (command_by_name simdef.commands name) (codes "SeqId")) l)
  | v ↦ v
]

-- `seq_id in (None, 1)`; True is 1.
abbrev pub is_only_slot : Option Value → Bool
is_only_slot none = true
is_only_slot (some (int z)) = eqb_ℤ z (pos 1)
is_only_slot (some (flag b)) = b
is_only_slot (some (text s)) = false
is_only_slot (some (raw b)) = false

-- `str(n)`, on fuel: a number has at most as many digits as its value, and one.
digits : ℕ → ℕ → Text → Text
digits zero n more = (b'0' + n % 10) ∷ more
digits (suc fuel) n more =
    let longer = digits fuel (n / 10) ((b'0' + n % 10) ∷ more) in
    if ltb n 10 then (b'0' + n) ∷ more else longer

unfoldable pub shown_int : ℤ → Text
unfolding digits
shown_int (pos n) = digits n n []
shown_int (negsuc n) = b'-' ∷ digits (suc n) (suc n) []

-- The argument that `decode_filename_arg` is given.
abbrev pub argument : Option Value → Argument
argument none = absent
argument (some (raw b)) = raw_argument b
argument (some (text s)) = shown s
argument (some (int z)) = shown (shown_int z)
argument (some (flag true)) = shown (codes "True")
argument (some (flag false)) = shown (codes "False")

abbrev pub same_kind : Kind → Kind → Bool
same_kind ats ats = true
same_kind rts rts = true
same_kind _ _ = false

abbrev suits : Kind → Option Kind → Bool
suits kind none = true
suits kind (some declared) = same_kind declared kind

abbrev pub plan_or_none : Parsed → Option Sequence
plan_or_none (accepted plan) = some plan
plan_or_none (rejected lines) = none

-- What a command returns or raises, and the sequencer after it.
abbrev pub Answer : Type 0
Answer = Result Bool × Sequencer

abbrev pub answer : Verdict → Answer
answer (true, q) = (ok true, q)
answer (false, q) = (err sequence_refused, q)

-- The end of `_cmd_load`.
abbrev pub installed : Sequencer → Kind → Text → Option Sequence → Answer
installed q kind name (some plan) = answer (load q plan)
installed q kind name none = (err sequence_refused, (load_failed q kind name).1)

-- `name or "(no filename)"`
abbrev pub shown_name : Text → Text
shown_name [] = codes "(no filename)"
shown_name (c ∷ s) = c ∷ s

-- The constructor's store and definition, and the reader of time stamps.
module _ (from_iso : Text → Option ℕ) (simdef : SimDefinition) (store : FileStore) where
  -- `_read_plan`; `none` stands for any problem.
  unfoldable pub read_plan : Kind → Text → Option Sequence
  read_plan kind name =
      if length name == 0
      then none
      else if suits kind (kind_for name)
      then elim (read store name) [
        | err e ↦ none
        | ok content ↦ elim (decode strict content) [
          | none ↦ none
          | some s ↦ plan_or_none (parse from_iso kind s name (some simdef))
        ]
      ]
      else none

  -- `_cmd_load`
  unfoldable pub cmd_load : Sequencer → Kind → Dict Text Value → Answer
  unfolding read_plan
  cmd_load q kind args =
      let name = decode_filename_arg (argument (Dict.get args (codes "Filename"))) in
      installed q kind (shown_name name) (read_plan kind name)

  abbrev pub routed : Sequencer → ℕ → Kind → Verb → Dict Text Value → Answer
  routed q now kind to_load args = cmd_load q kind args
  routed q now kind to_start args = answer (start q kind now)
  routed q now kind to_stop args = answer (stop q kind)
  routed q now kind to_abort args = answer (abort q kind)

  abbrev pub routed_by : Sequencer → ℕ → Dict Text Value → Option (Kind × Verb) → Answer
  routed_by q now args none = (err key_error, q)
  routed_by q now args (some (kind, verb)) = routed q now kind verb args

  -- `handle_command`
  unfoldable pub handle_command : Sequencer → ℕ → Text → Dict Text Value → Answer
  unfolding cmd_load
  handle_command q now name args =
      if is_only_slot (seq_id_wire_value simdef name args)
      then routed_by q now args (Dict.get sequence_commands name)
      else (err sequence_refused, q)

abbrev state_name : SeqState → Text
state_name idle = codes "IDLE"
state_name loaded = codes "LOADED"
state_name running = codes "RUNNING"
state_name complete = codes "COMPLETE"
state_name error = codes "ERROR"

abbrev result_name : CmdResult → Text
result_name success = codes "SUCCESS"
result_name failed = codes "FAILED"
result_name pending = codes "PENDING"

-- The dict that `Sequencer.status` returns.
abbrev pub status_dict : StatusValues → Dict Text Value
status_dict v =
    (codes "seq_id", int (pos v.seq_id))
    ∷ (codes "seq_name", text v.seq_name)
    ∷ (codes "state", text (state_name v.state))
    ∷ (codes "cmd_total", int (pos v.cmd_total))
    ∷ (codes "cmd_executed", int (pos v.cmd_executed))
    ∷ (codes "cmd_skipped", int (pos v.cmd_skipped))
    ∷ (codes "cmd_remaining", int (pos v.cmd_remaining))
    ∷ (codes "next_cmd_time", int (pos v.next_cmd_time))
    ∷ (codes "elapsed_sec", int (pos v.elapsed_sec))
    ∷ (codes "last_cmd_name", text v.last_cmd_name)
    ∷ (codes "last_cmd_result", text (result_name v.last_cmd_result))
    ∷ []

-- `_wire_label`
unfoldable pub wire_label : FieldInfo → Text → Option Value
wire_label f l = elim f.enumerations [
  | [] ↦ if is_string_type f.python_type then some (raw (encode l)) else none
  | _ ↦ elim (Dict.get f.enumerations l) [ none ↦ none | some z ↦ some (int z) ]
]

abbrev pack_ready : FieldInfo → Option Value → Option Value
pack_ready f (some (text l)) = wire_label f l
pack_ready f v = v

-- The value of one field in the loop of `values_for`.
unfoldable pub field_value : Text → Dict Text Value → ℕ → FieldInfo → Option Value
unfolding wire_label
field_value prefix values now f =
    let key = lower (remove_prefix prefix f.name) in
    if list_beq key (codes "timestamp")
    then some (int (pos (whole_seconds now)))
    else pack_ready f (Dict.get values key)

abbrev pub put_some : Dict Text Value → Text → Option Value → Dict Text Value
put_some d name none = d
put_some d name (some v) = Dict.put d name v

unfoldable pub field_values :
    Text → Dict Text Value → ℕ → List FieldInfo → Dict Text Value → Dict Text Value
unfolding field_value
field_values prefix values now [] d = d
field_values prefix values now (f ∷ fs) d =
    field_values prefix values now fs (put_some d f.name (field_value prefix values now f))

-- `SimDefinition.packet_by_name`
unfoldable pub packet_by_name : List PacketDef → Text → Option PacketDef
packet_by_name [] name = none
packet_by_name (p ∷ ps) name = if list_beq p.name name then some p else packet_by_name ps name

-- `_STATUS_PACKET_NAMES`, and the prefix of the fields.
abbrev pub status_packet_name : Kind → Text
status_packet_name ats = codes "ATS_STATUS"
status_packet_name rts = codes "RTS_STATUS"

abbrev field_prefix : Kind → Text
field_prefix ats = codes "ATS_"
field_prefix rts = codes "RTS_"

abbrev pub status_packet : SimDefinition → Kind → Option PacketDef
status_packet simdef kind = packet_by_name simdef.packets (status_packet_name kind)

abbrev put_apid : Dict ℕ Kind → Option PacketDef → Kind → Dict ℕ Kind
put_apid d none kind = d
put_apid d (some p) kind = Dict.put d p.apid kind

-- `_kind_by_apid`
unfoldable pub kind_by_apid : SimDefinition → Dict ℕ Kind
unfolding packet_by_name
kind_by_apid simdef =
    put_apid (put_apid [] (status_packet simdef ats) ats) (status_packet simdef rts) rts

abbrev listed : Option PacketDef → List PacketDef
listed none = []
listed (some p) = p ∷ []

-- `status_packets`
unfoldable pub status_packets : SimDefinition → List PacketDef
unfolding packet_by_name
status_packets simdef = listed (status_packet simdef ats) ++ listed (status_packet simdef rts)

-- `values_for`
unfoldable pub values_for : SimDefinition → Sequencer → ℕ → PacketDef → Dict Text Value
unfolding field_values kind_by_apid
values_for simdef q now packet = elim (Dict.get (kind_by_apid simdef) packet.apid) [
  | none ↦ []
  | some kind ↦
      field_values (field_prefix kind) (status_dict (status q kind now)) now packet.fields []
]
