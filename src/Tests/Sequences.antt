-- ===== src/Tests/Sequences.antt =====
-- The theorems on xtce_sim/sequences.py and xtce_sim/seqservice.py at concrete inputs.
use xtce_sim.Prelude.{
  ℕ, if◌then◌else◌, ◌≡◌, refl, List, [], ◌∷◌, some, none, true, false, ok, err, Option,
  sequence_refused,
}
use xtce_sim.Prelude.Texts.{codes, split_at}
use xtce_sim.Prelude.Equality.{list_eq, list_beq}
use xtce_sim.Prelude.Dict
use xtce_sim.Prelude.Dict.{Dict}
use xtce_sim.Prelude.Sort.{with_key}
use xtce_sim.Utf8.{Text}
use xtce_sim.Codec.{Value, text, int}
use xtce_sim.Sequencer.{
  Sequencer, new_sequencer, rts, ats, running, loaded, Slot, empty_slot, Sequence, is_running,
  slot_of,
}
use xtce_sim.Sequencer.Commands.{SequencerCommand, run}
use xtce_sim.SequenceFile.{parse, accepted, all_problems, scanned}
use xtce_sim.SequenceFile.Accepted.{IsPlan, parse-IsPlan}
use xtce_sim.SeqService
use xtce_sim.SeqService.{
  Answer, sequence_commands, handle_command, to_load, is_only_slot, seq_id_wire_value,
}
use xtce_sim.SeqService.Commands.{handle_command-refused}
use xtce_sim.SeqService.Routes.{command_name, reply, Serves, handle_command-Serves}
use xtce_sim.SeqService.Loading.{Loaded, filename, handle_command-Loaded}
use xtce_sim.Tests.Vehicle.{definition, plan_name, plan_text, entry, store}

abbrev no_iso : Text → Option ℕ
no_iso s = none

abbrev plan : Sequence
plan = record {
  kind = rts;
  name = plan_name;
  entries =
      (record entry { time = 1000000; args = (codes "Level", codes "4") ∷ []; line = 2 })
      ∷ entry
      ∷ [];
}

plan_parsed : parse no_iso rts plan_text plan_name (some definition) ≡ accepted plan
unfolding parse xtce_sim.SequenceFile.scan_lines xtce_sim.Prelude.Texts.split_at
    xtce_sim.Prelude.Texts.strip xtce_sim.Prelude.Texts.before xtce_sim.Prelude.Texts.words
    xtce_sim.SequenceFile.parse_rts_delay xtce_sim.Prelude.Texts.behind
    xtce_sim.SequenceFile.collect_args Dict.get xtce_sim.SequenceFile.definition_problems
    xtce_sim.Definition.command_by_name list_beq xtce_sim.Codec.Command.encode_command Dict.put
    xtce_sim.Codec.Command.wire_values xtce_sim.Codec.Command.coerce_arg
    xtce_sim.Codec.IntLiteral.int_literal xtce_sim.Codec.Command.arg_violation
    xtce_sim.Codec.Command.by_name xtce_sim.Codec.Command.command_struct_format
    xtce_sim.Codec.Command.numeric_violation xtce_sim.Codec.Command.range_violations
    xtce_sim.Codec.item_for xtce_sim.Codec.pack_item xtce_sim.Codec.pack_items
    xtce_sim.Codec.to_word xtce_sim.Prelude.Sort.insert xtce_sim.Prelude.Sort.sort
    xtce_sim.Prelude.Texts.is_space xtce_sim.Prelude.Texts.lower all_problems
    xtce_sim.SequenceFile.entry_problem xtce_sim.SequenceFile.parse_ats_time
    xtce_sim.SequenceFile.parse_line xtce_sim.Utf8.encode xtce_sim.Utf8.encode_char
plan_parsed = refl

parse-IsPlan_example :
    (plan.kind ≡ rts)
    × ((scanned no_iso rts plan_text).0 ≡ [])
    × IsPlan definition (scanned no_iso rts plan_text).1 plan.entries
parse-IsPlan_example = parse-IsPlan no_iso rts plan_text plan_name definition plan plan_parsed

abbrev two : List ℕ
two = 2 ∷ []

abbrev load_args : Dict Text Value
load_args = (codes "Filename", text plan_name) ∷ []

abbrev loaded_slot : Slot
loaded_slot = record empty_slot { sequence = some plan; state = loaded; generation = 1 }

abbrev after_load : Sequencer
after_load = record { ats_slot = empty_slot; rts_slot = loaded_slot }

load_route : Dict.get sequence_commands (codes "LOAD_RTS") ≡ some (rts, to_load)
unfolding Dict.get list_beq
load_route = refl

load_answer :
    handle_command no_iso definition store new_sequencer 5 (codes "LOAD_RTS") load_args
    ≡ (ok true, after_load)
unfolding handle_command SeqService.seq_id_wire_value
    xtce_sim.FileService.Commands.decode_filename_arg xtce_sim.SequenceFile.kind_for
    xtce_sim.FileStore.read xtce_sim.FileStore.path xtce_sim.FileStore.name_problem
    xtce_sim.Utf8.decode SeqService.read_plan SeqService.cmd_load xtce_sim.FileStore.file_at
    xtce_sim.FileStore.is_part xtce_sim.Sequencer.Commands.load xtce_sim.Sequencer.clear
    xtce_sim.Sequencer.reset_run parse xtce_sim.SequenceFile.scan_lines
    xtce_sim.Prelude.Texts.split_at xtce_sim.Prelude.Texts.strip xtce_sim.Prelude.Texts.before
    xtce_sim.Prelude.Texts.words xtce_sim.SequenceFile.parse_rts_delay xtce_sim.Prelude.Texts.behind
    xtce_sim.SequenceFile.collect_args Dict.get xtce_sim.SequenceFile.definition_problems
    xtce_sim.Definition.command_by_name list_beq xtce_sim.Codec.Command.encode_command Dict.put
    xtce_sim.Codec.Command.wire_values xtce_sim.Codec.Command.coerce_arg
    xtce_sim.Codec.IntLiteral.int_literal xtce_sim.Codec.Command.arg_violation
    xtce_sim.Codec.Command.by_name xtce_sim.Codec.Command.command_struct_format
    xtce_sim.Codec.Command.numeric_violation xtce_sim.Codec.Command.range_violations
    xtce_sim.Codec.item_for xtce_sim.Codec.pack_item xtce_sim.Codec.pack_items
    xtce_sim.Codec.to_word xtce_sim.Prelude.Sort.insert xtce_sim.Prelude.Sort.sort
    xtce_sim.Prelude.Texts.is_space xtce_sim.Prelude.Texts.lower all_problems
    xtce_sim.SequenceFile.entry_problem xtce_sim.SequenceFile.parse_ats_time
    xtce_sim.SequenceFile.parse_line xtce_sim.Utf8.encode xtce_sim.Utf8.encode_char
load_answer = refl

handle_command-Loaded_example :
    Loaded no_iso definition store new_sequencer rts (filename load_args) after_load
handle_command-Loaded_example =
    handle_command-Loaded no_iso definition store new_sequencer after_load 5 (codes "LOAD_RTS")
      load_args rts true load_route load_answer

handle_command-Serves_example :
    (c : SequencerCommand) × Serves no_iso definition store to_load rts 5 load_args c
    × (handle_command no_iso definition store new_sequencer 5 (command_name to_load rts) load_args
        ≡ (if is_only_slot (seq_id_wire_value definition (command_name to_load rts) load_args)
            then reply c (run new_sequencer c)
            else (err sequence_refused, new_sequencer)))
handle_command-Serves_example =
    handle_command-Serves no_iso definition store new_sequencer 5 to_load rts load_args

abbrev busy : Sequencer
busy = record { ats_slot = empty_slot; rts_slot = record loaded_slot { state = running } }

load_busy :
    handle_command no_iso definition store busy 5 (codes "LOAD_RTS") load_args
    ≡ (err sequence_refused, busy)
unfolding handle_command SeqService.seq_id_wire_value
    xtce_sim.FileService.Commands.decode_filename_arg xtce_sim.SequenceFile.kind_for
    xtce_sim.FileStore.read xtce_sim.FileStore.path xtce_sim.FileStore.name_problem
    xtce_sim.Utf8.decode SeqService.read_plan SeqService.cmd_load xtce_sim.FileStore.file_at
    xtce_sim.FileStore.is_part xtce_sim.Sequencer.Commands.load xtce_sim.Sequencer.clear
    xtce_sim.Sequencer.reset_run parse xtce_sim.SequenceFile.scan_lines
    xtce_sim.Prelude.Texts.split_at xtce_sim.Prelude.Texts.strip xtce_sim.Prelude.Texts.before
    xtce_sim.Prelude.Texts.words xtce_sim.SequenceFile.parse_rts_delay xtce_sim.Prelude.Texts.behind
    xtce_sim.SequenceFile.collect_args Dict.get xtce_sim.SequenceFile.definition_problems
    xtce_sim.Definition.command_by_name list_beq xtce_sim.Codec.Command.encode_command Dict.put
    xtce_sim.Codec.Command.wire_values xtce_sim.Codec.Command.coerce_arg
    xtce_sim.Codec.IntLiteral.int_literal xtce_sim.Codec.Command.arg_violation
    xtce_sim.Codec.Command.by_name xtce_sim.Codec.Command.command_struct_format
    xtce_sim.Codec.Command.numeric_violation xtce_sim.Codec.Command.range_violations
    xtce_sim.Codec.item_for xtce_sim.Codec.pack_item xtce_sim.Codec.pack_items
    xtce_sim.Codec.to_word xtce_sim.Prelude.Sort.insert xtce_sim.Prelude.Sort.sort
    xtce_sim.Prelude.Texts.is_space xtce_sim.Prelude.Texts.lower all_problems
    xtce_sim.SequenceFile.entry_problem xtce_sim.SequenceFile.parse_ats_time
    xtce_sim.SequenceFile.parse_line xtce_sim.Utf8.encode xtce_sim.Utf8.encode_char
load_busy = refl

handle_command-refused_example : slot_of busy rts ≡ slot_of busy rts
handle_command-refused_example =
    handle_command-refused no_iso definition store busy busy 5 (codes "LOAD_RTS") load_args
      sequence_refused rts load_busy refl
