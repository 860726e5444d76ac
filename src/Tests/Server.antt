-- ===== src/Tests/Server.antt =====
-- The theorems on xtce_sim/server.py at concrete inputs.
use xtce_sim.Prelude.{
  ℕ, ◌+◌, ◌<◌, ◌≤◌, List, ◌≡◌, refl, arith, [], ◌∷◌, some, none, true, false, ok, Bool-cases, inl,
  inr, ◌==◌, leb, if◌then◌else◌,
}
use xtce_sim.Prelude.Equality.{list_eq, list_beq, nat_eq}
use xtce_sim.Prelude.Dict
use xtce_sim.Prelude.Dict.{Dict}
use xtce_sim.Struct.{Bytes}
use xtce_sim.Codec.{Value, int}
use xtce_sim.Codec.Command.{encode_command, decode_command}
use xtce_sim.Ccsds.Packets.{build_command_packet, parse_command_packet, rejected}
use xtce_sim.Definition.{command_by_name, command_by_opcode}
use xtce_sim.Sequencer.{new_sequencer}
use xtce_sim.Sequencer.Commands.Laws.{AllSound}
use xtce_sim.SequenceFile.{entry_problem, as_texts}
use xtce_sim.Ccsds.Counter.{after, uses}
use xtce_sim.Server.{SimServer, guarded, send_packet, new_server, echo_command}
use xtce_sim.Server.Queues.{Downlinked, send_packet-Downlinked}
use xtce_sim.Server.Beacon.{emit_due_packets}
use xtce_sim.Server.Beacon.Pacing.{DistinctKeys, IsScheduled, emit_due_packets-paced}
use xtce_sim.Server.Beacon.Gate.{IsQuiet, emit_due_packets-IsQuiet}
use xtce_sim.Server.Link.{apply_link_conventions}
use xtce_sim.Server.Link.Periods.{IsTimed, apply_link_conventions-IsTimed, new_server-IsTimed}
use xtce_sim.Server.Dispatch.{dispatch, judged, apply_command, sequence_execute}
use xtce_sim.Server.Dispatch.Echo.{Echoed, dispatch-Echoed}
use xtce_sim.Server.Dispatch.Verdict.{
  IsHarmless, dispatch-IsHarmless, dispatch-encode_command, answer_of, sequence_execute-entry,
}
use xtce_sim.Server.Dispatch.Obeys.{Obeyed-same}
use xtce_sim.Server.SequenceLoop.{sequence_pass}
use xtce_sim.Server.SequenceLoop.Sound.{LeavesSound, sequence_pass-LeavesSound}
use xtce_sim.Tests.Vehicle.{level_args, set_heater, entry, setup, server, handler}

abbrev heater_packet : Bytes
heater_packet = 16 ∷ 1 ∷ 192 ∷ 0 ∷ 0 ∷ 0 ∷ 7 ∷ 3 ∷ []

heater_encoded : encode_command set_heater.params level_args true ≡ ok (3 ∷ [])
unfolding encode_command list_beq xtce_sim.Codec.Command.wire_values Dict.get
    xtce_sim.Codec.Command.coerce_arg xtce_sim.Codec.Command.range_violations
    xtce_sim.Codec.Command.by_name Dict.put xtce_sim.Codec.Command.arg_violation
    xtce_sim.Codec.pack_items xtce_sim.Codec.Command.command_struct_format xtce_sim.Codec.pack_item
    xtce_sim.Codec.item_for
heater_encoded = refl

heater_built : build_command_packet 7 (3 ∷ []) 1 0 ≡ ok heater_packet
unfolding build_command_packet xtce_sim.Ccsds.Header.pack xtce_sim.Struct.pack_u16
    xtce_sim.Struct.byte_of
heater_built = refl

heater_found : command_by_opcode setup.simdef.commands 7 ≡ some set_heater
unfolding command_by_opcode
heater_found = refl

heater_named : command_by_name setup.simdef.commands entry.command ≡ some set_heater
unfolding command_by_name list_beq
heater_named = refl

entry_fine : entry_problem setup.simdef entry ≡ false
unfolding entry_problem command_by_name list_beq encode_command xtce_sim.Codec.Command.wire_values
    Dict.get xtce_sim.Codec.Command.coerce_arg xtce_sim.Codec.IntLiteral.int_literal
    xtce_sim.Codec.Command.range_violations xtce_sim.Codec.Command.by_name Dict.put
    xtce_sim.Codec.Command.arg_violation xtce_sim.Codec.pack_items
    xtce_sim.Codec.Command.command_struct_format xtce_sim.Codec.pack_item xtce_sim.Codec.item_for
entry_fine = refl

dispatch-encode_command_example :
    dispatch setup handler server 5 heater_packet
    ≡ judged setup handler heater_packet (
        apply_command setup handler server 5 set_heater (decode_command set_heater.params (3 ∷ [])))
dispatch-encode_command_example =
    dispatch-encode_command setup handler server 5 set_heater level_args (3 ∷ []) heater_packet 1 0
      (tt, tt) (omega arith) heater_found heater_encoded heater_built

sequence_execute-entry_example :
    (payload packet : Bytes) × (encode_command set_heater.params (as_texts entry.args) true
      ≡ ok payload)
    × (sequence_execute setup handler server 5 entry.command entry.args
        ≡ answer_of setup handler (
            judged setup handler packet (
              apply_command setup handler server 5 set_heater
                (decode_command set_heater.params payload))))
sequence_execute-entry_example =
    sequence_execute-entry setup handler server 5 entry set_heater entry_fine heater_named (tt, tt)
      (omega arith) heater_found

-- SET_HEATER with a level above its range.
abbrev hot_packet : Bytes
hot_packet = 16 ∷ 1 ∷ 192 ∷ 0 ∷ 0 ∷ 0 ∷ 7 ∷ 40 ∷ []

hot_rejected :
    dispatch setup handler server 5 hot_packet
    ≡ (rejected, echo_command setup server hot_packet rejected)
unfolding dispatch xtce_sim.Ccsds.Packets.parse_command_packet command_by_opcode
    xtce_sim.Codec.Command.range_violations Dict.get decode_command xtce_sim.Codec.Command.by_name
    xtce_sim.Codec.Command.decoded_all xtce_sim.Codec.unpack_from
    xtce_sim.Codec.Command.command_struct_format Dict.put list_beq
    xtce_sim.Codec.Command.arg_violation xtce_sim.Codec.item_for
hot_rejected = refl

dispatch-IsHarmless_example :
    IsHarmless setup handler server hot_packet (dispatch setup handler server 5 hot_packet)
dispatch-IsHarmless_example = dispatch-IsHarmless setup handler server 5 hot_packet

dispatch-Echoed_example :
    Echoed setup handler
      (λ b. omega arith)
      server
      5
      heater_packet
      (parse_command_packet heater_packet).1
      (dispatch setup handler server 5 heater_packet)
dispatch-Echoed_example = dispatch-Echoed setup handler (λ b. omega arith) server 5 heater_packet

new-AllSound : AllSound new_sequencer
new-AllSound = (((refl, refl), omega arith), ((refl, refl), omega arith))

sequence_pass-LeavesSound_example :
    LeavesSound (sequence_pass setup handler 3 server new_sequencer 5)
sequence_pass-LeavesSound_example =
    sequence_pass-LeavesSound setup handler (λ s c args. Obeyed-same s.sequencer) 3 server
      new_sequencer 5 new-AllSound

send_packet-Downlinked_example :
    Downlinked setup server (guarded (send_packet setup server 5 5 none none))
send_packet-Downlinked_example = send_packet-Downlinked setup server 5 5 none none

server-DistinctKeys : DistinctKeys server.next_due
server-DistinctKeys = (unfold Dict.get in refl, tt)

server-IsScheduled : IsScheduled setup server
unfolding Dict.get
server-IsScheduled a t h = elim (Bool-cases (5 == a)) [
  | inl e ↦ (1000000, rw e refl)
  | inr e ↦ absurd (ground (arith, rw e at h))
]

known_period : Dict.get server.tlm_periods 5 ≡ some 1000000
unfolding Dict.get
known_period = refl

known_due : Dict.get server.next_due 5 ≡ some 0
unfolding Dict.get
known_due = refl

emit_due_packets-paced_example :
    ((emit_due_packets setup server 5 1500000).0 ≡ none)
    × (u : ℕ) × (Dict.get (emit_due_packets setup server 5 1500000).1.next_due 5 ≡ some u)
    × (1500000 < u)
    × (u ≡ (
        if leb 0 1500000
        then (if leb (0 + 1000000) 1500000 then 1500000 + 1000000 else 0 + 1000000)
        else 0))
    × (history : List ℕ) × ((emit_due_packets setup server 5 1500000).1.seq
        ≡ after server.seq history)
    × (uses 5 history ≤ (if leb 0 1500000 then 1 else 0))
emit_due_packets-paced_example =
    emit_due_packets-paced setup server 5 1500000 5 0 1000000 server-DistinctKeys server-IsScheduled
      known_due known_period (omega arith)

abbrev silent : SimServer ℕ
silent = record server { beacon_enabled = false }

emit_due_packets-IsQuiet_example :
    IsQuiet setup silent (guarded (emit_due_packets setup silent 5 1500000))
emit_due_packets-IsQuiet_example = emit_due_packets-IsQuiet setup silent 5 1500000 refl

no_zero : (a p : ℕ) → Dict.get server.tlm_periods a ≡ some p → 0 < p
unfolding Dict.get
no_zero a p h = ground (arith, h)

server-IsTimed : IsTimed server
server-IsTimed = (server-DistinctKeys, server-IsScheduled, no_zero)

apply_link_conventions-IsTimed_example :
    IsTimed (apply_link_conventions setup server 5 set_heater level_args)
apply_link_conventions-IsTimed_example =
    apply_link_conventions-IsTimed setup server 5 set_heater level_args server-IsTimed

new_server-IsTimed_example : IsTimed (new_server setup 0 none none)
new_server-IsTimed_example = new_server-IsTimed setup 0 none none (omega arith)
