-- ===== src/Server/Dispatch.antt =====
-- The commands of xtce_sim/server.py: `_dispatch` and what it calls, the sequencer's executor, the
-- file uplink and the end of a connection. The command handler is a parameter.
pub mod Echo
pub mod Verdict
pub mod Obeys
pub mod Executor
pub mod Downlink
use xtce_sim.Prelude.{
  ℕ, ◌+◌, List, [], ◌∷◌, length, Option, none, some, Bool, true, false, ◌&&◌, not, Result, ok, err,
  Error, sequence_refused, ◌>>=◌, leb, ltb, ◌==◌, if◌then◌else◌,
}
use xtce_sim.Prelude.Int.{ℤ, pos}
use xtce_sim.Prelude.Texts.{codes}
use xtce_sim.Prelude.Equality.{list_eq, nat_eq}
use xtce_sim.Prelude.Dict
use xtce_sim.Prelude.Dict.{Dict}
use xtce_sim.Prelude.Sort.{sort, itself}
use xtce_sim.Struct.{Bytes}
use xtce_sim.Utf8.{Text}
use xtce_sim.Schema.{CommandDef, PacketDef, SimDefinition}
use xtce_sim.Definition.{command_by_name, command_by_opcode}
use xtce_sim.Codec.{Value, int, flag, text, raw}
use xtce_sim.Codec.Command.{encode_command, decode_command, range_violations}
use xtce_sim.Ccsds.Packets.{
  build_command_packet, parse_command_packet, EchoStatus, executed, unknown_opcode, failed,
  rejected,
}
use xtce_sim.FileStore.{FileStore}
use xtce_sim.FileService.{FileService, Receipt}
use xtce_sim.FileService.Uplink.{handle_uplink, connection_closed}
use xtce_sim.FileService.Commands
use xtce_sim.FileService.Commands.{Argument}
use xtce_sim.Sequencer.{Sequencer}
use xtce_sim.Sequencer.Commands.{whole_seconds}
use xtce_sim.SeqService
use xtce_sim.SeqService.{argument, status_packets}
use xtce_sim.SequenceFile.{as_texts}
use xtce_sim.Server.{Setup, SimServer, Effect, done, ◌>>◌, guarded, send_packet, echo_command}
use xtce_sim.Server.Beacon.{receipt_apid}
use xtce_sim.Server.Link.{apply_link_conventions}

-- The dict of a receipt.
abbrev pub receipt_dict : Receipt → Dict Text Value
receipt_dict r =
    (codes "FR_FILENAME", raw r.filename)
    ∷ (codes "FR_FILE_SIZE", int (pos r.file_size))
    ∷ (codes "FR_CHECKSUM", int (pos r.checksum))
    ∷ (codes "FR_TIMESTAMP", int (pos r.timestamp))
    ∷ (codes "FR_TRANSFER_STATUS", int (pos r.transfer_status))
    ∷ (codes "FR_FILE_RECEIVED_COUNT", int (pos r.file_received_count))
    ∷ (codes "FR_STORAGE_USED", int (pos r.storage_used))
    ∷ (codes "FR_STORAGE_AVAILABLE", int (pos r.storage_available))
    ∷ []

abbrev pub is_refusal : Error → Bool
is_refusal sequence_refused = true
is_refusal e = false

abbrev pub is_executed : EchoStatus → Bool
is_executed executed = true
is_executed status = false

module _ {E : Type 0} where
  unfoldable pub send_all : Setup E → SimServer E → ℕ → ℕ → List Receipt → SimServer E
  send_all g s wall apid [] = s
  send_all g s wall apid (r ∷ rs) =
      send_all g (guarded (send_packet g s wall apid (some (receipt_dict r)) none)) wall apid rs

  unfoldable pub send_receipts_as :
      Setup E → SimServer E → ℕ → List Receipt → Option ℕ → SimServer E
  unfolding send_all
  send_receipts_as g s wall receipts none = s
  send_receipts_as g s wall receipts (some apid) = send_all g s wall apid receipts

  -- `_send_file_receipts`, for the file service that answered.
  unfoldable pub send_file_receipts :
      Setup E → SimServer E → ℕ → FileService → List Receipt → SimServer E
  send_file_receipts g s wall f receipts = send_receipts_as g s wall receipts (receipt_apid f)

  -- What the file service answered: the receipts go out, or its exception goes on.
  abbrev pub answered : Setup E → SimServer E → ℕ → Result (List Receipt) × FileService → Effect E
  answered g s wall (ok receipts, f) =
      done (send_file_receipts g (record s { file_service = some f }) wall f receipts)
  answered g s wall (err e, f) = (some e, record s { file_service = some f })

  -- `_handle_file_uplink`; the disk's answer to a write is given.
  unfoldable pub handle_file_uplink : Setup E → SimServer E → ℕ → Bool → ℕ → Bytes → SimServer E
  handle_file_uplink g s wall written source packet = elim s.file_service [
    | none ↦ record s { uplink_warned = true }
    | some f ↦
        guarded (answered g s wall (handle_uplink f (whole_seconds wall) written source packet))
  ]

  abbrev pub closed : Setup E → SimServer E → ℕ → List Receipt × FileService → SimServer E
  closed g s wall (receipts, f) =
      send_file_receipts g (record s { file_service = some f }) wall f receipts

  -- The state's part of the end of `_handle_client`.
  unfoldable pub client_gone : Setup E → SimServer E → ℕ → ℕ → SimServer E
  client_gone g s wall source =
      let s' = record s { clients = Dict.remove s.clients source } in
      elim s.file_service [
        | none ↦ s'
        | some f ↦ closed g s' wall (connection_closed f (whole_seconds wall) source)
      ]

  -- The start of `_handle_client`.
  unfoldable pub client_comes : SimServer E → ℕ → SimServer E
  client_comes s source = record s { clients = Dict.put s.clients source [] }

  -- `emit = "immediate"`: the packets go out one by one.
  unfoldable pub emit_immediate : Setup E → SimServer E → ℕ → List ℕ → SimServer E
  emit_immediate g s wall [] = s
  emit_immediate g s wall (apid ∷ apids) =
      emit_immediate g (guarded (send_packet g s wall apid none none)) wall apids

  abbrev pub popped : Setup E → SimServer E → ℕ → List ℕ × E → SimServer E
  popped g s wall (apids, e) = emit_immediate g (record s { engine = e }) wall (sort itself apids)

  abbrev pub engine_applied : Setup E → SimServer E → ℕ → Option Error × E → Effect E
  engine_applied g s wall (some e, engine) = (some e, record s { engine = engine })
  engine_applied g s wall (none, engine) = done (popped g s wall (g.engine_pop engine))

  -- The behaviour engine's part of `_apply_command`.
  unfoldable pub apply_engine : Setup E → SimServer E → ℕ → CommandDef → Dict Text Value → Effect E
  unfolding emit_immediate
  apply_engine g s wall c args = engine_applied g s wall (g.engine_apply s.engine c args)

  abbrev pub files_applied :
      Setup E → SimServer E → ℕ → CommandDef → Dict Text Value → Option FileService → Effect E
  files_applied g s wall c args none = done s
  files_applied g s wall c args (some f) =
      if Commands.handles c.name
      then answered g s wall (
          Commands.handle_command f (whole_seconds wall) c.name
            (argument (Dict.get args (codes "Filename"))))
      else done s

  -- The file service's part.
  unfoldable pub apply_files : Setup E → SimServer E → ℕ → CommandDef → Dict Text Value → Effect E
  apply_files g s wall c args = files_applied g s wall c args s.file_service

  -- The store of the sequence service.
  abbrev pub plan_store : Setup E → SimServer E → FileStore
  plan_store g s = elim s.file_service [ none ↦ g.plans | some f ↦ f.store ]

  abbrev pub sequenced : SimServer E → SeqService.Answer → Effect E
  sequenced s (ok b, q) = done (record s { sequencer = some q; seq_wake = true })
  sequenced s (err e, q) = (some e, record s { sequencer = some q })

  abbrev pub sequences_applied :
      Setup E → SimServer E → ℕ → CommandDef → Dict Text Value → Option Sequencer → Effect E
  sequences_applied g s wall c args none = done s
  sequences_applied g s wall c args (some q) =
      if SeqService.handles c.name
      then sequenced s
          (SeqService.handle_command g.from_iso g.simdef (plan_store g s) q wall c.name args)
      else done s

  -- The sequence service's part.
  unfoldable pub apply_sequences :
      Setup E → SimServer E → ℕ → CommandDef → Dict Text Value → Effect E
  apply_sequences g s wall c args = sequences_applied g s wall c args s.sequencer

  -- `_emit_sequence_status`, for the status packets.
  unfoldable pub emit_status : Setup E → SimServer E → ℕ → List PacketDef → SimServer E
  emit_status g s wall [] = s
  emit_status g s wall (p ∷ ps) =
      emit_status g (guarded (send_packet g s wall p.apid none none)) wall ps

  unfoldable pub emit_sequence_status : Setup E → SimServer E → ℕ → SimServer E
  unfolding emit_status
  emit_sequence_status g s wall = emit_status g s wall (status_packets g.simdef)

  module _ (g : Setup E)
      (command_handler : SimServer E → CommandDef → Dict Text Value → Effect E) where
    -- `_apply_command`
    unfoldable pub apply_command : SimServer E → ℕ → CommandDef → Dict Text Value → Effect E
    unfolding apply_engine apply_files apply_sequences
    apply_command s wall c args =
        apply_engine g s wall c args
        >> (λ s. apply_files g s wall c args)
        >> (λ s. apply_sequences g s wall c args)
        >> (λ s. command_handler (apply_link_conventions g s wall c args) c args)

    -- The status that is echoed and returned, and the server after that.
    abbrev pub concluded : SimServer E → Bytes → EchoStatus → EchoStatus × SimServer E
    concluded s packet status = (status, echo_command g s packet status)

    -- What becomes of the effect: a refusal of the sequence service wakes its waiter.
    abbrev pub judged : Bytes → Effect E → EchoStatus × SimServer E
    judged packet (none, s) = concluded s packet executed
    judged packet (some e, s) =
        concluded (if is_refusal e then record s { seq_wake = true } else s) packet failed

    -- `_dispatch` of a command that the definition has.
    abbrev pub dispatch_known :
        SimServer E → ℕ → Bytes → Bytes → CommandDef → EchoStatus × SimServer E
    dispatch_known s wall packet payload c =
        let args = decode_command c.params payload in
        if length (range_violations c.params args) == 0
        then judged packet (apply_command s wall c args)
        else concluded s packet rejected

    abbrev pub dispatch_found :
        SimServer E → ℕ → Bytes → Bytes → Option CommandDef → EchoStatus × SimServer E
    dispatch_found s wall packet payload none = concluded s packet unknown_opcode
    dispatch_found s wall packet payload (some c) = dispatch_known s wall packet payload c

    abbrev pub dispatch_opcode :
        SimServer E → ℕ → Bytes → Option ℕ × Bytes → EchoStatus × SimServer E
    dispatch_opcode s wall packet (none, payload) = concluded s packet failed
    dispatch_opcode s wall packet (some opcode, payload) =
        dispatch_found s wall packet payload (command_by_opcode g.simdef.commands opcode)

    -- `_dispatch`
    unfoldable pub dispatch : SimServer E → ℕ → Bytes → EchoStatus × SimServer E
    unfolding apply_command
    dispatch s wall packet = dispatch_opcode s wall packet (parse_command_packet packet)

    abbrev pub executed_packet : SimServer E → ℕ → Result Bytes → Bool × SimServer E
    executed_packet s wall (err e) = (false, s)
    executed_packet s wall (ok packet) =
        let (status, s') = dispatch s wall packet in (is_executed status, s')

    -- `_sequence_execute`; an exception that it does not catch is one that the sequencer does.
    unfoldable pub sequence_execute : SimServer E → ℕ → Text → Dict Text Text → Bool × SimServer E
    unfolding dispatch
    sequence_execute s wall name args = elim (command_by_name g.simdef.commands name) [
      | none ↦ (false, s)
      | some c ↦ executed_packet s wall (
          encode_command c.params (as_texts args) true >>= λ payload.
          build_command_packet c.opcode payload 1 0)
    ]
