-- ===== src/Server/Dispatch/Executor.antt =====
-- The executor of xtce_sim/server.py: a fired entry of a plan goes through the dispatch, and acts on
-- the sequencer only by its commands.
use xtce_sim.Prelude.{
  ℕ, ◌≡◌, refl, subst, sym, length, Option, none, some, true, Result, ok, err, ◌>>=◌, Bool-cases,
  Option-cases, inl, inr, ◌==◌, if◌then◌else◌,
}
use xtce_sim.Prelude.Int.{int_eq}
use xtce_sim.Prelude.Equality.{list_eq, nat_eq}
use xtce_sim.Prelude.Dict.{Dict}
use xtce_sim.Struct.{Bytes}
use xtce_sim.Utf8.{Text}
use xtce_sim.Schema.{CommandDef}
use xtce_sim.Codec.{Value}
use xtce_sim.Codec.Command.{encode_command, decode_command, range_violations}
use xtce_sim.Definition.{command_by_name, command_by_opcode}
use xtce_sim.Ccsds.Packets.{
  EchoStatus, executed, failed, unknown_opcode, rejected, build_command_packet,
  parse_command_packet,
}
use xtce_sim.SequenceFile.{as_texts}
use xtce_sim.Server.{Setup, SimServer, Effect, ◌>>◌, guarded, echo_command}
use xtce_sim.Server.Queues.{echo_command-Downlinked}
use xtce_sim.Server.Link.{apply_link_conventions}
use xtce_sim.Server.Dispatch.{
  apply_engine, apply_files, apply_sequences, apply_command, concluded, judged, is_refusal,
  dispatch_found, dispatch_opcode, dispatch, executed_packet, sequence_execute,
}
use xtce_sim.Server.Dispatch.Obeys.{
  Obeyed, Obeyed-same, Obeyed-trans, Obeys, Obeys-next, Downlinked-Obeys, apply_engine-Obeys,
  files_applied-Obeys, sequences_applied-Obeys, if_kept, apply_link_conventions-Obeys,
}

module _ {E : Type 0} (g : Setup E) where
  module _ (command_handler : SimServer E → CommandDef → Dict Text Value → Effect E)
      (handler_obeys : (s : SimServer E) (c : CommandDef) (args : Dict Text Value)
        → Obeys g s (guarded (command_handler s c args))) where
    apply_command-Obeys :
        (s : SimServer E) (wall : ℕ) (c : CommandDef) (args : Dict Text Value)
        → Obeys g s (guarded (apply_command g command_handler s wall c args))
    unfolding apply_command
    apply_command-Obeys s wall c args =
        let r1 = apply_engine g s wall c args in
        let r2 = r1 >> (λ s. apply_files g s wall c args) in
        let r3 = r2 >> (λ s. apply_sequences g s wall c args) in
        let h2 =
          Obeys-next g s r1 (λ s. apply_files g s wall c args) (apply_engine-Obeys g s wall c args)
            (λ s'. unfold apply_files in files_applied-Obeys g s' wall c args s'.file_service) in
        let h3 =
          Obeys-next g s r2 (λ s. apply_sequences g s wall c args) h2
            (λ s'.
              unfold apply_sequences in
              sequences_applied-Obeys g s' wall c args s'.sequencer refl) in
        Obeys-next g s r3 (λ s. command_handler (apply_link_conventions g s wall c args) c args) h3
          (λ s'.
            let t = apply_link_conventions g s' wall c args in
            Obeyed-trans s'.sequencer t.sequencer (guarded (command_handler t c args)).sequencer
              (apply_link_conventions-Obeys g s' wall c args) (handler_obeys t c args))

    concluded-Obeys :
        (s : SimServer E) (p : Bytes) (status : EchoStatus)
        → Obeys g s (concluded g command_handler s p status).1
    concluded-Obeys s p status =
        Downlinked-Obeys g s (echo_command g s p status) (echo_command-Downlinked g s p status)

    judged-Obeys :
        (s : SimServer E) (p : Bytes) (r : Effect E)
        → Obeys g s (guarded r)
        → Obeys g s (judged g command_handler p r).1
    judged-Obeys s p (none, s') h =
        Obeyed-trans s.sequencer s'.sequencer (echo_command g s' p executed).sequencer h
          (concluded-Obeys s' p executed)
    judged-Obeys s p (some e, s') h =
        let t = if is_refusal e then record s' { seq_wake = true } else s' in
        let same : t.sequencer ≡ s'.sequencer =
          if_kept g s' (record s' { seq_wake = true }) (is_refusal e) refl in
        Obeyed-trans s.sequencer t.sequencer (echo_command g t p failed).sequencer
          (subst (Obeyed s.sequencer) (sym same) h) (concluded-Obeys t p failed)

    dispatch_found-Obeys :
        (s : SimServer E) (wall : ℕ) (p payload : Bytes) (c : Option CommandDef)
        → Obeys g s (dispatch_found g command_handler s wall p payload c).1
    dispatch_found-Obeys s wall p payload none = concluded-Obeys s p unknown_opcode
    dispatch_found-Obeys s wall p payload (some c) =
        let args = decode_command c.params payload in
        elim (Bool-cases (length (range_violations c.params args) == 0)) [
          | inl e ↦ rw e (
              judged-Obeys s p (apply_command g command_handler s wall c args)
                (apply_command-Obeys s wall c args))
          | inr e ↦ rw e (concluded-Obeys s p rejected)
        ]

    dispatch_opcode-Obeys :
        (s : SimServer E) (wall : ℕ) (p : Bytes) (r : Option ℕ × Bytes)
        → Obeys g s (dispatch_opcode g command_handler s wall p r).1
    dispatch_opcode-Obeys s wall p (none, payload) = concluded-Obeys s p failed
    dispatch_opcode-Obeys s wall p (some opcode, payload) =
        dispatch_found-Obeys s wall p payload (command_by_opcode g.simdef.commands opcode)

    -- Whatever packet is dispatched, the sequencer after it is what a row of its own commands leaves.
    pub dispatch-Obeys :
        (s : SimServer E) (wall : ℕ) (p : Bytes) → Obeys g s (dispatch g command_handler s wall p).1
    unfolding dispatch
    dispatch-Obeys s wall p = dispatch_opcode-Obeys s wall p (parse_command_packet p)

    executed_packet-Obeys :
        (s : SimServer E) (wall : ℕ) (r : Result Bytes)
        → Obeys g s (executed_packet g command_handler s wall r).1
    executed_packet-Obeys s wall (err e) = Obeyed-same s.sequencer
    executed_packet-Obeys s wall (ok packet) = dispatch-Obeys s wall packet

    pub sequence_execute-Obeys :
        (s : SimServer E) (wall : ℕ) (name : Text) (args : Dict Text Text)
        → Obeys g s (sequence_execute g command_handler s wall name args).1
    unfolding sequence_execute
    sequence_execute-Obeys s wall name args =
        elim (Option-cases (command_by_name g.simdef.commands name)) [
          | inl e ↦ rw (sequence_execute, e) (Obeyed-same s.sequencer)
          | inr (c, e) ↦
              rw (sequence_execute, e)
                (executed_packet-Obeys s wall (
                  encode_command c.params (as_texts args) true >>= λ payload.
                  build_command_packet c.opcode payload 1 0))
        ]
