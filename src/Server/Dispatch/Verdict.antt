-- ===== src/Server/Dispatch/Verdict.antt =====
-- Which commands `SimServer._dispatch` of xtce_sim/server.py applies, and that the others do nothing.
use xtce_sim.Prelude.{
  ℕ, ◌<◌, ◌≡◌, refl, arith, length, Option, none, some, Bool, true, false, Result, ok, err,
  >>=-eq-ok, Bool-cases, inl, inr, ◌==◌,
}
use xtce_sim.Prelude.Dict.{Dict}
use xtce_sim.Struct.{Bytes}
use xtce_sim.Utf8.{Text}
use xtce_sim.Schema.{CommandDef}
use xtce_sim.Codec.{Value}
use xtce_sim.Codec.Command.{encode_command, decode_command, range_violations}
use xtce_sim.Codec.Command.Accepted.{DistinctParams, encode_command-accepted}
use xtce_sim.Definition.{command_by_name, command_by_opcode}
use xtce_sim.Ccsds.Packets.{
  EchoStatus, executed, failed, unknown_opcode, rejected, build_command_packet,
  parse_command_packet,
}
use xtce_sim.Ccsds.Packets.Laws.{parse_command_packet-build}
use xtce_sim.Sequencer.{SequenceEntry}
use xtce_sim.SequenceFile.{entry_problem, as_texts}
use xtce_sim.Server.{Setup, SimServer, Effect, echo_command}
use xtce_sim.Server.Dispatch.{
  dispatch, dispatch_opcode, dispatch_found, judged, apply_command, is_executed, sequence_execute,
}

built-parsed :
    (opcode : ℕ) (payload packet : Bytes) (apid seq_count : ℕ)
    → opcode < 256
    → build_command_packet opcode payload apid seq_count ≡ ok packet
    → parse_command_packet packet ≡ (some opcode, payload)
built-parsed opcode payload packet apid seq_count h e =
    ok_parts (parse_command_packet packet) (some opcode, payload)
      (rw e at (parse_command_packet-build opcode payload apid seq_count h))
  where
    ok_parts : (a b : Option ℕ × Bytes) → Path (Result (Option ℕ × Bytes)) (ok a) (ok b) → a ≡ b
    ok_parts a b h = ground (arith, h)

module _ {E : Type 0} (g : Setup E)
    (command_handler : SimServer E → CommandDef → Dict Text Value → Effect E) where
  -- Whether the command was refused before it could act.
  abbrev pub IsHarmless : SimServer E → Bytes → EchoStatus × SimServer E → Type 0
  IsHarmless s p (unknown_opcode, s') = s' ≡ echo_command g s p unknown_opcode
  IsHarmless s p (rejected, s') = s' ≡ echo_command g s p rejected
  IsHarmless s p (executed, s') = Unit {0}
  IsHarmless s p (failed, s') = Unit {0}

  judged-IsHarmless :
      (s : SimServer E) (p : Bytes) (r : Effect E) → IsHarmless s p (judged g command_handler p r)
  judged-IsHarmless s p (none, s') = tt
  judged-IsHarmless s p (some e, s') = tt

  dispatch_found-IsHarmless :
      (s : SimServer E) (wall : ℕ) (p payload : Bytes) (c : Option CommandDef)
      → IsHarmless s p (dispatch_found g command_handler s wall p payload c)
  dispatch_found-IsHarmless s wall p payload none = refl
  dispatch_found-IsHarmless s wall p payload (some c) =
      elim (Bool-cases
        (length (range_violations c.params (decode_command c.params payload)) == 0)) [
          | inl e ↦ rw e (
              judged-IsHarmless s p
                (apply_command g command_handler s wall c (decode_command c.params payload)))
          | inr e ↦ rw e refl
        ]

  dispatch_opcode-IsHarmless :
      (s : SimServer E) (wall : ℕ) (p : Bytes) (r : Option ℕ × Bytes)
      → IsHarmless s p (dispatch_opcode g command_handler s wall p r)
  dispatch_opcode-IsHarmless s wall p (none, payload) = tt
  dispatch_opcode-IsHarmless s wall p (some opcode, payload) =
      dispatch_found-IsHarmless s wall p payload (command_by_opcode g.simdef.commands opcode)

  -- A command that the vehicle answers with UNKNOWN_OPCODE or REJECTED has had no effect but its echo.
  pub dispatch-IsHarmless :
      (s : SimServer E) (wall : ℕ) (p : Bytes)
      → IsHarmless s p (dispatch g command_handler s wall p)
  unfolding dispatch
  dispatch-IsHarmless s wall p = dispatch_opcode-IsHarmless s wall p (parse_command_packet p)

  -- A command that the ground has encoded, with its checks, is applied by the vehicle: it is neither
  -- unknown nor rejected, and its consumers get the arguments that the vehicle decodes.
  pub dispatch-encode_command :
      (s : SimServer E) (wall : ℕ) (c : CommandDef) (args : Dict Text Value)
      (payload packet : Bytes) (apid seq_count : ℕ)
      → DistinctParams c.params
      → c.opcode < 256
      → command_by_opcode g.simdef.commands c.opcode ≡ some c
      → encode_command c.params args true ≡ ok payload
      → build_command_packet c.opcode payload apid seq_count ≡ ok packet
      → dispatch g command_handler s wall packet
        ≡ judged g command_handler packet
            (apply_command g command_handler s wall c (decode_command c.params payload))
  unfolding dispatch
  dispatch-encode_command s wall c args payload packet apid seq_count apart small found encoded
        built =
      rw
        (
          built-parsed c.opcode payload packet apid seq_count small built,
          found,
          (encode_command-accepted c.params args payload apart encoded).3,
        )
        refl

  -- The executor's answer to an effect of the command.
  abbrev pub answer_of : EchoStatus × SimServer E → Bool × SimServer E
  answer_of (status, s') = (is_executed status, s')

  -- An entry that a LOAD has accepted is encoded when it is due, and the vehicle applies its command: it
  -- is neither unknown nor rejected.
  pub sequence_execute-entry :
      (s : SimServer E) (wall : ℕ) (e : SequenceEntry) (c : CommandDef)
      → entry_problem g.simdef e ≡ false
      → command_by_name g.simdef.commands e.command ≡ some c
      → DistinctParams c.params
      → c.opcode < 256
      → command_by_opcode g.simdef.commands c.opcode ≡ some c
      → (payload packet : Bytes) × (encode_command c.params (as_texts e.args) true ≡ ok payload)
        × (sequence_execute g command_handler s wall e.command e.args
            ≡ answer_of (
                judged g command_handler packet
                  (apply_command g command_handler s wall c (decode_command c.params payload))))
  unfolding entry_problem sequence_execute
  sequence_execute-entry s wall e c fine named apart small found =
      let (payload, encoded) = encodes fine in
      let (packet, built, parsed) =
        >>=-eq-ok (build_command_packet c.opcode payload 1 0) (λ p. ok (parse_command_packet p))
          {y = (some c.opcode, payload)} (parse_command_packet-build c.opcode payload 1 0 small) in
      (
        payload,
        packet,
        encoded,
        rw
            (
              sequence_execute,
              named,
              encoded,
              built,
              dispatch-encode_command s wall c (as_texts e.args) payload packet 1 0 apart small
                  found encoded built,
            )
            refl,
      )
    where
      split :
          (r : Result Bytes)
          → elim r as (λ x. Bool) [ ok payload ↦ false | err x ↦ true ] ≡ false
          → (payload : Bytes) × (r ≡ ok payload)
      split (ok b) h = (b, refl)
      split (err x) h = absurd (ground (arith, h))

      encodes :
          entry_problem g.simdef e ≡ false
          → (payload : Bytes) × (encode_command c.params (as_texts e.args) true ≡ ok payload)
      encodes h =
          split (encode_command c.params (as_texts e.args) true) (rw (entry_problem, named) at h)
