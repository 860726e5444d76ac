-- ===== src/Ccsds/Packets/Laws.antt =====
-- The packet builders against the parsers.
use xtce_sim.Prelude.{
  ℕ, ◌+◌, ◌-◌, ◌≤◌, ◌<◌, ◌≡◌, refl, ◌∷◌, ◌++◌, arith, length, length-take, take, drop, some, ok,
  ◌>>=◌,
}
use xtce_sim.Struct.{Bytes, byte_of-fits}
use xtce_sim.Ccsds.Header.{CcsdsHeader, default_header}
use xtce_sim.Ccsds.Header.RoundTrip.{header_bytes, pack-eq-ok}
use xtce_sim.Ccsds.Packets.{
  build_telemetry_packet, build_command_packet, build_command_echo, parse_command_packet,
  parse_command_echo, EchoStatus, executed, unknown_opcode, failed, rejected, status_code,
  echo_embed_max, cmd_echo_apid,
}

-- The ground reads back the opcode and the arguments of a command packet, whatever its APID and
-- count are.
pub parse_command_packet-build :
    (opcode : ℕ) (payload : Bytes) (apid seq_count : ℕ)
    → opcode < 256
    → (build_command_packet opcode payload apid seq_count >>= λ p. ok (parse_command_packet p))
      ≡ ok (some opcode, payload)
unfolding build_command_packet parse_command_packet header_bytes
parse_command_packet-build opcode payload apid seq_count h =
    rw
      (
        pack-eq-ok (record default_header { packet_type = 1; apid = apid; seq_count = seq_count }),
        byte_of-fits opcode h,
      )
      (ground arith)

-- A telemetry packet is always built: six bytes of header, and the payload.
pub telemetry_packet :
    (apid : ℕ) (payload : Bytes) (seq_count : ℕ)
    → (b : Bytes) × (build_telemetry_packet apid payload seq_count ≡ ok b)
      × (drop 6 b ≡ payload)
      × (length b ≡ 6 + length payload)
unfolding build_telemetry_packet header_bytes
telemetry_packet apid payload seq_count =
    (header_bytes header ++ payload, rw (pack-eq-ok header), refl, omega arith)
  where
    header : CcsdsHeader
    header = record {
      version = 0;
      packet_type = 0;
      sec_hdr_flag = 0;
      apid = apid;
      seq_flags = 3;
      seq_count = seq_count;
      packet_length = length payload - 1;
    }

status_code-lt : (status : EchoStatus) → status_code status < 256
status_code-lt executed = omega arith
status_code-lt unknown_opcode = omega arith
status_code-lt failed = omega arith
status_code-lt rejected = omega arith

-- An echo carries its status, and the command packet cut at what the frame can hold.
pub parse_command_echo-build :
    (packet : Bytes) (status : EchoStatus) (seq_count : ℕ)
    → (build_command_echo packet status seq_count >>= λ p. ok (parse_command_echo p))
      ≡ ok (some (status_code status), take echo_embed_max packet)
unfolding build_command_echo
parse_command_echo-build packet status seq_count =
    let (b, built, payload, size) =
      telemetry_packet cmd_echo_apid (status_code status ∷ take echo_embed_max packet) seq_count in
    rw (byte_of-fits (status_code status) (status_code-lt status), built)
      (unfold parse_command_echo in rw payload)

-- An echo is always built, reads back, and is short enough for a frame.
pub echo_packet :
    (packet : Bytes) (status : EchoStatus) (seq_count : ℕ)
    → (b : Bytes) × (build_command_echo packet status seq_count ≡ ok b)
      × (parse_command_echo b ≡ (some (status_code status), take echo_embed_max packet))
      × (length b ≤ 7 + echo_embed_max)
unfolding build_command_echo
echo_packet packet status seq_count =
    let (b, built, payload, size) =
      telemetry_packet cmd_echo_apid (status_code status ∷ take echo_embed_max packet) seq_count in
    (
      b,
      rw (byte_of-fits (status_code status) (status_code-lt status), built) refl,
      unfold parse_command_echo in rw payload refl,
      omega (arith, size, length-take echo_embed_max packet),
    )
