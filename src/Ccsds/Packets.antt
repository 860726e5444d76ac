-- ===== src/Ccsds/Packets.antt =====
-- The telemetry, command and command-echo packets of xtce_sim/ccsds.py.
pub mod Laws
use xtce_sim.Prelude.{
  ℕ, ◌-◌, [], ◌∷◌, ◌++◌, length, take, drop, Option, none, some, Result, ok, ◌>>=◌, ltb,
  if◌then◌else◌,
}
use xtce_sim.Struct.{Bytes, byte_of}
use xtce_sim.Ccsds.Header.{CcsdsHeader, default_header, pack}

-- `PacketType`
abbrev pub telemetry : ℕ
telemetry = 0

abbrev pub command : ℕ
command = 1

-- `len(payload) - 1 if payload else 0`; on ℕ the difference stops at 0.
unfoldable pub build_telemetry_packet : ℕ → Bytes → ℕ → Result Bytes
build_telemetry_packet apid payload seq_count = do
  header ← pack (record {
    version = 0;
    packet_type = telemetry;
    sec_hdr_flag = 0;
    apid = apid;
    seq_flags = 3;
    seq_count = seq_count;
    packet_length = length payload - 1;
  })
  ok (header ++ payload)

unfoldable pub build_command_packet : ℕ → Bytes → ℕ → ℕ → Result Bytes
build_command_packet opcode payload apid seq_count = do
  header ←
      pack (record default_header { packet_type = command; apid = apid; seq_count = seq_count })
  op ← byte_of opcode
  ok (header ++ op ++ payload)

abbrev pub cmd_echo_apid : ℕ
cmd_echo_apid = 0x7fd

-- The status byte of an echo.
pub data EchoStatus : Type 0 where
  executed unknown_opcode failed rejected : EchoStatus

abbrev pub status_code : EchoStatus → ℕ
status_code executed = 0
status_code unknown_opcode = 1
status_code failed = 2
status_code rejected = 3

abbrev pub echo_embed_max : ℕ
echo_embed_max = 65524

unfoldable pub build_command_echo : Bytes → EchoStatus → ℕ → Result Bytes
build_command_echo command_packet status seq_count = do
  s ← byte_of (status_code status)
  build_telemetry_packet cmd_echo_apid (s ++ take echo_embed_max command_packet) seq_count

-- `payload[0], payload[1:]`, or `None, b""` without a payload.
first_byte : Bytes → Option ℕ × Bytes
first_byte [] = (none, [])
first_byte (b ∷ rest) = (some b, rest)

unfoldable pub parse_command_echo : Bytes → Option ℕ × Bytes
unfolding first_byte
parse_command_echo packet = first_byte (drop 6 packet)

unfoldable pub parse_command_packet : Bytes → Option ℕ × Bytes
unfolding first_byte
parse_command_packet packet =
    if ltb (length packet) 7 then (none, []) else first_byte (drop 6 packet)
