-- ===== src/Ccsds/Uplink.antt =====
-- The file uplink packets of xtce_sim/ccsds.py: START, DATA and FINISH.
pub mod RoundTrip
pub mod Errors
use xtce_sim.Prelude.{
  ℕ, ◌+◌, ◌-◌, ◌^◌, [], ◌∷◌, ◌++◌, length, take, drop, none, some, Result, ok, err, value_error,
  ◌>>=◌, leb, ltb, ◌==◌, ◌&&◌, if◌then◌else◌, bit_and,
}
use xtce_sim.Struct.{Bytes, byte_of, pack_u32, unpack_u32}
use xtce_sim.Utf8.{Text, encode, decode, strict}
use xtce_sim.Ccsds.Header.{default_header, pack}
use xtce_sim.Ccsds.Packets.{command}

abbrev pub file_uplink_apid : ℕ
file_uplink_apid = 0x7fe

abbrev pub file_start : ℕ
file_start = 0

abbrev pub file_data : ℕ
file_data = 1

abbrev pub file_finish : ℕ
file_finish = 2

abbrev pub file_chunk_max : ℕ
file_chunk_max = 65520

-- `len(payload) - 1`; no caller passes an empty payload.
unfoldable pub build_uplink_packet : Bytes → ℕ → Result Bytes
build_uplink_packet payload seq_count = do
  header ← pack (record default_header {
    packet_type = command;
    apid = file_uplink_apid;
    seq_count = seq_count;
    packet_length = length payload - 1;
  })
  ok (header ++ payload)

-- `bytes([FILE_START, len(name)]) + name + struct.pack(">II", size, crc & 0xFFFFFFFF)`
start_payload : Bytes → ℕ → ℕ → Result Bytes
start_payload name size crc = do
  kind ← byte_of file_start
  count ← byte_of (length name)
  s ← pack_u32 size
  c ← pack_u32 (bit_and crc 0xffffffff)
  ok (kind ++ (count ++ (name ++ (s ++ c))))

unfoldable pub build_file_start : Text → ℕ → ℕ → ℕ → Result Bytes
unfolding start_payload
build_file_start filename size crc seq_count =
    let name = encode filename in
    if leb 1 (length name) && leb (length name) 255
    then if leb size 0xffffffff
      then (start_payload name size crc >>= λ payload. build_uplink_packet payload seq_count)
      else err value_error
    else err value_error

unfoldable pub build_file_data : ℕ → Bytes → ℕ → Result Bytes
build_file_data offset chunk seq_count =
    if ltb file_chunk_max (length chunk) then err value_error else do
      kind ← byte_of file_data
      at ← pack_u32 offset
      build_uplink_packet (kind ++ at ++ chunk) seq_count

unfoldable pub build_file_finish : ℕ → Result Bytes
build_file_finish seq_count = do kind ← byte_of file_finish; build_uplink_packet kind seq_count

-- `(chunk_type, fields)`
pub data Uplink : Type 0 where
  start : Text → ℕ → ℕ → Uplink
  chunk_at : ℕ → Bytes → Uplink
  finish : Uplink

start_fields : Bytes → Bytes → Result Uplink
start_fields name numbers = elim (decode strict name) [
  | none ↦ err value_error
  | some filename ↦ unpack_u32 (take 4 numbers) >>= λ size.
      unpack_u32 (drop 4 numbers) >>= λ crc. ok (start filename size crc)
]

unfoldable pub parse_file_start : Bytes → Result Uplink
unfolding start_fields
parse_file_start [] = err value_error
parse_file_start (name_len ∷ rest) =
    if name_len == 0
    then err value_error
    else if length rest + 1 == 1 + name_len + 8
    then start_fields (take name_len rest) (drop name_len rest)
    else err value_error

parse_file_data : Bytes → Result Uplink
parse_file_data body =
    if ltb (length body) 4
    then err value_error
    else unpack_u32 (take 4 body) >>= λ offset. ok (chunk_at offset (drop 4 body))

parse_file_finish : Bytes → Result Uplink
parse_file_finish [] = ok finish
parse_file_finish (b ∷ body) = err value_error

parse_payload : Bytes → Result Uplink
parse_payload [] = err value_error
parse_payload (chunk_type ∷ body) =
    if chunk_type == file_start
    then parse_file_start body
    else if chunk_type == file_data
    then parse_file_data body
    else if chunk_type == file_finish
    then parse_file_finish body
    else err value_error

unfoldable pub parse_file_uplink : Bytes → Result Uplink
unfolding parse_payload parse_file_data parse_file_finish
parse_file_uplink packet = parse_payload (drop 6 packet)
