-- ===== src/Ccsds/Uplink/RoundTrip.antt =====
-- The vehicle reads back the uplink packets that the ground builds.
use xtce_sim.Prelude.{
  ℕ, ◌+◌, ◌-◌, ◌%◌, ◌^◌, ◌≤◌, ◌<◌, ◌≡◌, refl, ◌∙◌, [], ◌∷◌, ◌++◌, arith, length, length-append,
  take, drop, take-length-append, drop-length-append, ok, ◌>>=◌, All, true, false, ltb, ◌==◌,
  le→leb,
}
use xtce_sim.Prelude.Bits.{bit_and_mask}
use xtce_sim.Struct.{Bytes, be32, byte_of-fits, pack_u32-fits, unpack_u32-be32}
use xtce_sim.Utf8.{Text, IsScalar, encode, strict}
use xtce_sim.Utf8.RoundTrip.{decode-encode}
use xtce_sim.Ccsds.Header.{CcsdsHeader, default_header}
use xtce_sim.Ccsds.Header.RoundTrip.{header_bytes, pack-eq-ok}
use xtce_sim.Ccsds.Uplink.{
  start, chunk_at, finish, build_uplink_packet, start_payload, build_file_start, build_file_data,
  build_file_finish, start_fields, parse_file_start, parse_file_data, parse_payload,
  parse_file_uplink, file_chunk_max, file_uplink_apid,
}

-- An uplink packet is always built, and is parsed by its payload.
uplink_packet :
    (payload : Bytes) (seq_count : ℕ)
    → (build_uplink_packet payload seq_count >>= parse_file_uplink) ≡ parse_payload payload
unfolding build_uplink_packet header_bytes
uplink_packet payload seq_count = rw (pack-eq-ok header) (unfold parse_file_uplink in refl)
  where
    header : CcsdsHeader
    header = record default_header {
      packet_type = 1;
      apid = file_uplink_apid;
      seq_count = seq_count;
      packet_length = length payload - 1;
    }

-- A FINISH packet is read as one.
pub parse-build_file_finish :
    (seq_count : ℕ) → (build_file_finish seq_count >>= parse_file_uplink) ≡ ok finish
unfolding build_file_finish
parse-build_file_finish seq_count =
    rw (byte_of-fits 2 (omega arith), uplink_packet (2 ∷ []) seq_count)
      (unfold parse_file_uplink in refl)

parse_data_payload :
    (offset : ℕ) (chunk : Bytes)
    → parse_payload (1 ∷ (be32 offset ++ chunk)) ≡ ok (chunk_at offset chunk)
unfolding parse_payload parse_file_data
parse_data_payload offset chunk = rw (unpack_u32-be32 offset) (ground arith)

-- A chunk that fits a frame is read back with its offset.
pub parse-build_file_data :
    (offset : ℕ) (chunk : Bytes) (seq_count : ℕ)
    → offset < 2 ^ 32
    → length chunk ≤ file_chunk_max
    → (build_file_data offset chunk seq_count >>= parse_file_uplink) ≡ ok (chunk_at offset chunk)
unfolding build_file_data
parse-build_file_data offset chunk seq_count fits short =
    rw (small, byte_of-fits 1 (omega arith), pack_u32-fits offset fits)
      (uplink_packet (1 ∷ (be32 offset ++ chunk)) seq_count ∙ parse_data_payload offset chunk)
  where
    small : ltb file_chunk_max (length chunk) ≡ false
    small = ground arith

start_fields-encode :
    (filename : Text) (size crc : ℕ)
    → All IsScalar filename
    → start_fields (encode filename) (be32 size ++ be32 crc) ≡ ok (start filename size crc)
unfolding start_fields
start_fields-encode filename size crc scalar =
    rw (
      start_fields,
      decode-encode strict filename scalar,
      unpack_u32-be32 size,
      unpack_u32-be32 crc,
    )

parse_start_payload :
    (filename : Text) (size crc : ℕ)
    → All IsScalar filename
    → 1 ≤ length (encode filename)
    → parse_payload (0 ∷ length (encode filename) ∷ (encode filename ++ (be32 size ++ be32 crc)))
      ≡ ok (start filename size crc)
unfolding parse_payload parse_file_start
parse_start_payload filename size crc scalar named =
    rw (nonempty, counted, cut_name, cut_numbers) (start_fields-encode filename size crc scalar)
  where
    numbers : Bytes
    numbers = be32 size ++ be32 crc

    cut_name : take (length (encode filename)) (encode filename ++ numbers) ≡ encode filename
    cut_name = take-length-append (encode filename) numbers

    cut_numbers : drop (length (encode filename)) (encode filename ++ numbers) ≡ numbers
    cut_numbers = drop-length-append (encode filename) numbers

    nonempty : (length (encode filename) == 0) ≡ false
    nonempty = ground arith

    counted : (length (encode filename ++ numbers) + 1 == 1 + length (encode filename) + 8) ≡ true
    counted = ground (arith, length-append (encode filename) numbers)

-- A START packet is read back with its name and its size, and with the CRC cut to 32 bits.
pub parse-build_file_start :
    (filename : Text) (size crc seq_count : ℕ)
    → All IsScalar filename
    → 1 ≤ length (encode filename)
    → length (encode filename) ≤ 255
    → size < 2 ^ 32
    → (build_file_start filename size crc seq_count >>= parse_file_uplink)
      ≡ ok (start filename size (crc % 2 ^ 32))
unfolding build_file_start start_payload
parse-build_file_start filename size crc seq_count scalar named short fits =
    rw
      (
        le→leb 1 (length name) named,
        le→leb (length name) 255 short,
        le→leb size 0xffffffff (omega arith),
        bit_and_mask 32 crc,
        byte_of-fits 0 (omega arith),
        byte_of-fits (length name) (omega arith),
        pack_u32-fits size fits,
        pack_u32-fits (crc % 2 ^ 32) (omega arith),
      )
      (uplink_packet _ seq_count ∙ parse_start_payload filename size (crc % 2 ^ 32) scalar named)
  where
    name : Bytes
    name = encode filename
