-- ===== src/Ccsds/Uplink/Errors.antt =====
-- A malformed uplink packet raises ValueError, and no other exception.
use xtce_sim.Prelude.{
  ◌≤◌, ◌≡◌, [], ◌∷◌, arith, length, length-drop, length-take, take, drop, Bool-cases, inl, inr, err,
  Result, Error, value_error, ltb, ◌==◌,
}
use xtce_sim.Struct.{Bytes, unpack_u32-length}
use xtce_sim.Ccsds.Uplink.{
  Uplink, file_start, file_data, file_finish, start_fields, parse_file_start, parse_file_data,
  parse_file_finish, parse_payload, parse_file_uplink,
}

start_fields-err :
    (name numbers : Bytes) (e : Error)
    → length numbers ≡ 8
    → start_fields name numbers ≡ err e
    → e ≡ value_error
unfolding start_fields
start_fields-err name numbers e h r =
    let (size, first) = unpack_u32-length (take 4 numbers) (omega (arith, length-take 4 numbers)) in
    let (crc, second) = unpack_u32-length (drop 4 numbers) (omega (arith, length-drop 4 numbers)) in
    ground (arith, first, second)

parse_file_start-err : (body : Bytes) (e : Error) → parse_file_start body ≡ err e → e ≡ value_error
unfolding parse_file_start
parse_file_start-err [] e r = ground arith
parse_file_start-err (n ∷ rest) e r =
    ground (arith, length-drop n rest, start_fields-err (take n rest) (drop n rest) e)

parse_file_data-err : (body : Bytes) (e : Error) → parse_file_data body ≡ err e → e ≡ value_error
unfolding parse_file_data
parse_file_data-err body e r = elim (Bool-cases (ltb (length body) 4)) [
  | inl short ↦ ground (arith, short)
  | inr long ↦
      let fits : 4 ≤ length body = ground arith in
      let (offset, read) = unpack_u32-length (take 4 body) (omega (arith, length-take 4 body)) in
      ground (arith, long, read)
]

parse_file_finish-err :
    (body : Bytes) (e : Error) → parse_file_finish body ≡ err e → e ≡ value_error
unfolding parse_file_finish
parse_file_finish-err [] e r = cc
parse_file_finish-err (b ∷ body) e r = ground arith

refused : (e : Error) → Path (Result Uplink) (err value_error) (err e) → e ≡ value_error
refused e r = ground (arith, r)

parse_payload-err : (payload : Bytes) (e : Error) → parse_payload payload ≡ err e → e ≡ value_error
unfolding parse_payload
parse_payload-err [] e r = ground arith
parse_payload-err (kind ∷ body) e r = elim (Bool-cases (kind == file_start)) [
  | inl first ↦ parse_file_start-err body e (rw first at r)
  | inr other ↦ elim (Bool-cases (kind == file_data)) [
    | inl second ↦ parse_file_data-err body e (rw (other, second) at r)
    | inr neither ↦ elim (Bool-cases (kind == file_finish)) [
      | inl third ↦ parse_file_finish-err body e (rw (other, neither, third) at r)
      | inr unknown ↦ ground (arith, refused e (rw (other, neither, unknown) at r))
    ]
  ]
]

-- Whatever the bytes are, a packet that is not read as an uplink packet raises a ValueError.
pub parse_file_uplink-err :
    (packet : Bytes) (e : Error) → parse_file_uplink packet ≡ err e → e ≡ value_error
unfolding parse_file_uplink
parse_file_uplink-err packet e r = parse_payload-err (drop 6 packet) e r
