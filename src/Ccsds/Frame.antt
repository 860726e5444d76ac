-- ===== src/Ccsds/Frame.antt =====
-- The wire frames of xtce_sim/ccsds.py, `frame` and `deframe`. The CRC is that of the package
-- crcmod, which is not part of the repository: a parameter.
pub mod Round
pub mod RoundTrip
pub mod Stream
pub mod Deframe
use xtce_sim.Prelude.{
  ℕ, zero, suc, ◌+◌, ◌-◌, ◌*◌, List, [], ◌∷◌, ◌++◌, length, take, drop, Result, ok, err,
  frame_error, ◌>>=◌, ltb, ◌==◌, if◌then◌else◌,
}
use xtce_sim.Struct.{Bytes, pack_u16, unpack_u16}

-- What the first bytes of the buffer hold: a part of a frame, a frame that is refused, or a
-- packet with the bytes after its frame.
pub data Scan : Type 0 where
  partial : Scan
  refused : Scan
  packet : Bytes → Bytes → Scan

module _ (crc16 : Bytes → ℕ) where
  unfoldable pub frame : Bytes → Result Bytes
  frame p = do
    crc ← pack_u16 (crc16 p)
    let body = p ++ crc
    prefix ← pack_u16 (length body + 2)
    ok (prefix ++ body)

  -- `packet, received_crc = body[:-2], body[-2:]` and the comparison.
  unfoldable pub check_body : Bytes → Bytes → Scan
  check_body body rest =
      let p = take (length body - 2) body in
      elim (unpack_u16 (drop (length body - 2) body)) [
        | ok received ↦ if crc16 p == received then packet p rest else refused
        | err e ↦ refused
      ]

  -- One round of the loop, from the declared length on.
  unfoldable pub cut : ℕ → Bytes → Scan
  unfolding check_body
  cut n buffer =
      if ltb n 4
      then refused
      else if ltb (length buffer) n
      then partial
      else check_body (drop 2 (take n buffer)) (drop n buffer)

  -- The loop's test, `len(buffer) >= 2`, is the pattern.
  unfoldable pub scan : Bytes → Scan
  unfolding cut
  scan (a ∷ b ∷ rest) = cut (a * 256 + b) (a ∷ b ∷ rest)
  scan buffer = partial

  -- The loop. A round takes four bytes at least off the buffer, so its length is enough fuel.
  deframe_loop : ℕ → Bytes → Result (List Bytes × Bytes)
  deframe_loop zero buffer = ok ([], buffer)
  deframe_loop (suc fuel) buffer = elim (scan buffer) [
    | partial ↦ ok ([], buffer)
    | refused ↦ err frame_error
    | packet p rest ↦ deframe_loop fuel rest >>= λ (packets, left). ok (p ∷ packets, left)
  ]

  unfoldable pub deframe : Bytes → Result (List Bytes × Bytes)
  unfolding deframe_loop
  deframe buffer = deframe_loop (length buffer) buffer
