-- ===== src/Ccsds/Frame/Round.antt =====
-- One round of `deframe`: what it takes off the buffer, and that bytes which come later do not
-- change its verdict.
use xtce_sim.Prelude.{
  ℕ, ◌+◌, ◌*◌, ◌≤◌, ◌<◌, ◌≡◌, ◌≢◌, refl, [], ◌∷◌, ◌++◌, arith, length, length-append, length-drop,
  take, drop, take-append, drop-append, Bool-cases, inl, inr, ltb, false,
}
use xtce_sim.Struct.{Bytes}
use xtce_sim.Ccsds.Frame.{Scan, partial, refused, packet, check_body, cut, scan}

-- The verdict when more bytes stand behind the buffer.
abbrev pub extend : Bytes → Scan → Scan
extend more partial = partial
extend more refused = refused
extend more (packet p rest) = packet p (rest ++ more)

module _ (crc16 : Bytes → ℕ) where
  check_body-append :
      (body rest more : Bytes)
      → check_body crc16 body (rest ++ more) ≡ extend more (check_body crc16 body rest)
  unfolding check_body
  check_body-append body rest more = ground arith

  cut-append :
      (n : ℕ) (buffer more : Bytes)
      → cut crc16 n buffer ≢ partial
      → cut crc16 n (buffer ++ more) ≡ extend more (cut crc16 n buffer)
  unfolding cut
  cut-append n buffer more h = elim (Bool-cases (ltb n 4)) [
    | inl short ↦ rw short
    | inr long ↦ elim (Bool-cases (ltb (length buffer) n)) [
      | inl lacking ↦ absurd (h (rw (long, lacking)))
      | inr whole ↦
          let fits : n ≤ length buffer = ground arith in
          let still : ltb (length (buffer ++ more)) n ≡ false =
            ground (arith, length-append buffer more) in
          rw (long, whole, still, take-append n buffer more fits, drop-append n buffer more fits)
            (check_body-append (drop 2 (take n buffer)) (drop n buffer) more)
    ]
  ]

  -- More bytes behind the buffer change a verdict only where it was to wait.
  pub scan-append :
      (buffer more : Bytes)
      → scan crc16 buffer ≢ partial
      → scan crc16 (buffer ++ more) ≡ extend more (scan crc16 buffer)
  unfolding scan
  scan-append [] more h = absurd (h refl)
  scan-append (a ∷ []) more h = absurd (h refl)
  scan-append (a ∷ b ∷ rest) more h = cut-append (a * 256 + b) (a ∷ b ∷ rest) more h

  cut-shorter :
      (n : ℕ) (buffer : Bytes) {p r : Bytes}
      → cut crc16 n buffer ≡ packet p r
      → length r < length buffer
  unfolding cut
  cut-shorter n buffer h = ground (arith, length-drop n buffer)

  -- A packet takes bytes off the buffer.
  pub scan-shorter :
      (buffer : Bytes) {p r : Bytes} → scan crc16 buffer ≡ packet p r → length r < length buffer
  unfolding scan
  scan-shorter [] h = cc
  scan-shorter (a ∷ []) h = cc
  scan-shorter (a ∷ b ∷ rest) h = cut-shorter (a * 256 + b) (a ∷ b ∷ rest) h
