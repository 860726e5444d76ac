-- ===== src/Ccsds/Frame/RoundTrip.antt =====
-- `frame` against one round of `deframe`.
use xtce_sim.Prelude.{
  ℕ, zero, suc, ◌+◌, ◌-◌, ◌*◌, ◌%◌, ◌/◌, ◌^◌, ◌≤◌, ◌<◌, ◌≡◌, refl, subst, sym, ap, ◌∙◌, [], ◌∷◌,
  ◌++◌, arith, length, length-append, length-take, take, drop, take-append-drop, ok, ltb,
  take-length-append, drop-length-append, false, All-take, All-drop,
}
use xtce_sim.Struct.{
  Bytes, IsByte, IsBytes, be16, pack_u16, unpack_u16, unpack_u16-be16, unpack_u16-ok,
}
use xtce_sim.Ccsds.Frame.{packet, frame, check_body, cut, scan}

module _ (crc16 : Bytes → ℕ) where
  -- The bytes of a frame.
  abbrev pub wire : Bytes → Bytes
  wire p = be16 (length p + 4) ++ (p ++ be16 (crc16 p))

  pub length-wire : (p : Bytes) → length (wire p) ≡ length p + 4
  length-wire p = omega (arith, length-append p (be16 (crc16 p)))

  -- A packet is framed if its length and its CRC fit their two bytes.
  pub frame-eq-ok :
      (p : Bytes) → length p + 4 < 2 ^ 16 → crc16 p < 2 ^ 16 → frame crc16 p ≡ ok (wire p)
  unfolding frame pack_u16
  frame-eq-ok p hl hc = ground (arith, length-append p (be16 (crc16 p)))

  pub frame-ok :
      (p : Bytes) {w : Bytes}
      → frame crc16 p ≡ ok w
      → (length p + 4 < 2 ^ 16) × (crc16 p < 2 ^ 16) × (w ≡ wire p)
  unfolding frame pack_u16
  frame-ok p h = ground (arith, length-append p (be16 (crc16 p)))

  check_body-wire : (p rest : Bytes) → check_body crc16 (p ++ be16 (crc16 p)) rest ≡ packet p rest
  unfolding check_body
  check_body-wire p rest = rw (check_body, dropped, unpack_u16-be16 (crc16 p), taken) (ground arith)
    where
      cutting : length (p ++ be16 (crc16 p)) - 2 ≡ length p
      cutting = omega (arith, length-append p (be16 (crc16 p)))

      dropped : drop (length (p ++ be16 (crc16 p)) - 2) (p ++ be16 (crc16 p)) ≡ be16 (crc16 p)
      dropped = rw cutting (drop-length-append p (be16 (crc16 p)))

      taken : take (length (p ++ be16 (crc16 p)) - 2) (p ++ be16 (crc16 p)) ≡ p
      taken = rw cutting (take-length-append p (be16 (crc16 p)))

  cut-wire : (p rest : Bytes) → cut crc16 (length p + 4) (wire p ++ rest) ≡ packet p rest
  unfolding cut
  cut-wire p rest = rw (long, whole, taken, dropped) (check_body-wire p rest)
    where
      long : ltb (length p + 4) 4 ≡ false
      long = ground arith

      whole : ltb (length (wire p ++ rest)) (length p + 4) ≡ false
      whole = ground (arith, length-append (wire p) rest, length-wire p)

      taken : take (length p + 4) (wire p ++ rest) ≡ wire p
      taken =
          subst (λ n. take n (wire p ++ rest) ≡ wire p) (length-wire p)
            (take-length-append (wire p) rest)

      dropped : drop (length p + 4) (wire p ++ rest) ≡ rest
      dropped =
          subst (λ n. drop n (wire p ++ rest) ≡ rest) (length-wire p)
            (drop-length-append (wire p) rest)

  be16_value : (n : ℕ) → n / 256 * 256 + n % 256 ≡ n
  be16_value n = omega arith

  -- The first packet of a buffer that begins with its frame.
  pub scan-wire : (p rest : Bytes) → scan crc16 (wire p ++ rest) ≡ packet p rest
  unfolding scan
  scan-wire p rest = rw (be16_value (length p + 4)) (cut-wire p rest)

  unpacked :
      (body rest : Bytes) {p r : Bytes}
      → check_body crc16 body rest ≡ packet p r
      → (p ≡ take (length body - 2) body)
        × (r ≡ rest)
        × (unpack_u16 (drop (length body - 2) body) ≡ ok (crc16 p))
  unfolding check_body
  unpacked body rest h = ground arith

  check_body-packet :
      (body rest : Bytes) {p r : Bytes}
      → IsBytes body
      → check_body crc16 body rest ≡ packet p r
      → (r ≡ rest) × (crc16 p < 2 ^ 16) × (body ≡ p ++ be16 (crc16 p))
  check_body-packet body rest {p} bytes h =
      let (front, same, crc) = unpacked body rest h in
      let (fits, back) =
        unpack_u16-ok (drop (length body - 2) body) (All-drop IsByte (length body - 2) body bytes)
          crc in
      (same, fits, sym (take-append-drop (length body - 2) body) ∙ cc (front, back))

  cut-packet :
      (n : ℕ) (buffer : Bytes) {p r : Bytes}
      → cut crc16 n buffer ≡ packet p r
      → (4 ≤ n)
        × (n ≤ length buffer)
        × (check_body crc16 (drop 2 (take n buffer)) (drop n buffer) ≡ packet p r)
  unfolding cut
  cut-packet n buffer h = ground arith

  -- `n` is the length that the two bytes declare.
  cut-packet-wire :
      (n a b : ℕ) (rest p r : Bytes)
      → n ≡ a * 256 + b
      → IsBytes (a ∷ b ∷ rest)
      → cut crc16 n (a ∷ b ∷ rest) ≡ packet p r
      → (length p + 4 < 2 ^ 16) × (crc16 p < 2 ^ 16) × ((a ∷ b ∷ rest) ≡ wire p ++ r)
  cut-packet-wire zero a b rest p r e bytes h =
      absurd (omega (arith, cut-packet zero (a ∷ b ∷ rest) h))
  cut-packet-wire (suc zero) a b rest p r e bytes h =
      absurd (omega (arith, cut-packet 1 (a ∷ b ∷ rest) h))
  cut-packet-wire (suc (suc m)) a b rest p r e bytes h =
      let (four, fits, checked) = cut-packet (suc (suc m)) (a ∷ b ∷ rest) h in
      let (left, crc_fits, body) =
        check_body-packet (take m rest) (drop m rest) (All-take IsByte m rest bytes.1.1) checked in
      let counted : length p + 2 ≡ m =
        omega (arith, ap length body, length-append p (be16 (crc16 p)), length-take m rest) in
      let high : a ≡ (length p + 4) / 256 = omega arith in
      let low : b ≡ (length p + 4) % 256 = omega arith in
      let tail : rest ≡ (p ++ be16 (crc16 p)) ++ r =
        sym (take-append-drop m rest) ∙ cc (body, left) in
      (omega arith, crc_fits, cc (high, low, tail))

  -- A packet that `deframe` takes off a buffer of bytes stood there as its frame.
  pub scan-packet :
      (buffer : Bytes) {p r : Bytes}
      → IsBytes buffer
      → scan crc16 buffer ≡ packet p r
      → (length p + 4 < 2 ^ 16) × (crc16 p < 2 ^ 16) × (buffer ≡ wire p ++ r)
  unfolding scan
  scan-packet [] bytes h = cc
  scan-packet (a ∷ []) bytes h = cc
  scan-packet (a ∷ b ∷ rest) {p} {r} bytes h =
      cut-packet-wire (a * 256 + b) a b rest p r refl bytes h
