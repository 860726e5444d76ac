-- ===== src/Ccsds/Header/RoundTrip.antt =====
-- `pack` and `unpack` of `CCSDSHeader` against one another.
use xtce_sim.Prelude.{
  ℕ, ◌+◌, ◌*◌, ◌/◌, ◌%◌, ◌^◌, ◌<◌, ◌≡◌, refl, ◌∙◌, ap, [], ◌∷◌, ◌++◌, arith, ok, ◌>>=◌, bit_or,
}
use xtce_sim.Prelude.Bits.{bit_and_mask, bit_or_fields}
use xtce_sim.Struct.{Bytes, IsByte, be16, pack_u16, pack_u16-fits}
use xtce_sim.Ccsds.Header.{CcsdsHeader, word1, word2, pack, from_words, unpack}

-- The fields as their widths on the wire cut them.
abbrev pub wire_view : CcsdsHeader → CcsdsHeader
wire_view h = record {
  version = h.version % 2 ^ 3;
  packet_type = h.packet_type % 2;
  sec_hdr_flag = h.sec_hdr_flag % 2;
  apid = h.apid % 2 ^ 11;
  seq_flags = h.seq_flags % 2 ^ 2;
  seq_count = h.seq_count % 2 ^ 14;
  packet_length = h.packet_length % 2 ^ 16;
}

sum1 : CcsdsHeader → ℕ
sum1 h =
    ((h.version % 8 * 2 + h.packet_type % 2) * 2 + h.sec_hdr_flag % 2) * 2 ^ 11 + h.apid % 2 ^ 11

sum2 : CcsdsHeader → ℕ
sum2 h = h.seq_flags % 4 * 2 ^ 14 + h.seq_count % 2 ^ 14

-- Three single bits above eleven, joined one by one.
four_fields :
    (v p f a : ℕ)
    → p < 2
    → f < 2
    → a < 2 ^ 11
    → bit_or (bit_or (bit_or (v * 2 ^ 13) (p * 2 ^ 12)) (f * 2 ^ 11)) a
      ≡ ((v * 2 + p) * 2 + f) * 2 ^ 11 + a
four_fields v p f a hp hf ha = rw (two, three) (bit_or_fields 11 ((v * 2 + p) * 2 + f) a ha)
  where
    two : bit_or (v * 2 ^ 13) (p * 2 ^ 12) ≡ (v * 2 + p) * 2 ^ 12
    two = bit_or_fields 13 v (p * 2 ^ 12) (omega arith) ∙ omega arith

    three : bit_or ((v * 2 + p) * 2 ^ 12) (f * 2 ^ 11) ≡ ((v * 2 + p) * 2 + f) * 2 ^ 11
    three = bit_or_fields 12 (v * 2 + p) (f * 2 ^ 11) (omega arith) ∙ omega arith

word1-sum1 : (h : CcsdsHeader) → word1 h ≡ sum1 h
unfolding word1 sum1
word1-sum1 h = ground (
  arith,
  bit_and_mask 3 h.version,
  bit_and_mask 1 h.packet_type,
  bit_and_mask 1 h.sec_hdr_flag,
  bit_and_mask 11 h.apid,
  four_fields (h.version % 8) (h.packet_type % 2) (h.sec_hdr_flag % 2) (h.apid % 2 ^ 11),
)

word2-sum2 : (h : CcsdsHeader) → word2 h ≡ sum2 h
unfolding word2 sum2
word2-sum2 h = ground (
  arith,
  bit_and_mask 2 h.seq_flags,
  bit_and_mask 14 h.seq_count,
  bit_or_fields 14 (h.seq_flags % 4) (h.seq_count % 2 ^ 14),
)

-- The bytes that `pack` makes.
unfoldable pub header_bytes : CcsdsHeader → Bytes
unfolding sum1 sum2
header_bytes h = be16 (sum1 h) ++ be16 (sum2 h) ++ be16 (h.packet_length % 2 ^ 16)

-- `pack` never fails: the masks keep each word in 16 bits.
pub pack-eq-ok : (h : CcsdsHeader) → pack h ≡ ok (header_bytes h)
unfolding pack header_bytes
pack-eq-ok h = rw (word1-sum1 h, word2-sum2 h, bit_and_mask 16 h.packet_length) words
  where
    words :
        (pack_u16 (sum1 h) >>= λ a.
        pack_u16 (sum2 h) >>= λ b. pack_u16 (h.packet_length % 2 ^ 16) >>= λ c. ok (a ++ b ++ c))
        ≡ ok (header_bytes h)
    words =
        rw
          (
            pack_u16-fits (sum1 h) (omega arith),
            pack_u16-fits (sum2 h) (omega arith),
            pack_u16-fits (h.packet_length % 2 ^ 16) (omega arith),
          )
          refl

words_view :
    (h : CcsdsHeader) → from_words (sum1 h) (sum2 h) (h.packet_length % 2 ^ 16) ≡ wire_view h
unfolding from_words sum1 sum2
words_view h = ground (
  arith,
  bit_and_mask 3 (sum1 h / 2 ^ 13),
  bit_and_mask 1 (sum1 h / 2 ^ 12),
  bit_and_mask 1 (sum1 h / 2 ^ 11),
  bit_and_mask 11 (sum1 h),
  bit_and_mask 2 (sum2 h / 2 ^ 14),
  bit_and_mask 14 (sum2 h),
)

be16_value : (n : ℕ) → n / 256 * 256 + n % 256 ≡ n
be16_value n = omega arith

-- Reading what `pack` wrote gives the fields back, each cut to its width, whatever follows.
pub unpack-pack :
    (h : CcsdsHeader) (rest : Bytes) → (pack h >>= λ b. unpack (b ++ rest)) ≡ ok (wire_view h)
unpack-pack h rest = rw (pack-eq-ok h) read
  where
    read : unpack (header_bytes h ++ rest) ≡ ok (wire_view h)
    read =
        unfold unpack header_bytes in
        rw (be16_value (sum1 h), be16_value (sum2 h), be16_value (h.packet_length % 2 ^ 16))
          (ap ok (words_view h))

sum1-from_words : (w1 w2 w3 : ℕ) → w1 < 2 ^ 16 → sum1 (from_words w1 w2 w3) ≡ w1
unfolding sum1 from_words
sum1-from_words w1 w2 w3 h = omega (
  arith,
  bit_and_mask 3 (w1 / 2 ^ 13),
  bit_and_mask 1 (w1 / 2 ^ 12),
  bit_and_mask 1 (w1 / 2 ^ 11),
  bit_and_mask 11 w1,
)

sum2-from_words : (w1 w2 w3 : ℕ) → w2 < 2 ^ 16 → sum2 (from_words w1 w2 w3) ≡ w2
unfolding sum2 from_words
sum2-from_words w1 w2 w3 h = omega (arith, bit_and_mask 2 (w2 / 2 ^ 14), bit_and_mask 14 w2)

-- Six bytes that are read as a header are packed to the same six bytes.
pub pack-unpack :
    (a b c d e f : ℕ) (rest : Bytes)
    → IsByte a
    → IsByte b
    → IsByte c
    → IsByte d
    → IsByte e
    → IsByte f
    → (unpack (a ∷ b ∷ c ∷ d ∷ e ∷ f ∷ rest) >>= pack) ≡ ok (a ∷ b ∷ c ∷ d ∷ e ∷ f ∷ [])
unfolding unpack
pack-unpack a b c d e f rest ha hb hc hd he hf = pack-eq-ok (from_words w1 w2 w3) ∙ ap ok bytes
  where
    w1 : ℕ
    w1 = a * 256 + b

    w2 : ℕ
    w2 = c * 256 + d

    w3 : ℕ
    w3 = e * 256 + f

    bytes : header_bytes (from_words w1 w2 w3) ≡ a ∷ b ∷ c ∷ d ∷ e ∷ f ∷ []
    bytes =
        unfold header_bytes in
        rw (sum1-from_words w1 w2 w3 (omega arith), sum2-from_words w1 w2 w3 (omega arith))
          (ground (arith))
