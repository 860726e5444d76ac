-- ===== src/Ccsds/Header.antt =====
-- `CCSDSHeader` of xtce_sim/ccsds.py: the six bytes of the primary header.
pub mod RoundTrip
use xtce_sim.Prelude.{
  ℕ, ◌+◌, ◌*◌, [], ◌∷◌, ◌++◌, Result, ok, err, value_error, ◌>>=◌, bit_and, bit_or,
}
use xtce_sim.Prelude.Bits.{shl, shr}
use xtce_sim.Struct.{Bytes, pack_u16}

-- Python's fields are unbounded ints; those of the program are not negative.
pub record CcsdsHeader : Type 0 where
  pub version : ℕ
  pub packet_type : ℕ
  pub sec_hdr_flag : ℕ
  pub apid : ℕ
  pub seq_flags : ℕ
  pub seq_count : ℕ
  pub packet_length : ℕ

-- The defaults of the dataclass.
abbrev pub default_header : CcsdsHeader
default_header = record {
  version = 0;
  packet_type = 0;
  sec_hdr_flag = 0;
  apid = 0;
  seq_flags = 3;
  seq_count = 0;
  packet_length = 0;
}

word1 : CcsdsHeader → ℕ
word1 h =
    bit_or
      (bit_or (bit_or (shl (bit_and h.version 0x7) 13) (shl (bit_and h.packet_type 0x1) 12))
        (shl (bit_and h.sec_hdr_flag 0x1) 11))
      (bit_and h.apid 0x7ff)

word2 : CcsdsHeader → ℕ
word2 h = bit_or (shl (bit_and h.seq_flags 0x3) 14) (bit_and h.seq_count 0x3fff)

unfoldable pub pack : CcsdsHeader → Result Bytes
unfolding word1 word2
pack h = do
  a ← pack_u16 (word1 h)
  b ← pack_u16 (word2 h)
  c ← pack_u16 (bit_and h.packet_length 0xffff)
  ok (a ++ b ++ c)

from_words : ℕ → ℕ → ℕ → CcsdsHeader
from_words w1 w2 w3 = record {
  version = bit_and (shr w1 13) 0x7;
  packet_type = bit_and (shr w1 12) 0x1;
  sec_hdr_flag = bit_and (shr w1 11) 0x1;
  apid = bit_and w1 0x7ff;
  seq_flags = bit_and (shr w2 14) 0x3;
  seq_count = bit_and w2 0x3fff;
  packet_length = w3;
}

-- The pattern is `struct.unpack(">HHH", data[:6])`.
unfoldable pub unpack : Bytes → Result CcsdsHeader
unfolding from_words
unpack (a ∷ b ∷ c ∷ d ∷ e ∷ f ∷ _) = ok (from_words (a * 256 + b) (c * 256 + d) (e * 256 + f))
unpack _ = err value_error
