-- ===== src/Zlib.antt =====
-- `zlib.crc32` of Python's standard library, bit by bit: the reflected polynomial 0xEDB88320.
use xtce_sim.Prelude.{ℕ, zero, suc, ◌/◌, ◌%◌, ◌≡◌, refl, [], ◌∷◌, ◌==◌, if◌then◌else◌, bit_xor}
use xtce_sim.Struct.{Bytes}

shift_bits : ℕ → ℕ → ℕ
shift_bits zero r = r
shift_bits (suc n) r = shift_bits n (if r % 2 == 1 then bit_xor (r / 2) 0xedb88320 else r / 2)

crc_from : ℕ → Bytes → ℕ
unfolding shift_bits
crc_from r [] = r
crc_from r (b ∷ bs) = crc_from (shift_bits 8 (bit_xor r b)) bs

unfoldable pub crc32 : Bytes → ℕ
unfolding crc_from
crc32 bs = bit_xor (crc_from 0xffffffff bs) 0xffffffff

crc32_check_value :
    crc32 (b'1' ∷ b'2' ∷ b'3' ∷ b'4' ∷ b'5' ∷ b'6' ∷ b'7' ∷ b'8' ∷ b'9' ∷ []) ≡ 0xcbf43926
unfolding crc32
crc32_check_value = refl
