-- ===== src/Struct.antt =====
-- The part of Python's `struct` and `bytes` that the program uses, over lists of byte values:
-- the big-endian formats ">H" and ">I", and `bytes([n])`.
use xtce_sim.Prelude.{
  ℕ, ◌+◌, ◌*◌, ◌/◌, ◌%◌, ◌^◌, ◌<◌, ◌≡◌, refl, List, [], ◌∷◌, arith, ltb, ap, length, if◌then◌else◌,
  All, Result, ok, err, struct_error, value_error,
}

abbrev pub Bytes : Type 0
Bytes = List ℕ

abbrev pub IsByte : ℕ → Type 0
IsByte b = b < 256

abbrev pub IsBytes : Bytes → Type 0
IsBytes = All IsByte

-- The bytes of a word, most significant first.
abbrev pub be16 : ℕ → Bytes
be16 n = (n / 256) ∷ (n % 256) ∷ []

abbrev pub be32 : ℕ → Bytes
be32 n = (n / 2 ^ 24) ∷ (n / 2 ^ 16 % 256) ∷ (n / 2 ^ 8 % 256) ∷ (n % 256) ∷ []

-- `struct.pack(">H", n)`
unfoldable pub pack_u16 : ℕ → Result Bytes
pack_u16 n = if ltb n (2 ^ 16) then ok (be16 n) else err struct_error

-- `struct.pack(">I", n)`
unfoldable pub pack_u32 : ℕ → Result Bytes
pack_u32 n = if ltb n (2 ^ 32) then ok (be32 n) else err struct_error

-- `struct.unpack(">H", b)[0]`
unfoldable pub unpack_u16 : Bytes → Result ℕ
unpack_u16 (a ∷ b ∷ []) = ok (a * 256 + b)
unpack_u16 _ = err struct_error

-- `struct.unpack(">I", b)[0]`
unfoldable pub unpack_u32 : Bytes → Result ℕ
unpack_u32 (a ∷ b ∷ c ∷ d ∷ []) = ok (a * 2 ^ 24 + b * 2 ^ 16 + c * 2 ^ 8 + d)
unpack_u32 _ = err struct_error

-- `bytes([n])`
unfoldable pub byte_of : ℕ → Result Bytes
byte_of n = if ltb n 256 then ok (n ∷ []) else err value_error

pub pack_u16-fits : (n : ℕ) → n < 2 ^ 16 → pack_u16 n ≡ ok (be16 n)
unfolding pack_u16
pack_u16-fits n h = ground arith

pub pack_u32-fits : (n : ℕ) → n < 2 ^ 32 → pack_u32 n ≡ ok (be32 n)
unfolding pack_u32
pack_u32-fits n h = ground arith

pub byte_of-fits : (n : ℕ) → n < 256 → byte_of n ≡ ok (n ∷ [])
unfolding byte_of
byte_of-fits n h = ground arith

-- A packed word is the bytes of a number that fits.
pub pack_u16-ok : (n : ℕ) {w : Bytes} → pack_u16 n ≡ ok w → (n < 2 ^ 16) × (w ≡ be16 n)
unfolding pack_u16
pack_u16-ok n h = ground arith

pub pack_u32-ok : (n : ℕ) {w : Bytes} → pack_u32 n ≡ ok w → (n < 2 ^ 32) × (w ≡ be32 n)
unfolding pack_u32
pack_u32-ok n h = ground arith

pub byte_of-ok : (n : ℕ) {w : Bytes} → byte_of n ≡ ok w → (n < 256) × (w ≡ n ∷ [])
unfolding byte_of
byte_of-ok n h = ground arith

pub unpack_u16-be16 : (n : ℕ) → unpack_u16 (be16 n) ≡ ok n
unfolding unpack_u16
unpack_u16-be16 n = ap ok (omega arith)

pub unpack_u32-be32 : (n : ℕ) → unpack_u32 (be32 n) ≡ ok n
unfolding unpack_u32
unpack_u32-be32 n = ap ok (omega arith)

-- What is read from two bytes fits a word, and the two bytes are its bytes.
pub unpack_u16-ok :
    (bs : Bytes) {n : ℕ} → IsBytes bs → unpack_u16 bs ≡ ok n → (n < 2 ^ 16) × (bs ≡ be16 n)
unfolding unpack_u16
unpack_u16-ok (a ∷ b ∷ []) bytes h = ground arith
unpack_u16-ok [] bytes h = cc
unpack_u16-ok (a ∷ []) bytes h = cc
unpack_u16-ok (a ∷ b ∷ c ∷ bs) bytes h = cc

-- Four bytes are always read.
pub unpack_u32-length : (bs : Bytes) → length bs ≡ 4 → (n : ℕ) × (unpack_u32 bs ≡ ok n)
unfolding unpack_u32
unpack_u32-length (a ∷ b ∷ c ∷ d ∷ []) h = (_, refl)
unpack_u32-length [] h = absurd (omega arith)
unpack_u32-length (a ∷ []) h = absurd (omega arith)
unpack_u32-length (a ∷ b ∷ []) h = absurd (omega arith)
unpack_u32-length (a ∷ b ∷ c ∷ []) h = absurd (omega arith)
unpack_u32-length (a ∷ b ∷ c ∷ d ∷ e ∷ bs) h = absurd (omega arith)
