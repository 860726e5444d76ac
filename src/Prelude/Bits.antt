-- ===== src/Prelude/Bits.antt =====
-- `&` with a mask of low ones and `|` of disjoint fields are remainder and sum, at every width.
use Prim.Native.Nat.{
  ℕ, zero, suc, ◌+◌, ◌-◌, ◌*◌, ◌/◌, ◌%◌, ◌^◌, ◌≤◌, ◌<◌, min, max, bit_and, bit_or, digits,
  bit_and-bitwise, bit_or-bitwise,
}
use mathlib.Core.Path.{◌≡◌, refl, ap, ◌∙◌}
use native.Mathlib.Omega.{arith}
use native.Mathlib.Nat.{
  pow-suc, one-le-pow, div-add-mod, add-mul-mod_self_left, mod-eq_of_lt, mod-lt,
}

-- `x << k` and `x >> k`
abbrev pub shl : ℕ → ℕ → ℕ
shl x k = x * 2 ^ k

abbrev pub shr : ℕ → ℕ → ℕ
shr x k = x / 2 ^ k

-- The native operations work digit by digit, on as much fuel as the first number.
abbrev meet : ℕ → ℕ → ℕ → ℕ
meet n a b = digits (λ b. zero) min n a b

abbrev join : ℕ → ℕ → ℕ → ℕ
join n a b = digits (λ b. b) max n a b

meet_fuel : (n m a b : ℕ) → a ≤ n → a ≤ m → meet n a b ≡ meet m a b
meet_fuel zero zero a b p q = refl
meet_fuel zero (suc m) zero b p q = refl
meet_fuel zero (suc m) (suc a) b p q = absurd (omega arith)
meet_fuel (suc n) zero zero b p q = refl
meet_fuel (suc n) zero (suc a) b p q = absurd (omega arith)
meet_fuel (suc n) (suc m) zero b p q = refl
meet_fuel (suc n) (suc m) (suc a) b p q =
    omega (arith, meet_fuel n m (suc a / 2) (b / 2) (omega arith) (omega arith))

join_fuel : (n m a b : ℕ) → a ≤ n → a ≤ m → join n a b ≡ join m a b
join_fuel zero zero a b p q = refl
join_fuel zero (suc m) zero b p q = refl
join_fuel zero (suc m) (suc a) b p q = absurd (omega arith)
join_fuel (suc n) zero zero b p q = refl
join_fuel (suc n) zero (suc a) b p q = absurd (omega arith)
join_fuel (suc n) (suc m) zero b p q = refl
join_fuel (suc n) (suc m) (suc a) b p q =
    omega (arith, join_fuel n m (suc a / 2) (b / 2) (omega arith) (omega arith))

bit_and_half : (a b : ℕ) → bit_and a b ≡ bit_and (a / 2) (b / 2) * 2 + min (a % 2) (b % 2)
bit_and_half zero b = omega (arith, bit_and-bitwise 0 b, bit_and-bitwise 0 (b / 2))
bit_and_half (suc a) b = omega (
  arith,
  bit_and-bitwise (suc a) b,
  bit_and-bitwise (suc a / 2) (b / 2),
  meet_fuel a (suc a / 2) (suc a / 2) (b / 2) (omega arith) (omega arith),
)

bit_or_half : (a b : ℕ) → bit_or a b ≡ bit_or (a / 2) (b / 2) * 2 + max (a % 2) (b % 2)
bit_or_half zero b = omega (arith, bit_or-bitwise 0 b, bit_or-bitwise 0 (b / 2))
bit_or_half (suc a) b = omega (
  arith,
  bit_or-bitwise (suc a) b,
  bit_or-bitwise (suc a / 2) (b / 2),
  join_fuel a (suc a / 2) (suc a / 2) (b / 2) (omega arith) (omega arith),
)

bit_and-zero_fuel : (fuel x : ℕ) → x ≤ fuel → bit_and x 0 ≡ 0
bit_and-zero_fuel (suc fuel) (suc x) small =
    omega (arith, bit_and-zero_fuel fuel (suc x / 2) (omega arith), bit_and_half (suc x) 0)
bit_and-zero_fuel zero (suc x) small = absurd (omega arith)
bit_and-zero_fuel fuel zero small = refl

bit_or-zero_fuel : (n a : ℕ) → a ≤ n → bit_or a 0 ≡ a
bit_or-zero_fuel n zero h = refl
bit_or-zero_fuel zero (suc a) h = absurd (omega arith)
bit_or-zero_fuel (suc n) (suc a) h =
    omega (arith, bit_or_half (suc a) 0, bit_or-zero_fuel n (suc a / 2) (omega arith))

two_pow : (k : ℕ) → (2 ^ suc k ≡ 2 * 2 ^ k) × (1 ≤ 2 ^ k)
two_pow k = (omega (arith, pow-suc 2 k), one-le-pow k 2 (omega arith))

half_mod : (m a : ℕ) → 1 ≤ m → a % (2 * m) ≡ a / 2 % m * 2 + a % 2
half_mod m a h =
    ap (λ (t : ℕ). t % (2 * m)) split
    ∙ add-mul-mod_self_left low (2 * m) (a / 2 / m)
    ∙ mod-eq_of_lt small
  where
    low : ℕ
    low = a / 2 % m * 2 + a % 2

    split : a ≡ low + 2 * m * (a / 2 / m)
    split = omega (arith, div-add-mod (a / 2) m)

    small : low < 2 * m
    small = omega (arith, mod-lt (a / 2) h)

-- `a & (2 ^ k - 1)`
pub bit_and_mask : (k a : ℕ) → bit_and a (2 ^ k - 1) ≡ a % 2 ^ k
bit_and_mask zero a = omega (arith, bit_and-zero_fuel a a (omega arith))
bit_and_mask (suc k) a =
    ground
      (arith, two_pow k, bit_and_half a (2 ^ suc k - 1), bit_and_mask k (a / 2), half_mod (2 ^ k) a)

-- `(a << k) | b`, where `b` fits `k` bits.
pub bit_or_fields : (k a b : ℕ) → b < 2 ^ k → bit_or (a * 2 ^ k) b ≡ a * 2 ^ k + b
bit_or_fields zero a b h = ground (arith, bit_or-zero_fuel a a (omega arith))
bit_or_fields (suc k) a b h = ground (
  arith,
  two_pow k,
  bit_or_half (a * 2 ^ suc k) b,
  ap (λ (t : ℕ). a * t) (two_pow k).0,
  bit_or_fields k a (b / 2),
)
