-- ===== src/Codec/Telemetry/Saturation.antt =====
-- A number that is saturated to the range of its field packs: xtce_sim/codec.py.
use native.Mathlib.Nat.{pow-le-pow_right}
use xtce_sim.Prelude.{
  ℕ, ◌-◌, ◌^◌, ◌≤◌, ◌<◌, ◌≡◌, refl, arith, some, Bool, true, false, ok, leb, Bool-cases, inl, inr,
}
use xtce_sim.Prelude.Int.{ℤ, pos, negsuc}
use xtce_sim.Prelude.Equality.{list_eq}
use xtce_sim.Struct.{Bytes}
use xtce_sim.Schema.{Width, Item, word}
use xtce_sim.Codec.{Value, int, bits, be, to_word, pack_word, pack_item}
use xtce_sim.Codec.Telemetry.{saturate}

within : (b c : ℕ) → b ≤ c → 2 ^ b ≤ 2 ^ c
within b c h = pow-le-pow_right (omega arith) h

pub positive : (b : ℕ) → 0 < 2 ^ b
positive b = omega (arith, within 0 b (omega arith))

abbrev pub Packs : Item → Value → Type 0
Packs i v = (b : Bytes) × (pack_item i v ≡ ok b)

word-Packs :
    (signed : Bool) (w : Width) (z : ℤ) (x : ℕ)
    → to_word signed w z ≡ some x
    → Packs (word signed w) (int z)
unfolding pack_item pack_word
word-Packs signed w z x h = (be w x, rw (pack_item, pack_word, h) refl)

pub below-Packs : (w : Width) (m : ℕ) → m < 2 ^ bits w → Packs (word false w) (int (pos m))
below-Packs w m h = word-Packs false w (pos m) m (unfold to_word in ground (arith, h))

pub pos-Packs : (w : Width) (m : ℕ) → m < 2 ^ (bits w - 1) → Packs (word true w) (int (pos m))
pos-Packs w m h = word-Packs true w (pos m) m (unfold to_word in ground (arith, h))

neg-Packs : (w : Width) (m : ℕ) → m < 2 ^ (bits w - 1) → Packs (word true w) (int (negsuc m))
neg-Packs w m h =
    word-Packs true w (negsuc m) (2 ^ bits w - 1 - m) (unfold to_word in ground (arith, h))

-- A saturated number is its lower bound, its upper bound, or between them.
pub unsigned-Packs :
    (w : Width) (n : ℕ) (z : ℤ)
    → n ≤ bits w
    → Packs (word false w) (int (saturate (pos 0) (pos (2 ^ n - 1)) z))
unsigned-Packs w n (negsuc m) h = below-Packs w 0 (positive (bits w))
unsigned-Packs w n (pos m) h =
    let top = within n (bits w) h in
    let some_room = positive n in
    elim (Bool-cases (leb m 0)) [
      | inl e ↦ rw e (below-Packs w 0 (positive (bits w)))
      | inr e ↦ elim (Bool-cases (leb (2 ^ n - 1) m)) [
        | inl f ↦ rw (e, f) (below-Packs w (2 ^ n - 1) (omega (arith, top, some_room)))
        | inr f ↦ rw (e, f) (below-Packs w m (ground (arith, top, some_room, f)))
      ]
    ]

pub signed-Packs :
    (w : Width) (n : ℕ) (z : ℤ)
    → n ≤ bits w
    → Packs (word true w) (int (saturate (negsuc (2 ^ (n - 1) - 1)) (pos (2 ^ (n - 1) - 1)) z))
signed-Packs w n (pos m) h =
    let top = within (n - 1) (bits w - 1) (omega (arith, h)) in
    let some_room = positive (n - 1) in
    elim (Bool-cases (leb (2 ^ (n - 1) - 1) m)) [
      | inl f ↦ rw f (pos-Packs w (2 ^ (n - 1) - 1) (omega (arith, top, some_room)))
      | inr f ↦ rw f (pos-Packs w m (ground (arith, top, some_room, f)))
    ]
signed-Packs w n (negsuc m) h =
    let top = within (n - 1) (bits w - 1) (omega (arith, h)) in
    let some_room = positive (n - 1) in
    elim (Bool-cases (leb (2 ^ (n - 1) - 1) m)) [
      | inl f ↦ rw f (neg-Packs w (2 ^ (n - 1) - 1) (omega (arith, top, some_room)))
      | inr f ↦ rw f (neg-Packs w m (ground (arith, top, some_room, f)))
    ]
