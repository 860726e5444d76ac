-- ===== src/Prelude/Equality.antt =====
-- Python's `==` as an interface, for numbers and for lists of them (texts and byte strings).
use Prim.Native.Nat.{ℕ}
use mathlib.Core.Path.{◌≡◌, refl}
use mathlib.Core.Logic.{◌↔◌, ◌≢◌, inl, inr}
use mathlib.Core.Bool.{Bool, true, false, ◌&&◌}
use mathlib.Core.List.{List, [], ◌∷◌}
use native.Mathlib.Omega.{arith}
use xtce_sim.Prelude.Tests.{◌==◌, ==_iff, Bool-cases}

pub record Eq {ℓ} (K : Type ℓ) : Type ℓ where
  pub beq : K → K → Bool
  pub beq_iff : (k j : K) → (beq k j ≡ true) ↔ (k ≡ j)

instance abbrev pub nat_eq : Eq ℕ
nat_eq = record { beq = ◌==◌; beq_iff = ==_iff }

unfoldable pub list_beq : List ℕ → List ℕ → Bool
list_beq [] [] = true
list_beq [] (b ∷ bs) = false
list_beq (a ∷ as') [] = false
list_beq (a ∷ as') (b ∷ bs) = a == b && list_beq as' bs

pub list_beq_iff : (a b : List ℕ) → (list_beq a b ≡ true) ↔ (a ≡ b)
unfolding list_beq
list_beq_iff [] [] = ground arith
list_beq_iff [] (b ∷ bs) = ground arith
list_beq_iff (a ∷ as') [] = ground arith
list_beq_iff (a ∷ as') (b ∷ bs) = ground (arith, list_beq_iff as' bs)

instance abbrev pub list_eq : Eq (List ℕ)
list_eq = record { beq = list_beq; beq_iff = list_beq_iff }

pub beq_self : (a : List ℕ) → list_beq a a ≡ true
beq_self a = (list_beq_iff a a).1 refl

pub beq-ne : (a b : List ℕ) → a ≢ b → list_beq a b ≡ false
beq-ne a b h = elim (Bool-cases (list_beq a b)) [
  | inl same ↦ absurd (h ((list_beq_iff a b).0 same))
  | inr other ↦ other
]
