-- ===== src/Prelude/Sort.antt =====
-- Python's stable `sorted` by a number.
use Prim.Native.Nat.{ℕ, ◌≤◌}
use mathlib.Core.Path.{◌≡◌, refl, sym, ap, ◌∙◌}
use mathlib.Core.Logic.{◌≢◌, inl, inr}
use mathlib.Core.List.{List, [], ◌∷◌}
use native.Mathlib.Omega.{arith}
use xtce_sim.Prelude.Tests.{leb, leb→le, ◌==◌, if◌then◌else◌, Bool-cases}
use xtce_sim.Prelude.Lists.{All}

abbrev pub itself : ℕ → ℕ
itself n = n

module _ {A : Type 0} (key : A → ℕ) where
  unfoldable pub insert : A → List A → List A
  insert x [] = x ∷ []
  insert x (y ∷ ys) = let rest = insert x ys in if leb (key x) (key y) then x ∷ y ∷ ys else y ∷ rest

  unfoldable pub sort : List A → List A
  unfolding insert
  sort [] = []
  sort (x ∷ xs) = insert x (sort xs)

  -- Ascending by the key.
  abbrev pub Ascending : List A → Type 0
  Ascending [] = Unit {0}
  Ascending (x ∷ xs) = All (λ (y : A). key x ≤ key y) xs × Ascending xs

  -- What has that key, in order.
  abbrev pub with_key : ℕ → List A → List A
  with_key n [] = []
  with_key n (x ∷ xs) = let rest = with_key n xs in if key x == n then x ∷ rest else rest

  All-insert : (P : A → Type 0) (x : A) (xs : List A) → P x → All P xs → All P (insert x xs)
  unfolding insert
  All-insert P x [] h hs = (h, tt)
  All-insert P x (y ∷ ys) h hs = elim (Bool-cases (leb (key x) (key y))) [
    | inl e ↦ rw e (h, hs)
    | inr e ↦ rw e (hs.0, All-insert P x ys h hs.1)
  ]

  pub All-sort : (P : A → Type 0) (xs : List A) → All P xs → All P (sort xs)
  unfolding sort
  All-sort P [] hs = tt
  All-sort P (x ∷ xs) hs = All-insert P x (sort xs) hs.0 (All-sort P xs hs.1)

  All-raise :
      (m n : ℕ) (xs : List A)
      → m ≤ n
      → All (λ (y : A). n ≤ key y) xs
      → All (λ (y : A). m ≤ key y) xs
  All-raise m n [] h hs = tt
  All-raise m n (x ∷ xs) h hs = (omega (arith, h, hs.0), All-raise m n xs h hs.1)

  insert-Ascending : (x : A) (xs : List A) → Ascending xs → Ascending (insert x xs)
  unfolding insert
  insert-Ascending x [] h = (tt, tt)
  insert-Ascending x (y ∷ ys) h = elim (Bool-cases (leb (key x) (key y))) [
    | inl e ↦
        let low : key x ≤ key y = leb→le (key x) (key y) e in
        rw e ((low, All-raise (key x) (key y) ys low h.0), h)
    | inr e ↦ rw e (
      All-insert (λ (z : A). key y ≤ key z) x ys (ground (arith, e)) h.0,
      insert-Ascending x ys h.1,
    )
  ]

  pub sort-Ascending : (xs : List A) → Ascending (sort xs)
  unfolding sort
  sort-Ascending [] = tt
  sort-Ascending (x ∷ xs) = insert-Ascending x (sort xs) (sort-Ascending xs)

  with_key-insert : (n : ℕ) (x : A) (xs : List A) → with_key n (insert x xs) ≡ with_key n (x ∷ xs)
  unfolding insert
  with_key-insert n x [] = refl
  with_key-insert n x (y ∷ ys) = ground (arith, with_key-insert n x ys)

  -- For each key the sort keeps what has it, and the order of that.
  pub with_key-sort : (n : ℕ) (xs : List A) → with_key n (sort xs) ≡ with_key n xs
  unfolding sort
  with_key-sort n [] = refl
  with_key-sort n (x ∷ xs) = with_key-insert n x (sort xs) ∙ ground (arith, with_key-sort n xs)

  with_key-first : (x : A) (xs : List A) → with_key (key x) (x ∷ xs) ≢ []
  with_key-first x xs h = ground (arith, h)

  pub sort-not_empty : (x : A) (xs : List A) → sort (x ∷ xs) ≢ []
  sort-not_empty x xs z =
      with_key-first x xs (sym (with_key-sort (key x) (x ∷ xs)) ∙ ap (with_key (key x)) z)
