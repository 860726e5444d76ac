-- ===== src/Definition/Enumerations.antt =====
-- Enumerations of xtce_sim/definition.py: a label and a value that are resolved belong together.
use xtce_sim.Prelude.{
  ◌≡◌, ◌≢◌, refl, sym, ◌∙◌, arith, All, [], ◌∷◌, Option, some, true, false, Bool-cases,
  Option-cases, inl, inr,
}
use xtce_sim.Prelude.Equality.{Eq, list_eq, list_beq, list_beq_iff}
use xtce_sim.Prelude.Dict
use xtce_sim.Prelude.Dict.{Dict}
use xtce_sim.Utf8.{Text}
use xtce_sim.Definition.{Decoded, flag, label, raw, foreign, label_for, resolve_enum_arg}

named_self : (k : Text) → list_beq k k ≡ true
named_self k = (list_beq_iff k k).1 refl

named-apart : (a b : Text) → a ≢ b → list_beq a b ≡ false
named-apart a b h = elim (Bool-cases (list_beq a b)) [
  | inl same ↦ absurd (h ((list_beq_iff a b).0 same))
  | inr other ↦ other
]

module _ {V : Type 0} ⦃e : Eq V⦄ where
  -- A dict has each key once.
  abbrev pub HasUniqueKeys : Dict Text V → Type 0
  HasUniqueKeys [] = Unit {0}
  HasUniqueKeys ((k, v) ∷ d) = All (λ (item : Text × V). item.0 ≢ k) d × HasUniqueKeys d

  -- A label that is found stands in the dict, so it is none of the keys that differ from all of it.
  label_for-apart :
      (d : Dict Text V) (k : Text) (value : V) (l : Text)
      → All (λ (item : Text × V). item.0 ≢ k) d
      → label_for d value ≡ some l
      → l ≢ k
  unfolding label_for
  label_for-apart [] k value l h g = absurd (ground (arith, g))
  label_for-apart ((j, v) ∷ d) k value l h g = elim (Bool-cases (e.beq v value)) [
    | inl b ↦ (λ same. h.0 (cc (rw b at g, same)))
    | inr b ↦ label_for-apart d k value l h.1 (rw b at g)
  ]

  label_for-get :
      (d : Dict Text V) (value : V) (l : Text)
      → HasUniqueKeys d
      → label_for d value ≡ some l
      → Dict.get d l ≡ some value
  unfolding label_for Dict.get
  label_for-get [] value l u g = absurd (ground (arith, g))
  label_for-get ((k, v) ∷ d) value l u g = elim (Bool-cases (e.beq v value)) [
    | inl b ↦
        let same : k ≡ l = cc (rw b at g) in
        let worth : v ≡ value = (e.beq_iff v value).0 b in rw (sym same, named_self k, worth) refl
    | inr b ↦
        let found = rw b at g in
        rw (named-apart k l (λ same. label_for-apart d k value l u.0 found (sym same)))
          (label_for-get d value l u.1 found)
  ]

  abbrev entry : Text → V → Option (Text × V)
  entry k v = some (k, v)

  same_entry :
      (d : Dict Text V) (k l : Text) (v value : V)
      → entry k v ≡ entry l value
      → Dict.get d k ≡ some v
      → Dict.get d l ≡ some value
  same_entry d k l v value pairs found =
      let kl : k ≡ l = cc in let vv : v ≡ value = cc in rw (sym kl, found, vv) refl

  -- Whatever the argument is, a label and a value that are resolved are an entry of the enumeration.
  pub resolve_enum_arg-get :
      (enumerations : Dict Text V) (argument : Decoded V) (l : Text) (value : V)
      → HasUniqueKeys enumerations
      → resolve_enum_arg enumerations argument ≡ some (l, value)
      → Dict.get enumerations l ≡ some value
  resolve_enum_arg-get d (flag b) l value u h =
      absurd (unfold resolve_enum_arg in ground (arith, h))
  resolve_enum_arg-get d foreign l value u h = absurd (unfold resolve_enum_arg in ground (arith, h))
  resolve_enum_arg-get d (label k) l value u h = elim (Option-cases (Dict.get d k)) [
    | inl gone ↦ absurd (unfold resolve_enum_arg in ground (arith, h, gone))
    | inr (v, found) ↦
        let done : resolve_enum_arg d (label k) ≡ some (k, v) =
          unfold resolve_enum_arg in rw (resolve_enum_arg, found) refl in
        same_entry d k l v value (sym done ∙ h) found
  ]
  resolve_enum_arg-get d (raw v) l value u h = elim (Option-cases (label_for d v)) [
    | inl gone ↦ absurd (unfold resolve_enum_arg in ground (arith, h, gone))
    | inr (k, found) ↦
        let done : resolve_enum_arg d (raw v) ≡ some (k, v) =
          unfold resolve_enum_arg in rw (resolve_enum_arg, found) refl in
        same_entry d k l v value (sym done ∙ h) (label_for-get d v k u found)
  ]
