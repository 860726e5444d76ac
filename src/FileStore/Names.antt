-- ===== src/FileStore/Names.antt =====
-- Which names the store takes.
use xtce_sim.Prelude.{
  ℕ, ◌-◌, ◌≤◌, ◌≡◌, ◌≢◌, ◌↔◌, refl, sym, ap, ◌∙◌, [], ◌∷◌, ◌++◌, arith, length, length-append, drop,
  take, take-append-drop, drop-length-append, All, none, true, false, Bool-cases, inl, inr, ok,
}
use xtce_sim.Prelude.Equality.{list_beq_iff}
use xtce_sim.Utf8.{Text, encode}
use xtce_sim.FileStore.{name_problem, is_part, has_bad_char, part_suffix, path}

abbrev pub IsLegal : Text → Type 0
IsLegal name = name_problem name ≡ none

pub is_part-append : (name : Text) → is_part (name ++ part_suffix) ≡ true
unfolding is_part
is_part-append name =
    rw (cut, drop-length-append name part_suffix) ((list_beq_iff part_suffix part_suffix).1 refl)
  where
    cut : length (name ++ part_suffix) - 5 ≡ length name
    cut = omega (arith, length-append name part_suffix)

-- A name with the suffix is a stem and the suffix.
is_part-stem :
    (name : Text) → is_part name ≡ true → name ≡ take (length name - 5) name ++ part_suffix
unfolding is_part
is_part-stem name h =
    sym (take-append-drop (length name - 5) name)
    ∙ ap (λ (l : Text). take (length name - 5) name ++ l)
        ((list_beq_iff (drop (length name - 5) name) part_suffix).0 h)

-- Neither a separator nor a control character.
abbrev pub IsPlain : ℕ → Type 0
IsPlain c = (c ≢ b'/') × (c ≢ 0x5c) × (0x20 ≤ c)

has_bad_char-All : (name : Text) → has_bad_char name ≡ false → All IsPlain name
unfolding has_bad_char
has_bad_char-All [] h = tt
has_bad_char-All (c ∷ cs) h = (ground arith, has_bad_char-All cs (ground arith))

All-has_bad_char : (name : Text) → All IsPlain name → has_bad_char name ≡ false
unfolding has_bad_char
All-has_bad_char [] h = refl
All-has_bad_char (c ∷ cs) h = ground (arith, All-has_bad_char cs h.1)

-- What a legal name is, in the words of the docstring.
pub record IsJailed (name : Text) : Type 0 where
  pub named : 1 ≤ length name
  pub short : length (encode name) ≤ 32
  pub plain : All IsPlain name
  pub not_here : name ≢ b'.' ∷ []
  pub not_parent : name ≢ b'.' ∷ b'.' ∷ []
  pub not_part : (stem : Text) → name ≢ stem ++ part_suffix

IsLegal-IsJailed : (name : Text) → IsLegal name → IsJailed name
unfolding name_problem
IsLegal-IsJailed name h = record {
  named = ground arith;
  short = ground arith;
  plain = has_bad_char-All name (ground arith);
  not_here = ground (arith, list_beq_iff name (b'.' ∷ []));
  not_parent = ground (arith, list_beq_iff name (b'.' ∷ b'.' ∷ []));
  not_part = λ stem e. cc (is_part-append stem, e, no_suffix);
}
  where
    no_suffix : is_part name ≡ false
    no_suffix = ground arith

IsJailed-IsLegal : (name : Text) → IsJailed name → IsLegal name
unfolding name_problem
IsJailed-IsLegal name j = elim (Bool-cases (is_part name)) [
  | inl suffix ↦ absurd (j.not_part _ (is_part-stem name suffix))
  | inr free ↦ ground (
    arith,
    All-has_bad_char name j.plain,
    list_beq_iff name (b'.' ∷ []),
    list_beq_iff name (b'.' ∷ b'.' ∷ []),
    j.named,
    j.short,
    j.not_here,
    j.not_parent,
  )
]

-- A name is accepted exactly if it is one component of a path, of 1 to 32 bytes, that is no
-- reference to a directory and no temporary file of the store.
pub name_problem_iff : (name : Text) → (name_problem name ≡ none) ↔ IsJailed name
name_problem_iff name = (IsLegal-IsJailed name, IsJailed-IsLegal name)

pub path-legal : (name : Text) → IsLegal name → path name ≡ ok name
unfolding path
path-legal name h = rw (path, h)

pub legal-not-part : (name : Text) → IsLegal name → is_part name ≡ false
unfolding name_problem
legal-not-part name h = ground arith
