-- ===== src/Generate/Opcodes/Distinct.antt =====
-- The opcodes of xtce_sim/generate.py: what `_reserve_real_opcodes` leaves, and the two steps together.
use xtce_sim.Prelude.{
  ℕ, ◌≤◌, ◌≡◌, ◌≢◌, ◌⊎◌, inl, inr, refl, ◌∙◌, sym, subst, arith, All, List, [], ◌∷◌, Option, none,
  some, true, false, Bool-cases, Option-cases, ok, >>=-eq-ok, leb, leb→le, if◌then◌else◌,
}
use xtce_sim.Prelude.Equality.{list_eq, list_beq, list_beq_iff}
use xtce_sim.Prelude.Dict
use xtce_sim.Prelude.Dict.{Dict, get-put}
use xtce_sim.Utf8.{Text}
use xtce_sim.Generate.Opcodes.{
  MetaCommand, is_taken, Reserved, reserve_one, reserve, real_of, assign, build_commands,
}
use xtce_sim.Schema.{CommandDef}
use xtce_sim.Generate.Opcodes.Assign.{
  Lacks, Reals, Low, AllDistinct, taken-cons, taken-head, Low-cons, assign-Assigned, Built, Entered,
  assign-Built,
}

abbrev pub DistinctNames : List MetaCommand → Type 0
DistinctNames [] = Unit {0}
DistinctNames (c ∷ cs) = All (λ (d : MetaCommand). d.name ≢ c.name) cs × DistinctNames cs

-- What a turn of the reservation does, when it raises nothing.
abbrev Took : MetaCommand → Reserved → Reserved → Type 0
Took c st st' =
    ((c.extracted ≡ none) × (st' ≡ (Dict.put st.0 c.name none, st.1)))
    ⊎ ((o : ℕ) × (c.extracted ≡ some o)
        × (o ≤ 255)
        × (is_taken o st.1 ≡ false)
        × (st' ≡ (Dict.put st.0 c.name (some o), o ∷ st.1)))

took_none :
    (c : MetaCommand) (st st' : Reserved)
    → c.extracted ≡ none
    → reserve_one c st ≡ ok st'
    → st' ≡ (Dict.put st.0 c.name none, st.1)
took_none c st st' e h =
    let done : reserve_one c st ≡ ok (Dict.put st.0 c.name none, st.1) =
      unfold reserve_one in rw (reserve_one, e) refl in
    cc

took_some :
    (c : MetaCommand) (st st' : Reserved) (o : ℕ)
    → c.extracted ≡ some o
    → leb o 255 ≡ true
    → is_taken o st.1 ≡ false
    → reserve_one c st ≡ ok st'
    → st' ≡ (Dict.put st.0 c.name (some o), o ∷ st.1)
took_some c st st' o e small free h =
    let done : reserve_one c st ≡ ok (Dict.put st.0 c.name (some o), o ∷ st.1) =
      unfold reserve_one in rw (reserve_one, e, small, free) refl in
    cc

reserve_one-Took : (c : MetaCommand) (st st' : Reserved) → reserve_one c st ≡ ok st' → Took c st st'
reserve_one-Took c st st' h = elim (Option-cases c.extracted) [
  | inl e ↦ inl (e, took_none c st st' e h)
  | inr (o, e) ↦ elim (Bool-cases (leb o 255)) [
    | inr big ↦ absurd (unfold reserve_one in ground (arith, h, e, big))
    | inl small ↦ elim (Bool-cases (is_taken o st.1)) [
      | inl used ↦ absurd (unfold reserve_one in ground (arith, h, e, small, used))
      | inr free ↦ inr (o, e, leb→le o 255 small, free, took_some c st st' o e small free h)
    ]
  ]
]

Took-get :
    (c : MetaCommand) (st st' : Reserved) (name : Text)
    → Took c st st'
    → Dict.get st'.0 name ≡ (if list_beq c.name name then some c.extracted else Dict.get st.0 name)
Took-get c st st' name (inl (e, same)) = rw (same, e) (get-put st.0 c.name name none)
Took-get c st st' name (inr (o, e, k, free, same)) =
    rw (same, e) (get-put st.0 c.name name (some o))

named-apart : (a b : Text) → a ≢ b → list_beq a b ≡ false
named-apart a b h = elim (Bool-cases (list_beq a b)) [
  | inl same ↦ absurd (h ((list_beq_iff a b).0 same))
  | inr other ↦ other
]

named-same : (a : Text) → list_beq a a ≡ true
named-same a = (list_beq_iff a a).1 refl

reserve-cons :
    (c : MetaCommand) (cs : List MetaCommand) (st st' : Reserved)
    → reserve (c ∷ cs) st ≡ ok st'
    → (st1 : Reserved) × Took c st st1 × (reserve cs st1 ≡ ok st')
reserve-cons c cs st st' h =
    let (st1, first, rest) =
      >>=-eq-ok (reserve_one c st) (λ s. reserve cs s) {y = st'} (unfold reserve in h) in
    (st1, reserve_one-Took c st st1 first, rest)

reserve-nil : (st st' : Reserved) → reserve [] st ≡ ok st' → st ≡ st'
unfolding reserve
reserve-nil st st' h = cc

-- Commands of other names leave a name's entry.
reserve-get :
    (cs : List MetaCommand) (st st' : Reserved) (name : Text)
    → All (λ (c : MetaCommand). c.name ≢ name) cs
    → reserve cs st ≡ ok st'
    → Dict.get st'.0 name ≡ Dict.get st.0 name
reserve-get [] st st' name h e = rw (reserve-nil st st' e) refl
reserve-get (c ∷ cs) st st' name h e =
    let (st1, took, rest) = reserve-cons c cs st st' e in
    reserve-get cs st1 st' name h.1 rest
    ∙ Took-get c st st1 name took
    ∙ rw (named-apart c.name name h.0) refl

-- What a run of the reservation gives: the taken opcodes grow and stay bytes, the real opcodes
-- are among them and all different.
record Reservation (cs : List MetaCommand) (st st' : Reserved) : Type 0 where
  low : Low st'.1
  grows : (m : ℕ) → is_taken m st.1 ≡ true → is_taken m st'.1 ≡ true
  reals : Reals cs st'.0 st'.1
  lacks : (m : ℕ) → is_taken m st.1 ≡ true → Lacks cs st'.0 m

none_real :
    (real : Dict Text (Option ℕ)) (name : Text) (m : ℕ)
    → Dict.get real name ≡ some none
    → real_of (Dict.get real name) ≢ some m
none_real real name m e h = absurd (ground (arith, e, h))

some_real :
    (real : Dict Text (Option ℕ)) (name : Text) (o m : ℕ)
    → Dict.get real name ≡ some (some o)
    → real_of (Dict.get real name) ≡ some m
    → o ≡ m
some_real real name o m e h = ground (arith, e, h)

differ-taken :
    (o m : ℕ) (taken : List ℕ) → is_taken o taken ≡ false → is_taken m taken ≡ true → o ≢ m
differ-taken o m taken free t same =
    let f : is_taken m taken ≡ false = rw same at free in ground (arith, t, f)

reserved_head :
    (c : MetaCommand) (cs : List MetaCommand) (st st1 st' : Reserved)
    → Low st.1
    → Took c st st1
    → Dict.get st'.0 c.name ≡ some c.extracted
    → (Low st1.1 → Reservation cs st1 st')
    → Reservation (c ∷ cs) st st'
reserved_head c cs st st1 st' low (inl (e, same)) entry go =
    let r = go (rw same low) in
    let entry' : Dict.get st'.0 c.name ≡ some none = entry ∙ rw e refl in
    record {
      low = r.low;
      grows = λ m t. r.grows m (rw same t);
      reals = ((λ n h. absurd (none_real st'.0 c.name n entry' h)), r.reals);
      lacks = λ m t. (none_real st'.0 c.name m entry', r.lacks m (rw same t));
    }
reserved_head c cs st st1 st' low (inr (o, e, k, free, same)) entry go =
    let r = go (rw same (Low-cons o st.1 k low)) in
    let entry' : Dict.get st'.0 c.name ≡ some (some o) = entry ∙ rw e refl in
    let here : is_taken o st1.1 ≡ true = rw same (taken-head o st.1) in
    record {
      low = r.low;
      grows = λ m t. r.grows m (rw same (taken-cons m o st.1 t));
      reals = (
        (λ n h.
            subst (λ (x : ℕ). (x ≤ 255) × (is_taken x st'.1 ≡ true) × Lacks cs st'.0 x)
              (some_real st'.0 c.name o n entry' h) (k, r.grows o here, r.lacks o here)),
        r.reals,
      );
      lacks = λ m t. (
        (λ h. differ-taken o m st.1 free t (some_real st'.0 c.name o m entry' h)),
        r.lacks m (rw same (taken-cons m o st.1 t)),
      );
    }

reserve-Reservation :
    (cs : List MetaCommand) (st st' : Reserved)
    → DistinctNames cs
    → Low st.1
    → reserve cs st ≡ ok st'
    → Reservation cs st st'
reserve-Reservation [] st st' d low e =
    rw (sym (reserve-nil st st' e))
      (record { low = low; grows = λ m t. t; reals = tt; lacks = λ m t. tt })
reserve-Reservation (c ∷ cs) st st' d low e =
    let (st1, took, rest) = reserve-cons c cs st st' e in
    reserved_head c cs st st1 st' low took
      (reserve-get cs st1 st' c.name d.0 rest
        ∙ Took-get c st st1 c.name took
        ∙ rw (named-same c.name) refl)
      (λ low1. reserve-Reservation cs st1 st' d.1 low1 rest)

reserve-Entered :
    (cs : List MetaCommand) (st st' : Reserved)
    → DistinctNames cs
    → reserve cs st ≡ ok st'
    → Entered st'.0 cs
reserve-Entered [] st st' d e = tt
reserve-Entered (c ∷ cs) st st' d e =
    let (st1, took, rest) = reserve-cons c cs st st' e in
    (
      reserve-get cs st1 st' c.name d.0 rest
          ∙ Took-get c st st1 c.name took
          ∙ rw (named-same c.name) refl,
      reserve-Entered cs st1 st' d.1 rest,
    )

pub build_commands-AllDistinct :
    (concrete : List MetaCommand) (commands : List CommandDef)
    → DistinctNames concrete
    → build_commands concrete ≡ ok commands
    → Built concrete commands
      × All (λ (d : CommandDef). d.opcode ≤ 255) commands
      × AllDistinct commands
build_commands-AllDistinct concrete commands d e =
    let (st, first, rest) =
      >>=-eq-ok (reserve concrete ([], [])) (λ (real, taken). assign concrete real taken 0xc0)
        {y = commands} (unfold build_commands in e) in
    let r = reserve-Reservation concrete ([], []) st d nothing_low first in
    let a = assign-Assigned concrete st.0 st.1 0xc0 commands r.reals r.low rest in
    (
      assign-Built concrete st.0 st.1 0xc0 commands (reserve-Entered concrete ([], []) st d first)
          rest,
      a.low,
      a.distinct,
    )
  where
    nothing_low : Low []
    nothing_low m t = absurd (unfold is_taken in ground (arith, t))
