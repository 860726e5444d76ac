-- ===== src/Generate/Opcodes/Assign.antt =====
-- `_assign_synthetic_opcodes` of xtce_sim/generate.py, from what was reserved.
use xtce_sim.Prelude.{
  none, ℕ, zero, suc, ◌+◌, ◌-◌, ◌≤◌, ◌≡◌, ◌≢◌, ◌⊎◌, inl, inr, refl, ◌∙◌, sym, subst, arith, All,
  List, [], ◌∷◌, Option, some, Bool, true, false, Bool-cases, Option-cases, Result, ok, err, ltb,
  ◌==◌,
}
use xtce_sim.Prelude.Equality.{list_eq}
use xtce_sim.Prelude.Dict
use xtce_sim.Prelude.Dict.{Dict, get-put}
use xtce_sim.Utf8.{Text}
use xtce_sim.Generate.Opcodes.{MetaCommand, is_taken, skip, real_of, listed, assign}
use xtce_sim.Schema.{CommandDef}

-- None of the commands has that real opcode.
abbrev pub Lacks : List MetaCommand → Dict Text (Option ℕ) → ℕ → Type 0
Lacks cs real n = All (λ (c : MetaCommand). real_of (Dict.get real c.name) ≢ some n) cs

-- The real opcodes of the commands are bytes, taken, and all different.
abbrev pub Reals : List MetaCommand → Dict Text (Option ℕ) → List ℕ → Type 0
Reals [] real taken = Unit {0}
Reals (c ∷ cs) real taken =
    ((n : ℕ)
      → real_of (Dict.get real c.name) ≡ some n
      → (n ≤ 255) × (is_taken n taken ≡ true) × Lacks cs real n)
    × Reals cs real taken

-- No opcode of the list is `n`.
abbrev pub Avoids : ℕ → List CommandDef → Type 0
Avoids n ds = All (λ (d : CommandDef). d.opcode ≢ n) ds

abbrev pub AllDistinct : List CommandDef → Type 0
AllDistinct [] = Unit {0}
AllDistinct (d ∷ ds) = Avoids d.opcode ds × AllDistinct ds

-- The taken opcodes are bytes.
abbrev pub Low : List ℕ → Type 0
Low taken = (n : ℕ) → is_taken n taken ≡ true → n ≤ 255

pub taken-cons :
    (m n : ℕ) (taken : List ℕ) → is_taken m taken ≡ true → is_taken m (n ∷ taken) ≡ true
unfolding is_taken
taken-cons m n taken h = ground (arith, h)

pub taken-head : (n : ℕ) (taken : List ℕ) → is_taken n (n ∷ taken) ≡ true
unfolding is_taken
taken-head n taken = ground arith

taken-uncons :
    (m n : ℕ) (taken : List ℕ) → is_taken m (n ∷ taken) ≡ true → (m ≡ n) ⊎ (is_taken m taken ≡ true)
unfolding is_taken
taken-uncons m n taken h = elim (Bool-cases (m == n)) [
  | inl e ↦ inl (ground (arith, e))
  | inr e ↦ inr (ground (arith, h, e))
]

-- The skipping loop has fuel enough.
skip-free :
    (fuel next : ℕ) (taken : List ℕ)
    → Low taken
    → 256 ≤ fuel + next
    → is_taken (skip fuel next taken) taken ≡ false
unfolding skip
skip-free zero next taken low h = elim (Bool-cases (is_taken next taken)) [
  | inl e ↦ absurd (omega (arith, low next e, h))
  | inr e ↦ e
]
skip-free (suc fuel) next taken low h = elim (Bool-cases (is_taken next taken)) [
  | inl e ↦ rw e (skip-free fuel (next + 1) taken low (omega (arith, h)))
  | inr e ↦ rw e e
]

Reals-cons :
    (cs : List MetaCommand) (real : Dict Text (Option ℕ)) (taken : List ℕ) (n : ℕ)
    → Reals cs real taken
    → Reals cs real (n ∷ taken)
Reals-cons [] real taken n h = tt
Reals-cons (c ∷ cs) real taken n h = (
  (λ m e. ((h.0 m e).0, taken-cons m n taken (h.0 m e).1, (h.0 m e).2)),
  Reals-cons cs real taken n h.1,
)

pub Low-cons : (n : ℕ) (taken : List ℕ) → n ≤ 255 → Low taken → Low (n ∷ taken)
Low-cons n taken h low m e = elim (taken-uncons m n taken e) [
  | inl same ↦ omega (arith, same, h)
  | inr old ↦ low m old
]

Lacks-free :
    (cs : List MetaCommand) (real : Dict Text (Option ℕ)) (taken : List ℕ) (n : ℕ)
    → Reals cs real taken
    → is_taken n taken ≡ false
    → Lacks cs real n
Lacks-free [] real taken n h free = tt
Lacks-free (c ∷ cs) real taken n h free =
    (λ e. apart (is_taken n taken) (h.0 n e).1 free, Lacks-free cs real taken n h.1 free)
  where
    apart : (b : Bool) → b ≡ true → b ≡ false → ⊥
    apart b t f = ground (arith, t, f)

listed-eq-ok :
    (d : CommandDef) (r : Result (List CommandDef)) (ds : List CommandDef)
    → listed d r ≡ ok ds
    → (rest : List CommandDef) × (r ≡ ok rest) × (d ∷ rest ≡ ds)
listed-eq-ok d (ok rest) ds h = (rest, refl, cc)
listed-eq-ok d (err e) ds h = cc

-- Each command is built from its concrete one: its name, its arguments, and the opcode that it declares,
-- if it declares one.
abbrev pub Built : List MetaCommand → List CommandDef → Type 0
Built [] [] = Unit {0}
Built [] (d ∷ ds) = ⊥
Built (c ∷ cs) [] = ⊥
Built (c ∷ cs) (d ∷ ds) =
    (d.name ≡ c.name)
    × (d.params ≡ c.arguments)
    × ((o : ℕ) → c.extracted ≡ some o → (d.opcode ≡ o) × (d.synthetic ≡ false))
    × (c.extracted ≡ none → d.synthetic ≡ true)
    × Built cs ds

-- The reservation has an entry for each command.
abbrev pub Entered : Dict Text (Option ℕ) → List MetaCommand → Type 0
Entered real cs = All (λ (c : MetaCommand). Dict.get real c.name ≡ some c.extracted) cs

-- What a run of `assign` gives: bytes, all different, and none of the taken ones but as real ones.
pub record Assigned (cs : List MetaCommand) (real : Dict Text (Option ℕ)) (taken : List ℕ)
    (ds : List CommandDef) : Type 0 where
  pub low : All (λ (d : CommandDef). d.opcode ≤ 255) ds
  pub distinct : AllDistinct ds
  pub avoids : (m : ℕ) → is_taken m taken ≡ true → Lacks cs real m → Avoids m ds

real-Assigned :
    (c : MetaCommand) (cs : List MetaCommand) (real : Dict Text (Option ℕ)) (taken : List ℕ) (o : ℕ)
    (rest : List CommandDef)
    → Reals (c ∷ cs) real taken
    → real_of (Dict.get real c.name) ≡ some o
    → Assigned cs real taken rest
    → Assigned
        (c ∷ cs)
        real
        taken
        (record { name = c.name; opcode = o; synthetic = false; params = c.arguments } ∷ rest)
real-Assigned c cs real taken o rest h e a = record {
  low = ((h.0 o e).0, a.low);
  distinct = (a.avoids o (h.0 o e).1 (h.0 o e).2, a.distinct);
  avoids = λ m t lacks. ((λ same. lacks.0 (rw same at e)), a.avoids m t lacks.1);
}

synthetic-Assigned :
    (c : MetaCommand) (cs : List MetaCommand) (real : Dict Text (Option ℕ)) (taken : List ℕ) (n : ℕ)
    (rest : List CommandDef)
    → Reals (c ∷ cs) real taken
    → n ≤ 255
    → is_taken n taken ≡ false
    → Assigned cs real (n ∷ taken) rest
    → Assigned
        (c ∷ cs)
        real
        taken
        (record { name = c.name; opcode = n; synthetic = true; params = c.arguments } ∷ rest)
synthetic-Assigned c cs real taken n rest h k free a = record {
  low = (k, a.low);
  distinct = (a.avoids n (taken-head n taken) (Lacks-free cs real taken n h.1 free), a.distinct);
  avoids = λ m t lacks. ((λ same. differ m t same), a.avoids m (taken-cons m n taken t) lacks.1);
}
  where
    differ : (m : ℕ) → is_taken m taken ≡ true → n ≡ m → ⊥
    differ m t same = let f : is_taken m taken ≡ false = rw same at free in ground (arith, t, f)

nil_eq : (ds : List CommandDef) → ok [] ≡ ok ds → [] ≡ ds
nil_eq ds e = cc

pub assign-Assigned :
    (cs : List MetaCommand) (real : Dict Text (Option ℕ)) (taken : List ℕ) (next : ℕ)
    (ds : List CommandDef)
    → Reals cs real taken
    → Low taken
    → assign cs real taken next ≡ ok ds
    → Assigned cs real taken ds
assign-Assigned [] real taken next ds h low e =
    subst (Assigned [] real taken) (nil_eq ds (unfold assign in e))
      (record { low = tt; distinct = tt; avoids = λ m t lacks. tt })
assign-Assigned (c ∷ cs) real taken next ds h low e =
    elim (Option-cases (real_of (Dict.get real c.name))) [
      | inr (o, found) ↦
          let step : assign (c ∷ cs) real taken next
              ≡ listed
                  (record { name = c.name; opcode = o; synthetic = false; params = c.arguments })
                  (assign cs real taken next) =
            unfold assign in rw (assign, found) refl in
          let (rest, done, same) =
            listed-eq-ok
              (record { name = c.name; opcode = o; synthetic = false; params = c.arguments })
              (assign cs real taken next) ds (sym step ∙ e) in
          subst (Assigned (c ∷ cs) real taken) same (
            real-Assigned c cs real taken o rest h found
              (assign-Assigned cs real taken next rest h.1 low done))
      | inl gone ↦
          let n = skip (256 - next) next taken in
          let free : is_taken n taken ≡ false =
            skip-free (256 - next) next taken low (omega arith) in
          elim (Bool-cases (ltb 255 n)) [
            | inl big ↦ absurd (unfold assign in ground (arith, e, gone, big))
            | inr small ↦
                let step : assign (c ∷ cs) real taken next
                    ≡ listed
                        (record {
                          name = c.name;
                          opcode = n;
                          synthetic = true;
                          params = c.arguments;
                        })
                        (assign cs real (n ∷ taken) (n + 1)) =
                  unfold assign in rw (assign, gone, small) refl in
                let (rest, done, same) =
                  listed-eq-ok
                    (record { name = c.name; opcode = n; synthetic = true; params = c.arguments })
                    (assign cs real (n ∷ taken) (n + 1)) ds (sym step ∙ e) in
                subst (Assigned (c ∷ cs) real taken) same (
                  synthetic-Assigned c cs real taken n rest h (ground (arith, small)) free (
                    assign-Assigned cs real (n ∷ taken) (n + 1) rest
                      (Reals-cons cs real taken n h.1)
                      (Low-cons n taken (ground (arith, small)) low) done))
          ]
    ]

declared :
    (real : Dict Text (Option ℕ)) (c : MetaCommand) (x : Option ℕ)
    → Dict.get real c.name ≡ some c.extracted
    → real_of (Dict.get real c.name) ≡ x
    → c.extracted ≡ x
declared real c x entry e = rw entry at e

pub assign-Built :
    (cs : List MetaCommand) (real : Dict Text (Option ℕ)) (taken : List ℕ) (next : ℕ)
    (ds : List CommandDef)
    → Entered real cs
    → assign cs real taken next ≡ ok ds
    → Built cs ds
assign-Built [] real taken next ds h e = subst (Built []) (nil_eq ds (unfold assign in e)) tt
assign-Built (c ∷ cs) real taken next ds h e =
    elim (Option-cases (real_of (Dict.get real c.name))) [
      | inr (o, found) ↦
          let d : CommandDef = record {
            name = c.name;
            opcode = o;
            synthetic = false;
            params = c.arguments;
          } in
          let step : assign (c ∷ cs) real taken next ≡ listed d (assign cs real taken next) =
            unfold assign in rw (assign, found) refl in
          let (rest, done, same) = listed-eq-ok d (assign cs real taken next) ds (sym step ∙ e) in
          let own = declared real c (some o) h.0 found in
          subst (Built (c ∷ cs)) same (
            refl,
            refl,
            (λ m x. (ground (arith, own, x), refl)),
            (λ x. absurd (ground (arith, own, x))),
            assign-Built cs real taken next rest h.1 done,
          )
      | inl gone ↦
          let n = skip (256 - next) next taken in
          let own = declared real c none h.0 gone in
          elim (Bool-cases (ltb 255 n)) [
            | inl big ↦ absurd (unfold assign in ground (arith, e, gone, big))
            | inr small ↦
                let d : CommandDef = record {
                  name = c.name;
                  opcode = n;
                  synthetic = true;
                  params = c.arguments;
                } in
                let step : assign (c ∷ cs) real taken next
                    ≡ listed d (assign cs real (n ∷ taken) (n + 1)) =
                  unfold assign in rw (assign, gone, small) refl in
                let (rest, done, same) =
                  listed-eq-ok d (assign cs real (n ∷ taken) (n + 1)) ds (sym step ∙ e) in
                subst (Built (c ∷ cs)) same (
                  refl,
                  refl,
                  (λ m x. absurd (ground (arith, own, x))),
                  (λ x. refl),
                  assign-Built cs real (n ∷ taken) (n + 1) rest h.1 done,
                )
          ]
    ]
