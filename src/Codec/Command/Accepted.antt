-- ===== src/Codec/Command/Accepted.antt =====
-- What the ground's checks accept, the vehicle's checks accept: xtce_sim/codec.py.
use xtce_sim.Prelude.{
  ℕ, zero, suc, ◌-◌, ◌≡◌, ◌≢◌, refl, ◌∙◌, arith, List, [], ◌∷◌, length, take_all, replicate, All,
  some, true, false, ok, err, value_error, ◌>>=◌, >>=-eq-ok, ◌==◌, if◌then◌else◌, is_some,
  Bool-cases, Option-cases, inl, inr,
}
use mathlib.Core.List.{append-nil}
use xtce_sim.Prelude.Int.{ℤ, pos, eqb_ℤ, int_eq}
use xtce_sim.Prelude.Equality.{list_eq, list_beq, list_beq_iff, beq_self, beq-ne}
use xtce_sim.Prelude.Dict
use xtce_sim.Prelude.Dict.{Dict, get-put}
use xtce_sim.Struct.{Bytes}
use xtce_sim.Utf8.{Text}
use xtce_sim.Schema.{ParamInfo, Item, word, blob}
use xtce_sim.Definition.{label_for}
use xtce_sim.Codec.{Value, int, flag, text, raw, pack_item, pack_items, size_of, item_for, pad}
use xtce_sim.Codec.Layout.{seen, seen_all, unpack-pack_items, pack_items-cons}
use xtce_sim.Codec.Command.{
  command_struct_format, is_enumerated, arg_violation, range_violations, wire_values, by_name,
  encode_command, decoded, decoded_all, decode_command, packed, coerced, all_known, is_text_type,
  text_value, enum_violation, label_or_value,
}

-- The parameters of a command have names of their own.
abbrev pub DistinctParams : List ParamInfo → Type 0
DistinctParams [] = Unit {0}
DistinctParams (p ∷ ps) = All (λ (q : ParamInfo). q.name ≢ p.name) ps × DistinctParams ps

-- No value breaks the range or the enumeration of its parameter.
abbrev AllFine : List ParamInfo → List Value → Type 0
AllFine [] [] = Unit {0}
AllFine [] (v ∷ vs) = ⊥
AllFine (p ∷ ps) [] = ⊥
AllFine (p ∷ ps) (v ∷ vs) = (arg_violation p v ≡ false) × AllFine ps vs

-- The dict has each value under the name of its parameter.
abbrev pub Holds : List ParamInfo → List Value → Dict Text Value → Type 0
Holds [] [] d = Unit {0}
Holds [] (v ∷ vs) d = ⊥
Holds (p ∷ ps) [] d = ⊥
Holds (p ∷ ps) (v ∷ vs) d = (Dict.get d p.name ≡ some v) × Holds ps vs d

get-by_name :
    (ps : List ParamInfo) (vs : List Value) (d : Dict Text Value) (name : Text)
    → All (λ (q : ParamInfo). q.name ≢ name) ps
    → Dict.get (by_name ps vs d) name ≡ Dict.get d name
unfolding by_name
get-by_name [] vs d name h = refl
get-by_name (p ∷ ps) [] d name h = refl
get-by_name (p ∷ ps) (v ∷ vs) d name h =
    get-by_name ps vs (Dict.put d p.name v) name h.1
    ∙ get-put d p.name name v
    ∙ rw (beq-ne p.name name h.0) refl

by_name-Holds :
    (ps : List ParamInfo) (vs : List Value) (d : Dict Text Value)
    → DistinctParams ps
    → length ps ≡ length vs
    → Holds ps vs (by_name ps vs d)
unfolding by_name
by_name-Holds [] [] d h n = tt
by_name-Holds [] (v ∷ vs) d h n = absurd (omega arith)
by_name-Holds (p ∷ ps) [] d h n = absurd (omega arith)
by_name-Holds (p ∷ ps) (v ∷ vs) d h n = (
  get-by_name ps vs (Dict.put d p.name v) p.name h.0
      ∙ get-put d p.name p.name v
      ∙ rw (beq_self p.name) refl,
  by_name-Holds ps vs (Dict.put d p.name v) h.1 (omega arith),
)

Holds-AllFine :
    (ps : List ParamInfo) (vs : List Value) (d : Dict Text Value)
    → Holds ps vs d
    → range_violations ps d ≡ []
    → AllFine ps vs
unfolding range_violations
Holds-AllFine [] [] d h e = tt
Holds-AllFine [] (v ∷ vs) d h e = absurd h
Holds-AllFine (p ∷ ps) [] d h e = absurd h
Holds-AllFine (p ∷ ps) (v ∷ vs) d h e = elim (Bool-cases (arg_violation p v)) [
  | inl bad ↦ absurd (ground (arith, e, h.0, bad))
  | inr fine ↦ (fine, Holds-AllFine ps vs d h.1 (ground (arith, e, h.0, fine)))
]

AllFine-range_violations :
    (ps : List ParamInfo) (vs : List Value) (d : Dict Text Value)
    → Holds ps vs d
    → AllFine ps vs
    → range_violations ps d ≡ []
unfolding range_violations
AllFine-range_violations [] [] d h f = refl
AllFine-range_violations [] (v ∷ vs) d h f = absurd h
AllFine-range_violations (p ∷ ps) [] d h f = absurd h
AllFine-range_violations (p ∷ ps) (v ∷ vs) d h f =
    rw (range_violations, h.0, f.0) (AllFine-range_violations ps vs d h.1 f.1)

-- A label that is found is a label of the enumeration.
label_for-declared :
    (d : Dict Text ℤ) (z : ℤ) (l : Text) → label_for d z ≡ some l → is_some (Dict.get d l) ≡ true
unfolding label_for Dict.get
label_for-declared [] z l h = absurd (ground (arith, h))
label_for-declared ((k, v) ∷ d) z l h = elim (Bool-cases (list_beq k l)) [
  | inl same ↦ rw same refl
  | inr other ↦ elim (Bool-cases (eqb_ℤ v z)) [
    | inl b ↦ absurd (apart k l other (cc (rw b at h)))
    | inr b ↦ rw other (label_for-declared d z l (rw b at h))
  ]
]
  where
    apart : (k l : Text) → list_beq k l ≡ false → k ≡ l → ⊥
    apart k l f e = ground (arith, f, (list_beq_iff k l).1 e)

int-fine :
    (p : ParamInfo) (z : ℤ)
    → arg_violation p (int z) ≡ false
    → arg_violation p (decoded p (int z)) ≡ false
unfolding arg_violation decoded label_or_value text_value enum_violation
int-fine p z h = elim (Bool-cases (is_enumerated p)) [
  | inr plain ↦ elim (Bool-cases (is_text_type p.python_type)) [
    | inl t ↦ rw (plain, t) (rw plain at h)
    | inr t ↦ rw (plain, t) (rw plain at h)
  ]
  | inl listed ↦ elim (Option-cases (label_for p.enumerations z)) [
    | inl none_found ↦ rw (listed, label_or_value, none_found) (rw listed at h)
    | inr (l, found) ↦
        rw
          (
            listed,
            label_or_value,
            found,
            enum_violation,
            label_for-declared p.enumerations z l found,
          )
          refl
  ]
]

raw-fine :
    (p : ParamInfo) (t u : Bytes)
    → arg_violation p (raw t) ≡ false
    → arg_violation p (decoded p (raw u)) ≡ false
unfolding arg_violation decoded text_value enum_violation
raw-fine p t u f = elim (Bool-cases (is_enumerated p)) [
  | inl listed ↦ absurd (ground (arith, rw listed at f))
  | inr plain ↦ elim (Bool-cases (is_text_type p.python_type)) [
    | inl t ↦ rw (plain, t) refl
    | inr t ↦ rw (plain, t) refl
  ]
]

-- A value that was packed and breaks no rule breaks none as the vehicle reads it.
decoded-fine :
    (p : ParamInfo) (i : Item) (v : Value) (b : Bytes)
    → pack_item i v ≡ ok b
    → arg_violation p v ≡ false
    → arg_violation p (decoded p (seen i v)) ≡ false
decoded-fine p (word s w) (int z) b h f = int-fine p z f
decoded-fine p (word s w) (flag true) b h f =
    int-fine p (pos 1) (unfold arg_violation enum_violation in f)
decoded-fine p (word s w) (flag false) b h f =
    int-fine p (pos 0) (unfold arg_violation enum_violation in f)
decoded-fine p (word s w) (text t) b h f = absurd (unfold pack_item in ground (arith, h))
decoded-fine p (word s w) (raw t) b h f = absurd (unfold pack_item in ground (arith, h))
decoded-fine p (blob n) (int z) b h f = absurd (unfold pack_item in ground (arith, h))
decoded-fine p (blob n) (flag t) b h f = absurd (unfold pack_item in ground (arith, h))
decoded-fine p (blob n) (text t) b h f = absurd (unfold pack_item in ground (arith, h))
decoded-fine p (blob n) (raw t) b h f = raw-fine p t (pad n t) f

decoded_all-AllFine :
    (ps : List ParamInfo) (vs : List Value) (b : Bytes)
    → pack_items (command_struct_format ps) vs ≡ ok b
    → AllFine ps vs
    → AllFine ps (decoded_all ps (seen_all (command_struct_format ps) vs))
unfolding decoded_all command_struct_format
decoded_all-AllFine [] [] b h f = tt
decoded_all-AllFine [] (v ∷ vs) b h f = absurd f
decoded_all-AllFine (p ∷ ps) [] b h f = absurd f
decoded_all-AllFine (p ∷ ps) (v ∷ vs) b h f =
    let i = item_for p.python_type p.size_bits in
    let (b1, b2, first, second, whole) = pack_items-cons i (command_struct_format ps) v vs b h in
    (decoded-fine p i v b1 first f.0, decoded_all-AllFine ps vs b2 second f.1)

AllFine-length : (ps : List ParamInfo) (vs : List Value) → AllFine ps vs → length ps ≡ length vs
AllFine-length [] [] f = refl
AllFine-length [] (v ∷ vs) f = absurd f
AllFine-length (p ∷ ps) [] f = absurd f
AllFine-length (p ∷ ps) (v ∷ vs) f = omega (arith, AllFine-length ps vs f.1)

length-wire_values :
    (ps : List ParamInfo) (args : Dict Text Value) (vs : List Value)
    → wire_values ps args ≡ ok vs
    → length ps ≡ length vs
unfolding wire_values
length-wire_values [] args vs h = let same : [] ≡ vs = ground (arith, h) in rw (← same) refl
length-wire_values (p ∷ ps) args vs h =
    let (v, first, more) =
      >>=-eq-ok (coerced p (Dict.get args p.name)) (λ v. wire_values ps args >>= λ vs. ok (v ∷ vs))
        {y = vs} h in
    let (us, second, last) = >>=-eq-ok (wire_values ps args) (λ us. ok (v ∷ us)) {y = vs} more in
    let same : v ∷ us ≡ vs = ground (arith, last) in
    rw (← same) (omega (arith, length-wire_values ps args us second))

empty-of_length : (xs : List Text) → (length xs == 0) ≡ true → xs ≡ []
empty-of_length [] h = refl
empty-of_length (x ∷ xs) h = absurd (ground (arith, h))

none_added : (n x : ℕ) → n ≡ 0 → replicate n x ≡ []
none_added zero x h = refl
none_added (suc n) x h = absurd (omega (arith, h))

pad-whole : (n : ℕ) (b : Bytes) → length b ≡ n → pad n b ≡ b
pad-whole n b h =
    rw (take_all n b (omega (arith, h)), none_added (n - length b) 0 (omega (arith, h)))
      (append-nil b)

packed-ok :
    (ps : List ParamInfo) (vs : List Value) (payload : Bytes)
    → packed true ps vs ≡ ok payload
    → (range_violations ps (by_name ps vs []) ≡ [])
      × (pack_items (command_struct_format ps) vs ≡ ok payload)
unfolding packed
packed-ok ps vs payload h =
    elim (Bool-cases (length (range_violations ps (by_name ps vs [])) == 0)) [
      | inl e ↦ (empty-of_length (range_violations ps (by_name ps vs [])) e, rw e at h)
      | inr e ↦ absurd (ground (arith, rw e at h))
    ]

opened :
    (ps : List ParamInfo) (args : Dict Text Value) (payload : Bytes)
    → encode_command ps args true ≡ ok payload
    → (if all_known ps args
        then (wire_values ps args >>= λ vs. packed true ps vs)
        else err value_error)
      ≡ ok payload
unfolding encode_command
opened ps args payload h = h

-- What `encode_command` returns was packed from values that break no rule.
encode_command-packed :
    (ps : List ParamInfo) (args : Dict Text Value) (payload : Bytes)
    → DistinctParams ps
    → encode_command ps args true ≡ ok payload
    → (vs : List Value) × (wire_values ps args ≡ ok vs)
      × AllFine ps vs
      × (pack_items (command_struct_format ps) vs ≡ ok payload)
encode_command-packed ps args payload apart h = elim (Bool-cases (all_known ps args)) [
  | inr unknown ↦ absurd (ground (arith, opened ps args payload h, unknown))
  | inl known ↦
      let (vs, values, last) =
        >>=-eq-ok (wire_values ps args) (λ vs. packed true ps vs) {y = payload}
          (rw known at (opened ps args payload h)) in
      let (none_broken, done) = packed-ok ps vs payload last in
      let n = length-wire_values ps args vs values in
      (
        vs,
        values,
        Holds-AllFine ps vs (by_name ps vs []) (by_name-Holds ps vs [] apart n) none_broken,
        done,
      )
]

-- What the ground encodes with its checks, for parameters with names of their own, the vehicle decodes to
-- the values that were packed: under the name of each parameter stands its value as the wire carries it,
-- an enumerated one as its label and a string as its text, and the vehicle's checks find no violation.
pub encode_command-accepted :
    (ps : List ParamInfo) (args : Dict Text Value) (payload : Bytes)
    → DistinctParams ps
    → encode_command ps args true ≡ ok payload
    → (vs : List Value) × (wire_values ps args ≡ ok vs)
      × Holds ps
          (decoded_all ps (seen_all (command_struct_format ps) vs))
          (decode_command ps payload)
      × (range_violations ps (decode_command ps payload) ≡ [])
unfolding decode_command
encode_command-accepted ps args payload apart h =
    let (vs, values, fine, done) = encode_command-packed ps args payload apart h in
    let format = command_struct_format ps in
    let (size, read) = unpack-pack_items format vs payload done in
    let fine_read = decoded_all-AllFine ps vs payload done fine in
    let d = decoded_all ps (seen_all format vs) in
    let held = by_name-Holds ps d [] apart (AllFine-length ps d fine_read) in
    let decoded_payload : decode_command ps payload ≡ by_name ps d [] =
      rw (pad-whole (size_of format) payload size, read) refl in
    (
      vs,
      values,
      rw decoded_payload held,
      rw decoded_payload (AllFine-range_violations ps d (by_name ps d []) held fine_read),
    )
