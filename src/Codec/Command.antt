-- ===== src/Codec/Command.antt =====
-- Command payloads of xtce_sim/codec.py: the ground's `encode_command` and the vehicle's
-- `decode_command`, and the checks that both make. A problem is reported by the name of its argument.
pub mod Accepted
use xtce_sim.Prelude.{
  ℕ, ◌/◌, List, [], ◌∷◌, ◌++◌, length, take, map, Option, none, some, Bool, true, false, ◌&&◌, ◌||◌,
  not, Result, ok, err, value_error, ◌>>=◌, leb, ltb, ◌==◌, if◌then◌else◌, is_some,
}
use xtce_sim.Prelude.Int.{ℤ, pos, negsuc, leb_ℤ, eqb_ℤ, int_eq}
use xtce_sim.Prelude.Texts.{before}
use xtce_sim.Prelude.Equality.{list_eq, list_beq}
use xtce_sim.Prelude.Dict
use xtce_sim.Prelude.Dict.{Dict}
use xtce_sim.Struct.{Bytes}
use xtce_sim.Utf8.{Text, encode, decode, replace}
use xtce_sim.Schema.{PythonType, string, bytes, ParamInfo, CommandDef, Item}
use xtce_sim.Definition.{label_for}
use xtce_sim.Codec.{
  Value, int, flag, text, raw, is_string_type, default_value, pack_items, unpack_from, size_of,
  item_for, pad,
}
use xtce_sim.Codec.IntLiteral.{int_literal}

-- `command_struct_format`
unfoldable pub command_struct_format : List ParamInfo → List Item
command_struct_format [] = []
command_struct_format (p ∷ ps) = item_for p.python_type p.size_bits ∷ command_struct_format ps

-- `if param.enumerations`
abbrev pub is_enumerated : ParamInfo → Bool
is_enumerated p = elim p.enumerations [ [] ↦ false | _ ↦ true ]

abbrev parsed : Option ℤ → Result Value
parsed none = err value_error
parsed (some z) = ok (int z)

-- `_coerce_enum_arg`
coerce_enum_arg : ParamInfo → Value → Result Value
coerce_enum_arg p (text s) = elim (Dict.get p.enumerations s) [
  | some z ↦ ok (int z)
  | none ↦ parsed (int_literal s)
]
coerce_enum_arg p v = ok v

-- The branch of `_coerce_arg` for strings and bytes.
fit_string : ParamInfo → Bytes → Result Value
fit_string p b = if ltb (p.size_bits / 8) (length b) then err value_error else ok (raw b)

coerce_string : ParamInfo → Value → Result Value
unfolding fit_string
coerce_string p (text s) = fit_string p (encode s)
coerce_string p (raw b) = fit_string p b
coerce_string p v = err value_error

coerce_number : Value → Result Value
coerce_number (text s) = parsed (int_literal s)
coerce_number v = ok v

-- `int(value)` of a bool
abbrev pub as_int : Value → Value
as_int (flag true) = int (pos 1)
as_int (flag false) = int (pos 0)
as_int v = v

-- `_coerce_arg`
unfoldable pub coerce_arg : ParamInfo → Value → Result Value
unfolding coerce_enum_arg coerce_string coerce_number
coerce_arg p v =
    if is_enumerated p
    then coerce_enum_arg p (as_int v)
    else if is_string_type p.python_type
    then coerce_string p (as_int v)
    else coerce_number (as_int v)

-- `value in param.enumerations.values()`
is_declared : Dict Text ℤ → ℤ → Bool
is_declared [] z = false
is_declared ((k, v) ∷ d) z = eqb_ℤ v z || is_declared d z

-- `_enum_violation`
enum_violation : Dict Text ℤ → Value → Bool
unfolding is_declared
enum_violation d (text s) = not (is_some (Dict.get d s))
enum_violation d (int z) = not (is_declared d z)
enum_violation d (flag true) = not (is_declared d (pos 1))
enum_violation d (flag false) = not (is_declared d (pos 0))
enum_violation d (raw b) = true

abbrev under : Option ℤ → ℤ → Bool
under none z = false
under (some lo) z = not (leb_ℤ lo z)

abbrev over : Option ℤ → ℤ → Bool
over none z = false
over (some hi) z = not (leb_ℤ z hi)

-- `_numeric_violation`
unfoldable pub numeric_violation : ParamInfo → ℤ → Bool
numeric_violation p z = under p.valid_min z || over p.valid_max z

-- `_arg_violation`
unfoldable pub arg_violation : ParamInfo → Value → Bool
unfolding enum_violation numeric_violation
arg_violation p v =
    if is_enumerated p
    then enum_violation p.enumerations v
    else elim (as_int v) [ int z ↦ numeric_violation p z | _ ↦ false ]

unfoldable pub range_violations : List ParamInfo → Dict Text Value → List Text
range_violations [] args = []
range_violations (p ∷ ps) args =
    let rest = range_violations ps args in
    elim (Dict.get args p.name) [
      | none ↦ rest
      | some v ↦ if arg_violation p v then p.name ∷ rest else rest
    ]

is_known : List ParamInfo → Text → Bool
is_known [] name = false
is_known (p ∷ ps) name = list_beq p.name name || is_known ps name

-- Whether `set(args) - known` is empty.
all_known : List ParamInfo → Dict Text Value → Bool
unfolding is_known
all_known ps [] = true
all_known ps ((name, v) ∷ args) = is_known ps name && all_known ps args

coerced : ParamInfo → Option Value → Result Value
coerced p none = ok (default_value p.python_type)
coerced p (some v) = coerce_arg p v

-- The list `values` of `encode_command`.
unfoldable pub wire_values : List ParamInfo → Dict Text Value → Result (List Value)
unfolding coerced
wire_values [] args = ok []
wire_values (p ∷ ps) args =
    coerced p (Dict.get args p.name) >>= λ v. wire_values ps args >>= λ vs. ok (v ∷ vs)

-- `{p.name: v for p, v in zip(params, values)}`
unfoldable pub by_name : List ParamInfo → List Value → Dict Text Value → Dict Text Value
by_name [] vs d = d
by_name (p ∷ ps) [] d = d
by_name (p ∷ ps) (v ∷ vs) d = by_name ps vs (Dict.put d p.name v)

-- The end of `encode_command`.
packed : Bool → List ParamInfo → List Value → Result Bytes
packed validate ps vs =
    if validate && not (length (range_violations ps (by_name ps vs [])) == 0)
    then err value_error
    else pack_items (command_struct_format ps) vs

unfoldable pub encode_command : List ParamInfo → Dict Text Value → Bool → Result Bytes
unfolding all_known packed
encode_command ps args validate =
    if all_known ps args
    then (wire_values ps args >>= λ vs. packed validate ps vs)
    else err value_error

abbrev pub text_or_empty : Option Text → Text
text_or_empty none = []
text_or_empty (some s) = s

-- `bytes(value).split(b"\x00", 1)[0].decode("utf-8", "replace")`; that handler never raises.
abbrev pub stripped : Bytes → Text
stripped b = text_or_empty (decode replace (before 0 b))

-- `string` is tested by `python_type == "string"`.
abbrev pub is_text_type : PythonType → Bool
is_text_type string = true
is_text_type _ = false

label_or_value : Dict Text ℤ → Value → Value
label_or_value d (int z) = elim (label_for d z) [ none ↦ int z | some l ↦ text l ]
label_or_value d v = v

text_value : Value → Value
text_value (raw b) = text (stripped b)
text_value v = v

-- One turn of the loop of `decode_command`.
unfoldable pub decoded : ParamInfo → Value → Value
unfolding label_or_value text_value
decoded p v =
    if is_enumerated p
    then label_or_value p.enumerations v
    else if is_text_type p.python_type
    then text_value v
    else v

unfoldable pub decoded_all : List ParamInfo → List Value → List Value
unfolding decoded
decoded_all [] vs = []
decoded_all (p ∷ ps) [] = []
decoded_all (p ∷ ps) (v ∷ vs) = decoded p v ∷ decoded_all ps vs

-- The payload is cut or padded to the size of the arguments.
unfoldable pub decode_command : List ParamInfo → Bytes → Dict Text Value
decode_command ps payload =
    let format = command_struct_format ps in
    by_name ps (decoded_all ps (unpack_from format (pad (size_of format) payload))) []
