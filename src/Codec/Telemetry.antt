-- ===== src/Codec/Telemetry.antt =====
-- Telemetry payloads of xtce_sim/codec.py. Warnings are left out.
pub mod Saturation
pub mod Fit
pub mod RoundTrip
use xtce_sim.Prelude.{
  ℕ, ◌+◌, ◌-◌, ◌/◌, ◌^◌, List, [], ◌∷◌, length, take, map, Option, none, some, Bool, true, false,
  Result, ok, err, ◌>>=◌, leb, ltb, ◌==◌, if◌then◌else◌,
}
use xtce_sim.Prelude.Int.{ℤ, pos, negsuc, leb_ℤ}
use xtce_sim.Prelude.Equality.{list_eq}
use xtce_sim.Prelude.Dict
use xtce_sim.Prelude.Dict.{Dict}
use xtce_sim.Struct.{Bytes}
use xtce_sim.Utf8.{Text}
use xtce_sim.Schema.{
  PythonType, uint8, uint16, uint32, uint64, int8, int16, int32, int64, string, bytes, FieldInfo,
  PacketDef, Item,
}
use xtce_sim.Codec.{
  Value, int, flag, text, raw, is_string_type, default_value, pack_items, unpack_items, item_for,
}

abbrev pub is_unsigned : PythonType → Bool
is_unsigned uint8 = true
is_unsigned uint16 = true
is_unsigned uint32 = true
is_unsigned uint64 = true
is_unsigned _ = false

-- `field.size_bits or 8`
abbrev pub bits_of : ℕ → ℕ
bits_of size_bits = if size_bits == 0 then 8 else size_bits

-- `lo` and `hi`; -(2 ** (n - 1)) is `negsuc (2 ** (n - 1) - 1)`.
abbrev pub lowest : PythonType → ℕ → ℤ
lowest t size_bits = if is_unsigned t then pos 0 else negsuc (2 ^ (bits_of size_bits - 1) - 1)

abbrev pub highest : PythonType → ℕ → ℤ
highest t size_bits =
    pos ((if is_unsigned t then 2 ^ bits_of size_bits else 2 ^ (bits_of size_bits - 1)) - 1)

-- `min(max(value, lo), hi)`, where the value is out of range.
abbrev pub saturate : ℤ → ℤ → ℤ → ℤ
saturate lo hi z = if leb_ℤ z lo then lo else if leb_ℤ hi z then hi else z

-- `_fit_telemetry_value`
unfoldable pub fit_telemetry_value : FieldInfo → Value → Value
fit_telemetry_value f (raw b) =
    if is_string_type f.python_type
    then if leb (length b) (f.size_bits / 8) then raw b else raw (take (f.size_bits / 8) b)
    else raw b
fit_telemetry_value f (int z) =
    if is_string_type f.python_type
    then int z
    else int (saturate (lowest f.python_type f.size_bits) (highest f.python_type f.size_bits) z)
fit_telemetry_value f (flag b) = flag b
fit_telemetry_value f (text s) = text s

abbrev pub or_default : PythonType → Option Value → Value
or_default t none = default_value t
or_default t (some v) = v

-- `default_field_values`
unfoldable pub default_field_values : List FieldInfo → Dict Text Value
default_field_values [] = []
default_field_values (f ∷ fs) = (f.name, default_value f.python_type) ∷ default_field_values fs

-- The list `ordered` of `pack_telemetry`.
unfoldable pub ordered : List FieldInfo → Dict Text Value → List Value
unfolding fit_telemetry_value
ordered [] values = []
ordered (f ∷ fs) values =
    fit_telemetry_value f (or_default f.python_type (Dict.get values f.name)) ∷ ordered fs values

unfoldable pub pack_telemetry : PacketDef → Dict Text Value → Result Bytes
unfolding ordered
pack_telemetry packet values = pack_items packet.struct_format (ordered packet.fields values)

-- `dict(zip(fields, values))`
unfoldable pub named : List FieldInfo → List Value → Dict Text Value
named [] vs = []
named (f ∷ fs) [] = []
named (f ∷ fs) (v ∷ vs) = (f.name, v) ∷ named fs vs

unfoldable pub unpack_telemetry : PacketDef → Bytes → Result (Dict Text Value)
unfolding named
unpack_telemetry packet payload =
    unpack_items packet.struct_format payload >>= λ values. ok (named packet.fields values)

-- `fields_to_struct_format` of xtce_sim/generate.py
unfoldable pub fields_to_struct_format : List FieldInfo → List Item
fields_to_struct_format [] = []
fields_to_struct_format (f ∷ fs) = item_for f.python_type f.size_bits ∷ fields_to_struct_format fs
