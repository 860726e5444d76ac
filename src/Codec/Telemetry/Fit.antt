-- ===== src/Codec/Telemetry/Fit.antt =====
-- Telemetry always packs: the liberal downlink of xtce_sim/codec.py.
use xtce_sim.Prelude.{
  ℕ, ◌-◌, ◌^◌, ◌≤◌, ◌<◌, ◌≡◌, refl, arith, List, [], ◌∷◌, ◌++◌, length, Bool, true, false, ok, leb,
  not, ◌/◌, take, All, Bool-cases, inl, inr,
}
use xtce_sim.Prelude.Int.{ℤ, pos, negsuc}
use xtce_sim.Prelude.Equality.{list_eq}
use xtce_sim.Prelude.Dict
use xtce_sim.Prelude.Dict.{Dict}
use xtce_sim.Struct.{Bytes}
use xtce_sim.Utf8.{Text}
use xtce_sim.Schema.{
  PythonType, uint8, uint16, uint32, uint64, int8, int16, int32, int64, string, bytes, FieldInfo,
  PacketDef, Width, w1, w2, w4, w8, Item, word,
}
use xtce_sim.Codec.{
  Value, int, flag, text, raw, bits, pad, pack_item, pack_items, size_of, item_for, is_string_type,
}
use xtce_sim.Codec.Layout.{unpack-pack_items}
use xtce_sim.Codec.Telemetry.{
  bits_of, is_unsigned, lowest, highest, saturate, fit_telemetry_value, or_default, ordered,
  pack_telemetry, fields_to_struct_format,
}
use xtce_sim.Codec.Telemetry.Saturation.{
  positive, Packs, below-Packs, pos-Packs, unsigned-Packs, signed-Packs,
}

-- A declared size that the type of the field has room for.
abbrev pub IsWide : PythonType → ℕ → Type 0
IsWide uint8 n = bits_of n ≤ 8
IsWide uint16 n = bits_of n ≤ 16
IsWide uint32 n = bits_of n ≤ 32
IsWide uint64 n = bits_of n ≤ 64
IsWide int8 n = bits_of n ≤ 8
IsWide int16 n = bits_of n ≤ 16
IsWide int32 n = bits_of n ≤ 32
IsWide int64 n = bits_of n ≤ 64
IsWide string n = Unit {0}
IsWide bytes n = Unit {0}

-- A number for a number, bytes for a string.
abbrev pub suits : PythonType → Value → Bool
suits t (int z) = not (is_string_type t)
suits t (flag b) = not (is_string_type t)
suits t (text s) = false
suits t (raw b) = is_string_type t

abbrev IsWord : PythonType → ℕ → Type 0
IsWord t n =
    (signed : Bool) × (w : Width) × (item_for t n ≡ word signed w)
    × (is_unsigned t ≡ not signed)
    × (bits_of n ≤ bits w)

numeric-IsWord : (t : PythonType) (n : ℕ) → is_string_type t ≡ false → IsWide t n → IsWord t n
unfolding item_for
numeric-IsWord uint8 n e h = (false, w1, refl, refl, h)
numeric-IsWord uint16 n e h = (false, w2, refl, refl, h)
numeric-IsWord uint32 n e h = (false, w4, refl, refl, h)
numeric-IsWord uint64 n e h = (false, w8, refl, refl, h)
numeric-IsWord int8 n e h = (true, w1, refl, refl, h)
numeric-IsWord int16 n e h = (true, w2, refl, refl, h)
numeric-IsWord int32 n e h = (true, w4, refl, refl, h)
numeric-IsWord int64 n e h = (true, w8, refl, refl, h)
numeric-IsWord string n e h = absurd (ground (arith, e))
numeric-IsWord bytes n e h = absurd (ground (arith, e))

flag-Packs : (signed : Bool) (w : Width) (b : Bool) → Packs (word signed w) (flag b)
unfolding pack_item
flag-Packs false w true = below-Packs w 1 (one w)
  where
    one : (w : Width) → 1 < 2 ^ bits w
    one w1 = omega arith
    one w2 = omega arith
    one w4 = omega arith
    one w8 = omega arith
flag-Packs false w false = below-Packs w 0 (positive (bits w))
flag-Packs true w true = pos-Packs w 1 (one w)
  where
    one : (w : Width) → 1 < 2 ^ (bits w - 1)
    one w1 = omega arith
    one w2 = omega arith
    one w4 = omega arith
    one w8 = omega arith
flag-Packs true w false = pos-Packs w 0 (positive (bits w - 1))

moved :
    (i : Item) (z : ℤ) {lo lo' hi hi' : ℤ}
    → lo ≡ lo'
    → hi ≡ hi'
    → Packs i (int (saturate lo' hi' z))
    → Packs i (int (saturate lo hi z))
moved i z e f p = rw (e, f) p

saturated-Packs :
    (t : PythonType) (n : ℕ) (z : ℤ) (signed : Bool) (w : Width)
    → is_unsigned t ≡ not signed
    → bits_of n ≤ bits w
    → Packs (word signed w) (int (saturate (lowest t n) (highest t n) z))
saturated-Packs t n z false w e h =
    let lo : lowest t n ≡ pos 0 = rw e refl in
    let hi : highest t n ≡ pos (2 ^ bits_of n - 1) = rw e refl in
    moved (word false w) z lo hi (unsigned-Packs w (bits_of n) z h)
saturated-Packs t n z true w e h =
    let lo : lowest t n ≡ negsuc (2 ^ (bits_of n - 1) - 1) = rw e refl in
    let hi : highest t n ≡ pos (2 ^ (bits_of n - 1) - 1) = rw e refl in
    moved (word true w) z lo hi (signed-Packs w (bits_of n) z h)

blob-Packs :
    (t : PythonType) (n : ℕ) (b : Bytes) → is_string_type t ≡ true → Packs (item_for t n) (raw b)
unfolding item_for pack_item
blob-Packs string n b e = (pad (n / 8) b, refl)
blob-Packs bytes n b e = (pad (n / 8) b, refl)
blob-Packs uint8 n b e = absurd (ground (arith, e))
blob-Packs uint16 n b e = absurd (ground (arith, e))
blob-Packs uint32 n b e = absurd (ground (arith, e))
blob-Packs uint64 n b e = absurd (ground (arith, e))
blob-Packs int8 n b e = absurd (ground (arith, e))
blob-Packs int16 n b e = absurd (ground (arith, e))
blob-Packs int32 n b e = absurd (ground (arith, e))
blob-Packs int64 n b e = absurd (ground (arith, e))

negated : (b : Bool) → not b ≡ true → b ≡ false
negated false h = refl
negated true h = absurd (ground (arith, h))

field-Packs :
    (f : FieldInfo) (v : Value)
    → IsWide f.python_type f.size_bits
    → suits f.python_type v ≡ true
    → Packs (item_for f.python_type f.size_bits) (fit_telemetry_value f v)
unfolding fit_telemetry_value
field-Packs f (text s) h e = absurd (ground (arith, e))
field-Packs f (flag b) h e =
    let (signed, w, same, kind, room) =
      numeric-IsWord f.python_type f.size_bits (negated (is_string_type f.python_type) e) h in
    rw same (flag-Packs signed w b)
field-Packs f (int z) h e =
    let number = negated (is_string_type f.python_type) e in
    let (signed, w, same, kind, room) = numeric-IsWord f.python_type f.size_bits number h in
    rw (same, number) (saturated-Packs f.python_type f.size_bits z signed w kind room)
field-Packs f (raw b) h e = elim (Bool-cases (leb (length b) (f.size_bits / 8))) [
  | inl short ↦ rw (e, short) (blob-Packs f.python_type f.size_bits b e)
  | inr long ↦ rw (e, long) (blob-Packs f.python_type f.size_bits (take (f.size_bits / 8) b) e)
]

-- The fields are wide enough, and each value suits its field.
abbrev pub Suitable : List FieldInfo → Dict Text Value → Type 0
Suitable fields values =
    All
      (λ (f : FieldInfo).
        IsWide f.python_type f.size_bits
        × (suits f.python_type (or_default f.python_type (Dict.get values f.name)) ≡ true))
      fields

ordered-packed :
    (fields : List FieldInfo) (values : Dict Text Value)
    → Suitable fields values
    → (b : Bytes) × (pack_items (fields_to_struct_format fields) (ordered fields values) ≡ ok b)
unfolding fields_to_struct_format ordered pack_items
ordered-packed [] values h = ([], refl)
ordered-packed (f ∷ fields) values h =
    let v = or_default f.python_type (Dict.get values f.name) in
    let (b, first) = field-Packs f v h.0.0 h.0.1 in
    let (bs, rest) = ordered-packed fields values h.1 in (b ++ bs, rw (first, rest) refl)

-- A packet packs, to the size of its format, when the format is that of its fields, each field is as wide
-- as its type wants, and each value is of a kind that its field takes: a number that is out of range is
-- saturated, and a byte string that is too long is cut.
pub pack_telemetry-Suitable :
    (packet : PacketDef) (values : Dict Text Value)
    → packet.struct_format ≡ fields_to_struct_format packet.fields
    → Suitable packet.fields values
    → (b : Bytes) × (pack_telemetry packet values ≡ ok b)
      × (length b ≡ size_of packet.struct_format)
unfolding pack_telemetry
pack_telemetry-Suitable packet values same h =
    let (b, packed) = ordered-packed packet.fields values h in
    let done : pack_items packet.struct_format (ordered packet.fields values) ≡ ok b =
      rw same packed in
    (b, done, (unpack-pack_items packet.struct_format (ordered packet.fields values) b done).0)
