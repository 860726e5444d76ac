-- ===== src/Codec.antt =====
-- xtce_sim/codec.py, and `fields_to_struct_format` of xtce_sim/generate.py. Codec: the values and the
-- formats of Python's struct; Codec/Telemetry and Codec/Command: the two directions.
pub mod Layout
pub mod IntLiteral
pub mod Telemetry
pub mod Command
use xtce_sim.Prelude.{
  ℕ, ◌+◌, ◌-◌, ◌*◌, ◌/◌, ◌%◌, ◌^◌, List, [], ◌∷◌, ◌++◌, length, take, drop, replicate, Option, none,
  some, Bool, true, false, ◌&&◌, Result, ok, err, struct_error, ◌>>=◌, leb, ltb, if◌then◌else◌,
}
use xtce_sim.Prelude.Int.{ℤ, pos, negsuc}
use xtce_sim.Struct.{Bytes}
use xtce_sim.Utf8.{Text}
use xtce_sim.Schema.{
  PythonType, uint8, uint16, uint32, uint64, int8, int16, int32, int64, string, bytes, Width, w1,
  w2, w4, w8, Item, word, blob,
}

-- A value of a field or an argument. Python's bool is an int of its own class.
pub data Value : Type 0 where
  int : ℤ → Value
  flag : Bool → Value
  text : Text → Value
  raw : Bytes → Value

abbrev pub bits : Width → ℕ
bits w1 = 8
bits w2 = 16
bits w4 = 32
bits w8 = 64

abbrev pub octets : Width → ℕ
octets w1 = 1
octets w2 = 2
octets w4 = 4
octets w8 = 8

-- A word's bytes, most significant first.
abbrev pub be : Width → ℕ → Bytes
be w1 x = x ∷ []
be w2 x = (x / 2 ^ 8) ∷ (x % 2 ^ 8) ∷ []
be w4 x = (x / 2 ^ 24) ∷ (x / 2 ^ 16 % 2 ^ 8) ∷ (x / 2 ^ 8 % 2 ^ 8) ∷ (x % 2 ^ 8) ∷ []
be w8 x =
    (x / 2 ^ 56)
    ∷ (x / 2 ^ 48 % 2 ^ 8)
    ∷ (x / 2 ^ 40 % 2 ^ 8)
    ∷ (x / 2 ^ 32 % 2 ^ 8)
    ∷ (x / 2 ^ 24 % 2 ^ 8)
    ∷ (x / 2 ^ 16 % 2 ^ 8)
    ∷ (x / 2 ^ 8 % 2 ^ 8)
    ∷ (x % 2 ^ 8)
    ∷ []

abbrev pub of_be : ℕ → Bytes → ℕ
of_be acc [] = acc
of_be acc (b ∷ bs) = of_be (acc * 2 ^ 8 + b) bs

-- Two's complement, where the number fits.
unfoldable pub to_word : Bool → Width → ℤ → Option ℕ
to_word false w (pos n) = if ltb n (2 ^ bits w) then some n else none
to_word false w (negsuc n) = none
to_word true w (pos n) = if ltb n (2 ^ (bits w - 1)) then some n else none
to_word true w (negsuc n) = if ltb n (2 ^ (bits w - 1)) then some (2 ^ bits w - 1 - n) else none

unfoldable pub of_word : Bool → Width → ℕ → ℤ
of_word false w x = pos x
of_word true w x = if ltb x (2 ^ (bits w - 1)) then pos x else negsuc (2 ^ bits w - 1 - x)

abbrev pub item_size : Item → ℕ
item_size (word signed w) = octets w
item_size (blob n) = n

unfoldable pub pack_word : Bool → Width → ℤ → Result Bytes
unfolding to_word
pack_word signed w z = elim (to_word signed w z) [ none ↦ err struct_error | some x ↦ ok (be w x) ]

abbrev pub pad : ℕ → Bytes → Bytes
pad n b = take n b ++ replicate (n - length b) 0

-- One value of `struct.pack`.
unfoldable pub pack_item : Item → Value → Result Bytes
unfolding pack_word
pack_item (word signed w) (int z) = pack_word signed w z
pack_item (word signed w) (flag true) = pack_word signed w (pos 1)
pack_item (word signed w) (flag false) = pack_word signed w (pos 0)
pack_item (word signed w) (text s) = err struct_error
pack_item (word signed w) (raw b) = err struct_error
pack_item (blob n) (raw b) = ok (pad n b)
pack_item (blob n) (int z) = err struct_error
pack_item (blob n) (flag b) = err struct_error
pack_item (blob n) (text s) = err struct_error

-- `struct.pack(format, *values)`
unfoldable pub pack_items : List Item → List Value → Result Bytes
pack_items [] [] = ok []
pack_items [] (v ∷ vs) = err struct_error
pack_items (i ∷ is) [] = err struct_error
pack_items (i ∷ is) (v ∷ vs) = pack_item i v >>= λ b. pack_items is vs >>= λ bs. ok (b ++ bs)

-- `struct.calcsize(format)`
abbrev pub size_of : List Item → ℕ
size_of [] = 0
size_of (i ∷ is) = item_size i + size_of is

unfoldable pub unpack_item : Item → Bytes → Value
unfolding of_word
unpack_item (word signed w) b = int (of_word signed w (of_be 0 b))
unpack_item (blob n) b = raw b

unfoldable pub unpack_from : List Item → Bytes → List Value
unfolding unpack_item
unpack_from [] b = []
unpack_from (i ∷ is) b =
    unpack_item i (take (item_size i) b) ∷ unpack_from is (drop (item_size i) b)

-- `struct.unpack(format, b)`
unfoldable pub unpack_items : List Item → Bytes → Result (List Value)
unfolding unpack_from
unpack_items is b =
    if leb (length b) (size_of is) && leb (size_of is) (length b)
    then ok (unpack_from is b)
    else err struct_error

-- The struct format of a field or parameter.
unfoldable pub item_for : PythonType → ℕ → Item
item_for uint8 size_bits = word false w1
item_for uint16 size_bits = word false w2
item_for uint32 size_bits = word false w4
item_for uint64 size_bits = word false w8
item_for int8 size_bits = word true w1
item_for int16 size_bits = word true w2
item_for int32 size_bits = word true w4
item_for int64 size_bits = word true w8
item_for string size_bits = blob (size_bits / 8)
item_for bytes size_bits = blob (size_bits / 8)

abbrev pub is_string_type : PythonType → Bool
is_string_type string = true
is_string_type bytes = true
is_string_type _ = false

-- `_default_value`
abbrev pub default_value : PythonType → Value
default_value python_type = if is_string_type python_type then raw [] else int (pos 0)
