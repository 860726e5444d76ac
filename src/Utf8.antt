-- ===== src/Utf8.antt =====
-- Python's `str.encode("utf-8")` and `bytes.decode("utf-8", errors)` with the error handlers that
-- the program uses. A text is a list of code points, none of them a lone surrogate.
pub mod RoundTrip
use xtce_sim.Prelude.{
  ℕ, ◌+◌, ◌-◌, ◌*◌, ◌/◌, ◌%◌, ◌<◌, List, [], ◌∷◌, ◌++◌, Option, none, some, Bool, ◌&&◌, ◌||◌, ◌⊎◌,
  leb, ltb, ◌==◌, if◌then◌else◌,
}
use xtce_sim.Struct.{Bytes}

abbrev pub Text : Type 0
Text = List ℕ

-- A Unicode scalar value.
abbrev pub IsScalar : ℕ → Type 0
IsScalar c = (c < 0xd800) ⊎ ((0xdfff < c) × (c < 0x110000))

unfoldable pub encode_char : ℕ → Bytes
encode_char c =
    if ltb c 0x80
    then c ∷ []
    else if ltb c 0x800
    then (0xc0 + c / 64) ∷ (0x80 + c % 64) ∷ []
    else if ltb c 0x10000
    then (0xe0 + c / 4096) ∷ (0x80 + c / 64 % 64) ∷ (0x80 + c % 64) ∷ []
    else (0xf0 + c / 262144) ∷ (0x80 + c / 4096 % 64) ∷ (0x80 + c / 64 % 64) ∷ (0x80 + c % 64) ∷ []

unfoldable pub encode : Text → Bytes
unfolding encode_char
encode [] = []
encode (c ∷ cs) = encode_char c ++ encode cs

-- The `errors` argument: a bad sequence raises, is left out, or becomes U+FFFD.
pub data Handler : Type 0 where
  strict ignore replace : Handler

abbrev on_bad : Handler → Option Text
on_bad strict = none
on_bad ignore = some []
on_bad replace = some (0xfffd ∷ [])

-- Between two characters, or in one: the bytes that are missing, the value so far, and the range
-- of the next byte.
pub data State : Type 0 where
  idle : State
  inside : ℕ → ℕ → ℕ → ℕ → State

abbrev joined : Option Text → Option Text → Option Text
joined none b = none
joined (some a) none = none
joined (some a) (some b) = some (a ++ b)

-- A byte that begins a character.
begin : Handler → ℕ → Option Text × State
begin m b =
    if ltb b 0x80
    then (some (b ∷ []), idle)
    else if ltb b 0xc2
    then (on_bad m, idle)
    else if ltb b 0xe0
    then (some [], inside 1 (b - 0xc0) 0x80 0xbf)
    else if ltb b 0xf0
    then (
      some [],
      inside 2 (b - 0xe0) (if b == 0xe0 then 0xa0 else 0x80) (if b == 0xed then 0x9f else 0xbf),
    )
    else if ltb b 0xf5
    then (
      some [],
      inside 3 (b - 0xf0) (if b == 0xf0 then 0x90 else 0x80) (if b == 0xf4 then 0x8f else 0xbf),
    )
    else (on_bad m, idle)

step : Handler → State → ℕ → Option Text × State
unfolding begin
step m idle b = begin m b
step m (inside need acc lo hi) b =
    if leb lo b && leb b hi
    then if need == 1
      then (some ((acc * 64 + (b - 0x80)) ∷ []), idle)
      else (some [], inside (need - 1) (acc * 64 + (b - 0x80)) 0x80 0xbf)
    else (joined (on_bad m) (begin m b).0, (begin m b).1)

decode_from : Handler → State → Bytes → Option Text
unfolding step
decode_from m idle [] = some []
decode_from m (inside need acc lo hi) [] = on_bad m
decode_from m s (b ∷ bs) = joined (step m s b).0 (decode_from m (step m s b).1 bs)

-- `none` is a UnicodeDecodeError.
unfoldable pub decode : Handler → Bytes → Option Text
unfolding decode_from
decode m bs = decode_from m idle bs
