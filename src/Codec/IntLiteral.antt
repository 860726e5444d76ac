-- ===== src/Codec/IntLiteral.antt =====
-- Python's `int(s, 0)`, for a text of ASCII characters: white space, a sign, a prefix, digits with
-- single underscores between them, and no leading zeros in a decimal number but for zero.
use xtce_sim.Prelude.{
  ℕ, ◌+◌, ◌-◌, ◌*◌, [], ◌∷◌, Option, none, some, Bool, true, false, ◌&&◌, ◌||◌, leb, ltb, ◌==◌,
  if◌then◌else◌, ◌≡◌, refl,
}
use xtce_sim.Prelude.Int.{ℤ, pos, negate}
use xtce_sim.Prelude.Texts.{strip, lower}
use xtce_sim.Utf8.{Text}

-- The value of a digit; what is none is out of every base.
digit : ℕ → ℕ
digit c =
    if leb b'0' c && leb c b'9'
    then c - b'0'
    else if leb b'a' c && leb c b'f'
    then c - b'a' + 10
    else 16

-- The digits of a number in a base; the flag says that the last character was a digit.
digits_from : ℕ → Bool → ℕ → Text → Option ℕ
unfolding digit
digits_from base after acc [] = if after then some acc else none
digits_from base after acc (c ∷ s) =
    let skipped = digits_from base false acc s in
    let taken = digits_from base true (acc * base + digit c) s in
    if c == b'_'
    then (if after then skipped else none)
    else if ltb (digit c) base
    then taken
    else none

all_zeros : Text → Bool
all_zeros [] = true
all_zeros (c ∷ s) = (c == b'0' || c == b'_') && all_zeros s

decimal : Text → Option ℕ
unfolding digits_from all_zeros
decimal [] = none
decimal (c ∷ s) =
    if c == b'0'
    then if all_zeros s then digits_from 10 false 0 (c ∷ s) else none
    else digits_from 10 false 0 (c ∷ s)

-- Behind a prefix one underscore may stand.
prefixed : ℕ → Text → Option ℕ
unfolding digits_from
prefixed base [] = none
prefixed base (c ∷ s) =
    if c == b'_' then digits_from base false 0 s else digits_from base false 0 (c ∷ s)

unsigned : Text → Option ℕ
unfolding decimal prefixed
unsigned (z ∷ p ∷ s) =
    if z == b'0' && p == b'x'
    then prefixed 16 s
    else if z == b'0' && p == b'o'
    then prefixed 8 s
    else if z == b'0' && p == b'b'
    then prefixed 2 s
    else decimal (z ∷ p ∷ s)
unsigned s = decimal s

abbrev signed_as : Bool → Option ℕ → Option ℤ
signed_as minus none = none
signed_as minus (some n) = some (if minus then negate (pos n) else pos n)

signed : Text → Option ℤ
unfolding unsigned
signed [] = none
signed (c ∷ s) =
    if c == b'-'
    then signed_as true (unsigned s)
    else if c == b'+'
    then signed_as false (unsigned s)
    else signed_as false (unsigned (c ∷ s))

unfoldable pub int_literal : Text → Option ℤ
unfolding signed strip lower
int_literal s = signed (lower (strip s))

int_literal_test :
    int_literal (b' ' ∷ b'-' ∷ b'0' ∷ b'X' ∷ b'1' ∷ b'_' ∷ b'f' ∷ []) ≡ some (negate (pos 31))
unfolding int_literal
int_literal_test = refl
