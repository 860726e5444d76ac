-- ===== src/Prelude/Texts.antt =====
-- Texts by their code points: literals, and the operations of `str` that the program uses. Case and
-- white space are those of ASCII.
use Prim.Native.Char.{code}
use Prim.Native.String.{String}
use Prim.Native.Nat.{ℕ, ◌+◌}
use mathlib.Core.Bool.{Bool, true, false, ◌&&◌, ◌||◌}
use mathlib.Core.Option.{Option, none, some}
use mathlib.Core.List.{List, [], ◌∷◌, ◌++◌, map}
use xtce_sim.Prelude.Tests.{leb, ◌==◌, if◌then◌else◌}
use xtce_sim.Prelude.Lists.{drop, length}

abbrev pub codes : String → List ℕ
codes String.[] = []
codes (String.◌∷◌ c s) = code c ∷ codes s

lower_char : ℕ → ℕ
lower_char c = if leb b'A' c && leb c b'Z' then c + 32 else c

-- `s.lower()`
unfoldable pub lower : List ℕ → List ℕ
unfolding lower_char
lower s = map lower_char s

unfoldable pub starts_with : List ℕ → List ℕ → Bool
starts_with [] s = true
starts_with (p ∷ ps) [] = false
starts_with (p ∷ ps) (c ∷ s) = p == c && starts_with ps s

-- `s.removeprefix(prefix)`
unfoldable pub remove_prefix : List ℕ → List ℕ → List ℕ
unfolding starts_with
remove_prefix prefix s = if starts_with prefix s then drop (length prefix) s else s

-- `s.split(c, 1)[0]`, and what is behind the separator if there is one.
unfoldable pub before : ℕ → List ℕ → List ℕ
before c [] = []
before c (x ∷ s) = let rest = before c s in if x == c then [] else x ∷ rest

unfoldable pub behind : ℕ → List ℕ → Option (List ℕ)
behind c [] = none
behind c (x ∷ s) = let rest = behind c s in if x == c then some s else rest

-- `s.split(c)`
abbrev onto : ℕ → List (List ℕ) → List (List ℕ)
onto x [] = (x ∷ []) ∷ []
onto x (p ∷ ps) = (x ∷ p) ∷ ps

unfoldable pub split_at : ℕ → List ℕ → List (List ℕ)
split_at c [] = [] ∷ []
split_at c (x ∷ s) = let rest = split_at c s in if x == c then [] ∷ rest else onto x rest

unfoldable pub is_space : ℕ → Bool
is_space c = c == 32 || (leb 9 c && leb c 13) || (leb 28 c && leb c 31)

drop_spaces : List ℕ → List ℕ
unfolding is_space
drop_spaces [] = []
drop_spaces (c ∷ s) = let rest = drop_spaces s in if is_space c then rest else c ∷ s

is_blank : List ℕ → Bool
unfolding is_space
is_blank [] = true
is_blank (c ∷ s) = is_space c && is_blank s

cut_spaces : List ℕ → List ℕ
unfolding is_blank
cut_spaces [] = []
cut_spaces (c ∷ s) = let rest = cut_spaces s in if is_blank (c ∷ s) then [] else c ∷ rest

-- `s.strip()`
unfoldable pub strip : List ℕ → List ℕ
unfolding drop_spaces cut_spaces
strip s = cut_spaces (drop_spaces s)

-- `s.split()`: the words between white space; the first argument is the word so far.
abbrev closed : List ℕ → List (List ℕ) → List (List ℕ)
closed [] ws = ws
closed (c ∷ w) ws = (c ∷ w) ∷ ws

words_from : List ℕ → List ℕ → List (List ℕ)
unfolding is_space
words_from w [] = closed w []
words_from w (c ∷ s) =
    let ended = closed w (words_from [] s) in
    let longer = words_from (w ++ (c ∷ [])) s in if is_space c then ended else longer

unfoldable pub words : List ℕ → List (List ℕ)
unfolding words_from
words s = words_from [] s
