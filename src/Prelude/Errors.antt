-- ===== src/Prelude/Errors.antt =====
-- Python's exceptions as values. An error keeps the class of the exception and not its text.
use mathlib.Core.Path.{◌≡◌, refl}
use mathlib.Core.Bool.{Bool, true, false}

pub data Error : Type 0 where
  value_error struct_error frame_error file_not_found os_error generator_error sequence_refused
        key_error :
      Error

-- What `except ValueError` and `except OSError` catch; FileNotFoundError is an OSError.
abbrev pub is_value_error : Error → Bool
is_value_error value_error = true
is_value_error _ = false

abbrev pub is_os_error : Error → Bool
is_os_error os_error = true
is_os_error file_not_found = true
is_os_error _ = false

abbrev pub is_file_not_found : Error → Bool
is_file_not_found file_not_found = true
is_file_not_found _ = false

pub data Result {ℓ} (A : Type ℓ) : Type ℓ where
  ok : A → Result A
  err : Error → Result A

infixl 5 ◌>>=◌
abbrev pub ◌>>=◌ {ℓ κ} : {A : Type ℓ} {B : Type κ} → Result A → (A → Result B) → Result B
ok a >>= f = f a
err e >>= f = err e

-- Where a chain of calls returned, its first call did, and so did the rest on what it gave.
pub >>=-eq-ok {ℓ κ} :
    {X : Type ℓ} {Y : Type κ} (first : Result X) (rest : X → Result Y) {y : Y}
    → (first >>= rest) ≡ ok y
    → (x : X) × (first ≡ ok x) × (rest x ≡ ok y)
>>=-eq-ok (err e) rest h = cc
>>=-eq-ok (ok x) rest h = (x, refl, h)
