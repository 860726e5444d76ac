-- ===== src/Ccsds/Counter.antt =====
-- `SequenceCounter` of xtce_sim/ccsds.py: a dict of counts by APID, each of 14 bits.
use xtce_sim.Prelude.{
  ℕ, suc, ◌+◌, ◌%◌, ◌^◌, ◌<◌, ◌≡◌, refl, List, [], ◌∷◌, arith, ◌==◌, if◌then◌else◌, Option, none,
  some, bit_and,
}
use xtce_sim.Prelude.Bits.{bit_and_mask}
use xtce_sim.Prelude.Equality.{nat_eq}
use xtce_sim.Prelude.Dict
use xtce_sim.Prelude.Dict.{Dict, get-put}

abbrev value_or_zero : Option ℕ → ℕ
value_or_zero none = 0
value_or_zero (some n) = n

-- `SequenceCounter.next`: the count, and the dict after it.
unfoldable pub next : Dict ℕ ℕ → ℕ → ℕ × Dict ℕ ℕ
next counts apid =
    let count = value_or_zero (Dict.get counts apid) in
    (count, Dict.put counts apid (bit_and (count + 1) 0x3fff))

-- The counts after the calls of a history, the first call first.
unfoldable pub after : Dict ℕ ℕ → List ℕ → Dict ℕ ℕ
after counts [] = counts
after counts (apid ∷ history) = after (next counts apid).1 history

-- How often an APID occurs.
unfoldable pub uses : ℕ → List ℕ → ℕ
uses apid [] = 0
uses apid (a ∷ history) = if a == apid then suc (uses apid history) else uses apid history

next_value :
    (counts : Dict ℕ ℕ) (a apid : ℕ)
    → value_or_zero (Dict.get (next counts a).1 apid) ≡ (
        if a == apid
        then (value_or_zero (Dict.get counts apid) + 1) % 2 ^ 14
        else value_or_zero (Dict.get counts apid))
unfolding next
next_value counts a apid = ground (
  arith,
  get-put counts a apid (bit_and (value_or_zero (Dict.get counts a) + 1) 0x3fff),
  bit_and_mask 14 (value_or_zero (Dict.get counts a) + 1),
)

after_value :
    (counts : Dict ℕ ℕ) (history : List ℕ) (apid : ℕ)
    → value_or_zero (Dict.get counts apid) < 2 ^ 14
    → value_or_zero (Dict.get (after counts history) apid)
      ≡ (value_or_zero (Dict.get counts apid) + uses apid history) % 2 ^ 14
unfolding after uses
after_value counts [] apid h = omega arith
after_value counts (a ∷ history) apid h =
    ground (arith, next_value counts a apid, after_value (next counts a).1 history apid)

-- A new counter hands each APID the numbers 0, 1, 2, … of its own calls, by 14 bits, however the
-- calls for other APIDs are mixed in.
pub next-after :
    (history : List ℕ) (apid : ℕ) → (next (after [] history) apid).0 ≡ uses apid history % 2 ^ 14
unfolding next
next-after history apid =
    omega (arith, after_value [] history apid (unfold Dict.get in omega arith), empty)
  where
    empty : value_or_zero (Dict.get [] apid) ≡ 0
    empty = unfold Dict.get in refl
