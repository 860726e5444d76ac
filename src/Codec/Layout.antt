-- ===== src/Codec/Layout.antt =====
-- Packing and unpacking a row of values by a struct format.
use xtce_sim.Prelude.{
  ℕ, zero, suc, ◌-◌, ◌≡◌, refl, ap, ◌∙◌, arith, List, [], ◌∷◌, ◌++◌, length, take, drop, replicate,
  length-append, length-take, take-length-append, drop-length-append, some, Bool, true, false, ok,
  ◌>>=◌, >>=-eq-ok, Option-cases, inl, inr,
}
use xtce_sim.Prelude.Int.{ℤ, pos, negsuc}
use xtce_sim.Struct.{Bytes}
use xtce_sim.Schema.{Width, w1, w2, w4, w8, Item, word, blob}
use xtce_sim.Codec.{
  Value, int, flag, text, raw, octets, be, of_be, to_word, of_word, item_size, pad, pack_item,
  pack_items, size_of, unpack_item, unpack_from,
}

length-be : (w : Width) (x : ℕ) → length (be w x) ≡ octets w
length-be w1 x = refl
length-be w2 x = refl
length-be w4 x = refl
length-be w8 x = refl

of_be-be : (w : Width) (x : ℕ) → of_be 0 (be w x) ≡ x
of_be-be w1 x = omega arith
of_be-be w2 x = omega arith
of_be-be w4 x = omega arith
of_be-be w8 x = omega arith

of_word-to_word :
    (signed : Bool) (w : Width) (z : ℤ) (x : ℕ)
    → to_word signed w z ≡ some x
    → of_word signed w x ≡ z
unfolding to_word of_word
of_word-to_word false w (pos n) x h = ground arith
of_word-to_word false w (negsuc n) x h = ground arith
of_word-to_word true w1 (pos n) x h = ground arith
of_word-to_word true w2 (pos n) x h = ground arith
of_word-to_word true w4 (pos n) x h = ground arith
of_word-to_word true w8 (pos n) x h = ground arith
of_word-to_word true w1 (negsuc n) x h = ground arith
of_word-to_word true w2 (negsuc n) x h = ground arith
of_word-to_word true w4 (negsuc n) x h = ground arith
of_word-to_word true w8 (negsuc n) x h = ground arith

-- What comes back of a value that was packed.
abbrev pub seen : Item → Value → Value
seen (word signed w) (flag true) = int (pos 1)
seen (word signed w) (flag false) = int (pos 0)
seen (word signed w) (int z) = int z
seen (word signed w) v = v
seen (blob n) (raw b) = raw (pad n b)
seen (blob n) v = v

length-replicate : (n x : ℕ) → length (replicate n x) ≡ n
length-replicate zero x = refl
length-replicate (suc n) x = omega (arith, length-replicate n x)

length-pad : (n : ℕ) (b : Bytes) → length (pad n b) ≡ n
length-pad n b = omega (
  arith,
  length-append (take n b) (replicate (n - length b) 0),
  length-take n b,
  length-replicate (n - length b) 0,
)

word-ok :
    (signed : Bool) (w : Width) (z : ℤ) (b : Bytes)
    → pack_item (word signed w) (int z) ≡ ok b
    → (length b ≡ octets w) × (unpack_item (word signed w) b ≡ int z)
unfolding pack_item unpack_item
word-ok signed w z b h = elim (Option-cases (to_word signed w z)) [
  | inl gone ↦ absurd (ground (arith, h, gone))
  | inr (x, fits) ↦
      let same : be w x ≡ b = ground (arith, h, fits) in
      (
        rw (← same) (length-be w x),
        rw (← same)
            (ap int (ap (of_word signed w) (of_be-be w x) ∙ of_word-to_word signed w z x fits)),
      )
]

-- An item that was packed has its size, and is read back.
pub pack_item-ok :
    (i : Item) (v : Value) (b : Bytes)
    → pack_item i v ≡ ok b
    → (length b ≡ item_size i) × (unpack_item i b ≡ seen i v)
pack_item-ok (word signed w) (int z) b h = word-ok signed w z b h
pack_item-ok (word signed w) (flag true) b h = word-ok signed w (pos 1) b (unfold pack_item in h)
pack_item-ok (word signed w) (flag false) b h = word-ok signed w (pos 0) b (unfold pack_item in h)
pack_item-ok (word signed w) (text s) b h = absurd (unfold pack_item in ground (arith, h))
pack_item-ok (word signed w) (raw s) b h = absurd (unfold pack_item in ground (arith, h))
pack_item-ok (blob n) (int z) b h = absurd (unfold pack_item in ground (arith, h))
pack_item-ok (blob n) (flag f) b h = absurd (unfold pack_item in ground (arith, h))
pack_item-ok (blob n) (text s) b h = absurd (unfold pack_item in ground (arith, h))
pack_item-ok (blob n) (raw s) b h =
    let same : pad n s ≡ b = unfold pack_item in ground (arith, h) in
    (rw (← same) (length-pad n s), unfold unpack_item in rw same refl)

abbrev pub seen_all : List Item → List Value → List Value
seen_all [] vs = []
seen_all (i ∷ is) [] = []
seen_all (i ∷ is) (v ∷ vs) = seen i v ∷ seen_all is vs

pub pack_items-cons :
    (i : Item) (is : List Item) (v : Value) (vs : List Value) (b : Bytes)
    → pack_items (i ∷ is) (v ∷ vs) ≡ ok b
    → (b1 : Bytes) × (b2 : Bytes) × (pack_item i v ≡ ok b1)
      × (pack_items is vs ≡ ok b2)
      × (b ≡ b1 ++ b2)
pack_items-cons i is v vs b h =
    let (b1, first, more) =
      >>=-eq-ok (pack_item i v) (λ b1. pack_items is vs >>= λ bs. ok (b1 ++ bs)) {y = b}
        (unfold pack_items in h) in
    let (b2, second, last) = >>=-eq-ok (pack_items is vs) (λ bs. ok (b1 ++ bs)) {y = b} more in
    (b1, b2, first, second, ground (arith, last))

take-exact : (n : ℕ) (xs ys : Bytes) → length xs ≡ n → take n (xs ++ ys) ≡ xs
take-exact n xs ys h = rw (← h) (take-length-append xs ys)

drop-exact : (n : ℕ) (xs ys : Bytes) → length xs ≡ n → drop n (xs ++ ys) ≡ ys
drop-exact n xs ys h = rw (← h) (drop-length-append xs ys)

-- A row of values that was packed has the format's size, and is read back.
pub unpack-pack_items :
    (is : List Item) (vs : List Value) (b : Bytes)
    → pack_items is vs ≡ ok b
    → (length b ≡ size_of is) × (unpack_from is b ≡ seen_all is vs)
unfolding pack_items unpack_from
unpack-pack_items [] [] b h = let same : [] ≡ b = ground (arith, h) in (rw (← same) refl, refl)
unpack-pack_items [] (v ∷ vs) b h = absurd (ground (arith, h))
unpack-pack_items (i ∷ is) [] b h = absurd (ground (arith, h))
unpack-pack_items (i ∷ is) (v ∷ vs) b h =
    let (b1, b2, first, second, whole) = pack_items-cons i is v vs b h in
    let (size1, read1) = pack_item-ok i v b1 first in
    let (size2, read2) = unpack-pack_items is vs b2 second in
    (
      rw whole (omega (arith, length-append b1 b2, size1, size2)),
      rw
          (
            whole,
            take-exact (item_size i) b1 b2 size1,
            drop-exact (item_size i) b1 b2 size1,
            read1,
            read2,
          )
          refl,
    )
