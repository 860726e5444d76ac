-- ===== src/Utf8/RoundTrip.antt =====
-- Encoding and decoding a text.
use xtce_sim.Prelude.{
  ℕ, ◌+◌, ◌-◌, ◌*◌, ◌/◌, ◌%◌, ◌<◌, ◌≤◌, ◌≡◌, refl, [], ◌∷◌, ◌++◌, Option, none, some, arith, All,
  ◌∙◌, ltb, ◌==◌, if◌then◌else◌, inl, inr, Bool-cases, ltb→lt, le→leb, true, false, suc,
}
use xtce_sim.Struct.{Bytes}
use xtce_sim.Utf8.{
  Text, IsScalar, encode_char, encode, Handler, State, idle, inside, joined, step, decode_from,
  decode,
}

joined-nil : (t : Option Text) → joined (some []) t ≡ t
joined-nil none = refl
joined-nil (some t) = refl

-- A byte that only opens a character or goes on with it.
takes_in :
    (m : Handler) (s : State) (b : ℕ) (rest : Bytes) {s' : State}
    → step m s b ≡ (some [], s')
    → decode_from m s (b ∷ rest) ≡ decode_from m s' rest
unfolding decode_from
takes_in m idle b rest h = rw h (joined-nil _)
takes_in m (inside need acc lo hi) b rest h = rw h (joined-nil _)

-- The last byte of a character.
closes :
    (m : Handler) (s : State) (b : ℕ) (rest : Bytes) {c : ℕ}
    → step m s b ≡ (some (c ∷ []), idle)
    → decode_from m s (b ∷ rest) ≡ joined (some (c ∷ [])) (decode_from m idle rest)
unfolding decode_from
closes m idle b rest h = rw h
closes m (inside need acc lo hi) b rest h = rw h

step_ascii : (m : Handler) (b : ℕ) → b < 0x80 → step m idle b ≡ (some (b ∷ []), idle)
unfolding step
step_ascii m b h = ground arith

step_two :
    (m : Handler) (b : ℕ)
    → 0xc2 ≤ b
    → b < 0xe0
    → step m idle b ≡ (some [], inside 1 (b - 0xc0) 0x80 0xbf)
unfolding step
step_two m b h k = ground arith

abbrev low3 : ℕ → ℕ
low3 b = if b == 0xe0 then 0xa0 else 0x80

abbrev high3 : ℕ → ℕ
high3 b = if b == 0xed then 0x9f else 0xbf

step_three :
    (m : Handler) (b : ℕ)
    → 0xe0 ≤ b
    → b < 0xf0
    → step m idle b ≡ (some [], inside 2 (b - 0xe0) (low3 b) (high3 b))
unfolding step
step_three m b h k = rw (step, small, mid, two, three)
  where
    small : ltb b 0x80 ≡ false
    small = ground arith

    mid : ltb b 0xc2 ≡ false
    mid = ground arith

    two : ltb b 0xe0 ≡ false
    two = ground arith

    three : ltb b 0xf0 ≡ true
    three = ground arith

abbrev low4 : ℕ → ℕ
low4 b = if b == 0xf0 then 0x90 else 0x80

abbrev high4 : ℕ → ℕ
high4 b = if b == 0xf4 then 0x8f else 0xbf

step_four :
    (m : Handler) (b : ℕ)
    → 0xf0 ≤ b
    → b < 0xf5
    → step m idle b ≡ (some [], inside 3 (b - 0xf0) (low4 b) (high4 b))
unfolding step
step_four m b h k = rw (step, small, mid, two, three, four)
  where
    small : ltb b 0x80 ≡ false
    small = ground arith

    mid : ltb b 0xc2 ≡ false
    mid = ground arith

    two : ltb b 0xe0 ≡ false
    two = ground arith

    three : ltb b 0xf0 ≡ false
    three = ground arith

    four : ltb b 0xf5 ≡ true
    four = ground arith

step_last :
    (m : Handler) (acc lo hi b : ℕ)
    → lo ≤ b
    → b ≤ hi
    → step m (inside 1 acc lo hi) b ≡ (some ((acc * 64 + (b - 0x80)) ∷ []), idle)
unfolding step
step_last m acc lo hi b h k = rw (step, le→leb lo b h, le→leb b hi k)

step_more :
    (m : Handler) (need acc lo hi b : ℕ)
    → lo ≤ b
    → b ≤ hi
    → step m (inside (suc (suc need)) acc lo hi) b
      ≡ (some [], inside (suc need) (acc * 64 + (b - 0x80)) 0x80 0xbf)
unfolding step
step_more m need acc lo hi b h k = ground arith

abbrev Reads : Handler → ℕ → Bytes → Bytes → Type 0
Reads m c bs rest =
    decode_from m idle (bs ++ rest) ≡ joined (some (c ∷ [])) (decode_from m idle rest)

two_bytes :
    (m : Handler) (c : ℕ) (rest : Bytes)
    → 0x80 ≤ c
    → c < 0x800
    → Reads m c ((0xc0 + c / 64) ∷ (0x80 + c % 64) ∷ []) rest
two_bytes m c rest h k =
    takes_in m idle (0xc0 + c / 64) _ (step_two m (0xc0 + c / 64) (omega arith) (omega arith))
    ∙ closes m _ (0x80 + c % 64) rest
        (step_last m _ 0x80 0xbf (0x80 + c % 64) (omega arith) (omega arith) ∙ rw value)
  where
    value : (0xc0 + c / 64 - 0xc0) * 64 + (0x80 + c % 64 - 0x80) ≡ c
    value = omega arith

three_bytes :
    (m : Handler) (c : ℕ) (rest : Bytes)
    → 0x800 ≤ c
    → c < 0x10000
    → IsScalar c
    → Reads m c ((0xe0 + c / 4096) ∷ (0x80 + c / 64 % 64) ∷ (0x80 + c % 64) ∷ []) rest
three_bytes m c rest h k scalar =
    takes_in m idle (0xe0 + c / 4096) _ (step_three m (0xe0 + c / 4096) (omega arith) (omega arith))
    ∙ takes_in m _ (0x80 + c / 64 % 64) _ (
        step_more m 0 _ (low3 (0xe0 + c / 4096)) (high3 (0xe0 + c / 4096)) (0x80 + c / 64 % 64)
          above below)
    ∙ closes m _ (0x80 + c % 64) rest
        (step_last m _ 0x80 0xbf (0x80 + c % 64) (omega arith) (omega arith) ∙ rw value)
  where
    above : low3 (0xe0 + c / 4096) ≤ 0x80 + c / 64 % 64
    above = ground arith

    below : 0x80 + c / 64 % 64 ≤ high3 (0xe0 + c / 4096)
    below = ground arith

    value :
        ((0xe0 + c / 4096 - 0xe0) * 64 + (0x80 + c / 64 % 64 - 0x80)) * 64 + (0x80 + c % 64 - 0x80)
        ≡ c
    value = omega arith

four_bytes :
    (m : Handler) (c : ℕ) (rest : Bytes)
    → 0x10000 ≤ c
    → c < 0x110000
    → Reads m c
        ((0xf0 + c / 262144) ∷ (0x80 + c / 4096 % 64) ∷ (0x80 + c / 64 % 64) ∷ (0x80 + c % 64) ∷ [])
        rest
four_bytes m c rest h k =
    takes_in m idle (0xf0 + c / 262144) _
      (step_four m (0xf0 + c / 262144) (omega arith) (omega arith))
    ∙ takes_in m _ (0x80 + c / 4096 % 64) _ (
        step_more m 1 _ (low4 (0xf0 + c / 262144)) (high4 (0xf0 + c / 262144))
          (0x80 + c / 4096 % 64) above below)
    ∙ takes_in m _ (0x80 + c / 64 % 64) _
        (step_more m 0 _ 0x80 0xbf (0x80 + c / 64 % 64) (omega arith) (omega arith))
    ∙ closes m _ (0x80 + c % 64) rest
        (step_last m _ 0x80 0xbf (0x80 + c % 64) (omega arith) (omega arith) ∙ rw value)
  where
    above : low4 (0xf0 + c / 262144) ≤ 0x80 + c / 4096 % 64
    above = ground arith

    below : 0x80 + c / 4096 % 64 ≤ high4 (0xf0 + c / 262144)
    below = ground arith

    value :
        (((0xf0 + c / 262144 - 0xf0) * 64 + (0x80 + c / 4096 % 64 - 0x80)) * 64
              + (0x80 + c / 64 % 64 - 0x80))
            * 64
          + (0x80 + c % 64 - 0x80)
        ≡ c
    value = omega arith

decode_from-char :
    (m : Handler) (c : ℕ) (rest : Bytes) → IsScalar c → Reads m c (encode_char c) rest
unfolding encode_char
decode_from-char m c rest h = elim (Bool-cases (ltb c 0x80)) [
  | inl one ↦ rw one (closes m idle c rest (step_ascii m c (ltb→lt c 0x80 one)))
  | inr more ↦ elim (Bool-cases (ltb c 0x800)) [
    | inl two ↦ rw (more, two) (two_bytes m c rest (ground arith) (ltb→lt c 0x800 two))
    | inr more2 ↦ elim (Bool-cases (ltb c 0x10000)) [
      | inl three ↦
          rw (more, more2, three) (three_bytes m c rest (ground arith) (ltb→lt c 0x10000 three) h)
      | inr four ↦ rw (more, more2, four) (four_bytes m c rest (ground arith) (ground arith))
    ]
  ]
]

decode_from-encode :
    (m : Handler) (s : Text) → All IsScalar s → decode_from m idle (encode s) ≡ some s
unfolding encode decode_from
decode_from-encode m [] h = refl
decode_from-encode m (c ∷ cs) h =
    rw (decode_from-char m c (encode cs) h.0, decode_from-encode m cs h.1)

-- A text is read back from its bytes, under each error handler.
pub decode-encode : (m : Handler) (s : Text) → All IsScalar s → decode m (encode s) ≡ some s
unfolding decode
decode-encode m s h = decode_from-encode m s h
