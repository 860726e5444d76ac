-- ===== src/Sequencer/Tick/Due.antt =====
-- `_next_due` and `next_deadline` of xtce_sim/sequencer.py.
use xtce_sim.Prelude.{
  ℕ, ◌≤◌, ◌<◌, subst, ◌≡◌, ◌↔◌, refl, arith, get_elem?, Option, none, some, true, Bool-cases,
  Option-cases, ◌⊎◌, inl, inr, ltb, if◌then◌else◌,
}
use xtce_sim.Sequencer.{
  Kind, ats, rts, SequenceEntry, Slot, entries_of, is_running, deadline, Sequencer, slot_of,
}
use xtce_sim.Sequencer.Tick.{upcoming, due, next_due, next_deadline, soonest}

due-cases :
    (kind : Kind) (s : Slot) (now : ℕ)
    → ((due kind s now ≡ none) × ((t : ℕ) → upcoming kind s ≡ some t → now < t))
      ⊎ ((t : ℕ) × (due kind s now ≡ some t) × (upcoming kind s ≡ some t) × (t ≤ now))
unfolding due
due-cases kind s now = elim (Option-cases (upcoming kind s)) [
  | inl e ↦ inl (rw (due, e) refl, λ t h. absurd (ground (arith, e, h)))
  | inr (t, e) ↦ elim (Bool-cases (ltb now t)) [
    | inl b ↦ inl (rw (due, e, b) refl, λ u h. ground (arith, e, h, b))
    | inr b ↦ inr (t, rw (due, e, b) refl, e, ground (arith, b))
  ]
]

-- The slot's next entry is due, and no running slot's next entry is earlier.
abbrev Earliest : Sequencer → ℕ → Kind → Type 0
Earliest q now kind =
    (t : ℕ) × (upcoming kind (slot_of q kind) ≡ some t)
    × (t ≤ now)
    × ((j : Kind) (u : ℕ) → upcoming j (slot_of q j) ≡ some u → t ≤ u)

ats_first :
    (q : Sequencer) (now t : ℕ)
    → upcoming ats q.ats_slot ≡ some t
    → t ≤ now
    → ((u : ℕ) → upcoming rts q.rts_slot ≡ some u → t ≤ u)
    → Earliest q now ats
ats_first q now t e k f = (t, e, k, first)
  where
    first : (j : Kind) (u : ℕ) → upcoming j (slot_of q j) ≡ some u → t ≤ u
    first ats u g = ground (arith, e, g)
    first rts u g = f u g

rts_first :
    (q : Sequencer) (now t : ℕ)
    → upcoming rts q.rts_slot ≡ some t
    → t ≤ now
    → ((u : ℕ) → upcoming ats q.ats_slot ≡ some u → t ≤ u)
    → Earliest q now rts
rts_first q now t e k f = (t, e, k, first)
  where
    first : (j : Kind) (u : ℕ) → upcoming j (slot_of q j) ≡ some u → t ≤ u
    first rts u g = ground (arith, e, g)
    first ats u g = f u g

by_kind :
    (q : Sequencer) (now : ℕ) (k kind : Kind) → k ≡ kind → Earliest q now k → Earliest q now kind
by_kind q now k kind e p = subst (Earliest q now) e p

-- The slot that fires next has a next entry that is due, and no running slot's next entry is
-- earlier.
pub next_due_lem :
    (q : Sequencer) (now : ℕ) (kind : Kind)
    → next_due q now ≡ some kind
    → (t : ℕ) × (upcoming kind (slot_of q kind) ≡ some t)
      × (t ≤ now)
      × ((j : Kind) (u : ℕ) → upcoming j (slot_of q j) ≡ some u → t ≤ u)
next_due_lem q now kind h = elim (due-cases ats q.ats_slot now) [
  | inl (a, late) ↦ elim (due-cases rts q.rts_slot now) [
    | inl (b, later) ↦ absurd (unfold next_due in ground (arith, h, a, b))
    | inr (t, b, e, k) ↦
        by_kind q now rts kind (unfold next_due in ground (arith, h, a, b))
          (rts_first q now t e k (λ u g. omega (arith, late u g, k)))
  ]
  | inr (t, a, e, k) ↦ elim (due-cases rts q.rts_slot now) [
    | inl (b, later) ↦
        by_kind q now ats kind (unfold next_due in ground (arith, h, a, b))
          (ats_first q now t e k (λ u g. omega (arith, later u g, k)))
    | inr (u, b, f, m) ↦ elim (Bool-cases (ltb u t)) [
      | inl c ↦
          by_kind q now rts kind (unfold next_due in ground (arith, h, a, b, c))
            (rts_first q now u f m (λ v g. ground (arith, e, g, c)))
      | inr c ↦
          by_kind q now ats kind (unfold next_due in ground (arith, h, a, b, c))
            (ats_first q now t e k (λ v g. ground (arith, f, g, c)))
    ]
  ]
]

latest :
    {now : ℕ} (a r : Option ℕ)
    → ((t : ℕ) → a ≡ some t → now < t)
    → ((t : ℕ) → r ≡ some t → now < t)
    → (t : ℕ) → soonest a r ≡ some t
    → now < t
latest none r f g t h = g t h
latest (some a) none f g t h = f t h
latest (some a) (some r) f g t h = ground (arith, f a refl, g r refl, h)

soonest_right : (a r : Option ℕ) (t : ℕ) → r ≡ some t → (v : ℕ) × (soonest a r ≡ some v) × (v ≤ t)
soonest_right none r t e = (t, e, omega arith)
soonest_right (some a) none t e = absurd (ground (arith, e))
soonest_right (some a) (some r) t e = (if ltb r a then r else a, refl, ground (arith, e))

soonest_left : (a r : Option ℕ) (t : ℕ) → a ≡ some t → (v : ℕ) × (soonest a r ≡ some v) × (v ≤ t)
soonest_left none r t e = absurd (ground (arith, e))
soonest_left (some a) none t e = (a, refl, ground (arith, e))
soonest_left (some a) (some r) t e = (if ltb r a then r else a, refl, ground (arith, e))

not_later :
    (q : Sequencer) (now t : ℕ)
    → ((u : ℕ) → next_deadline q ≡ some u → now < u)
    → t ≤ now
    → (v : ℕ) × (soonest (upcoming ats q.ats_slot) (upcoming rts q.rts_slot) ≡ some v) × (v ≤ t)
    → ⊥
not_later q now t f k (v, e, m) = omega (arith, f v (unfold next_deadline in e), k, m)

some-due : (q : Sequencer) (now t : ℕ) → due ats q.ats_slot now ≡ some t → next_due q now ≡ none → ⊥
some-due q now t a h = elim (Option-cases (due rts q.rts_slot now)) [
  | inl b ↦ unfold next_due in ground (arith, h, a, b)
  | inr (u, b) ↦ elim (Bool-cases (ltb u t)) [
    | inl c ↦ unfold next_due in ground (arith, h, a, b, c)
    | inr c ↦ unfold next_due in ground (arith, h, a, b, c)
  ]
]

-- Nothing fires at a time if and only if the deadline that the waiter sleeps toward is later.
pub next_due-none :
    (q : Sequencer) (now : ℕ)
    → (next_due q now ≡ none) ↔ ((t : ℕ) → next_deadline q ≡ some t → now < t)
next_due-none q now = elim (due-cases ats q.ats_slot now) [
  | inl (a, late) ↦ elim (due-cases rts q.rts_slot now) [
    | inl (b, later) ↦ (
      λ _.
          unfold next_deadline in
          latest (upcoming ats q.ats_slot) (upcoming rts q.rts_slot) late later,
      λ _. unfold next_due in rw (next_due, a, b) refl,
    )
    | inr (t, b, e, k) ↦ (
      λ h. absurd (unfold next_due in ground (arith, h, a, b)),
      λ f. absurd (
          not_later q now t f k
            (soonest_right (upcoming ats q.ats_slot) (upcoming rts q.rts_slot) t e)),
    )
  ]
  | inr (t, a, e, k) ↦ (
    λ h. absurd (some-due q now t a h),
    λ f. absurd (
        not_later q now t f k
          (soonest_left (upcoming ats q.ats_slot) (upcoming rts q.rts_slot) t e)),
  )
]

pub upcoming-pending :
    (kind : Kind) (s : Slot) (t : ℕ)
    → upcoming kind s ≡ some t
    → (is_running s ≡ true)
      × ((e : SequenceEntry) × (get_elem? (entries_of s.sequence) s.position ≡ some e))
unfolding upcoming deadline
upcoming-pending kind s t h = elim (Bool-cases (is_running s)) [
  | inr r ↦ absurd (ground (arith, r, h))
  | inl r ↦ elim (Option-cases (get_elem? (entries_of s.sequence) s.position)) [
    | inr (e, found) ↦ (r, (e, found))
    | inl gone ↦ absurd (ground (arith, r, h, gone))
  ]
]
