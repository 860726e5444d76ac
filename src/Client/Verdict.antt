-- ===== src/Client/Verdict.antt =====
-- What `_ReceiptMatcher.verdict` of xtce_sim/client.py makes of receipts.
use xtce_sim.Prelude.{
  ◌≡◌, refl, subst, ◌&&◌, leb, length, drop, arith, List, [], ◌∷◌, Option, none, some, Bool, true,
  false, inl, inr, ◌⊎◌, not, if◌then◌else◌, Result, ok, err,
}
use mathlib.Core.List.{Memᴰ}
use mathlib.Core.List.Memᴰ
use mathlib.Core.Option.{some_inj}
use xtce_sim.Prelude.Int.{ℤ}
use xtce_sim.Prelude.Equality.{list_eq, nat_eq}
use xtce_sim.Prelude.Texts.{codes}
use xtce_sim.Prelude.Dict
use xtce_sim.Prelude.Dict.{Dict}
use xtce_sim.Struct.{Bytes}
use xtce_sim.Utf8.{Text}
use xtce_sim.Codec.{Value}
use xtce_sim.Codec.Telemetry.{unpack_telemetry}
use xtce_sim.Client.{
  ReceiptMatcher, has_apid, int_of, matched, is_int, is_wanted, advanced, judge, ours, judged,
  or_later, verdict, is_success,
}

abbrev pub Answered : Type 0
Answered = Option (Dict Text Value) × ReceiptMatcher

-- Of the transfer, and no success that the count does not bear out.
abbrev pub IsConfirmed : ReceiptMatcher → Option ℤ → Dict Text Value → Type 0
IsConfirmed m baseline values =
    (is_wanted m values ≡ true)
    × ((is_success m values ≡ false)
        ⊎ (advanced baseline (Dict.get values (codes "FR_FILE_RECEIVED_COUNT")) ≡ true))

-- The count of an IN_PROGRESS receipt of the transfer among the packets, or the baseline from before.
abbrev pub IsObserved : ReceiptMatcher → List Bytes → Option ℤ → Type 0
IsObserved m packets baseline =
    (baseline ≡ m.baseline)
    ⊎ ((packet : Bytes) × (values : Dict Text Value) × Memᴰ packet packets
        × (ours m packet ≡ some values)
        × (is_int (Dict.get values (codes "FR_TRANSFER_STATUS")) m.in_progress ≡ true)
        × (baseline ≡ int_of (Dict.get values (codes "FR_FILE_RECEIVED_COUNT"))))

-- The matcher changes in its baseline alone, to an observed one, and what it has found is confirmed.
abbrev pub Turned : ReceiptMatcher → List Bytes → Answered → Type 0
Turned m packets (found, m') =
    (baseline : Option ℤ) × (m' ≡ record m { baseline = baseline })
    × IsObserved m packets baseline
    × ((values : Dict Text Value) → found ≡ some values → IsConfirmed m baseline values)

matched-is_wanted :
    (m : ReceiptMatcher) (r : Result (Dict Text Value)) (values : Dict Text Value)
    → matched m r ≡ some values
    → is_wanted m values ≡ true
matched-is_wanted m (err e) values h = absurd (ground (arith, h))
matched-is_wanted m (ok v) values h = kept (is_wanted m v) refl h
  where
    kept :
        (w : Bool)
        → is_wanted m v ≡ w
        → (if w then some v else none) ≡ some values
        → is_wanted m values ≡ true
    kept true y e = subst (λ x. is_wanted m x ≡ true) (some_inj.0 e) y
    kept false y e = absurd (ground (arith, e))

ours-is_wanted :
    (m : ReceiptMatcher) (packet : Bytes) (values : Dict Text Value)
    → ours m packet ≡ some values
    → is_wanted m values ≡ true
unfolding ours
ours-is_wanted m packet values h =
    looked_at (leb 6 (length packet) && has_apid packet m.receipt_def.apid) h
  where
    looked_at :
        (b : Bool)
        → (if b then matched m (unpack_telemetry m.receipt_def (drop 6 packet)) else none)
          ≡ some values
        → is_wanted m values ≡ true
    looked_at true e = matched-is_wanted m (unpack_telemetry m.receipt_def (drop 6 packet)) values e
    looked_at false e = absurd (ground (arith, e))

-- The three tests of a turn.
turn-Turned :
    (m : ReceiptMatcher) (packet : Bytes) (values : Dict Text Value)
    (in_progress success above : Bool)
    → ours m packet ≡ some values
    → is_int (Dict.get values (codes "FR_TRANSFER_STATUS")) m.in_progress ≡ in_progress
    → is_success m values ≡ success
    → advanced m.baseline (Dict.get values (codes "FR_FILE_RECEIVED_COUNT")) ≡ above
    → Turned m (packet ∷ []) (
        if in_progress
        then (
          none,
          record m { baseline = int_of (Dict.get values (codes "FR_FILE_RECEIVED_COUNT")) },
        )
        else if not success
        then (some values, m)
        else if above
        then (some values, m)
        else (none, m))
turn-Turned m packet values true success above o p s a = (
  int_of (Dict.get values (codes "FR_FILE_RECEIVED_COUNT")),
  refl,
  inr (packet, values, Memᴰ.head refl, o, p, refl),
  (λ v e. absurd (ground (arith, e))),
)
turn-Turned m packet values false false above o p s a = (
  m.baseline,
  refl,
  inl refl,
  (λ v e.
      subst (IsConfirmed m m.baseline) (some_inj.0 e) (ours-is_wanted m packet values o, inl s)),
)
turn-Turned m packet values false true true o p s a = (
  m.baseline,
  refl,
  inl refl,
  (λ v e.
      subst (IsConfirmed m m.baseline) (some_inj.0 e) (ours-is_wanted m packet values o, inr a)),
)
turn-Turned m packet values false true false o p s a =
    (m.baseline, refl, inl refl, (λ v e. absurd (ground (arith, e))))

judged-Turned :
    (m : ReceiptMatcher) (packet : Bytes) (o : Option (Dict Text Value))
    → ours m packet ≡ o
    → Turned m (packet ∷ []) (judged m o)
unfolding judge
judged-Turned m packet none h = (m.baseline, refl, inl refl, (λ v e. absurd (ground (arith, e))))
judged-Turned m packet (some values) h =
    turn-Turned m packet values
      (is_int (Dict.get values (codes "FR_TRANSFER_STATUS")) m.in_progress) (is_success m values)
      (advanced m.baseline (Dict.get values (codes "FR_FILE_RECEIVED_COUNT"))) h refl refl refl

head_among :
    (p packet : Bytes) (packets : List Bytes) → Memᴰ p (packet ∷ []) → Memᴰ p (packet ∷ packets)
head_among p packet packets m = elim (Memᴰ.cases_cons m) [
  | inl e ↦ Memᴰ.head e
  | inr none_left ↦ absurd (Memᴰ.not-nil none_left)
]

-- A baseline observed after a turn was observed in it or later.
IsObserved-or_later :
    (m : ReceiptMatcher) (packet : Bytes) (packets : List Bytes) (b1 b2 : Option ℤ)
    → IsObserved m (packet ∷ []) b1
    → IsObserved (record m { baseline = b1 }) packets b2
    → IsObserved m (packet ∷ packets) b2
unfolding ours
IsObserved-or_later m packet packets b1 b2 (inl e) (inl same) = inl (rw same e)
IsObserved-or_later m packet packets b1 b2 (inr (p, v, among, o, i, c)) (inl same) =
    inr (p, v, head_among p packet packets among, o, i, rw same c)
IsObserved-or_later m packet packets b1 b2 o1 (inr (p, v, among, o, i, c)) =
    inr (p, v, Memᴰ.tail among, o, i, c)

later-Turned :
    (m : ReceiptMatcher) (packet : Bytes) (packets : List Bytes) (turn rest : Answered)
    → Turned m (packet ∷ []) turn
    → Turned turn.1 packets rest
    → Turned m (packet ∷ packets) (or_later turn rest)
unfolding ours
later-Turned m packet packets (some values, m1) rest (b1, e, o, c) r =
    (b1, e, IsObserved-or_later m packet packets b1 b1 o (inl refl), c)
later-Turned m packet packets (none, m1) rest (b1, e, o, c) r =
    let (b2, e2, o2, c2) : Turned (record m { baseline = b1 }) packets rest =
      subst (λ x. Turned x packets rest) e r in
    (b2, e2, IsObserved-or_later m packet packets b1 b2 o o2, c2)

-- What `verdict` returns is a receipt of this transfer, and when it is a success, its count is above the
-- matcher's baseline. The matcher changes in its baseline alone: it is the one from before, or the count
-- of an IN_PROGRESS receipt of this transfer among the packets.
pub verdict-Turned :
    (m : ReceiptMatcher) (packets : List Bytes) → Turned m packets (verdict m packets)
unfolding verdict
verdict-Turned m [] = (m.baseline, refl, inl refl, (λ v e. absurd (ground (arith, e))))
verdict-Turned m (packet ∷ packets) =
    let turn = judged m (ours m packet) in
    later-Turned m packet packets turn (verdict turn.1 packets)
      (judged-Turned m packet (ours m packet) refl) (verdict-Turned turn.1 packets)
