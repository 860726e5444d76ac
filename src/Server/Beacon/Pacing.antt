-- ===== src/Server/Beacon/Pacing.antt =====
-- The schedule of the beacon of xtce_sim/server.py.
use xtce_sim.Prelude.{
  ℕ, ◌+◌, ◌<◌, ◌≤◌, ◌≡◌, refl, sym, ◌∙◌, arith, List, [], ◌∷◌, ◌&&◌, Option, none, some, leb, ◌==◌,
  if◌then◌else◌, All, Bool-cases, inl, inr,
}
use xtce_sim.Prelude.Equality.{nat_eq}
use xtce_sim.Prelude.Dict
use xtce_sim.Prelude.Dict.{Dict, get-put}
use xtce_sim.Prelude.Sort.{sort, itself, with_key, with_key-sort, All-sort}
use xtce_sim.Server.{Setup, SimServer, packet_by_apid}
use xtce_sim.Ccsds.Counter.{after, uses}
use xtce_sim.Server.Beacon.Once.{emit_all-Numbered}
use xtce_sim.Server.Queues.{send_packet-Downlinked}
use xtce_sim.Server.Beacon.{
  rearmed, rearm, next_time, transmits, is_periodic, beacon_one, due_apids, emit_all,
  emit_due_packets,
}

-- Each key stands once.
abbrev pub DistinctKeys : Dict ℕ ℕ → Type 0
DistinctKeys [] = Unit {0}
DistinctKeys ((k, v) ∷ d) = (Dict.get d k ≡ none) × DistinctKeys d

-- A key that a dict has.
abbrev pub HasKey : Dict ℕ ℕ → ℕ → Type 0
HasKey d a = (t : ℕ) × (Dict.get d a ≡ some t)

HasKey-put : (d : Dict ℕ ℕ) (k v a : ℕ) → HasKey d a → HasKey (Dict.put d k v) a
HasKey-put d k v a (t, h) = elim (Bool-cases (k == a)) [
  | inl e ↦ (v, get-put d k a v ∙ rw e refl)
  | inr e ↦ (t, get-put d k a v ∙ rw e h)
]

pub All-HasKey-put :
    (d : Dict ℕ ℕ) (k v : ℕ) (as' : List ℕ) → All (HasKey d) as' → All (HasKey (Dict.put d k v)) as'
All-HasKey-put d k v [] h = tt
All-HasKey-put d k v (a ∷ as') h = (HasKey-put d k v a h.0, All-HasKey-put d k v as' h.1)

HasKey-cons : (d : Dict ℕ ℕ) (k v a : ℕ) → HasKey d a → HasKey ((k, v) ∷ d) a
unfolding Dict.get
HasKey-cons d k v a (t, h) = elim (Bool-cases (k == a)) [
  | inl e ↦ (v, rw e refl)
  | inr e ↦ (t, rw e h)
]

All-HasKey-cons :
    (d : Dict ℕ ℕ) (k v : ℕ) (as' : List ℕ) → All (HasKey d) as' → All (HasKey ((k, v) ∷ d)) as'
All-HasKey-cons d k v [] h = tt
All-HasKey-cons d k v (a ∷ as') h = (HasKey-cons d k v a h.0, All-HasKey-cons d k v as' h.1)

same_value : (d : Dict ℕ ℕ) (a u t : ℕ) → Dict.get d a ≡ some u → Dict.get d a ≡ some t → u ≡ t
same_value d a u t h k = inner u t (sym h ∙ k)
  where
    inner : (u t : ℕ) → Path (Option ℕ) (some u) (some t) → u ≡ t
    inner u t h = ground (arith, h)

pub due_apids-HasKey : (d : Dict ℕ ℕ) (now : ℕ) → All (HasKey d) (due_apids d now)
unfolding due_apids
due_apids-HasKey [] now = tt
due_apids-HasKey ((k, t) ∷ d) now =
    let rest = All-HasKey-cons d k t (due_apids d now) (due_apids-HasKey d now) in
    elim (Bool-cases (leb t now)) [ inl e ↦ rw e ((t, first d k t), rest) | inr e ↦ rw e rest ]
  where
    first : (d : Dict ℕ ℕ) (k t : ℕ) → Dict.get ((k, t) ∷ d) k ≡ some t
    first d k t = unfold Dict.get in ground arith

none_due :
    (d : Dict ℕ ℕ) (now apid : ℕ)
    → Dict.get d apid ≡ none
    → with_key itself apid (due_apids d now) ≡ []
unfolding Dict.get due_apids
none_due [] now apid h = refl
none_due ((k, t) ∷ d) now apid h = elim (Bool-cases (k == apid)) [
  | inl e ↦ absurd (ground (arith, rw e at h))
  | inr e ↦ elim (Bool-cases (leb t now)) [
    | inl f ↦ rw (f, e) (none_due d now apid (rw e at h))
    | inr f ↦ rw f (none_due d now apid (rw e at h))
  ]
]

-- An APID is due once, or not at all.
due_once :
    (d : Dict ℕ ℕ) (now apid t : ℕ)
    → DistinctKeys d
    → Dict.get d apid ≡ some t
    → with_key itself apid (due_apids d now) ≡ (if leb t now then apid ∷ [] else [])
unfolding Dict.get due_apids
due_once [] now apid t k h = absurd (ground (arith, h))
due_once ((j, u) ∷ d) now apid t k h = elim (Bool-cases (j == apid)) [
  | inl e ↦
      let same : u ≡ t = ground (arith, rw e at h) in
      let here : j ≡ apid = ground (arith, e) in
      let alone = none_due d now apid (rw here at k.0) in
      elim (Bool-cases (leb t now)) [
        | inl f ↦ rw (same, f, e, alone, here) refl
        | inr f ↦ rw (same, f) alone
      ]
  | inr e ↦ elim (Bool-cases (leb u now)) [
    | inl f ↦ rw (f, e) (due_once d now apid t k.1 (rw e at h))
    | inr f ↦ rw f (due_once d now apid t k.1 (rw e at h))
  ]
]

-- What passes over APIDs leave of the schedule.
unfoldable pub rearmed_dict : Dict ℕ ℕ → ℕ → ℕ → Option ℕ → Option ℕ → Dict ℕ ℕ
rearmed_dict d now a (some t) (some p) = Dict.put d a (next_time t p now)
rearmed_dict d now a (some t) none = d
rearmed_dict d now a none p = d

unfoldable pub paced : Dict ℕ ℕ → Dict ℕ ℕ → ℕ → List ℕ → Dict ℕ ℕ
unfolding rearmed_dict
paced d periods now [] = d
paced d periods now (a ∷ as') =
    paced (rearmed_dict d now a (Dict.get d a) (Dict.get periods a)) periods now as'

later : (t period now : ℕ) → 0 < period → now < next_time t period now
later t period now h = ground (arith, h)

module _ {E : Type 0} (g : Setup E) where
  beacon_one-schedule :
      (s : SimServer E) (wall apid : ℕ)
      → ((beacon_one g s wall apid).next_due ≡ s.next_due)
        × ((beacon_one g s wall apid).tlm_periods ≡ s.tlm_periods)
  unfolding beacon_one
  beacon_one-schedule s wall apid =
      elim (Bool-cases
        (is_periodic s.file_service (packet_by_apid g.simdef.packets apid) && transmits s)) [
          | inr e ↦ rw e (refl, refl)
          | inl e ↦
              let (counts, queues, same, kept) = send_packet-Downlinked g s wall apid none none in
              rw (e, same) (refl, refl)
        ]

  -- The time of an APID that was passed so many times.
  abbrev times : ℕ → ℕ → ℕ → List ℕ → ℕ
  times t p now [] = t
  times t p now (a ∷ as') = times (next_time t p now) p now as'

  get-paced :
      (d periods : Dict ℕ ℕ) (now a t p : ℕ) (as' : List ℕ)
      → All (HasKey d) as'
      → All (HasKey periods) as'
      → Dict.get d a ≡ some t
      → Dict.get periods a ≡ some p
      → Dict.get (paced d periods now as') a ≡ some (times t p now (with_key itself a as'))
  unfolding paced
  get-paced d periods now a t p [] h k e f = e
  get-paced d periods now a t p (b ∷ as') ((u, hb), h) ((q, kb), k) e f =
      let d' = Dict.put d b (next_time u q now) in
      elim (Bool-cases (b == a)) [
        | inl same ↦
            let here : b ≡ a = ground (arith, same) in
            let ut = same_value d a u t (rw here at hb) e in
            let qp = same_value periods a q p (rw here at kb) f in
            rw (hb, kb, same)
              (get-paced d' periods now a (next_time t p now) p as'
                (All-HasKey-put d b (next_time u q now) as' h) k
                (get-put d b a (next_time u q now) ∙ rw (same, ut, qp) refl) f)
        | inr other ↦
            rw (hb, kb, other)
              (get-paced d' periods now a t p as' (All-HasKey-put d b (next_time u q now) as' h) k
                (get-put d b a (next_time u q now) ∙ rw other e) f)
      ]

  pub emit_all-paced :
      (s : SimServer E) (wall now : ℕ) (as' : List ℕ)
      → All (HasKey s.next_due) as'
      → All (HasKey s.tlm_periods) as'
      → ((emit_all g s wall now as').0 ≡ none)
        × ((emit_all g s wall now as').1.next_due ≡ paced s.next_due s.tlm_periods now as')
        × ((emit_all g s wall now as').1.tlm_periods ≡ s.tlm_periods)
  unfolding emit_all rearm rearmed paced
  emit_all-paced s wall now [] h k = (refl, refl, refl)
  emit_all-paced s wall now (a ∷ as') ((t, ha), h) ((p, ka), k) =
      let d' = Dict.put s.next_due a (next_time t p now) in
      let s' = record s { next_due = d' } in
      let (dues, periods) = beacon_one-schedule s' wall a in
      let there : All (HasKey (beacon_one g s' wall a).next_due) as' =
        rw dues (All-HasKey-put s.next_due a (next_time t p now) as' h) in
      let known : All (HasKey (beacon_one g s' wall a).tlm_periods) as' = rw periods k in
      let (fine, result, kept) = emit_all-paced (beacon_one g s' wall a) wall now as' there known in
      rw (ha, ka) (fine, rw (dues, periods) at result, kept ∙ periods)

  pub All-HasKey-map :
      (d periods : Dict ℕ ℕ) (as' : List ℕ)
      → ((a t : ℕ) → Dict.get d a ≡ some t → (p : ℕ) × (Dict.get periods a ≡ some p))
      → All (HasKey d) as'
      → All (HasKey periods) as'
  All-HasKey-map d periods [] f h = tt
  All-HasKey-map d periods (a ∷ as') f h = (f a h.0.0 h.0.1, All-HasKey-map d periods as' f h.1)

  -- Each APID of the schedule has a period.
  abbrev pub IsScheduled : SimServer E → Type 0
  IsScheduled s =
      (a t : ℕ) → Dict.get s.next_due a ≡ some t → (p : ℕ) × (Dict.get s.tlm_periods a ≡ some p)

  -- When each APID stands once in the schedule and has a period, a pass of the beacon raises nothing. An
  -- APID with a period above zero that was due is due next a period after it was, or a period from now if
  -- that is past; one that was not due keeps its time; after the pass it is not due. The pass numbers a
  -- history of packets, in which that of the APID stands once at most, and not at all if it was not due.
  pub emit_due_packets-paced :
      (s : SimServer E) (wall now apid t period : ℕ)
      → DistinctKeys s.next_due
      → IsScheduled s
      → Dict.get s.next_due apid ≡ some t
      → Dict.get s.tlm_periods apid ≡ some period
      → 0 < period
      → ((emit_due_packets g s wall now).0 ≡ none)
        × (u : ℕ) × (Dict.get (emit_due_packets g s wall now).1.next_due apid ≡ some u)
        × (now < u)
        × (u ≡ (
            if leb t now then (if leb (t + period) now then now + period else t + period) else t))
        × (history : List ℕ) × ((emit_due_packets g s wall now).1.seq ≡ after s.seq history)
        × (uses apid history ≤ (if leb t now then 1 else 0))
  unfolding emit_due_packets
  emit_due_packets-paced s wall now apid t period distinct scheduled due known positive =
      let apids = sort itself (due_apids s.next_due now) in
      let here =
        All-sort itself (HasKey s.next_due) (due_apids s.next_due now)
          (due_apids-HasKey s.next_due now) in
      let there = All-HasKey-map s.next_due s.tlm_periods apids scheduled here in
      let (fine, result, kept) = emit_all-paced s wall now apids here there in
      let time = get-paced s.next_due s.tlm_periods now apid t period apids here there due known in
      let once =
        with_key-sort itself apid (due_apids s.next_due now)
        ∙ due_once s.next_due now apid t distinct due in
      let (history, counts, few) = emit_all-Numbered g s wall now apids in
      let often = few apid in
      elim (Bool-cases (leb t now)) [
        | inl e ↦ (
          fine,
          next_time t period now,
          rw result (time ∙ rw (once, e) refl),
          later t period now positive,
          rw e refl,
          history,
          counts,
          rw e (rw (once, e) at often),
        )
        | inr e ↦ (
          fine,
          t,
          rw result (time ∙ rw (once, e) refl),
          ground (arith, e),
          rw e refl,
          history,
          counts,
          rw e (rw (once, e) at often),
        )
      ]
