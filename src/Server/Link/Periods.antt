-- ===== src/Server/Link/Periods.antt =====
-- The schedule of xtce_sim/server.py stays one that the beacon can pace by.
use xtce_sim.Prelude.{
  ℕ, ◌*◌, ◌≤◌, ◌<◌, ◌≡◌, refl, ◌∙◌, arith, List, [], ◌∷◌, Option, none, some, Bool, true, false,
  ltb, ◌==◌, ◌||◌, not, if◌then◌else◌, Bool-cases, Option-cases, inl, inr, is_some,
}
use xtce_sim.Prelude.Texts.{codes}
use xtce_sim.Prelude.Equality.{nat_eq, list_eq, list_beq}
use xtce_sim.Prelude.Dict
use xtce_sim.Prelude.Dict.{Dict, get-put}
use xtce_sim.Prelude.Sort.{sort, itself, All-sort}
use xtce_sim.Utf8.{Text}
use xtce_sim.Schema.{CommandDef, PacketDef}
use xtce_sim.Codec.{Value}
use xtce_sim.FileService.{FileService}
use xtce_sim.Sequencer.{Sequencer}
use xtce_sim.Server.{Setup, SimServer, guarded, new_server, first_periods, all_zero, period_or}
use xtce_sim.Server.Queues.{Downlinked}
use xtce_sim.Server.Beacon.{due_apids, emit_due_packets, next_time, beacon_packets}
use xtce_sim.Server.Beacon.Pacing.{
  DistinctKeys, HasKey, due_apids-HasKey, paced, rearmed_dict, emit_all-paced, All-HasKey-map,
}
use xtce_sim.Server.Dispatch.Downlink.{beacon_packets-Downlinked}
use xtce_sim.Server.Link.{
  apply_link_conventions, set_beacon_enabled, set_tlm_period, set_downlink, retime, wanted,
  resolved, is_downlink, is_event_apid, tlm_period_floor, apid_in, usable_period,
}

-- Two dicts, of due times and of periods: the keys of the first stand once, each has a period, and no
-- period is zero.
abbrev pub IsTimetable : Dict ℕ ℕ → Dict ℕ ℕ → Type 0
IsTimetable due periods =
    DistinctKeys due
    × ((a t : ℕ) → Dict.get due a ≡ some t → (p : ℕ) × (Dict.get periods a ≡ some p))
    × ((a p : ℕ) → Dict.get periods a ≡ some p → 0 < p)

absent_put :
    (d : Dict ℕ ℕ) (k v j : ℕ)
    → (k == j) ≡ false
    → Dict.get d j ≡ none
    → Dict.get (Dict.put d k v) j ≡ none
absent_put d k v j other h = get-put d k j v ∙ rw other h

put-DistinctKeys : (d : Dict ℕ ℕ) (k v : ℕ) → DistinctKeys d → DistinctKeys (Dict.put d k v)
unfolding Dict.put
put-DistinctKeys [] k v h = (unfold Dict.get in refl, tt)
put-DistinctKeys ((j, w) ∷ d) k v h = elim (Bool-cases (j == k)) [
  | inl e ↦ let same : j ≡ k = ground (arith, e) in rw e (rw same at h.0, h.1)
  | inr e ↦ rw e (absent_put d k v j (ground (arith, e)) h.0, put-DistinctKeys d k v h.1)
]

-- One due time is set, of an APID that has a period.
due-IsTimetable :
    (due periods : Dict ℕ ℕ) (a t p : ℕ)
    → IsTimetable due periods
    → Dict.get periods a ≡ some p
    → IsTimetable (Dict.put due a t) periods
due-IsTimetable due periods a t p (distinct, known, positive) has =
    (put-DistinctKeys due a t distinct, still, positive)
  where
    still :
        (b u : ℕ) → Dict.get (Dict.put due a t) b ≡ some u → (q : ℕ) × (Dict.get periods b ≡ some q)
    still b u h = elim (Bool-cases (a == b)) [
      | inl e ↦ let same : a ≡ b = ground (arith, e) in (p, rw same at has)
      | inr e ↦ known b u (rw (get-put due a b t, e) at h)
    ]

-- One period is set, above zero.
period-IsTimetable :
    (due periods : Dict ℕ ℕ) (a p : ℕ)
    → IsTimetable due periods
    → 0 < p
    → IsTimetable due (Dict.put periods a p)
period-IsTimetable due periods a p (distinct, known, positive) more = (distinct, still, above)
  where
    still :
        (b u : ℕ) → Dict.get due b ≡ some u → (q : ℕ) × (Dict.get (Dict.put periods a p) b ≡ some q)
    still b u h = elim (Bool-cases (a == b)) [
      | inl e ↦ (p, get-put periods a b p ∙ rw e refl)
      | inr e ↦ let (q, has) = known b u h in (q, get-put periods a b p ∙ rw e has)
    ]

    above : (b q : ℕ) → Dict.get (Dict.put periods a p) b ≡ some q → 0 < q
    above b q h = elim (Bool-cases (a == b)) [
      | inl e ↦
          let same : p ≡ q = ground (arith, rw (get-put periods a b p, e) at h) in rw (← same) more
      | inr e ↦ positive b q (rw (get-put periods a b p, e) at h)
    ]

paced-IsTimetable :
    (due periods : Dict ℕ ℕ) (now : ℕ) (as' : List ℕ)
    → IsTimetable due periods
    → IsTimetable (paced due periods now as') periods
unfolding paced rearmed_dict
paced-IsTimetable due periods now [] h = h
paced-IsTimetable due periods now (a ∷ as') h = elim (Option-cases (Dict.get due a)) [
  | inl e ↦ rw e (paced-IsTimetable due periods now as' h)
  | inr (t, e) ↦
      let (p, f) = h.1 a t e in
      let due' = Dict.put due a (next_time t p now) in
      rw (e, f)
        (paced-IsTimetable due' periods now as'
          (due-IsTimetable due periods a (next_time t p now) p h f))
]

module _ {E : Type 0} where
  abbrev pub IsTimed : SimServer E → Type 0
  IsTimed s = IsTimetable s.next_due s.tlm_periods

  -- A pass of the beacon keeps the timetable one.
  pub emit_due_packets-IsTimed :
      (g : Setup E) (s : SimServer E) (wall now : ℕ)
      → IsTimed s
      → IsTimed (guarded (emit_due_packets g s wall now))
  unfolding emit_due_packets
  emit_due_packets-IsTimed g s wall now h =
      let apids = sort itself (due_apids s.next_due now) in
      let here =
        All-sort itself (HasKey s.next_due) (due_apids s.next_due now)
          (due_apids-HasKey s.next_due now) in
      let there = All-HasKey-map g s.next_due s.tlm_periods apids h.1 here in
      let (fine, result, kept) = emit_all-paced g s wall now apids here there in
      rw (result, kept) (paced-IsTimetable s.next_due s.tlm_periods now apids h)

  retime-IsTimed :
      (g : Setup E) (s : SimServer E) (apid period_ms : Option ℕ)
      → IsTimed s
      → IsTimed (retime g s apid period_ms)
  unfolding retime
  retime-IsTimed g s none period_ms h = h
  retime-IsTimed g s (some apid) none h = h
  retime-IsTimed g s (some apid) (some ms) h =
      elim (Bool-cases (
        not (is_some (Dict.get s.tlm_periods apid))
        || ltb ms tlm_period_floor
        || is_event_apid g s apid)) [
          | inl e ↦ rw e h
          | inr e ↦
              let slow : 50 ≤ ms =
                above (not (is_some (Dict.get s.tlm_periods apid))) ms (is_event_apid g s apid) e in
              let periods = Dict.put s.tlm_periods apid (ms * 1000) in
              rw e (
                due-IsTimetable s.next_due periods apid 0 (ms * 1000)
                  (period-IsTimetable s.next_due s.tlm_periods apid (ms * 1000) h
                    (omega (arith, slow)))
                  (get-put s.tlm_periods apid apid (ms * 1000) ∙ ground arith))
        ]
    where
      above : (a : Bool) (ms : ℕ) (b : Bool) → (a || ltb ms tlm_period_floor || b) ≡ false → 50 ≤ ms
      above a ms b e = ground (arith, e)

  if-IsTimed : (b : Bool) (s t : SimServer E) → IsTimed t → IsTimed s → IsTimed (if b then t else s)
  if-IsTimed true s t h k = h
  if-IsTimed false s t h k = k

  set_beacon_enabled-IsTimed :
      (s : SimServer E) (c : CommandDef) (args : Dict Text Value)
      → IsTimed s
      → IsTimed (set_beacon_enabled s c args)
  unfolding set_beacon_enabled
  set_beacon_enabled-IsTimed s c args h =
      elim (Option-cases (wanted (resolved c args (codes "BeaconState")))) [
        | inl e ↦ rw (set_beacon_enabled, e) h
        | inr (true, e) ↦ rw (set_beacon_enabled, e) h
        | inr (false, e) ↦ rw (set_beacon_enabled, e) h
      ]

  set_downlink-IsTimed :
      (s : SimServer E) (c : CommandDef) (args : Dict Text Value)
      → IsTimed s
      → IsTimed (set_downlink s c args)
  unfolding set_downlink
  set_downlink-IsTimed s c args h = elim (Bool-cases (list_beq c.name (codes "DOWNLINK_STOP"))) [
    | inl e ↦ rw e h
    | inr e ↦ rw e h
  ]

  Downlinked-IsTimed :
      (g : Setup E) (s s' : SimServer E) → Downlinked g s s' → IsTimed s → IsTimed s'
  Downlinked-IsTimed g s s' (counts, queues, same, kept) h = rw same h

  -- The link conventions, and so SET_TLM_RATE, keep the timetable one: no commanded period is zero, and no
  -- packet gets a due time without a period.
  pub apply_link_conventions-IsTimed :
      (g : Setup E) (s : SimServer E) (wall : ℕ) (c : CommandDef) (args : Dict Text Value)
      → IsTimed s
      → IsTimed (apply_link_conventions g s wall c args)
  unfolding apply_link_conventions set_tlm_period
  apply_link_conventions-IsTimed g s wall c args h =
      let s1 = if list_beq c.name (codes "ENABLE_BEACON") then set_beacon_enabled s c args else s in
      let s2 = if list_beq c.name (codes "SET_TLM_RATE") then set_tlm_period g s1 c args else s1 in
      let s3 = if is_downlink c.name then set_downlink s2 c args else s2 in
      let h1 =
        if-IsTimed (list_beq c.name (codes "ENABLE_BEACON")) s (set_beacon_enabled s c args)
          (set_beacon_enabled-IsTimed s c args h) h in
      let timed =
        retime-IsTimed g s1 (apid_in (resolved c args (codes "Packet")))
          (usable_period (Dict.get args (codes "PeriodMs"))) h1 in
      let h2 =
        if-IsTimed (list_beq c.name (codes "SET_TLM_RATE")) s1 (set_tlm_period g s1 c args) timed
          h1 in
      let h3 =
        if-IsTimed (is_downlink c.name) s2 (set_downlink s2 c args)
          (set_downlink-IsTimed s2 c args h2) h2 in
      let s4 = (beacon_packets g s3 wall g.simdef.packets).1 in
      if-IsTimed (list_beq c.name (codes "GET_STATUS")) s3 s4
        (Downlinked-IsTimed g s3 s4 (beacon_packets-Downlinked g s3 wall g.simdef.packets) h3) h3

-- The timetable of the constructor.
all_zero-none : (d : Dict ℕ ℕ) (k : ℕ) → Dict.get d k ≡ none → Dict.get (all_zero d) k ≡ none
unfolding all_zero Dict.get
all_zero-none [] k h = refl
all_zero-none ((j, v) ∷ d) k h = elim (Bool-cases (j == k)) [
  | inl e ↦ absurd (ground (arith, rw e at h))
  | inr e ↦ rw e (all_zero-none d k (rw e at h))
]

all_zero-DistinctKeys : (d : Dict ℕ ℕ) → DistinctKeys d → DistinctKeys (all_zero d)
unfolding all_zero
all_zero-DistinctKeys [] h = tt
all_zero-DistinctKeys ((j, v) ∷ d) h = (all_zero-none d j h.0, all_zero-DistinctKeys d h.1)

all_zero-known :
    (d : Dict ℕ ℕ) (k t : ℕ) → Dict.get (all_zero d) k ≡ some t → (p : ℕ) × (Dict.get d k ≡ some p)
unfolding all_zero Dict.get
all_zero-known [] k t h = absurd (ground (arith, h))
all_zero-known ((j, v) ∷ d) k t h = elim (Bool-cases (j == k)) [
  | inl e ↦ (v, rw e refl)
  | inr e ↦ let (p, f) = all_zero-known d k t (rw e at h) in (p, rw e f)
]

period_or-positive :
    (interval : ℕ) (period : Option ℕ) → 0 < interval → 0 < period_or interval period
period_or-positive interval none h = h
period_or-positive interval (some t) h = ground (arith, h)

-- Keys once, and no period of zero.
abbrev IsStart : Dict ℕ ℕ → Type 0
IsStart d = DistinctKeys d × ((a p : ℕ) → Dict.get d a ≡ some p → 0 < p)

put-IsStart : (d : Dict ℕ ℕ) (k p : ℕ) → IsStart d → 0 < p → IsStart (Dict.put d k p)
put-IsStart d k p (distinct, positive) more = (put-DistinctKeys d k p distinct, above)
  where
    above : (b q : ℕ) → Dict.get (Dict.put d k p) b ≡ some q → 0 < q
    above b q h = elim (Bool-cases (k == b)) [
      | inl e ↦ let same : p ≡ q = ground (arith, rw (get-put d k b p, e) at h) in rw (← same) more
      | inr e ↦ positive b q (rw (get-put d k b p, e) at h)
    ]

first_periods-IsStart :
    (interval : ℕ) (ps : List PacketDef) (d : Dict ℕ ℕ)
    → 0 < interval
    → IsStart d
    → IsStart (first_periods interval ps d)
unfolding first_periods
first_periods-IsStart interval [] d more h = h
first_periods-IsStart interval (p ∷ ps) d more h =
    let first = period_or interval p.period in
    first_periods-IsStart interval ps (Dict.put d p.apid first) more
      (put-IsStart d p.apid first h (period_or-positive interval p.period more))

-- A new server has a timetable, if the interval of the beacon is not zero.
pub new_server-IsTimed :
    {E : Type 0} (g : Setup E) (engine : E) (files : Option FileService)
    (sequencer : Option Sequencer)
    → 0 < g.beacon_interval
    → IsTimed (new_server g engine files sequencer)
unfolding new_server
new_server-IsTimed g engine files sequencer more =
    let periods = first_periods g.beacon_interval g.simdef.packets [] in
    let start = first_periods-IsStart g.beacon_interval g.simdef.packets [] more (tt, nothing) in
    (all_zero-DistinctKeys periods start.0, all_zero-known periods, start.1)
  where
    nothing : (a p : ℕ) → Dict.get [] a ≡ some p → 0 < p
    nothing a p h = absurd (unfold Dict.get in ground (arith, h))
