-- ===== src/Server/Beacon/Once.antt =====
-- The packets that a pass of the beacon of xtce_sim/server.py numbers.
use xtce_sim.Prelude.{
  ℕ, ◌≤◌, ◌≡◌, refl, ◌∙◌, arith, List, [], ◌∷◌, length, ◌&&◌, ◌>>=◌, Option, none, some, Result, ok,
  err, Bool-cases, Option-cases, inl, inr, ◌⊎◌,
}
use xtce_sim.Prelude.Equality.{nat_eq}
use xtce_sim.Prelude.Dict
use xtce_sim.Prelude.Dict.{Dict}
use xtce_sim.Prelude.Sort.{itself, with_key}
use xtce_sim.Struct.{Bytes}
use xtce_sim.Codec.{Value}
use xtce_sim.Codec.Telemetry.{pack_telemetry}
use xtce_sim.Ccsds.Counter.{next, after, uses}
use xtce_sim.Utf8.{Text}
use xtce_sim.Server.{
  Setup, SimServer, Effect, guarded, ◌>>◌, counted, posted, wired, sent, values_or, packet_by_apid,
  send_packet,
}
use xtce_sim.Server.Beacon.{rearmed, rearm, transmits, is_periodic, beacon_one, emit_all}

module _ {E : Type 0} (g : Setup E) where
  -- Nothing was numbered, or one packet of that APID.
  abbrev NumberedOne : SimServer E → ℕ → SimServer E → Type 0
  NumberedOne s apid s' = (s'.seq ≡ s.seq) ⊎ (s'.seq ≡ (next s.seq apid).1)

  posted-NumberedOne :
      (s : SimServer E) (apid : ℕ) (wire : Result Bytes) (client : Option ℕ)
      → NumberedOne s apid (guarded (posted g (counted s apid) wire client))
  posted-NumberedOne s apid (err e) client = inr refl
  posted-NumberedOne s apid (ok wire) none = inr refl
  posted-NumberedOne s apid (ok wire) (some client) = inr refl

  sent-NumberedOne :
      (s : SimServer E) (apid : ℕ) (payload : Result Bytes) (client : Option ℕ)
      → NumberedOne s apid (guarded (sent g s apid payload client))
  sent-NumberedOne s apid (err e) client = inl refl
  sent-NumberedOne s apid (ok payload) client =
      posted-NumberedOne s apid (wired g apid payload (next s.seq apid).0) client

  send_packet-NumberedOne :
      (s : SimServer E) (wall apid : ℕ) (values : Option (Dict Text Value)) (client : Option ℕ)
      → NumberedOne s apid (guarded (send_packet g s wall apid values client))
  unfolding send_packet
  send_packet-NumberedOne s wall apid values client =
      elim (Option-cases (packet_by_apid g.simdef.packets apid)) [
        | inl e ↦ rw (send_packet, e) (inl refl)
        | inr (p, e) ↦
            rw (send_packet, e)
              (sent-NumberedOne s apid (values_or g s wall p values >>= λ vs. pack_telemetry p vs)
                client)
      ]

  beacon_one-NumberedOne :
      (s : SimServer E) (wall apid : ℕ) → NumberedOne s apid (beacon_one g s wall apid)
  unfolding beacon_one
  beacon_one-NumberedOne s wall apid =
      elim (Bool-cases
        (is_periodic s.file_service (packet_by_apid g.simdef.packets apid) && transmits s)) [
          | inl e ↦ rw e (send_packet-NumberedOne s wall apid none none)
          | inr e ↦ rw e (inl refl)
        ]

  -- The counts are those after a history of packets that has each APID at most as often as the row does.
  abbrev pub Numbered : SimServer E → List ℕ → SimServer E → Type 0
  Numbered s apids s' =
      (history : List ℕ) × (s'.seq ≡ after s.seq history)
      × ((a : ℕ) → uses a history ≤ length (with_key itself a apids))

  rearmed-seq :
      (s : SimServer E) (apid now : ℕ) (t period : Option ℕ)
      → (rearmed s apid now t period).1.seq ≡ s.seq
  unfolding rearmed
  rearmed-seq s apid now (some t) (some period) = refl
  rearmed-seq s apid now (some t) none = refl
  rearmed-seq s apid now none period = refl

  passed :
      (s : SimServer E) (wall now apid : ℕ) (apids : List ℕ) (r : Effect E)
      → r.1.seq ≡ s.seq
      → ((s' : SimServer E) → Numbered s' apids (emit_all g s' wall now apids).1)
      → Numbered s
          (apid ∷ apids)
          (r >> λ s'. emit_all g (beacon_one g s' wall apid) wall now apids).1
  unfolding after uses
  passed s wall now apid apids (some e, s') h more = ([], h, (λ a. omega arith))
  passed s wall now apid apids (none, s') h more =
      let (history, same, few) = more (beacon_one g s' wall apid) in
      elim (beacon_one-NumberedOne s' wall apid) [
        | inl e ↦ (history, same ∙ rw (e, h) refl, (λ a. ground (arith, few a)))
        | inr e ↦ (apid ∷ history, same ∙ rw (e, h) refl, (λ a. ground (arith, few a)))
      ]

  pub emit_all-Numbered :
      (s : SimServer E) (wall now : ℕ) (apids : List ℕ)
      → Numbered s apids (emit_all g s wall now apids).1
  unfolding emit_all after uses rearm rearmed
  emit_all-Numbered s wall now [] = ([], refl, (λ a. omega arith))
  emit_all-Numbered s wall now (apid ∷ apids) =
      passed s wall now apid apids (rearm s now apid)
        (rearmed-seq s apid now (Dict.get s.next_due apid) (Dict.get s.tlm_periods apid))
        (λ s'. emit_all-Numbered s' wall now apids)
