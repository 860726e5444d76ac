-- ===== src/Server/Beacon/Gate.antt =====
-- The gate of the beacon of xtce_sim/server.py.
use xtce_sim.Prelude.{
  ℕ, ◌≡◌, refl, ◌∙◌, List, [], ◌∷◌, Option, none, some, Bool, true, false, ◌&&◌, ltb, length,
}
use xtce_sim.Prelude.Equality.{nat_eq}
use xtce_sim.Prelude.Dict
use xtce_sim.Prelude.Dict.{Dict}
use xtce_sim.Prelude.Sort.{sort, itself}
use xtce_sim.Server.{Setup, SimServer, Effect, guarded, ◌>>◌, packet_by_apid}
use xtce_sim.Server.Beacon.{
  rearmed, rearm, is_periodic, beacon_one, due_apids, emit_all, emit_due_packets,
}

and_false : (a : Bool) → (a && false) ≡ false
and_false true = refl
and_false false = refl

module _ {E : Type 0} (g : Setup E) where
  -- The same counts and queues, and a gate that is shut.
  abbrev pub IsQuiet : SimServer E → SimServer E → Type 0
  IsQuiet s s' = (s'.clients ≡ s.clients) × (s'.seq ≡ s.seq) × (s'.beacon_enabled ≡ false)

  quiet_one :
      (s : SimServer E) (wall apid : ℕ) → s.beacon_enabled ≡ false → beacon_one g s wall apid ≡ s
  unfolding beacon_one
  quiet_one s wall apid off =
      rw
        (
          off,
          and_false (ltb 0 (length s.clients)),
          and_false (is_periodic s.file_service (packet_by_apid g.simdef.packets apid)),
        )
        refl

  rearmed-IsQuiet :
      (s : SimServer E) (apid now : ℕ) (t period : Option ℕ)
      → s.beacon_enabled ≡ false
      → IsQuiet s (guarded (rearmed s apid now t period))
  unfolding rearmed
  rearmed-IsQuiet s apid now (some t) (some period) off = (refl, refl, off)
  rearmed-IsQuiet s apid now (some t) none off = (refl, refl, off)
  rearmed-IsQuiet s apid now none period off = (refl, refl, off)

  IsQuiet-trans : (s s' s'' : SimServer E) → IsQuiet s s' → IsQuiet s' s'' → IsQuiet s s''
  IsQuiet-trans s s' s'' h k = (k.0 ∙ h.0, k.1 ∙ h.1, k.2)

  next-IsQuiet :
      (s : SimServer E) (r : Effect E) (f : SimServer E → Effect E)
      → IsQuiet s (guarded r)
      → ((s' : SimServer E) → s'.beacon_enabled ≡ false → IsQuiet s' (guarded (f s')))
      → IsQuiet s (guarded (r >> f))
  next-IsQuiet s (none, s') f h k = IsQuiet-trans s s' (guarded (f s')) h (k s' h.2)
  next-IsQuiet s (some e, s') f h k = h

  emit_all-IsQuiet :
      (s : SimServer E) (wall now : ℕ) (apids : List ℕ)
      → s.beacon_enabled ≡ false
      → IsQuiet s (guarded (emit_all g s wall now apids))
  unfolding emit_all rearm rearmed
  emit_all-IsQuiet s wall now [] off = (refl, refl, off)
  emit_all-IsQuiet s wall now (apid ∷ apids) off =
      next-IsQuiet s (rearm s now apid)
        (λ s'. emit_all g (beacon_one g s' wall apid) wall now apids)
        (rearmed-IsQuiet s apid now (Dict.get s.next_due apid) (Dict.get s.tlm_periods apid) off)
        (λ s' off'. rw (quiet_one s' wall apid off') (emit_all-IsQuiet s' wall now apids off'))

  -- While the beacon is disabled, no packet of a pass of the beacon is sent, or counted, and the pass
  -- leaves it disabled.
  pub emit_due_packets-IsQuiet :
      (s : SimServer E) (wall now : ℕ)
      → s.beacon_enabled ≡ false
      → IsQuiet s (guarded (emit_due_packets g s wall now))
  unfolding emit_due_packets
  emit_due_packets-IsQuiet s wall now off =
      emit_all-IsQuiet s wall now (sort itself (due_apids s.next_due now)) off
