-- ===== src/Server/Dispatch/Downlink.antt =====
-- The rows of packets that xtce_sim/server.py sends leave all of its state but counts and queues.
use xtce_sim.Prelude.{ℕ, ◌≡◌, refl, List, [], ◌∷◌, Option, none, some, Bool-cases, inl, inr}
use xtce_sim.Schema.{PacketDef}
use xtce_sim.FileService.{FileService, Receipt}
use xtce_sim.Server.{Setup, SimServer, Effect, guarded, send_packet}
use xtce_sim.Server.Queues.{Downlinked, Downlinked-same, Downlinked-trans, send_packet-Downlinked}
use xtce_sim.Server.Beacon.{event_only, added, beacon_packets, receipt_apid}
use xtce_sim.Server.Dispatch.{
  receipt_dict, send_all, send_receipts_as, send_file_receipts, emit_immediate, emit_status,
}

module _ {E : Type 0} (g : Setup E) where
  pub emit_immediate-Downlinked :
      (s : SimServer E) (wall : ℕ) (apids : List ℕ) → Downlinked g s (emit_immediate g s wall apids)
  unfolding emit_immediate
  emit_immediate-Downlinked s wall [] = Downlinked-same g s
  emit_immediate-Downlinked s wall (apid ∷ apids) =
      let s' = guarded (send_packet g s wall apid none none) in
      Downlinked-trans g s s' (emit_immediate g s' wall apids)
        (send_packet-Downlinked g s wall apid none none) (emit_immediate-Downlinked s' wall apids)

  send_all-Downlinked :
      (s : SimServer E) (wall apid : ℕ) (rs : List Receipt)
      → Downlinked g s (send_all g s wall apid rs)
  unfolding send_all
  send_all-Downlinked s wall apid [] = Downlinked-same g s
  send_all-Downlinked s wall apid (r ∷ rs) =
      let s' = guarded (send_packet g s wall apid (some (receipt_dict r)) none) in
      Downlinked-trans g s s' (send_all g s' wall apid rs)
        (send_packet-Downlinked g s wall apid (some (receipt_dict r)) none)
        (send_all-Downlinked s' wall apid rs)

  send_receipts_as-Downlinked :
      (s : SimServer E) (wall : ℕ) (rs : List Receipt) (apid : Option ℕ)
      → Downlinked g s (send_receipts_as g s wall rs apid)
  unfolding send_receipts_as
  send_receipts_as-Downlinked s wall rs none = Downlinked-same g s
  send_receipts_as-Downlinked s wall rs (some apid) = send_all-Downlinked s wall apid rs

  pub send_file_receipts-Downlinked :
      (s : SimServer E) (wall : ℕ) (f : FileService) (rs : List Receipt)
      → Downlinked g s (send_file_receipts g s wall f rs)
  unfolding send_file_receipts
  send_file_receipts-Downlinked s wall f rs = send_receipts_as-Downlinked s wall rs (receipt_apid f)

  pub emit_status-Downlinked :
      (s : SimServer E) (wall : ℕ) (ps : List PacketDef) → Downlinked g s (emit_status g s wall ps)
  unfolding emit_status
  emit_status-Downlinked s wall [] = Downlinked-same g s
  emit_status-Downlinked s wall (p ∷ ps) =
      let s' = guarded (send_packet g s wall p.apid none none) in
      Downlinked-trans g s s' (emit_status g s' wall ps)
        (send_packet-Downlinked g s wall p.apid none none) (emit_status-Downlinked s' wall ps)

  added-guarded : (r : Effect E) → (added r).1 ≡ guarded r
  added-guarded (none, s) = refl
  added-guarded (some e, s) = refl

  pub beacon_packets-Downlinked :
      (s : SimServer E) (wall : ℕ) (ps : List PacketDef)
      → Downlinked g s (beacon_packets g s wall ps).1
  unfolding beacon_packets
  beacon_packets-Downlinked s wall [] = Downlinked-same g s
  beacon_packets-Downlinked s wall (p ∷ ps) = elim (Bool-cases (event_only s.file_service p)) [
    | inl e ↦ rw e (beacon_packets-Downlinked s wall ps)
    | inr e ↦
        let r = send_packet g s wall p.apid none none in
        let s' = (added r).1 in
        let first : Downlinked g s s' =
          rw (added-guarded r) (send_packet-Downlinked g s wall p.apid none none) in
        rw e (
          Downlinked-trans g s s' (beacon_packets g s' wall ps).1 first
            (beacon_packets-Downlinked s' wall ps))
  ]
