-- ===== src/Server/Beacon.antt =====
-- The beacon of xtce_sim/server.py: `_emit_due_packets`, `_beacon_packets`, and one pass of
-- `_beacon_loop`. `now` is the monotonic clock and `wall` the clock of the status packets.
pub mod Pacing
pub mod Gate
pub mod Once
use xtce_sim.Prelude.{
  ℕ, suc, ◌+◌, ◌-◌, List, [], ◌∷◌, length, min, max, Option, none, some, Bool, true, false, ◌&&◌,
  not, Error, Result, ok, err, key_error, leb, ltb, ◌==◌, if◌then◌else◌,
}
use xtce_sim.Prelude.Equality.{nat_eq}
use xtce_sim.Prelude.Dict
use xtce_sim.Prelude.Dict.{Dict}
use xtce_sim.Prelude.Sort.{sort, itself}
use xtce_sim.Schema.{PacketDef, SimDefinition}
use xtce_sim.FileService.{FileService, ReceiptPacket}
use xtce_sim.Server.{Setup, SimServer, Effect, done, ◌>>◌, guarded, packet_by_apid, send_packet}

abbrev apid_of_receipt : Option ReceiptPacket → Option ℕ
apid_of_receipt none = none
apid_of_receipt (some r) = some r.apid

-- `receipt_apid`
abbrev pub receipt_apid : FileService → Option ℕ
receipt_apid f = apid_of_receipt f.receipt

abbrev is_apid : ℕ → Option ℕ → Bool
is_apid apid none = false
is_apid apid (some a) = apid == a

-- `_event_only`
abbrev pub event_only : Option FileService → PacketDef → Bool
event_only none p = false
event_only (some f) p = is_apid p.apid (receipt_apid f)

-- Whether a packet of that APID is one for the beacon.
abbrev pub is_periodic : Option FileService → Option PacketDef → Bool
is_periodic files none = false
is_periodic files (some p) = not (event_only files p)

-- `(a for a, t in next_due.items() if t <= now)`
unfoldable pub due_apids : Dict ℕ ℕ → ℕ → List ℕ
due_apids [] now = []
due_apids ((apid, t) ∷ d) now =
    let rest = due_apids d now in if leb t now then apid ∷ rest else rest

-- The time from which a packet is due next: paced from its due time, or from now if that is past.
abbrev pub next_time : ℕ → ℕ → ℕ → ℕ
next_time t period now = if leb (t + period) now then now + period else t + period

-- `min` of the values, if there are any.
abbrev sooner : ℕ → Option ℕ → Option ℕ
sooner t none = some t
sooner t (some u) = some (min t u)

unfoldable pub earliest : Dict ℕ ℕ → Option ℕ
earliest [] = none
earliest ((apid, t) ∷ d) = sooner t (earliest d)

module _ {E : Type 0} where
  unfoldable pub rearmed : SimServer E → ℕ → ℕ → Option ℕ → Option ℕ → Effect E
  rearmed s apid now (some t) (some period) =
      done (record s { next_due = Dict.put s.next_due apid (next_time t period now) })
  rearmed s apid now (some t) none = (some key_error, s)
  rearmed s apid now none period = (some key_error, s)

  abbrev pub rearm : SimServer E → ℕ → ℕ → Effect E
  unfolding rearmed
  rearm s now apid = rearmed s apid now (Dict.get s.next_due apid) (Dict.get s.tlm_periods apid)

  -- `self._clients and self.beacon_enabled`
  abbrev pub transmits : SimServer E → Bool
  transmits s = ltb 0 (length s.clients) && s.beacon_enabled

  unfoldable pub beacon_one : Setup E → SimServer E → ℕ → ℕ → SimServer E
  beacon_one g s wall apid =
      if is_periodic s.file_service (packet_by_apid g.simdef.packets apid) && transmits s
      then guarded (send_packet g s wall apid none none)
      else s

  -- The loop of `_emit_due_packets`.
  unfoldable pub emit_all : Setup E → SimServer E → ℕ → ℕ → List ℕ → Effect E
  unfolding beacon_one
  emit_all g s wall now [] = done s
  emit_all g s wall now (apid ∷ apids) =
      rearm s now apid >> λ s'. emit_all g (beacon_one g s' wall apid) wall now apids

  unfoldable pub emit_due_packets : Setup E → SimServer E → ℕ → ℕ → Effect E
  unfolding emit_all
  emit_due_packets g s wall now = emit_all g s wall now (sort itself (due_apids s.next_due now))

  abbrev pub added : Effect E → ℕ × SimServer E
  added (none, s) = (1, s)
  added (some e, s) = (0, s)

  -- `_beacon_packets` from some packet on, and how many were sent.
  unfoldable pub beacon_packets : Setup E → SimServer E → ℕ → List PacketDef → ℕ × SimServer E
  beacon_packets g s wall [] = (0, s)
  beacon_packets g s wall (p ∷ ps) =
      let skipped = beacon_packets g s wall ps in
      let (one, s') = added (send_packet g s wall p.apid none none) in
      let (more, s'') = beacon_packets g s' wall ps in
      if event_only s.file_service p then skipped else (one + more, s'')

  abbrev pub ticked : SimServer E → Option Error × E → SimServer E
  ticked s (raised, e) = record s { engine = e }

  -- What a pass of `_beacon_loop` does before it waits.
  unfoldable pub beacon_pass : Setup E → SimServer E → ℕ → ℕ → ℕ → Effect E
  unfolding emit_due_packets
  beacon_pass g s wall now last_tick =
      emit_due_packets g (ticked s (g.engine_tick (now - last_tick) s.engine)) wall now

  -- How long it then waits, at a reading of the clock.
  unfoldable pub beacon_delay : Setup E → SimServer E → ℕ → ℕ
  unfolding earliest
  beacon_delay g s now = elim (earliest s.next_due) [
    | none ↦ g.beacon_interval
    | some t ↦ max 10000 (t - now)
  ]
