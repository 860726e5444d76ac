-- ===== src/Server/Link.antt =====
-- The link conventions of xtce_sim/server.py: the beacon gate, the periods, the downlink session and
-- the snapshot.
pub mod Periods
use xtce_sim.Prelude.{
  ℕ, ◌+◌, ◌*◌, List, [], ◌∷◌, length, Option, none, some, Bool, true, false, ◌&&◌, ◌||◌, not, leb,
  ltb, ◌==◌, if◌then◌else◌, is_some,
}
use xtce_sim.Prelude.Int.{ℤ, pos, negsuc, int_eq}
use xtce_sim.Prelude.Texts.{codes}
use xtce_sim.Prelude.Equality.{list_eq, list_beq, nat_eq}
use xtce_sim.Prelude.Dict
use xtce_sim.Prelude.Dict.{Dict}
use xtce_sim.Utf8.{Text}
use xtce_sim.Schema.{ParamInfo, CommandDef}
use xtce_sim.Definition.{Decoded, flag as as_flag, label, raw as as_raw, foreign, resolve_enum_arg}
use xtce_sim.Codec.{Value, int, flag, text, raw}
use xtce_sim.Codec.Command.{is_enumerated}
use xtce_sim.SeqService.{param_named}
use xtce_sim.Server.{Setup, SimServer, packet_by_apid}
use xtce_sim.Server.Beacon.{event_only, beacon_packets}

-- An argument as `resolve_enum_arg` sees it.
abbrev pub decoded_arg : Option Value → Decoded ℤ
decoded_arg none = foreign
decoded_arg (some (int z)) = as_raw z
decoded_arg (some (flag b)) = as_flag b
decoded_arg (some (text l)) = label l
decoded_arg (some (raw b)) = foreign

abbrev resolved_by : Option ParamInfo → Option Value → Option (Text × ℤ)
resolved_by none v = none
resolved_by (some p) v =
    if is_enumerated p then resolve_enum_arg p.enumerations (decoded_arg v) else none

-- The argument of that name, resolved through the enumeration of its parameter.
unfoldable pub resolved : CommandDef → Dict Text Value → Text → Option (Text × ℤ)
resolved c args name = resolved_by (param_named c.params name) (Dict.get args name)

-- `{"ENABLE": True, "DISABLE": False}.get(...)`
abbrev pub wanted : Option (Text × ℤ) → Option Bool
wanted none = none
wanted (some (l, z)) =
    if list_beq l (codes "ENABLE")
    then some true
    else if list_beq l (codes "DISABLE")
    then some false
    else none

-- The APID that a label of a packet stands for.
abbrev pub apid_in : Option (Text × ℤ) → Option ℕ
apid_in none = none
apid_in (some (l, pos n)) = some n
apid_in (some (l, negsuc n)) = none

-- A usable period, in milliseconds.
abbrev pub usable_period : Option Value → Option ℕ
usable_period (some (int (pos n))) = if n == 0 then none else some n
usable_period v = none

-- `_TLM_PERIOD_FLOOR_S`, in milliseconds
abbrev pub tlm_period_floor : ℕ
tlm_period_floor = 50

abbrev priority_or : Text → Option (Text × ℤ) → Text
priority_or was none = was
priority_or was (some (l, z)) = l

abbrev pub is_downlink : Text → Bool
is_downlink name = list_beq name (codes "DOWNLINK_START") || list_beq name (codes "DOWNLINK_STOP")

module _ {E : Type 0} where
  -- `_set_beacon_enabled`
  unfoldable pub set_beacon_enabled : SimServer E → CommandDef → Dict Text Value → SimServer E
  unfolding resolved
  set_beacon_enabled s c args = elim (wanted (resolved c args (codes "BeaconState"))) [
    | none ↦ s
    | some false ↦ record s { beacon_enabled = false }
    | some true ↦ record s { beacon_enabled = true; beacon_wake = true }
  ]

  is_event_apid : Setup E → SimServer E → ℕ → Bool
  is_event_apid g s apid = elim (packet_by_apid g.simdef.packets apid) [
    | none ↦ false
    | some p ↦ event_only s.file_service p
  ]

  abbrev pub retimed : SimServer E → ℕ → ℕ → SimServer E
  retimed s apid period_ms = record s {
    tlm_periods = Dict.put s.tlm_periods apid (period_ms * 1000);
    next_due = Dict.put s.next_due apid 0;
    beacon_wake = true;
  }

  -- `_set_tlm_period` with the packet and the period that it has found.
  unfoldable pub retime : Setup E → SimServer E → Option ℕ → Option ℕ → SimServer E
  unfolding is_event_apid
  retime g s (some apid) (some period_ms) =
      if not (is_some (Dict.get s.tlm_periods apid))
        || ltb period_ms tlm_period_floor
        || is_event_apid g s apid
      then s
      else retimed s apid period_ms
  retime g s (some apid) none = s
  retime g s none period_ms = s

  unfoldable pub set_tlm_period : Setup E → SimServer E → CommandDef → Dict Text Value → SimServer E
  unfolding retime resolved
  set_tlm_period g s c args =
      retime g s (apid_in (resolved c args (codes "Packet")))
        (usable_period (Dict.get args (codes "PeriodMs")))

  -- `_set_downlink`
  unfoldable pub set_downlink : SimServer E → CommandDef → Dict Text Value → SimServer E
  unfolding resolved
  set_downlink s c args =
      if list_beq c.name (codes "DOWNLINK_STOP")
      then record s { downlink_active = false }
      else record s {
        downlink_priority = priority_or s.downlink_priority (resolved c args (codes "Priority"));
        downlink_active = true;
      }

  -- `_apply_link_conventions`
  unfoldable pub apply_link_conventions :
      Setup E → SimServer E → ℕ → CommandDef → Dict Text Value → SimServer E
  unfolding set_beacon_enabled set_tlm_period set_downlink
  apply_link_conventions g s wall c args =
      let s1 = if list_beq c.name (codes "ENABLE_BEACON") then set_beacon_enabled s c args else s in
      let s2 = if list_beq c.name (codes "SET_TLM_RATE") then set_tlm_period g s1 c args else s1 in
      let s3 = if is_downlink c.name then set_downlink s2 c args else s2 in
      if list_beq c.name (codes "GET_STATUS")
      then (beacon_packets g s3 wall g.simdef.packets).1
      else s3
