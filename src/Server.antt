-- ===== src/Server.antt =====
-- `SimServer` of xtce_sim/server.py: its state, the packets it builds and the queues of its clients.
-- Times are in microseconds; the clock's readings are arguments. The tasks that write the queues to
-- the network, and log lines, are left out. The callables and the behaviour engine that the
-- constructor is given are fields of `Setup`; an absent one is one that answers nothing.
pub mod Receive
pub mod Beacon
pub mod Link
pub mod Dispatch
pub mod Queues
pub mod SequenceLoop
use xtce_sim.Prelude.{
  ℕ, ◌+◌, ◌*◌, List, [], ◌∷◌, ◌++◌, length, map, Option, none, some, Bool, true, false, ◌&&◌, not,
  Result, ok, err, Error, ◌>>=◌, leb, ltb, ◌==◌, if◌then◌else◌,
}
use xtce_sim.Prelude.Equality.{list_eq, nat_eq}
use xtce_sim.Prelude.Dict
use xtce_sim.Prelude.Dict.{Dict}
use xtce_sim.Struct.{Bytes}
use xtce_sim.Utf8.{Text}
use xtce_sim.Prelude.Texts.{codes}
use xtce_sim.Schema.{CommandDef, PacketDef, SimDefinition}
use xtce_sim.Codec.{Value}
use xtce_sim.Codec.Telemetry.{pack_telemetry}
use xtce_sim.Ccsds.Counter.{next}
use xtce_sim.Ccsds.Packets.{build_telemetry_packet, build_command_echo, EchoStatus, cmd_echo_apid}
use xtce_sim.Ccsds.Frame.{frame}
use xtce_sim.FileStore.{FileStore}
use xtce_sim.FileService.{FileService}
use xtce_sim.Sequencer.{Sequencer}
use xtce_sim.SeqService.{values_for}

-- What the constructor is given and nothing changes.
pub record Setup (E : Type 0) : Type 0 where
  pub simdef : SimDefinition
  pub queue_maxsize : ℕ
  pub beacon_interval : ℕ
  pub crc16 : Bytes → ℕ
  -- What `datetime.fromisoformat` answers.
  pub from_iso : Text → Option ℕ
  pub telemetry_source : PacketDef → Result (Dict Text Value)
  -- The store of the sequence service where there is no file service to share one with.
  pub plans : FileStore
  -- The methods of the behaviour engine; one that raises may have changed the engine.
  pub engine_values : E → PacketDef → Result (Dict Text Value)
  pub engine_tick : ℕ → E → Option Error × E
  pub engine_apply : E → CommandDef → Dict Text Value → Option Error × E
  pub engine_pop : E → List ℕ × E

-- A client is its key and the packets in its queue.
pub record SimServer (E : Type 0) : Type 0 where
  pub beacon_enabled : Bool
  pub downlink_active : Bool
  pub downlink_priority : Text
  pub tlm_periods : Dict ℕ ℕ
  pub next_due : Dict ℕ ℕ
  pub beacon_wake : Bool
  pub seq_wake : Bool
  pub clients : Dict ℕ (List Bytes)
  pub seq : Dict ℕ ℕ
  pub engine : E
  pub file_service : Option FileService
  pub sequencer : Option Sequencer
  pub uplink_warned : Bool

-- `p.period_s or beacon_interval`
abbrev pub period_or : ℕ → Option ℕ → ℕ
period_or interval none = interval
period_or interval (some t) = if t == 0 then interval else t

unfoldable pub first_periods : ℕ → List PacketDef → Dict ℕ ℕ → Dict ℕ ℕ
first_periods interval [] d = d
first_periods interval (p ∷ ps) d =
    first_periods interval ps (Dict.put d p.apid (period_or interval p.period))

-- `dict.fromkeys(d, 0.0)`
unfoldable pub all_zero : Dict ℕ ℕ → Dict ℕ ℕ
all_zero [] = []
all_zero ((k, v) ∷ d) = (k, 0) ∷ all_zero d

-- `SimDefinition.packet_by_apid`
unfoldable pub packet_by_apid : List PacketDef → ℕ → Option PacketDef
packet_by_apid [] apid = none
packet_by_apid (p ∷ ps) apid = if p.apid == apid then some p else packet_by_apid ps apid

-- `{**base, **overlay}`
unfoldable pub merged : Dict Text Value → Dict Text Value → Dict Text Value
merged base [] = base
merged base ((k, v) ∷ overlay) = merged (Dict.put base k v) overlay

abbrev pub sequence_values : SimDefinition → Option Sequencer → ℕ → PacketDef → Dict Text Value
sequence_values simdef none now p = []
sequence_values simdef (some q) now p = values_for simdef q now p

-- Whether `put_nowait` raises QueueFull; a size of 0 is no bound.
abbrev pub is_full : ℕ → List Bytes → Bool
is_full maxsize queue = ltb 0 maxsize && leb maxsize (length queue)

-- `_enqueue` for each client: one that can't keep up is dropped.
unfoldable pub enqueue_all : ℕ → Bytes → Dict ℕ (List Bytes) → Dict ℕ (List Bytes)
enqueue_all maxsize wire [] = []
enqueue_all maxsize wire ((client, queue) ∷ clients) =
    let rest = enqueue_all maxsize wire clients in
    if is_full maxsize queue then rest else (client, queue ++ (wire ∷ [])) ∷ rest

-- `_enqueue` for one client.
unfoldable pub enqueue_one : ℕ → Bytes → Dict ℕ (List Bytes) → ℕ → Dict ℕ (List Bytes)
enqueue_one maxsize wire clients client = elim (Dict.get clients client) [
  | none ↦ clients
  | some queue ↦
      if is_full maxsize queue
      then Dict.remove clients client
      else Dict.put clients client (queue ++ (wire ∷ []))
]

-- The exception that a method raises, if any, and the server after it.
abbrev pub Effect : Type 0 → Type 0
Effect E = Option Error × SimServer E

module _ {E : Type 0} where
  abbrev pub done : SimServer E → Effect E
  done s = (none, s)

  -- The next statement, where no exception was raised.
  infixl 5 ◌>>◌
  abbrev pub ◌>>◌ : Effect E → (SimServer E → Effect E) → Effect E
  (some e, s) >> f = (some e, s)
  (none, s) >> f = f s

  -- `except Exception`, logged.
  abbrev pub guarded : Effect E → SimServer E
  guarded (raised, s) = s

  -- `SimServer.__init__`
  unfoldable pub new_server : Setup E → E → Option FileService → Option Sequencer → SimServer E
  unfolding first_periods all_zero
  new_server g engine files sequencer =
      let periods = first_periods g.beacon_interval g.simdef.packets [] in
      record {
        beacon_enabled = true;
        downlink_active = false;
        downlink_priority = codes "NORMAL";
        tlm_periods = periods;
        next_due = all_zero periods;
        beacon_wake = false;
        seq_wake = false;
        clients = [];
        seq = [];
        engine = engine;
        file_service = files;
        sequencer = sequencer;
        uplink_warned = false;
      }

  -- `_packet_values`; its None and an empty dict pack alike.
  unfoldable pub packet_values : Setup E → SimServer E → ℕ → PacketDef → Result (Dict Text Value)
  unfolding merged
  packet_values g s now p = do
    base ← g.telemetry_source p
    overlay ← g.engine_values s.engine p
    ok (merged (merged base overlay) (sequence_values g.simdef s.sequencer now p))

  -- The end of `send_packet`: to one client, or to all.
  abbrev pub delivered : Setup E → SimServer E → Bytes → Option ℕ → SimServer E
  delivered g s wire none = record s { clients = enqueue_all g.queue_maxsize wire s.clients }
  delivered g s wire (some client) = record s {
    clients = enqueue_one g.queue_maxsize wire s.clients client;
  }

  abbrev pub counted : SimServer E → ℕ → SimServer E
  counted s apid = record s { seq = (next s.seq apid).1 }

  abbrev pub posted : Setup E → SimServer E → Result Bytes → Option ℕ → Effect E
  posted g s (err e) client = (some e, s)
  posted g s (ok wire) client = done (delivered g s wire client)

  -- A packet on the wire, with the count that it gets.
  abbrev pub wired : Setup E → ℕ → Bytes → ℕ → Result Bytes
  wired g apid payload count = build_telemetry_packet apid payload count >>= λ p. frame g.crc16 p

  abbrev pub sent : Setup E → SimServer E → ℕ → Result Bytes → Option ℕ → Effect E
  sent g s apid (err e) client = (some e, s)
  sent g s apid (ok payload) client =
      posted g (counted s apid) (wired g apid payload (next s.seq apid).0) client

  abbrev pub values_or :
      Setup E → SimServer E → ℕ → PacketDef → Option (Dict Text Value) → Result (Dict Text Value)
  values_or g s now p none = packet_values g s now p
  values_or g s now p (some values) = ok values

  -- `send_packet`
  unfoldable pub send_packet :
      Setup E → SimServer E → ℕ → ℕ → Option (Dict Text Value) → Option ℕ → Effect E
  unfolding packet_by_apid packet_values
  send_packet g s now apid values client = elim (packet_by_apid g.simdef.packets apid) [
    | none ↦ done s
    | some p ↦ sent g s apid (values_or g s now p values >>= λ vs. pack_telemetry p vs) client
  ]

  -- `_echo_command`
  unfoldable pub echo_command : Setup E → SimServer E → Bytes → EchoStatus → SimServer E
  echo_command g s packet status = guarded (
      posted g (counted s cmd_echo_apid)
        (build_command_echo packet status (next s.seq cmd_echo_apid).0 >>= λ p. frame g.crc16 p)
        none)
