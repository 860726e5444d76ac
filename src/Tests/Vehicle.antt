-- ===== src/Tests/Vehicle.antt =====
-- A vehicle for the tests: one command, one packet that is due, one client, and a store with one plan.
use xtce_sim.Prelude.{ℕ, [], ◌∷◌, none, some, true, false, ok}
use xtce_sim.Prelude.Int.{pos}
use xtce_sim.Prelude.Texts.{codes}
use xtce_sim.Prelude.Dict.{Dict}
use xtce_sim.Utf8.{Text}
use xtce_sim.Schema.{uint8, ParamInfo, CommandDef, PacketDef, SimDefinition, word, w1}
use xtce_sim.Codec.{Value, int}
use xtce_sim.FileStore.{FileStore}
use xtce_sim.Sequencer.{new_sequencer, SequenceEntry}
use xtce_sim.Server.{Setup, SimServer, Effect, done}

abbrev pub level : ParamInfo
level = record {
  name = codes "Level";
  size_bits = 8;
  python_type = uint8;
  valid_min = none;
  valid_max = some (pos 10);
  enumerations = [];
}

abbrev pub set_heater : CommandDef
set_heater = record {
  name = codes "SET_HEATER";
  opcode = 7;
  synthetic = false;
  params = level ∷ [];
}

abbrev pub packet_def : PacketDef
packet_def = record {
  name = codes "HK";
  apid = 5;
  fields =
      (record { name = codes "TEMP"; size_bits = 8; python_type = uint8; enumerations = [] }) ∷ [];
  struct_format = word false w1 ∷ [];
  period = some 1000000;
}

abbrev pub definition : SimDefinition
definition = record { commands = set_heater ∷ []; packets = packet_def ∷ [] }

abbrev pub level_args : Dict Text Value
level_args = (codes "Level", int (pos 3)) ∷ []

abbrev pub plan_name : Text
plan_name = codes "p.rts"

abbrev pub plan_text : Text
plan_text = codes "+2 SET_HEATER Level=3\n+1 SET_HEATER Level=4"

abbrev pub bad_text : Text
bad_text = codes "+2 SET_HEATER Level=3\n+1 SET_HEATER Level=40"

abbrev pub entry : SequenceEntry
entry = record {
  time = 2000000;
  command = codes "SET_HEATER";
  args = (codes "Level", codes "3") ∷ [];
  line = 1;
}

abbrev pub store : FileStore
store = record { files = (plan_name, plan_text) ∷ []; quota = 100 }

abbrev pub setup : Setup ℕ
setup = record {
  simdef = definition;
  queue_maxsize = 4;
  beacon_interval = 1000000;
  crc16 = λ b. 0;
  from_iso = λ s. none;
  telemetry_source = λ p. ok [];
  plans = store;
  engine_values = λ e p. ok [];
  engine_tick = λ t e. (none, e);
  engine_apply = λ e c args. (none, e);
  engine_pop = λ e. ([], e);
}

abbrev pub server : SimServer ℕ
server = record {
  beacon_enabled = true;
  downlink_active = false;
  downlink_priority = codes "NORMAL";
  tlm_periods = (5, 1000000) ∷ [];
  next_due = (5, 0) ∷ [];
  beacon_wake = false;
  seq_wake = false;
  clients = (1, []) ∷ [];
  seq = [];
  engine = 0;
  file_service = none;
  sequencer = some new_sequencer;
  uplink_warned = false;
}

abbrev pub handler : SimServer ℕ → CommandDef → Dict Text Value → Effect ℕ
handler s c args = done s
