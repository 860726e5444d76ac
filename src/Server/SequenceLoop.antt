-- ===== src/Server/SequenceLoop.antt =====
-- The sequencer's waiter, `_sequence_loop` of xtce_sim/server.py, one pass at a time; while a pass runs,
-- no other task does.
pub mod Sound
use xtce_sim.Prelude.{
  ℕ, ◌+◌, ◌-◌, List, [], ◌∷◌, length, min, Option, none, some, Bool, true, false, ◌||◌, ltb,
  if◌then◌else◌,
}
use xtce_sim.Prelude.Dict.{Dict}
use xtce_sim.Utf8.{Text}
use xtce_sim.Schema.{CommandDef}
use xtce_sim.Codec.{Value}
use xtce_sim.Sequencer.{Fired, Sequencer}
use xtce_sim.Sequencer.Tick.{tick, next_deadline}
use xtce_sim.Server.{Setup, SimServer, Effect}
use xtce_sim.Server.Dispatch.{sequence_execute, emit_sequence_status}

abbrev pub sequencer_or : Sequencer → Option Sequencer → Sequencer
sequencer_or q none = q
sequencer_or q (some q') = q'

-- `_SEQ_SLEEP_CAP`
abbrev pub seq_sleep_cap : ℕ
seq_sleep_cap = 1000000

-- How long a pass waits at most, if it does not wait for a nudge only.
unfoldable pub sequence_timeout : Sequencer → ℕ → Option ℕ
sequence_timeout q now = elim (next_deadline q) [
  | none ↦ none
  | some t ↦ some (min (t - now) seq_sleep_cap)
]

module _ {E : Type 0} (g : Setup E)
    (command_handler : SimServer E → CommandDef → Dict Text Value → Effect E) where
  -- What `bind_executor` is given: the server with the sequencer as it is in the tick.
  unfoldable pub executor :
      ℕ → SimServer E → Sequencer → Text → Dict Text Text → Bool × (Sequencer × SimServer E)
  executor wall s q name args =
      let (accepted, s') =
        sequence_execute g command_handler (record s { sequencer = some q }) wall name args in
      (accepted, (sequencer_or q s'.sequencer, s'))

  abbrev pub reported :
      Bool → ℕ → Option (List Fired × (Sequencer × SimServer E)) → Option (List Fired × SimServer E)
  reported nudged now none = none
  reported nudged now (some (fired, (q, s))) =
      let s' = record s { sequencer = some q } in
      some (fired, if nudged || ltb 0 (length fired) then emit_sequence_status g s' now else s')

  -- `none` stands for a tick that runs out of fuel, or the exception of a missing entry.
  unfoldable pub sequence_pass : ℕ → SimServer E → Sequencer → ℕ → Option (List Fired × SimServer E)
  unfolding executor
  sequence_pass fuel s q now =
      reported s.seq_wake now (tick (executor now) fuel (record s { seq_wake = false }) q now)
