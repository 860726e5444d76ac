-- ===== src/Server/SequenceLoop/Sound.antt =====
-- The sequencer stays sound in xtce_sim/server.py, whose dispatch is its executor.
use xtce_sim.Prelude.{
  ℕ, ◌≡◌, refl, List, length, Option, none, some, Bool, false, ◌||◌, ltb, Bool-cases, inl, inr,
}
use xtce_sim.Prelude.Dict.{Dict}
use xtce_sim.Utf8.{Text}
use xtce_sim.Schema.{CommandDef}
use xtce_sim.Codec.{Value}
use xtce_sim.Sequencer.{Fired, Sequencer}
use xtce_sim.Sequencer.Commands.Laws.{AllSound}
use xtce_sim.Sequencer.Tick.{tick}
use xtce_sim.Sequencer.Tick.Drain.{Leaves}
use xtce_sim.Sequencer.Tick.Sound.{RunsCommands, tick-AllSound}
use xtce_sim.SeqService.{status_packets}
use xtce_sim.SeqService.Commands.{Ran}
use xtce_sim.Server.{Setup, SimServer, Effect, guarded}
use xtce_sim.Server.Dispatch.{sequence_execute, emit_sequence_status}
use xtce_sim.Server.Dispatch.Downlink.{emit_status-Downlinked}
use xtce_sim.Server.Dispatch.Obeys.{Obeyed, Obeys}
use xtce_sim.Server.Dispatch.Executor.{sequence_execute-Obeys}
use xtce_sim.Server.SequenceLoop.{sequencer_or, executor, reported, sequence_pass}

Obeyed-or : (q : Sequencer) (o : Option Sequencer) → Obeyed (some q) o → Ran q (sequencer_or q o)
Obeyed-or q none h = absurd h
Obeyed-or q (some q') h = h

-- A pass that comes to its end leaves a sound sequencer.
abbrev pub LeavesSound : {E : Type 0} → Option (List Fired × SimServer E) → Type 0
LeavesSound none = Unit {0}
LeavesSound (some (fired, s)) = (q : Sequencer) × (s.sequencer ≡ some q) × AllSound q

module _ {E : Type 0} (g : Setup E)
    (command_handler : SimServer E → CommandDef → Dict Text Value → Effect E)
    (handler_obeys : (s : SimServer E) (c : CommandDef) (args : Dict Text Value)
      → Obeys g s (guarded (command_handler s c args))) where
  -- The server's dispatch acts on the sequencer by the sequencer's commands alone.
  pub executor-RunsCommands : (wall : ℕ) → RunsCommands (executor g command_handler wall)
  unfolding executor
  executor-RunsCommands wall s q name args =
      let s1 = record s { sequencer = some q } in
      Obeyed-or q (sequence_execute g command_handler s1 wall name args).1.sequencer
        (sequence_execute-Obeys g command_handler handler_obeys s1 wall name args)

  status-kept : (s : SimServer E) (now : ℕ) → (emit_sequence_status g s now).sequencer ≡ s.sequencer
  unfolding emit_sequence_status
  status-kept s now =
      let (counts, queues, same, kept) = emit_status-Downlinked g s now (status_packets g.simdef) in
      rw same refl

  reported-LeavesSound :
      (nudged : Bool) (now : ℕ) (r : Option (List Fired × (Sequencer × SimServer E)))
      → Leaves (executor g command_handler now) AllSound r
      → LeavesSound (reported g command_handler nudged now r)
  reported-LeavesSound nudged now none h = tt
  reported-LeavesSound nudged now (some (fired, (q, s))) h =
      elim (Bool-cases (nudged || ltb 0 (length fired))) [
        | inl e ↦ rw e (q, status-kept (record s { sequencer = some q }) now, h)
        | inr e ↦ rw e (q, refl, h)
      ]

  -- A pass of the waiter leaves a sound sequencer, whatever the fired commands do to it: loads, starts,
  -- stops and aborts of either slot included.
  pub sequence_pass-LeavesSound :
      (fuel : ℕ) (s : SimServer E) (q : Sequencer) (now : ℕ)
      → AllSound q
      → LeavesSound (sequence_pass g command_handler fuel s q now)
  unfolding sequence_pass
  sequence_pass-LeavesSound fuel s q now h =
      let s1 = record s { seq_wake = false } in
      reported-LeavesSound s.seq_wake now (tick (executor g command_handler now) fuel s1 q now)
        (tick-AllSound (executor g command_handler now) (executor-RunsCommands now) fuel s1 q now h)
