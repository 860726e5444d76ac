-- ===== src/Tests/Sequencer.antt =====
-- The theorems on xtce_sim/sequencer.py at concrete inputs: an ATS of two commands, which is run by
-- an executor that only counts, and one that aborts what runs.
use xtce_sim.Prelude.{
  ℕ, suc, ◌≤◌, ◌<◌, ◌≡◌, ◌⊎◌, inl, refl, arith, All, take, drop, List, [], ◌∷◌, some, Bool, true,
  false,
}
use xtce_sim.Prelude.Dict.{Dict}
use xtce_sim.Utf8.{Text}
use xtce_sim.Sequencer.{
  Kind, ats, Sequence, SequenceEntry, empty_slot, Fired, Sequencer, running, loaded, slot_of, total,
  deadline,
}
use xtce_sim.Sequencer.Commands.{to_start, to_abort, run, start}
use xtce_sim.Sequencer.Commands.Machine.{Moved, run-Moved}
use xtce_sim.Sequencer.Commands.Laws.{AllSound}
use xtce_sim.Sequencer.Commands.Past.{IsPast, IsAhead, start-ats}
use xtce_sim.Sequencer.Tick.{upcoming, next_due, tick}
use xtce_sim.Sequencer.Tick.Due.{next_due_lem}
use xtce_sim.Sequencer.Tick.Drain.{Leaves}
use xtce_sim.Sequencer.Tick.Ends.{IsSettled, tick-ends}
use xtce_sim.Sequencer.Tick.Sound.{RunsCommands, run_all, tick-AllSound}

abbrev at : ℕ → SequenceEntry
at t = record { time = t; command = b'c' ∷ []; args = []; line = 1 }

abbrev plan : Sequence
plan = record { kind = ats; name = b'p' ∷ []; entries = at 10 ∷ at 20 ∷ [] }

-- A loaded ATS, and the same ATS started at the time 5.
abbrev ready : Sequencer
ready = record {
  ats_slot = record empty_slot { sequence = some plan; state = loaded };
  rts_slot = empty_slot;
}

abbrev under_way : Sequencer
under_way = record {
  ats_slot = record empty_slot { sequence = some plan; state = running; base = 5 };
  rts_slot = empty_slot;
}

ready-AllSound : AllSound ready
ready-AllSound = (((refl, refl), omega arith), ((refl, refl), omega arith))

under_way-AllSound : AllSound under_way
under_way-AllSound = (((refl, omega arith), omega arith), ((refl, refl), omega arith))

run-Moved_example :
    (run ready (to_start ats 15) ≡ (false, ready))
    ⊎ (((run ready (to_start ats 15)).0 ≡ true) × Moved ready (run ready (to_start ats 15)).1 ats)
run-Moved_example = run-Moved ready (to_start ats 15)

start-ats_example :
    ((start ready ats 15 ≡ (false, ready)) × All (IsPast 15) plan.entries)
    ⊎ (((start ready ats 15).0 ≡ true)
        × ((start ready ats 15).1.ats_slot.state ≡ running)
        × ((start ready ats 15).1.ats_slot.position < total ready.ats_slot)
        × All (IsPast 15) (take (start ready ats 15).1.ats_slot.position plan.entries)
        × All (IsAhead 15) (drop (start ready ats 15).1.ats_slot.position plan.entries))
start-ats_example = start-ats ready 15 (inl refl) ((omega arith, tt), (tt, tt))

next_due_lem_example :
    (t : ℕ) × (upcoming ats under_way.ats_slot ≡ some t)
    × (t ≤ 15)
    × ((j : Kind) (u : ℕ) → upcoming j (slot_of under_way j) ≡ some u → t ≤ u)
next_due_lem_example = next_due_lem under_way 15 ats (unfold next_due deadline in refl)

-- The executor's state is the number of commands that it has run.
abbrev count : ℕ → Sequencer → Text → Dict Text Text → Bool × (Sequencer × ℕ)
count n q name args = (true, (q, suc n))

tick-ends_example :
    (r : List Fired × (Sequencer × ℕ)) × (tick count 3 0 under_way 25 ≡ some r) × IsSettled 25 r.1.0
tick-ends_example = tick-ends count (λ w q name args. omega arith) 3 0 under_way 25 (omega arith)

-- Every command that this executor runs aborts the ATS.
aborting : ℕ → Sequencer → Text → Dict Text Text → Bool × (Sequencer × ℕ)
aborting n q name args = (true, ((run q (to_abort ats)).1, suc n))

aborting-RunsCommands : RunsCommands aborting
unfolding aborting run_all
aborting-RunsCommands w q name args = (to_abort ats ∷ [], refl)

tick-AllSound_example : Leaves aborting AllSound (tick aborting 3 0 under_way 25)
tick-AllSound_example =
    tick-AllSound aborting aborting-RunsCommands 3 0 under_way 25 under_way-AllSound
