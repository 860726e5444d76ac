-- ===== src/Sequencer/Commands/Status.antt =====
-- The counts of a status packet, `status` of xtce_sim/sequencer.py.
use xtce_sim.Prelude.{ℕ, ◌+◌, ◌≤◌, ◌≡◌, arith, length, Option}
use xtce_sim.Sequencer.{
  SeqState, idle, loaded, running, complete, error, Kind, ats, rts, Sequence, entries_of, Sequencer,
  slot_of,
}
use xtce_sim.Sequencer.Commands.{status}
use xtce_sim.Sequencer.Commands.Laws.{Fits, IsSound, AllSound}

Fits-le : (st : SeqState) (p : Option Sequence) (i : ℕ) → Fits st p i → i ≤ length (entries_of p)
Fits-le idle p i f = omega (arith, f.1)
Fits-le error p i f = omega (arith, f.1)
Fits-le loaded p i f = omega (arith, f.1)
Fits-le running p i f = f.1
Fits-le complete p i f = omega (arith, f.1)

slot-IsSound : (q : Sequencer) (kind : Kind) → AllSound q → IsSound (slot_of q kind)
slot-IsSound q ats h = h.0
slot-IsSound q rts h = h.1

-- The status of a sound slot accounts for every entry of its plan: those executed, those skipped
-- and those remaining are the total.
pub status_lem :
    (q : Sequencer) (kind : Kind) (now : ℕ)
    → AllSound q
    → (status q kind now).cmd_executed
        + (status q kind now).cmd_skipped
        + (status q kind now).cmd_remaining
      ≡ (status q kind now).cmd_total
unfolding status
status_lem q kind now h =
    let sound = slot-IsSound q kind h in
    omega (
      arith,
      sound.1,
      Fits-le (slot_of q kind).state (slot_of q kind).sequence (slot_of q kind).position sound.0,
    )
