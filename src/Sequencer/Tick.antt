-- ===== src/Sequencer/Tick.antt =====
-- `Sequencer.tick` of xtce_sim/sequencer.py and what it calls. The executor is a parameter: it
-- sees the sequencer, which the command may act on, and a state of its own. An executor that
-- raises is one that answers `false`.
pub mod Due
pub mod Drain
pub mod Ends
pub mod Sound
use xtce_sim.Prelude.{
  ℕ, zero, suc, ◌+◌, ◌-◌, List, [], ◌∷◌, length, get_elem?, Option, none, some, Bool, true, false,
  leb, ltb, ◌==◌, ◌&&◌, not, if◌then◌else◌,
}
use xtce_sim.Prelude.Dict.{Dict}
use xtce_sim.Utf8.{Text}
use xtce_sim.Sequencer.{
  SeqState, running, complete, CmdResult, success, failed, Kind, ats, rts, SequenceEntry, Fired,
  Slot, total, exhausted, is_running, entries_of, deadline, Sequencer, slot_of, with_slot,
}

-- The deadline of the slot's next entry, if the slot is running and has one. A running slot without a
-- sequence, where the code would raise, is in no sound state; here it has no deadline.
unfoldable pub upcoming : Kind → Slot → Option ℕ
upcoming kind s = if is_running s && not (exhausted s) then deadline kind s s.position else none

-- The same, if it is due.
unfoldable pub due : Kind → Slot → ℕ → Option ℕ
unfolding upcoming
due kind s now = elim (upcoming kind s) [
  | none ↦ none
  | some t ↦ if ltb now t then none else some t
]

abbrev pub earlier : Option ℕ → Option ℕ → Option Kind
earlier none none = none
earlier none (some r) = some rts
earlier (some a) none = some ats
earlier (some a) (some r) = if ltb r a then some rts else some ats

-- `_next_due`
unfoldable pub next_due : Sequencer → ℕ → Option Kind
unfolding due
next_due q now = earlier (due ats q.ats_slot now) (due rts q.rts_slot now)

abbrev pub soonest : Option ℕ → Option ℕ → Option ℕ
soonest none r = r
soonest (some a) none = some a
soonest (some a) (some r) = some (if ltb r a then r else a)

unfoldable pub next_deadline : Sequencer → Option ℕ
unfolding upcoming
next_deadline q = soonest (upcoming ats q.ats_slot) (upcoming rts q.rts_slot)

-- The end of `_fire`: the bookkeeping of an entry, unless its run is over.
unfoldable pub book : ℕ → Text → Bool → Slot → Slot
book generation command ok s =
    if s.generation == generation
    then record s {
      executed = s.executed + 1;
      last_name = command;
      last_result = if ok then success else failed;
    }
    else s

-- The end of `tick`, for one slot.
unfoldable pub finished : ℕ → Slot → Slot
finished now s =
    if is_running s && exhausted s
    then record s { state = complete; final_elapsed = now - s.base }
    else s

unfoldable pub finish_all : ℕ → Sequencer → Sequencer
unfolding finished
finish_all now q = record { ats_slot = finished now q.ats_slot; rts_slot = finished now q.rts_slot }

abbrev pub claimed : Sequencer → Kind → Sequencer
claimed q kind =
    with_slot q kind (record (slot_of q kind) { position = (slot_of q kind).position + 1 })

module _ {W : Type 0}
    (execute : W → Sequencer → Text → Dict Text Text → Bool × (Sequencer × W)) where
  -- `_fire` of the entry that the slot is at.
  unfoldable pub fire_entry : W → Sequencer → Kind → SequenceEntry → Fired × (Sequencer × W)
  unfolding book
  fire_entry w q kind entry =
      let (ok, (q', w')) = execute w (claimed q kind) entry.command entry.args in
      (
        record { kind = kind; command = entry.command; args = entry.args; success = ok },
        (
          with_slot q' kind (book (slot_of q kind).generation entry.command ok (slot_of q' kind)),
          w',
        ),
      )

  -- `_fire`; `none` stands for the exception of a missing entry.
  unfoldable pub fire : W → Sequencer → Kind → Option (Fired × (Sequencer × W))
  unfolding fire_entry
  fire w q kind =
      elim (get_elem? (entries_of (slot_of q kind).sequence) (slot_of q kind).position) [
        | none ↦ none
        | some entry ↦ some (fire_entry w q kind entry)
      ]

  abbrev pub consed :
      Fired → Option (List Fired × (Sequencer × W)) → Option (List Fired × (Sequencer × W))
  consed f none = none
  consed f (some (fs, r)) = some (f ∷ fs, r)

  -- The loop of `tick`, on fuel: one more than the number of entries that it may fire.
  unfoldable pub drain : ℕ → W → Sequencer → ℕ → Option (List Fired × (Sequencer × W))
  drain zero w q now = none
  drain (suc fuel) w q now = elim (next_due q now) [
    | none ↦ some ([], (q, w))
    | some kind ↦ elim (fire w q kind) [
      | none ↦ none
      | some (f, (q', w')) ↦ consed f (drain fuel w' q' now)
    ]
  ]

  abbrev pub ended :
      ℕ → Option (List Fired × (Sequencer × W)) → Option (List Fired × (Sequencer × W))
  ended now none = none
  ended now (some (fs, (q, w))) = some (fs, (finish_all now q, w))

  unfoldable pub tick : ℕ → W → Sequencer → ℕ → Option (List Fired × (Sequencer × W))
  tick fuel w q now = ended now (drain fuel w q now)
