-- ===== src/SeqService/Routes.antt =====
-- Which command of the sequencer each command of xtce_sim/seqservice.py is.
use xtce_sim.Prelude.{
  ℕ, ◌≡◌, refl, ◌++◌, Option, none, some, err, sequence_refused, Option-cases, inl, inr, ◌⊎◌,
  if◌then◌else◌,
}
use xtce_sim.Prelude.Texts.{codes}
use xtce_sim.Prelude.Equality.{list_eq, list_beq}
use xtce_sim.Prelude.Dict
use xtce_sim.Prelude.Dict.{Dict}
use xtce_sim.Utf8.{Text}
use xtce_sim.Schema.{SimDefinition}
use xtce_sim.Codec.{Value}
use xtce_sim.FileStore.{FileStore}
use xtce_sim.Sequencer.{Kind, ats, rts, Sequence, Sequencer}
use xtce_sim.Sequencer.Commands.{
  Verdict, SequencerCommand, to_load, to_load_failed, to_start, to_stop, to_abort, run,
}
use xtce_sim.SeqService
use xtce_sim.SeqService.{
  Verb, Answer, answer, is_only_slot, seq_id_wire_value, sequence_commands, read_plan, shown_name,
  cmd_load, installed, routed, routed_by, handle_command,
}
use xtce_sim.SeqService.Loading.{filename}

abbrev verb_name : Verb → Text
verb_name SeqService.to_load = codes "LOAD_"
verb_name SeqService.to_start = codes "START_"
verb_name SeqService.to_stop = codes "STOP_"
verb_name SeqService.to_abort = codes "ABORT_"

abbrev kind_name : Kind → Text
kind_name ats = codes "ATS"
kind_name rts = codes "RTS"

-- The name of a command: its verb and the kind of its slot.
abbrev pub command_name : Verb → Kind → Text
command_name verb kind = verb_name verb ++ kind_name kind

command_name-known :
    (verb : Verb) (kind : Kind)
    → Dict.get sequence_commands (command_name verb kind) ≡ some (kind, verb)
unfolding Dict.get list_beq
command_name-known SeqService.to_load ats = refl
command_name-known SeqService.to_load rts = refl
command_name-known SeqService.to_start ats = refl
command_name-known SeqService.to_start rts = refl
command_name-known SeqService.to_stop ats = refl
command_name-known SeqService.to_stop rts = refl
command_name-known SeqService.to_abort ats = refl
command_name-known SeqService.to_abort rts = refl

-- What the console is answered: the failure of a LOAD is a refusal, though the sequencer notes it.
abbrev pub reply : SequencerCommand → Verdict → Answer
reply (to_load_failed kind name) (b, q) = (err sequence_refused, q)
reply (to_load plan) v = answer v
reply (to_start kind now) v = answer v
reply (to_stop kind) v = answer v
reply (to_abort kind) v = answer v

module _ (from_iso : Text → Option ℕ) (simdef : SimDefinition) (store : FileStore) where
  -- The command of the sequencer that a verb on a slot calls for: a LOAD is one of the plan that the store
  -- has under the name of the argument, or the note that there is none.
  abbrev pub Serves : Verb → Kind → ℕ → Dict Text Value → SequencerCommand → Type 0
  Serves SeqService.to_load kind now args c =
      ((plan : Sequence) × (read_plan from_iso simdef store kind (filename args) ≡ some plan)
        × (c ≡ to_load plan))
      ⊎ ((read_plan from_iso simdef store kind (filename args) ≡ none)
          × (c ≡ to_load_failed kind (shown_name (filename args))))
  Serves SeqService.to_start kind now args c = c ≡ to_start kind now
  Serves SeqService.to_stop kind now args c = c ≡ to_stop kind
  Serves SeqService.to_abort kind now args c = c ≡ to_abort kind

  routed-Serves :
      (q : Sequencer) (now : ℕ) (verb : Verb) (kind : Kind) (args : Dict Text Value)
      → (c : SequencerCommand) × Serves verb kind now args c
        × (routed from_iso simdef store q now kind verb args ≡ reply c (run q c))
  unfolding run cmd_load
  routed-Serves q now SeqService.to_load kind args =
      elim (Option-cases (read_plan from_iso simdef store kind (filename args))) [
        | inl e ↦ (to_load_failed kind (shown_name (filename args)), inr (e, refl), rw e refl)
        | inr (plan, e) ↦ (to_load plan, inl (plan, e, refl), rw e refl)
      ]
  routed-Serves q now SeqService.to_start kind args = (to_start kind now, refl, refl)
  routed-Serves q now SeqService.to_stop kind args = (to_stop kind, refl, refl)
  routed-Serves q now SeqService.to_abort kind args = (to_abort kind, refl, refl)

  -- Each of the eight commands is the sequencer's command of its verb on the slot of its kind, and answers
  -- as that does, when its SeqId is absent or 1; with another SeqId it is refused and changes nothing.
  pub handle_command-Serves :
      (q : Sequencer) (now : ℕ) (verb : Verb) (kind : Kind) (args : Dict Text Value)
      → (c : SequencerCommand) × Serves verb kind now args c
        × (handle_command from_iso simdef store q now (command_name verb kind) args ≡ (
            if is_only_slot (seq_id_wire_value simdef (command_name verb kind) args)
            then reply c (run q c)
            else (err sequence_refused, q)))
  unfolding handle_command
  handle_command-Serves q now verb kind args =
      let (c, serves, same) = routed-Serves q now verb kind args in
      (c, serves, rw (command_name-known verb kind, same) refl)
