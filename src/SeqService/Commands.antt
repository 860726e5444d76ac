-- ===== src/SeqService/Commands.antt =====
-- The commands of xtce_sim/seqservice.py act on the sequencer only by its own commands.
use xtce_sim.Prelude.{
  ℕ, ◌≡◌, refl, arith, List, [], ◌∷◌, Option, none, some, true, false, ok, err, Error, Bool-cases,
  inl, inr,
}
use xtce_sim.Prelude.Texts.{codes}
use xtce_sim.Prelude.Equality.{list_eq}
use xtce_sim.Prelude.Dict
use xtce_sim.Prelude.Dict.{Dict}
use xtce_sim.Utf8.{Text}
use xtce_sim.Schema.{SimDefinition}
use xtce_sim.Codec.{Value}
use xtce_sim.FileStore.{FileStore}
use xtce_sim.FileService.Commands.{decode_filename_arg}
use xtce_sim.Sequencer.{Kind, ats, rts, Sequence, Sequencer, slot_of, is_running}
use xtce_sim.Sequencer.Commands.{
  Verdict, SequencerCommand, to_load, to_load_failed, to_start, to_stop, to_abort, run, load,
  load_failed, start, start_plan, stop, abort,
}
use xtce_sim.Sequencer.Tick.Sound.{run_all}
use xtce_sim.SeqService
use xtce_sim.SeqService.{
  Verb, Answer, answer, argument, is_only_slot, seq_id_wire_value, sequence_commands, read_plan,
  shown_name, cmd_load, installed, routed, routed_by, handle_command,
}

-- The sequencer is what some of its own commands leave.
abbrev pub Ran : Sequencer → Sequencer → Type 0
Ran q q' = (cs : List SequencerCommand) × (q' ≡ run_all q cs)

pub Ran-none : (q : Sequencer) → Ran q q
unfolding run_all
Ran-none q = ([], refl)

Ran-one : (q : Sequencer) (c : SequencerCommand) → Ran q (run q c).1
unfolding run_all
Ran-one q c = (c ∷ [], refl)

answer-sequencer : (v : Verdict) → (answer v).1 ≡ v.1
answer-sequencer (true, q) = refl
answer-sequencer (false, q) = refl

Ran-answer : (q : Sequencer) (c : SequencerCommand) → Ran q (answer (run q c)).1
Ran-answer q c = rw (answer-sequencer (run q c)) (Ran-one q c)

load_refused : (q : Sequencer) (p : Sequence) → (load q p).0 ≡ false → (load q p).1 ≡ q
unfolding load
load_refused q p h = ground (arith, h)

stop_refused : (q : Sequencer) (k : Kind) → (stop q k).0 ≡ false → (stop q k).1 ≡ q
unfolding stop
stop_refused q k h = ground (arith, h)

start_refused :
    (q : Sequencer) (k : Kind) (now : ℕ) → (start q k now).0 ≡ false → (start q k now).1 ≡ q
unfolding start start_plan
start_refused q ats now h = ground (arith, h)
start_refused q rts now h = ground (arith, h)

installed-Ran :
    (q : Sequencer) (kind : Kind) (name : Text) (plan : Option Sequence)
    → Ran q (installed q kind name plan).1
installed-Ran q kind name none = unfold run in Ran-one q (to_load_failed kind name)
installed-Ran q kind name (some p) = unfold run in Ran-answer q (to_load p)

-- A refusal that is no failed LOAD of an idle slot leaves a running slot alone.
abbrev KeepsRunning : Sequencer → Answer → Type 0
KeepsRunning q (ok b, q') = Unit {0}
KeepsRunning q (err e, q') =
    (k : Kind) → is_running (slot_of q k) ≡ true → slot_of q' k ≡ slot_of q k

answer-KeepsRunning :
    (q : Sequencer) (v : Verdict) → (v.0 ≡ false → v.1 ≡ q) → KeepsRunning q (answer v)
answer-KeepsRunning q (true, q') h = tt
answer-KeepsRunning q (false, q') h = λ k r. rw (h refl) refl

load_failed-running :
    (q : Sequencer) (kind : Kind) (name : Text) (k : Kind)
    → is_running (slot_of q k) ≡ true
    → slot_of (load_failed q kind name).1 k ≡ slot_of q k
unfolding load_failed
load_failed-running q ats name ats r = rw r refl
load_failed-running q rts name rts r = rw r refl
load_failed-running q ats name rts r = elim (Bool-cases (is_running q.ats_slot)) [
  | inl e ↦ rw e refl
  | inr e ↦ rw e refl
]
load_failed-running q rts name ats r = elim (Bool-cases (is_running q.rts_slot)) [
  | inl e ↦ rw e refl
  | inr e ↦ rw e refl
]

installed-KeepsRunning :
    (q : Sequencer) (kind : Kind) (name : Text) (plan : Option Sequence)
    → KeepsRunning q (installed q kind name plan)
installed-KeepsRunning q kind name none = λ k r. load_failed-running q kind name k r
installed-KeepsRunning q kind name (some p) = answer-KeepsRunning q (load q p) (load_refused q p)

abort_never : (q : Sequencer) (k : Kind) → (abort q k).0 ≡ false → (abort q k).1 ≡ q
unfolding abort
abort_never q k h = absurd (ground (arith, h))

module _ (from_iso : Text → Option ℕ) (simdef : SimDefinition) (store : FileStore) where
  cmd_load-Ran :
      (q : Sequencer) (kind : Kind) (args : Dict Text Value)
      → Ran q (cmd_load from_iso simdef store q kind args).1
  unfolding cmd_load
  cmd_load-Ran q kind args =
      let name = decode_filename_arg (argument (Dict.get args (codes "Filename"))) in
      installed-Ran q kind (shown_name name) (read_plan from_iso simdef store kind name)

  routed-Ran :
      (q : Sequencer) (now : ℕ) (kind : Kind) (verb : Verb) (args : Dict Text Value)
      → Ran q (routed from_iso simdef store q now kind verb args).1
  routed-Ran q now kind SeqService.to_load args = cmd_load-Ran q kind args
  routed-Ran q now kind SeqService.to_start args = unfold run in Ran-answer q (to_start kind now)
  routed-Ran q now kind SeqService.to_stop args = unfold run in Ran-answer q (to_stop kind)
  routed-Ran q now kind SeqService.to_abort args = unfold run in Ran-answer q (to_abort kind)

  routed_by-Ran :
      (q : Sequencer) (now : ℕ) (args : Dict Text Value) (route : Option (Kind × Verb))
      → Ran q (routed_by from_iso simdef store q now args route).1
  routed_by-Ran q now args none = Ran-none q
  routed_by-Ran q now args (some (kind, verb)) = routed-Ran q now kind verb args

  -- Whatever a sequence command is and answers, the sequencer after it is what a row of the sequencer's
  -- own commands leaves.
  pub handle_command-Ran :
      (q : Sequencer) (now : ℕ) (name : Text) (args : Dict Text Value)
      → Ran q (handle_command from_iso simdef store q now name args).1
  unfolding handle_command
  handle_command-Ran q now name args =
      elim (Bool-cases (is_only_slot (seq_id_wire_value simdef name args))) [
        | inl e ↦ rw e (routed_by-Ran q now args (Dict.get sequence_commands name))
        | inr e ↦ rw e (Ran-none q)
      ]

  routed_by-KeepsRunning :
      (q : Sequencer) (now : ℕ) (args : Dict Text Value) (route : Option (Kind × Verb))
      → KeepsRunning q (routed_by from_iso simdef store q now args route)
  unfolding cmd_load
  routed_by-KeepsRunning q now args none = λ k r. refl
  routed_by-KeepsRunning q now args (some (kind, SeqService.to_load)) =
      let name = decode_filename_arg (argument (Dict.get args (codes "Filename"))) in
      installed-KeepsRunning q kind (shown_name name) (read_plan from_iso simdef store kind name)
  routed_by-KeepsRunning q now args (some (kind, SeqService.to_start)) =
      answer-KeepsRunning q (start q kind now) (start_refused q kind now)
  routed_by-KeepsRunning q now args (some (kind, SeqService.to_stop)) =
      answer-KeepsRunning q (stop q kind) (stop_refused q kind)
  routed_by-KeepsRunning q now args (some (kind, SeqService.to_abort)) =
      answer-KeepsRunning q (abort q kind) (abort_never q kind)

  handled-KeepsRunning :
      (q : Sequencer) (now : ℕ) (name : Text) (args : Dict Text Value)
      → KeepsRunning q (handle_command from_iso simdef store q now name args)
  unfolding handle_command
  handled-KeepsRunning q now name args =
      elim (Bool-cases (is_only_slot (seq_id_wire_value simdef name args))) [
        | inl e ↦ rw e (routed_by-KeepsRunning q now args (Dict.get sequence_commands name))
        | inr e ↦ rw e (λ k r. refl)
      ]

  -- A sequence command that is refused leaves each slot that is running as it was, a LOAD of a file that
  -- is missing or no plan among them.
  pub handle_command-refused :
      (q q' : Sequencer) (now : ℕ) (name : Text) (args : Dict Text Value) (e : Error) (k : Kind)
      → handle_command from_iso simdef store q now name args ≡ (err e, q')
      → is_running (slot_of q k) ≡ true
      → slot_of q' k ≡ slot_of q k
  handle_command-refused q q' now name args e k h r =
      let kept : KeepsRunning q (err e, q') = rw h at (handled-KeepsRunning q now name args) in
      kept k r
