-- ===== src/SeqService/Loading.antt =====
-- LOAD of xtce_sim/seqservice.py: from the bytes of a stored file to the plan in the slot.
use xtce_sim.Prelude.{
  ℕ, ◌≡◌, refl, subst, sym, ap, arith, length, Option, none, some, Bool, Result, ok, err, Error,
  Bool-cases, Option-cases, inl, inr, ◌⊎◌, ◌==◌,
}
use xtce_sim.Prelude.Texts.{codes}
use xtce_sim.Prelude.Equality.{list_eq}
use xtce_sim.Prelude.Dict
use xtce_sim.Prelude.Dict.{Dict}
use xtce_sim.Struct.{Bytes}
use xtce_sim.Utf8.{Text, decode, strict}
use xtce_sim.Schema.{SimDefinition}
use xtce_sim.Codec.{Value}
use xtce_sim.FileStore.{FileStore, read}
use xtce_sim.FileService.Commands.{decode_filename_arg}
use xtce_sim.Sequencer.{Kind, Sequence, Sequencer, slot_of, with_slot, is_running}
use xtce_sim.Sequencer.Commands.{load, filled}
use xtce_sim.SequenceFile.{Parsed, accepted, rejected, parse, scanned, kind_for}
use xtce_sim.SequenceFile.Accepted.{IsPlan, parse-IsPlan}
use xtce_sim.SeqService
use xtce_sim.SeqService.{
  answer, argument, is_only_slot, seq_id_wire_value, sequence_commands, suits, plan_or_none,
  read_plan, shown_name, cmd_load, installed, routed_by, handle_command,
}

-- The name of the file that a LOAD is given.
abbrev pub filename : Dict Text Value → Text
filename args = decode_filename_arg (argument (Dict.get args (codes "Filename")))

Result-split : (r : Result Bytes) → ((e : Error) × (r ≡ err e)) ⊎ ((b : Bytes) × (r ≡ ok b))
Result-split (err e) = inl (e, refl)
Result-split (ok b) = inr (b, refl)

Parsed-split : (r : Parsed) (p : Sequence) → plan_or_none r ≡ some p → r ≡ accepted p
Parsed-split (accepted q) p h = ground (arith, h)
Parsed-split (rejected ls) p h = absurd (ground (arith, h))

load-filled :
    (q q' : Sequencer) (p : Sequence) (b : Bool)
    → answer (load q p) ≡ (ok b, q')
    → q' ≡ with_slot q p.kind (filled (slot_of q p.kind) p)
unfolding load
load-filled q q' p b h = elim (Bool-cases (is_running (slot_of q p.kind))) [
  | inl e ↦ absurd (ground (arith, rw e at h))
  | inr e ↦ sym (ap (λ (x : Result Bool × Sequencer). x.1) (rw e at h))
]

module _ (from_iso : Text → Option ℕ) (simdef : SimDefinition) (store : FileStore) where
  read_plan-file :
      (kind : Kind) (name : Text) (plan : Sequence)
      → read_plan from_iso simdef store kind name ≡ some plan
      → (content : Bytes) × (s : Text) × (read store name ≡ ok content)
        × (decode strict content ≡ some s)
        × (parse from_iso kind s name (some simdef) ≡ accepted plan)
  unfolding read_plan
  read_plan-file kind name plan h = elim (Bool-cases (length name == 0)) [
    | inl e ↦ absurd (ground (arith, rw e at h))
    | inr e ↦ elim (Bool-cases (suits kind (kind_for name))) [
      | inr f ↦ absurd (ground (arith, rw (e, f) at h))
      | inl f ↦ elim (Result-split (read store name)) [
        | inl (x, g) ↦ absurd (ground (arith, rw (e, f, g) at h))
        | inr (content, g) ↦ elim (Option-cases (decode strict content)) [
          | inl i ↦ absurd (ground (arith, rw (e, f, g, i) at h))
          | inr (s, i) ↦ (
            content,
            s,
            g,
            i,
            Parsed-split (parse from_iso kind s name (some simdef)) plan (rw (e, f, g, i) at h),
          )
        ]
      ]
    ]
  ]

  -- What an accepted LOAD leaves.
  abbrev pub Loaded : Sequencer → Kind → Text → Sequencer → Type 0
  Loaded q kind name q' =
      (content : Bytes) × (s : Text) × (plan : Sequence) × (read store name ≡ ok content)
      × (decode strict content ≡ some s)
      × (q' ≡ with_slot q kind (filled (slot_of q kind) plan))
      × IsPlan simdef (scanned from_iso kind s).1 plan.entries

  installed-Loaded :
      (q q' : Sequencer) (kind : Kind) (name : Text) (plan : Option Sequence) (b : Bool)
      → read_plan from_iso simdef store kind name ≡ plan
      → installed q kind (shown_name name) plan ≡ (ok b, q')
      → Loaded q kind name q'
  installed-Loaded q q' kind name none b e h = absurd (ground (arith, h))
  installed-Loaded q q' kind name (some plan) b e h =
      let (content, s, stored, decoded, parsed) = read_plan-file kind name plan e in
      let (same, whole, good) = parse-IsPlan from_iso kind s name simdef plan parsed in
      (content, s, plan, stored, decoded, moved same (load-filled q q' plan b h), good)
    where
      moved :
          plan.kind ≡ kind
          → q' ≡ with_slot q plan.kind (filled (slot_of q plan.kind) plan)
          → q' ≡ with_slot q kind (filled (slot_of q kind) plan)
      moved same at_own =
          subst (λ (k : Kind). q' ≡ with_slot q k (filled (slot_of q k) plan)) same at_own

  -- An accepted LOAD has read a stored file of UTF-8 text, and the slot of its kind holds the plan of that
  -- text, loaded and not started: the entries that were read, in the order of their times, each of which
  -- encodes.
  pub handle_command-Loaded :
      (q q' : Sequencer) (now : ℕ) (name : Text) (args : Dict Text Value) (kind : Kind) (b : Bool)
      → Dict.get sequence_commands name ≡ some (kind, SeqService.to_load)
      → handle_command from_iso simdef store q now name args ≡ (ok b, q')
      → Loaded q kind (filename args) q'
  unfolding handle_command cmd_load
  handle_command-Loaded q q' now name args kind b r h =
      elim (Bool-cases (is_only_slot (seq_id_wire_value simdef name args))) [
        | inr e ↦ absurd (ground (arith, rw e at h))
        | inl e ↦
            installed-Loaded q q' kind (filename args)
              (read_plan from_iso simdef store kind (filename args)) b refl (rw (e, r) at h)
      ]
