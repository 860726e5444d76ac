-- ===== src/Server/Dispatch/Obeys.antt =====
-- What a command of xtce_sim/server.py does to the sequencer, step by step.
use xtce_sim.Prelude.{
  Error, ℕ, ◌≡◌, refl, subst, sym, ◌∙◌, arith, List, [], ◌∷◌, ◌++◌, Option, none, some, Bool, true,
  false, Result, ok, err, Bool-cases, inl, inr, if◌then◌else◌,
}
use xtce_sim.Prelude.Int.{int_eq}
use xtce_sim.Prelude.Texts.{codes}
use xtce_sim.Prelude.Equality.{list_eq, list_beq, nat_eq}
use xtce_sim.Prelude.Dict
use xtce_sim.Prelude.Dict.{Dict}
use xtce_sim.Prelude.Sort.{sort, itself}
use xtce_sim.Utf8.{Text}
use xtce_sim.Schema.{CommandDef}
use xtce_sim.Codec.{Value}
use xtce_sim.FileService.{FileService, Receipt}
use xtce_sim.FileService.Commands
use xtce_sim.Sequencer.{Sequencer}
use xtce_sim.Sequencer.Commands.{SequencerCommand, whole_seconds, run}
use xtce_sim.Sequencer.Tick.Sound.{run_all}
use xtce_sim.SeqService
use xtce_sim.SeqService.{argument}
use xtce_sim.SeqService.Commands.{Ran, Ran-none, handle_command-Ran}
use xtce_sim.Server.{Setup, SimServer, Effect, ◌>>◌, guarded}
use xtce_sim.Server.Queues.{Downlinked}
use xtce_sim.Server.Beacon.{beacon_packets}
use xtce_sim.Server.Link.{
  apply_link_conventions, set_beacon_enabled, set_tlm_period, set_downlink, retime, resolved,
  is_downlink, apid_in, usable_period,
}
use xtce_sim.Server.Dispatch.{
  apply_engine, engine_applied, emit_immediate, answered, send_file_receipts, sequenced, plan_store,
  files_applied, sequences_applied,
}
use xtce_sim.Server.Dispatch.Downlink.{
  emit_immediate-Downlinked, send_file_receipts-Downlinked, beacon_packets-Downlinked,
}

-- The sequencer, if there is one, after some of its own commands.
abbrev pub Obeyed : Option Sequencer → Option Sequencer → Type 0
Obeyed none none = Unit {0}
Obeyed (some q) (some q') = Ran q q'
Obeyed none (some q') = ⊥
Obeyed (some q) none = ⊥

pub Obeyed-same : (q : Option Sequencer) → Obeyed q q
Obeyed-same none = tt
Obeyed-same (some q) = Ran-none q

run_all-append :
    (q : Sequencer) (cs ds : List SequencerCommand)
    → run_all q (cs ++ ds) ≡ run_all (run_all q cs) ds
unfolding run_all
run_all-append q [] ds = refl
run_all-append q (c ∷ cs) ds = run_all-append (run q c).1 cs ds

Ran-trans : (q q' q'' : Sequencer) → Ran q q' → Ran q' q'' → Ran q q''
Ran-trans q q' q'' (cs, e) (ds, f) = (cs ++ ds, f ∙ rw e (sym (run_all-append q cs ds)))

pub Obeyed-trans : (q q' q'' : Option Sequencer) → Obeyed q q' → Obeyed q' q'' → Obeyed q q''
Obeyed-trans none none none h k = tt
Obeyed-trans none none (some r) h k = k
Obeyed-trans none (some r) q'' h k = absurd h
Obeyed-trans (some q) none q'' h k = absurd h
Obeyed-trans (some q) (some r) none h k = k
Obeyed-trans (some q) (some r) (some t) h k = Ran-trans q r t h k

module _ {E : Type 0} (g : Setup E) where
  -- The server's sequencer has obeyed.
  abbrev pub Obeys : SimServer E → SimServer E → Type 0
  Obeys s s' = Obeyed s.sequencer s'.sequencer

  pub Obeys-next :
      (s : SimServer E) (r : Effect E) (f : SimServer E → Effect E)
      → Obeys s (guarded r)
      → ((s' : SimServer E) → Obeys s' (guarded (f s')))
      → Obeys s (guarded (r >> f))
  Obeys-next s (some e, s') f h k = h
  Obeys-next s (none, s') f h k =
      Obeyed-trans s.sequencer s'.sequencer (guarded (f s')).sequencer h (k s')

  pub Downlinked-Obeys : (s s' : SimServer E) → Downlinked g s s' → Obeys s s'
  Downlinked-Obeys s s' (n, q, same, b) = rw same (Obeyed-same s.sequencer)

  engine_applied-Obeys :
      (s : SimServer E) (wall : ℕ) (r : Option Error × E)
      → Obeys s (guarded (engine_applied g s wall r))
  engine_applied-Obeys s wall (some e, engine) = Obeyed-same s.sequencer
  engine_applied-Obeys s wall (none, engine) =
      let (apids, e) = g.engine_pop engine in
      let s' = record s { engine = e } in
      Downlinked-Obeys s' (emit_immediate g s' wall (sort itself apids))
        (emit_immediate-Downlinked g s' wall (sort itself apids))

  pub apply_engine-Obeys :
      (s : SimServer E) (wall : ℕ) (c : CommandDef) (args : Dict Text Value)
      → Obeys s (guarded (apply_engine g s wall c args))
  unfolding apply_engine
  apply_engine-Obeys s wall c args = engine_applied-Obeys s wall (g.engine_apply s.engine c args)

  answered-Obeys :
      (s : SimServer E) (wall : ℕ) (a : Result (List Receipt) × FileService)
      → Obeys s (guarded (answered g s wall a))
  answered-Obeys s wall (err e, f) = Obeyed-same s.sequencer
  answered-Obeys s wall (ok receipts, f) =
      let s' = record s { file_service = some f } in
      Downlinked-Obeys s' (send_file_receipts g s' wall f receipts)
        (send_file_receipts-Downlinked g s' wall f receipts)

  pub files_applied-Obeys :
      (s : SimServer E) (wall : ℕ) (c : CommandDef) (args : Dict Text Value)
      (o : Option FileService)
      → Obeys s (guarded (files_applied g s wall c args o))
  files_applied-Obeys s wall c args none = Obeyed-same s.sequencer
  files_applied-Obeys s wall c args (some f) = elim (Bool-cases (Commands.handles c.name)) [
    | inr h ↦ rw h (Obeyed-same s.sequencer)
    | inl h ↦ rw h (
        answered-Obeys s wall (
          Commands.handle_command f (whole_seconds wall) c.name
            (argument (Dict.get args (codes "Filename")))))
  ]

  sequenced-Obeys :
      (s : SimServer E) (q : Sequencer) (a : SeqService.Answer)
      → Ran q a.1
      → Obeyed (some q) (guarded (sequenced s a)).sequencer
  sequenced-Obeys s q (ok b, q') h = h
  sequenced-Obeys s q (err x, q') h = h

  pub sequences_applied-Obeys :
      (s : SimServer E) (wall : ℕ) (c : CommandDef) (args : Dict Text Value) (o : Option Sequencer)
      → s.sequencer ≡ o
      → Obeyed o (guarded (sequences_applied g s wall c args o)).sequencer
  sequences_applied-Obeys s wall c args none e = subst (Obeyed none) (sym e) tt
  sequences_applied-Obeys s wall c args (some q) e = elim (Bool-cases (SeqService.handles c.name)) [
    | inr h ↦ rw h (subst (Obeyed (some q)) (sym e) (Ran-none q))
    | inl h ↦
        let a = SeqService.handle_command g.from_iso g.simdef (plan_store g s) q wall c.name args in
        rw h (
          sequenced-Obeys s q a
            (handle_command-Ran g.from_iso g.simdef (plan_store g s) q wall c.name args))
  ]

  kept : (s s' : SimServer E) → s'.sequencer ≡ s.sequencer → Obeys s s'
  kept s s' e = subst (Obeyed s.sequencer) (sym e) (Obeyed-same s.sequencer)

  set_beacon_enabled-kept :
      (s : SimServer E) (c : CommandDef) (args : Dict Text Value)
      → (set_beacon_enabled s c args).sequencer ≡ s.sequencer
  unfolding set_beacon_enabled
  set_beacon_enabled-kept s c args = ground arith

  retime-kept :
      (s : SimServer E) (apid period_ms : Option ℕ)
      → (retime g s apid period_ms).sequencer ≡ s.sequencer
  unfolding retime
  retime-kept s (some apid) (some period_ms) = ground arith
  retime-kept s (some apid) none = refl
  retime-kept s none period_ms = refl

  set_tlm_period-kept :
      (s : SimServer E) (c : CommandDef) (args : Dict Text Value)
      → (set_tlm_period g s c args).sequencer ≡ s.sequencer
  unfolding set_tlm_period
  set_tlm_period-kept s c args =
      retime-kept s (apid_in (resolved c args (codes "Packet")))
        (usable_period (Dict.get args (codes "PeriodMs")))

  set_downlink-kept :
      (s : SimServer E) (c : CommandDef) (args : Dict Text Value)
      → (set_downlink s c args).sequencer ≡ s.sequencer
  unfolding set_downlink
  set_downlink-kept s c args = elim (Bool-cases (list_beq c.name (codes "DOWNLINK_STOP"))) [
    | inl e ↦ rw e refl
    | inr e ↦ rw e refl
  ]

  pub if_kept :
      (s t : SimServer E) (b : Bool)
      → t.sequencer ≡ s.sequencer
      → (if b then t else s).sequencer ≡ s.sequencer
  if_kept s t true e = e
  if_kept s t false e = refl

  pub apply_link_conventions-Obeys :
      (s : SimServer E) (wall : ℕ) (c : CommandDef) (args : Dict Text Value)
      → Obeys s (apply_link_conventions g s wall c args)
  unfolding apply_link_conventions
  apply_link_conventions-Obeys s wall c args =
      let s1 = if list_beq c.name (codes "ENABLE_BEACON") then set_beacon_enabled s c args else s in
      let s2 = if list_beq c.name (codes "SET_TLM_RATE") then set_tlm_period g s1 c args else s1 in
      let s3 = if is_downlink c.name then set_downlink s2 c args else s2 in
      let one =
        if_kept s (set_beacon_enabled s c args) (list_beq c.name (codes "ENABLE_BEACON"))
          (set_beacon_enabled-kept s c args) in
      let two =
        if_kept s1 (set_tlm_period g s1 c args) (list_beq c.name (codes "SET_TLM_RATE"))
          (set_tlm_period-kept s1 c args) in
      let three =
        if_kept s2 (set_downlink s2 c args) (is_downlink c.name) (set_downlink-kept s2 c args) in
      let same : s3.sequencer ≡ s.sequencer = three ∙ two ∙ one in
      elim (Bool-cases (list_beq c.name (codes "GET_STATUS"))) [
        | inr e ↦ rw e (kept s s3 same)
        | inl e ↦
            let s4 = (beacon_packets g s3 wall g.simdef.packets).1 in
            rw e (
              Obeyed-trans s.sequencer s3.sequencer s4.sequencer (kept s s3 same)
                (Downlinked-Obeys s3 s4 (beacon_packets-Downlinked g s3 wall g.simdef.packets)))
      ]
