-- ===== src/Server/Queues.antt =====
-- What sending leaves of the state of xtce_sim/server.py: all but the counts and the queues, and no
-- queue above its bound.
use xtce_sim.Prelude.{
  ℕ, ◌≤◌, ◌<◌, ◌≡◌, refl, ◌∙◌, arith, List, [], ◌∷◌, ◌++◌, length, length-append, Option, none,
  some, false, Result, ok, err, ◌>>=◌, All, Bool-cases, Option-cases, inl, inr, ◌==◌,
}
use xtce_sim.Prelude.Equality.{nat_eq}
use xtce_sim.Prelude.Dict
use xtce_sim.Prelude.Dict.{Dict, get-put, get-remove}
use xtce_sim.Struct.{Bytes}
use xtce_sim.Utf8.{Text}
use xtce_sim.Codec.{Value}
use xtce_sim.Codec.Telemetry.{pack_telemetry}
use xtce_sim.Ccsds.Counter.{next}
use xtce_sim.Ccsds.Packets.{EchoStatus, cmd_echo_apid, build_command_echo}
use xtce_sim.Ccsds.Frame.{frame}
use xtce_sim.Server.{
  Setup, SimServer, guarded, is_full, enqueue_all, enqueue_one, counted, posted, wired, sent,
  values_or, packet_by_apid, send_packet, echo_command,
}

-- A client that is not full has the packet last in its queue.
pub enqueue_all-get :
    (maxsize : ℕ) (wire : Bytes) (clients : Dict ℕ (List Bytes)) (client : ℕ) (queue : List Bytes)
    → Dict.get clients client ≡ some queue
    → is_full maxsize queue ≡ false
    → Dict.get (enqueue_all maxsize wire clients) client ≡ some (queue ++ (wire ∷ []))
unfolding enqueue_all Dict.get
enqueue_all-get m wire [] client queue h f = absurd (ground (arith, h))
enqueue_all-get m wire ((k, q) ∷ clients) client queue h f = elim (Bool-cases (k == client)) [
  | inl e ↦ let same : q ≡ queue = ground (arith, rw e at h) in rw (same, f, e) refl
  | inr e ↦ elim (Bool-cases (is_full m q)) [
    | inl full ↦ rw full (enqueue_all-get m wire clients client queue (rw e at h) f)
    | inr free ↦ rw (free, e) (enqueue_all-get m wire clients client queue (rw e at h) f)
  ]
]

-- No queue is longer than the bound, where there is one.
abbrev Fits : ℕ → ℕ × List Bytes → Type 0
Fits maxsize (client, queue) = 0 < maxsize → length queue ≤ maxsize

abbrev pub Bounded : ℕ → Dict ℕ (List Bytes) → Type 0
Bounded maxsize clients = All (Fits maxsize) clients

longer :
    (m : ℕ) (q : List Bytes) (wire : Bytes)
    → is_full m q ≡ false
    → 0 < m
    → length (q ++ (wire ∷ [])) ≤ m
longer m q wire f p = ground (arith, f, p, length-append q (wire ∷ []))

enqueue_all-Bounded :
    (m : ℕ) (wire : Bytes) (d : Dict ℕ (List Bytes))
    → Bounded m d
    → Bounded m (enqueue_all m wire d)
unfolding enqueue_all
enqueue_all-Bounded m wire [] h = tt
enqueue_all-Bounded m wire ((k, q) ∷ d) h = elim (Bool-cases (is_full m q)) [
  | inl e ↦ rw e (enqueue_all-Bounded m wire d h.1)
  | inr e ↦ rw e ((λ p. longer m q wire e p), enqueue_all-Bounded m wire d h.1)
]

put-Bounded :
    (m : ℕ) (d : Dict ℕ (List Bytes)) (k : ℕ) (q : List Bytes)
    → Bounded m d
    → (0 < m → length q ≤ m)
    → Bounded m (Dict.put d k q)
unfolding Dict.put
put-Bounded m [] k q h f = (f, tt)
put-Bounded m ((j, r) ∷ d) k q h f = elim (Bool-cases (j == k)) [
  | inl e ↦ rw e (f, h.1)
  | inr e ↦ rw e (h.0, put-Bounded m d k q h.1 f)
]

pub remove-Bounded :
    (m : ℕ) (d : Dict ℕ (List Bytes)) (k : ℕ) → Bounded m d → Bounded m (Dict.remove d k)
unfolding Dict.remove
remove-Bounded m [] k h = tt
remove-Bounded m ((j, r) ∷ d) k h = elim (Bool-cases (j == k)) [
  | inl e ↦ rw e (remove-Bounded m d k h.1)
  | inr e ↦ rw e (h.0, remove-Bounded m d k h.1)
]

enqueue_one-Bounded :
    (m : ℕ) (wire : Bytes) (d : Dict ℕ (List Bytes)) (k : ℕ)
    → Bounded m d
    → Bounded m (enqueue_one m wire d k)
unfolding enqueue_one
enqueue_one-Bounded m wire d k h = elim (Option-cases (Dict.get d k)) [
  | inl e ↦ rw (enqueue_one, e) h
  | inr (q, e) ↦ elim (Bool-cases (is_full m q)) [
    | inl full ↦ rw (enqueue_one, e, full) (remove-Bounded m d k h)
    | inr free ↦
        rw (enqueue_one, e, free)
          (put-Bounded m d k (q ++ (wire ∷ [])) h (λ p. longer m q wire free p))
  ]
]

module _ {E : Type 0} where
  -- Only counts and queues have changed, and the queues keep their bound.
  abbrev pub Downlinked : Setup E → SimServer E → SimServer E → Type 0
  Downlinked g s s' =
      (counts : Dict ℕ ℕ) × (queues : Dict ℕ (List Bytes)) × (s'
        ≡ record s { seq = counts; clients = queues })
      × (Bounded g.queue_maxsize s.clients → Bounded g.queue_maxsize queues)

  pub Downlinked-same : (g : Setup E) (s : SimServer E) → Downlinked g s s
  Downlinked-same g s = (s.seq, s.clients, refl, (λ h. h))

  pub Downlinked-trans :
      (g : Setup E) (s s' s'' : SimServer E)
      → Downlinked g s s'
      → Downlinked g s' s''
      → Downlinked g s s''
  Downlinked-trans g s s' s'' (n, q, e, h) (n', q', e', h') =
      (n', q', e' ∙ rw e refl, (λ b. h' (rw e (h b))))

  posted-Downlinked :
      (g : Setup E) (s : SimServer E) (apid : ℕ) (wire : Result Bytes) (client : Option ℕ)
      → Downlinked g s (guarded (posted g (counted s apid) wire client))
  posted-Downlinked g s apid (err e) client = ((next s.seq apid).1, s.clients, refl, (λ h. h))
  posted-Downlinked g s apid (ok wire) none = (
    (next s.seq apid).1,
    enqueue_all g.queue_maxsize wire s.clients,
    refl,
    enqueue_all-Bounded g.queue_maxsize wire s.clients,
  )
  posted-Downlinked g s apid (ok wire) (some client) = (
    (next s.seq apid).1,
    enqueue_one g.queue_maxsize wire s.clients client,
    refl,
    enqueue_one-Bounded g.queue_maxsize wire s.clients client,
  )

  sent-Downlinked :
      (g : Setup E) (s : SimServer E) (apid : ℕ) (payload : Result Bytes) (client : Option ℕ)
      → Downlinked g s (guarded (sent g s apid payload client))
  sent-Downlinked g s apid (err e) client = Downlinked-same g s
  sent-Downlinked g s apid (ok payload) client =
      posted-Downlinked g s apid (wired g apid payload (next s.seq apid).0) client

  -- Sending a packet, to one client or to all, whether it succeeds or raises, changes nothing but the
  -- counts and the queues, and lets no queue grow above its bound.
  pub send_packet-Downlinked :
      (g : Setup E) (s : SimServer E) (wall apid : ℕ) (values : Option (Dict Text Value))
      (client : Option ℕ)
      → Downlinked g s (guarded (send_packet g s wall apid values client))
  unfolding send_packet
  send_packet-Downlinked g s wall apid values client =
      elim (Option-cases (packet_by_apid g.simdef.packets apid)) [
        | inl e ↦ rw (send_packet, e) (Downlinked-same g s)
        | inr (p, e) ↦
            rw (send_packet, e)
              (sent-Downlinked g s apid (values_or g s wall p values >>= λ vs. pack_telemetry p vs)
                client)
      ]

  pub echo_command-Downlinked :
      (g : Setup E) (s : SimServer E) (packet : Bytes) (status : EchoStatus)
      → Downlinked g s (echo_command g s packet status)
  unfolding echo_command
  echo_command-Downlinked g s packet status =
      posted-Downlinked g s cmd_echo_apid
        (build_command_echo packet status (next s.seq cmd_echo_apid).0 >>= λ p. frame g.crc16 p)
        none
