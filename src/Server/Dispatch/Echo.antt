-- ===== src/Server/Dispatch/Echo.antt =====
-- The echo of a command of xtce_sim/server.py.
use xtce_sim.Prelude.{
  ℕ, ◌<◌, ◌^◌, ◌≡◌, arith, List, [], ◌∷◌, ◌++◌, length, take, Option, none, some, true, false, refl,
  ap, ◌⊎◌, Bool-cases, inl, inr, ◌==◌,
}
use mathlib.Core.List.{append-nil}
use xtce_sim.Prelude.Equality.{nat_eq}
use xtce_sim.Prelude.Dict
use xtce_sim.Prelude.Dict.{Dict}
use xtce_sim.Struct.{Bytes}
use xtce_sim.Utf8.{Text}
use xtce_sim.Schema.{CommandDef}
use xtce_sim.Codec.{Value}
use xtce_sim.Codec.Command.{decode_command, range_violations}
use xtce_sim.Definition.{command_by_opcode}
use xtce_sim.Ccsds.Counter.{next}
use xtce_sim.Ccsds.Packets.{
  EchoStatus, executed, failed, unknown_opcode, rejected, status_code, echo_embed_max,
  cmd_echo_apid, parse_command_echo, parse_command_packet,
}
use xtce_sim.Ccsds.Packets.Laws.{echo_packet}
use xtce_sim.Ccsds.Frame.{scan, packet}
use xtce_sim.Ccsds.Frame.RoundTrip.{wire, frame-eq-ok, scan-wire}
use xtce_sim.Server.{Setup, SimServer, Effect, is_full, echo_command}
use xtce_sim.Server.Queues.{enqueue_all-get}
use xtce_sim.Server.Dispatch.{
  dispatch, dispatch_opcode, dispatch_known, dispatch_found, judged, concluded, apply_command,
  is_refusal,
}

module _ {E : Type 0} where
  -- Each client whose queue has room is told the status of the packet, last in its queue.
  abbrev pub Told : Setup E → SimServer E → SimServer E → Bytes → EchoStatus → Type 0
  Told g s s' command_packet status =
      (w p : Bytes) × ((client : ℕ) (queue : List Bytes)
        → Dict.get s.clients client ≡ some queue
        → is_full g.queue_maxsize queue ≡ false
        → Dict.get s'.clients client ≡ some (queue ++ (w ∷ [])))
      × (scan g.crc16 w ≡ packet p [])
      × (parse_command_echo p ≡ (some (status_code status), take echo_embed_max command_packet))

  echo_command-Told :
      (g : Setup E) (s : SimServer E) (command_packet : Bytes) (status : EchoStatus)
      → ((b : Bytes) → g.crc16 b < 2 ^ 16)
      → Told g s (echo_command g s command_packet status) command_packet status
  unfolding echo_command
  echo_command-Told g s command_packet status fits =
      let (p, built, read, short) =
        echo_packet command_packet status (next s.seq cmd_echo_apid).0 in
      let framed = frame-eq-ok g.crc16 p (omega (arith, short)) (fits p) in
      (
        wire g.crc16 p,
        p,
        (λ client queue there free.
            rw (built, framed)
              (enqueue_all-get g.queue_maxsize (wire g.crc16 p) s.clients client queue there free)),
        rw append-nil at (scan-wire g.crc16 p []),
        read,
      )

  module _ (g : Setup E) (command_handler : SimServer E → CommandDef → Dict Text Value → Effect E)
      (fits : (b : Bytes) → g.crc16 b < 2 ^ 16) where
    -- The server before the echo: the one that the dispatch was given, or the one that the consumers of
    -- a command leave, with the waiter woken after a refusal.
    abbrev pub Acted : SimServer E → ℕ → Bytes → SimServer E → Type 0
    Acted s wall payload s1 =
        (s1 ≡ s)
        ⊎ ((c : CommandDef) × ((s1
                ≡ (apply_command g command_handler s wall c (decode_command c.params payload)).1)
              ⊎ (s1
                  ≡ record (apply_command g command_handler s wall c
                      (decode_command c.params payload)).1 { seq_wake = true })))

    abbrev pub Echoed : SimServer E → ℕ → Bytes → Bytes → EchoStatus × SimServer E → Type 0
    Echoed s wall p payload (status, s') =
        (s1 : SimServer E) × Acted s wall payload s1 × Told g s1 s' p status

    concluded-Echoed :
        (s s1 : SimServer E) (wall : ℕ) (p payload : Bytes) (status : EchoStatus)
        → Acted s wall payload s1
        → Echoed s wall p payload (concluded g command_handler s1 p status)
    concluded-Echoed s s1 wall p payload status acted =
        (s1, acted, echo_command-Told g s1 p status fits)

    judged-Echoed :
        (s : SimServer E) (wall : ℕ) (p payload : Bytes) (c : CommandDef) (r : Effect E)
        → r ≡ apply_command g command_handler s wall c (decode_command c.params payload)
        → Echoed s wall p payload (judged g command_handler p r)
    judged-Echoed s wall p payload c (none, s1) h =
        concluded-Echoed s s1 wall p payload executed (inr (c, inl (ap (λ (r : Effect E). r.1) h)))
    judged-Echoed s wall p payload c (some e, s1) h = elim (Bool-cases (is_refusal e)) [
      | inl y ↦ rw y (
          concluded-Echoed s (record s1 { seq_wake = true }) wall p payload failed
            (inr (c, inr (ap (λ (r : Effect E). record r.1 { seq_wake = true }) h))))
      | inr n ↦ rw n (
          concluded-Echoed s s1 wall p payload failed (inr (c, inl (ap (λ (r : Effect E). r.1) h))))
    ]

    dispatch_known-Echoed :
        (s : SimServer E) (wall : ℕ) (p payload : Bytes) (c : CommandDef)
        → Echoed s wall p payload (dispatch_known g command_handler s wall p payload c)
    dispatch_known-Echoed s wall p payload c =
        elim (Bool-cases
          (length (range_violations c.params (decode_command c.params payload)) == 0)) [
            | inl e ↦ rw e (
                judged-Echoed s wall p payload c
                  (apply_command g command_handler s wall c (decode_command c.params payload)) refl)
            | inr e ↦ rw e (concluded-Echoed s s wall p payload rejected (inl refl))
          ]

    dispatch_found-Echoed :
        (s : SimServer E) (wall : ℕ) (p payload : Bytes) (c : Option CommandDef)
        → Echoed s wall p payload (dispatch_found g command_handler s wall p payload c)
    dispatch_found-Echoed s wall p payload none =
        concluded-Echoed s s wall p payload unknown_opcode (inl refl)
    dispatch_found-Echoed s wall p payload (some c) = dispatch_known-Echoed s wall p payload c

    dispatch_opcode-Echoed :
        (s : SimServer E) (wall : ℕ) (p : Bytes) (r : Option ℕ × Bytes)
        → Echoed s wall p r.1 (dispatch_opcode g command_handler s wall p r)
    dispatch_opcode-Echoed s wall p (none, payload) =
        concluded-Echoed s s wall p payload failed (inl refl)
    dispatch_opcode-Echoed s wall p (some opcode, payload) =
        dispatch_found-Echoed s wall p payload (command_by_opcode g.simdef.commands opcode)

    -- Where a CRC has 16 bits, every dispatch, on every branch, ends with an echo of the packet, and the
    -- echo reads back as the status that the dispatch returns. The echo goes out from the server as it
    -- was, or as the consumers of a command leave it, given the packet's payload; it is last in the queue
    -- of each client whose queue then has room.
    pub dispatch-Echoed :
        (s : SimServer E) (wall : ℕ) (p : Bytes)
        → Echoed s wall p (parse_command_packet p).1 (dispatch g command_handler s wall p)
    unfolding dispatch
    dispatch-Echoed s wall p = dispatch_opcode-Echoed s wall p (parse_command_packet p)
