-- ===== src/Ccsds/Frame/Deframe.antt =====
-- `deframe` is the inverse of framing packets one after another.
use xtce_sim.Prelude.{
  ℕ, zero, suc, ◌+◌, ◌*◌, ◌≤◌, ◌<◌, ◌≡◌, refl, sym, ap, ◌∙◌, List, [], ◌∷◌, ◌++◌, arith, length,
  All-append_right, subst, Result, ok, ◌>>=◌, >>=-eq-ok, inl, inr,
}
use mathlib.Core.List.{append_assoc}
use xtce_sim.Struct.{Bytes, IsByte, IsBytes}
use xtce_sim.Ccsds.Frame.{partial, refused, cut, scan, frame, deframe}
use xtce_sim.Ccsds.Frame.Round.{scan-shorter}
use xtce_sim.Ccsds.Frame.RoundTrip.{wire, frame-ok, frame-eq-ok, scan-wire, scan-packet}
use xtce_sim.Ccsds.Frame.Stream.{prepend, prepend-ok, round, Scan-cases, deframe_lem}

-- Too short for a length, or for the frame whose length it declares.
abbrev pub IsIncomplete : Bytes → Type 0
IsIncomplete [] = Unit
IsIncomplete (a ∷ []) = Unit
IsIncomplete (a ∷ b ∷ rest) = (4 ≤ a * 256 + b) × (suc (suc (length rest)) < a * 256 + b)

module _ (crc16 : Bytes → ℕ) where
  -- The frames of a list of packets, one after another.
  abbrev pub frame_all : List Bytes → Result Bytes
  frame_all [] = ok []
  frame_all (p ∷ ps) = frame crc16 p >>= λ w. frame_all ps >>= λ ws. ok (w ++ ws)

  scan-IsIncomplete : (rest : Bytes) → IsIncomplete rest → scan crc16 rest ≡ partial
  unfolding scan cut
  scan-IsIncomplete [] h = refl
  scan-IsIncomplete (a ∷ []) h = refl
  scan-IsIncomplete (a ∷ b ∷ rest) h = ground arith

  scan-partial : (rest : Bytes) → scan crc16 rest ≡ partial → IsIncomplete rest
  unfolding scan cut
  scan-partial [] h = tt
  scan-partial (a ∷ []) h = tt
  scan-partial (a ∷ b ∷ rest) h = ground arith

  -- `deframe` reads every packet that was framed into the buffer, in order, and keeps the bytes of
  -- the frame that is not complete yet.
  pub deframe-frame_all :
      (ps : List Bytes) (rest : Bytes) {w : Bytes}
      → frame_all ps ≡ ok w
      → IsIncomplete rest
      → deframe crc16 (w ++ rest) ≡ ok (ps, rest)
  deframe-frame_all [] rest {w} h waits =
      let empty : w ≡ [] = ground arith in
      rw (empty, deframe_lem crc16 rest, scan-IsIncomplete rest waits)
  deframe-frame_all (p ∷ ps) rest {w} h waits =
      let (u, first, h1) = >>=-eq-ok (frame crc16 p) _ h in
      let (us, others, joined) = >>=-eq-ok (frame_all ps) _ h1 in
      let (long, fits, same) = frame-ok crc16 p first in
      let whole : w ≡ wire crc16 p ++ us = ground arith in
      rw (
        whole,
        append_assoc (wire crc16 p) us rest,
        deframe_lem crc16 (wire crc16 p ++ (us ++ rest)),
        scan-wire crc16 p (us ++ rest),
        deframe-frame_all ps rest others waits,
      )

  inverse_fuel :
      (fuel : ℕ) (buffer : Bytes) (ps : List Bytes) (left : Bytes)
      → length buffer < fuel
      → IsBytes buffer
      → deframe crc16 buffer ≡ ok (ps, left)
      → (w : Bytes) × (frame_all ps ≡ ok w) × (buffer ≡ w ++ left) × IsIncomplete left
  inverse_fuel zero buffer ps left hf bytes h = absurd (omega arith)
  inverse_fuel (suc fuel) buffer ps left hf bytes h = elim (Scan-cases crc16 (scan crc16 buffer)) [
    | inl e ↦
        let found : round crc16 partial buffer ≡ ok (ps, left) =
          rw (deframe_lem crc16 buffer, e) at h in
        let none_yet : ps ≡ [] = ground arith in
        let all_left : left ≡ buffer = ground arith in
        ([], rw none_yet refl, sym all_left, rw all_left (scan-partial buffer e))
    | inr (inl e) ↦
        let found : round crc16 refused buffer ≡ ok (ps, left) =
          rw (deframe_lem crc16 buffer, e) at h in
        cc
    | inr (inr (p, r, e)) ↦
        let found : prepend (p ∷ []) (deframe crc16 r) ≡ ok (ps, left) =
          rw (deframe_lem crc16 buffer, e) at h in
        let (qs, rest_read, split) = prepend-ok crc16 p (deframe crc16 r) found in
        let (long, fits, stood) = scan-packet crc16 buffer bytes e in
        let shorter = scan-shorter crc16 buffer e in
        let (ws, framed, rest_bytes, waits) =
          inverse_fuel fuel r qs left (omega arith)
            (All-append_right IsByte (wire crc16 p) r (subst IsBytes stood bytes)) rest_read in
        (
          wire crc16 p ++ ws,
          rw (split, frame-eq-ok crc16 p long fits, framed),
          stood
              ∙ ap (λ (l : Bytes). wire crc16 p ++ l) rest_bytes
              ∙ sym (append_assoc (wire crc16 p) ws left),
          waits,
        )
  ]

  -- What `deframe` accepts is exactly a row of frames with an incomplete one behind it: framing
  -- the packets again gives back the bytes that it consumed.
  pub frame_all-deframe :
      (buffer : Bytes) (ps : List Bytes) (left : Bytes)
      → IsBytes buffer
      → deframe crc16 buffer ≡ ok (ps, left)
      → (w : Bytes) × (frame_all ps ≡ ok w) × (buffer ≡ w ++ left) × IsIncomplete left
  frame_all-deframe buffer ps left bytes h =
      inverse_fuel (suc (length buffer)) buffer ps left (omega arith) bytes h
