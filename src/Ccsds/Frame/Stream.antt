-- ===== src/Ccsds/Frame/Stream.antt =====
-- `deframe` on a stream that arrives in pieces.
use xtce_sim.Prelude.{
  ℕ, zero, suc, ◌≤◌, ◌<◌, ◌≡◌, refl, sym, ap, ◌∙◌, List, [], ◌∷◌, ◌++◌, arith, length, Result, ok,
  err, frame_error, Error, ◌>>=◌, ◌⊎◌, inl, inr,
}
use mathlib.Core.List.{append_assoc}
use xtce_sim.Struct.{Bytes}
use xtce_sim.Ccsds.Frame.{Scan, partial, refused, packet, scan, deframe_loop, deframe}
use xtce_sim.Ccsds.Frame.Round.{scan-append, scan-shorter}

-- What a further packet adds to a result of `deframe`.
abbrev pub prepend : List Bytes → Result (List Bytes × Bytes) → Result (List Bytes × Bytes)
prepend ps m = m >>= λ (qs, left). ok (ps ++ qs, left)

module _ (crc16 : Bytes → ℕ) where
  -- The loop, by what one round gives.
  abbrev pub round : Scan → Bytes → Result (List Bytes × Bytes)
  round partial buffer = ok ([], buffer)
  round refused buffer = err frame_error
  round (packet p rest) buffer = prepend (p ∷ []) (deframe crc16 rest)

  pub Scan-cases :
      (s : Scan) → (s ≡ partial) ⊎ ((s ≡ refused) ⊎ ((p : Bytes) × (r : Bytes) × (s ≡ packet p r)))
  Scan-cases partial = inl refl
  Scan-cases refused = inr (inl refl)
  Scan-cases (packet p r) = inr (inr (p, r, refl))

  -- More fuel than the buffer has bytes changes nothing.
  deframe_loop_fuel :
      (f g : ℕ) (buffer : Bytes)
      → length buffer ≤ f
      → length buffer ≤ g
      → deframe_loop crc16 f buffer ≡ deframe_loop crc16 g buffer
  unfolding deframe_loop
  deframe_loop_fuel zero zero buffer hf hg = refl
  deframe_loop_fuel zero (suc g) [] hf hg = unfold scan in refl
  deframe_loop_fuel zero (suc g) (b ∷ buffer) hf hg = absurd (omega arith)
  deframe_loop_fuel (suc f) zero [] hf hg = unfold scan in refl
  deframe_loop_fuel (suc f) zero (b ∷ buffer) hf hg = absurd (omega arith)
  deframe_loop_fuel (suc f) (suc g) buffer hf hg = elim (Scan-cases (scan crc16 buffer)) [
    | inl e ↦ rw (e, deframe_loop)
    | inr (inl e) ↦ rw (e, deframe_loop)
    | inr (inr (p, r, e)) ↦
        let shorter = scan-shorter crc16 buffer e in
        rw (e, deframe_loop, deframe_loop_fuel f g r (omega arith) (omega arith))
  ]

  -- The equation of the loop, with no fuel.
  pub deframe_lem : (buffer : Bytes) → deframe crc16 buffer ≡ round (scan crc16 buffer) buffer
  unfolding deframe
  deframe_lem buffer =
      deframe_loop_fuel (length buffer) (suc (length buffer)) buffer (omega arith) (omega arith)
      ∙ step
    where
      step : deframe_loop crc16 (suc (length buffer)) buffer ≡ round (scan crc16 buffer) buffer
      step = elim (Scan-cases (scan crc16 buffer)) [
        | inl e ↦ rw (e, deframe_loop)
        | inr (inl e) ↦ rw (e, deframe_loop)
        | inr (inr (p, r, e)) ↦
            let shorter = scan-shorter crc16 buffer e in
            rw (
              e,
              deframe_loop,
              deframe_loop_fuel (length buffer) (length r) r (omega arith) (omega arith),
            )
      ]

  prepend_assoc :
      (ps qs : List Bytes) (m : Result (List Bytes × Bytes))
      → prepend ps (prepend qs m) ≡ prepend (ps ++ qs) m
  prepend_assoc ps qs (ok (rs, left)) =
      ap (λ (l : List Bytes). ok (l, left)) (sym (append_assoc ps qs rs))
  prepend_assoc ps qs (err e) = refl

  prepend-nil : (m : Result (List Bytes × Bytes)) → prepend [] m ≡ m
  prepend-nil (ok (qs, left)) = refl
  prepend-nil (err e) = refl

  pub prepend-ok :
      (p : Bytes) (m : Result (List Bytes × Bytes)) {ps : List Bytes} {left : Bytes}
      → prepend (p ∷ []) m ≡ ok (ps, left)
      → (qs : List Bytes) × (m ≡ ok (qs, left)) × (ps ≡ p ∷ qs)
  prepend-ok p (ok (qs, left)) h = (qs, ground arith, ground arith)
  prepend-ok p (err e) h = cc

  stream_fuel :
      (fuel : ℕ) (buffer more : Bytes) (ps : List Bytes) (left : Bytes)
      → length buffer < fuel
      → deframe crc16 buffer ≡ ok (ps, left)
      → deframe crc16 (buffer ++ more) ≡ prepend ps (deframe crc16 (left ++ more))
  stream_fuel zero buffer more ps left hf h = absurd (omega arith)
  stream_fuel (suc fuel) buffer more ps left hf h = elim (Scan-cases (scan crc16 buffer)) [
    | inl e ↦
        let found : round partial buffer ≡ ok (ps, left) = rw (deframe_lem buffer, e) at h in
        let none_yet : ps ≡ [] = ground arith in
        let all_left : left ≡ buffer = ground arith in rw (none_yet, all_left) (sym (prepend-nil _))
    | inr (inl e) ↦
        let found : round refused buffer ≡ ok (ps, left) = rw (deframe_lem buffer, e) at h in cc
    | inr (inr (p, r, e)) ↦
        let shorter = scan-shorter crc16 buffer e in
        let found : prepend (p ∷ []) (deframe crc16 r) ≡ ok (ps, left) =
          rw (deframe_lem buffer, e) at h in
        let (qs, rest_read, split) = prepend-ok p (deframe crc16 r) found in
        let later = stream_fuel fuel r more qs left (omega arith) rest_read in
        let grown : scan crc16 (buffer ++ more) ≡ packet p (r ++ more) =
          scan-append crc16 buffer more (λ c. cc) ∙ rw e in
        rw (deframe_lem (buffer ++ more), grown, later, split) (prepend_assoc (p ∷ []) qs _)
  ]

  -- Bytes that arrive later are read as if they had stood in the buffer from the start: the
  -- packets so far, and then what the rest of the buffer gives with the new bytes behind it.
  pub deframe-append :
      (buffer more : Bytes) {ps : List Bytes} {left : Bytes}
      → deframe crc16 buffer ≡ ok (ps, left)
      → deframe crc16 (buffer ++ more) ≡ prepend ps (deframe crc16 (left ++ more))
  deframe-append buffer more {ps} {left} h =
      stream_fuel (suc (length buffer)) buffer more ps left (omega arith) h

  prepend-err :
      (ps : List Bytes) (m : Result (List Bytes × Bytes)) {e : Error}
      → prepend ps m ≡ err e
      → m ≡ err e
  prepend-err ps (ok (qs, left)) h = cc
  prepend-err ps (err e) h = h

  error_fuel :
      (fuel : ℕ) (buffer more : Bytes) (e : Error)
      → length buffer < fuel
      → deframe crc16 buffer ≡ err e
      → deframe crc16 (buffer ++ more) ≡ err e
  error_fuel zero buffer more e hf h = absurd (omega arith)
  error_fuel (suc fuel) buffer more e hf h = elim (Scan-cases (scan crc16 buffer)) [
    | inl s ↦ let found : round partial buffer ≡ err e = rw (deframe_lem buffer, s) at h in cc
    | inr (inl s) ↦
        let found : round refused buffer ≡ err e = rw (deframe_lem buffer, s) at h in
        let grown : scan crc16 (buffer ++ more) ≡ refused =
          scan-append crc16 buffer more (λ c. cc) ∙ rw s in
        rw (deframe_lem (buffer ++ more), grown) found
    | inr (inr (p, r, s)) ↦
        let shorter = scan-shorter crc16 buffer s in
        let found : prepend (p ∷ []) (deframe crc16 r) ≡ err e = rw (deframe_lem buffer, s) at h in
        let grown : scan crc16 (buffer ++ more) ≡ packet p (r ++ more) =
          scan-append crc16 buffer more (λ c. cc) ∙ rw s in
        let later =
          error_fuel fuel r more e (omega arith) (prepend-err (p ∷ []) (deframe crc16 r) found) in
        rw (deframe_lem (buffer ++ more), grown, later)
  ]

  -- A refused stream stays refused, whatever comes later.
  pub deframe-append_err :
      (buffer more : Bytes) (e : Error)
      → deframe crc16 buffer ≡ err e
      → deframe crc16 (buffer ++ more) ≡ err e
  deframe-append_err buffer more e h =
      error_fuel (suc (length buffer)) buffer more e (omega arith) h
