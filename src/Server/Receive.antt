-- ===== src/Server/Receive.antt =====
-- The read loop of `SimServer._handle_client` in xtce_sim/server.py: pieces of a byte stream come
-- in, and packets go to the command dispatch or to the file service.
use xtce_sim.Prelude.{
  ℕ, ◌≡◌, refl, ◌∙◌, sym, ap, List, [], ◌∷◌, ◌++◌, arith, length, length-append, Bool, true, false,
  Result, ok, err, ltb, ◌==◌, if◌then◌else◌, All, Error, ◌⊎◌, inl, inr,
}
use mathlib.Core.List.{append-nil, append_assoc}
use xtce_sim.Struct.{Bytes}
use xtce_sim.Ccsds.Header.{unpack}
use xtce_sim.Ccsds.Uplink.{file_uplink_apid}
use xtce_sim.Ccsds.Frame.{partial, scan, deframe}
use xtce_sim.Ccsds.Frame.Stream.{prepend, round, deframe_lem, deframe-append, deframe-append_err}

-- `_is_file_uplink`; the slice `packet[:6]` is what `unpack` reads anyway.
unfoldable pub is_file_uplink : Bytes → Bool
is_file_uplink p =
    if ltb (length p) 6
    then false
    else elim (unpack p) [ ok h ↦ h.apid == file_uplink_apid | err e ↦ false ]

module _ (crc16 : Bytes → ℕ) where
  -- The packets in the order in which the loop hands them on, and whether a framing error ended
  -- it. An empty read is the end of the stream, and so is the end of the list.
  pub receive : Bytes → List Bytes → List Bytes × Bool
  receive buffer [] = ([], false)
  receive buffer ([] ∷ reads) = ([], false)
  receive buffer ((b ∷ data_read) ∷ reads) = elim (deframe crc16 (buffer ++ (b ∷ data_read))) [
    | err e ↦ ([], true)
    | ok (packets, left) ↦ let rest = receive left reads in (packets ++ rest.0, rest.1)
  ]

  abbrev pub NotEmpty : Bytes → Type 0
  NotEmpty [] = ⊥
  NotEmpty (b ∷ bs) = Unit

  -- The bytes of all reads.
  abbrev pub joined : List Bytes → Bytes
  joined [] = []
  joined (r ∷ reads) = r ++ joined reads

  Result-cases :
      (m : Result (List Bytes × Bytes))
      → ((e : Error) × (m ≡ err e)) ⊎ ((qs : List Bytes) × (l : Bytes) × (m ≡ ok (qs, l)))
  Result-cases (ok (qs, l)) = inr (qs, l, refl)
  Result-cases (err e) = inl (e, refl)

  prepend-ok_parts :
      (ps qs : List Bytes) (m : Result (List Bytes × Bytes)) (left : Bytes)
      → prepend ps m ≡ ok (qs, left)
      → (rs : List Bytes) × (m ≡ ok (rs, left)) × (qs ≡ ps ++ rs)
  prepend-ok_parts ps qs (ok (rs, l)) left h = (rs, ground arith, ground arith)
  prepend-ok_parts ps qs (err e) left h = cc

  append-eq_self : (ps rs : List Bytes) → ps ≡ ps ++ rs → rs ≡ []
  append-eq_self ps [] h = refl
  append-eq_self ps (r ∷ rs) h = absurd (omega (arith, ap length h, length-append ps (r ∷ rs)))

  -- What `deframe` keeps holds no packet.
  left_over :
      (buffer : Bytes) (ps : List Bytes) (left : Bytes)
      → deframe crc16 buffer ≡ ok (ps, left)
      → deframe crc16 left ≡ ok ([], left)
  left_over buffer ps left h =
      let again : deframe crc16 buffer ≡ prepend ps (deframe crc16 left) =
        rw (append-nil buffer, append-nil left) at (deframe-append crc16 buffer [] h) in
      let (rs, read, split) = prepend-ok_parts ps ps (deframe crc16 left) left (sym again ∙ h) in
      read ∙ rw (append-eq_self ps rs split)

  receive_from :
      (buffer : Bytes) (reads : List Bytes) (ps : List Bytes) (left : Bytes)
      → All NotEmpty reads
      → deframe crc16 buffer ≡ ok ([], buffer)
      → deframe crc16 (buffer ++ joined reads) ≡ ok (ps, left)
      → receive buffer reads ≡ (ps, false)
  unfolding receive
  receive_from buffer [] ps left full idle h =
      let same : ok (ps, left) ≡ round crc16 partial buffer = sym h ∙ rw append-nil idle in
      ground arith
  receive_from buffer ([] ∷ reads) ps left full idle h = absurd full.0
  receive_from buffer ((b ∷ bs) ∷ reads) ps left full idle h =
      elim (Result-cases (deframe crc16 (buffer ++ (b ∷ bs)))) [
        | inl (e, failed) ↦ cc (
          h,
          append_assoc buffer (b ∷ bs) (joined reads),
          deframe-append_err crc16 (buffer ++ (b ∷ bs)) (joined reads) e failed,
        )
        | inr (qs, l, found) ↦
            let whole : prepend qs (deframe crc16 (l ++ joined reads)) ≡ ok (ps, left) =
              sym (deframe-append crc16 (buffer ++ (b ∷ bs)) (joined reads) found)
              ∙ rw (append_assoc buffer (b ∷ bs) (joined reads)) h in
            let (rs, rest_read, split) =
              prepend-ok_parts qs ps (deframe crc16 (l ++ joined reads)) left whole in
            let rest =
              receive_from l reads rs left full.1 (left_over (buffer ++ (b ∷ bs)) qs l found)
                rest_read in
            rw (receive, found, rest, split)
      ]

  -- However the network cuts a stream without framing errors into reads, the loop hands on the
  -- packets that `deframe` finds in the whole of it, in order, and never drops the connection.
  pub receive-joined :
      (reads : List Bytes) (ps : List Bytes) (left : Bytes)
      → All NotEmpty reads
      → deframe crc16 (joined reads) ≡ ok (ps, left)
      → receive [] reads ≡ (ps, false)
  receive-joined reads ps left full h =
      receive_from [] reads ps left full (deframe_lem crc16 [] ∙ unfold scan in refl) h
