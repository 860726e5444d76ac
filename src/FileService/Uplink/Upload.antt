-- ===== src/FileService/Uplink/Upload.antt =====
-- A whole upload: START, the chunks in order, FINISH.
use xtce_sim.Prelude.{
  ℕ, ◌+◌, ◌≤◌, ◌≡◌, refl, sym, subst, ◌∙◌, ap, List, [], ◌∷◌, ◌++◌, arith, length, length-append,
  none, some, Option-cases, true, false, Bool-cases, inl, inr, ok, ◌==◌, if◌then◌else◌, ltb,
  is_some, bit_and,
}
use mathlib.Core.List.{append_assoc, append-nil}
use xtce_sim.Prelude.Equality.{nat_eq, list_eq, list_beq}
use xtce_sim.Prelude.Dict
use xtce_sim.Prelude.Dict.{get-put, get-remove}
use xtce_sim.Struct.{Bytes}
use xtce_sim.Utf8.{Text}
use xtce_sim.Zlib.{crc32}
use xtce_sim.Ccsds.Uplink.{Uplink, start, chunk_at, finish, parse_file_uplink}
use xtce_sim.FileStore.{FileStore, read, room_for, write}
use xtce_sim.FileStore.Names.{IsLegal}
use xtce_sim.FileStore.Contents.{read-write}
use xtce_sim.FileService.{FileService, Transfer, Receipt}
use xtce_sim.FileService.Uplink.{
  transfer_of, abort, without, accept_start, on_start, on_data, verify, on_finish, on_uplink,
  handle_uplink,
}
use xtce_sim.FileService.Uplink.Landing.{abort-store, land-written}

-- The service after a row of packets of one connection; the disk takes every write.
pub after_packets : FileService → ℕ → ℕ → List Bytes → FileService
after_packets s now source [] = s
after_packets s now source (p ∷ ps) =
    after_packets (handle_uplink s now true source p).1 now source ps

-- The chunks of a file as the ground numbers them.
abbrev pub chunk_events : ℕ → List Bytes → List Uplink
chunk_events offset [] = finish ∷ []
chunk_events offset (c ∷ cs) = chunk_at offset c ∷ chunk_events (offset + length c) cs

-- The file that the chunks make up.
abbrev pub whole : List Bytes → Bytes
whole [] = []
whole (c ∷ cs) = c ++ whole cs

-- `wire_crc` is what START declares.
abbrev pub wire_crc : Bytes → ℕ
wire_crc content = bit_and (crc32 content) 0xffffffff

abbrev pub Parsed : List Bytes → List Uplink → Type 0
Parsed [] [] = Unit
Parsed [] (u ∷ us) = ⊥
Parsed (p ∷ ps) [] = ⊥
Parsed (p ∷ ps) (u ∷ us) = (parse_file_uplink p ≡ ok u) × Parsed ps us

after_events : FileService → ℕ → ℕ → List Uplink → FileService
after_events s now source [] = s
after_events s now source (u ∷ us) = after_events (on_uplink s now true source u).1 now source us

after_packets-events :
    (s : FileService) (now source : ℕ) (ps : List Bytes) (us : List Uplink)
    → Parsed ps us
    → after_packets s now source ps ≡ after_events s now source us
unfolding after_packets after_events handle_uplink
after_packets-events s now source [] [] h = refl
after_packets-events s now source [] (u ∷ us) h = absurd h
after_packets-events s now source (p ∷ ps) [] h = absurd h
after_packets-events s now source (p ∷ ps) (u ∷ us) h =
    rw (handle_uplink, h.0)
      (after_packets-events (on_uplink s now true source u).1 now source ps us h.1)

-- `got` has come of the file, and nothing else has changed since `before`.
record Uploading (before s : FileService) (source : ℕ) (name : Text) (content got : Bytes)
    : Type 0 where
  same_store : s.store ≡ before.store
  same_count : s.received_count ≡ before.received_count
  running :
      transfer_of s source
      ≡ some
          (record { filename = name; size = length content; crc = wire_crc content; buffer = got })

accept_start-Uploading :
    (before s : FileService) (now : ℕ) (receipts : List Receipt) (source : ℕ) (name : Text)
    (content : Bytes)
    → s.store ≡ before.store
    → s.received_count ≡ before.received_count
    → IsLegal name
    → room_for before.store name (length content) ≡ ok true
    → Uploading before
        (accept_start s now receipts source name (length content) (wire_crc content)).1
        source
        name
        content
        []
unfolding accept_start
accept_start-Uploading before s now receipts source name content st ct legal room =
    rw (accept_start, legal, st, room)
      (record {
        same_store = st;
        same_count = ct;
        running = get-put s.transfers source source _ ∙ ground arith;
      })

abort-count :
    (s : FileService) (now source : ℕ) → (abort s now source).1.received_count ≡ s.received_count
unfolding abort
abort-count s now source = elim (Option-cases (transfer_of s source)) [
  | inl gone ↦ rw (abort, gone)
  | inr (t, there) ↦ rw (abort, there)
]

-- START begins the transfer, also where it ends another one of the connection.
on_start-Uploading :
    (s : FileService) (now source : ℕ) (name : Text) (content : Bytes)
    → IsLegal name
    → room_for s.store name (length content) ≡ ok true
    → Uploading s
        (on_start s now source name (length content) (wire_crc content)).1
        source
        name
        content
        []
unfolding on_start
on_start-Uploading s now source name content legal room =
    elim (Bool-cases (is_some (transfer_of s source))) [
      | inl old ↦ rw old (
          accept_start-Uploading s (abort s now source).1 now _ source name content
            (abort-store s now source) (abort-count s now source) legal room)
      | inr none_yet ↦
          rw none_yet (accept_start-Uploading s s now [] source name content refl refl legal room)
    ]

on_data-Uploading :
    (before s : FileService) (now source : ℕ) (name : Text) (content got chunk : Bytes)
    → Uploading before s source name content got
    → length got + length chunk ≤ length content
    → Uploading before
        (on_data s now source (length got) chunk).1
        source
        name
        content
        (got ++ chunk)
unfolding on_data
on_data-Uploading before s now source name content got chunk u fits =
    rw (on_data, u.running, next, within)
      (record {
        same_store = u.same_store;
        same_count = u.same_count;
        running = get-put s.transfers source source _ ∙ ground arith;
      })
  where
    next : (length got == length got) ≡ true
    next = ground arith

    within : ltb (length content) (length got + length chunk) ≡ false
    within = ground arith

-- FINISH lands the file.
on_finish-Uploading :
    (before s : FileService) (now source : ℕ) (name : Text) (content : Bytes)
    → IsLegal name
    → room_for before.store name (length content) ≡ ok true
    → Uploading before s source name content content
    → ((on_finish s now true source).1.store ≡ (write true before.store name content).1)
      × ((on_finish s now true source).1.received_count ≡ before.received_count + 1)
      × (transfer_of (on_finish s now true source).1 source ≡ none)
unfolding on_finish verify
on_finish-Uploading before s now source name content legal room u =
    let (stored, counted, kept) = land-written (without s source) now t legal in
    rw (on_finish, u.running, verify, complete, intact, u.same_store, room)
      (
        stored ∙ ap (λ (f : FileStore). (write true f name content).1) u.same_store,
        counted ∙ ap (λ (n : ℕ). n + 1) u.same_count,
        ap (λ (d : Dict.Dict ℕ Transfer). Dict.get d source) kept
            ∙ get-remove s.transfers source source
            ∙ ground arith,
      )
  where
    t : Transfer
    t = record { filename = name; size = length content; crc = wire_crc content; buffer = content }

    complete : (length content == length content) ≡ true
    complete = ground arith

    intact : (wire_crc content == wire_crc content) ≡ true
    intact = ground arith

-- The chunks of `rest`, and FINISH.
finish_upload :
    (before s : FileService) (now source : ℕ) (name : Text) (content got : Bytes)
    (rest : List Bytes)
    → IsLegal name
    → room_for before.store name (length content) ≡ ok true
    → content ≡ got ++ whole rest
    → Uploading before s source name content got
    → let after = after_events s now source (chunk_events (length got) rest) in
      (after.store ≡ (write true before.store name content).1)
      × (after.received_count ≡ before.received_count + 1)
      × (transfer_of after source ≡ none)
unfolding after_events on_uplink
finish_upload before s now source name content got [] legal room parts u =
    on_finish-Uploading before s now source name content legal room
      (subst (Uploading before s source name content) (rw (parts, append-nil) refl) u)
finish_upload before s now source name content got (c ∷ cs) legal room parts u =
    subst
      (λ n.
        let after =
          after_events (on_data s now source (length got) c).1 now source (chunk_events n cs) in
        (after.store ≡ (write true before.store name content).1)
        × (after.received_count ≡ before.received_count + 1)
        × (transfer_of after source ≡ none))
      (length-append got c)
      (finish_upload before (on_data s now source (length got) c).1 now source name content
        (got ++ c) cs legal room (parts ∙ sym (append_assoc got c (whole cs)))
        (on_data-Uploading before s now source name content got c u fits))
  where
    fits : length got + length c ≤ length content
    fits =
        omega
          (arith, ap length parts, length-append got (c ++ whole cs), length-append c (whole cs))

-- An upload whose packets come in order, with the size and the CRC of the file, for which there is
-- room, and which the disk writes: the store reads the file back, its other files are as they
-- were, the count has grown by one, and the connection has no transfer left.
pub upload_lands :
    (s : FileService) (now source : ℕ) (name j : Text) (chunks packets : List Bytes)
    → IsLegal name
    → IsLegal j
    → room_for s.store name (length (whole chunks)) ≡ ok true
    → Parsed packets
        (start name (length (whole chunks)) (wire_crc (whole chunks)) ∷ chunk_events 0 chunks)
    → let after = after_packets s now source packets in
      (read after.store j ≡ (if list_beq name j then ok (whole chunks) else read s.store j))
      × (after.received_count ≡ s.received_count + 1)
      × (transfer_of after source ≡ none)
upload_lands s now source name j chunks packets legal legal_j room parsed =
    rw (after_packets-events s now source packets _ parsed)
      ((rw landed.0 (read-write s.store name j content legal legal_j)), landed.1, landed.2)
  where
    content : Bytes
    content = whole chunks

    landed :
        let after =
          after_events s now source
            (start name (length content) (wire_crc content) ∷ chunk_events 0 chunks) in
        (after.store ≡ (write true s.store name content).1)
        × (after.received_count ≡ s.received_count + 1)
        × (transfer_of after source ≡ none)
    landed =
        unfold after_events on_uplink in
        finish_upload s (on_start s now source name (length content) (wire_crc content)).1 now
          source name content [] chunks legal room refl
          (on_start-Uploading s now source name content legal room)
