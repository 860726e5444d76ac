-- ===== src/FileService/Uplink/Landing.antt =====
-- What an uplink packet can do to the stored files.
use xtce_sim.Prelude.{
  ℕ, ◌+◌, ◌≤◌, ◌≡◌, refl, ◌∙◌, List, [], arith, length, some, Option-cases, Bool, true, false,
  Bool-cases, inl, inr, ◌⊎◌, ok, err, value_error, ◌==◌, leb, is_some, bit_and, max,
}
use xtce_sim.Prelude.Equality.{nat_eq, list_eq, list_beq, list_beq_iff}
use xtce_sim.Prelude.Dict
use xtce_sim.Struct.{Bytes}
use xtce_sim.Utf8.{Text}
use xtce_sim.Zlib.{crc32}
use xtce_sim.Ccsds.Uplink.{Uplink, start, chunk_at, finish, parse_file_uplink}
use xtce_sim.Ccsds.Uplink.Errors.{parse_file_uplink-err}
use xtce_sim.FileStore.{read, room_for, write, available, size_or_zero, used}
use xtce_sim.FileStore.Names.{IsLegal}
use xtce_sim.FileStore.Contents.{room_for-legal, write-legal, read-write, read-write_failed}
use xtce_sim.FileStore.Accounting.{used-write-max, used-write_failed}
use xtce_sim.FileService.{FileService, Transfer, Receipt}
use xtce_sim.FileService.Uplink.{
  transfer_of, abort, without, accept_start, on_start, on_data, land, verify, on_finish, on_uplink,
  handle_uplink,
}
use xtce_sim.FileService.Uplink.Invariant.{AllSound, Result-cases}

-- All the declared bytes have come, and they have the declared CRC.
pub record IsVerified (t : Transfer) : Type 0 where
  pub whole : length t.buffer ≡ t.size
  pub intact : bit_and (crc32 t.buffer) 0xffffffff ≡ t.crc

-- How the store after a call stands to that before it, with the transfer that the call ended.
pub data Effect (s : FileService) (source : ℕ) (after : FileService) : Type 0 where
  kept : after.store ≡ s.store → Effect s source after
  failed_write :
      (t : Transfer)
      → IsLegal t.filename
      → after.store ≡ (write false s.store t.filename t.buffer).1
      → Effect s source after
  landed :
      (t : Transfer)
      → transfer_of s source ≡ some t
      → IsVerified t
      → IsLegal t.filename
      → room_for s.store t.filename (length t.buffer) ≡ ok true
      → after.store ≡ (write true s.store t.filename t.buffer).1
      → after.received_count ≡ s.received_count + 1
      → Effect s source after

pub abort-store : (s : FileService) (now source : ℕ) → (abort s now source).1.store ≡ s.store
unfolding abort
abort-store s now source = elim (Option-cases (transfer_of s source)) [
  | inl gone ↦ rw (abort, gone)
  | inr (t, there) ↦ rw (abort, there)
]

accept_start-store :
    (s : FileService) (now : ℕ) (receipts : List Receipt) (source : ℕ) (name : Text) (size crc : ℕ)
    → (accept_start s now receipts source name size crc).1.store ≡ s.store
unfolding accept_start
accept_start-store s now receipts source name size crc = ground arith

on_start-store :
    (s : FileService) (now source : ℕ) (name : Text) (size crc : ℕ)
    → (on_start s now source name size crc).1.store ≡ s.store
unfolding on_start
on_start-store s now source name size crc = elim (Bool-cases (is_some (transfer_of s source))) [
  | inl old ↦ rw old (accept_start-store _ now _ source name size crc ∙ abort-store s now source)
  | inr none_yet ↦ rw none_yet (accept_start-store s now [] source name size crc)
]

on_data-store :
    (s : FileService) (now source offset : ℕ) (chunk : Bytes)
    → (on_data s now source offset chunk).1.store ≡ s.store
unfolding on_data
on_data-store s now source offset chunk = ground (arith, abort-store s now source)

pub land-written :
    (s : FileService) (now : ℕ) (t : Transfer)
    → IsLegal t.filename
    → ((land s now true t).1.store ≡ (write true s.store t.filename t.buffer).1)
      × ((land s now true t).1.received_count ≡ s.received_count + 1)
      × ((land s now true t).1.transfers ≡ s.transfers)
unfolding land
land-written s now t legal = rw (land, done) (refl, refl, refl)
  where
    done : (write true s.store t.filename t.buffer).0 ≡ ok tt
    done = rw (write-legal true s.store t.filename t.buffer legal)

land-failed :
    (s : FileService) (now : ℕ) (t : Transfer)
    → IsLegal t.filename
    → (land s now false t).1.store ≡ (write false s.store t.filename t.buffer).1
unfolding land
land-failed s now t legal =
    rw (land, (read-write_failed s.store t.filename t.filename t.buffer legal legal).0) refl

land-Effect :
    (before : FileService) (now : ℕ) (written : Bool) (source : ℕ) (t : Transfer)
    → transfer_of before source ≡ some t
    → IsLegal t.filename
    → IsVerified t
    → room_for before.store t.filename (length t.buffer) ≡ ok true
    → Effect before source (land (without before source) now written t).1
land-Effect before now true source t there legal verified room =
    let (stored, counted, same) = land-written (without before source) now t legal in
    landed t there verified legal room stored counted
land-Effect before now false source t there legal verified room =
    failed_write t legal (land-failed (without before source) now t legal)

-- `before` is the service with the transfer, and `s` the one from which it was popped.
verify-Effect :
    (before : FileService) (now : ℕ) (written : Bool) (source : ℕ) (t : Transfer)
    → transfer_of before source ≡ some t
    → IsLegal t.filename
    → Effect before source (verify (without before source) now written t).1
unfolding verify land
verify-Effect before now written source t there legal =
    elim (Bool-cases (length t.buffer == t.size)) [
      | inr lacking ↦ kept (rw lacking)
      | inl whole ↦ elim (Bool-cases (bit_and (crc32 t.buffer) 0xffffffff == t.crc)) [
        | inr corrupt ↦ kept (rw (whole, corrupt))
        | inl intact ↦
            let size : length t.buffer ≡ t.size = ground arith in
            let same : bit_and (crc32 t.buffer) 0xffffffff ≡ t.crc = ground arith in
            let room = room_for-legal before.store t.filename (length t.buffer) legal in
            elim (Bool-cases (
              leb (length t.buffer)
                (available before.store + size_or_zero (Dict.get before.store.files t.filename)))) [
                  | inr full ↦ kept (rw (whole, intact, verify, ← size, room, full))
                  | inl free ↦
                      rw (whole, intact, verify, ← size, room, free)
                        (land-Effect before now written source t there legal
                          (record { whole = size; intact = same }) (rw (room, free)))
                ]
      ]
    ]

on_finish-Effect :
    (s : FileService) (now : ℕ) (written : Bool) (source : ℕ)
    → AllSound s.transfers
    → Effect s source (on_finish s now written source).1
unfolding on_finish
on_finish-Effect s now written source sound = elim (Option-cases (transfer_of s source)) [
  | inl gone ↦ kept (rw (on_finish, gone))
  | inr (t, there) ↦
      rw (on_finish, there)
        (verify-Effect s now written source t there (sound source t there).legal)
]

on_uplink-Effect :
    (s : FileService) (now : ℕ) (written : Bool) (source : ℕ) (u : Uplink)
    → AllSound s.transfers
    → Effect s source (on_uplink s now written source u).1
unfolding on_uplink
on_uplink-Effect s now written source (start name size crc) sound =
    kept (on_start-store s now source name size crc)
on_uplink-Effect s now written source (chunk_at offset chunk) sound =
    kept (on_data-store s now source offset chunk)
on_uplink-Effect s now written source finish sound = on_finish-Effect s now written source sound

-- A packet leaves the store as it is, or tries to write and fails, or lands the whole file of the
-- connection's own transfer, after its length and its CRC were found right and there was room.
pub handle_uplink-Effect :
    (s : FileService) (now : ℕ) (written : Bool) (source : ℕ) (packet : Bytes)
    → AllSound s.transfers
    → Effect s source (handle_uplink s now written source packet).1
unfolding handle_uplink
handle_uplink-Effect s now written source packet sound =
    elim (Result-cases (parse_file_uplink packet)) [
      | inr (u, read_ok) ↦
          rw (handle_uplink, read_ok) (on_uplink-Effect s now written source u sound)
      | inl (e, bad) ↦
          let malformed : parse_file_uplink packet ≡ err value_error =
            cc (bad, parse_file_uplink-err packet e bad) in
          rw (handle_uplink, malformed) (kept (abort-store s now source))
    ]

Effect-used :
    {s after : FileService} (source : ℕ)
    → Effect s source after
    → used after.store ≤ max s.store.quota (used s.store)
Effect-used source (kept e) = rw e (omega arith)
Effect-used source (failed_write t legal e) =
    rw e (omega (arith, used-write_failed _ t.filename t.buffer legal))
Effect-used source (landed t there verified legal room e counted) =
    rw e (used-write-max _ t.filename t.buffer legal room)

-- No upload takes the store over its quota. (A store that was over it when it was opened gets no
-- fuller.)
pub handle_uplink-used :
    (s : FileService) (now : ℕ) (written : Bool) (source : ℕ) (packet : Bytes)
    → AllSound s.transfers
    → used (handle_uplink s now written source packet).1.store ≤ max s.store.quota (used s.store)
handle_uplink-used s now written source packet sound =
    Effect-used source (handle_uplink-Effect s now written source packet sound)

Effect-read :
    {s after : FileService} (source : ℕ) (j : Text)
    → IsLegal j
    → Effect s source after
    → (read after.store j ≡ read s.store j)
      ⊎ ((t : Transfer) × (transfer_of s source ≡ some t)
          × IsVerified t
          × (t.filename ≡ j)
          × (read after.store j ≡ ok t.buffer))
Effect-read source j legal (kept e) = inl (rw e)
Effect-read source j legal (failed_write t named e) =
    inl (rw e (read-write_failed _ t.filename j t.buffer named legal).1)
Effect-read source j legal (landed t there verified named room e counted) =
    elim (Bool-cases (list_beq t.filename j)) [
      | inl same ↦ inr (
        t,
        there,
        verified,
        (list_beq_iff t.filename j).0 same,
        rw e (read-write _ t.filename j t.buffer named legal ∙ rw same),
      )
      | inr other ↦ inl (rw e (read-write _ t.filename j t.buffer named legal ∙ rw other))
    ]

-- The file `j` after a packet: unchanged, or the bytes of the connection's verified transfer, whose
-- name is `j`.
pub handle_uplink-read :
    (s : FileService) (now : ℕ) (written : Bool) (source : ℕ) (packet : Bytes) (j : Text)
    → AllSound s.transfers
    → IsLegal j
    → (read (handle_uplink s now written source packet).1.store j ≡ read s.store j)
      ⊎ ((t : Transfer) × (transfer_of s source ≡ some t)
          × IsVerified t
          × (t.filename ≡ j)
          × (read (handle_uplink s now written source packet).1.store j ≡ ok t.buffer))
handle_uplink-read s now written source packet j sound legal =
    Effect-read source j legal (handle_uplink-Effect s now written source packet sound)
