-- ===== src/FileService/Uplink/Invariant.antt =====
-- What holds of the transfers in progress, and that the uplink handlers never raise.
use xtce_sim.Prelude.{
  ℕ, ◌+◌, ◌≤◌, ◌≡◌, refl, subst, List, [], ◌++◌, arith, length, length-append, none, some,
  Option-cases, Bool, true, false, Bool-cases, inl, inr, Result, ok, err, Error, ◌==◌, ltb, leb,
  is_some, value_error, bit_and, ◌⊎◌,
}
use xtce_sim.Prelude.Equality.{nat_eq, list_eq}
use xtce_sim.Prelude.Dict
use xtce_sim.Prelude.Dict.{Dict, get-put, get-remove}
use xtce_sim.Struct.{Bytes}
use xtce_sim.Utf8.{Text}
use xtce_sim.Zlib.{crc32}
use xtce_sim.Ccsds.Uplink.{Uplink, start, chunk_at, finish, parse_file_uplink}
use xtce_sim.Ccsds.Uplink.Errors.{parse_file_uplink-err}
use xtce_sim.FileStore.{name_problem, available, size_or_zero}
use xtce_sim.FileStore.Names.{IsLegal}
use xtce_sim.FileStore.Contents.{room_for-legal, write-legal}
use xtce_sim.FileService.{FileService, Transfer, Receipt, Answer}
use xtce_sim.FileService.Uplink.{
  transfer_of, abort, without, accept_start, on_start, on_data, land, verify, on_finish, on_uplink,
  handle_uplink, connection_closed,
}

-- A transfer in progress has a name that the store takes, and no more bytes than it declared.
pub record IsSound (t : Transfer) : Type 0 where
  pub legal : IsLegal t.filename
  pub within : length t.buffer ≤ t.size

abbrev pub AllSound : Dict ℕ Transfer → Type 0
AllSound ts = (source : ℕ) (t : Transfer) → Dict.get ts source ≡ some t → IsSound t

pub put-AllSound :
    (ts : Dict ℕ Transfer) (source : ℕ) (t : Transfer)
    → AllSound ts
    → IsSound t
    → AllSound (Dict.put ts source t)
put-AllSound ts source t sound new j u e = elim (Bool-cases (source == j)) [
  | inl same ↦ let eq : t ≡ u = ground (arith, get-put ts source j t, same) in subst IsSound eq new
  | inr other ↦ sound j u (ground (arith, get-put ts source j t, other))
]

pub remove-AllSound :
    (ts : Dict ℕ Transfer) (source : ℕ) → AllSound ts → AllSound (Dict.remove ts source)
remove-AllSound ts source sound j u e = elim (Bool-cases (source == j)) [
  | inl same ↦ absurd (ground (arith, get-remove ts source j, same))
  | inr other ↦ sound j u (ground (arith, get-remove ts source j, other))
]

-- The handler answers with receipts, and its transfers are sound.
abbrev pub Good : Answer → Type 0
Good (ok receipts, s) = AllSound s.transfers
Good (err e, s) = ⊥

pub abort-AllSound :
    (s : FileService) (now source : ℕ)
    → AllSound s.transfers
    → AllSound (abort s now source).1.transfers
abort-AllSound s now source sound = elim (Option-cases (transfer_of s source)) [
  | inl gone ↦ unfold abort in rw (abort, gone) sound
  | inr (t, there) ↦ unfold abort in rw (abort, there) (remove-AllSound s.transfers source sound)
]

accept_start-Good :
    (s : FileService) (now : ℕ) (receipts : List Receipt) (source : ℕ) (name : Text) (size crc : ℕ)
    → AllSound s.transfers
    → Good (accept_start s now receipts source name size crc)
unfolding accept_start
accept_start-Good s now receipts source name size crc sound =
    elim (Option-cases (name_problem name)) [
      | inr (problem, e) ↦ rw (accept_start, e) sound
      | inl legal ↦
          elim (Bool-cases
            (leb size (available s.store + size_or_zero (Dict.get s.store.files name)))) [
              | inl room ↦
                  rw (accept_start, legal, room_for-legal s.store name size legal, room)
                    (put-AllSound s.transfers source _ sound
                      (record { legal = legal; within = omega arith }))
              | inr full ↦
                  rw (accept_start, legal, room_for-legal s.store name size legal, full) sound
            ]
    ]

on_start-Good :
    (s : FileService) (now source : ℕ) (name : Text) (size crc : ℕ)
    → AllSound s.transfers
    → Good (on_start s now source name size crc)
unfolding on_start
on_start-Good s now source name size crc sound =
    elim (Bool-cases (is_some (transfer_of s source))) [
      | inl old ↦
          rw old
            (accept_start-Good _ now _ source name size crc (abort-AllSound s now source sound))
      | inr none_yet ↦ rw none_yet (accept_start-Good s now [] source name size crc sound)
    ]

on_data-Good :
    (s : FileService) (now source offset : ℕ) (chunk : Bytes)
    → AllSound s.transfers
    → Good (on_data s now source offset chunk)
unfolding on_data
on_data-Good s now source offset chunk sound = elim (Option-cases (transfer_of s source)) [
  | inl gone ↦ rw (on_data, gone) sound
  | inr (t, there) ↦ elim (Bool-cases (offset == length t.buffer)) [
    | inr astray ↦ rw (on_data, there, astray) (abort-AllSound s now source sound)
    | inl next ↦ elim (Bool-cases (ltb t.size (length t.buffer + length chunk))) [
      | inl over ↦ rw (on_data, there, next, over) (abort-AllSound s now source sound)
      | inr fits ↦
          let grown : length (t.buffer ++ chunk) ≤ t.size =
            ground (arith, fits, length-append t.buffer chunk) in
          rw (on_data, there, next, fits)
            (put-AllSound s.transfers source _ sound
              (record { legal = (sound source t there).legal; within = grown }))
    ]
  ]
]

land-Good :
    (s : FileService) (now : ℕ) (written : Bool) (t : Transfer)
    → IsLegal t.filename
    → AllSound s.transfers
    → Good (land s now written t)
unfolding land
land-Good s now true t legal sound =
    rw (land, write-legal true s.store t.filename t.buffer legal) sound
land-Good s now false t legal sound =
    rw (land, write-legal false s.store t.filename t.buffer legal) sound

verify-Good :
    (s : FileService) (now : ℕ) (written : Bool) (t : Transfer)
    → IsLegal t.filename
    → AllSound s.transfers
    → Good (verify s now written t)
unfolding verify
verify-Good s now written t legal sound = elim (Bool-cases (length t.buffer == t.size)) [
  | inr lacking ↦ rw lacking sound
  | inl whole ↦ elim (Bool-cases (bit_and (crc32 t.buffer) 0xffffffff == t.crc)) [
    | inr corrupt ↦ rw (whole, corrupt) sound
    | inl intact ↦
        elim (Bool-cases
          (leb t.size (available s.store + size_or_zero (Dict.get s.store.files t.filename)))) [
            | inr full ↦
                rw (whole, intact, verify, room_for-legal s.store t.filename t.size legal, full)
                  sound
            | inl room ↦
                rw (whole, intact, verify, room_for-legal s.store t.filename t.size legal, room)
                  (land-Good s now written t legal sound)
          ]
  ]
]

on_finish-Good :
    (s : FileService) (now : ℕ) (written : Bool) (source : ℕ)
    → AllSound s.transfers
    → Good (on_finish s now written source)
unfolding on_finish
on_finish-Good s now written source sound = elim (Option-cases (transfer_of s source)) [
  | inl gone ↦ rw (on_finish, gone) sound
  | inr (t, there) ↦
      rw (on_finish, there)
        (verify-Good (without s source) now written t (sound source t there).legal
          (remove-AllSound s.transfers source sound))
]

pub on_uplink-Good :
    (s : FileService) (now : ℕ) (written : Bool) (source : ℕ) (u : Uplink)
    → AllSound s.transfers
    → Good (on_uplink s now written source u)
unfolding on_uplink
on_uplink-Good s now written source (start name size crc) sound =
    on_start-Good s now source name size crc sound
on_uplink-Good s now written source (chunk_at offset chunk) sound =
    on_data-Good s now source offset chunk sound
on_uplink-Good s now written source finish sound = on_finish-Good s now written source sound

pub Result-cases : (r : Result Uplink) → ((e : Error) × (r ≡ err e)) ⊎ ((u : Uplink) × (r ≡ ok u))
Result-cases (ok u) = inr (u, refl)
Result-cases (err e) = inl (e, refl)

-- Whatever bytes arrive, and whether or not the disk takes a write, `handle_uplink` raises nothing, on a
-- directory that can be read, and every transfer keeps a legal name and at most its declared bytes.
pub handle_uplink-Good :
    (s : FileService) (now : ℕ) (written : Bool) (source : ℕ) (packet : Bytes)
    → AllSound s.transfers
    → Good (handle_uplink s now written source packet)
unfolding handle_uplink
handle_uplink-Good s now written source packet sound =
    elim (Result-cases (parse_file_uplink packet)) [
      | inr (u, read) ↦ rw (handle_uplink, read) (on_uplink-Good s now written source u sound)
      | inl (e, bad) ↦
          let malformed : parse_file_uplink packet ≡ err value_error =
            cc (bad, parse_file_uplink-err packet e bad) in
          rw (handle_uplink, malformed) (abort-AllSound s now source sound)
    ]

-- So does the end of a connection, which leaves no transfer of it.
pub connection_closed-AllSound :
    (s : FileService) (now source : ℕ)
    → AllSound s.transfers
    → AllSound (connection_closed s now source).1.transfers
      × (transfer_of (connection_closed s now source).1 source ≡ none)
unfolding connection_closed
connection_closed-AllSound s now source sound = elim (Option-cases (transfer_of s source)) [
  | inl gone ↦ rw (connection_closed, gone) (sound, gone)
  | inr (t, there) ↦
      unfold abort in
      rw (connection_closed, abort, there)
        (
          remove-AllSound s.transfers source sound,
          ground (arith, get-remove s.transfers source source),
        )
]
