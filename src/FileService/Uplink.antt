-- ===== src/FileService/Uplink.antt =====
-- The uplink handlers of `FileService` in xtce_sim/fileservice.py.
pub mod Invariant
pub mod Landing
pub mod Upload
use xtce_sim.Prelude.{
  ℕ, ◌+◌, ◌≡◌, List, [], ◌∷◌, ◌++◌, length, take, Option, none, some, Bool, true, false, not,
  Result, ok, err, Error, if◌then◌else◌, ◌==◌, ltb, bit_and, is_some, is_value_error, is_os_error,
}
use xtce_sim.Prelude.Equality.{nat_eq}
use xtce_sim.Prelude.Dict
use xtce_sim.Struct.{Bytes}
use xtce_sim.Utf8.{Text, encode, decode, ignore}
use xtce_sim.Zlib.{crc32}
use xtce_sim.Ccsds.Uplink.{Uplink, start, chunk_at, finish, parse_file_uplink}
use xtce_sim.FileStore.{FileStore, name_problem, max_name_bytes, room_for, write}
use xtce_sim.FileService.{
  FileService, Transfer, Receipt, Answer, Status, success, failed, in_progress, event,
}

-- `source in self._transfers`, `self._transfers.get(source)`
abbrev pub transfer_of : FileService → ℕ → Option Transfer
transfer_of s source = Dict.get s.transfers source

abbrev without : FileService → ℕ → FileService
without s source = record s { transfers = Dict.remove s.transfers source }

-- `_abort`
unfoldable pub abort : FileService → ℕ → ℕ → List Receipt × FileService
abort s now source = elim (transfer_of s source) [
  | none ↦ ([], s)
  | some t ↦ let s' = without s source in (event s' now t.filename t.size t.crc failed, s')
]

-- `name.encode("utf-8")[:MAX_NAME_BYTES].decode("utf-8", "ignore")`; that handler never raises.
unfoldable pub reportable : Text → Text
reportable name = elim (decode ignore (take max_name_bytes (encode name))) [
  | none ↦ []
  | some text ↦ text
]

-- `_on_start` from the check of the name on. The receipts of a transfer that this one supersedes
-- come first.
accept_start : FileService → ℕ → List Receipt → ℕ → Text → ℕ → ℕ → Answer
accept_start s now receipts source name size crc = elim (name_problem name) [
  | some problem ↦ (ok (receipts ++ event s now (reportable name) size crc failed), s)
  | none ↦ elim (room_for s.store name size) [
    | err e ↦ (err e, s)
    | ok false ↦ (ok (receipts ++ event s now name size crc failed), s)
    | ok true ↦
        let t : Transfer = record { filename = name; size = size; crc = crc; buffer = [] } in
        let s' = record s { transfers = Dict.put s.transfers source t } in
        (ok (receipts ++ event s' now name size crc in_progress), s')
  ]
]

-- `_on_start`
unfoldable pub on_start : FileService → ℕ → ℕ → Text → ℕ → ℕ → Answer
unfolding accept_start
on_start s now source name size crc =
    if is_some (transfer_of s source)
    then (let (receipts, s') = abort s now source in
        accept_start s' now receipts source name size crc)
    else accept_start s now [] source name size crc

abbrev answered : List Receipt × FileService → Answer
answered (receipts, s) = (ok receipts, s)

-- `_on_data`
unfoldable pub on_data : FileService → ℕ → ℕ → ℕ → Bytes → Answer
on_data s now source offset chunk = elim (transfer_of s source) [
  | none ↦ (ok [], s)
  | some t ↦
      if offset == length t.buffer
      then if ltb t.size (length t.buffer + length chunk) then answered (abort s now source) else (
        ok [],
        record s {
          transfers = Dict.put s.transfers source (record t { buffer = t.buffer ++ chunk });
        },
      )
      else answered (abort s now source)
]

-- The end of `_on_finish`: the write and its receipt.
pub land : FileService → ℕ → Bool → Transfer → Answer
land s now written t =
    let (result, store') = write written s.store t.filename t.buffer in
    let s' = record s { store = store' } in
    elim result [
      | err e ↦
          if is_os_error e
          then (ok (event s' now t.filename t.size t.crc failed), s')
          else (err e, s')
      | ok _ ↦
          let s'' = record s' { received_count = s.received_count + 1 } in
          (ok (event s'' now t.filename t.size (bit_and (crc32 t.buffer) 0xffffffff) success), s'')
    ]

-- `_on_finish` with the transfer that was popped.
verify : FileService → ℕ → Bool → Transfer → Answer
unfolding land
verify s now written t =
    let refused : Answer = (ok (event s now t.filename t.size t.crc failed), s) in
    if length t.buffer == t.size
    then if bit_and (crc32 t.buffer) 0xffffffff == t.crc
      then elim (room_for s.store t.filename t.size) [
        | err e ↦ (err e, s)
        | ok false ↦ refused
        | ok true ↦ land s now written t
      ]
      else refused
    else refused

-- `_on_finish`
unfoldable pub on_finish : FileService → ℕ → Bool → ℕ → Answer
unfolding verify
on_finish s now written source = elim (transfer_of s source) [
  | none ↦ (ok [], s)
  | some t ↦ verify (without s source) now written t
]

unfoldable pub on_uplink : FileService → ℕ → Bool → ℕ → Uplink → Answer
unfolding on_start on_data on_finish
on_uplink s now written source (start name size crc) = on_start s now source name size crc
on_uplink s now written source (chunk_at offset chunk) = on_data s now source offset chunk
on_uplink s now written source finish = on_finish s now written source

-- `handle_uplink`
unfoldable pub handle_uplink : FileService → ℕ → Bool → ℕ → Bytes → Answer
unfolding on_uplink
handle_uplink s now written source packet = elim (parse_file_uplink packet) [
  | err e ↦ if is_value_error e then answered (abort s now source) else (err e, s)
  | ok u ↦ on_uplink s now written source u
]

-- `connection_closed`
unfoldable pub connection_closed : FileService → ℕ → ℕ → List Receipt × FileService
connection_closed s now source =
    if is_some (transfer_of s source) then abort s now source else ([], s)
