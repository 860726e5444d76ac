-- ===== src/FileService/Commands/Laws.antt =====
-- What the FILE_* commands of xtce_sim/fileservice.py answer.
use xtce_sim.Prelude.{
  ℕ, ◌≡◌, refl, arith, List, [], ◌∷◌, ◌++◌, length, length-append, none, true, false, Result, ok,
  err, Error, file_not_found, max, if◌then◌else◌, ◌==◌, is_some, bit_and, Bool-cases, Option-cases,
  inl, inr, ap,
}
use xtce_sim.Prelude.Equality.{list_beq, list_eq}
use xtce_sim.Prelude.Dict
use xtce_sim.Prelude.Equality.{list_beq}
use xtce_sim.Struct.{Bytes}
use xtce_sim.Utf8.{Text}
use xtce_sim.FileStore.{FileStore, name_problem, names, size, crc, delete, read, path, file_at}
use xtce_sim.FileStore.Names.{IsLegal, path-legal}
use xtce_sim.FileStore.Contents.{read-delete}
use xtce_sim.FileService.{FileService, Receipt, Status, success, failed, event}
use xtce_sim.Zlib.{crc32}
use xtce_sim.FileService.Uplink.{reportable}
use xtce_sim.FileService.Commands.{
  Argument, decode_filename_arg, cmd_status, listed, all_listed, cmd_list, cmd_delete,
  handle_command, file_list, file_delete,
}

length-event :
    (s : FileService) (now : ℕ) (name : Text) (n c : ℕ) (status : Status)
    → is_some s.receipt ≡ true
    → length (event s now name n c status) ≡ 1
unfolding event
length-event s now name n c status h = rw h refl

-- A name is a stored file's, whose size and checksum the receipt has, or it is reported as failed.
length-listed :
    (s : FileService) (now : ℕ) (name : Text)
    → is_some s.receipt ≡ true
    → (receipts : List Receipt) × (listed s now name ≡ ok receipts) × (length receipts ≡ 1)
length-listed s now name h = elim (Option-cases (name_problem name)) [
  | inl legal ↦ elim (Option-cases (Dict.get s.store.files name)) [
    | inl gone ↦ (
      event s now (reportable name) 0 0 failed,
      unfold listed size path file_at in rw (listed, size, path, legal, file_at, gone) refl,
      length-event s now (reportable name) 0 0 failed h,
    )
    | inr (content, there) ↦ (
      event s now name (length content) (bit_and (crc32 content) 0xffffffff) success,
      unfold listed size crc path file_at in rw (listed, size, path, legal, file_at, there) refl,
      length-event s now name (length content) (bit_and (crc32 content) 0xffffffff) success h,
    )
  ]
  | inr (problem, illegal) ↦ (
    event s now (reportable name) 0 0 failed,
    unfold listed size path in rw (listed, size, path, illegal) refl,
    length-event s now (reportable name) 0 0 failed h,
  )
]

length-all_listed :
    (s : FileService) (now : ℕ) (stored : List Text)
    → is_some s.receipt ≡ true
    → (receipts : List Receipt) × (all_listed s now stored ≡ ok receipts)
      × (length receipts ≡ length stored)
unfolding all_listed
length-all_listed s now [] h = ([], refl, refl)
length-all_listed s now (name ∷ rest) h =
    let (r, e, n) = length-listed s now name h in
    let (rs, es, ns) = length-all_listed s now rest h in
    (r ++ rs, rw (e, es) refl, omega (arith, length-append r rs))

-- FILE_LIST answers with one receipt for each stored file, and with one when there is none, if the
-- definition has the receipt packet. It changes nothing.
pub list_lem :
    (s : FileService) (now : ℕ) (arg : Argument)
    → is_some s.receipt ≡ true
    → (receipts : List Receipt) × (handle_command s now file_list arg ≡ (ok receipts, s))
      × (length receipts ≡ max 1 (length (names s.store)))
unfolding handle_command cmd_list cmd_status list_beq
list_lem s now arg h = elim (Bool-cases (length (names s.store) == 0)) [
  | inl e ↦ (
    event s now [] 0 0 success,
    rw e refl,
    ground (arith, length-event s now [] 0 0 success h, e),
  )
  | inr e ↦
      let (rs, es, ns) = length-all_listed s now (names s.store) h in
      (rs, rw (e, es) refl, ground (arith, ns, e))
]

-- FILE_DELETE of a stored file, by a legal name, answers with its size, and takes that file and no
-- other from the store.
pub delete_lem :
    (s : FileService) (now : ℕ) (arg : Argument) (j : Text) (content : Bytes)
    → IsLegal (decode_filename_arg arg)
    → IsLegal j
    → read s.store (decode_filename_arg arg) ≡ ok content
    → (s' : FileService) × (handle_command s now file_delete arg
        ≡ (ok (event s' now (decode_filename_arg arg) (length content) 0 success), s'))
      × (read s'.store j
          ≡ (if list_beq (decode_filename_arg arg) j then err file_not_found else read s.store j))
delete_lem s now arg j content h k e = (
  record s { store = (delete s.store (decode_filename_arg arg)).1 },
  unfold handle_command cmd_delete list_beq in
      rw
        (
          cmd_delete,
          named (decode_filename_arg arg) h,
          h,
          (read-delete s.store (decode_filename_arg arg) j content h k e).0,
        )
        refl,
  (read-delete s.store (decode_filename_arg arg) j content h k e).1,
)
  where
    named : (name : Text) → IsLegal name → (length name == 0) ≡ false
    named name legal = unfold name_problem in ground (arith, legal)

-- FILE_DELETE of a name that `read` refuses, as it is no legal name or no stored file's, answers
-- with one failure and changes nothing.
pub delete_refused :
    (s : FileService) (now : ℕ) (arg : Argument) (e : Error)
    → read s.store (decode_filename_arg arg) ≡ err e
    → handle_command s now file_delete arg
      ≡ (ok (event s now (decode_filename_arg arg) 0 0 failed), s)
unfolding handle_command cmd_delete list_beq
delete_refused s now arg e h = elim (Bool-cases (length (decode_filename_arg arg) == 0)) [
  | inl z ↦ rw z refl
  | inr z ↦ elim (Option-cases (name_problem (decode_filename_arg arg))) [
    | inr (problem, illegal) ↦ rw (z, illegal) refl
    | inl legal ↦ elim (Option-cases (Dict.get s.store.files (decode_filename_arg arg))) [
      | inl gone ↦
          rw
            (
              cmd_delete,
              z,
              legal,
              ap (λ (r : Result ℕ × FileStore). r.0) (refused legal gone),
              ap (λ (r : Result ℕ × FileStore). r.1) (refused legal gone),
            )
            refl
      | inr (content, there) ↦ absurd (unfold read path file_at in ground (arith, h, legal, there))
    ]
  ]
]
  where
    refused :
        IsLegal (decode_filename_arg arg)
        → Dict.get s.store.files (decode_filename_arg arg) ≡ none
        → delete s.store (decode_filename_arg arg) ≡ (err file_not_found, s.store)
    refused legal gone =
        unfold delete in rw (delete, path-legal (decode_filename_arg arg) legal, gone) refl
