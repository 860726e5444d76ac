-- ===== src/FileService/Commands.antt =====
-- The FILE_* commands of `FileService` in xtce_sim/fileservice.py.
pub mod Laws
use xtce_sim.Prelude.{
  ℕ, List, [], ◌∷◌, ◌++◌, length, Option, none, some, Bool, ◌||◌, Result, ok, err, value_error,
  ◌>>=◌, if◌then◌else◌, ◌==◌, is_value_error, is_os_error, is_file_not_found,
}
use xtce_sim.Prelude.Texts.{codes}
use xtce_sim.Prelude.Equality.{list_beq}
use xtce_sim.Struct.{Bytes}
use xtce_sim.Utf8.{Text, decode, replace}
use xtce_sim.FileStore.{name_problem, names, size, crc, delete}
use xtce_sim.FileService.{FileService, Receipt, Answer, success, failed, event}
use xtce_sim.FileService.Uplink.{reportable}

-- The Filename argument of a command: absent, bytes from the codec, or the text of another value.
pub data Argument : Type 0 where
  absent : Argument
  raw : Bytes → Argument
  shown : Text → Argument

-- `split(b"\x00", 1)[0]`
before_nul : Bytes → Bytes
before_nul [] = []
before_nul (b ∷ bs) = let rest = before_nul bs in if b == 0 then [] else b ∷ rest

unfoldable pub decode_filename_arg : Argument → Text
unfolding before_nul
decode_filename_arg absent = []
decode_filename_arg (shown text) = text
decode_filename_arg (raw bs) = elim (decode replace (before_nul bs)) [
  | none ↦ []
  | some text ↦ text
]

-- `FILE_COMMANDS`
abbrev pub file_list : Text
file_list = codes "FILE_LIST"

abbrev pub file_delete : Text
file_delete = codes "FILE_DELETE"

abbrev pub file_status : Text
file_status = codes "FILE_STATUS"

unfoldable pub handles : Text → Bool
handles name = list_beq name file_list || list_beq name file_delete || list_beq name file_status

-- `_cmd_status`
unfoldable pub cmd_status : FileService → ℕ → List Receipt
cmd_status s now = event s now [] 0 0 success

-- One turn of the loop of `_cmd_list`.
unfoldable pub listed : FileService → ℕ → Text → Result (List Receipt)
listed s now name =
    elim (size s.store name >>= λ n. crc s.store name >>= λ c. ok (event s now name n c success)) [
      | ok receipts ↦ ok receipts
      | err e ↦
          if is_os_error e || is_value_error e
          then ok (event s now (reportable name) 0 0 failed)
          else err e
    ]

unfoldable pub all_listed : FileService → ℕ → List Text → Result (List Receipt)
all_listed s now [] = ok []
all_listed s now (name ∷ rest) =
    listed s now name >>= λ receipts. all_listed s now rest >>= λ others. ok (receipts ++ others)

-- `_cmd_list`
unfoldable pub cmd_list : FileService → ℕ → Result (List Receipt)
cmd_list s now =
    if length (names s.store) == 0 then ok (cmd_status s now) else all_listed s now (names s.store)

-- `_cmd_delete`
unfoldable pub cmd_delete : FileService → ℕ → Argument → Answer
cmd_delete s now arg =
    let name = decode_filename_arg arg in
    if length name == 0 then (ok (event s now name 0 0 failed), s) else elim (name_problem name) [
      | some problem ↦ (ok (event s now name 0 0 failed), s)
      | none ↦
          let (result, store') = delete s.store name in
          let s' = record s { store = store' } in
          elim result [
            | ok freed ↦ (ok (event s' now name freed 0 success), s')
            | err e ↦
                if is_file_not_found e then (ok (event s' now name 0 0 failed), s') else (err e, s')
          ]
    ]

unfoldable pub handle_command : FileService → ℕ → Text → Argument → Answer
handle_command s now name arg =
    if list_beq name file_list
    then (cmd_list s now, s)
    else if list_beq name file_delete
    then cmd_delete s now arg
    else if list_beq name file_status
    then (ok (cmd_status s now), s)
    else (err value_error, s)
