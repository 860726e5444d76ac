-- ===== src/FileStore.antt =====
-- `name_problem` and `FileStore` of xtce_sim/fileservice.py: a directory of files under a quota.
-- A directory holds regular files only, and can be read: listing it, and reading and removing its files,
-- raise no OSError of their own. Whether the disk takes a write is given.
pub mod Names
pub mod Contents
pub mod Accounting
use xtce_sim.Prelude.{
  ℕ, ◌+◌, ◌-◌, ◌≤◌, List, [], ◌∷◌, ◌++◌, length, drop, Option, none, some, Bool, true, false, not,
  ◌&&◌, ◌||◌, Result, ok, err, value_error, os_error, file_not_found, ◌>>=◌, leb, ltb, ◌==◌,
  if◌then◌else◌, bit_and,
}
use xtce_sim.Prelude.Equality.{list_eq, list_beq}
use xtce_sim.Prelude.Dict
use xtce_sim.Prelude.Dict.{Dict}
use xtce_sim.Struct.{Bytes}
use xtce_sim.Utf8.{Text, encode}
use xtce_sim.Zlib.{crc32}

abbrev pub max_name_bytes : ℕ
max_name_bytes = 32

-- ".part"
abbrev pub part_suffix : Text
part_suffix = b'.' ∷ b'p' ∷ b'a' ∷ b'r' ∷ b't' ∷ []

-- `name.endswith(".part")`
unfoldable pub is_part : Text → Bool
is_part name = list_beq (drop (length name - 5) name) part_suffix

-- One of `/`, `\`, and the characters below 0x20, NUL among them.
bad_char : ℕ → Bool
bad_char c = c == b'/' || c == 0x5c || ltb c 0x20

has_bad_char : Text → Bool
unfolding bad_char
has_bad_char [] = false
has_bad_char (c ∷ cs) = bad_char c || has_bad_char cs

-- Why a name is refused.
pub data NameProblem : Type 0 where
  is_empty too_long bad_character directory_reference reserved_suffix : NameProblem

unfoldable pub name_problem : Text → Option NameProblem
unfolding has_bad_char is_part
name_problem name =
    if length name == 0
    then some is_empty
    else if ltb max_name_bytes (length (encode name))
    then some too_long
    else if has_bad_char name
    then some bad_character
    else if list_beq name (b'.' ∷ []) || list_beq name (b'.' ∷ b'.' ∷ [])
    then some directory_reference
    else if is_part name
    then some reserved_suffix
    else none

abbrev pub Files : Type 0
Files = Dict Text Bytes

pub record FileStore : Type 0 where
  pub files : Files
  pub quota : ℕ

-- `FileStore.__init__`
unfoldable pub open_store : Files → ℕ → Result FileStore
open_store files quota =
    if ltb 0 quota && leb quota 0xffffffff
    then ok (record { files = files; quota = quota })
    else err value_error

-- `FileStore._path`, the name in the jail.
unfoldable pub path : Text → Result Text
path name = elim (name_problem name) [ none ↦ ok name | some problem ↦ err value_error ]

-- Texts by code points, as Python orders them.
text_leb : Text → Text → Bool
text_leb [] b = true
text_leb (a ∷ as') [] = false
text_leb (a ∷ as') (b ∷ bs) = ltb a b || (a == b && text_leb as' bs)

insert_sorted : Text → List Text → List Text
insert_sorted name [] = name ∷ []
insert_sorted name (n ∷ ns) =
    let rest = insert_sorted name ns in if text_leb name n then name ∷ n ∷ ns else n ∷ rest

stored_names : Files → List Text
stored_names [] = []
stored_names ((name, content) ∷ files) =
    let rest = stored_names files in if is_part name then rest else name ∷ rest

sorted : List Text → List Text
sorted [] = []
sorted (n ∷ ns) = insert_sorted n (sorted ns)

-- `FileStore.names`
unfoldable pub names : FileStore → List Text
unfolding stored_names sorted insert_sorted text_leb is_part
names s = sorted (stored_names s.files)

unfoldable pub file_at : Files → Text → Result Bytes
file_at files name = elim (Dict.get files name) [
  | none ↦ err file_not_found
  | some content ↦ ok content
]

-- `FileStore.read`
unfoldable pub read : FileStore → Text → Result Bytes
unfolding file_at
read s name = path name >>= λ target. file_at s.files target

-- `FileStore.size`
unfoldable pub size : FileStore → Text → Result ℕ
unfolding file_at
size s name = path name >>= λ target. file_at s.files target >>= λ content. ok (length content)

-- `FileStore.crc`
unfoldable pub crc : FileStore → Text → Result ℕ
unfolding file_at
crc s name = path name >>= λ target.
    file_at s.files target >>= λ content. ok (bit_and (crc32 content) 0xffffffff)

used_by : Files → ℕ
used_by [] = 0
used_by ((name, content) ∷ files) = (if is_part name then 0 else length content) + used_by files

-- `FileStore.used`
unfoldable pub used : FileStore → ℕ
unfolding used_by
used s = used_by s.files

-- `FileStore.available`; the difference on ℕ stops at 0.
unfoldable pub available : FileStore → ℕ
available s = s.quota - used s

abbrev pub size_or_zero : Option Bytes → ℕ
size_or_zero none = 0
size_or_zero (some content) = length content

-- `FileStore.room_for`, on a directory that can be listed.
unfoldable pub room_for : FileStore → Text → ℕ → Result Bool
room_for s name n =
    path name >>= λ target. ok (leb n (available s + size_or_zero (Dict.get s.files target)))

-- `FileStore.write`. The temporary file is gone in both cases: it was renamed, or removed.
unfoldable pub write : Bool → FileStore → Text → Bytes → Result (Unit {0}) × FileStore
write written s name content = elim (path name) [
  | err e ↦ (err e, s)
  | ok target ↦
      let cleared = Dict.remove s.files (target ++ part_suffix) in
      if written
      then (ok tt, record s { files = Dict.put cleared target content })
      else (err os_error, record s { files = cleared })
]

-- `FileStore.delete`, with the bytes freed.
unfoldable pub delete : FileStore → Text → Result ℕ × FileStore
delete s name = elim (path name) [
  | err e ↦ (err e, s)
  | ok target ↦ elim (Dict.get s.files target) [
    | none ↦ (err file_not_found, s)
    | some content ↦ (ok (length content), record s { files = Dict.remove s.files target })
  ]
]
