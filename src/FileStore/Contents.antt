-- ===== src/FileStore/Contents.antt =====
-- What `read` finds after the store's operations.
use xtce_sim.Prelude.{
  ℕ, ◌+◌, ◌≡◌, refl, ◌++◌, arith, length, some, Bool, true, false, if◌then◌else◌, ok, err, os_error,
  file_not_found, leb, Bool-cases, inl, inr,
}
use xtce_sim.Prelude.Equality.{list_eq, list_beq, list_beq_iff}
use xtce_sim.Prelude.Dict
use xtce_sim.Prelude.Dict.{Dict, get-put, get-remove}
use xtce_sim.Struct.{Bytes}
use xtce_sim.Utf8.{Text}
use xtce_sim.FileStore.{
  FileStore, Files, part_suffix, read, file_at, write, delete, room_for, available, size_or_zero,
}
use xtce_sim.FileStore.Names.{IsLegal, path-legal, legal-not-part, is_part-append}

pub room_for-legal :
    (s : FileStore) (name : Text) (n : ℕ)
    → IsLegal name
    → room_for s name n ≡ ok (leb n (available s + size_or_zero (Dict.get s.files name)))
unfolding room_for
room_for-legal s name n h = rw (path-legal name h)

pub write-legal :
    (written : Bool) (s : FileStore) (name : Text) (content : Bytes)
    → IsLegal name
    → write written s name content ≡ (
        if written
        then (
          ok tt,
          record s { files = Dict.put (Dict.remove s.files (name ++ part_suffix)) name content },
        )
        else (err os_error, record s { files = Dict.remove s.files (name ++ part_suffix) }))
unfolding write
write-legal written s name content h = rw (write, path-legal name h)

-- The temporary file of a name is no file that can be read.
part-ne-legal : (name j : Text) → IsLegal j → list_beq (name ++ part_suffix) j ≡ false
part-ne-legal name j h = elim (Bool-cases (list_beq (name ++ part_suffix) j)) [
  | inl same ↦
      let e : (name ++ part_suffix) ≡ j = (list_beq_iff (name ++ part_suffix) j).0 same in
      cc (is_part-append name, legal-not-part j h, e)
  | inr other ↦ other
]

read-legal : (s : FileStore) (j : Text) → IsLegal j → read s j ≡ file_at s.files j
unfolding read
read-legal s j h = rw (path-legal j h)

cleared :
    (files : Files) (name j : Text)
    → IsLegal j
    → file_at (Dict.remove files (name ++ part_suffix)) j ≡ file_at files j
unfolding file_at
cleared files name j k =
    rw (file_at, get-remove files (name ++ part_suffix) j, part-ne-legal name j k) refl

-- A file that was written is read back, and no other file has changed.
pub read-write :
    (s : FileStore) (name j : Text) (content : Bytes)
    → IsLegal name
    → IsLegal j
    → read (write true s name content).1 j ≡ (if list_beq name j then ok content else read s j)
read-write s name j content h k =
    rw (write-legal true s name content h, read-legal s j k, read-legal _ j k) found
  where
    rest : Files
    rest = Dict.remove s.files (name ++ part_suffix)

    found :
        file_at (Dict.put rest name content) j
        ≡ (if list_beq name j then ok content else file_at s.files j)
    found = elim (Bool-cases (list_beq name j)) [
      | inl same ↦ rw same (unfold file_at in rw (file_at, get-put rest name j content, same))
      | inr other ↦ rw other (
          unfold file_at in
          rw (file_at, get-put rest name j content, other) (cleared s.files name j k))
    ]

-- A write that the disk refuses raises, and leaves every file as it was.
pub read-write_failed :
    (s : FileStore) (name j : Text) (content : Bytes)
    → IsLegal name
    → IsLegal j
    → ((write false s name content).0 ≡ err os_error)
      × (read (write false s name content).1 j ≡ read s j)
read-write_failed s name j content h k = (
  rw (write-legal false s name content h),
  rw (write-legal false s name content h, read-legal s j k, read-legal _ j k)
      (cleared s.files name j k),
)

-- After a delete the file is gone, and no other file has changed. The result is the size of the
-- file that was there.
pub read-delete :
    (s : FileStore) (name j : Text) (content : Bytes)
    → IsLegal name
    → IsLegal j
    → read s name ≡ ok content
    → ((delete s name).0 ≡ ok (length content))
      × (read (delete s name).1 j ≡ (if list_beq name j then err file_not_found else read s j))
read-delete s name j content h k e =
    (rw deleted, rw (deleted, read-legal s j k, read-legal _ j k) found)
  where
    there : Dict.get s.files name ≡ some content
    there = unfold file_at in ground (arith, read-legal s name h, e)

    deleted : delete s name ≡ (ok (length content), record s { files = Dict.remove s.files name })
    deleted = unfold delete in rw (delete, path-legal name h, there)

    found :
        file_at (Dict.remove s.files name) j
        ≡ (if list_beq name j then err file_not_found else file_at s.files j)
    found = elim (Bool-cases (list_beq name j)) [
      | inl same ↦ rw same (unfold file_at in rw (file_at, get-remove s.files name j, same))
      | inr other ↦ rw other (unfold file_at in rw (file_at, get-remove s.files name j, other))
    ]
