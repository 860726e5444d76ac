-- ===== src/FileStore/Accounting.antt =====
-- The bytes that the store's files take.
use xtce_sim.Prelude.{
  ◌+◌, ◌≤◌, ◌≡◌, refl, [], ◌∷◌, ◌++◌, arith, length, true, false, ok, leb, leb→le, max, ap, ◌∙◌,
  Bool-cases, inl, inr,
}
use xtce_sim.Prelude.Equality.{list_eq, list_beq, list_beq_iff}
use xtce_sim.Prelude.Dict
use xtce_sim.Prelude.Dict.{get-remove}
use xtce_sim.Struct.{Bytes}
use xtce_sim.Utf8.{Text}
use xtce_sim.FileStore.{
  FileStore, Files, is_part, part_suffix, used_by, used, available, room_for, size_or_zero, write,
}
use xtce_sim.FileStore.Names.{IsLegal, legal-not-part, is_part-append}
use xtce_sim.FileStore.Contents.{room_for-legal, write-legal}

used_by-put :
    (files : Files) (name : Text) (content : Bytes)
    → is_part name ≡ false
    → used_by (Dict.put files name content) + size_or_zero (Dict.get files name)
      ≡ used_by files + length content
unfolding used_by Dict.put Dict.get
used_by-put [] name content h = ground arith
used_by-put ((j, old) ∷ files) name content h =
    ground (arith, list_beq_iff j name, used_by-put files name content h)

used_by-remove_part :
    (files : Files) (name : Text)
    → is_part name ≡ true
    → used_by (Dict.remove files name) ≡ used_by files
unfolding used_by Dict.remove
used_by-remove_part [] name h = refl
used_by-remove_part ((j, old) ∷ files) name h =
    ground (arith, list_beq_iff j name, used_by-remove_part files name h)

get-remove_part :
    (files : Files) (part name : Text)
    → is_part part ≡ true
    → is_part name ≡ false
    → Dict.get (Dict.remove files part) name ≡ Dict.get files name
get-remove_part files part name h k = elim (Bool-cases (list_beq part name)) [
  | inl same ↦ let e : part ≡ name = (list_beq_iff part name).0 same in cc
  | inr other ↦ get-remove files part name ∙ rw other
]

-- Landing a file adds its size and frees that of the file it replaces.
pub used-write :
    (s : FileStore) (name : Text) (content : Bytes)
    → IsLegal name
    → used (write true s name content).1 + size_or_zero (Dict.get s.files name)
      ≡ used s + length content
unfolding used
used-write s name content h = rw (write-legal true s name content h) (
    omega (
      arith,
      used_by-put rest name content free,
      used_by-remove_part s.files (name ++ part_suffix) (is_part-append name),
      ap size_or_zero
          (get-remove_part s.files (name ++ part_suffix) name (is_part-append name) free),
    ))
  where
    rest : Files
    rest = Dict.remove s.files (name ++ part_suffix)

    free : is_part name ≡ false
    free = legal-not-part name h

-- A file that there is room for keeps the store within its quota; a store that was opened over
-- its quota gets no fuller.
pub used-write-max :
    (s : FileStore) (name : Text) (content : Bytes)
    → IsLegal name
    → room_for s name (length content) ≡ ok true
    → used (write true s name content).1 ≤ max s.quota (used s)
unfolding available
used-write-max s name content h room =
    omega (arith, used-write s name content h, leb→le (length content) _ fits)
  where
    fits : leb (length content) (available s + size_or_zero (Dict.get s.files name)) ≡ true
    fits = ground (arith, room, room_for-legal s name (length content) h)

-- A write that fails takes nothing.
pub used-write_failed :
    (s : FileStore) (name : Text) (content : Bytes)
    → IsLegal name
    → used (write false s name content).1 ≡ used s
unfolding used
used-write_failed s name content h =
    rw (write-legal false s name content h)
      (used_by-remove_part s.files (name ++ part_suffix) (is_part-append name))
