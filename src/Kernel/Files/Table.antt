-- ===== src/Kernel/Files/Table.antt =====
-- src/kernel/loader.c: what `findFile` finds after `registerFile`.
use rm_vm.Common.{
  ℕ, ◌≤◌, ◌≡◌, refl, ◌&&◌, Option, none, some, [], ◌∷◌, ◌++◌, arith, ltb, ◌==◌, if◌then◌else◌,
  length, length-append,
}
use rm_vm.Kernel.Files.{FileEntry, FileTable, register_file, find_file, max_file_entries}

find_file-append :
    (table : FileTable) (e : FileEntry) (id : ℕ)
    → find_file (table ++ e ∷ []) id ≡ elim (find_file table id) as (λ _. Option FileEntry) [
      | some f ↦ some f
      | none ↦ if e.file_id == id then some e else none
    ]
unfolding find_file
find_file-append [] e id = refl
find_file-append (f ∷ table) e id = ground (arith, find_file-append table e id)

-- A file is registered exactly when the table has room, and the table keeps its bound of eight. A lookup
-- then finds what it found before, and where it found nothing the new file under its own number: a second
-- registration of a number is stored and hidden by the first. A refused registration changes nothing.
find_file-register_file :
    (table : FileTable) (e : FileEntry) (id : ℕ)
    → length table ≤ max_file_entries
    → let (ok, table') = register_file table e in
      (ok ≡ ltb (length table) 8)
      × (length table' ≤ 8)
      × (find_file table' id ≡ elim (find_file table id) as (λ _. Option FileEntry) [
        | some f ↦ some f
        | none ↦ if ok && (e.file_id == id) then some e else none
      ])
unfolding register_file
find_file-register_file table e id h =
    ground (arith, find_file-append table e id, length-append table (e ∷ []))
