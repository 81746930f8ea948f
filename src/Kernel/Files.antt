-- ===== src/Kernel/Files.antt =====
-- src/kernel/loader.c: the file table and `readFileToBuffer`. The pointers are taken as not null; the
-- log lines are left out.
pub mod Table
pub mod Contents
pub mod Sectors
use rm_vm.Common.{
  ℕ, zero, suc, ◌+◌, ◌-◌, ◌*◌, ◌/◌, ◌%◌, ◌^◌, ◌≤◌, ◌<◌, bit_or, min, ◌≡◌, refl, sym, ap, ap₂, ◌∙◌,
  subst, ◌≢◌, ◌↔◌, ◌⊎◌, inl, inr, Bool, true, false, not, ◌&&◌, ◌||◌, Option, none, some, List, [],
  ◌∷◌, ◌++◌, map, append-nil, append_assoc, arith, dec_lt, ℕ_discrete, ltb, leb, ◌==◌,
  if◌then◌else◌, tests, Bool-cases, Option-cases, ltb→lt, ltb→ge, leb→le, leb→gt, ==→eq, length,
  get_or, set, take, drop, replicate, length-set, get_or-set_self, get_or-set_ne, length-append,
  length-replicate, All, All-set, All-get_or, All-replicate, u8, u16, uint16_max, IsByte, IsWord,
  AllWord, sub_u16, bit, drop-set, memcpy, length-memcpy, get_or-memcpy_out, get_or-memcpy_in,
  list_ext,
}
use rm_vm.Rm.Disk.{HardDisk, disk_sector_size, read_disk}

abbrev pub max_file_entries : ℕ
max_file_entries = 8

pub record FileEntry : Type 0 where
  pub file_id : ℕ
  pub start_sector : ℕ
  pub sector_count : ℕ

-- The `fileCount` entries of `fileTable` in use.
abbrev pub FileTable : Type 0
FileTable = List FileEntry

abbrev pub init_file_table : FileTable
init_file_table = []

unfoldable pub register_file : FileTable → FileEntry → Bool × FileTable
register_file table entry =
    if leb max_file_entries (length table) then (false, table) else (true, table ++ entry ∷ [])

unfoldable pub find_file : FileTable → ℕ → Option FileEntry
find_file [] id = none
find_file (e ∷ table) id = let rest = find_file table id in if e.file_id == id then some e else rest

-- The loop of `readFileToBuffer` with `n` sectors to go, at sector `s`: whether the sectors were read,
-- the disk, `dst` and `copied`.
unfoldable pub read_loop :
    ℕ → HardDisk → FileEntry → ℕ → List ℕ → ℕ → ℕ → Bool × HardDisk × List ℕ × ℕ
read_loop zero disk fe s dst max_bytes copied = (true, disk, dst, copied)
read_loop (suc n) disk fe s dst max_bytes copied =
    let (got, disk') = read_disk disk (u16 (fe.start_sector + s)) in
    let room = max_bytes - copied in
    let to_copy = if ltb room disk_sector_size then room else disk_sector_size in
    if not (ltb copied max_bytes) then (true, disk, dst, copied) else elim got [
      | none ↦ (false, disk', dst, copied)
      | some buf ↦
          read_loop n disk' fe (s + 1) (memcpy to_copy dst copied buf 0 0) max_bytes
            (copied + to_copy)
    ]

-- `outBytes` is `none` where it is not written.
unfoldable pub read_file_to_buffer :
    HardDisk → FileTable → ℕ → List ℕ → ℕ → Bool × HardDisk × List ℕ × Option ℕ
read_file_to_buffer disk table id dst max_bytes =
    let found = elim (find_file table id) as (λ _. Bool × HardDisk × List ℕ × Option ℕ) [
      | none ↦ (false, disk, dst, none)
      | some fe ↦
          let (ok, disk', dst', copied) = read_loop fe.sector_count disk fe 0 dst max_bytes 0 in
          if ok then (true, disk', dst', some copied) else (false, disk', dst', none)
    ] in
    if max_bytes == 0 then (false, disk, dst, none) else found
