-- ===== src/Kernel/Swapper.antt =====
-- src/kernel/swapper.c and swapper.h. The pointers are taken as not null; the log lines are left out.
pub mod Out
pub mod RoundTrip
use rm_vm.Common.{
  ℕ, zero, suc, ◌+◌, ◌-◌, ◌*◌, ◌/◌, ◌%◌, ◌^◌, ◌≤◌, ◌<◌, bit_or, min, ◌≡◌, refl, sym, ap, ap₂, ◌∙◌,
  subst, ◌≢◌, ◌↔◌, ◌⊎◌, inl, inr, Bool, true, false, not, ◌&&◌, ◌||◌, Option, none, some, List, [],
  ◌∷◌, ◌++◌, map, append-nil, append_assoc, arith, dec_lt, ℕ_discrete, ltb, leb, ◌==◌,
  if◌then◌else◌, tests, Bool-cases, Option-cases, ltb→lt, ltb→ge, leb→le, leb→gt, ==→eq, length,
  get_or, set, take, drop, replicate, length-set, get_or-set_self, get_or-set_ne, length-append,
  length-replicate, All, All-set, All-get_or, All-replicate, u8, u16, uint16_max, IsByte, IsWord,
  AllWord, sub_u16, bit, drop-set, memcpy, length-memcpy, get_or-memcpy_out, get_or-memcpy_in,
  list_ext,
}
use rm_vm.Rm.Disk.{HardDisk, disk_sector_count, disk_sector_size, read_disk, write_disk}
use rm_vm.Vm.State.{VirtualMachine, vm_memory_size}

abbrev pub swap_start_sector : ℕ
swap_start_sector = 80

abbrev pub swap_slot_size_sectors : ℕ
swap_slot_size_sectors = 16

unfoldable pub swap_slot_start : ℕ → ℕ
swap_slot_start slot = u16 (swap_start_sector + slot * swap_slot_size_sectors)

-- `mem + s * DISK_SECTOR_SIZE` is the array and the index.
unfoldable pub write_sector_chunk : HardDisk → ℕ → List ℕ → ℕ → ℕ → Bool × HardDisk
write_sector_chunk disk sector bytes from len =
    let to_copy = if ltb disk_sector_size len then disk_sector_size else len in
    write_disk disk sector (memcpy to_copy (replicate disk_sector_size 0) 0 bytes from 0)

-- The array with the bytes copied, or `none` where the read fails.
unfoldable pub read_sector_chunk : HardDisk → ℕ → List ℕ → ℕ → ℕ → Option (List ℕ) × HardDisk
read_sector_chunk disk sector out to len =
    let (got, disk') = read_disk disk sector in
    let to_copy = if ltb disk_sector_size len then disk_sector_size else len in
    (elim got [ none ↦ none | some buf ↦ some (memcpy to_copy out to buf 0 0) ], disk')

-- The loop of `swapOutVM` with `n` sectors to go, at sector `s`.
unfoldable pub out_loop : ℕ → HardDisk → List ℕ → ℕ → ℕ → ℕ → Bool × HardDisk
out_loop zero disk mem start_sector s remaining = (true, disk)
out_loop (suc n) disk mem start_sector s remaining =
    let chunk = if ltb disk_sector_size remaining then disk_sector_size else remaining in
    let (ok, disk') =
      write_sector_chunk disk (u16 (start_sector + s)) mem (s * disk_sector_size) chunk in
    let rest = out_loop n disk' mem start_sector (s + 1) (remaining - chunk) in
    if leb remaining 0 then (true, disk) else if not ok then (false, disk') else rest

unfoldable pub swap_out_vm : HardDisk → VirtualMachine → ℕ → Bool × HardDisk
swap_out_vm disk vm slot =
    let start_sector = swap_slot_start slot in
    let swapped = out_loop swap_slot_size_sectors disk vm.memory start_sector 0 vm_memory_size in
    if ltb disk_sector_count (start_sector + swap_slot_size_sectors) then (false, disk) else swapped

-- The loop of `swapInVM`: whether it succeeds, the disk, and the memory as far as it was read.
unfoldable pub in_loop : ℕ → HardDisk → List ℕ → ℕ → ℕ → ℕ → Bool × HardDisk × List ℕ
in_loop zero disk mem start_sector s remaining = (true, disk, mem)
in_loop (suc n) disk mem start_sector s remaining =
    let chunk = if ltb disk_sector_size remaining then disk_sector_size else remaining in
    let (got, disk') =
      read_sector_chunk disk (u16 (start_sector + s)) mem (s * disk_sector_size) chunk in
    if leb remaining 0 then (true, disk, mem) else elim got [
      | none ↦ (false, disk', mem)
      | some mem' ↦ in_loop n disk' mem' start_sector (s + 1) (remaining - chunk)
    ]

unfoldable pub swap_in_vm : HardDisk → VirtualMachine → ℕ → Bool × HardDisk × VirtualMachine
swap_in_vm disk vm slot =
    let start_sector = swap_slot_start slot in
    let (ok, disk', mem) =
      in_loop swap_slot_size_sectors disk vm.memory start_sector 0 vm_memory_size in
    if ltb disk_sector_count (start_sector + swap_slot_size_sectors)
    then (false, disk, vm)
    else (ok, disk', record vm { memory = mem })
