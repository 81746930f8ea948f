-- ===== src/Kernel/Files/Sectors.antt =====
-- `loadDiskProgram` of src/vm/vm.c against the loop of `readFileToBuffer` of src/kernel/loader.c.
use rm_vm.Common.{
  ℕ, zero, suc, ◌+◌, ◌-◌, ◌*◌, ◌≤◌, min, ◌≡◌, refl, ap, ◌∙◌, inr, Bool, true, false, List, arith,
  dec_lt, ltb, if◌then◌else◌, length, get_or, memcpy,
}
use rm_vm.Rm.Disk.RoundTrip.{after_read, read_disk_idle}
use rm_vm.Rm.Disk.{HardDisk, sector_at}
use rm_vm.Kernel.Files.{FileEntry, read_loop}
use rm_vm.Kernel.Files.Contents.{file_byte, read_loop-done, read_loop_lem}
use rm_vm.Vm.State.{vm_memory_size}
use rm_vm.Vm.Machine.{load_sectors, load_disk_program}

-- What the two loops have in common.
abbrev outcome : Bool × HardDisk × List ℕ × ℕ → ℕ × HardDisk × List ℕ
outcome (ok, disk, mem, copied) = (copied, disk, mem)

load_sectors-read_loop :
    (fe : FileEntry) (n s c : ℕ) (d : HardDisk) (mem : List ℕ)
    → d.busy ≡ false
    → fe.start_sector + (s + n) ≤ 128
    → load_sectors n d mem (fe.start_sector + s) c
      ≡ outcome (read_loop n d fe s mem vm_memory_size c)
unfolding load_sectors read_loop
load_sectors-read_loop fe zero s c d mem hb hs = refl
load_sectors-read_loop fe (suc n) s c d mem hb hs = elim (dec_lt c 255) [
  | no k ↦ ground (arith, k)
  | yes k ↦ elim (dec_lt (255 - c) 16) [
    | yes l ↦
        let m = memcpy (255 - c) mem c (sector_at d (fe.start_sector + s)) 0 0 in
        ground (
          arith,
          k,
          l,
          read_disk_idle d (fe.start_sector + s) hb (omega arith),
          read_loop-done (after_read d) fe n (s + 1) 255 (c + (255 - c)) (c + (255 - c)) m
              (inr (omega (arith, k))) refl,
        )
    | no l ↦
        let m = memcpy 16 mem c (sector_at d (fe.start_sector + s)) 0 0 in
        let at : fe.start_sector + s + 1 ≡ fe.start_sector + (s + 1) = omega arith in
        ground (
          arith,
          k,
          l,
          read_disk_idle d (fe.start_sector + s) hb (omega arith),
          ap (λ t. load_sectors n (after_read d) m t (c + 16)) at,
          load_sectors-read_loop fe n (s + 1) (c + 16) (after_read d) m refl (omega arith),
        )
  ]
]

-- On an idle disk `loadDiskProgram` copies the sectors from the start sector to the end of the disk, as far
-- as the memory goes, and returns how many bytes these are: the memory starts with them, in order, and
-- keeps its own bytes behind. It is the loop of `readFileToBuffer` on a file of all those sectors.
pub load_disk_program_lem :
    (d : HardDisk) (mem : List ℕ) (start i : ℕ)
    → d.busy ≡ false
    → start ≤ 128
    → length mem ≡ vm_memory_size
    → let copied = min (16 * (128 - start)) 255 in
      let fe : FileEntry = record {
        file_id = 0;
        start_sector = start;
        sector_count = 128 - start;
      } in
      (d' : HardDisk) × (mem' : List ℕ) × (load_disk_program d mem start ≡ (copied, d', mem'))
      × (read_loop (128 - start) d fe 0 mem 255 0 ≡ (true, d', mem', copied))
      × (length mem' ≡ length mem)
      × (get_or mem' i 0 ≡ (if ltb i copied then file_byte d start i else get_or mem i 0))
load_disk_program_lem d mem start i hb hs l =
    let fe : FileEntry = record { file_id = 0; start_sector = start; sector_count = 128 - start } in
    let at : start ≡ start + 0 = omega arith in
    let size : min (16 * (0 + (128 - start))) 255 ≡ min (16 * (128 - start)) 255 = omega arith in
    let (d', mem', e, c) =
      read_loop_lem fe 255 mem (128 - start) 0 0 d mem hb (omega (arith, hs)) (omega arith)
        (omega arith) (refl, λ i. ground arith) in
    (
      d',
      mem',
      ap (λ t. load_sectors (128 - start) d mem t 0) at
          ∙ load_sectors-read_loop fe (128 - start) 0 0 d mem hb (omega (arith, hs))
          ∙ ap outcome (e ∙ ap (λ k. (true, d', mem', k)) size),
      e ∙ ap (λ k. (true, d', mem', k)) size,
      c.0,
      ground (arith, c.1 i),
    )
