-- ===== src/Rm/Disk/RoundTrip.antt =====
-- src/rm/disk.c: what a sector holds after a write.
use rm_vm.Common.{
  ℕ, ◌<◌, ◌≡◌, true, false, not, ◌&&◌, none, some, List, arith, ltb, ◌==◌, if◌then◌else◌, length,
  replicate, length-set, get_or-set_self, get_or-set_ne,
}
use rm_vm.Rm.Disk.{HardDisk, sector_at, read_disk, write_disk, disk_sector_count}

-- The disk array has its size.
abbrev pub Sized : HardDisk → Type 0
Sized d = length d.storage ≡ disk_sector_count

pub write_disk-Sized : (d : HardDisk) (s : ℕ) (b : List ℕ) → Sized d → Sized (write_disk d s b).1
unfolding write_disk
write_disk-Sized d s b h = ground (arith, length-set d.storage s b)

-- A write succeeds exactly on an idle disk at a sector that exists; a read after it fails on the same
-- test, and gives the bytes written at that sector and the old bytes at any other. Neither leaves the
-- disk busy if it was idle, and a failed write changes nothing.
pub read_disk-write_disk :
    (d : HardDisk) (s t : ℕ) (b : List ℕ)
    → Sized d
    → let (done, d') = write_disk d s b in
      (done ≡ (ltb s 128 && not d.busy))
      × ((read_disk d' t).0 ≡ (
          if ltb t 128 && not d.busy
          then some (if done && (s == t) then b else sector_at d t)
          else none))
      × (d'.busy ≡ d.busy)
      × ((read_disk d' t).1.busy ≡ d.busy)
      × (d' ≡ (if done then d' else d))
unfolding write_disk read_disk
read_disk-write_disk d s t b h = ground (
  arith,
  get_or-set_self d.storage s b (replicate 16 0),
  get_or-set_ne d.storage s t b (replicate 16 0),
)

-- The disk after a read that succeeds.
abbrev pub after_read : HardDisk → HardDisk
after_read d = record d { busy = false; interrupt_flag = true }

pub read_disk_idle :
    (d : HardDisk) (t : ℕ)
    → d.busy ≡ false
    → t < 128
    → read_disk d t ≡ (some (sector_at d t), after_read d)
unfolding read_disk
read_disk_idle d t hb h = ground (arith, hb)
