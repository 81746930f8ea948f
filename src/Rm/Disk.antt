-- ===== src/Rm/Disk.antt =====
-- src/rm/disk.c
pub mod RoundTrip
use rm_vm.Common.{
  ℕ, ◌+◌, ◌*◌, List, Bool, true, false, Option, none, some, ◌||◌, leb, if◌then◌else◌, get_or, set,
  replicate, u16,
}

abbrev pub disk_sector_count : ℕ
disk_sector_count = 128

abbrev pub disk_sector_size : ℕ
disk_sector_size = 16

-- `HardDisk`; `busy`, `ready` and `interruptFlag` are `uint8_t` used as truth values.
pub record HardDisk : Type 0 where
  pub id : ℕ
  pub busy : Bool
  pub ready : Bool
  pub interrupt_flag : Bool
  pub head : ℕ
  pub storage : List (List ℕ)

-- `disk->storage[sector]`
abbrev pub sector_at : HardDisk → ℕ → List ℕ
sector_at d sector = get_or d.storage sector (replicate disk_sector_size 0)

unfoldable pub init_disk : ℕ → HardDisk
init_disk id = record {
  id = id;
  busy = false;
  ready = true;
  interrupt_flag = false;
  head = 0;
  storage = replicate disk_sector_count (replicate disk_sector_size 0);
}

-- The bytes that go to `buffer`, or `none` where the function returns false, and the disk. `busy` is
-- set and cleared again within the call.
unfoldable pub read_disk : HardDisk → ℕ → Option (List ℕ) × HardDisk
read_disk d sector =
    if leb disk_sector_count sector || d.busy
    then (none, d)
    else (some (sector_at d sector), record d { busy = false; interrupt_flag = true })

-- `buffer` holds the `DISK_SECTOR_SIZE` bytes that `memcpy` takes.
unfoldable pub write_disk : HardDisk → ℕ → List ℕ → Bool × HardDisk
write_disk d sector buffer = if leb disk_sector_count sector || d.busy then (false, d) else (
  true,
  record d { busy = false; storage = set d.storage sector buffer; interrupt_flag = true },
)

unfoldable pub simulate_disk_interrupt : HardDisk → HardDisk
simulate_disk_interrupt d = if d.interrupt_flag then record d { interrupt_flag = false } else d

unfoldable pub disk_read_word : HardDisk → ℕ → ℕ
disk_read_word d sector =
    if leb disk_sector_count sector
    then 0
    else u16 (get_or (sector_at d sector) 0 0 + 256 * get_or (sector_at d sector) 1 0)
