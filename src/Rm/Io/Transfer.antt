-- ===== src/Rm/Io/Transfer.antt =====
-- src/rm/io.c: what `IOread` and `IOwrite` move.
use rm_vm.Common.{
  ℕ, zero, suc, ◌+◌, ◌-◌, ◌≤◌, ◌<◌, ◌≡◌, refl, sym, ◌∙◌, subst, true, false, ◌&&◌, Option, some,
  List, arith, ℕ_discrete, ltb, leb, if◌then◌else◌, length, get_or, set, length-set,
  get_or-set_self, get_or-set_ne, u16,
}
use rm_vm.Rm.State.{si_read, si_write, raise_system_interrupt, memory_size}
use rm_vm.Rm.Memory.{write_raw}
use rm_vm.Rm.Disk.{HardDisk, disk_read_word}
use rm_vm.Rm.Channel.{channel_xchg, exchange, transfer}
use rm_vm.Rm.Io.{Io, io_read, io_write}

-- `IOwrite` reports success and raises its interrupt, and neither the disk nor the memory has changed:
-- the channel has no case for a transfer to the disk.
io_write_moves_nothing :
    (sector src count : ℕ) (s : Io)
    → s.disk_initialized ≡ true
    → (s' : Io) × (io_write sector src count s ≡ some (true, s'))
      × (s'.hard_disk ≡ s.hard_disk)
      × (s'.machine.mem ≡ s.machine.mem)
      × (s'.machine.cpu.si ≡ si_write)
unfolding io_write channel_xchg exchange raise_system_interrupt
io_write_moves_nothing sector src count s h = (
  record s {
    machine = record s.machine { cpu = record s.machine.cpu { si = si_write } };
    disk_channel = record s.disk_channel {
      st = 2;
      sb = src;
      dt = 12;
      db = sector;
      count = count;
      offset = 0;
      busy = false;
    };
  },
  ground (arith, h),
  refl,
  refl,
  refl,
)

-- The first words of sectors, from sector `sb + i` on, at the cells from `db + i` on.
abbrev Moved : HardDisk → ℕ → ℕ → ℕ → List ℕ → List ℕ → Type 0
Moved d sb db n old new =
    (length new ≡ length old)
    × ((j : ℕ)
        → get_or new j 0 ≡ (
            if leb db j && ltb j (db + n)
            then disk_read_word d (sb + (j - db))
            else get_or old j 0))

abbrev from_disk : HardDisk → List ℕ → ℕ → Option ℕ
from_disk d _ s = some (disk_read_word d s)

Moved-set :
    (d : HardDisk) (sb db i : ℕ) (old mem : List ℕ)
    → db + i < length old
    → Moved d sb db i old mem
    → Moved d sb db (i + 1) old (set mem (db + i) (disk_read_word d (sb + i)))
Moved-set d sb db i old mem h (l, m) = (
  length-set mem (db + i) (disk_read_word d (sb + i)) ∙ l,
  λ j. elim (ℕ_discrete j (db + i)) [
    | yes e ↦
        ground (
          arith,
          e,
          get_or-set_self mem (db + i) (disk_read_word d (sb + i)) 0 (omega (arith, h, l)),
        )
    | no e ↦
        get_or-set_ne mem (db + i) j (disk_read_word d (sb + i)) 0 (λ q. e (sym q))
        ∙ m j
        ∙ ground (arith, e)
  ],
)

inside : (a : ℕ) → a < 65536 → u16 a ≡ a
inside a h = omega arith

transfer-step :
    (d : HardDisk) (n i sb db : ℕ) (mem : List ℕ)
    → sb + i < 65536
    → db + i < 512
    → transfer (from_disk d) (suc n) i sb db mem
      ≡ transfer (from_disk d) n (i + 1) sb db (set mem (db + i) (disk_read_word d (sb + i)))
unfolding transfer write_raw
transfer-step d n i sb db mem hs hd =
    ground (arith, inside (sb + i) hs, inside (db + i) (omega arith))

transfer_none :
    (d : HardDisk) (i sb db : ℕ) (mem : List ℕ) → transfer (from_disk d) 0 i sb db mem ≡ some mem
unfolding transfer
transfer_none d i sb db mem = refl

transfer_lem :
    (d : HardDisk) (sb db : ℕ) (old : List ℕ) (n i : ℕ) (mem : List ℕ)
    → length old ≡ 512
    → sb + (i + n) ≤ 65536
    → db + (i + n) ≤ 512
    → Moved d sb db i old mem
    → (mem' : List ℕ) × (transfer (from_disk d) n i sb db mem ≡ some mem')
      × Moved d sb db (i + n) old mem'
transfer_lem d sb db old zero i mem l hs hd m =
    (mem, transfer_none d i sb db mem, subst (λ k. Moved d sb db k old mem) (omega arith) m)
transfer_lem d sb db old (suc n) i mem l hs hd m =
    let (mem', e, m') =
      transfer_lem d sb db old n (i + 1) (set mem (db + i) (disk_read_word d (sb + i))) l
        (omega arith) (omega arith) (Moved-set d sb db i old mem (omega arith) m) in
    (
      mem',
      transfer-step d n i sb db mem (omega arith) (omega arith) ∙ e,
      subst (λ k. Moved d sb db k old mem') (omega arith) m',
    )

-- A read whose destination lies in the memory succeeds and raises its interrupt: the cell `dest + j`
-- holds the first word of sector `sector + j`, for each of the `count` sectors, and zero for a sector
-- that does not exist; every other cell keeps its word.
io_read_lem :
    (sector dest count j : ℕ) (s : Io)
    → s.disk_initialized ≡ true
    → length s.machine.mem ≡ memory_size
    → sector + count ≤ 65536
    → dest + count ≤ memory_size
    → (s' : Io) × (io_read sector dest count s ≡ some (true, s'))
      × (s'.machine.cpu.si ≡ si_read)
      × (get_or s'.machine.mem j 0 ≡ (
          if leb dest j && ltb j (dest + count)
          then disk_read_word s.hard_disk (sector + (j - dest))
          else get_or s.machine.mem j 0))
unfolding io_read channel_xchg exchange raise_system_interrupt
io_read_lem sector dest count j s h l hs hd =
    let d = s.hard_disk in
    let old = s.machine.mem in
    let (mem, e, m) =
      transfer_lem d sector dest old count 0 old l (omega arith) (omega arith)
        (refl, λ j. ground arith) in
    (
      record s {
        machine = record s.machine { mem = mem; cpu = record s.machine.cpu { si = si_read } };
        disk_channel = record s.disk_channel {
          st = 3;
          sb = sector;
          dt = 11;
          db = dest;
          count = count;
          offset = 0;
          busy = false;
        };
      },
      ground (arith, h, e),
      refl,
      ground (arith, m.1 j),
    )

-- On an initialised device, where `sector + count` is at most 65536, so that no sector number wraps, a read
-- whose destination lies in the memory succeeds and raises its interrupt:
-- the cell `dest + j` holds the first word of sector `sector + j`, for each of the `count` sectors, and
-- zero for a sector that does not exist; every other cell keeps its word. A write of the same words
-- reports success and raises its interrupt as well, but neither the disk nor the memory has changed.
pub io_lem :
    (sector dest count j : ℕ) (s : Io)
    → s.disk_initialized ≡ true
    → length s.machine.mem ≡ memory_size
    → sector + count ≤ 65536
    → dest + count ≤ memory_size
    → ((s' : Io) × (io_read sector dest count s ≡ some (true, s'))
        × (s'.machine.cpu.si ≡ si_read)
        × (get_or s'.machine.mem j 0 ≡ (
            if leb dest j && ltb j (dest + count)
            then disk_read_word s.hard_disk (sector + (j - dest))
            else get_or s.machine.mem j 0)))
      × ((s' : Io) × (io_write sector dest count s ≡ some (true, s'))
          × (s'.hard_disk ≡ s.hard_disk)
          × (s'.machine.mem ≡ s.machine.mem)
          × (s'.machine.cpu.si ≡ si_write))
io_lem sector dest count j s h l hs hd =
    (io_read_lem sector dest count j s h l hs hd, io_write_moves_nothing sector dest count s h)
