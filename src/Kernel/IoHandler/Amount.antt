-- ===== src/Kernel/IoHandler/Amount.antt =====
-- How many bytes `completeIO` of src/kernel/ioHandler.c moves, and its copy.
use rm_vm.Rm.Disk.RoundTrip.{Sized}
use rm_vm.Rm.Disk.{sector_at, HardDisk}
use rm_vm.Kernel.IoHandler.{transfer_size, copy}
use rm_vm.Common.{
  ℕ, ◌+◌, ◌-◌, ◌*◌, ◌≤◌, ◌<◌, min, ◌≡◌, ◌⊎◌, false, none, some, List, arith, length, get_or, memcpy,
  length-memcpy, get_or-memcpy_out, get_or-memcpy_in,
}

-- As many bytes as fit in a sector, as were asked for, and as the cells have from `r1` on.
pub amount : ℕ → ℕ → ℕ
amount r1 r2 = min 16 (min (2 * r2) (255 - r1))

pub transfer_size-amount : (r1 r2 : ℕ) → r1 ≤ 255 → transfer_size r1 r2 ≡ amount r1 r2
unfolding transfer_size amount
transfer_size-amount r1 r2 h = ground arith

transfer_size_beyond : (r1 r2 : ℕ) → 255 < r1 → r1 ≤ 65535 → 65536 ≤ transfer_size r1 r2
unfolding transfer_size
transfer_size_beyond r1 r2 h w = ground arith

pub copy_inside :
    (n : ℕ) (dst : List ℕ) (to : ℕ) (src : List ℕ) (from : ℕ)
    → to + n ≤ length dst
    → from + n ≤ length src
    → copy n dst to src from ≡ some (memcpy n dst to src from 0)
unfolding copy
copy_inside n dst to src from h k = ground arith

pub copy_outside :
    (n : ℕ) (dst : List ℕ) (to : ℕ) (src : List ℕ) (from : ℕ)
    → (length dst < to + n) ⊎ (length src < from + n)
    → copy n dst to src from ≡ none
unfolding copy
copy_outside n dst to src from h = ground arith

-- Sectors of 16 bytes and cells of 255, on a disk that is idle, and a sector that it has.
pub record Setup (d : HardDisk) (r0 : ℕ) (cells : List ℕ) : Type 0 where
  pub idle : d.busy ≡ false
  pub sized : Sized d
  pub sector : r0 < 128
  pub bytes : length (sector_at d r0) ≡ 16
  pub cells_sized : length cells ≡ 255

-- The bytes of `src` from `from` on stand in `out` at `to`, `n` of them, and the rest is as in `dst`.
abbrev pub Moved : ℕ → List ℕ → ℕ → List ℕ → ℕ → List ℕ → Type 0
Moved n dst to src from out =
    (length out ≡ length dst)
    × ((j : ℕ) → j < n → get_or out (to + j) 0 ≡ get_or src (from + j) 0)
    × ((i : ℕ) → (i < to) ⊎ (to + n ≤ i) → get_or out i 0 ≡ get_or dst i 0)

pub memcpy-Moved :
    (n : ℕ) (dst : List ℕ) (to : ℕ) (src : List ℕ) (from : ℕ)
    → to + n ≤ length dst
    → Moved n dst to src from (memcpy n dst to src from 0)
memcpy-Moved n dst to src from h = (
  length-memcpy n dst to src from 0,
  λ j k. get_or-memcpy_in n dst to src from 0 j k h,
  λ i k. get_or-memcpy_out n dst to src from 0 i k,
)

pub zero_add : (j : ℕ) → 0 + j ≡ j
zero_add j = omega arith

pub amount_le : (r1 r2 : ℕ) → r1 ≤ 255 → (amount r1 r2 ≤ 16) × (r1 + amount r1 r2 ≤ 255)
unfolding amount
amount_le r1 r2 h = (ground arith, ground arith)
