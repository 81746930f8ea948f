-- ===== src/Kernel/Mmu/Stride.antt =====
-- src/kernel/mmu.c: the page table that `initPageTable` writes, as `mmuTranslate` reads it.
use rm_vm.Common.{
  ℕ, zero, suc, ◌+◌, ◌*◌, ◌/◌, ◌%◌, ◌≤◌, ◌<◌, ◌≡◌, refl, ◌∙◌, ◌&&◌, none, some, List, arith, ltb,
  leb, ◌==◌, if◌then◌else◌, length, get_or, set, length-set, get_or-set_self, get_or-set_ne, u16,
}
use rm_vm.Rm.State.{memory_size, Cpu}
use rm_vm.Kernel.Mmu.{mmu_translate, fill, init_page_table, mmu_page_count}

-- The entries from `i` on do not fit.
fill_beyond : (pt n i : ℕ) (mem : List ℕ) → 512 < pt + 2 * (i + n) → 0 < n → fill pt n i mem ≡ none
unfolding fill
fill_beyond pt zero i mem h p = absurd (omega arith)
fill_beyond pt (suc zero) i mem h p = ground arith
fill_beyond pt (suc (suc n)) i mem h p = ground (
  arith,
  fill_beyond pt (suc n) (i + 1) (set (set mem (pt + 2 * i) i) (pt + 2 * i + 1) 257) (omega arith)
      (omega arith),
)

-- A page table fits the physical memory at address 0 alone: from any other address on,
-- `initPageTable` writes outside the array of cells.
pub init_page_table_beyond :
    (cpu : Cpu) (mem : List ℕ) (pt : ℕ) → 0 < pt → init_page_table cpu mem pt ≡ none
unfolding init_page_table
init_page_table_beyond cpu mem pt h =
    rw (fill_beyond pt mmu_page_count 0 mem (omega arith) (omega arith), init_page_table)

-- The cells of the table at address 0, after the entries from `i` on have been written.
abbrev Filled : ℕ → ℕ → List ℕ → List ℕ → Type 0
Filled n i mem out =
    (length out ≡ 512)
    × ((j : ℕ)
        → get_or out (2 * j) 0 ≡ (if leb i j && ltb j (i + n) then j else get_or mem (2 * j) 0))
    × ((j : ℕ)
        → get_or out (2 * j + 1) 0
          ≡ (if leb i j && ltb j (i + n) then 257 else get_or mem (2 * j + 1) 0))

-- One entry more, at both of its cells.
module _ (mem : List ℕ) (i j : ℕ) (l : length mem ≡ 512) (h : i < 256) where
  entry : List ℕ
  entry = set (set mem (2 * i) i) (2 * i + 1) 257

  entry_length : length entry ≡ 512
  unfolding entry
  entry_length = length-set (set mem (2 * i) i) (2 * i + 1) 257 ∙ length-set mem (2 * i) i ∙ l

  entry_even : get_or entry (2 * j) 0 ≡ (if i == j then i else get_or mem (2 * j) 0)
  unfolding entry
  entry_even = ground (
    arith,
    get_or-set_ne (set mem (2 * i) i) (2 * i + 1) (2 * j) 257 0,
    get_or-set_self mem (2 * i) i 0,
    get_or-set_ne mem (2 * i) (2 * j) i 0,
  )

  entry_odd : get_or entry (2 * j + 1) 0 ≡ (if i == j then 257 else get_or mem (2 * j + 1) 0)
  unfolding entry
  entry_odd = ground (
    arith,
    length-set mem (2 * i) i,
    get_or-set_self (set mem (2 * i) i) (2 * i + 1) 257 0,
    get_or-set_ne (set mem (2 * i) i) (2 * i + 1) (2 * j + 1) 257 0,
    get_or-set_ne mem (2 * i) (2 * j + 1) i 0,
  )

fill-Filled :
    (n i : ℕ) (mem : List ℕ)
    → length mem ≡ 512
    → i + n ≤ 256
    → (out : List ℕ) × (fill 0 n i mem ≡ some out) × Filled n i mem out
unfolding fill entry
fill-Filled zero i mem l h = (mem, refl, (l, λ j. ground arith, λ j. ground arith))
fill-Filled (suc n) i mem l h =
    let mem' = entry mem i i l (omega arith) in
    let (out, e, f) =
      fill-Filled n (i + 1) mem' (entry_length mem i i l (omega arith)) (omega arith) in
    (
      out,
      ground arith,
      (
        f.0,
        λ j. ground (arith, f.1 j, entry_even mem i j l (omega arith)),
        λ j. ground (arith, f.2 j, entry_odd mem i j l (omega arith)),
      ),
    )

translate_entry :
    (v : ℕ) (cpu : Cpu) (mem : List ℕ)
    → v < 32768
    → cpu.ptr ≡ 0
    → get_or mem (2 * (2 * (v / 256))) 0 ≡ 2 * (v / 256)
    → get_or mem (2 * (2 * (v / 256)) + 1) 0 ≡ 257
    → mmu_translate v cpu mem ≡ some (u16 (512 * (v / 256) + v % 256), cpu)
unfolding mmu_translate
translate_entry v cpu mem hv hp even odd = rw (addr, even, odd) (ground (arith, hv))
  where
    addr : u16 (cpu.ptr + v / 256 % 256 * 4) ≡ 2 * (2 * (v / 256))
    addr = omega (arith, hp)

-- The table at address 0 does not map a page to the frame of its number: entry `i` is written two cells
-- behind entry `i - 1` and read four cells behind it, so page `p` is translated to frame `2 p`, for
-- every virtual address of the lower half; the table is written without an access out of bounds.
pub mmu_translate-init_page_table :
    (cpu : Cpu) (mem : List ℕ) (v : ℕ)
    → length mem ≡ memory_size
    → v < 32768
    → (cpu' : Cpu) × (mem' : List ℕ) × (init_page_table cpu mem 0 ≡ some (cpu', mem'))
      × (mmu_translate v cpu' mem' ≡ some (u16 (512 * (v / 256) + v % 256), cpu'))
unfolding init_page_table
mmu_translate-init_page_table cpu mem v l hv =
    let (out, e, f) = fill-Filled 256 0 mem l (omega arith) in
    (
      record cpu { ptr = 0 },
      out,
      rw (e, init_page_table),
      translate_entry v (record cpu { ptr = 0 }) out hv refl (ground (arith, f.1 (2 * (v / 256))))
          (ground (arith, f.2 (2 * (v / 256)))),
    )

-- After `initPageTable` at address 0, which ends within the cells, `mmuTranslate` sends page `p` to frame
-- `2 p`, for every virtual address of the lower half; from any other address on `initPageTable` writes
-- outside the array of cells.
pub init_page_table_lem :
    (cpu : Cpu) (mem : List ℕ) (v base : ℕ)
    → length mem ≡ memory_size
    → v < 32768
    → ((cpu' : Cpu) × (mem' : List ℕ) × (init_page_table cpu mem 0 ≡ some (cpu', mem'))
        × (mmu_translate v cpu' mem' ≡ some (u16 (512 * (v / 256) + v % 256), cpu')))
      × (init_page_table cpu mem (suc base) ≡ none)
init_page_table_lem cpu mem v base l hv = (
  mmu_translate-init_page_table cpu mem v l hv,
  init_page_table_beyond cpu mem (suc base) (omega arith),
)
