-- ===== src/Kernel/Mmu.antt =====
-- src/kernel/mmu.c. A `PageTableEntry` takes two cells: the frame, and the bytes `present` (low) and
-- `writable` (high).
pub mod Stride
use rm_vm.Common.{
  ℕ, zero, suc, ◌+◌, ◌-◌, ◌*◌, ◌/◌, ◌%◌, ◌^◌, ◌≤◌, ◌<◌, bit_or, min, ◌≡◌, refl, sym, ap, ap₂, ◌∙◌,
  subst, ◌≢◌, ◌↔◌, ◌⊎◌, inl, inr, Bool, true, false, not, ◌&&◌, ◌||◌, Option, none, some, List, [],
  ◌∷◌, ◌++◌, map, append-nil, append_assoc, arith, dec_lt, ℕ_discrete, ltb, leb, ◌==◌,
  if◌then◌else◌, tests, Bool-cases, Option-cases, ltb→lt, ltb→ge, leb→le, leb→gt, ==→eq, length,
  get_or, set, take, drop, replicate, length-set, get_or-set_self, get_or-set_ne, length-append,
  length-replicate, All, All-set, All-get_or, All-replicate, u8, u16, uint16_max, IsByte, IsWord,
  AllWord, sub_u16, bit, drop-set,
}
use rm_vm.Rm.State.{Cpu, memory_size, pi_invalid_address}

abbrev pub mmu_page_size : ℕ
mmu_page_size = 256

abbrev pub mmu_page_count : ℕ
mmu_page_count = 256

abbrev pub invalid_page : ℕ
invalid_page = 0xFFFF

-- `sizeof(PageTableEntry)`, in bytes.
abbrev pub pte_size : ℕ
pte_size = 4

-- `none` is a read outside `mem->cells`. The product is added to an index of cells, not of bytes.
unfoldable pub mmu_translate : ℕ → Cpu → List ℕ → Option (ℕ × Cpu)
mmu_translate virtual_addr cpu mem =
    let page = virtual_addr / 256 % 256 in
    let offset = virtual_addr % 256 in
    let pte_addr = u16 (cpu.ptr + page * pte_size) in
    let frame = get_or mem pte_addr 0 in
    let present = not (get_or mem (pte_addr + 1) 0 % 256 == 0) in
    if leb memory_size (pte_addr + 1)
    then none
    else if present
    then some (u16 (frame * mmu_page_size + offset), cpu)
    else some (invalid_page, record cpu { pi = pi_invalid_address })

-- `pt[i] = { i, true, true }` for the `n` entries from `i` on; `none` is a write outside the array.
unfoldable pub fill : ℕ → ℕ → ℕ → List ℕ → Option (List ℕ)
fill pt zero i mem = some mem
fill pt (suc n) i mem =
    let a = pt + 2 * i in
    let rest = fill pt n (i + 1) (set (set mem a i) (a + 1) (1 + 256 * 1)) in
    if leb memory_size (a + 1) then none else rest

unfoldable pub init_page_table : Cpu → List ℕ → ℕ → Option (Cpu × List ℕ)
init_page_table cpu mem pt_addr = elim (fill pt_addr mmu_page_count 0 mem) [
  | none ↦ none
  | some mem' ↦ some (record cpu { ptr = pt_addr }, mem')
]
