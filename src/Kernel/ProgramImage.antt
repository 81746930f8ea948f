-- ===== src/Kernel/ProgramImage.antt =====
-- `loadProgramImage` of src/kernel/loader.c, which loads an image into the memory of the Real Machine.
-- The pointers are taken as not null; the log lines are left out.
pub mod Cells
pub mod Load
use rm_vm.Common.{
  ℕ, zero, suc, ◌+◌, ◌-◌, ◌*◌, ◌/◌, ◌%◌, ◌^◌, ◌≤◌, ◌<◌, bit_or, min, ◌≡◌, refl, sym, ap, ap₂, ◌∙◌,
  subst, ◌≢◌, ◌↔◌, ◌⊎◌, inl, inr, Bool, true, false, not, ◌&&◌, ◌||◌, Option, none, some, List, [],
  ◌∷◌, ◌++◌, map, append-nil, append_assoc, arith, dec_lt, ℕ_discrete, ltb, leb, ◌==◌,
  if◌then◌else◌, tests, Bool-cases, Option-cases, ltb→lt, ltb→ge, leb→le, leb→gt, ==→eq, length,
  get_or, set, take, drop, replicate, length-set, get_or-set_self, get_or-set_ne, length-append,
  length-replicate, All, All-set, All-get_or, All-replicate, u8, u16, uint16_max, IsByte, IsWord,
  AllWord, sub_u16, bit, drop-set, memcpy, length-memcpy, get_or-memcpy_out, get_or-memcpy_in,
  list_ext,
}
use rm_vm.Rm.State.{Machine}
use rm_vm.Rm.Memory.{write_raw}
use rm_vm.Rm.Disk.{HardDisk, read_disk}
use rm_vm.Kernel.Loader.{ProgramHeader, header_of, read_le16, address_fits}

abbrev pub loader_header_words : ℕ
loader_header_words = 3

abbrev pub words_per_sector : ℕ
words_per_sector = 8

pub record LoadResult : Type 0 where
  pub load_address : ℕ
  pub entry_point : ℕ
  pub words_loaded : ℕ
  pub start_sector : ℕ
  pub sectors_used : ℕ

-- The inner loop, with `n` words left in the sector (`WORDS_PER_SECTOR - wordIndexInSector`): the memory
-- and `wordsLoaded`, or `none` for a write outside `mem->cells`.
unfoldable pub sector_words : ℕ → ℕ → ℕ → List ℕ → ℕ → List ℕ → ℕ → Option (List ℕ × ℕ)
sector_words zero load_address word_count buf index mem words = some (mem, words)
sector_words (suc n) load_address word_count buf index mem words =
    if not (ltb words word_count)
    then some (mem, words)
    else elim (write_raw mem (u16 (load_address + words)) (read_le16 buf (index * 2))) [
      | none ↦ none
      | some mem' ↦ sector_words n load_address word_count buf (index + 1) mem' (words + 1)
    ]

-- The outer loop on fuel: whether all words were read, the disk, the memory, `wordsLoaded` and
-- `sectorsUsed`.
unfoldable pub image_loop :
    ℕ
    → HardDisk
    → ℕ
    → ℕ
    → ℕ
    → List ℕ
    → ℕ
    → List ℕ
    → ℕ
    → ℕ
    → Option (Bool × HardDisk × List ℕ × ℕ × ℕ)
image_loop zero disk load_address word_count sector buf index mem words used = none
image_loop (suc fuel) disk load_address word_count sector buf index mem words used =
    if not (ltb words word_count)
    then some (true, disk, mem, words, used)
    else elim (sector_words (words_per_sector - index) load_address word_count buf index mem
        words) [
          | none ↦ none
          | some (mem', words') ↦
              if leb word_count words'
              then some (true, disk, mem', words', used)
              else (let (got, disk') = read_disk disk (u16 (sector + 1)) in
                  elim got [
                    | none ↦ some (false, disk', mem', words', u16 (used + 1))
                    | some buf' ↦
                        image_loop fuel disk' load_address word_count (u16 (sector + 1)) buf' 0 mem'
                          words' (u16 (used + 1))
                  ])
        ]

-- At most 127 words fit, five in the first sector and eight in each other.
abbrev pub image_sectors : ℕ
image_sectors = 17

-- What is left to do after the loop.
finish_load :
    ℕ
    → ProgramHeader
    → ℕ
    → Machine
    → Option (Bool × HardDisk × List ℕ × ℕ × ℕ)
    → Option (Bool × HardDisk × Machine × Option LoadResult)
finish_load load_address hdr start_sector m none = none
finish_load load_address hdr start_sector m (some (ok, disk, mem, words, used)) =
    let entry_point = u16 (load_address + hdr.entry_offset) in
    if not ok
    then some (false, disk, record m { mem = mem }, none)
    else some (
      true,
      disk,
      record m { mem = mem; cpu = record m.cpu { ic = entry_point } },
      some (record {
        load_address = load_address;
        entry_point = entry_point;
        words_loaded = words;
        start_sector = start_sector;
        sectors_used = u16 (used + 1);
      }),
    )

-- From the first sector on.
load_words :
    HardDisk → Machine → ℕ → ℕ → List ℕ → Option (Bool × HardDisk × Machine × Option LoadResult)
unfolding finish_load
load_words disk m start_sector load_address buf =
    let hdr = header_of buf in
    if hdr.word_count == 0
    then some (false, disk, m, none)
    else if not (address_fits load_address hdr.word_count)
    then some (false, disk, m, none)
    else if leb hdr.word_count hdr.entry_offset
    then some (false, disk, m, none)
    else finish_load load_address hdr start_sector m (
        image_loop image_sectors disk load_address hdr.word_count start_sector buf
          loader_header_words m.mem 0 0)

-- `none` stands for a write outside the memory and for a loop that runs out of fuel.
unfoldable pub load_program_image :
    HardDisk → Machine → ℕ → ℕ → Option (Bool × HardDisk × Machine × Option LoadResult)
unfolding load_words
load_program_image disk m start_sector load_address =
    let (got, disk') = read_disk disk start_sector in
    if not (address_fits load_address 1) then some (false, disk, m, none) else elim got [
      | none ↦ some (false, disk', m, none)
      | some buf ↦ load_words disk' m start_sector load_address buf
    ]
