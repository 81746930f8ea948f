-- ===== src/Kernel/Loader.antt =====
-- src/kernel/loader.c: `loaderLoadFile` for a call without a scheduler, which is the one of
-- `createVM`: nothing is arbitrated and nobody is woken. The log lines are left out.
pub mod Words
pub mod Image
pub mod Bounds
use rm_vm.Common.{
  ℕ, zero, suc, ◌+◌, ◌-◌, ◌*◌, ◌/◌, ◌%◌, ◌^◌, ◌≤◌, ◌<◌, bit_or, min, ◌≡◌, refl, sym, ap, ap₂, ◌∙◌,
  subst, ◌≢◌, ◌↔◌, ◌⊎◌, inl, inr, Bool, true, false, not, ◌&&◌, ◌||◌, Option, none, some, List, [],
  ◌∷◌, ◌++◌, map, append-nil, append_assoc, arith, dec_lt, ℕ_discrete, ltb, leb, ◌==◌,
  if◌then◌else◌, tests, Bool-cases, Option-cases, ltb→lt, ltb→ge, leb→le, leb→gt, ==→eq, length,
  get_or, set, take, drop, replicate, length-set, get_or-set_self, get_or-set_ne, length-append,
  length-replicate, All, All-set, All-get_or, All-replicate, u8, u16, uint16_max, IsByte, IsWord,
  AllWord, sub_u16, bit, drop-set, memcpy, length-memcpy, get_or-memcpy_out, get_or-memcpy_in,
  list_ext,
}
use rm_vm.Rm.State.{reg_count, si_none}
use rm_vm.Rm.Disk.{HardDisk, disk_sector_size, read_disk}
use rm_vm.Vm.State.{VirtualMachine, vm_memory_size, create_vm}
use rm_vm.Kernel.Files.{FileEntry, FileTable, find_file}

pub record ProgramHeader : Type 0 where
  pub word_count : ℕ
  pub entry_offset : ℕ
  pub load_address : ℕ

abbrev pub program_header_size : ℕ
program_header_size = 6

abbrev pub read_le16 : List ℕ → ℕ → ℕ
read_le16 buf byte_index = u16 (get_or buf byte_index 0 + 256 * get_or buf (byte_index + 1) 0)

abbrev pub address_fits : ℕ → ℕ → Bool
address_fits load_address word_count = leb (load_address + word_count * 2) vm_memory_size

abbrev pub header_of : List ℕ → ProgramHeader
header_of buf = record {
  word_count = read_le16 buf 0;
  entry_offset = read_le16 buf 2;
  load_address = read_le16 buf 4;
}

-- One word of the image, high byte first. Once `address_fits` holds, so does the test for every word of
-- the image.
abbrev pub put_word : ProgramHeader → List ℕ → ℕ → ℕ → List ℕ
put_word hdr mem words_loaded word =
    let byte_index = hdr.load_address + words_loaded * 2 in
    if ltb (byte_index + 1) vm_memory_size
    then set (set mem byte_index (u8 (word / 256))) (byte_index + 1) (u8 word)
    else mem

-- The inner loop, with `n` words left in the sector: `byteOffset` is even, so `n` is 0 exactly when
-- `byteOffset + 1 < DISK_SECTOR_SIZE` fails. The memory and `wordsLoaded`.
unfoldable pub copy_words : ℕ → ProgramHeader → List ℕ → List ℕ → ℕ → ℕ → List ℕ × ℕ
copy_words zero hdr buf mem byte_offset words_loaded = (mem, words_loaded)
copy_words (suc n) hdr buf mem byte_offset words_loaded =
    let word = read_le16 buf byte_offset in
    let rest =
      copy_words n hdr buf (put_word hdr mem words_loaded word) (byte_offset + 2)
        (words_loaded + 1) in
    if ltb words_loaded hdr.word_count then rest else (mem, words_loaded)

-- The outer loop, with `n` sectors of the file left (`sectorCount - sectorsRead`), from `byte_offset`
-- in the sector that `buf` holds.
unfoldable pub load_loop :
    ℕ → HardDisk → ProgramHeader → ℕ → List ℕ → ℕ → List ℕ → ℕ → HardDisk × List ℕ × ℕ
load_loop zero disk hdr sector buf byte_offset mem words_loaded = (disk, mem, words_loaded)
load_loop (suc n) disk hdr sector buf byte_offset mem words_loaded =
    let (mem', words') =
      copy_words ((disk_sector_size - byte_offset) / 2) hdr buf mem byte_offset words_loaded in
    let (got, disk') = read_disk disk (u16 (sector + 1)) in
    if not (ltb words_loaded hdr.word_count)
    then (disk, mem, words_loaded)
    else if leb hdr.word_count words'
    then (disk, mem', words')
    else elim got [
      | none ↦ (disk', mem', words')
      | some buf' ↦ load_loop n disk' hdr (u16 (sector + 1)) buf' 0 mem' words'
    ]

-- What `loaderLoadFile` writes once all words are loaded.
abbrev pub start_vm : ProgramHeader → VirtualMachine → List ℕ → VirtualMachine
start_vm hdr vm mem = record vm {
  memory = mem;
  vm_cpu = record vm.vm_cpu {
    pc = u16 (hdr.load_address + hdr.entry_offset * 2);
    r = replicate reg_count 0;
    sf = 0;
    si = si_none;
  };
  trap_code = si_none;
  trap_r0 = 0;
  trap_r1 = 0;
  trap_r2 = 0;
}

-- From the first sector on. A truncated image has changed the memory all the same.
unfoldable pub load_image :
    HardDisk → VirtualMachine → FileEntry → List ℕ → Bool × HardDisk × VirtualMachine
load_image disk vm fe buf =
    let hdr = header_of buf in
    let (disk', mem, words) =
      load_loop fe.sector_count disk hdr fe.start_sector buf program_header_size vm.memory 0 in
    if hdr.word_count == 0 || not (address_fits hdr.load_address hdr.word_count)
    then (false, disk, vm)
    else if leb hdr.word_count hdr.entry_offset
    then (false, disk, vm)
    else if not (words == hdr.word_count)
    then (false, disk', record vm { memory = mem })
    else (true, disk', start_vm hdr vm mem)

unfoldable pub loader_load_file :
    HardDisk → FileTable → VirtualMachine → ℕ → Bool × HardDisk × VirtualMachine
loader_load_file disk table vm id = elim (find_file table id) [
  | none ↦ (false, disk, vm)
  | some fe ↦
      let (got, disk') = read_disk disk fe.start_sector in
      elim got [ none ↦ (false, disk', vm) | some buf ↦ load_image disk' vm fe buf ]
]

-- `createVM` for any file id; `none` is a null pointer. The allocations succeed.
unfoldable pub create_vm_for : HardDisk → FileTable → ℕ → Option VirtualMachine × HardDisk
create_vm_for disk table id =
    let (ok, disk', vm) = loader_load_file disk table create_vm id in
    if id == 0 then (some create_vm, disk) else if ok then (some vm, disk') else (none, disk')
