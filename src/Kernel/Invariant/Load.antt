-- ===== src/Kernel/Invariant/Load.antt =====
-- What `loaderLoadFile` of src/kernel/loader.c does to the disk.
use rm_vm.Vm.State.{VirtualMachine}
use rm_vm.Kernel.Invariant.{IsDisk}
use rm_vm.Kernel.Files.{FileEntry, find_file, FileTable}
use rm_vm.Kernel.Loader.{
  address_fits, header_of, copy_words, load_image, ProgramHeader, loader_load_file, load_loop,
}
use rm_vm.Rm.Disk.{HardDisk, read_disk}
use rm_vm.Common.{
  ℕ, zero, suc, ◌+◌, ◌-◌, ◌/◌, refl, inl, inr, not, ◌||◌, List, ltb, leb, ◌==◌, Bool-cases,
  Option-cases, u16,
}

-- The disk after a read.
read-IsDisk : (d : HardDisk) (t : ℕ) → IsDisk d → IsDisk (read_disk d t).1
unfolding read_disk
read-IsDisk d t h = elim (Bool-cases (leb 128 t || d.busy)) [
  | inl e ↦ rw e h
  | inr e ↦ rw e (record { idle = refl; sized = h.sized; sectors = h.sectors })
]

load_loop-IsDisk :
    (n : ℕ) (d : HardDisk) (hdr : ProgramHeader) (sector : ℕ) (buf : List ℕ) (offset : ℕ)
    (mem : List ℕ) (words : ℕ)
    → IsDisk d
    → IsDisk (load_loop n d hdr sector buf offset mem words).0
unfolding load_loop
load_loop-IsDisk zero d hdr sector buf offset mem words h = h
load_loop-IsDisk (suc n) d hdr sector buf offset mem words h =
    let c = copy_words ((16 - offset) / 2) hdr buf mem offset words in
    let read = read-IsDisk d (u16 (sector + 1)) h in
    elim (Bool-cases (ltb words hdr.word_count)) [
      | inr e ↦ rw e h
      | inl e ↦ elim (Bool-cases (leb hdr.word_count c.1)) [
        | inl k ↦ rw (e, k) h
        | inr k ↦ elim (Option-cases (read_disk d (u16 (sector + 1))).0) [
          | inl r ↦ rw (e, k, r) read
          | inr (buf', r) ↦
              rw (e, k, r)
                (load_loop-IsDisk n (read_disk d (u16 (sector + 1))).1 hdr (u16 (sector + 1)) buf' 0
                  c.0 c.1 read)
        ]
      ]
    ]

load_image-IsDisk :
    (d : HardDisk) (vm : VirtualMachine) (fe : FileEntry) (buf : List ℕ)
    → IsDisk d
    → IsDisk (load_image d vm fe buf).1
unfolding load_image
load_image-IsDisk d vm fe buf h =
    let hdr = header_of buf in
    let done = load_loop fe.sector_count d hdr fe.start_sector buf 6 vm.memory 0 in
    let after = load_loop-IsDisk fe.sector_count d hdr fe.start_sector buf 6 vm.memory 0 h in
    elim (Bool-cases (hdr.word_count == 0 || not (address_fits hdr.load_address hdr.word_count))) [
      | inl e ↦ rw e h
      | inr e ↦ elim (Bool-cases (leb hdr.word_count hdr.entry_offset)) [
        | inl k ↦ rw (e, k) h
        | inr k ↦ elim (Bool-cases (done.2 == hdr.word_count)) [
          | inl f ↦ rw (e, k, f) after
          | inr f ↦ rw (e, k, f) after
        ]
      ]
    ]

-- `loaderLoadFile` only reads the disk.
pub loader_load_file-IsDisk :
    (d : HardDisk) (table : FileTable) (vm : VirtualMachine) (id : ℕ)
    → IsDisk d
    → IsDisk (loader_load_file d table vm id).1
unfolding loader_load_file
loader_load_file-IsDisk d table vm id h = elim (Option-cases (find_file table id)) [
  | inl e ↦ rw (e, loader_load_file) h
  | inr (fe, e) ↦ elim (Option-cases (read_disk d fe.start_sector).0) [
    | inl r ↦ rw (e, r, loader_load_file) (read-IsDisk d fe.start_sector h)
    | inr (buf, r) ↦
        rw (e, r, loader_load_file)
          (load_image-IsDisk (read_disk d fe.start_sector).1 vm fe buf
            (read-IsDisk d fe.start_sector h))
  ]
]
