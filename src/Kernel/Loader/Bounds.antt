-- ===== src/Kernel/Loader/Bounds.antt =====
-- src/kernel/loader.c and vm.c: what `loaderLoadFile` and `createVM` leave is a machine that runs.
use rm_vm.Common.{
  ℕ, zero, suc, ◌+◌, ◌-◌, ◌*◌, ◌/◌, ◌≡◌, refl, sym, ◌∙◌, ◌≢◌, subst, inl, inr, not, ◌||◌, Option,
  none, some, List, arith, ltb, leb, ◌==◌, Bool-cases, Option-cases, length, set, length-set,
  length-replicate, All, All-set, All-replicate, u8, u16, IsByte, IsWord, ltb→lt, get_or-set_ne,
  get_or, true, false, ◌⊎◌, ◌<◌, ◌≤◌, replicate, if◌then◌else◌, ap,
}
use rm_vm.Rm.State.{reg_count}
use rm_vm.Rm.Disk.{HardDisk, read_disk}
use rm_vm.Vm.State.{VirtualMachine, IsValid, create_vm, create_vm-IsValid, vm_memory_size}
use rm_vm.Vm.Cpu.{Status, run_operations}
use rm_vm.Vm.Cpu.Round.{Returned}
use rm_vm.Vm.Cpu.Run.{run_operations_total}
use rm_vm.Kernel.Files.{FileEntry, FileTable, find_file}
use rm_vm.Kernel.Loader.{
  address_fits, ProgramHeader, header_of, put_word, copy_words, load_loop, start_vm, load_image,
  loader_load_file, read_le16, create_vm_for,
}

-- The memory of a virtual machine.
abbrev Bytes : List ℕ → Type 0
Bytes mem = (length mem ≡ vm_memory_size) × All IsByte mem

set-Bytes :
    (mem : List ℕ) (a x : ℕ) → Bytes mem → Bytes (set (set mem a (u8 (x / 256))) (a + 1) (u8 x))
set-Bytes mem a x v = (
  length-set (set mem a (u8 (x / 256))) (a + 1) (u8 x) ∙ length-set mem a (u8 (x / 256)) ∙ v.0,
  All-set IsByte (set mem a (u8 (x / 256))) (a + 1) (u8 x)
      (All-set IsByte mem a (u8 (x / 256)) v.1 (omega arith)) (omega arith),
)

put_word-Bytes :
    (hdr : ProgramHeader) (mem : List ℕ) (w x : ℕ) → Bytes mem → Bytes (put_word hdr mem w x)
put_word-Bytes hdr mem w x v = elim (Bool-cases (ltb (hdr.load_address + w * 2 + 1) 255)) [
  | inl e ↦ rw e (set-Bytes mem (hdr.load_address + w * 2) x v)
  | inr e ↦ rw e v
]

-- What `put_word` keeps for the words of the image, the two loops of `loaderLoadFile` keep.
module _ {ℓ} (P : List ℕ → Type ℓ) (hdr : ProgramHeader)
    (step : (mem : List ℕ) (w x : ℕ) → w < hdr.word_count → P mem → P (put_word hdr mem w x)) where
  copy_words-keeps :
      (n : ℕ) (buf mem : List ℕ) (b w : ℕ) → P mem → P (copy_words n hdr buf mem b w).0
  unfolding copy_words
  copy_words-keeps zero buf mem b w v = v
  copy_words-keeps (suc n) buf mem b w v = elim (Bool-cases (ltb w hdr.word_count)) [
    | inl e ↦ rw e (
        copy_words-keeps n buf (put_word hdr mem w (read_le16 buf b)) (b + 2) (w + 1)
          (step mem w (read_le16 buf b) (ltb→lt w hdr.word_count e) v))
    | inr e ↦ rw e v
  ]

  load_loop-keeps :
      (n : ℕ) (d : HardDisk) (s : ℕ) (buf : List ℕ) (b : ℕ) (mem : List ℕ) (w : ℕ)
      → P mem
      → P (load_loop n d hdr s buf b mem w).1
  unfolding load_loop
  load_loop-keeps zero d s buf b mem w v = v
  load_loop-keeps (suc n) d s buf b mem w v = elim (Bool-cases (ltb w hdr.word_count)) [
    | inl e ↦ elim (Bool-cases (leb hdr.word_count (copy_words ((16 - b) / 2) hdr buf mem b w).1)) [
      | inl k ↦ rw (e, k) copied
      | inr k ↦ elim (Option-cases (read_disk d (u16 (s + 1))).0) [
        | inl r ↦ rw (e, k, r) copied
        | inr (buf', r) ↦
            rw (e, k, r)
              (load_loop-keeps n (read_disk d (u16 (s + 1))).1 (u16 (s + 1)) buf' 0
                (copy_words ((16 - b) / 2) hdr buf mem b w).0
                (copy_words ((16 - b) / 2) hdr buf mem b w).1 copied)
      ]
    ]
    | inr e ↦ rw e v
  ]
    where
      copied : P (copy_words ((16 - b) / 2) hdr buf mem b w).0
      copied = copy_words-keeps ((16 - b) / 2) buf mem b w v

-- The cells outside the image are as before.
abbrev Outside : ProgramHeader → List ℕ → List ℕ → Type 0
Outside hdr old mem =
    (i : ℕ)
    → (i < hdr.load_address) ⊎ (hdr.load_address + hdr.word_count * 2 ≤ i)
    → get_or mem i 0 ≡ get_or old i 0

put_word-Outside :
    (hdr : ProgramHeader) (old mem : List ℕ) (w x : ℕ)
    → w < hdr.word_count
    → Outside hdr old mem
    → Outside hdr old (put_word hdr mem w x)
put_word-Outside hdr old mem w x h v =
    let a = hdr.load_address + w * 2 in
    elim (Bool-cases (ltb (a + 1) 255)) [
      | inl e ↦ λ i out.
          ap (λ b. get_or (if b then set (set mem a (u8 (x / 256))) (a + 1) (u8 x) else mem) i 0) e
          ∙ get_or-set_ne (set mem a (u8 (x / 256))) (a + 1) i (u8 x) 0 (λ q. omega (arith, out, q))
          ∙ get_or-set_ne mem a i (u8 (x / 256)) 0 (λ q. omega (arith, out, q))
          ∙ v i out
      | inr e ↦ λ i out.
          ap (λ b. get_or (if b then set (set mem a (u8 (x / 256))) (a + 1) (u8 x) else mem) i 0) e
          ∙ v i out
    ]

start_vm-IsValid :
    (hdr : ProgramHeader) (vm : VirtualMachine) (mem : List ℕ)
    → Bytes mem
    → IsValid (start_vm hdr vm mem)
start_vm-IsValid hdr vm mem v = record {
  regs = length-replicate 8 0;
  words = All-replicate IsWord 8 0 (omega arith);
  pc_word = omega arith;
  cells = v.0;
  bytes = v.1;
}

load_image-IsValid :
    (d : HardDisk) {vm : VirtualMachine} (fe : FileEntry) (buf : List ℕ)
    → IsValid vm
    → IsValid (load_image d vm fe buf).2
unfolding load_image
load_image-IsValid d {vm} fe buf v =
    elim (Bool-cases (hdr.word_count == 0 || not (address_fits hdr.load_address hdr.word_count))) [
      | inl e ↦ rw e v
      | inr e ↦ elim (Bool-cases (leb hdr.word_count hdr.entry_offset)) [
        | inl f ↦ rw (e, f) v
        | inr f ↦ elim (Bool-cases (loaded.2 == hdr.word_count)) [
          | inl g ↦ rw (e, f, g) (start_vm-IsValid hdr vm loaded.1 bytes)
          | inr g ↦
              rw (e, f, g)
                (record {
                  regs = v.regs;
                  words = v.words;
                  pc_word = v.pc_word;
                  cells = bytes.0;
                  bytes = bytes.1;
                })
        ]
      ]
    ]
  where
    hdr : ProgramHeader
    hdr = header_of buf

    loaded : HardDisk × List ℕ × ℕ
    loaded = load_loop fe.sector_count d hdr fe.start_sector buf 6 vm.memory 0

    bytes : Bytes loaded.1
    bytes =
        load_loop-keeps Bytes hdr (λ mem w x h. put_word-Bytes hdr mem w x) fe.sector_count d
          fe.start_sector buf 6 vm.memory 0 (v.cells, v.bytes)

-- `loaderLoadFile` keeps the machine valid whatever the disk and the table hold, and whether or not it
-- succeeds.
pub loader_load_file-IsValid :
    (d : HardDisk) (table : FileTable) {vm : VirtualMachine} (id : ℕ)
    → IsValid vm
    → IsValid (loader_load_file d table vm id).2
unfolding loader_load_file
loader_load_file-IsValid d table {vm} id v = elim (Option-cases (find_file table id)) [
  | inl e ↦ rw (e, loader_load_file) v
  | inr (fe, e) ↦ elim (Option-cases (read_disk d fe.start_sector).0) [
    | inl r ↦ rw (e, r, loader_load_file) v
    | inr (buf, r) ↦
        rw (e, r, loader_load_file) (load_image-IsValid (read_disk d fe.start_sector).1 fe buf v)
  ]
]

-- No machine, or a valid one.
abbrev Valid : Option VirtualMachine → Type 0
Valid none = Unit
Valid (some vm) = IsValid vm

create_vm_for-Valid :
    (d : HardDisk) (table : FileTable) (id : ℕ) → Valid (create_vm_for d table id).0
unfolding create_vm_for
create_vm_for-Valid d table id = elim (Bool-cases (id == 0)) [
  | inl e ↦ rw e create_vm-IsValid
  | inr e ↦ elim (Bool-cases (loader_load_file d table create_vm id).0) [
    | inl k ↦ rw (e, k) (loader_load_file-IsValid d table id create_vm-IsValid)
    | inr k ↦ rw (e, k) tt
  ]
]

-- A machine that `loaderLoadFile` has made of `vm`, where `hdr` is the header: it has a word, all words are
-- in the memory and the entry is one of them. It starts there, with registers of 0, and no other cell of
-- the memory was written.
pub record Started (hdr : ProgramHeader) (vm vm' : VirtualMachine) : Type 0 where
  pub some_words : 0 < hdr.word_count
  pub fits : hdr.load_address + hdr.word_count * 2 ≤ vm_memory_size
  pub entry : hdr.entry_offset < hdr.word_count
  pub starts : vm'.vm_cpu.pc ≡ hdr.load_address + hdr.entry_offset * 2
  pub regs : vm'.vm_cpu.r ≡ replicate reg_count 0
  pub rest : Outside hdr vm.memory vm'.memory

load_image-Started :
    (d : HardDisk) (vm : VirtualMachine) (fe : FileEntry) (buf : List ℕ)
    → (load_image d vm fe buf).0 ≡ true
    → Started (header_of buf) vm (load_image d vm fe buf).2
unfolding load_image
load_image-Started d vm fe buf ok =
    elim (Bool-cases (hdr.word_count == 0 || not (address_fits hdr.load_address hdr.word_count))) [
      | inl e ↦ absurd (cc (ok, e))
      | inr e ↦ elim (Bool-cases (leb hdr.word_count hdr.entry_offset)) [
        | inl f ↦ absurd (cc (ok, e, f))
        | inr f ↦ elim (Bool-cases (loaded.2 == hdr.word_count)) [
          | inl g ↦
              rw (e, f, g)
                (record {
                  some_words = ground (arith, e);
                  fits = ground (arith, e);
                  entry = ground (arith, f);
                  starts = ground (arith, e, f);
                  regs = refl;
                  rest = outside;
                })
          | inr g ↦ absurd (cc (ok, e, f, g))
        ]
      ]
    ]
  where
    hdr : ProgramHeader
    hdr = header_of buf

    loaded : HardDisk × List ℕ × ℕ
    loaded = load_loop fe.sector_count d hdr fe.start_sector buf 6 vm.memory 0

    outside : Outside hdr vm.memory loaded.1
    outside =
        load_loop-keeps (Outside hdr vm.memory) hdr (put_word-Outside hdr vm.memory) fe.sector_count
          d fe.start_sector buf 6 vm.memory 0 (λ i out. refl)

-- The file and the header in its first sector that a machine was made from.
abbrev pub MadeFrom : HardDisk → FileTable → ℕ → VirtualMachine → VirtualMachine → Type 0
MadeFrom d table id vm vm' =
    (fe : FileEntry) × (buf : List ℕ) × (find_file table id ≡ some fe)
    × ((read_disk d fe.start_sector).0 ≡ some buf)
    × Started (header_of buf) vm vm'

loader_load_file-MadeFrom :
    (d : HardDisk) (table : FileTable) (vm : VirtualMachine) (id : ℕ)
    → (loader_load_file d table vm id).0 ≡ true
    → MadeFrom d table id vm (loader_load_file d table vm id).2
unfolding loader_load_file
loader_load_file-MadeFrom d table vm id ok = elim (Option-cases (find_file table id)) [
  | inl e ↦ absurd (cc (ok, e))
  | inr (fe, e) ↦ elim (Option-cases (read_disk d fe.start_sector).0) [
    | inl r ↦ absurd (cc (ok, e, r))
    | inr (buf, r) ↦
        let d' = (read_disk d fe.start_sector).1 in
        let same : loader_load_file d table vm id ≡ load_image d' vm fe buf =
          rw (e, r, loader_load_file) refl in
        (
          fe,
          buf,
          e,
          r,
          subst (λ x. Started (header_of buf) vm x.2) (sym same)
              (load_image-Started d' vm fe buf (ap (λ x. x.0) (sym same) ∙ ok)),
        )
  ]
]

create_vm_for-MadeFrom :
    (d : HardDisk) (table : FileTable) (id : ℕ) {vm : VirtualMachine}
    → id ≢ 0
    → (create_vm_for d table id).0 ≡ some vm
    → MadeFrom d table id create_vm vm
unfolding create_vm_for
create_vm_for-MadeFrom d table id {vm} other e =
    elim (Bool-cases (loader_load_file d table create_vm id).0) [
      | inl k ↦
          let same : (loader_load_file d table create_vm id).2 ≡ vm = cc (e, off, k) in
          subst (MadeFrom d table id create_vm) same
            (loader_load_file-MadeFrom d table create_vm id k)
      | inr k ↦ absurd (cc (e, off, k))
    ]
  where
    off : id == 0 ≡ false
    off = ground (arith, other)

-- Whatever the disk and the file table hold, and where `createVM` returns a machine for a file id other
-- than 0: the file is in the table and the header in its first sector names at least one word, the words
-- lie in the memory from the load address on and the entry is one of them. The machine starts at the
-- entry, with registers of 0; no cell outside the words differs from a fresh machine; and `runOperations`
-- returns on it, with the results that it promises.
pub create_vm_for-runs :
    (d : HardDisk) (table : FileTable) (id : ℕ) {vm : VirtualMachine}
    → id ≢ 0
    → (create_vm_for d table id).0 ≡ some vm
    → MadeFrom d table id create_vm vm
      × ((s : Status) × (vm' : VirtualMachine) × (run_operations vm ≡ some (s, vm'))
          × Returned vm s vm')
create_vm_for-runs d table id {vm} other e =
    (create_vm_for-MadeFrom d table id other e, run_operations_total valid)
  where
    valid : IsValid vm
    valid = subst Valid e (create_vm_for-Valid d table id)
