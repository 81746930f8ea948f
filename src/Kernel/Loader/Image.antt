-- ===== src/Kernel/Loader/Image.antt =====
-- src/kernel/loader.c and vm_cpu.c: the words that the Virtual Machine fetches from a loaded file.
use rm_vm.Common.{
  ℕ, zero, suc, ◌+◌, ◌-◌, ◌*◌, ◌/◌, ◌%◌, ◌≤◌, ◌<◌, min, ◌≡◌, refl, sym, ap, ◌∙◌, subst, ◌⊎◌, inl,
  inr, true, false, ◌&&◌, some, List, arith, dec_lt, ltb, leb, if◌then◌else◌, length, get_or,
  replicate, u16,
}
use rm_vm.Rm.State.{reg_count}
use rm_vm.Rm.Disk.RoundTrip.{after_read, read_disk_idle}
use rm_vm.Rm.Disk.{HardDisk, sector_at, read_disk}
use rm_vm.Vm.State.{VirtualMachine, vm_memory_size}
use rm_vm.Vm.Cpu.{fetch_word}
use rm_vm.Kernel.Files.{FileEntry, FileTable, find_file}
use rm_vm.Kernel.Loader.Words.{file_word, Loaded, copy_words_lem}
use rm_vm.Kernel.Loader.{
  ProgramHeader, header_of, copy_words, load_loop, start_vm, load_image, loader_load_file,
}

module _ (d : HardDisk) (hdr : ProgramHeader) (sector b : ℕ) (buf mem : List ℕ) (w c : ℕ)
    (mem' : List ℕ) (n : ℕ) (hw : w < hdr.word_count)
    (copied : copy_words ((16 - b) / 2) hdr buf mem b w ≡ (mem', c)) where
  load_loop-last : hdr.word_count ≤ c → load_loop (suc n) d hdr sector buf b mem w ≡ (d, mem', c)
  unfolding load_loop
  load_loop-last h = ground (arith, copied, h)

  load_loop-next :
      (next : List ℕ)
      → c < hdr.word_count
      → read_disk d (u16 (sector + 1)) ≡ (some next, after_read d)
      → load_loop (suc n) d hdr sector buf b mem w
        ≡ load_loop n (after_read d) hdr (u16 (sector + 1)) next 0 mem' c
  unfolding load_loop
  load_loop-next next h e = ground (arith, copied, h, e)

load_loop_lem :
    (start : ℕ) (hdr : ProgramHeader) (old : List ℕ) (n q b w : ℕ) (d : HardDisk) (mem : List ℕ)
    → hdr.load_address + hdr.word_count * 2 ≤ 255
    → b + 2 * ((16 - b) / 2) ≡ 16
    → w < hdr.word_count
    → 6 + 2 * w ≡ 16 * q + b
    → 6 + 2 * hdr.word_count ≤ 16 * (q + n)
    → start + q + n ≤ 128
    → d.busy ≡ false
    → Loaded d start hdr w old mem
    → (d' : HardDisk) × (mem' : List ℕ) × (load_loop n d hdr
          (start + q)
          (sector_at d (start + q))
          b
          mem
          w
        ≡ (d', mem', hdr.word_count))
      × Loaded d start hdr hdr.word_count old mem'
load_loop_lem start hdr old zero q b w d mem fits hb hw e room on idle ld =
    absurd (omega (arith, room, e, hw))
load_loop_lem start hdr old (suc n) q b w d mem fits hb hw e room on idle ld =
    let c = min (w + (16 - b) / 2) hdr.word_count in
    let (mem', eq, ld') =
      copy_words_lem d start q hdr old ((16 - b) / 2) b w c mem fits hb (omega (arith, hw)) e refl
        ld in
    elim (dec_lt c hdr.word_count) [
      | yes l ↦
          let here : u16 (start + q + 1) ≡ start + (q + 1) = omega (arith, on) in
          let there = sector_at d (start + (q + 1)) in
          let (d', out, eq', ld'') =
            load_loop_lem start hdr old n (q + 1) 0 c (after_read d) mem' fits refl l
              (omega (arith, hb, e, l)) (omega (arith, room)) (omega (arith, on)) refl ld' in
          (
            d',
            out,
            load_loop-next d hdr (start + q) b (sector_at d (start + q)) mem w c mem' n hw eq there
                  l
                  (ap (read_disk d) here
                    ∙ read_disk_idle d (start + (q + 1)) idle (omega (arith, on, room, hb, e, l)))
                ∙ ap (λ s. load_loop n (after_read d) hdr s there 0 mem' c) here
                ∙ eq',
            ld'',
          )
      | no g ↦
          let all : c ≡ hdr.word_count = omega (arith, g) in
          (
            d,
            mem',
            load_loop-last d hdr (start + q) b (sector_at d (start + q)) mem w c mem' n hw eq
                  (omega (arith, g))
                ∙ ap (λ c. (d, mem', c)) all,
            subst (λ c. Loaded d start hdr c old mem') all ld',
          )
    ]

-- The header in a sector.
abbrev pub header_at : HardDisk → ℕ → ProgramHeader
header_at d start = header_of (sector_at d start)

-- A whole image: the disk is idle and has the sectors of the file, the number of words is not zero and
-- they fit the file and, from the load address on, the memory, and the entry is one of them.
pub record IsImage (d : HardDisk) (fe : FileEntry) : Type 0 where
  pub idle : d.busy ≡ false
  pub on_disk : fe.start_sector + fe.sector_count ≤ 128
  pub some_words : 0 < (header_at d fe.start_sector).word_count
  pub fits :
      (header_at d fe.start_sector).load_address + (header_at d fe.start_sector).word_count * 2
      ≤ 255
  pub in_file : 6 + 2 * (header_at d fe.start_sector).word_count ≤ 16 * fe.sector_count
  pub entry : (header_at d fe.start_sector).entry_offset < (header_at d fe.start_sector).word_count

module _ {d : HardDisk} {fe : FileEntry} (v : IsImage d fe) (vm : VirtualMachine) where
  loaded :
      length vm.memory ≡ 255
      → let hdr = header_at d fe.start_sector in
        (d' : HardDisk) × (mem : List ℕ) × (load_loop fe.sector_count
            (after_read d)
            hdr
            fe.start_sector
            (sector_at d fe.start_sector)
            6
            vm.memory
            0
          ≡ (d', mem, hdr.word_count))
        × Loaded d fe.start_sector hdr hdr.word_count vm.memory mem
  loaded l =
      let hdr = header_at d fe.start_sector in
      let (d', mem, eq, ld) =
        load_loop_lem fe.start_sector hdr vm.memory fe.sector_count 0 6 0 (after_read d) vm.memory
          v.fits refl v.some_words refl (omega (arith, v.in_file)) (omega (arith, v.on_disk)) refl
          (l, λ k p. absurd (omega arith), λ k p. absurd (omega arith), λ i p. refl) in
      let s : fe.start_sector + 0 ≡ fe.start_sector = omega arith in
      (
        d',
        mem,
        sym (
              ap (λ s. load_loop fe.sector_count (after_read d) hdr s (sector_at d s) 6 vm.memory 0)
                s)
            ∙ eq,
        ld,
      )

  load_image_ok :
      (d' : HardDisk) (mem : List ℕ)
      → load_loop fe.sector_count
          (after_read d)
          (header_at d fe.start_sector)
          fe.start_sector
          (sector_at d fe.start_sector)
          6
          vm.memory
          0
        ≡ (d', mem, (header_at d fe.start_sector).word_count)
      → load_image (after_read d) vm fe (sector_at d fe.start_sector)
        ≡ (true, d', start_vm (header_at d fe.start_sector) vm mem)
  unfolding load_image
  load_image_ok d' mem e = ground (arith, e, v.some_words, v.fits, v.entry)

  loader_load_file_ok :
      (table : FileTable) (id : ℕ)
      → find_file table id ≡ some fe
      → loader_load_file d table vm id
        ≡ load_image (after_read d) vm fe (sector_at d fe.start_sector)
  unfolding loader_load_file
  loader_load_file_ok table id e = ground (
    arith,
    e,
    read_disk_idle d fe.start_sector v.idle (omega (arith, v.on_disk, v.in_file, v.some_words)),
  )

fetch_loaded :
    (vm : VirtualMachine) (a x : ℕ)
    → x < 65536
    → get_or vm.memory a 0 ≡ x / 256
    → get_or vm.memory (a + 1) 0 ≡ x % 256
    → fetch_word vm a ≡ x
unfolding fetch_word
fetch_loaded vm a x h p q = omega (arith, p, q)

kept :
    (x y a n i : ℕ)
    → ((i < a) ⊎ (a + n ≤ i) → x ≡ y)
    → x ≡ (if leb a i && ltb i (a + n) then x else y)
kept x y a n i h = elim (dec_lt i a) [
  | yes l ↦ ground (arith, h (inl l))
  | no g ↦ elim (dec_lt i (a + n)) [
    | yes l ↦ ground (arith, g)
    | no k ↦ ground (arith, h (inr (omega (arith, k))))
  ]
]

-- A whole image under a number that the table names is loaded: the Virtual Machine then fetches word `k`
-- of the image at the load address plus `2 k`, the bytes outside the image are kept, the registers are
-- zero, and the program counter is at the entry.
pub loader_load_file_lem :
    {d : HardDisk} (table : FileTable) (vm : VirtualMachine) (id : ℕ) {fe : FileEntry} (k i : ℕ)
    → find_file table id ≡ some fe
    → IsImage d fe
    → length vm.memory ≡ vm_memory_size
    → k < (header_at d fe.start_sector).word_count
    → let hdr = header_at d fe.start_sector in
      (d' : HardDisk) × (vm' : VirtualMachine) × (loader_load_file d table vm id ≡ (true, d', vm'))
      × (fetch_word vm' (hdr.load_address + 2 * k) ≡ file_word d fe.start_sector k)
      × (get_or vm'.memory i 0 ≡ (
          if leb hdr.load_address i && ltb i (hdr.load_address + 2 * hdr.word_count)
          then get_or vm'.memory i 0
          else get_or vm.memory i 0))
      × (vm'.vm_cpu.pc ≡ hdr.load_address + 2 * hdr.entry_offset)
      × (vm'.vm_cpu.r ≡ replicate reg_count 0)
loader_load_file_lem {d} table vm id {fe} k i hf v l hk =
    let hdr = header_at d fe.start_sector in
    let (d', mem, eq, ld) = loaded v vm l in
    (
      d',
      start_vm hdr vm mem,
      loader_load_file_ok v vm table id hf ∙ load_image_ok v vm d' mem eq,
      fetch_loaded (start_vm hdr vm mem) (hdr.load_address + 2 * k) (file_word d fe.start_sector k)
          (omega arith) (ld.1 k hk) (ld.2 k hk),
      kept (get_or mem i 0) (get_or vm.memory i 0) hdr.load_address (2 * hdr.word_count) i (ld.3 i),
      omega (arith, v.fits, v.entry),
      refl,
    )
