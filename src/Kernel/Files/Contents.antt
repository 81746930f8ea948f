-- ===== src/Kernel/Files/Contents.antt =====
-- src/kernel/loader.c: the bytes that `readFileToBuffer` copies.
use rm_vm.Common.{
  ℕ, zero, suc, ◌+◌, ◌-◌, ◌*◌, ◌/◌, ◌%◌, ◌≤◌, ◌<◌, min, ◌≡◌, refl, ap, ◌∙◌, subst, ◌⊎◌, inl, inr,
  true, false, some, List, arith, dec_lt, ltb, if◌then◌else◌, length, get_or, memcpy, length-memcpy,
  get_or-memcpy_out, get_or-memcpy_in,
}
use rm_vm.Rm.Disk.RoundTrip.{after_read, read_disk_idle}
use rm_vm.Rm.Disk.{HardDisk, sector_at}
use rm_vm.Kernel.Files.{FileEntry, FileTable, find_file, read_loop, read_file_to_buffer}

-- Byte `k` of the sectors from `start` on.
abbrev pub file_byte : HardDisk → ℕ → ℕ → ℕ
file_byte d start k = get_or (sector_at d (start + k / 16)) (k % 16) 0

-- The first `c` bytes of the buffer are those of the file, and the others are the old ones.
abbrev pub Copied : HardDisk → ℕ → ℕ → List ℕ → List ℕ → Type 0
Copied d start c old new =
    (length new ≡ length old)
    × ((i : ℕ) → get_or new i 0 ≡ (if ltb i c then file_byte d start i else get_or old i 0))

-- `toCopy`
abbrev piece : ℕ → ℕ
piece room = if ltb room 16 then room else 16

-- One sector more.
module _ (d : HardDisk) (start s max : ℕ) (old new : List ℕ) (hm : max ≤ length old)
    (h : 16 * s < max) where
  next : List ℕ
  next = memcpy (piece (max - 16 * s)) new (16 * s) (sector_at d (start + s)) 0 0

  next-Copied :
      Copied d start (16 * s) old new → Copied d start (16 * s + piece (max - 16 * s)) old next
  unfolding next
  next-Copied (l, c) = (
    length-memcpy (piece (max - 16 * s)) new (16 * s) (sector_at d (start + s)) 0 0 ∙ l,
    λ i. elim (dec_lt i (16 * s)) [
      | yes b ↦
          get_or-memcpy_out (piece (max - 16 * s)) new (16 * s) (sector_at d (start + s)) 0 0 i
            (inl b)
          ∙ c i
          ∙ ground (arith, b)
      | no g ↦ elim (dec_lt i (16 * s + piece (max - 16 * s))) [
        | yes b ↦ ground (
          arith,
          g,
          b,
          get_or-memcpy_in (piece (max - 16 * s)) new (16 * s) (sector_at d (start + s)) 0 0
              (i - 16 * s) (ground (arith, g, b)) (ground (arith, l)),
        )
        | no k ↦
            get_or-memcpy_out (piece (max - 16 * s)) new (16 * s) (sector_at d (start + s)) 0 0 i
              (inr (ground (arith, k)))
            ∙ c i
            ∙ ground (arith, k, g)
      ]
    ],
  )

read_loop-next :
    (d : HardDisk) (fe : FileEntry) (n s max : ℕ) (old new : List ℕ)
    → (hb : d.busy ≡ false) → fe.start_sector + s < 128
    → (hm : max ≤ length old) → (h : 16 * s < max)
    → read_loop (suc n) d fe s new max (16 * s)
      ≡ read_loop n
          (after_read d)
          fe
          (s + 1)
          (next d fe.start_sector s max old new hm h)
          max
          (16 * s + piece (max - 16 * s))
unfolding read_loop next
read_loop-next d fe n s max old new hb hs hm h =
    ground (arith, read_disk_idle d (fe.start_sector + s) hb hs)

pub read_loop-done :
    (d : HardDisk) (fe : FileEntry) (n s max c k : ℕ) (new : List ℕ)
    → (n ≡ 0) ⊎ (max ≤ c)
    → c ≡ k
    → read_loop n d fe s new max c ≡ (true, d, new, k)
unfolding read_loop
read_loop-done d fe zero s max c k new h e = ap (λ k. (true, d, new, k)) e
read_loop-done d fe (suc n) s max c k new h e = ground (arith, h, e)

pub read_loop_lem :
    (fe : FileEntry) (max : ℕ) (old : List ℕ) (n s c : ℕ) (d : HardDisk) (new : List ℕ)
    → d.busy ≡ false
    → fe.start_sector + (s + n) ≤ 128
    → max ≤ length old
    → c ≡ min (16 * s) max
    → Copied d fe.start_sector c old new
    → (d' : HardDisk) × (new' : List ℕ) × (read_loop n d fe s new max c
        ≡ (true, d', new', min (16 * (s + n)) max))
      × Copied d fe.start_sector (min (16 * (s + n)) max) old new'
read_loop_lem fe max old zero s c d new hb hs hm e cp =
    let e' : c ≡ min (16 * (s + 0)) max = omega (arith, e) in
    (
      d,
      new,
      read_loop-done d fe 0 s max c (min (16 * (s + 0)) max) new (inl refl) e',
      subst (λ k. Copied d fe.start_sector k old new) e' cp,
    )
read_loop_lem fe max old (suc n) s c d new hb hs hm e cp = elim (dec_lt (16 * s) max) [
  | yes l ↦
      let e' : c ≡ 16 * s = omega (arith, e) in
      let cp' = subst (λ k. Copied d fe.start_sector k old new) e' cp in
      let (d', new', eq, cp'') =
        read_loop_lem fe max old n (s + 1) (16 * s + piece (max - 16 * s)) (after_read d)
          (next d fe.start_sector s max old new hm l) refl (omega arith) hm (ground arith)
          (next-Copied d fe.start_sector s max old new hm l cp') in
      let k : min (16 * (s + 1 + n)) max ≡ min (16 * (s + suc n)) max = omega arith in
      (
        d',
        new',
        ap (read_loop (suc n) d fe s new max) e'
            ∙ read_loop-next d fe n s max old new hb (omega arith) hm l
            ∙ eq
            ∙ ap (λ k. (true, d', new', k)) k,
        subst (λ k. Copied d fe.start_sector k old new') k cp'',
      )
  | no g ↦
      let e' : c ≡ min (16 * (s + suc n)) max = omega (arith, e, g) in
      (
        d,
        new,
        read_loop-done d fe (suc n) s max c (min (16 * (s + suc n)) max) new
            (inr (omega (arith, e, g))) e',
        subst (λ k. Copied d fe.start_sector k old new) e' cp,
      )
]

-- On an idle disk that has the sectors of the file, with a buffer of at least `max_bytes > 0` bytes, the
-- read succeeds and reports the length of the file in whole sectors, cut at `max_bytes`. The buffer then
-- starts with that many bytes of the file, in order, and keeps its own bytes behind them.
pub read_file_to_buffer_lem :
    (d : HardDisk) (table : FileTable) (id : ℕ) (fe : FileEntry) (dst : List ℕ) (max i : ℕ)
    → find_file table id ≡ some fe
    → d.busy ≡ false
    → fe.start_sector + fe.sector_count ≤ 128
    → 0 < max
    → max ≤ length dst
    → let copied = min (16 * fe.sector_count) max in
      (d' : HardDisk) × (dst' : List ℕ) × (read_file_to_buffer d table id dst max
        ≡ (true, d', dst', some copied))
      × (length dst' ≡ length dst)
      × (get_or dst' i 0 ≡ (if ltb i copied then file_byte d fe.start_sector i else get_or dst i 0))
unfolding read_file_to_buffer
read_file_to_buffer_lem d table id fe dst max i hf hb hs h hm =
    let (d', dst', eq, cp) =
      read_loop_lem fe max dst fe.sector_count 0 0 d dst hb (omega arith) hm (omega arith)
        (refl, λ i. ground arith) in
    (d', dst', ground (arith, hf, eq), cp.0, ground (arith, cp.1 i))
