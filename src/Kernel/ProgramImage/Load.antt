-- ===== src/Kernel/ProgramImage/Load.antt =====
-- `loadProgramImage` of src/kernel/loader.c: it ends, and what it leaves.
use rm_vm.Common.{
  ℕ, ◌+◌, ◌-◌, ◌*◌, ◌≤◌, ◌<◌, ◌≡◌, refl, ap, subst, inl, inr, Bool, true, false, ◌&&◌, Option, none,
  some, List, arith, ltb, leb, ◌==◌, if◌then◌else◌, Bool-cases, Option-cases, leb→le, leb→gt,
  length, get_or,
}
use rm_vm.Rm.State.{Machine, memory_size}
use rm_vm.Rm.Disk.{HardDisk, sector_at, read_disk}
use rm_vm.Kernel.Loader.{address_fits}
use rm_vm.Kernel.Loader.Words.{file_word}
use rm_vm.Kernel.Loader.Image.{header_at}
use rm_vm.Kernel.ProgramImage.{LoadResult, image_loop, finish_load, load_words, load_program_image}
use rm_vm.Kernel.ProgramImage.Cells.{Ends, image_loop-Ends, read_disk-some}

-- What the function leaves: it stays within the image and changes the instruction counter alone, and
-- that if it succeeds; then every word of the image is in its cell.
abbrev Result :
    HardDisk → ℕ → ℕ → Machine → Option (Bool × HardDisk × Machine × Option LoadResult) → Type 0
Result d start la m none = ⊥
Result d start la m (some (ok, d', m', out)) =
    (length m'.mem ≡ 512)
    × (m'.cpu ≡ (if ok then record m.cpu { ic = la + (header_at d start).entry_offset } else m.cpu))
    × ((k : ℕ)
        → get_or m'.mem (la + k) 0 ≡ (
            if ok && ltb k (header_at d start).word_count
            then file_word d start k
            else get_or m'.mem (la + k) 0))
    × ((i : ℕ)
        → get_or m'.mem i 0 ≡ (
            if leb la i && ltb i (la + (header_at d start).word_count)
            then get_or m'.mem i 0
            else get_or m.mem i 0))

unchanged :
    (d d' : HardDisk) (start la : ℕ) (m : Machine)
    → length m.mem ≡ 512
    → Result d start la m (some (false, d', m, none))
unchanged d d' start la m l = (l, refl, λ k. refl, λ i. ground arith)

word_in :
    (f : ℕ → ℕ) (g o la k w wc : ℕ)
    → true ≡ (w == wc)
    → g ≡ (if leb la (la + k) && ltb (la + k) (la + w) then f (la + k - la) else o)
    → g ≡ (if ltb k wc then f k else g)
word_in f g o la k w wc e h = ground (arith, e, h, ap f here)
  where
    here : la + k - la ≡ k
    here = omega arith

kept_out :
    (f g o la i w wc : ℕ)
    → w ≤ wc
    → g ≡ (if leb la i && ltb i (la + w) then f else o)
    → g ≡ (if leb la i && ltb i (la + wc) then g else o)
kept_out f g o la i w wc hw h = ground (arith, hw, h)

finish_load-Result :
    (d : HardDisk) (start la : ℕ) (m : Machine) (r : Option (Bool × HardDisk × List ℕ × ℕ × ℕ))
    → la + (header_at d start).word_count * 2 ≤ 255
    → (header_at d start).entry_offset < (header_at d start).word_count
    → Ends d start la (header_at d start).word_count m.mem r
    → Result d start la m (finish_load la (header_at d start) start m r)
unfolding finish_load
finish_load-Result d start la m none h en e = e
finish_load-Result d start la m (some (true, d', mem, w, used)) h en e = (
  e.2.0,
  ap (λ a. record m.cpu { ic = a }) (omega (arith, h, en)),
  λ k.
      word_in (file_word d start) (get_or mem (la + k) 0) (get_or m.mem (la + k) 0) la k w
        (header_at d start).word_count e.0 (e.2.1 (la + k)),
  λ i.
      kept_out (file_word d start (i - la)) (get_or mem i 0) (get_or m.mem i 0) la i w
        (header_at d start).word_count e.1 (e.2.1 i),
)
finish_load-Result d start la m (some (false, d', mem, w, used)) h en e = (
  e.2.0,
  refl,
  λ k. refl,
  λ i.
      kept_out (file_word d start (i - la)) (get_or mem i 0) (get_or m.mem i 0) la i w
        (header_at d start).word_count e.1 (e.2.1 i),
)

load_words-Result :
    (d d' : HardDisk) (start la : ℕ) (m : Machine)
    → length m.mem ≡ 512
    → start < 128
    → d'.storage ≡ d.storage
    → Result d start la m (load_words d' m start la (sector_at d start))
unfolding load_words
load_words-Result d d' start la m l hs hd =
    let hdr = header_at d start in
    elim (Bool-cases (hdr.word_count == 0)) [
      | inl e ↦ rw e (unchanged d d' start la m l)
      | inr e ↦ elim (Bool-cases (address_fits la hdr.word_count)) [
        | inr f ↦ rw (e, f) (unchanged d d' start la m l)
        | inl f ↦ elim (Bool-cases (leb hdr.word_count hdr.entry_offset)) [
          | inl g ↦ rw (e, f, g) (unchanged d d' start la m l)
          | inr g ↦
              let fits : la + hdr.word_count * 2 ≤ 255 = leb→le (la + hdr.word_count * 2) 255 f in
              rw (e, f, g)
                (finish_load-Result d start la m
                  (image_loop 17 d' la hdr.word_count start (sector_at d start) 3 m.mem 0 0) fits
                  (leb→gt hdr.word_count hdr.entry_offset g)
                  (image_loop-Ends d start la hdr.word_count m.mem 17 d' 0 start (sector_at d start)
                    3 m.mem 0 0 (omega (arith, fits)) (omega arith) (omega arith)
                    (omega (arith, fits)) refl (omega arith) hd (omega arith) hs
                    (ap (sector_at d) (omega arith)) (l, λ i. ground arith)))
        ]
      ]
    ]

load_program_image-Result :
    (d : HardDisk) (m : Machine) (start la : ℕ)
    → length m.mem ≡ 512
    → Result d start la m (load_program_image d m start la)
unfolding load_program_image
load_program_image-Result d m start la l = elim (Bool-cases (address_fits la 1)) [
  | inr f ↦ rw f (unchanged d d start la m l)
  | inl f ↦ elim (Option-cases (read_disk d start).0) [
    | inl r ↦ rw (f, r) (unchanged d (read_disk d start).1 start la m l)
    | inr (buf, r) ↦
        let n = read_disk-some d start buf r in
        rw (f, r)
          (subst (λ b. Result d start la m (load_words (read_disk d start).1 m start la b)) n.1
            (load_words-Result d (read_disk d start).1 start la m l n.0 n.2))
  ]
]

-- On any disk, for any sector and address, `loadProgramImage` ends and stays within the memory. If it
-- succeeds, cell `load + k` holds word `k` of the image, for each of its words, and the instruction
-- counter is at the entry; if it fails, the processor is as it was. Either way no cell outside the image
-- changes, and no other part of the processor.
pub load_program_image_total :
    (d : HardDisk) (m : Machine) (start la k i : ℕ)
    → length m.mem ≡ memory_size
    → let hdr = header_at d start in
      (ok : Bool) × (d' : HardDisk) × (m' : Machine) × (out : Option LoadResult)
      × (load_program_image d m start la ≡ some (ok, d', m', out))
      × (m'.cpu ≡ (if ok then record m.cpu { ic = la + hdr.entry_offset } else m.cpu))
      × (get_or m'.mem (la + k) 0
          ≡ (if ok && ltb k hdr.word_count then file_word d start k else get_or m'.mem (la + k) 0))
      × (get_or m'.mem i 0 ≡ (
          if leb la i && ltb i (la + hdr.word_count) then get_or m'.mem i 0 else get_or m.mem i 0))
load_program_image_total d m start la k i l =
    elim (Option-cases (load_program_image d m start la)) [
      | inl e ↦ absurd (subst (Result d start la m) e (load_program_image-Result d m start la l))
      | inr ((ok, d', m', out), e) ↦
          let r = subst (Result d start la m) e (load_program_image-Result d m start la l) in
          (ok, d', m', out, e, r.1, r.2 k, r.3 i)
    ]
