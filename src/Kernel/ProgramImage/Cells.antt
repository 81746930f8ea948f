-- ===== src/Kernel/ProgramImage/Cells.antt =====
-- `loadProgramImage` of src/kernel/loader.c: it ends, and what it leaves in the memory.
use rm_vm.Common.{
  ℕ, zero, suc, ◌+◌, ◌-◌, ◌*◌, ◌≤◌, ◌<◌, min, ◌≡◌, refl, sym, ap, ap₂, ◌∙◌, subst, inl, inr, Bool,
  ◌&&◌, ◌||◌, Option, none, some, List, arith, dec_lt, ℕ_discrete, ltb, leb, ◌==◌, if◌then◌else◌,
  Bool-cases, Option-cases, leb→gt, length, get_or, set, replicate, length-set, get_or-set_self,
  get_or-set_ne, u16,
}
use rm_vm.Rm.Memory.{write_raw}
use rm_vm.Rm.Disk.{sector_at, HardDisk, read_disk}
use rm_vm.Kernel.Loader.Words.{file_word, file_word_at}
use rm_vm.Kernel.Loader.{read_le16}
use rm_vm.Kernel.ProgramImage.{sector_words, image_loop}

-- Word `k` of a sector.
word : List ℕ → ℕ → ℕ
word buf k = read_le16 buf (k * 2)

-- Words of a sector, from `index` on, at the cells from `a` to before `z`; the others are kept.
abbrev Copied : List ℕ → ℕ → ℕ → ℕ → List ℕ → List ℕ → Type 0
Copied buf index a z old new =
    (length new ≡ length old)
    × ((i : ℕ)
        → get_or new i 0
          ≡ (if leb a i && ltb i z then word buf (index + (i - a)) else get_or old i 0))

Copied-set :
    (buf : List ℕ) (index a z : ℕ) (old new : List ℕ)
    → a < length old
    → a < z
    → Copied buf (index + 1) (a + 1) z (set old a (word buf index)) new
    → Copied buf index a z old new
Copied-set buf index a z old new h hz (l, c) = (
  l ∙ length-set old a (word buf index),
  λ i. elim (ℕ_discrete i a) [
    | yes e ↦ ground (arith, e, c i, get_or-set_self old a (word buf index) 0 h)
    | no e ↦ ground (arith, e, c i, get_or-set_ne old a i (word buf index) 0 (λ q. e (sym q)))
  ],
)

sector_words-next :
    (n la wc : ℕ) (buf : List ℕ) (index : ℕ) (mem : List ℕ) (w : ℕ)
    → la + wc ≤ 255
    → w < wc
    → sector_words (suc n) la wc buf index mem w
      ≡ sector_words n la wc buf (index + 1) (set mem (la + w) (word buf index)) (w + 1)
unfolding sector_words write_raw word
sector_words-next n la wc buf index mem w h b = ground (arith, inside)
  where
    inside : u16 (la + w) ≡ la + w
    inside = omega arith

-- The inner loop stays in the memory, and counts on to the end of the sector or of the image.
sector_words_lem :
    (n la wc : ℕ) (buf : List ℕ) (index : ℕ) (mem : List ℕ) (w : ℕ)
    → la + wc ≤ 255
    → length mem ≡ 512
    → w ≤ wc
    → let c = min (w + n) wc in
      (mem' : List ℕ) × (sector_words n la wc buf index mem w ≡ some (mem', c))
      × Copied buf index (la + w) (la + c) mem mem'
unfolding sector_words
sector_words_lem zero la wc buf index mem w h l hw =
    (mem, ground (arith, hw), (refl, λ i. ground arith))
sector_words_lem (suc n) la wc buf index mem w h l hw = elim (dec_lt w wc) [
  | yes b ↦
      let a = la + w in
      let x = word buf index in
      let (mem', e, c) =
        sector_words_lem n la wc buf (index + 1) (set mem a x) (w + 1) h (length-set mem a x ∙ l)
          (omega arith) in
      (
        mem',
        sector_words-next n la wc buf index mem w h b ∙ e ∙ ap (λ c. some (mem', c)) (omega arith),
        Copied-set buf index a (la + min (w + suc n) wc) mem mem' (omega arith) (omega arith) (
            subst
              (λ a. Copied buf (index + 1) a (la + min (w + suc n) wc) (set mem (la + w) x) mem')
              (omega arith)
              (subst (λ z. Copied buf (index + 1) (la + (w + 1)) z (set mem (la + w) x) mem')
                (omega arith) c)),
      )
  | no g ↦ (mem, ground (arith, g, hw), (refl, λ i. ground (arith, g)))
]

-- The first `w` words of the image at sector `start` are in the cells from `la` on.
abbrev pub Stored : HardDisk → ℕ → ℕ → ℕ → List ℕ → List ℕ → Type 0
Stored d start la w old new =
    (length new ≡ 512)
    × ((i : ℕ)
        → get_or new i 0
          ≡ (if leb la i && ltb i (la + w) then file_word d start (i - la) else get_or old i 0))

word-file_word :
    (d : HardDisk) (start q k w : ℕ)
    → 6 + 2 * w ≡ 16 * q + k * 2
    → k < 8
    → word (sector_at d (start + q)) k ≡ file_word d start w
unfolding word
word-file_word d start q k w e h = file_word_at d start q (k * 2) w e (omega arith)

Stored-Copied :
    (d : HardDisk) (start q la w c index : ℕ) (old mem mem' : List ℕ)
    → w ≤ c
    → c + index ≤ w + 8
    → 6 + 2 * w ≡ 16 * q + index * 2
    → Stored d start la w old mem
    → Copied (sector_at d (start + q)) index (la + w) (la + c) mem mem'
    → Stored d start la c old mem'
Stored-Copied d start q la w c index old mem mem' hw hc e (l, s) (l', c') = (
  l' ∙ l,
  λ i. elim (dec_lt i (la + w)) [
    | yes b ↦ c' i ∙ ground (arith, b, s i)
    | no g ↦ elim (dec_lt i (la + c)) [
      | yes b ↦
          c' i
          ∙ ground (
            arith,
            g,
            b,
            word-file_word d start q (index + (i - (la + w))) (i - la) (omega (arith, e, g))
                (omega (arith, hc, b, g)),
          )
      | no k ↦ c' i ∙ ground (arith, g, k, s i)
    ]
  ],
)

-- How the outer loop ends: within the memory, with words of the image alone, and it succeeds exactly
-- if it has them all.
abbrev pub Ends : HardDisk → ℕ → ℕ → ℕ → List ℕ → Option (Bool × HardDisk × List ℕ × ℕ × ℕ) → Type 0
Ends d start la wc old none = ⊥
Ends d start la wc old (some (ok, d', mem, w, used)) =
    (ok ≡ (w == wc)) × (w ≤ wc) × Stored d start la w old mem

pub read_disk-some :
    (d : HardDisk) (t : ℕ) (buf : List ℕ)
    → (read_disk d t).0 ≡ some buf
    → (t < 128) × (sector_at d t ≡ buf) × ((read_disk d t).1.storage ≡ d.storage)
unfolding read_disk
read_disk-some d t buf e = elim (Bool-cases (leb 128 t || d.busy)) [
  | inl b ↦ ground (arith, b, e)
  | inr b ↦ ground (arith, b, e)
]

pub image_loop-Ends :
    (d0 : HardDisk) (start la wc : ℕ) (old : List ℕ) (fuel : ℕ) (d : HardDisk) (q sector : ℕ)
    (buf : List ℕ) (index : ℕ) (mem : List ℕ) (w used : ℕ)
    → la + wc ≤ 255
    → w ≤ wc
    → 0 < fuel
    → wc + index ≤ w + 8 * fuel
    → 6 + 2 * w ≡ 16 * q + index * 2
    → index < 8
    → d.storage ≡ d0.storage
    → sector ≡ start + q
    → sector < 128
    → sector_at d0 (start + q) ≡ buf
    → Stored d0 start la w old mem
    → Ends d0 start la wc old (image_loop fuel d la wc sector buf index mem w used)
unfolding image_loop
image_loop-Ends d0 start la wc old zero d q sector buf index mem w used h hw h0 hf e hi hd hs on hb
      st =
    absurd (omega arith)
image_loop-Ends d0 start la wc old (suc fuel) d q sector buf index mem w used h hw h0 hf e hi hd hs
      on hb st =
    let c = min (w + (8 - index)) wc in
    let (mem', eq, cp) = sector_words_lem (8 - index) la wc buf index mem w h st.0 hw in
    let st' : Stored d0 start la c old mem' =
      Stored-Copied d0 start q la w c index old mem mem' (omega (arith, hw)) (omega (arith, hi)) e
        st (subst (λ b. Copied b index (la + w) (la + c) mem mem') (sym hb) cp) in
    elim (Bool-cases (ltb w wc)) [
      | inr g ↦ rw g (ground (arith, g, hw), hw, st)
      | inl b ↦ elim (Bool-cases (leb wc c)) [
        | inl all ↦ rw (b, eq, all) (ground (arith, all, hw), omega arith, st')
        | inr more ↦ elim (Option-cases (read_disk d (u16 (sector + 1))).0) [
          | inl r ↦ rw (b, eq, more, r) (ground (arith, more), omega arith, st')
          | inr (next, r) ↦
              let m : c < wc = leb→gt wc c more in
              let here : u16 (sector + 1) ≡ start + (q + 1) = omega (arith, hs, on) in
              let n = read_disk-some d (u16 (sector + 1)) next r in
              rw (b, eq, more, r)
                (image_loop-Ends d0 start la wc old fuel (read_disk d (u16 (sector + 1))).1 (q + 1)
                  (u16 (sector + 1)) next 0 mem' c (u16 (used + 1)) h (omega (arith, hw))
                  (omega (arith, m, hf, hi)) (omega (arith, m, hf, hi)) (omega (arith, m, e, hi))
                  (omega arith) (n.2 ∙ hd) here n.0
                  (ap₂ (λ sectors t. get_or sectors t (replicate 16 0)) (sym hd) (sym here) ∙ n.1)
                  st')
        ]
      ]
    ]
