-- ===== src/Kernel/Loader/Words.antt =====
-- src/kernel/loader.c: the words that the inner loop of `loaderLoadFile` copies.
use rm_vm.Common.{
  ℕ, zero, suc, ◌+◌, ◌*◌, ◌/◌, ◌%◌, ◌≤◌, ◌<◌, min, ◌≡◌, refl, sym, ap, ap₂, ◌∙◌, subst, ◌⊎◌, inl,
  inr, List, arith, dec_lt, ℕ_discrete, length, get_or, set, length-set, get_or-set_self,
  get_or-set_ne, u16,
}
use rm_vm.Kernel.Files.Contents.{file_byte}
use rm_vm.Rm.Disk.{HardDisk, sector_at}
use rm_vm.Kernel.Loader.{ProgramHeader, put_word, copy_words, read_le16}

-- Word `k` of the image that starts at a sector, low byte first, behind the header.
abbrev pub file_word : HardDisk → ℕ → ℕ → ℕ
file_word d start k = u16 (file_byte d start (6 + 2 * k) + 256 * file_byte d start (6 + 2 * k + 1))

-- The first `w` words are in the memory, and nothing else of it has changed.
abbrev pub Loaded : HardDisk → ℕ → ProgramHeader → ℕ → List ℕ → List ℕ → Type 0
Loaded d start hdr w old mem =
    (length mem ≡ 255)
    × ((k : ℕ) → k < w → get_or mem (hdr.load_address + 2 * k) 0 ≡ file_word d start k / 256)
    × ((k : ℕ) → k < w → get_or mem (hdr.load_address + 2 * k + 1) 0 ≡ file_word d start k % 256)
    × ((i : ℕ)
        → (i < hdr.load_address) ⊎ (hdr.load_address + 2 * w ≤ i)
        → get_or mem i 0 ≡ get_or old i 0)

-- The two bytes of a word.
put : List ℕ → ℕ → ℕ → List ℕ
put mem a x = set (set mem a (x / 256)) (a + 1) (x % 256)

module _ (mem : List ℕ) (a x : ℕ) (h : a + 1 < length mem) where
  put_length : length (put mem a x) ≡ length mem
  unfolding put
  put_length = length-set (set mem a (x / 256)) (a + 1) (x % 256) ∙ length-set mem a (x / 256)

  put_high : get_or (put mem a x) a 0 ≡ x / 256
  unfolding put
  put_high =
      get_or-set_ne (set mem a (x / 256)) (a + 1) a (x % 256) 0 (λ e. omega (arith, e))
      ∙ get_or-set_self mem a (x / 256) 0 (omega arith)

  put_low : get_or (put mem a x) (a + 1) 0 ≡ x % 256
  unfolding put
  put_low =
      get_or-set_self (set mem a (x / 256)) (a + 1) (x % 256) 0
        (omega (arith, length-set mem a (x / 256)))

  put_other : (i : ℕ) → (i < a) ⊎ (a + 1 < i) → get_or (put mem a x) i 0 ≡ get_or mem i 0
  unfolding put
  put_other i p =
      get_or-set_ne (set mem a (x / 256)) (a + 1) i (x % 256) 0 (λ e. omega (arith, p, e))
      ∙ get_or-set_ne mem a i (x / 256) 0 (λ e. omega (arith, p, e))

put_word-put :
    (hdr : ProgramHeader) (mem : List ℕ) (w x : ℕ)
    → hdr.load_address + hdr.word_count * 2 ≤ 255
    → w < hdr.word_count
    → x < 65536
    → put_word hdr mem w x ≡ put mem (hdr.load_address + 2 * w) x
unfolding put
put_word-put hdr mem w x fits hw hx = ground arith

Loaded-put :
    (d : HardDisk) (start : ℕ) (hdr : ProgramHeader) (w x : ℕ) (old mem : List ℕ)
    → hdr.load_address + hdr.word_count * 2 ≤ 255
    → w < hdr.word_count
    → x ≡ file_word d start w
    → Loaded d start hdr w old mem
    → Loaded d start hdr (w + 1) old (put mem (hdr.load_address + 2 * w) x)
Loaded-put d start hdr w x old mem fits hw e (l, high, low, other) = (
  put_length mem a x h ∙ l,
  λ k p. elim (ℕ_discrete k w) [
    | yes q ↦
        ap (λ k. get_or (put mem a x) (hdr.load_address + 2 * k) 0) q
        ∙ put_high mem a x h
        ∙ ap (λ y. y / 256) e
        ∙ ap (λ k. file_word d start k / 256) (sym q)
    | no q ↦
        put_other mem a x h (hdr.load_address + 2 * k) (inl (omega (arith, q)))
        ∙ high k (omega (arith, q))
  ],
  λ k p. elim (ℕ_discrete k w) [
    | yes q ↦
        ap (λ k. get_or (put mem a x) (hdr.load_address + 2 * k + 1) 0) q
        ∙ put_low mem a x h
        ∙ ap (λ y. y % 256) e
        ∙ ap (λ k. file_word d start k % 256) (sym q)
    | no q ↦
        put_other mem a x h (hdr.load_address + 2 * k + 1) (inl (omega (arith, q)))
        ∙ low k (omega (arith, q))
  ],
  λ i p.
      put_other mem a x h i (elim p [ inl p ↦ inl (omega arith) | inr p ↦ inr (omega arith) ])
      ∙ other i (elim p [ inl p ↦ inl p | inr p ↦ inr (omega arith) ]),
)
  where
    a : ℕ
    a = hdr.load_address + 2 * w

    h : a + 1 < length mem
    h = omega (arith, fits, hw, l)

file_byte_at :
    (d : HardDisk) (start q r p : ℕ)
    → p ≡ 16 * q + r
    → r < 16
    → get_or (sector_at d (start + q)) r 0 ≡ file_byte d start p
file_byte_at d start q r p e h =
    ap₂ (λ q r. get_or (sector_at d (start + q)) r 0) (omega (arith, e)) (omega (arith, e))

pub file_word_at :
    (d : HardDisk) (start q r w : ℕ)
    → 6 + 2 * w ≡ 16 * q + r
    → r + 1 < 16
    → read_le16 (sector_at d (start + q)) r ≡ file_word d start w
file_word_at d start q r w e h =
    ap₂ (λ x y. u16 (x + 256 * y)) (file_byte_at d start q r (6 + 2 * w) e (omega arith))
      (file_byte_at d start q (r + 1) (6 + 2 * w + 1) (omega (arith, e)) h)

copy_words-next :
    (n : ℕ) (hdr : ProgramHeader) (buf mem mem' : List ℕ) (b w : ℕ)
    → w < hdr.word_count
    → put_word hdr mem w (read_le16 buf b) ≡ mem'
    → copy_words (suc n) hdr buf mem b w ≡ copy_words n hdr buf mem' (b + 2) (w + 1)
unfolding copy_words
copy_words-next n hdr buf mem mem' b w l e =
    stay ∙ ap (λ m. copy_words n hdr buf m (b + 2) (w + 1)) e
  where
    stay :
        copy_words (suc n) hdr buf mem b w
        ≡ copy_words n hdr buf (put_word hdr mem w (read_le16 buf b)) (b + 2) (w + 1)
    stay = ground (arith, l)

copy_words-stop :
    (n : ℕ) (hdr : ProgramHeader) (buf mem : List ℕ) (b w c : ℕ)
    → (n ≡ 0) ⊎ (hdr.word_count ≤ w)
    → w ≡ c
    → copy_words n hdr buf mem b w ≡ (mem, c)
unfolding copy_words
copy_words-stop zero hdr buf mem b w c h e = ap (λ c. (mem, c)) e
copy_words-stop (suc n) hdr buf mem b w c h e = ground (arith, h, e)

pub copy_words_lem :
    (d : HardDisk) (start q : ℕ) (hdr : ProgramHeader) (old : List ℕ) (n b w c : ℕ) (mem : List ℕ)
    → hdr.load_address + hdr.word_count * 2 ≤ 255
    → b + 2 * n ≡ 16
    → w ≤ hdr.word_count
    → 6 + 2 * w ≡ 16 * q + b
    → c ≡ min (w + n) hdr.word_count
    → Loaded d start hdr w old mem
    → (mem' : List ℕ) × (copy_words n hdr (sector_at d (start + q)) mem b w ≡ (mem', c))
      × Loaded d start hdr c old mem'
copy_words_lem d start q hdr old zero b w c mem fits hn hw e ec ld =
    let e' : w ≡ c = omega (arith, ec) in
    (
      mem,
      copy_words-stop 0 hdr (sector_at d (start + q)) mem b w c (inl refl) e',
      subst (λ c. Loaded d start hdr c old mem) e' ld,
    )
copy_words_lem d start q hdr old (suc n) b w c mem fits hn hw e ec ld =
    elim (dec_lt w hdr.word_count) [
      | yes l ↦
          let x = read_le16 (sector_at d (start + q)) b in
          let ex : x ≡ file_word d start w = file_word_at d start q b w e (omega arith) in
          let (mem', eq, ld') =
            copy_words_lem d start q hdr old n (b + 2) (w + 1) c
              (put mem (hdr.load_address + 2 * w) x) fits (omega arith) (omega arith) (omega arith)
              (omega (arith, ec)) (Loaded-put d start hdr w x old mem fits l ex ld) in
          (
            mem',
            copy_words-next n hdr (sector_at d (start + q)) mem
                  (put mem (hdr.load_address + 2 * w) x) b w l
                  (put_word-put hdr mem w x fits l (omega arith))
                ∙ eq,
            ld',
          )
      | no g ↦
          let e' : w ≡ c = omega (arith, ec, g) in
          (
            mem,
            copy_words-stop (suc n) hdr (sector_at d (start + q)) mem b w c (inr (omega (arith, g)))
                e',
            subst (λ c. Loaded d start hdr c old mem) e' ld,
          )
    ]
