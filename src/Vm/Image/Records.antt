-- ===== src/Vm/Image/Records.antt =====
-- src/vm/vm_memory.c: the memory that `loadProgram` leaves.
use rm_vm.Vm.State.{vm_memory_size}
use rm_vm.Common.{
  ℕ, zero, suc, ◌+◌, ◌-◌, ◌*◌, ◌≤◌, ◌<◌, ◌≡◌, refl, sym, ap, ap₂, ◌∙◌, ◌≢◌, ◌⊎◌, inl, inr, Option,
  some, List, [], ◌∷◌, ◌++◌, append-nil, append_assoc, arith, dec_lt, leb, if◌then◌else◌, length,
  set, drop, length-append, All,
}
use rm_vm.Rm.State.{Instruction}
use rm_vm.Vm.Image.{load_program, load_from, record_bytes, store_bytes}

-- The nine bytes of each instruction, one after the other.
pub image : List Instruction → List ℕ
image [] = []
image (i ∷ ins) = record_bytes i ++ image ins

-- A write at the boundary goes to the first element behind it.
set-append :
    (pre : List ℕ) (x v : ℕ) (xs : List ℕ) → set (pre ++ x ∷ xs) (length pre) v ≡ pre ++ v ∷ xs
set-append [] x v xs = refl
set-append (p ∷ pre) x v xs = ap (λ l. p ∷ l) (set-append pre x v xs)

-- Writes one after the other overwrite what follows.
store_bytes-append :
    (bytes pre tail : List ℕ)
    → length bytes ≤ length tail
    → store_bytes (pre ++ tail) (length pre) bytes ≡ (pre ++ bytes) ++ drop (length bytes) tail
unfolding store_bytes drop
store_bytes-append [] pre tail h = ap (λ l. l ++ tail) (sym (append-nil pre))
store_bytes-append (b ∷ bytes) pre [] h = absurd (omega arith)
store_bytes-append (b ∷ bytes) pre (x ∷ tail) h =
    ap (λ m. store_bytes m (length pre + 1) bytes)
      (set-append pre x b tail ∙ sym (append_assoc pre (b ∷ []) tail))
    ∙ ap (λ n. store_bytes ((pre ++ b ∷ []) ++ tail) n bytes) (sym (length-append pre (b ∷ [])))
    ∙ store_bytes-append bytes (pre ++ b ∷ []) tail (omega arith)
    ∙ ap (λ l. l ++ drop (length bytes) tail) (append_assoc pre (b ∷ []) bytes)

suc_lem : (n k : ℕ) → suc (n + k) ≡ suc n + k
suc_lem n k = omega arith

drop-nil : (n : ℕ) → drop {A = ℕ} n [] ≡ []
unfolding drop
drop-nil zero = refl
drop-nil (suc n) = refl

drop-drop : (n k : ℕ) (xs : List ℕ) → drop k (drop n xs) ≡ drop (n + k) xs
unfolding drop
drop-drop zero k xs = ap (λ m. drop m xs) (omega arith)
drop-drop (suc n) k [] = drop-nil k ∙ sym (drop-nil (suc n + k))
drop-drop (suc n) k (x ∷ xs) = drop-drop n k xs ∙ ap (λ m. drop m (x ∷ xs)) (suc_lem n k)

length-drop : (n : ℕ) (xs : List ℕ) → length (drop n xs) ≡ length xs - n
unfolding drop
length-drop zero xs = omega arith
length-drop (suc n) [] = omega arith
length-drop (suc n) (x ∷ xs) = omega (arith, length-drop n xs)

-- One instruction that fits.
stored :
    (i : Instruction) (pre tail : List ℕ)
    → 9 ≤ length tail
    → store_bytes (pre ++ tail) (length pre) (record_bytes i)
      ≡ (pre ++ record_bytes i) ++ drop 9 tail
stored i pre tail h = store_bytes-append (record_bytes i) pre tail h

load_from-halt :
    (h : Instruction) (rest : List Instruction) (pre tail : List ℕ)
    → h.opcode ≡ 0
    → length pre + length tail ≡ vm_memory_size
    → 9 ≤ length tail
    → load_from (h ∷ rest) (length pre) (pre ++ tail)
      ≡ some (0, (pre ++ record_bytes h) ++ drop 9 tail)
unfolding load_from
load_from-halt h rest pre tail o l r = ground (arith, o, l, r, stored h pre tail r)

load_from-next :
    (i : Instruction) (ins : List Instruction) (pre tail : List ℕ)
    → i.opcode ≢ 0
    → length pre + length tail ≡ vm_memory_size
    → 9 ≤ length tail
    → load_from (i ∷ ins) (length pre) (pre ++ tail)
      ≡ load_from ins (length (pre ++ record_bytes i)) ((pre ++ record_bytes i) ++ drop 9 tail)
unfolding load_from
load_from-next i ins pre tail o l r = ground (
  arith,
  o,
  l,
  r,
  ap₂ (load_from ins) (sym (length-append pre (record_bytes i))) (stored i pre tail r),
)

load_from-full :
    (ins : List Instruction) (pre tail : List ℕ)
    → length pre + length tail ≡ vm_memory_size
    → length tail < 9
    → load_from ins (length pre) (pre ++ tail) ≡ some (1, pre ++ tail)
unfolding load_from
load_from-full [] pre tail l r = ground (arith, l, r)
load_from-full (i ∷ ins) pre tail l r = ground (arith, l, r)

abbrev pub IsHalt : Instruction → Type 0
IsHalt i = i.opcode ≡ 0

abbrev pub NoHalt : Instruction → Type 0
NoHalt i = i.opcode ≢ 0

-- What `loadProgram` gives for a program of `n` instructions with a HALT at its end, on the cells `tail`
-- behind the cells `pre`.
Loaded : List Instruction → List ℕ → List ℕ → Option (ℕ × List ℕ) → Type 0
Loaded ins pre tail result =
    let n = length ins in
    (mem' : List ℕ) × (result ≡ some ((if leb (9 * n) (length tail) then 0 else 1), mem'))
    × (((9 * n ≤ length tail) × (mem' ≡ (pre ++ image ins) ++ drop (9 * n) tail))
        ⊎ (length tail < 9 * n))

load_from_lem :
    (ins : List Instruction) (h : Instruction) (rest : List Instruction) (pre tail : List ℕ)
    → All NoHalt ins
    → IsHalt h
    → length pre + length tail ≡ vm_memory_size
    → Loaded (ins ++ h ∷ []) pre tail (load_from (ins ++ h ∷ rest) (length pre) (pre ++ tail))
unfolding Loaded image
load_from_lem [] h rest pre tail c o l = elim (dec_lt (length tail) 9) [
  | yes x ↦ (pre ++ tail, load_from-full (h ∷ rest) pre tail l x ∙ ground (arith, x), inr x)
  | no x ↦ (
    (pre ++ record_bytes h) ++ drop 9 tail,
    load_from-halt h rest pre tail o l (omega (arith, x)) ∙ ground (arith, x),
    inl (omega (arith, x), refl),
  )
]
load_from_lem (i ∷ ins) h rest pre tail (c, cs) o l = elim (dec_lt (length tail) 9) [
  | yes x ↦ (
    pre ++ tail,
    load_from-full (i ∷ ins ++ h ∷ rest) pre tail l x ∙ ground (arith, x),
    inr (ground (arith, x)),
  )
  | no x ↦
      let (mem', e, m) =
        load_from_lem ins h rest (pre ++ record_bytes i) (drop 9 tail) cs o
          (omega (arith, length-append pre (record_bytes i), length-drop 9 tail, l, x)) in
      (
        mem',
        load_from-next i (ins ++ h ∷ rest) pre tail c l (omega (arith, x))
            ∙ e
            ∙ ground (arith, length-drop 9 tail, x),
        elim m [
          | inl (f, q) ↦ inl (
            ground (arith, f, x, length-drop 9 tail),
            q
                ∙ ap₂ (λ a b. a ++ b) (append_assoc pre (record_bytes i) (image (ins ++ h ∷ [])))
                    (drop-drop 9 (9 * length (ins ++ h ∷ [])) tail
                      ∙ ap (λ k. drop k tail) (omega arith)),
          )
          | inr f ↦ inr (ground (arith, f, x, length-drop 9 tail))
        ],
      )
]

-- `loadProgram` on instructions before the first HALT, on the HALT, and on whatever the array holds behind
-- it. Where these are 28 instructions at most, it returns 0, and the memory starts with the nine bytes of
-- each of them, in order, and keeps its own bytes behind; where they are more, it returns 1.
pub load_program_lem :
    (ins : List Instruction) (h : Instruction) (rest : List Instruction) (mem : List ℕ)
    → All NoHalt ins
    → IsHalt h
    → length mem ≡ vm_memory_size
    → let n = length ins + 1 in
      (mem' : List ℕ) × (load_program (ins ++ h ∷ rest) mem
        ≡ some ((if leb n 28 then 0 else 1), mem'))
      × (((n ≤ 28) × (mem' ≡ image (ins ++ h ∷ []) ++ drop (9 * n) mem)) ⊎ (28 < n))
unfolding Loaded
load_program_lem ins h rest mem c o l =
    let (mem', e, m) = load_from_lem ins h rest [] mem c o (omega (arith, l)) in
    let n : length (ins ++ h ∷ []) ≡ length ins + 1 = length-append ins (h ∷ []) in
    (
      mem',
      e ∙ ground (arith, n, l),
      elim m [
        | inl (f, q) ↦
            inl (omega (arith, f, n, l), q ∙ ap (λ k. image (ins ++ h ∷ []) ++ drop (9 * k) mem) n)
        | inr f ↦ inr (omega (arith, f, n, l))
      ],
    )
