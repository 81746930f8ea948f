-- ===== src/Kernel/Invariant/Fills.antt =====
-- A slot of the table of src/kernel/scheduler.c that a new process takes.
use rm_vm.Kernel.System.Safe.{Alive}
use rm_vm.Kernel.Scheduler.Search.{LiveSlot}
use rm_vm.Kernel.Process.{Process}
use rm_vm.Kernel.System.Steps.{At-lt, some-injective}
use rm_vm.Common.{
  ℕ, ◌<◌, ◌≡◌, sym, ap, ◌∙◌, subst, ◌≢◌, ◌⊎◌, inl, inr, Option, none, some, List, arith, ℕ_discrete,
  length, get_or, set, get_or-set_self, get_or-set_ne, All, All-set, All-get_or, some-ne-none,
}

-- The table with pointer `a` in a slot that was free, or as it was.
abbrev pub Fills : List (Option ℕ) → ℕ → List (Option ℕ) → Type 0
Fills slots a slots' =
    (slots' ≡ slots)
    ⊎ ((k : ℕ) × (k < length slots)
        × (get_or slots k none ≡ none)
        × (slots' ≡ set slots k (some a)))

pub All-Fills :
    (P : Option ℕ → Type 0) (slots slots' : List (Option ℕ)) (a : ℕ)
    → Fills slots a slots'
    → All P slots
    → P (some a)
    → All P slots'
All-Fills P slots slots' a (inl e) h k = subst (All P) (sym e) h
All-Fills P slots slots' a (inr (i, _, _, e)) h k =
    subst (All P) (sym e) (All-set P slots i (some a) h k)

-- A slot of the new table.
pub slot-Fills :
    (slots slots' : List (Option ℕ)) (a i : ℕ) (b : ℕ)
    → Fills slots a slots'
    → get_or slots' i none ≡ some b
    → (get_or slots i none ≡ some b) ⊎ (a ≡ b)
slot-Fills slots slots' a i b (inl e) m = inl (ap (λ x. get_or x i none) (sym e) ∙ m)
slot-Fills slots slots' a i b (inr (k, lt, _, e)) m = elim (ℕ_discrete k i) [
  | yes f ↦ inr (
      some-injective a b (
        sym (get_or-set_self slots k (some a) none lt)
        ∙ ap (λ i. get_or (set slots k (some a)) i none) f
        ∙ ap (λ x. get_or x i none) (sym e)
        ∙ m))
  | no n ↦
      inl (sym (get_or-set_ne slots k i (some a) none n) ∙ ap (λ x. get_or x i none) (sym e) ∙ m)
]

pub At-below : (heap : List (Option Process)) (a : ℕ) → Alive heap a → a ≢ length heap
At-below heap a (p, l) e = omega (arith, At-lt heap a p l, e)

-- The slot with the new pointer.
pub new-Fills :
    (slots slots' : List (Option ℕ)) (a i j : ℕ)
    → Fills slots a slots'
    → ((i : ℕ) → get_or slots i none ≢ some a)
    → get_or slots' i none ≡ some a
    → get_or slots' j none ≡ some a
    → i ≡ j
new-Fills slots slots' a i j (inl e) n m m' = absurd (n i (ap (λ x. get_or x i none) (sym e) ∙ m))
new-Fills slots slots' a i j (inr (k, _, _, e)) n m m' = sym (at i m) ∙ at j m'
  where
    at : (x : ℕ) → get_or slots' x none ≡ some a → k ≡ x
    at x m = elim (ℕ_discrete k x) [
      | yes f ↦ f
      | no ne ↦ absurd (
          n x (
            sym (get_or-set_ne slots k x (some a) none ne) ∙ ap (λ y. get_or y x none) (sym e) ∙ m))
    ]

pub slot-Alive :
    (heap : List (Option Process)) (slots : List (Option ℕ)) (i a : ℕ)
    → All (LiveSlot heap) slots
    → get_or slots i none ≡ some a
    → Alive heap a
slot-Alive heap slots i a h e =
    subst (LiveSlot heap) e (All-get_or (LiveSlot heap) slots i none h tt)

pub kept-Fills :
    (slots slots' : List (Option ℕ)) (a i b : ℕ)
    → Fills slots a slots'
    → get_or slots i none ≡ some b
    → get_or slots' i none ≡ some b
kept-Fills slots slots' a i b (inl e) m = ap (λ x. get_or x i none) e ∙ m
kept-Fills slots slots' a i b (inr (k, _, f, e)) m =
    ap (λ x. get_or x i none) e
    ∙ get_or-set_ne slots k i (some a) none
        (λ eq. some-ne-none b (sym m ∙ ap (λ x. get_or slots x none) (sym eq) ∙ f))
    ∙ m
