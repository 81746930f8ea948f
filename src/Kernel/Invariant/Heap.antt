-- ===== src/Kernel/Invariant/Heap.antt =====
-- What a pointer points to after a write to the heap of processes.
use rm_vm.Common.{
  ℕ, zero, suc, ◌≡◌, refl, sym, ap, ◌∙◌, ◌≢◌, ◌⊎◌, inl, inr, Option, none, some, List, [], ◌∷◌,
  ◌++◌, ℕ_discrete, length, get_or, set, get_or-set_ne, some-ne-none,
}
use rm_vm.Kernel.Process.{Process}
use rm_vm.Kernel.System.Steps.{freed, some-injective, At, At-set}

-- After a write to a live process, a pointer points to what was written, or to what it did before.
pub At-set-cases :
    (heap : List (Option Process)) (a : ℕ) (p q : Process) (b : ℕ) (r : Process)
    → At heap a p
    → At (set heap a (some q)) b r
    → ((a ≡ b) × (q ≡ r)) ⊎ ((a ≢ b) × At heap b r)
At-set-cases heap a p q b r l m = elim (ℕ_discrete a b) [
  | yes e ↦ inl (
    e,
    some-injective q r
        (sym (At-set heap a p q l) ∙ ap (λ x. get_or (set heap a (some q)) x none) e ∙ m),
  )
  | no ne ↦ inr (ne, sym (get_or-set_ne heap a b (some q) none ne) ∙ m)
]

-- After a process is freed, the others are there.
pub At-free-cases :
    (heap : List (Option Process)) (a : ℕ) (p : Process) (b : ℕ) (r : Process)
    → At heap a p
    → At (set heap a none) b r
    → (a ≢ b) × At heap b r
At-free-cases heap a p b r l m = elim (ℕ_discrete a b) [
  | yes e ↦ absurd (
      some-ne-none r (sym m ∙ sym (ap (λ x. get_or (set heap a none) x none) e) ∙ freed heap a p l))
  | no ne ↦ (ne, sym (get_or-set_ne heap a b none none ne) ∙ m)
]

-- A new process stands behind the others.
pub At-alloc-cases :
    (heap : List (Option Process)) (p : Process) (b : ℕ) (r : Process)
    → At (heap ++ some p ∷ []) b r
    → ((b ≡ length heap) × (p ≡ r)) ⊎ At heap b r
At-alloc-cases [] p zero r m = inl (refl, some-injective p r m)
At-alloc-cases [] p (suc b) r m = absurd (some-ne-none r (sym m))
At-alloc-cases (x ∷ heap) p zero r m = inr m
At-alloc-cases (x ∷ heap) p (suc b) r m = elim (At-alloc-cases heap p b r m) [
  | inl (e, f) ↦ inl (ap suc e, f)
  | inr l ↦ inr l
]

pub At-alloc_old :
    (heap : List (Option Process)) (p : Process) (b : ℕ) (r : Process)
    → At heap b r
    → At (heap ++ some p ∷ []) b r
At-alloc_old [] p b r m = absurd (some-ne-none r (sym m))
At-alloc_old (x ∷ heap) p zero r m = m
At-alloc_old (x ∷ heap) p (suc b) r m = At-alloc_old heap p b r m

pub At-alloc_new :
    (heap : List (Option Process)) (p : Process) → At (heap ++ some p ∷ []) (length heap) p
At-alloc_new [] p = refl
At-alloc_new (x ∷ heap) p = At-alloc_new heap p
