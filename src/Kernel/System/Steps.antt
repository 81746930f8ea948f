-- ===== src/Kernel/System/Steps.antt =====
-- The steps of src/kernel on a process that is live.
use rm_vm.Common.{
  ℕ, zero, suc, ◌<◌, ◌≡◌, refl, sym, ap, ◌∙◌, Option, none, some, List, [], ◌∷◌, arith, length,
  get_or, set, get_or-set_self, some-ne-none,
}
use rm_vm.Kernel.Process.{Process, ProcState}
use rm_vm.Kernel.System.{Sys, load, update, free, set_state}

-- `a` points to the live process `p`.
abbrev pub At : List (Option Process) → ℕ → Process → Type 0
At heap a p = get_or heap a none ≡ some p

pub At-lt : (heap : List (Option Process)) (a : ℕ) (p : Process) → At heap a p → a < length heap
At-lt [] a p h = absurd (some-ne-none p (sym h))
At-lt (x ∷ heap) zero p h = omega arith
At-lt (x ∷ heap) (suc a) p h = omega (arith, At-lt heap a p h)

pub some-injective : {A : Type 0} (a b : A) → some a ≡ some b → a ≡ b
some-injective a b e = ap (λ o. elim o [ none ↦ a | some x ↦ x ]) e

-- A pointer points to one process.
pub At-unique :
    (heap : List (Option Process)) (a b : ℕ) (p q : Process)
    → At heap a p
    → a ≡ b
    → At heap b q
    → p ≡ q
At-unique heap a b p q l e m = some-injective p q (sym l ∙ ap (λ x. get_or heap x none) e ∙ m)

-- What the heap holds after a write to a live process.
pub At-set :
    (heap : List (Option Process)) (a : ℕ) (p q : Process)
    → At heap a p
    → At (set heap a (some q)) a q
At-set heap a p q h = get_or-set_self heap a (some q) none (At-lt heap a p h)

-- The same for a process that is freed.
pub freed :
    (heap : List (Option Process)) (a : ℕ) (p : Process)
    → At heap a p
    → get_or (set heap a none) a none ≡ none
freed heap a p h = get_or-set_self heap a none none (At-lt heap a p h)

pub load-At : (a : ℕ) (s : Sys) (p : Process) → At s.heap a p → load a s ≡ some (p, s)
unfolding load
load-At a s p h = rw (h, load) refl

pub update-At :
    (a : ℕ) (f : Process → Process) (s : Sys) (p : Process)
    → At s.heap a p
    → update a f s ≡ some (tt, record s { heap = set s.heap a (some (f p)) })
unfolding update
update-At a f s p h = rw (h, update) refl

pub free-At :
    (a : ℕ) (s : Sys) (p : Process)
    → At s.heap a p
    → free a s ≡ some (tt, record s { heap = set s.heap a none })
unfolding free
free-At a s p h = rw (h, free) refl

pub set_state-At :
    (a : ℕ) (st : ProcState) (s : Sys) (p : Process)
    → At s.heap a p
    → set_state a st s
      ≡ some (tt, record s { heap = set s.heap a (some (record p { state = st })) })
unfolding set_state
set_state-At a st s p h = update-At a (λ p. record p { state = st }) s p h

-- A run goes on where its first part returns.
pub goes_on :
    {A B : Type 0} {o : Option A} (k : A → Option B) {a : A}
    → o ≡ some a
    → (elim o [ none ↦ none | some a ↦ k a ]) ≡ k a
goes_on k e = ap (λ o. elim o [ none ↦ none | some a ↦ k a ]) e
