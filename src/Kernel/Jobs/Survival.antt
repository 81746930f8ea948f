-- ===== src/Kernel/Jobs/Survival.antt =====
-- The processes under the second loop of `startStopEntry` of src/main.c.
use rm_vm.Kernel.Scheduler.Search.{LiveSlot}
use rm_vm.Kernel.System.Steps.{At-unique, At-set, At}
use rm_vm.Kernel.Process.{ProcType, has_type, Process}
use rm_vm.Common.{
  ℕ, ◌≡◌, refl, ◌∙◌, subst, ◌⊎◌, inl, inr, Option, none, some, List, [], ◌∷◌, ℕ_discrete,
  if◌then◌else◌, get_or, set, get_or-set_ne, All,
}

-- What the shutdown leaves in a slot: the pointer to a start/stop process.
unfoldable pub kept : List (Option Process) → Option ℕ → Option ℕ
kept heap none = none
kept heap (some a) = elim (get_or heap a none) [
  | none ↦ none
  | some p ↦ if has_type ProcType.start_stop p then some a else none
]

-- A process without its Virtual Machine.
abbrev pub stripped : Process → Process
stripped p = record p { vm = none }

-- Every process is there still, with or without its Virtual Machine.
abbrev pub Survives : List (Option Process) → List (Option Process) → Type 0
Survives heap heap' = (a : ℕ) (p : Process) → At heap a p → At heap' a p ⊎ At heap' a (stripped p)

pub kept-stripped :
    (heap : List (Option Process)) (a : ℕ) (p : Process) (x : Option ℕ)
    → At heap a p
    → kept (set heap a (some (stripped p))) x ≡ kept heap x
unfolding kept has_type
kept-stripped heap a p none l = refl
kept-stripped heap a p (some b) l = elim (ℕ_discrete a b) [
  | yes e ↦
      subst (λ x. kept (set heap a (some (stripped p))) (some x) ≡ kept heap (some x)) e
        (rw (At-set heap a p (stripped p) l, l, kept) refl)
  | no ne ↦ rw (get_or-set_ne heap a b (some (stripped p)) none ne, kept) refl
]

pub LiveSlot-set :
    (heap : List (Option Process)) (a : ℕ) (p q : Process) (slots : List (Option ℕ))
    → At heap a p
    → All (LiveSlot heap) slots
    → All (LiveSlot (set heap a (some q))) slots
LiveSlot-set heap a p q [] l h = tt
LiveSlot-set heap a p q (none ∷ slots) l h = (tt, LiveSlot-set heap a p q slots l h.1)
LiveSlot-set heap a p q (some b ∷ slots) l ((p', l'), h) = (
  elim (ℕ_discrete a b) [
    | yes e ↦ (q, subst (λ x. At (set heap a (some q)) x q) e (At-set heap a p q l))
    | no ne ↦ (p', get_or-set_ne heap a b (some q) none ne ∙ l')
  ],
  LiveSlot-set heap a p q slots l h,
)

-- A process that has lost its Virtual Machine survives without it.
pub is_there_still :
    (heap heap' : List (Option Process)) (a : ℕ) (p : Process)
    → At heap a p
    → Survives (set heap a (some (stripped p))) heap'
    → At heap' a (stripped p)
is_there_still heap heap' a p l h = elim (h a (stripped p) (At-set heap a p (stripped p) l)) [
  | inl m ↦ m
  | inr m ↦ m
]

pub Survives-set :
    (heap heap' : List (Option Process)) (a : ℕ) (p : Process)
    → At heap a p
    → Survives (set heap a (some (stripped p))) heap'
    → Survives heap heap'
Survives-set heap heap' a p l h b q m = elim (ℕ_discrete a b) [
  | yes e ↦ inr (
      subst (λ x. At heap' x (stripped q)) e
        (subst (λ x. At heap' a (stripped x)) (At-unique heap a b p q l e m)
          (is_there_still heap heap' a p l h)))
  | no ne ↦ h b q (get_or-set_ne heap a b (some (stripped p)) none ne ∙ m)
]
