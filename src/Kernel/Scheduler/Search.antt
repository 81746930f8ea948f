-- ===== src/Kernel/Scheduler/Search.antt =====
-- The searches of src/kernel/scheduler.c, up and down the table of slots.
use rm_vm.Common.{
  ℕ, zero, suc, ◌+◌, ◌-◌, ◌≤◌, ◌<◌, ◌≡◌, refl, sym, ap, ◌∙◌, subst, ◌⊎◌, inl, inr, Bool, true,
  false, Option, none, some, List, [], ◌∷◌, arith, ℕ_discrete, if◌then◌else◌, Bool-cases,
  Option-cases, length, get_or, set, All, some-ne-none,
}
use rm_vm.Kernel.Process.{Process}
use rm_vm.Kernel.System.Steps.{At}
use rm_vm.Kernel.Scheduler.{find_proc, free_slot}

-- A slot that a search for `q` passes over: it is empty, or its process is live and has not `q`.
abbrev pub Skips : (Process → Bool) → List (Option Process) → Option ℕ → Type 0
Skips q heap none = Unit
Skips q heap (some a) = (p : Process) × At heap a p × (q p ≡ false)

-- The step of a search at a live process.
find_proc-At :
    (q : Process → Bool) (heap : List (Option Process)) (a : ℕ) (slots : List (Option ℕ)) (i : ℕ)
    (p : Process)
    → At heap a p
    → find_proc q heap (some a ∷ slots) i
      ≡ (if q p then some (some (i, a)) else find_proc q heap slots (i + 1))
unfolding find_proc
find_proc-At q heap a slots i p h = rw (h, find_proc) refl

pub find_proc_misses :
    (q : Process → Bool) (heap : List (Option Process)) (slots : List (Option ℕ)) (i : ℕ)
    → All (Skips q heap) slots
    → find_proc q heap slots i ≡ some none
unfolding find_proc
find_proc_misses q heap [] i h = refl
find_proc_misses q heap (none ∷ slots) i h = find_proc_misses q heap slots (i + 1) h.1
find_proc_misses q heap (some a ∷ slots) i ((p, l, e), hs) =
    rw (find_proc-At q heap a slots i p l, e) (find_proc_misses q heap slots (i + 1) hs)

-- A process that is put into an empty slot is what the search finds, if it passes over the others.
pub find_proc-set :
    (q : Process → Bool) (heap : List (Option Process)) (slots : List (Option ℕ)) (i k a : ℕ)
    (p : Process)
    → All (Skips q heap) slots
    → k < length slots
    → get_or slots k none ≡ none
    → At heap a p
    → q p ≡ true
    → find_proc q heap (set slots k (some a)) i ≡ some (some (i + k, a))
unfolding find_proc
find_proc-set q heap [] i k a p hs hk hf l e = absurd (omega arith)
find_proc-set q heap (some b ∷ slots) i zero a p hs hk hf l e = absurd (some-ne-none b hf)
find_proc-set q heap (none ∷ slots) i zero a p hs hk hf l e =
    rw (find_proc-At q heap a slots i p l, e) (ap (λ n. some (some (n, a))) (omega arith))
find_proc-set q heap (none ∷ slots) i (suc k) a p hs hk hf l e =
    find_proc-set q heap slots (i + 1) k a p hs.1 (omega arith) hf l e
    ∙ ap (λ n. some (some (n, a))) (omega arith)
find_proc-set q heap (some b ∷ slots) i (suc k) a p ((p', l', e'), hs) hk hf l e =
    rw (find_proc-At q heap b (set slots k (some a)) i p' l', e')
      (find_proc-set q heap slots (i + 1) k a p hs (omega arith) hf l e
        ∙ ap (λ n. some (some (n, a))) (omega arith))

-- What a search down from `hi` to `lo` gives: the highest index with `P`, or nothing.
abbrev pub Found : (ℕ → Type 0) → ℕ → ℕ → Option ℕ → Type 0
Found P lo hi none = (j : ℕ) → lo ≤ j → j ≤ hi → ¬ (P j)
Found P lo hi (some k) = (lo ≤ k) × (k ≤ hi) × P k × ((j : ℕ) → k < j → j ≤ hi → ¬ (P j))

-- One index more at the top.
pub extend_search :
    (P : ℕ → Type 0) (lo hi : ℕ) (o : Option ℕ)
    → ¬ (P hi)
    → lo ≤ hi
    → 0 < hi
    → Found P lo (hi - 1) o
    → Found P lo hi o
extend_search P lo hi none busy b z h = λ j l m. elim (ℕ_discrete j hi) [
  | yes e ↦ (λ p. busy (subst P e p))
  | no ne ↦ h j l (omega (arith, ne))
]
extend_search P lo hi (some k) busy b z (l, m, p, h) = (
  l,
  omega arith,
  p,
  λ j x y. elim (ℕ_discrete j hi) [
    | yes e ↦ (λ p. busy (subst P e p))
    | no ne ↦ h j x (omega (arith, ne))
  ],
)

abbrev pub Free : List (Option ℕ) → ℕ → Type 0
Free schedule j = get_or schedule j none ≡ none

-- The loops of `addProc` find the highest free slot.
pub free_slot-Found :
    (n i lo : ℕ) (schedule : List (Option ℕ))
    → i ≡ lo + n
    → Found (Free schedule) (suc lo) i (free_slot n i schedule)
unfolding free_slot
free_slot-Found zero i lo schedule h = λ j l m. absurd (omega (arith, h, l, m))
free_slot-Found (suc n) i lo schedule h = elim (Option-cases (get_or schedule i none)) [
  | inl e ↦ rw (e, free_slot) (omega arith, omega arith, e, λ j l m. absurd (omega (arith, l, m)))
  | inr (a, e) ↦
      rw (e, free_slot)
        (extend_search (Free schedule) (suc lo) i (free_slot n (i - 1) schedule)
          (λ f. some-ne-none a (sym e ∙ f)) (omega arith) (omega arith)
          (free_slot-Found n (i - 1) lo schedule (omega arith)))
]

-- One slot of a table in which every pointer is live.
abbrev pub LiveSlot : List (Option Process) → Option ℕ → Type 0
LiveSlot heap none = Unit
LiveSlot heap (some a) = (p : Process) × At heap a p

-- A process in one of the slots that has `q`.
abbrev pub Has : (Process → Bool) → List (Option Process) → List (Option ℕ) → Type 0
Has q heap slots =
    (k : ℕ) × (a : ℕ) × (p : Process) × (get_or slots k none ≡ some a) × At heap a p × (q p ≡ true)

-- A search up the table, in which every pointer is live, finds a process or passes over all slots.
pub find_proc-cases :
    (q : Process → Bool) (heap : List (Option Process)) (slots : List (Option ℕ)) (i : ℕ)
    → All (LiveSlot heap) slots
    → (All (Skips q heap) slots × (find_proc q heap slots i ≡ some none))
      ⊎ (Has q heap slots × (k : ℕ) × (a : ℕ) × (find_proc q heap slots i ≡ some (some (k, a))))
unfolding find_proc
find_proc-cases q heap [] i h = inl (tt, refl)
find_proc-cases q heap (none ∷ slots) i h = elim (find_proc-cases q heap slots (i + 1) h.1) [
  | inl (all, e) ↦ inl ((tt, all), e)
  | inr ((j, b, p, x, l, t), k, a, e) ↦ inr ((suc j, b, p, x, l, t), k, a, e)
]
find_proc-cases q heap (some a ∷ slots) i ((p, l), hs) =
    let rest = find_proc-cases q heap slots (i + 1) hs in
    elim (Bool-cases (q p)) [
      | inl t ↦ inr ((0, a, p, refl, l, t), i, a, find_proc-At q heap a slots i p l ∙ rw t refl)
      | inr f ↦
          let step = find_proc-At q heap a slots i p l in
          elim rest [
            | inl (all, e) ↦ inl (((p, l, f), all), step ∙ rw f e)
            | inr ((j, b, p', x, l', t), k, a', e) ↦
                inr ((suc j, b, p', x, l', t), k, a', step ∙ rw f e)
          ]
    ]
