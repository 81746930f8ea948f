-- ===== src/Kernel/Context/Pick.antt =====
-- The search of `contextSwitch` of src/kernel/context_switcher.c for a process that can run.
use rm_vm.Common.{
  ℕ, zero, suc, ◌+◌, ◌-◌, ◌≤◌, ◌<◌, ◌≡◌, refl, sym, ap, ◌∙◌, subst, inl, inr, Bool, true, false,
  ◌&&◌, Option, none, some, List, arith, Bool-cases, Option-cases, get_or, All, All-get_or,
  some-ne-none,
}
use rm_vm.Kernel.Process.{Process, ProcState, has_state, has_vm}
use rm_vm.Kernel.System.Steps.{some-injective, At}
use rm_vm.Kernel.Scheduler.Search.{LiveSlot, Found, extend_search}
use rm_vm.Kernel.Context.{pick}

-- Every slot is empty or points to a live process.
abbrev pub Live : List (Option Process) → List (Option ℕ) → Type 0
Live heap schedule = (j a : ℕ) → get_or schedule j none ≡ some a → (p : Process) × At heap a p

pub All-Live :
    (heap : List (Option Process)) (schedule : List (Option ℕ))
    → All (LiveSlot heap) schedule
    → Live heap schedule
All-Live heap schedule h j a e =
    subst (LiveSlot heap) e (All-get_or (LiveSlot heap) schedule j none h tt)

-- Slot `j` has a process that can run: it is ready and has a Virtual Machine.
abbrev pub CanRun : List (Option Process) → List (Option ℕ) → ℕ → Type 0
CanRun heap schedule j =
    (a : ℕ) × (p : Process) × (get_or schedule j none ≡ some a)
    × At heap a p
    × ((has_state ProcState.ready p && has_vm p) ≡ true)

-- The process in a slot that a search has found.
abbrev pub in_slot : List (Option ℕ) → Option ℕ → Option ℕ
in_slot schedule none = none
in_slot schedule (some k) = get_or schedule k none

-- The result of a search, with the slot that it stands for.
abbrev pub Picked : List (Option Process) → List (Option ℕ) → ℕ → ℕ → Option (Option ℕ) → Type 0
Picked heap schedule lo hi r =
    (o : Option ℕ) × Found (CanRun heap schedule) lo hi o × (r ≡ some (in_slot schedule o))

not_true : (b : Bool) → b ≡ false → ¬ (b ≡ true)
not_true b e f = ground (arith, e, f)

-- A slot without such a process, on top of a search.
extend_choice :
    (heap : List (Option Process)) (schedule : List (Option ℕ)) (lo hi : ℕ) (r : Option (Option ℕ))
    → ¬ (CanRun heap schedule hi)
    → lo ≤ hi
    → 0 < hi
    → Picked heap schedule lo (hi - 1) r
    → Picked heap schedule lo hi r
extend_choice heap schedule lo hi r busy b z (o, f, e) =
    (o, extend_search (CanRun heap schedule) lo hi o busy b z f, e)

-- The test of `contextSwitch` on a process.
abbrev can_run : Process → Bool
can_run p = has_state ProcState.ready p && has_vm p

cannot_run :
    (heap : List (Option Process)) (schedule : List (Option ℕ)) (i a : ℕ) (p : Process)
    → get_or schedule i none ≡ some a
    → At heap a p
    → can_run p ≡ false
    → ¬ (CanRun heap schedule i)
cannot_run heap schedule i a p e l c (a', p', f, l', c') =
    not_true (can_run p) c (ap can_run same ∙ c')
  where
    same : p ≡ p'
    same =
        some-injective p p'
          (sym l ∙ ap (λ x. get_or heap x none) (some-injective a a' (sym e ∙ f)) ∙ l')

pub pick-Picked :
    (n i lo : ℕ) (heap : List (Option Process)) (schedule : List (Option ℕ))
    → i ≡ lo + n
    → Live heap schedule
    → Picked heap schedule (suc lo) i (pick n i heap schedule)
unfolding pick
pick-Picked zero i lo heap schedule h l = (none, (λ j a b. absurd (omega (arith, h, a, b))), refl)
pick-Picked (suc n) i lo heap schedule h l =
    let rest = pick-Picked n (i - 1) lo heap schedule (omega arith) l in
    elim (Option-cases (get_or schedule i none)) [
      | inl e ↦
          rw (e, pick)
            (extend_choice heap schedule (suc lo) i _
              (λ (a, p, f, _, _). some-ne-none a (sym f ∙ e)) (omega arith) (omega arith) rest)
      | inr (a, e) ↦
          let (p, at) = l i a e in
          elim (Bool-cases (can_run p)) [
            | inl c ↦
                rw (e, at, c, pick)
                  (
                    some i,
                    (
                      omega arith,
                      omega arith,
                      (a, p, e, at, c),
                      λ j x y. absurd (omega (arith, x, y)),
                    ),
                    ap some (sym e),
                  )
            | inr c ↦
                rw (e, at, c, pick)
                  (extend_choice heap schedule (suc lo) i _ (cannot_run heap schedule i a p e at c)
                    (omega arith) (omega arith) rest)
          ]
    ]
