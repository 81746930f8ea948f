-- ===== src/Kernel/Invariant/Find.antt =====
-- What the searches of src/kernel/scheduler.c up the table find, and a look at a process after a write.
use rm_vm.Kernel.Invariant.Put.{Same}
use rm_vm.Kernel.System.Safe.{LiveTable}
use rm_vm.Kernel.Scheduler.Search.{LiveSlot}
use rm_vm.Kernel.System.{Sys}
use rm_vm.Kernel.System.Steps.{At-set, goes_on, At-unique, At}
use rm_vm.Kernel.Process.{Process}
use rm_vm.Kernel.Scheduler.{first, find_proc}
use rm_vm.Common.{
  ℕ, suc, ◌+◌, ◌≡◌, refl, ◌∙◌, subst, inl, inr, Bool, true, Option, none, some, List, [], ◌∷◌,
  arith, ℕ_discrete, Bool-cases, get_or, set, get_or-set_ne, All,
}

-- The process that is found has the property, and stands in the slot.
abbrev pub Match :
    (Process → Bool) → List (Option Process) → List (Option ℕ) → ℕ → Option (ℕ × ℕ) → Type 0
Match q heap slots i none = Unit
Match q heap slots i (some (k, a)) =
    (p : Process) × At heap a p
    × (q p ≡ true)
    × (j : ℕ) × (k ≡ i + j)
    × (get_or slots j none ≡ some a)

later :
    (q : Process → Bool) (heap : List (Option Process)) (slots : List (Option ℕ)) (i : ℕ)
    (o : Option ℕ) (r : Option (ℕ × ℕ))
    → Match q heap slots (i + 1) r
    → Match q heap (o ∷ slots) i r
later q heap slots i o none m = tt
later q heap slots i o (some (k, a)) (p, l, t, j, e, s) = (p, l, t, suc j, omega (arith, e), s)

pub find_proc-Match :
    (q : Process → Bool) (heap : List (Option Process)) (slots : List (Option ℕ)) (i : ℕ)
    → All (LiveSlot heap) slots
    → (r : Option (ℕ × ℕ)) × (find_proc q heap slots i ≡ some r) × Match q heap slots i r
unfolding find_proc
find_proc-Match q heap [] i h = (none, refl, tt)
find_proc-Match q heap (none ∷ slots) i h =
    let (r, e, m) = find_proc-Match q heap slots (i + 1) h.1 in
    (r, e, later q heap slots i none r m)
find_proc-Match q heap (some a ∷ slots) i ((p, l), h) =
    let (r, e, m) = find_proc-Match q heap slots (i + 1) h in
    elim (Bool-cases (q p)) [
      | inl t ↦ (some (i, a), rw (l, t, find_proc) refl, (p, l, t, 0, omega arith, refl))
      | inr t ↦ (r, rw (l, t, find_proc) e, later q heap slots i (some a) r m)
    ]

pub first-Match :
    (q : Process → Bool) (s : Sys)
    → LiveTable s
    → (r : Option (ℕ × ℕ)) × (first q s ≡ some (r, s)) × Match q s.heap s.scheduler.schedule 0 r
unfolding first
first-Match q s h =
    let (r, e, m) = find_proc-Match q s.heap s.scheduler.schedule 0 h in (r, goes_on _ e, m)

Same-refl : (p : Process) → Same p p
Same-refl p = record { pid = refl; entry = refl; parent = refl }

Same-trans : {p q r : Process} → Same p q → Same q r → Same p r
Same-trans h k = record {
  pid = k.pid ∙ h.pid;
  entry = k.entry ∙ h.entry;
  parent = k.parent ∙ h.parent;
}

-- What does not change of a process but by a loader.
abbrev pub Akin : Process → Process → Type 0
Akin p q = Same p q × (q.loaded ≡ p.loaded)

pub Akin-refl : (p : Process) → Akin p p
Akin-refl p = (Same-refl p, refl)

-- Every process is there after the run, and is the same in these fields.
abbrev pub Follows : List (Option Process) → List (Option Process) → Type 0
Follows s s' = (c : ℕ) (u : Process) → At s c u → (u' : Process) × At s' c u' × Akin u u'

pub Follows-trans :
    (s s' s'' : List (Option Process)) → Follows s s' → Follows s' s'' → Follows s s''
Follows-trans s s' s'' f k c u l =
    let (u1, l1, (s1, d1)) = f c u l in
    let (u2, l2, (s2, d2)) = k c u1 l1 in (u2, l2, (Same-trans s1 s2, d2 ∙ d1))

-- A process after a write to one that may be another.
pub put-look :
    (R : Process → Process → Type 0) (heap : List (Option Process)) (a : ℕ) (p p1 : Process) (b : ℕ)
    (q : Process)
    → ((p : Process) → R p p)
    → At heap a p
    → R p p1
    → At heap b q
    → (q1 : Process) × At (set heap a (some p1)) b q1 × R q q1
put-look R heap a p p1 b q id l k m = elim (ℕ_discrete a b) [
  | yes e ↦
      let same = At-unique heap a b p q l e m in
      (
        p1,
        subst (λ x. At (set heap a (some p1)) x p1) e (At-set heap a p p1 l),
        subst (λ q. R q p1) same k,
      )
  | no ne ↦ (q, get_or-set_ne heap a b (some p1) none ne ∙ m, id q)
]

pub put-Follows :
    (heap : List (Option Process)) (a : ℕ) (p q : Process)
    → At heap a p
    → Akin p q
    → Follows heap (set heap a (some q))
put-Follows heap a p q l k c u m = put-look Akin heap a p q c u Akin-refl l k m
