-- ===== src/Kernel/System/Safe.antt =====
-- The functions of src/kernel that free no process: they run to their end where the pointers are live.
use rm_vm.Common.{
  ℕ, ◌+◌, ◌≡◌, refl, sym, ap, ◌∙◌, subst, inl, inr, Bool, Option, none, some, List, [], ◌∷◌,
  ℕ_discrete, Bool-cases, set, get_or-set_ne, All,
}
use rm_vm.Kernel.Process.{Process}
use rm_vm.Kernel.System.{Scheduler, Sys, M, pure, ◌>>=◌, update, load}
use rm_vm.Kernel.System.Steps.{At, At-set, load-At, update-At, goes_on}
use rm_vm.Kernel.Scheduler.{find_proc}
use rm_vm.Kernel.Scheduler.Search.{LiveSlot}

abbrev pub Alive : List (Option Process) → ℕ → Type 0
Alive heap a = (p : Process) × At heap a p

-- The current process is live if there is one.
abbrev pub CurrentLive : Option ℕ → List (Option Process) → Type 0
CurrentLive none heap = Unit
CurrentLive (some a) heap = Alive heap a

abbrev pub with_current : Option ℕ → Scheduler → Scheduler
with_current c t = record t { current = c }

-- What such a function leaves alone: the machine, the table with its bounds, and the life of every process.
pub record Step (s s' : Sys) : Type 0 where
  pub machine : s'.machine ≡ s.machine
  pub table : s'.scheduler ≡ with_current s'.scheduler.current s.scheduler
  pub alive : (a : ℕ) → Alive s.heap a → Alive s'.heap a
  pub current : CurrentLive s.scheduler.current s.heap → CurrentLive s'.scheduler.current s'.heap

pub current-Alive :
    (c : Option ℕ) (heap heap' : List (Option Process))
    → ((a : ℕ) → Alive heap a → Alive heap' a)
    → CurrentLive c heap
    → CurrentLive c heap'
current-Alive none heap heap' k h = tt
current-Alive (some a) heap heap' k h = k a h

pub Step-refl : (s : Sys) → Step s s
Step-refl s = record { machine = refl; table = refl; alive = λ a l. l; current = λ c. c }

pub Step-trans : {s s' s'' : Sys} → Step s s' → Step s' s'' → Step s s''
Step-trans {s} {s'} {s''} h k = record {
  machine = k.machine ∙ h.machine;
  table = k.table ∙ ap (with_current s''.scheduler.current) h.table;
  alive = λ a l. k.alive a (h.alive a l);
  current = λ c. k.current (h.current c);
}

-- A run that ends, after such a step.
abbrev pub Runs : {A : Type 0} → M A → Sys → Type 0
Runs {A} m s = (a : A) × (s' : Sys) × (m s ≡ some (a, s')) × Step s s'

pub Runs->>= :
    {A B : Type 0} (m : M A) (f : A → M B) (s : Sys)
    → Runs m s
    → ((a : A) (s' : Sys) → Step s s' → Runs (f a) s')
    → Runs (m >>= f) s
Runs->>= m f s (a, s', e, h) k =
    let (b, s'', e', h') = k a s' h in (b, s'', goes_on _ e ∙ e', Step-trans h h')

pub Runs-pure : {A : Type 0} (a : A) (s : Sys) → Runs (pure a) s
Runs-pure a s = (a, s, refl, Step-refl s)

abbrev pub LiveTable : Sys → Type 0
LiveTable s = All (LiveSlot s.heap) s.scheduler.schedule

pub All-Alive :
    (heap heap' : List (Option Process)) (slots : List (Option ℕ))
    → ((a : ℕ) → Alive heap a → Alive heap' a)
    → All (LiveSlot heap) slots
    → All (LiveSlot heap') slots
All-Alive heap heap' [] k h = tt
All-Alive heap heap' (none ∷ slots) k h = (tt, All-Alive heap heap' slots k h.1)
All-Alive heap heap' (some a ∷ slots) k h = (k a h.0, All-Alive heap heap' slots k h.1)

pub Step-LiveTable : (s s' : Sys) → Step s s' → LiveTable s → LiveTable s'
Step-LiveTable s s' h t =
    subst (λ t. All (LiveSlot s'.heap) t.schedule) (sym h.table)
      (All-Alive s.heap s'.heap s.scheduler.schedule h.alive t)

pub set-Alive :
    (heap : List (Option Process)) (a : ℕ) (p q : Process) (b : ℕ)
    → At heap a p
    → Alive heap b
    → Alive (set heap a (some q)) b
set-Alive heap a p q b l (p', l') = elim (ℕ_discrete a b) [
  | yes e ↦ (q, subst (λ x. At (set heap a (some q)) x q) e (At-set heap a p q l))
  | no ne ↦ (p', get_or-set_ne heap a b (some q) none ne ∙ l')
]

pub Runs-load : (a : ℕ) (s : Sys) → Alive s.heap a → Runs (load a) s
Runs-load a s (p, l) = (p, s, load-At a s p l, Step-refl s)

pub Runs-update : (a : ℕ) (f : Process → Process) (s : Sys) → Alive s.heap a → Runs (update a f) s
Runs-update a f s (p, l) =
    let keeps : (b : ℕ) → Alive s.heap b → Alive (set s.heap a (some (f p))) b =
      λ b m. set-Alive s.heap a p (f p) b l m in
    (
      tt,
      record s { heap = set s.heap a (some (f p)) },
      update-At a f s p l,
      record {
        machine = refl;
        table = refl;
        alive = keeps;
        current = current-Alive s.scheduler.current s.heap (set s.heap a (some (f p))) keeps;
      },
    )

-- A search up the table: what it finds is alive.
abbrev pub Finds : (Process → Bool) → List (Option Process) → Option (ℕ × ℕ) → Type 0
Finds q heap none = Unit
Finds q heap (some (k, a)) = Alive heap a

pub find_proc-Finds :
    (q : Process → Bool) (heap : List (Option Process)) (slots : List (Option ℕ)) (i : ℕ)
    → All (LiveSlot heap) slots
    → (r : Option (ℕ × ℕ)) × (find_proc q heap slots i ≡ some r) × Finds q heap r
unfolding find_proc
find_proc-Finds q heap [] i h = (none, refl, tt)
find_proc-Finds q heap (none ∷ slots) i h = find_proc-Finds q heap slots (i + 1) h.1
find_proc-Finds q heap (some a ∷ slots) i ((p, l), h) =
    let (r, e, f) = find_proc-Finds q heap slots (i + 1) h in
    elim (Bool-cases (q p)) [
      | inl t ↦ (some (i, a), rw (l, t, find_proc) refl, (p, l))
      | inr t ↦ (r, rw (l, t, find_proc) e, f)
    ]
