-- ===== src/Kernel/Jobs/Search.antt =====
-- The search of `loaderEntry` and of `unblockProcess` for a process that is the only one with its pid.
use rm_vm.Kernel.Scheduler.Search.{Skips, find_proc-cases, LiveSlot}
use rm_vm.Kernel.Invariant.Find.{Match, find_proc-Match}
use rm_vm.Kernel.System.Safe.{set-Alive, All-Alive, LiveTable}
use rm_vm.Kernel.Invariant.Heap.{At-set-cases}
use rm_vm.Kernel.System.Steps.{goes_on, some-injective, At-unique, At}
use rm_vm.Kernel.System.{Sys}
use rm_vm.Kernel.Process.{has_pid, Process}
use rm_vm.Kernel.Scheduler.{first}
use rm_vm.Common.{
  ℕ, ◌≡◌, refl, sym, ap, ◌∙◌, subst, inl, inr, Option, none, some, List, arith, ==→eq, get_or, set,
  All, All-get_or,
}

-- `b` points to the one process with pid `n`.
abbrev pub Only : List (Option Process) → ℕ → ℕ → Type 0
Only heap b n = (c : ℕ) (u : Process) → At heap c u → u.pid ≡ n → c ≡ b

pub set-Only :
    (heap : List (Option Process)) (a : ℕ) (p p' : Process) (b n : ℕ)
    → At heap a p
    → p'.pid ≡ p.pid
    → Only heap b n
    → Only (set heap a (some p')) b n
set-Only heap a p p' b n l same only c u m e = elim (At-set-cases heap a p p' c u l m) [
  | inl (ac, f) ↦ sym ac ∙ only a p l (sym same ∙ ap (λ p. p.pid) f ∙ e)
  | inr (_, m') ↦ only c u m' e
]

pub set-LiveTable :
    (s s' : Sys) (a : ℕ) (p p' : Process)
    → At s.heap a p
    → s'.scheduler ≡ s.scheduler
    → s'.heap ≡ set s.heap a (some p')
    → LiveTable s
    → LiveTable s'
set-LiveTable s s' a p p' l sch e h =
    subst (λ t. All (LiveSlot s'.heap) t.schedule) (sym sch)
      (subst (λ x. All (LiveSlot x) s.scheduler.schedule) (sym e)
        (All-Alive s.heap (set s.heap a (some p')) s.scheduler.schedule
          (λ b m. set-Alive s.heap a p p' b l m) h))

-- A process in the table is found by its pid if no other has it.
pub first-Only :
    (s : Sys) (i b : ℕ) (q : Process) (n : ℕ)
    → LiveTable s
    → get_or s.scheduler.schedule i none ≡ some b
    → At s.heap b q
    → q.pid ≡ n
    → Only s.heap b n
    → (k : ℕ) × (first (has_pid n) s ≡ some (some (k, b), s))
unfolding first has_pid
first-Only s i b q n h slot at same only =
    let (r, e', m) = find_proc-Match (has_pid n) s.heap s.scheduler.schedule 0 h in
    elim (find_proc-cases (has_pid n) s.heap s.scheduler.schedule 0 h) [
      | inl (all, e) ↦
          let (u, mu, other) =
            subst (Skips (has_pid n) s.heap) slot
              (All-get_or (Skips (has_pid n) s.heap) s.scheduler.schedule i none all tt) in
          let is : u.pid ≡ n = ap (λ p. p.pid) (At-unique s.heap b b u q mu refl at) ∙ same in
          absurd (ground (arith, other, is))
      | inr (_, k, c, e) ↦
          let found = some-injective r (some (k, c)) (sym e' ∙ e) in
          let (u, mu, t, _, _, _) =
            subst (Match (has_pid n) s.heap s.scheduler.schedule 0) found m in
          let is : c ≡ b = only c u mu (==→eq u.pid n t) in
          (k, goes_on _ e ∙ ap (λ c. some (some (k, c), s)) is)
    ]
