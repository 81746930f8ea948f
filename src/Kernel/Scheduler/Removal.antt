-- ===== src/Kernel/Scheduler/Removal.antt =====
-- src/kernel/scheduler.c: `removeProcP` after `addProc`.
use rm_vm.Kernel.Scheduler.Table.{place_lem, Placed, Chosen, IsTable}
use rm_vm.Kernel.Scheduler.Search.{find_proc_misses, find_proc-set, Skips, Free}
use rm_vm.Common.{
  ℕ, zero, suc, ◌+◌, ◌<◌, ◌≡◌, refl, sym, ap, ◌∙◌, subst, ◌≢◌, inl, inr, Bool, true, false, Option,
  none, some, List, [], ◌∷◌, arith, ◌==◌, if◌then◌else◌, Bool-cases, length, set, All, u8,
}
use rm_vm.Kernel.Process.{has_pid, Process}
use rm_vm.Kernel.System.{Scheduler, Sys}
use rm_vm.Kernel.System.Steps.{free-At, goes_on, At, At-set, load-At, update-At}
use rm_vm.Kernel.Scheduler.{find_proc, first, remove_proc_p, place, add_proc}

-- The pid that `addProc` gives, the process with it, and the state before the process is placed.
abbrev pub next_pid : Sys → ℕ
next_pid s = u8 (s.scheduler.pid + 1)

abbrev pub numbered : Sys → ℕ → Process → Sys
numbered s a p = record s {
  heap = set s.heap a (some (record p { pid = next_pid s }));
  scheduler = record (s.scheduler) { pid = next_pid s };
}

pub add_proc-At :
    (s : Sys) (a : ℕ) (p : Process)
    → At s.heap a p
    → let (done, sch) = place (numbered s a p).scheduler p.sys_proc a in
      add_proc a s ≡ some (done, record (numbered s a p) { scheduler = sch })
unfolding add_proc
add_proc-At s a p h =
    goes_on _ (
      update-At a (λ p. record p { pid = next_pid s })
        (record s { scheduler = record (s.scheduler) { pid = next_pid s } }) p h)
    ∙ goes_on _ (
        load-At a (numbered s a p) (record p { pid = next_pid s })
          (At-set s.heap a p (record p { pid = next_pid s }) h))

-- `first` finds a process that was put into an empty slot, if no other has the property.
first-set :
    (q : Process → Bool) (s : Sys) (slots : List (Option ℕ)) (k a : ℕ) (p : Process)
    → s.scheduler.schedule ≡ set slots k (some a)
    → All (Skips q s.heap) slots
    → k < length slots
    → Free slots k
    → At s.heap a p
    → q p ≡ true
    → first q s ≡ some (some (k, a), s)
unfolding first
first-set q s slots k a p e hs hk hf l eq = goes_on _ (
    ap (λ xs. find_proc q s.heap xs 0) e
    ∙ find_proc-set q s.heap slots 0 k a p hs hk hf l eq
    ∙ ap (λ n. some (some (n, a))) (omega arith))

-- The slot is empty again, and everything else of the table as it was.
set_back :
    (slots : List (Option ℕ)) (k a : ℕ) → Free slots k → set (set slots k (some a)) k none ≡ slots
set_back [] k a f = refl
set_back (x ∷ slots) zero a f = ap (λ y. y ∷ slots) (sym f)
set_back (x ∷ slots) (suc k) a f = ap (λ ys. x ∷ ys) (set_back slots k a f)

-- The slot emptied, as `removeProcP` does before it frees the process.
abbrev emptied : Sys → ℕ → Sys
emptied s k = record s {
  scheduler = record (s.scheduler) { schedule = set s.scheduler.schedule k none };
}

remove-set :
    (s : Sys) (slots : List (Option ℕ)) (k a n : ℕ) (p : Process)
    → s.scheduler.schedule ≡ set slots k (some a)
    → All (Skips (has_pid n) s.heap) slots
    → k < length slots
    → Free slots k
    → At s.heap a p
    → p.pid ≡ n
    → n ≢ 0
    → remove_proc_p n s
      ≡ some (
        true,
        record s {
          heap = set s.heap a none;
          scheduler = record (s.scheduler) { schedule = slots };
        },
      )
unfolding remove_proc_p has_pid
remove-set s slots k a n p e hs hk hf l ep nz =
    rw (not_zero, remove_proc_p)
      (goes_on _ (first-set (has_pid n) s slots k a p e hs hk hf l same)
        ∙ goes_on _ (free-At a (emptied s k) p l)
        ∙ ap
            (λ xs. some (
              true,
              record s {
                heap = set s.heap a none;
                scheduler = record (s.scheduler) { schedule = xs };
              },
            ))
            (ap (λ xs. set xs k none) e ∙ set_back slots k a hf))
  where
    not_zero : (n == 0) ≡ false
    not_zero = ground (arith, nz)

    same : has_pid n p ≡ true
    same = ground (arith, ep)

-- Where no process has the pid nothing is removed.
remove_none :
    (n : ℕ) (s : Sys)
    → All (Skips (has_pid n) s.heap) s.scheduler.schedule
    → remove_proc_p n s ≡ some (false, s)
unfolding remove_proc_p first
remove_none n s hs = elim (Bool-cases (n == 0)) [
  | inl e ↦ rw (e, remove_proc_p) refl
  | inr e ↦
      rw (e, remove_proc_p)
        (goes_on _ (goes_on _ (find_proc_misses (has_pid n) s.heap s.scheduler.schedule 0 hs)))
]

-- The slot that `addProc` chooses lies in the table.
pub Chosen-lt :
    (sch : Scheduler) (sys_proc : Bool) (k : ℕ)
    → IsTable sch
    → Chosen sch sys_proc (some k)
    → k < 100
Chosen-lt sch true k t f = omega (arith, f.1, t.top_high)
Chosen-lt sch false k t f = omega (arith, f.1)

-- What the removal of the pid leaves of a state: the table before, and the process freed or not.
pub record Undone (s : Sys) (a : ℕ) (p : Process) (done : Bool) (s' : Sys) : Type 0 where
  pub table : s'.scheduler.schedule ≡ s.scheduler.schedule
  pub heap : s'.heap ≡ (if done then set (numbered s a p).heap a none else (numbered s a p).heap)

-- The state after the removal of a process that was placed.
abbrev after_undo : Sys → ℕ → Process → Scheduler → Sys
after_undo s a p sch = record s {
  heap = set (numbered s a p).heap a none;
  scheduler = record sch { schedule = s.scheduler.schedule };
}

undo :
    (s : Sys) (a : ℕ) (p : Process) (o : Option ℕ) (r : Bool × Scheduler)
    → IsTable s.scheduler
    → At s.heap a p
    → next_pid s ≢ 0
    → All (Skips (has_pid (next_pid s)) (numbered s a p).heap) s.scheduler.schedule
    → Chosen (numbered s a p).scheduler p.sys_proc o
    → Placed (numbered s a p).scheduler a o r
    → (s' : Sys) × (remove_proc_p (next_pid s) (record (numbered s a p) { scheduler = r.1 })
        ≡ some (r.0, s'))
      × Undone s a p r.0 s'
undo s a p none (done, sch) t l nz hs f (d, e) = (
  record (numbered s a p) { scheduler = sch },
  remove_none (next_pid s) (record (numbered s a p) { scheduler = sch })
        (subst (λ x. All (Skips (has_pid (next_pid s)) (numbered s a p).heap) x.schedule) (sym e)
          hs)
      ∙ ap (λ b. some (b, record (numbered s a p) { scheduler = sch })) (sym d),
  record { table = ap (λ x. x.schedule) e; heap = rw d refl },
)
undo s a p (some k) (done, sch) t l nz hs f (d, e) = (
  after_undo s a p sch,
  remove-set (record (numbered s a p) { scheduler = sch }) s.scheduler.schedule k a (next_pid s)
        (record p { pid = next_pid s }) e hs
        (omega (
          arith,
          t.size,
          Chosen-lt (numbered s a p).scheduler p.sys_proc k
              (record {
                size = t.size;
                top_low = t.top_low;
                top_high = t.top_high;
                bottom = t.bottom;
                ordered = t.ordered;
                window = t.window;
              })
              f,
        ))
        f.2 (At-set s.heap a p (record p { pid = next_pid s }) l) refl nz
      ∙ ap (λ b. some (b, after_undo s a p sch)) (sym d),
  record { table = refl; heap = rw d refl },
)

-- Where no process in the table has the pid that `addProc` gives, and that is not 0, `removeProcP` of
-- the pid succeeds exactly if `addProc` did; the table is then the one before, and the process that was
-- placed is freed.
pub remove_proc_p-add_proc :
    (s : Sys) (a : ℕ) (p : Process)
    → IsTable s.scheduler
    → At s.heap a p
    → next_pid s ≢ 0
    → All (Skips (has_pid (next_pid s)) (numbered s a p).heap) s.scheduler.schedule
    → (done : Bool) × (s1 : Sys) × (s2 : Sys) × (add_proc a s ≡ some (done, s1))
      × (remove_proc_p (next_pid s) s1 ≡ some (done, s2))
      × Undone s a p done s2
remove_proc_p-add_proc s a p t l nz hs =
    let sch = (numbered s a p).scheduler in
    let (o, f, q, _) = place_lem {sch = sch} p.sys_proc a (record {
      size = t.size;
      top_low = t.top_low;
      top_high = t.top_high;
      bottom = t.bottom;
      ordered = t.ordered;
      window = t.window;
    }) in
    let (s2, r, u) = undo s a p o (place sch p.sys_proc a) t l nz hs f q in
    (
      (place sch p.sys_proc a).0,
      record (numbered s a p) { scheduler = (place sch p.sys_proc a).1 },
      s2,
      add_proc-At s a p l,
      r,
      u,
    )
