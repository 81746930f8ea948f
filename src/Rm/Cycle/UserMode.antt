-- ===== src/Rm/Cycle/UserMode.antt =====
-- A program in user mode under `execCycle` of src/rm/cpu.c, however long it runs.
use rm_vm.Rm.Cycle.Livelock.{handle_interrupts_lem}
use rm_vm.Rm.Execute.Bounds.{IsValid-keeps}
use rm_vm.Common.{
  ℕ, zero, suc, ◌+◌, ◌<◌, ◌≡◌, refl, ap, ◌∙◌, ◌≢◌, inl, inr, not, Option, none, some, arith, leb,
  ◌==◌, if◌then◌else◌, Bool-cases, drop,
}
use rm_vm.Rm.State.{
  si_none, supervisor_start, raise_timer_interrupt, Machine, IsValid, mode_user, tick_limit,
  si_halt,
}
use rm_vm.Rm.Execute.Protection.{Protected, Protected-trans}
use rm_vm.Rm.Cycle.{interrupted, handle_interrupts, run_until_interrupt, exec_one_cycle, tick}
use rm_vm.Rm.Cycle.Termination.{
  run_until_interrupt-Ends, exec_one_cycle-Protected, exec_one_cycle_lem, tick-Keeps,
}

tick-Protected : (t : ℕ) (m : Machine) → Protected m (tick t m).1
unfolding tick raise_timer_interrupt
tick-Protected t m = ground arith

abbrev Guarded : Machine → Option (ℕ × Machine) → Type 0
Guarded m none = Unit {0}
Guarded m (some (t, m')) = Protected m m'

Guarded-trans :
    {m n : Machine} (o : Option (ℕ × Machine)) → Protected m n → Guarded n o → Guarded m o
Guarded-trans none p g = tt
Guarded-trans (some (t, m')) p g = Protected-trans p g

run-Guarded :
    (fuel t : ℕ) {m : Machine}
    → IsValid m
    → m.cpu.mode ≡ mode_user
    → Guarded m (run_until_interrupt fuel t m)
unfolding run_until_interrupt
run-Guarded zero t h u = tt
run-Guarded (suc fuel) t {m} h u = elim (Bool-cases (interrupted m)) [
  | inl e ↦
      rw (e, run_until_interrupt)
        (record { same_mode = refl; same_cells = refl; same_si = inl refl })
  | inr e ↦
      rw (e, run_until_interrupt)
        (elim (Bool-cases (exec_one_cycle m).0) [
          | inr fault ↦ rw (fault, run_until_interrupt) p
          | inl done ↦
              rw (done, run_until_interrupt)
                (Guarded-trans _ q (run-Guarded fuel _ v (q.same_mode ∙ u)))
        ])
]
  where
    p : Protected m (exec_one_cycle m).1
    p = exec_one_cycle-Protected h u

    q : Protected m (tick t (exec_one_cycle m).1).1
    q = Protected-trans p (tick-Protected t (exec_one_cycle m).1)

    v : IsValid (tick t (exec_one_cycle m).1).1
    v = IsValid-keeps (tick-Keeps t (exec_one_cycle m).1) (exec_one_cycle_lem h).0

-- One round of the outer loop: the inner loop, then the interrupt handler.
pub data Round (t : ℕ) (m : Machine) : Machine → Type 0 where
  round :
      (t' : ℕ) (n m' : Machine)
      → run_until_interrupt (tick_limit + 1) t m ≡ some (t', n)
      → m' ≡ (handle_interrupts n).1
      → Round t m m'

-- The machines that any number of rounds reaches.
pub data Reach (m : Machine) : Machine → Type 0 where
  start : Reach m m
  later : {n o : Machine} (t : ℕ) → t < tick_limit → Reach m n → Round t n o → Reach m o

-- What a program in user mode cannot change by running: the mode, the supervisor cells, and that no
-- halt is requested.
pub record Confined (m m' : Machine) : Type 0 where
  pub valid : IsValid m'
  pub same_mode : m'.cpu.mode ≡ m.cpu.mode
  pub same_cells : drop supervisor_start m'.mem ≡ drop supervisor_start m.mem
  pub running : m'.cpu.si ≢ si_halt

handle-IsValid : {m : Machine} → IsValid m → IsValid (handle_interrupts m).1
handle-IsValid {m} h = let l = handle_interrupts_lem m in IsValid-keeps (l.4, l.5, l.3) h

Round-Confined :
    {t : ℕ} {m m' : Machine}
    → t < tick_limit
    → m.cpu.mode ≡ mode_user
    → Confined m m
    → Round t m m'
    → Confined m m'
Round-Confined {t} {m} ht u c (round t' n m' ran e) = rw e (record {
  valid = handle-IsValid v;
  same_mode = l.2 ∙ p.same_mode;
  same_cells = ap (drop supervisor_start) l.3 ∙ p.same_cells;
  running = ground (arith, l, p.same_si, c.running);
})
  where
    p : Protected m n
    p = rw ran at (run-Guarded (tick_limit + 1) t c.valid u)

    v : IsValid n
    v = (rw ran at (run_until_interrupt-Ends (tick_limit + 1) t ht (omega arith) c.valid)).2

    l :
        ((handle_interrupts n).0 ≡ not (n.cpu.si == si_halt))
        × ((handle_interrupts n).1.cpu.si ≡ (if leb si_halt n.cpu.si then n.cpu.si else si_none))
        × ((handle_interrupts n).1.cpu.mode ≡ n.cpu.mode)
        × ((handle_interrupts n).1.mem ≡ n.mem)
        × ((handle_interrupts n).1.cpu.r ≡ n.cpu.r)
        × ((handle_interrupts n).1.cpu.ic ≡ n.cpu.ic)
        × ((handle_interrupts n).1.cpu.pi ≡ (if n.cpu.si == si_halt then n.cpu.pi else 0))
        × ((handle_interrupts n).1.cpu.ti ≡ (if n.cpu.si == si_halt then n.cpu.ti else 0))
    l = handle_interrupts_lem n

-- From a valid machine in user mode with no halt requested, any number of rounds of `execCycle` leaves
-- the mode and every supervisor cell as they were, the machine valid and no halt requested.
pub Reach-Confined :
    {m m' : Machine}
    → IsValid m
    → m.cpu.mode ≡ mode_user
    → m.cpu.si ≢ si_halt
    → Reach m m'
    → Confined m m'
Reach-Confined h u s start = record { valid = h; same_mode = refl; same_cells = refl; running = s }
Reach-Confined h u s (later t ht r st) =
    let c = Reach-Confined h u s r in
    let d =
      Round-Confined ht (c.same_mode ∙ u)
        (record { valid = c.valid; same_mode = refl; same_cells = refl; running = c.running }) st in
    record {
      valid = d.valid;
      same_mode = d.same_mode ∙ c.same_mode;
      same_cells = d.same_cells ∙ c.same_cells;
      running = d.running;
    }
