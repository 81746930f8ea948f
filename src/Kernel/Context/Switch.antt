-- ===== src/Kernel/Context/Switch.antt =====
-- `contextSwitch` of src/kernel/context_switcher.c: whom it saves and whom it runs.
use rm_vm.Kernel.Context.Pick.{Live, CanRun, in_slot, pick-Picked}
use rm_vm.Kernel.Scheduler.Table.{IsTable}
use rm_vm.Common.{
  ℕ, ◌+◌, ◌-◌, ◌≡◌, refl, sym, ap, ◌∙◌, subst, inl, inr, Option, none, some, List, arith,
  ℕ_discrete, if◌then◌else◌, Bool-cases, get_or, set, get_or-set_ne,
}
use rm_vm.Kernel.Process.{Process, ProcState, has_state}
use rm_vm.Kernel.System.{Sys}
use rm_vm.Kernel.System.Safe.{CurrentLive}
use rm_vm.Kernel.System.Steps.{At, At-set, load-At, update-At, goes_on}
use rm_vm.Kernel.Scheduler.Search.{Found}
use rm_vm.Kernel.Context.{
  save_if_running, pick_next, save_if_running, load_picked, save_context, load_context,
  context_switch, context_of, cpu_of,
}

-- What `contextSwitch` saves: the processor, into the current process if that is running.
abbrev pub Saved : Option ℕ → Sys → Sys → Type 0
Saved none s s1 = s1 ≡ s
Saved (some a) s s1 =
    (p : Process) × At s.heap a p
    × (s1 ≡ (
        if has_state ProcState.running p
        then record s {
          heap =
              set s.heap a
                (some (record p { context = context_of s.machine.cpu; state = ProcState.ready }));
        }
        else s))

-- The state in which process `a` runs.
abbrev pub loaded_state : Sys → ℕ → Process → Sys
loaded_state s a p = record s {
  heap = set s.heap a (some (record p { state = ProcState.running }));
  machine = record (s.machine) { cpu = cpu_of p.context };
  scheduler = record (s.scheduler) { current = some a };
}

-- What it runs: the process in the slot that is found, if one is.
abbrev pub Loaded : Sys → Option ℕ → Sys → Type 0
Loaded s1 none s2 = s2 ≡ s1
Loaded s1 (some k) s2 =
    (a : ℕ) × (p : Process) × (get_or s1.scheduler.schedule k none ≡ some a)
    × At s1.heap a p
    × (s2 ≡ loaded_state s1 a p)

pub save_context-At :
    (s : Sys) (a : ℕ) (p : Process)
    → At s.heap a p
    → save_context a s
      ≡ some (
        tt,
        record s {
          heap =
              set s.heap a
                (some (record p { context = context_of s.machine.cpu; state = ProcState.ready }));
        },
      )
unfolding save_context
save_context-At s a p l =
    update-At a (λ p. record p { context = context_of s.machine.cpu; state = ProcState.ready }) s p
      l

load_context-At :
    (s : Sys) (a : ℕ) (p : Process)
    → At s.heap a p
    → load_context a s
      ≡ some (
        tt,
        record s {
          heap = set s.heap a (some (record p { state = ProcState.running }));
          machine = record (s.machine) { cpu = cpu_of p.context };
        },
      )
unfolding load_context
load_context-At s a p l =
    goes_on _ (load-At a s p l)
    ∙ update-At a (λ p. record p { state = ProcState.running })
        (record s { machine = record (s.machine) { cpu = cpu_of p.context } }) p l

-- The heap after a write to a live process: what was live is live.
set-Live :
    (heap : List (Option Process)) (schedule : List (Option ℕ)) (a : ℕ) (p q : Process)
    → At heap a p
    → Live heap schedule
    → Live (set heap a (some q)) schedule
set-Live heap schedule a p q l h j b e = elim (ℕ_discrete a b) [
  | yes same ↦ (q, subst (λ x. At (set heap a (some q)) x q) same (At-set heap a p q l))
  | no other ↦ let (p', l') = h j b e in (p', get_or-set_ne heap a b (some q) none other ∙ l')
]

save_if_running_lem :
    (current : Option ℕ) (s : Sys)
    → CurrentLive current s.heap
    → Live s.heap s.scheduler.schedule
    → (s1 : Sys) × (save_if_running current s ≡ some (tt, s1))
      × Saved current s s1
      × (s1.scheduler ≡ s.scheduler)
      × Live s1.heap s1.scheduler.schedule
unfolding save_if_running
save_if_running_lem none s c h = (s, refl, refl, refl, h)
save_if_running_lem (some a) s (p, l) h = elim (Bool-cases (has_state ProcState.running p)) [
  | inl e ↦
      let q = record p { context = context_of s.machine.cpu; state = ProcState.ready } in
      (
        record s { heap = set s.heap a (some q) },
        goes_on _ (load-At a s p l) ∙ rw e (save_context-At s a p l),
        (p, l, rw e refl),
        refl,
        set-Live s.heap s.scheduler.schedule a p q l h,
      )
  | inr e ↦ (s, goes_on _ (load-At a s p l) ∙ rw e refl, (p, l, rw e refl), refl, h)
]

-- The search starts at the bottom of the window.
pick_next_lem :
    (s : Sys)
    → IsTable s.scheduler
    → Live s.heap s.scheduler.schedule
    → (o : Option ℕ) × Found
        (CanRun s.heap s.scheduler.schedule)
        s.scheduler.prio_min
        s.scheduler.prio_max
        o
      × (pick_next s ≡ some (in_slot s.scheduler.schedule o, s))
unfolding pick_next
pick_next_lem s t h =
    let sch = s.scheduler in
    let (o, f, e) =
      pick-Picked (sch.prio_max + 1 - sch.prio_min) sch.prio_max (sch.prio_min - 1) s.heap
        sch.schedule (omega (arith, t.bottom, t.ordered)) h in
    (
      o,
      subst (λ lo. Found (CanRun s.heap sch.schedule) lo sch.prio_max o) (omega (arith, t.bottom))
          f,
      goes_on _ e,
    )

load_picked_lem :
    (s : Sys) (lo hi : ℕ) (o : Option ℕ)
    → Found (CanRun s.heap s.scheduler.schedule) lo hi o
    → (s2 : Sys) × Loaded s o s2 × (load_picked (in_slot s.scheduler.schedule o) s ≡ some (tt, s2))
unfolding load_picked
load_picked_lem s lo hi none f = (s, refl, refl)
load_picked_lem s lo hi (some k) (_, _, (a, p, e, l, _), _) = (
  loaded_state s a p,
  (a, p, e, l, refl),
  ap (λ x. load_picked x s) e ∙ goes_on _ (load_context-At s a p l),
)

-- `contextSwitch` with a table in which every pointer is live. It saves the processor into the current
-- process if that is running, which is then ready; then it runs the process in the highest slot with a
-- process that is ready and has a Virtual Machine, the one just saved included, or changes nothing if
-- there is none.
pub context_switch_lem :
    (s : Sys)
    → IsTable s.scheduler
    → CurrentLive s.scheduler.current s.heap
    → Live s.heap s.scheduler.schedule
    → (s1 : Sys) × (s2 : Sys) × (o : Option ℕ) × Saved s.scheduler.current s s1
      × (s1.scheduler ≡ s.scheduler)
      × Found (CanRun s1.heap s1.scheduler.schedule) s1.scheduler.prio_min s1.scheduler.prio_max o
      × Loaded s1 o s2
      × (context_switch s ≡ some (tt, s2))
unfolding context_switch
context_switch_lem s t c h =
    let (s1, e, v, same, live) = save_if_running_lem s.scheduler.current s c h in
    let (o, f, r) = pick_next_lem s1 (subst IsTable (sym same) t) live in
    let (s2, l, q) = load_picked_lem s1 s1.scheduler.prio_min s1.scheduler.prio_max o f in
    (s1, s2, o, v, same, f, l, goes_on _ e ∙ goes_on _ r ∙ q)
