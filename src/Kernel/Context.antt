-- ===== src/Kernel/Context.antt =====
-- src/kernel/context_switcher.c
pub mod Pick
pub mod Switch
pub mod Sound
use rm_vm.Common.{ℕ, zero, suc, ◌+◌, ◌-◌, ◌&&◌, Option, none, some, List, if◌then◌else◌, get_or}
use rm_vm.Rm.State.{Cpu}
use rm_vm.Kernel.Process.{Process, CpuContext, ProcState, has_state, has_vm}
use rm_vm.Kernel.System.{M, pure, ◌>>=◌, ◌>>◌, gets, modify, load, update, set_current}

-- The copies of `saveContext` and `loadContext`, between `realCPU` and a process.
unfoldable pub context_of : Cpu → CpuContext
context_of cpu = record {
  ic = cpu.ic;
  r = cpu.r;
  sf = cpu.sf;
  mode = cpu.mode;
  ptr = cpu.ptr;
  pi = cpu.pi;
  si = cpu.si;
  ti = cpu.ti;
}

unfoldable pub cpu_of : CpuContext → Cpu
cpu_of ctx = record {
  ic = ctx.ic;
  r = ctx.r;
  sf = ctx.sf;
  mode = ctx.mode;
  pi = ctx.pi;
  si = ctx.si;
  ti = ctx.ti;
  ptr = ctx.ptr;
}

unfoldable pub save_context : ℕ → M (Unit {0})
save_context a = do
  cpu ← gets (λ s. s.machine.cpu)
  update a (λ p. record p { context = context_of cpu; state = ProcState.ready })

unfoldable pub load_context : ℕ → M (Unit {0})
load_context a = do
  p ← load a
  modify (λ s. record s { machine = record (s.machine) { cpu = cpu_of p.context } })
  update a (λ p. record p { state = ProcState.running })

-- The loop of `contextSwitch` over `n` slots from `i` down: the outer `none` is the use of a freed
-- process.
unfoldable pub pick : ℕ → ℕ → List (Option Process) → List (Option ℕ) → Option (Option ℕ)
pick zero i heap schedule = some none
pick (suc n) i heap schedule =
    let rest = pick n (i - 1) heap schedule in
    elim (get_or schedule i none) [
      | none ↦ rest
      | some a ↦ elim (get_or heap a none) [
        | none ↦ none
        | some p ↦ if has_state ProcState.ready p && has_vm p then some (some a) else rest
      ]
    ]

-- The first part of `contextSwitch`, for the current process.
unfoldable pub save_if_running : Option ℕ → M (Unit {0})
save_if_running none = pure tt
save_if_running (some a) = do
  p ← load a
  if has_state ProcState.running p then save_context a else pure tt

-- The last part, for the process that is picked.
unfoldable pub load_picked : Option ℕ → M (Unit {0})
load_picked none = pure tt
load_picked (some a) = do load_context a; set_current (some a)

unfoldable pub pick_next : M (Option ℕ)
pick_next s =
    let sch = s.scheduler in
    elim (pick (sch.prio_max + 1 - sch.prio_min) sch.prio_max s.heap sch.schedule) [
      | none ↦ none
      | some r ↦ some (r, s)
    ]

unfoldable pub context_switch : M (Unit {0})
context_switch = do
  current ← gets (λ s. s.scheduler.current)
  save_if_running current
  next ← pick_next
  load_picked next
