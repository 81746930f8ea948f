-- ===== src/Kernel/Cycle.antt =====
-- src/kernel/scheduler.c: the cycles, which run the processes. The log lines are left out.
use rm_vm.Common.{
  ℕ, zero, suc, ◌+◌, ◌-◌, Bool, true, false, not, ◌&&◌, Option, none, some, ltb, leb, ◌==◌,
  if◌then◌else◌, get_or, u16,
}
use rm_vm.Vm.State.{VirtualMachine}
use rm_vm.Vm.Cpu.{Status}
use rm_vm.Kernel.Process.{Process, ProcState, Entry, EntryResult, has_state, has_vm}
use rm_vm.Kernel.System.{
  M, pure, ◌>>=◌, ◌>>◌, gets, modify, when, load, update, set_state, set_current,
}
use rm_vm.Kernel.Swapper.{swap_in_vm, swap_out_vm}
use rm_vm.Kernel.Scheduler.{remove_proc_p, request, release}
use rm_vm.Kernel.Context.{save_context, load_context}
use rm_vm.Kernel.IoHandler.{enqueue_io_request, io_handler_entry}
use rm_vm.Kernel.Interrupts.{interrupt_handler_entry}
use rm_vm.Kernel.Jobs.{
  set_vm, operate, loader_entry, job_governor_entry, start_stop_entry, idle_entry,
}

-- `next->entry(next, sch, kernel, next->fileId)`; `kernel` tells whether the pointer is not null.
unfoldable pub call_entry : Bool → Entry → ℕ → ℕ → M EntryResult
call_entry kernel Entry.start_stop_entry a file_id = start_stop_entry kernel
call_entry kernel Entry.idle_entry a file_id = idle_entry
call_entry kernel Entry.interrupt_handler_entry a file_id =
    if kernel then interrupt_handler_entry else pure EntryResult.keeps
call_entry kernel Entry.io_handler_entry a file_id = io_handler_entry
call_entry kernel Entry.job_governor_entry a file_id = job_governor_entry a file_id
call_entry kernel Entry.loader_entry a file_id = loader_entry a file_id

-- `removeProcP(sch, next->pid)`
unfoldable pub remove_self : ℕ → M (Unit {0})
remove_self a = do p ← load a; _ ← remove_proc_p p.pid; pure tt

-- `if (sch->current && sch->current != next) saveContext(sch->current)`
unfoldable pub save_other : ℕ → M (Unit {0})
save_other a = do
  current ← gets (λ s. s.scheduler.current)
  elim current [ none ↦ pure tt | some c ↦ if c == a then pure tt else save_context c ]

-- `if (kernel && kernel->current == next) kernel->current = NULL`
unfoldable pub clear_running : Bool → ℕ → M (Unit {0})
clear_running kernel a = when kernel (
    modify (λ s. record s {
      kernel = record (s.kernel) {
        running = elim s.kernel.running [ none ↦ none | some c ↦ if c == a then none else some c ];
      };
    }))

-- What follows the call of an entry in `runRange`.
unfoldable pub end_entry : ℕ → EntryResult → M (Unit {0})
end_entry a EntryResult.finished = remove_self a >> set_current none
end_entry a EntryResult.waits = set_state a ProcState.blocked >> set_current none
end_entry a EntryResult.keeps = set_state a ProcState.ready >> set_current none

-- The swapping in of `runRange`: whether the machine is in memory, and the machine.
unfoldable pub bring_in : ℕ → Process → VirtualMachine → M (Option VirtualMachine)
bring_in a p vm =
    if p.swapped
    then (do
      got ← gets (λ s. swap_in_vm s.disk vm p.swap_slot)
      modify (λ s. record s { disk = got.1 })
      set_vm a (some got.2)
      if got.0
          then (update a (λ p. record p { swapped = false }) >> pure (some got.2))
          else (set_state a ProcState.susp_blocked >> pure none))
    else pure (some vm)

-- The swapping out of `runRange`, for a request that is queued.
unfoldable pub put_out : ℕ → Process → M (Unit {0})
put_out a p = elim p.vm [
  | none ↦ pure tt
  | some vm ↦ if p.swapped then pure tt else (do
    out ← gets (λ s. swap_out_vm s.disk vm p.swap_slot)
    modify (λ s. record s { disk = out.1 })
    when out.0 (update a (λ p. record p { swapped = true })))
]

-- What follows `runOperations` in `runRange`, up to the release of the memory.
unfoldable pub end_operations : ℕ → Status × VirtualMachine → M (Unit {0})
end_operations a (Status.halted, vm) = set_vm a (some vm) >> (remove_self a >> set_current none)
end_operations a (Status.failed, vm) = set_vm a (some vm) >> (remove_self a >> set_current none)
end_operations a (Status.trapped, vm) = do
  set_vm a (some vm)
  queued ← enqueue_io_request a vm.trap_code vm.trap_r0 vm.trap_r1 vm.trap_r2
  p ← load a
  when queued (put_out a p)
  set_state a ProcState.susp_blocked
  set_current none

-- The part of `runRange` for a process without an entry that has a Virtual Machine.
unfoldable pub run_machine : Bool → ℕ → VirtualMachine → M (Unit {0})
run_machine kernel a vm = do
  load_context a
  granted ← request 2 (some a)
  if granted
      then (do
        p ← load a
        inside ← bring_in a p vm
        elim inside [
          | none ↦ pure tt
          | some vm' ↦ do
            result ← operate vm'
            when kernel
                (modify (λ s. record s { kernel = record (s.kernel) { last_trap_pid = p.pid } }))
            end_operations a result
        ]
        _ ← release 2 true
        pure tt)
      else (set_state a ProcState.blocked >> set_current none)

-- The part of `runRange` between the request and the release of the processor.
unfoldable pub run_process : Bool → ℕ → Process → M (Unit {0})
run_process kernel a p = elim p.entry [
  | some e ↦ (call_entry kernel e a p.file_id >>= end_entry a)
  | none ↦ elim p.vm [ none ↦ pure tt | some vm ↦ run_machine kernel a vm ]
]

-- One turn of the loop of `runRange`, for a process that is ready.
unfoldable pub take_turn : Bool → ℕ → Process → M (Unit {0})
take_turn kernel a p = do
  save_other a
  set_current (some a)
  when kernel (modify (λ s. record s { kernel = record (s.kernel) { running = some a } }))
  when (kernel && has_vm p) (
      modify
        (λ s. record s { kernel = record (s.kernel) { last_vm = some a; last_trap_pid = p.pid } }))
  granted ← request 3 (some a)
  if granted
      then (do run_process kernel a p; _ ← release 3 true; pure tt)
      else (set_state a ProcState.blocked >> set_current none)
  clear_running kernel a

-- The body of the loops, for slot `i`, with what they do for a process that is ready.
unfoldable pub visit : (ℕ → Process → M (Unit {0})) → ℕ → M (Unit {0})
visit turn i = do
  slot ← gets (λ s. get_or s.scheduler.schedule i none)
  elim slot [
    | none ↦ pure tt
    | some a ↦ do p ← load a; when (has_state ProcState.ready p) (turn a p)
  ]

-- The loops from slot `i` down, over `n` slots.
unfoldable pub visit_all : (ℕ → Process → M (Unit {0})) → ℕ → ℕ → M (Unit {0})
visit_all turn zero i = pure tt
visit_all turn (suc n) i = visit turn i >> visit_all turn n (i - 1)

-- `runRange`; `hi` is below `SCHEDULER_MAX_PRIORITY` after the first test, and `lo` is not negative.
unfoldable pub run_range : Bool → ℕ → ℕ → M (Unit {0})
run_range kernel hi lo =
    let hi' = if leb 100 hi then 99 else hi in visit_all (take_turn kernel) (hi' + 1 - lo) hi'

unfoldable pub run_cycle : Bool → M (Unit {0})
run_cycle kernel = do
  run_range kernel 99 80
  run_range kernel 79 0
  modify (λ s. record s {
    scheduler = record (s.scheduler) {
      cycle = (let c = u16 (s.scheduler.cycle + 1) in if ltb 2 c then 0 else c);
    };
  })

-- What follows the call of an entry in `templateCycle`, which releases no processor.
unfoldable pub end_template_entry : ℕ → EntryResult → M (Unit {0})
end_template_entry a EntryResult.waits = do _ ← request 1 (some a); set_current none
end_template_entry a EntryResult.finished = end_entry a EntryResult.finished
end_template_entry a EntryResult.keeps = end_entry a EntryResult.keeps

unfoldable pub end_template_operations : ℕ → Status × VirtualMachine → M (Unit {0})
end_template_operations a (Status.halted, vm) =
    set_vm a (some vm) >> (remove_self a >> set_current none)
end_template_operations a (Status.failed, vm) =
    set_vm a (some vm) >> (remove_self a >> set_current none)
end_template_operations a (Status.trapped, vm) = do
  set_vm a (some vm)
  granted ← request 1 (some a)
  when (not granted) (set_state a ProcState.blocked)
  set_current none

-- One turn of the loop of `templateCycle`.
unfoldable pub template_turn : ℕ → Process → M (Unit {0})
template_turn a p = do
  save_other a
  set_current (some a)
  elim p.entry [
    | some e ↦ (call_entry false e a p.file_id >>= end_template_entry a)
    | none ↦ elim p.vm [
      | none ↦ pure tt
      | some vm ↦ (load_context a >> (operate vm >>= end_template_operations a))
    ]
  ]

-- `templateCycle` for a dispersion that is not negative: the subtraction of the window stops at 0,
-- where the test against `prio_min` sets `low` all the same.
unfoldable pub template_cycle : ℕ → M (Unit {0})
template_cycle window s =
    let sch = s.scheduler in
    let low =
      if ltb (sch.prio_max - window) sch.prio_min then sch.prio_min else sch.prio_max - window in
    visit_all template_turn (sch.prio_max + 1 - low) sch.prio_max s

unfoldable pub sys_cycle : M (Unit {0})
sys_cycle = template_cycle 20

unfoldable pub dispersed_sys_cycle : M (Unit {0})
dispersed_sys_cycle = template_cycle 2

unfoldable pub full_cycle : M (Unit {0})
full_cycle s = template_cycle (s.scheduler.prio_max - s.scheduler.prio_min) s
