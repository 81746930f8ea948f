-- ===== src/Kernel/Jobs.antt =====
-- src/main.c: the entries of the job governor, of the idle and of the start/stop process;
-- src/kernel/loader.c: `loaderEntry`, and `loaderLoadFile` with a scheduler. The log lines are left out.
pub mod Survival
pub mod Clearing
pub mod Shutdown
pub mod Search
pub mod Loading
pub mod Stranded
pub mod Request
use rm_vm.Common.{
  ℕ, Bool, true, false, not, ◌&&◌, ◌||◌, Option, none, some, List, [], ◌∷◌, ◌==◌, if◌then◌else◌,
  get_or, set,
}
use rm_vm.Vm.State.{VirtualMachine}
use rm_vm.Vm.Cpu.{Status, run_operations}
use rm_vm.Kernel.Process.{
  Process, ProcState, ProcType, Entry, EntryResult, init_process, has_state, has_type, has_pid,
}
use rm_vm.Kernel.System.{
  M, pure, ◌>>=◌, ◌>>◌, gets, modify, when, load, update, alloc, set_state, set_current,
}
use rm_vm.Kernel.Loader.{loader_load_file}
use rm_vm.Kernel.Scheduler.{first, add_proc, unblock_process, request, release}
use rm_vm.Kernel.IoHandler.{enqueue_io_request}

abbrev pub set_vm : ℕ → Option VirtualMachine → M (Unit {0})
set_vm a vm = update a (λ p. record p { vm = vm })

-- `loaderLoadFile` once the memory resource is held or not needed, into the machine of process `a`.
unfoldable pub load_into : ℕ → VirtualMachine → ℕ → ℕ → M Bool
load_into a vm file_id waiter_pid = do
  result ← gets (λ s. loader_load_file s.disk s.files vm file_id)
  modify (λ s. record s { disk = result.1 })
  set_vm a (some result.2)
  when result.0 (unblock_process waiter_pid)
  pure result.0

-- `loaderLoadFile` with a scheduler.
unfoldable pub load_file_for : ℕ → VirtualMachine → ℕ → ℕ → M Bool
load_file_for a vm file_id waiter_pid = do
  current ← gets (λ s. s.scheduler.current)
  elim current [
    | none ↦ load_into a vm file_id waiter_pid
    | some self ↦ do
      granted ← request 2 (some self)
      if granted
          then (do ok ← load_into a vm file_id waiter_pid; _ ← release 2 true; pure ok)
          else (do set_state self ProcState.blocked; pure false)
  ]

unfoldable pub loader_entry : ℕ → ℕ → M EntryResult
loader_entry a file_id = do
  p ← load a
  found ← first (has_pid p.parent_pid)
  elim found [
    | none ↦ pure tt
    | some (i, parent) ↦ do
      q ← load parent
      elim q.vm [
        | none ↦ pure tt
        | some vm ↦ do
          ok ← load_file_for parent vm file_id q.pid
          when ok (update parent (λ p. record p { loaded = 1; state = ProcState.ready }))
      ]
  ]
  pure EntryResult.finished

abbrev pub loader_name : List ℕ
loader_name = 76 ∷ 111 ∷ 97 ∷ 100 ∷ 101 ∷ 114 ∷ []

-- `proc->state = BLOCKED; scheduler->current = NULL; return -1`
unfoldable pub stay_blocked : ℕ → M EntryResult
stay_blocked a = do set_state a ProcState.blocked; set_current none; pure EntryResult.waits

-- The request for a loader process.
unfoldable pub start_loader : ℕ → ℕ → ℕ → M EntryResult
start_loader a pid file_id = do
  l ←
      alloc
        (record (init_process 0 true loader_name ProcType.loader none (some Entry.loader_entry)
          file_id) { parent_pid = pid })
  _ ← add_proc l
  update a (λ p. record p { loaded = 2 })
  stay_blocked a

-- The run of a program that is loaded. `runOperations` returns no other status.
unfoldable pub run_job : ℕ → Status × VirtualMachine → M EntryResult
run_job a (Status.halted, vm) = do
  update a (λ p. record p { vm = none; loaded = 3 })
  pure EntryResult.finished
run_job a (Status.failed, vm) = do
  update a (λ p. record p { vm = none; loaded = 3 })
  pure EntryResult.finished
run_job a (Status.trapped, vm) = do
  set_vm a (some vm)
  _ ← enqueue_io_request a vm.trap_code vm.trap_r0 vm.trap_r1 vm.trap_r2
  stay_blocked a

-- `runOperations(vm)`, which always returns.
unfoldable pub operate : VirtualMachine → M (Status × VirtualMachine)
operate vm s = elim (run_operations vm) [ none ↦ none | some r ↦ some (r, s) ]

unfoldable pub job_governor_entry : ℕ → ℕ → M EntryResult
job_governor_entry a file_id = do
  p ← load a
  elim p.vm [
    | none ↦ pure EntryResult.finished
    | some vm ↦
        if p.loaded == 0
        then start_loader a p.pid file_id
        else if p.loaded == 2
        then stay_blocked a
        else if p.loaded == 1
        then (operate vm >>= run_job a)
        else pure EntryResult.finished
  ]

-- The processes that the test for work ignores.
unfoldable pub is_daemon : Process → Bool
is_daemon p =
    has_type ProcType.idle p
    || has_type ProcType.start_stop p
    || has_type ProcType.interrupt_handler p
    || has_type ProcType.io_handler p
    || has_type ProcType.loader p

-- The test for a process that has work to do.
unfoldable pub works : Process → Bool
works p = not (is_daemon p) && (has_state ProcState.ready p || has_state ProcState.blocked p)

-- `hasWork`
unfoldable pub has_work : M Bool
has_work = do found ← first works; pure (elim found [ none ↦ false | some (i, a) ↦ true ])

-- The second loop of `startStopEntry` over the slots that are left: the heap and the slots, with the
-- Virtual Machines destroyed and the slots emptied.
unfoldable pub clear_slots :
    List (Option Process) → List (Option ℕ) → Option (List (Option Process) × List (Option ℕ))
clear_slots heap [] = some (heap, [])
clear_slots heap (none ∷ slots) = elim (clear_slots heap slots) [
  | none ↦ none
  | some (heap', slots') ↦ some (heap', none ∷ slots')
]
clear_slots heap (some a ∷ slots) = elim (get_or heap a none) [
  | none ↦ none
  | some p ↦
      let keep = has_type ProcType.start_stop p in
      let heap1 = if keep then heap else set heap a (some (record p { vm = none })) in
      elim (clear_slots heap1 slots) [
        | none ↦ none
        | some (heap', slots') ↦ some (heap', (if keep then some a else none) ∷ slots')
      ]
]

unfoldable pub shut_down : M (Unit {0})
shut_down s = elim (clear_slots s.heap s.scheduler.schedule) [
  | none ↦ none
  | some (heap', slots') ↦
      some (tt, record s { heap = heap'; scheduler = record (s.scheduler) { schedule = slots' } })
]

-- `startStopEntry`; `kernel` tells whether the pointer to the kernel is not null.
unfoldable pub start_stop_entry : Bool → M EntryResult
start_stop_entry kernel = do
  work ← has_work
  if work then pure EntryResult.keeps else (do
    shut_down
    when kernel (modify (λ s. record s { timer = record (s.timer) { active = false } }))
    pure EntryResult.finished)

unfoldable pub idle_entry : M EntryResult
idle_entry = pure EntryResult.keeps
