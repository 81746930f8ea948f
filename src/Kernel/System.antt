-- ===== src/Kernel/System.antt =====
-- src/kernel/scheduler.h, src/kernel/kernel.h and src/kernel/ioHandler.c: the state that the functions
-- of the kernel share, with the processes on a heap; `initScheduler` and `initKernelState`.
pub mod Steps
pub mod Safe
use rm_vm.Common.{
  ℕ, Bool, true, false, Option, none, some, List, [], ◌∷◌, ◌++◌, if◌then◌else◌, length, get_or, set,
  replicate,
}
use rm_vm.Rm.State.{Machine}
use rm_vm.Rm.Disk.{HardDisk}
use rm_vm.Rm.Timer.{Timer}
use rm_vm.Kernel.Files.{FileTable}
use rm_vm.Kernel.Resource.{ResourceManager, init_resource_manager, create_resource}
use rm_vm.Kernel.Process.{Process, ProcType, ProcState, init_process}

abbrev pub scheduler_max_priority : ℕ
scheduler_max_priority = 100

-- `Scheduler`. A pointer to a process is its index on the heap, `none` is null.
pub record Scheduler : Type 0 where
  pub schedule : List (Option ℕ)
  pub current : Option ℕ
  pub self_proc : ℕ
  pub cycle : ℕ
  pub prio_min : ℕ
  pub prio_max : ℕ
  pub pid : ℕ

-- The bookkeeping of `Kernel`; its pointers to the hardware and the scheduler point to the parts of
-- `Sys`, and `channel` is null.
pub record KernelState : Type 0 where
  pub running : Option ℕ
  pub tick : ℕ
  pub last_pi : ℕ
  pub last_si : ℕ
  pub last_ti : ℕ
  pub last_vm : Option ℕ
  pub last_trap_pid : ℕ

-- `IORequest`
pub record IoRequest : Type 0 where
  pub proc : Option ℕ
  pub code : ℕ
  pub r0 : ℕ
  pub r1 : ℕ
  pub r2 : ℕ
  pub ticks : ℕ
  pub holds_res : Bool

-- The globals `pendingIO`, `ioHead` and `ioTail`.
pub record IoQueue : Type 0 where
  pub pending_io : List IoRequest
  pub io_head : ℕ
  pub io_tail : ℕ

-- All of it. `heap` has one cell for each allocation of a process, which is `none` once it is freed.
pub record Sys : Type 0 where
  pub heap : List (Option Process)
  pub scheduler : Scheduler
  pub resources : ResourceManager
  pub machine : Machine
  pub disk : HardDisk
  pub timer : Timer
  pub files : FileTable
  pub io : IoQueue
  pub kernel : KernelState

-- A run that returns a value, or `none` where it uses a process that is freed.
abbrev pub M : Type 0 → Type 0
M A = Sys → Option (A × Sys)

abbrev pub pure : {A : Type 0} → A → M A
pure a s = some (a, s)

infixl 5 ◌>>=◌ ◌>>◌
abbrev pub ◌>>=◌ : {A B : Type 0} → M A → (A → M B) → M B
◌>>=◌ m f s = elim (m s) [ none ↦ none | some (a, s') ↦ f a s' ]

abbrev pub ◌>>◌ : {B : Type 0} → M (Unit {0}) → M B → M B
m >> k = m >>= λ _. k

abbrev pub gets : {A : Type 0} → (Sys → A) → M A
gets f s = some (f s, s)

abbrev pub modify : (Sys → Sys) → M (Unit {0})
modify f s = some (tt, f s)

abbrev pub when : Bool → M (Unit {0}) → M (Unit {0})
when b m = if b then m else pure tt

-- `*p`
unfoldable pub load : ℕ → M Process
load a s = elim (get_or s.heap a none) [ none ↦ none | some p ↦ some (p, s) ]

-- A write through the pointer, of what `f` changes.
unfoldable pub update : ℕ → (Process → Process) → M (Unit {0})
update a f s = elim (get_or s.heap a none) [
  | none ↦ none
  | some p ↦ some (tt, record s { heap = set s.heap a (some (f p)) })
]

-- A new cell.
unfoldable pub alloc : Process → M ℕ
alloc p s = some (length s.heap, record s { heap = s.heap ++ some p ∷ [] })

-- `destroyVM(p->vm)` and `free(p)`
unfoldable pub free : ℕ → M (Unit {0})
free a s = elim (get_or s.heap a none) [
  | none ↦ none
  | some p ↦ some (tt, record s { heap = set s.heap a none })
]

unfoldable pub set_state : ℕ → ProcState → M (Unit {0})
set_state a st = update a (λ p. record p { state = st })

abbrev pub set_current : Option ℕ → M (Unit {0})
set_current c = modify (λ s. record s { scheduler = record (s.scheduler) { current = c } })

abbrev pub set_slot : ℕ → Option ℕ → M (Unit {0})
set_slot i a =
    modify (λ s. record s {
      scheduler = record (s.scheduler) { schedule = set s.scheduler.schedule i a };
    })

abbrev pub scheduler_name : List ℕ
scheduler_name = 115 ∷ 99 ∷ 104 ∷ 101 ∷ 100 ∷ 117 ∷ 108 ∷ 101 ∷ 114 ∷ []

-- The process of the scheduler itself: what is not written of it is 0, which is `START_STOP`.
unfoldable pub self_process : Process
unfolding init_process
self_process = record (init_process 97 true scheduler_name ProcType.start_stop none none 0) {
  swap_slot = 0;
}

-- `initScheduler` and `initSchedule`, with the heap that has the one process; the allocations succeed.
unfoldable pub init_scheduler : List (Option Process) × Scheduler
init_scheduler = (
  some self_process ∷ [],
  record {
    schedule = set (replicate scheduler_max_priority none) 97 (some 0);
    current = none;
    self_proc = 0;
    cycle = 0;
    prio_min = 97;
    prio_max = 97;
    pid = 97;
  },
)

abbrev pub blank_request : IoRequest
blank_request = record {
  proc = none;
  code = 0;
  r0 = 0;
  r1 = 0;
  r2 = 0;
  ticks = 0;
  holds_res = false;
}

abbrev pub empty_queue : IoQueue
empty_queue = record { pending_io = replicate 8 blank_request; io_head = 0; io_tail = 0 }

-- `initKernelState`: the bookkeeping and the resources IO, MEM, CPU and TMR.
unfoldable pub init_kernel_state : KernelState × ResourceManager
unfolding init_resource_manager create_resource
init_kernel_state =
    let rm1 = (create_resource init_resource_manager 1 1).1 in
    let rm2 = (create_resource rm1 2 2).1 in
    let rm3 = (create_resource rm2 3 1).1 in
    let rm4 = (create_resource rm3 4 1).1 in
    (
      record {
        running = none;
        tick = 0;
        last_pi = 0;
        last_si = 0;
        last_ti = 0;
        last_vm = none;
        last_trap_pid = 0;
      },
      rm4,
    )
