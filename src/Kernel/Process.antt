-- ===== src/Kernel/Process.antt =====
-- src/kernel/scheduler.h: the data of a process; src/kernel/scheduler.c: `initProcess`.
use rm_vm.Common.{ℕ, Bool, true, false, ◌&&◌, Option, none, some, List, [], ◌∷◌, ◌==◌, replicate}
use rm_vm.Rm.State.{reg_count}
use rm_vm.Vm.State.{VirtualMachine}

pub data ProcType : Type 0 where
  start_stop idle job_governor loader io_handler interrupt_handler : ProcType

pub data ProcState : Type 0 where
  ready running blocked susp_ready susp_blocked : ProcState

-- The values of the two C enumerations, which are compared with `==`.
unfoldable pub type_code : ProcType → ℕ
type_code ProcType.start_stop = 0
type_code ProcType.idle = 1
type_code ProcType.job_governor = 2
type_code ProcType.loader = 3
type_code ProcType.io_handler = 4
type_code ProcType.interrupt_handler = 5

unfoldable pub state_code : ProcState → ℕ
state_code ProcState.ready = 0
state_code ProcState.running = 1
state_code ProcState.blocked = 2
state_code ProcState.susp_ready = 3
state_code ProcState.susp_blocked = 4

-- `CPUContext`
pub record CpuContext : Type 0 where
  pub ic : ℕ
  pub r : List ℕ
  pub sf : ℕ
  pub mode : ℕ
  pub ptr : ℕ
  pub pi : ℕ
  pub si : ℕ
  pub ti : ℕ

-- The functions that a `ProcessEntry` points to.
pub data Entry : Type 0 where
  start_stop_entry idle_entry interrupt_handler_entry : Entry
  io_handler_entry job_governor_entry loader_entry : Entry

-- What an entry returns: 0, a positive and a negative number.
pub data EntryResult : Type 0 where
  finished keeps waits : EntryResult

-- `Process`. A Virtual Machine belongs to the one process whose `vm` points to it, so that it stands in
-- the field; `none` is the null pointer, as for `entry`. A name is the list of its characters.
pub record Process : Type 0 where
  pub pid : ℕ
  pub sys_proc : Bool
  pub proc_type : ProcType
  pub pname : List ℕ
  pub state : ProcState
  pub context : CpuContext
  pub vm : Option VirtualMachine
  pub entry : Option Entry
  pub file_id : ℕ
  pub parent_pid : ℕ
  pub loaded : ℕ
  pub waiting_res_id : ℕ
  pub swapped : Bool
  pub swap_slot : ℕ

abbrev pub blank_context : CpuContext
blank_context = record {
  ic = 0;
  r = replicate reg_count 0;
  sf = 0;
  mode = 0;
  ptr = 0;
  pi = 0;
  si = 0;
  ti = 0;
}

-- `initProcess`: the allocation succeeds, and `calloc` has cleared what is not written.
unfoldable pub init_process :
    ℕ → Bool → List ℕ → ProcType → Option VirtualMachine → Option Entry → ℕ → Process
init_process pid sys_proc pname proc_type vm entry file_id = record {
  pid = pid;
  sys_proc = sys_proc;
  proc_type = proc_type;
  pname = pname;
  state = ProcState.ready;
  context = blank_context;
  vm = vm;
  entry = entry;
  file_id = file_id;
  parent_pid = 0;
  loaded = 0;
  waiting_res_id = 0;
  swapped = false;
  swap_slot = pid;
}

unfoldable pub has_state : ProcState → Process → Bool
unfolding state_code
has_state st p = state_code p.state == state_code st

unfoldable pub has_type : ProcType → Process → Bool
unfolding type_code
has_type t p = type_code p.proc_type == type_code t

unfoldable pub has_vm : Process → Bool
has_vm p = elim p.vm [ none ↦ false | some vm ↦ true ]

unfoldable pub has_pid : ℕ → Process → Bool
has_pid n p = p.pid == n

-- `strcmp(a, b) == 0`
unfoldable pub str_eq : List ℕ → List ℕ → Bool
str_eq [] [] = true
str_eq [] (y ∷ ys) = false
str_eq (x ∷ xs) [] = false
str_eq (x ∷ xs) (y ∷ ys) = (x == y) && str_eq xs ys
