-- ===== src/Boot.antt =====
-- src/main.c: `main`, and src/rm/rm.c: `initRealMachine`, with `initKernel`. The prompt before the
-- start, the wait for a key at the end and the log lines are left out.
pub mod Start
pub mod Safety
pub mod Tests
use rm_vm.Common.{
  true, false, ℕ, zero, suc, ◌-◌, true, not, ◌||◌, Option, none, some, List, [], ◌∷◌, ◌++◌, ◌==◌,
  length, take, drop, replicate,
}
use rm_vm.Rm.State.{Machine, init_cpu, clear_all_interrupts, mode_supervisor, tick_limit}
use rm_vm.Rm.Memory.{init_memory}
use rm_vm.Rm.Disk.{HardDisk, init_disk, write_disk}
use rm_vm.Rm.Timer.{init_timer}
use rm_vm.Vm.State.{VirtualMachine, create_vm}
use rm_vm.Kernel.Files.{FileTable, init_file_table, register_file}
use rm_vm.Kernel.Loader.{create_vm_for}
use rm_vm.Vm.Machine.{run_vm}
use rm_vm.Kernel.Process.{ProcType, Entry, init_process}
use rm_vm.Kernel.System.{
  Sys, M, pure, ◌>>=◌, ◌>>◌, alloc, init_scheduler, init_kernel_state, empty_queue,
}
use rm_vm.Kernel.Scheduler.{add_proc}
use rm_vm.Kernel.Interrupts.{kernel_step}
use rm_vm.Kernel.Jobs.{has_work}
use rm_vm.Kernel.Cycle.{run_cycle}

-- `initRealMachine` by `initKernel`: the machine and the disk. The timer that it sets up is not the one
-- that `main` gives to the kernel.
unfoldable pub init_real_machine : Machine × HardDisk
unfolding init_cpu init_memory clear_all_interrupts init_disk
init_real_machine =
    (clear_all_interrupts (record { cpu = init_cpu; mem = init_memory }), init_disk 0)

-- `startVirtualMachine`: the machine as it is when it is destroyed, if there is one, and the disk. Its
-- function pointer is null.
unfoldable pub start_virtual_machine : HardDisk → FileTable → Option VirtualMachine × HardDisk
unfolding create_vm_for run_vm
start_virtual_machine disk table =
    let (vm, disk') = create_vm_for disk table 1 in
    elim vm [ none ↦ (none, disk') | some vm ↦ (some (run_vm none vm), disk') ]

-- The bytes of an array that starts with these, with zeros behind.
abbrev pub bytes_of : ℕ → List ℕ → List ℕ
bytes_of n bs = bs ++ replicate (n - length bs) 0

-- The three programs, in the order of the bytes.
abbrev pub vm_sector_1 : List ℕ
vm_sector_1 = bytes_of 16 (4 ∷ 0 ∷ 0 ∷ 0 ∷ 0 ∷ 0 ∷ 1 ∷ 16 ∷ 2 ∷ 18 ∷ 64 ∷ 48 ∷ [])

abbrev pub vm_sector_2 : List ℕ
vm_sector_2 = bytes_of 16 (4 ∷ 0 ∷ 0 ∷ 0 ∷ 0 ∷ 0 ∷ 3 ∷ 16 ∷ 4 ∷ 18 ∷ 64 ∷ 48 ∷ [])

abbrev pub vm_sector_3 : List ℕ
vm_sector_3 =
    bytes_of 32
      (8 ∷ 0 ∷ 0 ∷ 0 ∷ 0 ∷ 0 ∷ 0 ∷ 16 ∷ 16 ∷ 18 ∷ 4 ∷ 20 ∷ 0 ∷ 176 ∷ 5 ∷ 16 ∷ 6 ∷ 18 ∷ 64 ∷ 48 ∷ [])

-- The disk with the programs: `memcpy` takes the first sector of what it is given.
unfoldable pub write_programs : HardDisk → HardDisk
unfolding write_disk
write_programs d0 =
    let d1 = (write_disk d0 0 vm_sector_1).1 in
    let d2 = (write_disk d1 1 vm_sector_2).1 in
    let d3 = (write_disk d2 2 (take 16 vm_sector_3)).1 in (write_disk d3 3 (drop 16 vm_sector_3)).1

unfoldable pub register_programs : FileTable
unfolding register_file
register_programs =
    let t1 =
      (register_file init_file_table
        (record { file_id = 1; start_sector = 0; sector_count = 1 })).1 in
    let t2 = (register_file t1 (record { file_id = 2; start_sector = 1; sector_count = 1 })).1 in
    (register_file t2 (record { file_id = 3; start_sector = 2; sector_count = 2 })).1

-- The state before the processes are added, with the processor as `main` sets it.
unfoldable pub initial : Sys
unfolding init_real_machine write_programs register_programs init_timer init_scheduler
    init_kernel_state
initial =
    let (machine, disk) = init_real_machine in
    let (heap, scheduler) = init_scheduler in
    let (kernel, resources) = init_kernel_state in
    record {
      heap = heap;
      scheduler = scheduler;
      resources = resources;
      machine = record machine { cpu = record init_cpu { mode = mode_supervisor; ic = 0 } };
      disk = write_programs disk;
      timer = init_timer tick_limit;
      files = register_programs;
      io = empty_queue;
      kernel = kernel;
    }

-- `addProc(scheduler, initProcess(...))` for a system process.
unfoldable pub add_system : ℕ → List ℕ → ProcType → Option VirtualMachine → Entry → ℕ → M (Unit {0})
unfolding alloc init_process add_proc
add_system pid pname proc_type vm entry file_id = do
  a ← alloc (init_process pid true pname proc_type vm (some entry) file_id)
  _ ← add_proc a
  pure tt

-- The names of the processes.
abbrev pub start_stop_name : List ℕ
start_stop_name = 83 ∷ 116 ∷ 97 ∷ 114 ∷ 116 ∷ 45 ∷ 83 ∷ 116 ∷ 111 ∷ 112 ∷ []

abbrev pub idle_name : List ℕ
idle_name = 73 ∷ 100 ∷ 108 ∷ 101 ∷ []

abbrev pub interrupt_name : List ℕ
interrupt_name =
    73 ∷ 110 ∷ 116 ∷ 101 ∷ 114 ∷ 114 ∷ 117 ∷ 112 ∷ 116 ∷ 45 ∷ 72 ∷ 97 ∷ 110 ∷ 100 ∷ 108 ∷ 101 ∷ 114
    ∷ []

abbrev pub io_name : List ℕ
io_name = 73 ∷ 79 ∷ 45 ∷ 72 ∷ 97 ∷ 110 ∷ 100 ∷ 108 ∷ 101 ∷ 114 ∷ []

abbrev pub governor_name : ℕ → List ℕ
governor_name digit = 71 ∷ 111 ∷ 118 ∷ 101 ∷ 114 ∷ 110 ∷ 101 ∷ 114 ∷ digit ∷ []

-- The processes of `main`. `createVM` for a file id of 0 makes an empty machine.
unfoldable pub add_processes : M (Unit {0})
unfolding add_system create_vm
add_processes = do
  add_system 1 start_stop_name ProcType.start_stop none Entry.start_stop_entry 0
  add_system 2 idle_name ProcType.idle none Entry.idle_entry 0
  add_system 3 interrupt_name ProcType.interrupt_handler none Entry.interrupt_handler_entry 0
  add_system 4 io_name ProcType.io_handler none Entry.io_handler_entry 0
  add_system 5 (governor_name 49) ProcType.job_governor (some create_vm) Entry.job_governor_entry 1
  add_system 6 (governor_name 50) ProcType.job_governor (some create_vm) Entry.job_governor_entry 2
  add_system 7 (governor_name 51) ProcType.job_governor (some create_vm) Entry.job_governor_entry 3

-- The loop of `main`, with `n` turns to go.
unfoldable pub main_loop : ℕ → M (Unit {0})
unfolding run_cycle kernel_step has_work
main_loop zero = pure tt
main_loop (suc n) = do
  run_cycle true
  rc ← kernel_step
  work ← has_work
  elim ((rc == 0) || not work) [ true ↦ pure tt | false ↦ main_loop n ]

-- `main`, from the processes on.
unfoldable pub main : M (Unit {0})
unfolding add_processes main_loop run_cycle
main = do add_processes; main_loop 200; run_cycle true
