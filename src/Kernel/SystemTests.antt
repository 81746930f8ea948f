-- ===== src/Kernel/SystemTests.antt =====
-- Runs of the processes of the kernel, and the theorems about them at concrete states.
use rm_vm.Common.{
  ℕ, ◌≡◌, refl, ◌≢◌, ◌⊎◌, Bool, true, false, Option, none, some, List, [], ◌∷◌, arith, set,
  replicate, All, All-set, All-replicate,
}
use rm_vm.Rm.State.{init_cpu, si_halt}
use rm_vm.Kernel.Scheduler.Sound.{Sound}
use rm_vm.Kernel.Interrupts.{kernel_handle_interrupts}
use rm_vm.Kernel.Interrupts.Order.{
  returned, synced, acknowledged, switches, kernel_handle_interrupts-Handled,
}
use rm_vm.Rm.Disk.{init_disk}
use rm_vm.Rm.Timer.{init_timer}
use rm_vm.Vm.State.{create_vm}
use rm_vm.Kernel.Process.{Process, ProcType, ProcState, Entry, EntryResult, has_pid}
use rm_vm.Kernel.System.{Sys, self_process, init_scheduler, init_kernel_state, empty_queue}
use rm_vm.Kernel.Scheduler.{free_slot, place, add_proc, remove_proc_p}
use rm_vm.Kernel.Scheduler.Search.{Has, LiveSlot, Found, Skips}
use rm_vm.Kernel.Scheduler.Table.{IsTable, Chosen, Placed, place_lem, init_scheduler-IsTable}
use rm_vm.Kernel.Scheduler.Removal.{next_pid, numbered, Undone, remove_proc_p-add_proc}
use rm_vm.Kernel.Context.{context_switch}
use rm_vm.Kernel.Context.Pick.{Live, All-Live, CanRun}
use rm_vm.Kernel.Context.Switch.{Saved, Loaded, context_switch_lem}
use rm_vm.Kernel.Jobs.{works, start_stop_entry}
use rm_vm.Kernel.Jobs.Clearing.{Cleared}
use rm_vm.Kernel.Jobs.Shutdown.{start_stop_entry_lem}

-- A job with a fresh Virtual Machine.
abbrev pub job : Process
job = record {
  pid = 98;
  sys_proc = true;
  proc_type = ProcType.job_governor;
  pname = [];
  state = ProcState.ready;
  context = self_process.context;
  vm = some create_vm;
  entry = some Entry.job_governor_entry;
  file_id = 1;
  parent_pid = 0;
  loaded = 1;
  waiting_res_id = 0;
  swapped = false;
  swap_slot = 5;
}

-- The scheduler as it starts, with the job on the heap, not scheduled.
abbrev pub start : Sys
start = record {
  heap = some self_process ∷ some job ∷ [];
  scheduler = init_scheduler.1;
  resources = init_kernel_state.1;
  machine = record { cpu = init_cpu; mem = [] };
  disk = init_disk 0;
  timer = init_timer 10;
  files = [];
  io = empty_queue;
  kernel = init_kernel_state.0;
}

place_lem_example :
    (o : Option ℕ) × Chosen init_scheduler.1 true o
    × Placed init_scheduler.1 1 o (place init_scheduler.1 true 1)
    × IsTable (place init_scheduler.1 true 1).1
place_lem_example = place_lem true 1 init_scheduler-IsTable

-- No process has the pid that the job gets.
start-Skips :
    All (Skips (has_pid (next_pid start)) (numbered start 1 job).heap) start.scheduler.schedule
unfolding init_scheduler has_pid self_process
start-Skips =
    All-set (Skips (has_pid 98) (numbered start 1 job).heap) (replicate 100 none) 97 (some 0)
      (All-replicate (Skips (has_pid 98) (numbered start 1 job).heap) 100 none tt)
      (self_process, refl, refl)

next_pid-start : next_pid start ≢ 0
unfolding init_scheduler
next_pid-start e = omega (arith, e)

remove_proc_p-add_proc_example :
    (done : Bool) × (s1 : Sys) × (s2 : Sys) × (add_proc 1 start ≡ some (done, s1))
    × (remove_proc_p (next_pid start) s1 ≡ some (done, s2))
    × Undone start 1 job done s2
remove_proc_p-add_proc_example =
    remove_proc_p-add_proc start 1 job init_scheduler-IsTable refl next_pid-start start-Skips

-- The scheduler with the job in slot 96, current and running.
abbrev scheduled : Sys
scheduled = record start {
  heap = some self_process ∷ some (record job { state = ProcState.running }) ∷ [];
  scheduler = record (place init_scheduler.1 true 1).1 { current = some 1 };
}

scheduled-IsTable : IsTable scheduled.scheduler
scheduled-IsTable =
    let (o, c, d, t) = place_lem true 1 init_scheduler-IsTable in
    record {
      size = t.size;
      top_low = t.top_low;
      top_high = t.top_high;
      bottom = t.bottom;
      ordered = t.ordered;
      window = t.window;
    }

scheduled-slots : All (LiveSlot scheduled.heap) scheduled.scheduler.schedule
unfolding place init_scheduler free_slot replicate
scheduled-slots =
    All-set (LiveSlot scheduled.heap) (set (replicate 100 none) 97 (some 0)) 96 (some 1)
      (All-set (LiveSlot scheduled.heap) (replicate 100 none) 97 (some 0)
        (All-replicate (LiveSlot scheduled.heap) 100 none tt) (self_process, refl))
      (record job { state = ProcState.running }, refl)

scheduled-Live : Live scheduled.heap scheduled.scheduler.schedule
scheduled-Live = All-Live scheduled.heap scheduled.scheduler.schedule scheduled-slots

start_stop_entry_lem_example :
    (Has works scheduled.heap scheduled.scheduler.schedule
      × (start_stop_entry true scheduled ≡ some (EntryResult.keeps, scheduled)))
    ⊎ (All (Skips works scheduled.heap) scheduled.scheduler.schedule
        × (heap' : List (Option Process)) × (slots' : List (Option ℕ)) × Cleared scheduled.heap
            scheduled.scheduler.schedule heap' slots'
        × (start_stop_entry true scheduled
            ≡ some (
              EntryResult.finished,
              record scheduled {
                heap = heap';
                scheduler = record (scheduled.scheduler) { schedule = slots' };
                timer = record (scheduled.timer) { active = false };
              },
            )))
start_stop_entry_lem_example = start_stop_entry_lem scheduled scheduled-slots

context_switch_lem_example :
    (s1 : Sys) × (s2 : Sys) × (o : Option ℕ) × Saved (some 1) scheduled s1
    × (s1.scheduler ≡ scheduled.scheduler)
    × Found (CanRun s1.heap s1.scheduler.schedule) s1.scheduler.prio_min s1.scheduler.prio_max o
    × Loaded s1 o s2
    × (context_switch scheduled ≡ some (tt, s2))
context_switch_lem_example =
    context_switch_lem scheduled scheduled-IsTable (record job { state = ProcState.running }, refl)
      scheduled-Live

-- A program interrupt and a HALT at once, with the timer's flag set.
abbrev interrupted : Sys
interrupted = record scheduled {
  timer = record (scheduled.timer) { interrupt_flag = true };
  machine = record (scheduled.machine) { cpu = record init_cpu { pi = 1; si = si_halt } };
}

kernel_handle_interrupts-Handled_example :
    (s' : Sys) × (kernel_handle_interrupts interrupted ≡ some (returned (synced interrupted), s'))
    × Sound s'
    × (((switches (synced interrupted) ≡ false)
          × (s'.machine.cpu ≡ acknowledged (synced interrupted)))
        ⊎ ((switches (synced interrupted) ≡ true)
            × (s0 : Sys) × (s0.machine.cpu ≡ acknowledged (synced interrupted))
            × (context_switch s0 ≡ some (tt, s'))))
kernel_handle_interrupts-Handled_example = kernel_handle_interrupts-Handled interrupted (record {
  is_table = scheduled-IsTable;
  slots = scheduled-slots;
  current = (record job { state = ProcState.running }, refl);
})
