-- ===== src/Kernel/Jobs/Shutdown.antt =====
-- `startStopEntry` of src/main.c: when it shuts the system down, and what is left.
use rm_vm.Common.{ℕ, ◌≡◌, ◌∙◌, ◌⊎◌, inl, inr, true, false, Option, some, List, All}
use rm_vm.Kernel.Process.{Process, EntryResult}
use rm_vm.Kernel.System.{Sys}
use rm_vm.Kernel.System.Steps.{goes_on}
use rm_vm.Kernel.Scheduler.{first}
use rm_vm.Kernel.Scheduler.Search.{LiveSlot, Skips, Has, find_proc-cases}
use rm_vm.Kernel.Jobs.{works, has_work, shut_down, start_stop_entry}
use rm_vm.Kernel.Jobs.Clearing.{Cleared, clear_slots-Cleared}

-- `startStopEntry` with a table in which every pointer is live. As long as a process in the table has work
-- to do it changes nothing and stays. Otherwise it finishes: every slot is empty but those of start/stop
-- processes, the others have lost their Virtual Machines, no process is freed, and the timer is off.
pub start_stop_entry_lem :
    (s : Sys)
    → All (LiveSlot s.heap) s.scheduler.schedule
    → (Has works s.heap s.scheduler.schedule
        × (start_stop_entry true s ≡ some (EntryResult.keeps, s)))
      ⊎ (All (Skips works s.heap) s.scheduler.schedule
          × (heap' : List (Option Process)) × (slots' : List (Option ℕ)) × Cleared s.heap
              s.scheduler.schedule heap' slots'
          × (start_stop_entry true s
              ≡ some (
                EntryResult.finished,
                record s {
                  heap = heap';
                  scheduler = record (s.scheduler) { schedule = slots' };
                  timer = record (s.timer) { active = false };
                },
              )))
unfolding start_stop_entry has_work first shut_down
start_stop_entry_lem s h = elim (find_proc-cases works s.heap s.scheduler.schedule 0 h) [
  | inl (none_works, e) ↦
      let (heap', slots', c, cleared) = clear_slots-Cleared s.heap s.scheduler.schedule h in
      inr (
        none_works,
        heap',
        slots',
        cleared,
        goes_on _ (goes_on _ (goes_on _ e)) ∙ goes_on _ (goes_on _ c),
      )
  | inr (w, k, a, e) ↦ inl (w, goes_on _ (goes_on _ (goes_on _ e)))
]
