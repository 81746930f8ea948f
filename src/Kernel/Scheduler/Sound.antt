-- ===== src/Kernel/Scheduler/Sound.antt =====
-- src/kernel/scheduler.c: the state in which the table holds no pointer to a process that is freed.
use rm_vm.Common.{ℕ, sym, subst, Option}
use rm_vm.Kernel.System.{Sys, Scheduler}
use rm_vm.Kernel.System.Safe.{CurrentLive, LiveTable, Step, Step-LiveTable, with_current}
use rm_vm.Kernel.Scheduler.Table.{IsTable}

-- The table keeps its bounds, and every pointer in it and the current process are live.
pub record Sound (s : Sys) : Type 0 where
  pub is_table : IsTable s.scheduler
  pub slots : LiveTable s
  pub current : CurrentLive s.scheduler.current s.heap

-- Another current process does not matter to the table.
pub with_current-IsTable : (c : Option ℕ) {t : Scheduler} → IsTable t → IsTable (with_current c t)
with_current-IsTable c h = record {
  size = h.size;
  top_low = h.top_low;
  top_high = h.top_high;
  bottom = h.bottom;
  ordered = h.ordered;
  window = h.window;
}

pub Step-Sound : (s s' : Sys) → Step s s' → Sound s → Sound s'
Step-Sound s s' h o = record {
  is_table = subst IsTable (sym h.table) (with_current-IsTable s'.scheduler.current o.is_table);
  slots = Step-LiveTable s s' h o.slots;
  current = h.current o.current;
}
