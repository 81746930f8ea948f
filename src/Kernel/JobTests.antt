-- ===== src/Kernel/JobTests.antt =====
-- A loader and the job governor that waits for it, at a concrete state.
use rm_vm.Kernel.Jobs.Request.{loader_of, start_loader-loader_entry, waiting_governor, on_turn}
use rm_vm.Kernel.Scheduler.{free_slot, place}
use rm_vm.Kernel.Invariant.Launch.{with_pid, put_at}
use rm_vm.Kernel.Scheduler.Table.{init_scheduler-IsTable, place_lem, IsTable, Chosen}
use rm_vm.Kernel.Invariant.Answers.{init_kernel_state-Pool}
use rm_vm.Vm.State.{create_vm}
use rm_vm.Kernel.Jobs.Stranded.{loader_entry_strands, turns}
use rm_vm.Kernel.Invariant.Put.{put}
use rm_vm.Kernel.Jobs.Loading.{loader_entry_lem, with_vm, served, outcome}
use rm_vm.Kernel.Files.{find_file}
use rm_vm.Kernel.Loader.{loader_load_file}
use rm_vm.Kernel.Jobs.{start_loader, start_stop_entry, has_work, is_daemon, loader_entry, works}
use rm_vm.Kernel.System.Steps.{At, some-injective}
use rm_vm.Kernel.Jobs.Search.{Only}
use rm_vm.Kernel.Scheduler.Search.{LiveSlot}
use rm_vm.Kernel.System.Safe.{LiveTable}
use rm_vm.Kernel.Process.{
  has_state, has_type, EntryResult, Entry, ProcType, ProcState, init_process, Process,
}
use rm_vm.Kernel.System.{init_scheduler, Sys, self_process}
use rm_vm.Kernel.Tests.{image_disk, image}
use rm_vm.Kernel.SystemTests.{job, start}
use rm_vm.Common.{
  ℕ, zero, suc, ◌≤◌, ◌≡◌, refl, sym, ap, ◌≢◌, true, false, Option, none, some, [], ◌∷◌, ◌++◌, arith,
  get_or, set, replicate, All-set, All-replicate, some-ne-none,
}

-- The governor asks for the program, and the loader has its turn.
abbrev governor : Process
governor = record job { state = ProcState.blocked; loaded = 2 }

abbrev loader : Process
loader = record job {
  pid = 99;
  proc_type = ProcType.loader;
  vm = none;
  entry = some Entry.loader_entry;
  parent_pid = 98;
  loaded = 0;
}

abbrev loading : Sys
loading = record start {
  heap = some self_process ∷ some governor ∷ some loader ∷ [];
  scheduler = record init_scheduler.1 {
    schedule = set (set (set (replicate 100 none) 97 (some 0)) 96 (some 1)) 95 (some 2);
    current = some 2;
  };
}

-- With the image on the disk.
abbrev with_image : Sys
with_image = record loading { disk = image_disk; files = image ∷ [] }

loading-Live : LiveTable loading
unfolding replicate
loading-Live =
    All-set (LiveSlot loading.heap) (set (set (replicate 100 none) 97 (some 0)) 96 (some 1)) 95
      (some 2)
      (All-set (LiveSlot loading.heap) (set (replicate 100 none) 97 (some 0)) 96 (some 1)
        (All-set (LiveSlot loading.heap) (replicate 100 none) 97 (some 0)
          (All-replicate (LiveSlot loading.heap) 100 none tt) (self_process, refl))
        (governor, refl))
      (loader, refl)

loading-Only : Only loading.heap 1 98
unfolding self_process init_process
loading-Only zero u m e =
    absurd (omega (arith, e, ap (λ p. p.pid) (some-injective self_process u m)))
loading-Only (suc zero) u m e = refl
loading-Only (suc (suc zero)) u m e =
    absurd (omega (arith, e, ap (λ p. p.pid) (some-injective loader u m)))
loading-Only (suc (suc (suc c))) u m e = absurd (some-ne-none u (sym m))

stands : get_or loading.scheduler.schedule 96 none ≡ some 1
unfolding replicate
stands = refl

not_loader : ◌≢◌ {A = ℕ} 2 1
not_loader e = omega (arith, e)

governor_busy : works governor ≡ true
unfolding works is_daemon has_type has_state
governor_busy = refl

-- The program is loaded.
loader_entry_lem_example :
    loader_entry 2 1 with_image
    ≡ some (
      EntryResult.finished,
      record (put (put with_image 2 (record loader { waiting_res_id = 0 })) 1 (
          served
            (outcome with_image create_vm 1).0
            (with_vm governor (outcome with_image create_vm 1).2))) {
              disk = (outcome with_image create_vm 1).1;
            },
    )
loader_entry_lem_example =
    loader_entry_lem with_image 2 1 96 loader governor create_vm 1 loading-Live refl refl stands
      refl loading-Only not_loader init_kernel_state-Pool (omega arith) refl refl

-- There is no file.
no_file : (outcome loading create_vm 1).0 ≡ false
unfolding loader_load_file find_file
no_file = refl

loader_entry_strands_example :
    (s1 : Sys) × (s2 : Sys) × (loader_entry 2 1 loading ≡ some (EntryResult.finished, s1))
    × (turns 7 1 1 s1 ≡ some (tt, s2))
    × (has_work s2 ≡ some (true, s2))
    × (start_stop_entry true s2 ≡ some (EntryResult.keeps, s2))
loader_entry_strands_example =
    loader_entry_strands loading 2 1 96 loader governor create_vm 1 7 loading-Live refl refl stands
      refl loading-Only not_loader init_kernel_state-Pool (omega arith) refl refl refl governor_busy
      no_file

-- The governor before it has asked, with the image on the disk.
abbrev new_governor : Process
new_governor = record job { loaded = 0 }

abbrev asking : Sys
asking = record with_image {
  heap = some self_process ∷ some new_governor ∷ [];
  scheduler = record (place init_scheduler.1 true 1).1 { pid = 98 };
}

asking-IsTable : IsTable asking.scheduler
asking-IsTable =
    let (o, c, d, t) = place_lem true 1 init_scheduler-IsTable in
    record {
      size = t.size;
      top_low = t.top_low;
      top_high = t.top_high;
      bottom = t.bottom;
      ordered = t.ordered;
      window = t.window;
    }

asking-Live : LiveTable asking
unfolding place init_scheduler free_slot replicate
asking-Live =
    All-set (LiveSlot asking.heap) (set (replicate 100 none) 97 (some 0)) 96 (some 1)
      (All-set (LiveSlot asking.heap) (replicate 100 none) 97 (some 0)
        (All-replicate (LiveSlot asking.heap) 100 none tt) (self_process, refl))
      (new_governor, refl)

asking_slot : get_or asking.scheduler.schedule 96 none ≡ some 1
unfolding place init_scheduler free_slot replicate
asking_slot = refl

asking_pids : (c : ℕ) (u : Process) → At asking.heap c u → u.pid ≤ 98
unfolding self_process init_process
asking_pids zero u m = omega (arith, ap (λ p. p.pid) (some-injective self_process u m))
asking_pids (suc zero) u m = omega (arith, ap (λ p. p.pid) (some-injective new_governor u m))
asking_pids (suc (suc c)) u m = absurd (some-ne-none u (sym m))

asking-Only : Only asking.heap 1 98
unfolding self_process init_process
asking-Only zero u m e =
    absurd (omega (arith, e, ap (λ p. p.pid) (some-injective self_process u m)))
asking-Only (suc zero) u m e = refl
asking-Only (suc (suc c)) u m e = absurd (some-ne-none u (sym m))

start_loader-loader_entry_example :
    let loader = with_pid (loader_of 98 1) 99 in
    let (ok, disk, vm') = outcome asking create_vm 1 in
    (s1 : Sys) × (s2 : Sys) × (o : Option ℕ) × (start_loader 1 98 1 asking
      ≡ some (EntryResult.waits, s1))
    × Chosen asking.scheduler true o
    × (s1.scheduler.schedule ≡ put_at asking.scheduler 2 o)
    × (has_state ProcState.ready loader ≡ true)
    × (loader_entry 2 1 (on_turn 2 s1) ≡ some (EntryResult.finished, s2))
    × (s1.heap ≡ set asking.heap 1 (some (waiting_governor new_governor)) ++ some loader ∷ [])
    × (s2.heap
        ≡ set asking.heap 1 (some (served ok (with_vm (waiting_governor new_governor) vm')))
          ++ some loader ∷ [])
    × (s2.resources ≡ asking.resources)
    × (s2.disk ≡ disk)
start_loader-loader_entry_example =
    start_loader-loader_entry asking 1 96 new_governor create_vm 1 asking-IsTable (omega arith)
      asking-Live asking_slot refl asking_pids asking-Only refl init_kernel_state-Pool (omega arith)
