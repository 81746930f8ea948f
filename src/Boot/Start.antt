-- ===== src/Boot/Start.antt =====
-- The state of src/main.c before the processes are added, and `addProc` of each, with the invariant of
-- src/kernel.
use rm_vm.Kernel.Invariant.Answers.{init_kernel_state-Pool, io_unit}
use rm_vm.Kernel.Invariant.Ends.{with_fresh-Inv}
use rm_vm.Kernel.Invariant.Io.{write_disk-IsDisk}
use rm_vm.Kernel.Invariant.Spawn.{spawn-Inv, spawned, Newcomer}
use rm_vm.Kernel.Invariant.Heap.{At-alloc-cases}
use rm_vm.Kernel.Invariant.Launch.{with_pid, add_proc-Launched}
use rm_vm.Kernel.System.Steps.{goes_on, At}
use rm_vm.Kernel.Scheduler.Search.{LiveSlot}
use rm_vm.Kernel.Scheduler.Table.{init_scheduler-IsTable}
use rm_vm.Kernel.Invariant.{IsProc, IsDisk, quiet, Inv, In, Valid}
use rm_vm.Kernel.Files.{FileTable}
use rm_vm.Kernel.Process.{Process, ProcType, init_process, Entry}
use rm_vm.Vm.State.{VirtualMachine}
use rm_vm.Kernel.Resource.{init_resource_manager, create_resource, Resource}
use rm_vm.Rm.Disk.{write_disk, init_disk, HardDisk}
use rm_vm.Boot.{
  vm_sector_3, vm_sector_2, vm_sector_1, write_programs, init_real_machine, add_system, initial,
}
use rm_vm.Common.{
  ℕ, ◌+◌, ◌<◌, ◌≡◌, refl, sym, ap, ◌∙◌, subst, ◌≢◌, inl, inr, Bool, true, ◌&&◌, Option, none, some,
  List, [], ◌∷◌, arith, ℕ_discrete, ltb, ltb→lt, length, get_or, set, take, drop, replicate,
  get_or-set_ne, length-append, length-replicate, All, All-set, All-get_or, All-replicate, IsByte,
  some-ne-none,
}
use rm_vm.Kernel.System.{blank_request, self_process, Sys, init_kernel_state, init_scheduler, alloc}

-- `initial` with other programs.
abbrev pub started : HardDisk → FileTable → Sys
started d files = record initial { disk = d; files = files }

-- A process of `main`.
pub record Member (vm : Option VirtualMachine) (e : Entry) (l l' : List ℕ) (a : ℕ) : Type 0 where
  pub machine : Valid vm
  pub kind : some e ≢ some Entry.loader_entry
  pub more : (b : ℕ) → In b l → In b l'
  pub fresh : some e ≡ some Entry.job_governor_entry → In a l'

pub add_system-Inv :
    (r : Resource) (x : Option ℕ) (l l' : List ℕ) (s : Sys) (pid : ℕ) (pname : List ℕ)
    (t : ProcType) (vm : Option VirtualMachine) (e : Entry) (file_id : ℕ)
    → Inv (quiet r x l) s
    → Member vm e l l' (length s.heap)
    → s.scheduler.pid + 1 + length l' < 256
    → (s' : Sys) × (add_system pid pname t vm e file_id s ≡ some (tt, s'))
      × Inv (quiet r x l') s'
      × (s'.scheduler.pid ≡ s.scheduler.pid + 1)
      × (length s'.heap ≡ length s.heap + 1)
unfolding add_system alloc init_process
add_system-Inv r x l l' s pid pname t vm e file_id h m room =
    let h' =
      with_fresh-Inv l' h (λ b u at en z. m.more b (h.governors b u at en z))
        (omega (arith, room)) in
    let q = init_process pid true pname t vm (some e) file_id in
    let (b, t', f, lt) = add_proc-Launched s q h.sound.is_table (omega (arith, room)) in
    let c : Newcomer (quiet r x l') s (with_pid q (s.scheduler.pid + 1)) = record {
      pid = refl;
      proc = record {
        no_pi = refl;
        no_si = refl;
        machine = m.machine;
        owned = λ f. absurd (some-ne-none e f);
        pid_low = omega arith;
        pid_high = omega arith;
        parent = omega arith;
      };
      child = omega arith;
      parent = λ i. absurd (m.kind i);
      alone = λ i. absurd (m.kind i);
      governor = λ g z. m.fresh g;
      room = room;
    } in
    (
      spawned s (with_pid q (s.scheduler.pid + 1)) t',
      goes_on _ f,
      spawn-Inv (with_pid q (s.scheduler.pid + 1)) t' h' c lt.is_table lt.fills lt.pid lt.current,
      lt.pid,
      length-append s.heap (some (with_pid q (s.scheduler.pid + 1)) ∷ []),
    )

-- The one process is that of the scheduler.
only_self : (a : ℕ) (p : Process) → At (some self_process ∷ []) a p → (a ≡ 0) × (self_process ≡ p)
only_self a p m = elim (At-alloc-cases [] self_process a p m) [
  | inl e ↦ e
  | inr l ↦ absurd (some-ne-none p (sym l))
]

self-IsProc : IsProc 97 self_process
unfolding self_process init_process
self-IsProc = record {
  no_pi = refl;
  no_si = refl;
  machine = tt;
  owned = λ e. refl;
  pid_low = omega arith;
  pid_high = omega arith;
  parent = omega arith;
}

no_entry : (p : Process) (e : Entry) → self_process ≡ p → p.entry ≢ some e
unfolding self_process init_process
no_entry p e same f = some-ne-none e (sym f ∙ ap (λ p. p.entry) (sym same))

in_first :
    (i a : ℕ)
    → get_or (set (replicate {A = Option ℕ} 100 none) 97 (some 0)) i none ≡ some a
    → 97 ≡ i
in_first i a e = elim (ℕ_discrete 97 i) [
  | yes f ↦ f
  | no n ↦ absurd (
      some-ne-none a (
        sym e
        ∙ get_or-set_ne (replicate {A = Option ℕ} 100 none) 97 i (some 0) none n
        ∙ All-get_or (λ o. o ≡ none) (replicate {A = Option ℕ} 100 none) i none
            (All-replicate (λ o. o ≡ none) 100 none refl) refl))
]

pub started-Inv :
    (d : HardDisk) (files : FileTable) → IsDisk d → Inv (quiet io_unit none []) (started d files)
unfolding initial init_scheduler init_kernel_state create_resource init_resource_manager
    init_process self_process
started-Inv d files i = record {
  sound = record {
    is_table = init_scheduler-IsTable;
    slots =
        All-set (LiveSlot (some self_process ∷ [])) (replicate 100 none) 97 (some 0)
          (All-replicate (LiveSlot (some self_process ∷ [])) 100 none tt) (self_process, refl);
    current = tt;
  };
  procs = λ a p m. subst (IsProc 97) (only_self a p m).1 self-IsProc;
  distinct = λ a b p q m m' e. (only_self a p m).0 ∙ sym (only_self b q m').0;
  unique = λ j k a e f. sym (in_first j a e) ∙ in_first k a f;
  parents = λ a b p q m m' l e. absurd (no_entry p Entry.loader_entry (only_self a p m).1 l);
  single = λ a b p q m m' l k e. absurd (no_entry p Entry.loader_entry (only_self a p m).1 l);
  governors = λ a p m e z. absurd (no_entry p Entry.job_governor_entry (only_self a p m).1 e);
  room = omega arith;
  pool = init_kernel_state-Pool;
  units = inr (refl, refl, refl);
  queue = record { same = refl; small = omega arith; size = length-replicate 8 blank_request };
  resting = λ a e f. some-ne-none a (sym e);
  no_pi = refl;
  no_si = refl;
  last_pi = refl;
  last_si = refl;
  disk = i;
}

pub started_pid : (d : HardDisk) (files : FileTable) → (started d files).scheduler.pid ≡ 97
unfolding initial init_scheduler
started_pid d files = refl

-- A test for bytes.
abbrev all_bytes : List ℕ → Bool
all_bytes [] = true
all_bytes (x ∷ xs) = ltb x 256 && all_bytes xs

both : (x y : Bool) → (x && y) ≡ true → (x ≡ true) × (y ≡ true)
both x y e = (ground (arith, e), ground (arith, e))

All-all_bytes : (xs : List ℕ) → all_bytes xs ≡ true → All IsByte xs
All-all_bytes [] e = tt
All-all_bytes (x ∷ xs) e =
    let (b, r) = both (ltb x 256) (all_bytes xs) e in (ltb→lt x 256 b, All-all_bytes xs r)

init_disk-IsDisk : (id : ℕ) → IsDisk (init_disk id)
unfolding init_disk
init_disk-IsDisk id = record {
  idle = refl;
  sized = length-replicate 128 (replicate {A = ℕ} 16 0);
  sectors = λ t lt.
      All-get_or (λ b. (length b ≡ 16) × All IsByte b) (replicate 128 (replicate 16 0)) t
        (replicate 16 0)
        (All-replicate (λ b. (length b ≡ 16) × All IsByte b) 128 (replicate 16 0) zeros) zeros;
}
  where
    zeros : (length (replicate {A = ℕ} 16 0) ≡ 16) × All IsByte (replicate 16 0)
    zeros = (length-replicate 16 0, All-replicate IsByte 16 0 (omega arith))

-- The disk that `main` fills.
pub initial_disk-IsDisk : IsDisk initial.disk
unfolding initial init_real_machine write_programs replicate take drop
initial_disk-IsDisk =
    let h0 = init_disk-IsDisk 0 in
    let h1 =
      write_disk-IsDisk (init_disk 0) 0 vm_sector_1 h0 refl (All-all_bytes vm_sector_1 refl) in
    let d1 = (write_disk (init_disk 0) 0 vm_sector_1).1 in
    let h2 = write_disk-IsDisk d1 1 vm_sector_2 h1 refl (All-all_bytes vm_sector_2 refl) in
    let d2 = (write_disk d1 1 vm_sector_2).1 in
    let b3 = take 16 vm_sector_3 in
    let h3 = write_disk-IsDisk d2 2 b3 h2 refl (All-all_bytes b3 refl) in
    let d3 = (write_disk d2 2 b3).1 in
    let b4 = drop 16 vm_sector_3 in write_disk-IsDisk d3 3 b4 h3 refl (All-all_bytes b4 refl)
