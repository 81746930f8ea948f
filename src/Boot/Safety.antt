-- ===== src/Boot/Safety.antt =====
-- `main` of src/main.c, from its first process to its end.
use rm_vm.Kernel.Invariant.Answers.{io_unit}
use rm_vm.Kernel.Resource.{ResourceManager, Resource}
use rm_vm.Kernel.Scheduler.Sound.{Sound}
use rm_vm.Kernel.Invariant.{quiet, Inv, Pool, UnitState, Valid, IsDisk}
use rm_vm.Kernel.Files.{FileTable}
use rm_vm.Vm.State.{create_vm-IsValid, create_vm}
use rm_vm.Rm.Disk.{HardDisk}
use rm_vm.Kernel.Process.{ProcType, Process, Entry}
use rm_vm.Boot.Start.{started-Inv, add_system-Inv, started_pid, started, Member}
use rm_vm.Kernel.Invariant.Parts.{with_parts-Inv}
use rm_vm.Kernel.System.Steps.{At, goes_on}
use rm_vm.Rm.Timer.{tick_timer}
use rm_vm.Kernel.Invariant.Rounds.{run_cycle-Rests}
use rm_vm.Kernel.Scheduler.Search.{find_proc-cases}
use rm_vm.Kernel.Invariant.Visit.{RestsAfter, Quiets}
use rm_vm.Kernel.System.Safe.{LiveTable}
use rm_vm.Kernel.Interrupts.{kernel_step}
use rm_vm.Kernel.Scheduler.{first}
use rm_vm.Boot.{
  add_system, interrupt_name, start_stop_name, idle_name, io_name, governor_name, add_processes,
  main, main_loop,
}
use rm_vm.Kernel.Jobs.{works, has_work}
use rm_vm.Common.{
  ℕ, zero, suc, ◌+◌, ◌≤◌, ◌<◌, ◌≡◌, refl, ap, ◌∙◌, ◌≢◌, inl, inr, Bool, true, false, not, Option,
  none, some, List, [], ◌∷◌, map, arith, Bool-cases, length,
}
use rm_vm.Kernel.System.{pure, M, Sys, ◌>>◌}

-- `hasWork` changes nothing.
has_work_runs : (s : Sys) → LiveTable s → (b : Bool) × (has_work s ≡ some (b, s))
unfolding has_work first
has_work_runs s h = elim (find_proc-cases works s.heap s.scheduler.schedule 0 h) [
  | inl (_, e) ↦ (false, goes_on _ (goes_on _ e))
  | inr (_, k, a, e) ↦ (true, goes_on _ (goes_on _ e))
]

-- What `main` does after the test for work.
abbrev after_test : ℕ → Bool → M (Unit {0})
after_test n work = elim (not work) [ true ↦ pure tt | false ↦ main_loop n ]

main_loop-Rests : (n : ℕ) (s : Sys) → Quiets s → RestsAfter (main_loop n) s
unfolding main_loop kernel_step
main_loop-Rests zero s q = (s, refl, q)
main_loop-Rests (suc n) s q =
    let (s1, e1, (r, x, l, h)) = run_cycle-Rests s q in
    let t = tick_timer s1.timer in
    let s2 : Sys = record s1 { timer = t } in
    let h2 =
      with_parts-Inv s1.machine.cpu s1.kernel t s1.scheduler.current h h.no_pi h.no_si h.last_pi
        h.last_si h.sound.current h.resting in
    let (b, e2) = has_work_runs s2 h.sound.slots in
    elim (Bool-cases b) [
      | inl w ↦
          let (s3, e3, q3) = main_loop-Rests n s2 (r, x, l, h2) in
          (s3, goes_on _ e1 ∙ goes_on _ e2 ∙ ap (λ b. after_test n b s2) w ∙ e3, q3)
      | inr w ↦ (s2, goes_on _ e1 ∙ goes_on _ e2 ∙ ap (λ b. after_test n b s2) w, (r, x, l, h2))
    ]

-- A process that is no job governor, and one that is.
other_Member :
    (e : Entry) (l : List ℕ) (a : ℕ)
    → some e ≢ some Entry.loader_entry
    → some e ≢ some Entry.job_governor_entry
    → Member none e l l a
other_Member e l a n j = record {
  machine = tt;
  kind = n;
  more = λ b i. i;
  fresh = λ f. absurd (j f);
}

governor_Member :
    (l : List ℕ) (a : ℕ) → Member (some create_vm) Entry.job_governor_entry l (a ∷ l) a
governor_Member l a = record {
  machine = create_vm-IsValid;
  kind = λ e. cc e;
  more = λ b i. inr i;
  fresh = λ e. inl refl;
}

-- While the processes come: the last pid that was given is `n`, and `k` job governors may ask for a loader.
abbrev Booted : ℕ → ℕ → Sys → Type 0
Booted n k s = (l : List ℕ) × (length l ≡ k) × (s.scheduler.pid ≡ n) × Inv (quiet io_unit none l) s

abbrev Boots : M (Unit {0}) → Sys → ℕ → ℕ → Type 0
Boots m s n k = (s' : Sys) × (m s ≡ some (tt, s')) × Booted n k s'

-- One process more, then the others.
chain_lem :
    (m m' : M (Unit {0})) (s : Sys) (n n' k k' : ℕ)
    → Boots m s n k
    → ((s1 : Sys) → Booted n k s1 → Boots m' s1 n' k')
    → Boots (m >> m') s n' k'
chain_lem m m' s n n' k k' (s1, e, b) f = let (s2, e', b') = f s1 b in (s2, goes_on _ e ∙ e', b')

other_Boots :
    (s : Sys) (n k pid : ℕ) (pname : List ℕ) (t : ProcType) (e : Entry)
    → some e ≢ some Entry.loader_entry
    → some e ≢ some Entry.job_governor_entry
    → n + 1 + k < 256
    → Booted n k s
    → Boots (add_system pid pname t none e 0) s (n + 1) k
other_Boots s n k pid pname t e no_loader no_governor room (l, el, en, h) =
    let (s', f, h', n', _) =
      add_system-Inv io_unit none l l s pid pname t none e 0 h
        (other_Member e l (length s.heap) no_loader no_governor) (omega (arith, room, el, en)) in
    (s', f, (l, el, omega (arith, n', en), h'))

governor_Boots :
    (s : Sys) (n k pid : ℕ) (pname : List ℕ) (file_id : ℕ)
    → n + 2 + k < 256
    → Booted n k s
    → Boots
        (add_system pid pname ProcType.job_governor
          (some create_vm)
          Entry.job_governor_entry
          file_id)
        s
        (n + 1)
        (k + 1)
governor_Boots s n k pid pname file_id room (l, el, en, h) =
    let l' : List ℕ = length s.heap ∷ l in
    let (s', f, h', n', _) =
      add_system-Inv io_unit none l l' s pid pname ProcType.job_governor (some create_vm)
        Entry.job_governor_entry file_id h (governor_Member l (length s.heap))
        (omega (arith, room, el, en)) in
    (s', f, (l', omega (arith, el), omega (arith, n', en), h'))

-- The job governors of the three programs.
abbrev governor : ℕ → ℕ → ℕ → M (Unit {0})
governor pid digit file_id =
    add_system pid (governor_name digit) ProcType.job_governor (some create_vm)
      Entry.job_governor_entry file_id

governors_Boot :
    (s : Sys)
    → Booted 101 0 s
    → Boots (governor 5 49 1 >> (governor 6 50 2 >> governor 7 51 3)) s 104 3
governors_Boot s b =
    chain_lem (governor 5 49 1) (governor 6 50 2 >> governor 7 51 3) s 102 104 1 3
      (governor_Boots s 101 0 5 (governor_name 49) 1 (omega arith) b)
      λ s1 b1.
        chain_lem (governor 6 50 2) (governor 7 51 3) s1 103 104 2 3
          (governor_Boots s1 102 1 6 (governor_name 50) 2 (omega arith) b1)
          λ s2 b2. governor_Boots s2 103 2 7 (governor_name 51) 3 (omega arith) b2

add_processes-Booted : (s : Sys) → Booted 97 0 s → Boots add_processes s 104 3
unfolding add_processes
add_processes-Booted s b =
    chain_lem (add_system 1 start_stop_name ProcType.start_stop none Entry.start_stop_entry 0) _ s
      98 104 0 3
      (other_Boots s 97 0 1 start_stop_name ProcType.start_stop Entry.start_stop_entry (λ e. cc e)
        (λ e. cc e) (omega arith) b)
      λ s1 b1.
        chain_lem (add_system 2 idle_name ProcType.idle none Entry.idle_entry 0) _ s1 99 104 0 3
          (other_Boots s1 98 0 2 idle_name ProcType.idle Entry.idle_entry (λ e. cc e) (λ e. cc e)
            (omega arith) b1)
          λ s2 b2.
            chain_lem
              (add_system 3 interrupt_name ProcType.interrupt_handler none
                Entry.interrupt_handler_entry 0)
              _ s2 100 104 0 3
              (other_Boots s2 99 0 3 interrupt_name ProcType.interrupt_handler
                Entry.interrupt_handler_entry (λ e. cc e) (λ e. cc e) (omega arith) b2)
              λ s3 b3.
                chain_lem (add_system 4 io_name ProcType.io_handler none Entry.io_handler_entry 0) _
                  s3 101 104 0 3
                  (other_Boots s3 100 0 4 io_name ProcType.io_handler Entry.io_handler_entry
                    (λ e. cc e) (λ e. cc e) (omega arith) b3)
                  λ s4 b4. governors_Boot s4 b4

add_processes-Rests :
    (d : HardDisk) (files : FileTable) → IsDisk d → RestsAfter add_processes (started d files)
add_processes-Rests d files i =
    let (s', e, (l, _, _, h)) =
      add_processes-Booted (started d files)
        ([], refl, started_pid d files, started-Inv d files i) in
    (s', e, (io_unit, none, l, h))

Pool-units :
    (r : Resource) (rm : ResourceManager)
    → Pool 2 1 1 r rm
    → map (λ r. r.available) rm ≡ r.available ∷ 2 ∷ 1 ∷ 1 ∷ []
Pool-units r rm q =
    ap (map (λ r. r.available)) q.shape
    ∙ ap (λ n. r.available ∷ n ∷ q.r3.available ∷ q.r4.available ∷ []) q.mem.1
    ∙ ap (λ n. r.available ∷ 2 ∷ n ∷ q.r4.available ∷ []) q.processor.1
    ∙ ap (λ n. r.available ∷ 2 ∷ 1 ∷ n ∷ []) q.clock.1

unit_low : (x : Option ℕ) (r : Resource) → UnitState x r → r.available ≤ 1
unit_low x r (inl e) = omega (arith, e)
unit_low x r (inr (e, _, _)) = omega (arith, e)

-- Whatever programs the disk and the file table hold, where the sectors of the disk have 16 bytes and it is
-- idle: `main` comes to its end, so that it never uses a process that was freed and no `memcpy` of the input
-- and output leaves its array. At the end the table is well formed and holds live processes only, no unit of
-- the memory, the processor or the timer is out, and every Virtual Machine is valid.
pub main_total :
    (d : HardDisk) (files : FileTable)
    → IsDisk d
    → (s' : Sys) × (main (started d files) ≡ some (tt, s'))
      × Sound s'
      × ((k : ℕ) × (k ≤ 1) × (map (λ r. r.available) s'.resources ≡ k ∷ 2 ∷ 1 ∷ 1 ∷ []))
      × ((a : ℕ) (p : Process) → At s'.heap a p → Valid p.vm)
unfolding main
main_total d files i =
    let (s1, e1, q1) = add_processes-Rests d files i in
    let (s2, e2, q2) = main_loop-Rests 200 s1 q1 in
    let (s3, e3, (r, x, l, h)) = run_cycle-Rests s2 q2 in
    (
      s3,
      goes_on _ e1 ∙ goes_on _ e2 ∙ e3,
      h.sound,
      (r.available, unit_low x r h.units, Pool-units r s3.resources h.pool),
      λ a p m. (h.procs a p m).machine,
    )
