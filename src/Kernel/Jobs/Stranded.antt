-- ===== src/Kernel/Jobs/Stranded.antt =====
-- `jobGovernorEntry` and `startStopEntry` of src/main.c for a program that `loaderEntry` did not load.
use rm_vm.Kernel.Jobs.Loading.{served, loader_entry_lem, with_vm, outcome}
use rm_vm.Kernel.Invariant.{Pool}
use rm_vm.Kernel.Resource.{Resource}
use rm_vm.Kernel.Jobs.Search.{Only, set-LiveTable}
use rm_vm.Vm.State.{VirtualMachine}
use rm_vm.Kernel.Invariant.Change.{blocked}
use rm_vm.Kernel.Invariant.Put.{put}
use rm_vm.Kernel.Scheduler.Search.{Skips, find_proc-cases}
use rm_vm.Kernel.Invariant.Trap.{stay_blocked-At, vacant}
use rm_vm.Kernel.Scheduler.{first}
use rm_vm.Kernel.System.Steps.{At-set, load-At, At-unique, At, goes_on}
use rm_vm.Kernel.System.Safe.{LiveTable}
use rm_vm.Kernel.Process.{has_state, Process, has_type, EntryResult}
use rm_vm.Kernel.Jobs.{
  loader_entry, stay_blocked, is_daemon, works, job_governor_entry, start_stop_entry, has_work,
}
use rm_vm.Kernel.System.{pure, M, Sys, ◌>>=◌}
use rm_vm.Common.{
  ℕ, zero, suc, ◌<◌, ◌≡◌, refl, ap, ◌∙◌, subst, ◌≢◌, inl, inr, true, false, none, some, arith,
  get_or, get_or-set_ne, All-get_or,
}

-- A process in the table that has work to do, has a Virtual Machine and waits for its loader.
record Stranded (b : ℕ) (s : Sys) : Type 0 where
  live : LiveTable s
  slot : ℕ
  stands : get_or s.scheduler.schedule slot none ≡ some b
  proc : Process
  here : At s.heap b proc
  vm : VirtualMachine
  machine : proc.vm ≡ some vm
  loading : proc.loaded ≡ 2
  busy : works proc ≡ true

has_work-Stranded : (b : ℕ) (s : Sys) → Stranded b s → has_work s ≡ some (true, s)
unfolding has_work first
has_work-Stranded b s h = elim (find_proc-cases works s.heap s.scheduler.schedule 0 h.live) [
  | inl (all, e) ↦
      let (u, mu, other) =
        subst (Skips works s.heap) h.stands
          (All-get_or (Skips works s.heap) s.scheduler.schedule h.slot none all tt) in
      absurd (cc (other, h.busy, ap works (At-unique s.heap b b u h.proc mu refl h.here)))
  | inr (_, k, a, e) ↦ goes_on _ (goes_on _ e)
]

works-blocked : (p : Process) → works p ≡ true → works (blocked p) ≡ true
unfolding works is_daemon has_type has_state
works-blocked p e = ground (arith, e)

-- A turn of the job governor.
turn-Stranded :
    (b file_id : ℕ) (s : Sys)
    → Stranded b s
    → (s' : Sys) × (job_governor_entry b file_id s ≡ some (EntryResult.waits, s')) × Stranded b s'
unfolding job_governor_entry
turn-Stranded b file_id s h =
    let p = h.proc in
    let s' = vacant (put s b (blocked p)) in
    let run : job_governor_entry b file_id s ≡ stay_blocked b s =
      goes_on _ (load-At b s p h.here) ∙ rw (h.machine, h.loading) refl in
    (
      s',
      run ∙ stay_blocked-At s b p h.here,
      record {
        live = set-LiveTable s (put s b (blocked p)) b p (blocked p) h.here refl refl h.live;
        slot = h.slot;
        stands = h.stands;
        proc = blocked p;
        here = At-set s.heap b p (blocked p) h.here;
        vm = h.vm;
        machine = h.machine;
        loading = h.loading;
        busy = works-blocked p h.busy;
      },
    )

-- The turns of a job governor.
abbrev pub turns : ℕ → ℕ → ℕ → M (Unit {0})
turns zero b file_id = pure tt
turns (suc n) b file_id = do _ ← job_governor_entry b file_id; turns n b file_id

turns-Stranded :
    (n b file_id : ℕ) (s : Sys)
    → Stranded b s
    → (s' : Sys) × (turns n b file_id s ≡ some (tt, s')) × Stranded b s'
turns-Stranded zero b file_id s h = (s, refl, h)
turns-Stranded (suc n) b file_id s h =
    let (s1, e1, h1) = turn-Stranded b file_id s h in
    let (s2, e2, h2) = turns-Stranded n b file_id s1 h1 in (s2, goes_on _ e1 ∙ e2, h2)

start_stop-Stranded :
    (b : ℕ) (s : Sys) → Stranded b s → start_stop_entry true s ≡ some (EntryResult.keeps, s)
unfolding start_stop_entry
start_stop-Stranded b s h = goes_on _ (has_work-Stranded b s h)

module _ {m c t : ℕ} {r : Resource} (s : Sys) (a b i : ℕ) (p q : Process) (vm : VirtualMachine)
    (file_id n : ℕ) (h : LiveTable s) (cur : s.scheduler.current ≡ some a) (at : At s.heap a p)
    (slot : get_or s.scheduler.schedule i none ≡ some b) (bt : At s.heap b q)
    (only : Only s.heap b q.pid) (apart : a ≢ b) (pool : Pool m c t r s.resources) (u : 0 < m)
    (parent : q.pid ≡ p.parent_pid) (has : q.vm ≡ some vm) (two : q.loaded ≡ 2)
    (busy : works q ≡ true) (fails : (outcome s vm file_id).0 ≡ false) where
  abbrev asker : Process
  asker = record p { waiting_res_id = 0 }

  abbrev asked : Sys
  asked = put s a asker

  -- What the loader leaves.
  abbrev failed : Sys
  failed = record (put asked b (with_vm q (outcome s vm file_id).2)) {
    disk = (outcome s vm file_id).1;
  }

  loader_fails : loader_entry a file_id s ≡ some (EntryResult.finished, failed)
  loader_fails =
      loader_entry_lem s a b i p q vm file_id h cur at slot bt only apart pool u parent has
      ∙ ap
          (λ ok. some (
            EntryResult.finished,
            record (put asked b (served ok (with_vm q (outcome s vm file_id).2))) {
              disk = (outcome s vm file_id).1;
            },
          ))
          fails

  failed-Stranded : Stranded b failed
  unfolding works is_daemon has_state has_type
  failed-Stranded =
      let bt1 : At asked.heap b q = get_or-set_ne s.heap a b (some asker) none apart ∙ bt in
      let q' = with_vm q (outcome s vm file_id).2 in
      record {
        live =
            set-LiveTable asked failed b q q' bt1 refl refl
              (set-LiveTable s asked a p asker at refl refl h);
        slot = i;
        stands = slot;
        proc = q';
        here = At-set asked.heap b q q' bt1;
        vm = (outcome s vm file_id).2;
        machine = refl;
        loading = two;
        busy = busy;
      }

  -- A loader that is current, whose parent, the only process with its pid, stands in the table, waits for it
  -- with its Virtual Machine and counts as work, where a unit of the memory is there and nobody waits for
  -- it: if the program cannot be loaded, the loader finishes all the same. After any number of turns of the
  -- parent as a job governor, with nothing in between, there is still work to do, so that a turn of the
  -- start/stop process keeps it and changes nothing.
  pub loader_entry_strands :
      (s1 : Sys) × (s2 : Sys) × (loader_entry a file_id s ≡ some (EntryResult.finished, s1))
      × (turns n b file_id s1 ≡ some (tt, s2))
      × (has_work s2 ≡ some (true, s2))
      × (start_stop_entry true s2 ≡ some (EntryResult.keeps, s2))
  loader_entry_strands =
      let (s2, e, k) = turns-Stranded n b file_id failed failed-Stranded in
      (failed, s2, loader_fails, e, has_work-Stranded b s2 k, start_stop-Stranded b s2 k)
