-- ===== src/Kernel/Jobs/Request.antt =====
-- `jobGovernorEntry` of src/main.c as it asks for a loader, and the loader's turn.
use rm_vm.Kernel.Jobs.Loading.{loader_entry_lem, with_vm, served, outcome}
use rm_vm.Kernel.Invariant.{Pool}
use rm_vm.Vm.State.{VirtualMachine}
use rm_vm.Kernel.Resource.{Resource}
use rm_vm.Kernel.Scheduler.Search.{LiveSlot}
use rm_vm.Kernel.Invariant.Heap.{At-alloc-cases, At-alloc_new, At-alloc_old}
use rm_vm.Kernel.Invariant.Spawn.{spawned}
use rm_vm.Kernel.Invariant.Put.{put}
use rm_vm.Kernel.Invariant.Fills.{All-Fills, kept-Fills}
use rm_vm.Kernel.Invariant.Trap.{stay_blocked-At, vacant}
use rm_vm.Kernel.Jobs.{loader_name, loader_entry, start_loader}
use rm_vm.Kernel.Invariant.Launch.{
  set-append_last, set-append_left, add_proc-Launched, Launched, with_pid, put_at,
}
use rm_vm.Kernel.Jobs.Search.{set-LiveTable, set-Only, Only}
use rm_vm.Kernel.System.Steps.{update-At, goes_on, At-lt, At-set, At}
use rm_vm.Kernel.System.Safe.{All-Alive, LiveTable}
use rm_vm.Kernel.Invariant.Change.{blocked}
use rm_vm.Kernel.Scheduler.Table.{IsTable, Chosen}
use rm_vm.Kernel.System.{alloc, Scheduler, Sys}
use rm_vm.Kernel.Process.{has_state, ProcState, Entry, ProcType, init_process, EntryResult, Process}
use rm_vm.Common.{
  set-set, ℕ, ◌+◌, ◌≤◌, ◌<◌, ◌≡◌, refl, sym, ap, ◌∙◌, ◌≢◌, inl, inr, true, Option, none, some, List,
  [], ◌∷◌, ◌++◌, arith, length, get_or, set, length-set, get_or-set_ne,
}

abbrev pub asked : Process → Process
asked q = record q { loaded = 2 }

-- The governor once it waits.
abbrev pub waiting_governor : Process → Process
waiting_governor q = blocked (asked q)

-- The new loader is the current process.
abbrev pub on_turn : ℕ → Sys → Sys
on_turn a s = record s { scheduler = record (s.scheduler) { current = some a } }

-- The process that `jobGovernorEntry` makes, before it has its pid.
abbrev pub loader_of : ℕ → ℕ → Process
loader_of pid file_id =
    record (init_process 0 true loader_name ProcType.loader none (some Entry.loader_entry)
      file_id) { parent_pid = pid }

module _ (s : Sys) (b : ℕ) (q : Process) (file_id : ℕ) where
  abbrev pub child : Process
  child = with_pid (loader_of q.pid file_id) (s.scheduler.pid + 1)

  -- The state of the table `t`, with the governor on its way to wait.
  abbrev pub after : Scheduler → Sys
  after t = vacant (put (put (spawned s child t) b (asked q)) b (waiting_governor q))

  pub start_loader-At :
      IsTable s.scheduler
      → s.scheduler.pid < 255
      → At s.heap b q
      → (t : Scheduler) × (start_loader b q.pid file_id s ≡ some (EntryResult.waits, after t))
        × Launched true s.scheduler t (length s.heap)
  unfolding start_loader alloc init_process
  start_loader-At it low bt =
      let (_, t, e, lt) = add_proc-Launched s (loader_of q.pid file_id) it low in
      let old : At (spawned s child t).heap b q = At-alloc_old s.heap child b q bt in
      (
        t,
        goes_on _ e
            ∙ goes_on _ (update-At b asked (spawned s child t) q old)
            ∙ stay_blocked-At (put (spawned s child t) b (asked q)) b (asked q)
                (At-set (spawned s child t).heap b q (asked q) old),
        lt,
      )

module _ (s : Sys) (b i : ℕ) (q : Process) (file_id : ℕ) (h : LiveTable s)
    (slot : get_or s.scheduler.schedule i none ≡ some b) (bt : At s.heap b q)
    (pids : (c : ℕ) (u : Process) → At s.heap c u → u.pid ≤ s.scheduler.pid)
    (only : Only s.heap b q.pid) (t : Scheduler)
    (lt : Launched true s.scheduler t (length s.heap)) where
  abbrev loader : Process
  loader = child s b q file_id

  abbrev asked_state : Sys
  asked_state = after s b q file_id t

  old : At (spawned s loader t).heap b q
  old = At-alloc_old s.heap loader b q bt

  mid : At (put (spawned s loader t) b (asked q)).heap b (asked q)
  mid = At-set (spawned s loader t).heap b q (asked q) old

  governor-At : At asked_state.heap b (waiting_governor q)
  governor-At =
      At-set (put (spawned s loader t) b (asked q)).heap b (asked q) (waiting_governor q) mid

  apart : b ≢ length s.heap
  apart e = omega (arith, At-lt s.heap b q bt, e)

  child-At : At asked_state.heap (length s.heap) loader
  child-At =
      get_or-set_ne (put (spawned s loader t) b (asked q)).heap b (length s.heap)
        (some (waiting_governor q)) none apart
      ∙ get_or-set_ne (spawned s loader t).heap b (length s.heap) (some (asked q)) none apart
      ∙ At-alloc_new s.heap loader

  after-Live : LiveTable asked_state
  after-Live =
      let sp = spawned s loader t in
      let live : LiveTable sp =
        All-Fills (LiveSlot sp.heap) s.scheduler.schedule t.schedule (length s.heap) lt.fills
          (All-Alive s.heap sp.heap s.scheduler.schedule
            (λ c (u, l). (u, At-alloc_old s.heap loader c u l)) h)
          (loader, At-alloc_new s.heap loader) in
      set-LiveTable (put sp b (asked q)) (put (put sp b (asked q)) b (waiting_governor q)) b
        (asked q) (waiting_governor q) mid refl refl
        (set-LiveTable sp (put sp b (asked q)) b q (asked q) old refl refl live)

  after-Only : Only asked_state.heap b q.pid
  after-Only =
      let sp = spawned s loader t in
      let first : Only sp.heap b q.pid = λ c u m e. elim (At-alloc-cases s.heap loader c u m) [
        | inl (_, f) ↦ absurd (omega (arith, e, ap (λ p. p.pid) f, pids b q bt))
        | inr l ↦ only c u l e
      ] in
      set-Only (put sp b (asked q)).heap b (asked q) (waiting_governor q) b q.pid mid refl
        (set-Only sp.heap b q (asked q) b q.pid old refl first)

  after_slot : get_or asked_state.scheduler.schedule i none ≡ some b
  after_slot = kept-Fills s.scheduler.schedule t.schedule (length s.heap) i b lt.fills slot

-- The writes of the two turns, where `y` is the loader, behind the others.
writes {ℓ} :
    {A : Type ℓ} (xs : List A) (b : ℕ) (u v w y y' : A)
    → b < length xs
    → (set (set (xs ++ y ∷ []) b u) b v ≡ set xs b v ++ y ∷ [])
      × (set (set (set (set (xs ++ y ∷ []) b u) b v) (length xs) y') b w ≡ set xs b w ++ y' ∷ [])
writes xs b u v w y y' lt =
    let first = set-set (xs ++ y ∷ []) b u v ∙ set-append_left xs (y ∷ []) b v lt in
    let xs' = set xs b v in
    (
      first,
      ap (λ h. set (set h (length xs) y') b w) first
          ∙ ap (λ n. set (set (xs' ++ y ∷ []) n y') b w) (sym (length-set xs b v))
          ∙ ap (λ h. set h b w) (set-append_last xs' y y')
          ∙ set-append_left xs' (y' ∷ []) b w (omega (arith, lt, length-set xs b v))
          ∙ ap (λ h. h ++ y' ∷ []) (set-set xs b v w),
    )

-- For a job governor with a Virtual Machine that stands in the table and is the only process with its pid,
-- where the last pid that was given is below 255 and no pid is above it, and where a unit of the memory is
-- there and nobody waits for it: it makes a loader, which is ready and gets the highest free slot from 80
-- up to the top of the window, or none if there is none, while no other slot changes; and it waits, blocked.
-- As the current process the loader then finishes, whatever the file: the governor has the machine that
-- the load leaves, and if the load succeeded it counts as loaded and is ready, else it waits as before. No
-- other process has changed, the units of the resources are as they were, and the disk is as the load
-- leaves it.
pub start_loader-loader_entry :
    {m c t : ℕ} {r : Resource} (s : Sys) (b i : ℕ) (q : Process) (vm : VirtualMachine) (file_id : ℕ)
    → IsTable s.scheduler
    → s.scheduler.pid < 255
    → LiveTable s
    → get_or s.scheduler.schedule i none ≡ some b
    → At s.heap b q
    → ((c : ℕ) (u : Process) → At s.heap c u → u.pid ≤ s.scheduler.pid)
    → Only s.heap b q.pid
    → q.vm ≡ some vm
    → Pool m c t r s.resources
    → 0 < m
    → let a = length s.heap in
      let loader = with_pid (loader_of q.pid file_id) (s.scheduler.pid + 1) in
      let (ok, disk, vm') = outcome s vm file_id in
      (s1 : Sys) × (s2 : Sys) × (o : Option ℕ) × (start_loader b q.pid file_id s
        ≡ some (EntryResult.waits, s1))
      × Chosen s.scheduler true o
      × (s1.scheduler.schedule ≡ put_at s.scheduler a o)
      × (has_state ProcState.ready loader ≡ true)
      × (loader_entry a file_id (on_turn a s1) ≡ some (EntryResult.finished, s2))
      × (s1.heap ≡ set s.heap b (some (waiting_governor q)) ++ some loader ∷ [])
      × (s2.heap
          ≡ set s.heap b (some (served ok (with_vm (waiting_governor q) vm'))) ++ some loader ∷ [])
      × (s2.resources ≡ s.resources)
      × (s2.disk ≡ disk)
unfolding init_process has_state
start_loader-loader_entry s b i q vm file_id it low h slot bt pids only has pool u =
    let (t, e, lt) = start_loader-At s b q file_id it low bt in
    let a = length s.heap in
    let s1 = after s b q file_id t in
    let loader = child s b q file_id in
    let q1 = waiting_governor q in
    let (ok, d, vm') = outcome s vm file_id in
    let (w1, w2) =
      writes s.heap b (some (asked q)) (some q1) (some (served ok (with_vm q1 vm'))) (some loader)
        (some loader) (At-lt s.heap b q bt) in
    let s2 : Sys = record (put (put (on_turn a s1) a loader) b (served ok (with_vm q1 vm'))) {
      disk = d;
    } in
    (
      s1,
      s2,
      lt.slot,
      e,
      lt.chosen,
      lt.placed,
      refl,
      loader_entry_lem (on_turn a s1) a b i loader q1 vm file_id
          (after-Live s b i q file_id h slot bt pids only t lt) refl
          (child-At s b i q file_id h slot bt pids only t lt)
          (after_slot s b i q file_id h slot bt pids only t lt)
          (governor-At s b i q file_id h slot bt pids only t lt)
          (after-Only s b i q file_id h slot bt pids only t lt)
          (λ eq. apart s b i q file_id h slot bt pids only t lt (sym eq)) pool u refl has,
      w1,
      w2,
      refl,
      refl,
    )
