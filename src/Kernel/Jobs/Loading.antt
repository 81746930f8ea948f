-- ===== src/Kernel/Jobs/Loading.antt =====
-- `loaderEntry` of src/kernel/loader.c as the current process, and `loaderLoadFile` under it.
use rm_vm.Kernel.Invariant.Units.{request-At}
use rm_vm.Kernel.Invariant.{Pool}
use rm_vm.Kernel.Jobs.Search.{set-Only, set-LiveTable, first-Only, Only}
use rm_vm.Kernel.Scheduler.{conclude, release, unblock_process, request}
use rm_vm.Kernel.Loader.{loader_load_file}
use rm_vm.Kernel.System.Steps.{At-lt, load-At, set_state-At, At-set, goes_on, update-At, At}
use rm_vm.Kernel.Invariant.Answers.{give_taken, ask_memory, ask_memory, known, taken}
use rm_vm.Kernel.Invariant.Put.{put}
use rm_vm.Kernel.System.Safe.{LiveTable}
use rm_vm.Rm.Disk.{HardDisk}
use rm_vm.Kernel.Process.{EntryResult, ProcState, Process}
use rm_vm.Kernel.Resource.{ResourceManager, Resource}
use rm_vm.Kernel.Jobs.{loader_entry, load_file_for, load_into}
use rm_vm.Vm.State.{VirtualMachine}
use rm_vm.Kernel.System.{set_state, pure, update, when, M, Sys}
use rm_vm.Kernel.System.{◌>>=◌, ◌>>◌}
use rm_vm.Common.{
  set-set, ℕ, ◌<◌, ◌≡◌, refl, ap, ◌∙◌, subst, ◌≢◌, Bool, true, false, Option, none, some, [], ◌∷◌,
  arith, if◌then◌else◌, length, get_or, get_or-set_self, get_or-set_ne,
}

-- `loaderLoadFile` from the answer of the resource manager on.
abbrev pub held : ℕ → VirtualMachine → ℕ → ℕ → ℕ → Bool → M Bool
held b vm file_id pid self granted =
    if granted
    then (do ok ← load_into b vm file_id pid; _ ← release 2 true; pure ok)
    else (do set_state self ProcState.blocked; pure false)

abbrev pub for_current : ℕ → VirtualMachine → ℕ → ℕ → Option ℕ → M Bool
for_current b vm file_id pid c = elim c [
  | none ↦ load_into b vm file_id pid
  | some self ↦ (request 2 (some self) >>= held b vm file_id pid self)
]

-- The parent after `unblockProcess`, where the program was loaded, and at the end.
abbrev woken : Bool → Process → Process
woken ok q = if ok then record q { state = ProcState.ready } else q

abbrev pub served : Bool → Process → Process
served ok q = if ok then record q { loaded = 1; state = ProcState.ready } else q

-- A second write to the same process.
twice :
    (s s' : Sys) (b : ℕ) (q q' : Process)
    → s' ≡ put s b q
    → ◌≡◌ {A = Option (Unit {0} × Sys)} (some (tt, put s' b q')) (some (tt, put s b q'))
twice s s' b q q' e =
    ap (λ s. some (tt, put s b q')) e
    ∙ ap (λ x. some (tt, record s { heap = x })) (set-set s.heap b (some q) (some q'))

module _ (s : Sys) (i b : ℕ) (q q' : Process) (h : LiveTable s)
    (slot : get_or s.scheduler.schedule i none ≡ some b) (at : At s.heap b q)
    (same : q'.pid ≡ q.pid) (only : Only s.heap b q.pid) where
  wake-At :
      (ok : Bool) → when ok (unblock_process q.pid) (put s b q') ≡ some (tt, put s b (woken ok q'))
  unfolding unblock_process
  wake-At false = refl
  wake-At true =
      let s' = put s b q' in
      let at' : At s'.heap b q' = At-set s.heap b q q' at in
      let (k, e) =
        first-Only s' i b q' q.pid (set-LiveTable s s' b q q' at refl refl h) slot at' same
          (set-Only s.heap b q q' b q.pid at same only) in
      goes_on _ e
      ∙ set_state-At b ProcState.ready s' q' at'
      ∙ twice s s' b q' (record q' { state = ProcState.ready }) refl

-- What is loaded for a parent, and the state with it.
abbrev pub outcome : Sys → VirtualMachine → ℕ → Bool × HardDisk × VirtualMachine
outcome s vm file_id = loader_load_file s.disk s.files vm file_id

abbrev pub with_vm : Process → VirtualMachine → Process
with_vm q vm = record q { vm = some vm }

load_into-At :
    (s : Sys) (i b : ℕ) (q : Process) (vm : VirtualMachine) (file_id : ℕ)
    → LiveTable s
    → get_or s.scheduler.schedule i none ≡ some b
    → At s.heap b q
    → Only s.heap b q.pid
    → load_into b vm file_id q.pid s
      ≡ some (
        (outcome s vm file_id).0,
        record (put s b (woken (outcome s vm file_id).0 (with_vm q (outcome s vm file_id).2))) {
          disk = (outcome s vm file_id).1;
        },
      )
unfolding load_into
load_into-At s i b q vm file_id h slot at only =
    let (ok, d, vm') = outcome s vm file_id in
    let s1 : Sys = record s { disk = d } in
    goes_on _ (update-At b (λ p. record p { vm = some vm' }) s1 q at)
    ∙ goes_on _ (wake-At s1 i b q (with_vm q vm') h slot at refl only ok)

finish-At :
    (s : Sys) (b : ℕ) (q : Process) (ok : Bool)
    → b < length s.heap
    → when ok
        (update b (λ p. record p { loaded = 1; state = ProcState.ready }))
        (put s b (woken ok q))
      ≡ some (tt, put s b (served ok q))
finish-At s b q false lt = refl
finish-At s b q true lt =
    let q1 = record q { state = ProcState.ready } in
    update-At b (λ p. record p { loaded = 1; state = ProcState.ready }) (put s b q1) q1
      (get_or-set_self s.heap b (some q1) none lt)
    ∙ twice s (put s b q1) b q1 (record q { loaded = 1; state = ProcState.ready }) refl

module _ {m c t : ℕ} {r : Resource} (s : Sys) (a b i : ℕ) (p q : Process) (vm : VirtualMachine)
    (file_id : ℕ) (h : LiveTable s) (cur : s.scheduler.current ≡ some a) (at : At s.heap a p)
    (slot : get_or s.scheduler.schedule i none ≡ some b) (bt : At s.heap b q)
    (only : Only s.heap b q.pid) (apart : a ≢ b) (pool : Pool m c t r s.resources) (u : 0 < m) where
  abbrev pub asker : Process
  asker = record p { waiting_res_id = 0 }

  abbrev pub asked : Sys
  asked = put s a asker

  asked-At : At asked.heap b q
  asked-At = get_or-set_ne s.heap a b (some asker) none apart ∙ bt

  load_file_for-At :
      load_file_for b vm file_id q.pid s
      ≡ some (
        (outcome s vm file_id).0,
        record (put asked b (woken (outcome s vm file_id).0 (with_vm q (outcome s vm file_id).2))) {
          disk = (outcome s vm file_id).1;
        },
      )
  unfolding load_file_for release
  load_file_for-At =
      let ok = (outcome s vm file_id).0 in
      let rm1 : ResourceManager = r ∷ taken pool.r2 ∷ pool.r3 ∷ pool.r4 ∷ [] in
      let s1 : Sys = record asked { resources = rm1 } in
      let s2 : Sys = record (put s1 b (woken ok (with_vm q (outcome s vm file_id).2))) {
        disk = (outcome s vm file_id).1;
      } in
      ap (λ c. for_current b vm file_id q.pid c s) cur
      ∙ goes_on (λ (g, s). held b vm file_id q.pid a g s)
          (request-At true 2 a p s rm1 at (known pool 2 (omega arith)) (ask_memory pool p.pid u))
      ∙ goes_on _ (
          load_into-At s1 i b q vm file_id (set-LiveTable s s1 a p asker at refl refl h) slot
            asked-At (set-Only s.heap a p asker b q.pid at refl only))
      ∙ goes_on _ (ap (λ o. conclude true o s2) (give_taken pool u))

  -- A loader that is current, whose parent, the only process with its pid, stands in the table with a Virtual
  -- Machine, where a unit of the memory is there and nobody waits for it: `loaderEntry` finishes. The parent
  -- has the machine that the load leaves; where the load succeeded it counts as loaded and is ready, and
  -- where it failed it is otherwise as it was. The loader waits for no resource, the disk is as the load
  -- leaves it, and the rest of the state, the units of the resources included, is as before.
  pub loader_entry_lem :
      q.pid ≡ p.parent_pid
      → q.vm ≡ some vm
      → loader_entry a file_id s
        ≡ some (
          EntryResult.finished,
          record (put asked b
              (served (outcome s vm file_id).0 (with_vm q (outcome s vm file_id).2))) {
                disk = (outcome s vm file_id).1;
              },
        )
  unfolding loader_entry
  loader_entry_lem parent has =
      let (ok, d, vm') = outcome s vm file_id in
      let (k, found) =
        first-Only s i b q p.parent_pid h slot bt parent (subst (Only s.heap b) parent only) in
      goes_on _ (load-At a s p at)
      ∙ goes_on _ found
      ∙ goes_on _ (
          goes_on _ (load-At b s q bt)
          ∙ rw has (
              goes_on _ load_file_for-At
              ∙ finish-At (record asked { disk = d }) b (with_vm q vm') ok
                  (At-lt asked.heap b q asked-At)))
