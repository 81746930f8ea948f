-- ===== src/Kernel/Invariant/Job.antt =====
-- `jobGovernorEntry` of src/kernel/scheduler.c, on every branch, and the invariant of src/kernel.
use rm_vm.Kernel.Invariant.Ends.{Ends-run, Ends, busy}
use rm_vm.Kernel.Invariant.Change.{blocked-Mild, Mild-Inv, Loads-same, blocked, changed-Inv}
use rm_vm.Kernel.Invariant.Trap.{vacant-Inv, stay_blocked-At, vacant, trap-Parks}
use rm_vm.Vm.Cpu.Round.{Service, Returned}
use rm_vm.Vm.Cpu.Run.{run_operations_total}
use rm_vm.Kernel.Invariant.Put.{put, put-Onward}
use rm_vm.Vm.Cpu.{Status}
use rm_vm.Kernel.Jobs.{start_loader, operate, job_governor_entry, stay_blocked, run_job}
use rm_vm.Kernel.System.Steps.{load-At, update-At, goes_on, At-set, At}
use rm_vm.Kernel.Invariant.Govern.{start_loader-Ends}
use rm_vm.Kernel.Invariant.{Valid, Onward-trans, IsLoader, Onward-refl, Inv}
use rm_vm.Vm.State.{VirtualMachine}
use rm_vm.Kernel.Resource.{Resource}
use rm_vm.Kernel.Process.{Entry, EntryResult, Process}
use rm_vm.Common.{
  ℕ, ◌≤◌, ◌≡◌, refl, sym, ◌∙◌, subst, ◌≢◌, ◌⊎◌, inl, inr, Option, none, some, List, arith, ◌==◌,
  if◌then◌else◌, Bool-cases, Option-cases, ==→eq, some-ne-none,
}
use rm_vm.Kernel.System.{M, update, pure, Sys, ◌>>=◌, ◌>>◌}
use rm_vm.Vm.State

-- The job governor with the machine that its program left.
abbrev holding : Process → VirtualMachine → Process
holding p vm = record p { vm = some vm }

abbrev retired : Process → Process
retired p = record p { vm = none; loaded = 3 }

trap_known :
    (vm : VirtualMachine)
    → Service Status.trapped vm
    → (vm.trap_code ≡ 1) ⊎ (vm.trap_code ≡ 2) ⊎ (vm.trap_code ≡ 4)
trap_known vm (_, _, _, inl e) = inr (inr e)
trap_known vm (_, _, _, inr (inl e, _)) = inl e
trap_known vm (_, _, _, inr (inr e, _)) = inr (inl e)

trap_fits :
    (vm : VirtualMachine) → Service Status.trapped vm → (vm.trap_code ≡ 4) ⊎ (vm.trap_r1 ≤ 255)
trap_fits vm (_, _, _, inl e) = inl e
trap_fits vm (_, _, _, inr (_, f)) = inr (omega (arith, f))

module _ (r : Resource) (x : Option ℕ) (l : List ℕ) (s : Sys) (a : ℕ) (p : Process)
    (h : Inv (busy r x none l) s) (at : At s.heap a p) (n : x ≢ some a) where
  finishes : Ends a (pure EntryResult.finished) s
  finishes = (
    EntryResult.finished,
    r,
    x,
    none,
    l,
    (s, refl, h, Onward-refl s),
    (n, λ c e. absurd (some-ne-none c (sym e))),
  )

  waits : Ends a (stay_blocked a) s
  waits =
      let o = put-Onward s a p (blocked p) at in
      (
        EntryResult.waits,
        r,
        x,
        none,
        l,
        (
          vacant (put s a (blocked p)),
          stay_blocked-At s a p at,
          vacant-Inv (Mild-Inv a blocked p at blocked-Mild (λ e. absurd (n e)) h),
          record { alive = o.alive; slots = o.slots },
        ),
        refl,
      )

  retires : p.loaded ≡ 1 → Ends a (update a retired >> pure EntryResult.finished) s
  retires one =
      let q = retired p in
      let no_loader = λ (b : ℕ). λ (u : Process). λ (m : At s.heap b u). λ (i : IsLoader u).
        λ (e : p.pid ≡ u.parent_pid). elim (h.parents b a u p m at i e) as (λ _. ⊥) [
          | inl f ↦ some-ne-none b (sym f)
          | inr two ↦ omega (arith, two, one)
        ] in
      let h1 : Inv (busy r x none l) (put s a q) =
        changed-Inv a p at h tt (λ e. refl)
          (record {
            fresh = λ e. omega (arith, e);
            parents = λ b u m i e. absurd (no_loader b u m i e);
          })
          (λ e. absurd (n e)) in
      (
        EntryResult.finished,
        r,
        x,
        none,
        l,
        (put s a q, goes_on _ (update-At a retired s p at), h1, put-Onward s a p q at),
        (n, λ c e. absurd (some-ne-none c (sym e))),
      )

  traps :
      (vm : VirtualMachine)
      → p.loaded ≡ 1
      → p.vm ≢ none
      → State.IsValid vm
      → (vm.trap_code ≡ 1) ⊎ (vm.trap_code ≡ 2) ⊎ (vm.trap_code ≡ 4)
      → (vm.trap_code ≡ 4) ⊎ (vm.trap_r1 ≤ 255)
      → Ends a (run_job a (Status.trapped, vm)) s
  unfolding run_job
  traps vm one has v known fits =
      let o = h.procs a p at in
      let q = holding p vm in
      let h1 : Inv (busy r x none l) (put s a q) =
        changed-Inv a p at h v (λ e. absurd (has (o.owned e))) (Loads-same a p q at h refl refl)
          (λ e. absurd (n e)) in
      let (r', x', (s', e, h2, o2)) =
        trap-Parks a q vm.trap_code vm.trap_r0 vm.trap_r1 vm.trap_r2 h1 (At-set s.heap a p q at) n
          one known fits in
      (
        EntryResult.waits,
        r',
        x',
        none,
        l,
        (
          s',
          goes_on _ (update-At a (λ p. record p { vm = some vm }) s p at) ∙ e,
          h2,
          Onward-trans (put-Onward s a p q at) o2,
        ),
        refl,
      )

  runs :
      (vm vm' : VirtualMachine) (st : Status)
      → p.loaded ≡ 1
      → p.vm ≡ some vm
      → Returned vm st vm'
      → Ends a (run_job a (st, vm')) s
  unfolding run_job
  runs vm vm' Status.halted one m t = retires one
  runs vm vm' Status.failed one m t = retires one
  runs vm vm' Status.trapped one m t =
      traps vm' one (λ e. some-ne-none vm (sym m ∙ e)) t.valid (trap_known vm' t.service)
        (trap_fits vm' t.service)

  goes : (vm : VirtualMachine) → p.loaded ≡ 1 → p.vm ≡ some vm → Ends a (operate vm >>= run_job a) s
  unfolding operate
  goes vm one m =
      let v : State.IsValid vm = subst Valid m (h.procs a p at).machine in
      let (st, vm', e, t) = run_operations_total v in
      let (v', r', x', d', l', (s', f, h', o'), af) = runs vm vm' st one m t in
      (v', r', x', d', l', (s', goes_on _ (goes_on _ e) ∙ f, h', o'), af)

  -- What follows the test for a machine.
  abbrev dispatch : ℕ → VirtualMachine → M EntryResult
  dispatch file_id vm =
      if p.loaded == 0
      then start_loader a p.pid file_id
      else if p.loaded == 2
      then stay_blocked a
      else if p.loaded == 1
      then (operate vm >>= run_job a)
      else pure EntryResult.finished

  dispatch-Ends :
      (file_id : ℕ) (vm : VirtualMachine)
      → p.vm ≡ some vm
      → p.entry ≡ some Entry.job_governor_entry
      → Ends a (dispatch file_id vm) s
  dispatch-Ends file_id vm m jg = elim (Bool-cases (p.loaded == 0)) [
    | inl e0 ↦ rw e0 (start_loader-Ends r x l s a p h at n jg (==→eq p.loaded 0 e0) file_id)
    | inr e0 ↦ elim (Bool-cases (p.loaded == 2)) [
      | inl e2 ↦ rw (e0, e2) waits
      | inr e2 ↦ elim (Bool-cases (p.loaded == 1)) [
        | inl e1 ↦ rw (e0, e2, e1) (goes vm (==→eq p.loaded 1 e1) m)
        | inr e1 ↦ rw (e0, e2, e1) finishes
      ]
    ]
  ]

  -- `jobGovernorEntry` on every branch.
  pub job_governor-Ends :
      (file_id : ℕ)
      → p.entry ≡ some Entry.job_governor_entry
      → Ends a (job_governor_entry a file_id) s
  unfolding job_governor_entry
  job_governor-Ends file_id jg = elim (Option-cases p.vm) [
    | inl m ↦
        Ends-run a (job_governor_entry a file_id) (pure EntryResult.finished) s
          (goes_on _ (load-At a s p at) ∙ rw m refl) finishes
    | inr (vm, m) ↦
        Ends-run a (job_governor_entry a file_id) (dispatch file_id vm) s
          (goes_on _ (load-At a s p at) ∙ rw m refl) (dispatch-Ends file_id vm m jg)
  ]
