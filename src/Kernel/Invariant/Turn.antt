-- ===== src/Kernel/Invariant/Turn.antt =====
-- A turn of `runRange` of src/kernel/scheduler.c, and the invariant of src/kernel.
use rm_vm.Kernel.Invariant.Ends.{Ends, busy}
use rm_vm.Kernel.Invariant.Loaders.{loader_entry-Ends}
use rm_vm.Kernel.Invariant.Job.{job_governor-Ends}
use rm_vm.Kernel.Invariant.Job.{job_governor-Ends}
use rm_vm.Kernel.Invariant.Serve.{io_handler_entry-Turns}
use rm_vm.Kernel.Invariant.Timer.{interrupt_handler_entry-Keeps}
use rm_vm.Kernel.Jobs.{loader_entry, job_governor_entry, idle_entry}
use rm_vm.Kernel.Invariant.Leave.{end_entry-Left, Left}
use rm_vm.Kernel.Cycle.{end_entry, call_entry, run_process}
use rm_vm.Kernel.System.Steps.{goes_on, At}
use rm_vm.Kernel.Invariant.Stop.{start_stop-Stops, Stops}
use rm_vm.Kernel.Invariant.{Inv}
use rm_vm.Kernel.Process.{Entry, Process, EntryResult}
use rm_vm.Kernel.Resource.{Resource}
use rm_vm.Common.{
  ℕ, ◌≡◌, refl, sym, ◌∙◌, ◌≢◌, inl, inr, true, Option, none, some, List, arith, Option-cases,
  get_or,
}
use rm_vm.Kernel.System.{Sys, M, ◌>>=◌}

-- A process that stood in the table when the entry began stands there when it ends.
Ends-Stops :
    (a i : ℕ) (m : M EntryResult) (s : Sys)
    → get_or s.scheduler.schedule i none ≡ some a
    → Ends a m s
    → Stops a m s
Ends-Stops a i m s e (EntryResult.finished, r, x, d, l, (s', f, h, o), (n, dd)) =
    (EntryResult.finished, r, x, d, l, s', f, h, o.alive, (n, dd, inr (i, o.slots i a e)))
Ends-Stops a i m s e (EntryResult.keeps, r, x, d, l, (s', f, h, o), c) =
    (EntryResult.keeps, r, x, d, l, s', f, h, o.alive, c)
Ends-Stops a i m s e (EntryResult.waits, r, x, d, l, (s', f, h, o), c) =
    (EntryResult.waits, r, x, d, l, s', f, h, o.alive, c)

module _ (r : Resource) (x : Option ℕ) (l : List ℕ) (s : Sys) (a i : ℕ) (p : Process)
    (h : Inv (busy r x none l) s) (at : At s.heap a p) (n : x ≢ some a)
    (cur : s.scheduler.current ≡ some a) (slot : get_or s.scheduler.schedule i none ≡ some a) where
  call_entry-Stops :
      (e : Entry) (file_id : ℕ) → p.entry ≡ some e → Stops a (call_entry true e a file_id) s
  unfolding call_entry idle_entry
  call_entry-Stops Entry.start_stop_entry file_id pe = start_stop-Stops r x l s a h n
  call_entry-Stops Entry.idle_entry file_id pe =
      (EntryResult.keeps, r, x, none, l, s, refl, h, λ b z. z, (n, refl))
  call_entry-Stops Entry.interrupt_handler_entry file_id pe =
      let (s', e, h', o) = interrupt_handler_entry-Keeps a h cur (omega arith) in
      (EntryResult.keeps, r, x, none, l, s', e, h', o.alive, (n, refl))
  call_entry-Stops Entry.io_handler_entry file_id pe =
      let (r', x', (s', e, h', o), k) = io_handler_entry-Turns h in
      (EntryResult.keeps, r', x', none, l, s', e, h', o.alive, (k a n, refl))
  call_entry-Stops Entry.job_governor_entry file_id pe =
      Ends-Stops a i (job_governor_entry a file_id) s slot
        (job_governor-Ends r x l s a p h at n file_id pe)
  call_entry-Stops Entry.loader_entry file_id pe =
      Ends-Stops a i (loader_entry a file_id) s slot
        (loader_entry-Ends r x l s a p h at n pe cur file_id)

  enters :
      (e : Entry) (file_id : ℕ)
      → p.entry ≡ some e
      → Left (call_entry true e a file_id >>= end_entry a) s
  enters e file_id pe =
      let (v, r', x', d', l', s', f, h', z, c) = call_entry-Stops e file_id pe in
      let (p', at') = z a (p, at) in
      let (r2, x2, l2, s2, f2, h2) = end_entry-Left r' x' d' l' s' a p' h' at' v c in
      (r2, x2, l2, s2, goes_on _ f ∙ f2, h2)

  -- `runRange` between the request and the release of the processor.
  pub run_process-Left :
      (q : Process) → q.entry ≡ p.entry → q.vm ≡ p.vm → Left (run_process true a q) s
  unfolding run_process
  run_process-Left q qe qv = elim (Option-cases q.entry) [
    | inl e ↦
        let v : q.vm ≡ none = qv ∙ (h.procs a p at).owned (sym qe ∙ e) in
        (r, x, l, s, rw (e, v) refl, h)
    | inr (en, e) ↦
        let (r', x', l', s', f, h') = enters en q.file_id (sym qe ∙ e) in
        (r', x', l', s', rw e f, h')
  ]
