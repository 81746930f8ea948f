-- ===== src/Kernel/Invariant/Handler.antt =====
-- `ioHandlerEntry` of src/kernel/ioHandler.c, with what it makes of the queue and the resource, and the
-- invariant of src/kernel.
use rm_vm.Kernel.Invariant.Change.{state_set-Mild, Mild-Inv, Loads-same, state_set, changed-Inv}
use rm_vm.Kernel.Invariant.Frame.{with_first-Inv}
use rm_vm.Vm.State.{VirtualMachine}
use rm_vm.Kernel.IoHandler.{request_of, carry_out, carry_out_for, complete_for, complete_io}
use rm_vm.Kernel.IoHandler.Unit.{release_lem}
use rm_vm.Kernel.System.Steps.{load-At, At, update-At, goes_on}
use rm_vm.Kernel.System.Safe.{Finds, find_proc-Finds}
use rm_vm.Kernel.Resource.{dequeue, release_unit, release_resource, ResourceManager, Resource}
use rm_vm.Rm.Disk.{HardDisk}
use rm_vm.Kernel.Invariant.Put.{put-Onward, put}
use rm_vm.Kernel.Invariant.{Valid, Onward-refl, Onward, Inv, Ghost}
use rm_vm.Kernel.Scheduler.{conclude, first, wake, release}
use rm_vm.Kernel.Process.{has_pid, Process, ProcState}
use rm_vm.Kernel.Resource.Ring
use rm_vm.Vm.State
use rm_vm.Common.{
  ℕ, ◌+◌, ◌%◌, ◌≡◌, refl, sym, ap, ◌∙◌, subst, ◌≢◌, inl, inr, true, Option, none, some, List, [],
  ◌∷◌, arith, ℕ_discrete, length, get_or, All, IsByte, some-ne-none,
}
use rm_vm.Kernel.System.{update, pure, Sys, M, IoQueue}

-- With no request in the queue.
abbrev pub free_queue : Ghost → Ghost
free_queue g = record g { pending = none }

-- A run that does not look at the queue.
abbrev pub Beside : {A : Type 0} → IoQueue → Ghost → M A → Sys → A → Type 0
Beside {A} q g m s v =
    (s' : Sys) × (m (record s { io = q }) ≡ some (v, record s' { io = q })) × Inv g s' × Onward s s'

-- What `wake` does with what it has found.
abbrev rouse : Option (ℕ × ℕ) → M (Unit {0})
rouse o = elim o [ none ↦ pure tt | some (i, a) ↦ update a (state_set ProcState.ready 0) ]

rouse-Beside :
    (g : Ghost) (s : Sys) (q : IoQueue) (pid : ℕ) (o : Option (ℕ × ℕ))
    → Finds (has_pid pid) s.heap o
    → Inv (free_queue g) s
    → Beside q (free_queue g) (rouse o) s tt
rouse-Beside g s q pid none f h = (s, refl, h, Onward-refl s)
rouse-Beside g s q pid (some (i, a)) (p, l) h =
    let f = state_set ProcState.ready 0 in
    (
      put s a (f p),
      update-At a f (record s { io = q }) p l,
      Mild-Inv a f p l (state_set-Mild ProcState.ready 0) (λ e. absurd (some-ne-none a (sym e))) h,
      put-Onward s a p (f p) l,
    )

wake-Beside :
    (g : Ghost) (s : Sys) (q : IoQueue) (pid : ℕ)
    → Inv (free_queue g) s
    → Beside q (free_queue g) (wake pid) s tt
unfolding wake first
wake-Beside g s q pid h =
    let (o, e, f) = find_proc-Finds (has_pid pid) s.heap s.scheduler.schedule 0 h.sound.slots in
    let (s', r, h', o') = rouse-Beside g s q pid o f h in
    (s', goes_on (λ (o, s). rouse o s) (goes_on _ e) ∙ r, h', o')

release_waiting :
    (r : Resource) (rm : ResourceManager)
    → r.id ≡ 1
    → r.head ≢ r.tail
    → release_resource (r ∷ rm) 1
      ≡ some (some (get_or r.wait_pids r.head 0), record r { head = (r.head + 1) % 32 } ∷ rm)
unfolding release_resource release_unit dequeue
release_waiting r rm i n = ground (arith, i, n)

pub release-Beside :
    (g : Ghost) (s : Sys) (q : IoQueue)
    → Inv (free_queue g) s
    → g.io_res.available ≡ 0
    → (r : Resource) × Beside q (record g { pending = none; io_res = r }) (release 1 true) s true
unfolding release
release-Beside g s q h u =
    let x = h.pool in
    let r = g.io_res in
    let rm : ResourceManager = x.r2 ∷ x.r3 ∷ x.r4 ∷ [] in
    elim (ℕ_discrete r.head r.tail) [
      | yes e ↦
          let r' = record r { available = r.available + 1 } in
          let v : Ring.IsValid r' = record {
            storage = x.ring.storage;
            head_in = x.ring.head_in;
            tail_in = x.ring.tail_in;
          } in
          (
            r',
            (
              record s { resources = r' ∷ rm },
              release_lem (record s { io = q }) r rm x.shape x.io e,
              with_first-Inv r' h x.io v (inr (omega (arith, u), e, refl)) h.queue,
              record { alive = λ a l. l; slots = λ i a e. e },
            ),
          )
      | no n ↦
          let r' = record r { head = (r.head + 1) % 32 } in
          let v : Ring.IsValid r' = record {
            storage = x.ring.storage;
            head_in = omega arith;
            tail_in = x.ring.tail_in;
          } in
          let h1 = with_first-Inv r' h x.io v (inl u) h.queue in
          let (s', e, h2, o) =
            wake-Beside (record g { io_res = r' }) (record s { resources = r' ∷ rm }) q
              (get_or r.wait_pids r.head 0) h1 in
          (
            r',
            (
              s',
              ap (λ o. conclude true o (record s { io = q }))
                    (ap (λ x. release_resource x 1) x.shape ∙ release_waiting r rm x.io n)
                  ∙ goes_on _ e,
              h2,
              record { alive = o.alive; slots = o.slots },
            ),
          )
    ]

-- The process after its transfer.
abbrev pub with_cells : Process → VirtualMachine → List ℕ → Process
with_cells p vm out = record p { vm = some (record vm { memory = out }) }

pub complete_run :
    (s s1 : Sys) (a : ℕ) (p p1 : Process) (vm : VirtualMachine) (code r0 r1 r2 : ℕ)
    (disk : HardDisk) (out : List ℕ)
    → At s.heap a p
    → p.vm ≡ some vm
    → carry_out code r0 r1 r2 s.disk vm.memory ≡ some (disk, out)
    → release 1 true (record (put s a (with_cells p vm out)) { disk = disk }) ≡ some (true, s1)
    → At s1.heap a p1
    → complete_io (request_of a code r0 r1 r2 0) s
      ≡ some (tt, put s1 a (state_set ProcState.ready 0 p1))
unfolding complete_io complete_for carry_out_for
complete_run s s1 a p p1 vm code r0 r1 r2 disk out l m t rel l1 =
    goes_on _ (load-At a s p l)
    ∙ ap (λ o. complete_for (request_of a code r0 r1 r2 0) a o s) m
    ∙ goes_on _ (goes_on _ t)
    ∙ goes_on _ (
        update-At a (λ p. record p { vm = some (record vm { memory = out }) })
          (record s { disk = disk }) p l)
    ∙ goes_on _ (goes_on _ rel)
    ∙ update-At a (state_set ProcState.ready 0) s1 p1 l1

-- The cells of a process that is live.
pub cells-Inv :
    (g : Ghost) (s : Sys) (a : ℕ) (p : Process) (vm : VirtualMachine) (out : List ℕ)
    → Inv (free_queue g) s
    → At s.heap a p
    → p.vm ≡ some vm
    → length out ≡ 255
    → All IsByte out
    → Inv (free_queue g) (put s a (with_cells p vm out))
cells-Inv g s a p vm out h l m z b =
    let old = h.procs a p l in
    let v : State.IsValid vm = subst Valid m old.machine in
    changed-Inv a p l h
      (record { regs = v.regs; words = v.words; pc_word = v.pc_word; cells = z; bytes = b })
      (λ e. absurd (some-ne-none vm (sym m ∙ old.owned e)))
      (Loads-same a p (with_cells p vm out) l h refl refl) (λ e. absurd (some-ne-none a (sym e)))
