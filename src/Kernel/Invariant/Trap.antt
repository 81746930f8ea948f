-- ===== src/Kernel/Invariant/Trap.antt =====
-- A job governor whose program asks for input or output: `jobGovernorEntry` of src/kernel/scheduler.c from
-- `enqueueIORequest` on, and the invariant of src/kernel.
use rm_vm.Kernel.Invariant.Refusal.{request_refused, still_Pending, enqueue-id, nobody_waits}
use rm_vm.Kernel.Invariant.Frame.{with_io-Inv, with_first-Inv}
use rm_vm.Kernel.Invariant.Change.{
  blocked-Mild, state_set-Mild, mark-Mild, Mild-Inv, blocked, Apart, state_set,
}
use rm_vm.Kernel.Invariant.Units.{request-At}
use rm_vm.Kernel.Invariant.Handler.{free_queue}
use rm_vm.Kernel.IoHandler.Unit.{has_first}
use rm_vm.Kernel.IoHandler.Steps.{queued, enqueue_lem, head-push, Empty}
use rm_vm.Kernel.Jobs.{stay_blocked}
use rm_vm.Kernel.System.Steps.{At-set, set_state-At, goes_on, At}
use rm_vm.Kernel.IoHandler.{accept, push, request_of, enqueue_io_request}
use rm_vm.Kernel.Resource.{enqueue, request_resource, ResourceManager, Resource}
use rm_vm.Kernel.Scheduler.{has_res, mark_request}
use rm_vm.Kernel.Invariant.Parts.{with_parts-Inv, with_parts}
use rm_vm.Kernel.Process.{has_state, EntryResult, Process, ProcState}
use rm_vm.Kernel.Invariant.Put.{put-Onward, put}
use rm_vm.Kernel.Resource.Ring.{waiting}
use rm_vm.Kernel.Invariant.{Onward-trans, Waits, Request, Yields, Inv, Ghost}
use rm_vm.Common.{
  ℕ, ◌+◌, ◌-◌, ◌%◌, ◌≤◌, ◌≡◌, refl, sym, ap, ◌∙◌, subst, ◌⊎◌, inl, inr, true, false, Option, none,
  some, [], ◌∷◌, arith, length-set, some-ne-none,
}
use rm_vm.Kernel.System.{M, Sys, ◌>>=◌}
use rm_vm.Kernel.Resource.Ring

-- Nobody is current.
abbrev pub vacant : Sys → Sys
vacant s = with_parts s s.machine.cpu s.kernel s.timer none

pub vacant-Inv : {g : Ghost} {s : Sys} → Inv g s → Inv g (vacant s)
vacant-Inv {g} {s} h =
    with_parts-Inv s.machine.cpu s.kernel s.timer none h h.no_pi h.no_si h.last_pi h.last_si tt
      (λ b e. absurd (some-ne-none b (sym e)))

-- The run of `enqueueIORequest` and of what follows it in `jobGovernorEntry`.
abbrev pub trap : ℕ → ℕ → ℕ → ℕ → ℕ → M EntryResult
trap a code r0 r1 r2 = do _ ← enqueue_io_request a code r0 r1 r2; stay_blocked a

abbrev pub Parks : Ghost → M EntryResult → Sys → Type 0
Parks g m s =
    (r : Resource) × (x : Option ℕ) × Yields (record g { io_res = r; pending = x }) m s
      EntryResult.waits

pub blocked_not_ready : (p : Process) → has_state ProcState.ready (blocked p) ≡ false
unfolding has_state
blocked_not_ready p = refl

pub stay_blocked-At :
    (s : Sys) (a : ℕ) (p : Process)
    → At s.heap a p
    → stay_blocked a s ≡ some (EntryResult.waits, vacant (put s a (blocked p)))
unfolding stay_blocked
stay_blocked-At s a p l = goes_on _ (set_state-At a ProcState.blocked s p l)

module _ (g : Ghost) (s : Sys) (a : ℕ) (p : Process) (code r0 r1 r2 : ℕ) (l : At s.heap a p)
    (one : p.loaded ≡ 1) (known : (code ≡ 1) ⊎ (code ≡ 2) ⊎ (code ≡ 4))
    (fits : (code ≡ 4) ⊎ (r1 ≤ 255)) where
  pushed-Request : Empty s.io → Request a (push s.io (request_of a code r0 r1 r2 1))
  pushed-Request q = record {
    code = code;
    r0 = r0;
    r1 = r1;
    r2 = r2;
    ticks = 1;
    first = head-push s.io (request_of a code r0 r1 r2 1) q.same (omega (arith, q.small, q.size));
    known = known;
    fits = fits;
    alone = ap (λ n. (n + 1) % 8) q.same;
    small = omega (arith, q.same, q.small);
    size = length-set s.io.pending_io s.io.io_tail _ ∙ q.size;
  }

  -- The unit is there: what is left of it, and the process after the answer and after it is blocked.
  abbrev unit_taken : Resource
  unit_taken = record (g.io_res) { available = g.io_res.available - 1 }

  abbrev marked : Process
  marked = mark_request 1 true p

  abbrev suspended : Process
  suspended = state_set ProcState.blocked 1 marked

  abbrev others : Inv (free_queue g) s → ResourceManager
  others h = h.pool.r2 ∷ h.pool.r3 ∷ h.pool.r4 ∷ []

  abbrev in_queue : Inv (free_queue g) s → Sys
  in_queue h = record (vacant (put (put (put s a marked) a suspended) a (blocked suspended))) {
    io = push s.io (request_of a code r0 r1 r2 1);
    resources = unit_taken ∷ others h;
  }

  marked-At : At (put s a marked).heap a marked
  marked-At = At-set s.heap a p marked l

  suspended-At : At (put (put s a marked) a suspended).heap a suspended
  suspended-At = At-set (put s a marked).heap a marked suspended marked-At

  granted-Inv :
      (h : Inv (free_queue g) s)
      → g.io_res.available ≡ 1
      → g.io_res.head ≡ g.io_res.tail
      → Inv (record g { io_res = unit_taken; pending = some a }) (in_queue h)
  granted-Inv h av e =
      let free = λ (b : ℕ). λ (e : none ≡ some b). some-ne-none b (sym e) in
      let v : Ring.IsValid unit_taken = record {
        storage = h.pool.ring.storage;
        head_in = h.pool.ring.head_in;
        tail_in = h.pool.ring.tail_in;
      } in
      let h1 = with_first-Inv unit_taken h h.pool.io v (inl (omega (arith, av))) h.queue in
      let h2 =
        Mild-Inv a (mark_request 1 true) p l (mark-Mild true 1) (λ e. absurd (free a e)) h1 in
      let h3 =
        Mild-Inv a (state_set ProcState.blocked 1) marked marked-At
          (state_set-Mild ProcState.blocked 1) (λ e. absurd (free a e)) h2 in
      let h4 =
        vacant-Inv
          (Mild-Inv a blocked suspended suspended-At blocked-Mild (λ e. absurd (free a e)) h3) in
      let w : Waits (blocked suspended) unit_taken = record {
        not_ready = blocked_not_ready suspended;
        loaded = one;
        apart = rw (nobody_waits unit_taken e) tt;
      } in
      with_io-Inv (push s.io (request_of a code r0 r1 r2 1)) (some a) s.disk h4
        (
          pushed-Request h.queue,
          (
            blocked suspended,
            At-set (put (put s a marked) a suspended).heap a suspended (blocked suspended)
                suspended-At,
            w,
          ),
        )
        (inl (omega (arith, av))) (λ b e. absurd (free b e)) h.disk

  granted-Parks :
      g.io_res.available ≡ 1
      → g.io_res.head ≡ g.io_res.tail
      → Inv (free_queue g) s
      → Parks (free_queue g) (trap a code r0 r1 r2) s
  granted-Parks av e h =
      let req = request_of a code r0 r1 r2 1 in
      let o = Onward-trans (put-Onward s a p marked l) (
        Onward-trans (put-Onward (put s a marked) a marked suspended marked-At) (
          put-Onward (put (put s a marked) a suspended) a suspended (blocked suspended)
            suspended-At)) in
      (
        unit_taken,
        some a,
        (
          in_queue h,
          goes_on _ (
                enqueue_lem s a p g.io_res (others h) code r0 r1 r2 l h.pool.shape h.pool.io
                  (omega (arith, av)) h.queue)
              ∙ stay_blocked-At (queued s a p req g.io_res (others h)) a suspended suspended-At,
          granted-Inv h av e,
          record { alive = o.alive; slots = o.slots },
        ),
      )

  -- The unit is out.
  refused-Parks : g.io_res.available ≡ 0 → Apart g a → Inv g s → Parks g (trap a code r0 r1 r2) s
  unfolding enqueue_io_request
  refused-Parks av n h =
      let r = g.io_res in
      let r' = (enqueue r p.pid).1 in
      let others : ResourceManager = h.pool.r2 ∷ h.pool.r3 ∷ h.pool.r4 ∷ [] in
      let p1 = mark_request 1 false p in
      let l1 = At-set s.heap a p p1 l in
      let o = Onward-trans (put-Onward s a p p1 l) (put-Onward (put s a p1) a p1 (blocked p1) l1) in
      let h1 =
        with_first-Inv r' h (enqueue-id r p.pid ∙ h.pool.io)
          (Ring.enqueue-IsValid p.pid h.pool.ring)
          (inl ((Ring.enqueue_lem p.pid h.pool.ring).2 ∙ av))
          (still_Pending g s a p g.pending p.pid h l n h.queue) in
      let h2 = Mild-Inv a (mark_request 1 false) p l (mark-Mild false 1) (λ e. absurd (n e)) h1 in
      let h3 = vacant-Inv (Mild-Inv a blocked p1 l1 blocked-Mild (λ e. absurd (n e)) h2) in
      (
        r',
        g.pending,
        (
          record (vacant (put (put s a p1) a (blocked p1))) { resources = r' ∷ others },
          goes_on _ (
                goes_on (λ (b, s). accept a (request_of a code r0 r1 r2 1) b s)
                  (request-At false 1 a p s (r' ∷ others) l
                    (ap (λ x. has_res x 1) h.pool.shape ∙ has_first r others h.pool.io)
                    (ap (λ x. request_resource x 1 p.pid) h.pool.shape
                      ∙ request_refused r others p.pid h.pool.io av)))
              ∙ stay_blocked-At (record (put s a p1) { resources = r' ∷ others }) a p1 l1,
          h3,
          record { alive = o.alive; slots = o.slots },
        ),
      )

pub trap-Parks :
    {g : Ghost} {s : Sys} (a : ℕ) (p : Process) (code r0 r1 r2 : ℕ)
    → Inv g s
    → At s.heap a p
    → Apart g a
    → p.loaded ≡ 1
    → (code ≡ 1) ⊎ (code ≡ 2) ⊎ (code ≡ 4)
    → (code ≡ 4) ⊎ (r1 ≤ 255)
    → Parks g (trap a code r0 r1 r2) s
trap-Parks {g} {s} a p code r0 r1 r2 h l n one k f = elim h.units [
  | inl z ↦ refused-Parks g s a p code r0 r1 r2 l one k f z n h
  | inr (av, e, np) ↦
      let h' : Inv (free_queue g) s = subst (λ x. Inv (record g { pending = x }) s) np h in
      granted-Parks g s a p code r0 r1 r2 l one k f av e h'
]
