-- ===== src/Kernel/IoHandler/Service.antt =====
-- src/kernel/ioHandler.c: a request from the queue to the end of its service.
use rm_vm.Kernel.IoHandler.Steps.{
  serve_early, head-push, complete_lem, entry_lem, serve_due, serviced, serve_nobody, enqueue_lem,
  Empty, queued,
}
use rm_vm.Common.{
  ℕ, ◌+◌, ◌-◌, ◌%◌, ◌<◌, ◌≡◌, refl, sym, ap, ◌∙◌, Bool, true, false, none, some, List, ◌∷◌, arith,
  ◌==◌, length, set, length-set, get_or-set_self,
}
use rm_vm.Rm.Disk.{HardDisk}
use rm_vm.Vm.State.{VirtualMachine}
use rm_vm.Kernel.Process.{Process, ProcState, EntryResult}
use rm_vm.Kernel.Resource.{Resource, ResourceManager}
use rm_vm.Kernel.System.{blank_request, Sys}
use rm_vm.Kernel.System.Steps.{At, At-set}
use rm_vm.Kernel.Scheduler.{mark_request}
use rm_vm.Kernel.IoHandler.{
  head_request, carry_out, push, request_of, enqueue_io_request, advance, clear_request, serve,
  io_handler_entry,
}

-- The process with a request in the queue.
abbrev pub blocked_for_io : Process → Process
blocked_for_io p = record p { state = ProcState.blocked; waiting_res_id = 1 }

-- The state with a request in the queue whose time has come.
abbrev waited : Sys → ℕ → Process → Resource → ResourceManager → ℕ → ℕ → ℕ → ℕ → Sys
waited s a p r rm code r0 r1 r2 =
    let s1 = queued s a p (request_of a code r0 r1 r2 1) r rm in
    record s1 {
      io = record (s1.io) {
        pending_io = set s1.io.pending_io s1.io.io_head (request_of a code r0 r1 r2 0);
      };
    }

-- Between `s1` and `s2` the request at the head of the queue is counted down, and nothing else is done:
-- its process is blocked still.
pub record Counted (a : ℕ) (p : Process) (code r0 r1 r2 : ℕ) (s1 s2 : Sys) : Type 0 where
  pub first : head_request s1.io ≡ request_of a code r0 r1 r2 1
  pub blocked : At s1.heap a (blocked_for_io p)
  pub counts : s2 ≡ record s1 {
    io = record (s1.io) {
      pending_io = set s1.io.pending_io s1.io.io_head (request_of a code r0 r1 r2 0);
    };
  }

-- A request for the empty queue, where the unit for input and output is there.
module _ (s : Sys) (a : ℕ) (p : Process) (r : Resource) (rm : ResourceManager) (code r0 r1 r2 : ℕ)
    (l : At s.heap a p) (e : s.resources ≡ r ∷ rm) (h : r.id ≡ 1) (u : 0 < r.available)
    (q : Empty s.io) (c : (code == 0) ≡ false) where
  waited-At : At (waited s a p r rm code r0 r1 r2).heap a (blocked_for_io p)
  waited-At =
      At-set (set s.heap a (some (mark_request 1 true p))) a (mark_request 1 true p)
        (blocked_for_io p) (At-set s.heap a p (mark_request 1 true p) l)

  size_queued : length (push s.io (request_of a code r0 r1 r2 1)).pending_io ≡ 8
  size_queued = length-set s.io.pending_io s.io.io_tail _ ∙ q.size

  -- The queue after the service, whether or not the process has a machine.
  emptied-Empty :
      (ended : Bool) → Empty (advance (clear_request (waited s a p r rm code r0 r1 r2).io ended))
  unfolding clear_request
  emptied-Empty ended = record {
    same = ap (λ n. (n + 1) % 8) q.same;
    small = omega arith;
    size = length-set _ s.io.io_head _ ∙ length-set _ s.io.io_head _ ∙ size_queued;
  }

  -- The request, a turn that only counts, and the turn of the service.
  turns :
      (s3 : Sys)
      → serve
          (waited s a p r rm code r0 r1 r2).io
          (request_of a code r0 r1 r2 0)
          (waited s a p r rm code r0 r1 r2)
        ≡ some (tt, s3)
      → (s1 : Sys) × (s2 : Sys) × (enqueue_io_request a code r0 r1 r2 s ≡ some (true, s1))
        × (io_handler_entry s1 ≡ some (EntryResult.keeps, s2))
        × (io_handler_entry s2 ≡ some (EntryResult.keeps, s3))
        × Counted a p code r0 r1 r2 s1 s2
  turns s3 done =
      let s1 = queued s a p (request_of a code r0 r1 r2 1) r rm in
      let s2 = waited s a p r rm code r0 r1 r2 in
      let busy : (s.io.io_head == (s.io.io_tail + 1) % 8) ≡ false =
        ground (arith, q.same, q.small) in
      (
        s1,
        s2,
        enqueue_lem s a p r rm code r0 r1 r2 l e h u q,
        entry_lem s1 s2 a (blocked_for_io p) code r0 r1 r2 1 waited-At busy
            (head-push s.io (request_of a code r0 r1 r2 1) q.same (omega (arith, q.small, q.size)))
            (serve_early s1 a code r0 r1 r2 c),
        entry_lem s2 s3 a (blocked_for_io p) code r0 r1 r2 0 waited-At busy
            (get_or-set_self s1.io.pending_io s.io.io_head (request_of a code r0 r1 r2 0)
              blank_request (omega (arith, size_queued, q.same, q.small)))
            done,
        record {
          first =
              head-push s.io (request_of a code r0 r1 r2 1) q.same (omega (arith, q.small, q.size));
          blocked = waited-At;
          counts = refl;
        },
      )

-- What a service leaves behind: an empty queue, the unit given back, what the transfer wrote on the
-- disk and in the process, and the process ready.
pub record Served (s : Sys) (a : ℕ) (p : Process) (vm : VirtualMachine) (disk : HardDisk)
    (out : List ℕ) (s' : Sys) : Type 0 where
  pub queue : Empty s'.io
  pub units : s'.resources ≡ s.resources
  pub stored : s'.disk ≡ disk
  pub process : At s'.heap a (record p {
    vm = some (record vm { memory = out });
    state = ProcState.ready;
    waiting_res_id = 0;
  })
  pub table : s'.scheduler ≡ s.scheduler

-- A request whose code is not 0 that `enqueueIORequest` puts into the empty queue, where the unit for input
-- and output is there and nobody waits for it, and whose transfer stays in the arrays: it blocks its process.
-- The next turn of the handler counts the request down and does nothing else; the one after carries the
-- transfer out, empties the queue, gives the unit back and makes the process ready.
pub enqueue_io_request-Served :
    (s : Sys) (a : ℕ) (p : Process) (vm : VirtualMachine) (r : Resource) (rm : ResourceManager)
    (code r0 r1 r2 : ℕ) (disk : HardDisk) (out : List ℕ)
    → At s.heap a p
    → p.vm ≡ some vm
    → s.resources ≡ r ∷ rm
    → r.id ≡ 1
    → 0 < r.available
    → r.head ≡ r.tail
    → Empty s.io
    → (code == 0) ≡ false
    → carry_out code r0 r1 r2 s.disk vm.memory ≡ some (disk, out)
    → (s1 : Sys) × (s2 : Sys) × (s3 : Sys) × (enqueue_io_request a code r0 r1 r2 s
        ≡ some (true, s1))
      × (io_handler_entry s1 ≡ some (EntryResult.keeps, s2))
      × (io_handler_entry s2 ≡ some (EntryResult.keeps, s3))
      × Counted a p code r0 r1 r2 s1 s2
      × Served s a p vm disk out s3
enqueue_io_request-Served s a p vm r rm code r0 r1 r2 disk out l m e h u z q c t =
    let s2 = waited s a p r rm code r0 r1 r2 in
    let p1 = blocked_for_io p in
    let l1 = waited-At s a p r rm code r0 r1 r2 l e h u q c in
    let r' = record r { available = r.available - 1 } in
    let p2 = record p1 { vm = some (record vm { memory = out }) } in
    let s3 = record (serviced s2 a p1 vm disk out r' rm) {
      io = advance (clear_request s2.io true);
    } in
    let (s1, s2', e1, e2, e3, counted) = turns s a p r rm code r0 r1 r2 l e h u q c s3 (
      serve_due s2 (serviced s2 a p1 vm disk out r' rm) a p1 vm code r0 r1 r2 l1 m c
        (complete_lem s2 a p1 vm code r0 r1 r2 disk out r' rm l1 m t refl h z)) in
    (
      s1,
      s2',
      s3,
      e1,
      e2,
      e3,
      counted,
      record {
        queue = emptied-Empty s a p r rm code r0 r1 r2 l e h u q c true;
        units = ap (λ n. record r { available = n } ∷ rm) (omega (arith, u)) ∙ sym e;
        stored = refl;
        process =
            At-set (set s2.heap a (some p2)) a p2
              (record p2 { state = ProcState.ready; waiting_res_id = 0 })
              (At-set s2.heap a p1 p2 l1);
        table = refl;
      },
    )

-- A request of a process without a Virtual Machine, such as the interrupt handler, which is current when
-- `kernelHandleInterrupts` makes a request, where the queue is empty and the unit for input and output is
-- there: after two turns of the handler the request has left the queue, but the unit is not given back,
-- and the process stays blocked.
pub enqueue_io_request-loses :
    (s : Sys) (a : ℕ) (p : Process) (r : Resource) (rm : ResourceManager) (code r0 r1 r2 : ℕ)
    → At s.heap a p
    → p.vm ≡ none
    → s.resources ≡ r ∷ rm
    → r.id ≡ 1
    → 0 < r.available
    → Empty s.io
    → (code == 0) ≡ false
    → (s1 : Sys) × (s2 : Sys) × (s3 : Sys) × (enqueue_io_request a code r0 r1 r2 s
        ≡ some (true, s1))
      × (io_handler_entry s1 ≡ some (EntryResult.keeps, s2))
      × (io_handler_entry s2 ≡ some (EntryResult.keeps, s3))
      × Empty s3.io
      × (s3.resources ≡ record r { available = r.available - 1 } ∷ rm)
      × At s3.heap a (record p { state = ProcState.blocked; waiting_res_id = 1 })
enqueue_io_request-loses s a p r rm code r0 r1 r2 l m e h u q c =
    let s2 = waited s a p r rm code r0 r1 r2 in
    let l1 = waited-At s a p r rm code r0 r1 r2 l e h u q c in
    let s3 = record s2 { io = advance (clear_request s2.io false) } in
    let (s1, s2', e1, e2, e3, _) =
      turns s a p r rm code r0 r1 r2 l e h u q c s3
        (serve_nobody s2 a (blocked_for_io p) code r0 r1 r2 l1 m c) in
    (s1, s2', s3, e1, e2, e3, emptied-Empty s a p r rm code r0 r1 r2 l e h u q c false, refl, l1)
