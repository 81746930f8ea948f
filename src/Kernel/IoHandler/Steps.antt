-- ===== src/Kernel/IoHandler/Steps.antt =====
-- src/kernel/ioHandler.c: its steps on a state in which the processes and resources are known.
use rm_vm.Kernel.IoHandler.Unit.{request_lem, release_lem}
use rm_vm.Common.{
  ℕ, ◌+◌, ◌-◌, ◌%◌, ◌<◌, ◌≡◌, refl, ap, ◌∙◌, true, false, none, some, List, ◌∷◌, arith, ◌==◌,
  length, get_or, set, get_or-set_self,
}
use rm_vm.Rm.Disk.{HardDisk}
use rm_vm.Vm.State.{VirtualMachine}
use rm_vm.Kernel.Process.{has_vm, Process, ProcState, EntryResult}
use rm_vm.Kernel.Resource.{Resource, ResourceManager}
use rm_vm.Kernel.System.{blank_request, Sys, IoRequest, IoQueue}
use rm_vm.Kernel.System.Steps.{At, At-set, load-At, update-At, goes_on}
use rm_vm.Kernel.Scheduler.{mark_request}
use rm_vm.Kernel.IoHandler.{
  carry_out, carry_out_for, complete_for, complete_io, push, request_of, enqueue_io_request,
  head_request, advance, clear_request, has_machine, serve, step_io, log_request, io_handler_entry,
}

-- The head of a queue that was empty before a request came.
pub head-push :
    (q : IoQueue) (req : IoRequest)
    → q.io_head ≡ q.io_tail
    → q.io_tail < length q.pending_io
    → head_request (push q req) ≡ req
head-push q req e h =
    ap (λ i. get_or (set q.pending_io q.io_tail req) i blank_request) e
    ∙ get_or-set_self q.pending_io q.io_tail req blank_request h

-- An empty queue of eight.
pub record Empty (q : IoQueue) : Type 0 where
  pub same : q.io_head ≡ q.io_tail
  pub small : q.io_tail < 8
  pub size : length q.pending_io ≡ 8

-- The state with a request in the queue, and the process blocked.
abbrev pub queued : Sys → ℕ → Process → IoRequest → Resource → ResourceManager → Sys
queued s a p req r rm = record s {
  heap =
      set (set s.heap a (some (mark_request 1 true p))) a
        (some (record p { state = ProcState.blocked; waiting_res_id = 1 }));
  resources = record r { available = r.available - 1 } ∷ rm;
  io = push s.io req;
}

pub enqueue_lem :
    (s : Sys) (a : ℕ) (p : Process) (r : Resource) (rm : ResourceManager) (code r0 r1 r2 : ℕ)
    → At s.heap a p
    → s.resources ≡ r ∷ rm
    → r.id ≡ 1
    → 0 < r.available
    → Empty s.io
    → enqueue_io_request a code r0 r1 r2 s
      ≡ some (true, queued s a p (request_of a code r0 r1 r2 1) r rm)
unfolding enqueue_io_request
enqueue_lem s a p r rm code r0 r1 r2 l e h u q =
    goes_on _ (request_lem s a p r rm l e h u)
    ∙ rw room (
        goes_on _ (
          update-At a (λ p. record p { state = ProcState.blocked; waiting_res_id = 1 }) _ _
            (At-set s.heap a p (mark_request 1 true p) l)))
  where
    room : ((s.io.io_tail + 1) % 8 == s.io.io_head) ≡ false
    room = ground (arith, q.same, q.small)

step_lem :
    (s s' : Sys) (req : IoRequest)
    → (s.io.io_head == s.io.io_tail) ≡ false
    → head_request s.io ≡ req
    → serve s.io req s ≡ some (tt, s')
    → step_io s ≡ some (tt, s')
unfolding step_io
step_lem s s' req busy hd served = rw busy (ap (λ req. serve s.io req s) hd ∙ served)

-- A turn of the handler with a request at the head of the queue.
pub entry_lem :
    (s s' : Sys) (a : ℕ) (p : Process) (code r0 r1 r2 n : ℕ)
    → At s.heap a p
    → (s.io.io_head == s.io.io_tail) ≡ false
    → head_request s.io ≡ request_of a code r0 r1 r2 n
    → serve s.io (request_of a code r0 r1 r2 n) s ≡ some (tt, s')
    → io_handler_entry s ≡ some (EntryResult.keeps, s')
unfolding io_handler_entry log_request
entry_lem s s' a p code r0 r1 r2 n l busy hd served = rw busy (
    goes_on _ (ap (λ req. log_request req s) hd ∙ goes_on _ (load-At a s p l))
    ∙ goes_on _ (step_lem s s' (request_of a code r0 r1 r2 n) busy hd served))

-- A request whose time has not come waits one turn less.
pub serve_early :
    (s : Sys) (a code r0 r1 r2 : ℕ)
    → (code == 0) ≡ false
    → serve s.io (request_of a code r0 r1 r2 1) s
      ≡ some (
        tt,
        record s {
          io = record (s.io) {
            pending_io = set s.io.pending_io s.io.io_head (request_of a code r0 r1 r2 0);
          };
        },
      )
unfolding serve
serve_early s a code r0 r1 r2 c = rw c refl

-- The state after a service.
abbrev pub serviced :
    Sys → ℕ → Process → VirtualMachine → HardDisk → List ℕ → Resource → ResourceManager → Sys
serviced s a p vm disk out r rm = record s {
  heap = set (set s.heap a (some (record p { vm = some (record vm { memory = out }) }))) a (
      some (record p {
        vm = some (record vm { memory = out });
        state = ProcState.ready;
        waiting_res_id = 0;
      }));
  disk = disk;
  resources = record r { available = r.available + 1 } ∷ rm;
}

pub complete_lem :
    (s : Sys) (a : ℕ) (p : Process) (vm : VirtualMachine) (code r0 r1 r2 : ℕ) (disk : HardDisk)
    (out : List ℕ) (r : Resource) (rm : ResourceManager)
    → At s.heap a p
    → p.vm ≡ some vm
    → carry_out code r0 r1 r2 s.disk vm.memory ≡ some (disk, out)
    → s.resources ≡ r ∷ rm
    → r.id ≡ 1
    → r.head ≡ r.tail
    → complete_io (request_of a code r0 r1 r2 0) s ≡ some (tt, serviced s a p vm disk out r rm)
unfolding complete_io complete_for carry_out_for
complete_lem s a p vm code r0 r1 r2 disk out r rm l m t e h z =
    goes_on _ (load-At a s p l)
    ∙ ap (λ o. complete_for (request_of a code r0 r1 r2 0) a o s) m
    ∙ goes_on _ (goes_on _ t)
    ∙ goes_on _ (
        update-At a (λ p. record p { vm = some (record vm { memory = out }) })
          (record s { disk = disk }) p l)
    ∙ goes_on _ (
        goes_on _ (
          release_lem
            (record s {
              heap = set s.heap a (some (record p { vm = some (record vm { memory = out }) }));
              disk = disk;
            })
            r rm e h z))
    ∙ update-At a (λ p. record p { state = ProcState.ready; waiting_res_id = 0 })
        (record s {
          heap = set s.heap a (some (record p { vm = some (record vm { memory = out }) }));
          disk = disk;
          resources = record r { available = r.available + 1 } ∷ rm;
        })
        (record p { vm = some (record vm { memory = out }) })
        (At-set s.heap a p (record p { vm = some (record vm { memory = out }) }) l)

pub serve_due :
    (s s' : Sys) (a : ℕ) (p : Process) (vm : VirtualMachine) (code r0 r1 r2 : ℕ)
    → At s.heap a p
    → p.vm ≡ some vm
    → (code == 0) ≡ false
    → complete_io (request_of a code r0 r1 r2 0) s ≡ some (tt, s')
    → serve s.io (request_of a code r0 r1 r2 0) s
      ≡ some (tt, record s' { io = advance (clear_request s.io true) })
unfolding serve has_machine has_vm
serve_due s s' a p vm code r0 r1 r2 l m c done =
    rw c (goes_on _ (goes_on _ (load-At a s p l) ∙ ap (λ b. some (b, s)) owned) ∙ goes_on _ done)
  where
    owned : has_vm p ≡ true
    owned = rw m refl

-- A service of a process without a Virtual Machine.
pub serve_nobody :
    (s : Sys) (a : ℕ) (p : Process) (code r0 r1 r2 : ℕ)
    → At s.heap a p
    → p.vm ≡ none
    → (code == 0) ≡ false
    → serve s.io (request_of a code r0 r1 r2 0) s
      ≡ some (tt, record s { io = advance (clear_request s.io false) })
unfolding serve has_machine has_vm complete_io complete_for
serve_nobody s a p code r0 r1 r2 l m c = rw c (
    goes_on _ (goes_on _ (load-At a s p l) ∙ ap (λ b. some (b, s)) nobody)
    ∙ goes_on _ (
        goes_on _ (load-At a s p l)
        ∙ ap (λ o. complete_for (request_of a code r0 r1 r2 0) a o s) m))
  where
    nobody : has_vm p ≡ false
    nobody = rw m refl
