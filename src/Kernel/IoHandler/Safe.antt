-- ===== src/Kernel/IoHandler/Safe.antt =====
-- `enqueueIORequest` of src/kernel/ioHandler.c runs to its end for a process that is live.
use rm_vm.Common.{ℕ, inl, inr, Bool, true, false, some, Bool-cases}
use rm_vm.Kernel.Process.{ProcState}
use rm_vm.Kernel.System.{IoRequest, Sys}
use rm_vm.Kernel.System.Steps.{goes_on}
use rm_vm.Kernel.System.Safe.{
  Alive, Runs, Runs->>=, Runs-pure, LiveTable, Step-LiveTable, Runs-update,
}
use rm_vm.Kernel.Scheduler.{request}
use rm_vm.Kernel.Scheduler.Safe.{request-Runs, release-Runs}
use rm_vm.Kernel.IoHandler.{is_full, accept, enqueue_io_request, push, request_of}

accept-Runs :
    (a : ℕ) (req : IoRequest) (granted : Bool) (s : Sys)
    → Alive s.heap a
    → LiveTable s
    → Runs (accept a req granted) s
accept-Runs a req false s l t = Runs-pure false s
accept-Runs a req true s l t = elim (Bool-cases (is_full s.io)) [
  | inl full ↦ let (b, s', e, h) = release-Runs 1 false s t in (false, s', rw full (goes_on _ e), h)
  | inr room ↦
      let (u, s', e, h) =
        Runs-update a (λ p. record p { state = ProcState.blocked; waiting_res_id = 1 })
          (record s { io = push s.io req }) l in
      (
        true,
        s',
        rw room (goes_on _ e),
        record { machine = h.machine; table = h.table; alive = h.alive; current = h.current },
      )
]

pub enqueue_io_request-Runs :
    (a code r0 r1 r2 : ℕ) (s : Sys)
    → Alive s.heap a
    → LiveTable s
    → Runs (enqueue_io_request a code r0 r1 r2) s
unfolding enqueue_io_request
enqueue_io_request-Runs a code r0 r1 r2 s l t =
    Runs->>= (request 1 (some a)) (accept a (request_of a code r0 r1 r2 1)) s (request-Runs 1 a s l)
      (λ granted s' h.
        accept-Runs a (request_of a code r0 r1 r2 1) granted s' (h.alive a l)
          (Step-LiveTable s s' h t))
