-- ===== src/Kernel/Scheduler/Safe.antt =====
-- src/kernel/scheduler.c and resourceManager.c: the functions that free no process run to their end
-- where the pointers of the table are live.
use rm_vm.Common.{
  ℕ, refl, ap, ◌∙◌, inl, inr, Bool, true, false, ◌&&◌, Option, none, some, Bool-cases,
}
use rm_vm.Kernel.Process.{Process, ProcType, ProcState, has_pid, has_type, has_state}
use rm_vm.Kernel.Resource.{ResourceManager, request_resource, release_resource}
use rm_vm.Kernel.System.{Sys, M, pure, ◌>>=◌, update, set_state}
use rm_vm.Kernel.System.Steps.{load-At, goes_on}
use rm_vm.Kernel.System.Safe.{
  with_current, CurrentLive, Alive, Runs, Runs-pure, LiveTable, Runs-update, Finds, find_proc-Finds,
}
use rm_vm.Kernel.Scheduler.{
  block, first, request, release, wake, answer, conclude, has_res, wake_process_by_type,
  mark_request, block_current,
}

-- A search, and a run on what it found.
pub first-Runs :
    {A : Type 0} (q : Process → Bool) (f : Option (ℕ × ℕ) → M A) (s : Sys)
    → LiveTable s
    → ((r : Option (ℕ × ℕ)) → Finds q s.heap r → Runs (f r) s)
    → Runs (first q >>= f) s
unfolding first
first-Runs q f s t k =
    let (r, e, h) = find_proc-Finds q s.heap s.scheduler.schedule 0 t in
    let (b, s', e', st) = k r h in (b, s', goes_on _ (goes_on _ e) ∙ e', st)

-- A write to the process that was found, if one was.
abbrev on_found : (Process → Process) → Option (ℕ × ℕ) → M (Unit {0})
on_found f r = elim r [ none ↦ pure tt | some (k, a) ↦ update a f ]

on_found-Runs :
    (q : Process → Bool) (f : Process → Process) (s : Sys) (r : Option (ℕ × ℕ))
    → Finds q s.heap r
    → Runs (on_found f r) s
on_found-Runs q f s none h = Runs-pure tt s
on_found-Runs q f s (some (k, a)) h = Runs-update a f s h

pub wake-Runs : (pid : ℕ) (s : Sys) → LiveTable s → Runs (wake pid) s
unfolding wake
wake-Runs pid s t = first-Runs (has_pid pid) _ s t (λ r h.
    on_found-Runs (has_pid pid) (λ p. record p { state = ProcState.ready; waiting_res_id = 0 }) s r
      h)

pub wake_process_by_type-Runs :
    (t : ProcType) (s : Sys) → LiveTable s → Runs (wake_process_by_type t) s
unfolding wake_process_by_type set_state
wake_process_by_type-Runs ty s t =
    first-Runs (λ p. has_type ty p && has_state ProcState.blocked p) _ s t
      (λ r h.
        on_found-Runs (λ p. has_type ty p && has_state ProcState.blocked p)
          (λ p. record p { state = ProcState.ready }) s r h)

-- The resources do not show in a step.
abbrev with_resources : Sys → ResourceManager → Sys
with_resources s rm = record s { resources = rm }

answer-Runs :
    (id a : ℕ) (s : Sys) (o : Option (Bool × ResourceManager))
    → Alive s.heap a
    → Runs (answer id a o) s
answer-Runs id a s none l = Runs-pure false s
answer-Runs id a s (some (granted, rm)) l =
    let (u, s', e, h) = Runs-update a (mark_request id granted) (with_resources s rm) l in
    (
      granted,
      s',
      goes_on _ e,
      record { machine = h.machine; table = h.table; alive = h.alive; current = h.current },
    )

pub request-Runs : (id a : ℕ) (s : Sys) → Alive s.heap a → Runs (request id (some a)) s
unfolding request
request-Runs id a s (p, l) = elim (Bool-cases (has_res s.resources id)) [
  | inl known ↦
      let (b, s', e, h) = answer-Runs id a s (request_resource s.resources id p.pid) (p, l) in
      (b, s', rw known (goes_on _ (load-At a s p l) ∙ e), h)
  | inr none_such ↦ rw none_such (Runs-pure false s)
]

block-Runs : (current : Option ℕ) (s : Sys) → CurrentLive current s.heap → Runs (block current) s
unfolding set_state
block-Runs none s c = Runs-pure tt s
block-Runs (some a) s c =
    let (u, s', e, h) = Runs-update a (λ p. record p { state = ProcState.blocked }) s c in
    (
      tt,
      record s' { scheduler = record (s'.scheduler) { current = none } },
      goes_on _ e,
      record {
        machine = h.machine;
        table = ap (with_current none) h.table;
        alive = h.alive;
        current = λ c. tt;
      },
    )

pub block_current-Runs : (s : Sys) → CurrentLive s.scheduler.current s.heap → Runs block_current s
unfolding block_current
block_current-Runs s c = block-Runs s.scheduler.current s c

conclude-Runs :
    (sch : Bool) (s : Sys) (o : Option (Option ℕ × ResourceManager))
    → LiveTable s
    → Runs (conclude sch o) s
conclude-Runs sch s none t = Runs-pure false s
conclude-Runs sch s (some (none, rm)) t = (
  true,
  with_resources s rm,
  refl,
  record { machine = refl; table = refl; alive = λ a l. l; current = λ c. c },
)
conclude-Runs true s (some (some pid, rm)) t =
    let (u, s', e, h) = wake-Runs pid (with_resources s rm) t in
    (
      true,
      s',
      goes_on _ e,
      record { machine = h.machine; table = h.table; alive = h.alive; current = h.current },
    )
conclude-Runs false s (some (some pid, rm)) t = (
  true,
  with_resources s rm,
  refl,
  record { machine = refl; table = refl; alive = λ a l. l; current = λ c. c },
)

pub release-Runs : (id : ℕ) (sch : Bool) (s : Sys) → LiveTable s → Runs (release id sch) s
unfolding release
release-Runs id sch s t = conclude-Runs sch s (release_resource s.resources id) t
