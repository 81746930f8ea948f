-- ===== src/Kernel/Scheduler.antt =====
-- src/kernel/scheduler.c without the cycles: the table of processes; the parts of
-- src/kernel/resourceManager.c that change processes; the searches of src/kernel/interruptHandler.c.
pub mod Search
pub mod Table
pub mod Removal
pub mod Safe
pub mod Sound
use rm_vm.Common.{
  ℕ, zero, suc, ◌+◌, ◌-◌, Bool, true, false, ◌&&◌, Option, none, some, List, [], ◌∷◌, ltb, ◌==◌,
  if◌then◌else◌, get_or, set, u8,
}
use rm_vm.Kernel.Process.{Process, ProcState, ProcType, has_state, has_type, has_pid, str_eq}
use rm_vm.Kernel.System.{
  Scheduler, M, pure, ◌>>=◌, ◌>>◌, gets, modify, when, load, update, free, set_state, set_current,
  set_slot,
}
use rm_vm.Kernel.Resource.{ResourceManager, request_resource, release_resource}

-- The loops from `SCHEDULER_MIN_PRIORITY` up that stop at the first process with `q`: its slot and
-- pointer. The outer `none` is the use of a freed process.
unfoldable pub find_proc :
    (Process → Bool) → List (Option Process) → List (Option ℕ) → ℕ → Option (Option (ℕ × ℕ))
find_proc q heap [] i = some none
find_proc q heap (none ∷ slots) i = find_proc q heap slots (i + 1)
find_proc q heap (some a ∷ slots) i =
    let rest = find_proc q heap slots (i + 1) in
    elim (get_or heap a none) [ none ↦ none | some p ↦ if q p then some (some (i, a)) else rest ]

unfoldable pub first : (Process → Bool) → M (Option (ℕ × ℕ))
first q s = elim (find_proc q s.heap s.scheduler.schedule 0) [ none ↦ none | some r ↦ some (r, s) ]

-- The loops of `addProc`: the first free slot from `i` down, `n` slots in all.
unfoldable pub free_slot : ℕ → ℕ → List (Option ℕ) → Option ℕ
free_slot zero i schedule = none
free_slot (suc n) i schedule =
    let rest = free_slot n (i - 1) schedule in
    elim (get_or schedule i none) [ none ↦ some i | some a ↦ rest ]

-- The two branches of `addProc`, on the slot that its loop finds.
abbrev pub place_system : Scheduler → ℕ → Option ℕ → Bool × Scheduler
place_system sch a none = (false, sch)
place_system sch a (some i) = (
  true,
  record sch {
    schedule = set sch.schedule i (some a);
    prio_max = if ltb sch.prio_max i then i else sch.prio_max;
    prio_min = if ltb i sch.prio_min then i else sch.prio_min;
  },
)

abbrev pub place_user : Scheduler → ℕ → Option ℕ → Bool × Scheduler
place_user sch a none = (false, sch)
place_user sch a (some i) = (
  true,
  record sch {
    schedule = set sch.schedule i (some a);
    prio_min = if ltb i sch.prio_min then i else sch.prio_min;
  },
)

-- What `addProc` does once the process has its pid.
unfoldable pub place : Scheduler → Bool → ℕ → Bool × Scheduler
place sch sys_proc a =
    if sys_proc
    then place_system sch a (free_slot (sch.prio_max + 1 - 80) sch.prio_max sch.schedule)
    else place_user sch a (free_slot 79 79 sch.schedule)

unfoldable pub add_proc : ℕ → M Bool
add_proc a = do
  n ← gets (λ s. u8 (s.scheduler.pid + 1))
  modify (λ s. record s { scheduler = record (s.scheduler) { pid = n } })
  update a (λ p. record p { pid = n })
  p ← load a
  placed ← gets (λ s. place s.scheduler p.sys_proc a)
  modify (λ s. record s { scheduler = placed.1 })
  pure placed.0

-- A found process leaves its slot and is freed.
abbrev pub remove_found : Option (ℕ × ℕ) → M Bool
remove_found none = pure false
remove_found (some (i, a)) = do set_slot i none; free a; pure true

unfoldable pub remove_proc_p : ℕ → M Bool
remove_proc_p pid = if pid == 0 then pure false else (first (has_pid pid) >>= remove_found)

-- `removeProcN`, which frees nothing.
unfoldable pub remove_proc_n : List ℕ → M Bool
remove_proc_n name = do
  found ← first (λ p. str_eq p.pname name)
  elim found [ none ↦ pure false | some (i, a) ↦ do set_slot i none; pure true ]

-- `blockCurrent` for the pointer `sch->current`.
abbrev pub block : Option ℕ → M (Unit {0})
block none = pure tt
block (some a) = do set_state a ProcState.blocked; set_current none

unfoldable pub block_current : M (Unit {0})
block_current = do current ← gets (λ s. s.scheduler.current); block current

unfoldable pub unblock_process : ℕ → M (Unit {0})
unblock_process pid = do
  found ← first (has_pid pid)
  elim found [ none ↦ pure tt | some (i, a) ↦ set_state a ProcState.ready ]

unfoldable pub wake_process_by_type : ProcType → M (Unit {0})
wake_process_by_type t = do
  found ← first (λ p. has_type t p && has_state ProcState.blocked p)
  elim found [ none ↦ pure tt | some (i, a) ↦ set_state a ProcState.ready ]

unfoldable pub find_process_by_pid : ℕ → M (Option ℕ)
find_process_by_pid pid = do
  found ← first (has_pid pid)
  pure (elim found [ none ↦ none | some (i, a) ↦ some a ])

-- `findRes(rm, id) != NULL`
unfoldable pub has_res : ResourceManager → ℕ → Bool
has_res [] id = false
has_res (r ∷ rm) id = let rest = has_res rm id in if r.id == id then true else rest

abbrev pub set_resources : ResourceManager → M (Unit {0})
set_resources rm = modify (λ s. record s { resources = rm })

-- What `requestResource` writes to the process, when the resource has answered.
abbrev pub mark_request : ℕ → Bool → Process → Process
mark_request id true p = record p { waiting_res_id = 0 }
mark_request id false p = record p { waiting_res_id = u8 id; state = ProcState.susp_blocked }

-- What follows the search of `requestResource`, for process `a`.
abbrev pub answer : ℕ → ℕ → Option (Bool × ResourceManager) → M Bool
answer id a none = pure false
answer id a (some (granted, rm)) = do
  set_resources rm
  update a (mark_request id granted)
  pure granted

-- `requestResource` on the process that `proc` points to.
unfoldable pub request : ℕ → Option ℕ → M Bool
request id none = pure false
request id (some a) = do
  known ← gets (λ s. has_res s.resources id)
  if known
      then (do
        p ← load a
        result ← gets (λ s. request_resource s.resources id p.pid)
        answer id a result)
      else pure false

-- The waking of `releaseResource` with a scheduler, for the pid that was taken from the queue.
unfoldable pub wake : ℕ → M (Unit {0})
wake pid = do
  found ← first (has_pid pid)
  elim found [
    | none ↦ pure tt
    | some (i, a) ↦ update a (λ p. record p { state = ProcState.ready; waiting_res_id = 0 })
  ]

-- What follows the search of `releaseResource`.
abbrev pub conclude : Bool → Option (Option ℕ × ResourceManager) → M Bool
conclude sch none = pure false
conclude sch (some (none, rm)) = do set_resources rm; pure true
conclude sch (some (some pid, rm)) = do set_resources rm; when sch (wake pid); pure true

-- `releaseResource`; `sch` tells whether the pointer to the scheduler is not null.
unfoldable pub release : ℕ → Bool → M Bool
release id sch = do result ← gets (λ s. release_resource s.resources id); conclude sch result
