-- ===== src/Kernel/Invariant/Units.antt =====
-- Requests for the resources for which nobody waits, and their releases, and the invariant of src/kernel.
use rm_vm.Kernel.Invariant.Frame.{with_resources-Inv}
use rm_vm.Kernel.Invariant.Answers.{
  known, taken-Idle, given-Idle, Pool-processor, Pool-clock, Pool-memory, ask_processor, ask_clock,
  ask_memory, give_memory, give_processor, taken, give_clock, given,
}
use rm_vm.Kernel.Invariant.Change.{Rests-Apart, mark-Mild, Mild-Inv, Apart}
use rm_vm.Kernel.System.Steps.{update-At, load-At, goes_on, At}
use rm_vm.Kernel.Process.{Process}
use rm_vm.Kernel.Invariant.{Yields, Pool, Inv, Ghost}
use rm_vm.Kernel.System.{pure, Sys, M, ◌>>=◌, gets, load}
use rm_vm.Kernel.Invariant.Put.{put-Onward, put}
use rm_vm.Common.{
  ℕ, ◌+◌, ◌-◌, ◌<◌, ◌≡◌, ap, ◌∙◌, Bool, true, false, some, [], ◌∷◌, arith, if◌then◌else◌,
}
use rm_vm.Kernel.Resource.{ResourceManager, request_resource}
use rm_vm.Kernel.Scheduler.{conclude, release, answer, mark_request, request, has_res}

asking : ℕ → ℕ → M Bool
asking id a = do
  p ← load a
  result ← gets (λ s. request_resource s.resources id p.pid)
  answer id a result

pub request-At :
    (granted : Bool) (id a : ℕ) (p : Process) (s : Sys) (rm : ResourceManager)
    → At s.heap a p
    → has_res s.resources id ≡ true
    → request_resource s.resources id p.pid ≡ some (granted, rm)
    → request id (some a) s
      ≡ some (granted, record (put s a (mark_request id granted p)) { resources = rm })
unfolding request asking
request-At granted id a p s rm l h e =
    ap (λ b. (if b then asking id a else pure false) s) h
    ∙ goes_on _ (load-At a s p l)
    ∙ ap (λ o. answer id a o s) e
    ∙ goes_on _ (update-At a (mark_request id granted) (record s { resources = rm }) p l)

-- The unit is granted: the state, with the process marked.
abbrev pub Granted : Ghost → ℕ → ℕ → Process → Sys → Type 0
Granted g id a p s =
    (rm : ResourceManager) × (request id (some a) s
      ≡ some (true, record (put s a (mark_request id true p)) { resources = rm }))
    × Inv g (record (put s a (mark_request id true p)) { resources = rm })

-- A unit is given back, and nobody is woken.
abbrev pub Released : Ghost → ℕ → Sys → Type 0
Released g id s =
    (rm : ResourceManager) × (release id true s ≡ some (true, record s { resources = rm }))
    × Inv g (record s { resources = rm })

pub Granted-Yields :
    (g : Ghost) (id a : ℕ) (p : Process) (s : Sys)
    → At s.heap a p
    → Granted g id a p s
    → Yields g (request id (some a)) s true
Granted-Yields g id a p s l (rm, e, h) =
    let o = put-Onward s a p (mark_request id true p) l in
    (
      record (put s a (mark_request id true p)) { resources = rm },
      e,
      h,
      record { alive = o.alive; slots = o.slots },
    )

pub Released-Yields :
    (g : Ghost) (id : ℕ) (s : Sys) → Released g id s → Yields g (release id true) s true
Released-Yields g id s (rm, e, h) =
    (record s { resources = rm }, e, h, record { alive = λ a l. l; slots = λ i a e. e })

request-Granted :
    {g : Ghost} {s : Sys} (id m c t a : ℕ) (p : Process) (rm : ResourceManager) (h : Inv g s)
    → At s.heap a p
    → Apart g a
    → has_res s.resources id ≡ true
    → request_resource s.resources id p.pid ≡ some (true, rm)
    → Pool m c t g.io_res rm
    → Granted (record g { memory = m; cpu = c; timer = t }) id a p s
request-Granted {g} {s} id m c t a p rm h l n k e q =
    let q1 = mark_request id true p in
    let h1 = Mild-Inv a (mark_request id true) p l (mark-Mild true id) (Rests-Apart g a q1 n) h in
    (rm, request-At true id a p s rm l k e, with_resources-Inv m c t rm h1 q)

pub request_memory :
    {g : Ghost} {s : Sys} (a : ℕ) (p : Process)
    → Inv g s
    → At s.heap a p
    → Apart g a
    → 0 < g.memory
    → Granted (record g { memory = g.memory - 1 }) 2 a p s
request_memory {g} {s} a p h l n u =
    let q = h.pool in
    request-Granted 2 (g.memory - 1) g.cpu g.timer a p _ h l n (known q 2 (omega arith))
      (ask_memory q p.pid u) (Pool-memory q (g.memory - 1) (taken q.r2) (taken-Idle q.r2 q.mem))

pub release_memory :
    {g : Ghost} {s : Sys} → Inv g s → Released (record g { memory = g.memory + 1 }) 2 s
unfolding release
release_memory {g} {s} h =
    let q = h.pool in
    let rm : ResourceManager = g.io_res ∷ given q.r2 ∷ q.r3 ∷ q.r4 ∷ [] in
    let q' = Pool-memory q (g.memory + 1) (given q.r2) (given-Idle q.r2 q.mem) in
    (
      rm,
      ap (λ o. conclude true o s) (give_memory q),
      with_resources-Inv (g.memory + 1) g.cpu g.timer rm h q',
    )

pub request_cpu :
    {g : Ghost} {s : Sys} (a : ℕ) (p : Process)
    → Inv g s
    → At s.heap a p
    → Apart g a
    → 0 < g.cpu
    → Granted (record g { cpu = g.cpu - 1 }) 3 a p s
request_cpu {g} {s} a p h l n u =
    let q = h.pool in
    request-Granted 3 g.memory (g.cpu - 1) g.timer a p _ h l n (known q 3 (omega arith))
      (ask_processor q p.pid u)
      (Pool-processor q (g.cpu - 1) (taken q.r3) (taken-Idle q.r3 q.processor))

pub release_cpu : {g : Ghost} {s : Sys} → Inv g s → Released (record g { cpu = g.cpu + 1 }) 3 s
unfolding release
release_cpu {g} {s} h =
    let q = h.pool in
    let rm : ResourceManager = g.io_res ∷ q.r2 ∷ given q.r3 ∷ q.r4 ∷ [] in
    let q' = Pool-processor q (g.cpu + 1) (given q.r3) (given-Idle q.r3 q.processor) in
    (
      rm,
      ap (λ o. conclude true o s) (give_processor q),
      with_resources-Inv g.memory (g.cpu + 1) g.timer rm h q',
    )

pub request_timer :
    {g : Ghost} {s : Sys} (a : ℕ) (p : Process)
    → Inv g s
    → At s.heap a p
    → Apart g a
    → 0 < g.timer
    → Granted (record g { timer = g.timer - 1 }) 4 a p s
request_timer {g} {s} a p h l n u =
    let q = h.pool in
    request-Granted 4 g.memory g.cpu (g.timer - 1) a p _ h l n (known q 4 (omega arith))
      (ask_clock q p.pid u) (Pool-clock q (g.timer - 1) (taken q.r4) (taken-Idle q.r4 q.clock))

pub release_timer :
    {g : Ghost} {s : Sys} → Inv g s → Released (record g { timer = g.timer + 1 }) 4 s
unfolding release
release_timer {g} {s} h =
    let q = h.pool in
    let rm : ResourceManager = g.io_res ∷ q.r2 ∷ q.r3 ∷ given q.r4 ∷ [] in
    let q' = Pool-clock q (g.timer + 1) (given q.r4) (given-Idle q.r4 q.clock) in
    (
      rm,
      ap (λ o. conclude true o s) (give_clock q),
      with_resources-Inv g.memory g.cpu (g.timer + 1) rm h q',
    )
