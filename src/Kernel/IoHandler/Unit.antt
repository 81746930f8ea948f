-- ===== src/Kernel/IoHandler/Unit.antt =====
-- The unit of input and output in src/kernel/ioHandler.c, where the resources are known.
use rm_vm.Kernel.System.Steps.{update-At, load-At, goes_on, At}
use rm_vm.Kernel.Process.{Process}
use rm_vm.Kernel.Resource.{
  ResourceManager, dequeue, request_unit, Resource, release_unit, release_resource,
  request_resource,
}
use rm_vm.Kernel.System.{gets, load, pure, Sys, M}
use rm_vm.Kernel.Scheduler.{answer, mark_request, conclude, request, has_res, release}
use rm_vm.Kernel.System.{◌>>=◌}
use rm_vm.Common.{
  ℕ, ◌+◌, ◌-◌, ◌<◌, ◌≡◌, ap, ◌∙◌, Bool, true, false, none, some, ◌∷◌, arith, if◌then◌else◌, set,
}

-- The first resource is the one for input and output.
pub has_first : (r : Resource) (rm : ResourceManager) → r.id ≡ 1 → has_res (r ∷ rm) 1 ≡ true
unfolding has_res
has_first r rm h = ground (arith, h)

request_first :
    (r : Resource) (rm : ResourceManager) (pid : ℕ)
    → r.id ≡ 1
    → 0 < r.available
    → request_resource (r ∷ rm) 1 pid ≡ some (true, record r { available = r.available - 1 } ∷ rm)
unfolding request_resource request_unit
request_first r rm pid h u = ground (arith, h, u)

release_first :
    (r : Resource) (rm : ResourceManager)
    → r.id ≡ 1
    → r.head ≡ r.tail
    → release_resource (r ∷ rm) 1 ≡ some (none, record r { available = r.available + 1 } ∷ rm)
unfolding release_resource release_unit dequeue
release_first r rm h e = ground (arith, h, e)

requesting : ℕ → M Bool
requesting a = do
  p ← load a
  result ← gets (λ s. request_resource s.resources 1 p.pid)
  answer 1 a result

pub request_lem :
    (s : Sys) (a : ℕ) (p : Process) (r : Resource) (rm : ResourceManager)
    → At s.heap a p
    → s.resources ≡ r ∷ rm
    → r.id ≡ 1
    → 0 < r.available
    → request 1 (some a) s
      ≡ some (
        true,
        record s {
          heap = set s.heap a (some (mark_request 1 true p));
          resources = record r { available = r.available - 1 } ∷ rm;
        },
      )
unfolding request requesting
request_lem s a p r rm l e h u =
    ap (λ b. (if b then requesting a else pure false) s)
      (ap (λ x. has_res x 1) e ∙ has_first r rm h)
    ∙ goes_on _ (load-At a s p l)
    ∙ ap (λ o. answer 1 a o s)
        (ap (λ x. request_resource x 1 p.pid) e ∙ request_first r rm p.pid h u)
    ∙ goes_on _ (
        update-At a (mark_request 1 true)
          (record s { resources = record r { available = r.available - 1 } ∷ rm }) p l)

pub release_lem :
    (s : Sys) (r : Resource) (rm : ResourceManager)
    → s.resources ≡ r ∷ rm
    → r.id ≡ 1
    → r.head ≡ r.tail
    → release 1 true s
      ≡ some (true, record s { resources = record r { available = r.available + 1 } ∷ rm })
unfolding release
release_lem s r rm e h z =
    ap (λ o. conclude true o s) (ap (λ x. release_resource x 1) e ∙ release_first r rm h z)
