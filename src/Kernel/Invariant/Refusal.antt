-- ===== src/Kernel/Invariant/Refusal.antt =====
-- A process that waits for the unit of input and output: the ring of src/kernel/resource.c, and the
-- invariant of src/kernel.
use rm_vm.Kernel.System.Steps.{At}
use rm_vm.Kernel.Process.{Process}
use rm_vm.Kernel.System.{Sys}
use rm_vm.Kernel.Resource.Ring.{waiting}
use rm_vm.Kernel.Resource.{ResourceManager, request_unit, request_resource, enqueue, Resource}
use rm_vm.Kernel.Invariant.{Pending, Inv, Ghost}
use rm_vm.Kernel.Resource.Ring
use rm_vm.Common.{
  ℕ, ◌+◌, ◌-◌, ◌%◌, ◌≡◌, sym, ap, subst, ◌≢◌, inl, inr, false, Option, none, some, List, [], ◌∷◌,
  ◌++◌, arith, Bool-cases, All,
}

pub nobody_waits : (r : Resource) → r.head ≡ r.tail → waiting r ≡ []
unfolding waiting
nobody_waits r e =
    let zero_wait : (r.tail + 32 - r.head) % 32 ≡ 0 = omega (arith, e) in
    ap (Ring.slice r.wait_pids r.head) zero_wait

-- The answer where the unit is out.
pub request_refused :
    (r : Resource) (rm : ResourceManager) (pid : ℕ)
    → r.id ≡ 1
    → r.available ≡ 0
    → request_resource (r ∷ rm) 1 pid ≡ some (false, (enqueue r pid).1 ∷ rm)
unfolding request_resource request_unit
request_refused r rm pid h u = ground (arith, h, u)

pub enqueue-id : (r : Resource) (pid : ℕ) → (enqueue r pid).1.id ≡ r.id
unfolding enqueue
enqueue-id r pid = ground arith

All-append_one : (P : ℕ → Type 0) (xs : List ℕ) (x : ℕ) → All P xs → P x → All P (xs ++ x ∷ [])
All-append_one P [] x h k = (k, tt)
All-append_one P (y ∷ ys) x h k = (h.0, All-append_one P ys x h.1 k)

-- Another process that waits is no reason for the one with the request to wait.
apart-enqueue :
    (r : Resource) (pid n : ℕ)
    → Ring.IsValid r
    → pid ≢ n
    → All (λ k. k ≢ n) (waiting r)
    → All (λ k. k ≢ n) (waiting (enqueue r pid).1)
apart-enqueue r pid n v ne h =
    let (_, e, _) = Ring.enqueue_lem pid v in
    subst (All (λ k. k ≢ n)) (sym e) (elim (Bool-cases (enqueue r pid).0) [
      | inl b ↦ rw b (All-append_one (λ k. k ≢ n) (waiting r) pid h ne)
      | inr b ↦ rw b h
    ])

pub still_Pending :
    (g : Ghost) (s : Sys) (a : ℕ) (p : Process) (x : Option ℕ) (pid : ℕ)
    → Inv g s
    → At s.heap a p
    → x ≢ some a
    → Pending x s.io s.heap g.io_res
    → Pending x s.io s.heap (enqueue g.io_res p.pid).1
still_Pending g s a p none pid h l n e = e
still_Pending g s a p (some c) pid h l n (req, (q, m, w)) =
    let other : p.pid ≢ q.pid = λ e. n (ap some (sym (h.distinct a c p q l m e))) in
    (
      req,
      (
        q,
        m,
        record {
          not_ready = w.not_ready;
          loaded = w.loaded;
          apart = apart-enqueue g.io_res p.pid q.pid h.pool.ring other w.apart;
        },
      ),
    )
