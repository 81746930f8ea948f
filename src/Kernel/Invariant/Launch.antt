-- ===== src/Kernel/Invariant/Launch.antt =====
-- `addProc` of src/kernel/scheduler.c on a process that has just been allocated.
use rm_vm.Kernel.Invariant.Fills.{Fills}
use rm_vm.Kernel.Invariant.Heap.{At-alloc_new}
use rm_vm.Kernel.Scheduler.Removal.{add_proc-At, Chosen-lt}
use rm_vm.Kernel.Process.{Process}
use rm_vm.Kernel.Invariant.Spawn.{spawned}
use rm_vm.Kernel.Scheduler.Table.{place_lem, Placed, Chosen, IsTable}
use rm_vm.Kernel.System.{Sys, Scheduler}
use rm_vm.Kernel.Scheduler.{add_proc, place_user, free_slot, place_system, place}
use rm_vm.Common.{
  ℕ, zero, suc, ◌+◌, ◌-◌, ◌<◌, ◌≡◌, refl, ap, ◌∙◌, inl, inr, Bool, true, false, Option, none, some,
  List, [], ◌∷◌, ◌++◌, arith, length, set, u8,
}

pub set-append_left {ℓ} :
    {A : Type ℓ} (xs ys : List A) (i : ℕ) (v : A)
    → i < length xs
    → set (xs ++ ys) i v ≡ set xs i v ++ ys
set-append_left [] ys i v h = absurd (omega arith)
set-append_left (x ∷ xs) ys zero v h = refl
set-append_left (x ∷ xs) ys (suc i) v h = ap (λ r. x ∷ r) (set-append_left xs ys i v (omega arith))

pub set-append_last {ℓ} :
    {A : Type ℓ} (xs : List A) (x v : A) → set (xs ++ x ∷ []) (length xs) v ≡ xs ++ v ∷ []
set-append_last [] x v = refl
set-append_last (y ∷ xs) x v = ap (λ r. y ∷ r) (set-append_last xs x v)

-- The state of `addProc` with the new pid in the table.
abbrev counted : Scheduler → Scheduler
counted t = record t { pid = u8 (t.pid + 1) }

abbrev KeepsRest : Scheduler → Bool × Scheduler → Type 0
KeepsRest t r = (r.1.pid ≡ t.pid) × (r.1.current ≡ t.current)

system_keeps : (t : Scheduler) (a : ℕ) (o : Option ℕ) → KeepsRest t (place_system t a o)
system_keeps t a none = (refl, refl)
system_keeps t a (some i) = (refl, refl)

user_keeps : (t : Scheduler) (a : ℕ) (o : Option ℕ) → KeepsRest t (place_user t a o)
user_keeps t a none = (refl, refl)
user_keeps t a (some i) = (refl, refl)

place_keeps : (t : Scheduler) (b : Bool) (a : ℕ) → KeepsRest t (place t b a)
unfolding place
place_keeps t true a = system_keeps t a (free_slot (t.prio_max + 1 - 80) t.prio_max t.schedule)
place_keeps t false a = user_keeps t a (free_slot 79 79 t.schedule)

counted-IsTable : {t : Scheduler} → IsTable t → IsTable (counted t)
counted-IsTable h = record {
  size = h.size;
  top_low = h.top_low;
  top_high = h.top_high;
  bottom = h.bottom;
  ordered = h.ordered;
  window = h.window;
}

Placed-Fills :
    (t : Scheduler) (b : Bool) (a : ℕ) (o : Option ℕ) (r : Bool × Scheduler)
    → IsTable t
    → Chosen t b o
    → Placed t a o r
    → Fills t.schedule a r.1.schedule
Placed-Fills t b a none (done, t') i c (_, e) = inl (ap (λ t. t.schedule) e)
Placed-Fills t b a (some k) (done, t') i c (_, e) =
    inr (k, omega (arith, i.size, Chosen-lt t b k i c), c.2, e)

-- The table with the process `a` in the slot, or as it was if there is none.
abbrev pub put_at : Scheduler → ℕ → Option ℕ → List (Option ℕ)
put_at t a none = t.schedule
put_at t a (some k) = set t.schedule k (some a)

Placed-put_at :
    (t : Scheduler) (a : ℕ) (o : Option ℕ) (r : Bool × Scheduler)
    → Placed t a o r
    → r.1.schedule ≡ put_at t a o
Placed-put_at t a none (done, t') (_, e) = ap (λ t. t.schedule) e
Placed-put_at t a (some k) (done, t') (_, e) = e

-- What the table is after `addProc`.
pub record Launched (sys_proc : Bool) (t t' : Scheduler) (a : ℕ) : Type 0 where
  pub slot : Option ℕ
  pub chosen : Chosen t sys_proc slot
  pub placed : t'.schedule ≡ put_at t a slot
  pub is_table : IsTable t'
  pub fills : Fills t.schedule a t'.schedule
  pub pid : t'.pid ≡ t.pid + 1
  pub current : t'.current ≡ t.current

abbrev pub with_pid : Process → ℕ → Process
with_pid q n = record q { pid = n }

-- `addProc` of the process behind the last pointer.
pub add_proc-Launched :
    (s : Sys) (q : Process)
    → IsTable s.scheduler
    → s.scheduler.pid < 255
    → (b : Bool) × (t : Scheduler) × (add_proc
          (length s.heap)
          (record s { heap = s.heap ++ some q ∷ [] })
        ≡ some (b, spawned s (with_pid q (s.scheduler.pid + 1)) t))
      × Launched q.sys_proc s.scheduler t (length s.heap)
add_proc-Launched s q it lt =
    let a = length s.heap in
    let n = s.scheduler.pid + 1 in
    let low : u8 n ≡ n = omega arith in
    let t0 = counted s.scheduler in
    let r = place t0 q.sys_proc a in
    let (o, c, f, it') = place_lem {sch = t0} q.sys_proc a (counted-IsTable it) in
    let (kp, kc) = place_keeps t0 q.sys_proc a in
    (
      r.0,
      r.1,
      add_proc-At (record s { heap = s.heap ++ some q ∷ [] }) a q (At-alloc_new s.heap q)
          ∙ ap (λ heap. some (r.0, record s { heap = heap; scheduler = r.1 }))
              (set-append_last s.heap (some q) (some (with_pid q (u8 n)))
                ∙ ap (λ n. s.heap ++ some (with_pid q n) ∷ []) low),
      record {
        slot = o;
        chosen = c;
        placed = Placed-put_at t0 a o r f;
        is_table = it';
        fills = Placed-Fills t0 q.sys_proc a o r (counted-IsTable it) c f;
        pid = kp ∙ low;
        current = kc;
      },
    )
