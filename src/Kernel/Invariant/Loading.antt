-- ===== src/Kernel/Invariant/Loading.antt =====
-- `loaderEntry` of src/kernel/scheduler.c, and the invariant of src/kernel.
use rm_vm.Kernel.Invariant.Ends.{busy}
use rm_vm.Kernel.Invariant.Change.{readied-Mild, Mild-Inv, Loads-same, changed-Inv, readied, Apart}
use rm_vm.Kernel.Invariant.Frame.{with_io-Inv, with_loads-Inv}
use rm_vm.Kernel.Loader.Bounds.{loader_load_file-IsValid}
use rm_vm.Kernel.Invariant.Load.{loader_load_file-IsDisk}
use rm_vm.Kernel.Loader.{loader_load_file}
use rm_vm.Vm.State.{VirtualMachine}
use rm_vm.Kernel.Jobs.{load_into}
use rm_vm.Kernel.Invariant.Find.{Follows-trans, put-Follows, Akin-refl, Follows, Match, first-Match}
use rm_vm.Kernel.Invariant.Put.{put-Onward, put}
use rm_vm.Kernel.System.Steps.{
  update-At, At-set, set_state-At, goes_on, some-injective, At-unique, At,
}
use rm_vm.Kernel.Process.{ProcState, has_pid, Process}
use rm_vm.Kernel.Resource.{Resource}
use rm_vm.Kernel.Invariant.{Onward-refl, Onward, Pending, Inv, Ghost}
use rm_vm.Kernel.Scheduler.{unblock_process}
use rm_vm.Common.{
  ℕ, ◌≡◌, refl, sym, ap, ◌∙◌, subst, ◌≢◌, inl, inr, Bool, true, false, Option, none, some, List,
  arith, ==→eq, some-ne-none,
}
use rm_vm.Kernel.System.{pure, when, M, set_state, Sys}
use rm_vm.Vm.State

-- A loader may have done its work.
pub with_done-Inv :
    (r : Resource) (x : Option ℕ) (l : List ℕ) (s : Sys) (a : ℕ)
    → Inv (busy r x none l) s
    → Inv (busy r x (some a) l) s
with_done-Inv r x l s a h =
    with_loads-Inv (some a) l h
      (λ b c u v m m' i e. elim (h.parents b c u v m m' i e) [
        | inl f ↦ absurd (some-ne-none b (sym f))
        | inr two ↦ inr two
      ])
      h.governors h.room

-- A process that waits for its loader has no request in the queue.
pub two_apart :
    (g : Ghost) (s : Sys) (b : ℕ) (q : Process) (x : Option ℕ)
    → Pending x s.io s.heap g.io_res
    → At s.heap b q
    → q.loaded ≡ 2
    → x ≢ some b
two_apart g s b q none d m two e = some-ne-none b (sym e)
two_apart g s b q (some c) (_, (u, mu, w)) m two e =
    let same = At-unique s.heap c b u q mu (some-injective c b e) m in
    omega (arith, two, w.loaded, ap (λ p. p.loaded) same)

-- What `unblockProcess` does with what it has found.
abbrev unblock : Option (ℕ × ℕ) → M (Unit {0})
unblock o = elim o [ none ↦ pure tt | some (i, a) ↦ set_state a ProcState.ready ]

abbrev Unblocks : Ghost → M (Unit {0}) → Sys → Type 0
Unblocks g m s =
    (s' : Sys) × (m s ≡ some (tt, s')) × Inv g s' × Onward s s' × Follows s.heap s'.heap

unblock-Inv :
    (g : Ghost) (s : Sys) (b pid : ℕ) (q : Process) (o : Option (ℕ × ℕ))
    → Inv g s
    → At s.heap b q
    → q.pid ≡ pid
    → Apart g b
    → Match (has_pid pid) s.heap s.scheduler.schedule 0 o
    → Unblocks g (unblock o) s
unfolding has_pid
unblock-Inv g s b pid q none h m same n f =
    (s, refl, h, Onward-refl s, λ c u l. (u, l, Akin-refl u))
unblock-Inv g s b pid q (some (k, c)) h m same n (p, l, t, _, _, _) =
    let is : c ≡ b = h.distinct c b p q l m (==→eq p.pid pid t ∙ sym same) in
    let apart : Apart g c = subst (Apart g) (sym is) n in
    (
      put s c (readied p),
      set_state-At c ProcState.ready s p l,
      Mild-Inv c readied p l readied-Mild (λ e. absurd (apart e)) h,
      put-Onward s c p (readied p) l,
      put-Follows s.heap c p (readied p) l
          (record { pid = refl; entry = refl; parent = refl }, refl),
    )

-- `unblockProcess` of a pid that a process has.
unblock_process-Inv :
    (g : Ghost) (s : Sys) (b pid : ℕ) (q : Process)
    → Inv g s
    → At s.heap b q
    → q.pid ≡ pid
    → Apart g b
    → Unblocks g (unblock_process pid) s
unfolding unblock_process
unblock_process-Inv g s b pid q h m same n =
    let (o, e, f) = first-Match (has_pid pid) s h.sound.slots in
    let (s', r, h', on, fo) = unblock-Inv g s b pid q o h m same n f in
    (s', goes_on _ e ∙ r, h', on, fo)

when_ok :
    (g : Ghost) (s : Sys) (b : Bool) (m : M (Unit {0}))
    → Inv g s
    → Unblocks g m s
    → Unblocks g (when b m) s
when_ok g s true m h u = u
when_ok g s false m h u = (s, refl, h, Onward-refl s, λ c u l. (u, l, Akin-refl u))

-- The machine of a process that has one.
machine-Inv :
    (g : Ghost) (s : Sys) (b : ℕ) (q : Process) (vm : VirtualMachine)
    → Inv g s
    → At s.heap b q
    → q.entry ≢ none
    → Apart g b
    → State.IsValid vm
    → Inv g (put s b (record q { vm = some vm }))
machine-Inv g s b q vm h m has n v =
    changed-Inv b q m h v (λ e. absurd (has e))
      (Loads-same b q (record q { vm = some vm }) m h refl refl) (λ e. absurd (n e))

abbrev pub LoadsFile : Ghost → M Bool → Sys → Type 0
LoadsFile g m s =
    (ok : Bool) × (s' : Sys) × (m s ≡ some (ok, s'))
    × Inv g s'
    × Onward s s'
    × Follows s.heap s'.heap

pub load_into-Inv :
    (g : Ghost) (s : Sys) (b : ℕ) (q : Process) (vm : VirtualMachine) (file_id pid : ℕ)
    → Inv g s
    → At s.heap b q
    → q.entry ≢ none
    → q.pid ≡ pid
    → Apart g b
    → State.IsValid vm
    → LoadsFile g (load_into b vm file_id pid) s
unfolding load_into
load_into-Inv g s b q vm file_id pid h m has same n v =
    let (ok, d, vm') = loader_load_file s.disk s.files vm file_id in
    let s1 : Sys = record s { disk = d } in
    let h1 : Inv g s1 =
      with_io-Inv s.io g.pending d h h.queue h.units h.resting
        (loader_load_file-IsDisk s.disk s.files vm file_id h.disk) in
    let q2 = record q { vm = some vm' } in
    let h2 =
      machine-Inv g s1 b q vm' h1 m has n (loader_load_file-IsValid s.disk s.files file_id v) in
    let s2 = put s1 b q2 in
    let (s3, e, h3, o3, f3) =
      when_ok g s2 ok (unblock_process pid) h2
        (unblock_process-Inv g s2 b pid q2 h2 (At-set s.heap b q q2 m) same n) in
    let o = put-Onward s b q q2 m in
    (
      ok,
      s3,
      goes_on _ (update-At b (λ p. record p { vm = some vm' }) s1 q m) ∙ goes_on _ e,
      h3,
      record {
        alive = λ c z. o3.alive c (o.alive c z);
        slots = λ i c z. o3.slots i c (o.slots i c z);
      },
      Follows-trans s.heap s2.heap s3.heap
          (put-Follows s.heap b q q2 m (record { pid = refl; entry = refl; parent = refl }, refl))
          f3,
    )
