-- ===== src/Kernel/Invariant/Loaders.antt =====
-- A turn of a loader: `loaderEntry` of src/kernel/scheduler.c, and the invariant of src/kernel.
use rm_vm.Kernel.Jobs.Loading.{held, for_current, served}
use rm_vm.Kernel.Invariant.Ends.{Ends, busy}
use rm_vm.Kernel.Invariant.Change.{changed-Inv}
use rm_vm.Kernel.Invariant.Find.{
  first-Match, Match, put-Follows, Follows-trans, Akin-refl, put-look, Akin,
}
use rm_vm.Kernel.Scheduler.{mark_request}
use rm_vm.Kernel.Invariant.Put.{put-Onward, put}
use rm_vm.Kernel.Invariant.Units.{release_memory, request_memory}
use rm_vm.Kernel.Invariant.Loading.{with_done-Inv, two_apart, load_into-Inv, LoadsFile}
use rm_vm.Kernel.System.Steps.{load-At, update-At, some-injective, goes_on, At}
use rm_vm.Vm.State.{VirtualMachine}
use rm_vm.Kernel.Invariant.{Onward-trans, Valid, Onward-refl, Yields, IsLoader, Inv}
use rm_vm.Kernel.Jobs.{loader_entry, load_file_for}
use rm_vm.Kernel.Resource.{Resource}
use rm_vm.Kernel.Process.{EntryResult, has_pid, ProcState, Process}
use rm_vm.Common.{
  ℕ, ◌-◌, ◌≡◌, refl, sym, ap, ◌∙◌, subst, ◌≢◌, inl, inr, true, Option, none, some, List, arith,
  Bool-cases, Option-cases, ==→eq, some-ne-none,
}
use rm_vm.Kernel.System.{load, update, when, pure, M, Sys, ◌>>=◌}
use rm_vm.Vm.State

-- `loaderLoadFile` for the process `b`, with the memory of the current process `a`.
load_file_for-Inv :
    (r : Resource) (x d : Option ℕ) (l : List ℕ) (s : Sys) (a b : ℕ) (p q : Process)
    (vm : VirtualMachine) (file_id pid : ℕ)
    → Inv (busy r x d l) s
    → s.scheduler.current ≡ some a
    → At s.heap a p
    → At s.heap b q
    → q.entry ≢ none
    → q.pid ≡ pid
    → x ≢ some a
    → x ≢ some b
    → State.IsValid vm
    → LoadsFile (busy r x d l) (load_file_for b vm file_id pid) s
unfolding load_file_for
load_file_for-Inv r x d l s a b p q vm file_id pid h cur at m has same n nb v =
    let (rm, e1, h1) = request_memory a p h at n (omega arith) in
    let p1 = mark_request 2 true p in
    let s1 : Sys = record (put s a p1) { resources = rm } in
    let k1 : Akin p p1 = (record { pid = refl; entry = refl; parent = refl }, refl) in
    let (q1, m1, (same1, _)) = put-look Akin s.heap a p p1 b q Akin-refl at k1 m in
    let (ok, s2, e2, h2, o2, f2) =
      load_into-Inv (record (busy r x d l) { memory = 2 - 1 }) s1 b q1 vm file_id pid h1 m1
        (λ e. has (sym same1.entry ∙ e)) (same1.pid ∙ same) nb v in
    let (rm3, e3, h3) = release_memory h2 in
    let o1 = put-Onward s a p p1 at in
    (
      ok,
      record s2 { resources = rm3 },
      ap (λ c. for_current b vm file_id pid c s) cur
          ∙ goes_on (λ (g, s). held b vm file_id pid a g s) e1
          ∙ goes_on _ e2
          ∙ goes_on _ e3,
      h3,
      record {
        alive = λ c z. o2.alive c (o1.alive c z);
        slots = λ i c z. o2.slots i c (o1.slots i c z);
      },
      Follows-trans s.heap s1.heap s2.heap (put-Follows s.heap a p p1 at k1) f2,
    )

-- The parent of a loader has its program.
served-Inv :
    (r : Resource) (x : Option ℕ) (l : List ℕ) (s : Sys) (a b : ℕ) (p q : Process)
    → Inv (busy r x (some a) l) s
    → At s.heap a p
    → At s.heap b q
    → IsLoader p
    → q.pid ≡ p.parent_pid
    → x ≢ some b
    → Inv (busy r x (some a) l) (put s b (served true q))
served-Inv r x l s a b p q h at m i same n =
    let o = h.procs b q m in
    changed-Inv b q m h o.machine o.owned
      (record {
        fresh = λ e. omega (arith, e);
        parents = λ c u mc j e. inl (ap some (h.single a c p u at mc i j (sym same ∙ e)));
      })
      (λ e. absurd (n e))

module _ (r : Resource) (x : Option ℕ) (l : List ℕ) (s : Sys) (a : ℕ) (p : Process)
    (h : Inv (busy r x none l) s) (at : At s.heap a p) (n : x ≢ some a) (ld : IsLoader p)
    (cur : s.scheduler.current ≡ some a) (file_id : ℕ) where
  -- What `loaderEntry` does for the parent.
  abbrev serve_parent : ℕ → VirtualMachine → ℕ → M (Unit {0})
  serve_parent b vm pid = do
    ok ← load_file_for b vm file_id pid
    when ok (update b (λ p. record p { loaded = 1; state = ProcState.ready }))

  abbrev Serves : M (Unit {0}) → Type 0
  Serves m = (d : Option ℕ) × Yields (busy r x d l) m s tt × ((c : ℕ) → d ≡ some c → c ≡ a)

  nothing : Serves (pure tt)
  nothing = (none, (s, refl, h, Onward-refl s), λ c e. absurd (some-ne-none c (sym e)))

  serves :
      (b : ℕ) (q : Process) (vm : VirtualMachine)
      → At s.heap b q
      → q.pid ≡ p.parent_pid
      → q.vm ≡ some vm
      → Serves (serve_parent b vm q.pid)
  serves b q vm m same has =
      let o = h.procs b q m in
      let two : q.loaded ≡ 2 = elim (h.parents a b p q at m ld same) as (λ _. q.loaded ≡ 2) [
        | inl f ↦ absurd (some-ne-none a (sym f))
        | inr two ↦ two
      ] in
      let nb = two_apart (busy r x none l) s b q x h.queue m two in
      let owned = λ (e : q.entry ≡ none). some-ne-none vm (sym has ∙ o.owned e) in
      let h0 = with_done-Inv r x l s a h in
      let (ok, s1, e1, h1, o1, f1) =
        load_file_for-Inv r x (some a) l s a b p q vm file_id q.pid h0 cur at m owned refl n nb
          (subst Valid has o.machine) in
      let (p1, at1, (sp, _)) = f1 a p at in
      let (q1, m1, (sq, _)) = f1 b q m in
      let h2 =
        served-Inv r x l s1 a b p1 q1 h1 at1 m1 (sp.entry ∙ ld) (sq.pid ∙ same ∙ sym sp.parent)
          nb in
      elim (Bool-cases ok) as (λ _. Serves (serve_parent b vm q.pid)) [
        | inl t ↦ (
          some a,
          (
            put s1 b (served true q1),
            goes_on _ e1
                ∙ ap (λ k. when k (update b (served true)) s1) t
                ∙ update-At b (served true) s1 q1 m1,
            h2,
            Onward-trans o1 (put-Onward s1 b q1 (served true q1) m1),
          ),
          λ c e. sym (some-injective a c e),
        )
        | inr f ↦ (
          some a,
          (s1, goes_on _ e1 ∙ ap (λ k. when k (update b (served true)) s1) f, h1, o1),
          λ c e. sym (some-injective a c e),
        )
      ]

  abbrev for_parent : Option (ℕ × ℕ) → M (Unit {0})
  for_parent o = elim o [
    | none ↦ pure tt
    | some (i, b) ↦ do q ← load b; elim q.vm [ none ↦ pure tt | some vm ↦ serve_parent b vm q.pid ]
  ]

  found-Serves :
      (o : Option (ℕ × ℕ))
      → Match (has_pid p.parent_pid) s.heap s.scheduler.schedule 0 o
      → Serves (for_parent o)
  unfolding has_pid
  found-Serves none f = nothing
  found-Serves (some (i, b)) (q, m, t, _, _, _) = elim (Option-cases q.vm) [
    | inl e ↦ (
      none,
      (s, goes_on _ (load-At b s q m) ∙ rw e refl, h, Onward-refl s),
      λ c e. absurd (some-ne-none c (sym e)),
    )
    | inr (vm, e) ↦
        let (d, (s', run, h', o'), k) = serves b q vm m (==→eq q.pid p.parent_pid t) e in
        (d, (s', goes_on _ (load-At b s q m) ∙ rw e run, h', o'), k)
  ]

  -- `loaderEntry` as the current process.
  pub loader_entry-Ends : Ends a (loader_entry a file_id) s
  unfolding loader_entry
  loader_entry-Ends =
      let (o, e, f) = first-Match (has_pid p.parent_pid) s h.sound.slots in
      let (d, (s', run, h', o'), k) = found-Serves o f in
      (
        EntryResult.finished,
        r,
        x,
        d,
        l,
        (s', goes_on _ (load-At a s p at) ∙ goes_on _ e ∙ goes_on _ run, h', o'),
        (n, k),
      )
