-- ===== src/Kernel/Invariant/Govern.antt =====
-- `jobGovernorEntry` of src/kernel/scheduler.c as it asks for a loader, and the invariant of src/kernel.
use rm_vm.Kernel.Jobs.Request.{start_loader-At, child, asked}
use rm_vm.Kernel.Invariant.Fills.{Fills}
use rm_vm.Kernel.Invariant.Ends.{with_fresh-Inv, Ends, busy}
use rm_vm.Kernel.Invariant.Change.{blocked-Mild, blocked, changed-Inv, Mild-Inv}
use rm_vm.Kernel.Scheduler.Sound.{with_current-IsTable}
use rm_vm.Kernel.Invariant.Spawn.{spawn-Onward, spawn-Inv, spawned, Newcomer}
use rm_vm.Kernel.Invariant.Heap.{At-set-cases}
use rm_vm.Kernel.Invariant.Launch.{set-append_left}
use rm_vm.Kernel.Invariant.Put.{put-Onward, put}
use rm_vm.Kernel.Invariant.Trap.{vacant, vacant-Inv}
use rm_vm.Kernel.System.Steps.{At-lt, At-unique, At-set, At}
use rm_vm.Kernel.Jobs.{start_loader}
use rm_vm.Kernel.Invariant.{Onward-trans, Onward, IsLoader, Inv, In}
use rm_vm.Kernel.Resource.{Resource}
use rm_vm.Kernel.Process.{Entry, init_process, EntryResult, Process}
use rm_vm.Common.{
  ℕ, ◌+◌, ◌≤◌, ◌≡◌, refl, sym, ap, ◌∙◌, subst, ◌≢◌, inl, inr, Option, none, some, List, [], ◌∷◌,
  ◌++◌, arith, length, set, length-set, some-ne-none,
}
use rm_vm.Kernel.System.{alloc, Sys}

-- The list without an element that it has.
without :
    (l : List ℕ) (a : ℕ)
    → In a l
    → (l' : List ℕ) × (length l' + 1 ≤ length l) × ((b : ℕ) → In b l → b ≢ a → In b l')
without [] a x = absurd x
without (c ∷ l) a (inl e) = (
  l,
  omega arith,
  λ b i n. elim i as (λ _. In b l) [ inl f ↦ absurd (n (f ∙ sym e)) | inr o ↦ o ],
)
without (c ∷ l) a (inr i) =
    let (l', n, k) = without l a i in
    (
      c ∷ l',
      omega (arith, n),
      λ b i n. elim i as (λ _. In b (c ∷ l')) [ inl f ↦ inl f | inr o ↦ inr (k b o n) ],
    )

governor_not_loader : some Entry.job_governor_entry ≢ some Entry.loader_entry
governor_not_loader e = cc e

module _ (r : Resource) (x : Option ℕ) (l : List ℕ) (s : Sys) (a : ℕ) (p : Process)
    (h : Inv (busy r x none l) s) (at : At s.heap a p) (n : x ≢ some a)
    (jg : p.entry ≡ some Entry.job_governor_entry) (zero_loaded : p.loaded ≡ 0) where
  -- No loader works for it yet.
  no_loader : (b : ℕ) (u : Process) → At s.heap b u → IsLoader u → u.parent_pid ≢ p.pid
  no_loader b u m i e = elim (h.parents b a u p m at i (sym e)) [
    | inl f ↦ some-ne-none b (sym f)
    | inr two ↦ omega (arith, two, zero_loaded)
  ]

  asked-Inv : Inv (busy r x none l) (put s a (asked p))
  asked-Inv =
      let o = h.procs a p at in
      changed-Inv a p at h o.machine o.owned
        (record { fresh = λ e. omega (arith, e); parents = λ b u m i e. inr refl })
        (λ e. absurd (n e))

  asked-At : At (put s a (asked p)).heap a (asked p)
  asked-At = At-set s.heap a p (asked p) at

  abbrev parked : Sys
  parked = vacant (put (put s a (asked p)) a (blocked (asked p)))

  parked-Inv :
      (l' : List ℕ)
      → ((b : ℕ) → In b l → b ≢ a → In b l')
      → length l' + 1 ≤ length l
      → Inv (busy r x none l') parked
  parked-Inv l' k m =
      let h1 =
        with_fresh-Inv l' asked-Inv
          (λ b u at' e z. k b (asked-Inv.governors b u at' e z) (λ eq. omega (
            arith,
            ap (λ p. p.loaded)
                (At-unique (put s a (asked p)).heap a b (asked p) u asked-At (sym eq) at'),
            z,
          )))
          (omega (arith, m, h.room)) in
      vacant-Inv (Mild-Inv a blocked (asked p) asked-At blocked-Mild (λ e. absurd (n e)) h1)

  parked-At : At parked.heap a (blocked (asked p))
  parked-At = At-set (set s.heap a (some (asked p))) a (asked p) (blocked (asked p)) asked-At

  -- The loaders are those that there were.
  parked_loader : (b : ℕ) (u : Process) → At parked.heap b u → IsLoader u → At s.heap b u
  parked_loader b u m i =
      elim (At-set-cases (put s a (asked p)).heap a (asked p) (blocked (asked p)) b u asked-At m) [
        | inl (_, f) ↦ absurd (governor_not_loader (sym jg ∙ ap (λ p. p.entry) f ∙ i))
        | inr (_, m1) ↦ elim (At-set-cases s.heap a p (asked p) b u at m1) [
          | inl (_, f) ↦ absurd (governor_not_loader (sym jg ∙ ap (λ p. p.entry) f ∙ i))
          | inr (_, m2) ↦ m2
        ]
      ]

  child-Newcomer :
      (file_id : ℕ) (l' : List ℕ)
      → Inv (busy r x none l') parked
      → length l' + 1 ≤ length l
      → Newcomer (busy r x none l') parked (child s a p file_id)
  unfolding init_process
  child-Newcomer file_id l' h' m =
      let o = h.procs a p at in
      record {
        pid = refl;
        proc = record {
          no_pi = refl;
          no_si = refl;
          machine = tt;
          owned = λ e. refl;
          pid_low = omega arith;
          pid_high = omega arith;
          parent = omega (arith, o.pid_high);
        };
        child = o.pid_high;
        parent = λ i b u m e.
            ap (λ p. p.loaded)
              (sym (
                At-unique parked.heap a b (blocked (asked p)) u parked-At
                  (h'.distinct a b (blocked (asked p)) u parked-At m (sym e)) m));
        alone = λ i b u m j e. no_loader b u (parked_loader b u m j) j e;
        governor = λ e. absurd (governor_not_loader (sym e));
        room = omega (arith, m, h.room);
      }

  -- The two writes to `a` do not feel that there is one process more.
  writes-append :
      (q : Process)
      → set (set (s.heap ++ some q ∷ []) a (some (asked p))) a (some (blocked (asked p)))
        ≡ parked.heap ++ some q ∷ []
  writes-append q =
      let lt = At-lt s.heap a p at in
      ap (λ xs. set xs a (some (blocked (asked p))))
        (set-append_left s.heap (some q ∷ []) a (some (asked p)) lt)
      ∙ set-append_left (set s.heap a (some (asked p))) (some q ∷ []) a (some (blocked (asked p)))
          (omega (arith, lt, length-set s.heap a (some (asked p))))

  parked-Onward : Onward s (put (put s a (asked p)) a (blocked (asked p)))
  parked-Onward =
      Onward-trans (put-Onward s a p (asked p) at)
        (put-Onward (put s a (asked p)) a (asked p) (blocked (asked p)) asked-At)

  pub start_loader-Ends : (file_id : ℕ) → Ends a (start_loader a p.pid file_id) s
  unfolding start_loader alloc
  start_loader-Ends file_id =
      let (l', m, k) = without l a (h.governors a p at jg zero_loaded) in
      let h' = parked-Inv l' k m in
      let (t, e, lt) =
        start_loader-At s a p file_id h.sound.is_table (omega (arith, m, h.room)) at in
      let t' = record t { current = none } in
      let n' = child-Newcomer file_id l' h' m in
      let len : length parked.heap ≡ length s.heap =
        length-set (set s.heap a (some (asked p))) a (some (blocked (asked p)))
        ∙ length-set s.heap a (some (asked p)) in
      let fl : Fills parked.scheduler.schedule (length parked.heap) t'.schedule =
        subst (λ n. Fills parked.scheduler.schedule n t'.schedule) (sym len) lt.fills in
      let h2 =
        spawn-Inv (child s a p file_id) t' h' n' (with_current-IsTable none lt.is_table) fl lt.pid
          refl in
      let o2 =
        spawn-Onward (child s a p file_id) t' h' n' (with_current-IsTable none lt.is_table) fl
          lt.pid refl in
      let q = child s a p file_id in
      (
        EntryResult.waits,
        r,
        x,
        none,
        l',
        (
          spawned parked q t',
          e
              ∙ ap (λ heap. some (EntryResult.waits, record (spawned s q t') { heap = heap }))
                  (writes-append q),
          h2,
          record {
            alive = λ b z. o2.alive b (parked-Onward.alive b z);
            slots = λ i b z. o2.slots i b (parked-Onward.slots i b z);
          },
        ),
        refl,
      )
