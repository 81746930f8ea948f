-- ===== src/Kernel/Invariant/Spawn.antt =====
-- A new process of src/kernel/scheduler.c, from `initProcess` to the end of `addProc`, and the invariant
-- of src/kernel.
use rm_vm.Kernel.Invariant.Fills.{
  slot-Alive, At-below, slot-Fills, new-Fills, kept-Fills, All-Fills, Fills,
}
use rm_vm.Kernel.Scheduler.Sound.{Sound}
use rm_vm.Kernel.Scheduler.Search.{LiveSlot}
use rm_vm.Kernel.Invariant.Heap.{At-alloc_new, At-alloc_old, At-alloc-cases}
use rm_vm.Kernel.Scheduler.Table.{IsTable}
use rm_vm.Kernel.System.Safe.{current-Alive, CurrentLive, All-Alive, Alive}
use rm_vm.Kernel.Invariant.{Onward, Pending, In, Inv, IsLoader, IsProc, Ghost}
use rm_vm.Kernel.Process.{Entry, Process}
use rm_vm.Kernel.System.Steps.{At}
use rm_vm.Kernel.System.{Scheduler, Sys}
use rm_vm.Common.{
  ℕ, ◌+◌, ◌≤◌, ◌<◌, ◌≡◌, refl, sym, ap, ◌∙◌, subst, ◌≢◌, ◌⊎◌, inl, inr, Option, none, some, [], ◌∷◌,
  ◌++◌, arith, ℕ_discrete, length, get_or,
}

-- A process that may come to the others, with the next pid.
pub record Newcomer (g : Ghost) (s : Sys) (q : Process) : Type 0 where
  pub pid : q.pid ≡ s.scheduler.pid + 1
  pub proc : IsProc (s.scheduler.pid + 1) q
  pub child : q.parent_pid ≤ s.scheduler.pid
  pub parent :
      IsLoader q → (b : ℕ) (r : Process) → At s.heap b r → r.pid ≡ q.parent_pid → r.loaded ≡ 2
  pub alone :
      IsLoader q → (b : ℕ) (r : Process) → At s.heap b r → IsLoader r → r.parent_pid ≢ q.parent_pid
  pub governor : q.entry ≡ some Entry.job_governor_entry → q.loaded ≡ 0 → In (length s.heap) g.fresh
  pub room : s.scheduler.pid + 1 + length g.fresh < 256

abbrev pub spawned : Sys → Process → Scheduler → Sys
spawned s q t = record s { heap = s.heap ++ some q ∷ []; scheduler = t }

grown : (n m : ℕ) (p : Process) → n ≤ m → IsProc n p → IsProc m p
grown n m p le h = record {
  no_pi = h.no_pi;
  no_si = h.no_si;
  machine = h.machine;
  owned = h.owned;
  pid_low = h.pid_low;
  pid_high = omega (arith, le, h.pid_high);
  parent = omega (arith, le, h.parent);
}

module _ {g : Ghost} {s : Sys} (q : Process) (t : Scheduler) (h : Inv g s) (n : Newcomer g s q)
    (it : IsTable t) (fl : Fills s.scheduler.schedule (length s.heap) t.schedule)
    (pid : t.pid ≡ s.scheduler.pid + 1) (cur : t.current ≡ s.scheduler.current) where
  cases :
      (b : ℕ) (r : Process)
      → At (spawned s q t).heap b r
      → ((b ≡ length s.heap) × (q ≡ r)) ⊎ At s.heap b r
  cases b r m = At-alloc-cases s.heap q b r m

  still : (b : ℕ) → Alive s.heap b → Alive (spawned s q t).heap b
  still b (r, l) = (r, At-alloc_old s.heap q b r l)

  not_new : (i : ℕ) → get_or s.scheduler.schedule i none ≢ some (length s.heap)
  not_new i e =
      At-below s.heap (length s.heap)
        (slot-Alive s.heap s.scheduler.schedule i (length s.heap) h.sound.slots e) refl

  spawn-Sound : Sound (spawned s q t)
  spawn-Sound = record {
    is_table = it;
    slots =
        All-Fills (LiveSlot (spawned s q t).heap) s.scheduler.schedule t.schedule (length s.heap) fl
          (All-Alive s.heap (spawned s q t).heap s.scheduler.schedule still h.sound.slots)
          (q, At-alloc_new s.heap q);
    current =
        subst (λ c. CurrentLive c (spawned s q t).heap) (sym cur)
          (current-Alive s.scheduler.current s.heap (spawned s q t).heap still h.sound.current);
  }

  -- An old process does not have the pid of the new one.
  other_pid : (b : ℕ) (r : Process) → At s.heap b r → r.pid ≢ q.pid
  other_pid b r m e = omega (arith, (h.procs b r m).pid_high, e, n.pid)

  spawn-distinct :
      (b c : ℕ) (r u : Process)
      → At (spawned s q t).heap b r
      → At (spawned s q t).heap c u
      → r.pid ≡ u.pid
      → b ≡ c
  spawn-distinct b c r u m m' e = elim (cases b r m) [
    | inl (eb, fb) ↦ elim (cases c u m') [
      | inl (ec, fc) ↦ eb ∙ sym ec
      | inr oc ↦ absurd (other_pid c u oc (sym e ∙ ap (λ x. x.pid) (sym fb)))
    ]
    | inr ob ↦ elim (cases c u m') [
      | inl (ec, fc) ↦ absurd (other_pid b r ob (e ∙ ap (λ x. x.pid) (sym fc)))
      | inr oc ↦ h.distinct b c r u ob oc e
    ]
  ]

  spawn_unique :
      (i j b : ℕ) → get_or t.schedule i none ≡ some b → get_or t.schedule j none ≡ some b → i ≡ j
  spawn_unique i j b m m' = elim (ℕ_discrete (length s.heap) b) [
    | yes e ↦
        new-Fills s.scheduler.schedule t.schedule (length s.heap) i j fl not_new
          (m ∙ ap some (sym e)) (m' ∙ ap some (sym e))
    | no ne ↦
        let old = λ (i : ℕ). λ (m : get_or t.schedule i none ≡ some b).
          elim (slot-Fills s.scheduler.schedule t.schedule (length s.heap) i b fl m)
            as (λ _. get_or s.scheduler.schedule i none ≡ some b) [
              | inl o ↦ o
              | inr e ↦ absurd (ne e)
            ] in
        h.unique i j b (old i m) (old j m')
  ]

  spawn-parents :
      (b c : ℕ) (r u : Process)
      → At (spawned s q t).heap b r
      → At (spawned s q t).heap c u
      → IsLoader r
      → u.pid ≡ r.parent_pid
      → (g.done ≡ some b) ⊎ (u.loaded ≡ 2)
  spawn-parents b c r u m m' i e = elim (cases b r m) [
    | inl (eb, fb) ↦ elim (cases c u m') [
      | inl (ec, fc) ↦
          absurd (omega (arith, n.pid, n.child, ap (λ x. x.pid) fc, ap (λ x. x.parent_pid) fb, e))
      | inr oc ↦
          inr (n.parent (ap (λ x. x.entry) fb ∙ i) c u oc (e ∙ ap (λ x. x.parent_pid) (sym fb)))
    ]
    | inr ob ↦ elim (cases c u m') [
      | inl (ec, fc) ↦ absurd (omega (arith, n.pid, ap (λ x. x.pid) fc, e, (h.procs b r ob).parent))
      | inr oc ↦ h.parents b c r u ob oc i e
    ]
  ]

  spawn-single :
      (b c : ℕ) (r u : Process)
      → At (spawned s q t).heap b r
      → At (spawned s q t).heap c u
      → IsLoader r
      → IsLoader u
      → r.parent_pid ≡ u.parent_pid
      → b ≡ c
  spawn-single b c r u m m' i j e = elim (cases b r m) [
    | inl (eb, fb) ↦ elim (cases c u m') [
      | inl (ec, fc) ↦ eb ∙ sym ec
      | inr oc ↦
          absurd
            (n.alone (ap (λ x. x.entry) fb ∙ i) c u oc j (sym e ∙ ap (λ x. x.parent_pid) (sym fb)))
    ]
    | inr ob ↦ elim (cases c u m') [
      | inl (ec, fc) ↦
          absurd (n.alone (ap (λ x. x.entry) fc ∙ j) b r ob i (e ∙ ap (λ x. x.parent_pid) (sym fc)))
      | inr oc ↦ h.single b c r u ob oc i j e
    ]
  ]

  spawn-Pending :
      (x : Option ℕ) → Pending x s.io s.heap g.io_res → Pending x s.io (spawned s q t).heap g.io_res
  spawn-Pending none e = e
  spawn-Pending (some c) (req, (u, m, w)) = (req, (u, At-alloc_old s.heap q c u m, w))

  pub spawn-Inv : Inv g (spawned s q t)
  spawn-Inv = record {
    sound = spawn-Sound;
    procs = λ b r m.
        subst (λ k. IsProc k r) (sym pid)
          (elim (cases b r m) [
            | inl (_, f) ↦ subst (IsProc (s.scheduler.pid + 1)) f n.proc
            | inr o ↦ grown s.scheduler.pid (s.scheduler.pid + 1) r (omega arith) (h.procs b r o)
          ]);
    distinct = spawn-distinct;
    unique = spawn_unique;
    parents = spawn-parents;
    single = spawn-single;
    governors = λ b r m e z. elim (cases b r m) [
      | inl (eb, f) ↦
          subst (λ x. In x g.fresh) (sym eb)
            (n.governor (ap (λ x. x.entry) f ∙ e) (ap (λ x. x.loaded) f ∙ z))
      | inr o ↦ h.governors b r o e z
    ];
    room = omega (arith, n.room, pid);
    pool = h.pool;
    units = h.units;
    queue = spawn-Pending g.pending h.queue;
    resting = λ b e. h.resting b (sym cur ∙ e);
    no_pi = h.no_pi;
    no_si = h.no_si;
    last_pi = h.last_pi;
    last_si = h.last_si;
    disk = h.disk;
  }

  pub spawn-Onward : Onward s (spawned s q t)
  spawn-Onward = record {
    alive = still;
    slots = λ i b e. kept-Fills s.scheduler.schedule t.schedule (length s.heap) i b fl e;
  }
