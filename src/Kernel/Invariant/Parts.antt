-- ===== src/Kernel/Invariant/Parts.antt =====
-- Writes to what is not a process, and the context switch, and the invariant of src/kernel.
use rm_vm.Kernel.Invariant.Change.{Loads-same, kept-IsProc, Apart, Rests-Apart}
use rm_vm.Common.{
  ℕ, ◌≡◌, refl, sym, ap, ◌∙◌, subst, ◌≢◌, inl, inr, Bool, true, ◌&&◌, Option, none, some, arith,
  Bool-cases, some-ne-none,
}
use rm_vm.Rm.State.{Cpu}
use rm_vm.Rm.Timer.{Timer}
use rm_vm.Kernel.Process.{Process, ProcState, has_state, has_vm}
use rm_vm.Kernel.System.{Sys, KernelState}
use rm_vm.Kernel.System.Steps.{some-injective, At, At-set, At-unique}
use rm_vm.Kernel.System.Safe.{Alive, CurrentLive}
use rm_vm.Kernel.Scheduler.Search.{Found}
use rm_vm.Kernel.Scheduler.Sound.{with_current-IsTable}
use rm_vm.Kernel.Context.{context_switch, context_of, cpu_of}
use rm_vm.Kernel.Context.Pick.{All-Live, CanRun}
use rm_vm.Kernel.Context.Switch.{Saved, Loaded, loaded_state, context_switch_lem}
use rm_vm.Kernel.Invariant.{Pending, Valid, Inv, Ghost, Yields, Onward, Onward-refl, Onward-trans}
use rm_vm.Kernel.Invariant.Put.{Same, put, put-Inv, put-Onward, Rests}

abbrev pub with_parts : Sys → Cpu → KernelState → Timer → Option ℕ → Sys
with_parts s cpu k t c = record s {
  machine = record (s.machine) { cpu = cpu };
  kernel = k;
  timer = t;
  scheduler = record (s.scheduler) { current = c };
}

pub with_parts-Inv :
    {g : Ghost} {s : Sys} (cpu : Cpu) (k : KernelState) (t : Timer) (c : Option ℕ)
    → Inv g s
    → cpu.pi ≡ 0
    → cpu.si ≡ 0
    → k.last_pi ≡ 0
    → k.last_si ≡ 0
    → CurrentLive c s.heap
    → ((a : ℕ) → c ≡ some a → Apart g a)
    → Inv g (with_parts s cpu k t c)
with_parts-Inv cpu k t c h pi si lp ls live rest = record {
  sound = record {
    is_table = with_current-IsTable c h.sound.is_table;
    slots = h.sound.slots;
    current = live;
  };
  procs = h.procs;
  distinct = h.distinct;
  unique = h.unique;
  parents = h.parents;
  single = h.single;
  governors = h.governors;
  room = h.room;
  pool = h.pool;
  units = h.units;
  queue = h.queue;
  resting = rest;
  no_pi = pi;
  no_si = si;
  last_pi = lp;
  last_si = ls;
  disk = h.disk;
}

pub with_parts-Onward :
    (s : Sys) (cpu : Cpu) (k : KernelState) (t : Timer) (c : Option ℕ)
    → Onward s (with_parts s cpu k t c)
with_parts-Onward s cpu k t c = record { alive = λ a l. l; slots = λ i a e. e }

-- A process that is ready has no request in the queue.
ready_apart :
    (s : Sys) (g : Ghost) (a : ℕ) (p : Process) (x : Option ℕ)
    → Pending x s.io s.heap g.io_res
    → At s.heap a p
    → has_state ProcState.ready p ≡ true
    → x ≢ some a
ready_apart s g a p none d l r e = absurd (some-ne-none a (sym e))
ready_apart s g a p (some c) (_, (q, m, w)) l r e =
    let same = At-unique s.heap c a q p m (some-injective c a e) l in
    cc (w.not_ready, ap (has_state ProcState.ready) same, r)

pub Ready-Apart :
    {g : Ghost} {s : Sys} (a : ℕ) (p : Process)
    → Inv g s
    → At s.heap a p
    → has_state ProcState.ready p ≡ true
    → Apart g a
Ready-Apart {g} {s} a p h l r = ready_apart s g a p g.pending h.queue l r

put-state :
    {g : Ghost} {s : Sys} (a : ℕ) (p q : Process)
    → At s.heap a p
    → Inv g s
    → q.vm ≡ p.vm
    → q.entry ≡ p.entry
    → q.pid ≡ p.pid
    → q.parent_pid ≡ p.parent_pid
    → q.loaded ≡ p.loaded
    → q.context.pi ≡ 0
    → q.context.si ≡ 0
    → Rests g a q
    → Inv g (put s a q)
put-state {g} {s} a p q l h v e i r ld pi si w =
    let k : Same p q = record { pid = i; entry = e; parent = r } in
    let o = h.procs a p l in
    put-Inv a p q l h
      (kept-IsProc o k pi si (subst Valid (sym v) o.machine) (λ f. v ∙ o.owned (sym e ∙ f))) k
      (Loads-same a p q l h i ld) w

-- `saveContext` of the current process.
abbrev pub saved : Sys → Process → Process
saved s p = record p { context = context_of s.machine.cpu; state = ProcState.ready }

pub save-Inv :
    {g : Ghost} {s : Sys} (a : ℕ) (p : Process)
    → At s.heap a p
    → Apart g a
    → Inv g s
    → Inv g (put s a (saved s p))
unfolding context_of
save-Inv {g} {s} a p l n h =
    put-state a p (saved s p) l h refl refl refl refl refl h.no_pi h.no_si
      (Rests-Apart g a (saved s p) n)

Saved-Inv :
    {g : Ghost} (c : Option ℕ) (s s1 : Sys)
    → ((a : ℕ) → c ≡ some a → Apart g a)
    → Saved c s s1
    → Inv g s
    → Inv g s1 × Onward s s1
Saved-Inv {g} none s s1 n e h = (subst (Inv g) (sym e) h, subst (Onward s) (sym e) (Onward-refl s))
Saved-Inv {g} (some a) s s1 n (p, l, e) h = elim (Bool-cases (has_state ProcState.running p)) [
  | inl r ↦
      let e' : s1 ≡ put s a (saved s p) = e ∙ rw r refl in
      (
        subst (Inv g) (sym e') (save-Inv a p l (n a refl) h),
        subst (Onward s) (sym e') (put-Onward s a p (saved s p) l),
      )
  | inr r ↦
      let e' : s1 ≡ s = e ∙ rw r refl in
      (subst (Inv g) (sym e') h, subst (Onward s) (sym e') (Onward-refl s))
]

-- The process that a switch runs.
loaded-Inv :
    {g : Ghost} (s : Sys) (a : ℕ) (p : Process)
    → At s.heap a p
    → has_state ProcState.ready p ≡ true
    → Inv g s
    → Inv g (loaded_state s a p) × Onward s (loaded_state s a p)
unfolding cpu_of
loaded-Inv {g} s a p l r h =
    let q = record p { state = ProcState.running } in
    let n = Ready-Apart a p h l r in
    let x = h.procs a p l in
    let h1 = put-state a p q l h refl refl refl refl refl x.no_pi x.no_si (Rests-Apart g a q n) in
    let live : Alive (put s a q).heap a = (q, At-set s.heap a p q l) in
    let o = put-Onward s a p q l in
    (
      with_parts-Inv (cpu_of p.context) s.kernel s.timer (some a) h1 x.no_pi x.no_si h.last_pi
          h.last_si live (λ b e. subst (Apart g) (some-injective a b e) n),
      record { alive = o.alive; slots = o.slots },
    )

both : (x y : Bool) → (x && y) ≡ true → x ≡ true
both x y e = ground (arith, e)

Loaded-Inv :
    {g : Ghost} (s s2 : Sys) (lo hi : ℕ) (o : Option ℕ)
    → Found (CanRun s.heap s.scheduler.schedule) lo hi o
    → Loaded s o s2
    → Inv g s
    → Inv g s2 × Onward s s2
Loaded-Inv {g} s s2 lo hi none f e h =
    (subst (Inv g) (sym e) h, subst (Onward s) (sym e) (Onward-refl s))
Loaded-Inv {g} s s2 lo hi (some k) (_, _, (b, q, at, m, r), _) (a, p, slot, l, e) h =
    let same = At-unique s.heap b a q p m (some-injective b a (sym at ∙ slot)) l in
    let is_ready =
      ap (has_state ProcState.ready) (sym same) ∙ both (has_state ProcState.ready q) (has_vm q) r in
    let (i, o) = loaded-Inv s a p l is_ready h in
    (subst (Inv g) (sym e) i, subst (Onward s) (sym e) o)

pub context_switch-Yields : {g : Ghost} {s : Sys} → Inv g s → Yields g context_switch s tt
context_switch-Yields {g} {s} h =
    let (s1, s2, o, v, _, f, l, run) =
      context_switch_lem s h.sound.is_table h.sound.current
        (All-Live s.heap s.scheduler.schedule h.sound.slots) in
    let (h1, o1) = Saved-Inv s.scheduler.current s s1 h.resting v h in
    let (h2, o2) = Loaded-Inv s1 s2 s1.scheduler.prio_min s1.scheduler.prio_max o f l h1 in
    (s2, run, h2, Onward-trans o1 o2)
