-- ===== src/Kernel/Invariant/Visit.antt =====
-- A whole turn of `runRange` of src/kernel/scheduler.c, and the invariant of src/kernel.
use rm_vm.Kernel.Invariant.Turn.{run_process-Left}
use rm_vm.Kernel.Invariant.Units.{release_cpu, request_cpu}
use rm_vm.Kernel.Scheduler.{mark_request}
use rm_vm.Kernel.Context.Switch.{save_context-At}
use rm_vm.Kernel.Context.{save_context}
use rm_vm.Kernel.Invariant.Put.{put}
use rm_vm.Kernel.System.Safe.{CurrentLive}
use rm_vm.Kernel.System.Steps.{goes_on, At-set, At}
use rm_vm.Kernel.Invariant.Parts.{with_parts-Inv, Ready-Apart, save-Inv, saved, with_parts}
use rm_vm.Kernel.Resource.{Resource}
use rm_vm.Kernel.Process.{ProcState, has_state, has_vm, Process}
use rm_vm.Kernel.Invariant.{quiet, Inv, Ghost}
use rm_vm.Kernel.Cycle.{clear_running, take_turn, save_other}
use rm_vm.Common.{
  ℕ, ◌≡◌, refl, sym, ap, ◌∙◌, ◌≢◌, inl, inr, true, ◌&&◌, Option, none, some, List, arith, ◌==◌,
  if◌then◌else◌, Bool-cases, get_or, get_or-set_ne,
}
use rm_vm.Kernel.System.{modify, pure, KernelState, when, Sys, M}

-- A run between two turns.
abbrev pub Quiets : Sys → Type 0
Quiets s = (r : Resource) × (x : Option ℕ) × (l : List ℕ) × Inv (quiet r x l) s

abbrev pub RestsAfter : M (Unit {0}) → Sys → Type 0
RestsAfter m s = (s' : Sys) × (m s ≡ some (tt, s')) × Quiets s'

abbrev saving : ℕ → Option ℕ → M (Unit {0})
saving a c = elim c [ none ↦ pure tt | some c ↦ if c == a then pure tt else save_context c ]

-- What `save_other` leaves: process `a` as it was.
abbrev Saves : Ghost → ℕ → Process → Sys → Type 0
Saves g a p s =
    (s' : Sys) × (save_other a s ≡ some (tt, s'))
    × Inv g s'
    × At s'.heap a p
    × (s'.scheduler ≡ s.scheduler)

save_other-Saves :
    (g : Ghost) (s : Sys) (a : ℕ) (p : Process) (c : Option ℕ)
    → Inv g s
    → At s.heap a p
    → s.scheduler.current ≡ c
    → CurrentLive c s.heap
    → Saves g a p s
unfolding save_other
save_other-Saves g s a p none h at e v = (s, rw e refl, h, at, refl)
save_other-Saves g s a p (some c) h at e (q, m) = elim (Bool-cases (c == a)) [
  | inl f ↦ (
    s,
    ap (λ c. saving a c s) e ∙ ap (λ b. (if b then pure tt else save_context c) s) f,
    h,
    at,
    refl,
  )
  | inr f ↦
      let ne : c ≢ a = λ eq. ground (arith, f, eq) in
      (
        put s c (saved s q),
        ap (λ c. saving a c s) e
            ∙ ap (λ b. (if b then pure tt else save_context c) s) f
            ∙ save_context-At s c q m,
        save-Inv c q m (h.resting c e) h,
        get_or-set_ne s.heap c a (some (saved s q)) none ne ∙ at,
        refl,
      )
]

-- The bookkeeping of a turn for a process that may have a machine.
abbrev note : ℕ → Process → M (Unit {0})
note a p = when (true && has_vm p) (
    modify
      (λ s. record s { kernel = record (s.kernel) { last_vm = some a; last_trap_pid = p.pid } }))

notes :
    (s : Sys) (a : ℕ) (p : Process)
    → (k : KernelState) × (note a p s ≡ some (tt, record s { kernel = k }))
      × (k.last_pi ≡ s.kernel.last_pi)
      × (k.last_si ≡ s.kernel.last_si)
notes s a p = elim (Bool-cases (has_vm p)) [
  | inl e ↦ (record (s.kernel) { last_vm = some a; last_trap_pid = p.pid }, rw e refl, refl, refl)
  | inr e ↦ (s.kernel, rw e refl, refl, refl)
]

abbrev cleared : Sys → ℕ → Sys
cleared s a = record s {
  kernel = record (s.kernel) {
    running = elim s.kernel.running [ none ↦ none | some c ↦ if c == a then none else some c ];
  };
}

-- A turn of a process that is ready.
pub take_turn-Rests :
    (r : Resource) (x : Option ℕ) (l : List ℕ) (s : Sys) (a i : ℕ) (p : Process)
    → Inv (quiet r x l) s
    → At s.heap a p
    → has_state ProcState.ready p ≡ true
    → get_or s.scheduler.schedule i none ≡ some a
    → RestsAfter (take_turn true a p) s
unfolding take_turn clear_running
take_turn-Rests r x l s a i p h at rd slot =
    let n = Ready-Apart a p h at rd in
    let (s1, e1, h1, at1, sch) =
      save_other-Saves (quiet r x l) s a p s.scheduler.current h at refl h.sound.current in
    let slot1 : get_or s1.scheduler.schedule i none ≡ some a =
      ap (λ t. get_or t.schedule i none) sch ∙ slot in
    let s2 : Sys = record s1 {
      scheduler = record (s1.scheduler) { current = some a };
      kernel = record (s1.kernel) { running = some a };
    } in
    let (k, e2, kp, ks) = notes s2 a p in
    let h2 =
      with_parts-Inv s1.machine.cpu k s1.timer (some a) h1 h1.no_pi h1.no_si (kp ∙ h1.last_pi)
        (ks ∙ h1.last_si) (p, at1) (λ b e f. n (f ∙ sym e)) in
    let s3 = with_parts s1 s1.machine.cpu k s1.timer (some a) in
    let p4 = mark_request 3 true p in
    let (rm, e4, h4) = request_cpu a p h2 at1 n (omega arith) in
    let s4 : Sys = record (put s3 a p4) { resources = rm } in
    let (r', x', l', s5, e5, h5) =
      run_process-Left r x l s4 a i p4 h4 (At-set s3.heap a p p4 at1) n refl slot1 p refl refl in
    let (rm6, e6, h6) = release_cpu h5 in
    let s6 : Sys = record s5 { resources = rm6 } in
    let c = (cleared s6 a).kernel in
    let h7 =
      with_parts-Inv s6.machine.cpu c s6.timer s6.scheduler.current h6 h6.no_pi h6.no_si h6.last_pi
        h6.last_si h6.sound.current h6.resting in
    (
      cleared s6 a,
      goes_on _ e1 ∙ goes_on _ e2 ∙ goes_on _ e4 ∙ goes_on _ (goes_on _ e5 ∙ goes_on _ e6),
      (r', x', l', h7),
    )
