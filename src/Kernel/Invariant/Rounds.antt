-- ===== src/Kernel/Invariant/Rounds.antt =====
-- `runRange` and `runCycle` of src/kernel/scheduler.c, and the invariant of src/kernel.
use rm_vm.Kernel.Invariant.Fills.{slot-Alive}
use rm_vm.Kernel.Invariant.Frame.{with_table-Inv}
use rm_vm.Kernel.Process.{ProcState, has_state}
use rm_vm.Kernel.System.Steps.{load-At, goes_on}
use rm_vm.Kernel.Invariant.Visit.{take_turn-Rests, RestsAfter, Quiets}
use rm_vm.Kernel.Invariant.{quiet, Inv, Ghost}
use rm_vm.Kernel.Cycle.{take_turn, run_range, run_cycle, visit, visit_all}
use rm_vm.Common.{
  ℕ, zero, suc, ◌+◌, ◌-◌, refl, ap, ◌∙◌, inl, inr, true, Option, none, some, ltb, leb,
  if◌then◌else◌, Bool-cases, Option-cases, get_or, u16,
}
use rm_vm.Kernel.System.{when, load, pure, M, Sys, ◌>>=◌}

abbrev TurnsAt : Sys → ℕ → ℕ → Type 0
TurnsAt s n i = RestsAfter (visit_all (take_turn true) n i) s

-- What a turn does with a slot.
abbrev at_slot : Option ℕ → M (Unit {0})
at_slot o = elim o [
  | none ↦ pure tt
  | some a ↦ do p ← load a; when (has_state ProcState.ready p) (take_turn true a p)
]

visit-Rests : (s : Sys) (i : ℕ) → Quiets s → RestsAfter (visit (take_turn true) i) s
unfolding visit
visit-Rests s i (r, x, l, h) = elim (Option-cases (get_or s.scheduler.schedule i none)) [
  | inl e ↦ (s, ap (λ o. at_slot o s) e, (r, x, l, h))
  | inr (a, e) ↦
      let (p, at) = slot-Alive s.heap s.scheduler.schedule i a h.sound.slots e in
      let load_it = ap (λ o. at_slot o s) e ∙ goes_on _ (load-At a s p at) in
      elim (Bool-cases (has_state ProcState.ready p)) [
        | inl t ↦
            let (s', f, q) = take_turn-Rests r x l s a i p h at t e in
            (s', load_it ∙ ap (λ b. when b (take_turn true a p) s) t ∙ f, q)
        | inr t ↦ (s, load_it ∙ ap (λ b. when b (take_turn true a p) s) t, (r, x, l, h))
      ]
]

visit_all-Rests : (n i : ℕ) (s : Sys) → Quiets s → TurnsAt s n i
unfolding visit_all
visit_all-Rests zero i s q = (s, refl, q)
visit_all-Rests (suc n) i s q =
    let (s1, e1, q1) = visit-Rests s i q in
    let (s2, e2, q2) = visit_all-Rests n (i - 1) s1 q1 in (s2, goes_on _ e1 ∙ e2, q2)

run_range-Rests : (hi lo : ℕ) (s : Sys) → Quiets s → RestsAfter (run_range true hi lo) s
unfolding run_range
run_range-Rests hi lo s q =
    let hi' = if leb 100 hi then 99 else hi in visit_all-Rests (hi' + 1 - lo) hi' s q

-- The count of the cycles does not matter.
cycled-Inv :
    (g : Ghost) (s : Sys) (c : ℕ)
    → Inv g s
    → Inv g (record s { scheduler = record (s.scheduler) { cycle = c } })
cycled-Inv g s c h =
    let t = h.sound.is_table in
    with_table-Inv s.scheduler.schedule c h
      (record {
        is_table = record {
          size = t.size;
          top_low = t.top_low;
          top_high = t.top_high;
          bottom = t.bottom;
          ordered = t.ordered;
          window = t.window;
        };
        slots = h.sound.slots;
        current = h.sound.current;
      })
      h.unique

-- `runCycle` from a state between two turns.
pub run_cycle-Rests : (s : Sys) → Quiets s → RestsAfter (run_cycle true) s
unfolding run_cycle
run_cycle-Rests s q =
    let (s1, e1, q1) = run_range-Rests 99 80 s q in
    let (s2, e2, (r, x, l, h)) = run_range-Rests 79 0 s1 q1 in
    let c = u16 (s2.scheduler.cycle + 1) in
    let c' = if ltb 2 c then 0 else c in
    (
      record s2 { scheduler = record (s2.scheduler) { cycle = c' } },
      goes_on _ e1 ∙ goes_on _ e2,
      (r, x, l, cycled-Inv (quiet r x l) s2 c' h),
    )
