-- ===== src/Rm/Cycle/Livelock.antt =====
-- `handleInterrupts` of src/rm/cpu.c, and when `execCycle` never stops.
use rm_vm.Rm.Cycle.Termination.{run_interrupted}
use rm_vm.Rm.Cycle.{run_until_interrupt, exec_cycle, interrupted, handle_interrupts, outer}
use rm_vm.Common.{
  ℕ, zero, suc, ◌+◌, ◌≡◌, refl, ap, ◌∙◌, true, not, Option, none, some, arith, leb, ◌==◌,
  if◌then◌else◌,
}
use rm_vm.Rm.State.{has_pending_interrupt, si_none, Machine, tick_limit, si_halt, si_sys}

-- `handleInterrupts` stops the loop for `SI_HALT` alone, and then clears nothing. Otherwise it clears the
-- program and the timer interrupt, and the system interrupt if it is READ or WRITE: `SI_SYS` stays
-- latched. It touches no register, no memory cell and neither the mode nor the instruction counter.
pub handle_interrupts_lem :
    (m : Machine)
    → let (running, m') = handle_interrupts m in
      (running ≡ not (m.cpu.si == si_halt))
      × (m'.cpu.si ≡ (if leb si_halt m.cpu.si then m.cpu.si else si_none))
      × (m'.cpu.mode ≡ m.cpu.mode)
      × (m'.mem ≡ m.mem)
      × (m'.cpu.r ≡ m.cpu.r)
      × (m'.cpu.ic ≡ m.cpu.ic)
      × (m'.cpu.pi ≡ (if m.cpu.si == si_halt then m.cpu.pi else 0))
      × (m'.cpu.ti ≡ (if m.cpu.si == si_halt then m.cpu.ti else 0))
unfolding handle_interrupts
handle_interrupts_lem m = ground arith

interrupted_of_sys : (m : Machine) → m.cpu.si ≡ si_sys → interrupted m ≡ true
unfolding interrupted has_pending_interrupt
interrupted_of_sys m h = ground arith

outer_sys : (fuel t : ℕ) (m : Machine) → m.cpu.si ≡ si_sys → outer (tick_limit + 1) fuel t m ≡ none
unfolding outer
outer_sys zero t m h = refl
outer_sys (suc fuel) t m h =
    let ran = run_interrupted (tick_limit + 1) t (interrupted_of_sys m h) (omega arith) in
    rw (ran, outer)
      (ground (arith, handle_interrupts_lem m, outer_sys fuel t (handle_interrupts m).1))

-- `n` rounds of the outer loop that `handleInterrupts` does not stop: the inner loop, from a count of the
-- instructions since the last tick, and the handler.
abbrev pub rounds : ℕ → ℕ → Machine → Option (ℕ × Machine)
rounds zero ticks m = some (ticks, m)
rounds (suc n) ticks m = elim (run_until_interrupt (tick_limit + 1) ticks m) [
  | none ↦ none
  | some (ticks', m') ↦
      let (running, m'') = handle_interrupts m' in
      let rest = rounds n ticks' m'' in if running then rest else none
]

-- The machine without its program and its timer interrupt.
abbrev pub cleared : Machine → Machine
cleared m = record m { cpu = record (m.cpu) { pi = 0; ti = 0 } }

handle_sys : (m : Machine) → m.cpu.si ≡ si_sys → handle_interrupts m ≡ (true, cleared m)
unfolding handle_interrupts
handle_sys m h = rw h refl

-- The machine after `n` rounds of its loop with `SI_SYS` latched.
abbrev pub settled : ℕ → Machine → Machine
settled zero m = m
settled (suc n) m = cleared m

settled-cleared : (n : ℕ) (m : Machine) → settled n (cleared m) ≡ cleared m
settled-cleared zero m = refl
settled-cleared (suc n) m = refl

rounds_sys : (n t : ℕ) (m : Machine) → m.cpu.si ≡ si_sys → rounds n t m ≡ some (t, settled n m)
rounds_sys zero t m h = refl
rounds_sys (suc n) t m h =
    ap
      (λ o. elim o [
        | none ↦ none
        | some (t', m') ↦
            let (running, m'') = handle_interrupts m' in
            let rest = rounds n t' m'' in if running then rest else none
      ])
      (run_interrupted (tick_limit + 1) t (interrupted_of_sys m h) (omega arith))
    ∙ ap (λ x. if x.0 then rounds n t x.1 else none) (handle_sys m h)
    ∙ rounds_sys n t (cleared m) h
    ∙ ap (λ m'. some (t, m')) (settled-cleared n m)

-- Once `SI_SYS` is latched `execCycle` does not return, whatever its fuel. Any number of rounds of its loop
-- runs, and no instruction is executed in them: the count of the timer, which every instruction moves on,
-- stays, and of the whole machine only the program and the timer interrupt are cleared, so that `SI_SYS` is
-- latched still.
pub exec_cycle_sys_livelock :
    (fuel n : ℕ) (m : Machine)
    → m.cpu.si ≡ si_sys
    → (exec_cycle fuel m ≡ none) × (rounds n 0 m ≡ some (0, settled n m))
unfolding exec_cycle
exec_cycle_sys_livelock fuel n m h = (outer_sys fuel 0 m h, rounds_sys n 0 m h)
