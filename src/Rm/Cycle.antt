-- ===== src/Rm/Cycle.antt =====
-- The instruction cycle of src/rm/cpu.c: `fetch`, `handleInterrupts`, `execOneCycle`, `execCycle`.
pub mod Termination
pub mod Livelock
pub mod UserMode
use rm_vm.Common.{
  ℕ, zero, suc, ◌+◌, Bool, true, false, Option, none, some, ◌||◌, ◌==◌, leb, if◌then◌else◌, u16,
}
use rm_vm.Rm.State.{
  Instruction, Machine, blank, pi_none, si_none, ti_none, si_halt, si_read, si_write, tick_limit,
  ti_expired, has_pending_interrupt, raise_timer_interrupt,
}
use rm_vm.Rm.Memory.{read}
use rm_vm.Rm.Decode.{decode}
use rm_vm.Rm.Execute.{execute, set_ic, set_si}

-- The word goes through `*word`; the result is false on a fault.
unfoldable pub fetch : Machine → Bool × ℕ × Machine
fetch m =
    let (word, m') = read m m.cpu.ic in
    if m'.cpu.pi == pi_none
    then (true, word, set_ic m' (u16 (m'.cpu.ic + 1)))
    else (false, word, m')

-- `decode`, and `execute` unless it failed.
decode_execute : ℕ → Machine → Bool × Machine
decode_execute word m =
    let (accepted, i, m') = decode word blank m in
    if accepted then (true, execute i m') else (false, m')

-- `execOneCycle`, and the first three statements of the inner loop of `execCycle`.
unfoldable pub exec_one_cycle : Machine → Bool × Machine
unfolding decode_execute
exec_one_cycle m =
    let (fetched, word, m') = fetch m in if fetched then decode_execute word m' else (false, m')

-- `interrupted()`
unfoldable pub interrupted : Machine → Bool
unfolding has_pending_interrupt
interrupted m = has_pending_interrupt m

-- The timer at the end of a round of the inner loop.
unfoldable pub tick : ℕ → Machine → ℕ × Machine
unfolding raise_timer_interrupt
tick ticks m =
    if leb tick_limit (ticks + 1) then (0, raise_timer_interrupt ti_expired m) else (ticks + 1, m)

-- The inner loop, on fuel: `ticks` and the machine when it ends.
unfoldable pub run_until_interrupt : ℕ → ℕ → Machine → Option (ℕ × Machine)
unfolding tick
run_until_interrupt zero ticks m = none
run_until_interrupt (suc fuel) ticks m =
    let (executed, m') = exec_one_cycle m in
    let (ticks', m'') = tick ticks m' in
    let rest = run_until_interrupt fuel ticks' m'' in
    if interrupted m then some (ticks, m) else if executed then rest else some (ticks, m')

clear_si : Machine → Machine
clear_si m = if m.cpu.si == si_read || m.cpu.si == si_write then set_si m si_none else m

clear_pi_ti : Machine → Machine
clear_pi_ti m = record m { cpu = record (m.cpu) { pi = pi_none; ti = ti_none } }

-- `handleInterrupts`: false stops the outer loop.
unfoldable pub handle_interrupts : Machine → Bool × Machine
unfolding clear_si clear_pi_ti
handle_interrupts m = if m.cpu.si == si_halt then (false, m) else (true, clear_pi_ti (clear_si m))

-- `execCycle`, on fuel for the rounds of both loops; `none` when a fuel runs out.
outer : ℕ → ℕ → ℕ → Machine → Option Machine
outer inner_fuel zero ticks m = none
outer inner_fuel (suc fuel) ticks m = elim (run_until_interrupt inner_fuel ticks m) [
  | none ↦ none
  | some (ticks', m') ↦
      let (running, m'') = handle_interrupts m' in
      let rest = outer inner_fuel fuel ticks' m'' in if running then rest else some m''
]

unfoldable pub exec_cycle : ℕ → Machine → Option Machine
unfolding outer
exec_cycle fuel m = outer (tick_limit + 1) fuel 0 m
