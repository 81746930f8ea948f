-- ===== src/Rm/Timer.antt =====
-- src/rm/timer.c
pub mod Period
use rm_vm.Common.{ℕ, ◌+◌, Bool, true, false, leb, if◌then◌else◌, u16}

-- `Timer`; its two flags are `uint8_t` used as truth values.
pub record Timer : Type 0 where
  pub counter : ℕ
  pub limit : ℕ
  pub active : Bool
  pub interrupt_flag : Bool

unfoldable pub init_timer : ℕ → Timer
init_timer limit = record { counter = 0; limit = limit; active = true; interrupt_flag = false }

unfoldable pub tick_timer : Timer → Timer
tick_timer t =
    if t.active
    then (let c = u16 (t.counter + 1) in
        if leb t.limit c
        then record t { counter = 0; interrupt_flag = true }
        else record t { counter = c })
    else t

unfoldable pub check_timer_interrupt : Timer → Bool × Timer
check_timer_interrupt t =
    if t.interrupt_flag then (true, record t { interrupt_flag = false }) else (false, t)

unfoldable pub reset_timer : Timer → Timer
reset_timer t = record t { counter = 0; interrupt_flag = false }
