-- ===== src/Kernel/Interrupts/Order.antt =====
-- `kernelHandleInterrupts` of src/kernel/kernel.c: which cause it handles, and what it returns.
use rm_vm.Rm.Timer.{Timer, check_timer_interrupt}
use rm_vm.Common.{
  ℕ, ◌≡◌, refl, ◌∙◌, ◌⊎◌, inl, inr, Bool, true, false, not, ◌&&◌, ◌||◌, Option, none, some, ◌==◌,
  if◌then◌else◌, Bool-cases,
}
use rm_vm.Rm.State.{
  raise_timer_interrupt, si_sys, si_write, si_read, si_halt, Cpu, pi_none, si_none, ti_none,
  ti_expired,
}
use rm_vm.Kernel.Process.{has_type, ProcType}
use rm_vm.Kernel.System.{Sys, KernelState, M}
use rm_vm.Kernel.System.Steps.{load-At, goes_on}
use rm_vm.Kernel.System.Safe.{CurrentLive}
use rm_vm.Kernel.Context.{context_switch}
use rm_vm.Kernel.Interrupts.{
  note_current, sync_timer, handle_causes, kernel_handle_interrupts, handle_timer,
}
use rm_vm.Kernel.Scheduler.Sound.{Sound}
use rm_vm.Kernel.Interrupts.Causes.{
  handle_program-Ended, handle_halt-Ended, handle_io-Ended, handle_timer-Ended,
  handle_timer-switches,
}

-- The latches of a request to the kernel.
abbrev pub asks_io : Cpu → Bool
asks_io c = (c.si == si_read) || (c.si == si_write) || (c.si == si_sys)

-- The value that is returned, and the processor with the latch of the one cause cleared that is handled:
-- a program interrupt before a system interrupt, and that before the timer's.
pub returned : Cpu → ℕ
returned c = if not (c.pi == pi_none) || (c.si == si_halt) then 0 else 1

pub acknowledged : Cpu → Cpu
acknowledged c =
    if not (c.pi == pi_none)
    then record c { pi = pi_none }
    else if (c.si == si_halt) || asks_io c
    then record c { si = si_none }
    else record c { ti = ti_none }

-- The timer's interrupt is handled and due.
pub switches : Cpu → Bool
switches c =
    not (not (c.pi == pi_none)) && not ((c.si == si_halt) || asks_io c) && (c.ti == ti_expired)

-- What handling the causes of `c` gives: a sound state, with the acknowledged processor, or the one after
-- a context switch that starts with it.
abbrev pub Handled : Cpu → M ℕ → Sys → Type 0
Handled c m s =
    (s' : Sys) × (m s ≡ some (returned c, s'))
    × Sound s'
    × (((switches c ≡ false) × (s'.machine.cpu ≡ acknowledged c))
        ⊎ ((switches c ≡ true)
            × (s0 : Sys) × (s0.machine.cpu ≡ acknowledged c)
            × (context_switch s0 ≡ some (tt, s'))))

-- The last part, with no program interrupt and no system interrupt that is handled.
timer-Handled :
    (s : Sys)
    → Sound s
    → (s.machine.cpu.pi == pi_none) ≡ true
    → (s.machine.cpu.si == si_halt) ≡ false
    → asks_io s.machine.cpu ≡ false
    → Handled s.machine.cpu handle_timer s
unfolding returned acknowledged switches
timer-Handled s h p q r = elim (Bool-cases (s.machine.cpu.ti == ti_expired)) [
  | inl due ↦
      let (s', run, e, o) = handle_timer-switches s h due in
      (s', rw (p, q) e, o, inr (rw (p, q, r, due) refl, _, rw (p, q, r) refl, run))
  | inr early ↦
      let (s', e, c, o) = handle_timer-Ended s h early in
      (s', rw (p, q) e, o, inl (rw (p, q, r, early) refl, rw (p, q, r) c))
]

-- Other bookkeeping does not matter.
with_kernel-Sound : (s : Sys) (k : KernelState) → Sound s → Sound (record s { kernel = k })
with_kernel-Sound s k h = record { is_table = h.is_table; slots = h.slots; current = h.current }

handle_causes-Handled :
    (cur : Option ℕ) (b : Bool) (s : Sys)
    → CurrentLive cur s.heap
    → Sound s
    → Handled s.machine.cpu (handle_causes cur b) s
unfolding handle_causes returned acknowledged switches
handle_causes-Handled cur b s l h =
    let c = s.machine.cpu in
    elim (Bool-cases (c.pi == pi_none)) [
      | inr p ↦
          let (s', e, k, o) = handle_program-Ended b s h in
          (s', rw (p, handle_causes) e, o, inl (rw p refl, rw p k))
      | inl p ↦ elim (Bool-cases (c.si == si_halt)) [
        | inl q ↦
            let (s', e, k, o) = handle_halt-Ended b s h in
            (s', rw (p, q, handle_causes) e, o, inl (rw (p, q) refl, rw (p, q) k))
        | inr q ↦ elim (Bool-cases (asks_io c)) [
          | inl r ↦
              let (s', e, k, o) = handle_io-Ended cur b s l h in
              (s', rw (p, q, r, handle_causes) e, o, inl (rw (p, q, r) refl, rw (p, q, r) k))
          | inr r ↦ elim (Bool-cases (c.si == si_none)) [
            | inl z ↦
                let (s', e, o, k) =
                  timer-Handled (record s { kernel = record (s.kernel) { last_si = si_none } })
                    (with_kernel-Sound s (record (s.kernel) { last_si = si_none }) h) p q r in
                (s', rw (p, q, r, z, handle_causes) refl ∙ e, o, k)
            | inr z ↦
                let (s', e, o, k) = timer-Handled s h p q r in
                (s', rw (p, q, r, z, handle_causes) refl ∙ e, o, k)
          ]
        ]
      ]
    ]

-- The processor once the timer's latch is in it.
pub synced : Sys → Cpu
synced s =
    if s.timer.interrupt_flag then record (s.machine.cpu) { ti = ti_expired } else s.machine.cpu

note_current-ends :
    (cur : Option ℕ) (s : Sys)
    → CurrentLive cur s.heap
    → (b : Bool) × (k : KernelState) × (note_current cur s ≡ some (b, record s { kernel = k }))
unfolding note_current
note_current-ends none s l = (false, s.kernel, refl)
note_current-ends (some a) s (p, l) = (
  not (has_type ProcType.interrupt_handler p),
  record (s.kernel) { last_trap_pid = p.pid },
  goes_on _ (load-At a s p l),
)

sync_timer-ends :
    (s : Sys)
    → (t : Timer) × (sync_timer s
        ≡ some (tt, record s { timer = t; machine = record (s.machine) { cpu = synced s } }))
unfolding sync_timer synced check_timer_interrupt raise_timer_interrupt
sync_timer-ends s = elim (Bool-cases s.timer.interrupt_flag) [
  | inl e ↦ (record (s.timer) { interrupt_flag = false }, rw e refl)
  | inr e ↦ (s.timer, rw e refl)
]

-- `kernelHandleInterrupts` where the table and the current process are live: it ends, with 0 for a program
-- interrupt and for a HALT and with 1 otherwise. It clears the latch of one cause alone: the program
-- interrupt if there is one, else a system interrupt, else the timer's, into which the timer's flag has
-- gone before; where that is handled and due, a context switch follows. Afterwards the table and the
-- current process are live again.
pub kernel_handle_interrupts-Handled :
    (s : Sys) → Sound s → Handled (synced s) kernel_handle_interrupts s
unfolding kernel_handle_interrupts synced
kernel_handle_interrupts-Handled s h =
    let (b, k, e1) = note_current-ends s.scheduler.current s h.current in
    let s1 = record s { kernel = k } in
    let (t, e2) = sync_timer-ends s1 in
    let s2 = record s1 { timer = t; machine = record (s1.machine) { cpu = synced s1 } } in
    let (s', e3, o, r) =
      handle_causes-Handled s.scheduler.current b s2 h.current
        (record { is_table = h.is_table; slots = h.slots; current = h.current }) in
    (s', goes_on _ e1 ∙ goes_on _ e2 ∙ e3, o, r)
