-- ===== src/Kernel/Interrupts.antt =====
-- src/kernel/kernel.c: `kernelHandleInterrupts` and `kernelStep`; src/kernel/interruptHandler.c. The
-- log lines are left out.
pub mod Causes
pub mod Order
use rm_vm.Common.{
  ℕ, Bool, true, false, not, ◌&&◌, ◌||◌, Option, none, some, ◌==◌, if◌then◌else◌, get_or, u8,
}
use rm_vm.Rm.State.{
  Cpu, pi_none, si_none, si_read, si_write, si_halt, si_sys, ti_none, ti_expired,
  raise_timer_interrupt,
}
use rm_vm.Rm.Timer.{tick_timer, check_timer_interrupt}
use rm_vm.Kernel.Process.{ProcState, ProcType, EntryResult, has_state, has_type, has_vm}
use rm_vm.Kernel.System.{
  KernelState, M, pure, ◌>>=◌, ◌>>◌, gets, modify, when, load, update, set_state,
}
use rm_vm.Kernel.Scheduler.{
  block_current, wake_process_by_type, find_process_by_pid, request, release,
}
use rm_vm.Kernel.Context.{context_switch}
use rm_vm.Kernel.IoHandler.{enqueue_io_request}

abbrev pub set_cpu : (Cpu → Cpu) → M (Unit {0})
set_cpu f = modify (λ s. record s { machine = record (s.machine) { cpu = f s.machine.cpu } })

abbrev pub set_kernel : (KernelState → KernelState) → M (Unit {0})
set_kernel f = modify (λ s. record s { kernel = f s.kernel })

-- `canBlock`, with the pid of the current process noted.
unfoldable pub note_current : Option ℕ → M Bool
note_current none = pure false
note_current (some a) = do
  p ← load a
  set_kernel (λ k. record k { last_trap_pid = p.pid })
  pure (not (has_type ProcType.interrupt_handler p))

unfoldable pub sync_timer : M (Unit {0})
sync_timer = do
  fired ← gets (λ s. check_timer_interrupt s.timer)
  modify (λ s. record s { timer = fired.1 })
  when fired.0 (modify (λ s. record s { machine = raise_timer_interrupt ti_expired s.machine }))

unfoldable pub handle_program : Bool → M ℕ
handle_program can_block = do
  code ← gets (λ s. s.machine.cpu.pi)
  set_kernel (λ k. record k { last_pi = code })
  set_cpu (λ c. record c { pi = pi_none })
  when can_block block_current
  pure 0

unfoldable pub handle_halt : Bool → M ℕ
handle_halt can_block = do
  code ← gets (λ s. s.machine.cpu.si)
  set_kernel (λ k. record k { last_si = code })
  set_cpu (λ c. record c { si = si_none })
  when can_block block_current
  pure 0

-- The request of the case of `SI_READ`, `SI_WRITE` and `SI_SYS`, for the current process.
abbrev pub charge : Option ℕ → Cpu → Bool → M (Unit {0})
charge none cpu can_block = pure tt
charge (some a) cpu can_block = do
  _ ← enqueue_io_request a cpu.si (get_or cpu.r 0 0) (get_or cpu.r 1 0) (get_or cpu.r 2 0)
  p ← load a
  when (can_block && not (has_state ProcState.susp_blocked p)) block_current
  wake_process_by_type ProcType.io_handler

-- The case of `SI_READ`, `SI_WRITE` and `SI_SYS`.
unfoldable pub handle_io : Option ℕ → Bool → M ℕ
handle_io cur can_block = do
  cpu ← gets (λ s. s.machine.cpu)
  set_kernel (λ k. record k { last_si = cpu.si })
  set_cpu (λ c. record c { si = si_none })
  charge cur cpu can_block
  pure 1

-- The `switch` on `cpu->TI`.
unfoldable pub handle_timer : M ℕ
handle_timer = do
  code ← gets (λ s. s.machine.cpu.ti)
  set_kernel (λ k. record k { last_ti = code })
  set_cpu (λ c. record c { ti = ti_none })
  when (code == ti_expired) context_switch
  pure 1

-- From the test of `cpu->PI` on.
unfoldable pub handle_causes : Option ℕ → Bool → M ℕ
handle_causes cur can_block s =
    let cpu = s.machine.cpu in
    if not (cpu.pi == pi_none)
    then handle_program can_block s
    else if cpu.si == si_halt
    then handle_halt can_block s
    else if (cpu.si == si_read) || (cpu.si == si_write) || (cpu.si == si_sys)
    then handle_io cur can_block s
    else if cpu.si == si_none
    then handle_timer (record s { kernel = record (s.kernel) { last_si = si_none } })
    else handle_timer s

-- `kernelHandleInterrupts`; the pointers to the processor, the scheduler and the timer are not null.
unfoldable pub kernel_handle_interrupts : M ℕ
kernel_handle_interrupts = do
  cur ← gets (λ s. s.scheduler.current)
  can_block ← note_current cur
  sync_timer
  handle_causes cur can_block

unfoldable pub kernel_step : M ℕ
kernel_step = do modify (λ s. record s { timer = tick_timer s.timer }); pure 1

-- What `interruptHandlerEntry` does to a process whose Virtual Machine has ended: the machine goes, and
-- the parent is ready.
unfoldable pub retire : ℕ → M (Unit {0})
retire a = do
  p ← load a
  update a (λ p. record p { vm = none; loaded = 3; state = ProcState.ready })
  parent ← if p.parent_pid == 0 then pure none else find_process_by_pid p.parent_pid
  elim parent [ none ↦ pure tt | some q ↦ set_state q ProcState.ready ]

-- `vmOwner`
unfoldable pub vm_owner : M (Option ℕ)
vm_owner = do
  k ← gets (λ s. s.kernel)
  elim k.last_vm [
    | some a ↦ pure (some a)
    | none ↦ if k.last_trap_pid == 0 then pure none else find_process_by_pid (u8 k.last_trap_pid)
  ]

-- The reaction to a program interrupt.
unfoldable pub retire_failed : Option ℕ → M (Unit {0})
retire_failed none = pure tt
retire_failed (some a) = do p ← load a; when (has_vm p) (retire a)

-- The reactions of `interruptHandlerEntry` to the causes that were noted.
unfoldable pub react : KernelState → Option ℕ → M (Unit {0})
react k owner = do
  when ((k.last_si == si_read) || (k.last_si == si_write))
      (wake_process_by_type ProcType.io_handler)
  when (k.last_si == si_halt) (elim owner [ none ↦ pure tt | some a ↦ retire a ])
  when (not (k.last_pi == pi_none))
      (wake_process_by_type ProcType.job_governor >>= λ _. retire_failed owner)

-- `interruptHandlerEntry` for a kernel and a scheduler that are not null.
unfoldable pub interrupt_handler_entry : M EntryResult
interrupt_handler_entry = do
  current ← gets (λ s. s.scheduler.current)
  tmr_held ← request 4 current
  _ ← kernel_handle_interrupts
  k ← gets (λ s. s.kernel)
  owner ← vm_owner
  react k owner
  set_kernel (λ k. record k { last_pi = 0; last_si = 0; last_ti = 0 })
  when tmr_held (release 4 true >>= λ _. pure tt)
  pure EntryResult.keeps
