-- ===== src/Kernel/Interrupts/Causes.antt =====
-- The handlers of the causes in `kernelHandleInterrupts` of src/kernel/kernel.c, each on a sound state.
use rm_vm.Common.{
  ℕ, ◌≡◌, refl, ap, ◌∙◌, Bool, true, false, not, ◌&&◌, Option, none, some, ◌==◌, get_or,
}
use rm_vm.Rm.State.{Cpu, pi_none, si_none, ti_none, ti_expired}
use rm_vm.Kernel.Process.{ProcType, ProcState, has_state}
use rm_vm.Kernel.System.{Sys, KernelState, M, when}
use rm_vm.Kernel.System.Steps.{load-At, goes_on}
use rm_vm.Kernel.System.Safe.{
  CurrentLive, Step-trans, Runs, Runs->>=, Runs-pure, LiveTable, Step-LiveTable,
}
use rm_vm.Kernel.Scheduler.{block_current}
use rm_vm.Kernel.Scheduler.Safe.{block_current-Runs, wake_process_by_type-Runs}
use rm_vm.Kernel.Context.{context_switch}
use rm_vm.Kernel.Scheduler.Sound.{Sound, Step-Sound}
use rm_vm.Kernel.Context.Sound.{context_switch-Sound}
use rm_vm.Kernel.Context.Pick.{All-Live}
use rm_vm.Kernel.Context.Switch.{context_switch_lem}
use rm_vm.Kernel.IoHandler.{enqueue_io_request}
use rm_vm.Kernel.IoHandler.Safe.{enqueue_io_request-Runs}
use rm_vm.Kernel.Interrupts.{handle_program, handle_halt, charge, handle_io, handle_timer}

when_blocks :
    (b : Bool) (s : Sys) → CurrentLive s.scheduler.current s.heap → Runs (when b block_current) s
when_blocks true s c = block_current-Runs s c
when_blocks false s c = Runs-pure tt s

charge-Runs :
    (cur : Option ℕ) (cpu : Cpu) (b : Bool) (s : Sys)
    → CurrentLive cur s.heap
    → CurrentLive s.scheduler.current s.heap
    → LiveTable s
    → Runs (charge cur cpu b) s
charge-Runs none cpu b s l c t = Runs-pure tt s
charge-Runs (some a) cpu b s l c t =
    Runs->>= (enqueue_io_request a cpu.si (get_or cpu.r 0 0) (get_or cpu.r 1 0) (get_or cpu.r 2 0))
      _ s
      (enqueue_io_request-Runs a cpu.si (get_or cpu.r 0 0) (get_or cpu.r 1 0) (get_or cpu.r 2 0) s l
        t)
      (λ queued s1 h1.
        let (p, m) = h1.alive a l in
        let (u, s2, e2, h2) =
          when_blocks (b && not (has_state ProcState.susp_blocked p)) s1 (h1.current c) in
        let (v, s3, e3, h3) =
          wake_process_by_type-Runs ProcType.io_handler s2
            (Step-LiveTable s1 s2 h2 (Step-LiveTable s s1 h1 t)) in
        (v, s3, goes_on _ (load-At a s1 p m) ∙ goes_on _ e2 ∙ e3, Step-trans h2 h3))

-- A value for the processor, and the state with it and with other bookkeeping.
abbrev pub with_cpu : Sys → KernelState → Cpu → Sys
with_cpu s k c = record s { kernel = k; machine = record (s.machine) { cpu = c } }

pub with_cpu-Sound : (s : Sys) (k : KernelState) (c : Cpu) → Sound s → Sound (with_cpu s k c)
with_cpu-Sound s k c h = record { is_table = h.is_table; slots = h.slots; current = h.current }

-- What came of a handler: what it returned, and a sound state with the processor after it.
abbrev pub Ended : M ℕ → Sys → ℕ → Cpu → Type 0
Ended m s rc c = (s' : Sys) × (m s ≡ some (rc, s')) × (s'.machine.cpu ≡ c) × Sound s'

-- After a run from such a state.
run-Ended :
    {A : Type 0} (m : M A) (s : Sys) (k : KernelState) (c : Cpu)
    → Sound s
    → Runs m (with_cpu s k c)
    → (a : A) × (s' : Sys) × (m (with_cpu s k c) ≡ some (a, s')) × (s'.machine.cpu ≡ c) × Sound s'
run-Ended m s k c h (a, s', e, w) =
    (a, s', e, ap (λ m. m.cpu) w.machine, Step-Sound (with_cpu s k c) s' w (with_cpu-Sound s k c h))

pub handle_program-Ended :
    (b : Bool) (s : Sys)
    → Sound s
    → Ended (handle_program b) s 0 (record (s.machine.cpu) { pi = pi_none })
unfolding handle_program
handle_program-Ended b s h =
    let cpu = s.machine.cpu in
    let k = record (s.kernel) { last_pi = cpu.pi } in
    let c = record cpu { pi = pi_none } in
    let (u, s', e, p, o) =
      run-Ended (when b block_current) s k c h (when_blocks b (with_cpu s k c) h.current) in
    (s', goes_on _ e, p, o)

pub handle_halt-Ended :
    (b : Bool) (s : Sys)
    → Sound s
    → Ended (handle_halt b) s 0 (record (s.machine.cpu) { si = si_none })
unfolding handle_halt
handle_halt-Ended b s h =
    let cpu = s.machine.cpu in
    let k = record (s.kernel) { last_si = cpu.si } in
    let c = record cpu { si = si_none } in
    let (u, s', e, p, o) =
      run-Ended (when b block_current) s k c h (when_blocks b (with_cpu s k c) h.current) in
    (s', goes_on _ e, p, o)

pub handle_io-Ended :
    (cur : Option ℕ) (b : Bool) (s : Sys)
    → CurrentLive cur s.heap
    → Sound s
    → Ended (handle_io cur b) s 1 (record (s.machine.cpu) { si = si_none })
unfolding handle_io
handle_io-Ended cur b s l h =
    let cpu = s.machine.cpu in
    let k = record (s.kernel) { last_si = cpu.si } in
    let c = record cpu { si = si_none } in
    let (u, s', e, p, o) =
      run-Ended (charge cur cpu b) s k c h
        (charge-Runs cur cpu b (with_cpu s k c) l h.current h.slots) in
    (s', goes_on _ e, p, o)

-- The timer's interrupt, when it is not due.
pub handle_timer-Ended :
    (s : Sys)
    → Sound s
    → (s.machine.cpu.ti == ti_expired) ≡ false
    → Ended handle_timer s 1 (record (s.machine.cpu) { ti = ti_none })
unfolding handle_timer
handle_timer-Ended s h e =
    let k = record (s.kernel) { last_ti = s.machine.cpu.ti } in
    let c = record (s.machine.cpu) { ti = ti_none } in
    (with_cpu s k c, rw e refl, refl, with_cpu-Sound s k c h)

-- When it is due, the processor is that of the context switch.
pub handle_timer-switches :
    (s : Sys)
    → Sound s
    → (s.machine.cpu.ti == ti_expired) ≡ true
    → (s' : Sys) × (context_switch (
          with_cpu s
            (record (s.kernel) { last_ti = s.machine.cpu.ti })
            (record (s.machine.cpu) { ti = ti_none }))
        ≡ some (tt, s'))
      × (handle_timer s ≡ some (1, s'))
      × Sound s'
unfolding handle_timer
handle_timer-switches s h e =
    let k = record (s.kernel) { last_ti = s.machine.cpu.ti } in
    let c = record (s.machine.cpu) { ti = ti_none } in
    let s0 = with_cpu s k c in
    let (s1, s2, o, v, _, _, l, run) =
      context_switch_lem s0 h.is_table h.current (All-Live s.heap s.scheduler.schedule h.slots) in
    (s2, run, rw e (goes_on _ run), context_switch-Sound s0 s1 s2 o v l (with_cpu-Sound s k c h))
