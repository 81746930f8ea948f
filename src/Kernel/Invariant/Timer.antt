-- ===== src/Kernel/Invariant/Timer.antt =====
-- `kernelHandleInterrupts` of src/kernel/kernel.c and `interruptHandlerEntry`, between two turns of
-- `runCycle`, and the invariant of src/kernel.
use rm_vm.Kernel.Invariant.Units.{Released-Yields, Granted-Yields, release_timer, request_timer}
use rm_vm.Kernel.Context.{context_switch}
use rm_vm.Kernel.System.Steps.{load-At, goes_on}
use rm_vm.Kernel.Process.{has_pid, ProcType, EntryResult, has_type}
use rm_vm.Kernel.Invariant.Parts.{context_switch-Yields, with_parts-Onward, with_parts-Inv}
use rm_vm.Kernel.System.Safe.{find_proc-Finds, CurrentLive}
use rm_vm.Rm.Timer.{check_timer_interrupt, Timer}
use rm_vm.Rm.State.{ti_expired, ti_none, Cpu, si_none, raise_timer_interrupt}
use rm_vm.Kernel.Invariant.{Yields-Keeps, Onward-refl, Onward-trans, Yields, Keeps, Inv, Ghost}
use rm_vm.Kernel.Scheduler.{request, release, first, find_process_by_pid}
use rm_vm.Kernel.Interrupts.{
  set_kernel, set_cpu, note_current, vm_owner, handle_timer, handle_causes,
  kernel_handle_interrupts, react, interrupt_handler_entry, sync_timer,
}
use rm_vm.Common.{
  ℕ, ◌+◌, ◌-◌, ◌<◌, ◌≡◌, refl, ap, ◌∙◌, subst, inl, inr, Bool, true, false, not, Option, none, some,
  arith, ◌==◌, if◌then◌else◌, Bool-cases, u8,
}
use rm_vm.Kernel.System.{gets, when, pure, M, Sys, KernelState, ◌>>=◌, ◌>>◌}

-- Writes to the bookkeeping, the processor and the timer.
kernel-Inv :
    {g : Ghost} {s : Sys} (k : KernelState)
    → Inv g s
    → k.last_pi ≡ 0
    → k.last_si ≡ 0
    → Inv g (record s { kernel = k })
kernel-Inv {g} {s} k h lp ls =
    with_parts-Inv s.machine.cpu k s.timer s.scheduler.current h h.no_pi h.no_si lp ls
      h.sound.current h.resting

cpu-Inv :
    {g : Ghost} {s : Sys} (c : Cpu)
    → Inv g s
    → c.pi ≡ 0
    → c.si ≡ 0
    → Inv g (record s { machine = record (s.machine) { cpu = c } })
cpu-Inv {g} {s} c h pi si =
    with_parts-Inv c s.kernel s.timer s.scheduler.current h pi si h.last_pi h.last_si
      h.sound.current h.resting

timer-Inv : {g : Ghost} {s : Sys} (t : Timer) → Inv g s → Inv g (record s { timer = t })
timer-Inv {g} {s} t h =
    with_parts-Inv s.machine.cpu s.kernel t s.scheduler.current h h.no_pi h.no_si h.last_pi
      h.last_si h.sound.current h.resting

pure-Keeps : {A : Type 0} {g : Ghost} {s : Sys} (v : A) → Inv g s → Keeps g (pure v) s
pure-Keeps {s = s} v h = (v, s, refl, h, Onward-refl s)

when-Keeps :
    {g : Ghost} {s : Sys} (b : Bool) (m : M (Unit {0}))
    → Inv g s
    → Keeps g m s
    → Keeps g (when b m) s
when-Keeps true m h k = k
when-Keeps false m h k = pure-Keeps tt h

note_current-Keeps :
    {g : Ghost} {s : Sys} (c : Option ℕ)
    → CurrentLive c s.heap
    → Inv g s
    → Keeps g (note_current c) s
unfolding note_current
note_current-Keeps none l h = pure-Keeps false h
note_current-Keeps {g} {s} (some a) (p, l) h =
    let k : KernelState = record (s.kernel) { last_trap_pid = p.pid } in
    (
      not (has_type ProcType.interrupt_handler p),
      record s { kernel = k },
      goes_on _ (load-At a s p l),
      kernel-Inv k h h.last_pi h.last_si,
      with_parts-Onward s s.machine.cpu k s.timer s.scheduler.current,
    )

sync_timer-Keeps : {g : Ghost} {s : Sys} → Inv g s → Keeps g sync_timer s
unfolding sync_timer raise_timer_interrupt
sync_timer-Keeps {g} {s} h =
    let fired = check_timer_interrupt s.timer in
    let f : Cpu → Cpu = λ c. record c { ti = ti_expired } in
    let h1 = timer-Inv fired.1 h in
    let h2 = cpu-Inv (f s.machine.cpu) h1 h1.no_pi h1.no_si in
    let (v, s2, e2, h2, o2) = when-Keeps fired.0 (set_cpu f) h1 (
      tt,
      record s { timer = fired.1; machine = record (s.machine) { cpu = f s.machine.cpu } },
      refl,
      h2,
      record { alive = λ a l. l; slots = λ i a e. e },
    ) in
    (v, s2, e2, h2, record { alive = o2.alive; slots = o2.slots })

-- The cause is that of the timer.
handle_timer-Keeps : {g : Ghost} {s : Sys} → Inv g s → Keeps g handle_timer s
unfolding handle_timer
handle_timer-Keeps {g} {s} h =
    let code = s.machine.cpu.ti in
    let h1 = kernel-Inv (record (s.kernel) { last_ti = code }) h h.last_pi h.last_si in
    let h2 = cpu-Inv (record (s.machine.cpu) { ti = ti_none }) h1 h1.no_pi h1.no_si in
    let (v, s3, e3, h3, o3) =
      when-Keeps (code == ti_expired) context_switch h2
        (Yields-Keeps context_switch tt (context_switch-Yields h2)) in
    (1, s3, goes_on _ e3, h3, record { alive = o3.alive; slots = o3.slots })

handle_causes_lem :
    (c : Option ℕ) (b : Bool) (s : Sys)
    → s.machine.cpu.pi ≡ 0
    → s.machine.cpu.si ≡ 0
    → handle_causes c b s
      ≡ handle_timer (record s { kernel = record (s.kernel) { last_si = si_none } })
unfolding handle_causes
handle_causes_lem c b s e f = rw (e, f) refl

handle_causes-Keeps :
    {g : Ghost} {s : Sys} (c : Option ℕ) (b : Bool) → Inv g s → Keeps g (handle_causes c b) s
handle_causes-Keeps {g} {s} c b h =
    let (w, s2, f, h2, o2) =
      handle_timer-Keeps (kernel-Inv (record (s.kernel) { last_si = si_none }) h h.last_pi refl) in
    (
      w,
      s2,
      handle_causes_lem c b s h.no_pi h.no_si ∙ f,
      h2,
      record { alive = o2.alive; slots = o2.slots },
    )

-- `kernelHandleInterrupts` between two turns, where no program has raised an interrupt.
kernel_handle_interrupts-Keeps :
    {g : Ghost} {s : Sys} → Inv g s → Keeps g kernel_handle_interrupts s
unfolding kernel_handle_interrupts
kernel_handle_interrupts-Keeps {g} {s} h =
    let c = s.scheduler.current in
    let (b, s1, e1, h1, o1) = note_current-Keeps c h.sound.current h in
    let (_, s2, e2, h2, o2) = sync_timer-Keeps h1 in
    let (v, s3, e3, h3, o3) = handle_causes-Keeps c b h2 in
    (v, s3, goes_on _ e1 ∙ goes_on _ e2 ∙ e3, h3, Onward-trans o1 (Onward-trans o2 o3))

find-Keeps : {g : Ghost} {s : Sys} (pid : ℕ) → Inv g s → Keeps g (find_process_by_pid pid) s
unfolding find_process_by_pid first
find-Keeps {g} {s} pid h =
    let (r, e, f) = find_proc-Finds (has_pid pid) s.heap s.scheduler.schedule 0 h.sound.slots in
    (elim r [ none ↦ none | some (i, a) ↦ some a ], s, goes_on _ (goes_on _ e), h, Onward-refl s)

vm_owner-Keeps : {g : Ghost} {s : Sys} → Inv g s → Keeps g vm_owner s
unfolding vm_owner
vm_owner-Keeps {g} {s} h =
    elim s.kernel.last_vm
      as (λ o.
        Keeps g
          (elim o [
            | some a ↦ pure (some a)
            | none ↦
                if s.kernel.last_trap_pid == 0
                then pure none
                else find_process_by_pid (u8 s.kernel.last_trap_pid)
          ])
          s) [
            | some a ↦ pure-Keeps (some a) h
            | none ↦ elim (Bool-cases (s.kernel.last_trap_pid == 0)) [
              | inl e ↦ (none, s, rw e refl, h, Onward-refl s)
              | inr e ↦
                  let (v, s', r, h', o) = find-Keeps (u8 s.kernel.last_trap_pid) h in
                  (v, s', rw e r, h', o)
            ]
          ]

-- The reactions to the causes, of which there is none.
react_lem :
    (k : KernelState) (o : Option ℕ) (s : Sys)
    → k.last_pi ≡ 0
    → k.last_si ≡ 0
    → react k o s ≡ some (tt, s)
unfolding react
react_lem k o s e f = rw (e, f) refl

finish : Bool → M EntryResult
finish tmr_held = do
  _ ← kernel_handle_interrupts
  k ← gets (λ s. s.kernel)
  owner ← vm_owner
  react k owner
  set_kernel (λ k. record k { last_pi = 0; last_si = 0; last_ti = 0 })
  when tmr_held (release 4 true >>= λ _. pure tt)
  pure EntryResult.keeps

-- `interruptHandlerEntry` as the current process, of which no request is in the queue.
pub interrupt_handler_entry-Keeps :
    {g : Ghost} {s : Sys} (a : ℕ)
    → Inv g s
    → s.scheduler.current ≡ some a
    → 0 < g.timer
    → Yields g interrupt_handler_entry s EntryResult.keeps
unfolding interrupt_handler_entry finish
interrupt_handler_entry-Keeps {g} {s} a h c u =
    let (p, l) = subst (λ c. CurrentLive c s.heap) c h.sound.current in
    let (s1, e1, h1, o1) =
      Granted-Yields (record g { timer = g.timer - 1 }) 4 a p s l
        (request_timer a p h l (h.resting a c) u) in
    let (_, s2, e2, h2, o2) = kernel_handle_interrupts-Keeps h1 in
    let (v, s3, e3, h3, o3) = vm_owner-Keeps h2 in
    let h4 =
      kernel-Inv (record (s3.kernel) { last_pi = 0; last_si = 0; last_ti = 0 }) h3 refl refl in
    let (s5, e5, h5, o5) =
      Released-Yields (record g { timer = g.timer - 1 + 1 }) 4
        (record s3 { kernel = record (s3.kernel) { last_pi = 0; last_si = 0; last_ti = 0 } })
        (release_timer h4) in
    (
      s5,
      ap (λ c. (request 4 c >>= finish) s) c
          ∙ goes_on (λ (b, s). finish b s) e1
          ∙ goes_on _ e2
          ∙ goes_on _ e3
          ∙ goes_on _ (react_lem s2.kernel v s3 h2.last_pi h2.last_si)
          ∙ goes_on _ (goes_on _ e5),
      subst (λ n. Inv (record g { timer = n }) s5) (omega (arith, u)) h5,
      Onward-trans o1
          (Onward-trans o2 (Onward-trans o3 (record { alive = o5.alive; slots = o5.slots }))),
    )
