-- ===== src/Vm/Cpu/Run.antt =====
-- `runOperations` of src/vm/vm_cpu.c returns, and how.
use rm_vm.Vm.Cpu.Round.{step-Stepped, Stepped, Returned}
use rm_vm.Common.{
  ℕ, zero, suc, ◌+◌, ◌*◌, ◌≤◌, ◌<◌, ◌≡◌, refl, ◌∙◌, subst, inl, inr, Option, none, some, arith,
  Option-cases,
}
use rm_vm.Rm.State.{si_none}
use rm_vm.Vm.State.{VirtualMachine, IsValid}
use rm_vm.Vm.Cpu.{Status, step, loop, enough, run_operations}

-- The results of a run: it returns.
abbrev Done : VirtualMachine → Option (Status × VirtualMachine) → Type 0
Done vm none = ⊥
Done vm (some (s, vm')) = Returned vm s vm'

Done-later :
    (vm vm' : VirtualMachine) (o : Option (Status × VirtualMachine))
    → vm'.memory ≡ vm.memory
    → vm.vm_cpu.pc ≤ vm'.vm_cpu.pc
    → Done vm' o
    → Done vm o
Done-later vm vm' none e p d = d
Done-later vm vm' (some (s, last)) e p d = record {
  valid = d.valid;
  same_memory = d.same_memory ∙ e;
  onward = omega (arith, d.onward);
  service = d.service;
}

loop-Done :
    (fuel : ℕ) {vm : VirtualMachine}
    → IsValid vm
    → vm.trap_code ≡ si_none
    → 0 < fuel
    → 256 ≤ vm.vm_cpu.pc + 2 * fuel
    → Done vm (loop fuel vm)
unfolding loop
loop-Done zero h t f p = absurd (omega arith)
loop-Done (suc fuel) {vm} h t f p = elim (Option-cases (step vm).0) [
  | inl e ↦
      let st : Stepped vm (none, (step vm).1) = stepped none e in
      rw (e, loop)
        (Done-later vm (step vm).1 _ st.1 (omega arith)
          (loop-Done fuel st.0 st.4 (omega arith) (omega arith)))
  | inr (s, e) ↦ rw (e, loop) (stepped (some s) e)
]
  where
    stepped : (o : Option Status) → (step vm).0 ≡ o → Stepped vm (o, (step vm).1)
    stepped o e = subst (λ x. Stepped vm (x, (step vm).1)) e (step-Stepped h t)

-- On a valid machine `runOperations` returns, from any program counter and any memory. The machine is
-- valid afterwards, its memory is as it was and the program counter has not gone back. After a trap the
-- registers 0 to 2 stand in the trap record under the code of SYS, READ or WRITE, and for the latter two
-- the buffer lies in the memory; after an error or a halt the trap code is `SI_NONE`.
pub run_operations_total :
    {vm : VirtualMachine}
    → IsValid vm
    → (s : Status) × (vm' : VirtualMachine) × (run_operations vm ≡ some (s, vm'))
      × Returned vm s vm'
unfolding run_operations
run_operations_total {vm} h = found (loop enough ready) refl done
  where
    ready : VirtualMachine
    ready = record vm { trap_code = si_none; trap_r0 = 0; trap_r1 = 0; trap_r2 = 0 }

    ready-IsValid : IsValid ready
    ready-IsValid = record {
      regs = h.regs;
      words = h.words;
      pc_word = h.pc_word;
      cells = h.cells;
      bytes = h.bytes;
    }

    done : Done vm (loop enough ready)
    done =
        Done-later vm ready _ refl (omega arith)
          (loop-Done enough ready-IsValid refl (omega arith) (omega arith))

    found :
        (o : Option (Status × VirtualMachine))
        → loop enough ready ≡ o
        → Done vm o
        → (s : Status) × (vm' : VirtualMachine) × (loop enough ready ≡ some (s, vm'))
          × Returned vm s vm'
    found none e d = absurd d
    found (some (s, vm')) e d = (s, vm', e, d)
