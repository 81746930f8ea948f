-- ===== src/Vm/Cpu/Round.antt =====
-- One round of `runOperations` of src/vm/vm_cpu.c.
use rm_vm.Vm.Program.Agreement.{operand-lt}
use rm_vm.Vm.Program.{execute_instruction}
use rm_vm.Rm.State.{op_of, blank, si_write, si_read, Instruction, si_none, si_sys, Op}
use rm_vm.Vm.State.{IsValid, VirtualMachine}
use rm_vm.Vm.Cpu.{
  halted, failed, fetch_word, trapped, set_reg, io_trap, reg, set_pc, exec_op, set_trap, Status,
  step,
}
use rm_vm.Common.{
  ℕ, ◌+◌, ◌*◌, ◌≤◌, ◌<◌, ◌≡◌, refl, ◌∙◌, ◌⊎◌, inl, inr, Option, none, some, arith, ltb, leb, ◌==◌,
  if◌then◌else◌, Bool-cases, ltb→ge, leb→gt, length-set, All-set, u16, IsWord,
}

-- What a trap hands to the kernel: a code with the registers 0 to 2, and for READ and WRITE a buffer
-- within the memory. No other result leaves a code.
abbrev pub Service : Status → VirtualMachine → Type 0
Service trapped vm =
    (vm.trap_r0 ≡ reg vm 0)
    × (vm.trap_r1 ≡ reg vm 1)
    × (vm.trap_r2 ≡ reg vm 2)
    × ((vm.trap_code ≡ si_sys)
        ⊎ (((vm.trap_code ≡ si_read) ⊎ (vm.trap_code ≡ si_write))
            × (vm.trap_r1 + vm.trap_r2 * 2 ≤ 255)))
Service other vm = vm.trap_code ≡ si_none

-- What holds when the interpreter returns `s` with `vm'`, started on `vm`.
pub record Returned (vm : VirtualMachine) (s : Status) (vm' : VirtualMachine) : Type 0 where
  pub valid : IsValid vm'
  pub same_memory : vm'.memory ≡ vm.memory
  pub onward : vm.vm_cpu.pc ≤ vm'.vm_cpu.pc
  pub service : Service s vm'

-- One round: on, by two bytes, or out.
abbrev pub Stepped : VirtualMachine → Option Status × VirtualMachine → Type 0
Stepped vm (none, vm') =
    IsValid vm'
    × (vm'.memory ≡ vm.memory)
    × (vm'.vm_cpu.pc ≡ vm.vm_cpu.pc + 2)
    × (vm.vm_cpu.pc + 1 < 255)
    × (vm'.trap_code ≡ si_none)
Stepped vm (some s, vm') = Returned vm s vm'

IsValid-set_reg : {vm : VirtualMachine} (i v : ℕ) → IsWord v → IsValid vm → IsValid (set_reg vm i v)
IsValid-set_reg {vm} i v hv h = record {
  regs = length-set vm.vm_cpu.r i v ∙ h.regs;
  words = All-set IsWord vm.vm_cpu.r i v h.words hv;
  pc_word = h.pc_word;
  cells = h.cells;
  bytes = h.bytes;
}

IsValid-set_pc : {vm : VirtualMachine} (v : ℕ) → IsWord v → IsValid vm → IsValid (set_pc vm v)
IsValid-set_pc {vm} v hv h = record {
  regs = h.regs;
  words = h.words;
  pc_word = hv;
  cells = h.cells;
  bytes = h.bytes;
}

IsValid-set_trap : {vm : VirtualMachine} (c : ℕ) → IsValid vm → IsValid (set_trap c vm)
unfolding set_trap
IsValid-set_trap c h = record {
  regs = h.regs;
  words = h.words;
  pc_word = h.pc_word;
  cells = h.cells;
  bytes = h.bytes;
}

-- The program counter moved on, and nothing else.
abbrev advanced : VirtualMachine → VirtualMachine
advanced vm = set_pc vm (u16 (vm.vm_cpu.pc + 2))

module _ {vm : VirtualMachine} (h : IsValid vm) (p : vm.vm_cpu.pc + 1 < 255) where
  advanced-IsValid : IsValid (advanced vm)
  advanced-IsValid = IsValid-set_pc (u16 (vm.vm_cpu.pc + 2)) (omega arith) h

  on : (i v : ℕ) → IsWord v → vm.trap_code ≡ si_none → Stepped vm (none, set_reg (advanced vm) i v)
  on i v hv t = (IsValid-set_reg i v hv advanced-IsValid, refl, omega arith, p, t)

  out : (s : Status) → Service s (advanced vm) → Returned vm s (advanced vm)
  out s t = record {
    valid = advanced-IsValid;
    same_memory = refl;
    onward = omega arith;
    service = t;
  }

  trap :
      (c : ℕ)
      → Service trapped (set_trap c (advanced vm))
      → Returned vm trapped (set_trap c (advanced vm))
  unfolding set_trap
  trap c t = record {
    valid = IsValid-set_trap c advanced-IsValid;
    same_memory = refl;
    onward = omega arith;
    service = t;
  }

  io :
      (c : ℕ)
      → (c ≡ si_read) ⊎ (c ≡ si_write)
      → vm.trap_code ≡ si_none
      → Stepped vm (io_trap c (advanced vm))
  unfolding io_trap
  io c hc t = elim (Bool-cases (ltb 255 (reg vm 1 + reg vm 2 * 2))) [
    | inl over ↦ rw (over, io_trap) (out failed t)
    | inr fits ↦ rw (fits, io_trap) (trap c (refl, refl, refl, inr (hc, ltb→ge _ _ fits)))
  ]

-- The `switch`, at the machine with the program counter moved on.
exec_op-Stepped :
    (op : Op) (i : Instruction) {vm : VirtualMachine}
    → i.operand < 512
    → IsValid vm
    → vm.vm_cpu.pc + 1 < 255
    → vm.trap_code ≡ si_none
    → Stepped vm (exec_op op i (advanced vm))
unfolding exec_op
exec_op-Stepped Op.load i o h p t = on h p i.reg_a i.operand (omega arith) t
exec_op-Stepped Op.add i o h p t = on h p i.reg_a _ (omega arith) t
exec_op-Stepped Op.sub i o h p t = on h p i.reg_a _ (omega arith) t
exec_op-Stepped Op.read i o h p t = io h p si_read (inl refl) t
exec_op-Stepped Op.write i o h p t = io h p si_write (inr refl) t
exec_op-Stepped Op.sys i o h p t = trap h p si_sys (refl, refl, refl, inl refl)
exec_op-Stepped Op.halt i o h p t = out h p halted t
exec_op-Stepped op i o h p t = out h p failed t

pub step-Stepped :
    {vm : VirtualMachine} → IsValid vm → vm.trap_code ≡ si_none → Stepped vm (step vm)
unfolding step
step-Stepped {vm} h t = elim (Bool-cases (leb 255 (vm.vm_cpu.pc + 1))) [
  | inl beyond ↦
      rw (beyond, step)
        (record { valid = h; same_memory = refl; onward = omega arith; service = t })
  | inr within ↦ rw (within, step) (decoded (leb→gt _ _ within))
]
  where
    w : ℕ
    w = fetch_word vm vm.vm_cpu.pc

    decoded :
        vm.vm_cpu.pc + 1 < 255
        → Stepped vm (
            if (execute_instruction w blank).0 == 0
            then exec_op
                (op_of (execute_instruction w blank).1.opcode)
                (execute_instruction w blank).1
                (advanced vm)
            else (some failed, advanced vm))
    decoded p = elim (Bool-cases ((execute_instruction w blank).0 == 0)) [
      | inl good ↦ rw good (exec_op-Stepped _ _ (operand-lt w) h p t)
      | inr bad ↦ rw bad (out h p failed t)
    ]
