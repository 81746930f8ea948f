-- ===== src/Vm/Cpu/Agreement.antt =====
-- The interpreters of src/vm/vm_cpu.c against one another, and against `execute` of src/rm/cpu.c.
use rm_vm.Vm.Program.Agreement.{execute_instruction-decode}
use rm_vm.Rm.Decode.{decode}
use rm_vm.Rm.Execute.{execute}
use rm_vm.Common.{
  ℕ, ◌+◌, ◌<◌, ◌≡◌, refl, sym, inl, inr, true, none, arith, leb, Bool-cases, leb→le, u16, IsWord,
}
use rm_vm.Rm.State.{raise_program_interrupt, Machine, Instruction, Op, op_of, blank}
use rm_vm.Vm.State.{VirtualMachine}
use rm_vm.Vm.Program.{execute_instruction}
use rm_vm.Vm.Cpu.{set_pc, fetch_word, exec_op, step, run_op, run_instruction}

run_op-exec_op :
    (op : Op) (i : Instruction) (vm : VirtualMachine)
    → (run_op op i vm).vm_cpu ≡ (exec_op op i vm).1.vm_cpu
unfolding run_op exec_op
run_op-exec_op Op.read i vm = ground arith
run_op-exec_op op i vm = ground arith

run_op-memory :
    (op : Op) (i : Instruction) (vm : VirtualMachine)
    → (run_op op i vm).memory ≡ (exec_op op i vm).1.memory
unfolding run_op exec_op
run_op-memory Op.read i vm = ground arith
run_op-memory op i vm = ground arith

-- `runInstruction` leaves the processor and the memory of the machine as one round of the loop of
-- `runOperations` does, on every instruction.
run_instruction-step :
    (vm : VirtualMachine)
    → ((run_instruction vm).vm_cpu ≡ (step vm).1.vm_cpu)
      × ((run_instruction vm).memory ≡ (step vm).1.memory)
unfolding run_instruction step
run_instruction-step vm =
    ground (arith, run_op-exec_op (op_of i.opcode) i vm', run_op-memory (op_of i.opcode) i vm')
  where
    i : Instruction
    i = (execute_instruction (fetch_word vm vm.vm_cpu.pc) blank).1

    vm' : VirtualMachine
    vm' = set_pc vm (u16 (vm.vm_cpu.pc + 2))

-- The instructions that both machines carry out alike.
abbrev pub Shared : Op → Instruction → Type 0
Shared Op.load i = i.mode ≡ 0
Shared Op.add i = Unit {0}
Shared Op.sub i = Unit {0}
Shared op i = ⊥

fetch_word-IsWord : (vm : VirtualMachine) (pc : ℕ) → IsWord (fetch_word vm pc)
unfolding fetch_word
fetch_word-IsWord vm pc = omega arith

-- One instruction, on machines with the same registers.
execute-exec_op :
    (op : Op) (i : Instruction) (vm : VirtualMachine) (m : Machine)
    → op_of i.opcode ≡ op
    → Shared op i
    → m.cpu.r ≡ vm.vm_cpu.r
    → let (s, vm') = exec_op op (record i { length = 1 }) vm in
      ((execute i m).cpu.r ≡ vm'.vm_cpu.r) × (s ≡ none)
unfolding execute exec_op raise_program_interrupt
execute-exec_op Op.load i vm m e s h = ground arith
execute-exec_op Op.add i vm m e s h = ground arith
execute-exec_op Op.sub i vm m e s h = ground arith
execute-exec_op op i vm m e s h = absurd s

-- Where the two bytes at the program counter of a virtual machine decode, for the Real Machine, to an
-- immediate LOAD, an ADD or a SUB, and both have the same registers, one round of the interpreter goes
-- on and gives the registers that `execute` gives.
pub step-execute :
    (vm : VirtualMachine) (m : Machine) (i : Instruction)
    → vm.vm_cpu.pc + 1 < 255
    → decode (fetch_word vm vm.vm_cpu.pc) blank m ≡ (true, i, m)
    → Shared (op_of i.opcode) i
    → m.cpu.r ≡ vm.vm_cpu.r
    → ((step vm).1.vm_cpu.r ≡ (execute i m).cpu.r) × ((step vm).0 ≡ none)
unfolding step
step-execute vm m i p d s h = elim (Bool-cases (leb 255 (vm.vm_cpu.pc + 1))) [
  | inl beyond ↦ absurd (omega (arith, leb→le _ _ beyond))
  | inr within ↦ rw (within, step, agree) (sym done.0, done.1)
]
  where
    w : ℕ
    w = fetch_word vm vm.vm_cpu.pc

    word : IsWord w
    word = fetch_word-IsWord vm vm.vm_cpu.pc

    agree : execute_instruction (fetch_word vm vm.vm_cpu.pc) blank ≡ (0, record i { length = 1 })
    agree = ground (arith, d, execute_instruction-decode w blank blank m word)

    done :
        let (s, vm') =
          exec_op (op_of i.opcode) (record i { length = 1 }) (set_pc vm (u16 (vm.vm_cpu.pc + 2))) in
        ((execute i m).cpu.r ≡ vm'.vm_cpu.r) × (s ≡ none)
    done = execute-exec_op _ i (set_pc vm (u16 (vm.vm_cpu.pc + 2))) m refl s h
