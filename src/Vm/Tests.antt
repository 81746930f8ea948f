-- ===== src/Vm/Tests.antt =====
-- Runs of the Virtual Machine, and the theorems about it at concrete machines.
use rm_vm.Common.{
  ℕ, ◌≤◌, ◌<◌, ◌≡◌, refl, ◌⊎◌, true, none, some, List, [], ◌∷◌, ◌++◌, arith, ◌==◌, if◌then◌else◌,
  length, get_or, drop,
}
use rm_vm.Rm.State.{Instruction, Machine, blank, init_cpu, op_of}
use rm_vm.Rm.Decode.{decode}
use rm_vm.Rm.Execute.{execute}
use rm_vm.Vm.State.{VirtualMachine, VmCpu, create_vm, create_vm-IsValid}
use rm_vm.Vm.Image.{load_program}
use rm_vm.Vm.Image.Records.{image, NoHalt, load_program_lem}
use rm_vm.Vm.Channel.{vm_read_channel, vm_write_channel}
use rm_vm.Vm.Channel.Echo.{vm_read_channel-vm_write_channel}
use rm_vm.Vm.Program.{execute_instruction}
use rm_vm.Vm.Program.Agreement.{execute_instruction-decode}
use rm_vm.Vm.Cpu.{Status, halted, step, run_operations, fetch_word}
use rm_vm.Vm.Cpu.Round.{Returned}
use rm_vm.Vm.Cpu.Run.{run_operations_total}
use rm_vm.Vm.Cpu.Agreement.{step-execute}

abbrev cpu_at : List ℕ → ℕ → VmCpu
cpu_at r pc = record { r = r; pc = pc; sf = 0; ds = 0; cs = 0; ptr = 0; si = 0 }

-- LOAD R0,#3; LOAD R1,#4; ADD R0,R1; HALT, in bytes.
abbrev adder : VirtualMachine
adder = record {
  memory = 0x10 ∷ 0x03 ∷ 0x12 ∷ 0x04 ∷ 0x30 ∷ 0x40 ∷ 0 ∷ 0 ∷ [];
  vm_cpu = cpu_at (0 ∷ 0 ∷ 0 ∷ []) 0;
  trap_code = 0;
  trap_r0 = 0;
  trap_r1 = 0;
  trap_r2 = 0;
}

adder_runs :
    run_operations adder ≡ some (halted, record adder { vm_cpu = cpu_at (7 ∷ 4 ∷ 0 ∷ []) 8 })
unfolding run_operations step execute_instruction op_of
adder_runs = refl

abbrev machine : Machine
machine = record { cpu = record init_cpu { r = 0 ∷ 0 ∷ 0 ∷ [] }; mem = [] }

-- LOAD R0,#3
abbrev load_three : Instruction
load_three = record {
  opcode = 1;
  reg_a = 0;
  reg_b = 0;
  mode = 0;
  operand = 3;
  raw = 0x1003;
  length = 0;
}

execute_instruction-decode_example :
    let (rc, j) = execute_instruction 0x1003 blank in
    let (accepted, i, m') = decode 0x1003 blank machine in
    ((rc == 0) ≡ accepted) × ((if accepted then record i { length = 1 } else j) ≡ j)
execute_instruction-decode_example =
    execute_instruction-decode 0x1003 blank blank machine (omega arith)

run_operations_total_example :
    (s : Status) × (vm' : VirtualMachine) × (run_operations create_vm ≡ some (s, vm'))
    × Returned create_vm s vm'
run_operations_total_example = run_operations_total create_vm-IsValid

step-execute_example :
    ((step adder).1.vm_cpu.r ≡ (execute load_three machine).cpu.r) × ((step adder).0 ≡ none)
unfolding op_of init_cpu decode fetch_word
step-execute_example = step-execute adder machine load_three (omega arith) refl refl refl

load_three-NoHalt : NoHalt load_three
load_three-NoHalt e = omega (arith, e)

-- A program of LOAD and HALT, with an instruction behind the HALT.
load_program_lem_example :
    (mem' : List ℕ) × (load_program (load_three ∷ blank ∷ load_three ∷ []) create_vm.memory
      ≡ some (0, mem'))
    × (((2 ≤ 28) × (mem' ≡ image (load_three ∷ blank ∷ []) ++ drop 18 create_vm.memory)) ⊎ (28 < 2))
load_program_lem_example =
    load_program_lem (load_three ∷ []) blank (load_three ∷ []) create_vm.memory
      (load_three-NoHalt, tt) refl create_vm-IsValid.cells

vm_read_channel-vm_write_channel_example :
    (out : List ℕ) × (buf' : List ℕ) × (vm_write_channel (72 ∷ 105 ∷ 33 ∷ []) 2 ≡ some (true, out))
    × (vm_read_channel (1 ∷ 2 ∷ 3 ∷ 4 ∷ []) 2 (out ++ 9 ∷ []) ≡ some (true, buf', 9 ∷ []))
    × (length out ≡ 2)
    × (length buf' ≡ 4)
    × (get_or buf' 1 0 ≡ 105)
vm_read_channel-vm_write_channel_example =
    vm_read_channel-vm_write_channel (72 ∷ 105 ∷ 33 ∷ []) (1 ∷ 2 ∷ 3 ∷ 4 ∷ []) (9 ∷ []) 2 1
      (omega arith, (omega arith, (omega arith, tt))) (omega arith) (omega arith) (omega arith)
