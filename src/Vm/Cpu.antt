-- ===== src/Vm/Cpu.antt =====
-- `runInstruction` and `runOperations` of src/vm/vm_cpu.c.
pub mod Round
pub mod Run
pub mod Agreement
use rm_vm.Common.{
  ℕ, zero, suc, ◌+◌, ◌-◌, ◌*◌, ◌/◌, ◌%◌, ◌^◌, ◌≤◌, ◌<◌, bit_or, min, ◌≡◌, refl, sym, ap, ap₂, ◌∙◌,
  subst, ◌≢◌, ◌↔◌, ◌⊎◌, inl, inr, Bool, true, false, not, ◌&&◌, ◌||◌, Option, none, some, List, [],
  ◌∷◌, ◌++◌, map, append-nil, append_assoc, arith, dec_lt, ℕ_discrete, ltb, leb, ◌==◌,
  if◌then◌else◌, tests, Bool-cases, Option-cases, ltb→lt, ltb→ge, leb→le, leb→gt, ==→eq, length,
  get_or, set, take, drop, replicate, length-set, get_or-set_self, get_or-set_ne, length-append,
  length-replicate, All, All-set, All-get_or, All-replicate, u8, u16, uint16_max, IsByte, IsWord,
  AllWord, sub_u16, bit, drop-set,
}
use rm_vm.Rm.State.{Instruction, Op, op_of, blank, si_none, si_read, si_write, si_sys}
use rm_vm.Vm.State.{VirtualMachine, vm_memory_size}
use rm_vm.Vm.Program.{execute_instruction}

abbrev pub reg : VirtualMachine → ℕ → ℕ
reg vm i = get_or vm.vm_cpu.r i 0

abbrev pub set_reg : VirtualMachine → ℕ → ℕ → VirtualMachine
set_reg vm i v = record vm { vm_cpu = record (vm.vm_cpu) { r = set vm.vm_cpu.r i v } }

abbrev pub set_pc : VirtualMachine → ℕ → VirtualMachine
set_pc vm v = record vm { vm_cpu = record (vm.vm_cpu) { pc = v } }

-- `(memoryCells[pc] << 8) | memoryCells[pc + 1]`: the two bytes have no bit in common.
unfoldable pub fetch_word : VirtualMachine → ℕ → ℕ
fetch_word vm pc = u16 (256 * get_or vm.memory pc 0 + get_or vm.memory (pc + 1) 0)

-- The results of `runOperations`: -1 for an error, 1 for a halt, 2 for a trap. A 0 is never returned.
pub data Status : Type 0 where
  failed halted trapped : Status

set_trap : ℕ → VirtualMachine → VirtualMachine
set_trap code vm = record vm {
  trap_code = code;
  trap_r0 = reg vm 0;
  trap_r1 = reg vm 1;
  trap_r2 = reg vm 2;
}

-- READ and WRITE: the buffer is checked before the trap. The sum is a `uint32_t`.
io_trap : ℕ → VirtualMachine → Option Status × VirtualMachine
unfolding set_trap
io_trap code vm =
    if ltb vm_memory_size (reg vm 1 + reg vm 2 * 2)
    then (some failed, vm)
    else (some trapped, set_trap code vm)

-- The `switch` of `runOperations`; `none` goes round the loop again.
exec_op : Op → Instruction → VirtualMachine → Option Status × VirtualMachine
unfolding io_trap
exec_op Op.load i vm = (none, set_reg vm i.reg_a i.operand)
exec_op Op.read i vm = io_trap si_read vm
exec_op Op.write i vm = io_trap si_write vm
exec_op Op.sys i vm = (some trapped, set_trap si_sys vm)
exec_op Op.add i vm = (none, set_reg vm i.reg_a (u16 (reg vm i.reg_a + reg vm i.reg_b)))
exec_op Op.sub i vm = (none, set_reg vm i.reg_a (sub_u16 (reg vm i.reg_a) (reg vm i.reg_b)))
exec_op Op.halt i vm = (some halted, vm)
exec_op op i vm = (some failed, vm)

-- One round of the loop of `runOperations`.
unfoldable pub step : VirtualMachine → Option Status × VirtualMachine
unfolding fetch_word exec_op
step vm =
    let pc = vm.vm_cpu.pc in
    if leb vm_memory_size (pc + 1)
    then (some failed, vm)
    else (let vm' = set_pc vm (u16 (pc + 2)) in
        let (rc, inst) = execute_instruction (fetch_word vm pc) blank in
        if rc == 0 then exec_op (op_of inst.opcode) inst vm' else (some failed, vm'))

-- The loop, on fuel.
unfoldable pub loop : ℕ → VirtualMachine → Option (Status × VirtualMachine)
loop zero vm = none
loop (suc fuel) vm =
    let (s, vm') = step vm in elim s [ none ↦ loop fuel vm' | some status ↦ some (status, vm') ]

-- The rounds that are enough: the program counter goes up by 2 in each, from any start.
abbrev pub enough : ℕ
enough = 128

unfoldable pub run_operations : VirtualMachine → Option (Status × VirtualMachine)
unfolding loop
run_operations vm =
    loop enough (record vm { trap_code = si_none; trap_r0 = 0; trap_r1 = 0; trap_r2 = 0 })

-- The `switch` of `runInstruction`, whose `default` only logs.
run_op : Op → Instruction → VirtualMachine → VirtualMachine
run_op Op.load i vm = set_reg vm i.reg_a i.operand
run_op Op.add i vm = set_reg vm i.reg_a (u16 (reg vm i.reg_a + reg vm i.reg_b))
run_op Op.sub i vm = set_reg vm i.reg_a (sub_u16 (reg vm i.reg_a) (reg vm i.reg_b))
run_op op i vm = vm

unfoldable pub run_instruction : VirtualMachine → VirtualMachine
unfolding fetch_word run_op
run_instruction vm =
    let pc = vm.vm_cpu.pc in
    if leb vm_memory_size (pc + 1)
    then vm
    else (let vm' = set_pc vm (u16 (pc + 2)) in
        let (rc, inst) = execute_instruction (fetch_word vm pc) blank in
        if rc == 0 then run_op (op_of inst.opcode) inst vm' else vm')
