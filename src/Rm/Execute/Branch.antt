-- ===== src/Rm/Execute/Branch.antt =====
-- The cases CMP, JZ and JNZ of `execute` in src/rm/cpu.c.
use rm_vm.Common.{◌≡◌, arith, ◌==◌, if◌then◌else◌}
use rm_vm.Rm.State.{Instruction, Machine, Op, op_of}
use rm_vm.Rm.Execute.{execute, exec_op, reg}

-- CMP followed by a conditional jump on the same machine: JZ goes to its operand exactly if the two
-- registers are equal, JNZ exactly if they are not; otherwise the next instruction follows. No register
-- and no memory cell changes.
pub execute-cmp :
    (i j k : Instruction) (m : Machine)
    → op_of i.opcode ≡ Op.cmp
    → op_of j.opcode ≡ Op.jz
    → op_of k.opcode ≡ Op.jnz
    → let equal = reg m i.reg_a == reg m i.reg_b in
      let m' = execute i m in
      ((execute j m').cpu.ic ≡ (if equal then j.operand else m.cpu.ic))
      × ((execute k m').cpu.ic ≡ (if equal then m.cpu.ic else k.operand))
      × ((execute j m').cpu.r ≡ m.cpu.r)
      × ((execute k m').cpu.r ≡ m.cpu.r)
      × ((execute j m').mem ≡ m.mem)
      × ((execute k m').mem ≡ m.mem)
unfolding execute exec_op
execute-cmp i j k m hi hj hk = rw (hi, hj, hk) (ground arith)
