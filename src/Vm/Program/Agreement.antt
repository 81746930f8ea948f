-- ===== src/Vm/Program/Agreement.antt =====
-- The decoder of the Virtual Machine against that of the Real Machine.
use rm_vm.Common.{
  ℕ, ◌/◌, ◌%◌, ◌^◌, ◌<◌, ◌≡◌, refl, inl, inr, true, arith, ltb, ◌==◌, if◌then◌else◌, Bool-cases,
  IsWord,
}
use rm_vm.Rm.State.{blank, Instruction, Machine, Op, op_of}
use rm_vm.Rm.Decode.{dispatch, decode}
use rm_vm.Vm.Program.{execute_instruction, operands}

-- The two `switch` statements on one instruction that both decoders have come to.
operands-dispatch :
    (op : Op) (w : ℕ) (i : Instruction) (m : Machine)
    → op ≡ op_of i.opcode
    → i.reg_a < 8
    → i.mode ≡ 0
    → i.operand ≡ 0
    → i.reg_b ≡ 0
    → let (rc, j) = operands op w (record i { length = 1 }) in
      let (accepted, k, m') = dispatch op w i m in
      ((rc == 0) ≡ accepted) × (j ≡ record k { length = 1 })
unfolding operands dispatch
operands-dispatch Op.halt w i m e ha hm ho hb = ground arith
operands-dispatch op w i m e ha hm ho hb = ground arith

op_of-invalid : (c : ℕ) → c < 16 → ltb 14 c ≡ true → op_of c ≡ Op.invalid
unfolding op_of
op_of-invalid c h e = ground arith

-- `executeInstruction` returns 0 for exactly the 16-bit words that `decode` accepts, and then both fill
-- in the same fields, `length` apart, which is 1.
pub execute_instruction-decode :
    (w : ℕ) (ins inst : Instruction) (m : Machine)
    → IsWord w
    → let (rc, j) = execute_instruction w ins in
      let (accepted, i, m') = decode w inst m in
      ((rc == 0) ≡ accepted) × ((if accepted then record i { length = 1 } else j) ≡ j)
unfolding execute_instruction decode
execute_instruction-decode w ins inst m h = elim (Bool-cases (ltb 14 (w / 2 ^ 12 % 16))) [
  | inl e ↦ rw (e, execute_instruction, op_of-invalid _ (omega arith) e, decode) (refl, refl)
  | inr e ↦ ground (arith, e, operands-dispatch _ w (made inst) m refl)
]
  where
    made : Instruction → Instruction
    made i = record i {
      raw = w;
      opcode = w / 2 ^ 12 % 16;
      reg_a = w / 2 ^ 9 % 8;
      mode = 0;
      operand = 0;
      reg_b = 0;
    }

operands-lt :
    (op : Op) (w : ℕ) (i : Instruction) → i.operand < 512 → (operands op w i).1.operand < 512
unfolding operands
operands-lt Op.halt w i h = ground arith
operands-lt op w i h = ground arith

pub operand-lt : (w : ℕ) → (execute_instruction w blank).1.operand < 512
unfolding execute_instruction
operand-lt w = ground (
  arith,
  operands-lt (op_of (w / 2 ^ 12 % 16)) w
      (record {
        opcode = w / 2 ^ 12 % 16;
        reg_a = w / 2 ^ 9 % 8;
        reg_b = 0;
        mode = 0;
        operand = 0;
        raw = w;
        length = 1;
      })
      (omega arith),
)
