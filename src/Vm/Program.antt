-- ===== src/Vm/Program.antt =====
-- `executeInstruction` of src/vm/vm_program.c, which decodes.
pub mod Agreement
use rm_vm.Common.{
  ℕ, zero, suc, ◌+◌, ◌-◌, ◌*◌, ◌/◌, ◌%◌, ◌^◌, ◌≤◌, ◌<◌, bit_or, min, ◌≡◌, refl, sym, ap, ap₂, ◌∙◌,
  subst, ◌≢◌, ◌↔◌, ◌⊎◌, inl, inr, Bool, true, false, not, ◌&&◌, ◌||◌, Option, none, some, List, [],
  ◌∷◌, ◌++◌, map, append-nil, append_assoc, arith, dec_lt, ℕ_discrete, ltb, leb, ◌==◌,
  if◌then◌else◌, tests, Bool-cases, Option-cases, ltb→lt, ltb→ge, leb→le, leb→gt, ==→eq, length,
  get_or, set, take, drop, replicate, length-set, get_or-set_self, get_or-set_ne, length-append,
  length-replicate, All, All-set, All-get_or, All-replicate, u8, u16, uint16_max, IsByte, IsWord,
  AllWord, sub_u16, bit, drop-set,
}
use rm_vm.Rm.State.{Instruction, Op, op_of, reg_count}

-- A test of the C code that returns the code `rc` early.
abbrev reject : Bool → ℕ → Instruction → ℕ × Instruction → ℕ × Instruction
reject test rc ins rest = if test then (rc, ins) else rest

-- The `switch`: the fields of each opcode, with their tests.
operands : Op → ℕ → Instruction → ℕ × Instruction
operands Op.load w ins =
    let i = record ins { mode = w / 2 ^ 7 % 4; operand = w % 128 } in
    reject (ltb 3 i.mode) 3 i (0, i)
operands Op.store w ins =
    let i = record ins { mode = w / 2 ^ 7 % 4; operand = w % 128 } in
    reject (ltb 3 i.mode) 3 i (0, i)
operands Op.add w ins =
    let i = record ins { reg_b = w / 2 ^ 6 % 8 } in reject (leb reg_count i.reg_b) 4 i (0, i)
operands Op.sub w ins =
    let i = record ins { reg_b = w / 2 ^ 6 % 8 } in reject (leb reg_count i.reg_b) 4 i (0, i)
operands Op.mul w ins =
    let i = record ins { reg_b = w / 2 ^ 6 % 8 } in reject (leb reg_count i.reg_b) 4 i (0, i)
operands Op.div w ins =
    let i = record ins { reg_b = w / 2 ^ 6 % 8 } in reject (leb reg_count i.reg_b) 4 i (0, i)
operands Op.cmp w ins =
    let i = record ins { reg_b = w / 2 ^ 6 % 8 } in reject (leb reg_count i.reg_b) 4 i (0, i)
operands Op.jmp w ins = (0, record ins { operand = w % 512 })
operands Op.jz w ins = (0, record ins { operand = w % 512 })
operands Op.jnz w ins = (0, record ins { operand = w % 512 })
operands Op.invalid w ins = (5, ins)
operands op w ins = (0, ins)

-- `executeInstruction(ins, insWord)`: the code returned, 0 for success, and `*ins` afterwards.
unfoldable pub execute_instruction : ℕ → Instruction → ℕ × Instruction
unfolding operands
execute_instruction w ins =
    let i = record ins { raw = w; opcode = w / 2 ^ 12 % 16 } in
    let j = record i { reg_a = w / 2 ^ 9 % 8 } in
    let k = record j { mode = 0; reg_b = 0; operand = 0; length = 1 } in
    reject (ltb 14 i.opcode) 1 i
      (reject (leb reg_count j.reg_a) 2 j (operands (op_of k.opcode) w k))
