-- ===== src/Rm/Decode.antt =====
-- `decode` of src/rm/cpu.c.
pub mod Format
use rm_vm.Common.{ℕ, ◌/◌, ◌%◌, ◌^◌, Bool, true, false, ◌&&◌, ◌||◌, ◌==◌, leb, if◌then◌else◌}
use rm_vm.Rm.State.{
  Instruction, Machine, Op, op_of, reg_count, memory_size, pi_invalid_opcode, pi_invalid_register,
  pi_invalid_address, raise_program_interrupt,
}

-- The fields that every word has, and the resets above the `switch`.
head : ℕ → Instruction → Instruction
head w inst = record inst {
  raw = w;
  opcode = w / 2 ^ 12 % 16;
  reg_a = w / 2 ^ 9 % 8;
  mode = 0;
  operand = 0;
  reg_b = 0;
}

-- The `switch`: the fields that depend on the opcode.
fields : Op → ℕ → Instruction → Instruction
fields Op.load w i = record i { mode = w / 2 ^ 7 % 4; operand = w % 128 }
fields Op.store w i = record i { mode = w / 2 ^ 7 % 4; operand = w % 128 }
fields Op.add w i = record i { reg_b = w / 2 ^ 6 % 8 }
fields Op.sub w i = record i { reg_b = w / 2 ^ 6 % 8 }
fields Op.mul w i = record i { reg_b = w / 2 ^ 6 % 8 }
fields Op.div w i = record i { reg_b = w / 2 ^ 6 % 8 }
fields Op.cmp w i = record i { reg_b = w / 2 ^ 6 % 8 }
fields Op.jmp w i = record i { operand = w % 512 }
fields Op.jz w i = record i { operand = w % 512 }
fields Op.jnz w i = record i { operand = w % 512 }
fields op w i = i

has_address : ℕ → Bool
has_address c = c == 1 || c == 2 || c == 8 || c == 9 || c == 10

-- The validation below the `switch`.
validate : Instruction → Machine → Bool × Instruction × Machine
unfolding has_address
validate i m =
    if leb reg_count i.reg_a
    then (false, i, raise_program_interrupt pi_invalid_register m)
    else if has_address i.opcode && leb memory_size i.operand
    then (false, i, raise_program_interrupt pi_invalid_address m)
    else if leb 4 i.mode
    then (false, i, raise_program_interrupt pi_invalid_opcode m)
    else (true, i, m)

-- Dispatch on the `case` labels: the `default` raises an interrupt, the others go on.
unfoldable pub dispatch : Op → ℕ → Instruction → Machine → Bool × Instruction × Machine
unfolding fields validate
dispatch Op.invalid w i m = (false, i, raise_program_interrupt pi_invalid_opcode m)
dispatch op w i m = validate (fields op w i) m

-- `decode(rawWord, inst)`: the result, `*inst` and the machine afterwards.
unfoldable pub decode : ℕ → Instruction → Machine → Bool × Instruction × Machine
unfolding head dispatch
decode w inst m = let i = head w inst in dispatch (op_of i.opcode) w i m
