-- ===== src/Rm/Execute.antt =====
-- `execute` of src/rm/cpu.c.
pub mod Branch
pub mod Alu
pub mod Protection
pub mod Bounds
use rm_vm.Common.{
  ℕ, zero, suc, ◌+◌, ◌*◌, ◌/◌, ◌%◌, Bool, not, ◌&&◌, ◌==◌, ltb, if◌then◌else◌, get_or, set, bit,
  bit_or, sub_u16, uint16_max, ◌-◌,
}
use rm_vm.Rm.State.{
  Instruction, Machine, Op, op_of, mode_supervisor, pi_invalid_opcode, pi_overflow, pi_divzero,
  si_read, si_write, si_halt, si_sys, flag_zero, flag_negative, flag_overflow, flag_carry,
  raise_program_interrupt,
}
use rm_vm.Rm.Memory.{read, write}

-- `realCPU.R[i]`
abbrev pub reg : Machine → ℕ → ℕ
reg m i = get_or m.cpu.r i 0

-- `realCPU.R[i] = v`
abbrev pub set_reg : Machine → ℕ → ℕ → Machine
set_reg m i v = record m { cpu = record (m.cpu) { r = set m.cpu.r i v } }

abbrev pub set_ic : Machine → ℕ → Machine
set_ic m v = record m { cpu = record (m.cpu) { ic = v } }

abbrev pub set_sf : Machine → ℕ → Machine
set_sf m v = record m { cpu = record (m.cpu) { sf = v } }

abbrev pub set_si : Machine → ℕ → Machine
set_si m v = record m { cpu = record (m.cpu) { si = v } }

-- `read(&physicalMemory, read(&physicalMemory, a))`
read_indirect : Machine → ℕ → ℕ × Machine
read_indirect m a = let (p, m') = read m a in read m' p

load_mode : ℕ → Instruction → Machine → Machine
unfolding read_indirect
load_mode zero i m = set_reg m i.reg_a i.operand
load_mode (suc zero) i m = let (v, m') = read m i.operand in set_reg m' i.reg_a v
load_mode (suc (suc zero)) i m = let (v, m') = read_indirect m i.operand in set_reg m' i.reg_a v
load_mode other i m = raise_program_interrupt pi_invalid_opcode m

store_mode : ℕ → Instruction → Machine → Machine
store_mode (suc zero) i m = write m i.operand (reg m i.reg_a)
store_mode (suc (suc zero)) i m = let (p, m') = read m i.operand in write m' p (reg m' i.reg_a)
store_mode other i m = raise_program_interrupt pi_invalid_opcode m

-- `SF |= FLAG_ZERO` and `SF |= FLAG_NEGATIVE`, as the result asks.
flags : ℕ → ℕ → ℕ
flags base v =
    let z = if v == 0 then bit_or base flag_zero else base in
    if bit v 15 then bit_or z flag_negative else z

-- What ADD, SUB and MUL do with their test for overflow and their result: `SF` is set anew, an
-- overflow sets two flags and raises an interrupt, and the register is written all the same.
finish : Bool → ℕ → Instruction → Machine → Machine
unfolding flags
finish overflow v i m =
    let m' = if overflow then raise_program_interrupt pi_overflow m else m in
    let base = if overflow then bit_or flag_overflow flag_carry else 0 in
    set_sf (set_reg m' i.reg_a v) (flags base v)

exec_add : Instruction → Machine → Machine
unfolding finish
exec_add i m =
    let a = reg m i.reg_a in
    let b = reg m i.reg_b in finish (ltb (uint16_max - b) a) ((a + b) % 65536) i m

exec_sub : Instruction → Machine → Machine
unfolding finish
exec_sub i m = let a = reg m i.reg_a in let b = reg m i.reg_b in finish (ltb a b) (sub_u16 a b) i m

-- The product of two `uint16_t` is an `int`, and the register takes its low 16 bits. From 2^31 on the
-- product overflows, which C leaves undefined: the wrap-around that stands here is what a compiler gives
-- that does not use this, and no theorem on the result of MUL goes there.
exec_mul : Instruction → Machine → Machine
unfolding finish
exec_mul i m =
    let a = reg m i.reg_a in
    let b = reg m i.reg_b in finish (not (b == 0) && ltb (uint16_max / b) a) (a * b % 65536) i m

exec_div : Instruction → Machine → Machine
unfolding flags
exec_div i m =
    let a = reg m i.reg_a in
    let b = reg m i.reg_b in
    if b == 0
    then raise_program_interrupt pi_divzero (set_sf m 0)
    else set_sf (set_reg m i.reg_a (a / b)) (flags 0 (a / b))

exec_cmp : Instruction → Machine → Machine
exec_cmp i m =
    let a = reg m i.reg_a in
    let b = reg m i.reg_b in
    set_sf m (if a == b then flag_zero else if ltb a b then flag_negative else 0)

jump_mode : ℕ → Instruction → Machine → Machine
unfolding read_indirect
jump_mode zero i m = set_ic m i.operand
jump_mode (suc zero) i m = let (v, m') = read m i.operand in set_ic m' v
jump_mode (suc (suc zero)) i m = let (v, m') = read_indirect m i.operand in set_ic m' v
jump_mode other i m = raise_program_interrupt pi_invalid_opcode m

-- READ, WRITE and HALT: a system interrupt in supervisor mode, a program interrupt otherwise.
privileged : ℕ → Machine → Machine
privileged code m =
    if m.cpu.mode == mode_supervisor
    then set_si m code
    else raise_program_interrupt pi_invalid_opcode m

exec_op : Op → Instruction → Machine → Machine
unfolding load_mode store_mode exec_add exec_sub exec_mul exec_div exec_cmp jump_mode privileged
exec_op Op.load i m = load_mode i.mode i m
exec_op Op.store i m = store_mode i.mode i m
exec_op Op.add i m = exec_add i m
exec_op Op.sub i m = exec_sub i m
exec_op Op.mul i m = exec_mul i m
exec_op Op.div i m = exec_div i m
exec_op Op.cmp i m = exec_cmp i m
exec_op Op.jmp i m = jump_mode i.mode i m
exec_op Op.jz i m = if bit m.cpu.sf 0 then set_ic m i.operand else m
exec_op Op.jnz i m = if bit m.cpu.sf 0 then m else set_ic m i.operand
exec_op Op.read i m = privileged si_read m
exec_op Op.write i m = privileged si_write m
exec_op Op.halt i m = privileged si_halt m
exec_op Op.nop i m = m
exec_op Op.sys i m = set_si m si_sys
exec_op Op.invalid i m = raise_program_interrupt pi_invalid_opcode m

unfoldable pub execute : Instruction → Machine → Machine
unfolding exec_op
execute i m = exec_op (op_of i.opcode) i m
