-- ===== src/Rm/State.antt =====
-- include/registers.h, include/instructions.h, include/interrupts.h and include/common.h: the data
-- of the Real Machine; src/rm/interrupt.c: its interrupt latches.
use rm_vm.Common.{
  ℕ, List, Bool, ◌||◌, not, ◌==◌, leb, ltb, if◌then◌else◌, replicate, length, ◌≡◌, IsWord, AllWord,
}

-- `CPU`. The registers `R[REG_COUNT]` are a list.
pub record Cpu : Type 0 where
  pub ic : ℕ
  pub r : List ℕ
  pub sf : ℕ
  pub mode : ℕ
  pub pi : ℕ
  pub si : ℕ
  pub ti : ℕ
  pub ptr : ℕ

-- `Instruction`
pub record Instruction : Type 0 where
  pub opcode : ℕ
  pub reg_a : ℕ
  pub reg_b : ℕ
  pub mode : ℕ
  pub operand : ℕ
  pub raw : ℕ
  pub length : ℕ

-- The globals `realCPU` and `physicalMemory`, which the functions of src/rm read and write.
pub record Machine : Type 0 where
  pub cpu : Cpu
  pub mem : List ℕ

-- include/common.h
abbrev pub reg_count : ℕ
reg_count = 8

abbrev pub memory_size : ℕ
memory_size = 512

abbrev pub user_memory_end : ℕ
user_memory_end = 255

abbrev pub supervisor_start : ℕ
supervisor_start = 256

abbrev pub supervisor_end : ℕ
supervisor_end = 511

abbrev pub ptr_start : ℕ
ptr_start = 240

abbrev pub mode_user : ℕ
mode_user = 0

abbrev pub mode_supervisor : ℕ
mode_supervisor = 1

abbrev pub tick_limit : ℕ
tick_limit = 10

abbrev pub flag_zero : ℕ
flag_zero = 1

abbrev pub flag_negative : ℕ
flag_negative = 2

abbrev pub flag_overflow : ℕ
flag_overflow = 4

abbrev pub flag_carry : ℕ
flag_carry = 8

-- include/interrupts.h
abbrev pub pi_none : ℕ
pi_none = 0

abbrev pub pi_invalid_opcode : ℕ
pi_invalid_opcode = 1

abbrev pub pi_invalid_address : ℕ
pi_invalid_address = 2

abbrev pub pi_invalid_register : ℕ
pi_invalid_register = 3

abbrev pub pi_divzero : ℕ
pi_divzero = 4

abbrev pub pi_overflow : ℕ
pi_overflow = 6

abbrev pub si_none : ℕ
si_none = 0

abbrev pub si_read : ℕ
si_read = 1

abbrev pub si_write : ℕ
si_write = 2

abbrev pub si_halt : ℕ
si_halt = 3

abbrev pub si_sys : ℕ
si_sys = 4

abbrev pub ti_none : ℕ
ti_none = 0

abbrev pub ti_expired : ℕ
ti_expired = 1

-- The opcodes of include/instructions.h; `invalid` is every other value.
pub data Op : Type 0 where
  halt load store add sub mul div cmp jmp jz jnz read write nop sys invalid : Op

-- The `case` labels of the `switch` statements on an opcode.
unfoldable pub op_of : ℕ → Op
op_of c =
    if c == 0
    then Op.halt
    else if c == 1
    then Op.load
    else if c == 2
    then Op.store
    else if c == 3
    then Op.add
    else if c == 4
    then Op.sub
    else if c == 5
    then Op.mul
    else if c == 6
    then Op.div
    else if c == 7
    then Op.cmp
    else if c == 8
    then Op.jmp
    else if c == 9
    then Op.jz
    else if c == 10
    then Op.jnz
    else if c == 11
    then Op.read
    else if c == 12
    then Op.write
    else if c == 13
    then Op.nop
    else if c == 14
    then Op.sys
    else Op.invalid

-- The number of an opcode, the other way round.
unfoldable pub code_of : Op → ℕ
code_of Op.halt = 0
code_of Op.load = 1
code_of Op.store = 2
code_of Op.add = 3
code_of Op.sub = 4
code_of Op.mul = 5
code_of Op.div = 6
code_of Op.cmp = 7
code_of Op.jmp = 8
code_of Op.jz = 9
code_of Op.jnz = 10
code_of Op.read = 11
code_of Op.write = 12
code_of Op.nop = 13
code_of Op.sys = 14
code_of Op.invalid = 15

-- An `Instruction` that nothing has been written to.
abbrev pub blank : Instruction
blank = record { opcode = 0; reg_a = 0; reg_b = 0; mode = 0; operand = 0; raw = 0; length = 0 }

unfoldable pub init_cpu : Cpu
init_cpu = record {
  ic = 0;
  r = replicate reg_count 0;
  sf = 0;
  mode = mode_supervisor;
  pi = pi_none;
  si = si_none;
  ti = ti_none;
  ptr = ptr_start;
}

unfoldable pub raise_program_interrupt : ℕ → Machine → Machine
raise_program_interrupt code m = record m { cpu = record (m.cpu) { pi = code } }

unfoldable pub raise_timer_interrupt : ℕ → Machine → Machine
raise_timer_interrupt code m =
    if leb code ti_expired then record m { cpu = record (m.cpu) { ti = code } } else m

unfoldable pub raise_system_interrupt : ℕ → Machine → Machine
raise_system_interrupt code m =
    if ltb code si_sys then record m { cpu = record (m.cpu) { si = code } } else m

unfoldable pub has_pending_interrupt : Machine → Bool
has_pending_interrupt m =
    not (m.cpu.pi == pi_none) || not (m.cpu.si == si_none) || not (m.cpu.ti == ti_none)

unfoldable pub clear_all_interrupts : Machine → Machine
clear_all_interrupts m = record m {
  cpu = record (m.cpu) { pi = pi_none; si = si_none; ti = ti_none };
}

-- What the C types hold: every register and cell fits its type, and the arrays have their sizes.
pub record IsValid (m : Machine) : Type 0 where
  pub regs : length m.cpu.r ≡ reg_count
  pub words : AllWord m.cpu.r
  pub ic_word : IsWord m.cpu.ic
  pub cells : length m.mem ≡ memory_size
  pub cell_words : AllWord m.mem
