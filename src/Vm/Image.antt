-- ===== src/Vm/Image.antt =====
-- `loadProgram` and `stuffInstruction` of src/vm/vm_memory.c.
pub mod Records
use rm_vm.Common.{
  ℕ, ◌+◌, ◌/◌, ◌%◌, ◌^◌, Option, none, some, List, [], ◌∷◌, ltb, leb, ◌==◌, if◌then◌else◌, set, u8,
}
use rm_vm.Rm.State.{Instruction, reg_count}
use rm_vm.Vm.State.{vm_memory_size}

-- What the nine assignments of `loadProgram` store for an instruction, in their order.
abbrev pub record_bytes : Instruction → List ℕ
record_bytes i =
    i.opcode
    ∷ i.reg_a
    ∷ i.reg_b
    ∷ i.mode
    ∷ u8 (i.operand / 256)
    ∷ u8 i.operand
    ∷ u8 (i.raw / 256)
    ∷ u8 i.raw
    ∷ i.length
    ∷ []

-- Assignments to one cell after the other.
unfoldable pub store_bytes : List ℕ → ℕ → List ℕ → List ℕ
store_bytes mem pc [] = mem
store_bytes mem pc (b ∷ bytes) = store_bytes (set mem pc b) (pc + 1) bytes

-- The loop of `loadProgram`, with the instructions that the array still holds: the code, and the
-- memory. `none` is an access behind the array.
unfoldable pub load_from : List Instruction → ℕ → List ℕ → Option (ℕ × List ℕ)
load_from [] pc mem = if ltb vm_memory_size (pc + 9) then some (1, mem) else none
load_from (i ∷ ins) pc mem =
    let mem' = store_bytes mem pc (record_bytes i) in
    let rest = load_from ins (pc + 9) mem' in
    if ltb vm_memory_size (pc + 9)
    then some (1, mem)
    else if i.opcode == 0
    then some (0, mem')
    else rest

abbrev pub load_program : List Instruction → List ℕ → Option (ℕ × List ℕ)
load_program ins mem = load_from ins 0 mem

-- `stuffInstruction`: the code, and the instruction. `ins` is not null.
unfoldable pub stuff_instruction : ℕ → Instruction → ℕ × Instruction
stuff_instruction w ins =
    let i = record ins { raw = w; opcode = w / 2 ^ 12 % 16 } in
    let j = record i { reg_a = w / 2 ^ 9 % 8 } in
    let k = record j { reg_b = w / 2 ^ 6 % 8 } in
    let l = record k { mode = w / 2 ^ 4 % 4 } in
    if ltb 14 i.opcode
    then (1, i)
    else if leb reg_count j.reg_a
    then (2, j)
    else if leb reg_count k.reg_b
    then (3, k)
    else if ltb 3 l.mode
    then (4, l)
    else (0, record l { operand = w % 16; length = 1 })
