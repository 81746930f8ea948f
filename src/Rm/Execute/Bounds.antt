-- ===== src/Rm/Execute/Bounds.antt =====
-- `execute` of src/rm/cpu.c keeps every register and cell within its C type.
use rm_vm.Rm.Decode.Format.{IsDecoded}
use rm_vm.Common.{
  ℕ, zero, suc, ◌/◌, ◌<◌, ◌≡◌, refl, ◌∙◌, inl, inr, Bool, true, false, arith, ◌==◌, Bool-cases,
  get_or, set, length-set, All-set, All-get_or, IsWord,
}
use rm_vm.Rm.State.{op_of, Op, raise_program_interrupt, Machine, IsValid}
use rm_vm.Rm.Memory.{read, write}
use rm_vm.Rm.Execute.{
  Instruction, raise_program_interrupt, execute, exec_op, exec_div, store_mode, finish, set_ic,
  jump_mode, load_mode, reg, set_reg,
}

IsValid-set_reg : {m : Machine} (i v : ℕ) → IsWord v → IsValid m → IsValid (set_reg m i v)
IsValid-set_reg {m} i v hv h = record {
  regs = length-set m.cpu.r i v ∙ h.regs;
  words = All-set IsWord m.cpu.r i v h.words hv;
  ic_word = h.ic_word;
  cells = h.cells;
  cell_words = h.cell_words;
}

IsValid-set_mem :
    {m : Machine} (a v : ℕ) → IsWord v → IsValid m → IsValid (record m { mem = set m.mem a v })
IsValid-set_mem {m} a v hv h = record {
  regs = h.regs;
  words = h.words;
  ic_word = h.ic_word;
  cells = length-set m.mem a v ∙ h.cells;
  cell_words = All-set IsWord m.mem a v h.cell_words hv;
}

pub reg-IsWord : {m : Machine} (i : ℕ) → IsValid m → IsWord (reg m i)
reg-IsWord {m} i h = All-get_or IsWord m.cpu.r i 0 h.words (omega arith)

pub cell-IsWord : {m : Machine} (a : ℕ) → IsValid m → IsWord (get_or m.mem a 0)
cell-IsWord {m} a h = All-get_or IsWord m.mem a 0 h.cell_words (omega arith)

abbrev pub Keeps : Machine → Machine → Type 0
Keeps m m' = (m'.cpu.r ≡ m.cpu.r) × (m'.cpu.ic ≡ m.cpu.ic) × (m'.mem ≡ m.mem)

pub IsValid-keeps : {m m' : Machine} → Keeps m m' → IsValid m → IsValid m'
IsValid-keeps (er, ei, em) h = record {
  regs = rw er h.regs;
  words = rw er h.words;
  ic_word = rw ei h.ic_word;
  cells = rw em h.cells;
  cell_words = rw em h.cell_words;
}

pub IsValid-raise : {m : Machine} (code : ℕ) → IsValid m → IsValid (raise_program_interrupt code m)
unfolding raise_program_interrupt
IsValid-raise code h = IsValid-keeps (refl, refl, refl) h

read-Keeps : (m : Machine) (a : ℕ) → Keeps m (read m a).1
unfolding read
read-Keeps m a = ground arith

pub read-IsValid : {m : Machine} (a : ℕ) → IsValid m → IsValid (read m a).1 × IsWord (read m a).0
unfolding read
read-IsValid {m} a h = (IsValid-keeps (read-Keeps m a) h, ground (arith, cell-IsWord a h))

write-IsValid : {m : Machine} (a v : ℕ) → IsWord v → IsValid m → IsValid (write m a v)
unfolding write
write-IsValid {m} a v hv h = ground (arith, IsValid-set_mem a v hv h)

IsValid-set_ic : {m : Machine} (v : ℕ) → IsWord v → IsValid m → IsValid (set_ic m v)
IsValid-set_ic v hv h = record {
  regs = h.regs;
  words = h.words;
  ic_word = hv;
  cells = h.cells;
  cell_words = h.cell_words;
}

-- Each addressing mode hands a word on: immediate, direct, indirect.
load-IsValid :
    (mode : ℕ) (i : Instruction) {m : Machine}
    → i.operand < 512
    → IsValid m
    → IsValid (load_mode mode i m)
unfolding load_mode raise_program_interrupt
load-IsValid zero i {m} o h = IsValid-set_reg i.reg_a i.operand (omega arith) h
load-IsValid (suc zero) i {m} o h =
    let (h1, w1) = read-IsValid i.operand h in IsValid-set_reg i.reg_a _ w1 h1
load-IsValid (suc (suc zero)) i {m} o h =
    let (h1, w1) = read-IsValid i.operand h in
    let (h2, w2) = read-IsValid (read m i.operand).0 h1 in IsValid-set_reg i.reg_a _ w2 h2
load-IsValid (suc (suc (suc n))) i {m} o h = IsValid-keeps (refl, refl, refl) h

jump-IsValid :
    (mode : ℕ) (i : Instruction) {m : Machine}
    → i.operand < 512
    → IsValid m
    → IsValid (jump_mode mode i m)
unfolding jump_mode raise_program_interrupt
jump-IsValid zero i {m} o h = IsValid-set_ic i.operand (omega arith) h
jump-IsValid (suc zero) i {m} o h =
    let (h1, w1) = read-IsValid i.operand h in IsValid-set_ic _ w1 h1
jump-IsValid (suc (suc zero)) i {m} o h =
    let (h1, w1) = read-IsValid i.operand h in
    let (h2, w2) = read-IsValid (read m i.operand).0 h1 in IsValid-set_ic _ w2 h2
jump-IsValid (suc (suc (suc n))) i {m} o h = IsValid-keeps (refl, refl, refl) h

store-IsValid :
    (mode : ℕ) (i : Instruction) {m : Machine} → IsValid m → IsValid (store_mode mode i m)
unfolding store_mode raise_program_interrupt
store-IsValid zero i {m} h = IsValid-keeps (refl, refl, refl) h
store-IsValid (suc zero) i {m} h = write-IsValid i.operand _ (reg-IsWord i.reg_a h) h
store-IsValid (suc (suc zero)) i {m} h =
    let (h1, w1) = read-IsValid i.operand h in
    write-IsValid (read m i.operand).0 _ (reg-IsWord i.reg_a h1) h1
store-IsValid (suc (suc (suc n))) i {m} h = IsValid-keeps (refl, refl, refl) h

finish-IsValid :
    (ov : Bool) (v : ℕ) (i : Instruction) {m : Machine}
    → IsWord v
    → IsValid m
    → IsValid (finish ov v i m)
unfolding finish raise_program_interrupt
finish-IsValid true v i hv h = IsValid-keeps (refl, refl, refl) (IsValid-set_reg i.reg_a v hv h)
finish-IsValid false v i hv h = IsValid-keeps (refl, refl, refl) (IsValid-set_reg i.reg_a v hv h)

div-IsValid : (i : Instruction) {m : Machine} → IsValid m → IsValid (exec_div i m)
unfolding exec_div raise_program_interrupt
div-IsValid i {m} h = elim (Bool-cases (reg m i.reg_b == 0)) [
  | inl e ↦ rw (e, exec_div) (IsValid-keeps (refl, refl, refl) h)
  | inr e ↦ rw (e, exec_div) (IsValid-keeps (refl, refl, refl) (IsValid-set_reg i.reg_a _ small h))
]
  where
    small : IsWord (reg m i.reg_a / reg m i.reg_b)
    small = grind (arith, reg-IsWord i.reg_a h)

exec_op-IsValid :
    (op : Op) (i : Instruction) {m : Machine}
    → i.operand < 512
    → IsValid m
    → IsValid (exec_op op i m)
unfolding exec_op raise_program_interrupt
exec_op-IsValid Op.load i o h = load-IsValid i.mode i o h
exec_op-IsValid Op.store i o h = store-IsValid i.mode i h
exec_op-IsValid Op.jmp i o h = jump-IsValid i.mode i o h
exec_op-IsValid Op.jz i o h = ground (arith, IsValid-set_ic i.operand)
exec_op-IsValid Op.jnz i o h = ground (arith, IsValid-set_ic i.operand)
exec_op-IsValid Op.add i o h = finish-IsValid _ _ i (omega arith) h
exec_op-IsValid Op.sub i o h = finish-IsValid _ _ i (omega arith) h
exec_op-IsValid Op.mul i o h = finish-IsValid _ _ i (omega arith) h
exec_op-IsValid Op.div i o h = div-IsValid i h
exec_op-IsValid Op.nop i o h = h
exec_op-IsValid op i {m} o h = IsValid-keeps (ground arith) h

-- Executing a decoded instruction keeps the sizes of the register file and the memory, and every
-- register, the instruction counter and every cell within 16 bits.
pub execute-IsValid :
    (i : Instruction) {m : Machine} → IsDecoded i → IsValid m → IsValid (execute i m)
unfolding execute
execute-IsValid i d h = exec_op-IsValid (op_of i.opcode) i d.operand_fits h
