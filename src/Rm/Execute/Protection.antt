-- ===== src/Rm/Execute/Protection.antt =====
-- `execute` of src/rm/cpu.c in user mode: the supervisor half of the memory and the mode are out of
-- reach.
use rm_vm.Common.{ℕ, zero, suc, ◌≡◌, ◌∙◌, ◌⊎◌, Bool, arith, drop, drop-set}
use rm_vm.Rm.State.{
  si_sys, raise_program_interrupt, Instruction, Machine, Op, op_of, supervisor_start, mode_user,
}
use rm_vm.Rm.Memory.{read, write}
use rm_vm.Rm.Execute.{load_mode, store_mode, jump_mode, exec_op, execute, finish}

-- What user code must not change: the mode and the supervisor cells; nor can it request a halt.
pub record Protected (m m' : Machine) : Type 0 where
  pub same_mode : m'.cpu.mode ≡ m.cpu.mode
  pub same_cells : drop supervisor_start m'.mem ≡ drop supervisor_start m.mem
  pub same_si : (m'.cpu.si ≡ m.cpu.si) ⊎ (m'.cpu.si ≡ si_sys)

pub Protected-trans : {m n o : Machine} → Protected m n → Protected n o → Protected m o
Protected-trans p q = record {
  same_mode = q.same_mode ∙ p.same_mode;
  same_cells = q.same_cells ∙ p.same_cells;
  same_si = ground (arith, p.same_si, q.same_si);
}

pub read-Protected : (m : Machine) (a : ℕ) → Protected m (read m a).1
unfolding read
read-Protected m a = ground arith

write-Protected : (m : Machine) (a v : ℕ) → m.cpu.mode ≡ mode_user → Protected m (write m a v)
unfolding write raise_program_interrupt
write-Protected m a v h = ground (arith, drop-set 256 m.mem a v)

load-Protected : (mode : ℕ) (i : Instruction) (m : Machine) → Protected m (load_mode mode i m)
unfolding load_mode raise_program_interrupt
load-Protected zero i m = ground arith
load-Protected (suc zero) i m = ground (arith, read-Protected m i.operand)
load-Protected (suc (suc zero)) i m =
    ground
      (arith, read-Protected m i.operand, read-Protected (read m i.operand).1 (read m i.operand).0)
load-Protected (suc (suc (suc n))) i m = ground arith

jump-Protected : (mode : ℕ) (i : Instruction) (m : Machine) → Protected m (jump_mode mode i m)
unfolding jump_mode raise_program_interrupt
jump-Protected zero i m = ground arith
jump-Protected (suc zero) i m = ground (arith, read-Protected m i.operand)
jump-Protected (suc (suc zero)) i m =
    ground
      (arith, read-Protected m i.operand, read-Protected (read m i.operand).1 (read m i.operand).0)
jump-Protected (suc (suc (suc n))) i m = ground arith

store-Protected :
    (mode : ℕ) (i : Instruction) (m : Machine)
    → m.cpu.mode ≡ mode_user
    → Protected m (store_mode mode i m)
unfolding store_mode raise_program_interrupt
store-Protected zero i m h = ground arith
store-Protected (suc zero) i m h = write-Protected m i.operand _ h
store-Protected (suc (suc zero)) i m h =
    let r = read-Protected m i.operand in
    Protected-trans r (write-Protected _ (read m i.operand).0 _ (r.same_mode ∙ h))
store-Protected (suc (suc (suc n))) i m h = ground arith

finish-Protected :
    (ov : Bool) (v : ℕ) (i : Instruction) (m : Machine) → Protected m (finish ov v i m)
unfolding finish raise_program_interrupt
finish-Protected ov v i m = ground arith

exec_op-Protected :
    (op : Op) (i : Instruction) (m : Machine)
    → m.cpu.mode ≡ mode_user
    → Protected m (exec_op op i m)
unfolding exec_op raise_program_interrupt
exec_op-Protected Op.load i m h = load-Protected i.mode i m
exec_op-Protected Op.store i m h = store-Protected i.mode i m h
exec_op-Protected Op.jmp i m h = jump-Protected i.mode i m
exec_op-Protected Op.add i m h = finish-Protected _ _ i m
exec_op-Protected Op.sub i m h = finish-Protected _ _ i m
exec_op-Protected Op.mul i m h = finish-Protected _ _ i m
exec_op-Protected op i m h = ground arith

-- In user mode, executing any instruction leaves the mode and every supervisor cell as they were, and
-- the system interrupt as it was or at `SI_SYS`.
pub execute-Protected :
    (i : Instruction) (m : Machine) → m.cpu.mode ≡ mode_user → Protected m (execute i m)
unfolding execute
execute-Protected i m h = exec_op-Protected (op_of i.opcode) i m h
