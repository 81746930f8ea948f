-- ===== src/Rm/Execute/Alu.antt =====
-- The arithmetic of `execute` in src/rm/cpu.c against exact arithmetic.
use rm_vm.Rm.Execute.Bounds.{reg-IsWord}
use rm_vm.Rm.State.{
  op_of, pi_overflow, pi_divzero, IsValid, Machine, Instruction, raise_program_interrupt, Op,
}
use rm_vm.Common.{
  ℕ, zero, suc, ◌+◌, ◌*◌, ◌/◌, ◌%◌, ◌^◌, ◌≤◌, ◌<◌, ◌≡◌, refl, sym, ◌∙◌, ◌⊎◌, inl, inr, Bool, true,
  false, not, ◌&&◌, arith, ltb, leb, ◌==◌, if◌then◌else◌, Bool-cases, ltb→lt, ltb→ge, length, set,
  get_or-set_self, uint16_max, bit,
}
use native.Mathlib.Nat.{mul-le-mul_right}
use rm_vm.Rm.Execute.{execute, reg, finish, exec_op, exec_div, flags}

mul_over : (a n : ℕ) → 65535 / suc n < a → 65535 < a * suc n
mul_over a n h = grind (arith, mul-le-mul_right (suc n) h)

mul_within : (a n : ℕ) → a ≤ 65535 / suc n → a * suc n ≤ 65535
mul_within a n h = grind (arith, mul-le-mul_right (suc n) h)

-- The test for an overflow of MUL is exact.
mul_test : (a b : ℕ) → (not (b == 0) && ltb (uint16_max / b) a) ≡ leb 65536 (a * b)
mul_test a zero = grind arith
mul_test a (suc n) = elim (Bool-cases (ltb (65535 / suc n) a)) [
  | inl lt ↦ ground (arith, mul_over a n (ltb→lt _ _ lt))
  | inr ge ↦ ground (arith, mul_within a n (ltb→ge _ _ ge))
]

flags_lem :
    (base v : ℕ)
    → (base ≡ 0) ⊎ (base ≡ 12)
    → v < 65536
    → (bit (flags base v) 0 ≡ (v == 0))
      × (bit (flags base v) 1 ≡ leb 32768 v)
      × (bit (flags base v) 2 ≡ (base == 12))
      × (bit (flags base v) 3 ≡ (base == 12))
unfolding flags
flags_lem base v h hv = ground arith

-- What an operation owes to exact arithmetic on `a` and `b`: `v` is the register afterwards, and
-- `over` says that the exact result does not fit a register. Both are determined, as `v < 65536`.
abbrev pub Exact : Op → ℕ → ℕ → ℕ → Bool → Type 0
Exact Op.add a b v over = v + (if over then 65536 else 0) ≡ a + b
Exact Op.sub a b v over = v + b ≡ a + (if over then 65536 else 0)
Exact Op.mul a b v over = (v ≡ a * b % 65536) × (over ≡ leb 65536 (a * b))
Exact op a b v over = ⊥

abbrev pub IsArith : Op → Type 0
IsArith Op.add = Unit {0}
IsArith Op.sub = Unit {0}
IsArith Op.mul = Unit {0}
IsArith op = ⊥

-- The C code defines the result: the product of MUL is an `int`.
abbrev pub IsDefined : Op → ℕ → ℕ → Type 0
IsDefined Op.mul a b = a * b < 2 ^ 31
IsDefined op a b = Unit {0}

-- The outcome of an arithmetic instruction: the result, the four flags and the interrupt.
pub record Computed (op : Op) (i : Instruction) (m m' : Machine) : Type 0 where
  pub exact : Exact op (reg m i.reg_a) (reg m i.reg_b) (reg m' i.reg_a) (bit m'.cpu.sf 3)
  pub fits : reg m' i.reg_a < 65536
  pub zero_flag : bit m'.cpu.sf 0 ≡ (reg m' i.reg_a == 0)
  pub negative_flag : bit m'.cpu.sf 1 ≡ leb 32768 (reg m' i.reg_a)
  pub overflow_flag : bit m'.cpu.sf 2 ≡ bit m'.cpu.sf 3
  pub interrupt : m'.cpu.pi ≡ (if bit m'.cpu.sf 3 then pi_overflow else m.cpu.pi)
  pub others : m'.cpu.r ≡ set m.cpu.r i.reg_a (reg m' i.reg_a)
  pub memory : m'.mem ≡ m.mem

-- The result and the flags that `finish` leaves, by its test and its value.
finish_lem :
    (over : Bool) (v : ℕ) (i : Instruction) (m : Machine)
    → v < 65536
    → i.reg_a < length m.cpu.r
    → let m' = finish over v i m in
      (reg m' i.reg_a ≡ v)
      × (bit m'.cpu.sf 0 ≡ (v == 0))
      × (bit m'.cpu.sf 1 ≡ leb 32768 v)
      × (bit m'.cpu.sf 2 ≡ over)
      × (bit m'.cpu.sf 3 ≡ over)
      × (m'.cpu.pi ≡ (if over then pi_overflow else m.cpu.pi))
      × (m'.cpu.r ≡ set m.cpu.r i.reg_a v)
      × (m'.mem ≡ m.mem)
unfolding finish raise_program_interrupt
finish_lem true v i m hv hr =
    ground (arith, flags_lem 12 v (inr refl) hv, get_or-set_self m.cpu.r i.reg_a v 0 hr)
finish_lem false v i m hv hr =
    ground (arith, flags_lem 0 v (inl refl) hv, get_or-set_self m.cpu.r i.reg_a v 0 hr)

finish-Computed :
    (op : Op) (over : Bool) (v : ℕ) (i : Instruction) (m : Machine)
    → v < 65536
    → i.reg_a < length m.cpu.r
    → Exact op (reg m i.reg_a) (reg m i.reg_b) v over
    → Computed op i m (finish over v i m)
finish-Computed op over v i m hv hr e = record {
  exact = rw (f.0, f.4) e;
  fits = rw f.0 hv;
  zero_flag = rw f.0 f.1;
  negative_flag = rw f.0 f.2;
  overflow_flag = f.3 ∙ sym f.4;
  interrupt = rw f.4 f.5;
  others = rw f.0 f.6;
  memory = f.7;
}
  where
    f :
        let m' = finish over v i m in
        (reg m' i.reg_a ≡ v)
        × (bit m'.cpu.sf 0 ≡ (v == 0))
        × (bit m'.cpu.sf 1 ≡ leb 32768 v)
        × (bit m'.cpu.sf 2 ≡ over)
        × (bit m'.cpu.sf 3 ≡ over)
        × (m'.cpu.pi ≡ (if over then pi_overflow else m.cpu.pi))
        × (m'.cpu.r ≡ set m.cpu.r i.reg_a v)
        × (m'.mem ≡ m.mem)
    f = finish_lem over v i m hv hr

exec_op-Computed :
    (op : Op) (i : Instruction) {m : Machine}
    → IsArith op
    → i.reg_a < 8
    → IsValid m
    → Computed op i m (exec_op op i m)
unfolding exec_op
exec_op-Computed Op.add i {m} k ha h =
    finish-Computed Op.add _ _ i m (omega arith) (omega (arith, h.regs))
      (ground (arith, reg-IsWord i.reg_a h, reg-IsWord i.reg_b h))
exec_op-Computed Op.sub i {m} k ha h =
    finish-Computed Op.sub _ _ i m (omega arith) (omega (arith, h.regs))
      (ground (arith, reg-IsWord i.reg_a h, reg-IsWord i.reg_b h))
exec_op-Computed Op.mul i {m} k ha h =
    finish-Computed Op.mul _ _ i m (omega arith) (omega (arith, h.regs))
      (refl, mul_test (reg m i.reg_a) (reg m i.reg_b))
exec_op-Computed op i k ha h = absurd k

-- In a valid machine, ADD, SUB and, where the product is below 2^31, MUL compute the exact sum, difference or product of their registers
-- modulo 2^16. Overflow and carry are set, and `PI_OVERFLOW` is raised, exactly where the exact result
-- does not fit the register; zero and negative describe the register afterwards. No other register and
-- no memory cell changes.
pub execute-Computed :
    (i : Instruction) {m : Machine}
    → IsArith (op_of i.opcode)
    → i.reg_a < 8
    → IsValid m
    → IsDefined (op_of i.opcode) (reg m i.reg_a) (reg m i.reg_b)
    → Computed (op_of i.opcode) i m (execute i m)
unfolding execute
execute-Computed i k ha h d = exec_op-Computed (op_of i.opcode) i k ha h

-- In a valid machine, DIV by a register that is not 0 leaves the quotient, and zero and negative describe it; DIV by 0 raises
-- `PI_DIVZERO`, keeps the register and clears the flags. Overflow and carry are clear in both cases.
pub execute-div :
    (i : Instruction) {m : Machine}
    → op_of i.opcode ≡ Op.div
    → i.reg_a < 8
    → IsValid m
    → let a = reg m i.reg_a in
      let b = reg m i.reg_b in
      let m' = execute i m in
      (reg m' i.reg_a ≡ (if b == 0 then a else a / b))
      × (m'.cpu.pi ≡ (if b == 0 then pi_divzero else m.cpu.pi))
      × (bit m'.cpu.sf 0 ≡ (not (b == 0) && (a / b == 0)))
      × (bit m'.cpu.sf 1 ≡ (not (b == 0) && leb 32768 (a / b)))
      × (bit m'.cpu.sf 2 ≡ false)
      × (bit m'.cpu.sf 3 ≡ false)
      × (m'.mem ≡ m.mem)
unfolding execute exec_op exec_div raise_program_interrupt
execute-div i {m} hi ha v = rw hi (elim (Bool-cases (reg m i.reg_b == 0)) [
  | inl z ↦ rw (z, exec_div) (refl, refl, refl, refl, refl, refl, refl)
  | inr nz ↦
      rw (nz, exec_div)
        (
          get_or-set_self m.cpu.r i.reg_a (reg m i.reg_a / reg m i.reg_b) 0
              (omega (arith, ha, v.regs)),
          refl,
          f.0,
          f.1,
          f.2,
          f.3,
          refl,
        )
])
  where
    f :
        let q = reg m i.reg_a / reg m i.reg_b in
        (bit (flags 0 q) 0 ≡ (q == 0))
        × (bit (flags 0 q) 1 ≡ leb 32768 q)
        × (bit (flags 0 q) 2 ≡ (0 == 12))
        × (bit (flags 0 q) 3 ≡ (0 == 12))
    f = flags_lem 0 (reg m i.reg_a / reg m i.reg_b) (inl refl) (grind (arith, reg-IsWord i.reg_a v))
