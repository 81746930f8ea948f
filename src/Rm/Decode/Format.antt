-- ===== src/Rm/Decode/Format.antt =====
-- `decode` of src/rm/cpu.c against the instruction format that the comment above it gives.
use rm_vm.Common.{
  ℕ, ◌+◌, ◌*◌, ◌/◌, ◌%◌, ◌^◌, ◌<◌, ◌≡◌, refl, ap, ◌∙◌, true, arith, ltb, ◌==◌, if◌then◌else◌,
  IsWord,
}
use rm_vm.Rm.State.{Instruction, Machine, Op, op_of, code_of}
use rm_vm.Rm.Decode.{pi_invalid_opcode, raise_program_interrupt, decode, dispatch}

-- The low nine bits of a word, by the format of its opcode.
tail : Op → ℕ → ℕ → ℕ → ℕ
tail Op.load b mode operand = mode * 128 + operand
tail Op.store b mode operand = mode * 128 + operand
tail Op.add b mode operand = b * 64
tail Op.sub b mode operand = b * 64
tail Op.mul b mode operand = b * 64
tail Op.div b mode operand = b * 64
tail Op.cmp b mode operand = b * 64
tail Op.jmp b mode operand = operand
tail Op.jz b mode operand = operand
tail Op.jnz b mode operand = operand
tail op b mode operand = 0

-- The word of an instruction.
pub encode : Op → ℕ → ℕ → ℕ → ℕ → ℕ
unfolding tail
encode op a b mode operand = code_of op * 4096 + a * 512 + tail op b mode operand

-- The fields that the format of an opcode has room for; the others are zero.
abbrev pub Fits : Op → ℕ → ℕ → ℕ → Type 0
Fits Op.load b mode operand = (b ≡ 0) × (mode < 4) × (operand < 128)
Fits Op.store b mode operand = (b ≡ 0) × (mode < 4) × (operand < 128)
Fits Op.add b mode operand = (b < 8) × (mode ≡ 0) × (operand ≡ 0)
Fits Op.sub b mode operand = (b < 8) × (mode ≡ 0) × (operand ≡ 0)
Fits Op.mul b mode operand = (b < 8) × (mode ≡ 0) × (operand ≡ 0)
Fits Op.div b mode operand = (b < 8) × (mode ≡ 0) × (operand ≡ 0)
Fits Op.cmp b mode operand = (b < 8) × (mode ≡ 0) × (operand ≡ 0)
Fits Op.jmp b mode operand = (b ≡ 0) × (mode ≡ 0) × (operand < 512)
Fits Op.jz b mode operand = (b ≡ 0) × (mode ≡ 0) × (operand < 512)
Fits Op.jnz b mode operand = (b ≡ 0) × (mode ≡ 0) × (operand < 512)
Fits Op.invalid b mode operand = ⊥
Fits op b mode operand = (b ≡ 0) × (mode ≡ 0) × (operand ≡ 0)

tail-lt : (op : Op) (b mode operand : ℕ) → Fits op b mode operand → tail op b mode operand < 512
unfolding tail
tail-lt Op.halt b mode operand h = omega arith
tail-lt op b mode operand h = omega arith

code_of-lt : (op : Op) (b mode operand : ℕ) → Fits op b mode operand → code_of op < 15
unfolding code_of
code_of-lt Op.halt b mode operand h = omega arith
code_of-lt Op.invalid b mode operand h = absurd h
code_of-lt op b mode operand h = omega arith

pub op_of-code_of : (op : Op) → op_of (code_of op) ≡ op
unfolding op_of code_of
op_of-code_of Op.halt = refl
op_of-code_of op = refl

abbrev decoded : Op → ℕ → ℕ → ℕ → ℕ → Instruction → Instruction
decoded op a b mode operand inst = record inst {
  raw = encode op a b mode operand;
  opcode = code_of op;
  reg_a = a;
  reg_b = b;
  mode = mode;
  operand = operand;
}

dispatch-encode :
    (op : Op) (a b mode operand : ℕ) (inst i : Instruction) (m : Machine)
    → a < 8
    → Fits op b mode operand
    → i ≡ record inst {
      raw = encode op a b mode operand;
      opcode = code_of op;
      reg_a = a;
      reg_b = 0;
      mode = 0;
      operand = 0;
    }
    → dispatch op (encode op a b mode operand) i m ≡ (true, decoded op a b mode operand inst, m)
unfolding dispatch encode code_of
dispatch-encode Op.halt a b mode operand inst i m ha f e = ground arith
dispatch-encode Op.invalid a b mode operand inst i m ha f e = absurd f
dispatch-encode op a b mode operand inst i m ha f e = ground arith

-- Decoding the word of an instruction of the format gives its fields back and leaves the machine
-- alone; `length` is the only field of `*inst` that is not written.
pub decode-encode :
    (op : Op) (a b mode operand : ℕ) (inst : Instruction) (m : Machine)
    → a < 8
    → Fits op b mode operand
    → decode (encode op a b mode operand) inst m ≡ (
      true,
      record inst {
        raw = encode op a b mode operand;
        opcode = code_of op;
        reg_a = a;
        reg_b = b;
        mode = mode;
        operand = operand;
      },
      m,
    )
unfolding decode encode
decode-encode op a b mode operand inst m ha f = rw code dispatched
  where
    low : tail op b mode operand < 512
    low = tail-lt op b mode operand f

    high : code_of op < 15
    high = code_of-lt op b mode operand f

    w : ℕ
    w = code_of op * 4096 + a * 512 + tail op b mode operand

    code : op_of (w / 2 ^ 12 % 16) ≡ op
    code = ap op_of (omega (arith, low, high)) ∙ op_of-code_of op

    dispatched :
        dispatch op w
          (record inst {
            raw = w;
            opcode = w / 2 ^ 12 % 16;
            reg_a = w / 2 ^ 9 % 8;
            mode = 0;
            operand = 0;
            reg_b = 0;
          })
          m
        ≡ (true, decoded op a b mode operand inst, m)
    dispatched =
        dispatch-encode op a b mode operand inst
          (record inst {
            raw = w;
            opcode = w / 2 ^ 12 % 16;
            reg_a = w / 2 ^ 9 % 8;
            mode = 0;
            operand = 0;
            reg_b = 0;
          })
          m ha f (ground (arith, low, high))

-- What every decoded instruction satisfies: its fields fit, and a jump has mode 0.
pub record IsDecoded (i : Instruction) : Type 0 where
  pub reg_a_fits : i.reg_a < 8
  pub reg_b_fits : i.reg_b < 8
  pub mode_fits : i.mode < 4
  pub operand_fits : i.operand < 512
  pub direct : (if i.opcode == 8 then i.mode else 0) ≡ 0

dispatch_total :
    (op : Op) (w : ℕ) (i : Instruction) (m : Machine)
    → op ≡ op_of i.opcode
    → i.reg_a < 8
    → i.reg_b ≡ 0
    → i.mode ≡ 0
    → i.operand ≡ 0
    → let (accepted, i', m') = dispatch op w i m in
      (accepted ≡ ltb i.opcode 15)
      × (m' ≡ (if ltb i.opcode 15 then m else raise_program_interrupt pi_invalid_opcode m))
      × IsDecoded i'
unfolding dispatch op_of
dispatch_total Op.halt w i m e ha hb hm ho = ground arith
dispatch_total op w i m e ha hb hm ho = ground arith

-- A 16-bit word is refused exactly where its opcode is 15, that is from 0xF000 up, with
-- `PI_INVALID_OPCODE`; any other is accepted, and leaves the machine alone. The fields of `*inst` fit
-- their ranges and a jump has mode 0, so no validation below the `switch` ever fires.
pub decode_total :
    (w : ℕ) (inst : Instruction) (m : Machine)
    → IsWord w
    → let (accepted, i, m') = decode w inst m in
      (accepted ≡ ltb w 0xF000)
      × (m' ≡ (if ltb w 0xF000 then m else raise_program_interrupt pi_invalid_opcode m))
      × IsDecoded i
unfolding decode
decode_total w inst m h = rw same total
  where
    i : Instruction
    i = record inst {
      raw = w;
      opcode = w / 2 ^ 12 % 16;
      reg_a = w / 2 ^ 9 % 8;
      mode = 0;
      operand = 0;
      reg_b = 0;
    }

    same : ltb w 0xF000 ≡ ltb i.opcode 15
    same = ground arith

    total :
        let (accepted, i', m') = dispatch (op_of i.opcode) w i m in
        (accepted ≡ ltb i.opcode 15)
        × (m' ≡ (if ltb i.opcode 15 then m else raise_program_interrupt pi_invalid_opcode m))
        × IsDecoded i'
    total =
        dispatch_total (op_of i.opcode) w i m refl (omega arith) (omega arith) (omega arith)
          (omega arith)
