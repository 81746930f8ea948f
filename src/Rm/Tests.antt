-- ===== src/Rm/Tests.antt =====
-- Runs of the Real Machine, and the theorems about it at concrete machines.
use rm_vm.Common.{
  ℕ, ◌+◌, ◌<◌, ◌≡◌, refl, true, false, none, some, [], ◌∷◌, arith, if◌then◌else◌, length, get_or,
  set, replicate, length-replicate, All-replicate, IsWord, bit,
}
use rm_vm.Rm.State.{
  pi_divzero, code_of, Instruction, Machine, Op, op_of, IsValid, init_cpu, blank, mode_user, si_sys,
  si_read, si_write, memory_size, pi_invalid_opcode, tick_limit, raise_program_interrupt,
}
use rm_vm.Rm.Memory.{read, write, init_memory}
use rm_vm.Rm.Memory.Access.{access_lem}
use rm_vm.Rm.Decode.{decode}
use rm_vm.Rm.Decode.Format.{encode, decode-encode, decode_total, IsDecoded}
use rm_vm.Rm.Execute.{execute}
use rm_vm.Rm.Execute.Branch.{execute-cmp}
use rm_vm.Rm.Execute.Alu.{execute-div, Computed, execute-Computed}
use rm_vm.Rm.Cycle.{
  fetch, handle_interrupts, exec_one_cycle, run_until_interrupt, exec_cycle, interrupted,
}
use rm_vm.Rm.Cycle.Termination.{run_until_interrupt_total}
use rm_vm.Rm.Timer.Period.{ticks, ticks_lem}
use rm_vm.Rm.Timer.{init_timer}
use rm_vm.Rm.Cycle.Livelock.{exec_cycle_sys_livelock, rounds, settled}
use rm_vm.Rm.Cycle.UserMode.{round, later, start, Confined, Reach-Confined}
use rm_vm.Rm.Channel.{init_channel_device}
use rm_vm.Rm.Io.{Io, io_init, io_read, io_write}
use rm_vm.Rm.Io.Transfer.{io_lem}
use rm_vm.Rm.Disk.{disk_read_word, sector_at, HardDisk, init_disk, read_disk, write_disk}
use rm_vm.Rm.Disk.RoundTrip.{read_disk-write_disk}

abbrev fresh : Machine
fresh = record { cpu = init_cpu; mem = init_memory }

fresh-IsValid : IsValid fresh
unfolding init_cpu init_memory
fresh-IsValid = record {
  regs = length-replicate 8 0;
  words = All-replicate IsWord 8 0 (omega arith);
  ic_word = omega arith;
  cells = length-replicate 512 0;
  cell_words = All-replicate IsWord 512 0 (omega arith);
}

-- LOAD R0,#1; LOAD R1,#2; ADD R0,R1; HALT, with two registers and five cells.
abbrev sum_program : Machine
sum_program = record {
  cpu = record { ic = 0; r = 0 ∷ 0 ∷ []; sf = 0; mode = 1; pi = 0; si = 0; ti = 0; ptr = 240 };
  mem = 0x1001 ∷ 0x1202 ∷ 0x3040 ∷ 0x0000 ∷ 0 ∷ [];
}

abbrev sum_halted : Machine
sum_halted = record sum_program {
  cpu = record { ic = 4; r = 3 ∷ 2 ∷ []; sf = 0; mode = 1; pi = 0; si = 3; ti = 0; ptr = 240 };
}

sum_program_runs : exec_cycle 1 sum_program ≡ some sum_halted
unfolding exec_cycle run_until_interrupt interrupted exec_one_cycle fetch decode execute read
    handle_interrupts op_of
sum_program_runs = refl

-- ADD R0,R1
abbrev add_word : Instruction
add_word = record {
  opcode = 3;
  reg_a = 0;
  reg_b = 1;
  mode = 0;
  operand = 0;
  raw = 0x3040;
  length = 0;
}

add_word-IsDecoded : IsDecoded add_word
add_word-IsDecoded = record {
  reg_a_fits = omega arith;
  reg_b_fits = omega arith;
  mode_fits = omega arith;
  operand_fits = omega arith;
  direct = refl;
}

-- A machine in user mode, at the start of its memory.
abbrev user : Machine
user = record fresh { cpu = record init_cpu { mode = mode_user } }

user-IsValid : IsValid user
user-IsValid = record {
  regs = fresh-IsValid.regs;
  words = fresh-IsValid.words;
  ic_word = fresh-IsValid.ic_word;
  cells = fresh-IsValid.cells;
  cell_words = fresh-IsValid.cell_words;
}

abbrev waiting : Machine
waiting = record fresh { cpu = record init_cpu { si = si_sys } }

access_lem_example :
    ((read (write user 200 7) 200).0 ≡ 7)
    × ((read user 200).1.cpu.pi ≡ user.cpu.pi)
    × ((write user 200 7).cpu.pi ≡ user.cpu.pi)
    × ((read user 200).1.mem ≡ user.mem)
    × ((write user 200 7).mem ≡ set user.mem 200 7)
unfolding init_cpu
access_lem_example = access_lem user 200 200 7 fresh-IsValid.cells

decode-encode_example : decode (encode Op.load 1 0 2 5) blank fresh ≡ (
  true,
  record blank {
    raw = encode Op.load 1 0 2 5;
    opcode = code_of Op.load;
    reg_a = 1;
    reg_b = 0;
    mode = 2;
    operand = 5;
  },
  fresh,
)
decode-encode_example = decode-encode Op.load 1 0 2 5 blank fresh (omega arith) (omega arith)

decode_total_example :
    let (accepted, i, m') = decode 0xF123 blank fresh in
    (accepted ≡ false) × (m' ≡ raise_program_interrupt pi_invalid_opcode fresh) × IsDecoded i
decode_total_example = decode_total 0xF123 blank fresh (omega arith)

execute-Computed_example : Computed (op_of 3) add_word fresh (execute add_word fresh)
unfolding op_of
execute-Computed_example = execute-Computed add_word {m = fresh} tt (omega arith) fresh-IsValid tt

run_until_interrupt_total_example :
    (t' : ℕ) × (m' : Machine) × (run_until_interrupt (tick_limit + 1) 9 fresh ≡ some (t', m'))
    × (interrupted m' ≡ true)
    × (t' < tick_limit)
    × IsValid m'
run_until_interrupt_total_example = run_until_interrupt_total 9 (omega arith) fresh-IsValid

user_round :
    (t' : ℕ) × (m' : Machine) × (run_until_interrupt (tick_limit + 1) 0 user ≡ some (t', m'))
    × (interrupted m' ≡ true)
    × (t' < tick_limit)
    × IsValid m'
user_round = run_until_interrupt_total 0 (omega arith) user-IsValid

-- One round of a program in user mode.
Reach-Confined_example : Confined user (handle_interrupts user_round.1).1
unfolding init_cpu
Reach-Confined_example =
    Reach-Confined user-IsValid refl (omega arith)
      (later 0 (omega arith) start (round _ _ _ user_round.2 refl))

exec_cycle_sys_livelock_example :
    (exec_cycle 1000 waiting ≡ none) × (rounds 7 0 waiting ≡ some (0, settled 7 waiting))
exec_cycle_sys_livelock_example = exec_cycle_sys_livelock 1000 7 waiting refl

abbrev blank_disk : HardDisk
blank_disk = init_disk 0

read_disk-write_disk_example :
    let (done, d') = write_disk blank_disk 3 (1 ∷ 2 ∷ []) in
    (done ≡ true)
    × ((read_disk d' 3).0 ≡ some (if done then 1 ∷ 2 ∷ [] else sector_at blank_disk 3))
    × (d'.busy ≡ false)
    × ((read_disk d' 3).1.busy ≡ false)
    × (d' ≡ (if done then d' else blank_disk))
unfolding init_disk write_disk
read_disk-write_disk_example =
    read_disk-write_disk blank_disk 3 3 (1 ∷ 2 ∷ []) (length-replicate 128 (replicate 16 0))

-- The device after `IOinit`, on a machine that has run nothing.
abbrev device : Io
device = io_init (record {
  machine = fresh;
  hard_disk = init_disk 0;
  disk_channel = init_channel_device;
  disk_initialized = false;
})

device_ready : device.disk_initialized ≡ true
unfolding io_init
device_ready = refl

device_cells : length device.machine.mem ≡ memory_size
unfolding io_init
device_cells = fresh-IsValid.cells

io_lem_example :
    ((s' : Io) × (io_read 3 300 2 device ≡ some (true, s'))
      × (s'.machine.cpu.si ≡ si_read)
      × (get_or s'.machine.mem 301 0 ≡ disk_read_word device.hard_disk 4))
    × ((s' : Io) × (io_write 3 300 2 device ≡ some (true, s'))
        × (s'.hard_disk ≡ device.hard_disk)
        × (s'.machine.mem ≡ device.machine.mem)
        × (s'.machine.cpu.si ≡ si_write))
io_lem_example = io_lem 3 300 2 301 device device_ready device_cells (omega arith) (omega arith)

-- DIV, CMP, JZ and JNZ of the registers 0 and 1.
abbrev word_with : ℕ → Instruction
word_with code = record add_word { opcode = code; operand = 9 }

execute-div_example :
    let m' = execute (word_with 6) fresh in
    (get_or m'.cpu.r 0 0 ≡ 0)
    × (m'.cpu.pi ≡ pi_divzero)
    × (bit m'.cpu.sf 0 ≡ false)
    × (bit m'.cpu.sf 1 ≡ false)
    × (bit m'.cpu.sf 2 ≡ false)
    × (bit m'.cpu.sf 3 ≡ false)
    × (m'.mem ≡ fresh.mem)
unfolding op_of init_cpu replicate
execute-div_example = execute-div (word_with 6) refl (omega arith) fresh-IsValid

execute-cmp_example :
    let m' = execute (word_with 7) sum_program in
    ((execute (word_with 9) m').cpu.ic ≡ 9)
    × ((execute (word_with 10) m').cpu.ic ≡ 0)
    × ((execute (word_with 9) m').cpu.r ≡ sum_program.cpu.r)
    × ((execute (word_with 10) m').cpu.r ≡ sum_program.cpu.r)
    × ((execute (word_with 9) m').mem ≡ sum_program.mem)
    × ((execute (word_with 10) m').mem ≡ sum_program.mem)
unfolding op_of
execute-cmp_example =
    execute-cmp (word_with 7) (word_with 9) (word_with 10) sum_program refl refl refl

ticks_lem_example :
    let t = ticks 25 (init_timer 10) in
    (t.counter ≡ 5) × (t.interrupt_flag ≡ true) × (t.limit ≡ 10) × (t.active ≡ true)
ticks_lem_example = ticks_lem 25 10 (omega arith) (omega arith)
