-- ===== src/Vm/Machine.antt =====
-- src/vm/vm.c: the functions that run a Virtual Machine and that reach its memory; `createVM` is in
-- Kernel/Loader.antt. The log lines are left out but for `pseudo_runVM`, which does nothing else.
use rm_vm.Common.{
  ℕ, zero, suc, ◌+◌, ◌-◌, not, Option, none, some, List, [], ◌∷◌, ltb, leb, ◌==◌, if◌then◌else◌,
  get_or, set, memcpy,
}
use rm_vm.Rm.State.{blank}
use rm_vm.Rm.Disk.{HardDisk, disk_sector_count, disk_sector_size, read_disk}
use rm_vm.Vm.State.{VirtualMachine, vm_memory_size}
use rm_vm.Vm.Program.{execute_instruction}
use rm_vm.Vm.Cpu.{set_pc, fetch_word, run_instruction}

-- The loop of `loadDiskProgram` with `n` sectors to go: `offset`, the disk and the cells.
unfoldable pub load_sectors : ℕ → HardDisk → List ℕ → ℕ → ℕ → ℕ × HardDisk × List ℕ
load_sectors zero disk mem sector offset = (offset, disk, mem)
load_sectors (suc n) disk mem sector offset =
    let (got, disk') = read_disk disk sector in
    let room = vm_memory_size - offset in
    let copy_len = if ltb disk_sector_size room then disk_sector_size else room in
    if not (ltb offset vm_memory_size) then (offset, disk, mem) else elim got [
      | none ↦ (offset, disk', mem)
      | some buffer ↦
          let mem' = memcpy copy_len mem offset buffer 0 0 in
          let rest = load_sectors n disk' mem' (sector + 1) (offset + copy_len) in
          if ltb copy_len disk_sector_size then (offset + copy_len, disk', mem') else rest
    ]

abbrev pub load_disk_program : HardDisk → List ℕ → ℕ → ℕ × HardDisk × List ℕ
load_disk_program disk mem start_sector =
    load_sectors (disk_sector_count - start_sector) disk mem start_sector 0

-- `custom_runVM`. What `fptr` points to is not part of the program: it is what it does to the machine.
unfoldable pub custom_run_vm :
    Option (VirtualMachine → VirtualMachine) → VirtualMachine → VirtualMachine
unfolding run_instruction
custom_run_vm none vm = run_instruction vm
custom_run_vm (some fptr) vm = run_instruction (set_pc (fptr vm) 0)

unfoldable pub run_vm : Option (VirtualMachine → VirtualMachine) → VirtualMachine → VirtualMachine
unfolding custom_run_vm run_instruction
run_vm none vm = run_instruction vm
run_vm (some fptr) vm = custom_run_vm (some fptr) vm

-- The lines that the loop of `pseudo_runVM` logs.
pub data LogLine : Type 0 where
  invalid_at : ℕ → ℕ → LogLine
  executing : ℕ → ℕ → LogLine
  halt_reached : LogLine

-- The loop of `pseudo_runVM` with `n` ticks to go; the program counter is its own.
unfoldable pub pseudo_loop : ℕ → ℕ → VirtualMachine → List LogLine
unfolding fetch_word
pseudo_loop zero pc vm = []
pseudo_loop (suc n) pc vm =
    let raw = fetch_word vm pc in
    let (rc, inst) = execute_instruction raw blank in
    let line : LogLine = executing inst.opcode (pc + 2) in
    let rest = pseudo_loop n (pc + 2) vm in
    if not (rc == 0)
    then invalid_at (pc + 2) raw ∷ []
    else if inst.opcode == 0
    then line ∷ halt_reached ∷ []
    else line ∷ rest

abbrev pub pseudo_run_vm : VirtualMachine → List LogLine
pseudo_run_vm vm = pseudo_loop 20 0 vm

-- `readProcessMemory`: the cell that the pointer points to; `none` is a null pointer.
unfoldable pub read_process_memory : ℕ → List ℕ → Option ℕ
read_process_memory offset mem =
    if leb vm_memory_size offset then none else some (get_or mem offset 0)

unfoldable pub write_process_memory : ℕ → ℕ → List ℕ → List ℕ
write_process_memory offset val mem = if leb vm_memory_size offset then mem else set mem offset val
