-- ===== src/Rm/Memory.antt =====
-- src/rm/memory.c: the accesses of the Real Machine to its memory.
pub mod Access
use rm_vm.Common.{
  ℕ, List, Option, none, some, ◌&&◌, ◌==◌, leb, ltb, if◌then◌else◌, get_or, set, replicate,
}
use rm_vm.Rm.State.{
  Machine, memory_size, user_memory_end, supervisor_start, supervisor_end, mode_supervisor,
  pi_invalid_address, raise_program_interrupt,
}

unfoldable pub init_memory : List ℕ
init_memory = replicate memory_size 0

-- The interrupt goes through `realCPU`, so a refused access changes the machine.
unfoldable pub write : Machine → ℕ → ℕ → Machine
unfolding raise_program_interrupt
write m address value =
    if leb address user_memory_end
    then record m { mem = set m.mem address value }
    else if leb supervisor_start address && leb address supervisor_end
    then (if m.cpu.mode == mode_supervisor
        then record m { mem = set m.mem address value }
        else raise_program_interrupt pi_invalid_address m)
    else raise_program_interrupt pi_invalid_address m

unfoldable pub read : Machine → ℕ → ℕ × Machine
unfolding raise_program_interrupt
read m address =
    if leb address user_memory_end
    then (get_or m.mem address 0, m)
    else if leb supervisor_start address && leb address supervisor_end
    then (if m.cpu.mode == mode_supervisor
        then (get_or m.mem address 0, m)
        else (0, raise_program_interrupt pi_invalid_address m))
    else (0, raise_program_interrupt pi_invalid_address m)

-- `readUser` and `readSupervisor` index the array with no test: `none` is an access out of bounds.
unfoldable pub read_raw : List ℕ → ℕ → Option ℕ
read_raw mem addr = if ltb addr memory_size then some (get_or mem addr 0) else none

-- `writeUser` and `writeSupervisor`
unfoldable pub write_raw : List ℕ → ℕ → ℕ → Option (List ℕ)
write_raw mem addr value = if ltb addr memory_size then some (set mem addr value) else none
