-- ===== src/Vm/State.antt =====
-- include/registers.h, src/vm/vm.h and src/vm/vm_memory.h: the data of the Virtual Machine, with
-- `initVM_CPU` and `VMinitMemory`.
use rm_vm.Common.{
  ℕ, ◌≡◌, List, arith, length, replicate, length-replicate, All, All-replicate, IsByte, IsWord,
  AllWord,
}
use rm_vm.Rm.State.{reg_count, si_none}

abbrev pub vm_memory_size : ℕ
vm_memory_size = 255

-- `VM_CPU`
pub record VmCpu : Type 0 where
  pub r : List ℕ
  pub pc : ℕ
  pub sf : ℕ
  pub ds : ℕ
  pub cs : ℕ
  pub ptr : ℕ
  pub si : ℕ

-- `VirtualMachine` without `channel`, `instructions` and `memOffset`, which no function reads, and without
-- the function pointer, which is an argument of `run_vm`. `memory` is `memoryCells`.
pub record VirtualMachine : Type 0 where
  pub memory : List ℕ
  pub vm_cpu : VmCpu
  pub trap_code : ℕ
  pub trap_r0 : ℕ
  pub trap_r1 : ℕ
  pub trap_r2 : ℕ

unfoldable pub init_vm_cpu : VmCpu
init_vm_cpu = record { r = replicate reg_count 0; pc = 0; sf = 0; ds = 0; cs = 0; ptr = 0; si = 0 }

unfoldable pub vm_init_memory : List ℕ
vm_init_memory = replicate vm_memory_size 0

-- What the C types hold.
pub record IsValid (vm : VirtualMachine) : Type 0 where
  pub regs : length vm.vm_cpu.r ≡ reg_count
  pub words : AllWord vm.vm_cpu.r
  pub pc_word : IsWord vm.vm_cpu.pc
  pub cells : length vm.memory ≡ vm_memory_size
  pub bytes : All IsByte vm.memory

-- What `createVM` makes of a file id of 0.
unfoldable pub create_vm : VirtualMachine
unfolding init_vm_cpu vm_init_memory
create_vm = record {
  memory = vm_init_memory;
  vm_cpu = record init_vm_cpu { pc = 0 };
  trap_code = si_none;
  trap_r0 = 0;
  trap_r1 = 0;
  trap_r2 = 0;
}

pub create_vm-IsValid : IsValid create_vm
unfolding create_vm
create_vm-IsValid = record {
  regs = length-replicate 8 0;
  words = All-replicate IsWord 8 0 (omega arith);
  pc_word = omega arith;
  cells = length-replicate 255 0;
  bytes = All-replicate IsByte 255 0 (omega arith);
}
