-- ===== src/Lib.antt =====
-- RM-VM: a Real Machine that is emulated in C, a Virtual Machine that runs on it, and a kernel.
--
-- The Real Machine (src/rm, include) has a processor, `realCPU`, and 512 words of memory,
-- `physicalMemory`. `execCycle` fetches, decodes and executes until an interrupt is latched (program,
-- system or timer), and `handleInterrupts` clears it or stops. Beside it stand a timer, a disk of 128
-- sectors of 16 bytes, and a channel device that moves words between memory and disk. The Virtual
-- Machine (src/vm) interprets the same instruction words from 255 bytes of its own and returns to the
-- kernel with a trap. The kernel (src/kernel) loads programs from files on the disk into a Virtual
-- Machine, swaps its memory out and in, hands out counted resources, and runs a table of processes in cycles.
--
-- The files:
--   Common: names of the libraries, Boolean tests, C arrays as lists, C integers as natural numbers.
--   Rm.State: include/registers.h, instructions.h, interrupts.h, common.h, and src/rm/interrupt.c. The
--     record `Machine` is the pair of globals; a function that writes them returns the new pair.
--   Rm.Memory: src/rm/memory.c. Rm.Decode, Rm.Execute, Rm.Cycle: src/rm/cpu.c, one function for each of
--     the C functions, and one for each case of `execute` that has code of its own.
--   Rm.Timer, Rm.Disk, Rm.Channel, Rm.Io: src/rm/timer.c, disk.c, channel_device.c, io.c.
--   Vm.State, Vm.Image: src/vm/vm.h and vm_memory.c. Vm.Machine, Vm.Channel: vm.c and vm_channel.c.
--     Vm.Program, Vm.Cpu: vm_program.c, vm_cpu.c. `step` is one round of the loop of `runOperations`;
--     `none` for its result goes round again.
--   Kernel.Resource: src/kernel/resourceManager.c. Kernel.Files, Kernel.Loader, Kernel.ProgramImage:
--     src/kernel/loader.c, and `createVM` of src/vm/vm.c. Kernel.Swapper: src/kernel/swapper.c.
--     Kernel.Mmu: src/kernel/mmu.c.
--   Kernel.Process, Kernel.System: src/kernel/scheduler.h, kernel.h and the queue of ioHandler.c: the
--     record `Sys` is the state that the functions of the kernel share, with the processes on a heap.
--   Kernel.Scheduler: the table of src/kernel/scheduler.c and, on processes, resourceManager.c.
--     Kernel.Context, Kernel.IoHandler: context_switcher.c, ioHandler.c. Kernel.Interrupts: kernel.c and
--     interruptHandler.c. Kernel.Jobs: the entries of src/main.c and of loader.c. Kernel.Cycle: the
--     cycles of scheduler.c, which call the entries. Boot: `main` of src/main.c, and src/rm/rm.c.
--     Kernel.Invariant: what holds of `Sys` between two turns of `runRange`, and through every entry that
--     a turn calls. Boot.Start establishes it, and Boot.Safety takes it to the end of `main`.
--   A child of these modules is named for what it proves. The Tests modules hold runs of the definitions
--   and each theorem at a concrete state.
--
-- Conventions. An array is a list, a `uint16_t` a natural number whose wrap-around is written out. An
-- access outside an array whose index is not tested gives `none` for the whole operation. Pointers are
-- taken as not null, allocations succeed, and the log lines are left out. Disk and channel are passed as
-- arguments; what `scanf` converts is an argument of the channel, and so is what `getchar` gives. A
-- function of the kernel on processes is a run on `Sys`, which is `none` where it uses a process that is
-- freed, or copies outside an array. A pointer to a process is its index on the heap, and a Virtual
-- Machine stands in the one process that points to it. A pointer to the kernel or the scheduler that a
-- function tests is a Boolean. What the function pointer of a Virtual Machine points to is a parameter.
-- MUL computes an `int`; where that overflows, which C leaves undefined, the model wraps round. The
-- buffers that the disk is given have the 16 bytes of a sector.
--
-- Loops. The inner loop of `execCycle` runs on a fuel of `tick_limit + 1` rounds: the timer counts on
-- across rounds, so it interrupts by then. The outer loop need not end, and its fuel is a parameter.
-- `runOperations` runs on a fuel of 128 rounds: the program counter moves on by two bytes in each and
-- has to stay below 255. The outer loop of `loadProgramImage` runs on a fuel of 17 sectors: at most 127
-- words fit the memory, five in the first sector and eight in each other. The other loops over sectors,
-- words and cells recurse on what they have left to do.
--
-- Not modelled: `destroyVM` and `loadDemoProgram` of src/vm/vm.c, which free and log, and the prompts of
-- `main` and logging (src/utils), which are terminal input and output.
pub mod Boot
pub mod Common
pub mod Rm
pub mod Vm
pub mod Kernel
