-- ===== src/Kernel/IoTests.antt =====
-- Runs of the input and output handler, and the theorems about it at concrete states.
use rm_vm.Kernel.SystemTests.{job, start}
use rm_vm.Kernel.System.Steps.{At}
use rm_vm.Common.{
  ℕ, ◌+◌, ◌≤◌, ◌<◌, ◌≡◌, refl, ◌↔◌, ◌⊎◌, true, none, some, List, ◌∷◌, arith, ltb, if◌then◌else◌,
  length, get_or, drop, replicate, length-replicate, memcpy,
}
use rm_vm.Rm.State.{si_read, si_write}
use rm_vm.Rm.Disk.{HardDisk, init_disk, read_disk}
use rm_vm.Rm.Disk.RoundTrip.{after_read}
use rm_vm.Vm.State.{create_vm}
use rm_vm.Kernel.Process.{ProcState, EntryResult}
use rm_vm.Kernel.Resource.{Resource}
use rm_vm.Kernel.System.{Sys, self_process, init_kernel_state}
use rm_vm.Kernel.IoHandler.{carry_out, transfer_size, copy, enqueue_io_request, io_handler_entry}
use rm_vm.Kernel.IoHandler.Amount.{Setup, amount}
use rm_vm.Kernel.IoHandler.Transfer.{transfer_faults, read-write_moved}
use rm_vm.Kernel.IoHandler.Steps.{Empty}
use rm_vm.Kernel.IoHandler.Service.{
  Counted, enqueue_io_request-loses, Served, enqueue_io_request-Served,
}

fresh-Setup : Setup (init_disk 0) 3 (replicate 255 0)
unfolding init_disk replicate
fresh-Setup = record {
  idle = refl;
  sized = refl;
  sector = omega arith;
  bytes = refl;
  cells_sized = refl;
}

transfer_faults_example :
    ((carry_out si_read 3 300 1 (init_disk 0) (replicate 255 0) ≡ none) ↔ (255 < 300))
    × ((carry_out si_write 3 300 1 (init_disk 0) (replicate 255 0) ≡ none) ↔ (255 < 300))
transfer_faults_example = transfer_faults 300 1 fresh-Setup (omega arith)

read-write_moved_example :
    (d1 : HardDisk) × (d2 : HardDisk) × (out : List ℕ) × (carry_out si_write 3 16 4
        (init_disk 0)
        (replicate 255 0)
      ≡ some (d1, replicate 255 0))
    × (carry_out si_read 3 200 9 d1 (replicate 255 1) ≡ some (d2, out))
    × (length out ≡ 255)
    × ((j : ℕ)
        → j < amount 200 9
        → get_or out (200 + j) 0
          ≡ (if ltb j (amount 16 4) then get_or (replicate 255 0) (16 + j) 0 else 0))
    × ((i : ℕ)
        → (i < 200) ⊎ (200 + amount 200 9 ≤ i)
        → get_or out i 0 ≡ get_or (replicate 255 1) i 0)
read-write_moved_example =
    read-write_moved (replicate 255 1) 16 4 200 9 fresh-Setup (length-replicate 255 1) (omega arith)
      (omega arith)

start-Empty : Empty start.io
unfolding replicate
start-Empty = record { same = refl; small = omega arith; size = refl }

-- The resource for input and output as it starts.
abbrev io_resource : Resource
io_resource = record { id = 1; available = 1; wait_pids = replicate 32 0; head = 0; tail = 0 }

start_resources : start.resources ≡ io_resource ∷ drop 1 start.resources
unfolding init_kernel_state drop
start_resources = refl

start_read :
    carry_out si_read 3 16 4 start.disk create_vm.memory
    ≡ some (after_read (init_disk 0), replicate 255 0)
unfolding carry_out transfer_size copy read_disk init_disk replicate memcpy create_vm
start_read = refl

enqueue_io_request-Served_example :
    (s1 : Sys) × (s2 : Sys) × (s3 : Sys) × (enqueue_io_request 1 si_read 3 16 4 start
      ≡ some (true, s1))
    × (io_handler_entry s1 ≡ some (EntryResult.keeps, s2))
    × (io_handler_entry s2 ≡ some (EntryResult.keeps, s3))
    × Counted 1 job si_read 3 16 4 s1 s2
    × Served start 1 job create_vm (after_read (init_disk 0)) (replicate 255 0) s3
enqueue_io_request-Served_example =
    enqueue_io_request-Served start 1 job create_vm io_resource (drop 1 start.resources) si_read 3
      16 4 (after_read (init_disk 0)) (replicate 255 0) refl refl start_resources refl (omega arith)
      refl start-Empty refl start_read

-- A process without a Virtual Machine that asks for a READ.
enqueue_io_request-loses_example :
    (s1 : Sys) × (s2 : Sys) × (s3 : Sys) × (enqueue_io_request 0 si_read 3 16 4 start
      ≡ some (true, s1))
    × (io_handler_entry s1 ≡ some (EntryResult.keeps, s2))
    × (io_handler_entry s2 ≡ some (EntryResult.keeps, s3))
    × Empty s3.io
    × (s3.resources ≡ record io_resource { available = 0 } ∷ drop 1 start.resources)
    × At s3.heap 0 (record self_process { state = ProcState.blocked; waiting_res_id = 1 })
unfolding self_process
enqueue_io_request-loses_example =
    enqueue_io_request-loses start 0 self_process io_resource (drop 1 start.resources) si_read 3 16
      4 refl refl start_resources refl (omega arith) start-Empty refl
