-- ===== src/Kernel/Tests.antt =====
-- Runs of the kernel's parts, and the theorems about them at concrete states.
use rm_vm.Common.{
  ℕ, ◌≤◌, ◌<◌, ◌≡◌, refl, ◌∙◌, ◌≢◌, ◌⊎◌, Bool, true, false, ◌&&◌, ◌||◌, Option, none, some, List,
  [], ◌∷◌, ◌++◌, arith, ltb, leb, if◌then◌else◌, length, get_or, set, replicate, length-set,
  length-replicate, All,
}
use rm_vm.Rm.State.{Machine, Cpu, init_cpu}
use rm_vm.Rm.Disk.{read_disk, HardDisk, init_disk, sector_at}
use rm_vm.Vm.State.{VirtualMachine, create_vm}
use rm_vm.Kernel.Resource.{Resource, enqueue, dequeue, request_unit, release_unit}
use rm_vm.Kernel.Resource.Ring.{IsValid, waiting, Takes, ring_lem}
use rm_vm.Kernel.Resource.Units.{Released, requests, units_lem, release_unit_starves}
use rm_vm.Kernel.Files.{read_loop, FileEntry, find_file, read_file_to_buffer}
use rm_vm.Kernel.Files.Contents.{file_byte, read_file_to_buffer_lem}
use rm_vm.Kernel.Swapper.{swap_out_vm, swap_in_vm}
use rm_vm.Kernel.Files.Sectors.{load_disk_program_lem}
use rm_vm.Vm.Machine.{load_disk_program}
use rm_vm.Kernel.Swapper.RoundTrip.{swap_lem}
use rm_vm.Vm.Cpu.Round.{Returned}
use rm_vm.Kernel.Loader.Bounds.{create_vm_for-runs, MadeFrom}
use rm_vm.Kernel.Loader.{create_vm_for, load_image, load_loop, copy_words, loader_load_file}
use rm_vm.Kernel.Loader.Image.{IsImage, loader_load_file_lem}
use rm_vm.Vm.Cpu.{Status, run_operations, fetch_word}
use rm_vm.Kernel.ProgramImage.{LoadResult, load_program_image}
use rm_vm.Kernel.ProgramImage.Load.{load_program_image_total}
use rm_vm.Kernel.Mmu.{init_page_table, mmu_translate}
use rm_vm.Kernel.Mmu.Stride.{init_page_table_lem}
use rm_vm.Rm.Memory.{init_memory}

-- A resource without a unit for which the process 7 waits.
abbrev wanted : Resource
wanted = record { id = 2; available = 0; wait_pids = set (replicate 32 0) 0 7; head = 0; tail = 1 }

wanted-IsValid : IsValid wanted
wanted-IsValid = record {
  storage = length-set (replicate 32 0) 0 7 ∙ length-replicate 32 0;
  head_in = omega arith;
  tail_in = omega arith;
}

wanted_by : waiting wanted ≡ 7 ∷ []
unfolding waiting replicate
wanted_by = refl

ring_lem_example :
    let (done, r1) = enqueue wanted 9 in
    let (first, r2) = dequeue wanted in
    (done ≡ ltb (length (waiting wanted)) 31)
    × (waiting r1 ≡ (if done then waiting wanted ++ 9 ∷ [] else waiting wanted))
    × Takes (waiting wanted) first (waiting r2)
    × (r1.available ≡ 0)
    × (r2.available ≡ 0)
    × IsValid r1
    × IsValid r2
ring_lem_example = ring_lem 9 wanted-IsValid

units_lem_example :
    let (granted, r1) = request_unit wanted 9 in
    let (woken, r2) = release_unit wanted in
    (granted ≡ false)
    × (r1.available ≡ 0)
    × (waiting r1 ≡ (
        if granted || leb 31 (length (waiting wanted))
        then waiting wanted
        else waiting wanted ++ 9 ∷ []))
    × Released wanted (woken, r2)
    × IsValid r1
    × IsValid r2
units_lem_example = units_lem 9 wanted-IsValid

somebody : waiting wanted ≢ []
somebody e = ground (arith, e, wanted_by)

release_unit_starves_example :
    let (woken, r') = release_unit wanted in
    (pid : ℕ) × (woken ≡ some pid)
    × (waiting wanted ≡ pid ∷ waiting r')
    × (r'.available ≡ 0)
    × All (λ granted. granted ≡ false) (requests (pid ∷ 7 ∷ 9 ∷ []) r')
release_unit_starves_example = release_unit_starves (7 ∷ 9 ∷ []) wanted-IsValid refl somebody

abbrev program : FileEntry
program = record { file_id = 1; start_sector = 10; sector_count = 2 }

abbrev disk : HardDisk
disk = init_disk 0

disk_idle : disk.busy ≡ false
unfolding init_disk
disk_idle = refl

disk_sized : length disk.storage ≡ 128
unfolding init_disk
disk_sized = length-replicate 128 (replicate 16 0)

found : find_file (program ∷ []) 1 ≡ some program
unfolding find_file
found = refl

-- Twenty bytes of a file of two sectors.
read_file_to_buffer_lem_example :
    (d' : HardDisk) × (dst' : List ℕ) × (read_file_to_buffer disk
        (program ∷ [])
        1
        (replicate 30 5)
        20
      ≡ (true, d', dst', some 20))
    × (length dst' ≡ length (replicate {A = ℕ} 30 5))
    × (get_or dst' 17 0 ≡ file_byte disk 10 17)
read_file_to_buffer_lem_example =
    read_file_to_buffer_lem disk (program ∷ []) 1 program (replicate 30 5) 20 17 found disk_idle
      (omega arith) (omega arith) (omega (arith, length-replicate {A = ℕ} 30 5))

vm_cells : length create_vm.memory ≡ 255
unfolding create_vm
vm_cells = length-replicate 255 0

-- The slot of the first job process of `main`.
swap_lem_example :
    ((2 < 3)
      × (d' : HardDisk) × (d'' : HardDisk) × (swap_out_vm disk create_vm 2 ≡ (true, d'))
      × (swap_in_vm d' create_vm 2 ≡ (true, d'', record create_vm { memory = create_vm.memory }))
      × (sector_at d' 4 ≡ sector_at disk 4))
    ⊎ ((3 ≤ 2)
        × (swap_out_vm disk create_vm 2 ≡ (false, disk))
        × (swap_in_vm disk create_vm 2 ≡ (false, disk, create_vm)))
swap_lem_example =
    swap_lem disk create_vm create_vm 2 4 disk_idle disk_sized (omega arith) vm_cells vm_cells

-- The memory of a machine from the last sector of the disk.
load_disk_program_lem_example :
    let fe : FileEntry = record { file_id = 0; start_sector = 127; sector_count = 1 } in
    (d' : HardDisk) × (mem' : List ℕ) × (load_disk_program disk create_vm.memory 127
      ≡ (16, d', mem'))
    × (read_loop 1 disk fe 0 create_vm.memory 255 0 ≡ (true, d', mem', 16))
    × (length mem' ≡ length create_vm.memory)
    × (get_or mem' 3 0 ≡ file_byte disk 127 3)
load_disk_program_lem_example =
    load_disk_program_lem disk create_vm.memory 127 3 disk_idle (omega arith) vm_cells

cells : length init_memory ≡ 512
unfolding init_memory
cells = length-replicate 512 0

-- Page 1 goes to frame 2, and a table at address 240 does not fit.
init_page_table_lem_example :
    ((cpu' : Cpu) × (mem' : List ℕ) × (init_page_table init_cpu init_memory 0 ≡ some (cpu', mem'))
      × (mmu_translate 259 cpu' mem' ≡ some (515, cpu')))
    × (init_page_table init_cpu init_memory 240 ≡ none)
init_page_table_lem_example = init_page_table_lem init_cpu init_memory 259 239 cells (omega arith)

-- A disk whose first sector is an image of one word, LOAD R0,#3, for address 4.
abbrev pub image_disk : HardDisk
image_disk = record {
  id = 0;
  busy = false;
  ready = true;
  interrupt_flag = false;
  head = 0;
  storage = (1 ∷ 0 ∷ 0 ∷ 0 ∷ 4 ∷ 0 ∷ 0x03 ∷ 0x10 ∷ 0 ∷ 0 ∷ 0 ∷ 0 ∷ 0 ∷ 0 ∷ 0 ∷ 0 ∷ []) ∷ [];
}

abbrev pub image : FileEntry
image = record { file_id = 1; start_sector = 0; sector_count = 1 }

image-IsImage : IsImage image_disk image
image-IsImage = record {
  idle = refl;
  on_disk = omega arith;
  some_words = omega arith;
  fits = omega arith;
  in_file = omega arith;
  entry = omega arith;
}

image_found : find_file (image ∷ []) 1 ≡ some image
unfolding find_file
image_found = refl

loader_load_file_lem_example :
    (d' : HardDisk) × (vm' : VirtualMachine) × (loader_load_file image_disk (image ∷ []) create_vm 1
      ≡ (true, d', vm'))
    × (fetch_word vm' 4 ≡ 0x1003)
    × (get_or vm'.memory 9 0 ≡ get_or create_vm.memory 9 0)
    × (vm'.vm_cpu.pc ≡ 4)
    × (vm'.vm_cpu.r ≡ replicate 8 0)
loader_load_file_lem_example =
    loader_load_file_lem (image ∷ []) create_vm 1 0 9 image_found image-IsImage vm_cells
      (omega arith)

abbrev booted : VirtualMachine
booted = (loader_load_file image_disk (image ∷ []) create_vm 1).2

boots : (create_vm_for image_disk (image ∷ []) 1).0 ≡ some booted
unfolding create_vm_for loader_load_file find_file read_disk load_image load_loop copy_words
boots = refl

create_vm_for-runs_example :
    MadeFrom image_disk (image ∷ []) 1 create_vm booted
    × ((s : Status) × (vm' : VirtualMachine) × (run_operations booted ≡ some (s, vm'))
        × Returned booted s vm')
create_vm_for-runs_example =
    create_vm_for-runs image_disk (image ∷ []) 1 (λ e. omega (arith, e)) boots

-- The image again, at address 100 of the Real Machine.
load_program_image_total_example :
    (ok : Bool) × (d' : HardDisk) × (m' : Machine) × (out : Option LoadResult) × (load_program_image
        image_disk
        (record { cpu = init_cpu; mem = init_memory })
        0
        100
      ≡ some (ok, d', m', out))
    × (m'.cpu ≡ (if ok then record init_cpu { ic = 100 } else init_cpu))
    × (get_or m'.mem 100 0 ≡ (if ok && true then 0x1003 else get_or m'.mem 100 0))
    × (get_or m'.mem 7 0 ≡ get_or init_memory 7 0)
load_program_image_total_example =
    load_program_image_total image_disk (record { cpu = init_cpu; mem = init_memory }) 0 100 0 7
      cells
