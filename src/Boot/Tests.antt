-- ===== src/Boot/Tests.antt =====
-- Runs of src/main.c.
use rm_vm.Boot.Start.{initial_disk-IsDisk}
use rm_vm.Boot.Safety.{main_total}
use rm_vm.Kernel.Invariant.{Valid}
use rm_vm.Kernel.System.Steps.{At}
use rm_vm.Kernel.Process.{Process}
use rm_vm.Kernel.Scheduler.Sound.{Sound}
use rm_vm.Boot.{initial, main}
use rm_vm.Kernel.System.{Sys}
use rm_vm.Common.{ℕ, ◌≤◌, ◌≡◌, some, [], ◌∷◌, map}

-- `main` with the disk and the file table that it makes itself.
main_total_example :
    (s' : Sys) × (main initial ≡ some (tt, s'))
    × Sound s'
    × ((k : ℕ) × (k ≤ 1) × (map (λ r. r.available) s'.resources ≡ k ∷ 2 ∷ 1 ∷ 1 ∷ []))
    × ((a : ℕ) (p : Process) → At s'.heap a p → Valid p.vm)
main_total_example = main_total initial.disk initial.files initial_disk-IsDisk
