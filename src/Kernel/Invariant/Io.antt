-- ===== src/Kernel/Invariant/Io.antt =====
-- The transfers of `completeIO` of src/kernel/ioHandler.c on what the invariant of src/kernel promises.
use rm_vm.Rm.Disk.RoundTrip.{after_read}
use rm_vm.Kernel.IoHandler.Amount.{amount_le, amount, copy_inside, transfer_size-amount, Setup}
use rm_vm.Kernel.IoHandler.Transfer.{
  length-sector_written, sector_written, read_inside, write_idle, cells_read, write_inside,
  disk_written,
}
use rm_vm.Rm.State.{si_read, si_write}
use rm_vm.Kernel.Invariant.{IsDisk}
use rm_vm.Kernel.IoHandler.{carry_out}
use rm_vm.Rm.Disk.{sector_at, write_disk, read_disk, HardDisk}
use rm_vm.Common.{
  ℕ, zero, suc, ◌+◌, ◌≤◌, ◌<◌, ◌≡◌, refl, sym, ap, ◌∙◌, subst, ◌⊎◌, inl, inr, true, false, ◌||◌,
  some, List, arith, dec_lt, ℕ_discrete, leb, Bool-cases, length, get_or, set, replicate,
  length-set, get_or-set_self, get_or-set_ne, length-replicate, All, All-set, All-get_or,
  All-replicate, IsByte, memcpy, length-memcpy,
}

-- Bytes stay bytes under `memcpy`.
All-memcpy :
    (n : ℕ) (dst : List ℕ) (to : ℕ) (src : List ℕ) (from : ℕ)
    → All IsByte dst
    → All IsByte src
    → All IsByte (memcpy n dst to src from 0)
unfolding memcpy
All-memcpy zero dst to src from h k = h
All-memcpy (suc n) dst to src from h k =
    All-memcpy n (set dst to (get_or src from 0)) (to + 1) src (from + 1)
      (All-set IsByte dst to (get_or src from 0) h (All-get_or IsByte src from 0 k (omega arith))) k

pub record Carried (d : HardDisk) (out : List ℕ) : Type 0 where
  pub disk : IsDisk d
  pub sized : length out ≡ 255
  pub bytes : All IsByte out

-- A sector of a disk with a write.
written-IsDisk :
    {d : HardDisk} (r0 : ℕ) (b : List ℕ)
    → IsDisk d
    → r0 < 128
    → length b ≡ 16
    → All IsByte b
    → IsDisk (record d { busy = false; storage = set d.storage r0 b; interrupt_flag = true })
written-IsDisk {d} r0 b h lt l k = record {
  idle = refl;
  sized = length-set d.storage r0 b ∙ h.sized;
  sectors = λ t u. elim (ℕ_discrete r0 t) [
    | yes e ↦
        let is : get_or (set d.storage r0 b) t (replicate 16 0) ≡ b =
          ap (λ t. get_or (set d.storage r0 b) t (replicate 16 0)) (sym e)
          ∙ get_or-set_self d.storage r0 b (replicate 16 0) (omega (arith, h.sized, lt)) in
        (ap length is ∙ l, subst (All IsByte) (sym is) k)
    | no ne ↦
        let is = get_or-set_ne d.storage r0 t b (replicate 16 0) ne in
        (ap length is ∙ (h.sectors t u).0, subst (All IsByte) (sym is) (h.sectors t u).1)
  ];
}

-- The same for a write that the disk may refuse.
pub write_disk-IsDisk :
    (d : HardDisk) (t : ℕ) (b : List ℕ)
    → IsDisk d
    → length b ≡ 16
    → All IsByte b
    → IsDisk (write_disk d t b).1
unfolding write_disk
write_disk-IsDisk d t b h l k = elim (Bool-cases (leb 128 t || d.busy)) [
  | inl e ↦ rw e h
  | inr e ↦ rw e (written-IsDisk t b h (ground (arith, e)) l k)
]

-- A sector that the disk does not have is neither read nor written.
read_beyond :
    (r0 r1 r2 : ℕ) (d : HardDisk) (cells : List ℕ)
    → 128 ≤ r0
    → carry_out si_read r0 r1 r2 d cells ≡ some (d, cells)
unfolding carry_out read_disk
read_beyond r0 r1 r2 d cells b = ground (arith, b)

write_failed : (r0 : ℕ) (buf : List ℕ) (d : HardDisk) → 128 ≤ r0 → (write_disk d r0 buf).1 ≡ d
unfolding write_disk
write_failed r0 buf d b = ground (arith, b)

write_beyond :
    (r0 r1 r2 : ℕ) (d : HardDisk) (cells : List ℕ)
    → 128 ≤ r0
    → r1 ≤ 255
    → length cells ≡ 255
    → carry_out si_write r0 r1 r2 d cells ≡ some (d, cells)
unfolding carry_out
write_beyond r0 r1 r2 d cells b k l =
    rw
      (
        transfer_size-amount r1 r2 k,
        copy_inside (amount r1 r2) (replicate 16 0) 0 cells r1
            (omega (arith, length-replicate {A = ℕ} 16 0, (amount_le r1 r2 k).0))
            (omega (arith, l, (amount_le r1 r2 k).1)),
      )
      (ap (λ d. some (d, cells)) (write_failed r0 _ d b))

-- A transfer stays in its arrays.
abbrev pub Does : HardDisk → List ℕ → ℕ → ℕ → ℕ → ℕ → Type 0
Does d cells r0 r1 r2 code =
    (d' : HardDisk) × (out : List ℕ) × (carry_out code r0 r1 r2 d cells ≡ some (d', out))
    × Carried d' out

module _ (d : HardDisk) (cells : List ℕ) (r0 r1 r2 : ℕ) (h : IsDisk d) (l : length cells ≡ 255)
    (b : All IsByte cells) (k : r1 ≤ 255) where
  setup : r0 < 128 → Setup d r0 cells
  setup u = record {
    idle = h.idle;
    sized = h.sized;
    sector = u;
    bytes = (h.sectors r0 u).0;
    cells_sized = l;
  }

  read-Does : Does d cells r0 r1 r2 si_read
  read-Does = elim (dec_lt r0 128) [
    | no n ↦ (
      d,
      cells,
      read_beyond r0 r1 r2 d cells (omega (arith, n)),
      record { disk = h; sized = l; bytes = b },
    )
    | yes u ↦ (
      after_read d,
      cells_read (setup u) r1 r2,
      read_inside (setup u) r1 r2 k,
      record {
        disk = record { idle = refl; sized = h.sized; sectors = h.sectors };
        sized = length-memcpy (amount r1 r2) cells r1 (sector_at d r0) 0 0 ∙ l;
        bytes = All-memcpy (amount r1 r2) cells r1 (sector_at d r0) 0 b (h.sectors r0 u).1;
      },
    )
  ]

  write-Does : Does d cells r0 r1 r2 si_write
  write-Does = elim (dec_lt r0 128) [
    | no n ↦ (
      d,
      cells,
      write_beyond r0 r1 r2 d cells (omega (arith, n)) k l,
      record { disk = h; sized = l; bytes = b },
    )
    | yes u ↦ (
      disk_written (setup u) r1 r2,
      cells,
      write_inside (setup u) r1 r2 k ∙ ap (λ d. some (d, cells)) (write_idle (setup u) r1 r2),
      record {
        disk =
            written-IsDisk r0 (sector_written (setup u) r1 r2) h u
              (length-sector_written (setup u) r1 r2)
              (All-memcpy (amount r1 r2) (replicate 16 0) 0 cells r1
                (All-replicate IsByte 16 0 (omega arith)) b);
        sized = l;
        bytes = b;
      },
    )
  ]

-- What `completeIO` moves for a request that `runOperations` makes stays in its arrays.
pub carry_out-Carried :
    (code r0 r1 r2 : ℕ) (d : HardDisk) (cells : List ℕ)
    → (code ≡ 1) ⊎ (code ≡ 2) ⊎ (code ≡ 4)
    → (code ≡ 4) ⊎ (r1 ≤ 255)
    → IsDisk d
    → length cells ≡ 255
    → All IsByte cells
    → Does d cells r0 r1 r2 code
unfolding carry_out
carry_out-Carried code r0 r1 r2 d cells k (inl e) h l b =
    (d, cells, rw e refl, record { disk = h; sized = l; bytes = b })
carry_out-Carried code r0 r1 r2 d cells (inl e) (inr f) h l b =
    subst (Does d cells r0 r1 r2) (sym e) (read-Does d cells r0 r1 r2 h l b f)
carry_out-Carried code r0 r1 r2 d cells (inr (inl e)) (inr f) h l b =
    subst (Does d cells r0 r1 r2) (sym e) (write-Does d cells r0 r1 r2 h l b f)
carry_out-Carried code r0 r1 r2 d cells (inr (inr e)) (inr f) h l b =
    (d, cells, rw e refl, record { disk = h; sized = l; bytes = b })
