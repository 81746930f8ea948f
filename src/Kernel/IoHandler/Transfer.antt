-- ===== src/Kernel/IoHandler/Transfer.antt =====
-- `completeIO` of src/kernel/ioHandler.c: which bytes it moves, and when its copy leaves an array.
use rm_vm.Kernel.IoHandler.Amount.{
  amount_le, zero_add, copy_inside, memcpy-Moved, transfer_size-amount, amount, copy_outside, Setup,
}
use rm_vm.Rm.State.{si_read, si_write}
use rm_vm.Rm.Disk.RoundTrip.{read_disk_idle, after_read}
use rm_vm.Rm.Disk.{write_disk, sector_at, HardDisk}
use rm_vm.Common.{
  ℕ, ◌+◌, ◌≤◌, ◌<◌, ◌≡◌, refl, sym, ap, ◌∙◌, ◌↔◌, ◌⊎◌, inl, inr, true, false, none, some, List,
  arith, dec_lt, ltb, if◌then◌else◌, Bool-cases, ltb→lt, ltb→ge, length, get_or, set, replicate,
  length-set, get_or-set_self, length-replicate, All-get_or, All-replicate, memcpy, length-memcpy,
  get_or-memcpy_out, get_or-memcpy_in, some-ne-none,
}
use rm_vm.Kernel.IoHandler.{carry_out, transfer_size}

module _ {d : HardDisk} {r0 : ℕ} {cells : List ℕ} (h : Setup d r0 cells) (r1 r2 : ℕ) where
  -- The cells after a read.
  abbrev pub cells_read : List ℕ
  cells_read = memcpy (amount r1 r2) cells r1 (sector_at d r0) 0 0

  -- The sector after a write.
  abbrev pub sector_written : List ℕ
  sector_written = memcpy (amount r1 r2) (replicate 16 0) 0 cells r1 0

  pub read_inside : r1 ≤ 255 → carry_out si_read r0 r1 r2 d cells ≡ some (after_read d, cells_read)
  unfolding carry_out
  read_inside k =
      rw
        (
          read_disk_idle d r0 h.idle h.sector,
          transfer_size-amount r1 r2 k,
          copy_inside (amount r1 r2) cells r1 (sector_at d r0) 0
              (omega (arith, h.cells_sized, (amount_le r1 r2 k).1))
              (omega (arith, h.bytes, (amount_le r1 r2 k).0)),
        )
        (ap (λ x. some (x.1, cells_read)) (read_disk_idle d r0 h.idle h.sector))

  read_outside : 255 < r1 → r1 ≤ 65535 → carry_out si_read r0 r1 r2 d cells ≡ none
  unfolding carry_out
  read_outside k w =
      rw
        (
          read_disk_idle d r0 h.idle h.sector,
          copy_outside (transfer_size r1 r2) cells r1 (sector_at d r0) 0
              (inl (omega (arith, h.cells_sized))),
        )
        refl

  pub write_inside :
      r1 ≤ 255
      → carry_out si_write r0 r1 r2 d cells ≡ some ((write_disk d r0 sector_written).1, cells)
  unfolding carry_out
  write_inside k =
      rw
        (
          transfer_size-amount r1 r2 k,
          copy_inside (amount r1 r2) (replicate 16 0) 0 cells r1
              (omega (arith, length-replicate {A = ℕ} 16 0, (amount_le r1 r2 k).0))
              (omega (arith, h.cells_sized, (amount_le r1 r2 k).1)),
        )
        refl

  write_outside : 255 < r1 → r1 ≤ 65535 → carry_out si_write r0 r1 r2 d cells ≡ none
  unfolding carry_out
  write_outside k w =
      rw
        (copy_outside (transfer_size r1 r2) (replicate 16 0) 0 cells r1
          (inr (omega (arith, h.cells_sized))))
        refl

  -- The disk after a write.
  abbrev pub disk_written : HardDisk
  disk_written = record d {
    busy = false;
    storage = set d.storage r0 sector_written;
    interrupt_flag = true;
  }

  pub write_idle : (write_disk d r0 sector_written).1 ≡ disk_written
  unfolding write_disk
  write_idle = ground (arith, h.idle, h.sector)

  sector_after : sector_at disk_written r0 ≡ sector_written
  sector_after =
      get_or-set_self d.storage r0 sector_written (replicate 16 0)
        (omega (arith, h.sized, h.sector))

  pub length-sector_written : length sector_written ≡ 16
  length-sector_written =
      length-memcpy (amount r1 r2) (replicate 16 0) 0 cells r1 0 ∙ length-replicate 16 0

  written-Setup : {other : List ℕ} → length other ≡ 255 → Setup disk_written r0 other
  written-Setup k = record {
    idle = refl;
    sized = length-set d.storage r0 sector_written ∙ h.sized;
    sector = h.sector;
    bytes = ap length sector_after ∙ length-sector_written;
    cells_sized = k;
  }

  zeros : (j : ℕ) → get_or (replicate {A = ℕ} 16 0) j 0 ≡ 0
  zeros j =
      All-get_or (λ (x : ℕ). x ≡ 0) (replicate 16 0) j 0
        (All-replicate (λ (x : ℕ). x ≡ 0) 16 0 refl) refl

  -- Byte `j` of the sector that is written.
  byte_written :
      (j : ℕ)
      → r1 ≤ 255
      → j < 16
      → get_or sector_written j 0 ≡ (if ltb j (amount r1 r2) then get_or cells (r1 + j) 0 else 0)
  byte_written j k b = elim (Bool-cases (ltb j (amount r1 r2))) [
    | inl e ↦ rw e (
        ap (λ x. get_or sector_written x 0) (sym (zero_add j))
        ∙ get_or-memcpy_in (amount r1 r2) (replicate 16 0) 0 cells r1 0 j
            (ltb→lt j (amount r1 r2) e)
            (omega (arith, length-replicate {A = ℕ} 16 0, (amount_le r1 r2 k).0)))
    | inr e ↦ rw e (
        get_or-memcpy_out (amount r1 r2) (replicate 16 0) 0 cells r1 0 j
          (inr (omega (arith, ltb→ge j (amount r1 r2) e)))
        ∙ zeros j)
  ]

-- On an idle disk and a sector that it has, a READ and a WRITE that `completeIO` carries out leave an
-- array exactly if R1, the address in the Virtual Machine, is above 255: the difference that bounds the
-- copy is negative there and wraps.
pub transfer_faults :
    {d : HardDisk} {r0 : ℕ} {cells : List ℕ} (r1 r2 : ℕ)
    → Setup d r0 cells
    → r1 ≤ 65535
    → ((carry_out si_read r0 r1 r2 d cells ≡ none) ↔ (255 < r1))
      × ((carry_out si_write r0 r1 r2 d cells ≡ none) ↔ (255 < r1))
transfer_faults r1 r2 h w = elim (dec_lt 255 r1) [
  | yes k ↦ ((λ _. k, λ _. read_outside h r1 r2 k w), (λ _. k, λ _. write_outside h r1 r2 k w))
  | no k ↦
      let inside = ltb→ge 255 r1 (ground (arith, k)) in
      (
        (λ e. absurd (some-ne-none _ (sym (read_inside h r1 r2 inside) ∙ e)), λ b. absurd (k b)),
        (λ e. absurd (some-ne-none _ (sym (write_inside h r1 r2 inside) ∙ e)), λ b. absurd (k b)),
      )
]

-- On an idle disk, with addresses of at most 255, a WRITE of one Virtual Machine and then a READ of
-- another at the same sector move the bytes, as many as both transfers cover; what the READ covers
-- beyond is 0, and the other cells stay.
pub read-write_moved :
    {d : HardDisk} {r0 : ℕ} {cells : List ℕ} (other : List ℕ) (r1 r2 s1 s2 : ℕ)
    → Setup d r0 cells
    → length other ≡ 255
    → r1 ≤ 255
    → s1 ≤ 255
    → (d1 : HardDisk) × (d2 : HardDisk) × (out : List ℕ) × (carry_out si_write r0 r1 r2 d cells
        ≡ some (d1, cells))
      × (carry_out si_read r0 s1 s2 d1 other ≡ some (d2, out))
      × (length out ≡ 255)
      × ((j : ℕ)
          → j < amount s1 s2
          → get_or out (s1 + j) 0 ≡ (if ltb j (amount r1 r2) then get_or cells (r1 + j) 0 else 0))
      × ((i : ℕ) → (i < s1) ⊎ (s1 + amount s1 s2 ≤ i) → get_or out i 0 ≡ get_or other i 0)
read-write_moved {d} {r0} {cells} other r1 r2 s1 s2 h l k m =
    let v : Setup (disk_written h r1 r2) r0 other = written-Setup h r1 r2 l in
    let moved =
      memcpy-Moved (amount s1 s2) other s1 (sector_at (disk_written h r1 r2) r0) 0
        (omega (arith, l, (amount_le s1 s2 m).1)) in
    (
      disk_written h r1 r2,
      after_read (disk_written h r1 r2),
      cells_read v s1 s2,
      write_inside h r1 r2 k ∙ ap (λ x. some (x, cells)) (write_idle h r1 r2),
      read_inside v s1 s2 m,
      moved.0 ∙ l,
      λ j b.
          moved.1 j b
          ∙ ap (λ x. get_or (sector_at (disk_written h r1 r2) r0) x 0) (zero_add j)
          ∙ ap (λ x. get_or x j 0) (sector_after h r1 r2)
          ∙ byte_written h r1 r2 j k (omega (arith, (amount_le s1 s2 m).0)),
      moved.2,
    )
