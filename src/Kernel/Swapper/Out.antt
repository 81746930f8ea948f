-- ===== src/Kernel/Swapper/Out.antt =====
-- src/kernel/swapper.c: the sectors that `swapOutVM` leaves.
use rm_vm.Common.{
  ℕ, zero, suc, ◌+◌, ◌-◌, ◌*◌, ◌≤◌, ◌<◌, ◌≡◌, refl, sym, ◌∙◌, ◌≢◌, ◌⊎◌, inl, inr, true, false, List,
  arith, ℕ_discrete, ltb, if◌then◌else◌, get_or, set, replicate, length-set, get_or-set_self,
  get_or-set_ne, length-replicate, u16, memcpy, get_or-memcpy_in,
}
use rm_vm.Rm.Disk.{HardDisk, sector_at, write_disk}
use rm_vm.Rm.Disk.RoundTrip.{Sized}
use rm_vm.Kernel.Swapper.{write_sector_chunk, out_loop}

-- Sectors `b + k` of the disk hold the image `mem`, sixteen bytes each, for `k` from `s` on.
abbrev pub Stored : ℕ → ℕ → HardDisk → List ℕ → Type 0
Stored b s d mem =
    (k j : ℕ)
    → s ≤ k
    → k < 16
    → j < 16
    → 16 * k + j < 255
    → get_or (sector_at d (b + k)) j 0 ≡ get_or mem (16 * k + j) 0

-- An idle disk of the right size.
abbrev pub Idle : HardDisk → Type 0
Idle d = (d.busy ≡ false) × Sized d

-- The chunk of sector `s`.
abbrev pub chunk : ℕ → ℕ
chunk s = if ltb 16 (255 - 16 * s) then 16 else 255 - 16 * s

-- One sector written.
module _ (b : ℕ) (d : HardDisk) (mem : List ℕ) (s : ℕ) (h : Idle d) (hb : b < 113)
    (hs : s < 16) where
  written : HardDisk
  written = record d {
    busy = false;
    storage = set d.storage (b + s) (memcpy (chunk s) (replicate 16 0) 0 mem (s * 16) 0);
    interrupt_flag = true;
  }

  written_ok : write_sector_chunk d (u16 (b + s)) mem (s * 16) (chunk s) ≡ (true, written)
  unfolding written write_sector_chunk write_disk
  written_ok = ground (arith, h.0)

  written-Idle : Idle written
  unfolding written
  written-Idle = (
    refl,
    length-set d.storage (b + s) (memcpy (chunk s) (replicate 16 0) 0 mem (s * 16) 0) ∙ h.1,
  )

  written_same :
      (j : ℕ)
      → j < 16
      → 16 * s + j < 255
      → get_or (sector_at written (b + s)) j 0 ≡ get_or mem (16 * s + j) 0
  unfolding written
  written_same j hj hm = ground (
    arith,
    length-replicate {A = ℕ} 16 0,
    get_or-set_self d.storage (b + s) (memcpy (chunk s) (replicate 16 0) 0 mem (s * 16) 0)
        (replicate 16 0) (omega (arith, h.1)),
    get_or-memcpy_in (chunk s) (replicate 16 0) 0 mem (s * 16) 0 j (ground arith)
        (ground (arith, length-replicate {A = ℕ} 16 0)),
  )

  written_other : (t : ℕ) → t ≢ b + s → sector_at written t ≡ sector_at d t
  unfolding written
  written_other t ht =
      get_or-set_ne d.storage (b + s) t (memcpy (chunk s) (replicate 16 0) 0 mem (s * 16) 0)
        (replicate 16 0) (λ e. ht (sym e))

-- What the sectors from `s` on leave behind.
abbrev pub Out : ℕ → List ℕ → ℕ → HardDisk → HardDisk → Type 0
Out b mem s d d' =
    Idle d'
    × Stored b s d' mem
    × ((t : ℕ) → (t < b + s) ⊎ (b + 16 ≤ t) → sector_at d' t ≡ sector_at d t)

pub remaining_next : (s : ℕ) → s < 16 → 255 - 16 * s - chunk s ≡ 255 - 16 * (s + 1)
remaining_next s h = ground arith

Out-step :
    (b : ℕ) (mem : List ℕ) (s : ℕ) (d d' : HardDisk) (h : Idle d) (hb : b < 113) (hs : s < 16)
    → Out b mem (s + 1) (written b d mem s h hb hs) d'
    → Out b mem s d d'
Out-step b mem s d d' h hb hs o = (o.0, stored, other)
  where
    stored : Stored b s d' mem
    stored k j p q r t = elim (ℕ_discrete k s) [
      | yes e ↦ ground (
        arith,
        o.2 (b + s) (inl (omega arith)),
        written_same b d mem s h hb hs j r (omega (arith, e)),
      )
      | no e ↦ o.1 k j (omega (arith, e)) q r t
    ]

    other : (t : ℕ) → (t < b + s) ⊎ (b + 16 ≤ t) → sector_at d' t ≡ sector_at d t
    other t p =
        o.2 t (elim p [ inl l ↦ inl (omega arith) | inr r ↦ inr r ])
        ∙ written_other b d mem s h hb hs t (λ e. omega (arith, p, e, hs))

pub out_loop_lem :
    (b : ℕ) (mem : List ℕ) (n s : ℕ) (d : HardDisk)
    → n + s ≡ 16
    → Idle d
    → b < 113
    → (d' : HardDisk) × (out_loop n d mem b s (255 - 16 * s) ≡ (true, d')) × Out b mem s d d'
unfolding out_loop
out_loop_lem b mem zero s d e h hb = (d, refl, (h, λ k j p q. absurd (omega arith), λ t p. refl))
out_loop_lem b mem (suc n) s d e h hb =
    let hs : s < 16 = omega arith in
    let w = written b d mem s h hb hs in
    let (d', eq, o) =
      out_loop_lem b mem n (s + 1) w (omega arith) (written-Idle b d mem s h hb hs) hb in
    (
      d',
      ground (arith, written_ok b d mem s h hb hs, remaining_next s hs, eq),
      Out-step b mem s d d' h hb hs o,
    )
