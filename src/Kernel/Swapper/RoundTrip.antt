-- ===== src/Kernel/Swapper/RoundTrip.antt =====
-- src/kernel/swapper.c: which slots can be used, and what a swap in gives after a swap out.
use rm_vm.Common.{
  ℕ, zero, suc, ◌+◌, ◌-◌, ◌*◌, ◌≤◌, ◌<◌, ◌≡◌, refl, sym, ap, ◌∙◌, ◌⊎◌, inl, inr, true, false, ◌&&◌,
  some, List, arith, dec_lt, ltb, leb, if◌then◌else◌, length, get_or, u16, memcpy, length-memcpy,
  get_or-memcpy_out, get_or-memcpy_in, list_ext,
}
use rm_vm.Rm.Disk.{read_disk, HardDisk, sector_at}
use rm_vm.Rm.Disk.RoundTrip.{Sized, after_read}
use rm_vm.Vm.State.{vm_memory_size, VirtualMachine}
use rm_vm.Kernel.Swapper.Out.{Stored, chunk, remaining_next, out_loop_lem}
use rm_vm.Kernel.Swapper.{
  in_loop, read_sector_chunk, swap_slot_start, out_loop, swap_out_vm, swap_in_vm,
}

-- The disk partition of the swap area holds three slots: every other slot below 4091 (from where on the
-- sector number overflows) is refused in both directions, and nothing changes.
swap_refused :
    (d : HardDisk) (vm : VirtualMachine) (slot : ℕ)
    → 3 ≤ slot
    → slot < 4091
    → (swap_out_vm d vm slot ≡ (false, d)) × (swap_in_vm d vm slot ≡ (false, d, vm))
unfolding swap_out_vm swap_in_vm swap_slot_start
swap_refused d vm slot h k = (ground arith, ground arith)

-- The memory agrees with the image on the bytes below `16 * s`.
abbrev Agree : ℕ → List ℕ → List ℕ → Type 0
Agree s m mem = (length m ≡ 255) × ((i : ℕ) → i < 16 * s → i < 255 → get_or m i 0 ≡ get_or mem i 0)

-- One sector read.
module _ (b : ℕ) (d : HardDisk) (mem m : List ℕ) (s : ℕ) (h : d.busy ≡ false) (hb : b < 113)
    (hs : s < 16) where
  loaded : List ℕ
  loaded = memcpy (chunk s) m (s * 16) (sector_at d (b + s)) 0 0

  loaded_ok : read_sector_chunk d (u16 (b + s)) m (s * 16) (chunk s) ≡ (some loaded, after_read d)
  unfolding loaded read_sector_chunk read_disk
  loaded_ok = ground (arith, h)

  loaded-Agree : Stored b s d mem → Agree s m mem → Agree (s + 1) loaded mem
  unfolding loaded
  loaded-Agree st ag = (
    length-memcpy (chunk s) m (s * 16) (sector_at d (b + s)) 0 0 ∙ ag.0,
    λ i p q. elim (dec_lt i (16 * s)) [
      | yes l ↦
          get_or-memcpy_out (chunk s) m (s * 16) (sector_at d (b + s)) 0 0 i (inl (omega arith))
          ∙ ag.1 i l q
      | no g ↦ ground (
        arith,
        get_or-memcpy_in (chunk s) m (s * 16) (sector_at d (b + s)) 0 0 (i - 16 * s)
            (ground (arith, g)) (ground (arith, ag.0)),
        st s (i - 16 * s) (omega arith) hs (omega (arith, g)) (omega (arith, g)),
      )
    ],
  )

in_loop_lem :
    (b : ℕ) (mem : List ℕ) (n s : ℕ) (d : HardDisk) (m : List ℕ)
    → n + s ≡ 16
    → d.busy ≡ false
    → b < 113
    → Stored b s d mem
    → Agree s m mem
    → (d' : HardDisk) × (m' : List ℕ) × (in_loop n d m b s (255 - 16 * s) ≡ (true, d', m'))
      × Agree 16 m' mem
unfolding in_loop
in_loop_lem b mem zero s d m e h hb st ag = (d, m, refl, (ag.0, λ i p q. ag.1 i (omega arith) q))
in_loop_lem b mem (suc n) s d m e h hb st ag =
    let hs : s < 16 = omega arith in
    let w = loaded b d mem m s h hb hs in
    let (d', m', eq, o) =
      in_loop_lem b mem n (s + 1) (after_read d) w (omega arith) refl hb
        (λ k j p. st k j (omega arith)) (loaded-Agree b d mem m s h hb hs st ag) in
    (d', m', ground (arith, loaded_ok b d mem m s h hb hs, remaining_next s hs, eq), o)

start_at : (slot : ℕ) → slot < 3 → swap_slot_start slot ≡ 80 + 16 * slot
unfolding swap_slot_start
start_at slot h = omega arith

swap_out_at :
    (d d' : HardDisk) (vm : VirtualMachine) (slot : ℕ)
    → slot < 3
    → out_loop 16 d vm.memory (80 + 16 * slot) 0 255 ≡ (true, d')
    → swap_out_vm d vm slot ≡ (true, d')
unfolding swap_out_vm
swap_out_at d d' vm slot h e = rw (start_at slot h) (ground (arith, e))

swap_in_at :
    (d d' : HardDisk) (vm : VirtualMachine) (slot : ℕ) (m : List ℕ)
    → slot < 3
    → in_loop 16 d vm.memory (80 + 16 * slot) 0 255 ≡ (true, d', m)
    → swap_in_vm d vm slot ≡ (true, d', record vm { memory = m })
unfolding swap_in_vm
swap_in_at d d' vm slot m h e = rw (start_at slot h) (ground (arith, e))

frame :
    (x y : List ℕ) (slot t : ℕ)
    → ((t < 80 + 16 * slot + 0) ⊎ (80 + 16 * slot + 16 ≤ t) → x ≡ y)
    → x ≡ (if leb (80 + 16 * slot) t && ltb t (96 + 16 * slot) then x else y)
frame x y slot t h = elim (dec_lt t (80 + 16 * slot)) [
  | yes l ↦ ground (arith, h (inl (omega (arith, l))))
  | no g ↦ elim (dec_lt t (96 + 16 * slot)) [
    | yes l ↦ ground (arith, g)
    | no k ↦ ground (arith, h (inr (omega (arith, k))))
  ]
]

-- In the three slots of an idle disk, a swap out followed by a swap in, into the same machine or another
-- one, gives back the memory image byte for byte, whatever the memory held in between; both succeed.
-- The swap in changes nothing else of the machine, and the sectors outside the slot keep their bytes.
swap_in-swap_out :
    (d : HardDisk) (vm other : VirtualMachine) (slot t : ℕ)
    → d.busy ≡ false
    → Sized d
    → slot < 3
    → length vm.memory ≡ vm_memory_size
    → length other.memory ≡ vm_memory_size
    → (d' : HardDisk) × (d'' : HardDisk) × (swap_out_vm d vm slot ≡ (true, d'))
      × (swap_in_vm d' other slot ≡ (true, d'', record other { memory = vm.memory }))
      × (sector_at d' t ≡ (
          if leb (80 + 16 * slot) t && ltb t (96 + 16 * slot)
          then sector_at d' t
          else sector_at d t))
swap_in-swap_out d vm other slot t idle sized hslot lv lo =
    let b = 80 + 16 * slot in
    let (d', eq, o) = out_loop_lem b vm.memory 16 0 d refl (idle, sized) (omega arith) in
    let (d'', m', eq', ag) =
      in_loop_lem b vm.memory 16 0 d' other.memory refl o.0.0 (omega arith) o.1
        (lo, λ i p. absurd (omega arith)) in
    let e : m' ≡ vm.memory =
      list_ext m' vm.memory 0 (ag.0 ∙ sym lv)
        (λ i p. ag.1 i (omega (arith, ag.0)) (omega (arith, ag.0))) in
    (
      d',
      d'',
      swap_out_at d d' vm slot hslot eq,
      swap_in_at d' d'' other slot m' hslot eq'
          ∙ ap (λ m. (true, d'', record other { memory = m })) e,
      frame (sector_at d' t) (sector_at d t) slot t (o.2 t),
    )

-- On an idle disk there are three slots. In each of them a swap out followed by a swap in, into the same
-- machine or another one, gives back the memory image byte for byte, whatever the memory held in between;
-- both succeed, the swap in changes nothing else of the machine, and the sectors outside the slot keep
-- their bytes. Every other slot below 4091, from where on the sector number overflows, is refused in both
-- directions, and nothing changes.
pub swap_lem :
    (d : HardDisk) (vm other : VirtualMachine) (slot t : ℕ)
    → d.busy ≡ false
    → Sized d
    → slot < 4091
    → length vm.memory ≡ vm_memory_size
    → length other.memory ≡ vm_memory_size
    → ((slot < 3)
        × (d' : HardDisk) × (d'' : HardDisk) × (swap_out_vm d vm slot ≡ (true, d'))
        × (swap_in_vm d' other slot ≡ (true, d'', record other { memory = vm.memory }))
        × (sector_at d' t ≡ (
            if leb (80 + 16 * slot) t && ltb t (96 + 16 * slot)
            then sector_at d' t
            else sector_at d t)))
      ⊎ ((3 ≤ slot)
          × (swap_out_vm d vm slot ≡ (false, d))
          × (swap_in_vm d vm slot ≡ (false, d, vm)))
swap_lem d vm other slot t idle sized h lv lo = elim (dec_lt slot 3) [
  | yes l ↦
      let (d', d'', o, i, k) = swap_in-swap_out d vm other slot t idle sized l lv lo in
      inl (l, d', d'', o, i, k)
  | no g ↦
      let k : 3 ≤ slot = omega (arith, g) in
      let (o, i) = swap_refused d vm slot k h in inr (k, o, i)
]
