-- ===== src/Rm/Io.antt =====
-- src/rm/io.c: the disk behind the channel device.
pub mod Transfer
use rm_vm.Common.{
  ℕ, zero, suc, ◌+◌, ◌-◌, ◌*◌, ◌/◌, ◌%◌, ◌^◌, ◌≤◌, ◌<◌, bit_or, min, ◌≡◌, refl, sym, ap, ap₂, ◌∙◌,
  subst, ◌≢◌, ◌↔◌, ◌⊎◌, inl, inr, Bool, true, false, not, ◌&&◌, ◌||◌, Option, none, some, List, [],
  ◌∷◌, ◌++◌, map, append-nil, append_assoc, arith, dec_lt, ℕ_discrete, ltb, leb, ◌==◌,
  if◌then◌else◌, tests, Bool-cases, Option-cases, ltb→lt, ltb→ge, leb→le, leb→gt, ==→eq, length,
  get_or, set, take, drop, replicate, length-set, get_or-set_self, get_or-set_ne, length-append,
  length-replicate, All, All-set, All-get_or, All-replicate, u8, u16, uint16_max, IsByte, IsWord,
  AllWord, sub_u16, bit, drop-set, memcpy, length-memcpy, get_or-memcpy_out, get_or-memcpy_in,
  list_ext,
}
use rm_vm.Rm.State.{Machine, si_none, si_read, si_write, raise_system_interrupt}
use rm_vm.Rm.Disk.{HardDisk, init_disk}
use rm_vm.Rm.Channel.{
  ChannelDevice, init_channel_device, channel_xchg, ch_src_disk, ch_src_super_mem, ch_dst_super_mem,
  ch_dst_disk,
}

-- The globals that the file works on.
pub record Io : Type 0 where
  pub machine : Machine
  pub hard_disk : HardDisk
  pub disk_channel : ChannelDevice
  pub disk_initialized : Bool

unfoldable pub io_init : Io → Io
io_init s = if s.disk_initialized then s else record s {
  hard_disk = init_disk 0;
  disk_channel = init_channel_device;
  disk_initialized = true;
}

-- The channel is set up, run, and the interrupt raised if it reports success; `none` is an access
-- outside the memory. Neither operation reads an input.
start_channel : ℕ → ChannelDevice → Io → Option (Bool × Io)
unfolding raise_system_interrupt
start_channel si ch s = elim (channel_xchg ch s.machine s.hard_disk none) [
  | none ↦ none
  | some (ok, ch', m) ↦
      if ok
      then some (true, record s { machine = raise_system_interrupt si m; disk_channel = ch' })
      else some (false, record s { machine = m; disk_channel = ch' })
]

unfoldable pub io_read : ℕ → ℕ → ℕ → Io → Option (Bool × Io)
unfolding start_channel
io_read sector dest_addr count s =
    let ch = record s.disk_channel {
      st = ch_src_disk;
      sb = sector;
      dt = ch_dst_super_mem;
      db = dest_addr;
      count = count;
      offset = 0;
    } in
    if not s.disk_initialized then some (false, s) else start_channel si_read ch s

unfoldable pub io_write : ℕ → ℕ → ℕ → Io → Option (Bool × Io)
unfolding start_channel
io_write sector src_addr count s =
    let ch = record s.disk_channel {
      st = ch_src_super_mem;
      sb = src_addr;
      dt = ch_dst_disk;
      db = sector;
      count = count;
      offset = 0;
    } in
    if not s.disk_initialized then some (false, s) else start_channel si_write ch s

unfoldable pub io_check_interrupts : Io → Io
io_check_interrupts s =
    if s.disk_channel.busy
    then s
    else if not (s.machine.cpu.si == si_none)
    then record s { machine = record s.machine { cpu = record s.machine.cpu { si = si_none } } }
    else s
