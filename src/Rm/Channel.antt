-- ===== src/Rm/Channel.antt =====
-- src/rm/channel_device.c. The pointers are taken as not null; the log lines, which are also where the
-- words of an output go, are left out. `input` is what `scanf` converts, if it converts anything.
use rm_vm.Common.{
  ℕ, zero, suc, ◌+◌, Bool, true, false, ◌&&◌, Option, none, some, List, leb, ◌==◌, if◌then◌else◌,
  set, u16,
}
use rm_vm.Rm.State.{Machine, si_read, si_write, pi_invalid_address}
use rm_vm.Rm.Memory.{read_raw, write_raw}
use rm_vm.Rm.Disk.{HardDisk, disk_read_word}

abbrev pub ch_src_user_mem : ℕ
ch_src_user_mem = 1

abbrev pub ch_src_super_mem : ℕ
ch_src_super_mem = 2

abbrev pub ch_src_disk : ℕ
ch_src_disk = 3

abbrev pub ch_src_io : ℕ
ch_src_io = 4

abbrev pub ch_dst_user_mem : ℕ
ch_dst_user_mem = 10

abbrev pub ch_dst_super_mem : ℕ
ch_dst_super_mem = 11

abbrev pub ch_dst_disk : ℕ
ch_dst_disk = 12

abbrev pub ch_dst_io : ℕ
ch_dst_io = 13

abbrev pub ch_dst_cpu_reg : ℕ
ch_dst_cpu_reg = 14

pub record ChannelDevice : Type 0 where
  pub sb : ℕ
  pub db : ℕ
  pub st : ℕ
  pub dt : ℕ
  pub offset : ℕ
  pub count : ℕ
  pub data_word : ℕ
  pub busy : Bool

-- `initChannelDevice`, and `resetChannelDevice`, which does the same in another order.
unfoldable pub init_channel_device : ChannelDevice
init_channel_device = record {
  sb = 0;
  db = 0;
  st = 0;
  dt = 0;
  offset = 0;
  count = 0;
  data_word = 0;
  busy = false;
}

-- The loops that copy words, with `n` to go at index `i`; `none` is an access outside `mem->cells`.
unfoldable pub transfer : (List ℕ → ℕ → Option ℕ) → ℕ → ℕ → ℕ → ℕ → List ℕ → Option (List ℕ)
transfer source zero i sb db mem = some mem
transfer source (suc n) i sb db mem = elim (source mem (u16 (sb + i))) [
  | none ↦ none
  | some v ↦ elim (write_raw mem (u16 (db + i)) v) [
    | none ↦ none
    | some mem' ↦ transfer source n (i + 1) sb db mem'
  ]
]

-- The loop that prints words.
unfoldable pub output : ℕ → ℕ → ℕ → List ℕ → Option (List ℕ)
output zero i sb mem = some mem
output (suc n) i sb mem = elim (read_raw mem (u16 (sb + i))) [
  | none ↦ none
  | some v ↦ output n (i + 1) sb mem
]

abbrev pub with_mem : (ℕ → ℕ) → Machine → Option (List ℕ) → Option Machine
with_mem si m none = none
with_mem si m (some mem) = some (record m { mem = mem; cpu = record (m.cpu) { si = si m.cpu.si } })

-- What the `switch` does for a valid source.
unfoldable pub exchange : ChannelDevice → Machine → HardDisk → Option ℕ → Option Machine
exchange ch m disk input =
    let move : (List ℕ → ℕ → Option ℕ) → Option (List ℕ) =
      λ source. transfer source ch.count 0 ch.sb ch.db m.mem in
    let same : Option Machine = some m in
    if ch.st == ch_src_user_mem
    then (if ch.dt == ch_dst_super_mem
        then with_mem (λ si. si) m (move read_raw)
        else if ch.dt == ch_dst_io
        then with_mem (λ _. si_write) m (output ch.count 0 ch.sb m.mem)
        else same)
    else if ch.st == ch_src_super_mem
    then (if ch.dt == ch_dst_user_mem then with_mem (λ si. si) m (move read_raw) else same)
    else if ch.st == ch_src_disk
    then (if ch.dt == ch_dst_super_mem
        then with_mem (λ _. si_read) m (move (λ _ s. some (disk_read_word disk s)))
        else same)
    else if ch.dt == ch_dst_cpu_reg
    then some (record m {
      cpu = record (m.cpu) {
        si = si_read;
        r = elim input [ none ↦ m.cpu.r | some v ↦ set m.cpu.r 0 (u16 v) ];
      };
    })
    else same

-- `none` is an access outside `mem->cells`. The disk is only read.
unfoldable pub channel_xchg :
    ChannelDevice → Machine → HardDisk → Option ℕ → Option (Bool × ChannelDevice × Machine)
channel_xchg ch m disk input =
    let ch' = record ch { busy = false } in
    if leb 1 ch.st && leb ch.st 4
    then (elim (exchange ch m disk input) [ none ↦ none | some m' ↦ some (true, ch', m') ])
    else some (false, ch', record m { cpu = record (m.cpu) { pi = pi_invalid_address } })
