-- ===== src/Vm/Channel.antt =====
-- src/vm/vm_channel.c. The pointers are taken as not null; the log lines are left out. The terminal is
-- a list: the bytes that `putchar` prints, and the characters that `getchar` gives before the end.
pub mod Echo
use rm_vm.Common.{
  ℕ, zero, suc, ◌+◌, Bool, true, false, Option, none, some, List, [], ◌∷◌, leb, ◌==◌, if◌then◌else◌,
  length, get_or, set, u8,
}
use rm_vm.Rm.State.{Machine}
use rm_vm.Rm.Disk.{HardDisk}
use rm_vm.Rm.Channel.{ChannelDevice, channel_xchg}

unfoldable pub vm_init_channel : ChannelDevice
vm_init_channel = record {
  sb = 0;
  db = 0;
  st = 0;
  dt = 0;
  offset = 0;
  count = 0;
  data_word = 0;
  busy = false;
}

-- `none` is an access outside the memory, as in `channelXCHG`.
unfoldable pub vm_channel_xchg :
    ChannelDevice
    → Machine
    → HardDisk
    → Option ℕ
    → ℕ
    → ℕ
    → ℕ
    → ℕ
    → ℕ
    → Option (Bool × ChannelDevice × Machine)
vm_channel_xchg ch m disk input src dst sb db count =
    let ch' = record ch { st = src; dt = dst; sb = sb; db = db; count = count; busy = true } in
    elim (channel_xchg ch' m disk input) [
      | none ↦ none
      | some (ok, ch1, m1) ↦ some (ok, record ch1 { busy = false }, m1)
    ]

-- The loop of `VMwriteChannel` with `n` bytes to go at index `i`: what it prints. `none` is a read
-- outside `data`.
unfoldable pub put_bytes : ℕ → ℕ → List ℕ → Option (List ℕ)
put_bytes zero i data_bytes = some []
put_bytes (suc n) i data_bytes =
    let rest = put_bytes n (i + 1) data_bytes in
    if leb (length data_bytes) i
    then none
    else (elim rest [ none ↦ none | some out ↦ some (get_or data_bytes i 0 ∷ out) ])

unfoldable pub vm_write_channel : List ℕ → ℕ → Option (Bool × List ℕ)
vm_write_channel data_bytes len =
    if len == 0
    then some (false, [])
    else (elim (put_bytes len 0 data_bytes) [ none ↦ none | some out ↦ some (true, out) ])

-- The loop of `VMreadChannel` with `n` bytes to go at index `i`: whether the input held them, `data`,
-- and the input that is left. `none` is a write outside `data`.
unfoldable pub get_bytes : ℕ → ℕ → List ℕ → List ℕ → Option (Bool × List ℕ × List ℕ)
get_bytes zero i input data_bytes = some (true, data_bytes, input)
get_bytes (suc n) i [] data_bytes = some (false, data_bytes, [])
get_bytes (suc n) i (ch ∷ input) data_bytes =
    let rest = get_bytes n (i + 1) input (set data_bytes i (u8 ch)) in
    if leb (length data_bytes) i then none else rest

unfoldable pub vm_read_channel : List ℕ → ℕ → List ℕ → Option (Bool × List ℕ × List ℕ)
vm_read_channel data_bytes len input =
    if len == 0 then some (false, data_bytes, input) else get_bytes len 0 input data_bytes
