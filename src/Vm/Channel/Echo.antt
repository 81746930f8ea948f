-- ===== src/Vm/Channel/Echo.antt =====
-- src/vm/vm_channel.c: what is printed and read back.
use rm_vm.Common.{
  ℕ, zero, suc, ◌+◌, ◌≤◌, ◌<◌, ◌≡◌, refl, ap, inr, true, some, List, [], ◌∷◌, ◌++◌, arith, dec_lt,
  ltb, if◌then◌else◌, length, get_or, set, length-set, All, All-get_or, u8, IsByte, memcpy,
  length-memcpy, get_or-memcpy_out, get_or-memcpy_in,
}
use rm_vm.Vm.Channel.{put_bytes, vm_write_channel, get_bytes, vm_read_channel}

-- What `VMwriteChannel` prints.
pub bytes_from : ℕ → ℕ → List ℕ → List ℕ
bytes_from zero i xs = []
bytes_from (suc n) i xs = get_or xs i 0 ∷ bytes_from n (i + 1) xs

put_bytes_lem :
    (n i : ℕ) (xs : List ℕ) → i + n ≤ length xs → put_bytes n i xs ≡ some (bytes_from n i xs)
unfolding put_bytes bytes_from
put_bytes_lem zero i xs h = refl
put_bytes_lem (suc n) i xs h = ground (arith, put_bytes_lem n (i + 1) xs (omega arith))

length-bytes_from : (n i : ℕ) (xs : List ℕ) → length (bytes_from n i xs) ≡ n
unfolding bytes_from
length-bytes_from zero i xs = refl
length-bytes_from (suc n) i xs = ap suc (length-bytes_from n (i + 1) xs)

-- What `VMreadChannel` makes of the buffer.
filled : ℕ → ℕ → List ℕ → List ℕ → List ℕ
filled n i xs buf = memcpy n buf i xs i 0

get_bytes_lem :
    (n i : ℕ) (xs buf more : List ℕ)
    → All IsByte xs
    → i + n ≤ length buf
    → get_bytes n i (bytes_from n i xs ++ more) buf ≡ some (true, filled n i xs buf, more)
unfolding get_bytes bytes_from filled memcpy
get_bytes_lem zero i xs buf more b h = refl
get_bytes_lem (suc n) i xs buf more b h =
    let x = get_or xs i 0 in
    let byte : u8 x ≡ x = omega (arith, All-get_or IsByte xs i 0 b (omega arith)) in
    ground (
      arith,
      ap (λ y. get_bytes n (i + 1) (bytes_from n (i + 1) xs ++ more) (set buf i y)) byte,
      get_bytes_lem n (i + 1) xs (set buf i x) more b (omega (arith, length-set buf i x)),
    )

-- What `VMwriteChannel` prints, a first `len` bytes of an array, `VMreadChannel` reads back when it is
-- the input: both succeed, the buffer then starts with those bytes, keeps its own behind them, and the
-- input that follows is left.
pub vm_read_channel-vm_write_channel :
    (xs buf more : List ℕ) (len j : ℕ)
    → All IsByte xs
    → 0 < len
    → len ≤ length xs
    → len ≤ length buf
    → (out : List ℕ) × (buf' : List ℕ) × (vm_write_channel xs len ≡ some (true, out))
      × (vm_read_channel buf len (out ++ more) ≡ some (true, buf', more))
      × (length out ≡ len)
      × (length buf' ≡ length buf)
      × (get_or buf' j 0 ≡ (if ltb j len then get_or xs j 0 else get_or buf j 0))
unfolding vm_write_channel vm_read_channel filled
vm_read_channel-vm_write_channel xs buf more len j b p hx hb = (
  bytes_from len 0 xs,
  filled len 0 xs buf,
  ground (arith, p, put_bytes_lem len 0 xs (omega arith)),
  ground (arith, p, get_bytes_lem len 0 xs buf more b (omega arith)),
  length-bytes_from len 0 xs,
  length-memcpy len buf 0 xs 0 0,
  echoed,
)
  where
    echoed :
        get_or (filled len 0 xs buf) j 0 ≡ (if ltb j len then get_or xs j 0 else get_or buf j 0)
    echoed = elim (dec_lt j len) [
      | yes l ↦ ground (arith, l, get_or-memcpy_in len buf 0 xs 0 0 j l (omega arith))
      | no g ↦ ground (arith, g, get_or-memcpy_out len buf 0 xs 0 0 j (inr (omega (arith, g))))
    ]
