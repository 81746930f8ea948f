-- ===== src/Common/Words.antt =====
-- The integer types of the C code: the value of an unsigned type is kept below its modulus.
use Prim.Native.Nat.{ℕ, ◌+◌, ◌-◌, ◌/◌, ◌%◌, ◌^◌, ◌<◌}
use mathlib.Core.Bool.{Bool}
use mathlib.Core.List.{List}
use rm_vm.Common.Tests.{◌==◌}
use rm_vm.Common.Lists.{All}

-- Conversion to `uint8_t` and `uint16_t`.
abbrev pub u8 : ℕ → ℕ
u8 n = n % 256

abbrev pub u16 : ℕ → ℕ
u16 n = n % 65536

abbrev pub uint16_max : ℕ
uint16_max = 65535

abbrev pub IsByte : ℕ → Type 0
IsByte n = n < 256

abbrev pub IsWord : ℕ → Type 0
IsWord n = n < 65536

abbrev pub AllWord : List ℕ → Type 0
AllWord = All IsWord

-- `a - b` on `uint16_t`.
abbrev pub sub_u16 : ℕ → ℕ → ℕ
sub_u16 a b = (a + 65536 - b) % 65536

-- `x & (1 << k)` as a truth value.
abbrev pub bit : ℕ → ℕ → Bool
bit x k = x / 2 ^ k % 2 == 1
