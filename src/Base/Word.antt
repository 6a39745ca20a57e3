-- ===== src/Base/Word.antt =====
-- Machine integers: wrap-around, single bits, and little-endian decoding of bytes in memory.
use Prim.Native.Nat.{ℕ, ◌+◌, ◌-◌, ◌*◌, ◌/◌, ◌%◌, ◌^◌}
use mathlib.Core.Bool.{Bool}
use mathlib.Core.List.{List}
use mina_os.Base.Tests.{◌==◌}
use mina_os.Base.Lists.{get_or}

abbrev pub u16 : ℕ → ℕ
u16 n = n % 2 ^ 16

abbrev pub u32 : ℕ → ℕ
u32 n = n % 2 ^ 32

abbrev pub u64 : ℕ → ℕ
u64 n = n % 2 ^ 64

-- `a - b` at `usize`.
abbrev pub sub64 : ℕ → ℕ → ℕ
sub64 a b = (a + 2 ^ 64 - b) % 2 ^ 64

-- `x & (1 << k) != 0`.
abbrev pub has_bit : ℕ → ℕ → Bool
has_bit x k = ((x / 2 ^ k) % 2) == 1

-- `x & !(1 << k)`.
abbrev pub clear_bit : ℕ → ℕ → ℕ
clear_bit x k = x - 2 ^ k * ((x / 2 ^ k) % 2)

-- `x | (1 << k)`.
abbrev pub set_bit : ℕ → ℕ → ℕ
set_bit x k = x + 2 ^ k * (1 - (x / 2 ^ k) % 2)

-- The byte at offset `i` of a buffer.
abbrev pub byte_at : List ℕ → ℕ → ℕ
byte_at bs i = get_or bs i 0

-- A `u16` and a `u32` field at address `i` of a memory.
abbrev pub u16_at : (ℕ → ℕ) → ℕ → ℕ
u16_at f i = f i + 2 ^ 8 * f (i + 1)

abbrev pub u32_at : (ℕ → ℕ) → ℕ → ℕ
u32_at f i = u16_at f i + 2 ^ 16 * u16_at f (i + 2)
