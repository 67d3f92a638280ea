-- ===== src/Base/Words.antt =====
-- Fixed-width unsigned integers: a value is a number, and each operation wraps at its width.
use Prim.Native.Nat.{ℕ, ◌+◌, ◌-◌, ◌%◌, ◌^◌}

abbrev pub u8 : ℕ → ℕ
u8 n = n % 2 ^ 8

abbrev pub u16 : ℕ → ℕ
u16 n = n % 2 ^ 16

abbrev pub u32 : ℕ → ℕ
u32 n = n % 2 ^ 32

abbrev pub u64 : ℕ → ℕ
u64 n = n % 2 ^ 64

-- `a - b` on uint16 and uint32, for operands in range.
abbrev pub sub16 : ℕ → ℕ → ℕ
sub16 a b = u16 (a + 2 ^ 16 - b)

abbrev pub sub32 : ℕ → ℕ → ℕ
sub32 a b = u32 (a + 2 ^ 32 - b)
