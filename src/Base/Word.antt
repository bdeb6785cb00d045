-- ===== src/Base/Word.antt =====
-- Casts to the fixed widths. A signed value is kept as its two's complement bit pattern.
use Prim.Native.Nat.{ℕ, ◌+◌, ◌-◌, ◌%◌, ◌^◌}

abbrev pub u8 : ℕ → ℕ
u8 n = n % 2 ^ 8

abbrev pub u16 : ℕ → ℕ
u16 n = n % 2 ^ 16

abbrev pub u32 : ℕ → ℕ
u32 n = n % 2 ^ 32

abbrev pub u64 : ℕ → ℕ
u64 n = n % 2 ^ 64

-- `a - b` at 64 bits; `-` on ℕ stops at 0, so the modulus is added first.
abbrev pub sub_u64 : ℕ → ℕ → ℕ
sub_u64 a b = (a + 2 ^ 64 - b) % 2 ^ 64

-- `~x` at 8 and at 64 bits.
abbrev pub not_u8 : ℕ → ℕ
not_u8 x = 2 ^ 8 - 1 - x

abbrev pub not_u64 : ℕ → ℕ
not_u64 x = 2 ^ 64 - 1 - x
