-- ===== src/Base/Words.antt =====
-- Machine words as native numbers: `u32` and `u64` bounds, casts, saturating and wrapping operations.
use Prim.Native.Nat.{ℕ, ◌+◌, ◌-◌, ◌*◌, ◌%◌, ◌^◌, min}

abbrev pub u32_max : ℕ
u32_max = 0xffff_ffff

abbrev pub u64_max : ℕ
u64_max = 0xffff_ffff_ffff_ffff

-- `x as u32` of a `u64`.
abbrev pub as_u32 : ℕ → ℕ
as_u32 x = x % 2 ^ 32

-- `saturating_sub` stops at 0, as `-` on ℕ does.
abbrev pub saturating_sub : ℕ → ℕ → ℕ
saturating_sub a b = a - b

abbrev pub saturating_add_u32 : ℕ → ℕ → ℕ
saturating_add_u32 a b = min (a + b) u32_max

abbrev pub saturating_add_u64 : ℕ → ℕ → ℕ
saturating_add_u64 a b = min (a + b) u64_max

abbrev pub saturating_mul_u64 : ℕ → ℕ → ℕ
saturating_mul_u64 a b = min (a * b) u64_max

-- What is left of a sum or a product of `u64` that wraps.
abbrev pub as_u64 : ℕ → ℕ
as_u64 x = x % 2 ^ 64
