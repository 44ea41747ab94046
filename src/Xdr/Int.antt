-- ===== src/Xdr/Int.antt =====
-- `int32_t` and its casts to and from `uint32_t`, which keep the bit pattern.
use nfstest.Prelude.{ℕ, ◌-◌, ◌%◌, ◌^◌, ◌<◌, ◌≡◌, ltb, if◌then◌else◌, arith}

-- `negsuc n` is -(n + 1).
pub data ℤ : Type 0 where
  pos : ℕ → ℤ
  negsuc : ℕ → ℤ

unfoldable pub to_u32 : ℤ → ℕ
to_u32 (pos n) = n % 2 ^ 32
to_u32 (negsuc n) = 2 ^ 32 - 1 - n % 2 ^ 32

unfoldable pub to_i32 : ℕ → ℤ
to_i32 w = if ltb w (2 ^ 31) then pos w else negsuc (2 ^ 32 - 1 - w)

abbrev pub IsI32 : ℤ → Type 0
IsI32 (pos n) = n < 2 ^ 31
IsI32 (negsuc n) = n < 2 ^ 31

pub to_i32-to_u32 : (z : ℤ) → IsI32 z → to_i32 (to_u32 z) ≡ z
unfolding to_i32 to_u32
to_i32-to_u32 (pos n) h = ground arith
to_i32-to_u32 (negsuc n) h = ground arith

pub to_u32-lt : (z : ℤ) → to_u32 z < 0x1_0000_0000
unfolding to_u32
to_u32-lt (pos n) = omega arith
to_u32-lt (negsuc n) = omega arith
