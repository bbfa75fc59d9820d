-- ===== src/Prelude/Words.antt =====
-- Unsigned machine words as native numbers, with their wrap-around, and the 64-bit pattern of a
-- signed integer.
use Prim.Native.Nat.{ℕ, ◌+◌, ◌-◌, ◌*◌, ◌%◌, ◌^◌, ◌<◌}
use mathlib.Core.Path.{◌≡◌}
use native.Mathlib.Omega.{arith}
use flux_trade.Prelude.Tests.{ltb, if◌then◌else◌}
use flux_trade.Prelude.Int.{ℤ, pos, negsuc}

abbrev pub u32_mod : ℕ
u32_mod = 2 ^ 32

abbrev pub u64_mod : ℕ
u64_mod = 2 ^ 64

abbrev pub add32 : ℕ → ℕ → ℕ
add32 a b = (a + b) % u32_mod

abbrev pub sub32 : ℕ → ℕ → ℕ
sub32 a b = (a + u32_mod - b) % u32_mod

abbrev pub add64 : ℕ → ℕ → ℕ
add64 a b = (a + b) % u64_mod

abbrev pub sub64 : ℕ → ℕ → ℕ
sub64 a b = (a + u64_mod - b) % u64_mod

abbrev pub mul64 : ℕ → ℕ → ℕ
mul64 a b = (a * b) % u64_mod

-- The conversion of an int64_t to uint64_t.
abbrev pub to_u64 : ℤ → ℕ
to_u64 (pos n) = n % u64_mod
to_u64 (negsuc n) = (u64_mod - 1) - n % u64_mod

-- The conversion of a uint64_t to int64_t.
abbrev pub to_i64 : ℕ → ℤ
to_i64 w = if ltb w (2 ^ 63) then pos w else negsuc (u64_mod - w - 1)

pub to_u64-to_i64 : (w : ℕ) → w < u64_mod → to_u64 (to_i64 w) ≡ w
to_u64-to_i64 w h = ground arith
