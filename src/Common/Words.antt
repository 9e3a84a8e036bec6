-- ===== src/Common/Words.antt =====
-- Go's fixed-width integers as their bit patterns: an int64 or uint64 is a number below 2 ^ 64, an
-- int32 or uint32 one below 2 ^ 32. Signed words are in two's complement.
use Prim.Native.Nat.{ℕ, ◌+◌, ◌-◌, ◌%◌, ◌^◌, ◌≤◌, ◌<◌}
use mathlib.Core.Bool.{Bool}
use mathlib.Core.Path.{◌≡◌}
use native.Mathlib.Omega.{arith}
use belady.Common.Tests.{ltb, if◌then◌else◌}

unfoldable pub add64 : ℕ → ℕ → ℕ
add64 a b = (a + b) % 2 ^ 64

unfoldable pub sub64 : ℕ → ℕ → ℕ
sub64 a b = (a + 2 ^ 64 - b % 2 ^ 64) % 2 ^ 64

-- `a < b` on int64.
unfoldable pub lt_i64 : ℕ → ℕ → Bool
lt_i64 a b = ltb ((a + 2 ^ 63) % 2 ^ 64) ((b + 2 ^ 63) % 2 ^ 64)

-- The conversions int32 → int64 (and uint64), and int64 → int32 (and uint32).
unfoldable pub sign_extend : ℕ → ℕ
sign_extend a = if ltb a (2 ^ 31) then a else a + (2 ^ 64 - 2 ^ 32)

unfoldable pub truncate32 : ℕ → ℕ
truncate32 a = a % 2 ^ 32

pub add64-eq : (a b : ℕ) → a + b < 2 ^ 64 → add64 a b ≡ a + b
unfolding add64
add64-eq a b h = omega arith

pub sub64-eq : (a b : ℕ) → b ≤ a → a < 2 ^ 64 → sub64 a b ≡ a - b
unfolding sub64
sub64-eq a b h k = omega arith

-- On patterns with the top bit clear the signed order is that of the numbers.
pub lt_i64-eq : (a b : ℕ) → a < 2 ^ 63 → b < 2 ^ 63 → lt_i64 a b ≡ ltb a b
unfolding lt_i64
lt_i64-eq a b h k = ground arith

pub sign_extend-eq : (a : ℕ) → a < 2 ^ 31 → sign_extend a ≡ a
unfolding sign_extend
sign_extend-eq a h = ground arith

pub truncate32-eq : (a : ℕ) → a < 2 ^ 32 → truncate32 a ≡ a
unfolding truncate32
truncate32-eq a h = omega arith
