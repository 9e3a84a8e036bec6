-- ===== src/Common/Float.antt =====
-- The float32 and float64 operations that the Go code uses, as a parameter: the development has no floating
-- point of its own.
use Prim.Native.Nat.{ℕ, ◌<◌, ◌^◌}
use mathlib.Core.Bool.{Bool, true}
use mathlib.Core.Path.{◌≡◌}
use belady.Common.Tests.{ltb}

-- `of_i64` and `of_u32` convert a word; `neg` is unary minus.
pub record Float64 : Type 1 where
  pub F : Type 0
  pub less : F → F → Bool
  pub neg_inf : F
  pub neg : F → F
  pub of_i64 : ℕ → F
  pub of_u32 : ℕ → F

-- IEEE 754: integers of up to 53 bits convert exactly, `-` reverses the order, and every number is
-- above the negative infinity.
pub record IsIeee (fl : Float64) : Type 0 where
  pub exact_i64 :
      (a b : ℕ) → a < 2 ^ 53 → b < 2 ^ 53 → fl.less (fl.of_i64 a) (fl.of_i64 b) ≡ ltb a b
  pub above_i64 : (a : ℕ) → a < 2 ^ 53 → fl.less fl.neg_inf (fl.of_i64 a) ≡ true
  pub reversed_u32 :
      (a b : ℕ)
      → a < 2 ^ 32
      → b < 2 ^ 32
      → fl.less (fl.neg (fl.of_u32 a)) (fl.neg (fl.of_u32 b)) ≡ ltb b a
  pub above_u32 : (a : ℕ) → a < 2 ^ 32 → fl.less fl.neg_inf (fl.neg (fl.of_u32 a)) ≡ true

-- The float32 operations: `of_i32`, `of_i64` and `of_u32` convert a word, and `le_f` and `less_f` are
-- `<=` and `<`.
pub record Float32 : Type 1 where
  pub F : Type 0
  pub zero_f : F
  pub one_f : F
  pub million_f : F
  pub add_f : F → F → F
  pub div_f : F → F → F
  pub le_f : F → F → Bool
  pub less_f : F → F → Bool
  pub of_i32 : ℕ → F
  pub of_i64 : ℕ → F
  pub of_u32 : ℕ → F
