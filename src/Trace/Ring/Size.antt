-- ===== src/Trace/Ring/Size.antt =====
-- The sizes that `NewRing` computes.
use native.Mathlib.Decide.{dec_le}
use native.Mathlib.Nat.{mod-eq_of_lt, pow-le-pow_right}
use belady.Common.{
  ℕ, suc, false, le→ltb, lt_i64, sub64, ◌∙◌, ◌-◌, ◌*◌, ◌^◌, ◌≤◌, ◌<◌, ◌≡◌, arith, bit_len,
  bit_len_bounds, lt_i64-eq, sub64-eq,
}
use belady.Trace.Ring.{round_up_pow2}

exponent-le : (k m : ℕ) → 2 ^ k < 2 ^ suc m → k ≤ m
exponent-le k m h = elim (dec_le k m) [
  | yes p ↦ p
  | no p ↦
      absurd
        (omega (arith, pow-le-pow_right {n = 2} (omega arith) {i = suc m} {j = k} (omega arith)))
]

-- For a count from 1 to 2 ^ 62, roundUpPow2 gives the least power of two that is at least the
-- count.
pub round_up_pow2_bounds :
    (n : ℕ)
    → 1 ≤ n
    → n ≤ 2 ^ 62
    → (k : ℕ) × (round_up_pow2 n ≡ 2 ^ k) × (k ≤ 62) × (n ≤ 2 ^ k) × (2 ^ k < 2 * n)
unfolding round_up_pow2
round_up_pow2_bounds n lo hi =
    let pred : sub64 n 1 ≡ n - 1 = sub64-eq n 1 lo (omega arith) in
    let (above, _, below) = bit_len_bounds (n - 1) (omega arith) in
    let test : lt_i64 n 1 ≡ false = lt_i64-eq n 1 (omega arith) (omega arith) ∙ le→ltb n 1 lo in
    let fits : bit_len (n - 1) ≤ 62 = exponent-le (bit_len (n - 1)) 62 (omega arith) in
    (bit_len (n - 1), rw (test, pred) (mod-eq_of_lt (omega arith)), fits, omega arith, omega arith)
