-- ===== src/Common/Bits.antt =====
-- `math/bits.Len`, the round-up to a power of two that the shard count and the trace ring share,
-- and `&` with a mask of ones as a remainder.
use Prim.Native.Nat.{
  ℕ, zero, suc, ◌+◌, ◌-◌, ◌*◌, ◌/◌, ◌%◌, ◌^◌, ◌≤◌, ◌<◌, min, max, bit_and, digits, bit_and-bitwise,
}
use mathlib.Core.Path.{◌≡◌, ◌∙◌, ap}
use native.Mathlib.Nat.{
  pow-suc, one-le-pow, mul-add-mod_self_left, mod-eq_of_lt, div-add-mod, mod-lt, zero-mod,
}
use native.Mathlib.Omega.{arith}
use belady.Common.Tests.{◌==◌, if◌then◌else◌}

-- How many times `n` can be halved before it is zero, in at most `w` rounds.
len_within : ℕ → ℕ → ℕ
len_within zero n = 0
len_within (suc w) n = let rest = len_within w (n / 2) in if n == 0 then 0 else suc rest

-- `bits.Len` of a 64-bit word.
unfoldable pub bit_len : ℕ → ℕ
unfolding len_within
bit_len n = len_within 64 n

len_within_bounds :
    (w n : ℕ)
    → n < 2 ^ w
    → (n < 2 ^ len_within w n) × (len_within w n ≤ w) × (2 ^ len_within w n ≤ max 1 (2 * n))
unfolding len_within
len_within_bounds zero n h = (h, omega arith, omega arith)
len_within_bounds (suc w) n h =
    ground (arith, pow-suc 2 w, pow-suc 2 (len_within w (n / 2)), len_within_bounds w (n / 2))

-- `1 << bits.Len(n-1)` is the least power of two that is at least `n`, and less than twice it.
pub bit_len_bounds :
    (n : ℕ) → n < 2 ^ 64 → (n < 2 ^ bit_len n) × (bit_len n ≤ 64) × (2 ^ bit_len n ≤ max 1 (2 * n))
unfolding bit_len
bit_len_bounds n h = len_within_bounds 64 n h

-- One more binary digit of a remainder.
mod-double : (x p : ℕ) → 0 < p → (x / 2 % p) * 2 + x % 2 ≡ x % (2 * p)
mod-double x p h =
    let q = x / 2 / p in
    let r = x / 2 % p in
    let fits : 2 * r + x % 2 < 2 * p = omega (arith, mod-lt (x / 2) h) in
    let split : x ≡ 2 * p * q + (2 * r + x % 2) = omega (arith, div-add-mod (x / 2) p) in
    omega (
      arith,
      ap (λ (t : ℕ). t % (2 * p)) split,
      mul-add-mod_self_left (2 * p) q (2 * r + x % 2),
      mod-eq_of_lt fits,
    )

digits_mask : (k n a : ℕ) → a ≤ n → digits (λ b. zero) min n a (2 ^ k - 1) ≡ a % 2 ^ k
digits_mask k zero zero h = omega (arith, zero-mod (2 ^ k))
digits_mask k zero (suc a) h = absurd (omega arith)
digits_mask k (suc n) zero h = omega (arith, zero-mod (2 ^ k))
digits_mask zero (suc n) (suc a) h = omega (arith, digits_mask zero n (suc a / 2) (omega arith))
digits_mask (suc k) (suc n) (suc a) h =
    let pow : 2 ^ suc k ≡ 2 * 2 ^ k = omega (arith, pow-suc 2 k) in
    let pos : 1 ≤ 2 ^ k = one-le-pow k 2 (omega arith) in
    let half : (2 ^ suc k - 1) / 2 ≡ 2 ^ k - 1 = omega arith in
    rw (half, digits_mask k n (suc a / 2) (omega arith))
      (omega (arith, mod-double (suc a) (2 ^ k) (omega arith), ap (λ (t : ℕ). suc a % t) pow))

-- `a & (2^k - 1)`
pub bit_and_mask : (k a : ℕ) → bit_and a (2 ^ k - 1) ≡ a % 2 ^ k
bit_and_mask k a = bit_and-bitwise a (2 ^ k - 1) ∙ digits_mask k a a (omega arith)
