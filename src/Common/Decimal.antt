-- ===== src/Common/Decimal.antt =====
-- `%d` of a number that is not negative, and the byte order of Go's strings.
use Prim.Native.Nat.{ℕ, zero, suc, ◌+◌, ◌*◌, ◌/◌, ◌%◌, ◌^◌, ◌≤◌, ◌<◌}
use mathlib.Core.Bool.{Bool, true, false}
use mathlib.Core.List.{[], ◌∷◌, ◌++◌}
use mathlib.Core.Logic.{inl, inr}
use mathlib.Core.Path.{◌≡◌, refl, ◌∙◌}
use native.Mathlib.Nat.{pow-suc, one-le-pow}
use native.Mathlib.Omega.{arith}
use belady.Common.Lists.{append_assoc}
use belady.Common.Tests.{ltb, ◌==◌, if◌then◌else◌, Bool-cases, ltb→lt, ==_refl}
use belady.Common.Text.{Text}

-- The last digit, behind the digits of a tenth, for at most one digit more than `fuel`.
unfoldable pub decimal_from : ℕ → ℕ → Text
decimal_from zero n = (b'0' + n % 10) ∷ []
decimal_from (suc fuel) n =
    let front = decimal_from fuel (n / 10) in
    if ltb n 10 then (b'0' + n) ∷ [] else front ++ ((b'0' + n % 10) ∷ [])

-- A 64-bit word has 20 digits at most.
unfoldable pub decimal : ℕ → Text
decimal n = decimal_from 20 n

-- `a < b`
unfoldable pub text_less : Text → Text → Bool
text_less [] [] = false
text_less [] (b ∷ bs) = true
text_less (a ∷ as') [] = false
text_less (a ∷ as') (b ∷ bs) = if a == b then text_less as' bs else ltb a b

pub text_less-prefix : (p a b : Text) → text_less (p ++ a) (p ++ b) ≡ text_less a b
unfolding text_less
text_less-prefix [] a b = refl
text_less-prefix (c ∷ p) a b = rw (==_refl c) (text_less-prefix p a b)

-- One digit more than `k`.
abbrev Width : ℕ → ℕ → Type 0
Width zero n = n < 10
Width (suc k) n = (10 ≤ n) × Width k (n / 10)

bounds-Width : (k n : ℕ) → 10 ^ k ≤ n → n < 10 ^ suc k → Width k n
bounds-Width zero n lo hi = omega (arith, hi)
bounds-Width (suc k) n lo hi =
    let low : 10 ^ suc k ≡ 10 * 10 ^ k = omega (arith, pow-suc 10 k) in
    let high : 10 ^ suc (suc k) ≡ 10 * 10 ^ suc k = omega (arith, pow-suc 10 (suc k)) in
    let one : 1 ≤ 10 ^ k = one-le-pow k 10 (omega arith) in
    (omega arith, bounds-Width k (n / 10) (omega arith) (omega arith))

decimal_from-less :
    (k fuel a b : ℕ) (r s : Text)
    → Width k a
    → Width k b
    → a < b
    → k < fuel
    → text_less (decimal_from fuel a ++ r) (decimal_from fuel b ++ s) ≡ true
unfolding decimal_from text_less
decimal_from-less k zero a b r s wa wb lt more = absurd (omega (arith, more))
decimal_from-less zero (suc fuel) a b r s wa wb lt more = ground arith
decimal_from-less (suc k) (suc fuel) a b r s wa wb lt more =
    let two_a : ltb a 10 ≡ false = ground (arith, wa.0) in
    let two_b : ltb b 10 ≡ false = ground (arith, wb.0) in
    let xs = decimal_from fuel (a / 10) in
    let ys = decimal_from fuel (b / 10) in
    rw
      (
        two_a,
        two_b,
        append_assoc xs ((b'0' + a % 10) ∷ []) r,
        append_assoc ys ((b'0' + b % 10) ∷ []) s,
      )
      (elim (Bool-cases (ltb (a / 10) (b / 10))) [
        | inl higher ↦
            decimal_from-less k fuel (a / 10) (b / 10) (((b'0' + a % 10) ∷ []) ++ r)
              (((b'0' + b % 10) ∷ []) ++ s) wa.1 wb.1 (ltb→lt _ _ higher) (omega (arith, more))
        | inr level ↦
            let same : a / 10 ≡ b / 10 = ground (arith, level, lt) in
            rw same (
              text_less-prefix ys (((b'0' + a % 10) ∷ []) ++ r) (((b'0' + b % 10) ∷ []) ++ s)
              ∙ ground (arith, same, lt))
      ])

-- Numbers of 19 digits have the order of their texts, whatever follows.
pub decimal-less :
    (a b : ℕ) (r s : Text)
    → 10 ^ 18 ≤ a
    → a < b
    → b < 10 ^ 19
    → text_less (decimal a ++ r) (decimal b ++ s) ≡ true
unfolding decimal
decimal-less a b r s lo lt hi =
    decimal_from-less 18 20 a b r s (bounds-Width 18 a lo (omega arith))
      (bounds-Width 18 b (omega arith) hi) lt (omega arith)
