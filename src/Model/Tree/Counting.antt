-- ===== src/Model/Tree/Counting.antt =====
-- How often a number stands in a list, and the pigeonhole principle.
use belady.Common.{
  ℕ, zero, suc, ◌+◌, ◌≤◌, ◌<◌, ◌≡◌, ◌≢◌, inl, inr, refl, sym, ap, ◌∙◌, some, List, [], ◌∷◌, ◌++◌,
  length, get_elem?, All, ltb, leb, ◌&&◌, ◌==◌, if◌then◌else◌, arith, Bool-cases,
}

abbrev pub count : ℕ → List ℕ → ℕ
count s [] = 0
count s (x ∷ xs) = if x == s then suc (count s xs) else count s xs

-- f a + f (a + 1) + …, `n` terms.
abbrev pub sum_from : ℕ → ℕ → (ℕ → ℕ) → ℕ
sum_from a zero f = 0
sum_from a (suc n) f = f a + sum_from (suc a) n f

pub count-append : (s : ℕ) (xs ys : List ℕ) → count s (xs ++ ys) ≡ count s xs + count s ys
count-append s [] ys = omega arith
count-append s (x ∷ xs) ys = ground (arith, count-append s xs ys)

sum_from_zero : (a n : ℕ) → sum_from a n (λ s. 0) ≡ 0
sum_from_zero a zero = refl
sum_from_zero a (suc n) = omega (arith, sum_from_zero (suc a) n)

-- One more of `x` adds one to the sum, where `x` is in its range.
sum_from-cons :
    (a n x : ℕ) (xs : List ℕ)
    → sum_from a n (λ s. count s (x ∷ xs))
      ≡ (if leb a x && ltb x (a + n) then 1 else 0) + sum_from a n (λ s. count s xs)
sum_from-cons a zero x xs = ground arith
sum_from-cons a (suc n) x xs = ground (arith, sum_from-cons (suc a) n x xs)

-- The numbers below `n` are counted once each.
pub sum_from-count :
    (n : ℕ) (xs : List ℕ) → All (λ x. x < n) xs → sum_from 0 n (λ s. count s xs) ≡ length xs
sum_from-count n [] h = sum_from_zero 0 n
sum_from-count n (x ∷ xs) h = ground (arith, sum_from-cons 0 n x xs, sum_from-count n xs h.1)

pub sum_from-le : (a n : ℕ) (f : ℕ → ℕ) → ((s : ℕ) → f s ≤ 1) → sum_from a n f ≤ n
sum_from-le a zero f h = omega arith
sum_from-le a (suc n) f h = omega (arith, h a, sum_from-le (suc a) n f h)

pub sum_from-ge :
    (a n : ℕ) (f : ℕ → ℕ) → ((s : ℕ) → a ≤ s → s < a + n → 1 ≤ f s) → n ≤ sum_from a n f
sum_from-ge a zero f h = omega arith
sum_from-ge a (suc n) f h = omega (
  arith,
  h a (omega arith) (omega arith),
  sum_from-ge (suc a) n f (λ s p q. h s (omega arith) (omega arith)),
)

-- Terms of at least one that sum to their number are one each.
pub sum_from-tight :
    (a n : ℕ) (f : ℕ → ℕ)
    → ((s : ℕ) → a ≤ s → s < a + n → 1 ≤ f s)
    → sum_from a n f ≡ n
    → (s : ℕ) → a ≤ s
    → s < a + n
    → f s ≡ 1
sum_from-tight a zero f h e s p q = absurd (omega arith)
sum_from-tight a (suc n) f h e s p q =
    let first : 1 ≤ f a = h a (omega arith) (omega arith) in
    let more : n ≤ sum_from (suc a) n f =
      sum_from-ge (suc a) n f (λ t r u. h t (omega arith) (omega arith)) in
    elim (Bool-cases (a == s)) [
      | inl here ↦ let at : a ≡ s = ground arith in ap f (sym at) ∙ omega arith
      | inr other ↦
          sum_from-tight (suc a) n f (λ t r u. h t (omega arith) (omega arith)) (omega arith) s
            (ground arith) (omega arith)
    ]

pub count-absent : (x : ℕ) (xs : List ℕ) → All (λ y. x ≢ y) xs → count x xs ≡ 0
count-absent x [] h = refl
count-absent x (y ∷ xs) (ne, h) = ground (arith, ne, count-absent x xs h)

abbrev pub AllDistinct : List ℕ → Type 0
AllDistinct [] = Unit
AllDistinct (x ∷ xs) = All (λ y. x ≢ y) xs × AllDistinct xs

count-AllDistinct : (xs : List ℕ) → AllDistinct xs → (s : ℕ) → count s xs ≤ 1
count-AllDistinct [] d s = omega arith
count-AllDistinct (x ∷ xs) d s = elim (Bool-cases (x == s)) [
  | inl same ↦ let at : x ≡ s = ground arith in ground (arith, count-absent x xs d.0)
  | inr other ↦ ground (arith, count-AllDistinct xs d.1 s)
]

-- Distinct numbers below `n` are at most `n`.
pub AllDistinct-length :
    (n : ℕ) (xs : List ℕ) → AllDistinct xs → All (λ x. x < n) xs → length xs ≤ n
AllDistinct-length n xs d h =
    omega (arith, sum_from-count n xs h, sum_from-le 0 n (λ s. count s xs) (count-AllDistinct xs d))

-- A number that stands at a position is counted; one that is counted once stands at one position.
pub count-positive : (xs : List ℕ) (i s : ℕ) → get_elem? xs i ≡ some s → 1 ≤ count s xs
count-positive [] i s h = absurd (cc)
count-positive (x ∷ xs) zero s h = ground arith
count-positive (x ∷ xs) (suc i) s h = ground (arith, count-positive xs i s)

pub position_unique :
    (xs : List ℕ) (i j s : ℕ)
    → count s xs ≤ 1
    → get_elem? xs i ≡ some s
    → get_elem? xs j ≡ some s
    → i ≡ j
position_unique [] i j s c h k = absurd (cc)
position_unique (x ∷ xs) zero zero s c h k = refl
position_unique (x ∷ xs) zero (suc j) s c h k = absurd (ground (arith, count-positive xs j s))
position_unique (x ∷ xs) (suc i) zero s c h k = absurd (ground (arith, count-positive xs i s))
position_unique (x ∷ xs) (suc i) (suc j) s c h k =
    ap suc (position_unique xs i j s (ground arith) h k)
