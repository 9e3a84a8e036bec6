-- ===== src/Model/Tree/Shape.antt =====
-- What `checkShape` establishes of the child arrays that it accepts. Its counts wrap at 256; that
-- there are as many children as slots rules a wrapped count out.
use belady.Common.{
  ℕ, zero, suc, ◌+◌, ◌-◌, ◌%◌, ◌^◌, ◌≤◌, ◌<◌, ◌≡◌, ◌≢◌, inl, inr, refl, sym, ap, subst, ◌∙◌, true,
  none, List, [], ◌∷◌, ◌++◌, length, get_or, replicate, length-replicate, length-append, All, ltb,
  ◌==◌, if◌then◌else◌, arith, Bool-cases, Option-cases,
}
use belady.Model.Tree.{
  Ref, node, leaf, ok, slot_of, child_error, bump_at, count_children, all_one, tail_of, check_shape,
}
use belady.Model.Tree.Binding.{bind-ok}
use belady.Model.Tree.Counting.{count, count-append, sum_from, sum_from-count, sum_from-tight}

-- A child that is in range and not the root.
abbrev pub Fits : ℕ → ℕ → Ref → Type 0
Fits internal num_leaves (node i) = (0 < i) × (i < internal)
Fits internal num_leaves (leaf i) = i < num_leaves

abbrev pub slots : ℕ → List Ref → List ℕ
slots internal [] = []
slots internal (v ∷ vs) = slot_of internal v ∷ slots internal vs

pub length-slots : (n : ℕ) (vs : List Ref) → length (slots n vs) ≡ length vs
length-slots n [] = refl
length-slots n (v ∷ vs) = omega (arith, length-slots n vs)

child_error-Fits : (n m : ℕ) (v : Ref) → child_error n m v ≡ none → Fits n m v
unfolding child_error
child_error-Fits n m (node i) h = ground arith
child_error-Fits n m (leaf i) h = ground arith

slot_of-lt : (n m : ℕ) (v : Ref) → Fits n m v → slot_of n v < n + m
unfolding slot_of
slot_of-lt n m (node i) h = omega arith
slot_of-lt n m (leaf i) h = omega arith

slots-lt : (n m : ℕ) (vs : List Ref) → All (Fits n m) vs → All (λ s. s < n + m) (slots n vs)
slots-lt n m [] h = tt
slots-lt n m (v ∷ vs) h = (slot_of-lt n m v h.0, slots-lt n m vs h.1)

slot_of-pos : (n m : ℕ) (v : Ref) → 0 < n → Fits n m v → slot_of n v ≢ 0
unfolding slot_of
slot_of-pos n m (node i) p h = λ e. absurd (omega arith)
slot_of-pos n m (leaf i) p h = λ e. absurd (omega arith)

count-root : (n m : ℕ) (vs : List Ref) → 0 < n → All (Fits n m) vs → count 0 (slots n vs) ≡ 0
count-root n m [] p h = refl
count-root n m (v ∷ vs) p h = ground (arith, slot_of-pos n m v p, count-root n m vs p h.1)

length-bump_at : (i : ℕ) (ps : List ℕ) → length (bump_at i ps) ≡ length ps
unfolding bump_at
length-bump_at i [] = refl
length-bump_at zero (p ∷ ps) = refl
length-bump_at (suc i) (p ∷ ps) = omega (arith, length-bump_at i ps)

get_or-bump_at :
    (i s : ℕ) (ps : List ℕ)
    → s < length ps
    → get_or (bump_at i ps) s 0 ≡ (if i == s then (get_or ps s 0 + 1) % 2 ^ 8 else get_or ps s 0)
unfolding bump_at
get_or-bump_at i s [] h = absurd (omega arith)
get_or-bump_at zero zero (p ∷ ps) h = refl
get_or-bump_at zero (suc s) (p ∷ ps) h = ground arith
get_or-bump_at (suc i) zero (p ∷ ps) h = ground arith
get_or-bump_at (suc i) (suc s) (p ∷ ps) h = ground (arith, get_or-bump_at i s ps)

-- The loop has seen fitting children only, and has counted each slot's modulo 256.
record Counted (n m : ℕ) (vs : List Ref) (before after : List ℕ) : Type 0 where
  fits : All (Fits n m) vs
  slots_kept : length after ≡ length before
  counted :
      (s : ℕ)
      → s < length before
      → get_or before s 0 < 2 ^ 8
      → get_or after s 0 ≡ (get_or before s 0 + count s (slots n vs)) % 2 ^ 8

count_children-Counted :
    (n m : ℕ) (vs : List Ref) (before after : List ℕ)
    → count_children n m vs before ≡ ok after
    → Counted n m vs before after
unfolding count_children
count_children-Counted n m [] before after h =
    let same : before ≡ after = cc in
    record {
      fits = tt;
      slots_kept = ap length (sym same);
      counted = λ s lt small. ap (λ ps. get_or ps s 0) (sym same) ∙ ground arith;
    }
count_children-Counted n m (v ∷ vs) before after h = elim (Option-cases (child_error n m v)) [
  | inr (e, bad) ↦ absurd (ground arith)
  | inl good ↦
      let rest : Counted n m vs (bump_at (slot_of n v) before) after =
        count_children-Counted n m vs (bump_at (slot_of n v) before) after (ground arith) in
      record {
        fits = (child_error-Fits n m v good, rest.fits);
        slots_kept = omega (arith, rest.slots_kept, length-bump_at (slot_of n v) before);
        counted = λ s lt small. ground (
          arith,
          rest.counted s,
          length-bump_at (slot_of n v) before,
          get_or-bump_at (slot_of n v) s before,
        );
      }
]

all_one-get_or : (ps : List ℕ) (s : ℕ) → all_one ps ≡ true → s < length ps → get_or ps s 0 ≡ 1
unfolding all_one
all_one-get_or [] s h lt = absurd (omega arith)
all_one-get_or (p ∷ ps) zero h lt = ground arith
all_one-get_or (p ∷ ps) (suc s) h lt = all_one-get_or ps s (ground arith) (omega arith)

tail_of-get_or : (ps : List ℕ) (s : ℕ) → get_or (tail_of ps) s 0 ≡ get_or ps (suc s) 0
tail_of-get_or [] s = refl
tail_of-get_or (p ∷ ps) s = refl

length-tail_of : (ps : List ℕ) → length (tail_of ps) ≡ length ps - 1
length-tail_of [] = refl
length-tail_of (p ∷ ps) = omega arith

get_or-replicate : (n s : ℕ) → get_or {A = ℕ} (replicate n 0) s 0 ≡ 0
get_or-replicate zero s = refl
get_or-replicate (suc n) zero = refl
get_or-replicate (suc n) (suc s) = get_or-replicate n s

-- The arrays of a tree: every child fits, and every slot but the root's is the child of one parent.
pub record IsTree (n : ℕ) (left right : List Ref) : Type 0 where
  pub some_node : 0 < n
  pub left_length : length left ≡ n
  pub right_length : length right ≡ n
  pub left_fits : All (Fits n (suc n)) left
  pub right_fits : All (Fits n (suc n)) right
  pub once : (s : ℕ) → count s (slots n left ++ slots n right) ≤ 1

-- Two loops one after the other count into the same slots.
counts-meet :
    (n : ℕ) (left right : List Ref) (once parents : List ℕ) (s : ℕ)
    → Counted n (suc n) left (replicate (n + suc n) 0) once
    → Counted n (suc n) right once parents
    → s < n + suc n
    → get_or parents s 0 ≡ (count s (slots n left) + count s (slots n right)) % 2 ^ 8
counts-meet n left right once parents s p q lt =
    let zeros : length (replicate {A = ℕ} (n + suc n) 0) ≡ n + suc n =
      length-replicate (n + suc n) 0 in
    let start : get_or {A = ℕ} (replicate (n + suc n) 0) s 0 ≡ 0 = get_or-replicate (n + suc n) s in
    let first : get_or once s 0
        ≡ (get_or {A = ℕ} (replicate (n + suc n) 0) s 0 + count s (slots n left)) % 2 ^ 8 =
      p.counted s (omega arith) (omega arith) in
    let small : get_or once s 0 < 2 ^ 8 = omega arith in
    let second : get_or parents s 0 ≡ (get_or once s 0 + count s (slots n right)) % 2 ^ 8 =
      q.counted s (omega (arith, p.slots_kept)) small in
    omega arith

count-above : (n s : ℕ) (xs : List ℕ) → All (λ x. x < n) xs → n ≤ s → count s xs ≡ 0
count-above n s [] h le = refl
count-above n s (x ∷ xs) h le = ground (arith, count-above n s xs h.1 le)

All-join : (P : ℕ → Type 0) (xs ys : List ℕ) → All P xs → All P ys → All P (xs ++ ys)
All-join P [] ys h k = k
All-join P (x ∷ xs) ys h k = (h.0, All-join P xs ys h.1 k)

-- As many children as slots without the root's, and each such slot has some: it has one.
counts-once :
    (n : ℕ) (all : List ℕ)
    → length all ≡ n
    → All (λ x. x < suc n) all
    → count 0 all ≡ 0
    → ((s : ℕ) → 1 ≤ s → s < 1 + n → 1 ≤ count s all)
    → (s : ℕ) → count s all ≤ 1
counts-once n all size below root some_parent s =
    let sum : sum_from 0 (suc n) (λ t. count t all) ≡ n = sum_from-count (suc n) all below ∙ size in
    let rest : sum_from 1 n (λ t. count t all) ≡ n = omega (arith, sum, root) in
    elim (Bool-cases (s == 0)) [
      | inl at_root ↦
          let e : s ≡ 0 = ground arith in subst (λ t. count t all ≤ 1) (sym e) (omega (arith, root))
      | inr other ↦ elim (Bool-cases (ltb s (1 + n))) [
        | inl inside ↦
            let one : count s all ≡ 1 =
              sum_from-tight 1 n (λ t. count t all) some_parent rest s (ground arith)
                (ground arith) in
            omega (arith, one)
        | inr outside ↦ omega (arith, count-above (suc n) s all below (ground arith))
      ]
    ]

-- A slot after the root's has a count of one modulo 256.
some_parent :
    (n : ℕ) (left right : List Ref) (once parents : List ℕ) (s : ℕ)
    → 1 ≤ s
    → s < 1 + (n + n)
    → length parents ≡ n + suc n
    → all_one (tail_of parents) ≡ true
    → Counted n (suc n) left (replicate (n + suc n) 0) once
    → Counted n (suc n) right once parents
    → 1 ≤ count s (slots n left ++ slots n right)
some_parent n left right once parents zero pos lt many ones p q = absurd (omega arith)
some_parent n left right once parents (suc t) pos lt many ones p q =
    let one : get_or parents (suc t) 0 ≡ 1 =
      sym (tail_of-get_or parents t)
      ∙ all_one-get_or (tail_of parents) t ones (omega (arith, length-tail_of parents)) in
    omega (
      arith,
      one,
      counts-meet n left right once parents (suc t) p q (omega arith),
      count-append (suc t) (slots n left) (slots n right),
    )

-- For as many left and right children as there are internal nodes, at least one, and one more
-- leaf, what checkShape accepts has every child in range, the root as no child, and every node and
-- leaf as a child once at most.
pub check_shape-IsTree :
    (n : ℕ) (left right : List Ref)
    → 0 < n
    → length left ≡ n
    → length right ≡ n
    → check_shape n (suc n) left right ≡ ok tt
    → IsTree n left right
unfolding check_shape
check_shape-IsTree n left right some_node ll rl h =
    let (once, counted_left, h') =
      bind-ok (count_children n (suc n) left (replicate (n + suc n) 0)) _ tt h in
    let (parents, counted_right, h'') = bind-ok (count_children n (suc n) right once) _ tt h' in
    let p = count_children-Counted n (suc n) left (replicate (n + suc n) 0) once counted_left in
    let q = count_children-Counted n (suc n) right once parents counted_right in
    let ones : all_one (tail_of parents) ≡ true = ground arith in
    let many : length parents ≡ n + suc n =
      q.slots_kept ∙ p.slots_kept ∙ length-replicate (n + suc n) 0 in
    let all : List ℕ = slots n left ++ slots n right in
    let size : length all ≡ n + n = omega (
      arith,
      length-append (slots n left) (slots n right),
      length-slots n left,
      length-slots n right,
    ) in
    let below : All (λ x. x < suc (n + n)) all =
      All-join (λ x. x < suc (n + n)) (slots n left) (slots n right)
        (subst (λ t. All (λ x. x < t) (slots n left)) (omega arith)
          (slots-lt n (suc n) left p.fits))
        (subst (λ t. All (λ x. x < t) (slots n right)) (omega arith)
          (slots-lt n (suc n) right q.fits)) in
    let root : count 0 all ≡ 0 = omega (
      arith,
      count-append 0 (slots n left) (slots n right),
      count-root n (suc n) left some_node p.fits,
      count-root n (suc n) right some_node q.fits,
    ) in
    record {
      some_node = some_node;
      left_length = ll;
      right_length = rl;
      left_fits = p.fits;
      right_fits = q.fits;
      once =
          counts-once (n + n) all size below root
            (λ s pos lt. some_parent n left right once parents s pos lt many ones p q);
    }
