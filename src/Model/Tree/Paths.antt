-- ===== src/Model/Tree/Paths.antt =====
-- Paths from the root of a tree down its child arrays: each node is met at one depth, so no path is
-- longer than the tree has nodes.
use mathlib.Core.Option.{some-injective}
use belady.Common.{
  ℕ, zero, suc, ◌≤◌, ◌<◌, ◌≡◌, ◌≢◌, ◌⊎◌, inl, inr, refl, sym, ap, subst, Option, none, some, List,
  [], ◌∷◌, length, get_elem?, All, arith,
}
use belady.Model.Tree.{Ref, node, slot_of}
use belady.Model.Tree.Counting.{
  count-append, count-positive, position_unique, AllDistinct, AllDistinct-length,
}
use belady.Model.Tree.Shape.{Fits, slots, IsTree}

module _ {n : ℕ} {left right : List Ref} (tree : IsTree n left right) where
  abbrev pub Child : ℕ → Ref → Type 0
  Child i v = (get_elem? left i ≡ some v) ⊎ (get_elem? right i ≡ some v)

  slots-get :
      (vs : List Ref) (i : ℕ) (v : Ref)
      → get_elem? vs i ≡ some v
      → get_elem? (slots n vs) i ≡ some (slot_of n v)
  slots-get [] i v h = absurd (cc)
  slots-get (w ∷ vs) zero v h =
      ap
        (λ (o : Option Ref). elim o as (λ _. Option ℕ) [
          | none ↦ none
          | some x ↦ some (slot_of n x)
        ])
        h
  slots-get (w ∷ vs) (suc i) v h = slots-get vs i v h

  All-get :
      (vs : List Ref) (i : ℕ) (v : Ref)
      → All (Fits n (suc n)) vs
      → get_elem? vs i ≡ some v
      → Fits n (suc n) v
  All-get [] i v all h = absurd (cc)
  All-get (w ∷ vs) zero v all h = subst (Fits n (suc n)) (some-injective w v h) all.0
  All-get (w ∷ vs) (suc i) v all h = All-get vs i v all.1 h

  pub Child-Fits : (i : ℕ) (v : Ref) → Child i v → Fits n (suc n) v
  Child-Fits i v (inl h) = All-get left i v tree.left_fits h
  Child-Fits i v (inr h) = All-get right i v tree.right_fits h

  -- No child stands on both sides.
  both :
      (v : Ref) (i j : ℕ) → get_elem? left i ≡ some v → get_elem? right j ≡ some v → ◌≡◌ {A = ℕ} 1 0
  both v i j h k = omega (
    arith,
    tree.once (slot_of n v),
    count-append (slot_of n v) (slots n left) (slots n right),
    count-positive (slots n left) i (slot_of n v) (slots-get left i v h),
    count-positive (slots n right) j (slot_of n v) (slots-get right j v k),
  )

  -- A node is the child of one node at most.
  parent_unique : (i j : ℕ) (v : Ref) → Child i v → Child j v → i ≡ j
  parent_unique i j v (inl h) (inl k) =
      position_unique (slots n left) i j (slot_of n v)
        (omega (
          arith,
          tree.once (slot_of n v),
          count-append (slot_of n v) (slots n left) (slots n right),
        ))
        (slots-get left i v h) (slots-get left j v k)
  parent_unique i j v (inr h) (inr k) =
      position_unique (slots n right) i j (slot_of n v)
        (omega (
          arith,
          tree.once (slot_of n v),
          count-append (slot_of n v) (slots n left) (slots n right),
        ))
        (slots-get right i v h) (slots-get right j v k)
  parent_unique i j v (inl h) (inr k) = absurd (omega (arith, both v i j h k))
  parent_unique i j v (inr h) (inl k) = absurd (omega (arith, both v j i k h))

  -- `Descent d i`: node `i` is `d` children below the root.
  pub data Descent : ℕ → ℕ → Type 0 where
    root : Descent 0 0
    down : {d i j : ℕ} → Descent d i → Child i (node j) → Descent (suc d) j

  -- The root is no child, and the parent of a node is its only one, so its depth is one number.
  depth_unique : {d e j : ℕ} → Descent d j → Descent e j → d ≡ e
  depth_unique root root = refl
  depth_unique root (down {i = i} q c) = absurd (omega (arith, Child-Fits i (node 0) c))
  depth_unique (down {i = i} p c) root = absurd (omega (arith, Child-Fits i (node 0) c))
  depth_unique (down {d = d} {i = i} {j = j} p c) (down {d = e} {i = k} q b) =
      ap suc (depth_unique p (subst (λ (t : ℕ). Descent e t) (parent_unique k i (node j) b c) q))

  nodes_of : {d j : ℕ} → Descent d j → List ℕ
  nodes_of root = 0 ∷ []
  nodes_of (down {j = j} p c) = j ∷ nodes_of p

  length-nodes_of : {d j : ℕ} (p : Descent d j) → length (nodes_of p) ≡ suc d
  unfolding nodes_of
  length-nodes_of root = refl
  length-nodes_of (down p c) = ap suc (length-nodes_of p)

  pub Descent-lt : {d j : ℕ} → Descent d j → j < n
  Descent-lt root = tree.some_node
  Descent-lt (down {i = i} {j = j} p c) = (Child-Fits i (node j) c).1

  -- Every node on a path has a path of at most its length.
  Above : ℕ → ℕ → Type 0
  Above d j = (e : ℕ) × (e ≤ d) × Descent e j

  All-Above : (d : ℕ) (xs : List ℕ) → All (Above d) xs → All (Above (suc d)) xs
  unfolding Above
  All-Above d [] h = tt
  All-Above d (x ∷ xs) ((e, le, p), h) = ((e, omega arith, p), All-Above d xs h)

  nodes_of-Above : {d j : ℕ} (p : Descent d j) → All (Above d) (nodes_of p)
  unfolding nodes_of Above
  nodes_of-Above root = ((0, omega arith, root), tt)
  nodes_of-Above (down {d = d} p c) =
      ((suc d, omega arith, down p c), All-Above d (nodes_of p) (nodes_of-Above p))

  ne-Above : {d j : ℕ} → Descent (suc d) j → (xs : List ℕ) → All (Above d) xs → All (λ x. j ≢ x) xs
  unfolding Above
  ne-Above p [] h = tt
  ne-Above {d} {j} p (x ∷ xs) ((e, le, q), h) = (
    λ same. absurd (omega (arith, depth_unique p (subst (Descent e) (sym same) q))),
    ne-Above p xs h,
  )

  nodes_of-AllDistinct : {d j : ℕ} (p : Descent d j) → AllDistinct (nodes_of p)
  unfolding nodes_of
  nodes_of-AllDistinct root = (tt, tt)
  nodes_of-AllDistinct (down p c) =
      (ne-Above (down p c) (nodes_of p) (nodes_of-Above p), nodes_of-AllDistinct p)

  nodes_of-lt : {d j : ℕ} (p : Descent d j) → All (λ x. x < n) (nodes_of p)
  unfolding nodes_of
  nodes_of-lt root = (tree.some_node, tt)
  nodes_of-lt (down p c) = (Descent-lt (down p c), nodes_of-lt p)

  -- A path is shorter than the number of nodes.
  pub depth-lt : {d j : ℕ} → Descent d j → d < n
  depth-lt p = omega (
    arith,
    length-nodes_of p,
    AllDistinct-length n (nodes_of p) (nodes_of-AllDistinct p) (nodes_of-lt p),
  )
