-- ===== src/Model/Tree/Total.antt =====
-- `Raw` on a grounded model.
use belady.Common.{
  ℕ, zero, suc, pos_part, ◌≤◌, ◌<◌, ◌≡◌, refl, ◌∙◌, Bool, true, false, some, List, [], ◌∷◌, length,
  get_elem?, get_elem?-some, All, if◌then◌else◌, arith,
}
use belady.Common.Float.{Float32}
use belady.Model.Tree.{Ref, node, leaf, Node, Model, walk, raw_from, raw}
use belady.Model.Tree.Grounded.{Grounded, IsGrounded}

module _ (fl : Float32) where
  open fl use {F, zero_f, add_f, le_f}

  walk_leaf :
      (k : ℕ) (nodes : List (Node F)) (xs : List F) (i : ℕ) → walk fl k nodes xs (leaf i) ≡ some i
  unfolding walk
  walk_leaf zero nodes xs i = refl
  walk_leaf (suc k) nodes xs i = refl

  walk_down :
      (k : ℕ) (nodes : List (Node F)) (xs : List F) (i : ℕ) (n : Node F) (x : F)
      → get_elem? nodes i ≡ some n
      → get_elem? xs n.feature ≡ some x
      → walk fl (suc k) nodes xs (node i)
        ≡ walk fl k nodes xs (if le_f x n.threshold then n.left else n.right)
  unfolding walk
  walk_down k nodes xs i n x at value = rw at (rw value)

  chosen-Grounded :
      (nodes : List (Node F)) (leaves features k : ℕ) (b : Bool) (l r : Ref)
      → Grounded nodes leaves features k l
      → Grounded nodes leaves features k r
      → Grounded nodes leaves features k (if b then l else r)
  chosen-Grounded nodes leaves features k true l r g h = g
  chosen-Grounded nodes leaves features k false l r g h = h

  walk-Grounded :
      (k : ℕ) (nodes : List (Node F)) (leaves features : ℕ) (xs : List F) (r : Ref)
      → features ≤ length xs
      → Grounded nodes leaves features k r
      → (i : ℕ) × (walk fl k nodes xs r ≡ some i) × (i < leaves)
  walk-Grounded zero nodes leaves features xs (leaf i) enough g = (i, walk_leaf zero nodes xs i, g)
  walk-Grounded (suc k) nodes leaves features xs (leaf i) enough g =
      (i, walk_leaf (suc k) nodes xs i, g)
  walk-Grounded zero nodes leaves features xs (node i) enough g = elim g [ ]
  walk-Grounded (suc k) nodes leaves features xs (node i) enough (n, at, inside, l, r) =
      let (x, value) = get_elem?-some xs n.feature (omega arith) in
      let (j, ends, lt) =
        walk-Grounded k nodes leaves features xs (if le_f x n.threshold then n.left else n.right)
          enough
          (chosen-Grounded nodes leaves features k (le_f x n.threshold) n.left n.right l r) in
      (j, walk_down k nodes xs i n x at value ∙ ends, lt)

  raw_from-Grounded :
      (fuel : ℕ) (m : Model F) (xs : List F) (roots : List Ref) (sum : F)
      → pos_part m.num_features ≤ length xs
      → All (Grounded m.nodes (length m.leaves) (pos_part m.num_features) fuel) roots
      → (v : F) × (raw_from fl fuel m xs roots sum ≡ some v)
  unfolding raw_from
  raw_from-Grounded fuel m xs [] sum enough h = (sum, refl)
  raw_from-Grounded fuel m xs (r ∷ roots) sum enough (g, h) =
      let (i, ends, lt) =
        walk-Grounded fuel m.nodes (length m.leaves) (pos_part m.num_features) xs r enough g in
      let (v, value) = get_elem?-some m.leaves i lt in
      let (w, rest) = raw_from-Grounded fuel m xs roots (add_f sum v) enough h in
      (w, rw (ends, raw_from) (rw (value, raw_from) rest))

  -- On a grounded model and a vector of enough features, Raw returns a value.
  pub raw-IsGrounded :
      (m : Model F) (xs : List F)
      → pos_part m.num_features ≤ length xs
      → IsGrounded m
      → (v : F) × (raw fl m xs ≡ some v)
  unfolding raw
  raw-IsGrounded m xs enough g = raw_from-Grounded (length m.nodes) m xs m.roots zero_f enough g
