-- ===== src/Model/Tree.antt =====
-- internal/model/model.go: the parser's per-tree state, `flush`, `checkShape` and `Raw`. An int32 is
-- an integer of the library's words where it is a count, and a `Ref` where the code reads a
-- non-negative value as a node and a negative one, `^leaf`, as a leaf. float32 is abstract.
-- A negative count of leaves stands as 0: the code asks of it only whether it is above 1. The
-- registry's limit of 64 MiB on a model's text keeps every array far below 2 ^ 31 items.
pub mod Binding
pub mod Counting
pub mod Shape
pub mod Paths
pub mod Grounded
pub mod Flush
pub mod Total
use belady.Common.Float.{Float32}
use belady.Common.{
  ℕ, zero, suc, ℤ, pos, negsuc, ◌+◌, ◌-◌, ◌/◌, ◌%◌, ◌^◌, Bool, true, false, ◌&&◌, Option, none,
  some, List, [], ◌∷◌, ◌++◌, ◌>>=◌, length, get_elem?, replicate, ltb, leb, ◌==◌, if◌then◌else◌,
}

-- A child index: `node i` is i ≥ 0, and `leaf i` is ^i < 0.
pub data Ref : Type 0 where
  node : ℕ → Ref
  leaf : ℕ → Ref

pub record Node (F : Type 0) : Type 0 where
  pub threshold : F
  pub feature : ℕ
  pub left : Ref
  pub right : Ref

pub record Model (F : Type 0) : Type 0 where
  pub nodes : List (Node F)
  pub leaves : List F
  pub roots : List Ref
  pub num_features : ℤ

-- The fields of `parser` that `flush` reads and resets, and the model it builds.
pub record Parser (F : Type 0) : Type 0 where
  pub model : Model F
  pub split_feature : List ℤ
  pub threshold : List F
  pub decision_type : List ℕ
  pub left_child : List Ref
  pub right_child : List Ref
  pub leaf_value : List F
  pub num_leaves : ℕ
  pub in_tree : Bool

pub data ModelError : Type 0 where
  leaf_count : ModelError
  arrays_disagree : ModelError
  child_out_of_range : ModelError
  root_is_child : ModelError
  wrong_parents : ModelError
  categorical_split : ModelError
  missing_handling : ModelError
  bad_feature : ModelError
  bad_number : ModelError
  multiple_outputs : ModelError
  linear_trees : ModelError
  unreadable : ModelError
  no_trees : ModelError
  no_features : ModelError

pub data Result (A : Type 0) : Type 0 where
  ok : A → Result A
  err : ModelError → Result A

abbrev pub bind : {A B : Type 0} → Result A → (A → Result B) → Result B
bind (ok a) f = f a
bind (err e) f = err e

-- The loop over children of `checkShape`: `slot` numbers the internal nodes, then the leaves. The
-- counts are uint8.
unfoldable pub slot_of : ℕ → Ref → ℕ
slot_of internal (node i) = i
slot_of internal (leaf i) = internal + i

unfoldable pub child_error : ℕ → ℕ → Ref → Option ModelError
child_error internal num_leaves (node i) =
    if leb internal i then some child_out_of_range else if i == 0 then some root_is_child else none
child_error internal num_leaves (leaf i) =
    if leb num_leaves i then some child_out_of_range else none

unfoldable pub bump_at : ℕ → List ℕ → List ℕ
bump_at i [] = []
bump_at zero (n ∷ ns) = (n + 1) % 2 ^ 8 ∷ ns
bump_at (suc i) (n ∷ ns) = n ∷ bump_at i ns

unfoldable pub count_children : ℕ → ℕ → List Ref → List ℕ → Result (List ℕ)
count_children internal num_leaves [] parents = ok parents
count_children internal num_leaves (v ∷ vs) parents =
    let rest = count_children internal num_leaves vs (bump_at (slot_of internal v) parents) in
    elim (child_error internal num_leaves v) [ some e ↦ err e | none ↦ rest ]

unfoldable pub all_one : List ℕ → Bool
all_one [] = true
all_one (n ∷ ns) = (n == 1) && all_one ns

abbrev pub tail_of : List ℕ → List ℕ
tail_of [] = []
tail_of (n ∷ ns) = ns

unfoldable pub check_shape : ℕ → ℕ → List Ref → List Ref → Result (Unit {0})
check_shape internal num_leaves left right =
    bind (count_children internal num_leaves left (replicate (internal + num_leaves) 0)) λ once.
      bind (count_children internal num_leaves right once)
        λ parents. if all_one (tail_of parents) then ok tt else err wrong_parents

-- `checkDecisionType` on a non-negative word.
unfoldable pub check_decision_type : ℕ → Option ModelError
check_decision_type dt =
    if dt % 2 == 1
    then some categorical_split
    else if dt / 4 % 4 == 0
    then none
    else some missing_handling

unfoldable pub rebase : ℕ → ℕ → Ref → Ref
rebase node_base leaf_base (node i) = node (node_base + i)
rebase node_base leaf_base (leaf i) = leaf (leaf_base + i)

unfoldable pub feature_in : ℤ → ℤ → Option ℕ
feature_in (pos num_features) (pos f) = if ltb f num_features then some f else none
feature_in (pos num_features) (negsuc f) = none
feature_in (negsuc n) f = none

module _ {F : Type 0} where
  -- The loop of `flush` over the internal nodes; the five lists have one length.
  unfoldable pub make_nodes :
      ℤ → ℕ → ℕ → List ℤ → List F → List ℕ → List Ref → List Ref → Result (List (Node F))
  make_nodes nf base leaf_base (f ∷ fs) (t ∷ ts) (d ∷ ds) (l ∷ ls) (r ∷ rs) =
      let rest = make_nodes nf base leaf_base fs ts ds ls rs in
      elim (check_decision_type d) [
        | some e ↦ err e
        | none ↦ elim (feature_in nf f) [
          | none ↦ err bad_feature
          | some feature ↦ bind rest λ nodes. ok (
              record {
                threshold = t;
                feature = feature;
                left = rebase base leaf_base l;
                right = rebase base leaf_base r;
              }
              ∷ nodes)
        ]
      ]
  make_nodes nf base leaf_base fs ts ds ls rs = ok []

  unfoldable pub reset : Parser F → Model F → Parser F
  reset p m = record {
    model = m;
    split_feature = [];
    threshold = [];
    decision_type = [];
    left_child = [];
    right_child = [];
    leaf_value = [];
    num_leaves = 0;
    in_tree = false;
  }

  -- `len(x) != internal` for each of the arrays.
  unfoldable pub arrays_agree : Parser F → ℕ → Bool
  arrays_agree p internal =
      (length p.split_feature == internal)
      && (length p.threshold == internal)
      && (length p.left_child == internal)
      && (length p.right_child == internal)
      && (length p.decision_type == internal)
      && (length p.leaf_value == p.num_leaves)

  -- A tree that never split: the root is the single leaf.
  unfoldable pub flush_leaf : Parser F → Result (Parser F)
  flush_leaf p =
      let m = p.model in
      if length p.leaf_value == 1
      then ok (
          reset p (record m {
            leaves = m.leaves ++ p.leaf_value;
            roots = m.roots ++ (leaf (length m.leaves) ∷ []);
          }))
      else err leaf_count

  -- The model with the nodes and the leaves of a tree, whose root is the first of its nodes.
  unfoldable pub add_tree : Parser F → List (Node F) → Parser F
  add_tree p nodes =
      let m = p.model in
      reset p (record m {
        nodes = m.nodes ++ nodes;
        leaves = m.leaves ++ p.leaf_value;
        roots = m.roots ++ (node (length m.nodes) ∷ []);
      })

  -- The loop of `flush` over the nodes, and what follows it.
  unfoldable pub convert : Parser F → Result (Parser F)
  convert p =
      let m = p.model in
      bind
        (make_nodes m.num_features (length m.nodes) (length m.leaves) p.split_feature p.threshold
          p.decision_type p.left_child p.right_child)
        λ nodes. ok (add_tree p nodes)

  unfoldable pub flush_split : Parser F → ℕ → Result (Parser F)
  flush_split p internal =
      if arrays_agree p internal
      then bind (check_shape internal p.num_leaves p.left_child p.right_child) (λ _. convert p)
      else err arrays_disagree

  unfoldable pub flush : Parser F → Result (Parser F)
  flush p =
      if p.in_tree
      then (if leb p.num_leaves 1 then flush_leaf p else flush_split p (p.num_leaves - 1))
      else ok p

module _ (fl : Float32) where
  open fl use {F, zero_f, add_f, le_f}

  -- The inner loop of `Raw`, from one reference to the leaf that it reaches; `none` is an index out
  -- of range, or `fuel` steps too few.
  unfoldable pub walk : ℕ → List (Node F) → List F → Ref → Option ℕ
  walk fuel nodes features (leaf i) = some i
  walk zero nodes features (node i) = none
  walk (suc fuel) nodes features (node i) = get_elem? nodes i >>= λ n.
      get_elem? features n.feature >>= λ x.
      walk fuel nodes features (if le_f x n.threshold then n.left else n.right)

  unfoldable pub raw_from : ℕ → Model F → List F → List Ref → F → Option F
  raw_from fuel m features [] sum = some sum
  raw_from fuel m features (root ∷ roots) sum = walk fuel m.nodes features root >>= λ i.
      get_elem? m.leaves i >>= λ v. raw_from fuel m features roots (add_f sum v)

  -- The fuel of a walk is the number of the model's nodes.
  unfoldable pub raw : Model F → List F → Option F
  raw m features = raw_from (length m.nodes) m features m.roots zero_f
