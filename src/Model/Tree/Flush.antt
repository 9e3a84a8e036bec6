-- ===== src/Model/Tree/Flush.antt =====
-- `flush` on each of its branches.
use native.Mathlib.Nat.{add-zero, add_comm}
use mathlib.Core.List.{append-nil}
use belady.Common.{
  ℕ, zero, suc, pos_part, ◌+◌, ◌-◌, ◌≤◌, ◌<◌, ◌≡◌, inl, inr, refl, sym, ap, subst, ◌∙◌, some, List,
  [], ◌∷◌, ◌++◌, length, length-append, get_elem?, get_elem?-some, All, All-append, leb, ◌==◌,
  ==_iff, if◌then◌else◌, arith, Bool-cases,
}
use belady.Model.Tree.{
  Ref, node, leaf, Node, Model, Parser, Result, ok, err, leaf_count, bind, check_shape, rebase,
  make_nodes, reset, arrays_agree, add_tree, convert, flush_leaf, flush_split, flush,
}
use belady.Model.Tree.Binding.{bind-ok}
use belady.Model.Tree.Shape.{IsTree, check_shape-IsTree}
use belady.Model.Tree.Paths.{
  Child, Child-Fits, Descent, Descent.root, Descent.down, depth-lt, Descent-lt,
}
use belady.Model.Tree.Grounded.{
  Grounded, Grounded-grow, IsGrounded, Made, make_nodes-Made, get_elem?-append_right,
}

module _ {F : Type 0} where
  -- What the nodes of one tree are, behind those of the model.
  module _ {n : ℕ} {left right : List Ref} (tree : IsTree n left right) (features leaf_base : ℕ)
      (old made : List (Node F))
      (each : (i : ℕ) (l r : Ref)
        → get_elem? left i ≡ some l
        → get_elem? right i ≡ some r
        → Made features (length old) leaf_base l r made i) where
    Child-Grounded :
        (k d i : ℕ) (v : Ref)
        → ((j : ℕ)
            → Descent tree (suc d) j
            → Grounded (old ++ made) (leaf_base + suc n) features k (node (length old + j)))
        → Descent tree d i
        → Child tree i v
        → Grounded (old ++ made) (leaf_base + suc n) features k (rebase (length old) leaf_base v)
    unfolding rebase
    Child-Grounded k d i (leaf x) below path c = omega (arith, Child-Fits tree i (leaf x) c)
    Child-Grounded k d i (node j) below path c = below j (down path c)

    -- From a node at depth `d`, the rounds that the tree has left are enough.
    node-Grounded :
        (k d i : ℕ)
        → n ≤ d + k
        → Descent tree d i
        → Grounded (old ++ made) (leaf_base + suc n) features k (node (length old + i))
    node-Grounded zero d i enough path = absurd (omega (arith, depth-lt tree path))
    node-Grounded (suc k) d i enough path =
        let (l, left_is) =
          get_elem?-some left i (omega (arith, tree.left_length, Descent-lt tree path)) in
        let (r, right_is) =
          get_elem?-some right i (omega (arith, tree.right_length, Descent-lt tree path)) in
        let m : Made features (length old) leaf_base l r made i = each i l r left_is right_is in
        let below : (j : ℕ)
            → Descent tree (suc d) j
            → Grounded (old ++ made) (leaf_base + suc n) features k (node (length old + j)) =
          λ j p. node-Grounded k (suc d) j (omega arith) p in
        (
          m.made,
          get_elem?-append_right old made i ∙ m.at,
          m.inside,
          subst (Grounded (old ++ made) (leaf_base + suc n) features k) (sym m.left_to)
              (Child-Grounded k d i l below path (inl left_is)),
          subst (Grounded (old ++ made) (leaf_base + suc n) features k) (sym m.right_to)
              (Child-Grounded k d i r below path (inr right_is)),
        )

    pub root-Grounded : Grounded (old ++ made) (leaf_base + suc n) features n (node (length old))
    root-Grounded =
        subst (λ t. Grounded (old ++ made) (leaf_base + suc n) features n (node t)) (omega arith)
          (node-Grounded n 0 0 (omega arith) root)

  Grounded-wait :
      (nodes : List (Node F)) (leaves extra features k e : ℕ) (r : Ref)
      → Grounded nodes leaves features k r
      → Grounded nodes (leaves + extra) features (k + e) r
  Grounded-wait nodes leaves extra features k e r g =
      subst (λ t. Grounded t (leaves + extra) features (k + e) r) (append-nil nodes)
        (Grounded-grow nodes [] leaves extra features k e r g)

  roots_wait :
      (nodes : List (Node F)) (leaves extra features k e : ℕ) (roots : List Ref)
      → All (Grounded nodes leaves features k) roots
      → All (Grounded nodes (leaves + extra) features (k + e)) roots
  roots_wait nodes leaves extra features k e [] h = tt
  roots_wait nodes leaves extra features k e (r ∷ roots) (g, h) = (
    Grounded-wait nodes leaves extra features k e r g,
    roots_wait nodes leaves extra features k e roots h,
  )

  pub ok-inj : (a b : Parser F) → ◌≡◌ {A = Result (Parser F)} (ok a) (ok b) → a ≡ b
  ok-inj a b h = cc

  roots_grow :
      (nodes more : List (Node F)) (leaves extra features k e : ℕ) (roots : List Ref)
      → All (Grounded nodes leaves features k) roots
      → All (Grounded (nodes ++ more) (leaves + extra) features (k + e)) roots
  roots_grow nodes more leaves extra features k e [] h = tt
  roots_grow nodes more leaves extra features k e (r ∷ roots) (g, h) = (
    Grounded-grow nodes more leaves extra features k e r g,
    roots_grow nodes more leaves extra features k e roots h,
  )

  -- A flushed parser has a grounded model, declared for the features of before.
  pub record Flushed (p q : Parser F) : Type 0 where
    pub grounded : IsGrounded q.model
    pub features : q.model.num_features ≡ p.model.num_features

  flush_leaf-Flushed : (p q : Parser F) → IsGrounded p.model → flush_leaf p ≡ ok q → Flushed p q
  unfolding flush_leaf reset
  flush_leaf-Flushed p q g h =
      let m = p.model in
      elim (Bool-cases (length p.leaf_value == 1)) [
        | inr other ↦ absurd (ground arith)
        | inl single ↦
            let m' : Model F = record m {
              leaves = m.leaves ++ p.leaf_value;
              roots = m.roots ++ (leaf (length m.leaves) ∷ []);
            } in
            let same : reset p m' ≡ q =
              ok-inj (reset p m') q
                (sym (ap (λ b. if b then ok (reset p m') else err leaf_count) single) ∙ h) in
            let size : length m'.leaves ≡ length m.leaves + 1 = omega (
              arith,
              length-append m.leaves p.leaf_value,
              (==_iff (length p.leaf_value) 1).0 single,
            ) in
            let old : All
                (Grounded m.nodes (length m'.leaves) (pos_part m.num_features) (length m.nodes))
                m.roots =
              subst
                (λ t. All (Grounded m.nodes t (pos_part m.num_features) (length m.nodes)) m.roots)
                (sym size)
                (subst
                  (λ t.
                    All (Grounded m.nodes (length m.leaves + 1) (pos_part m.num_features) t)
                      m.roots)
                  (add-zero (length m.nodes))
                  (roots_wait m.nodes (length m.leaves) 1 (pos_part m.num_features) (length m.nodes)
                    0 m.roots g)) in
            subst (Flushed p) same (record {
              grounded =
                  All-append
                    (Grounded m.nodes (length m'.leaves) (pos_part m.num_features) (length m.nodes))
                    m.roots (leaf (length m.leaves) ∷ []) old (omega (arith, size), tt);
              features = refl;
            })
      ]

  add_tree-Flushed :
      (p : Parser F) (n : ℕ) (made : List (Node F))
      → IsTree n p.left_child p.right_child
      → length p.leaf_value ≡ suc n
      → length made ≡ n
      → ((i : ℕ) (l r : Ref)
          → get_elem? p.left_child i ≡ some l
          → get_elem? p.right_child i ≡ some r
          → Made
              (pos_part p.model.num_features)
              (length p.model.nodes)
              (length p.model.leaves)
              l
              r
              made
              i)
      → IsGrounded p.model
      → Flushed p (add_tree p made)
  unfolding add_tree reset
  add_tree-Flushed p n made tree leaves size each g =
      let m = p.model in
      let features : ℕ = pos_part m.num_features in
      let all_leaves : length (m.leaves ++ p.leaf_value) ≡ length m.leaves + suc n =
        omega (arith, length-append m.leaves p.leaf_value) in
      let all_nodes : length (m.nodes ++ made) ≡ length m.nodes + n =
        omega (arith, length-append m.nodes made) in
      let l : ℕ = length m.leaves + suc n in
      let k : ℕ = length m.nodes + n in
      let old : All (Grounded (m.nodes ++ made) l features k) m.roots =
        roots_grow m.nodes made (length m.leaves) (suc n) features (length m.nodes) n m.roots g in
      let root : Grounded (m.nodes ++ made) l features n (node (length m.nodes)) =
        root-Grounded tree features (length m.leaves) m.nodes made each in
      let waiting : Grounded (m.nodes ++ made) l features k (node (length m.nodes)) =
        subst (λ t. Grounded (m.nodes ++ made) t features k (node (length m.nodes))) (add-zero l)
          (subst (λ t. Grounded (m.nodes ++ made) (l + 0) features t (node (length m.nodes)))
            (add_comm n (length m.nodes))
            (Grounded-wait (m.nodes ++ made) l 0 features n (length m.nodes) (node (length m.nodes))
              root)) in
      let all : All (Grounded (m.nodes ++ made) l features k)
          (m.roots ++ (node (length m.nodes) ∷ [])) =
        All-append (Grounded (m.nodes ++ made) l features k) m.roots (node (length m.nodes) ∷ [])
          old (waiting, tt) in
      record {
        grounded =
            subst
              (λ t.
                All (Grounded (m.nodes ++ made) t features (length (m.nodes ++ made)))
                  (m.roots ++ (node (length m.nodes) ∷ [])))
              (sym all_leaves)
              (subst
                (λ t.
                  All (Grounded (m.nodes ++ made) l features t)
                    (m.roots ++ (node (length m.nodes) ∷ [])))
                (sym all_nodes) all);
        features = refl;
      }

  convert-Flushed :
      (p q : Parser F) (n : ℕ)
      → IsTree n p.left_child p.right_child
      → length p.leaf_value ≡ suc n
      → length p.split_feature ≡ n
      → length p.threshold ≡ n
      → length p.decision_type ≡ n
      → IsGrounded p.model
      → convert p ≡ ok q
      → Flushed p q
  unfolding convert
  convert-Flushed p q n tree leaves fs ts ds g h =
      let m = p.model in
      let (made, ends, added) =
        bind-ok
          (make_nodes m.num_features (length m.nodes) (length m.leaves) p.split_feature p.threshold
            p.decision_type p.left_child p.right_child)
          _ q h in
      let (size, each) =
        make_nodes-Made m.num_features (length m.nodes) (length m.leaves) p.split_feature
          p.threshold p.decision_type p.left_child p.right_child made
          (omega (arith, tree.left_length)) (omega (arith, tree.left_length))
          (omega (arith, tree.left_length)) (omega (arith, tree.left_length, tree.right_length))
          ends in
      subst (Flushed p) (ok-inj (add_tree p made) q added)
        (add_tree-Flushed p n made tree leaves (size ∙ tree.left_length) each g)

  flush_split-Flushed :
      (p q : Parser F) (n : ℕ)
      → 0 < n
      → p.num_leaves ≡ suc n
      → IsGrounded p.model
      → flush_split p n ≡ ok q
      → Flushed p q
  unfolding flush_split arrays_agree
  flush_split-Flushed p q n some_node leaves g h = elim (Bool-cases (arrays_agree p n)) [
    | inr other ↦ absurd (ground arith)
    | inl agree ↦
        let checked : bind (check_shape n p.num_leaves p.left_child p.right_child) (λ _. convert p)
            ≡ ok q =
          ground arith in
        let (u, shaped, converted) =
          bind-ok (check_shape n p.num_leaves p.left_child p.right_child) (λ _. convert p) q
            checked in
        let tree : IsTree n p.left_child p.right_child =
          check_shape-IsTree n p.left_child p.right_child some_node (ground arith) (ground arith)
            (subst (λ t. check_shape n t p.left_child p.right_child ≡ ok tt) leaves shaped) in
        convert-Flushed p q n tree (ground arith) (ground arith) (ground arith) (ground arith) g
          converted
  ]

  -- A grounded model stays so, with its number of features.
  pub flush-Flushed : (p q : Parser F) → IsGrounded p.model → flush p ≡ ok q → Flushed p q
  unfolding flush
  flush-Flushed p q g h = elim (Bool-cases p.in_tree) [
    | inr outside ↦
        subst (Flushed p) (ok-inj p q (ground arith)) (record { grounded = g; features = refl })
    | inl inside ↦ elim (Bool-cases (leb p.num_leaves 1)) [
      | inl single ↦ flush_leaf-Flushed p q g (ground arith)
      | inr split ↦
          flush_split-Flushed p q (p.num_leaves - 1) (ground arith) (ground arith) g (ground arith)
    ]
  ]
