-- ===== src/Model/Tree/Grounded.antt =====
-- The trees of a model are finite and stay inside its arrays.
use mathlib.Core.Option.{some-injective}
use belady.Common.{
  ℕ, zero, suc, ℤ, pos, negsuc, pos_part, ◌+◌, ◌<◌, ◌≡◌, inl, inr, refl, sym, ap, subst, ◌∙◌, some,
  List, [], ◌∷◌, ◌++◌, length, get_elem?, All, arith, Option-cases,
}
use belady.Model.Tree.{
  Ref, node, leaf, Node, Model, ok, bind, check_decision_type, rebase, feature_in, make_nodes,
}
use belady.Model.Tree.Binding.{bind-ok}

suc-add : (k e : ℕ) → suc k + e ≡ suc (k + e)
suc-add k e = omega arith

pub get_elem?-append_left {ℓ} :
    {A : Type ℓ} (xs ys : List A) (i : ℕ) (x : A)
    → get_elem? xs i ≡ some x
    → get_elem? (xs ++ ys) i ≡ some x
get_elem?-append_left [] ys i x h = absurd (cc)
get_elem?-append_left (y ∷ xs) ys zero x h = h
get_elem?-append_left (y ∷ xs) ys (suc i) x h = get_elem?-append_left xs ys i x h

pub get_elem?-append_right {ℓ} :
    {A : Type ℓ} (xs ys : List A) (i : ℕ) → get_elem? (xs ++ ys) (length xs + i) ≡ get_elem? ys i
get_elem?-append_right [] ys i = ap (get_elem? ys) (omega arith)
get_elem?-append_right (x ∷ xs) ys i =
    ap (get_elem? (x ∷ (xs ++ ys))) (suc-add (length xs) i) ∙ get_elem?-append_right xs ys i

feature_in-lt : (nf f : ℤ) (x : ℕ) → feature_in nf f ≡ some x → x < pos_part nf
unfolding feature_in
feature_in-lt (pos n) (pos f) x h = ground arith
feature_in-lt (pos n) (negsuc f) x h = absurd (cc)
feature_in-lt (negsuc n) f x h = absurd (cc)

module _ {F : Type 0} where
  -- A walk from the reference meets nodes and features in range, and a leaf after `k` steps at most.
  abbrev pub Grounded : List (Node F) → ℕ → ℕ → ℕ → Ref → Type 0
  Grounded nodes leaves features k (leaf i) = i < leaves
  Grounded nodes leaves features zero (node i) = ⊥
  Grounded nodes leaves features (suc k) (node i) =
      (x : Node F) × (get_elem? nodes i ≡ some x)
      × (x.feature < features)
      × Grounded nodes leaves features k x.left
      × Grounded nodes leaves features k x.right

  pub Grounded-grow :
      (nodes more : List (Node F)) (leaves extra features k e : ℕ) (r : Ref)
      → Grounded nodes leaves features k r
      → Grounded (nodes ++ more) (leaves + extra) features (k + e) r
  Grounded-grow nodes more leaves extra features k e (leaf i) g = omega arith
  Grounded-grow nodes more leaves extra features zero e (node i) g = elim g [ ]
  Grounded-grow nodes more leaves extra features (suc k) e (node i) (x, at, inside, l, r) =
      subst (λ t. Grounded (nodes ++ more) (leaves + extra) features t (node i)) (sym (suc-add k e))
        (
          x,
          get_elem?-append_left nodes more i x at,
          inside,
          Grounded-grow nodes more leaves extra features k e x.left l,
          Grounded-grow nodes more leaves extra features k e x.right r,
        )

  -- Every root is that of a finite tree of the model's own nodes, features and leaves.
  abbrev pub IsGrounded : Model F → Type 0
  IsGrounded m =
      All (Grounded m.nodes (length m.leaves) (pos_part m.num_features) (length m.nodes)) m.roots

  -- The node that stands for internal node `i` of the tree.
  pub record Made (features base leaf_base : ℕ) (l r : Ref) (nodes : List (Node F)) (i : ℕ)
      : Type 0 where
    pub made : Node F
    pub at : get_elem? nodes i ≡ some made
    pub inside : made.feature < features
    pub left_to : made.left ≡ rebase base leaf_base l
    pub right_to : made.right ≡ rebase base leaf_base r

  first_or_later :
      (features base leaf_base : ℕ) (l r : Ref) (ls rs : List Ref) (x : Node F)
      (rest : List (Node F))
      → x.feature < features
      → x.left ≡ rebase base leaf_base l
      → x.right ≡ rebase base leaf_base r
      → ((i : ℕ) (l' r' : Ref)
          → get_elem? ls i ≡ some l'
          → get_elem? rs i ≡ some r'
          → Made features base leaf_base l' r' rest i)
      → (i : ℕ) (l' r' : Ref) → get_elem? (l ∷ ls) i ≡ some l'
      → get_elem? (r ∷ rs) i ≡ some r'
      → Made features base leaf_base l' r' (x ∷ rest) i
  first_or_later features base leaf_base l r ls rs x rest inside lx rx each zero l' r' p q =
      record {
        made = x;
        at = refl;
        inside = inside;
        left_to = lx ∙ ap (rebase base leaf_base) (some-injective l l' p);
        right_to = rx ∙ ap (rebase base leaf_base) (some-injective r r' q);
      }
  first_or_later features base leaf_base l r ls rs x rest inside lx rx each (suc i) l' r' p q =
      let m : Made features base leaf_base l' r' rest i = each i l' r' p q in
      record {
        made = m.made;
        at = m.at;
        inside = m.inside;
        left_to = m.left_to;
        right_to = m.right_to;
      }

  pub make_nodes-Made :
      (nf : ℤ) (base leaf_base : ℕ) (fs : List ℤ) (ts : List F) (ds : List ℕ) (ls rs : List Ref)
      (nodes : List (Node F))
      → length fs ≡ length ls
      → length ts ≡ length ls
      → length ds ≡ length ls
      → length rs ≡ length ls
      → make_nodes nf base leaf_base fs ts ds ls rs ≡ ok nodes
      → (length nodes ≡ length ls)
        × ((i : ℕ) (l r : Ref)
            → get_elem? ls i ≡ some l
            → get_elem? rs i ≡ some r
            → Made (pos_part nf) base leaf_base l r nodes i)
  unfolding make_nodes
  make_nodes-Made nf base leaf_base [] [] [] [] [] nodes ef et ed er h =
      let none_made : [] ≡ nodes = cc in (ap length (sym none_made), λ i l r p q. absurd (cc))
  make_nodes-Made nf base leaf_base (f ∷ fs) (t ∷ ts) (d ∷ ds) (l ∷ ls) (r ∷ rs) nodes ef et ed er
        h =
      elim (Option-cases (check_decision_type d)) [
        | inr (e, bad) ↦ absurd (ground arith)
        | inl good ↦ elim (Option-cases (feature_in nf f)) [
          | inl bad ↦ absurd (ground arith)
          | inr (feature, inside) ↦
              let x : Node F = record {
                threshold = t;
                feature = feature;
                left = rebase base leaf_base l;
                right = rebase base leaf_base r;
              } in
              let unfolded : bind (make_nodes nf base leaf_base fs ts ds ls rs) (λ ms. ok (x ∷ ms))
                  ≡ ok nodes =
                ground arith in
              let (rest, made, joined) =
                bind-ok (make_nodes nf base leaf_base fs ts ds ls rs) (λ ms. ok (x ∷ ms)) nodes
                  unfolded in
              let (size, each) =
                make_nodes-Made nf base leaf_base fs ts ds ls rs rest (omega arith) (omega arith)
                  (omega arith) (omega arith) made in
              let same : x ∷ rest ≡ nodes = cc in
              subst
                (λ ms.
                  (length ms ≡ suc (length ls))
                  × ((i : ℕ) (l' r' : Ref)
                      → get_elem? (l ∷ ls) i ≡ some l'
                      → get_elem? (r ∷ rs) i ≡ some r'
                      → Made (pos_part nf) base leaf_base l' r' ms i))
                same
                (
                  ap suc size,
                  first_or_later (pos_part nf) base leaf_base l r ls rs x rest
                      (feature_in-lt nf f feature inside) refl refl each,
                )
        ]
      ]
  make_nodes-Made nf base leaf_base fs ts ds ls rs nodes ef et ed er h = absurd (omega arith)
