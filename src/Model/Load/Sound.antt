-- ===== src/Model/Load/Sound.antt =====
-- Which models the loader lets through.
use belady.Common.{
  ℕ, zero, suc, ℤ, pos, negsuc, pos_part, ◌≤◌, ◌≡◌, ◌≢◌, ◌⊎◌, inl, inr, refl, sym, ap, subst, ◌∙◌,
  Bool, true, false, Option, none, some, List, [], ◌∷◌, length, All, if◌then◌else◌, ◌>>=◌, arith,
  Bool-cases, Option-cases,
}
use belady.Common.Text.{Text, codes, same_text, trim_space, cut, parse_int, is_empty}
use belady.Model.Tree.{Ref, node, leaf, Node, Model, Parser, Result, ok, bind, flush}
use belady.Model.Tree.Binding.{bind-ok}
use belady.Model.Tree.Grounded.{Grounded, IsGrounded}
use belady.Model.Tree.Flush.{Flushed, flush-Flushed, ok-inj}
use belady.Model.Load.{
  Key, tree, single_output, max_feature_idx, num_leaves, num_cat, is_linear, split_feature,
  threshold, decision_type, left_child, right_child, leaf_value, other, key_of, increment, number,
  numbers, assign, read_line, run, new_parser, finish_load, finished, load,
}

-- The number of features that a line declares.
abbrev pub declared_by : Key → Text → Option ℤ
declared_by max_feature_idx value = parse_int 64 value >>= λ n. some (increment n)
declared_by key value = none

abbrev pub declared : Text → Option ℤ
declared raw = cut b'=' (trim_space raw) >>= λ parts. declared_by (key_of parts.0) parts.1

-- Every line that declares a number of features declares this one.
abbrev pub Declares : ℤ → Text → Type 0
Declares nf raw = (n : ℤ) → declared raw ≡ some n → n ≡ nf

number-ok : (s : Text) (n : ℤ) → number s ≡ ok n → parse_int 64 s ≡ some n
unfolding number
number-ok s n h = elim (Option-cases (parse_int 64 s)) [
  | inl bad ↦ absurd (ground arith)
  | inr (m, good) ↦ ground arith
]

module _ {F : Type 0} where
  roots_raise :
      (nodes : List (Node F)) (leaves features k : ℕ) (more : ℕ) (r : Ref)
      → features ≤ more
      → Grounded nodes leaves features k r
      → Grounded nodes leaves more k r
  roots_raise nodes leaves features k more (leaf i) le g = g
  roots_raise nodes leaves features zero more (node i) le g = g
  roots_raise nodes leaves features (suc k) more (node i) le (x, at, inside, l, r) = (
    x,
    at,
    omega arith,
    roots_raise nodes leaves features k more x.left le l,
    roots_raise nodes leaves features k more x.right le r,
  )

  All-raise :
      (nodes : List (Node F)) (leaves features k more : ℕ) (roots : List Ref)
      → features ≤ more
      → All (Grounded nodes leaves features k) roots
      → All (Grounded nodes leaves more k) roots
  All-raise nodes leaves features k more [] le h = tt
  All-raise nodes leaves features k more (r ∷ roots) le (g, h) = (
    roots_raise nodes leaves features k more r le g,
    All-raise nodes leaves features k more roots le h,
  )

  -- Of the model so far: it is grounded, and declares no features or those of the file.
  record IsSound (nf : ℤ) (m : Model F) : Type 0 where
    grounded : IsGrounded m
    features : (m.num_features ≡ pos 0) ⊎ (m.num_features ≡ nf)

  finish_load-same :
      (roots : List Ref) (nf : ℤ) (m n : Model F) → finish_load roots nf m ≡ ok n → m ≡ n
  unfolding finish_load
  finish_load-same [] nf m n h = absurd (cc)
  finish_load-same (r ∷ rs) (pos zero) m n h = absurd (cc)
  finish_load-same (r ∷ rs) (pos (suc k)) m n h = cc
  finish_load-same (r ∷ rs) (negsuc k) m n h = cc

  finished-same : (m n : Model F) → finished m ≡ ok n → m ≡ n
  unfolding finished
  finished-same m n h = finish_load-same m.roots m.num_features m n h

  module _ (parse_float : Text → Option F) (nf : ℤ) where
    flush-IsSound : (p q : Parser F) → IsSound nf p.model → flush p ≡ ok q → IsSound nf q.model
    flush-IsSound p q s h =
        let f : Flushed p q = flush-Flushed p q s.grounded h in
        record {
          grounded = f.grounded;
          features = subst (λ t. (t ≡ pos 0) ⊎ (t ≡ nf)) (sym f.features) s.features;
        }

    -- A case that leaves the model alone.
    same_model :
        {A : Type 0} (p q : Parser F) (r : Result A) (f : A → Parser F)
        → ((a : A) → (f a).model ≡ p.model)
        → IsSound nf p.model
        → bind r (λ a. ok (f a)) ≡ ok q
        → IsSound nf q.model
    same_model p q r f kept s h =
        let (a, came, ends) = bind-ok r (λ a. ok (f a)) q h in
        subst (IsSound nf) (sym (kept a) ∙ ap (λ (t : Parser F). t.model) (ok-inj (f a) q ends)) s

    raised :
        (m : Model F) (n : ℤ)
        → n ≡ nf
        → (m.num_features ≡ pos 0) ⊎ (m.num_features ≡ nf)
        → pos_part m.num_features ≤ pos_part n
    raised m n same (inl none_yet) = omega (arith, ap pos_part none_yet)
    raised m n same (inr before) = omega (arith, ap pos_part (before ∙ sym same))

    raise-IsSound :
        (m : Model F) (n : ℤ) → n ≡ nf → IsSound nf m → IsSound nf (record m { num_features = n })
    raise-IsSound m n same s = record {
      grounded =
          All-raise m.nodes (length m.leaves) (pos_part m.num_features) (length m.nodes)
            (pos_part n) m.roots (raised m n same s.features) s.grounded;
      features = inr same;
    }

    kept_if :
        (p q : Parser F) (b : Bool) (e : Result (Parser F))
        → ((a : Parser F) → e ≢ ok a)
        → IsSound nf p.model
        → (if b then ok p else e) ≡ ok q
        → IsSound nf q.model
    kept_if p q true e bad s h = subst (λ (t : Parser F). IsSound nf t.model) (ok-inj p q h) s
    kept_if p q false e bad s h = absurd (bad q h)

    assign-IsSound :
        (key : Key) (value : Text) (p q : Parser F)
        → ((n : ℤ) → declared_by key value ≡ some n → n ≡ nf)
        → IsSound nf p.model
        → assign parse_float key value p ≡ ok q
        → IsSound nf q.model
    unfolding assign
    assign-IsSound tree value p q d s h =
        let (r, flushed, ends) = bind-ok (flush p) (λ r. ok (record r { in_tree = true })) q h in
        subst (λ (t : Parser F). IsSound nf t.model) (ok-inj (record r { in_tree = true }) q ends)
          (flush-IsSound p r s flushed)
    assign-IsSound single_output value p q d s h =
        kept_if p q (same_text value (codes "1")) _ (λ a e. absurd (cc)) s h
    assign-IsSound max_feature_idx value p q d s h =
        let (n, came, ends) = bind-ok (number value) _ q h in
        let same : increment n ≡ nf =
          d (increment n)
            (ap (λ (o : Option ℤ). o >>= λ k. some (increment k)) (number-ok value n came)) in
        subst (λ (t : Parser F). IsSound nf t.model) (ok-inj _ q ends)
          (raise-IsSound p.model (increment n) same s)
    assign-IsSound num_leaves value p q d s h = same_model p q (number value) _ (λ a. refl) s h
    assign-IsSound num_cat value p q d s h =
        kept_if p q (same_text value (codes "0")) _ (λ a e. absurd (cc)) s h
    assign-IsSound is_linear value p q d s h =
        kept_if p q (same_text value (codes "0")) _ (λ a e. absurd (cc)) s h
    assign-IsSound split_feature value p q d s h =
        same_model p q (numbers (parse_int 32) value) (λ fs. record p { split_feature = fs })
          (λ a. refl) s h
    assign-IsSound threshold value p q d s h =
        same_model p q _ (λ fs. record p { threshold = fs }) (λ a. refl) s h
    assign-IsSound decision_type value p q d s h =
        same_model p q _ (λ fs. record p { decision_type = fs }) (λ a. refl) s h
    assign-IsSound left_child value p q d s h =
        same_model p q _ (λ fs. record p { left_child = fs }) (λ a. refl) s h
    assign-IsSound right_child value p q d s h =
        same_model p q _ (λ fs. record p { right_child = fs }) (λ a. refl) s h
    assign-IsSound leaf_value value p q d s h =
        same_model p q _ (λ fs. record p { leaf_value = fs }) (λ a. refl) s h
    assign-IsSound other value p q d s h =
        subst (λ (t : Parser F). IsSound nf t.model) (ok-inj p q h) s

    read_line-IsSound :
        (line : Text) (p q : Parser F)
        → ((n : ℤ)
            → (cut b'=' line >>= λ parts. declared_by (key_of parts.0) parts.1) ≡ some n
            → n ≡ nf)
        → IsSound nf p.model
        → read_line parse_float line p ≡ ok q
        → IsSound nf q.model
    unfolding read_line
    read_line-IsSound line p q d s h = elim (Bool-cases (is_empty line)) [
      | inl blank ↦ subst (λ (t : Parser F). IsSound nf t.model) (ok-inj p q (ground arith)) s
      | inr text ↦ elim (Bool-cases (same_text line (codes "tree"))) [
        | inl heading ↦ subst (λ (t : Parser F). IsSound nf t.model) (ok-inj p q (ground arith)) s
        | inr body ↦ elim (Option-cases (cut b'=' line)) [
          | inl free ↦ subst (λ (t : Parser F). IsSound nf t.model) (ok-inj p q (ground arith)) s
          | inr (parts, found) ↦
              assign-IsSound (key_of parts.0) parts.1 p q
                (λ n e. d n (
                  ap (λ (o : Option (Text × Text)). o >>= λ t. declared_by (key_of t.0) t.1) found
                  ∙ e))
                s (ground arith)
        ]
      ]
    ]

    run-IsSound :
        (torn : Bool) (lines : List Text) (p q : Parser F)
        → All (Declares nf) lines
        → IsSound nf p.model
        → run parse_float torn lines p ≡ ok q
        → IsSound nf q.model
    unfolding run
    run-IsSound true [] p q d s h = absurd (cc)
    run-IsSound false [] p q d s h = flush-IsSound p q s h
    run-IsSound torn (raw ∷ lines) p q (d, ds) s h =
        elim (Bool-cases (same_text (trim_space raw) (codes "end of trees"))) [
          | inl end ↦ flush-IsSound p q s (ground arith)
          | inr more ↦
              let on : bind (read_line parse_float (trim_space raw) p)
                    (λ r. run parse_float torn lines r)
                  ≡ ok q =
                ground arith in
              let (r, read, rest) =
                bind-ok (read_line parse_float (trim_space raw) p)
                  (λ r. run parse_float torn lines r) q on in
              run-IsSound torn lines r q ds (read_line-IsSound (trim_space raw) p r d s read) rest
        ]

    -- Load
    pub load-IsGrounded :
        (torn : Bool) (lines : List Text) (m : Model F)
        → All (Declares nf) lines
        → load parse_float torn lines ≡ ok m
        → IsGrounded m
    unfolding load
    load-IsGrounded torn lines m d h =
        let (p, ran, ends) =
          bind-ok (run parse_float torn lines new_parser) (λ q. finished q.model) m h in
        let s : IsSound nf p.model =
          run-IsSound torn lines new_parser p d (record { grounded = tt; features = inl refl })
            ran in
        subst IsGrounded (finished-same p.model m ends) s.grounded
