-- ===== src/Tests/Models.antt =====
-- A model of one tree with one split, read from its text, over integers in place of float32.
use belady.Common.{
  ℕ, pos, ◌+◌, ◌/◌, ◌≡◌, refl, false, none, some, List, [], ◌∷◌, take, All, arith, ltb, leb,
}
use belady.Common.Float.{Float32}
use belady.Common.Text
use belady.Common.Text.{Text, codes, digits}
use belady.Cache.Holder.{Loaded}
use belady.Cache.Lrb.{Lrb, new_lrb, lrb_victim}
use belady.Cache.Lrb.Worst.{IsOrder, IsLikeliest, lrb_victim-IsLikeliest}
use belady.Model.Load
use belady.Model.Load.{load}
use belady.Model.Load.Sound.{declared, Declares}
use belady.Model.Load.Runs.{raw-load}
use belady.Model.Tree
use belady.Model.Tree.{node, leaf, Model, ok, check_shape, raw}
use belady.Model.Tree.Shape.{IsTree, check_shape-IsTree}
use belady.Tests.Caches.{integers, three}

abbrev words : Float32
words = record {
  F = ℕ;
  zero_f = 0;
  one_f = 1;
  million_f = 1000000;
  add_f = ◌+◌;
  div_f = ◌/◌;
  le_f = leb;
  less_f = ltb;
  of_i32 = λ n. n;
  of_i64 = λ n. n;
  of_u32 = λ n. n;
}

one_split : check_shape 1 2 (leaf 0 ∷ []) (leaf 1 ∷ []) ≡ ok tt
unfolding check_shape Tree.count_children Tree.child_error Tree.slot_of Tree.bump_at Tree.all_one
one_split = refl

check_shape-IsTree_example : IsTree 1 (leaf 0 ∷ []) (leaf 1 ∷ [])
check_shape-IsTree_example =
    check_shape-IsTree 1 (leaf 0 ∷ []) (leaf 1 ∷ []) (omega arith) refl refl one_split

abbrev lines : List Text
lines =
    codes "max_feature_idx=0"
    ∷ codes "Tree=0"
    ∷ codes "num_leaves=2"
    ∷ codes "split_feature=0"
    ∷ codes "threshold=5"
    ∷ codes "decision_type=2"
    ∷ codes "left_child=-1"
    ∷ codes "right_child=-2"
    ∷ codes "leaf_value=10 20"
    ∷ codes "end of trees"
    ∷ []

abbrev small : Model ℕ
small = record {
  nodes = record { threshold = 5; feature = 0; left = leaf 0; right = leaf 1 } ∷ [];
  leaves = 10 ∷ 20 ∷ [];
  roots = node 0 ∷ [];
  num_features = pos 1;
}

loaded : load digits false lines ≡ ok small
unfolding load Load.run Load.read_line Load.assign Load.finished Load.finish_load Load.numbers
    Load.number Load.each_of Load.key_of Load.increment Load.ref_of Load.pattern_of Tree.flush
    Tree.flush_split Tree.convert Tree.add_tree Tree.reset Tree.arrays_agree Tree.make_nodes
    Tree.feature_in Tree.rebase Tree.check_decision_type check_shape Tree.count_children
    Tree.child_error Tree.slot_of Tree.bump_at Tree.all_one Text.trim_space Text.trim_left
    Text.trim_right Text.is_space Text.cut Text.fields Text.split_by Text.non_empty Text.is_empty
    Text.same_text Text.parse_int Text.digits Text.digits_from Text.minus
loaded = refl

-- A line that declares nothing, and one that declares the one feature.
Declares-none : (raw : Text) → declared raw ≡ none → Declares (pos 1) raw
Declares-none raw h n e = let both : none ≡ some n = cc in absurd (cc)

Declares-one : (raw : Text) → declared raw ≡ some (pos 1) → Declares (pos 1) raw
Declares-one raw h n e = let both : some (pos 1) ≡ some n = cc in cc

declared_lines : All (Declares (pos 1)) lines
unfolding Text.trim_space Text.trim_left Text.trim_right Text.is_space Text.cut Text.same_text
    Text.parse_int Text.digits Text.digits_from Text.minus Text.is_empty Load.key_of Load.increment
declared_lines = (
  Declares-one (codes "max_feature_idx=0") refl,
  (
    Declares-none (codes "Tree=0") refl,
    (
      Declares-none (codes "num_leaves=2") refl,
      (
        Declares-none (codes "split_feature=0") refl,
        (
          Declares-none (codes "threshold=5") refl,
          (
            Declares-none (codes "decision_type=2") refl,
            (
              Declares-none (codes "left_child=-1") refl,
              (
                Declares-none (codes "right_child=-2") refl,
                (
                  Declares-none (codes "leaf_value=10 20") refl,
                  (Declares-none (codes "end of trees") refl, tt),
                ),
              ),
            ),
          ),
        ),
      ),
    ),
  ),
)

raw-load_example : (v : ℕ) × (raw words small (7 ∷ []) ≡ some v)
raw-load_example =
    raw-load words digits (pos 1) false lines small (7 ∷ []) declared_lines loaded (omega arith)

-- The feature is checked against the first declaration, of four; the second, of one, is kept.
abbrev declared_twice : List Text
declared_twice =
    codes "max_feature_idx=3"
    ∷ codes "Tree=0"
    ∷ codes "num_leaves=2"
    ∷ codes "split_feature=3"
    ∷ codes "threshold=5"
    ∷ codes "decision_type=2"
    ∷ codes "left_child=-1"
    ∷ codes "right_child=-2"
    ∷ codes "leaf_value=10 20"
    ∷ codes "Tree=1"
    ∷ codes "max_feature_idx=0"
    ∷ codes "num_leaves=1"
    ∷ codes "leaf_value=1"
    ∷ codes "end of trees"
    ∷ []

-- Such a text loads as a model of one feature, and its score of one value is a panic.
out_of_range :
    (m : Model ℕ) × (load digits false declared_twice ≡ ok m)
    × (m.num_features ≡ pos 1)
    × (raw words m (7 ∷ []) ≡ none)
unfolding load Load.run Load.read_line Load.assign Load.finished Load.finish_load Load.numbers
    Load.number Load.each_of Load.key_of Load.increment Load.ref_of Load.pattern_of Tree.flush
    Tree.flush_split Tree.flush_leaf Tree.convert Tree.add_tree Tree.reset Tree.arrays_agree
    Tree.make_nodes Tree.feature_in Tree.rebase Tree.check_decision_type check_shape
    Tree.count_children Tree.child_error Tree.slot_of Tree.bump_at Tree.all_one Text.trim_space
    Text.trim_left Text.trim_right Text.is_space Text.cut Text.fields Text.split_by Text.non_empty
    Text.is_empty Text.same_text Text.parse_int Text.digits Text.digits_from Text.minus raw
    Tree.raw_from Tree.walk
out_of_range = (
  record {
    nodes = record { threshold = 5; feature = 3; left = leaf 0; right = leaf 1 } ∷ [];
    leaves = 10 ∷ 20 ∷ 1 ∷ [];
    roots = node 0 ∷ leaf 2 ∷ [];
    num_features = pos 1;
  },
  refl,
  refl,
  refl,
)

words-IsOrder : IsOrder words
words-IsOrder = record { irreflexive = λ a. ground arith; not_above = λ a b c h k. ground arith }

-- Idle for 25 ms or less, the score is 1, and above that it is 9.
abbrev installed : Loaded (Model ℕ)
installed = record {
  model = record {
    nodes = record { threshold = 25; feature = 1; left = leaf 0; right = leaf 1 } ∷ [];
    leaves = 1 ∷ 9 ∷ [];
    roots = node 0 ∷ [];
    num_features = pos 14;
  };
  version = [];
  boundary = 600;
}

abbrev policy : Lrb words integers
policy = new_lrb words integers (some installed)

lrb_victim-IsLikeliest_example :
    (key : ℕ) × (q : Lrb words integers) × (lrb_victim words integers 3 three 50000 policy
      ≡ some (some key, q))
    × IsLikeliest words integers installed.model 50000 (take 3 three.order) key
unfolding new_lrb
lrb_victim-IsLikeliest_example =
    lrb_victim-IsLikeliest words integers words-IsOrder installed 50000 2 three policy refl refl
      (
        (
          record { threshold = 25; feature = 1; left = leaf 0; right = leaf 1 },
          refl,
          omega arith,
          omega arith,
          omega arith,
        ),
        tt,
      )
      (omega arith) (omega arith) (refl, (refl, (refl, tt)))
