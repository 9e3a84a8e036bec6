-- ===== src/Model/Load.antt =====
-- internal/model/model.go: `Load` and the loop of `run` over the lines of a model file. What
-- `strconv.ParseFloat` and the narrowing to float32 make of a text is a parameter, and so is whether
-- the scanner stops on an error after the lines that it gave. The objective and its sigmoid are left
-- out: `Raw` does not read them.
pub mod Sound
pub mod Runs
use belady.Common.{
  ℕ, zero, suc, ℤ, pos, negsuc, pos_part, ◌+◌, ◌-◌, ◌^◌, ◌≡◌, Bool, true, false, Option, none, some,
  List, [], ◌∷◌, ◌==◌, if◌then◌else◌, ◌>>=◌,
}
use belady.Common.Text.{Text, codes, same_text, trim_space, cut, fields, parse_int, is_empty}
use belady.Model.Tree.{
  Ref, node, leaf, Model, Parser, Result, ok, err, bind, bad_number, multiple_outputs,
  categorical_split, linear_trees, unreadable, no_trees, no_features, flush,
}

-- The keys that the switch names.
pub data Key : Type 0 where
  tree : Key
  single_output : Key
  max_feature_idx : Key
  num_leaves : Key
  num_cat : Key
  is_linear : Key
  split_feature : Key
  threshold : Key
  decision_type : Key
  left_child : Key
  right_child : Key
  leaf_value : Key
  other : Key

unfoldable pub key_of : Text → Key
key_of s =
    if same_text s (codes "Tree")
    then tree
    else if same_text s (codes "num_class")
    then single_output
    else if same_text s (codes "num_tree_per_iteration")
    then single_output
    else if same_text s (codes "max_feature_idx")
    then max_feature_idx
    else if same_text s (codes "num_leaves")
    then num_leaves
    else if same_text s (codes "num_cat")
    then num_cat
    else if same_text s (codes "is_linear")
    then is_linear
    else if same_text s (codes "split_feature")
    then split_feature
    else if same_text s (codes "threshold")
    then threshold
    else if same_text s (codes "decision_type")
    then decision_type
    else if same_text s (codes "left_child")
    then left_child
    else if same_text s (codes "right_child")
    then right_child
    else if same_text s (codes "leaf_value")
    then leaf_value
    else other

-- `n + 1` on an int.
unfoldable pub increment : ℤ → ℤ
increment (pos n) = if n + 1 == 2 ^ 63 then negsuc (2 ^ 63 - 1) else pos (n + 1)
increment (negsuc zero) = pos 0
increment (negsuc (suc n)) = negsuc n

-- A child index as a reference: `^leaf` is -(leaf + 1).
unfoldable pub ref_of : ℤ → Ref
ref_of (pos n) = node n
ref_of (negsuc n) = leaf n

-- An int64 as its bit pattern.
unfoldable pub pattern_of : ℤ → ℕ
pattern_of (pos n) = n
pattern_of (negsuc n) = 2 ^ 64 - 1 - n

-- `ints32`, `ints64` and `floats32`: a value for each field, or none if one is malformed.
unfoldable pub each_of : {A : Type 0} → (Text → Option A) → List Text → Option (List A)
each_of read [] = some []
each_of read (s ∷ ss) = let rest = each_of read ss in read s >>= λ a. rest >>= λ as'. some (a ∷ as')

unfoldable pub numbers : {A : Type 0} → (Text → Option A) → Text → Result (List A)
numbers read s = elim (each_of read (fields s)) [ none ↦ err bad_number | some as' ↦ ok as' ]

unfoldable pub number : Text → Result ℤ
number s = elim (parse_int 64 s) [ none ↦ err bad_number | some n ↦ ok n ]

module _ {F : Type 0} where
  abbrev pub new_parser : Parser F
  new_parser = record {
    model = record { nodes = []; leaves = []; roots = []; num_features = pos 0 };
    split_feature = [];
    threshold = [];
    decision_type = [];
    left_child = [];
    right_child = [];
    leaf_value = [];
    num_leaves = 0;
    in_tree = false;
  }

  -- The checks after `run`, on the roots and the number of features.
  unfoldable pub finish_load : List Ref → ℤ → Model F → Result (Model F)
  finish_load [] nf m = err no_trees
  finish_load (r ∷ rs) (pos zero) m = err no_features
  finish_load (r ∷ rs) (pos (suc n)) m = ok m
  finish_load (r ∷ rs) (negsuc n) m = ok m

  unfoldable pub finished : Model F → Result (Model F)
  unfolding finish_load
  finished m = finish_load m.roots m.num_features m

module _ {F : Type 0} (parse_float : Text → Option F) where
  -- The cases of the switch.
  unfoldable pub assign : Key → Text → Parser F → Result (Parser F)
  assign tree value p = bind (flush p) λ q. ok (record q { in_tree = true })
  assign single_output value p = if same_text value (codes "1") then ok p else err multiple_outputs
  assign max_feature_idx value p =
      bind (number value)
        λ n. let m = p.model in ok (record p { model = record m { num_features = increment n } })
  assign num_leaves value p = bind (number value) λ n. ok (record p { num_leaves = pos_part n })
  assign num_cat value p = if same_text value (codes "0") then ok p else err categorical_split
  assign is_linear value p = if same_text value (codes "0") then ok p else err linear_trees
  assign split_feature value p =
      bind (numbers (parse_int 32) value) λ fs. ok (record p { split_feature = fs })
  assign threshold value p = bind (numbers parse_float value) λ ts. ok (record p { threshold = ts })
  assign decision_type value p =
      bind (numbers (λ s. parse_int 64 s >>= λ n. some (pattern_of n)) value)
        λ ds. ok (record p { decision_type = ds })
  assign left_child value p =
      bind (numbers (λ s. parse_int 32 s >>= λ n. some (ref_of n)) value)
        λ ls. ok (record p { left_child = ls })
  assign right_child value p =
      bind (numbers (λ s. parse_int 32 s >>= λ n. some (ref_of n)) value)
        λ rs. ok (record p { right_child = rs })
  assign leaf_value value p =
      bind (numbers parse_float value) λ vs. ok (record p { leaf_value = vs })
  assign other value p = ok p

  -- A line that is not the end: blank, "tree", or without '=' is skipped.
  unfoldable pub read_line : Text → Parser F → Result (Parser F)
  read_line line p =
      if is_empty line
      then ok p
      else if same_text line (codes "tree")
      then ok p
      else (elim (cut b'=' line) [ none ↦ ok p | some parts ↦ assign (key_of parts.0) parts.1 p ])

  unfoldable pub run : Bool → List Text → Parser F → Result (Parser F)
  run torn [] p = if torn then err unreadable else flush p
  run torn (raw ∷ lines) p =
      let line = trim_space raw in
      let rest = bind (read_line line p) (λ q. run torn lines q) in
      if same_text line (codes "end of trees") then flush p else rest

  unfoldable pub load : Bool → List Text → Result (Model F)
  load torn lines = bind (run torn lines new_parser) λ p. finished p.model
