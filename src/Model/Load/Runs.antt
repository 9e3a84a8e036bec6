-- ===== src/Model/Load/Runs.antt =====
-- `Load` and `Raw` together.
use belady.Common.{ℤ, pos_part, ◌≤◌, ◌≡◌, Bool, some, Option, List, length, All}
use belady.Common.Float.{Float32}
use belady.Common.Text.{Text}
use belady.Model.Tree.{Model, ok, raw}
use belady.Model.Tree.Total.{raw-IsGrounded}
use belady.Model.Load.{load}
use belady.Model.Load.Sound.{Declares, load-IsGrounded}

module _ (fl : Float32) where
  open fl use {F}

  -- If every line that declares a number of features declares the same, then Raw of a loaded model
  -- returns a value for every vector of at least as many features: no walk leaves its arrays or
  -- goes round.
  pub raw-load :
      (parse_float : Text → Option F) (nf : ℤ) (torn : Bool) (lines : List Text) (m : Model F)
      (xs : List F)
      → All (Declares nf) lines
      → load parse_float torn lines ≡ ok m
      → pos_part m.num_features ≤ length xs
      → (v : F) × (raw fl m xs ≡ some v)
  raw-load parse_float nf torn lines m xs d h enough =
      raw-IsGrounded fl m xs enough (load-IsGrounded parse_float nf torn lines m d h)
