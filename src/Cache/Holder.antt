-- ===== src/Cache/Holder.antt =====
-- internal/cache/lrb.go: `ModelHolder`, the one place of the trained model that all shards read.
-- A version is its bytes, a boundary an int64 of nanoseconds; the pointer that is swapped is the value.
use belady.Common.{
  ℕ, ℤ, pos, negsuc, ◌^◌, Bool, false, Option, none, some, List, [], leb, ◌==◌, if◌then◌else◌,
}

pub record Loaded (M : Type 0) : Type 0 where
  pub model : M
  pub version : List ℕ
  pub boundary : ℕ

abbrev pub ModelHolder : Type 0 → Type 0
ModelHolder M = Option (Loaded M)

pub data StoreError : Type 0 where
  wrong_features : StoreError
  no_boundary : StoreError

unfoldable pub has_features : ℤ → ℕ → Bool
has_features (pos n) count = n == count
has_features (negsuc n) count = false

unfoldable pub version_of : {M : Type 0} → ModelHolder M → List ℕ
version_of none = []
version_of (some l) = l.version

unfoldable pub boundary_of : {M : Type 0} → ModelHolder M → ℕ
boundary_of none = 0
boundary_of (some l) = l.boundary

module _ {M : Type 0} (features_of : M → ℤ) (feature_count : ℕ) where
  -- A boundary that is not positive is 0 or from 2^63 on.
  unfoldable pub store : M → List ℕ → ℕ → ModelHolder M → ModelHolder M × Option StoreError
  store m version boundary h =
      if has_features (features_of m) feature_count
      then (if boundary == 0
          then (h, some no_boundary)
          else if leb (2 ^ 63) boundary
          then (h, some no_boundary)
          else (some (record { model = m; version = version; boundary = boundary }), none))
      else (h, some wrong_features)
