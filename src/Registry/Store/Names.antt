-- ===== src/Registry/Store/Names.antt =====
-- internal/registry/registry.go: which versions and uploads the service takes (`validVersion`,
-- `validate`) and the versions of a directory.
use belady.Common.{
  ℕ, ◌≤◌, ◌<◌, ◌≡◌, ◌≢◌, ◌↔◌, refl, arith, inl, inr, All, Option-cases, Bool, true, false, not,
  ◌||◌, Option, none, some, List, [], ◌∷◌, length, ltb, ◌==◌, if◌then◌else◌,
}
use belady.Registry.Stream.{ModelMeta, same_bytes}
use belady.Registry.Store.{meta, Dir, after}

-- 47, 92 and 46 are '/', '\' and '.'.
unfoldable pub is_separator : ℕ → Bool
is_separator c = c == 47 || c == 92 || c == 46

unfoldable pub contains_any : List ℕ → Bool
contains_any [] = false
contains_any (c ∷ cs) = is_separator c || contains_any cs

pub data NameError : Type 0 where
  required : NameError
  too_long : NameError
  not_bare : NameError

unfoldable pub valid_version : List ℕ → Option NameError
valid_version v =
    if length v == 0
    then some required
    else if ltb 64 (length v)
    then some too_long
    else if contains_any v
    then some not_bare
    else none

pub data InvalidModel : Type 0 where
  bad_name : NameError → InvalidModel
  unsupported_format : InvalidModel
  no_feature_count : InvalidModel
  no_boundary : InvalidModel
  empty_body : InvalidModel

-- "lightgbm-text"
unfoldable pub model_format : List ℕ
model_format = 108 ∷ 105 ∷ 103 ∷ 104 ∷ 116 ∷ 103 ∷ 98 ∷ 109 ∷ 45 ∷ 116 ∷ 101 ∷ 120 ∷ 116 ∷ []

unfoldable pub validate_fields : ModelMeta → List ℕ → Option InvalidModel
validate_fields m body =
    if not (same_bytes m.format model_format)
    then some unsupported_format
    else if m.feature_count == 0
    then some no_feature_count
    else if m.boundary_seconds == 0
    then some no_boundary
    else if length body == 0
    then some empty_body
    else none

unfoldable pub validate : ModelMeta → List ℕ → Option InvalidModel
validate m body = elim (valid_version m.version) [
  | some e ↦ some (bad_name e)
  | none ↦ validate_fields m body
]

-- `versions`: the directory's `.meta` files, sorted.
unfoldable pub insert_version : List ℕ → List (List ℕ) → List (List ℕ)
insert_version v [] = v ∷ []
insert_version v (w ∷ ws) =
    let rest = insert_version v ws in if after v w then w ∷ rest else v ∷ w ∷ ws

unfoldable pub versions : Dir → List (List ℕ)
versions [] = []
versions ((f, b) ∷ d) =
    let rest = versions d in elim f.extension [ meta ↦ insert_version f.version rest | _ ↦ rest ]

-- No byte is '/', '\' or '.'.
abbrev pub IsBare : List ℕ → Type 0
IsBare v = All (λ c. (c ≢ 47) × (c ≢ 92) × (c ≢ 46)) v

contains_any-IsBare : (v : List ℕ) → contains_any v ≡ false → IsBare v
unfolding contains_any is_separator
contains_any-IsBare [] h = tt
contains_any-IsBare (c ∷ v) h =
    ((ground arith, ground arith, ground arith), contains_any-IsBare v (ground arith))

IsBare-contains_any : (v : List ℕ) → IsBare v → contains_any v ≡ false
unfolding contains_any is_separator
IsBare-contains_any [] h = refl
IsBare-contains_any (c ∷ v) (h, hs) = ground (arith, h.0, h.1, h.2, IsBare-contains_any v hs)

-- What the service requires of an uploaded model.
pub record IsAcceptable (m : ModelMeta) (body : List ℕ) : Type 0 where
  pub short : length m.version ≤ 64
  pub named : 0 < length m.version
  pub bare : IsBare m.version
  pub format : same_bytes m.format model_format ≡ true
  pub features : 0 < m.feature_count
  pub boundary : 0 < m.boundary_seconds
  pub filled : 0 < length body

validate_fields-none :
    (m : ModelMeta) (body : List ℕ)
    → validate_fields m body ≡ none
    → (same_bytes m.format model_format ≡ true)
      × (0 < m.feature_count)
      × (0 < m.boundary_seconds)
      × (0 < length body)
unfolding validate_fields
validate_fields-none m body h = (ground arith, ground arith, ground arith, ground arith)

valid_version-none :
    (v : List ℕ) → valid_version v ≡ none → (0 < length v) × (length v ≤ 64) × IsBare v
unfolding valid_version
valid_version-none v h = (ground arith, ground arith, contains_any-IsBare v (ground arith))

pub validate_sound : (m : ModelMeta) (body : List ℕ) → validate m body ≡ none → IsAcceptable m body
unfolding validate
validate_sound m body h = elim (Option-cases (valid_version m.version)) [
  | inr (e, bad) ↦ absurd (ground arith)
  | inl valid ↦
      let (positive, short, bare) = valid_version-none m.version valid in
      let (text, features, boundary, filled) = validate_fields-none m body (ground arith) in
      record {
        short = short;
        named = positive;
        bare = bare;
        format = text;
        features = features;
        boundary = boundary;
        filled = filled;
      }
]

validate_complete : (m : ModelMeta) (body : List ℕ) → IsAcceptable m body → validate m body ≡ none
unfolding validate validate_fields valid_version
validate_complete m body a =
    let bare : contains_any m.version ≡ false = IsBare-contains_any m.version a.bare in
    ground (arith, bare, a.short, a.named, a.format, a.features, a.boundary, a.filled)

-- A model is taken exactly when its version is a name of 1 to 64 bytes without '/', '\' or '.',
-- its format is "lightgbm-text", its feature count and its boundary are not 0, and its body is not
-- empty.
pub validate_iff : (m : ModelMeta) (body : List ℕ) → (validate m body ≡ none) ↔ IsAcceptable m body
validate_iff m body = (validate_sound m body, validate_complete m body)
