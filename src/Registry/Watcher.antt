-- ===== src/Registry/Watcher.antt =====
-- internal/registry/watcher.go: `compatible`, `install` and the backoff of `Run`. Durations are in
-- nanoseconds. What the registry answers to `fetch` and what `model.Load` makes of a body are
-- parameters.
pub mod Laws
use belady.Common.{
  ℕ, ℤ, zero, suc, ◌+◌, ◌*◌, ◌≤◌, ◌^◌, ◌%◌, ◌≡◌, Bool, true, false, not, Option, none, some, List,
  [], ◌∷◌, ltb, leb, ◌==◌, if◌then◌else◌,
}
use belady.Cache.Holder.{ModelHolder, StoreError, store}
use belady.Registry.Stream.{ModelMeta, same_bytes, Received, ok, err}
use belady.Registry.Store.Names.{model_format}

abbrev pub second : ℕ
second = 1000000000

abbrev pub min_backoff : ℕ
min_backoff = second

abbrev pub max_backoff : ℕ
max_backoff = 30 * second

-- `Run`: the backoff that a dropped watch waits, and the one kept for the next.
unfoldable pub dropped : ℕ → ℕ → ℕ × ℕ
dropped lasted backoff =
    let wait : ℕ = if leb max_backoff lasted then min_backoff else backoff in
    (wait, if ltb (wait * 2) max_backoff then wait * 2 else max_backoff)

-- What is waited after watches that lasted so long.
unfoldable pub backoffs : List ℕ → ℕ → List ℕ
backoffs [] backoff = []
backoffs (lasted ∷ ls) backoff = (dropped lasted backoff).0 ∷ backoffs ls (dropped lasted backoff).1

pub data Refusal : Type 0 where
  no_metadata : Refusal
  unsupported_format : Refusal
  other_boundary : Refusal
  fetch_failed : Refusal
  load_failed : Refusal
  not_stored : StoreError → Refusal

-- `beladyv1.ModelMeta` or nil. A duration is the seconds times 10^9 in 64 bits.
unfoldable pub compatible : ℕ → Option ModelMeta → Option Refusal
compatible boundary none = some no_metadata
compatible boundary (some m) =
    if not (same_bytes m.format model_format)
    then some unsupported_format
    else if not ((m.boundary_seconds * second) % 2 ^ 64 == boundary)
    then some other_boundary
    else none

-- `GetVersion`, which is empty on nil.
unfoldable pub asked_version : Option ModelMeta → List ℕ
asked_version none = []
asked_version (some m) = m.version

-- A refusal of the holder ends an install as any other.
unfoldable pub refusal : Option StoreError → Option Refusal
refusal none = none
refusal (some e) = some (not_stored e)

module _ {M : Type 0} (features_of : M → ℤ) (feature_count : ℕ)
    (fetch : List ℕ → Option (ModelMeta × List ℕ)) (load : List ℕ → Option M) (boundary : ℕ) where
  unfoldable pub install_body : ModelMeta → List ℕ → ModelHolder M → ModelHolder M × Option Refusal
  install_body served body h = elim (compatible boundary (some served)) [
    | some e ↦ (h, some e)
    | none ↦ elim (load body) [
      | none ↦ (h, some load_failed)
      | some m ↦
          let (h', e) = store features_of feature_count m served.version boundary h in
          (h', refusal e)
    ]
  ]

  unfoldable pub install : Option ModelMeta → ModelHolder M → ModelHolder M × Option Refusal
  install m h = elim (compatible boundary m) [
    | some e ↦ (h, some e)
    | none ↦ elim (fetch (asked_version m)) [
      | none ↦ (h, some fetch_failed)
      | some served ↦ install_body served.0 served.1 h
    ]
  ]

  -- `watch`: the events of one stream; a refusal is counted and the stream goes on.
  unfoldable pub watch : List (Option ModelMeta) → ModelHolder M → ModelHolder M
  watch [] h = h
  watch (m ∷ ms) h = watch ms (install m h).0
