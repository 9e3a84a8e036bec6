-- ===== src/Registry/Watcher/Laws.antt =====
-- Which models a node can come to run, and how long it waits between watches.
use belady.Common.{
  ℕ, ℤ, pos, negsuc, true, ◌≤◌, ◌<◌, ◌*◌, ◌%◌, ◌^◌, ◌≡◌, ◌⊎◌, inl, inr, refl, sym, subst, Option,
  none, some, List, [], ◌∷◌, leb, ◌==◌, arith, Bool-cases, Option-cases, All,
}
use belady.Cache.Holder.{Loaded, ModelHolder, has_features, store}
use belady.Registry.Store.Names.{model_format}
use belady.Registry.Stream.{ModelMeta, same_bytes}
use belady.Registry.Stream.Whole.{same_bytes-eq}
use belady.Registry.Watcher.{
  second, min_backoff, max_backoff, dropped, backoffs, compatible, install_body, install,
  asked_version, watch,
}

abbrev pub InRange : ℕ → Type 0
InRange b = (min_backoff ≤ b) × (b ≤ max_backoff)

-- From a backoff of one to thirty seconds, every wait between watches is of one to thirty seconds.
pub backoffs-InRange :
    (ls : List ℕ) (backoff : ℕ) → InRange backoff → All InRange (backoffs ls backoff)
unfolding backoffs dropped
backoffs-InRange [] backoff h = tt
backoffs-InRange (l ∷ ls) backoff h =
    (ground arith, backoffs-InRange ls (dropped l backoff).1 (ground arith))

has_features-eq : (n : ℤ) (k : ℕ) → has_features n k ≡ true → n ≡ pos k
unfolding has_features
has_features-eq (pos n) k h = ground arith
has_features-eq (negsuc n) k h = absurd (cc)

-- A body of the right format, whose boundary the node has.
compatible-fits :
    (boundary : ℕ) (m : ModelMeta)
    → compatible boundary (some m) ≡ none
    → (m.format ≡ model_format) × ((m.boundary_seconds * second) % 2 ^ 64 ≡ boundary)
unfolding compatible
compatible-fits boundary m h = elim (Bool-cases (same_bytes m.format model_format)) [
  | inr other ↦ absurd (ground (arith, other))
  | inl format ↦ (same_bytes-eq m.format model_format format, ground (arith, format))
]

module _ {M : Type 0} (features_of : M → ℤ) (feature_count : ℕ)
    (fetch : List ℕ → Option (ModelMeta × List ℕ)) (load : List ℕ → Option M) (boundary : ℕ) where
  -- The registry served the model, for some version that the node asked for: its body was loaded,
  -- and its metadata name the version and the boundary that the holder keeps for it.
  pub record IsServed (l : Loaded M) : Type 0 where
    pub asked : List ℕ
    pub served : ModelMeta
    pub body : List ℕ
    pub fetched : fetch asked ≡ some (served, body)
    pub loaded : load body ≡ some l.model
    pub version : l.version ≡ served.version
    pub format : served.format ≡ model_format
    pub made_for : (served.boundary_seconds * second) % 2 ^ 64 ≡ l.boundary
    pub features : features_of l.model ≡ pos feature_count
    pub positive : 0 < l.boundary

  -- A holder without a model, or with one that the registry served for the node's boundary.
  pub data Runs : ModelHolder M → Type 0 where
    empty : Runs none
    runs : (l : Loaded M) → IsServed l → l.boundary ≡ boundary → Runs (some l)

  store-cases :
      (m : M) (v : List ℕ) (h : ModelHolder M)
      → ((store features_of feature_count m v boundary h).0 ≡ h)
        ⊎ ((store features_of feature_count m v boundary h).0
              ≡ some (record { model = m; version = v; boundary = boundary })
            × features_of m ≡ pos feature_count
            × 0 < boundary)
  unfolding store
  store-cases m v h = elim (Bool-cases (has_features (features_of m) feature_count)) [
    | inr other ↦ inl (ground arith)
    | inl same ↦ elim (Bool-cases (boundary == 0)) [
      | inl zero_boundary ↦ inl (ground arith)
      | inr positive ↦ elim (Bool-cases (leb (2 ^ 63) boundary)) [
        | inl negative ↦ inl (ground arith)
        | inr fits ↦
            inr (ground arith, has_features-eq (features_of m) feature_count same, ground arith)
      ]
    ]
  ]

  store-Runs :
      (v : List ℕ) (served : ModelMeta) (body : List ℕ) (m : M) (h : ModelHolder M)
      → fetch v ≡ some (served, body)
      → load body ≡ some m
      → compatible boundary (some served) ≡ none
      → Runs h
      → Runs (store features_of feature_count m served.version boundary h).0
  store-Runs v served body m h came parsed fits r =
      let (format, made_for) = compatible-fits boundary served fits in
      elim (store-cases m served.version h) [
        | inl same ↦ subst Runs (sym same) r
        | inr (new, features, positive) ↦ subst Runs (sym new) (
            runs (record { model = m; version = served.version; boundary = boundary })
              (record {
                asked = v;
                served = served;
                body = body;
                fetched = came;
                loaded = parsed;
                version = refl;
                format = format;
                made_for = made_for;
                features = features;
                positive = positive;
              })
              refl)
      ]

  install_body-Runs :
      (v : List ℕ) (served : ModelMeta) (body : List ℕ) (h : ModelHolder M)
      → fetch v ≡ some (served, body)
      → Runs h
      → Runs (install_body features_of feature_count fetch load boundary served body h).0
  unfolding install_body
  install_body-Runs v served body h came r =
      elim (Option-cases (compatible boundary (some served))) [
        | inr (e, refused) ↦ subst Runs (ground arith) r
        | inl fits ↦ elim (Option-cases (load body)) [
          | inl unread ↦ subst Runs (ground arith) r
          | inr (m, parsed) ↦
              subst Runs (ground arith) (store-Runs v served body m h came parsed fits r)
        ]
      ]

  install-Runs :
      (m : Option ModelMeta) (h : ModelHolder M)
      → Runs h
      → Runs (install features_of feature_count fetch load boundary m h).0
  unfolding install
  install-Runs m h r = elim (Option-cases (compatible boundary m)) [
    | inr (e, refused) ↦ subst Runs (ground arith) r
    | inl fits ↦ elim (Option-cases (fetch (asked_version m))) [
      | inl failed ↦ subst Runs (ground arith) r
      | inr (served, came) ↦
          subst Runs (ground arith) (install_body-Runs (asked_version m) served.0 served.1 h came r)
    ]
  ]

  -- From no model, or one that the registry served for the node's boundary, a stream of any
  -- events, whatever the registry answers, leaves the node with no model or with such a one: a
  -- fetch returned its metadata and body, the body was loaded to it and reads this build's number
  -- of features, and the metadata have its version, the format that this build reads and, in
  -- nanoseconds modulo 2 ^ 64, the boundary that the holder keeps, which is the node's and
  -- positive.
  pub watch-Runs :
      (ms : List (Option ModelMeta)) (h : ModelHolder M)
      → Runs h
      → Runs (watch features_of feature_count fetch load boundary ms h)
  unfolding watch
  watch-Runs [] h r = r
  watch-Runs (m ∷ ms) h r =
      watch-Runs ms (install features_of feature_count fetch load boundary m h).0
        (install-Runs m h r)
