-- ===== src/Cache/Shard/Store.antt =====
-- The methods of a shard against the store of values and deadlines that it stands for.
use belady.Common.{
  ℕ, ◌≡◌, ◌≢◌, refl, Option, none, some, List, Map, lookup, Bool, true, not, ◌&&◌, ◌==◌,
  if◌then◌else◌, arith, inl, inr, ap, ◌∙◌, Option-cases, Bool-cases, lt_i64, ◌↔◌, ==_iff,
}
use belady.Cache.Entry.{Entry, expired, touch}
use belady.Cache.Policy.{Policy}
use belady.Cache.Policy.Laws.{IsLawful, stored, stored-lookup, stored-insert, stored-erase}
use belady.Cache.Shard.{Shard, drop_entry, serve, get, remove}

-- A deadline of 0 is none. Deadlines and times are int64.
abbrev pub has_passed : ℕ → ℕ → Bool
has_passed expires now_us = not (expires == 0) && not (lt_i64 now_us expires)

-- What is left of a stored value at a time, and what a read returns of it.
unfoldable pub at_time : ℕ → Option (List ℕ × ℕ) → Option (List ℕ × ℕ)
at_time now_us none = none
at_time now_us (some (v, expires)) = if has_passed expires now_us then none else some (v, expires)

unfoldable pub value_of : Option (List ℕ × ℕ) → Option (List ℕ)
value_of none = none
value_of (some (v, expires)) = some v

pub lookup_of_stored : (k : ℕ) (m : Map Entry) → stored k m ≡ none → lookup k m ≡ none
lookup_of_stored k m h = elim (Option-cases (lookup k m)) [
  | inl absent ↦ absent
  | inr (e, held) ↦ absurd (ground (arith, stored-lookup k m))
]

pub stored_of_lookup : (k : ℕ) (m : Map Entry) → lookup k m ≡ none → stored k m ≡ none
stored_of_lookup k m h = rw h at (stored-lookup k m)

module _ {P : Policy} where
  serve-stored :
      (s : Shard P) (k : ℕ) (e : Entry) (now_us : ℕ)
      → IsLawful P
      → let (s', out) = serve s k e now_us in
        (out ≡ some e.value)
        × ((j : ℕ) → stored j s'.m ≡ (if k == j then some (e.value, e.expires) else stored j s.m))
  unfolding serve touch
  serve-stored s k e now_us lawful =
      let e' = (P.on_access (touch e now_us) s.policy).0 in
      let kept = lawful.access_keeps (touch e now_us) s.policy in
      let value : e'.value ≡ e.value = ap (λ (x : Entry). x.value) kept in
      let expires : e'.expires ≡ e.expires = ap (λ (x : Entry). x.expires) kept in
      (
        ap some value,
        λ j.
            stored-insert k j e' s.m
            ∙ ap (λ (x : List ℕ × ℕ). if k == j then some x else stored j s.m)
                (λ i. (value i, expires i)),
      )

  -- Under a lawful policy a read returns the stored value of the key unless its deadline has
  -- passed; it forgets a value whose deadline has passed, and changes nothing else of what is
  -- stored.
  pub get_refines :
      (s : Shard P) (k now_us : ℕ)
      → IsLawful P
      → let (s', out) = get s k now_us in
        (out ≡ value_of (at_time now_us (stored k s.m)))
        × ((j : ℕ)
            → stored j s'.m ≡ (if k == j then at_time now_us (stored k s.m) else stored j s.m))
  unfolding get expired at_time value_of drop_entry
  get_refines s k now_us lawful = elim (Option-cases (lookup k s.m)) [
    | inl absent ↦
        let empty : stored k s.m ≡ none = rw absent at (stored-lookup k s.m) in
        rw (absent, get, empty)
          (
            refl,
            λ j. elim (Bool-cases (k == j)) [
              | inl same ↦ rw (same, ← (==_iff k j).0 same, empty)
              | inr other ↦ rw other
            ],
          )
    | inr (e, held) ↦
        let full : stored k s.m ≡ some (e.value, e.expires) = rw held at (stored-lookup k s.m) in
        elim (Bool-cases (has_passed e.expires now_us)) [
          | inl stale ↦ rw (held, get, full, at_time, stale) (refl, λ j. stored-erase k j s.m)
          | inr fresh ↦ rw (held, get, full, at_time, fresh) (serve-stored s k e now_us lawful)
        ]
  ]

  -- A delete reports whether the key was held, forgets it, and changes nothing else of what is
  -- stored.
  pub remove_refines :
      (s : Shard P) (k : ℕ)
      → let (s', existed) = remove s k in
        ((existed ≡ true) ↔ (stored k s.m ≢ none))
        × ((j : ℕ) → stored j s'.m ≡ (if k == j then none else stored j s.m))
  unfolding remove drop_entry
  remove_refines s k = elim (Option-cases (lookup k s.m)) [
    | inl absent ↦
        let empty : stored k s.m ≡ none = rw absent at (stored-lookup k s.m) in
        rw (absent, remove)
          (
            ground arith,
            λ j. elim (Bool-cases (k == j)) [
              | inl same ↦ rw (same, ← (==_iff k j).0 same, empty)
              | inr other ↦ rw other
            ],
          )
    | inr (e, held) ↦
        let full : stored k s.m ≡ some (e.value, e.expires) = rw held at (stored-lookup k s.m) in
        rw (held, remove, full) (ground arith, λ j. stored-erase k j s.m)
  ]
