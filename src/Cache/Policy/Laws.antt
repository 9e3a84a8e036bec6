-- ===== src/Cache/Policy/Laws.antt =====
-- What a shard relies on: a policy changes nothing of an entry but its frequency counter, and
-- neither adds entries nor takes them away.
use belady.Common.{
  ℕ, ◌+◌, ◌<◌, ◌^◌, ◌≡◌, ◌≢◌, refl, ap, ap₂, List, [], ◌∷◌, length, Option, none, some, Map, lookup,
  insert, erase, All, Distinct, arith, ◌==◌, if◌then◌else◌,
}
use belady.Cache.Entry.{Entry, touch}
use belady.Cache.Policy.{Policy, Candidates}

-- `f` is `e` but for the frequency counter.
abbrev pub Keeps : Entry → Entry → Type 0
Keeps e f = f ≡ record e { freq = f.freq }

abbrev pub SameShape : Map Entry → Map Entry → Type 0
SameShape [] [] = Unit
SameShape [] (b ∷ n) = ⊥
SameShape (a ∷ m) [] = ⊥
SameShape ((k, e) ∷ m) ((j, f) ∷ n) = (j ≡ k) × Keeps e f × SameShape m n

pub record IsLawful (P : Policy) : Type 0 where
  pub victim_keeps :
      (c : Candidates) (now_us : ℕ) (st : P.State) → SameShape c.entries (P.victim c now_us st).1
  pub access_keeps : (e : Entry) (st : P.State) → Keeps e (P.on_access e st).0
  pub admit_keeps : (e : Entry) (st : P.State) → Keeps e (P.on_admit e st).0

-- The bytes that the entries are charged with.
abbrev pub total : Map Entry → ℕ
total [] = 0
total ((k, e) ∷ m) = e.size + total m

-- What a map stores for a key: the value and its deadline.
unfoldable pub stored : ℕ → Map Entry → Option (List ℕ × ℕ)
unfolding lookup
stored k [] = none
stored k ((j, e) ∷ m) = if j == k then some (e.value, e.expires) else stored k m

-- The entry stands under its own key, and its size is that of its value.
abbrev pub IsSound : ℕ × Entry → Type 0
IsSound (k, e) = (e.key ≡ k) × (e.size ≡ length e.value) × (e.size < 2 ^ 31)

pub SameShape-refl : (m : Map Entry) → SameShape m m
SameShape-refl [] = tt
SameShape-refl ((k, e) ∷ m) = (refl, refl, SameShape-refl m)

pub total-shape : (m n : Map Entry) → SameShape m n → total n ≡ total m
total-shape [] [] s = refl
total-shape [] (b ∷ n) s = elim s [ ]
total-shape (a ∷ m) [] s = elim s [ ]
total-shape ((k, e) ∷ m) ((j, f) ∷ n) s =
    ap₂ ◌+◌ (ap (λ (x : Entry). x.size) s.1) (total-shape m n s.2)

pub length-shape : (m n : Map Entry) → SameShape m n → length n ≡ length m
length-shape [] [] s = refl
length-shape [] (b ∷ n) s = elim s [ ]
length-shape (a ∷ m) [] s = elim s [ ]
length-shape ((k, e) ∷ m) ((j, f) ∷ n) s = omega (arith, length-shape m n s.2)

pub stored-shape : (k : ℕ) (m n : Map Entry) → SameShape m n → stored k n ≡ stored k m
unfolding stored
stored-shape k [] [] s = refl
stored-shape k [] (b ∷ n) s = elim s [ ]
stored-shape k (a ∷ m) [] s = elim s [ ]
stored-shape k ((i, e) ∷ m) ((j, f) ∷ n) s = ground (
  arith,
  stored-shape k m n s.2,
  ap (λ (x : Entry). x.value) s.1,
  ap (λ (x : Entry). x.expires) s.1,
)

lookup-shape : (k : ℕ) (m n : Map Entry) → SameShape m n → lookup k m ≡ none → lookup k n ≡ none
unfolding lookup
lookup-shape k [] [] s h = refl
lookup-shape k [] (b ∷ n) s h = elim s [ ]
lookup-shape k (a ∷ m) [] s h = elim s [ ]
lookup-shape k ((i, e) ∷ m) ((j, f) ∷ n) s h = ground (arith, lookup-shape k m n s.2)

-- The two maps hold the same keys.
pub absent-shape : (k : ℕ) (m n : Map Entry) → SameShape m n → lookup k n ≡ none → lookup k m ≡ none
unfolding lookup
absent-shape k [] [] s h = refl
absent-shape k [] (b ∷ n) s h = elim s [ ]
absent-shape k (a ∷ m) [] s h = elim s [ ]
absent-shape k ((i, e) ∷ m) ((j, f) ∷ n) s h = ground (arith, absent-shape k m n s.2)

pub Distinct-shape : (m n : Map Entry) → SameShape m n → Distinct m → Distinct n
Distinct-shape [] [] s d = tt
Distinct-shape [] (b ∷ n) s d = elim s [ ]
Distinct-shape (a ∷ m) [] s d = elim s [ ]
Distinct-shape ((k, e) ∷ m) ((j, f) ∷ n) s d =
    (lookup-shape j m n s.2 (rw s.0 d.0), Distinct-shape m n s.2 d.1)

pub IsSound-shape : (m n : Map Entry) → SameShape m n → All IsSound m → All IsSound n
IsSound-shape [] [] s h = tt
IsSound-shape [] (b ∷ n) s h = elim s [ ]
IsSound-shape (a ∷ m) [] s h = elim s [ ]
IsSound-shape ((k, e) ∷ m) ((j, f) ∷ n) s h = (rw (s.1, s.0) h.0, IsSound-shape m n s.2 h.1)

-- A map stores something for a key exactly when it has an entry for it.
pub stored-lookup :
    (k : ℕ) (m : Map Entry)
    → stored k m ≡ (elim (lookup k m) [ none ↦ none | some e ↦ some (e.value, e.expires) ])
unfolding stored
stored-lookup k [] = refl
stored-lookup k ((j, e) ∷ m) = ground (arith, stored-lookup k m)

pub stored-insert :
    (k j : ℕ) (e : Entry) (m : Map Entry)
    → stored j (insert k e m) ≡ (if k == j then some (e.value, e.expires) else stored j m)
unfolding stored insert
stored-insert k j e [] = refl
stored-insert k j e ((i, f) ∷ m) = ground (arith, stored-insert k j e m)

pub stored-erase :
    (k j : ℕ) (m : Map Entry) → stored j (erase k m) ≡ (if k == j then none else stored j m)
unfolding stored erase
stored-erase k j [] = ground arith
stored-erase k j ((i, f) ∷ m) = ground (arith, stored-erase k j m)

-- A policy that never gives up while the shard holds a key: `Ok` relates the entries to its state,
-- every call keeps it, and a victim is a held key.
pub record IsLive (P : Policy) (Ok : Map Entry → P.State → Type 0) : Type 0 where
  pub names :
      (c : Candidates) (now_us k : ℕ) (st : P.State)
      → Ok c.entries st
      → lookup k c.entries ≢ none
      → (j : ℕ) × (e : Entry) × ((P.victim c now_us st).0 ≡ some j)
        × (lookup j (P.victim c now_us st).1 ≡ some e)
        × (e.key ≡ j
            → Ok (erase j (P.victim c now_us st).1) (P.on_remove e (P.victim c now_us st).2))
  pub removes :
      (m : Map Entry) (st : P.State) (k : ℕ) (e : Entry)
      → Ok m st
      → e.key ≡ k
      → Ok (erase k m) (P.on_remove e st)
  pub admits :
      (m : Map Entry) (st : P.State) (e : Entry)
      → Ok m st
      → Ok (insert e.key (P.on_admit e st).0 m) (P.on_admit e st).1
  pub touches :
      (m : Map Entry) (st : P.State) (k now_us : ℕ) (e : Entry)
      → Ok m st
      → lookup k m ≡ some e
      → Ok (insert k (P.on_access (touch e now_us) st).0 m) (P.on_access (touch e now_us) st).1
