-- ===== src/Hashring/Search.antt =====
-- Where a key lands on the ring: the order of the virtual nodes and the search for the first.
use belady.Common.{
  ℕ, zero, suc, ◌≤◌, ◌<◌, ◌≡◌, some, List, [], ◌∷◌, length, get_elem?, All, take, ltb, leb, leb→le,
  arith, inl, inr, Bool-cases,
}
use belady.Hashring.{Vnode, insert_vnode, sort_vnodes, search_from}

-- Each hash is at most every later one.
abbrev pub IsSorted : List Vnode → Type 0
IsSorted [] = Unit
IsSorted (v ∷ vs) = All (λ w. v.hash_of ≤ w.hash_of) vs × IsSorted vs

All-below :
    (h k : ℕ) (vs : List Vnode) → h ≤ k → All (λ w. k ≤ w.hash_of) vs → All (λ w. h ≤ w.hash_of) vs
All-below h k [] le all = tt
All-below h k (v ∷ vs) le all = (omega (arith, all.0), All-below h k vs le all.1)

All-insert_vnode :
    (h : ℕ) (v : Vnode) (ws : List Vnode)
    → h ≤ v.hash_of
    → All (λ w. h ≤ w.hash_of) ws
    → All (λ w. h ≤ w.hash_of) (insert_vnode v ws)
unfolding insert_vnode
All-insert_vnode h v [] le all = (le, tt)
All-insert_vnode h v (w ∷ ws) le all = elim (Bool-cases (ltb w.hash_of v.hash_of)) [
  | inl after ↦ rw after (all.0, All-insert_vnode h v ws le all.1)
  | inr before ↦ rw before (le, all)
]

insert_vnode-IsSorted : (v : Vnode) (ws : List Vnode) → IsSorted ws → IsSorted (insert_vnode v ws)
unfolding insert_vnode
insert_vnode-IsSorted v [] sorted = (tt, tt)
insert_vnode-IsSorted v (w ∷ ws) sorted = elim (Bool-cases (ltb w.hash_of v.hash_of)) [
  | inl after ↦
      rw after (
        All-insert_vnode w.hash_of v ws (ground arith) sorted.0,
        insert_vnode-IsSorted v ws sorted.1,
      )
  | inr before ↦
      let le : v.hash_of ≤ w.hash_of = ground arith in
      rw before ((le, All-below v.hash_of w.hash_of ws le sorted.0), sorted)
]

-- The virtual nodes end in ascending order of their hashes.
pub sort_vnodes-IsSorted : (vs : List Vnode) → IsSorted (sort_vnodes vs)
unfolding sort_vnodes
sort_vnodes-IsSorted [] = tt
sort_vnodes-IsSorted (v ∷ vs) = insert_vnode-IsSorted v (sort_vnodes vs) (sort_vnodes-IsSorted vs)

at-above :
    (h : ℕ) (vs : List Vnode)
    → All (λ w. h ≤ w.hash_of) vs
    → (j : ℕ) (v : Vnode) → get_elem? vs j ≡ some v
    → h ≤ v.hash_of
at-above h [] all j v e = absurd (cc)
at-above h (w ∷ vs) all zero v e = ground arith
at-above h (w ∷ vs) all (suc j) v e = at-above h vs all.1 j v e

-- On sorted virtual nodes the search stops within their number; the hashes before its index are
-- below the key's, and those from it on are not.
pub search_from_lem :
    (h : ℕ) (vs : List Vnode)
    → IsSorted vs
    → (search_from h vs ≤ length vs)
      × All (λ v. v.hash_of < h) (take (search_from h vs) vs)
      × ((j : ℕ) (v : Vnode) → search_from h vs ≤ j → get_elem? vs j ≡ some v → h ≤ v.hash_of)
unfolding search_from
search_from_lem h [] sorted = (omega arith, tt, λ j v le e. absurd (cc))
search_from_lem h (w ∷ vs) sorted = elim (Bool-cases (leb h w.hash_of)) [
  | inl here ↦ rw here (omega arith, tt, after-first (leb→le _ _ here))
  | inr later ↦
      let (inside, before, after) = search_from_lem h vs sorted.1 in
      rw later (omega arith, (ground arith, before), after-later after)
]
  where
    after-first :
        h ≤ w.hash_of → (j : ℕ) (v : Vnode) → 0 ≤ j → get_elem? (w ∷ vs) j ≡ some v → h ≤ v.hash_of
    after-first le zero v _ e = ground arith
    after-first le (suc j) v _ e = at-above h vs (All-below h w.hash_of vs le sorted.0) j v e

    after-later :
        ((j : ℕ) (v : Vnode) → search_from h vs ≤ j → get_elem? vs j ≡ some v → h ≤ v.hash_of)
        → (j : ℕ) (v : Vnode) → suc (search_from h vs) ≤ j
        → get_elem? (w ∷ vs) j ≡ some v
        → h ≤ v.hash_of
    after-later after zero v le e = absurd (omega arith)
    after-later after (suc j) v le e = after j v (omega arith) e
