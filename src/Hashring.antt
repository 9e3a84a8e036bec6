-- ===== src/Hashring.antt =====
-- internal/hashring/hashring.go: consistent hashing with bounded loads. `Pick` and `Done` are
-- modelled as they run between other calls, with no call inside them.
pub mod Bounds
pub mod Search
use belady.Common.{
  ℕ, zero, suc, ◌+◌, ◌-◌, ◌/◌, ◌%◌, Bool, true, false, Option, none, some, List, [], ◌∷◌, ◌++◌,
  ◌>>=◌, length, get_elem?, set, map, ltb, leb, ◌==◌, if◌then◌else◌, Map,
}
use belady.Cache.Sharded.{hash}

-- A node's name is its bytes. Loads are counts of requests in flight: `Done` is called once for
-- each `Pick`, so none is negative.
pub record Node : Type 0 where
  pub name : List ℕ
  pub load : ℕ

pub record Vnode : Type 0 where
  pub hash_of : ℕ
  pub idx : ℕ

pub record HashRing : Type 0 where
  pub nodes : List Node
  pub vnodes : List Vnode
  pub total : ℕ
  pub replicas : ℕ

-- `string ==` on names.
unfoldable pub same_name : List ℕ → List ℕ → Bool
same_name [] [] = true
same_name [] (b ∷ bs) = false
same_name (a ∷ as') [] = false
same_name (a ∷ as') (b ∷ bs) = if a == b then same_name as' bs else false

-- `byName`: the position of a name among the nodes.
unfoldable pub by_name : List ℕ → List Node → Option ℕ
by_name name [] = none
by_name name (n ∷ ns) =
    if same_name n.name name then some 0 else (by_name name ns >>= λ i. some (suc i))

-- `sort.Slice` by hash: an insertion sort serves, since the sort is only asked for sorted order.
unfoldable pub insert_vnode : Vnode → List Vnode → List Vnode
insert_vnode v [] = v ∷ []
insert_vnode v (w ∷ ws) = if ltb w.hash_of v.hash_of then w ∷ insert_vnode v ws else v ∷ w ∷ ws

unfoldable pub sort_vnodes : List Vnode → List Vnode
sort_vnodes [] = []
sort_vnodes (v ∷ vs) = insert_vnode v (sort_vnodes vs)

-- The first index whose hash is at least `h`: what `sort.Search` finds on sorted nodes.
unfoldable pub search_from : ℕ → List Vnode → ℕ
search_from h [] = 0
search_from h (v ∷ vs) = if leb h v.hash_of then 0 else suc (search_from h vs)

module _ (itoa : ℕ → List ℕ) where
  -- The loop of `Add` over the replicas from `i` on, `n` of them.
  unfoldable pub replicas_of : List ℕ → ℕ → ℕ → ℕ → List Vnode
  replicas_of name idx i zero = []
  replicas_of name idx i (suc n) =
      record { hash_of = hash (name ++ (b'#' ∷ itoa i)); idx = idx }
      ∷ replicas_of name idx (i + 1) n

  unfoldable pub add : HashRing → List ℕ → HashRing
  add r name = elim (by_name name r.nodes) [
    | some i ↦ r
    | none ↦ record r {
      nodes = r.nodes ++ (record { name = name; load = 0 } ∷ []);
      vnodes = sort_vnodes (r.vnodes ++ replicas_of name (length r.nodes) 0 r.replicas);
    }
  ]

-- One more request on node `i`.
unfoldable pub charge : HashRing → ℕ → HashRing
charge r i = elim (get_elem? r.nodes i) [
  | none ↦ r
  | some n ↦ record r {
    nodes = set r.nodes i (record n { load = n.load + 1 });
    total = r.total + 1;
  }
]

-- `limit total nodes` is `capacityLocked`, whose arithmetic is in float64.
module _ (limit : ℕ → ℕ → ℕ) where
  -- The walk of `Pick`: round `i` of `n` looks at virtual node `start + i`, wrapping. It gives the
  -- first node with room; `none` inside is a full ring, outside an index out of range.
  unfoldable pub walk_ring : HashRing → ℕ → ℕ → ℕ → Option (Option ℕ)
  walk_ring r start i zero = some none
  walk_ring r start i (suc n) =
      let rest = walk_ring r start (i + 1) n in
      get_elem? r.vnodes ((start + i) % length r.vnodes) >>= λ v.
      get_elem? r.nodes v.idx >>= λ node.
      if ltb node.load (limit r.total (length r.nodes)) then some (some v.idx) else rest

  -- The node that is charged; `none` inside is `ErrEmpty`.
  unfoldable pub choose : HashRing → List ℕ → Option (Option ℕ)
  choose r key =
      if length r.nodes == 0
      then some none
      else if length r.nodes == 1
      then some (some 0)
      else (let start = search_from (hash key) r.vnodes in
          walk_ring r start 0 (length r.vnodes) >>= λ found. elim found [
            | some i ↦ some (some i)
            | none ↦ get_elem? r.vnodes (start % length r.vnodes) >>= λ v. some (some v.idx)
          ])

  unfoldable pub pick : HashRing → List ℕ → Option (HashRing × Option (List ℕ))
  pick r key = choose r key >>= λ chosen. elim chosen [
    | none ↦ some (r, none)
    | some i ↦ get_elem? r.nodes i >>= λ n. some (charge r i, some n.name)
  ]

unfoldable pub done : HashRing → List ℕ → HashRing
done r name = elim (by_name name r.nodes) [
  | none ↦ r
  | some i ↦ elim (get_elem? r.nodes i) [
    | none ↦ r
    | some n ↦ record r {
      nodes = set r.nodes i (record n { load = n.load - 1 });
      total = r.total - 1;
    }
  ]
]
