-- ===== src/Min.antt =====
-- internal/belady/min.go: `MINHitRatioFrom`, which simulates Belady's MIN over a recorded trace. The
-- ratio is given as its numerator and denominator, and 0 as 0 over 1. `pop` is `heap.Pop` of container/heap: it takes an
-- entry off the heap that no other goes before.
pub mod NextUse
pub mod Simulation
pub mod Capacity
use belady.Common.{
  ℕ, zero, suc, ◌+◌, ◌-◌, Bool, true, false, ◌||◌, Option, none, some, List, [], ◌∷◌, length, Map,
  lookup, insert, erase, leb, ◌==◌, if◌then◌else◌,
}

-- The index after `i` of the next request for `key`, or the trace's length: what the backward walk
-- finds in `seen`.
pub record Entry : Type 0 where
  pub key : ℕ
  pub next_use : ℕ

-- `seen` after the walk has come down to index `i`, where the rest of the trace starts.
unfoldable pub seen_from : ℕ → List ℕ → Map ℕ
seen_from i [] = []
seen_from i (key ∷ keys) = insert key i (seen_from (suc i) keys)

unfoldable pub next_use_of : ℕ → ℕ → Map ℕ → ℕ
next_use_of n key seen = elim (lookup key seen) [ some j ↦ j | none ↦ n ]

-- The array `next`, from index `i` on, for a trace of length `n`.
unfoldable pub next_uses : ℕ → ℕ → List ℕ → List ℕ
next_uses n i [] = []
next_uses n i (key ∷ keys) = next_use_of n key (seen_from (suc i) keys) ∷ next_uses n (suc i) keys

module _ (pop : List Entry → Option (Entry × List Entry)) where
  -- `evictFurthest`: entries whose key is gone or has a later index by now are skipped. The fuel is
  -- the heap's size.
  unfoldable pub evict_furthest : ℕ → List Entry → Map ℕ → List Entry × Map ℕ
  evict_furthest zero h resident = (h, resident)
  evict_furthest (suc fuel) h resident = elim (pop h) [
    | none ↦ (h, resident)
    | some popped ↦ elim (lookup popped.0.key resident) [
      | none ↦ evict_furthest fuel popped.1 resident
      | some cur ↦
          if cur == popped.0.next_use
          then (popped.1, erase popped.0.key resident)
          else evict_furthest fuel popped.1 resident
    ]
  ]

  -- The resident keys with their next use, and the heap, after a request at an index.
  unfoldable pub make_way : ℕ → ℕ → List Entry × Map ℕ → List Entry × Map ℕ
  make_way capacity key (h, resident) = elim (lookup key resident) [
    | some cur ↦ (h, resident)
    | none ↦
        if leb capacity (length resident)
        then evict_furthest (length h) h resident
        else (h, resident)
  ]

  -- `push` is `heap.Push`.
  unfoldable pub request :
      (Entry → List Entry → List Entry) → ℕ → ℕ → ℕ → List Entry × Map ℕ → List Entry × Map ℕ
  request push capacity key next s =
      let way = make_way capacity key s in
      (push (record { key = key; next_use = next }) way.0, insert key next way.1)

  unfoldable pub hit : ℕ → ℕ → ℕ → List Entry × Map ℕ → ℕ
  hit from i key s = elim (lookup key s.1) [ some cur ↦ if leb from i then 1 else 0 | none ↦ 0 ]

  unfoldable pub simulate :
      (Entry → List Entry → List Entry) → ℕ → ℕ → ℕ → ℕ → List ℕ → List Entry × Map ℕ → ℕ
  simulate push capacity from n i [] s = 0
  simulate push capacity from n i (key ∷ keys) s =
      hit from i key s
      + simulate push capacity from n (suc i) keys
          (request push capacity key (next_use_of n key (seen_from (suc i) keys)) s)

  -- `MINHitRatioFrom`. A negative capacity or `from` stands as 0.
  unfoldable pub min_hit_ratio_from : (Entry → List Entry → List Entry) → List ℕ → ℕ → ℕ → ℕ × ℕ
  min_hit_ratio_from push trace capacity from =
      if capacity == 0 || length trace == 0 || leb (length trace) from
      then (0, 1)
      else (simulate push capacity from (length trace) 0 trace ([], []), length trace - from)
