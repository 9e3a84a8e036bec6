-- ===== src/Hashring/Bounds.antt =====
-- The bound on loads.
use native.Mathlib.Nat.{mod-lt, mod-add-mod, mod-eq_of_lt, add-mod_right}
use native.Mathlib.Decide.{dec_le}
use belady.Common.{
  ℕ, zero, suc, ◌+◌, ◌-◌, ◌*◌, ◌%◌, ◌≤◌, ◌<◌, ◌≡◌, ◌⊎◌, refl, sym, ap, subst, ◌∙◌, none, some, List,
  [], ◌∷◌, length, length-set, get_elem?, get_elem?-some, set, All, All-get, ltb, ltb→lt, ne→==,
  arith, inl, inr, Bool-cases,
}
use belady.Hashring.{Node, Vnode, HashRing, walk_ring, choose, charge, pick, search_from}
use belady.Cache.Sharded.{hash}

abbrev pub load_sum : List Node → ℕ
load_sum [] = 0
load_sum (n ∷ ns) = n.load + load_sum ns

-- Each virtual node names a node, each node has a virtual node, and `total` counts the requests in
-- flight.
pub record IsRing (r : HashRing) : Type 0 where
  pub named : All (λ v. v.idx < length r.nodes) r.vnodes
  pub covered :
      (i : ℕ)
      → i < length r.nodes
      → (j : ℕ) × (v : Vnode) × (get_elem? r.vnodes j ≡ some v) × (v.idx ≡ i)
  pub counted : r.total ≡ load_sum r.nodes

get_elem?-lt : {A : Type 0} (xs : List A) (i : ℕ) (x : A) → get_elem? xs i ≡ some x → i < length xs
get_elem?-lt [] i x h = absurd (cc)
get_elem?-lt (y ∷ xs) zero x h = omega arith
get_elem?-lt (y ∷ xs) (suc i) x h = omega (arith, get_elem?-lt xs i x h)

-- Nodes that all carry at least `cap` carry at least `cap` times their number.
load_sum-ge :
    (cap : ℕ) (ns : List Node)
    → ((i : ℕ) (n : Node) → get_elem? ns i ≡ some n → cap ≤ n.load)
    → length ns * cap ≤ load_sum ns
load_sum-ge cap [] full = omega arith
load_sum-ge cap (n ∷ ns) full =
    omega (arith, full 0 n refl, load_sum-ge cap ns (λ i x h. full (suc i) x h))

load_sum-charge :
    (ns : List Node) (i : ℕ) (n : Node)
    → get_elem? ns i ≡ some n
    → load_sum (set ns i (record n { load = n.load + 1 })) ≡ load_sum ns + 1
load_sum-charge [] i n h = absurd (cc)
load_sum-charge (m ∷ ns) zero n h = let e : m ≡ n = cc in omega (arith, ap (λ (x : Node). x.load) e)
load_sum-charge (m ∷ ns) (suc i) n h = omega (arith, load_sum-charge ns i n h)

-- Going round from `start` meets every index.
round-meets : (start len j : ℕ) → j < len → (t : ℕ) × (t < len) × ((start + t) % len ≡ j)
round-meets start len j lt =
    let s = start % len in
    let s_lt : s < len = mod-lt start {m = len} (omega arith) in
    elim (dec_le s j) [
      | yes le ↦ (
        j - s,
        omega arith,
        sym (mod-add-mod start len (j - s))
            ∙ (ap (λ (x : ℕ). x % len) {y = j} (omega arith) ∙ mod-eq_of_lt lt),
      )
      | no gt ↦ (
        len + j - s,
        omega arith,
        sym (mod-add-mod start len (len + j - s))
            ∙ (ap (λ (x : ℕ). x % len) {y = j + len} (omega arith)
                ∙ (add-mod_right j len ∙ mod-eq_of_lt lt)),
      )
    ]

some-inj : {A : Type 0} {a b : A} → some a ≡ some b → a ≡ b
some-inj h = cc

module _ (limit : ℕ → ℕ → ℕ) where
  abbrev capacity : HashRing → ℕ
  capacity r = limit r.total (length r.nodes)

  -- The node of virtual node `j` is at its capacity.
  abbrev Full : HashRing → ℕ → Type 0
  Full r j =
      (v : Vnode) (node : Node)
      → get_elem? r.vnodes j ≡ some v
      → get_elem? r.nodes v.idx ≡ some node
      → capacity r ≤ node.load

  -- What the walk gives: a node with room, or the news that every virtual node it met is full.
  abbrev Walked : HashRing → ℕ → ℕ → ℕ → Type 0
  Walked r start i n =
      ((j : ℕ) × (node : Node) × (walk_ring limit r start i n ≡ some (some j))
        × (get_elem? r.nodes j ≡ some node)
        × (node.load < capacity r))
      ⊎ ((walk_ring limit r start i n ≡ some none)
          × ((t : ℕ) → t < n → Full r ((start + (i + t)) % length r.vnodes)))

  Full-first :
      (r : HashRing) (start i n : ℕ) (v : Vnode) (node : Node)
      → get_elem? r.vnodes ((start + i) % length r.vnodes) ≡ some v
      → get_elem? r.nodes v.idx ≡ some node
      → capacity r ≤ node.load
      → ((t : ℕ) → t < n → Full r ((start + (i + 1 + t)) % length r.vnodes))
      → (t : ℕ) → t < suc n
      → Full r ((start + (i + t)) % length r.vnodes)
  Full-first r start i n v node found named le rest zero lt =
      let here : start + (i + 0) ≡ start + i = omega arith in
      rw here (λ v' node' found' named'.
        let same : v ≡ v' = some-inj (sym found ∙ found') in
        let same_node : node ≡ node' = some-inj (sym named ∙ rw (← same) at named') in
        subst (λ (x : Node). capacity r ≤ x.load) same_node le)
  Full-first r start i n v node found named le rest (suc t) lt =
      let here : start + (i + suc t) ≡ start + (i + 1 + t) = omega arith in
      rw here (rest t (omega arith))

  walk_ring-Walked :
      (r : HashRing) (start i n : ℕ) → IsRing r → 0 < length r.vnodes → Walked r start i n
  unfolding walk_ring
  walk_ring-Walked r start i zero ring any = inr (refl, λ t v node lt h k. absurd (omega arith))
  walk_ring-Walked r start i (suc n) ring any =
      let at = (start + i) % length r.vnodes in
      let (v, found) = get_elem?-some r.vnodes at (mod-lt (start + i) {m = length r.vnodes} any) in
      let (node, named) = get_elem?-some r.nodes v.idx (All-get _ r.vnodes at v ring.named found) in
      elim (Bool-cases (ltb node.load (capacity r))) [
        | inl room ↦ inl (v.idx, node, rw (found, named, room), named, ltb→lt _ _ room)
        | inr full ↦ elim (walk_ring-Walked r start (i + 1) n ring any) [
          | inl (j, m, walked, held, less) ↦ inl (j, m, rw (found, named, full) walked, held, less)
          | inr (walked, rest) ↦ inr (
            rw (found, named, full) walked,
            Full-first r start i n v node found named (ground arith) rest,
          )
        ]
      ]

  -- Where the capacities exceed the load in flight, some node has room, and the walk finds one.
  choose-room :
      (r : HashRing) (key : List ℕ)
      → IsRing r
      → 2 ≤ length r.nodes
      → r.total < length r.nodes * capacity r
      → (j : ℕ) × (node : Node) × (choose limit r key ≡ some (some j))
        × (get_elem? r.nodes j ≡ some node)
        × (node.load < capacity r)
  unfolding choose
  choose-room r key ring two spare =
      let (j0, v0, first, _) = ring.covered 0 (omega arith) in
      let any : 0 < length r.vnodes = omega (arith, get_elem?-lt r.vnodes j0 v0 first) in
      let many = ne→== (length r.nodes) 0 (omega arith) in
      let several = ne→== (length r.nodes) 1 (omega arith) in
      let start = search_from (hash key) r.vnodes in
      elim (walk_ring-Walked r start 0 (length r.vnodes) ring any) [
        | inl (j, node, walked, held, less) ↦ (j, node, rw (many, several, walked), held, less)
        | inr (walked, full) ↦ absurd (
            let heavy = load_sum-ge (capacity r) r.nodes (λ i node named.
              let (j, v, found, names) = ring.covered i (get_elem?-lt r.nodes i node named) in
              let (t, lt, meets) =
                round-meets start (length r.vnodes) j (get_elem?-lt r.vnodes j v found) in
              let plain : start + (0 + t) ≡ start + t = omega arith in
              full t lt v node (rw (plain, meets) found) (rw names named)) in
            omega (arith, ring.counted))
      ]

  charge-IsRing :
      (r : HashRing) (i : ℕ) (n : Node)
      → IsRing r
      → get_elem? r.nodes i ≡ some n
      → IsRing (charge r i)
  unfolding charge
  charge-IsRing r i n ring held =
      let same = length-set r.nodes i (record n { load = n.load + 1 }) in
      rw (held, charge)
        (record {
          named = rw same ring.named;
          covered = λ j lt. ring.covered j (omega arith);
          counted = omega (arith, ring.counted, load_sum-charge r.nodes i n held);
        })

  -- On a ring of two nodes or more, each with a virtual node, whose total is the sum of the loads
  -- and below the sum of the capacities, Pick charges one request to a node that it takes to its
  -- capacity at most, and the ring's counts stay right.
  pub pick_bounded :
      (r : HashRing) (key : List ℕ)
      → IsRing r
      → 2 ≤ length r.nodes
      → r.total < length r.nodes * limit r.total (length r.nodes)
      → (i : ℕ) × (node : Node) × (get_elem? r.nodes i ≡ some node)
        × (pick limit r key ≡ some (charge r i, some node.name))
        × (node.load + 1 ≤ limit r.total (length r.nodes))
        × IsRing (charge r i)
  unfolding pick
  pick_bounded r key ring two spare =
      let (i, node, chosen, held, less) = choose-room r key ring two spare in
      (i, node, held, rw (chosen, held), omega arith, charge-IsRing r i node ring held)
