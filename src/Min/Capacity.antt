-- ===== src/Min/Capacity.antt =====
-- The simulated cache after each request of the trace.
use belady.Common.{
  ℕ, suc, ◌+◌, ◌≤◌, ◌<◌, ◌≡◌, ◌⊎◌, inl, inr, refl, sym, ap₂, subst, Option, none, some, List, [],
  ◌∷◌, length, Map, lookup, insert, erase, Distinct, lookup-insert, lookup-erase, insert-Distinct,
  erase-Distinct, length-erase, leb, ◌==◌, arith, Bool-cases, Option-cases,
}
use belady.Min.{Entry, evict_furthest, make_way, request}
use belady.Min.Simulation.{On, IsHeapPop, Queued, Furthest, gone, evict_furthest-Furthest}

-- What container/heap documents of Push: the entry is on the heap, and the others stay.
pub record IsHeapPush (push : Entry → List Entry → List Entry) : Type 0 where
  pub pushed : (e : Entry) (h : List Entry) → On e (push e h)
  pub kept : (e x : Entry) (h : List Entry) → On x h → On x (push e h)

pub record IsValid (capacity : ℕ) (s : List Entry × Map ℕ) : Type 0 where
  pub queued : Queued s.0 s.1
  pub distinct : Distinct s.1
  pub bounded : length s.1 ≤ capacity

length-insert_absent :
    (k v : ℕ) (m : Map ℕ) → lookup k m ≡ none → length (insert k v m) ≡ suc (length m)
unfolding insert lookup
length-insert_absent k v [] h = refl
length-insert_absent k v ((j, w) ∷ m) h = ground (arith, length-insert_absent k v m)

length-insert_present :
    (k v w : ℕ) (m : Map ℕ) → lookup k m ≡ some w → length (insert k v m) ≡ length m
unfolding insert lookup
length-insert_present k v w [] h = absurd (cc)
length-insert_present k v w ((j, x) ∷ m) h = ground (arith, length-insert_present k v w m)

-- Some key is resident in a map with entries.
some_key : (m : Map ℕ) → 0 < length m → (k : ℕ) × (j : ℕ) × (lookup k m ≡ some j)
unfolding lookup
some_key [] h = absurd (omega arith)
some_key ((k, j) ∷ m) h = (k, j, ground arith)

-- Before a key goes in: it is resident, or there is room for it.
record HasRoom (capacity key : ℕ) (s : List Entry × Map ℕ) : Type 0 where
  queued : Queued s.0 s.1
  distinct : Distinct s.1
  bounded : length s.1 ≤ capacity
  room : ((j : ℕ) × (lookup key s.1 ≡ some j)) ⊎ ((lookup key s.1 ≡ none) × (length s.1 < capacity))

entry_eq :
    (a b c d : ℕ)
    → a ≡ b
    → c ≡ d
    → ◌≡◌ {A = Entry} (record { key = a; next_use = c }) (record { key = b; next_use = d })
entry_eq a b c d p r = ap₂ (λ k. λ j. record { key = k; next_use = j }) p r

module _ {pop : List Entry → Option (Entry × List Entry)} {push : Entry → List Entry → List Entry}
    (heap : IsHeapPop pop) (heap_push : IsHeapPush push) where
  evicted-HasRoom :
      (capacity key : ℕ) (h : List Entry) (resident m : Map ℕ)
      → Furthest resident m
      → Queued h m
      → Distinct resident
      → length resident ≤ capacity
      → lookup key resident ≡ none
      → HasRoom capacity key (h, m)
  evicted-HasRoom capacity key h resident m (gone k j held last) q d fits absent =
      let shorter : length (erase k resident) + 1 ≡ length resident =
        length-erase k resident j d held in
      let still : lookup key (erase k resident) ≡ none =
        ground (arith, lookup-erase k key resident) in
      record {
        queued = q;
        distinct = erase-Distinct k resident d;
        bounded = omega (arith, shorter, fits);
        room = inr (still, omega (arith, shorter, fits));
      }

  make_way-HasRoom :
      (capacity key : ℕ) (s : List Entry × Map ℕ)
      → 0 < capacity
      → IsValid capacity s
      → HasRoom capacity key (make_way pop capacity key s)
  unfolding make_way
  make_way-HasRoom capacity key (h, resident) positive v =
      elim (Option-cases (lookup key resident)) [
        | inr (cur, held) ↦ subst (HasRoom capacity key) (ground arith) (record {
          queued = v.queued;
          distinct = v.distinct;
          bounded = v.bounded;
          room = inl (cur, held);
        })
        | inl absent ↦ elim (Bool-cases (leb capacity (length resident))) [
          | inr free ↦ subst (HasRoom capacity key) (ground arith) (record {
            queued = v.queued;
            distinct = v.distinct;
            bounded = v.bounded;
            room = inr (absent, ground arith);
          })
          | inl full ↦
              let (k, j, held) = some_key resident (ground arith) in
              let (last, q) =
                evict_furthest-Furthest heap (length h) h resident k j (omega arith) v.queued
                  held in
              let on : make_way pop capacity key (h, resident)
                  ≡ evict_furthest pop (length h) h resident =
                ground arith in
              subst (HasRoom capacity key) (sym on) (
                evicted-HasRoom capacity key (evict_furthest pop (length h) h resident).0 resident
                  (evict_furthest pop (length h) h resident).1 last q v.distinct v.bounded absent)
        ]
      ]

  Queued-push :
      (key next : ℕ) (h : List Entry) (m : Map ℕ)
      → Queued h m
      → Queued (push (record { key = key; next_use = next }) h) (insert key next m)
  Queued-push key next h m q k j found = elim (Bool-cases (key == k)) [
    | inl same ↦
        subst (λ e. On e (push (record { key = key; next_use = next }) h))
          (entry_eq key k next j (ground arith) (ground (arith, lookup-insert key k next m)))
          (heap_push.pushed (record { key = key; next_use = next }) h)
    | inr other ↦
        heap_push.kept (record { key = key; next_use = next }) (record { key = k; next_use = j }) h
          (q k j (ground (arith, lookup-insert key k next m)))
  ]

  -- On a heap that pushes and pops as documented and for a positive capacity, if every resident
  -- key is queued at its next use, no key is resident twice and at most `capacity` are, the same
  -- holds after any request.
  pub request-IsValid :
      (capacity key next : ℕ) (s : List Entry × Map ℕ)
      → 0 < capacity
      → IsValid capacity s
      → IsValid capacity (request pop push capacity key next s)
  unfolding request
  request-IsValid capacity key next s positive v =
      let w : HasRoom capacity key (make_way pop capacity key s) =
        make_way-HasRoom capacity key s positive v in
      let m : Map ℕ = (make_way pop capacity key s).1 in
      record {
        queued = Queued-push key next (make_way pop capacity key s).0 m w.queued;
        distinct = insert-Distinct key next m w.distinct;
        bounded = elim w.room [
          | inl (j, held) ↦ omega (arith, length-insert_present key next j m held, w.bounded)
          | inr (absent, free) ↦ omega (arith, length-insert_absent key next m absent, free)
        ];
      }
