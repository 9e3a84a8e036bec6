-- ===== src/Min/Simulation.antt =====
-- What the simulated cache evicts.
use belady.Common.{
  ℕ, zero, suc, ◌≤◌, ◌<◌, ◌≡◌, ◌≢◌, ◌⊎◌, inl, inr, sym, ap, subst, Option, none, some, List, [],
  ◌∷◌, length, Map, lookup, erase, lookup-erase, ◌==◌, arith, Bool-cases, Option-cases,
}
use belady.Min.{Entry, evict_furthest}

-- An entry is on the heap.
pub data On (x : Entry) : List Entry → Type 0 where
  first : {h : List Entry} → On x (x ∷ h)
  next : {e : Entry} {h : List Entry} → On x h → On x (e ∷ h)

-- What container/heap documents of Pop, for a heap ordered by the later next use: it takes one entry
-- off, no other is before it, and the rest stay.
pub record IsHeapPop (pop : List Entry → Option (Entry × List Entry)) : Type 0 where
  pub rest : (h h' : List Entry) (e x : Entry) → pop h ≡ some (e, h') → On x h → (x ≡ e) ⊎ On x h'
  pub furthest :
      (h h' : List Entry) (e x : Entry) → pop h ≡ some (e, h') → On x h → x.next_use ≤ e.next_use
  pub size : (h h' : List Entry) (e : Entry) → pop h ≡ some (e, h') → length h ≡ suc (length h')
  pub empty : (h : List Entry) → pop h ≡ none → h ≡ []

-- Every resident key is on the heap with its next use.
abbrev pub Queued : List Entry → Map ℕ → Type 0
Queued h resident = (k j : ℕ) → lookup k resident ≡ some j → On (record { key = k; next_use = j }) h

-- The resident key that goes is one that no resident key is used after.
pub data Furthest (resident : Map ℕ) : Map ℕ → Type 0 where
  gone :
      (k j : ℕ)
      → lookup k resident ≡ some j
      → ((k' j' : ℕ) → lookup k' resident ≡ some j' → j' ≤ j)
      → Furthest resident (erase k resident)

On-length : {x : Entry} {h : List Entry} → On x h → 0 < length h
On-length first = omega arith
On-length (next o) = omega arith

module _ {pop : List Entry → Option (Entry × List Entry)} (heap : IsHeapPop pop) where
  -- A popped entry that is stale leaves every resident key queued.
  Queued-stale :
      (h h' : List Entry) (e : Entry) (resident : Map ℕ)
      → pop h ≡ some (e, h')
      → lookup e.key resident ≢ some e.next_use
      → Queued h resident
      → Queued h' resident
  Queued-stale h h' e resident took stale q k j found =
      elim (heap.rest h h' e (record { key = k; next_use = j }) took (q k j found)) [
        | inl same ↦
            absurd (stale (subst (λ t. lookup t.key resident ≡ some t.next_use) same found))
        | inr stays ↦ stays
      ]

  Queued-evicted :
      (h h' : List Entry) (e : Entry) (resident : Map ℕ)
      → pop h ≡ some (e, h')
      → Queued h resident
      → Queued h' (erase e.key resident)
  Queued-evicted h h' e resident took q k j found =
      let there : (lookup k resident ≡ some j) × (k ≢ e.key) =
        ground (arith, lookup-erase e.key k resident) in
      elim (heap.rest h h' e (record { key = k; next_use = j }) took (q k j there.0)) [
        | inl same ↦ absurd (there.1 (ap (λ t. t.key) same))
        | inr stays ↦ stays
      ]

  -- On a heap that pops as documented, of at most as many entries as there is fuel, with some key
  -- resident and every resident key queued at its next use, evictFurthest evicts a resident key
  -- that no resident key is used after, and every other one stays queued.
  pub evict_furthest-Furthest :
      (fuel : ℕ) (h : List Entry) (resident : Map ℕ) (k j : ℕ)
      → length h ≤ fuel
      → Queued h resident
      → lookup k resident ≡ some j
      → Furthest resident (evict_furthest pop fuel h resident).1
        × Queued (evict_furthest pop fuel h resident).0 (evict_furthest pop fuel h resident).1
  unfolding evict_furthest
  evict_furthest-Furthest zero h resident k j fits q held =
      absurd (omega (arith, On-length (q k j held)))
  evict_furthest-Furthest (suc fuel) h resident k j fits q held =
      let Good : List Entry × Map ℕ → Type 0 = λ r. Furthest resident r.1 × Queued r.0 r.1 in
      elim (Option-cases (pop h)) [
        | inl none_left ↦
            absurd (omega (arith, On-length (q k j held), ap length (heap.empty h none_left)))
        | inr ((e, h'), took) ↦
            let shorter : length h' ≤ fuel = omega (arith, heap.size h h' e took) in
            elim (Option-cases (lookup e.key resident)) [
              | inl absent ↦
                  let on : evict_furthest pop (suc fuel) h resident
                      ≡ evict_furthest pop fuel h' resident =
                    ground arith in
                  subst Good (sym on) (
                    evict_furthest-Furthest fuel h' resident k j shorter
                      (Queued-stale h h' e resident took (λ found. absurd (cc)) q) held)
              | inr (cur, found) ↦ elim (Bool-cases (cur == e.next_use)) [
                | inl current ↦
                    let on : evict_furthest pop (suc fuel) h resident ≡ (h', erase e.key resident) =
                      ground arith in
                    subst Good (sym on) (
                      gone e.key e.next_use (ground arith) (λ k' j' there.
                          heap.furthest h h' e (record { key = k'; next_use = j' }) took
                            (q k' j' there)),
                      Queued-evicted h h' e resident took q,
                    )
                | inr stale ↦
                    let on : evict_furthest pop (suc fuel) h resident
                        ≡ evict_furthest pop fuel h' resident =
                      ground arith in
                    subst Good (sym on) (
                      evict_furthest-Furthest fuel h' resident k j shorter
                        (Queued-stale h h' e resident took (λ same. absurd (ground (arith, same)))
                          q)
                        held)
              ]
            ]
      ]
