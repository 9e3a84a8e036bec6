-- ===== src/Cache/S3fifo/Progress.antt =====
-- The invariant of the queues, and the rounds that a search can take.
pub mod Steps
pub mod Loop
pub mod Hooks
use belady.Common.{
  ℕ, zero, suc, ◌+◌, ◌*◌, ◌≤◌, ◌<◌, ◌≡◌, ◌≢◌, ◌⊎◌, refl, Option, none, some, List, [], ◌∷◌, ◌++◌,
  Map, lookup, insert, length, ◌==◌, if◌then◌else◌, arith, lookup-insert,
}
use belady.Cache.Entry.{Entry}
use belady.Cache.S3fifo.{Slot, S3fifo, Stepped}
use belady.Cache.S3fifo.Queue.{Live}

-- The counter of an entry, and 0 for a key that is not held.
unfoldable pub freq_of : ℕ → Map Entry → ℕ
freq_of k m = elim (lookup k m) [ none ↦ 0 | some e ↦ e.freq ]

-- Every entry but perhaps that of `k` has a live slot in one of the two queues.
abbrev pub QueuedBut : (ℕ → Type 0) → Map Entry → S3fifo → Type 0
QueuedBut Left m p =
    (k : ℕ) → lookup k m ≢ none → Left k → Live p.in_s p.small k ⊎ Live p.in_m p.main k

pub record Inv (m : Map Entry) (p : S3fifo) : Type 0 where
  pub queued : QueuedBut (λ k. Unit {0}) m p
  pub counted : (k : ℕ) → freq_of k m ≤ 3

-- The rounds that the main queue can take: one for each slot, and one for each lap that its
-- counter stands for.
abbrev pub weight : Map Entry → List Slot → ℕ
weight m [] = 0
weight m (s ∷ q) = 1 + freq_of s.key m + weight m q

abbrev pub cost : Map Entry → S3fifo → ℕ
cost m p = 2 * length p.small + weight m p.main

-- What a round has done, from a state of the given cost: the cost has fallen, or a held key is
-- named and no other key has lost its slot.
abbrev pub Good : ℕ → Stepped → Type 0
Good before (none, m, p) = Inv m p × (cost m p < before)
Good before (some k, m, p) =
    (lookup k m ≢ none) × QueuedBut (λ j. k ≢ j) m p × ((j : ℕ) → freq_of j m ≤ 3)

pub freq_of-insert :
    (k : ℕ) (e : Entry) (j : ℕ) (m : Map Entry)
    → freq_of j (insert k e m) ≡ (if k == j then e.freq else freq_of j m)
unfolding freq_of
freq_of-insert k e j m = ground (arith, lookup-insert k j e m)

pub weight-append :
    (m : Map Entry) (q : List Slot) (s : Slot)
    → weight m (q ++ (s ∷ [])) ≡ weight m q + (1 + freq_of s.key m)
weight-append m [] s = omega arith
weight-append m (x ∷ q) s = omega (arith, weight-append m q s)

-- Lowering counters lowers weights.
pub weight-le :
    (m n : Map Entry)
    → ((k : ℕ) → freq_of k n ≤ freq_of k m)
    → (q : List Slot) → weight n q ≤ weight m q
weight-le m n lower [] = omega arith
weight-le m n lower (s ∷ q) = omega (arith, lower s.key, weight-le m n lower q)

-- No counter is above 3, so four rounds a slot are enough.
pub weight-bound :
    (m : Map Entry) → ((k : ℕ) → freq_of k m ≤ 3) → (q : List Slot) → weight m q ≤ 4 * length q
weight-bound m counted [] = omega arith
weight-bound m counted (s ∷ q) = omega (arith, counted s.key, weight-bound m counted q)
