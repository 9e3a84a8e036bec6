-- ===== src/Min/NextUse.antt =====
-- What `next` holds.
use belady.Common.{
  ℕ, suc, ◌≡◌, ◌≢◌, inl, inr, sym, ap, subst, ◌∙◌, true, List, [], ◌∷◌, lookup, lookup-insert, ◌==◌,
  if◌then◌else◌, arith, Bool-cases,
}
use belady.Min.{seen_from, next_use_of, next_uses}

-- `j` is the first index from `i` on at which `keys`, which start there, hold `key`, or `n` where none is.
pub data FirstUse (n key : ℕ) : ℕ → List ℕ → ℕ → Type 0 where
  never : {i : ℕ} → FirstUse n key i [] n
  here : {i : ℕ} {keys : List ℕ} → FirstUse n key i (key ∷ keys) i
  later :
      {i j other : ℕ} {keys : List ℕ}
      → other ≢ key
      → FirstUse n key (suc i) keys j
      → FirstUse n key i (other ∷ keys) j

found_first :
    (n key i k : ℕ) (keys : List ℕ)
    → next_use_of n key (seen_from i (k ∷ keys))
      ≡ (if k == key then i else next_use_of n key (seen_from (suc i) keys))
unfolding seen_from next_use_of
found_first n key i k keys = ground (arith, lookup-insert k key i (seen_from (suc i) keys))

-- The index that the backward walk finds for a key is that of its first request.
seen_from-FirstUse :
    (n key i : ℕ) (keys : List ℕ) → FirstUse n key i keys (next_use_of n key (seen_from i keys))
unfolding seen_from next_use_of lookup
seen_from-FirstUse n key i [] = never
seen_from-FirstUse n key i (k ∷ keys) = elim (Bool-cases (k == key)) [
  | inl same ↦
      subst (FirstUse n key i (k ∷ keys))
        (sym (
          found_first n key i k keys
          ∙ ap (λ b. if b then i else next_use_of n key (seen_from (suc i) keys)) same))
        (subst (λ t. FirstUse n key i (t ∷ keys) i) (sym (same_key same)) here)
  | inr other ↦
      subst (FirstUse n key i (k ∷ keys))
        (sym (
          found_first n key i k keys
          ∙ ap (λ b. if b then i else next_use_of n key (seen_from (suc i) keys)) other))
        (later (λ e. absurd (ground (arith, e))) (seen_from-FirstUse n key (suc i) keys))
]
  where
    same_key : k == key ≡ true → k ≡ key
    same_key e = ground arith

-- The entry of `next` at each index is the next later index at which the trace requests the same key,
-- or the trace's length when none does.
pub data NextUses (n : ℕ) : ℕ → List ℕ → List ℕ → Type 0 where
  done : {i : ℕ} → NextUses n i [] []
  step :
      {i key next : ℕ} {keys nexts : List ℕ}
      → FirstUse n key (suc i) keys next
      → NextUses n (suc i) keys nexts
      → NextUses n i (key ∷ keys) (next ∷ nexts)

-- The entry of `next` at each index is the next later index at which the trace requests the same
-- key, or `n` when none does.
pub next_uses-NextUses : (n i : ℕ) (keys : List ℕ) → NextUses n i keys (next_uses n i keys)
unfolding next_uses
next_uses-NextUses n i [] = done
next_uses-NextUses n i (key ∷ keys) =
    step (seen_from-FirstUse n key (suc i) keys) (next_uses-NextUses n (suc i) keys)
