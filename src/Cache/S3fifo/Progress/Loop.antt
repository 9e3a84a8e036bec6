-- ===== src/Cache/S3fifo/Progress/Loop.antt =====
-- The loop of `Victim`.
use belady.Common.{
  ℕ, zero, suc, ◌≤◌, ◌<◌, ◌≡◌, ◌≢◌, refl, subst, none, some, List, [], ◌∷◌, Map, lookup, lt_i64,
  arith, inl, inr, Bool-cases, Option-cases,
}
use belady.Cache.Entry.{Entry}
use belady.Cache.Policy.{Candidates}
use belady.Cache.Policy.Laws.{absent-shape}
use belady.Cache.S3fifo.{Slot, S3fifo, Stepped, turn, victim_loop, victim}
use belady.Cache.S3fifo.Lawful.{turn-shape}
use belady.Cache.S3fifo.Progress.{freq_of, QueuedBut, Inv, cost, Good, weight-bound}
use belady.Cache.S3fifo.Progress.Steps.{step_small-Good, step_main-Good}

Good-of : (before : ℕ) (a out : Stepped) → some a ≡ some out → Good before a → Good before out
Good-of before a out h g = let e : a ≡ out = cc in subst (Good before) e g

turn-Good :
    (m : Map Entry) (p : S3fifo) (small main : List Slot) (out : Stepped)
    → p.small ≡ small
    → p.main ≡ main
    → Inv m p
    → turn m p small main ≡ some out
    → Good (cost m p) out
unfolding turn
turn-Good m p [] [] out s t v h = absurd (cc)
turn-Good m p (x ∷ q) [] out s t v h = Good-of _ _ out h (step_small-Good m p x q s v)
turn-Good m p [] (y ∷ r) out s t v h = Good-of _ _ out h (step_main-Good m p y r t v)
turn-Good m p (x ∷ q) (y ∷ r) out s t v h =
    Good-of _ _ out h (elim (Bool-cases (lt_i64 p.small_bytes p.small_target)) [
      | inl under ↦ rw under (step_main-Good m p y r t v)
      | inr full ↦ rw full (step_small-Good m p x q s v)
    ])

-- A held key has a slot, so there is a turn to take.
turn-ne-none :
    (m : Map Entry) (p : S3fifo) (small main : List Slot) (k : ℕ)
    → p.small ≡ small
    → p.main ≡ main
    → Inv m p
    → lookup k m ≢ none
    → turn m p small main ≢ none
unfolding turn
turn-ne-none m p [] [] k s t v held _ = elim (v.queued k held tt) [
  | inl (g, _, among) ↦ absurd (rw s at among)
  | inr (g, _, among) ↦ absurd (rw t at among)
]
turn-ne-none m p (x ∷ q) [] k s t v held h = cc
turn-ne-none m p [] (y ∷ r) k s t v held h = cc
turn-ne-none m p (x ∷ q) (y ∷ r) k s t v held h = cc

-- A key is named, it is held, and no other key has lost its slot.
abbrev pub Names : Stepped → Type 0
Names (none, m, p) = ⊥
Names (some k, m, p) =
    (lookup k m ≢ none) × QueuedBut (λ j. k ≢ j) m p × ((j : ℕ) → freq_of j m ≤ 3)

Names-of_Good :
    (before k : ℕ) (out : Stepped) → out.0 ≡ some k → Good before out → Names (some k, out.1, out.2)
Names-of_Good before k (none, m, p) h g = absurd (cc)
Names-of_Good before k (some j, m, p) h g =
    let e : j ≡ k = cc in subst (λ (i : ℕ). Names (some i, m, p)) e g

Inv-of_Good :
    (before : ℕ) (out : Stepped)
    → out.0 ≡ none
    → Good before out
    → Inv out.1 out.2 × (cost out.1 out.2 < before)
Inv-of_Good before (none, m, p) h g = g
Inv-of_Good before (some j, m, p) h g = absurd (cc)

victim_loop-Names :
    (steps : ℕ) (m : Map Entry) (p : S3fifo) (k : ℕ)
    → cost m p < steps
    → Inv m p
    → lookup k m ≢ none
    → Names (victim_loop steps m p)
unfolding victim_loop
victim_loop-Names zero m p k less v held = absurd (omega arith)
victim_loop-Names (suc steps) m p k less v held = elim (Option-cases (turn m p p.small p.main)) [
  | inl over ↦ absurd (turn-ne-none m p p.small p.main k refl refl v held over)
  | inr (out, turned) ↦
      let good = turn-Good m p p.small p.main out refl refl v turned in
      let shape = turn-shape m p p.small p.main out turned in
      elim (Option-cases out.0) [
        | inr (j, named) ↦ rw (turned, victim_loop, named) (Names-of_Good _ j out named good)
        | inl nobody ↦
            let (v', fallen) = Inv-of_Good _ out nobody good in
            rw (turned, victim_loop, nobody)
              (victim_loop-Names steps out.1 out.2 k (omega arith) v'
                (λ absent. held (absent-shape k m out.1 shape absent)))
      ]
]

-- If every entry has a live slot and no counter is above 3, then while the shard holds a key,
-- Victim of S3-FIFO names a held one within its bound on the rounds; afterwards every entry but
-- the named one has a live slot, and no counter is above 3.
pub victim-Names :
    (c : Candidates) (now_us : ℕ) (p : S3fifo) (k : ℕ)
    → Inv c.entries p
    → lookup k c.entries ≢ none
    → Names (victim c now_us p)
unfolding victim
victim-Names c now_us p k v held =
    victim_loop-Names _ c.entries p k (omega (arith, weight-bound c.entries v.counted p.main)) v
      held
