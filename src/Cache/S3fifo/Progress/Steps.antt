-- ===== src/Cache/S3fifo/Progress/Steps.antt =====
-- One round of `Victim`, and the loop.
use belady.Common.{
  ℕ, ◌+◌, ◌-◌, ◌≤◌, ◌<◌, ◌≡◌, ◌≢◌, ◌⊎◌, sym, subst, none, some, List, [], ◌∷◌, ◌++◌, Map, lookup,
  insert, true, false, ltb, ltb→lt, add64, ◌==◌, ==_iff, ne→==, arith, inl, inr, Bool-cases,
  Option-cases, lookup-insert, sub64, sub64-eq,
}
use belady.Cache.Entry.{Entry}
use belady.Cache.S3fifo.{
  Slot, S3fifo, is_live, push_main, remember_ghost, leave_small, step_small, leave_main, step_main,
}
use belady.Cache.S3fifo.Progress.{
  freq_of, QueuedBut, Inv, cost, Good, freq_of-insert, weight-append, weight-le,
}
use belady.Cache.S3fifo.Queue.{
  Live, slot, Among-last, Live-tail, Live-append, Live-erase, Live-push_self, Live-push_ne,
}

-- A key that is held after an entry was put back was held before, or is its key.
held-insert :
    (k : ℕ) (e : Entry) (j : ℕ) (m : Map Entry)
    → k ≢ j
    → lookup j (insert k e m) ≢ none
    → lookup j m ≢ none
held-insert k e j m ne h = rw (lookup-insert k j e m, ne→== k j ne) at h

lower-freq :
    (k : ℕ) (e : Entry) (n : ℕ) (m : Map Entry)
    → lookup k m ≡ some e
    → n ≤ e.freq
    → (j : ℕ) → freq_of j (insert k (record e { freq = n }) m) ≤ freq_of j m
unfolding freq_of
lower-freq k e n m held le j = ground (arith, lookup-insert k j (record e { freq = n }) m)

freq_of-promoted :
    (k : ℕ) (e : Entry) (m : Map Entry) → freq_of k (insert k (record e { freq = 0 }) m) ≡ 0
freq_of-promoted k e m = ground (arith, freq_of-insert k (record e { freq = 0 }) k m)

-- A promotion takes two rounds' worth from the small queue and gives one to the main queue.
leave_small-Good :
    (m : Map Entry) (p : S3fifo) (k : ℕ) (e : Entry)
    → lookup k m ≡ some e
    → QueuedBut (λ j. k ≢ j) m p
    → ((j : ℕ) → freq_of j m ≤ 3)
    → Good (2 + cost m p) (leave_small m p k e)
unfolding leave_small push_main remember_ghost
leave_small-Good m p k e held others counted = elim (Bool-cases (ltb 0 e.freq)) [
  | inl seen ↦ rw seen (
      let e' = record e { freq = 0 } in
      let lower = lower-freq k e 0 m held (omega arith) in
      (
        record {
          queued = λ j h _. elim (Bool-cases (k == j)) [
            | inl same ↦ inr (
                subst
                  (λ (i : ℕ).
                    Live (insert k (add64 p.gen 1) p.in_m) (p.main ++ (slot k (add64 p.gen 1) ∷ []))
                      i)
                  ((==_iff k j).0 same) (Live-push_self p.in_m p.main k (add64 p.gen 1)))
            | inr other ↦
                let ne : k ≢ j = ground arith in
                elim (others j (held-insert k e' j m ne h) ne) [
                  | inl s ↦ inl (Live-erase p.in_s p.small k j ne s)
                  | inr t ↦ inr (Live-push_ne p.in_m p.main k (add64 p.gen 1) j ne t)
                ]
          ];
          counted = λ j. omega (arith, lower j, counted j);
        },
        omega (
          arith,
          weight-append (insert k e' m) p.main (slot k (add64 p.gen 1)),
          weight-le m (insert k e' m) lower p.main,
          freq_of-promoted k e m,
        ),
      ))
  | inr once ↦ rw once (
    λ absent. ground arith,
    λ j h ne. elim (others j h ne) [
      | inl s ↦ inl (Live-erase p.in_s p.small k j ne s)
      | inr t ↦ inr t
    ],
    counted,
  )
]

freq_of-held : (k : ℕ) (e : Entry) (m : Map Entry) → lookup k m ≡ some e → freq_of k m ≡ e.freq
unfolding freq_of
freq_of-held k e m held = rw (held, freq_of)

freq_of-lowered :
    (k : ℕ) (e : Entry) (n : ℕ) (m : Map Entry) → freq_of k (insert k (record e { freq = n }) m) ≡ n
freq_of-lowered k e n m = ground (arith, freq_of-insert k (record e { freq = n }) k m)

-- The generation that makes a slot live.
is_live-gen : (s : Slot) (live : Map ℕ) → is_live s live ≡ true → lookup s.key live ≡ some s.gen
unfolding is_live
is_live-gen s live h = ground arith

-- A second chance puts the slot back with a lower counter.
leave_main-Good :
    (m : Map Entry) (p : S3fifo) (s : Slot) (e : Entry)
    → lookup s.key m ≡ some e
    → lookup s.key p.in_m ≡ some s.gen
    → QueuedBut (λ j. s.key ≢ j) m p
    → ((j : ℕ) → freq_of j m ≤ 3)
    → Good (1 + freq_of s.key m + cost m p) (leave_main m p s e)
unfolding leave_main
leave_main-Good m p s e held alive others counted = elim (Bool-cases (ltb 0 e.freq)) [
  | inl seen ↦ rw seen (
      let positive : 0 < e.freq = ltb→lt _ _ seen in
      let freq : freq_of s.key m ≡ e.freq = freq_of-held s.key e m held in
      let minus : sub64 e.freq 1 ≡ e.freq - 1 =
        sub64-eq e.freq 1 positive (omega (arith, counted s.key)) in
      let e' = record e { freq = sub64 e.freq 1 } in
      let lower = lower-freq s.key e (sub64 e.freq 1) m held (omega arith) in
      (
        record {
          queued = λ j h _. elim (Bool-cases (s.key == j)) [
            | inl same ↦ inr (
                subst (λ (i : ℕ). Live p.in_m (p.main ++ (s ∷ [])) i) ((==_iff s.key j).0 same)
                  (s.gen, alive, Among-last s p.main))
            | inr other ↦
                let ne : s.key ≢ j = ground arith in
                elim (others j (held-insert s.key e' j m ne h) ne) [
                  | inl small ↦ inl small
                  | inr main ↦ inr (Live-append p.in_m s p.main j main)
                ]
          ];
          counted = λ j. omega (arith, lower j, counted j);
        },
        omega (
          arith,
          weight-append (insert s.key e' m) p.main s,
          weight-le m (insert s.key e' m) lower p.main,
          freq_of-lowered s.key e (sub64 e.freq 1) m,
        ),
      ))
  | inr once ↦ rw once (λ absent. ground arith, others, counted)
]

-- The popped slot of one queue leaves every other key's slots, and all of them if it was stale or
-- its key is not held.
pop_small :
    (m : Map Entry) (p : S3fifo) (s : Slot) (rest : List Slot) (Left : ℕ → Type 0)
    → p.small ≡ s ∷ rest
    → Inv m p
    → ((j : ℕ) → lookup j m ≢ none → Left j → (j ≢ s.key) ⊎ (is_live s p.in_s ≡ false))
    → QueuedBut Left m (record p { small = rest })
pop_small m p s rest Left shape v other j h left = elim (v.queued j h tt) [
  | inl small ↦ inl (
      Live-tail p.in_s s rest j (other j h left)
        (subst (λ (q : List Slot). Live p.in_s q j) shape small))
  | inr main ↦ inr main
]

pop_main :
    (m : Map Entry) (p : S3fifo) (s : Slot) (rest : List Slot) (Left : ℕ → Type 0)
    → p.main ≡ s ∷ rest
    → Inv m p
    → ((j : ℕ) → lookup j m ≢ none → Left j → (j ≢ s.key) ⊎ (is_live s p.in_m ≡ false))
    → QueuedBut Left m (record p { main = rest })
pop_main m p s rest Left shape v other j h left = elim (v.queued j h tt) [
  | inl small ↦ inl small
  | inr main ↦ inr (
      Live-tail p.in_m s rest j (other j h left)
        (subst (λ (q : List Slot). Live p.in_m q j) shape main))
]

absent-ne : (m : Map Entry) (k j : ℕ) → lookup k m ≡ none → lookup j m ≢ none → j ≢ k
absent-ne m k j absent held same = held (rw same absent)

pub step_small-Good :
    (m : Map Entry) (p : S3fifo) (s : Slot) (rest : List Slot)
    → p.small ≡ s ∷ rest
    → Inv m p
    → Good (cost m p) (step_small m p s rest)
unfolding step_small
step_small-Good m p s rest shape v =
    let q = record p { small = rest } in
    let price : cost m p ≡ 2 + cost m q = rw shape (omega arith) in
    elim (Bool-cases (is_live s p.in_s)) [
      | inr stale ↦
          rw (stale, price)
            (
              record {
                queued = pop_small m p s rest (λ j. Unit {0}) shape v (λ j h _. inr stale);
                counted = v.counted;
              },
              omega arith,
            )
      | inl live ↦ elim (Option-cases (lookup s.key m)) [
        | inl absent ↦
            rw (live, absent, price)
              (
                record {
                  queued =
                      pop_small m p s rest (λ j. Unit {0}) shape v
                        (λ j h _. inl (absent-ne m s.key j absent h));
                  counted = v.counted;
                },
                omega arith,
              )
        | inr (e, held) ↦
            rw (live, held, price)
              (leave_small-Good m q s.key e held
                (pop_small m p s rest (λ j. s.key ≢ j) shape v (λ j h ne. inl (λ e. ne (sym e))))
                v.counted)
      ]
    ]

pub step_main-Good :
    (m : Map Entry) (p : S3fifo) (s : Slot) (rest : List Slot)
    → p.main ≡ s ∷ rest
    → Inv m p
    → Good (cost m p) (step_main m p s rest)
unfolding step_main
step_main-Good m p s rest shape v =
    let q = record p { main = rest } in
    let price : cost m p ≡ 1 + freq_of s.key m + cost m q = rw shape (omega arith) in
    elim (Bool-cases (is_live s p.in_m)) [
      | inr stale ↦
          rw (stale, price)
            (
              record {
                queued = pop_main m p s rest (λ j. Unit {0}) shape v (λ j h _. inr stale);
                counted = v.counted;
              },
              omega arith,
            )
      | inl live ↦ elim (Option-cases (lookup s.key m)) [
        | inl absent ↦
            rw (live, absent, price)
              (
                record {
                  queued =
                      pop_main m p s rest (λ j. Unit {0}) shape v
                        (λ j h _. inl (absent-ne m s.key j absent h));
                  counted = v.counted;
                },
                omega arith,
              )
        | inr (e, held) ↦
            rw (live, held, price)
              (leave_main-Good m q s e held (is_live-gen s p.in_m live)
                (pop_main m p s rest (λ j. s.key ≢ j) shape v (λ j h ne. inl (λ e. ne (sym e))))
                v.counted)
      ]
    ]
