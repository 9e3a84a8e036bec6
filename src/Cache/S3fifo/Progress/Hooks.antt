-- ===== src/Cache/S3fifo/Progress/Hooks.antt =====
-- The invariant of the queues under the shard's calls.
use belady.Common.{
  ℕ, ◌≤◌, ◌≡◌, ◌≢◌, refl, subst, none, some, false, [], Map, lookup, insert, erase, add64, ◌==◌,
  ==_iff, ne→==, arith, inl, inr, Bool-cases, Option-cases, lookup-insert, lookup-erase,
}
use belady.Cache.Entry.{Entry, touch}
use belady.Cache.S3fifo.{S3fifo, new_s3fifo, push_small, push_main, on_admit, on_remove}
use belady.Cache.S3fifo.Progress.{freq_of, QueuedBut, Inv}
use belady.Cache.S3fifo.Queue.{Live, Live-compact, Live-erase, Live-push_self, Live-push_ne}

-- An empty shard.
pub new_s3fifo-Inv : (capacity : ℕ) → Inv [] (new_s3fifo capacity)
unfolding freq_of lookup
new_s3fifo-Inv capacity = record { queued = λ k h _. absurd (h refl); counted = λ k. omega arith }

held-insert :
    (k : ℕ) (e : Entry) (j : ℕ) (m : Map Entry)
    → (k == j) ≡ false
    → lookup j (insert k e m) ≢ none
    → lookup j m ≢ none
held-insert k e j m ne h = rw (lookup-insert k j e m, ne) at h

-- If every entry has a live slot and no counter is above 3, the same holds after a hit on a held
-- key.
pub touch-Inv :
    (m : Map Entry) (p : S3fifo) (k now_us : ℕ) (e : Entry)
    → lookup k m ≡ some e
    → Inv m p
    → Inv (insert k (touch e now_us) m) p
unfolding touch freq_of
touch-Inv m p k now_us e held v = record {
  queued = λ j h _. elim (Bool-cases (k == j)) [
    | inl same ↦
        v.queued j
          (λ absent.
            let e' : k ≡ j = (==_iff k j).0 same in
            let clash : lookup k m ≡ none = rw e' absent in cc)
          tt
    | inr other ↦ v.queued j (held-insert k (touch e now_us) j m other h) tt
  ];
  counted = λ j. ground (arith, lookup-insert k j (touch e now_us) m, v.counted j, v.counted k);
}

-- If every entry but that of the removed key has a live slot and no counter is above 3, then after
-- S3-FIFO's removal every entry that stays has a live slot and no counter is above 3.
pub on_remove-Inv :
    (m : Map Entry) (p : S3fifo) (e : Entry)
    → QueuedBut (λ j. e.key ≢ j) m p
    → ((j : ℕ) → freq_of j m ≤ 3)
    → Inv (erase e.key m) (on_remove e p)
unfolding on_remove freq_of
on_remove-Inv m p e others counted =
    let ne : (j : ℕ) → lookup j (erase e.key m) ≢ none → e.key ≢ j =
      λ j h same. h (rw (lookup-erase e.key j m, (==_iff e.key j).1 same) refl) in
    let held : (j : ℕ) → lookup j (erase e.key m) ≢ none → lookup j m ≢ none =
      λ j h. rw (lookup-erase e.key j m, ne→== e.key j (ne j h)) at h in
    let lower : (j : ℕ) → freq_of j (erase e.key m) ≤ 3 =
      λ j. ground (arith, lookup-erase e.key j m, counted j) in
    elim (Option-cases (lookup e.key p.in_s)) [
      | inl absent ↦
          rw (absent, on_remove)
            (record {
              queued = λ j h _. elim (others j (held j h) (ne j h)) [
                | inl s ↦ inl s
                | inr t ↦ inr (Live-erase p.in_m p.main e.key j (ne j h) t)
              ];
              counted = lower;
            })
      | inr (g, present) ↦
          rw (present, on_remove)
            (record {
              queued = λ j h _. elim (others j (held j h) (ne j h)) [
                | inl s ↦ inl (Live-erase p.in_s p.small e.key j (ne j h) s)
                | inr t ↦ inr (Live-erase p.in_m p.main e.key j (ne j h) t)
              ];
              counted = lower;
            })
    ]

-- If every entry has a live slot and no counter is above 3, the same holds after S3-FIFO admits an
-- entry and the shard stores it under its key.
pub on_admit-Inv :
    (m : Map Entry) (p : S3fifo) (e : Entry)
    → Inv m p
    → let (e', p') = on_admit e p in Inv (insert e.key e' m) p'
unfolding on_admit push_small push_main freq_of
on_admit-Inv m p e v =
    let k = e.key in
    let g = add64 p.gen 1 in
    let lower : (j : ℕ) → freq_of j (insert k (record e { freq = 0 }) m) ≤ 3 =
      λ j. ground (arith, lookup-insert k j (record e { freq = 0 }) m, v.counted j) in
    elim (Option-cases (lookup k p.in_g)) [
      | inl unseen ↦
          rw (unseen, on_admit)
            (record {
              queued = λ j h _. elim (Bool-cases (k == j)) [
                | inl same ↦ inl (
                    Live-compact _ _ j
                      (subst (Live _ _) ((==_iff k j).0 same) (Live-push_self p.in_s p.small k g)))
                | inr other ↦
                    elim (v.queued j (held-insert k (record e { freq = 0 }) j m other h) tt) [
                      | inl s ↦
                          inl (
                            Live-compact _ _ j (Live-push_ne p.in_s p.small k g j (ground arith) s))
                      | inr t ↦ inr t
                    ]
              ];
              counted = lower;
            })
      | inr (u, seen) ↦
          rw (seen, on_admit)
            (record {
              queued = λ j h _. elim (Bool-cases (k == j)) [
                | inl same ↦ inr (
                    Live-compact _ _ j
                      (subst (Live _ _) ((==_iff k j).0 same) (Live-push_self p.in_m p.main k g)))
                | inr other ↦
                    elim (v.queued j (held-insert k (record e { freq = 0 }) j m other h) tt) [
                      | inl s ↦ inl s
                      | inr t ↦
                          inr
                            (Live-compact _ _ j (Live-push_ne p.in_m p.main k g j (ground arith) t))
                    ]
              ];
              counted = lower;
            })
    ]
