-- ===== src/Cache/Sampled/Worst.antt =====
-- Which of the candidates that it draws a sampled policy names.
use belady.Common.{
  ℕ, zero, suc, ◌-◌, ◌≤◌, ◌<◌, ◌^◌, ◌≡◌, ◌⊎◌, refl, Bool, true, false, some, List, [], ◌∷◌, All,
  take, All-take, length, ltb, arith, inl, inr, Bool-cases, sub64-eq, lt_i64-eq, lt_i64, ◌∙◌, ap,
  lt→ltb, ltb→lt, ne→==,
}
use belady.Common.Float.{Float64, IsIeee}
use belady.Cache.Entry.{Entry}
use belady.Cache.Policy.{Candidates, sample_loop, sample}
use belady.Cache.Sampled.{Running, consider, sampled_victim, lru_score, lfu_score}

-- One of the entries.
abbrev pub Among : Entry → List Entry → Type 0
Among e [] = ⊥
Among e (f ∷ fs) = (e ≡ f) ⊎ Among e fs

module _ {S : Type 0} (visit : Entry → S → S × Bool) where
  -- A visitor that does not stop early sees the first `n` entries, in order.
  abbrev pub visit_all : List Entry → S → S
  visit_all [] s = s
  visit_all (e ∷ es) s = visit_all es (visit e s).0

  -- The visitor goes on at the entries of a class, from the states of a class, which it keeps.
  abbrev pub GoesOn : (Entry → Type 0) → (S → Type 0) → Type 0
  GoesOn In Ok = (e : Entry) (s : S) → In e → Ok s → ((visit e s).1 ≡ true) × Ok (visit e s).0

  pub sample_loop-take :
      (In : Entry → Type 0) (Ok : S → Type 0)
      → GoesOn In Ok
      → (n : ℕ) (es : List Entry) (s : S) → All In es
      → Ok s
      → suc n < 2 ^ 63
      → sample_loop visit (suc n) es s ≡ visit_all (take (suc n) es) s
  unfolding sample_loop
  sample_loop-take In Ok on n [] s all good h = refl
  sample_loop-take In Ok on zero (e ∷ es) s all good h =
      rw ((on e s all.0 good).0, sub64-eq 1 1 (omega arith) (omega arith)) refl
  sample_loop-take In Ok on (suc n) (e ∷ es) s all good h =
      let less_one : suc (suc n) - 1 ≡ suc n = omega arith in
      rw
        (
          (on e s all.0 good).0,
          sub64-eq (suc (suc n)) 1 (omega arith) (omega arith),
          less_one,
          ne→== (suc n) 0 (omega arith),
        )
        (sample_loop-take In Ok on n es (visit e s).0 all.1 (on e s all.0 good).1 (omega arith))

-- The worst of the entries that were seen: `e`, of the highest rank.
pub record IsWorst (rank : Entry → ℕ) (seen : List Entry) (key : ℕ) : Type 0 where
  pub entry : Entry
  pub named : key ≡ entry.key
  pub among : Among entry seen
  pub highest : All (λ f. rank f ≤ rank entry) seen

module _ (fl : Float64) (score : Entry → ℕ → fl.F) where
  consider_goes_on : (e : Entry) (p : Running fl) → (consider fl score e p).1 ≡ true
  unfolding consider
  consider_goes_on e p = ground arith

  -- Scores compare as the ranks of the entries in a class do.
  pub record IsRanked (now_us : ℕ) (InRange : Entry → Type 0) (rank : Entry → ℕ) : Type 0 where
    pub compares :
        (e f : Entry)
        → InRange e
        → InRange f
        → fl.less (score e now_us) (score f now_us) ≡ ltb (rank e) (rank f)
    pub above : (e : Entry) → InRange e → fl.less fl.neg_inf (score e now_us) ≡ true

  module _ (now_us : ℕ) (InRange : Entry → Type 0) (rank : Entry → ℕ)
      (ranked : IsRanked now_us InRange rank) where
    -- The running best stands for the entry `e`.
    record Holds (p : Running fl) (e : Entry) : Type 0 where
      score_of : p.best_score ≡ score e now_us
      key_of : p.best ≡ e.key
      found_one : p.found ≡ true
      at_now : p.now_us ≡ now_us

    record Scanned (e : Entry) (es : List Entry) (p : Running fl) : Type 0 where
      entry : Entry
      holds : Holds p entry
      among : (entry ≡ e) ⊎ Among entry es
      above_first : rank e ≤ rank entry
      highest : All (λ f. rank f ≤ rank entry) es

    consider-better :
        (f : Entry) (p : Running fl)
        → p.now_us ≡ now_us
        → fl.less p.best_score (score f now_us) ≡ true
        → Holds (consider fl score f p).0 f
    unfolding consider
    consider-better f p now better =
        let test : fl.less p.best_score (score f p.now_us) ≡ true = rw now better in
        rw test
          (record { score_of = ap (score f) now; key_of = refl; found_one = refl; at_now = now })

    consider-worse :
        (f : Entry) (p : Running fl)
        → p.now_us ≡ now_us
        → fl.less p.best_score (score f now_us) ≡ false
        → (consider fl score f p).0 ≡ p
    unfolding consider
    consider-worse f p now worse = rw (now, worse)

    scan :
        (es : List Entry) (e : Entry) (p : Running fl)
        → Holds p e
        → InRange e
        → All InRange es
        → Scanned e es (visit_all (consider fl score) es p)
    scan [] e p h within all = record {
      entry = e;
      holds = h;
      among = inl refl;
      above_first = omega arith;
      highest = tt;
    }
    scan (f ∷ es) e p h within all = elim (Bool-cases (ltb (rank e) (rank f))) [
      | inl better ↦
          let lt : rank e < rank f = ltb→lt _ _ better in
          let r =
            scan es f (consider fl score f p).0
              (consider-better f p h.at_now
                (rw (h.score_of, ranked.compares e f within all.0) better))
              all.0 all.1 in
          record {
            entry = r.entry;
            holds = r.holds;
            among = inr r.among;
            above_first = omega (arith, r.above_first);
            highest = (r.above_first, r.highest);
          }
      | inr worse ↦
          let r = scan es e p h within all.1 in
          rw (consider-worse f p h.at_now (rw (h.score_of, ranked.compares e f within all.0) worse))
            (record {
              entry = r.entry;
              holds = r.holds;
              among = elim r.among [ inl x ↦ inl x | inr y ↦ inr (inr y) ];
              above_first = r.above_first;
              highest = (ground (arith, r.above_first), r.highest);
            })
    ]

    seen_first :
        (n : ℕ) (order : List Entry) (p : Running fl)
        → p.now_us ≡ now_us
        → p.best_score ≡ fl.neg_inf
        → 0 < length order
        → All InRange order
        → let p' = visit_all (consider fl score) (take (suc n) order) p in
          (p'.found ≡ true) × IsWorst rank (take (suc n) order) p'.best
    seen_first n [] p now none_yet any all = absurd (omega arith)
    seen_first n (e ∷ es) p now none_yet any all =
        let first = consider-better e p now (rw none_yet (ranked.above e all.0)) in
        let r =
          scan (take n es) e (consider fl score e p).0 first all.0 (All-take InRange n es all.1) in
        (
          r.holds.found_one,
          record {
            entry = r.entry;
            named = r.holds.key_of;
            among = r.among;
            highest = (r.above_first, r.highest);
          },
        )

    -- Of the candidates drawn, at least one, the policy names one of the highest rank.
    pub sampled_victim-IsWorst :
        (n : ℕ) (c : Candidates) (p : Running fl)
        → suc n < 2 ^ 63
        → 0 < length c.order
        → All InRange c.order
        → (key : ℕ) × ((sampled_victim fl score (suc n) c now_us p).0 ≡ some key)
          × IsWorst rank (take (suc n) c.order) key
    unfolding sampled_victim sample
    sampled_victim-IsWorst n c p small any all =
        let start = record p { now_us = now_us; best_score = fl.neg_inf; found = false } in
        let (found, worst) = seen_first n c.order start refl refl any all in
        let positive : lt_i64 0 (suc n) ≡ true =
          lt_i64-eq 0 (suc n) (omega arith) small ∙ lt→ltb _ _ (omega arith) in
        let same =
          sample_loop-take (consider fl score) InRange (λ s. Unit)
            (λ e s within good. (consider_goes_on e s, tt)) n c.order start all tt small in
        (_, rw (positive, same, found), worst)

module _ (fl : Float64) (ieee : IsIeee fl) where
  lru_score-eq :
      (now_us : ℕ) (e : Entry)
      → now_us < 2 ^ 53
      → e.last_access ≤ now_us
      → lru_score fl e now_us ≡ fl.of_i64 (now_us - e.last_access)
  unfolding lru_score
  lru_score-eq now_us e small past = ap fl.of_i64 (sub64-eq now_us e.last_access past (omega arith))

  -- LRU's rank is the idle time.
  lru-IsRanked :
      (now_us : ℕ)
      → now_us < 2 ^ 53
      → IsRanked fl
          (lru_score fl)
          now_us
          (λ e. e.last_access ≤ now_us)
          (λ e. now_us - e.last_access)
  lru-IsRanked now_us small = record {
    compares = λ e f he hf.
        rw (lru_score-eq now_us e small he, lru_score-eq now_us f small hf)
          (ieee.exact_i64 _ _ (omega arith) (omega arith));
    above = λ e he. rw (lru_score-eq now_us e small he) (ieee.above_i64 _ (omega arith));
  }

  -- LFU's rank is the distance of the access count from 2 ^ 32.
  lfu-IsRanked :
      (now_us : ℕ)
      → IsRanked fl (lfu_score fl) now_us (λ e. e.accesses < 2 ^ 32) (λ e. 2 ^ 32 - e.accesses)
  unfolding lfu_score
  lfu-IsRanked now_us = record {
    compares = λ e f he hf. ieee.reversed_u32 e.accesses f.accesses he hf ∙ ground arith;
    above = λ e he. ieee.above_u32 e.accesses he;
  }

  -- On a float64 that follows IEEE 754, for a time below 2 ^ 53, a positive sample size, and
  -- entries that are not empty and not used after that time, LRU names an entry of the sample
  -- whose last access is the longest ago.
  pub lru_victim-IsWorst :
      (now_us n : ℕ) (c : Candidates) (p : Running fl)
      → now_us < 2 ^ 53
      → suc n < 2 ^ 63
      → 0 < length c.order
      → All (λ e. e.last_access ≤ now_us) c.order
      → (key : ℕ) × ((sampled_victim fl (lru_score fl) (suc n) c now_us p).0 ≡ some key)
        × IsWorst (λ e. now_us - e.last_access) (take (suc n) c.order) key
  lru_victim-IsWorst now_us n c p recent small any all =
      sampled_victim-IsWorst fl (lru_score fl) now_us _ _ (lru-IsRanked now_us recent) n c p small
        any all

  -- On a float64 that follows IEEE 754, for a positive sample size and entries that are not empty
  -- and of less than 2 ^ 32 accesses each, LFU names an entry of the sample with the fewest
  -- accesses.
  pub lfu_victim-IsWorst :
      (now_us n : ℕ) (c : Candidates) (p : Running fl)
      → suc n < 2 ^ 63
      → 0 < length c.order
      → All (λ e. e.accesses < 2 ^ 32) c.order
      → (key : ℕ) × ((sampled_victim fl (lfu_score fl) (suc n) c now_us p).0 ≡ some key)
        × IsWorst (λ e. 2 ^ 32 - e.accesses) (take (suc n) c.order) key
  lfu_victim-IsWorst now_us n c p small any all =
      sampled_victim-IsWorst fl (lfu_score fl) now_us _ _ (lfu-IsRanked now_us) n c p small any all
