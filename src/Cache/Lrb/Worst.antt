-- ===== src/Cache/Lrb/Worst.antt =====
-- Which of the candidates that it draws the learned policy names.
use belady.Common.{
  ℕ, suc, ◌<◌, ◌^◌, ◌≡◌, ◌⊎◌, inl, inr, refl, ◌∙◌, true, false, Option, some, List, [], ◌∷◌, All,
  All-take, All-map, take, length, arith, Bool-cases, pos, lt_i64, lt_i64-eq, lt→ltb,
}
use belady.Common.Float.{Float32, Float64}
use belady.Cache.Entry.{Entry}
use belady.Cache.Holder.{Loaded}
use belady.Cache.Policy.{Candidates, sample}
use belady.Cache.Sampled.Worst.{Among, visit_all, sample_loop-take}
use belady.Cache.Lrb.{
  Best, score_entry, take_score, consider_score, Lrb, model_victim, lrb_victim, input_of,
}
use belady.Features.{extract, history_len, feature_count}
use belady.Features.Layout.{length-extract}
use belady.Model.Tree.{Model}
use belady.Model.Tree.Grounded.{IsGrounded}
use belady.Model.Tree.Total.{raw-IsGrounded}

-- `<` of IEEE 754, numbers or not.
pub record IsOrder (fl : Float32) : Type 0 where
  pub irreflexive : (a : fl.F) → fl.less_f a a ≡ false
  pub not_above :
      (a b c : fl.F) → fl.less_f a b ≡ true → fl.less_f a c ≡ false → fl.less_f b c ≡ false

module _ (fl : Float32) (fl64 : Float64) (m : Model fl.F) (now_us : ℕ) where
  open fl use {F, less_f}

  abbrev pub Scores : Entry → Type 0
  Scores e = (s : F) × (score_entry fl fl64 m now_us e ≡ some s)

  -- The entry `entry` of those seen has a score that none of them is above.
  pub record IsLikeliest (seen : List Entry) (key : ℕ) : Type 0 where
    pub entry : Entry
    pub score : F
    pub named : key ≡ entry.key
    pub among : Among entry seen
    pub scored : score_entry fl fl64 m now_us entry ≡ some score
    pub highest :
        All
          (λ f. (s : F) × (score_entry fl fl64 m now_us f ≡ some s) × (less_f score s ≡ false))
          seen

  consider_score-eq :
      (e : Entry) (s : F) (p : Best fl fl64)
      → score_entry fl fl64 m now_us e ≡ some s
      → consider_score fl fl64 m now_us e (some p) ≡ (some (take_score fl fl64 e s p), true)
  unfolding consider_score
  consider_score-eq e s p h = rw (h, consider_score) refl

  goes_on :
      (e : Entry) (s : Option (Best fl fl64))
      → Scores e
      → (q : Best fl fl64) × (s ≡ some q)
      → ((consider_score fl fl64 m now_us e s).1 ≡ true)
        × ((q : Best fl fl64) × ((consider_score fl fl64 m now_us e s).0 ≡ some q))
  goes_on e s (v, scored) (q, at) =
      rw (at, consider_score-eq e v q scored) (refl, (take_score fl fl64 e v q, refl))

  -- The running best stands for the entry `e`.
  record Holds (p : Best fl fl64) (e : Entry) : Type 0 where
    found_one : p.found ≡ true
    key_of : p.worst ≡ e.key
    score_of : score_entry fl fl64 m now_us e ≡ some p.best

  abbrev best_is : Entry → F → Best fl fl64
  best_is f s = record { worst = f.key; best = s; found = true }

  take-better :
      (f : Entry) (s : F) (p : Best fl fl64)
      → (p.found ≡ false) ⊎ (less_f p.best s ≡ true)
      → take_score fl fl64 f s p ≡ best_is f s
  unfolding take_score
  take-better f s p better = ground (arith, better)

  best_is-Holds :
      (f : Entry) (s : F) → score_entry fl fl64 m now_us f ≡ some s → Holds (best_is f s) f
  best_is-Holds f s h = record { found_one = refl; key_of = refl; score_of = h }

  take-worse :
      (f : Entry) (s : F) (p : Best fl fl64)
      → p.found ≡ true
      → less_f p.best s ≡ false
      → take_score fl fl64 f s p ≡ p
  unfolding take_score
  take-worse f s p found worse = ground arith

  module _ (order : IsOrder fl) where
    record Scanned (e : Entry) (s : F) (es : List Entry) (p : Option (Best fl fl64)) : Type 0 where
      end : Best fl fl64
      stands : p ≡ some end
      entry : Entry
      holds : Holds end entry
      among : (entry ≡ e) ⊎ Among entry es
      above_first : less_f end.best s ≡ false
      -- What was not above the first is not above the end.
      above : (t : F) → less_f s t ≡ false → less_f end.best t ≡ false
      highest :
          All
            (λ f. (t : F) × (score_entry fl fl64 m now_us f ≡ some t) × (less_f end.best t ≡ false))
            es

    scan :
        (es : List Entry) (e : Entry) (p : Best fl fl64)
        → Holds p e
        → All Scores es
        → Scanned e p.best es (visit_all (consider_score fl fl64 m now_us) es (some p))
    scan [] e p h all = record {
      end = p;
      stands = refl;
      entry = e;
      holds = h;
      among = inl refl;
      above_first = order.irreflexive p.best;
      above = λ t low. low;
      highest = tt;
    }
    scan (f ∷ es) e p h ((s, scored), all) = elim (Bool-cases (less_f p.best s)) [
      | inl better ↦
          let q = best_is f s in
          let r = scan es f q (best_is-Holds f s scored) all in
          rw (consider_score-eq f s p scored, take-better f s p (inr better))
            (record {
              end = r.end;
              stands = r.stands;
              entry = r.entry;
              holds = r.holds;
              among = inr r.among;
              above_first =
                  r.above p.best
                    (order.not_above p.best s p.best better (order.irreflexive p.best));
              above = λ t low. r.above t (order.not_above p.best s t better low);
              highest = ((s, scored, r.above_first), r.highest);
            })
      | inr worse ↦
          let r = scan es e p h all in
          rw (consider_score-eq f s p scored, take-worse f s p h.found_one worse)
            (record {
              end = r.end;
              stands = r.stands;
              entry = r.entry;
              holds = r.holds;
              among = elim r.among [ inl x ↦ inl x | inr y ↦ inr (inr y) ];
              above_first = r.above_first;
              above = r.above;
              highest = ((s, scored, r.above s worse), r.highest);
            })
    ]

    -- What `Sample` leaves, from a policy that has found nothing yet.
    sampled :
        (n : ℕ) (es : List Entry) (p : Best fl fl64)
        → p.found ≡ false
        → 0 < length es
        → All Scores es
        → (q : Best fl fl64) × (visit_all
              (consider_score fl fl64 m now_us)
              (take (suc n) es)
              (some p)
            ≡ some q)
          × (q.found ≡ true)
          × IsLikeliest (take (suc n) es) q.worst
    sampled n [] p fresh any all = absurd (omega arith)
    sampled n (e ∷ es) p fresh any ((s, scored), all) =
        let r =
          scan (take n es) e (best_is e s) (best_is-Holds e s scored) (All-take Scores n es all) in
        let seen : visit_all (consider_score fl fl64 m now_us) (take n es)
              (consider_score fl fl64 m now_us e (some p)).0
            ≡ some r.end =
          rw (consider_score-eq e s p scored, take-better e s p (inl fresh)) r.stands in
        (
          r.end,
          seen,
          r.holds.found_one,
          record {
            entry = r.entry;
            score = r.end.best;
            named = r.holds.key_of;
            among = r.among;
            scored = r.holds.score_of;
            highest = ((s, scored, r.above_first), r.highest);
          },
        )

    model_victim-IsLikeliest :
        (n : ℕ) (c : Candidates) (p : Best fl fl64)
        → suc n < 2 ^ 63
        → 0 < length c.order
        → All Scores c.order
        → (key : ℕ) × (q : Best fl fl64) × (model_victim fl fl64 (suc n) m c now_us p
            ≡ some (some key, q))
          × IsLikeliest (take (suc n) c.order) key
    unfolding model_victim sample
    model_victim-IsLikeliest n c p small any all =
        let start = record p { found = false } in
        let (q, stands, found, likeliest) = sampled n c.order start refl any all in
        let positive : lt_i64 0 (suc n) ≡ true =
          lt_i64-eq 0 (suc n) (omega arith) small ∙ lt→ltb _ _ (omega arith) in
        let same =
          sample_loop-take (consider_score fl fl64 m now_us) Scores
            (λ s. (q : Best fl fl64) × (s ≡ some q)) goes_on n c.order (some start) all
            (start, refl) small in
        (q.worst, q, rw (positive, same, stands, found) refl, likeliest)

module _ (fl : Float32) (fl64 : Float64) (order : IsOrder fl) where
  -- A full vector is scored.
  score_entry-scores :
      (m : Model fl.F) (now_us : ℕ) (e : Entry)
      → m.num_features ≡ pos feature_count
      → IsGrounded m
      → length e.deltas ≡ history_len
      → (s : fl.F) × (score_entry fl fl64 m now_us e ≡ some s)
  unfolding score_entry
  score_entry-scores m now_us e features grounded deltas =
      raw-IsGrounded fl m (extract fl (input_of now_us e))
        (rw features
          (omega (arith, length-extract fl (input_of now_us e) (unfold input_of in deltas))))
        grounded

  -- With a model installed that has this build's number of features and trees whose walks end
  -- within its arrays, for a positive sample size, and entries that are not empty and have 8 gaps
  -- each, the learned policy names an entry of the sample whose score no score in the sample is
  -- above, whatever floats the scores are.
  pub lrb_victim-IsLikeliest :
      (l : Loaded (Model fl.F)) (now_us n : ℕ) (c : Candidates) (p : Lrb fl fl64)
      → p.holder ≡ some l
      → l.model.num_features ≡ pos feature_count
      → IsGrounded l.model
      → suc n < 2 ^ 63
      → 0 < length c.order
      → All (λ e. length e.deltas ≡ history_len) c.order
      → (key : ℕ) × (q : Lrb fl fl64) × (lrb_victim fl fl64 (suc n) c now_us p ≡ some (some key, q))
        × IsLikeliest fl fl64 l.model now_us (take (suc n) c.order) key
  unfolding lrb_victim
  lrb_victim-IsLikeliest l now_us n c p installed features grounded small any deltas =
      let (key, q, named, likeliest) =
        model_victim-IsLikeliest fl fl64 l.model now_us order n c p.last small any (
          All-map (λ e. length e.deltas ≡ history_len) (Scores fl fl64 l.model now_us) c.order
            (λ e d. score_entry-scores l.model now_us e features grounded d) deltas) in
      (key, record p { last = q }, rw (installed, named) refl, likeliest)
