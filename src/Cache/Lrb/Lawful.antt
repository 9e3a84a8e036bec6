-- ===== src/Cache/Lrb/Lawful.antt =====
-- The shard's laws for the learned policy: it changes no entry.
use belady.Common.{ℕ, refl, Option, none, some, Map}
use belady.Cache.Entry.{Entry}
use belady.Common.Float.{Float32, Float64}
use belady.Cache.Policy.Laws.{IsLawful, SameShape, SameShape-refl}
use belady.Cache.Lrb.{Lrb, as_victim, lrb_victim, lrb_policy}

module _ (fl : Float32) (fl64 : Float64) (n : ℕ) where
  as_victim-keeps :
      (m : Map Entry) (p : Lrb fl fl64) (r : Option (Option ℕ × Lrb fl fl64))
      → SameShape m (as_victim fl fl64 m p r).1
  unfolding as_victim
  as_victim-keeps m p none = SameShape-refl m
  as_victim-keeps m p (some (key, q)) = SameShape-refl m

  pub lrb_policy-IsLawful : IsLawful (lrb_policy fl fl64 n)
  unfolding lrb_policy
  lrb_policy-IsLawful = record {
    victim_keeps = λ c now_us st. as_victim-keeps c.entries st (lrb_victim fl fl64 n c now_us st);
    access_keeps = λ e st. refl;
    admit_keeps = λ e st. refl;
  }
