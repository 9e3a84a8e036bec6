-- ===== src/Cache/Sampled.antt =====
-- internal/cache/policy.go: the sampled policies LRU and LFU, over an abstract float64.
pub mod Worst
use belady.Common.{ℕ, Bool, true, false, Option, none, some, List, [], ◌∷◌, if◌then◌else◌, sub64}
use belady.Common.Float.{Float64}
use belady.Cache.Entry.{Entry}
use belady.Cache.Policy.{Policy, Candidates, sample}

module _ (fl : Float64) where
  open fl use {F, less, neg_inf, neg, of_i64, of_u32}

  -- The mutable fields of `sampled`; `name`, `n` and `score` are fixed at construction.
  pub record Running : Type 0 where
    pub best_score : F
    pub now_us : ℕ
    pub best : ℕ
    pub found : Bool

  -- The fields of a new policy object.
  abbrev pub fresh_running : Running
  fresh_running = record { best_score = of_i64 0; now_us = 0; best = 0; found = false }

  module _ (score : Entry → ℕ → F) where
    unfoldable pub consider : Entry → Running → Running × Bool
    consider e p =
        let s = score e p.now_us in
        if less p.best_score s
        then (record p { best_score = s; best = e.key; found = true }, true)
        else (p, true)

    unfoldable pub sampled_victim : ℕ → Candidates → ℕ → Running → Option ℕ × Running
    sampled_victim n c now_us p =
        let start = record p { now_us = now_us; best_score = neg_inf; found = false } in
        let end = sample consider n c start in (if end.found then some end.best else none, end)

    -- The hooks are empty.
    unfoldable pub new_sampled : List ℕ → ℕ → Policy
    new_sampled name n = record {
      State = Running;
      name = name;
      victim = λ c now_us p. let (key, p') = sampled_victim n c now_us p in (key, c.entries, p');
      on_access = λ e p. (e, p);
      on_admit = λ e p. (e, p);
      on_remove = λ e p. p;
    }

  unfoldable pub lru_score : Entry → ℕ → F
  lru_score e now_us = of_i64 (sub64 now_us e.last_access)

  unfoldable pub lfu_score : Entry → ℕ → F
  lfu_score e now_us = neg (of_u32 e.accesses)

  -- "lru" and "lfu".
  unfoldable pub new_lru : ℕ → Policy
  unfolding new_sampled
  new_lru sample_size = new_sampled lru_score (b'l' ∷ b'r' ∷ b'u' ∷ []) sample_size

  unfoldable pub new_lfu : ℕ → Policy
  unfolding new_sampled
  new_lfu sample_size = new_sampled lfu_score (b'l' ∷ b'f' ∷ b'u' ∷ []) sample_size
