-- ===== src/Cache/Lrb.antt =====
-- internal/cache/lrb.go: the learned policy. A panic, an index out of range in `Raw`, is `none`.
pub mod Worst
pub mod Lawful
use belady.Common.{
  ℕ, Bool, true, false, Option, none, some, List, [], ◌∷◌, ◌>>=◌, if◌then◌else◌, Map, lt_i64,
}
use belady.Common.Float.{Float32, Float64}
use belady.Cache.Entry.{Entry}
use belady.Cache.Holder.{ModelHolder}
use belady.Cache.Policy.{Policy, Candidates, sample}
use belady.Cache.Sampled.{Running, fresh_running, sampled_victim, lru_score}
use belady.Features.{Input, extract}
use belady.Model.Tree.{Model, raw}

-- What `consider` hands to `Extract`.
unfoldable pub input_of : ℕ → Entry → Input
input_of now_us e = record {
  deltas = e.deltas;
  now_us = now_us;
  last_access_us = e.last_access;
  admitted_us = e.admitted;
  size_bytes = e.size;
  accesses = e.accesses;
  frequency = e.freq;
}

module _ (fl : Float32) (fl64 : Float64) where
  open fl use {F, zero_f, less_f}

  -- The fields that `consider` changes.
  pub record Best : Type 0 where
    pub worst : ℕ
    pub best : F
    pub found : Bool

  unfoldable pub score_entry : Model F → ℕ → Entry → Option F
  score_entry m now_us e = raw fl m (extract fl (input_of now_us e))

  unfoldable pub take_score : Entry → F → Best → Best
  take_score e score p =
      if p.found
      then (if less_f p.best score then record { worst = e.key; best = score; found = true } else p)
      else record { worst = e.key; best = score; found = true }

  unfoldable pub consider_score : Model F → ℕ → Entry → Option Best → Option Best × Bool
  consider_score m now_us e none = (none, false)
  consider_score m now_us e (some p) = elim (score_entry m now_us e) [
    | none ↦ (none, false)
    | some score ↦ (some (take_score e score p), true)
  ]

  -- A shard's policy object: its own fields, and its fallback's.
  pub record Lrb : Type 0 where
    pub holder : ModelHolder (Model F)
    pub fallback : Running fl64
    pub last : Best

  -- `NewLRB`; `worst` and `best` start at zero.
  unfoldable pub sample_size : ℕ → ℕ
  sample_size n = if lt_i64 0 n then n else 8

  unfoldable pub new_lrb : ModelHolder (Model F) → Lrb
  new_lrb holder = record {
    holder = holder;
    fallback = fresh_running fl64;
    last = record { worst = 0; best = zero_f; found = false };
  }

  unfoldable pub model_victim : ℕ → Model F → Candidates → ℕ → Best → Option (Option ℕ × Best)
  model_victim n m c now_us p =
      sample (consider_score m now_us) n c (some (record p { found = false })) >>= λ q.
      some (if q.found then some q.worst else none, q)

  -- `Victim`. Each call loads the holder's pointer.
  unfoldable pub lrb_victim : ℕ → Candidates → ℕ → Lrb → Option (Option ℕ × Lrb)
  lrb_victim n c now_us p = elim p.holder [
    | none ↦
        let (key, running) = sampled_victim fl64 (lru_score fl64) n c now_us p.fallback in
        some (key, record p { fallback = running })
    | some l ↦ model_victim n l.model c now_us p.last >>= λ r. some (r.0, record p { last = r.1 })
  ]

  -- A panic in `Victim` has no result: it stands as no victim.
  unfoldable pub as_victim : Map Entry → Lrb → Option (Option ℕ × Lrb) → Option ℕ × Map Entry × Lrb
  as_victim entries p none = (none, entries, p)
  as_victim entries p (some (key, q)) = (key, entries, q)

  -- The policy, with empty hooks.
  unfoldable pub lrb_policy : ℕ → Policy
  lrb_policy n = record {
    State = Lrb;
    name = b'l' ∷ b'r' ∷ b'b' ∷ [];
    victim = λ c now_us p. as_victim c.entries p (lrb_victim n c now_us p);
    on_access = λ e p. (e, p);
    on_admit = λ e p. (e, p);
    on_remove = λ e p. p;
  }
