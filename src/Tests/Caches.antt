-- ===== src/Tests/Caches.antt =====
-- A cache of two shards, and the sampled policies over integers in place of float64.
use belady.Common.{
  ℕ, ◌+◌, ◌-◌, ◌*◌, ◌/◌, ◌≤◌, ◌<◌, ◌^◌, ◌≡◌, refl, Bool, true, false, Option, none, some, lookup,
  add64, lt_i64, sub64, bit_len, not, [], ◌∷◌, take, All, arith, replicate, ltb,
}
use belady.Common.Float.{Float64, IsIeee}
use belady.Cache.Entry.{Entry}
use belady.Cache.Policy.{Candidates}
use belady.Cache.S3fifo.{new_s3fifo, s3fifo_policy}
use belady.Cache.S3fifo.Lawful.{s3fifo-IsLawful}
use belady.Cache.Shard
use belady.Cache.Shard.Store
use belady.Cache.Shard.Invariant.{IsValid}
use belady.Cache.Shard.{Env, Shard, new_shard}
use belady.Cache.Sharded
use belady.Cache.Sharded.{
  Cache, Config, ok, new, make_shards, hash, shard_index, put, get, deadline, round_shards,
}
use belady.Cache.Sharded.Shape.{IsSharded, new-IsSharded}
use belady.Cache.Sharded.Routing.{Routed, put-Routed, get-put}
use belady.Cache.Sampled.{fresh_running, sampled_victim, lru_score, lfu_score}
use belady.Cache.Sampled.Worst.{IsWorst, lru_victim-IsWorst, lfu_victim-IsWorst}
use belady.Trace.Ring.{round_up_pow2}
use belady.Trace.Ring.Size.{round_up_pow2_bounds}

round_up_pow2_bounds_example :
    (k : ℕ) × (round_up_pow2 100 ≡ 2 ^ k) × (k ≤ 62) × (100 ≤ 2 ^ k) × (2 ^ k < 2 * 100)
round_up_pow2_bounds_example = round_up_pow2_bounds 100 (omega arith) (omega arith)

abbrev env : Env
env = record { nanos = λ n. n; order = λ n es. es }

unfoldable cfg : Config s3fifo_policy
unfolding s3fifo_policy
cfg = record {
  new_state = some new_s3fifo;
  trace = none;
  default_ttl = 0;
  capacity_bytes = 20;
  shards = 2;
}

unfoldable two_shards : Cache s3fifo_policy
unfolding s3fifo_policy
two_shards = record {
  shards =
      new_shard s3fifo_policy 10 (new_s3fifo 10) none
      ∷ new_shard s3fifo_policy 10 (new_s3fifo 10) none
      ∷ [];
  mask = 1;
  default_ttl = 0;
}

cfg-new : new cfg ≡ ok two_shards
unfolding new cfg two_shards round_shards lt_i64 sub64 bit_len make_shards
cfg-new = refl

new-IsSharded_example :
    (k : ℕ) × IsSharded k two_shards
    × (2 ≤ 2 ^ k)
    × (2 ^ k < 2 * 2)
    × All (λ s. s.capacity ≡ 20 / 2 ^ k) two_shards.shards
    × (1 ≤ 20 / 2 ^ k)
unfolding cfg
new-IsSharded_example =
    new-IsSharded cfg two_shards (omega arith) (omega arith) (omega arith) cfg-new

two_shards-IsSharded : IsSharded 1 two_shards
unfolding two_shards new_shard
two_shards-IsSharded =
    let fresh : IsValid (new_shard s3fifo_policy 10 (new_s3fifo 10) none) = record {
      distinct = tt;
      sound = tt;
      accounted = refl;
      fits = omega arith;
      small = omega arith;
    } in
    record { count = refl; masked = refl; valid = (fresh, (fresh, tt)) }

-- A first write, of three bytes.
unfoldable written : Cache s3fifo_policy
written = elim (put env two_shards (b'k' ∷ []) (1 ∷ 2 ∷ 3 ∷ []) 0 10) [
  | none ↦ two_shards
  | some r ↦ r.0
]

put_written : put env two_shards (b'k' ∷ []) (1 ∷ 2 ∷ 3 ∷ []) 0 10 ≡ some (written, true)
unfolding written put Sharded.with_shard two_shards shard_index hash Shard.insert_value
    Shard.insert_counted lt_i64 Shard.count_miss new_shard Shard.make_room Shard.drop_old lookup
    add64
put_written = refl

put-Routed_example :
    Routed 1
      (hash (b'k' ∷ []))
      two_shards
      (λ s.
        Shard.insert_value env s
          (hash (b'k' ∷ []))
          (1 ∷ 2 ∷ 3 ∷ [])
          10
          (deadline two_shards 10 0)
          false)
      (put env two_shards (b'k' ∷ []) (1 ∷ 2 ∷ 3 ∷ []) 0 10)
put-Routed_example =
    put-Routed env 1 two_shards (b'k' ∷ []) (1 ∷ 2 ∷ 3 ∷ []) 0 10 s3fifo-IsLawful
      two_shards-IsSharded (omega arith)

not_passed : Store.has_passed (deadline two_shards 10 0) 99 ≡ false
unfolding deadline two_shards lt_i64
not_passed = refl

get-put_example :
    (c'' : Cache s3fifo_policy) × (get written (b'k' ∷ []) 99 ≡ some (c'', some (1 ∷ 2 ∷ 3 ∷ [])))
get-put_example =
    get-put env 1 two_shards written (b'k' ∷ []) (1 ∷ 2 ∷ 3 ∷ []) 0 10 99 s3fifo-IsLawful
      two_shards-IsSharded (omega arith) put_written not_passed

-- A number with its sign; zero has both.
abbrev negated : Option (Bool × ℕ) → Option (Bool × ℕ)
negated none = none
negated (some (positive, n)) = some (not positive, n)

abbrev below : Option (Bool × ℕ) → Option (Bool × ℕ) → Bool
below none none = false
below none (some b) = true
below (some a) none = false
below (some (true, a)) (some (true, b)) = ltb a b
below (some (true, a)) (some (false, b)) = false
below (some (false, a)) (some (true, b)) = ltb 0 (a + b)
below (some (false, a)) (some (false, b)) = ltb b a

-- Integers with a least element, compared as such, stand in for float64.
abbrev pub integers : Float64
integers = record {
  F = Option (Bool × ℕ);
  less = λ a b. below a b;
  neg_inf = none;
  neg = λ a. negated a;
  of_i64 = λ n. some (true, n);
  of_u32 = λ n. some (true, n);
}

integers-IsIeee : IsIeee integers
integers-IsIeee = record {
  exact_i64 = λ a b h k. refl;
  above_i64 = λ a h. refl;
  reversed_u32 = λ a b h k. refl;
  above_u32 = λ a h. refl;
}

abbrev pub entry_at : ℕ → ℕ → ℕ → Entry
entry_at k last n = record {
  value = [];
  key = k;
  last_access = last;
  admitted = 0;
  expires = 0;
  deltas = replicate 8 0;
  size = 0;
  accesses = n;
  freq = 0;
}

abbrev pub three : Candidates
three = record { entries = []; order = entry_at 1 30 5 ∷ entry_at 2 10 9 ∷ entry_at 3 20 4 ∷ [] }

lru_victim-IsWorst_example :
    (key : ℕ) × ((sampled_victim integers
        (lru_score integers)
        3
        three
        50
        (fresh_running integers)).0
      ≡ some key)
    × IsWorst (λ e. 50 - e.last_access) (take 3 three.order) key
lru_victim-IsWorst_example =
    lru_victim-IsWorst integers integers-IsIeee 50 2 three (fresh_running integers) (omega arith)
      (omega arith) (omega arith) (omega arith, (omega arith, (omega arith, tt)))

lfu_victim-IsWorst_example :
    (key : ℕ) × ((sampled_victim integers
        (lfu_score integers)
        3
        three
        50
        (fresh_running integers)).0
      ≡ some key)
    × IsWorst (λ e. 2 ^ 32 - e.accesses) (take 3 three.order) key
lfu_victim-IsWorst_example =
    lfu_victim-IsWorst integers integers-IsIeee 50 2 three (fresh_running integers) (omega arith)
      (omega arith) (omega arith, (omega arith, (omega arith, tt)))
