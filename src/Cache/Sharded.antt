-- ===== src/Cache/Sharded.antt =====
-- internal/cache/cache.go: the cache as a power-of-two array of shards, chosen by a key's hash.
-- A key and a value are lists of bytes. The operations take the time that `nowUS` returns.
pub mod Shape
pub mod Routing
use Prim.Native.Nat.{bit_and, bit_xor}
use belady.Common.{
  ℕ, zero, suc, ◌+◌, ◌*◌, ◌/◌, ◌%◌, ◌^◌, Bool, true, false, Option, none, some, List, [], ◌∷◌,
  ◌>>=◌, length, get_elem?, set, replicate, map, ◌==◌, ltb, if◌then◌else◌, add64, sub64, lt_i64,
  bit_len,
}
use belady.Cache.Policy.{Policy}
use belady.Cache.Shard
use belady.Cache.Shard.{Shard, Env, new_shard}
use belady.Trace.Ring.{Ring}

pub record Cache (P : Policy) : Type 0 where
  pub shards : List (Shard P)
  pub mask : ℕ
  pub default_ttl : ℕ

-- One byte of FNV-1a.
unfoldable pub mix_byte : ℕ → ℕ → ℕ
mix_byte h byte = bit_xor h byte * 1099511628211 % 2 ^ 64

unfoldable pub fnv : ℕ → List ℕ → ℕ
fnv h [] = h
fnv h (b ∷ bs) = fnv (mix_byte h b) bs

-- `h ^= h >> 33`
unfoldable pub fold_high : ℕ → ℕ
fold_high h = bit_xor h (h / 2 ^ 33)

-- FNV-1a and the splitmix64 finalizer.
unfoldable pub hash : List ℕ → ℕ
unfolding fnv mix_byte fold_high
hash key =
    let h0 = fnv 14695981039346656037 key in
    let h1 = fold_high h0 * 0xff51afd7ed558ccd % 2 ^ 64 in
    let h2 = fold_high h1 * 0xc4ceb9fe1a85ec53 % 2 ^ 64 in fold_high h2

-- `n` is an int.
unfoldable pub round_shards : ℕ → ℕ
round_shards n = if lt_i64 0 n then 2 ^ bit_len (sub64 n 1) % 2 ^ 64 else 256

pub data NewError : Type 0 where
  capacity_not_positive : NewError
  policy_missing : NewError
  nothing_per_shard : NewError
  rings_mismatch : NewError

pub data NewResult (P : Policy) : Type 0 where
  ok : Cache P → NewResult P
  err : NewError → NewResult P

-- `Config`, less the clocks: `new_state` is the state of the policy that `NewPolicy` makes for a
-- shard of the given capacity, and `trace` the recorder's rings.
pub record Config (P : Policy) : Type 0 where
  pub new_state : Option (ℕ → P.State)
  pub trace : Option (List Ring)
  pub default_ttl : ℕ
  pub capacity_bytes : ℕ
  pub shards : ℕ

-- The recorder, if there is one, has a ring for each shard.
unfoldable pub rings_agree : Option (List Ring) → ℕ → Bool
rings_agree none n = true
rings_agree (some rings) n = length rings == n

module _ {P : Policy} where
  -- The shards from index `i` on, each with its own ring.
  unfoldable pub make_shards : ℕ → ℕ → (ℕ → P.State) → Option (List Ring) → ℕ → List (Shard P)
  make_shards zero per new_state trace i = []
  make_shards (suc n) per new_state trace i =
      new_shard P per (new_state per) (trace >>= λ rings. get_elem? rings i)
      ∷ make_shards n per new_state trace (i + 1)

  unfoldable pub new : Config P → NewResult P
  unfolding rings_agree
  new cfg =
      let n = round_shards (if lt_i64 0 cfg.shards then cfg.shards else 256) in
      let per = cfg.capacity_bytes / n in
      if lt_i64 0 cfg.capacity_bytes
      then (elim cfg.new_state [
        | none ↦ err policy_missing
        | some new_state ↦
            if per == 0
            then err nothing_per_shard
            else if rings_agree cfg.trace n
            then ok (record {
              shards = make_shards n per new_state cfg.trace 0;
              mask = sub64 n 1;
              default_ttl = cfg.default_ttl;
            })
            else err rings_mismatch
      ])
      else err capacity_not_positive

  -- The index of `shardFor`.
  unfoldable pub shard_index : Cache P → ℕ → ℕ
  shard_index c h = bit_and h c.mask

  -- Runs a method on the key's shard; `none` is an index out of range, or a method that does not end.
  unfoldable pub with_shard :
      {R : Type 0} → Cache P → ℕ → (Shard P → Option (Shard P × R)) → Option (Cache P × R)
  with_shard c h method = do
    s ← get_elem? c.shards (shard_index c h)
    (s', r) ← method s
    some (record c { shards = set c.shards (shard_index c h) s' }, r)

  unfoldable pub get : Cache P → List ℕ → ℕ → Option (Cache P × Option (List ℕ))
  get c key now_us = with_shard c (hash key) (λ s. some (Shard.get s (hash key) now_us))

  -- Times in microseconds; a `time.Duration` is in nanoseconds.
  unfoldable pub deadline : Cache P → ℕ → ℕ → ℕ
  deadline c now_us ttl =
      let chosen = if lt_i64 0 ttl then ttl else c.default_ttl in
      if lt_i64 0 chosen then add64 now_us (chosen / 1000) else 0

  unfoldable pub admit : Env → Cache P → List ℕ → List ℕ → ℕ → Option (Cache P × Bool)
  admit env c key value now_us =
      with_shard c (hash key)
        (λ s. Shard.insert_value env s (hash key) value now_us (deadline c now_us 0) true)

  unfoldable pub put : Env → Cache P → List ℕ → List ℕ → ℕ → ℕ → Option (Cache P × Bool)
  put env c key value ttl now_us =
      with_shard c (hash key)
        (λ s. Shard.insert_value env s (hash key) value now_us (deadline c now_us ttl) false)

  unfoldable pub delete : Cache P → List ℕ → Option (Cache P × Bool)
  delete c key = with_shard c (hash key) (λ s. some (Shard.remove s (hash key)))

-- `Stats`, less the policy's name.
pub record Stats : Type 0 where
  pub hits : ℕ
  pub misses : ℕ
  pub hit_bytes : ℕ
  pub miss_bytes : ℕ
  pub admissions : ℕ
  pub rejections : ℕ
  pub evictions : ℕ
  pub expirations : ℕ
  pub objects : ℕ
  pub bytes_used : ℕ
  pub bytes_capacity : ℕ
  pub evict_ns_mean : ℕ
  pub evict_ns : ℕ
  pub evict_sample : ℕ

abbrev pub zero_stats : Stats
zero_stats = record {
  hits = 0;
  misses = 0;
  hit_bytes = 0;
  miss_bytes = 0;
  admissions = 0;
  rejections = 0;
  evictions = 0;
  expirations = 0;
  objects = 0;
  bytes_used = 0;
  bytes_capacity = 0;
  evict_ns_mean = 0;
  evict_ns = 0;
  evict_sample = 0;
}

module _ {P : Policy} where
  -- The body of the loop of `Snapshot`.
  unfoldable pub add_shard : Stats → Shard P → Stats
  add_shard st s = record st {
    hits = add64 st.hits s.hits;
    misses = add64 st.misses s.misses;
    hit_bytes = add64 st.hit_bytes s.hit_bytes;
    miss_bytes = add64 st.miss_bytes s.miss_bytes;
    admissions = add64 st.admissions s.admissions;
    rejections = add64 st.rejections s.rejects;
    evictions = add64 st.evictions s.evictions;
    expirations = add64 st.expirations s.expirations;
    objects = add64 st.objects (length s.m);
    bytes_used = add64 st.bytes_used s.used;
    bytes_capacity = add64 st.bytes_capacity s.capacity;
    evict_ns = add64 st.evict_ns s.evict_ns;
    evict_sample = add64 st.evict_sample s.evict_sample;
  }

  unfoldable pub sum_shards : Stats → List (Shard P) → Stats
  sum_shards st [] = st
  sum_shards st (s ∷ ss) = sum_shards (add_shard st s) ss

  unfoldable pub snapshot : Cache P → Stats
  snapshot c =
      let st = sum_shards zero_stats c.shards in
      if ltb 0 st.evict_sample
      then record st { evict_ns_mean = st.evict_ns / st.evict_sample }
      else st
