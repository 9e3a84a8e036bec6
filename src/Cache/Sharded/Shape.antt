-- ===== src/Cache/Sharded/Shape.antt =====
-- The shape of a cache that `New` builds.
use Prim.Native.Nat.{bit_and}
use native.Mathlib.Nat.{mod-lt, one-le-pow}
use belady.Common.{
  ℕ, zero, suc, ◌+◌, ◌-◌, ◌*◌, ◌/◌, ◌%◌, ◌^◌, ◌≤◌, ◌<◌, ◌≡◌, refl, ap, ◌∙◌, true, false, Option,
  List, All, All-map, length, if◌then◌else◌, ◌==◌, arith, lt→ltb, le→ltb, lt_i64, lt_i64-eq, sub64,
  sub64-eq, bit_and_mask, inl, inr, Option-cases,
}
use belady.Cache.Policy.{Policy}
use belady.Cache.Shard.{new_shard}
use belady.Cache.Shard.Invariant.{IsValid}
use belady.Cache.Sharded.{Cache, Config, ok, round_shards, make_shards, new, shard_index}
use belady.Trace.Ring.{Ring, round_up_pow2}
use belady.Trace.Ring.Size.{round_up_pow2_bounds}

-- For a count from 1 to 2 ^ 63 - 1, the cache's RoundShards and the trace recorder's roundUpPow2
-- agree.
pub round_shards-eq : (n : ℕ) → 1 ≤ n → n < 2 ^ 63 → round_shards n ≡ round_up_pow2 n
unfolding round_shards round_up_pow2
round_shards-eq n lo hi =
    rw
      (lt_i64-eq 0 n (omega arith) hi, lt_i64-eq n 1 hi (omega arith), lt→ltb 0 n lo, le→ltb n 1 lo)

-- `2 ^ k` shards, each of them valid, and a mask of `k` ones.
pub record IsSharded {P : Policy} (k : ℕ) (c : Cache P) : Type 0 where
  pub count : length c.shards ≡ 2 ^ k
  pub masked : c.mask ≡ 2 ^ k - 1
  pub valid : All IsValid c.shards

-- On a cache of 2 ^ k shards the masked hash is the hash modulo their number, and an index in
-- range.
pub shard_index-lt :
    {P : Policy} (k h : ℕ) (c : Cache P)
    → IsSharded k c
    → (shard_index c h ≡ h % 2 ^ k) × (shard_index c h < length c.shards)
unfolding shard_index
shard_index-lt k h c v =
    let e : bit_and h c.mask ≡ h % 2 ^ k = rw v.masked (bit_and_mask k h) in
    (e, rw (e, v.count) (mod-lt h (one-le-pow k 2 (omega arith))))

make_shards-facts :
    (P : Policy) (n per : ℕ) (new_state : ℕ → P.State) (trace : Option (List Ring)) (i : ℕ)
    → per < 2 ^ 62
    → (length (make_shards {P = P} n per new_state trace i) ≡ n)
      × All (λ s. IsValid s × (s.capacity ≡ per)) (make_shards {P = P} n per new_state trace i)
unfolding make_shards new_shard
make_shards-facts P zero per new_state trace i small = (refl, tt)
make_shards-facts P (suc n) per new_state trace i small =
    let (count, all) = make_shards-facts P n per new_state trace (i + 1) small in
    (
      ap suc count,
      (
        (
          record { distinct = tt; sound = tt; accounted = refl; fits = omega arith; small = small },
          refl,
        ),
        all,
      ),
    )

module _ {P : Policy} where
  -- The last branch of `New` is the only one that makes a cache.
  new-inverted :
      (cfg : Config P) (c : Cache P) (n : ℕ)
      → round_shards (if lt_i64 0 cfg.shards then cfg.shards else 256) ≡ n
      → new cfg ≡ ok c
      → (new_state : ℕ → P.State) × ((cfg.capacity_bytes / n == 0) ≡ false)
        × (c.shards ≡ make_shards n (cfg.capacity_bytes / n) new_state cfg.trace 0)
        × (c.mask ≡ sub64 n 1)
  unfolding new
  new-inverted cfg c n rounded made = elim (Option-cases cfg.new_state) [
    | inl missing ↦ absurd (ground arith)
    | inr (new_state, given) ↦ (new_state, ground arith, ground arith, ground arith)
  ]

  -- If New accepts a positive number of shards up to 2 ^ 62 and a capacity below 2 ^ 62, the cache
  -- has the least power of two of shards that is at least that number, each valid and with an
  -- equal, positive share of the capacity.
  pub new-IsSharded :
      (cfg : Config P) (c : Cache P)
      → 1 ≤ cfg.shards
      → cfg.shards ≤ 2 ^ 62
      → cfg.capacity_bytes < 2 ^ 62
      → new cfg ≡ ok c
      → (k : ℕ) × IsSharded k c
        × (cfg.shards ≤ 2 ^ k)
        × (2 ^ k < 2 * cfg.shards)
        × All (λ s. s.capacity ≡ cfg.capacity_bytes / 2 ^ k) c.shards
        × (1 ≤ cfg.capacity_bytes / 2 ^ k)
  unfolding new
  new-IsSharded cfg c lo hi small made =
      let (k, rounded, fits, above, below) = round_up_pow2_bounds cfg.shards lo hi in
      let positive : lt_i64 0 cfg.shards ≡ true =
        lt_i64-eq 0 cfg.shards (omega arith) (omega arith) ∙ lt→ltb 0 cfg.shards lo in
      let number : round_shards (if lt_i64 0 cfg.shards then cfg.shards else 256) ≡ 2 ^ k =
        rw positive (round_shards-eq cfg.shards lo (omega arith) ∙ rounded) in
      let (new_state, some_each, shards, mask) = new-inverted cfg c (2 ^ k) number made in
      let per = cfg.capacity_bytes / 2 ^ k in
      let (count, all) = make_shards-facts P (2 ^ k) per new_state cfg.trace 0 (omega arith) in
      (
        k,
        record {
          count = rw shards count;
          masked = mask ∙ sub64-eq (2 ^ k) 1 (omega arith) (omega arith);
          valid = rw shards (All-map _ _ _ (λ s h. h.0) all);
        },
        above,
        below,
        rw shards (All-map _ _ _ (λ s h. h.1) all),
        ground arith,
      )
