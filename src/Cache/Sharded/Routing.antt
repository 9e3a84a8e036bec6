-- ===== src/Cache/Sharded/Routing.antt =====
-- Which shard a call of the cache runs on.
use belady.Common.{
  ℕ, ◌%◌, ◌^◌, ◌<◌, ◌≡◌, ◌≢◌, refl, ap, sym, ◌∙◌, true, false, Option, some, List, length,
  get_elem?, set, All-get, All-set, get_elem?-set_self, get_elem?-set_ne, get_elem?-some,
  length-set,
}
use belady.Cache.Policy.{Policy}
use belady.Cache.Policy.Laws.{IsLawful, stored}
use belady.Cache.Shard
use belady.Cache.Shard.{Shard, Env, insert_value}
use belady.Cache.Shard.Insert.{insert_value-Inserted}
use belady.Cache.Shard.Invariant.{IsValid, get-IsValid}
use belady.Cache.Shard.Store.{has_passed, at_time, value_of, get_refines}
use belady.Cache.Sharded.{Cache, shard_index, with_shard, get, put, deadline, hash}
use belady.Cache.Sharded.Shape.{IsSharded, shard_index-lt}

some_pair_left :
    {A B : Type 0} {a c : A} {b d : B}
    → ◌≡◌ {A = Option (A × B)} (some (a, b)) (some (c, d))
    → a ≡ c
some_pair_left h = cc

some_pair_right :
    {A B : Type 0} {a c : A} {b d : B}
    → ◌≡◌ {A = Option (A × B)} (some (a, b)) (some (c, d))
    → b ≡ d
some_pair_right h = cc

some-inj : {A : Type 0} {a b : A} → some a ≡ some b → a ≡ b
some-inj h = cc

-- A call that ends: its result, and a cache in which only the key's shard is another one.
pub record Routed {P : Policy} {R : Type 0} (k h : ℕ) (c : Cache P)
    (method : Shard P → Option (Shard P × R)) (out : Option (Cache P × R)) : Type 0 where
  pub before : Shard P
  pub after : Shard P
  pub result : R
  pub cache : Cache P
  pub ends : out ≡ some (cache, result)
  pub ran : method before ≡ some (after, result)
  pub found : get_elem? c.shards (h % 2 ^ k) ≡ some before
  pub replaced : get_elem? cache.shards (h % 2 ^ k) ≡ some after
  pub others : (i : ℕ) → i ≢ h % 2 ^ k → get_elem? cache.shards i ≡ get_elem? c.shards i
  pub ttl : cache.default_ttl ≡ c.default_ttl
  pub sharded : IsSharded k cache

module _ {P : Policy} where
  -- If the method ends on a valid shard, in a valid shard, so does the call.
  pub with_shard-Routed :
      {R : Type 0} (k h : ℕ) (c : Cache P) (method : Shard P → Option (Shard P × R))
      → IsSharded k c
      → ((s : Shard P) → IsValid s → (t : Shard P) × (r : R) × (method s ≡ some (t, r)) × IsValid t)
      → Routed k h c method (with_shard c h method)
  unfolding with_shard
  with_shard-Routed k h c method v total =
      let (index, inside) = shard_index-lt k h c v in
      let i = shard_index c h in
      let (s, found) = get_elem?-some c.shards i inside in
      let (t, r, ran, valid) = total s (All-get IsValid c.shards i s v.valid found) in
      record {
        before = s;
        after = t;
        result = r;
        cache = record c { shards = set c.shards i t };
        ends = rw (found, ran);
        ran = ran;
        found = rw index at found;
        replaced = rw (← index) (get_elem?-set_self c.shards i t inside);
        others = λ j ne. get_elem?-set_ne c.shards t (λ e. ne (sym e ∙ index));
        ttl = refl;
        sharded = record {
          count = length-set c.shards i t ∙ v.count;
          masked = v.masked;
          valid = All-set IsValid c.shards i t v.valid valid;
        };
      }

  -- A read always ends, touches the key's shard alone, and keeps the cache valid.
  pub get-Routed :
      (k : ℕ) (c : Cache P) (key : List ℕ) (now_us : ℕ)
      → IsLawful P
      → IsSharded k c
      → Routed k (hash key) c (λ s. some (Shard.get s (hash key) now_us)) (get c key now_us)
  unfolding get
  get-Routed k c key now_us lawful v =
      with_shard-Routed k (hash key) c (λ s. some (Shard.get s (hash key) now_us)) v
        (λ s valid. (
          (Shard.get s (hash key) now_us).0,
          (Shard.get s (hash key) now_us).1,
          refl,
          get-IsValid s (hash key) now_us lawful valid,
        ))

  -- Under a lawful policy and on a valid cache of 2 ^ k shards, a Put of less than 2 ^ 31 bytes
  -- ends, runs insert on the shard that the key's hash selects, changes no other shard, and leaves
  -- a valid cache.
  pub put-Routed :
      (env : Env) (k : ℕ) (c : Cache P) (key value : List ℕ) (ttl now_us : ℕ)
      → IsLawful P
      → IsSharded k c
      → length value < 2 ^ 31
      → Routed k
          (hash key)
          c
          (λ s. insert_value env s (hash key) value now_us (deadline c now_us ttl) false)
          (put env c key value ttl now_us)
  unfolding put
  put-Routed env k c key value ttl now_us lawful v short =
      with_shard-Routed k (hash key) c
        (λ s. insert_value env s (hash key) value now_us (deadline c now_us ttl) false) v
        (λ s valid.
          let r =
            insert_value-Inserted env s (hash key) value now_us (deadline c now_us ttl) false lawful
              valid short in
          (r.shard, r.accepted, r.ends, r.valid))

  -- Under a lawful policy and on a valid cache, after an accepted Put of less than 2 ^ 31 bytes a
  -- Get of the key at a time that is not past the deadline returns the value.
  pub get-put :
      (env : Env) (k : ℕ) (c c' : Cache P) (key value : List ℕ) (ttl now_us later_us : ℕ)
      → IsLawful P
      → IsSharded k c
      → length value < 2 ^ 31
      → put env c key value ttl now_us ≡ some (c', true)
      → has_passed (deadline c now_us ttl) later_us ≡ false
      → (c'' : Cache P) × (get c' key later_us ≡ some (c'', some value))
  unfolding at_time value_of
  get-put env k c c' key value ttl now_us later_us lawful v short written fresh =
      let w = put-Routed env k c key value ttl now_us lawful v short in
      let same_cache : c' ≡ w.cache = some_pair_left (sym written ∙ w.ends) in
      let done : true ≡ w.result = some_pair_right (sym written ∙ w.ends) in
      let valid = All-get IsValid c.shards _ w.before v.valid w.found in
      let r =
        insert_value-Inserted env w.before (hash key) value now_us (deadline c now_us ttl) false
          lawful valid short in
      let shard : r.shard ≡ w.after = some_pair_left (sym r.ends ∙ w.ran) in
      let accepted : r.accepted ≡ w.result = some_pair_right (sym r.ends ∙ w.ran) in
      let here : stored (hash key) w.after.m ≡ some (value, deadline c now_us ttl) =
        rw (← shard) (r.written (accepted ∙ sym done)) in
      let g = get-Routed k w.cache key later_us lawful w.sharded in
      let met : g.before ≡ w.after = some-inj (sym g.found ∙ w.replaced) in
      let out = (get_refines g.before (hash key) later_us lawful).0 in
      let answer : (Shard.get g.before (hash key) later_us).1 ≡ some value =
        out ∙ rw (met, here, at_time, fresh) refl in
      (
        g.cache,
        rw same_cache (g.ends ∙ ap (λ x. some (g.cache, x)) (sym (some_pair_right g.ran) ∙ answer)),
      )
