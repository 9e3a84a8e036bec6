-- ===== src/Cache/Shard.antt =====
-- internal/cache/shard.go: one locked slice of the keyspace. A method runs with the lock held from
-- its first line to its last, so it is a function from a shard to the next; it returns the new
-- shard beside its result.
pub mod Invariant
pub mod Eviction
pub mod Store
pub mod Insert
pub mod Accepted
pub mod Taken
pub mod History
use belady.Common.{
  ℕ, zero, suc, ◌+◌, [], ◌∷◌, Bool, true, false, Option, none, some, List, Map, map, lookup, insert,
  erase, length, ltb, if◌then◌else◌, add64, sub64, lt_i64, sign_extend, truncate32,
}
use belady.Cache.Entry.{Entry, expired, touch}
use belady.Cache.Policy.{Policy, Candidates}
use belady.Trace.Ring
use belady.Trace.Ring.{Ring, Record}

-- What the process gives a shard: the clock, by the number of the reading, and the order in which
-- a `range` over the map visits the entries, by the number of the loop.
pub record Env : Type 0 where
  pub nanos : ℕ → ℕ
  pub order : ℕ → List Entry → List Entry

-- `evictions_tried` numbers the calls of the policy: the loop over the map in that call, and (twice
-- as many) the readings of the clock.
pub record Shard (P : Policy) : Type 0 where
  pub m : Map Entry
  pub policy : P.State
  pub ring : Option Ring
  pub used : ℕ
  pub capacity : ℕ
  pub hits : ℕ
  pub misses : ℕ
  pub hit_bytes : ℕ
  pub miss_bytes : ℕ
  pub admissions : ℕ
  pub rejects : ℕ
  pub evictions : ℕ
  pub expirations : ℕ
  pub evict_ns : ℕ
  pub evict_sample : ℕ
  pub evictions_tried : ℕ

pub values : Map Entry → List Entry
values m = map (λ p. p.1) m

unfoldable pub new_shard : (P : Policy) → ℕ → P.State → Option Ring → Shard P
new_shard P capacity policy ring = record {
  m = [];
  policy = policy;
  ring = ring;
  used = 0;
  capacity = capacity;
  hits = 0;
  misses = 0;
  hit_bytes = 0;
  miss_bytes = 0;
  admissions = 0;
  rejects = 0;
  evictions = 0;
  expirations = 0;
  evict_ns = 0;
  evict_sample = 0;
  evictions_tried = 0;
}

-- `record`, on the field that it changes.
unfoldable pub record_access : Option Ring → ℕ → ℕ → ℕ → Bool → Option Ring
record_access none key now_us size hit = none
record_access (some ring) key now_us size hit =
    let rec : Record = record {
      key_hash = key;
      timestamp_us = now_us;
      size_bytes = size;
      hit = hit;
    } in
    some (Ring.push ring rec).0

-- The literal in `insert`.
abbrev pub fresh_entry : ℕ → List ℕ → ℕ → ℕ → Entry
fresh_entry key value now_us expires = record {
  value = value;
  key = key;
  last_access = now_us;
  admitted = now_us;
  expires = expires;
  deltas = 0 ∷ 0 ∷ 0 ∷ 0 ∷ 0 ∷ 0 ∷ 0 ∷ 0 ∷ [];
  size = truncate32 (length value);
  accesses = 1;
  freq = 1;
}

module _ {P : Policy} where
  unfoldable pub drop_entry : Shard P → ℕ → Entry → Shard P
  drop_entry s key e = record s {
    m = erase key s.m;
    used = sub64 s.used (sign_extend e.size);
    policy = P.on_remove e s.policy;
  }

  -- The end of `get`: the entry is there and has not expired.
  unfoldable pub serve : Shard P → ℕ → Entry → ℕ → Shard P × Option (List ℕ)
  serve s key e now_us =
      let (e', policy') = P.on_access (touch e now_us) s.policy in
      (
        record s {
          m = insert key e' s.m;
          policy = policy';
          hits = add64 s.hits 1;
          hit_bytes = add64 s.hit_bytes (sign_extend e'.size);
          ring = record_access s.ring key now_us e'.size true;
        },
        some e'.value,
      )

  unfoldable pub get : Shard P → ℕ → ℕ → Shard P × Option (List ℕ)
  get s key now_us = elim (lookup key s.m) [
    | none ↦ (record s { misses = add64 s.misses 1 }, none)
    | some e ↦
        if expired e now_us
        then (let s' = drop_entry s key e in
            (record s' { expirations = add64 s.expirations 1; misses = add64 s.misses 1 }, none))
        else serve s key e now_us
  ]

  unfoldable pub remove : Shard P → ℕ → Shard P × Bool
  remove s key = elim (lookup key s.m) [ none ↦ (s, false) | some e ↦ (drop_entry s key e, true) ]

  -- The state after the policy was asked: its own, the entries', and the eviction timer's.
  unfoldable pub after_victim : Env → Shard P → Map Entry → P.State → Shard P
  after_victim env s m' policy' =
      let start = env.nanos (s.evictions_tried + s.evictions_tried) in
      let stop = env.nanos (s.evictions_tried + s.evictions_tried + 1) in
      record s {
        m = m';
        policy = policy';
        evict_ns = add64 s.evict_ns (sub64 stop start);
        evict_sample = add64 s.evict_sample 1;
        evictions_tried = s.evictions_tried + 1;
      }

  -- The victim is dropped, if the shard holds it.
  unfoldable pub evict_named : Shard P → ℕ → Shard P × Bool
  evict_named s victim = elim (lookup victim s.m) [
    | none ↦ (s, false)
    | some e ↦
        let s' = drop_entry s victim e in (record s' { evictions = add64 s.evictions 1 }, true)
  ]

  unfoldable pub evict_one : Env → Shard P → ℕ → Shard P × Bool
  evict_one env s now_us =
      let seen : Candidates = record {
        entries = s.m;
        order = env.order s.evictions_tried (values s.m);
      } in
      let (victim, m', policy') = P.victim seen now_us s.policy in
      let s' = after_victim env s m' policy' in
      elim victim [ none ↦ (s', false) | some key ↦ evict_named s' key ]

  -- The loop of `insert`, which stops when the object fits or nothing can be evicted; `none` if
  -- `fuel` rounds are not enough.
  unfoldable pub make_room : Env → ℕ → Shard P → ℕ → ℕ → Option (Shard P × Bool)
  make_room env zero s size now_us = none
  make_room env (suc fuel) s size now_us =
      let (s', evicted) = evict_one env s now_us in
      let rest = make_room env fuel s' size now_us in
      if lt_i64 s.capacity (add64 s.used size)
      then (if evicted then rest else some (record s' { rejects = add64 s'.rejects 1 }, false))
      else some (s, true)

  -- The end of `insert`: there is room.
  unfoldable pub admit : Shard P → ℕ → List ℕ → ℕ → ℕ → Shard P
  admit s key value now_us expires =
      let size = length value in
      let (e', policy') = P.on_admit (fresh_entry key value now_us expires) s.policy in
      record s {
        m = insert key e' s.m;
        used = add64 s.used size;
        policy = policy';
        admissions = add64 s.admissions 1;
        ring = record_access s.ring key now_us (truncate32 size) false;
      }

  -- The old value goes before room is made.
  unfoldable pub drop_old : Shard P → ℕ → Shard P
  drop_old s key = elim (lookup key s.m) [ none ↦ s | some old ↦ drop_entry s key old ]

  unfoldable pub count_miss : Shard P → ℕ → Bool → Shard P
  count_miss s size on_miss =
      if on_miss then record s { miss_bytes = add64 s.miss_bytes size } else s

  -- What follows the count of missed bytes. The eviction loop has a round for each entry, and one
  -- to find that the object fits.
  unfoldable pub insert_counted : Env → Shard P → ℕ → List ℕ → ℕ → ℕ → Option (Shard P × Bool)
  insert_counted env s key value now_us expires =
      let size = length value in
      let s' = drop_old s key in
      if lt_i64 s.capacity size
      then some (record s { rejects = add64 s.rejects 1 }, false)
      else (elim (make_room env (suc (length s'.m)) s' size now_us) [
        | none ↦ none
        | some (roomy, fits) ↦
            some (if fits then (admit roomy key value now_us expires, true) else (roomy, false))
      ])

  unfoldable pub insert_value : Env → Shard P → ℕ → List ℕ → ℕ → ℕ → Bool → Option (Shard P × Bool)
  insert_value env s key value now_us expires on_miss =
      insert_counted env (count_miss s (length value) on_miss) key value now_us expires
