-- ===== src/Cache/Shard/Eviction.antt =====
-- The eviction loop of `insert`.
use belady.Common.{
  ℕ, zero, suc, ◌+◌, ◌≤◌, ◌<◌, ◌≡◌, ◌⊎◌, refl, Option, none, some, Map, lookup, erase, length, Bool,
  true, false, if◌then◌else◌, arith, inl, inr, sym, ◌∙◌, Option-cases, Bool-cases, length-erase,
  add64-eq, lt_i64-eq, lt_i64, add64, ltb,
}
use belady.Cache.Entry.{Entry}
use belady.Cache.Policy.{Policy, Candidates}
use belady.Cache.Policy.Laws.{
  SameShape, IsLawful, stored, total-shape, length-shape, Distinct-shape, IsSound-shape,
  stored-shape, stored-erase,
}
use belady.Cache.Shard.{
  Shard, Env, values, drop_entry, after_victim, evict_named, evict_one, make_room,
}
use belady.Cache.Shard.Invariant.{IsValid, drop_entry-IsValid}

-- Every key of `n` has what it has in `m`, or nothing.
abbrev pub Fewer : Map Entry → Map Entry → Type 0
Fewer n m = (k : ℕ) → (stored k n ≡ none) ⊎ (stored k n ≡ stored k m)

pub Fewer-trans : (a b c : Map Entry) → Fewer a b → Fewer b c → Fewer a c
Fewer-trans a b c f g k = ground (arith, f k, g k)

pub Fewer-erase : (k : ℕ) (m : Map Entry) → Fewer (erase k m) m
Fewer-erase k m j = ground (arith, stored-erase k j m)

-- What an attempt to evict does: it fails and the same entries stay, or one entry goes.
pub record Evicted {P : Policy} (s t : Shard P) (done : Bool) : Type 0 where
  pub valid : IsValid t
  pub fewer : Fewer t.m s.m
  pub capacity : t.capacity ≡ s.capacity
  pub count : (if done then length t.m + 1 else length t.m) ≡ length s.m

-- What the loop does: it ends, with a valid shard of fewer entries, and with room if it says so.
pub record MadeRoom {P : Policy} (s : Shard P) (size : ℕ) (out : Option (Shard P × Bool))
    : Type 0 where
  pub shard : Shard P
  pub made : Bool
  pub ends : out ≡ some (shard, made)
  pub valid : IsValid shard
  pub fewer : Fewer shard.m s.m
  pub capacity : shard.capacity ≡ s.capacity
  pub room : made ≡ true → shard.used + size ≤ s.capacity

after_eviction :
    {P : Policy} (s t : Shard P) (size : ℕ) (out : Option (Shard P × Bool))
    → t.capacity ≡ s.capacity
    → Fewer t.m s.m
    → MadeRoom t size out
    → MadeRoom s size out
after_eviction s t size out same fewer r = record {
  shard = r.shard;
  made = r.made;
  ends = r.ends;
  valid = r.valid;
  fewer = Fewer-trans r.shard.m t.m s.m r.fewer fewer;
  capacity = r.capacity ∙ same;
  room = λ e. rw (← same) (r.room e);
}

module _ {P : Policy} (env : Env) (lawful : IsLawful P) where
  evict_named-Evicted :
      (s : Shard P) (k : ℕ) → IsValid s → let (t, done) = evict_named s k in Evicted s t done
  unfolding evict_named drop_entry
  evict_named-Evicted s k v = elim (Option-cases (lookup k s.m)) [
    | inl absent ↦
        rw (absent, evict_named)
          (record { valid = v; fewer = λ j. inr refl; capacity = refl; count = refl })
    | inr (e, held) ↦
        rw (held, evict_named)
          (record {
            valid = drop_entry-IsValid s k e v held;
            fewer = Fewer-erase k s.m;
            capacity = refl;
            count = length-erase k s.m e v.distinct held;
          })
  ]

  after_victim-Evicted :
      (s : Shard P) (m' : Map Entry) (st : P.State)
      → SameShape s.m m'
      → IsValid s
      → Evicted s (after_victim env s m' st) false
  unfolding after_victim
  after_victim-Evicted s m' st same v = record {
    valid = record {
      distinct = Distinct-shape s.m m' same v.distinct;
      sound = IsSound-shape s.m m' same v.sound;
      accounted = v.accounted ∙ sym (total-shape s.m m' same);
      fits = v.fits;
      small = v.small;
    };
    fewer = λ k. inr (stored-shape k s.m m' same);
    capacity = refl;
    count = length-shape s.m m' same;
  }

  Evicted-trans :
      (s t u : Shard P) (done : Bool) → Evicted s t false → Evicted t u done → Evicted s u done
  Evicted-trans s t u done p q = record {
    valid = q.valid;
    fewer = Fewer-trans u.m t.m s.m q.fewer p.fewer;
    capacity = q.capacity ∙ p.capacity;
    count = q.count ∙ p.count;
  }

  pub evict_one-Evicted :
      (s : Shard P) (now_us : ℕ)
      → IsValid s
      → let (t, done) = evict_one env s now_us in Evicted s t done
  unfolding evict_one
  evict_one-Evicted s now_us v =
      let seen : Candidates = record {
        entries = s.m;
        order = env.order s.evictions_tried (values s.m);
      } in
      let (victim, m', st) = P.victim seen now_us s.policy in
      let t = after_victim env s m' st in
      let asked = after_victim-Evicted s m' st (lawful.victim_keeps seen now_us s.policy) v in
      elim (Option-cases victim) [
        | inl nobody ↦ rw (nobody, evict_one) asked
        | inr (k, named) ↦
            rw (named, evict_one)
              (Evicted-trans s t (evict_named t k).0 (evict_named t k).1 asked
                (evict_named-Evicted t k asked.valid))
      ]

  -- Under a lawful policy, on a valid shard, for a size within its capacity and with more rounds
  -- than the shard has entries, the eviction loop ends in a valid shard of the same capacity with
  -- no new or changed value, and if it reports room, the size fits.
  pub make_room-MadeRoom :
      (fuel : ℕ) (s : Shard P) (size now_us : ℕ)
      → length s.m < fuel
      → size ≤ s.capacity
      → IsValid s
      → MadeRoom s size (make_room env fuel s size now_us)
  unfolding make_room
  make_room-MadeRoom zero s size now_us more le v = absurd (omega arith)
  make_room-MadeRoom (suc fuel) s size now_us more le v =
      let test : lt_i64 s.capacity (add64 s.used size) ≡ ltb s.capacity (s.used + size) =
        rw (add64-eq s.used size (omega arith))
          (lt_i64-eq s.capacity (s.used + size) (omega arith) (omega arith)) in
      let t = (evict_one env s now_us).0 in
      let step = evict_one-Evicted s now_us v in
      elim (Bool-cases (ltb s.capacity (s.used + size))) [
        | inr enough ↦
            rw (test, enough)
              (record {
                shard = s;
                made = true;
                ends = refl;
                valid = v;
                fewer = λ k. inr refl;
                capacity = refl;
                room = λ _. ground arith;
              })
        | inl full ↦ elim (Bool-cases (evict_one env s now_us).1) [
          | inr stuck ↦
              rw (test, full, stuck)
                (record {
                  shard = record t { rejects = add64 t.rejects 1 };
                  made = false;
                  ends = refl;
                  valid = step.valid;
                  fewer = step.fewer;
                  capacity = step.capacity;
                  room = λ e. absurd (cc);
                })
          | inl gone ↦
              let count : length t.m + 1 ≡ length s.m = rw gone at step.count in
              rw (test, full, gone)
                (after_eviction s t size _ step.capacity step.fewer (
                  make_room-MadeRoom fuel t size now_us (omega arith) (rw step.capacity le)
                    step.valid))
        ]
      ]
