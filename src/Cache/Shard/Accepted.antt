-- ===== src/Cache/Shard/Accepted.antt =====
-- Under a policy that never gives up, `insert` takes every object that fits the shard.
use belady.Common.{
  ℕ, zero, suc, ◌+◌, ◌≤◌, ◌<◌, ◌≡◌, ◌≢◌, refl, ◌∙◌, Bool, true, false, none, some, List, [], ◌∷◌,
  Map, lookup, length, arith, inl, inr, Option-cases, Bool-cases, ltb, lt_i64, lt_i64-eq, le→ltb,
  add64, add64-eq, All-lookup, ==_refl,
}
use belady.Cache.Entry.{Entry}
use belady.Cache.Policy.{Policy, Candidates}
use belady.Cache.Policy.Laws.{IsLawful, IsLive, IsSound, IsSound-shape, total}
use belady.Cache.Shard.{
  Shard, Env, values, fresh_entry, drop_entry, after_victim, evict_named, evict_one, make_room,
  admit, drop_old, count_miss, insert_counted, insert_value,
}
use belady.Cache.Shard.Invariant.{IsValid}
use belady.Cache.Shard.Eviction.{evict_one-Evicted}
use belady.Cache.Shard.Insert.{drop_old-facts}

-- A shard that holds bytes holds a key.
some_key : (m : Map Entry) → 0 < total m → (k : ℕ) × (lookup k m ≢ none)
unfolding lookup
some_key [] h = absurd (omega arith)
some_key ((k, e) ∷ m) h = (k, λ absent. let held : some e ≡ none = rw (==_refl k) at absent in cc)

module _ {P : Policy} (env : Env) (lawful : IsLawful P) (Ok : Map Entry → P.State → Type 0)
    (live : IsLive P Ok) where
  evict_one-live :
      (s : Shard P) (now_us k : ℕ)
      → IsValid s
      → Ok s.m s.policy
      → lookup k s.m ≢ none
      → let (t, done) = evict_one env s now_us in (done ≡ true) × Ok t.m t.policy
  unfolding evict_one after_victim evict_named drop_entry
  evict_one-live s now_us k v good held =
      let seen : Candidates = record {
        entries = s.m;
        order = env.order s.evictions_tried (values s.m);
      } in
      let (j, e, named, there, next) = live.names seen now_us k s.policy good held in
      let m' = (P.victim seen now_us s.policy).1 in
      let sound = IsSound-shape s.m m' (lawful.victim_keeps seen now_us s.policy) v.sound in
      let keyed : e.key ≡ j = (All-lookup IsSound j m' e sound there).0 in
      rw (named, evict_one) (rw (there, evict_named) (refl, next keyed))

  -- The eviction loop makes room.
  make_room-room :
      (fuel : ℕ) (s : Shard P) (size now_us : ℕ)
      → length s.m < fuel
      → size ≤ s.capacity
      → IsValid s
      → Ok s.m s.policy
      → (t : Shard P) × (make_room env fuel s size now_us ≡ some (t, true)) × Ok t.m t.policy
  unfolding make_room
  make_room-room zero s size now_us more le v good = absurd (omega arith)
  make_room-room (suc fuel) s size now_us more le v good =
      let test : lt_i64 s.capacity (add64 s.used size) ≡ ltb s.capacity (s.used + size) =
        rw (add64-eq s.used size (omega (arith, v.fits, v.small))) (
          lt_i64-eq s.capacity (s.used + size) (omega (arith, v.small))
            (omega (arith, v.fits, v.small))) in
      elim (Bool-cases (ltb s.capacity (s.used + size))) [
        | inr enough ↦ (s, rw (test, enough) refl, good)
        | inl full ↦
            let (k, held) = some_key s.m (ground (arith, v.accounted)) in
            let t = (evict_one env s now_us).0 in
            let step = evict_one-Evicted env lawful s now_us v in
            let (gone, good') = evict_one-live s now_us k v good held in
            let count : length t.m + 1 ≡ length s.m = rw gone at step.count in
            let (u, ends, kept) =
              make_room-room fuel t size now_us (omega arith) (rw step.capacity le) step.valid
                good' in
            (u, rw (test, full, gone) ends, kept)
      ]

  drop_old-Ok :
      (s : Shard P) (k : ℕ)
      → IsValid s
      → Ok s.m s.policy
      → Ok (drop_old s k).m (drop_old s k).policy
  unfolding drop_old drop_entry
  drop_old-Ok s k v good = elim (Option-cases (lookup k s.m)) [
    | inl absent ↦ rw (absent, drop_old) good
    | inr (e, held) ↦
        rw (held, drop_old)
          (live.removes s.m s.policy k e good (All-lookup IsSound k s.m e v.sound held).0)
  ]

  insert_counted-accepted :
      (s : Shard P) (k : ℕ) (value : List ℕ) (now_us expires : ℕ)
      → IsValid s
      → Ok s.m s.policy
      → length value ≤ s.capacity
      → (t : Shard P) × (insert_counted env s k value now_us expires ≡ some (t, true))
        × Ok t.m t.policy
  unfolding insert_counted admit
  insert_counted-accepted s k value now_us expires v good le =
      let t = drop_old s k in
      let (valid, fewer, gone, same) = drop_old-facts s k v in
      let test : lt_i64 s.capacity (length value) ≡ false =
        lt_i64-eq s.capacity (length value) (omega (arith, v.small)) (omega (arith, v.small, le))
        ∙ le→ltb _ _ le in
      let (u, ends, kept) =
        make_room-room (suc (length t.m)) t (length value) now_us (omega arith) (rw same le) valid
          (drop_old-Ok s k v good) in
      (
        admit u k value now_us expires,
        rw (test, ends) refl,
        live.admits u.m u.policy (fresh_entry k value now_us expires) kept,
      )

  -- An object that fits the shard is accepted.
  pub insert_value-accepted :
      (s : Shard P) (k : ℕ) (value : List ℕ) (now_us expires : ℕ) (on_miss : Bool)
      → IsValid s
      → Ok s.m s.policy
      → length value ≤ s.capacity
      → (t : Shard P) × (insert_value env s k value now_us expires on_miss ≡ some (t, true))
        × Ok t.m t.policy
  unfolding insert_value count_miss
  insert_value-accepted s k value now_us expires true v good le =
      insert_counted-accepted (count_miss s (length value) true) k value now_us expires v good le
  insert_value-accepted s k value now_us expires false v good le =
      insert_counted-accepted (count_miss s (length value) false) k value now_us expires v good le
