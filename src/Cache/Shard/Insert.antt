-- ===== src/Cache/Shard/Insert.antt =====
-- What `insert` does, on each of its branches.
use belady.Common.{
  ℕ, suc, ◌+◌, ◌≤◌, ◌<◌, ◌^◌, ◌≡◌, ◌≢◌, ◌⊎◌, refl, Option, none, some, List, Map, lookup, insert,
  length, Bool, true, false, ltb, ◌==◌, if◌then◌else◌, arith, inl, inr, ap, ◌∙◌, Option-cases,
  Bool-cases, lt_i64-eq, lt_i64, truncate32, truncate32-eq, add64-eq, ==_refl, insert-Distinct,
  All-insert, erase_absent, add64,
}
use belady.Cache.Entry.{Entry}
use belady.Cache.Policy.{Policy}
use belady.Cache.Policy.Laws.{IsLawful, IsSound, total, stored, stored-insert, stored-erase}
use belady.Cache.Shard.{
  Shard, Env, admit, drop_old, drop_entry, fresh_entry, count_miss, insert_counted, insert_value,
}
use belady.Cache.Shard.Invariant.{IsValid, total-insert, drop_entry-IsValid}
use belady.Cache.Shard.Eviction.{Fewer, Fewer-trans, Fewer-erase, make_room-MadeRoom}
use belady.Cache.Shard.Store.{lookup_of_stored, stored_of_lookup}

-- The result of an insert: it ends in a valid shard. An accepted value is stored with its deadline;
-- no other key gains or changes a value, and a refused value changes none.
pub record Inserted {P : Policy} (old : Map Entry) (limit k : ℕ) (value : List ℕ) (expires : ℕ)
    (out : Option (Shard P × Bool)) : Type 0 where
  pub shard : Shard P
  pub accepted : Bool
  pub ends : out ≡ some (shard, accepted)
  pub valid : IsValid shard
  pub capacity : shard.capacity ≡ limit
  pub written : accepted ≡ true → stored k shard.m ≡ some (value, expires)
  pub others : (j : ℕ) → k ≢ j → (stored j shard.m ≡ none) ⊎ (stored j shard.m ≡ stored j old)
  pub refused : accepted ≡ false → Fewer shard.m old

module _ {P : Policy} where
  pub drop_old-facts :
      (s : Shard P) (k : ℕ)
      → IsValid s
      → let t = drop_old s k in
        IsValid t × Fewer t.m s.m × (stored k t.m ≡ none) × (t.capacity ≡ s.capacity)
  unfolding drop_old drop_entry
  drop_old-facts s k v = elim (Option-cases (lookup k s.m)) [
    | inl absent ↦ rw (absent, drop_old) (v, λ j. inr refl, stored_of_lookup k s.m absent, refl)
    | inr (e, held) ↦
        rw (held, drop_old)
          (
            drop_entry-IsValid s k e v held,
            Fewer-erase k s.m,
            stored-erase k k s.m ∙ rw ==_refl refl,
            refl,
          )
  ]

  admit-IsValid :
      (s : Shard P) (k : ℕ) (value : List ℕ) (now_us expires : ℕ)
      → IsLawful P
      → IsValid s
      → stored k s.m ≡ none
      → s.used + length value ≤ s.capacity
      → length value < 2 ^ 31
      → IsValid (admit s k value now_us expires)
  unfolding admit
  admit-IsValid s k value now_us expires lawful v absent room short =
      let e = fresh_entry k value now_us expires in
      let e' = (P.on_admit e s.policy).0 in
      let kept = lawful.admit_keeps e s.policy in
      let size : truncate32 (length value) ≡ length value =
        truncate32-eq (length value) (omega arith) in
      let charged : e'.size ≡ length value = ap (λ (x : Entry). x.size) kept ∙ size in
      let sum : total (insert k e' s.m) ≡ total s.m + length value = omega (
        arith,
        total-insert k s.m e' v.distinct,
        ap total (erase_absent k s.m (lookup_of_stored k s.m absent)),
      ) in
      let used = add64-eq s.used (length value) (omega (arith, v.small)) in
      record {
        distinct = insert-Distinct k e' s.m v.distinct;
        sound = All-insert IsSound k e' s.m v.sound (rw kept (refl, size, rw size short));
        accounted = omega (arith, v.accounted);
        fits = omega arith;
        small = v.small;
      }

  admit-stored :
      (s : Shard P) (k : ℕ) (value : List ℕ) (now_us expires j : ℕ)
      → IsLawful P
      → stored j (admit s k value now_us expires).m
        ≡ (if k == j then some (value, expires) else stored j s.m)
  unfolding admit
  admit-stored s k value now_us expires j lawful =
      let e' = (P.on_admit (fresh_entry k value now_us expires) s.policy).0 in
      let kept = lawful.admit_keeps (fresh_entry k value now_us expires) s.policy in
      stored-insert k j e' s.m
      ∙ ap (λ (x : Entry). if k == j then some (x.value, x.expires) else stored j s.m) kept

  admit-capacity :
      (s : Shard P) (k : ℕ) (value : List ℕ) (now_us expires : ℕ)
      → (admit s k value now_us expires).capacity ≡ s.capacity
  unfolding admit
  admit-capacity s k value now_us expires = refl

  -- The end of the method, from the shard `t` without the old value.
  finish-Inserted :
      (s t roomy : Shard P) (fits : Bool) (k : ℕ) (value : List ℕ) (now_us expires : ℕ)
      → IsLawful P
      → length value < 2 ^ 31
      → Fewer t.m s.m
      → stored k t.m ≡ none
      → t.capacity ≡ s.capacity
      → IsValid roomy
      → Fewer roomy.m t.m
      → roomy.capacity ≡ t.capacity
      → (fits ≡ true → roomy.used + length value ≤ t.capacity)
      → Inserted s.m s.capacity k value expires
          (some (if fits then (admit roomy k value now_us expires, true) else (roomy, false)))
  finish-Inserted s t roomy true k value now_us expires lawful short fewer gone same v less kept
        room =
      let absent : stored k roomy.m ≡ none = ground (arith, less k) in
      record {
        shard = admit roomy k value now_us expires;
        accepted = true;
        ends = refl;
        valid =
            admit-IsValid roomy k value now_us expires lawful v absent (omega (arith, room refl))
              short;
        capacity = admit-capacity roomy k value now_us expires ∙ kept ∙ same;
        written = λ _. admit-stored roomy k value now_us expires k lawful ∙ rw ==_refl refl;
        others = λ j ne.
            ground (arith, admit-stored roomy k value now_us expires j lawful, less j, fewer j);
        refused = λ e. absurd (cc);
      }
  finish-Inserted s t roomy false k value now_us expires lawful short fewer gone same v less kept
        room =
      record {
        shard = roomy;
        accepted = false;
        ends = refl;
        valid = v;
        capacity = kept ∙ same;
        written = λ e. absurd (cc);
        others = λ j ne. ground (arith, less j, fewer j);
        refused = λ _. Fewer-trans roomy.m t.m s.m less fewer;
      }

  insert_counted-Inserted :
      (env : Env) (s : Shard P) (k : ℕ) (value : List ℕ) (now_us expires : ℕ)
      → IsLawful P
      → IsValid s
      → length value < 2 ^ 31
      → Inserted s.m s.capacity k value expires (insert_counted env s k value now_us expires)
  unfolding insert_counted
  insert_counted-Inserted env s k value now_us expires lawful v short =
      let size = length value in
      let t = drop_old s k in
      let (valid, fewer, gone, same) = drop_old-facts s k v in
      let test : lt_i64 s.capacity size ≡ ltb s.capacity size =
        lt_i64-eq s.capacity size (omega (arith, v.small)) (omega arith) in
      elim (Bool-cases (ltb s.capacity size)) [
        | inl over ↦
            rw (test, over)
              (record {
                shard = record s { rejects = add64 s.rejects 1 };
                accepted = false;
                ends = refl;
                valid = v;
                capacity = refl;
                written = λ e. absurd (cc);
                others = λ j ne. inr refl;
                refused = λ _ j. inr refl;
              })
        | inr small ↦
            let within : size ≤ t.capacity = ground arith in
            let r =
              make_room-MadeRoom env lawful (suc (length t.m)) t size now_us (omega arith) within
                valid in
            rw (test, small, r.ends)
              (finish-Inserted s t r.shard r.made k value now_us expires lawful short fewer gone
                same r.valid r.fewer r.capacity r.room)
      ]

  -- Under a lawful policy, on a valid shard and for a value of less than 2 ^ 31 bytes, insert ends
  -- in a valid shard of the same capacity. An accepted value is stored with its deadline; every
  -- other key keeps its value or loses it; a refused insert gives no key a value that it did not
  -- have.
  pub insert_value-Inserted :
      (env : Env) (s : Shard P) (k : ℕ) (value : List ℕ) (now_us expires : ℕ) (on_miss : Bool)
      → IsLawful P
      → IsValid s
      → length value < 2 ^ 31
      → Inserted s.m s.capacity k value expires (insert_value env s k value now_us expires on_miss)
  unfolding insert_value count_miss
  insert_value-Inserted env s k value now_us expires true lawful v short =
      insert_counted-Inserted env (count_miss s (length value) true) k value now_us expires lawful v
        short
  insert_value-Inserted env s k value now_us expires false lawful v short =
      insert_counted-Inserted env (count_miss s (length value) false) k value now_us expires lawful
        v short
