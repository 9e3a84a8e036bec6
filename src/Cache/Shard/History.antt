-- ===== src/Cache/Shard/History.antt =====
-- A shard under any sequence of calls, against an ideal store that loses nothing: the last accepted
-- write of each key, with its deadline.
use belady.Common.{
  ℕ, ◌<◌, ◌^◌, ◌≡◌, ◌⊎◌, ◌≢◌, refl, Option, none, some, List, [], ◌∷◌, Map, length, Bool, true,
  false, ◌==◌, if◌then◌else◌, arith, inl, inr, Bool-cases, All, ◌>>=◌,
}
use belady.Cache.Entry.{Entry}
use belady.Cache.Policy.{Policy}
use belady.Cache.Policy.Laws.{IsLawful, stored}
use belady.Cache.Shard.{Shard, Env, get, remove, insert_value}
use belady.Cache.Shard.Invariant.{IsValid, get-IsValid, remove-IsValid}
use belady.Cache.Shard.Eviction.{Fewer}
use belady.Cache.Shard.Insert.{insert_value-Inserted}
use belady.Cache.Shard.Store.{has_passed, at_time, value_of, get_refines, remove_refines}

pub data Op : Type 0 where
  read : ℕ → ℕ → Op
  write : ℕ → List ℕ → ℕ → ℕ → Bool → Op
  delete : ℕ → Op

pub data Reply : Type 0 where
  value : Option (List ℕ) → Reply
  accepted : Bool → Reply
  existed : Bool → Reply

abbrev pub Ideal : Type 0
Ideal = ℕ → Option (List ℕ × ℕ)

abbrev pub update : Ideal → ℕ → Option (List ℕ × ℕ) → Ideal
update ideal k v j = if k == j then v else ideal j

-- An accepted write replaces what the key had, a delete forgets it, a read changes nothing.
abbrev pub note : Ideal → Op → Reply → Ideal
note ideal (read k now_us) r = ideal
note ideal (write k v now_us expires on_miss) (accepted true) = update ideal k (some (v, expires))
note ideal (write k v now_us expires on_miss) r = ideal
note ideal (delete k) r = update ideal k none

-- A read that returns a value returns the ideal one, before its deadline.
abbrev pub Honest : Ideal → Op → Reply → Type 0
Honest ideal (read k now_us) (value (some v)) =
    (expires : ℕ) × (ideal k ≡ some (v, expires)) × (has_passed expires now_us ≡ false)
Honest ideal op r = Unit

abbrev pub AllHonest : Ideal → List Op → List Reply → Type 0
AllHonest ideal [] [] = Unit
AllHonest ideal [] (r ∷ rs) = ⊥
AllHonest ideal (op ∷ ops) [] = ⊥
AllHonest ideal (op ∷ ops) (r ∷ rs) = Honest ideal op r × AllHonest (note ideal op r) ops rs

-- A value's length is within int32.
abbrev pub IsShort : Op → Type 0
IsShort (read k now_us) = Unit
IsShort (write k v now_us expires on_miss) = length v < 2 ^ 31
IsShort (delete k) = Unit

pub record Tracks {P : Policy} (s : Shard P) (ideal : Ideal) : Type 0 where
  pub valid : IsValid s
  pub lossy : (k : ℕ) → (stored k s.m ≡ none) ⊎ (stored k s.m ≡ ideal k)

module _ {P : Policy} (env : Env) where
  unfoldable pub step : Shard P → Op → Option (Shard P × Reply)
  step s (read k now_us) = let (t, v) = get s k now_us in some (t, value v)
  step s (write k v now_us expires on_miss) = elim (insert_value env s k v now_us expires on_miss) [
    | none ↦ none
    | some (t, done) ↦ some (t, accepted done)
  ]
  step s (delete k) = let (t, done) = remove s k in some (t, existed done)

  unfoldable pub run : Shard P → List Op → Option (Shard P × List Reply)
  run s [] = some (s, [])
  run s (op ∷ ops) = do (t, r) ← step s op; (u, rs) ← run t ops; some (u, r ∷ rs)

module _ {P : Policy} (env : Env) (lawful : IsLawful P) where
  record Stepped (ideal : Ideal) (op : Op) (out : Option (Shard P × Reply)) : Type 0 where
    shard : Shard P
    reply : Reply
    ends : out ≡ some (shard, reply)
    tracks : Tracks shard (note ideal op reply)
    honest : Honest ideal op reply

  read-Honest :
      (ideal : Ideal) (k now_us : ℕ) (o : Option (List ℕ × ℕ))
      → (o ≡ none) ⊎ (o ≡ ideal k)
      → Honest ideal (read k now_us) (value (value_of (at_time now_us o)))
  unfolding value_of at_time
  read-Honest ideal k now_us none h = tt
  read-Honest ideal k now_us (some (v, expires)) h = elim (Bool-cases (has_passed expires now_us)) [
    | inl stale ↦ rw (stale, at_time, value_of) tt
    | inr fresh ↦ rw fresh (expires, ground arith, fresh)
  ]

  write-lossy :
      (done : Bool) (old new : Map Entry) (ideal : Ideal) (k : ℕ) (v : List ℕ) (now_us expires : ℕ)
      (on_miss : Bool)
      → ((j : ℕ) → (stored j old ≡ none) ⊎ (stored j old ≡ ideal j))
      → (done ≡ true → stored k new ≡ some (v, expires))
      → ((j : ℕ) → k ≢ j → (stored j new ≡ none) ⊎ (stored j new ≡ stored j old))
      → (done ≡ false → Fewer new old)
      → (j : ℕ)
      → let after = note ideal (write k v now_us expires on_miss) (accepted done) in
        (stored j new ≡ none) ⊎ (stored j new ≡ after j)
  write-lossy true old new ideal k v now_us expires on_miss lossy written others refused j =
      ground (arith, lossy j, written refl, others j)
  write-lossy false old new ideal k v now_us expires on_miss lossy written others refused j =
      ground (arith, lossy j, refused refl j)

  at_time-cases :
      (now_us : ℕ) (o : Option (List ℕ × ℕ)) → (at_time now_us o ≡ none) ⊎ (at_time now_us o ≡ o)
  unfolding at_time
  at_time-cases now_us none = inl refl
  at_time-cases now_us (some (v, expires)) = ground arith

  step-Stepped :
      (s : Shard P) (ideal : Ideal) (op : Op)
      → IsShort op
      → Tracks s ideal
      → Stepped ideal op (step env s op)
  unfolding step
  step-Stepped s ideal (read k now_us) short t =
      let (out, kept) = get_refines s k now_us lawful in
      record {
        shard = (get s k now_us).0;
        reply = value (get s k now_us).1;
        ends = refl;
        tracks = record {
          valid = get-IsValid s k now_us lawful t.valid;
          lossy = λ j. ground (arith, kept j, t.lossy j, at_time-cases now_us (stored k s.m));
        };
        honest = rw out (read-Honest ideal k now_us (stored k s.m) (t.lossy k));
      }
  step-Stepped s ideal (write k v now_us expires on_miss) short t =
      let r = insert_value-Inserted env s k v now_us expires on_miss lawful t.valid short in
      rw (r.ends, step)
        (record {
          shard = r.shard;
          reply = accepted r.accepted;
          ends = refl;
          tracks = record {
            valid = r.valid;
            lossy =
                write-lossy r.accepted s.m r.shard.m ideal k v now_us expires on_miss t.lossy
                  r.written r.others r.refused;
          };
          honest = tt;
        })
  step-Stepped s ideal (delete k) short t =
      let (_, kept) = remove_refines s k in
      record {
        shard = (remove s k).0;
        reply = existed (remove s k).1;
        ends = refl;
        tracks = record {
          valid = remove-IsValid s k t.valid;
          lossy = λ j. ground (arith, kept j, t.lossy j);
        };
        honest = tt;
      }

  -- Under a lawful policy and from a valid shard that holds nothing beyond an ideal map, any
  -- sequence of reads, deletes and writes of less than 2 ^ 31 bytes ends, in a valid shard, and
  -- every value that a read returned is the ideal map's or the last accepted write of its key, not
  -- deleted since and before its deadline.
  pub run-AllHonest :
      (ops : List Op) (s : Shard P) (ideal : Ideal)
      → All IsShort ops
      → Tracks s ideal
      → (t : Shard P) × (rs : List Reply) × (run env s ops ≡ some (t, rs))
        × IsValid t
        × AllHonest ideal ops rs
  unfolding run
  run-AllHonest [] s ideal short t = (s, [], refl, t.valid, tt)
  run-AllHonest (op ∷ ops) s ideal short t =
      let r = step-Stepped s ideal op short.0 t in
      let (u, rs, ends, valid, honest) =
        run-AllHonest ops r.shard (note ideal op r.reply) short.1 r.tracks in
      (u, r.reply ∷ rs, rw (r.ends, ends), valid, (r.honest, honest))
