-- ===== src/Tests/Shards.antt =====
-- A shard of 10 bytes under S3-FIFO, empty and with one entry.
use belady.Common.{
  ℕ, ◌≡◌, ◌≢◌, ◌↔◌, inl, refl, true, false, none, some, List, [], ◌∷◌, Map, lookup, insert,
  if◌then◌else◌, ◌==◌, All, arith, replicate, lt_i64,
}
use belady.Cache.Entry.{Entry, touch, expired}
use belady.Cache.Policy.Laws.{stored}
use belady.Cache.S3fifo.{S3fifo, new_s3fifo, s3fifo_policy, victim, on_admit}
use belady.Cache.S3fifo.Live.{Queues, s3fifo-takes}
use belady.Cache.Shard.Taken.{FitsIn, AllTaken}
use belady.Cache.S3fifo.Lawful.{s3fifo-IsLawful}
use belady.Cache.S3fifo.Progress.{Inv}
use belady.Cache.S3fifo.Progress.Loop.{Names, victim-Names}
use belady.Cache.S3fifo.Progress.Hooks.{new_s3fifo-Inv, on_admit-Inv, touch-Inv}
use belady.Cache.Shard.{Env, Shard, new_shard, get, remove, insert_value, make_room, serve}
use belady.Cache.Shard.Invariant.{IsValid}
use belady.Cache.Shard.Eviction.{MadeRoom, make_room-MadeRoom}
use belady.Cache.Shard.Store.{at_time, value_of, get_refines, remove_refines}
use belady.Cache.Shard.Insert.{Inserted, insert_value-Inserted}
use belady.Cache.Shard.History.{Op, Reply, Ideal, AllHonest, Tracks, run, run-AllHonest}

abbrev env : Env
env = record { nanos = λ n. n; order = λ n es. es }

abbrev item : Entry
item = record {
  value = 1 ∷ 2 ∷ 3 ∷ [];
  key = 7;
  last_access = 20;
  admitted = 20;
  expires = 90;
  deltas = replicate 8 0;
  size = 3;
  accesses = 1;
  freq = 0;
}

unfoldable empty : Shard s3fifo_policy
unfolding s3fifo_policy
empty = new_shard s3fifo_policy 10 (new_s3fifo 10) none

unfoldable held : Shard s3fifo_policy
unfolding s3fifo_policy on_admit
held = record (new_shard s3fifo_policy 10 (on_admit item (new_s3fifo 10)).1 none) {
  m = (7, item) ∷ [];
  used = 3;
}

empty-IsValid : IsValid empty
unfolding empty new_shard
empty-IsValid = record {
  distinct = tt;
  sound = tt;
  accounted = refl;
  fits = omega arith;
  small = omega arith;
}

held-IsValid : IsValid held
unfolding held new_shard lookup
held-IsValid = record {
  distinct = (refl, tt);
  sound = ((refl, refl, omega arith), tt);
  accounted = refl;
  fits = omega arith;
  small = omega arith;
}

read_held : (get held 7 50).1 ≡ some (1 ∷ 2 ∷ 3 ∷ [])
unfolding held get new_shard lookup expired serve lt_i64 touch
read_held = refl

read_expired : (get held 7 90).1 ≡ none
unfolding held get new_shard lookup expired serve lt_i64 touch
read_expired = refl

get_refines_example :
    let (s', out) = get held 7 50 in
    (out ≡ value_of (at_time 50 (stored 7 held.m)))
    × ((j : ℕ) → stored j s'.m ≡ (if 7 == j then at_time 50 (stored 7 held.m) else stored j held.m))
get_refines_example = get_refines held 7 50 s3fifo-IsLawful

remove_refines_example :
    let (s', existed) = remove held 7 in
    ((existed ≡ true) ↔ (stored 7 held.m ≢ none))
    × ((j : ℕ) → stored j s'.m ≡ (if 7 == j then none else stored j held.m))
remove_refines_example = remove_refines held 7

insert_value-Inserted_example :
    Inserted held.m held.capacity 8
      (replicate 9 5)
      0
      (insert_value env held 8 (replicate 9 5) 60 0 true)
insert_value-Inserted_example =
    insert_value-Inserted env held 8 (replicate 9 5) 60 0 true s3fifo-IsLawful held-IsValid
      (omega arith)

make_room-MadeRoom_example : MadeRoom held 9 (make_room env 2 held 9 60)
unfolding held new_shard
make_room-MadeRoom_example =
    make_room-MadeRoom env s3fifo-IsLawful 2 held 9 60 (omega arith) (omega arith) held-IsValid

abbrev script : List Op
script =
    Op.write 7 (1 ∷ 2 ∷ []) 10 0 true
    ∷ Op.read 7 20
    ∷ Op.write 8 (replicate 9 5) 30 0 true
    ∷ Op.read 8 40
    ∷ Op.delete 8
    ∷ []

abbrev nothing_written : Ideal
nothing_written k = none

empty-Tracks : Tracks empty nothing_written
unfolding empty new_shard lookup stored
empty-Tracks = record { valid = empty-IsValid; lossy = λ k. inl refl }

run-AllHonest_example :
    (t : Shard s3fifo_policy) × (rs : List Reply) × (run env empty script ≡ some (t, rs))
    × IsValid t
    × AllHonest nothing_written script rs
run-AllHonest_example =
    run-AllHonest env s3fifo-IsLawful script empty nothing_written
      (omega arith, (tt, (omega arith, (tt, (tt, tt))))) empty-Tracks

new_s3fifo-Inv_example : Inv [] (new_s3fifo 10)
new_s3fifo-Inv_example = new_s3fifo-Inv 10

-- The policy's state and the entries after the first admission.
abbrev queue : S3fifo
queue = (on_admit item (new_s3fifo 10)).1

abbrev entries : Map Entry
entries = insert 7 (on_admit item (new_s3fifo 10)).0 []

queue-Inv : Inv entries queue
queue-Inv = on_admit-Inv [] (new_s3fifo 10) item (new_s3fifo-Inv 10)

entries_hold : lookup 7 entries ≢ none
unfolding insert lookup
entries_hold h = absurd (cc)

entries_found : lookup 7 entries ≡ some (on_admit item (new_s3fifo 10)).0
unfolding insert lookup
entries_found = refl

touch-Inv_example : Inv (insert 7 (touch (on_admit item (new_s3fifo 10)).0 40) entries) queue
touch-Inv_example =
    touch-Inv entries queue 7 40 (on_admit item (new_s3fifo 10)).0 entries_found queue-Inv

victim-Names_example : Names (victim (record { entries = entries; order = [] }) 50 queue)
victim-Names_example =
    victim-Names (record { entries = entries; order = [] }) 50 queue 7 queue-Inv entries_hold

held-Queues : Queues held.m held.policy
unfolding held Queues on_admit insert lookup new_shard new_s3fifo
held-Queues = queue-Inv

abbrev nine : List ℕ
nine = replicate 9 0

-- Nine bytes into ten, of which three are taken, twice.
abbrev full_writes : List Op
full_writes = Op.write 8 nine 50 0 true ∷ Op.read 8 60 ∷ Op.write 9 nine 70 0 false ∷ []

writes_fit : All (FitsIn held.capacity) full_writes
unfolding held new_shard
writes_fit = ((omega arith, omega arith), (tt, ((omega arith, omega arith), tt)))

s3fifo-takes_example :
    (t : Shard s3fifo_policy) × (rs : List Reply) × (run env held full_writes ≡ some (t, rs))
    × AllTaken full_writes rs
s3fifo-takes_example = s3fifo-takes env full_writes held held-IsValid held-Queues writes_fit
