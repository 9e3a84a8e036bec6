-- ===== src/Cache/Shard/Taken.antt =====
-- Under a policy that never gives up, a shard takes every write that fits it, whatever came before.
use belady.Common.{
  ℕ, ◌≤◌, ◌<◌, ◌^◌, ◌≡◌, refl, sym, ap, ◌∙◌, subst, Bool, true, Option, some, List, [], ◌∷◌, Map,
  lookup, length, inl, inr, All, All-lookup, Option-cases, Bool-cases, arith,
}
use belady.Cache.Entry.{Entry, expired}
use belady.Cache.Policy.{Policy}
use belady.Cache.Policy.Laws.{IsLawful, IsLive, IsSound}
use belady.Cache.Shard.{Shard, Env, get, serve, remove, drop_entry}
use belady.Cache.Shard.Invariant.{IsValid, get-IsValid, remove-IsValid}
use belady.Cache.Shard.Insert.{insert_value-Inserted}
use belady.Cache.Shard.Accepted.{insert_value-accepted}
use belady.Cache.Shard.History.{Op, read, write, delete, Reply, value, accepted, existed, step, run}

-- A write of no more bytes than the capacity, which int32 holds.
abbrev pub FitsIn : ℕ → Op → Type 0
FitsIn capacity (read k now_us) = Unit
FitsIn capacity (write k v now_us expires on_miss) = (length v ≤ capacity) × (length v < 2 ^ 31)
FitsIn capacity (delete k) = Unit

abbrev pub IsTaken : Op → Reply → Type 0
IsTaken (write k v now_us expires on_miss) (accepted done) = done ≡ true
IsTaken (write k v now_us expires on_miss) r = ⊥
IsTaken op r = Unit

abbrev pub AllTaken : List Op → List Reply → Type 0
AllTaken [] [] = Unit
AllTaken [] (r ∷ rs) = ⊥
AllTaken (op ∷ ops) [] = ⊥
AllTaken (op ∷ ops) (r ∷ rs) = IsTaken op r × AllTaken ops rs

module _ {P : Policy} (env : Env) (lawful : IsLawful P) (Ok : Map Entry → P.State → Type 0)
    (live : IsLive P Ok) where
  -- What a shard has between two calls.
  record Good (capacity : ℕ) (s : Shard P) : Type 0 where
    valid : IsValid s
    ready : Ok s.m s.policy
    same : s.capacity ≡ capacity

  get-Ok :
      (s : Shard P) (k now_us : ℕ)
      → IsValid s
      → Ok s.m s.policy
      → Ok (get s k now_us).0.m (get s k now_us).0.policy
  unfolding get serve drop_entry
  get-Ok s k now_us v good = elim (Option-cases (lookup k s.m)) [
    | inl absent ↦ rw (absent, get) good
    | inr (e, held) ↦ elim (Bool-cases (expired e now_us)) [
      | inl stale ↦
          rw (held, get)
            (rw (stale, get)
              (live.removes s.m s.policy k e good (All-lookup IsSound k s.m e v.sound held).0))
      | inr fresh ↦
          rw (held, get) (rw (fresh, get) (live.touches s.m s.policy k now_us e good held))
    ]
  ]

  get-capacity : (s : Shard P) (k now_us : ℕ) → (get s k now_us).0.capacity ≡ s.capacity
  unfolding get serve drop_entry
  get-capacity s k now_us = ground arith

  remove-Ok :
      (s : Shard P) (k : ℕ)
      → IsValid s
      → Ok s.m s.policy
      → Ok (remove s k).0.m (remove s k).0.policy
  unfolding remove drop_entry
  remove-Ok s k v good = elim (Option-cases (lookup k s.m)) [
    | inl absent ↦ rw (absent, remove) good
    | inr (e, held) ↦
        rw (held, remove)
          (live.removes s.m s.policy k e good (All-lookup IsSound k s.m e v.sound held).0)
  ]

  remove-capacity : (s : Shard P) (k : ℕ) → (remove s k).0.capacity ≡ s.capacity
  unfolding remove drop_entry
  remove-capacity s k = ground arith

  step-IsTaken :
      (capacity : ℕ) (s : Shard P) (op : Op)
      → Good capacity s
      → FitsIn capacity op
      → (t : Shard P) × (r : Reply) × (step env s op ≡ some (t, r)) × IsTaken op r × Good capacity t
  unfolding step
  step-IsTaken capacity s (read k now_us) g fits = (
    (get s k now_us).0,
    value (get s k now_us).1,
    refl,
    tt,
    record {
      valid = get-IsValid s k now_us lawful g.valid;
      ready = get-Ok s k now_us g.valid g.ready;
      same = get-capacity s k now_us ∙ g.same;
    },
  )
  step-IsTaken capacity s (delete k) g fits = (
    (remove s k).0,
    existed (remove s k).1,
    refl,
    tt,
    record {
      valid = remove-IsValid s k g.valid;
      ready = remove-Ok s k g.valid g.ready;
      same = remove-capacity s k ∙ g.same;
    },
  )
  step-IsTaken capacity s (write k v now_us expires on_miss) g (le, short) =
      let (t, ends, ready) =
        insert_value-accepted env lawful Ok live s k v now_us expires on_miss g.valid g.ready
          (rw g.same le) in
      let i = insert_value-Inserted env s k v now_us expires on_miss lawful g.valid short in
      let both : i.shard ≡ t =
        let e : ◌≡◌ {A = Option (Shard P × Bool)} (some (i.shard, i.accepted)) (some (t, true)) =
          sym i.ends ∙ ends in
        cc in
      (
        t,
        accepted true,
        rw (ends, step) refl,
        refl,
        record {
          valid = subst IsValid both i.valid;
          ready = ready;
          same = ap (λ (u : Shard P). u.capacity) (sym both) ∙ i.capacity ∙ g.same;
        },
      )

  run-AllTaken :
      (capacity : ℕ) (ops : List Op) (s : Shard P)
      → Good capacity s
      → All (FitsIn capacity) ops
      → (t : Shard P) × (rs : List Reply) × (run env s ops ≡ some (t, rs)) × AllTaken ops rs
  unfolding run
  run-AllTaken capacity [] s g fits = (s, [], refl, tt)
  run-AllTaken capacity (op ∷ ops) s g (first, fits) =
      let (t, r, ends, taken, g') = step-IsTaken capacity s op g first in
      let (u, rs, later, all) = run-AllTaken capacity ops t g' fits in
      (u, r ∷ rs, rw (ends, run) (rw (later, run) refl), (taken, all))

  pub run-takes :
      (ops : List Op) (s : Shard P)
      → IsValid s
      → Ok s.m s.policy
      → All (FitsIn s.capacity) ops
      → (t : Shard P) × (rs : List Reply) × (run env s ops ≡ some (t, rs)) × AllTaken ops rs
  run-takes ops s v good fits =
      run-AllTaken s.capacity ops s (record { valid = v; ready = good; same = refl }) fits
