-- ===== src/Cache/S3fifo/Live.antt =====
-- S3-FIFO as a policy that never gives up.
use belady.Common.{
  ℕ, All, List, ◌≡◌, ◌≢◌, refl, sym, subst, none, some, Map, lookup, erase, inl, inr, Option-cases,
}
use belady.Cache.Entry.{Entry}
use belady.Cache.Policy.Laws.{IsLive}
use belady.Cache.S3fifo.{Stepped, victim, on_remove, s3fifo_policy}
use belady.Cache.S3fifo.Lawful.{s3fifo-IsLawful}
use belady.Cache.Shard.{Env, Shard}
use belady.Cache.Shard.Invariant.{IsValid}
use belady.Cache.Shard.History.{Op, Reply, run}
use belady.Cache.Shard.Taken.{FitsIn, AllTaken, run-takes}
use belady.Cache.S3fifo.Progress.{Inv, QueuedBut}
use belady.Cache.S3fifo.Progress.Loop.{Names, victim-Names}
use belady.Cache.S3fifo.Progress.Hooks.{on_remove-Inv, on_admit-Inv, touch-Inv}

-- The queues hold a live slot of every entry, and no counter is above 3.
unfoldable pub Queues : Map Entry → s3fifo_policy.State → Type 0
unfolding s3fifo_policy
Queues m p = Inv m p

named :
    (out : Stepped)
    → Names out
    → (j : ℕ) × (e : Entry) × (out.0 ≡ some j)
      × (lookup j out.1 ≡ some e)
      × (e.key ≡ j → Inv (erase j out.1) (on_remove e out.2))
named (none, m, p) h = elim h [ ]
named (some j, m, p) (held, others, counted) = elim (Option-cases (lookup j m)) [
  | inl absent ↦ absurd (held absent)
  | inr (e, there) ↦ (
    j,
    e,
    refl,
    there,
    λ keyed.
        subst (λ i. Inv (erase i m) (on_remove e p)) keyed
          (on_remove-Inv m p e (subst (λ i. QueuedBut (λ k. i ≢ k) m p) (sym keyed) others)
            counted),
  )
]

pub s3fifo-IsLive : IsLive s3fifo_policy Queues
unfolding s3fifo_policy Queues
s3fifo-IsLive = record {
  names =
      λ c now_us k st good held. named (victim c now_us st) (victim-Names c now_us st k good held);
  removes = λ m st k e good keyed.
      subst (λ i. Inv (erase i m) (on_remove e st)) keyed
        (on_remove-Inv m st e (λ j h ne. good.queued j h tt) good.counted);
  admits = λ m st e good. on_admit-Inv m st e good;
  touches = λ m st k now_us e good held. touch-Inv m st k now_us e held good;
}

-- On a valid shard under S3-FIFO in which every entry has a live slot and no counter is above 3,
-- any sequence of reads, deletes and writes of no more bytes each than the shard's capacity, and
-- of less than 2 ^ 31, ends, and every write is accepted.
pub s3fifo-takes :
    (env : Env) (ops : List Op) (s : Shard s3fifo_policy)
    → IsValid s
    → Queues s.m s.policy
    → All (FitsIn s.capacity) ops
    → (t : Shard s3fifo_policy) × (rs : List Reply) × (run env s ops ≡ some (t, rs))
      × AllTaken ops rs
s3fifo-takes env ops s v good fits =
    run-takes env s3fifo-IsLawful Queues s3fifo-IsLive ops s v good fits
