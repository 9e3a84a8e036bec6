-- ===== src/Registry/Store/Watching.antt =====
-- internal/registry/registry.go: the loop of `WatchModels` beside publishes, and the order of versions.
pub mod Wakes
use mathlib.Core.Option.{some-injective}
use belady.Common.{
  ℕ, ◌≡◌, ◌⊎◌, ◌==◌, inl, inr, refl, sym, ap, subst, ◌∙◌, Bool, true, false, Option, none, some,
  List, [], ◌∷◌, if◌then◌else◌, arith, Bool-cases, Option-cases,
}
use belady.Registry.Stream.{ModelMeta}
use belady.Registry.Store.{
  Store, Faults, Dir, File, meta_partial, model_partial, write_atomic, meta_path, model_path, read,
  with_dir, publish_meta, publish_body, publish, after, newer, make_visible, snapshot, Watch, send,
  wait, watch_round,
}

pub after_irrefl : (v : List ℕ) → after v v ≡ false
unfolding after
after_irrefl [] = refl
after_irrefl (a ∷ v) = ground (arith, after_irrefl v)

pub after_trans : (u v w : List ℕ) → after u v ≡ true → after v w ≡ true → after u w ≡ true
unfolding after
after_trans [] v w h k = absurd (cc)
after_trans (a ∷ u) [] w h k = absurd (cc)
after_trans (a ∷ u) (b ∷ v) [] h k = refl
after_trans (a ∷ u) (b ∷ v) (c ∷ w) h k = ground (arith, after_trans u v w)

after_asym : (u v : List ℕ) → after u v ≡ true → after v u ≡ false
unfolding after
after_asym [] v h = absurd (cc)
after_asym (a ∷ u) [] h = refl
after_asym (a ∷ u) (b ∷ v) h = ground (arith, after_asym u v)

-- A running `WatchModels` whose sends succeed and whose context lives: the channel it waits on,
-- unless it is at the top of its loop, and what it has sent, the last one first.
pub record Watcher : Type 0 where
  pub seen : List ℕ
  pub blocked : Option ℕ
  pub sent : List ModelMeta

unfoldable pub is_closed : ℕ → List ℕ → Bool
is_closed c [] = false
is_closed c (d ∷ ds) = if d == c then true else is_closed c ds

unfoldable pub watched : Watch → Watcher → Watcher
watched (send m v) x = record { seen = v; blocked = none; sent = m ∷ x.sent }
watched (wait c) x = record { seen = x.seen; blocked = some c; sent = x.sent }

-- The next round, once the channel waited on is closed.
unfoldable pub watch_turn : Store → Watcher → Option Watcher
watch_turn s x = elim x.blocked [
  | none ↦ some (watched (watch_round x.seen s) x)
  | some c ↦ if is_closed c s.closed then some (watched (watch_round x.seen s) x) else none
]

pub data Event : Type 0 where
  publishing : Faults → ModelMeta → List ℕ → Event
  turning : Event

-- The locks make publishes and rounds steps of one sequence; a turn that blocks changes nothing.
unfoldable pub run_watch : (ModelMeta → List ℕ) → List Event → Store → Watcher → Store × Watcher
run_watch marshal [] s x = (s, x)
run_watch marshal (publishing f m body ∷ es) s x =
    run_watch marshal es (publish marshal f m body s).0 x
run_watch marshal (turning ∷ es) s x = elim (watch_turn s x) [
  | none ↦ run_watch marshal es s x
  | some y ↦ run_watch marshal es s y
]

unfoldable pub arrived : List ℕ → Watcher
arrived since = record { seen = since; blocked = none; sent = [] }
