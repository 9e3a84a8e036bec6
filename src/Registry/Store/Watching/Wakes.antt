-- ===== src/Registry/Store/Watching/Wakes.antt =====
-- How the watchers of the registry are woken, and the order of what they are sent.
use mathlib.Core.Option.{some-injective}
use belady.Common.{
  ℕ, ◌≡◌, ◌⊎◌, inl, inr, refl, sym, ap, subst, ◌∙◌, Bool, true, false, none, some, List, [], ◌∷◌,
  arith, Bool-cases, Option-cases,
}
use belady.Registry.Stream.{ModelMeta}
use belady.Registry.Store.{
  Store, Faults, Dir, File, meta_partial, model_partial, write_atomic, meta_path, model_path, read,
  with_dir, publish_meta, publish_body, publish, after, newer, make_visible, snapshot, send, wait,
  watch_round,
}
use belady.Registry.Store.Watching.{
  Watcher, is_closed, watched, watch_turn, Event, publishing, turning, run_watch, arrived,
}

-- Nothing changed for the watchers, or the channel they wait on was closed.
data Advances (s s' : Store) : Type 0 where
  stays : s'.latest ≡ s.latest → s'.changed ≡ s.changed → s'.closed ≡ s.closed → Advances s s'
  closes : s'.closed ≡ s.changed ∷ s.closed → Advances s s'

make_visible-Advances : (m : ModelMeta) (s : Store) → Advances s (make_visible m s)
unfolding make_visible
make_visible-Advances m s = elim (Bool-cases (newer m s.latest)) [
  | inl later ↦ closes (ground (arith, later))
  | inr old ↦ stays (ground (arith, old)) (ground (arith, old)) (ground (arith, old))
]

with_dir-Advances : (d : Dir) (s s' : Store) → Advances (with_dir d s) s' → Advances s s'
unfolding with_dir
with_dir-Advances d s s' (stays l c k) = stays l c k
with_dir-Advances d s s' (closes k) = closes k

with_dir-stays : (d : Dir) (s : Store) → Advances s (with_dir d s)
unfolding with_dir
with_dir-stays d s = stays refl refl refl

module _ (marshal : ModelMeta → List ℕ) where
  publish_meta-Advances :
      (f : Faults) (m : ModelMeta) (s : Store) → Advances s (publish_meta marshal f m s).0
  unfolding publish_meta
  publish_meta-Advances f m s =
      let part : File = record { version = m.version; extension = meta_partial } in
      let d : Dir × Bool = write_atomic f.metadata part (meta_path m.version) (marshal m) s.dir in
      elim (Bool-cases f.encoding) [
        | inl bad ↦ stays (ground (arith, bad)) (ground (arith, bad)) (ground (arith, bad))
        | inr good ↦ elim (Bool-cases d.1) [
          | inl ok ↦ subst (Advances s) (ground (arith, good, ok)) (
              with_dir-Advances d.0 s (make_visible m (with_dir d.0 s))
                (make_visible-Advances m (with_dir d.0 s)))
          | inr bad ↦ subst (Advances s) (ground (arith, good, bad)) (with_dir-stays d.0 s)
        ]
      ]

  publish-Advances :
      (f : Faults) (m : ModelMeta) (body : List ℕ) (s : Store)
      → Advances s (publish marshal f m body s).0
  unfolding publish publish_body
  publish-Advances f m body s =
      let part : File = record { version = m.version; extension = model_partial } in
      let d : Dir × Bool = write_atomic f.body part (model_path m.version) body s.dir in
      elim (Bool-cases f.stat) [
        | inl bad ↦ stays (ground (arith, bad)) (ground (arith, bad)) (ground (arith, bad))
        | inr good ↦ elim (Option-cases (read (meta_path m.version) s.dir)) [
          | inr (old, there) ↦
              stays (ground (arith, good, there)) (ground (arith, good, there))
                (ground (arith, good, there))
          | inl new ↦ elim (Bool-cases d.1) [
            | inl ok ↦ subst (Advances s) (ground (arith, good, new, ok)) (
                with_dir-Advances d.0 s (publish_meta marshal f m (with_dir d.0 s)).0
                  (publish_meta-Advances f m (with_dir d.0 s)))
            | inr bad ↦ subst (Advances s) (ground (arith, good, new, bad)) (with_dir-stays d.0 s)
          ]
        ]
      ]

-- A blocked watcher has seen the latest model, or its channel is closed.
abbrev Wakes : Store → Watcher → Type 0
Wakes s x =
    (c : ℕ)
    → x.blocked ≡ some c
    → (is_closed c s.closed ≡ true)
      ⊎ ((c ≡ s.changed) × ((m : ModelMeta) → s.latest ≡ some m → after m.version x.seen ≡ false))

Advances-Wakes : (s s' : Store) (x : Watcher) → Advances s s' → Wakes s x → Wakes s' x
unfolding is_closed
Advances-Wakes s s' x (stays l n k) h c on = elim (h c on) [
  | inl shut ↦ inl (ap (is_closed c) k ∙ shut)
  | inr (current, seen) ↦ inr (current ∙ sym n, λ m there. seen m (sym l ∙ there))
]
Advances-Wakes s s' x (closes k) h c on = elim (h c on) [
  | inl shut ↦ inl (ap (is_closed c) k ∙ ground (arith, shut))
  | inr (current, seen) ↦ inl (ap (is_closed c) k ∙ ground (arith, current))
]

-- A round sends the latest model, which is later than what was seen, or there is none such.
watch_round-cases :
    (seen : List ℕ) (s : Store)
    → ((watch_round seen s ≡ wait s.changed)
        × ((m : ModelMeta) → s.latest ≡ some m → after m.version seen ≡ false))
      ⊎ ((m : ModelMeta) × (s.latest ≡ some m)
          × (after m.version seen ≡ true)
          × (watch_round seen s ≡ send m m.version))
unfolding watch_round snapshot
watch_round-cases seen s = elim (Option-cases s.latest) [
  | inl e ↦ inl (ground (arith, e), λ m h. absurd (cc))
  | inr (m, e) ↦ elim (Bool-cases (after m.version seen)) [
    | inl later ↦ inr (m, e, later, ground (arith, e, later))
    | inr old ↦ inl (
      ground (arith, e, old),
      λ n h. subst (λ k. after k.version seen ≡ false) (some-injective m n (sym e ∙ h)) old,
    )
  ]
]

-- The version of the last model that was sent.
abbrev pub last_seen : List ℕ → List ModelMeta → List ℕ
last_seen since [] = since
last_seen since (m ∷ ms) = m.version

-- Every version that was sent is later than the one before.
abbrev pub Ascends : List ℕ → List ModelMeta → Type 0
Ascends since [] = Unit
Ascends since (m ∷ ms) = (after m.version (last_seen since ms) ≡ true) × Ascends since ms

record IsWatching (since : List ℕ) (s : Store) (x : Watcher) : Type 0 where
  wakes : Wakes s x
  last : x.seen ≡ last_seen since x.sent
  ascends : Ascends since x.sent

watched-IsWatching :
    (since : List ℕ) (s : Store) (x : Watcher)
    → IsWatching since s x
    → IsWatching since s (watched (watch_round x.seen s) x)
unfolding watched
watched-IsWatching since s x h = elim (watch_round-cases x.seen s) [
  | inl (waits, old) ↦ rw waits (record {
    wakes = λ c on. inr (sym (some-injective s.changed c on), old);
    last = h.last;
    ascends = h.ascends;
  })
  | inr (m, there, later, sends) ↦ rw sends (record {
    wakes = λ c on. absurd (cc);
    last = refl;
    ascends = (subst (λ v. after m.version v ≡ true) h.last later, h.ascends);
  })
]

watch_turn-watched :
    (s : Store) (x y : Watcher) → watch_turn s x ≡ some y → y ≡ watched (watch_round x.seen s) x
unfolding watch_turn
watch_turn-watched s x y h = elim (Option-cases x.blocked) [
  | inl free ↦ ground (arith, free)
  | inr (c, on) ↦ elim (Bool-cases (is_closed c s.closed)) [
    | inl shut ↦ ground (arith, on, shut)
    | inr still ↦ absurd (ground (arith, on, still))
  ]
]

run_watch-IsWatching :
    (marshal : ModelMeta → List ℕ) (since : List ℕ) (es : List Event) (s : Store) (x : Watcher)
    → IsWatching since s x
    → let r = run_watch marshal es s x in IsWatching since r.0 r.1
unfolding run_watch
run_watch-IsWatching marshal since [] s x h = h
run_watch-IsWatching marshal since (publishing f m body ∷ es) s x h =
    let t = (publish marshal f m body s).0 in
    run_watch-IsWatching marshal since es t x (record {
      wakes = Advances-Wakes s t x (publish-Advances marshal f m body s) h.wakes;
      last = h.last;
      ascends = h.ascends;
    })
run_watch-IsWatching marshal since (turning ∷ es) s x h = elim (Option-cases (watch_turn s x)) [
  | inl blocks ↦ rw (blocks, run_watch) (run_watch-IsWatching marshal since es s x h)
  | inr (y, goes) ↦
      rw (goes, run_watch)
        (run_watch-IsWatching marshal since es s y (
          subst (IsWatching since s) (sym (watch_turn-watched s x y goes))
            (watched-IsWatching since s x h)))
]

arrived-IsWatching : (since : List ℕ) (s : Store) → IsWatching since s (arrived since)
unfolding arrived
arrived-IsWatching since s = record { wakes = λ c on. absurd (cc); last = refl; ascends = tt }

-- After any publishes, with any faults, and rounds of a watcher, each version that the watcher was
-- sent is later than the one sent before it, and the first later than the one it asked from; what
-- it has seen is the last version sent, or else the one it asked from.
pub run_watch-Ascends :
    (marshal : ModelMeta → List ℕ) (since : List ℕ) (es : List Event) (s : Store)
    → let x = (run_watch marshal es s (arrived since)).1 in
      Ascends since x.sent × (x.seen ≡ last_seen since x.sent)
run_watch-Ascends marshal since es s =
    let h = run_watch-IsWatching marshal since es s (arrived since) (arrived-IsWatching since s) in
    (h.ascends, h.last)

watch_turn_ready :
    (s : Store) (x : Watcher) (m : ModelMeta)
    → Wakes s x
    → s.latest ≡ some m
    → after m.version x.seen ≡ true
    → watch_turn s x ≡ some (watched (watch_round x.seen s) x)
unfolding watch_turn
watch_turn_ready s x m h there later = elim (Option-cases x.blocked) [
  | inl free ↦ ground (arith, free)
  | inr (c, on) ↦ elim (h c on) [
    | inl shut ↦ ground (arith, on, shut)
    | inr (current, old) ↦ absurd (let same = old m there in cc)
  ]
]

-- After any publishes, with any faults, and rounds of a watcher that started at the top of its
-- loop, if the latest model is later than what the watcher has seen, the watcher is not blocked,
-- and its next round sends that model and takes its version as seen.
pub run_watch-watch_turn :
    (marshal : ModelMeta → List ℕ) (since : List ℕ) (es : List Event) (s : Store) (m : ModelMeta)
    → (run_watch marshal es s (arrived since)).0.latest ≡ some m
    → after m.version (run_watch marshal es s (arrived since)).1.seen ≡ true
    → let (t, x) = run_watch marshal es s (arrived since) in
      watch_turn t x ≡ some (record { seen = m.version; blocked = none; sent = m ∷ x.sent })
unfolding watched
run_watch-watch_turn marshal since es s m there later =
    let (t, x) = run_watch marshal es s (arrived since) in
    let h = run_watch-IsWatching marshal since es s (arrived since) (arrived-IsWatching since s) in
    watch_turn_ready t x m h.wakes there later ∙ elim (watch_round-cases x.seen t) [
      | inl (waits, old) ↦ absurd (let same = old m there in cc)
      | inr (n, latest, ahead, sends) ↦
          let same : n ≡ m = some-injective n m (sym latest ∙ there) in rw (sends, same) refl
    ]
