-- ===== src/Tests/Rings.antt =====
-- A trace ring of four slots, a hash ring of two nodes, and a simulated trace.
use mathlib.Core.Option.{some-injective}
use belady.Common.{
  ℕ, zero, suc, ◌+◌, ◌/◌, ◌≤◌, ◌<◌, ◌^◌, ◌≡◌, ◌⊎◌, inl, inr, refl, sym, ap, ap₂, subst, Bool-cases,
  lookup, insert, erase, true, false, Option, none, some, List, [], ◌∷◌, ◌++◌, Map, length, take,
  drop, get_elem?, if◌then◌else◌, ◌&&◌, arith, replicate, ltb, leb,
}
use belady.Trace.Ring.{Record, Ring, zero_record, push, drain, is_sampled}
use belady.Trace.Ring.Fifo.{IsValid, contents, push_refines, drain_refines}
use belady.Hashring.{Node, Vnode, HashRing, pick, charge}
use belady.Hashring.Bounds.{IsRing, pick_bounded}
use belady.Min
use belady.Min.NextUse.{NextUses, next_uses-NextUses}
use belady.Min.Simulation.{On, first, next, IsHeapPop, Queued, Furthest, evict_furthest-Furthest}
use belady.Min.Capacity
use belady.Min.Capacity.{IsHeapPush, request-IsValid}

abbrev rec : Record
rec = record { key_hash = 5; timestamp_us = 10; size_bytes = 3; hit = true }

abbrev pub four : Ring
four = record {
  buf = replicate 4 zero_record;
  mask = 3;
  sample_mask = 0;
  tail = 6;
  cached_head = 4;
  pushed = 6;
  drops = 0;
  head = 4;
}

pub four-IsValid : IsValid 2 four
four-IsValid = record {
  slots = refl;
  masked = refl;
  small = omega arith;
  lagging = omega arith;
  ordered = omega arith;
  room = omega arith;
  unwrapped = omega arith;
}

push_refines_example :
    let (r', done) = push four rec in
    (done ≡ is_sampled four rec.key_hash && ltb (length (contents four)) (2 ^ 2))
    × (contents r' ≡ (if done then contents four ++ (rec ∷ []) else contents four))
    × IsValid 2 r'
push_refines_example = push_refines 2 rec four-IsValid (omega arith)

drain_refines_example :
    let (out, r') = drain four 1 in
    (out ≡ take 1 (contents four)) × (contents r' ≡ drop 1 (contents four)) × IsValid 2 r'
drain_refines_example = drain_refines 2 1 four-IsValid (omega arith)

abbrev two_nodes : HashRing
two_nodes = record {
  nodes = record { name = b'a' ∷ []; load = 1 } ∷ record { name = b'b' ∷ []; load = 2 } ∷ [];
  vnodes = record { hash_of = 100; idx = 0 } ∷ record { hash_of = 200; idx = 1 } ∷ [];
  total = 3;
  replicas = 1;
}

-- `capacityLocked` for a factor of one.
abbrev mean_limit : ℕ → ℕ → ℕ
mean_limit total n = (total + 1) / n + 1

two_nodes-covered :
    (i : ℕ) → i < 2 → (j : ℕ) × (v : Vnode) × (get_elem? two_nodes.vnodes j ≡ some v) × (v.idx ≡ i)
two_nodes-covered zero h = (0, record { hash_of = 100; idx = 0 }, refl, refl)
two_nodes-covered (suc zero) h = (1, record { hash_of = 200; idx = 1 }, refl, refl)
two_nodes-covered (suc (suc i)) h = absurd (omega arith)

two_nodes-IsRing : IsRing two_nodes
two_nodes-IsRing = record {
  named = (omega arith, (omega arith, tt));
  covered = two_nodes-covered;
  counted = refl;
}

pick_bounded_example :
    (i : ℕ) × (node : Node) × (get_elem? two_nodes.nodes i ≡ some node)
    × (pick mean_limit two_nodes (b'k' ∷ []) ≡ some (charge two_nodes i, some node.name))
    × (node.load + 1 ≤ mean_limit 3 2)
    × IsRing (charge two_nodes i)
pick_bounded_example =
    pick_bounded mean_limit two_nodes (b'k' ∷ []) two_nodes-IsRing (omega arith) (omega arith)

-- Pop of a heap kept as any list: the first entry of the greatest next use, and the others.
abbrev greatest : Min.Entry → List Min.Entry → Min.Entry × List Min.Entry
greatest e [] = (e, [])
greatest e (f ∷ h) =
    let best = greatest f h in
    if leb best.0.next_use e.next_use then (e, f ∷ h) else (best.0, e ∷ best.1)

abbrev pop_max : List Min.Entry → Option (Min.Entry × List Min.Entry)
pop_max [] = none
pop_max (e ∷ h) = some (greatest e h)

abbrev Parted : Min.Entry → Min.Entry × List Min.Entry → Type 0
Parted x r = ((x ≡ r.0) ⊎ On x r.1) × (x.next_use ≤ r.0.next_use)

Parted-above :
    (e x : Min.Entry) (h : List Min.Entry) (best : Min.Entry × List Min.Entry)
    → On x (e ∷ h)
    → (On x h → Parted x best)
    → leb best.0.next_use e.next_use ≡ true
    → Parted x (e, h)
Parted-above e x h best first ih above = (inl refl, omega arith)
Parted-above e x h best (next p) ih above = (inr p, ground (arith, (ih p).1))

Parted-below :
    (e x : Min.Entry) (h : List Min.Entry) (best : Min.Entry × List Min.Entry)
    → On x (e ∷ h)
    → (On x h → Parted x best)
    → leb best.0.next_use e.next_use ≡ false
    → Parted x (best.0, e ∷ best.1)
Parted-below e x h best first ih below = (inr first, ground arith)
Parted-below e x h best (next p) ih below =
    (elim (ih p).0 [ inl same ↦ inl same | inr on ↦ inr (next on) ], (ih p).1)

greatest-Parted :
    (e : Min.Entry) (h : List Min.Entry) (x : Min.Entry) → On x (e ∷ h) → Parted x (greatest e h)
greatest-Parted e [] x first = (inl refl, omega arith)
greatest-Parted e [] x (next o) = elim o [ ]
greatest-Parted e (f ∷ h) x o = elim (Bool-cases (leb (greatest f h).0.next_use e.next_use)) [
  | inl above ↦
      subst (Parted x)
        (sym (ap (λ b. if b then (e, f ∷ h) else ((greatest f h).0, e ∷ (greatest f h).1)) above))
        (Parted-above e x (f ∷ h) (greatest f h) o (greatest-Parted f h x) above)
  | inr below ↦
      subst (Parted x)
        (sym (ap (λ b. if b then (e, f ∷ h) else ((greatest f h).0, e ∷ (greatest f h).1)) below))
        (Parted-below e x (f ∷ h) (greatest f h) o (greatest-Parted f h x) below)
]

greatest-size : (e : Min.Entry) (h : List Min.Entry) → length (greatest e h).1 ≡ length h
greatest-size e [] = refl
greatest-size e (f ∷ h) = ground (arith, greatest-size f h)

pop_max-IsHeapPop : IsHeapPop pop_max
pop_max-IsHeapPop = record { rest = rest; furthest = furthest; size = size; empty = empty }
  where
    rest :
        (h h' : List Min.Entry) (e x : Min.Entry)
        → pop_max h ≡ some (e, h')
        → On x h
        → (x ≡ e) ⊎ On x h'
    rest [] h' e x took o = absurd (cc)
    rest (f ∷ h) h' e x took o =
        subst (λ r. (x ≡ r.0) ⊎ On x r.1) (some-injective (greatest f h) (e, h') took)
          (greatest-Parted f h x o).0

    furthest :
        (h h' : List Min.Entry) (e x : Min.Entry)
        → pop_max h ≡ some (e, h')
        → On x h
        → x.next_use ≤ e.next_use
    furthest [] h' e x took o = absurd (cc)
    furthest (f ∷ h) h' e x took o =
        subst (λ r. x.next_use ≤ r.0.next_use) (some-injective (greatest f h) (e, h') took)
          (greatest-Parted f h x o).1

    size :
        (h h' : List Min.Entry) (e : Min.Entry)
        → pop_max h ≡ some (e, h')
        → length h ≡ suc (length h')
    size [] h' e took = absurd (cc)
    size (f ∷ h) h' e took =
        subst (λ r. suc (length h) ≡ suc (length r.1)) (some-injective (greatest f h) (e, h') took)
          (ap suc (sym (greatest-size f h)))

    empty : (h : List Min.Entry) → pop_max h ≡ none → h ≡ []
    empty [] over = refl
    empty (f ∷ h) over = absurd (cc)

push_front-IsHeapPush : IsHeapPush (λ e h. e ∷ h)
push_front-IsHeapPush = record { pushed = λ e h. first; kept = λ e x h o. next o }

abbrev one_key : List Min.Entry × Map ℕ
one_key = (record { key = 7; next_use = 9 } ∷ record { key = 7; next_use = 2 } ∷ [], (7, 9) ∷ [])

one_key-Queued : Queued one_key.0 one_key.1
unfolding lookup
one_key-Queued k j found =
    let same : (7 ≡ k) × (9 ≡ j) = (ground arith, ground arith) in
    subst (λ x. On x one_key.0) (ap₂ (λ a. λ b. record { key = a; next_use = b }) same.0 same.1)
      first

one_key-IsValid : Capacity.IsValid 1 one_key
unfolding lookup
one_key-IsValid = record { queued = one_key-Queued; distinct = (refl, tt); bounded = omega arith }

request-IsValid_example : Capacity.IsValid 1 (Min.request pop_max (λ e h. e ∷ h) 1 8 5 one_key)
request-IsValid_example =
    request-IsValid pop_max-IsHeapPop push_front-IsHeapPush 1 8 5 one_key (omega arith)
      one_key-IsValid

one_key-held : lookup 7 one_key.1 ≡ some 9
unfolding lookup
one_key-held = refl

evict_furthest-Furthest_example :
    Furthest one_key.1 (Min.evict_furthest pop_max 2 one_key.0 one_key.1).1
    × Queued
        (Min.evict_furthest pop_max 2 one_key.0 one_key.1).0
        (Min.evict_furthest pop_max 2 one_key.0 one_key.1).1
evict_furthest-Furthest_example =
    evict_furthest-Furthest pop_max-IsHeapPop 2 one_key.0 one_key.1 7 9 (omega arith) one_key-Queued
      one_key-held

next_uses-NextUses_example :
    NextUses 4 0 (7 ∷ 8 ∷ 7 ∷ 9 ∷ []) (Min.next_uses 4 0 (7 ∷ 8 ∷ 7 ∷ 9 ∷ []))
next_uses-NextUses_example = next_uses-NextUses 4 0 (7 ∷ 8 ∷ 7 ∷ 9 ∷ [])

next_uses_run : Min.next_uses 4 0 (7 ∷ 8 ∷ 7 ∷ 9 ∷ []) ≡ 2 ∷ 4 ∷ 4 ∷ 4 ∷ []
unfolding Min.next_uses Min.next_use_of Min.seen_from insert lookup
next_uses_run = refl

-- Two hits of five requests with room for two keys.
min_run : Min.min_hit_ratio_from pop_max (λ e h. e ∷ h) (7 ∷ 8 ∷ 7 ∷ 9 ∷ 7 ∷ []) 2 0 ≡ (2, 5)
unfolding Min.min_hit_ratio_from Min.simulate Min.hit lookup Min.request insert Min.make_way
    Min.evict_furthest Min.next_use_of Min.seen_from erase
min_run = refl
