-- ===== src/Cache/S3fifo/Lawful.antt =====
-- What the hooks of S3-FIFO do to entries.
use belady.Common.{
  ℕ, zero, suc, ◌≡◌, refl, sym, subst, ==_iff, ◌∙◌, ap, some, List, [], ◌∷◌, Map, lookup, insert,
  ◌==◌, arith, Bool-cases, Option-cases, inl, inr, ltb, lt_i64,
}
use belady.Cache.Entry.{Entry}
use belady.Cache.Policy.Laws.{Keeps, SameShape, SameShape-refl, IsLawful}
use belady.Cache.S3fifo.{
  Slot, S3fifo, Stepped, is_live, on_admit, leave_small, step_small, leave_main, step_main, turn,
  victim_loop, victim, s3fifo_policy,
}

pub SameShape-trans : (a b c : Map Entry) → SameShape a b → SameShape b c → SameShape a c
SameShape-trans [] [] c s t = t
SameShape-trans [] (y ∷ b) c s t = elim s [ ]
SameShape-trans (x ∷ a) [] c s t = elim s [ ]
SameShape-trans (x ∷ a) (y ∷ b) [] s t = t
SameShape-trans ((i, e) ∷ a) ((j, f) ∷ b) ((k, g) ∷ c) s t =
    (t.0 ∙ s.0, rw (t.1, s.1) refl, SameShape-trans a b c s.2 t.2)

-- Setting the counter of an entry that is held.
pub SameShape-insert :
    (k : ℕ) (e : Entry) (n : ℕ) (m : Map Entry)
    → lookup k m ≡ some e
    → SameShape m (insert k (record e { freq = n }) m)
unfolding lookup insert
SameShape-insert k e n [] h = absurd (cc)
SameShape-insert k e n ((j, f) ∷ m) h = elim (Bool-cases (j == k)) [
  | inl same ↦
      let held : e ≡ f = ground arith in
      rw same (
        sym ((==_iff j k).0 same),
        ap (λ (x : Entry). record x { freq = n }) held,
        SameShape-refl m,
      )
  | inr other ↦ rw other (refl, refl, SameShape-insert k e n m (rw other at h))
]

leave_small-shape :
    (m : Map Entry) (p : S3fifo) (k : ℕ) (e : Entry)
    → lookup k m ≡ some e
    → SameShape m (leave_small m p k e).1
unfolding leave_small
leave_small-shape m p k e held = elim (Bool-cases (ltb 0 e.freq)) [
  | inl seen ↦ rw seen (SameShape-insert k e 0 m held)
  | inr once ↦ rw once (SameShape-refl m)
]

leave_main-shape :
    (m : Map Entry) (p : S3fifo) (s : Slot) (e : Entry)
    → lookup s.key m ≡ some e
    → SameShape m (leave_main m p s e).1
unfolding leave_main
leave_main-shape m p s e held = elim (Bool-cases (ltb 0 e.freq)) [
  | inl seen ↦ rw seen (SameShape-insert s.key e _ m held)
  | inr once ↦ rw once (SameShape-refl m)
]

step_small-shape :
    (m : Map Entry) (p : S3fifo) (s : Slot) (rest : List Slot)
    → SameShape m (step_small m p s rest).1
unfolding step_small
step_small-shape m p s rest = elim (Bool-cases (is_live s p.in_s)) [
  | inr stale ↦ rw stale (SameShape-refl m)
  | inl live ↦ elim (Option-cases (lookup s.key m)) [
    | inl absent ↦ rw (live, absent) (SameShape-refl m)
    | inr (e, held) ↦ rw (live, held) (leave_small-shape m (record p { small = rest }) s.key e held)
  ]
]

step_main-shape :
    (m : Map Entry) (p : S3fifo) (s : Slot) (rest : List Slot)
    → SameShape m (step_main m p s rest).1
unfolding step_main
step_main-shape m p s rest = elim (Bool-cases (is_live s p.in_m)) [
  | inr stale ↦ rw stale (SameShape-refl m)
  | inl live ↦ elim (Option-cases (lookup s.key m)) [
    | inl absent ↦ rw (live, absent) (SameShape-refl m)
    | inr (e, held) ↦ rw (live, held) (leave_main-shape m (record p { main = rest }) s e held)
  ]
]

shape_of :
    (m : Map Entry) (a out : Stepped) → some a ≡ some out → SameShape m a.1 → SameShape m out.1
shape_of m a out h s = let e : a ≡ out = cc in subst (λ (x : Stepped). SameShape m x.1) e s

pub turn-shape :
    (m : Map Entry) (p : S3fifo) (small main : List Slot) (out : Stepped)
    → turn m p small main ≡ some out
    → SameShape m out.1
unfolding turn
turn-shape m p [] [] out h = absurd (cc)
turn-shape m p (s ∷ rest) [] out h = shape_of m _ out h (step_small-shape m p s rest)
turn-shape m p [] (t ∷ rest) out h = shape_of m _ out h (step_main-shape m p t rest)
turn-shape m p (s ∷ rest) (t ∷ rest') out h =
    shape_of m _ out h (elim (Bool-cases (lt_i64 p.small_bytes p.small_target)) [
      | inl under ↦ rw under (step_main-shape m p t rest')
      | inr full ↦ rw full (step_small-shape m p s rest)
    ])

victim_loop-shape : (steps : ℕ) (m : Map Entry) (p : S3fifo) → SameShape m (victim_loop steps m p).1
unfolding victim_loop
victim_loop-shape zero m p = SameShape-refl m
victim_loop-shape (suc steps) m p = elim (Option-cases (turn m p p.small p.main)) [
  | inl over ↦ rw (over, victim_loop) (SameShape-refl m)
  | inr (out, turned) ↦
      let here = turn-shape m p p.small p.main out turned in
      elim (Option-cases out.0) [
        | inr (k, named) ↦ rw (turned, victim_loop, named) here
        | inl nobody ↦
            rw (turned, victim_loop, nobody)
              (SameShape-trans m out.1 (victim_loop steps out.1 out.2).1 here
                (victim_loop-shape steps out.1 out.2))
      ]
]

on_admit-Keeps : (e : Entry) (p : S3fifo) → Keeps e (on_admit e p).0
unfolding on_admit
on_admit-Keeps e p = elim (Option-cases (lookup e.key p.in_g)) [
  | inl unseen ↦ rw (unseen, on_admit) refl
  | inr (u, seen) ↦ rw (seen, on_admit) refl
]

-- No hook of S3-FIFO adds, drops or changes an entry, except for its frequency counter.
pub s3fifo-IsLawful : IsLawful s3fifo_policy
unfolding s3fifo_policy victim
s3fifo-IsLawful = record {
  victim_keeps = λ c now_us p. victim_loop-shape _ c.entries p;
  access_keeps = λ e p. refl;
  admit_keeps = on_admit-Keeps;
}
