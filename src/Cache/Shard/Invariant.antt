-- ===== src/Cache/Shard/Invariant.antt =====
-- The invariant of a shard: the byte count is the sum of the entries' sizes and within capacity,
-- each key stands once, and each entry is charged its value's length.
use belady.Common.{
  ℕ, ◌+◌, ◌≤◌, ◌<◌, ◌^◌, ◌≡◌, some, [], ◌∷◌, Map, lookup, insert, erase, All, Distinct, arith, inl,
  inr, ap, sym, ◌∙◌, Option-cases, Bool-cases, insert-Distinct, erase-Distinct, erase_absent,
  All-insert, All-erase, All-lookup, sub64-eq, sign_extend-eq,
}
use belady.Cache.Entry.{Entry, touch, expired}
use belady.Cache.Policy.{Policy}
use belady.Cache.Policy.Laws.{IsLawful, total, IsSound}
use belady.Cache.Shard.{Shard, drop_entry, get, remove, serve}

pub record IsBalanced (m : Map Entry) (used capacity : ℕ) : Type 0 where
  pub distinct : Distinct m
  pub sound : All IsSound m
  pub accounted : used ≡ total m
  pub fits : used ≤ capacity
  pub small : capacity < 2 ^ 62

abbrev pub IsValid : {P : Policy} → Shard P → Type 0
IsValid s = IsBalanced s.m s.used s.capacity

pub total-erase :
    (k : ℕ) (m : Map Entry) (e : Entry)
    → Distinct m
    → lookup k m ≡ some e
    → total (erase k m) + e.size ≡ total m
unfolding erase lookup
total-erase k [] e d h = absurd (cc)
total-erase k ((j, f) ∷ m) e d h = ground (arith, total-erase k m e, erase_absent k m)

pub total-insert :
    (k : ℕ) (m : Map Entry) (e : Entry)
    → Distinct m
    → total (insert k e m) ≡ total (erase k m) + e.size
unfolding erase insert
total-insert k [] e d = omega arith
total-insert k ((j, f) ∷ m) e d = ground (arith, total-insert k m e, erase_absent k m)

module _ {P : Policy} where
  -- Dropping an entry that the shard holds.
  pub drop_entry-IsValid :
      (s : Shard P) (k : ℕ) (e : Entry)
      → IsValid s
      → lookup k s.m ≡ some e
      → IsValid (drop_entry s k e)
  unfolding drop_entry
  drop_entry-IsValid s k e v h =
      let (_, _, small) = All-lookup IsSound k s.m e v.sound h in
      let less = total-erase k s.m e v.distinct h in
      let charge = sign_extend-eq e.size small in
      record {
        distinct = erase-Distinct k s.m v.distinct;
        sound = All-erase IsSound k s.m v.sound;
        accounted = rw charge (omega (arith, v.accounted, v.small, v.fits, sub64-eq s.used e.size));
        fits = rw charge (omega (arith, v.accounted, v.small, v.fits, sub64-eq s.used e.size));
        small = v.small;
      }

  -- A delete on a valid shard leaves it valid: the keys are distinct, the bytes in use are the sum
  -- of the entries' sizes, and they are within the capacity.
  pub remove-IsValid : (s : Shard P) (k : ℕ) → IsValid s → IsValid (remove s k).0
  unfolding remove
  remove-IsValid s k v = elim (Option-cases (lookup k s.m)) [
    | inl absent ↦ rw (absent, remove) v
    | inr (e, held) ↦ rw (held, remove) (drop_entry-IsValid s k e v held)
  ]

  -- A served entry keeps its size and its place.
  serve-IsValid :
      (s : Shard P) (k : ℕ) (e : Entry) (now_us : ℕ)
      → IsLawful P
      → IsValid s
      → lookup k s.m ≡ some e
      → IsValid (serve s k e now_us).0
  unfolding serve touch
  serve-IsValid s k e now_us lawful v h =
      let e' = (P.on_access (touch e now_us) s.policy).0 in
      let kept = lawful.access_keeps (touch e now_us) s.policy in
      let (key, size, small) = All-lookup IsSound k s.m e v.sound h in
      let same : e'.size ≡ e.size = ap (λ (x : Entry). x.size) kept in
      let bytes : total (insert k e' s.m) ≡ total s.m =
        omega (arith, total-insert k s.m e' v.distinct, total-erase k s.m e v.distinct h) in
      record {
        distinct = insert-Distinct k e' s.m v.distinct;
        sound = All-insert IsSound k e' s.m v.sound (rw kept (key, size, small));
        accounted = v.accounted ∙ sym bytes;
        fits = v.fits;
        small = v.small;
      }

  -- Under a lawful policy a read of a valid shard leaves it valid: the keys are distinct, the
  -- bytes in use are the sum of the entries' sizes, and they are within the capacity.
  pub get-IsValid :
      (s : Shard P) (k now_us : ℕ) → IsLawful P → IsValid s → IsValid (get s k now_us).0
  unfolding get
  get-IsValid s k now_us lawful v = elim (Option-cases (lookup k s.m)) [
    | inl absent ↦ rw (absent, get) v
    | inr (e, held) ↦ elim (Bool-cases (expired e now_us)) [
      | inl stale ↦ rw (held, get, stale) (drop_entry-IsValid s k e v held)
      | inr fresh ↦ rw (held, get, fresh) (serve-IsValid s k e now_us lawful v held)
    ]
  ]
