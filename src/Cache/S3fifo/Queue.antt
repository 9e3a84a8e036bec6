-- ===== src/Cache/S3fifo/Queue.antt =====
-- The one live slot of a key: that of the key's generation.
use belady.Common.{
  ℕ, ◌+◌, ◌*◌, ◌≡◌, ◌≢◌, ◌⊎◌, refl, ap, subst, ◌∙◌, true, false, some, List, [], ◌∷◌, ◌++◌, Map,
  lookup, insert, erase, length, ==_refl, ne→==, inl, inr, Bool-cases, lookup-insert, lookup-erase,
  leb,
}
use belady.Cache.S3fifo.{Slot, is_live, live_slots, compact}

abbrev pub Among : Slot → List Slot → Type 0
Among s [] = ⊥
Among s (x ∷ q) = (s ≡ x) ⊎ Among s q

abbrev pub slot : ℕ → ℕ → Slot
slot k g = record { key = k; gen = g }

-- The queue holds the slot of the generation that the map has for the key.
abbrev pub Live : Map ℕ → List Slot → ℕ → Type 0
Live live q k = (g : ℕ) × (lookup k live ≡ some g) × Among (slot k g) q

Among-append : (s x : Slot) (q : List Slot) → Among s q → Among s (q ++ (x ∷ []))
Among-append s x [] h = elim h [ ]
Among-append s x (y ∷ q) h = elim h [ inl e ↦ inl e | inr t ↦ inr (Among-append s x q t) ]

pub Among-last : (x : Slot) (q : List Slot) → Among x (q ++ (x ∷ []))
Among-last x [] = inl refl
Among-last x (y ∷ q) = inr (Among-last x q)

is_live-slot : (k g : ℕ) (live : Map ℕ) → lookup k live ≡ some g → is_live (slot k g) live ≡ true
unfolding is_live
is_live-slot k g live h = rw (h, is_live) (==_refl g)

-- A popped slot of another key, or a stale one, was not the key's live slot.
pub Live-tail :
    (live : Map ℕ) (s : Slot) (q : List Slot) (k : ℕ)
    → (k ≢ s.key) ⊎ (is_live s live ≡ false)
    → Live live (s ∷ q) k
    → Live live q k
Live-tail live s q k other (g, have, among) = elim among [
  | inr tail ↦ (g, have, tail)
  | inl here ↦ absurd (elim other [
    | inl ne ↦ ne (ap (λ (x : Slot). x.key) here)
    | inr stale ↦
        let alive : is_live s live ≡ true =
          subst (λ (x : Slot). is_live x live ≡ true) here (is_live-slot k g live have) in
        cc
  ])
]

pub Live-append :
    (live : Map ℕ) (x : Slot) (q : List Slot) (k : ℕ) → Live live q k → Live live (q ++ (x ∷ [])) k
Live-append live x q k (g, have, among) = (g, have, Among-append (slot k g) x q among)

pub Live-erase :
    (live : Map ℕ) (q : List Slot) (j k : ℕ) → j ≢ k → Live live q k → Live (erase j live) q k
Live-erase live q j k ne (g, have, among) =
    (g, lookup-erase j k live ∙ rw (ne→== j k ne) have, among)

-- A push under a fresh generation: the key is live, and so is what was.
pub Live-push_self :
    (live : Map ℕ) (q : List Slot) (k g : ℕ) → Live (insert k g live) (q ++ (slot k g ∷ [])) k
Live-push_self live q k g =
    (g, lookup-insert k k g live ∙ rw (==_refl k) refl, Among-last (slot k g) q)

pub Live-push_ne :
    (live : Map ℕ) (q : List Slot) (j g k : ℕ)
    → j ≢ k
    → Live live q k
    → Live (insert j g live) (q ++ (slot j g ∷ [])) k
Live-push_ne live q j g k ne (g', have, among) = (
  g',
  lookup-insert j k g live ∙ rw (ne→== j k ne) have,
  Among-append (slot k g') (slot j g) q among,
)

live_slots-Among :
    (live : Map ℕ) (s : Slot) (q : List Slot)
    → is_live s live ≡ true
    → Among s q
    → Among s (live_slots q live)
unfolding live_slots
live_slots-Among live s [] alive h = elim h [ ]
live_slots-Among live s (x ∷ q) alive h = elim (Bool-cases (is_live x live)) [
  | inl live_x ↦
      rw live_x
        (elim h [ inl here ↦ inl here | inr tail ↦ inr (live_slots-Among live s q alive tail) ])
  | inr stale ↦ rw stale (elim h [
    | inl here ↦
        absurd
          (let e : is_live s live ≡ is_live x live = ap (λ (y : Slot). is_live y live) here in cc)
    | inr tail ↦ live_slots-Among live s q alive tail
  ])
]

-- `compact` loses no live slot.
pub Live-compact :
    (live : Map ℕ) (q : List Slot) (k : ℕ) → Live live q k → Live live (compact q live) k
unfolding compact
Live-compact live q k (g, have, among) = elim (Bool-cases (leb (length q) (2 * length live + 64))) [
  | inl short ↦ rw short (g, have, among)
  | inr long ↦
      rw long (g, have, live_slots-Among live (slot k g) q (is_live-slot k g live have) among)
]
