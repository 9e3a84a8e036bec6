-- ===== src/Trace/Ring/Fifo.antt =====
-- A ring against the queue of the records between its two cursors.
use Prim.Native.Nat.{bit_and}
use native.Mathlib.Decide.{dec_lt}
use native.Mathlib.Nat.{mod-lt, mod-eq_of_lt, mod-eq-sub-mod, mod-add-mod, suc-add}
use belady.Common.{
  ℕ, zero, suc, ◌+◌, ◌-◌, ◌%◌, ◌^◌, ◌≤◌, ◌<◌, ◌≡◌, ◌≢◌, refl, sym, ap, ap₂, ◌∙◌, List, [], ◌∷◌,
  ◌++◌, length, set, get_or, length-set, get_or-set_self, get_or-set_ne, if◌then◌else◌, ltb, ◌&&◌,
  take, drop, arith, add64-eq, sub64-eq, lt_i64-eq, bit_and_mask,
}
use belady.Trace.Ring.{Record, Ring, zero_record, is_sampled, publish, push, copy_out, drain}

-- `2 ^ k` slots, a mask of `k` ones, and cursors in order. `cached_head` may lag behind `head`.
-- The cursors count records since the start and have not wrapped.
pub record IsValid (k : ℕ) (r : Ring) : Type 0 where
  pub slots : length r.buf ≡ 2 ^ k
  pub masked : r.mask ≡ 2 ^ k - 1
  pub small : k ≤ 62
  pub lagging : r.cached_head ≤ r.head
  pub ordered : r.head ≤ r.tail
  pub room : r.tail ≤ r.cached_head + 2 ^ k
  pub unwrapped : r.tail < 2 ^ 63

-- The `n` records from cursor `h` on.
abbrev pub window : List Record → ℕ → ℕ → ℕ → List Record
window buf c h zero = []
window buf c h (suc n) = get_or buf (h % c) zero_record ∷ window buf c (h + 1) n

abbrev pub contents : Ring → List Record
contents r = window r.buf (length r.buf) r.head (r.tail - r.head)

pub length-window : (buf : List Record) (c h n : ℕ) → length (window buf c h n) ≡ n
length-window buf c h zero = refl
length-window buf c h (suc n) = ap suc (length-window buf c (h + 1) n)

-- Fewer than `c` steps on, the slot is another one.
add-mod-ne : (c h k : ℕ) → suc k < c → (h + suc k) % c ≢ h % c
add-mod-ne c h k lt same = elim (dec_lt (h % c + suc k) c) [
  | yes p ↦ omega (arith, mod-add-mod h c (suc k), mod-eq_of_lt p)
  | no p ↦ omega (
    arith,
    mod-lt h {m = c} (omega arith),
    mod-add-mod h c (suc k),
    mod-eq-sub-mod {n = h % c + suc k} {m = c} (omega arith),
    mod-eq_of_lt {n = h % c + suc k - c} {m = c} (omega (arith, mod-lt h {m = c} (omega arith))),
  )
]

-- A write just past a window extends it.
window-set :
    (buf : List Record) (c : ℕ) (rec : Record) (n h i : ℕ)
    → c ≡ length buf
    → n < c
    → i ≡ (h + n) % c
    → window (set buf i rec) c h (suc n) ≡ window buf c h n ++ (rec ∷ [])
window-set buf c rec zero h i len lt at =
    let here : i ≡ h % c = at ∙ ap (λ (t : ℕ). t % c) (omega arith) in
    let inside : i < length buf = omega (arith, mod-lt h {m = c} (omega arith)) in
    rw (← here, get_or-set_self buf i rec zero_record inside)
window-set buf c rec (suc n) h i len lt at =
    ap₂ ◌∷◌ (get_or-set_ne buf rec zero_record (λ e. add-mod-ne c h n lt (omega arith))) (
      window-set buf c rec n (h + 1) i len (omega arith) (at ∙ ap (λ (t : ℕ). t % c) (omega arith)))

-- A prefix of a window is a window, and so is what it leaves.
take-window : (buf : List Record) (c h m n : ℕ) → take m (window buf c h (m + n)) ≡ window buf c h m
take-window buf c h zero n = refl
take-window buf c h (suc m) n =
    rw suc-add (ap (◌∷◌ (get_or buf (h % c) zero_record)) (take-window buf c (h + 1) m n))

drop-window :
    (buf : List Record) (c h m n : ℕ) → drop m (window buf c h (m + n)) ≡ window buf c (h + m) n
drop-window buf c h zero n = ap₂ (window buf c) (omega arith) (omega arith)
drop-window buf c h (suc m) n =
    rw suc-add (drop-window buf c (h + 1) m n ∙ ap (λ (t : ℕ). window buf c t n) (omega arith))

take_all : (n : ℕ) (xs : List Record) → length xs ≤ n → (take n xs ≡ xs) × (drop n xs ≡ [])
take_all zero [] h = (refl, refl)
take_all (suc n) [] h = (refl, refl)
take_all zero (x ∷ xs) h = absurd (omega arith)
take_all (suc n) (x ∷ xs) h = let (t, d) = take_all n xs (omega arith) in (ap (◌∷◌ x) t, d)

copy_out-window :
    (k : ℕ) (r : Ring) (i n : ℕ)
    → r.mask ≡ 2 ^ k - 1
    → r.head + i + n < 2 ^ 64
    → copy_out r i n ≡ window r.buf (2 ^ k) (r.head + i) n
unfolding copy_out
copy_out-window k r i zero masked small = refl
copy_out-window k r i (suc n) masked small =
    rw (masked, add64-eq r.head i (omega arith), bit_and_mask)
      (ap (◌∷◌ (get_or r.buf ((r.head + i) % 2 ^ k) zero_record)) (
        copy_out-window k r (i + 1) n masked (omega arith)
        ∙ ap (λ (t : ℕ). window r.buf (2 ^ k) t n) {y = r.head + i + 1} (omega arith)))

publish-contents :
    (k : ℕ) (r : Ring) (rec : Record)
    → IsValid k r
    → r.tail < r.head + 2 ^ k
    → contents (publish r rec) ≡ contents r ++ (rec ∷ [])
unfolding publish
publish-contents k r rec v room =
    let more : r.tail + 1 - r.head ≡ suc (r.tail - r.head) = omega (arith, v.ordered) in
    rw (v.masked, bit_and_mask, add64-eq r.tail 1 (omega (arith, v.unwrapped)), length-set, more)
      (window-set r.buf (length r.buf) rec (r.tail - r.head) r.head (r.tail % 2 ^ k) refl
        (omega (arith, v.slots, v.ordered))
        (ap₂ ◌%◌ {y = r.head + (r.tail - r.head)} (omega (arith, v.ordered)) (sym v.slots)))

publish-IsValid :
    (k : ℕ) (r : Ring) (rec : Record)
    → IsValid k r
    → r.tail < r.cached_head + 2 ^ k
    → r.tail + 1 < 2 ^ 63
    → IsValid k (publish r rec)
unfolding publish
publish-IsValid k r rec v room more =
    omega (arith, length-set r.buf (bit_and r.tail r.mask) rec, add64-eq r.tail 1 (omega arith))

-- On a valid ring of 2 ^ k slots whose tail is below 2 ^ 63 - 1, Push takes a record exactly when
-- its key is in the sample and fewer than 2 ^ k records wait; a taken record goes to the end of
-- the queue, any other leaves the queue as it was, and the ring stays valid.
pub push_refines :
    (k : ℕ) {r : Ring} (rec : Record)
    → IsValid k r
    → r.tail + 1 < 2 ^ 63
    → let (r', done) = push r rec in
      (done ≡ is_sampled r rec.key_hash && ltb (length (contents r)) (2 ^ k))
      × (contents r' ≡ (if done then contents r ++ (rec ∷ []) else contents r))
      × IsValid k r'
unfolding push
push_refines k {r} rec v more =
    let fresh = record r { cached_head = r.head } in
    ground (
      arith,
      sub64-eq r.tail r.cached_head,
      sub64-eq r.tail r.head,
      length-window r.buf (length r.buf) r.head (r.tail - r.head),
      publish-contents k r rec,
      publish-contents k fresh rec,
      publish-IsValid k r rec,
      publish-IsValid k fresh rec,
    )

-- On a valid ring and for a destination of less than 2 ^ 63 records, Drain takes the oldest
-- records, as many as wait and fit, in order, leaves the others, and the ring stays valid.
pub drain_refines :
    (k n : ℕ) {r : Ring}
    → IsValid k r
    → n < 2 ^ 63
    → let (out, r') = drain r n in
      (out ≡ take n (contents r)) × (contents r' ≡ drop n (contents r)) × IsValid k r'
unfolding drain
drain_refines k n {r} v small =
    let w = r.tail - r.head in
    let m = if ltb n w then n else w in
    ground (
      arith,
      sub64-eq r.tail r.head,
      lt_i64-eq 0 w,
      lt_i64-eq n w,
      add64-eq r.head n,
      add64-eq r.head w,
      copy_out-window k r 0 n,
      copy_out-window k r 0 w,
      take-window r.buf (length r.buf) r.head n (w - n),
      drop-window r.buf (length r.buf) r.head n (w - n),
      take_all n (contents r),
      length-window r.buf (length r.buf) r.head w,
    )
