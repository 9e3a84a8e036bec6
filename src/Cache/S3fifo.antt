-- ===== src/Cache/S3fifo.antt =====
-- internal/cache/s3fifo.go: three FIFO queues of keys. A method of the policy returns its new state;
-- where it writes through an entry's pointer it returns the shard's entries too.
pub mod Lawful
pub mod Queue
pub mod Progress
pub mod Live
use belady.Common.{
  ℕ, zero, suc, ◌+◌, ◌*◌, ◌/◌, ◌<◌, Bool, true, false, not, ◌&&◌, Option, none, some, List, [], ◌∷◌,
  ◌++◌, Map, lookup, insert, erase, length, ltb, leb, ◌==◌, if◌then◌else◌, add64, sub64, lt_i64,
  sign_extend,
}
use belady.Cache.Entry.{Entry}
use belady.Cache.Policy.{Policy, Candidates}

pub record Slot : Type 0 where
  pub key : ℕ
  pub gen : ℕ

pub record S3fifo : Type 0 where
  pub in_s : Map ℕ
  pub in_m : Map ℕ
  pub in_g : Map (Unit {0})
  pub small : List Slot
  pub main : List Slot
  pub ghost : List ℕ
  pub gen : ℕ
  pub small_bytes : ℕ
  pub small_target : ℕ
  pub ghost_target : ℕ

abbrev pub small_fraction : ℕ
small_fraction = 10

-- The state of a new policy. The capacity is positive: `New` of the cache refuses any other.
unfoldable pub new_s3fifo : ℕ → S3fifo
new_s3fifo capacity = record {
  in_s = [];
  in_m = [];
  in_g = [];
  small = [];
  main = [];
  ghost = [];
  gen = 0;
  small_bytes = 0;
  small_target = if capacity / small_fraction == 0 then 1 else capacity / small_fraction;
  ghost_target = if ltb (capacity / 1024) 16 then 16 else capacity / 1024;
}

-- The slot that `push` queues, with the generation that it counts up to.
abbrev pub next_slot : S3fifo → ℕ → Slot
next_slot p key = record { key = key; gen = add64 p.gen 1 }

unfoldable pub push_small : S3fifo → ℕ → S3fifo
push_small p key = record p {
  gen = add64 p.gen 1;
  in_s = insert key (add64 p.gen 1) p.in_s;
  small = p.small ++ (next_slot p key ∷ []);
}

unfoldable pub push_main : S3fifo → ℕ → S3fifo
push_main p key = record p {
  gen = add64 p.gen 1;
  in_m = insert key (add64 p.gen 1) p.in_m;
  main = p.main ++ (next_slot p key ∷ []);
}

unfoldable pub is_live : Slot → Map ℕ → Bool
is_live s live = elim (lookup s.key live) [ none ↦ false | some gen ↦ gen == s.gen ]

unfoldable pub live_slots : List Slot → Map ℕ → List Slot
live_slots [] live = []
live_slots (s ∷ q) live = if is_live s live then s ∷ live_slots q live else live_slots q live

unfoldable pub compact : List Slot → Map ℕ → List Slot
compact q live = if leb (length q) (2 * length live + 64) then q else live_slots q live

unfoldable pub on_admit : Entry → S3fifo → Entry × S3fifo
on_admit e p = elim (lookup e.key p.in_g) [
  | some _ ↦
      let q = push_main (record p { in_g = erase e.key p.in_g }) e.key in
      (record e { freq = 0 }, record q { main = compact q.main q.in_m })
  | none ↦
      let q = push_small p e.key in
      (
        record e { freq = 0 },
        record q {
          small = compact q.small q.in_s;
          small_bytes = add64 q.small_bytes (sign_extend e.size);
        },
      )
]

unfoldable pub on_remove : Entry → S3fifo → S3fifo
on_remove e p =
    let q : S3fifo = elim (lookup e.key p.in_s) [
      | some _ ↦ record p {
        in_s = erase e.key p.in_s;
        small_bytes = sub64 p.small_bytes (sign_extend e.size);
      }
      | none ↦ p
    ] in
    record q { in_m = erase e.key q.in_m }

-- The loop that keeps the ghost queue within its target, oldest keys first.
unfoldable pub trim_ghost : ℕ → List ℕ → Map (Unit {0}) → List ℕ × Map (Unit {0})
trim_ghost target [] in_g = ([], in_g)
trim_ghost target (k ∷ ks) in_g =
    let rest = trim_ghost target ks (erase k in_g) in
    if ltb target (length (k ∷ ks)) then rest else (k ∷ ks, in_g)

unfoldable pub remember_ghost : S3fifo → ℕ → S3fifo
remember_ghost p key =
    let (ghost', in_g') =
      trim_ghost p.ghost_target (p.ghost ++ (key ∷ [])) (insert key tt p.in_g) in
    record p { ghost = ghost'; in_g = in_g' }

-- A step's result: the victim if one is named, the entries and the state.
abbrev pub Stepped : Type 0
Stepped = Option ℕ × Map Entry × S3fifo

-- `stepSmall` past its two early returns: the slot is live and its key is held.
unfoldable pub leave_small : Map Entry → S3fifo → ℕ → Entry → Stepped
leave_small m p key e =
    let q = record p {
      in_s = erase key p.in_s;
      small_bytes = sub64 p.small_bytes (sign_extend e.size);
    } in
    if ltb 0 e.freq
    then (none, insert key (record e { freq = 0 }) m, push_main q key)
    else (some key, m, remember_ghost q key)

unfoldable pub step_small : Map Entry → S3fifo → Slot → List Slot → Stepped
step_small m p s rest =
    let q = record p { small = rest } in
    if is_live s p.in_s
    then (elim (lookup s.key m) [ none ↦ (none, m, q) | some e ↦ leave_small m q s.key e ])
    else (none, m, q)

-- `stepMain` past its early returns.
unfoldable pub leave_main : Map Entry → S3fifo → Slot → Entry → Stepped
leave_main m p s e =
    if ltb 0 e.freq
    then (
      none,
      insert s.key (record e { freq = sub64 e.freq 1 }) m,
      record p { main = p.main ++ (s ∷ []) },
    )
    else (some s.key, m, p)

unfoldable pub step_main : Map Entry → S3fifo → Slot → List Slot → Stepped
step_main m p s rest =
    let q = record p { main = rest } in
    if is_live s p.in_m
    then (elim (lookup s.key m) [ none ↦ (none, m, q) | some e ↦ leave_main m q s e ])
    else (none, m, q)

-- One round of `Victim` on the contents of the two queues, or `none` where both are empty.
unfoldable pub turn : Map Entry → S3fifo → List Slot → List Slot → Option Stepped
turn m p [] [] = none
turn m p (s ∷ rest) [] = some (step_small m p s rest)
turn m p [] (t ∷ rest) = some (step_main m p t rest)
turn m p (s ∷ rest) (t ∷ rest') =
    some
      (if lt_i64 p.small_bytes p.small_target then step_main m p t rest' else step_small m p s rest)

unfoldable pub victim_loop : ℕ → Map Entry → S3fifo → Stepped
victim_loop zero m p = (none, m, p)
victim_loop (suc steps) m p = elim (turn m p p.small p.main) [
  | none ↦ (none, m, p)
  | some (key, m', p') ↦
      let rest = victim_loop steps m' p' in elim key [ some k ↦ (some k, m', p') | none ↦ rest ]
]

unfoldable pub victim : Candidates → ℕ → S3fifo → Stepped
victim c now_us p = victim_loop (4 * (length p.small + length p.main) + 8) c.entries p

-- "s3fifo". `OnAccess` is empty: `touch` keeps the counter.
unfoldable pub s3fifo_policy : Policy
s3fifo_policy = record {
  State = S3fifo;
  name = b's' ∷ b'3' ∷ b'f' ∷ b'i' ∷ b'f' ∷ b'o' ∷ [];
  victim = victim;
  on_access = λ e p. (e, p);
  on_admit = on_admit;
  on_remove = on_remove;
}
