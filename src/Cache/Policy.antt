-- ===== src/Cache/Policy.antt =====
-- internal/cache/policy.go: the interfaces `Policy` and `Candidates`, and the shard's `Sample`.
-- Entries are shared by pointer, so a hook returns the entry as it leaves it, and `victim` the
-- shard's entries as it leaves them.
pub mod Laws
use belady.Common.{
  ℕ, Bool, true, false, Option, List, [], ◌∷◌, Map, ◌==◌, if◌then◌else◌, sub64, lt_i64,
}
use belady.Cache.Entry.{Entry}

-- A shard as a policy sees it: its map, and the order in which the next `range` over it goes.
pub record Candidates : Type 0 where
  pub entries : Map Entry
  pub order : List Entry

module _ {S : Type 0} (visit : Entry → S → S × Bool) where
  unfoldable pub sample_loop : ℕ → List Entry → S → S
  sample_loop n [] s = s
  sample_loop n (e ∷ es) s =
      let (s', go_on) = visit e s in
      if go_on then (if sub64 n 1 == 0 then s' else sample_loop (sub64 n 1) es s') else s'

  -- `n` is an int.
  unfoldable pub sample : ℕ → Candidates → S → S
  sample n c s = if lt_i64 0 n then sample_loop n c.order s else s

pub record Policy : Type 1 where
  pub State : Type 0
  pub name : List ℕ
  pub victim : Candidates → ℕ → State → Option ℕ × Map Entry × State
  pub on_access : Entry → State → Entry × State
  pub on_admit : Entry → State → Entry × State
  pub on_remove : Entry → State → State
