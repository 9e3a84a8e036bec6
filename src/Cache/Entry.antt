-- ===== src/Cache/Entry.antt =====
-- internal/cache/entry.go: one cached object and the history that policies score it on.
use Prim.Native.Nat.{◌/◌}
use belady.Common.{
  ℕ, ◌+◌, ◌-◌, ◌^◌, Bool, not, ◌&&◌, List, ◌∷◌, take, ltb, ◌==◌, if◌then◌else◌, sub64, lt_i64,
}

abbrev pub history_len : ℕ
history_len = 8

-- Times are int64 microseconds; `expires` is 0 for an entry that never expires. `deltas` is the
-- array of `history_len` gaps in milliseconds, newest first.
pub record Entry : Type 0 where
  pub value : List ℕ
  pub key : ℕ
  pub last_access : ℕ
  pub admitted : ℕ
  pub expires : ℕ
  pub deltas : List ℕ
  pub size : ℕ
  pub accesses : ℕ
  pub freq : ℕ

unfoldable pub expired : Entry → ℕ → Bool
expired e now_us = not (e.expires == 0) && not (lt_i64 now_us e.expires)

-- The gap since the last access, in milliseconds, from 0 to the largest uint32.
unfoldable pub gap_ms : ℕ → ℕ → ℕ
gap_ms last_access now_us =
    let raw = sub64 now_us last_access in
    let gap = if lt_i64 raw 0 then 0 else raw in
    let ms = gap / 1000 in if lt_i64 (2 ^ 32 - 1) ms then 2 ^ 32 - 1 else ms

unfoldable pub touch : Entry → ℕ → Entry
touch e now_us = record e {
  deltas = gap_ms e.last_access now_us ∷ take (history_len - 1) e.deltas;
  last_access = now_us;
  accesses = if ltb e.accesses (2 ^ 32 - 1) then e.accesses + 1 else e.accesses;
  freq = if ltb e.freq 3 then e.freq + 1 else e.freq;
}
