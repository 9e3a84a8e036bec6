-- ===== src/Features.antt =====
-- internal/features/features.go: the columns of the feature vector and `Extract`.
pub mod Layout
use belady.Common.{ℕ, ◌+◌, ◌/◌, List, [], ◌∷◌, ◌++◌, map, if◌then◌else◌, sub64, lt_i64}
use belady.Common.Float.{Float32}
use belady.Common.Text.{Text, codes}

abbrev pub history_len : ℕ
history_len = 8

-- The indices `SizeBytes` to `Delta0`, and `Count`.
abbrev pub delta0 : ℕ
delta0 = 6

abbrev pub feature_count : ℕ
feature_count = delta0 + history_len

unfoldable pub names : List Text
names =
    codes "size_bytes"
    ∷ codes "recency_ms"
    ∷ codes "age_ms"
    ∷ codes "accesses"
    ∷ codes "frequency"
    ∷ codes "reuse_rate"
    ∷ map (λ i. codes "delta_" ++ (i ∷ []))
        (b'0' ∷ b'1' ∷ b'2' ∷ b'3' ∷ b'4' ∷ b'5' ∷ b'6' ∷ b'7' ∷ [])

-- `Input`: times are int64 words, the size an int32 word.
pub record Input : Type 0 where
  pub deltas : List ℕ
  pub now_us : ℕ
  pub last_access_us : ℕ
  pub admitted_us : ℕ
  pub size_bytes : ℕ
  pub accesses : ℕ
  pub frequency : ℕ

-- `now - then`, or 0 where that is negative.
unfoldable pub elapsed : ℕ → ℕ → ℕ
elapsed now_us then_us = let raw = sub64 now_us then_us in if lt_i64 raw 0 then 0 else raw

module _ (fl : Float32) where
  open fl use {F, one_f, million_f, add_f, div_f, of_i32, of_i64, of_u32}

  -- What `Extract` leaves in `dst[:Count]`.
  unfoldable pub extract : Input → List F
  unfolding elapsed
  extract i =
      let recency = elapsed i.now_us i.last_access_us in
      let age = elapsed i.now_us i.admitted_us in
      of_i32 i.size_bytes
      ∷ of_i64 (recency / 1000)
      ∷ of_i64 (age / 1000)
      ∷ of_u32 i.accesses
      ∷ of_u32 i.frequency
      ∷ div_f (of_u32 i.accesses) (add_f (div_f (of_i64 age) million_f) one_f)
      ∷ map of_u32 i.deltas
