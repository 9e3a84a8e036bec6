-- ===== src/Trace/Ring.antt =====
-- internal/trace/ring.go: the bounded queue between a shard and the recorder. Its counters are the
-- 64-bit words of the source; a method returns the new ring beside its result.
pub mod Fifo
pub mod Size
use Prim.Native.Nat.{bit_and}
use belady.Common.{
  ℕ, zero, suc, ◌+◌, ◌-◌, ◌/◌, ◌%◌, ◌^◌, ◌<◌, Bool, true, false, List, [], ◌∷◌, length, set, get_or,
  replicate, ltb, leb, ◌==◌, if◌then◌else◌, add64, sub64, lt_i64, bit_len,
}

pub record Record : Type 0 where
  pub key_hash : ℕ
  pub timestamp_us : ℕ
  pub size_bytes : ℕ
  pub hit : Bool

pub record Ring : Type 0 where
  pub buf : List Record
  pub mask : ℕ
  pub sample_mask : ℕ
  pub tail : ℕ
  pub cached_head : ℕ
  pub pushed : ℕ
  pub drops : ℕ
  pub head : ℕ

-- A Go array starts with zero values.
abbrev pub zero_record : Record
zero_record = record { key_hash = 0; timestamp_us = 0; size_bytes = 0; hit = false }

unfoldable pub round_up_pow2 : ℕ → ℕ
round_up_pow2 n = if lt_i64 n 1 then 1 else 2 ^ bit_len (sub64 n 1) % 2 ^ 64

unfoldable pub new_ring : ℕ → ℕ → Ring
new_ring capacity sample_denominator =
    let size = round_up_pow2 (if lt_i64 capacity 2 then 2 else capacity) in
    let sample = round_up_pow2 (if lt_i64 sample_denominator 1 then 1 else sample_denominator) in
    record {
      buf = replicate size zero_record;
      mask = sub64 size 1;
      sample_mask = sub64 sample 1;
      tail = 0;
      cached_head = 0;
      pushed = 0;
      drops = 0;
      head = 0;
    }

-- `rec.KeyHash>>32 & sampleMask`: the key is in the sample if no bit is left.
unfoldable pub is_sampled : Ring → ℕ → Bool
is_sampled r key = bit_and (key / 2 ^ 32) r.sample_mask == 0

-- The write of the slot and the store of the tail that publishes it.
unfoldable pub publish : Ring → Record → Ring
publish r rec = record r {
  buf = set r.buf (bit_and r.tail r.mask) rec;
  tail = add64 r.tail 1;
  pushed = add64 r.pushed 1;
}

unfoldable pub push : Ring → Record → Ring × Bool
push r rec =
    if is_sampled r rec.key_hash
    then (if ltb (sub64 r.tail r.cached_head) (length r.buf)
        then (publish r rec, true)
        else (let fresh = record r { cached_head = r.head } in
            if ltb (sub64 r.tail r.head) (length r.buf)
            then (publish fresh rec, true)
            else (record fresh { drops = add64 r.drops 1 }, false)))
    else (r, false)

-- The copy loop of `Drain`, from index `i` for `n` records.
unfoldable pub copy_out : Ring → ℕ → ℕ → List Record
copy_out r i zero = []
copy_out r i (suc n) =
    get_or r.buf (bit_and (add64 r.head i) r.mask) zero_record ∷ copy_out r (i + 1) n

-- `dst_len` is `len(dst)`; the list is what stands in `dst[:n]` after the call.
unfoldable pub drain : Ring → ℕ → List Record × Ring
drain r dst_len =
    let waiting = sub64 r.tail r.head in
    if lt_i64 0 waiting
    then (let n = if lt_i64 dst_len waiting then dst_len else waiting in
        (copy_out r 0 n, record r { head = add64 r.head n }))
    else ([], r)

unfoldable pub counters : Ring → ℕ × ℕ
counters r = (r.pushed, r.drops)
