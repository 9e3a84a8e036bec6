-- ===== src/Trace/Recorder.antt =====
-- internal/trace/recorder.go: the background writer of the segment files. `itoa` is `%d`.
pub mod Published
pub mod Log
pub mod Write
pub mod Encoded
pub mod Session
pub mod Drained
use belady.Common.{
  ℕ, zero, suc, ◌+◌, ◌-◌, ◌*◌, ◌^◌, ◌⊎◌, inl, inr, Bool, true, false, not, ◌==◌, Option, none, some,
  List, [], ◌∷◌, ◌++◌, length, take, replicate, ltb, leb, add64, sub64, lt_i64, if◌then◌else◌,
  ◌>>=◌, Map, lookup, insert, erase,
}
use belady.Common.Text.{Text, is_empty}
use belady.Trace.Disk.{Disk, Outcome, CloseError, not_closed, publish, cut_file, join, append_bytes}
use belady.Trace.Ring
use belady.Trace.Ring.{Ring, Record, new_ring}
use belady.Trace.Wire.{AccessBatch, Protobuf, frame}

-- Numbers are int64 words; durations are in nanoseconds.
pub record Config : Type 0 where
  pub dir : Text
  pub node_id : Text
  pub shards : ℕ
  pub ring_capacity : ℕ
  pub sample_denominator : ℕ
  pub segment_bytes : ℕ
  pub flush_interval : ℕ
  pub segment_max_age : ℕ
  pub batch_size : ℕ

-- `file` and `path` are set and cleared together: the open file is known by its path. `batch` and
-- the buffers are written before they are read, each time.
pub record Recorder : Type 0 where
  pub cfg : Config
  pub rings : List Ring
  pub file : Option ℕ
  pub opened : ℕ
  pub written : ℕ
  pub lost : ℕ
  pub size : ℕ
  pub sequence : ℕ

pub data WriteError : Type 0 where
  not_encoded : WriteError
  not_opened : WriteError
  not_written : WriteError

pub data NewError : Type 0 where
  no_shards : NewError
  no_dir : NewError
  not_made : NewError
  not_writable : NewError

unfoldable pub positive_or : ℕ → ℕ → ℕ
positive_or default n = if lt_i64 0 n then n else default

unfoldable pub with_defaults : Config → Config
with_defaults cfg = record cfg {
  ring_capacity = positive_or 8192 cfg.ring_capacity;
  batch_size = positive_or 4096 cfg.batch_size;
  segment_bytes = positive_or (32 * 2 ^ 20) cfg.segment_bytes;
  flush_interval = positive_or 1000000000 cfg.flush_interval;
  segment_max_age = positive_or 60000000000 cfg.segment_max_age;
}

abbrev pub fresh_recorder : Config → Recorder
fresh_recorder cfg = record {
  cfg = cfg;
  rings = replicate cfg.shards (new_ring cfg.ring_capacity cfg.sample_denominator);
  file = none;
  opened = 0;
  written = 0;
  lost = 0;
  size = 0;
  sequence = 0;
}

-- `New`; `made` and `writable` are what `MkdirAll` and the probe answer.
unfoldable pub new_recorder : Config → Bool → Bool → NewError ⊎ Recorder
new_recorder cfg made writable =
    if not (lt_i64 0 cfg.shards)
    then inl no_shards
    else if is_empty cfg.dir
    then inl no_dir
    else if not made
    then inl not_made
    else if not writable
    then inl not_writable
    else inr (fresh_recorder (with_defaults cfg))

-- `Stats`: the records written, and those dropped by a ring or lost in a failed write.
unfoldable pub all_drops : List Ring → ℕ
all_drops [] = 0
all_drops (r ∷ rings) = add64 (Ring.counters r).1 (all_drops rings)

unfoldable pub stats : Recorder → ℕ × ℕ
stats r = (r.written, add64 (all_drops r.rings) r.lost)

-- `r.file, r.path, r.size = nil, "", 0`
abbrev pub closed : Recorder → Recorder
closed r = record r { file = none; size = 0 }

unfoldable pub close_segment : Outcome → Recorder → Disk → Recorder × Disk × Option CloseError
close_segment f r d = elim r.file [
  | none ↦ (r, d, none)
  | some path ↦
      if f.close_fails
      then (closed r, d, some not_closed)
      else (let (d1, e) = publish f path r.size d in (closed r, d1, e))
]

-- It is called with a file open.
unfoldable pub truncate_segment : Outcome → ℕ → Recorder → Disk → Recorder × Disk × List CloseError
truncate_segment f path r d =
    let (d1, cut) = cut_file f path r.size d in
    let (d2, published) = publish f path r.size d1 in (closed r, d2, join cut published)

-- A new file, unless there is one of its name.
unfoldable pub ensure_segment : Outcome → Recorder → Disk → Recorder × Disk × Option WriteError
ensure_segment f r d = elim r.file [
  | some path ↦ (r, d, none)
  | none ↦ elim (lookup f.nanos d.partials) [
    | some bytes ↦ (r, d, some not_opened)
    | none ↦ if f.open_fails then (r, d, some not_opened) else (
      record r { file = some f.nanos; size = 0; opened = f.opened_at },
      record d { partials = insert f.nanos [] d.partials },
      none,
    )
  ]
]

-- What follows a whole write: the counters, and the rotation, whose error is only logged.
unfoldable pub count_batch : Outcome → ℕ → ℕ → Recorder → Disk → Recorder × Disk
count_batch f bytes records r d =
    let r1 = record r { size = add64 r.size bytes; written = add64 r.written records } in
    if lt_i64 r1.size r1.cfg.segment_bytes
    then (r1, d)
    else (let (r2, d2, e) = close_segment f r1 d in (r2, d2))

module _ (w : Protobuf) (itoa : ℕ → Text) where
  -- The write of a frame, to the open file.
  unfoldable pub write_frame :
      Outcome → ℕ → List ℕ → ℕ → Recorder → Disk → Recorder × Disk × Option WriteError
  write_frame f path encoded records r d = elim f.missing [
    | some m ↦
        let partly = take (length (frame w encoded) - suc m) (frame w encoded) in
        let (r1, d1, errs) = truncate_segment f path r (append_bytes path partly d) in
        (r1, d1, some not_written)
    | none ↦
        let (r1, d1) =
          count_batch f (length (frame w encoded)) records r
            (append_bytes path (frame w encoded) d) in
        (r1, d1, none)
  ]

  -- The batch that is written, with the next sequence number.
  unfoldable pub batch_of : ℕ → List Record → Recorder → AccessBatch
  batch_of shard recs r = record {
    node_id = r.cfg.node_id ++ (b'/' ∷ itoa shard);
    sequence = add64 r.sequence 1;
    records = recs;
  }

  -- What follows `ensureSegment`.
  unfoldable pub write_ensured :
      Outcome
      → List ℕ
      → ℕ
      → Recorder × Disk × Option WriteError
      → Recorder × Disk × Option WriteError
  write_ensured f encoded records (r, d, some err) = (r, d, some err)
  write_ensured f encoded records (r, d, none) = elim r.file [
    | none ↦ (r, d, some not_written)
    | some path ↦ write_frame f path encoded records r d
  ]

  unfoldable pub write_encoded :
      Outcome → List ℕ → ℕ → Recorder → Disk → Recorder × Disk × Option WriteError
  write_encoded f encoded records r d = write_ensured f encoded records (ensure_segment f r d)

  unfoldable pub write_batch :
      Outcome → ℕ → List Record → Recorder → Disk → Recorder × Disk × Option WriteError
  write_batch f shard recs r d =
      let r1 = record r { sequence = add64 r.sequence 1 } in
      elim (w.marshal (batch_of shard recs r)) [
        | none ↦ (r1, d, some not_encoded)
        | some encoded ↦ write_encoded f encoded (length recs) r1 d
      ]

  -- The rotation that `Run` makes after a tick, by the age of the segment.
  unfoldable pub rotate : Outcome → ℕ → Recorder → Disk → Recorder × Disk
  rotate f age r d =
      if lt_i64 age r.cfg.segment_max_age
      then (r, d)
      else (let (r1, d1, e) = close_segment f r d in (r1, d1))

  -- The loop of `drainAll` on one ring, with an outcome for each batch, by the sequence number before
  -- it. Out of fuel there is no result.
  unfoldable pub drain_ring :
      ℕ
      → (ℕ → Outcome)
      → ℕ
      → Ring
      → Recorder
      → Disk
      → Option (Ring × Recorder × Disk × Option WriteError)
  drain_ring zero env shard ring r d = none
  drain_ring (suc fuel) env shard ring r d =
      let (recs, ring1) = Ring.drain ring r.cfg.batch_size in
      elim (length recs == 0) [
        | true ↦ some (ring1, r, d, none)
        | false ↦
            let (r1, d1, e) = write_batch (env r.sequence) shard recs r d in
            elim e [
              | some err ↦
                  some (ring1, record r1 { lost = add64 r1.lost (length recs) }, d1, some err)
              | none ↦ elim (lt_i64 (length recs) r.cfg.batch_size) [
                | true ↦ some (ring1, r1, d1, none)
                | false ↦ drain_ring fuel env shard ring1 r1 d1
              ]
            ]
      ]

  -- `drainAll`, from the ring of the given shard on: an error ends it, and the rings behind keep what
  -- they hold. A ring's slots are fuel enough.
  unfoldable pub drain_rings :
      (ℕ → Outcome)
      → ℕ
      → List Ring
      → Recorder
      → Disk
      → Option (List Ring × Recorder × Disk × Option WriteError)
  drain_rings env shard [] r d = some ([], r, d, none)
  drain_rings env shard (ring ∷ rings) r d =
      elim (drain_ring (suc (length ring.buf)) env shard ring r d) [
        | none ↦ none
        | some (ring1, r1, d1, e) ↦ elim e [
          | some err ↦ some (ring1 ∷ rings, r1, d1, some err)
          | none ↦ elim (drain_rings env (suc shard) rings r1 d1) [
            | none ↦ none
            | some (rest, r2, d2, e2) ↦ some (ring1 ∷ rest, r2, d2, e2)
          ]
        ]
      ]

  unfoldable pub drain_all :
      (ℕ → Outcome) → Recorder → Disk → Option (Recorder × Disk × Option WriteError)
  drain_all env r d = drain_rings env 0 r.rings r d >>= λ (rings, r1, d1, e).
      some (record r1 { rings = rings }, d1, e)
