-- ===== src/Trace/Reader.antt =====
-- internal/trace/reader.go: `ReadFile` and `ReadDir`, on the bytes of the segments.
pub mod Laws
pub mod Ends
pub mod Listed
use belady.Common.{
  ℕ, zero, suc, Bool, true, false, Option, none, some, List, [], ◌∷◌, ◌++◌, ◌>>=◌, map, length,
  take, drop, ltb,
}
use belady.Trace.Names.{tmp_extension, Directory, glob, segments_of}
use belady.Trace.Wire.{AccessBatch, Protobuf, whole, truncated, invalid}

pub data ReadError : Type 0 where
  truncated_prefix : ReadError
  corrupt_prefix : ReadError
  truncated_frame : ReadError
  corrupt_batch : ReadError
  no_segments : ReadError
  still_open : ReadError

-- `errors.Is(err, io.ErrUnexpectedEOF)`
unfoldable pub is_unexpected_eof : ReadError → Bool
is_unexpected_eof truncated_prefix = true
is_unexpected_eof corrupt_prefix = false
is_unexpected_eof truncated_frame = true
is_unexpected_eof corrupt_batch = false
is_unexpected_eof no_segments = false
is_unexpected_eof still_open = false

abbrev pub Reading : Type 0
Reading = List AccessBatch × Option ReadError

-- `append(batches, &batch)`, before what is read after it.
abbrev after_batch : AccessBatch → Reading → Option Reading
after_batch b (batches, e) = some (b ∷ batches, e)

module _ (w : Protobuf) where
  -- The loop of `ReadFile`. Out of fuel there is no result.
  unfoldable pub read_frames : ℕ → List ℕ → Option Reading
  read_frames fuel [] = some ([], none)
  read_frames zero (x ∷ xs) = none
  read_frames (suc fuel) (x ∷ xs) = elim (w.consume_varint (x ∷ xs)) [
    | truncated ↦ some ([], some truncated_prefix)
    | invalid ↦ some ([], some corrupt_prefix)
    | whole size n ↦ elim (ltb (length (drop n (x ∷ xs))) size) [
      | true ↦ some ([], some truncated_frame)
      | false ↦ elim (w.unmarshal (take size (drop n (x ∷ xs)))) [
        | none ↦ some ([], some corrupt_batch)
        | some b ↦ read_frames fuel (drop size (drop n (x ∷ xs))) >>= after_batch b
      ]
    ]
  ]

  -- A round takes a byte at least, so the bytes are fuel enough.
  unfoldable pub read_file : List ℕ → Option Reading
  read_file bytes = read_frames (length bytes) bytes

  -- The loop of `ReadDir`, over the files in the order of `Segments`.
  unfoldable pub read_segments : List (List ℕ) → Option Reading
  read_segments [] = some ([], none)
  read_segments (p ∷ paths) = read_file p >>= λ (batches, e).
      read_segments paths >>= λ (all, later). elim e [
        | none ↦ some (batches ++ all, later)
        | some err ↦ elim (is_unexpected_eof err) [
          | true ↦ some (batches ++ all, later)
          | false ↦ some (batches, some err)
        ]
      ]

  -- Nothing is listed: some files may still be open.
  unfoldable pub none_listed : Directory → ReadError
  none_listed [] = no_segments
  none_listed (f ∷ d) = still_open

  unfoldable pub read_listed : Directory → Directory → Option Reading
  read_listed d [] = some ([], some (none_listed (glob tmp_extension d)))
  read_listed d (f ∷ segments) = read_segments (map (λ file. file.1) (f ∷ segments))

  unfoldable pub read_dir : Directory → Option Reading
  read_dir d = read_listed d (segments_of d)
