-- ===== src/Tests/Traces.antt =====
-- A recorder that writes three batches, the second of them in part, over a toy encoding: a varint is
-- one number, and a message is the numbers of its fields.
use belady.Common.{
  ℕ, zero, suc, ◌+◌, ◌%◌, ◌≤◌, ◌<◌, ◌^◌, ◌≡◌, inr, refl, ap, Bool, true, false, Option, none, some,
  List, [], ◌∷◌, ◌++◌, length, take, arith, ltb, if◌then◌else◌, add64, lt_i64, lookup, insert,
  erase, ◌==◌, Bool-cases, inl, subst, ltb→lt,
}
use belady.Common.Text
use belady.Common.Text.{Text, codes}
use belady.Trace.Disk.{Disk, Outcome}
use belady.Trace.Disk
use belady.Common.Decimal
use belady.Common.Decimal.{decimal}
use belady.Trace.Names
use belady.Trace.Names.{Directory, listing, no_separator, segments_of}
use belady.Trace.Names.Shuffle.{Shuffled, no_file, placed}
use belady.Trace.Names.Order.{IsDated}
use belady.Trace.Reader.{ReadError, Reading, read_file, read_dir}
use belady.Trace.Reader.Laws.{IsTail, read_file-frames}
use belady.Trace.Reader.Ends.{read_file-ends}
use belady.Trace.Recorder.{
  Config, Recorder, WriteError, new_recorder, with_defaults, fresh_recorder, close_segment,
  drain_all,
}
use belady.Trace.Recorder
use belady.Trace.Recorder.Drained.{AllValid, AreDrained, drain_all-AreDrained}
use belady.Trace.Recorder.Log.{records_in}
use belady.Trace.Recorder.Session.{Op, batch, rotation, session, session-read}
use belady.Tests.Rings.{four, four-IsValid}
use belady.Trace.Ring.{Record}
use belady.Trace.Wire.{
  AccessBatch, Protobuf, IsProtobuf, Varint, whole, truncated, frames, IsTorn, frame,
}

-- One number before the others.
abbrev head_of : List ℕ → Varint
head_of [] = truncated
head_of (b ∷ bs) = whole b 1

abbrev flag : Bool → ℕ
flag false = 0
flag true = 1

-- A batch of one record, with a short name.
abbrev encode : Text → ℕ → List Record → Option (List ℕ)
encode name sequence [] = none
encode name sequence (rec ∷ []) =
    if ltb (length name) 1000
    then some (sequence ∷ flag rec.hit ∷ rec.key_hash ∷ rec.timestamp_us ∷ rec.size_bytes ∷ name)
    else none
encode name sequence (rec ∷ next ∷ recs) = none

abbrev decode : List ℕ → Option AccessBatch
decode (sequence ∷ hit ∷ key ∷ time ∷ size ∷ name) = some (record {
  node_id = name;
  sequence = sequence;
  records = record { key_hash = key; timestamp_us = time; size_bytes = size; hit = hit == 1 } ∷ [];
})
decode bytes = none

abbrev toy : Protobuf
toy = record {
  varint = λ v. v ∷ [];
  consume_varint = head_of;
  marshal = λ b. encode b.node_id b.sequence b.records;
  unmarshal = decode;
}

flag_back : (b : Bool) → (flag b == 1) ≡ b
flag_back false = refl
flag_back true = refl

decode-encode :
    (name : Text) (sequence : ℕ) (recs : List Record) (bytes : List ℕ)
    → encode name sequence recs ≡ some bytes
    → (decode bytes ≡ some (record { node_id = name; sequence = sequence; records = recs }))
      × (length bytes < 2 ^ 31)
decode-encode name sequence [] bytes h = absurd (cc)
decode-encode name sequence (rec ∷ next ∷ recs) bytes h = absurd (cc)
decode-encode name sequence (rec ∷ []) bytes h = elim (Bool-cases (ltb (length name) 1000)) [
  | inr long ↦ absurd (let none_there : none ≡ some bytes = rw⁻¹ h (rw long refl) in cc)
  | inl short ↦
      let made : List ℕ =
        sequence ∷ flag rec.hit ∷ rec.key_hash ∷ rec.timestamp_us ∷ rec.size_bytes ∷ name in
      let same : some made ≡ some bytes = rw⁻¹ h (rw short refl) in
      let bytes_made : made ≡ bytes = cc in
      let lt : length name < 1000 = ltb→lt _ _ short in
      subst
        (λ data'.
          (decode data' ≡ some (record { node_id = name; sequence = sequence; records = rec ∷ [] }))
          × (length data' < 2 ^ 31))
        bytes_made
        (
          ap
              (λ h. some (record {
                node_id = name;
                sequence = sequence;
                records = record rec { hit = h } ∷ [];
              }))
              (flag_back rec.hit),
          omega (arith, lt),
        )
]

-- A prefix of no number is empty.
cut-truncated : (v k : ℕ) → k < 1 → head_of (take k (v ∷ [])) ≡ truncated
cut-truncated v zero h = refl
cut-truncated v (suc k) h = absurd (omega (arith, h))

taken : (bytes : List ℕ) (v n : ℕ) → head_of bytes ≡ whole v n → (0 < n) × (n ≤ length bytes)
taken [] v n h = absurd (cc)
taken (b ∷ bs) v n h = let one : 1 ≡ n = cc in (omega (arith, one), omega (arith, one))

toy-IsProtobuf : IsProtobuf toy
toy-IsProtobuf = record {
  read_back = λ v rest h. refl;
  prefix = λ v k h lt. cut-truncated v k lt;
  takes = taken;
  length_varint = λ v. (omega arith, omega arith);
  unmarshal-marshal = λ b bytes h. (decode-encode b.node_id b.sequence b.records bytes h).0;
  length_message = λ b bytes h. (decode-encode b.node_id b.sequence b.records bytes h).1;
}

read_file-ends_example : (r : Reading) × (read_file toy (3 ∷ 1 ∷ 2 ∷ []) ≡ some r)
read_file-ends_example = read_file-ends toy toy-IsProtobuf (3 ∷ 1 ∷ 2 ∷ [])

abbrev record_of : ℕ → Record
record_of key = record { key_hash = key; timestamp_us = 10; size_bytes = 3; hit = true }

abbrev batch_at : ℕ → ℕ → AccessBatch
batch_at sequence key = record {
  node_id = codes "n/0";
  sequence = sequence;
  records = record_of key ∷ [];
}

abbrev bytes_at : ℕ → ℕ → List ℕ
bytes_at sequence key = sequence ∷ 1 ∷ key ∷ 10 ∷ 3 ∷ codes "n/0"

abbrev two_batches : List (AccessBatch × List ℕ)
two_batches = (batch_at 1 7, bytes_at 1 7) ∷ (batch_at 2 8, bytes_at 2 8) ∷ []

-- A frame without its last two numbers.
IsTorn-end : IsTorn toy (take 7 (frame toy (bytes_at 3 9)))
unfolding frame
IsTorn-end = (bytes_at 3 9, 7, omega arith, omega arith, refl)

read_file-frames_example :
    (e : Option ReadError) × (read_file toy
        (frames toy two_batches ++ take 7 (frame toy (bytes_at 3 9)))
      ≡ some (batch_at 1 7 ∷ batch_at 2 8 ∷ [], e))
    × IsTail (take 7 (frame toy (bytes_at 3 9))) e
read_file-frames_example =
    read_file-frames toy toy-IsProtobuf two_batches (take 7 (frame toy (bytes_at 3 9)))
      (refl, (refl, tt)) IsTorn-end

abbrev zero_digit : ℕ → Text
zero_digit n = codes "0"

abbrev config : Config
config = record {
  dir = codes "traces";
  node_id = codes "n";
  shards = 1;
  ring_capacity = 2;
  sample_denominator = 1;
  segment_bytes = 0;
  flush_interval = 0;
  segment_max_age = 0;
  batch_size = 1;
}

abbrev fine_at : ℕ → Outcome
fine_at n = record {
  nanos = n;
  opened_at = n;
  open_fails = false;
  missing = none;
  close_fails = false;
  truncate_fails = true;
  rename_fails = false;
  remove_fails = false;
}

abbrev at : ℕ → Outcome
at n = fine_at (10 ^ 18 + n)

-- The second write leaves out two bytes, and the truncate after it fails.
abbrev ops : List Op
ops =
    batch (at 5) 0 (record_of 7 ∷ [])
    ∷ batch (record (at 6) { missing = some 1 }) 0 (record_of 8 ∷ [])
    ∷ batch (at 7) 0 (record_of 9 ∷ [])
    ∷ rotation (at 8) 100
    ∷ []

abbrev recorder : Recorder
recorder = fresh_recorder (with_defaults config)

recorder-new : new_recorder config true true ≡ inr recorder
unfolding new_recorder lt_i64 Text.is_empty
recorder-new = refl

abbrev empty_disk : Disk
empty_disk = record { partials = []; segments = [] }

two_accepted : (session toy zero_digit ops recorder empty_disk).2 ≡ batch_at 1 7 ∷ batch_at 3 9 ∷ []
unfolding session Recorder.write_batch Recorder.batch_of with_defaults Recorder.write_encoded
    Recorder.write_ensured Recorder.ensure_segment Recorder.write_frame Recorder.count_batch
    Recorder.positive_or Recorder.truncate_segment Recorder.rotate close_segment Disk.publish
    Disk.rename Disk.cut_file Disk.append_bytes Disk.join Disk.truncate frame lookup insert erase
    add64 lt_i64
two_accepted = refl

dated : (n : ℕ) → n < 10 → IsDated (10 ^ 18 + n)
dated n small = (omega arith, omega (arith, small))

flat : no_separator config.node_id ≡ true
unfolding no_separator
flat = refl

Shuffled-refl : (d : Directory) → Shuffled d d
Shuffled-refl [] = no_file
Shuffled-refl (f ∷ d) = placed f d [] d (Shuffled-refl d)

abbrev swap_first : Directory → Directory
swap_first [] = []
swap_first (f ∷ []) = f ∷ []
swap_first (f ∷ g ∷ d) = g ∷ f ∷ d

swap_first-Shuffled : (d : Directory) → Shuffled d (swap_first d)
swap_first-Shuffled [] = no_file
swap_first-Shuffled (f ∷ []) = Shuffled-refl (f ∷ [])
swap_first-Shuffled (f ∷ g ∷ d) = placed f (g ∷ d) (g ∷ []) d (Shuffled-refl (g ∷ d))

-- The file system has the later segment first.
abbrev files : Directory
files =
    let s = session toy zero_digit ops recorder empty_disk in
    swap_first (listing (codes "n") (close_segment (at 9) s.0 s.1).1)

session-read_example :
    let s = session toy zero_digit ops recorder empty_disk in
    let c = close_segment (at 9) s.0 s.1 in
    (read_dir toy files ≡ some (s.2, none)) × (c.0.written ≡ records_in s.2 % 2 ^ 64)
session-read_example =
    session-read toy toy-IsProtobuf zero_digit config true true recorder ops (at 9) files
      (omega arith) flat recorder-new
      (
        omega arith,
        dated 5 (omega arith),
        (refl, refl),
        (
          omega arith,
          dated 6 (omega arith),
          (refl, refl),
          (
            omega arith,
            dated 7 (omega arith),
            (refl, refl),
            (omega arith, dated 8 (omega arith), (refl, refl), tt),
          ),
        ),
      )
      (refl, refl) (omega (arith, ap length two_accepted))
      (swap_first-Shuffled (
        listing (codes "n")
          (close_segment (at 9) (session toy zero_digit ops recorder empty_disk).0
            (session toy zero_digit ops recorder empty_disk).1).1))

-- Of clock readings with other numbers of digits the later file comes first.
sorted_by_name :
    segments_of (
      listing
        (codes "n")
        (record { partials = (8, []) ∷ []; segments = (9, 1 ∷ []) ∷ (10, 2 ∷ []) ∷ [] }))
    ≡ (codes "n-10.trace", 2 ∷ []) ∷ (codes "n-9.trace", 1 ∷ []) ∷ []
unfolding segments_of listing Names.glob Names.matches Names.sort_names Names.insert_name
    Names.named Names.file_name no_separator decimal Decimal.decimal_from Text.cut_suffix
    Text.same_text Text.is_empty Decimal.text_less
sorted_by_name = refl

-- One ring, in which two records wait.
abbrev waiting : Recorder
waiting = record (fresh_recorder config) { rings = four ∷ [] }

waiting-AllValid : AllValid toy zero_digit waiting.rings
waiting-AllValid = ((2, four-IsValid), tt)

drain_all-AreDrained_example :
    (s : Recorder × Disk × Option WriteError) × (drain_all toy zero_digit fine_at waiting empty_disk
      ≡ some s)
    × AreDrained toy zero_digit s.0.rings s.2
drain_all-AreDrained_example =
    drain_all-AreDrained toy zero_digit fine_at waiting empty_disk waiting-AllValid (omega arith)
      (omega arith)
