-- ===== src/Trace/Wire.antt =====
-- The framing that internal/trace/recorder.go and internal/trace/reader.go share. The protobuf
-- packages are parameters: `proto` as a pair of functions, `protowire` as another.
use belady.Common.{ℕ, ◌≤◌, ◌<◌, ◌^◌, ◌≡◌, Option, some, List, [], ◌∷◌, ◌++◌, length, take}
use belady.Common.Text.{Text}
use belady.Trace.Ring.{Record}

-- `beladyv1.AccessBatch`. An `AccessRecord` has the fields of a ring's `Record`.
pub record AccessBatch : Type 0 where
  pub node_id : Text
  pub sequence : ℕ
  pub records : List Record

-- What `ConsumeVarint` returns: a value and its length, or a negative code. `ParseError` turns the
-- first of the codes into `io.ErrUnexpectedEOF`.
pub data Varint : Type 0 where
  whole : ℕ → ℕ → Varint
  truncated : Varint
  invalid : Varint

-- `varint v` is `AppendVarint(nil, v)`.
pub record Protobuf : Type 0 where
  pub varint : ℕ → List ℕ
  pub consume_varint : List ℕ → Varint
  pub marshal : AccessBatch → Option (List ℕ)
  pub unmarshal : List ℕ → Option AccessBatch

-- What the packages document: a varint is read back whatever follows it, and no proper prefix of it
-- is a varint; reading one takes a byte at least; a message is read back, and has less than 2 GiB.
pub record IsProtobuf (w : Protobuf) : Type 0 where
  pub read_back :
      (v : ℕ) (rest : List ℕ)
      → v < 2 ^ 64
      → w.consume_varint (w.varint v ++ rest) ≡ whole v (length (w.varint v))
  pub prefix :
      (v k : ℕ)
      → v < 2 ^ 64
      → k < length (w.varint v)
      → w.consume_varint (take k (w.varint v)) ≡ truncated
  pub takes :
      (bytes : List ℕ) (v n : ℕ) → w.consume_varint bytes ≡ whole v n → (0 < n) × (n ≤ length bytes)
  pub length_varint : (v : ℕ) → (0 < length (w.varint v)) × (length (w.varint v) ≤ 10)
  pub unmarshal-marshal :
      (b : AccessBatch) (bytes : List ℕ) → w.marshal b ≡ some bytes → w.unmarshal bytes ≡ some b
  pub length_message :
      (b : AccessBatch) (bytes : List ℕ) → w.marshal b ≡ some bytes → length bytes < 2 ^ 31

module _ (w : Protobuf) where
  -- The byte count, then the message.
  unfoldable pub frame : List ℕ → List ℕ
  frame encoded = w.varint (length encoded) ++ encoded

  abbrev pub IsEncoded : AccessBatch × List ℕ → Type 0
  IsEncoded (b, encoded) = w.marshal b ≡ some encoded

  abbrev pub frames : List (AccessBatch × List ℕ) → List ℕ
  frames [] = []
  frames (e ∷ es) = frame e.1 ++ frames es

  -- A part of a frame, perhaps of no byte, that a failed write can leave.
  abbrev pub IsTorn : List ℕ → Type 0
  IsTorn torn =
      (encoded : List ℕ) × (k : ℕ) × (length encoded < 2 ^ 31)
      × (k < length (frame encoded))
      × (torn ≡ take k (frame encoded))
