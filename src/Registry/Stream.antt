-- ===== src/Registry/Stream.antt =====
-- internal/registry/registry.go: `receive`, which reassembles a model from a stream of messages, and
-- the messages that `GetModel` sends. Text and bodies are lists of bytes; `digest` is the SHA-256
-- in hexadecimal.
pub mod Whole
pub mod Transfer
use belady.Common.{
  ℕ, zero, suc, ◌+◌, ◌*◌, ◌-◌, ◌^◌, Bool, true, false, Option, none, some, List, [], ◌∷◌, ◌++◌,
  length, take, drop, map, ltb, ◌==◌, if◌then◌else◌,
}

-- The fields of `beladyv1.ModelMeta` that the Go code reads.
pub record ModelMeta : Type 0 where
  pub version : List ℕ
  pub size_bytes : ℕ
  pub sha256 : List ℕ
  pub format : List ℕ
  pub feature_count : ℕ
  pub boundary_seconds : ℕ
  pub created_unix : ℕ

abbrev pub max_model_bytes : ℕ
max_model_bytes = 64 * 2 ^ 20

abbrev pub chunk_bytes : ℕ
chunk_bytes = 256 * 2 ^ 10

-- What `next` returns before io.EOF: metadata or a chunk, an error of the transport, or that of an
-- empty payload.
pub data Message : Type 0 where
  meta : ModelMeta → Message
  chunk : List ℕ → Message
  broken : Message
  no_payload : Message

pub data ReceiveError : Type 0 where
  transport : ReceiveError
  empty_payload : ReceiveError
  metadata_twice : ReceiveError
  over_the_limit : ReceiveError
  metadata_first : ReceiveError
  body_exceeds : ReceiveError
  no_metadata : ReceiveError
  body_short : ReceiveError
  digest_mismatch : ReceiveError

pub data Received (A : Type 0) : Type 0 where
  ok : A → Received A
  err : ReceiveError → Received A

unfoldable pub same_bytes : List ℕ → List ℕ → Bool
same_bytes [] [] = true
same_bytes [] (b ∷ bs) = false
same_bytes (a ∷ as') [] = false
same_bytes (a ∷ as') (b ∷ bs) = if a == b then same_bytes as' bs else false

module _ (digest : List ℕ → List ℕ) where
  -- The checks after the loop.
  unfoldable pub finish : ModelMeta → List ℕ → Received (ModelMeta × List ℕ)
  finish m body =
      if length body == m.size_bytes
      then (if same_bytes (digest body) m.sha256 then ok (m, body) else err digest_mismatch)
      else err body_short

  -- The loop, once metadata has come.
  unfoldable pub receive_body : List Message → ModelMeta → List ℕ → Received (ModelMeta × List ℕ)
  receive_body [] m body = finish m body
  receive_body (broken ∷ ms) m body = err transport
  receive_body (no_payload ∷ ms) m body = err empty_payload
  receive_body (meta m' ∷ ms) m body = err metadata_twice
  receive_body (chunk c ∷ ms) m body =
      let rest = receive_body ms m (body ++ c) in
      if ltb m.size_bytes (length body + length c) then err body_exceeds else rest

  unfoldable pub receive : List Message → Received (ModelMeta × List ℕ)
  receive [] = err no_metadata
  receive (broken ∷ ms) = err transport
  receive (no_payload ∷ ms) = err empty_payload
  receive (chunk c ∷ ms) = err metadata_first
  receive (meta m ∷ ms) =
      if ltb max_model_bytes m.size_bytes then err over_the_limit else receive_body ms m []

-- The read loop of `GetModel`, over what is left of the file: reads of `chunk_bytes`, each sent on.
-- A round is a full read or the last one.
unfoldable pub chunks_of : ℕ → List ℕ → List Message
chunks_of fuel [] = []
chunks_of zero (b ∷ bs) = []
chunks_of (suc fuel) (b ∷ bs) =
    chunk (take chunk_bytes (b ∷ bs)) ∷ chunks_of fuel (drop chunk_bytes (b ∷ bs))

-- What `GetModel` sends for a version's metadata and file.
unfoldable pub model_messages : ModelMeta → List ℕ → List Message
model_messages m body = meta m ∷ chunks_of (length body) body
