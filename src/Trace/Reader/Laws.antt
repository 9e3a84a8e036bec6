-- ===== src/Trace/Reader/Laws.antt =====
-- What the reader makes of whole frames with a torn one behind them.
use belady.Common.{
  ℕ, Map, zero, suc, ◌+◌, ◌-◌, ◌≤◌, ◌<◌, ◌^◌, ◌≡◌, refl, sym, ap, ◌∙◌, subst, true, false, Option,
  none, some, List, [], ◌∷◌, ◌++◌, map, length, take, drop, ltb, arith, All, Bool-cases, inl, inr,
  ltb→lt, length-append, length-take, take-append, drop-append, take-append_first,
  take-append_second, append_assoc,
}
use belady.Trace.Wire.{
  AccessBatch, Protobuf, IsProtobuf, whole, truncated, frame, frames, IsEncoded, IsTorn,
}
use belady.Trace.Reader.{
  ReadError, truncated_prefix, truncated_frame, is_unexpected_eof, read_frames, read_file,
  read_segments,
}

-- The end of a file that is torn, or not.
abbrev pub IsTail : List ℕ → Option ReadError → Type 0
IsTail [] e = e ≡ none
IsTail (x ∷ xs) none = ⊥
IsTail (x ∷ xs) (some err) = is_unexpected_eof err ≡ true

module _ (w : Protobuf) (lawful : IsProtobuf w) where
  pub read_frames-batch :
      (fuel size n : ℕ) (bytes : List ℕ) (b : AccessBatch) (rest : List AccessBatch)
      (e : Option ReadError)
      → 0 < length bytes
      → w.consume_varint bytes ≡ whole size n
      → ltb (length (drop n bytes)) size ≡ false
      → w.unmarshal (take size (drop n bytes)) ≡ some b
      → read_frames w fuel (drop size (drop n bytes)) ≡ some (rest, e)
      → read_frames w (suc fuel) bytes ≡ some (b ∷ rest, e)
  unfolding read_frames
  read_frames-batch fuel size n [] b rest e any prefix fits decoded later = absurd (omega arith)
  read_frames-batch fuel size n (x ∷ xs) b rest e any prefix fits decoded later =
      rw (prefix, read_frames)
        (rw (fits, read_frames) (rw (decoded, read_frames) (rw (later, read_frames) refl)))

  -- One frame
  read_frames-frame :
      (fuel : ℕ) (b : AccessBatch) (encoded rest : List ℕ) (bs : List AccessBatch)
      (e : Option ReadError)
      → w.marshal b ≡ some encoded
      → read_frames w fuel rest ≡ some (bs, e)
      → read_frames w (suc fuel) (frame w encoded ++ rest) ≡ some (b ∷ bs, e)
  unfolding frame
  read_frames-frame fuel b encoded rest bs e marshalled later =
      let prefix = w.varint (length encoded) in
      let shape = append_assoc prefix encoded rest in
      let fits = lawful.length_message b encoded marshalled in
      let after = drop-append prefix (encoded ++ rest) in
      let whole_message = take-append encoded rest in
      subst (λ bytes. read_frames w (suc fuel) bytes ≡ some (b ∷ bs, e)) (sym shape)
        (read_frames-batch fuel (length encoded) (length prefix) (prefix ++ (encoded ++ rest)) b bs
          e
          (omega (
            arith,
            length-append prefix (encoded ++ rest),
            (lawful.length_varint (length encoded)).0,
          ))
          (lawful.read_back (length encoded) (encoded ++ rest) (omega arith))
          (rw after (ground (arith, length-append encoded rest)))
          (rw (after, whole_message) (lawful.unmarshal-marshal b encoded marshalled))
          (rw (after, drop-append encoded rest) later))

  pub frame-positive : (encoded : List ℕ) → 0 < length (frame w encoded)
  unfolding frame
  frame-positive encoded = omega (
    arith,
    length-append (w.varint (length encoded)) encoded,
    (lawful.length_varint (length encoded)).0,
  )

  -- A cut frame that begins with part of its length prefix.
  torn_prefix :
      (fuel size k : ℕ) (encoded bytes : List ℕ)
      → size < 2 ^ 64
      → k < length (w.varint size)
      → bytes ≡ take k (w.varint size)
      → (e : Option ReadError) × (read_frames w (suc fuel) bytes ≡ some ([], e)) × IsTail bytes e
  unfolding read_frames is_unexpected_eof
  torn_prefix fuel size k encoded [] small short same = (none, refl, refl)
  torn_prefix fuel size k encoded (x ∷ xs) small short same =
      let cut : w.consume_varint (x ∷ xs) ≡ truncated =
        rw same (lawful.prefix size k small short) in
      (some truncated_prefix, rw (cut, read_frames) refl, refl)

  -- A cut frame that has its length prefix.
  torn_message :
      (fuel size n : ℕ) (bytes : List ℕ)
      → w.consume_varint bytes ≡ whole size n
      → ltb (length (drop n bytes)) size ≡ true
      → (e : Option ReadError) × (read_frames w (suc fuel) bytes ≡ some ([], e)) × IsTail bytes e
  unfolding read_frames is_unexpected_eof
  torn_message fuel size n [] prefix short = (none, refl, refl)
  torn_message fuel size n (x ∷ xs) prefix short =
      (some truncated_frame, rw (prefix, read_frames) (rw (short, read_frames) refl), refl)

  -- One torn frame
  read_frames-torn :
      (fuel : ℕ) (torn : List ℕ)
      → IsTorn w torn
      → (e : Option ReadError) × (read_frames w (suc fuel) torn ≡ some ([], e)) × IsTail torn e
  unfolding frame
  read_frames-torn fuel torn (encoded, k, small, short, same) =
      let prefix = w.varint (length encoded) in
      elim (Bool-cases (ltb k (length prefix))) [
        | inl inside ↦
            let lt : k < length prefix = ltb→lt _ _ inside in
            torn_prefix fuel (length encoded) k encoded torn (omega arith) lt
              (same ∙ take-append_first k prefix encoded (omega arith))
        | inr beyond ↦
            let past : length prefix ≤ k = ground arith in
            let shape = take-append_second k (k - length prefix) prefix encoded (omega arith) in
            let left = take (k - length prefix) encoded in
            subst
              (λ bytes.
                (e : Option ReadError) × (read_frames w (suc fuel) bytes ≡ some ([], e))
                × IsTail bytes e)
              (sym (same ∙ shape))
              (torn_message fuel (length encoded) (length prefix) (prefix ++ left)
                (lawful.read_back (length encoded) left (omega arith))
                (rw (drop-append prefix left) (
                  ground (
                    arith,
                    length-take (k - length prefix) encoded,
                    length-append prefix encoded,
                  ))))
      ]

  read_frames-IsTail :
      (fuel : ℕ) (torn : List ℕ)
      → IsTorn w torn
      → length torn ≤ fuel
      → (e : Option ReadError) × (read_frames w fuel torn ≡ some ([], e)) × IsTail torn e
  unfolding read_frames
  read_frames-IsTail zero [] tail enough = (none, refl, refl)
  read_frames-IsTail zero (x ∷ xs) tail enough = absurd (omega (arith, enough))
  read_frames-IsTail (suc fuel) torn tail enough = read_frames-torn fuel torn tail

  -- A whole segment
  pub read_frames-frames :
      (es : List (AccessBatch × List ℕ)) (torn : List ℕ) (fuel : ℕ)
      → All (IsEncoded w) es
      → IsTorn w torn
      → length (frames w es ++ torn) ≤ fuel
      → (e : Option ReadError) × (read_frames w fuel (frames w es ++ torn)
          ≡ some (map (λ p. p.0) es, e))
        × IsTail torn e
  read_frames-frames [] torn fuel encoded tail enough = read_frames-IsTail fuel torn tail enough
  read_frames-frames ((b, bytes) ∷ es) torn fuel (first, encoded) tail enough =
      let shape = append_assoc (frame w bytes) (frames w es) torn in
      let size : length (frame w bytes) + length (frames w es ++ torn) ≤ fuel =
        omega
          (arith, enough, ap length shape, length-append (frame w bytes) (frames w es ++ torn)) in
      let (e, rest, ends) =
        read_frames-frames es torn (fuel - 1) encoded tail
          (omega (arith, size, frame-positive bytes)) in
      let one_more : suc (fuel - 1) ≡ fuel = omega (arith, size, frame-positive bytes) in
      let read =
        read_frames-frame (fuel - 1) b bytes (frames w es ++ torn) (map (λ p. p.0) es) e first
          rest in
      (
        e,
        subst (λ all. read_frames w fuel all ≡ some (b ∷ map (λ p. p.0) es, e)) (sym shape)
            (subst
              (λ n.
                read_frames w n (frame w bytes ++ (frames w es ++ torn))
                ≡ some (b ∷ map (λ p. p.0) es, e))
              one_more read),
        ends,
      )

  -- ReadFile of whole frames with a part of one behind them returns the frames' batches in order,
  -- without an error if the part is empty and with an unexpected end of file otherwise. Protobuf
  -- is taken to behave as documented.
  pub read_file-frames :
      (es : List (AccessBatch × List ℕ)) (torn : List ℕ)
      → All (IsEncoded w) es
      → IsTorn w torn
      → (e : Option ReadError) × (read_file w (frames w es ++ torn) ≡ some (map (λ p. p.0) es, e))
        × IsTail torn e
  unfolding read_file
  read_file-frames es torn encoded tail =
      read_frames-frames es torn (length (frames w es ++ torn)) encoded tail (omega arith)

  -- A file that is whole, or torn at its end, does not stop the reader of a directory.
  read_segments-file :
      (p torn : List ℕ) (paths : List (List ℕ)) (batches all : List AccessBatch)
      (e : Option ReadError)
      → read_file w p ≡ some (batches, e)
      → IsTail torn e
      → read_segments w paths ≡ some (all, none)
      → read_segments w (p ∷ paths) ≡ some (batches ++ all, none)
  unfolding read_segments
  read_segments-file p torn paths batches all none read tail later =
      rw (read, read_segments) (rw (later, read_segments) refl)
  read_segments-file p [] paths batches all (some err) read tail later = absurd (cc)
  read_segments-file p (x ∷ xs) paths batches all (some err) read tail later =
      rw (read, read_segments) (rw (later, read_segments) (rw (tail, read_segments) refl))

  -- Segments, each of whole frames and perhaps a torn one, in order, and the batches in them.
  abbrev pub Segments : Map (List ℕ) → List AccessBatch → Type 0
  Segments [] bs = bs ≡ []
  Segments ((path, bytes) ∷ m) bs =
      (es : List (AccessBatch × List ℕ)) × (torn : List ℕ) × (rest : List AccessBatch) × (bytes
        ≡ frames w es ++ torn)
      × All (IsEncoded w) es
      × IsTorn w torn
      × (bs ≡ map (λ p. p.0) es ++ rest)
      × Segments m rest

  pub read_segments-Segments :
      (m : Map (List ℕ)) (bs : List AccessBatch)
      → Segments m bs
      → read_segments w (map (λ s. s.1) m) ≡ some (bs, none)
  unfolding read_segments
  read_segments-Segments [] bs none_there = rw none_there refl
  read_segments-Segments ((path, bytes) ∷ m) bs
        (es, torn, rest, shape, encoded, tail, same, later) =
      let (e, read, ends) = read_file-frames es torn encoded tail in
      rw (same, shape)
        (read_segments-file (frames w es ++ torn) torn (map (λ s. s.1) m) (map (λ p. p.0) es) rest e
          read ends (read_segments-Segments m rest later))
