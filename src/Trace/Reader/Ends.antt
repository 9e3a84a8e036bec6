-- ===== src/Trace/Reader/Ends.antt =====
-- The reader on bytes of any kind.
use belady.Common.{
  ℕ, zero, suc, ◌≤◌, ◌≡◌, refl, none, some, List, [], ◌∷◌, length, take, drop, ltb, arith,
  Bool-cases, inl, inr, ◌⊎◌, Option-cases, length-drop,
}
use belady.Trace.Wire.{Protobuf, IsProtobuf, Varint, whole, truncated, invalid}
use belady.Trace.Reader.{
  Reading, truncated_prefix, corrupt_prefix, truncated_frame, corrupt_batch, read_frames, read_file,
}
use belady.Trace.Reader.Laws.{read_frames-batch}

Varint-cases :
    (v : Varint) → (v ≡ truncated) ⊎ ((v ≡ invalid) ⊎ ((size : ℕ) × (n : ℕ) × (v ≡ whole size n)))
Varint-cases truncated = inl refl
Varint-cases invalid = inr (inl refl)
Varint-cases (whole size n) = inr (inr (size, n, refl))

module _ (w : Protobuf) (lawful : IsProtobuf w) where
  -- The loop ends with as much fuel as bytes.
  read_frames-ends :
      (fuel : ℕ) (bytes : List ℕ)
      → length bytes ≤ fuel
      → (r : Reading) × (read_frames w fuel bytes ≡ some r)
  unfolding read_frames
  read_frames-ends fuel [] enough = (([], none), refl)
  read_frames-ends zero (x ∷ xs) enough = absurd (omega (arith, enough))
  read_frames-ends (suc fuel) (x ∷ xs) enough = elim (Varint-cases (w.consume_varint (x ∷ xs))) [
    | inl cut ↦ (([], some truncated_prefix), rw (cut, read_frames) refl)
    | inr (inl bad) ↦ (([], some corrupt_prefix), rw (bad, read_frames) refl)
    | inr (inr (size, n, prefix)) ↦ elim (Bool-cases (ltb (length (drop n (x ∷ xs))) size)) [
      | inl short ↦
          (([], some truncated_frame), rw (prefix, read_frames) (rw (short, read_frames) refl))
      | inr fits ↦ elim (Option-cases (w.unmarshal (take size (drop n (x ∷ xs))))) [
        | inl bad ↦ (
          ([], some corrupt_batch),
          rw (prefix, read_frames) (rw (fits, read_frames) (rw (bad, read_frames) refl)),
        )
        | inr (b, decoded) ↦
            let rest = drop size (drop n (x ∷ xs)) in
            let takes = lawful.takes (x ∷ xs) size n prefix in
            let ((bs, e), later) = read_frames-ends fuel rest (
              omega (
                arith,
                enough,
                takes.0,
                length-drop size (drop n (x ∷ xs)),
                length-drop n (x ∷ xs),
              )) in
            (
              (b ∷ bs, e),
              read_frames-batch w lawful fuel size n (x ∷ xs) b bs e (omega arith) prefix fits
                  decoded later,
            )
      ]
    ]
  ]

  -- ReadFile ends on any bytes, for a protobuf that behaves as documented, which takes a byte at
  -- least for each length prefix that it accepts.
  pub read_file-ends : (bytes : List ℕ) → (r : Reading) × (read_file w bytes ≡ some r)
  unfolding read_file
  read_file-ends bytes = read_frames-ends (length bytes) bytes (omega arith)
