-- ===== src/Registry/Stream/Whole.antt =====
-- What an accepted stream is, exactly.
use mathlib.Core.List.{append_assoc, append-nil}
use belady.Common.{
  ℕ, ◌+◌, ◌≤◌, ◌≡◌, ◌↔◌, refl, sym, ap, ap₂, subst, ◌∙◌, true, List, [], ◌∷◌, ◌++◌, length,
  length-append, ltb, arith, inl, inr, Bool-cases,
}
use belady.Registry.Stream.{
  ModelMeta, Message, meta, chunk, broken, no_payload, ok, max_model_bytes, same_bytes, finish,
  receive_body, receive,
}

abbrev pub concat : List (List ℕ) → List ℕ
concat [] = []
concat (c ∷ cs) = c ++ concat cs

abbrev pub as_chunks : List (List ℕ) → List Message
as_chunks [] = []
as_chunks (c ∷ cs) = chunk c ∷ as_chunks cs

pub same_bytes-eq : (a b : List ℕ) → same_bytes a b ≡ true → a ≡ b
unfolding same_bytes
same_bytes-eq [] [] h = refl
same_bytes-eq [] (y ∷ b) h = cc
same_bytes-eq (x ∷ a) [] h = cc
same_bytes-eq (x ∷ a) (y ∷ b) h = ground (arith, same_bytes-eq a b)

pub same_bytes_refl : (a : List ℕ) → same_bytes a a ≡ true
unfolding same_bytes
same_bytes_refl [] = refl
same_bytes_refl (x ∷ a) = ground (arith, same_bytes_refl a)

module _ (digest : List ℕ → List ℕ) where
  -- The size and the digest are those that the metadata declares, and the size is within the limit.
  pub record IsWhole (m : ModelMeta) (body : List ℕ) : Type 0 where
    pub size : length body ≡ m.size_bytes
    pub limit : m.size_bytes ≤ max_model_bytes
    pub sum : digest body ≡ m.sha256

  -- Chunks after the metadata and `so_far` bytes.
  receive_body-ok :
      (ms : List Message) (m : ModelMeta) (so_far : List ℕ) (m' : ModelMeta) (body : List ℕ)
      → receive_body digest ms m so_far ≡ ok (m', body)
      → (cs : List (List ℕ)) × (ms ≡ as_chunks cs)
        × (m ≡ m')
        × (body ≡ so_far ++ concat cs)
        × (length body ≡ m.size_bytes)
        × (digest body ≡ m.sha256)
  unfolding receive_body finish
  receive_body-ok [] m so_far m' body h =
      let so_far_eq : body ≡ so_far = ground arith in
      (
        [],
        refl,
        ground arith,
        so_far_eq ∙ sym (append-nil so_far),
        ground arith,
        ground (arith, same_bytes-eq (digest so_far) m.sha256),
      )
  receive_body-ok (broken ∷ ms) m so_far m' body h = absurd (cc)
  receive_body-ok (no_payload ∷ ms) m so_far m' body h = absurd (cc)
  receive_body-ok (meta n ∷ ms) m so_far m' body h = absurd (cc)
  receive_body-ok (chunk c ∷ ms) m so_far m' body h =
      elim (Bool-cases (ltb m.size_bytes (length so_far + length c))) [
        | inl over ↦ absurd (ground arith)
        | inr fits ↦
            let (cs, shape, same, text, size, sum) =
              receive_body-ok ms m (so_far ++ c) m' body (ground arith) in
            (
              c ∷ cs,
              ap (◌∷◌ (chunk c)) shape,
              same,
              text ∙ append_assoc so_far c (concat cs),
              size,
              sum,
            )
      ]

  -- Chunks that fit reach the final checks.
  receive_body-chunks :
      (cs : List (List ℕ)) (m : ModelMeta) (so_far : List ℕ)
      → length so_far + length (concat cs) ≤ m.size_bytes
      → receive_body digest (as_chunks cs) m so_far ≡ finish digest m (so_far ++ concat cs)
  unfolding receive_body
  receive_body-chunks [] m so_far fits = ap (finish digest m) (sym (append-nil so_far))
  receive_body-chunks (c ∷ cs) m so_far fits =
      let rest : receive_body digest (as_chunks cs) m (so_far ++ c)
          ≡ finish digest m (so_far ++ (c ++ concat cs)) =
        receive_body-chunks cs m (so_far ++ c)
          (ground (arith, length-append so_far c, length-append c (concat cs)))
        ∙ ap (finish digest m) (append_assoc so_far c (concat cs)) in
      ground (arith, length-append c (concat cs), rest)

  finish-whole :
      (m : ModelMeta) (body : List ℕ) → IsWhole m body → finish digest m body ≡ ok (m, body)
  unfolding finish
  finish-whole m body w =
      let same : same_bytes (digest body) m.sha256 ≡ true =
        subst (λ t. same_bytes (digest body) t ≡ true) w.sum (same_bytes_refl (digest body)) in
      ground (arith, w.size, same)

  pub receive_sound :
      (ms : List Message) (m : ModelMeta) (body : List ℕ)
      → receive digest ms ≡ ok (m, body)
      → (cs : List (List ℕ)) × (ms ≡ meta m ∷ as_chunks cs) × (body ≡ concat cs) × IsWhole m body
  unfolding receive
  receive_sound [] m body h = absurd (cc)
  receive_sound (broken ∷ ms) m body h = absurd (cc)
  receive_sound (no_payload ∷ ms) m body h = absurd (cc)
  receive_sound (chunk c ∷ ms) m body h = absurd (cc)
  receive_sound (meta n ∷ ms) m body h = elim (Bool-cases (ltb max_model_bytes n.size_bytes)) [
    | inl over ↦ absurd (ground arith)
    | inr fits ↦
        let (cs, shape, same, text, size, sum) = receive_body-ok ms n [] m body (ground arith) in
        (
          cs,
          ap₂ (λ k. λ t. meta k ∷ t) same shape,
          text,
          record {
            size = size ∙ ap (λ t. t.size_bytes) same;
            limit = subst (λ t. t.size_bytes ≤ max_model_bytes) same (ground arith);
            sum = sum ∙ ap (λ t. t.sha256) same;
          },
        )
  ]

  pub receive_complete :
      (m : ModelMeta) (cs : List (List ℕ))
      → IsWhole m (concat cs)
      → receive digest (meta m ∷ as_chunks cs) ≡ ok (m, concat cs)
  unfolding receive
  receive_complete m cs w =
      let body : receive_body digest (as_chunks cs) m [] ≡ ok (m, concat cs) =
        receive_body-chunks cs m [] (ground (arith, w.size)) ∙ finish-whole m (concat cs) w in
      ground (arith, w.limit, body)

  -- A stream is accepted as (m, body) exactly when it is m's metadata followed by chunks that
  -- concatenate to body, and body has the declared size, which is at most 64 MiB, and the declared
  -- digest.
  pub receive-ok :
      (ms : List Message) (m : ModelMeta) (body : List ℕ)
      → (receive digest ms ≡ ok (m, body)) ↔ (
          (cs : List (List ℕ)) × (ms ≡ meta m ∷ as_chunks cs) × (body ≡ concat cs) × IsWhole m body)
  receive-ok ms m body = (
    receive_sound ms m body,
    λ (cs, shape, text, whole).
        ap (receive digest) shape
        ∙ receive_complete m cs (subst (IsWhole m) text whole)
        ∙ ap (λ t. ok (m, t)) (sym text),
  )
