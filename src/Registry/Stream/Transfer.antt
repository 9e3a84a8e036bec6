-- ===== src/Registry/Stream/Transfer.antt =====
-- The messages of `GetModel` read by `receive`.
use belady.Common.{
  ℕ, zero, suc, ◌-◌, ◌≤◌, ◌≡◌, refl, sym, ap, ◌∙◌, subst, List, [], ◌∷◌, ◌++◌, length, take, drop,
  arith,
}
use belady.Registry.Stream.{
  ModelMeta, meta, chunk, chunk_bytes, chunks_of, model_messages, receive, ok,
}
use belady.Registry.Stream.Whole.{concat, as_chunks, IsWhole, receive_complete}

take-drop : (n : ℕ) (xs : List ℕ) → take n xs ++ drop n xs ≡ xs
take-drop zero xs = refl
take-drop (suc n) [] = refl
take-drop (suc n) (x ∷ xs) = ap (◌∷◌ x) (take-drop n xs)

length-drop : (n : ℕ) (xs : List ℕ) → length (drop n xs) ≡ length xs - n
length-drop zero xs = omega arith
length-drop (suc n) [] = omega arith
length-drop (suc n) (x ∷ xs) = omega (arith, length-drop n xs)

-- Enough fuel sends all bytes.
chunks_of-all :
    (fuel : ℕ) (b : List ℕ)
    → length b ≤ fuel
    → (cs : List (List ℕ)) × (chunks_of fuel b ≡ as_chunks cs) × (concat cs ≡ b)
unfolding chunks_of
chunks_of-all fuel [] h = ([], refl, refl)
chunks_of-all zero (x ∷ b) h = absurd (omega arith)
chunks_of-all (suc fuel) (x ∷ b) h =
    let (cs, sent, text) =
      chunks_of-all fuel (drop chunk_bytes (x ∷ b))
        (omega (arith, length-drop chunk_bytes (x ∷ b))) in
    (
      take chunk_bytes (x ∷ b) ∷ cs,
      ap (◌∷◌ (chunk (take chunk_bytes (x ∷ b)))) sent,
      ap (◌++◌ (take chunk_bytes (x ∷ b))) text ∙ take-drop chunk_bytes (x ∷ b),
    )

-- What GetModel sends for a body with its true size and digest, within the limit, is received as
-- that metadata and body.
pub receive-model_messages :
    (digest : List ℕ → List ℕ) (m : ModelMeta) (body : List ℕ)
    → IsWhole digest m body
    → receive digest (model_messages m body) ≡ ok (m, body)
unfolding model_messages
receive-model_messages digest m body whole =
    let (cs, sent, text) = chunks_of-all (length body) body (omega arith) in
    ap (λ t. receive digest (meta m ∷ t)) sent
    ∙ receive_complete digest m cs (subst (IsWhole digest m) (sym text) whole)
    ∙ ap (λ t. ok (m, t)) text
