-- ===== src/Registry/Service/Upload.antt =====
-- What a successful upload means.
use belady.Common.{
  ℕ, ◌≡◌, ◌≢◌, refl, sym, ap, subst, ◌∙◌, some, List, ◌∷◌, arith, Bool-cases, Option-cases, inl,
  inr,
}
use belady.Registry.Stream.{ModelMeta, Message, ReceiveError, Received, ok, err, receive}
use belady.Registry.Stream
use belady.Registry.Stream.Whole.{IsWhole, as_chunks, concat, receive_sound}
use belady.Registry.Store.{
  Store, Faults, Outcome, published, exists, failed, read, model_path, meta_path, publish,
}
use belady.Registry.Store.Names.{IsAcceptable, validate, validate_sound}
use belady.Registry.Store.Published.{Published, taken, done, nothing, publish-Published}
use belady.Registry.Service.{
  Reply, is_malformed, reply, stamped, publish_reply, publish_received, publish_model,
}

-- The uploaded model: what the stream carried, what was checked of it, and where it is now.
pub record Uploaded (digest : List ℕ → List ℕ) (marshal : ModelMeta → List ℕ) (now : ℕ)
    (ms : List Message) (m : ModelMeta) (s' : Store) : Type 0 where
  pub sent : ModelMeta
  pub body : List ℕ
  pub carried : (cs : List (List ℕ)) × (ms ≡ Stream.meta sent ∷ as_chunks cs) × (body ≡ concat cs)
  pub whole : IsWhole digest sent body
  pub acceptable : IsAcceptable sent body
  pub stamp : m ≡ stamped now sent
  pub metadata : read (meta_path m.version) s'.dir ≡ some (marshal m)
  pub stored : read (model_path m.version) s'.dir ≡ some body

reply-inj : (m n : ModelMeta) → ◌≡◌ {A = Reply ModelMeta} (reply m) (reply n) → m ≡ n
reply-inj m n h = cc

publish_reply-reply :
    (m n : ModelMeta) (o : Outcome) → publish_reply m o ≡ reply n → (o ≡ published) × (m ≡ n)
unfolding publish_reply
publish_reply-reply m n published h = (refl, reply-inj m n h)
publish_reply-reply m n exists h = absurd (cc)
publish_reply-reply m n failed h = absurd (cc)

Published-stored :
    (marshal : ModelMeta → List ℕ) (m : ModelMeta) (body : List ℕ) (s s' : Store) (o : Outcome)
    → o ≡ published
    → Published marshal m body s s' o
    → (read (meta_path m.version) s'.dir ≡ some (marshal m))
      × (read (model_path m.version) s'.dir ≡ some body)
Published-stored marshal m body s s' o e (taken same there) = absurd (cc)
Published-stored marshal m body s s' o e (done new metadata stored latest) = (metadata, stored)
Published-stored marshal m body s s' o e (nothing latest changed kept) = absurd (cc)

module _ (digest : List ℕ → List ℕ) (marshal : ModelMeta → List ℕ) where
  refused :
      (f : Faults) (now : ℕ) (s : Store) (m : ModelMeta) (e : ReceiveError)
      → (publish_received digest marshal f now (err e) s).1 ≢ reply m
  unfolding publish_received
  refused f now s m e h = elim (Bool-cases (is_malformed e)) [
    | inl bad ↦ ground arith
    | inr torn ↦ ground arith
  ]

  publish_received-Uploaded :
      (f : Faults) (now : ℕ) (ms : List Message) (s : Store) (m : ModelMeta)
      (r : Received (ModelMeta × List ℕ))
      → receive digest ms ≡ r
      → (publish_received digest marshal f now r s).1 ≡ reply m
      → Uploaded digest marshal now ms m (publish_received digest marshal f now r s).0
  unfolding publish_received
  publish_received-Uploaded f now ms s m (err e) came h = absurd (refused f now s m e h)
  publish_received-Uploaded f now ms s m (ok (sent, body)) came h =
      elim (Option-cases (validate sent body)) [
        | inr (e, bad) ↦ absurd (ground arith)
        | inl good ↦
            let (cs, shape, text, whole) = receive_sound digest ms sent body came in
            let n : ModelMeta = stamped now sent in
            let out : Store × Outcome = publish marshal f n body s in
            let ends : publish_received digest marshal f now (ok (sent, body)) s
                ≡ (out.0, publish_reply n out.1) =
              ground arith in
            let (visible, same) = publish_reply-reply n m out.1 (sym (ap (λ x. x.1) ends) ∙ h) in
            let (metadata, stored) =
              Published-stored marshal n body s out.0 out.1 visible
                (publish-Published marshal f n body s) in
            subst (λ x. Uploaded digest marshal now ms m x.0) (sym ends)
              (subst (λ k. Uploaded digest marshal now ms k out.0) same
                (record {
                  sent = sent;
                  body = body;
                  carried = (cs, shape, text);
                  whole = whole;
                  acceptable = validate_sound sent body good;
                  stamp = refl;
                  metadata = metadata;
                  stored = stored;
                }))
      ]

  -- When an upload is answered with a model, the whole stream was its metadata, but for the time
  -- filled in, and chunks; the body that the chunks make up has the declared size and digest, the
  -- model is acceptable, and its metadata, with the time, and that body are in the store.
  pub publish_model-Uploaded :
      (f : Faults) (now : ℕ) (ms : List Message) (s : Store) (m : ModelMeta)
      → (publish_model digest marshal f now ms s).1 ≡ reply m
      → Uploaded digest marshal now ms m (publish_model digest marshal f now ms s).0
  unfolding publish_model
  publish_model-Uploaded f now ms s m h =
      publish_received-Uploaded f now ms s m (receive digest ms) refl h
