-- ===== src/Trace/Recorder/Encoded.antt =====
-- `ensureSegment`, and the write of an encoded batch.
use belady.Common.{
  ℕ, suc, ◌≤◌, ◌≡◌, inl, inr, refl, sym, ap, ◌∙◌, subst, true, false, none, some, List, [], ◌++◌,
  map, length, arith, lookup, insert, lookup-insert, append_nil, Bool-cases, Option-cases, ==_refl,
}
use belady.Common.Text.{Text}
use belady.Trace.Wire.{AccessBatch, Protobuf, IsProtobuf}
use belady.Trace.Names.Order.{IsDated}
use belady.Trace.Disk.{Disk, Outcome}
use belady.Trace.Recorder.{
  Recorder, WriteError, not_opened, ensure_segment, write_frame, write_encoded, write_ensured,
}
use belady.Trace.Recorder.Log.{Publishes, InLimit, Writing, IsLogged}
use belady.Trace.Recorder.Write.{After, write_frame-After}
use belady.Trace.Recorder.Published.{Older, Older-above}

ensure_segment-open :
    (f : Outcome) (r : Recorder) (d : Disk) (path : ℕ)
    → r.file ≡ some path
    → ensure_segment f r d ≡ (r, d, none)
unfolding ensure_segment
ensure_segment-open f r d path there = ground (arith, there)

ensure_segment-taken :
    (f : Outcome) (r : Recorder) (d : Disk) (bytes : List ℕ)
    → r.file ≡ none
    → lookup f.nanos d.partials ≡ some bytes
    → ensure_segment f r d ≡ (r, d, some not_opened)
unfolding ensure_segment
ensure_segment-taken f r d bytes shut there = ground (arith, shut, there)

ensure_segment-fails :
    (f : Outcome) (r : Recorder) (d : Disk)
    → r.file ≡ none
    → lookup f.nanos d.partials ≡ none
    → f.open_fails ≡ true
    → ensure_segment f r d ≡ (r, d, some not_opened)
unfolding ensure_segment
ensure_segment-fails f r d shut free fails = ground (arith, shut, free, fails)

ensure_segment-new :
    (f : Outcome) (r : Recorder) (d : Disk)
    → r.file ≡ none
    → lookup f.nanos d.partials ≡ none
    → f.open_fails ≡ false
    → ensure_segment f r d ≡ (
      record r { file = some f.nanos; size = 0; opened = f.opened_at },
      record d { partials = insert f.nanos [] d.partials },
      none,
    )
unfolding ensure_segment
ensure_segment-new f r d shut free opens = ground (arith, shut, free, opens)

write_encoded-refused :
    (w : Protobuf) (itoa : ℕ → Text) (f : Outcome) (encoded : List ℕ) (n : ℕ) (r : Recorder)
    (d : Disk) (e : WriteError)
    → ensure_segment f r d ≡ (r, d, some e)
    → write_encoded w itoa f encoded n r d ≡ (r, d, some e)
unfolding write_encoded write_ensured
write_encoded-refused w itoa f encoded n r d e h = ap (write_ensured w itoa f encoded n) h

write_encoded-frame :
    (w : Protobuf) (itoa : ℕ → Text) (f : Outcome) (encoded : List ℕ) (n path : ℕ) (r r1 : Recorder)
    (d d1 : Disk)
    → ensure_segment f r d ≡ (r1, d1, none)
    → r1.file ≡ some path
    → write_encoded w itoa f encoded n r d ≡ write_frame w itoa f path encoded n r1 d1
unfolding write_encoded write_ensured
write_encoded-frame w itoa f encoded n path r r1 d d1 h there =
    ap (write_ensured w itoa f encoded n) h ∙ ground (arith, there)

module _ (w : Protobuf) (lawful : IsProtobuf w) where
  -- Names that were used are below a higher bound as well.
  pub IsLogged-above :
      (log : List AccessBatch) (b c : ℕ) (r : Recorder) (d : Disk)
      → b ≤ c
      → IsLogged w lawful log b r d
      → IsLogged w lawful log c r d
  IsLogged-above log b c r d le l = record {
    published = l.published;
    current = l.current;
    segments = l.segments;
    in_order = l.in_order;
    counted = l.counted;
    limit = l.limit;
    file = elim l.file [
      | inl s ↦ inl (record {
        no_file = s.no_file;
        nothing = s.nothing;
        before = Older-above d.segments b c le s.before;
      })
      | inr o ↦ inr (record {
        path = o.path;
        open_at = o.open_at;
        holds = o.holds;
        sized = o.sized;
        named = omega (arith, o.named, le);
        dated = o.dated;
        newer = o.newer;
        encoded = o.encoded;
      })
    ];
  }

  -- A refused write leaves the state but for the bound.
  pub refused-After :
      (f : Outcome) (log : List AccessBatch) (b : ℕ) (r : Recorder) (d : Disk) (batch : AccessBatch)
      (e : WriteError)
      → b ≤ f.nanos
      → IsLogged w lawful log b r d
      → InLimit r
      → After w lawful log (suc f.nanos) batch (r, d, some e)
  refused-After f log b r d batch e new l small = (
    subst (λ all. IsLogged w lawful all (suc f.nanos) r d) (sym (append_nil log))
        (IsLogged-above log b (suc f.nanos) r d (omega arith) l),
    small,
  )

  -- A new file holds no frame yet.
  abbrev fresh_file :
      (f : Outcome) (b : ℕ) (r : Recorder) (d : Disk)
      → b ≤ f.nanos
      → IsDated f.nanos
      → Older d.segments b
      → Writing w lawful
          (suc f.nanos)
          (record r { file = some f.nanos; size = 0; opened = f.opened_at })
          (record d { partials = insert f.nanos [] d.partials })
          []
  fresh_file f b r d new dated before = record {
    path = f.nanos;
    open_at = refl;
    holds = lookup-insert f.nanos f.nanos [] d.partials ∙ rw (==_refl f.nanos) refl;
    sized = refl;
    named = omega arith;
    dated = dated;
    newer = Older-above d.segments b f.nanos new before;
    encoded = tt;
  }

  pub write_encoded-After :
      (itoa : ℕ → Text) (f : Outcome) (log : List AccessBatch) (b : ℕ) (r : Recorder) (d : Disk)
      (batch : AccessBatch) (encoded : List ℕ)
      → Publishes f
      → b ≤ f.nanos
      → IsDated f.nanos
      → IsLogged w lawful log b r d
      → InLimit r
      → w.marshal batch ≡ some encoded
      → After w lawful log
          (suc f.nanos)
          batch
          (write_encoded w itoa f encoded (length batch.records) r d)
  unfolding IsLogged-above
  write_encoded-After itoa f log b r d batch encoded works new dated l small marshalled =
      let c = suc f.nanos in
      let n = length batch.records in
      let to = After w lawful log c batch in
      elim l.file [
        | inr o ↦
            let above = IsLogged-above log b c r d (omega arith) l in
            let o' : Writing w lawful c r d above.current = record {
              path = o.path;
              open_at = o.open_at;
              holds = o.holds;
              sized = o.sized;
              named = omega (arith, o.named);
              dated = o.dated;
              newer = o.newer;
              encoded = o.encoded;
            } in
            subst to
              (sym (
                write_encoded-frame w itoa f encoded n o.path r r d d
                  (ensure_segment-open f r d o.path o.open_at) o.open_at))
              (write_frame-After w lawful itoa f log c r d batch encoded works above o' small
                marshalled)
        | inl s ↦ elim (Option-cases (lookup f.nanos d.partials)) [
          | inr (bytes, taken) ↦
              subst to
                (sym (
                  write_encoded-refused w itoa f encoded n r d not_opened
                    (ensure_segment-taken f r d bytes s.no_file taken)))
                (refused-After f log b r d batch not_opened new l small)
          | inl free ↦ elim (Bool-cases f.open_fails) [
            | inl fails ↦
                subst to
                  (sym (
                    write_encoded-refused w itoa f encoded n r d not_opened
                      (ensure_segment-fails f r d s.no_file free fails)))
                  (refused-After f log b r d batch not_opened new l small)
            | inr opens ↦
                let r1 = record r { file = some f.nanos; size = 0; opened = f.opened_at } in
                let d1 = record d { partials = insert f.nanos [] d.partials } in
                let o1 = fresh_file f b r d new dated s.before in
                let l1 : IsLogged w lawful log c r1 d1 = record {
                  published = l.published;
                  current = [];
                  segments = l.segments;
                  file = inr o1;
                  in_order = l.in_order ∙ ap (λ es. l.published ++ map (λ p. p.0) es) s.nothing;
                  counted = l.counted;
                  limit = l.limit;
                } in
                subst to
                  (sym (
                    write_encoded-frame w itoa f encoded n f.nanos r r1 d d1
                      (ensure_segment-new f r d s.no_file free opens) refl))
                  (write_frame-After w lawful itoa f log c r1 d1 batch encoded works l1 o1
                    (omega arith) marshalled)
          ]
        ]
      ]
