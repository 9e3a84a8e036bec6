-- ===== src/Trace/Recorder/Write.antt =====
-- `writeBatch` keeps the log: an accepted batch is added to it, and a refused one leaves it.
use belady.Common.{
  ℕ, suc, ◌+◌, ◌-◌, ◌<◌, ◌^◌, ◌≡◌, inl, inr, refl, sym, ap, ◌∙◌, subst, Option, none, some, List,
  [], ◌∷◌, ◌++◌, map, length, arith, All-append, lookup, insert, lookup-insert, length-append,
  append_nil, append_assoc, add64, add64-eq, lt_i64, lt_i64-eq, Bool-cases, Option-cases, ==_refl,
  take, ltb→lt,
}
use belady.Common.Text.{Text}
use belady.Trace.Wire.{AccessBatch, Protobuf, IsProtobuf, frame, frames, IsEncoded, IsTorn}
use belady.Trace.Reader.Laws.{frame-positive}
use belady.Trace.Disk.{Disk, Outcome, append_bytes}
use belady.Trace.Recorder.{
  Recorder, WriteError, not_written, close_segment, truncate_segment, count_batch, write_frame,
}
use belady.Trace.Recorder.Log.{
  records_in, Publishes, InLimit, Writing, IsLogged, close_segment-IsLogged,
  truncate_segment-IsLogged,
}

-- What a write adds to the log.
abbrev pub accepted : Option WriteError → AccessBatch → List AccessBatch
accepted none batch = batch ∷ []
accepted (some e) batch = []

records_in-last :
    (log : List AccessBatch) (b : AccessBatch)
    → records_in (log ++ (b ∷ [])) ≡ records_in log + length b.records
records_in-last [] b = omega arith
records_in-last (c ∷ log) b = omega (arith, records_in-last log b)

map-last :
    (es : List (AccessBatch × List ℕ)) (e : AccessBatch × List ℕ)
    → map (λ p. p.0) (es ++ (e ∷ [])) ≡ map (λ p. p.0) es ++ (e.0 ∷ [])
map-last [] e = refl
map-last (c ∷ es) e = ap (λ bs. c.0 ∷ bs) (map-last es e)

append_bytes-eq :
    (path : ℕ) (bytes before : List ℕ) (d : Disk)
    → lookup path d.partials ≡ some before
    → append_bytes path bytes d ≡ record d { partials = insert path (before ++ bytes) d.partials }
unfolding append_bytes
append_bytes-eq path bytes before d there = ground (arith, there)

close_segment-size :
    (f : Outcome) (r : Recorder) (d : Disk) (path : ℕ)
    → r.file ≡ some path
    → (close_segment f r d).0.size ≡ 0
unfolding close_segment
close_segment-size f r d path there = ground (arith, there)

truncate_segment-size :
    (f : Outcome) (path : ℕ) (r : Recorder) (d : Disk) → (truncate_segment f path r d).0.size ≡ 0
unfolding truncate_segment
truncate_segment-size f path r d = refl

module _ (w : Protobuf) (lawful : IsProtobuf w) where
  frames-last :
      (es : List (AccessBatch × List ℕ)) (e : AccessBatch × List ℕ)
      → frames w (es ++ (e ∷ [])) ≡ frames w es ++ frame w e.1
  frames-last [] e = append_nil (frame w e.1)
  frames-last (c ∷ es) e =
      ap (λ bytes. frame w c.1 ++ bytes) (frames-last es e)
      ∙ sym (append_assoc (frame w c.1) (frames w es) (frame w e.1))

  length-frame :
      (b : AccessBatch) (encoded : List ℕ)
      → w.marshal b ≡ some encoded
      → length (frame w encoded) < 2 ^ 32
  unfolding frame
  length-frame b encoded marshalled = omega (
    arith,
    length-append (w.varint (length encoded)) encoded,
    (lawful.length_varint (length encoded)).1,
    lawful.length_message b encoded marshalled,
  )

  -- What is appended to the open file.
  appended :
      (b : ℕ) (r : Recorder) (d : Disk) (es : List (AccessBatch × List ℕ)) (bytes : List ℕ)
      → (o : Writing w lawful b r d es)
      → (lookup o.path (append_bytes o.path bytes d).partials ≡ some (frames w es ++ bytes))
        × ((append_bytes o.path bytes d).segments ≡ d.segments)
  appended b r d es bytes o =
      let same = append_bytes-eq o.path bytes (frames w es) d o.holds in
      rw same (
        lookup-insert o.path o.path (frames w es ++ bytes) d.partials ∙ rw (==_refl o.path) refl,
        refl,
      )

  -- The state with one more frame, before the rotation.
  counted-IsLogged :
      (log : List AccessBatch) (b : ℕ) (r r1 : Recorder) (d : Disk) (batch : AccessBatch)
      (encoded : List ℕ)
      → (l : IsLogged w lawful log b r d) → (o : Writing w lawful b r d l.current) → InLimit r
      → w.marshal batch ≡ some encoded
      → r1 ≡ record r {
        size = add64 r.size (length (frame w encoded));
        written = add64 r.written (length batch.records);
      }
      → IsLogged w lawful (log ++ (batch ∷ [])) b r1 (append_bytes o.path (frame w encoded) d)
        × (r1.size < 2 ^ 62 + 2 ^ 32)
  unfolding add64
  counted-IsLogged log b r r1 d batch encoded l o small marshalled same =
      let (held, segments) = appended b r d l.current (frame w encoded) o in
      let long = length-frame batch encoded marshalled in
      let size : add64 r.size (length (frame w encoded)) ≡ r.size + length (frame w encoded) =
        add64-eq r.size (length (frame w encoded)) (omega (arith, small, long)) in
      rw same (
        record {
          published = l.published;
          current = l.current ++ ((batch, encoded) ∷ []);
          segments = rw segments l.segments;
          file = inr (record {
            path = o.path;
            open_at = o.open_at;
            holds = held ∙ ap some (sym (frames-last l.current (batch, encoded)));
            sized =
                size
                ∙ omega (
                  arith,
                  o.sized,
                  ap length (frames-last l.current (batch, encoded)),
                  length-append (frames w l.current) (frame w encoded),
                );
            named = o.named;
            dated = o.dated;
            newer = rw segments o.newer;
            encoded =
                All-append (IsEncoded w) l.current ((batch, encoded) ∷ []) o.encoded
                  (marshalled, tt);
          });
          in_order =
              rw (l.in_order, map-last l.current (batch, encoded))
                (append_assoc l.published (map (λ p. p.0) l.current) (batch ∷ []));
          counted = omega (arith, l.counted, records_in-last log batch);
          limit = l.limit;
        },
        omega (arith, size, small, long),
      )

  count_batch-IsLogged :
      (f : Outcome) (log : List AccessBatch) (b : ℕ) (r : Recorder) (d : Disk) (batch : AccessBatch)
      (encoded : List ℕ)
      → Publishes f
      → (l : IsLogged w lawful log b r d) → (o : Writing w lawful b r d l.current) → InLimit r
      → w.marshal batch ≡ some encoded
      → let s =
          count_batch f
            (length (frame w encoded))
            (length batch.records)
            r
            (append_bytes o.path (frame w encoded) d) in
        IsLogged w lawful (log ++ (batch ∷ [])) b s.0 s.1 × InLimit s.0
  unfolding count_batch
  count_batch-IsLogged f log b r d batch encoded works l o small marshalled =
      let r1 = record r {
        size = add64 r.size (length (frame w encoded));
        written = add64 r.written (length batch.records);
      } in
      let d1 = append_bytes o.path (frame w encoded) d in
      let (l1, bounded) = counted-IsLogged log b r r1 d batch encoded l o small marshalled refl in
      let test =
        lt_i64-eq r1.size r.cfg.segment_bytes (omega (arith, bounded)) (omega (arith, l.limit.1)) in
      elim (Bool-cases (lt_i64 r1.size r.cfg.segment_bytes)) [
        | inl below ↦
            let lt : r1.size < r.cfg.segment_bytes = ltb→lt _ _ (sym test ∙ below) in
            rw below (l1, omega (arith, lt, l.limit.1))
        | inr full ↦
            let s = close_segment-IsLogged w lawful f (log ++ (batch ∷ [])) b r1 d1 works l1 in
            rw full (s.0, omega (arith, close_segment-size f r1 d1 o.path o.open_at))
      ]

  write_frame-whole :
      (itoa : ℕ → Text) (f : Outcome) (path n : ℕ) (encoded : List ℕ) (r : Recorder) (d : Disk)
      → f.missing ≡ none
      → write_frame w itoa f path encoded n r d ≡ (
          let s =
            count_batch f (length (frame w encoded)) n r (append_bytes path (frame w encoded) d) in
          (s.0, s.1, none))
  unfolding write_frame
  write_frame-whole itoa f path n encoded r d all = ground (arith, all)

  abbrev partly : List ℕ → ℕ → List ℕ
  partly encoded m = take (length (frame w encoded) - suc m) (frame w encoded)

  write_frame-torn :
      (itoa : ℕ → Text) (f : Outcome) (path n m : ℕ) (encoded : List ℕ) (r : Recorder) (d : Disk)
      → f.missing ≡ some m
      → write_frame w itoa f path encoded n r d ≡ (
          let s = truncate_segment f path r (append_bytes path (partly encoded m) d) in
          (s.0, s.1, some not_written))
  unfolding write_frame
  write_frame-torn itoa f path n m encoded r d failed = ground (arith, failed)

  -- A state after a batch, for the log before it.
  abbrev pub After :
      List AccessBatch → ℕ → AccessBatch → Recorder × Disk × Option WriteError → Type 0
  After log b batch s = IsLogged w lawful (log ++ accepted s.2 batch) b s.0 s.1 × InLimit s.0

  -- A write to the open file.
  pub write_frame-After :
      (itoa : ℕ → Text) (f : Outcome) (log : List AccessBatch) (b : ℕ) (r : Recorder) (d : Disk)
      (batch : AccessBatch) (encoded : List ℕ)
      → Publishes f
      → (l : IsLogged w lawful log b r d) → (o : Writing w lawful b r d l.current) → InLimit r
      → w.marshal batch ≡ some encoded
      → After log b batch (write_frame w itoa f o.path encoded (length batch.records) r d)
  write_frame-After itoa f log b r d batch encoded works l o small marshalled =
      elim (Option-cases f.missing) [
        | inl all ↦
            subst (After log b batch)
              (sym (write_frame-whole itoa f o.path (length batch.records) encoded r d all))
              (count_batch-IsLogged f log b r d batch encoded works l o small marshalled)
        | inr (m, failed) ↦
            let d1 = append_bytes o.path (partly encoded m) d in
            let (held, segments) = appended b r d l.current (partly encoded m) o in
            let tail : IsTorn w (partly encoded m) = (
              encoded,
              length (frame w encoded) - suc m,
              lawful.length_message batch encoded marshalled,
              omega (arith, frame-positive w lawful encoded),
              refl,
            ) in
            subst (After log b batch)
              (sym (write_frame-torn itoa f o.path (length batch.records) m encoded r d failed))
              (
                subst
                    (λ all.
                      IsLogged w lawful all b (truncate_segment f o.path r d1).0
                        (truncate_segment f o.path r d1).1)
                    (sym (append_nil log))
                    (truncate_segment-IsLogged w lawful f log b r d d1 (partly encoded m) works l o
                      held segments tail),
                omega (arith, truncate_segment-size f o.path r d1),
              )
      ]
