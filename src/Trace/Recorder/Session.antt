-- ===== src/Trace/Recorder/Session.antt =====
-- A recorder's life: batches and rotations in any order, the last rotation, and what the reader
-- makes of the directory then.
use belady.Common.{
  ℕ, suc, ◌≤◌, ◌<◌, ◌%◌, ◌^◌, ◌≡◌, inl, inr, refl, sym, ap, ◌∙◌, subst, Bool, true, none, some,
  List, [], ◌∷◌, ◌++◌, map, length, arith, append_nil, append_assoc, lt_i64-eq, add64, Bool-cases,
  Option-cases, lt_i64,
}
use belady.Common.Text.{Text}
use belady.Trace.Ring.{Record}
use belady.Trace.Wire.{AccessBatch, Protobuf, IsProtobuf}
use belady.Trace.Names.{Directory, listing, no_separator}
use belady.Trace.Names.Shuffle.{Shuffled}
use belady.Trace.Names.Order.{IsDated, Rising}
use belady.Trace.Reader.{read_dir}
use belady.Trace.Reader.Listed.{read_dir-Segments}
use belady.Trace.Reader.Laws.{Segments}
use belady.Trace.Disk.{Disk, Outcome}
use belady.Trace.Recorder.{
  Config, Recorder, not_encoded, fresh_recorder, with_defaults, positive_or, new_recorder,
  close_segment, write_encoded, write_batch, batch_of, rotate,
}
use belady.Trace.Recorder.Log.{records_in, Publishes, InLimit, IsLogged, close_segment-IsLogged}
use belady.Trace.Recorder.Write.{accepted, After}
use belady.Trace.Recorder.Encoded.{IsLogged-above, refused-After, write_encoded-After}

close_segment-smaller :
    (f : Outcome) (r : Recorder) (d : Disk) → (close_segment f r d).0.size ≤ r.size
unfolding close_segment
close_segment-smaller f r d = ground arith

new_recorder-fresh :
    (cfg : Config) (made writable : Bool) (r : Recorder)
    → new_recorder cfg made writable ≡ inr r
    → r ≡ fresh_recorder (with_defaults cfg)
unfolding new_recorder
new_recorder-fresh cfg made writable r new = ground (arith, new)

with_defaults-limit :
    (cfg : Config)
    → cfg.segment_bytes < 2 ^ 62
    → (0 < (with_defaults cfg).segment_bytes) × ((with_defaults cfg).segment_bytes < 2 ^ 62)
unfolding with_defaults positive_or
with_defaults-limit cfg small =
    let test = lt_i64-eq 0 cfg.segment_bytes (omega arith) (omega (arith, small)) in
    (ground (arith, test), ground (arith, small))

-- What a recorder is asked to do: write a batch of a shard, or rotate at an age.
pub data Op : Type 0 where
  batch : Outcome → ℕ → List Record → Op
  rotation : Outcome → ℕ → Op

abbrev pub outcome : Op → Outcome
outcome (batch f shard recs) = f
outcome (rotation f age) = f

-- Closing and renaming work, and the clock goes up, with 19 digits: no file is named twice.
abbrev pub InOrder : ℕ → List Op → Type 0
InOrder b [] = Unit
InOrder b (o ∷ os) =
    (b ≤ (outcome o).nanos)
    × IsDated (outcome o).nanos
    × Publishes (outcome o)
    × InOrder (suc (outcome o).nanos) os

module _ (w : Protobuf) (itoa : ℕ → Text) where
  -- The operations one after the other, and the batches that were accepted.
  unfoldable pub session : List Op → Recorder → Disk → Recorder × Disk × List AccessBatch
  session [] r d = (r, d, [])
  session (batch f shard recs ∷ os) r d =
      let (r1, d1, e) = write_batch w itoa f shard recs r d in
      let (r2, d2, log) = session os r1 d1 in
      (r2, d2, accepted e (batch_of w itoa shard recs r) ++ log)
  session (rotation f age ∷ os) r d = let (r1, d1) = rotate w itoa f age r d in session os r1 d1

module _ (w : Protobuf) (lawful : IsProtobuf w) where
  -- The next sequence number is taken.
  numbered-IsLogged :
      (log : List AccessBatch) (b : ℕ) (r : Recorder) (d : Disk) (next : ℕ)
      → IsLogged w lawful log b r d
      → IsLogged w lawful log b (record r { sequence = next }) d
  numbered-IsLogged log b r d next l = record {
    published = l.published;
    current = l.current;
    segments = l.segments;
    in_order = l.in_order;
    counted = l.counted;
    limit = l.limit;
    file = elim l.file [
      | inl s ↦ inl (record { no_file = s.no_file; nothing = s.nothing; before = s.before })
      | inr o ↦ inr (record {
        path = o.path;
        open_at = o.open_at;
        holds = o.holds;
        sized = o.sized;
        named = o.named;
        dated = o.dated;
        newer = o.newer;
        encoded = o.encoded;
      })
    ];
  }

  batch_of-records :
      (itoa : ℕ → Text) (shard : ℕ) (recs : List Record) (r : Recorder)
      → length (batch_of w itoa shard recs r).records ≡ length recs
  unfolding batch_of
  batch_of-records itoa shard recs r = refl

  write_batch-After :
      (itoa : ℕ → Text) (f : Outcome) (log : List AccessBatch) (b shard : ℕ) (recs : List Record)
      (r : Recorder) (d : Disk)
      → Publishes f
      → b ≤ f.nanos
      → IsDated f.nanos
      → IsLogged w lawful log b r d
      → InLimit r
      → After w lawful log
          (suc f.nanos)
          (batch_of w itoa shard recs r)
          (write_batch w itoa f shard recs r d)
  unfolding write_batch
  write_batch-After itoa f log b shard recs r d works new dated l small =
      let made = batch_of w itoa shard recs r in
      let r1 = record r { sequence = add64 r.sequence 1 } in
      let l1 = numbered-IsLogged log b r d (add64 r.sequence 1) l in
      let size : length made.records ≡ length recs = batch_of-records itoa shard recs r in
      elim (Option-cases (w.marshal made)) [
        | inl bad ↦
            rw (bad, write_batch)
              (refused-After w lawful f log b r1 d made not_encoded new l1 small)
        | inr (encoded, marshalled) ↦
            rw (marshalled, write_batch)
              (subst
                (λ n. After w lawful log (suc f.nanos) made (write_encoded w itoa f encoded n r1 d))
                size
                (write_encoded-After w lawful itoa f log b r1 d made encoded works new dated l1
                  small marshalled))
      ]

  rotate-IsLogged :
      (itoa : ℕ → Text) (f : Outcome) (log : List AccessBatch) (b age : ℕ) (r : Recorder) (d : Disk)
      → Publishes f
      → IsLogged w lawful log b r d
      → InLimit r
      → let s = rotate w itoa f age r d in IsLogged w lawful log b s.0 s.1 × InLimit s.0
  unfolding rotate
  rotate-IsLogged itoa f log b age r d works l small =
      elim (Bool-cases (lt_i64 age r.cfg.segment_max_age)) [
        | inl young ↦ rw young (l, small)
        | inr old ↦ rw old (
          (close_segment-IsLogged w lawful f log b r d works l).0,
          omega (arith, small, close_segment-smaller f r d),
        )
      ]

  session-IsLogged :
      (itoa : ℕ → Text) (os : List Op) (log : List AccessBatch) (b : ℕ) (r : Recorder) (d : Disk)
      → InOrder b os
      → IsLogged w lawful log b r d
      → InLimit r
      → let s = session w itoa os r d in
        (c : ℕ) × IsLogged w lawful (log ++ s.2) c s.0 s.1 × InLimit s.0
  unfolding session
  session-IsLogged itoa [] log b r d ordered l small =
      (b, subst (λ all. IsLogged w lawful all b r d) (sym (append_nil log)) l, small)
  session-IsLogged itoa (batch f shard recs ∷ os) log b r d (new, dated, works, ordered) l small =
      let s = write_batch w itoa f shard recs r d in
      let added = accepted s.2 (batch_of w itoa shard recs r) in
      let (l1, small1) = write_batch-After itoa f log b shard recs r d works new dated l small in
      let (c, l2, small2) =
        session-IsLogged itoa os (log ++ added) (suc f.nanos) s.0 s.1 ordered l1 small1 in
      (
        c,
        subst
            (λ all.
              IsLogged w lawful all c (session w itoa os s.0 s.1).0 (session w itoa os s.0 s.1).1)
            (append_assoc log added (session w itoa os s.0 s.1).2) l2,
        small2,
      )
  session-IsLogged itoa (rotation f age ∷ os) log b r d (new, dated, works, ordered) l small =
      let s = rotate w itoa f age r d in
      let (l1, small1) = rotate-IsLogged itoa f log b age r d works l small in
      session-IsLogged itoa os log (suc f.nanos) s.0 s.1 ordered
        (IsLogged-above w lawful log b (suc f.nanos) s.0 s.1 (omega arith) l1) small1

  -- Nothing is written yet.
  abbrev pub no_files : Disk
  no_files = record { partials = []; segments = [] }

  fresh-IsLogged :
      (cfg : Config)
      → 0 < cfg.segment_bytes
      → cfg.segment_bytes < 2 ^ 62
      → IsLogged w lawful [] 0 (fresh_recorder cfg) no_files
  fresh-IsLogged cfg positive small = record {
    published = [];
    current = [];
    segments = refl;
    file = inl (record { no_file = refl; nothing = refl; before = (tt, tt) });
    in_order = refl;
    counted = refl;
    limit = (positive, small);
  }

  -- With no file open, all is published.
  all_published :
      (log : List AccessBatch) (b : ℕ) (r : Recorder) (d : Disk)
      → r.file ≡ none
      → IsLogged w lawful log b r d
      → Segments w lawful d.segments log × Rising d.segments
  all_published log b r d no_file l = elim l.file [
    | inl s ↦ (
      subst (Segments w lawful d.segments)
          (sym (
            l.in_order
            ∙ ap (λ es. l.published ++ map (λ p. p.0) es) s.nothing
            ∙ append_nil l.published))
          l.segments,
      s.before.1,
    )
    | inr o ↦ absurd (let both : none ≡ some o.path = sym no_file ∙ o.open_at in cc)
  ]

  -- If New accepts a configuration of segments below 2 ^ 62 bytes and a node id without a
  -- separator, then after any batches and rotations of it in an empty directory, with rising clock
  -- readings of 19 digits (the years 2001 to 2262), and one more rotation at the end, in which no
  -- close and no rename of a file fails, while encodings, opens, writes, truncates and removes
  -- may, and at least one batch was accepted, ReadDir returns the accepted batches in order
  -- without an error, in whatever order the file system has the files, and `written` counts their
  -- records modulo 2 ^ 64. Protobuf is taken to behave as documented.
  pub session-read :
      (itoa : ℕ → Text) (cfg : Config) (made writable : Bool) (r : Recorder) (os : List Op)
      (f : Outcome) (files : Directory)
      → cfg.segment_bytes < 2 ^ 62
      → no_separator cfg.node_id ≡ true
      → new_recorder cfg made writable ≡ inr r
      → InOrder 0 os
      → Publishes f
      → 0 < length (session w itoa os r no_files).2
      → Shuffled
          (listing cfg.node_id
            (close_segment f (session w itoa os r no_files).0 (session w itoa os r no_files).1).1)
          files
      → let s = session w itoa os r no_files in
        let c = close_segment f s.0 s.1 in
        (read_dir w files ≡ some (s.2, none)) × (c.0.written ≡ records_in s.2 % 2 ^ 64)
  session-read itoa cfg made writable r os f files small flat new ordered works any shuffled =
      let same = new_recorder-fresh cfg made writable r new in
      let limits = with_defaults-limit cfg small in
      let l : IsLogged w lawful [] 0 r no_files =
        rw same (fresh-IsLogged (with_defaults cfg) limits.0 limits.1) in
      let s = session w itoa os r no_files in
      let (b, l1, small1) =
        session-IsLogged itoa os [] 0 r no_files ordered l (rw same (omega arith)) in
      let (l2, shut) = close_segment-IsLogged w lawful f s.2 b s.0 s.1 works l1 in
      let c = close_segment f s.0 s.1 in
      let (held, rising) = all_published s.2 b c.0 c.1 shut l2 in
      (
        read_dir-Segments w lawful cfg.node_id c.1 files s.2 shuffled flat held rising any,
        l2.counted,
      )
