-- ===== src/Trace/Recorder/Log.antt =====
-- The batches of a recorder: those that `writeBatch` accepted are those that the segments and the
-- open file hold, in order, whatever write, truncate, open or remove fails.
use belady.Common.{
  ℕ, ◌+◌, ◌-◌, ◌<◌, ◌%◌, ◌^◌, ◌≡◌, ◌⊎◌, inl, inr, refl, sym, ap, ◌∙◌, subst, true, false, none,
  some, List, [], ◌∷◌, ◌++◌, map, length, arith, All, lookup, insert, lookup-insert, length-append,
  append_nil, Bool-cases, ==_refl, take-append,
}
use belady.Trace.Wire.{AccessBatch, Protobuf, IsProtobuf, frames, IsEncoded, IsTorn}
use belady.Trace.Reader.Laws.{Segments, frame-positive}
use belady.Trace.Names.Order.{IsDated}
use belady.Trace.Disk.{Disk, Outcome, publish, cut_file, truncate}
use belady.Trace.Recorder.{Recorder, close_segment, closed, truncate_segment}
use belady.Trace.Recorder.Published.{Older, IsPublished, publish-IsPublished}

-- The records of the batches.
abbrev pub records_in : List AccessBatch → ℕ
records_in [] = 0
records_in (b ∷ bs) = length b.records + records_in bs

-- Closing and renaming work; the other calls may fail.
abbrev pub Publishes : Outcome → Type 0
Publishes f = (f.close_fails ≡ false) × (f.rename_fails ≡ false)

close_shut :
    (f : Outcome) (r : Recorder) (d : Disk) → r.file ≡ none → close_segment f r d ≡ (r, d, none)
unfolding close_segment
close_shut f r d h = ground (arith, h)

close_open :
    (f : Outcome) (r : Recorder) (d : Disk) (path : ℕ)
    → r.file ≡ some path
    → f.close_fails ≡ false
    → close_segment f r d ≡ (closed r, (publish f path r.size d).0, (publish f path r.size d).1)
unfolding close_segment
close_open f r d path h works = ground (arith, h, works)

cut_file_whole :
    (f : Outcome) (path size : ℕ) (d : Disk) (bytes : List ℕ)
    → lookup path d.partials ≡ some bytes
    → f.truncate_fails ≡ true
    → (cut_file f path size d).0 ≡ d
unfolding cut_file
cut_file_whole f path size d bytes there fails = ground (arith, there, fails)

cut_file_cut :
    (f : Outcome) (path size : ℕ) (d : Disk) (bytes : List ℕ)
    → lookup path d.partials ≡ some bytes
    → f.truncate_fails ≡ false
    → (cut_file f path size d).0
      ≡ record d { partials = insert path (truncate size bytes) d.partials }
unfolding cut_file
cut_file_cut f path size d bytes there works = ground (arith, there, works)

-- The size of the open file, between two batches.
abbrev pub InLimit : Recorder → Type 0
InLimit r = r.size < 2 ^ 62

module _ (w : Protobuf) (lawful : IsProtobuf w) where
  -- The open file, of the batches `es`, is newer than the segments.
  pub record Writing (b : ℕ) (r : Recorder) (d : Disk) (es : List (AccessBatch × List ℕ))
      : Type 0 where
    pub path : ℕ
    pub open_at : r.file ≡ some path
    pub holds : lookup path d.partials ≡ some (frames w es)
    pub sized : r.size ≡ length (frames w es)
    pub named : path < b
    pub dated : IsDated path
    pub newer : Older d.segments path
    pub encoded : All (IsEncoded w) es

  pub record Shut (b : ℕ) (r : Recorder) (d : Disk) (es : List (AccessBatch × List ℕ))
      : Type 0 where
    pub no_file : r.file ≡ none
    pub nothing : es ≡ []
    pub before : Older d.segments b

  -- `b` is a bound of the names that were used.
  pub record IsLogged (log : List AccessBatch) (b : ℕ) (r : Recorder) (d : Disk) : Type 0 where
    pub published : List AccessBatch
    pub current : List (AccessBatch × List ℕ)
    pub segments : Segments w lawful d.segments published
    pub file : Shut b r d current ⊎ Writing b r d current
    pub in_order : log ≡ published ++ map (λ p. p.0) current
    pub counted : r.written ≡ records_in log % 2 ^ 64
    pub limit : (0 < r.cfg.segment_bytes) × (r.cfg.segment_bytes < 2 ^ 62)

  no_tail : IsTorn w []
  no_tail = ([], 0, omega arith, frame-positive w lawful [], refl)

  -- Once a file is published, none is open.
  published-IsLogged :
      (log : List AccessBatch) (b : ℕ) (r : Recorder) (d : Disk)
      → IsPublished w lawful b log d
      → r.file ≡ none
      → r.written ≡ records_in log % 2 ^ 64
      → (0 < r.cfg.segment_bytes) × (r.cfg.segment_bytes < 2 ^ 62)
      → IsLogged log b r d
  published-IsLogged log b r d p closed counted limit = record {
    published = log;
    current = [];
    segments = p.segments;
    file = inl (record { no_file = closed; nothing = refl; before = p.older });
    in_order = sym (append_nil log);
    counted = counted;
    limit = limit;
  }

  pub close_segment-IsLogged :
      (f : Outcome) (log : List AccessBatch) (b : ℕ) (r : Recorder) (d : Disk)
      → Publishes f
      → IsLogged log b r d
      → let s = close_segment f r d in IsLogged log b s.0 s.1 × (s.0.file ≡ none)
  close_segment-IsLogged f log b r d works l = elim l.file [
    | inl shut ↦
        subst (λ s. IsLogged log b s.0 s.1 × (s.0.file ≡ none))
          (sym (close_shut f r d shut.no_file)) (l, shut.no_file)
    | inr o ↦
        let p =
          publish-IsPublished w lawful f d o.path r.size b l.published l.current [] works.1
            (o.holds ∙ ap some (sym (append_nil (frames w l.current)))) o.sized l.segments o.newer
            o.named o.dated o.encoded no_tail in
        let logged =
          subst (λ bs. IsPublished w lawful b bs (publish f o.path r.size d).0) (sym l.in_order)
            p in
        subst (λ s. IsLogged log b s.0 s.1 × (s.0.file ≡ none))
          (sym (close_open f r d o.path o.open_at works.0))
          (
            published-IsLogged log b (closed r) (publish f o.path r.size d).0 logged refl l.counted
                l.limit,
            refl,
          )
  ]

  -- After a failed write: the file's whole frames and a torn one, or only the whole ones.
  torn-IsLogged :
      (f : Outcome) (log : List AccessBatch) (b : ℕ) (r : Recorder) (d d' : Disk) (torn : List ℕ)
      → Publishes f
      → (l : IsLogged log b r d) → (o : Writing b r d l.current)
      → lookup o.path d'.partials ≡ some (frames w l.current ++ torn)
      → d'.segments ≡ d.segments
      → IsTorn w torn
      → IsLogged log b (closed r) (publish f o.path r.size d').0
  torn-IsLogged f log b r d d' torn works l o there same tail =
      let p =
        publish-IsPublished w lawful f d' o.path r.size b l.published l.current torn works.1 there
          o.sized (rw same l.segments) (rw same o.newer) o.named o.dated o.encoded tail in
      published-IsLogged log b (closed r) (publish f o.path r.size d').0
        (subst (λ bs. IsPublished w lawful b bs (publish f o.path r.size d').0) (sym l.in_order) p)
        refl l.counted l.limit

  truncate-frames :
      (es : List (AccessBatch × List ℕ)) (torn : List ℕ)
      → truncate (length (frames w es)) (frames w es ++ torn) ≡ frames w es
  unfolding truncate
  truncate-frames es torn =
      let none_missing : length (frames w es) - length (frames w es ++ torn) ≡ 0 =
        omega (arith, length-append (frames w es) torn) in
      rw (none_missing, take-append (frames w es) torn) (append_nil (frames w es))

  pub truncate_segment-IsLogged :
      (f : Outcome) (log : List AccessBatch) (b : ℕ) (r : Recorder) (d d' : Disk) (torn : List ℕ)
      → Publishes f
      → (l : IsLogged log b r d) → (o : Writing b r d l.current)
      → lookup o.path d'.partials ≡ some (frames w l.current ++ torn)
      → d'.segments ≡ d.segments
      → IsTorn w torn
      → let s = truncate_segment f o.path r d' in IsLogged log b s.0 s.1
  unfolding truncate_segment
  truncate_segment-IsLogged f log b r d d' torn works l o there same tail =
      elim (Bool-cases f.truncate_fails) [
        | inl fails ↦
            subst (λ d1. IsLogged log b (closed r) (publish f o.path r.size d1).0)
              (sym (cut_file_whole f o.path r.size d' (frames w l.current ++ torn) there fails))
              (torn-IsLogged f log b r d d' torn works l o there same tail)
        | inr cuts ↦
            let cut_to = truncate r.size (frames w l.current ++ torn) in
            let d1 = record d' { partials = insert o.path cut_to d'.partials } in
            let whole : cut_to ≡ frames w l.current ++ [] =
              rw (o.sized, truncate-frames l.current torn)
                (sym (append_nil (frames w l.current))) in
            let held : lookup o.path d1.partials ≡ some (frames w l.current ++ []) =
              lookup-insert o.path o.path cut_to d'.partials
              ∙ rw (==_refl o.path) (ap some whole) in
            subst (λ d1. IsLogged log b (closed r) (publish f o.path r.size d1).0)
              (sym (cut_file_cut f o.path r.size d' (frames w l.current ++ torn) there cuts))
              (torn-IsLogged f log b r d d1 [] works l o held same no_tail)
      ]
