-- ===== src/Trace/Recorder/Published.antt =====
-- What publishing a file of whole frames, and perhaps a torn one, does to the segments.
use belady.Common.{
  ℕ, ◌<◌, ◌≤◌, inl, inr, Bool-cases, ◌≡◌, refl, sym, true, false, some, List, [], ◌∷◌, ◌++◌, map,
  length, arith, All, All-map, Map, lookup, insert, length-append, append_nil, append_assoc, ◌==◌,
  ne→==,
}
use belady.Trace.Wire.{AccessBatch, Protobuf, IsProtobuf, frame, frames, IsEncoded, IsTorn}
use belady.Trace.Reader.Laws.{Segments, frame-positive}
use belady.Trace.Names.Order.{IsDated, Rising}
use belady.Trace.Disk.{Disk, Outcome, rename, publish}

abbrev pub Below : Map (List ℕ) → ℕ → Type 0
Below m path = All (λ s. s.0 < path) m

-- The files of the map are older than the path, and in the order of their dates.
abbrev pub Older : Map (List ℕ) → ℕ → Type 0
Older m path = Below m path × Rising m

pub Older-above : (m : Map (List ℕ)) (b c : ℕ) → b ≤ c → Older m b → Older m c
Older-above m b c le (below, rising) =
    (All-map (λ s. s.0 < b) (λ s. s.0 < c) m (λ s h. omega (arith, h, le)) below, rising)

module _ (w : Protobuf) (lawful : IsProtobuf w) where
  Segments-insert :
      (m : Map (List ℕ)) (bs : List AccessBatch) (path : ℕ) (es : List (AccessBatch × List ℕ))
      (torn : List ℕ)
      → Segments w lawful m bs
      → Below m path
      → All (IsEncoded w) es
      → IsTorn w torn
      → Segments w lawful (insert path (frames w es ++ torn) m) (bs ++ map (λ p. p.0) es)
  unfolding insert
  Segments-insert [] bs path es torn held older encoded tail =
      (es, torn, [], refl, encoded, tail, rw held (sym (append_nil (map (λ p. p.0) es))), refl)
  Segments-insert ((k, bytes) ∷ m) bs path es torn
        (fs, rest_torn, rest, shape, whole, cut, same, later) older encoded tail =
      let other : (k == path) ≡ false = ne→== k path (omega (arith, older.0)) in
      rw other (
        fs,
        rest_torn,
        rest ++ map (λ p. p.0) es,
        shape,
        whole,
        cut,
        rw same (append_assoc (map (λ p. p.0) fs) rest (map (λ p. p.0) es)),
        Segments-insert m rest path es torn later older.1 encoded tail,
      )

  Below-insert :
      (m : Map (List ℕ)) (path b : ℕ) (bytes : List ℕ)
      → Below m path
      → path < b
      → Below (insert path bytes m) b
  unfolding insert
  Below-insert [] path b bytes older lt = (lt, tt)
  Below-insert ((k, other) ∷ m) path b bytes older lt =
      let fresh : (k == path) ≡ false = ne→== k path (omega (arith, older.0)) in
      rw fresh (omega (arith, older.0), Below-insert m path b bytes older.1 lt)

  above-insert :
      (m : Map (List ℕ)) (k path : ℕ) (bytes : List ℕ)
      → All (λ s. k < s.0) m
      → k < path
      → All (λ s. k < s.0) (insert path bytes m)
  unfolding insert
  above-insert [] k path bytes above lt = (lt, tt)
  above-insert ((j, other) ∷ m) k path bytes above lt = elim (Bool-cases (j == path)) [
    | inl same ↦ rw same (ground (arith, above.0), above.1)
    | inr apart ↦ rw apart (above.0, above-insert m k path bytes above.1 lt)
  ]

  Rising-insert :
      (m : Map (List ℕ)) (path : ℕ) (bytes : List ℕ)
      → Older m path
      → IsDated path
      → Rising (insert path bytes m)
  unfolding insert
  Rising-insert [] path bytes older dated = (dated, tt, tt)
  Rising-insert ((k, other) ∷ m) path bytes (below, (dated_k, above, rising)) dated =
      let fresh : (k == path) ≡ false = ne→== k path (omega (arith, below.0)) in
      rw fresh (
        dated_k,
        above-insert m k path bytes above below.0,
        Rising-insert m path bytes (below.1, rising) dated,
      )

  -- An empty file is only removed.
  publish_empty :
      (f : Outcome) (d : Disk) (path size : ℕ)
      → (size == 0) ≡ true
      → (publish f path size d).0.segments ≡ d.segments
  unfolding publish
  publish_empty f d path size empty = ground arith

  -- The segments after a file is published, and a bound of their names.
  pub record IsPublished (b : ℕ) (bs : List AccessBatch) (d : Disk) : Type 0 where
    pub segments : Segments w lawful d.segments bs
    pub older : Older d.segments b

  pub publish-IsPublished :
      (f : Outcome) (d : Disk) (path size b : ℕ) (bs : List AccessBatch)
      (es : List (AccessBatch × List ℕ)) (torn : List ℕ)
      → f.rename_fails ≡ false
      → lookup path d.partials ≡ some (frames w es ++ torn)
      → size ≡ length (frames w es)
      → Segments w lawful d.segments bs
      → Older d.segments path
      → path < b
      → IsDated path
      → All (IsEncoded w) es
      → IsTorn w torn
      → IsPublished b (bs ++ map (λ p. p.0) es) (publish f path size d).0
  unfolding publish rename
  publish-IsPublished f d path size b bs [] torn renames there sized held older lt dated encoded
        tail =
      let same = publish_empty f d path size (ground (arith, sized)) in
      record {
        segments = rw (same, append_nil bs) held;
        older = rw same (Older-above d.segments path b (omega (arith, lt)) older);
      }
  publish-IsPublished f d path size b bs (e ∷ es) torn renames there sized held older lt dated
        encoded tail =
      let some_bytes : (size == 0) ≡ false = ne→== size 0 (
        omega
          (arith, sized, length-append (frame w e.1) (frames w es), frame-positive w lawful e.1)) in
      rw (some_bytes, renames, there, rename)
        (record {
          segments = Segments-insert d.segments bs path (e ∷ es) torn held older.0 encoded tail;
          older = (
            Below-insert d.segments path b (frames w (e ∷ es) ++ torn) older.0 lt,
            Rising-insert d.segments path (frames w (e ∷ es) ++ torn) older dated,
          );
        })
