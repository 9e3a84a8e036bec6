-- ===== src/Trace/Recorder/Drained.antt =====
-- `drainAll` ends: the slots of a ring are fuel enough, and without an error nothing is left waiting.
use Prim.Native.Nat.{min}
use belady.Common.{
  ℕ, zero, suc, ◌-◌, ◌<◌, ◌^◌, ◌≡◌, ◌⊎◌, inl, inr, refl, sym, ap, ◌∙◌, Option, none, some, List, [],
  ◌∷◌, length, length-take, length-drop, arith, All, Bool-cases, Option-cases, lt_i64, lt_i64-eq,
  ltb, ◌==◌, add64, ltb→lt,
}
use belady.Common.Text.{Text}
use belady.Trace.Ring
use belady.Trace.Ring.{Ring, Record}
use belady.Trace.Ring.Fifo.{IsValid, contents, length-window, drain_refines}
use belady.Trace.Wire.{Protobuf, frame}
use belady.Trace.Disk.{Disk, Outcome, append_bytes}
use belady.Trace.Recorder.{
  Config, Recorder, WriteError, close_segment, truncate_segment, ensure_segment, count_batch,
  write_frame, write_ensured, write_encoded, write_batch, batch_of, drain_ring, drain_rings,
  drain_all,
}

close_segment-cfg : (f : Outcome) (r : Recorder) (d : Disk) → (close_segment f r d).0.cfg ≡ r.cfg
unfolding close_segment
close_segment-cfg f r d = ground arith

ensure_segment-cfg : (f : Outcome) (r : Recorder) (d : Disk) → (ensure_segment f r d).0.cfg ≡ r.cfg
unfolding ensure_segment
ensure_segment-cfg f r d = ground arith

count_batch-cfg :
    (f : Outcome) (bytes n : ℕ) (r : Recorder) (d : Disk)
    → (count_batch f bytes n r d).0.cfg ≡ r.cfg
unfolding count_batch
count_batch-cfg f bytes n r d =
    let r1 = record r { size = add64 r.size bytes; written = add64 r.written n } in
    ground (arith, close_segment-cfg f r1 d)

module _ (w : Protobuf) (itoa : ℕ → Text) where
  write_frame-cfg :
      (f : Outcome) (path n : ℕ) (encoded : List ℕ) (r : Recorder) (d : Disk)
      → (write_frame w itoa f path encoded n r d).0.cfg ≡ r.cfg
  unfolding write_frame truncate_segment
  write_frame-cfg f path n encoded r d = ground (
    arith,
    count_batch-cfg f (length (frame w encoded)) n r (append_bytes path (frame w encoded) d),
  )

  write_ensured-cfg :
      (f : Outcome) (n : ℕ) (encoded : List ℕ) (r : Recorder) (d : Disk) (e : Option WriteError)
      → (write_ensured w itoa f encoded n (r, d, e)).0.cfg ≡ r.cfg
  unfolding write_ensured
  write_ensured-cfg f n encoded r d (some err) = refl
  write_ensured-cfg f n encoded r d none = elim (Option-cases r.file) [
    | inl shut ↦ ground (arith, shut)
    | inr (path, there) ↦ ground (arith, there, write_frame-cfg f path n encoded r d)
  ]

  write_batch-cfg :
      (f : Outcome) (shard : ℕ) (recs : List Record) (r : Recorder) (d : Disk)
      → (write_batch w itoa f shard recs r d).0.cfg ≡ r.cfg
  unfolding write_batch write_encoded
  write_batch-cfg f shard recs r d =
      let r1 = record r { sequence = add64 r.sequence 1 } in
      let s = ensure_segment f r1 d in
      let batch = batch_of w itoa shard recs r in
      elim (Option-cases (w.marshal batch)) [
        | inl bad ↦ ground (arith, bad)
        | inr (encoded, good) ↦ ground (
          arith,
          good,
          write_ensured-cfg f (length recs) encoded s.0 s.1 s.2,
          ensure_segment-cfg f r1 d,
        )
      ]

  -- How the loop on a ring ends: with an error, or with the ring empty.
  abbrev pub IsDrained : ℕ → Ring × Recorder × Disk × Option WriteError → Type 0
  IsDrained k (ring, r, d, e) =
      IsValid k ring × ((e ≡ none) × (contents ring ≡ []) ⊎ ((err : WriteError) × (e ≡ some err)))

  nothing_left : (recs : List Record) → length recs ≡ 0 → recs ≡ []
  nothing_left [] h = refl
  nothing_left (x ∷ xs) h = absurd (omega (arith, h))

  drain_ring-IsDrained :
      (fuel k : ℕ) (env : ℕ → Outcome) (shard : ℕ) (ring : Ring) (r : Recorder) (d : Disk)
      → IsValid k ring
      → 0 < r.cfg.batch_size
      → r.cfg.batch_size < 2 ^ 63
      → length (contents ring) < fuel
      → (s : Ring × Recorder × Disk × Option WriteError) × (drain_ring w itoa fuel env shard ring r
            d
          ≡ some s)
        × IsDrained k s
        × (s.1.cfg ≡ r.cfg)
  unfolding drain_ring
  drain_ring-IsDrained zero k env shard ring r d v positive small enough = absurd (omega arith)
  drain_ring-IsDrained (suc fuel) k env shard ring r d v positive small enough =
      let n = r.cfg.batch_size in
      let (out, left, v1) = drain_refines k n v small in
      let recs = (Ring.drain ring n).0 in
      let ring1 = (Ring.drain ring n).1 in
      let s = write_batch w itoa (env r.sequence) shard recs r d in
      let took : length recs ≡ min n (length (contents ring)) =
        ap length out ∙ length-take n (contents ring) in
      let remain : length (contents ring1) ≡ length (contents ring) - n =
        ap length left ∙ length-drop n (contents ring) in
      let test : lt_i64 (length recs) n ≡ ltb (length recs) n =
        lt_i64-eq (length recs) n (omega (arith, took, small)) small in
      elim (Bool-cases (length recs == 0)) [
        | inl nothing ↦ (
          (ring1, r, d, none),
          rw (nothing, drain_ring) refl,
          (
            v1,
            inl (
              refl,
              nothing_left (contents ring1) (ground (arith, nothing, took, remain, positive)),
            ),
          ),
          refl,
        )
        | inr waiting ↦ elim (Option-cases s.2) [
          | inr (err, failed) ↦ (
            (ring1, record s.0 { lost = add64 s.0.lost (length recs) }, s.1, some err),
            rw (waiting, drain_ring) (rw (failed, drain_ring) refl),
            (v1, inr (err, refl)),
            write_batch-cfg (env r.sequence) shard recs r d,
          )
          | inl worked ↦ elim (Bool-cases (lt_i64 (length recs) n)) [
            | inl short ↦
                let lt : length recs < n = ltb→lt _ _ (sym test ∙ short) in
                (
                  (ring1, s.0, s.1, none),
                  rw (waiting, drain_ring) (rw (worked, drain_ring) (rw (short, drain_ring) refl)),
                  (v1, inl (refl, nothing_left (contents ring1) (omega (arith, lt, took, remain)))),
                  write_batch-cfg (env r.sequence) shard recs r d,
                )
            | inr full ↦
                let same = write_batch-cfg (env r.sequence) shard recs r d in
                let batch_same : s.0.cfg.batch_size ≡ n = ap (λ (c : Config). c.batch_size) same in
                let (t, ends, drained, cfg) =
                  drain_ring-IsDrained fuel k env shard ring1 s.0 s.1 v1
                    (omega (arith, batch_same, positive)) (omega (arith, batch_same, small))
                    (ground (arith, waiting, remain, took, positive, enough)) in
                (
                  t,
                  rw (waiting, drain_ring) (rw (worked, drain_ring) (rw (full, drain_ring) ends)),
                  drained,
                  cfg ∙ same,
                )
          ]
        ]
      ]

  abbrev pub AllValid : List Ring → Type 0
  AllValid rings = All (λ ring. (k : ℕ) × IsValid k ring) rings

  -- The rings at the end of a drain: all empty, or there was an error.
  abbrev pub AreDrained : List Ring → Option WriteError → Type 0
  AreDrained rings e =
      AllValid rings
      × ((e ≡ none) × All (λ ring. contents ring ≡ []) rings
          ⊎ ((err : WriteError) × (e ≡ some err)))

  slots_enough :
      (k : ℕ) (ring : Ring) → IsValid k ring → length (contents ring) < suc (length ring.buf)
  slots_enough k ring v = omega (
    arith,
    length-window ring.buf (length ring.buf) ring.head (ring.tail - ring.head),
    v.slots,
    v.room,
    v.lagging,
  )

  drain_rings-AreDrained :
      (env : ℕ → Outcome) (shard : ℕ) (rings : List Ring) (r : Recorder) (d : Disk)
      → AllValid rings
      → 0 < r.cfg.batch_size
      → r.cfg.batch_size < 2 ^ 63
      → (s : List Ring × Recorder × Disk × Option WriteError) × (drain_rings w itoa env shard rings
            r d
          ≡ some s)
        × AreDrained s.0 s.3
  unfolding drain_rings
  drain_rings-AreDrained env shard [] r d v positive small =
      (([], r, d, none), refl, (tt, inl (refl, tt)))
  drain_rings-AreDrained env shard (ring ∷ rings) r d ((k, v), vs) positive small =
      let (s, ends, (v1, how), same) =
        drain_ring-IsDrained (suc (length ring.buf)) k env shard ring r d v positive small
          (slots_enough k ring v) in
      let batch_same : s.1.cfg.batch_size ≡ r.cfg.batch_size =
        ap (λ (c : Config). c.batch_size) same in
      elim how [
        | inr (err, failed) ↦ (
          (s.0 ∷ rings, s.1, s.2, some err),
          rw (ends, drain_rings) (rw (failed, drain_rings) refl),
          (((k, v1), vs), inr (err, refl)),
        )
        | inl (worked, emptied) ↦
            let (t, ended, (valid, rest)) =
              drain_rings-AreDrained env (suc shard) rings s.1 s.2 vs
                (omega (arith, batch_same, positive)) (omega (arith, batch_same, small)) in
            (
              (s.0 ∷ t.0, t.1, t.2, t.3),
              rw (ends, drain_rings) (rw (worked, drain_rings) (rw (ended, drain_rings) refl)),
              (
                ((k, v1), valid),
                elim rest [
                  | inl (none_left, all) ↦ inl (none_left, (emptied, all))
                  | inr err ↦ inr err
                ],
              ),
            )
      ]

  -- On valid rings and for a positive batch size, drainAll ends, with valid rings, and either all
  -- rings are empty or a write failed.
  pub drain_all-AreDrained :
      (env : ℕ → Outcome) (r : Recorder) (d : Disk)
      → AllValid r.rings
      → 0 < r.cfg.batch_size
      → r.cfg.batch_size < 2 ^ 63
      → (s : Recorder × Disk × Option WriteError) × (drain_all w itoa env r d ≡ some s)
        × AreDrained s.0.rings s.2
  unfolding drain_all
  drain_all-AreDrained env r d v positive small =
      let (s, ends, drained) = drain_rings-AreDrained env 0 r.rings r d v positive small in
      ((record s.1 { rings = s.0 }, s.2, s.3), rw (ends, drain_all) refl, drained)
