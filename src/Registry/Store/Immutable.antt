-- ===== src/Registry/Store/Immutable.antt =====
-- The files of a published version under later publishes.
use belady.Common.{
  ℕ, ◌≡◌, ◌≢◌, inl, inr, refl, ap, ◌∙◌, Bool, some, List, [], ◌∷◌, arith, Bool-cases, Option-cases,
}
use belady.Registry.Stream.{ModelMeta}
use belady.Registry.Store.{
  model_partial, meta_partial, File, Dir, read, write_atomic, Store, Faults, model_path, meta_path,
  with_dir, publish_meta, publish_body, publish,
}
use belady.Registry.Store.Published.{write_atomic-other, make_visible-dir}

-- Both files of a version are the same in the two directories.
pub record SameVersion (v : List ℕ) (d d' : Dir) : Type 0 where
  pub metadata : read (meta_path v) d' ≡ read (meta_path v) d
  pub body : read (model_path v) d' ≡ read (model_path v) d

SameVersion-refl : (v : List ℕ) (d d' : Dir) → d' ≡ d → SameVersion v d d'
SameVersion-refl v d d' same = record {
  metadata = ap (read (meta_path v)) same;
  body = ap (read (model_path v)) same;
}

SameVersion-trans :
    (v : List ℕ) (d e f : Dir) → SameVersion v d e → SameVersion v e f → SameVersion v d f
SameVersion-trans v d e f h k = record {
  metadata = k.metadata ∙ h.metadata;
  body = k.body ∙ h.body;
}

version-ne : {f g : File} → f.version ≢ g.version → f ≢ g
version-ne h e = h (ap (λ f. f.version) e)

module _ (marshal : ModelMeta → List ℕ) where
  publish_meta-SameVersion :
      (f : Faults) (m : ModelMeta) (s : Store) (v : List ℕ)
      → v ≢ m.version
      → SameVersion v s.dir (publish_meta marshal f m s).0.dir
  unfolding publish_meta with_dir meta_path model_path
  publish_meta-SameVersion f m s v ne =
      let part : File = record { version = m.version; extension = meta_partial } in
      let d : Dir × Bool = write_atomic f.metadata part (meta_path m.version) (marshal m) s.dir in
      let kept : SameVersion v s.dir d.0 = record {
        metadata =
            write_atomic-other f.metadata part (meta_path m.version) (meta_path v) (marshal m) s.dir
              (version-ne ne) (version-ne ne);
        body =
            write_atomic-other f.metadata part (meta_path m.version) (model_path v) (marshal m)
              s.dir (version-ne ne) (version-ne ne);
      } in
      elim (Bool-cases f.encoding) [
        | inl bad ↦ SameVersion-refl v s.dir (publish_meta marshal f m s).0.dir (ground arith)
        | inr good ↦ elim (Bool-cases d.1) [
          | inl ok ↦ SameVersion-trans v s.dir d.0 (publish_meta marshal f m s).0.dir kept (
              SameVersion-refl v d.0 (publish_meta marshal f m s).0.dir
                (ground (arith, make_visible-dir m (with_dir d.0 s))))
          | inr bad ↦
              SameVersion-trans v s.dir d.0 (publish_meta marshal f m s).0.dir kept
                (SameVersion-refl v d.0 (publish_meta marshal f m s).0.dir (ground arith))
        ]
      ]

  publish_body-SameVersion :
      (f : Faults) (m : ModelMeta) (body : List ℕ) (s : Store) (v : List ℕ)
      → v ≢ m.version
      → SameVersion v s.dir (publish_body marshal f m body s).0.dir
  unfolding publish_body with_dir meta_path model_path
  publish_body-SameVersion f m body s v ne =
      let part : File = record { version = m.version; extension = model_partial } in
      let d : Dir × Bool = write_atomic f.body part (model_path m.version) body s.dir in
      let kept : SameVersion v s.dir d.0 = record {
        metadata =
            write_atomic-other f.body part (model_path m.version) (meta_path v) body s.dir
              (version-ne ne) (version-ne ne);
        body =
            write_atomic-other f.body part (model_path m.version) (model_path v) body s.dir
              (version-ne ne) (version-ne ne);
      } in
      let after : Store = (publish_body marshal f m body s).0 in
      elim (Bool-cases d.1) [
        | inl ok ↦
            SameVersion-trans v s.dir (publish_meta marshal f m (with_dir d.0 s)).0.dir after.dir
              (SameVersion-trans v s.dir d.0 (publish_meta marshal f m (with_dir d.0 s)).0.dir kept
                (publish_meta-SameVersion f m (with_dir d.0 s) v ne))
              (SameVersion-refl v (publish_meta marshal f m (with_dir d.0 s)).0.dir after.dir
                (ground arith))
        | inr bad ↦
            SameVersion-trans v s.dir d.0 after.dir kept
              (SameVersion-refl v d.0 after.dir (ground arith))
      ]

  publish-SameVersion :
      (f : Faults) (m : ModelMeta) (body : List ℕ) (s : Store) (v x : List ℕ)
      → read (meta_path v) s.dir ≡ some x
      → SameVersion v s.dir (publish marshal f m body s).0.dir
  unfolding publish
  publish-SameVersion f m body s v x there =
      let after : Store = (publish marshal f m body s).0 in
      elim (Bool-cases f.stat) [
        | inl bad ↦ SameVersion-refl v s.dir after.dir (ground arith)
        | inr good ↦ elim (Option-cases (read (meta_path m.version) s.dir)) [
          | inl new ↦
              let ne : v ≢ m.version = λ same. absurd (cc) in
              SameVersion-trans v s.dir (publish_body marshal f m body s).0.dir after.dir
                (publish_body-SameVersion f m body s v ne)
                (SameVersion-refl v (publish_body marshal f m body s).0.dir after.dir
                  (ground arith))
          | inr (old, taken) ↦ SameVersion-refl v s.dir after.dir (ground arith)
        ]
      ]

  -- Publishes one after the other, each with the faults it meets.
  abbrev pub publish_all : List (Faults × ModelMeta × List ℕ) → Store → Store
  publish_all [] s = s
  publish_all ((f, m, body) ∷ ps) s = publish_all ps (publish marshal f m body s).0

  -- Once a version has metadata, no sequence of publishes changes its metadata or its body,
  -- whatever versions they carry and whichever of their steps fail.
  pub publish_all-SameVersion :
      (ps : List (Faults × ModelMeta × List ℕ)) (s : Store) (v x : List ℕ)
      → read (meta_path v) s.dir ≡ some x
      → SameVersion v s.dir (publish_all ps s).dir
  publish_all-SameVersion [] s v x there = SameVersion-refl v s.dir s.dir refl
  publish_all-SameVersion ((f, m, body) ∷ ps) s v x there =
      let first : SameVersion v s.dir (publish marshal f m body s).0.dir =
        publish-SameVersion f m body s v x there in
      SameVersion-trans v s.dir (publish marshal f m body s).0.dir
        (publish_all ((f, m, body) ∷ ps) s).dir first
        (publish_all-SameVersion ps (publish marshal f m body s).0 v x (first.metadata ∙ there))
