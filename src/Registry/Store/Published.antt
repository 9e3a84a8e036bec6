-- ===== src/Registry/Store/Published.antt =====
-- What a publish does to the directory, whichever of its steps fails.
use belady.Common.{
  ℕ, ◌≡◌, ◌≢◌, ◌⊎◌, inl, inr, refl, sym, ap, ap₂, subst, ◌∙◌, Bool, true, false, none, some, List,
  [], ◌∷◌, if◌then◌else◌, arith, Bool-cases, Option-cases,
}
use belady.Registry.Stream.{ModelMeta}
use belady.Registry.Stream.Whole.{same_bytes-eq, same_bytes_refl}
use belady.Registry.Store.{
  Extension, model, meta, model_partial, meta_partial, File, same_extension, same_file, Dir, read,
  discard, write, Fault, fine, write_fails, rename_fails, write_atomic, Store, Faults, Outcome,
  published, exists, failed, model_path, meta_path, newer, make_visible, with_dir, publish_meta,
  publish_body, publish,
}

same_extension-eq : (a b : Extension) → same_extension a b ≡ true → a ≡ b
unfolding same_extension
same_extension-eq model model h = refl
same_extension-eq meta meta h = refl
same_extension-eq model_partial model_partial h = refl
same_extension-eq meta_partial meta_partial h = refl
same_extension-eq model meta h = absurd (cc)
same_extension-eq model model_partial h = absurd (cc)
same_extension-eq model meta_partial h = absurd (cc)
same_extension-eq meta model h = absurd (cc)
same_extension-eq meta model_partial h = absurd (cc)
same_extension-eq meta meta_partial h = absurd (cc)
same_extension-eq model_partial model h = absurd (cc)
same_extension-eq model_partial meta h = absurd (cc)
same_extension-eq model_partial meta_partial h = absurd (cc)
same_extension-eq meta_partial model h = absurd (cc)
same_extension-eq meta_partial meta h = absurd (cc)
same_extension-eq meta_partial model_partial h = absurd (cc)

same_extension_refl : (a : Extension) → same_extension a a ≡ true
unfolding same_extension
same_extension_refl model = refl
same_extension_refl meta = refl
same_extension_refl model_partial = refl
same_extension_refl meta_partial = refl

same_file-eq : (f g : File) → same_file f g ≡ true → f ≡ g
unfolding same_file
same_file-eq f g h = elim (Bool-cases (same_extension f.extension g.extension)) [
  | inl e ↦
      ap₂ (λ v. λ x. record { version = v; extension = x })
        (same_bytes-eq f.version g.version (ground arith))
        (same_extension-eq f.extension g.extension e)
  | inr e ↦ absurd (ground arith)
]

same_file_refl : (f : File) → same_file f f ≡ true
unfolding same_file
same_file_refl f = ground (arith, same_extension_refl f.extension, same_bytes_refl f.version)

same_file-ne : (f g : File) → f ≢ g → same_file f g ≡ false
same_file-ne f g ne = elim (Bool-cases (same_file f g)) [
  | inl e ↦ absurd (ne (same_file-eq f g e))
  | inr e ↦ e
]

read-discard : (f g : File) (d : Dir) → f ≢ g → read f (discard g d) ≡ read f d
unfolding read discard
read-discard f g [] ne = refl
read-discard f g ((h, b) ∷ d) ne = elim (Bool-cases (same_file g h)) [
  | inl e ↦
      let other : same_file f h ≡ false =
        subst (λ t. same_file f t ≡ false) (same_file-eq g h e) (same_file-ne f g ne) in
      ground (arith, read-discard f g d ne)
  | inr e ↦ ground (arith, read-discard f g d ne)
]

read-write_self : (f : File) (b : List ℕ) (d : Dir) → read f (write f b d) ≡ some b
unfolding read write
read-write_self f b d = ground (arith, same_file_refl f)

read-write_ne : (f g : File) (b : List ℕ) (d : Dir) → f ≢ g → read f (write g b d) ≡ read f d
unfolding read write
read-write_ne f g b d ne = ground (arith, same_file-ne f g ne, read-discard f g d ne)

-- An atomic write that succeeds has the bytes in place, one that fails leaves the path as it was.
write_atomic-path :
    (x : Fault) (part path : File) (b : List ℕ) (d : Dir)
    → path ≢ part
    → ((write_atomic x part path b d).1 ≡ true
        × read path (write_atomic x part path b d).0 ≡ some b)
      ⊎ ((write_atomic x part path b d).1 ≡ false
          × read path (write_atomic x part path b d).0 ≡ read path d)
unfolding write_atomic
write_atomic-path fine part path b d ne = inl (refl, read-write_self path b (discard part d))
write_atomic-path (write_fails left) part path b d ne =
    inr (refl, read-write_ne path part left d ne)
write_atomic-path rename_fails part path b d ne = inr (refl, read-write_ne path part b d ne)

pub write_atomic-other :
    (x : Fault) (part path f : File) (b : List ℕ) (d : Dir)
    → f ≢ part
    → f ≢ path
    → read f (write_atomic x part path b d).0 ≡ read f d
unfolding write_atomic
write_atomic-other fine part path f b d h k =
    read-write_ne f path b (discard part d) k ∙ read-discard f part d h
write_atomic-other (write_fails left) part path f b d h k = read-write_ne f part left d h
write_atomic-other rename_fails part path f b d h k = read-write_ne f part b d h

-- The version is visible with its metadata and body, or nothing was visible before and nothing is after.
pub data Published (marshal : ModelMeta → List ℕ) (m : ModelMeta) (body : List ℕ) (s s' : Store)
    : Outcome → Type 0 where
  taken : s' ≡ s → read (meta_path m.version) s.dir ≢ none → Published marshal m body s s' exists
  done :
      read (meta_path m.version) s.dir ≡ none
      → read (meta_path m.version) s'.dir ≡ some (marshal m)
      → read (model_path m.version) s'.dir ≡ some body
      → (s'.latest ≡ (if newer m s.latest then some m else s.latest))
      → Published marshal m body s s' published
  nothing :
      s'.latest ≡ s.latest
      → s'.changed ≡ s.changed
      → read (meta_path m.version) s'.dir ≡ read (meta_path m.version) s.dir
      → Published marshal m body s s' failed

pub make_visible-dir : (m : ModelMeta) (s : Store) → (make_visible m s).dir ≡ s.dir
unfolding make_visible
make_visible-dir m s = ground arith

make_visible-latest :
    (m : ModelMeta) (s : Store)
    → (make_visible m s).latest ≡ (if newer m s.latest then some m else s.latest)
unfolding make_visible
make_visible-latest m s = ground arith

pub extension-ne : {f g : File} → f.extension ≢ g.extension → f ≢ g
extension-ne h e = h (ap (λ f. f.extension) e)

module _ (marshal : ModelMeta → List ℕ) where
  abbrev Ends : ModelMeta → List ℕ → Store → Store × Outcome → Type 0
  Ends m body s r = Published marshal m body s r.0 r.1

  publish_meta-Published :
      (f : Faults) (m : ModelMeta) (body : List ℕ) (s : Store)
      → read (meta_path m.version) s.dir ≡ none
      → read (model_path m.version) s.dir ≡ some body
      → Ends m body s (publish_meta marshal f m s)
  unfolding publish_meta with_dir meta_path model_path
  publish_meta-Published f m body s new stored =
      let part : File = record { version = m.version; extension = meta_partial } in
      let d : Dir × Bool = write_atomic f.metadata part (meta_path m.version) (marshal m) s.dir in
      let next : Store = make_visible m (with_dir d.0 s) in
      let apart : meta_path m.version ≢ part = extension-ne (λ e. absurd (cc)) in
      elim (Bool-cases f.encoding) [
        | inl bad ↦
            let stops : publish_meta marshal f m s ≡ (s, failed) = ground arith in
            subst (Ends m body s) (sym stops) (nothing refl refl refl)
        | inr good ↦
            elim (write_atomic-path f.metadata part (meta_path m.version) (marshal m) s.dir apart) [
              | inl (ok, placed) ↦
                  let ends : publish_meta marshal f m s ≡ (next, published) = ground arith in
                  let dir : next.dir ≡ d.0 = make_visible-dir m (with_dir d.0 s) in
                  let body_there : read (model_path m.version) d.0 ≡ some body =
                    write_atomic-other f.metadata part (meta_path m.version) (model_path m.version)
                      (marshal m) s.dir (extension-ne (λ e. absurd (cc)))
                      (extension-ne (λ e. absurd (cc)))
                    ∙ stored in
                  subst (Ends m body s) (sym ends) (
                    done new (ap (read (meta_path m.version)) dir ∙ placed)
                      (ap (read (model_path m.version)) dir ∙ body_there)
                      (make_visible-latest m (with_dir d.0 s)))
              | inr (bad, kept) ↦
                  let ends : publish_meta marshal f m s ≡ (with_dir d.0 s, failed) = ground arith in
                  subst (Ends m body s) (sym ends) (nothing refl refl kept)
            ]
      ]

  Published-before :
      (m : ModelMeta) (body : List ℕ) (s t s' : Store) (o : Outcome)
      → t.latest ≡ s.latest
      → t.changed ≡ s.changed
      → read (meta_path m.version) t.dir ≡ none
      → read (meta_path m.version) s.dir ≡ none
      → Published marshal m body t s' o
      → Published marshal m body s s' o
  Published-before m body s t s' o l c h k (taken same there) = absurd (there h)
  Published-before m body s t s' o l c h k (done new meta_there body_there latest) =
      done k meta_there body_there (latest ∙ ap (λ x. if newer m x then some m else x) l)
  Published-before m body s t s' o l c h k (nothing latest changed kept) =
      nothing (latest ∙ l) (changed ∙ c) (kept ∙ h ∙ sym k)

  publish_body-Published :
      (f : Faults) (m : ModelMeta) (body : List ℕ) (s : Store)
      → read (meta_path m.version) s.dir ≡ none
      → Ends m body s (publish_body marshal f m body s)
  unfolding publish_body with_dir meta_path model_path
  publish_body-Published f m body s new =
      let part : File = record { version = m.version; extension = model_partial } in
      let d : Dir × Bool = write_atomic f.body part (model_path m.version) body s.dir in
      let kept : read (meta_path m.version) d.0 ≡ read (meta_path m.version) s.dir =
        write_atomic-other f.body part (model_path m.version) (meta_path m.version) body s.dir
          (extension-ne (λ e. absurd (cc))) (extension-ne (λ e. absurd (cc))) in
      elim (write_atomic-path f.body part (model_path m.version) body s.dir
        (extension-ne (λ e. absurd (cc)))) [
          | inl (ok, placed) ↦
              let goes_on : publish_body marshal f m body s
                  ≡ publish_meta marshal f m (with_dir d.0 s) =
                ground arith in
              subst (Ends m body s) (sym goes_on) (
                Published-before m body s (with_dir d.0 s)
                  (publish_meta marshal f m (with_dir d.0 s)).0
                  (publish_meta marshal f m (with_dir d.0 s)).1 refl refl (kept ∙ new) new
                  (publish_meta-Published f m body (with_dir d.0 s) (kept ∙ new) placed))
          | inr (bad, same) ↦
              let ends : publish_body marshal f m body s ≡ (with_dir d.0 s, failed) =
                ground arith in
              subst (Ends m body s) (sym ends) (nothing refl refl kept)
        ]

  -- Whatever fails, a publish reports a version that had metadata and changes nothing, or makes a
  -- version without metadata readable with its metadata and its whole body, and the latest if it
  -- is newer, or leaves the version's metadata, the latest model and the watchers' channel as they
  -- were.
  pub publish-Published :
      (f : Faults) (m : ModelMeta) (body : List ℕ) (s : Store)
      → Published marshal m body s (publish marshal f m body s).0 (publish marshal f m body s).1
  unfolding publish
  publish-Published f m body s = elim (Bool-cases f.stat) [
    | inl bad ↦
        let ends : publish marshal f m body s ≡ (s, failed) = ground arith in
        subst (Ends m body s) (sym ends) (nothing refl refl refl)
    | inr good ↦ elim (Option-cases (read (meta_path m.version) s.dir)) [
      | inl new ↦
          let goes_on : publish marshal f m body s ≡ publish_body marshal f m body s =
            ground arith in
          subst (Ends m body s) (sym goes_on) (publish_body-Published f m body s new)
      | inr (old, there) ↦
          let ends : publish marshal f m body s ≡ (s, exists) = ground arith in
          subst (Ends m body s) (sym ends) (taken refl (λ h. absurd (cc)))
    ]
  ]
