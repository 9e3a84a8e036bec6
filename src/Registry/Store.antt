-- ===== src/Registry/Store.antt =====
-- internal/registry/registry.go: the versioned directory behind the service. A file of the directory
-- is named by its version and its extension (`v.model`, `v.meta`, and either with `.partial`), which a
-- version without dots keeps apart. Channels are numbered as they are made: `changed` is the number
-- of the open one that watchers wait on, and `closed` holds those that were closed. A call of the file system fails where `Faults` says so.
pub mod Names
pub mod Published
pub mod Immutable
pub mod Watching
use belady.Common.{
  ℕ, zero, suc, ◌+◌, ◌*◌, ◌-◌, ◌^◌, Bool, true, false, not, ◌&&◌, ◌||◌, Option, none, some, List,
  [], ◌∷◌, ◌++◌, length, take, map, ltb, leb, ◌==◌, if◌then◌else◌,
}
use belady.Registry.Stream.{ModelMeta, same_bytes}

pub data Extension : Type 0 where
  model : Extension
  meta : Extension
  model_partial : Extension
  meta_partial : Extension

pub record File : Type 0 where
  pub version : List ℕ
  pub extension : Extension

unfoldable pub same_extension : Extension → Extension → Bool
same_extension model model = true
same_extension meta meta = true
same_extension model_partial model_partial = true
same_extension meta_partial meta_partial = true
same_extension _ _ = false

unfoldable pub same_file : File → File → Bool
same_file f g = same_extension f.extension g.extension && same_bytes f.version g.version

abbrev pub Dir : Type 0
Dir = List (File × List ℕ)

unfoldable pub read : File → Dir → Option (List ℕ)
read f [] = none
read f ((g, b) ∷ d) = if same_file f g then some b else read f d

unfoldable pub discard : File → Dir → Dir
discard f [] = []
discard f ((g, b) ∷ d) = if same_file f g then discard f d else (g, b) ∷ discard f d

unfoldable pub write : File → List ℕ → Dir → Dir
write f b d = (f, b) ∷ discard f d

-- How one `writeAtomic` ends: in full, in a failed write that leaves some bytes, in a failed rename.
pub data Fault : Type 0 where
  fine : Fault
  write_fails : List ℕ → Fault
  rename_fails : Fault

-- The directory after it, and whether it succeeded. `part` is `path + tmpExt`.
unfoldable pub write_atomic : Fault → File → File → List ℕ → Dir → Dir × Bool
write_atomic fine part path body d = (write path body (discard part d), true)
write_atomic (write_fails left) part path body d = (write part left d, false)
write_atomic rename_fails part path body d = (write part body d, false)

pub record Store : Type 0 where
  pub latest : Option ModelMeta
  pub changed : ℕ
  pub closed : List ℕ
  pub dir : Dir

pub record Faults : Type 0 where
  pub stat : Bool
  pub body : Fault
  pub encoding : Bool
  pub metadata : Fault

pub data Outcome : Type 0 where
  published : Outcome
  exists : Outcome
  failed : Outcome

-- `a > b` on Go strings.
unfoldable pub after : List ℕ → List ℕ → Bool
after [] bs = false
after (a ∷ as') [] = true
after (a ∷ as') (b ∷ bs) = if a == b then after as' bs else ltb b a

unfoldable pub model_path : List ℕ → File
model_path v = record { version = v; extension = model }

unfoldable pub meta_path : List ℕ → File
meta_path v = record { version = v; extension = meta }

unfoldable pub newer : ModelMeta → Option ModelMeta → Bool
newer m none = true
newer m (some l) = after m.version l.version

-- The critical section that makes a version the latest.
unfoldable pub make_visible : ModelMeta → Store → Store
make_visible m s =
    if newer m s.latest
    then record {
      latest = some m;
      changed = suc s.changed;
      closed = s.changed ∷ s.closed;
      dir = s.dir;
    }
    else s

unfoldable pub with_dir : Dir → Store → Store
with_dir d s = record { latest = s.latest; changed = s.changed; closed = s.closed; dir = d }

-- `marshal` is `proto.Marshal`.
module _ (marshal : ModelMeta → List ℕ) where
  unfoldable pub publish_meta : Faults → ModelMeta → Store → Store × Outcome
  publish_meta f m s =
      if f.encoding
      then (s, failed)
      else let part : File = record { version = m.version; extension = meta_partial } in
        let (d, done) = write_atomic f.metadata part (meta_path m.version) (marshal m) s.dir in
        if done then (make_visible m (with_dir d s), published) else (with_dir d s, failed)

  unfoldable pub publish_body : Faults → ModelMeta → List ℕ → Store → Store × Outcome
  publish_body f m body s =
      let part : File = record { version = m.version; extension = model_partial } in
      let (d, done) = write_atomic f.body part (model_path m.version) body s.dir in
      if done then publish_meta f m (with_dir d s) else (with_dir d s, failed)

  unfoldable pub publish : Faults → ModelMeta → List ℕ → Store → Store × Outcome
  publish f m body s = if f.stat then (s, failed) else elim (read (meta_path m.version) s.dir) [
    | some old ↦ (s, exists)
    | none ↦ publish_body f m body s
  ]

-- `snapshot`, with the number of the channel to wait on.
unfoldable pub snapshot : Store → Option ModelMeta × ℕ
snapshot s = (s.latest, s.changed)

-- One round of `WatchModels`: the event to send and the new `seen`, or the channel to wait on.
pub data Watch : Type 0 where
  send : ModelMeta → List ℕ → Watch
  wait : ℕ → Watch

unfoldable pub watch_round : List ℕ → Store → Watch
watch_round seen s =
    let (latest, changed) = snapshot s in
    elim latest [
      | none ↦ wait changed
      | some m ↦ if after m.version seen then send m m.version else wait changed
    ]
