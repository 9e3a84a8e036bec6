-- ===== src/Trace/Disk.antt =====
-- internal/trace/recorder.go: what the recorder does to the files of its directory. A file is known
-- by the nanoseconds in its name; what the operating system answers is an `Outcome` for each batch
-- or rotation.
use belady.Common.{
  ℕ, ◌-◌, Bool, ◌==◌, Option, none, some, List, [], ◌∷◌, ◌++◌, length, take, replicate,
  if◌then◌else◌, Map, lookup, insert, erase,
}

-- The files `.partial` and `.trace` of the directory.
pub record Disk : Type 0 where
  pub partials : Map (List ℕ)
  pub segments : Map (List ℕ)

-- The readings of the clock, and which calls fail. A failing write leaves out the last bytes, one
-- more than `missing`.
pub record Outcome : Type 0 where
  pub nanos : ℕ
  pub opened_at : ℕ
  pub open_fails : Bool
  pub missing : Option ℕ
  pub close_fails : Bool
  pub truncate_fails : Bool
  pub rename_fails : Bool
  pub remove_fails : Bool

pub data CloseError : Type 0 where
  not_closed : CloseError
  not_truncated : CloseError
  not_renamed : CloseError
  not_removed : CloseError

-- `os.Truncate` of a file that is shorter fills it with zeros.
unfoldable pub truncate : ℕ → List ℕ → List ℕ
truncate size bytes = take size bytes ++ replicate (size - length bytes) 0

-- `os.Rename` of a partial file, which must be there, into place.
unfoldable pub rename : ℕ → Disk → Disk × Option CloseError
rename path d = elim (lookup path d.partials) [
  | none ↦ (d, some not_renamed)
  | some bytes ↦
      (record { partials = erase path d.partials; segments = insert path bytes d.segments }, none)
]

unfoldable pub publish : Outcome → ℕ → ℕ → Disk → Disk × Option CloseError
publish f path size d =
    if size == 0
    then (if f.remove_fails
        then (d, some not_removed)
        else (record d { partials = erase path d.partials }, none))
    else if f.rename_fails
    then (d, some not_renamed)
    else rename path d

-- The file of the given path, cut to the size.
unfoldable pub cut_file : Outcome → ℕ → ℕ → Disk → Disk × List CloseError
cut_file f path size d = elim (lookup path d.partials) [
  | none ↦ (d, not_truncated ∷ [])
  | some bytes ↦
      if f.truncate_fails
      then (d, not_truncated ∷ [])
      else (record d { partials = insert path (truncate size bytes) d.partials }, [])
]

-- `errors.Join`
unfoldable pub join : List CloseError → Option CloseError → List CloseError
join errs none = errs
join errs (some e) = errs ++ (e ∷ [])

-- A write at the end of the open file.
unfoldable pub append_bytes : ℕ → List ℕ → Disk → Disk
append_bytes path bytes d = elim (lookup path d.partials) [
  | none ↦ d
  | some before ↦ record d { partials = insert path (before ++ bytes) d.partials }
]
