-- ===== src/Trace/Names.antt =====
-- internal/trace: the names of the segment files (`ensureSegment` in recorder.go) and the listing of
-- a directory by name (`Segments` in reader.go).
pub mod Shuffle
pub mod Order
use belady.Common.{ℕ, Bool, true, false, none, some, List, [], ◌∷◌, ◌++◌, ◌==◌, if◌then◌else◌, Map}
use belady.Common.Decimal.{decimal, text_less}
use belady.Common.Text.{Text, codes, cut_suffix}
use belady.Trace.Disk.{Disk}

abbrev pub extension : Text
extension = codes ".trace"

abbrev pub tmp_extension : Text
tmp_extension = codes ".partial"

-- `node-nanos`, with the file's extension.
unfoldable pub file_name : Text → ℕ → Text → Text
file_name node_id nanos ext = node_id ++ (b'-' ∷ (decimal nanos ++ ext))

-- The files of a directory by name, in the order in which the file system has them.
abbrev pub Directory : Type 0
Directory = List (Text × List ℕ)

unfoldable pub named : Text → Text → Map (List ℕ) → Directory
named node_id ext [] = []
named node_id ext ((nanos, bytes) ∷ m) = (file_name node_id nanos ext, bytes) ∷ named node_id ext m

-- The directory of the recorder of a node, in some order.
unfoldable pub listing : Text → Disk → Directory
listing node_id d = named node_id tmp_extension d.partials ++ named node_id extension d.segments

unfoldable pub no_separator : Text → Bool
no_separator [] = true
no_separator (c ∷ s) = let rest = no_separator s in if c == b'/' then false else rest

-- The pattern `*` before the extension.
unfoldable pub matches : Text → Text → Bool
matches ext name = elim (cut_suffix name ext) [ none ↦ false | some stem ↦ no_separator stem ]

unfoldable pub glob : Text → Directory → Directory
glob ext [] = []
glob ext (f ∷ d) = let rest = glob ext d in if matches ext f.0 then f ∷ rest else rest

-- `sort.Strings`, of names that differ.
unfoldable pub insert_name : Text × List ℕ → Directory → Directory
insert_name f [] = f ∷ []
insert_name f (g ∷ d) =
    let rest = insert_name f d in if text_less g.0 f.0 then g ∷ rest else f ∷ g ∷ d

unfoldable pub sort_names : Directory → Directory
sort_names [] = []
sort_names (f ∷ d) = insert_name f (sort_names d)

-- `Segments`, with the contents of the files.
unfoldable pub segments_of : Directory → Directory
segments_of d = sort_names (glob extension d)
