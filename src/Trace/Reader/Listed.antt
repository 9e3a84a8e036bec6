-- ===== src/Trace/Reader/Listed.antt =====
-- `ReadDir` on a directory that holds the files of a recorder.
use belady.Common.{
  ℕ, ◌<◌, ◌≡◌, refl, ap, ◌∙◌, true, none, some, List, [], ◌∷◌, map, length, arith, Map,
}
use belady.Common.Text.{Text}
use belady.Trace.Wire.{AccessBatch, Protobuf, IsProtobuf}
use belady.Trace.Disk.{Disk}
use belady.Trace.Names.{extension, Directory, named, listing, no_separator}
use belady.Trace.Names.Shuffle.{Shuffled}
use belady.Trace.Names.Order.{Rising, segments_of-listing}
use belady.Trace.Reader.{read_segments, read_listed, read_dir}
use belady.Trace.Reader.Laws.{Segments, read_segments-Segments}

module _ (w : Protobuf) (lawful : IsProtobuf w) where
  map-named :
      (node_id ext : Text) (m : Map (List ℕ))
      → map (λ file. file.1) (named node_id ext m) ≡ map (λ file. file.1) m
  unfolding named
  map-named node_id ext [] = refl
  map-named node_id ext (f ∷ m) = ap (λ bytes. f.1 ∷ bytes) (map-named node_id ext m)

  read_listed-named :
      (d : Directory) (node_id : Text) (m : Map (List ℕ)) (bs : List AccessBatch)
      → Segments w lawful m bs
      → 0 < length bs
      → read_listed w d (named node_id extension m) ≡ some (bs, none)
  unfolding read_listed named
  read_listed-named d node_id [] bs held any = absurd (omega (arith, any, ap length held))
  read_listed-named d node_id (f ∷ m) bs held any =
      ap (read_segments w) (map-named node_id extension (f ∷ m))
      ∙ read_segments-Segments w lawful (f ∷ m) bs held

  pub read_dir-Segments :
      (node_id : Text) (d : Disk) (files : Directory) (bs : List AccessBatch)
      → Shuffled (listing node_id d) files
      → no_separator node_id ≡ true
      → Segments w lawful d.segments bs
      → Rising d.segments
      → 0 < length bs
      → read_dir w files ≡ some (bs, none)
  unfolding read_dir
  read_dir-Segments node_id d files bs shuffled flat held rising any =
      ap (read_listed w files) (segments_of-listing node_id d files flat rising shuffled)
      ∙ read_listed-named files node_id d.segments bs held any
