-- ===== src/Segment/Dir.antt =====
-- internal/segment/dir.go: the segment files of the directory.
use go_wallib.Base.{
  ℕ, ◌+◌, ◌-◌, Bool, none, some, List, [], ◌∷◌, ◌++◌, length, drop, ltb, leb, ◌&&◌, if◌then◌else◌,
  bytes_eq,
}
use mathlib.Core.List.{map}
use go_wallib.Exec.{Exec, pure, ◌>>=◌, ◌>>◌}
use go_wallib.Disk.{Disk, read_dir, remove_file, sync_dir}
use go_wallib.Segment.Name.{ext, temp_suffix, parse_base_lsn}

pub record SegmentFile : Type 0 where
  pub path : List ℕ
  pub base_lsn : ℕ

-- The directory holds no subdirectories, and a path is the name in it.
unfoldable pub found_files : List (List ℕ) → List SegmentFile
found_files [] = []
found_files (entry ∷ entries) = elim (parse_base_lsn entry) [
  | none ↦ found_files entries
  | some base ↦ record { path = entry; base_lsn = base } ∷ found_files entries
]

-- `slices.SortFunc` by base LSN.
unfoldable pub insert_file : SegmentFile → List SegmentFile → List SegmentFile
insert_file f [] = f ∷ []
insert_file f (g ∷ gs) = if leb f.base_lsn g.base_lsn then f ∷ g ∷ gs else g ∷ insert_file f gs

unfoldable pub sort_files : List SegmentFile → List SegmentFile
sort_files [] = []
sort_files (f ∷ fs) = insert_file f (sort_files fs)

unfoldable pub list_segments : Exec Disk (List (List ℕ))
unfolding found_files sort_files insert_file
list_segments = do
  entries ← read_dir
  pure (map (λ (f : SegmentFile). f.path) (sort_files (found_files entries)))

-- `strings.HasSuffix`.
unfoldable pub has_suffix : List ℕ → List ℕ → Bool
has_suffix s suffix =
    leb (length suffix) (length s) && bytes_eq (drop (length s - length suffix) s) suffix

unfoldable pub remove_temps : List (List ℕ) → ℕ → Exec Disk ℕ
remove_temps [] removed = pure removed
remove_temps (entry ∷ entries) removed =
    if has_suffix entry (ext ++ temp_suffix)
    then (remove_file entry >>= λ _. remove_temps entries (removed + 1))
    else remove_temps entries removed

unfoldable pub remove_stale_temp_files : Exec Disk ℕ
unfolding remove_temps has_suffix
remove_stale_temp_files = do
  entries ← read_dir
  removed ← remove_temps entries 0
  if ltb 0 removed then (sync_dir >> pure removed) else pure removed
