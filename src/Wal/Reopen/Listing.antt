-- ===== src/Wal/Reopen/Listing.antt =====
-- The directory of a log, as recovery finds it: the names of its segments, in order, and no others.
use go_wallib.Base.{
  ℕ, ◌+◌, ◌^◌, ◌<◌, ◌≤◌, ◌≡◌, refl, ap, ◌∙◌, false, List, [], ◌∷◌, ◌++◌, arith, length, All, le→leb,
}
use mathlib.Core.List.{map}
use go_wallib.Errors.{ok}
use go_wallib.Exec.{◌>>=◌, pure, gets, bind_run}
use go_wallib.Disk.{Disk, File, linked_names, read_dir, next_fault}
use go_wallib.Segment.Name.{name, put_dec, parse-name, ext, temp_suffix}
use go_wallib.Segment.Dir.{
  SegmentFile, found_files, sort_files, insert_file, list_segments, has_suffix, remove_temps,
  remove_stale_temp_files,
}
use go_wallib.Segment.Listed.{Sorted, found-one, list_segments-works}
use go_wallib.Wal.Reader.Still.{Stored, calm}
use go_wallib.Wal.Contents.Chain.{Linked, Linked-le}

-- A segment's name is no temporary one.
has_suffix-name : (b : ℕ) → has_suffix (name b) (ext ++ temp_suffix) ≡ false
unfolding has_suffix name put_dec
has_suffix-name b = ground arith

remove_temps-names :
    (bases : List ℕ) (n : ℕ) (d : Disk) → remove_temps (map name bases) n d ≡ (ok n, d)
unfolding remove_temps pure
remove_temps-names [] n d = refl
remove_temps-names (b ∷ bases) n d =
    rw (has_suffix-name b, remove_temps) (remove_temps-names bases n d)

read_dir-calm :
    (files : List File) (now : ℕ)
    → read_dir (calm files now) ≡ (ok (linked_names files), calm files now)
unfolding read_dir next_fault ◌>>=◌ gets
read_dir-calm files now = refl

pub remove_stale_temp_files-calm :
    (files : List File) (now : ℕ) (bases : List ℕ)
    → linked_names files ≡ map name bases
    → remove_stale_temp_files (calm files now) ≡ (ok 0, calm files now)
unfolding remove_stale_temp_files pure
remove_stale_temp_files-calm files now bases e =
    let d = calm files now in
    bind_run read_dir _ d d (ok (map name bases)) (read_dir-calm files now ∙ ap (λ l. (ok l, d)) e)
    ∙ bind_run (remove_temps (map name bases) 0) _ d d (ok 0) (remove_temps-names bases 0 d)

abbrev pub file_of : ℕ → SegmentFile
file_of b = record { path = name b; base_lsn = b }

found_files-names :
    (bases : List ℕ)
    → All (λ b. b < 2 ^ 64) bases
    → found_files (map name bases) ≡ map file_of bases
found_files-names [] h = unfold found_files in refl
found_files-names (b ∷ bases) h =
    found-one (name b) (map name bases) b (parse-name b h.0)
    ∙ ap (λ l. file_of b ∷ l) (found_files-names bases h.1)

insert_file-least :
    (lo : ℕ) (f : SegmentFile) (fs : List SegmentFile)
    → Sorted f.base_lsn fs
    → insert_file f fs ≡ f ∷ fs
unfolding insert_file
insert_file-least lo f [] h = refl
insert_file-least lo f (g ∷ gs) h = rw (le→leb f.base_lsn g.base_lsn h.0, insert_file) refl

sort_files-same : (lo : ℕ) (fs : List SegmentFile) → Sorted lo fs → sort_files fs ≡ fs
unfolding sort_files
sort_files-same lo [] h = refl
sort_files-same lo (f ∷ fs) h =
    ap (insert_file f) (sort_files-same f.base_lsn fs h.1) ∙ insert_file-least lo f fs h.1

map-path : (bases : List ℕ) → map (λ (f : SegmentFile). f.path) (map file_of bases) ≡ map name bases
map-path [] = refl
map-path (b ∷ bases) = ap (λ l. name b ∷ l) (map-path bases)

Linked-Sorted :
    (lo start end : ℕ) (bases : List ℕ) (segs : List Stored)
    → lo ≤ start
    → Linked start bases segs end
    → Sorted lo (map file_of bases)
Linked-Sorted lo start end [] segs le h = tt
Linked-Sorted lo start end (b ∷ bases) [] le h = absurd (h tt)
Linked-Sorted lo start end (b ∷ bases) (s ∷ segs) le h =
    let here = h.0 in
    (omega arith, Linked-Sorted b (start + length s.recs) end bases segs (omega arith) (h.3))

Linked-small :
    (start end : ℕ) (bases : List ℕ) (segs : List Stored)
    → end < 2 ^ 64
    → Linked start bases segs end
    → All (λ b. b < 2 ^ 64) bases
Linked-small start end [] segs lt h = tt
Linked-small start end (b ∷ bases) [] lt h = absurd (h tt)
Linked-small start end (b ∷ bases) (s ∷ segs) lt h =
    let here = h.0 in
    let le = Linked-le (start + length s.recs) end bases segs (h.3) in
    (omega arith, Linked-small (start + length s.recs) end bases segs lt (h.3))

-- Ascending segments are listed in their order.
pub list_segments-ordered :
    (files : List File) (now : ℕ) (bases : List ℕ)
    → linked_names files ≡ map name bases
    → Sorted 0 (map file_of bases)
    → All (λ b. b < 2 ^ 64) bases
    → list_segments (calm files now) ≡ (ok (map name bases), calm files now)
list_segments-ordered files now bases listed sorted small =
    list_segments-works (calm files now) refl
    ∙ ap (λ l. (ok (map (λ (f : SegmentFile). f.path) l), calm files now))
        (ap (λ ns. sort_files (found_files ns)) listed
          ∙ ap sort_files (found_files-names bases small)
          ∙ sort_files-same 0 (map file_of bases) sorted)
    ∙ ap (λ l. (ok l, calm files now)) (map-path bases)

-- The segments of a log are listed in its order.
pub list_segments-calm :
    (files : List File) (now start end : ℕ) (bases : List ℕ) (segs : List Stored)
    → linked_names files ≡ map name bases
    → Linked start bases segs end
    → end < 2 ^ 64
    → list_segments (calm files now) ≡ (ok (map name bases), calm files now)
list_segments-calm files now start end bases segs listed linked small =
    list_segments-ordered files now bases listed
      (Linked-Sorted 0 start end bases segs (omega arith) linked)
      (Linked-small start end bases segs small linked)
