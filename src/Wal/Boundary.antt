-- ===== src/Wal/Boundary.antt =====
-- The boundary operations of pkg/wal/writer.go, Truncate and CutOffset, as the writer goroutine runs
-- them.
use go_wallib.Base.{
  ℕ, suc, ◌+◌, min, Bool, true, false, none, some, List, [], ◌∷◌, length, get_elem?, take, drop,
  ltb, leb, ◌==◌, ◌||◌, if◌then◌else◌,
}
use go_wallib.Errors.{panicked}
use go_wallib.Exec.{Exec, pure, raise, gets, modify, discard, on_error, finally, ◌>>=◌, ◌>>◌}
use go_wallib.Disk.{Disk, sync_dir}
use go_wallib.Segment.Name.{name}
use go_wallib.Segment.Files.{Segment, create, open_segment, close, rewrite_from, remove_if_exists}
use go_wallib.Wal.{Wal, on_disk, get_active}

-- A file that is gone already counts as removed.
unfoldable pub remove_segment_file : ℕ → Exec Disk Unit
remove_segment_file base_lsn = do remove_if_exists (name base_lsn); sync_dir

unfoldable pub remove_all : List ℕ → Exec Disk Unit
unfolding remove_segment_file
remove_all [] = pure tt
remove_all (base ∷ bases) = remove_segment_file base >>= λ _. remove_all bases

-- How many segments end below `up_to`: segment i does if the base of segment i + 1 is at most
-- `up_to`. The last segment never counts.
unfoldable pub deletable : List ℕ → ℕ → ℕ
deletable [] up_to = 0
deletable (base ∷ []) up_to = 0
deletable (base ∷ after ∷ bases) up_to =
    if ltb up_to after then 0 else suc (deletable (after ∷ bases) up_to)

-- `w.segmentBaseLSNs[0]`
abbrev pub head_base : List ℕ → Exec Wal ℕ
head_base [] = raise panicked
head_base (base ∷ _) = pure base

unfoldable pub drop_bases : ℕ → Wal → Wal
drop_bases count w = record w { segment_bases = drop count w.segment_bases }

unfoldable pub set_first : ℕ → Wal → Wal
set_first first w = record w { first_lsn = first }

-- The removal of the first segments, and then their place in the index.
unfoldable pub truncate_first : ℕ → List ℕ → Exec Wal Unit
unfolding drop_bases set_first
truncate_first count bases = do
  on_disk (remove_all (take count bases))
  modify (drop_bases count)
  first ← gets (λ w. w.segment_bases) >>= head_base
  modify (set_first first)

unfoldable pub do_truncate : ℕ → Exec Wal Unit
unfolding truncate_first
do_truncate up_to = do
  bases ← gets (λ w. w.segment_bases)
  if deletable bases up_to == 0 then pure tt else truncate_first (deletable bases up_to) bases

-- The loop of `boundaryIndex`, at index i with the boundary found so far.
unfoldable pub boundary_from : ℕ → ℕ → List ℕ → ℕ → ℕ
boundary_from i boundary [] cut = boundary
boundary_from i boundary (base ∷ bases) cut =
    let later = boundary_from (i + 1) i bases cut in if ltb cut base then boundary else later

unfoldable pub boundary_index : List ℕ → ℕ → ℕ
unfolding boundary_from
boundary_index bases cut = boundary_from 0 0 bases cut

unfoldable pub cut_delete_below : List ℕ → ℕ → ℕ → Exec Wal Unit
cut_delete_below bases boundary cut = do
  on_disk (remove_all (take boundary bases))
  modify (drop_bases boundary)
  modify (set_first cut)

-- The segment to rewrite: the active one, or a sealed one opened for it.
abbrev pub cut_source : Bool → ℕ → Exec Wal Segment
cut_source true base = get_active
cut_source false base = on_disk (open_segment base)

-- `defer opened.Close()`
abbrev pub release : Bool → Segment → Exec Disk Unit
release true source = pure tt
release false source = discard (close source)

unfoldable pub install_cut : Bool → ℕ → ℕ → Segment → Wal → Wal
install_cut is_active boundary cut replacement w = record w {
  segment_bases = cut ∷ drop (boundary + 1) w.segment_bases;
  first_lsn = cut;
  active = if is_active then some replacement else w.active;
}

-- The steps that have the source open.
unfoldable pub cut_with_source : Bool → Segment → List ℕ → ℕ → ℕ → Exec Wal Unit
cut_with_source is_active source bases boundary cut = do
  limit ← gets (λ w. w.opts.max_record_size)
  replacement ← on_disk (rewrite_from source cut limit)
  on_disk (on_error (remove_all (take (boundary + 1) bases)) (discard (close replacement)))
  old_active ← get_active
  modify (install_cut is_active boundary cut replacement)
  on_disk (close (if is_active then old_active else replacement))

abbrev pub base_at : List ℕ → ℕ → ℕ
base_at bases i = elim (get_elem? bases i) [ none ↦ 0 | some base ↦ base ]

unfoldable pub cut_rewrite_boundary : List ℕ → ℕ → ℕ → Exec Wal Unit
unfolding cut_with_source
cut_rewrite_boundary bases boundary cut =
    let is_active = boundary + 1 == length bases in
    cut_source is_active (base_at bases boundary) >>= λ source.
    finally (cut_with_source is_active source bases boundary cut)
      (on_disk (release is_active source))

unfoldable pub install_empty : Segment → ℕ → Wal → Wal
install_empty replacement next_lsn w = record w {
  active = some replacement;
  segment_bases = next_lsn ∷ [];
  first_lsn = 0;
}

unfoldable pub cut_everything : List ℕ → ℕ → Exec Wal Unit
cut_everything bases next_lsn = do
  on_disk (remove_if_exists (name next_lsn))
  replacement ← on_disk (create next_lsn)
  on_disk (on_error (remove_all bases) (discard (close replacement)))
  old_active ← get_active
  modify (install_empty replacement next_lsn)
  on_disk (close old_active)

-- The switch of `doCut`, with the cut at or below the next LSN.
unfoldable pub cut_at : List ℕ → ℕ → ℕ → ℕ → Exec Wal Unit
unfolding cut_delete_below cut_rewrite_boundary cut_everything
cut_at bases first_lsn next_lsn cut =
    let boundary = boundary_index bases cut in
    if first_lsn == 0 || leb cut first_lsn
    then pure tt
    else if leb next_lsn cut
    then cut_everything bases next_lsn
    else if base_at bases boundary == cut
    then cut_delete_below bases boundary cut
    else cut_rewrite_boundary bases boundary cut

unfoldable pub do_cut : ℕ → Exec Wal Unit
unfolding cut_at
do_cut up_to = do
  bases ← gets (λ w. w.segment_bases)
  first_lsn ← gets (λ w. w.first_lsn)
  next_lsn ← gets (λ w. w.next_lsn)
  cut_at bases first_lsn next_lsn (min up_to next_lsn)
