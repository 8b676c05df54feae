-- ===== src/Wal/Reopen/Install.antt =====
-- The last part of recovery: the state of the log over the files that are left.
use go_wallib.Base.{
  ℕ, ◌^◌, ◌<◌, ◌≡◌, ◌≢◌, refl, sym, ap, ◌∙◌, false, none, some, List, [], ◌∷◌, ◌++◌, append-nil,
  arith, length, length-append, All, All-append, bytes_eq, Option-cases, inl, inr,
}
use mathlib.Core.Path.{subst}
use mathlib.Core.List.{map}
use go_wallib.Record.{Record}
use go_wallib.Record.RoundTrip.{frames}
use go_wallib.Disk.{File, find, linked_names}
use go_wallib.Segment.Name.{name}
use go_wallib.Wal.Reader.Still.{Stored, records_of}
use go_wallib.Wal.Contents.{Body}
use go_wallib.Wal.Contents.Files.{find-nowhere, has_name-linked, name-apart}
use go_wallib.Wal.Contents.Chain.{linked_names-none, linked_names-some}
use go_wallib.Wal.Contents.Standing.{All-each, records_of-snoc}
use go_wallib.Wal.Reader.Complete.{Rising}
use go_wallib.Wal.Reopen.Shelf.{Shelf}
use go_wallib.Wal.Reopen.Repair.{repaired}
use go_wallib.Wal.Reopen.Tally.{next_base}
use go_wallib.Wal.Reopen.Last.{Linked-below, map-All}
use go_wallib.Wal.Reopen.Numbers.{Linked-Numbered, Linked-bounded, Numbered-Rising, Numbered-below}

-- A name that no file has.
find-absent :
    (n : List ℕ) (files : List File)
    → All (λ m. bytes_eq m n ≡ false) (linked_names files)
    → find n files ≡ none
find-absent n [] h = unfold find in refl
find-absent n (f ∷ files) h = elim (Option-cases f.linked) [
  | inl off ↦ find-nowhere n f files (rw off refl) (
      find-absent n files
        (subst (All (λ m. bytes_eq m n ≡ false)) (linked_names-none f files off) h))
  | inr (m, on) ↦
      let both = subst (All (λ k. bytes_eq k n ≡ false)) (linked_names-some f files m on) h in
      find-nowhere n f files (has_name-linked n m f on ∙ both.0) (find-absent n files both.1)
]

-- The name of an LSN that is no segment's base.
base_absent :
    (files : List File) (bases : List ℕ) (b : ℕ)
    → linked_names files ≡ map name bases
    → All (λ k. k < 2 ^ 64) bases
    → All (λ k. k ≢ b) bases
    → b < 2 ^ 64
    → find (name b) files ≡ none
base_absent files bases b listed small other lt = find-absent (name b) files (
    subst (All (λ m. bytes_eq m (name b) ≡ false)) (sym listed)
      (map-All (λ m. bytes_eq m (name b) ≡ false) name bases (both bases small other)))
  where
    both :
        (ks : List ℕ)
        → All (λ k. k < 2 ^ 64) ks
        → All (λ k. k ≢ b) ks
        → All (λ k. bytes_eq (name k) (name b) ≡ false) ks
    both [] s o = tt
    both (k ∷ ks) s o = (name-apart k b o.0 s.0 lt, both ks s.1 o.1)

some_frames : (rs : List Record) → 0 < length (frames rs) → 0 < length rs
unfolding frames
some_frames [] h = h
some_frames (r ∷ rs) h = omega arith

-- The files of a log that nobody has open, with the last one as the active segment.
pub Body-Shelf :
    {files : List File} {now start end max_rec : ℕ} {bases : List ℕ} (older : List Stored)
    (top : Stored)
    → Shelf files now start end max_rec bases older (record top { tail = [] })
    → end < 2 ^ 64
    → Body files now
        (some (repaired (next_base start older) top).seg)
        bases
        end
        max_rec
        (records_of (older ++ (top ∷ [])))
Body-Shelf {files = files} {start = start} {end = end} {bases = bases} older top sh small =
    let newest : Stored = record top { tail = [] } in
    let segs = older ++ (newest ∷ []) in
    let recs = records_of (older ++ (top ∷ [])) in
    let all : records_of segs ≡ recs =
      records_of-snoc older newest ∙ sym (records_of-snoc older top) in
    let bounded = Linked-bounded start end bases segs sh.linked in
    let (numbered, count) = Linked-Numbered start end bases segs sh.linked in
    let below_small : All (λ b. b < 2 ^ 64) bases = All-each bases (λ b le. omega arith) bounded in
    record {
      older = older;
      newest = newest;
      seg = (repaired (next_base start older) top).seg;
      file = sh.file;
      there = refl;
      same = refl;
      clean = refl;
      size = refl;
      present = sh.present;
      layout = sh.layout ∙ ap (λ l. top.header ++ l) (append-nil (frames top.recs));
      apart = sh.apart;
      named = sh.named;
      older_stand = sh.older_stand;
      newest_stands = sh.newest_stands;
      all = all;
      free_above = λ b lt lt'.
          base_absent files bases b sh.listed below_small
            (All-each bases (λ k le e. absurd (omega arith)) bounded) lt';
      free_next = λ grew.
          base_absent files bases end sh.listed below_small
            (All-each bases (λ k lt e. absurd (omega arith))
              (Linked-below start end bases segs sh.linked (
                All-append (λ (s : Stored). 0 < length s.recs) older (newest ∷ []) sh.full
                  (some_frames top.recs (omega arith), tt))))
            small;
      rising = subst (Rising 0) all (Numbered-Rising 0 start (records_of segs) sh.first numbered);
      below =
          subst (All (λ (r : Record). r.lsn < end)) all
            (Numbered-below start end (records_of segs) numbered count);
      positive = let first = sh.first in omega arith;
      start = start;
      linked = sh.linked;
      listed = sh.listed;
      full = sh.full;
      first = sh.first;
      cleaned = sh.cleaned;
      kept = sh.kept;
      header_kept =
          let whole = sh.flushed in
          omega (
            arith,
            ap length sh.layout,
            length-append top.header (frames top.recs ++ []),
            sh.newest_stands.header_length,
          );
    }
