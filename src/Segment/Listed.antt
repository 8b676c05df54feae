-- ===== src/Segment/Listed.antt =====
-- What `List` gives: the segment files of the directory, in the order of their base LSNs.
use go_wallib.Base.{
  ℕ, ◌≤◌, ◌<◌, ◌^◌, ◌≡◌, refl, sym, ap, ◌∙◌, none, some, List, [], ◌∷◌, arith, All, leb, leb→le,
  Bool-cases, Option-cases, inl, inr,
}
use mathlib.Core.List.{map, Perm}
use mathlib.Core.List.Perm
use mathlib.Core.Path.{subst}
use go_wallib.Errors.{ok}
use go_wallib.Exec.{◌>>=◌, pure, gets}
use go_wallib.Disk.{Disk, read_dir, linked_names, next_fault}
use go_wallib.Segment.Name.{name, parse_base_lsn, parse_canonical}
use go_wallib.Segment.Dir.{SegmentFile, found_files, insert_file, sort_files, list_segments}

-- The bases ascend.
abbrev pub Sorted : ℕ → List SegmentFile → Type 0
Sorted lo [] = Unit
Sorted lo (f ∷ fs) = (lo ≤ f.base_lsn) × Sorted f.base_lsn fs

insert_file-Sorted :
    (lo : ℕ) (f : SegmentFile) (fs : List SegmentFile)
    → lo ≤ f.base_lsn
    → Sorted lo fs
    → Sorted lo (insert_file f fs)
unfolding insert_file
insert_file-Sorted lo f [] le s = (le, tt)
insert_file-Sorted lo f (g ∷ gs) le s = elim (Bool-cases (leb f.base_lsn g.base_lsn)) [
  | inl below ↦ rw below (le, (leb→le f.base_lsn g.base_lsn below, s.1))
  | inr above ↦ rw above (s.0, insert_file-Sorted g.base_lsn f gs (ground arith) s.1)
]

sort_files-Sorted : (fs : List SegmentFile) → Sorted 0 (sort_files fs)
unfolding sort_files
sort_files-Sorted [] = tt
sort_files-Sorted (f ∷ fs) =
    insert_file-Sorted 0 f (sort_files fs) (omega arith) (sort_files-Sorted fs)

insert_file-Perm : (f : SegmentFile) (fs : List SegmentFile) → Perm (insert_file f fs) (f ∷ fs)
unfolding insert_file
insert_file-Perm f [] = Perm.refl (f ∷ [])
insert_file-Perm f (g ∷ gs) = elim (Bool-cases (leb f.base_lsn g.base_lsn)) [
  | inl below ↦ rw below (Perm.refl (f ∷ g ∷ gs))
  | inr above ↦ rw above (Perm.trans (Perm.cons g (insert_file-Perm f gs)) (Perm.swap f g gs))
]

sort_files-Perm : (fs : List SegmentFile) → Perm (sort_files fs) fs
unfolding sort_files
sort_files-Perm [] = Perm.refl []
sort_files-Perm (f ∷ fs) =
    Perm.trans (insert_file-Perm f (sort_files fs)) (Perm.cons f (sort_files-Perm fs))

-- The first name, which is a segment's or not.
found-other :
    (n : List ℕ) (ns : List (List ℕ))
    → parse_base_lsn n ≡ none
    → found_files (n ∷ ns) ≡ found_files ns
unfolding found_files
found-other n ns e = rw (found_files, e) refl

pub found-one :
    (n : List ℕ) (ns : List (List ℕ)) (base : ℕ)
    → parse_base_lsn n ≡ some base
    → found_files (n ∷ ns) ≡ record { path = n; base_lsn = base } ∷ found_files ns
unfolding found_files
found-one n ns base e = rw (found_files, e) refl

-- Every file found has the name of its base, which is a uint64.
abbrev pub Named : SegmentFile → Type 0
Named f = (f.path ≡ name f.base_lsn) × (f.base_lsn < 2 ^ 64)

found_files-Named : (ns : List (List ℕ)) → All Named (found_files ns)
found_files-Named [] = unfold found_files in tt
found_files-Named (n ∷ ns) = elim (Option-cases (parse_base_lsn n)) [
  | inl e ↦ rw (found-other n ns e) (found_files-Named ns)
  | inr (base, e) ↦ rw (found-one n ns base e) (parse_canonical n base e, found_files-Named ns)
]

insert_file-Named :
    (f : SegmentFile) (fs : List SegmentFile)
    → Named f
    → All Named fs
    → All Named (insert_file f fs)
unfolding insert_file
insert_file-Named f [] h hs = (h, tt)
insert_file-Named f (g ∷ gs) h hs = elim (Bool-cases (leb f.base_lsn g.base_lsn)) [
  | inl below ↦ rw below (h, hs)
  | inr above ↦ rw above (hs.0, insert_file-Named f gs h hs.1)
]

sort_files-Named : (fs : List SegmentFile) → All Named fs → All Named (sort_files fs)
unfolding sort_files
sort_files-Named [] hs = tt
sort_files-Named (f ∷ fs) hs = insert_file-Named f (sort_files fs) hs.0 (sort_files-Named fs hs.1)

-- The names that are segments'.
unfoldable pub segment_names : List (List ℕ) → List (List ℕ)
segment_names [] = []
segment_names (n ∷ ns) = elim (parse_base_lsn n) [
  | none ↦ segment_names ns
  | some base ↦ n ∷ segment_names ns
]

segment_names-other :
    (n : List ℕ) (ns : List (List ℕ))
    → parse_base_lsn n ≡ none
    → segment_names (n ∷ ns) ≡ segment_names ns
unfolding segment_names
segment_names-other n ns e = rw (segment_names, e) refl

segment_names-one :
    (n : List ℕ) (ns : List (List ℕ)) (base : ℕ)
    → parse_base_lsn n ≡ some base
    → segment_names (n ∷ ns) ≡ n ∷ segment_names ns
unfolding segment_names
segment_names-one n ns base e = rw (segment_names, e) refl

abbrev path_of : SegmentFile → List ℕ
path_of f = f.path

found_files-names : (ns : List (List ℕ)) → map path_of (found_files ns) ≡ segment_names ns
found_files-names [] = unfold found_files segment_names in refl
found_files-names (n ∷ ns) = elim (Option-cases (parse_base_lsn n)) [
  | inl e ↦
      ap (map path_of) (found-other n ns e)
      ∙ found_files-names ns
      ∙ sym (segment_names-other n ns e)
  | inr (base, e) ↦
      ap (map path_of) (found-one n ns base e)
      ∙ ap (λ l. n ∷ l) (found_files-names ns)
      ∙ sym (segment_names-one n ns base e)
]

pub list_segments-works :
    (d : Disk)
    → d.faults ≡ []
    → list_segments d ≡ (
      ok (map (λ (f : SegmentFile). f.path) (sort_files (found_files (linked_names d.files)))),
      d,
    )
unfolding list_segments read_dir next_fault ◌>>=◌ pure gets
list_segments-works d e = rw e refl

-- The listing of a directory, when nothing fails: exactly the names in it that are segments', each with
-- the base LSN, a uint64, that it is the name of, in ascending order of the bases.
pub list_segments-Sorted :
    (d : Disk)
    → d.faults ≡ []
    → (fs : List SegmentFile) × (list_segments d ≡ (ok (map (λ (f : SegmentFile). f.path) fs), d))
      × Sorted 0 fs
      × All Named fs
      × Perm (map (λ (f : SegmentFile). f.path) fs) (segment_names (linked_names d.files))
list_segments-Sorted d e =
    let found = found_files (linked_names d.files) in
    (
      sort_files found,
      list_segments-works d e,
      sort_files-Sorted found,
      sort_files-Named found (found_files-Named (linked_names d.files)),
      subst (Perm (map (λ (f : SegmentFile). f.path) (sort_files found)))
          (found_files-names (linked_names d.files))
          (Perm.map (λ (f : SegmentFile). f.path) (sort_files-Perm found)),
    )
