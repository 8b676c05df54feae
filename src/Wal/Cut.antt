-- ===== src/Wal/Cut.antt =====
-- What CutOffset of pkg/wal/wal.go, doCut of writer.go, leaves of a log in a directory in which nothing
-- fails. This file: the old segments lose their files, and what other segments stand in stays.
pub mod Parts
pub mod Sides
pub mod Below
pub mod Everything
pub mod Around
pub mod Boundary
pub mod Source
pub mod Run
use go_wallib.Base.{
  ℕ, ◌≡◌, ◌≢◌, refl, sym, ap, ◌∙◌, false, none, some, List, [], ◌∷◌, ◌++◌, set, get_elem?, All,
  bytes_eq, bytes_eq_refl, Option-cases, inl, inr,
}
use mathlib.Core.Path.{subst}
use mathlib.Core.List.{map}
use go_wallib.Errors.{ok}
use go_wallib.Exec.{bind_run, pure}
use go_wallib.Disk.{File, Handle, find, linked_names, file_content}
use go_wallib.Segment.Name.{name}
use go_wallib.Wal.Boundary.{remove_segment_file, remove_all}
use go_wallib.Wal.Reader.Still.{Stored, Stands, calm}
use go_wallib.Wal.Contents.Files.{
  has_name-linked, some-inj, get_elem?-set_other, find-nowhere, find-behind, find-here,
}
use go_wallib.Wal.Contents.Chain.{linked_names-none, linked_names-some}
use go_wallib.Wal.Contents.Standing.{All-both}
use go_wallib.Wal.Reopen.Unlink.{linked-find, find-unlink}
use go_wallib.Wal.Truncated.{linked_names-behind, remove_segment_file-calm}

-- The first name of the directory is found.
listed-find :
    (n : List ℕ) (ns : List (List ℕ)) (fs : List File)
    → linked_names fs ≡ n ∷ ns
    → (h : Handle) × (find n fs ≡ some h)
listed-find n ns [] l = absurd (unfold linked_names in cc l)
listed-find n ns (f ∷ fs) l = elim (Option-cases f.linked) [
  | inl off ↦
      let (h, found) = listed-find n ns fs (sym (linked_names-none f fs off) ∙ l) in
      (_, find-behind n f fs h (rw off refl) found)
  | inr (m, on) ↦
      let all : m ∷ linked_names fs ≡ n ∷ ns = sym (linked_names-some f fs m on) ∙ l in
      let same : m ≡ n = cc all in
      (
        0,
        find-here n f fs (has_name-linked n m f on ∙ ap (λ k. bytes_eq k n) same ∙ bytes_eq_refl n),
      )
]

-- A name that the directory does not list is not found.
pub find-unlisted :
    (n : List ℕ) (fs : List File)
    → All (λ m. bytes_eq m n ≡ false) (linked_names fs)
    → find n fs ≡ none
find-unlisted n [] apart = unfold find in refl
find-unlisted n (f ∷ fs) apart = elim (Option-cases f.linked) [
  | inl off ↦ find-nowhere n f fs (rw off refl) (
      find-unlisted n fs
        (subst (All (λ m. bytes_eq m n ≡ false)) (linked_names-none f fs off) apart))
  | inr (m, on) ↦
      let both = subst (All (λ k. bytes_eq k n ≡ false)) (linked_names-some f fs m on) apart in
      find-nowhere n f fs (has_name-linked n m f on ∙ both.0) (find-unlisted n fs both.1)
]

-- A segment of another name stands as it did.
Stands-without :
    (files : List File) (now max_rec : ℕ) (n : List ℕ) (h : Handle) (f : File) (s : Stored)
    → get_elem? files h ≡ some f
    → f.linked ≡ some n
    → bytes_eq n s.seg_name ≡ false
    → Stands (calm files now) max_rec s
    → Stands (calm (set files h (record f { linked = none })) now) max_rec s
Stands-without files now max_rec n h f s at on other st =
    let gone : File = record f { linked = none } in
    let (g, at', on') = linked-find s.seg_name files s.handle st.found in
    let apart : s.handle ≢ h = λ e.
      let same : g ≡ f = some-inj (sym at' ∙ ap (get_elem? files) e ∙ at) in
      let names : s.seg_name ≡ n = some-inj (sym on' ∙ ap (λ (x : File). x.linked) same ∙ on) in
      cc (other, sym (bytes_eq_refl n) ∙ ap (bytes_eq n) (sym names)) in
    record {
      found =
          find-unlink s.seg_name files h f gone at (has_name-linked s.seg_name n f on ∙ other) refl
          ∙ st.found;
      content = ap file_content (get_elem?-set_other files h s.handle gone apart) ∙ st.content;
      header_length = st.header_length;
      fits = st.fits;
      stops = st.stops;
    }

-- What is left when the first files are gone.
pub record Removed (files : List File) (now max_rec : ℕ) (front : List ℕ) (rest : List (List ℕ))
    (segs : List Stored) : Type 0 where
  pub files' : List File
  pub run : remove_all front (calm files now) ≡ (ok tt, calm files' now)
  pub listed : linked_names files' ≡ rest
  pub stand : All (Stands (calm files' now) max_rec) segs

pub remove_all-calm :
    (front : List ℕ) (rest : List (List ℕ)) (segs : List Stored) (files : List File)
    (now max_rec : ℕ)
    → linked_names files ≡ map name front ++ rest
    → All (λ b. All (λ (s : Stored). bytes_eq (name b) s.seg_name ≡ false) segs) front
    → All (Stands (calm files now) max_rec) segs
    → Removed files now max_rec front rest segs
unfolding remove_all pure
remove_all-calm [] rest segs files now max_rec listed apart stand = record {
  files' = files;
  run = refl;
  listed = listed;
  stand = stand;
}
remove_all-calm (b ∷ front) rest segs files now max_rec listed apart stand =
    let (h, found) = listed-find (name b) (map name front ++ rest) files listed in
    let (f, at, on) = linked-find (name b) files h found in
    let left : List File = set files h (record f { linked = none }) in
    let r =
      remove_all-calm front rest segs left now max_rec
        (linked_names-behind (name b) (map name front ++ rest) files h _ found listed refl) apart.1
        (All-both segs
          (λ s other st. Stands-without files now max_rec (name b) h f s at on other st) apart.0
          stand) in
    record {
      files' = r.files';
      run =
          bind_run (remove_segment_file b) _ (calm files now) (calm left now) (ok tt)
            (remove_segment_file-calm files now b h f found at)
          ∙ r.run;
      listed = r.listed;
      stand = r.stand;
    }
