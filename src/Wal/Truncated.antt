-- ===== src/Wal/Truncated.antt =====
-- What Truncate of pkg/wal/wal.go, doTruncate of writer.go, leaves of a log in a directory in which
-- nothing fails: the files and the records.
pub mod First
pub mod Trim
use go_wallib.Base.{
  ℕ, ◌+◌, ◌<◌, ◌≤◌, ◌≡◌, refl, sym, ap, ◌∙◌, Option, none, some, List, [], ◌∷◌, ◌++◌, arith, length,
  set, get_elem?, All, bytes_eq, bytes_eq_refl, Option-cases, inl, inr,
}
use go_wallib.Errors.{ok}
use go_wallib.Exec.{bind_run}
use go_wallib.Record.{Record}
use go_wallib.Disk.{File, Handle, find, linked_names}
use go_wallib.Segment.Name.{name}
use go_wallib.Segment.Files.{Segment, remove_if_exists}
use go_wallib.Wal.Boundary.{remove_segment_file}
use go_wallib.Wal.Reader.Still.{Stored, calm}
use go_wallib.Wal.Reader.Complete.{Rising}
use go_wallib.Wal.Contents.{Body}
use go_wallib.Wal.Contents.Files.{find-cases, has_name-linked}
use go_wallib.Wal.Contents.Chain.{Linked, Linked-le, Numbered, linked_names-none, linked_names-some}
use go_wallib.Wal.Contents.Calm.{sync_dir-calm}
use go_wallib.Wal.Contents.Standing.{All-each}
use go_wallib.Wal.Reopen.Keep.{remove_file-calm}
use go_wallib.Wal.Reopen.Unlink.{linked-has_name}

-- The first name of the directory goes.
pub linked_names-behind :
    (n : List ℕ) (ns : List (List ℕ)) (fs : List File) (h : Handle) (g : File)
    → find n fs ≡ some h
    → linked_names fs ≡ n ∷ ns
    → g.linked ≡ none
    → linked_names (set fs h g) ≡ ns
linked_names-behind n ns [] h g e l off = absurd (unfold find in cc e)
linked_names-behind n ns (f ∷ fs) h g e l off = elim (find-cases n f fs h e) [
  | inl (here, at) ↦
      let all : n ∷ linked_names fs ≡ n ∷ ns =
        sym (linked_names-some f fs n (linked-has_name n f here)) ∙ l in
      ap (λ j. linked_names (set (f ∷ fs) j g)) at ∙ linked_names-none g fs off ∙ cc all
  | inr (other, (i, found, at)) ↦ elim (Option-cases f.linked) [
    | inl no_name ↦
        ap (λ j. linked_names (set (f ∷ fs) j g)) at
        ∙ linked_names-none f (set fs i g) no_name
        ∙ linked_names-behind n ns fs i g found (sym (linked_names-none f fs no_name) ∙ l) off
    | inr (m, on) ↦
        let all : m ∷ linked_names fs ≡ n ∷ ns = sym (linked_names-some f fs m on) ∙ l in
        let same : m ≡ n = cc all in
        absurd (cc (other, has_name-linked n m f on, bytes_eq_refl n, ap (λ k. bytes_eq k n) same))
  ]
]

-- The removal of a file that is there.
pub remove_segment_file-calm :
    (files : List File) (now b : ℕ) (h : Handle) (f : File)
    → find (name b) files ≡ some h
    → get_elem? files h ≡ some f
    → remove_segment_file b (calm files now)
      ≡ (ok tt, calm (set files h (record f { linked = none })) now)
unfolding remove_segment_file remove_if_exists
remove_segment_file-calm files now b h f found at =
    let d' = calm (set files h (record f { linked = none })) now in
    bind_run (remove_if_exists (name b)) _ (calm files now) d' (ok tt)
      (rw (remove_file-calm files now (name b) h f found at) refl)
    ∙ sync_dir-calm (set files h (record f { linked = none })) now

-- A log whose first segment is not its last one.
pub record Front (files : List File) (now : ℕ) (active : Option Segment) (b : ℕ) (bases : List ℕ)
    (next_lsn max_rec : ℕ) (recs : List Record) : Type 0 where
  pub gone : List Record
  pub left : List Record
  pub split : gone ++ left ≡ recs
  pub some_gone : 0 < length gone
  pub files_left : List File
  pub run : remove_segment_file b (calm files now) ≡ (ok tt, calm files_left now)
  pub numbered : Numbered b gone
  pub begins : (b' : ℕ) × (get_elem? bases 0 ≡ some b') × (b' ≡ b + length gone)
  pub body : Body files_left now active bases next_lsn max_rec left

Rising-weaken : (a b : ℕ) (rs : List Record) → a ≤ b → Rising b rs → Rising a rs
Rising-weaken a b [] le h = tt
Rising-weaken a b (r ∷ rs) le h = let lt = h.0 in (omega arith, h.1)

pub Rising-drop : (b : ℕ) (qs rs : List Record) → Rising b (qs ++ rs) → Rising b rs
Rising-drop b [] rs h = h
Rising-drop b (q ∷ qs) rs h =
    let lt = h.0 in Rising-drop b qs rs (Rising-weaken b q.lsn (qs ++ rs) (omega arith) h.1)

pub Linked-range :
    (start end : ℕ) (bases : List ℕ) (segs : List Stored)
    → Linked start bases segs end
    → All (λ k. (start ≤ k) × (k ≤ end)) bases
Linked-range start end [] segs h = tt
Linked-range start end (b ∷ bases) [] h = absurd (h tt)
Linked-range start end (b ∷ bases) (s ∷ segs) h =
    let here = h.0 in
    let le = Linked-le (start + length s.recs) end bases segs (h.3) in
    (
      (omega arith, omega arith),
      All-each bases (λ k r. let low = r.0 in let high = r.1 in (omega arith, high))
          (Linked-range (start + length s.recs) end bases segs (h.3)),
    )

-- The next segment starts where the first one ends.
pub Linked-begins :
    (start end : ℕ) (bases : List ℕ) (older : List Stored) (s : Stored)
    → Linked start bases (older ++ (s ∷ [])) end
    → (b : ℕ) × (get_elem? bases 0 ≡ some b) × (b ≡ start)
Linked-begins start end [] [] s h = absurd (h tt)
Linked-begins start end [] (o ∷ older) s h = absurd (h tt)
Linked-begins start end (b ∷ bases) [] s h = (b, refl, h.0)
Linked-begins start end (b ∷ bases) (o ∷ older) s h = (b, refl, h.0)
