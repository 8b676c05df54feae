-- ===== src/Wal/Contents/Calm.antt =====
-- The file operations of an append and a roll, on a directory in which nothing fails.
use go_wallib.Base.{
  ℕ, zero, suc, ◌≡◌, refl, sym, ap, ◌∙◌, none, some, List, [], ◌∷◌, ◌++◌, append-nil, length,
  get_elem?, set, drop, min,
}
use go_wallib.Errors.{Result, ok}
use go_wallib.Exec.{Exec, ◌>>=◌, pure, gets, modify, on_error, bind_run}
use go_wallib.Record.{Record, frame}
use go_wallib.Record.Step.{Fits}
use go_wallib.Record.RoundTrip.{encode-frame}
use go_wallib.Disk.{
  Disk, File, Handle, find, create_file, write_at, sync_file, sync_dir, close_file, next_fault,
  change, overwrite,
}
use go_wallib.Segment.Header.{header_size, length-encode_header}
use go_wallib.Segment.Name.{name}
use go_wallib.Segment.Files.{Segment, create, append, new_header, empty_segment}
use go_wallib.Segment.Content.{grown, overwrite-append, append_step}
use go_wallib.Wal.Reader.Still.{calm}
use go_wallib.Wal.Contents.Files.{get_elem?-snoc, set-snoc}

-- A file after a write, and after a sync.
abbrev pub written : ℕ → List ℕ → File → File
written off bytes f = record f {
  content = overwrite off bytes f.content;
  synced = min f.synced off;
}

abbrev pub synced_file : File → File
synced_file f = record f { synced = length f.content }

-- Operations on a directory in which nothing fails.
module _ (files : List File) (now : ℕ) where
  pub change-calm :
      (h : Handle) (f : File) (g : File → File)
      → get_elem? files h ≡ some f
      → change h g (calm files now) ≡ calm (set files h (g f)) now
  unfolding change
  change-calm h f g e = rw e refl

  pub write_at-calm :
      (h : Handle) (bytes : List ℕ) (off : ℕ) (f : File)
      → get_elem? files h ≡ some f
      → write_at h bytes off (calm files now)
        ≡ (ok tt, calm (set files h (written off bytes f)) now)
  unfolding write_at next_fault ◌>>=◌ modify
  write_at-calm h bytes off f e = ap (λ d. (ok tt, d)) (change-calm h f (written off bytes) e)

  pub sync_file-calm :
      (h : Handle) (f : File)
      → get_elem? files h ≡ some f
      → sync_file h (calm files now) ≡ (ok tt, calm (set files h (synced_file f)) now)
  unfolding sync_file next_fault ◌>>=◌ modify
  sync_file-calm h f e = ap (λ d. (ok tt, d)) (change-calm h f synced_file e)

  pub create_file-calm :
      (n : List ℕ)
      → find n files ≡ none
      → create_file n (calm files now) ≡ (
        ok (length files),
        calm (files ++ (record { linked = some n; content = []; synced = 0 } ∷ [])) now,
      )
  unfolding create_file next_fault ◌>>=◌ find
  create_file-calm n e = rw e refl

abbrev pub header_file : ℕ → ℕ → File
header_file base_lsn now = record {
  linked = some (name base_lsn);
  content = overwrite 0 (new_header base_lsn now) [];
  synced = length (overwrite 0 (new_header base_lsn now) []);
}

pub on_error-ok :
    {A : Type 0} (m : Exec Disk A) (cleanup : Exec Disk Unit) (d d' : Disk) (a : A)
    → m d ≡ (ok a, d')
    → on_error m cleanup d ≡ (ok a, d')
unfolding on_error
on_error-ok {A = A} m cleanup d d' a e =
    rw (on_error, e) (ap (λ (x : Result A × Disk). (ok a, x.1)) e)

pub sync_dir-calm :
    (files : List File) (now : ℕ) → sync_dir (calm files now) ≡ (ok tt, calm files now)
unfolding sync_dir next_fault ◌>>=◌ pure
sync_dir-calm files now = refl

-- The new file, empty and with its header.
abbrev empty_file : ℕ → File
empty_file base_lsn = record { linked = some (name base_lsn); content = []; synced = 0 }

abbrev with_header : ℕ → ℕ → File
with_header base_lsn now = record {
  linked = some (name base_lsn);
  content = overwrite 0 (new_header base_lsn now) [];
  synced = 0;
}

-- A segment that is created has a file behind the others.
pub create-calm :
    (files : List File) (now base_lsn : ℕ)
    → find (name base_lsn) files ≡ none
    → create base_lsn (calm files now) ≡ (
      ok (empty_segment (length files) (name base_lsn) base_lsn),
      calm (files ++ (header_file base_lsn now ∷ [])) now,
    )
unfolding create gets pure
create-calm files now base_lsn e =
    let files1 : List File = files ++ (empty_file base_lsn ∷ []) in
    let files2 : List File = files ++ (with_header base_lsn now ∷ []) in
    let files3 : List File = files ++ (header_file base_lsn now ∷ []) in
    bind_run (create_file (name base_lsn)) _ (calm files now) (calm files1 now) (ok (length files))
      (create_file-calm files now (name base_lsn) e)
    ∙ bind_run (on_error _ _) _ (calm files1 now) (calm files3 now) (ok tt) (
        on_error-ok _ _ (calm files1 now) (calm files3 now) tt (
          bind_run (gets (λ d. d.now)) _ (calm files1 now) (calm files1 now) (ok now) refl
          ∙ bind_run (write_at (length files) (new_header base_lsn now) 0) _ (calm files1 now)
              (calm files2 now) (ok tt)
              (write_at-calm files1 now (length files) (new_header base_lsn now) 0
                  (empty_file base_lsn) (get_elem?-snoc files (empty_file base_lsn))
                ∙ ap (λ fs. (ok tt, calm fs now))
                    (set-snoc files (empty_file base_lsn) (with_header base_lsn now)))
          ∙ bind_run (sync_file (length files)) _ (calm files2 now) (calm files3 now) (ok tt) (
              sync_file-calm files2 now (length files) (with_header base_lsn now)
                (get_elem?-snoc files (with_header base_lsn now))
              ∙ ap (λ fs. (ok tt, calm fs now)) (set-snoc files (with_header base_lsn now) _))
          ∙ sync_dir-calm files3 now))

drop-nil : (n : ℕ) → drop {A = ℕ} n [] ≡ []
drop-nil zero = refl
drop-nil (suc n) = refl

-- What is written right behind the content.
pub overwrite-end :
    (off : ℕ) (content bytes : List ℕ)
    → length content ≡ off
    → overwrite off bytes content ≡ content ++ bytes
overwrite-end off content bytes e =
    ap (overwrite off bytes) (sym (append-nil content))
    ∙ overwrite-append content [] bytes off e
    ∙ ap (λ l. content ++ (bytes ++ l)) (drop-nil (length bytes))
    ∙ ap (λ l. content ++ l) (append-nil bytes)

pub append-calm :
    (files : List File) (now max_rec : ℕ) (seg : Segment) (r : Record) (f : File)
    → get_elem? files seg.file ≡ some f
    → Fits max_rec r
    → append seg r.lsn r.payload (calm files now) ≡ (
      ok (length (frame r.lsn r.payload), grown seg r),
      calm (set files seg.file (written seg.size (frame r.lsn r.payload) f)) now,
    )
unfolding pure
append-calm files now max_rec seg r f e fits =
    append_step seg r.lsn r.payload (frame r.lsn r.payload) (calm files now) _ (ok tt)
      (encode-frame [] max_rec r fits)
      (write_at-calm files now seg.file (frame r.lsn r.payload) seg.size f e)

pub header_file-content :
    (base_lsn now : ℕ) → (header_file base_lsn now).content ≡ new_header base_lsn now
unfolding new_header
header_file-content base_lsn now = overwrite-end 0 [] (new_header base_lsn now) refl

pub length-header_file :
    (base_lsn now : ℕ) → length (header_file base_lsn now).content ≡ header_size
unfolding new_header
length-header_file base_lsn now =
    ap length (header_file-content base_lsn now) ∙ length-encode_header _

pub close_file-calm :
    (files : List File) (now : ℕ) (h : Handle)
    → close_file h (calm files now) ≡ (ok tt, calm files now)
unfolding close_file next_fault ◌>>=◌ pure
close_file-calm files now h = refl
