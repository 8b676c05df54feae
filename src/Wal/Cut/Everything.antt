-- ===== src/Wal/Cut/Everything.antt =====
-- A cut behind the last record (cutEverything of pkg/wal/writer.go).
use go_wallib.Base.{
  ℕ, ◌^◌, ◌<◌, ◌≡◌, refl, sym, ap, ◌∙◌, none, List, [], ◌∷◌, ◌++◌, arith, length, append-nil, All,
  All-append,
}
use mathlib.Core.Path.{subst}
use mathlib.Core.List.{Perm}
use mathlib.Core.List.Perm
use go_wallib.Errors.{ok}
use go_wallib.Exec.{◌>>=◌}
use go_wallib.Record.{Record}
use go_wallib.Record.RoundTrip.{frames}
use go_wallib.Disk.{File, find, remove_file, next_fault, file_content}
use go_wallib.Segment.Header.{header_size, length-encode_header}
use go_wallib.Segment.Name.{name}
use go_wallib.Segment.Files.{new_header, empty_segment, close, remove_if_exists}
use go_wallib.Wal.{Wal}
use go_wallib.Wal.Boundary.{remove_all, install_empty, cut_everything}
use go_wallib.Wal.Reader.Still.{Stored, Stands, Stops-nil, calm}
use go_wallib.Wal.Contents.{
  Log, Succeeds, Succeeds-on_disk, Succeeds-modify, Succeeds-get_active, Succeeds-last,
}
use go_wallib.Wal.Contents.Calm.{
  create-calm, header_file, header_file-content, on_error-ok, close_file-calm,
}
use go_wallib.Wal.Contents.Chain.{linked_names-snoc}
use go_wallib.Wal.Contents.Files.{find-new, get_elem?-snoc}
use go_wallib.Wal.Contents.Rewrite.{at_or_above}
use go_wallib.Wal.Contents.Standing.{All-each}
use go_wallib.Wal.Reopen.Last.{Linked-below}
use go_wallib.Wal.Cut.{Removed, remove_all-calm}
use go_wallib.Wal.Cut.Parts.{at_or_above-none}
use go_wallib.Wal.Cut.Sides.{first_of, names-apart}
use go_wallib.Wal.Cut.Below.{Cut}

pub remove_if_exists-none :
    (n : List ℕ) (files : List File) (now : ℕ)
    → find n files ≡ none
    → remove_if_exists n (calm files now) ≡ (ok tt, calm files now)
unfolding remove_if_exists remove_file next_fault ◌>>=◌ find
remove_if_exists-none n files now e = rw e refl

filled : (recs : List Record) → 0 < length (frames recs) → 0 < length recs
filled [] lt = absurd (unfold frames in omega arith)
filled (r ∷ recs) lt = omega arith

module _ (w : Wal) (recs : List Record) (log : Log w recs) (small : w.next_lsn < 2 ^ 64)
    (grown : header_size < log.body.seg.size) where
  abbrev next : ℕ
  next = w.next_lsn

  abbrev files1 : List File
  files1 = log.files ++ (header_file next log.now ∷ [])

  abbrev fresh : Stored
  fresh = record {
    seg_name = name next;
    handle = length log.files;
    header = new_header next log.now;
    recs = [];
    tail = [];
  }

  fresh-Stands : Stands (calm files1 log.now) w.opts.max_record_size fresh
  unfolding frames
  fresh-Stands = record {
    found =
        find-new (name next) log.files (header_file next log.now) (log.body.free_next grown) refl;
    content =
        ap file_content (get_elem?-snoc log.files (header_file next log.now))
        ∙ header_file-content next log.now
        ∙ sym (append-nil (new_header next log.now));
    header_length = unfold new_header in length-encode_header _;
    fits = tt;
    stops = Stops-nil w.opts.max_record_size;
  }

  low-bases : All (λ b. (b < next) × (b < 2 ^ 64)) w.segment_bases
  low-bases =
      All-each w.segment_bases (λ b lt. (lt, omega arith))
        (Linked-below log.body.start next w.segment_bases (log.body.older ++ (log.body.newest ∷ []))
          log.body.linked
          (All-append (λ (s : Stored). 0 < length s.recs) log.body.older (log.body.newest ∷ [])
            log.body.full (filled log.body.newest.recs (omega (arith, log.body.size)), tt)))

  old_gone :
      Removed files1 log.now w.opts.max_record_size w.segment_bases (name next ∷ []) (fresh ∷ [])
  old_gone =
      remove_all-calm w.segment_bases (name next ∷ []) (fresh ∷ []) files1 log.now
        w.opts.max_record_size
        (linked_names-snoc log.files (header_file next log.now) (name next) refl
          ∙ ap (λ l. l ++ (name next ∷ [])) log.body.listed)
        (names-apart next w.segment_bases (next ∷ []) (fresh ∷ []) low-bases
          ((omega arith, small), tt) refl)
        (fresh-Stands, tt)

  nothing_kept : at_or_above next recs ≡ []
  nothing_kept = at_or_above-none next recs log.body.below

  pub cut_everything-Cut : Succeeds (λ _. Cut w recs next) (cut_everything w.segment_bases next w)
  unfolding cut_everything
  cut_everything-Cut =
      let d = calm log.files log.now in
      let d1 = calm files1 log.now in
      let r = old_gone in
      let d2 = calm r.files' log.now in
      Succeeds-on_disk _ _ w d d tt log.disk
        (remove_if_exists-none (name next) log.files log.now (log.body.free_next grown))
        (Succeeds-on_disk _ _ _ d d1 (empty_segment (length log.files) (name next) next) refl
          (create-calm log.files log.now next (log.body.free_next grown))
          (Succeeds-on_disk _ _ _ d1 d2 tt refl
            (on_error-ok (remove_all w.segment_bases) _ d1 d2 tt r.run)
            (Succeeds-get_active _ _ log.body.seg log.body.there (
              Succeeds-modify _ _ _ (
                Succeeds-last (close log.body.seg) _ d2 d2 tt (unfold install_empty in refl)
                  (unfold close in close_file-calm r.files' log.now log.body.seg.file)
                  (unfold install_empty in
                    record {
                      held = record {
                        files = r.files';
                        now = log.now;
                        segs = fresh ∷ [];
                        disk = refl;
                        named = refl;
                        stand = r.stand;
                        all = sym nothing_kept;
                        listed = subst (λ l. Perm l (name next ∷ [])) (sym r.listed) (Perm.refl _);
                      };
                      first = ap first_of (sym nothing_kept);
                      counter = refl;
                    }))))))
