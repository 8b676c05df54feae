-- ===== src/Wal/Reopen/Segments.antt =====
-- One segment file on the way through recovery: it is opened and scanned.
use go_wallib.Base.{
  ℕ, ◌+◌, ◌-◌, ◌^◌, ◌<◌, ◌≡◌, refl, sym, ap, ◌∙◌, false, some, List, [], ◌++◌, append-nil, arith,
  length, take, drop, length-append, take-append, drop-append, inl, inr, eq→==, if◌then◌else◌, ltb,
  Bool-cases,
}
use go_wallib.Errors.{Result, ok}
use go_wallib.Exec.{◌>>=◌, pure, lift, on_error, bind_run, gets}
use go_wallib.Record.{Record, Scanner, Source, read_full, new_scanner, scan}
use go_wallib.Record.Step.{running, read_full-append}
use go_wallib.Record.RoundTrip.{frames, scan-frames_stop, last_of, no_record}
use go_wallib.Disk.{
  Disk, File, Handle, find, open_file, stat_size, content_of, next_fault, read_section,
}
use go_wallib.Segment.Header.{
  header_size, header_for, decode_header, decode-new_header, length-encode_header,
}
use go_wallib.Segment.Name.{name}
use go_wallib.Segment.Files.{
  Segment, empty_segment, new_header, header_bytes, check_base, open_segment, scan_segment,
  scan_result, after_scan, pred_lsn,
}
use go_wallib.Segment.Content.{read_section_works, tally_lem, last_lsn}
use go_wallib.Wal.Recover.{OpenedSeg}
use go_wallib.Wal.Reader.Still.{Stored, Stands, calm}
use go_wallib.Wal.Reopen.Shelf.{Ends, tail_err, next-tail_err}
use go_wallib.Wal.Contents.Calm.{on_error-ok}

open_file-calm :
    (files : List File) (now : ℕ) (n : List ℕ) (h : Handle)
    → find n files ≡ some h
    → open_file n (calm files now) ≡ (ok h, calm files now)
unfolding open_file next_fault ◌>>=◌ find
open_file-calm files now n h e = rw e refl

stat_size-calm :
    (files : List File) (now : ℕ) (h : Handle)
    → stat_size h (calm files now) ≡ (ok (length (content_of h (calm files now))), calm files now)
unfolding stat_size next_fault ◌>>=◌ gets
stat_size-calm files now h = refl

pub lift_lem : {A : Type 0} (r r' : Result A) (d : Disk) → r ≡ r' → lift r d ≡ (r', d)
unfolding lift
lift_lem r r' d e = ap (λ x. (x, d)) e

length-new_header : (b time : ℕ) → length (new_header b time) ≡ header_size
unfolding new_header
length-new_header b time = length-encode_header _

-- The segment as it is opened.
abbrev pub fresh_segment : ℕ → Handle → ℕ → Segment
fresh_segment b h size = record (empty_segment h (name b) b) { size = size }

module _ (files : List File) (now b time : ℕ) (h : Handle) (rest : List ℕ)
    (found : find (name b) files ≡ some h)
    (content : content_of h (calm files now) ≡ new_header b time ++ rest) (small : b < 2 ^ 64) where
  first_bytes : take header_size (drop 0 (content_of h (calm files now))) ≡ new_header b time
  unfolding new_header
  first_bytes =
      ap (take header_size) content
      ∙ take-append header_size (new_header b time) rest (length-encode_header _)

  header_read :
      (read_full header_size (record { bytes = new_header b time; broken = false })).0
      ≡ ok (new_header b time)
  unfolding new_header
  header_read =
      ap (λ l. (read_full header_size (record { bytes = l; broken = false })).0)
        (sym (append-nil (new_header b time)))
      ∙ ap (λ (x : Result (List ℕ) × Source). x.0)
          (read_full-append header_size (new_header b time) [] false (length-encode_header _))

  header_decoded : decode_header (new_header b time) ≡ ok (header_for b time)
  unfolding new_header
  header_decoded =
      ap decode_header (sym (append-nil (new_header b time))) ∙ decode-new_header b time [] small

  -- A segment file with the header of its base is opened, at its size.
  pub open_segment-calm :
      open_segment b (calm files now)
      ≡ (ok (fresh_segment b h (header_size + length rest)), calm files now)
  unfolding open_segment pure
  open_segment-calm =
      let d = calm files now in
      let size = length (content_of h d) in
      bind_run (open_file (name b)) _ d d (ok h) (open_file-calm files now (name b) h found)
      ∙ bind_run (on_error _ _) _ d d (ok size) (
          on_error-ok _ _ d d size (
            bind_run (read_section h 0 header_size) _ d d _
              (read_section_works h 0 header_size d refl)
            ∙ ap
                (λ l.
                  ((lift (
                        header_bytes
                          (read_full header_size (record { bytes = l; broken = false })).0)
                      >>= λ bytes. lift (decode_header bytes) >>= λ header.
                          check_base b header >>= λ _. stat_size h)
                    d))
                first_bytes
            ∙ bind_run (lift _) _ d d (ok (new_header b time))
                (lift_lem _ _ d (ap header_bytes header_read))
            ∙ bind_run (lift _) _ d d (ok (header_for b time)) (lift_lem _ _ d header_decoded)
            ∙ bind_run (check_base b (header_for b time)) _ d d (ok tt) (rw (eq→== b b refl) refl)
            ∙ stat_size-calm files now h))
      ∙ ap (λ n. (ok (fresh_segment b h n), d))
          (ap length content
            ∙ length-append (new_header b time) rest
            ∙ ap (λ n. n + length rest) (length-new_header b time))

-- What a segment is after recovery has opened and scanned it.
abbrev pub last_or : ℕ → List Record → ℕ
last_or last recs = if ltb 0 (length recs) then last_lsn 0 recs else last

abbrev pub scanned : ℕ → Stored → OpenedSeg
scanned b s = record {
  seg = record {
    file = s.handle;
    seg_name = name b;
    base_lsn = b;
    size = header_size + length (frames s.recs ++ s.tail);
    last_lsn = last_or (pred_lsn b) s.recs;
  };
  res = record {
    scan_err = tail_err s.tail;
    records = length s.recs;
    scan_last = last_lsn 0 s.recs;
    valid_end = header_size + length (frames s.recs);
  };
}

after_scan-scanned :
    (b : ℕ) (s : Stored)
    → after_scan
        (fresh_segment b s.handle (header_size + length (frames s.recs ++ s.tail)))
        (scanned b s).res
      ≡ (scanned b s).seg
after_scan-scanned b s = elim (Bool-cases (ltb 0 (length s.recs))) [
  | inl more ↦ rw more refl
  | inr nothing ↦ rw nothing refl
]

module _ (files : List File) (now max_rec b : ℕ) (s : Stored)
    (st : Stands (calm files now) max_rec s) (ends : Ends max_rec s.tail) where
  abbrev opened : Segment
  opened = fresh_segment b s.handle (header_size + length (frames s.recs ++ s.tail))

  records_section :
      take (opened.size - header_size) (drop header_size (content_of s.handle (calm files now)))
      ≡ frames s.recs ++ s.tail
  records_section =
      ap (λ l. take (opened.size - header_size) (drop header_size l)) st.content
      ∙ ap (take (opened.size - header_size))
          (drop-append header_size s.header (frames s.recs ++ s.tail) st.header_length)
      ∙ ap (take (opened.size - header_size)) (sym (append-nil (frames s.recs ++ s.tail)))
      ∙ take-append (opened.size - header_size) (frames s.recs ++ s.tail) [] (omega arith)

  abbrev at_end : Scanner
  at_end = record (running [] false (last_of no_record s.recs) max_rec (length (frames s.recs))) {
    first_err = tail_err s.tail;
  }

  scan_result-scanned : scan_result (s.recs, at_end) ≡ (scanned b s).res
  scan_result-scanned =
      ap
        (λ (t : ℕ × ℕ). record {
          scan_err = tail_err s.tail;
          records = t.0;
          scan_last = t.1;
          valid_end = header_size + length (frames s.recs);
        })
        (tally_lem 0 0 s.recs ∙ ap (λ (n : ℕ). (n, last_lsn 0 s.recs)) (omega arith))

  -- The scan of recovery finds the records of the segment, and the end of the last one.
  pub scan_segment-calm :
      scan_segment opened max_rec (calm files now)
      ≡ (ok ((scanned b s).res, (scanned b s).seg), calm files now)
  unfolding scan_segment pure
  scan_segment-calm =
      let d = calm files now in
      bind_run (read_section s.handle header_size (opened.size - header_size)) _ d d _
        (read_section_works s.handle header_size (opened.size - header_size) d refl)
      ∙ ap
          (λ l.
            let r =
              scan_result (scan (new_scanner (record { bytes = l; broken = false }) max_rec)) in
            (ok (r, after_scan opened r), d))
          records_section
      ∙ ap (λ x. let r = scan_result x in (ok (r, after_scan opened r), d))
          (scan-frames_stop max_rec s.recs st.fits s.tail false at_end
            (next-tail_err max_rec (length (frames s.recs)) (last_of no_record s.recs) s.tail ends))
      ∙ ap (λ r. (ok (r, after_scan opened r), d)) scan_result-scanned
      ∙ ap (λ x. (ok ((scanned b s).res, x), d)) (after_scan-scanned b s)
