-- ===== src/Wal/Contents/Append.antt =====
-- Appends put their records behind those that the log holds.
use go_wallib.Base.{
  ℕ, ◌+◌, ◌^◌, ◌<◌, ◌≤◌, ◌≡◌, refl, sym, ap, ◌∙◌, Bool, true, false, List, [], ◌∷◌, ◌++◌, arith,
  length, set, length-append, if◌then◌else◌,
}
use go_wallib.Errors.{Result}
use go_wallib.Exec.{◌>>=◌, pure, modify}
use go_wallib.Record.{Record, frame, encoded_size}
use go_wallib.Record.Step.{Fits}
use go_wallib.Record.RoundTrip.{frames}
use go_wallib.Disk.{File}
use go_wallib.Segment.Header.{header_size, length-encode_header}
use go_wallib.Segment.Files.{Segment, create, append, sync, close, new_header}
use mathlib.Core.Path.{subst}
use go_wallib.Wal.{Wal, Options, on_disk, get_active, install_active, succ_lsn}
use go_wallib.Wal.Append.{roll, install_rolled, needs_roll, write_record, count_lsn}
use go_wallib.Wal.Reader.Still.{calm}
use go_wallib.Wal.Contents.{
  Log, Succeeds, Succeeds-bind, Succeeds-ok, Succeeds-get_active, Succeeds-on_disk, Succeeds-modify,
  Succeeds-gets, Succeeds-last,
}
use go_wallib.Wal.Contents.Steps.{Body-touch, header-length, seg-Body-touch, Body-put, Body-roll}
use go_wallib.Wal.Contents.Calm.{
  written, synced_file, header_file, create-calm, append-calm, header_file-content,
  length-header_file, close_file-calm, overwrite-end, sync_file-calm,
}

-- The counter moves by n, and the rest stays.
pub record Moved (n : ℕ) (v w : Wal) : Type 0 where
  pub next : w.next_lsn ≡ v.next_lsn + n
  pub last : w.last_lsn ≡ v.last_lsn
  pub opts : w.opts ≡ v.opts
  pub closed : w.is_closed ≡ v.is_closed

roll-Log :
    (w : Wal) (recs : List Record) (l : Log w recs)
    → header_size < l.body.seg.size
    → w.next_lsn < 2 ^ 64
    → Succeeds (λ _ w'. Log w' recs × Moved 0 w w') (roll w.next_lsn w)
unfolding roll
roll-Log w recs l grew small =
    let b = l.body in
    let g = synced_file b.file in
    let touched = Body-touch b g refl refl (header-length b) in
    let (same_seg, same_file) = seg-Body-touch b g refl refl (header-length b) in
    let grew' : header_size < touched.seg.size = rw same_seg grew in
    let whole : length touched.file.content ≤ touched.file.synced =
      subst (λ (f : File). length f.content ≤ f.synced) (sym same_file) (omega arith) in
    let files' = set l.files b.seg.file g in
    let files'' = files' ++ (header_file w.next_lsn l.now ∷ []) in
    Succeeds-get_active _ w b.seg b.there (
      Succeeds-on_disk (sync b.seg) _ w (calm l.files l.now) (calm files' l.now) tt l.disk
        (unfold sync in sync_file-calm l.files l.now b.seg.file b.file b.present)
        (Succeeds-on_disk (create w.next_lsn) _ _ (calm files' l.now) (calm files'' l.now) _ refl
          (create-calm files' l.now w.next_lsn (touched.free_next grew'))
          (Succeeds-modify _ _ _ (
            Succeeds-last (close b.seg) _ (calm files'' l.now) (calm files'' l.now) tt refl
              (unfold close in close_file-calm files'' l.now b.seg.file)
              (unfold install_rolled in
                (
                  record {
                    files = files'';
                    now = l.now;
                    disk = refl;
                    body =
                        Body-roll touched (header_file w.next_lsn l.now)
                          (new_header w.next_lsn l.now) refl (header_file-content w.next_lsn l.now)
                          (unfold new_header in length-encode_header _) (l.now, refl) grew' small
                          whole (omega (arith, length-header_file w.next_lsn l.now));
                  },
                  record { next = omega arith; last = refl; opts = refl; closed = refl },
                ))))))

-- The roll rule.
roll_if_full-Log :
    (full : Bool) (w : Wal) (recs : List Record) (l : Log w recs)
    → (full ≡ true → header_size < l.body.seg.size)
    → w.next_lsn < 2 ^ 64
    → Succeeds (λ _ w'. Log w' recs × Moved 0 w w') ((if full then roll w.next_lsn else pure tt) w)
unfolding pure
roll_if_full-Log true w recs l grew small = roll-Log w recs l (grew refl) small
roll_if_full-Log false w recs l grew small =
    Succeeds-ok tt w (l, record { next = omega arith; last = refl; opts = refl; closed = refl })

grown_by :
    (seg : Segment) (needed limit : ℕ) → needs_roll seg needed limit ≡ true → header_size < seg.size
grown_by seg needed limit h = ground arith

-- The append itself.
append_target-Log :
    (w : Wal) (recs : List Record) (r : Record) (l : Log w recs)
    → Fits w.opts.max_record_size r
    → r.lsn ≡ w.next_lsn
    → w.next_lsn + 1 < 2 ^ 64
    → Succeeds
        (λ _ w'. Log (count_lsn w') (recs ++ (r ∷ [])) × Moved 0 w w')
        ((get_active >>= λ target. on_disk (append target r.lsn r.payload) >>= λ written.
            modify (install_active written.1))
          w)
append_target-Log w recs r l fits here small =
    let b = l.body in
    let g = written b.seg.size (frame r.lsn r.payload) b.file in
    let full : length b.file.content ≡ b.seg.size = omega (
      arith,
      ap length b.layout,
      length-append b.newest.header (frames b.newest.recs),
      b.newest_stands.header_length,
      b.size,
    ) in
    let next : succ_lsn w.next_lsn ≡ w.next_lsn + 1 = omega arith in
    Succeeds-get_active _ w b.seg b.there (
      Succeeds-on_disk (append b.seg r.lsn r.payload) _ w (calm l.files l.now) _ _ l.disk
        (append-calm l.files l.now w.opts.max_record_size b.seg r b.file b.present fits)
        (unfold modify count_lsn install_active in
          Succeeds-ok tt _ (
            record {
              files = set l.files b.seg.file g;
              now = l.now;
              disk = refl;
              body = rw next (
                  Body-put b g r refl
                    (overwrite-end b.seg.size b.file.content (frame r.lsn r.payload) full) fits here
                    small (omega (arith, b.header_kept, b.size)));
            },
            record { next = omega arith; last = refl; opts = refl; closed = refl },
          )))

Moved-after :
    {recs : List Record} {o : Result (Unit {0}) × Wal} (v w : Wal)
    → Moved 0 v w
    → Succeeds (λ _ w'. Log (count_lsn w') recs × Moved 0 w w') o
    → Succeeds (λ _ w'. Log (count_lsn w') recs × Moved 0 v w') o
Moved-after v w m h =
    let first = m.next in
    let second = h.post.1.next in
    record {
      value = h.value;
      state = h.state;
      run = h.run;
      post = (
        h.post.0,
        record {
          next = omega arith;
          last = h.post.1.last ∙ m.last;
          opts = h.post.1.opts ∙ m.opts;
          closed = h.post.1.closed ∙ m.closed;
        },
      );
    }

-- One record is written behind the others, and counted.
pub write_record-Log :
    (w : Wal) (recs : List Record) (r : Record)
    → Log w recs
    → Fits w.opts.max_record_size r
    → r.lsn ≡ w.next_lsn
    → w.next_lsn + 1 < 2 ^ 64
    → Succeeds
        (λ _ w'. Log (count_lsn w') (recs ++ (r ∷ [])) × Moved 0 w w')
        (write_record w.next_lsn r.payload w)
unfolding write_record
write_record-Log w recs r l fits here small = Succeeds-get_active _ w l.body.seg l.body.there (
    Succeeds-gets _ _ w (
      Succeeds-bind _ _ w
        (roll_if_full-Log _ w recs l
          (grown_by l.body.seg (encoded_size (length r.payload)) w.opts.max_segment_size)
          (omega arith))
        (λ _ w' rolled.
          let moved = rolled.1 in
          let max : w'.opts.max_record_size ≡ w.opts.max_record_size =
            ap (λ (o : Options). o.max_record_size) moved.opts in
          let next = moved.next in
          Moved-after w w' moved (
            subst
              (λ (lsn : ℕ).
                Succeeds (λ _ w''. Log (count_lsn w'') (recs ++ (r ∷ [])) × Moved 0 w' w'')
                  ((get_active >>= λ target. on_disk (append target lsn r.payload) >>= λ written.
                      modify (install_active written.1))
                    w'))
              here
              (append_target-Log w' recs r rolled.0 (rw max fits) (omega (arith, here))
                (omega arith))))))
