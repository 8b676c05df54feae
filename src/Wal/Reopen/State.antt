-- ===== src/Wal/Reopen/State.antt =====
-- The state that recovery installs.
use go_wallib.Base.{
  ℕ, ◌+◌, ◌^◌, ◌<◌, ◌≤◌, ◌≡◌, refl, sym, ap, ◌∙◌, true, some, List, [], ◌∷◌, ◌++◌, arith, length,
  max, get_elem?, inl,
}
use mathlib.Core.Path.{subst}
use mathlib.Core.List.{map}
use go_wallib.Errors.{ok}
use go_wallib.Exec.{pure, modify, bind_run}
use go_wallib.Disk.{File}
use go_wallib.Segment.Name.{name}
use go_wallib.Segment.Files.{Segment, close}
use go_wallib.Wal.{Wal, succ_lsn}
use go_wallib.Wal.Recover.{
  Bounds, OpenedSeg, RecoveryReport, open_and_scan_segments, open_and_scan_from, close_sealed,
  seg_bases, install_state,
}
use go_wallib.Wal.Reader.Still.{Stored, records_of, calm}
use go_wallib.Wal.Contents.{Body, Flushed, Succeeds, Succeeds-ok, Succeeds-on_disk}
use go_wallib.Wal.Contents.Calm.{close_file-calm}
use go_wallib.Wal.Contents.Finish.{Published}
use go_wallib.Wal.Contents.Chain.{Linked, Linked-same}
use go_wallib.Wal.Reopen.Shelf.{Shelf}
use go_wallib.Wal.Reopen.Segments.{scanned}
use go_wallib.Wal.Reopen.Collect.{open_and_scan_from-calm}
use go_wallib.Wal.Reopen.Repair.{repaired}
use go_wallib.Wal.Reopen.Tally.{
  repaired_all, repaired_all-snoc, scanned_all-repaired, next_base, Counted,
}
use go_wallib.Wal.Reopen.Last.{Linked-Unsnoc}
use go_wallib.Wal.Reopen.Numbers.{next-installed, last-installed}
use go_wallib.Wal.Reopen.Install.{Body-Shelf}
use go_wallib.Wal.Contents.Files.{some-inj}

close_sealed-calm :
    (os : List OpenedSeg) (o : OpenedSeg) (files : List File) (now : ℕ)
    → close_sealed (os ++ (o ∷ [])) (calm files now) ≡ (ok o.seg, calm files now)
unfolding close_sealed pure
close_sealed-calm [] o files now = refl
close_sealed-calm (q ∷ []) o files now =
    bind_run (close q.seg) _ (calm files now) (calm files now) (ok tt)
      (unfold close in close_file-calm files now q.seg.file)
close_sealed-calm (q ∷ p ∷ os) o files now =
    bind_run (close q.seg) _ (calm files now) (calm files now) (ok tt)
      (unfold close in close_file-calm files now q.seg.file)
    ∙ close_sealed-calm (p ∷ os) o files now

seg_bases-repaired :
    (start end : ℕ) (bases : List ℕ) (segs : List Stored)
    → Linked start bases segs end
    → seg_bases (repaired_all start segs) ≡ bases
seg_bases-repaired start end [] [] h = refl
seg_bases-repaired start end [] (s ∷ segs) h = absurd (h tt)
seg_bases-repaired start end (b ∷ bases) [] h = absurd (h tt)
seg_bases-repaired start end (b ∷ bases) (s ∷ segs) h =
    ap (λ l. start ∷ l) (seg_bases-repaired (start + length s.recs) end bases segs (h.3))
    ∙ ap (λ k. k ∷ bases) (sym h.0)

pub open_and_scan_segments-calm :
    {files : List File} {now start end max_rec : ℕ} {bases : List ℕ} (older : List Stored)
    (newest : Stored) (report : RecoveryReport)
    → Shelf files now start end max_rec bases older newest
    → end < 2 ^ 64
    → open_and_scan_segments max_rec (map name bases) report (calm files now) ≡ (
      ok (report, repaired_all start older ++ (scanned (next_base start older) newest ∷ [])),
      calm files now,
    )
unfolding open_and_scan_segments pure
open_and_scan_segments-calm {files = files} {now = now} {start = start} {end = end}
      {max_rec = max_rec} {bases = bases} older newest report sh small =
    bind_run (open_and_scan_from true max_rec (map name bases) _) _ (calm files now)
      (calm files now) _
      (open_and_scan_from-calm files now max_rec true
        (record { report = report; segments = []; expected_base = 0 }) start end bases older newest
        sh.linked sh.named sh.older_stand sh.newest_stands sh.cleaned sh.ends (inl refl) small)
    ∙ ap (λ l. (ok (report, l), calm files now))
        (scanned_all-repaired start older newest sh.cleaned)

-- The state that is installed.
pub installed :
    {files : List File} {now start end max_rec : ℕ} {bases : List ℕ} (older : List Stored)
    (top : Stored) (c : Bounds) (w : Wal)
    → Shelf files now start end max_rec bases older (record top { tail = [] })
    → end < 2 ^ 64
    → Counted start end c
    → w.disk ≡ calm files now
    → w.opts.max_record_size ≡ max_rec
    → Succeeds
        (λ _ w'.
          Published w' (records_of (older ++ (top ∷ [])))
          × (w'.next_lsn ≡ end)
          × (w'.is_closed ≡ w.is_closed)
          × (w'.opts ≡ w.opts)
          × (w'.segment_bases ≡ bases)
          × Flushed w')
        (install_state (repaired_all start (older ++ (top ∷ []))) c.first c.last w)
unfolding install_state modify
installed {files = files} {now = now} {start = start} {end = end} {max_rec = max_rec}
      {bases = bases} older top c w sh small k disk limit =
    let b = next_base start older in
    let all = repaired_all start (older ++ (top ∷ [])) in
    let recs = records_of (older ++ (top ∷ [])) in
    let active = some (repaired b top).seg in
    let at = (Linked-Unsnoc start end bases older (record top { tail = [] }) sh.linked).ends_at in
    let next = next-installed start end b c k sh.first (omega arith) (omega arith) small in
    let last = last-installed start end b c k sh.first (omega arith) (omega arith) small in
    let index : seg_bases all ≡ bases =
      seg_bases-repaired start end bases (older ++ (top ∷ []))
        (Linked-same start end bases older (record top { tail = [] }) top sh.linked refl refl) in
    Succeeds-on_disk (close_sealed all) _ w (calm files now) (calm files now) (repaired b top).seg
      disk
      (ap (λ l. close_sealed l (calm files now)) (repaired_all-snoc start older top)
        ∙ close_sealed-calm (repaired_all start older) (repaired b top) files now)
      (Succeeds-ok tt _ (
        record {
          log = record {
            files = files;
            now = now;
            disk = refl;
            body =
                subst
                  (λ bs.
                    Body files now active bs (max (succ_lsn c.last) b) w.opts.max_record_size recs)
                  (sym index)
                  (subst (λ n. Body files now active bases n w.opts.max_record_size recs) (sym next)
                    (subst (λ m. Body files now active bases end m recs) (sym limit)
                      (Body-Shelf older top sh small)));
          };
          last = last ∙ sym next;
          room = omega (arith, next);
        },
        next,
        refl,
        refl,
        index,
        λ seg f e at.
            let here : (repaired b top).seg ≡ seg = some-inj e in
            let same : sh.file ≡ f =
              some-inj (sym sh.present ∙ ap (λ (s : Segment). get_elem? files s.file) here ∙ at) in
            subst (λ (g : File). length g.content ≤ g.synced) same sh.flushed,
      ))
