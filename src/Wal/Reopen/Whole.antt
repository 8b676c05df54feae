-- ===== src/Wal/Reopen/Whole.antt =====
-- Recovery from end to end.
use go_wallib.Base.{
  ℕ, ◌+◌, ◌^◌, ◌<◌, ◌≡◌, refl, sym, ap, ◌∙◌, false, List, [], ◌∷◌, ◌++◌, arith, length,
}
use mathlib.Core.Path.{subst}
use mathlib.Core.List.{map}
use go_wallib.Errors.{ok}
use go_wallib.Exec.{pure}
use go_wallib.Record.{Record}
use go_wallib.Disk.{File}
use go_wallib.Segment.Name.{name}
use go_wallib.Segment.Dir.{remove_stale_temp_files, list_segments}
use go_wallib.Wal.{Wal, Options}
use go_wallib.Wal.Recover.{
  Bounds, RecoveryReport, empty_report, open_and_scan_segments, compute_bounds, recover_segments,
  recover_from, recover, open_log,
}
use go_wallib.Wal.Reader.Still.{Stored, records_of, calm}
use go_wallib.Wal.Contents.{
  Flushed, Succeeds, Succeeds-bind, Succeeds-ok, Succeeds-on_disk, Succeeds-gets,
}
use go_wallib.Wal.Contents.Calm.{on_error-ok}
use go_wallib.Wal.Contents.Finish.{Published}
use go_wallib.Wal.Reopen.Shelf.{Shelf}
use go_wallib.Wal.Reopen.Segments.{scanned}
use go_wallib.Wal.Reopen.Repair.{repair, truncate_torn_tail-last}
use go_wallib.Wal.Reopen.Tally.{
  repaired_all, repaired_all-snoc, next_base, Counted, compute_bounds-Counted,
}
use go_wallib.Wal.Reopen.Last.{Linked-Unsnoc}
use go_wallib.Wal.Reopen.Prune.{prune}
use go_wallib.Wal.Reopen.Listing.{remove_stale_temp_files-calm, list_segments-calm}
use go_wallib.Wal.Reopen.Numbers.{Linked-Numbered}
use go_wallib.Wal.Reopen.State.{open_and_scan_segments-calm, installed}

-- A log that is opened on what an earlier one left: the records, the counter, the bytes cut off.
pub record Reopened (opts : Options) (recs : List Record) (next cut removed : ℕ)
    (report : RecoveryReport) (w : Wal) : Type 0 where
  pub holds : Published w recs
  pub safe : Flushed w
  pub counter : w.next_lsn ≡ next
  pub opened : w.is_closed ≡ false
  pub options : w.opts ≡ opts
  pub entries : report.entries_recovered ≡ length recs
  pub last_entry : 0 < length recs → report.report_last + 1 ≡ next
  pub cut_off : report.bytes_truncated ≡ cut
  pub pruned : report.segments_removed + length w.segment_bases ≡ removed

recover_from-names :
    (bases : List ℕ) (x : ℕ) (front : List ℕ)
    → bases ≡ front ++ (x ∷ [])
    → recover_from (map name bases) ≡ recover_segments (map name bases)
recover_from-names [] x [] e = absurd (cc e)
recover_from-names [] x (y ∷ front) e = absurd (cc e)
recover_from-names (b ∷ bases) x front e = refl

module _ {files : List File} {now start end : ℕ} {bases : List ℕ} (older : List Stored)
    (newest : Stored) (opts : Options)
    (sh : Shelf files now start end opts.max_record_size bases older newest)
    (small : end < 2 ^ 64) where
  abbrev stored : List Record
  stored = records_of (older ++ (newest ∷ []))

  count_is : {c : Bounds} → Counted start end c → c.total ≡ length stored
  count_is k =
      let (numbered, count) = Linked-Numbered start end bases (older ++ (newest ∷ [])) sh.linked in
      let e = k.count in omega arith

  recover_segments-Reopened :
      (w : Wal)
      → w.disk ≡ calm files now
      → w.opts ≡ opts
      → w.is_closed ≡ false
      → Succeeds
          (λ report w'. Reopened opts stored end (length newest.tail) (length bases) report w')
          (recover_segments (map name bases) w)
  unfolding recover_segments
  recover_segments-Reopened w disk same opened =
      let limit : w.opts.max_record_size ≡ opts.max_record_size =
        ap (λ (o : Options). o.max_record_size) same in
      let b = next_base start older in
      let all = repaired_all start (older ++ (newest ∷ [])) in
      let c = compute_bounds all in
      let fixed = repair sh b empty_report refl in
      let k = compute_bounds-Counted start end bases (older ++ (newest ∷ [])) sh.first sh.linked in
      let report : RecoveryReport = record empty_report {
        entries_recovered = c.total;
        report_first = c.first;
        report_last = c.last;
        bytes_truncated = length newest.tail;
      } in
      let p = prune older newest report c fixed.shelf small k in
      Succeeds-gets _ _ w (
        Succeeds-on_disk _ _ w (calm files now) (calm files now)
          (empty_report, repaired_all start older ++ (scanned b newest ∷ [])) disk
          (ap (λ m. open_and_scan_segments m (map name bases) empty_report (calm files now)) limit
            ∙ open_and_scan_segments-calm older newest empty_report sh small)
          (Succeeds-on_disk _ _ (record w { disk = calm files now }) (calm files now)
            (calm fixed.files' now)
            (record empty_report { bytes_truncated = length newest.tail }, all) refl
            (on_error-ok _ _ (calm files now) (calm fixed.files' now) _ (
                truncate_torn_tail-last empty_report (repaired_all start older) (scanned b newest)
                  (calm files now) (calm fixed.files' now) _ fixed.run)
              ∙ ap
                  (λ l. (
                    ok (record empty_report { bytes_truncated = length newest.tail }, l),
                    calm fixed.files' now,
                  ))
                  (sym (repaired_all-snoc start older newest)))
            (Succeeds-on_disk _ _ (record w { disk = calm fixed.files' now })
              (calm fixed.files' now) (calm p.files' now) _ refl p.run
              (Succeeds-bind _ _ _
                (installed p.older p.top c (record w { disk = calm p.files' now }) p.shelf small k
                  refl limit)
                (λ _ w' i.
                  unfold pure in
                  Succeeds-ok _ w' (record {
                    holds = subst (Published w') p.same i.0;
                    safe = i.5;
                    counter = i.1;
                    opened = i.2 ∙ opened;
                    options = i.3 ∙ same;
                    entries = count_is k;
                    last_entry = λ some_there. (k.something (omega (arith, count_is k))).0;
                    cut_off = refl;
                    pruned = omega (arith, ap length i.4, p.counted);
                  }))))))

  recover_from-Reopened :
      (w : Wal)
      → w.disk ≡ calm files now
      → w.opts ≡ opts
      → w.is_closed ≡ false
      → Succeeds
          (λ report w'. Reopened opts stored end (length newest.tail) (length bases) report w')
          (recover_from (map name bases) w)
  recover_from-Reopened w disk same opened =
      let u = Linked-Unsnoc start end bases older newest sh.linked in
      subst
        (λ m.
          Succeeds
            (λ report w'. Reopened opts stored end (length newest.tail) (length bases) report w')
            (m w))
        (sym (recover_from-names bases (next_base start older) u.front u.bases_split))
        (recover_segments-Reopened w disk same opened)

pub open_log-Reopened :
    {files : List File} {now start end : ℕ} {bases : List ℕ} (older : List Stored) (newest : Stored)
    (opts : Options)
    → Shelf files now start end opts.max_record_size bases older newest
    → end < 2 ^ 64
    → Succeeds
        (λ report w.
          Reopened opts
            (records_of (older ++ (newest ∷ [])))
            end
            (length newest.tail)
            (length bases)
            report
            w)
        (open_log (calm files now) opts)
unfolding open_log recover
open_log-Reopened {files = files} {now = now} {start = start} {end = end} {bases = bases} older
      newest opts sh small =
    let d = calm files now in
    Succeeds-on_disk remove_stale_temp_files _ _ d d 0 refl
      (remove_stale_temp_files-calm files now bases sh.listed)
      (Succeeds-on_disk list_segments _ _ d d (map name bases) refl
        (list_segments-calm files now start end bases (older ++ (newest ∷ [])) sh.listed sh.linked
          small)
        (recover_from-Reopened older newest opts sh small _ refl refl refl))
