-- ===== src/Wal/Recover.antt =====
-- Recovery, in pkg/wal/wal.go: from the files of the directory to the state of the log.
use go_wallib.Base.{
  ℕ, suc, ◌+◌, ◌-◌, ◌%◌, ◌^◌, max, Bool, true, false, not, Option, none, some, List, [], ◌∷◌, ◌++◌,
  length, take, drop, ltb, ◌==◌, ◌&&◌, if◌then◌else◌,
}
use mathlib.Core.List.{map}
use go_wallib.Errors.{
  Error, panicked, wal_corrupt, bad_magic, unknown_version, segment_corrupt, Result, ok, err,
}
use go_wallib.Exec.{Exec, pure, raise, gets, lift, modify, discard, on_error, ◌>>=◌, ◌>>◌}
use go_wallib.Disk.{Disk, sync_dir, remove_file}
use go_wallib.Segment.Name.{parse_base_lsn}
use go_wallib.Segment.Dir.{list_segments, remove_stale_temp_files}
use go_wallib.Segment.Files.{
  Segment, ScanResult, create, open_segment, close, scan_segment, truncate_to, pred_lsn,
}
use go_wallib.Wal.{Wal, Options, on_disk, succ_lsn}

pub record OpenedSeg : Type 0 where
  pub seg : Segment
  pub res : ScanResult

pub record RecoveryReport : Type 0 where
  pub entries_recovered : ℕ
  pub report_first : ℕ
  pub report_last : ℕ
  pub bytes_truncated : ℕ
  pub segments_removed : ℕ

abbrev pub empty_report : RecoveryReport
empty_report = record {
  entries_recovered = 0;
  report_first = 0;
  report_last = 0;
  bytes_truncated = 0;
  segments_removed = 0;
}

unfoldable pub close_all : List OpenedSeg → Exec Disk Unit
close_all [] = pure tt
close_all (o ∷ os) = discard (close o.seg) >>= λ _. close_all os

-- The segment package's structural errors all mean a corrupt log.
unfoldable pub join_corrupt : Error → Error
join_corrupt bad_magic = wal_corrupt
join_corrupt unknown_version = wal_corrupt
join_corrupt segment_corrupt = wal_corrupt
join_corrupt e = e

abbrev pub map_error : {A : Type 0} → (Error → Error) → Exec Disk A → Exec Disk A
map_error f m d = let (r, d') = m d in elim r [ ok a ↦ (ok a, d') | err e ↦ (err (f e), d') ]

-- The report counts a removal before the directory is synced.
unfoldable pub remove_opened : RecoveryReport → OpenedSeg → Exec Disk RecoveryReport
remove_opened report opened = do
  close opened.seg
  remove_file opened.seg.seg_name
  sync_dir
  pure (record report { segments_removed = report.segments_removed + 1 })

unfoldable pub remove_each : RecoveryReport → List OpenedSeg → Exec Disk RecoveryReport
unfolding remove_opened
remove_each report [] = pure report
remove_each report (o ∷ os) = remove_opened report o >>= λ report'. remove_each report' os

-- A base below the expected one is an interrupted cut: everything collected is superseded. A base
-- above it is a gap.
unfoldable pub reconcile_boundary :
    RecoveryReport → List OpenedSeg → Segment → ℕ → Exec Disk RecoveryReport
unfolding remove_each
reconcile_boundary report segments seg expected_base =
    if ltb expected_base seg.base_lsn
    then (discard (close seg) >> (close_all segments >> raise wal_corrupt))
    else on_error (remove_each report segments) (discard (close seg))

abbrev pub parse_path : List ℕ → Result ℕ
parse_path path = elim (parse_base_lsn path) [ none ↦ err wal_corrupt | some base ↦ ok base ]

-- What a round of the loop leaves: the report, the segments collected so far and the base expected
-- next.
pub record Progress : Type 0 where
  pub report : RecoveryReport
  pub segments : List OpenedSeg
  pub expected_base : ℕ

abbrev pub keep_or_reconcile : Bool → Progress → Segment → Exec Disk Progress
keep_or_reconcile is_first p seg =
    if not is_first && not (seg.base_lsn == p.expected_base)
    then (do
      report ← reconcile_boundary p.report p.segments seg p.expected_base
      pure (record p { report = report; segments = [] }))
    else pure p

abbrev pub refuse_damage : Bool → Progress → OpenedSeg → Exec Disk Unit
refuse_damage is_last p opened = elim opened.res.scan_err [
  | none ↦ pure tt
  | some e ↦
      if is_last
      then pure tt
      else (discard (close opened.seg) >> (close_all p.segments >> raise wal_corrupt))
]

unfoldable pub open_and_scan_one : Bool → Bool → ℕ → List ℕ → Progress → Exec Disk Progress
unfolding reconcile_boundary close_all join_corrupt
open_and_scan_one is_first is_last max_record_size path p = do
  base ← on_error (lift (parse_path path)) (close_all p.segments)
  seg ← on_error (map_error join_corrupt (open_segment base)) (close_all p.segments)
  p' ← keep_or_reconcile is_first p seg
  scanned ← scan_segment seg max_record_size
  let opened : OpenedSeg = record { seg = scanned.1; res = scanned.0 }
  refuse_damage is_last p' opened
  pure (record p' {
    segments = p'.segments ++ (opened ∷ []);
    expected_base = (seg.base_lsn + scanned.0.records) % 2 ^ 64;
  })

unfoldable pub open_and_scan_from : Bool → ℕ → List (List ℕ) → Progress → Exec Disk Progress
unfolding open_and_scan_one
open_and_scan_from is_first max_record_size [] p = pure p
open_and_scan_from is_first max_record_size (path ∷ []) p =
    open_and_scan_one is_first true max_record_size path p
open_and_scan_from is_first max_record_size (path ∷ next ∷ paths) p =
    open_and_scan_one is_first false max_record_size path p >>= λ p'.
    open_and_scan_from false max_record_size (next ∷ paths) p'

unfoldable pub open_and_scan_segments :
    ℕ → List (List ℕ) → RecoveryReport → Exec Disk (RecoveryReport × List OpenedSeg)
unfolding open_and_scan_from
open_and_scan_segments max_record_size paths report = do
  p ←
      open_and_scan_from true max_record_size paths
        (record { report = report; segments = []; expected_base = 0 })
  pure (p.report, p.segments)

-- The torn end of the last segment is cut off; the other segments are passed over.
unfoldable pub truncate_last : RecoveryReport → OpenedSeg → Exec Disk (RecoveryReport × OpenedSeg)
truncate_last report o = elim o.res.scan_err [
  | none ↦ pure (report, o)
  | some e ↦ (do
    seg ← truncate_to o.seg o.res.valid_end
    pure (record report { bytes_truncated = o.seg.size - o.res.valid_end }, record o { seg = seg }))
]

unfoldable pub truncate_torn_tail :
    RecoveryReport → List OpenedSeg → Exec Disk (RecoveryReport × List OpenedSeg)
unfolding truncate_last
truncate_torn_tail report [] = raise panicked
truncate_torn_tail report (o ∷ []) = truncate_last report o >>= λ t. pure (t.0, t.1 ∷ [])
truncate_torn_tail report (o ∷ next ∷ os) =
    truncate_torn_tail report (next ∷ os) >>= λ t. pure (t.0, o ∷ t.1)

-- The first LSN (a base), the last LSN and the number of records; 0, 0, 0 if there is none.
pub record Bounds : Type 0 where
  pub first : ℕ
  pub last : ℕ
  pub total : ℕ

unfoldable pub bounds_from : Bounds → List OpenedSeg → Bounds
bounds_from b [] = b
bounds_from b (o ∷ os) =
    bounds_from
      (if o.res.records == 0 then b else record {
        first = if b.first == 0 then o.seg.base_lsn else b.first;
        last = o.res.scan_last;
        total = b.total + o.res.records;
      })
      os

unfoldable pub compute_bounds : List OpenedSeg → Bounds
unfolding bounds_from
compute_bounds segments = bounds_from (record { first = 0; last = 0; total = 0 }) segments

-- How many segments stand up to and with the last one that has records; all, if none has.
unfoldable pub nonempty_prefix : List OpenedSeg → Option ℕ
nonempty_prefix [] = none
nonempty_prefix (o ∷ os) = elim (nonempty_prefix os) [
  | some n ↦ some (suc n)
  | none ↦ if ltb 0 o.res.records then some 1 else none
]

abbrev pub kept_count : List OpenedSeg → ℕ
kept_count segments = elim (nonempty_prefix segments) [ none ↦ length segments | some n ↦ n ]

-- From the last one down.
abbrev pub backwards : List OpenedSeg → List OpenedSeg
backwards [] = []
backwards (o ∷ os) = backwards os ++ (o ∷ [])

abbrev pub collapse :
    RecoveryReport → List OpenedSeg → ℕ → Exec Disk (RecoveryReport × List OpenedSeg)
collapse report segments last_lsn =
    if last_lsn == 0
    then (remove_each report (drop 1 segments) >>= λ report'. pure (report', take 1 segments))
    else pure (report, segments)

unfoldable pub prune_empty_trailing :
    RecoveryReport → List OpenedSeg → ℕ → Exec Disk (RecoveryReport × List OpenedSeg)
prune_empty_trailing report segments last_lsn = do
  report' ← remove_each report (backwards (drop (kept_count segments) segments))
  collapse report' (take (kept_count segments) segments) last_lsn

-- Every segment but the last is closed; the last is the active one.
unfoldable pub close_sealed : List OpenedSeg → Exec Disk Segment
close_sealed [] = raise panicked
close_sealed (o ∷ []) = pure o.seg
close_sealed (o ∷ next ∷ os) = close o.seg >>= λ _. close_sealed (next ∷ os)

abbrev pub seg_bases : List OpenedSeg → List ℕ
seg_bases = map (λ (o : OpenedSeg). o.seg.base_lsn)

unfoldable pub install_state : List OpenedSeg → ℕ → ℕ → Exec Wal Unit
unfolding close_sealed
install_state segments first_lsn last_lsn = do
  active ← on_disk (close_sealed segments)
  modify (λ w. record w {
    segment_bases = seg_bases segments;
    active = some active;
    first_lsn = first_lsn;
    last_lsn = max last_lsn (pred_lsn active.base_lsn);
    next_lsn = max (succ_lsn last_lsn) active.base_lsn;
  })

unfoldable pub init_empty_log : Exec Wal RecoveryReport
init_empty_log = do
  seg ← on_disk (create 1)
  modify (λ w. record w { active = some seg; segment_bases = 1 ∷ []; next_lsn = 1 })
  pure empty_report

unfoldable pub recover_segments : List (List ℕ) → Exec Wal RecoveryReport
unfolding open_and_scan_segments truncate_torn_tail compute_bounds prune_empty_trailing
    install_state
recover_segments paths = do
  limit ← gets (λ w. w.opts.max_record_size)
  scanned ← on_disk (open_and_scan_segments limit paths empty_report)
  repaired ← on_disk (on_error (truncate_torn_tail scanned.0 scanned.1) (close_all scanned.1))
  let bounds = compute_bounds repaired.1
  let report : RecoveryReport = record (repaired.0) {
    entries_recovered = bounds.total;
    report_first = bounds.first;
    report_last = bounds.last;
  }
  pruned ← on_disk (prune_empty_trailing report repaired.1 bounds.last)
  install_state pruned.1 bounds.first bounds.last
  pure pruned.0

abbrev pub recover_from : List (List ℕ) → Exec Wal RecoveryReport
recover_from [] = init_empty_log
recover_from (path ∷ paths) = recover_segments (path ∷ paths)

unfoldable pub recover : Exec Wal RecoveryReport
unfolding recover_segments init_empty_log
recover = do on_disk remove_stale_temp_files; paths ← on_disk list_segments; recover_from paths

-- `Open`: a WAL over a directory, or the error that recovery met.
unfoldable pub open_log : Disk → Options → Result RecoveryReport × Wal
unfolding recover
open_log disk opts = recover (record {
  disk = disk;
  active = none;
  segment_bases = [];
  pending_waiters = [];
  notified = [];
  next_lsn = 0;
  first_lsn = 0;
  last_lsn = 0;
  is_closed = false;
  close_err = none;
  opts = opts;
})
