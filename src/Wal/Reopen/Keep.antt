-- ===== src/Wal/Reopen/Keep.antt =====
-- Which segments prune keeps, and the removal of one.
use go_wallib.Base.{
  ℕ, suc, ◌+◌, ◌≡◌, refl, sym, ap, ◌∙◌, true, false, none, some, List, [], ◌∷◌, ◌++◌, length, take,
  drop, take-append, drop-append, set, get_elem?, ltb, ◌==◌,
}
use go_wallib.Errors.{ok}
use go_wallib.Exec.{◌>>=◌, pure, bind_run}
use go_wallib.Disk.{Disk, File, Handle, find, remove_file, sync_dir, next_fault}
use go_wallib.Segment.Files.{close}
use go_wallib.Wal.Recover.{
  OpenedSeg, RecoveryReport, remove_opened, remove_each, nonempty_prefix, kept_count, backwards,
  collapse, prune_empty_trailing,
}
use go_wallib.Wal.Reader.Still.{calm}
use go_wallib.Wal.Contents.Calm.{change-calm, close_file-calm, sync_dir-calm}

module _ (o : OpenedSeg) where
  pub nonempty_prefix-records :
      (os : List OpenedSeg)
      → ltb 0 o.res.records ≡ true
      → nonempty_prefix (os ++ (o ∷ [])) ≡ some (suc (length os))
  unfolding nonempty_prefix
  nonempty_prefix-records [] more = rw (more, nonempty_prefix) refl
  nonempty_prefix-records (q ∷ os) more = rw (nonempty_prefix-records os more, nonempty_prefix) refl

  pub nonempty_prefix-empty :
      (os : List OpenedSeg)
      → ltb 0 o.res.records ≡ false
      → nonempty_prefix (os ++ (o ∷ [])) ≡ nonempty_prefix os
  unfolding nonempty_prefix
  nonempty_prefix-empty [] none_there = rw (none_there, nonempty_prefix) refl
  nonempty_prefix-empty (q ∷ os) none_there =
      rw (nonempty_prefix-empty os none_there, nonempty_prefix) refl

-- How many segments are kept is known.
pub prune-kept :
    (report report' : RecoveryReport) (kept gone : List OpenedSeg) (last : ℕ) (d d' : Disk)
    → kept_count (kept ++ gone) ≡ length kept
    → remove_each report (backwards gone) d ≡ (ok report', d')
    → prune_empty_trailing report (kept ++ gone) last d ≡ collapse report' kept last d'
unfolding prune_empty_trailing
prune-kept report report' kept gone last d d' count removed =
    let n = kept_count (kept ++ gone) in
    let front : take n (kept ++ gone) ≡ kept = take-append n kept gone (sym count) in
    let back : drop n (kept ++ gone) ≡ gone = drop-append n kept gone (sym count) in
    ap (λ l. (remove_each report (backwards l) >>= λ r. collapse r (take n (kept ++ gone)) last) d)
      back
    ∙ bind_run (remove_each report (backwards gone)) _ d d' (ok report') removed
    ∙ ap (λ l. collapse report' l last d') front

pub remove_each-none :
    (report : RecoveryReport) (d : Disk) → remove_each report [] d ≡ (ok report, d)
unfolding remove_each pure
remove_each-none report d = refl

pub collapse-records :
    (report : RecoveryReport) (l : List OpenedSeg) (last : ℕ) (d : Disk)
    → last == 0 ≡ false
    → collapse report l last d ≡ (ok (report, l), d)
unfolding pure
collapse-records report l last d e = rw e refl

pub collapse-one :
    (report : RecoveryReport) (o : OpenedSeg) (last : ℕ) (d : Disk)
    → last == 0 ≡ true
    → collapse report (o ∷ []) last d ≡ (ok (report, o ∷ []), d)
unfolding pure
collapse-one report o last d e =
    rw e (bind_run (remove_each report []) _ d d (ok report) (remove_each-none report d))

pub remove_file-calm :
    (files : List File) (now : ℕ) (n : List ℕ) (h : Handle) (f : File)
    → find n files ≡ some h
    → get_elem? files h ≡ some f
    → remove_file n (calm files now) ≡ (ok tt, calm (set files h (record f { linked = none })) now)
unfolding remove_file next_fault ◌>>=◌ find
remove_file-calm files now n h f found at =
    rw found (ap (λ d. (ok tt, d)) (change-calm files now h f (λ g. record g { linked = none }) at))

pub remove_opened-calm :
    (files : List File) (now : ℕ) (report : RecoveryReport) (o : OpenedSeg) (h : Handle) (f : File)
    → find o.seg.seg_name files ≡ some h
    → get_elem? files h ≡ some f
    → remove_opened report o (calm files now) ≡ (
      ok (record report { segments_removed = report.segments_removed + 1 }),
      calm (set files h (record f { linked = none })) now,
    )
unfolding remove_opened pure
remove_opened-calm files now report o h f found at =
    let d = calm files now in
    let d' = calm (set files h (record f { linked = none })) now in
    bind_run (close o.seg) _ d d (ok tt) (unfold close in close_file-calm files now o.seg.file)
    ∙ bind_run (remove_file o.seg.seg_name) _ d d' (ok tt)
        (remove_file-calm files now o.seg.seg_name h f found at)
    ∙ bind_run sync_dir _ d' d' (ok tt)
        (sync_dir-calm (set files h (record f { linked = none })) now)
