-- ===== src/Wal/Reopen/Gap.antt =====
-- A gap between two segments (pkg/wal/wal.go: openAndScanSegments, reconcileBoundary).
use go_wallib.Base.{
  ℕ, ◌+◌, ◌^◌, ◌<◌, ◌≡◌, refl, ap, ◌∙◌, Bool, true, false, some, List, [], ◌∷◌, ◌++◌, arith, length,
  length-append, inl, inr, ◌⊎◌, All, ◌==◌, lt→ltb,
}
use mathlib.Core.List.{map}
use go_wallib.Errors.{Result, ok, err, wal_corrupt}
use go_wallib.Exec.{Exec, gets, ◌>>=◌, pure, raise, discard, on_error, bind_run}
use go_wallib.Disk.{Disk, File, Handle, find, content_of, linked_names}
use go_wallib.Segment.Header.{header_size}
use go_wallib.Segment.Name.{name}
use go_wallib.Segment.Files.{Segment, new_header, open_segment, close}
use go_wallib.Segment.Dir.{remove_stale_temp_files, list_segments}
use go_wallib.Segment.Listed.{Sorted}
use go_wallib.Wal.{Wal, Options, on_disk}
use go_wallib.Wal.Reopen.Listing.{file_of, remove_stale_temp_files-calm, list_segments-ordered}
use go_wallib.Wal.Recover
use go_wallib.Wal.Recover.{
  RecoveryReport, recover, recover_from, recover_segments, open_log, open_and_scan_segments,
  OpenedSeg, keep_or_reconcile, reconcile_boundary, close_all, open_and_scan_one,
  open_and_scan_from,
}
use go_wallib.Wal.Reader.Still.{Stored, Stands, calm}
use go_wallib.Wal.Contents.Chain.{Linked, Linked-le}
use go_wallib.Wal.Contents.Calm.{on_error-ok, close_file-calm}
use go_wallib.Wal.Reopen.Segments.{fresh_segment, lift_lem, open_segment-calm}
use go_wallib.Wal.Reopen.Collect.{
  parse_path-name, map_error-ok, Begins, collected, open_and_scan_one-calm,
}

module _ (files : List File) (now : ℕ) where
  discard-close-calm :
      (seg : Segment) → discard (close seg) (calm files now) ≡ (ok tt, calm files now)
  unfolding discard close
  discard-close-calm seg =
      ap (λ (x : Result (Unit {0}) × Disk). (ok tt, x.1)) (close_file-calm files now seg.file)

  close_all-calm : (os : List OpenedSeg) → close_all os (calm files now) ≡ (ok tt, calm files now)
  unfolding close_all pure
  close_all-calm [] = refl
  close_all-calm (o ∷ os) =
      bind_run (discard (close o.seg)) _ (calm files now) (calm files now) (ok tt)
        (discard-close-calm o.seg)
      ∙ close_all-calm os

  reconcile_boundary-above :
      (report : Recover.RecoveryReport) (os : List OpenedSeg) (seg : Segment) (expected : ℕ)
      → expected < seg.base_lsn
      → reconcile_boundary report os seg expected (calm files now)
        ≡ (err wal_corrupt, calm files now)
  unfolding reconcile_boundary raise
  reconcile_boundary-above report os seg expected lt =
      rw (lt→ltb expected seg.base_lsn lt, reconcile_boundary)
        (bind_run (discard (close seg)) _ (calm files now) (calm files now) (ok tt)
            (discard-close-calm seg)
          ∙ bind_run (close_all os) _ (calm files now) (calm files now) (ok tt) (close_all-calm os))

  keep_or_reconcile-above :
      (p : Recover.Progress) (seg : Segment)
      → p.expected_base < seg.base_lsn
      → keep_or_reconcile false p seg (calm files now) ≡ (err wal_corrupt, calm files now)
  keep_or_reconcile-above p seg lt =
      let other : seg.base_lsn == p.expected_base ≡ false = ground arith in
      rw other (
        bind_run (reconcile_boundary p.report p.segments seg p.expected_base) _ (calm files now)
          (calm files now) (err wal_corrupt)
          (reconcile_boundary-above p.report p.segments seg p.expected_base lt))

  module _ (max_rec b time : ℕ) (h : Handle) (rest : List ℕ) (found : find (name b) files ≡ some h)
      (content : content_of h (calm files now) ≡ new_header b time ++ rest)
      (small : b < 2 ^ 64) where
    open_and_scan_one-gap :
        (is_last : Bool) (p : Recover.Progress)
        → p.expected_base < b
        → open_and_scan_one false is_last max_rec (name b) p (calm files now)
          ≡ (err wal_corrupt, calm files now)
    unfolding open_and_scan_one
    open_and_scan_one-gap is_last p lt =
        let d = calm files now in
        let seg = fresh_segment b h (header_size + length rest) in
        bind_run (on_error _ _) _ d d (ok b)
          (on_error-ok _ _ d d b (lift_lem _ _ d (parse_path-name b small)))
        ∙ bind_run (on_error _ _) _ d d (ok seg) (
            on_error-ok _ _ d d seg (
              map_error-ok (open_segment b) d seg
                (open_segment-calm files now b time h rest found content small)))
        ∙ bind_run (keep_or_reconcile false p seg) _ d d (err wal_corrupt)
            (keep_or_reconcile-above p seg lt)

    open_from-cons :
        (is_first : Bool) (path : List ℕ) (paths : List (List ℕ)) (p : Recover.Progress)
        → 0 < length paths
        → open_and_scan_from is_first max_rec (path ∷ paths) p (calm files now)
          ≡ (open_and_scan_one is_first false max_rec path p >>= λ p'.
                open_and_scan_from false max_rec paths p')
              (calm files now)
    unfolding open_and_scan_from
    open_from-cons is_first path [] p lt = absurd (omega arith)
    open_from-cons is_first path (n ∷ ns) p lt = refl

    at_gap :
        (ns : List (List ℕ)) (p : Recover.Progress)
        → p.expected_base < b
        → open_and_scan_from false max_rec (name b ∷ ns) p (calm files now)
          ≡ (err wal_corrupt, calm files now)
    unfolding open_and_scan_from
    at_gap [] p lt = open_and_scan_one-gap true p lt
    at_gap (n ∷ ns) p lt =
        bind_run (open_and_scan_one false false max_rec (name b) p) _ (calm files now)
          (calm files now) (err wal_corrupt) (open_and_scan_one-gap false p lt)

    open_and_scan_from-gap :
        (is_first : Bool) (p : Recover.Progress) (start mid : ℕ) (bases : List ℕ)
        (segs : List Stored) (ns : List (List ℕ))
        → Linked start bases segs mid
        → map (λ (s : Stored). s.seg_name) segs ≡ map name bases
        → All (Stands (calm files now) max_rec) segs
        → All (λ (s : Stored). s.tail ≡ []) segs
        → (is_first ≡ false) ⊎ (0 < length segs)
        → Begins is_first p start
        → mid < b
        → open_and_scan_from is_first max_rec (map name bases ++ (name b ∷ ns)) p (calm files now)
          ≡ (err wal_corrupt, calm files now)
    open_and_scan_from-gap true p start mid [] [] ns linked named st cleaned (inl e) begins gap =
        absurd (cc e)
    open_and_scan_from-gap true p start mid [] [] ns linked named st cleaned (inr e) begins gap =
        absurd (omega arith)
    open_and_scan_from-gap false p start mid [] [] ns linked named st cleaned more (inl e) gap =
        absurd (cc e)
    open_and_scan_from-gap false p start mid [] [] ns linked named st cleaned more (inr e) gap =
        at_gap ns p (omega (arith, e, linked))
    open_and_scan_from-gap is_first p start mid [] (s ∷ segs) ns linked named st cleaned more begins
          gap =
        absurd (linked tt)
    open_and_scan_from-gap is_first p start mid (c ∷ bases) [] ns linked named st cleaned more
          begins gap =
        absurd (linked tt)
    open_and_scan_from-gap is_first p start mid (c ∷ bases) (s ∷ segs) ns linked named st cleaned
          more begins gap =
        let d = calm files now in
        let le = Linked-le (start + length s.recs) mid bases segs (linked.3) in
        let first : s.seg_name ≡ name c = cc named in
        let others : map (λ (s : Stored). s.seg_name) segs ≡ map name bases = cc named in
        open_from-cons is_first (name c) (map name bases ++ (name b ∷ ns)) p
          (omega (arith, length-append (map name bases) (name b ∷ ns)))
        ∙ ap
            (λ k.
              (open_and_scan_one is_first false max_rec (name k) p >>= λ p'.
              open_and_scan_from false max_rec (map name bases ++ (name b ∷ ns)) p')
                d)
            linked.0
        ∙ bind_run (open_and_scan_one is_first false max_rec (name start) p) _ d d _ (
            open_and_scan_one-calm files now max_rec is_first false p start s linked.1
              (first ∙ ap name linked.0) st.0 (inl cleaned.0) begins (inl cleaned.0) (omega arith))
        ∙ open_and_scan_from-gap false (collected p start s) (start + length s.recs) mid bases segs
            ns (linked.3) others st.1 cleaned.1 (inl refl) (inr refl) gap

pub map-append : (f : ℕ → List ℕ) (xs ys : List ℕ) → map f (xs ++ ys) ≡ map f xs ++ map f ys
map-append f [] ys = refl
map-append f (x ∷ xs) ys = ap (λ l. f x ∷ l) (map-append f xs ys)

recover_from-cons :
    (n : List ℕ) (ns : List (List ℕ)) → recover_from (n ∷ ns) ≡ recover_segments (n ∷ ns)
recover_from-cons n ns = refl

on_disk-same :
    {A : Type 0} (m : Exec Disk A) (w : Wal) (d : Disk) (r : Result A)
    → w.disk ≡ d
    → m d ≡ (r, d)
    → on_disk m w ≡ (r, record w { disk = d })
unfolding on_disk
on_disk-same m w d r e run =
    ap (λ x. ((m x).0, record w { disk = (m x).1 })) e
    ∙ ap (λ (x : Result _ × Disk). (x.0, record w { disk = x.1 })) run

recover_segments-gap :
    (paths : List (List ℕ)) (w : Wal) (d : Disk)
    → w.disk ≡ d
    → ((p : Recover.Progress)
        → open_and_scan_from true w.opts.max_record_size paths p d ≡ (err wal_corrupt, d))
    → recover_segments paths w ≡ (err wal_corrupt, record w { disk = d })
unfolding recover_segments open_and_scan_segments gets
recover_segments-gap paths w d e gap =
    bind_run (gets (λ (x : Wal). x.opts.max_record_size)) _ w w (ok w.opts.max_record_size) refl
    ∙ bind_run (on_disk _) _ w (record w { disk = d }) (err wal_corrupt)
        (on_disk-same _ w d (err wal_corrupt) e (
          bind_run (open_and_scan_from true w.opts.max_record_size paths _) _ d d (err wal_corrupt)
            (gap _)))

recover_from-append :
    (bases bs : List ℕ) (b : ℕ)
    → recover_from (map name (bases ++ (b ∷ bs)))
      ≡ recover_segments (map name bases ++ (name b ∷ map name bs))
recover_from-append [] bs b = refl
recover_from-append (c ∷ bases) bs b =
    ap (λ l. recover_segments (name c ∷ l)) (map-append name bases (b ∷ bs))

recover-gap :
    (w : Wal) (d : Disk) (bases bs : List ℕ) (b : ℕ)
    → w.disk ≡ d
    → remove_stale_temp_files d ≡ (ok 0, d)
    → list_segments d ≡ (ok (map name (bases ++ (b ∷ bs))), d)
    → ((p : Recover.Progress)
        → open_and_scan_from true w.opts.max_record_size
            (map name bases ++ (name b ∷ map name bs))
            p
            d
          ≡ (err wal_corrupt, d))
    → recover w ≡ (err wal_corrupt, record w { disk = d })
unfolding recover
recover-gap w d bases bs b e cleaned listed gap =
    let w1 : Wal = record w { disk = d } in
    bind_run (on_disk remove_stale_temp_files) _ w w1 (ok 0) (on_disk-same _ w d (ok 0) e cleaned)
    ∙ bind_run (on_disk list_segments) _ w1 w1 (ok (map name (bases ++ (b ∷ bs))))
        (on_disk-same _ w1 d (ok (map name (bases ++ (b ∷ bs)))) refl listed)
    ∙ ap (λ m. m w1) (recover_from-append bases bs b)
    ∙ recover_segments-gap (map name bases ++ (name b ∷ map name bs)) w1 d refl gap

-- A directory, in which nothing fails, lists whole segments that follow each other, the first with the
-- base `start` and the next record after them numbered `mid`, and then a segment whose header is sound
-- and whose base is above `mid`, whatever it and the files listed after it hold. `Open` then refuses
-- the log as corrupt, and leaves the disk, each file and what is synced of it, as it was.
pub open_log-refuses_gap :
    (files : List File) (now start mid b time : ℕ) (opts : Options) (bases bs : List ℕ)
    (segs : List Stored) (h : Handle) (rest : List ℕ)
    → Linked start bases segs mid
    → map (λ (s : Stored). s.seg_name) segs ≡ map name bases
    → All (Stands (calm files now) opts.max_record_size) segs
    → All (λ (s : Stored). s.tail ≡ []) segs
    → 0 < length segs
    → find (name b) files ≡ some h
    → content_of h (calm files now) ≡ new_header b time ++ rest
    → linked_names files ≡ map name (bases ++ (b ∷ bs))
    → Sorted 0 (map file_of (bases ++ (b ∷ bs)))
    → All (λ k. k < 2 ^ 64) (bases ++ (b ∷ bs))
    → b < 2 ^ 64
    → mid < b
    → ((open_log (calm files now) opts).0 ≡ err wal_corrupt)
      × ((open_log (calm files now) opts).1.disk ≡ calm files now)
unfolding open_log
open_log-refuses_gap files now start mid b time opts bases bs segs h rest linked named st cleaned
      more found content listed sorted small lt gap =
    let d = calm files now in
    let all = bases ++ (b ∷ bs) in
    let run =
      recover-gap _ d bases bs b refl (remove_stale_temp_files-calm files now all listed)
        (list_segments-ordered files now all listed sorted small)
        (λ p.
          open_and_scan_from-gap files now opts.max_record_size b time h rest found content lt true
            p start mid bases segs (map name bs) linked named st cleaned (inr more) (inl refl)
            gap) in
    (
      ap (λ (x : Result RecoveryReport × Wal). x.0) run,
      ap (λ (x : Result RecoveryReport × Wal). x.1.disk) run,
    )
