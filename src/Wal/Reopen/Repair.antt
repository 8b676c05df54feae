-- ===== src/Wal/Reopen/Repair.antt =====
-- The second part of recovery: the torn end of the last segment is cut off.
use go_wallib.Base.{
  ℕ, zero, suc, ◌+◌, ◌-◌, ◌≤◌, ◌≡◌, refl, sym, ap, ◌∙◌, none, some, List, [], ◌∷◌, ◌++◌, min,
  replicate, append-nil, append_assoc, arith, length, get_elem?, set, take, length-append,
  take-append, inl, inr, ◌⊎◌,
}
use mathlib.Core.Path.{subst}
use go_wallib.Errors.{Error, ok, torn}
use go_wallib.Exec.{Exec, ◌>>=◌, pure, modify, bind_run}
use go_wallib.Record.RoundTrip.{frames}
use go_wallib.Disk.{Disk, File, Handle, truncate_file, sync_file, next_fault, file_content}
use go_wallib.Segment.Header.{header_size}
use go_wallib.Segment.Files.{Segment, truncate_to}
use go_wallib.Wal.Recover.{RecoveryReport, OpenedSeg, truncate_last, truncate_torn_tail}
use go_wallib.Wal.Reader.Still.{Stored, calm}
use go_wallib.Wal.Contents.Files.{find-set, get_elem?-set}
use go_wallib.Wal.Contents.Chain.{Linked-same, Kept-set, linked_names-set}
use go_wallib.Wal.Contents.Standing.{All-both, Stands-set, map-snoc}
use go_wallib.Wal.Contents.Calm.{synced_file, change-calm, sync_file-calm}
use go_wallib.Wal.Reopen.Shelf.{Shelf, Ends, Ends-Stops, tail_err}
use go_wallib.Wal.Reopen.Segments.{scanned}

set-set : {A : Type 0} (xs : List A) (i : ℕ) (y z : A) → set (set xs i y) i z ≡ set xs i z
set-set [] i y z = refl
set-set (x ∷ xs) zero y z = refl
set-set (x ∷ xs) (suc i) y z = ap (λ l. x ∷ l) (set-set xs i y z)

abbrev with_tail : Stored → List ℕ → Stored
with_tail s tail = record s { tail = tail }

-- The last segment file is changed behind its records.
pub Shelf-set :
    {files : List File} {now start end max_rec : ℕ} {bases : List ℕ} {older : List Stored}
    {newest : Stored} (sh : Shelf files now start end max_rec bases older newest) (g : File)
    (tail : List ℕ)
    → g.linked ≡ sh.file.linked
    → g.content ≡ newest.header ++ (frames newest.recs ++ tail)
    → Ends max_rec tail
    → length g.content ≤ g.synced
    → Shelf (set files newest.handle g) now start end max_rec bases older (with_tail newest tail)
Shelf-set {files} {now} {start} {end} {max_rec} {bases} {older} {newest} sh g tail l c ends keeps =
    record {
      file = g;
      present = get_elem?-set files newest.handle sh.file g sh.present;
      layout = c;
      apart = sh.apart;
      named =
          map-snoc (λ (s : Stored). s.seg_name) older _
          ∙ sym (map-snoc (λ (s : Stored). s.seg_name) older newest)
          ∙ sh.named;
      older_stand =
          All-both older
            (λ s ne st. Stands-set files now max_rec newest.handle sh.file g s sh.present l ne st)
            sh.apart sh.older_stand;
      newest_stands = record {
        found =
            find-set newest.seg_name files newest.handle sh.file g sh.present l
            ∙ sh.newest_stands.found;
        content = ap file_content (get_elem?-set files newest.handle sh.file g sh.present) ∙ c;
        header_length = sh.newest_stands.header_length;
        fits = sh.newest_stands.fits;
        stops = Ends-Stops max_rec tail ends;
      };
      linked = Linked-same start end bases older newest (with_tail newest tail) sh.linked refl refl;
      listed = linked_names-set files newest.handle sh.file g sh.present l ∙ sh.listed;
      full = sh.full;
      first = sh.first;
      cleaned = sh.cleaned;
      ends = ends;
      kept = All-both older (λ s ne k. Kept-set files newest.handle g s ne k) sh.apart sh.kept;
      flushed = keeps;
    }

-- The last segment when its torn end is cut off.
abbrev pub repaired : ℕ → Stored → OpenedSeg
repaired b s = record (scanned b s) {
  seg = record ((scanned b s).seg) { size = header_size + length (frames s.recs) };
}

abbrev truncated : ℕ → File → File
truncated size f = record f {
  content = take size (f.content ++ replicate (size - length f.content) 0);
  synced = min f.synced size;
}

truncate_file-calm :
    (files : List File) (now : ℕ) (h : Handle) (size : ℕ) (f : File)
    → get_elem? files h ≡ some f
    → truncate_file h size (calm files now) ≡ (ok tt, calm (set files h (truncated size f)) now)
unfolding truncate_file next_fault ◌>>=◌ modify
truncate_file-calm files now h size f e =
    ap (λ d. (ok tt, d)) (change-calm files now h f (truncated size) e)

truncate_to-calm :
    (files : List File) (now : ℕ) (seg : Segment) (size : ℕ) (f : File)
    → get_elem? files seg.file ≡ some f
    → truncate_to seg size (calm files now) ≡ (
      ok (record seg { size = size }),
      calm (set files seg.file (synced_file (truncated size f))) now,
    )
unfolding truncate_to pure
truncate_to-calm files now seg size f e =
    let cut : List File = set files seg.file (truncated size f) in
    let end : List File = set cut seg.file (synced_file (truncated size f)) in
    bind_run (truncate_file seg.file size) _ (calm files now) (calm cut now) (ok tt)
      (truncate_file-calm files now seg.file size f e)
    ∙ bind_run (sync_file seg.file) _ (calm cut now) (calm end now) (ok tt) (
        sync_file-calm cut now seg.file (truncated size f)
          (get_elem?-set files seg.file f (truncated size f) e))
    ∙ ap (λ fs. (ok (record seg { size = size }), calm fs now)) (set-set files seg.file _ _)

truncate_last-some :
    (report : RecoveryReport) (o : OpenedSeg) (x : Error) (d d' : Disk) (seg : Segment)
    → o.res.scan_err ≡ some x
    → truncate_to o.seg o.res.valid_end d ≡ (ok seg, d')
    → truncate_last report o d ≡ (
      ok (record report { bytes_truncated = o.seg.size - o.res.valid_end }, record o { seg = seg }),
      d',
    )
unfolding truncate_last pure
truncate_last-some report o x d d' seg e r =
    let torn_report : RecoveryReport = record report {
      bytes_truncated = o.seg.size - o.res.valid_end;
    } in
    ap
      (λ s.
        (elim s as (λ _. Exec Disk (RecoveryReport × OpenedSeg)) [
          | none ↦ pure (report, o)
          | some y ↦ truncate_to o.seg o.res.valid_end >>= λ seg'.
              pure (torn_report, record o { seg = seg' })
        ])
          d)
      e
    ∙ bind_run (truncate_to o.seg o.res.valid_end) _ d d' (ok seg) r

Nil-cases : (tail : List ℕ) → (tail ≡ []) ⊎ (tail_err tail ≡ some torn)
Nil-cases [] = inl refl
Nil-cases (x ∷ xs) = inr refl

-- How the repair of the last segment ends.
pub record Repaired (files : List File) (now start end max_rec : ℕ) (bases : List ℕ)
    (older : List Stored) (newest : Stored) (b : ℕ) (report : RecoveryReport) : Type 0 where
  pub files' : List File
  pub run : truncate_last report (scanned b newest) (calm files now) ≡ (
    ok (record report { bytes_truncated = length newest.tail }, repaired b newest),
    calm files' now,
  )
  pub shelf : Shelf files' now start end max_rec bases older (record newest { tail = [] })

module _ {files : List File} {now start end max_rec : ℕ} {bases : List ℕ} {older : List Stored}
    {newest : Stored} (sh : Shelf files now start end max_rec bases older newest) where
  abbrev cut_file : File
  cut_file = synced_file (truncated (header_size + length (frames newest.recs)) sh.file)

  cut_file-content : cut_file.content ≡ newest.header ++ (frames newest.recs ++ [])
  cut_file-content =
      let size = header_size + length (frames newest.recs) in
      let fill : List ℕ = replicate (size - length sh.file.content) 0 in
      ap (λ l. take size (l ++ fill))
        (sh.layout ∙ sym (append_assoc newest.header (frames newest.recs) newest.tail))
      ∙ ap (take size) (append_assoc (newest.header ++ frames newest.recs) newest.tail fill)
      ∙ take-append size (newest.header ++ frames newest.recs) (newest.tail ++ fill) (
          omega (
            arith,
            length-append newest.header (frames newest.recs),
            sh.newest_stands.header_length,
          ))
      ∙ ap (λ l. newest.header ++ l) (sym (append-nil (frames newest.recs)))

  truncate_last-none :
      (b : ℕ) (report : RecoveryReport)
      → newest.tail ≡ []
      → truncate_last report (scanned b newest) (calm files now)
        ≡ (ok (report, scanned b newest), calm files now)
  unfolding truncate_last pure
  truncate_last-none b report e = rw e refl

  truncate_last-torn :
      (b : ℕ) (report : RecoveryReport)
      → tail_err newest.tail ≡ some torn
      → truncate_last report (scanned b newest) (calm files now) ≡ (
        ok (record report { bytes_truncated = length newest.tail }, repaired b newest),
        calm (set files newest.handle cut_file) now,
      )
  truncate_last-torn b report e =
      let o = scanned b newest in
      truncate_last-some report o torn (calm files now) _ _ e
        (truncate_to-calm files now o.seg o.res.valid_end sh.file sh.present)
      ∙ ap
          (λ n. (
            ok (record report { bytes_truncated = n }, repaired b newest),
            calm (set files newest.handle cut_file) now,
          ))
          (omega (arith, length-append (frames newest.recs) newest.tail))

  -- The torn end of the last segment, if it has one, is cut off, and the report says how long it was.
  pub repair :
      (b : ℕ) (report : RecoveryReport)
      → report.bytes_truncated ≡ 0
      → Repaired files now start end max_rec bases older newest b report
  repair b report none_yet = elim (Nil-cases newest.tail) [
    | inl e ↦ record {
      files' = files;
      run =
          truncate_last-none b report e
          ∙ ap
              (λ (x : ℕ × List ℕ). (
                ok (
                  record report { bytes_truncated = x.0 },
                  record (scanned b newest) {
                    seg = record ((scanned b newest).seg) { size = header_size + length x.1 };
                  },
                ),
                calm files now,
              ))
              (λ i. (
                (none_yet ∙ sym (ap length e)) i,
                (ap (λ t. frames newest.recs ++ t) e ∙ append-nil (frames newest.recs)) i,
              ));
      shelf =
          subst (λ t. Shelf files now start end max_rec bases older (record newest { tail = t })) e
            sh;
    }
    | inr e ↦ record {
      files' = set files newest.handle cut_file;
      run = truncate_last-torn b report e;
      shelf = Shelf-set sh cut_file [] refl cut_file-content (inl refl) (omega arith);
    }
  ]

-- The segments before the last one are passed over.
pub truncate_torn_tail-last :
    (report : RecoveryReport) (os : List OpenedSeg) (o : OpenedSeg) (d d' : Disk)
    (t : RecoveryReport × OpenedSeg)
    → truncate_last report o d ≡ (ok t, d')
    → truncate_torn_tail report (os ++ (o ∷ [])) d ≡ (ok (t.0, os ++ (t.1 ∷ [])), d')
unfolding truncate_torn_tail pure
truncate_torn_tail-last report [] o d d' t e = bind_run (truncate_last report o) _ d d' (ok t) e
truncate_torn_tail-last report (q ∷ []) o d d' t e =
    bind_run (truncate_torn_tail report (o ∷ [])) _ d d' (ok (t.0, t.1 ∷ []))
      (truncate_torn_tail-last report [] o d d' t e)
truncate_torn_tail-last report (q ∷ q' ∷ os) o d d' t e =
    bind_run (truncate_torn_tail report (q' ∷ os ++ (o ∷ []))) _ d d'
      (ok (t.0, q' ∷ os ++ (t.1 ∷ []))) (truncate_torn_tail-last report (q' ∷ os) o d d' t e)
