-- ===== src/Wal/Reopen/Prune.antt =====
-- The third part of recovery: a last segment that holds no record is removed, if there are others.
use go_wallib.Base.{
  ℕ, suc, ◌+◌, ◌^◌, ◌<◌, ◌≡◌, refl, sym, ap, ◌∙◌, true, false, none, some, List, [], ◌∷◌, ◌++◌,
  append-nil, arith, length, length-append, length-eq-zero, set, ltb, ◌==◌, Bool-cases, inl, inr,
  ◌⊎◌,
}
use mathlib.Core.Path.{subst}
use go_wallib.Errors.{ok}
use go_wallib.Exec.{bind_run}
use go_wallib.Record.{Record}
use go_wallib.Disk.{Disk, File, find}
use go_wallib.Wal.Recover.{
  Bounds, OpenedSeg, RecoveryReport, remove_opened, remove_each, nonempty_prefix, kept_count,
  collapse, prune_empty_trailing,
}
use go_wallib.Wal.Reader.Still.{Stored, records_of, calm}
use go_wallib.Wal.Contents.Standing.{records_of-snoc}
use go_wallib.Wal.Reopen.Shelf.{Shelf}
use go_wallib.Wal.Reopen.Repair.{repaired}
use go_wallib.Wal.Reopen.Tally.{repaired_all, repaired_all-snoc, next_base, Counted}
use go_wallib.Wal.Reopen.Last.{Newest, Newest-of}
use go_wallib.Wal.Reopen.Trailing.{Shelf-drop, All-split}
use go_wallib.Wal.Reopen.Keep.{
  nonempty_prefix-records, nonempty_prefix-empty, prune-kept, remove_each-none, collapse-records,
  collapse-one, remove_opened-calm,
}

-- How the pruning ends: a log with the same records, its last segment the active one.
pub record Pruned (files : List File) (now start end max_rec : ℕ) (bases : List ℕ)
    (recs : List Record) (report : RecoveryReport) (l : List OpenedSeg) (last : ℕ) : Type 0 where
  pub files' : List File
  pub bases' : List ℕ
  pub older : List Stored
  pub top : Stored
  pub removed : ℕ
  pub run : prune_empty_trailing report l last (calm files now) ≡ (
    ok (
      record report { segments_removed = report.segments_removed + removed },
      repaired_all start (older ++ (top ∷ [])),
    ),
    calm files' now,
  )
  pub shelf : Shelf files' now start end max_rec bases' older (record top { tail = [] })
  pub same : records_of (older ++ (top ∷ [])) ≡ recs
  pub counted : length bases' + removed ≡ length bases

kept_count-some : (l : List OpenedSeg) (n : ℕ) → nonempty_prefix l ≡ some n → kept_count l ≡ n
kept_count-some l n e = rw (e, kept_count) refl

kept_count-none : (l : List OpenedSeg) → nonempty_prefix l ≡ none → kept_count l ≡ length l
kept_count-none l e = rw (e, kept_count) refl

last_there :
    (start end : ℕ) (c : Bounds)
    → Counted start end c
    → 0 < start
    → start < end
    → c.last == 0 ≡ false
last_there start end c k pos lt =
    let e = k.count in let (last, first) = k.something (omega arith) in ground arith

last_missing : (start end : ℕ) (c : Bounds) → Counted start end c → start ≡ end → c.last == 0 ≡ true
last_missing start end c k same =
    let e = k.count in let (last, first) = k.nothing (omega arith) in ground arith

Snoc-cases :
    {A : Type 0} (xs : List A) → (xs ≡ []) ⊎ ((ys : List A) × (y : A) × (xs ≡ ys ++ (y ∷ [])))
Snoc-cases [] = inl refl
Snoc-cases (x ∷ xs) = elim (Snoc-cases xs) [
  | inl e ↦ inr ([], x, ap (λ l. x ∷ l) e)
  | inr (ys, y, e) ↦ inr (x ∷ ys, y, ap (λ l. x ∷ l) e)
]

-- Nothing is removed.
kept_all :
    (report : RecoveryReport) (l : List OpenedSeg) (last : ℕ) (d : Disk)
    → kept_count l ≡ length l
    → collapse report l last d ≡ (ok (report, l), d)
    → prune_empty_trailing report l last d ≡ (ok (report, l), d)
kept_all report l last d count rest =
    ap (λ k. prune_empty_trailing report k last d) (sym (append-nil l))
    ∙ prune-kept report report l [] last d d (ap kept_count (append-nil l) ∙ count)
        (remove_each-none report d)
    ∙ rest

module _ (older : List Stored) (newest : Stored) {files : List File} {now start end max_rec : ℕ}
    {bases : List ℕ} (report : RecoveryReport) (c : Bounds)
    (sh : Shelf files now start end max_rec bases older (record newest { tail = [] }))
    (small : end < 2 ^ 64) (k : Counted start end c) where
  abbrev all : List OpenedSeg
  all = repaired_all start (older ++ (newest ∷ []))

  abbrev Goal : Type 0
  Goal =
      Pruned files now start end max_rec bases (records_of (older ++ (newest ∷ []))) report all
        c.last

  unchanged :
      prune_empty_trailing report all c.last (calm files now) ≡ (ok (report, all), calm files now)
      → Goal
  unchanged run = record {
    files' = files;
    bases' = bases;
    older = older;
    top = newest;
    removed = 0;
    run =
        run
        ∙ ap (λ n. (ok (record report { segments_removed = n }, all), calm files now))
            (omega arith);
    shelf = sh;
    same = refl;
    counted = omega arith;
  }

  top_segment : Newest start end bases older (record newest { tail = [] })
  top_segment = Newest-of start end bases older _ sh.linked sh.named sh.full small

  -- The last segment holds records.
  prune-records : 0 < length newest.recs → Goal
  prune-records more =
      let o = repaired (next_base start older) newest in
      let os = repaired_all start older in
      let lt = top_segment.unsnoc.ends_at in
      let count : kept_count (os ++ (o ∷ [])) ≡ length (os ++ (o ∷ [])) =
        kept_count-some (os ++ (o ∷ [])) (suc (length os))
          (nonempty_prefix-records o os (ground arith))
        ∙ omega (arith, length-append os (o ∷ [])) in
      unchanged (
        kept_all report all c.last (calm files now)
          (subst (λ l. kept_count l ≡ length l) (sym (repaired_all-snoc start older newest)) count)
          (collapse-records report all c.last (calm files now)
            (last_there start end c k sh.first (omega arith))))

-- The only segment is kept, though it holds none.
prune-single :
    (newest : Stored) {files : List File} {now start end max_rec : ℕ} {bases : List ℕ}
    (report : RecoveryReport) (c : Bounds)
    (sh : Shelf files now start end max_rec bases [] (record newest { tail = [] }))
    → end < 2 ^ 64
    → Counted start end c
    → newest.recs ≡ []
    → Pruned files now start end max_rec bases
        (records_of (newest ∷ []))
        report
        (repaired_all start (newest ∷ []))
        c.last
prune-single newest {files = files} {now = now} {start = start} {end = end} report c sh small k
      empty =
    let o = repaired start newest in
    let at = (top_segment [] newest report c sh small k).unsnoc.ends_at in
    let none_there : length newest.recs ≡ 0 = ap length empty in
    unchanged [] newest report c sh small k (
      kept_all report (o ∷ []) c.last (calm files now)
        (kept_count-none (o ∷ [])
          (nonempty_prefix-empty o [] (ground arith) ∙ (unfold nonempty_prefix in refl)))
        (collapse-one report o c.last (calm files now) (last_missing start end c k (omega arith))))

-- The last segment holds none, and there are others.
module _ (older : List Stored) (s newest : Stored) {files : List File} {now start end max_rec : ℕ}
    {bases : List ℕ} (report : RecoveryReport) (c : Bounds)
    (sh : Shelf files now start end max_rec bases (older ++ (s ∷ [])) (record newest { tail = [] }))
    (small : end < 2 ^ 64) (k : Counted start end c) (empty : newest.recs ≡ []) where
  abbrev segs : List Stored
  segs = older ++ (s ∷ [])

  abbrev last_one : OpenedSeg
  last_one = repaired (next_base start segs) newest

  before_last : OpenedSeg
  before_last = repaired (next_base start older) s

  at_top : Newest start end bases segs (record newest { tail = [] })
  at_top = top_segment segs newest report c sh small k

  there : 0 < length s.recs
  there = (All-split (λ (o : Stored). 0 < length o.recs) older (s ∷ []) sh.full).1.0

  count : kept_count (repaired_all start segs ++ (last_one ∷ [])) ≡ length (repaired_all start segs)
  count =
      let none_there : length newest.recs ≡ 0 = ap length empty in
      let some_there = there in
      let q = repaired (next_base start older) s in
      let os = repaired_all start older in
      let split = repaired_all-snoc start older s in
      kept_count-some (repaired_all start segs ++ (last_one ∷ [])) (suc (length os)) (
        nonempty_prefix-empty last_one (repaired_all start segs) (ground arith)
        ∙ ap nonempty_prefix split
        ∙ nonempty_prefix-records q os (ground arith))
      ∙ omega (arith, ap length split, length-append os (q ∷ []))

  abbrev counted_one : RecoveryReport
  counted_one = record report { segments_removed = report.segments_removed + 1 }

  abbrev left : List File
  left = set files newest.handle (record (sh.file) { linked = none })

  removed_one :
      remove_each report (last_one ∷ []) (calm files now) ≡ (ok counted_one, calm left now)
  unfolding remove_each
  removed_one =
      bind_run (remove_opened report last_one) _ (calm files now) (calm left now) (ok counted_one) (
        remove_opened-calm files now report last_one newest.handle sh.file
          (ap (λ n. find n files) (sym at_top.newest_name) ∙ sh.newest_stands.found) sh.present)
      ∙ remove_each-none counted_one (calm left now)

  below_end : start < end
  below_end =
      let some_there = there in
      let last = at_top.unsnoc.ends_at in
      omega (
        arith,
        ap length empty,
        ap length (records_of-snoc older s),
        length-append (records_of older) s.recs,
      )

  prune-empty :
      Pruned files now start end max_rec bases
        (records_of (segs ++ (newest ∷ [])))
        report
        (repaired_all start (segs ++ (newest ∷ [])))
        c.last
  prune-empty =
      let (front, bases_are, shelf) = Shelf-drop older s sh small empty in
      record {
        files' = left;
        bases' = front;
        older = older;
        top = s;
        removed = 1;
        run =
            ap (λ l. prune_empty_trailing report l c.last (calm files now))
              (repaired_all-snoc start segs newest)
            ∙ prune-kept report counted_one (repaired_all start segs) (last_one ∷ []) c.last
                (calm files now) (calm left now) count removed_one
            ∙ collapse-records counted_one (repaired_all start segs) c.last (calm left now)
                (last_there start end c k sh.first below_end);
        shelf =
            subst (λ t. Shelf left now start end max_rec front older (record s { tail = t }))
              (All-split (λ (o : Stored). o.tail ≡ []) older (s ∷ []) sh.cleaned).1.0 shelf;
        same =
            sym (append-nil (records_of segs))
            ∙ ap (λ l. records_of segs ++ l) (sym empty)
            ∙ sym (records_of-snoc segs newest);
        counted = omega (arith, ap length bases_are, length-append front (end ∷ []));
      }

-- The log keeps its records when its last segment is pruned or not.
pub prune :
    (older : List Stored) (newest : Stored) {files : List File} {now start end max_rec : ℕ}
    {bases : List ℕ} (report : RecoveryReport) (c : Bounds)
    (sh : Shelf files now start end max_rec bases older (record newest { tail = [] }))
    → end < 2 ^ 64
    → Counted start end c
    → Pruned files now start end max_rec bases
        (records_of (older ++ (newest ∷ [])))
        report
        (repaired_all start (older ++ (newest ∷ [])))
        c.last
prune older newest {files = files} {now = now} {start = start} {end = end} {max_rec = max_rec}
      {bases = bases} report c sh small k =
    elim (Bool-cases (ltb 0 (length newest.recs))) [
      | inl more ↦ prune-records older newest report c sh small k (ground arith)
      | inr none_there ↦
          let empty = length-eq-zero newest.recs (ground arith) in
          elim (Snoc-cases older) [
            | inl e ↦
                subst
                  (λ os.
                    Shelf files now start end max_rec bases os (record newest { tail = [] })
                    → Pruned files now start end max_rec bases (records_of (os ++ (newest ∷ [])))
                        report (repaired_all start (os ++ (newest ∷ []))) c.last)
                  (sym e) (λ sh'. prune-single newest report c sh' small k empty) sh
            | inr (ys, s, e) ↦
                subst
                  (λ os.
                    Shelf files now start end max_rec bases os (record newest { tail = [] })
                    → Pruned files now start end max_rec bases (records_of (os ++ (newest ∷ [])))
                        report (repaired_all start (os ++ (newest ∷ []))) c.last)
                  (sym e) (λ sh'. prune-empty ys s newest report c sh' small k empty) sh
          ]
    ]
