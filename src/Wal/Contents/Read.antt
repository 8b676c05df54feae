-- ===== src/Wal/Contents/Read.antt =====
-- Reading back what the log holds.
use go_wallib.Base.{
  ℕ, suc, ◌+◌, ◌*◌, ◌<◌, ◌≡◌, refl, sym, ap, ◌∙◌, false, List, [], ◌∷◌, ◌++◌, arith, length,
  length-append, All-append,
}
use mathlib.Core.List.{map}
use mathlib.Core.Path.{subst}
use go_wallib.Errors.{ok}
use go_wallib.Record.{Record}
use go_wallib.Disk.{Disk}
use go_wallib.Segment.Name.{name}
use go_wallib.Wal.{Wal}
use go_wallib.Wal.Reader.{Reader, new_reader, new_reader_from, reader_snapshot, entries}
use go_wallib.Wal.Reader.Still.{Stored, Stands, records_of, weight, calm}
use go_wallib.Wal.Reader.Complete.{Complete, Rising, between, entries-Complete}
use go_wallib.Wal.Contents.Finish.{Published}

length-map : {A B : Type 0} (f : A → B) (xs : List A) → length (map f xs) ≡ length xs
length-map f [] = refl
length-map f (x ∷ xs) = ap suc (length-map f xs)

weight_lem : (segs : List Stored) → weight segs ≡ length (records_of segs) + 2 * length segs + 1
weight_lem [] = omega arith
weight_lem (s ∷ segs) = omega (arith, weight_lem segs, length-append s.recs (records_of segs))

same_parts :
    {A B C : Type 0} {a a' : A} {b b' : B} {c c' : C}
    → a ≡ a'
    → b ≡ b'
    → c ≡ c'
    → ◌≡◌ {A = A × B × C} (a, b, c) (a', b', c')
same_parts e f g i = (e i, f i, g i)

-- On a directory in which nothing fails and which nobody changes, a reader of an open log with its
-- last LSN published comes to its end without a failure, and gives exactly the records that the log
-- holds from `from_lsn` on. Two rounds for each segment, one for each record and four more are enough.
pub new_reader-Complete :
    (w : Wal) (recs : List Record) (from_lsn fuel n : ℕ)
    → Published w recs
    → w.is_closed ≡ false
    → length recs + 2 * length w.segment_bases + 3 < fuel
    → length recs + 2 * length w.segment_bases + 3 < n
    → (r : Reader) × (new_reader w [] from_lsn ≡ ok r)
      × Complete (entries fuel n r) (between from_lsn w.last_lsn recs)
unfolding new_reader reader_snapshot
new_reader-Complete w recs from_lsn fuel n p not_closed enough enough' =
    let l = p.log in
    let b = l.body in
    let segs = b.older ++ (b.newest ∷ []) in
    let count : length segs ≡ length w.segment_bases =
      sym (length-map (λ (s : Stored). s.seg_name) segs)
      ∙ ap length b.named
      ∙ length-map name w.segment_bases in
    let held : length (records_of segs) ≡ length recs = ap length b.all in
    let weighs = weight_lem segs in
    (
      new_reader_from (record { disk = w.disk; others = [] }) (map name w.segment_bases) from_lsn
          w.last_lsn w.opts.max_record_size,
      rw not_closed refl,
      subst
          (λ (o : Disk × List (List ℕ) × List Record).
            Complete
              (entries fuel n (
                new_reader_from (record { disk = o.0; others = [] }) o.1 from_lsn w.last_lsn
                  w.opts.max_record_size))
              (between from_lsn w.last_lsn o.2))
          (same_parts (sym l.disk) b.named b.all)
          (entries-Complete l.files l.now fuel n from_lsn w.last_lsn w.opts.max_record_size segs
            (All-append (Stands (calm l.files l.now) w.opts.max_record_size) b.older (b.newest ∷ [])
              b.older_stand (b.newest_stands, tt))
            (subst (Rising 0) (sym b.all) b.rising) (omega arith) (omega arith)),
    )
