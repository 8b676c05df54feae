-- ===== src/Wal/Cut/Parts.antt =====
-- The segments and the records on either side of a cut (boundaryIndex of pkg/wal/writer.go), and what
-- a cut leaves.
use go_wallib.Base.{
  ℕ, zero, suc, ◌+◌, ◌≤◌, ◌<◌, ◌≡◌, refl, sym, ap, ◌∙◌, true, false, Bool-cases, List, [], ◌∷◌,
  ◌++◌, append_assoc, arith, length, take, drop, All, inl, inr, leb,
}
use mathlib.Core.List.{map, Perm}
use go_wallib.Record.{Record}
use go_wallib.Disk.{File, linked_names}
use go_wallib.Segment.Name.{name}
use go_wallib.Wal.{Wal}
use go_wallib.Wal.Reader.Still.{Stored, Stands, records_of, calm}
use go_wallib.Wal.Contents.Chain.{Numbered, Linked}
use go_wallib.Wal.Contents.Rewrite.{at_or_above}
use go_wallib.Wal.Contents.Standing.{All-each}
use go_wallib.Wal.Reopen.Numbers.{Linked-Numbered}

pub at_or_above-append :
    (cut : ℕ) (xs ys : List Record)
    → at_or_above cut (xs ++ ys) ≡ at_or_above cut xs ++ at_or_above cut ys
at_or_above-append cut [] ys = refl
at_or_above-append cut (x ∷ xs) ys = elim (Bool-cases (leb cut x.lsn)) [
  | inl kept ↦ rw kept (ap (λ l. x ∷ l) (at_or_above-append cut xs ys))
  | inr below ↦ rw below (at_or_above-append cut xs ys)
]

pub at_or_above-none :
    (cut : ℕ) (rs : List Record) → All (λ (r : Record). r.lsn < cut) rs → at_or_above cut rs ≡ []
at_or_above-none cut [] h = refl
at_or_above-none cut (r ∷ rs) h =
    let lt = h.0 in
    let below : leb cut r.lsn ≡ false = ground arith in rw below (at_or_above-none cut rs h.1)

pub at_or_above-all :
    (cut : ℕ) (rs : List Record) → All (λ (r : Record). cut ≤ r.lsn) rs → at_or_above cut rs ≡ rs
at_or_above-all cut [] h = refl
at_or_above-all cut (r ∷ rs) h =
    let le = h.0 in
    let kept : leb cut r.lsn ≡ true = ground arith in
    rw kept (ap (λ l. r ∷ l) (at_or_above-all cut rs h.1))

-- The chain at its n-th segment.
pub record Split (start end n : ℕ) (bases : List ℕ) (segs : List Stored) : Type 0 where
  pub front : List Stored
  pub rest : List Stored
  pub mid : ℕ
  pub parts : front ++ rest ≡ segs
  pub before : Linked start (take n bases) front mid
  pub behind : Linked mid (drop n bases) rest end

pub Linked-Split :
    (start end n : ℕ) (bases : List ℕ) (segs : List Stored)
    → Linked start bases segs end
    → Split start end n bases segs
Linked-Split start end zero bases segs h = record {
  front = [];
  rest = segs;
  mid = start;
  parts = refl;
  before = refl;
  behind = h;
}
Linked-Split start end (suc n) [] [] h = record {
  front = [];
  rest = [];
  mid = start;
  parts = refl;
  before = refl;
  behind = h;
}
Linked-Split start end (suc n) [] (s ∷ segs) h = absurd (h tt)
Linked-Split start end (suc n) (b ∷ bases) [] h = absurd (h tt)
Linked-Split start end (suc n) (b ∷ bases) (s ∷ segs) h =
    let i = Linked-Split (start + length s.recs) end n bases segs (h.3) in
    record {
      front = s ∷ i.front;
      rest = i.rest;
      mid = i.mid;
      parts = ap (λ l. s ∷ l) i.parts;
      before = (h.0, h.1, h.2, i.before);
      behind = i.behind;
    }

Numbered-range :
    (b : ℕ) (recs : List Record)
    → Numbered b recs
    → All (λ (r : Record). (b ≤ r.lsn) × (r.lsn < b + length recs)) recs
Numbered-range b [] h = tt
Numbered-range b (r ∷ recs) h =
    let here = h.0 in
    (
      (omega arith, omega arith),
      All-each recs (λ q k. let low = k.0 in let high = k.1 in (omega arith, omega arith))
          (Numbered-range (suc b) recs h.1),
    )

-- The records of a chain are between its ends.
pub records-range :
    (start end : ℕ) (bases : List ℕ) (segs : List Stored)
    → Linked start bases segs end
    → All (λ (r : Record). (start ≤ r.lsn) × (r.lsn < end)) (records_of segs)
records-range start end bases segs h =
    let (numbered, total) = Linked-Numbered start end bases segs h in
    All-each (records_of segs) (λ r k. let high = k.1 in (k.0, omega arith))
      (Numbered-range start (records_of segs) numbered)

pub records_of-append :
    (xs ys : List Stored) → records_of (xs ++ ys) ≡ records_of xs ++ records_of ys
records_of-append [] ys = refl
records_of-append (x ∷ xs) ys =
    ap (λ l. x.recs ++ l) (records_of-append xs ys)
    ∙ sym (append_assoc x.recs (records_of xs) (records_of ys))

-- The files of the directory are those of the index, whatever their order, and the segments of the
-- index hold these records, in its order.
pub record Held (w : Wal) (recs : List Record) : Type 0 where
  pub files : List File
  pub now : ℕ
  pub segs : List Stored
  pub disk : w.disk ≡ calm files now
  pub named : map (λ (s : Stored). s.seg_name) segs ≡ map name w.segment_bases
  pub stand : All (Stands (calm files now) w.opts.max_record_size) segs
  pub all : records_of segs ≡ recs
  pub listed : Perm (linked_names files) (map name w.segment_bases)
