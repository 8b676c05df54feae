-- ===== src/Wal/Reopen/Tally.antt =====
-- What recovery counts: the first and the last LSN, and the number of the records.
use go_wallib.Base.{
  ℕ, suc, ◌+◌, ◌<◌, ◌≡◌, refl, sym, ap, ◌∙◌, List, [], ◌∷◌, ◌++◌, append-nil, arith, length, ◌==◌,
  length-append, All, Bool-cases, inl, inr, if◌then◌else◌,
}
use mathlib.Core.Path.{subst}
use go_wallib.Record.{Record}
use go_wallib.Record.RoundTrip.{frames}
use go_wallib.Segment.Header.{header_size}
use go_wallib.Segment.Content.{last_lsn}
use go_wallib.Wal.Recover.{OpenedSeg, Bounds, bounds_from, compute_bounds}
use go_wallib.Wal.Reader.Still.{Stored, records_of}
use go_wallib.Wal.Contents.Chain.{Numbered, Linked}
use go_wallib.Wal.Reopen.Segments.{scanned}
use go_wallib.Wal.Reopen.Collect.{scanned_all}
use go_wallib.Wal.Reopen.Repair.{repaired}

abbrev pub repaired_all : ℕ → List Stored → List OpenedSeg
repaired_all b [] = []
repaired_all b (s ∷ segs) = repaired b s ∷ repaired_all (b + length s.recs) segs

repaired-clean : (b : ℕ) (s : Stored) → s.tail ≡ [] → scanned b s ≡ repaired b s
repaired-clean b s e =
    ap
      (λ l. record (scanned b s) {
        seg = record ((scanned b s).seg) { size = header_size + length l };
      })
      (ap (λ t. frames s.recs ++ t) e ∙ append-nil (frames s.recs))

-- The base of the segment behind these.
abbrev pub next_base : ℕ → List Stored → ℕ
next_base b segs = b + length (records_of segs)

next_base-cons :
    (b : ℕ) (s : Stored) (segs : List Stored)
    → next_base (b + length s.recs) segs ≡ next_base b (s ∷ segs)
next_base-cons b s segs = omega (arith, length-append s.recs (records_of segs))

pub scanned_all-repaired :
    (b : ℕ) (older : List Stored) (newest : Stored)
    → All (λ (s : Stored). s.tail ≡ []) older
    → scanned_all b (older ++ (newest ∷ []))
      ≡ repaired_all b older ++ (scanned (next_base b older) newest ∷ [])
scanned_all-repaired b [] newest h = ap (λ n. scanned n newest ∷ []) (omega arith)
scanned_all-repaired b (s ∷ older) newest h =
    ap (λ o. o ∷ scanned_all (b + length s.recs) (older ++ (newest ∷ []))) (repaired-clean b s h.0)
    ∙ ap (λ l. repaired b s ∷ l)
        (scanned_all-repaired (b + length s.recs) older newest h.1
          ∙ ap (λ n. repaired_all (b + length s.recs) older ++ (scanned n newest ∷ []))
              (next_base-cons b s older))

pub repaired_all-snoc :
    (b : ℕ) (older : List Stored) (newest : Stored)
    → repaired_all b (older ++ (newest ∷ []))
      ≡ repaired_all b older ++ (repaired (next_base b older) newest ∷ [])
repaired_all-snoc b [] newest = ap (λ n. repaired n newest ∷ []) (omega arith)
repaired_all-snoc b (s ∷ older) newest =
    ap (λ l. repaired b s ∷ l)
      (repaired_all-snoc (b + length s.recs) older newest
        ∙ ap (λ n. repaired_all (b + length s.recs) older ++ (repaired n newest ∷ []))
            (next_base-cons b s older))

pub last_lsn-Numbered :
    (last b : ℕ) (recs : List Record)
    → Numbered b recs
    → 0 < length recs
    → last_lsn last recs + 1 ≡ b + length recs
last_lsn-Numbered last b [] h more = absurd (omega arith)
last_lsn-Numbered last b (r ∷ []) h more = let here = h.0 in omega arith
last_lsn-Numbered last b (r ∷ q ∷ recs) h more =
    omega (arith, last_lsn-Numbered r.lsn (suc b) (q ∷ recs) h.1 (omega arith))

-- The counts of a log from s0 on, up to b.
pub record Counted (s0 b : ℕ) (c : Bounds) : Type 0 where
  pub count : c.total + s0 ≡ b
  pub nothing : c.total ≡ 0 → (c.last ≡ 0) × (c.first ≡ 0)
  pub something : 0 < c.total → (c.last + 1 ≡ b) × (c.first ≡ s0)

abbrev counted_in : Bounds → ℕ → Stored → Bounds
counted_in c b s = if length s.recs == 0 then c else record {
  first = if c.first == 0 then b else c.first;
  last = last_lsn 0 s.recs;
  total = c.total + length s.recs;
}

first-Counted :
    (s0 b : ℕ) (c : Bounds) → 0 < s0 → Counted s0 b c → (if c.first == 0 then b else c.first) ≡ s0
first-Counted s0 b c pos k =
    let e = k.count in
    elim (Bool-cases (c.total == 0)) [
      | inl empty ↦
          let z : c.total ≡ 0 = ground arith in
          let first = (k.nothing z).1 in rw first (omega (arith, z))
      | inr more ↦ let first = (k.something (ground arith)).1 in ground arith
    ]

counted_in-Counted :
    (s0 b : ℕ) (c : Bounds) (s : Stored)
    → 0 < s0
    → Numbered b s.recs
    → Counted s0 b c
    → Counted s0 (b + length s.recs) (counted_in c b s)
counted_in-Counted s0 b c s pos h k = elim (Bool-cases (length s.recs == 0)) [
  | inl empty ↦ rw empty (subst (λ n. Counted s0 n c) (ground arith) k)
  | inr more ↦
      let lt : 0 < length s.recs = ground arith in
      let last = last_lsn-Numbered 0 b s.recs h lt in
      let e = k.count in
      rw more (record {
        count = omega arith;
        nothing = λ none_yet. absurd (omega arith);
        something = λ any. (last, first-Counted s0 b c pos k);
      })
]

bounds_from-Counted :
    (s0 b end : ℕ) (c : Bounds) (bases : List ℕ) (segs : List Stored)
    → 0 < s0
    → Linked b bases segs end
    → Counted s0 b c
    → Counted s0 end (bounds_from c (repaired_all b segs))
unfolding bounds_from
bounds_from-Counted s0 b end c [] [] pos h k = rw (sym h) k
bounds_from-Counted s0 b end c [] (s ∷ segs) pos h k = absurd (h tt)
bounds_from-Counted s0 b end c (d ∷ bases) [] pos h k = absurd (h tt)
bounds_from-Counted s0 b end c (d ∷ bases) (s ∷ segs) pos h k =
    bounds_from-Counted s0 (b + length s.recs) end (counted_in c b s) bases segs pos (h.3)
      (counted_in-Counted s0 b c s pos (h.2) k)

-- The counts of the segments of a log: all its records, from the first base on, up to the end.
pub compute_bounds-Counted :
    (start end : ℕ) (bases : List ℕ) (segs : List Stored)
    → 0 < start
    → Linked start bases segs end
    → Counted start end (compute_bounds (repaired_all start segs))
unfolding compute_bounds
compute_bounds-Counted start end bases segs pos h =
    bounds_from-Counted start start end _ bases segs pos h (record {
      count = omega arith;
      nothing = λ e. (refl, refl);
      something = λ lt. absurd (omega arith);
    })
