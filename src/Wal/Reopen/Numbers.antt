-- ===== src/Wal/Reopen/Numbers.antt =====
-- The LSNs of a log: one after the other, from its first base up to its counter.
use go_wallib.Base.{
  ℕ, suc, ◌+◌, ◌^◌, ◌<◌, ◌≤◌, ◌≡◌, ap, max, List, [], ◌∷◌, ◌++◌, arith, length, length-append, All,
  Bool-cases, inl, inr, ◌==◌,
}
use mathlib.Core.Path.{subst}
use go_wallib.Record.{Record}
use go_wallib.Segment.Files.{pred_lsn}
use go_wallib.Wal.{Wal, succ_lsn}
use go_wallib.Wal.Recover.{Bounds}
use go_wallib.Wal.Reader.Still.{Stored, records_of}
use go_wallib.Wal.Reader.Complete.{Rising}
use go_wallib.Wal.Contents.{Log}
use go_wallib.Wal.Contents.Chain.{Numbered, Linked, Linked-le}
use go_wallib.Wal.Reopen.Tally.{Counted}

Numbered-append :
    (b : ℕ) (xs ys : List Record)
    → Numbered b xs
    → Numbered (b + length xs) ys
    → Numbered b (xs ++ ys)
Numbered-append b [] ys h k = subst (λ n. Numbered n ys) (omega arith) k
Numbered-append b (x ∷ xs) ys h k =
    (h.0, Numbered-append (suc b) xs ys h.1 (subst (λ n. Numbered n ys) (omega arith) k))

pub Linked-Numbered :
    (start end : ℕ) (bases : List ℕ) (segs : List Stored)
    → Linked start bases segs end
    → Numbered start (records_of segs) × (start + length (records_of segs) ≡ end)
Linked-Numbered start end [] [] h = (tt, omega (arith, h))
Linked-Numbered start end [] (s ∷ segs) h = absurd (h tt)
Linked-Numbered start end (b ∷ bases) [] h = absurd (h tt)
Linked-Numbered start end (b ∷ bases) (s ∷ segs) h =
    let (rest, count) = Linked-Numbered (start + length s.recs) end bases segs (h.3) in
    (
      Numbered-append start s.recs (records_of segs) (h.2) rest,
      omega (arith, length-append s.recs (records_of segs)),
    )

-- The records that a log holds have consecutive LSNs, which end right below its counter.
pub Log-Numbered :
    (w : Wal) (recs : List Record)
    → Log w recs
    → (start : ℕ) × (0 < start) × Numbered start recs × (start + length recs ≡ w.next_lsn)
Log-Numbered w recs l =
    let b = l.body in
    let (numbered, count) =
      Linked-Numbered b.start w.next_lsn w.segment_bases (b.older ++ (b.newest ∷ [])) b.linked in
    (b.start, b.first, subst (Numbered b.start) b.all numbered, omega (arith, ap length b.all))

pub Numbered-Rising : (lo b : ℕ) (recs : List Record) → lo < b → Numbered b recs → Rising lo recs
Numbered-Rising lo b [] lt h = tt
Numbered-Rising lo b (r ∷ recs) lt h =
    let here = h.0 in (omega arith, Numbered-Rising r.lsn (suc b) recs (omega arith) h.1)

pub Numbered-below :
    (b end : ℕ) (recs : List Record)
    → Numbered b recs
    → b + length recs ≡ end
    → All (λ (r : Record). r.lsn < end) recs
Numbered-below b end [] h e = tt
Numbered-below b end (r ∷ recs) h e =
    let here = h.0 in (omega arith, Numbered-below (suc b) end recs h.1 (omega arith))

pub Linked-bounded :
    (start end : ℕ) (bases : List ℕ) (segs : List Stored)
    → Linked start bases segs end
    → All (λ b. b ≤ end) bases
Linked-bounded start end [] segs h = tt
Linked-bounded start end (b ∷ bases) [] h = absurd (h tt)
Linked-bounded start end (b ∷ bases) (s ∷ segs) h =
    let le = Linked-le (start + length s.recs) end bases segs (h.3) in
    let here = h.0 in (omega arith, Linked-bounded (start + length s.recs) end bases segs (h.3))

-- The counters that recovery installs.
module _ (start end base : ℕ) (c : Bounds) (k : Counted start end c) (pos : 0 < start)
    (above : start ≤ base) (below : base ≤ end) (small : end < 2 ^ 64) where
  pub next-installed : max (succ_lsn c.last) base ≡ end
  next-installed =
      let e = k.count in
      elim (Bool-cases (c.total == 0)) [
        | inl empty ↦
            let (last, first) = k.nothing (ground arith) in
            let z : c.total ≡ 0 = ground arith in omega arith
        | inr more ↦ let (last, first) = k.something (ground arith) in omega arith
      ]

  pub last-installed : max c.last (pred_lsn base) + 1 ≡ end
  last-installed =
      let e = k.count in
      elim (Bool-cases (c.total == 0)) [
        | inl empty ↦
            let (last, first) = k.nothing (ground arith) in
            let z : c.total ≡ 0 = ground arith in omega arith
        | inr more ↦ let (last, first) = k.something (ground arith) in omega arith
      ]
