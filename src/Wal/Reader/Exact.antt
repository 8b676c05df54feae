-- ===== src/Wal/Reader/Exact.antt =====
-- What a reader gives from a directory that stays as it is and in which nothing fails: every record of
-- its window, once and in order.
use go_wallib.Base.{
  ℕ, zero, suc, ◌+◌, ◌≤◌, ◌<◌, ◌≡◌, refl, ap, ◌∙◌, Bool, true, false, Option, none, some, List, [],
  ◌∷◌, ◌++◌, arith, length, drop, get_elem?, ltb, Bool-cases, inl, inr, ◌⊎◌, All,
}
use mathlib.Core.List.{map}
use go_wallib.Exec.{◌>>=◌}
use go_wallib.Record.{Record}
use go_wallib.Record.Step.{Fits}
use go_wallib.Disk.{File, Handle, close_file, next_fault}
use go_wallib.Wal.{succ_lsn}
use go_wallib.Wal.Reader.{Entry, Reader, file_op, close_current, finish, accept, give, next}
use go_wallib.Wal.Reader.Still.{
  Stored, Stops, Stands, entry_of, window, records_of, weight, calm, before, next-record, next-tail,
  next-between, next-over, next-done,
}

drop-first :
    (xs : List (List ℕ)) (i : ℕ) (y : List ℕ) (ys : List (List ℕ))
    → drop i xs ≡ y ∷ ys
    → (get_elem? xs i ≡ some y) × (drop (suc i) xs ≡ ys)
drop-first [] zero y ys e = cc e
drop-first [] (suc i) y ys e = cc e
drop-first (x ∷ xs) zero y ys e = (cc e, cc e)
drop-first (x ∷ xs) (suc i) y ys e = drop-first xs i y ys e

drop-none : (xs : List (List ℕ)) (i : ℕ) → drop i xs ≡ [] → get_elem? xs i ≡ none
drop-none [] i e = refl
drop-none (x ∷ xs) zero e = cc e
drop-none (x ∷ xs) (suc i) e = drop-none xs i e

pub weight-pos : (segs : List Stored) → 0 < weight segs
weight-pos [] = omega arith
weight-pos (s ∷ segs) = omega arith

module _ (files : List File) (now : ℕ) (names : List (List ℕ)) (end_lsn max_rec : ℕ) where
  -- A reader in a segment, with these records before it and the segments behind.
  pub record Inside (r : Reader) (from_lsn : ℕ) (flat : List Record) (rounds : ℕ) : Type 0 where
    pub h : Handle
    pub rs : List Record
    pub tail : List ℕ
    pub cur : Record
    pub valid : ℕ
    pub current : Entry
    pub index : ℕ
    pub segs : List Stored
    pub place :
        r ≡ before files now names end_lsn max_rec h rs tail cur valid current index from_lsn
    pub ahead : flat ≡ rs ++ records_of segs
    pub enough : rounds ≡ length rs + 1 + weight segs
    pub fits : All (Fits max_rec) rs
    pub stops : Stops max_rec tail
    pub listed : drop index names ≡ map (λ (s : Stored). s.seg_name) segs
    pub stand : All (Stands (calm files now) max_rec) segs

  -- One call of `Next`: no record of the window is left, or the first one is given and the others are
  -- still ahead.
  pub record Last (o : Option Bool × Reader) (from_lsn : ℕ) (flat : List Record) : Type 0 where
    pub empty : window from_lsn end_lsn flat ≡ []
    pub over_now : o.0 ≡ some false
    pub no_failure : o.1.failure ≡ none

  pub record Given (o : Option Bool × Reader) (from_lsn : ℕ) (flat : List Record) (rounds : ℕ)
      : Type 0 where
    pub first : Record
    pub others : List Record
    pub fewer : ℕ
    pub split :
        window from_lsn end_lsn flat ≡ entry_of first ∷ window (succ_lsn first.lsn) end_lsn others
    pub more_now : o.0 ≡ some true
    pub given : o.1.current ≡ entry_of first
    pub goes_on : Inside o.1 (succ_lsn first.lsn) others fewer
    pub less : fewer < rounds

  abbrev pub Sought : Option Bool × Reader → ℕ → List Record → ℕ → Type 0
  Sought o from_lsn flat rounds = Last o from_lsn flat ⊎ Given o from_lsn flat rounds

  -- Records that are passed over make no difference.
  pub passed :
      (o : Option Bool × Reader) (from_lsn : ℕ) (flat flat' : List Record) (rounds rounds' : ℕ)
      → window from_lsn end_lsn flat' ≡ window from_lsn end_lsn flat
      → rounds ≤ rounds'
      → Sought o from_lsn flat rounds
      → Sought o from_lsn flat' rounds'
  passed o from_lsn flat flat' rounds rounds' same le (inl l) =
      inl (record { empty = same ∙ l.empty; over_now = l.over_now; no_failure = l.no_failure })
  passed o from_lsn flat flat' rounds rounds' same le (inr g) =
      let lt = g.less in
      inr (record {
        first = g.first;
        others = g.others;
        fewer = g.fewer;
        split = same ∙ g.split;
        more_now = g.more_now;
        given = g.given;
        goes_on = g.goes_on;
        less = omega arith;
      })

  at-record :
      (fuel : ℕ) (h : Handle) (r : Record) (rs : List Record) (tail : List ℕ) (valid : ℕ)
      (current : Entry) (index from_lsn : ℕ) (segs : List Stored)
      → All (Fits max_rec) rs
      → Stops max_rec tail
      → drop index names ≡ map (λ (s : Stored). s.seg_name) segs
      → All (Stands (calm files now) max_rec) segs
      → Sought
          (next
            (suc fuel)
            (before files now names end_lsn max_rec h rs tail r valid current index from_lsn))
          from_lsn
          (rs ++ records_of segs)
          (length rs + 1 + weight segs)
      → Sought
          (give (next (suc fuel)) (
            accept r
              (before files now names end_lsn max_rec h rs tail r valid current index from_lsn)))
          from_lsn
          (r ∷ (rs ++ records_of segs))
          (suc (length rs) + 1 + weight segs)
  unfolding accept give window finish close_current file_op close_file ◌>>=◌ next_fault
  at-record fuel h r rs tail valid current index from_lsn segs fits st listed stand ih =
      elim (Bool-cases (ltb r.lsn from_lsn)) [
        | inl low ↦ rw (low) (
            passed _ from_lsn (rs ++ records_of segs) (r ∷ (rs ++ records_of segs)) _ _
              (rw (low) refl) (omega arith) ih)
        | inr not_low ↦ elim (Bool-cases (ltb end_lsn r.lsn)) [
          | inl high ↦
              rw (not_low, high)
                (inl (record {
                  empty = rw (not_low, high) refl;
                  over_now =
                      ap (λ o. o.0)
                        (next-done files now names end_lsn max_rec fuel current index from_lsn);
                  no_failure =
                      ap (λ o. o.1.failure)
                        (next-done files now names end_lsn max_rec fuel current index from_lsn);
                }))
          | inr inside ↦
              rw (not_low, inside)
                (inr (record {
                  first = r;
                  others = rs ++ records_of segs;
                  fewer = length rs + 1 + weight segs;
                  split = rw (not_low, inside) refl;
                  more_now = refl;
                  given = refl;
                  goes_on = record {
                    h = h;
                    rs = rs;
                    tail = tail;
                    cur = r;
                    valid = valid;
                    current = entry_of r;
                    index = index;
                    segs = segs;
                    place = refl;
                    ahead = refl;
                    enough = refl;
                    fits = fits;
                    stops = st;
                    listed = listed;
                    stand = stand;
                  };
                  less = omega arith;
                }))
        ]
      ]

  -- The first record ahead is below the window, in it, or above it.
  pub next-Inside :
      (fuel : ℕ) (h : Handle) (rs : List Record) (tail : List ℕ) (cur : Record) (valid : ℕ)
      (current : Entry) (index from_lsn : ℕ) (segs : List Stored)
      → All (Fits max_rec) rs
      → Stops max_rec tail
      → drop index names ≡ map (λ (s : Stored). s.seg_name) segs
      → All (Stands (calm files now) max_rec) segs
      → length rs + 1 + weight segs < fuel
      → Sought
          (next fuel
            (before files now names end_lsn max_rec h rs tail cur valid current index from_lsn))
          from_lsn
          (rs ++ records_of segs)
          (length rs + 1 + weight segs)
  unfolding window
  next-Inside zero h rs tail cur valid current index from_lsn segs fits st listed stand lt =
      absurd (omega arith)
  next-Inside (suc zero) h (r ∷ rs) tail cur valid current index from_lsn segs fits st listed stand
        lt =
      absurd (omega arith)
  next-Inside (suc (suc fuel)) h (r ∷ rs) tail cur valid current index from_lsn segs fits st listed
        stand lt =
      rw
        (next-record files now names end_lsn max_rec (suc fuel) h r rs tail cur valid current index
          from_lsn fits.0)
        (at-record fuel h r rs tail _ current index from_lsn segs fits.1 st listed stand (
          next-Inside (suc fuel) h rs tail r _ current index from_lsn segs fits.1 st listed stand
            (omega arith)))
  next-Inside (suc zero) h [] tail cur valid current index from_lsn segs fits st listed stand lt =
      absurd (omega arith)
  next-Inside (suc (suc zero)) h [] tail cur valid current index from_lsn segs fits st listed stand
        lt =
      (let w = weight-pos segs in absurd (omega arith))
  next-Inside (suc (suc (suc fuel))) h [] tail cur valid current index from_lsn [] fits st listed
        stand lt =
      rw
        (next-tail files now names end_lsn max_rec (suc (suc fuel)) h tail cur valid current index
          from_lsn st)
        (rw
          (next-over files now names end_lsn max_rec fuel current index from_lsn
            (drop-none names index listed))
          (inl (record { empty = refl; over_now = refl; no_failure = refl })))
  next-Inside (suc (suc (suc fuel))) h [] tail cur valid current index from_lsn (s ∷ segs) fits st
        listed stand lt =
      rw
        (next-tail files now names end_lsn max_rec (suc (suc fuel)) h tail cur valid current index
          from_lsn st)
        (let (at, behind) = drop-first names index _ _ listed in
          rw (next-between files now names end_lsn max_rec fuel s current index from_lsn stand.0 at)
            (passed _ from_lsn _ _ _ _ refl (omega arith) (
              next-Inside (suc (suc fuel)) s.handle s.recs s.tail _ 0 current (suc index) from_lsn
                segs stand.0.fits stand.0.stops behind stand.1 (omega arith))))
