-- ===== src/Wal/Reader/Complete.antt =====
-- A reader in a still directory gives exactly the records of its window.
use go_wallib.Base.{
  ℕ, zero, suc, ◌+◌, ◌≤◌, ◌<◌, ◌≡◌, refl, ap, ◌∙◌, Bool, true, false, Option, none, some, List, [],
  ◌∷◌, arith, ltb, leb, ◌&&◌, ◌||◌, ◌==◌, if◌then◌else◌, Bool-cases, inl, inr, All,
}
use mathlib.Core.List.{map}
use go_wallib.Record.{Record}
use go_wallib.Disk.{File}
use go_wallib.Wal.{succ_lsn}
use go_wallib.Wal.Reader.{Entry, Reader, next, next_unless, collect, entries, new_reader_from}
use go_wallib.Wal.Reader.Still.{
  Stored, Stands, entry_of, window, records_of, weight, calm, between_segments, next-between,
  next-over,
}
use go_wallib.Wal.Reader.Exact.{Inside, Given, Sought, next-Inside, passed, weight-pos}

-- The LSNs rise, from above b on.
abbrev pub Rising : ℕ → List Record → Type 0
Rising b [] = Unit
Rising b (r ∷ rs) = (b < r.lsn) × Rising r.lsn rs

-- The records whose LSNs are in the window.
unfoldable pub between : ℕ → ℕ → List Record → List Entry
between from_lsn end_lsn [] = []
between from_lsn end_lsn (r ∷ rs) =
    let others = between from_lsn end_lsn rs in
    if leb from_lsn r.lsn && leb r.lsn end_lsn then entry_of r ∷ others else others

between-above :
    (from_lsn end_lsn b : ℕ) (rs : List Record)
    → Rising b rs
    → end_lsn ≤ b
    → between from_lsn end_lsn rs ≡ []
unfolding between
between-above from_lsn end_lsn b [] up le = refl
between-above from_lsn end_lsn b (r ∷ rs) up le =
    let lt = up.0 in
    let ih = between-above from_lsn end_lsn r.lsn rs up.1 (ground arith) in ground (arith, ih)

between-empty :
    (from_lsn end_lsn : ℕ) (rs : List Record)
    → end_lsn < from_lsn
    → between from_lsn end_lsn rs ≡ []
unfolding between
between-empty from_lsn end_lsn [] lt = refl
between-empty from_lsn end_lsn (r ∷ rs) lt =
    let ih = between-empty from_lsn end_lsn rs lt in ground (arith, ih)

between-raised :
    (from_lsn upper end_lsn b : ℕ) (rs : List Record)
    → Rising b rs
    → from_lsn ≤ suc b
    → upper ≤ suc b
    → between from_lsn end_lsn rs ≡ between upper end_lsn rs
unfolding between
between-raised from_lsn upper end_lsn b [] up le le' = refl
between-raised from_lsn upper end_lsn b (r ∷ rs) up le le' =
    let lt = up.0 in
    let ih = between-raised from_lsn upper end_lsn r.lsn rs up.1 (omega arith) (omega arith) in
    ground (arith, ih)

window-between :
    (from_lsn end_lsn b : ℕ) (rs : List Record)
    → Rising b rs
    → window from_lsn end_lsn rs ≡ between from_lsn end_lsn rs
unfolding window between
window-between from_lsn end_lsn b [] up = refl
window-between from_lsn end_lsn b (r ∷ rs) up =
    let below = window-between from_lsn end_lsn r.lsn rs up.1 in
    let behind = window-between (succ_lsn r.lsn) end_lsn r.lsn rs up.1 in
    elim (Bool-cases (ltb r.lsn from_lsn)) [
      | inl low ↦ rw (low) (ground (arith, below))
      | inr not_low ↦ elim (Bool-cases (ltb end_lsn r.lsn)) [
        | inl high ↦
            rw (not_low, high)
              (let none_left : between from_lsn end_lsn rs ≡ [] =
                  between-above from_lsn end_lsn r.lsn rs up.1 (ground arith) in
                ground (arith, none_left))
        | inr inside ↦
            rw (not_low, inside)
              (let raised =
                  between-raised from_lsn (succ_lsn r.lsn) end_lsn r.lsn rs up.1 (ground arith)
                    (omega arith) in
                ground (arith, raised, behind))
      ]
    ]

-- The loop over `Next` gave these entries, came to its end, and left no failure.
pub record Complete (o : List Entry × Bool × Reader) (es : List Entry) : Type 0 where
  pub all : o.0 ≡ es
  pub ended : o.1 ≡ true
  pub no_failure : o.2.failure ≡ none

collect-end :
    (again : Reader → List Entry × Bool × Reader) (o : Option Bool × Reader)
    → o.0 ≡ some false
    → collect again o ≡ ([], true, o.1)
unfolding collect
collect-end again (none, r) e = cc e
collect-end again (some false, r) e = refl
collect-end again (some true, r) e = cc e

collect-more :
    (again : Reader → List Entry × Bool × Reader) (o : Option Bool × Reader)
    → o.0 ≡ some true
    → collect again o ≡ (o.1.current ∷ (again o.1).0, (again o.1).1, (again o.1).2)
unfolding collect
collect-more again (none, r) e = cc e
collect-more again (some false, r) e = cc e
collect-more again (some true, r) e = refl

Complete-end :
    (again : Reader → List Entry × Bool × Reader) (o : Option Bool × Reader)
    → o.0 ≡ some false
    → o.1.failure ≡ none
    → Complete (collect again o) []
Complete-end again o e f =
    rw (collect-end again o e) (record { all = refl; ended = refl; no_failure = f })

Complete-more :
    (again : Reader → List Entry × Bool × Reader) (o : Option Bool × Reader) (e : Entry)
    (es : List Entry)
    → o.0 ≡ some true
    → o.1.current ≡ e
    → Complete (again o.1) es
    → Complete (collect again o) (e ∷ es)
Complete-more again o e es more at c = rw (collect-more again o more) (record {
  all = ap (λ x. x ∷ (again o.1).0) at ∙ ap (λ x. e ∷ x) c.all;
  ended = c.ended;
  no_failure = c.no_failure;
})

module _ (files : List File) (now : ℕ) (names : List (List ℕ)) (end_lsn max_rec : ℕ) where
  next-at :
      (fuel : ℕ) (r : Reader) (from_lsn : ℕ) (flat : List Record) (rounds : ℕ)
      → Inside files now names end_lsn max_rec r from_lsn flat rounds
      → rounds < fuel
      → Sought files now names end_lsn max_rec (next fuel r) from_lsn flat rounds
  next-at fuel r from_lsn flat rounds i lt =
      let few = i.enough in
      rw (i.place, i.ahead, i.enough)
        (next-Inside files now names end_lsn max_rec fuel i.h i.rs i.tail i.cur i.valid i.current
          i.index from_lsn i.segs i.fits i.stops i.listed i.stand (omega arith))

  -- One round of the loop, with the rounds behind it.
  collect-Sought :
      (again : Reader → List Entry × Bool × Reader) (o : Option Bool × Reader) (from_lsn : ℕ)
      (flat : List Record) (rounds : ℕ)
      → Sought files now names end_lsn max_rec o from_lsn flat rounds
      → ((g : Given files now names end_lsn max_rec o from_lsn flat rounds)
          → Complete (again o.1) (window (succ_lsn g.first.lsn) end_lsn g.others))
      → Complete (collect again o) (window from_lsn end_lsn flat)
  collect-Sought again o from_lsn flat rounds (inl l) more =
      rw (l.empty) (Complete-end again o l.over_now l.no_failure)
  collect-Sought again o from_lsn flat rounds (inr g) more =
      rw (g.split) (Complete-more again o (entry_of g.first) _ g.more_now g.given (more g))

  entries-Inside :
      (fuel n : ℕ) (r : Reader) (from_lsn : ℕ) (flat : List Record) (rounds : ℕ)
      → Inside files now names end_lsn max_rec r from_lsn flat rounds
      → rounds < fuel
      → rounds < n
      → Complete (entries fuel n r) (window from_lsn end_lsn flat)
  unfolding entries
  entries-Inside fuel zero r from_lsn flat rounds i lt lt' = absurd (omega arith)
  entries-Inside fuel (suc n) r from_lsn flat rounds i lt lt' =
      collect-Sought (entries fuel n) (next fuel r) from_lsn flat rounds
        (next-at fuel r from_lsn flat rounds i lt)
        (λ g.
          let less = g.less in
          entries-Inside fuel n (next fuel r).1 (succ_lsn g.first.lsn) g.others g.fewer g.goes_on
            (omega arith) (omega arith))

abbrev start_entry : Entry
start_entry = record { payload = []; lsn = 0 }

module _ (files : List File) (now : ℕ) (end_lsn max_rec : ℕ) where
  next-start :
      (fuel from_lsn : ℕ) (segs : List Stored)
      → All (Stands (calm files now) max_rec) segs
      → weight segs + 1 < fuel
      → Sought files now
          (map (λ (s : Stored). s.seg_name) segs)
          end_lsn
          max_rec
          (next fuel (
            between_segments files now
              (map (λ (s : Stored). s.seg_name) segs)
              end_lsn
              max_rec
              start_entry
              0
              from_lsn))
          from_lsn
          (records_of segs)
          (weight segs)
  unfolding window
  next-start zero from_lsn segs stand lt = absurd (omega arith)
  next-start (suc zero) from_lsn segs stand lt = absurd (omega arith)
  next-start (suc (suc fuel)) from_lsn [] stand lt =
      rw (next-over files now [] end_lsn max_rec fuel start_entry 0 from_lsn refl)
        (inl (record { empty = refl; over_now = refl; no_failure = refl }))
  next-start (suc (suc fuel)) from_lsn (s ∷ segs) stand lt =
      rw (next-between files now _ end_lsn max_rec fuel s start_entry 0 from_lsn stand.0 refl) (
        passed files now _ end_lsn max_rec _ from_lsn _ _ _ _ refl (omega arith) (
          next-Inside files now _ end_lsn max_rec (suc (suc fuel)) s.handle s.recs s.tail _ 0
            start_entry 1 from_lsn segs stand.0.fits stand.0.stops refl stand.1 (omega arith)))

  entries-start :
      (fuel n from_lsn : ℕ) (segs : List Stored)
      → All (Stands (calm files now) max_rec) segs
      → weight segs + 1 < fuel
      → weight segs < n
      → Complete
          (entries fuel n (
            between_segments files now
              (map (λ (s : Stored). s.seg_name) segs)
              end_lsn
              max_rec
              start_entry
              0
              from_lsn))
          (window from_lsn end_lsn (records_of segs))
  unfolding entries
  entries-start fuel zero from_lsn segs stand lt lt' = absurd (omega arith)
  entries-start fuel (suc n) from_lsn segs stand lt lt' =
      collect-Sought files now _ end_lsn max_rec (entries fuel n) _ from_lsn (records_of segs)
        (weight segs) (next-start fuel from_lsn segs stand lt)
        (λ g.
          let less = g.less in
          entries-Inside files now _ end_lsn max_rec fuel n _ (succ_lsn g.first.lsn) g.others
            g.fewer g.goes_on (omega arith) (omega arith))

entries-done :
    (fuel n : ℕ) (r : Reader) → r.done ≡ true → 0 < fuel → 0 < n → entries fuel n r ≡ ([], true, r)
unfolding entries collect next next_unless
entries-done zero n r e lt lt' = absurd (omega arith)
entries-done (suc fuel) zero r e lt lt' = absurd (omega arith)
entries-done (suc fuel) (suc n) r e lt lt' = rw (e) refl

between-done :
    (from_lsn end_lsn : ℕ) (rs : List Record)
    → Rising 0 rs
    → (end_lsn == 0 || ltb end_lsn from_lsn) ≡ true
    → between from_lsn end_lsn rs ≡ []
between-done from_lsn end_lsn rs up e = elim (Bool-cases (ltb end_lsn from_lsn)) [
  | inl lt ↦ between-empty from_lsn end_lsn rs (ground arith)
  | inr ge ↦ between-above from_lsn end_lsn 0 rs up (ground arith)
]

-- In a directory that stays as it is and in which nothing fails, let the segments' files stand with their headers,
-- the frames of records that fit, rising in LSN from 1 on across the segments, and tails at which a scan
-- stops. With enough rounds, a loop over `Next` ends without a failure, and gives exactly the records with LSNs from
-- `from_lsn` to `end_lsn`, once and in order.
pub entries-Complete :
    (files : List File) (now fuel n from_lsn end_lsn max_rec : ℕ) (segs : List Stored)
    → All (Stands (calm files now) max_rec) segs
    → Rising 0 (records_of segs)
    → weight segs + 1 < fuel
    → weight segs < n
    → Complete
        (entries fuel n (
          new_reader_from
            (record { disk = calm files now; others = [] })
            (map (λ (s : Stored). s.seg_name) segs)
            from_lsn
            end_lsn
            max_rec))
        (between from_lsn end_lsn (records_of segs))
unfolding new_reader_from
entries-Complete files now fuel n from_lsn end_lsn max_rec segs stand up lt lt' =
    let pos = weight-pos segs in
    elim (Bool-cases (end_lsn == 0 || ltb end_lsn from_lsn)) [
      | inl e ↦
          rw
            (
              entries-done fuel n
                  (new_reader_from (record { disk = calm files now; others = [] })
                    (map (λ (s : Stored). s.seg_name) segs) from_lsn end_lsn max_rec)
                  e (omega arith) (omega arith),
              between-done from_lsn end_lsn (records_of segs) up e,
            )
            (record { all = refl; ended = refl; no_failure = refl })
      | inr e ↦
          rw (e, ← window-between from_lsn end_lsn 0 (records_of segs) up)
            (entries-start files now end_lsn max_rec fuel n from_lsn segs stand lt lt')
    ]
