-- ===== src/Wal/Follower/Gapless.antt =====
-- A follower skips no LSN.
use go_wallib.Base.{
  ℕ, zero, suc, ◌+◌, ◌^◌, ◌≤◌, ◌<◌, ◌≡◌, refl, Bool, true, false, not, Option, none, some, List, [],
  ◌∷◌, ◌++◌, arith, length, length-append, ltb, ◌&&◌, Bool-cases, inl, inr, All,
}
use mathlib.Core.List.{map}
use go_wallib.Segment.Name.{name}
use go_wallib.Errors.{Error}
use go_wallib.Wal.{succ_lsn}
use go_wallib.Wal.Reader.{Entry, Shared, Reader, reader_snapshot, new_reader_from, next}
use go_wallib.Wal.Reader.Window.{Advanced, next-Advanced}
use go_wallib.Wal.Follower.{
  Follower, ScanOutcome, scan_continue, scan_stop, scan_truncated, scan_read_error, Progress, Batch,
  has_position, advance, batch_end, deliver, batch_round, batch_loop, scan_batch, Round, Ending,
  go_on, after_batch, round_end, rounds_from, started, records,
}

-- The LSNs are start, start + 1 and so on.
abbrev pub Consecutive : ℕ → List Entry → Type 0
Consecutive start [] = Unit
Consecutive start (e ∷ es) = (e.lsn ≡ start) × Consecutive (start + 1) es

Consecutive-snoc :
    (start : ℕ) (es : List Entry) (e : Entry)
    → Consecutive start es
    → e.lsn ≡ start + length es
    → Consecutive start (es ++ (e ∷ []))
Consecutive-snoc start [] e h k = (omega (arith, k), tt)
Consecutive-snoc start (x ∷ es) e h k =
    (h.0, Consecutive-snoc (start + 1) es e h.1 (omega (arith, k)))

-- What the consumer has got is consecutive, and the high-water mark is the last of it.
pub record Fed (from_lsn : ℕ) (p : Progress) : Type 0 where
  pub start : ℕ
  pub run : Consecutive start p.got
  pub mark : p.high_water + 1 ≡ start + length p.got
  pub asked : 0 < from_lsn → start ≡ from_lsn
  pub nothing : p.delivered ≡ false → p.got ≡ []
  pub small : p.high_water + 1 < 2 ^ 64

started-Fed : (from_lsn : ℕ) → from_lsn < 2 ^ 64 → Fed from_lsn (started from_lsn)
started-Fed zero h = record {
  start = 1;
  run = tt;
  mark = omega arith;
  asked = λ k. absurd (omega (arith, k));
  nothing = λ e. refl;
  small = omega arith;
}
started-Fed (suc n) h = record {
  start = suc n;
  run = tt;
  mark = omega arith;
  asked = λ k. refl;
  nothing = λ e. refl;
  small = omega arith;
}

no_position : (p : Progress) (from_lsn : ℕ) → has_position from_lsn p ≡ false → p.delivered ≡ false
no_position p from_lsn h = ground arith

no_start : (p : Progress) (from_lsn : ℕ) → has_position from_lsn p ≡ false → from_lsn ≡ 0
no_start p from_lsn h = ground arith

-- An entry right behind the mark.
behind-Fed :
    (from_lsn : ℕ) (p : Progress) (entry : Entry)
    → Fed from_lsn p
    → entry.lsn ≡ p.high_water + 1
    → entry.lsn + 1 < 2 ^ 64
    → Fed from_lsn (advance entry p)
behind-Fed from_lsn p entry fed e small = record {
  start = fed.start;
  run = Consecutive-snoc fed.start p.got entry fed.run (omega (arith, e, fed.mark));
  mark = omega (arith, e, fed.mark, length-append p.got (entry ∷ []));
  asked = fed.asked;
  nothing = λ x. absurd (cc x);
  small = small;
}

-- The first entry, where no start was asked for.
first-Fed :
    (from_lsn : ℕ) (p : Progress) (entry : Entry)
    → from_lsn ≡ 0
    → p.got ≡ []
    → entry.lsn + 1 < 2 ^ 64
    → Fed from_lsn (advance entry p)
first-Fed from_lsn p entry zero_start empty small = record {
  start = entry.lsn;
  run = rw empty (refl, tt);
  mark = rw empty (omega arith);
  asked = λ k. absurd (omega (arith, k, zero_start));
  nothing = λ x. absurd (cc x);
  small = small;
}

no_jump :
    (mark lsn : ℕ) (placed : Bool)
    → mark + 1 < 2 ^ 64
    → mark + 1 ≤ lsn
    → placed ≡ true
    → (ltb (succ_lsn mark) lsn && placed) ≡ false
    → lsn ≡ mark + 1
no_jump mark lsn placed small above h no_gap =
    let wraps_not : succ_lsn mark ≡ mark + 1 = omega arith in ground (arith, wraps_not)

advance-Fed :
    (from_lsn : ℕ) (p : Progress) (entry : Entry)
    → Fed from_lsn p
    → p.high_water + 1 ≤ entry.lsn
    → entry.lsn + 1 < 2 ^ 64
    → (ltb (succ_lsn p.high_water) entry.lsn && has_position from_lsn p) ≡ false
    → Fed from_lsn (advance entry p)
advance-Fed from_lsn p entry fed above small no_gap = elim (Bool-cases (has_position from_lsn p)) [
  | inl placed ↦
      behind-Fed from_lsn p entry fed
        (no_jump p.high_water entry.lsn (has_position from_lsn p) fed.small above placed no_gap)
        small
  | inr free ↦
      first-Fed from_lsn p entry (no_start p from_lsn free)
        (fed.nothing (no_position p from_lsn free)) small
]

-- What holds of the progress that a batch leaves.
abbrev Feeds : ℕ → Batch → Type 0
Feeds from_lsn b = Fed from_lsn b.1

module _ (wants : List Entry → Bool) (from_lsn : ℕ) where
  deliver-Fed :
      (again : Progress → Batch) (entry : Entry) (p : Progress)
      → Fed from_lsn p
      → p.high_water + 1 ≤ entry.lsn
      → entry.lsn + 1 < 2 ^ 64
      → (Fed from_lsn (advance entry p) → Feeds from_lsn (again (advance entry p)))
      → Feeds from_lsn (deliver wants from_lsn again entry p)
  unfolding deliver
  deliver-Fed again entry p fed above small ih =
      elim (Bool-cases (ltb (succ_lsn p.high_water) entry.lsn && has_position from_lsn p)) [
        | inl gap ↦ rw gap fed
        | inr no_gap ↦
            let more = advance-Fed from_lsn p entry fed above small no_gap in
            elim (Bool-cases (wants (advance entry p).got)) [
              | inl yes_please ↦ rw (no_gap, yes_please) (ih more)
              | inr enough ↦ rw (no_gap, enough) more
            ]
      ]

  batch_end-Fed :
      (e : Option Error) (p : Progress) → Fed from_lsn p → Feeds from_lsn (batch_end e p)
  unfolding batch_end
  batch_end-Fed none p fed = fed
  batch_end-Fed (some e) p fed = fed

  -- The reader starts right behind the mark.
  batch_round-Fed :
      (again : Progress → Reader → Batch) (p : Progress) (r : Reader) (more : Option Bool)
      (r' : Reader)
      → Fed from_lsn p
      → p.high_water + 1 ≡ r.from_lsn
      → r.end_lsn + 1 < 2 ^ 64
      → Advanced r more r'
      → ((q : Progress)
          → Fed from_lsn q
          → q.high_water + 1 ≡ r'.from_lsn
          → Feeds from_lsn (again q r'))
      → Feeds from_lsn (batch_round wants from_lsn again p (more, r'))
  unfolding batch_round
  batch_round-Fed again p r none r' fed e small a ih = fed
  batch_round-Fed again p r (some false) r' fed e small a ih = batch_end-Fed r'.failure p fed
  batch_round-Fed again p r (some true) r' fed e small a ih =
      deliver-Fed (λ q. again q r') r'.current p fed (omega (arith, e, a.above refl))
        (omega (arith, a.below refl))
        (λ more. ih (advance r'.current p) more (omega (arith, a.behind refl, a.below refl)))

  batch_loop-Fed :
      (fuel n : ℕ) (p : Progress) (r : Reader)
      → Fed from_lsn p
      → p.high_water + 1 ≡ r.from_lsn
      → r.end_lsn + 1 < 2 ^ 64
      → Feeds from_lsn (batch_loop wants from_lsn fuel n p r)
  unfolding batch_loop
  batch_loop-Fed fuel zero p r fed e small = fed
  batch_loop-Fed fuel (suc n) p r fed e small =
      let a = next-Advanced fuel r in
      batch_round-Fed (batch_loop wants from_lsn fuel n) p r (next fuel r).0 (next fuel r).1 fed e
        small a
        (λ q more e'. batch_loop-Fed fuel n q (next fuel r).1 more e' (omega (arith, a.ends)))

-- The last LSNs are below the largest uint64.
abbrev pub Small : Round → Type 0
Small round = round.wal.last_lsn + 1 < 2 ^ 64

module _ (f : Follower) (wants : List Entry → Bool) (fuel n : ℕ)
    (small_end : f.end_lsn + 1 < 2 ^ 64) where
  go_on-Fed :
      (again : Progress → Ending × Progress) (b : Bool × Option Error) (p : Progress)
      → Fed f.from_lsn p
      → Fed f.from_lsn (again p).1
      → Fed f.from_lsn (go_on again b p).1
  unfolding go_on
  go_on-Fed again (true, e) p fed ih = ih
  go_on-Fed again (false, e) p fed ih = fed

  after_batch-Fed :
      (round : Round) (again : Progress → Ending × Progress) (b : Option ScanOutcome) (p : Progress)
      → Fed f.from_lsn p
      → Fed f.from_lsn (again p).1
      → Fed f.from_lsn (after_batch f round again (b, p)).1
  unfolding after_batch
  after_batch-Fed round again none p fed ih = fed
  after_batch-Fed round again (some scan_stop) p fed ih = fed
  after_batch-Fed round again (some scan_truncated) p fed ih = fed
  after_batch-Fed round again (some (scan_read_error e)) p fed ih = fed
  after_batch-Fed round again (some scan_continue) p fed ih = elim (Bool-cases (not f.follow)) [
    | inl snapshot ↦ rw snapshot fed
    | inr follows ↦ rw follows (go_on-Fed again _ p fed ih)
  ]

  Small-round : (round : Round) → Small round → round_end f round.wal + 1 < 2 ^ 64
  unfolding reader_snapshot
  Small-round round h = ground arith

  scan_batch-Fed :
      (shared : Shared) (names : List (List ℕ)) (end_lsn : ℕ) (p : Progress)
      → end_lsn + 1 < 2 ^ 64
      → Fed f.from_lsn p
      → Feeds f.from_lsn (scan_batch f wants fuel n shared names end_lsn p)
  unfolding scan_batch new_reader_from
  scan_batch-Fed shared names end_lsn p small fed =
      batch_loop-Fed wants f.from_lsn fuel n p
        (new_reader_from shared names (succ_lsn p.high_water) end_lsn f.max_record) fed
        (omega (arith, fed.small)) small

  rounds_from-Fed :
      (rounds : List Round) (p : Progress)
      → All Small rounds
      → Fed f.from_lsn p
      → Fed f.from_lsn (rounds_from f wants fuel n rounds p).1
  unfolding rounds_from reader_snapshot
  rounds_from-Fed [] p h fed = fed
  rounds_from-Fed (round ∷ rounds) p h fed =
      elim (Bool-cases
        (has_position f.from_lsn p && ltb (succ_lsn p.high_water) round.wal.first_lsn)) [
          | inl lost ↦ rw lost fed
          | inr kept ↦
              let shared : Shared = record { disk = round.wal.disk; others = round.others } in
              let names = map name round.wal.segment_bases in
              let batch = scan_batch f wants fuel n shared names (round_end f round.wal) p in
              let more =
                scan_batch-Fed shared names (round_end f round.wal) p (Small-round round h.0) fed in
              rw kept (
                after_batch-Fed round (rounds_from f wants fuel n rounds) batch.0 batch.1 more
                  (rounds_from-Fed rounds batch.1 h.1 more))
        ]

-- Whatever the files hold, whatever happens to them and to the log between the steps of a follower and
-- whatever its consumer wants: the entries that the consumer gets have consecutive LSNs, from the start
-- that was asked for, if one was. The last LSNs that it meets are below the largest one.
pub records-Consecutive :
    (f : Follower) (already_closed : Bool) (wants : List Entry → Bool) (fuel n : ℕ)
    (rounds : List Round)
    → f.from_lsn < 2 ^ 64
    → f.end_lsn + 1 < 2 ^ 64
    → All Small rounds
    → (start : ℕ) × Consecutive start (records f already_closed wants fuel n rounds).1.got
      × (0 < f.from_lsn → start ≡ f.from_lsn)
unfolding records
records-Consecutive f true wants fuel n rounds lo hi small =
    let fed = started-Fed f.from_lsn lo in (fed.start, fed.run, fed.asked)
records-Consecutive f false wants fuel n rounds lo hi small =
    let fed =
      rounds_from-Fed f wants fuel n hi rounds (started f.from_lsn) small
        (started-Fed f.from_lsn lo) in
    (fed.start, fed.run, fed.asked)
