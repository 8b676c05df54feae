-- ===== src/Wal/Cut/Run.antt =====
-- CutOffset of pkg/wal/wal.go as the writer serves it (doCut of writer.go), on each of its branches.
use go_wallib.Base.{
  ℕ, ◌^◌, ◌≤◌, ◌<◌, ◌≡◌, refl, sym, ap, ◌∙◌, Bool, true, false, some, List, [], ◌∷◌, ◌++◌, arith,
  All, All-append, get_elem?, inl, inr, ◌⊎◌, ◌==◌, ==→eq, leb, min, ◌||◌, if◌then◌else◌,
}
use mathlib.Core.Path.{subst}
use mathlib.Core.List.{map, Perm}
use mathlib.Core.List.Perm
use go_wallib.Exec.{Exec, pure}
use go_wallib.Record.{Record}
use go_wallib.Segment.Header.{header_size}
use go_wallib.Segment.Name.{name}
use go_wallib.Wal.{Wal}
use go_wallib.Wal.Boundary.{boundary_index, base_at, cut_rewrite_boundary, cut_at, do_cut}
use go_wallib.Wal.Index.{IsBoundary, boundary_index-IsBoundary}
use go_wallib.Wal.Capped.{active_size}
use go_wallib.Wal.Reader.Still.{Stored, Stands, records_of, calm}
use go_wallib.Wal.Contents.{Log, Succeeds, Succeeds-ok, Succeeds-gets}
use go_wallib.Wal.Contents.Chain.{Numbered}
use go_wallib.Wal.Contents.Standing.{All-each}
use go_wallib.Wal.Boundary.{cut_delete_below, cut_everything}
use go_wallib.Wal.Contents.Rewrite.{at_or_above}
use go_wallib.Wal.Reopen.Numbers.{Linked-Numbered}
use go_wallib.Wal.Truncated.{Linked-begins}
use go_wallib.Wal.Cut.Parts.{at_or_above-all, records-range}
use go_wallib.Wal.Cut.Sides.{first_of}
use go_wallib.Wal.Cut.Below.{Cut, cut_delete_below-Cut}
use go_wallib.Wal.Indexed.Truncate.{base_at-found}
use go_wallib.Wal.Cut.Everything.{cut_everything-Cut}
use go_wallib.Wal.Cut.Source.{cut_rewrite_boundary-Cut}

IsBoundary-of :
    (bases : List ℕ) (cut : ℕ)
    → ((b : ℕ) × (get_elem? bases 0 ≡ some b) × (b ≤ cut))
    → IsBoundary bases cut (boundary_index bases cut)
IsBoundary-of [] cut (b, e, le) = absurd (cc e)
IsBoundary-of (x ∷ bases) cut (b, e, le) =
    let same : x ≡ b = cc e in boundary_index-IsBoundary x bases cut (omega arith)

Succeeds-if :
    {A : Type 0} {Q : A → Wal → Type 0} (b : Bool) (m n : Exec Wal A) (w : Wal)
    → (b ≡ true → Succeeds Q (m w))
    → (b ≡ false → Succeeds Q (n w))
    → Succeeds Q ((if b then m else n) w)
Succeeds-if true m n w hm hn = hm refl
Succeeds-if false m n w hm hn = hn refl

-- A bound that is not above the first LSN keeps everything.
all_kept :
    (start cut first : ℕ) (recs : List Record)
    → Numbered start recs
    → All (λ (r : Record). start ≤ r.lsn) recs
    → 0 < start
    → first ≡ first_of recs
    → (first == 0 || leb cut first) ≡ true
    → at_or_above cut recs ≡ recs
all_kept start cut first [] h above pos e low = refl
all_kept start cut first (r ∷ rs) h above pos e low =
    let here = h.0 in
    let le : cut ≤ start = ground (arith, here, e) in
    at_or_above-all cut (r ∷ rs) (All-each (r ∷ rs) (λ q lo. omega arith) above)

starts_below :
    (start cut first : ℕ) (recs : List Record)
    → Numbered start recs
    → first ≡ first_of recs
    → (first == 0 || leb cut first) ≡ false
    → start < cut
starts_below start cut first [] h e low = absurd (ground (arith, e))
starts_below start cut first (r ∷ rs) h e low = let here = h.0 in ground (arith, here, e)

module _ (w : Wal) (recs : List Record) (up_to : ℕ) (log : Log w recs) (small : w.next_lsn < 2 ^ 64)
    (published : w.first_lsn ≡ first_of recs)
    (room : (up_to < w.next_lsn) ⊎ (header_size < active_size w.active)) where
  abbrev cut : ℕ
  cut = min up_to w.next_lsn

  abbrev log_segs : List Stored
  log_segs = log.body.older ++ (log.body.newest ∷ [])

  numbered : Numbered log.body.start recs
  numbered =
      subst (Numbered log.body.start) log.body.all
        (Linked-Numbered log.body.start w.next_lsn w.segment_bases log_segs log.body.linked).0

  from_start : All (λ (r : Record). log.body.start ≤ r.lsn) recs
  from_start = subst (All (λ (r : Record). log.body.start ≤ r.lsn)) log.body.all (
      All-each (records_of log_segs) (λ r k. k.0)
        (records-range log.body.start w.next_lsn w.segment_bases log_segs log.body.linked))

  unchanged : (w.first_lsn == 0 || leb cut w.first_lsn) ≡ true → Cut w recs cut w
  unchanged e =
      let same =
        all_kept log.body.start cut w.first_lsn recs numbered from_start log.body.first published
          e in
      record {
        held = record {
          files = log.files;
          now = log.now;
          segs = log_segs;
          disk = log.disk;
          named = log.body.named;
          stand =
              All-append (Stands (calm log.files log.now) w.opts.max_record_size) log.body.older
                (log.body.newest ∷ []) log.body.older_stand (log.body.newest_stands, tt);
          all = log.body.all ∙ sym same;
          listed =
              subst (λ l. Perm l (map name w.segment_bases)) (sym log.body.listed) (Perm.refl _);
        };
        first = published ∙ ap first_of (sym same);
        counter = refl;
      }

  grown : w.next_lsn ≤ cut → header_size < log.body.seg.size
  grown le = elim room [
    | inl lt ↦ absurd (omega arith)
    | inr more ↦ omega (arith, ap active_size log.body.there)
  ]

  everything :
      w.next_lsn ≤ cut
      → Succeeds (λ _. Cut w recs cut) (cut_everything w.segment_bases w.next_lsn w)
  everything le =
      let same : w.next_lsn ≡ cut = omega arith in
      subst (λ c. Succeeds (λ _. Cut w recs c) (cut_everything w.segment_bases w.next_lsn w)) same
        (cut_everything-Cut w recs log small (grown le))

  IsBoundary-here :
      log.body.start ≤ cut → IsBoundary w.segment_bases cut (boundary_index w.segment_bases cut)
  IsBoundary-here le =
      let (k, first, here) =
        Linked-begins log.body.start w.next_lsn w.segment_bases log.body.older log.body.newest
          log.body.linked in
      IsBoundary-of w.segment_bases cut (k, first, omega arith)

  inside :
      log.body.start < cut
      → cut < w.next_lsn
      → (n : ℕ) → IsBoundary w.segment_bases cut n
      → Succeeds
          (λ _. Cut w recs cut)
          ((if base_at w.segment_bases n == cut
              then cut_delete_below w.segment_bases n cut
              else cut_rewrite_boundary w.segment_bases n cut)
            w)
  inside low high n b =
      let base = base_at-found w.segment_bases n b.base b.found in
      let le = b.starts_below in
      Succeeds-if (base_at w.segment_bases n == cut) (cut_delete_below w.segment_bases n cut)
        (cut_rewrite_boundary w.segment_bases n cut) w
        (λ e.
          cut_delete_below-Cut w recs log small n cut (b.found ∙ ap some (sym base ∙ ==→eq _ _ e))
            (omega arith) high)
        (λ e.
          cut_rewrite_boundary-Cut w recs log small n b.base cut b.found
            (ground (arith, base, le, e)) high b.last_such base)

  -- A log stands in a directory in which nothing fails, its `FirstLSN` is the LSN of its first record
  -- (0 if it has none), its LSNs are below 2 ^ 64, and the bound is below the next LSN or the active
  -- segment holds a record. Then CutOffset succeeds, with the bound taken down to the next LSN: the
  -- segments of the index hold exactly the records at or above it, in their order, the directory has
  -- the files of these segments and no others, `FirstLSN` is the LSN of the first record that is left
  -- (0 if none is), and the counter stays.
  pub do_cut-Cut : Succeeds (λ _. Cut w recs cut) (do_cut up_to w)
  unfolding do_cut cut_at pure
  do_cut-Cut = Succeeds-gets _ _ w (
      Succeeds-gets _ _ w (
        Succeeds-gets _ _ w (
          Succeeds-if (w.first_lsn == 0 || leb cut w.first_lsn) (pure tt) _ w
            (λ kept. Succeeds-ok tt w (unchanged kept))
            (λ more.
              let low = starts_below log.body.start cut w.first_lsn recs numbered published more in
              Succeeds-if (leb w.next_lsn cut) (cut_everything w.segment_bases w.next_lsn) _ w
                (λ all. everything (ground arith))
                (λ some_left.
                  inside low (ground arith) (boundary_index w.segment_bases cut)
                    (IsBoundary-here (omega arith)))))))
