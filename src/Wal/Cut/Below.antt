-- ===== src/Wal/Cut/Below.antt =====
-- The cuts that delete whole segments only (cutDeleteBelow and cutEverything of pkg/wal/writer.go).
use go_wallib.Base.{
  ℕ, zero, suc, ◌+◌, ◌^◌, ◌≤◌, ◌<◌, ◌≡◌, refl, sym, ap, ◌∙◌, some, List, [], ◌∷◌, ◌++◌, arith,
  length, take, drop, get_elem?, All, All-append,
}
use mathlib.Core.Path.{subst}
use mathlib.Core.List.{map, Perm}
use mathlib.Core.List.Perm
use go_wallib.Exec.{modify}
use go_wallib.Record.{Record}
use go_wallib.Segment.Name.{name}
use go_wallib.Wal.{Wal}
use go_wallib.Wal.Boundary.{drop_bases, set_first, cut_delete_below}
use go_wallib.Wal.Reader.Still.{Stored, Stands, records_of, calm}
use go_wallib.Wal.Contents.{Body, Log, Succeeds, Succeeds-ok, Succeeds-on_disk, Succeeds-modify}
use go_wallib.Wal.Contents.Chain.{Linked, Linked-le}
use go_wallib.Wal.Contents.Rewrite.{at_or_above}
use go_wallib.Wal.Contents.Standing.{All-each}
use go_wallib.Wal.Reopen.Last.{Linked-below}
use go_wallib.Wal.Reopen.Numbers.{Linked-Numbered}
use go_wallib.Wal.Reopen.Trailing.{All-split}
use go_wallib.Wal.Truncated.{Linked-range}
use go_wallib.Wal.Truncated.Trim.{get_elem?-drop}
use go_wallib.Wal.Cut.{Removed, remove_all-calm}
use go_wallib.Wal.Cut.Parts.{
  Split, Linked-Split, Held, at_or_above-append, at_or_above-none, at_or_above-all, records-range,
  records_of-append,
}
use go_wallib.Wal.Cut.Sides.{
  first_of, first_of-at_or_above, names-apart, listed-split, All-front, Linked-head,
}

-- What a cut leaves: the records at or above it, the first of them published, the counter as it was.
pub record Cut (w : Wal) (recs : List Record) (cut : ℕ) (w' : Wal) : Type 0 where
  pub held : Held w' (at_or_above cut recs)
  pub first : w'.first_lsn ≡ first_of (at_or_above cut recs)
  pub counter : w'.next_lsn ≡ w.next_lsn

-- The segments and files of a log, at its n-th segment.
module _ (w : Wal) (recs : List Record) (log : Log w recs) (small : w.next_lsn < 2 ^ 64)
    (n : ℕ) where
  abbrev body :
      Body log.files log.now w.active w.segment_bases w.next_lsn w.opts.max_record_size recs
  body = log.body

  abbrev segs : List Stored
  segs = body.older ++ (body.newest ∷ [])

  parted : Split body.start w.next_lsn n w.segment_bases segs
  parted = Linked-Split body.start w.next_lsn n w.segment_bases segs body.linked

  stand-all : All (Stands (calm log.files log.now) w.opts.max_record_size) segs
  stand-all =
      All-append (Stands (calm log.files log.now) w.opts.max_record_size) body.older
        (body.newest ∷ []) body.older_stand (body.newest_stands, tt)

  stand-rest : All (Stands (calm log.files log.now) w.opts.max_record_size) parted.rest
  stand-rest =
      (All-split (Stands (calm log.files log.now) w.opts.max_record_size) parted.front parted.rest (
        subst (All (Stands (calm log.files log.now) w.opts.max_record_size)) (sym parted.parts)
          stand-all)).1

  records-parts : records_of parted.front ++ records_of parted.rest ≡ recs
  records-parts =
      sym (records_of-append parted.front parted.rest) ∙ ap records_of parted.parts ∙ body.all

pub map-drop :
    {A : Type 0} (f : A → List ℕ) (front rest : List A) (n : ℕ) (bases : List ℕ)
    → length front ≡ n
    → map f (front ++ rest) ≡ map name bases
    → map f rest ≡ map name (drop n bases)
map-drop f [] rest zero bases e named = named
map-drop f [] rest (suc n) bases e named = absurd (omega (arith, e))
map-drop f (x ∷ front) rest zero bases e named = absurd (omega (arith, e))
map-drop f (x ∷ front) rest (suc n) [] e named = absurd (cc named)
map-drop f (x ∷ front) rest (suc n) (b ∷ bases) e named =
    let others : map f (front ++ rest) ≡ map name bases = cc named in
    map-drop f front rest n bases (omega (arith, e)) others

pub Linked-length :
    (start end n : ℕ) (bases : List ℕ) (segs : List Stored)
    → Linked start (take n bases) segs end
    → n ≤ length bases
    → length segs ≡ n
Linked-length start end zero bases [] h le = refl
Linked-length start end zero bases (s ∷ segs) h le = absurd (h tt)
Linked-length start end (suc n) [] segs h le = absurd (omega arith)
Linked-length start end (suc n) (b ∷ bases) [] h le = absurd (h tt)
Linked-length start end (suc n) (b ∷ bases) (s ∷ segs) h le =
    omega (arith, Linked-length (start + length s.recs) end n bases segs (h.3) (omega arith))

pub inside-le : (xs : List ℕ) (n b : ℕ) → get_elem? xs n ≡ some b → n < length xs
inside-le [] n b e = absurd (cc e)
inside-le (x ∷ xs) zero b e = omega arith
inside-le (x ∷ xs) (suc n) b e = omega (arith, inside-le xs n b e)

module _ (w : Wal) (recs : List Record) (log : Log w recs) (small : w.next_lsn < 2 ^ 64) (n cut : ℕ)
    (found : get_elem? w.segment_bases n ≡ some cut) (low : log.body.start ≤ cut)
    (high : cut < w.next_lsn) where
  abbrev at : Split log.body.start w.next_lsn n w.segment_bases (segs w recs log small n)
  at = parted w recs log small n

  head_at : (cut ≡ at.mid) × (0 < length at.rest)
  head_at =
      Linked-head at.mid w.next_lsn cut (drop n w.segment_bases) at.rest at.behind
        (get_elem?-drop w.segment_bases n 0 n (omega arith) ∙ found)

  low-bases : All (λ b. (b < at.mid) × (b < 2 ^ 64)) (take n w.segment_bases)
  low-bases =
      let le = Linked-le at.mid w.next_lsn (drop n w.segment_bases) at.rest at.behind in
      All-each (take n w.segment_bases) (λ b lt. (lt, omega arith))
        (Linked-below log.body.start at.mid (take n w.segment_bases) at.front at.before (
          All-front (λ (s : Stored). 0 < length s.recs) at.front at.rest log.body.older
            log.body.newest at.parts (head_at.1) log.body.full))

  high-bases : All (λ k. (at.mid ≤ k) × (k < 2 ^ 64)) (drop n w.segment_bases)
  high-bases =
      All-each (drop n w.segment_bases) (λ k r. let top = r.1 in (r.0, omega arith))
        (Linked-range at.mid w.next_lsn (drop n w.segment_bases) at.rest at.behind)

  rest-named : map (λ (s : Stored). s.seg_name) at.rest ≡ map name (drop n w.segment_bases)
  rest-named =
      let inside = inside-le w.segment_bases n cut found in
      map-drop (λ (s : Stored). s.seg_name) at.front at.rest n w.segment_bases
        (Linked-length log.body.start at.mid n w.segment_bases at.front at.before (omega arith))
        (ap (map (λ (s : Stored). s.seg_name)) at.parts ∙ log.body.named)

  gone_files :
      Removed log.files log.now w.opts.max_record_size
        (take n w.segment_bases)
        (map name (drop n w.segment_bases))
        at.rest
  gone_files =
      remove_all-calm (take n w.segment_bases) (map name (drop n w.segment_bases)) at.rest log.files
        log.now w.opts.max_record_size (listed-split n w.segment_bases log.files log.body.listed)
        (names-apart at.mid (take n w.segment_bases) (drop n w.segment_bases) at.rest low-bases
          high-bases rest-named)
        (stand-rest w recs log small n)

  kept-records : records_of at.rest ≡ at_or_above cut recs
  kept-records =
      let same = head_at.0 in
      sym (
        ap (at_or_above cut) (sym (records-parts w recs log small n))
        ∙ at_or_above-append cut (records_of at.front) (records_of at.rest)
        ∙ ap (λ l. l ++ at_or_above cut (records_of at.rest))
            (at_or_above-none cut (records_of at.front) (
              All-each (records_of at.front) (λ r k. let top = k.1 in omega arith)
                (records-range log.body.start at.mid (take n w.segment_bases) at.front at.before)))
        ∙ at_or_above-all cut (records_of at.rest) (
            All-each (records_of at.rest) (λ r k. let bottom = k.0 in omega arith)
              (records-range at.mid w.next_lsn (drop n w.segment_bases) at.rest at.behind)))

  first-kept : cut ≡ first_of (at_or_above cut recs)
  first-kept =
      let (numbered, total) =
        Linked-Numbered log.body.start w.next_lsn w.segment_bases
          (log.body.older ++ (log.body.newest ∷ [])) log.body.linked in
      sym (
        ap (λ l. first_of (at_or_above cut l)) (sym log.body.all)
        ∙ first_of-at_or_above log.body.start cut _ numbered low (omega arith))

  pub cut_delete_below-Cut :
      Succeeds (λ _. Cut w recs cut) (cut_delete_below w.segment_bases n cut w)
  unfolding cut_delete_below
  cut_delete_below-Cut =
      let r = gone_files in
      Succeeds-on_disk _ _ w (calm log.files log.now) (calm r.files' log.now) tt log.disk r.run (
        Succeeds-modify _ _ _ (
          unfold modify drop_bases set_first in
          Succeeds-ok tt _ (record {
            held = record {
              files = r.files';
              now = log.now;
              segs = at.rest;
              disk = refl;
              named = rest-named;
              stand = r.stand;
              all = kept-records;
              listed =
                  subst (λ l. Perm l (map name (drop n w.segment_bases))) (sym r.listed)
                    (Perm.refl _);
            };
            first = first-kept;
            counter = refl;
          })))
