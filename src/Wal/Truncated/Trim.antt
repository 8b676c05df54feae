-- ===== src/Wal/Truncated/Trim.antt =====
-- doTruncate of pkg/wal/writer.go on a log: the first segments go, one after the other.
use go_wallib.Base.{
  ℕ, zero, suc, ◌+◌, ◌^◌, ◌<◌, ◌≤◌, ◌≡◌, refl, sym, ap, ◌∙◌, Bool-cases, Option, some, List, [],
  ◌∷◌, ◌++◌, append_assoc, arith, length, length-append, take, drop, get_elem?, All, All-append,
  inl, inr, ◌⊎◌, ◌==◌, ==→eq, if◌then◌else◌,
}
use mathlib.Core.Path.{subst}
use go_wallib.Errors.{ok}
use go_wallib.Exec.{bind_run, pure, modify}
use go_wallib.Record.{Record}
use go_wallib.Disk.{File}
use go_wallib.Segment.Files.{Segment}
use go_wallib.Wal.{Wal}
use go_wallib.Wal.Boundary.{
  remove_all, remove_segment_file, deletable, head_base, drop_bases, set_first, truncate_first,
  do_truncate,
}
use go_wallib.Wal.Index.{EndsBelow, deletable-EndsBelow, deletable_kept}
use go_wallib.Wal.Reader.Still.{Stored, calm}
use go_wallib.Wal.Contents.{
  Body, Log, Succeeds, Succeeds-ok, Succeeds-bind, Succeeds-on_disk, Succeeds-modify, Succeeds-gets,
}
use go_wallib.Wal.Contents.Chain.{Linked, Numbered}
use go_wallib.Wal.Reopen.Numbers.{Linked-Numbered}
use go_wallib.Wal.Contents.Standing.{All-each}
use go_wallib.Wal.Truncated.{Front, Linked-begins}
use go_wallib.Wal.Truncated.First.{Front-gone}

Numbered-below :
    (b : ℕ) (recs : List Record)
    → Numbered b recs
    → All (λ (r : Record). r.lsn < b + length recs) recs
Numbered-below b [] h = tt
Numbered-below b (r ∷ recs) h =
    let here = h.0 in
    (omega arith, All-each recs (λ q lt. omega arith) (Numbered-below (suc b) recs h.1))

Numbered-above :
    (b : ℕ) (recs : List Record) → Numbered b recs → All (λ (r : Record). b ≤ r.lsn) recs
Numbered-above b [] h = tt
Numbered-above b (r ∷ recs) h =
    let here = h.0 in
    (omega arith, All-each recs (λ q le. omega arith) (Numbered-above (suc b) recs h.1))

-- The first n segments are gone, with their records, which are all below the base that is first now.
record Trimmed (files : List File) (now n : ℕ) (active : Option Segment) (bases : List ℕ)
    (next_lsn max_rec : ℕ) (recs : List Record) : Type 0 where
  files' : List File
  gone : List Record
  left : List Record
  base : ℕ
  run : remove_all (take n bases) (calm files now) ≡ (ok tt, calm files' now)
  body : Body files' now active (drop n bases) next_lsn max_rec left
  split : gone ++ left ≡ recs
  some_gone : 0 < n → 0 < length gone
  none_gone : n ≡ 0 → gone ≡ []
  first : get_elem? (drop n bases) 0 ≡ some base
  low : (k : ℕ) → get_elem? bases 0 ≡ some k → k ≤ base
  below : All (λ (r : Record). r.lsn < base) gone

only_one :
    (start end b : ℕ) (bases : List ℕ) (s : Stored)
    → Linked start (b ∷ bases) (s ∷ []) end
    → bases ≡ []
only_one start end b [] s h = refl
only_one start end b (c ∷ bases) s h = absurd (h.3 tt)

module _ {now next_lsn max_rec : ℕ} {active : Option Segment} where
  first_base :
      {files : List File} {bases : List ℕ} {recs : List Record}
      → (body : Body files now active bases next_lsn max_rec recs)
      → (b : ℕ) × (get_elem? bases 0 ≡ some b) × (b ≡ body.start)
  first_base {bases = bases} body =
      Linked-begins body.start next_lsn bases body.older body.newest body.linked

  nothing :
      {files : List File} (bases : List ℕ) {recs : List Record}
      → Body files now active bases next_lsn max_rec recs
      → Trimmed files now 0 active bases next_lsn max_rec recs
  unfolding remove_all pure
  nothing {files = files} bases {recs = recs} body =
      let (b, first, at) = first_base body in
      record {
        files' = files;
        gone = [];
        left = recs;
        base = b;
        run = refl;
        body = body;
        split = refl;
        some_gone = λ lt. absurd (omega arith);
        none_gone = λ e. refl;
        first = first;
        low = λ k e. omega (arith, some-eq k b (sym e ∙ first));
        below = tt;
      }
    where
      some-eq : (x y : ℕ) → some x ≡ some y → x ≡ y
      some-eq x y e = cc e

  -- If there are others behind the first segment, it is not the active one.
  Front-of :
      {files : List File} {b : ℕ} {bases : List ℕ} {recs : List Record}
      → (body : Body files now active (b ∷ bases) next_lsn max_rec recs) → next_lsn < 2 ^ 64
      → 0 < length bases
      → Front files now active b bases next_lsn max_rec recs
  Front-of {files} {b} {bases} {recs} body small lt = go body.older refl
    where
      go :
          (older : List Stored)
          → body.older ≡ older
          → Front files now active b bases next_lsn max_rec recs
      go [] e =
          let none_left = only_one body.start next_lsn b bases body.newest (
            subst (λ os. Linked body.start (b ∷ bases) (os ++ (body.newest ∷ [])) next_lsn) e
              body.linked) in
          absurd (omega (arith, ap length none_left))
      go (s ∷ older) e = Front-gone body small s older e

  next_one :
      {files : List File} (n b : ℕ) (bases : List ℕ) {recs : List Record}
      → (f : Front files now active b bases next_lsn max_rec recs)
      → Trimmed f.files_left now n active bases next_lsn max_rec f.left
      → Trimmed files now (suc n) active (b ∷ bases) next_lsn max_rec recs
  unfolding remove_all
  next_one {files} n b bases f t =
      let (k, first, at) = f.begins in
      let le = t.low k first in
      let more = f.some_gone in
      record {
        files' = t.files';
        gone = f.gone ++ t.gone;
        left = t.left;
        base = t.base;
        run =
            bind_run (remove_segment_file b) _ (calm files now) (calm f.files_left now) (ok tt)
              f.run
            ∙ t.run;
        body = t.body;
        split = append_assoc f.gone t.gone t.left ∙ ap (λ l. f.gone ++ l) t.split ∙ f.split;
        some_gone = λ _. omega (arith, length-append f.gone t.gone);
        none_gone = λ e. absurd (omega arith);
        first = t.first;
        low = λ j e. let same : b ≡ j = cc e in omega arith;
        below =
            All-append (λ (r : Record). r.lsn < t.base) f.gone t.gone
              (All-each f.gone (λ r lo. omega arith) (Numbered-below b f.gone f.numbered)) t.below;
      }

  trim :
      (n : ℕ) (bases : List ℕ) (files : List File) (recs : List Record)
      → Body files now active bases next_lsn max_rec recs
      → next_lsn < 2 ^ 64
      → n < length bases
      → Trimmed files now n active bases next_lsn max_rec recs
  trim zero bases files recs body small lt = nothing bases body
  trim (suc n) [] files recs body small lt = absurd (omega arith)
  trim (suc n) (b ∷ bases) files recs body small lt =
      let f = Front-of body small (omega arith) in
      next_one n b bases f (trim n bases f.files_left f.left f.body small (omega arith))

pub get_elem?-drop :
    (xs : List ℕ) (n i j : ℕ) → j ≡ n + i → get_elem? (drop n xs) i ≡ get_elem? xs j
get_elem?-drop xs zero i j e = ap (get_elem? xs) (omega (arith, e))
get_elem?-drop [] (suc n) i j e = refl
get_elem?-drop (x ∷ xs) (suc n) i zero e = absurd (omega (arith, e))
get_elem?-drop (x ∷ xs) (suc n) i (suc j) e = get_elem?-drop xs n i j (omega (arith, e))

-- What a truncation leaves of a log: the records from the base of a segment on, at the bound or below
-- it. The next segment, if there is one, starts above the bound.
pub record Left (w : Wal) (recs : List Record) (up_to : ℕ) (w' : Wal) : Type 0 where
  pub gone : List Record
  pub left : List Record
  pub split : gone ++ left ≡ recs
  pub holds : Log w' left
  pub base : ℕ
  pub first : get_elem? w'.segment_bases 0 ≡ some base
  pub below : All (λ (r : Record). r.lsn < base) gone
  pub above : All (λ (r : Record). base ≤ r.lsn) left
  pub within : (gone ≡ []) ⊎ (base ≤ up_to)
  pub complete : ¬ EndsBelow w'.segment_bases up_to 0
  pub starts : w'.first_lsn ≡ (if length gone == 0 then w.first_lsn else base)
  pub counter : w'.next_lsn ≡ w.next_lsn
  pub keeps_active : w'.active ≡ w.active

nonempty :
    (start end : ℕ) (bases : List ℕ) (older : List Stored) (s : Stored)
    → Linked start bases (older ++ (s ∷ [])) end
    → 0 < length bases
nonempty start end [] [] s h = absurd (h tt)
nonempty start end [] (o ∷ older) s h = absurd (h tt)
nonempty start end (b ∷ bases) older s h = omega arith

head_run :
    (u : Wal) (xs : List ℕ) (b : ℕ)
    → get_elem? xs 0 ≡ some b
    → Succeeds (λ first w'. (first ≡ b) × (w' ≡ u)) (head_base xs u)
unfolding pure
head_run u [] b e = absurd (cc e)
head_run u (x ∷ xs) b e = Succeeds-ok x u (cc e, refl)

module _ (w : Wal) (recs : List Record) (up_to : ℕ) (log : Log w recs)
    (small : w.next_lsn < 2 ^ 64) where
  abbrev count : ℕ
  count = deletable w.segment_bases up_to

  kept_one : (count < length w.segment_bases) × ¬ EndsBelow w.segment_bases up_to count
  kept_one = deletable_kept w.segment_bases up_to (
      nonempty log.body.start w.next_lsn w.segment_bases log.body.older log.body.newest
        log.body.linked)

  abbrev Gone : Type 0
  Gone =
      Trimmed log.files log.now count w.active w.segment_bases w.next_lsn w.opts.max_record_size
        recs

  -- The segments chosen are gone.
  abbrev shorter : Gone → ℕ → Wal
  shorter t first = record w {
    disk = calm t.files' log.now;
    segment_bases = drop count w.segment_bases;
    first_lsn = first;
  }

  bound_within : (t : Gone) → (t.gone ≡ []) ⊎ (t.base ≤ up_to)
  bound_within t = go count refl
    where
      go : (n : ℕ) → count ≡ n → (t.gone ≡ []) ⊎ (t.base ≤ up_to)
      go zero e = inl (t.none_gone e)
      go (suc n) e =
          let (after, found, le) = deletable-EndsBelow w.segment_bases up_to n (omega (arith, e)) in
          let same : some t.base ≡ some after =
            sym t.first
            ∙ get_elem?-drop w.segment_bases count 0 (suc n) (omega (arith, e))
            ∙ found in
          let at : t.base ≡ after = cc same in inr (omega (arith, at, le))

  shorter-Left :
      (t : Gone) (first : ℕ)
      → first ≡ (if length t.gone == 0 then w.first_lsn else t.base)
      → Left w recs up_to (shorter t first)
  shorter-Left t first e =
      let (b, here, at) = first_base t.body in
      let same : some t.base ≡ some b = sym t.first ∙ here in
      let start : t.base ≡ b = cc same in
      let (numbered, total) =
        Linked-Numbered t.body.start w.next_lsn (drop count w.segment_bases)
          (t.body.older ++ (t.body.newest ∷ [])) t.body.linked in
      let from_start =
        subst (All (λ (r : Record). t.body.start ≤ r.lsn)) t.body.all
          (Numbered-above t.body.start _ numbered) in
      record {
        gone = t.gone;
        left = t.left;
        split = t.split;
        holds = record { files = t.files'; now = log.now; disk = refl; body = t.body };
        base = t.base;
        first = t.first;
        below = t.below;
        above = All-each t.left (λ r le. omega (arith, start, at, le)) from_start;
        within = bound_within t;
        complete = λ e'.
            let (after, found, le) = e' in
            kept_one.1 (
              after,
              sym (get_elem?-drop w.segment_bases count 1 (suc count) (omega arith)) ∙ found,
              le,
            );
        starts = e;
        counter = refl;
        keeps_active = refl;
      }

  truncate_first-Left :
      (t : Gone)
      → 0 < count
      → Succeeds (λ _. Left w recs up_to) (truncate_first count w.segment_bases w)
  unfolding truncate_first
  truncate_first-Left t more =
      let some_gone = t.some_gone more in
      let v : Wal = record w { disk = calm t.files' log.now } in
      let cut : Wal = record v { segment_bases = drop count w.segment_bases } in
      Succeeds-on_disk _ _ w (calm log.files log.now) (calm t.files' log.now) tt log.disk t.run (
        Succeeds-modify _ _ v (
          unfold drop_bases in
          Succeeds-bind _ _ cut
            (Succeeds-gets _ _ cut (head_run cut (drop count w.segment_bases) t.base t.first))
            (λ first w' e.
              unfold modify set_first in
              Succeeds-ok tt (set_first first w')
                (rw (e.0, e.1) (shorter-Left t t.base (ground arith))))))

  nothing_gone : count ≡ 0 → Left w recs up_to w
  nothing_gone e =
      let (b, here, at) = first_base log.body in
      let body = log.body in
      let (numbered, total) =
        Linked-Numbered body.start w.next_lsn w.segment_bases (body.older ++ (body.newest ∷ []))
          body.linked in
      let from_start =
        subst (All (λ (r : Record). body.start ≤ r.lsn)) body.all
          (Numbered-above body.start _ numbered) in
      record {
        gone = [];
        left = recs;
        split = refl;
        holds = log;
        base = b;
        first = here;
        below = tt;
        above = All-each recs (λ r le. omega (arith, at, le)) from_start;
        within = inl refl;
        complete = subst (λ k. ¬ EndsBelow w.segment_bases up_to k) e kept_one.1;
        starts = refl;
        counter = refl;
        keeps_active = refl;
      }

  -- In a directory in which nothing fails, a Truncate of a log succeeds and leaves a log. Its files
  -- are those of the directory, and its records are those of the log from the base of its first
  -- segment on: every record that is gone is below that base, and every record left is not. If any
  -- record is gone, the base is at the bound or below it, and `FirstLSN` is the base; if none is,
  -- `FirstLSN` stays. The segment behind the first one, if there is one, starts above the bound, so no
  -- more could go. The counter and the active segment stay. The LSNs are below 2 ^ 64.
  pub do_truncate-Left : Succeeds (λ _. Left w recs up_to) (do_truncate up_to w)
  unfolding do_truncate pure
  do_truncate-Left = Succeeds-gets _ _ w (elim (Bool-cases (count == 0)) [
    | inl e ↦ rw e (Succeeds-ok tt w (nothing_gone (==→eq count 0 e)))
    | inr e ↦ rw e (
        truncate_first-Left (trim count w.segment_bases log.files recs log.body small kept_one.0)
          (ground arith))
  ])
