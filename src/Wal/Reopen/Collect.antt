-- ===== src/Wal/Reopen/Collect.antt =====
-- The first part of recovery: the segments are opened and scanned one after the other.
use go_wallib.Base.{
  ℕ, ◌+◌, ◌^◌, ◌<◌, ◌≡◌, refl, sym, ap, ◌∙◌, Bool, true, false, List, [], ◌∷◌, ◌++◌, append_assoc,
  arith, length, eq→==, inl, inr, ◌⊎◌, Option-cases, All,
}
use mathlib.Core.List.{map}
use go_wallib.Errors.{Result, ok}
use go_wallib.Exec.{Exec, ◌>>=◌, pure, on_error, bind_run}
use go_wallib.Disk.{Disk, File, find}
use go_wallib.Record.RoundTrip.{frames}
use go_wallib.Segment.Header.{header_size}
use go_wallib.Segment.Name.{name, parse-name}
use go_wallib.Segment.Files.{Segment, open_segment, scan_segment}
use go_wallib.Wal.Recover
use go_wallib.Wal.Recover.{
  OpenedSeg, map_error, join_corrupt, parse_path, keep_or_reconcile, refuse_damage, close_all,
  open_and_scan_one, open_and_scan_from,
}
use go_wallib.Wal.Reader.Still.{Stored, Stands, calm}
use go_wallib.Wal.Contents.Chain.{HeaderOf, Linked, Linked-le}
use go_wallib.Wal.Contents.Calm.{on_error-ok}
use go_wallib.Wal.Reopen.Shelf.{Ends}
use go_wallib.Wal.Reopen.Segments.{
  fresh_segment, scanned, lift_lem, open_segment-calm, scan_segment-calm,
}

pub parse_path-name : (b : ℕ) → b < 2 ^ 64 → parse_path (name b) ≡ ok b
parse_path-name b small = rw (parse-name b small, parse_path) refl

pub map_error-ok :
    {A : Type 0} (m : Exec Disk A) (d : Disk) (a : A)
    → m d ≡ (ok a, d)
    → map_error join_corrupt m d ≡ (ok a, d)
map_error-ok m d a e = rw (e, map_error) (ap (λ (x : Result _ × Disk). (ok a, x.1)) e)

-- The segment begins where it must.
abbrev pub Begins : Bool → Recover.Progress → ℕ → Type 0
Begins is_first p b = (is_first ≡ true) ⊎ (p.expected_base ≡ b)

keep_or_reconcile-Begins :
    (is_first : Bool) (p : Recover.Progress) (seg : Segment) (d : Disk)
    → Begins is_first p seg.base_lsn
    → keep_or_reconcile is_first p seg d ≡ (ok p, d)
unfolding pure
keep_or_reconcile-Begins true p seg d h = refl
keep_or_reconcile-Begins false p seg d (inl e) = absurd (cc e)
keep_or_reconcile-Begins false p seg d (inr e) =
    rw (eq→== seg.base_lsn p.expected_base (sym e)) refl

refuse_damage-last :
    (p : Recover.Progress) (o : OpenedSeg) (d : Disk) → refuse_damage true p o d ≡ (ok tt, d)
unfolding pure
refuse_damage-last p o d = elim (Option-cases o.res.scan_err) [
  | inl e ↦ rw e refl
  | inr (x, e) ↦ rw e refl
]

refuse_damage-whole :
    (is_last : Bool) (p : Recover.Progress) (b : ℕ) (s : Stored) (d : Disk)
    → (s.tail ≡ []) ⊎ (is_last ≡ true)
    → refuse_damage is_last p (scanned b s) d ≡ (ok tt, d)
unfolding pure
refuse_damage-whole is_last p b s d (inl e) = rw e refl
refuse_damage-whole is_last p b s d (inr e) = rw e (refuse_damage-last p (scanned b s) d)

-- What a round adds.
abbrev pub collected : Recover.Progress → ℕ → Stored → Recover.Progress
collected p b s = record p {
  segments = p.segments ++ (scanned b s ∷ []);
  expected_base = b + length s.recs;
}

-- What the rounds collect.
abbrev pub scanned_all : ℕ → List Stored → List OpenedSeg
scanned_all b [] = []
scanned_all b (s ∷ segs) = scanned b s ∷ scanned_all (b + length s.recs) segs

module _ (files : List File) (now max_rec : ℕ) where
  pub open_and_scan_one-calm :
      (is_first is_last : Bool) (p : Recover.Progress) (b : ℕ) (s : Stored)
      → HeaderOf b s.header
      → s.seg_name ≡ name b
      → Stands (calm files now) max_rec s
      → Ends max_rec s.tail
      → Begins is_first p b
      → (s.tail ≡ []) ⊎ (is_last ≡ true)
      → b + length s.recs < 2 ^ 64
      → open_and_scan_one is_first is_last max_rec (name b) p (calm files now)
        ≡ (ok (collected p b s), calm files now)
  unfolding open_and_scan_one
  open_and_scan_one-calm is_first is_last p b s (time, header) named st ends begins whole small =
      let d = calm files now in
      let size = header_size + length (frames s.recs ++ s.tail) in
      bind_run (on_error _ _) _ d d (ok b)
        (on_error-ok _ _ d d b (lift_lem _ _ d (parse_path-name b (omega arith))))
      ∙ bind_run (on_error _ _) _ d d (ok (fresh_segment b s.handle size)) (
          on_error-ok _ _ d d (fresh_segment b s.handle size) (
            map_error-ok (open_segment b) d (fresh_segment b s.handle size) (
              open_segment-calm files now b time s.handle (frames s.recs ++ s.tail)
                (ap (λ n. find n files) (sym named) ∙ st.found)
                (st.content ∙ ap (λ l. l ++ (frames s.recs ++ s.tail)) header) (omega arith))))
      ∙ bind_run (keep_or_reconcile is_first p (fresh_segment b s.handle size)) _ d d (ok p)
          (keep_or_reconcile-Begins is_first p (fresh_segment b s.handle size) d begins)
      ∙ bind_run (scan_segment (fresh_segment b s.handle size) max_rec) _ d d _
          (scan_segment-calm files now max_rec b s st ends)
      ∙ bind_run (refuse_damage is_last p (scanned b s)) _ d d (ok tt)
          (refuse_damage-whole is_last p b s d whole)
      ∙ unfold pure in
        ap
          (λ (n : ℕ).
            (ok (record p { segments = p.segments ++ (scanned b s ∷ []); expected_base = n }), d))
          (omega arith)

  -- The segments of a log are collected one and all, in their order.
  pub open_and_scan_from-calm :
      (is_first : Bool) (p : Recover.Progress) (start end : ℕ) (bases : List ℕ)
      (older : List Stored) (newest : Stored)
      → Linked start bases (older ++ (newest ∷ [])) end
      → map (λ (s : Stored). s.seg_name) (older ++ (newest ∷ [])) ≡ map name bases
      → All (Stands (calm files now) max_rec) older
      → Stands (calm files now) max_rec newest
      → All (λ (s : Stored). s.tail ≡ []) older
      → Ends max_rec newest.tail
      → Begins is_first p start
      → end < 2 ^ 64
      → open_and_scan_from is_first max_rec (map name bases) p (calm files now) ≡ (
        ok (record p {
          segments = p.segments ++ scanned_all start (older ++ (newest ∷ []));
          expected_base = end;
        }),
        calm files now,
      )
  unfolding open_and_scan_from
  open_and_scan_from-calm is_first p start end [] [] newest linked named olds st cleaned ends begins
        small =
      absurd (linked tt)
  open_and_scan_from-calm is_first p start end (b ∷ []) [] newest linked named olds st cleaned ends
        begins small =
      let d = calm files now in
      let last : start + length newest.recs ≡ end = linked.3 in
      let first : newest.seg_name ≡ name b = cc named in
      ap (λ k. open_and_scan_one is_first true max_rec (name k) p d) linked.0
      ∙ open_and_scan_one-calm is_first true p start newest linked.1 (first ∙ ap name linked.0) st
          ends begins (inr refl) (omega arith)
      ∙ ap
          (λ n. (
            ok (record p {
              segments = p.segments ++ (scanned start newest ∷ []);
              expected_base = n;
            }),
            d,
          ))
          last
  open_and_scan_from-calm is_first p start end (b ∷ c ∷ bases) [] newest linked named olds st
        cleaned ends begins small =
      absurd (linked.3 tt)
  open_and_scan_from-calm is_first p start end [] (o ∷ older) newest linked named olds st cleaned
        ends begins small =
      absurd (linked tt)
  open_and_scan_from-calm is_first p start end (b ∷ []) (o ∷ []) newest linked named olds st cleaned
        ends begins small =
      absurd (linked.3 tt)
  open_and_scan_from-calm is_first p start end (b ∷ []) (o ∷ q ∷ older) newest linked named olds st
        cleaned ends begins small =
      absurd (linked.3 tt)
  open_and_scan_from-calm is_first p start end (b ∷ c ∷ bases) (o ∷ older) newest linked named olds
        st cleaned ends begins small =
      let d = calm files now in
      let le =
        Linked-le (start + length o.recs) end (c ∷ bases) (older ++ (newest ∷ [])) (linked.3) in
      let first : o.seg_name ≡ name b = cc named in
      let others : map (λ (s : Stored). s.seg_name) (older ++ (newest ∷ []))
          ≡ map name (c ∷ bases) =
        cc named in
      ap
        (λ k.
          (open_and_scan_one is_first false max_rec (name k) p >>= λ p'.
          open_and_scan_from false max_rec (map name (c ∷ bases)) p')
            d)
        linked.0
      ∙ bind_run (open_and_scan_one is_first false max_rec (name start) p) _ d d _ (
          open_and_scan_one-calm is_first false p start o linked.1 (first ∙ ap name linked.0) olds.0
            (inl cleaned.0) begins (inl cleaned.0) (omega arith))
      ∙ open_and_scan_from-calm false (collected p start o) (start + length o.recs) end (c ∷ bases)
          older newest (linked.3) others olds.1 st cleaned.1 ends (inr refl) small
      ∙ ap (λ l. (ok (record p { segments = l; expected_base = end }), d))
          (append_assoc p.segments (scanned start o ∷ [])
            (scanned_all (start + length o.recs) (older ++ (newest ∷ []))))
