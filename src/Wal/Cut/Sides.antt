-- ===== src/Wal/Cut/Sides.antt =====
-- The files on either side of a cut have different names, and the first LSN that is left.
use go_wallib.Base.{
  ℕ, suc, ◌+◌, ◌^◌, ◌≤◌, ◌<◌, ◌≡◌, sym, ap, ◌∙◌, false, Bool-cases, some, List, [], ◌∷◌, ◌++◌,
  arith, length, take, drop, get_elem?, All, inl, inr, leb, bytes_eq, take-append-drop,
}
use mathlib.Core.Path.{subst}
use mathlib.Core.List.{map}
use go_wallib.Record.{Record}
use go_wallib.Disk.{File, linked_names}
use go_wallib.Segment.Name.{name}
use go_wallib.Wal.Reader.Still.{Stored}
use go_wallib.Wal.Contents.Files.{name-apart}
use go_wallib.Wal.Contents.Chain.{Numbered, Linked}
use go_wallib.Wal.Contents.Rewrite.{at_or_above}
use go_wallib.Wal.Contents.Standing.{All-each}
use go_wallib.Wal.Reopen.Last.{All-map, map-All}
use go_wallib.Wal.Reopen.Gap.{map-append}

-- The LSN of the first record, 0 if there is none.
abbrev pub first_of : List Record → ℕ
first_of [] = 0
first_of (r ∷ rs) = r.lsn

pub first_of-at_or_above :
    (b cut : ℕ) (rs : List Record)
    → Numbered b rs
    → b ≤ cut
    → cut < b + length rs
    → first_of (at_or_above cut rs) ≡ cut
first_of-at_or_above b cut [] h le lt = absurd (omega arith)
first_of-at_or_above b cut (r ∷ rs) h le lt =
    let here = h.0 in
    elim (Bool-cases (leb cut r.lsn)) [
      | inl kept ↦ rw kept (ground (arith, here))
      | inr below ↦
          rw below (first_of-at_or_above (suc b) cut rs h.1 (ground (arith, here)) (omega arith))
    ]

pub names-apart :
    (mid : ℕ) (xs ys : List ℕ) (segs : List Stored)
    → All (λ b. (b < mid) × (b < 2 ^ 64)) xs
    → All (λ k. (mid ≤ k) × (k < 2 ^ 64)) ys
    → map (λ (s : Stored). s.seg_name) segs ≡ map name ys
    → All (λ b. All (λ (s : Stored). bytes_eq (name b) s.seg_name ≡ false) segs) xs
names-apart mid xs ys segs low high named =
    All-each xs
      (λ b l.
        All-map (λ n. bytes_eq (name b) n ≡ false) (λ (s : Stored). s.seg_name) segs (map name ys)
          named
          (map-All (λ n. bytes_eq (name b) n ≡ false) name ys
            (All-each ys
              (λ k h.
                let l0 = l.0 in
                let h0 = h.0 in name-apart b k (λ e. absurd (omega (arith, e))) (l.1) (h.1))
              high)))
      low

pub listed-split :
    (n : ℕ) (bases : List ℕ) (fs : List File)
    → linked_names fs ≡ map name bases
    → linked_names fs ≡ map name (take n bases) ++ map name (drop n bases)
listed-split n bases fs l =
    l
    ∙ ap (map name) (sym (take-append-drop n bases))
    ∙ map-append name (take n bases) (drop n bases)

-- All but the last.
pub All-front :
    {A : Type 0} (P : A → Type 0) (front rest older : List A) (x : A)
    → front ++ rest ≡ older ++ (x ∷ [])
    → 0 < length rest
    → All P older
    → All P front
All-front P [] rest older x e lt h = tt
All-front P (f ∷ front) [] older x e lt h = absurd (omega arith)
All-front P (f ∷ []) (r ∷ rest) [] x e lt h = absurd (cc e)
All-front P (f ∷ g ∷ front) (r ∷ rest) [] x e lt h = absurd (cc e)
All-front P (f ∷ front) (r ∷ rest) (o ∷ older) x e lt h =
    let same : f ≡ o = cc e in
    let others : front ++ (r ∷ rest) ≡ older ++ (x ∷ []) = cc e in
    (subst P (sym same) h.0, All-front P front (r ∷ rest) older x others lt h.1)

pub Linked-head :
    (mid end b : ℕ) (bases : List ℕ) (segs : List Stored)
    → Linked mid bases segs end
    → get_elem? bases 0 ≡ some b
    → (b ≡ mid) × (0 < length segs)
Linked-head mid end b [] segs h e = absurd (cc e)
Linked-head mid end b (c ∷ bases) [] h e = absurd (h tt)
Linked-head mid end b (c ∷ bases) (s ∷ segs) h e =
    let same : c ≡ b = cc e in let here = h.0 in (omega arith, omega arith)
