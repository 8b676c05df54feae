-- ===== src/Wal/Indexed/Install.antt =====
-- The indexes that the cuts of CutOffset install are well formed.
use go_wallib.Base.{
  ℕ, zero, suc, ◌+◌, ◌<◌, ◌≡◌, refl, sym, ◌∙◌, ap, some, List, [], ◌∷◌, arith, length, drop, ltb,
  ◌==◌, if◌then◌else◌, Bool, true, false, Bool-cases, inl, inr, ==→eq, ltb→lt, ltb→le,
}
use mathlib.Core.Path.{subst}
use go_wallib.Segment.Files.{Segment}
use go_wallib.Segment.Bases.{Fresh, Based}
use go_wallib.Wal.{Wal}
use go_wallib.Wal.Boundary.{install_cut, install_empty}
use go_wallib.Wal.Index.{EndsBelow, IsBoundary}
use go_wallib.Wal.Lsns.{InOrder}
use go_wallib.Wal.Indexed.{Indexed, IsActive, last_base, last_base-drop}
use go_wallib.Wal.Indexed.Truncate.{Rest-get_elem, inside-some}

-- Behind the boundary, the bases start above the cut.
above_cut :
    (xs : List ℕ) (lo hi n cut : ℕ)
    → InOrder lo xs hi
    → ¬ EndsBelow xs cut n
    → cut < hi
    → InOrder (cut + 1) (drop (suc n) xs) hi
above_cut [] lo hi n cut h e lt = omega arith
above_cut (x ∷ []) lo hi zero cut h e lt = omega arith
above_cut (x ∷ y ∷ xs) lo hi zero cut h e lt = (
  elim (Bool-cases (ltb cut y)) [
    | inl above ↦ omega (arith, ltb→lt cut y above)
    | inr below ↦ absurd (e (y, refl, ltb→le cut y below))
  ],
  h.1.1,
)
above_cut (x ∷ []) lo hi (suc n) cut h e lt = omega arith
above_cut (x ∷ y ∷ xs) lo hi (suc n) cut h e lt = above_cut (y ∷ xs) (x + 1) hi n cut h.1 e lt

drop-all : (xs : List ℕ) (n : ℕ) → n ≡ length xs → drop n xs ≡ []
drop-all [] zero e = refl
drop-all [] (suc n) e = refl
drop-all (x ∷ xs) zero e = absurd (omega (arith, e))
drop-all (x ∷ xs) (suc n) e = drop-all xs n (omega (arith, e))

last_base-cons : (b n : ℕ) (xs : List ℕ) → n < length xs → last_base (b ∷ drop n xs) ≡ last_base xs
last_base-cons b n xs h =
    let (c, found) = inside-some xs n h in
    let r = Rest-get_elem xs n c found in rw r.split (rw r.split at (last_base-drop n xs h))

not_last : (n l : ℕ) → (n + 1 == l) ≡ false → n < l → n + 1 < l
not_last n l e h = ground arith

-- The place of the active segment after a cut through segment n.
cut-IsActive :
    (is_active : Bool) (w : Wal) (n cut : ℕ) (new : Segment)
    → Indexed w
    → is_active ≡ (n + 1 == length w.segment_bases)
    → n < length w.segment_bases
    → Based cut new
    → cut < w.next_lsn
    → IsActive
        (cut ∷ drop (n + 1) w.segment_bases)
        w.next_lsn
        (if is_active then some new else w.active)
cut-IsActive true w n cut new i e inside based lt = record {
  seg = new;
  there = refl;
  newest = rw (drop-all w.segment_bases (n + 1) (==→eq _ _ (sym e))) (ap some (sym based.base));
  written = λ more. omega (arith, based.base, lt);
}
cut-IsActive false w n cut new i e inside based lt = record {
  seg = i.open_one.seg;
  there = i.open_one.there;
  newest =
      last_base-cons cut (n + 1) w.segment_bases
        (not_last n (length w.segment_bases) (sym e) inside)
      ∙ i.open_one.newest;
  written = i.open_one.written;
}

suc_is : (n : ℕ) → suc n ≡ n + 1
suc_is n = omega arith

pub install_cut-Indexed :
    (w : Wal) (n cut : ℕ) (new : Segment)
    → Indexed w
    → IsBoundary w.segment_bases cut n
    → Based cut new
    → cut < w.next_lsn
    → Indexed (install_cut (n + 1 == length w.segment_bases) n cut new w)
unfolding install_cut
install_cut-Indexed w n cut new i b based lt = record {
  ascending = (
    omega arith,
    subst (λ m. InOrder (cut + 1) (drop m w.segment_bases) (w.next_lsn + 1)) (suc_is n)
        (above_cut w.segment_bases 0 (w.next_lsn + 1) n cut i.ascending b.last_such
          (omega (arith, lt))),
  );
  open_one =
      cut-IsActive _ w n cut new i refl (Rest-get_elem w.segment_bases n b.base b.found).inside
        based lt;
  first = inr refl;
}

pub install_empty-Indexed :
    (w : Wal) (new : Segment) → Fresh w.next_lsn new → Indexed (install_empty new w.next_lsn w)
unfolding install_empty
install_empty-Indexed w new fresh = record {
  ascending = (omega arith, omega arith);
  open_one = record {
    seg = new;
    there = refl;
    newest = ap some (sym fresh.base);
    written = λ more. absurd (omega (arith, fresh.size, more));
  };
  first = inl refl;
}
