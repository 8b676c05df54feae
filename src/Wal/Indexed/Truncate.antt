-- ===== src/Wal/Indexed/Truncate.antt =====
-- Truncate keeps the index well formed, whatever fails on the way.
use go_wallib.Base.{
  ℕ, zero, suc, ◌+◌, ◌<◌, ◌≡◌, refl, ◌∙◌, ap, some, List, [], ◌∷◌, arith, length, drop, get_elem?,
  ◌==◌, ==→eq, sym, inr, true, false, if◌then◌else◌,
}
use go_wallib.Errors.{Result}
use go_wallib.Exec.{modify, pure}
use go_wallib.Exec.Yields.{Yields-any}
use go_wallib.Wal.{Wal}
use go_wallib.Wal.Boundary.{
  deletable, head_base, drop_bases, set_first, truncate_first, do_truncate, base_at,
}
use go_wallib.Wal.Index.{deletable_kept}
use go_wallib.Wal.Indexed.{
  Indexed, Indexed-disk, StartsAt, last_base, last_base-drop, InOrder-drop, Leaves, Leaves-ok,
  Leaves-if, Leaves-bind, Leaves-on_disk, Leaves-modify, Leaves-gets,
}

-- What is left of a list behind its first n places.
pub record Rest (xs : List ℕ) (n b : ℕ) : Type 0 where
  pub others : List ℕ
  pub split : drop n xs ≡ b ∷ others
  pub inside : n < length xs

pub Rest-get_elem : (xs : List ℕ) (n b : ℕ) → get_elem? xs n ≡ some b → Rest xs n b
Rest-get_elem [] n b e = absurd (cc e)
Rest-get_elem (x ∷ xs) zero b e = record {
  others = xs;
  split = ap (λ y. y ∷ xs) (cc e);
  inside = omega arith;
}
Rest-get_elem (x ∷ xs) (suc n) b e =
    let r = Rest-get_elem xs n b e in
    record { others = r.others; split = r.split; inside = omega (arith, r.inside) }

pub inside-some : (xs : List ℕ) (n : ℕ) → n < length xs → (b : ℕ) × (get_elem? xs n ≡ some b)
inside-some [] n h = absurd (omega arith)
inside-some (x ∷ xs) zero h = (x, refl)
inside-some (x ∷ xs) (suc n) h = inside-some xs n (omega arith)

StartsAt-cons : (first : ℕ) (xs others : List ℕ) → xs ≡ first ∷ others → StartsAt first xs
StartsAt-cons first xs others e = rw e (inr refl)

-- Dropping segments below one of the index, which becomes the first.
pub dropped-Indexed :
    (w : Wal) (n b : ℕ)
    → Indexed w
    → Rest w.segment_bases n b
    → Indexed (set_first b (drop_bases n w))
unfolding set_first drop_bases
dropped-Indexed w n b i r = record {
  ascending = InOrder-drop 0 (w.next_lsn + 1) n w.segment_bases i.ascending;
  open_one = record {
    seg = i.open_one.seg;
    there = i.open_one.there;
    newest = last_base-drop n w.segment_bases r.inside ∙ i.open_one.newest;
    written = i.open_one.written;
  };
  first = StartsAt-cons b (drop n w.segment_bases) r.others r.split;
}

head_base-run :
    (w : Wal) (b : ℕ) (xs others : List ℕ)
    → xs ≡ b ∷ others
    → Leaves (λ a w'. (a ≡ b) × (w' ≡ w)) (head_base xs w)
unfolding pure
head_base-run w b [] others e = absurd (cc e)
head_base-run w b (x ∷ xs) others e = Leaves-ok x w (cc e, refl)

pub nonempty : (w : Wal) → Indexed w → 0 < length w.segment_bases
nonempty w i = go w.segment_bases i.open_one.newest
  where
    go : (xs : List ℕ) → last_base xs ≡ some i.open_one.seg.base_lsn → 0 < length xs
    go [] e = absurd (cc e)
    go (x ∷ xs) e = omega arith

pub base_at-found : (xs : List ℕ) (n b : ℕ) → get_elem? xs n ≡ some b → base_at xs n ≡ b
base_at-found xs n b e = rw (e, base_at) refl

-- The index without its first n segments, and the log starting where the rest does.
record Truncated (v : Wal) (n first : ℕ) (w : Wal) : Type 0 where
  indexed : Indexed w
  bases : w.segment_bases ≡ drop n v.segment_bases
  starts : w.first_lsn ≡ first
  keeps_active : w.active ≡ v.active

truncate_first-Truncated :
    (w : Wal) (n : ℕ)
    → Indexed w
    → n < length w.segment_bases
    → Leaves (λ _. Truncated w n (base_at w.segment_bases n)) (truncate_first n w.segment_bases w)
unfolding truncate_first
truncate_first-Truncated w n i h =
    let (b, found) = inside-some w.segment_bases n h in
    let r = Rest-get_elem w.segment_bases n b found in
    Leaves-on_disk _ _ w i (Yields-any _) (λ _ d. λ _.
      Leaves-modify _ _ (record w { disk = d })
        (Leaves-bind _ _ _
          (Leaves-gets _ _ _ (
            head_base-run (drop_bases n (record w { disk = d })) b _ r.others
              (unfold drop_bases in r.split)))
          (λ a w' e.
            unfold modify in
            Leaves-ok tt (set_first a w') (
              rw (e.0, e.1)
                (record {
                  indexed = dropped-Indexed (record w { disk = d }) n b (Indexed-disk w d i) r;
                  bases = unfold set_first drop_bases in refl;
                  starts = unfold set_first in sym (base_at-found w.segment_bases n b found);
                  keeps_active = unfold set_first drop_bases in refl;
                })))))

-- Where the log starts after its first n segments are gone.
abbrev pub truncated_first : List ℕ → ℕ → ℕ → ℕ
truncated_first bases first n = if n == 0 then first else base_at bases n

nothing_truncated :
    (bases : List ℕ) (first n : ℕ)
    → (n == 0) ≡ true
    → (bases ≡ drop n bases) × (first ≡ truncated_first bases first n)
nothing_truncated bases first n e = rw (==→eq n 0 e) (refl, refl)

Truncated-as :
    {o : Result Unit × Wal} (w : Wal) (n : ℕ)
    → (n == 0) ≡ false
    → Leaves (λ _. Truncated w n (base_at w.segment_bases n)) o
    → Leaves (λ _. Truncated w n (truncated_first w.segment_bases w.first_lsn n)) o
Truncated-as w n e h = rw e h

do_truncate-Truncated :
    (up_to : ℕ) (w : Wal)
    → Indexed w
    → Leaves
        (λ _.
          Truncated w
            (deletable w.segment_bases up_to)
            (truncated_first w.segment_bases w.first_lsn (deletable w.segment_bases up_to)))
        (do_truncate up_to w)
unfolding do_truncate pure
do_truncate-Truncated up_to w i =
    let n = deletable w.segment_bases up_to in
    Leaves-gets _ _ w (
      Leaves-if (n == 0) (pure tt) (truncate_first n w.segment_bases) w
        (λ e.
          let (same, start) = nothing_truncated w.segment_bases w.first_lsn n e in
          Leaves-ok tt w
            (record { indexed = i; bases = same; starts = start; keeps_active = refl }))
        (λ e.
          Truncated-as w n e (
            truncate_first-Truncated w n i
              (deletable_kept w.segment_bases up_to (nonempty w i)).0)))

pub do_truncate-Indexed :
    (up_to : ℕ) (w : Wal) → Indexed w → Leaves (λ _ w'. Indexed w') (do_truncate up_to w)
do_truncate-Indexed up_to w i =
    let h = do_truncate-Truncated up_to w i in
    record { done = λ a e. (h.done a e).indexed; failed = h.failed }
