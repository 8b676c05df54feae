-- ===== src/Wal/Indexed/Cut.antt =====
-- CutOffset keeps the index well formed, whatever fails on the way.
use go_wallib.Base.{
  ℕ, ◌+◌, ◌≤◌, ◌<◌, ◌≡◌, refl, sym, ◌∙◌, ap, some, List, [], ◌∷◌, arith, length, get_elem?, leb,
  ◌==◌, ◌||◌, if◌then◌else◌, Bool, true, false, ==→eq, ◌⊎◌, min,
}
use mathlib.Core.Path.{subst}
use go_wallib.Errors.{Result, ok}
use go_wallib.Exec.{Exec, modify, pure, finally}
use go_wallib.Exec.Yields.{Yields-any}
use go_wallib.Disk.{Disk}
use go_wallib.Segment.Files.{Segment}
use go_wallib.Segment.Bases.{create-Fresh, rewrite_from-Based}
use go_wallib.Wal.{Wal, on_disk, get_active}
use go_wallib.Wal.Boundary.{
  set_first, boundary_index, cut_delete_below, cut_source, install_cut, cut_with_source, base_at,
  cut_rewrite_boundary, install_empty, cut_everything, cut_at, do_cut,
}
use go_wallib.Wal.Index.{IsBoundary, boundary_index-IsBoundary}
use go_wallib.Wal.Indexed.{
  Indexed, Indexed-disk, StartsAt, Leaves, Leaves-ok, Leaves-if, Leaves-bind, Leaves-on_disk,
  Leaves-get_active, Leaves-last, Leaves-modify, Leaves-gets,
}
use go_wallib.Wal.Indexed.Truncate.{base_at-found, Rest-get_elem, dropped-Indexed, nonempty}
use go_wallib.Wal.Indexed.Install.{install_cut-Indexed, install_empty-Indexed}

-- The index is well formed, and the log starts here (0 for an empty one).
pub record Starts (lsn : ℕ) (w : Wal) : Type 0 where
  pub indexed : Indexed w
  pub first : w.first_lsn ≡ lsn

Starts-as :
    {o : Result Unit × Wal} (a b : ℕ) → a ≡ b → Leaves (λ _. Starts a) o → Leaves (λ _. Starts b) o
Starts-as {o = o} a b e h = subst (λ x. Leaves (λ _. Starts x) o) e h

cut_delete_below-Starts :
    (w : Wal) (n cut : ℕ)
    → Indexed w
    → get_elem? w.segment_bases n ≡ some cut
    → Leaves (λ _. Starts cut) (cut_delete_below w.segment_bases n cut w)
unfolding cut_delete_below
cut_delete_below-Starts w n cut i found = Leaves-on_disk _ _ w i (Yields-any _) (λ _ d. λ _.
    Leaves-modify _ _ (record w { disk = d })
      (unfold modify in
        Leaves-ok tt _ (record {
          indexed =
              dropped-Indexed (record w { disk = d }) n cut (Indexed-disk w d i)
                (Rest-get_elem w.segment_bases n cut found);
          first = unfold set_first in refl;
        })))

cut_with_source-Starts :
    (w : Wal) (source : Segment) (n cut : ℕ)
    → Indexed w
    → IsBoundary w.segment_bases cut n
    → cut < w.next_lsn
    → Leaves
        (λ _. Starts cut)
        (cut_with_source (n + 1 == length w.segment_bases) source w.segment_bases n cut w)
unfolding cut_with_source
cut_with_source-Starts w source n cut i b lt = Leaves-gets _ _ w (
    Leaves-on_disk _ _ w i (rewrite_from-Based source cut w.opts.max_record_size) (λ new d based.
      Leaves-on_disk _ _ (record w { disk = d }) (Indexed-disk w d i) (Yields-any _)
        (λ _ d'. λ _.
          let v : Wal = record w { disk = d' } in
          let j = install_cut-Indexed v n cut new (Indexed-disk w d' i) b based lt in
          Leaves-get_active _ v i.open_one.seg i.open_one.there (
            Leaves-modify _ _ v (
              Leaves-last _ _ j (λ _ d''. record {
                indexed = Indexed-disk _ d'' j;
                first = unfold install_cut in refl;
              }))))))

-- The cleanup works on files.
Leaves-finally :
    (lsn : ℕ) (m : Exec Wal Unit) (c : Exec Disk Unit) (w : Wal)
    → Leaves (λ _. Starts lsn) (m w)
    → Leaves (λ _. Starts lsn) (finally m (on_disk c) w)
unfolding finally on_disk
Leaves-finally lsn m c w h = record {
  done = λ a e. record {
    indexed = Indexed-disk (m w).1 _ (h.done a e).indexed;
    first = (h.done a e).first;
  };
  failed = λ x e. Indexed-disk (m w).1 _ (h.failed x e);
}

pub get_active-run : (w : Wal) (seg : Segment) → w.active ≡ some seg → get_active w ≡ (ok seg, w)
unfolding get_active
get_active-run w seg e = ground (arith, e)

-- The source is opened, and nothing else happens.
cut_source-keeps :
    (is_active : Bool) (base : ℕ) (w : Wal)
    → Indexed w
    → Leaves (λ _ w'. (d : Disk) × (w' ≡ record w { disk = d })) (cut_source is_active base w)
cut_source-keeps true base w i =
    rw (get_active-run w i.open_one.seg i.open_one.there) (Leaves-ok _ w (w.disk, refl))
cut_source-keeps false base w i = Leaves-last _ w i (λ _ d. (d, refl))

cut_rewrite_boundary-Starts :
    (w : Wal) (n cut : ℕ)
    → Indexed w
    → IsBoundary w.segment_bases cut n
    → cut < w.next_lsn
    → Leaves (λ _. Starts cut) (cut_rewrite_boundary w.segment_bases n cut w)
unfolding cut_rewrite_boundary
cut_rewrite_boundary-Starts w n cut i b lt =
    Leaves-bind _ _ w (cut_source-keeps _ _ w i) (λ source w' same. Leaves-finally cut _ _ w' (
      rw (same.1) (
        cut_with_source-Starts (record w { disk = same.0 }) source n cut (Indexed-disk w same.0 i) b
          lt)))

cut_everything-Starts :
    (w : Wal) → Indexed w → Leaves (λ _. Starts 0) (cut_everything w.segment_bases w.next_lsn w)
unfolding cut_everything
cut_everything-Starts w i = Leaves-on_disk _ _ w i (Yields-any _) (λ _ d. λ _.
    Leaves-on_disk _ _ (record w { disk = d }) (Indexed-disk w d i) (create-Fresh w.next_lsn)
      (λ new d' fresh.
        Leaves-on_disk _ _ (record w { disk = d' }) (Indexed-disk w d' i) (Yields-any _)
          (λ _ d''. λ _.
            let v : Wal = record w { disk = d'' } in
            let j = install_empty-Indexed v new fresh in
            Leaves-get_active _ v i.open_one.seg i.open_one.there (
              Leaves-modify _ _ v (
                Leaves-last _ _ j (λ _ e. record {
                  indexed = Indexed-disk _ e j;
                  first = unfold install_empty in refl;
                }))))))

starts_low :
    (first x cut : ℕ) → (first ≡ 0) ⊎ (first ≡ x) → (first == 0 || leb cut first) ≡ false → x ≤ cut
starts_low first x cut s h = ground arith

-- A log that is not empty and starts below the cut has a boundary.
IsBoundary-boundary_index :
    (w : Wal) (cut : ℕ)
    → Indexed w
    → (w.first_lsn == 0 || leb cut w.first_lsn) ≡ false
    → IsBoundary w.segment_bases cut (boundary_index w.segment_bases cut)
IsBoundary-boundary_index w cut i inside = go w.segment_bases i.first (nonempty w i)
  where
    go :
        (xs : List ℕ)
        → StartsAt w.first_lsn xs
        → 0 < length xs
        → IsBoundary xs cut (boundary_index xs cut)
    go [] s h = absurd (omega arith)
    go (x ∷ xs) s h = boundary_index-IsBoundary x xs cut (starts_low w.first_lsn x cut s inside)

not_leb : (a b : ℕ) → leb a b ≡ false → b < a
not_leb a b h = ground arith

-- Where the log starts after a cut: nothing below it is left to cut, or nothing is left of the log, or
-- it starts at the cut.
abbrev pub cut_first : ℕ → ℕ → ℕ → ℕ
cut_first first next cut =
    if first == 0 || leb cut first then first else if leb next cut then 0 else cut

cut_first-kept :
    (first next cut : ℕ) → (first == 0 || leb cut first) ≡ true → first ≡ cut_first first next cut
cut_first-kept first next cut h = rw h refl

cut_first-all :
    (first next cut : ℕ)
    → (first == 0 || leb cut first) ≡ false
    → leb next cut ≡ true
    → 0 ≡ cut_first first next cut
cut_first-all first next cut h all = rw (h, all) refl

cut_first-inside :
    (first next cut : ℕ)
    → (first == 0 || leb cut first) ≡ false
    → leb next cut ≡ false
    → cut ≡ cut_first first next cut
cut_first-inside first next cut h low = rw (h, low) refl

-- Which of the cuts it is.
cut_at-Starts :
    (w : Wal) (cut : ℕ)
    → Indexed w
    → Leaves
        (λ _. Starts (cut_first w.first_lsn w.next_lsn cut))
        (cut_at w.segment_bases w.first_lsn w.next_lsn cut w)
unfolding cut_at pure
cut_at-Starts w cut i =
    let n = boundary_index w.segment_bases cut in
    Leaves-if (w.first_lsn == 0 || leb cut w.first_lsn) (pure tt) _ w
      (λ kept.
        Leaves-ok tt w
          (record { indexed = i; first = cut_first-kept w.first_lsn w.next_lsn cut kept }))
      (λ inside.
        Leaves-if (leb w.next_lsn cut) (cut_everything w.segment_bases w.next_lsn) _ w
          (λ all.
            Starts-as 0 _ (cut_first-all w.first_lsn w.next_lsn cut inside all)
              (cut_everything-Starts w i))
          (λ low.
            let b = IsBoundary-boundary_index w cut i inside in
            Starts-as cut _ (cut_first-inside w.first_lsn w.next_lsn cut inside low) (
              Leaves-if (base_at w.segment_bases n == cut) (cut_delete_below w.segment_bases n cut)
                (cut_rewrite_boundary w.segment_bases n cut) w
                (λ e. cut_delete_below-Starts w n cut i (
                  b.found
                  ∙ ap some (sym (base_at-found w.segment_bases n b.base b.found) ∙ ==→eq _ _ e)))
                (λ _. cut_rewrite_boundary-Starts w n cut i b (not_leb w.next_lsn cut low)))))

do_cut-Starts :
    (up_to : ℕ) (w : Wal)
    → Indexed w
    → Leaves
        (λ _. Starts (cut_first w.first_lsn w.next_lsn (min up_to w.next_lsn)))
        (do_cut up_to w)
unfolding do_cut
do_cut-Starts up_to w i =
    Leaves-gets _ _ w
      (Leaves-gets _ _ w (Leaves-gets _ _ w (cut_at-Starts w (min up_to w.next_lsn) i)))

pub do_cut-Indexed :
    (up_to : ℕ) (w : Wal) → Indexed w → Leaves (λ _ w'. Indexed w') (do_cut up_to w)
do_cut-Indexed up_to w i =
    let h = do_cut-Starts up_to w i in
    record { done = λ a e. (h.done a e).indexed; failed = h.failed }
