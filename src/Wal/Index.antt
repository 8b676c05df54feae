-- ===== src/Wal/Index.antt =====
-- Which segments Truncate and CutOffset choose, from the base LSNs of the index alone.
use go_wallib.Base.{
  ℕ, zero, suc, ◌+◌, ◌≤◌, ◌<◌, ◌≡◌, refl, ◌∙◌, true, some, List, [], ◌∷◌, arith, length, get_elem?,
  ltb, Bool-cases, inl, inr, ltb→le, le→ltb,
}
use native.Mathlib.Numerals.{add-one}
use go_wallib.Wal.Boundary.{deletable, boundary_from, boundary_index}

-- Segment i ends below `up_to`: the next one starts at or below it.
abbrev pub EndsBelow : List ℕ → ℕ → ℕ → Type 0
EndsBelow bases up_to i = (after : ℕ) × (get_elem? bases (suc i) ≡ some after) × (after ≤ up_to)

-- The segments that a truncation deletes all end below its bound.
pub deletable-EndsBelow :
    (bases : List ℕ) (up_to i : ℕ) → i < deletable bases up_to → EndsBelow bases up_to i
unfolding deletable
deletable-EndsBelow [] up_to i h = absurd (omega arith)
deletable-EndsBelow (base ∷ []) up_to i h = absurd (omega arith)
deletable-EndsBelow (base ∷ after ∷ bases) up_to zero h = (after, refl, ground arith)
deletable-EndsBelow (base ∷ after ∷ bases) up_to (suc i) h =
    deletable-EndsBelow (after ∷ bases) up_to i (ground arith)

not_below : (after x up_to : ℕ) → ltb up_to after ≡ true → some after ≡ some x → x ≤ up_to → ⊥
not_below after x up_to above e le = ground arith

-- Of an index that is not empty, a truncation keeps a segment, and the first one that it keeps does
-- not end below its bound.
pub deletable_kept :
    (bases : List ℕ) (up_to : ℕ)
    → 0 < length bases
    → (deletable bases up_to < length bases) × ¬ EndsBelow bases up_to (deletable bases up_to)
unfolding deletable
deletable_kept [] up_to h = absurd (omega arith)
deletable_kept (base ∷ []) up_to h = (omega arith, λ e. cc e.1)
deletable_kept (base ∷ after ∷ bases) up_to h = elim (Bool-cases (ltb up_to after)) [
  | inl above ↦ rw above (omega arith, λ e. not_below after e.0 up_to above e.1 e.2)
  | inr below ↦
      let (short, last) = deletable_kept (after ∷ bases) up_to (omega arith) in
      rw below (omega (arith, short), last)
]

boundary_from_shift :
    (bases : List ℕ) (cut d i b i' b' : ℕ)
    → i' ≡ i + d
    → b' ≡ b + d
    → boundary_from i' b' bases cut ≡ boundary_from i b bases cut + d
unfolding boundary_from
boundary_from_shift [] cut d i b i' b' hi hb = hb
boundary_from_shift (base ∷ bases) cut d i b i' b' hi hb = elim (Bool-cases (ltb cut base)) [
  | inl above ↦ rw above hb
  | inr below ↦ rw below (boundary_from_shift bases cut d (i + 1) i (i' + 1) i' (omega arith) hi)
]

-- From a segment that starts at or below the cut.
boundary_of : List ℕ → ℕ → ℕ
boundary_of bases cut = boundary_from 1 0 bases cut

pub record IsBoundary (bases : List ℕ) (cut i : ℕ) : Type 0 where
  pub base : ℕ
  pub found : get_elem? bases i ≡ some base
  pub starts_below : base ≤ cut
  pub last_such : ¬ EndsBelow bases cut i

boundary_of-IsBoundary :
    (first : ℕ) (bases : List ℕ) (cut : ℕ)
    → first ≤ cut
    → IsBoundary (first ∷ bases) cut (boundary_of bases cut)
unfolding boundary_of boundary_from
boundary_of-IsBoundary first [] cut h = record {
  base = first;
  found = refl;
  starts_below = h;
  last_such = λ e. cc e.1;
}
boundary_of-IsBoundary first (base ∷ bases) cut h = elim (Bool-cases (ltb cut base)) [
  | inl above ↦ rw above (record {
    base = first;
    found = refl;
    starts_below = h;
    last_such = λ e. not_below base e.0 cut above e.1 e.2;
  })
  | inr below ↦
      let inner = boundary_of-IsBoundary base bases cut (ltb→le cut base below) in
      let shifted : boundary_from 2 1 bases cut ≡ suc (boundary_of bases cut) =
        boundary_from_shift bases cut 1 1 0 2 1 refl refl ∙ add-one _ in
      rw (below, shifted)
        (record {
          base = inner.base;
          found = inner.found;
          starts_below = inner.starts_below;
          last_such = inner.last_such;
        })
]

-- When the log starts at or below the cut, `boundary_index` finds a segment that starts at or below
-- it, and the next segment, if there is one, starts above.
pub boundary_index-IsBoundary :
    (first : ℕ) (bases : List ℕ) (cut : ℕ)
    → first ≤ cut
    → IsBoundary (first ∷ bases) cut (boundary_index (first ∷ bases) cut)
unfolding boundary_index boundary_from
boundary_index-IsBoundary first bases cut h =
    rw (le→ltb cut first h) (unfold boundary_of in boundary_of-IsBoundary first bases cut h)
