-- ===== src/Segment/Bases.antt =====
-- The base LSNs of segments: what makes, extends or rewrites a segment gives it the base asked for.
use go_wallib.Base.{ℕ, ◌≡◌, refl, ◌∙◌, List, [], ◌∷◌, Bool-cases, inl, inr, ltb}
use go_wallib.Exec.Yields.{Yields, Yields-pure, Yields-on_error, Yields-bind, Yields-any}
use go_wallib.Record.{Record}
use go_wallib.Disk.{Handle}
use go_wallib.Segment.Header.{header_size}
use go_wallib.Segment.Files.{Segment, create, append, copy_records, fill_replacement, rewrite_from}

-- A segment at this base.
pub record Based (lsn : ℕ) (seg : Segment) : Type 0 where
  pub base : seg.base_lsn ≡ lsn

-- A segment with this base and no records.
pub record Fresh (lsn : ℕ) (seg : Segment) : Type 0 where
  pub base : seg.base_lsn ≡ lsn
  pub size : seg.size ≡ header_size

pub create-Fresh : (base : ℕ) → Yields (Fresh base) (create base)
unfolding create
create-Fresh base = Yields-bind _ _ (Yields-any _) (λ file _.
    Yields-bind _ _ (Yields-any _) (λ _ _. Yields-pure _ (record { base = refl; size = refl })))

pub append-Based :
    (seg : Segment) (lsn : ℕ) (payload : List ℕ)
    → Yields (λ r. Based seg.base_lsn r.1) (append seg lsn payload)
unfolding append
append-Based seg lsn payload =
    Yields-bind _ _ (Yields-any _)
      (λ encoded _. Yields-bind _ _ (Yields-any _) (λ _ _. Yields-pure _ (record { base = refl })))

copy_records-Based :
    (base : ℕ) (dst : Segment) (from_lsn : ℕ) (rs : List Record)
    → Based base dst
    → Yields (Based base) (copy_records dst from_lsn rs)
unfolding copy_records
copy_records-Based base dst from_lsn [] b = Yields-pure _ b
copy_records-Based base dst from_lsn (r ∷ rs) b = elim (Bool-cases (ltb r.lsn from_lsn)) [
  | inl below ↦ rw below (copy_records-Based base dst from_lsn rs b)
  | inr kept ↦ rw kept (
      Yields-bind _ _ (append-Based dst r.lsn r.payload)
        (λ w same. copy_records-Based base w.1 from_lsn rs (record { base = same.base ∙ b.base })))
]

fill_replacement-Based :
    (file : Handle) (src : Segment) (from_lsn max_record_size : ℕ)
    → Yields (Based from_lsn) (fill_replacement file src from_lsn max_record_size)
unfolding fill_replacement
fill_replacement-Based file src from_lsn max_record_size = Yields-bind _ _ (Yields-any _) (λ now _.
    Yields-bind _ _ (Yields-any _) (λ _ _. Yields-bind _ _ (Yields-any _) (λ section _.
      Yields-bind _ _ (copy_records-Based from_lsn _ from_lsn _ (record { base = refl })) (λ dst b.
        Yields-bind _ _ (Yields-any _) (λ _ _. Yields-bind _ _ (Yields-any _) (λ _ _.
          Yields-bind _ _ (Yields-any _)
            (λ _ _. Yields-bind _ _ (Yields-any _) (λ _ _. Yields-pure _ b))))))))

pub rewrite_from-Based :
    (src : Segment) (from_lsn max_record_size : ℕ)
    → Yields (Based from_lsn) (rewrite_from src from_lsn max_record_size)
unfolding rewrite_from
rewrite_from-Based src from_lsn max_record_size = Yields-bind _ _ (Yields-any _) (λ _ _.
    Yields-bind _ _ (Yields-any _)
      (λ file _. Yields-on_error _ _ (fill_replacement-Based file src from_lsn max_record_size)))
