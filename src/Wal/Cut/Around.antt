-- ===== src/Wal/Cut/Around.antt =====
-- The chain of segments around the one that a cut goes through (boundaryIndex of pkg/wal/writer.go).
use go_wallib.Base.{
  ℕ, zero, suc, ◌+◌, ◌≡◌, refl, sym, ap, ◌∙◌, false, Bool-cases, some, List, [], ◌∷◌, ◌++◌, arith,
  length, length-append, take, drop, All, get_elem?, inl, inr, leb, bytes_eq, bytes_eq→eq,
}
use mathlib.Core.Path.{subst}
use mathlib.Core.List.{Perm}
use mathlib.Core.List.Perm
use go_wallib.Record.{Record}
use go_wallib.Segment.Name.{name, temp_suffix, put_dec, length-put_dec, ext, name_width}
use go_wallib.Wal.Reader.Still.{Stored}
use go_wallib.Wal.Contents.Chain.{HeaderOf, Numbered, Linked}
use go_wallib.Wal.Contents.Rewrite.{at_or_above}

-- The chain around its n-th segment.
pub record Around (start end n base : ℕ) (bases : List ℕ) (segs : List Stored) : Type 0 where
  pub s : Stored
  pub front : List Stored
  pub rest : List Stored
  pub parts : front ++ (s ∷ rest) ≡ segs
  pub before : Linked start (take n bases) front base
  pub header : HeaderOf base s.header
  pub numbered : Numbered base s.recs
  pub behind : Linked (base + length s.recs) (drop (suc n) bases) rest end
  pub take_one : take (suc n) bases ≡ take n bases ++ (base ∷ [])

pub Linked-Around :
    (start end n base : ℕ) (bases : List ℕ) (segs : List Stored)
    → Linked start bases segs end
    → get_elem? bases n ≡ some base
    → Around start end n base bases segs
Linked-Around start end n base [] segs h e = absurd (cc e)
Linked-Around start end n base (b ∷ bases) [] h e = absurd (h tt)
Linked-Around start end zero base (b ∷ bases) (s ∷ segs) h e =
    let same : b ≡ base = cc e in
    let here : start ≡ base = sym (h.0) ∙ same in
    record {
      s = s;
      front = [];
      rest = segs;
      parts = refl;
      before = here;
      header = subst (λ k. HeaderOf k s.header) here (h.1);
      numbered = subst (λ k. Numbered k s.recs) here (h.2);
      behind = subst (λ k. Linked (k + length s.recs) bases segs end) here (h.3);
      take_one = ap (λ k. k ∷ []) same;
    }
Linked-Around start end (suc n) base (b ∷ bases) (s ∷ segs) h e =
    let a = Linked-Around (start + length s.recs) end n base bases segs (h.3) e in
    record {
      s = a.s;
      front = s ∷ a.front;
      rest = a.rest;
      parts = ap (λ l. s ∷ l) a.parts;
      before = (h.0, h.1, h.2, a.before);
      header = a.header;
      numbered = a.numbered;
      behind = a.behind;
      take_one = ap (λ l. b ∷ l) a.take_one;
    }

pub length-name : (b : ℕ) → length (name b) ≡ name_width + length ext
unfolding name
length-name b =
    length-append (put_dec name_width b) ext
    ∙ ap (λ k. k + length ext) (length-put_dec name_width b)

pub temp-apart : (k cut : ℕ) → bytes_eq (name k) (name cut ++ temp_suffix) ≡ false
temp-apart k cut = elim (Bool-cases (bytes_eq (name k) (name cut ++ temp_suffix))) [
  | inl e ↦
      let same = bytes_eq→eq (name k) (name cut ++ temp_suffix) e in
      absurd (
        omega (
          arith,
          ap length same,
          length-append (name cut) temp_suffix,
          length-name k,
          length-name cut,
        ))
  | inr e ↦ e
]

pub Perm-snoc : (xs : List (List ℕ)) (a : List ℕ) → Perm (xs ++ (a ∷ [])) (a ∷ xs)
Perm-snoc [] a = Perm.refl (a ∷ [])
Perm-snoc (x ∷ xs) a = Perm.trans (Perm.cons x (Perm-snoc xs a)) (Perm.swap a x xs)

pub All-at_or_above :
    (P : Record → Type 0) (cut : ℕ) (rs : List Record) → All P rs → All P (at_or_above cut rs)
All-at_or_above P cut [] h = tt
All-at_or_above P cut (r ∷ rs) h = elim (Bool-cases (leb cut r.lsn)) [
  | inl kept ↦ rw kept (h.0, All-at_or_above P cut rs h.1)
  | inr below ↦ rw below (All-at_or_above P cut rs h.1)
]
