-- ===== src/Wal/Reopen/Last.antt =====
-- The last segment of a chain, and the segments before it.
use go_wallib.Base.{
  ℕ, ◌+◌, ◌^◌, ◌<◌, ◌≡◌, refl, sym, ap, ◌∙◌, false, List, [], ◌∷◌, ◌++◌, arith, length,
  length-append, All, bytes_eq,
}
use mathlib.Core.Path.{subst}
use mathlib.Core.List.{map}
use go_wallib.Segment.Name.{name}
use go_wallib.Wal.Reader.Still.{Stored, records_of}
use go_wallib.Wal.Contents.Files.{name-apart}
use go_wallib.Wal.Contents.Chain.{HeaderOf, Numbered, Linked, Linked-le}
use go_wallib.Wal.Contents.Standing.{All-each, map-snoc}
use go_wallib.Wal.Reopen.Tally.{next_base}

-- The last segment of a chain.
pub record Unsnoc (start end : ℕ) (bases : List ℕ) (segs : List Stored) (s : Stored) : Type 0 where
  pub front : List ℕ
  pub bases_split : bases ≡ front ++ (next_base start segs ∷ [])
  pub linked_front : Linked start front segs (next_base start segs)
  pub header : HeaderOf (next_base start segs) s.header
  pub numbered : Numbered (next_base start segs) s.recs
  pub ends_at : next_base start segs + length s.recs ≡ end

pub Linked-Unsnoc :
    (start end : ℕ) (bases : List ℕ) (segs : List Stored) (s : Stored)
    → Linked start bases (segs ++ (s ∷ [])) end
    → Unsnoc start end bases segs s
Linked-Unsnoc start end [] [] s h = absurd (h tt)
Linked-Unsnoc start end (b ∷ []) [] s h =
    let here : start ≡ next_base start [] = omega arith in
    record {
      front = [];
      bases_split = ap (λ (k : ℕ). k ∷ []) (h.0 ∙ here);
      linked_front = here;
      header = subst (λ k. HeaderOf k s.header) here (h.1);
      numbered = subst (λ k. Numbered k s.recs) here (h.2);
      ends_at = let last = h.3 in omega arith;
    }
Linked-Unsnoc start end (b ∷ c ∷ bases) [] s h = absurd (h.3 tt)
Linked-Unsnoc start end [] (o ∷ segs) s h = absurd (h tt)
Linked-Unsnoc start end (b ∷ bases) (o ∷ segs) s h =
    let u = Linked-Unsnoc (start + length o.recs) end bases segs s (h.3) in
    let same : next_base (start + length o.recs) segs ≡ next_base start (o ∷ segs) =
      omega (arith, length-append o.recs (records_of segs)) in
    record {
      front = b ∷ u.front;
      bases_split = ap (λ l. b ∷ l) (u.bases_split ∙ ap (λ k. u.front ++ (k ∷ [])) same);
      linked_front =
          (h.0, h.1, h.2, subst (Linked (start + length o.recs) u.front segs) same u.linked_front);
      header = subst (λ k. HeaderOf k s.header) same u.header;
      numbered = subst (λ k. Numbered k s.recs) same u.numbered;
      ends_at = ap (λ k. k + length s.recs) (sym same) ∙ u.ends_at;
    }

-- The bases of segments that hold records are below the end.
pub Linked-below :
    (start end : ℕ) (bases : List ℕ) (segs : List Stored)
    → Linked start bases segs end
    → All (λ (s : Stored). 0 < length s.recs) segs
    → All (λ b. b < end) bases
Linked-below start end [] segs h full = tt
Linked-below start end (b ∷ bases) [] h full = absurd (h tt)
Linked-below start end (b ∷ bases) (s ∷ segs) h full =
    let le = Linked-le (start + length s.recs) end bases segs (h.3) in
    let here = h.0 in
    let more = full.0 in
    (omega arith, Linked-below (start + length s.recs) end bases segs (h.3) full.1)

pub All-map :
    {A B : Type 0} (P : B → Type 0) (f : A → B) (xs : List A) (ys : List B)
    → map f xs ≡ ys
    → All P ys
    → All (λ x. P (f x)) xs
All-map P f [] ys e h = tt
All-map P f (x ∷ xs) [] e h = absurd (cc e)
All-map P f (x ∷ xs) (y ∷ ys) e h =
    let here : f x ≡ y = cc e in
    let rest : map f xs ≡ ys = cc e in (subst P (sym here) h.0, All-map P f xs ys rest h.1)

pub map-All :
    (P : List ℕ → Type 0) (f : ℕ → List ℕ) (xs : List ℕ) → All (λ x. P (f x)) xs → All P (map f xs)
map-All P f [] h = tt
map-All P f (x ∷ xs) h = (h.0, map-All P f xs h.1)

pub snoc-same :
    {A : Type 0} (xs ys : List A) (x y : A) → xs ++ (x ∷ []) ≡ ys ++ (y ∷ []) → (xs ≡ ys) × (x ≡ y)
snoc-same [] [] x y e = (refl, cc e)
snoc-same [] (b ∷ []) x y e = absurd (cc e)
snoc-same [] (b ∷ c ∷ ys) x y e = absurd (cc e)
snoc-same (a ∷ []) [] x y e = absurd (cc e)
snoc-same (a ∷ c ∷ xs) [] x y e = absurd (cc e)
snoc-same (a ∷ xs) (b ∷ ys) x y e =
    let here : a ≡ b = cc e in
    let rest : xs ++ (x ∷ []) ≡ ys ++ (y ∷ []) = cc e in
    let (same, last) = snoc-same xs ys x y rest in (cc (here, same), last)

-- The last segment of a log has the name of its base, which the others have not.
pub record Newest (start end : ℕ) (bases : List ℕ) (older : List Stored) (newest : Stored)
    : Type 0 where
  pub unsnoc : Unsnoc start end bases older newest
  pub older_named : map (λ (s : Stored). s.seg_name) older ≡ map name unsnoc.front
  pub newest_name : newest.seg_name ≡ name (next_base start older)
  pub others : All (λ n. bytes_eq n newest.seg_name ≡ false) (map name unsnoc.front)

pub Newest-of :
    (start end : ℕ) (bases : List ℕ) (older : List Stored) (newest : Stored)
    → Linked start bases (older ++ (newest ∷ [])) end
    → map (λ (s : Stored). s.seg_name) (older ++ (newest ∷ [])) ≡ map name bases
    → All (λ (s : Stored). 0 < length s.recs) older
    → end < 2 ^ 64
    → Newest start end bases older newest
Newest-of start end bases older newest linked named full small =
    let u = Linked-Unsnoc start end bases older newest linked in
    let last = u.ends_at in
    let base = next_base start older in
    let both =
      snoc-same (map (λ (s : Stored). s.seg_name) older) (map name u.front) newest.seg_name
        (name base)
        (sym (map-snoc (λ (s : Stored). s.seg_name) older newest)
          ∙ named
          ∙ ap (map name) u.bases_split
          ∙ map-snoc name u.front base) in
    record {
      unsnoc = u;
      older_named = both.0;
      newest_name = both.1;
      others =
          map-All (λ n. bytes_eq n newest.seg_name ≡ false) name u.front
            (All-each u.front
              (λ b lt.
                ap (bytes_eq (name b)) both.1
                ∙ name-apart b base (λ e. absurd (omega arith)) (omega arith) (omega arith))
              (Linked-below start base u.front older u.linked_front full));
    }
