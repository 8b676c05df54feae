-- ===== src/Wal/Contents/Files.antt =====
-- The directory when a file is changed in place or put behind the others.
use go_wallib.Base.{
  ℕ, zero, suc, ◌^◌, ◌<◌, ◌≡◌, refl, sym, ap, ◌∙◌, true, false, none, some, List, [], ◌∷◌, ◌++◌,
  arith, length, set, get_elem?, bytes_eq, bytes_eq_refl, bytes_eq→eq, Bool-cases, Option-cases,
  inl, inr, ◌⊎◌, ◌≢◌,
}
use go_wallib.Disk.{File, Handle, find, has_name}
use go_wallib.Segment.Name.{name, parse_base_lsn, parse-name}

pub some-inj : {A : Type 0} {a b : A} → some a ≡ some b → a ≡ b
some-inj e = cc e

module _ {A : Type 0} where
  pub get_elem?-append :
      (xs ys : List A) (i : ℕ) → i < length xs → get_elem? (xs ++ ys) i ≡ get_elem? xs i
  get_elem?-append [] ys i lt = absurd (omega arith)
  get_elem?-append (x ∷ xs) ys zero lt = refl
  get_elem?-append (x ∷ xs) ys (suc i) lt = get_elem?-append xs ys i (omega arith)

  pub get_elem?-snoc : (xs : List A) (y : A) → get_elem? (xs ++ (y ∷ [])) (length xs) ≡ some y
  get_elem?-snoc [] y = refl
  get_elem?-snoc (x ∷ xs) y = get_elem?-snoc xs y

  pub set-snoc : (xs : List A) (y z : A) → set (xs ++ (y ∷ [])) (length xs) z ≡ xs ++ (z ∷ [])
  set-snoc [] y z = refl
  set-snoc (x ∷ xs) y z = ap (λ l. x ∷ l) (set-snoc xs y z)

  pub get_elem?-set_other :
      (xs : List A) (i k : ℕ) (y : A) → k ≢ i → get_elem? (set xs i y) k ≡ get_elem? xs k
  get_elem?-set_other [] i k y ne = refl
  get_elem?-set_other (x ∷ xs) zero zero y ne = absurd (ne refl)
  get_elem?-set_other (x ∷ xs) zero (suc k) y ne = refl
  get_elem?-set_other (x ∷ xs) (suc i) zero y ne = refl
  get_elem?-set_other (x ∷ xs) (suc i) (suc k) y ne =
      get_elem?-set_other xs i k y (λ e. ne (ap suc e))

  pub get_elem?-set :
      (xs : List A) (i : ℕ) (x y : A) → get_elem? xs i ≡ some x → get_elem? (set xs i y) i ≡ some y
  get_elem?-set [] i x y e = cc e
  get_elem?-set (z ∷ xs) zero x y e = refl
  get_elem?-set (z ∷ xs) (suc i) x y e = get_elem?-set xs i x y e

  pub get_elem?-lt : (xs : List A) (i : ℕ) (x : A) → get_elem? xs i ≡ some x → i < length xs
  get_elem?-lt [] i x e = cc e
  get_elem?-lt (y ∷ xs) zero x e = omega arith
  get_elem?-lt (y ∷ xs) (suc i) x e = omega (arith, get_elem?-lt xs i x e)

-- The search at the first file.
pub find-here :
    (n : List ℕ) (f : File) (fs : List File) → has_name n f ≡ true → find n (f ∷ fs) ≡ some 0
unfolding find
find-here n f fs e = rw e refl

pub find-behind :
    (n : List ℕ) (f : File) (fs : List File) (i : Handle)
    → has_name n f ≡ false
    → find n fs ≡ some i
    → find n (f ∷ fs) ≡ some (suc i)
unfolding find
find-behind n f fs i e e' = rw (e, e') refl

pub find-nowhere :
    (n : List ℕ) (f : File) (fs : List File)
    → has_name n f ≡ false
    → find n fs ≡ none
    → find n (f ∷ fs) ≡ none
unfolding find
find-nowhere n f fs e e' = rw (e, e') refl

pub find-same :
    (n : List ℕ) (f g : File) (fs gs : List File)
    → has_name n f ≡ has_name n g
    → find n fs ≡ find n gs
    → find n (f ∷ fs) ≡ find n (g ∷ gs)
unfolding find
find-same n f g fs gs e e' = rw (e, e') refl

-- Where it comes from.
abbrev pub Found : List ℕ → File → List File → Handle → Type 0
Found n f fs h =
    ((has_name n f ≡ true) × (h ≡ 0))
    ⊎ ((has_name n f ≡ false) × ((i : Handle) × (find n fs ≡ some i) × (h ≡ suc i)))

pub find-cases :
    (n : List ℕ) (f : File) (fs : List File) (h : Handle)
    → find n (f ∷ fs) ≡ some h
    → Found n f fs h
find-cases n f fs h e = elim (Bool-cases (has_name n f)) [
  | inl here ↦ inl (here, sym (some-inj (sym (find-here n f fs here) ∙ e)))
  | inr other ↦ elim (Option-cases (find n fs)) [
    | inl nowhere ↦ absurd (cc (e, find-nowhere n f fs other nowhere))
    | inr (i, found) ↦
        inr (other, (i, found, sym (some-inj (sym (find-behind n f fs i other found) ∙ e))))
  ]
]

find-none-cases :
    (n : List ℕ) (f : File) (fs : List File)
    → find n (f ∷ fs) ≡ none
    → (has_name n f ≡ false) × (find n fs ≡ none)
find-none-cases n f fs e = elim (Bool-cases (has_name n f)) [
  | inl here ↦ absurd (cc (e, find-here n f fs here))
  | inr other ↦ elim (Option-cases (find n fs)) [
    | inl nowhere ↦ (other, nowhere)
    | inr (i, found) ↦ absurd (cc (e, find-behind n f fs i other found))
  ]
]

pub has_name-linked : (n m : List ℕ) (f : File) → f.linked ≡ some m → has_name n f ≡ bytes_eq m n
has_name-linked n m f e = rw e refl

pub has_name-same : (n : List ℕ) (f g : File) → g.linked ≡ f.linked → has_name n g ≡ has_name n f
has_name-same n f g e = rw e refl

-- A file that is changed in place and keeps its name is found as before.
pub find-set :
    (n : List ℕ) (fs : List File) (h : Handle) (f g : File)
    → get_elem? fs h ≡ some f
    → g.linked ≡ f.linked
    → find n (set fs h g) ≡ find n fs
find-set n [] h f g e l = refl
find-set n (x ∷ fs) zero f g e l =
    let same : x ≡ f = some-inj e in
    find-same n g x fs fs (has_name-same n x g (l ∙ ap (λ (y : File). y.linked) (sym same))) refl
find-set n (x ∷ fs) (suc h) f g e l = find-same n x x _ _ refl (find-set n fs h f g e l)

pub find-append :
    (n : List ℕ) (fs gs : List File) (h : Handle) → find n fs ≡ some h → find n (fs ++ gs) ≡ some h
find-append n [] gs h e = absurd (unfold find in cc e)
find-append n (f ∷ fs) gs h e = elim (find-cases n f fs h e) [
  | inl (here, at) ↦ find-here n f (fs ++ gs) here ∙ ap some (sym at)
  | inr (other, (i, found, at)) ↦
      find-behind n f (fs ++ gs) i other (find-append n fs gs i found) ∙ ap some (sym at)
]

pub find-lt : (n : List ℕ) (fs : List File) (h : Handle) → find n fs ≡ some h → h < length fs
find-lt n [] h e = absurd (unfold find in cc e)
find-lt n (f ∷ fs) h e = elim (find-cases n f fs h e) [
  | inl (here, at) ↦ omega (arith, at)
  | inr (other, (i, found, at)) ↦ omega (arith, at, find-lt n fs i found)
]

-- A file put behind the others, under a name that none had.
pub find-new :
    (n : List ℕ) (fs : List File) (x : File)
    → find n fs ≡ none
    → x.linked ≡ some n
    → find n (fs ++ (x ∷ [])) ≡ some (length fs)
find-new n [] x e l = find-here n x [] (has_name-linked n n x l ∙ bytes_eq_refl n)
find-new n (f ∷ fs) x e l =
    let (other, nowhere) = find-none-cases n f fs e in
    find-behind n f (fs ++ (x ∷ [])) (length fs) other (find-new n fs x nowhere l)

pub find-others :
    (n m : List ℕ) (fs : List File) (x : File)
    → find n fs ≡ none
    → x.linked ≡ some m
    → bytes_eq m n ≡ false
    → find n (fs ++ (x ∷ [])) ≡ none
find-others n m [] x e l ne = find-nowhere n x [] (has_name-linked n m x l ∙ ne) e
find-others n m (f ∷ fs) x e l ne =
    let (other, nowhere) = find-none-cases n f fs e in
    find-nowhere n f (fs ++ (x ∷ [])) other (find-others n m fs x nowhere l ne)

-- Two LSNs have two names.
pub name-apart : (a b : ℕ) → a ≢ b → a < 2 ^ 64 → b < 2 ^ 64 → bytes_eq (name a) (name b) ≡ false
name-apart a b ne la lb = elim (Bool-cases (bytes_eq (name a) (name b))) [
  | inl e ↦ absurd (
      ne (
        some-inj (sym (parse-name a la) ∙ ap parse_base_lsn (bytes_eq→eq _ _ e) ∙ parse-name b lb)))
  | inr e ↦ e
]
