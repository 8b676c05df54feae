-- ===== src/Wal/Reopen/Unlink.antt =====
-- The directory when a file loses its name.
use go_wallib.Base.{
  ℕ, zero, suc, ◌≡◌, refl, sym, ap, ◌∙◌, true, false, none, some, List, [], ◌∷◌, ◌++◌, set,
  get_elem?, All, bytes_eq, bytes_eq_refl, bytes_eq→eq, Option-cases, inl, inr,
}
use go_wallib.Disk.{File, Handle, find, has_name, linked_names}
use go_wallib.Wal.Contents.Files.{find-same, find-cases, has_name-linked, some-inj}
use go_wallib.Wal.Contents.Chain.{linked_names-none, linked_names-some}

pub linked-has_name : (n : List ℕ) (f : File) → has_name n f ≡ true → f.linked ≡ some n
linked-has_name n f e = elim (Option-cases f.linked) [
  | inl off ↦ absurd (let h : has_name n f ≡ false = rw off refl in cc (e, h))
  | inr (m, on) ↦ on ∙ ap some (bytes_eq→eq m n (sym (has_name-linked n m f on) ∙ e))
]

-- What is found has the name.
pub linked-find :
    (n : List ℕ) (fs : List File) (h : Handle)
    → find n fs ≡ some h
    → (f : File) × (get_elem? fs h ≡ some f) × (f.linked ≡ some n)
linked-find n [] h e = absurd (unfold find in cc e)
linked-find n (f ∷ fs) h e = elim (find-cases n f fs h e) [
  | inl (here, at) ↦ (f, ap (get_elem? (f ∷ fs)) at, linked-has_name n f here)
  | inr (other, (i, found, at)) ↦
      let (g, there, linked) = linked-find n fs i found in
      (g, ap (get_elem? (f ∷ fs)) at ∙ there, linked)
]

pub find-unlink :
    (n : List ℕ) (fs : List File) (h : Handle) (f g : File)
    → get_elem? fs h ≡ some f
    → has_name n f ≡ false
    → g.linked ≡ none
    → find n (set fs h g) ≡ find n fs
find-unlink n [] h f g at other off = refl
find-unlink n (x ∷ fs) zero f g at other off =
    let same : f ≡ x = some-inj (sym at) in
    let gone : has_name n g ≡ false = rw off refl in
    find-same n g x fs fs (gone ∙ sym other ∙ ap (has_name n) same) refl
find-unlink n (x ∷ fs) (suc h) f g at other off =
    find-same n x x _ _ refl (find-unlink n fs h f g at other off)

here-unlink :
    (n : List ℕ) (ns : List (List ℕ)) (f : File) (fs : List File) (h : Handle) (g : File)
    → linked_names (f ∷ fs) ≡ ns ++ (n ∷ [])
    → All (λ m. bytes_eq m n ≡ false) ns
    → g.linked ≡ none
    → f.linked ≡ some n
    → h ≡ 0
    → linked_names (set (f ∷ fs) h g) ≡ ns
here-unlink n [] f fs h g l apart off on at =
    let all : n ∷ linked_names fs ≡ n ∷ [] = sym (linked_names-some f fs n on) ∙ l in
    ap (λ j. linked_names (set (f ∷ fs) j g)) at ∙ linked_names-none g fs off ∙ cc all
here-unlink n (m ∷ ns) f fs h g l apart off on at =
    let all : n ∷ linked_names fs ≡ m ∷ ns ++ (n ∷ []) = sym (linked_names-some f fs n on) ∙ l in
    let same : m ≡ n = cc all in
    absurd (cc (apart.0, sym (bytes_eq_refl n) ∙ ap (λ k. bytes_eq k n) (sym same)))

behind :
    (n : List ℕ) (ns : List (List ℕ)) (m : List ℕ) (rest rest' : List (List ℕ))
    → m ∷ rest ≡ ns ++ (n ∷ [])
    → bytes_eq m n ≡ false
    → All (λ k. bytes_eq k n ≡ false) ns
    → ((ns' : List (List ℕ))
        → rest ≡ ns' ++ (n ∷ [])
        → All (λ k. bytes_eq k n ≡ false) ns'
        → rest' ≡ ns')
    → m ∷ rest' ≡ ns
behind n [] m rest rest' l other apart ih =
    let same : m ≡ n = cc l in
    absurd (cc (other, sym (bytes_eq_refl n) ∙ ap (λ k. bytes_eq k n) (sym same)))
behind n (k ∷ ns) m rest rest' l other apart ih =
    let same : m ≡ k = cc l in
    let more : rest ≡ ns ++ (n ∷ []) = cc l in cc (same, ih ns more apart.1)

-- The last name of the directory goes.
pub linked_names-unlink :
    (n : List ℕ) (ns : List (List ℕ)) (fs : List File) (h : Handle) (g : File)
    → find n fs ≡ some h
    → linked_names fs ≡ ns ++ (n ∷ [])
    → All (λ m. bytes_eq m n ≡ false) ns
    → g.linked ≡ none
    → linked_names (set fs h g) ≡ ns
linked_names-unlink n ns [] h g e l apart off = absurd (unfold find in cc e)
linked_names-unlink n ns (f ∷ fs) h g e l apart off = elim (find-cases n f fs h e) [
  | inl (here, at) ↦ here-unlink n ns f fs h g l apart off (linked-has_name n f here) at
  | inr (other, (i, found, at)) ↦ elim (Option-cases f.linked) [
    | inl no_name ↦
        ap (λ j. linked_names (set (f ∷ fs) j g)) at
        ∙ linked_names-none f (set fs i g) no_name
        ∙ linked_names-unlink n ns fs i g found (sym (linked_names-none f fs no_name) ∙ l) apart off
    | inr (m, on) ↦
        ap (λ j. linked_names (set (f ∷ fs) j g)) at
        ∙ linked_names-some f (set fs i g) m on
        ∙ behind n ns m (linked_names fs) (linked_names (set fs i g))
            (sym (linked_names-some f fs m on) ∙ l) (sym (has_name-linked n m f on) ∙ other) apart
            (λ ns' l' apart'. linked_names-unlink n ns' fs i g found l' apart' off)
  ]
]
