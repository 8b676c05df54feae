-- ===== src/Wal/Contents/Chain.antt =====
-- How the segments of a log follow one another: each begins, in its header and with its first record,
-- where the one before it ends.
use go_wallib.Base.{
  ℕ, zero, suc, ◌+◌, ◌≤◌, ◌≡◌, ◌≢◌, refl, sym, ap, ◌∙◌, none, some, List, [], ◌∷◌, ◌++◌, arith,
  length, get_elem?, set, length-append, Option-cases, inl, inr,
}
use go_wallib.Record.{Record}
use go_wallib.Disk.{File, linked_names}
use go_wallib.Segment.Files.{new_header}
use go_wallib.Wal.Reader.Still.{Stored}
use go_wallib.Wal.Contents.Files.{get_elem?-append, get_elem?-set_other, get_elem?-lt}

-- A header that was written for this base, at some time.
abbrev pub HeaderOf : ℕ → List ℕ → Type 0
HeaderOf b header = (now : ℕ) × (header ≡ new_header b now)

-- The LSNs are b, b + 1, and so on.
abbrev pub Numbered : ℕ → List Record → Type 0
Numbered b [] = Unit
Numbered b (r ∷ rs) = (r.lsn ≡ b) × Numbered (suc b) rs

abbrev pub Linked : ℕ → List ℕ → List Stored → ℕ → Type 0
Linked start [] [] end = start ≡ end
Linked start [] (s ∷ segs) end = ¬ Unit {0}
Linked start (b ∷ bases) [] end = ¬ Unit {0}
Linked start (b ∷ bases) (s ∷ segs) end =
    (b ≡ start)
    × HeaderOf start s.header
    × Numbered start s.recs
    × Linked (start + length s.recs) bases segs end

pub Linked-le :
    (start end : ℕ) (bases : List ℕ) (segs : List Stored)
    → Linked start bases segs end
    → start ≤ end
Linked-le start end [] [] h = omega arith
Linked-le start end [] (s ∷ segs) h = absurd (h tt)
Linked-le start end (b ∷ bases) [] h = absurd (h tt)
Linked-le start end (b ∷ bases) (s ∷ segs) h =
    omega (arith, Linked-le (start + length s.recs) end bases segs (h.3))

pub Numbered-snoc :
    (b end : ℕ) (recs : List Record) (r : Record)
    → Numbered b recs
    → b + length recs ≡ end
    → r.lsn ≡ end
    → Numbered b (recs ++ (r ∷ []))
Numbered-snoc b end [] r h e here = (omega arith, tt)
Numbered-snoc b end (q ∷ recs) r h e here =
    (h.0, Numbered-snoc (suc b) end recs r h.1 (omega arith) here)

-- Only the headers and the records count.
pub Linked-same :
    (start end : ℕ) (bases : List ℕ) (older : List Stored) (s t : Stored)
    → Linked start bases (older ++ (s ∷ [])) end
    → t.header ≡ s.header
    → t.recs ≡ s.recs
    → Linked start bases (older ++ (t ∷ [])) end
Linked-same start end [] [] s t h e e' = absurd (h tt)
Linked-same start end (b ∷ []) [] s t h e e' =
    (h.0, rw e h.1, rw e' (h.2), ap (λ (rs : List Record). start + length rs) e' ∙ h.3)
Linked-same start end (b ∷ c ∷ bases) [] s t h e e' = absurd (h.3 tt)
Linked-same start end [] (o ∷ older) s t h e e' = absurd (h tt)
Linked-same start end (b ∷ bases) (o ∷ older) s t h e e' =
    (h.0, h.1, h.2, Linked-same (start + length o.recs) end bases older s t (h.3) e e')

-- A record behind those of the last segment.
pub Linked-put :
    (start end : ℕ) (bases : List ℕ) (older : List Stored) (s t : Stored) (r : Record)
    → Linked start bases (older ++ (s ∷ [])) end
    → t.header ≡ s.header
    → t.recs ≡ s.recs ++ (r ∷ [])
    → r.lsn ≡ end
    → Linked start bases (older ++ (t ∷ [])) (end + 1)
Linked-put start end [] [] s t r h same more here = absurd (h tt)
Linked-put start end (b ∷ []) [] s t r h same more here = (
  h.0,
  rw same h.1,
  rw more (Numbered-snoc start end s.recs r (h.2) (h.3) here),
  let last = h.3 in omega (arith, ap length more, length-append s.recs (r ∷ [])),
)
Linked-put start end (b ∷ c ∷ bases) [] s t r h same more here = absurd (h.3 tt)
Linked-put start end [] (o ∷ older) s t r h same more here = absurd (h tt)
Linked-put start end (b ∷ bases) (o ∷ older) s t r h same more here =
    (h.0, h.1, h.2, Linked-put (start + length o.recs) end bases older s t r (h.3) same more here)

-- A segment behind the last one.
pub Linked-snoc :
    (start end : ℕ) (bases : List ℕ) (segs : List Stored) (s : Stored)
    → Linked start bases segs end
    → HeaderOf end s.header
    → Numbered end s.recs
    → Linked start (bases ++ (end ∷ [])) (segs ++ (s ∷ [])) (end + length s.recs)
Linked-snoc start end [] [] s h header recs = rw h ((refl, header, recs, refl))
Linked-snoc start end [] (o ∷ segs) s h header recs = absurd (h tt)
Linked-snoc start end (b ∷ bases) [] s h header recs = absurd (h tt)
Linked-snoc start end (b ∷ bases) (o ∷ segs) s h header recs =
    (h.0, h.1, h.2, Linked-snoc (start + length o.recs) end bases segs s (h.3) header recs)

-- The names in the directory, from the first file on.
pub linked_names-none :
    (f : File) (fs : List File) → f.linked ≡ none → linked_names (f ∷ fs) ≡ linked_names fs
unfolding linked_names
linked_names-none f fs e = rw (e, linked_names) refl

pub linked_names-some :
    (f : File) (fs : List File) (n : List ℕ)
    → f.linked ≡ some n
    → linked_names (f ∷ fs) ≡ n ∷ linked_names fs
unfolding linked_names
linked_names-some f fs n e = rw (e, linked_names) refl

pub linked_names-same :
    (f g : File) (fs gs : List File)
    → g.linked ≡ f.linked
    → linked_names fs ≡ linked_names gs
    → linked_names (g ∷ fs) ≡ linked_names (f ∷ gs)
linked_names-same f g fs gs l e = elim (Option-cases f.linked) [
  | inl off ↦ linked_names-none g fs (l ∙ off) ∙ e ∙ sym (linked_names-none f gs off)
  | inr (n, on) ↦
      linked_names-some g fs n (l ∙ on) ∙ ap (λ k. n ∷ k) e ∙ sym (linked_names-some f gs n on)
]

-- When a file is changed that keeps its name, or put behind the others.
pub linked_names-set :
    (files : List File) (h : ℕ) (f g : File)
    → get_elem? files h ≡ some f
    → g.linked ≡ f.linked
    → linked_names (set files h g) ≡ linked_names files
linked_names-set [] h f g e l = refl
linked_names-set (x ∷ files) zero f g e l =
    let here : f ≡ x = cc e in
    linked_names-same x g files files (l ∙ ap (λ (y : File). y.linked) here) refl
linked_names-set (x ∷ files) (suc h) f g e l =
    linked_names-same x x (set files h g) files refl (linked_names-set files h f g e l)

pub linked_names-snoc :
    (files : List File) (g : File) (n : List ℕ)
    → g.linked ≡ some n
    → linked_names (files ++ (g ∷ [])) ≡ linked_names files ++ (n ∷ [])
linked_names-snoc [] g n l = unfold linked_names in linked_names-some g [] n l
linked_names-snoc (f ∷ files) g n l = elim (Option-cases f.linked) [
  | inl off ↦
      linked_names-none f (files ++ (g ∷ [])) off
      ∙ linked_names-snoc files g n l
      ∙ ap (λ k. k ++ (n ∷ [])) (sym (linked_names-none f files off))
  | inr (m, on) ↦
      linked_names-some f (files ++ (g ∷ [])) m on
      ∙ ap (λ k. m ∷ k) (linked_names-snoc files g n l)
      ∙ ap (λ k. k ++ (n ∷ [])) (sym (linked_names-some f files m on))
]

-- Nothing of the segment's file is lost when the system stops.
pub record Kept (files : List File) (s : Stored) : Type 0 where
  pub kept_file : File
  pub at : get_elem? files s.handle ≡ some kept_file
  pub whole : length kept_file.content ≤ kept_file.synced

pub Kept-set :
    (files : List File) (h : ℕ) (g : File) (s : Stored)
    → s.handle ≢ h
    → Kept files s
    → Kept (set files h g) s
Kept-set files h g s ne k = record {
  kept_file = k.kept_file;
  at = get_elem?-set_other files h s.handle g ne ∙ k.at;
  whole = k.whole;
}

pub Kept-append :
    (files : List File) (g : File) (s : Stored) → Kept files s → Kept (files ++ (g ∷ [])) s
Kept-append files g s k = record {
  kept_file = k.kept_file;
  at =
      get_elem?-append files (g ∷ []) s.handle (get_elem?-lt files s.handle k.kept_file k.at)
      ∙ k.at;
  whole = k.whole;
}
