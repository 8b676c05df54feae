-- ===== src/Wal/Contents/Standing.antt =====
-- Lists of records and of segments, and segments that stand where a file is changed or added.
use go_wallib.Base.{
  ℕ, ◌<◌, ◌≡◌, ◌≢◌, refl, sym, ap, ◌∙◌, some, List, [], ◌∷◌, ◌++◌, append-nil, append_assoc,
  get_elem?, set, All,
}
use mathlib.Core.List.{map}
use go_wallib.Record.{Record}
use go_wallib.Disk.{File, Handle, file_content}
use go_wallib.Wal.Reader.Still.{Stored, Stands, records_of, calm}
use go_wallib.Wal.Reader.Complete.{Rising}
use go_wallib.Wal.Contents.Files.{
  get_elem?-append, get_elem?-set_other, find-set, find-append, find-lt,
}

pub All-both :
    {A : Type 0} {P Q R : A → Type 0} (xs : List A)
    → ((x : A) → P x → Q x → R x)
    → All P xs
    → All Q xs
    → All R xs
All-both [] f p q = tt
All-both (x ∷ xs) f p q = (f x p.0 q.0, All-both xs f p.1 q.1)

pub All-each :
    {A : Type 0} {P Q : A → Type 0} (xs : List A) → ((x : A) → P x → Q x) → All P xs → All Q xs
All-each [] f p = tt
All-each (x ∷ xs) f p = (f x p.0, All-each xs f p.1)

pub map-snoc :
    {A B : Type 0} (f : A → B) (xs : List A) (x : A)
    → map f (xs ++ (x ∷ [])) ≡ map f xs ++ (f x ∷ [])
map-snoc f [] x = refl
map-snoc f (y ∷ xs) x = ap (λ l. f y ∷ l) (map-snoc f xs x)

pub records_of-snoc :
    (older : List Stored) (s : Stored) → records_of (older ++ (s ∷ [])) ≡ records_of older ++ s.recs
records_of-snoc [] s = append-nil s.recs
records_of-snoc (o ∷ older) s =
    ap (λ l. o.recs ++ l) (records_of-snoc older s)
    ∙ sym (append_assoc o.recs (records_of older) s.recs)

pub Rising-snoc :
    (b : ℕ) (rs : List Record) (r : Record)
    → Rising b rs
    → All (λ (q : Record). q.lsn < r.lsn) rs
    → b < r.lsn
    → Rising b (rs ++ (r ∷ []))
Rising-snoc b [] r up lt h = (h, tt)
Rising-snoc b (q ∷ rs) r up lt h = (up.0, Rising-snoc q.lsn rs r up.1 lt.1 lt.0)

-- A file is changed in place and keeps its name: the others stand as they did.
pub Stands-set :
    (files : List File) (now max_rec : ℕ) (h : Handle) (f g : File) (s : Stored)
    → get_elem? files h ≡ some f
    → g.linked ≡ f.linked
    → s.handle ≢ h
    → Stands (calm files now) max_rec s
    → Stands (calm (set files h g) now) max_rec s
Stands-set files now max_rec h f g s at l ne st = record {
  found = find-set s.seg_name files h f g at l ∙ st.found;
  content = ap file_content (get_elem?-set_other files h s.handle g ne) ∙ st.content;
  header_length = st.header_length;
  fits = st.fits;
  stops = st.stops;
}

pub Stands-append :
    (files : List File) (now max_rec : ℕ) (g : File) (s : Stored)
    → Stands (calm files now) max_rec s
    → Stands (calm (files ++ (g ∷ [])) now) max_rec s
Stands-append files now max_rec g s st = record {
  found = find-append s.seg_name files (g ∷ []) s.handle st.found;
  content =
      ap file_content
        (get_elem?-append files (g ∷ []) s.handle (find-lt s.seg_name files s.handle st.found))
      ∙ st.content;
  header_length = st.header_length;
  fits = st.fits;
  stops = st.stops;
}
