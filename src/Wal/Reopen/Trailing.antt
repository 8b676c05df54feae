-- ===== src/Wal/Reopen/Trailing.antt =====
-- A last segment without records loses its file, and the one before it becomes the last.
use go_wallib.Base.{
  ℕ, ◌^◌, ◌<◌, ◌≡◌, ◌≢◌, refl, sym, ap, ◌∙◌, false, none, some, List, [], ◌∷◌, ◌++◌, arith, length,
  set, get_elem?, All, bytes_eq, bytes_eq_refl, bytes_eq→eq, Bool-cases, inl, inr,
}
use mathlib.Core.Path.{subst}
use mathlib.Core.List.{map}
use go_wallib.Record.RoundTrip.{frames}
use go_wallib.Disk.{File, file_content}
use go_wallib.Segment.Name.{name}
use go_wallib.Wal.Reader.Still.{Stored, Stands, calm}
use go_wallib.Wal.Contents.Files.{has_name-linked, get_elem?-set_other, some-inj}
use go_wallib.Wal.Contents.Chain.{Linked, Kept, Kept-set}
use go_wallib.Wal.Contents.Standing.{All-both, map-snoc}
use go_wallib.Wal.Reopen.Shelf.{Shelf}
use go_wallib.Wal.Reopen.Tally.{next_base}
use go_wallib.Wal.Reopen.Last.{Newest, Newest-of, All-map}
use go_wallib.Wal.Reopen.Unlink.{linked-find, find-unlink, linked_names-unlink}

pub All-split :
    {A : Type 0} (P : A → Type 0) (xs ys : List A) → All P (xs ++ ys) → All P xs × All P ys
All-split P [] ys h = (tt, h)
All-split P (x ∷ xs) ys h = let (l, r) = All-split P xs ys h.1 in ((h.0, l), r)

-- Two segments that stand under different names are different files.
pub handles-apart :
    (files : List File) (now max_rec : ℕ) (s t : Stored)
    → Stands (calm files now) max_rec s
    → Stands (calm files now) max_rec t
    → bytes_eq s.seg_name t.seg_name ≡ false
    → s.handle ≢ t.handle
handles-apart files now max_rec s t st st' other e =
    let (f, at, linked) = linked-find s.seg_name files s.handle st.found in
    let (g, at', linked') = linked-find t.seg_name files t.handle st'.found in
    let same : f ≡ g = some-inj (sym at ∙ ap (get_elem? files) e ∙ at') in
    let names : s.seg_name ≡ t.seg_name =
      some-inj (sym linked ∙ ap (λ (x : File). x.linked) same ∙ linked') in
    cc (other, sym (bytes_eq_refl s.seg_name) ∙ ap (bytes_eq s.seg_name) names)

pub bytes_eq-sym : (xs ys : List ℕ) → bytes_eq xs ys ≡ false → bytes_eq ys xs ≡ false
bytes_eq-sym xs ys e = elim (Bool-cases (bytes_eq ys xs)) [
  | inl same ↦
      absurd (cc (e, sym (bytes_eq_refl xs) ∙ ap (bytes_eq xs) (sym (bytes_eq→eq ys xs same))))
  | inr other ↦ other
]

module _ (older : List Stored) (s : Stored) {files : List File} {now start end max_rec : ℕ}
    {bases : List ℕ} {newest : Stored}
    (sh : Shelf files now start end max_rec bases (older ++ (s ∷ [])) newest) (small : end < 2 ^ 64)
    (empty : newest.recs ≡ []) where
  abbrev gone : File
  gone = record (sh.file) { linked = none }

  abbrev files' : List File
  files' = set files newest.handle gone

  abbrev segs : List Stored
  segs = older ++ (s ∷ [])

  top : Newest start end bases segs newest
  top = Newest-of start end bases segs newest sh.linked sh.named sh.full small

  other_names : All (λ (o : Stored). bytes_eq o.seg_name newest.seg_name ≡ false) segs
  other_names =
      All-map (λ n. bytes_eq n newest.seg_name ≡ false) (λ (o : Stored). o.seg_name) segs
        (map name top.unsnoc.front) top.older_named top.others

  newest_linked : sh.file.linked ≡ some newest.seg_name
  newest_linked =
      let (f, at, linked) =
        linked-find newest.seg_name files newest.handle sh.newest_stands.found in
      let same : sh.file ≡ f = some-inj (sym sh.present ∙ at) in
      ap (λ (x : File). x.linked) same ∙ linked

  Stands-unlink :
      (o : Stored)
      → bytes_eq o.seg_name newest.seg_name ≡ false
      → o.handle ≢ newest.handle
      → Stands (calm files now) max_rec o
      → Stands (calm files' now) max_rec o
  Stands-unlink o other ne st = record {
    found =
        find-unlink o.seg_name files newest.handle sh.file gone sh.present
          (has_name-linked o.seg_name newest.seg_name sh.file newest_linked
            ∙ bytes_eq-sym o.seg_name newest.seg_name other)
          refl
        ∙ st.found;
    content =
        ap file_content (get_elem?-set_other files newest.handle o.handle gone ne) ∙ st.content;
    header_length = st.header_length;
    fits = st.fits;
    stops = st.stops;
  }

  stand' : All (Stands (calm files' now) max_rec) segs
  stand' =
      All-both
        {P = λ (o : Stored).
          (bytes_eq o.seg_name newest.seg_name ≡ false) × (o.handle ≢ newest.handle)}
        segs (λ o p st. Stands-unlink o p.0 p.1 st)
        (All-both segs (λ o a b. (a, b)) other_names sh.apart) sh.older_stand

  kept' : All (Kept files') segs
  kept' = All-both segs (λ o ne k. Kept-set files newest.handle gone o ne k) sh.apart sh.kept

  linked' : Linked start top.unsnoc.front segs end
  linked' =
      subst (Linked start top.unsnoc.front segs)
        (let last = top.unsnoc.ends_at in omega (arith, ap length empty)) top.unsnoc.linked_front

  low : Newest start end top.unsnoc.front older s
  low =
      Newest-of start end top.unsnoc.front older s linked' top.older_named
        (All-split (λ (o : Stored). 0 < length o.recs) older (s ∷ []) sh.full).0 small

  -- Without the file of the last segment, which holds no record, the others are a log with the same
  -- records.
  pub Shelf-drop :
      (front : List ℕ) × (bases ≡ front ++ (end ∷ []))
      × Shelf
          (set files newest.handle (record (sh.file) { linked = none }))
          now
          start
          end
          max_rec
          front
          older
          s
  Shelf-drop =
      let olds = All-split (Stands (calm files' now) max_rec) older (s ∷ []) stand' in
      let full = All-split (λ (o : Stored). 0 < length o.recs) older (s ∷ []) sh.full in
      let cleaned = All-split (λ (o : Stored). o.tail ≡ []) older (s ∷ []) sh.cleaned in
      let kept = All-split (Kept files') older (s ∷ []) kept' in
      let k : Kept files' s = kept.1.0 in
      let layout : k.kept_file.content ≡ s.header ++ (frames s.recs ++ s.tail) =
        sym (ap file_content k.at) ∙ olds.1.0.content in
      let whole = k.whole in
      let last = top.unsnoc.ends_at in
      (
        top.unsnoc.front,
        top.unsnoc.bases_split
            ∙ ap (λ k. top.unsnoc.front ++ (k ∷ [])) (omega (arith, ap length empty)),
        record {
          file = k.kept_file;
          present = k.at;
          layout = layout;
          apart =
              All-both older (λ o other st. handles-apart files' now max_rec o s st olds.1.0 other)
                (All-map (λ n. bytes_eq n s.seg_name ≡ false) (λ (o : Stored). o.seg_name) older
                  (map name low.unsnoc.front) low.older_named low.others)
                olds.0;
          named = top.older_named;
          older_stand = olds.0;
          newest_stands = olds.1.0;
          linked = linked';
          listed =
              linked_names-unlink newest.seg_name (map name top.unsnoc.front) files newest.handle
                gone sh.newest_stands.found
                (sh.listed
                  ∙ ap (map name) top.unsnoc.bases_split
                  ∙ map-snoc name top.unsnoc.front (next_base start segs)
                  ∙ ap (λ n. map name top.unsnoc.front ++ (n ∷ [])) (sym top.newest_name))
                top.others refl;
          full = full.0;
          first = sh.first;
          cleaned = cleaned.0;
          ends = inl (cleaned.1.0);
          kept = kept.0;
          flushed = whole;
        },
      )
