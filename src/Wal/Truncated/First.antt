-- ===== src/Wal/Truncated/First.antt =====
-- The first segment of a log loses its file (removeSegmentFile of pkg/wal/writer.go).
use go_wallib.Base.{
  ℕ, ◌+◌, ◌^◌, ◌<◌, ◌≤◌, ◌≡◌, ◌≢◌, refl, sym, ap, ◌∙◌, false, Option, none, some, List, [], ◌∷◌,
  ◌++◌, arith, length, set, All, bytes_eq, All-append,
}
use mathlib.Core.Path.{subst}
use mathlib.Core.List.{map}
use go_wallib.Record.{Record}
use go_wallib.Disk.{File, find, file_content}
use go_wallib.Segment.Name.{name}
use go_wallib.Segment.Files.{Segment}
use go_wallib.Wal.Reader.Still.{Stored, Stands, records_of, calm}
use go_wallib.Wal.Reader.Complete.{Rising}
use go_wallib.Wal.Contents.{Body}
use go_wallib.Wal.Contents.Files.{has_name-linked, some-inj, get_elem?-set_other, name-apart}
use go_wallib.Wal.Contents.Chain.{Linked, Linked-le, Numbered, Kept, Kept-set}
use go_wallib.Wal.Contents.Standing.{All-both, All-each}
use go_wallib.Wal.Reopen.Last.{All-map, map-All}
use go_wallib.Wal.Reopen.Trailing.{handles-apart, All-split}
use go_wallib.Wal.Reopen.Unlink.{linked-find, find-unlink}
use go_wallib.Wal.Truncated.{
  linked_names-behind, remove_segment_file-calm, Rising-drop, Linked-range, Linked-begins, Front,
}

module _ {files : List File} {now : ℕ} {active : Option Segment} {b : ℕ} {bases : List ℕ}
    {next_lsn max_rec : ℕ} {recs : List Record}
    (body : Body files now active (b ∷ bases) next_lsn max_rec recs) (small : next_lsn < 2 ^ 64)
    (s : Stored) (older : List Stored) (shape : body.older ≡ s ∷ older) where
  abbrev rest : List Stored
  rest = older ++ (body.newest ∷ [])

  abbrev seg_name : Stored → List ℕ
  seg_name o = o.seg_name

  named : map seg_name (s ∷ rest) ≡ name b ∷ map name bases
  named =
      subst (λ os. map seg_name (os ++ (body.newest ∷ [])) ≡ map name (b ∷ bases)) shape body.named

  linked : Linked body.start (b ∷ bases) (s ∷ rest) next_lsn
  linked =
      subst (λ os. Linked body.start (b ∷ bases) (os ++ (body.newest ∷ [])) next_lsn) shape
        body.linked

  stand : All (Stands (calm files now) max_rec) (s ∷ older)
  stand = subst (All (Stands (calm files now) max_rec)) shape body.older_stand

  full : All (λ (o : Stored). 0 < length o.recs) (s ∷ older)
  full = subst (All (λ (o : Stored). 0 < length o.recs)) shape body.full

  kept : All (Kept files) (s ∷ older)
  kept = subst (All (Kept files)) shape body.kept

  apart : All (λ (o : Stored). o.handle ≢ body.seg.file) (s ∷ older)
  apart = subst (All (λ (o : Stored). o.handle ≢ body.seg.file)) shape body.apart

  cleaned : All (λ (o : Stored). o.tail ≡ []) (s ∷ older)
  cleaned = subst (All (λ (o : Stored). o.tail ≡ [])) shape body.cleaned

  all : s.recs ++ records_of rest ≡ recs
  all = ap (λ os. records_of (os ++ (body.newest ∷ []))) (sym shape) ∙ body.all

  front_name : s.seg_name ≡ name b
  front_name = cc named

  front_found : find (name b) files ≡ some s.handle
  front_found = ap (λ n. find n files) (sym front_name) ∙ stand.0.found

  abbrev gone_file : File
  gone_file = record (kept.0.kept_file) { linked = none }

  abbrev files' : List File
  files' = set files s.handle gone_file

  front_linked : kept.0.kept_file.linked ≡ some (name b)
  front_linked =
      let (f, at, on) = linked-find (name b) files s.handle front_found in
      let same : kept.0.kept_file ≡ f = some-inj (sym kept.0.at ∙ at) in
      ap (λ (x : File). x.linked) same ∙ on

  -- The base of the first segment is below the LSN that comes next, and so are the bases behind it.
  below_next : b < body.start + length s.recs
  below_next = let more = full.0 in let here = linked.0 in omega arith

  next_le : body.start + length s.recs ≤ next_lsn
  next_le = Linked-le (body.start + length s.recs) next_lsn bases rest (linked.3)

  find-other : (n : List ℕ) → bytes_eq (name b) n ≡ false → find n files' ≡ find n files
  find-other n other =
      find-unlink n files s.handle (kept.0.kept_file) gone_file kept.0.at
        (has_name-linked n (name b) (kept.0.kept_file) front_linked ∙ other) refl

  base-apart : (k : ℕ) → b < k → k < 2 ^ 64 → bytes_eq (name b) (name k) ≡ false
  base-apart k lt lt' =
      let le = next_le in
      let low = below_next in name-apart b k (λ e. absurd (omega arith)) (omega arith) lt'

  Stands-behind :
      (o : Stored)
      → bytes_eq s.seg_name o.seg_name ≡ false
      → Stands (calm files now) max_rec o
      → Stands (calm files' now) max_rec o
  Stands-behind o other st = record {
    found =
        find-other o.seg_name (ap (λ n. bytes_eq n o.seg_name) (sym front_name) ∙ other) ∙ st.found;
    content =
        ap file_content (
          get_elem?-set_other files s.handle o.handle gone_file
            (λ e. handles-apart files now max_rec s o stand.0 st other (sym e)))
        ∙ st.content;
    header_length = st.header_length;
    fits = st.fits;
    stops = st.stops;
  }

  others : All (λ (o : Stored). bytes_eq s.seg_name o.seg_name ≡ false) rest
  others =
      let tail_named : map seg_name rest ≡ map name bases = cc named in
      All-map (λ n. bytes_eq s.seg_name n ≡ false) seg_name rest (map name bases) tail_named
        (map-All (λ n. bytes_eq s.seg_name n ≡ false) name bases
          (All-each bases
            (λ k r.
              let low = r.0 in
              let high = r.1 in
              let above = below_next in
              ap (λ n. bytes_eq n (name k)) front_name ∙ base-apart k (omega arith) (omega arith))
            (Linked-range (body.start + length s.recs) next_lsn bases rest (linked.3))))

  stand' : All (Stands (calm files' now) max_rec) rest
  stand' =
      All-both rest (λ o other st. Stands-behind o other st) others
        (All-append (Stands (calm files now) max_rec) older (body.newest ∷ []) stand.1
          (body.newest_stands, tt))

  trimmed : Body files' now active bases next_lsn max_rec (records_of rest)
  trimmed =
      let parts = All-split (Stands (calm files' now) max_rec) older (body.newest ∷ []) stand' in
      let above = below_next in
      let le = next_le in
      record {
        older = older;
        newest = body.newest;
        seg = body.seg;
        file = body.file;
        there = body.there;
        same = body.same;
        clean = body.clean;
        size = body.size;
        present =
            get_elem?-set_other files s.handle body.seg.file gone_file (λ e. apart.0 (sym e))
            ∙ body.present;
        layout = body.layout;
        apart = apart.1;
        named = cc named;
        older_stand = parts.0;
        newest_stands = parts.1.0;
        all = refl;
        free_above = λ k lt lt'.
            find-other (name k) (base-apart k (omega arith) lt') ∙ body.free_above k lt lt';
        free_next = λ more.
            find-other (name next_lsn) (base-apart next_lsn (omega arith) small)
            ∙ body.free_next more;
        rising = Rising-drop 0 s.recs (records_of rest) (subst (Rising 0) (sym all) body.rising);
        below =
            (All-split (λ (r : Record). r.lsn < next_lsn) s.recs (records_of rest)
              (subst (All (λ (r : Record). r.lsn < next_lsn)) (sym all) body.below)).1;
        positive = body.positive;
        start = body.start + length s.recs;
        linked = linked.3;
        listed =
            linked_names-behind (name b) (map name bases) files s.handle gone_file front_found
              body.listed refl;
        full = full.1;
        first = let pos = body.first in omega arith;
        cleaned = cleaned.1;
        kept =
            All-both older (λ o ne k. Kept-set files s.handle gone_file o ne k)
              (All-both older
                (λ o other st. λ e. handles-apart files now max_rec s o stand.0 st other (sym e))
                (All-split (λ (o : Stored). bytes_eq s.seg_name o.seg_name ≡ false) older
                  (body.newest ∷ []) others).0
                stand.1)
              kept.1;
        header_kept = body.header_kept;
      }

  -- The segment goes, and its records with it.
  pub Front-gone : Front files now active b bases next_lsn max_rec recs
  Front-gone =
      let (k, first, at) =
        Linked-begins (body.start + length s.recs) next_lsn bases older body.newest (linked.3) in
      let here = linked.0 in
      record {
        gone = s.recs;
        left = records_of rest;
        split = all;
        some_gone = full.0;
        files_left = files';
        run =
            remove_segment_file-calm files now b s.handle (kept.0.kept_file) front_found kept.0.at;
        numbered = subst (λ n. Numbered n s.recs) (sym here) (linked.2);
        begins = (k, first, omega arith);
        body = trimmed;
      }
