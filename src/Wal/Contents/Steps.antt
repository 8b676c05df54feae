-- ===== src/Wal/Contents/Steps.antt =====
-- What the files hold when the active one is written to, and when another is put behind them.
use go_wallib.Base.{
  ℕ, ◌+◌, ◌^◌, ◌<◌, ◌≤◌, ◌≡◌, refl, sym, ap, ◌∙◌, Option, some, List, [], ◌∷◌, ◌++◌, append-nil,
  append_assoc, arith, length, set, get_elem?, All, All-append, length-append,
}
use go_wallib.Record.{Record, frame}
use go_wallib.Record.Step.{Fits}
use go_wallib.Record.RoundTrip.{frames}
use go_wallib.Disk.{File, file_content, content_of}
use go_wallib.Segment.Header.{header_size}
use go_wallib.Segment.Name.{name}
use go_wallib.Segment.Files.{Segment, empty_segment}
use go_wallib.Segment.Content.{grown, frames-append, frames-one}
use go_wallib.Wal.Reader.Still.{Stored, Stands, records_of, calm, Stops-nil}
use go_wallib.Wal.Contents.{Body}
use mathlib.Core.Path.{subst}
use go_wallib.Wal.Contents.Chain.{
  HeaderOf, Linked, Linked-put, Linked-snoc, linked_names-set, linked_names-snoc, Kept, Kept-set,
  Kept-append,
}
use go_wallib.Wal.Contents.Files.{
  get_elem?-snoc, get_elem?-set, find-set, find-lt, find-new, find-others, name-apart,
}
use go_wallib.Wal.Contents.Standing.{
  All-both, All-each, map-snoc, records_of-snoc, Rising-snoc, Stands-set, Stands-append,
}

some_records : (rs : List Record) → 0 < length (frames rs) → 0 < length rs
unfolding frames
some_records [] h = h
some_records (r ∷ rs) h = omega arith

module _ {files : List File} {now : ℕ} {active : Option Segment} {bases : List ℕ}
    {next_lsn max_rec : ℕ} {recs : List Record}
    (b : Body files now active bases next_lsn max_rec recs) where
  -- The newest segment, with other records in its file.
  abbrev with_records : List Record → Stored
  with_records rs = record (b.newest) { recs = rs }

  newest-Stands :
      (g : File) (rs : List Record)
      → g.linked ≡ b.file.linked
      → g.content ≡ b.newest.header ++ frames rs
      → All (Fits max_rec) rs
      → Stands (calm (set files b.seg.file g) now) max_rec (with_records rs)
  newest-Stands g rs l c fits = record {
    found =
        find-set b.newest.seg_name files b.seg.file b.file g b.present l ∙ b.newest_stands.found;
    content =
        ap (λ h. content_of h (calm (set files b.seg.file g) now)) b.same
        ∙ ap file_content (get_elem?-set files b.seg.file b.file g b.present)
        ∙ c
        ∙ ap (λ l. b.newest.header ++ l)
            (sym (append-nil (frames rs)) ∙ ap (λ t. frames rs ++ t) (sym b.clean));
    header_length = b.newest_stands.header_length;
    fits = fits;
    stops = b.newest_stands.stops;
  }

  older-Stands :
      (g : File)
      → g.linked ≡ b.file.linked
      → All (Stands (calm (set files b.seg.file g) now) max_rec) b.older
  older-Stands g l =
      All-both b.older
        (λ s ne st. Stands-set files now max_rec b.seg.file b.file g s b.present l ne st) b.apart
        b.older_stand

  older-Kept : (g : File) → All (Kept (set files b.seg.file g)) b.older
  older-Kept g = All-both b.older (λ s ne k. Kept-set files b.seg.file g s ne k) b.apart b.kept

  -- Its file is changed in what does not count.
  pub Body-touch :
      (g : File)
      → g.linked ≡ b.file.linked
      → g.content ≡ b.file.content
      → header_size ≤ g.synced
      → Body (set files b.seg.file g) now active bases next_lsn max_rec recs
  Body-touch g l c keeps = record {
    older = b.older;
    newest = b.newest;
    seg = b.seg;
    there = b.there;
    same = b.same;
    clean = b.clean;
    size = b.size;
    apart = b.apart;
    named = b.named;
    all = b.all;
    rising = b.rising;
    below = b.below;
    positive = b.positive;
    start = b.start;
    linked = b.linked;
    listed = linked_names-set files b.seg.file b.file g b.present l ∙ b.listed;
    full = b.full;
    first = b.first;
    cleaned = b.cleaned;
    kept = older-Kept g;
    header_kept = keeps;
    file = g;
    present = get_elem?-set files b.seg.file b.file g b.present;
    layout = c ∙ b.layout;
    older_stand = older-Stands g l;
    newest_stands = newest-Stands g b.newest.recs l (c ∙ b.layout) b.newest_stands.fits;
    free_above = λ k lt small.
        find-set (name k) files b.seg.file b.file g b.present l ∙ b.free_above k lt small;
    free_next =
        λ more. find-set (name next_lsn) files b.seg.file b.file g b.present l ∙ b.free_next more;
  }

  pub seg-Body-touch :
      (g : File) (l : g.linked ≡ b.file.linked) (c : g.content ≡ b.file.content)
      (keeps : header_size ≤ g.synced)
      → ((Body-touch g l c keeps).seg ≡ b.seg) × ((Body-touch g l c keeps).file ≡ g)
  unfolding Body-touch
  seg-Body-touch g l c keeps = (refl, refl)

  -- The header is in the file.
  pub header-length : header_size ≤ length b.file.content
  header-length = omega (
    arith,
    ap length b.layout,
    length-append b.newest.header (frames b.newest.recs),
    b.newest_stands.header_length,
  )

  -- A record is written behind the others.
  pub Body-put :
      (g : File) (r : Record)
      → g.linked ≡ b.file.linked
      → g.content ≡ b.file.content ++ frame r.lsn r.payload
      → Fits max_rec r
      → r.lsn ≡ next_lsn
      → next_lsn + 1 < 2 ^ 64
      → header_size ≤ g.synced
      → Body
          (set files b.seg.file g)
          now
          (some (grown b.seg r))
          bases
          (next_lsn + 1)
          max_rec
          (recs ++ (r ∷ []))
  Body-put g r l c fits here small keeps =
      let more : frames (b.newest.recs ++ (r ∷ []))
          ≡ frames b.newest.recs ++ frame r.lsn r.payload =
        frames-append b.newest.recs (r ∷ []) ∙ ap (λ x. frames b.newest.recs ++ x) (frames-one r) in
      let layout : g.content ≡ b.newest.header ++ frames (b.newest.recs ++ (r ∷ [])) =
        c
        ∙ ap (λ x. x ++ frame r.lsn r.payload) b.layout
        ∙ append_assoc b.newest.header (frames b.newest.recs) (frame r.lsn r.payload)
        ∙ ap (λ x. b.newest.header ++ x) (sym more) in
      record {
        older = b.older;
        newest = with_records (b.newest.recs ++ (r ∷ []));
        seg = grown b.seg r;
        file = g;
        there = refl;
        same = b.same;
        clean = b.clean;
        size = omega (
          arith,
          b.size,
          ap length more,
          length-append (frames b.newest.recs) (frame r.lsn r.payload),
        );
        present = get_elem?-set files b.seg.file b.file g b.present;
        layout = layout;
        apart = b.apart;
        named =
            map-snoc (λ (s : Stored). s.seg_name) b.older _
            ∙ sym (map-snoc (λ (s : Stored). s.seg_name) b.older b.newest)
            ∙ b.named;
        older_stand = older-Stands g l;
        newest_stands =
            newest-Stands g (b.newest.recs ++ (r ∷ [])) l layout
              (All-append (Fits max_rec) b.newest.recs (r ∷ []) b.newest_stands.fits (fits, tt));
        all =
            records_of-snoc b.older _
            ∙ sym (append_assoc (records_of b.older) b.newest.recs (r ∷ []))
            ∙ ap (λ x. x ++ (r ∷ [])) (sym (records_of-snoc b.older b.newest) ∙ b.all);
        free_above = λ k lt lt'.
            find-set (name k) files b.seg.file b.file g b.present l
            ∙ b.free_above k (omega arith) lt';
        free_next = λ grew.
            find-set (name (next_lsn + 1)) files b.seg.file b.file g b.present l
            ∙ b.free_above (next_lsn + 1) (omega arith) small;
        rising =
            Rising-snoc 0 recs r b.rising (All-each recs (λ q lt. omega (arith, here)) b.below)
              (let pos = b.positive in omega (arith, here));
        below =
            All-append (λ (q : Record). q.lsn < next_lsn + 1) recs (r ∷ [])
              (All-each recs (λ q lt. omega arith) b.below) (omega (arith, here), tt);
        positive = omega arith;
        start = b.start;
        linked =
            Linked-put b.start next_lsn bases b.older b.newest
              (with_records (b.newest.recs ++ (r ∷ []))) r b.linked refl refl here;
        listed = linked_names-set files b.seg.file b.file g b.present l ∙ b.listed;
        full = b.full;
        first = b.first;
        cleaned = b.cleaned;
        kept = older-Kept g;
        header_kept = keeps;
      }

  -- A file with a header alone is put behind the others.
  pub Body-roll :
      (g : File) (header : List ℕ)
      → g.linked ≡ some (name next_lsn)
      → g.content ≡ header
      → length header ≡ header_size
      → HeaderOf next_lsn header
      → header_size < b.seg.size
      → next_lsn < 2 ^ 64
      → length b.file.content ≤ b.file.synced
      → header_size ≤ g.synced
      → Body
          (files ++ (g ∷ []))
          now
          (some (empty_segment (length files) (name next_lsn) next_lsn))
          (bases ++ (next_lsn ∷ []))
          next_lsn
          max_rec
          recs
  unfolding frames
  Body-roll g header l c len of grew small whole keeps =
      let newest : Stored = record {
        seg_name = name next_lsn;
        handle = length files;
        header = header;
        recs = [];
        tail = [];
      } in
      record {
        older = b.older ++ (b.newest ∷ []);
        newest = newest;
        seg = empty_segment (length files) (name next_lsn) next_lsn;
        file = g;
        there = refl;
        same = refl;
        clean = refl;
        size = refl;
        present = get_elem?-snoc files g;
        layout = c ∙ sym (append-nil header);
        apart =
            All-each (b.older ++ (b.newest ∷ []))
              (λ s st e.
                let lt = find-lt s.seg_name files s.handle st.found in absurd (omega arith))
              (All-append (Stands (calm files now) max_rec) b.older (b.newest ∷ []) b.older_stand
                (b.newest_stands, tt));
        named =
            map-snoc (λ (s : Stored). s.seg_name) (b.older ++ (b.newest ∷ [])) _
            ∙ ap (λ x. x ++ (name next_lsn ∷ [])) b.named
            ∙ sym (map-snoc name bases next_lsn);
        older_stand =
            All-each (b.older ++ (b.newest ∷ [])) (λ s st. Stands-append files now max_rec g s st)
              (All-append (Stands (calm files now) max_rec) b.older (b.newest ∷ []) b.older_stand
                (b.newest_stands, tt));
        newest_stands = record {
          found = find-new (name next_lsn) files g (b.free_next grew) l;
          content = ap file_content (get_elem?-snoc files g) ∙ c ∙ sym (append-nil header);
          header_length = len;
          fits = tt;
          stops = Stops-nil max_rec;
        };
        all = records_of-snoc (b.older ++ (b.newest ∷ [])) _ ∙ append-nil _ ∙ b.all;
        free_above = λ k lt lt'.
            find-others (name k) (name next_lsn) files g (b.free_above k lt lt') l
              (name-apart next_lsn k (λ e. absurd (omega arith)) small lt');
        free_next = λ more. absurd (omega arith);
        rising = b.rising;
        below = b.below;
        positive = b.positive;
        start = b.start;
        linked =
            subst
              (Linked b.start (bases ++ (next_lsn ∷ []))
                ((b.older ++ (b.newest ∷ [])) ++ (newest ∷ [])))
              (omega arith)
              (Linked-snoc b.start next_lsn bases (b.older ++ (b.newest ∷ [])) newest b.linked of
                tt);
        listed =
            linked_names-snoc files g (name next_lsn) l
            ∙ ap (λ x. x ++ (name next_lsn ∷ [])) b.listed
            ∙ sym (map-snoc name bases next_lsn);
        full =
            All-append (λ (s : Stored). 0 < length s.recs) b.older (b.newest ∷ []) b.full
              (some_records b.newest.recs (let size = b.size in omega arith), tt);
        first = b.first;
        cleaned =
            All-append (λ (s : Stored). s.tail ≡ []) b.older (b.newest ∷ []) b.cleaned
              (b.clean, tt);
        kept =
            All-each (b.older ++ (b.newest ∷ [])) (λ s k. Kept-append files g s k)
              (All-append (Kept files) b.older (b.newest ∷ []) b.kept (
                record {
                  kept_file = b.file;
                  at = ap (λ h. get_elem? files h) b.same ∙ b.present;
                  whole = whole;
                },
                tt,
              ));
        header_kept = keeps;
      }
