-- ===== src/Wal/Cut/Source.antt =====
-- A cut inside a segment (cutRewriteBoundary of pkg/wal/writer.go): its source, the active segment or one
-- that is opened.
use go_wallib.Base.{
  ℕ, zero, suc, ◌+◌, ◌^◌, ◌<◌, ◌≡◌, refl, sym, ap, ◌∙◌, Bool, true, false, Bool-cases, some, List,
  [], ◌∷◌, ◌++◌, arith, length, append-nil, drop, All, All-append, get_elem?, inl, inr, ◌==◌, ==→eq,
  leb,
}
use mathlib.Core.Path.{subst}
use mathlib.Core.List.{map}
use go_wallib.Errors.{Result, ok}
use go_wallib.Exec.{Exec, pure, discard, finally}
use go_wallib.Record.{Record}
use go_wallib.Record.RoundTrip.{frames}
use go_wallib.Disk.{File, Disk}
use go_wallib.Segment.Header.{header_size}
use go_wallib.Segment.Name.{name}
use go_wallib.Segment.Files.{Segment, open_segment, close}
use go_wallib.Segment.Content.{Holds}
use go_wallib.Wal.{Wal, on_disk}
use go_wallib.Wal.Boundary.{base_at, cut_source, release, cut_rewrite_boundary}
use go_wallib.Wal.Index.{EndsBelow}
use go_wallib.Wal.Reader.Still.{Stored, Stands, calm}
use go_wallib.Wal.Contents.{Log, Succeeds, Succeeds-bind, Succeeds-last}
use go_wallib.Wal.Contents.Calm.{close_file-calm}
use go_wallib.Wal.Contents.Chain.{Linked}
use go_wallib.Wal.Reopen.Segments.{fresh_segment, open_segment-calm}
use go_wallib.Wal.Reopen.Unlink.{linked-find}
use go_wallib.Wal.Truncated.Trim.{get_elem?-drop}
use go_wallib.Wal.Cut.Below.{Cut, inside-le, map-drop, Linked-length}
use go_wallib.Wal.Reopen.Trailing.{All-split}
use go_wallib.Wal.Reopen.Last.{snoc-same}
use go_wallib.Wal.Indexed.Truncate.{Rest-get_elem}
use go_wallib.Wal.Indexed.Cut.{get_active-run}
use go_wallib.Disk.{find}
use go_wallib.Wal.Cut.Around.{Around}
use go_wallib.Wal.Cut.Boundary.{middle, cut_with_source-Cut}

-- The cleanup of the source leaves a directory in which nothing fails as it is.
Succeeds-finally :
    (w : Wal) (recs : List Record) (cut : ℕ) (m : Exec Wal Unit) (c : Exec Disk Unit) (v : Wal)
    → ((files : List File) (now : ℕ) → c (calm files now) ≡ (ok tt, calm files now))
    → Succeeds (λ _. Cut w recs cut) (m v)
    → Succeeds (λ _. Cut w recs cut) (finally m (on_disk c) v)
unfolding finally on_disk
Succeeds-finally w recs cut m c v quiet h =
    let k = h.post in
    record {
      value = h.value;
      state = record (h.state) { disk = (c h.state.disk).1 };
      run = ap (λ (x : Result Unit × Wal). (x.0, record (x.1) { disk = (c x.1.disk).1 })) h.run;
      post = record {
        held = record {
          files = k.held.files;
          now = k.held.now;
          segs = k.held.segs;
          disk =
              ap (λ d. (c d).1) k.held.disk
              ∙ ap (λ (x : Result Unit × Disk). x.1) (quiet k.held.files k.held.now);
          named = k.held.named;
          stand = k.held.stand;
          all = k.held.all;
          listed = k.held.listed;
        };
        first = k.first;
        counter = k.counter;
      };
    }

release-calm :
    (is_active : Bool) (source : Segment) (files : List File) (now : ℕ)
    → release is_active source (calm files now) ≡ (ok tt, calm files now)
unfolding pure discard close
release-calm true source files now = refl
release-calm false source files now =
    ap (λ (x : Result (Unit {0}) × Disk). (ok tt, x.1)) (close_file-calm files now source.file)

-- A segment of the directory, as its records are read.
Holds-Stands :
    (files : List File) (now max_rec : ℕ) (s : Stored) (seg : Segment)
    → Stands (calm files now) max_rec s
    → s.tail ≡ []
    → seg.file ≡ s.handle
    → seg.size ≡ header_size + length (frames s.recs)
    → Holds seg s.recs (calm files now)
Holds-Stands files now max_rec s seg st clean file size =
    let (f, at_handle, on) = linked-find s.seg_name files s.handle st.found in
    record {
      file = f;
      header = s.header;
      tail = s.tail;
      present = ap (get_elem? files) file ∙ at_handle;
      layout = sym (ap (λ o. go_wallib.Disk.file_content o) at_handle) ∙ st.content;
      header_length = st.header_length;
      size = size;
    }

above-cut :
    (start end n base cut : ℕ) (bases : List ℕ) (segs : List Stored)
    → ¬ EndsBelow bases cut n
    → cut < end
    → (a : Around start end n base bases segs) → cut < base + length a.s.recs
above-cut start end n base cut bases segs last_such lt a =
    go (drop (suc n) bases) a.rest a.behind (get_elem?-drop bases (suc n) 0 (suc n) (omega arith))
  where
    go :
        (ks : List ℕ) (rest : List Stored)
        → Linked (base + length a.s.recs) ks rest end
        → get_elem? ks 0 ≡ get_elem? bases (suc n)
        → cut < base + length a.s.recs
    go [] [] h e = omega (arith, h)
    go [] (s ∷ rest) h e = absurd (h tt)
    go (k ∷ ks) [] h e = absurd (h tt)
    go (k ∷ ks) (s ∷ rest) h e = elim (Bool-cases (leb k cut)) [
      | inl le ↦ absurd (last_such (k, sym e, ground arith))
      | inr gt ↦ let here = h.0 in ground (arith, here)
    ]

no_more :
    (mid end n : ℕ) (bases : List ℕ) (rest : List Stored)
    → Linked mid (drop (suc n) bases) rest end
    → suc n ≡ length bases
    → rest ≡ []
no_more mid end n [] rest h e = absurd (omega (arith, e))
no_more mid end zero (b ∷ []) [] h e = refl
no_more mid end zero (b ∷ []) (s ∷ rest) h e = absurd (h tt)
no_more mid end zero (b ∷ c ∷ bases) rest h e = absurd (omega (arith, e))
no_more mid end (suc n) (b ∷ bases) rest h e = no_more mid end n bases rest h (omega (arith, e))

module _ (w : Wal) (recs : List Record) (log : Log w recs) (small : w.next_lsn < 2 ^ 64)
    (n base cut : ℕ) (found : get_elem? w.segment_bases n ≡ some base) (below : base < cut)
    (high : cut < w.next_lsn) (last_such : ¬ EndsBelow w.segment_bases cut n) where
  abbrev all_segs : List Stored
  all_segs = log.body.older ++ (log.body.newest ∷ [])

  above :
      (a : Around log.body.start w.next_lsn n base w.segment_bases all_segs)
      → cut < base + length a.s.recs
  above a = above-cut log.body.start w.next_lsn n base cut w.segment_bases all_segs last_such high a

  abbrev here : Around log.body.start w.next_lsn n base w.segment_bases all_segs
  here = middle w recs log small n base cut found below high above

  clean : here.s.tail ≡ []
  clean =
      (All-split (λ (s : Stored). s.tail ≡ []) here.front (here.s ∷ here.rest)
        (subst (All (λ (s : Stored). s.tail ≡ [])) (sym here.parts) (
          All-append (λ (s : Stored). s.tail ≡ []) log.body.older (log.body.newest ∷ [])
            log.body.cleaned (log.body.clean, tt)))).1.0

  stands : Stands (calm log.files log.now) w.opts.max_record_size here.s
  stands =
      (All-split (Stands (calm log.files log.now) w.opts.max_record_size) here.front
        (here.s ∷ here.rest)
        (subst (All (Stands (calm log.files log.now) w.opts.max_record_size)) (sym here.parts) (
          All-append (Stands (calm log.files log.now) w.opts.max_record_size) log.body.older
            (log.body.newest ∷ []) log.body.older_stand (log.body.newest_stands, tt)))).1.0

  named : here.s.seg_name ≡ name base
  named =
      let inside = inside-le w.segment_bases n base found in
      let r = Rest-get_elem w.segment_bases n base found in
      let both =
        map-drop (λ (s : Stored). s.seg_name) here.front (here.s ∷ here.rest) n w.segment_bases
          (Linked-length log.body.start base n w.segment_bases here.front here.before (omega arith))
          (ap (map (λ (s : Stored). s.seg_name)) here.parts ∙ log.body.named)
        ∙ ap (map name) r.split in
      cc both

  -- The source that is opened, or the active segment, has the records.
  abbrev Source : Segment → Wal → Type 0
  Source source v =
      Holds source here.s.recs (calm log.files log.now)
      × (v ≡ record w { disk = calm log.files log.now })

  source-Holds :
      (is_active : Bool)
      → (n + 1 == length w.segment_bases) ≡ is_active
      → Succeeds Source (cut_source is_active base w)
  source-Holds true e =
      let last : here.s ≡ log.body.newest =
        (snoc-same here.front log.body.older here.s log.body.newest (
          ap (λ l. here.front ++ (here.s ∷ l))
            (sym (
              no_more (base + length here.s.recs) w.next_lsn n w.segment_bases here.rest here.behind
                (ground (arith, ==→eq (n + 1) (length w.segment_bases) e))))
          ∙ here.parts)).1 in
      let held : Holds log.body.seg here.s.recs (calm log.files log.now) =
        Holds-Stands log.files log.now w.opts.max_record_size here.s log.body.seg stands clean
          (sym (ap (λ (s : Stored). s.handle) last ∙ log.body.same))
          (log.body.size ∙ ap (λ (s : Stored). header_size + length (frames s.recs)) (sym last)) in
      record {
        value = log.body.seg;
        state = w;
        run = get_active-run w log.body.seg log.body.there;
        post = (held, ap (λ d. record w { disk = d }) log.disk);
      }
  source-Holds false e =
      let (time, made) = here.header in
      let bytes = frames here.s.recs ++ here.s.tail in
      let seg = fresh_segment base here.s.handle (header_size + length bytes) in
      let d = calm log.files log.now in
      Succeeds-last (open_segment base) w d d seg log.disk
        (open_segment-calm log.files log.now base time here.s.handle bytes
          (ap (λ m. find m log.files) (sym named) ∙ stands.found)
          (stands.content ∙ ap (λ l. l ++ bytes) made) (omega arith))
        (
          Holds-Stands log.files log.now w.opts.max_record_size here.s seg stands clean refl (
              ap (λ l. header_size + length (frames here.s.recs ++ l)) clean
              ∙ ap (λ l. header_size + length l) (append-nil (frames here.s.recs))),
          refl,
        )

  pub cut_rewrite_boundary-Cut :
      base_at w.segment_bases n ≡ base
      → Succeeds (λ _. Cut w recs cut) (cut_rewrite_boundary w.segment_bases n cut w)
  unfolding cut_rewrite_boundary
  cut_rewrite_boundary-Cut same = rw same (
      Succeeds-bind _ _ w (source-Holds (n + 1 == length w.segment_bases) refl) (λ source v p.
        Succeeds-finally w recs cut _ _ v (release-calm (n + 1 == length w.segment_bases) source) (
          cut_with_source-Cut w recs log small n base cut found below high above _ source p.0 v
            p.1)))
