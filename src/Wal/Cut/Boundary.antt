-- ===== src/Wal/Cut/Boundary.antt =====
-- A cut inside a segment (cutRewriteBoundary of pkg/wal/writer.go), once its source is open.
use go_wallib.Base.{
  ℕ, suc, ◌+◌, ◌^◌, ◌≤◌, ◌<◌, ◌≡◌, refl, sym, ap, ◌∙◌, Bool, false, some, none, List, [], ◌∷◌, ◌++◌,
  arith, length, length-append, append-nil, append_assoc, take, drop, All, All-append, get_elem?,
  bytes_eq, if◌then◌else◌, take-append-drop,
}
use mathlib.Core.Path.{subst}
use mathlib.Core.List.{map, Perm}
use native.Mathlib.Numerals.{add-one}
use go_wallib.Record.{Record}
use go_wallib.Record.Step.{Fits}
use go_wallib.Record.RoundTrip.{frames}
use go_wallib.Disk.{File, find, file_content}
use go_wallib.Segment.Header.{length-encode_header}
use go_wallib.Segment.Name.{name, temp_suffix}
use go_wallib.Segment.Files.{Segment, new_header, close}
use go_wallib.Segment.Content.{Holds}
use go_wallib.Wal.{Wal}
use go_wallib.Wal.Boundary.{remove_all, install_cut, cut_with_source}
use go_wallib.Wal.Reader.Still.{Stored, Stands, Stops-nil, records_of, calm}
use go_wallib.Wal.Contents.{
  Log, Succeeds, Succeeds-on_disk, Succeeds-modify, Succeeds-gets, Succeeds-get_active,
  Succeeds-last,
}
use go_wallib.Wal.Contents.Calm.{on_error-ok, close_file-calm}
use go_wallib.Wal.Contents.Chain.{Linked-le, linked_names-snoc}
use go_wallib.Wal.Contents.Files.{find-new, get_elem?-snoc, name-apart}
use go_wallib.Wal.Contents.Rewrite.{
  at_or_above, replacement_file, replacement_segment, rewrite_from-calm,
}
use go_wallib.Wal.Contents.Standing.{All-each, Stands-append}
use go_wallib.Wal.Reopen.Last.{map-All}
use go_wallib.Wal.Reopen.Numbers.{Linked-Numbered}
use go_wallib.Wal.Reopen.Trailing.{All-split}
use go_wallib.Wal.Truncated.{Linked-range}
use go_wallib.Wal.Cut.{Removed, remove_all-calm, find-unlisted}
use go_wallib.Wal.Cut.Parts.{
  at_or_above-append, at_or_above-none, at_or_above-all, records-range, records_of-append,
}
use go_wallib.Wal.Cut.Sides.{first_of, first_of-at_or_above, names-apart, listed-split}
use go_wallib.Wal.Cut.Below.{Cut, map-drop, Linked-length, inside-le}
use go_wallib.Wal.Cut.Around.{Around, Linked-Around, temp-apart, Perm-snoc, All-at_or_above}

module _ (w : Wal) (recs : List Record) (log : Log w recs) (small : w.next_lsn < 2 ^ 64)
    (n base cut : ℕ) (found : get_elem? w.segment_bases n ≡ some base) (below : base < cut)
    (high : cut < w.next_lsn)
    (above : (m : Around log.body.start w.next_lsn n base w.segment_bases
        (log.body.older ++ (log.body.newest ∷ [])))
      → cut < base + length m.s.recs) where
  abbrev pub segs : List Stored
  segs = log.body.older ++ (log.body.newest ∷ [])

  abbrev behind_bases : List ℕ
  behind_bases = drop (suc n) w.segment_bases

  pub middle : Around log.body.start w.next_lsn n base w.segment_bases segs
  middle = Linked-Around log.body.start w.next_lsn n base w.segment_bases segs log.body.linked found

  mid_le : base + length middle.s.recs ≤ w.next_lsn
  mid_le = Linked-le (base + length middle.s.recs) w.next_lsn behind_bases middle.rest middle.behind

  low-bases : All (λ b. (b < cut) × (b < 2 ^ 64)) (take (suc n) w.segment_bases)
  low-bases = subst (All (λ b. (b < cut) × (b < 2 ^ 64))) (sym middle.take_one) (
      All-append (λ b. (b < cut) × (b < 2 ^ 64)) (take n w.segment_bases) (base ∷ [])
        (All-each (take n w.segment_bases) (λ b r. let top = r.1 in (omega arith, omega arith))
          (Linked-range log.body.start base (take n w.segment_bases) middle.front middle.before))
        ((below, omega arith), tt))

  high-bases : All (λ k. (cut < k) × (k < 2 ^ 64)) behind_bases
  high-bases =
      let lt = above middle in
      All-each behind_bases (λ k r. let bottom = r.0 in let top = r.1 in (omega arith, omega arith))
        (Linked-range (base + length middle.s.recs) w.next_lsn behind_bases middle.rest
          middle.behind)

  bases-apart : All (λ b. bytes_eq (name b) (name cut) ≡ false) w.segment_bases
  bases-apart =
      subst (All (λ b. bytes_eq (name b) (name cut) ≡ false))
        (take-append-drop (suc n) w.segment_bases)
        (All-append (λ b. bytes_eq (name b) (name cut) ≡ false) (take (suc n) w.segment_bases)
          behind_bases
          (All-each (take (suc n) w.segment_bases)
            (λ b r.
              let lt = r.0 in name-apart b cut (λ e. absurd (omega (arith, e))) (r.1) (omega arith))
            low-bases)
          (All-each behind_bases
            (λ b r.
              let lt = r.0 in name-apart b cut (λ e. absurd (omega (arith, e))) (r.1) (omega arith))
            high-bases))

  no_file : find (name cut) log.files ≡ none
  no_file = find-unlisted (name cut) log.files (
      subst (All (λ m. bytes_eq m (name cut) ≡ false)) (sym log.body.listed)
        (map-All (λ m. bytes_eq m (name cut) ≡ false) name w.segment_bases bases-apart))

  no_temp : find (name cut ++ temp_suffix) log.files ≡ none
  no_temp = find-unlisted (name cut ++ temp_suffix) log.files (
      subst (All (λ m. bytes_eq m (name cut ++ temp_suffix) ≡ false)) (sym log.body.listed) (
        map-All (λ m. bytes_eq m (name cut ++ temp_suffix) ≡ false) name w.segment_bases
          (All-each w.segment_bases (λ k _. temp-apart k cut) bases-apart)))

  stand-parts :
      All (Stands (calm log.files log.now) w.opts.max_record_size) (middle.s ∷ middle.rest)
  stand-parts =
      (All-split (Stands (calm log.files log.now) w.opts.max_record_size) middle.front
        (middle.s ∷ middle.rest)
        (subst (All (Stands (calm log.files log.now) w.opts.max_record_size)) (sym middle.parts) (
          All-append (Stands (calm log.files log.now) w.opts.max_record_size) log.body.older
            (log.body.newest ∷ []) log.body.older_stand (log.body.newest_stands, tt)))).1

  abbrev kept : List Record
  kept = at_or_above cut middle.s.recs

  abbrev rep : Stored
  rep = record {
    seg_name = name cut;
    handle = length log.files;
    header = new_header cut log.now;
    recs = kept;
    tail = [];
  }

  abbrev new_file : File
  new_file = replacement_file cut log.now kept

  abbrev files1 : List File
  files1 = log.files ++ (new_file ∷ [])

  rep-Stands : Stands (calm files1 log.now) w.opts.max_record_size rep
  rep-Stands = record {
    found = find-new (name cut) log.files new_file no_file refl;
    content =
        ap file_content (get_elem?-snoc log.files new_file)
        ∙ ap (λ l. new_header cut log.now ++ l) (sym (append-nil (frames kept)));
    header_length = unfold new_header in length-encode_header _;
    fits = All-at_or_above (Fits w.opts.max_record_size) cut middle.s.recs stand-parts.0.fits;
    stops = Stops-nil w.opts.max_record_size;
  }

  rest-named : map (λ (s : Stored). s.seg_name) middle.rest ≡ map name behind_bases
  rest-named =
      let inside = inside-le w.segment_bases n base found in
      let front_length =
        Linked-length log.body.start base n w.segment_bases middle.front middle.before
          (omega arith) in
      map-drop (λ (s : Stored). s.seg_name) (middle.front ++ (middle.s ∷ [])) middle.rest (suc n)
        w.segment_bases (omega (arith, front_length, length-append middle.front (middle.s ∷ [])))
        (ap (map (λ (s : Stored). s.seg_name))
            (append_assoc middle.front (middle.s ∷ []) middle.rest ∙ middle.parts)
          ∙ log.body.named)

  gone_files :
      Removed files1 log.now w.opts.max_record_size
        (take (suc n) w.segment_bases)
        (map name behind_bases ++ (name cut ∷ []))
        (rep ∷ middle.rest)
  gone_files =
      remove_all-calm (take (suc n) w.segment_bases) (map name behind_bases ++ (name cut ∷ []))
        (rep ∷ middle.rest) files1 log.now w.opts.max_record_size
        (linked_names-snoc log.files new_file (name cut) refl
          ∙ ap (λ l. l ++ (name cut ∷ []))
              (listed-split (suc n) w.segment_bases log.files log.body.listed)
          ∙ append_assoc (map name (take (suc n) w.segment_bases)) (map name behind_bases)
              (name cut ∷ []))
        (names-apart cut (take (suc n) w.segment_bases) (cut ∷ behind_bases) (rep ∷ middle.rest)
          low-bases
          (
            (omega arith, omega arith),
            All-each behind_bases (λ k r. let lt = r.0 in (omega arith, r.1)) high-bases,
          )
          (ap (λ l. name cut ∷ l) rest-named))
        (
          rep-Stands,
          All-each middle.rest
              (λ s st. Stands-append log.files log.now w.opts.max_record_size new_file s st)
              stand-parts.1,
        )

  kept-records : kept ++ records_of middle.rest ≡ at_or_above cut recs
  kept-records =
      let lt = above middle in
      let parts : records_of middle.front ++ (middle.s.recs ++ records_of middle.rest) ≡ recs =
        sym (records_of-append middle.front (middle.s ∷ middle.rest))
        ∙ ap records_of middle.parts
        ∙ log.body.all in
      sym (
        ap (at_or_above cut) (sym parts)
        ∙ at_or_above-append cut (records_of middle.front) (middle.s.recs ++ records_of middle.rest)
        ∙ ap (λ l. l ++ at_or_above cut (middle.s.recs ++ records_of middle.rest))
            (at_or_above-none cut (records_of middle.front) (
              All-each (records_of middle.front) (λ r k. let top = k.1 in omega arith)
                (records-range log.body.start base (take n w.segment_bases) middle.front
                  middle.before)))
        ∙ at_or_above-append cut middle.s.recs (records_of middle.rest)
        ∙ ap (λ l. kept ++ l)
            (at_or_above-all cut (records_of middle.rest) (
              All-each (records_of middle.rest) (λ r k. let bottom = k.0 in omega arith)
                (records-range (base + length middle.s.recs) w.next_lsn behind_bases middle.rest
                  middle.behind))))

  first-kept : cut ≡ first_of (at_or_above cut recs)
  first-kept =
      let (numbered, total) =
        Linked-Numbered log.body.start w.next_lsn w.segment_bases segs log.body.linked in
      let low = Linked-le log.body.start base (take n w.segment_bases) middle.front middle.before in
      sym (
        ap (λ l. first_of (at_or_above cut l)) (sym log.body.all)
        ∙ first_of-at_or_above log.body.start cut _ numbered (omega arith) (omega arith))

  installed :
      (is_active : Bool)
      → Cut w recs cut (record w {
        disk = calm gone_files.files' log.now;
        segment_bases = cut ∷ behind_bases;
        first_lsn = cut;
        active =
            if is_active then some (replacement_segment (length log.files) cut kept) else w.active;
      })
  installed is_active = record {
    held = record {
      files = gone_files.files';
      now = log.now;
      segs = rep ∷ middle.rest;
      disk = refl;
      named = ap (λ l. name cut ∷ l) rest-named;
      stand = gone_files.stand;
      all = kept-records;
      listed =
          subst (λ l. Perm l (name cut ∷ map name behind_bases)) (sym gone_files.listed)
            (Perm-snoc (map name behind_bases) (name cut));
    };
    first = first-kept;
    counter = refl;
  }

  pub cut_with_source-Cut :
      (is_active : Bool) (source : Segment)
      → Holds source middle.s.recs (calm log.files log.now)
      → (v : Wal) → v ≡ record w { disk = calm log.files log.now }
      → Succeeds (λ _. Cut w recs cut) (cut_with_source is_active source w.segment_bases n cut v)
  unfolding cut_with_source
  cut_with_source-Cut is_active source held v same =
      let d = calm log.files log.now in
      let d1 = calm files1 log.now in
      let d2 = calm gone_files.files' log.now in
      let w0 : Wal = record w { disk = d } in
      let new = replacement_segment (length log.files) cut kept in
      subst
        (λ u.
          Succeeds (λ _. Cut w recs cut) (cut_with_source is_active source w.segment_bases n cut u))
        (sym same)
        (rw (add-one n) (
          Succeeds-gets _ _ w0 (
            Succeeds-on_disk _ _ w0 d d1 new refl
              (rewrite_from-calm log.files log.now cut w.opts.max_record_size source middle.s.recs
                held stand-parts.0.fits no_temp no_file)
              (Succeeds-on_disk _ _ _ d1 d2 tt refl
                (on_error-ok (remove_all (take (suc n) w.segment_bases)) _ d1 d2 tt gone_files.run)
                (Succeeds-get_active _ _ log.body.seg log.body.there (
                  Succeeds-modify _ _ _ (
                    Succeeds-last _ _ d2 d2 tt (unfold install_cut in refl)
                      (unfold close in close_file-calm gone_files.files' log.now _)
                      (unfold install_cut in rw (add-one n) (installed is_active)))))))))
