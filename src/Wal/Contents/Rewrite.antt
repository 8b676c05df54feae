-- ===== src/Wal/Contents/Rewrite.antt =====
-- RewriteFrom of internal/segment/segment.go, in a directory in which nothing fails.
use go_wallib.Base.{
  ℕ, ◌+◌, ◌-◌, ◌≡◌, refl, sym, ap, ◌∙◌, true, false, Bool-cases, Option, none, some, List, [], ◌∷◌,
  ◌++◌, append-nil, append_assoc, arith, length, length-append, take, drop, min, All, inl, inr, ltb,
  leb, if◌then◌else◌, bytes_eq, bytes_eq→eq,
}
use go_wallib.Errors.{Result, ok, err, not_exist}
use go_wallib.Exec.{bind_run, pure, gets, ◌>>=◌}
use go_wallib.Record.{Record, frame}
use go_wallib.Record.Step.{Fits}
use go_wallib.Record.RoundTrip.{frames, scan-frames}
use go_wallib.Disk.{
  Disk, File, Handle, find, content_of, file_content, create_file, write_at, read_section,
  rename_file, remove_file, sync_dir, next_fault, change,
}
use go_wallib.Segment.Header.{header_size, length-encode_header}
use go_wallib.Segment.Name.{name, temp_suffix}
use go_wallib.Segment.Files.{
  Segment, pred_lsn, empty_segment, new_header, append, sync, remove_if_exists, copy_records,
  fill_replacement, rewrite_from,
}
use go_wallib.Segment.Content.{
  Holds, grown, last_lsn, frames-append, frames-one, read_section_works, section_of_Holds,
}
use go_wallib.Wal.Reader.Still.{calm}
use go_wallib.Wal.Contents.Files.{
  get_elem?-append, get_elem?-snoc, get_elem?-lt, set-snoc, find-new, find-others,
}
use go_wallib.Wal.Contents.Calm.{
  written, synced_file, change-calm, create_file-calm, write_at-calm, sync_file-calm, append-calm,
  on_error-ok, sync_dir-calm, overwrite-end,
}

-- The records that a cut keeps.
abbrev pub at_or_above : ℕ → List Record → List Record
at_or_above from_lsn [] = []
at_or_above from_lsn (r ∷ rs) =
    let others = at_or_above from_lsn rs in if leb from_lsn r.lsn then r ∷ others else others

at_or_above-below :
    (from_lsn : ℕ) (r : Record) (rs : List Record)
    → ltb r.lsn from_lsn ≡ true
    → at_or_above from_lsn (r ∷ rs) ≡ at_or_above from_lsn rs
at_or_above-below from_lsn r rs e =
    let other : leb from_lsn r.lsn ≡ false = ground arith in rw other refl

at_or_above-kept :
    (from_lsn : ℕ) (r : Record) (rs : List Record)
    → ltb r.lsn from_lsn ≡ false
    → at_or_above from_lsn (r ∷ rs) ≡ r ∷ at_or_above from_lsn rs
at_or_above-kept from_lsn r rs e =
    let here : leb from_lsn r.lsn ≡ true = ground arith in rw here refl

length-new_header : (b now : ℕ) → length (new_header b now) ≡ header_size
unfolding new_header
length-new_header b now = length-encode_header _

-- The file of the replacement, synced, and the segment that is returned.
abbrev pub replacement_file : ℕ → ℕ → List Record → File
replacement_file from_lsn now recs = record {
  linked = some (name from_lsn);
  content = new_header from_lsn now ++ frames recs;
  synced = length (new_header from_lsn now ++ frames recs);
}

abbrev pub replacement_segment : Handle → ℕ → List Record → Segment
replacement_segment h from_lsn recs = record {
  file = h;
  seg_name = name from_lsn;
  base_lsn = from_lsn;
  size = header_size + length (frames recs);
  last_lsn = last_lsn (pred_lsn from_lsn) recs;
}

module _ (files : List File) (now from_lsn max_rec : ℕ) where
  -- The file that is being filled, under this name.
  abbrev draft : List ℕ → ℕ → List Record → File
  draft n safe recs = record {
    linked = some n;
    content = new_header from_lsn now ++ frames recs;
    synced = safe;
  }

  abbrev with_draft : List ℕ → ℕ → List Record → Disk
  with_draft n safe recs = calm (files ++ (draft n safe recs ∷ [])) now

  abbrev dst : List Record → ℕ → Segment
  dst recs last = record {
    file = length files;
    seg_name = name from_lsn;
    base_lsn = from_lsn;
    size = header_size + length (frames recs);
    last_lsn = last;
  }

  length-draft :
      (recs : List Record)
      → length (new_header from_lsn now ++ frames recs) ≡ header_size + length (frames recs)
  length-draft recs =
      omega (
        arith,
        length-append (new_header from_lsn now) (frames recs),
        length-new_header from_lsn now,
      )

  frames-snoc :
      (recs : List Record) (r : Record)
      → frames (recs ++ (r ∷ [])) ≡ frames recs ++ frame r.lsn r.payload
  frames-snoc recs r = frames-append recs (r ∷ []) ∙ ap (λ l. frames recs ++ l) (frames-one r)

  -- One record more.
  append-draft :
      (n : List ℕ) (recs : List Record) (last : ℕ) (r : Record)
      → Fits max_rec r
      → append (dst recs last) r.lsn r.payload (with_draft n 0 recs) ≡ (
        ok (length (frame r.lsn r.payload), dst (recs ++ (r ∷ [])) r.lsn),
        with_draft n 0 (recs ++ (r ∷ [])),
      )
  append-draft n recs last r fits =
      let bytes = frame r.lsn r.payload in
      let size = header_size + length (frames recs) in
      let more = frames-snoc recs r in
      let unsafe : min 0 size ≡ 0 = omega arith in
      let content =
        overwrite-end size (new_header from_lsn now ++ frames recs) bytes (length-draft recs)
        ∙ append_assoc (new_header from_lsn now) (frames recs) bytes
        ∙ ap (λ l. new_header from_lsn now ++ l) (sym more) in
      let larger : size + length bytes ≡ header_size + length (frames (recs ++ (r ∷ []))) =
        omega (arith, ap length more, length-append (frames recs) bytes) in
      append-calm (files ++ (draft n 0 recs ∷ [])) now max_rec (dst recs last) r (draft n 0 recs)
        (get_elem?-snoc files (draft n 0 recs)) fits
      ∙ ap (λ fs. (ok (length bytes, grown (dst recs last) r), calm fs now))
          (set-snoc files (draft n 0 recs) (written size bytes (draft n 0 recs)))
      ∙ ap
          (λ safe. (
            ok (length bytes, grown (dst recs last) r),
            calm (files ++ (record (written size bytes (draft n 0 recs)) { synced = safe } ∷ []))
                now,
          ))
          unsafe
      ∙ ap
          (λ c. (
            ok (length bytes, grown (dst recs last) r),
            calm (files ++ (record { linked = some n; content = c; synced = 0 } ∷ [])) now,
          ))
          content
      ∙ ap
          (λ k. (
            ok (length bytes, record (dst recs last) { size = k; last_lsn = r.lsn }),
            with_draft n 0 (recs ++ (r ∷ [])),
          ))
          larger

  copy_records-calm :
      (n : List ℕ) (rs recs : List Record) (last : ℕ)
      → All (Fits max_rec) rs
      → copy_records (dst recs last) from_lsn rs (with_draft n 0 recs) ≡ (
        ok (dst (recs ++ at_or_above from_lsn rs) (last_lsn last (at_or_above from_lsn rs))),
        with_draft n 0 (recs ++ at_or_above from_lsn rs),
      )
  unfolding copy_records pure
  copy_records-calm n [] recs last fits = rw (append-nil recs) refl
  copy_records-calm n (r ∷ rs) recs last fits = elim (Bool-cases (ltb r.lsn from_lsn)) [
    | inl below ↦
        rw (below, at_or_above-below from_lsn r rs below) (copy_records-calm n rs recs last fits.1)
    | inr kept ↦
        let others = at_or_above from_lsn rs in
        rw (kept, at_or_above-kept from_lsn r rs kept)
          (bind_run (append (dst recs last) r.lsn r.payload) _ (with_draft n 0 recs)
              (with_draft n 0 (recs ++ (r ∷ []))) _ (append-draft n recs last r fits.0)
            ∙ copy_records-calm n rs (recs ++ (r ∷ [])) r.lsn fits.1
            ∙ ap (λ l. (ok (dst l (last_lsn r.lsn others)), with_draft n 0 l))
                (append_assoc recs (r ∷ []) others))
  ]

  abbrev temp : List ℕ
  temp = name from_lsn ++ temp_suffix

  module _ (src : Segment) (recs : List Record) (held : Holds src recs (calm files now))
      (fits : All (Fits max_rec) recs) (no_temp : find (name from_lsn ++ temp_suffix) files ≡ none)
      (no_file : find (name from_lsn) files ≡ none) where
    remove_if_exists-none : remove_if_exists temp (calm files now) ≡ (ok tt, calm files now)
    unfolding remove_if_exists remove_file next_fault ◌>>=◌ find
    remove_if_exists-none = rw no_temp refl

    src-kept :
        (f : File)
        → content_of src.file (calm (files ++ (f ∷ [])) now) ≡ content_of src.file (calm files now)
    src-kept f = ap file_content (
        get_elem?-append files (f ∷ []) src.file
          (get_elem?-lt files src.file held.file held.present))

    section-read :
        (f : File)
        → read_section src.file header_size (src.size - header_size) (calm (files ++ (f ∷ [])) now)
          ≡ (ok (record { bytes = frames recs; broken = false }), calm (files ++ (f ∷ [])) now)
    section-read f =
        read_section_works src.file header_size (src.size - header_size)
          (calm (files ++ (f ∷ [])) now) refl
        ∙ ap
            (λ l. (
              ok (record {
                bytes = take (src.size - header_size) (drop header_size l);
                broken = false;
              }),
              calm (files ++ (f ∷ [])) now,
            ))
            (src-kept f)
        ∙ ap (λ l. (ok (record { bytes = l; broken = false }), calm (files ++ (f ∷ [])) now))
            (section_of_Holds src recs (calm files now) held)

    temp-apart : bytes_eq temp (name from_lsn) ≡ false
    temp-apart = elim (Bool-cases (bytes_eq (name from_lsn ++ temp_suffix) (name from_lsn))) [
      | inl e ↦
          let same = bytes_eq→eq (name from_lsn ++ temp_suffix) (name from_lsn) e in
          absurd (omega (arith, ap length same, length-append (name from_lsn) temp_suffix))
      | inr e ↦ e
    ]

    -- What the two lookups of the rename find.
    abbrev renamed_as : File → Option Handle → Option Handle → Result (Unit {0}) × Disk
    renamed_as f old new = elim old [
      | none ↦ (err not_exist, calm (files ++ (f ∷ [])) now)
      | some h ↦ (
        ok tt,
        change h (λ g. record g { linked = some (name from_lsn) })
            (elim new [
              | none ↦ calm (files ++ (f ∷ [])) now
              | some h' ↦ change h' (λ g. record g { linked = none }) (calm (files ++ (f ∷ [])) now)
            ]),
      )
    ]

    rename-calm :
        (f : File)
        → f.linked ≡ some temp
        → rename_file temp (name from_lsn) (calm (files ++ (f ∷ [])) now)
          ≡ (ok tt, calm (files ++ (record f { linked = some (name from_lsn) } ∷ [])) now)
    unfolding rename_file next_fault ◌>>=◌
    rename-calm f e =
        ap (λ o. renamed_as f o (find (name from_lsn) (files ++ (f ∷ []))))
          (find-new temp files f no_temp e)
        ∙ ap (renamed_as f (some (length files)))
            (find-others (name from_lsn) temp files f no_file e temp-apart)
        ∙ ap (λ d. (ok tt, d))
            (change-calm (files ++ (f ∷ [])) now (length files) f
                (λ g. record g { linked = some (name from_lsn) }) (get_elem?-snoc files f)
              ∙ ap (λ fs. calm fs now)
                  (set-snoc files f (record f { linked = some (name from_lsn) })))

    abbrev kept : List Record
    kept = at_or_above from_lsn recs

    abbrev result : Segment
    result = replacement_segment (length files) from_lsn kept

    header-written :
        write_at
          (length files)
          (new_header from_lsn now)
          0
          (calm (files ++ (record { linked = some temp; content = []; synced = 0 } ∷ [])) now)
        ≡ (ok tt, with_draft temp 0 [])
    unfolding frames
    header-written =
        let f : File = record { linked = some temp; content = []; synced = 0 } in
        write_at-calm (files ++ (f ∷ [])) now (length files) (new_header from_lsn now) 0 f
          (get_elem?-snoc files f)
        ∙ ap (λ fs. (ok tt, calm fs now)) (set-snoc files f (written 0 (new_header from_lsn now) f))
        ∙ ap
            (λ c. (
              ok tt,
              calm (files ++ (record { linked = some temp; content = c; synced = 0 } ∷ [])) now,
            ))
            (overwrite-end 0 [] (new_header from_lsn now) refl
              ∙ sym (append-nil (new_header from_lsn now)))

    copied :
        copy_records
          (empty_segment (length files) (name from_lsn) from_lsn)
          from_lsn
          recs
          (with_draft temp 0 [])
        ≡ (ok result, with_draft temp 0 kept)
    unfolding frames
    copied = copy_records-calm temp recs [] (pred_lsn from_lsn) fits

    synced :
        sync result (with_draft temp 0 kept)
        ≡ (ok tt, with_draft temp (length (new_header from_lsn now ++ frames kept)) kept)
    unfolding sync
    synced =
        let f = draft temp 0 kept in
        sync_file-calm (files ++ (f ∷ [])) now (length files) f (get_elem?-snoc files f)
        ∙ ap (λ fs. (ok tt, calm fs now)) (set-snoc files f (synced_file f))

    fill_replacement-calm :
        fill_replacement
          (length files)
          src
          from_lsn
          max_rec
          (calm (files ++ (record { linked = some temp; content = []; synced = 0 } ∷ [])) now)
        ≡ (ok result, calm (files ++ (replacement_file from_lsn now kept ∷ [])) now)
    unfolding fill_replacement gets pure
    fill_replacement-calm =
        let safe = length (new_header from_lsn now ++ frames kept) in
        let d0 : Disk =
          calm (files ++ (record { linked = some temp; content = []; synced = 0 } ∷ [])) now in
        let d : Disk = with_draft temp 0 [] in
        let d' : Disk = with_draft temp 0 kept in
        let d'' : Disk = with_draft temp safe kept in
        let e : Disk = calm (files ++ (replacement_file from_lsn now kept ∷ [])) now in
        bind_run (gets (λ x. x.now)) _ d0 d0 (ok now) refl
        ∙ bind_run (write_at (length files) (new_header from_lsn now) 0) _ d0 d (ok tt)
            header-written
        ∙ bind_run (read_section src.file header_size (src.size - header_size)) _ d d _
            (section-read (draft temp 0 []))
        ∙ rw (scan-frames max_rec recs fits) (
            bind_run
              (copy_records (empty_segment (length files) (name from_lsn) from_lsn) from_lsn recs) _
              d d' (ok result) copied
            ∙ bind_run (pure tt) _ d' d' (ok tt) refl
            ∙ bind_run (sync result) _ d' d'' (ok tt) synced
            ∙ bind_run (rename_file temp (name from_lsn)) _ d'' e (ok tt)
                (rename-calm (draft temp safe kept) refl)
            ∙ bind_run sync_dir _ e e (ok tt)
                (sync_dir-calm (files ++ (replacement_file from_lsn now kept ∷ [])) now))

    -- Of a segment that holds the records, in a directory in which nothing fails and which has neither
    -- the replacement nor a temporary file for it, RewriteFrom succeeds. The directory then has one
    -- file more, under the name of the replacement: the header with the new base and the frames of
    -- exactly the records at or above it, all synced. The segment returned is that file, up to its
    -- end. No other file changes.
    pub rewrite_from-calm : rewrite_from src from_lsn max_rec (calm files now) ≡ (
      ok (replacement_segment (length files) from_lsn (at_or_above from_lsn recs)),
      calm (files ++ (replacement_file from_lsn now (at_or_above from_lsn recs) ∷ [])) now,
    )
    unfolding rewrite_from
    rewrite_from-calm =
        let f : File = record { linked = some temp; content = []; synced = 0 } in
        let d0 : Disk = calm (files ++ (f ∷ [])) now in
        let e : Disk = calm (files ++ (replacement_file from_lsn now kept ∷ [])) now in
        bind_run (remove_if_exists temp) _ (calm files now) (calm files now) (ok tt)
          remove_if_exists-none
        ∙ bind_run (create_file temp) _ (calm files now) d0 (ok (length files))
            (create_file-calm files now temp no_temp)
        ∙ on_error-ok (fill_replacement (length files) src from_lsn max_rec) _ d0 e result
            fill_replacement-calm
