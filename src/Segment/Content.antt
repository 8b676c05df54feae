-- ===== src/Segment/Content.antt =====
-- What a segment file holds: a header, the frames of its records, and what a failed write left
-- behind them.
use go_wallib.Base.{
  ℕ, zero, suc, ◌+◌, ◌-◌, min, ◌≡◌, refl, sym, ap, ◌∙◌, false, none, some, List, [], ◌∷◌, ◌++◌,
  append_assoc, append-nil, arith, length, take, drop, set, get_elem?, length-append, take-append,
  drop-append, drop-drop, All, inl, inr, ◌⊎◌,
}
use go_wallib.Errors.{io_failure, Result, ok, err}
use native.Mathlib.Nat.{add-zero}
use go_wallib.Exec.{◌>>=◌, continue, pure, lift, bind_run}
use go_wallib.Record.{Record, frame, encode}
use go_wallib.Record.Step.{Fits, running}
use go_wallib.Record.RoundTrip.{frames, encode-frame, scan-frames, last_of, no_record}
use go_wallib.Disk.{
  Disk, File, Fault, works, fails, Handle, next_fault, change, overwrite, write_bytes, write_at,
  read_section, content_of, file_content,
}
use go_wallib.Segment.Header.{header_size}
use go_wallib.Segment.Files.{
  Segment, ScanResult, append, scan_segment, scan_result, after_scan, tally,
}

pub record Holds (seg : Segment) (rs : List Record) (d : Disk) : Type 0 where
  pub file : File
  pub header : List ℕ
  pub tail : List ℕ
  pub present : get_elem? d.files seg.file ≡ some file
  pub layout : file.content ≡ header ++ (frames rs ++ tail)
  pub header_length : length header ≡ header_size
  pub size : seg.size ≡ header_size + length (frames rs)

-- Bytes written right behind a front keep the front.
pub overwrite-append :
    (front tail bytes : List ℕ) (off : ℕ)
    → length front ≡ off
    → overwrite off bytes (front ++ tail) ≡ front ++ (bytes ++ drop (length bytes) tail)
unfolding overwrite
overwrite-append front tail bytes off e =
    let no_gap : off - length (front ++ tail) ≡ 0 = omega (arith, length-append front tail) in
    rw (
      no_gap,
      append-nil (front ++ tail),
      take-append off front tail e,
      sym (drop-drop off (length bytes) (off + length bytes) (front ++ tail) refl),
      drop-append off front tail e,
    )

get_elem?-set_self :
    (fs : List File) (h : Handle) (f g : File)
    → get_elem? fs h ≡ some f
    → get_elem? (set fs h g) h ≡ some g
get_elem?-set_self [] h f g e = cc e
get_elem?-set_self (x ∷ fs) zero f g e = refl
get_elem?-set_self (x ∷ fs) (suc h) f g e = get_elem?-set_self fs h f g e

files-change :
    (h : Handle) (f : File) (g : File → File) (d : Disk)
    → get_elem? d.files h ≡ some f
    → get_elem? (change h g d).files h ≡ some (g f)
unfolding change
files-change h f g d e = rw (e, change) (get_elem?-set_self d.files h f (g f) e)

-- A write at the end of the segment, whole or cut short, puts its bytes in the tail.
write_bytes-Holds :
    (seg : Segment) (rs : List Record) (d : Disk) (bytes : List ℕ) (h : Holds seg rs d)
    → (f : File) × (get_elem? (write_bytes seg.file bytes seg.size d).files seg.file ≡ some f)
      × (f.content ≡ h.header ++ (frames rs ++ (bytes ++ drop (length bytes) h.tail)))
write_bytes-Holds seg rs d bytes h = (
  record (h.file) {
    content = overwrite seg.size bytes h.file.content;
    synced = min h.file.synced seg.size;
  },
  files-change seg.file h.file _ d h.present,
  rw
      (
        h.layout,
        sym (append_assoc h.header (frames rs) h.tail),
        overwrite-append (h.header ++ frames rs) h.tail bytes seg.size
            (omega (arith, length-append h.header (frames rs), h.header_length, h.size)),
      )
      (append_assoc h.header (frames rs) (bytes ++ drop (length bytes) h.tail)),
)

partial-Holds :
    (seg : Segment) (rs : List Record) (d : Disk) (bytes : List ℕ)
    → Holds seg rs d
    → Holds seg rs (write_bytes seg.file bytes seg.size d)
partial-Holds seg rs d bytes h =
    let (f, found, content) = write_bytes-Holds seg rs d bytes h in
    record {
      file = f;
      header = h.header;
      tail = bytes ++ drop (length bytes) h.tail;
      present = found;
      layout = content;
      header_length = h.header_length;
      size = h.size;
    }

pub frames-append : (rs qs : List Record) → frames (rs ++ qs) ≡ frames rs ++ frames qs
unfolding frames
frames-append [] qs = refl
frames-append (r ∷ rs) qs =
    ap (λ l. frame r.lsn r.payload ++ l) (frames-append rs qs)
    ∙ sym (append_assoc (frame r.lsn r.payload) (frames rs) (frames qs))

pub frames-one : (r : Record) → frames (r ∷ []) ≡ frame r.lsn r.payload
unfolding frames
frames-one r = append-nil _

abbrev pub grown : Segment → Record → Segment
grown seg r = record seg { size = seg.size + length (frame r.lsn r.payload); last_lsn = r.lsn }

whole-Holds :
    (seg : Segment) (rs : List Record) (d : Disk) (r : Record)
    → Holds seg rs d
    → Holds (grown seg r) (rs ++ (r ∷ [])) (write_bytes seg.file (frame r.lsn r.payload) seg.size d)
whole-Holds seg rs d r h =
    let (f, found, content) = write_bytes-Holds seg rs d (frame r.lsn r.payload) h in
    let more : frames (rs ++ (r ∷ [])) ≡ frames rs ++ frame r.lsn r.payload =
      frames-append rs (r ∷ []) ∙ ap (λ l. frames rs ++ l) (frames-one r) in
    record {
      file = f;
      header = h.header;
      tail = drop (length (frame r.lsn r.payload)) h.tail;
      present = found;
      layout =
          content
          ∙ ap (λ l. h.header ++ l)
              (sym (append_assoc (frames rs) (frame r.lsn r.payload) _)
                ∙ ap (λ l. l ++ drop (length (frame r.lsn r.payload)) h.tail) (sym more));
      header_length = h.header_length;
      size =
          omega (arith, h.size, ap length more, length-append (frames rs) (frame r.lsn r.payload));
    }

-- How an append may end.
abbrev pub AppendOutcome : Segment → List Record → Record → Result (ℕ × Segment) × Disk → Type 0
AppendOutcome seg rs r (result, d) =
    ((result ≡ ok (length (frame r.lsn r.payload), grown seg r))
      × Holds (grown seg r) (rs ++ (r ∷ [])) d)
    ⊎ ((result ≡ err io_failure) × Holds seg rs d)

-- How a write may end: whole, or with a front of the bytes stored.
record Stored (h : Handle) (bytes : List ℕ) (off : ℕ) (d d' : Disk) : Type 0 where
  files : d'.files ≡ d.files
  outcome :
      (write_at h bytes off d ≡ (ok tt, write_bytes h bytes off d'))
      ⊎ ((n : ℕ) × (write_at h bytes off d ≡ (err io_failure, write_bytes h (take n bytes) off d')))

write_at-Stored :
    (h : Handle) (bytes : List ℕ) (off : ℕ) (d : Disk) → (d' : Disk) × Stored h bytes off d d'
unfolding write_at next_fault ◌>>=◌
write_at-Stored h bytes off d = go d.faults
  where
    go : (faults : List Fault) → (d' : Disk) × Stored h bytes off (record d { faults = faults }) d'
    go [] = (record d { faults = [] }, record { files = refl; outcome = inl refl })
    go (works ∷ fs) = (record d { faults = fs }, record { files = refl; outcome = inl refl })
    go (fails n ∷ fs) = (record d { faults = fs }, record { files = refl; outcome = inr (n, refl) })

Holds-files :
    (seg : Segment) (rs : List Record) (d d' : Disk)
    → d'.files ≡ d.files
    → Holds seg rs d
    → Holds seg rs d'
Holds-files seg rs d d' e h = record {
  file = h.file;
  header = h.header;
  tail = h.tail;
  present = ap (λ (fs : List File). get_elem? fs seg.file) e ∙ h.present;
  layout = h.layout;
  header_length = h.header_length;
  size = h.size;
}

pub append_step :
    (seg : Segment) (lsn : ℕ) (payload bytes : List ℕ) (d d' : Disk) (r : Result (Unit {0}))
    → encode [] lsn payload ≡ ok bytes
    → write_at seg.file bytes seg.size d ≡ (r, d')
    → append seg lsn payload d
      ≡ continue r
          (λ _. pure (length bytes, record seg { size = seg.size + length bytes; last_lsn = lsn }))
          d'
unfolding append
append_step seg lsn payload bytes d d' r e w =
    bind_run (lift (encode [] lsn payload)) _ d d (ok bytes) (unfold lift in ap (λ x. (x, d)) e)
    ∙ bind_run (write_at seg.file bytes seg.size) _ d d' r w

-- With any failures of the file system, an append of a record that fits either succeeds, and the
-- segment holds the record behind its others, or reports the failure, and the segment holds what it
-- held: what a failed write leaves behind is not among its records.
pub append-Holds :
    (seg : Segment) (rs : List Record) (r : Record) (max_rec : ℕ) (d : Disk)
    → Holds seg rs d
    → Fits max_rec r
    → AppendOutcome seg rs r (append seg r.lsn r.payload d)
append-Holds seg rs r max_rec d h fit =
    let encoded = encode-frame [] max_rec r fit in
    let (d', stored) = write_at-Stored seg.file (frame r.lsn r.payload) seg.size d in
    elim stored.outcome [
      | inl written ↦ rw (append_step seg r.lsn r.payload _ d _ _ encoded written) (
          unfold pure in
          inl (refl, whole-Holds seg rs d' r (Holds-files seg rs d d' stored.files h)))
      | inr (n, written) ↦
          rw (append_step seg r.lsn r.payload _ d _ _ encoded written)
            (inr (refl, partial-Holds seg rs d' _ (Holds-files seg rs d d' stored.files h)))
    ]

pub read_section_works :
    (h off len : ℕ) (d : Disk)
    → d.faults ≡ []
    → read_section h off len d
      ≡ (ok (record { bytes = take len (drop off (content_of h d)); broken = false }), d)
unfolding read_section next_fault ◌>>=◌
read_section_works h off len d = go d.faults
  where
    go :
        (fs : List Fault)
        → fs ≡ []
        → read_section h off len (record d { faults = fs }) ≡ (
          ok (record { bytes = take len (drop off (content_of h d)); broken = false }),
          record d { faults = fs },
        )
    go [] e = refl
    go (f ∷ fs) e = cc e

-- The LSN of the last record, and `last` if there is none.
abbrev pub last_lsn : ℕ → List Record → ℕ
last_lsn last [] = last
last_lsn last (r ∷ rs) = last_lsn r.lsn rs

pub tally_lem :
    (records last : ℕ) (rs : List Record)
    → tally records last rs ≡ (records + length rs, last_lsn last rs)
unfolding tally
tally_lem records last [] = rw add-zero
tally_lem records last (r ∷ rs) =
    tally_lem (records + 1) r.lsn rs ∙ ap (λ (n : ℕ). (n, last_lsn r.lsn rs)) (omega arith)

pub section_of_Holds :
    (seg : Segment) (rs : List Record) (d : Disk)
    → Holds seg rs d
    → take (seg.size - header_size) (drop header_size (content_of seg.file d)) ≡ frames rs
section_of_Holds seg rs d h =
    let there : content_of seg.file d ≡ h.header ++ (frames rs ++ h.tail) =
      ap file_content h.present ∙ h.layout in
    rw (there, drop-append header_size h.header (frames rs ++ h.tail) h.header_length)
      (take-append (seg.size - header_size) (frames rs) h.tail (omega (arith, h.size)))

-- What a scan reports of a segment that holds the records: their number, the last LSN (0 if there is
-- none), and the end of the segment as the end of what is valid.
abbrev pub full_scan : Segment → List Record → ScanResult
full_scan seg rs = record {
  scan_err = none;
  records = length rs;
  scan_last = last_lsn 0 rs;
  valid_end = seg.size;
}

scan_result-frames :
    (seg : Segment) (rs : List Record) (cur : Record) (max_rec : ℕ)
    → seg.size ≡ header_size + length (frames rs)
    → scan_result (rs, running [] false cur max_rec (length (frames rs))) ≡ full_scan seg rs
scan_result-frames seg rs cur max_rec e =
    rw (tally_lem 0 0 rs, e)
      (ap
        (λ (n : ℕ). record {
          scan_err = none;
          records = n;
          scan_last = last_lsn 0 rs;
          valid_end = header_size + length (frames rs);
        })
        (omega arith))

-- A scan of a segment reports exactly the records that it holds, whatever a failed write has left in
-- the file behind them. No file operation fails here.
pub scan-Holds :
    (seg : Segment) (rs : List Record) (max_rec : ℕ) (d : Disk)
    → Holds seg rs d
    → All (Fits max_rec) rs
    → d.faults ≡ []
    → scan_segment seg max_rec d ≡ (ok (full_scan seg rs, after_scan seg (full_scan seg rs)), d)
unfolding scan_segment
scan-Holds seg rs max_rec d h fits e =
    bind_run (read_section seg.file header_size (seg.size - header_size)) _ d d _
      (read_section_works seg.file header_size (seg.size - header_size) d e)
    ∙ unfold pure in
      ap (λ res. (ok (res, after_scan seg res), d))
        (rw (section_of_Holds seg rs d h, scan-frames max_rec rs fits)
          (scan_result-frames seg rs (last_of no_record rs) max_rec h.size))
