-- ===== src/Wal/Reader/Still.antt =====
-- The steps of a reader in a directory that stays as it is and in which nothing fails.
use go_wallib.Base.{
  ℕ, suc, ◌+◌, ◌<◌, ◌≡◌, refl, ap, ◌∙◌, Bool, true, false, Option, none, some, List, [], ◌∷◌, ◌++◌,
  append_assoc, length, get_elem?, ltb, if◌then◌else◌, inl, inr, ◌⊎◌, drop-append, All,
}
use go_wallib.Errors.{Error, torn}
use go_wallib.Exec.{◌>>=◌}
use go_wallib.Record
use go_wallib.Record.{Record, Scanner, frame, new_scanner}
use go_wallib.Record.Step.{Fits, running, next-frame, next_end, next_torn}
use go_wallib.Record.RoundTrip.{frames}
use go_wallib.Disk.{
  Disk, File, Handle, find, content_of, open_file, seek_file, read_rest, close_file, next_fault,
}
use go_wallib.Segment.Header.{header_size}
use go_wallib.Wal.{succ_lsn}
use go_wallib.Wal.Reader.{
  Entry, Reader, file_op, close_current, finish, accept, start, start_scanner, use_opened, try_open,
  or_else, open_at, open_next, give, stop, scan_on, scan_with, scan_open, ensure_open, next_unless,
  next,
}

-- A segment file: its header, the frames of its records, and bytes that no record stands in.
pub record Stored : Type 0 where
  pub seg_name : List ℕ
  pub handle : Handle
  pub header : List ℕ
  pub recs : List Record
  pub tail : List ℕ

-- A scan stops there, at the end of the file or at a torn record.
pub record Stops (max_rec : ℕ) (tail : List ℕ) : Type 0 where
  pub no_more :
      (cur : Record) (valid : ℕ) → (Record.next (running tail false cur max_rec valid)).0 ≡ false
  pub quiet :
      (cur : Record) (valid : ℕ)
      → ((Record.next (running tail false cur max_rec valid)).1.first_err ≡ none)
        ⊎ ((Record.next (running tail false cur max_rec valid)).1.first_err ≡ some torn)

pub Stops-nil : (max_rec : ℕ) → Stops max_rec []
Stops-nil max_rec = record {
  no_more = λ cur valid. ap (λ o. o.0) (next_end cur max_rec valid);
  quiet = λ cur valid. inl (ap (λ o. o.1.first_err) (next_end cur max_rec valid));
}

pub Stops-torn :
    (max_rec : ℕ) (r : Record) (front back : List ℕ)
    → Fits max_rec r
    → frame r.lsn r.payload ≡ front ++ back
    → 0 < length front
    → 0 < length back
    → Stops max_rec front
Stops-torn max_rec r front back fits e lo hi = record {
  no_more = λ cur valid. ap (λ o. o.0) (next_torn r cur front back max_rec valid fits e lo hi);
  quiet = λ cur valid.
      inr (ap (λ o. o.1.first_err) (next_torn r cur front back max_rec valid fits e lo hi));
}

-- The file stands in the directory, and its records fit.
pub record Stands (d : Disk) (max_rec : ℕ) (s : Stored) : Type 0 where
  pub found : find s.seg_name d.files ≡ some s.handle
  pub content : content_of s.handle d ≡ s.header ++ (frames s.recs ++ s.tail)
  pub header_length : length s.header ≡ header_size
  pub fits : All (Fits max_rec) s.recs
  pub stops : Stops max_rec s.tail

abbrev pub entry_of : Record → Entry
entry_of r = record { payload = r.payload; lsn = r.lsn }

-- The records of the window, from `from_lsn` on, up to the first one above its end.
unfoldable pub window : ℕ → ℕ → List Record → List Entry
window from_lsn end_lsn [] = []
window from_lsn end_lsn (r ∷ rs) =
    let below = window from_lsn end_lsn rs in
    let inside = entry_of r ∷ window (succ_lsn r.lsn) end_lsn rs in
    if ltb r.lsn from_lsn then below else if ltb end_lsn r.lsn then [] else inside

abbrev pub records_of : List Stored → List Record
records_of [] = []
records_of (s ∷ segs) = s.recs ++ records_of segs

-- Enough rounds of `Next` for these segments.
abbrev pub weight : List Stored → ℕ
weight [] = 1
weight (s ∷ segs) = length s.recs + 2 + weight segs

-- A directory in which nothing fails.
abbrev pub calm : List File → ℕ → Disk
calm files now = record { files = files; faults = []; now = now }

module _ (files : List File) (now : ℕ) (names : List (List ℕ)) (end_lsn max_rec : ℕ) where
  abbrev pub still : Option Handle → Option Scanner → Entry → ℕ → ℕ → Bool → Reader
  still file scanner current index from_lsn done = record {
    shared = record { disk = calm files now; others = [] };
    file = file;
    scanner = scanner;
    failure = none;
    segment_names = names;
    current = current;
    index = index;
    from_lsn = from_lsn;
    end_lsn = end_lsn;
    max_record = max_rec;
    done = done;
  }

  -- Between segments.
  abbrev pub between_segments : Entry → ℕ → ℕ → Reader
  between_segments current index from_lsn = still none none current index from_lsn false

  -- In a segment, before these records.
  abbrev pub before : Handle → List Record → List ℕ → Record → ℕ → Entry → ℕ → ℕ → Reader
  before h rs tail cur valid current index from_lsn =
      still (some h) (some (running (frames rs ++ tail) false cur max_rec valid)) current index
        from_lsn false

  -- At the end.
  abbrev pub over : Entry → ℕ → ℕ → Reader
  over current index from_lsn = still none none current index from_lsn true

  abbrev pub fresh_record : Record
  fresh_record = record { lsn = 0; payload = [] }

  try_open-before :
      (s : Stored) (current : Entry) (index from_lsn : ℕ)
      → Stands (calm files now) max_rec s
      → try_open s.seg_name (between_segments current index from_lsn)
        ≡ (some true, before s.handle s.recs s.tail fresh_record 0 current (suc index) from_lsn)
  unfolding try_open file_op open_file ◌>>=◌ next_fault use_opened start start_scanner seek_file
      read_rest new_scanner find frames
  try_open-before s current index from_lsn st =
      rw
        (
          st.found,
          st.content,
          drop-append header_size s.header (frames s.recs ++ s.tail) st.header_length,
        )
        refl

  open_next-before :
      (fuel : ℕ) (s : Stored) (current : Entry) (index from_lsn : ℕ)
      → Stands (calm files now) max_rec s
      → get_elem? names index ≡ some s.seg_name
      → open_next (suc fuel) (between_segments current index from_lsn)
        ≡ (some true, before s.handle s.recs s.tail fresh_record 0 current (suc index) from_lsn)
  unfolding open_next open_at or_else
  open_next-before fuel s current index from_lsn st e =
      rw (e, open_at) (rw (try_open-before s current index from_lsn st) refl)

  open_next-over :
      (fuel : ℕ) (current : Entry) (index from_lsn : ℕ)
      → get_elem? names index ≡ none
      → open_next (suc fuel) (between_segments current index from_lsn)
        ≡ (some false, over current index from_lsn)
  unfolding open_next open_at finish close_current
  open_next-over fuel current index from_lsn e = rw (e, open_at) refl

  scan-record :
      (again : Reader → Option Bool × Reader) (h : Handle) (r : Record) (rs : List Record)
      (tail : List ℕ) (cur : Record) (valid : ℕ) (current : Entry) (index from_lsn : ℕ)
      → Fits max_rec r
      → scan_with again
          (some (running (frames (r ∷ rs) ++ tail) false cur max_rec valid))
          (before h (r ∷ rs) tail cur valid current index from_lsn)
        ≡ give again
            (accept r (before h rs tail r (valid + 16 + length r.payload) current index from_lsn))
  unfolding scan_with scan_on frames
  scan-record again h r rs tail cur valid current index from_lsn fits =
      rw
        (
          append_assoc (frame r.lsn r.payload) (frames rs) tail,
          next-frame r cur (frames rs ++ tail) false max_rec valid fits,
        )
        refl

  pub next-record :
      (fuel : ℕ) (h : Handle) (r : Record) (rs : List Record) (tail : List ℕ) (cur : Record)
      (valid : ℕ) (current : Entry) (index from_lsn : ℕ)
      → Fits max_rec r
      → next (suc fuel) (before h (r ∷ rs) tail cur valid current index from_lsn)
        ≡ give
            (next fuel)
            (accept r (before h rs tail r (valid + 16 + length r.payload) current index from_lsn))
  unfolding next next_unless ensure_open scan_open
  next-record fuel h r rs tail cur valid current index from_lsn fits =
      scan-record (next fuel) h r rs tail cur valid current index from_lsn fits

  stopped :
      (again : Reader → Option Bool × Reader) (h : Handle) (s : Scanner) (o : Option Error)
      (current : Entry) (index from_lsn : ℕ)
      → (o ≡ none) ⊎ (o ≡ some torn)
      → stop again o (still (some h) (some s) current index from_lsn false)
        ≡ again (between_segments current index from_lsn)
  unfolding stop close_current file_op close_file ◌>>=◌ next_fault
  stopped again h s none current index from_lsn q = refl
  stopped again h s (some torn) current index from_lsn q = refl
  stopped again h s (some x) current index from_lsn (inl e) = cc e
  stopped again h s (some x) current index from_lsn (inr e) = cc e

  scan_on-false :
      (again : Reader → Option Bool × Reader) (b : Bool) (s : Scanner) (r : Reader)
      → b ≡ false
      → scan_on again (b, s) r ≡ stop again s.first_err (record r { scanner = some s })
  unfolding scan_on
  scan_on-false again true s r e = cc e
  scan_on-false again false s r e = refl

  pub next-tail :
      (fuel : ℕ) (h : Handle) (tail : List ℕ) (cur : Record) (valid : ℕ) (current : Entry)
      (index from_lsn : ℕ)
      → Stops max_rec tail
      → next (suc fuel) (before h [] tail cur valid current index from_lsn)
        ≡ next fuel (between_segments current index from_lsn)
  unfolding next next_unless ensure_open scan_open scan_with frames
  next-tail fuel h tail cur valid current index from_lsn st =
      scan_on-false (next fuel) _ _ (before h [] tail cur valid current index from_lsn)
        (st.no_more cur valid)
      ∙ stopped (next fuel) h _ _ current index from_lsn (st.quiet cur valid)

  pub next-between :
      (fuel : ℕ) (s : Stored) (current : Entry) (index from_lsn : ℕ)
      → Stands (calm files now) max_rec s
      → get_elem? names index ≡ some s.seg_name
      → next (suc (suc fuel)) (between_segments current index from_lsn)
        ≡ next
            (suc (suc fuel))
            (before s.handle s.recs s.tail fresh_record 0 current (suc index) from_lsn)
  unfolding next next_unless ensure_open scan_open
  next-between fuel s current index from_lsn st e =
      rw (open_next-before fuel s current index from_lsn st e) refl

  pub next-over :
      (fuel : ℕ) (current : Entry) (index from_lsn : ℕ)
      → get_elem? names index ≡ none
      → next (suc (suc fuel)) (between_segments current index from_lsn)
        ≡ (some false, over current index from_lsn)
  unfolding next next_unless ensure_open scan_open
  next-over fuel current index from_lsn e = rw (open_next-over fuel current index from_lsn e) refl

  pub next-done :
      (fuel : ℕ) (current : Entry) (index from_lsn : ℕ)
      → next (suc fuel) (over current index from_lsn) ≡ (some false, over current index from_lsn)
  unfolding next next_unless
  next-done fuel current index from_lsn = refl
