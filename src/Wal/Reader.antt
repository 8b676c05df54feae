-- ===== src/Wal/Reader.antt =====
-- pkg/wal/reader.go: the cursor over committed records. It reads the segment files while the writer
-- goroutine goes on: before each file operation of the reader, other goroutines may change the files.
pub mod Window
pub mod Still
pub mod Exact
pub mod Complete
mod Tests
use go_wallib.Base.{
  ℕ, zero, suc, ◌+◌, Bool, true, false, Option, none, some, List, [], ◌∷◌, drop, get_elem?, ltb,
  ◌==◌, ◌||◌, if◌then◌else◌,
}
use mathlib.Core.List.{map}
use go_wallib.Errors.{Error, closed, torn, not_exist, wal_corrupt, Result, ok, err}
use go_wallib.Exec.{Exec, pure, ◌>>=◌, ◌>>◌, discard, on_error}
use go_wallib.Record
use go_wallib.Record.{Record, Scanner, Source, new_scanner}
use go_wallib.Disk.{Disk, Handle, open_file, seek_file, read_rest, close_file}
use go_wallib.Segment.Header.{header_size}
use go_wallib.Segment.Name.{name, parse_base_lsn}
use go_wallib.Segment.Dir.{list_segments}
use go_wallib.Wal.{Wal, succ_lsn}

pub record Entry : Type 0 where
  pub payload : List ℕ
  pub lsn : ℕ

-- The directory, and what others do to it before each of the file operations to come.
pub record Shared : Type 0 where
  pub disk : Disk
  pub others : List (Disk → Disk)

pub record Reader : Type 0 where
  pub shared : Shared
  pub file : Option Handle
  pub scanner : Option Scanner
  pub failure : Option Error
  pub segment_names : List (List ℕ)
  pub current : Entry
  pub index : ℕ
  pub from_lsn : ℕ
  pub end_lsn : ℕ
  pub max_record : ℕ
  pub done : Bool

abbrev disturbed : Shared → Shared
disturbed s = elim s.others [ [] ↦ s | f ∷ fs ↦ record { disk = f s.disk; others = fs } ]

-- A file operation of the reader.
unfoldable pub file_op : {A : Type 0} → Exec Disk A → Reader → Result A × Reader
file_op m r =
    let (res, d) = m (disturbed r.shared).disk in
    (res, record r { shared = record (disturbed r.shared) { disk = d } })

-- The names of the segments, the last committed LSN and the first one.
unfoldable pub reader_snapshot : Wal → List (List ℕ) × ℕ × ℕ
reader_snapshot w = (map name w.segment_bases, w.last_lsn, w.first_lsn)

unfoldable pub new_reader_from : Shared → List (List ℕ) → ℕ → ℕ → ℕ → Reader
new_reader_from shared segment_names from_lsn end_lsn max_record = record {
  shared = shared;
  file = none;
  scanner = none;
  failure = none;
  segment_names = segment_names;
  current = record { payload = []; lsn = 0 };
  index = 0;
  from_lsn = from_lsn;
  end_lsn = end_lsn;
  max_record = max_record;
  done = end_lsn == 0 || ltb end_lsn from_lsn;
}

unfoldable pub new_reader : Wal → List (Disk → Disk) → ℕ → Result Reader
unfolding new_reader_from reader_snapshot
new_reader w others from_lsn =
    if w.is_closed
    then err closed
    else (let (names, end_lsn, _) = reader_snapshot w in
        ok (
          new_reader_from (record { disk = w.disk; others = others }) names from_lsn end_lsn
            w.opts.max_record_size))

unfoldable pub close_current : Reader → Reader
close_current r = elim r.file [
  | none ↦ record r { scanner = none }
  | some h ↦ record ((file_op (close_file h) r).1) { file = none; scanner = none }
]

unfoldable pub finish : Reader → Reader
finish r = record (close_current r) { done = true }

unfoldable pub fail : Error → Reader → Reader
fail e r = finish (record r { failure = some e })

-- A record below the window is passed over, one above it ends the cursor, and one in it moves the
-- lower bound behind itself.
unfoldable pub accept : Record → Reader → Option Entry × Reader
accept scanned r =
    if ltb scanned.lsn r.from_lsn
    then (none, r)
    else if ltb r.end_lsn scanned.lsn
    then (none, finish r)
    else (
      some (record { payload = scanned.payload; lsn = scanned.lsn }),
      record r { from_lsn = succ_lsn scanned.lsn },
    )

-- 0 stands for a name that is no segment's.
abbrev base_of : List ℕ → ℕ
base_of s = elim (parse_base_lsn s) [ none ↦ 0 | some base ↦ base ]

unfoldable pub above : ℕ → List (List ℕ) → List (List ℕ)
above missing_base [] = []
above missing_base (path ∷ paths) =
    if ltb missing_base (base_of path)
    then path ∷ above missing_base paths
    else above missing_base paths

unfoldable pub relisted : List ℕ → Result (List (List ℕ)) × Reader → Result (Unit {0}) × Reader
unfolding above
relisted missing (err e, r) = (err e, r)
relisted missing (ok paths, r) =
    (ok tt, record r { segment_names = above (base_of missing) paths; index = 0 })

unfoldable pub relist_after : List ℕ → Reader → Result (Unit {0}) × Reader
unfolding relisted
relist_after missing r = relisted missing (file_op list_segments r)

-- The bytes are those of the file when it is opened. What the source reads later may have grown by
-- records above `end_lsn`.
unfoldable pub start_scanner : Handle → Reader → Reader
start_scanner h r =
    let (src, d) = read_rest h header_size r.shared.disk in
    record r {
      shared = record (r.shared) { disk = d };
      file = some h;
      scanner = some (new_scanner src r.max_record);
    }

-- After the listing, and after the seek, of one round of the loop of `openNext`; `none` goes on to the
-- next round.
unfoldable pub go_on : Result (Unit {0}) × Reader → Option Bool × Reader
go_on (err e, r) = (some false, fail e r)
go_on (ok _, r) = (none, r)

unfoldable pub start : Handle → Result (Unit {0}) × Reader → Option Bool × Reader
unfolding start_scanner
start h (err e, r) = (some false, fail e (file_op (close_file h) r).1)
start h (ok _, r) = (some true, start_scanner h r)

unfoldable pub use_opened : List ℕ → Result Handle → Reader → Option Bool × Reader
unfolding relist_after start go_on
use_opened file_name (err not_exist) r = go_on (relist_after file_name r)
use_opened file_name (err e) r = (some false, fail e r)
use_opened file_name (ok h) r = start h (file_op (seek_file h) r)

unfoldable pub try_open : List ℕ → Reader → Option Bool × Reader
unfolding use_opened
try_open file_name r =
    let (res, r') = file_op (open_file file_name) (record r { index = suc r.index }) in
    use_opened file_name res r'

-- The round, and the rounds after it.
unfoldable pub or_else :
    (Reader → Option Bool × Reader) → Option Bool × Reader → Option Bool × Reader
or_else again (none, r) = again r
or_else again (some b, r) = (some b, r)

unfoldable pub open_at :
    (Reader → Option Bool × Reader) → Option (List ℕ) → Reader → Option Bool × Reader
unfolding or_else try_open
open_at again none r = (some false, finish r)
open_at again (some file_name) r = or_else again (try_open file_name r)

-- `openNext`: whether a segment is open now; `none` when the fuel is used up.
unfoldable pub open_next : ℕ → Reader → Option Bool × Reader
unfolding open_at
open_next zero r = (none, r)
open_next (suc fuel) r = open_at (open_next fuel) (get_elem? r.segment_names r.index) r

-- What `Next` does at a record, with the next round of its loop.
unfoldable pub give : (Reader → Option Bool × Reader) → Option Entry × Reader → Option Bool × Reader
give again (some entry, r) = (some true, record r { current = entry })
give again (none, r) = again r

-- What it does where the scanner stops.
unfoldable pub stop : (Reader → Option Bool × Reader) → Option Error → Reader → Option Bool × Reader
stop again none r = again (close_current r)
stop again (some torn) r = again (close_current r)
stop again (some e) r = (some false, fail wal_corrupt r)

unfoldable pub scan_on :
    (Reader → Option Bool × Reader) → Bool × Scanner → Reader → Option Bool × Reader
unfolding give stop
scan_on again (true, s) r = give again (accept s.current (record r { scanner = some s }))
scan_on again (false, s) r = stop again s.first_err (record r { scanner = some s })

-- With a segment open, or none left.
unfoldable pub scan_with :
    (Reader → Option Bool × Reader) → Option Scanner → Reader → Option Bool × Reader
unfolding scan_on
scan_with again none r = (none, r)
scan_with again (some s) r = scan_on again (Record.next s) r

unfoldable pub scan_open :
    (Reader → Option Bool × Reader) → Option Bool × Reader → Option Bool × Reader
unfolding scan_with
scan_open again (none, r) = (none, r)
scan_open again (some false, r) = (some false, r)
scan_open again (some true, r) = scan_with again r.scanner r

unfoldable pub ensure_open : ℕ → Option Scanner → Reader → Option Bool × Reader
unfolding open_next
ensure_open fuel none r = open_next fuel r
ensure_open fuel (some _) r = (some true, r)

unfoldable pub next_unless :
    Bool → (Reader → Option Bool × Reader) → ℕ → Reader → Option Bool × Reader
unfolding scan_open ensure_open
next_unless true again fuel r = (some false, r)
next_unless false again fuel r = scan_open again (ensure_open fuel r.scanner r)

-- `Next`: whether there is an entry; `none` when the fuel is used up.
unfoldable pub next : ℕ → Reader → Option Bool × Reader
unfolding next_unless
next zero r = (none, r)
next (suc fuel) r = next_unless r.done (next fuel) fuel r

-- `for reader.Next()` for at most n rounds: the entries in order, whether the loop came to its end, and
-- the reader then.
unfoldable pub collect :
    (Reader → List Entry × Bool × Reader) → Option Bool × Reader → List Entry × Bool × Reader
collect again (none, r) = ([], false, r)
collect again (some false, r) = ([], true, r)
collect again (some true, r) = let (es, ended, r') = again r in (r.current ∷ es, ended, r')

unfoldable pub entries : ℕ → ℕ → Reader → List Entry × Bool × Reader
unfolding next collect
entries fuel zero r = ([], false, r)
entries fuel (suc n) r = collect (entries fuel n) (next fuel r)
