-- ===== src/Segment/Files.antt =====
-- internal/segment/segment.go: one segment file, open.
use go_wallib.Base.{
  ℕ, ◌+◌, ◌-◌, ◌%◌, ◌^◌, not, Option, none, some, List, [], ◌∷◌, ◌++◌, length, ltb, ◌==◌,
  if◌then◌else◌,
}
use go_wallib.Errors.{Error, not_exist, segment_corrupt, Result, ok, err}
use go_wallib.Exec.{Exec, pure, raise, gets, lift, discard, on_error, ◌>>=◌, ◌>>◌}
use go_wallib.Record.{Record, Scanner, encode, new_scanner, read_full, scan}
use go_wallib.Disk.{
  Disk, Handle, create_file, open_file, write_at, sync_file, truncate_file, stat_size, close_file,
  read_section, remove_file, rename_file, sync_dir,
}
use go_wallib.Segment.Header.{Header, header_size, version, encode_header, decode_header}
use go_wallib.Segment.Name.{name, temp_suffix}

pub record Segment : Type 0 where
  pub file : Handle
  pub seg_name : List ℕ
  pub base_lsn : ℕ
  pub size : ℕ
  pub last_lsn : ℕ

pub record ScanResult : Type 0 where
  pub scan_err : Option Error
  pub records : ℕ
  pub scan_last : ℕ
  pub valid_end : ℕ

-- `lsn - 1` on uint64.
abbrev pub pred_lsn : ℕ → ℕ
pred_lsn lsn = (lsn + 2 ^ 64 - 1) % 2 ^ 64

abbrev pub empty_segment : Handle → List ℕ → ℕ → Segment
empty_segment file seg_name base_lsn = record {
  file = file;
  seg_name = seg_name;
  base_lsn = base_lsn;
  size = header_size;
  last_lsn = pred_lsn base_lsn;
}

-- The header of a new segment, stamped with the clock.
unfoldable pub new_header : ℕ → ℕ → List ℕ
new_header base_lsn now =
    encode_header
      (record { version_field = version; flags = 0; base_lsn = base_lsn; created_at = now })

unfoldable pub create : ℕ → Exec Disk Segment
create base_lsn = do
  file ← create_file (name base_lsn)
  on_error
      (do
        now ← gets (λ d. d.now)
        write_at file (new_header base_lsn now) 0
        sync_file file
        sync_dir)
      (discard (close_file file))
  pure (empty_segment file (name base_lsn) base_lsn)

-- Any failure to read the header is a corrupt segment.
abbrev pub header_bytes : Result (List ℕ) → Result (List ℕ)
header_bytes (ok bytes) = ok bytes
header_bytes (err e) = err segment_corrupt

abbrev pub check_base : ℕ → Header → Exec Disk Unit
check_base base_lsn header =
    if not (header.base_lsn == base_lsn) then raise segment_corrupt else pure tt

unfoldable pub open_segment : ℕ → Exec Disk Segment
open_segment base_lsn = do
  file ← open_file (name base_lsn)
  size ←
      on_error
        (do
          source ← read_section file 0 header_size
          bytes ← lift (header_bytes (read_full header_size source).0)
          header ← lift (decode_header bytes)
          check_base base_lsn header
          stat_size file)
        (discard (close_file file))
  pure (record (empty_segment file (name base_lsn) base_lsn) { size = size })

-- The number of bytes written, and the segment after it. An error leaves the segment as it was.
unfoldable pub append : Segment → ℕ → List ℕ → Exec Disk (ℕ × Segment)
append seg lsn payload = do
  encoded ← lift (encode [] lsn payload)
  write_at seg.file encoded seg.size
  pure (length encoded, record seg { size = seg.size + length encoded; last_lsn = lsn })

unfoldable pub sync : Segment → Exec Disk Unit
sync seg = sync_file seg.file

unfoldable pub close : Segment → Exec Disk Unit
close seg = close_file seg.file

-- The loop of `Scan`: a count, and the LSN of the last record (0 if none).
unfoldable pub tally : ℕ → ℕ → List Record → ℕ × ℕ
tally records last [] = (records, last)
tally records last (r ∷ rs) = tally (records + 1) r.lsn rs

abbrev pub scan_result : List Record × Scanner → ScanResult
scan_result (rs, end) = record {
  scan_err = end.first_err;
  records = (tally 0 0 rs).0;
  scan_last = (tally 0 0 rs).1;
  valid_end = header_size + end.valid_bytes;
}

abbrev pub after_scan : Segment → ScanResult → Segment
after_scan seg result =
    if ltb 0 result.records then record seg { last_lsn = result.scan_last } else seg

unfoldable pub scan_segment : Segment → ℕ → Exec Disk (ScanResult × Segment)
unfolding tally
scan_segment seg max_record_size = do
  section ← read_section seg.file header_size (seg.size - header_size)
  let result = scan_result (scan (new_scanner section max_record_size))
  pure (result, after_scan seg result)

unfoldable pub truncate_to : Segment → ℕ → Exec Disk Segment
truncate_to seg offset = do
  truncate_file seg.file offset
  sync_file seg.file
  pure (record seg { size = offset })

-- `if err := root.Remove(name); err != nil && !os.IsNotExist(err) { return err }`
abbrev unless_missing : Result (Unit {0}) × Disk → Result (Unit {0}) × Disk
unless_missing (err not_exist, d) = (ok tt, d)
unless_missing (r, d) = (r, d)

unfoldable pub remove_if_exists : List ℕ → Exec Disk Unit
remove_if_exists file_name d = unless_missing (remove_file file_name d)

-- The records at or above `from_lsn`, appended one by one.
unfoldable pub copy_records : Segment → ℕ → List Record → Exec Disk Segment
copy_records dst from_lsn [] = pure dst
copy_records dst from_lsn (r ∷ rs) =
    if ltb r.lsn from_lsn
    then copy_records dst from_lsn rs
    else (append dst r.lsn r.payload >>= λ written. copy_records written.1 from_lsn rs)

abbrev raise_if : Option Error → Exec Disk Unit
raise_if none = pure tt
raise_if (some e) = raise e

-- What stands between the temporary file and its publication. The source copies while it scans.
unfoldable pub fill_replacement : Handle → Segment → ℕ → ℕ → Exec Disk Segment
unfolding copy_records
fill_replacement file src from_lsn max_record_size = do
  now ← gets (λ d. d.now)
  write_at file (new_header from_lsn now) 0
  section ← read_section src.file header_size (src.size - header_size)
  let scanned = scan (new_scanner section max_record_size)
  dst ← copy_records (empty_segment file (name from_lsn) from_lsn) from_lsn scanned.0
  raise_if scanned.1.first_err
  sync dst
  rename_file (name from_lsn ++ temp_suffix) (name from_lsn)
  sync_dir
  pure dst

unfoldable pub rewrite_from : Segment → ℕ → ℕ → Exec Disk Segment
unfolding fill_replacement
rewrite_from src from_lsn max_record_size = do
  remove_if_exists (name from_lsn ++ temp_suffix)
  file ← create_file (name from_lsn ++ temp_suffix)
  on_error (fill_replacement file src from_lsn max_record_size)
      (discard (close_file file) >> discard (remove_file (name from_lsn ++ temp_suffix)))
