-- ===== src/Segment/Tests.antt =====
-- Runs of the segment package, and its theorems at concrete inputs.
use go_wallib.Base.{
  ℕ, ◌+◌, ◌^◌, ◌<◌, ◌≡◌, refl, some, List, [], ◌∷◌, ◌++◌, arith, length, take, All,
}
use mathlib.Core.List.{map, Perm}
use go_wallib.Exec.{◌>>=◌, pure}
use go_wallib.Segment.Dir.{SegmentFile, list_segments, found_files, sort_files, insert_file}
use go_wallib.Segment.Listed.{Sorted, Named, segment_names, list_segments-Sorted}
use go_wallib.Bytes.{put_le, get_le, crc_update}
use go_wallib.Errors.{ok, err, unknown_version}
use go_wallib.Record.{Record}
use go_wallib.Record.RoundTrip.{frames}
use go_wallib.Disk.{Disk, Fault, fails, read_dir, linked_names, next_fault}
use go_wallib.Segment.Header
use go_wallib.Segment.Header.{
  Header, header_size, version, header_body, header_fields, encode_header, decode_header,
  decode-encode, decode_sound,
}
use go_wallib.Segment.Name.{
  name, put_dec, parse_base_lsn, parse_uint, cut_suffix, parse-name, parse_canonical,
}
use go_wallib.Segment.Files.{Segment, append, scan_segment, after_scan, empty_segment}
use go_wallib.Segment.Content.{Holds, AppendOutcome, full_scan, append-Holds, scan-Holds}

abbrev header_one : Header
header_one = record { base_lsn = 1; created_at = 5; version_field = 1; flags = 0 }

abbrev written : List ℕ
written =
    71 ∷ 87 ∷ 65 ∷ 76 ∷ 1 ∷ 0 ∷ 0 ∷ 0 ∷ 1 ∷ 0 ∷ 0 ∷ 0 ∷ 0 ∷ 0 ∷ 0 ∷ 0 ∷ 5 ∷ 0 ∷ 0 ∷ 0 ∷ 0 ∷ 0 ∷ 0
    ∷ 0 ∷ 15 ∷ 201 ∷ 175 ∷ 12 ∷ []

encode_run : encode_header header_one ≡ written
unfolding encode_header header_body put_le crc_update
encode_run = refl

decode_run : decode_header written ≡ ok header_one
unfolding decode_header header_fields get_le crc_update
decode_run = refl

decode-encode_example :
    decode_header (encode_header (record header_one { version_field = 2 }) ++ (9 ∷ []))
    ≡ err unknown_version
decode-encode_example =
    decode-encode (record header_one { version_field = 2 }) (9 ∷ []) (omega arith)

decode_sound_example :
    (take header_size written ≡ encode_header header_one)
    × (header_one.version_field ≡ version)
    × Header.Fits header_one
decode_sound_example = decode_sound written header_one (omega arith) decode_run

abbrev forty_two : List ℕ
forty_two =
    48 ∷ 48 ∷ 48 ∷ 48 ∷ 48 ∷ 48 ∷ 48 ∷ 48 ∷ 48 ∷ 48 ∷ 48 ∷ 48 ∷ 48 ∷ 48 ∷ 48 ∷ 48 ∷ 48 ∷ 48 ∷ 52
    ∷ 50 ∷ 46 ∷ 119 ∷ 97 ∷ 108 ∷ []

name_run : name 42 ≡ forty_two
unfolding name put_dec
name_run = refl

parse_run : parse_base_lsn forty_two ≡ some 42
unfolding parse_base_lsn parse_uint cut_suffix
parse_run = refl

parse-name_example : parse_base_lsn (name 42) ≡ some 42
parse-name_example = parse-name 42 (omega arith)

parse_canonical_example : (forty_two ≡ name 42) × (42 < 2 ^ 64)
parse_canonical_example = parse_canonical forty_two 42 parse_run

-- A segment with one record and a byte that a failed write has left.
abbrev one : List Record
one = record { lsn = 1; payload = 7 ∷ [] } ∷ []

abbrev second : Record
second = record { lsn = 2; payload = 8 ∷ 9 ∷ [] }

abbrev disk : List Fault → Disk
disk faults = record {
  files =
      record { linked = some forty_two; content = written ++ (frames one ++ (3 ∷ [])); synced = 0 }
      ∷ [];
  faults = faults;
  now = 0;
}

abbrev seg : Segment
seg = record (empty_segment 0 forty_two 1) { size = 28 + length (frames one) }

seg-Holds : (faults : List Fault) → Holds seg one (disk faults)
seg-Holds faults = record {
  file = record {
    linked = some forty_two;
    content = written ++ (frames one ++ (3 ∷ []));
    synced = 0;
  };
  header = written;
  tail = 3 ∷ [];
  present = refl;
  layout = refl;
  header_length = refl;
  size = refl;
}

append-Holds_example :
    AppendOutcome seg one second (append seg 2 (8 ∷ 9 ∷ []) (disk (fails 3 ∷ [])))
append-Holds_example =
    append-Holds seg one second 100 (disk (fails 3 ∷ [])) (seg-Holds (fails 3 ∷ [])) (omega arith)

scan-Holds_example :
    scan_segment seg 100 (disk [])
    ≡ (ok (full_scan seg one, after_scan seg (full_scan seg one)), disk [])
scan-Holds_example = scan-Holds seg one 100 (disk []) (seg-Holds []) (omega arith) refl

-- A segment, a file that is none, and an older segment.
abbrev three_files : Disk
three_files = record {
  files =
      record { linked = some (name 7); content = []; synced = 0 }
      ∷ record { linked = some (1 ∷ 2 ∷ []); content = []; synced = 0 }
      ∷ record { linked = some (name 4); content = []; synced = 0 }
      ∷ [];
  faults = [];
  now = 0;
}

list_segments-Sorted_example :
    (fs : List SegmentFile) × (list_segments three_files
      ≡ (ok (map (λ (f : SegmentFile). f.path) fs), three_files))
    × Sorted 0 fs
    × All Named fs
    × Perm (map (λ (f : SegmentFile). f.path) fs) (segment_names (linked_names three_files.files))
list_segments-Sorted_example = list_segments-Sorted three_files refl

list_run : (list_segments three_files).0 ≡ ok (name 4 ∷ name 7 ∷ [])
unfolding list_segments found_files sort_files insert_file read_dir linked_names next_fault ◌>>=◌
    pure name put_dec parse_base_lsn parse_uint cut_suffix
list_run = refl
