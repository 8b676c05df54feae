-- ===== src/Record/Tests.antt =====
-- Runs of the record package, and its theorems at concrete inputs.
use go_wallib.Base.{
  ℕ, ◌<◌, ◌≡◌, refl, sym, false, none, some, List, [], ◌∷◌, ◌++◌, arith, length, take, drop, All,
  take-append-drop, length-take, length-drop,
}
use go_wallib.Bytes.{IsByte, put_le, get_le, crc_update}
use go_wallib.Errors.{ok, torn, record_corrupt}
use go_wallib.Record.{
  Record, frame, checksum, new_scanner, scan, next, read_header, read_full, accept_header,
  read_payload, crc_matches,
}
use go_wallib.Record.Step.{Fits, running, length-frame}
use go_wallib.Record.RoundTrip.{frames, last_of, no_record, encode_all, scan-encode_all, scan_torn}
use go_wallib.Record.Sound.{scan_bytes, scan_sound, scan_clean}

abbrev two : List Record
two = record { lsn = 7; payload = 1 ∷ 2 ∷ [] } ∷ record { lsn = 8; payload = [] } ∷ []

two-Fits : All (Fits 100) two
two-Fits = omega arith

abbrev third : Record
third = record { lsn = 9; payload = 5 ∷ [] }

third-Fits : Fits 100 third
third-Fits = omega arith

abbrev written : List ℕ
written = 100 ∷ 250 ∷ 135 ∷ 87 ∷ 2 ∷ 0 ∷ 0 ∷ 0 ∷ 7 ∷ 0 ∷ 0 ∷ 0 ∷ 0 ∷ 0 ∷ 0 ∷ 0 ∷ 1 ∷ 2 ∷ []

frame_runs : frame 7 (1 ∷ 2 ∷ []) ≡ written
unfolding frame checksum put_le crc_update
frame_runs = refl

-- One bit of the payload changed: the checksum refuses the record.
abbrev damaged : List ℕ
damaged = 100 ∷ 250 ∷ 135 ∷ 87 ∷ 2 ∷ 0 ∷ 0 ∷ 0 ∷ 7 ∷ 0 ∷ 0 ∷ 0 ∷ 0 ∷ 0 ∷ 0 ∷ 0 ∷ 1 ∷ 3 ∷ []

damaged_refused : (scan_bytes damaged false 100).1.first_err ≡ some record_corrupt
unfolding scan next new_scanner read_header read_full accept_header read_payload crc_matches
    crc_update get_le
damaged_refused = refl

scan-encode_all_example :
    (bytes : List ℕ) × (encode_all [] two ≡ ok bytes)
    × (scan (new_scanner (record { bytes = bytes; broken = false }) 100)
        ≡ (two, running [] false (last_of no_record two) 100 (length bytes)))
scan-encode_all_example = scan-encode_all 100 two two-Fits

abbrev front : List ℕ
front = take 5 (frame 9 (5 ∷ []))

abbrev back : List ℕ
back = drop 5 (frame 9 (5 ∷ []))

front-length : 0 < length front
front-length = omega (arith, length-take 5 (frame 9 (5 ∷ [])), length-frame 9 (5 ∷ []))

back-length : 0 < length back
back-length = omega (arith, length-drop 5 (frame 9 (5 ∷ [])), length-frame 9 (5 ∷ []))

scan_torn_example :
    scan (new_scanner (record { bytes = frames two ++ front; broken = false }) 100) ≡ (
      two,
      record (running [] false (last_of no_record two) 100 (length (frames two))) {
        first_err = some torn;
      },
    )
scan_torn_example =
    scan_torn 100 two two-Fits third front back third-Fits
      (sym (take-append-drop 5 (frame 9 (5 ∷ [])))) front-length back-length

written-IsByte : All IsByte (written ++ (1 ∷ []))
written-IsByte = omega arith

scan_sound_example :
    All (Fits 100) (scan_bytes (written ++ (1 ∷ [])) false 100).0
    × (take (scan_bytes (written ++ (1 ∷ [])) false 100).1.valid_bytes (written ++ (1 ∷ []))
        ≡ frames (scan_bytes (written ++ (1 ∷ [])) false 100).0)
scan_sound_example = scan_sound (written ++ (1 ∷ [])) false 100 written-IsByte

written_clean : (scan_bytes written false 100).1.first_err ≡ none
unfolding scan next new_scanner read_header read_full accept_header read_payload crc_matches
    crc_update get_le
written_clean = refl

scan_clean_example : written ≡ frames (scan_bytes written false 100).0
scan_clean_example = scan_clean written false 100 (omega arith) written_clean
