-- ===== src/Wal/Reader/Tests.antt =====
-- Runs of a reader, and its theorems at concrete inputs.
use go_wallib.Base.{
  ℕ, ◌^◌, ◌<◌, ◌≡◌, refl, some, none, List, [], ◌∷◌, ◌++◌, arith, All, replicate, take, set,
}
use mathlib.Core.List.{map}
use go_wallib.Bytes.{put_le, crc_update}
use go_wallib.Record.{Record, frame, checksum}
use go_wallib.Record.Step.{Fits}
use go_wallib.Record.RoundTrip.{frames}
use go_wallib.Disk.{File, find}
use go_wallib.Segment.Name.{name, put_dec}
use go_wallib.Wal.Reader.{Reader, entries, new_reader_from}
use go_wallib.Wal.Reader.Window.{Ascending, entries-Ascending}
use go_wallib.Wal.Reader.Still.{Stored, Stands, records_of, calm, Stops-nil, Stops-torn}
use go_wallib.Wal.Reader.Complete.{Complete, between, entries-Complete}

abbrev some_record : ℕ → Record
some_record lsn = record { lsn = lsn; payload = lsn ∷ 7 ∷ [] }

abbrev file_of : ℕ → List ℕ → File
file_of base bytes = record {
  linked = some (name base);
  content = replicate 28 0 ++ bytes;
  synced = 28;
}

-- A segment of two records, and one of two with the front of one more frame behind them.
abbrev two_files : List File
two_files =
    file_of 1 (frames (some_record 1 ∷ some_record 2 ∷ []))
    ∷ file_of 3 (frames (some_record 3 ∷ some_record 4 ∷ []) ++ take 9 (frame 5 (5 ∷ 7 ∷ [])))
    ∷ []

abbrev two_segments : List Stored
two_segments =
    record {
      seg_name = name 1;
      handle = 0;
      header = replicate 28 0;
      recs = some_record 1 ∷ some_record 2 ∷ [];
      tail = [];
    }
    ∷ record {
      seg_name = name 3;
      handle = 1;
      header = replicate 28 0;
      recs = some_record 3 ∷ some_record 4 ∷ [];
      tail = take 9 (frame 5 (5 ∷ 7 ∷ []));
    }
    ∷ []

fits : (lsn : ℕ) → lsn < 2 ^ 64 → Fits 100 (some_record lsn)
fits lsn h = record { lsn_fits = h; length_fits = omega arith; within_max = omega arith }

two_segments-Stands : All (Stands (calm two_files 0) 100) two_segments
unfolding name put_dec find frames frame checksum put_le crc_update
two_segments-Stands = (
  record {
    found = refl;
    content = refl;
    header_length = refl;
    fits = (fits 1 (omega arith), (fits 2 (omega arith), tt));
    stops = Stops-nil 100;
  },
  (
    record {
      found = refl;
      content = refl;
      header_length = refl;
      fits = (fits 3 (omega arith), (fits 4 (omega arith), tt));
      stops =
          Stops-torn 100 (some_record 5) (take 9 (frame 5 (5 ∷ 7 ∷ []))) _ (fits 5 (omega arith))
            refl (omega arith) (omega arith);
    },
    tt,
  ),
)

entries-Complete_example :
    Complete
      (entries 20 20 (
        new_reader_from
          (record { disk = calm two_files 0; others = [] })
          (map (λ (s : Stored). s.seg_name) two_segments)
          2
          3
          100))
      (between 2 3 (records_of two_segments))
entries-Complete_example =
    entries-Complete two_files 0 20 20 2 3 100 two_segments two_segments-Stands
      (omega arith, (omega arith, (omega arith, (omega arith, tt)))) (omega arith) (omega arith)

-- The window holds two of the four records.
between_run :
    between 2 3 (records_of two_segments)
    ≡ record { payload = 2 ∷ 7 ∷ []; lsn = 2 } ∷ record { payload = 3 ∷ 7 ∷ []; lsn = 3 } ∷ []
unfolding between
between_run = refl

-- A reader of the same files, of which the first is gone when it comes to open it and the listing works.
abbrev overtaken : Reader
overtaken =
    new_reader_from
      (record {
        disk = calm two_files 0;
        others =
            (λ d. record d {
              files = set d.files 0 (record { linked = none; content = []; synced = 0 });
            })
            ∷ [];
      })
      (name 1 ∷ name 3 ∷ []) 1 4 100

entries-Ascending_example : Ascending 1 4 (entries 20 20 overtaken).0
unfolding new_reader_from
entries-Ascending_example = entries-Ascending 20 20 overtaken (omega arith)
