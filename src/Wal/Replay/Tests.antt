-- ===== src/Wal/Replay/Tests.antt =====
-- A run of `Replay`, and its theorem at a concrete input.
use go_wallib.Base.{
  ◌==◌, ◌≡◌, refl, Option, none, some, List, [], ◌∷◌, ◌++◌, length, if◌then◌else◌, replicate,
}
use go_wallib.Errors.{Error, canceled, err}
use go_wallib.Record.{
  Record, frame, checksum, next, read_header, read_payload, read_full, new_scanner, crc_matches,
}
use go_wallib.Record.RoundTrip.{frames}
use go_wallib.Bytes.{put_le, get_le, crc_update}
use go_wallib.Disk.{File, open_file, seek_file, read_rest, find, next_fault}
use go_wallib.Exec.{◌>>=◌}
use go_wallib.Segment.Name.{name, put_dec}
use go_wallib.Wal.Reader
use go_wallib.Wal.Reader.{Entry, Reader, new_reader_from, entries}
use go_wallib.Wal.Reader.Still.{calm}
use go_wallib.Wal.Replay.{replay_loop, Agrees, replay_loop-entries}

abbrev three_records : List Record
three_records =
    record { lsn = 1; payload = 5 ∷ [] }
    ∷ record { lsn = 2; payload = [] }
    ∷ record { lsn = 3; payload = 6 ∷ [] }
    ∷ []

abbrev one_file : List File
one_file =
    record { linked = some (name 1); content = replicate 28 0 ++ frames three_records; synced = 28 }
    ∷ []

abbrev opened : Reader
opened = new_reader_from (record { disk = calm one_file 0; others = [] }) (name 1 ∷ []) 1 3 100

-- It refuses the second entry.
abbrev refuses_second : List Entry → Option Error
refuses_second seen = if length seen == 2 then some canceled else none

replay_loop-entries_example :
    Agrees refuses_second [] (replay_loop refuses_second 9 9 [] opened) (entries 9 9 opened)
replay_loop-entries_example = replay_loop-entries refuses_second 9 9 [] opened

replay_run : (replay_loop refuses_second 9 9 [] opened).0 ≡ some (err canceled)
unfolding replay_loop Reader.next name put_dec frames frame checksum put_le get_le crc_update
    open_file seek_file read_rest find next_fault ◌>>=◌ new_reader_from Reader.file_op Reader.start
    Reader.open_next next read_header read_payload read_full crc_matches new_scanner Reader.accept
replay_run = refl
