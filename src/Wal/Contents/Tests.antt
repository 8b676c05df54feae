-- ===== src/Wal/Contents/Tests.antt =====
-- A run from an empty directory, and the theorems on what the log holds at it.
use go_wallib.Base.{
  ◌≡◌, refl, sym, min, inl, ap, ◌∙◌, none, some, List, [], ◌∷◌, ◌++◌, arith, length, All,
}
use go_wallib.Bytes.{put_le, crc_update}
use go_wallib.Errors.{canceled, ok}
use go_wallib.Exec.{◌>>=◌, finally, on_error, discard}
use go_wallib.Record.{frame, checksum, encode}
use go_wallib.Disk.{
  create_file, find, close_file, next_fault, change, overwrite, write_at, sync_file, sync_dir,
  read_dir, linked_names,
}
use go_wallib.Segment.Header.{encode_header, header_body}
use go_wallib.Segment.Name.{name, put_dec}
use go_wallib.Segment.Dir.{remove_stale_temp_files, list_segments}
use go_wallib.Segment.Files.{append, sync, close, create, new_header}
use go_wallib.Wal.{Wal, Options, sync_batched, on_disk, get_active}
use go_wallib.Wal.Append.{AppendRequest, commit, write_request, write_record}
use go_wallib.Wal.Writer.{Event, appends, flush, subscription, serve, serve_all}
use go_wallib.Wal.Recover.{RecoveryReport, open_log}
use go_wallib.Wal.Reader.{Reader, new_reader, entries}
use go_wallib.Wal.Reader.Still.{calm}
use go_wallib.Wal.Reader.Complete.{Complete, between}
use go_wallib.Wal.Contents.{Succeeds}
use go_wallib.Wal.Contents.Commit.{batch_records, batch_results}
use go_wallib.Wal.Contents.Finish.{Committed, commit-Committed}
use go_wallib.Wal.Contents.Open.{Fresh, open_log-Fresh, opened-Fresh}
use go_wallib.Wal.Contents.Read.{new_reader-Complete}
use go_wallib.Wal.Boundary.{do_cut, do_truncate}
use go_wallib.Wal.Cut.Sides.{first_of}
use go_wallib.Wal.Cut.Below.{Cut}
use go_wallib.Wal.Cut.Run.{do_cut-Cut}
use go_wallib.Wal.Truncated.Trim.{Left, do_truncate-Left}
use go_wallib.Wal.Contents.Runs.{Adds, Added, run_records, serve_all-Added, write_then_read}

-- Segments of 64 bytes at most: a header and two small records.
abbrev small : Options
small = record {
  max_segment_size = 64;
  max_record_size = 1000;
  batch_size = 4;
  batch_timeout = 0;
  flush_interval = 0;
  max_operation_timeout = 0;
  sync_policy = sync_batched;
}

abbrev request : AppendRequest
request = record { ctx_err = none; payloads = (1 ∷ 2 ∷ []) ∷ (3 ∷ []) ∷ [] }

abbrev abandoned : AppendRequest
abandoned = record { ctx_err = some canceled; payloads = (4 ∷ []) ∷ [] }

abbrev events : List Event
events =
    appends (request ∷ abandoned ∷ [])
    ∷ subscription (record { notify = 7; from = 2 })
    ∷ appends (request ∷ [])
    ∷ flush
    ∷ []

events-Adds : All (Adds 1000) events
events-Adds = (
  ((omega arith, (omega arith, tt)), ((omega arith, tt), tt)),
  (tt, (((omega arith, (omega arith, tt)), tt), (tt, tt))),
)

-- The third record has a segment of its own with the fourth.
bases_run : (serve_all events (open_log (calm [] 5) small).1).segment_bases ≡ 1 ∷ 3 ∷ []
unfolding open_log remove_stale_temp_files list_segments read_dir linked_names create_file find
    close_file next_fault change overwrite write_at sync_file sync_dir encode_header header_body
    name put_dec append sync close create new_header on_disk get_active commit write_request
    write_record serve serve_all frame checksum encode put_le crc_update ◌>>=◌ finally on_error
    discard
bases_run = refl

records_run : length (run_records 1 events) ≡ 4
unfolding run_records batch_records
records_run = refl

open_log-Fresh_example : Succeeds (Fresh small) (open_log (calm [] 5) small)
open_log-Fresh_example = open_log-Fresh 5 small

write_then_read_example :
    (r : Reader) × (new_reader (serve_all events (open_log (calm [] 5) small).1) [] 2 ≡ ok r)
    × Complete (entries 12 12 r) (between 2 (length (run_records 1 events)) (run_records 1 events))
write_then_read_example =
    write_then_read 5 small events 2 12 12 events-Adds (omega arith) (omega arith)
      (omega (arith, records_run, ap length bases_run))
      (omega (arith, records_run, ap length bases_run))

-- The log that is just opened, and the one that the run leaves.
abbrev opened : Wal
opened = (open_log (calm [] 5) small).1

fresh : (report : RecoveryReport) × Fresh small report opened
fresh = opened-Fresh 5 small

limit : opened.opts.max_record_size ≡ 1000
limit = ap (λ (o : Options). o.max_record_size) fresh.1.options

serve_all-Added_example :
    Added opened [] (run_records opened.next_lsn events) (serve_all events opened)
serve_all-Added_example =
    serve_all-Added events opened [] fresh.1.holds (rw limit events-Adds) (omega (arith, limit))
      (omega (arith, fresh.1.next))

commit-Committed_example :
    Committed opened
      (batch_results opened.next_lsn (request ∷ abandoned ∷ []))
      ([] ++ batch_records opened.next_lsn (request ∷ abandoned ∷ []))
      (length (batch_records opened.next_lsn (request ∷ abandoned ∷ [])))
      (commit (request ∷ abandoned ∷ []) opened)
commit-Committed_example =
    commit-Committed (request ∷ abandoned ∷ []) opened [] fresh.1.holds (rw limit (events-Adds.0))
      (omega (arith, limit)) (omega (arith, fresh.1.next))

written : Added opened [] (run_records opened.next_lsn events) (serve_all events opened)
written =
    serve_all-Added events opened [] fresh.1.holds (rw limit events-Adds) (omega (arith, limit))
      (omega (arith, fresh.1.next))

-- Four records in two segments.
all_run : length (run_records opened.next_lsn events) ≡ 4
all_run = ap (λ k. length (run_records k events)) fresh.1.next ∙ records_run

new_reader-Complete_example :
    (r : Reader) × (new_reader (serve_all events opened) [] 3 ≡ ok r)
    × Complete
        (entries 12 12 r)
        (between 3 (serve_all events opened).last_lsn (run_records opened.next_lsn events))
new_reader-Complete_example =
    new_reader-Complete (serve_all events opened) (run_records opened.next_lsn events) 3 12 12
      written.holds (written.grown.closed ∙ fresh.1.opened)
      (omega (arith, all_run, ap length bases_run)) (omega (arith, all_run, ap length bases_run))

-- The first of the two segments goes.
do_truncate-Left_example :
    Succeeds
      (λ _. Left (serve_all events opened) (run_records opened.next_lsn events) 3)
      (do_truncate 3 (serve_all events opened))
do_truncate-Left_example =
    do_truncate-Left (serve_all events opened) (run_records opened.next_lsn events) 3
      written.holds.log (omega (arith, written.grown.next, all_run, fresh.1.next))

-- The log starts at its first record.
first_run : (serve_all events (open_log (calm [] 5) small).1).first_lsn ≡ 1
unfolding open_log remove_stale_temp_files list_segments read_dir linked_names create_file find
    close_file next_fault change overwrite write_at sync_file sync_dir encode_header header_body
    name put_dec append sync close create new_header on_disk get_active commit write_request
    write_record serve serve_all frame checksum encode put_le crc_update ◌>>=◌ finally on_error
    discard
first_run = refl

first_record : first_of (run_records 1 events) ≡ 1
unfolding run_records batch_records
first_record = refl

-- The first segment is cut through.
do_cut-Cut_example :
    Succeeds
      (λ _.
        Cut
          (serve_all events opened)
          (run_records opened.next_lsn events)
          (min 2 (serve_all events opened).next_lsn))
      (do_cut 2 (serve_all events opened))
do_cut-Cut_example =
    do_cut-Cut (serve_all events opened) (run_records opened.next_lsn events) 2 written.holds.log
      (omega (arith, written.grown.next, all_run, fresh.1.next))
      (first_run ∙ sym (ap (λ k. first_of (run_records k events)) fresh.1.next ∙ first_record))
      (inl (omega (arith, written.grown.next, all_run, fresh.1.next)))
