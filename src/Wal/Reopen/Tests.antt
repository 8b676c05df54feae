-- ===== src/Wal/Reopen/Tests.antt =====
-- Crashes of a run from an empty directory, a log with a torn record, and the theorems on recovery at
-- them.
use go_wallib.Base.{
  true, ℕ, ◌+◌, ◌≡◌, refl, sym, ap, ◌∙◌, none, some, List, [], ◌∷◌, ◌++◌, arith, length, take, All,
  inl,
}
use mathlib.Core.List.{map}
use go_wallib.Bytes.{put_le, crc_update, get_le}
use go_wallib.Errors.{canceled, err, ok, wal_corrupt}
use go_wallib.Record.{
  Record, frame, checksum, encode, read_full, scan, next, new_scanner, read_header, read_payload,
  accept_payload, crc_matches, header_error, payload_error, scan_loop,
}
use go_wallib.Record.RoundTrip.{frames}
use go_wallib.Exec.{◌>>=◌, finally, on_error, discard}
use go_wallib.Disk.{
  File, create_file, find, close_file, next_fault, change, overwrite, write_at, sync_file, sync_dir,
  read_dir, linked_names, open_file, read_section, stat_size, truncate_file,
}
use go_wallib.Segment.Header.{
  encode_header, header_body, decode_header, header_fields, length-encode_header,
}
use go_wallib.Segment.Name.{name, put_dec, parse_base_lsn, cut_suffix, parse_uint}
use go_wallib.Segment.Dir.{remove_stale_temp_files, list_segments}
use go_wallib.Segment.Files.{
  append, sync, close, create, new_header, open_segment, scan_segment, truncate_to,
}
use go_wallib.Wal.{
  Wal, Options, default_options, SyncPolicy, sync_batched, sync_interval, on_disk, get_active,
}
use go_wallib.Wal.Append.{AppendRequest, commit, write_request, write_record}
use go_wallib.Wal.Writer.{Event, appends, subscription, serve, serve_all}
use go_wallib.Wal.Recover.{
  RecoveryReport, open_log, close_all, join_corrupt, truncate_torn_tail, compute_bounds,
  prune_empty_trailing, nonempty_prefix, remove_each, recover_segments,
}
use go_wallib.Wal.Reader.{Reader, new_reader, entries}
use go_wallib.Wal.Reader.Still.{Stored, calm}
use go_wallib.Wal.Reader.Complete.{Complete, between}
use go_wallib.Wal.Contents.{Flushed, Succeeds}
use go_wallib.Wal.Contents.Commit.{batch_records}
use go_wallib.Wal.Contents.Open.{Fresh, opened-Fresh}
use go_wallib.Wal.Contents.Runs.{Adds, Added, run_records, serve_all-Added}
use go_wallib.Wal.Settings.{
  taken, log_closed, flush_loop, apply_setting, apply_settings, with_batch_size, with_sync_policy,
}
use go_wallib.Wal.Flusher.{took_one, flush_loop-Flushed}
use go_wallib.Wal.Contents.Finish.{Published}
use go_wallib.Wal.Contents.Durable.{commit-Flushed}
use go_wallib.Wal.Reopen.Shelf.{Shelf, Ends-Stops}
use go_wallib.Wal.Reopen.Crash.{Crashed}
use go_wallib.Wal.Reopen.Survive.{Recovered, crash-Recovered}
use go_wallib.Wal.Reopen.Whole.{Reopened}
use go_wallib.Wal.Reopen.Gap.{open_log-refuses_gap}
use go_wallib.Wal.Reopen.Runs.{write_crash_reopen, write_crash_read}

abbrev options : SyncPolicy → Options
options policy = record {
  max_segment_size = 64;
  max_record_size = 1000;
  batch_size = 4;
  batch_timeout = 0;
  flush_interval = 0;
  max_operation_timeout = 0;
  sync_policy = policy;
}

abbrev request : AppendRequest
request = record { ctx_err = none; payloads = (1 ∷ 2 ∷ []) ∷ (3 ∷ []) ∷ [] }

abbrev abandoned : AppendRequest
abandoned = record { ctx_err = some canceled; payloads = (4 ∷ []) ∷ [] }

abbrev batches : List Event
batches =
    appends (request ∷ abandoned ∷ [])
    ∷ subscription (record { notify = 7; from = 2 })
    ∷ appends (request ∷ [])
    ∷ []

batches-Adds : All (Adds 1000) batches
batches-Adds = (
  ((omega arith, (omega arith, tt)), ((omega arith, tt), tt)),
  (tt, (((omega arith, (omega arith, tt)), tt), tt)),
)

-- What a crash leaves: `k` bytes more than those that were synced.
abbrev lose : ℕ → File → File
lose k f = record f {
  content = take (f.synced + k) f.content;
  synced = length (take (f.synced + k) f.content);
}

lose-Crashed : (k : ℕ) (fs : List File) → Crashed fs (map (lose k) fs)
lose-Crashed k [] = tt
lose-Crashed k (f ∷ fs) = (
  record {
    left = f.synced + k;
    name_kept = refl;
    bytes_kept = omega arith;
    content_left = refl;
    durable = omega arith;
  },
  lose-Crashed k fs,
)

-- The logs that the run leaves, under a policy that syncs each commit and under one that does not.
abbrev end_of : SyncPolicy → Wal
end_of policy = serve_all batches (open_log (calm [] 5) (options policy)).1

write_crash_reopen_example :
    Succeeds
      (λ report w.
        Reopened
          (options sync_batched)
          (run_records 1 batches)
          (1 + length (run_records 1 batches))
          0
          (length (end_of sync_batched).segment_bases)
          report
          w)
      (open_log (calm (map (lose 0) (end_of sync_batched).disk.files) 9) (options sync_batched))
write_crash_reopen_example =
    write_crash_reopen 5 9 (options sync_batched) batches
      (map (lose 0) (end_of sync_batched).disk.files) batches-Adds (omega arith) (omega arith) refl
      (lose-Crashed 0 (end_of sync_batched).disk.files)

bases_run : (end_of sync_batched).segment_bases ≡ 1 ∷ 3 ∷ []
unfolding open_log remove_stale_temp_files list_segments read_dir linked_names create_file find
    close_file next_fault change overwrite write_at sync_file sync_dir encode_header header_body
    name put_dec append sync close create new_header on_disk get_active commit write_request
    write_record serve serve_all frame checksum encode put_le crc_update ◌>>=◌ finally on_error
    discard
bases_run = refl

records_run : length (run_records 1 batches) ≡ 4
unfolding run_records batch_records
records_run = refl

write_crash_read_example :
    (r : Reader) × (new_reader
        (open_log (calm (map (lose 0) (end_of sync_batched).disk.files) 9) (options sync_batched)).1
        []
        2
      ≡ ok r)
    × Complete
        (entries 12 12 r)
        (between 2 (length (run_records 1 batches)) (run_records 1 batches))
write_crash_read_example =
    write_crash_read 5 9 (options sync_batched) batches
      (map (lose 0) (end_of sync_batched).disk.files) 2 12 12 batches-Adds (omega arith)
      (omega arith) refl (lose-Crashed 0 (end_of sync_batched).disk.files)
      (omega (arith, records_run, ap length bases_run))
      (omega (arith, records_run, ap length bases_run))

-- The log that is just opened.
abbrev opened : SyncPolicy → Wal
opened policy = (open_log (calm [] 5) (options policy)).1

fresh :
    (policy : SyncPolicy)
    → (report : RecoveryReport) × Fresh (options policy) report (opened policy)
fresh policy = opened-Fresh 5 (options policy)

limit : (policy : SyncPolicy) → (opened policy).opts.max_record_size ≡ 1000
limit policy = ap (λ (o : Options). o.max_record_size) (fresh policy).1.options

ran :
    (policy : SyncPolicy)
    → Added (opened policy) [] (run_records (opened policy).next_lsn batches) (end_of policy)
ran policy =
    serve_all-Added batches (opened policy) [] (fresh policy).1.holds
      (rw (limit policy) batches-Adds) (omega (arith, limit policy))
      (omega (arith, (fresh policy).1.next))

flush_loop-Flushed_example :
    Published
      (flush_loop (taken ∷ log_closed ∷ []) (end_of sync_interval))
      (run_records (opened sync_interval).next_lsn batches)
    × (took_one (taken ∷ log_closed ∷ []) ≡ true
        → Flushed (flush_loop (taken ∷ log_closed ∷ []) (end_of sync_interval)))
flush_loop-Flushed_example =
    flush_loop-Flushed (taken ∷ log_closed ∷ []) (end_of sync_interval)
      (run_records (opened sync_interval).next_lsn batches) (ran sync_interval).holds

-- The last setting of a field counts.
settings_run :
    apply_settings
      (with_batch_size 8 ∷ with_sync_policy sync_interval ∷ with_batch_size 4 ∷ [])
      default_options
    ≡ record default_options { batch_size = 4; sync_policy = sync_interval }
unfolding apply_settings apply_setting default_options
settings_run = refl

-- Five bytes of the third record are there, and nothing of the fourth.
crash-Recovered_example :
    Recovered
      (end_of sync_interval)
      (run_records (opened sync_interval).next_lsn batches)
      (options sync_interval)
      (map (lose 5) (end_of sync_interval).disk.files)
      9
crash-Recovered_example =
    crash-Recovered (end_of sync_interval) (run_records (opened sync_interval).next_lsn batches)
      (options sync_interval) (map (lose 5) (end_of sync_interval).disk.files) 9
      (ran sync_interval).holds
      (sym (
        ap (λ (o : Options). o.max_record_size) (ran sync_interval).grown.opts
        ∙ limit sync_interval))
      (lose-Crashed 5 (end_of sync_interval).disk.files)

commit-Flushed_example : Flushed (commit (request ∷ abandoned ∷ []) (opened sync_batched)).1
commit-Flushed_example =
    commit-Flushed (request ∷ abandoned ∷ []) (opened sync_batched) [] (fresh sync_batched).1.holds
      (rw (limit sync_batched) (batches-Adds.0)) (omega (arith, limit sync_batched))
      (omega (arith, (fresh sync_batched).1.next))
      (λ e.
        let policy : sync_batched ≡ sync_interval =
          sym (ap (λ (o : Options). o.sync_policy) (fresh sync_batched).1.options) ∙ e in
        absurd (cc policy))
      (fresh sync_batched).1.safe

-- A file with one record, and the front of another.
abbrev whole_record : Record
whole_record = record { lsn = 1; payload = 7 ∷ 8 ∷ [] }

abbrev torn_record : Record
torn_record = record { lsn = 2; payload = 9 ∷ [] }

abbrev last_segment : Stored
last_segment = record {
  seg_name = name 1;
  handle = 0;
  header = new_header 1 5;
  recs = whole_record ∷ [];
  tail = take 6 (frame 2 (9 ∷ []));
}

abbrev torn_file : File
torn_file = record {
  linked = some (name 1);
  content = new_header 1 5 ++ (frames (whole_record ∷ []) ++ take 6 (frame 2 (9 ∷ [])));
  synced = length (new_header 1 5 ++ (frames (whole_record ∷ []) ++ take 6 (frame 2 (9 ∷ []))));
}

-- The code at this file.
torn_run :
    (open_log (calm (torn_file ∷ []) 9) (options sync_batched)).0
    ≡ ok (record {
      entries_recovered = 1;
      report_first = 1;
      report_last = 1;
      bytes_truncated = 6;
      segments_removed = 0;
    })
unfolding open_log remove_stale_temp_files list_segments read_dir linked_names find close_file
    next_fault change sync_file encode_header header_body name put_dec new_header on_disk frame
    checksum put_le crc_update get_le ◌>>=◌ on_error discard parse_base_lsn cut_suffix parse_uint
    open_segment open_file read_section read_full decode_header header_fields stat_size scan_segment
    scan next new_scanner read_header read_payload close_all join_corrupt truncate_torn_tail
    truncate_to truncate_file frames compute_bounds prune_empty_trailing nonempty_prefix remove_each
    recover_segments accept_payload crc_matches header_error payload_error scan_loop
torn_run = refl

-- A segment with the record 1, and one that starts at 3.
abbrev whole_segment : Stored
whole_segment = record {
  seg_name = name 1;
  handle = 0;
  header = new_header 1 5;
  recs = whole_record ∷ [];
  tail = [];
}

abbrev whole_file : File
whole_file = record {
  linked = some (name 1);
  content = new_header 1 5 ++ (frames (whole_record ∷ []) ++ []);
  synced = 0;
}

abbrev far_file : File
far_file = record { linked = some (name 3); content = new_header 3 6 ++ (4 ∷ 4 ∷ []); synced = 0 }

open_log-refuses_gap_example :
    ((open_log (calm (whole_file ∷ far_file ∷ []) 9) (options sync_batched)).0 ≡ err wal_corrupt)
    × ((open_log (calm (whole_file ∷ far_file ∷ []) 9) (options sync_batched)).1.disk
        ≡ calm (whole_file ∷ far_file ∷ []) 9)
open_log-refuses_gap_example =
    open_log-refuses_gap (whole_file ∷ far_file ∷ []) 9 1 2 3 6 (options sync_batched) (1 ∷ []) []
      (whole_segment ∷ []) 1 (4 ∷ 4 ∷ []) (refl, (5, refl), (refl, tt), refl) refl
      (
        record {
          found = unfold find name put_dec in refl;
          content = refl;
          header_length = unfold new_header in length-encode_header _;
          fits = (
            record { lsn_fits = omega arith; length_fits = omega arith; within_max = omega arith },
            tt,
          );
          stops = Ends-Stops 1000 [] (inl refl);
        },
        tt,
      )
      (refl, tt) (omega arith) (unfold find name put_dec in refl) refl (unfold linked_names in refl)
      (omega arith, (omega arith, tt)) (omega arith, (omega arith, tt)) (omega arith) (omega arith)
