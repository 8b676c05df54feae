-- ===== src/Wal/Tests.antt =====
-- Runs of the log, and its theorems at concrete inputs.
use go_wallib.Base.{inl, length, true, ◌+◌, ◌≡◌, ◌≢◌, refl, false, none, some, List, [], ◌∷◌, arith}
use go_wallib.Bytes.{get_le, put_le, crc_update}
use go_wallib.Errors.{Error, ok, err, canceled}
use go_wallib.Exec.{finally, on_error, discard, ◌>>=◌}
use go_wallib.Record.{
  scan, next, read_header, read_payload, read_full, crc_matches, new_scanner, frame, checksum,
  encode,
}
use go_wallib.Disk.{
  create_file, rename_file, sync_dir, remove_file, find, read_section, close_file, next_fault,
  change, overwrite, write_at, sync_file,
}
use go_wallib.Segment.Files.{
  Segment, rewrite_from, copy_records, remove_if_exists, close, new_header, pred_lsn, append, sync,
}
use go_wallib.Wal.{Wal, Options, sync_batched, on_disk, get_active}
use go_wallib.Wal.Append.{AppendRequest, write_record, write_request, commit}
use go_wallib.Segment.Header.{encode_header, header_body}
use go_wallib.Segment.Name.{name, put_dec}
use go_wallib.Wal.Boundary.{
  do_truncate, install_cut, do_cut, remove_all, remove_segment_file, deletable, boundary_index,
}
use go_wallib.Wal.Writer.{
  Event, appends, flush, truncation, cut_offset, serve, serve_all, drain, close_log, admit,
}
use go_wallib.Wal.Lsns.{InOrder, lsns_from, acknowledged}
use go_wallib.Wal.Publish.{write_request-gapless, commit-Published}
use go_wallib.Wal.Capped.{Capped}
use go_wallib.Wal.Capped.Append.{commit-Capped}
use go_wallib.Wal.Indexed.{Indexed}
use go_wallib.Wal.Indexed.Runs.{serve_all-Indexed}
use go_wallib.Wal.Shutdown.{length-drain, close_log-closes}
use go_wallib.Wal.History.{history, history-InOrder}
use go_wallib.Wal.Index.{EndsBelow, deletable-EndsBelow, IsBoundary, boundary_index-IsBoundary}

abbrev small : Options
small = record {
  max_segment_size = 64;
  max_record_size = 1000;
  batch_size = 4;
  batch_timeout = 0;
  flush_interval = 0;
  max_operation_timeout = 0;
  sync_policy = sync_batched;
}

-- An open, empty log with a follower that waits on channel 3.
abbrev idle : Wal
idle = record {
  disk = record {
    files =
        record {
          linked = some (b'1' ∷ []);
          content =
              71 ∷ 87 ∷ 65 ∷ 76 ∷ 1 ∷ 0 ∷ 0 ∷ 0 ∷ 1 ∷ 0 ∷ 0 ∷ 0 ∷ 0 ∷ 0 ∷ 0 ∷ 0 ∷ 5 ∷ 0 ∷ 0 ∷ 0 ∷ 0
              ∷ 0 ∷ 0 ∷ 0 ∷ 15 ∷ 201 ∷ 175 ∷ 12 ∷ [];
          synced = 28;
        }
        ∷ [];
    faults = [];
    now = 0;
  };
  active = some (record { file = 0; seg_name = b'1' ∷ []; base_lsn = 1; size = 28; last_lsn = 0 });
  segment_bases = 1 ∷ [];
  pending_waiters = 3 ∷ [];
  notified = [];
  next_lsn = 1;
  first_lsn = 0;
  last_lsn = 0;
  is_closed = false;
  close_err = none;
  opts = small;
}

abbrev request : AppendRequest
request = record { ctx_err = none; payloads = (1 ∷ 2 ∷ []) ∷ (3 ∷ []) ∷ [] }

abbrev abandoned : AppendRequest
abandoned = record { ctx_err = some canceled; payloads = (4 ∷ []) ∷ [] }

request_run : (write_request request idle).0 ≡ ok (1 ∷ 2 ∷ [])
unfolding write_request write_record ◌>>=◌ get_active on_disk append encode frame checksum put_le
    crc_update write_at next_fault change overwrite
request_run = refl

write_request-gapless_example :
    (1 ∷ 2 ∷ [] ≡ lsns_from 1 2) × ((write_request request idle).1.next_lsn ≡ 1 + 2)
write_request-gapless_example =
    write_request-gapless request idle (1 ∷ 2 ∷ []) (omega arith) request_run

commit_run : acknowledged (commit (abandoned ∷ request ∷ []) idle).0 ≡ 1 ∷ 2 ∷ []
unfolding commit write_request write_record ◌>>=◌ get_active on_disk append encode frame checksum
    put_le crc_update write_at next_fault change overwrite sync sync_file
commit_run = refl

something_acknowledged : acknowledged (commit (abandoned ∷ request ∷ []) idle).0 ≢ []
something_acknowledged e = cc (commit_run, e)

commit-Published_example :
    ((commit (abandoned ∷ request ∷ []) idle).1.last_lsn
      ≡ pred_lsn (commit (abandoned ∷ request ∷ []) idle).1.next_lsn)
    × ((commit (abandoned ∷ request ∷ []) idle).1.pending_waiters ≡ [])
    × ((commit (abandoned ∷ request ∷ []) idle).1.notified ≡ 3 ∷ [])
commit-Published_example = commit-Published (abandoned ∷ request ∷ []) idle something_acknowledged

-- The second request needs a new segment.
commit-Capped_example : Capped 64 2 (commit (request ∷ request ∷ []) idle).1
commit-Capped_example =
    commit-Capped (request ∷ request ∷ []) idle 64 2
      ((omega arith, (omega arith, tt)), ((omega arith, (omega arith, tt)), tt)) (refl, omega arith)

abbrev events : List Event
events =
    appends (request ∷ [])
    ∷ cut_offset 2
    ∷ appends (abandoned ∷ request ∷ [])
    ∷ truncation 4
    ∷ flush
    ∷ []

history-InOrder_example : InOrder 1 (history events idle) (serve_all events idle).next_lsn
history-InOrder_example = history-InOrder events idle (omega arith)

deletable_run : deletable (1 ∷ 4 ∷ 9 ∷ 12 ∷ []) 10 ≡ 2
unfolding deletable
deletable_run = refl

deletable-EndsBelow_example : EndsBelow (1 ∷ 4 ∷ 9 ∷ 12 ∷ []) 10 1
deletable-EndsBelow_example =
    deletable-EndsBelow (1 ∷ 4 ∷ 9 ∷ 12 ∷ []) 10 1 (omega (arith, deletable_run))

boundary_index-IsBoundary_example :
    IsBoundary (1 ∷ 4 ∷ 9 ∷ 12 ∷ []) 6 (boundary_index (1 ∷ 4 ∷ 9 ∷ 12 ∷ []) 6)
boundary_index-IsBoundary_example = boundary_index-IsBoundary 1 (4 ∷ 9 ∷ 12 ∷ []) 6 (omega arith)

length-drain_example :
    length (drain (request ∷ abandoned ∷ request ∷ request ∷ request ∷ []) idle).0 ≡ 5
length-drain_example = length-drain (request ∷ abandoned ∷ request ∷ request ∷ request ∷ []) idle

close_log-closes_example :
    ((close_log (request ∷ []) idle).1.is_closed ≡ true)
    × ((close_log (request ∷ []) idle).1.active ≡ none)
    × ((close_log (request ∷ []) idle).1.pending_waiters ≡ [])
    × ((close_log (request ∷ []) idle).1.notified ≡ 3 ∷ [])
    × ((e : Error) × (admit (close_log (request ∷ []) idle).1 none ((1 ∷ []) ∷ []) ≡ err e))
    × (close_log [] (close_log (request ∷ []) idle).1 ≡ close_log (request ∷ []) idle)
close_log-closes_example = close_log-closes (request ∷ []) [] idle none ((1 ∷ []) ∷ []) refl

idle-Indexed : Indexed idle
idle-Indexed = record {
  ascending = (omega arith, omega arith);
  open_one = record {
    seg = record { file = 0; seg_name = b'1' ∷ []; base_lsn = 1; size = 28; last_lsn = 0 };
    there = refl;
    newest = refl;
    written = λ more. absurd (omega (arith, more));
  };
  first = inl refl;
}

serve_all-Indexed_example : Indexed (serve_all events idle)
serve_all-Indexed_example = serve_all-Indexed events idle idle-Indexed (omega arith)

-- Two records, and a third in a segment of its own.
abbrev filled : Wal
filled = serve_all (appends (request ∷ []) ∷ []) idle

cut_run : (do_cut 2 filled).0 ≡ ok tt
unfolding serve_all serve commit write_request write_record ◌>>=◌ get_active on_disk append encode
    frame checksum put_le crc_update write_at next_fault change overwrite sync sync_file do_cut
    boundary_index rewrite_from copy_records scan next read_header read_payload read_full
    crc_matches new_scanner remove_if_exists remove_all create_file rename_file sync_dir remove_file
    find read_section encode_header header_body name put_dec get_le close_file close finally
    on_error discard remove_segment_file new_header install_cut
cut_run = refl

abbrev last_segment : Segment
last_segment = record { file = 0; seg_name = b'1' ∷ []; base_lsn = 9; size = 28; last_lsn = 0 }

-- Three segments, the last one open.
abbrev long : Wal
long = record idle { segment_bases = 1 ∷ 4 ∷ 9 ∷ []; next_lsn = 12; active = some last_segment }

truncate_run : (do_truncate 9 long).0 ≡ ok tt
unfolding do_truncate ◌>>=◌ on_disk remove_all remove_segment_file remove_if_exists remove_file find
    next_fault sync_dir name put_dec deletable
truncate_run = refl
