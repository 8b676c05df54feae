-- ===== src/Lib.antt =====
-- go-wallib, a write-ahead log in Go: its record framing, its segment files, and the log itself.
--
-- The program has three packages. internal/record frames one record (CRC32C, length, LSN, payload) and
-- scans frames back. internal/segment keeps the records of a range of LSNs in one file with a header;
-- the file is named by the first LSN. pkg/wal has the log: one writer goroutine serves appends,
-- flushes, Truncate, CutOffset and the followers' subscriptions one by one, and Open recovers the log
-- from the directory. Readers and followers read the segment files beside the writer.
--
-- Which file models what:
--   Bytes            encoding/binary and hash/crc32 as the packages use them; CRC32C is computed.
--   Record           internal/record/record.go (Encode) and scanner.go (Scanner.Next).
--   Record/Step      one call of Next; Record/RoundTrip and Record/Sound: whole scans.
--   Disk             the directory and its files (os.Root, os.File).
--   Segment/Header   internal/segment/header.go (EncodeHeader, DecodeHeader).
--   Segment/Name     the file names of internal/segment/dir.go (Name, ParseBaseLSN).
--   Segment/Dir      the rest of dir.go (List, RemoveStaleTempFiles); Segment/Listed: what List gives.
--   Segment/Files    internal/segment/segment.go (Create, Open, Append, Scan, TruncateTo, RewriteFrom).
--   Segment/Content  what a segment file holds, across appends and scans.
--   Wal              the WAL struct of pkg/wal/wal.go and the options of pkg/wal/options.go.
--   Wal/Append       the append path of pkg/wal/writer.go (commit, writeRequest, roll, finishBatch).
--   Wal/Boundary     Truncate and CutOffset of writer.go (doTruncate, doCut).
--   Wal/Recover      recovery, in wal.go (recover, openAndScanSegments, reconcileBoundary).
--   Wal/Writer       writerLoop, gather and drain of writer.go, Close of wal.go.
--   Wal/Reader       Reader of pkg/wal/reader.go; Wal/Replay: Replay of that file.
--   Wal/Follower     pkg/wal/follower.go, and awaitCommit of writer.go.
--   Wal/Reader/Still, Exact, Complete   a reader in a directory that nobody changes.
--   Wal/Reader/Window, Wal/Follower/Gapless   readers and followers whatever happens meanwhile.
--   Wal/Same, Lsns   what operations leave alone, and the LSNs that appends assign.
--   Wal/Publish, Index, History   commits, the choice of segments to delete or rewrite, and whole runs.
--   Wal/Calls        Append, SyncContext, TruncateContext, CutOffsetContext of wal.go, AppendBatch of writer.go.
--   Wal/Settings     the setters of options.go and Open with them; Sync, Truncate, CutOffset and the getters of
--                    wal.go; the interval flusher of writer.go; Wal/Flusher: what its ticks do to a log.
--   Wal/Contents     what the log holds as a list of records, on a directory in which nothing fails: appends,
--                    commits, runs, and reading back.
--   Wal/Contents/Chain, Durable   how the segments follow one another, and what is synced behind a commit.
--   Wal/Reopen       opening a log on the files that an earlier one left, in a directory in which nothing
--                    fails: Shelf has what the files must hold, Crash what is left of them when the
--                    system stops, Listing, Segments, Collect, Repair, Tally, Keep, Prune and State the
--                    steps of recovery, Whole and Survive the whole of it, Runs a log from its creation
--                    through a crash to the next reader, Gap a log with a segment missing.
--   Wal/Contents/Rewrite   the replacement that a cut of a segment writes.
--   Wal/Truncated    what Truncate leaves of a log: files and records.
--   Wal/Cut          what CutOffset leaves of one: Parts, Sides and Around the records and the names on
--                    either side of the cut, Below, Everything, Boundary and Source its branches, Run
--                    the whole of it.
--   Wal/Indexed      the index of segments: the invariant, appends, cuts, and runs of the writer.
--   Wal/Capped       the roll rule and the size of the active file.
--   Wal/Shutdown     Close of wal.go with drain of writer.go.
--   Segment/Bases, Exec/Yields   what is known of the result of code that succeeds.
--   Base, Errors, Exec   shared names, the errors, and code that changes a state and may fail.
-- A module Tests holds runs of its parent and its theorems at concrete inputs.
--
-- How state and operations correspond. A Go method that changes an object and returns an error is an
-- `Exec` over that object: it returns a value or an error, and the state in either case, so what was
-- changed before a failure stays changed. A segment is a record with a handle of its file, and a
-- method that changes it returns the new one. The log carries the directory. The writer goroutine
-- serves one request at a time; `serve` is one round of its loop, and a run is a list of events. Two
-- mutexes guard fields that only the writer changes; they have no counterpart. Each operation on a file
-- may fail, as the list of faults in `Disk` says: a failed write leaves any front of its bytes, and a
-- failed read returns any front. `panicked` stands where the source would panic.
--
-- Numbers. LSNs and sizes are native natural numbers. The LSN arithmetic wraps at 2 ^ 64 as uint64
-- does. Offsets are int64 in the source; they stay natural numbers, since none is negative. Lengths and
-- CRCs are cut to 32 bits where the source does it. Durations are nanoseconds.
--
-- Fuel. `scan` runs its loop once more than there are bytes, and each round takes sixteen at least;
-- the theorems on scans say what comes out, so the fuel is enough. `drain` has a round for each queued
-- request, and each round takes one. The loops of a
-- reader (Next, openNext, and a caller's loop over Next) run on fuel, and say so when it is used up; the
-- theorem on a directory that stays as it is says how much is enough. Elsewhere others may change the
-- directory for ever, and the source has no bound either.
--
-- A reader runs beside the writer: before each of its file operations, a function given with the run may
-- change the directory in any way. A follower meets the log as it is at each snapshot, and is told what
-- its selects see; so is a call of a user.
--
-- Not modelled: channels, contexts, timers and the wait groups around the writer; the logger and its
-- setter; RecordsChan. An operation on the directory is taken to be durable in the order of the
-- operations. A crash leaves of each file what was synced and some front of what was appended behind it;
-- it does not leave other bytes there.
pub mod Base
pub mod Bytes
pub mod Errors
pub mod Exec
pub mod Record
pub mod Disk
pub mod Segment
pub mod Wal
