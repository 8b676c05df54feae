-- ===== src/Wal/Reopen.antt =====
-- Opening a log on the files that an earlier one left: recovery, in pkg/wal/wal.go, on a directory in
-- which nothing fails.
pub mod Shelf
pub mod Segments
pub mod Collect
pub mod Gap
pub mod Repair
pub mod Tally
pub mod Unlink
pub mod Last
pub mod Trailing
pub mod Keep
pub mod Prune
pub mod Listing
pub mod Numbers
pub mod Install
pub mod State
pub mod Whole
pub mod Crash
pub mod Survive
pub mod Runs
mod Tests
