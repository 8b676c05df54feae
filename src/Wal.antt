-- ===== src/Wal.antt =====
-- pkg/wal: the state of the log (the WAL struct of wal.go, options.go) and the calls that the parts of
-- the log share.
pub mod Append
pub mod Boundary
pub mod Recover
pub mod Writer
pub mod Same
pub mod Lsns
pub mod Publish
pub mod Capped
pub mod Shutdown
pub mod Indexed
pub mod Reader
pub mod Follower
pub mod Replay
pub mod Contents
pub mod Calls
pub mod Settings
pub mod Flusher
pub mod Reopen
pub mod Truncated
pub mod Cut
pub mod Index
pub mod History
mod Tests
use go_wallib.Base.{
  ℕ, ◌+◌, ◌-◌, ◌*◌, ◌%◌, ◌^◌, Bool, true, false, Option, none, some, List, [], ◌∷◌,
}
use go_wallib.Errors.{Error, panicked, Result, ok, err}
use go_wallib.Exec.{Exec, pure, raise, gets, modify, ◌>>=◌, ◌>>◌}
use go_wallib.Disk.{Disk}
use go_wallib.Segment.Files.{Segment}

pub data SyncPolicy : Type 0 where
  sync_immediate sync_batched sync_interval : SyncPolicy

pub record Options : Type 0 where
  pub max_segment_size : ℕ
  pub max_record_size : ℕ
  pub batch_size : ℕ
  pub batch_timeout : ℕ
  pub flush_interval : ℕ
  pub max_operation_timeout : ℕ
  pub sync_policy : SyncPolicy

-- Durations are nanoseconds.
unfoldable pub default_options : Options
default_options = record {
  max_segment_size = 64 * 2 ^ 20;
  max_record_size = 64 * 2 ^ 20;
  batch_size = 256;
  batch_timeout = 2_000_000;
  flush_interval = 100_000_000;
  max_operation_timeout = 30_000_000_000;
  sync_policy = sync_batched;
}

-- The log with the directory that it works on. `pending_waiters` and `notified` are the channels of
-- the followers that wait and of those that have been woken.
pub record Wal : Type 0 where
  pub disk : Disk
  pub active : Option Segment
  pub segment_bases : List ℕ
  pub pending_waiters : List ℕ
  pub notified : List ℕ
  pub next_lsn : ℕ
  pub first_lsn : ℕ
  pub last_lsn : ℕ
  pub is_closed : Bool
  pub close_err : Option Error
  pub opts : Options

unfoldable pub on_disk : {A : Type 0} → Exec Disk A → Exec Wal A
on_disk m w = let (r, d) = m w.disk in (r, record w { disk = d })

-- `w.active` where the source reads through the pointer.
unfoldable pub get_active : Exec Wal Segment
get_active w = elim w.active [ none ↦ (err panicked, w) | some seg ↦ (ok seg, w) ]

unfoldable pub install_active : Segment → Wal → Wal
install_active seg w = record w { active = some seg }

-- `lsn++` on uint64.
abbrev pub succ_lsn : ℕ → ℕ
succ_lsn lsn = (lsn + 1) % 2 ^ 64
