-- ===== src/Wal/Settings.antt =====
-- The options that a caller of Open hands over (pkg/wal/options.go), and Open with them; the calls that
-- make their own context, and the getters (pkg/wal/wal.go); the interval flusher (pkg/wal/writer.go).
use go_wallib.Base.{ℕ, Bool, Option, none, some, List, [], ◌∷◌, length, ◌==◌, ◌||◌, if◌then◌else◌}
use go_wallib.Errors.{Error, deadline_exceeded, Result, ok, err}
use go_wallib.Exec.{Exec}
use go_wallib.Disk.{Disk, close_dir}
use go_wallib.Wal.{Wal, Options, SyncPolicy, default_options, on_disk}
use go_wallib.Wal.Writer.{sync_active}
use go_wallib.Wal.Recover.{RecoveryReport, open_log}
use go_wallib.Wal.Calls.{Handed, sync_context, truncate_context, cut_offset_context}

-- `Option`. Sizes and durations are not negative.
pub data Setting : Type 0 where
  with_sync_policy : SyncPolicy → Setting
  with_max_segment_size : ℕ → Setting
  with_max_record_size : ℕ → Setting
  with_batch_size : ℕ → Setting
  with_batch_timeout : ℕ → Setting
  with_flush_interval : ℕ → Setting
  with_max_operation_timeout : ℕ → Setting

unfoldable pub apply_setting : Setting → Options → Options
apply_setting (with_sync_policy policy) o = record o { sync_policy = policy }
apply_setting (with_max_segment_size bytes) o = record o { max_segment_size = bytes }
apply_setting (with_max_record_size bytes) o = record o { max_record_size = bytes }
apply_setting (with_batch_size count) o = record o { batch_size = count }
apply_setting (with_batch_timeout window) o = record o { batch_timeout = window }
apply_setting (with_flush_interval period) o = record o { flush_interval = period }
apply_setting (with_max_operation_timeout timeout) o = record o { max_operation_timeout = timeout }

unfoldable pub apply_settings : List Setting → Options → Options
unfolding apply_setting
apply_settings [] o = o
apply_settings (s ∷ settings) o = apply_settings settings (apply_setting s o)

-- The directory is closed when recovery fails.
abbrev pub close_failed : Result RecoveryReport × Wal → Result RecoveryReport × Wal
close_failed (ok report, w) = (ok report, w)
close_failed (err e, w) = (err e, (on_disk close_dir w).1)

unfoldable pub open_with : Disk → List Setting → Result RecoveryReport × Wal
unfolding apply_settings open_log
open_with disk settings = close_failed (open_log disk (apply_settings settings default_options))

-- The context of these calls is done when the timeout of the options has passed.
unfoldable pub sync_call : Handed → Exec Wal Unit
unfolding sync_context
sync_call seen = sync_context seen

-- What `ctx.Err()` says when the boundary operation looks: a context with no time is done at once, and
-- `late` says whether the timeout has passed by then.
abbrev pub timeout_err : Bool → ℕ → Option Error
timeout_err late timeout = if late || timeout == 0 then some deadline_exceeded else none

unfoldable pub truncate_call : Bool → Handed → ℕ → Exec Wal Unit
unfolding truncate_context
truncate_call late seen up_to w =
    truncate_context (timeout_err late w.opts.max_operation_timeout) seen up_to w

unfoldable pub cut_offset_call : Bool → Handed → ℕ → Exec Wal Unit
unfolding cut_offset_context
cut_offset_call late seen up_to w =
    cut_offset_context (timeout_err late w.opts.max_operation_timeout) seen up_to w

-- What the select of `requestIntervalFlush` sees: the writer takes the request, or the log is closed.
pub data Tick : Type 0 where
  taken log_closed : Tick

-- A failed flush is only logged.
unfoldable pub request_interval_flush : Tick → Wal → Wal
unfolding sync_active
request_interval_flush taken w = (sync_active w).1
request_interval_flush log_closed w = w

-- The ticks of the loop, which ends when the log is closed.
unfoldable pub flush_loop : List Tick → Wal → Wal
unfolding request_interval_flush
flush_loop [] w = w
flush_loop (taken ∷ ticks) w = flush_loop ticks (request_interval_flush taken w)
flush_loop (log_closed ∷ ticks) w = request_interval_flush log_closed w

abbrev pub first_lsn_now : Wal → ℕ
first_lsn_now w = w.first_lsn

abbrev pub last_lsn_now : Wal → ℕ
last_lsn_now w = w.last_lsn

abbrev pub segment_count : Wal → ℕ
segment_count w = length w.segment_bases
