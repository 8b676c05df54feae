-- ===== src/Wal/Calls/Closed.antt =====
-- A closed log refuses every call.
mod Tests
use go_wallib.Base.{
  ℕ, ◌≡◌, refl, Bool, true, false, not, Option, none, some, List, [], ◌∷◌, Bool-cases, inl, inr,
  if◌then◌else◌,
}
use go_wallib.Errors.{Error, closed, record_too_large, Result, ok, err}
use go_wallib.Disk.{Disk}
use go_wallib.Wal.{Wal}
use go_wallib.Wal.Append.{AppendRequest}
use go_wallib.Wal.Writer.{all_small, close_log}
use go_wallib.Wal.Shutdown.{close_log-closes}
use go_wallib.Wal.Reader.{Reader, new_reader}
use go_wallib.Wal.Follower.{Follower, new_follower}
use go_wallib.Wal.Calls.{
  Enqueued, queued, gave_up, Neighbours, enqueue, wait_result, append_batch, Handed, sync_context,
  submit_boundary_op, truncate_context, cut_offset_context,
}

-- A call of each kind.
pub record Attempts : Type 0 where
  pub seen : Enqueued
  pub ctx_err : Option Error
  pub near : Neighbours
  pub payloads : List (List ℕ)
  pub handing : Handed
  pub lsn : ℕ
  pub others : List (Disk → Disk)
  pub follow : Bool

-- Each of them fails and changes nothing: an append for its size or since the log is closed, the others
-- since the log is closed.
pub record Refused (a : Attempts) (w : Wal) : Type 0 where
  pub of_append :
      append_batch a.seen a.ctx_err a.near a.payloads w
      ≡ (err (if all_small w.opts.max_record_size a.payloads then closed else record_too_large), w)
  pub of_sync : sync_context a.handing w ≡ (err closed, w)
  pub of_truncate : truncate_context a.ctx_err a.handing a.lsn w ≡ (err closed, w)
  pub of_cut : cut_offset_context a.ctx_err a.handing a.lsn w ≡ (err closed, w)
  pub of_reader : new_reader w a.others a.lsn ≡ err closed
  pub of_follower : new_follower w a.lsn a.follow ≡ err closed

enqueue-closed : (w : Wal) (seen : Enqueued) → w.is_closed ≡ true → enqueue w seen ≡ err closed
unfolding enqueue
enqueue-closed w queued e = rw e refl
enqueue-closed w (gave_up x) e = rw e refl

append_batch-closed :
    (a : Attempts) (w : Wal)
    → w.is_closed ≡ true
    → append_batch a.seen a.ctx_err a.near a.payloads w
      ≡ (err (if all_small w.opts.max_record_size a.payloads then closed else record_too_large), w)
unfolding append_batch wait_result
append_batch-closed a w e = elim (Bool-cases (all_small w.opts.max_record_size a.payloads)) [
  | inl small ↦ rw (small, enqueue-closed w a.seen e) refl
  | inr large ↦ rw large refl
]

closed-Refused : (a : Attempts) (w : Wal) → w.is_closed ≡ true → Refused a w
unfolding sync_context submit_boundary_op truncate_context cut_offset_context new_reader
    new_follower
closed-Refused a w e = record {
  of_append = append_batch-closed a w e;
  of_sync = rw e refl;
  of_truncate = rw e refl;
  of_cut = rw e refl;
  of_reader = rw e refl;
  of_follower = rw e refl;
}

-- After Close of an open log, whatever is queued and whatever fails: an append fails for the size of a
-- payload or with ErrClosed, a sync, a truncation, a cut, a new reader and a new follower fail with
-- ErrClosed, whatever their contexts and selects say, and none of them changes anything.
pub close_log-Refused :
    (queue : List AppendRequest) (w : Wal) (a : Attempts)
    → w.is_closed ≡ false
    → Refused a (close_log queue w).1
close_log-Refused queue w a e =
    closed-Refused a (close_log queue w).1 (close_log-closes queue [] w none [] e).0
