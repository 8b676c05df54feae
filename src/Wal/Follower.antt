-- ===== src/Wal/Follower.antt =====
-- pkg/wal/follower.go: the cursor that goes on when new records are committed. A consumer is a function
-- of the entries that it has got: whether it wants more. The bridge of `RecordsChan` is such a consumer.
pub mod Gapless
mod Tests
use go_wallib.Base.{
  ℕ, zero, suc, ◌+◌, ◌-◌, Bool, true, false, not, Option, none, some, List, [], ◌∷◌, ◌++◌, ltb,
  ◌==◌, ◌&&◌, ◌||◌, if◌then◌else◌,
}
use go_wallib.Errors.{Error, closed, truncated, Result, ok, err}
use go_wallib.Disk.{Disk}
use go_wallib.Wal.{Wal, succ_lsn}
use go_wallib.Wal.Reader.{Entry, Shared, Reader, reader_snapshot, new_reader_from, next}

pub record Follower : Type 0 where
  pub max_record : ℕ
  pub end_lsn : ℕ
  pub from_lsn : ℕ
  pub follow : Bool

-- `WAL.Follower`, with what its options have made of `follow`.
unfoldable pub new_follower : Wal → ℕ → Bool → Result Follower
unfolding reader_snapshot
new_follower w from_lsn follow =
    if w.is_closed
    then err closed
    else ok (record {
      max_record = w.opts.max_record_size;
      end_lsn = (reader_snapshot w).1;
      from_lsn = from_lsn;
      follow = follow;
    })

pub data ScanOutcome : Type 0 where
  scan_continue scan_stop scan_truncated : ScanOutcome
  scan_read_error : Error → ScanOutcome

-- The local variables of `Records`, and the entries that the consumer has got.
pub record Progress : Type 0 where
  pub high_water : ℕ
  pub delivered : Bool
  pub got : List Entry

-- Whether there is a position to lose: something was delivered, or a start was asked for.
abbrev pub has_position : ℕ → Progress → Bool
has_position from_lsn p = p.delivered || ltb 0 from_lsn

abbrev pub advance : Entry → Progress → Progress
advance entry p = record { high_water = entry.lsn; delivered = true; got = p.got ++ (entry ∷ []) }

-- What a batch leaves: its outcome, `none` when the fuel is used up.
abbrev pub Batch : Type 0
Batch = Option ScanOutcome × Progress

-- The end of the reader.
unfoldable pub batch_end : Option Error → Progress → Batch
batch_end none p = (some scan_continue, p)
batch_end (some e) p = (some (scan_read_error e), p)

-- An entry, and the rest of the loop: a gap ends the batch, and so does a consumer that wants no more.
unfoldable pub deliver : (List Entry → Bool) → ℕ → (Progress → Batch) → Entry → Progress → Batch
deliver wants from_lsn again entry p =
    if ltb (succ_lsn p.high_water) entry.lsn && has_position from_lsn p
    then (some scan_truncated, p)
    else if wants (advance entry p).got
    then again (advance entry p)
    else (some scan_stop, advance entry p)

unfoldable pub batch_round :
    (List Entry → Bool) → ℕ → (Progress → Reader → Batch) → Progress → Option Bool × Reader → Batch
unfolding batch_end deliver
batch_round wants from_lsn again p (none, r) = (none, p)
batch_round wants from_lsn again p (some false, r) = batch_end r.failure p
batch_round wants from_lsn again p (some true, r) =
    deliver wants from_lsn (λ p'. again p' r) r.current p

-- `for reader.Next()` of `scanBatch`, for at most n rounds.
unfoldable pub batch_loop : (List Entry → Bool) → ℕ → ℕ → ℕ → Progress → Reader → Batch
unfolding batch_round next
batch_loop wants from_lsn fuel zero p r = (none, p)
batch_loop wants from_lsn fuel (suc n) p r =
    batch_round wants from_lsn (batch_loop wants from_lsn fuel n) p (next fuel r)

unfoldable pub scan_batch :
    Follower → (List Entry → Bool) → ℕ → ℕ → Shared → List (List ℕ) → ℕ → Progress → Batch
unfolding batch_loop new_reader_from
scan_batch f wants fuel n shared segment_names end_lsn p =
    batch_loop wants f.from_lsn fuel n p
      (new_reader_from shared segment_names (succ_lsn p.high_water) end_lsn f.max_record)

pub data CommitWait : Type 0 where
  commit_woken commit_canceled commit_closed : CommitWait

-- What the two selects of `awaitCommit` see: the writer takes the subscription, the context is done, or
-- the log is closed; then the channel is closed, or the context is done.
pub data Offered : Type 0 where
  taken given_up log_closed : Offered

pub data Waited : Type 0 where
  notified waited_out : Waited

unfoldable pub await_commit : Offered → Waited → CommitWait
await_commit taken notified = commit_woken
await_commit taken waited_out = commit_canceled
await_commit given_up w = commit_canceled
await_commit log_closed w = commit_closed

-- Whether the loop goes on, and else its error. Close by the user is no error.
unfoldable pub wait_for_commit : CommitWait → Bool → Error → Bool × Option Error
wait_for_commit commit_woken user_closed ctx_err = (true, none)
wait_for_commit commit_closed user_closed ctx_err = (false, some closed)
wait_for_commit commit_canceled user_closed ctx_err =
    (false, if user_closed then none else some ctx_err)

-- What one round of the loop of `Records` meets: the log at the snapshot, what others do to the files
-- while it reads, and what it sees while it waits.
pub record Round : Type 0 where
  pub wal : Wal
  pub others : List (Disk → Disk)
  pub offered : Offered
  pub waited : Waited
  pub user_closed : Bool
  pub ctx_err : Error

-- How the loop stands: at its end, with `f.err`; waiting for a round to come; or out of fuel.
pub data Ending : Type 0 where
  ended : Option Error → Ending
  waiting : Ending
  unfinished : Ending

unfoldable pub go_on :
    (Progress → Ending × Progress) → Bool × Option Error → Progress → Ending × Progress
go_on again (true, e) p = again p
go_on again (false, e) p = (ended e, p)

-- After a batch.
unfoldable pub after_batch :
    Follower → Round → (Progress → Ending × Progress) → Batch → Ending × Progress
unfolding go_on wait_for_commit await_commit
after_batch f round again (none, p) = (unfinished, p)
after_batch f round again (some scan_stop, p) = (ended none, p)
after_batch f round again (some scan_truncated, p) = (ended (some truncated), p)
after_batch f round again (some (scan_read_error e), p) = (ended (some e), p)
after_batch f round again (some scan_continue, p) =
    if not f.follow
    then (ended none, p)
    else go_on again
        (wait_for_commit (await_commit round.offered round.waited) round.user_closed round.ctx_err)
        p

abbrev pub round_end : Follower → Wal → ℕ
round_end f w = if not f.follow then f.end_lsn else (reader_snapshot w).1

-- The rounds of the loop of `Records`: a position that the log has given up is an error.
unfoldable pub rounds_from :
    Follower → (List Entry → Bool) → ℕ → ℕ → List Round → Progress → Ending × Progress
unfolding after_batch scan_batch reader_snapshot
rounds_from f wants fuel n [] p = (waiting, p)
rounds_from f wants fuel n (round ∷ rounds) p =
    let (names, tail, first_lsn) = reader_snapshot round.wal in
    if has_position f.from_lsn p && ltb (succ_lsn p.high_water) first_lsn
    then (ended (some truncated), p)
    else after_batch f round (rounds_from f wants fuel n rounds) (
        scan_batch f wants fuel n (record { disk = round.wal.disk; others = round.others }) names
          (round_end f round.wal) p)

abbrev pub started : ℕ → Progress
started from_lsn = record { high_water = from_lsn - 1; delivered = false; got = [] }

-- `Records`, for a follower that its user has closed already or not.
unfoldable pub records :
    Follower → Bool → (List Entry → Bool) → ℕ → ℕ → List Round → Ending × Progress
unfolding rounds_from
records f already_closed wants fuel n rounds =
    if already_closed
    then (ended none, started f.from_lsn)
    else rounds_from f wants fuel n rounds (started f.from_lsn)
