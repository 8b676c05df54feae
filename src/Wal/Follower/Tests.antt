-- ===== src/Wal/Follower/Tests.antt =====
-- A run of a follower, and its theorem at a concrete input.
use go_wallib.Base.{
  ℕ, ◌+◌, ◌<◌, ◌≡◌, true, false, some, none, List, [], ◌∷◌, ◌++◌, arith, replicate,
}
use go_wallib.Errors.{canceled}
use go_wallib.Record.{Record}
use go_wallib.Record.RoundTrip.{frames}
use go_wallib.Segment.Name.{name}
use go_wallib.Wal.{Wal, default_options}
use go_wallib.Wal.Follower.{Follower, Round, records, taken, given_up, notified, waited_out}
use go_wallib.Wal.Follower.Gapless.{Consecutive, records-Consecutive}

abbrev some_record : ℕ → Record
some_record lsn = record { lsn = lsn; payload = lsn ∷ 7 ∷ [] }

-- The log with these records, all of them committed.
abbrev log_of : List Record → ℕ → Wal
log_of rs last = record {
  disk = record {
    files =
        record { linked = some (name 1); content = replicate 28 0 ++ frames rs; synced = 28 } ∷ [];
    faults = [];
    now = 0;
  };
  active = none;
  segment_bases = 1 ∷ [];
  pending_waiters = [];
  notified = [];
  next_lsn = last + 1;
  first_lsn = 1;
  last_lsn = last;
  is_closed = false;
  close_err = none;
  opts = default_options;
}

-- A round with two records that ends when the follower is woken, and one with a third that ends when
-- its context does.
abbrev two_rounds : List Round
two_rounds =
    record {
      wal = log_of (some_record 1 ∷ some_record 2 ∷ []) 2;
      others = [];
      offered = taken;
      waited = notified;
      user_closed = false;
      ctx_err = canceled;
    }
    ∷ record {
      wal = log_of (some_record 1 ∷ some_record 2 ∷ some_record 3 ∷ []) 3;
      others = [];
      offered = given_up;
      waited = waited_out;
      user_closed = false;
      ctx_err = canceled;
    }
    ∷ []

abbrev from_two : Follower
from_two = record { max_record = 100; end_lsn = 2; from_lsn = 2; follow = true }

records-Consecutive_example :
    (start : ℕ) × Consecutive start (records from_two false (λ _. true) 20 20 two_rounds).1.got
    × (0 < 2 → start ≡ 2)
records-Consecutive_example =
    records-Consecutive from_two false (λ _. true) 20 20 two_rounds (omega arith) (omega arith)
      (omega arith, (omega arith, tt))
