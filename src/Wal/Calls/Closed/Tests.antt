-- ===== src/Wal/Calls/Closed/Tests.antt =====
-- Calls on a log that was closed.
use go_wallib.Base.{true, none, some, List, [], ◌∷◌}
use go_wallib.Errors.{canceled}
use go_wallib.Wal.{default_options}
use go_wallib.Wal.Append.{AppendRequest}
use go_wallib.Wal.Writer.{close_log}
use go_wallib.Wal.Recover.{open_log}
use go_wallib.Wal.Calls.{queued, handed}
use go_wallib.Wal.Calls.Closed.{Attempts, Refused, close_log-Refused}
use go_wallib.Wal.Reader.Still.{calm}
use go_wallib.Wal.Contents.Open.{opened-Fresh}

abbrev queue : List AppendRequest
queue = record { ctx_err = none; payloads = (1 ∷ 2 ∷ []) ∷ [] } ∷ []

abbrev attempts : Attempts
attempts = record {
  seen = queued;
  ctx_err = some canceled;
  near = record { before = []; after = [] };
  payloads = (3 ∷ []) ∷ [];
  handing = handed;
  lsn = 1;
  others = [];
  follow = true;
}

close_log-Refused_example :
    Refused attempts (close_log queue (open_log (calm [] 5) default_options).1).1
close_log-Refused_example =
    close_log-Refused queue (open_log (calm [] 5) default_options).1 attempts
      (opened-Fresh 5 default_options).1.opened
