-- ===== src/Wal/Calls/Returns/Tests.antt =====
-- An append beside two other requests.
use go_wallib.Base.{ℕ, ◌+◌, ◌≡◌, ap, none, some, [], ◌∷◌, ◌++◌, arith}
use go_wallib.Errors.{canceled, ok}
use go_wallib.Wal.{Wal, Options, default_options}
use go_wallib.Wal.Recover.{RecoveryReport, open_log}
use go_wallib.Wal.Calls.{Neighbours, queued, append}
use go_wallib.Wal.Calls.Returns.{append-Published}
use go_wallib.Wal.Reader.Still.{calm}
use go_wallib.Wal.Contents.Commit.{batch_records}
use go_wallib.Wal.Contents.Finish.{Published}
use go_wallib.Wal.Contents.Open.{Fresh, opened-Fresh}

abbrev near : Neighbours
near = record {
  before = record { ctx_err = none; payloads = (1 ∷ 2 ∷ []) ∷ (3 ∷ []) ∷ [] } ∷ [];
  after = record { ctx_err = some canceled; payloads = (4 ∷ []) ∷ [] } ∷ [];
}

abbrev opened : Wal
opened = (open_log (calm [] 5) default_options).1

fresh : (report : RecoveryReport) × Fresh default_options report opened
fresh = opened-Fresh 5 default_options

limit : opened.opts.max_record_size ≡ 67_108_864
unfolding default_options
limit = ap (λ (o : Options). o.max_record_size) fresh.1.options

append-Published_example :
    (lsn : ℕ) × ((append queued none near (9 ∷ []) opened).0 ≡ ok lsn)
    × Published (append queued none near (9 ∷ []) opened).1 (
        []
        ++ (batch_records opened.next_lsn near.before
            ++ (record { lsn = lsn; payload = 9 ∷ [] } ∷ batch_records (lsn + 1) near.after)))
append-Published_example =
    append-Published near (9 ∷ []) opened [] fresh.1.holds fresh.1.opened (omega (arith, limit))
      ((omega (arith, limit), (omega (arith, limit), tt)), tt) ((omega (arith, limit), tt), tt)
      (omega (arith, limit)) (omega (arith, fresh.1.next))
