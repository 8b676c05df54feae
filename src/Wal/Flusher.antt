-- ===== src/Wal/Flusher.antt =====
-- What the interval flusher does to a log: nothing is lost, and behind a tick everything is synced.
use go_wallib.Base.{◌≡◌, Bool, true, false, List, [], ◌∷◌, append-nil}
use mathlib.Core.Path.{subst}
use go_wallib.Record.{Record}
use go_wallib.Wal.{Wal}
use go_wallib.Wal.Settings.{Tick, taken, log_closed, request_interval_flush, flush_loop}
use go_wallib.Wal.Contents.{Flushed}
use go_wallib.Wal.Contents.Finish.{Published}
use go_wallib.Wal.Contents.Runs.{flush-Added}
use go_wallib.Wal.Contents.Durable.{flush-Flushed}

-- Whether the writer took one of the requests, before the log was closed.
abbrev pub took_one : List Tick → Bool
took_one [] = false
took_one (taken ∷ ticks) = true
took_one (log_closed ∷ ticks) = false

flush-Published :
    (w : Wal) (recs : List Record)
    → Published w recs
    → Published (request_interval_flush taken w) recs
unfolding request_interval_flush
flush-Published w recs p = subst (Published _) (append-nil recs) (flush-Added w recs p).holds

flush_loop-Published :
    (ticks : List Tick) (w : Wal) (recs : List Record)
    → Published w recs
    → Published (flush_loop ticks w) recs
unfolding flush_loop request_interval_flush
flush_loop-Published [] w recs p = p
flush_loop-Published (taken ∷ ticks) w recs p =
    flush_loop-Published ticks _ recs (flush-Published w recs p)
flush_loop-Published (log_closed ∷ ticks) w recs p = p

stays-Flushed :
    (ticks : List Tick) (w : Wal) (recs : List Record)
    → Published w recs
    → Flushed w
    → Flushed (flush_loop ticks w)
unfolding flush_loop request_interval_flush
stays-Flushed [] w recs p f = f
stays-Flushed (taken ∷ ticks) w recs p f =
    stays-Flushed ticks _ recs (flush-Published w recs p) (flush-Flushed w recs p.log)
stays-Flushed (log_closed ∷ ticks) w recs p f = f

-- On a directory in which nothing fails, the ticks of the interval flusher leave a log that holds the
-- records that it held; if the writer took one of their requests before the log was closed, the active
-- file is synced.
pub flush_loop-Flushed :
    (ticks : List Tick) (w : Wal) (recs : List Record)
    → Published w recs
    → Published (flush_loop ticks w) recs × (took_one ticks ≡ true → Flushed (flush_loop ticks w))
unfolding flush_loop request_interval_flush
flush_loop-Flushed [] w recs p = (p, λ e. absurd (cc e))
flush_loop-Flushed (taken ∷ ticks) w recs p =
    let q = flush-Published w recs p in
    (
      flush_loop-Published ticks _ recs q,
      λ e. stays-Flushed ticks _ recs q (flush-Flushed w recs p.log),
    )
flush_loop-Flushed (log_closed ∷ ticks) w recs p = (p, λ e. absurd (cc e))
