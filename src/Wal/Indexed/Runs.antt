-- ===== src/Wal/Indexed/Runs.antt =====
-- The index of segments over any run of the writer.
use go_wallib.Base.{
  ◌+◌, ◌^◌, ◌<◌, arith, Option, none, some, List, [], ◌∷◌, ◌++◌, ltb, Bool, true, false,
  if◌then◌else◌,
}
use go_wallib.Errors.{Result, ok}
use go_wallib.Segment.Files.{Segment, sync}
use go_wallib.Wal.{Wal, on_disk}
use go_wallib.Wal.Writer.{
  Event, appends, flush, truncation, cut_offset, subscription, Wakeup, serve, serve_all,
  sync_active, handle_subscribe,
}
use go_wallib.Wal.History.{event_payloads, total_payloads, serve-Acks}
use go_wallib.Wal.Indexed.{Indexed, Indexed-disk, Leaves-Indexed}
use go_wallib.Wal.Indexed.Append.{commit-Indexed}
use go_wallib.Wal.Indexed.Truncate.{do_truncate-Indexed}
use go_wallib.Wal.Indexed.Cut.{do_cut-Indexed}

sync_active-Indexed : (w : Wal) → Indexed w → Indexed (sync_active w).1
unfolding sync_active on_disk
sync_active-Indexed w i = go w.active
  where
    go :
        (o : Option Segment)
        → Indexed
            (elim o as (λ _. Result (Unit {0}) × Wal) [
              | none ↦ (ok tt, w)
              | some seg ↦ on_disk (sync seg) w
            ]).1
    go none = i
    go (some seg) = Indexed-disk w _ i

handle_subscribe-Indexed : (sub : Wakeup) (w : Wal) → Indexed w → Indexed (handle_subscribe sub w)
unfolding handle_subscribe
handle_subscribe-Indexed sub w i = go (ltb sub.from w.last_lsn)
  where
    go :
        (b : Bool)
        → Indexed (
            if b
            then record w { notified = w.notified ++ (sub.notify ∷ []) }
            else record w { pending_waiters = w.pending_waiters ++ (sub.notify ∷ []) })
    go true = record { ascending = i.ascending; open_one = i.open_one; first = i.first }
    go false = record { ascending = i.ascending; open_one = i.open_one; first = i.first }

serve-Indexed :
    (e : Event) (w : Wal)
    → Indexed w
    → w.next_lsn + event_payloads e < 2 ^ 64
    → Indexed (serve e w).1
unfolding serve
serve-Indexed (appends batch) w i h = commit-Indexed batch w i h
serve-Indexed flush w i h = sync_active-Indexed w i
serve-Indexed (truncation up_to) w i h = Leaves-Indexed _ (do_truncate-Indexed up_to w i)
serve-Indexed (cut_offset up_to) w i h = Leaves-Indexed _ (do_cut-Indexed up_to w i)
serve-Indexed (subscription sub) w i h = handle_subscribe-Indexed sub w i

-- Over any sequence of appends, flushes, truncations, cuts and subscriptions, and with any failures of
-- file operations, the index stays well formed if it was: the bases of the segments ascend strictly
-- and none is above the next LSN; the active segment is the newest of the index, and starts no later
-- than its records; the log is empty or starts where its first segment does. The run appends fewer
-- payloads than the uint64 counter has room for.
pub serve_all-Indexed :
    (es : List Event) (w : Wal)
    → Indexed w
    → w.next_lsn + total_payloads es < 2 ^ 64
    → Indexed (serve_all es w)
unfolding serve_all
serve_all-Indexed [] w i h = i
serve_all-Indexed (e ∷ es) w i h =
    serve_all-Indexed es (serve e w).1 (serve-Indexed e w i (omega arith))
      (omega (arith, (serve-Acks e w (omega arith)).bound))
