-- ===== src/Wal/Writer.antt =====
-- The writer goroutine of pkg/wal/writer.go as a state machine: each request that its loop takes from
-- a channel is an event, and one event is served whole before the next.
use go_wallib.Base.{
  ℕ, zero, suc, ◌-◌, Bool, true, false, not, Option, none, some, List, [], ◌∷◌, ◌++◌, length, take,
  drop, ltb, leb, ◌&&◌, if◌then◌else◌,
}
use go_wallib.Errors.{Error, closed, record_too_large, Result, ok, err}
use go_wallib.Exec.{Exec}
use go_wallib.Record.{encoded_size}
use go_wallib.Disk.{close_dir}
use go_wallib.Segment.Files.{sync, close}
use go_wallib.Wal.{Wal, Options, on_disk}
use go_wallib.Wal.Append.{AppendRequest, commit, wake_followers}
use go_wallib.Wal.Boundary.{do_truncate, do_cut}

-- A follower's subscription: the channel to close, and the highest LSN that it has consumed.
pub record Wakeup : Type 0 where
  pub notify : ℕ
  pub from : ℕ

unfoldable pub handle_subscribe : Wakeup → Wal → Wal
handle_subscribe sub w =
    if ltb sub.from w.last_lsn
    then record w { notified = w.notified ++ (sub.notify ∷ []) }
    else record w { pending_waiters = w.pending_waiters ++ (sub.notify ∷ []) }

unfoldable pub sync_active : Exec Wal Unit
sync_active w = elim w.active [ none ↦ (ok tt, w) | some seg ↦ on_disk (sync seg) w ]

-- A failed flush is only logged.
unfoldable pub final_flush : Wal → Wal
unfolding sync_active
final_flush w = (sync_active w).1

-- A group commit takes what is queued, up to the batch size; the rest stays queued.
abbrev room : Options → ℕ
room opts = opts.batch_size - 1

unfoldable pub gather_non_blocking :
    Options → AppendRequest → List AppendRequest → List AppendRequest × List AppendRequest
gather_non_blocking opts request queue = (request ∷ take (room opts) queue, drop (room opts) queue)

-- `arrivals` says what the select sees in turn: a request, or the timer (`none`).
unfoldable pub gather_until_timeout :
    ℕ → List AppendRequest → List (Option AppendRequest) → List AppendRequest
gather_until_timeout batch_size batch [] = batch
gather_until_timeout batch_size batch (none ∷ arrivals) = batch
gather_until_timeout batch_size batch (some request ∷ arrivals) =
    let fuller = gather_until_timeout batch_size (batch ++ (request ∷ [])) arrivals in
    if ltb (length batch) batch_size then fuller else batch

-- `drain` commits what is still queued, batch after batch; each takes a request, so a round for each
-- is enough.
unfoldable pub drain_loop : ℕ → List AppendRequest → Wal → List (Result (List ℕ)) × Wal
drain_loop zero queue w = ([], w)
drain_loop (suc fuel) [] w = ([], w)
drain_loop (suc fuel) (request ∷ queue) w =
    let (batch, rest) = gather_non_blocking w.opts request queue in
    let (results, w') = commit batch w in
    let (others, w'') = drain_loop fuel rest w' in (results ++ others, w'')

unfoldable pub drain : List AppendRequest → Wal → List (Result (List ℕ)) × Wal
unfolding drain_loop gather_non_blocking
drain queue w = drain_loop (length queue) queue w

pub data Event : Type 0 where
  appends : List AppendRequest → Event
  flush : Event
  truncation : ℕ → Event
  cut_offset : ℕ → Event
  subscription : Wakeup → Event

pub data Reply : Type 0 where
  assigned : List (Result (List ℕ)) → Reply
  done : Result (Unit {0}) → Reply
  silent : Reply

abbrev replied : Result (Unit {0}) × Wal → Reply × Wal
replied (r, w) = (done r, w)

-- One round of `writerLoop`. `appends` carries the batch that `gather` made.
unfoldable pub serve : Event → Wal → Reply × Wal
unfolding handle_subscribe sync_active
serve (appends batch) w = let (results, w') = commit batch w in (assigned results, w')
serve flush w = replied (sync_active w)
serve (truncation up_to) w = replied (do_truncate up_to w)
serve (cut_offset up_to) w = replied (do_cut up_to w)
serve (subscription sub) w = (silent, handle_subscribe sub w)

-- The rounds of the loop.
unfoldable pub serve_all : List Event → Wal → Wal
unfolding serve
serve_all [] w = w
serve_all (e ∷ es) w = serve_all es (serve e w).1

-- The last round, on Close: what is queued, a flush, and the waiters.
unfoldable pub shut_down : List AppendRequest → Wal → Wal
unfolding drain final_flush wake_followers
shut_down queue w = wake_followers (final_flush (drain queue w).1)

abbrev error_of : Result (Unit {0}) → Option Error
error_of (ok _) = none
error_of (err e) = some e

-- `errors.Join`, of which the first error is kept.
abbrev join : Option Error → Option Error → Option Error
join none e = e
join (some e) _ = some e

abbrev pub outcome : Option Error → Result (Unit {0})
outcome none = ok tt
outcome (some e) = err e

unfoldable pub close_active : Wal → Wal
close_active w = elim w.active [
  | none ↦ w
  | some seg ↦
      (let (r, w') = on_disk (close seg) w in
        record w' { active = none; close_err = join w'.close_err (error_of r) })
]

unfoldable pub close_root : Wal → Wal
close_root w =
    let (r, w') = on_disk close_dir w in record w' { close_err = join w'.close_err (error_of r) }

-- `Close`, with the requests that were queued when it closed the channel. A later call returns what
-- the first one did.

unfoldable pub close_log : List AppendRequest → Exec Wal Unit
unfolding shut_down close_active close_root
close_log queue w = elim w.is_closed [
  | true ↦ (outcome w.close_err, w)
  | false ↦
      let w' = close_root (close_active (shut_down queue (record w { is_closed = true }))) in
      (outcome w'.close_err, w')
]

-- The check of `AppendBatch`, and that of `enqueue`.
unfoldable pub all_small : ℕ → List (List ℕ) → Bool
all_small max_record_size [] = true
all_small max_record_size (p ∷ ps) =
    leb (encoded_size (length p)) max_record_size && all_small max_record_size ps

unfoldable pub admit : Wal → Option Error → List (List ℕ) → Result AppendRequest
unfolding all_small
admit w ctx_err payloads =
    if not (all_small w.opts.max_record_size payloads)
    then err record_too_large
    else if w.is_closed
    then err closed
    else ok (record { ctx_err = ctx_err; payloads = payloads })
