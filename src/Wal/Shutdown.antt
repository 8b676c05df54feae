-- ===== src/Wal/Shutdown.antt =====
-- Close: the queue is drained, every follower is woken, and the log takes no more appends.
use go_wallib.Base.{
  ℕ, zero, suc, ◌+◌, ◌-◌, ◌≤◌, ◌≡◌, refl, ap, ◌∙◌, Bool, true, false, Option, none, List, [], ◌∷◌,
  ◌++◌, append-nil, arith, length, length-append, length-take, length-drop, Bool-cases, inl, inr,
}
use go_wallib.Errors.{Error, closed, record_too_large, Result, ok, err}
use go_wallib.Wal.{Wal, Options, on_disk}
use go_wallib.Wal.Append.{
  AppendRequest, serve_request, write_batch, flush_after_commit, publish_last_lsn, wake_followers,
  fail_results, finish_with, finish_batch, finish_if, commit,
}
use go_wallib.Wal.Writer.{
  final_flush, gather_non_blocking, drain_loop, drain, shut_down, close_active, close_root, outcome,
  close_log, all_small, admit,
}
use go_wallib.Wal.Same.{Same-refl, flush_after_commit-Same, sync_active-Same}
use go_wallib.Wal.Publish.{Waiters, write_batch-Waiters}

length-fail_results :
    (e : Error) (rs : List (Result (List ℕ))) → length (fail_results e rs) ≡ length rs
length-fail_results e [] = refl
length-fail_results e (ok _ ∷ rs) = ap suc (length-fail_results e rs)
length-fail_results e (err _ ∷ rs) = ap suc (length-fail_results e rs)

length-finish_with :
    (r : Result (Unit {0})) (rs : List (Result (List ℕ))) (w : Wal)
    → length (finish_with r rs w).0 ≡ length rs
unfolding finish_with
length-finish_with (ok _) rs w = refl
length-finish_with (err e) rs w = length-fail_results e rs

length-finish_if :
    (wrote : Bool) (rs : List (Result (List ℕ))) (w : Wal)
    → length (finish_if wrote rs w).0 ≡ length rs
unfolding finish_if finish_batch
length-finish_if true rs w = length-finish_with _ rs _
length-finish_if false rs w = refl

length-write_batch :
    (batch : List AppendRequest) (w : Wal) → length (write_batch batch w).0 ≡ length batch
unfolding write_batch
length-write_batch [] w = refl
length-write_batch (request ∷ batch) w =
    ap suc (length-write_batch batch (serve_request request w).1)

length-commit : (batch : List AppendRequest) (w : Wal) → length (commit batch w).0 ≡ length batch
unfolding commit
length-commit batch w =
    length-finish_if (write_batch batch w).1 (write_batch batch w).0 (write_batch batch w).2
    ∙ length-write_batch batch w

-- A batch has the first request, and no request is lost between it and the queue.
gather-sizes :
    (opts : Options) (request : AppendRequest) (queue : List AppendRequest)
    → length (gather_non_blocking opts request queue).0
        + length (gather_non_blocking opts request queue).1
      ≡ suc (length queue)
unfolding gather_non_blocking
gather-sizes opts request queue =
    omega (arith, length-take (opts.batch_size - 1) queue, length-drop (opts.batch_size - 1) queue)

rest_shorter :
    (opts : Options) (request : AppendRequest) (queue : List AppendRequest)
    → length (gather_non_blocking opts request queue).1 ≤ length queue
unfolding gather_non_blocking
rest_shorter opts request queue = omega (arith, length-drop (opts.batch_size - 1) queue)

length-drain_loop :
    (fuel : ℕ) (queue : List AppendRequest) (w : Wal)
    → length queue ≤ fuel
    → length (drain_loop fuel queue w).0 ≡ length queue
unfolding drain_loop
length-drain_loop zero [] w h = refl
length-drain_loop zero (request ∷ queue) w h = absurd (omega arith)
length-drain_loop (suc fuel) [] w h = refl
length-drain_loop (suc fuel) (request ∷ queue) w h =
    let batch = gather_non_blocking w.opts request queue in
    let committed = commit batch.0 w in
    omega (
      arith,
      length-append committed.0 (drain_loop fuel batch.1 committed.1).0,
      length-commit batch.0 w,
      length-drain_loop fuel batch.1 committed.1 (omega (arith, rest_shorter w.opts request queue)),
      gather-sizes w.opts request queue,
    )

-- On Close, every request that is still queued gets its result: the rounds are enough for any queue.
pub length-drain : (queue : List AppendRequest) (w : Wal) → length (drain queue w).0 ≡ length queue
unfolding drain
length-drain queue w = length-drain_loop (length queue) queue w (omega arith)

-- The channels of the followers, those that were woken first.
abbrev parked : Wal → List ℕ
parked w = w.notified ++ w.pending_waiters

-- No follower is forgotten, and the log stays as open as it was.
record Kept (v w : Wal) : Type 0 where
  channels : parked w ≡ parked v
  closing : w.is_closed ≡ v.is_closed

Kept-trans : (u v w : Wal) → Kept u v → Kept v w → Kept u w
Kept-trans u v w f g = record {
  channels = g.channels ∙ f.channels;
  closing = g.closing ∙ f.closing;
}

Waiters-Kept : (v w : Wal) → Waiters v w → Kept v w
Waiters-Kept v w q = record { channels = cc (q.waiting, q.woken); closing = q.closing }

wake_followers-Kept : (w : Wal) → Kept w (wake_followers w)
unfolding wake_followers
wake_followers-Kept w = record { channels = append-nil _; closing = refl }

publish_last_lsn-Kept : (w : Wal) → Kept w (publish_last_lsn w).1
unfolding publish_last_lsn
publish_last_lsn-Kept w = ground arith

finish_with-Kept :
    (r : Result (Unit {0})) (rs : List (Result (List ℕ))) (w : Wal) → Kept w (finish_with r rs w).1
unfolding finish_with
finish_with-Kept (ok _) rs w =
    Kept-trans w (publish_last_lsn w).1 _ (publish_last_lsn-Kept w) (wake_followers-Kept _)
finish_with-Kept (err e) rs w = record { channels = refl; closing = refl }

finish_if-Kept :
    (wrote : Bool) (rs : List (Result (List ℕ))) (w : Wal) → Kept w (finish_if wrote rs w).1
unfolding finish_if finish_batch
finish_if-Kept true rs w =
    let same = flush_after_commit-Same w (Same-refl w) in
    Kept-trans w (flush_after_commit w).1 _
      (record { channels = cc (same.waiting, same.woken); closing = same.closing })
      (finish_with-Kept (flush_after_commit w).0 rs (flush_after_commit w).1)
finish_if-Kept false rs w = record { channels = refl; closing = refl }

commit-Kept : (batch : List AppendRequest) (w : Wal) → Kept w (commit batch w).1
unfolding commit
commit-Kept batch w =
    Kept-trans w (write_batch batch w).2 _
      (Waiters-Kept w _
        (write_batch-Waiters batch w (record { waiting = refl; woken = refl; closing = refl })))
      (finish_if-Kept (write_batch batch w).1 (write_batch batch w).0 (write_batch batch w).2)

drain_loop-Kept :
    (fuel : ℕ) (queue : List AppendRequest) (w : Wal) → Kept w (drain_loop fuel queue w).1
unfolding drain_loop
drain_loop-Kept zero queue w = record { channels = refl; closing = refl }
drain_loop-Kept (suc fuel) [] w = record { channels = refl; closing = refl }
drain_loop-Kept (suc fuel) (request ∷ queue) w =
    let batch = gather_non_blocking w.opts request queue in
    Kept-trans w (commit batch.0 w).1 _ (commit-Kept batch.0 w)
      (drain_loop-Kept fuel batch.1 (commit batch.0 w).1)

-- The last round: every channel that was parked has been woken, after those woken before, and none is
-- parked.
record Quiet (v w : Wal) : Type 0 where
  none_parked : w.pending_waiters ≡ []
  all_woken : w.notified ≡ v.notified ++ v.pending_waiters
  closing : w.is_closed ≡ v.is_closed

shut_down-Quiet : (queue : List AppendRequest) (w : Wal) → Quiet w (shut_down queue w)
unfolding shut_down wake_followers final_flush drain
shut_down-Quiet queue w =
    let drained = drain_loop-Kept (length queue) queue w in
    let same = sync_active-Same (drain queue w).1 (Same-refl (drain queue w).1) in
    record {
      none_parked = refl;
      all_woken = unfold drain in cc (same.waiting, same.woken, drained.channels);
      closing = same.closing ∙ drained.closing;
    }

close_active-Quiet : (v w : Wal) → Quiet v w → Quiet v (close_active w)
unfolding close_active on_disk
close_active-Quiet v w q = ground (arith, q)

close_active-none : (w : Wal) → (close_active w).active ≡ none
unfolding close_active
close_active-none w = ground arith

abbrev closed_by : List AppendRequest → Wal → Wal
closed_by queue w = close_root (close_active (shut_down queue (record w { is_closed = true })))

first_close :
    (queue : List AppendRequest) (w : Wal)
    → w.is_closed ≡ false
    → close_log queue w ≡ (outcome (closed_by queue w).close_err, closed_by queue w)
unfolding close_log
first_close queue w h = rw h refl

later_close :
    (queue : List AppendRequest) (w : Wal)
    → w.is_closed ≡ true
    → close_log queue w ≡ (outcome w.close_err, w)
unfolding close_log
later_close queue w h = rw h refl

not_admitted :
    (w : Wal) (ctx : Option Error) (payloads : List (List ℕ))
    → w.is_closed ≡ true
    → (e : Error) × (admit w ctx payloads ≡ err e)
unfolding admit
not_admitted w ctx payloads h = elim (Bool-cases (all_small w.opts.max_record_size payloads)) [
  | inl small ↦ (closed, rw (h, small) refl)
  | inr large ↦ (record_too_large, rw large refl)
]

-- The state that Close leaves.
record Closed (v w : Wal) : Type 0 where
  shut : w.is_closed ≡ true
  released : w.active ≡ none
  none_parked : w.pending_waiters ≡ []
  all_woken : w.notified ≡ v.notified ++ v.pending_waiters

closed_by-Closed : (queue : List AppendRequest) (w : Wal) → Closed w (closed_by queue w)
unfolding close_root on_disk
closed_by-Closed queue w =
    let closing : Wal = record w { is_closed = true } in
    let still = shut_down-Quiet queue closing in
    let after = close_active-Quiet closing (shut_down queue closing) still in
    record {
      shut = after.closing;
      released = close_active-none (shut_down queue closing);
      none_parked = after.none_parked;
      all_woken = after.all_woken;
    }

-- After Close of an open log, whatever fails: it is closed and has no active segment; every follower
-- that was parked has been woken once, behind those woken before, and none is parked; no append is
-- admitted; and Close again returns the same and changes nothing.
pub close_log-closes :
    (queue later : List AppendRequest) (w : Wal) (ctx : Option Error) (payloads : List (List ℕ))
    → w.is_closed ≡ false
    → ((close_log queue w).1.is_closed ≡ true)
      × ((close_log queue w).1.active ≡ none)
      × ((close_log queue w).1.pending_waiters ≡ [])
      × ((close_log queue w).1.notified ≡ w.notified ++ w.pending_waiters)
      × ((e : Error) × (admit (close_log queue w).1 ctx payloads ≡ err e))
      × (close_log later (close_log queue w).1 ≡ close_log queue w)
close_log-closes queue later w ctx payloads h =
    let c = closed_by-Closed queue w in
    rw (first_close queue w h) (
      c.shut,
      c.released,
      c.none_parked,
      c.all_woken,
      not_admitted (closed_by queue w) ctx payloads c.shut,
      later_close later (closed_by queue w) c.shut,
    )
