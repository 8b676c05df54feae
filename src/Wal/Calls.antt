-- ===== src/Wal/Calls.antt =====
-- The calls of the log's users, in pkg/wal/wal.go and pkg/wal/writer.go: what a call does before the writer has its
-- request, and what it returns then.
mod Returns
mod Closed
use go_wallib.Base.{
  ℕ, suc, zero, not, Option, none, some, List, [], ◌∷◌, ◌++◌, length, get_elem?, if◌then◌else◌,
}
use go_wallib.Errors.{Error, closed, panicked, record_too_large, Result, ok, err}
use go_wallib.Exec.{Exec}
use go_wallib.Wal.{Wal}
use go_wallib.Wal.Append.{AppendRequest, commit}
use go_wallib.Wal.Boundary.{do_truncate, do_cut}
use go_wallib.Wal.Writer.{all_small, sync_active}

-- What the select of `enqueue` sees: there is room in the queue, or the context is done.
pub data Enqueued : Type 0 where
  queued : Enqueued
  gave_up : Error → Enqueued

unfoldable pub enqueue : Wal → Enqueued → Result (Unit {0})
enqueue w (gave_up e) = if w.is_closed then err closed else err e
enqueue w queued = if w.is_closed then err closed else ok tt

-- The requests that the writer takes in one batch with this one.
pub record Neighbours : Type 0 where
  pub before : List AppendRequest
  pub after : List AppendRequest

-- What `request.resultCh` receives.
abbrev pub result_at : ℕ → List (Result (List ℕ)) → Result (List ℕ)
result_at i results = elim (get_elem? results i) [ none ↦ err panicked | some r ↦ r ]

unfoldable pub wait_result : Neighbours → AppendRequest → Result (Unit {0}) → Exec Wal (List ℕ)
wait_result near request (err e) w = (err e, w)
wait_result near request (ok _) w =
    let (results, w') = commit (near.before ++ (request ∷ near.after)) w in
    (result_at (length near.before) results, w')

-- `AppendBatch`, with what `ctx.Err()` says when the writer comes to the request.
unfoldable pub append_batch :
    Enqueued → Option Error → Neighbours → List (List ℕ) → Exec Wal (List ℕ)
unfolding enqueue wait_result
append_batch seen ctx_err near payloads w =
    if not (all_small w.opts.max_record_size payloads)
    then (err record_too_large, w)
    else wait_result near (record { ctx_err = ctx_err; payloads = payloads }) (enqueue w seen) w

-- `assignedLSNs[0]`
abbrev pub first_lsn_of : Result (List ℕ) → Result ℕ
first_lsn_of (err e) = err e
first_lsn_of (ok []) = err panicked
first_lsn_of (ok (lsn ∷ _)) = ok lsn

unfoldable pub append : Enqueued → Option Error → Neighbours → List ℕ → Exec Wal ℕ
unfolding append_batch
append seen ctx_err near payload w =
    let (r, w') = append_batch seen ctx_err near (payload ∷ []) w in (first_lsn_of r, w')

-- What the select of `SyncContext` and of `submitBoundaryOp` sees: the writer takes the request, the log
-- is closed, or the context is done.
pub data Handed : Type 0 where
  handed saw_closed : Handed
  ctx_done : Error → Handed

unfoldable pub hand_over : Exec Wal Unit → Handed → Exec Wal Unit
hand_over m handed w = m w
hand_over m saw_closed w = (err closed, w)
hand_over m (ctx_done e) w = (err e, w)

unfoldable pub sync_context : Handed → Exec Wal Unit
unfolding hand_over sync_active
sync_context seen w = if w.is_closed then (err closed, w) else hand_over sync_active seen w

unfoldable pub submit_boundary_op : (ℕ → Exec Wal Unit) → Option Error → Handed → ℕ → Exec Wal Unit
unfolding hand_over
submit_boundary_op op ctx_err seen up_to w =
    if w.is_closed
    then (err closed, w)
    else elim ctx_err [ some e ↦ (err e, w) | none ↦ hand_over (op up_to) seen w ]

unfoldable pub truncate_context : Option Error → Handed → ℕ → Exec Wal Unit
unfolding submit_boundary_op do_truncate
truncate_context ctx_err seen up_to = submit_boundary_op do_truncate ctx_err seen up_to

unfoldable pub cut_offset_context : Option Error → Handed → ℕ → Exec Wal Unit
unfolding submit_boundary_op do_cut
cut_offset_context ctx_err seen up_to = submit_boundary_op do_cut ctx_err seen up_to
