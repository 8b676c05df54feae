-- ===== src/Wal/Append.antt =====
-- The append path of pkg/wal/writer.go, as the writer goroutine runs it.
use go_wallib.Base.{
  ℕ, ◌+◌, Bool, true, false, Option, none, some, List, [], ◌∷◌, ◌++◌, length, ltb, ◌==◌, ◌&&◌, ◌||◌,
  if◌then◌else◌,
}
use go_wallib.Errors.{Error, panicked, Result, ok, err}
use go_wallib.Exec.{Exec, pure, raise, gets, modify, ◌>>=◌, ◌>>◌}
use go_wallib.Record.{encoded_size}
use go_wallib.Segment.Header.{header_size}
use go_wallib.Segment.Files.{Segment, pred_lsn, create, append, sync, close}
use go_wallib.Wal.{
  Wal, SyncPolicy, sync_interval, sync_batched, sync_immediate, on_disk, get_active, install_active,
  succ_lsn,
}

-- `ctx_err` is what `ctx.Err()` says when the writer comes to the request.
pub record AppendRequest : Type 0 where
  pub ctx_err : Option Error
  pub payloads : List (List ℕ)

unfoldable pub install_rolled : Segment → ℕ → Wal → Wal
install_rolled new_segment base_lsn w = record w {
  active = some new_segment;
  segment_bases = w.segment_bases ++ (base_lsn ∷ []);
}

unfoldable pub roll : ℕ → Exec Wal Unit
unfolding install_rolled
roll base_lsn = do
  sealed ← get_active
  on_disk (sync sealed)
  new_segment ← on_disk (create base_lsn)
  modify (install_rolled new_segment base_lsn)
  on_disk (close sealed)

-- The segment-roll rule.
abbrev pub needs_roll : Segment → ℕ → ℕ → Bool
needs_roll seg needed max_segment_size =
    ltb header_size seg.size && ltb max_segment_size (seg.size + needed)

unfoldable pub write_record : ℕ → List ℕ → Exec Wal Unit
unfolding roll install_active
write_record lsn payload = do
  seg ← get_active
  limit ← gets (λ w. w.opts.max_segment_size)
  if needs_roll seg (encoded_size (length payload)) limit then roll lsn else pure tt
  target ← get_active
  written ← on_disk (append target lsn payload)
  modify (install_active written.1)

-- `w.nextLSN++`
unfoldable pub count_lsn : Wal → Wal
count_lsn w = record w { next_lsn = succ_lsn w.next_lsn }

-- The loop of `write_request`, with the LSNs assigned so far.
unfoldable pub write_payloads : List (List ℕ) → List ℕ → Exec Wal (List ℕ)
unfolding count_lsn
write_payloads [] assigned = pure assigned
write_payloads (payload ∷ payloads) assigned = do
  lsn ← gets (λ w. w.next_lsn)
  write_record lsn payload
  modify count_lsn
  write_payloads payloads (assigned ++ (lsn ∷ []))

unfoldable pub write_request : AppendRequest → Exec Wal (List ℕ)
unfolding write_payloads
write_request request = write_payloads request.payloads []

unfoldable pub flush_by : SyncPolicy → Exec Wal Unit
flush_by sync_interval = pure tt
flush_by sync_immediate = get_active >>= λ seg. on_disk (sync seg)
flush_by sync_batched = get_active >>= λ seg. on_disk (sync seg)

unfoldable pub flush_after_commit : Exec Wal Unit
unfolding flush_by
flush_after_commit w = flush_by w.opts.sync_policy w

unfoldable pub publish_last_lsn : Exec Wal Unit
publish_last_lsn w =
    let published = record w { last_lsn = pred_lsn w.next_lsn } in
    if w.first_lsn == 0
    then elim w.segment_bases [
      | [] ↦ (err panicked, published)
      | base ∷ _ ↦ (ok tt, record published { first_lsn = base })
    ]
    else (ok tt, published)

-- Every parked waiter is closed, and the list emptied.
unfoldable pub wake_followers : Wal → Wal
wake_followers w = record w { notified = w.notified ++ w.pending_waiters; pending_waiters = [] }

-- A failed flush takes the place of every result that was a success.
abbrev pub fail_results : Error → List (Result (List ℕ)) → List (Result (List ℕ))
fail_results e [] = []
fail_results e (ok lsns ∷ rs) = err e ∷ fail_results e rs
fail_results e (err e' ∷ rs) = err e' ∷ fail_results e rs

-- The flush failed, or the new bounds are published and the followers woken. The index has a segment
-- at all times, so the publication does not panic.
unfoldable pub finish_with :
    Result (Unit {0}) → List (Result (List ℕ)) → Wal → List (Result (List ℕ)) × Wal
unfolding publish_last_lsn wake_followers
finish_with (err e) results w = (fail_results e results, w)
finish_with (ok _) results w = (results, wake_followers (publish_last_lsn w).1)

unfoldable pub finish_batch : List (Result (List ℕ)) → Wal → List (Result (List ℕ)) × Wal
unfolding flush_after_commit finish_with
finish_batch results w = let (flushed, w') = flush_after_commit w in finish_with flushed results w'

-- One request of the batch: a canceled one is not written.
abbrev pub serve_request : AppendRequest → Exec Wal (List ℕ)
serve_request request = elim request.ctx_err [ some e ↦ raise e | none ↦ write_request request ]

abbrev pub is_ok : Result (List ℕ) → Bool
is_ok (ok _) = true
is_ok (err _) = false

-- The first loop of `commit`: the results, whether any request was written, and the log after it.
unfoldable pub write_batch : List AppendRequest → Wal → List (Result (List ℕ)) × Bool × Wal
write_batch [] w = ([], false, w)
write_batch (request ∷ batch) w =
    let (r, w') = serve_request request w in
    let (rs, wrote, w'') = write_batch batch w' in (r ∷ rs, is_ok r || wrote, w'')

-- `if wroteAny { w.finishBatch(results) }`
unfoldable pub finish_if : Bool → List (Result (List ℕ)) → Wal → List (Result (List ℕ)) × Wal
unfolding finish_batch
finish_if true results w = finish_batch results w
finish_if false results w = (results, w)

-- The results, in the order of the requests, are what the requests' channels receive.
unfoldable pub commit : List AppendRequest → Wal → List (Result (List ℕ)) × Wal
unfolding write_batch finish_if
commit batch w = let (results, wrote, w') = write_batch batch w in finish_if wrote results w'
