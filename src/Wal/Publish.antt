-- ===== src/Wal/Publish.antt =====
-- What callers, readers and followers see of a commit.
use go_wallib.Base.{
  ℕ, ◌+◌, ◌^◌, ◌<◌, ◌≡◌, ◌≢◌, refl, ◌∙◌, Bool, true, false, Option, none, some, List, [], ◌∷◌, ◌++◌,
  arith, length, ◌||◌, inl, inr,
}
use go_wallib.Errors.{Error, Result, ok, err}
use go_wallib.Exec.{modify, raise}
use go_wallib.Exec.Preserves.{Preserves, preserving}
use go_wallib.Segment.Files.{pred_lsn}
use go_wallib.Wal.{Wal}
use go_wallib.Wal.Append.{
  AppendRequest, count_lsn, write_record, write_payloads, write_request, serve_request, is_ok,
  write_batch, flush_after_commit, publish_last_lsn, wake_followers, finish_with, finish_batch,
  finish_if, commit,
}
use go_wallib.Wal.Same.{Same-refl, flush_after_commit-Same}
use go_wallib.Wal.Lsns.{
  lsns_from, write_payloads-Written, write_record-keeps_Same, acknowledged,
  acknowledged-fail_results,
}

-- A request that succeeds gets one LSN for each payload, consecutive from the counter on, and the
-- counter moves behind them. The counter has room for the payloads.
pub write_request-gapless :
    (request : AppendRequest) (w : Wal) (lsns : List ℕ)
    → w.next_lsn + length request.payloads < 2 ^ 64
    → (write_request request w).0 ≡ ok lsns
    → (lsns ≡ lsns_from w.next_lsn (length request.payloads))
      × ((write_request request w).1.next_lsn ≡ w.next_lsn + length request.payloads)
unfolding write_request
write_request-gapless request w lsns h e =
    let written = write_payloads-Written request.payloads [] w h in
    elim written.outcome [
      | inl (whole, all) ↦ (cc (whole, e), omega (arith, written.next, all))
      | inr (x, failed) ↦ absurd (cc (failed, e))
    ]

-- The followers' channels, and whether the log takes appends.
pub record Waiters (v w : Wal) : Type 0 where
  pub waiting : w.pending_waiters ≡ v.pending_waiters
  pub woken : w.notified ≡ v.notified
  pub closing : w.is_closed ≡ v.is_closed

module _ {v : Wal} where
  write_record-Waiters :
      (lsn : ℕ) (payload : List ℕ) → Preserves (Waiters v) (write_record lsn payload)
  write_record-Waiters lsn payload = record {
    holds = λ w q. record {
      waiting = (write_record-keeps_Same lsn payload w).waiting ∙ q.waiting;
      woken = (write_record-keeps_Same lsn payload w).woken ∙ q.woken;
      closing = (write_record-keeps_Same lsn payload w).closing ∙ q.closing;
    };
  }

  count_lsn-Waiters : Preserves (Waiters v) (modify count_lsn)
  unfolding modify count_lsn
  count_lsn-Waiters = record {
    holds = λ w q. record { waiting = q.waiting; woken = q.woken; closing = q.closing };
  }

  write_payloads-Waiters :
      (payloads : List (List ℕ)) (assigned : List ℕ)
      → Preserves (Waiters v) (write_payloads payloads assigned)
  unfolding write_payloads
  write_payloads-Waiters [] assigned = search preserving
  write_payloads-Waiters (payload ∷ payloads) assigned =
      let others = write_payloads-Waiters payloads in
      search (preserving, write_record-Waiters, count_lsn-Waiters, others) depth 8

  write_request-Waiters : (request : AppendRequest) → Preserves (Waiters v) (write_request request)
  unfolding write_request
  write_request-Waiters request = write_payloads-Waiters request.payloads []

  serve_request-Waiters :
      (request : AppendRequest) (w : Wal) → Waiters v w → Waiters v (serve_request request w).1
  unfolding write_request
  serve_request-Waiters request w q = go request.ctx_err
    where
      go : (c : Option Error) → Waiters v (serve_request (record request { ctx_err = c }) w).1
      go none = (write_request-Waiters request).holds w q
      go (some e) = unfold raise in q

  pub write_batch-Waiters :
      (batch : List AppendRequest) (w : Wal) → Waiters v w → Waiters v (write_batch batch w).2
  unfolding write_batch
  write_batch-Waiters [] w q = q
  write_batch-Waiters (request ∷ batch) w q =
      write_batch-Waiters batch (serve_request request w).1 (serve_request-Waiters request w q)

nothing_written :
    (batch : List AppendRequest) (w : Wal)
    → (write_batch batch w).1 ≡ false
    → acknowledged (write_batch batch w).0 ≡ []
unfolding write_batch
nothing_written [] w h = refl
nothing_written (request ∷ batch) w h =
    go (serve_request request w).0 (serve_request request w).1 h
      (nothing_written batch (serve_request request w).1)
  where
    go :
        (r : Result (List ℕ)) (w' : Wal)
        → (is_ok r || (write_batch batch w').1) ≡ false
        → ((write_batch batch w').1 ≡ false → acknowledged (write_batch batch w').0 ≡ [])
        → acknowledged (r ∷ (write_batch batch w').0) ≡ []
    go (ok lsns) w' e rest = cc e
    go (err x) w' e rest = rest e

-- The bounds and the followers after a batch that was flushed.
record Published (w w' : Wal) : Type 0 where
  last : w'.last_lsn ≡ pred_lsn w'.next_lsn
  waiting : w'.pending_waiters ≡ []
  woken : w'.notified ≡ w.notified ++ w.pending_waiters

publish-Published : (w v : Wal) → Waiters w v → Published w (wake_followers (publish_last_lsn v).1)
unfolding publish_last_lsn wake_followers
publish-Published w v q = ground (arith, q.waiting, q.woken)

finish_with-Published :
    (w v : Wal) (r : Result (Unit {0})) (rs : List (Result (List ℕ)))
    → Waiters w v
    → acknowledged (finish_with r rs v).0 ≢ []
    → Published w (finish_with r rs v).1
unfolding finish_with
finish_with-Published w v (ok _) rs q some_acked = publish-Published w v q
finish_with-Published w v (err e) rs q some_acked =
    absurd (some_acked (acknowledged-fail_results e rs))

finish_batch-Published :
    (w v : Wal) (rs : List (Result (List ℕ)))
    → Waiters w v
    → acknowledged (finish_batch rs v).0 ≢ []
    → Published w (finish_batch rs v).1
unfolding finish_batch
finish_batch-Published w v rs q some_acked =
    let same = flush_after_commit-Same v (Same-refl v) in
    finish_with-Published w (flush_after_commit v).1 (flush_after_commit v).0 rs
      (record {
        waiting = same.waiting ∙ q.waiting;
        woken = same.woken ∙ q.woken;
        closing = same.closing ∙ q.closing;
      })
      some_acked

finish_if-Published :
    (w v : Wal) (wrote : Bool) (rs : List (Result (List ℕ)))
    → Waiters w v
    → (wrote ≡ false → acknowledged rs ≡ [])
    → acknowledged (finish_if wrote rs v).0 ≢ []
    → Published w (finish_if wrote rs v).1
unfolding finish_if
finish_if-Published w v true rs q nothing acked = finish_batch-Published w v rs q acked
finish_if-Published w v false rs q nothing acked = absurd (acked (nothing refl))

-- A commit that acknowledges any LSN has published the last one, and has woken every follower that
-- waited: none is left parked.
pub commit-Published :
    (batch : List AppendRequest) (w : Wal)
    → acknowledged (commit batch w).0 ≢ []
    → ((commit batch w).1.last_lsn ≡ pred_lsn (commit batch w).1.next_lsn)
      × ((commit batch w).1.pending_waiters ≡ [])
      × ((commit batch w).1.notified ≡ w.notified ++ w.pending_waiters)
unfolding commit
commit-Published batch w some_acked =
    let p =
      finish_if-Published w (write_batch batch w).2 (write_batch batch w).1 (write_batch batch w).0
        (write_batch-Waiters batch w (record { waiting = refl; woken = refl; closing = refl }))
        (nothing_written batch w) some_acked in
    (p.last, p.waiting, p.woken)
