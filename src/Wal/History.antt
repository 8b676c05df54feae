-- ===== src/Wal/History.antt =====
-- The writer over any sequence of events, with any failures of the file system.
use go_wallib.Base.{
  ℕ, ◌+◌, ◌^◌, ◌<◌, ◌≡◌, refl, ◌∙◌, Bool, true, false, List, [], ◌∷◌, ◌++◌, arith, ◌⊎◌, inl, inr,
  ◌⊎◌,
}
use go_wallib.Errors.{Result, ok, err}
use go_wallib.Wal.{Wal}
use go_wallib.Wal.Append.{
  AppendRequest, write_batch, flush_after_commit, publish_last_lsn, finish_with, finish_batch,
  finish_if, commit,
}
use go_wallib.Wal.Writer.{
  Wakeup, Event, appends, flush, truncation, cut_offset, subscription, Reply, assigned, done,
  silent, handle_subscribe, serve, serve_all,
}
use go_wallib.Wal.Same.{
  Same, Same-refl, do_truncate-Same, do_cut-Same, sync_active-Same, flush_after_commit-Same,
}
use go_wallib.Wal.Lsns.{
  InOrder, InOrder-le, Acks, Acks-append, acknowledged, payload_count, write_batch-Acks,
  acknowledged-fail_results,
}

next-publish : (w : Wal) → (publish_last_lsn w).1.next_lsn ≡ w.next_lsn
unfolding publish_last_lsn
next-publish w = ground arith

-- What `finish_batch` acknowledges, and where the counter stands.
record Finished (rs : List (Result (List ℕ))) (w : Wal) (out : List (Result (List ℕ))) (w' : Wal)
    : Type 0 where
  next : w'.next_lsn ≡ w.next_lsn
  acks : (acknowledged out ≡ acknowledged rs) ⊎ (acknowledged out ≡ [])

finish_with-Finished :
    (r : Result (Unit {0})) (rs : List (Result (List ℕ))) (w w' : Wal)
    → Same w w'
    → Finished rs w (finish_with r rs w').0 (finish_with r rs w').1
unfolding finish_with
finish_with-Finished (ok _) rs w w' same = record {
  next = next-publish w' ∙ same.next;
  acks = inl refl;
}
finish_with-Finished (err e) rs w w' same = record {
  next = same.next;
  acks = inr (acknowledged-fail_results e rs);
}

finish_batch-Finished :
    (rs : List (Result (List ℕ))) (w : Wal)
    → Finished rs w (finish_batch rs w).0 (finish_batch rs w).1
unfolding finish_batch
finish_batch-Finished rs w =
    finish_with-Finished (flush_after_commit w).0 rs w (flush_after_commit w).1
      (flush_after_commit-Same w (Same-refl w))

finish_if-Acks :
    (batch : List AppendRequest) (w : Wal) (b : Bool)
    → w.next_lsn + payload_count batch < 2 ^ 64
    → Acks w
        (acknowledged (finish_if b (write_batch batch w).0 (write_batch batch w).2).0)
        (payload_count batch)
        (finish_if b (write_batch batch w).0 (write_batch batch w).2).1
unfolding finish_if
finish_if-Acks batch w false h = write_batch-Acks batch w h
finish_if-Acks batch w true h =
    let written = write_batch-Acks batch w h in
    let finished = finish_batch-Finished (write_batch batch w).0 (write_batch batch w).2 in
    elim finished.acks [
      | inl same ↦ record {
        order = rw (same, finished.next) written.order;
        bound = rw finished.next written.bound;
      }
      | inr nothing ↦ record {
        order = rw (nothing, finished.next) (InOrder-le _ _ _ written.order);
        bound = rw finished.next written.bound;
      }
    ]

-- A group commit, whatever of it fails.
pub commit-Acks :
    (batch : List AppendRequest) (w : Wal)
    → w.next_lsn + payload_count batch < 2 ^ 64
    → Acks w (acknowledged (commit batch w).0) (payload_count batch) (commit batch w).1
unfolding commit
commit-Acks batch w h = finish_if-Acks batch w (write_batch batch w).1 h

abbrev pub event_payloads : Event → ℕ
event_payloads (appends batch) = payload_count batch
event_payloads _ = 0

abbrev pub total_payloads : List Event → ℕ
total_payloads [] = 0
total_payloads (e ∷ es) = event_payloads e + total_payloads es

abbrev pub reply_lsns : Reply → List ℕ
reply_lsns (assigned results) = acknowledged results
reply_lsns (done r) = []
reply_lsns silent = []

-- The LSNs that callers get over the whole run.
unfoldable pub history : List Event → Wal → List ℕ
history [] w = []
history (e ∷ es) w = reply_lsns (serve e w).0 ++ history es (serve e w).1

Acks-Same : (w w' : Wal) → Same w w' → Acks w [] 0 w'
Acks-Same w w' same = record { order = omega (arith, same.next); bound = omega (arith, same.next) }

next-handle_subscribe : (sub : Wakeup) (w : Wal) → (handle_subscribe sub w).next_lsn ≡ w.next_lsn
unfolding handle_subscribe
next-handle_subscribe sub w = ground arith

pub serve-Acks :
    (e : Event) (w : Wal)
    → w.next_lsn + event_payloads e < 2 ^ 64
    → Acks w (reply_lsns (serve e w).0) (event_payloads e) (serve e w).1
unfolding serve
serve-Acks (appends batch) w h = commit-Acks batch w h
serve-Acks flush w h = Acks-Same w _ (sync_active-Same w (Same-refl w))
serve-Acks (truncation up_to) w h = Acks-Same w _ ((do_truncate-Same up_to).holds w (Same-refl w))
serve-Acks (cut_offset up_to) w h = Acks-Same w _ ((do_cut-Same up_to).holds w (Same-refl w))
serve-Acks (subscription sub) w h = record {
  order = omega (arith, next-handle_subscribe sub w);
  bound = omega (arith, next-handle_subscribe sub w);
}

serve_all-Acks :
    (es : List Event) (w : Wal)
    → w.next_lsn + total_payloads es < 2 ^ 64
    → Acks w (history es w) (total_payloads es) (serve_all es w)
unfolding serve_all history
serve_all-Acks [] w h = record { order = omega arith; bound = omega arith }
serve_all-Acks (e ∷ es) w h =
    let first = serve-Acks e w (omega arith) in
    let others = serve_all-Acks es (serve e w).1 (omega (arith, first.bound)) in
    Acks-append _ _ _ _ _ _ _ first others

-- From any state, over any sequence of appends, flushes, truncations, cuts and subscriptions, and with
-- any failures of file operations: the LSNs that callers get are strictly ascending over the whole run,
-- none is below the counter at the start, and each is below the counter that the run leaves. The run
-- appends fewer payloads than the uint64 counter has room for.
pub history-InOrder :
    (es : List Event) (w : Wal)
    → w.next_lsn + total_payloads es < 2 ^ 64
    → InOrder w.next_lsn (history es w) (serve_all es w).next_lsn
history-InOrder es w h = (serve_all-Acks es w h).order
