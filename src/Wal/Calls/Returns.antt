-- ===== src/Wal/Calls/Returns.antt =====
-- What `Append` returns is where the log holds the payload.
mod Tests
use go_wallib.Base.{
  All-append, le→leb, ℕ, suc, ◌+◌, ◌^◌, ◌≤◌, ◌<◌, ◌≡◌, refl, sym, ap, ◌∙◌, Bool, true, false, not,
  Option, none, some, List, [], ◌∷◌, ◌++◌, append-nil, append_assoc, arith, length, length-append,
  get_elem?, All, Option-cases, inl, inr, if◌then◌else◌, ◌&&◌, leb,
}
use mathlib.Core.Path.{subst}
use go_wallib.Errors.{Error, Result, ok, err}
use go_wallib.Record.{Record, encoded_size}
use go_wallib.Wal.{Wal}
use go_wallib.Wal.Append.{AppendRequest, commit}
use go_wallib.Wal.Writer.{all_small}
use go_wallib.Wal.Lsns.{lsns_from, payload_count}
use go_wallib.Wal.Calls.{
  Enqueued, queued, Neighbours, enqueue, wait_result, append_batch, append, result_at, first_lsn_of,
}
use go_wallib.Wal.Contents.Commit.{
  records_at, length-records_at, batch_records, batch_results, RequestFits,
}
use go_wallib.Wal.Contents.Finish.{Published, Committed, commit-Committed}

behind :
    (lsn : ℕ) (x : AppendRequest) (xs : List AppendRequest)
    → lsn + length x.payloads + length (batch_records (lsn + length x.payloads) xs)
      ≡ lsn + length (records_at lsn x.payloads ++ batch_records (lsn + length x.payloads) xs)
behind lsn x xs = omega (
  arith,
  length-append (records_at lsn x.payloads) (batch_records (lsn + length x.payloads) xs),
  length-records_at lsn x.payloads,
)

module _ (ys : List AppendRequest) where
  pub batch_records-append :
      (lsn : ℕ) (xs : List AppendRequest)
      → batch_records lsn (xs ++ ys)
        ≡ batch_records lsn xs ++ batch_records (lsn + length (batch_records lsn xs)) ys
  unfolding batch_records
  batch_records-append lsn [] = ap (λ k. batch_records k ys) (omega arith)
  batch_records-append lsn (x ∷ xs) = elim (Option-cases x.ctx_err) [
    | inl e ↦ rw e (
        ap (λ l. records_at lsn x.payloads ++ l) (batch_records-append (lsn + length x.payloads) xs)
        ∙ sym (
            append_assoc (records_at lsn x.payloads) (batch_records (lsn + length x.payloads) xs) _)
        ∙ ap
            (λ k.
              (records_at lsn x.payloads ++ batch_records (lsn + length x.payloads) xs)
              ++ batch_records k ys)
            (behind lsn x xs))
    | inr (c, e) ↦ rw e (batch_records-append lsn xs)
  ]

  -- The result of the first request behind the others.
  pub result_at-batch_results :
      (lsn : ℕ) (xs : List AppendRequest)
      → result_at (length xs) (batch_results lsn (xs ++ ys))
        ≡ result_at 0 (batch_results (lsn + length (batch_records lsn xs)) ys)
  unfolding batch_records batch_results
  result_at-batch_results lsn [] = ap (λ k. result_at 0 (batch_results k ys)) (omega arith)
  result_at-batch_results lsn (x ∷ xs) = elim (Option-cases x.ctx_err) [
    | inl e ↦ rw e (
        result_at-batch_results (lsn + length x.payloads) xs
        ∙ ap (λ k. result_at 0 (batch_results k ys)) (behind lsn x xs))
    | inr (c, e) ↦ rw e (result_at-batch_results lsn xs)
  ]

payload_count-append :
    (xs ys : List AppendRequest) → payload_count (xs ++ ys) ≡ payload_count xs + payload_count ys
payload_count-append [] ys = omega arith
payload_count-append (x ∷ xs) ys = omega (arith, payload_count-append xs ys)

abbrev request_of : List ℕ → AppendRequest
request_of payload = record { ctx_err = none; payloads = payload ∷ [] }

-- A call that reaches the queue returns what the writer found.
append_run :
    (near : Neighbours) (payload : List ℕ) (w : Wal)
    → w.is_closed ≡ false
    → encoded_size (length payload) ≤ w.opts.max_record_size
    → append queued none near payload w ≡ (
      first_lsn_of (
          result_at
            (length near.before)
            (commit (near.before ++ (request_of payload ∷ near.after)) w).0),
      (commit (near.before ++ (request_of payload ∷ near.after)) w).1,
    )
unfolding append append_batch all_small enqueue wait_result
append_run near payload w not_closed within =
    let size = le→leb (encoded_size (length payload)) w.opts.max_record_size within in
    rw (all_small, size, not_closed, wait_result) refl

-- An `Append` whose request is queued and not canceled, on an open log in good order on a directory in which nothing
-- fails, whatever other requests the writer takes with it: it succeeds, and the payload is held under the LSN that it
-- returns, behind what the log held and the records of the requests before it in the batch. The
-- payload and those of the other requests are within the limit, which is below 2 ^ 32, and the counter
-- has room for them.
pub append-Published :
    (near : Neighbours) (payload : List ℕ) (w : Wal) (recs : List Record)
    → Published w recs
    → w.is_closed ≡ false
    → encoded_size (length payload) ≤ w.opts.max_record_size
    → All (RequestFits w.opts.max_record_size) near.before
    → All (RequestFits w.opts.max_record_size) near.after
    → w.opts.max_record_size < 2 ^ 32
    → w.next_lsn + payload_count near.before + 1 + payload_count near.after < 2 ^ 64
    → (lsn : ℕ) × ((append queued none near payload w).0 ≡ ok lsn)
      × Published (append queued none near payload w).1 (
          recs
          ++ (batch_records w.next_lsn near.before
              ++ (record { lsn = lsn; payload = payload } ∷ batch_records (lsn + 1) near.after)))
unfolding batch_records batch_results records_at lsns_from
append-Published near payload w recs p not_closed within before after max small =
    let batch : List AppendRequest = near.before ++ (request_of payload ∷ near.after) in
    let lsn = w.next_lsn + length (batch_records w.next_lsn near.before) in
    let fits =
      All-append (RequestFits w.opts.max_record_size) near.before (request_of payload ∷ near.after)
        before ((omega arith, tt), after) in
    let c =
      commit-Committed batch w recs p fits max
        (omega (arith, payload_count-append near.before (request_of payload ∷ near.after))) in
    rw (append_run near payload w not_closed within) (
      lsn,
      ap (λ rs. first_lsn_of (result_at (length near.before) rs)) c.all
          ∙ ap first_lsn_of
              (result_at-batch_results (request_of payload ∷ near.after) w.next_lsn near.before),
      subst (λ l. Published (commit batch w).1 (recs ++ l))
          (batch_records-append (request_of payload ∷ near.after) w.next_lsn near.before) c.holds,
    )
