-- ===== src/Wal/Contents/Durable.antt =====
-- What is synced when a round of the writer ends, under the policies that sync each commit.
use go_wallib.Base.{
  ℕ, ◌+◌, ◌^◌, ◌<◌, ◌≡◌, ◌≢◌, refl, sym, ap, ◌∙◌, Bool, true, false, ◌&&◌, List, [], ◌∷◌, arith,
  All, Bool-cases, inl, inr, ltb,
}
use mathlib.Core.Path.{subst}
use go_wallib.Errors.{Result}
use go_wallib.Record.{Record}
use go_wallib.Wal.{Wal, Options, SyncPolicy, sync_immediate, sync_batched, sync_interval}
use go_wallib.Wal.Append.{
  AppendRequest, write_batch, flush_after_commit, publish_last_lsn, wake_followers, finish_with,
  finish_batch, finish_if, commit,
}
use go_wallib.Wal.Writer.{
  Event, appends, flush, truncation, cut_offset, subscription, Wakeup, serve, serve_all,
  handle_subscribe, sync_active,
}
use go_wallib.Wal.History.{event_payloads, total_payloads}
use go_wallib.Wal.Lsns.{payload_count}
use go_wallib.Wal.Indexed.Append.{publish_shape}
use go_wallib.Wal.Contents.{Log, Flushed}
use go_wallib.Wal.Contents.Commit.{write_batch-Done, RequestFits}
use go_wallib.Wal.Contents.Finish.{Published, sync-Log, flush_by-Log}
use go_wallib.Wal.Contents.Runs.{Adds, event-Added, length-event_records, sync_active-some}

publish-Flushed : (w : Wal) → Flushed w → Flushed (wake_followers (publish_last_lsn w).1)
unfolding wake_followers
publish-Flushed w h = rw (publish_shape w w.segment_bases refl) h

finish_batch-Flushed :
    (results : List (Result (List ℕ))) (w : Wal) (recs : List Record)
    → Log w recs
    → w.opts.sync_policy ≢ sync_interval
    → Flushed (finish_batch results w).1
unfolding finish_batch flush_after_commit
finish_batch-Flushed results w recs l syncs =
    let h = flush_by-Log w.opts.sync_policy w recs l in
    rw (h.run) (unfold finish_with in publish-Flushed h.state (h.post.2 syncs))

finish_if-Flushed :
    (wrote : Bool) (results : List (Result (List ℕ))) (w : Wal) (recs : List Record)
    → Log w recs
    → w.opts.sync_policy ≢ sync_interval
    → (wrote ≡ false → Flushed w)
    → Flushed (finish_if wrote results w).1
unfolding finish_if
finish_if-Flushed true results w recs l syncs before = finish_batch-Flushed results w recs l syncs
finish_if-Flushed false results w recs l syncs before = before refl

-- On a directory in which nothing fails, and under a policy that syncs each commit, a commit to a log
-- whose active file is synced leaves it synced, across rolls, whether it writes anything or not.
pub commit-Flushed :
    (batch : List AppendRequest) (w : Wal) (recs : List Record)
    → Published w recs
    → All (RequestFits w.opts.max_record_size) batch
    → w.opts.max_record_size < 2 ^ 32
    → w.next_lsn + payload_count batch < 2 ^ 64
    → w.opts.sync_policy ≢ sync_interval
    → Flushed w
    → Flushed (commit batch w).1
unfolding commit
commit-Flushed batch w recs p fits max small syncs before =
    let d = write_batch-Done batch w recs p.log fits max small in
    finish_if-Flushed (write_batch batch w).1 (write_batch batch w).0 (write_batch batch w).2 _
      d.log (λ e. syncs (ap (λ (o : Options). o.sync_policy) (sym d.moved.opts) ∙ e))
      (λ idle. subst Flushed (sym (d.still idle)) before)

-- The policy syncs each commit.
abbrev pub syncs_commits : SyncPolicy → Bool
syncs_commits sync_immediate = true
syncs_commits sync_batched = true
syncs_commits sync_interval = false

syncs-commits : (policy : SyncPolicy) → syncs_commits policy ≡ true → policy ≢ sync_interval
syncs-commits policy e same = absurd (cc (e, ap syncs_commits same))

-- Whether everything is synced behind these rounds, if it was before them.
abbrev pub is_synced : SyncPolicy → Bool → List Event → Bool
is_synced policy before [] = before
is_synced policy before (appends batch ∷ es) = is_synced policy (syncs_commits policy && before) es
is_synced policy before (flush ∷ es) = is_synced policy true es
is_synced policy before (truncation up_to ∷ es) = is_synced policy before es
is_synced policy before (cut_offset up_to ∷ es) = is_synced policy before es
is_synced policy before (subscription sub ∷ es) = is_synced policy before es

-- After one round.
abbrev synced_after : SyncPolicy → Bool → Event → Bool
synced_after policy before (appends batch) = syncs_commits policy && before
synced_after policy before flush = true
synced_after policy before (truncation up_to) = before
synced_after policy before (cut_offset up_to) = before
synced_after policy before (subscription sub) = before

is_synced-cons :
    (policy : SyncPolicy) (before : Bool) (e : Event) (es : List Event)
    → is_synced policy before (e ∷ es) ≡ is_synced policy (synced_after policy before e) es
is_synced-cons policy before (appends batch) es = refl
is_synced-cons policy before flush es = refl
is_synced-cons policy before (truncation up_to) es = refl
is_synced-cons policy before (cut_offset up_to) es = refl
is_synced-cons policy before (subscription sub) es = refl

both_true : (a b : Bool) → (a && b) ≡ true → (a ≡ true) × (b ≡ true)
both_true true b e = (refl, e)
both_true false b e = absurd (cc e)

subscribe-Flushed : (sub : Wakeup) (w : Wal) → Flushed w → Flushed (handle_subscribe sub w)
unfolding handle_subscribe
subscribe-Flushed sub w h = elim (Bool-cases (ltb sub.from w.last_lsn)) [
  | inl e ↦ rw e h
  | inr e ↦ rw e h
]

pub flush-Flushed : (w : Wal) (recs : List Record) → Log w recs → Flushed (sync_active w).1
flush-Flushed w recs l =
    let h = sync-Log w recs l in
    let run = sync_active-some w l.body.seg l.body.there ∙ h.run in rw run (h.post.2)

event-Flushed :
    (e : Event) (before : Bool) (w : Wal) (recs : List Record)
    → Published w recs
    → Adds w.opts.max_record_size e
    → w.opts.max_record_size < 2 ^ 32
    → w.next_lsn + event_payloads e < 2 ^ 64
    → (before ≡ true → Flushed w)
    → synced_after w.opts.sync_policy before e ≡ true
    → Flushed (serve e w).1
unfolding serve
event-Flushed (appends batch) before w recs p fits max small h safe =
    let (syncs, held) = both_true (syncs_commits w.opts.sync_policy) before safe in
    commit-Flushed batch w recs p fits max small (syncs-commits w.opts.sync_policy syncs) (h held)
event-Flushed flush before w recs p fits max small h safe = flush-Flushed w recs p.log
event-Flushed (truncation up_to) before w recs p fits max small h safe = absurd (fits tt)
event-Flushed (cut_offset up_to) before w recs p fits max small h safe = absurd (fits tt)
event-Flushed (subscription sub) before w recs p fits max small h safe =
    subscribe-Flushed sub w (h safe)

-- A run of rounds that only add to the log, and behind which everything is synced.
pub serve_all-Flushed :
    (es : List Event) (before : Bool) (w : Wal) (recs : List Record)
    → Published w recs
    → All (Adds w.opts.max_record_size) es
    → w.opts.max_record_size < 2 ^ 32
    → w.next_lsn + total_payloads es < 2 ^ 64
    → (before ≡ true → Flushed w)
    → is_synced w.opts.sync_policy before es ≡ true
    → Flushed (serve_all es w)
unfolding serve_all
serve_all-Flushed [] before w recs p fits max small h safe = h safe
serve_all-Flushed (e ∷ es) before w recs p fits max small h safe =
    let a = event-Added e w recs p fits.0 max (omega arith) in
    let n = a.grown.next in
    let same : (serve e w).1.opts.max_record_size ≡ w.opts.max_record_size =
      ap (λ (o : Options). o.max_record_size) a.grown.opts in
    let policy : (serve e w).1.opts.sync_policy ≡ w.opts.sync_policy =
      ap (λ (o : Options). o.sync_policy) a.grown.opts in
    serve_all-Flushed es (synced_after w.opts.sync_policy before e) (serve e w).1 _ a.holds
      (rw same fits.1) (rw same max) (let le = length-event_records w.next_lsn e in omega arith)
      (λ held. event-Flushed e before w recs p fits.0 max (omega arith) h held)
      (ap (λ q. is_synced q (synced_after w.opts.sync_policy before e) es) policy
        ∙ sym (is_synced-cons w.opts.sync_policy before e es)
        ∙ safe)
