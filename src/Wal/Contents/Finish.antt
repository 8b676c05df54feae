-- ===== src/Wal/Contents/Finish.antt =====
-- A commit to its end: the flush and the publication, which change nothing of what the log holds.
use go_wallib.Base.{
  ℕ, ◌+◌, ◌^◌, ◌<◌, ◌≤◌, ◌≡◌, ◌≢◌, refl, sym, ap, ◌∙◌, Bool, true, false, List, ◌++◌, arith, length,
  get_elem?, set, All,
}
use mathlib.Core.Path.{subst}
use go_wallib.Errors.{Result}
use go_wallib.Exec.{pure}
use go_wallib.Record.{Record}
use go_wallib.Disk.{File}
use go_wallib.Segment.Files.{Segment, sync}
use go_wallib.Wal.Contents.Files.{some-inj, get_elem?-set}
use go_wallib.Wal.{Wal, SyncPolicy, sync_immediate, sync_batched, sync_interval, on_disk}
use go_wallib.Wal.Append.{
  AppendRequest, write_batch, flush_by, flush_after_commit, publish_last_lsn, wake_followers,
  finish_with, finish_batch, finish_if, commit,
}
use go_wallib.Wal.Lsns.{payload_count}
use go_wallib.Wal.Indexed.Append.{publish_shape}
use go_wallib.Wal.Reader.Still.{calm}
use go_wallib.Wal.Contents.{
  Log, Flushed, Succeeds, Succeeds-map, Succeeds-ok, Succeeds-get_active, Succeeds-last,
}
use go_wallib.Wal.Contents.Steps.{Body-touch, header-length}
use go_wallib.Wal.Contents.Calm.{synced_file, sync_file-calm}
use go_wallib.Wal.Contents.Append.{Moved}
use go_wallib.Wal.Contents.Commit.{write_batch-Done, batch_records, batch_results, RequestFits}

-- What a log with its bounds published holds.
pub record Published (w : Wal) (recs : List Record) : Type 0 where
  pub log : Log w recs
  pub last : w.last_lsn + 1 ≡ w.next_lsn
  pub room : w.next_lsn < 2 ^ 64

pub sync-Log :
    (w : Wal) (recs : List Record) (l : Log w recs)
    → Succeeds (λ _ w'. Log w' recs × Moved 0 w w' × Flushed w') (on_disk (sync l.body.seg) w)
sync-Log w recs l =
    let b = l.body in
    let g = synced_file b.file in
    Succeeds-last (sync b.seg) w (calm l.files l.now) (calm (set l.files b.seg.file g) l.now) tt
      l.disk (unfold sync in sync_file-calm l.files l.now b.seg.file b.file b.present)
      (
        record {
          files = set l.files b.seg.file g;
          now = l.now;
          disk = refl;
          body = Body-touch b g refl refl (header-length b);
        },
        record { next = omega arith; last = refl; opts = refl; closed = refl },
        λ seg f e at.
            let here : b.seg ≡ seg = some-inj (sym b.there ∙ e) in
            let same : g ≡ f = some-inj (
              sym (get_elem?-set l.files b.seg.file b.file g b.present)
              ∙ ap (λ (s : Segment). get_elem? (set l.files b.seg.file g) s.file) here
              ∙ at) in
            subst (λ (x : File). length x.content ≤ x.synced) same (omega arith),
      )

pub flush_by-Log :
    (policy : SyncPolicy) (w : Wal) (recs : List Record)
    → Log w recs
    → Succeeds
        (λ _ w'. Log w' recs × Moved 0 w w' × ((policy ≢ sync_interval) → Flushed w'))
        (flush_by policy w)
unfolding flush_by pure
flush_by-Log sync_interval w recs l = Succeeds-ok tt w (
  l,
  record { next = omega arith; last = refl; opts = refl; closed = refl },
  λ ne. absurd (ne refl),
)
flush_by-Log sync_immediate w recs l =
    Succeeds-get_active _ w l.body.seg l.body.there
      (Succeeds-map _ (sync-Log w recs l) (λ _ w' h. (h.0, h.1, λ ne. h.2)))
flush_by-Log sync_batched w recs l =
    Succeeds-get_active _ w l.body.seg l.body.there
      (Succeeds-map _ (sync-Log w recs l) (λ _ w' h. (h.0, h.1, λ ne. h.2)))

publish-Published :
    (w : Wal) (recs : List Record)
    → Log w recs
    → w.next_lsn < 2 ^ 64
    → Published (wake_followers (publish_last_lsn w).1) recs
unfolding wake_followers
publish-Published w recs l room =
    let pos = l.body.positive in
    rw (publish_shape w w.segment_bases refl) (record {
      log = record { files = l.files; now = l.now; disk = l.disk; body = l.body };
      last = omega arith;
      room = room;
    })

-- The counter moves by n, and the log stays open, or closed, with its options.
pub record Grown (n : ℕ) (v w : Wal) : Type 0 where
  pub next : w.next_lsn ≡ v.next_lsn + n
  pub opts : w.opts ≡ v.opts
  pub closed : w.is_closed ≡ v.is_closed

publish-Grown : (w : Wal) → Grown 0 w (wake_followers (publish_last_lsn w).1)
unfolding wake_followers
publish-Grown w =
    rw (publish_shape w w.segment_bases refl)
      (record { next = omega arith; opts = refl; closed = refl })

-- The results, and the log.
pub record Committed (v : Wal) (results : List (Result (List ℕ))) (recs : List Record) (added : ℕ)
    (o : List (Result (List ℕ)) × Wal) : Type 0 where
  pub all : o.0 ≡ results
  pub holds : Published o.1 recs
  pub grown : Grown added v o.1

module _ (v : Wal) (added : ℕ) (results : List (Result (List ℕ))) (recs : List Record) where
  finish_batch-Committed :
      (w : Wal)
      → Log w recs
      → Moved added v w
      → w.next_lsn < 2 ^ 64
      → Committed v results recs added (finish_batch results w)
  unfolding finish_batch flush_after_commit
  finish_batch-Committed w l m room =
      let h = flush_by-Log w.opts.sync_policy w recs l in
      let k = h.post.1 in
      let g = publish-Grown h.state in
      let a = m.next in
      let b = k.next in
      let c = g.next in
      rw (h.run) (
        unfold finish_with in
        record {
          all = refl;
          holds = publish-Published h.state recs h.post.0 (omega arith);
          grown = record {
            next = omega arith;
            opts = g.opts ∙ k.opts ∙ m.opts;
            closed = g.closed ∙ k.closed ∙ m.closed;
          };
        })

  finish_if-Committed :
      (wrote : Bool) (w : Wal)
      → Log w recs
      → Moved added v w
      → w.next_lsn < 2 ^ 64
      → (wrote ≡ false → w.last_lsn + 1 ≡ w.next_lsn)
      → Committed v results recs added (finish_if wrote results w)
  unfolding finish_if
  finish_if-Committed true w l m room idle = finish_batch-Committed w l m room
  finish_if-Committed false w l m room idle = record {
    all = refl;
    holds = record { log = l; last = idle refl; room = room };
    grown = record { next = m.next; opts = m.opts; closed = m.closed };
  }

-- On a directory in which nothing fails, a commit does to a log what appending does to a list: the log
-- then holds, behind the records that it held and across rolls, those of the requests that are not
-- canceled, under consecutive LSNs from the counter on, and the counter moves behind them; each such
-- request gets its LSNs and each canceled one its error; and the last LSN is published. The payloads
-- are within the limit, which is below 2 ^ 32, and the counter has room for them.
pub commit-Committed :
    (batch : List AppendRequest) (w : Wal) (recs : List Record)
    → Published w recs
    → All (RequestFits w.opts.max_record_size) batch
    → w.opts.max_record_size < 2 ^ 32
    → w.next_lsn + payload_count batch < 2 ^ 64
    → Committed w
        (batch_results w.next_lsn batch)
        (recs ++ batch_records w.next_lsn batch)
        (length (batch_records w.next_lsn batch))
        (commit batch w)
unfolding commit
commit-Committed batch w recs p fits max small =
    let d = write_batch-Done batch w recs p.log fits max small in
    let n = d.moved.next in
    let le = d.bound in
    let last = p.last in
    let same = d.moved.last in
    let all = batch_records w.next_lsn batch in
    subst
      (λ rs.
        Committed w rs (recs ++ all) (length all)
          (finish_if (write_batch batch w).1 (write_batch batch w).0 (write_batch batch w).2))
      d.results
      (finish_if-Committed w (length all) (write_batch batch w).0 (recs ++ all)
        (write_batch batch w).1 (write_batch batch w).2 d.log
        (subst (λ k. Moved k w (write_batch batch w).2) d.counts d.moved) (omega arith)
        (λ e. let none_written = d.idle e in omega arith))
