-- ===== src/Wal/Contents/Runs.antt =====
-- Runs of the writer that only add to the log, and what a reader then gives.
use go_wallib.Base.{
  ℕ, ◌+◌, ◌*◌, ◌^◌, ◌≤◌, ◌<◌, ◌≡◌, refl, ap, ◌∙◌, Option, none, some, List, [], ◌∷◌, ◌++◌,
  append-nil, append_assoc, arith, length, length-append, All, ltb, Bool-cases, inl, inr,
}
use mathlib.Core.Path.{subst}
use go_wallib.Errors.{Result, ok}
use go_wallib.Record.{Record}
use go_wallib.Segment.Files.{Segment, sync}
use go_wallib.Wal.{Wal, Options, on_disk}
use go_wallib.Wal.Writer.{
  Event, appends, flush, truncation, cut_offset, subscription, Wakeup, serve, serve_all,
  handle_subscribe, sync_active,
}
use go_wallib.Wal.History.{event_payloads, total_payloads}
use go_wallib.Wal.Recover.{RecoveryReport, open_log}
use go_wallib.Wal.Reader.{Reader, new_reader, entries}
use go_wallib.Wal.Reader.Still.{calm}
use go_wallib.Wal.Reader.Complete.{Complete, between}
use go_wallib.Wal.Contents.Commit.{batch_records, length-batch_records, RequestFits}
use go_wallib.Wal.Contents.Finish.{Published, Grown, commit-Committed, sync-Log}
use go_wallib.Wal.Contents.Open.{Fresh, opened-Fresh}
use go_wallib.Wal.Contents.Read.{new_reader-Complete}

-- Events that only add to the log, within the limit.
abbrev pub Adds : ℕ → Event → Type 0
Adds max_rec (appends batch) = All (RequestFits max_rec) batch
Adds max_rec flush = Unit
Adds max_rec (truncation up_to) = ¬ Unit {0}
Adds max_rec (cut_offset up_to) = ¬ Unit {0}
Adds max_rec (subscription sub) = Unit

abbrev pub event_records : ℕ → Event → List Record
event_records lsn (appends batch) = batch_records lsn batch
event_records lsn flush = []
event_records lsn (truncation up_to) = []
event_records lsn (cut_offset up_to) = []
event_records lsn (subscription sub) = []

-- The records of a run, from an LSN on.
unfoldable pub run_records : ℕ → List Event → List Record
run_records lsn [] = []
run_records lsn (e ∷ es) =
    event_records lsn e ++ run_records (lsn + length (event_records lsn e)) es

-- What an event leaves.
pub record Added (w : Wal) (recs : List Record) (more : List Record) (w' : Wal) : Type 0 where
  pub holds : Published w' (recs ++ more)
  pub grown : Grown (length more) w w'

Added-nothing :
    (w w' : Wal) (recs : List Record) → Published w' recs → Grown 0 w w' → Added w recs [] w'
Added-nothing w w' recs p g = record { holds = rw (append-nil recs) p; grown = g }

pub sync_active-some :
    (w : Wal) (seg : Segment) → w.active ≡ some seg → sync_active w ≡ on_disk (sync seg) w
unfolding sync_active
sync_active-some w seg e = go w.active e
  where
    go :
        (o : Option Segment)
        → o ≡ some seg
        → elim o as (λ _. Result (Unit {0}) × Wal) [
          | none ↦ (ok tt, w)
          | some s ↦ on_disk (sync s) w
        ]
          ≡ on_disk (sync seg) w
    go none e' = absurd (cc e')
    go (some s) e' = ap (λ x. on_disk (sync x) w) (cc e')

pub flush-Added :
    (w : Wal) (recs : List Record) → Published w recs → Added w recs [] (sync_active w).1
flush-Added w recs p =
    let h = sync-Log w recs p.log in
    let m = h.post.1 in
    let n = m.next in
    let last = p.last in
    let same = m.last in
    let room = p.room in
    let run = sync_active-some w p.log.body.seg p.log.body.there ∙ h.run in
    rw run (
      Added-nothing w h.state recs
        (record { log = h.post.0; last = omega arith; room = omega arith })
        (record { next = n; opts = m.opts; closed = m.closed }))

subscription-Added :
    (sub : Wakeup) (w : Wal) (recs : List Record)
    → Published w recs
    → Added w recs [] (handle_subscribe sub w)
unfolding handle_subscribe
subscription-Added sub w recs p = elim (Bool-cases (ltb sub.from w.last_lsn)) [
  | inl e ↦ rw e (
      Added-nothing w _ recs
        (record {
          log = record {
            files = p.log.files;
            now = p.log.now;
            disk = p.log.disk;
            body = p.log.body;
          };
          last = p.last;
          room = p.room;
        })
        (record { next = omega arith; opts = refl; closed = refl }))
  | inr e ↦ rw e (
      Added-nothing w _ recs
        (record {
          log = record {
            files = p.log.files;
            now = p.log.now;
            disk = p.log.disk;
            body = p.log.body;
          };
          last = p.last;
          room = p.room;
        })
        (record { next = omega arith; opts = refl; closed = refl }))
]

pub length-event_records : (lsn : ℕ) (e : Event) → length (event_records lsn e) ≤ event_payloads e
length-event_records lsn (appends batch) = length-batch_records lsn batch
length-event_records lsn flush = omega arith
length-event_records lsn (truncation up_to) = omega arith
length-event_records lsn (cut_offset up_to) = omega arith
length-event_records lsn (subscription sub) = omega arith

pub event-Added :
    (e : Event) (w : Wal) (recs : List Record)
    → Published w recs
    → Adds w.opts.max_record_size e
    → w.opts.max_record_size < 2 ^ 32
    → w.next_lsn + event_payloads e < 2 ^ 64
    → Added w recs (event_records w.next_lsn e) (serve e w).1
unfolding serve
event-Added (appends batch) w recs p fits max small =
    let c = commit-Committed batch w recs p fits max small in
    record { holds = c.holds; grown = c.grown }
event-Added flush w recs p fits max small = flush-Added w recs p
event-Added (truncation up_to) w recs p fits max small = absurd (fits tt)
event-Added (cut_offset up_to) w recs p fits max small = absurd (fits tt)
event-Added (subscription sub) w recs p fits max small = subscription-Added sub w recs p

-- On a directory in which nothing fails, a run of appends, flushes and subscriptions leaves a log that
-- holds the records of its appends behind those that it held, under consecutive LSNs from the counter
-- on; the counter stands behind them and the last LSN is published. The payloads are within the
-- limit, which is below 2 ^ 32, and the counter has room for them.
pub serve_all-Added :
    (es : List Event) (w : Wal) (recs : List Record)
    → Published w recs
    → All (Adds w.opts.max_record_size) es
    → w.opts.max_record_size < 2 ^ 32
    → w.next_lsn + total_payloads es < 2 ^ 64
    → Added w recs (run_records w.next_lsn es) (serve_all es w)
unfolding serve_all run_records
serve_all-Added [] w recs p fits max small =
    Added-nothing w w recs p (record { next = omega arith; opts = refl; closed = refl })
serve_all-Added (e ∷ es) w recs p fits max small =
    let a = event-Added e w recs p fits.0 max (omega arith) in
    let g = a.grown in
    let n = g.next in
    let same : (serve e w).1.opts.max_record_size ≡ w.opts.max_record_size =
      ap (λ (o : Options). o.max_record_size) g.opts in
    let b =
      serve_all-Added es (serve e w).1 _ a.holds (rw same fits.1) (rw same max)
        (let le = length-event_records w.next_lsn e in omega arith) in
    (let m = b.grown.next in
      let ev = event_records w.next_lsn e in
      record {
        holds =
            subst (Published (serve_all es (serve e w).1))
              (append_assoc recs ev _ ∙ ap (λ k. recs ++ (ev ++ run_records k es)) n) b.holds;
        grown = record {
          next = omega (
            arith,
            ap (λ k. length (run_records k es)) n,
            length-append ev (run_records (w.next_lsn + length ev) es),
          );
          opts = b.grown.opts ∙ g.opts;
          closed = b.grown.closed ∙ g.closed;
        };
      })

Fresh-read :
    (opts : Options) (report : RecoveryReport) (w : Wal) (es : List Event) (from_lsn fuel n : ℕ)
    → Fresh opts report w
    → All (Adds opts.max_record_size) es
    → opts.max_record_size < 2 ^ 32
    → 1 + total_payloads es < 2 ^ 64
    → length (run_records 1 es) + 2 * length (serve_all es w).segment_bases + 3 < fuel
    → length (run_records 1 es) + 2 * length (serve_all es w).segment_bases + 3 < n
    → (r : Reader) × (new_reader (serve_all es w) [] from_lsn ≡ ok r)
      × Complete
          (entries fuel n r)
          (between from_lsn (length (run_records 1 es)) (run_records 1 es))
Fresh-read opts report w es from_lsn fuel n f fits max small enough enough' =
    let limit : w.opts.max_record_size ≡ opts.max_record_size =
      ap (λ (o : Options). o.max_record_size) f.options in
    let first = f.next in
    let a =
      subst (λ k. Added w [] (run_records k es) (serve_all es w)) first
        (serve_all-Added es w [] f.holds (rw limit fits) (rw limit max) (omega arith)) in
    let next = a.grown.next in
    let last = a.holds.last in
    let tail : (serve_all es w).last_lsn ≡ length (run_records 1 es) = omega arith in
    let (r, opened, complete) =
      new_reader-Complete (serve_all es w) (run_records 1 es) from_lsn fuel n a.holds
        (a.grown.closed ∙ f.opened) enough enough' in
    (
      r,
      opened,
      subst (λ k. Complete (entries fuel n r) (between from_lsn k (run_records 1 es))) tail
          complete,
    )

-- On an empty directory in which nothing fails: open the log, run appends, flushes and subscriptions, and
-- read. The reader opens, its loop ends without a failure, and it has given exactly the records of the
-- appends that were not canceled, from `from_lsn` on, once and in order; the k-th of them, from 1 on,
-- has LSN k. The payloads are within the limit, which is below 2 ^ 32, and the counter has room for
-- them; one round for each record, two for each segment and four more are enough.
pub write_then_read :
    (now : ℕ) (opts : Options) (es : List Event) (from_lsn fuel n : ℕ)
    → All (Adds opts.max_record_size) es
    → opts.max_record_size < 2 ^ 32
    → 1 + total_payloads es < 2 ^ 64
    → length (run_records 1 es)
        + 2 * length (serve_all es (open_log (calm [] now) opts).1).segment_bases
        + 3
      < fuel
    → length (run_records 1 es)
        + 2 * length (serve_all es (open_log (calm [] now) opts).1).segment_bases
        + 3
      < n
    → (r : Reader) × (new_reader (serve_all es (open_log (calm [] now) opts).1) [] from_lsn ≡ ok r)
      × Complete
          (entries fuel n r)
          (between from_lsn (length (run_records 1 es)) (run_records 1 es))
write_then_read now opts es from_lsn fuel n fits max small enough enough' =
    let (report, fresh) = opened-Fresh now opts in
    Fresh-read opts report (open_log (calm [] now) opts).1 es from_lsn fuel n fresh fits max small
      enough enough'
