-- ===== src/Wal/Reopen/Runs.antt =====
-- A log from its creation through a crash to the next reader.
use go_wallib.Base.{
  ℕ, ◌+◌, ◌-◌, ◌*◌, ◌^◌, ◌<◌, ◌≡◌, sym, ap, ◌∙◌, true, List, [], arith, length, take, All,
}
use mathlib.Core.Path.{subst}
use go_wallib.Errors.{Result, ok}
use go_wallib.Record.{Record}
use go_wallib.Disk.{File}
use go_wallib.Wal.{Wal, Options}
use go_wallib.Wal.Writer.{Event, serve_all}
use go_wallib.Wal.History.{total_payloads}
use go_wallib.Wal.Recover.{RecoveryReport, open_log}
use go_wallib.Wal.Reader.{Reader, new_reader, entries}
use go_wallib.Wal.Reader.Still.{calm}
use go_wallib.Wal.Reader.Complete.{Complete, between}
use go_wallib.Wal.Contents.{Succeeds}
use go_wallib.Wal.Contents.Open.{Fresh, opened-Fresh}
use go_wallib.Wal.Contents.Read.{new_reader-Complete}
use go_wallib.Wal.Contents.Runs.{Adds, Added, run_records, serve_all-Added}
use go_wallib.Wal.Contents.Durable.{is_synced, serve_all-Flushed}
use go_wallib.Wal.Reopen.Crash.{Crashed}
use go_wallib.Wal.Reopen.Survive.{crash-Recovered, take-all}
use go_wallib.Wal.Reopen.Whole.{Reopened}

-- What a run leaves, and what the crash after it leaves of that.
Fresh-survives :
    (opts : Options) (report : RecoveryReport) (w : Wal) (es : List Event) (gs : List File)
    (now' : ℕ)
    → Fresh opts report w
    → All (Adds opts.max_record_size) es
    → opts.max_record_size < 2 ^ 32
    → 1 + total_payloads es < 2 ^ 64
    → is_synced opts.sync_policy true es ≡ true
    → Crashed (serve_all es w).disk.files gs
    → Succeeds
        (λ report' w'.
          Reopened opts
            (run_records 1 es)
            (1 + length (run_records 1 es))
            0
            (length (serve_all es w).segment_bases)
            report'
            w')
        (open_log (calm gs now') opts)
Fresh-survives opts report w es gs now' f fits max small safe crash =
    let limit : w.opts.max_record_size ≡ opts.max_record_size =
      ap (λ (o : Options). o.max_record_size) f.options in
    let policy = ap (λ (o : Options). o.sync_policy) f.options in
    let first = f.next in
    let recs = run_records 1 es in
    let a =
      subst (λ k. Added w [] (run_records k es) (serve_all es w)) first
        (serve_all-Added es w [] f.holds (rw limit fits) (rw limit max) (omega arith)) in
    let flushed =
      serve_all-Flushed es true w [] f.holds (rw limit fits) (rw limit max) (omega arith)
        (λ e. f.safe) (ap (λ q. is_synced q true es) policy ∙ safe) in
    let r =
      crash-Recovered (serve_all es w) recs opts gs now' a.holds
        (sym (ap (λ (o : Options). o.max_record_size) a.grown.opts ∙ limit)) crash in
    let (all, nothing) = r.everything flushed in
    let next = a.grown.next in
    let counted : (serve_all es w).next_lsn - (length recs - r.kept) ≡ 1 + length recs =
      omega arith in
    subst
      (λ (o : List Record × ℕ × ℕ).
        Succeeds
          (λ report' w'.
            Reopened opts o.0 o.1 o.2 (length (serve_all es w).segment_bases) report' w')
          (open_log (calm gs now') opts))
      (λ i. (
        (ap (λ k. take k recs) all ∙ take-all (length recs) recs (omega arith)) i,
        counted i,
        nothing i,
      ))
      r.reopened

-- On an empty directory in which nothing fails: open a log and run appends, flushes and subscriptions, so
-- that the last appends are followed by a flush or the policy syncs each commit. Then the system
-- stops, losing any part of what was not synced. When the log is opened again, in a directory in
-- which nothing fails, it holds exactly the records of the appends that were not canceled, its
-- counter stands right behind them, and nothing had to be cut off. The payloads are within the limit, which
-- is below 2 ^ 32, and the counter has room for them.
pub write_crash_reopen :
    (now now' : ℕ) (opts : Options) (es : List Event) (gs : List File)
    → All (Adds opts.max_record_size) es
    → opts.max_record_size < 2 ^ 32
    → 1 + total_payloads es < 2 ^ 64
    → is_synced opts.sync_policy true es ≡ true
    → Crashed (serve_all es (open_log (calm [] now) opts).1).disk.files gs
    → Succeeds
        (λ report w.
          Reopened opts
            (run_records 1 es)
            (1 + length (run_records 1 es))
            0
            (length (serve_all es (open_log (calm [] now) opts).1).segment_bases)
            report
            w)
        (open_log (calm gs now') opts)
write_crash_reopen now now' opts es gs fits max small safe crash =
    let (report, fresh) = opened-Fresh now opts in
    Fresh-survives opts report (open_log (calm [] now) opts).1 es gs now' fresh fits max small safe
      crash

-- What Open leaves on the files of a crash.
after_open :
    {P : RecoveryReport → Wal → Type 0} (o : Result RecoveryReport × Wal)
    → Succeeds P o
    → (report : RecoveryReport) × P report o.1
after_open {P = P} o h =
    (h.value, subst (P h.value) (sym (ap (λ (x : Result RecoveryReport × Wal). x.1) h.run)) h.post)

-- The log of `write_crash_reopen` read by a reader: it opens, its loop ends without a failure, and it
-- has given exactly the records of the appends that were not canceled, from `from_lsn` on, once and in
-- order. One round for each record, two for each segment and four more are enough.
pub write_crash_read :
    (now now' : ℕ) (opts : Options) (es : List Event) (gs : List File) (from_lsn fuel n : ℕ)
    → All (Adds opts.max_record_size) es
    → opts.max_record_size < 2 ^ 32
    → 1 + total_payloads es < 2 ^ 64
    → is_synced opts.sync_policy true es ≡ true
    → Crashed (serve_all es (open_log (calm [] now) opts).1).disk.files gs
    → length (run_records 1 es)
        + 2 * length (serve_all es (open_log (calm [] now) opts).1).segment_bases
        + 3
      < fuel
    → length (run_records 1 es)
        + 2 * length (serve_all es (open_log (calm [] now) opts).1).segment_bases
        + 3
      < n
    → (r : Reader) × (new_reader (open_log (calm gs now') opts).1 [] from_lsn ≡ ok r)
      × Complete
          (entries fuel n r)
          (between from_lsn (length (run_records 1 es)) (run_records 1 es))
write_crash_read now now' opts es gs from_lsn fuel n fits max small safe crash enough enough' =
    let (report, h) =
      after_open (open_log (calm gs now') opts)
        (write_crash_reopen now now' opts es gs fits max small safe crash) in
    let w = (open_log (calm gs now') opts).1 in
    let index = h.pruned in
    let next = h.counter in
    let last = h.holds.last in
    let tail : w.last_lsn ≡ length (run_records 1 es) = omega arith in
    let (r, opened, complete) =
      new_reader-Complete w (run_records 1 es) from_lsn fuel n h.holds h.opened (omega arith)
        (omega arith) in
    (
      r,
      opened,
      subst (λ k. Complete (entries fuel n r) (between from_lsn k (run_records 1 es))) tail
          complete,
    )
