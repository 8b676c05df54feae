-- ===== src/Wal/Contents/Open.antt =====
-- Opening an empty directory.
use go_wallib.Base.{
  ℕ, ◌≡◌, refl, sym, ap, ◌∙◌, false, some, [], ◌∷◌, length, get_elem?, ◌≤◌, append-nil, arith,
}
use mathlib.Core.Path.{subst}
use go_wallib.Errors.{Result}
use go_wallib.Exec.{◌>>=◌, pure}
use go_wallib.Record.RoundTrip.{frames}
use go_wallib.Disk.{File, find, read_dir, linked_names, next_fault}
use go_wallib.Segment.Header.{length-encode_header}
use go_wallib.Segment.Name.{name}
use go_wallib.Segment.Dir.{
  remove_stale_temp_files, remove_temps, list_segments, found_files, sort_files,
}
use go_wallib.Segment.Files.{Segment, create, empty_segment, new_header}
use go_wallib.Wal.{Wal, Options}
use go_wallib.Wal.Recover.{RecoveryReport, empty_report, init_empty_log, recover, open_log}
use go_wallib.Wal.Reader.Still.{calm, Stops-nil}
use go_wallib.Wal.Contents.{Body, Flushed, Succeeds, Succeeds-ok, Succeeds-on_disk, Succeeds-modify}
use go_wallib.Wal.Contents.Files.{some-inj, find-new, find-others, name-apart}
use go_wallib.Wal.Contents.Calm.{header_file, header_file-content, length-header_file, create-calm}
use go_wallib.Wal.Contents.Finish.{Published}

first_Body :
    (now max_rec : ℕ)
    → Body (header_file 1 now ∷ []) now (some (empty_segment 0 (name 1) 1)) (1 ∷ []) 1 max_rec []
unfolding frames find
first_Body now max_rec = record {
  older = [];
  newest = record {
    seg_name = name 1;
    handle = 0;
    header = new_header 1 now;
    recs = [];
    tail = [];
  };
  seg = empty_segment 0 (name 1) 1;
  file = header_file 1 now;
  there = refl;
  same = refl;
  clean = refl;
  size = refl;
  present = refl;
  layout = header_file-content 1 now ∙ sym (append-nil (new_header 1 now));
  apart = tt;
  named = refl;
  older_stand = tt;
  newest_stands = record {
    found = find-new (name 1) [] (header_file 1 now) refl refl;
    content = header_file-content 1 now ∙ sym (append-nil (new_header 1 now));
    header_length = unfold new_header in length-encode_header _;
    fits = tt;
    stops = Stops-nil max_rec;
  };
  all = refl;
  free_above = λ b lt small.
      find-others (name b) (name 1) [] (header_file 1 now) refl refl
        (name-apart 1 b (λ e. absurd (omega arith)) (omega arith) small);
  free_next = λ more. absurd (omega arith);
  rising = tt;
  below = tt;
  positive = omega arith;
  start = 1;
  linked = (refl, (now, refl), tt, refl);
  listed = unfold linked_names in refl;
  full = tt;
  first = omega arith;
  cleaned = tt;
  kept = tt;
  header_kept = omega (arith, length-header_file 1 now);
}

-- A log that is just opened on an empty directory.
pub record Fresh (opts : Options) (report : RecoveryReport) (w : Wal) : Type 0 where
  pub holds : Published w []
  pub next : w.next_lsn ≡ 1
  pub opened : w.is_closed ≡ false
  pub options : w.opts ≡ opts
  pub nothing : report ≡ empty_report
  pub safe : Flushed w

-- On an empty directory in which nothing fails, Open succeeds: the log is open, holds no record, will
-- assign LSN 1 next, has its file synced, and the report says that nothing was recovered.
pub open_log-Fresh :
    (now : ℕ) (opts : Options) → Succeeds (Fresh opts) (open_log (calm [] now) opts)
unfolding open_log recover
open_log-Fresh now opts =
    Succeeds-on_disk remove_stale_temp_files _ _ (calm [] now) (calm [] now) 0 refl
      (unfold remove_stale_temp_files remove_temps read_dir linked_names next_fault ◌>>=◌ pure in
        refl)
      (Succeeds-on_disk list_segments _ _ (calm [] now) (calm [] now) [] refl
        (unfold list_segments read_dir linked_names next_fault ◌>>=◌ pure found_files sort_files in
          refl)
        (unfold init_empty_log in
          Succeeds-on_disk (create 1) _ _ (calm [] now) (calm (header_file 1 now ∷ []) now) _ refl
            (create-calm [] now 1 (unfold find in refl))
            (Succeeds-modify _ _ _ (
              unfold pure in
              Succeeds-ok empty_report _ (record {
                holds = record {
                  log = record {
                    files = header_file 1 now ∷ [];
                    now = now;
                    disk = refl;
                    body = first_Body now opts.max_record_size;
                  };
                  last = refl;
                  room = omega arith;
                };
                next = refl;
                opened = refl;
                options = refl;
                nothing = refl;
                safe = λ seg f e at.
                    let here : empty_segment 0 (name 1) 1 ≡ seg = some-inj e in
                    let same : header_file 1 now ≡ f =
                      some-inj (
                        ap (λ (s : Segment). get_elem? (header_file 1 now ∷ []) s.file) here
                        ∙ at) in
                    subst (λ (x : File). length x.content ≤ x.synced) same (omega arith);
              })))))

-- The log that Open leaves.
pub opened-Fresh :
    (now : ℕ) (opts : Options)
    → (report : RecoveryReport) × Fresh opts report (open_log (calm [] now) opts).1
opened-Fresh now opts =
    let o = open_log-Fresh now opts in
    (
      o.value,
      subst (Fresh opts o.value) (sym (ap (λ (x : Result RecoveryReport × Wal). x.1) o.run)) o.post,
    )
