-- ===== src/Wal/Same.antt =====
-- What the file operations leave alone: the LSN counters, the followers and the options.
use go_wallib.Base.{ℕ, ◌≡◌, refl, ◌∙◌, arith, Bool, true, false, Option, none, some, List, [], ◌∷◌}
use go_wallib.Errors.{panicked, ok, err}
use go_wallib.Exec.{Exec, modify}
use go_wallib.Exec.Preserves.{Preserves, preserving}
use go_wallib.Disk.{Disk}
use go_wallib.Segment.Files.{Segment}
use go_wallib.Wal.{
  SyncPolicy, sync_immediate, sync_batched, sync_interval, Wal, on_disk, get_active, install_active,
}
use go_wallib.Wal.Append.{flush_by, flush_after_commit, roll, install_rolled, write_record}
use go_wallib.Wal.Boundary.{
  do_truncate, do_cut, cut_at, cut_delete_below, cut_rewrite_boundary, cut_with_source,
  cut_everything, cut_source, install_cut, head_base, drop_bases, set_first, truncate_first,
  install_empty,
}
use go_wallib.Wal.Writer.{sync_active}

pub record Same (v w : Wal) : Type 0 where
  pub next : w.next_lsn ≡ v.next_lsn
  pub last : w.last_lsn ≡ v.last_lsn
  pub waiting : w.pending_waiters ≡ v.pending_waiters
  pub woken : w.notified ≡ v.notified
  pub closing : w.is_closed ≡ v.is_closed
  pub options : w.opts ≡ v.opts

pub Same-refl : (w : Wal) → Same w w
Same-refl w = record {
  next = refl;
  last = refl;
  waiting = refl;
  woken = refl;
  closing = refl;
  options = refl;
}

module _ {v : Wal} where
  on_disk-Same : {A : Type 0} (m : Exec Disk A) → Preserves (Same v) (on_disk m)
  unfolding on_disk
  on_disk-Same m = record {
    holds = λ w s. record {
      next = s.next;
      last = s.last;
      waiting = s.waiting;
      woken = s.woken;
      closing = s.closing;
      options = s.options;
    };
  }

  active_or_panic-Same :
      (o : Option Segment) (w : Wal)
      → Same v w
      → Same v
          (elim o as (λ _. go_wallib.Errors.Result Segment × Wal) [
            | none ↦ (err panicked, w)
            | some seg ↦ (ok seg, w)
          ]).1
  active_or_panic-Same none w s = s
  active_or_panic-Same (some seg) w s = s

  get_active-Same : Preserves (Same v) get_active
  unfolding get_active
  get_active-Same = record { holds = λ w s. active_or_panic-Same w.active w s }

  modify-Same : (f : Wal → Wal) → ((w : Wal) → Same w (f w)) → Preserves (Same v) (modify f)
  unfolding modify
  modify-Same f h = record {
    holds = λ w s. record {
      next = (h w).next ∙ s.next;
      last = (h w).last ∙ s.last;
      waiting = (h w).waiting ∙ s.waiting;
      woken = (h w).woken ∙ s.woken;
      closing = (h w).closing ∙ s.closing;
      options = (h w).options ∙ s.options;
    };
  }

  install_active-Same : (seg : Segment) → Preserves (Same v) (modify (install_active seg))
  unfolding install_active
  install_active-Same seg = modify-Same (install_active seg) (λ w. record {
    next = refl;
    last = refl;
    waiting = refl;
    woken = refl;
    closing = refl;
    options = refl;
  })

  install_rolled-Same :
      (seg : Segment) (base : ℕ) → Preserves (Same v) (modify (install_rolled seg base))
  unfolding install_rolled
  install_rolled-Same seg base = modify-Same (install_rolled seg base) (λ w. record {
    next = refl;
    last = refl;
    waiting = refl;
    woken = refl;
    closing = refl;
    options = refl;
  })

  drop_bases-Same : (count : ℕ) → Preserves (Same v) (modify (drop_bases count))
  unfolding drop_bases
  drop_bases-Same count = modify-Same (drop_bases count) (λ w. record {
    next = refl;
    last = refl;
    waiting = refl;
    woken = refl;
    closing = refl;
    options = refl;
  })

  set_first-Same : (first : ℕ) → Preserves (Same v) (modify (set_first first))
  unfolding set_first
  set_first-Same first = modify-Same (set_first first) (λ w. record {
    next = refl;
    last = refl;
    waiting = refl;
    woken = refl;
    closing = refl;
    options = refl;
  })

  install_cut-Same :
      (is_active : Bool) (boundary : ℕ) (cut : ℕ) (seg : Segment)
      → Preserves (Same v) (modify (install_cut is_active boundary cut seg))
  unfolding install_cut
  install_cut-Same is_active boundary cut seg =
      modify-Same (install_cut is_active boundary cut seg) (λ w. record {
        next = refl;
        last = refl;
        waiting = refl;
        woken = refl;
        closing = refl;
        options = refl;
      })

  install_empty-Same :
      (seg : Segment) (next : ℕ) → Preserves (Same v) (modify (install_empty seg next))
  unfolding install_empty
  install_empty-Same seg next = modify-Same (install_empty seg next) (λ w. record {
    next = refl;
    last = refl;
    waiting = refl;
    woken = refl;
    closing = refl;
    options = refl;
  })

  head_base-Same : (bases : List ℕ) → Preserves (Same v) (head_base bases)
  head_base-Same [] = search preserving
  head_base-Same (base ∷ bases) = search preserving

  cut_source-Same : (is_active : Bool) (base : ℕ) → Preserves (Same v) (cut_source is_active base)
  cut_source-Same true base = get_active-Same
  cut_source-Same false base = on_disk-Same _

ruleset keeps_counters = (
  preserving, on_disk-Same, get_active-Same, install_active-Same, install_rolled-Same,
  drop_bases-Same, set_first-Same, install_cut-Same, install_empty-Same, head_base-Same,
  cut_source-Same,
)

module _ {v : Wal} where
  roll-Same : (base : ℕ) → Preserves (Same v) (roll base)
  unfolding roll
  roll-Same base = search keeps_counters

  pub write_record-Same :
      (lsn : ℕ) (payload : List ℕ) → Preserves (Same v) (write_record lsn payload)
  unfolding write_record
  write_record-Same lsn payload = search (keeps_counters, roll-Same) depth 10

  truncate_first-Same :
      (count : ℕ) (bases : List ℕ) → Preserves (Same v) (truncate_first count bases)
  unfolding truncate_first
  truncate_first-Same count bases = search keeps_counters

  pub do_truncate-Same : (up_to : ℕ) → Preserves (Same v) (do_truncate up_to)
  unfolding do_truncate
  do_truncate-Same up_to = search (keeps_counters, truncate_first-Same)

  cut_delete_below-Same :
      (bases : List ℕ) (boundary cut : ℕ) → Preserves (Same v) (cut_delete_below bases boundary cut)
  unfolding cut_delete_below
  cut_delete_below-Same bases boundary cut = search keeps_counters

  cut_with_source-Same :
      (is_active : Bool) (source : Segment) (bases : List ℕ) (boundary cut : ℕ)
      → Preserves (Same v) (cut_with_source is_active source bases boundary cut)
  unfolding cut_with_source
  cut_with_source-Same is_active source bases boundary cut = search keeps_counters depth 10

  cut_rewrite_boundary-Same :
      (bases : List ℕ) (boundary cut : ℕ)
      → Preserves (Same v) (cut_rewrite_boundary bases boundary cut)
  unfolding cut_rewrite_boundary
  cut_rewrite_boundary-Same bases boundary cut = search (keeps_counters, cut_with_source-Same)

  cut_everything-Same : (bases : List ℕ) (next : ℕ) → Preserves (Same v) (cut_everything bases next)
  unfolding cut_everything
  cut_everything-Same bases next = search keeps_counters depth 10

  cut_at-Same :
      (bases : List ℕ) (first next cut : ℕ) → Preserves (Same v) (cut_at bases first next cut)
  unfolding cut_at
  cut_at-Same bases first next cut =
      search (keeps_counters, cut_delete_below-Same, cut_rewrite_boundary-Same, cut_everything-Same)

  pub do_cut-Same : (up_to : ℕ) → Preserves (Same v) (do_cut up_to)
  unfolding do_cut
  do_cut-Same up_to = search (keeps_counters, cut_at-Same)

  pub sync_active-Same : (w : Wal) → Same v w → Same v (sync_active w).1
  unfolding sync_active on_disk
  sync_active-Same w s = ground (arith, s)

  flush_by-Same : (policy : SyncPolicy) → Preserves (Same v) (flush_by policy)
  unfolding flush_by
  flush_by-Same sync_interval = search keeps_counters
  flush_by-Same sync_immediate = search keeps_counters
  flush_by-Same sync_batched = search keeps_counters

  pub flush_after_commit-Same : (w : Wal) → Same v w → Same v (flush_after_commit w).1
  unfolding flush_after_commit
  flush_after_commit-Same w s = (flush_by-Same w.opts.sync_policy).holds w s
