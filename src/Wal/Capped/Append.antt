-- ===== src/Wal/Capped/Append.antt =====
-- The roll rule and the commits of pkg/wal/writer.go, and the size of the active file.
use go_wallib.Base.{
  ℕ, ◌+◌, ◌≤◌, ◌≡◌, refl, ap, Bool, true, false, Option, none, some, List, [], ◌∷◌, ◌++◌, arith,
  length, max, if◌then◌else◌, All,
}
use go_wallib.Errors.{Error, Result, ok, err}
use go_wallib.Exec.{pure, raise, modify, lift, ◌>>=◌}
use go_wallib.Exec.Yields.{Yields, Yields-any, Yields-bind, Yields-pure}
use go_wallib.Record.{encoded_size, encode}
use go_wallib.Record.Step.{length-frame}
use go_wallib.Segment.Header.{header_size}
use go_wallib.Segment.Files.{Segment, append}
use go_wallib.Segment.Bases.{Fresh, create-Fresh}
use go_wallib.Wal.{
  Wal, on_disk, get_active, install_active, SyncPolicy, sync_interval, sync_immediate, sync_batched,
}
use go_wallib.Wal.Append.{
  AppendRequest, roll, install_rolled, needs_roll, write_record, count_lsn, write_payloads,
  write_request, serve_request, write_batch, flush_by, flush_after_commit, wake_followers,
  finish_with, finish_batch, finish_if, commit,
}
use go_wallib.Wal.Indexed.Append.{publish_shape}
use go_wallib.Wal.Capped.{
  active_size, Capped, Room, Leads, Leads-ok, Leads-bind, Leads-on_disk, Leads-last,
  Leads-get_active, Leads-modify, Leads-gets,
}

encode-size :
    (lsn : ℕ) (payload : List ℕ) (bytes : List ℕ)
    → encode [] lsn payload ≡ ok bytes
    → length bytes ≡ encoded_size (length payload)
unfolding encode
encode-size lsn payload bytes e = ground (arith, e, length-frame lsn payload)

append-Grown :
    (seg : Segment) (lsn : ℕ) (payload : List ℕ)
    → Yields (λ r. r.1.size ≡ seg.size + encoded_size (length payload)) (append seg lsn payload)
unfolding append lift
append-Grown seg lsn payload =
    Yields-bind {P = λ bytes. length bytes ≡ encoded_size (length payload)} _ _
      (record { holds = λ s bytes e. encode-size lsn payload bytes e })
      (λ bytes same. Yields-bind _ _ (Yields-any _) (λ _ _. Yields-pure _ (omega (arith, same))))

module _ (threshold largest : ℕ) where
  abbrev Kept : Wal → Type 0
  Kept w = Capped threshold largest w

  rolled-Room :
      (needed lsn : ℕ) (new : Segment) (w : Wal)
      → w.opts.max_segment_size ≡ threshold
      → Fresh lsn new
      → Room threshold needed (install_rolled new lsn w)
  unfolding install_rolled
  rolled-Room needed lsn new w e fresh = (e, omega (arith, fresh.size))

  rolled-Kept :
      (lsn : ℕ) (new : Segment) (w : Wal)
      → w.opts.max_segment_size ≡ threshold
      → Fresh lsn new
      → Kept (install_rolled new lsn w)
  unfolding install_rolled
  rolled-Kept lsn new w e fresh = (e, omega (arith, fresh.size))

  roll-Room : (needed lsn : ℕ) (w : Wal) → Kept w → Leads Kept (Room threshold needed) (roll lsn w)
  unfolding roll
  roll-Room needed lsn w c = Leads-get_active _ w c (λ sealed there.
      Leads-on_disk _ _ w (λ d. c) (Yields-any _)
        (λ _ d. λ _.
          Leads-on_disk _ _ (record w { disk = d }) (λ d'. c) (create-Fresh lsn)
            (λ new d' fresh.
              let v : Wal = record w { disk = d' } in
              Leads-modify _ _ v (
                Leads-last _ (install_rolled new lsn v)
                  (λ d''.
                    unfold install_rolled in
                    rolled-Kept lsn new (record w { disk = d'' }) (c.0) fresh)
                  (λ d''.
                    unfold install_rolled in
                    rolled-Room needed lsn new (record w { disk = d'' }) (c.0) fresh)))))

  no_roll-Room :
      (needed : ℕ) (w : Wal) (seg : Segment)
      → w.active ≡ some seg
      → Kept w
      → needs_roll seg needed w.opts.max_segment_size ≡ false
      → Room threshold needed w
  no_roll-Room needed w seg there c e =
      let size : active_size w.active ≡ seg.size = ap active_size there in
      let fits : active_size w.active + needed ≤ max threshold (header_size + needed) =
        ground (arith, c.0, size, e) in
      (c.0, fits)

  roll_if_full :
      (needed lsn : ℕ) (full : Bool) (w : Wal) (seg : Segment)
      → w.active ≡ some seg
      → Kept w
      → needs_roll seg needed w.opts.max_segment_size ≡ full
      → Leads Kept (Room threshold needed) ((if full then roll lsn else pure tt) w)
  unfolding pure
  roll_if_full needed lsn true w seg there c e = roll-Room needed lsn w c
  roll_if_full needed lsn false w seg there c e =
      Leads-ok tt w (no_roll-Room needed w seg there c e)

  appended-Kept :
      (w : Wal) (seg grown : Segment) (len : ℕ)
      → w.active ≡ some seg
      → Room threshold (encoded_size len) w
      → len ≤ largest
      → grown.size ≡ seg.size + encoded_size len
      → Kept (install_active grown w)
  unfolding install_active
  appended-Kept w seg grown len there room le e =
      let size : active_size w.active ≡ seg.size = ap active_size there in
      (room.0, omega (arith, room.1, size, e, le))

  Room-Kept : (w : Wal) (len : ℕ) → len ≤ largest → Room threshold (encoded_size len) w → Kept w
  Room-Kept w len le room = (room.0, omega (arith, room.1, le))

  append_target-Kept :
      (w : Wal) (lsn : ℕ) (payload : List ℕ)
      → length payload ≤ largest
      → Room threshold (encoded_size (length payload)) w
      → Leads Kept Kept (
          (get_active >>= λ target.
          on_disk (append target lsn payload) >>= λ written. modify (install_active written.1))
            w)
  append_target-Kept w lsn payload le room =
      let c = Room-Kept w (length payload) le room in
      Leads-get_active _ w c (λ seg there.
        Leads-on_disk _ _ w (λ d. c) (append-Grown seg lsn payload)
          (λ written d e.
            unfold modify in
            Leads-ok tt _ (
              appended-Kept (record w { disk = d }) seg written.1 (length payload) there room le
                e)))

  write_record-Kept :
      (lsn : ℕ) (payload : List ℕ) (w : Wal)
      → length payload ≤ largest
      → Kept w
      → Leads Kept Kept (write_record lsn payload w)
  unfolding write_record
  write_record-Kept lsn payload w le c = Leads-get_active _ w c (λ seg there. Leads-gets _ _ w (
      Leads-bind _ _ w (roll_if_full (encoded_size (length payload)) lsn _ w seg there c refl)
        (λ _ w' room. append_target-Kept w' lsn payload le room)))

  write_payloads-Kept :
      (payloads : List (List ℕ)) (assigned : List ℕ) (w : Wal)
      → All (λ p. length p ≤ largest) payloads
      → Kept w
      → Leads Kept Kept (write_payloads payloads assigned w)
  unfolding write_payloads pure
  write_payloads-Kept [] assigned w small c = Leads-ok assigned w c
  write_payloads-Kept (p ∷ payloads) assigned w small c = Leads-gets _ _ w (
      Leads-bind _ _ w (write_record-Kept w.next_lsn p w small.0 c) (λ _ w' c'.
        Leads-modify _ _ w' (
          write_payloads-Kept payloads (assigned ++ (w.next_lsn ∷ [])) (count_lsn w') small.1
            (unfold count_lsn in c'))))

  of_outcome : {A : Type 0} (o : Result A × Wal) → Leads Kept Kept o → Kept o.1
  of_outcome (ok a, w) l = l.done a refl
  of_outcome (err e, w) l = l.failed e refl

  serve_request-Kept :
      (request : AppendRequest) (w : Wal)
      → All (λ p. length p ≤ largest) request.payloads
      → Kept w
      → Kept (serve_request request w).1
  unfolding write_request raise
  serve_request-Kept request w small c = go request.ctx_err
    where
      go : (e : Option Error) → Kept (serve_request (record request { ctx_err = e }) w).1
      go none = of_outcome _ (write_payloads-Kept request.payloads [] w small c)
      go (some e) = c

  write_batch-Kept :
      (batch : List AppendRequest) (w : Wal)
      → All (λ (r : AppendRequest). All (λ p. length p ≤ largest) r.payloads) batch
      → Kept w
      → Kept (write_batch batch w).2
  unfolding write_batch
  write_batch-Kept [] w small c = c
  write_batch-Kept (request ∷ batch) w small c =
      write_batch-Kept batch (serve_request request w).1 small.1
        (serve_request-Kept request w small.0 c)

  flush_by-Kept : (policy : SyncPolicy) (w : Wal) → Kept w → Leads Kept Kept (flush_by policy w)
  unfolding flush_by pure
  flush_by-Kept sync_interval w c = Leads-ok tt w c
  flush_by-Kept sync_immediate w c =
      Leads-get_active _ w c (λ seg there. Leads-last _ w (λ d. c) (λ d. c))
  flush_by-Kept sync_batched w c =
      Leads-get_active _ w c (λ seg there. Leads-last _ w (λ d. c) (λ d. c))

  finish_with-Kept :
      (r : Result (Unit {0})) (rs : List (Result (List ℕ))) (w : Wal)
      → Kept w
      → Kept (finish_with r rs w).1
  unfolding finish_with wake_followers
  finish_with-Kept (ok u) rs w c = rw (publish_shape w w.segment_bases refl) c
  finish_with-Kept (err e) rs w c = c

  finish_if-Kept :
      (wrote : Bool) (rs : List (Result (List ℕ))) (w : Wal)
      → Kept w
      → Kept (finish_if wrote rs w).1
  unfolding finish_if finish_batch flush_after_commit
  finish_if-Kept true rs w c =
      finish_with-Kept (flush_after_commit w).0 rs (flush_after_commit w).1
        (of_outcome _ (flush_by-Kept w.opts.sync_policy w c))
  finish_if-Kept false rs w c = c

-- The active file is within the threshold of the options, or no larger than its header and one record
-- with a payload of `largest` bytes. A commit leaves it so, whatever fails in it, if no payload of the
-- batch is longer than `largest`.
pub commit-Capped :
    (batch : List AppendRequest) (w : Wal) (threshold largest : ℕ)
    → All (λ (r : AppendRequest). All (λ p. length p ≤ largest) r.payloads) batch
    → Capped threshold largest w
    → Capped threshold largest (commit batch w).1
unfolding commit
commit-Capped batch w threshold largest small c =
    finish_if-Kept threshold largest (write_batch batch w).1 (write_batch batch w).0
      (write_batch batch w).2 (write_batch-Kept threshold largest batch w small c)
