-- ===== src/Wal/Indexed/Append.antt =====
-- Appends keep the index well formed: a roll puts the next LSN behind the bases before it.
use go_wallib.Base.{
  ℕ, ◌+◌, ◌^◌, ◌<◌, ◌≡◌, refl, sym, ◌∙◌, ap, Option, none, some, List, [], ◌∷◌, ◌++◌, arith, length,
  Bool, true, false, inr, if◌then◌else◌, ◌==◌,
}
use go_wallib.Exec.{modify, pure, raise, ◌>>=◌}
use go_wallib.Exec.Yields.{Yields-any}
use go_wallib.Record.{encoded_size}
use go_wallib.Segment.Header.{header_size}
use go_wallib.Segment.Files.{Segment, pred_lsn, append}
use go_wallib.Segment.Bases.{Fresh, Based, create-Fresh, append-Based}
use go_wallib.Wal.{
  SyncPolicy, sync_interval, sync_immediate, sync_batched, Wal, on_disk, get_active, install_active,
  succ_lsn,
}
use go_wallib.Errors.{Error, Result, ok, err}
use go_wallib.Wal.Append.{
  flush_by, AppendRequest, serve_request, write_request, write_batch, flush_after_commit,
  publish_last_lsn, wake_followers, finish_with, finish_batch, finish_if, commit, roll,
  install_rolled, needs_roll, write_record, count_lsn, write_payloads,
}
use go_wallib.Wal.Lsns.{
  InOrder-append, next-count_lsn, payload_count, serve_request-Acks, write_record-keeps_Same,
}
use go_wallib.Wal.Same.{Same}
use go_wallib.Wal.Indexed.{
  Indexed, Indexed-disk, StartsAt, last_base, last_base-snoc, InOrder-last, InOrder-raise,
  last_base-lt, Leaves, Leaves-ok, Leaves-and, Leaves-Indexed, Leaves-bind, Leaves-on_disk,
  Leaves-get_active, Leaves-last, Leaves-modify, Leaves-gets,
}

StartsAt-snoc :
    (first b : ℕ) (bases : List ℕ)
    → last_base bases ≡ some b
    → StartsAt first bases
    → (new : ℕ) → StartsAt first (bases ++ (new ∷ []))
StartsAt-snoc first b [] e s new = absurd (cc e)
StartsAt-snoc first b (x ∷ bases) e s new = s

-- The newest segment has a record, and the new one starts behind it.
rolled-Indexed :
    (w : Wal) (new : Segment) (b : ℕ)
    → Indexed w
    → last_base w.segment_bases ≡ some b
    → b < w.next_lsn
    → Fresh w.next_lsn new
    → Indexed (install_rolled new w.next_lsn w)
unfolding install_rolled
rolled-Indexed w new b i newest lt fresh = record {
  ascending =
      InOrder-append 0 w.next_lsn (w.next_lsn + 1) w.segment_bases _
        (InOrder-last 0 (w.next_lsn + 1) w.next_lsn b w.segment_bases i.ascending newest lt)
        (omega arith, omega arith);
  open_one = record {
    seg = new;
    there = refl;
    newest = last_base-snoc w.segment_bases w.next_lsn ∙ ap some (sym fresh.base);
    written = λ more. absurd (omega (arith, fresh.size, more));
  };
  first = StartsAt-snoc w.first_lsn b w.segment_bases newest i.first w.next_lsn;
}

-- The index is well formed, at this counter.
record At (lsn : ℕ) (w : Wal) : Type 0 where
  indexed : Indexed w
  next : w.next_lsn ≡ lsn

roll-At :
    (w : Wal) (i : Indexed w)
    → header_size < i.open_one.seg.size
    → Leaves (λ _. At w.next_lsn) (roll w.next_lsn w)
unfolding roll
roll-At w i grown = Leaves-get_active _ w i.open_one.seg i.open_one.there (
    Leaves-on_disk _ _ w i (Yields-any _) (λ _ d. λ _.
      Leaves-on_disk _ _ (record w { disk = d }) (Indexed-disk w d i) (create-Fresh w.next_lsn)
        (λ new d' fresh.
          let v : Wal = record w { disk = d' } in
          let rolled =
            rolled-Indexed v new i.open_one.seg.base_lsn (Indexed-disk w d' i) i.open_one.newest
              (i.open_one.written grown) fresh in
          Leaves-modify _ _ v (
            Leaves-last _ (install_rolled new w.next_lsn v) rolled (λ _ d''. record {
              indexed = Indexed-disk _ d'' rolled;
              next = unfold install_rolled in refl;
            })))))

-- A record in the active segment, counted.
written-Indexed :
    (w : Wal) (seg : Segment) (b : ℕ)
    → Indexed w
    → last_base w.segment_bases ≡ some b
    → Based b seg
    → w.next_lsn + 1 < 2 ^ 64
    → Indexed (count_lsn (install_active seg w))
unfolding count_lsn install_active
written-Indexed w seg b i newest based h =
    let next : succ_lsn w.next_lsn ≡ w.next_lsn + 1 = omega arith in
    record {
      ascending = rw next (
          InOrder-raise 0 (w.next_lsn + 1) (w.next_lsn + 1 + 1) w.segment_bases (omega arith)
            i.ascending);
      open_one = record {
        seg = seg;
        there = refl;
        newest = newest ∙ ap some (sym based.base);
        written = λ more. omega (
          arith,
          next,
          based.base,
          last_base-lt 0 (w.next_lsn + 1) b w.segment_bases i.ascending newest,
        );
      };
      first = i.first;
    }

-- The append itself, after the roll rule.
append_target-Counted :
    (w : Wal) (lsn : ℕ) (payload : List ℕ)
    → At lsn w
    → lsn + 1 < 2 ^ 64
    → Leaves
        (λ _ w'. Indexed (count_lsn w'))
        ((get_active >>= λ target.
            on_disk (append target lsn payload) >>= λ written. modify (install_active written.1))
          w)
append_target-Counted w lsn payload a h =
    let i = a.indexed in
    Leaves-get_active _ w i.open_one.seg i.open_one.there (
      Leaves-on_disk _ _ w i (append-Based i.open_one.seg lsn payload) (λ written d b.
        unfold modify in
        Leaves-ok tt _ (
          written-Indexed (record w { disk = d }) written.1 i.open_one.seg.base_lsn
            (Indexed-disk w d i) i.open_one.newest b (omega (arith, a.next, h)))))

roll_if_full :
    (full : Bool) (w : Wal) (i : Indexed w)
    → (full ≡ true → header_size < i.open_one.seg.size)
    → Leaves (λ _. At w.next_lsn) ((if full then roll w.next_lsn else pure tt) w)
unfolding pure
roll_if_full true w i grown = roll-At w i (grown refl)
roll_if_full false w i grown = Leaves-ok tt w (record { indexed = i; next = refl })

grown_of :
    (seg : Segment) (needed limit : ℕ) → needs_roll seg needed limit ≡ true → header_size < seg.size
grown_of seg needed limit h = ground arith

pub write_record-Counted :
    (w : Wal) (payload : List ℕ)
    → Indexed w
    → w.next_lsn + 1 < 2 ^ 64
    → Leaves (λ _ w'. Indexed (count_lsn w')) (write_record w.next_lsn payload w)
unfolding write_record
write_record-Counted w payload i h = Leaves-get_active _ w i.open_one.seg i.open_one.there (
    Leaves-gets _ _ w (
      Leaves-bind _ _ w
        (roll_if_full _ w i
          (grown_of i.open_one.seg (encoded_size (length payload)) w.opts.max_segment_size))
        (λ _ w' a. append_target-Counted w' w.next_lsn payload a h)))

pub write_payloads-Indexed :
    (payloads : List (List ℕ)) (assigned : List ℕ) (w : Wal)
    → Indexed w
    → w.next_lsn + length payloads < 2 ^ 64
    → Leaves (λ _ w'. Indexed w') (write_payloads payloads assigned w)
unfolding write_payloads pure
write_payloads-Indexed [] assigned w i h = Leaves-ok assigned w i
write_payloads-Indexed (payload ∷ payloads) assigned w i h = Leaves-gets _ _ w (
    Leaves-bind _ _ w written (λ _ w' counted. Leaves-modify _ _ w' (
      write_payloads-Indexed payloads (assigned ++ (w.next_lsn ∷ [])) (count_lsn w') counted.0
        (omega (arith, next-count_lsn w w' counted.1 (omega arith))))))
  where
    written :
        Leaves (λ _ w'. Indexed (count_lsn w') × Same w w') (write_record w.next_lsn payload w)
    written =
        Leaves-and _ (write_record-Counted w payload i (omega arith))
          (write_record-keeps_Same w.next_lsn payload w)

serve_request-Indexed :
    (request : AppendRequest) (w : Wal)
    → Indexed w
    → w.next_lsn + length request.payloads < 2 ^ 64
    → Indexed (serve_request request w).1
unfolding write_request raise
serve_request-Indexed request w i h = go request.ctx_err
  where
    go : (c : Option Error) → Indexed (serve_request (record request { ctx_err = c }) w).1
    go none = Leaves-Indexed _ (write_payloads-Indexed request.payloads [] w i h)
    go (some e) = i

write_batch-Indexed :
    (batch : List AppendRequest) (w : Wal)
    → Indexed w
    → w.next_lsn + payload_count batch < 2 ^ 64
    → Indexed (write_batch batch w).2
unfolding write_batch
write_batch-Indexed [] w i h = i
write_batch-Indexed (request ∷ batch) w i h =
    write_batch-Indexed batch (serve_request request w).1
      (serve_request-Indexed request w i (omega arith))
      (omega (arith, (serve_request-Acks request w (omega arith)).bound))

-- An empty log starts where its first segment does.
unfoldable pub first_of : Bool → ℕ → List ℕ → ℕ
first_of false first bases = first
first_of true first [] = first
first_of true first (base ∷ bases) = base

StartsAt-first_of :
    (b : Bool) (first : ℕ) (bases : List ℕ)
    → StartsAt first bases
    → StartsAt (first_of b first bases) bases
unfolding first_of
StartsAt-first_of false first bases s = s
StartsAt-first_of true first [] s = s
StartsAt-first_of true first (base ∷ bases) s = inr refl

pub publish_shape :
    (w : Wal) (bases : List ℕ)
    → w.segment_bases ≡ bases
    → (publish_last_lsn w).1 ≡ record w {
      last_lsn = pred_lsn w.next_lsn;
      first_lsn = first_of (w.first_lsn == 0) w.first_lsn bases;
    }
unfolding publish_last_lsn first_of
publish_shape w [] e = ground arith
publish_shape w (base ∷ bases) e = ground arith

published-Indexed : (w : Wal) → Indexed w → Indexed (wake_followers (publish_last_lsn w).1)
unfolding wake_followers
published-Indexed w i = rw (publish_shape w w.segment_bases refl) (record {
  ascending = i.ascending;
  open_one = i.open_one;
  first = StartsAt-first_of (w.first_lsn == 0) w.first_lsn w.segment_bases i.first;
})

flush_by-Leaves :
    (policy : SyncPolicy) (w : Wal) → Indexed w → Leaves (λ _ w'. Indexed w') (flush_by policy w)
unfolding flush_by pure
flush_by-Leaves sync_interval w i = Leaves-ok tt w i
flush_by-Leaves sync_immediate w i =
    Leaves-get_active _ w i.open_one.seg i.open_one.there
      (Leaves-last _ w i (λ _ d. Indexed-disk w d i))
flush_by-Leaves sync_batched w i =
    Leaves-get_active _ w i.open_one.seg i.open_one.there
      (Leaves-last _ w i (λ _ d. Indexed-disk w d i))

flush_after_commit-Indexed : (w : Wal) → Indexed w → Indexed (flush_after_commit w).1
unfolding flush_after_commit
flush_after_commit-Indexed w i = Leaves-Indexed _ (flush_by-Leaves w.opts.sync_policy w i)

finish_with-Indexed :
    (r : Result (Unit {0})) (rs : List (Result (List ℕ))) (w : Wal)
    → Indexed w
    → Indexed (finish_with r rs w).1
unfolding finish_with
finish_with-Indexed (ok _) rs w i = published-Indexed w i
finish_with-Indexed (err e) rs w i = i

finish_if-Indexed :
    (wrote : Bool) (rs : List (Result (List ℕ))) (w : Wal)
    → Indexed w
    → Indexed (finish_if wrote rs w).1
unfolding finish_if finish_batch
finish_if-Indexed true rs w i =
    finish_with-Indexed (flush_after_commit w).0 rs (flush_after_commit w).1
      (flush_after_commit-Indexed w i)
finish_if-Indexed false rs w i = i

pub commit-Indexed :
    (batch : List AppendRequest) (w : Wal)
    → Indexed w
    → w.next_lsn + payload_count batch < 2 ^ 64
    → Indexed (commit batch w).1
unfolding commit
commit-Indexed batch w i h =
    finish_if-Indexed (write_batch batch w).1 (write_batch batch w).0 (write_batch batch w).2
      (write_batch-Indexed batch w i h)
