-- ===== src/Wal/Contents/Commit.antt =====
-- What a commit does: each request that is not canceled gets consecutive LSNs, and its payloads are held
-- under them.
use go_wallib.Base.{
  ℕ, suc, ◌+◌, ◌^◌, ◌≤◌, ◌<◌, ◌≡◌, refl, sym, ap, ◌∙◌, Bool, false, Option, none, some, List, [],
  ◌∷◌, ◌++◌, append-nil, append_assoc, arith, length, length-append, Option-cases, inl, inr, All,
  ◌||◌,
}
use mathlib.Core.Path.{subst}
use go_wallib.Errors.{Error, Result, ok, err}
use go_wallib.Exec.{pure, raise}
use go_wallib.Record.{Record}
use go_wallib.Wal.{Wal, Options}
use go_wallib.Wal.Append.{
  AppendRequest, count_lsn, write_payloads, write_request, serve_request, write_batch, is_ok,
}
use go_wallib.Wal.Lsns.{lsns_from, payload_count}
use go_wallib.Wal.Contents.{
  Log, Succeeds, Succeeds-bind, Succeeds-ok, Succeeds-modify, Succeeds-gets, Succeeds-map,
}
use go_wallib.Wal.Contents.Append.{Moved, write_record-Log}

-- The records of the payloads, from an LSN on.
unfoldable pub records_at : ℕ → List (List ℕ) → List Record
records_at lsn [] = []
records_at lsn (p ∷ ps) = record { lsn = lsn; payload = p } ∷ records_at (lsn + 1) ps

abbrev pub PayloadFits : ℕ → List ℕ → Type 0
PayloadFits max_rec p = length p ≤ max_rec

next_after :
    (w w' : Wal) → Moved 0 w w' → w.next_lsn + 1 < 2 ^ 64 → (count_lsn w').next_lsn ≡ w.next_lsn + 1
unfolding count_lsn
next_after w w' m small = let n = m.next in omega arith

max_after :
    (w w' : Wal) → Moved 0 w w' → (count_lsn w').opts.max_record_size ≡ w.opts.max_record_size
unfolding count_lsn
max_after w w' m = ap (λ (o : Options). o.max_record_size) m.opts

Moved-on :
    (w w' w'' : Wal) (n : ℕ)
    → w.next_lsn + 1 < 2 ^ 64
    → Moved 0 w w'
    → Moved n (count_lsn w') w''
    → Moved (suc n) w w''
unfolding count_lsn
Moved-on w w' w'' n small m k =
    let a = m.next in
    let b = k.next in
    record {
      next = omega arith;
      last = k.last ∙ m.last;
      opts = k.opts ∙ m.opts;
      closed = k.closed ∙ m.closed;
    }

pub write_payloads-Log :
    (payloads : List (List ℕ)) (assigned : List ℕ) (w : Wal) (recs : List Record)
    → Log w recs
    → All (PayloadFits w.opts.max_record_size) payloads
    → w.opts.max_record_size < 2 ^ 32
    → w.next_lsn + length payloads < 2 ^ 64
    → Succeeds
        (λ lsns w'.
          (lsns ≡ assigned ++ lsns_from w.next_lsn (length payloads))
          × Log w' (recs ++ records_at w.next_lsn payloads)
          × Moved (length payloads) w w')
        (write_payloads payloads assigned w)
unfolding write_payloads pure lsns_from records_at
write_payloads-Log [] assigned w recs l fits max small = Succeeds-ok assigned w (
  sym (append-nil assigned),
  rw (append-nil recs) l,
  record { next = omega arith; last = refl; opts = refl; closed = refl },
)
write_payloads-Log (p ∷ ps) assigned w recs l fits max small = Succeeds-gets _ _ w (
    Succeeds-bind _ _ w
      (write_record-Log w recs (record { lsn = w.next_lsn; payload = p }) l
        (let le = fits.0 in
          record { lsn_fits = omega arith; length_fits = omega arith; within_max = fits.0 })
        refl (omega arith))
      (λ _ w' written. Succeeds-modify _ _ w' (
        Succeeds-map _
          (write_payloads-Log ps (assigned ++ (w.next_lsn ∷ [])) (count_lsn w') _ written.0
            (rw (max_after w w' written.1) fits.1) (rw (max_after w w' written.1) max)
            (let n = next_after w w' written.1 (omega arith) in omega arith))
          (λ lsns w'' done.
            let n = next_after w w' written.1 (omega arith) in
            (
              done.0
                  ∙ append_assoc assigned (w.next_lsn ∷ []) _
                  ∙ ap (λ k. assigned ++ (w.next_lsn ∷ lsns_from k (length ps))) n,
              subst (Log w'')
                  (append_assoc recs (_ ∷ []) _
                    ∙ ap (λ k. recs ++ (record { lsn = w.next_lsn; payload = p } ∷ records_at k ps))
                        n)
                  done.1,
              Moved-on w w' w'' (length ps) (omega arith) written.1 done.2,
            )))))

pub length-records_at : (lsn : ℕ) (ps : List (List ℕ)) → length (records_at lsn ps) ≡ length ps
unfolding records_at
length-records_at lsn [] = refl
length-records_at lsn (p ∷ ps) = ap suc (length-records_at (lsn + 1) ps)

-- What a batch of requests comes to, from an LSN on: the records of those that are not canceled, and the
-- result of each.
unfoldable pub batch_records : ℕ → List AppendRequest → List Record
unfolding records_at
batch_records lsn [] = []
batch_records lsn (request ∷ batch) = elim request.ctx_err [
  | some e ↦ batch_records lsn batch
  | none ↦ records_at lsn request.payloads ++ batch_records (lsn + length request.payloads) batch
]

unfoldable pub batch_results : ℕ → List AppendRequest → List (Result (List ℕ))
unfolding lsns_from
batch_results lsn [] = []
batch_results lsn (request ∷ batch) = elim request.ctx_err [
  | some e ↦ err e ∷ batch_results lsn batch
  | none ↦
      ok (lsns_from lsn (length request.payloads))
      ∷ batch_results (lsn + length request.payloads) batch
]

pub length-batch_records :
    (lsn : ℕ) (batch : List AppendRequest) → length (batch_records lsn batch) ≤ payload_count batch
unfolding batch_records
length-batch_records lsn [] = omega arith
length-batch_records lsn (request ∷ batch) = elim (Option-cases request.ctx_err) [
  | inl e ↦ rw e (
      omega (
        arith,
        length-append (records_at lsn request.payloads)
            (batch_records (lsn + length request.payloads) batch),
        length-records_at lsn request.payloads,
        length-batch_records (lsn + length request.payloads) batch,
      ))
  | inr (x, e) ↦ rw e (omega (arith, length-batch_records lsn batch))
]

abbrev pub RequestFits : ℕ → AppendRequest → Type 0
RequestFits max_rec request = All (PayloadFits max_rec) request.payloads

-- A batch that was written.
pub record Done (w : Wal) (recs : List Record) (batch : List AppendRequest)
    (o : List (Result (List ℕ)) × Bool × Wal) : Type 0 where
  pub results : o.0 ≡ batch_results w.next_lsn batch
  pub log : Log o.2 (recs ++ batch_records w.next_lsn batch)
  pub count : ℕ
  pub moved : Moved count w o.2
  pub bound : count ≤ payload_count batch
  pub counts : count ≡ length (batch_records w.next_lsn batch)
  pub idle : o.1 ≡ false → count ≡ 0
  pub still : o.1 ≡ false → o.2 ≡ w

-- The first request, and the rest of the batch.
abbrev after_first :
    List AppendRequest → Result (List ℕ) × Wal → List (Result (List ℕ)) × Bool × Wal
after_first batch (r, w) =
    (r ∷ (write_batch batch w).0, is_ok r || (write_batch batch w).1, (write_batch batch w).2)

Done-written :
    (w w' : Wal) (recs : List Record) (payloads : List (List ℕ)) (batch : List AppendRequest)
    → Log w' (recs ++ records_at w.next_lsn payloads)
    → Moved (length payloads) w w'
    → Done w' (recs ++ records_at w.next_lsn payloads) batch (write_batch batch w')
    → Done w recs
        (record { ctx_err = none; payloads = payloads } ∷ batch)
        (after_first batch (ok (lsns_from w.next_lsn (length payloads)), w'))
unfolding batch_records batch_results
Done-written w w' recs payloads batch l m d =
    let n = m.next in
    let k = d.moved.next in
    let le = d.bound in
    record {
      results =
          ap (λ rs. ok (lsns_from w.next_lsn (length payloads)) ∷ rs)
            (d.results ∙ ap (λ lsn. batch_results lsn batch) n);
      log =
          subst (Log (write_batch batch w').2)
            (append_assoc recs (records_at w.next_lsn payloads) _
              ∙ ap (λ lsn. recs ++ (records_at w.next_lsn payloads ++ batch_records lsn batch)) n)
            d.log;
      count = length payloads + d.count;
      moved = record {
        next = omega arith;
        last = d.moved.last ∙ m.last;
        opts = d.moved.opts ∙ m.opts;
        closed = d.moved.closed ∙ m.closed;
      };
      bound = omega arith;
      counts = omega (
        arith,
        d.counts,
        length-records_at w.next_lsn payloads,
        length-append (records_at w.next_lsn payloads)
            (batch_records (w.next_lsn + length payloads) batch),
        ap (λ lsn. length (batch_records lsn batch)) n,
      );
      idle = λ e. absurd (cc e);
      still = λ e. absurd (cc e);
    }

Done-canceled :
    (w : Wal) (recs : List Record) (payloads : List (List ℕ)) (e : Error)
    (batch : List AppendRequest)
    → Done w recs batch (write_batch batch w)
    → Done w recs
        (record { ctx_err = some e; payloads = payloads } ∷ batch)
        (after_first batch (err e, w))
unfolding batch_records batch_results
Done-canceled w recs payloads e batch d =
    let le = d.bound in
    record {
      results = ap (λ rs. err e ∷ rs) d.results;
      log = d.log;
      count = d.count;
      moved = d.moved;
      bound = omega arith;
      counts = d.counts;
      idle = d.idle;
      still = d.still;
    }

pub write_batch-Done :
    (batch : List AppendRequest) (w : Wal) (recs : List Record)
    → Log w recs
    → All (RequestFits w.opts.max_record_size) batch
    → w.opts.max_record_size < 2 ^ 32
    → w.next_lsn + payload_count batch < 2 ^ 64
    → Done w recs batch (write_batch batch w)
unfolding write_batch write_request raise
write_batch-Done [] w recs l fits max small =
    unfold batch_records batch_results in
    record {
      results = refl;
      log = rw (append-nil recs) l;
      count = 0;
      moved = record { next = omega arith; last = refl; opts = refl; closed = refl };
      bound = omega arith;
      counts = refl;
      idle = λ e. refl;
      still = λ e. refl;
    }
write_batch-Done (request ∷ batch) w recs l fits max small =
    go request.ctx_err
      (λ w' recs' l' fits' max' small'. write_batch-Done batch w' recs' l' fits' max' small')
  where
    go :
        (c : Option Error)
        → ((w' : Wal) (recs' : List Record)
            → Log w' recs'
            → All (RequestFits w'.opts.max_record_size) batch
            → w'.opts.max_record_size < 2 ^ 32
            → w'.next_lsn + payload_count batch < 2 ^ 64
            → Done w' recs' batch (write_batch batch w'))
        → Done w recs
            (record { ctx_err = c; payloads = request.payloads } ∷ batch)
            (after_first batch (serve_request (record request { ctx_err = c }) w))
    go (some e) ih =
        Done-canceled w recs request.payloads e batch (ih w recs l fits.1 max (omega arith))
    go none ih =
        let h = write_payloads-Log request.payloads [] w recs l fits.0 max (omega arith) in
        let m = h.post.2 in
        let n = m.next in
        let same : h.state.opts.max_record_size ≡ w.opts.max_record_size =
          ap (λ (o : Options). o.max_record_size) m.opts in
        subst
          (λ o.
            Done w recs (record { ctx_err = none; payloads = request.payloads } ∷ batch)
              (after_first batch o))
          (sym (h.run ∙ ap (λ lsns. (ok lsns, h.state)) h.post.0))
          (Done-written w h.state recs request.payloads batch h.post.1 m
            (ih h.state _ h.post.1 (rw same fits.1) (rw same max) (omega arith)))
