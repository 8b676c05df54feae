-- ===== src/Wal/Lsns.antt =====
-- The LSNs that the log hands out, whatever fails on the way.
use go_wallib.Base.{
  ℕ, zero, suc, ◌+◌, ◌^◌, ◌≤◌, ◌<◌, ◌≡◌, refl, ap, ◌∙◌, Option, none, some, List, [], ◌∷◌, ◌++◌,
  append_assoc, append-nil, arith, length, inl, inr, ◌⊎◌,
}
use native.Mathlib.Nat.{mod-eq_of_lt}
use mathlib.Core.Path.{subst}
use go_wallib.Errors.{Error, Result, ok, err}
use go_wallib.Exec.{Exec, ◌>>=◌, continue, raise}
use go_wallib.Wal.{Wal}
use go_wallib.Wal.Append.{
  AppendRequest, count_lsn, write_record, write_payloads, write_request, serve_request, write_batch,
  fail_results,
}
use go_wallib.Wal.Same.{Same, Same-refl, write_record-Same}

-- `count` numbers from `start` on.
unfoldable pub lsns_from : ℕ → ℕ → List ℕ
lsns_from start zero = []
lsns_from start (suc count) = start ∷ lsns_from (start + 1) count

-- What `write_payloads` makes of the counter: on success one LSN for each payload, without a gap;
-- on an error the counter has passed those that were written.
pub record Written (count : ℕ) (assigned : List ℕ) (w : Wal) (r : Result (List ℕ)) (w' : Wal)
    : Type 0 where
  pub used : ℕ
  pub within : used ≤ count
  pub next : w'.next_lsn ≡ w.next_lsn + used
  pub last : w'.last_lsn ≡ w.last_lsn
  pub outcome :
      ((r ≡ ok (assigned ++ lsns_from w.next_lsn count)) × (used ≡ count))
      ⊎ ((e : Error) × (r ≡ err e))

abbrev write_rest : List (List ℕ) → List ℕ → Unit {0} → Exec Wal (List ℕ)
write_rest payloads assigned _ w = write_payloads payloads assigned (count_lsn w)

-- One payload, then the others.
write_payloads_step :
    (payload : List ℕ) (payloads : List (List ℕ)) (assigned : List ℕ) (w : Wal)
    → write_payloads (payload ∷ payloads) assigned w
      ≡ continue
          (write_record w.next_lsn payload w).0
          (write_rest payloads (assigned ++ (w.next_lsn ∷ [])))
          (write_record w.next_lsn payload w).1
unfolding write_payloads ◌>>=◌
write_payloads_step payload payloads assigned w = refl

pub next-count_lsn :
    (w w' : Wal) → Same w w' → w.next_lsn + 1 < 2 ^ 64 → (count_lsn w').next_lsn ≡ w.next_lsn + 1
unfolding count_lsn
next-count_lsn w w' same h = rw same.next (mod-eq_of_lt h)

Written-cons :
    (count : ℕ) (assigned : List ℕ) (w w' : Wal) (r : Result (List ℕ)) (w'' : Wal)
    → w.next_lsn + suc count < 2 ^ 64
    → Same w w'
    → Written count (assigned ++ (w.next_lsn ∷ [])) (count_lsn w') r w''
    → Written (suc count) assigned w r w''
unfolding count_lsn lsns_from
Written-cons count assigned w w' r w'' h same more =
    let counted = next-count_lsn w w' same (omega arith) in
    record {
      used = suc more.used;
      within = omega (arith, more.within);
      next = omega (arith, more.next, counted);
      last = more.last ∙ same.last;
      outcome = elim more.outcome [
        | inl (whole, all) ↦ inl (
          whole
              ∙ ap ok (
                  append_assoc assigned (w.next_lsn ∷ []) _
                  ∙ ap (λ n. assigned ++ (w.next_lsn ∷ lsns_from n count)) counted),
          omega arith,
        )
        | inr failed ↦ inr failed
      ];
    }

Written-refused :
    (count : ℕ) (assigned : List ℕ) (w w' : Wal) (e : Error)
    → Same w w'
    → Written count assigned w (err e) w'
Written-refused count assigned w w' e same = record {
  used = 0;
  within = omega arith;
  next = omega (arith, same.next);
  last = same.last;
  outcome = inr (e, refl);
}

pub write_record-keeps_Same :
    (lsn : ℕ) (payload : List ℕ) (w : Wal) → Same w (write_record lsn payload w).1
write_record-keeps_Same lsn payload w = (write_record-Same lsn payload).holds w (Same-refl w)

pub write_payloads-Written :
    (payloads : List (List ℕ)) (assigned : List ℕ) (w : Wal)
    → w.next_lsn + length payloads < 2 ^ 64
    → Written
        (length payloads)
        assigned
        w
        (write_payloads payloads assigned w).0
        (write_payloads payloads assigned w).1
write_payloads-Written [] assigned w h = record {
  used = 0;
  within = omega arith;
  next = unfold write_payloads ◌>>=◌ in omega arith;
  last = unfold write_payloads ◌>>=◌ in refl;
  outcome = unfold write_payloads ◌>>=◌ lsns_from in inl (rw append-nil, refl);
}
write_payloads-Written (payload ∷ payloads) assigned w h = rw write_payloads_step (
    split (write_record w.next_lsn payload w).0 (write_record w.next_lsn payload w).1
      (write_record-keeps_Same w.next_lsn payload w)
      (write_payloads-Written payloads (assigned ++ (w.next_lsn ∷ [])) _ (
        omega (
          arith,
          next-count_lsn w _ (write_record-keeps_Same w.next_lsn payload w) (omega arith),
        ))))
  where
    split :
        (r : Result (Unit {0})) (w' : Wal)
        → Same w w'
        → Written
            (length payloads)
            (assigned ++ (w.next_lsn ∷ []))
            (count_lsn w')
            (write_payloads payloads (assigned ++ (w.next_lsn ∷ [])) (count_lsn w')).0
            (write_payloads payloads (assigned ++ (w.next_lsn ∷ [])) (count_lsn w')).1
        → Written
            (suc (length payloads))
            assigned
            w
            (continue r (write_rest payloads (assigned ++ (w.next_lsn ∷ []))) w').0
            (continue r (write_rest payloads (assigned ++ (w.next_lsn ∷ []))) w').1
    split (ok _) w' same more = Written-cons (length payloads) assigned w w' _ _ h same more
    split (err e) w' same more = Written-refused (suc (length payloads)) assigned w w' e same

-- Strictly ascending, from `lo` on and below `hi`.
abbrev pub InOrder : ℕ → List ℕ → ℕ → Type 0
InOrder lo [] hi = lo ≤ hi
InOrder lo (x ∷ xs) hi = (lo ≤ x) × InOrder (x + 1) xs hi

pub InOrder-append :
    (lo mid hi : ℕ) (xs ys : List ℕ)
    → InOrder lo xs mid
    → InOrder mid ys hi
    → InOrder lo (xs ++ ys) hi
InOrder-append lo mid hi [] [] h k = omega arith
InOrder-append lo mid hi [] (y ∷ ys) h k = (omega arith, k.1)
InOrder-append lo mid hi (x ∷ xs) ys h k = (h.0, InOrder-append (x + 1) mid hi xs ys h.1 k)

pub InOrder-le : (lo hi : ℕ) (xs : List ℕ) → InOrder lo xs hi → lo ≤ hi
InOrder-le lo hi [] h = h
InOrder-le lo hi (x ∷ xs) h = omega (arith, InOrder-le (x + 1) hi xs h.1, h.0)

lsns_from-InOrder : (start count : ℕ) → InOrder start (lsns_from start count) (start + count)
unfolding lsns_from
lsns_from-InOrder start zero = omega arith
lsns_from-InOrder start (suc count) = (
  omega arith,
  subst (InOrder (start + 1) (lsns_from (start + 1) count)) (omega arith)
      (lsns_from-InOrder (start + 1) count),
)

-- The LSNs that callers get.
abbrev pub acknowledged : List (Result (List ℕ)) → List ℕ
acknowledged [] = []
acknowledged (ok lsns ∷ rs) = lsns ++ acknowledged rs
acknowledged (err e ∷ rs) = acknowledged rs

abbrev pub payload_count : List AppendRequest → ℕ
payload_count [] = 0
payload_count (request ∷ batch) = length request.payloads + payload_count batch

-- The LSNs acknowledged between two states: ascending, from the counter before to the counter after,
-- which has moved by at most `budget`.
pub record Acks (w : Wal) (lsns : List ℕ) (budget : ℕ) (w' : Wal) : Type 0 where
  pub order : InOrder w.next_lsn lsns w'.next_lsn
  pub bound : w'.next_lsn ≤ w.next_lsn + budget

pub Acks-append :
    (u v w : Wal) (xs ys : List ℕ) (b c : ℕ)
    → Acks u xs b v
    → Acks v ys c w
    → Acks u (xs ++ ys) (b + c) w
Acks-append u v w xs ys b c f g = record {
  order = InOrder-append u.next_lsn v.next_lsn w.next_lsn xs ys f.order g.order;
  bound = omega (arith, f.bound, g.bound);
}

Acks-Written :
    (count : ℕ) (w w' : Wal) (r : Result (List ℕ))
    → Written count [] w r w'
    → Acks w (acknowledged (r ∷ [])) count w'
Acks-Written count w w' r h = elim h.outcome [
  | inl (whole, all) ↦
      let reached : w.next_lsn + count ≡ w'.next_lsn = omega (arith, h.next, all) in
      rw whole (record {
        order =
            rw (append-nil (lsns_from w.next_lsn count))
              (rw reached at (lsns_from-InOrder w.next_lsn count));
        bound = omega (arith, h.next, h.within);
      })
  | inr (e, failed) ↦
      rw failed (record { order = omega (arith, h.next); bound = omega (arith, h.next, h.within) })
]

pub serve_request-Acks :
    (request : AppendRequest) (w : Wal)
    → w.next_lsn + length request.payloads < 2 ^ 64
    → Acks w
        (acknowledged ((serve_request request w).0 ∷ []))
        (length request.payloads)
        (serve_request request w).1
unfolding raise write_request
serve_request-Acks request w h = go request.ctx_err
  where
    go :
        (c : Option Error)
        → Acks w
            (acknowledged ((serve_request (record request { ctx_err = c }) w).0 ∷ []))
            (length request.payloads)
            (serve_request (record request { ctx_err = c }) w).1
    go none = Acks-Written _ w _ _ (write_payloads-Written request.payloads [] w h)
    go (some e) = record { order = omega arith; bound = omega arith }

acknowledged-cons :
    (r : Result (List ℕ)) (rs : List (Result (List ℕ)))
    → acknowledged (r ∷ rs) ≡ acknowledged (r ∷ []) ++ acknowledged rs
acknowledged-cons (ok lsns) rs = rw (append-nil lsns)
acknowledged-cons (err e) rs = refl

pub write_batch-Acks :
    (batch : List AppendRequest) (w : Wal)
    → w.next_lsn + payload_count batch < 2 ^ 64
    → Acks w (acknowledged (write_batch batch w).0) (payload_count batch) (write_batch batch w).2
unfolding write_batch
write_batch-Acks [] w h = record { order = omega arith; bound = omega arith }
write_batch-Acks (request ∷ batch) w h =
    let first = serve_request-Acks request w (omega arith) in
    let others = write_batch-Acks batch (serve_request request w).1 (omega (arith, first.bound)) in
    rw acknowledged-cons (Acks-append _ _ _ _ _ _ _ first others)

-- A failed flush leaves nothing acknowledged.
pub acknowledged-fail_results :
    (e : Error) (rs : List (Result (List ℕ))) → acknowledged (fail_results e rs) ≡ []
acknowledged-fail_results e [] = refl
acknowledged-fail_results e (ok lsns ∷ rs) = acknowledged-fail_results e rs
acknowledged-fail_results e (err e' ∷ rs) = acknowledged-fail_results e rs
