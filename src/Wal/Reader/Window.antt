-- ===== src/Wal/Reader/Window.antt =====
-- The window of a reader: whatever the files hold and whatever happens to them meanwhile.
use go_wallib.Base.{
  ℕ, zero, suc, ◌+◌, ◌^◌, ◌≤◌, ◌<◌, ◌≡◌, refl, ◌∙◌, Bool, true, false, Option, none, some, List, [],
  ◌∷◌, arith, ltb, Bool-cases, inl, inr, ltb→le,
}
use go_wallib.Errors.{Error, wal_corrupt, torn, not_exist, Result, ok, err}
use go_wallib.Exec.{Exec}
use go_wallib.Record
use go_wallib.Record.{Record, Scanner}
use go_wallib.Disk.{Disk, Handle, open_file, close_file, seek_file}
use go_wallib.Segment.Dir.{list_segments}
use go_wallib.Wal.{succ_lsn}
use go_wallib.Wal.Reader.{
  Entry, Reader, file_op, close_current, finish, fail, accept, relisted, relist_after, start, go_on,
  start_scanner, or_else, open_at, scan_with, next_unless, collect, use_opened, try_open, open_next,
  give, stop, scan_on, scan_open, ensure_open, next, entries,
}

-- The window stays as it is.
pub record Steady (r r' : Reader) : Type 0 where
  pub ends : r'.end_lsn ≡ r.end_lsn
  pub starts : r'.from_lsn ≡ r.from_lsn

Steady-refl : (r : Reader) → Steady r r
Steady-refl r = record { ends = refl; starts = refl }

Steady-trans : {r s t : Reader} → Steady r s → Steady s t → Steady r t
Steady-trans f g = record { ends = g.ends ∙ f.ends; starts = g.starts ∙ f.starts }

file_op-Steady : {A : Type 0} (m : Exec Disk A) (r : Reader) → Steady r (file_op m r).1
unfolding file_op
file_op-Steady m r = record { ends = refl; starts = refl }

close_current-Steady : (r : Reader) → Steady r (close_current r)
unfolding close_current
close_current-Steady r = go r.file
  where
    go :
        (o : Option Handle)
        → Steady r (elim o as (λ _. Reader) [
          | none ↦ record r { scanner = none }
          | some h ↦ record ((file_op (close_file h) r).1) { file = none; scanner = none }
        ])
    go none = record { ends = refl; starts = refl }
    go (some h) =
        let s = file_op-Steady (close_file h) r in record { ends = s.ends; starts = s.starts }

finish-Steady : (r : Reader) → Steady r (finish r)
unfolding finish
finish-Steady r = let s = close_current-Steady r in record { ends = s.ends; starts = s.starts }

fail-Steady : (e : Error) (r : Reader) → Steady r (fail e r)
unfolding fail
fail-Steady e r =
    let s = finish-Steady (record r { failure = some e }) in
    record { ends = s.ends; starts = s.starts }

relisted-Steady :
    (missing : List ℕ) (res : Result (List (List ℕ))) (r : Reader)
    → Steady r (relisted missing (res, r)).1
unfolding relisted
relisted-Steady missing (ok paths) r = record { ends = refl; starts = refl }
relisted-Steady missing (err e) r = Steady-refl r

relist_after-Steady : (missing : List ℕ) (r : Reader) → Steady r (relist_after missing r).1
unfolding relist_after
relist_after-Steady missing r =
    Steady-trans (file_op-Steady list_segments r) (relisted-Steady missing _ _)

start-Steady : (h : Handle) (res : Result (Unit {0})) (r : Reader) → Steady r (start h (res, r)).1
unfolding start start_scanner
start-Steady h (ok _) r = record { ends = refl; starts = refl }
start-Steady h (err e) r = Steady-trans (file_op-Steady (close_file h) r) (fail-Steady e _)

go_on-Steady : (res : Result (Unit {0})) (r : Reader) → Steady r (go_on (res, r)).1
unfolding go_on
go_on-Steady (ok _) r = Steady-refl r
go_on-Steady (err e) r = fail-Steady e r

use_opened-Steady :
    (file_name : List ℕ) (res : Result Handle) (r : Reader)
    → Steady r (use_opened file_name res r).1
unfolding use_opened
use_opened-Steady file_name (ok h) r =
    Steady-trans (file_op-Steady (seek_file h) r) (start-Steady h _ _)
use_opened-Steady file_name (err not_exist) r =
    Steady-trans (relist_after-Steady file_name r) (go_on-Steady _ _)
use_opened-Steady file_name (err e) r = fail-Steady e r

try_open-Steady : (file_name : List ℕ) (r : Reader) → Steady r (try_open file_name r).1
unfolding try_open
try_open-Steady file_name r =
    let r' : Reader = record r { index = suc r.index } in
    let moved : Steady r r' = record { ends = refl; starts = refl } in
    Steady-trans moved
      (Steady-trans (file_op-Steady (open_file file_name) r') (use_opened-Steady file_name _ _))

module _ (again : Reader → Option Bool × Reader) (keeps : (r : Reader) → Steady r (again r).1) where
  or_else-Steady : (b : Option Bool) (r : Reader) → Steady r (or_else again (b, r)).1
  unfolding or_else
  or_else-Steady none r = keeps r
  or_else-Steady (some b) r = Steady-refl r

  open_at-Steady : (o : Option (List ℕ)) (r : Reader) → Steady r (open_at again o r).1
  unfolding open_at
  open_at-Steady none r = finish-Steady r
  open_at-Steady (some file_name) r =
      Steady-trans (try_open-Steady file_name r) (or_else-Steady _ _)

open_next-Steady : (fuel : ℕ) (r : Reader) → Steady r (open_next fuel r).1
unfolding open_next
open_next-Steady zero r = Steady-refl r
open_next-Steady (suc fuel) r = open_at-Steady (open_next fuel) (open_next-Steady fuel) _ r

ensure_open-Steady :
    (fuel : ℕ) (o : Option Scanner) (r : Reader) → Steady r (ensure_open fuel o r).1
unfolding ensure_open
ensure_open-Steady fuel none r = open_next-Steady fuel r
ensure_open-Steady fuel (some s) r = Steady-refl r

-- An entry lies in the window, and the window then starts behind it. The end of the window stays.
pub record Advanced (r : Reader) (more : Option Bool) (r' : Reader) : Type 0 where
  pub ends : r'.end_lsn ≡ r.end_lsn
  pub above : more ≡ some true → r.from_lsn ≤ r'.current.lsn
  pub below : more ≡ some true → r'.current.lsn ≤ r.end_lsn
  pub behind : more ≡ some true → r'.from_lsn ≡ succ_lsn r'.current.lsn

Advanced-not :
    (r r' : Reader) (more : Option Bool)
    → (more ≡ some true → ⊥)
    → r'.end_lsn ≡ r.end_lsn
    → Advanced r more r'
Advanced-not r r' more h e = record {
  ends = e;
  above = λ x. absurd (h x);
  below = λ x. absurd (h x);
  behind = λ x. absurd (h x);
}

Advanced-Steady :
    {r s : Reader} {more : Option Bool} {t : Reader}
    → Steady r s
    → Advanced s more t
    → Advanced r more t
Advanced-Steady f g = record {
  ends = g.ends ∙ f.ends;
  above = λ x. omega (arith, g.above x, f.starts);
  below = λ x. omega (arith, g.below x, f.ends);
  behind = g.behind;
}

module _ (again : Reader → Option Bool × Reader)
    (keeps : (r : Reader) → Advanced r (again r).0 (again r).1) where
  give-Advanced :
      (rec : Record) (r : Reader)
      → Advanced r (give again (accept rec r)).0 (give again (accept rec r)).1
  unfolding give accept
  give-Advanced rec r = elim (Bool-cases (ltb rec.lsn r.from_lsn)) [
    | inl low ↦ rw low (keeps r)
    | inr in_or_above ↦ elim (Bool-cases (ltb r.end_lsn rec.lsn)) [
      | inl high ↦ rw (in_or_above, high) (Advanced-Steady (finish-Steady r) (keeps (finish r)))
      | inr inside ↦
          rw (in_or_above, inside)
            (record {
              ends = refl;
              above = λ _. ltb→le rec.lsn r.from_lsn in_or_above;
              below = λ _. ltb→le r.end_lsn rec.lsn inside;
              behind = λ _. refl;
            })
    ]
  ]

  stop-Advanced : (o : Option Error) (r : Reader) → Advanced r (stop again o r).0 (stop again o r).1
  unfolding stop
  stop-Advanced none r = Advanced-Steady (close_current-Steady r) (keeps (close_current r))
  stop-Advanced (some torn) r = Advanced-Steady (close_current-Steady r) (keeps (close_current r))
  stop-Advanced (some e) r =
      Advanced-not r _ (some false) (λ x. cc x) (fail-Steady wal_corrupt r).ends

  scan_on-Advanced :
      (b : Bool) (s : Scanner) (r : Reader)
      → Advanced r (scan_on again (b, s) r).0 (scan_on again (b, s) r).1
  unfolding scan_on
  scan_on-Advanced true s r =
      Advanced-Steady (record { ends = refl; starts = refl })
        (give-Advanced s.current (record r { scanner = some s }))
  scan_on-Advanced false s r =
      Advanced-Steady (record { ends = refl; starts = refl })
        (stop-Advanced s.first_err (record r { scanner = some s }))

  scan_with-Advanced :
      (o : Option Scanner) (r : Reader) → Advanced r (scan_with again o r).0 (scan_with again o r).1
  unfolding scan_with
  scan_with-Advanced none r = Advanced-not r r none (λ x. cc x) refl
  scan_with-Advanced (some s) r = scan_on-Advanced (Record.next s).0 (Record.next s).1 r

  scan_open-Advanced :
      (b : Option Bool) (r : Reader)
      → Advanced r (scan_open again (b, r)).0 (scan_open again (b, r)).1
  unfolding scan_open
  scan_open-Advanced none r = Advanced-not r r none (λ x. cc x) refl
  scan_open-Advanced (some false) r = Advanced-not r r (some false) (λ x. cc x) refl
  scan_open-Advanced (some true) r = scan_with-Advanced r.scanner r

  next_unless-Advanced :
      (b : Bool) (fuel : ℕ) (r : Reader)
      → Advanced r (next_unless b again fuel r).0 (next_unless b again fuel r).1
  unfolding next_unless
  next_unless-Advanced true fuel r = Advanced-not r r (some false) (λ x. cc x) refl
  next_unless-Advanced false fuel r =
      Advanced-Steady (ensure_open-Steady fuel r.scanner r) (scan_open-Advanced _ _)

pub next-Advanced : (fuel : ℕ) (r : Reader) → Advanced r (next fuel r).0 (next fuel r).1
unfolding next
next-Advanced zero r = Advanced-not r r none (λ x. cc x) refl
next-Advanced (suc fuel) r = next_unless-Advanced (next fuel) (next-Advanced fuel) r.done fuel r

-- Strictly ascending, from `lo` on and up to `hi`.
abbrev pub Ascending : ℕ → ℕ → List Entry → Type 0
Ascending lo hi [] = Unit
Ascending lo hi (e ∷ es) = (lo ≤ e.lsn) × (e.lsn ≤ hi) × Ascending (e.lsn + 1) hi es

Ascending-as :
    (a b hi hi' : ℕ) (es : List Entry) → a ≡ b → hi ≡ hi' → Ascending a hi es → Ascending b hi' es
Ascending-as a b hi hi' es e e' h = rw (← e, ← e') h

-- Whatever the files hold, whatever other goroutines do to them between the operations of the reader
-- and whichever of these fail: the entries of a reader are strictly ascending, none is below its start
-- and none is above its end. The end is below the largest LSN.
pub entries-Ascending :
    (fuel n : ℕ) (r : Reader)
    → r.end_lsn + 1 < 2 ^ 64
    → Ascending r.from_lsn r.end_lsn (entries fuel n r).0
unfolding entries
entries-Ascending fuel zero r h = tt
entries-Ascending fuel (suc n) r h =
    go (next fuel r).0 (next fuel r).1 (next-Advanced fuel r)
      (λ k. entries-Ascending fuel n (next fuel r).1 k)
  where
    go :
        (more : Option Bool) (r' : Reader)
        → Advanced r more r'
        → (r'.end_lsn + 1 < 2 ^ 64 → Ascending r'.from_lsn r'.end_lsn (entries fuel n r').0)
        → Ascending r.from_lsn r.end_lsn (collect (entries fuel n) (more, r')).0
    go none r' a ih = unfold collect in tt
    go (some false) r' a ih = unfold collect in tt
    go (some true) r' a ih =
        unfold collect in
        (
          a.above refl,
          a.below refl,
          Ascending-as r'.from_lsn (r'.current.lsn + 1) r'.end_lsn r.end_lsn _
              (omega (arith, a.behind refl, a.below refl)) a.ends (ih (omega (arith, a.ends))),
        )
