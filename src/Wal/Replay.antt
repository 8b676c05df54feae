-- ===== src/Wal/Replay.antt =====
-- `Replay` of pkg/wal/reader.go. The function that it calls is a function of the entries that it has been
-- handed: the error that it returns at the last of them, if any.
mod Tests
use go_wallib.Base.{
  ℕ, zero, suc, ◌≡◌, refl, Bool, true, false, Option, none, some, List, [], ◌∷◌, ◌++◌,
}
use go_wallib.Errors.{Error, Result, ok, err}
use go_wallib.Disk.{Disk}
use go_wallib.Wal.{Wal}
use go_wallib.Wal.Writer.{outcome}
use go_wallib.Wal.Reader.{Entry, Reader, new_reader, finish, next, collect, entries}

-- `Reader.Close`.
unfoldable pub close_reader : Reader → Reader
unfolding finish
close_reader r = finish r

-- What comes of a run: its result (`none` when the rounds are used up), the entries that the function was
-- handed, and the reader.
abbrev pub Replayed : Type 0
Replayed = Option (Result (Unit {0})) × List Entry × Reader

-- The function's answer, and the rest of the loop.
unfoldable pub answer : Option Error → Replayed → List Entry → Reader → Replayed
answer (some e) rest got r = (some (err e), got, r)
answer none rest got r = rest

unfoldable pub replay_round :
    (List Entry → Option Error)
    → (List Entry → Reader → Replayed)
    → List Entry
    → Option Bool × Reader
    → Replayed
unfolding answer
replay_round fn again got (none, r) = (none, got, r)
replay_round fn again got (some false, r) = (some (outcome r.failure), got, r)
replay_round fn again got (some true, r) =
    let seen = got ++ (r.current ∷ []) in answer (fn seen) (again seen r) seen r

unfoldable pub replay_loop : (List Entry → Option Error) → ℕ → ℕ → List Entry → Reader → Replayed
unfolding replay_round next
replay_loop fn fuel zero got r = (none, got, r)
replay_loop fn fuel (suc n) got r = replay_round fn (replay_loop fn fuel n) got (next fuel r)

-- With the deferred Close.
unfoldable pub replay_opened :
    (List Entry → Option Error) → ℕ → ℕ → Result Reader → Option (Result (Unit {0})) × List Entry
unfolding replay_loop
replay_opened fn fuel n (err e) = (some (err e), [])
replay_opened fn fuel n (ok r) = let (res, got, r') = replay_loop fn fuel n [] r in (res, got)

unfoldable pub replay :
    Wal
    → List (Disk → Disk)
    → ℕ
    → (List Entry → Option Error)
    → ℕ
    → ℕ
    → Option (Result (Unit {0})) × List Entry
unfolding replay_opened new_reader
replay w others from_lsn fn fuel n = replay_opened fn fuel n (new_reader w others from_lsn)

-- The entries up to the first one that the function refuses, and its error.
unfoldable pub until_refused :
    (List Entry → Option Error) → List Entry → List Entry → Option Error × List Entry
until_refused fn got [] = (none, got)
until_refused fn got (e ∷ es) =
    let seen = got ++ (e ∷ []) in
    let rest = until_refused fn seen es in elim (fn seen) [ some x ↦ (some x, seen) | none ↦ rest ]

-- The function's error; else the end of the cursor, with its error; else the rounds were used up.
unfoldable pub replay_result : Option Error → Bool → Option Error → Option (Result (Unit {0}))
replay_result (some x) ended failure = some (err x)
replay_result none true failure = some (outcome failure)
replay_result none false failure = none

-- What a run of the loop agrees with: the entries that a reader gives, cut off at the first refused.
abbrev pub Agrees :
    (List Entry → Option Error) → List Entry → Replayed → List Entry × Bool × Reader → Type 0
Agrees fn got out o =
    (out.1 ≡ (until_refused fn got o.0).1)
    × (out.0 ≡ replay_result (until_refused fn got o.0).0 o.1 o.2.failure)

Agrees-more :
    (fn : List Entry → Option Error) (got : List Entry) (a : Option Error) (rest : Replayed)
    (r : Reader) (o : List Entry × Bool × Reader)
    → fn (got ++ (r.current ∷ [])) ≡ a
    → Agrees fn (got ++ (r.current ∷ [])) rest o
    → Agrees fn got (answer a rest (got ++ (r.current ∷ [])) r) (r.current ∷ o.0, o.1, o.2)
unfolding answer until_refused replay_result
Agrees-more fn got none rest r o e h = rw (Agrees, until_refused, e) h
Agrees-more fn got (some x) rest r o e h = rw (Agrees, until_refused, e) (refl, refl)

-- Whatever the files hold and whatever happens to them meanwhile: the loop of Replay hands over the entries that the
-- reader gives, in order, up to the first one at which the function returns an error. It returns that
-- error, else the reader's when the reader comes to its end.
pub replay_loop-entries :
    (fn : List Entry → Option Error) (fuel n : ℕ) (got : List Entry) (r : Reader)
    → Agrees fn got (replay_loop fn fuel n got r) (entries fuel n r)
unfolding replay_loop entries
replay_loop-entries fn fuel zero got r = unfold until_refused replay_result in (refl, refl)
replay_loop-entries fn fuel (suc n) got r =
    go (next fuel r).0 (next fuel r).1 (λ seen r'. replay_loop-entries fn fuel n seen r')
  where
    go :
        (more : Option Bool) (r' : Reader)
        → ((seen : List Entry) (r'' : Reader)
            → Agrees fn seen (replay_loop fn fuel n seen r'') (entries fuel n r''))
        → Agrees fn got
            (replay_round fn (replay_loop fn fuel n) got (more, r'))
            (collect (entries fuel n) (more, r'))
    go none r' ih = unfold replay_round collect until_refused replay_result in (refl, refl)
    go (some false) r' ih = unfold replay_round collect until_refused replay_result in (refl, refl)
    go (some true) r' ih =
        unfold replay_round collect in
        Agrees-more fn got _ _ r' (entries fuel n r') refl (ih (got ++ (r'.current ∷ [])) r')
