-- ===== src/Wal/Reopen/Crash.antt =====
-- The system stops: of each file, what was synced is kept, and of the rest some front.
use go_wallib.Base.{
  ℕ, zero, suc, ◌+◌, ◌-◌, ◌<◌, ◌≤◌, ◌≡◌, refl, sym, ap, ◌∙◌, List, [], ◌∷◌, ◌++◌, append_assoc,
  arith, length, length-append, take, drop, take-append-drop, length-take, length-drop, All,
  Bool-cases, inl, inr, ltb,
}
use go_wallib.Record.{Record, frame}
use go_wallib.Record.Step.{Fits, length-frame}
use go_wallib.Record.RoundTrip.{frames, length-frames-cons}
use go_wallib.Disk.{File}
use go_wallib.Wal.Reopen.Shelf.{Ends}

-- A file before and after.
pub record AfterCrash (f g : File) : Type 0 where
  pub left : ℕ
  pub name_kept : g.linked ≡ f.linked
  pub bytes_kept : f.synced ≤ left
  pub content_left : g.content ≡ take left f.content
  pub durable : length g.content ≤ g.synced

abbrev pub Crashed : List File → List File → Type 0
Crashed [] [] = Unit
Crashed [] (g ∷ gs) = ¬ Unit {0}
Crashed (f ∷ fs) [] = ¬ Unit {0}
Crashed (f ∷ fs) (g ∷ gs) = AfterCrash f g × Crashed fs gs

-- What a front of the frames holds: the first records, and the front of one more.
pub record Cut (max_rec : ℕ) (recs : List Record) (m : ℕ) : Type 0 where
  pub whole : ℕ
  pub tail : List ℕ
  pub parts : take m (frames recs) ≡ frames (take whole recs) ++ tail
  pub ends : Ends max_rec tail
  pub bound : whole ≤ length recs
  pub reaches : length (frames recs) ≤ m → (whole ≡ length recs) × (tail ≡ [])

pub take-long :
    {A : Type 0} (n k : ℕ) (xs ys : List A)
    → n + length xs ≡ k
    → take k (xs ++ ys) ≡ xs ++ take n ys
take-long n k [] ys e = ap (λ (j : ℕ). take j ys) (omega arith)
take-long n zero (x ∷ xs) ys e = absurd (omega arith)
take-long n (suc k) (x ∷ xs) ys e = ap (λ l. x ∷ l) (take-long n k xs ys (omega arith))

take-short : {A : Type 0} (k : ℕ) (xs ys : List A) → k ≤ length xs → take k (xs ++ ys) ≡ take k xs
take-short zero xs ys le = refl
take-short (suc k) [] ys le = absurd (omega arith)
take-short (suc k) (x ∷ xs) ys le = ap (λ l. x ∷ l) (take-short k xs ys (omega arith))

take-nil : {A : Type 0} (n : ℕ) → take {A = A} n [] ≡ []
take-nil zero = refl
take-nil (suc n) = refl

-- Any front of the frames is cut so.
pub cut : (max_rec : ℕ) (recs : List Record) (m : ℕ) → All (Fits max_rec) recs → Cut max_rec recs m
unfolding frames
cut max_rec [] m fits = record {
  whole = 0;
  tail = [];
  parts = take-nil m;
  ends = inl refl;
  bound = omega arith;
  reaches = λ le. (refl, refl);
}
cut max_rec (r ∷ recs) zero fits = record {
  whole = 0;
  tail = [];
  parts = refl;
  ends = inl refl;
  bound = omega arith;
  reaches = λ le. absurd (omega (arith, length-frames-cons r recs));
}
cut max_rec (r ∷ recs) (suc m) fits =
    let f = frame r.lsn r.payload in
    elim (Bool-cases (ltb (suc m) (length f))) [
      | inl inside ↦ record {
        whole = 0;
        tail = take (suc m) f;
        parts = take-short (suc m) f (frames recs) (ground arith);
        ends = inr (record {
          of_record = r;
          back = drop (suc m) f;
          of_fits = fits.0;
          parts = sym (take-append-drop (suc m) f);
          some_front = omega (arith, length-take (suc m) f, length-frame r.lsn r.payload);
          some_back =
              let lt : suc m < length f = ground arith in omega (arith, length-drop (suc m) f);
        });
        bound = omega arith;
        reaches = λ le.
            let lt : suc m < length f = ground arith in
            absurd (omega (arith, length-append f (frames recs)));
      }
      | inr beyond ↦
          let n = suc m - length f in
          let c = cut max_rec recs n fits.1 in
          record {
            whole = suc c.whole;
            tail = c.tail;
            parts =
                let ge : length f ≤ suc m = ground arith in
                take-long n (suc m) f (frames recs) (omega arith)
                ∙ ap (λ l. f ++ l) c.parts
                ∙ sym (append_assoc f (frames (take c.whole recs)) c.tail);
            ends = c.ends;
            bound = let le = c.bound in omega arith;
            reaches = λ le.
                let (all, nothing) = c.reaches (omega (arith, length-append f (frames recs))) in
                (ap suc all, nothing);
          }
    ]
