-- ===== src/Wal/Indexed.antt =====
-- The index of segments that the writer keeps: what it always is, and the rules to follow it through
-- code that works on files.
pub mod Append
pub mod Truncate
pub mod Install
pub mod Cut
pub mod Runs
use go_wallib.Base.{
  ℕ, zero, suc, ◌+◌, ◌≤◌, ◌<◌, ◌≡◌, refl, ◌⊎◌, inl, inr, Option, none, some, List, [], ◌∷◌, ◌++◌,
  arith, length, drop, Bool, true, false, if◌then◌else◌,
}
use mathlib.Core.Path.{subst}
use go_wallib.Errors.{Error, panicked, Result, ok, err, Result-cases}
use go_wallib.Exec.{Exec, modify, gets, ◌>>=◌, continue}
use go_wallib.Exec.Yields.{Yields}
use go_wallib.Disk.{Disk}
use go_wallib.Segment.Header.{header_size}
use go_wallib.Segment.Files.{Segment}
use go_wallib.Wal.{Wal, on_disk, get_active}
use go_wallib.Wal.Lsns.{InOrder, InOrder-append}

abbrev pub last_base : List ℕ → Option ℕ
last_base [] = none
last_base (base ∷ []) = some base
last_base (base ∷ after ∷ bases) = last_base (after ∷ bases)

-- The active segment is the newest one of the index, and it is no later than its first record.
pub record IsActive (bases : List ℕ) (next_lsn : ℕ) (active : Option Segment) : Type 0 where
  pub seg : Segment
  pub there : active ≡ some seg
  pub newest : last_base bases ≡ some seg.base_lsn
  pub written : header_size < seg.size → seg.base_lsn < next_lsn

-- The log is empty (0), or starts where its first segment does.
abbrev pub StartsAt : ℕ → List ℕ → Type 0
StartsAt first [] = first ≡ 0
StartsAt first (base ∷ bases) = (first ≡ 0) ⊎ (first ≡ base)

-- The bases ascend strictly and none is above the next LSN; the newest one is the active segment's.
pub record Indexed (w : Wal) : Type 0 where
  pub ascending : InOrder 0 w.segment_bases (w.next_lsn + 1)
  pub open_one : IsActive w.segment_bases w.next_lsn w.active
  pub first : StartsAt w.first_lsn w.segment_bases

pub Indexed-disk : (w : Wal) (d : Disk) → Indexed w → Indexed (record w { disk = d })
Indexed-disk w d i = record { ascending = i.ascending; open_one = i.open_one; first = i.first }

pub InOrder-last :
    (lo hi new b : ℕ) (xs : List ℕ)
    → InOrder lo xs hi
    → last_base xs ≡ some b
    → b < new
    → InOrder lo xs new
InOrder-last lo hi new b [] h e lt = absurd (cc e)
InOrder-last lo hi new b (x ∷ []) h e lt = let same : x ≡ b = cc e in (h.0, omega (arith, same))
InOrder-last lo hi new b (x ∷ y ∷ xs) h e lt =
    (h.0, InOrder-last (x + 1) hi new b (y ∷ xs) h.1 e lt)

pub last_base-snoc : (xs : List ℕ) (b : ℕ) → last_base (xs ++ (b ∷ [])) ≡ some b
last_base-snoc [] b = refl
last_base-snoc (x ∷ []) b = refl
last_base-snoc (x ∷ y ∷ xs) b = last_base-snoc (y ∷ xs) b

pub InOrder-weaken : (lo mid hi : ℕ) (xs : List ℕ) → lo ≤ mid → InOrder mid xs hi → InOrder lo xs hi
InOrder-weaken lo mid hi [] le h = omega arith
InOrder-weaken lo mid hi (x ∷ xs) le h = (omega (arith, h.0), h.1)

pub InOrder-raise : (lo hi hi' : ℕ) (xs : List ℕ) → hi ≤ hi' → InOrder lo xs hi → InOrder lo xs hi'
InOrder-raise lo hi hi' [] le h = omega arith
InOrder-raise lo hi hi' (x ∷ xs) le h = (h.0, InOrder-raise (x + 1) hi hi' xs le h.1)

pub last_base-lt : (lo hi b : ℕ) (xs : List ℕ) → InOrder lo xs hi → last_base xs ≡ some b → b < hi
last_base-lt lo hi b [] h e = absurd (cc e)
last_base-lt lo hi b (x ∷ []) h e = let same : x ≡ b = cc e in omega (arith, same, h.1)
last_base-lt lo hi b (x ∷ y ∷ xs) h e = last_base-lt (x + 1) hi b (y ∷ xs) h.1 e

pub InOrder-drop : (lo hi n : ℕ) (xs : List ℕ) → InOrder lo xs hi → InOrder lo (drop n xs) hi
InOrder-drop lo hi zero [] h = h
InOrder-drop lo hi (suc n) [] h = h
InOrder-drop lo hi zero (x ∷ xs) h = h
InOrder-drop lo hi (suc n) (x ∷ xs) h =
    InOrder-weaken lo (x + 1) hi _ (omega (arith, h.0)) (InOrder-drop (x + 1) hi n xs h.1)

pub last_base-drop : (n : ℕ) (xs : List ℕ) → n < length xs → last_base (drop n xs) ≡ last_base xs
last_base-drop zero xs h = refl
last_base-drop (suc n) [] h = absurd (omega arith)
last_base-drop (suc n) (x ∷ []) h = absurd (omega arith)
last_base-drop (suc n) (x ∷ y ∷ xs) h = last_base-drop n (y ∷ xs) (omega arith)

-- Code that leaves the index well formed when it fails, and `Q` when it does not.
pub record Leaves {A : Type 0} (Q : A → Wal → Type 0) (o : Result A × Wal) : Type 0 where
  pub done : (a : A) → o.0 ≡ ok a → Q a o.1
  pub failed : (e : Error) → o.0 ≡ err e → Indexed o.1

pub Leaves-ok : {A : Type 0} {Q : A → Wal → Type 0} (a : A) (w : Wal) → Q a w → Leaves Q (ok a, w)
Leaves-ok {Q = Q} a w q = record {
  done = λ b e. subst (λ x. Q x w) (cc e) q;
  failed = λ x e. absurd (cc e);
}

pub Leaves-err :
    {A : Type 0} {Q : A → Wal → Type 0} (e : Error) (w : Wal) → Indexed w → Leaves Q (err e, w)
Leaves-err e w i = record { done = λ a h. absurd (cc h); failed = λ x h. i }

pub Leaves-if :
    {A : Type 0} {Q : A → Wal → Type 0} (b : Bool) (m n : Exec Wal A) (w : Wal)
    → (b ≡ true → Leaves Q (m w))
    → (b ≡ false → Leaves Q (n w))
    → Leaves Q ((if b then m else n) w)
Leaves-if true m n w hm hn = hm refl
Leaves-if false m n w hm hn = hn refl

pub Leaves-and :
    {A : Type 0} {Q : A → Wal → Type 0} {R : Wal → Type 0} (o : Result A × Wal)
    → Leaves Q o
    → R o.1
    → Leaves (λ a w. Q a w × R w) o
Leaves-and o h r = record { done = λ a e. (h.done a e, r); failed = h.failed }

module _ {A B : Type 0} {Q : B → Wal → Type 0} where
  -- The rest of the code, after a result.
  Leaves-continue :
      (r : Result A) (f : A → Exec Wal B) (w : Wal)
      → ((a : A) → r ≡ ok a → Leaves Q (f a w))
      → ((e : Error) → r ≡ err e → Indexed w)
      → Leaves Q (continue r f w)
  Leaves-continue (ok a) f w k i = k a refl
  Leaves-continue (err e) f w k i = Leaves-err e w (i e refl)

  pub Leaves-bind :
      {P : A → Wal → Type 0} (m : Exec Wal A) (f : A → Exec Wal B) (w : Wal)
      → Leaves P (m w)
      → ((a : A) (w' : Wal) → P a w' → Leaves Q (f a w'))
      → Leaves Q ((m >>= f) w)
  unfolding ◌>>=◌
  Leaves-bind m f w h k =
      Leaves-continue (m w).0 f (m w).1 (λ a e. k a (m w).1 (h.done a e)) h.failed

  -- Work on files, and then `f`: of the log only the directory has changed.
  pub Leaves-on_disk :
      {Y : A → Type 0} (m : Exec Disk A) (f : A → Exec Wal B) (w : Wal)
      → Indexed w
      → Yields Y m
      → ((a : A) (d : Disk) → Y a → Leaves Q (f a (record w { disk = d })))
      → Leaves Q ((on_disk m >>= f) w)
  unfolding on_disk ◌>>=◌
  Leaves-on_disk m f w i y k =
      Leaves-continue (m w.disk).0 f (record w { disk = (m w.disk).1 })
        (λ a e. k a (m w.disk).1 (y.holds w.disk a e)) (λ x e. Indexed-disk w (m w.disk).1 i)

module _ {B : Type 0} {Q : B → Wal → Type 0} where
  active_or_panic :
      (o : Option Segment) (f : Segment → Exec Wal B) (w : Wal) (seg : Segment)
      → o ≡ some seg
      → Leaves Q (f seg w)
      → Leaves Q (
          continue
            (elim o as (λ _. Result Segment × Wal) [
              | none ↦ (err panicked, w)
              | some s ↦ (ok s, w)
            ]).0
            f
            (elim o as (λ _. Result Segment × Wal) [
              | none ↦ (err panicked, w)
              | some s ↦ (ok s, w)
            ]).1)
  active_or_panic none f w seg e k = absurd (cc e)
  active_or_panic (some s) f w seg e k = subst (λ x. Leaves Q (f x w)) (cc e) k

  pub Leaves-get_active :
      (f : Segment → Exec Wal B) (w : Wal) (seg : Segment)
      → w.active ≡ some seg
      → Leaves Q (f seg w)
      → Leaves Q ((get_active >>= f) w)
  unfolding get_active ◌>>=◌
  Leaves-get_active f w seg e k = active_or_panic w.active f w seg e k

  pub Leaves-modify :
      (g : Wal → Wal) (f : Unit {0} → Exec Wal B) (w : Wal)
      → Leaves Q (f tt (g w))
      → Leaves Q ((modify g >>= f) w)
  unfolding modify ◌>>=◌
  Leaves-modify g f w k = k

  pub Leaves-gets :
      {A : Type 0} (g : Wal → A) (f : A → Exec Wal B) (w : Wal)
      → Leaves Q (f (g w) w)
      → Leaves Q ((gets g >>= f) w)
  unfolding gets ◌>>=◌
  Leaves-gets g f w k = k

  -- The last work on files, of which the result does not matter.
  pub Leaves-last :
      (m : Exec Disk B) (w : Wal)
      → Indexed w
      → ((b : B) (d : Disk) → Q b (record w { disk = d }))
      → Leaves Q (on_disk m w)
  unfolding on_disk
  Leaves-last m w i k = record {
    done = λ b e. k b (m w.disk).1;
    failed = λ x e. Indexed-disk w (m w.disk).1 i;
  }

pub Leaves-Indexed : {A : Type 0} (o : Result A × Wal) → Leaves (λ _ w. Indexed w) o → Indexed o.1
Leaves-Indexed (ok a, w) h = h.done a refl
Leaves-Indexed (err e, w) h = h.failed e refl
