-- ===== src/Wal/Capped.antt =====
-- How large segment files get (the roll rule of writeRecord in pkg/wal/writer.go): options.go calls
-- the maximum a soft threshold.
pub mod Append
use go_wallib.Base.{ℕ, ◌+◌, ◌≤◌, ◌≡◌, refl, Option, none, some, max}
use go_wallib.Errors.{Error, Result, ok, err, panicked}
use go_wallib.Exec.{Exec, gets, modify, ◌>>=◌, continue}
use go_wallib.Exec.Yields.{Yields}
use go_wallib.Record.{encoded_size}
use go_wallib.Disk.{Disk}
use go_wallib.Segment.Header.{header_size}
use go_wallib.Segment.Files.{Segment}
use go_wallib.Wal.{Wal, on_disk, get_active}

abbrev pub active_size : Option Segment → ℕ
active_size none = 0
active_size (some seg) = seg.size

-- The active file is within the threshold, or has a single record of `largest` bytes at most.
abbrev pub Capped : ℕ → ℕ → Wal → Type 0
Capped threshold largest w =
    (w.opts.max_segment_size ≡ threshold)
    × (active_size w.active ≤ max threshold (header_size + encoded_size largest))

-- The next record can go into the active file.
abbrev pub Room : ℕ → ℕ → Wal → Type 0
Room threshold needed w =
    (w.opts.max_segment_size ≡ threshold)
    × (active_size w.active + needed ≤ max threshold (header_size + needed))

-- Code that leaves `P` when it fails, and `Q` when it does not.
pub record Leads {A : Type 0} (P : Wal → Type 0) (Q : Wal → Type 0) (o : Result A × Wal)
    : Type 0 where
  pub done : (a : A) → o.0 ≡ ok a → Q o.1
  pub failed : (e : Error) → o.0 ≡ err e → P o.1

module _ {P Q : Wal → Type 0} where
  pub Leads-ok : {A : Type 0} (a : A) (w : Wal) → Q w → Leads P Q (ok a, w)
  Leads-ok a w q = record { done = λ b e. q; failed = λ x e. absurd (cc e) }

  Leads-err : {A : Type 0} (e : Error) (w : Wal) → P w → Leads {A = A} P Q (err e, w)
  Leads-err e w p = record { done = λ a h. absurd (cc h); failed = λ x h. p }

  Leads-continue :
      {A B : Type 0} (r : Result A) (f : A → Exec Wal B) (w : Wal)
      → ((a : A) → r ≡ ok a → Leads P Q (f a w))
      → ((e : Error) → r ≡ err e → P w)
      → Leads P Q (continue r f w)
  Leads-continue (ok a) f w k i = k a refl
  Leads-continue (err e) f w k i = Leads-err e w (i e refl)

  pub Leads-bind :
      {A B : Type 0} {R : Wal → Type 0} (m : Exec Wal A) (f : A → Exec Wal B) (w : Wal)
      → Leads P R (m w)
      → ((a : A) (w' : Wal) → R w' → Leads P Q (f a w'))
      → Leads P Q ((m >>= f) w)
  unfolding ◌>>=◌
  Leads-bind m f w h k = Leads-continue (m w).0 f (m w).1 (λ a e. k a (m w).1 (h.done a e)) h.failed

  pub Leads-on_disk :
      {A B : Type 0} {Y : A → Type 0} (m : Exec Disk A) (f : A → Exec Wal B) (w : Wal)
      → ((d : Disk) → P (record w { disk = d }))
      → Yields Y m
      → ((a : A) (d : Disk) → Y a → Leads P Q (f a (record w { disk = d })))
      → Leads P Q ((on_disk m >>= f) w)
  unfolding on_disk ◌>>=◌
  Leads-on_disk m f w p y k =
      Leads-continue (m w.disk).0 f (record w { disk = (m w.disk).1 })
        (λ a e. k a (m w.disk).1 (y.holds w.disk a e)) (λ x e. p (m w.disk).1)

  pub Leads-last :
      {B : Type 0} (m : Exec Disk B) (w : Wal)
      → ((d : Disk) → P (record w { disk = d }))
      → ((d : Disk) → Q (record w { disk = d }))
      → Leads P Q (on_disk m w)
  unfolding on_disk
  Leads-last m w p q = record { done = λ b e. q (m w.disk).1; failed = λ x e. p (m w.disk).1 }

  active_or_panic :
      {B : Type 0} (o : Option Segment) (f : Segment → Exec Wal B) (w : Wal)
      → P w
      → ((seg : Segment) → o ≡ some seg → Leads P Q (f seg w))
      → Leads P Q (
          continue
            (elim o as (λ _. Result Segment × Wal) [
              | none ↦ (err panicked, w)
              | some s ↦ (ok s, w)
            ]).0
            f
            (elim o as (λ _. Result Segment × Wal) [
              | none ↦ (err panicked, w)
              | some s ↦ (ok s, w)
            ]).1)
  active_or_panic none f w p k = Leads-err panicked w p
  active_or_panic (some s) f w p k = k s refl

  pub Leads-get_active :
      {B : Type 0} (f : Segment → Exec Wal B) (w : Wal)
      → P w
      → ((seg : Segment) → w.active ≡ some seg → Leads P Q (f seg w))
      → Leads P Q ((get_active >>= f) w)
  unfolding get_active ◌>>=◌
  Leads-get_active f w p k = active_or_panic w.active f w p k

  pub Leads-modify :
      {B : Type 0} (g : Wal → Wal) (f : Unit {0} → Exec Wal B) (w : Wal)
      → Leads P Q (f tt (g w))
      → Leads P Q ((modify g >>= f) w)
  unfolding modify ◌>>=◌
  Leads-modify g f w k = k

  pub Leads-gets :
      {A B : Type 0} (g : Wal → A) (f : A → Exec Wal B) (w : Wal)
      → Leads P Q (f (g w) w)
      → Leads P Q ((gets g >>= f) w)
  unfolding gets ◌>>=◌
  Leads-gets g f w k = k
