-- ===== src/Wal/Reopen/Shelf.antt =====
-- The files of a log that nobody has open.
use go_wallib.Base.{
  ℕ, ◌<◌, ◌≤◌, ◌≡◌, ◌≢◌, false, Option, none, some, List, [], ◌∷◌, ◌++◌, length, get_elem?, All,
  inl, inr, ◌⊎◌,
}
use mathlib.Core.List.{map}
use go_wallib.Errors.{Error, torn}
use go_wallib.Record.{Record, frame, next}
use go_wallib.Record.Step.{Fits, running, next_end, next_torn}
use go_wallib.Record.RoundTrip.{frames}
use go_wallib.Disk.{File, linked_names}
use go_wallib.Segment.Name.{name}
use go_wallib.Wal.Reader.Still.{Stored, Stands, Stops, Stops-nil, Stops-torn, calm}
use go_wallib.Wal.Contents.Chain.{Linked, Kept}

-- The front of a frame, of which the rest is missing.
pub record Front (max_rec : ℕ) (tail : List ℕ) : Type 0 where
  pub of_record : Record
  pub back : List ℕ
  pub of_fits : Fits max_rec of_record
  pub parts : frame of_record.lsn of_record.payload ≡ tail ++ back
  pub some_front : 0 < length tail
  pub some_back : 0 < length back

-- What a segment file ends with: its records, or a record that is not written to its end.
abbrev pub Ends : ℕ → List ℕ → Type 0
Ends max_rec tail = (tail ≡ []) ⊎ Front max_rec tail

-- What a scan reports there.
abbrev pub tail_err : List ℕ → Option Error
tail_err [] = none
tail_err (x ∷ xs) = some torn

pub next-tail_err :
    (max_rec valid : ℕ) (cur : Record) (tail : List ℕ)
    → Ends max_rec tail
    → next (running tail false cur max_rec valid)
      ≡ (false, record (running [] false cur max_rec valid) { first_err = tail_err tail })
next-tail_err max_rec valid cur [] h = next_end cur max_rec valid
next-tail_err max_rec valid cur (x ∷ xs) (inl e) = cc e
next-tail_err max_rec valid cur (x ∷ xs) (inr f) =
    next_torn f.of_record cur (x ∷ xs) f.back max_rec valid f.of_fits f.parts f.some_front
      f.some_back

pub Ends-Stops : (max_rec : ℕ) (tail : List ℕ) → Ends max_rec tail → Stops max_rec tail
Ends-Stops max_rec [] h = Stops-nil max_rec
Ends-Stops max_rec (x ∷ xs) (inl e) = cc e
Ends-Stops max_rec (x ∷ xs) (inr f) =
    Stops-torn max_rec f.of_record (x ∷ xs) f.back f.of_fits f.parts f.some_front f.some_back

-- The segments follow one another; only the last one may end with a record that is torn, or be empty
-- while there are others.
pub record Shelf (files : List File) (now start end max_rec : ℕ) (bases : List ℕ)
    (older : List Stored) (newest : Stored) : Type 0 where
  pub file : File
  pub present : get_elem? files newest.handle ≡ some file
  pub layout : file.content ≡ newest.header ++ (frames newest.recs ++ newest.tail)
  pub apart : All (λ (s : Stored). s.handle ≢ newest.handle) older
  pub named : map (λ (s : Stored). s.seg_name) (older ++ (newest ∷ [])) ≡ map name bases
  pub older_stand : All (Stands (calm files now) max_rec) older
  pub newest_stands : Stands (calm files now) max_rec newest
  pub linked : Linked start bases (older ++ (newest ∷ [])) end
  pub listed : linked_names files ≡ map name bases
  pub full : All (λ (s : Stored). 0 < length s.recs) older
  pub first : 0 < start
  pub cleaned : All (λ (s : Stored). s.tail ≡ []) older
  pub ends : Ends max_rec newest.tail
  pub kept : All (Kept files) older
  pub flushed : length file.content ≤ file.synced
