-- ===== src/Wal/Contents.antt =====
-- What the log holds, on a directory in which nothing fails: a list of records, whatever the segments
-- that they stand in.
pub mod Files
pub mod Standing
pub mod Chain
pub mod Steps
pub mod Calm
pub mod Append
pub mod Commit
pub mod Finish
pub mod Read
pub mod Open
pub mod Runs
pub mod Durable
pub mod Rewrite
mod Tests
use go_wallib.Base.{
  ℕ, suc, ◌+◌, ◌^◌, ◌≤◌, ◌<◌, ◌≡◌, ◌≢◌, refl, sym, ap, ◌∙◌, Option, none, some, List, [], ◌∷◌, ◌++◌,
  arith, length, get_elem?, All,
}
use mathlib.Core.List.{map}
use go_wallib.Errors.{Result, ok, err}
use go_wallib.Exec.{Exec, ◌>>=◌, bind_run, modify, gets}
use go_wallib.Record.{Record}
use go_wallib.Record.RoundTrip.{frames}
use go_wallib.Disk.{Disk, File, find, linked_names}
use go_wallib.Segment.Header.{header_size}
use go_wallib.Segment.Name.{name}
use go_wallib.Segment.Files.{Segment}
use go_wallib.Wal.{Wal, on_disk, get_active}
use go_wallib.Wal.Reader.Still.{Stored, Stands, records_of, calm}
use go_wallib.Wal.Reader.Complete.{Rising}
use go_wallib.Wal.Contents.Chain.{Linked, Kept}

-- The segment files of the index stand in the directory, the active one last, and these are their records.
pub record Body (files : List File) (now : ℕ) (active : Option Segment) (bases : List ℕ)
    (next_lsn max_rec : ℕ) (recs : List Record) : Type 0 where
  pub older : List Stored
  pub newest : Stored
  pub seg : Segment
  pub file : File
  pub there : active ≡ some seg
  pub same : newest.handle ≡ seg.file
  pub clean : newest.tail ≡ []
  pub size : seg.size ≡ header_size + length (frames newest.recs)
  pub present : get_elem? files seg.file ≡ some file
  pub layout : file.content ≡ newest.header ++ frames newest.recs
  pub apart : All (λ (s : Stored). s.handle ≢ seg.file) older
  pub named : map (λ (s : Stored). s.seg_name) (older ++ (newest ∷ [])) ≡ map name bases
  pub older_stand : All (Stands (calm files now) max_rec) older
  pub newest_stands : Stands (calm files now) max_rec newest
  pub all : records_of (older ++ (newest ∷ [])) ≡ recs
  pub free_above : (b : ℕ) → next_lsn < b → b < 2 ^ 64 → find (name b) files ≡ none
  pub free_next : header_size < seg.size → find (name next_lsn) files ≡ none
  pub rising : Rising 0 recs
  pub below : All (λ (r : Record). r.lsn < next_lsn) recs
  pub positive : 0 < next_lsn
  pub start : ℕ
  pub linked : Linked start bases (older ++ (newest ∷ [])) next_lsn
  pub listed : linked_names files ≡ map name bases
  pub full : All (λ (s : Stored). 0 < length s.recs) older
  pub first : 0 < start
  pub cleaned : All (λ (s : Stored). s.tail ≡ []) older
  pub kept : All (Kept files) older
  pub header_kept : header_size ≤ file.synced

pub record Log (w : Wal) (recs : List Record) : Type 0 where
  pub files : List File
  pub now : ℕ
  pub disk : w.disk ≡ calm files now
  pub body : Body files now w.active w.segment_bases w.next_lsn w.opts.max_record_size recs

-- All that is in the active file would survive the loss of what the system has not written out.
abbrev pub Flushed : Wal → Type 0
Flushed w =
    (seg : Segment) (f : File)
    → w.active ≡ some seg
    → get_elem? w.disk.files seg.file ≡ some f
    → length f.content ≤ f.synced

-- Code that succeeds.
pub record Succeeds {A : Type 0} (Q : A → Wal → Type 0) (o : Result A × Wal) : Type 0 where
  pub value : A
  pub state : Wal
  pub run : o ≡ (ok value, state)
  pub post : Q value state

pub Succeeds-bind :
    {A B : Type 0} {P : A → Wal → Type 0} {Q : B → Wal → Type 0} (m : Exec Wal A)
    (f : A → Exec Wal B) (w : Wal)
    → Succeeds P (m w)
    → ((a : A) (w' : Wal) → P a w' → Succeeds Q (f a w'))
    → Succeeds Q ((m >>= f) w)
Succeeds-bind m f w h k =
    let r = k h.value h.state h.post in
    record {
      value = r.value;
      state = r.state;
      run = bind_run m f w h.state (ok h.value) h.run ∙ r.run;
      post = r.post;
    }

pub Succeeds-ok :
    {A : Type 0} {Q : A → Wal → Type 0} (a : A) (w : Wal) → Q a w → Succeeds Q (ok a, w)
Succeeds-ok a w q = record { value = a; state = w; run = refl; post = q }

-- The active segment.
pub Succeeds-get_active :
    {B : Type 0} {Q : B → Wal → Type 0} (f : Segment → Exec Wal B) (w : Wal) (seg : Segment)
    → w.active ≡ some seg
    → Succeeds Q (f seg w)
    → Succeeds Q ((get_active >>= f) w)
unfolding get_active
Succeeds-get_active f w seg e h = record {
  value = h.value;
  state = h.state;
  run = bind_run get_active f w w (ok seg) (rw e refl) ∙ h.run;
  post = h.post;
}

-- Work on the files, of which the outcome is known.
pub Succeeds-on_disk :
    {A B : Type 0} {Q : B → Wal → Type 0} (m : Exec Disk A) (f : A → Exec Wal B) (w : Wal)
    (d d' : Disk) (a : A)
    → w.disk ≡ d
    → m d ≡ (ok a, d')
    → Succeeds Q (f a (record w { disk = d' }))
    → Succeeds Q ((on_disk m >>= f) w)
unfolding on_disk
Succeeds-on_disk m f w d d' a e r h = record {
  value = h.value;
  state = h.state;
  run =
      bind_run (on_disk m) f w (record w { disk = d' }) (ok a)
        (ap (λ x. ((m x).0, record w { disk = (m x).1 })) e
          ∙ ap (λ (x : Result _ × Disk). (x.0, record w { disk = x.1 })) r)
      ∙ h.run;
  post = h.post;
}

pub Succeeds-modify :
    {B : Type 0} {Q : B → Wal → Type 0} (g : Wal → Wal) (f : Unit {0} → Exec Wal B) (w : Wal)
    → Succeeds Q (f tt (g w))
    → Succeeds Q ((modify g >>= f) w)
unfolding modify ◌>>=◌
Succeeds-modify g f w h = h

pub Succeeds-gets :
    {A B : Type 0} {Q : B → Wal → Type 0} (g : Wal → A) (f : A → Exec Wal B) (w : Wal)
    → Succeeds Q (f (g w) w)
    → Succeeds Q ((gets g >>= f) w)
unfolding gets ◌>>=◌
Succeeds-gets g f w h = h

-- The last work on the files.
pub Succeeds-last :
    {A : Type 0} {Q : A → Wal → Type 0} (m : Exec Disk A) (w : Wal) (d d' : Disk) (a : A)
    → w.disk ≡ d
    → m d ≡ (ok a, d')
    → Q a (record w { disk = d' })
    → Succeeds Q (on_disk m w)
unfolding on_disk
Succeeds-last m w d d' a e r q = record {
  value = a;
  state = record w { disk = d' };
  run =
      ap (λ x. ((m x).0, record w { disk = (m x).1 })) e
      ∙ ap (λ (x : Result _ × Disk). (x.0, record w { disk = x.1 })) r;
  post = q;
}

pub Succeeds-map :
    {A : Type 0} {P Q : A → Wal → Type 0} (o : Result A × Wal)
    → Succeeds P o
    → ((a : A) (w : Wal) → P a w → Q a w)
    → Succeeds Q o
Succeeds-map o h k = record {
  value = h.value;
  state = h.state;
  run = h.run;
  post = k h.value h.state h.post;
}
