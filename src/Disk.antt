-- ===== src/Disk.antt =====
-- The files that the log works on, as package os shows them: the WAL directory (os.Root) and open
-- files. An open file is its place in the list of all files, so it outlives its name. Every operation
-- may fail: the schedule `faults` says which does.
use go_wallib.Base.{
  ℕ, suc, ◌+◌, ◌-◌, min, Bool, true, false, Option, none, some, List, [], ◌∷◌, ◌++◌, length,
  get_elem?, set, take, drop, replicate, if◌then◌else◌, bytes_eq,
}
use go_wallib.Errors.{io_failure, not_exist, already_exists, ok, err}
use go_wallib.Exec.{Exec, pure, raise, gets, modify, ◌>>=◌}
use go_wallib.Record.{Source}

-- `fails n`: the operation reports an error; a write has stored n bytes by then, a read has returned n.
pub data Fault : Type 0 where
  works : Fault
  fails : ℕ → Fault

-- `linked` is the name in the directory, if it still has one. The first `synced` bytes would survive
-- the loss of what the system has not written out.
pub record File : Type 0 where
  pub linked : Option (List ℕ)
  pub content : List ℕ
  pub synced : ℕ

pub record Disk : Type 0 where
  pub files : List File
  pub faults : List Fault
  pub now : ℕ

abbrev pub Handle : Type 0
Handle = ℕ

-- The fate of the operation at hand.
unfoldable pub next_fault : Exec Disk Fault
next_fault d = elim d.faults [ [] ↦ (ok works, d) | f ∷ fs ↦ (ok f, record d { faults = fs }) ]

-- An operation that either fails with no effect or does its work.
abbrev guarded : {A : Type 0} → Exec Disk A → Exec Disk A
guarded m = next_fault >>= λ f. elim f [ works ↦ m | fails _ ↦ raise io_failure ]

abbrev pub has_name : List ℕ → File → Bool
has_name name f = elim f.linked [ none ↦ false | some n ↦ bytes_eq n name ]

unfoldable pub find : List ℕ → List File → Option Handle
find name [] = none
find name (f ∷ fs) =
    if has_name name f then some 0 else elim (find name fs) [ none ↦ none | some i ↦ some (suc i) ]

unfoldable pub change : Handle → (File → File) → Disk → Disk
change h g d = elim (get_elem? d.files h) [
  | none ↦ d
  | some f ↦ record d { files = set d.files h (g f) }
]

-- OpenFile with O_CREATE and O_EXCL.
unfoldable pub create_file : List ℕ → Exec Disk Handle
create_file name = guarded λ d. elim (find name d.files) [
  | some h ↦ (err already_exists, d)
  | none ↦ (
    ok (length d.files),
    record d { files = d.files ++ (record { linked = some name; content = []; synced = 0 } ∷ []) },
  )
]

-- OpenFile, OpenInRoot.
unfoldable pub open_file : List ℕ → Exec Disk Handle
open_file name =
    guarded λ d. elim (find name d.files) [ some h ↦ (ok h, d) | none ↦ (err not_exist, d) ]

abbrev pub file_content : Option File → List ℕ
file_content none = []
file_content (some f) = f.content

abbrev pub content_of : Handle → Disk → List ℕ
content_of h d = file_content (get_elem? d.files h)

-- Bytes put at an offset; a gap behind the end reads as zeros.
unfoldable pub overwrite : ℕ → List ℕ → List ℕ → List ℕ
overwrite off bytes content =
    take off (content ++ replicate (off - length content) 0)
    ++ (bytes ++ drop (off + length bytes) content)

abbrev pub write_bytes : Handle → List ℕ → ℕ → Disk → Disk
write_bytes h bytes off =
    change h (λ f. record f { content = overwrite off bytes f.content; synced = min f.synced off })

unfoldable pub write_at : Handle → List ℕ → ℕ → Exec Disk Unit
write_at h bytes off = next_fault >>= λ f. elim f [
  | works ↦ modify (write_bytes h bytes off)
  | fails n ↦ λ d. (err io_failure, write_bytes h (take n bytes) off d)
]

unfoldable pub sync_file : Handle → Exec Disk Unit
sync_file h = guarded (modify (change h (λ f. record f { synced = length f.content })))

unfoldable pub truncate_file : Handle → ℕ → Exec Disk Unit
truncate_file h size = guarded (
    modify (
      change h (λ f. record f {
        content = take size (f.content ++ replicate (size - length f.content) 0);
        synced = min f.synced size;
      })))

unfoldable pub stat_size : Handle → Exec Disk ℕ
stat_size h = guarded (gets (λ d. length (content_of h d)))

unfoldable pub close_file : Handle → Exec Disk Unit
close_file h = guarded (pure tt)

-- A reader of `len` bytes from `off` on.
unfoldable pub read_section : Handle → ℕ → ℕ → Exec Disk Source
read_section h off len = next_fault >>= λ f. elim f [
  | works ↦ gets (λ d. record { bytes = take len (drop off (content_of h d)); broken = false })
  | fails n ↦
      gets (λ d. record { bytes = take n (take len (drop off (content_of h d))); broken = true })
]

-- `File.Seek`; the place is an argument of the reads.
unfoldable pub seek_file : Handle → Exec Disk Unit
seek_file h = guarded (pure tt)

-- A reader of everything from `off` on.
unfoldable pub read_rest : Handle → ℕ → Disk → Source × Disk
read_rest h off d = elim d.faults [
  | fails n ∷ fs ↦ (
    record { bytes = take n (drop off (content_of h d)); broken = true },
    record d { faults = fs },
  )
  | works ∷ fs ↦
      (record { bytes = drop off (content_of h d); broken = false }, record d { faults = fs })
  | [] ↦ (record { bytes = drop off (content_of h d); broken = false }, d)
]

unfoldable pub remove_file : List ℕ → Exec Disk Unit
remove_file name = guarded λ d. elim (find name d.files) [
  | none ↦ (err not_exist, d)
  | some h ↦ (ok tt, change h (λ f. record f { linked = none }) d)
]

abbrev unlink_name : List ℕ → Disk → Disk
unlink_name name d = elim (find name d.files) [
  | none ↦ d
  | some h ↦ change h (λ f. record f { linked = none }) d
]

-- The new name takes the place of a file that has it.
unfoldable pub rename_file : List ℕ → List ℕ → Exec Disk Unit
rename_file from to = guarded λ d. elim (find from d.files) [
  | none ↦ (err not_exist, d)
  | some h ↦ (ok tt, change h (λ f. record f { linked = some to }) (unlink_name to d))
]

-- The entries of the directory are taken to be durable in the order of the operations.
unfoldable pub sync_dir : Exec Disk Unit
sync_dir = guarded (pure tt)

-- `Root.Close`.
unfoldable pub close_dir : Exec Disk Unit
close_dir = guarded (pure tt)

unfoldable pub linked_names : List File → List (List ℕ)
linked_names [] = []
linked_names (f ∷ fs) = elim f.linked [ none ↦ linked_names fs | some n ↦ n ∷ linked_names fs ]

unfoldable pub read_dir : Exec Disk (List (List ℕ))
read_dir = guarded (gets (λ d. linked_names d.files))
