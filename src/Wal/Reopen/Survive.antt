-- ===== src/Wal/Reopen/Survive.antt =====
-- What a log still holds when the system has stopped and the log is opened again.
use go_wallib.Base.{
  ℕ, zero, suc, ◌+◌, ◌-◌, ◌≤◌, ◌≡◌, refl, sym, ap, ◌∙◌, some, List, [], ◌∷◌, ◌++◌, arith, length,
  length-append, take, length-take, get_elem?, All-take,
}
use mathlib.Core.Path.{subst}
use go_wallib.Record.{Record}
use go_wallib.Record.Step.{Fits}
use go_wallib.Record.RoundTrip.{frames}
use go_wallib.Disk.{File, Handle, find, linked_names, file_content}
use go_wallib.Segment.Header.{header_size}
use go_wallib.Wal.{Wal, Options}
use go_wallib.Wal.Recover.{open_log}
use go_wallib.Wal.Reader.Still.{Stored, Stands, records_of, calm}
use go_wallib.Wal.Contents.{Body, Log, Flushed, Succeeds}
use go_wallib.Wal.Contents.Files.{find-same, has_name-same, some-inj}
use go_wallib.Wal.Contents.Chain.{Numbered, Linked, Kept, linked_names-same}
use go_wallib.Wal.Contents.Standing.{All-both, All-each, map-snoc, records_of-snoc}
use go_wallib.Wal.Contents.Finish.{Published}
use go_wallib.Wal.Reopen.Shelf.{Shelf, Ends-Stops}
use go_wallib.Wal.Reopen.Tally.{next_base}
use go_wallib.Wal.Reopen.Numbers.{Linked-Numbered}
use go_wallib.Wal.Reopen.Crash.{AfterCrash, Crashed, cut, take-long}
use go_wallib.Wal.Reopen.Whole.{Reopened, open_log-Reopened}

Crashed-at :
    (fs gs : List File) (h : Handle) (f : File)
    → Crashed fs gs
    → get_elem? fs h ≡ some f
    → (g : File) × (get_elem? gs h ≡ some g) × AfterCrash f g
Crashed-at [] gs h f c at = absurd (cc at)
Crashed-at (x ∷ fs) [] h f c at = absurd (c tt)
Crashed-at (x ∷ fs) (g ∷ gs) zero f c at = (g, refl, subst (λ y. AfterCrash y g) (some-inj at) c.0)
Crashed-at (x ∷ fs) (g ∷ gs) (suc h) f c at = Crashed-at fs gs h f c.1 at

find-Crashed : (n : List ℕ) (fs gs : List File) → Crashed fs gs → find n gs ≡ find n fs
find-Crashed n [] [] c = refl
find-Crashed n [] (g ∷ gs) c = absurd (c tt)
find-Crashed n (f ∷ fs) [] c = absurd (c tt)
find-Crashed n (f ∷ fs) (g ∷ gs) c =
    find-same n g f gs fs (has_name-same n f g c.0.name_kept) (find-Crashed n fs gs c.1)

linked_names-Crashed : (fs gs : List File) → Crashed fs gs → linked_names gs ≡ linked_names fs
linked_names-Crashed [] [] c = refl
linked_names-Crashed [] (g ∷ gs) c = absurd (c tt)
linked_names-Crashed (f ∷ fs) [] c = absurd (c tt)
linked_names-Crashed (f ∷ fs) (g ∷ gs) c =
    linked_names-same f g gs fs c.0.name_kept (linked_names-Crashed fs gs c.1)

pub take-all : {A : Type 0} (n : ℕ) (xs : List A) → length xs ≤ n → take n xs ≡ xs
take-all zero [] le = refl
take-all (suc n) [] le = refl
take-all zero (x ∷ xs) le = absurd (omega arith)
take-all (suc n) (x ∷ xs) le = ap (λ l. x ∷ l) (take-all n xs (omega arith))

Numbered-take : (b k : ℕ) (recs : List Record) → Numbered b recs → Numbered b (take k recs)
Numbered-take b zero recs h = tt
Numbered-take b (suc k) [] h = tt
Numbered-take b (suc k) (r ∷ recs) h = (h.0, Numbered-take (suc b) k recs h.1)

-- The last segment with its first k records.
Linked-cut :
    (start end k : ℕ) (bases : List ℕ) (older : List Stored) (s t : Stored)
    → Linked start bases (older ++ (s ∷ [])) end
    → t.header ≡ s.header
    → t.recs ≡ take k s.recs
    → k ≤ length s.recs
    → Linked start bases (older ++ (t ∷ [])) (next_base start older + k)
Linked-cut start end k [] [] s t h e e' le = absurd (h tt)
Linked-cut start end k (b ∷ []) [] s t h e e' le = (
  h.0,
  rw e h.1,
  rw e' (Numbered-take start k s.recs (h.2)),
  omega (arith, ap length e', length-take k s.recs),
)
Linked-cut start end k (b ∷ c ∷ bases) [] s t h e e' le = absurd (h.3 tt)
Linked-cut start end k [] (o ∷ older) s t h e e' le = absurd (h tt)
Linked-cut start end k (b ∷ bases) (o ∷ older) s t h e e' le = (
  h.0,
  h.1,
  h.2,
  subst (Linked (start + length o.recs) bases (older ++ (t ∷ [])))
      (omega (arith, length-append o.recs (records_of older)))
      (Linked-cut (start + length o.recs) end k bases older s t (h.3) e e' le),
)

module _ (fs gs : List File) (now now' max_rec : ℕ) (c : Crashed fs gs) where
  Kept-Crashed : (s : Stored) → Kept fs s → Kept gs s
  Kept-Crashed s k =
      let (g, at, after) = Crashed-at fs gs s.handle k.kept_file c k.at in
      record { kept_file = g; at = at; whole = after.durable }

  Stands-Crashed :
      (s : Stored) → Kept fs s → Stands (calm fs now) max_rec s → Stands (calm gs now') max_rec s
  Stands-Crashed s k st =
      let (g, at, after) = Crashed-at fs gs s.handle k.kept_file c k.at in
      let synced = after.bytes_kept in
      let whole = k.whole in
      record {
        found = find-Crashed s.seg_name fs gs c ∙ st.found;
        content =
            ap file_content at
            ∙ after.content_left
            ∙ take-all after.left k.kept_file.content (omega arith)
            ∙ sym (ap file_content k.at)
            ∙ st.content;
        header_length = st.header_length;
        fits = st.fits;
        stops = st.stops;
      }

-- The files after the crash, as recovery will find them.
record Left (gs : List File) (now' start : ℕ) (max_rec : ℕ) (bases : List ℕ) (older : List Stored)
    (newest : Stored) (all_synced : Type 0) : Type 0 where
  whole : ℕ
  tail : List ℕ
  shelf :
      Shelf gs now' start
        (next_base start older + whole)
        max_rec
        bases
        older
        (record newest { recs = take whole newest.recs; tail = tail })
  bound : whole ≤ length newest.recs
  everything : all_synced → (whole ≡ length newest.recs) × (tail ≡ [])

module _ (w : Wal) (recs : List Record) (l : Log w recs) (gs : List File) (now' : ℕ)
    (c : Crashed l.files gs) where
  abbrev log_body :
      Body l.files l.now w.active w.segment_bases w.next_lsn w.opts.max_record_size recs
  log_body = l.body

  left_files :
      Left gs now' log_body.start w.opts.max_record_size w.segment_bases log_body.older
        log_body.newest
        (length log_body.file.content ≤ log_body.file.synced)
  left_files =
      let b = l.body in
      let newest = b.newest in
      let (g, at, after) =
        Crashed-at l.files gs newest.handle b.file c (ap (get_elem? l.files) b.same ∙ b.present) in
      let m = after.left - header_size in
      let k = cut w.opts.max_record_size newest.recs m b.newest_stands.fits in
      let synced = after.bytes_kept in
      let header = b.header_kept in
      let layout : g.content ≡ newest.header ++ (frames (take k.whole newest.recs) ++ k.tail) =
        after.content_left
        ∙ ap (take after.left) b.layout
        ∙ take-long m after.left newest.header (frames newest.recs)
            (omega (arith, b.newest_stands.header_length))
        ∙ ap (λ x. newest.header ++ x) k.parts in
      record {
        whole = k.whole;
        tail = k.tail;
        bound = k.bound;
        everything = λ all. k.reaches (
            omega (
              arith,
              ap length b.layout,
              length-append newest.header (frames newest.recs),
              b.newest_stands.header_length,
            ));
        shelf = record {
          file = g;
          present = at;
          layout = layout;
          apart = All-each b.older (λ s ne e. ne (e ∙ b.same)) b.apart;
          named =
              map-snoc (λ (s : Stored). s.seg_name) b.older _
              ∙ sym (map-snoc (λ (s : Stored). s.seg_name) b.older newest)
              ∙ b.named;
          older_stand =
              All-both b.older
                (λ s kept st.
                  Stands-Crashed l.files gs l.now now' w.opts.max_record_size c s kept st)
                b.kept b.older_stand;
          newest_stands = record {
            found = find-Crashed newest.seg_name l.files gs c ∙ b.newest_stands.found;
            content = ap file_content at ∙ layout;
            header_length = b.newest_stands.header_length;
            fits = All-take (Fits w.opts.max_record_size) k.whole newest.recs b.newest_stands.fits;
            stops = Ends-Stops w.opts.max_record_size k.tail k.ends;
          };
          linked =
              Linked-cut b.start w.next_lsn k.whole w.segment_bases b.older newest _ b.linked refl
                refl k.bound;
          listed = linked_names-Crashed l.files gs c ∙ b.listed;
          full = b.full;
          first = b.first;
          cleaned = b.cleaned;
          ends = k.ends;
          kept =
              All-each b.older
                (λ s kept. Kept-Crashed l.files gs l.now now' w.opts.max_record_size c s kept)
                b.kept;
          flushed = after.durable;
        };
      }

-- How a log comes back: with its first `kept` records.
pub record Recovered (w : Wal) (recs : List Record) (opts : Options) (gs : List File) (now' : ℕ)
    : Type 0 where
  pub kept : ℕ
  pub bound : kept ≤ length recs
  pub torn_bytes : ℕ
  pub everything : Flushed w → (kept ≡ length recs) × (torn_bytes ≡ 0)
  pub reopened :
      Succeeds
        (λ report w'.
          Reopened opts
            (take kept recs)
            (w.next_lsn - (length recs - kept))
            torn_bytes
            (length w.segment_bases)
            report
            w')
        (open_log (calm gs now') opts)

-- The system stops under a log in good order, losing any part of what was not synced, and the log is
-- opened again, at the same limit, in a directory in which nothing fails. Open succeeds, and the log
-- holds a front of the records that it held, without a gap, with its counter right behind them; if the
-- active file was synced, it holds all of them.
pub crash-Recovered :
    (w : Wal) (recs : List Record) (opts : Options) (gs : List File) (now' : ℕ)
    → Published w recs
    → opts.max_record_size ≡ w.opts.max_record_size
    → Crashed w.disk.files gs
    → Recovered w recs opts gs now'
crash-Recovered w recs opts gs now' p limit crash =
    let l = p.log in
    let b = l.body in
    let c : Crashed l.files gs = subst (λ d. Crashed d.files gs) l.disk crash in
    let left = left_files w recs l gs now' c in
    let newest : Stored = record (b.newest) {
      recs = take left.whole b.newest.recs;
      tail = left.tail;
    } in
    let front = records_of b.older in
    let kept : ℕ = left.whole + length front in
    let all : recs ≡ front ++ b.newest.recs = sym b.all ∙ records_of-snoc b.older b.newest in
    let held : records_of (b.older ++ (newest ∷ [])) ≡ take kept recs =
      records_of-snoc b.older newest
      ∙ sym (take-long left.whole kept front b.newest.recs refl)
      ∙ ap (take kept) (sym all) in
    let (numbered, count) =
      Linked-Numbered b.start w.next_lsn w.segment_bases (b.older ++ (b.newest ∷ [])) b.linked in
    let bound = left.bound in
    let size : length recs ≡ length front + length b.newest.recs =
      ap length all ∙ length-append front b.newest.recs in
    let next : next_base b.start b.older + left.whole ≡ w.next_lsn - (length recs - kept) =
      omega (arith, ap length b.all) in
    let room = p.room in
    record {
      kept = kept;
      bound = omega arith;
      everything = λ flushed.
          let (same, nothing) = left.everything (
            flushed b.seg b.file b.there
              (ap (λ d. get_elem? d.files b.seg.file) l.disk ∙ b.present)) in
          (omega arith, ap length nothing);
      torn_bytes = length left.tail;
      reopened =
          subst
            (λ (o : List Record × ℕ).
              Succeeds
                (λ report w'.
                  Reopened opts o.0 o.1 (length left.tail) (length w.segment_bases) report w')
                (open_log (calm gs now') opts))
            (λ i. (held i, next i))
            (open_log-Reopened b.older newest opts
              (subst
                (λ m.
                  Shelf gs now' b.start (next_base b.start b.older + left.whole) m w.segment_bases
                    b.older newest)
                (sym limit) left.shelf)
              (omega (arith, ap length b.all)));
    }
