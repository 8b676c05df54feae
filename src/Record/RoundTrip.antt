-- ===== src/Record/RoundTrip.antt =====
-- Scanning what `encode` wrote: whole, and cut short by a crash.
use go_wallib.Base.{
  ℕ, zero, suc, ◌+◌, ◌≤◌, ◌<◌, ◌≡◌, ap, ◌∙◌, Bool, true, false, some, List, [], ◌∷◌, ◌++◌,
  append-nil, append_assoc, arith, length, length-append, All, le→ltb,
}
use go_wallib.Errors.{Result, ok, err, torn}
use go_wallib.Record.{
  Record, Scanner, frame, encode, new_scanner, next, scan_loop, scan, max_payload_size,
}
use go_wallib.Record.Step.{Fits, running, length-frame, next-frame, next_end, next_torn}

-- The bytes of a log: one frame after the other.
unfoldable pub frames : List Record → List ℕ
frames [] = []
frames (r ∷ rs) = frame r.lsn r.payload ++ frames rs

unfoldable pub last_of : Record → List Record → Record
last_of r [] = r
last_of r (q ∷ qs) = last_of q qs

abbrev pub no_record : Record
no_record = record { lsn = 0; payload = [] }

-- Calls of `encode`, each on what the one before returned.
unfoldable pub encode_all : List ℕ → List Record → Result (List ℕ)
encode_all dst [] = ok dst
encode_all dst (r ∷ rs) = elim (encode dst r.lsn r.payload) [
  | ok d ↦ encode_all d rs
  | err e ↦ err e
]

pub encode-frame :
    (dst : List ℕ) (max_rec : ℕ) (r : Record)
    → Fits max_rec r
    → encode dst r.lsn r.payload ≡ ok (dst ++ frame r.lsn r.payload)
unfolding encode
encode-frame dst max_rec r fit =
    let small : length r.payload ≤ max_payload_size = omega (arith, fit.length_fits) in
    rw (le→ltb max_payload_size (length r.payload) small)

pub encode_all-frames :
    (rs : List Record) (dst : List ℕ) (max_rec : ℕ)
    → All (Fits max_rec) rs
    → encode_all dst rs ≡ ok (dst ++ frames rs)
unfolding encode_all frames
encode_all-frames [] dst max_rec h = rw append-nil
encode_all-frames (r ∷ rs) dst max_rec (h, hs) =
    rw (encode-frame dst max_rec r h, encode_all)
      (encode_all-frames rs (dst ++ frame r.lsn r.payload) max_rec hs
        ∙ ap ok (append_assoc dst (frame r.lsn r.payload) (frames rs)))

pub length-le-frames : (rs : List Record) → length rs ≤ length (frames rs)
unfolding frames
length-le-frames [] = omega arith
length-le-frames (r ∷ rs) = omega (
  arith,
  length-le-frames rs,
  length-append (frame r.lsn r.payload) (frames rs),
  length-frame r.lsn r.payload,
)

pub length-frames-cons :
    (r : Record) (rs : List Record)
    → length (frames (r ∷ rs)) ≡ 16 + length r.payload + length (frames rs)
unfolding frames
length-frames-cons r rs =
    omega (arith, length-append (frame r.lsn r.payload) (frames rs), length-frame r.lsn r.payload)

pub scan_loop-stop :
    (fuel : ℕ) (s s' : Scanner) → next s ≡ (false, s') → scan_loop (suc fuel) s ≡ ([], s')
unfolding scan_loop
scan_loop-stop fuel s s' e = ground (arith, e)

pub scan_loop-more :
    (fuel : ℕ) (s s' : Scanner)
    → next s ≡ (true, s')
    → scan_loop (suc fuel) s ≡ (s'.current ∷ (scan_loop fuel s').0, (scan_loop fuel s').1)
unfolding scan_loop
scan_loop-more fuel s s' e = ground (arith, e)

pub scan_loop-frames :
    (rs : List Record) (fuel : ℕ) (cur : Record) (tail : List ℕ) (broken : Bool)
    (max_rec valid total : ℕ) (end : Scanner)
    → length rs < fuel
    → All (Fits max_rec) rs
    → valid + length (frames rs) ≡ total
    → next (running tail broken (last_of cur rs) max_rec total) ≡ (false, end)
    → scan_loop fuel (running (frames rs ++ tail) broken cur max_rec valid) ≡ (rs, end)
unfolding frames last_of
scan_loop-frames rs zero cur tail broken max_rec valid total end lt fits sum stop =
    absurd (omega arith)
scan_loop-frames [] (suc fuel) cur tail broken max_rec valid total end lt fits sum stop =
    let same : valid ≡ total = omega arith in
    rw same (scan_loop-stop fuel (running tail broken cur max_rec total) end stop)
scan_loop-frames (r ∷ rs) (suc fuel) cur tail broken max_rec valid total end lt (fit, fits) sum
      stop =
    let first =
      scan_loop-more fuel (running (frames (r ∷ rs) ++ tail) broken cur max_rec valid)
        (running (frames rs ++ tail) broken r max_rec (valid + 16 + length r.payload))
        (rw (append_assoc (frame r.lsn r.payload) (frames rs) tail)
          (next-frame r cur (frames rs ++ tail) broken max_rec valid fit)) in
    let others =
      scan_loop-frames rs fuel r tail broken max_rec (valid + 16 + length r.payload) total end
        (omega arith) fits (omega (arith, length-frames-cons r rs)) stop in
    first ∙ rw others

module _ (max_rec : ℕ) (rs : List Record) (fits : All (Fits max_rec) rs) where
  pub scan-frames_stop :
      (tail : List ℕ) (broken : Bool) (end : Scanner)
      → next (running tail broken (last_of no_record rs) max_rec (length (frames rs)))
        ≡ (false, end)
      → scan (new_scanner (record { bytes = frames rs ++ tail; broken = broken }) max_rec)
        ≡ (rs, end)
  unfolding scan new_scanner
  scan-frames_stop tail broken end stop =
      scan_loop-frames rs (suc (length (frames rs ++ tail))) no_record tail broken max_rec 0
        (length (frames rs)) end
        (omega (arith, length-le-frames rs, length-append (frames rs) tail)) fits (omega arith) stop

  -- The same of the frames themselves.
  pub scan-frames :
      scan (new_scanner (record { bytes = frames rs; broken = false }) max_rec)
      ≡ (rs, running [] false (last_of no_record rs) max_rec (length (frames rs)))
  scan-frames = rw (append-nil (frames rs)) at (
      scan-frames_stop [] false
        (running [] false (last_of no_record rs) max_rec (length (frames rs)))
        (next_end (last_of no_record rs) max_rec (length (frames rs))))

  -- Records that fit their fields and the limit can be encoded one behind the other, and a scan of
  -- what `encode` wrote returns these records, ends cleanly and counts every byte.
  pub scan-encode_all :
      (bytes : List ℕ) × (encode_all [] rs ≡ ok bytes)
      × (scan (new_scanner (record { bytes = bytes; broken = false }) max_rec)
          ≡ (rs, running [] false (last_of no_record rs) max_rec (length bytes)))
  scan-encode_all = (frames rs, encode_all-frames rs [] max_rec fits, scan-frames)

  -- A scan of the frames of records that fit, followed by a proper, nonempty front of one more frame,
  -- returns the records of the whole frames, reports the torn one and counts the bytes up to it.
  pub scan_torn :
      (r : Record) (front back : List ℕ)
      → Fits max_rec r
      → frame r.lsn r.payload ≡ front ++ back
      → 0 < length front
      → 0 < length back
      → scan (new_scanner (record { bytes = frames rs ++ front; broken = false }) max_rec) ≡ (
        rs,
        record (running [] false (last_of no_record rs) max_rec (length (frames rs))) {
          first_err = some torn;
        },
      )
  scan_torn r front back fit e lo hi =
      scan-frames_stop front false
        (record (running [] false (last_of no_record rs) max_rec (length (frames rs))) {
          first_err = some torn;
        })
        (next_torn r (last_of no_record rs) front back max_rec (length (frames rs)) fit e lo hi)
