-- ===== src/Record/Step.antt =====
-- One call of `next`: on a whole frame, on the rest of a torn one, and at the end of the source.
use go_wallib.Base.{
  ℕ, zero, suc, ◌+◌, ◌^◌, ◌≤◌, ◌<◌, ◌≡◌, refl, sym, ap, ◌∙◌, Bool, true, false, none, some, List,
  [], ◌∷◌, ◌++◌, append_assoc, arith, length, take, drop, leb, if◌then◌else◌, length-append,
  take-append, drop-append, le→ltb, lt→leb, append_split, eq→==,
}
use native.Mathlib.Decide.{dec_lt}
use go_wallib.Bytes.{put_le, get_le, length-put_le, get_le-put_le, crc_update-lt}
use go_wallib.Errors.{ok, err, torn, io_failure}
use go_wallib.Record.{
  Record, Scanner, header_tail, checksum, frame, next, read_full, read_header, read_payload,
  header_error, payload_error, accept_header, accept_payload, crc_matches,
}

-- What `AppendBatch` and Go's types guarantee of a record that is written.
pub record Fits (max_rec : ℕ) (r : Record) : Type 0 where
  pub lsn_fits : r.lsn < 2 ^ 64
  pub length_fits : length r.payload < 2 ^ 32
  pub within_max : length r.payload ≤ max_rec

-- A scanner in good order, with `valid` bytes behind it.
abbrev pub running : List ℕ → Bool → Record → ℕ → ℕ → Scanner
running bytes broken current max_rec valid = record {
  source = record { bytes = bytes; broken = broken };
  first_err = none;
  current = current;
  max_rec_bytes = max_rec;
  valid_bytes = valid;
}

pub read_full-append :
    (n : ℕ) (xs ys : List ℕ) (broken : Bool)
    → length xs ≡ n
    → read_full n (record { bytes = xs ++ ys; broken = broken })
      ≡ (ok xs, record { bytes = ys; broken = broken })
unfolding read_full
read_full-append n xs ys broken h =
    ground (arith, length-append xs ys, take-append n xs ys, drop-append n xs ys)

read_payload-append :
    (xs ys : List ℕ) (broken : Bool)
    → read_payload (length xs) (record { bytes = xs ++ ys; broken = broken })
      ≡ (ok xs, record { bytes = ys; broken = broken })
unfolding read_payload payload_error
read_payload-append [] ys broken = refl
read_payload-append (x ∷ xs) ys broken =
    rw (read_full-append (length (x ∷ xs)) (x ∷ xs) ys broken refl) (ground arith)

module _ (lsn : ℕ) (payload : List ℕ) where
  frame_head : List ℕ
  frame_head =
      put_le 4 (checksum (header_tail (length payload) lsn) payload)
      ++ header_tail (length payload) lsn

  frame_parts : frame lsn payload ≡ frame_head ++ payload
  unfolding frame frame_head
  frame_parts = refl

  length-frame_head : length frame_head ≡ 16
  unfolding frame_head
  length-frame_head = simp (length-append, length-put_le)

  pub length-frame : length (frame lsn payload) ≡ 16 + length payload
  length-frame = rw frame_parts (omega (arith, length-append frame_head payload, length-frame_head))

  -- The three fields of a header that was written.
  stored_crc : get_le (take 4 frame_head) ≡ checksum (header_tail (length payload) lsn) payload
  unfolding frame_head checksum
  stored_crc =
      ap get_le (take-append 4 (put_le 4 _) _ (length-put_le 4 _))
      ∙ get_le-put_le 4 _ (crc_update-lt _ _)

  stored_tail : drop 4 frame_head ≡ header_tail (length payload) lsn
  unfolding frame_head
  stored_tail = drop-append 4 (put_le 4 _) _ (length-put_le 4 _)

  stored_length : length payload < 2 ^ 32 → get_le (take 4 (drop 4 frame_head)) ≡ length payload
  stored_length h =
      rw stored_tail
        (ap get_le (take-append 4 (put_le 4 _) _ (length-put_le 4 _)) ∙ get_le-put_le 4 _ h)

  stored_lsn : lsn < 2 ^ 64 → get_le (drop 8 frame_head) ≡ lsn
  unfolding frame_head
  stored_lsn h = ap get_le {y = put_le 8 lsn} (unfold put_le in refl) ∙ get_le-put_le 8 lsn h

  read_header-frame_head :
      (rest : List ℕ) (broken : Bool)
      → read_header (record { bytes = frame_head ++ rest; broken = broken })
        ≡ (ok frame_head, record { bytes = rest; broken = broken })
  unfolding read_header header_error
  read_header-frame_head rest broken =
      rw (read_full-append 16 frame_head rest broken length-frame_head)

  read_header-frame :
      (rest : List ℕ) (broken : Bool)
      → read_header (record { bytes = frame lsn payload ++ rest; broken = broken })
        ≡ (ok frame_head, record { bytes = payload ++ rest; broken = broken })
  read_header-frame rest broken = rw (
    frame_parts,
    append_assoc frame_head payload rest,
    read_header-frame_head (payload ++ rest) broken,
  )

  checksum_matches : crc_matches (get_le (take 4 frame_head)) (drop 4 frame_head) payload ≡ true
  unfolding crc_matches
  checksum_matches = rw (stored_crc, stored_tail) (eq→== _ _ (unfold checksum in refl))

-- A whole frame is read as its record.
pub next-frame :
    (r cur : Record) (rest : List ℕ) (broken : Bool) (max_rec valid : ℕ)
    → Fits max_rec r
    → next (running (frame r.lsn r.payload ++ rest) broken cur max_rec valid)
      ≡ (true, running rest broken r max_rec (valid + 16 + length r.payload))
unfolding next accept_header accept_payload
next-frame r cur rest broken max_rec valid fits = rw (
  read_header-frame r.lsn r.payload rest broken,
  stored_length r.lsn r.payload fits.length_fits,
  le→ltb max_rec (length r.payload) fits.within_max,
  read_payload-append r.payload rest broken,
  checksum_matches r.lsn r.payload,
  stored_lsn r.lsn r.payload fits.lsn_fits,
  stored_length r.lsn r.payload fits.length_fits,
)

-- `read_payload` reads all or nothing, also at n = 0.
pub read_payload_lem :
    (n : ℕ) (bytes : List ℕ) (broken : Bool)
    → read_payload n (record { bytes = bytes; broken = broken }) ≡ (
        if leb n (length bytes)
        then (ok (take n bytes), record { bytes = drop n bytes; broken = broken })
        else (err (if broken then io_failure else torn), record { bytes = []; broken = broken }))
unfolding read_payload read_full
read_payload_lem zero bytes broken = ground arith
read_payload_lem (suc n) bytes broken = ground arith

-- The end of the source, clean.
pub next_end :
    (cur : Record) (max_rec valid : ℕ)
    → next (running [] false cur max_rec valid) ≡ (false, running [] false cur max_rec valid)
unfolding next read_header read_full
next_end cur max_rec valid = refl

-- Fewer bytes than a header.
next_short :
    (bytes : List ℕ) (cur : Record) (max_rec valid : ℕ)
    → 0 < length bytes
    → length bytes < 16
    → next (running bytes false cur max_rec valid)
      ≡ (false, record (running [] false cur max_rec valid) { first_err = some torn })
unfolding next read_header read_full
next_short bytes cur max_rec valid lo hi = ground arith

-- A whole header with too little behind it.
next_short_payload :
    (r cur : Record) (mid : List ℕ) (max_rec valid : ℕ)
    → Fits max_rec r
    → length mid < length r.payload
    → next (running (frame_head r.lsn r.payload ++ mid) false cur max_rec valid)
      ≡ (false, record (running [] false cur max_rec valid) { first_err = some torn })
unfolding next accept_header accept_payload
next_short_payload r cur mid max_rec valid fits lt = rw (
  read_header-frame_head r.lsn r.payload mid false,
  stored_length r.lsn r.payload fits.length_fits,
  le→ltb max_rec (length r.payload) fits.within_max,
  read_payload_lem (length r.payload) mid false,
  lt→leb (length r.payload) (length mid) lt,
)

-- A front of a frame, not empty and not the whole, is torn: a crash cut the write.
pub next_torn :
    (r cur : Record) (front back : List ℕ) (max_rec valid : ℕ)
    → Fits max_rec r
    → frame r.lsn r.payload ≡ front ++ back
    → 0 < length front
    → 0 < length back
    → next (running front false cur max_rec valid)
      ≡ (false, record (running [] false cur max_rec valid) { first_err = some torn })
next_torn r cur front back max_rec valid fits e lo hi = elim (dec_lt (length front) 16) [
  | yes short ↦ next_short front cur max_rec valid lo short
  | no long ↦
      let (mid, split, rest) =
        append_split (frame_head r.lsn r.payload) r.payload front back
          (sym (frame_parts r.lsn r.payload) ∙ e)
          (omega (arith, length-frame_head r.lsn r.payload)) in
      rw split (
        next_short_payload r cur mid max_rec valid fits
          (omega (arith, ap length rest, length-append mid back)))
]
