-- ===== src/Record/Sound.antt =====
-- Scanning bytes that nobody vouches for: whatever a scan accepts is what `encode` writes.
use go_wallib.Base.{
  ℕ, zero, suc, ◌+◌, ◌≤◌, ◌<◌, ◌≡◌, refl, sym, ap, ◌∙◌, Bool, true, false, none, List, ◌∷◌, ◌++◌,
  append-nil, append_assoc, arith, length, take, drop, length-take, length-drop, take-append-drop,
  drop-drop, take-append, length-eq-zero, All, All-take, All-drop, ==→eq, ◌⊎◌, inl, inr,
}
use go_wallib.Bytes.{IsByte, get_le, put_le_back, get_le_bound}
use go_wallib.Record.{
  Record, Scanner, header_tail, checksum, frame, new_scanner, next, scan_loop, scan, read_header,
  read_full, header_error, accept_header, accept_payload, crc_matches,
}
use go_wallib.Record.Step.{Fits, running, read_payload_lem}
use go_wallib.Record.RoundTrip.{
  frames, no_record, scan_loop-stop, scan_loop-more, length-frames-cons,
}

-- The parts of the bytes that `next` looks at.
abbrev head_of : List ℕ → List ℕ
head_of bytes = take 16 bytes

abbrev length_of : List ℕ → ℕ
length_of bytes = get_le (take 4 (drop 4 (head_of bytes)))

abbrev record_of : List ℕ → Record
record_of bytes = record {
  lsn = get_le (drop 8 (head_of bytes));
  payload = take (length_of bytes) (drop 16 bytes);
}

record Accepted (bytes : List ℕ) (max_rec : ℕ) : Type 0 where
  has_header : 16 ≤ length bytes
  has_payload : length_of bytes ≤ length (drop 16 bytes)
  allowed : length_of bytes ≤ max_rec
  checked :
      crc_matches
        (get_le (take 4 (head_of bytes)))
        (drop 4 (head_of bytes))
        (take (length_of bytes) (drop 16 bytes))
      ≡ true

next-Accepted :
    (bytes : List ℕ) (broken : Bool) (cur : Record) (max_rec valid : ℕ) (s' : Scanner)
    → next (running bytes broken cur max_rec valid) ≡ (true, s')
    → Accepted bytes max_rec
      × (s'
          ≡ running
              (drop (length_of bytes) (drop 16 bytes))
              broken
              (record_of bytes)
              max_rec
              (valid + 16 + length_of bytes))
unfolding next accept_header accept_payload read_header read_full header_error
next-Accepted bytes broken cur max_rec valid s' e =
    ground (arith, read_payload_lem (length_of bytes) (drop 16 bytes) broken)

-- A header is three fields.
head_fields : (h : List ℕ) → take 4 h ++ (take 4 (drop 4 h) ++ drop 8 h) ≡ h
head_fields h =
    ap (λ l. take 4 h ++ l)
      (ap (λ l. take 4 (drop 4 h) ++ l) (sym (drop-drop 4 4 8 h refl))
        ∙ take-append-drop 4 (drop 4 h))
    ∙ take-append-drop 4 h

module _ (bytes : List ℕ) (max_rec : ℕ) (h : All IsByte bytes) (a : Accepted bytes max_rec) where
  length-head : length (head_of bytes) ≡ 16
  length-head = omega (arith, length-take 16 bytes, a.has_header)

  head-IsByte : All IsByte (head_of bytes)
  head-IsByte = All-take IsByte 16 bytes h

  length-first : length (take 4 (head_of bytes)) ≡ 4
  length-first = omega (arith, length-take 4 (head_of bytes), length-head)

  length-second : length (take 4 (drop 4 (head_of bytes))) ≡ 4
  length-second =
      omega
        (arith, length-take 4 (drop 4 (head_of bytes)), length-drop 4 (head_of bytes), length-head)

  length-third : length (drop 8 (head_of bytes)) ≡ 8
  length-third = omega (arith, length-drop 8 (head_of bytes), length-head)

  length-payload : length (record_of bytes).payload ≡ length_of bytes
  length-payload = omega (arith, length-take (length_of bytes) (drop 16 bytes), a.has_payload)

  record_of-Fits : Fits max_rec (record_of bytes)
  record_of-Fits = record {
    lsn_fits = get_le_bound 8 _ length-third (All-drop IsByte 8 _ head-IsByte);
    length_fits =
        rw length-payload
          (get_le_bound 4 _ length-second (All-take IsByte 4 _ (All-drop IsByte 4 _ head-IsByte)));
    within_max = rw length-payload a.allowed;
  }

  tail_back : header_tail (length_of bytes) (record_of bytes).lsn ≡ drop 4 (head_of bytes)
  tail_back =
      rw
        (
          put_le_back 4 _ length-second (All-take IsByte 4 _ (All-drop IsByte 4 _ head-IsByte)),
          put_le_back 8 _ length-third (All-drop IsByte 8 _ head-IsByte),
        )
        (ap (λ l. take 4 (drop 4 (head_of bytes)) ++ l) (sym (drop-drop 4 4 8 (head_of bytes) refl))
          ∙ take-append-drop 4 (drop 4 (head_of bytes)))

  checksum_back :
      checksum (drop 4 (head_of bytes)) (record_of bytes).payload ≡ get_le (take 4 (head_of bytes))
  unfolding checksum
  checksum_back = ==→eq _ _ (unfold crc_matches in a.checked)

  frame_back :
      frame (record_of bytes).lsn (record_of bytes).payload
      ≡ head_of bytes ++ (record_of bytes).payload
  unfolding frame
  frame_back = rw (
    length-payload,
    tail_back,
    checksum_back,
    put_le_back 4 _ length-first (All-take IsByte 4 _ head-IsByte),
    take-append-drop 4 (head_of bytes),
  )

  split_back :
      bytes
      ≡ frame (record_of bytes).lsn (record_of bytes).payload
        ++ drop (length_of bytes) (drop 16 bytes)
  split_back = rw (
    frame_back,
    append_assoc (head_of bytes) (record_of bytes).payload (drop (length_of bytes) (drop 16 bytes)),
    take-append-drop (length_of bytes) (drop 16 bytes),
    take-append-drop 16 bytes,
  )

next_stops :
    (bytes : List ℕ) (broken : Bool) (cur : Record) (max_rec valid : ℕ) (s' : Scanner)
    → next (running bytes broken cur max_rec valid) ≡ (false, s')
    → (s'.valid_bytes ≡ valid) × (s'.first_err ≡ none → length bytes ≡ 0)
unfolding next accept_header accept_payload read_header read_full header_error
next_stops bytes broken cur max_rec valid s' e =
    ground (arith, read_payload_lem (length_of bytes) (drop 16 bytes) broken)

-- What a scan from `valid` on makes of `bytes`.
pub record Scanned (bytes : List ℕ) (max_rec valid : ℕ) (rs : List Record) (end : Scanner)
    : Type 0 where
  pub fits : All (Fits max_rec) rs
  pub tail : List ℕ
  pub split : bytes ≡ frames rs ++ tail
  pub counted : end.valid_bytes ≡ valid + length (frames rs)
  pub clean : end.first_err ≡ none → length tail ≡ 0

Scanned-cons :
    (bytes : List ℕ) (max_rec valid : ℕ) (r : Record) (rest : List ℕ) (rs : List Record)
    (end : Scanner)
    → Fits max_rec r
    → bytes ≡ frame r.lsn r.payload ++ rest
    → Scanned rest max_rec (valid + 16 + length r.payload) rs end
    → Scanned bytes max_rec valid (r ∷ rs) end
unfolding frames
Scanned-cons bytes max_rec valid r rest rs end fit e s = record {
  fits = (fit, s.fits);
  tail = s.tail;
  split =
      e
      ∙ ap (λ l. frame r.lsn r.payload ++ l) s.split
      ∙ sym (append_assoc (frame r.lsn r.payload) (frames rs) s.tail);
  counted = omega (arith, s.counted, length-frames-cons r rs);
  clean = s.clean;
}

next_cases : (p : Bool × Scanner) → (p ≡ (false, p.1)) ⊎ (p ≡ (true, p.1))
next_cases (false, s) = inl refl
next_cases (true, s) = inr refl

scan_loop-Scanned :
    (fuel : ℕ) (bytes : List ℕ) (broken : Bool) (cur : Record) (max_rec valid : ℕ)
    → length bytes < fuel
    → All IsByte bytes
    → Scanned bytes max_rec valid
        (scan_loop fuel (running bytes broken cur max_rec valid)).0
        (scan_loop fuel (running bytes broken cur max_rec valid)).1
scan_loop-Scanned zero bytes broken cur max_rec valid lt h = absurd (omega arith)
scan_loop-Scanned (suc fuel) bytes broken cur max_rec valid lt h =
    elim (next_cases (next (running bytes broken cur max_rec valid))) [
      | inl e ↦
          let (same, clean) = next_stops bytes broken cur max_rec valid _ e in
          rw (scan_loop-stop fuel _ _ e) (record {
            fits = tt;
            tail = bytes;
            split = unfold frames in refl;
            counted = unfold frames in omega (arith, same);
            clean = clean;
          })
      | inr e ↦
          let (a, after) = next-Accepted bytes broken cur max_rec valid _ e in
          rw (scan_loop-more fuel _ _ (e ∙ ap (λ t. (true, t)) after)) (
            Scanned-cons bytes max_rec valid (record_of bytes) _ _ _
              (record_of-Fits bytes max_rec h a) (split_back bytes max_rec h a)
              (rw (length-payload bytes max_rec h a) (
                scan_loop-Scanned fuel (drop (length_of bytes) (drop 16 bytes)) broken
                  (record_of bytes) max_rec (valid + 16 + length_of bytes)
                  (omega (
                    arith,
                    length-drop (length_of bytes) (drop 16 bytes),
                    length-drop 16 bytes,
                    a.has_header,
                  ))
                  (All-drop IsByte _ _ (All-drop IsByte 16 bytes h)))))
    ]

-- The scan of a segment's bytes from the start.
abbrev pub scan_bytes : List ℕ → Bool → ℕ → List Record × Scanner
scan_bytes bytes broken max_rec =
    scan (new_scanner (record { bytes = bytes; broken = broken }) max_rec)

scan-Scanned :
    (bytes : List ℕ) (broken : Bool) (max_rec : ℕ)
    → All IsByte bytes
    → Scanned bytes max_rec 0
        (scan_bytes bytes broken max_rec).0
        (scan_bytes bytes broken max_rec).1
unfolding scan new_scanner
scan-Scanned bytes broken max_rec h =
    scan_loop-Scanned (suc (length bytes)) bytes broken no_record max_rec 0 (omega arith) h

-- On any bytes, the records that a scan returns fit their fields and the limit, and the bytes up to
-- the scanner's offset are exactly the frames that `encode` writes for these records.
pub scan_sound :
    (bytes : List ℕ) (broken : Bool) (max_rec : ℕ)
    → All IsByte bytes
    → All (Fits max_rec) (scan_bytes bytes broken max_rec).0
      × (take (scan_bytes bytes broken max_rec).1.valid_bytes bytes
          ≡ frames (scan_bytes bytes broken max_rec).0)
scan_sound bytes broken max_rec h =
    let s = scan-Scanned bytes broken max_rec h in
    (
      s.fits,
      ap (take (scan_bytes bytes broken max_rec).1.valid_bytes) s.split
          ∙ take-append _ (frames (scan_bytes bytes broken max_rec).0) s.tail
              (omega (arith, s.counted)),
    )

-- A scan of any bytes that ends with no error has read all of them: they are the frames of the
-- records that it returned.
pub scan_clean :
    (bytes : List ℕ) (broken : Bool) (max_rec : ℕ)
    → All IsByte bytes
    → (scan_bytes bytes broken max_rec).1.first_err ≡ none
    → bytes ≡ frames (scan_bytes bytes broken max_rec).0
scan_clean bytes broken max_rec h e =
    let s = scan-Scanned bytes broken max_rec h in
    s.split
    ∙ ap (λ l. frames (scan_bytes bytes broken max_rec).0 ++ l) (length-eq-zero s.tail (s.clean e))
    ∙ append-nil _
