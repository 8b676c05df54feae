-- ===== src/Record.antt =====
-- internal/record: the CRC32C frame of one record (record.go) and the scanner that reads frames back
-- (scanner.go).
pub mod Step
pub mod RoundTrip
pub mod Sound
mod Tests
use go_wallib.Base.{
  ℕ, zero, suc, ◌+◌, ◌^◌, ◌-◌, Bool, true, false, Option, none, some, List, [], ◌∷◌, ◌++◌, length,
  take, drop, ltb, leb, ◌==◌, if◌then◌else◌,
}
use go_wallib.Bytes.{put_le, get_le, crc_update}
use go_wallib.Errors.{
  Error, eof, unexpected_eof, io_failure, payload_too_large, torn, record_corrupt, too_large,
  Result, ok, err,
}

abbrev pub header_size : ℕ
header_size = 16

abbrev pub max_payload_size : ℕ
max_payload_size = 2 ^ 32 - 1

-- The payload buffer is shared between calls of `next` in the source; here each record owns its own.
pub record Record : Type 0 where
  pub lsn : ℕ
  pub payload : List ℕ

abbrev pub encoded_size : ℕ → ℕ
encoded_size payload_len = header_size + payload_len

-- hdr[4:16]: Length || LSN.
abbrev pub header_tail : ℕ → ℕ → List ℕ
header_tail n lsn = put_le 4 n ++ put_le 8 lsn

unfoldable pub checksum : List ℕ → List ℕ → ℕ
checksum tail payload = crc_update (crc_update 0 tail) payload

-- The bytes that `encode` appends to `dst`.
unfoldable pub frame : ℕ → List ℕ → List ℕ
frame lsn payload =
    let tail = header_tail (length payload) lsn in
    (put_le 4 (checksum tail payload) ++ tail) ++ payload

unfoldable pub encode : List ℕ → ℕ → List ℕ → Result (List ℕ)
encode dst lsn payload =
    if ltb max_payload_size (length payload)
    then err payload_too_large
    else ok (dst ++ frame lsn payload)

-- What the reader still holds. With `broken` it fails at the end of `bytes` instead of reporting EOF.
pub record Source : Type 0 where
  pub bytes : List ℕ
  pub broken : Bool

pub record Scanner : Type 0 where
  pub source : Source
  pub first_err : Option Error
  pub current : Record
  pub max_rec_bytes : ℕ
  pub valid_bytes : ℕ

unfoldable pub new_scanner : Source → ℕ → Scanner
new_scanner source max_record_bytes = record {
  source = source;
  first_err = none;
  current = record { lsn = 0; payload = [] };
  max_rec_bytes = max_record_bytes;
  valid_bytes = 0;
}

-- `io.ReadFull` for n > 0: EOF when nothing was read, ErrUnexpectedEOF when too little was.
unfoldable pub read_full : ℕ → Source → Result (List ℕ) × Source
read_full n src =
    if leb n (length src.bytes)
    then (ok (take n src.bytes), record src { bytes = drop n src.bytes })
    else (
      if src.broken
          then err io_failure
          else (if length src.bytes == 0 then err eof else err unexpected_eof),
      record src { bytes = [] },
    )

-- A partial header is torn; no byte at all is a clean boundary.
unfoldable pub header_error : Result (List ℕ) → Result (List ℕ)
header_error (err unexpected_eof) = err torn
header_error r = r

unfoldable pub payload_error : Result (List ℕ) → Result (List ℕ)
payload_error (err eof) = err torn
payload_error (err unexpected_eof) = err torn
payload_error r = r

unfoldable pub read_header : Source → Result (List ℕ) × Source
unfolding header_error
read_header src = let (r, rest) = read_full header_size src in (header_error r, rest)

unfoldable pub read_payload : ℕ → Source → Result (List ℕ) × Source
unfolding payload_error
read_payload n src =
    if n == 0 then (ok [], src) else (let (r, rest) = read_full n src in (payload_error r, rest))

unfoldable pub crc_matches : ℕ → List ℕ → List ℕ → Bool
crc_matches stored tail payload = crc_update (crc_update 0 tail) payload == stored

abbrev pub fail : Error → Scanner → Bool × Scanner
fail e s = (false, record s { first_err = some e })

-- The end of `next`, with the header and the payload at hand.
unfoldable pub accept_payload : List ℕ → Result (List ℕ) → Scanner → Bool × Scanner
accept_payload header (err e) s = fail e s
accept_payload header (ok payload) s =
    if crc_matches (get_le (take 4 header)) (drop 4 header) payload
    then (
      true,
      record s {
        valid_bytes = s.valid_bytes + header_size + get_le (take 4 (drop 4 header));
        current = record { lsn = get_le (drop 8 header); payload = payload };
      },
    )
    else fail record_corrupt s

unfoldable pub accept_header : Result (List ℕ) → Scanner → Bool × Scanner
unfolding accept_payload
accept_header (err eof) s = (false, s)
accept_header (err e) s = fail e s
accept_header (ok header) s =
    let payload_len = get_le (take 4 (drop 4 header)) in
    if ltb s.max_rec_bytes payload_len
    then fail too_large s
    else (let (payload, rest) = read_payload payload_len s.source in
        accept_payload header payload (record s { source = rest }))

unfoldable pub next : Scanner → Bool × Scanner
unfolding accept_header
next s = elim s.first_err [
  | some e ↦ (false, s)
  | none ↦
      let (header, rest) = read_header s.source in accept_header header (record s { source = rest })
]

-- `for scanner.Next()`: the records in order, and the scanner as the loop leaves it. Every round takes
-- a header at least, so one more round than there are bytes is enough.
unfoldable pub scan_loop : ℕ → Scanner → List Record × Scanner
scan_loop zero s = ([], s)
scan_loop (suc fuel) s =
    let (more, s') = next s in
    elim more [
      | false ↦ ([], s')
      | true ↦ let (rs, s'') = scan_loop fuel s' in (s'.current ∷ rs, s'')
    ]

unfoldable pub scan : Scanner → List Record × Scanner
unfolding scan_loop
scan s = scan_loop (suc (length s.source.bytes)) s
