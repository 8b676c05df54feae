-- ===== src/Segment/Header.antt =====
-- internal/segment/header.go: the fixed header of a segment file.
use go_wallib.Base.{
  ℕ, ◌+◌, ◌^◌, ◌≤◌, ◌<◌, ◌≡◌, refl, sym, ap, ◌∙◌, true, not, List, [], ◌∷◌, ◌++◌, append_assoc,
  arith, length, take, drop, ltb, ◌==◌, if◌then◌else◌, length-append, length-take, length-drop,
  take-append, drop-append, drop-drop, take-split, All, All-take, All-drop, bytes_eq, bytes_eq→eq,
  eq→==, le→ltb,
}
use go_wallib.Bytes.{
  IsByte, put_le, get_le, crc_update, crc_update-lt, length-put_le, put_le-IsByte, get_le-put_le,
  put_le_back, get_le_bound,
}
use go_wallib.Errors.{Result, ok, err, bad_magic, unknown_version, segment_corrupt}

abbrev pub header_size : ℕ
header_size = 28

abbrev pub version : ℕ
version = 1

-- GWAL
abbrev pub magic : List ℕ
magic = 0x47 ∷ 0x57 ∷ 0x41 ∷ 0x4c ∷ []

pub record Header : Type 0 where
  pub base_lsn : ℕ
  pub created_at : ℕ
  pub version_field : ℕ
  pub flags : ℕ

-- encoded[0:24].
unfoldable pub header_body : Header → List ℕ
header_body h =
    magic
    ++ (put_le 2 h.version_field
        ++ (put_le 2 h.flags ++ (put_le 8 h.base_lsn ++ put_le 8 h.created_at)))

unfoldable pub encode_header : Header → List ℕ
encode_header h = header_body h ++ put_le 4 (crc_update 0 (header_body h))

-- The fields of the first 24 bytes.
unfoldable pub header_fields : List ℕ → Header
header_fields encoded = record {
  version_field = get_le (take 2 (drop 4 encoded));
  flags = get_le (take 2 (drop 6 encoded));
  base_lsn = get_le (take 8 (drop 8 encoded));
  created_at = get_le (take 8 (drop 16 encoded));
}

unfoldable pub decode_header : List ℕ → Result Header
decode_header encoded =
    if ltb (length encoded) header_size
    then err segment_corrupt
    else if not (bytes_eq (take 4 encoded) magic)
    then err bad_magic
    else if not (crc_update 0 (take 24 encoded) == get_le (take 4 (drop 24 encoded)))
    then err segment_corrupt
    else if not ((header_fields encoded).version_field == version)
    then err unknown_version
    else ok (header_fields encoded)

-- The widths of Go's field types.
pub record Fits (h : Header) : Type 0 where
  pub base_fits : h.base_lsn < 2 ^ 64
  pub created_fits : h.created_at < 2 ^ 64
  pub version_fits : h.version_field < 2 ^ 16
  pub flags_fits : h.flags < 2 ^ 16

length-header_body : (h : Header) → length (header_body h) ≡ 24
unfolding header_body put_le
length-header_body h = refl

pub length-encode_header : (h : Header) → length (encode_header h) ≡ header_size
unfolding encode_header
length-encode_header h = omega (
  arith,
  length-append (header_body h) (put_le 4 (crc_update 0 (header_body h))),
  length-header_body h,
  length-put_le 4 (crc_update 0 (header_body h)),
)

header_fields-body :
    (h : Header) (rest : List ℕ) → Fits h → header_fields (header_body h ++ rest) ≡ h
unfolding header_fields header_body put_le
header_fields-body h rest fits = λ i. record {
  version_field = get_le-put_le 2 h.version_field fits.version_fits i;
  flags = get_le-put_le 2 h.flags fits.flags_fits i;
  base_lsn = get_le-put_le 8 h.base_lsn fits.base_fits i;
  created_at = get_le-put_le 8 h.created_at fits.created_fits i;
}

module _ (h : Header) (rest : List ℕ) where
  written_magic : bytes_eq (take 4 (header_body h ++ rest)) magic ≡ true
  unfolding header_body
  written_magic = refl

  abbrev stored : List ℕ
  stored = put_le 4 (crc_update 0 (header_body h))

  written_body : take 24 (header_body h ++ (stored ++ rest)) ≡ header_body h
  written_body = take-append 24 (header_body h) (stored ++ rest) (length-header_body h)

  written_crc :
      get_le (take 4 (drop 24 (header_body h ++ (stored ++ rest)))) ≡ crc_update 0 (header_body h)
  written_crc =
      rw
        (
          drop-append 24 (header_body h) (stored ++ rest) (length-header_body h),
          take-append 4 stored rest (length-put_le 4 _),
        )
        (get_le-put_le 4 _ (crc_update-lt _ _))

-- A header whose fields fit is read back from what was written, whatever follows it in the file; one
-- of another version is refused by that.
pub decode-encode :
    (h : Header) (rest : List ℕ)
    → Fits h
    → decode_header (encode_header h ++ rest)
      ≡ (if h.version_field == version then ok h else err unknown_version)
unfolding decode_header encode_header
decode-encode h rest fits =
    rw
      (
        append_assoc (header_body h) (stored h rest) rest,
        le→ltb (length (header_body h ++ (stored h rest ++ rest))) header_size (
            omega (
              arith,
              length-append (header_body h) (stored h rest ++ rest),
              length-header_body h,
              length-append (stored h rest) rest,
              length-put_le 4 (crc_update 0 (header_body h)),
            )),
        written_magic h (stored h rest ++ rest),
        written_body h rest,
        written_crc h rest,
        eq→== (crc_update 0 (header_body h)) (crc_update 0 (header_body h)) refl,
        header_fields-body h (stored h rest ++ rest) fits,
      )
      (ground arith)

record Accepted (encoded : List ℕ) (h : Header) : Type 0 where
  long_enough : header_size ≤ length encoded
  has_magic : bytes_eq (take 4 encoded) magic ≡ true
  has_crc : crc_update 0 (take 24 encoded) ≡ get_le (take 4 (drop 24 encoded))
  has_version : (header_fields encoded).version_field ≡ version
  fields : h ≡ header_fields encoded

decode-Accepted :
    (encoded : List ℕ) (h : Header) → decode_header encoded ≡ ok h → Accepted encoded h
unfolding decode_header
decode-Accepted encoded h e = ground arith

module _ (encoded : List ℕ) (long : header_size ≤ length encoded) (bytes : All IsByte encoded) where
  length-part : (n k : ℕ) → n + k ≤ 28 → length (take k (drop n encoded)) ≡ k
  length-part n k le = omega (arith, length-take k (drop n encoded), length-drop n encoded)

  part_back :
      (n k : ℕ) → n + k ≤ 28 → put_le k (get_le (take k (drop n encoded))) ≡ take k (drop n encoded)
  part_back n k le =
      put_le_back k _ (length-part n k le) (All-take IsByte k _ (All-drop IsByte n encoded bytes))

  part_bound : (n k : ℕ) → n + k ≤ 28 → get_le (take k (drop n encoded)) < 256 ^ k
  part_bound n k le =
      get_le_bound k _ (length-part n k le) (All-take IsByte k _ (All-drop IsByte n encoded bytes))

  header_fields-Fits : Fits (header_fields encoded)
  unfolding header_fields
  header_fields-Fits = record {
    base_fits = part_bound 8 8 (omega arith);
    created_fits = part_bound 16 8 (omega arith);
    version_fits = part_bound 4 2 (omega arith);
    flags_fits = part_bound 6 2 (omega arith);
  }

  -- `take (a + b)` in two parts, from offset `n` on.
  glue :
      (n a b c m : ℕ)
      → n + a ≡ m
      → a + b ≡ c
      → take a (drop n encoded) ++ take b (drop m encoded) ≡ take c (drop n encoded)
  glue n a b c m e s = rw (sym (drop-drop n a m encoded e)) (take-split a b c (drop n encoded) s)

  body_back : take 4 encoded ≡ magic → header_body (header_fields encoded) ≡ take 24 encoded
  unfolding header_body header_fields
  body_back e =
      rw
        (
          part_back 4 2 (omega arith),
          part_back 6 2 (omega arith),
          part_back 8 8 (omega arith),
          part_back 16 8 (omega arith),
          glue 8 8 8 16 16 refl refl,
          glue 6 2 16 18 8 refl refl,
          glue 4 2 18 20 6 refl refl,
        )
        (ap (λ l. l ++ take 20 (drop 4 encoded)) (sym e) ∙ take-split 4 20 24 encoded refl)

-- What is accepted begins with the bytes that `encode_header` writes for the header returned, at this
-- version, and its fields fit their widths.
pub decode_sound :
    (encoded : List ℕ) (h : Header)
    → All IsByte encoded
    → decode_header encoded ≡ ok h
    → (take header_size encoded ≡ encode_header h) × (h.version_field ≡ version) × Fits h
unfolding encode_header
decode_sound encoded h bytes e =
    let a = decode-Accepted encoded h e in
    let body =
      body_back encoded a.long_enough bytes (bytes_eq→eq (take 4 encoded) magic a.has_magic) in
    rw a.fields (
      rw
          (
            body,
            a.has_crc,
            put_le_back 4 _ (length-part encoded a.long_enough bytes 24 4 (omega arith))
                (All-take IsByte 4 _ (All-drop IsByte 24 encoded bytes)),
          )
          (sym (take-split 24 4 28 encoded refl)),
      a.has_version,
      header_fields-Fits encoded a.long_enough bytes,
    )

-- A time that passes its width is stored modulo the width.
abbrev pub header_for : ℕ → ℕ → Header
header_for base_lsn now = record {
  version_field = version;
  flags = 0;
  base_lsn = base_lsn;
  created_at = get_le (put_le 8 now);
}

encode-header_for :
    (base_lsn now : ℕ)
    → encode_header
        (record { version_field = version; flags = 0; base_lsn = base_lsn; created_at = now })
      ≡ encode_header (header_for base_lsn now)
unfolding encode_header header_body
encode-header_for base_lsn now =
    ap
      (λ l.
        let body = magic ++ (put_le 2 version ++ (put_le 2 0 ++ (put_le 8 base_lsn ++ l))) in
        body ++ put_le 4 (crc_update 0 body))
      (sym (put_le_back 8 (put_le 8 now) (length-put_le 8 now) (put_le-IsByte 8 now)))

-- The header of a new segment is read back, whatever the clock shows.
pub decode-new_header :
    (base_lsn now : ℕ) (rest : List ℕ)
    → base_lsn < 2 ^ 64
    → decode_header (
        encode_header
          (record { version_field = version; flags = 0; base_lsn = base_lsn; created_at = now })
        ++ rest)
      ≡ ok (header_for base_lsn now)
decode-new_header base_lsn now rest small =
    ap (λ l. decode_header (l ++ rest)) (encode-header_for base_lsn now)
    ∙ decode-encode (header_for base_lsn now) rest (record {
      base_fits = small;
      created_fits = get_le_bound 8 (put_le 8 now) (length-put_le 8 now) (put_le-IsByte 8 now);
      version_fits = omega arith;
      flags_fits = omega arith;
    })
