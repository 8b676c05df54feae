-- ===== src/Segment/Name.antt =====
-- The file names of internal/segment/dir.go: a base LSN in twenty decimal digits, then `.wal`.
use go_wallib.Base.{
  ℕ, zero, suc, ◌+◌, ◌-◌, ◌*◌, ◌/◌, ◌%◌, ◌^◌, ◌≤◌, ◌<◌, ◌≡◌, refl, sym, ap, ◌∙◌, Bool, true, not,
  ◌&&◌, Option, none, some, List, [], ◌∷◌, ◌++◌, append_assoc, append-nil, arith, length, take,
  drop, ltb, leb, ◌==◌, if◌then◌else◌, length-append, take-append, drop-append, take-append-drop,
  bytes_eq, bytes_eq_refl, bytes_eq→eq, Option-cases, inl, inr, le→leb,
}
use native.Mathlib.Nat.{pow-suc}

-- .wal
abbrev pub ext : List ℕ
ext = 0x2e ∷ 0x77 ∷ 0x61 ∷ 0x6c ∷ []

-- .tmp
abbrev pub temp_suffix : List ℕ
temp_suffix = 0x2e ∷ 0x74 ∷ 0x6d ∷ 0x70 ∷ []

abbrev pub name_width : ℕ
name_width = 20

-- `%0*d` at a width that the number does not pass: a uint64 has at most twenty digits.
unfoldable pub put_dec : ℕ → ℕ → List ℕ
put_dec zero v = []
put_dec (suc k) v = put_dec k (v / 10) ++ ((48 + v % 10) ∷ [])

unfoldable pub name : ℕ → List ℕ
name base_lsn = put_dec name_width base_lsn ++ ext

abbrev is_digit : ℕ → Bool
is_digit c = leb 48 c && leb c 57

-- `strconv.ParseUint(s, 10, 64)`: `none` for what is no digit and for what passes 2^64 - 1.
unfoldable pub parse_digits : ℕ → List ℕ → Option ℕ
parse_digits acc [] = some acc
parse_digits acc (c ∷ cs) =
    let n = acc * 10 + (c - 48) in
    let rest = parse_digits n cs in if is_digit c && ltb n (2 ^ 64) then rest else none

unfoldable pub parse_uint : List ℕ → Option ℕ
unfolding parse_digits
parse_uint [] = none
parse_uint (c ∷ cs) = parse_digits 0 (c ∷ cs)

-- `strings.CutSuffix`.
unfoldable pub cut_suffix : List ℕ → List ℕ → Option (List ℕ)
cut_suffix s suffix =
    let k = length s - length suffix in
    if leb (length suffix) (length s) && bytes_eq (drop k s) suffix then some (take k s) else none

parse_stem : Option (List ℕ) → Option ℕ
parse_stem none = none
parse_stem (some stem) = if not (length stem == name_width) then none else parse_uint stem

unfoldable pub parse_base_lsn : List ℕ → Option ℕ
unfolding parse_stem
parse_base_lsn s = parse_stem (cut_suffix s ext)

pub length-put_dec : (k v : ℕ) → length (put_dec k v) ≡ k
unfolding put_dec
length-put_dec zero v = refl
length-put_dec (suc k) v =
    omega
      (arith, length-append (put_dec k (v / 10)) ((48 + v % 10) ∷ []), length-put_dec k (v / 10))

parse_digits-append_digit :
    (xs : List ℕ) (acc n d : ℕ)
    → parse_digits acc xs ≡ some n
    → d < 10
    → n * 10 + d < 2 ^ 64
    → parse_digits acc (xs ++ ((48 + d) ∷ [])) ≡ some (n * 10 + d)
unfolding parse_digits
parse_digits-append_digit [] acc n d e hd hn = ground arith
parse_digits-append_digit (c ∷ cs) acc n d e hd hn =
    ground (arith, parse_digits-append_digit cs (acc * 10 + (c - 48)) n d)

parse_digits-put_dec : (k v : ℕ) → v < 10 ^ k → v < 2 ^ 64 → parse_digits 0 (put_dec k v) ≡ some v
unfolding put_dec
parse_digits-put_dec zero v h u = unfold parse_digits in ap some (omega arith)
parse_digits-put_dec (suc k) v h u =
    let front = parse_digits-put_dec k (v / 10) (omega (arith, pow-suc 10 k)) (omega arith) in
    parse_digits-append_digit (put_dec k (v / 10)) 0 (v / 10) (v % 10) front (omega arith)
      (omega arith)
    ∙ ap some (omega arith)

cut_suffix-append : (xs suffix : List ℕ) → cut_suffix (xs ++ suffix) suffix ≡ some xs
unfolding cut_suffix
cut_suffix-append xs suffix =
    let k : length (xs ++ suffix) - length suffix ≡ length xs =
      omega (arith, length-append xs suffix) in
    rw (
      k,
      take-append (length xs) xs suffix refl,
      drop-append (length xs) xs suffix refl,
      bytes_eq_refl suffix,
      le→leb (length suffix) (length (xs ++ suffix)) (omega (arith, length-append xs suffix)),
    )

parse_uint-eq : (s : List ℕ) → 0 < length s → parse_uint s ≡ parse_digits 0 s
unfolding parse_uint
parse_uint-eq [] h = absurd (omega arith)
parse_uint-eq (c ∷ cs) h = refl

-- A base LSN, which is a uint64, is read back from the file name that it gives.
pub parse-name : (base_lsn : ℕ) → base_lsn < 2 ^ 64 → parse_base_lsn (name base_lsn) ≡ some base_lsn
unfolding parse_base_lsn name
parse-name base_lsn h =
    rw (cut_suffix-append (put_dec 20 base_lsn) ext, parse_stem, length-put_dec 20 base_lsn)
      (parse_uint-eq _ (omega (arith, length-put_dec 20 base_lsn))
        ∙ parse_digits-put_dec 20 base_lsn (omega arith) h)

digit_back :
    (j acc c : ℕ)
    → is_digit c ≡ true
    → put_dec (suc j) (acc * 10 + (c - 48)) ≡ put_dec j acc ++ (c ∷ [])
unfolding put_dec
digit_back j acc c h =
    let lo : 48 ≤ c = ground arith in
    let hi : c ≤ 57 = ground arith in
    let quotient : (acc * 10 + (c - 48)) / 10 ≡ acc = omega arith in
    let digit : 48 + (acc * 10 + (c - 48)) % 10 ≡ c = omega arith in rw (quotient, digit)

digit_step :
    (acc c v : ℕ) (cs : List ℕ)
    → parse_digits acc (c ∷ cs) ≡ some v
    → (is_digit c ≡ true)
      × (acc * 10 + (c - 48) < 2 ^ 64)
      × (parse_digits (acc * 10 + (c - 48)) cs ≡ some v)
unfolding parse_digits
digit_step acc c v cs e = ground arith

parse_digits-back :
    (s : List ℕ) (j k acc v : ℕ)
    → parse_digits acc s ≡ some v
    → j + length s ≡ k
    → put_dec k v ≡ put_dec j acc ++ s
parse_digits-back [] j k acc v e sum =
    let same : acc ≡ v = unfold parse_digits in cc e in
    let width : j ≡ k = omega arith in rw (append-nil, same, width)
parse_digits-back (c ∷ cs) j k acc v e sum =
    let (digit, fits, more) = digit_step acc c v cs e in
    parse_digits-back cs (suc j) k (acc * 10 + (c - 48)) v more (omega arith)
    ∙ rw (digit_back j acc c digit) (append_assoc (put_dec j acc) (c ∷ []) cs)

parse_digits-bound :
    (s : List ℕ) (acc v : ℕ) → parse_digits acc s ≡ some v → acc < 2 ^ 64 → v < 2 ^ 64
unfolding parse_digits
parse_digits-bound [] acc v e h = ground arith
parse_digits-bound (c ∷ cs) acc v e h =
    ground (arith, parse_digits-bound cs (acc * 10 + (c - 48)) v)

cut_suffix_back : (s suffix x : List ℕ) → cut_suffix s suffix ≡ some x → s ≡ x ++ suffix
unfolding cut_suffix
cut_suffix_back s suffix x e =
    let k = length s - length suffix in
    ground (arith, bytes_eq→eq (drop k s) suffix, take-append-drop k s)

parse_stem_back :
    (stem : List ℕ) (v : ℕ)
    → parse_stem (some stem) ≡ some v
    → (length stem ≡ 20) × (parse_digits 0 stem ≡ some v)
unfolding parse_stem parse_uint
parse_stem_back [] v e = cc
parse_stem_back (c ∷ cs) v e = ground arith

-- A file name that is read as a segment's is the one that `name` gives for the base LSN read, so no
-- two files stand for one segment.
pub parse_canonical :
    (s : List ℕ) (base_lsn : ℕ)
    → parse_base_lsn s ≡ some base_lsn
    → (s ≡ name base_lsn) × (base_lsn < 2 ^ 64)
unfolding parse_base_lsn name put_dec
parse_canonical s base_lsn e = elim (Option-cases (cut_suffix s ext)) [
  | inl missing ↦ absurd (cc (rw (missing, parse_stem) at e))
  | inr (stem, found) ↦
      let (width, digits) = parse_stem_back stem base_lsn (rw found at e) in
      (
        cut_suffix_back s ext stem found
            ∙ ap (λ l. l ++ ext)
                (sym (parse_digits-back stem 0 20 0 base_lsn digits (omega arith))),
        parse_digits-bound stem 0 base_lsn digits (omega arith),
      )
]
