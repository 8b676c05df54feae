-- ===== src/Bytes.antt =====
-- Byte strings: little-endian integers (encoding/binary) and CRC32C (hash/crc32), as the record and
-- the segment packages use them. A byte slice is a list of numbers below 256.
use go_wallib.Base.{
  ℕ, zero, suc, ◌+◌, ◌*◌, ◌/◌, ◌%◌, ◌^◌, ◌<◌, ◌≡◌, refl, ap, ◌∙◌, List, [], ◌∷◌, arith, length, All,
  ◌==◌, if◌then◌else◌,
}
use Prim.Native.Nat.{bit_xor}
use mathlib.Core.List.{foldl}
use mathlib.Core.Path.{ap₂}
use native.Mathlib.Nat.{pow-suc}

abbrev pub IsByte : ℕ → Type 0
IsByte b = b < 256

-- `PutUint16`, `PutUint32` and `PutUint64` at 2, 4 and 8 bytes.
unfoldable pub put_le : ℕ → ℕ → List ℕ
put_le zero v = []
put_le (suc k) v = (v % 256) ∷ put_le k (v / 256)

-- `Uint16`, `Uint32` and `Uint64` of a slice of that many bytes.
unfoldable pub get_le : List ℕ → ℕ
get_le [] = 0
get_le (b ∷ bs) = b + 256 * get_le bs

-- One bit of the reflected division by the Castagnoli polynomial.
crc_bit : ℕ → ℕ
crc_bit c = if c % 2 == 1 then bit_xor (c / 2) 0x82f63b78 else c / 2

crc_byte : ℕ → ℕ → ℕ
crc_byte c b =
    crc_bit (crc_bit (crc_bit (crc_bit (crc_bit (crc_bit (crc_bit (crc_bit (bit_xor c b))))))))

-- `crc32.Update(crc, crcTable, p)`: the register is inverted on the way in and on the way out.
unfoldable pub crc_update : ℕ → List ℕ → ℕ
unfolding crc_byte crc_bit
crc_update crc p = bit_xor (foldl crc_byte (bit_xor crc 0xffff_ffff) p) 0xffff_ffff % 2 ^ 32

pub crc_update-lt : (crc : ℕ) (p : List ℕ) → crc_update crc p < 2 ^ 32
unfolding crc_update
crc_update-lt crc p = omega arith

pub length-put_le : (k v : ℕ) → length (put_le k v) ≡ k
unfolding put_le
length-put_le zero v = refl
length-put_le (suc k) v = ap suc (length-put_le k (v / 256))

pub put_le-IsByte : (k v : ℕ) → All IsByte (put_le k v)
unfolding put_le
put_le-IsByte zero v = tt
put_le-IsByte (suc k) v = (omega arith, put_le-IsByte k (v / 256))

-- An integer that fits is read back.
pub get_le-put_le : (k v : ℕ) → v < 256 ^ k → get_le (put_le k v) ≡ v
unfolding put_le get_le
get_le-put_le zero v h = omega arith
get_le-put_le (suc k) v h =
    omega (arith, get_le-put_le k (v / 256) (omega (arith, pow-suc 256 k)), pow-suc 256 k)

-- Bytes are written back.
pub put_le-get_le : (bs : List ℕ) → All IsByte bs → put_le (length bs) (get_le bs) ≡ bs
unfolding put_le get_le
put_le-get_le [] h = refl
put_le-get_le (b ∷ bs) (hb, hbs) =
    ap₂ (λ x xs. x ∷ xs) (omega arith)
      (ap (put_le (length bs)) (omega arith) ∙ put_le-get_le bs hbs)

pub put_le_back : (k : ℕ) (bs : List ℕ) → length bs ≡ k → All IsByte bs → put_le k (get_le bs) ≡ bs
put_le_back k bs e h = rw e at (put_le-get_le bs h)

pub get_le-lt : (bs : List ℕ) → All IsByte bs → get_le bs < 256 ^ length bs
unfolding get_le
get_le-lt [] h = omega arith
get_le-lt (b ∷ bs) (hb, hbs) = omega (arith, get_le-lt bs hbs, pow-suc 256 (length bs))

pub get_le_bound : (k : ℕ) (bs : List ℕ) → length bs ≡ k → All IsByte bs → get_le bs < 256 ^ k
get_le_bound k bs e h = rw e at (get_le-lt bs h)

-- The check value of CRC-32C.
crc_check :
    crc_update 0 (0x31 ∷ 0x32 ∷ 0x33 ∷ 0x34 ∷ 0x35 ∷ 0x36 ∷ 0x37 ∷ 0x38 ∷ 0x39 ∷ []) ≡ 0xe3069283
unfolding crc_update
crc_check = refl
