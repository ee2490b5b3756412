-- ===== src/Mtproto/Binary.antt =====
-- Fixed-width integers in byte slices: what the code uses of Go's encoding/binary. A byte is a
-- number below 256. Readers take the bytes that stand at the front, as the slices that the code
-- hands them are always long enough.
use mtproto_checker.Common.Text.{negsuc, pos, ℤ}
use mtproto_checker.Common.{
  All, Bytes, IsByte, [], arith, get_or, ℕ, ◌%◌, ◌*◌, ◌++◌, ◌+◌, ◌-◌, ◌/◌, ◌<◌, ◌^◌, ◌∷◌, ◌≡◌,
}

abbrev pub uint16_be_bytes : ℕ → Bytes
uint16_be_bytes v = (v / 256 % 256) ∷ (v % 256) ∷ []

abbrev pub uint16_le_bytes : ℕ → Bytes
uint16_le_bytes v = (v % 256) ∷ (v / 256 % 256) ∷ []

-- The conversion of an int to an unsigned integer of `w` bits.
abbrev pub int_word : ℕ → ℤ → ℕ
int_word w (pos n) = n % 2 ^ w
int_word w (negsuc n) = (2 ^ w - 1) - n % 2 ^ w

abbrev pub uint32_le_bytes : ℕ → Bytes
uint32_le_bytes v = (v % 256) ∷ (v / 2 ^ 8 % 256) ∷ (v / 2 ^ 16 % 256) ∷ (v / 2 ^ 24 % 256) ∷ []

abbrev pub uint32_be_bytes : ℕ → Bytes
uint32_be_bytes v = (v / 2 ^ 24 % 256) ∷ (v / 2 ^ 16 % 256) ∷ (v / 2 ^ 8 % 256) ∷ (v % 256) ∷ []

abbrev pub uint64_le_bytes : ℕ → Bytes
uint64_le_bytes v = uint32_le_bytes v ++ uint32_le_bytes (v / 2 ^ 32)

abbrev pub uint64_be_bytes : ℕ → Bytes
uint64_be_bytes v = uint32_be_bytes (v / 2 ^ 32) ++ uint32_be_bytes v

abbrev pub uint16_be : Bytes → ℕ
uint16_be b = get_or b 0 0 * 2 ^ 8 + get_or b 1 0

abbrev pub uint32_le : Bytes → ℕ
uint32_le b = get_or b 0 0 + get_or b 1 0 * 2 ^ 8 + get_or b 2 0 * 2 ^ 16 + get_or b 3 0 * 2 ^ 24

abbrev pub uint32_be : Bytes → ℕ
uint32_be b = get_or b 0 0 * 2 ^ 24 + get_or b 1 0 * 2 ^ 16 + get_or b 2 0 * 2 ^ 8 + get_or b 3 0

abbrev pub uint64_le : Bytes → ℕ
uint64_le b =
    uint32_le b
    + (get_or b 4 0 + get_or b 5 0 * 2 ^ 8 + get_or b 6 0 * 2 ^ 16 + get_or b 7 0 * 2 ^ 24) * 2 ^ 32

abbrev pub uint64_be : Bytes → ℕ
uint64_be b =
    uint32_be b * 2 ^ 32
    + (get_or b 4 0 * 2 ^ 24 + get_or b 5 0 * 2 ^ 16 + get_or b 6 0 * 2 ^ 8 + get_or b 7 0)

-- Each reader gives back the number whose bytes stand at the front.
pub uint16_be-bytes :
    (v : ℕ) (rest : Bytes) → v < 2 ^ 16 → uint16_be (uint16_be_bytes v ++ rest) ≡ v
uint16_be-bytes v rest h = omega arith

pub uint32_le-bytes :
    (v : ℕ) (rest : Bytes) → v < 2 ^ 32 → uint32_le (uint32_le_bytes v ++ rest) ≡ v
uint32_le-bytes v rest h = omega arith

pub uint32_be-bytes :
    (v : ℕ) (rest : Bytes) → v < 2 ^ 32 → uint32_be (uint32_be_bytes v ++ rest) ≡ v
uint32_be-bytes v rest h = omega arith

pub uint64_le-bytes :
    (v : ℕ) (rest : Bytes) → v < 2 ^ 64 → uint64_le (uint64_le_bytes v ++ rest) ≡ v
uint64_le-bytes v rest h = omega arith

pub uint64_be-bytes :
    (v : ℕ) (rest : Bytes) → v < 2 ^ 64 → uint64_be (uint64_be_bytes v ++ rest) ≡ v
uint64_be-bytes v rest h = omega arith

pub uint32_le_bytes-IsByte : (v : ℕ) → All IsByte (uint32_le_bytes v)
uint32_le_bytes-IsByte v = omega arith
