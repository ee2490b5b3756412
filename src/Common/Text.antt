-- ===== src/Common/Text.antt =====
-- What the code uses of Go's strings, strconv and encoding/hex, on texts held as bytes. `to_lower`,
-- `trim_space` and `is_space` are those of ASCII text.
use Prim.Native.Char.{code}
use Prim.Native.String.{String}
use mtproto_checker.Common.{
  Bool, List, Option, [], false, if◌then◌else◌, leb, ltb, map, none, some, suc, true, zero, ℕ, ◌&&◌,
  ◌*◌, ◌+◌, ◌-◌, ◌==◌, ◌^◌, ◌||◌, ◌∷◌,
}

-- The bytes of an ASCII literal.
abbrev pub codes : String → List ℕ
codes String.[] = []
codes (String.◌∷◌ c s) = code c ∷ codes s

abbrev pub within : ℕ → ℕ → ℕ → Bool
within lo hi c = leb lo c && leb c hi

unfoldable pub lower : ℕ → ℕ
lower c = if within b'A' b'Z' c then c + 32 else c

-- strings.ToLower
abbrev pub to_lower : List ℕ → List ℕ
to_lower = map lower

-- The cases of `unicode.IsSpace` below 128.
unfoldable pub is_space : ℕ → Bool
is_space c = within 9 13 c || c == b' '

unfoldable pub trim_left : (ℕ → Bool) → List ℕ → List ℕ
trim_left cut [] = []
trim_left cut (c ∷ s) = let rest = trim_left cut s in if cut c then rest else c ∷ s

unfoldable pub trim_right : (ℕ → Bool) → List ℕ → List ℕ
trim_right cut [] = []
trim_right cut (c ∷ s) = elim (trim_right cut s) [
  | [] ↦ if cut c then [] else c ∷ []
  | x ∷ r ↦ c ∷ x ∷ r
]

-- strings.Trim with the bytes of the cut set.
abbrev pub trim : (ℕ → Bool) → List ℕ → List ℕ
trim cut s = trim_right cut (trim_left cut s)

abbrev pub trim_space : List ℕ → List ℕ
trim_space = trim is_space

-- strings.Contains for one byte.
unfoldable pub contains_byte : ℕ → List ℕ → Bool
contains_byte b [] = false
contains_byte b (c ∷ s) = c == b || contains_byte b s

-- strings.HasPrefix
unfoldable pub has_prefix : List ℕ → List ℕ → Bool
has_prefix s [] = true
has_prefix [] (p ∷ ps) = false
has_prefix (c ∷ s) (p ∷ ps) = c == p && has_prefix s ps

-- strings.Contains
unfoldable pub contains : List ℕ → List ℕ → Bool
contains part [] = has_prefix [] part
contains part (c ∷ s) = has_prefix (c ∷ s) part || contains part s

-- `s == ""`
abbrev pub is_empty : List ℕ → Bool
is_empty [] = true
is_empty (c ∷ s) = false

-- An int that strconv.Atoi gives.
pub data ℤ : Type 0 where
  pos : ℕ → ℤ
  negsuc : ℕ → ℤ

-- The number that decimal digits spell behind `n`.
unfoldable pub digits_from : ℕ → List ℕ → Option ℕ
digits_from n [] = some n
digits_from n (c ∷ s) =
    let rest = digits_from (n * 10 + (c - b'0')) s in if within b'0' b'9' c then rest else none

unfoldable pub digits : List ℕ → Option ℕ
digits [] = none
digits (c ∷ s) = digits_from 0 (c ∷ s)

abbrev pub non_negative : Option ℕ → Option ℤ
non_negative none = none
non_negative (some n) = if ltb n (2 ^ 63) then some (pos n) else none

abbrev pub negative : Option ℕ → Option ℤ
negative none = none
negative (some zero) = some (pos 0)
negative (some (suc n)) = if ltb n (2 ^ 63) then some (negsuc n) else none

-- strconv.Atoi: a sign or none, then digits, within 64 bits.
unfoldable pub atoi : List ℕ → Option ℤ
atoi [] = none
atoi (c ∷ s) =
    if c == b'-'
    then negative (digits s)
    else if c == b'+'
    then non_negative (digits s)
    else non_negative (digits (c ∷ s))

-- The value of a hexadecimal digit.
unfoldable pub hex_value : ℕ → Option ℕ
hex_value c =
    if within b'0' b'9' c
    then some (c - b'0')
    else if within b'a' b'f' c
    then some (c - b'a' + 10)
    else if within b'A' b'F' c
    then some (c - b'A' + 10)
    else none

abbrev hex_pair : Option ℕ → Option ℕ → Option (List ℕ) → Option (List ℕ)
hex_pair (some hi) (some lo) (some rest) = some ((hi * 16 + lo) ∷ rest)
hex_pair (some hi) (some lo) none = none
hex_pair (some hi) none rest = none
hex_pair none lo rest = none

-- hex.DecodeString; `none` for an odd length or another byte.
unfoldable pub hex_decode : List ℕ → Option (List ℕ)
hex_decode [] = some []
hex_decode (a ∷ []) = none
hex_decode (a ∷ b ∷ s) = hex_pair (hex_value a) (hex_value b) (hex_decode s)
