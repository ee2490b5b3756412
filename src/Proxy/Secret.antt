-- ===== src/Proxy/Secret.antt =====
-- Secrets of internal/proxy/target.go: their decoding, mode, key and domain.
pub mod Shape
pub mod Domain
use mtproto_checker.Common.{
  Bool, Bytes, Option, Result, [], drop, err, get_or, if◌then◌else◌, leb, length, ltb, none, not,
  ok, slice, some, take, true, ℕ, ◌&&◌, ◌==◌, ◌||◌, ◌∷◌,
}
use mtproto_checker.Common.Text.{
  codes, contains_byte, hex_decode, is_empty, to_lower, trim, trim_right, trim_space, within,
}
use mtproto_checker.Proxy.Errors.{Error, missing_secret, short_secret, undecodable_secret}

pub data SecretMode : Type 0 where
  mode_plain mode_secure mode_fake_tls mode_none : SecretMode

abbrev pub default_sni : Bytes
default_sni = codes "www.google.com"

-- `secret[0]`, which both functions read only behind a test of the length.
abbrev first : Bytes → ℕ
first secret = get_or secret 0 0

unfoldable pub secret_mode : Bytes → SecretMode
secret_mode secret =
    if length secret == 0
    then mode_none
    else if leb 17 (length secret) && first secret == 0xEE
    then mode_fake_tls
    else if leb 17 (length secret) && first secret == 0xDD
    then mode_secure
    else mode_plain

-- Go's `nil` for a secret that is too short is the empty slice.
unfoldable pub secret_key : Bytes → Bytes
secret_key secret =
    if leb 17 (length secret) && (first secret == 0xDD || first secret == 0xEE)
    then slice 1 17 secret
    else if leb 16 (length secret)
    then take 16 secret
    else []

unfoldable pub is_host_byte : ℕ → Bool
is_host_byte c =
    if within b'a' b'z' c || within b'A' b'Z' c || within b'0' b'9' c
    then true
    else c == b'.' || c == b'-'

-- `tail[:end]`, where `end` is the place of the first byte that is no host byte.
unfoldable pub host_prefix : Bytes → Bytes
host_prefix [] = []
host_prefix (c ∷ tail) = let rest = c ∷ host_prefix tail in if is_host_byte c then rest else []

-- The cut set ".-".
unfoldable pub is_dot_or_dash : ℕ → Bool
is_dot_or_dash c = c == b'.' || c == b'-'

unfoldable pub secret_sni : Bytes → Bytes
secret_sni secret =
    let name = to_lower (trim is_dot_or_dash (host_prefix (drop 17 secret))) in
    if leb (length secret) 17
    then default_sni
    else if not (contains_byte b'.' name) || ltb (length name) 4
    then default_sni
    else name

-- encoding/base64 as the code uses it: RawURLEncoding and RawStdEncoding.
pub record Base64 : Type 0 where
  pub raw_url : Bytes → Option Bytes
  pub raw_std : Bytes → Option Bytes

module _ (base64 : Base64) where
  unfoldable pub decode_base64 : Bytes → Option Bytes
  decode_base64 s =
      let bare = trim_right (λ c. c == b'=') s in
      elim (base64.raw_url bare) [ some raw ↦ some raw | none ↦ base64.raw_std bare ]

  unfoldable pub decode_raw : Bytes → Option Bytes
  decode_raw s = elim (hex_decode s) [ some raw ↦ some raw | none ↦ decode_base64 s ]

  abbrev pub check_secret : Option Bytes → Result Error Bytes
  check_secret none = err undecodable_secret
  check_secret (some raw) = if ltb (length raw) 16 then err short_secret else ok raw

  unfoldable pub decode_secret : Bytes → Result Error Bytes
  decode_secret secret =
      let s = trim_space secret in
      if is_empty s then err missing_secret else check_secret (decode_raw s)
