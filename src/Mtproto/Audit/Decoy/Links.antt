-- ===== src/Mtproto/Audit/Decoy/Links.antt =====
-- The link of `decoyTarget` (internal/mtproto/audit.go), and what `Parse` makes of it.
use mtproto_checker.Common.{
  All, All-append, length-append, le→ltb_false, ltb, Bool, Bytes, IsByte, List, [], ap, arith,
  equal, false, if◌then◌else◌, length, none, ok, refl, some, sym, true, ℕ, ◌%◌, ◌++◌, ◌/◌, ◌<◌, ◌∙◌,
  ◌∷◌, ◌≡◌, ◌≢◌, ◌≤◌, get_or,
}
use mtproto_checker.Common.Text.{
  atoi, codes, has_prefix, hex_value, is_empty, is_space, pos, trim, trim_left, trim_right, lower,
}
use mtproto_checker.Proxy.Secret.{
  SecretMode, decode_raw, decode_secret, is_host_byte, mode_fake_tls, mode_none, mode_plain,
  mode_secure,
}
use mtproto_checker.Proxy.Secret.Shape.{written}
use mtproto_checker.Proxy.Secret.Domain.{IsHost}
use mtproto_checker.Proxy.Link.{
  Platform, Url, check_port, default_port, finish, finish_as, first_non_empty, from_url, link_kind,
  make_target, mtproto, new_target, parse_port,
}
use mtproto_checker.Checker.{hex_digits, hex_string}
use mtproto_checker.Checker.Summaries.{hex_decode-hex_string, hex_digit-hex_value}
use mtproto_checker.Mtproto.Audit.{decoy_secret}

abbrev pub NoSpace : Bytes → Type 0
NoSpace = All (λ c. is_space c ≡ false)

-- Text that holds nothing to cut stays as it is.
module _ (cut : ℕ → Bool) where
  trim_right_keeps : (s : Bytes) → All (λ c. cut c ≡ false) s → trim_right cut s ≡ s
  unfolding trim_right
  trim_right_keeps [] h = refl
  trim_right_keeps (c ∷ []) (p, h) = rw p refl
  trim_right_keeps (c ∷ (d ∷ s)) (p, h) = rw (trim_right_keeps (d ∷ s) h) refl

  trim_left_keeps : (s : Bytes) → All (λ c. cut c ≡ false) s → trim_left cut s ≡ s
  unfolding trim_left
  trim_left_keeps [] h = refl
  trim_left_keeps (c ∷ s) (p, h) = rw p refl

  pub trim_keeps : (s : Bytes) → All (λ c. cut c ≡ false) s → trim cut s ≡ s
  trim_keeps s h = ap (trim_right cut) (trim_left_keeps s h) ∙ trim_right_keeps s h

hex_value-NoSpace : (c d : ℕ) → hex_value c ≡ some d → is_space c ≡ false
unfolding hex_value is_space
hex_value-NoSpace c d h = ground arith

digit-NoSpace : (d : ℕ) → d < 16 → is_space (get_or hex_digits d 0) ≡ false
digit-NoSpace d h = hex_value-NoSpace (get_or hex_digits d 0) d (hex_digit-hex_value d h)

pub hex_string-NoSpace : (b : Bytes) → All IsByte b → NoSpace (hex_string b)
unfolding hex_string
hex_string-NoSpace [] h = tt
hex_string-NoSpace (c ∷ b) (x, h) = (
  digit-NoSpace (c / 16) (omega arith),
  (digit-NoSpace (c % 16) (omega arith), hex_string-NoSpace b h),
)

-- A text of a byte at least is not empty.
pub given_hex : (b : Bytes) → 1 ≤ length b → is_empty (hex_string b) ≡ false
unfolding hex_string
given_hex [] h = absurd (omega arith)
given_hex (c ∷ b) h = refl

hex_string-append : (a b : Bytes) → hex_string (a ++ b) ≡ hex_string a ++ hex_string b
unfolding hex_string
hex_string-append [] b = refl
hex_string-append (c ∷ a) b =
    ap (λ r. get_or hex_digits (c / 16) 0 ∷ get_or hex_digits (c % 16) 0 ∷ r)
      (hex_string-append a b)

-- The decoy's secret spells a secret of the same mode around the new key.
pub decoy_secret-written :
    (mode : SecretMode) (sni key : Bytes)
    → mode ≢ mode_none
    → decoy_secret mode sni key ≡ hex_string (written mode key sni)
unfolding decoy_secret hex_string
decoy_secret-written mode_fake_tls sni key h =
    ap (λ r. b'e' ∷ b'e' ∷ r) (sym (hex_string-append key sni))
decoy_secret-written mode_secure sni key h = refl
decoy_secret-written mode_plain sni key h = refl
decoy_secret-written mode_none sni key h = absurd (h refl)

host_byte-IsByte : (c : ℕ) → is_host_byte c ≡ true → c < 256
unfolding is_host_byte
host_byte-IsByte c good = ground arith

pub host-IsByte : (s : Bytes) → All IsHost s → All IsByte s
host-IsByte [] h = tt
host-IsByte (c ∷ s) ((good, low), h) = (host_byte-IsByte c good, host-IsByte s h)

pub written-IsByte :
    (mode : SecretMode) (key domain : Bytes)
    → All IsByte key
    → All IsByte domain
    → All IsByte (written mode key domain)
written-IsByte mode_fake_tls key domain h k = (omega arith, All-append IsByte key domain h k)
written-IsByte mode_secure key domain h k = (omega arith, h)
written-IsByte mode_plain key domain h k = h
written-IsByte mode_none key domain h k = tt

pub length-written :
    (mode : SecretMode) (key domain : Bytes)
    → mode ≢ mode_none
    → length key ≡ 16
    → 16 ≤ length (written mode key domain)
length-written mode_fake_tls key domain h n = omega (arith, length-append key domain)
length-written mode_secure key domain h n = omega arith
length-written mode_plain key domain h n = omega arith
length-written mode_none key domain h n = absurd (h refl)

-- Text that is the hexadecimal of a secret of at least 16 bytes is decoded to it, whatever base64 does.
decode_secret-hex_string :
    (os : Platform) (b : Bytes)
    → All IsByte b
    → 16 ≤ length b
    → decode_secret os.base64 (hex_string b) ≡ ok b
unfolding decode_secret decode_raw
decode_secret-hex_string os b h n =
    let long : ltb (length b) 16 ≡ false = le→ltb_false (length b) 16 n in
    rw
      (
        trim_keeps is_space (hex_string b) (hex_string-NoSpace b h),
        given_hex b (omega arith),
        decode_raw,
        hex_decode-hex_string b h,
        long,
      )
      refl

-- What net/url makes of such a link, whose texts need no escapes.
abbrev pub decoy_url : Bytes → Bytes → Bytes → Url
decoy_url host port secret = record {
  scheme = codes "tg";
  host = codes "proxy";
  opaque = [];
  path = [];
  hostname = codes "proxy";
  port = [];
  user = none;
  query = λ k.
      if equal k (codes "server")
      then host
      else if equal k (codes "port")
      then port
      else if equal k (codes "secret")
      then secret
      else [];
}

first_non_empty-given :
    (h : Bytes) (others : List Bytes) → is_empty h ≡ false → first_non_empty (h ∷ others) ≡ h
unfolding first_non_empty
first_non_empty-given [] others e = cc
first_non_empty-given (c ∷ h) others e = refl

first_non_empty-nothing : first_non_empty ([] ∷ [] ∷ []) ≡ []
unfolding first_non_empty
first_non_empty-nothing = refl

module _ (os : Platform) (raw host port secret : Bytes) (host_text : NoSpace host)
    (host_given : is_empty host ≡ false) (port_text : NoSpace port) (secret_text : NoSpace secret)
    (secret_given : is_empty secret ≡ false) where
  pub from_url-decoy_url :
      from_url os raw (decoy_url host port secret)
      ≡ make_target os raw mtproto host port [] [] secret []
  unfolding from_url link_kind trim_left trim_right lower has_prefix equal
  from_url-decoy_url =
      rw
        (
          first_non_empty-given host ([] ∷ []) host_given,
          trim_keeps is_space host host_text,
          host_given,
          trim_keeps is_space port port_text,
          trim_keeps is_space secret secret_text,
          secret_given,
          first_non_empty-nothing,
        )
        refl

default_port-given : (text : Bytes) → is_empty text ≡ false → default_port mtproto text ≡ text
unfolding default_port
default_port-given [] e = cc
default_port-given (c ∷ text) e = refl

-- What is left to do with the parts: the port is in range, and the secret is the one that was written.
pub make_target-decoy :
    (os : Platform) (raw host : Bytes) (port : ℕ) (b : Bytes)
    → is_empty host ≡ false
    → is_empty (os.itoa port) ≡ false
    → atoi (os.itoa port) ≡ some (pos port)
    → 1 ≤ port
    → port ≤ 65535
    → All IsByte b
    → 16 ≤ length b
    → make_target os raw mtproto host (os.itoa port) [] [] (hex_string b) []
      ≡ ok (record (new_target raw mtproto host port (hex_string b) [] [] []) { secret_bytes = b })
unfolding make_target parse_port check_port default_port finish finish_as
make_target-decoy os raw host port b host_given port_given told lo hi bytes long =
    let low : ltb port 1 ≡ false = le→ltb_false port 1 lo in
    let high : ltb 65535 port ≡ false = le→ltb_false 65535 port hi in
    rw
      (
        host_given,
        default_port-given (os.itoa port) port_given,
        port_given,
        told,
        low,
        high,
        decode_secret-hex_string os b bytes long,
      )
      refl
