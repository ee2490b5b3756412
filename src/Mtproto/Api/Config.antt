-- ===== src/Mtproto/Api/Config.antt =====
-- The answer to help.getConfig: `parseConfig` and the addresses that are not Telegram's.
pub mod Unexpected
use mtproto_checker.Common.{
  Bool, Bytes, List, Option, Result, [], false, if◌then◌else◌, ltb, map, none, not, ok, some, suc,
  take, true, zero, ℕ, ◌%◌, ◌++◌, ◌/◌, ◌==◌, ◌>>=◌, ◌^◌, ◌||◌, ◌∷◌,
}
use mtproto_checker.Common.Keys.{member}
use mtproto_checker.Common.Text.{codes, has_prefix, pos, ℤ}
use mtproto_checker.Mtproto.Errors.{Error}
use mtproto_checker.Mtproto.Tl.Buf.{append_uint32}
use mtproto_checker.Mtproto.Tl.Cursor.{
  Cursor, ctor_vector, failed, new_cursor, read, read_bytes, read_uint32,
}
use mtproto_checker.Mtproto.Transport.{Reader}
use mtproto_checker.Mtproto.Stream.{Stream}
use mtproto_checker.Mtproto.Session.{Crypto, Session}
use mtproto_checker.Mtproto.Api.{int32, starts_with}
use mtproto_checker.Mtproto.Api.Invoke.{Draw, invoke, wrap_query}

abbrev pub ctor_help_get_config : ℕ
ctor_help_get_config = 0xC4F9186B

abbrev pub ctor_config : ℕ
ctor_config = 0xCC1A241E

abbrev pub ctor_dc_option : ℕ
ctor_dc_option = 0x18B7A10D

abbrev pub ctor_bool_true : ℕ
ctor_bool_true = 0x997275B5

-- `DCOption`
pub record DcOption : Type 0 where
  pub id : ℤ
  pub addr : Bytes

-- `ConfigInfo`
pub record ConfigInfo : Type 0 where
  pub this_dc : ℤ
  pub test_mode : Bool
  pub options : List DcOption
  pub unexpected : List Bytes
  pub parsed : Bool

-- `&ConfigInfo{}`
abbrev pub no_config : ConfigInfo
no_config = record {
  this_dc = pos 0;
  test_mode = false;
  options = [];
  unexpected = [];
  parsed = false;
}

abbrev pub telegram_networks : List Bytes
telegram_networks = map codes (
    "149.154.160." ∷ "149.154.161." ∷ "149.154.162." ∷ "149.154.163." ∷ "149.154.164."
    ∷ "149.154.165." ∷ "149.154.166." ∷ "149.154.167." ∷ "149.154.168." ∷ "149.154.169."
    ∷ "149.154.170." ∷ "149.154.171." ∷ "149.154.172." ∷ "149.154.173." ∷ "149.154.174."
    ∷ "149.154.175." ∷ "91.108.4." ∷ "91.108.5." ∷ "91.108.6." ∷ "91.108.7." ∷ "91.108.8."
    ∷ "91.108.12." ∷ "91.108.13." ∷ "91.108.14." ∷ "91.108.15." ∷ "91.108.16." ∷ "91.108.17."
    ∷ "91.108.18." ∷ "91.108.19." ∷ "91.108.20." ∷ "91.108.21." ∷ "91.108.22." ∷ "91.108.23."
    ∷ "91.108.56." ∷ "91.108.57." ∷ "91.108.58." ∷ "91.108.59." ∷ "95.161.64." ∷ "95.161.65."
    ∷ "95.161.66." ∷ "95.161.67." ∷ "2001:067c:04e8" ∷ "2001:0b28:f23c" ∷ "2001:0b28:f23d"
    ∷ "2001:0b28:f23f" ∷ "2001:b28:f23d" ∷ "2001:b28:f23f" ∷ "2001:67c:4e8" ∷ [])

unfoldable pub any_prefix : List Bytes → Bytes → Bool
any_prefix [] host = false
any_prefix (p ∷ ps) host = has_prefix host p || any_prefix ps host

abbrev pub is_telegram_address : Bytes → Bool
is_telegram_address host = any_prefix telegram_networks host

-- `bytes.LastIndexByte` of a colon.
unfoldable pub last_colon : Bytes → Option ℕ
last_colon [] = none
last_colon (x ∷ s) = elim (last_colon s) [
  | some i ↦ some (suc i)
  | none ↦ if x == b':' then some 0 else none
]

-- `if i := …; i > 0 { host = host[:i] }`
unfoldable pub host_of : Bytes → Bytes
host_of addr = elim (last_colon addr) [
  | none ↦ addr
  | some i ↦ if ltb 0 i then take i addr else addr
]

-- The loop of `unexpectedAddresses`, with the hosts seen.
unfoldable pub unexpected_from : List Bytes → List DcOption → List Bytes
unexpected_from seen [] = []
unexpected_from seen (o ∷ options) =
    let host = host_of o.addr in
    let known = is_telegram_address host || member host seen in
    let rest = unexpected_from (if known then seen else host ∷ seen) options in
    if known then rest else host ∷ rest

abbrev pub unexpected_addresses : List DcOption → List Bytes
unexpected_addresses = unexpected_from []

-- `itoa` prints an int.
module _ (itoa : ℤ → Bytes) where
  -- One entry of dc_options, with the cursor behind it.
  unfoldable pub read_option : Cursor → Option (DcOption × Cursor)
  read_option c =
      let (ctor, c1) = read_uint32 c in
      let (flags, c2) = read_uint32 c1 in
      let (id, c3) = read_uint32 c2 in
      let (address, c4) = read_bytes c3 in
      let (port, c5) = read_uint32 c4 in
      let c6 : Cursor = if flags / 2 ^ 10 % 2 == 1 then (read_bytes c5).1 else c5 in
      if not (ctor == ctor_dc_option) || failed c6.error
      then none
      else some (record { id = int32 id; addr = address ++ (58 ∷ itoa (int32 port)) }, c6)

  unfoldable pub read_options : ℕ → Cursor → Option (List DcOption)
  read_options zero c = some []
  read_options (suc count) c = elim (read_option c) [
    | none ↦ none
    | some (o, c1) ↦ elim (read_options count c1) [
      | none ↦ none
      | some options ↦ some (o ∷ options)
    ]
  ]

  -- The fields in front of dc_options: the test mode, the datacenter, and the number of options.
  unfoldable pub read_config_head : Bytes → Option (Bool × ℤ × ℕ × Cursor)
  read_config_head payload =
      let c1 = (read 4 (read 4 (read 4 (read 4 (new_cursor payload)).1).1).1).1 in
      let (mode, c2) = read_uint32 c1 in
      let (this_dc, c3) = read_uint32 c2 in
      let (vector, c4) = read_uint32 c3 in
      let (count, c5) = read_uint32 c4 in
      if not (starts_with ctor_config payload)
      then none
      else if not (vector == ctor_vector)
      then none
      else if failed c5.error || ltb 256 count
      then none
      else some (mode == ctor_bool_true, int32 this_dc, count, c5)

  unfoldable pub read_config : Bytes → Option ConfigInfo
  read_config payload = elim (read_config_head payload) [
    | none ↦ none
    | some (mode, this_dc, count, c) ↦ elim (read_options count c) [
      | none ↦ none
      | some options ↦ some (record {
        this_dc = this_dc;
        test_mode = mode;
        options = options;
        unexpected = unexpected_addresses options;
        parsed = true;
      })
    ]
  ]

  unfoldable pub parse_config : Bytes → ConfigInfo
  parse_config payload = elim (read_config payload) [ some info ↦ info | none ↦ no_config ]

  unfoldable pub get_config :
      (crypto : Crypto) (gunzip : Bytes → Result Error Bytes) (depth : ℕ) {S : Type 0}
      (read_full : Reader S) (late : S → Bool)
      → Draw
      → Draw
      → ℕ
      → Session
      → Stream
      → S
      → Result Error ConfigInfo × (Session × Stream)
  get_config crypto gunzip depth read_full late first second api_id s str c =
      let query = wrap_query api_id (append_uint32 ctor_help_get_config []) in
      let (answer, after) = invoke crypto gunzip depth read_full late first second query s str c in
      (answer >>= (λ payload. ok (parse_config payload.0)), after)
