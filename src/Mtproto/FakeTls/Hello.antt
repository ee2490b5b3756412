-- ===== src/Mtproto/FakeTls/Hello.antt =====
-- `buildClientHello` of internal/mtproto/faketls.go. What crypto/rand gives is an argument, `none`
-- where it fails; HMAC-SHA256 and the clock are arguments too.
use mtproto_checker.Common.{
  Bool, Bytes, Option, Result, [], bit_and, bit_xor, err, get_or, if◌then◌else◌, length, ltb, none,
  not, ok, replicate, some, suc, take, true, zero, ℕ, ◌%◌, ◌&&◌, ◌*◌, ◌++◌, ◌+◌, ◌-◌, ◌/◌, ◌==◌,
  ◌>>=◌, ◌^◌, ◌||◌, ◌∷◌,
}
use mtproto_checker.Common.Text.{is_empty, to_lower, trim_space}
use mtproto_checker.Mtproto.Errors.{Error, empty_domain, not_ascii_domain, rand_failed}
use mtproto_checker.Mtproto.FakeTls.Builder.{
  Builder, close, empty_builder, open_scope, overwrite, put,
}

abbrev pub or_rand_failed : Option Bytes → Result Error Bytes
or_rand_failed none = err rand_failed
or_rand_failed (some b) = ok b

unfoldable pub all_printable : Bytes → Bool
all_printable [] = true
all_printable (c ∷ name) = not (ltb c 0x21 || ltb 0x7E c) && all_printable name

unfoldable pub encode_sni : Bytes → Result Error Bytes
encode_sni sni =
    let name = to_lower (trim_space sni) in
    if is_empty name
    then err empty_domain
    else if not (all_printable name)
    then err not_ascii_domain
    else ok (if ltb 255 (length name) then take 255 name else name)

-- One value of `makeGrease`; `prev` is the value before it, if there is one.
unfoldable pub grease_value : Option ℕ → ℕ → ℕ
grease_value none b = bit_and b 0xF0 + 0x0A
grease_value (some prev) b =
    let value = bit_and b 0xF0 + 0x0A in if prev == value then bit_xor value 0x10 else value

-- The loop of `makeGrease` over the random bytes.
unfoldable pub grease_from : Option ℕ → Bytes → Bytes
grease_from prev [] = []
grease_from prev (b ∷ raw) = let v = grease_value prev b in v ∷ grease_from (some v) raw

abbrev pub make_grease : Bytes → Bytes
make_grease = grease_from none

-- The `k` lowest base-256 digits, lowest first.
unfoldable pub le_bytes : ℕ → ℕ → Bytes
le_bytes zero v = []
le_bytes (suc k) v = (v % 256) ∷ le_bytes k (v / 256)

-- `fakeX25519Key`: a square modulo 2^255 - 19, in 32 bytes, lowest first. `v` is what rand.Int gave.
unfoldable pub fake_x25519_key : ℕ → Bytes
fake_x25519_key v = le_bytes 32 (v * v % (2 ^ 255 - 19))

infixl 5 ◌then◌
abbrev ◌then◌ : Builder → (Builder → Builder) → Builder
b then f = f b

abbrev grease_pair : Bytes → ℕ → Bytes
grease_pair grease i = get_or grease i 0 ∷ get_or grease i 0 ∷ []

-- Up to the place of the client random.
unfoldable pub hello_start : Builder
hello_start =
    empty_builder
    then put (0x16 ∷ 0x03 ∷ 0x01 ∷ [])
    then open_scope
    then put (0x01 ∷ 0x00 ∷ [])
    then open_scope
    then put (0x03 ∷ 0x03 ∷ [])

unfoldable pub put_ciphers : Bytes → Bytes → Builder → Builder
put_ciphers grease session_id b =
    b
    then put (replicate 32 0)
    then put (0x20 ∷ [])
    then put session_id
    then put (0x00 ∷ 0x20 ∷ [])
    then put (grease_pair grease 0)
    then put (
        0x13 ∷ 0x01 ∷ 0x13 ∷ 0x02 ∷ 0x13 ∷ 0x03 ∷ 0xC0 ∷ 0x2B ∷ 0xC0 ∷ 0x2F ∷ 0xC0 ∷ 0x2C ∷ 0xC0
        ∷ 0x30 ∷ 0xCC ∷ 0xA9 ∷ 0xCC ∷ 0xA8 ∷ 0xC0 ∷ 0x13 ∷ 0xC0 ∷ 0x14 ∷ 0x00 ∷ 0x9C ∷ 0x00 ∷ 0x9D
        ∷ 0x00 ∷ 0x2F ∷ 0x00 ∷ 0x35 ∷ [])
    then put (0x01 ∷ 0x00 ∷ [])

-- The extension server_name, three lengths deep.
unfoldable pub put_server_name : Bytes → Builder → Builder
put_server_name server_name b =
    b
    then put (0x00 ∷ 0x00 ∷ [])
    then open_scope
    then open_scope
    then put (0x00 ∷ [])
    then open_scope
    then put server_name
    then close
    then close
    then close

unfoldable pub put_fixed_extensions : Bytes → Builder → Builder
put_fixed_extensions grease b =
    b
    then put (0x00 ∷ 0x17 ∷ 0x00 ∷ 0x00 ∷ [])
    then put (0xFF ∷ 0x01 ∷ 0x00 ∷ 0x01 ∷ 0x00 ∷ [])
    then put (0x00 ∷ 0x0A ∷ 0x00 ∷ 0x0A ∷ 0x00 ∷ 0x08 ∷ [])
    then put (grease_pair grease 2)
    then put (0x00 ∷ 0x1D ∷ 0x00 ∷ 0x17 ∷ 0x00 ∷ 0x18 ∷ [])
    then put (0x00 ∷ 0x0B ∷ 0x00 ∷ 0x02 ∷ 0x01 ∷ 0x00 ∷ [])
    then put (0x00 ∷ 0x23 ∷ 0x00 ∷ 0x00 ∷ [])
    then put (
        0x00 ∷ 0x10 ∷ 0x00 ∷ 0x0E ∷ 0x00 ∷ 0x0C ∷ 0x02 ∷ b'h' ∷ b'2' ∷ 0x08 ∷ b'h' ∷ b't' ∷ b't'
        ∷ b'p' ∷ b'/' ∷ b'1' ∷ b'.' ∷ b'1' ∷ [])
    then put (0x00 ∷ 0x05 ∷ 0x00 ∷ 0x05 ∷ 0x01 ∷ 0x00 ∷ 0x00 ∷ 0x00 ∷ 0x00 ∷ [])
    then put (
        0x00 ∷ 0x0D ∷ 0x00 ∷ 0x12 ∷ 0x00 ∷ 0x10 ∷ 0x04 ∷ 0x03 ∷ 0x08 ∷ 0x04 ∷ 0x04 ∷ 0x01 ∷ 0x05
        ∷ 0x03 ∷ 0x08 ∷ 0x05 ∷ 0x05 ∷ 0x01 ∷ 0x08 ∷ 0x06 ∷ 0x06 ∷ 0x01 ∷ [])
    then put (0x00 ∷ 0x12 ∷ 0x00 ∷ 0x00 ∷ [])
    then put (0x00 ∷ 0x1B ∷ 0x00 ∷ 0x03 ∷ 0x02 ∷ 0x00 ∷ 0x02 ∷ [])

unfoldable pub put_key_share : Bytes → Bytes → Builder → Builder
put_key_share grease key_share b =
    b
    then put (0x00 ∷ 0x33 ∷ [])
    then open_scope
    then open_scope
    then put (grease_pair grease 3)
    then put (0x00 ∷ 0x01 ∷ 0x00 ∷ [])
    then put (0x00 ∷ 0x1D ∷ 0x00 ∷ 0x20 ∷ [])
    then put key_share
    then close
    then close
    then put (0x00 ∷ 0x2D ∷ 0x00 ∷ 0x02 ∷ 0x01 ∷ 0x01 ∷ [])
    then put (0x00 ∷ 0x2B ∷ 0x00 ∷ 0x07 ∷ 0x06 ∷ [])
    then put (grease_pair grease 4)
    then put (0x03 ∷ 0x04 ∷ 0x03 ∷ 0x03 ∷ [])

-- The padding extension, which brings the hello to 517 bytes where it is shorter.
unfoldable pub put_padding : Builder → Builder
put_padding b =
    let pad = 517 - 4 - length b.buf in
    if ltb 0 pad
    then (b then put (0x00 ∷ 0x15 ∷ []) then open_scope then put (replicate pad 0) then close)
    else b

unfoldable pub hello_builder : Bytes → Bytes → Bytes → Bytes → Builder
hello_builder server_name grease session_id key_share =
    hello_start
    then put_ciphers grease session_id
    then open_scope
    then put (grease_pair grease 1)
    then put (0x00 ∷ 0x00 ∷ [])
    then put_server_name server_name
    then put_fixed_extensions grease
    then put_key_share grease key_share
    then put_padding
    then close
    then close
    then close

-- `digest[:28]`, then the time masked by the last four bytes of the digest.
unfoldable pub client_random : ℕ → Bytes → Bytes
client_random now digest =
    take 28 digest
    ++ (bit_xor (now % 256) (get_or digest 28 0)
        ∷ bit_xor (now / 2 ^ 8 % 256) (get_or digest 29 0)
        ∷ bit_xor (now / 2 ^ 16 % 256) (get_or digest 30 0)
        ∷ bit_xor (now / 2 ^ 24 % 256) (get_or digest 31 0)
        ∷ [])

pub record ClientHello : Type 0 where
  pub bytes : Bytes
  pub session_id : Bytes
  pub random : Bytes

module _ (hmac_sha256 : Bytes → Bytes → Bytes) (now : ℕ) where
  -- From the finished builder on; `now` is the Unix time.
  unfoldable pub sign_hello : Bytes → Bytes → Builder → ClientHello
  sign_hello secret_key session_id b =
      let random = client_random (now % 2 ^ 32) (hmac_sha256 secret_key b.buf) in
      record {
        bytes = (overwrite (length hello_start.buf) random b).buf;
        session_id = session_id;
        random = random;
      }

  -- The order of the random reads is the code's.
  unfoldable pub build_client_hello :
      Option Bytes → Option Bytes → Option ℕ → Bytes → Bytes → Result Error ClientHello
  build_client_hello grease_raw session_raw key_raw sni secret_key = do
    server_name ← encode_sni sni
    raw ← or_rand_failed grease_raw
    session_id ← or_rand_failed session_raw
    key_share ← elim key_raw [ none ↦ err rand_failed | some v ↦ ok (fake_x25519_key v) ]
    ok (
        sign_hello secret_key session_id
          (hello_builder server_name (make_grease raw) session_id key_share))
