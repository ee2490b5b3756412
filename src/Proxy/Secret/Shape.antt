-- ===== src/Proxy/Secret/Shape.antt =====
-- The length of a decoded secret and of its key, and the three written forms of a secret.
use mtproto_checker.Common.{
  Bytes, [], arith, drop, if◌then◌else◌, length, length-append, length-drop, length-take, ltb, ok,
  refl, take-append, take_all, ◌++◌, ◌∷◌, ◌≡◌, ◌≢◌, ◌≤◌,
}
use mtproto_checker.Proxy.Secret.{
  Base64, SecretMode, decode_secret, mode_fake_tls, mode_none, mode_plain, mode_secure, secret_key,
  secret_mode,
}

-- A secret that `DecodeSecret` accepts has at least 16 bytes, whatever base64 does.
pub decode_secret-length :
    (base64 : Base64) (s raw : Bytes) → decode_secret base64 s ≡ ok raw → 16 ≤ length raw
unfolding decode_secret
decode_secret-length base64 s raw e = ground arith

-- The key of a secret has 16 bytes for every secret of 16 bytes or more, and is empty for a shorter one.
pub length-secret_key :
    (secret : Bytes) → length (secret_key secret) ≡ (if ltb (length secret) 16 then 0 else 16)
unfolding secret_key
length-secret_key secret =
    ground (arith, length-take 16 secret, length-take 16 (drop 1 secret), length-drop 1 secret)

-- How a secret of each mode is written around a key; only FakeTLS has a domain behind it.
abbrev pub written : SecretMode → Bytes → Bytes → Bytes
written mode_fake_tls key domain = 0xEE ∷ (key ++ domain)
written mode_secure key domain = 0xDD ∷ key
written mode_plain key domain = key
written mode_none key domain = []

-- A secret written for a mode around a key of 16 bytes has that mode and that key.
pub secret-written :
    (mode : SecretMode) (key domain : Bytes)
    → mode ≢ mode_none
    → length key ≡ 16
    → (secret_mode (written mode key domain) ≡ mode) × (secret_key (written mode key domain) ≡ key)
unfolding secret_mode secret_key
secret-written mode_none key domain h n = absurd (h refl)
secret-written mode_fake_tls key domain h n =
    ground (arith, length-append key domain, take-append key domain 16 (omega arith))
secret-written mode_secure key domain h n = ground (arith, take_all key 16 (omega arith))
secret-written mode_plain key domain h n = ground (arith, take_all key 16 (omega arith))
