-- ===== src/Mtproto/Auth/Exchange.antt =====
-- `createAuthKey` of internal/mtproto/auth.go: the three requests and their answers, in order. The
-- random values, the message ids and the clock are arguments, and so are the cache of primes and the
-- embedded keys. An error leaves nothing behind but what was written, which is not kept then.
pub mod Agreed
pub mod SharedKey
use mtproto_checker.Common.{
  Bytes, List, Option, Result, [], err, if◌then◌else◌, ltb, none, ok, slice, some, take, ℕ, ◌%◌,
  ◌-◌, ◌==◌, ◌>>=◌, ◌^◌, ◌∷◌,
}
use mtproto_checker.Common.Text.{negsuc, pos, ℤ}
use mtproto_checker.Mtproto.Binary.{int_word, uint64_be_bytes}
use mtproto_checker.Mtproto.Errors.{Error, not_factorized, rand_failed}
use mtproto_checker.Mtproto.Ige.{xor}
use mtproto_checker.Mtproto.Tl.Buf.{append_bytes, append_raw, append_uint32, append_uint64}
use mtproto_checker.Mtproto.Factorize.{Rng, factorize}
use mtproto_checker.Mtproto.Transport.{Reader}
use mtproto_checker.Mtproto.Stream.{Stream, recv_unencrypted, send_unencrypted}
use mtproto_checker.Mtproto.Session.{AuthKey}
use mtproto_checker.Mtproto.Auth.Answers
use mtproto_checker.Mtproto.Auth.Answers.{
  DhParams, ResPq, dh_temp_keys, encrypt_dh_inner, parse_res_pq, parse_server_dh_params,
  req_pq_multi_body, verify_dh_gen,
}
use mtproto_checker.Mtproto.Auth.Params.{Big, check_dh_params}
use mtproto_checker.Mtproto.Auth.Rsa.{PublicKey, pad_to, rsa_pad, select_key}

abbrev pub ctor_pq_inner_data_dc : ℕ
ctor_pq_inner_data_dc = 0xA9F55F95

abbrev pub ctor_req_dh_params : ℕ
ctor_req_dh_params = 0xD712E4BE

abbrev pub ctor_client_dh_inner_data : ℕ
ctor_client_dh_inner_data = 0x6643B654

abbrev pub ctor_set_client_dh_params : ℕ
ctor_set_client_dh_params = 0xF5045F1F

-- `bigEndian`: no zero in front, but for the last byte.
unfoldable pub strip_zeros : Bytes → Bytes
strip_zeros [] = []
strip_zeros (b ∷ []) = b ∷ []
strip_zeros (b ∷ (d ∷ full)) =
    let rest = strip_zeros (d ∷ full) in if b == 0 then rest else b ∷ (d ∷ full)

abbrev pub big_endian : ℕ → Bytes
big_endian v = strip_zeros (uint64_be_bytes v)

-- `Exp` of math/big.
unfoldable pub mod_exp : ℕ → ℕ → ℕ → ℕ
mod_exp base exponent modulus = base ^ exponent % modulus

unfoldable pub pq_inner_data : ℕ → ℕ → ℕ → Bytes → Bytes → Bytes → ℤ → Bytes
pq_inner_data pq p q nonce server_nonce new_nonce dc = append_uint32 (int_word 32 dc) (
    append_raw new_nonce (
      append_raw server_nonce (
        append_raw nonce (
          append_bytes (big_endian q) (
            append_bytes (big_endian p)
              (append_bytes (big_endian pq) (append_uint32 ctor_pq_inner_data_dc [])))))))

unfoldable pub req_dh_params : Bytes → Bytes → ℕ → ℕ → ℕ → Bytes → Bytes
req_dh_params nonce server_nonce p q mark encrypted = append_bytes encrypted (
    append_uint64 mark (
      append_bytes (big_endian q) (
        append_bytes (big_endian p)
          (append_raw server_nonce (append_raw nonce (append_uint32 ctor_req_dh_params []))))))

unfoldable pub client_inner_data : Bytes → Bytes → ℕ → Bytes
client_inner_data nonce server_nonce g_b = append_bytes (pad_to g_b 256) (
    append_uint64 0
      (append_raw server_nonce (append_raw nonce (append_uint32 ctor_client_dh_inner_data []))))

unfoldable pub set_client_dh_params : Bytes → Bytes → Bytes → Bytes
set_client_dh_params nonce server_nonce encrypted =
    append_bytes encrypted
      (append_raw server_nonce (append_raw nonce (append_uint32 ctor_set_client_dh_params [])))

unfoldable pub drawn : {A : Type 0} → Option A → Result Error A
drawn none = err rand_failed
drawn (some a) = ok a

unfoldable pub split : Rng → ℕ → Result Error (ℕ × ℕ)
split rng pq = elim (factorize rng pq) [
  | some (some p) ↦ ok p
  | some none ↦ err not_factorized
  | none ↦ err not_factorized
]

-- The signed difference of two times.
unfoldable pub difference : ℕ → ℕ → ℤ
difference a b = if ltb a b then negsuc (b - a - 1) else pos (a - b)

-- What one request takes: the framing's random bytes, and the message id.
pub record Turn : Type 0 where
  pub padding : Option Bytes
  pub id : ℕ

pub record Draws : Type 0 where
  pub nonce : Option Bytes
  pub new_nonce : Option Bytes
  pub rng : Rng
  pub rsa_padding : ℕ → Option Bytes
  pub rsa_keys : ℕ → Option Bytes
  pub secret : Option ℕ
  pub filler : ℕ → Option Bytes

-- What the libraries compute.
pub record Library : Type 0 where
  pub hashes : Answers.Crypto
  pub sha256 : Bytes → Bytes
  pub big : Big

-- The stream, and what is left to read of the connection.
pub record Wire (S : Type 0) : Type 0 where
  pub str : Stream
  pub unread : S

module _ (lib : Library) (keys : List PublicKey) {S : Type 0} (read_full : Reader S) where
  -- A request, and the body of its answer.
  unfoldable pub call : Turn → Bytes → Wire S → Result Error (Bytes × Wire S)
  call turn body wire = do
    sent ← send_unencrypted turn.padding turn.id body wire.str
    (answer, rest) ← recv_unencrypted read_full wire.str.tr wire.unread
    ok (answer, record { str = sent; unread = rest })

  -- The first request, with the nonce that was drawn.
  unfoldable pub ask_pq : Turn → Bytes → Wire S → Result Error (ResPq × Wire S)
  ask_pq turn nonce wire = do
    (answer, wire1) ← call turn (req_pq_multi_body nonce) wire
    found ← parse_res_pq answer nonce
    ok (found, wire1)

  -- The second request, and the new nonce that is drawn for it.
  unfoldable pub ask_params :
      Turn → Draws → ℤ → Bytes → ResPq → Wire S → Result Error (DhParams × Bytes × Wire S)
  ask_params turn draws dc nonce found wire = do
    (p, q) ← split draws.rng found.pq
    key ← select_key keys found.fingerprints
    new_nonce ← drawn draws.new_nonce
    encrypted ←
        rsa_pad lib.sha256 lib.hashes.new_cipher draws.rsa_padding draws.rsa_keys
          (pq_inner_data found.pq p q nonce found.server_nonce new_nonce dc) key
    (answer, wire1) ← call turn (req_dh_params nonce found.server_nonce p q key.mark encrypted) wire
    let temp = dh_temp_keys lib.hashes new_nonce found.server_nonce
    params ← parse_server_dh_params lib.hashes answer nonce found.server_nonce temp.0 temp.1
    ok (params, new_nonce, wire1)

  -- The third request: the key that both ends share now.
  unfoldable pub agree :
      Turn → Draws → Bytes → Bytes → Bytes → DhParams → ℕ → Wire S → Result Error (Bytes × Wire S)
  agree turn draws nonce server_nonce new_nonce params secret wire = do
    let temp = dh_temp_keys lib.hashes new_nonce server_nonce
    let g_b = mod_exp params.g secret params.dh_prime
    encrypted ←
        encrypt_dh_inner lib.hashes draws.filler (client_inner_data nonce server_nonce g_b) temp.0
          temp.1
    (answer, wire1) ← call turn (set_client_dh_params nonce server_nonce encrypted) wire
    let shared = pad_to (mod_exp params.g_a secret params.dh_prime) 256
    _ ← verify_dh_gen lib.hashes answer nonce server_nonce new_nonce shared
    ok (shared, wire1)

  unfoldable pub auth_key_of : Bytes → Bytes → Bytes → ℕ → ℕ → AuthKey
  auth_key_of shared new_nonce server_nonce server_time now = record {
    key = shared;
    key_id = slice 12 20 (lib.hashes.sha1 shared);
    salt = xor (take 8 new_nonce) (take 8 server_nonce);
    time_offset = difference server_time now;
  }

  unfoldable pub create_auth_key :
      (Turn × Turn × Turn) → Draws → ℤ → ℕ → List Bytes → Wire S → Result Error (AuthKey × Wire S)
  create_auth_key (t1, t2, t3) draws dc now cache wire = do
    nonce ← drawn draws.nonce
    (found, wire1) ← ask_pq t1 nonce wire
    (params, new_nonce, wire2) ← ask_params t2 draws dc nonce found wire1
    _ ← (check_dh_params lib.big params.g params.dh_prime params.g_a cache).0
    secret ← drawn draws.secret
    (shared, wire3) ← agree t3 draws nonce found.server_nonce new_nonce params secret wire2
    ok (auth_key_of shared new_nonce found.server_nonce params.server_time now, wire3)
