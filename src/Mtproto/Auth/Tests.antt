-- ===== src/Mtproto/Auth/Tests.antt =====
-- Checks of the key exchange on small values, under a digest that tells lengths.
use mtproto_checker.Common.{
  Bytes, Result, [], arith, equal, none, some, err, length, ok, refl, replicate, slice, ◌%◌, ◌++◌,
  ◌==◌, ◌||◌, ◌∷◌, ◌≡◌,
}
use mtproto_checker.Mtproto.Binary.{uint32_le_bytes}
use mtproto_checker.Mtproto.Errors.{Error, bad_key}
use mtproto_checker.Mtproto.Tl.Cursor.{expect, read, read_uint32}
use mtproto_checker.Mtproto.Auth.Answers.{
  Crypto, DhParams, big_from, check_cursor, ctor_dh_gen_ok, dh_temp_keys, encrypt_dh_inner,
  match_nonce, new_nonce_hash, verify_dh_gen,
}
use mtproto_checker.Mtproto.Auth.Answers.Bound.{IsBound, verify_dh_gen-IsBound}
use mtproto_checker.Mtproto.Auth.Params.{
  Big, check_dh_params, check_prime, check_ranges, fingerprint,
}
use mtproto_checker.Mtproto.Auth.Params.Checked.{IsChecked, IsSound, check_dh_params-IsSound}
use mtproto_checker.Common.Keys.{member}
use mtproto_checker.Mtproto.Stream.{
  open_unencrypted, recv_unencrypted, send_raw, send_unencrypted, unencrypted,
}
use mtproto_checker.Mtproto.Transport.{
  decode, decode_intermediate, encode, encode_intermediate, intermediate, plain_read, read_packet,
}
use mtproto_checker.Mtproto.Auth.Rsa.{pad_to}
use mtproto_checker.Mtproto.Tl.Buf.{append_bytes, append_raw, append_uint32, append_uint64}
use mtproto_checker.Mtproto.Ige.{check_ige, ige_encrypt}
use mtproto_checker.Mtproto.Auth.Exchange.{
  Draws, Library, Turn, Wire, agree, call, client_inner_data, mod_exp, set_client_dh_params,
}
use mtproto_checker.Mtproto.Auth.Exchange.SharedKey.{agree-server_key, server_key}

abbrev big : Big
big = record {
  bit_len = λ n. 2048;
  bytes = λ n. n ∷ [];
  probably_prime = λ n. n == 23 || n == 11;
  sha256 = λ m. m;
}

check_dh_params-IsSound_example :
    IsSound big (fingerprint big 23 ∷ [])
    × ((check_dh_params big 5 23 8 []).0 ≡ ok tt → IsChecked big 5 23 8)
unfolding check_dh_params check_ranges check_prime member
check_dh_params-IsSound_example = check_dh_params-IsSound big 5 23 8 [] (λ mark h. cc)

abbrev crypto : Crypto
crypto = record { sha1 = λ m. replicate 20 (length m % 256); new_cipher = λ key. err bad_key }

abbrev answer : Bytes
answer = uint32_le_bytes ctor_dh_gen_ok ++ (replicate 16 1 ++ (replicate 16 2 ++ replicate 16 41))

verify_dh_gen-IsBound_example :
    IsBound ctor_dh_gen_ok answer (replicate 16 1) (replicate 16 2)
    × (slice 36 52 answer ≡ new_nonce_hash crypto (replicate 32 3) (replicate 256 4))
unfolding verify_dh_gen match_nonce expect read_uint32 read check_cursor equal new_nonce_hash
verify_dh_gen-IsBound_example =
    verify_dh_gen-IsBound crypto answer (replicate 16 1) (replicate 16 2) (replicate 32 3)
      (replicate 256 4) tt refl

abbrev library : Library
library = record {
  hashes = record crypto { new_cipher = λ key. ok (record { encrypt = λ b. b; decrypt = λ b. b }) };
  sha256 = λ m. m;
  big = big;
}

abbrev turn : Turn
turn = record { padding = none; id = 0 }

abbrev draws : Draws
draws = record {
  nonce = none;
  new_nonce = none;
  rng = λ k n. (0, n);
  rsa_padding = λ n. none;
  rsa_keys = λ n. none;
  secret = some 5;
  filler = λ n. some (replicate n 0);
}

-- The half of a server whose secret is 4.
abbrev params : DhParams
params = record { g = 3; dh_prime = 23; g_a = mod_exp 3 4 23; server_time = 0 }

abbrev wire : Wire Bytes
wire = record {
  str = record { tr = intermediate; tag_first = []; written = [] };
  unread = 72 ∷ 0 ∷ 0 ∷ 0 ∷ unencrypted 0 answer;
}

abbrev agreed : Result Error (Bytes × Wire Bytes)
agreed =
    agree library [] plain_read turn draws (replicate 16 1) (replicate 16 2) (replicate 32 3) params
      5 wire

abbrev ended : Result Error (Bytes × Wire Bytes) → Bytes × Wire Bytes
ended (ok r) = r
ended (err e) = ([], wire)

agree-server_key_example :
    (inner : Bytes) × (encrypted : Bytes) × (confirmation : Bytes) × (encrypt_dh_inner
        library.hashes draws.filler inner
        (dh_temp_keys library.hashes (replicate 32 3) (replicate 16 2)).0
        (dh_temp_keys library.hashes (replicate 32 3) (replicate 16 2)).1
      ≡ ok encrypted)
    × (call library [] plain_read turn
          (set_client_dh_params (replicate 16 1) (replicate 16 2) encrypted)
          wire
        ≡ ok (confirmation, (ended agreed).1))
    × (length (ended agreed).0 ≡ 256)
    × (big_from 0 (ended agreed).0 ≡ server_key 4 23 inner)
unfolding agree encrypt_dh_inner ige_encrypt check_ige dh_temp_keys call send_unencrypted send_raw
    recv_unencrypted open_unencrypted unencrypted encode decode encode_intermediate
    decode_intermediate read_packet plain_read verify_dh_gen match_nonce expect read_uint32 read
    check_cursor equal new_nonce_hash client_inner_data append_bytes append_raw append_uint32
    append_uint64 pad_to
agree-server_key_example =
    agree-server_key library [] plain_read turn draws (replicate 16 1) (replicate 16 2)
      (replicate 32 3) params 5 4 wire (ended agreed).1 (ended agreed).0 refl refl (omega arith)
      (omega arith) refl refl
