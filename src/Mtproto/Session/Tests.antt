-- ===== src/Mtproto/Session/Tests.antt =====
-- A session under a digest that tells lengths, and a cipher that keeps its blocks.
use mtproto_checker.Common.{
  Bytes, arith, equal, length, of_ok, ok, refl, replicate, some, ◌%◌, ◌++◌, ◌≡◌,
}
use mtproto_checker.Common.Text.{pos}
use mtproto_checker.Mtproto.Binary.{uint32_le_bytes}
use mtproto_checker.Mtproto.Session.{
  AuthKey, Crypto, Session, container_head, contains_pong, contains_pong_from, ctor_msg_container,
  ctor_ping, ctor_pong, decrypt_with, encrypt, entries, entry_head, first_found, padding_for,
  plain_text, pong_step, read_container, read_pong,
}
use mtproto_checker.Mtproto.Session.Seal.{IsCrypto, decrypt_with-encrypt}
use mtproto_checker.Mtproto.Session.Pong.{HasPong, contains_pong-HasPong, contains_pong-pong_step}
use mtproto_checker.Mtproto.Ige.RoundTrip.{IsBlockCipher}
use mtproto_checker.Mtproto.Tl.Cursor.{read, read_uint32}

abbrev crypto : Crypto
crypto = record {
  sha256 = λ m. replicate 32 (length m % 256);
  new_cipher = λ key. ok (record { encrypt = λ x. x; decrypt = λ x. x });
}

crypto_law : IsCrypto crypto
crypto_law = record {
  digest = λ m. refl;
  cipher = λ k h. (record { encrypt = λ x. x; decrypt = λ x. x }, refl);
  lawful = λ k c e.
      of_ok (λ b. IsBlockCipher b) e (record { inverse = λ x h. refl; block_length = λ x h. h });
}

abbrev auth : AuthKey
auth = record {
  key = replicate 256 1;
  key_id = replicate 8 2;
  salt = replicate 8 3;
  time_offset = pos 0;
}

abbrev start : Session
start = record { auth = auth; id = replicate 8 4; seq_no = 5; salt = auth.salt }

abbrev ping_body : Bytes
ping_body = uint32_le_bytes ctor_ping ++ replicate 8 9

decrypt_with-encrypt_example :
    (packet : Bytes) × ((encrypt crypto (λ n. some (replicate n 6)) 77 ping_body start).0
      ≡ ok packet)
    × (decrypt_with crypto 0 auth packet ≡ ok ping_body)
    × ((encrypt crypto (λ n. some (replicate n 6)) 77 ping_body start).1.seq_no ≡ 6)
unfolding padding_for plain_text
decrypt_with-encrypt_example =
    decrypt_with-encrypt crypto (λ n. some (replicate n 6)) 77 ping_body (replicate 20 6) start
      crypto_law refl refl refl (omega arith) (omega arith) refl refl

abbrev pong_body : Bytes
pong_body = uint32_le_bytes ctor_pong ++ (replicate 8 0 ++ replicate 8 9)

-- A container of one entry.
abbrev container : Bytes
container =
    uint32_le_bytes ctor_msg_container
    ++ (uint32_le_bytes 1 ++ (replicate 12 0 ++ (uint32_le_bytes 20 ++ pong_body)))

contains_pong-HasPong_example : HasPong (replicate 8 9) container
unfolding contains_pong contains_pong_from pong_step read_container container_head entries
    entry_head read_pong first_found read_uint32 read equal
contains_pong-HasPong_example = contains_pong-HasPong (replicate 8 9) container refl

contains_pong-pong_step_test :
    contains_pong container (replicate 8 9)
    ≡ pong_step (λ x. contains_pong x (replicate 8 9)) (replicate 8 9) container
contains_pong-pong_step_test = contains_pong-pong_step (replicate 8 9) container
