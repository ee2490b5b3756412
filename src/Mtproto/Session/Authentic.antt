-- ===== src/Mtproto/Session/Authentic.antt =====
-- What a packet that is decrypted has shown.
use mtproto_checker.Common.{
  >>=-eq-ok, Bytes, arith, drop, length, ltb, of_ok, ok, refl, slice, take, ◌+◌, ◌||◌, ◌≡◌, ◌≤◌,
}
use mtproto_checker.Common.Guards.{past_equal, past_guard}
use mtproto_checker.Mtproto.Binary.{uint32_le}
use mtproto_checker.Mtproto.Errors.{
  bad_auth_key_id, bad_body_length, message_too_short, msg_key_mismatch, plain_too_short,
}
use mtproto_checker.Mtproto.Ige.{ige_decrypt}
use mtproto_checker.Mtproto.Session.{
  AuthKey, Crypto, Session, decrypt, decrypt_with, message_key, message_keys, open_plain,
}

-- The packet names the key, its message key is the one of the plain text within under the server's
-- half of the key, and the body is the part of the plain text that the plain text declares.
pub record IsAuthentic (crypto : Crypto) (auth : AuthKey) (packet plain body : Bytes) : Type 0 where
  pub addressed : take 8 packet ≡ auth.key_id
  pub opened :
      ige_decrypt crypto.new_cipher
        (drop 24 packet)
        (message_keys crypto auth.key (slice 8 24 packet) 8).0
        (message_keys crypto auth.key (slice 8 24 packet) 8).1
      ≡ ok plain
  pub keyed : message_key crypto auth.key plain 8 ≡ slice 8 24 packet
  pub declared : body ≡ slice 32 (32 + uint32_le (drop 28 plain)) plain
  pub in_range : 32 + uint32_le (drop 28 plain) ≤ length plain
  pub not_empty : 4 ≤ uint32_le (drop 28 plain)

open_plain-bounds :
    (plain body : Bytes)
    → open_plain plain ≡ ok body
    → (body ≡ slice 32 (32 + uint32_le (drop 28 plain)) plain)
      × (32 + uint32_le (drop 28 plain) ≤ length plain)
      × (4 ≤ uint32_le (drop 28 plain))
unfolding open_plain
open_plain-bounds plain body e =
    let size = uint32_le (drop 28 plain) in
    let (long, e1) = past_guard (ltb (length plain) 32) plain_too_short _ body e in
    let (fits, e2) =
      past_guard (ltb size 4 || ltb (length plain) (32 + size)) bad_body_length _ body e1 in
    (
      of_ok (λ k. k ≡ slice 32 (32 + size) plain) e2 refl,
      ground (arith, fits),
      ground (arith, fits),
    )

-- Whatever `decrypt` gives was sealed for this key: the packet carries the key's id and the message
-- key of the plain text that it holds, and the body is the declared part of that plain text, of at
-- least 4 bytes and within it.
pub decrypt-IsAuthentic :
    (crypto : Crypto) (s : Session) (packet body : Bytes)
    → decrypt crypto s packet ≡ ok body
    → (plain : Bytes) × IsAuthentic crypto s.auth packet plain body
unfolding decrypt decrypt_with
decrypt-IsAuthentic crypto s packet body e =
    let keys = message_keys crypto s.auth.key (slice 8 24 packet) 8 in
    let (long, e1) = past_guard (ltb (length packet) 40) message_too_short _ body e in
    let (addressed, e2) = past_equal (take 8 packet) s.auth.key_id bad_auth_key_id _ body e1 in
    let (plain, opened, e3) =
      >>=-eq-ok (ige_decrypt crypto.new_cipher (drop 24 packet) keys.0 keys.1) _ e2 in
    let (keyed, e4) =
      past_equal (message_key crypto s.auth.key plain 8) (slice 8 24 packet) msg_key_mismatch _ body
        e3 in
    let (declared, in_range, not_empty) = open_plain-bounds plain body e4 in
    (
      plain,
      record {
        addressed = addressed;
        opened = opened;
        keyed = keyed;
        declared = declared;
        in_range = in_range;
        not_empty = not_empty;
      },
    )
