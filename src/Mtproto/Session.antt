-- ===== src/Mtproto/Session.antt =====
-- internal/mtproto/session.go: encrypted messages, and the search for a pong among the answers.
-- SHA-256 and AES are parameters; message ids and random bytes are arguments. Times are not part of
-- the model.
pub mod Seal
pub mod Authentic
pub mod Pong
pub mod Ping
mod Tests
use mtproto_checker.Common.{
  Bool, Bytes, Option, Result, drop, equal, err, false, if◌then◌else◌, length, ltb, none, not, ok,
  reject, slice, some, suc, take, true, zero, ℕ, ◌%◌, ◌*◌, ◌++◌, ◌+◌, ◌-◌, ◌==◌, ◌>>=◌, ◌^◌, ◌||◌,
}
use mtproto_checker.Common.Text.{ℤ}
use mtproto_checker.Mtproto.Binary.{uint32_le, uint32_le_bytes, uint64_le_bytes}
use mtproto_checker.Mtproto.Errors.{
  Error, bad_auth_key_id, bad_body_length, bad_container_entry, bad_container_size, empty_body,
  message_too_short, msg_key_mismatch, no_pong, plain_too_short, rand_failed, rpc_error, too_deep,
  wrong_ping_id,
}
use mtproto_checker.Mtproto.Ige.{Block, ige_decrypt, ige_encrypt}
use mtproto_checker.Mtproto.Tl.Cursor.{Cursor, new_cursor, read, read_uint32}
use mtproto_checker.Mtproto.Transport.{Reader, Transport, decode}
use mtproto_checker.Mtproto.Stream.{Stream, send_raw}

abbrev pub ctor_ping : ℕ
ctor_ping = 0x7ABE77EC

abbrev pub ctor_pong : ℕ
ctor_pong = 0x347773C5

abbrev pub ctor_msg_container : ℕ
ctor_msg_container = 0x73F1F8DC

abbrev pub ctor_new_session_created : ℕ
ctor_new_session_created = 0x9EC20908

abbrev pub ctor_bad_server_salt : ℕ
ctor_bad_server_salt = 0xEDAB447B

abbrev pub ctor_bad_msg_notification : ℕ
ctor_bad_msg_notification = 0xA7EBA1DB

-- internal/mtproto/auth.go
abbrev pub ctor_rpc_error : ℕ
ctor_rpc_error = 0x2144CA19

-- `authKey` of internal/mtproto/auth.go.
pub record AuthKey : Type 0 where
  pub key : Bytes
  pub key_id : Bytes
  pub salt : Bytes
  pub time_offset : ℤ

pub record Session : Type 0 where
  pub auth : AuthKey
  pub id : Bytes
  pub seq_no : ℕ
  pub salt : Bytes

unfoldable pub new_session : AuthKey → Option Bytes → Result Error Session
new_session auth none = err rand_failed
new_session auth (some id) = ok (record { auth = auth; id = id; seq_no = 0; salt = auth.salt })

pub record Crypto : Type 0 where
  pub sha256 : Bytes → Bytes
  pub new_cipher : Bytes → Result Error Block

-- The first 32 bytes of the plain text, and the body.
unfoldable pub plain_text : Session → ℕ → Bytes → Bytes
plain_text s msg_id body =
    (s.salt ++ (s.id ++ (uint64_le_bytes msg_id ++ uint32_le_bytes ((s.seq_no * 2 + 1) % 2 ^ 32))))
    ++ (uint32_le_bytes (length body % 2 ^ 32) ++ body)

-- How many random bytes fill a plain text of `n` bytes up.
unfoldable pub padding_for : ℕ → ℕ
padding_for n = 12 + (16 - (n + 12) % 16) % 16

-- The guards on the plain text.
unfoldable pub open_plain : Bytes → Result Error Bytes
open_plain plain = do
  _ ← reject (ltb (length plain) 32) plain_too_short
  let size = uint32_le (drop 28 plain)
  _ ← reject (ltb size 4 || ltb (length plain) (32 + size)) bad_body_length
  ok (slice 32 (32 + size) plain)

module _ (crypto : Crypto) where
  unfoldable pub message_key : Bytes → Bytes → ℕ → Bytes
  message_key auth_key plain x =
      slice 8 24 (crypto.sha256 (slice (88 + x) (88 + x + 32) auth_key ++ plain))

  -- The key and the vector.
  unfoldable pub message_keys : Bytes → Bytes → ℕ → Bytes × Bytes
  message_keys auth_key msg_key x =
      let a = crypto.sha256 (msg_key ++ slice x (x + 36) auth_key) in
      let b = crypto.sha256 (slice (40 + x) (40 + x + 36) auth_key ++ msg_key) in
      (
        slice 0 8 a ++ (slice 8 24 b ++ slice 24 32 a),
        slice 0 8 b ++ (slice 8 24 a ++ slice 24 32 b),
      )

  -- What `encrypt` does with the finished plain text; a server does the same with 8 for `x`.
  unfoldable pub seal : ℕ → AuthKey → Bytes → Result Error Bytes
  seal x auth plain = do
    let msg_key = message_key auth.key plain x
    let keys = message_keys auth.key msg_key x
    encrypted ← ige_encrypt crypto.new_cipher plain keys.0 keys.1
    ok (auth.key_id ++ (msg_key ++ encrypted))

  -- `random` is `randomBytes`. The sequence number moves on even if the rest fails.
  unfoldable pub encrypt : (ℕ → Option Bytes) → ℕ → Bytes → Session → Result Error Bytes × Session
  encrypt random msg_id body s =
      let plain = plain_text s msg_id body in
      let packet : Result Error Bytes = elim (random (padding_for (length plain))) [
        | none ↦ err rand_failed
        | some filler ↦ seal 0 s.auth (plain ++ filler)
      ] in
      (packet, record s { seq_no = (s.seq_no + 1) % 2 ^ 32 })

  -- `decrypt`, with `x` for its 8; a server does the same with 0.
  unfoldable pub decrypt_with : ℕ → AuthKey → Bytes → Result Error Bytes
  decrypt_with x auth packet = do
    _ ← reject (ltb (length packet) (24 + 16)) message_too_short
    _ ← reject (not (equal (take 8 packet) auth.key_id)) bad_auth_key_id
    let msg_key = slice 8 24 packet
    let keys = message_keys auth.key msg_key x
    plain ← ige_decrypt crypto.new_cipher (drop 24 packet) keys.0 keys.1
    _ ← reject (not (equal (message_key auth.key plain x) msg_key)) msg_key_mismatch
    open_plain plain

  unfoldable pub decrypt : Session → Bytes → Result Error Bytes
  decrypt s packet = decrypt_with 8 s.auth packet

-- The answer that carries the ping's id.
unfoldable pub read_pong : Bytes → Bytes → Result Error Bool
read_pong body ping_id =
    let c1 = (read 4 (new_cursor body)).1 in
    let c2 = (read 8 c1).1 in
    let (got, c3) = read 8 c2 in
    elim c3.error [
      | some e ↦ err e
      | none ↦ if equal got ping_id then ok true else err wrong_ping_id
    ]

-- The message id and the sequence number of an entry are skipped; its size is given.
unfoldable pub entry_head : Cursor → ℕ × Cursor
entry_head c = read_uint32 (read 4 (read 8 c).1).1

-- `if err == nil && found { return true, nil }`, and what follows.
unfoldable pub first_found : Result Error Bool → Result Error Bool → Result Error Bool
first_found (ok true) rest = ok true
first_found (ok false) rest = rest
first_found (err e) rest = rest

-- The loop over the entries of a container; `inner` is `containsPong` of an entry. An error within
-- an entry is passed over.
unfoldable pub entries : (Bytes → Result Error Bool) → ℕ → ℕ → Cursor → Result Error Bool
entries inner limit zero c = ok false
entries inner limit (suc count) c =
    let (size, c1) = entry_head c in
    let (entry, c2) = read size c1 in
    let rest = entries inner limit count c2 in
    if ltb limit size
    then err bad_container_entry
    else elim c2.error [ some e ↦ err e | none ↦ first_found (inner entry) rest ]

-- The number of entries stands behind the constructor.
unfoldable pub container_head : Bytes → ℕ × Cursor
container_head body = read_uint32 (read 4 (new_cursor body)).1

unfoldable pub read_container : (Bytes → Result Error Bool) → Bytes → Result Error Bool
read_container inner body =
    let (count, c) = container_head body in
    if ltb 64 count then err (bad_container_size count) else entries inner (length body) count c

-- One call of `containsPong`, with `inner` for the calls it makes.
unfoldable pub pong_step : (Bytes → Result Error Bool) → Bytes → Bytes → Result Error Bool
pong_step inner ping_id body =
    let ctor = uint32_le (take 4 body) in
    if ltb (length body) 4
    then err empty_body
    else if ctor == ctor_pong
    then read_pong body ping_id
    else if ctor == ctor_msg_container
    then read_container inner body
    else if ctor == ctor_new_session_created
        || ctor == ctor_bad_server_salt
        || ctor == ctor_bad_msg_notification
    then ok false
    else if ctor == ctor_rpc_error
    then err rpc_error
    else ok false

-- The length of the body is fuel enough; `too_deep` is none of Go's errors: the fuel has run out.
unfoldable pub contains_pong_from : ℕ → Bytes → Bytes → Result Error Bool
contains_pong_from zero ping_id body = err too_deep
contains_pong_from (suc fuel) ping_id body =
    pong_step (λ inner. contains_pong_from fuel ping_id inner) ping_id body

unfoldable pub contains_pong : Bytes → Bytes → Result Error Bool
contains_pong body ping_id = contains_pong_from (suc (length body)) ping_id body

module _ (crypto : Crypto) {S : Type 0} (read_full : Reader S) where
  -- `for range 4` of `ping`: what is left to read when the pong has come.
  unfoldable pub await_pong : ℕ → Session → Transport → Bytes → S → Result Error S
  await_pong zero s tr ping_id c = err no_pong
  await_pong (suc k) s tr ping_id c = do
    (response, c1) ← decode read_full tr c
    plain ← decrypt crypto s response
    found ← contains_pong plain ping_id
    let again = await_pong k s tr ping_id c1
    if found then ok c1 else again

  -- `drawn` is the ping id's `randomBytes`, `random` the one of `encrypt` and `padding` the framing's;
  -- the stream is left as written to, also where no pong comes.
  unfoldable pub ping :
      Option Bytes
      → (ℕ → Option Bytes)
      → Option Bytes
      → ℕ
      → Session
      → Stream
      → S
      → Result Error S × (Session × Stream)
  ping none random padding id s str c = (err rand_failed, (s, str))
  ping (some ping_id) random padding id s str c =
      let (packet, s1) = encrypt crypto random id (uint32_le_bytes ctor_ping ++ ping_id) s in
      elim packet [
        | err e ↦ (err e, (s1, str))
        | ok message ↦ elim (send_raw padding message str) [
          | err e ↦ (err e, (s1, str))
          | ok str1 ↦ (await_pong 4 s1 str.tr ping_id c, (s1, str1))
        ]
      ]
