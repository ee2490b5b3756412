-- ===== src/Mtproto/Stream.antt =====
-- `stream` of internal/mtproto/auth.go: messages with no encryption of their own, over a framing.
-- Deadlines and the times of the first round trip are not part of the model. A message id comes from
-- the clock (internal/mtproto/respq.go), and is an argument; writes do not fail.
pub mod RoundTrip
mod Tests
use mtproto_checker.Common.{
  Bytes, Option, Result, [], drop, equal, length, ltb, not, ok, reject, replicate, slice, take, ℕ,
  ◌%◌, ◌*◌, ◌++◌, ◌+◌, ◌/◌, ◌>>=◌, ◌^◌, ◌||◌,
}
use mtproto_checker.Mtproto.Binary.{uint32_le, uint32_le_bytes, uint64_le_bytes}
use mtproto_checker.Mtproto.Errors.{Error, bad_auth_key_id, bad_body_length, message_too_short}
use mtproto_checker.Mtproto.Transport.{Reader, Transport, decode, encode}

-- The framing, the tag that still has to be sent (empty for Go's nil), and what was written.
pub record Stream : Type 0 where
  pub tr : Transport
  pub tag_first : Bytes
  pub written : Bytes

-- `messageID`, of the seconds and the nanoseconds of the clock; all on 64 bits.
unfoldable pub message_id : ℕ → ℕ → ℕ
message_id seconds nanoseconds = seconds % 2 ^ 32 * 2 ^ 32 + nanoseconds / 1000 * 4 % 2 ^ 32

unfoldable pub send_raw : Option Bytes → Bytes → Stream → Result Error Stream
send_raw padding message s = do
  packet ← encode s.tr padding message
  ok (record s { tag_first = []; written = s.written ++ (s.tag_first ++ packet) })

-- The message of `sendUnencrypted`: a key id of zero, the message id, and the length.
unfoldable pub unencrypted : ℕ → Bytes → Bytes
unencrypted id body =
    replicate 8 0 ++ (uint64_le_bytes id ++ (uint32_le_bytes (length body % 2 ^ 32) ++ body))

unfoldable pub send_unencrypted : Option Bytes → ℕ → Bytes → Stream → Result Error Stream
send_unencrypted padding id body s = send_raw padding (unencrypted id body) s

-- The guards of `recvUnencrypted` on a packet.
unfoldable pub open_unencrypted : Bytes → Result Error Bytes
open_unencrypted packet = do
  _ ← reject (ltb (length packet) 20) message_too_short
  _ ← reject (not (equal (take 8 packet) (replicate 8 0))) bad_auth_key_id
  let size = uint32_le (drop 16 packet)
  _ ← reject (ltb size 4 || ltb (length packet) (20 + size)) bad_body_length
  ok (slice 20 (20 + size) packet)

module _ {S : Type 0} (read_full : Reader S) where
  abbrev pub recv_raw : Transport → S → Result Error (Bytes × S)
  recv_raw tr s = decode read_full tr s

  unfoldable pub recv_unencrypted : Transport → S → Result Error (Bytes × S)
  recv_unencrypted tr s = do
    (packet, s1) ← recv_raw tr s
    body ← open_unencrypted packet
    ok (body, s1)
