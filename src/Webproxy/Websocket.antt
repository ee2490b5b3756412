-- ===== src/Webproxy/Websocket.antt =====
-- internal/webproxy/websocket.go: the client side of RFC 6455, from the upgrade on. A connection is
-- what the relay has still to say, up to where it closes, and what has been written to it.
pub mod RoundTrip
pub mod Total
mod Tests
use mtproto_checker.Common.{
  Bool, Bytes, Option, Result, [], bit_xor, drop, err, false, get_or, if◌then◌else◌, leb, length,
  ltb, none, ok, reject, some, suc, take, true, zero, ℕ, ◌%◌, ◌*◌, ◌++◌, ◌+◌, ◌==◌, ◌>>=◌, ◌^◌, ◌∷◌,
}
use mtproto_checker.Mtproto.Binary.{uint16_be, uint16_be_bytes, uint64_be, uint64_be_bytes}
use mtproto_checker.Webproxy.Errors.{
  Error, end_of_file, message_too_large, rand_failed, short_read, stuck, text_message,
}

abbrev pub op_continuation : ℕ
op_continuation = 0

abbrev pub op_text : ℕ
op_text = 1

abbrev pub op_binary : ℕ
op_binary = 2

abbrev pub op_close : ℕ
op_close = 8

abbrev pub op_ping : ℕ
op_ping = 9

abbrev pub op_pong : ℕ
op_pong = 10

abbrev pub max_body_bytes : ℕ
max_body_bytes = 8 * 2 ^ 20

-- `payload[i] ^ mask[i%4]`, from an index of remainder `i` on.
unfoldable pub mask_from : Bytes → ℕ → Bytes → Bytes
mask_from mask i [] = []
mask_from mask i (c ∷ payload) = bit_xor c (get_or mask i 0) ∷ mask_from mask ((i + 1) % 4) payload

-- The header up to the mask: `0x80 | opcode` for an opcode below 16, and the length.
unfoldable pub message_header : ℕ → ℕ → Bytes
message_header opcode n =
    if ltb n 126
    then (128 + opcode) ∷ (128 + n) ∷ []
    else if leb n 0xFFFF
    then (128 + opcode) ∷ (128 + 126) ∷ uint16_be_bytes n
    else (128 + opcode) ∷ (128 + 127) ∷ uint64_be_bytes n

-- What `writeMessage` writes, with the mask that was drawn.
unfoldable pub write_message : Bytes → ℕ → Bytes → Bytes
unfolding message_header mask_from
write_message mask opcode payload =
    message_header opcode (length payload) ++ (mask ++ mask_from mask 0 payload)

-- io.ReadFull on the buffered reader.
unfoldable pub read_full : ℕ → Bytes → Result Error (Bytes × Bytes)
read_full n s = if ltb (length s) n then err short_read else ok (take n s, drop n s)

pub record Message : Type 0 where
  pub opcode : ℕ
  pub payload : Bytes
  pub final : Bool

-- The `switch` on the low seven bits of the second byte.
unfoldable pub read_length : ℕ → Bytes → Result Error (ℕ × Bytes)
read_length code s =
    if code == 126
    then (do (extended, s1) ← read_full 2 s; ok (uint16_be extended, s1))
    else if code == 127
    then (do (extended, s1) ← read_full 8 s; ok (uint64_be extended, s1))
    else ok (code, s)

-- A frame that is not masked is one under the mask of zeros, which the code does not apply.
unfoldable pub read_payload : Bool → ℕ → Bytes → Result Error (Bytes × Bytes)
unfolding read_full mask_from
read_payload true n s = do
  (mask, s1) ← read_full 4 s
  (payload, s2) ← read_full n s1
  ok (mask_from mask 0 payload, s2)
read_payload false n s = read_full n s

-- The first two bytes, and the length with its extension.
unfoldable pub read_head : Bytes → Result Error ((ℕ × ℕ × ℕ) × Bytes)
unfolding read_full read_length
read_head s = do
  (header, s1) ← read_full 2 s
  (n, s2) ← read_length (get_or header 1 0 % 128) s1
  ok ((get_or header 0 0, get_or header 1 0, n), s2)

unfoldable pub read_frame : Bytes → Result Error (Message × Bytes)
read_frame s = do
  ((first, second, n), s1) ← read_head s
  _ ← reject (ltb max_body_bytes n) (message_too_large n)
  (payload, s2) ← read_payload (leb 128 second) n s1
  let message : Message = record { opcode = first % 16; payload = payload; final = leb 128 first }
  ok (message, s2)

pub record Conn : Type 0 where
  pub inbox : Bytes
  pub written : Bytes

-- What a round of `receive` makes of a message; `again` is the next round, with the message so far.
-- `draw` is the mask that crypto/rand gives for a pong, or none if it fails.
unfoldable pub pong : Option Bytes → Bytes → Bytes → Result Error Bytes
unfolding write_message
pong none payload written = err rand_failed
pong (some mask) payload written = ok (written ++ write_message mask op_pong payload)

unfoldable pub on_message :
    (Bytes → Conn → Result Error (Bytes × Conn))
    → Option Bytes
    → Bytes
    → Message
    → Conn
    → Result Error (Bytes × Conn)
unfolding pong
on_message again draw sofar m c =
    if m.opcode == op_ping
    then (do written ← pong draw m.payload c.written; again sofar (record c { written = written }))
    else if m.opcode == op_pong
    then again sofar c
    else if m.opcode == op_close
    then err end_of_file
    else if m.opcode == op_text
    then err text_message
    else if m.final
    then ok (sofar ++ m.payload, c)
    else again (sofar ++ m.payload) c

-- The loop of `receive`: a frame takes two bytes of the inbox at least. Writes do not fail.
unfoldable pub receive_loop : ℕ → Option Bytes → Bytes → Conn → Result Error (Bytes × Conn)
unfolding on_message
receive_loop zero draw sofar c = err stuck
receive_loop (suc fuel) draw sofar c = do
  (m, rest) ← read_frame c.inbox
  on_message (receive_loop fuel draw) draw sofar m (record c { inbox = rest })

unfoldable pub receive : Option Bytes → Conn → Result Error (Bytes × Conn)
unfolding receive_loop read_frame
receive draw c = receive_loop (suc (length c.inbox)) draw [] c

-- `send`: nothing is written for no frames.
unfoldable pub send : Option Bytes → Bytes → Conn → Result Error Conn
unfolding write_message
send draw [] c = ok c
send none (b ∷ frames) c = err rand_failed
send (some mask) (b ∷ frames) c =
    ok (record c { written = c.written ++ write_message mask op_binary (b ∷ frames) })
