-- ===== src/Webproxy/Frame.antt =====
-- internal/webproxy/frame.go: type:u8, stream_id:u24, payload_length:u32, payload.
pub mod RoundTrip
mod Tests
use mtproto_checker.Common.{
  Bytes, List, Result, [], drop, err, get_or, if◌then◌else◌, length, ltb, ok, slice, suc, zero, ℕ,
  ◌%◌, ◌*◌, ◌++◌, ◌+◌, ◌/◌, ◌==◌, ◌>>=◌, ◌^◌, ◌∷◌,
}
use mtproto_checker.Common.Text.{codes}
use mtproto_checker.Mtproto.Binary.{uint32_be, uint32_be_bytes}
use mtproto_checker.Webproxy.Errors.{
  Error, payload_too_large, stuck, truncated_header, truncated_payload,
}

abbrev pub frame_open : ℕ
frame_open = 0x01

abbrev pub frame_data : ℕ
frame_data = 0x02

abbrev pub frame_close : ℕ
frame_close = 0x03

abbrev pub frame_window : ℕ
frame_window = 0x04

abbrev pub frame_ping : ℕ
frame_ping = 0x05

abbrev pub frame_pong : ℕ
frame_pong = 0x06

abbrev pub frame_hello : ℕ
frame_hello = 0x10

abbrev pub frame_welcome : ℕ
frame_welcome = 0x11

abbrev pub frame_bye : ℕ
frame_bye = 0x1F

abbrev pub frame_header_len : ℕ
frame_header_len = 8

abbrev pub max_payload : ℕ
max_payload = 2 ^ 20

pub record Frame : Type 0 where
  pub kind : ℕ
  pub stream : ℕ
  pub payload : Bytes

unfoldable pub encode_frame : ℕ → ℕ → Bytes → Bytes
encode_frame kind stream payload =
    (kind ∷ (stream / 2 ^ 16 % 256) ∷ (stream / 2 ^ 8 % 256) ∷ (stream % 256) ∷ [])
    ++ (uint32_be_bytes (length payload % 2 ^ 32) ++ payload)

-- One round of the loop, over what stands behind `offset`: a frame, and what follows it.
unfoldable pub next_frame : Bytes → Result Error (Frame × Bytes)
next_frame body =
    let n = uint32_be (drop 4 body) in
    if ltb (length body) frame_header_len
    then err truncated_header
    else if ltb max_payload n
    then err (payload_too_large n)
    else if ltb (length body) (frame_header_len + n)
    then err truncated_payload
    else ok (
      record {
        kind = get_or body 0 0;
        stream = get_or body 1 0 * 2 ^ 16 + get_or body 2 0 * 2 ^ 8 + get_or body 3 0;
        payload = slice frame_header_len (frame_header_len + n) body;
      },
      drop (frame_header_len + n) body,
    )

-- `for offset := 0; offset < len(body);`: a round takes eight bytes at least.
unfoldable pub decode_frames_loop : ℕ → Bytes → Result Error (List Frame)
decode_frames_loop fuel [] = ok []
decode_frames_loop zero (x ∷ xs) = err stuck
decode_frames_loop (suc fuel) (x ∷ xs) = do
  (f, rest) ← next_frame (x ∷ xs)
  fs ← decode_frames_loop fuel rest
  ok (f ∷ fs)

unfoldable pub decode_frames : Bytes → Result Error (List Frame)
unfolding decode_frames_loop next_frame
decode_frames body = decode_frames_loop (length body) body

abbrev hex_digit : ℕ → ℕ
hex_digit d = get_or (codes "0123456789abcdef") d 0

-- A kind is a byte; one that has no name is printed with `0x%02x`.
unfoldable pub frame_name : ℕ → Bytes
frame_name kind =
    if kind == frame_open
    then codes "OPEN"
    else if kind == frame_data
    then codes "DATA"
    else if kind == frame_close
    then codes "CLOSE"
    else if kind == frame_window
    then codes "WINDOW"
    else if kind == frame_ping
    then codes "PING"
    else if kind == frame_pong
    then codes "PONG"
    else if kind == frame_hello
    then codes "HELLO"
    else if kind == frame_welcome
    then codes "WELCOME"
    else if kind == frame_bye
    then codes "BYE"
    else codes "0x" ++ (hex_digit (kind / 16) ∷ hex_digit (kind % 16) ∷ [])
