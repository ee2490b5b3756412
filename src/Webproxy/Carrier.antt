-- ===== src/Webproxy/Carrier.antt =====
-- internal/webproxy/carrier.go: one stream over a relay session. The transport is what it receives,
-- a list of bodies and failures, and the batches that it was handed, in order; a failure to send a
-- batch of `Write` is an argument. The dial, HTTP and deadlines are not part of the model.
pub mod Bytestream
pub mod Batches
mod Tests
use mtproto_checker.Common.{
  Bool, Bytes, List, Option, Result, [], drop, err, false, if◌then◌else◌, leb, length, none, not,
  ok, some, suc, take, true, zero, ℕ, ◌%◌, ◌++◌, ◌+◌, ◌==◌, ◌^◌, ◌||◌, ◌∷◌,
}
use mtproto_checker.Mtproto.Binary.{uint32_be_bytes}
use mtproto_checker.Webproxy.Errors.{Error, conn_closed, end_of_file, no_more_input, session_closed}
use mtproto_checker.Webproxy.Frame.{
  Frame, decode_frames, encode_frame, frame_bye, frame_close, frame_data, frame_open, frame_ping,
  frame_pong, frame_window,
}

abbrev pub stream_id : ℕ
stream_id = 1

abbrev pub window_grant_min : ℕ
window_grant_min = 2 ^ 18

abbrev pub chunk_size : ℕ
chunk_size = 2 ^ 16

pub record Carrier : Type 0 where
  pub opened : Bool
  pub closed : Bool
  pub read_buf : Bytes
  pub eof : Bool
  pub window_debt : ℕ
  pub sent : List Bytes

abbrev pub is_none : Bytes → Bool
is_none [] = true
is_none (x ∷ p) = false

unfoldable pub send_control : Bytes → Carrier → Carrier
send_control batch c =
    if is_none batch || c.closed then c else record c { sent = c.sent ++ (batch ∷ []) }

unfoldable pub take_window_grant : ℕ → Carrier → Bytes × Carrier
take_window_grant minimum c = if leb c.window_debt minimum then ([], c) else (
  encode_frame frame_window stream_id (uint32_be_bytes c.window_debt),
  record c { window_debt = 0 },
)

unfoldable pub grant_window : Carrier → Carrier
grant_window c = let (grant, c1) = take_window_grant 0 c in send_control grant c1

-- The `DATA` frames of `Write`, a chunk in each; a round takes a byte at least.
unfoldable pub data_frames : ℕ → Bytes → Bytes
data_frames fuel [] = []
data_frames zero (x ∷ p) = []
data_frames (suc fuel) (x ∷ p) =
    encode_frame frame_data stream_id (take chunk_size (x ∷ p))
    ++ data_frames fuel (drop chunk_size (x ∷ p))

-- `failed` is what sending the batch gives: an error, or none.
unfoldable pub write : Option Error → Bytes → Carrier → Result Error ℕ × Carrier
write failed p c =
    let open_frame : Bytes = if c.opened then [] else encode_frame frame_open stream_id [] in
    let (grant, c1) = take_window_grant 0 (record c { opened = true }) in
    let batch = open_frame ++ (grant ++ data_frames (length p) p) in
    let c2 : Carrier = record c1 { sent = c1.sent ++ (batch ∷ []) } in
    if c.closed
    then (err conn_closed, c)
    else elim failed [ some e ↦ (err e, c2) | none ↦ (ok (length p), c2) ]

-- One frame that came.
unfoldable pub file_frame : Frame → Carrier → Option Error × Carrier
file_frame f c =
    if f.kind == frame_data
    then (
      none,
      if f.stream == stream_id then record c { read_buf = c.read_buf ++ f.payload } else c,
    )
    else if f.kind == frame_close
    then (none, if f.stream == stream_id then record c { eof = true } else c)
    else if f.kind == frame_ping
    then (none, send_control (encode_frame frame_pong 0 f.payload) c)
    else if f.kind == frame_bye
    then (some (session_closed f.payload), record c { eof = true })
    else (none, c)

unfoldable pub file_frames : List Frame → Carrier → Option Error × Carrier
file_frames [] c = (none, c)
file_frames (f ∷ fs) c =
    let (e, c1) = file_frame f c in
    let rest = file_frames fs c1 in elim e [ some x ↦ (some x, c1) | none ↦ rest ]

-- What `receive` of the transport gave, and whether it has ended the stream of the carrier: over
-- HTTPS, the header `X-Lane-Closed` does.
pub record Received : Type 0 where
  pub answer : Result Error Bytes
  pub lane_closed : Bool

-- The carrier once `receive` has come back.
unfoldable pub end_lane : Received → Carrier → Carrier
end_lane r c = if r.lane_closed then record c { eof = true } else c

-- `pump` from the answer on.
unfoldable pub file_answer : Result Error Bytes → Carrier → Option Error × Carrier
file_answer (err e) c = (some e, c)
file_answer (ok []) c = (none, c)
file_answer (ok (x ∷ body)) c = elim (decode_frames (x ∷ body)) [
  | err e ↦ (some e, c)
  | ok fs ↦ file_frames fs c
]

unfoldable pub pump : Received → Carrier → Option Error × Carrier
pump r c = file_answer r.answer (end_lane r c)

-- What `Read` does with bytes at hand, for a slice of `n` bytes.
unfoldable pub deliver : ℕ → Carrier → Bytes × Carrier
deliver n c =
    let p = take n c.read_buf in
    let c1 : Carrier = record c {
      read_buf = drop n c.read_buf;
      window_debt = (c.window_debt + length p) % 2 ^ 32;
    } in
    (p, if leb window_grant_min c1.window_debt then grant_window c1 else c1)

-- Why the loop of `Read` ends without polling.
unfoldable pub stops : Carrier → Option Error
stops c = if c.eof then some end_of_file else if c.closed then some conn_closed else none

-- The result, the carrier, and what is still to come from the transport.
unfoldable pub read_from :
    ℕ → List Received → Carrier → Result Error Bytes × Carrier × List Received
read_from n [] c =
    let (p, c1) = deliver n c in
    if not (is_none c.read_buf)
    then (ok p, c1, [])
    else elim (stops c) [ some e ↦ (err e, c, []) | none ↦ (err no_more_input, c, []) ]
read_from n (received ∷ bodies) c =
    let (p, c1) = deliver n c in
    let (failed, c2) = pump received c in
    let later = read_from n bodies c2 in
    if not (is_none c.read_buf) then (ok p, c1, received ∷ bodies) else elim (stops c) [
      | some e ↦ (err e, c, received ∷ bodies)
      | none ↦ elim failed [ some e ↦ (err e, c2, bodies) | none ↦ later ]
    ]

-- The relay session is deleted over HTTP behind it.
unfoldable pub close : Carrier → Carrier
close c =
    let c1 = if c.opened then send_control (encode_frame frame_close stream_id []) c else c in
    if c.closed then c else record c1 { closed = true }
