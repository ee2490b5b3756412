-- ===== src/Webproxy/Https.antt =====
-- internal/webproxy/https.go: the carrier over HTTPS, with and without lanes.
pub mod Repeated
mod Tests
use mtproto_checker.Common.{
  Bool, Bytes, List, Option, Result, [], err, false, if◌then◌else◌, length, leb, ltb, none, ok,
  some, suc, true, zero, ℕ, ◌&&◌, ◌*◌, ◌++◌, ◌+◌, ◌==◌, ◌^◌, ◌||◌, ◌∷◌,
}
use mtproto_checker.Common.Text.{atoi, codes, is_empty, negsuc, pos, ℤ}
use mtproto_checker.Mtproto.Probe.{Fault, plain_fault}
use mtproto_checker.Webproxy.Carrier.{stream_id}
use mtproto_checker.Webproxy.Http.{Net, Request, Response, api_request, with_header}
use mtproto_checker.Webproxy.Websocket.{max_body_bytes}

-- The carrier with what it reads of the one that it belongs to; `eof` is the latter's.
pub record HttpCarrier : Type 0 where
  pub origin : Bytes
  pub session : Bytes
  pub lanes : Bool
  pub up_seq : ℕ
  pub cursor : Bytes
  pub eof : Bool

abbrev pub new_http_carrier : Bytes → Bytes → Bool → HttpCarrier
new_http_carrier origin session lanes = record {
  origin = origin;
  session = session;
  lanes = lanes;
  up_seq = 0;
  cursor = codes "0";
  eof = false;
}

-- `h.upSeq++`
abbrev pub bumped : HttpCarrier → HttpCarrier
bumped h = record h { up_seq = suc h.up_seq }

abbrev seconds : ℕ
seconds = 10 ^ 9

-- `seconds > 0 && seconds <= 5`, for what Atoi gave.
abbrev pub honoured : Option ℤ → Option ℕ
honoured none = none
honoured (some (negsuc n)) = none
honoured (some (pos n)) = if ltb 0 n && leb n 5 then some n else none

-- The delay of `sleepRetry`.
unfoldable pub retry_delay : Bytes → ℕ → ℕ
retry_delay retry_after attempt = elim (honoured (atoi retry_after)) [
  | some n ↦ n * seconds
  | none ↦ (attempt + 1) * (250 * 10 ^ 6)
]

-- `fmt.Errorf("… %s: %w", resp.Status, errUnexpectedStatus)`
abbrev pub unexpected : Bytes → Bytes → Fault
unexpected before status = plain_fault (before ++ (status ++ codes ": unexpected carrier status"))

abbrev pub refused : Fault
refused = plain_fault (codes "relay kept refusing the uplink batch: unexpected carrier status")

abbrev pub add_lane : (ℕ → Bytes) → Bool → Request → Request
add_lane itoa true r = with_header (codes "X-Lane-ID") (itoa stream_id) r
add_lane itoa false r = r

-- What one try of a batch came to.
pub data Tried : Type 0 where
  taken : Tried
  busy : Bytes → Tried
  failed : Fault → Tried

-- The result of `send`, the requests that were made, and the state.
abbrev pub Sent : Type 0 → Type 0
Sent W = Result Fault (Unit {0}) × List Request × W

-- The `switch` on the status of an uplink answer.
unfoldable pub uplink_answer : Response → Tried
uplink_answer resp =
    if resp.status_code == 204 || resp.status_code == 200
    then taken
    else if resp.status_code == 503
    then busy (resp.header (codes "Retry-After"))
    else failed (unexpected (codes "uplink answered ") resp.status)

module _ (itoa : ℕ → Bytes) where
  -- The request of a batch under the sequence number `seq`.
  unfoldable pub up_request : HttpCarrier → ℕ → Bytes → Request
  up_request h seq frames = add_lane itoa h.lanes (
      with_header (codes "X-Up-Seq") (itoa seq)
        (api_request h.origin (codes "POST") (codes "/api/v1/up") h.session (some frames)))

  unfoldable pub down_request : HttpCarrier → Request
  down_request h = add_lane itoa h.lanes (
      with_header (codes "X-Down-Cursor") h.cursor
        (api_request h.origin (codes "POST") (codes "/api/v1/down") h.session none))

-- The two headers that move the carrier on.
unfoldable pub follow : Response → HttpCarrier → HttpCarrier
follow resp h =
    let cursor = resp.header (codes "X-Down-Cursor") in
    let closed : Bool = elim (resp.header (codes "X-Lane-Closed")) [
      | [] ↦ false
      | c ∷ rest ↦ c == b'1' && is_empty rest
    ] in
    record h {
      cursor = if is_empty cursor then h.cursor else cursor;
      eof = if closed then true else h.eof;
    }

module _ {W : Type 0} (net : Net W) where
  abbrev pub answered : Result Fault Response × W → Tried × W
  answered (err e, w) = (failed e, w)
  answered (ok resp, w) = (uplink_answer resp, w)

  -- One round of the loop up to the `switch`.
  unfoldable pub try_once : Request → W → Tried × W
  try_once r w = answered (net.send_request r w)

  -- What the loop does behind a pause; `again` is its next round.
  unfoldable pub after_pause : (W → Sent W) → Request → Bool × W → Sent W
  after_pause again r (true, w) = let rest = again w in (rest.0, r ∷ rest.1, rest.2)
  after_pause again r (false, w) = (err (net.ctx_err w), r ∷ [], w)

  unfoldable pub after_try : (W → Sent W) → ℕ → Request → Tried × W → Sent W
  after_try again attempt r (taken, w) = (ok tt, r ∷ [], w)
  after_try again attempt r (failed e, w) = (err e, r ∷ [], w)
  after_try again attempt r (busy after, w) =
      after_pause again r (net.sleep (retry_delay after attempt) w)

  -- The loop with `left` rounds to go.
  unfoldable pub send_from : ℕ → ℕ → Request → W → Sent W
  send_from zero attempt r w = (err refused, [], w)
  send_from (suc left) attempt r w =
      after_try (send_from left (suc attempt) r) attempt r (try_once r w)

  -- The `switch` on the status of a downlink answer; a busy relay is waited for, and gives nothing.
  unfoldable pub downlink_answer : Response → Bytes → W → Result Fault Bytes × W
  downlink_answer resp body w =
      if resp.status_code == 200 || resp.status_code == 204
      then (ok body, w)
      else if resp.status_code == 503
      then (let (slept, w1) = net.sleep (retry_delay (resp.header (codes "Retry-After")) 0) w in
          if slept then (ok [], w1) else (err (net.ctx_err w1), w1))
      else (err (unexpected (codes "downlink answered ") resp.status), w)

  abbrev pub received :
      HttpCarrier → Result Fault Response × W → HttpCarrier × (Result Fault Bytes × W)
  received h (err e, w) = (h, (err e, w))
  received h (ok resp, w) = elim (resp.read max_body_bytes) [
    | err e ↦ (h, (err e, w))
    | ok body ↦ (follow resp h, downlink_answer resp body w)
  ]

module _ {W : Type 0} (net : Net W) (itoa : ℕ → Bytes) where
  -- `send`: the URL is the same in every round, so what NewRequest says of it is asked once.
  unfoldable pub send : HttpCarrier → Bytes → W → HttpCarrier × Sent W
  send h frames w =
      let h1 = bumped h in
      let r = up_request itoa h1 h1.up_seq frames in
      let sent = send_from net 4 0 r w in
      if length frames == 0
      then (h, (ok tt, [], w))
      else elim (net.takes_url r.url) [ some e ↦ (h1, (err e, [], w)) | none ↦ (h1, sent) ]

  unfoldable pub receive : HttpCarrier → W → HttpCarrier × (Result Fault Bytes × W)
  receive h w =
      let r = down_request itoa h in
      elim (net.takes_url r.url) [
        | some e ↦ (h, (err e, w))
        | none ↦ received net h (net.send_request r w)
      ]
