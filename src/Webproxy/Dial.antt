-- ===== src/Webproxy/Dial.antt =====
-- `Dial` of internal/webproxy/carrier.go. HMAC, base64 and the two patterns are parameters, and so is
-- the network, in a state of type `W`. The release of what a failed dial has opened is left out.
mod Answers
pub mod Opened
pub mod Tests
use mtproto_checker.Common.{
  Bool, Bytes, List, Option, Result, [], equal, err, false, if◌then◌else◌, map, none, not, ok, some,
  true, ℕ, ◌++◌, ◌==◌, ◌||◌, ◌∷◌,
}
use mtproto_checker.Common.Text.{codes, is_empty, to_lower, trim_space}
use mtproto_checker.Mtproto.Probe.{Fault, plain_fault}
use mtproto_checker.Webproxy.Errors
use mtproto_checker.Webproxy.Carrier.{stream_id}
use mtproto_checker.Webproxy.Frame.{
  Frame, decode_frames, encode_frame, frame_hello, frame_name, frame_welcome,
}
use mtproto_checker.Webproxy.Http.{Net, Request, Response, api_request, user_agent}
use mtproto_checker.Webproxy.Websocket.{max_body_bytes}
use mtproto_checker.Webproxy.Steps.{
  Stage, Crypto, Failure, Step, behind, failure, give, next, stage_bridge, stage_session, ◌>>=◌,
}
use mtproto_checker.Webproxy.Upgrade.{Socket, dial_web_socket}

-- The first group of each pattern in a page, what is told of a frame error, and texts of Go.
pub record Page : Type 0 where
  pub bootstrap : Bytes → Option Bytes
  pub carrier : Bytes → Option Bytes
  pub describe : Errors.Error → Fault
  pub quote : Bytes → Bytes
  pub itoa : ℕ → Bytes

abbrev pub bridge_label : Bytes
bridge_label = codes "tdesktop-web-proxy-bridge-v1\n"

unfoldable pub capability : Crypto → Bytes → Bytes → Bytes
capability crypto host secret =
    crypto.base64_url (crypto.hmac_sha256 secret (bridge_label ++ to_lower host))

abbrev pub no_token : Bytes
no_token = codes "no bootstrap token in the page: the secret does not match this host"

-- The page that a bridge gives, if it is one: its token, and the mode of the carrier.
unfoldable pub read_page : Page → Bytes → Result Failure (Bytes × Bytes)
read_page page body = elim (page.bootstrap body) [
  | none ↦ err (failure stage_bridge (plain_fault no_token))
  | some token ↦ ok (token, elim (page.carrier body) [ some mode ↦ mode | none ↦ codes "https" ])
]

-- `fetchBridge`, from the answer on.
unfoldable pub read_bridge : Page → Response → Result Failure (Bytes × Bytes)
read_bridge page resp = elim (resp.read max_body_bytes) [
  | err e ↦ err (failure stage_bridge (behind (codes "reading the bridge page: ") e))
  | ok body ↦
      if resp.status_code == 200
      then read_page page body
      else err (failure stage_bridge (plain_fault (codes "bridge answered " ++ resp.status)))
]

-- The names of the frames, with commas between them.
unfoldable pub describe_frames : List Frame → Bytes
describe_frames [] = codes "nothing"
describe_frames (f ∷ []) = frame_name f.kind
describe_frames (f ∷ (g ∷ fs)) = frame_name f.kind ++ (codes ", " ++ describe_frames (g ∷ fs))

abbrev no_welcome : List Frame → Failure
no_welcome fs =
    failure stage_session (plain_fault (codes "expected WELCOME, got " ++ describe_frames fs))

-- One WELCOME frame and nothing else.
unfoldable pub check_welcome : Page → Bytes → Result Failure (Unit {0})
check_welcome page body = elim (decode_frames body) [
  | err e ↦
      err (failure stage_session (behind (codes "malformed session answer: ") (page.describe e)))
  | ok [] ↦ err (no_welcome [])
  | ok (f ∷ []) ↦ if f.kind == frame_welcome then ok tt else err (no_welcome (f ∷ []))
  | ok (f ∷ g ∷ fs) ↦ err (no_welcome (f ∷ g ∷ fs))
]

-- The token of the session, and the mode that the answer may replace.
unfoldable pub read_token : Page → Bytes → Response → Bytes → Result Failure (Bytes × Bytes)
read_token page mode resp body =
    let session = resp.header (codes "X-Session-Token") in
    let told = resp.header (codes "X-Carrier-Mode") in
    let new_mode : Bytes = if is_empty told then mode else told in
    if is_empty session
    then err (failure stage_session (plain_fault (codes "no X-Session-Token in the answer")))
    else elim (check_welcome page body) [ err e ↦ err e | ok u ↦ ok (session, new_mode) ]

-- `createSession`, from the answer on.
unfoldable pub read_session : Page → Bytes → Response → Result Failure (Bytes × Bytes)
read_session page mode resp = elim (resp.read max_body_bytes) [
  | err e ↦ err (failure stage_session (behind (codes "reading the session answer: ") e))
  | ok body ↦
      if resp.status_code == 200
      then read_token page mode resp body
      else err
          (failure stage_session (plain_fault (codes "session creation answered " ++ resp.status)))
]

-- The `switch` on the mode: whether the carrier is a WebSocket, and whether it has lanes.
unfoldable pub carrier_of : Bytes → Option (Bool × Bool)
carrier_of mode =
    if equal mode (codes "https")
    then some (false, false)
    else if equal mode (codes "https-lanes")
    then some (false, true)
    else if equal mode (codes "websocket")
    then some (true, false)
    else if equal mode (codes "websocket-lanes")
    then some (true, true)
    else none

pub record Dialled : Type 0 where
  pub session : Bytes
  pub mode : Bytes
  pub socket : Bool
  pub lanes : Bool

module _ {W : Type 0} (net : Net W) (page : Page) where
  -- One request of the stage.
  unfoldable pub ask : Stage → Request → Step W Response
  ask stage r w =
      let (got, w1) = net.send_request r w in
      elim (net.takes_url r.url) [
        | some e ↦ (err (failure stage e), w)
        | none ↦ elim got [ err e ↦ (err (failure stage e), w1) | ok resp ↦ (ok resp, w1) ]
      ]

  abbrev pub bridge_request : Bytes → Bytes → Request
  bridge_request origin cap = record {
    method = codes "GET";
    url = origin ++ (codes "/?bridge=" ++ cap);
    headers = (codes "User-Agent", user_agent) ∷ [];
    body = none;
  }

  unfoldable pub fetch_bridge : Bytes → Bytes → Step W (Bytes × Bytes)
  fetch_bridge origin cap = do
    resp ← ask stage_bridge (bridge_request origin cap)
    give (read_bridge page resp)

  unfoldable pub create_session : Bytes → Bytes × Bytes → Step W (Bytes × Bytes)
  create_session origin (bootstrap, mode) = do
    resp ← ask stage_session (
        api_request origin (codes "POST") (codes "/api/v1/session") bootstrap
          (some (encode_frame frame_hello 0 (1 ∷ []))))
    give (read_session page mode resp)

  module _ (crypto : Crypto) (socket : Socket W) where
    -- What the carrier needs before it can be used.
    unfoldable pub open_carrier :
        Bytes → Bytes → Bytes × Bytes → Option (Bool × Bool) → Step W Dialled
    open_carrier host origin (session, mode) none = give (
        err (
          failure stage_session
            (plain_fault (codes "unsupported carrier mode " ++ page.quote mode))))
    open_carrier host origin (session, mode) (some (false, lanes)) =
        give (ok (record { session = session; mode = mode; socket = false; lanes = lanes }))
    open_carrier host origin (session, mode) (some (true, lanes)) = do
      _ ← dial_web_socket crypto page.quote page.itoa socket host origin session mode
      give (ok (record { session = session; mode = mode; socket = true; lanes = lanes }))

    unfoldable pub dial : Bytes → Bytes → Step W Dialled
    dial raw_host secret =
        let host = to_lower (trim_space raw_host) in
        let origin = codes "https://" ++ host in
        let steps = (do
          bridge ← fetch_bridge origin (capability crypto host secret)
          session ← create_session origin bridge
          open_carrier host origin session (carrier_of session.1)) in
        if is_empty host
        then give (err (failure stage_bridge (plain_fault (codes "missing host"))))
        else steps
