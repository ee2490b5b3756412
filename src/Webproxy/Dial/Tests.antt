-- ===== src/Webproxy/Dial/Tests.antt =====
-- A bridge that gives a token and creates a session over a WebSocket, and a host that is none.
use mtproto_checker.Common.{
  Bytes, [], equal, err, false, if◌then◌else◌, none, ok, refl, some, true, ℕ, suc, ◌∷◌, ◌≡◌,
}
use mtproto_checker.Common.Text.{codes, to_lower, trim_space}
use mtproto_checker.Common.Text
use mtproto_checker.Webproxy.Dial
use mtproto_checker.Webproxy.Frame
use mtproto_checker.Webproxy.Http
use mtproto_checker.Webproxy.Upgrade
use mtproto_checker.Mtproto.Probe.{plain_fault}
use mtproto_checker.Webproxy.Frame.{encode_frame, frame_welcome}
use mtproto_checker.Webproxy.Http.{Net, Response}
use mtproto_checker.Webproxy.Steps.{Crypto, failure, stage_bridge}
use mtproto_checker.Webproxy.Upgrade.{Socket}
use mtproto_checker.Webproxy.Dial.{Dialled, Page, dial, no_token}
use mtproto_checker.Webproxy.Dial.Opened

abbrev pub no_header : Bytes → Bytes
no_header name = []

abbrev pub answer : (Bytes → Bytes) → ℕ → Bytes → Response
answer header code body = record {
  status_code = code;
  status = codes "OK";
  header = header;
  read = λ n. ok body;
}

abbrev session_header : Bytes → Bytes
session_header name =
    if equal name (codes "X-Session-Token")
    then codes "s1"
    else if equal name (codes "X-Carrier-Mode")
    then codes "websocket"
    else []

abbrev pub crypto : Crypto
crypto = record {
  hmac_sha256 = λ key text. key;
  sha1 = λ text. 7 ∷ [];
  base64_url = λ b. b;
  base64_std = λ b. b;
}

abbrev upgrade_header : Bytes → Bytes
upgrade_header name =
    if equal name (codes "Sec-WebSocket-Accept")
    then 7 ∷ []
    else if equal name (codes "Sec-WebSocket-Protocol")
    then codes "tproxy-v1.s1"
    else []

abbrev pub page : Page
page = record {
  bootstrap = λ body. if equal body (codes "bridge") then some (codes "t1") else none;
  carrier = λ body. none;
  describe = λ e. plain_fault (codes "frames");
  quote = λ b. b;
  itoa = λ n. 49 ∷ [];
}

-- The state counts the requests. A bridge shows its page where the URL ends in the capability of the
-- secret "key".
abbrev pub net : Net ℕ
net = record {
  takes_url = λ url. none;
  send_request = λ r w. (
    ok (
        if equal r.url (codes "https://h/?bridge=key")
        then answer no_header 200 (codes "bridge")
        else if equal r.url (codes "https://h/api/v1/session")
        then answer session_header 200 (encode_frame frame_welcome 0 [])
        else answer no_header 200 (codes "index")),
    suc w,
  );
  sleep = λ n w. (true, w);
  ctx_err = λ w. plain_fault (codes "ended");
}

abbrev pub socket : Socket ℕ
socket = record {
  connect = λ host w. (ok tt, suc w);
  shake_hands = λ host w. (ok tt, suc w);
  key = λ w. (ok (1 ∷ []), w);
  write = λ b w. (ok tt, suc w);
  read_response = λ w. (ok (answer upgrade_header 101 []), suc w);
}

abbrev pub opened : Dialled
opened = record { session = codes "s1"; mode = codes "websocket"; socket = true; lanes = false }

dial-IsOpened_test :
    Opened.IsOpened net page crypto socket
      (to_lower (trim_space (codes " H")))
      (codes "key")
      0
      opened
      6
unfolding dial Text.trim_right Text.trim_left Text.is_space Text.lower equal Dial.fetch_bridge
    Dial.ask Dial.read_bridge Dial.capability Dial.read_page Dial.create_session Dial.read_session
    Http.api_request Dial.read_token Dial.check_welcome Frame.decode_frames encode_frame
    Dial.carrier_of Dial.open_carrier Frame.decode_frames_loop Frame.next_frame Upgrade.accept_key
    Upgrade.check_upgrade Upgrade.dial_web_socket Upgrade.join_lines Upgrade.subprotocol
    Upgrade.upgrade_request
dial-IsOpened_test =
    Opened.dial-IsOpened net page crypto socket (codes " H") (codes "key") 0 opened 6 refl

dial-no_token_test :
    dial net page crypto socket (codes " H") (codes "other") 0
    ≡ (err (failure stage_bridge (plain_fault no_token)), 1)
unfolding dial Text.trim_right Text.trim_left Text.is_space Text.lower equal Dial.ask
    Dial.capability
dial-no_token_test =
    Opened.dial-no_token net page crypto socket (codes " H") (codes "other") (codes "index")
      (answer no_header 200 (codes "index")) 0 1 refl refl refl refl refl
