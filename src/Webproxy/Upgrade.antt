-- ===== src/Webproxy/Upgrade.antt =====
-- `dialWebSocket` of internal/webproxy/websocket.go. The TLS connection, SHA-1 and base64 are
-- parameters, and a connection that is given up is not closed in the model.
pub mod Accepted
use mtproto_checker.Common.{
  Bytes, List, Result, [], equal, err, if◌then◌else◌, not, ok, ℕ, ◌++◌, ◌==◌, ◌∷◌,
}
use mtproto_checker.Common.Text.{codes}
use mtproto_checker.Mtproto.Probe.{Fault, plain_fault}
use mtproto_checker.Webproxy.Carrier.{stream_id}
use mtproto_checker.Webproxy.Http.{Response, user_agent}
use mtproto_checker.Webproxy.Steps.{
  Crypto, Failure, Step, behind, failure, give, stage_session, ◌>>=◌,
}

-- A TCP connection to port 443 of the host, the TLS handshake over it, what crypto/rand gives for the
-- key, writing the request, and http.ReadResponse.
pub record Socket (W : Type 0) : Type 0 where
  pub connect : Bytes → W → Result Fault (Unit {0}) × W
  pub shake_hands : Bytes → W → Result Fault (Unit {0}) × W
  pub key : W → Result Fault Bytes × W
  pub write : Bytes → W → Result Fault (Unit {0}) × W
  pub read_response : W → Result Fault Response × W

-- `failure(StageSession, …)` where a step fails, with a text in front of its error.
abbrev pub or_fail : {W A : Type 0} → Bytes → Result Fault A × W → Result Failure A × W
or_fail text (ok a, w) = (ok a, w)
or_fail text (err e, w) = (err (failure stage_session (behind text e)), w)

abbrev pub ws_guid : Bytes
ws_guid = codes "258EAFA5-E914-47DA-95CA-C5AB0DC85B11"

unfoldable pub accept_key : Crypto → Bytes → Bytes
accept_key crypto nonce = crypto.base64_std (crypto.sha1 (nonce ++ ws_guid))

unfoldable pub subprotocol : (ℕ → Bytes) → Bytes → Bytes → Bytes
subprotocol itoa session mode =
    if equal mode (codes "websocket-lanes")
    then codes "tproxy-lane-v1." ++ (session ++ (codes "." ++ itoa stream_id))
    else codes "tproxy-v1." ++ session

abbrev crlf : Bytes
crlf = 13 ∷ 10 ∷ []

-- strings.Join with CRLF, of lines of which the last two are empty.
unfoldable pub join_lines : List Bytes → Bytes
join_lines [] = crlf
join_lines (line ∷ lines) = line ++ (crlf ++ join_lines lines)

unfoldable pub upgrade_request : Bytes → Bytes → Bytes → Bytes → Bytes
upgrade_request host origin nonce protocol = join_lines (
    codes "GET /api/v1/ws HTTP/1.1"
    ∷ (codes "Host: " ++ host)
    ∷ codes "Upgrade: websocket"
    ∷ codes "Connection: Upgrade"
    ∷ (codes "Sec-WebSocket-Key: " ++ nonce)
    ∷ codes "Sec-WebSocket-Version: 13"
    ∷ (codes "Sec-WebSocket-Protocol: " ++ protocol)
    ∷ (codes "Origin: " ++ origin)
    ∷ (codes "User-Agent: " ++ user_agent)
    ∷ [])

-- The three guards on the upgrade's answer.
unfoldable pub check_upgrade :
    Crypto → (Bytes → Bytes) → Bytes → Bytes → Response → Result Failure (Unit {0})
check_upgrade crypto quote nonce protocol resp =
    let got = resp.header (codes "Sec-WebSocket-Protocol") in
    if not (resp.status_code == 101)
    then err
        (failure stage_session (plain_fault (codes "WebSocket upgrade answered " ++ resp.status)))
    else if not (equal (resp.header (codes "Sec-WebSocket-Accept")) (accept_key crypto nonce))
    then err (failure stage_session (plain_fault (codes "wrong Sec-WebSocket-Accept")))
    else if not (equal got protocol)
    then err (failure stage_session (plain_fault (codes "relay echoed subprotocol " ++ quote got)))
    else ok tt

module _ {W : Type 0} (crypto : Crypto) (quote : Bytes → Bytes) (itoa : ℕ → Bytes)
    (socket : Socket W) where
  unfoldable pub dial_web_socket : Bytes → Bytes → Bytes → Bytes → Step W (Unit {0})
  dial_web_socket host origin session mode = do
    _ ← λ w. or_fail [] (socket.connect host w)
    _ ← λ w. or_fail (codes "TLS handshake: ") (socket.shake_hands host w)
    key ← λ w. or_fail [] (socket.key w)
    let nonce = crypto.base64_std key
    let protocol = subprotocol itoa session mode
    _ ← λ w. or_fail [] (socket.write (upgrade_request host origin nonce protocol) w)
    resp ← λ w. or_fail (codes "reading the upgrade answer: ") (socket.read_response w)
    give (check_upgrade crypto quote nonce protocol resp)
