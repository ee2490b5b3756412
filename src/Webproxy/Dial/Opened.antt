-- ===== src/Webproxy/Dial/Opened.antt =====
-- What a dial that succeeds has seen, and what a host that is no bridge for the secret leads to.
use mathlib.Core.Path.{subst}
use mtproto_checker.Common.{
  Bool, Bool-cases, Bytes, Option, Result, [], ap, err, false, inl, inr, none, ok, ok_cancel, refl,
  some, sym, true, ◌++◌, ◌⊎◌, ◌∙◌, ◌∷◌, ◌≡◌,
}
use mtproto_checker.Common.Guards.{err-ne-ok}
use mtproto_checker.Common.Text.{codes, is_empty, to_lower, trim_space}
use mtproto_checker.Mtproto.Probe.{plain_fault}
use mtproto_checker.Webproxy.Frame.{encode_frame, frame_hello}
use mtproto_checker.Webproxy.Http.{Net, Response, api_request}
use mtproto_checker.Webproxy.Steps.{Crypto, Failure, failure, give, stage_bridge, stage_session}
use mtproto_checker.Webproxy.Upgrade.{Socket, dial_web_socket}
use mtproto_checker.Webproxy.Upgrade.Accepted.{IsUpgraded, dial_web_socket-IsUpgraded, next-ok}
use mtproto_checker.Webproxy.Websocket.{max_body_bytes}
use mtproto_checker.Webproxy.Dial.{
  Dialled, Page, ask, bridge_request, capability, carrier_of, create_session, dial, fetch_bridge,
  no_token, open_carrier, read_bridge, read_session,
}
use mtproto_checker.Webproxy.Dial.Answers.{
  IsBridge, IsSession, read_bridge-IsBridge, read_bridge-no_token, read_session-IsSession,
}

module _ {W : Type 0} (net : Net W) (page : Page) (crypto : Crypto) (socket : Socket W) where
  -- What was asked and seen, in order: the page of the bridge for the capability, a session for its
  -- token, and for a WebSocket the upgrade.
  pub record IsOpened (host secret : Bytes) (w : W) (d : Dialled) (w' : W) : Type 0 where
    pub token : Bytes
    pub first : Response
    pub second : Response
    pub w1 : W
    pub w2 : W
    pub page_came :
        ask net page stage_bridge
          (bridge_request net page (codes "https://" ++ host) (capability crypto host secret))
          w
        ≡ (ok first, w1)
    pub bridge : IsBridge page first token
    pub session_came :
        ask net page stage_session
          (api_request
            (codes "https://" ++ host)
            (codes "POST")
            (codes "/api/v1/session")
            token
            (some (encode_frame frame_hello 0 (1 ∷ []))))
          w1
        ≡ (ok second, w2)
    pub created : IsSession second d.session
    pub mode_known : carrier_of d.mode ≡ some (d.socket, d.lanes)
    pub upgraded :
        (d.socket ≡ false)
        ⊎ IsUpgraded crypto page.quote page.itoa socket host
            (codes "https://" ++ host)
            d.session
            d.mode
            w2
            w'

  fetch_bridge-ok :
      (origin cap : Bytes) (w : W) (r : Bytes × Bytes) (w' : W)
      → fetch_bridge net page origin cap w ≡ (ok r, w')
      → (resp : Response) × (ask net page stage_bridge (bridge_request net page origin cap) w
          ≡ (ok resp, w'))
        × IsBridge page resp r.0
  unfolding fetch_bridge
  fetch_bridge-ok origin cap w r w' e =
      let (got, w1) = ask net page stage_bridge (bridge_request net page origin cap) w in
      let (resp, came, e1) = next-ok (λ resp. give (read_bridge page resp)) got w1 r w' e in
      let read = ap (λ (k : Result Failure (Bytes × Bytes) × W). k.0) e1 in
      let moved = ap (λ (k : Result Failure (Bytes × Bytes) × W). k.1) e1 in
      (resp, λ i. (came i, moved i), read_bridge-IsBridge page resp r read)

  open_carrier-ok :
      (host origin : Bytes) (s : Bytes × Bytes) (kind : Option (Bool × Bool)) (w : W) (d : Dialled)
      (w' : W)
      → open_carrier net page crypto socket host origin s kind w ≡ (ok d, w')
      → (d.session ≡ s.0)
        × (d.mode ≡ s.1)
        × (kind ≡ some (d.socket, d.lanes))
        × ((d.socket ≡ false)
            ⊎ IsUpgraded crypto page.quote page.itoa socket host origin d.session d.mode w w')
  unfolding open_carrier
  open_carrier-ok host origin s none w d w' e =
      absurd (err-ne-ok (ap (λ (k : Result Failure Dialled × W). k.0) e))
  open_carrier-ok host origin s (some (false, lanes)) w d w' e =
      let same = ok_cancel _ d (ap (λ (k : Result Failure Dialled × W). k.0) e) in
      let plain : false ≡ d.socket = ap (λ (k : Dialled). k.socket) same in
      (
        sym (ap (λ (k : Dialled). k.session) same),
        sym (ap (λ (k : Dialled). k.mode) same),
        ap (λ (k : Dialled). some (k.socket, k.lanes)) same,
        inl (sym plain),
      )
  open_carrier-ok host origin s (some (true, lanes)) w d w' e =
      let dialled =
        λ (a b : Bytes). dial_web_socket crypto page.quote page.itoa socket host origin a b w in
      let up = dialled s.0 s.1 in
      let d' : Dialled = record { session = s.0; mode = s.1; socket = true; lanes = lanes } in
      let (u, done, e1) = next-ok (λ u. give (ok d')) up.0 up.1 d w' e in
      let same = ok_cancel d' d (ap (λ (k : Result Failure Dialled × W). k.0) e1) in
      let moved = ap (λ (k : Result Failure Dialled × W). k.1) e1 in
      (
        sym (ap (λ (k : Dialled). k.session) same),
        sym (ap (λ (k : Dialled). k.mode) same),
        ap (λ (k : Dialled). some (k.socket, k.lanes)) same,
        inr (
            dial_web_socket-IsUpgraded crypto page.quote page.itoa socket host origin d.session
              d.mode w w'
              (subst (λ (k : Dialled). dialled k.session k.mode ≡ (ok tt, w')) same
                (λ i. (done i, moved i)))),
      )

  create_session-ok :
      (origin : Bytes) (b : Bytes × Bytes) (w : W) (r : Bytes × Bytes) (w' : W)
      → create_session net page origin b w ≡ (ok r, w')
      → (resp : Response) × (ask net page stage_session
            (api_request origin
              (codes "POST")
              (codes "/api/v1/session")
              b.0
              (some (encode_frame frame_hello 0 (1 ∷ []))))
            w
          ≡ (ok resp, w'))
        × IsSession resp r.0
  unfolding create_session
  create_session-ok origin b w r w' e =
      let got =
        ask net page stage_session
          (api_request origin (codes "POST") (codes "/api/v1/session") b.0
            (some (encode_frame frame_hello 0 (1 ∷ []))))
          w in
      let (resp, came, e1) =
        next-ok (λ resp. give (read_session page b.1 resp)) got.0 got.1 r w' e in
      let read = ap (λ (k : Result Failure (Bytes × Bytes) × W). k.0) e1 in
      let moved = ap (λ (k : Result Failure (Bytes × Bytes) × W). k.1) e1 in
      (resp, λ i. (came i, moved i), read_session-IsSession page b.1 resp r read)

  -- A dial that succeeds has asked the host, in lower case, for the page of the bridge under the
  -- capability of the secret, and the page gave a token; it has asked for a session with that token,
  -- and the answer named one and was one WELCOME frame; the mode is one of the four that the code
  -- knows, and where it is a WebSocket's, the host was asked for an upgrade, and its answer switched
  -- protocols with the digest of the key and the subprotocol of the session.
  pub dial-IsOpened :
      (raw secret : Bytes) (w : W) (d : Dialled) (w' : W)
      → dial net page crypto socket raw secret w ≡ (ok d, w')
      → IsOpened (to_lower (trim_space raw)) secret w d w'
  unfolding dial
  dial-IsOpened raw secret w d w' e =
      let host = to_lower (trim_space raw) in
      let origin : Bytes = codes "https://" ++ host in
      let one = fetch_bridge net page origin (capability crypto host secret) w in
      elim (Bool-cases (is_empty host)) [
        | inl missing ↦
            absurd (err-ne-ok (ap (λ (k : Result Failure Dialled × W). k.0) (rw missing at e)))
        | inr given ↦
            let rest = rw given at e in
            let (b, got1, e1) = next-ok _ one.0 one.1 d w' rest in
            let two = create_session net page origin b one.1 in
            let (s, got2, e2) = next-ok _ two.0 two.1 d w' e1 in
            let (first, came1, bridge) =
              fetch_bridge-ok origin (capability crypto host secret) w b one.1
                (λ i. (got1 i, one.1)) in
            let (second, came2, created) =
              create_session-ok origin b one.1 s two.1 (λ i. (got2 i, two.1)) in
            let (same, named, kind, up) =
              open_carrier-ok host origin s (carrier_of s.1) two.1 d w' e2 in
            record {
              token = b.0;
              first = first;
              second = second;
              w1 = one.1;
              w2 = two.1;
              page_came = came1;
              bridge = bridge;
              session_came = came2;
              created = subst (λ k. IsSession second k) (sym same) created;
              mode_known = ap carrier_of named ∙ kind;
              upgraded = up;
            }
      ]

  -- A host that answers the bridge request with a page that holds no token, as it does where the
  -- capability is of another secret, fails the dial at the bridge, with the text by which it is told
  -- from other failures.
  pub dial-no_token :
      (raw secret body : Bytes) (resp : Response) (w w1 : W)
      → is_empty (to_lower (trim_space raw)) ≡ false
      → ask net page stage_bridge
          (bridge_request net page
            (codes "https://" ++ to_lower (trim_space raw))
            (capability crypto (to_lower (trim_space raw)) secret))
          w
        ≡ (ok resp, w1)
      → resp.read max_body_bytes ≡ ok body
      → resp.status_code ≡ 200
      → page.bootstrap body ≡ none
      → dial net page crypto socket raw secret w
        ≡ (err (failure stage_bridge (plain_fault no_token)), w1)
  unfolding dial fetch_bridge
  dial-no_token raw secret body resp w w1 given came read good none_there =
      rw (given, came, read_bridge-no_token page resp body read good none_there) refl
