-- ===== src/Mtproto/Probes/Rejected.antt =====
-- When a probe of a WEB proxy succeeds, and that a wrong secret ends it at once.
use mtproto_checker.Common.{
  Bool-cases, Result-cases, Bytes, List, Option, Option-cases, Result, [], ap, err, false, inl, inr,
  none, ok, ok_cancel, refl, some, sym, take, ◌++◌, ◌∙◌, ◌∷◌, ◌≡◌,
}
use mtproto_checker.Common.Guards.{err-ne-ok}
use mtproto_checker.Common.Text.{codes, contains, has_prefix, is_empty, to_lower, trim_space}
use mtproto_checker.Proxy.Link.{Target}
use mtproto_checker.Proxy.Secret.{SecretMode, mode_fake_tls, mode_none, mode_plain, mode_secure}
use mtproto_checker.Mtproto.Probe.{
  Candidate, Depth, Failure, Fault, StageResults, fail_as, is_final, kind_secret_rejected,
  plain_fault, stage_handshake,
}
use mtproto_checker.Mtproto.Probes.{
  Route, attempt_web_proxy, is_secret_rejection, name_of, over_carrier, shaken, probe_web_proxy,
  web_order, web_proxy_error, web_proxy_from,
}
use mtproto_checker.Mtproto.Transport.{Transport, abridged, intermediate, padded_intermediate}
use mtproto_checker.Webproxy.Dial.{Dialled, Page, ask, bridge_request, capability, dial, no_token}
use mtproto_checker.Webproxy.Dial.Opened.{IsOpened, dial-IsOpened, dial-no_token}
use mtproto_checker.Webproxy.Http.{Net, Response}
use mtproto_checker.Webproxy.Steps
use mtproto_checker.Webproxy.Upgrade.{Socket}
use mtproto_checker.Webproxy.Websocket.{max_body_bytes}

no_token-rejected :
    web_proxy_error (Steps.failure Steps.stage_bridge (plain_fault no_token))
    ≡ fail_as stage_handshake kind_secret_rejected (plain_fault no_token)
unfolding web_proxy_error is_secret_rejection contains has_prefix
no_token-rejected = refl

module _ {W Nearest Config Speed Stability Stats : Type 0} (depth : Depth) (net : Net W)
    (page : Page) (crypto : Steps.Crypto) (socket : Socket W)
    (shake : Dialled
      → Candidate
      → W
      → Result Failure (StageResults Nearest Config Speed Stability Stats) × W)
    (ended : W → Option Fault) where
  attempt_web_proxy-no_token :
      (t : Target) (cand : Candidate) (body : Bytes) (resp : Response) (w w1 : W)
      → is_empty (to_lower (trim_space t.host)) ≡ false
      → ask net page Steps.stage_bridge
          (bridge_request net page
            (codes "https://" ++ to_lower (trim_space t.host))
            (capability crypto (to_lower (trim_space t.host)) t.secret_bytes))
          w
        ≡ (ok resp, w1)
      → resp.read max_body_bytes ≡ ok body
      → resp.status_code ≡ 200
      → page.bootstrap body ≡ none
      → attempt_web_proxy depth net page crypto socket shake ended t cand w
        ≡ (err (fail_as stage_handshake kind_secret_rejected (plain_fault no_token)), w1)
  unfolding attempt_web_proxy
  attempt_web_proxy-no_token t cand body resp w w1 given came read good none_there =
      rw
        (
          attempt_web_proxy,
          dial-no_token net page crypto socket t.host t.secret_bytes body resp w w1 given came read
              good none_there,
          no_token-rejected,
        )
        refl

  -- A WEB proxy whose host answers the bridge request for the target's secret with a page that holds no
  -- token, as it does where the secret is another, ends the probe as a rejected secret: no other
  -- framing is tried, and the network is left where that one answer left it.
  pub probe_web_proxy-no_token :
      (t : Target) (mode : SecretMode) (body : Bytes) (resp : Response) (w w1 : W)
      → is_empty (to_lower (trim_space t.host)) ≡ false
      → ask net page Steps.stage_bridge
          (bridge_request net page
            (codes "https://" ++ to_lower (trim_space t.host))
            (capability crypto (to_lower (trim_space t.host)) t.secret_bytes))
          w
        ≡ (ok resp, w1)
      → resp.read max_body_bytes ≡ ok body
      → resp.status_code ≡ 200
      → page.bootstrap body ≡ none
      → probe_web_proxy depth net page crypto socket shake ended t mode w
        ≡ (err (fail_as stage_handshake kind_secret_rejected (plain_fault no_token)), w1)
  unfolding probe_web_proxy web_proxy_from is_final
  probe_web_proxy-no_token t mode body resp w w1 given came read good none_there =
      elim mode
        as (λ m.
          probe_web_proxy depth net page crypto socket shake ended t m w
          ≡ (err (fail_as stage_handshake kind_secret_rejected (plain_fault no_token)), w1)) [
            | mode_plain ↦ first intermediate (abridged ∷ [])
            | mode_none ↦ first intermediate (abridged ∷ [])
            | mode_fake_tls ↦ first intermediate (abridged ∷ [])
            | mode_secure ↦ first padded_intermediate (intermediate ∷ [])
          ]
    where
      first :
          (framing : Transport) (rest : List Transport)
          → web_proxy_from depth net page crypto socket shake ended t (framing ∷ rest) [] none w
            ≡ (err (fail_as stage_handshake kind_secret_rejected (plain_fault no_token)), w1)
      first framing rest =
          let bad =
            attempt_web_proxy-no_token t (record { dc = 2; framing = framing }) body resp w w1 given
              came read good none_there in
          rw (web_proxy_from, ap (λ k. k.0) bad, ap (λ k. k.1) bad) refl

  -- One of the framings was tried from a state of the network: the dial opened a carrier, and the
  -- handshake over it gave the results, which the route names.
  pub record IsServed (t : Target) (o : Route × StageResults Nearest Config Speed Stability Stats)
      (w' : W) : Type 0 where
    pub cand : Candidate
    pub before : W
    pub between : W
    pub carrier : Dialled
    pub opened :
        IsOpened net page crypto socket
          (to_lower (trim_space t.host))
          t.secret_bytes
          before
          carrier
          between
    pub shaken : shake carrier cand between ≡ (ok o.1, w')
    pub via : o.0.via ≡ carrier.mode
    pub framing : o.0.transport ≡ name_of cand.framing

  shaken-ok :
      (cand : Candidate) (d : Dialled)
      (r : Result Failure (StageResults Nearest Config Speed Stability Stats) × W)
      (o : Route × StageResults Nearest Config Speed Stability Stats) (w' : W)
      → shaken depth net page crypto socket shake ended cand d r ≡ (ok o, w')
      → (r ≡ (ok o.1, w')) × (o.0.via ≡ d.mode) × (o.0.transport ≡ name_of cand.framing)
  shaken-ok cand d (err e, w) o w' h = absurd (err-ne-ok (ap (λ k. k.0) h))
  shaken-ok cand d (ok stages, w) o w' h =
      let same = ok_cancel _ o (ap (λ k. k.0) h) in
      let moved = ap (λ k. k.1) h in
      (
        λ i. (ok (same i).1, moved i),
        sym (ap (λ k. k.0.via) same),
        sym (ap (λ k. k.0.transport) same),
      )

  attempt_web_proxy-IsServed :
      (t : Target) (cand : Candidate) (w : W)
      (o : Route × StageResults Nearest Config Speed Stability Stats) (w' : W)
      → attempt_web_proxy depth net page crypto socket shake ended t cand w ≡ (ok o, w')
      → IsServed t o w'
  unfolding attempt_web_proxy
  attempt_web_proxy-IsServed t cand w o w' e =
      go (dial net page crypto socket t.host t.secret_bytes w) refl e
    where
      go :
          (r : Result Steps.Failure Dialled × W)
          → dial net page crypto socket t.host t.secret_bytes w ≡ r
          → over_carrier depth net page crypto socket shake ended cand r ≡ (ok o, w')
          → IsServed t o w'
      go (err x, w1) d h = absurd (err-ne-ok (ap (λ k. k.0) h))
      go (ok carrier, w1) d h =
          let (shook, via, framing) = shaken-ok cand carrier (shake carrier cand w1) o w' h in
          record {
            cand = cand;
            before = w;
            between = w1;
            carrier = carrier;
            opened = dial-IsOpened net page crypto socket t.host t.secret_bytes w carrier w1 d;
            shaken = shook;
            via = via;
            framing = framing;
          }

  web_proxy_from-IsServed :
      (t : Target) (trs : List Transport) (problems : List Bytes) (last : Option Failure) (w : W)
      (o : Route × StageResults Nearest Config Speed Stability Stats) (w' : W)
      → web_proxy_from depth net page crypto socket shake ended t trs problems last w ≡ (ok o, w')
      → IsServed t o w'
  unfolding web_proxy_from
  web_proxy_from-IsServed t [] problems last w o w' e = absurd (err-ne-ok (ap (λ k. k.0) e))
  web_proxy_from-IsServed t (framing ∷ rest) problems last w o w' e =
      let cand : Candidate = record { dc = 2; framing = framing } in
      let tried = attempt_web_proxy depth net page crypto socket shake ended t cand w in
      elim (Result-cases tried.0) [
        | inl (got, good) ↦
            attempt_web_proxy-IsServed t cand w o w'
              ((λ i. (good i, tried.1)) ∙ rw (web_proxy_from, good) at e)
        | inr (x, bad) ↦ elim (Bool-cases (is_final x)) [
          | inl last_word ↦
              absurd (err-ne-ok (ap (λ k. k.0) (rw (web_proxy_from, bad, last_word) at e)))
          | inr goes_on ↦ elim (Option-cases (ended tried.1)) [
            | inr (y, over) ↦
                absurd (err-ne-ok (ap (λ k. k.0) (rw (web_proxy_from, bad, goes_on, over) at e)))
            | inl going ↦
                web_proxy_from-IsServed t rest
                  (problems ++ ((name_of framing ++ (codes ": " ++ x.fault.text)) ∷ [])) (some x)
                  tried.1 o w' (rw (web_proxy_from, bad, goes_on, going) at e)
          ]
        ]
      ]

  -- A probe of a WEB proxy that succeeds has dialled it with the secret of the target, which opened a
  -- carrier, and the handshake over that carrier succeeded; the route names the mode of the carrier and
  -- the framing.
  pub probe_web_proxy-IsServed :
      (t : Target) (mode : SecretMode) (w : W)
      (o : Route × StageResults Nearest Config Speed Stability Stats) (w' : W)
      → probe_web_proxy depth net page crypto socket shake ended t mode w ≡ (ok o, w')
      → IsServed t o w'
  unfolding probe_web_proxy
  probe_web_proxy-IsServed t mode w o w' e =
      web_proxy_from-IsServed t (take 2 (web_order mode)) [] none w o w' e
