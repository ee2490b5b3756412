-- ===== src/Mtproto/Probes/Tests.antt =====
-- A WEB proxy that opens a carrier for the target's secret, and one that does not.
use mtproto_checker.Common.{Bytes, Option, Result, [], none, err, equal, ok, refl, ℕ, suc, ◌∷◌, ◌≡◌}
use mtproto_checker.Common.Text.{codes, pos}
use mtproto_checker.Common.Text
use mtproto_checker.Mtproto.Probes
use mtproto_checker.Webproxy.Frame
use mtproto_checker.Webproxy.Http
use mtproto_checker.Webproxy.Upgrade
use mtproto_checker.Proxy.Link.{Target, new_target, web_proxy}
use mtproto_checker.Proxy.Secret.{mode_plain}
use mtproto_checker.Mtproto.Probe.{
  Candidate, Failure, Fault, StageResults, fail_as, full, kind_secret_rejected, plain_fault,
  stage_handshake,
}
use mtproto_checker.Mtproto.Probes.{Route, base, probe_web_proxy, route_text}
use mtproto_checker.Mtproto.Probes.Rejected.{
  IsServed, probe_web_proxy-IsServed, probe_web_proxy-no_token,
}
use mtproto_checker.Webproxy.Dial
use mtproto_checker.Webproxy.Dial.Tests

abbrev target : Bytes → Target
target secret = record (new_target [] web_proxy (codes "H") 443 [] [] [] []) {
  secret_bytes = secret;
}

abbrev Results : Type 0
Results = StageResults (Unit {0}) (Unit {0}) (Unit {0}) (Unit {0}) (Unit {0})

abbrev results : Results
results = record {
  skew = pos 3;
  respq = 7;
  ping = tt;
  nearest = none;
  config = none;
  speed = none;
  stability = none;
}

abbrev shake : Dial.Dialled → Candidate → ℕ → Result Failure Results × ℕ
shake d cand w = (ok results, suc w)

abbrev never : ℕ → Option Fault
never w = none

abbrev found : Route
found = record {
  protocol = codes "webproxy";
  dc = 2;
  transport = codes "intermediate";
  via = codes "websocket";
  depth = full;
  server_time_skew = pos 3;
}

found_test : route_text (λ n. 50 ∷ []) found ≡ codes "webproxy -> websocket +authkey"
unfolding route_text base
found_test = refl

probe_web_proxy-IsServed_example :
    IsServed full Tests.net Tests.page Tests.crypto Tests.socket shake never
      (target (codes "key"))
      (found, results)
      7
unfolding probe_web_proxy Probes.web_proxy_from Probes.attempt_web_proxy Dial.dial Text.trim_right
    Text.trim_left Text.is_space Text.lower equal Dial.fetch_bridge Dial.ask Dial.read_bridge
    Dial.capability Dial.read_page Dial.create_session Dial.read_session Http.api_request
    Dial.read_token Dial.check_welcome Dial.carrier_of Dial.open_carrier Frame.decode_frames
    Frame.decode_frames_loop Frame.encode_frame Frame.next_frame Upgrade.accept_key
    Upgrade.check_upgrade Upgrade.dial_web_socket Upgrade.join_lines Upgrade.subprotocol
    Upgrade.upgrade_request
probe_web_proxy-IsServed_example =
    probe_web_proxy-IsServed full Tests.net Tests.page Tests.crypto Tests.socket shake never
      (target (codes "key")) mode_plain 0 (found, results) 7 refl

probe_web_proxy-no_token_example :
    probe_web_proxy full Tests.net Tests.page Tests.crypto Tests.socket shake never
      (target (codes "other"))
      mode_plain
      0
    ≡ (err (fail_as stage_handshake kind_secret_rejected (plain_fault Dial.no_token)), 1)
unfolding Text.trim_right Text.trim_left Text.is_space Text.lower equal Dial.ask Dial.capability
probe_web_proxy-no_token_example =
    probe_web_proxy-no_token full Tests.net Tests.page Tests.crypto Tests.socket shake never
      (target (codes "other")) mode_plain (codes "index")
      (Tests.answer Tests.no_header 200 (codes "index")) 0 1 refl refl refl refl refl
