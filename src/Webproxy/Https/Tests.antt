-- ===== src/Webproxy/Https/Tests.antt =====
-- A relay that is busy once and then takes the batch.
use mtproto_checker.Common.{
  All, Bytes, [], length, none, ok, refl, true, ℕ, ◌+◌, ◌∷◌, ◌≡◌, ◌≤◌, ◌↔◌, if◌then◌else◌, ◌==◌,
}
use mtproto_checker.Common.Text.{codes}
use mtproto_checker.Mtproto.Probe.{plain_fault}
use mtproto_checker.Webproxy.Http.{Net}
use mtproto_checker.Webproxy.Https.{HttpCarrier, bumped, new_http_carrier, send, up_request}
use mtproto_checker.Webproxy.Https.Repeated.{Taken, send-IsRepeated}

-- The state counts the requests.
abbrev net : Net ℕ
net = record {
  takes_url = λ url. none;
  send_request = λ r w. (
    ok (record {
      status_code = if w == 0 then 503 else 204;
      status = [];
      header = λ name. [];
      read = λ limit. ok [];
    }),
    w + 1,
  );
  sleep = λ d w. (true, w);
  ctx_err = λ w. plain_fault [];
}

abbrev itoa : ℕ → Bytes
itoa n = n ∷ []

abbrev carrier : HttpCarrier
carrier = new_http_carrier (codes "https://a.bc") (codes "token") true

send-IsRepeated_example :
    (let r = up_request itoa (bumped carrier) 1 (1 ∷ 2 ∷ []) in
      let (h', (result, sent, w')) = send net itoa carrier (1 ∷ 2 ∷ []) 0 in
      (h' ≡ bumped carrier)
      × All (λ q. q ≡ r) sent
      × (length sent ≤ 4)
      × ((result ≡ ok tt) ↔ Taken net r 4 0 0 sent w'))
send-IsRepeated_example = send-IsRepeated net itoa carrier (1 ∷ 2 ∷ []) 0 (λ e. cc) refl
