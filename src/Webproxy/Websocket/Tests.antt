-- ===== src/Webproxy/Websocket/Tests.antt =====
-- A short message.
use mtproto_checker.Common.{Bytes, [], arith, none, ok, refl, some, ◌++◌, ◌∷◌, ◌≡◌}
use mtproto_checker.Webproxy.Websocket.{Conn, receive, send}
use mtproto_checker.Webproxy.Websocket.RoundTrip.{receive-send}

abbrev mask : Bytes
mask = 1 ∷ 2 ∷ 3 ∷ 4 ∷ []

receive-send_example :
    (sent : Conn) × (send (some mask) (5 ∷ []) (record { inbox = []; written = [] }) ≡ ok sent)
    × (receive none (record { inbox = sent.written ++ 6 ∷ []; written = [] })
        ≡ ok (5 ∷ [], record { inbox = 6 ∷ []; written = [] }))
receive-send_example =
    receive-send mask (5 ∷ []) (6 ∷ []) none [] refl (λ e. ground arith) (omega arith)
