-- ===== src/Webproxy/Upgrade/Accepted.antt =====
-- What an upgrade that succeeds has seen.
use mtproto_checker.Common.{
  ==_iff, Bool-cases, Bytes, Result, ap, equal, equal_iff, err, inl, inr, ok, ok_cancel, [], refl,
  ℕ, ◌==◌, ◌∙◌, ◌≡◌,
}
use mtproto_checker.Common.Guards.{err-ne-ok}
use mtproto_checker.Common.Text.{codes}
use mtproto_checker.Mtproto.Probe.{Fault}
use mtproto_checker.Webproxy.Http.{Response}
use mtproto_checker.Webproxy.Steps.{Crypto, Failure, Step, next}
use mtproto_checker.Webproxy.Upgrade.{
  Socket, accept_key, check_upgrade, dial_web_socket, or_fail, subprotocol, upgrade_request,
}

pub next-ok :
    {W A B : Type 0} (f : A → Step W B) (r : Result Failure A) (w : W) (b : B) (w' : W)
    → next f (r, w) ≡ (ok b, w')
    → (a : A) × (r ≡ ok a) × (f a w ≡ (ok b, w'))
next-ok f (ok a) w b w' e = (a, refl, e)
next-ok f (err x) w b w' e = cc

or_fail-ok :
    {W A : Type 0} (text : Bytes) (r : Result Fault A × W) (a : A)
    → (or_fail text r).0 ≡ ok a
    → r ≡ (ok a, (or_fail text r).1)
or_fail-ok text (ok x, w) a e = λ i. (ok (ok_cancel x a e i), w)
or_fail-ok text (err x, w) a e = absurd (err-ne-ok e)

-- The relay switched protocols: it echoed the subprotocol, and answered the key with its digest.
pub record IsUpgrade (crypto : Crypto) (nonce protocol : Bytes) (resp : Response) : Type 0 where
  pub switched : resp.status_code ≡ 101
  pub accepted : resp.header (codes "Sec-WebSocket-Accept") ≡ accept_key crypto nonce
  pub echoed : resp.header (codes "Sec-WebSocket-Protocol") ≡ protocol

check_upgrade-IsUpgrade :
    (crypto : Crypto) (quote : Bytes → Bytes) (nonce protocol : Bytes) (resp : Response)
    (u : Unit {0})
    → check_upgrade crypto quote nonce protocol resp ≡ ok u
    → IsUpgrade crypto nonce protocol resp
unfolding check_upgrade
check_upgrade-IsUpgrade crypto quote nonce protocol resp u e =
    let digest = equal (resp.header (codes "Sec-WebSocket-Accept")) (accept_key crypto nonce) in
    let echo = equal (resp.header (codes "Sec-WebSocket-Protocol")) protocol in
    elim (Bool-cases (resp.status_code == 101)) [
      | inr other ↦ absurd (err-ne-ok (rw (check_upgrade, other) at e))
      | inl switched ↦ elim (Bool-cases digest) [
        | inr wrong ↦ absurd (err-ne-ok (rw (check_upgrade, switched, wrong) at e))
        | inl right ↦ elim (Bool-cases echo) [
          | inr wrong ↦ absurd (err-ne-ok (rw (check_upgrade, switched, right, wrong) at e))
          | inl same ↦ record {
            switched = (==_iff resp.status_code 101).0 switched;
            accepted = (equal_iff _ _).0 right;
            echoed = (equal_iff _ _).0 same;
          }
        ]
      ]
    ]

module _ {W : Type 0} (crypto : Crypto) (quote : Bytes → Bytes) (itoa : ℕ → Bytes)
    (socket : Socket W) where
  -- The host was connected to over TLS, a key was drawn, the request for it was written, and the answer
  -- is an upgrade.
  pub record IsUpgraded (host origin session mode : Bytes) (w w' : W) : Type 0 where
    pub connected : W
    pub key : Bytes
    pub resp : Response
    pub drawn : W
    pub keyed : W
    pub asked : W
    pub dialled : socket.connect host w ≡ (ok tt, connected)
    pub secured : socket.shake_hands host connected ≡ (ok tt, drawn)
    pub key_came : socket.key drawn ≡ (ok key, keyed)
    pub written :
        socket.write
          (upgrade_request host origin (crypto.base64_std key) (subprotocol itoa session mode))
          keyed
        ≡ (ok tt, asked)
    pub came : socket.read_response asked ≡ (ok resp, w')
    pub upgrade : IsUpgrade crypto (crypto.base64_std key) (subprotocol itoa session mode) resp

  pub dial_web_socket-IsUpgraded :
      (host origin session mode : Bytes) (w w' : W)
      → dial_web_socket crypto quote itoa socket host origin session mode w ≡ (ok tt, w')
      → IsUpgraded host origin session mode w w'
  unfolding dial_web_socket
  dial_web_socket-IsUpgraded host origin session mode w w' e =
      let one = or_fail [] (socket.connect host w) in
      let (c, met, e1) = next-ok _ one.0 one.1 tt w' e in
      let two = or_fail (codes "TLS handshake: ") (socket.shake_hands host one.1) in
      let (v, shook, e2) = next-ok _ two.0 two.1 tt w' e1 in
      let three = or_fail [] (socket.key two.1) in
      let (key, drew, e3) = next-ok _ three.0 three.1 tt w' e2 in
      let nonce = crypto.base64_std key in
      let protocol = subprotocol itoa session mode in
      let four = or_fail [] (socket.write (upgrade_request host origin nonce protocol) three.1) in
      let (u, wrote, e4) = next-ok _ four.0 four.1 tt w' e3 in
      let five = or_fail (codes "reading the upgrade answer: ") (socket.read_response four.1) in
      let (resp, read, e5) = next-ok _ five.0 five.1 tt w' e4 in
      record {
        key = key;
        resp = resp;
        connected = one.1;
        drawn = two.1;
        dialled = or_fail-ok [] (socket.connect host w) c met;
        secured = or_fail-ok (codes "TLS handshake: ") (socket.shake_hands host one.1) v shook;
        keyed = three.1;
        asked = four.1;
        key_came = or_fail-ok [] (socket.key two.1) key drew;
        written =
            or_fail-ok [] (socket.write (upgrade_request host origin nonce protocol) three.1) u
              wrote;
        came =
            or_fail-ok (codes "reading the upgrade answer: ") (socket.read_response four.1) resp
              read
            ∙ ap (λ k. (ok resp, k.1)) e5;
        upgrade = check_upgrade-IsUpgrade crypto quote nonce protocol resp tt (ap (λ k. k.0) e5);
      }
