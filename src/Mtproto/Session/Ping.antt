-- ===== src/Mtproto/Session/Ping.antt =====
-- A ping that succeeds was answered.
use mtproto_checker.Common.{
  >>=-eq-ok, Bool, Bytes, Option, Result, Result-cases, false, if◌then◌else◌, inl, inr, ok,
  ok_cancel, refl, some, suc, true, zero, ℕ, ◌++◌, ◌≡◌, ◌⊎◌,
}
use mtproto_checker.Mtproto.Binary.{uint32_le_bytes}
use mtproto_checker.Mtproto.Errors.{Error}
use mtproto_checker.Mtproto.Transport.{Reader, Transport, decode}
use mtproto_checker.Mtproto.Stream.{Stream, send_raw}
use mtproto_checker.Mtproto.Session.{
  AuthKey, Crypto, Session, await_pong, contains_pong, ctor_ping, decrypt, encrypt, ping,
}
use mtproto_checker.Mtproto.Session.Authentic.{IsAuthentic, decrypt-IsAuthentic}
use mtproto_checker.Mtproto.Session.Pong.{HasPong, contains_pong-HasPong}

-- A packet that was sealed for the session's key and that holds a pong for the ping's id.
pub record IsAnswer (crypto : Crypto) (auth : AuthKey) (ping_id packet : Bytes) : Type 0 where
  pub plain : Bytes
  pub body : Bytes
  pub authentic : IsAuthentic crypto auth packet plain body
  pub pong : HasPong ping_id body

stop_or_go :
    {S : Type 0} (found : Bool) (c last : S) (rest : Result Error S)
    → (if found then ok c else rest) ≡ ok last
    → ((found ≡ true) × (c ≡ last)) ⊎ (rest ≡ ok last)
stop_or_go true c last rest e = inl (refl, ok_cancel c last e)
stop_or_go false c last rest e = inr e

module _ (crypto : Crypto) {S : Type 0} (read_full : Reader S) where
  answered :
      (s : Session) (ping_id response plain : Bytes)
      → decrypt crypto s response ≡ ok plain
      → contains_pong plain ping_id ≡ ok true
      → IsAnswer crypto s.auth ping_id response
  answered s ping_id response plain opened found =
      let (text, sealed) = decrypt-IsAuthentic crypto s response plain opened in
      record {
        plain = text;
        body = plain;
        authentic = sealed;
        pong = contains_pong-HasPong ping_id plain found;
      }

  await_pong-IsAnswer :
      (k : ℕ) (s : Session) (framing : Transport) (ping_id : Bytes) (c last : S)
      → await_pong crypto read_full k s framing ping_id c ≡ ok last
      → (before : S) × (packet : Bytes) × (decode read_full framing before ≡ ok (packet, last))
        × IsAnswer crypto s.auth ping_id packet
  unfolding await_pong
  await_pong-IsAnswer zero s framing ping_id c last e = cc
  await_pong-IsAnswer (suc k) s framing ping_id c last e =
      let ((response, c1), came, e1) = >>=-eq-ok (decode read_full framing c) _ e in
      let (plain, opened, e2) = >>=-eq-ok (decrypt crypto s response) _ e1 in
      let (found, searched, e3) = >>=-eq-ok (contains_pong plain ping_id) _ e2 in
      elim (stop_or_go found c1 last (await_pong crypto read_full k s framing ping_id c1) e3) [
        | inl (now, here) ↦
            let hit : contains_pong plain ping_id ≡ ok true = rw (searched, now) refl in
            let read_on : decode read_full framing c ≡ ok (response, last) = rw (← here) came in
            (c, response, read_on, answered s ping_id response plain opened hit)
        | inr later ↦ await_pong-IsAnswer k s framing ping_id c1 last later
      ]

  -- A ping that succeeds has been answered: one of the packets that were read was sealed for the
  -- session's key, and the body in it carries a pong for the ping's id; the caller goes on reading
  -- right behind that packet.
  pub ping-IsAnswer :
      (ping_id : Bytes) (random : ℕ → Option Bytes) (padding : Option Bytes) (id : ℕ) (s : Session)
      (str : Stream) (c last : S)
      → (ping crypto read_full (some ping_id) random padding id s str c).0 ≡ ok last
      → (before : S) × (packet : Bytes) × (decode read_full str.tr before ≡ ok (packet, last))
        × IsAnswer crypto s.auth ping_id packet
  unfolding ping encrypt
  ping-IsAnswer ping_id random padding id s str c last e =
      let (packet, s1) = encrypt crypto random id (uint32_le_bytes ctor_ping ++ ping_id) s in
      elim (Result-cases packet) [
        | inr (x, bad) ↦ let wrong = rw (ping, bad) at e in cc
        | inl (message, good) ↦ elim (Result-cases (send_raw padding message str)) [
          | inr (x, bad) ↦ let wrong = rw (ping, good, bad) at e in cc
          | inl (str1, sent) ↦
              await_pong-IsAnswer 4 s1 str.tr ping_id c last (rw (ping, good, sent) at e)
        ]
      ]
