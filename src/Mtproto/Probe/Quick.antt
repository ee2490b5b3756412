-- ===== src/Mtproto/Probe/Quick.antt =====
-- One attempt of a quick probe (internal/mtproto/probe.go, respq.go and socks5.go): the handshake of
-- FakeTLS where there is one, the obfuscated connection, and the question for a resPQ. A connection
-- is what the peer sends. `describe` is what errors.Is finds in an error, and its text.
pub mod Sound
pub mod Served
mod Tests
use mtproto_checker.Common.{
  Bytes, List, Option, Result, [], err, false, length, none, ok, some, true, ℕ, ◌++◌, ◌>>=◌,
}
use mtproto_checker.Common.Text.{codes, pos}
use mtproto_checker.Mtproto.Errors.{Error, rand_failed, too_deep}
use mtproto_checker.Mtproto.Transport.{Reader, Transport, direct_tag, plain_read, tag}
use mtproto_checker.Mtproto.Stream.{Stream, recv_unencrypted, send_unencrypted}
use mtproto_checker.Mtproto.Auth.Answers.{quick_check, req_pq_multi_body}
use mtproto_checker.Mtproto.Obfuscate
use mtproto_checker.Mtproto.Obfuscate.{new_obf_conn, obf_read_full, obf_write}
use mtproto_checker.Mtproto.FakeTls.Hello.{ClientHello, build_client_hello}
use mtproto_checker.Mtproto.FakeTls.Records.{read_server_hello}
use mtproto_checker.Mtproto.FakeTls.Verify.{verify_server_hello}
use mtproto_checker.Mtproto.FakeTls.Conn.{tls_read_full, tls_write}
use mtproto_checker.Mtproto.Probe.{
  Candidate, Failure, Fault, fail, fail_as, kind_secret_rejected, stage_handshake, stage_protocol,
}

-- What an attempt draws: the nonce, the filler of the framing, the message id and the headers.
pub record Draws : Type 0 where
  pub nonce : Option Bytes
  pub padding : Option Bytes
  pub id : ℕ
  pub headers : List (Option Bytes)

-- What `buildClientHello` draws.
pub record HelloDraws : Type 0 where
  pub grease : Option Bytes
  pub session : Option Bytes
  pub key : Option ℕ

-- `quickCheck`: the stream as written to, and what is left to read.
unfoldable pub ask_res_pq : {S : Type 0} → Reader S → Draws → Stream → S → Result Error (Stream × S)
ask_res_pq read_full d str s = do
  nonce ← elim d.nonce [ none ↦ err rand_failed | some nonce ↦ ok nonce ]
  str1 ← send_unencrypted d.padding d.id (req_pq_multi_body nonce) str
  (body, s1) ← recv_unencrypted read_full str.tr s
  _ ← quick_check body nonce
  ok (str1, s1)

-- `no FakeTLS ServerHello: %w`
abbrev pub no_server_hello : Fault → Fault
no_server_hello e = record e { text = codes "no FakeTLS ServerHello: " ++ e.text }

module _ (describe : Error → Fault) where
  unfoldable pub mark : {A : Type 0} → Result Error A → Result Failure A
  mark (ok a) = ok a
  mark (err e) = err (fail stage_protocol (describe e))

  -- `directMTProto` for a quick probe, with no obfuscation.
  unfoldable pub direct_mtproto :
      {S : Type 0} → Reader S → Draws → Transport → S → Result Failure (Stream × S)
  direct_mtproto read_full d framing s = mark (
      ask_res_pq read_full d (record { tr = framing; tag_first = direct_tag framing; written = [] })
        s)

  -- `handshake` for a quick probe: the header and the packet that were written.
  unfoldable pub handshake :
      {S : Type 0}
      → Obfuscate.Crypto
      → Reader S
      → Draws
      → Bytes
      → Candidate
      → S
      → Result Failure (Bytes × Bytes)
  handshake crypto read_full d secret cand s = do
    (c, header) ← mark (new_obf_conn crypto secret (tag cand.framing) (pos cand.dc) d.headers)
    (str, _) ← mark (
        ask_res_pq (obf_read_full read_full) d
          (record { tr = cand.framing; tag_first = []; written = [] }) (c, s))
    ok (header, (obf_write str.written c).0)

  module _ (hmac_sha256 : Bytes → Bytes → Bytes) (now : ℕ) where
    -- What `fakeTLSHandshake` makes of the server's answer, with what is left to read.
    unfoldable pub accept_hello :
        Bytes → ClientHello → Result Error (Bytes × Bytes) → Result Failure (ClientHello × Bytes)
    accept_hello secret hello (err e) = err (fail stage_handshake (no_server_hello (describe e)))
    accept_hello secret hello (ok (response, rest)) =
        elim (verify_server_hello hmac_sha256 response secret hello.session_id hello.random) [
          | none ↦ err (fail stage_handshake (describe too_deep))
          | some (err e) ↦ err (fail_as stage_handshake kind_secret_rejected (describe e))
          | some (ok _) ↦ ok (hello, rest)
        ]

    unfoldable pub fake_tls_handshake :
        HelloDraws → Bytes → Bytes → Bytes → Result Failure (ClientHello × Bytes)
    fake_tls_handshake h sni secret s =
        elim (build_client_hello hmac_sha256 now h.grease h.session h.key sni secret) [
          | err e ↦ err (fail stage_handshake (describe e))
          | ok hello ↦ accept_hello secret hello (read_server_hello (length s) [] s)
        ]

    -- `attemptMTProto` from the dial on: all that was written.
    unfoldable pub attempt_mtproto :
        Obfuscate.Crypto
        → Draws
        → Option HelloDraws
        → Bytes
        → Bytes
        → Candidate
        → Bytes
        → Result Failure Bytes
    attempt_mtproto crypto d none sni secret cand s = do
      (header, packet) ← handshake crypto plain_read d secret cand s
      ok (header ++ packet)
    attempt_mtproto crypto d (some h) sni secret cand s = do
      (hello, rest) ← fake_tls_handshake h sni secret s
      (header, packet) ←
          handshake crypto (λ n t. tls_read_full n n t) d secret cand
            (record { buf = []; stream = rest })
      ok (hello.bytes ++ (tls_write true header ++ tls_write false packet))
