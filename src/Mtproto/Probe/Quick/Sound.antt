-- ===== src/Mtproto/Probe/Quick/Sound.antt =====
-- What a quick attempt that succeeds has shown about the peer.
use mathlib.Core.Path.{subst}
use mtproto_checker.Common.{
  >>=-eq-ok, ap, sym, ◌∙◌, Bytes, List, Option, Result, Result-cases, arith, err, inl, inr, length,
  ltb, none, not, ok, refl, ok_cancel, some, take, slice, [], ℕ, ◌++◌, ◌==◌, ◌≡◌, ◌≢◌, ◌≤◌, ◌∷◌,
}
use mtproto_checker.Common.Guards.{err-ne-ok, past_guard, reject-equal}
use mtproto_checker.Common.Text.{pos}
use mtproto_checker.Mtproto.Binary.{uint32_le}
use mtproto_checker.Mtproto.Errors.{Error, nonce_mismatch, not_resp_pq, resp_too_short}
use mtproto_checker.Mtproto.Transport.{Reader, plain_read, Transport, tag}
use mtproto_checker.Mtproto.Stream.{Stream, recv_unencrypted, send_unencrypted}
use mtproto_checker.Mtproto.Auth.Answers.{ctor_res_pq, quick_check, req_pq_multi_body}
use mtproto_checker.Mtproto.Obfuscate
use mtproto_checker.Mtproto.Obfuscate.{ObfConn, new_obf_conn, obf_read_full}
use mtproto_checker.Mtproto.FakeTls.Hello.{ClientHello, build_client_hello}
use mtproto_checker.Mtproto.FakeTls.Records.{read_server_hello, split_tls_records}
use mtproto_checker.Mtproto.FakeTls.Records.Split.{split-read_server_hello}
use mtproto_checker.Mtproto.FakeTls.Verify.{verify_server_hello}
use mtproto_checker.Mtproto.FakeTls.Verify.Authentic.{
  IsHandshake, IsSigned, verify_server_hello-IsSigned,
}
use mtproto_checker.Mtproto.FakeTls.Conn.{TlsConn, tls_read_full}
use mtproto_checker.Mtproto.Probe.{Candidate, Fault}
use mtproto_checker.Mtproto.Probe.Quick.{
  Draws, HelloDraws, accept_hello, ask_res_pq, attempt_mtproto, fake_tls_handshake, handshake, mark,
}

-- The body of a resPQ for the nonce.
abbrev pub IsAnswer : Bytes → Bytes → Type 0
IsAnswer nonce body =
    (20 ≤ length body) × (uint32_le (take 4 body) ≡ ctor_res_pq) × (slice 4 20 body ≡ nonce)

-- The peer's answer to the nonce of this attempt, as it is read from `s`.
pub record IsServed {S : Type 0} (read_full : Reader S) (d : Draws) (tr : Transport) (s : S)
    : Type 0 where
  pub nonce : Bytes
  pub body : Bytes
  pub left : S
  pub drawn : d.nonce ≡ some nonce
  pub received : recv_unencrypted read_full tr s ≡ ok (body, left)
  pub answers : IsAnswer nonce body

quick_check-IsAnswer :
    (body nonce : Bytes) (u : Unit {0}) → quick_check body nonce ≡ ok u → IsAnswer nonce body
unfolding quick_check
quick_check-IsAnswer body nonce u e =
    let (long, e1) = past_guard (ltb (length body) 20) resp_too_short _ u e in
    let (named, e2) =
      past_guard (not (uint32_le (take 4 body) == ctor_res_pq)) not_resp_pq _ u e1 in
    (ground arith, ground arith, reject-equal (slice 4 20 body) nonce nonce_mismatch u e2)

module _ {S : Type 0} (read_full : Reader S) (d : Draws) where
  ask_with-IsServed :
      (nonce : Option Bytes) (str : Stream) (s : S) (r : Stream × S)
      → ask_res_pq read_full (record d { nonce = nonce }) str s ≡ ok r
      → IsServed read_full (record d { nonce = nonce }) str.tr s
  unfolding ask_res_pq
  ask_with-IsServed none str s r e = cc
  ask_with-IsServed (some nonce) str s r e =
      let (str1, sent, e1) =
        >>=-eq-ok (send_unencrypted d.padding d.id (req_pq_multi_body nonce) str) _ e in
      let ((body, s1), got, e2) = >>=-eq-ok (recv_unencrypted read_full str.tr s) _ e1 in
      let (u, checked, e3) = >>=-eq-ok (quick_check body nonce) _ e2 in
      record {
        nonce = nonce;
        body = body;
        left = s1;
        drawn = refl;
        received = got;
        answers = quick_check-IsAnswer body nonce u checked;
      }

  pub ask_res_pq-IsServed :
      (str : Stream) (s : S) (r : Stream × S)
      → ask_res_pq read_full d str s ≡ ok r
      → IsServed read_full d str.tr s
  ask_res_pq-IsServed str s r e = ask_with-IsServed d.nonce str s r e

mark-ok :
    {A : Type 0} (describe : Error → Fault) (r : Result Error A) (a : A)
    → mark describe r ≡ ok a
    → r ≡ ok a
unfolding mark
mark-ok describe (ok b) a e = cc
mark-ok describe (err x) a e = cc

-- The obfuscated connection that an attempt opens, and the answer that it reads through it.
pub record IsOpened (crypto : Obfuscate.Crypto) {S : Type 0} (read_full : Reader S) (d : Draws)
    (secret : Bytes) (cand : Candidate) (s : S) : Type 0 where
  pub conn : ObfConn
  pub header : Bytes
  pub opened :
      new_obf_conn crypto secret (tag cand.framing) (pos cand.dc) d.headers ≡ ok (conn, header)
  pub served : IsServed (obf_read_full read_full) d cand.framing (conn, s)

module _ (describe : Error → Fault) (crypto : Obfuscate.Crypto) where
  pub handshake-IsOpened :
      {S : Type 0} (read_full : Reader S) (d : Draws) (secret : Bytes) (cand : Candidate) (s : S)
      (r : Bytes × Bytes)
      → handshake describe crypto read_full d secret cand s ≡ ok r
      → IsOpened crypto read_full d secret cand s
  unfolding handshake
  handshake-IsOpened read_full d secret cand s r e =
      let opening = new_obf_conn crypto secret (tag cand.framing) (pos cand.dc) d.headers in
      let ((c, header), marked, e1) = >>=-eq-ok (mark describe opening) _ e in
      let start : Stream = record { tr = cand.framing; tag_first = []; written = [] } in
      let asking = ask_res_pq (obf_read_full read_full) d start (c, s) in
      let (answer, asked, e2) = >>=-eq-ok (mark describe asking) _ e1 in
      record {
        conn = c;
        header = header;
        opened = mark-ok describe opening (c, header) marked;
        served =
            ask_res_pq-IsServed (obf_read_full read_full) d start (c, s) answer
              (mark-ok describe asking answer asked);
      }

-- The response at the front of what the peer sends: whole records, echoing the session id, and signed
-- under the secret's key over the random bytes of this hello.
pub record IsWelcomed (hmac_sha256 : Bytes → Bytes → Bytes) (secret : Bytes) (hello : ClientHello)
    (s rest : Bytes) : Type 0 where
  pub response : Bytes
  pub first : Bytes
  pub others : List Bytes
  pub taken : s ≡ response ++ rest
  pub cut : split_tls_records response ≡ some (ok (first ∷ others))
  pub shape : IsHandshake hello.session_id first others
  pub signed : IsSigned hmac_sha256 secret hello.random response

module _ (describe : Error → Fault) (hmac_sha256 : Bytes → Bytes → Bytes) (now : ℕ) where
  accept_hello-ok :
      (secret : Bytes) (hello : ClientHello) (response rest : Bytes) (r : ClientHello × Bytes)
      → accept_hello describe hmac_sha256 now secret hello (ok (response, rest)) ≡ ok r
      → (u : Unit {0}) × (verify_server_hello hmac_sha256 response secret hello.session_id
            hello.random
          ≡ some (ok u))
        × ((hello, rest) ≡ r)
  unfolding accept_hello
  accept_hello-ok secret hello response rest r e =
      go (verify_server_hello hmac_sha256 response secret hello.session_id hello.random) refl
    where
      go :
          (v : Option (Result Error (Unit {0})))
          → verify_server_hello hmac_sha256 response secret hello.session_id hello.random ≡ v
          → (u : Unit {0}) × (verify_server_hello hmac_sha256 response secret hello.session_id
                hello.random
              ≡ some (ok u))
            × ((hello, rest) ≡ r)
      go none f = absurd (err-ne-ok (rw (f, accept_hello) at e))
      go (some (err x)) f = absurd (err-ne-ok (rw (f, accept_hello) at e))
      go (some (ok u)) f = (u, f, ok_cancel _ _ (rw (f, accept_hello) at e))

  accept_hello-err :
      (secret : Bytes) (hello : ClientHello) (x : Error) (r : ClientHello × Bytes)
      → accept_hello describe hmac_sha256 now secret hello (err x) ≢ ok r
  unfolding accept_hello
  accept_hello-err secret hello x r e = err-ne-ok e

  accepted-IsWelcomed :
      (secret : Bytes) (hello : ClientHello) (s : Bytes) (r : ClientHello × Bytes)
      → accept_hello describe hmac_sha256 now secret hello (read_server_hello (length s) [] s)
        ≡ ok r
      → (r.0 ≡ hello) × IsWelcomed hmac_sha256 secret hello s r.1
  accepted-IsWelcomed secret hello s r e = elim (Result-cases (read_server_hello (length s) [] s)) [
    | inr (x, f) ↦ absurd (accept_hello-err secret hello x r (rw f at e))
    | inl ((response, rest), f) ↦
        let (u, verified, same) = accept_hello-ok secret hello response rest r (rw f at e) in
        let (records, _, taken, _, _) = split-read_server_hello s response rest f in
        let (first, others, cut, shape, signed) =
          verify_server_hello-IsSigned hmac_sha256 response secret hello.session_id hello.random u
            verified in
        subst
          (λ (k : ClientHello × Bytes). (k.0 ≡ hello) × IsWelcomed hmac_sha256 secret hello s k.1)
          same
          (
            refl,
            record {
              response = response;
              first = first;
              others = others;
              taken = taken;
              cut = cut;
              shape = shape;
              signed = signed;
            },
          )
  ]

  -- What a FakeTLS handshake that succeeds has shown, with the hello that was sent.
  pub fake_tls_handshake-IsWelcomed :
      (h : HelloDraws) (sni secret s : Bytes) (hello : ClientHello) (rest : Bytes)
      → fake_tls_handshake describe hmac_sha256 now h sni secret s ≡ ok (hello, rest)
      → (build_client_hello hmac_sha256 now h.grease h.session h.key sni secret ≡ ok hello)
        × IsWelcomed hmac_sha256 secret hello s rest
  unfolding fake_tls_handshake
  fake_tls_handshake-IsWelcomed h sni secret s hello rest e =
      elim (Result-cases (build_client_hello hmac_sha256 now h.grease h.session h.key sni secret)) [
        | inr (x, f) ↦ absurd (err-ne-ok (rw (f, fake_tls_handshake) at e))
        | inl (hello', f) ↦
            let (same, welcomed) =
              accepted-IsWelcomed secret hello' s (hello, rest) (rw (f, fake_tls_handshake) at e) in
            (
              f ∙ ap ok (sym same),
              subst (λ k. IsWelcomed hmac_sha256 secret k s rest) (sym same) welcomed,
            )
      ]

abbrev pub tls_reader : Reader TlsConn
tls_reader n t = tls_read_full n n t

module _ (describe : Error → Fault) (hmac_sha256 : Bytes → Bytes → Bytes) (now : ℕ)
    (crypto : Obfuscate.Crypto) (d : Draws) (sni secret : Bytes) (cand : Candidate)
    (s : Bytes) where
  -- What an attempt that succeeds has shown, over FakeTLS where there are draws for it.
  abbrev pub IsSound : Option HelloDraws → Type 0
  IsSound none = IsOpened crypto plain_read d secret cand s
  IsSound (some h) =
      (hello : ClientHello) × (rest : Bytes) × (build_client_hello hmac_sha256 now h.grease
          h.session h.key sni secret
        ≡ ok hello)
      × IsWelcomed hmac_sha256 secret hello s rest
      × IsOpened crypto tls_reader d secret cand (record { buf = []; stream = rest })

  -- A quick attempt that succeeds has read, through the obfuscated connection that it opened, a resPQ
  -- with the nonce that it drew. Over FakeTLS the peer has first sent a ServerHello in whole records
  -- that echoes the session id and is signed under the secret's key for this hello, and the resPQ was
  -- read from what follows it.
  pub attempt_mtproto-IsSound :
      (fake : Option HelloDraws) (written : Bytes)
      → attempt_mtproto describe hmac_sha256 now crypto d fake sni secret cand s ≡ ok written
      → IsSound fake
  unfolding attempt_mtproto
  attempt_mtproto-IsSound none written e =
      let (r, opened, e1) = >>=-eq-ok (handshake describe crypto plain_read d secret cand s) _ e in
      handshake-IsOpened describe crypto plain_read d secret cand s r opened
  attempt_mtproto-IsSound (some h) written e =
      let ((hello, rest), shaken, e1) =
        >>=-eq-ok (fake_tls_handshake describe hmac_sha256 now h sni secret s) _ e in
      let start : TlsConn = record { buf = []; stream = rest } in
      let (r, opened, e2) =
        >>=-eq-ok (handshake describe crypto tls_reader d secret cand start) _ e1 in
      let (built, welcomed) =
        fake_tls_handshake-IsWelcomed describe hmac_sha256 now h sni secret s hello rest shaken in
      (
        hello,
        rest,
        built,
        welcomed,
        handshake-IsOpened describe crypto tls_reader d secret cand start r opened,
      )
