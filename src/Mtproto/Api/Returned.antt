-- ===== src/Mtproto/Api/Returned.antt =====
-- A query that returns was answered, and what the two rounds leave of the session.
use mathlib.Core.Path.{subst}
use mtproto_checker.Common.{
  >>=-eq-ok, Bool, Bool-cases, Bytes, Option, Result, Result-cases, ap, arith, err, false, inl, inr,
  length, of_ok, ok, refl, suc, zero, ℕ, ◌%◌, ◌+◌, ◌>>=◌, ◌^◌, ◌∙◌, ◌≡◌, ◌⊎◌,
}
use mtproto_checker.Mtproto.Errors.{Error}
use mtproto_checker.Mtproto.Transport.{Reader, Transport, decode, encode}
use mtproto_checker.Mtproto.Stream.{Stream, send_raw}
use mtproto_checker.Mtproto.Session.{AuthKey, Crypto, Session, decrypt, encrypt}
use mtproto_checker.Mtproto.Session.Authentic.{IsAuthentic, decrypt-IsAuthentic}
use mtproto_checker.Mtproto.Api.{Reply, dispatch, found, nothing, retry}
use mtproto_checker.Mtproto.Api.Answer.{IsReply, dispatch-IsReply}
use mtproto_checker.Mtproto.Api.Invoke.{
  Draw, Outcome, await_result, conclude, invoke, receive_plain, refused, returned, settle,
  try_query,
}
use mtproto_checker.Mtproto.Api.Keeps.{
  IsResalted, IsResalted-refl, IsResalted-trans, dispatch-IsResalted,
}

send_raw-keeps :
    (padding : Option Bytes) (message : Bytes) (str after : Stream)
    → send_raw padding message str ≡ ok after
    → after.tr ≡ str.tr
unfolding send_raw
send_raw-keeps padding message str after e =
    let (framed, encoded, e1) = >>=-eq-ok (encode str.tr padding message) _ e in
    of_ok (λ x. x.tr ≡ str.tr) e1 refl

-- What a query may change of a session.
pub record IsQueried (s t : Session) : Type 0 where
  pub same_auth : t.auth ≡ s.auth
  pub same_id : t.id ≡ s.id
  pub eight : length t.salt ≡ 8
  pub counted : (t.seq_no ≡ (s.seq_no + 1) % 2 ^ 32) ⊎ (t.seq_no ≡ (s.seq_no + 2) % 2 ^ 32)

module _ (crypto : Crypto) (gunzip : Bytes → Result Error Bytes) (depth : ℕ) {S : Type 0}
    (read_full : Reader S) (late : S → Bool) where
  -- A packet that was read before the deadline, just in front of what is left, sealed for the
  -- session's key, whose message answers the query with the payload.
  pub record IsReturned (auth : AuthKey) (framing : Transport) (msg_id : ℕ) (payload : Bytes)
      (after : S) : Type 0 where
    pub before : S
    pub packet : Bytes
    pub plain : Bytes
    pub body : Bytes
    pub in_time : late before ≡ false
    pub came : decode read_full framing before ≡ ok (packet, after)
    pub authentic : IsAuthentic crypto auth packet plain body
    pub reply : IsReply gunzip msg_id payload body

  settle-cases :
      (next : Session → S → Result Error (Outcome S) × Session) (c after : S)
      (r : Result Error Reply × Session) (payload : Bytes)
      → (settle next c r).0 ≡ ok (returned payload after)
      → ((r.0 ≡ ok (found payload)) × (c ≡ after)) ⊎ ((next r.1 c).0 ≡ ok (returned payload after))
  unfolding settle
  settle-cases next c after (err x, s) payload e = cc
  settle-cases next c after (ok nothing, s) payload e = inr e
  settle-cases next c after (ok retry, s) payload e = cc
  settle-cases next c after (ok (found x), s) payload e = inl (cc, cc)

  await_result-IsReturned :
      (k msg_id : ℕ) (framing : Transport) (s : Session) (c : S) (payload : Bytes) (after : S)
      → (await_result crypto gunzip depth read_full late k msg_id framing s c).0
        ≡ ok (returned payload after)
      → IsReturned s.auth framing msg_id payload after
  unfolding await_result receive_plain
  await_result-IsReturned zero msg_id framing s c payload after e = cc
  await_result-IsReturned (suc k) msg_id framing s c payload after e = elim (Bool-cases (late c)) [
    | inl slow ↦ let wrong = rw (await_result, slow) at e in cc
    | inr in_time ↦
        elim (Result-cases (receive_plain crypto gunzip depth read_full late framing s c)) [
          | inr (x, bad) ↦ let wrong = rw (await_result, in_time, bad) at e in cc
          | inl ((body, c1), got) ↦
              let e1 = rw (await_result, in_time, got) at e in
              let ((packet, c2), came, e2) = >>=-eq-ok (decode read_full framing c) _ got in
              let (text, opened, e3) = >>=-eq-ok (decrypt crypto s packet) _ e2 in
              let reply = dispatch gunzip depth msg_id body s in
              elim (settle-cases _ c1 after reply payload e1) [
                | inl (hit, last) ↦
                    let same : (text ≡ body) × (c2 ≡ c1) = (cc, cc) in
                    let (plain, sealed) =
                      decrypt-IsAuthentic crypto s packet body (opened ∙ ap ok same.0) in
                    record {
                      before = c;
                      packet = packet;
                      plain = plain;
                      body = body;
                      in_time = in_time;
                      came = came ∙ ap (λ x. ok (packet, x)) (same.1 ∙ last);
                      authentic = sealed;
                      reply = dispatch-IsReply gunzip msg_id payload depth body s hit;
                    }
                | inr later ↦
                    subst (λ a. IsReturned a framing msg_id payload after)
                      (dispatch-IsResalted gunzip msg_id depth body s).same_auth
                      (await_result-IsReturned k msg_id framing reply.1 c1 payload after later)
              ]
        ]
  ]

  settle-IsResalted :
      (s : Session) (next : Session → S → Result Error (Outcome S) × Session) (c : S)
      (r : Result Error Reply × Session)
      → IsResalted s r.1
      → ((t : Session) → IsResalted t (next t c).1)
      → IsResalted s (settle next c r).1
  unfolding settle
  settle-IsResalted s next c (err x, t) h k = h
  settle-IsResalted s next c (ok nothing, t) h k = IsResalted-trans s t (next t c).1 h (k t)
  settle-IsResalted s next c (ok retry, t) h k = h
  settle-IsResalted s next c (ok (found x), t) h k = h

  await_result-IsResalted :
      (k msg_id : ℕ) (framing : Transport) (s : Session) (c : S)
      → IsResalted s (await_result crypto gunzip depth read_full late k msg_id framing s c).1
  unfolding await_result
  await_result-IsResalted zero msg_id framing s c = IsResalted-refl s
  await_result-IsResalted (suc k) msg_id framing s c = elim (Bool-cases (late c)) [
    | inl slow ↦ rw (await_result, slow) (IsResalted-refl s)
    | inr in_time ↦
        elim (Result-cases (receive_plain crypto gunzip depth read_full late framing s c)) [
          | inr (x, bad) ↦ rw (await_result, in_time, bad) (IsResalted-refl s)
          | inl ((body, c1), got) ↦
              rw (await_result, in_time, got)
                (settle-IsResalted s _ c1 (dispatch gunzip depth msg_id body s)
                  (dispatch-IsResalted gunzip msg_id depth body s)
                  (λ t. await_result-IsResalted k msg_id framing t c1))
        ]
  ]

  -- One round: what was sent leaves the framing, the session that `encrypt` leaves gets at most
  -- another salt, and a result was returned to it.
  try_query_lem :
      (d : Draw) (query : Bytes) (s : Session) (str : Stream) (c : S)
      → let done = try_query crypto gunzip depth read_full late d query s str c in
        IsResalted (encrypt crypto d.random d.id query s).1 done.1.0
        × (done.1.1.tr ≡ str.tr)
        × ((payload : Bytes) (after : S)
            → done.0 ≡ ok (returned payload after)
            → IsReturned s.auth str.tr d.id payload after)
  unfolding try_query encrypt
  try_query_lem d query s str c =
      let (packet, s1) = encrypt crypto d.random d.id query s in
      elim (Result-cases (packet >>= (λ message. send_raw d.padding message str))) [
        | inr (x, bad) ↦ rw (try_query, bad) (IsResalted-refl s1, refl, λ payload after e. cc)
        | inl (str1, sent) ↦
            let (message, made, e1) = >>=-eq-ok packet _ sent in
            rw (try_query, sent)
              (
                await_result-IsResalted 16 d.id str.tr s1 c,
                send_raw-keeps d.padding message str str1 e1,
                λ payload after e. await_result-IsReturned 16 d.id str.tr s1 c payload after e,
              )
      ]

  conclude-cases :
      {T : Type 0} (next : S → T → Result Error (Bytes × S) × T) (r : Result Error (Outcome S) × T)
      (payload : Bytes) (after : S)
      → (conclude next r).0 ≡ ok (payload, after)
      → (r.0 ≡ ok (returned payload after)) ⊎ ((c : S) × ((next c r.1).0 ≡ ok (payload, after)))
  unfolding conclude
  conclude-cases next (err x, t) payload after e = cc
  conclude-cases next (ok (refused c), t) payload after e = inr (c, e)
  conclude-cases next (ok (returned x c), t) payload after e = inl cc

  -- A query that succeeds was answered: with the message id of its first or of its second round, in a
  -- packet that was read in time and sealed for the session's key.
  pub invoke-IsReturned :
      (first second : Draw) (query : Bytes) (s : Session) (str : Stream) (c : S) (payload : Bytes)
      (after : S)
      → (invoke crypto gunzip depth read_full late first second query s str c).0
        ≡ ok (payload, after)
      → IsReturned s.auth str.tr first.id payload after
        ⊎ IsReturned s.auth str.tr second.id payload after
  unfolding invoke encrypt
  invoke-IsReturned first second query s str c payload after e =
      let round = try_query crypto gunzip depth read_full late first query s str c in
      let (resalted, framing, answered) = try_query_lem first query s str c in
      elim (conclude-cases _ round payload after e) [
        | inl hit ↦ inl (answered payload after hit)
        | inr (c1, e1) ↦
            let s1 = round.1.0 in
            let str1 = round.1.1 in
            let again = try_query crypto gunzip depth read_full late second query s1 str1 c1 in
            let (_, _, answered1) = try_query_lem second query s1 str1 c1 in
            elim (conclude-cases _ again payload after e1) [
              | inl hit ↦ inr (
                  subst (λ a. IsReturned a str.tr second.id payload after) resalted.same_auth
                    (subst (λ t. IsReturned s1.auth t second.id payload after) framing
                      (answered1 payload after hit)))
              | inr (c2, e2) ↦ cc
            ]
      ]

  conclude-after :
      {T : Type 0} (P : T → Type 0) (next : S → T → Result Error (Bytes × S) × T)
      (r : Result Error (Outcome S) × T)
      → P r.1
      → ((c : S) → P (next c r.1).1)
      → P (conclude next r).1
  unfolding conclude
  conclude-after P next (err x, t) h k = h
  conclude-after P next (ok (refused c), t) h k = k c
  conclude-after P next (ok (returned x c), t) h k = h

  -- Whatever comes, a query leaves the session's key and its id as they were and a salt of 8 bytes at
  -- 8 bytes, and it moves the sequence number on by one for each of its one or two rounds.
  pub invoke-IsQueried :
      (first second : Draw) (query : Bytes) (s : Session) (str : Stream) (c : S)
      → length s.salt ≡ 8
      → IsQueried s (invoke crypto gunzip depth read_full late first second query s str c).1.0
  unfolding invoke encrypt
  invoke-IsQueried first second query s str c salt =
      let round = try_query crypto gunzip depth read_full late first query s str c in
      let (r1, _, _) = try_query_lem first query s str c in
      conclude-after (λ w. IsQueried s w.0) _ round
        (record {
          same_auth = r1.same_auth;
          same_id = r1.same_id;
          eight = r1.eight salt;
          counted = inl r1.same_seq_no;
        })
        (λ c1.
          let s1 = round.1.0 in
          let (r2, _, _) = try_query_lem second query s1 round.1.1 c1 in
          let done : IsQueried s
              (try_query crypto gunzip depth read_full late second query s1 round.1.1 c1).1.0 =
            record {
              same_auth = r2.same_auth ∙ r1.same_auth;
              same_id = r2.same_id ∙ r1.same_id;
              eight = r2.eight (r1.eight salt);
              counted = inr (omega (arith, r1.same_seq_no, r2.same_seq_no));
            } in
          conclude-after (λ w. IsQueried s w.0) _
            (try_query crypto gunzip depth read_full late second query s1 round.1.1 c1) done
            (λ _. done))
