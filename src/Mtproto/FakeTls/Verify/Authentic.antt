-- ===== src/Mtproto/FakeTls/Verify/Authentic.antt =====
-- What a ServerHello that is accepted has shown.
use mtproto_checker.Common.{
  >>=-eq-ok, Bytes, List, Option-cases, Result-cases, [], arith, drop, equal, get_or, inl, inr,
  length, ltb, none, not, ok, refl, reject, slice, some, some_cancel, take, ◌++◌, ◌+◌, ◌==◌, ◌||◌,
  ◌∷◌, ◌≡◌, ◌≢◌, ◌≤◌,
}
use mtproto_checker.Mtproto.Errors.{
  handoff_missing, hmac_mismatch, no_server_hello_payload, not_server_hello, session_id_mismatch,
  session_id_truncated, too_short_for_digest,
}
use mtproto_checker.Mtproto.FakeTls.Records.{split_tls_records}
use mtproto_checker.Mtproto.FakeTls.Records.Split.{split_tls_records-ne-none}
use mtproto_checker.Mtproto.FakeTls.Verify.{
  bad_following, check_digest, check_records, check_session_id, check_shape, last_record,
  verify_server_hello, zeroed,
}
use mtproto_checker.Common.Guards.{reject-equal, reject-ok}

-- The digest in a response is the HMAC, under the key, of the client's random bytes and of the
-- response with its digest set to zero.
abbrev pub IsSigned : (Bytes → Bytes → Bytes) → Bytes → Bytes → Bytes → Type 0
IsSigned hmac key random response =
    (43 ≤ length response) × (slice 11 43 response ≡ hmac key (random ++ zeroed response))

-- The first record is a handshake that echoes the session id, and the last one is application data.
abbrev pub IsHandshake : Bytes → Bytes → List Bytes → Type 0
IsHandshake session_id first rest =
    (take 3 first ≡ 0x16 ∷ 0x03 ∷ 0x03 ∷ [])
    × (slice 39 (39 + get_or (drop 5 first) 38 0) (drop 5 first) ≡ session_id)
    × (get_or (last_record first rest) 0 0 ≡ 0x17)
    × (bad_following rest ≡ none)

check_digest-IsSigned :
    (hmac : Bytes → Bytes → Bytes) (response key random : Bytes) (u : Unit {0})
    → check_digest hmac response key random ≡ ok u
    → IsSigned hmac key random response
unfolding check_digest
check_digest-IsSigned hmac response key random u e =
    let (v, long, e1) = >>=-eq-ok (reject (ltb (length response) 43) too_short_for_digest) _ e in
    (
      ground (arith, reject-ok (ltb (length response) 43) too_short_for_digest v long),
      reject-equal (slice 11 43 response) (hmac key (random ++ zeroed response)) hmac_mismatch u e1,
    )

check_shape-ok :
    (first : Bytes) (rest : List Bytes) (u : Unit {0})
    → check_shape first rest ≡ ok u
    → (take 3 first ≡ 0x16 ∷ 0x03 ∷ 0x03 ∷ [])
      × (get_or (last_record first rest) 0 0 ≡ 0x17)
      × (bad_following rest ≡ none)
unfolding check_shape
check_shape-ok first rest u e =
    let start : Bytes = 0x16 ∷ 0x03 ∷ 0x03 ∷ [] in
    let last = get_or (last_record first rest) 0 0 in
    let (v, a, e1) = >>=-eq-ok (reject (not (equal (take 3 first) start)) not_server_hello) _ e in
    let (w, b, e2) = >>=-eq-ok (reject (not (last == 0x17)) handoff_missing) _ e1 in
    (
      reject-equal (take 3 first) start not_server_hello v a,
      ground (arith, reject-ok (not (last == 0x17)) handoff_missing w b),
      elim (Option-cases (bad_following rest)) [
        | inl n ↦ n
        | inr (k, n) ↦ let bad = rw n at e2 in cc
      ],
    )

check_session_id-ok :
    (handshake session_id : Bytes) (u : Unit {0})
    → check_session_id handshake session_id ≡ ok u
    → slice 39 (39 + get_or handshake 38 0) handshake ≡ session_id
unfolding check_session_id
check_session_id-ok handshake session_id u e =
    let (v, a, e1) =
      >>=-eq-ok
        (reject (ltb (length handshake) 39 || not (get_or handshake 0 0 == 2))
          no_server_hello_payload)
        _ e in
    let (w, b, e2) =
      >>=-eq-ok (reject (ltb (length handshake) (39 + get_or handshake 38 0)) session_id_truncated)
        _ e1 in
    reject-equal (slice 39 (39 + get_or handshake 38 0) handshake) session_id session_id_mismatch u
      e2

check_records-ok :
    (hmac : Bytes → Bytes → Bytes) (parts : List Bytes) (response key session_id random : Bytes)
    (u : Unit {0})
    → check_records hmac parts response key session_id random ≡ ok u
    → (first : Bytes) × (rest : List Bytes) × (parts ≡ first ∷ rest)
      × IsHandshake session_id first rest
      × IsSigned hmac key random response
unfolding check_records
check_records-ok hmac [] response key session_id random u e = cc
check_records-ok hmac (r ∷ []) response key session_id random u e = cc
check_records-ok hmac (first ∷ second ∷ rest) response key session_id random u e =
    let (v, a, e1) = >>=-eq-ok (check_shape first (second ∷ rest)) _ e in
    let (w, b, e2) = >>=-eq-ok (check_session_id (drop 5 first) session_id) _ e1 in
    let (start, last, follow) = check_shape-ok first (second ∷ rest) v a in
    (
      first,
      second ∷ rest,
      refl,
      (start, check_session_id-ok (drop 5 first) session_id w b, last, follow),
      check_digest-IsSigned hmac response key random u e2,
    )

-- A ServerHello that is accepted is cut into records, the first of them a handshake that echoes the
-- session id and the last one application data, and it is signed under the secret's key: no other
-- response is taken for a proxy that knows the secret.
pub verify_server_hello-IsSigned :
    (hmac : Bytes → Bytes → Bytes) (response key session_id random : Bytes) (u : Unit {0})
    → verify_server_hello hmac response key session_id random ≡ some (ok u)
    → (first : Bytes) × (rest : List Bytes) × (split_tls_records response
        ≡ some (ok (first ∷ rest)))
      × IsHandshake session_id first rest
      × IsSigned hmac key random response
unfolding verify_server_hello
verify_server_hello-IsSigned hmac response key session_id random u e =
    elim (Option-cases (split_tls_records response)) [
      | inl none_ ↦ absurd (split_tls_records-ne-none response none_)
      | inr (r, cut) ↦ elim (Result-cases r) [
        | inl (parts, good) ↦
            let accepted = rw (cut, good, verify_server_hello) at e in
            let (first, rest, same, shape, signed) =
              check_records-ok hmac parts response key session_id random u
                (some_cancel _ _ accepted) in
            (first, rest, rw (cut, good, same) refl, shape, signed)
        | inr (x, bad) ↦ let f = rw (cut, bad, verify_server_hello) at e in cc
      ]
    ]

-- `verifyServerHello` returns for every response.
pub verify_server_hello-ne-none :
    (hmac : Bytes → Bytes → Bytes) (response key session_id random : Bytes)
    → verify_server_hello hmac response key session_id random ≢ none
unfolding verify_server_hello
verify_server_hello-ne-none hmac response key session_id random =
    elim (Option-cases (split_tls_records response)) [
      | inl none_ ↦ absurd (split_tls_records-ne-none response none_)
      | inr (r, cut) ↦ elim (Result-cases r) [
        | inl (parts, good) ↦ rw (cut, good, verify_server_hello) (λ e. cc)
        | inr (x, bad) ↦ rw (cut, bad, verify_server_hello) (λ e. cc)
      ]
    ]
