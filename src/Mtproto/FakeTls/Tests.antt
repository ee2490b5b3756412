-- ===== src/Mtproto/FakeTls/Tests.antt =====
-- Records and scopes at short inputs.
use mtproto_checker.Common.{
  Bytes, List, [], arith, equal, ok, refl, replicate, some, true, ◌++◌, ◌∷◌, ◌≡◌, ◌≢◌,
}
use mtproto_checker.Mtproto.Transport.{plain_read}
use mtproto_checker.Mtproto.FakeTls.Records.{
  hello_next, hello_payload, read_server_hello, split_loop, split_tls_records,
}
use mtproto_checker.Mtproto.FakeTls.Records.Split.{last_kind, split-read_server_hello}
use mtproto_checker.Mtproto.FakeTls.Verify.{
  bad_following, check_digest, check_records, check_session_id, check_shape, last_record,
  verify_server_hello,
}
use mtproto_checker.Mtproto.FakeTls.Verify.Authentic.{
  IsHandshake, IsSigned, verify_server_hello-IsSigned,
}
use mtproto_checker.Mtproto.FakeTls.Conn.{tls_read_full, tls_write}
use mtproto_checker.Mtproto.FakeTls.Conn.RoundTrip.{idle, tls_read_full-tls_write}

abbrev handshake : Bytes
handshake = 0x16 ∷ 3 ∷ 3 ∷ 0 ∷ 1 ∷ 8 ∷ []

abbrev handoff : Bytes
handoff = 0x17 ∷ 3 ∷ 3 ∷ 0 ∷ 1 ∷ 9 ∷ []

split-read_server_hello_example :
    (cut : List Bytes) × (split_tls_records (handshake ++ handoff) ≡ some (ok cut))
    × (handshake ++ handoff ++ 4 ∷ [] ≡ (handshake ++ handoff) ++ 4 ∷ [])
    × (cut ≢ [])
    × (last_kind cut ≡ 0x17)
unfolding read_server_hello hello_payload hello_next plain_read
split-read_server_hello_example =
    split-read_server_hello (handshake ++ handoff ++ 4 ∷ []) (handshake ++ handoff) (4 ∷ []) refl

tls_read_full-tls_write_example :
    tls_read_full 2 2 (idle (tls_write true (5 ∷ 6 ∷ []) ++ 7 ∷ []))
    ≡ ok (5 ∷ 6 ∷ [], idle (7 ∷ []))
tls_read_full-tls_write_example = tls_read_full-tls_write true (5 ∷ 6 ∷ []) (7 ∷ []) (omega arith)

-- A keyed digest that is always the same, and a response that carries it.
abbrev hmac : Bytes → Bytes → Bytes
hmac key message = replicate 32 7

abbrev response : Bytes
response = 0x16 ∷ 3 ∷ 3 ∷ 0 ∷ 39 ∷ 2 ∷ 0 ∷ 0 ∷ 0 ∷ 0 ∷ 0 ∷ (replicate 32 7 ++ 0 ∷ handoff)

verify_server_hello-IsSigned_example :
    (first : Bytes) × (rest : List Bytes) × (split_tls_records response ≡ some (ok (first ∷ rest)))
    × IsHandshake [] first rest
    × IsSigned hmac [] [] response
unfolding verify_server_hello check_records check_shape check_session_id check_digest
    split_tls_records split_loop equal bad_following last_record
verify_server_hello-IsSigned_example = verify_server_hello-IsSigned hmac response [] [] [] tt refl
