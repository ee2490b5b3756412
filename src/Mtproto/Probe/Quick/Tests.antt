-- ===== src/Mtproto/Probe/Quick/Tests.antt =====
-- Attempts over FakeTLS and over a bare connection, under a digest and key streams that are constant.
use mtproto_checker.Common.{
  Bytes, Result, [], arith, err, get_or, map, none, ok, refl, replicate, some, ◌++◌, ◌∷◌, ◌≡◌,
  bit_xor, equal,
}
use mtproto_checker.Common.Text.{codes, is_space, lower, trim_left, trim_right}
use mtproto_checker.Mtproto.Binary.{uint32_le_bytes}
use mtproto_checker.Mtproto.Errors.{Error}
use mtproto_checker.Mtproto.Transport.{abridged, decode, encode, plain_read}
use mtproto_checker.Mtproto.Stream.{
  open_unencrypted, recv_unencrypted, send_raw, send_unencrypted, unencrypted,
}
use mtproto_checker.Mtproto.Auth.Answers.{ctor_res_pq, quick_check, req_pq_multi_body}
use mtproto_checker.Mtproto.Obfuscate
use mtproto_checker.Mtproto.Obfuscate.{
  ObfConn, draw_header, is_taken, matches_any, new_obf_conn, obf_read_full, obf_write,
  obfuscation_header, stream_of, write_tag, xor_key_stream,
}
use mtproto_checker.Mtproto.Obfuscate.Peer.{proxy_accept}
use mtproto_checker.Mtproto.FakeTls.Builder.{
  close, close_at, open_scope, overwrite, overwrite_bytes, put,
}
use mtproto_checker.Mtproto.FakeTls.Hello.{
  all_printable, build_client_hello, client_random, encode_sni, fake_x25519_key, grease_from,
  grease_value, hello_builder, hello_start, le_bytes, put_ciphers, put_fixed_extensions,
  put_key_share, put_padding, put_server_name, sign_hello,
}
use mtproto_checker.Mtproto.FakeTls.Records.{
  hello_next, hello_payload, read_server_hello, split_loop, split_tls_records,
}
use mtproto_checker.Mtproto.FakeTls.Verify.{
  bad_following, check_digest, check_records, check_session_id, check_shape, last_record,
  verify_server_hello,
}
use mtproto_checker.Mtproto.FakeTls.Conn.{
  fill, tls_read, tls_read_full, tls_record_limit, tls_write, write_records,
}
use mtproto_checker.Mtproto.Probe.{Candidate, Failure, Fault, plain_fault}
use mtproto_checker.Mtproto.Probe.Quick.{
  Draws, HelloDraws, accept_hello, ask_res_pq, attempt_mtproto, fake_tls_handshake, handshake, mark,
}
use mtproto_checker.Mtproto.Probe.Quick.Served.{attempt_mtproto-served, drawn, proxy_of}
use mtproto_checker.Mtproto.Probe.Quick.Sound.{IsSound, attempt_mtproto-IsSound}

abbrev describe : Error → Fault
describe e = plain_fault []

abbrev hmac : Bytes → Bytes → Bytes
hmac key message = replicate 32 7

abbrev crypto : Obfuscate.Crypto
crypto = record { sha256 = λ x. x; new_ctr = λ key iv. ok (λ i. get_or key 0 0) }

abbrev nonce : Bytes
nonce = replicate 16 9

abbrev draws : Draws
draws = drawn nonce [] 0 (some (replicate 64 5) ∷ [])

abbrev hello_draws : HelloDraws
hello_draws = record { grease = some (replicate 8 1); session = some []; key = some 3 }

abbrev cand : Candidate
cand = record { dc = 2; framing = abridged }

-- The message that carries a resPQ, in its framing.
abbrev answer : Bytes
answer = uint32_le_bytes ctor_res_pq ++ nonce

abbrev reply : Bytes
reply = 10 ∷ (replicate 16 0 ++ (20 ∷ 0 ∷ 0 ∷ 0 ∷ answer))

-- A ServerHello with its handoff, and the reply in a record, under a key stream of fives.
abbrev response : Bytes
response =
    0x16
    ∷ 3
    ∷ 3
    ∷ 0
    ∷ 39
    ∷ 2
    ∷ 0
    ∷ 0
    ∷ 0
    ∷ 0
    ∷ 0
    ∷ (replicate 32 7 ++ (0 ∷ 0x17 ∷ 3 ∷ 3 ∷ 0 ∷ 1 ∷ 9 ∷ []))

abbrev served : Bytes
served = response ++ (0x17 ∷ 3 ∷ 3 ∷ 0 ∷ 41 ∷ map (λ b. bit_xor b 5) reply)

abbrev written_by : Result Failure Bytes → Bytes
written_by (ok w) = w
written_by (err e) = []

attempt_mtproto-IsSound_example :
    IsSound describe hmac 0 crypto draws (codes "a.bc") [] cand served (some hello_draws)
unfolding attempt_mtproto fake_tls_handshake accept_hello build_client_hello encode_sni trim_right
    trim_left is_space all_printable lower read_server_hello plain_read hello_payload hello_next
    verify_server_hello split_tls_records split_loop check_records check_shape equal last_record
    quick_check req_pq_multi_body close close_at open_scope overwrite overwrite_bytes put fill
    tls_read tls_read_full tls_record_limit tls_write write_records client_random fake_x25519_key
    grease_from grease_value hello_builder hello_start le_bytes put_ciphers put_fixed_extensions
    put_key_share put_padding put_server_name sign_hello bad_following check_digest check_session_id
    draw_header is_taken matches_any new_obf_conn obf_read_full obf_write obfuscation_header
    stream_of write_tag xor_key_stream ask_res_pq handshake mark open_unencrypted recv_unencrypted
    send_raw send_unencrypted unencrypted decode encode
attempt_mtproto-IsSound_example =
    attempt_mtproto-IsSound describe hmac 0 crypto draws (codes "a.bc") [] cand served
      (some hello_draws)
      (written_by (
        attempt_mtproto describe hmac 0 crypto draws (some hello_draws) (codes "a.bc") [] cand
          served))
      refl

abbrev conn : ObfConn
conn = record { enc = λ i. 5; enc_at = 64; dec = λ i. 5; dec_at = 0 }

-- The draws with the abridged tag and the data centre, and their last eight bytes under the stream.
abbrev header : Bytes
header = replicate 56 5 ++ (0xEA ∷ 0xEA ∷ 0xEA ∷ 0xEA ∷ 7 ∷ 5 ∷ 0 ∷ 0 ∷ [])

abbrev question : Bytes
question = unencrypted 0 (req_pq_multi_body nonce)

attempt_mtproto-served_example :
    (sealed : Bytes) × (proxy_accept crypto [] header ≡ ok (proxy_of cand conn))
    × (decode plain_read abridged (xor_key_stream conn.enc 64 sealed) ≡ ok (question, []))
    × (attempt_mtproto describe hmac 0 crypto draws none [] [] cand
          (xor_key_stream conn.dec 0 (reply ++ 1 ∷ []))
        ≡ ok (header ++ sealed))
unfolding new_obf_conn obfuscation_header draw_header is_taken matches_any equal write_tag stream_of
    xor_key_stream encode unencrypted req_pq_multi_body quick_check
attempt_mtproto-served_example =
    attempt_mtproto-served describe hmac 0 crypto nonce [] [] [] header (10 ∷ question) 0 2 abridged
      (some (replicate 64 5) ∷ []) conn (refl, tt) refl (omega arith) refl [] answer (1 ∷ []) reply
      0 (omega arith) refl (omega arith) (omega arith) refl
