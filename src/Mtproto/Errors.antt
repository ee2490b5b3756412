-- ===== src/Mtproto/Errors.antt =====
-- The errors that package mtproto makes (internal/mtproto): one constructor for each message, and
-- `eof` for a read that ends early (io.EOF, io.ErrUnexpectedEOF).
use mtproto_checker.Common.{Bytes, ℕ}
use mtproto_checker.Common.Text.{ℤ}

pub data Error : Type 0 where
  -- reading and writing
  eof write_failed rand_failed : Error
  -- tl.go
  not_a_vector unexpected_ctor implausible_vector : ℕ → Error
  -- transport.go
  bad_packet_length unaligned_payload : ℕ → Error
  -- ige.go
  bad_key ige_unaligned ige_bad_iv : Error
  -- faketls.go
  incomplete_record_header incomplete_record_payload : Error
  incomplete_server_hello not_server_hello handoff_missing no_server_hello_payload : Error
  session_id_truncated session_id_mismatch too_short_for_digest hmac_mismatch : Error
  empty_domain not_ascii_domain : Error
  bad_record_type bad_first_record_type : ℕ → Error
  -- obfuscate.go; `no_more_draws` is none of Go's
  no_more_draws : Error
  -- respq.go, auth.go, session.go
  resp_too_short not_resp_pq nonce_mismatch server_nonce_mismatch : Error
  bad_pq_length : ℕ → Error
  message_too_short bad_auth_key_id bad_body_length : Error
  not_factorized : Error
  plain_too_short msg_key_mismatch wrong_ping_id bad_container_entry : Error
  empty_body rpc_error no_pong : Error
  bad_container_size : ℕ → Error
  inner_too_short hash_mismatch : Error
  bad_generator bad_prime_size : ℕ → Error
  bad_g_a not_prime not_safe_prime : Error
  -- api.go
  rpc_timed_out no_rpc_result salt_rejected gzip_failed : Error
  query_failed : ℤ → Bytes → Error
  unexpected_langpack : ℕ → Error
  -- rsa.go
  no_known_key rsa_too_long rsa_no_value : Error
  -- none of Go's: fuel has run out
  too_deep : Error
