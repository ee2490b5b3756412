-- ===== src/Mtproto/FakeTls/Verify.antt =====
-- `verifyServerHello` of internal/mtproto/faketls.go; HMAC-SHA256 is an argument.
pub mod Authentic
use mtproto_checker.Common.{
  Bytes, List, Option, Result, [], drop, equal, err, get_or, if◌then◌else◌, length, ltb, none, not,
  ok, reject, replicate, slice, some, take, ℕ, ◌&&◌, ◌++◌, ◌+◌, ◌==◌, ◌>>=◌, ◌||◌, ◌∷◌,
}
use mtproto_checker.Mtproto.Errors.{
  Error, bad_record_type, handoff_missing, hmac_mismatch, incomplete_server_hello,
  no_server_hello_payload, not_server_hello, session_id_mismatch, session_id_truncated,
  too_short_for_digest,
}
use mtproto_checker.Mtproto.FakeTls.Builder.{overwrite_bytes}
use mtproto_checker.Mtproto.FakeTls.Records.{split_tls_records}

-- The types that may follow the first record.
unfoldable pub bad_following : List Bytes → Option ℕ
bad_following [] = none
bad_following (r ∷ rs) =
    let kind = get_or r 0 0 in
    let rest = bad_following rs in
    if not (kind == 0x14) && not (kind == 0x17) then some kind else rest

unfoldable pub last_record : Bytes → List Bytes → Bytes
last_record r [] = r
last_record r (x ∷ rs) = last_record x rs

-- The guards on the records, `first` and those behind it.
unfoldable pub check_shape : Bytes → List Bytes → Result Error (Unit {0})
check_shape first rest = do
  _ ← reject (not (equal (take 3 first) (0x16 ∷ 0x03 ∷ 0x03 ∷ []))) not_server_hello
  _ ← reject (not (get_or (last_record first rest) 0 0 == 0x17)) handoff_missing
  elim (bad_following rest) [ none ↦ ok tt | some kind ↦ err (bad_record_type kind) ]

-- The guards on the payload of the first record.
unfoldable pub check_session_id : Bytes → Bytes → Result Error (Unit {0})
check_session_id handshake session_id = do
  let id_len = get_or handshake 38 0
  _ ←
      reject (ltb (length handshake) 39 || not (get_or handshake 0 0 == 0x02))
        no_server_hello_payload
  _ ← reject (ltb (length handshake) (39 + id_len)) session_id_truncated
  reject (not (equal (slice 39 (39 + id_len) handshake) session_id)) session_id_mismatch

-- The response with its digest set to zero.
abbrev pub zeroed : Bytes → Bytes
zeroed response = overwrite_bytes 11 (replicate 32 0) response

module _ (hmac_sha256 : Bytes → Bytes → Bytes) where
  unfoldable pub check_digest : Bytes → Bytes → Bytes → Result Error (Unit {0})
  check_digest response secret_key client_random = do
    _ ← reject (ltb (length response) 43) too_short_for_digest
    reject
        (not (
          equal (slice 11 43 response) (hmac_sha256 secret_key (client_random ++ zeroed response))))
        hmac_mismatch

  unfoldable pub check_records :
      List Bytes → Bytes → Bytes → Bytes → Bytes → Result Error (Unit {0})
  check_records [] response secret_key session_id client_random = err incomplete_server_hello
  check_records (r ∷ []) response secret_key session_id client_random = err incomplete_server_hello
  check_records (first ∷ second ∷ rest) response secret_key session_id client_random = do
    _ ← check_shape first (second ∷ rest)
    _ ← check_session_id (drop 5 first) session_id
    check_digest response secret_key client_random

  -- `none` is the model's mark for a split that runs out of fuel, which it never does.
  unfoldable pub verify_server_hello :
      Bytes → Bytes → Bytes → Bytes → Option (Result Error (Unit {0}))
  verify_server_hello response secret_key session_id client_random =
      elim (split_tls_records response) [
        | none ↦ none
        | some (err e) ↦ some (err e)
        | some (ok records) ↦
            some (check_records records response secret_key session_id client_random)
      ]
