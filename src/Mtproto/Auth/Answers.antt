-- ===== src/Mtproto/Auth/Answers.antt =====
-- The answers of the server in the key exchange (internal/mtproto/auth.go), and `quickCheck` of
-- internal/mtproto/respq.go on the answer's body. SHA-1 and AES are parameters.
pub mod Bound
use mtproto_checker.Common.{
  Bytes, List, Option, Result, [], drop, equal, err, if◌then◌else◌, length, ltb, none, not, ok,
  reject, slice, some, take, ℕ, ◌%◌, ◌&&◌, ◌*◌, ◌++◌, ◌+◌, ◌-◌, ◌==◌, ◌>>=◌, ◌||◌, ◌∷◌,
}
use mtproto_checker.Mtproto.Binary.{uint32_le, uint32_le_bytes}
use mtproto_checker.Mtproto.Errors.{
  Error, bad_pq_length, hash_mismatch, inner_too_short, nonce_mismatch, not_resp_pq, rand_failed,
  resp_too_short, server_nonce_mismatch,
}
use mtproto_checker.Mtproto.Ige.{Block, ige_decrypt, ige_encrypt}
use mtproto_checker.Mtproto.Tl.Cursor.{
  Cursor, expect, failed, new_cursor, read_bytes, read_int128, read_uint32, read_vector_long,
}

abbrev pub ctor_req_pq_multi : ℕ
ctor_req_pq_multi = 0xBE7E8EF1

abbrev pub ctor_res_pq : ℕ
ctor_res_pq = 0x05162463

abbrev pub ctor_server_dh_params_ok : ℕ
ctor_server_dh_params_ok = 0xD0E8075C

abbrev pub ctor_server_dh_inner_data : ℕ
ctor_server_dh_inner_data = 0xB5890DBA

abbrev pub ctor_dh_gen_ok : ℕ
ctor_dh_gen_ok = 0x3BCBF734

-- `bigFromBytes`: the number that the bytes are, the highest first.
unfoldable pub big_from : ℕ → Bytes → ℕ
big_from value [] = value
big_from value (b ∷ p) = big_from (value * 256 + b) p

unfoldable pub req_pq_multi_body : Bytes → Bytes
req_pq_multi_body nonce = uint32_le_bytes ctor_req_pq_multi ++ nonce

-- `if !bytes.Equal(c.int128(), nonce) && c.err == nil`, and the cursor behind the 16 bytes.
unfoldable pub match_nonce : Bytes → Error → Cursor → Result Error Cursor
match_nonce nonce e c =
    let (got, c1) = read_int128 c in
    if not (equal got nonce) && not (failed c1.error) then err e else ok c1

-- `if c.err != nil { return c.err }`
unfoldable pub check_cursor : Cursor → Result Error (Unit {0})
check_cursor c = elim c.error [ some e ↦ err e | none ↦ ok tt ]

pub record ResPq : Type 0 where
  pub pq : ℕ
  pub server_nonce : Bytes
  pub fingerprints : List ℕ

unfoldable pub parse_res_pq : Bytes → Bytes → Result Error ResPq
parse_res_pq payload nonce = do
  c1 ← match_nonce nonce nonce_mismatch (expect ctor_res_pq (new_cursor payload))
  let (server_nonce, c2) = read_int128 c1
  let (pq_bytes, c3) = read_bytes c2
  let (fingerprints, c4) = read_vector_long c3
  _ ← check_cursor c4
  _ ← reject (length pq_bytes == 0 || ltb 8 (length pq_bytes)) (bad_pq_length (length pq_bytes))
  ok (record { pq = big_from 0 pq_bytes; server_nonce = server_nonce; fingerprints = fingerprints })

-- `quickCheck`, from the answer on.
unfoldable pub quick_check : Bytes → Bytes → Result Error (Unit {0})
quick_check body nonce = do
  _ ← reject (ltb (length body) 20) resp_too_short
  _ ← reject (not (uint32_le (take 4 body) == ctor_res_pq)) not_resp_pq
  reject (not (equal (slice 4 20 body) nonce)) nonce_mismatch

pub record Crypto : Type 0 where
  pub sha1 : Bytes → Bytes
  pub new_cipher : Bytes → Result Error Block

-- What the answer holds: the generator, the prime, the server's half, and its time.
pub record DhParams : Type 0 where
  pub g : ℕ
  pub dh_prime : ℕ
  pub g_a : ℕ
  pub server_time : ℕ

module _ (crypto : Crypto) where
  -- The key and the vector.
  unfoldable pub dh_temp_keys : Bytes → Bytes → Bytes × Bytes
  dh_temp_keys new_nonce server_nonce =
      let new_server = crypto.sha1 (new_nonce ++ server_nonce) in
      let server_new = crypto.sha1 (server_nonce ++ new_nonce) in
      let new_new = crypto.sha1 (new_nonce ++ new_nonce) in
      (new_server ++ take 12 server_new, slice 12 20 server_new ++ (new_new ++ take 4 new_nonce))

  -- The inner data, with the digest in its first 20 bytes.
  unfoldable pub parse_inner : Bytes → Bytes → Bytes → Result Error DhParams
  parse_inner decrypted nonce server_nonce = do
    _ ← reject (ltb (length decrypted) 20) inner_too_short
    i1 ←
        match_nonce nonce nonce_mismatch
          (expect ctor_server_dh_inner_data (new_cursor (drop 20 decrypted)))
    i2 ← match_nonce server_nonce server_nonce_mismatch i1
    let (g, i3) = read_uint32 i2
    let (prime_bytes, i4) = read_bytes i3
    let (g_a_bytes, i5) = read_bytes i4
    let (server_time, i6) = read_uint32 i5
    _ ← check_cursor i6
    _ ←
        reject (not (equal (crypto.sha1 (slice 20 (20 + i6.i) decrypted)) (take 20 decrypted)))
          hash_mismatch
    ok (record {
      g = g;
      dh_prime = big_from 0 prime_bytes;
      g_a = big_from 0 g_a_bytes;
      server_time = server_time;
    })

  unfoldable pub parse_server_dh_params :
      Bytes → Bytes → Bytes → Bytes → Bytes → Result Error DhParams
  parse_server_dh_params payload nonce server_nonce tmp_key tmp_iv = do
    c1 ← match_nonce nonce nonce_mismatch (expect ctor_server_dh_params_ok (new_cursor payload))
    c2 ← match_nonce server_nonce server_nonce_mismatch c1
    let (answer, c3) = read_bytes c2
    _ ← check_cursor c3
    decrypted ← ige_decrypt crypto.new_cipher answer tmp_key tmp_iv
    parse_inner decrypted nonce server_nonce

  -- `random` is `randomBytes`.
  unfoldable pub encrypt_dh_inner : (ℕ → Option Bytes) → Bytes → Bytes → Bytes → Result Error Bytes
  encrypt_dh_inner random body tmp_key tmp_iv =
      let payload = crypto.sha1 body ++ body in
      let pad = (16 - length payload % 16) % 16 in
      if pad == 0 then ige_encrypt crypto.new_cipher payload tmp_key tmp_iv else elim (random pad) [
        | none ↦ err rand_failed
        | some filler ↦ ige_encrypt crypto.new_cipher (payload ++ filler) tmp_key tmp_iv
      ]

  -- The digest by which the server shows that it has the same key.
  unfoldable pub new_nonce_hash : Bytes → Bytes → Bytes
  new_nonce_hash new_nonce shared =
      slice 4 20 (crypto.sha1 (new_nonce ++ (1 ∷ take 8 (crypto.sha1 shared))))

  unfoldable pub verify_dh_gen : Bytes → Bytes → Bytes → Bytes → Bytes → Result Error (Unit {0})
  verify_dh_gen payload nonce server_nonce new_nonce shared = do
    c1 ← match_nonce nonce nonce_mismatch (expect ctor_dh_gen_ok (new_cursor payload))
    c2 ← match_nonce server_nonce server_nonce_mismatch c1
    let (got, c3) = read_int128 c2
    _ ← check_cursor c3
    reject (not (equal got (new_nonce_hash new_nonce shared))) hash_mismatch
