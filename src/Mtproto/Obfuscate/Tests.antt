-- ===== src/Mtproto/Obfuscate/Tests.antt =====
-- A header of one draw, under a key stream of zeros and a digest that keeps its input.
use mtproto_checker.Common.{
  Bytes, List, Option, [], arith, equal, get_or, ok, refl, replicate, some, ℕ, ◌++◌, ◌∷◌, ◌≡◌,
}
use mtproto_checker.Common.Text.{pos}
use mtproto_checker.Mtproto.Transport.{abridged, decode, encode, plain_read}
use mtproto_checker.Mtproto.Obfuscate.{
  Crypto, ObfConn, draw_header, is_taken, matches_any, new_obf_conn, obf_read_full,
  obfuscation_header, stream_of, write_tag, xor_key_stream,
}
use mtproto_checker.Mtproto.Obfuscate.Header.{draw_header-first}
use mtproto_checker.Mtproto.Obfuscate.Peer.{new_obf_conn-proxy_accept, proxy_accept}
use mtproto_checker.Mtproto.Obfuscate.Packets.{decode-obf_read_full}

abbrev crypto : Crypto
crypto = record { sha256 = λ x. x; new_ctr = λ key iv. ok (λ i. get_or key 0 0) }

-- The first draw has the byte that the abridged framing begins with.
abbrev draws : List (Option Bytes)
draws = some (replicate 64 0xEF) ∷ some (replicate 64 5) ∷ []

abbrev conn : ObfConn
conn = record { enc = λ i. 5; enc_at = 64; dec = λ i. 5; dec_at = 0 }

draw_header-first_test : draw_header draws ≡ ok (replicate 64 5)
unfolding is_taken matches_any equal
draw_header-first_test =
    draw_header-first (replicate 64 0xEF ∷ []) (replicate 64 5) [] (refl, tt) refl

abbrev wire : Bytes
wire = replicate 56 5 ++ (0xE8 ∷ 0xE8 ∷ 0xE8 ∷ 0xE8 ∷ 7 ∷ 5 ∷ 0 ∷ 0 ∷ [])

new_obf_conn-proxy_accept_example :
    proxy_accept crypto [] wire
    ≡ ok (record {
      tag = 0xED ∷ 0xED ∷ 0xED ∷ 0xED ∷ [];
      dc_word = 2 ∷ 0 ∷ [];
      from_client = conn.enc;
      to_client = conn.dec;
    })
unfolding new_obf_conn obfuscation_header draw_header is_taken matches_any equal write_tag stream_of
    xor_key_stream
new_obf_conn-proxy_accept_example =
    new_obf_conn-proxy_accept crypto [] (0xED ∷ 0xED ∷ 0xED ∷ 0xED ∷ []) (pos 2) draws conn wire
      refl (refl, (refl, tt)) refl

decode-obf_read_full_test :
    (at : ℕ) × (decode
        (obf_read_full plain_read)
        abridged
        (conn, xor_key_stream conn.dec 0 ((1 ∷ 1 ∷ 2 ∷ 3 ∷ 4 ∷ []) ++ (9 ∷ [])))
      ≡ ok (1 ∷ 2 ∷ 3 ∷ 4 ∷ [], (record conn { dec_at = at }, xor_key_stream conn.dec at (9 ∷ []))))
unfolding encode
decode-obf_read_full_test =
    decode-obf_read_full abridged [] (1 ∷ 2 ∷ 3 ∷ 4 ∷ []) (9 ∷ []) (1 ∷ 1 ∷ 2 ∷ 3 ∷ 4 ∷ []) conn
      (omega arith) refl
