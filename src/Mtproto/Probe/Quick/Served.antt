-- ===== src/Mtproto/Probe/Quick/Served.antt =====
-- A quick attempt without FakeTLS, at a proxy that has the secret and asks Telegram: it succeeds.
use mtproto_checker.Common.{
  All, append-nil, sym, Bytes, List, Option, [], ap, length, none, ok, refl, some, ℕ, ◌<◌, ◌++◌,
  ◌^◌, ◌∙◌, ◌≡◌, ◌≤◌,
}
use mathlib.Core.Path.{subst}
use mtproto_checker.Common.Text.{pos}
use mtproto_checker.Mtproto.Binary.{int_word, uint16_le_bytes}
use mtproto_checker.Mtproto.Errors.{Error}
use mtproto_checker.Mtproto.Transport.{
  Transport, abridged, decode, encode, intermediate, padded_intermediate, plain_read, tag,
}
use mtproto_checker.Mtproto.Transport.RoundTrip
use mtproto_checker.Mtproto.Transport.RoundTrip.{decode-encode}
use mtproto_checker.Mtproto.Stream.{recv_unencrypted, send_raw, send_unencrypted, unencrypted}
use mtproto_checker.Mtproto.Stream.RoundTrip.{open_unencrypted-unencrypted}
use mtproto_checker.Mtproto.Auth.Answers.{quick_check, req_pq_multi_body}
use mtproto_checker.Mtproto.Obfuscate
use mtproto_checker.Mtproto.Obfuscate.{
  ObfConn, new_obf_conn, obf_read_full, obf_write, xor_key_stream,
}
use mtproto_checker.Mtproto.Obfuscate.Peer.{
  IsDraw, Proxy, new_obf_conn-places, new_obf_conn-proxy_accept, proxy_accept,
}
use mtproto_checker.Mtproto.Obfuscate.Packets.{decode-obf_read_full}
use mtproto_checker.Mtproto.Obfuscate.Streams.{xor_key_stream-xor_key_stream}
use mtproto_checker.Mtproto.Probe.{Candidate, Fault}
use mtproto_checker.Mtproto.Probe.Quick.{Draws, ask_res_pq, attempt_mtproto, handshake, mark}

-- What an attempt draws, where crypto/rand does not fail.
abbrev pub drawn : Bytes → Bytes → ℕ → List (Option Bytes) → Draws
drawn nonce padding id headers = record {
  nonce = some nonce;
  padding = some padding;
  id = id;
  headers = headers;
}

-- The proxy's view of a connection that `c` is the client's view of.
abbrev pub proxy_of : Candidate → ObfConn → Proxy
proxy_of cand c = record {
  tag = tag cand.framing;
  dc_word = uint16_le_bytes (int_word 16 (pos cand.dc));
  from_client = c.enc;
  to_client = c.dec;
}

length-tag : (t : Transport) → length (tag t) ≡ 4
length-tag intermediate = refl
length-tag abridged = refl
length-tag padded_intermediate = refl

module _ (nonce padding padding' body rest packet reply : Bytes) (id id' : ℕ) (tr : Transport)
    (headers : List (Option Bytes)) (c : ObfConn)
    (asked : encode tr (some padding) (unencrypted id (req_pq_multi_body nonce)) ≡ ok packet)
    (fits : RoundTrip.Fits tr padding' (unencrypted id' body))
    (answered : encode tr (some padding') (unencrypted id' body) ≡ ok reply) (lo : 4 ≤ length body)
    (hi : length body < 2 ^ 32) (right : quick_check body nonce ≡ ok tt) where
  ask_res_pq-answered :
      (at : ℕ) × (ask_res_pq
          (obf_read_full plain_read)
          (drawn nonce padding id headers)
          (record { tr = tr; tag_first = []; written = [] })
          (c, xor_key_stream c.dec c.dec_at (reply ++ rest))
        ≡ ok (
          record { tr = tr; tag_first = []; written = packet },
          (record c { dec_at = at }, xor_key_stream c.dec at rest),
        ))
  unfolding ask_res_pq send_unencrypted send_raw recv_unencrypted
  ask_res_pq-answered =
      let (at, got) =
        decode-obf_read_full tr padding' (unencrypted id' body) rest reply c fits answered in
      (at, rw (asked, got, open_unencrypted-unencrypted id' body lo hi, right) refl)

module _ (describe : Error → Fault) (hmac_sha256 : Bytes → Bytes → Bytes) (now : ℕ)
    (crypto : Obfuscate.Crypto) (nonce padding sni secret header packet : Bytes) (id dc : ℕ)
    (tr : Transport) (headers : List (Option Bytes)) (c : ObfConn) (draws : All IsDraw headers)
    (opened : new_obf_conn crypto secret (tag tr) (pos dc) headers ≡ ok (c, header))
    (fits : RoundTrip.Fits tr padding (unencrypted id (req_pq_multi_body nonce)))
    (asked : encode tr (some padding) (unencrypted id (req_pq_multi_body nonce)) ≡ ok packet) where
  abbrev proxy : Proxy
  proxy = proxy_of (record { dc = dc; framing = tr }) c

  proxy_reads :
      (sealed : Bytes)
      → sealed ≡ xor_key_stream c.enc c.enc_at packet
      → decode plain_read tr (xor_key_stream c.enc 64 sealed)
        ≡ ok (unencrypted id (req_pq_multi_body nonce), [])
  proxy_reads sealed e =
      let (at, _) =
        new_obf_conn-places crypto secret (tag tr) (pos dc) headers c header (length-tag tr) draws
          opened in
      let plain : xor_key_stream c.enc 64 sealed ≡ packet ++ [] =
        ap (xor_key_stream c.enc 64) (e ∙ ap (λ k. xor_key_stream c.enc k packet) at)
        ∙ xor_key_stream-xor_key_stream c.enc 64 packet
        ∙ sym (append-nil packet) in
      ap (decode plain_read tr) plain
      ∙ decode-encode tr padding (unencrypted id (req_pq_multi_body nonce)) [] packet fits asked

  -- Without FakeTLS, with a proxy that has the secret, a quick attempt asks and is answered. The proxy
  -- accepts the header, for the framing and the data centre of the candidate, and reads the question
  -- from what the client writes behind it; and if it sends back a message whose body is a resPQ for the
  -- nonce, with whatever behind it, the attempt succeeds, and has written the header and the question
  -- and no more.
  pub attempt_mtproto-served :
      (padding' body rest reply : Bytes) (id' : ℕ)
      → RoundTrip.Fits tr padding' (unencrypted id' body)
      → encode tr (some padding') (unencrypted id' body) ≡ ok reply
      → 4 ≤ length body
      → length body < 2 ^ 32
      → quick_check body nonce ≡ ok tt
      → (sealed : Bytes) × (proxy_accept crypto secret header ≡ ok proxy)
        × (decode plain_read tr (xor_key_stream proxy.from_client 64 sealed)
            ≡ ok (unencrypted id (req_pq_multi_body nonce), []))
        × (attempt_mtproto describe hmac_sha256 now crypto
              (drawn nonce padding id headers)
              none
              sni
              secret
              (record { dc = dc; framing = tr })
              (xor_key_stream proxy.to_client 0 (reply ++ rest))
            ≡ ok (header ++ sealed))
  unfolding attempt_mtproto handshake mark obf_write
  attempt_mtproto-served padding' body rest reply id' fits' answered lo hi right =
      let sealed = xor_key_stream c.enc c.enc_at packet in
      let (_, start) =
        new_obf_conn-places crypto secret (tag tr) (pos dc) headers c header (length-tag tr) draws
          opened in
      let (at, done) =
        ask_res_pq-answered nonce padding padding' body rest packet reply id id' tr headers c asked
          fits' answered lo hi right in
      (
        sealed,
        new_obf_conn-proxy_accept crypto secret (tag tr) (pos dc) headers c header (length-tag tr)
            draws opened,
        proxy_reads sealed refl,
        rw
            (
              opened,
              subst
                  (λ k.
                    ask_res_pq (obf_read_full plain_read) (drawn nonce padding id headers)
                      (record { tr = tr; tag_first = []; written = [] })
                      (c, xor_key_stream c.dec k (reply ++ rest))
                    ≡ ok (
                      record { tr = tr; tag_first = []; written = packet },
                      (record c { dec_at = at }, xor_key_stream c.dec at rest),
                    ))
                  start done,
            )
            refl,
      )
