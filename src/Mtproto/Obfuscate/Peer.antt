-- ===== src/Mtproto/Obfuscate/Peer.antt =====
-- The proxy's side of an obfuscated connection, from the header that arrives and the secret alone.
use mathlib.Core.List.{reverse-append}
use mtproto_checker.Common.{
  >>=-eq-ok, All, Bool-cases, Bytes, List, Option, Result, [], ap, arith, drop, drop-append, inl,
  inr, length, length-append, length-drop, length-reverse, length-take, none, of_ok, ok, refl,
  reverse, slice, slice-append_ge, slice-append_le, some, sym, take, take-append, take_all, ℕ, ◌++◌,
  ◌+◌, ◌-◌, ◌>>=◌, ◌∙◌, ◌∷◌, ◌≡◌, ◌≤◌,
}
use mtproto_checker.Common.Text.{ℤ}
use mtproto_checker.Mtproto.Binary.{int_word, uint16_le_bytes}
use mtproto_checker.Mtproto.Errors.{Error}
use mtproto_checker.Mtproto.Obfuscate.{
  Crypto, KeyStream, ObfConn, draw_header, is_taken, new_obf_conn, obfuscation_header, stream_of,
  write_tag, xor_key_stream,
}
use mtproto_checker.Mtproto.Obfuscate.Streams.{
  length-xor_key_stream, xor_key_stream-append, xor_key_stream-xor_key_stream,
}

-- The proxy decrypts the 64 bytes with the key that stands in them, and reads the tag and the data
-- centre; its own stream has the key that stands in the reversed bytes.
pub record Proxy : Type 0 where
  pub tag : Bytes
  pub dc_word : Bytes
  pub from_client : KeyStream
  pub to_client : KeyStream

abbrev pub proxy_accept : Crypto → Bytes → Bytes → Result Error Proxy
proxy_accept crypto secret wire = do
  from_client ← stream_of crypto wire secret
  to_client ← stream_of crypto (reverse wire) secret
  let plain = xor_key_stream from_client 0 wire
  ok (record {
    tag = slice 56 60 plain;
    dc_word = slice 60 62 plain;
    from_client = from_client;
    to_client = to_client;
  })

-- The front of 56 bytes and eight bytes behind it: what determines the keys is the front.
module _ (front back back' : Bytes) (n : length front ≡ 56) (m : length back ≡ 8)
    (m' : length back' ≡ 8) where
  slice_front : (a b : ℕ) → a ≤ b → b ≤ 56 → slice a b (front ++ back) ≡ slice a b (front ++ back')
  slice_front a b l h =
      slice-append_le a b front back l (omega (arith, n))
      ∙ sym (slice-append_le a b front back' l (omega (arith, n)))

  slice_reversed :
      (a b : ℕ) → 8 ≤ a → slice a b (reverse (front ++ back)) ≡ slice a b (reverse (front ++ back'))
  slice_reversed a b h =
      let e : length (reverse back) ≡ 8 = length-reverse back ∙ m in
      let e' : length (reverse back') ≡ 8 = length-reverse back' ∙ m' in
      ap (slice a b) (reverse-append front back)
      ∙ slice-append_ge a b (reverse back) (reverse front) (omega (arith, e))
      ∙ ap (λ k. slice (a - k) (b - k) (reverse front)) (e ∙ sym e')
      ∙ sym (slice-append_ge a b (reverse back') (reverse front) (omega (arith, e')))
      ∙ ap (slice a b) (sym (reverse-append front back'))

  pub stream_of_front :
      (crypto : Crypto) (secret : Bytes)
      → stream_of crypto (front ++ back) secret ≡ stream_of crypto (front ++ back') secret
  unfolding stream_of
  stream_of_front crypto secret =
      ap (λ k. crypto.new_ctr (crypto.sha256 (k ++ secret)) (slice 40 56 (front ++ back)))
        (slice_front 8 40 (omega arith) (omega arith))
      ∙ ap (crypto.new_ctr (crypto.sha256 (slice 8 40 (front ++ back') ++ secret)))
          (slice_front 40 56 (omega arith) (omega arith))

  pub stream_of_reversed :
      (crypto : Crypto) (secret : Bytes)
      → stream_of crypto (reverse (front ++ back)) secret
        ≡ stream_of crypto (reverse (front ++ back')) secret
  unfolding stream_of
  stream_of_reversed crypto secret =
      ap (λ k. crypto.new_ctr (crypto.sha256 (k ++ secret)) (slice 40 56 (reverse (front ++ back))))
        (slice_reversed 8 40 (omega arith))
      ∙ ap (crypto.new_ctr (crypto.sha256 (slice 8 40 (reverse (front ++ back')) ++ secret)))
          (slice_reversed 40 56 (omega arith))

-- What the client has written, with its header taken apart: 56 bytes, then tag, data centre and two
-- more under its stream.
wire_lem :
    (enc : KeyStream) (front back : Bytes)
    → length front ≡ 56
    → length back ≡ 8
    → take 56 (front ++ back) ++ slice 56 64 (xor_key_stream enc 0 (front ++ back))
      ≡ front ++ xor_key_stream enc 56 back
wire_lem enc front back n m =
    let body = xor_key_stream enc 56 back in
    let size : length body ≡ 8 = length-xor_key_stream enc 56 back ∙ m in
    let start : 0 + length front ≡ 56 = omega (arith, n) in
    let split : xor_key_stream enc 0 (front ++ back) ≡ xor_key_stream enc 0 front ++ body =
      xor_key_stream-append enc 0 front back
      ∙ ap (λ k. xor_key_stream enc 0 front ++ xor_key_stream enc k back) start in
    let cut : drop 56 (xor_key_stream enc 0 front ++ body) ≡ body =
      drop-append (xor_key_stream enc 0 front) body 56
        (sym (length-xor_key_stream enc 0 front ∙ n)) in
    rw (take-append front back 56 (sym n), split, cut, take_all body 8 (omega (arith, size))) refl

proxy_accept_lem :
    (crypto : Crypto) (secret front back : Bytes) (enc dec : KeyStream)
    → length front ≡ 56
    → length back ≡ 8
    → stream_of crypto (front ++ back) secret ≡ ok enc
    → stream_of crypto (reverse (front ++ back)) secret ≡ ok dec
    → proxy_accept crypto secret (front ++ xor_key_stream enc 56 back)
      ≡ ok (record {
        tag = slice 0 4 back;
        dc_word = slice 4 6 back;
        from_client = enc;
        to_client = dec;
      })
proxy_accept_lem crypto secret front back enc dec n m f g =
    let body = xor_key_stream enc 56 back in
    let size : length body ≡ 8 = length-xor_key_stream enc 56 back ∙ m in
    let f' = stream_of_front front body back n size m crypto secret ∙ f in
    let g' = stream_of_reversed front body back n size m crypto secret ∙ g in
    let start : 0 + length front ≡ 56 = omega (arith, n) in
    let split : xor_key_stream enc 0 (front ++ body) ≡ xor_key_stream enc 0 front ++ back =
      xor_key_stream-append enc 0 front body
      ∙ ap (λ k. xor_key_stream enc 0 front ++ xor_key_stream enc k body) start
      ∙ ap (◌++◌ (xor_key_stream enc 0 front)) (xor_key_stream-xor_key_stream enc 56 back) in
    let long : length (xor_key_stream enc 0 front) ≡ 56 = length-xor_key_stream enc 0 front ∙ n in
    let tag = slice-append_ge 56 60 (xor_key_stream enc 0 front) back (omega (arith, long)) in
    let dc = slice-append_ge 60 62 (xor_key_stream enc 0 front) back (omega (arith, long)) in
    rw (f', g', split, tag, dc, long) refl

-- What crypto/rand puts into the 64 bytes.
abbrev pub IsDraw : Option Bytes → Type 0
IsDraw none = Unit {0}
IsDraw (some header) = length header ≡ 64

draw_header-IsDraw :
    (draws : List (Option Bytes)) (header : Bytes)
    → All IsDraw draws
    → draw_header draws ≡ ok header
    → length header ≡ 64
unfolding draw_header
draw_header-IsDraw [] header l e = cc
draw_header-IsDraw (none ∷ draws) header l e = cc
draw_header-IsDraw (some h ∷ draws) header (l, ls) e = elim (Bool-cases (is_taken h)) [
  | inl t ↦ draw_header-IsDraw draws header ls (rw (t, draw_header) at e)
  | inr t ↦ of_ok (λ x. length x ≡ 64) (rw (t, draw_header) at e) l
]

-- A header as the client makes it: what keys the streams, and the tag and the data centre behind it.
record IsHeader (tag : Bytes) (dc : ℤ) (header : Bytes) : Type 0 where
  front : Bytes
  back : Bytes
  made : header ≡ front ++ back
  front_length : length front ≡ 56
  back_length : length back ≡ 8
  has_tag : slice 0 4 back ≡ tag
  has_dc : slice 4 6 back ≡ uint16_le_bytes (int_word 16 dc)

obfuscation_header-IsHeader :
    (tag : Bytes) (dc : ℤ) (draws : List (Option Bytes)) (header : Bytes)
    → length tag ≡ 4
    → All IsDraw draws
    → obfuscation_header tag dc draws ≡ ok header
    → IsHeader tag dc header
unfolding obfuscation_header write_tag
obfuscation_header-IsHeader tag dc draws header t l e =
    let (h, drawn, e1) = >>=-eq-ok (draw_header draws) _ e in
    let size = draw_header-IsDraw draws h l drawn in
    let word = uint16_le_bytes (int_word 16 dc) in
    let rest = drop 62 h in
    of_ok (IsHeader tag dc) e1 (record {
      front = take 56 h;
      back = tag ++ (word ++ rest);
      made = refl;
      front_length = omega (arith, length-take 56 h, size);
      back_length = omega (arith, length-append tag (word ++ rest), t, length-drop 62 h, size);
      has_tag = take-append tag (word ++ rest) 4 (sym t);
      has_dc = ap (take 2) (drop-append tag (word ++ rest) 4 (sym t));
    })

IsAccepted : Crypto → Bytes → Bytes → ℤ → ObfConn × Bytes → Type 0
IsAccepted crypto secret tag dc (c, wire) =
    proxy_accept crypto secret wire
    ≡ ok (record {
      tag = tag;
      dc_word = uint16_le_bytes (int_word 16 dc);
      from_client = c.enc;
      to_client = c.dec;
    })

IsAccepted_lem :
    (crypto : Crypto) (secret tag : Bytes) (dc : ℤ) (header front back : Bytes)
    (enc dec : KeyStream)
    → header ≡ front ++ back
    → length front ≡ 56
    → length back ≡ 8
    → slice 0 4 back ≡ tag
    → slice 4 6 back ≡ uint16_le_bytes (int_word 16 dc)
    → stream_of crypto header secret ≡ ok enc
    → stream_of crypto (reverse header) secret ≡ ok dec
    → IsAccepted crypto secret tag dc (
      record { enc = enc; enc_at = length header; dec = dec; dec_at = 0 },
      take 56 header ++ slice 56 64 (xor_key_stream enc 0 header),
    )
unfolding IsAccepted
IsAccepted_lem crypto secret tag dc header front back enc dec made n m has_tag has_dc f g =
    let lem = proxy_accept_lem crypto secret front back enc dec n m (rw made at f) (rw made at g) in
    rw (made, wire_lem enc front back n m, lem, has_tag, has_dc) refl

-- With the same secret, a proxy reads from the client's header the tag and the data centre that the
-- client meant, and ends up with the client's two streams, each for the other direction.
pub new_obf_conn-proxy_accept :
    (crypto : Crypto) (secret tag : Bytes) (dc : ℤ) (draws : List (Option Bytes)) (c : ObfConn)
    (wire : Bytes)
    → length tag ≡ 4
    → All IsDraw draws
    → new_obf_conn crypto secret tag dc draws ≡ ok (c, wire)
    → proxy_accept crypto secret wire
      ≡ ok (record {
        tag = tag;
        dc_word = uint16_le_bytes (int_word 16 dc);
        from_client = c.enc;
        to_client = c.dec;
      })
unfolding new_obf_conn IsAccepted
new_obf_conn-proxy_accept crypto secret tag dc draws c wire t l e =
    let (header, drawn, e1) = >>=-eq-ok (obfuscation_header tag dc draws) _ e in
    let (enc, f, e2) = >>=-eq-ok (stream_of crypto header secret) _ e1 in
    let (dec, g, e3) = >>=-eq-ok (stream_of crypto (reverse header) secret) _ e2 in
    let h = obfuscation_header-IsHeader tag dc draws header t l drawn in
    of_ok (IsAccepted crypto secret tag dc) e3 (
      IsAccepted_lem crypto secret tag dc header h.front h.back enc dec h.made h.front_length
        h.back_length h.has_tag h.has_dc f g)

-- Behind its header of 64 bytes the client goes on writing, and has read nothing.
pub new_obf_conn-places :
    (crypto : Crypto) (secret tag : Bytes) (dc : ℤ) (draws : List (Option Bytes)) (c : ObfConn)
    (wire : Bytes)
    → length tag ≡ 4
    → All IsDraw draws
    → new_obf_conn crypto secret tag dc draws ≡ ok (c, wire)
    → (c.enc_at ≡ 64) × (c.dec_at ≡ 0)
unfolding new_obf_conn
new_obf_conn-places crypto secret tag dc draws c wire t l e =
    let (header, drawn, e1) = >>=-eq-ok (obfuscation_header tag dc draws) _ e in
    let (enc, f, e2) = >>=-eq-ok (stream_of crypto header secret) _ e1 in
    let (dec, g, e3) = >>=-eq-ok (stream_of crypto (reverse header) secret) _ e2 in
    let h = obfuscation_header-IsHeader tag dc draws header t l drawn in
    let size : length header ≡ 64 =
      omega
        (arith, ap length h.made, length-append h.front h.back, h.front_length, h.back_length) in
    of_ok (λ (p : ObfConn × Bytes). (p.0.enc_at ≡ 64) × (p.0.dec_at ≡ 0)) e3 (size, refl)
