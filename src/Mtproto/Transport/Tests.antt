-- ===== src/Mtproto/Transport/Tests.antt =====
-- The framings on short packets.
use mtproto_checker.Common.{Bytes, [], arith, ok, refl, ◌∷◌, ◌≡◌}
use mtproto_checker.Mtproto.Transport.{abridged, decode, encode, padded_intermediate, plain_read}
use mtproto_checker.Mtproto.Transport.RoundTrip.{decode-encode}
use mtproto_checker.Mtproto.Transport.Bounds.{Decoded, decode_bounds, plain_read-IsExact}

abbrev payload : Bytes
payload = 1 ∷ 2 ∷ 3 ∷ 4 ∷ []

decode-encode_example :
    decode plain_read abridged (1 ∷ 1 ∷ 2 ∷ 3 ∷ 4 ∷ 9 ∷ []) ≡ ok (payload, 9 ∷ [])
unfolding encode
decode-encode_example = decode-encode abridged [] payload (9 ∷ []) (1 ∷ payload) (omega arith) refl

decode_bounds_example : Decoded padded_intermediate payload
unfolding decode plain_read
decode_bounds_example =
    decode_bounds plain_read plain_read-IsExact padded_intermediate
      (5 ∷ 0 ∷ 0 ∷ 0 ∷ 1 ∷ 2 ∷ 3 ∷ 4 ∷ 7 ∷ []) payload [] refl
