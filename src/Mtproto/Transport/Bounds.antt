-- ===== src/Mtproto/Transport/Bounds.antt =====
-- What a decoded packet can be, whatever the peer sends.
use mtproto_checker.Common.{
  >>=-eq-ok, Bytes, arith, get_or, length, length-take, ok, ℕ, ◌%◌, ◌*◌, ◌-◌, ◌≡◌, ◌≤◌,
}
use mtproto_checker.Mtproto.Binary.{uint32_le}
use mtproto_checker.Mtproto.Transport.{
  Reader, Transport, abridged, decode, decode_abridged, decode_intermediate,
  decode_padded_intermediate, intermediate, max_packet_len, padded_intermediate, plain_read,
  read_packet, read_words,
}

-- io.ReadFull: a read that succeeds gives as many bytes as it was asked for.
abbrev pub IsExact : {S : Type 0} → Reader S → Type 0
IsExact {S} read_full =
    (n : ℕ) (s : S) (p : Bytes) (s' : S) → read_full n s ≡ ok (p, s') → length p ≡ n

pub plain_read-IsExact : IsExact plain_read
unfolding plain_read
plain_read-IsExact n s p s' e = ground (arith, length-take n s)

-- What the framing leaves of the lengths: padding is stripped to whole words, and words are
-- counted in fours.
abbrev pub Decoded : Transport → Bytes → Type 0
Decoded intermediate p = (1 ≤ length p) × (length p ≤ max_packet_len)
Decoded abridged p = (4 ≤ length p) × (length p ≤ max_packet_len) × (length p % 4 ≡ 0)
Decoded padded_intermediate p = (length p ≤ max_packet_len) × (length p % 4 ≡ 0)

module _ {S : Type 0} (read_full : Reader S) (exact : IsExact read_full) where
  read_packet_bounds :
      (n : ℕ) (s : S) (p : Bytes) (s' : S)
      → read_packet read_full n s ≡ ok (p, s')
      → (length p ≡ n) × (1 ≤ n) × (n ≤ max_packet_len)
  unfolding read_packet
  read_packet_bounds n s p s' e = ground (arith, exact n s p s')

  decode_intermediate_bounds :
      (s : S) (p : Bytes) (s' : S)
      → decode_intermediate read_full s ≡ ok (p, s')
      → Decoded intermediate p
  unfolding decode_intermediate
  decode_intermediate_bounds s p s' e =
      let ((head, s1), r, e') = >>=-eq-ok (read_full 4 s) _ e in
      ground (arith, read_packet_bounds (uint32_le head) s1 p s' e')

  decode_abridged_bounds :
      (s : S) (p : Bytes) (s' : S) → decode_abridged read_full s ≡ ok (p, s') → Decoded abridged p
  unfolding decode_abridged
  decode_abridged_bounds s p s' e =
      let ((first, s1), r, e1) = >>=-eq-ok (read_full 1 s) _ e in
      let ((words, s2), r2, e2) = >>=-eq-ok (read_words read_full (get_or first 0 0) s1) _ e1 in
      ground (arith, read_packet_bounds (words * 4) s2 p s' e2)

  -- Over every reader that is exact, a packet that is decoded is at most a mebibyte long, and is
  -- not empty unless padding was stripped; it is whole words but for the plain intermediate framing.
  pub decode_bounds :
      (t : Transport) (s : S) (p : Bytes) (s' : S) → decode read_full t s ≡ ok (p, s') → Decoded t p
  unfolding decode decode_padded_intermediate
  decode_bounds intermediate s p s' e = decode_intermediate_bounds s p s' e
  decode_bounds abridged s p s' e = decode_abridged_bounds s p s' e
  decode_bounds padded_intermediate s p s' e =
      let ((packet, s1), r, e') = >>=-eq-ok (decode_intermediate read_full s) _ e in
      let kept = length packet - length packet % 4 in
      ground (arith, decode_intermediate_bounds s packet s1 r, length-take kept packet)
