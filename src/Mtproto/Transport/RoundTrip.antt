-- ===== src/Mtproto/Transport/RoundTrip.antt =====
-- Each framing reads back the packet that it wrote, and leaves what follows it.
use mtproto_checker.Common.{
  Bytes, [], ap, arith, drop-append, length, length-append, ok, refl, some, take-append, ℕ, ◌%◌,
  ◌*◌, ◌++◌, ◌+◌, ◌-◌, ◌/◌, ◌<◌, ◌^◌, ◌∷◌, ◌≡◌, ◌≤◌,
}
use mtproto_checker.Mtproto.Binary.{uint32_le-bytes, uint32_le_bytes}
use mtproto_checker.Mtproto.Transport.{
  Transport, abridged, decode, decode_abridged, decode_intermediate, decode_padded_intermediate,
  encode, encode_abridged, intermediate, max_packet_len, padded_intermediate, plain_read,
}

pub plain_read-append :
    (p rest : Bytes) (n : ℕ) → n ≡ length p → plain_read n (p ++ rest) ≡ ok (p, rest)
unfolding plain_read
plain_read-append p rest n h =
    ground (arith, length-append p rest, take-append p rest n, drop-append p rest n)

-- The packets that a framing can carry: not empty, at most a mebibyte, and whole words where the
-- framing counts words or pads.
abbrev pub Fits : Transport → Bytes → Bytes → Type 0
Fits intermediate padding p = (1 ≤ length p) × (length p ≤ max_packet_len)
Fits abridged padding p = (1 ≤ length p) × (length p ≤ max_packet_len) × (length p % 4 ≡ 0)
Fits padded_intermediate padding p =
    (1 ≤ length p)
    × (length p + length padding ≤ max_packet_len)
    × (length p % 4 ≡ 0)
    × (length padding < 4)

decode_intermediate_lem :
    (p rest : Bytes)
    → 1 ≤ length p
    → length p ≤ max_packet_len
    → decode_intermediate plain_read (uint32_le_bytes (length p % 2 ^ 32) ++ (p ++ rest))
      ≡ ok (p, rest)
unfolding decode_intermediate
decode_intermediate_lem p rest lo hi =
    let n = length p % 2 ^ 32 in
    let e : n ≡ length p = omega arith in
    ground (
      arith,
      plain_read-append (uint32_le_bytes n) (p ++ rest) 4 (omega arith),
      uint32_le-bytes n [] (omega arith),
      e,
      plain_read-append p rest (length p) refl,
    )

decode_padded_lem :
    (p padding rest : Bytes)
    → Fits padded_intermediate padding p
    → decode_padded_intermediate plain_read
        (uint32_le_bytes (length (p ++ padding) % 2 ^ 32) ++ ((p ++ padding) ++ rest))
      ≡ ok (p, rest)
unfolding decode_padded_intermediate
decode_padded_lem p padding rest (lo, hi, words, few) =
    let n = length-append p padding in
    ground (
      arith,
      n,
      decode_intermediate_lem (p ++ padding) rest (omega (arith, n)) (omega (arith, n)),
      take-append p padding (length (p ++ padding) - length (p ++ padding) % 4) (omega (arith, n)),
    )

decode_abridged_lem :
    (p rest packet : Bytes)
    → Fits abridged [] p
    → encode_abridged p ≡ ok packet
    → decode_abridged plain_read (packet ++ rest) ≡ ok (p, rest)
unfolding encode_abridged decode_abridged
decode_abridged_lem p rest packet (lo, hi, aligned) e =
    let n = length p / 4 in
    let size : Bytes = (n % 256) ∷ (n / 2 ^ 8 % 256) ∷ (n / 2 ^ 16 % 256) ∷ [] in
    let mark : Bytes = 0x7F ∷ [] in
    let one : Bytes = (n % 256) ∷ [] in
    ground (
      arith,
      plain_read-append one (p ++ rest) 1 refl,
      plain_read-append mark (size ++ (p ++ rest)) 1 refl,
      plain_read-append size (p ++ rest) 3 refl,
      plain_read-append p rest (length p) refl,
      ap (λ k. plain_read k (p ++ rest)) (let w : n * 4 ≡ length p = omega arith in w),
    )

-- Whatever framing is chosen, a packet that it can carry is read back as it was sent, padding and
-- header gone, and the bytes that follow it are left in the reader.
pub decode-encode :
    (t : Transport) (padding p rest packet : Bytes)
    → Fits t padding p
    → encode t (some padding) p ≡ ok packet
    → decode plain_read t (packet ++ rest) ≡ ok (p, rest)
unfolding decode encode
decode-encode intermediate padding p rest packet (lo, hi) e =
    ground (arith, decode_intermediate_lem p rest lo hi)
decode-encode abridged padding p rest packet f e = decode_abridged_lem p rest packet f e
decode-encode padded_intermediate padding p rest packet f e =
    ground (arith, decode_padded_lem p padding rest f)
