-- ===== src/Mtproto/Transport.antt =====
-- internal/mtproto/transport.go: the three packet framings, over any reader.
pub mod RoundTrip
pub mod Bounds
pub mod Layers
mod Tests
use mtproto_checker.Common.{
  Bytes, Option, Result, [], drop, err, get_or, if◌then◌else◌, length, ltb, none, not, ok, some,
  take, ℕ, ◌%◌, ◌*◌, ◌++◌, ◌+◌, ◌-◌, ◌/◌, ◌==◌, ◌>>=◌, ◌^◌, ◌||◌, ◌∷◌,
}
use mtproto_checker.Mtproto.Binary.{uint32_le, uint32_le_bytes}
use mtproto_checker.Mtproto.Errors.{Error, bad_packet_length, eof, rand_failed, unaligned_payload}

abbrev pub max_packet_len : ℕ
max_packet_len = 2 ^ 20

-- The interface `reader`: `ReadFull` gives exactly `n` bytes and the reader's next state.
abbrev pub Reader : Type 0 → Type 0
Reader S = ℕ → S → Result Error (Bytes × S)

-- `plainReader` over what the peer sends until it closes: io.ReadFull fails on a short read.
unfoldable pub plain_read : Reader Bytes
plain_read n s = if ltb (length s) n then err eof else ok (take n s, drop n s)

-- The three values of the struct `transport`.
pub data Transport : Type 0 where
  intermediate abridged padded_intermediate : Transport

-- The field `tag`: what the obfuscated header announces.
abbrev pub tag : Transport → Bytes
tag intermediate = 0xEE ∷ 0xEE ∷ 0xEE ∷ 0xEE ∷ []
tag abridged = 0xEF ∷ 0xEF ∷ 0xEF ∷ 0xEF ∷ []
tag padded_intermediate = 0xDD ∷ 0xDD ∷ 0xDD ∷ 0xDD ∷ []

-- The field `directTag`: what a connection with no obfuscation begins with.
abbrev pub direct_tag : Transport → Bytes
direct_tag intermediate = 0xEE ∷ 0xEE ∷ 0xEE ∷ 0xEE ∷ []
direct_tag abridged = 0xEF ∷ []
direct_tag padded_intermediate = 0xDD ∷ 0xDD ∷ 0xDD ∷ 0xDD ∷ []

unfoldable pub encode_intermediate : Bytes → Result Error Bytes
encode_intermediate payload = ok (uint32_le_bytes (length payload % 2 ^ 32) ++ payload)

-- `padding` is what crypto/rand gave: up to three bytes, or none if it failed.
unfoldable pub encode_padded_intermediate : Option Bytes → Bytes → Result Error Bytes
unfolding encode_intermediate
encode_padded_intermediate none payload = err rand_failed
encode_padded_intermediate (some padding) payload = encode_intermediate (payload ++ padding)

unfoldable pub encode_abridged : Bytes → Result Error Bytes
encode_abridged payload =
    let words = length payload / 4 in
    if not (length payload % 4 == 0)
    then err (unaligned_payload (length payload))
    else if ltb words 127
    then ok ((words % 256) ∷ payload)
    else ok (0x7F ∷ (words % 256) ∷ (words / 2 ^ 8 % 256) ∷ (words / 2 ^ 16 % 256) ∷ payload)

module _ {S : Type 0} (read_full : Reader S) where
  -- The guard that both framings put before they read a packet.
  unfoldable pub read_packet : ℕ → S → Result Error (Bytes × S)
  read_packet n s =
      if n == 0 || ltb max_packet_len n then err (bad_packet_length n) else read_full n s

  unfoldable pub decode_intermediate : S → Result Error (Bytes × S)
  unfolding read_packet
  decode_intermediate s = do (head, s1) ← read_full 4 s; read_packet (uint32_le head) s1

  unfoldable pub decode_padded_intermediate : S → Result Error (Bytes × S)
  unfolding decode_intermediate
  decode_padded_intermediate s = do
    (packet, s1) ← decode_intermediate s
    ok (take (length packet - length packet % 4) packet, s1)

  unfoldable pub read_words : ℕ → S → Result Error (ℕ × S)
  read_words first s =
      if first == 0x7F
      then (do
        (ext, s1) ← read_full 3 s
        ok (get_or ext 0 0 + get_or ext 1 0 * 2 ^ 8 + get_or ext 2 0 * 2 ^ 16, s1))
      else ok (first, s)

  unfoldable pub decode_abridged : S → Result Error (Bytes × S)
  unfolding read_packet read_words
  decode_abridged s = do
    (first, s1) ← read_full 1 s
    (words, s2) ← read_words (get_or first 0 0) s1
    read_packet (words * 4) s2

  -- The field `decode`.
  unfoldable pub decode : Transport → S → Result Error (Bytes × S)
  unfolding decode_intermediate decode_abridged decode_padded_intermediate
  decode intermediate = decode_intermediate
  decode abridged = decode_abridged
  decode padded_intermediate = decode_padded_intermediate

-- The field `encode`.
unfoldable pub encode : Transport → Option Bytes → Bytes → Result Error Bytes
unfolding encode_intermediate encode_abridged encode_padded_intermediate
encode intermediate padding = encode_intermediate
encode abridged padding = encode_abridged
encode padded_intermediate padding = encode_padded_intermediate padding
