-- ===== src/Mtproto/Obfuscate.antt =====
-- internal/mtproto/obfuscate.go: the header of 64 random bytes and the two streams that it keys.
-- SHA-256 and AES-CTR are parameters: a key and a vector give the bytes of a key stream, by their
-- places, or an error where crypto/aes refuses the key. What crypto/rand gives is a list of draws,
-- `none` where it fails.
pub mod Header
pub mod Streams
pub mod Peer
pub mod Packets
mod Tests
use mtproto_checker.Common.{
  Bool, Bytes, List, Option, Result, [], bit_xor, drop, equal, err, false, get_or, if◌then◌else◌,
  length, none, ok, reverse, slice, some, suc, take, ℕ, ◌++◌, ◌+◌, ◌==◌, ◌>>=◌, ◌||◌, ◌∷◌,
}
use mtproto_checker.Common.Text.{codes, ℤ}
use mtproto_checker.Mtproto.Binary.{int_word, uint16_le_bytes, uint32_le}
use mtproto_checker.Mtproto.Errors.{Error, no_more_draws, rand_failed}
use mtproto_checker.Mtproto.Transport.{Reader, tag}

-- A `cipher.Stream` that has not been used: the byte of the key stream at each place.
abbrev pub KeyStream : Type 0
KeyStream = ℕ → ℕ

pub record Crypto : Type 0 where
  pub sha256 : Bytes → Bytes
  pub new_ctr : Bytes → Bytes → Result Error KeyStream

-- `XORKeyStream` from place `i` on.
unfoldable pub xor_key_stream : KeyStream → ℕ → Bytes → Bytes
xor_key_stream key i [] = []
xor_key_stream key i (c ∷ p) = bit_xor c (key i) ∷ xor_key_stream key (suc i) p

abbrev pub forbidden : List Bytes
forbidden =
    (0xDD ∷ 0xDD ∷ 0xDD ∷ 0xDD ∷ [])
    ∷ (0xEE ∷ 0xEE ∷ 0xEE ∷ 0xEE ∷ [])
    ∷ codes "POST"
    ∷ codes "GET "
    ∷ codes "HEAD"
    ∷ (0x16 ∷ 0x03 ∷ 0x01 ∷ 0x02 ∷ [])
    ∷ []

unfoldable pub matches_any : Bytes → List Bytes → Bool
matches_any prefix [] = false
matches_any prefix (candidate ∷ list) = equal prefix candidate || matches_any prefix list

-- The three guards of the loop.
unfoldable pub is_taken : Bytes → Bool
is_taken header =
    get_or header 0 0 == 0xEF
    || uint32_le (drop 4 header) == 0
    || matches_any (take 4 header) forbidden

-- The loop: the first draw that no guard rejects. `no_more_draws` is none of Go's errors: the list
-- of draws has come to its end.
unfoldable pub draw_header : List (Option Bytes) → Result Error Bytes
draw_header [] = err no_more_draws
draw_header (none ∷ draws) = err rand_failed
draw_header (some header ∷ draws) =
    let again = draw_header draws in if is_taken header then again else ok header

-- `copy(header[56:60], tag[:])` and the number of the data centre behind it.
unfoldable pub write_tag : Bytes → ℤ → Bytes → Bytes
write_tag tag dc header =
    take 56 header ++ (tag ++ (uint16_le_bytes (int_word 16 dc) ++ drop 62 header))

unfoldable pub obfuscation_header : Bytes → ℤ → List (Option Bytes) → Result Error Bytes
obfuscation_header tag dc draws = do header ← draw_header draws; ok (write_tag tag dc header)

-- The two streams, with the places that they have come to.
pub record ObfConn : Type 0 where
  pub enc : KeyStream
  pub enc_at : ℕ
  pub dec : KeyStream
  pub dec_at : ℕ

module _ (crypto : Crypto) where
  -- The key and the vector that a header holds, for one direction.
  unfoldable pub stream_of : Bytes → Bytes → Result Error KeyStream
  stream_of header secret =
      crypto.new_ctr (crypto.sha256 (slice 8 40 header ++ secret)) (slice 40 56 header)

  -- `newObfConn` and what it writes to the connection: the header with its last eight bytes
  -- encrypted.
  unfoldable pub new_obf_conn :
      Bytes → Bytes → ℤ → List (Option Bytes) → Result Error (ObfConn × Bytes)
  new_obf_conn secret tag dc draws = do
    header ← obfuscation_header tag dc draws
    enc ← stream_of header secret
    dec ← stream_of (reverse header) secret
    let c : ObfConn = record { enc = enc; enc_at = length header; dec = dec; dec_at = 0 }
    ok (c, take 56 header ++ slice 56 64 (xor_key_stream enc 0 header))

-- `Write`: the bytes that are handed to the connection.
unfoldable pub obf_write : Bytes → ObfConn → Bytes × ObfConn
obf_write p c = (xor_key_stream c.enc c.enc_at p, record c { enc_at = c.enc_at + length p })

-- `ReadFull`, over any reader of the connection.
unfoldable pub obf_read_full : {S : Type 0} → Reader S → Reader (ObfConn × S)
obf_read_full read_full n (c, s) = do
  (buf, s1) ← read_full n s
  ok (xor_key_stream c.dec c.dec_at buf, (record c { dec_at = c.dec_at + length buf }, s1))
