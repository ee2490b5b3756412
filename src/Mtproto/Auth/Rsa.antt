-- ===== src/Mtproto/Auth/Rsa.antt =====
-- internal/mtproto/rsa.go: the choice of a key, its fingerprint, and the padding. The keys that are
-- embedded are an argument; SHA, AES and math/big are parameters.
use mtproto_checker.Common.{
  Bytes, List, Option, Result, [], err, if◌then◌else◌, leb, length, ltb, none, ok, replicate,
  reverse, slice, some, suc, zero, ℕ, ◌%◌, ◌++◌, ◌-◌, ◌/◌, ◌==◌, ◌>>=◌, ◌^◌, ◌∷◌,
}
use mtproto_checker.Mtproto.Binary.{uint64_le}
use mtproto_checker.Mtproto.Errors.{Error, no_known_key, rand_failed, rsa_no_value, rsa_too_long}
use mtproto_checker.Mtproto.Ige.{Block, ige_encrypt, xor}
use mtproto_checker.Mtproto.Tl.Buf.{append_bytes}
use mtproto_checker.Mtproto.Auth.Answers.{big_from}

pub record PublicKey : Type 0 where
  pub modulus : ℕ
  pub exponent : ℕ
  pub mark : ℕ

-- `bytes` is `Bytes` of math/big.
unfoldable pub key_fingerprint : (Bytes → Bytes) → (ℕ → Bytes) → ℕ → ℕ → ℕ
key_fingerprint sha1 bytes modulus exponent =
    uint64_le (slice 12 20 (sha1 (append_bytes (bytes exponent) (append_bytes (bytes modulus) []))))

unfoldable pub find_key : ℕ → List PublicKey → Option PublicKey
find_key fp [] = none
find_key fp (key ∷ keys) = let rest = find_key fp keys in if key.mark == fp then some key else rest

unfoldable pub select_key : List PublicKey → List ℕ → Result Error PublicKey
select_key keys [] = err no_known_key
select_key keys (fp ∷ fingerprints) =
    let rest = select_key keys fingerprints in
    elim (find_key fp keys) [ some key ↦ ok key | none ↦ rest ]

-- `padTo`, for a number that fits: where one does not, `FillBytes` panics.
unfoldable pub pad_to : ℕ → ℕ → Bytes
pad_to v zero = []
pad_to v (suc size) = pad_to (v / 256) size ++ (v % 256 ∷ [])

module _ (sha256 : Bytes → Bytes) (new_cipher : Bytes → Result Error Block) where
  -- One round: the number that `tempKey` makes of the padded data.
  unfoldable pub rsa_value : Bytes → Bytes → Result Error ℕ
  rsa_value temp_key padded = do
    encrypted ←
        ige_encrypt new_cipher (reverse padded ++ sha256 (temp_key ++ padded)) temp_key
          (replicate 32 0)
    ok (big_from 0 (xor temp_key (sha256 encrypted) ++ encrypted))

  -- The loop, with the random key of each round.
  unfoldable pub rsa_rounds : (ℕ → Option Bytes) → PublicKey → Bytes → ℕ → Result Error Bytes
  rsa_rounds draw key padded zero = err rsa_no_value
  rsa_rounds draw key padded (suc k) =
      let again = rsa_rounds draw key padded k in
      elim (draw k) [
        | none ↦ err rand_failed
        | some temp_key ↦ rsa_value temp_key padded >>= (λ value.
            if leb key.modulus value
            then again
            else ok (pad_to (value ^ key.exponent % key.modulus) 256))
      ]

  unfoldable pub rsa_pad :
      (ℕ → Option Bytes) → (ℕ → Option Bytes) → Bytes → PublicKey → Result Error Bytes
  rsa_pad random draw payload key =
      if ltb 144 (length payload) then err rsa_too_long else elim (random (192 - length payload)) [
        | none ↦ err rand_failed
        | some padding ↦ rsa_rounds draw key (payload ++ padding) 64
      ]
