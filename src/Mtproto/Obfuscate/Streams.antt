-- ===== src/Mtproto/Obfuscate/Streams.antt =====
-- A key stream applied twice gives the bytes back.
use mtproto_checker.Common.{
  Bytes, [], ap, arith, bit_xor, length, refl, suc, ℕ, ◌++◌, ◌+◌, ◌∙◌, ◌∷◌, ◌≡◌,
}
use mtproto_checker.Common.Xor.{bit_xor-bit_xor}
use mtproto_checker.Mtproto.Obfuscate.{KeyStream, xor_key_stream}

module _ (key : KeyStream) where
  pub xor_key_stream-xor_key_stream :
      (i : ℕ) (p : Bytes) → xor_key_stream key i (xor_key_stream key i p) ≡ p
  unfolding xor_key_stream
  xor_key_stream-xor_key_stream i [] = refl
  xor_key_stream-xor_key_stream i (c ∷ p) =
      rw (bit_xor-bit_xor c (key i), xor_key_stream-xor_key_stream (suc i) p)

  pub length-xor_key_stream : (i : ℕ) (p : Bytes) → length (xor_key_stream key i p) ≡ length p
  unfolding xor_key_stream
  length-xor_key_stream i [] = refl
  length-xor_key_stream i (c ∷ p) = ap suc (length-xor_key_stream (suc i) p)

  pub xor_key_stream-append :
      (i : ℕ) (p q : Bytes)
      → xor_key_stream key i (p ++ q)
        ≡ xor_key_stream key i p ++ xor_key_stream key (i + length p) q
  unfolding xor_key_stream
  xor_key_stream-append i [] q =
      let place : i ≡ i + 0 = omega arith in ap (λ k. xor_key_stream key k q) place
  xor_key_stream-append i (c ∷ p) q =
      let place : suc i + length p ≡ i + suc (length p) = omega arith in
      ap (◌∷◌ (bit_xor c (key i))) (
        xor_key_stream-append (suc i) p q
        ∙ ap (λ k. xor_key_stream key (suc i) p ++ xor_key_stream key k q) place)
