-- ===== src/Mtproto/Ige/RoundTrip.antt =====
-- Decryption undoes encryption, for every block cipher whose `Decrypt` undoes its `Encrypt`.
use mtproto_checker.Common.{
  >>=-eq-ok, Bytes, Result, [], ap, arith, drop, drop-append, length, length-append, length-drop,
  length-take, ok, refl, suc, sym, take, take-append, take-append-drop, zero, ℕ, ◌%◌, ◌*◌, ◌/◌, ◌∷◌,
  ◌≡◌, ◌≤◌,
}
use mtproto_checker.Common.Xor.{bit_xor-bit_xor}
use mtproto_checker.Mtproto.Errors.{Error}
use mtproto_checker.Mtproto.Ige.{
  Block, block_size, check_ige, decrypt_blocks, encrypt_blocks, ige_decrypt, ige_encrypt, xor,
}

-- What crypto/aes promises of a cipher.
pub record IsBlockCipher (cipher : Block) : Type 0 where
  pub inverse : (x : Bytes) → length x ≡ block_size → cipher.decrypt (cipher.encrypt x) ≡ x
  pub block_length : (x : Bytes) → length x ≡ block_size → length (cipher.encrypt x) ≡ block_size

pub length-xor : (a b : Bytes) → length a ≤ length b → length (xor a b) ≡ length a
unfolding xor
length-xor [] b h = refl
length-xor (x ∷ a) [] h = absurd (omega arith)
length-xor (x ∷ a) (y ∷ b) h = ap suc (length-xor a b (omega arith))

pub xor-xor : (a b : Bytes) → length a ≤ length b → xor (xor a b) b ≡ a
unfolding xor
xor-xor [] b h = refl
xor-xor (x ∷ a) [] h = absurd (omega arith)
xor-xor (x ∷ a) (y ∷ b) h = cc (bit_xor-bit_xor x y, xor-xor a b (omega arith))

module _ (cipher : Block) (lawful : IsBlockCipher cipher) where
  length-encrypt_blocks :
      (k : ℕ) (p pc pp : Bytes)
      → length p ≡ k * 16
      → length pc ≡ 16
      → length pp ≡ 16
      → length (encrypt_blocks cipher k p pc pp) ≡ k * 16
  unfolding encrypt_blocks
  length-encrypt_blocks zero p pc pp hp hc hq = omega arith
  length-encrypt_blocks (suc k) p pc pp hp hc hq =
      let x = take 16 p in
      let lx : length x ≡ 16 = omega (arith, length-take 16 p) in
      let y = xor x pc in
      let ly : length y ≡ 16 = omega (arith, length-xor x pc (omega arith)) in
      let e = cipher.encrypt y in
      let le : length e ≡ 16 = lawful.block_length y ly in
      let c = xor e pp in
      let lc : length c ≡ 16 = omega (arith, length-xor e pp (omega arith)) in
      omega (
        arith,
        length-append c (encrypt_blocks cipher k (drop 16 p) c x),
        length-encrypt_blocks k (drop 16 p) c x (omega (arith, length-drop 16 p)) lc lx,
      )

  decrypt_blocks-encrypt_blocks :
      (k : ℕ) (p pc pp : Bytes)
      → length p ≡ k * 16
      → length pc ≡ 16
      → length pp ≡ 16
      → decrypt_blocks cipher k (encrypt_blocks cipher k p pc pp) pc pp ≡ p
  unfolding encrypt_blocks decrypt_blocks
  decrypt_blocks-encrypt_blocks zero [] pc pp hp hc hq = refl
  decrypt_blocks-encrypt_blocks zero (x ∷ p) pc pp hp hc hq = absurd (omega arith)
  decrypt_blocks-encrypt_blocks (suc k) p pc pp hp hc hq =
      let x = take 16 p in
      let lx : length x ≡ 16 = omega (arith, length-take 16 p) in
      let y = xor x pc in
      let ly : length y ≡ 16 = omega (arith, length-xor x pc (omega arith)) in
      let e = cipher.encrypt y in
      let le : length e ≡ 16 = lawful.block_length y ly in
      let c = xor e pp in
      let lc : length c ≡ 16 = omega (arith, length-xor e pp (omega arith)) in
      let rest = encrypt_blocks cipher k (drop 16 p) c x in
      rw
        (
          take-append c rest 16 (sym lc),
          drop-append c rest 16 (sym lc),
          xor-xor e pp (omega arith),
          lawful.inverse y ly,
          xor-xor x pc (omega arith),
          decrypt_blocks-encrypt_blocks k (drop 16 p) c x (omega (arith, length-drop 16 p)) lc lx,
        )
        (take-append-drop 16 p)

check_ige-ok :
    (input iv : Bytes) (u : Unit {0})
    → check_ige input iv ≡ ok u
    → (length input % 16 ≡ 0) × (length iv ≡ 32)
unfolding check_ige
check_ige-ok input iv u e = ground arith

check_ige_total :
    (input iv : Bytes) → length input % 16 ≡ 0 → length iv ≡ 32 → check_ige input iv ≡ ok tt
unfolding check_ige
check_ige_total input iv p q = ground arith

-- Whatever `igeEncrypt` gives, `igeDecrypt` turns back under the same key and vector, and both have
-- the same length: the cipher that the key gives must be one whose `Decrypt` undoes its `Encrypt`.
pub ige_decrypt-ige_encrypt :
    (new_cipher : Bytes → Result Error Block) (input key iv out : Bytes)
    → ((cipher : Block) → new_cipher key ≡ ok cipher → IsBlockCipher cipher)
    → ige_encrypt new_cipher input key iv ≡ ok out
    → (ige_decrypt new_cipher out key iv ≡ ok input) × (length out ≡ length input)
unfolding ige_encrypt ige_decrypt
ige_decrypt-ige_encrypt new_cipher input key iv out lawful e =
    let (cipher, made, e1) = >>=-eq-ok (new_cipher key) _ e in
    let (u, fine, e2) = >>=-eq-ok (check_ige input iv) _ e1 in
    let (whole, vector) = check_ige-ok input iv u fine in
    let k = length input / 16 in
    let pc = take 16 iv in
    let pp = drop 16 iv in
    let size : length input ≡ k * 16 = omega arith in
    let lc : length pc ≡ 16 = omega (arith, length-take 16 iv) in
    let lp : length pp ≡ 16 = omega (arith, length-drop 16 iv) in
    let good = lawful cipher made in
    let made_out : encrypt_blocks cipher k input pc pp ≡ out = ground arith in
    let lo : length out ≡ length input = omega (
      arith,
      ap (length {A = ℕ}) made_out,
      length-encrypt_blocks cipher good k input pc pp size lc lp,
    ) in
    let back = decrypt_blocks-encrypt_blocks cipher good k input pc pp size lc lp in
    (rw (made, check_ige_total out iv (omega arith) vector, lo, ← made_out, back) refl, lo)

-- `igeEncrypt` fails in no other case: with a key that AES takes, whole blocks and a vector of 32
-- bytes it succeeds.
pub ige_encrypt_total :
    (new_cipher : Bytes → Result Error Block) (input key iv : Bytes) (cipher : Block)
    → new_cipher key ≡ ok cipher
    → length input % 16 ≡ 0
    → length iv ≡ 32
    → (out : Bytes) × (ige_encrypt new_cipher input key iv ≡ ok out)
unfolding ige_encrypt
ige_encrypt_total new_cipher input key iv cipher made whole hv = (
  encrypt_blocks cipher (length input / 16) input (take 16 iv) (drop 16 iv),
  rw (made, check_ige_total input iv whole hv),
)
