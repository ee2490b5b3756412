-- ===== src/Mtproto/Ige.antt =====
-- internal/mtproto/ige.go: AES in IGE mode. AES is a parameter: a key gives a pair of functions on
-- blocks of 16 bytes, or an error where crypto/aes refuses the key.
pub mod RoundTrip
mod Tests
use mtproto_checker.Common.{
  Bytes, Result, [], bit_xor, drop, err, if◌then◌else◌, length, not, ok, suc, take, zero, ℕ, ◌%◌,
  ◌*◌, ◌++◌, ◌/◌, ◌==◌, ◌>>=◌, ◌∷◌,
}
use mtproto_checker.Mtproto.Errors.{Error, ige_bad_iv, ige_unaligned}

-- `cipher.Block`: `Encrypt` and `Decrypt` under one key.
pub record Block : Type 0 where
  pub encrypt : Bytes → Bytes
  pub decrypt : Bytes → Bytes

abbrev pub block_size : ℕ
block_size = 16

-- `b[i]` stands for every `i` of `a`: the code calls it with `b` at least as long.
unfoldable pub xor : Bytes → Bytes → Bytes
xor [] b = []
xor (x ∷ a) [] = []
xor (x ∷ a) (y ∷ b) = bit_xor x y ∷ xor a b

module _ (cipher : Block) where
  -- The loop of `igeEncrypt` over the blocks left, with `prevCipher` and `prevPlain`.
  unfoldable pub encrypt_blocks : ℕ → Bytes → Bytes → Bytes → Bytes
  encrypt_blocks zero rest prev_cipher prev_plain = []
  encrypt_blocks (suc k) rest prev_cipher prev_plain =
      let plain = take block_size rest in
      let chunk = xor (cipher.encrypt (xor plain prev_cipher)) prev_plain in
      chunk ++ encrypt_blocks k (drop block_size rest) chunk plain

  -- The loop of `igeDecrypt`.
  unfoldable pub decrypt_blocks : ℕ → Bytes → Bytes → Bytes → Bytes
  decrypt_blocks zero rest prev_cipher prev_plain = []
  decrypt_blocks (suc k) rest prev_cipher prev_plain =
      let block = take block_size rest in
      let chunk = xor (cipher.decrypt (xor block prev_plain)) prev_cipher in
      chunk ++ decrypt_blocks k (drop block_size rest) block chunk

-- The two guards that both functions put behind the cipher's.
unfoldable pub check_ige : Bytes → Bytes → Result Error (Unit {0})
check_ige input iv =
    if not (length input % block_size == 0)
    then err ige_unaligned
    else if not (length iv == 2 * block_size)
    then err ige_bad_iv
    else ok tt

module _ (new_cipher : Bytes → Result Error Block) where
  unfoldable pub ige_encrypt : Bytes → Bytes → Bytes → Result Error Bytes
  unfolding check_ige
  ige_encrypt input key iv = do
    cipher ← new_cipher key
    _ ← check_ige input iv
    ok (
        encrypt_blocks cipher (length input / block_size) input (take block_size iv)
          (drop block_size iv))

  unfoldable pub ige_decrypt : Bytes → Bytes → Bytes → Result Error Bytes
  unfolding check_ige
  ige_decrypt input key iv = do
    cipher ← new_cipher key
    _ ← check_ige input iv
    ok (
        decrypt_blocks cipher (length input / block_size) input (take block_size iv)
          (drop block_size iv))
