-- ===== src/Mtproto/Ige/Tests.antt =====
-- IGE over the block cipher that turns nothing round.
use mtproto_checker.Common.{Bytes, Result, [], length, of_ok, ok, refl, replicate, ◌≡◌}
use mtproto_checker.Mtproto.Errors.{Error}
use mtproto_checker.Mtproto.Ige.{Block, encrypt_blocks, ige_decrypt, ige_encrypt, xor}
use mtproto_checker.Mtproto.Ige.RoundTrip.{
  IsBlockCipher, ige_decrypt-ige_encrypt, ige_encrypt_total,
}

abbrev idle_cipher : Block
idle_cipher = record { encrypt = λ x. x; decrypt = λ x. x }

idle-IsBlockCipher : IsBlockCipher idle_cipher
idle-IsBlockCipher = record { inverse = λ x h. refl; block_length = λ x h. h }

abbrev new_idle : Bytes → Result Error Block
new_idle key = ok idle_cipher

abbrev iv : Bytes
iv = replicate 32 7

abbrev plain : Bytes
plain = replicate 16 5

ige_decrypt-ige_encrypt_example :
    (ige_decrypt new_idle plain [] iv ≡ ok plain) × (length plain ≡ 16)
unfolding ige_encrypt encrypt_blocks xor
ige_decrypt-ige_encrypt_example =
    ige_decrypt-ige_encrypt new_idle plain [] iv plain
      (λ cipher e. of_ok IsBlockCipher e idle-IsBlockCipher) refl

ige_encrypt_total_test : (out : Bytes) × (ige_encrypt new_idle plain [] iv ≡ ok out)
ige_encrypt_total_test = ige_encrypt_total new_idle plain [] iv idle_cipher refl refl refl
