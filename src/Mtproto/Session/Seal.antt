-- ===== src/Mtproto/Session/Seal.antt =====
-- A sealed message opens at the other end.
use mtproto_checker.Common.{
  >>=-eq-ok, Bytes, Option, ap, append_assoc, arith, drop, drop-append, equal_refl, false, length,
  length-append, length-slice, le→ltb_false, ltb, of_ok, ok, refl, slice, slice-append, some, sym,
  take, take-append, ℕ, ◌%◌, ◌*◌, ◌++◌, ◌+◌, ◌<◌, ◌^◌, ◌||◌, ◌∙◌, ◌≡◌, ◌≤◌,
}
use mtproto_checker.Mtproto.Binary.{uint32_le, uint32_le-bytes, uint32_le_bytes, uint64_le_bytes}
use mtproto_checker.Mtproto.Ige.{Block, ige_decrypt, ige_encrypt}
use mtproto_checker.Mtproto.Ige.RoundTrip.{
  IsBlockCipher, ige_decrypt-ige_encrypt, ige_encrypt_total,
}
use mtproto_checker.Mtproto.Session.{
  AuthKey, Crypto, Session, decrypt_with, encrypt, message_key, message_keys, open_plain,
  padding_for, plain_text, seal,
}

-- What the code relies on: SHA-256 gives 32 bytes, AES takes every key of 32 bytes, and its
-- `Decrypt` undoes its `Encrypt`.
pub record IsCrypto (crypto : Crypto) : Type 0 where
  pub digest : (m : Bytes) → length (crypto.sha256 m) ≡ 32
  pub cipher : (k : Bytes) → length k ≡ 32 → (c : Block) × (crypto.new_cipher k ≡ ok c)
  pub lawful : (k : Bytes) (c : Block) → crypto.new_cipher k ≡ ok c → IsBlockCipher c

length-piece :
    (a b : Bytes)
    → length a ≡ 32
    → length b ≡ 32
    → length (slice 0 8 a ++ (slice 8 24 b ++ slice 24 32 a)) ≡ 32
length-piece a b p q =
    let l1 : length (slice 0 8 a) ≡ 8 = length-slice 0 8 a (omega arith) in
    let l2 : length (slice 8 24 b) ≡ 16 = length-slice 8 24 b (omega arith) in
    let l3 : length (slice 24 32 a) ≡ 8 = length-slice 24 32 a (omega arith) in
    length-append (slice 0 8 a) (slice 8 24 b ++ slice 24 32 a)
    ∙ cc (l1, length-append (slice 8 24 b) (slice 24 32 a), l2, l3)

-- The guards let a plain text through whose declared length is that of its body.
open_plain-ok :
    (front body filler : Bytes)
    → length front ≡ 28
    → 4 ≤ length body
    → length body < 2 ^ 32
    → open_plain (front ++ (uint32_le_bytes (length body) ++ (body ++ filler))) ≡ ok body
unfolding open_plain
open_plain-ok front body filler f lo hi =
    let n = length body in
    let tail : Bytes = uint32_le_bytes n ++ (body ++ filler) in
    let plain : Bytes = front ++ tail in
    let whole : length plain ≡ 32 + (n + length filler) = omega (arith, length-append {A = ℕ}) in
    let told : uint32_le tail ≡ n = uint32_le-bytes n (body ++ filler) hi in
    let behind : drop 28 plain ≡ tail = drop-append front tail 28 (sym f) in
    let long : ltb (length plain) 32 ≡ false =
      le→ltb_false (length plain) 32 (omega (arith, whole)) in
    let fits : (ltb n 4 || ltb (length plain) (32 + n)) ≡ false = ground (arith, whole) in
    let cut : slice 32 (32 + n) plain ≡ body =
      rw (sym (append_assoc front (uint32_le_bytes n) (body ++ filler))) (
        slice-append 32 (32 + n) (front ++ uint32_le_bytes n) body filler
          (omega (arith, length-append {A = ℕ})) refl) in
    rw (long, behind, told, fits, cut) refl

module _ (crypto : Crypto) (law : IsCrypto crypto) where
  length-message_key :
      (auth_key plain : Bytes) (x : ℕ) → length (message_key crypto auth_key plain x) ≡ 16
  unfolding message_key
  length-message_key auth_key plain x =
      let input = slice (88 + x) (88 + x + 32) auth_key ++ plain in
      length-slice 8 24 (crypto.sha256 input) (omega (arith, law.digest input))

  length-message_keys :
      (auth_key msg_key : Bytes) (x : ℕ)
      → (length (message_keys crypto auth_key msg_key x).0 ≡ 32)
        × (length (message_keys crypto auth_key msg_key x).1 ≡ 32)
  unfolding message_keys
  length-message_keys auth_key msg_key x =
      let a = crypto.sha256 (msg_key ++ slice x (x + 36) auth_key) in
      let b = crypto.sha256 (slice (40 + x) (40 + x + 36) auth_key ++ msg_key) in
      let la : length a ≡ 32 = law.digest (msg_key ++ slice x (x + 36) auth_key) in
      let lb : length b ≡ 32 = law.digest (slice (40 + x) (40 + x + 36) auth_key ++ msg_key) in
      (length-piece a b la lb, length-piece b a lb la)

  opens :
      (x : ℕ) (auth : AuthKey) (plain sealed : Bytes)
      → length auth.key_id ≡ 8
      → 16 ≤ length sealed
      → ige_decrypt crypto.new_cipher sealed
          (message_keys crypto auth.key (message_key crypto auth.key plain x) x).0
          (message_keys crypto auth.key (message_key crypto auth.key plain x) x).1
        ≡ ok plain
      → decrypt_with crypto x auth (auth.key_id ++ (message_key crypto auth.key plain x ++ sealed))
        ≡ open_plain plain
  unfolding decrypt_with
  opens x auth plain sealed hk hp inverse =
      let m = message_key crypto auth.key plain x in
      let lm : length m ≡ 16 = length-message_key auth.key plain x in
      let packet : Bytes = auth.key_id ++ (m ++ sealed) in
      let long : ltb (length packet) 40 ≡ false =
        le→ltb_false (length packet) 40 (omega (arith, length-append {A = ℕ})) in
      let id : take 8 packet ≡ auth.key_id = take-append auth.key_id (m ++ sealed) 8 (sym hk) in
      let mid : slice 8 24 packet ≡ m =
        slice-append 8 24 auth.key_id m sealed (sym hk) (omega arith) in
      let back : drop 24 packet ≡ sealed =
        ap (drop 24) (sym (append_assoc auth.key_id m sealed))
        ∙ drop-append (auth.key_id ++ m) sealed 24 (omega (arith, length-append {A = ℕ})) in
      rw (long, id, equal_refl auth.key_id, mid, back, inverse, equal_refl m) refl

  -- A packet of `seal` goes through every guard of `decrypt`.
  pub decrypt_with-seal :
      (x : ℕ) (auth : AuthKey) (plain packet : Bytes)
      → length auth.key_id ≡ 8
      → 16 ≤ length plain
      → seal crypto x auth plain ≡ ok packet
      → decrypt_with crypto x auth packet ≡ open_plain plain
  unfolding seal decrypt_with
  decrypt_with-seal x auth plain packet hk hp e =
      let m = message_key crypto auth.key plain x in
      let keys = message_keys crypto auth.key m x in
      let (sealed, made, e1) = >>=-eq-ok (ige_encrypt crypto.new_cipher plain keys.0 keys.1) _ e in
      let (inverse, same) =
        ige_decrypt-ige_encrypt crypto.new_cipher plain keys.0 keys.1 sealed (law.lawful keys.0)
          made in
      of_ok (λ k. decrypt_with crypto x auth k ≡ open_plain plain) e1
        (opens x auth plain sealed hk (omega arith) inverse)

  -- `seal` fails in no way on whole blocks.
  seal_total :
      (x : ℕ) (auth : AuthKey) (plain : Bytes)
      → length plain % 16 ≡ 0
      → (packet : Bytes) × (seal crypto x auth plain ≡ ok packet)
  unfolding seal
  seal_total x auth plain whole =
      let m = message_key crypto auth.key plain x in
      let keys = message_keys crypto auth.key m x in
      let (lk, lv) = length-message_keys auth.key m x in
      let (c, made) = law.cipher keys.0 lk in
      let (sealed, e) = ige_encrypt_total crypto.new_cipher plain keys.0 keys.1 c made whole lv in
      (auth.key_id ++ (m ++ sealed), rw e refl)

length-plain_text :
    (s : Session) (id : ℕ) (body : Bytes)
    → length s.salt ≡ 8
    → length s.id ≡ 8
    → length (plain_text s id body) ≡ 32 + length body
unfolding plain_text
length-plain_text s id body hs hi = omega (arith, length-append {A = ℕ})

open_sealed :
    (s : Session) (id : ℕ) (body filler : Bytes)
    → length s.salt ≡ 8
    → length s.id ≡ 8
    → 4 ≤ length body
    → length body < 2 ^ 32
    → open_plain (plain_text s id body ++ filler) ≡ ok body
unfolding plain_text
open_sealed s id body filler hs hi lo hn =
    let n = length body in
    let word = uint32_le_bytes ((s.seq_no * 2 + 1) % 2 ^ 32) in
    let front : Bytes = s.salt ++ (s.id ++ (uint64_le_bytes id ++ word)) in
    let small : n % 2 ^ 32 ≡ n = omega arith in
    let grouped : (front ++ (uint32_le_bytes n ++ body)) ++ filler
        ≡ front ++ (uint32_le_bytes n ++ (body ++ filler)) =
      append_assoc front (uint32_le_bytes n ++ body) filler
      ∙ ap (λ k. front ++ k) (append_assoc (uint32_le_bytes n) body filler) in
    rw (small, grouped)
      (open_plain-ok front body filler (omega (arith, length-append {A = ℕ})) lo hn)

padded : (n : ℕ) → (n + padding_for n) % 16 ≡ 0
unfolding padding_for
padded n = omega arith

-- With a key id, a salt and a session id of 8 bytes, and a body that a server takes, `encrypt` makes
-- a packet, whatever the random bytes are, as long as there are enough of them. A server with the
-- same key, whose half of the key is the one that `encrypt` uses, decrypts it to the body; and the
-- sequence number has moved on by one, on 32 bits.
pub decrypt_with-encrypt :
    (crypto : Crypto) (random : ℕ → Option Bytes) (id : ℕ) (body filler : Bytes) (s : Session)
    → IsCrypto crypto
    → length s.auth.key_id ≡ 8
    → length s.salt ≡ 8
    → length s.id ≡ 8
    → 4 ≤ length body
    → length body < 2 ^ 32
    → random (padding_for (length (plain_text s id body))) ≡ some filler
    → length filler ≡ padding_for (length (plain_text s id body))
    → (packet : Bytes) × ((encrypt crypto random id body s).0 ≡ ok packet)
      × (decrypt_with crypto 0 s.auth packet ≡ ok body)
      × ((encrypt crypto random id body s).1.seq_no ≡ (s.seq_no + 1) % 2 ^ 32)
unfolding encrypt
decrypt_with-encrypt crypto random id body filler s law hk hs hi lo hn drawn enough =
    let plain : Bytes = plain_text s id body ++ filler in
    let n = length (plain_text s id body) in
    let size : n ≡ 32 + length body = length-plain_text s id body hs hi in
    let total : length plain ≡ n + length filler = length-append (plain_text s id body) filler in
    let whole : length plain % 16 ≡ 0 = rw (total, enough) (padded n) in
    let (packet, made) = seal_total crypto law 0 s.auth plain whole in
    (
      packet,
      rw drawn made,
      decrypt_with-seal crypto law 0 s.auth plain packet hk (omega arith) made
          ∙ open_sealed s id body filler hs hi lo hn,
      refl,
    )
