-- ===== src/Mtproto/Auth/Exchange/SharedKey.antt =====
-- `createAuthKey` of internal/mtproto/auth.go: the key against the one that a server computes.
use Prim.Native.Nat.{ℕ, zero, suc, ◌*◌, ◌+◌, ◌/◌, ◌%◌, ◌^◌}
use native.Mathlib.Nat.{pow-suc, pow-zero, mod-add-div', add-mul-mod_self_right, mod-lt}
use mathlib.Core.Path.{subst}
use mtproto_checker.Common.{
  >>=-eq-ok, Bytes, List, [], ap, append-nil, arith, length, length-append, none, of_ok, ok, refl,
  sym, ◌++◌, ◌<◌, ◌∙◌, ◌∷◌, ◌≡◌, ◌≤◌,
}
use mtproto_checker.Mtproto.Binary.{uint32_le_bytes, uint64_le_bytes}
use mtproto_checker.Mtproto.Transport.{Reader}
use mtproto_checker.Mtproto.Tl.Buf.{append_bytes, append_raw, append_uint32, append_uint64}
use mtproto_checker.Mtproto.Tl.Cursor.{read_bytes}
use mtproto_checker.Mtproto.Tl.RoundTrip.{read_bytes-append_bytes}
use mtproto_checker.Mtproto.Auth.Answers.{
  DhParams, big_from, dh_temp_keys, encrypt_dh_inner, verify_dh_gen,
}
use mtproto_checker.Mtproto.Auth.Rsa.{PublicKey, pad_to}
use mtproto_checker.Mtproto.Auth.Exchange.{
  Draws, Library, Turn, Wire, agree, call, client_inner_data, ctor_client_dh_inner_data, mod_exp,
  set_client_dh_params,
}

spread : (r q n y : ℕ) → (r + q * n) * y ≡ r * y + q * y * n
spread r q n y = grind arith

mod-mul : (x y n : ℕ) → x % n * y % n ≡ x * y % n
mod-mul x y n = sym (
    ap (λ k. k * y % n) (sym (mod-add-div' x n))
    ∙ ap (λ k. k % n) (spread (x % n) (x / n) n y)
    ∙ add-mul-mod_self_right (x % n * y) (x / n * y) n)

mul_comm : (x y : ℕ) → x * y ≡ y * x
mul_comm x y = grind arith

mod-pow : (x n k : ℕ) → (x % n) ^ k % n ≡ x ^ k % n
mod-pow x n zero = ap (λ m. m % n) (pow-zero (x % n) ∙ sym (pow-zero x))
mod-pow x n (suc k) =
    ap (λ m. m % n) (pow-suc (x % n) k)
    ∙ sym (mod-mul ((x % n) ^ k) (x % n) n)
    ∙ ap (λ m. m * (x % n) % n) (mod-pow x n k)
    ∙ mod-mul (x ^ k) (x % n) n
    ∙ ap (λ m. m % n) (mul_comm (x ^ k) (x % n))
    ∙ mod-mul x (x ^ k) n
    ∙ ap (λ m. m % n) (mul_comm x (x ^ k) ∙ sym (pow-suc x k))

mul-pow : (x y k : ℕ) → (x * y) ^ k ≡ x ^ k * y ^ k
mul-pow x y zero = let e : 1 ≡ 1 * 1 = refl in rw (pow-zero (x * y), pow-zero x, pow-zero y) e
mul-pow x y (suc k) =
    pow-suc (x * y) k
    ∙ ap (λ m. m * (x * y)) (mul-pow x y k)
    ∙ swap (x ^ k) (y ^ k) x y
    ∙ cc (pow-suc x k, pow-suc y k)
  where
    swap : (a b c d : ℕ) → a * b * (c * d) ≡ a * c * (b * d)
    swap a b c d = grind arith

one-pow : (k : ℕ) → 1 ^ k ≡ 1
one-pow zero = pow-zero 1
one-pow (suc k) = pow-suc 1 k ∙ omega (arith, one-pow k)

pow_comm : (g a b : ℕ) → (g ^ a) ^ b ≡ (g ^ b) ^ a
pow_comm g a zero = pow-zero (g ^ a) ∙ sym (one-pow a) ∙ ap (λ m. m ^ a) (sym (pow-zero g))
pow_comm g a (suc b) =
    pow-suc (g ^ a) b
    ∙ ap (λ m. m * g ^ a) (pow_comm g a b)
    ∙ sym (mul-pow (g ^ b) g a)
    ∙ ap (λ m. m ^ a) (sym (pow-suc g b))

-- The two powers of Diffie and Hellman.
mod_exp_comm : (g a b p : ℕ) → mod_exp (mod_exp g a p) b p ≡ mod_exp (mod_exp g b p) a p
unfolding mod_exp
mod_exp_comm g a b p =
    mod-pow (g ^ a) p b ∙ ap (λ k. k % p) (pow_comm g a b) ∙ sym (mod-pow (g ^ b) p a)

mod_exp-lt : (g a p : ℕ) → 0 < p → mod_exp g a p < p
unfolding mod_exp
mod_exp-lt g a p h = mod-lt (g ^ a) h

big_from-snoc : (v : ℕ) (p : Bytes) (b : ℕ) → big_from v (p ++ (b ∷ [])) ≡ big_from v p * 256 + b
unfolding big_from
big_from-snoc v [] b = refl
big_from-snoc v (x ∷ p) b = big_from-snoc (v * 256 + x) p b

-- The number that `padTo` wrote is read back.
big_from-pad_to : (size v : ℕ) → v < 256 ^ size → big_from 0 (pad_to v size) ≡ v
unfolding big_from pad_to
big_from-pad_to zero v h = omega (arith, h, pow-zero 256)
big_from-pad_to (suc size) v h =
    big_from-snoc 0 (pad_to (v / 256) size) (v % 256)
    ∙ ap (λ k. k * 256 + v % 256)
        (big_from-pad_to size (v / 256) (omega (arith, h, pow-suc 256 size)))
    ∙ omega arith

length-pad_to : (size v : ℕ) → length (pad_to v size) ≡ size
unfolding pad_to
length-pad_to zero v = refl
length-pad_to (suc size) v =
    length-append (pad_to (v / 256) size) (v % 256 ∷ [])
    ∙ omega (arith, length-pad_to size (v / 256))

-- What the server makes of the inner data: behind the constructor, the two nonces and the number of
-- the retry stands the client's half, which it raises to its own secret.
unfoldable pub server_key : ℕ → ℕ → Bytes → ℕ
server_key a p inner =
    mod_exp (big_from 0 (read_bytes (record { b = inner; i = 44; error = none })).0) a p

-- The half is read from where the client wrote it.
server_key-client_inner_data :
    (nonce server_nonce : Bytes) (g_b a p : ℕ)
    → length nonce ≡ 16
    → length server_nonce ≡ 16
    → g_b < 256 ^ 256
    → server_key a p (client_inner_data nonce server_nonce g_b) ≡ mod_exp g_b a p
unfolding server_key client_inner_data append_uint32 append_uint64 append_raw
server_key-client_inner_data nonce server_nonce g_b a p n s h =
    let front : Bytes =
      (([] ++ uint32_le_bytes ctor_client_dh_inner_data) ++ nonce) ++ server_nonce in
    let head : Bytes = front ++ uint64_le_bytes 0 in
    let half = pad_to g_b 256 in
    let whole = append_bytes half head in
    let size : length head ≡ 44 = omega (
      arith,
      n,
      s,
      length-append front (uint64_le_bytes 0),
      length-append (uint32_le_bytes ctor_client_dh_inner_data ++ nonce) server_nonce,
      length-append (uint32_le_bytes ctor_client_dh_inner_data) nonce,
    ) in
    let back : (read_bytes (record { b = whole; i = length head; error = none })).0 ≡ half =
      subst (λ k. (read_bytes (record { b = k; i = length head; error = none })).0 ≡ half)
        (append-nil whole)
        (ap (λ r. r.0)
          (read_bytes-append_bytes half head [] (omega (arith, length-pad_to 256 g_b)))) in
    ap (λ k. mod_exp (big_from 0 (read_bytes (record { b = whole; i = k; error = none })).0) a p)
      (sym size)
    ∙ ap (λ k. mod_exp (big_from 0 k) a p) back
    ∙ ap (λ k. mod_exp k a p) (big_from-pad_to 256 g_b h)

module _ (lib : Library) (keys : List PublicKey) {S : Type 0} (read_full : Reader S) where
  -- For nonces of 16 bytes and a positive modulus of 256 bytes at most, when the half of the server
  -- is the generator raised to its secret: where the third request succeeds, the client has sent
  -- inner data from which the server makes the key that the client has. The request carries the data
  -- encrypted, the key has 256 bytes, and as a number it is the client's half, as the server reads
  -- it, raised to the server's secret.
  pub agree-server_key :
      (turn : Turn) (draws : Draws) (nonce server_nonce new_nonce : Bytes) (params : DhParams)
      (secret a : ℕ) (wire last : Wire S) (shared : Bytes)
      → length nonce ≡ 16
      → length server_nonce ≡ 16
      → 0 < params.dh_prime
      → params.dh_prime ≤ 256 ^ 256
      → params.g_a ≡ mod_exp params.g a params.dh_prime
      → agree lib keys read_full turn draws nonce server_nonce new_nonce params secret wire
        ≡ ok (shared, last)
      → (inner : Bytes) × (encrypted : Bytes) × (answer : Bytes) × (encrypt_dh_inner lib.hashes
            draws.filler inner
            (dh_temp_keys lib.hashes new_nonce server_nonce).0
            (dh_temp_keys lib.hashes new_nonce server_nonce).1
          ≡ ok encrypted)
        × (call lib keys read_full turn (set_client_dh_params nonce server_nonce encrypted) wire
            ≡ ok (answer, last))
        × (length shared ≡ 256)
        × (big_from 0 shared ≡ server_key a params.dh_prime inner)
  unfolding agree
  agree-server_key turn draws nonce server_nonce new_nonce params secret a wire last shared n s pos
        fits half e =
      let p = params.dh_prime in
      let temp = dh_temp_keys lib.hashes new_nonce server_nonce in
      let g_b = mod_exp params.g secret p in
      let inner = client_inner_data nonce server_nonce g_b in
      let (encrypted, e1, f1) =
        >>=-eq-ok (encrypt_dh_inner lib.hashes draws.filler inner temp.0 temp.1) _ e in
      let ((answer, wire1), e2, f2) =
        >>=-eq-ok
          (call lib keys read_full turn (set_client_dh_params nonce server_nonce encrypted) wire) _
          f1 in
      let k = mod_exp params.g_a secret p in
      let (u, e3, f3) =
        >>=-eq-ok (verify_dh_gen lib.hashes answer nonce server_nonce new_nonce (pad_to k 256)) _
          f2 in
      let below : (x y : ℕ) → mod_exp x y p < 256 ^ 256 =
        λ x y. omega (arith, mod_exp-lt x y p pos, fits) in
      let same : k ≡ server_key a p inner =
        ap (λ m. mod_exp m secret p) half
        ∙ mod_exp_comm params.g a secret p
        ∙ sym
            (server_key-client_inner_data nonce server_nonce g_b a p n s (below params.g secret)) in
      let ends =
        of_ok
          (λ r.
            (call lib keys read_full turn (set_client_dh_params nonce server_nonce encrypted) wire
              ≡ ok (answer, r.1))
            × (length r.0 ≡ 256)
            × (big_from 0 r.0 ≡ server_key a p inner))
          f3 (e2, length-pad_to 256 k, big_from-pad_to 256 k (below params.g_a secret) ∙ same) in
      let (sent, size, equals) = ends in (inner, encrypted, answer, e1, sent, size, equals)
