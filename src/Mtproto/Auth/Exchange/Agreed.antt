-- ===== src/Mtproto/Auth/Exchange/Agreed.antt =====
-- What a key exchange that succeeds has shown.
use mtproto_checker.Common.{
  >>=-eq-ok, Bytes, List, Option, ap, none, of_ok, ok, ok_cancel, refl, slice, some, sym, ℕ, ◌∙◌,
  ◌≡◌,
}
use mtproto_checker.Common.Text.{ℤ}
use mtproto_checker.Mtproto.Session.{AuthKey}
use mtproto_checker.Mtproto.Transport.{Reader}
use mtproto_checker.Mtproto.Auth.Answers.{
  DhParams, ctor_dh_gen_ok, dh_temp_keys, encrypt_dh_inner, new_nonce_hash, verify_dh_gen,
}
use mtproto_checker.Mtproto.Auth.Answers.Bound.{IsBound, verify_dh_gen-IsBound}
use mtproto_checker.Mtproto.Auth.Params.{check_dh_params}
use mtproto_checker.Mtproto.Auth.Params.Checked.{IsChecked, IsSound, check_dh_params-IsSound}
use mtproto_checker.Mtproto.Auth.Rsa.{PublicKey, pad_to}
use mtproto_checker.Mtproto.Auth.Exchange.{
  Draws, Library, Turn, Wire, agree, ask_params, ask_pq, auth_key_of, call, client_inner_data,
  create_auth_key, drawn, mod_exp, set_client_dh_params,
}

-- A key of this exchange: the values of the server were in range, the key is the server's half raised
-- to the client's secret, and the server has shown that it has it.
pub record IsAgreed (lib : Library) (draws : Draws) (auth : AuthKey) : Type 0 where
  pub nonce : Bytes
  pub ours : draws.nonce ≡ some nonce
  pub server_nonce : Bytes
  pub new_nonce : Bytes
  pub params : DhParams
  pub checked : IsChecked lib.big params.g params.dh_prime params.g_a
  pub secret : ℕ
  pub chosen : draws.secret ≡ some secret
  pub shared : auth.key ≡ pad_to (mod_exp params.g_a secret params.dh_prime) 256
  pub named : auth.key_id ≡ slice 12 20 (lib.hashes.sha1 auth.key)
  pub confirmation : Bytes
  pub bound : IsBound ctor_dh_gen_ok confirmation nonce server_nonce
  pub confirmed : slice 36 52 confirmation ≡ new_nonce_hash lib.hashes new_nonce auth.key

drawn-ok : {A : Type 0} (o : Option A) (a : A) → drawn o ≡ ok a → o ≡ some a
unfolding drawn
drawn-ok none a e = cc
drawn-ok (some x) a e = ap some (ok_cancel x a e)

module _ (lib : Library) (keys : List PublicKey) {S : Type 0} (read_full : Reader S) where
  -- The last request gives the key that the answer to it confirms.
  agree-confirmed :
      (turn : Turn) (draws : Draws) (nonce server_nonce new_nonce : Bytes) (params : DhParams)
      (secret : ℕ) (wire last : Wire S) (shared : Bytes)
      → agree lib keys read_full turn draws nonce server_nonce new_nonce params secret wire
        ≡ ok (shared, last)
      → (shared ≡ pad_to (mod_exp params.g_a secret params.dh_prime) 256)
        × ((answer : Bytes) × IsBound ctor_dh_gen_ok answer nonce server_nonce
            × (slice 36 52 answer ≡ new_nonce_hash lib.hashes new_nonce shared))
  unfolding agree
  agree-confirmed turn draws nonce server_nonce new_nonce params secret wire last shared e =
      let temp = dh_temp_keys lib.hashes new_nonce server_nonce in
      let inner = client_inner_data nonce server_nonce (mod_exp params.g secret params.dh_prime) in
      let (encrypted, e1, f1) =
        >>=-eq-ok (encrypt_dh_inner lib.hashes draws.filler inner temp.0 temp.1) _ e in
      let ((answer, wire1), e2, f2) =
        >>=-eq-ok
          (call lib keys read_full turn (set_client_dh_params nonce server_nonce encrypted) wire) _
          f1 in
      let k = pad_to (mod_exp params.g_a secret params.dh_prime) 256 in
      let (u, e3, f3) =
        >>=-eq-ok (verify_dh_gen lib.hashes answer nonce server_nonce new_nonce k) _ f2 in
      let (bound, same) =
        verify_dh_gen-IsBound lib.hashes answer nonce server_nonce new_nonce k u e3 in
      let key : k ≡ shared = of_ok (λ r. k ≡ r.0) f3 refl in
      (sym key, (answer, bound, same ∙ ap (new_nonce_hash lib.hashes new_nonce) key))

  -- With a sound cache of primes, a key exchange that succeeds has agreed on a key: the generator,
  -- the prime and the server's half passed the checks, the key is the half raised to the client's
  -- secret modulo the prime, its id is cut from its digest, and the last answer carries the client's
  -- nonce and the digest that only this key gives.
  pub create_auth_key-IsAgreed :
      (t1 t2 t3 : Turn) (draws : Draws) (dc : ℤ) (now : ℕ) (cache : List Bytes) (wire last : Wire S)
      (auth : AuthKey)
      → IsSound lib.big cache
      → create_auth_key lib keys read_full (t1, t2, t3) draws dc now cache wire ≡ ok (auth, last)
      → IsAgreed lib draws auth
  unfolding create_auth_key auth_key_of
  create_auth_key-IsAgreed t1 t2 t3 draws dc now cache wire last auth sound e =
      let (nonce, e0, f0) = >>=-eq-ok (drawn draws.nonce) _ e in
      let ((found, wire1), e1, f1) = >>=-eq-ok (ask_pq lib keys read_full t1 nonce wire) _ f0 in
      let ((params, new_nonce, wire2), e2, f2) =
        >>=-eq-ok (ask_params lib keys read_full t2 draws dc nonce found wire1) _ f1 in
      let (u, e3, f3) =
        >>=-eq-ok (check_dh_params lib.big params.g params.dh_prime params.g_a cache).0 _ f2 in
      let (secret, e4, f4) = >>=-eq-ok (drawn draws.secret) _ f3 in
      let ((shared, wire3), e5, f5) =
        >>=-eq-ok
          (agree lib keys read_full t3 draws nonce found.server_nonce new_nonce params secret wire2)
          _ f4 in
      let (power, (answer, bound, confirmed)) =
        agree-confirmed t3 draws nonce found.server_nonce new_nonce params secret wire2 wire3 shared
          e5 in
      of_ok (λ r. IsAgreed lib draws r.0) f5
        (record {
          nonce = nonce;
          ours = drawn-ok draws.nonce nonce e0;
          server_nonce = found.server_nonce;
          new_nonce = new_nonce;
          params = params;
          checked =
              (check_dh_params-IsSound lib.big params.g params.dh_prime params.g_a cache sound).1
                e3;
          secret = secret;
          chosen = drawn-ok draws.secret secret e4;
          shared = power;
          named = refl;
          confirmation = answer;
          bound = bound;
          confirmed = confirmed;
        })
