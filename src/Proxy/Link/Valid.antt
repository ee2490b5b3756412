-- ===== src/Proxy/Link/Valid.antt =====
-- Every target that `Parse` makes can be probed.
use mathlib.Core.Path.{subst}
use mtproto_checker.Common.{
  >>=-eq-ok, Bool-cases, Bytes, Option, Option-cases, [], arith, false, inl, inr, length, none,
  of_ok, ok, refl, some, sym, ℕ, ◌∷◌, ◌≡◌, ◌≢◌, ◌≤◌,
}
use mtproto_checker.Common.Text.{is_empty, trim_space}
use mtproto_checker.Proxy.Secret.{decode_secret}
use mtproto_checker.Proxy.Secret.Shape.{decode_secret-length}
use mtproto_checker.Proxy.Link.{
  Kind, Platform, Target, Url, as_url, default_port, finish, finish_as, from_host_port, from_url,
  make_target, mtproto, new_target, parse, parse_port, socks5, split_result, tcp, web_proxy,
}

-- The secret that a kind needs: 16 bytes at least where the kind has one, none elsewhere.
abbrev pub HasSecret : Kind → Bytes → Type 0
HasSecret mtproto secret = 16 ≤ length secret
HasSecret web_proxy secret = 16 ≤ length secret
HasSecret socks5 secret = secret ≡ []
HasSecret tcp secret = secret ≡ []

pub record IsValid (t : Target) : Type 0 where
  pub port_low : 1 ≤ t.port
  pub port_high : t.port ≤ 65535
  pub host_given : t.host ≢ []
  pub secret_fits : HasSecret t.kind t.secret_bytes

-- A port that is accepted is one of the 65535.
pub parse_port_bounds : (text : Bytes) (p : ℕ) → parse_port text ≡ ok p → (1 ≤ p) × (p ≤ 65535)
unfolding parse_port
parse_port_bounds text p e = ground arith

module _ (os : Platform) where
  finish_as-IsValid :
      (k : Kind) (t t' : Target)
      → t.kind ≡ k
      → (1 ≤ t.port) × (t.port ≤ 65535) × (t.host ≢ []) × (t.secret_bytes ≡ [])
      → finish_as os k t ≡ ok t'
      → IsValid t'
  unfolding finish_as
  finish_as-IsValid mtproto t t' hk (lo, hi, hh, hs) e =
      let (raw, d, e') = >>=-eq-ok (decode_secret os.base64 t.secret) _ e in
      of_ok IsValid e' (record {
        port_low = lo;
        port_high = hi;
        host_given = hh;
        secret_fits =
            subst (λ k. HasSecret k raw) (sym hk) (decode_secret-length os.base64 t.secret raw d);
      })
  finish_as-IsValid web_proxy t t' hk (lo, hi, hh, hs) e =
      let (raw, d, e') = >>=-eq-ok (decode_secret os.base64 t.secret) _ e in
      of_ok IsValid e' (record {
        port_low = lo;
        port_high = hi;
        host_given = hh;
        secret_fits =
            subst (λ k. HasSecret k raw) (sym hk) (decode_secret-length os.base64 t.secret raw d);
      })
  finish_as-IsValid socks5 t t' hk (lo, hi, hh, hs) e = of_ok IsValid e (record {
    port_low = lo;
    port_high = hi;
    host_given = hh;
    secret_fits = subst (λ k. HasSecret k t.secret_bytes) (sym hk) hs;
  })
  finish_as-IsValid tcp t t' hk (lo, hi, hh, hs) e = of_ok IsValid e (record {
    port_low = lo;
    port_high = hi;
    host_given = hh;
    secret_fits = subst (λ k. HasSecret k t.secret_bytes) (sym hk) hs;
  })

  host_given_lem : (host : Bytes) → is_empty host ≡ false → host ≢ []
  host_given_lem [] h = cc
  host_given_lem (c ∷ s) h = λ e. cc

  -- `finish` behind a checked port and host.
  finish-IsValid :
      (t t' : Target) (text : Bytes)
      → parse_port text ≡ ok t.port
      → is_empty t.host ≡ false
      → t.secret_bytes ≡ []
      → finish os t ≡ ok t'
      → IsValid t'
  unfolding finish
  finish-IsValid t t' text p hh hs e =
      let (lo, hi) = parse_port_bounds text t.port p in
      finish_as-IsValid t.kind t t' refl (lo, hi, host_given_lem t.host hh, hs) e

  make_target-IsValid :
      (raw : Bytes) (kind : Kind) (host text username password secret title : Bytes) (t : Target)
      → make_target os raw kind host text username password secret title ≡ ok t
      → IsValid t
  unfolding make_target
  make_target-IsValid raw kind host text username password secret title t e =
      elim (Bool-cases (is_empty host)) [
        | inl none_given ↦ let bad = rw (none_given, make_target) at e in cc
        | inr given ↦
            let (port, p, e') =
              >>=-eq-ok (parse_port (default_port kind text)) _ (rw (given, make_target) at e) in
            finish-IsValid (new_target raw kind host port secret username password title) t
              (default_port kind text) p given refl e'
      ]

  from_url-IsValid : (raw : Bytes) (u : Url) (t : Target) → from_url os raw u ≡ ok t → IsValid t
  unfolding from_url
  from_url-IsValid raw u t e = make_target-IsValid raw _ _ _ _ _ _ _ t e

  split_result-IsValid :
      (s : Bytes) (o : Option (Bytes × Bytes)) (t : Target) → split_result os s o ≡ ok t → IsValid t
  unfolding split_result
  split_result-IsValid s none t e = cc
  split_result-IsValid s (some (host, text)) t e = elim (Bool-cases (is_empty host)) [
    | inl none_given ↦
        let (port, p, e') = >>=-eq-ok (parse_port text) _ e in let bad = rw none_given at e' in cc
    | inr given ↦
        let (port, p, e') = >>=-eq-ok (parse_port text) _ e in
        finish-IsValid (new_target s tcp host port [] [] [] []) t text p given refl (rw given at e')
  ]

  -- Whatever `Parse` accepts has a host, a port from 1 to 65535, and a secret of at least 16 bytes
  -- where its kind has a secret, and none where it has not.
  pub parse-IsValid : (raw : Bytes) (t : Target) → parse os raw ≡ ok t → IsValid t
  unfolding parse
  parse-IsValid raw t e = elim (Bool-cases (is_empty (trim_space raw))) [
    | inl none_given ↦ let bad = rw (none_given, parse) at e in cc
    | inr given ↦ elim (Option-cases (as_url os (trim_space raw))) [
      | inl plain ↦
          split_result-IsValid (trim_space raw) (os.split_host_port (trim_space raw)) t
            (unfold from_host_port in rw (given, plain, parse) at e)
      | inr (u, link) ↦ from_url-IsValid (trim_space raw) u t (rw (given, link, parse) at e)
    ]
  ]
