-- ===== src/Mtproto/Audit/Decoy.antt =====
-- `decoyTarget` and `CheckOpenSecret` of internal/mtproto/audit.go: the target that is tried differs
-- from the one that it copies in the key alone.
pub mod Links
pub mod ReadBack
use mathlib.Core.Path.{subst}
use mtproto_checker.Common.{
  All, ap, Bool, Bool-cases, Bytes, IsByte, Option, Result, Result-cases, [], arith, err, false,
  inl, inr, length, none, ok, refl, some, sym, true, ℕ, ◌∙◌, ◌>>=◌, ◌≡◌, ◌≢◌, ◌≤◌, ◌↔◌, ◌⊎◌,
  ok_cancel, Option-cases,
}
use mtproto_checker.Common.Text.{is_empty}
use mtproto_checker.Proxy.Secret.{
  SecretMode, mode_fake_tls, mode_none, mode_plain, mode_secure, secret_key, secret_mode,
  secret_sni,
}
use mtproto_checker.Proxy.Secret.Shape.{secret-written, written}
use mtproto_checker.Proxy.Secret.Domain.{secret_sni-IsDomain, secret_sni-secret_sni}
use mtproto_checker.Proxy.Link.{Kind, Platform, Target, make_target, mtproto, new_target}
use mtproto_checker.Proxy.Link.Valid.{HasSecret, IsValid}
use mtproto_checker.Checker.{hex_string}
use mtproto_checker.Mtproto.Probe.{World, candidates_of, probe_mtproto}
use mtproto_checker.Mtproto.Probe.Candidates.{IsFirst, probe_mtproto-IsFirst}
use mtproto_checker.Mtproto.Audit.{
  Refusal, as_refusal, succeeded, check_open_secret, decoy_link, decoy_secret, decoy_target,
  open_with, probe_decoy,
}
use Links.{
  NoSpace, decoy_secret-written, from_url-decoy_url, given_hex, hex_string-NoSpace, host-IsByte,
  length-written, make_target-decoy, written-IsByte,
}
use ReadBack.{Reads, parse-decoy_link}

-- The same server in the same mode and, over FakeTLS, with the same domain, and the new key.
pub record IsDecoy (t : Target) (key : Bytes) (d : Target) : Type 0 where
  pub has_secret : d.kind ≡ mtproto
  pub same_host : d.host ≡ t.host
  pub same_port : d.port ≡ t.port
  pub same_mode : secret_mode d.secret_bytes ≡ secret_mode t.secret_bytes
  pub same_domain :
      (secret_mode t.secret_bytes ≢ mode_fake_tls)
      ⊎ (secret_sni d.secret_bytes ≡ secret_sni t.secret_bytes)
  pub new_key : secret_key d.secret_bytes ≡ key

has_mode : (secret : Bytes) → 16 ≤ length secret → secret_mode secret ≢ mode_none
unfolding secret_mode
has_mode secret n = ground arith

given_host : (host : Bytes) → host ≢ [] → is_empty host ≡ false
given_host host h = ground arith

written-domain :
    (secret key : Bytes) (mode : SecretMode)
    → length key ≡ 16
    → (mode ≢ mode_fake_tls)
      ⊎ (secret_sni (written mode key (secret_sni secret)) ≡ secret_sni secret)
written-domain secret key mode_fake_tls n = inr (secret_sni-secret_sni 0xEE key secret n)
written-domain secret key mode_plain n = inl (λ e. cc)
written-domain secret key mode_secure n = inl (λ e. cc)
written-domain secret key mode_none n = inl (λ e. cc)

succeeded-ok : {E A : Type 0} (r : Result E A) → succeeded r ≡ true → (a : A) × (r ≡ ok a)
succeeded-ok (ok a) h = (a, refl)
succeeded-ok (err e) h = cc

module _ (os : Platform) (t : Target) (key : Bytes) (is_mtproto : t.kind ≡ mtproto)
    (valid : IsValid t) (host_text : NoSpace t.host) (size : length key ≡ 16)
    (bytes : All IsByte key)
    (reads : Reads os t.host t.port
      (decoy_secret (secret_mode t.secret_bytes) (secret_sni t.secret_bytes) key)) where
  -- For a target that `Parse` has made of a link with a secret, whose host holds no white space and
  -- whose decoy's link the URL parser takes apart, the decoy is parsed: it has the host, the port, the
  -- mode and over FakeTLS the domain of the target, and its key is the random one.
  pub decoy_target-IsDecoy : (d : Target) × (decoy_target os (some key) t ≡ ok d) × IsDecoy t key d
  unfolding decoy_target
  decoy_target-IsDecoy =
      let mode = secret_mode t.secret_bytes in
      let domain = secret_sni t.secret_bytes in
      let raw = written mode key domain in
      let text = decoy_secret mode domain key in
      let long : 16 ≤ length t.secret_bytes =
        subst (λ k. HasSecret k t.secret_bytes) is_mtproto valid.secret_fits in
      let known = has_mode t.secret_bytes long in
      let spelled = decoy_secret-written mode domain key known in
      let in_bytes =
        written-IsByte mode key domain bytes
          (host-IsByte domain (secret_sni-IsDomain t.secret_bytes).host_bytes) in
      let enough = length-written mode key domain known size in
      let host_given = given_host t.host valid.host_given in
      let spaceless : NoSpace text =
        subst NoSpace (sym spelled) (hex_string-NoSpace raw in_bytes) in
      let text_given = ap is_empty spelled ∙ given_hex raw (omega arith) in
      let link = decoy_link os t.host t.port text in
      let d : Target = record (new_target link mtproto t.host t.port text [] [] []) {
        secret_bytes = raw;
      } in
      let made =
        parse-decoy_link os t.host t.port text reads host_text spaceless
        ∙ from_url-decoy_url os link t.host (os.itoa t.port) text host_text host_given reads.printed
            spaceless text_given in
      let finished =
        make_target-decoy os link t.host t.port raw host_given reads.port_given reads.read_back
          valid.port_low valid.port_high in_bytes enough in
      let (same, kept) = secret-written mode key domain known size in
      (
        d,
        ap as_refusal (
            made
            ∙ subst
                (λ s.
                  make_target os link mtproto t.host (os.itoa t.port) [] [] s []
                  ≡ ok (record (new_target link mtproto t.host t.port s [] [] []) {
                    secret_bytes = raw;
                  }))
                (sym spelled) finished),
        record {
          has_secret = refl;
          same_host = refl;
          same_port = refl;
          same_mode = same;
          same_domain = written-domain t.secret_bytes key mode size;
          new_key = kept;
        },
      )

  -- For a target that `Parse` has made of a link with a secret, whose host holds no white space and
  -- whose decoy's link the URL parser takes apart, and as long as the window does not pass: the check
  -- tries a decoy of the target, and reports that a wrong secret is let through exactly if one of the
  -- decoy's first two candidates succeeds.
  pub check_open_secret-IsOpen :
      {O : Type 0} (w : Target → World O)
      → ((d : Target) (j : ℕ) → (w d).late j ≡ false)
      → (d : Target) × IsDecoy t key d
        × ((check_open_secret os w (some key) t ≡ ok true)
            ↔ ((o : O) × IsFirst (w d) o 0 (candidates_of (secret_mode t.secret_bytes) 2)))
  unfolding check_open_secret
  check_open_secret-IsOpen w in_time =
      let (d, made, like) = decoy_target-IsDecoy in
      let mode = secret_mode d.secret_bytes in
      let run = probe_mtproto (w d) mode 2 in
      let said : open_with os w (some key) t.kind t ≡ ok (succeeded run) =
        ap (λ k. open_with os w (some key) k t) is_mtproto
        ∙ ap (λ r. r >>= λ decoy. ok (probe_decoy w decoy)) made in
      (
        d,
        like,
        (
          (λ e.
              let (o, won) = succeeded-ok run (ok_cancel _ _ (sym said ∙ e)) in
              (
                o,
                subst (λ m. IsFirst (w d) o 0 (candidates_of m 2)) like.same_mode
                    ((probe_mtproto-IsFirst (w d) o mode 2 (in_time d)).0 won),
              )),
          (λ p.
              said
              ∙ ap (λ r. ok (succeeded r))
                  ((probe_mtproto-IsFirst (w d) p.0 mode 2 (in_time d)).1 (
                    subst (λ m. IsFirst (w d) p.0 0 (candidates_of m 2)) (sym like.same_mode)
                      p.1))),
        ),
      )
