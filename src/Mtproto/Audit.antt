-- ===== src/Mtproto/Audit.antt =====
-- internal/mtproto/audit.go: what a FakeTLS proxy shows to other clients, whether a proxy lets a wrong
-- secret through, and how many clients it serves. Go's TLS is what a handshake gives.
pub mod Decoy
pub mod Hold
mod Tests
use mtproto_checker.Common.{
  Bool, Bytes, List, Option, Result, [], err, false, if◌then◌else◌, length, ltb, map, none, not, ok,
  some, suc, true, zero, ℕ, ◌%◌, ◌++◌, ◌+◌, ◌/◌, ◌==◌, ◌>>=◌, ◌∷◌,
}
use mtproto_checker.Common.Text.{codes, is_empty}
use mtproto_checker.Proxy.Errors
use mtproto_checker.Proxy.Link.{Kind, Platform, Target, mtproto, parse, socks5, tcp, web_proxy}
use mtproto_checker.Proxy.Secret.{
  SecretMode, mode_fake_tls, mode_none, mode_plain, mode_secure, secret_mode, secret_sni,
}
use mtproto_checker.Mtproto.Probe.{World, probe_mtproto}
use mtproto_checker.Checker.{hex_string}

-- The values of `Verdict`.
pub data Verdict : Type 0 where
  not_applicable unreachable no_cover_traffic good another_domain no_certificate : Verdict

abbrev pub verdict_text : Verdict → Bytes
verdict_text not_applicable = codes "not applicable"
verdict_text unreachable = codes "unreachable"
verdict_text no_cover_traffic = codes "no cover traffic"
verdict_text good = codes "good"
verdict_text another_domain = codes "certificate for another domain"
verdict_text no_certificate = codes "answered without a certificate"

pub record MaskingResult : Type 0 where
  pub domain : Bytes
  pub answered : Bool
  pub version : Bytes
  pub issuer : Bytes
  pub subject : Bytes
  pub name_match : Bool
  pub verdict : Verdict
  pub error : Bytes
  pub sans : List Bytes

-- What the code reads of an x509 certificate; `fits` is whether `VerifyHostname` gives no error.
pub record Certificate : Type 0 where
  pub subject : Bytes
  pub issuer : Bytes
  pub dns_names : List Bytes
  pub fits : Bytes → Bool

pub record TlsState : Type 0 where
  pub version : ℕ
  pub peer_certificates : List Certificate

-- The version is an uint16, printed with `0x%04x`.
unfoldable pub tls_version_name : ℕ → Bytes
tls_version_name version =
    if version == 0x0304
    then codes "1.3"
    else if version == 0x0303
    then codes "1.2"
    else if version == 0x0302
    then codes "1.1"
    else if version == 0x0301
    then codes "1.0"
    else codes "0x" ++ hex_string ((version / 256) ∷ (version % 256) ∷ [])

abbrev pub new_masking : Bytes → Verdict → Bytes → MaskingResult
new_masking domain verdict error = record {
  domain = domain;
  answered = false;
  version = [];
  issuer = [];
  subject = [];
  name_match = false;
  verdict = verdict;
  error = error;
  sans = [];
}

-- The last switch, on a match and on the subject.
unfoldable pub judge : Bool → Bytes → Verdict
judge name_match subject =
    if name_match then good else if not (is_empty subject) then another_domain else no_certificate

-- From the connection state on.
unfoldable pub show_state : Bytes → ℕ → List Certificate → MaskingResult
show_state domain version [] = record (new_masking domain (judge false []) []) {
  answered = true;
  version = tls_version_name version;
}
show_state domain version (leaf ∷ others) = record {
  domain = domain;
  answered = true;
  version = tls_version_name version;
  issuer = leaf.issuer;
  subject = leaf.subject;
  name_match = leaf.fits domain;
  verdict = judge (leaf.fits domain) leaf.subject;
  error = [];
  sans = leaf.dns_names;
}

-- `CheckMasking`: `dialled` is the dial and `shaken` the handshake for the domain; an error is its text.
unfoldable pub check_masking :
    Bytes → Result Bytes (Unit {0}) → Result Bytes TlsState → MaskingResult
check_masking secret dialled shaken =
    let domain = secret_sni secret in
    elim (secret_mode secret) [
      | mode_fake_tls ↦ elim dialled [
        | err e ↦ new_masking domain unreachable e
        | ok u ↦ elim shaken [
          | err e ↦ new_masking domain no_cover_traffic e
          | ok state ↦ show_state domain state.version state.peer_certificates
        ]
      ]
      | mode_plain ↦ new_masking domain not_applicable []
      | mode_secure ↦ new_masking domain not_applicable []
      | mode_none ↦ new_masking domain not_applicable []
    ]

-- The errors of `CheckOpenSecret`.
pub data Refusal : Type 0 where
  only_mtproto no_random : Refusal
  bad_link : Errors.Error → Refusal

-- The secret of `decoyTarget`: the mode's mark, the key and the domain, in hexadecimal.
unfoldable pub decoy_secret : SecretMode → Bytes → Bytes → Bytes
decoy_secret mode_fake_tls sni key = codes "ee" ++ (hex_string key ++ hex_string sni)
decoy_secret mode_secure sni key = codes "dd" ++ hex_string key
decoy_secret mode_plain sni key = hex_string key
decoy_secret mode_none sni key = hex_string key

abbrev pub as_refusal : Result Errors.Error Target → Result Refusal Target
as_refusal (ok t) = ok t
as_refusal (err e) = err (bad_link e)

abbrev pub succeeded : {E A : Type 0} → Result E A → Bool
succeeded (ok a) = true
succeeded (err e) = false

-- `quick.probeMTProto` of the decoy, with two candidates at most.
abbrev pub probe_decoy : {O : Type 0} → (Target → World O) → Target → Bool
probe_decoy w decoy = succeeded (probe_mtproto (w decoy) (secret_mode decoy.secret_bytes) 2)

module _ (os : Platform) where
  unfoldable pub decoy_link : Bytes → ℕ → Bytes → Bytes
  decoy_link host port secret =
      codes "tg://proxy?server="
      ++ (host ++ (codes "&port=" ++ (os.itoa port ++ (codes "&secret=" ++ secret))))

  unfoldable pub decoy_target : Option Bytes → Target → Result Refusal Target
  decoy_target none t = err no_random
  decoy_target (some key) t = as_refusal (
      parse os (
        decoy_link t.host t.port
          (decoy_secret (secret_mode t.secret_bytes) (secret_sni t.secret_bytes) key)))

  abbrev pub open_with :
      {O : Type 0} → (Target → World O) → Option Bytes → Kind → Target → Result Refusal Bool
  open_with w key mtproto t = do decoy ← decoy_target key t; ok (probe_decoy w decoy)
  open_with w key socks5 t = err only_mtproto
  open_with w key web_proxy t = err only_mtproto
  open_with w key tcp t = err only_mtproto

  -- `w` is the world around the loop over a target's candidates.
  unfoldable pub check_open_secret :
      {O : Type 0} → (Target → World O) → Option Bytes → Target → Result Refusal Bool
  check_open_secret w key t = open_with w key t.kind t

pub record ConnLimit : Type 0 where
  pub requested : ℕ
  pub accepted : ℕ

-- The goroutines, each with an entry of its own: `probe i` is what the probe of the `i`-th gives.
unfoldable pub probe_all : {E O : Type 0} → (ℕ → Result E O) → ℕ → List Bool
probe_all probe zero = []
probe_all probe (suc n) = probe_all probe n ++ (elim (probe n) [ ok o ↦ true | err e ↦ false ] ∷ [])

unfoldable pub count_accepted : List Bool → ℕ
count_accepted [] = 0
count_accepted (true ∷ results) = suc (count_accepted results)
count_accepted (false ∷ results) = count_accepted results

-- `CheckConnLimit`; its caller asks for a positive number.
unfoldable pub check_conn_limit : {E O : Type 0} → (ℕ → Result E O) → ℕ → ConnLimit
check_conn_limit probe want =
    let asked = if ltb want 2 then 2 else want in
    record { requested = asked; accepted = count_accepted (probe_all probe asked) }

pub record Audit : Type 0 where
  pub masking : Option MaskingResult
  pub accepts_any_secret : Option Bool
  pub conn_limit : Option ConnLimit

-- strings.Join with ", ".
unfoldable pub join_parts : List Bytes → Bytes
join_parts [] = []
join_parts (p ∷ []) = p
join_parts (p ∷ (q ∷ parts)) = p ++ (codes ", " ++ join_parts (q ∷ parts))

unfoldable pub masking_part : Option MaskingResult → List Bytes
masking_part none = []
masking_part (some m) = elim (m.verdict) [
  | not_applicable ↦ []
  | _ ↦ (codes "masking " ++ verdict_text m.verdict) ∷ []
]

unfoldable pub secret_part : Option Bool → List Bytes
secret_part (some true) = codes "accepts any secret" ∷ []
secret_part (some false) = []
secret_part none = []

unfoldable pub limit_part : (ℕ → Bytes) → Option ConnLimit → List Bytes
limit_part itoa none = []
limit_part itoa (some l) =
    (codes "parallel " ++ (itoa l.accepted ++ (codes "/" ++ itoa l.requested))) ∷ []

unfoldable pub describe_audit : (ℕ → Bytes) → Option Audit → Bytes
describe_audit itoa none = []
describe_audit itoa (some a) =
    join_parts
      (masking_part a.masking ++ (secret_part a.accepts_any_secret ++ limit_part itoa a.conn_limit))
