-- ===== src/Proxy/Link.antt =====
-- Links of internal/proxy/target.go: `Parse` and the `Target` that it makes. URLs, base64, the
-- joining and splitting of host and port, and decimal printing are Go's: a record of functions.
pub mod Valid
pub mod Tests
use mtproto_checker.Common.{
  Bool, Bytes, List, Option, Result, [], equal, err, if◌then◌else◌, ltb, none, not, ok, some, ℕ,
  ◌&&◌, ◌++◌, ◌==◌, ◌>>=◌, ◌||◌, ◌∷◌,
}
use mtproto_checker.Common.Text.{
  atoi, codes, contains, has_prefix, is_empty, negsuc, pos, to_lower, trim, trim_space, ℤ,
}
use mtproto_checker.Proxy.Errors.{
  Error, empty_link, invalid_port, missing_port, missing_server, not_host_port, port_out_of_range,
}
use mtproto_checker.Proxy.Secret.{Base64, decode_secret}

pub data Kind : Type 0 where
  mtproto socks5 web_proxy tcp : Kind

pub record Target : Type 0 where
  pub raw : Bytes
  pub kind : Kind
  pub host : Bytes
  pub port : ℕ
  pub secret : Bytes
  pub username : Bytes
  pub password : Bytes
  pub title : Bytes
  pub secret_bytes : Bytes

-- A target whose secret has not been read.
abbrev pub new_target : Bytes → Kind → Bytes → ℕ → Bytes → Bytes → Bytes → Bytes → Target
new_target raw kind host port secret username password title = record {
  raw = raw;
  kind = kind;
  host = host;
  port = port;
  secret = secret;
  username = username;
  password = password;
  title = title;
  secret_bytes = [];
}

-- What the code reads of a `url.URL`; `query` gives the empty text for a key that is not there.
pub record Url : Type 0 where
  pub scheme : Bytes
  pub host : Bytes
  pub opaque : Bytes
  pub path : Bytes
  pub hostname : Bytes
  pub port : Bytes
  pub user : Option (Bytes × Option Bytes)
  pub query : Bytes → Bytes

pub record Platform : Type 0 where
  pub parse_url : Bytes → Option Url
  pub query_escape : Bytes → Bytes
  pub split_host_port : Bytes → Option (Bytes × Bytes)
  pub join_host_port : Bytes → Bytes → Bytes
  pub itoa : ℕ → Bytes
  pub base64 : Base64

unfoldable pub first_non_empty : List Bytes → Bytes
first_non_empty [] = []
first_non_empty ([] ∷ values) = first_non_empty values
first_non_empty ((c ∷ v) ∷ values) = c ∷ v

-- An `int` that Atoi gave, in range for a port.
unfoldable pub check_port : Option ℤ → Result Error ℕ
check_port none = err invalid_port
check_port (some (negsuc n)) = err port_out_of_range
check_port (some (pos p)) = if ltb p 1 || ltb 65535 p then err port_out_of_range else ok p

unfoldable pub parse_port : Bytes → Result Error ℕ
unfolding check_port
parse_port text = if is_empty text then err missing_port else check_port (atoi text)

abbrev pub kind_name : Kind → Bytes
kind_name mtproto = codes "mtproto"
kind_name socks5 = codes "socks5"
kind_name web_proxy = codes "webproxy"
kind_name tcp = codes "tcp"

abbrev is_slash : ℕ → Bool
is_slash c = c == b'/'

abbrev pub is_path : Bytes → Bytes → Bool
is_path path name = equal path name

-- The `switch` on the path, the scheme and the secret.
unfoldable pub link_kind : Bytes → Bytes → Bytes → Kind
link_kind path scheme secret =
    if is_path path (codes "socks") || has_prefix scheme (codes "socks")
    then socks5
    else if is_path path (codes "webproxy")
    then web_proxy
    else if not (is_empty secret)
    then mtproto
    else tcp

-- The user and password that the authority part of the URL gives in place of the query's.
unfoldable pub user_info : Option (Bytes × Option Bytes) → Bytes × Bytes → Bytes × Bytes
user_info none old = old
user_info (some (user, none)) (u, p) = (user, p)
user_info (some (user, some pw)) (u, p) = (user, pw)

-- A WEB proxy is reached on the standard port where the link names none.
unfoldable pub default_port : Kind → Bytes → Bytes
default_port web_proxy [] = codes "443"
default_port kind text = text

module _ (os : Platform) where
  unfoldable pub addr : Target → Bytes
  addr t = os.join_host_port t.host (os.itoa t.port)

  -- `key=` and an escaped value, which `&` joins to what follows.
  abbrev param : Bytes → Bytes → Bytes
  param name value = name ++ os.query_escape value

  unfoldable pub canonical_of : Kind → Target → Bytes
  canonical_of mtproto t =
      codes "tg://proxy?"
      ++ param (codes "server=") t.host
      ++ codes "&port="
      ++ os.itoa t.port
      ++ param (codes "&secret=") t.secret
  canonical_of web_proxy t =
      codes "tg://webproxy?" ++ param (codes "server=") t.host ++ param (codes "&secret=") t.secret
  canonical_of socks5 t =
      codes "tg://socks?"
      ++ param (codes "server=") t.host
      ++ codes "&port="
      ++ os.itoa t.port
      ++ (if is_empty t.username then [] else param (codes "&user=") t.username)
      ++ (if is_empty t.password then [] else param (codes "&pass=") t.password)
  canonical_of tcp t = addr t

  unfoldable pub canonical : Target → Bytes
  canonical t = canonical_of t.kind t

  unfoldable pub key : Target → Bytes
  key t =
      kind_name t.kind
      ++ b'|' ∷ []
      ++ addr t
      ++ b'|' ∷ []
      ++ to_lower t.secret
      ++ b'|' ∷ []
      ++ t.username

  -- `finish` reads the secret of the two kinds that have one.
  unfoldable pub finish_as : Kind → Target → Result Error Target
  finish_as mtproto t = do
    secret ← decode_secret os.base64 t.secret
    ok (record t { secret_bytes = secret })
  finish_as web_proxy t = do
    secret ← decode_secret os.base64 t.secret
    ok (record t { secret_bytes = secret })
  finish_as socks5 t = ok t
  finish_as tcp t = ok t

  unfoldable pub finish : Target → Result Error Target
  finish t = finish_as t.kind t

  -- What `fromURL` does with the parts, from the test of the host on.
  unfoldable pub make_target :
      Bytes → Kind → Bytes → Bytes → Bytes → Bytes → Bytes → Bytes → Result Error Target
  make_target raw kind host port_text username password secret title =
      if is_empty host then err missing_server else (do
        port ← parse_port (default_port kind port_text)
        finish (new_target raw kind host port secret username password title))

  unfoldable pub from_url : Bytes → Url → Result Error Target
  from_url raw u =
      let path0 = trim is_slash u.path in
      let path = to_lower (if is_empty path0 then u.host else path0) in
      let secret = trim_space (u.query (codes "secret")) in
      let host0 =
        trim_space (first_non_empty (u.query (codes "server") ∷ u.query (codes "host") ∷ [])) in
      let from_query : Bytes × Bytes = (
        first_non_empty (u.query (codes "user") ∷ u.query (codes "username") ∷ []),
        first_non_empty (u.query (codes "pass") ∷ u.query (codes "password") ∷ []),
      ) in
      let authority =
        is_empty host0
        && not (is_empty u.hostname)
        && not (is_path path (codes "proxy"))
        && not (is_path path (codes "socks")) in
      let host = if authority then u.hostname else host0 in
      let port_text0 = if authority then u.port else trim_space (u.query (codes "port")) in
      let login = if authority then user_info u.user from_query else from_query in
      let kind = link_kind path (to_lower u.scheme) secret in
      make_target raw kind host port_text0 login.0 login.1 secret (u.query (codes "title"))

  unfoldable pub split_result : Bytes → Option (Bytes × Bytes) → Result Error Target
  split_result s none = err not_host_port
  split_result s (some (host, port_text)) = do
    port ← parse_port port_text
    let bare = new_target s tcp host port [] [] [] []
    if is_empty host then err missing_server else finish bare

  unfoldable pub from_host_port : Bytes → Result Error Target
  from_host_port s = split_result s (os.split_host_port s)

  abbrev pub with_authority : Option Url → Option Url
  with_authority none = none
  with_authority (some u) = if is_empty u.host && is_empty u.opaque then none else some u

  unfoldable pub as_url : Bytes → Option Url
  as_url s =
      let short = to_lower s in
      if contains (codes "://") s
      then with_authority (os.parse_url s)
      else if has_prefix short (codes "t.me/") || has_prefix short (codes "telegram.me/")
      then with_authority (os.parse_url (codes "https://" ++ s))
      else none

  unfoldable pub parse : Bytes → Result Error Target
  parse raw =
      let s = trim_space raw in
      if is_empty s
      then err empty_link
      else elim (as_url s) [ some u ↦ from_url s u | none ↦ from_host_port s ]
