-- ===== src/Filter.antt =====
-- Package filter (internal/filter/filter.go): which links are checked and which results are shown.
pub mod Excluded
pub mod Places
mod Tests
use mtproto_checker.Common.{
  Bool, Bytes, List, Option, Result, [], drop, err, false, if◌then◌else◌, length, none, not, ok,
  some, true, ℕ, ◌&&◌, ◌++◌, ◌==◌, ◌>>=◌, ◌||◌, ◌∷◌,
}
use mtproto_checker.Common.Text.{
  atoi, codes, has_prefix, is_empty, negsuc, pos, to_lower, trim_space, ℤ,
}
use mtproto_checker.Common.Keys.{member}
use mtproto_checker.Proxy.Link.{
  Kind, Platform, Target, key, kind_name, mtproto, parse, socks5, tcp, web_proxy,
}
use mtproto_checker.Proxy.Secret.{
  SecretMode, mode_fake_tls, mode_none, mode_plain, mode_secure, secret_mode,
}

-- `Exclude` holds the keys of the map, all of whose values are true.
pub record Spec : Type 0 where
  pub modes : List Bytes
  pub ports : List ℤ
  pub countries : List Bytes
  pub asns : List ℤ
  pub exclude : List Bytes

-- `len(list) > 0`
abbrev pub given {ℓ} : {A : Type ℓ} → List A → Bool
given [] = false
given (x ∷ xs) = true

unfoldable pub needs_geo : Spec → Bool
needs_geo s = given s.countries || given s.asns

-- strings.Split on one byte; `part` is the piece that has been read.
unfoldable pub split_from : ℕ → Bytes → Bytes → List Bytes
split_from separator part [] = part ∷ []
split_from separator part (c ∷ s) =
    let same = split_from separator (part ++ c ∷ []) s in
    let next = split_from separator [] s in if c == separator then part ∷ next else same

-- The trimmed, lowered parts of a list that are not empty.
unfoldable pub tidy : List Bytes → List Bytes
tidy [] = []
tidy (part ∷ parts) =
    let rest = tidy parts in
    let p = to_lower (trim_space part) in if is_empty p then rest else p ∷ rest

unfoldable pub parse_list : Bytes → List Bytes
unfolding tidy split_from
parse_list value = if is_empty (trim_space value) then [] else tidy (split_from b',' [] value)

-- strings.TrimPrefix
unfoldable pub trim_prefix : Bytes → Bytes → Bytes
trim_prefix prefix s = if has_prefix s prefix then drop (length prefix) s else s

-- The error carries the part that is not a number.
unfoldable pub all_ints : List Bytes → Result Bytes (List ℤ)
all_ints [] = ok []
all_ints (part ∷ parts) =
    let p = trim_prefix (codes "as") part in
    let rest = all_ints parts in
    elim (atoi p) [ none ↦ err p | some number ↦ (rest >>= λ numbers. ok (number ∷ numbers)) ]

unfoldable pub parse_ints : Bytes → Result Bytes (List ℤ)
unfolding all_ints parse_list
parse_ints value = all_ints (parse_list value)

-- `==` on ints.
unfoldable pub same_int : ℤ → ℤ → Bool
same_int (pos n) (pos m) = n == m
same_int (negsuc n) (negsuc m) = n == m
same_int (pos n) (negsuc m) = false
same_int (negsuc n) (pos m) = false

unfoldable pub contains_int : List ℤ → ℤ → Bool
contains_int [] want = false
contains_int (item ∷ list) want = same_int item want || contains_int list want

abbrev pub mode_name : SecretMode → Bytes
mode_name mode_plain = codes "plain"
mode_name mode_secure = codes "secure"
mode_name mode_fake_tls = codes "fake_tls"
mode_name mode_none = codes "none"

unfoldable pub mode_of_kind : Kind → Bytes → Bytes
mode_of_kind mtproto secret = mode_name (secret_mode secret)
mode_of_kind socks5 secret = kind_name socks5
mode_of_kind web_proxy secret = kind_name web_proxy
mode_of_kind tcp secret = kind_name tcp

unfoldable pub mode_of : Target → Bytes
unfolding mode_of_kind
mode_of t = mode_of_kind t.kind t.secret_bytes

module _ (os : Platform) where
  -- The conditions under which the loop of `Links` skips a target.
  unfoldable pub skips : Spec → Target → Bool
  skips s t =
      member (key os t) s.exclude
      || member (to_lower t.host) s.exclude
      || (given s.ports && not (contains_int s.ports (pos t.port)))
      || (given s.modes && not (member (mode_of t) s.modes))

  -- A link that names no target is left for the check to report.
  unfoldable pub drops : Spec → Bytes → Bool
  drops s link = elim (parse os link) [ ok target ↦ skips s target | err e ↦ false ]

  unfoldable pub keep_links : Spec → List Bytes → List Bytes
  keep_links s [] = []
  keep_links s (link ∷ links) =
      let rest = keep_links s links in if drops s link then rest else link ∷ rest

  unfoldable pub links : Spec → List Bytes → List Bytes
  unfolding keep_links
  links s all =
      if not (given s.modes) && not (given s.ports) && not (given s.exclude)
      then all
      else keep_links s all

  -- What one line of `LoadExclusions` adds.
  unfoldable pub line_exclusions : Bytes → List Bytes
  line_exclusions line = elim (parse os line) [
    | ok target ↦ key os target ∷ to_lower target.host ∷ []
    | err e ↦ to_lower line ∷ []
  ]

  unfoldable pub load_exclusions : List Bytes → List Bytes
  load_exclusions [] = []
  load_exclusions (l ∷ lines) =
      let line = trim_space l in
      let rest = load_exclusions lines in
      if is_empty line || has_prefix line (codes "#") then rest else line_exclusions line ++ rest

-- What `Results` reads of a place (internal/geo/geo.go, `Info`).
pub record Info : Type 0 where
  pub code : Bytes
  pub asn : ℤ

-- `r.Geo == nil || !containsString(s.Countries, ...)`, turned round.
unfoldable pub in_countries : List Bytes → Option Info → Bool
in_countries countries none = false
in_countries countries (some place) = member (to_lower place.code) countries

unfoldable pub in_asns : List ℤ → Option Info → Bool
in_asns asns none = false
in_asns asns (some place) = contains_int asns place.asn

-- The conditions under which the loop of `Results` skips a result with this place.
unfoldable pub skips_place : Spec → Option Info → Bool
skips_place s place =
    (given s.countries && not (in_countries s.countries place))
    || (given s.asns && not (in_asns s.asns place))

module _ {R : Type 0} (geo : R → Option Info) where
  unfoldable pub keep_results : Spec → List R → List R
  keep_results s [] = []
  keep_results s (r ∷ all) =
      let rest = keep_results s all in if skips_place s (geo r) then rest else r ∷ rest

  unfoldable pub results : Spec → List R → List R
  results s all = if needs_geo s then keep_results s all else all
