-- ===== src/Geo.antt =====
-- internal/geo/geo.go: where a host is. Parsing and resolving of addresses, the request to ipwho.is
-- and the decoding of its answer are a record of functions; coordinates are left out, and texts are
-- bytes in UTF-8.
pub mod Cache
mod Tests
use mtproto_checker.Common.{
  Bool, Bytes, List, Option, Result, [], equal, err, false, if◌then◌else◌, length, ltb, none, not,
  ok, some, suc, zero, ℕ, ◌++◌, ◌+◌, ◌-◌, ◌==◌, ◌||◌, ◌∷◌,
}
use mtproto_checker.Common.Text.{codes, is_empty, negsuc, pos, ℤ}
use mtproto_checker.Proxy.Link.{first_non_empty, key}

-- `Info`.
pub record Place : Type 0 where
  pub host : Bytes
  pub ip : Bytes
  pub country : Bytes
  pub code : Bytes
  pub city : Bytes
  pub asn : ℤ
  pub org : Bytes
  pub isp : Bytes
  pub error : Bytes

abbrev pub nowhere : Bytes → Place
nowhere host = record {
  host = host;
  ip = [];
  country = [];
  code = [];
  city = [];
  asn = pos 0;
  org = [];
  isp = [];
  error = [];
}

-- The flag's half for a capital letter: the code point 0x1F1E6 and on, in UTF-8.
abbrev regional : ℕ → Bytes
regional c = 0xF0 ∷ 0x9F ∷ 0x87 ∷ (0xA6 + (c - 65)) ∷ []

unfoldable pub letters : Bytes → Option Bytes
letters [] = some []
letters (c ∷ code) =
    let rest = letters code in
    if ltb c 65 || ltb 90 c
    then none
    else elim rest [ some out ↦ some (regional c ++ out) | none ↦ none ]

unfoldable pub flag : Option Place → Bytes
flag none = []
flag (some p) =
    if length p.code == 2 then elim (letters p.code) [ some out ↦ out | none ↦ [] ] else []

-- `itoa` prints an int.
unfoldable pub short : (ℤ → Bytes) → Option Place → Bytes
short itoa none = []
short itoa (some p) =
    let org = first_non_empty (p.org ∷ p.isp ∷ []) in
    let city : Bytes = if is_empty p.city then [] else codes ", " ++ p.city in
    let asn : Bytes = elim (p.asn) [
      | pos zero ↦ []
      | pos (suc n) ↦ codes " AS" ++ itoa (pos (suc n))
      | negsuc n ↦ codes " AS" ++ itoa (negsuc n)
    ] in
    let last : Bytes = if is_empty org then [] else 32 ∷ org in
    if is_empty p.error then p.code ++ (city ++ (asn ++ last)) else p.error

-- What the answer of ipwho.is holds.
pub record Payload : Type 0 where
  pub success : Option Bool
  pub message : Bytes
  pub country : Bytes
  pub code : Bytes
  pub city : Bytes
  pub asn : ℤ
  pub org : Bytes
  pub isp : Bytes

pub data FetchError : Type 0 where
  bad_request no_answer : Bytes → FetchError
  malformed : FetchError

pub record Net : Type 0 where
  pub parse_ip : Bytes → Option Bytes
  pub resolve : Bytes → Option Bytes
  pub fetch : Bytes → Result FetchError Payload

unfoldable pub refused : Option Bool → Bool
refused none = false
refused (some success) = not success

-- Behind the address.
unfoldable pub fill : Net → Place → Place
fill net info = elim (net.fetch info.ip) [
  | err (bad_request text) ↦ record info { error = text }
  | err (no_answer text) ↦ record info { error = codes "ipwho.is: " ++ text }
  | err malformed ↦ record info { error = codes "ipwho.is: malformed response" }
  | ok payload ↦
      if refused payload.success
      then record info {
        error =
            codes "ipwho.is: " ++ first_non_empty (payload.message ∷ codes "lookup failed" ∷ []);
      }
      else record info {
        country = payload.country;
        code = payload.code;
        city = payload.city;
        asn = payload.asn;
        org = payload.org;
        isp = payload.isp;
      }
]

-- The address itself, or the first that the name has.
unfoldable pub address_of : Net → Bytes → Option Bytes
address_of net host = elim (net.parse_ip host) [ some ip ↦ some ip | none ↦ net.resolve host ]

-- `lookup`.
unfoldable pub look_up : Net → Bytes → Place
look_up net host = elim (address_of net host) [
  | none ↦ record (nowhere host) { error = codes "cannot resolve " ++ host }
  | some ip ↦ fill net (record (nowhere host) { ip = ip })
]

abbrev pub Cache : Type 0
Cache = List (Bytes × Place)

unfoldable pub cached : Bytes → Cache → Option Place
cached host [] = none
cached host ((key, p) ∷ cache) =
    let rest = cached host cache in if equal key host then some p else rest

-- The client with the lookups that are under way: the cache, the hosts that are being asked about
-- outside the lock, and the answers that `Lookup` has returned, the last one first.
pub record Lookups : Type 0 where
  pub cache : Cache
  pub asking : List Bytes
  pub answers : List (Bytes × Place)

-- `Lookup` under its first lock: it returns what the cache has for the host, or goes on to ask.
unfoldable pub begin_lookup : Bytes → Lookups → Lookups
begin_lookup host s = elim (cached host s.cache) [
  | some p ↦ record s { answers = (host, p) ∷ s.answers }
  | none ↦ record s { asking = host ∷ s.asking }
]

-- The rest of it: what `lookup` gives is stored under the second lock, and returned.
unfoldable pub end_lookup : Net → Bytes → Cache → Place × Cache
end_lookup net host cache = let p = look_up net host in (p, (host, p) ∷ cache)

-- The same for one of the hosts that are asked about; `others` are the other ones.
unfoldable pub answer_lookup : Net → Bytes → List Bytes → Lookups → Lookups
answer_lookup net host others s =
    let (p, cache) = end_lookup net host s.cache in
    record { cache = cache; asking = others; answers = (host, p) ∷ s.answers }
