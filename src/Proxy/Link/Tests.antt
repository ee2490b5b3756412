-- ===== src/Proxy/Link/Tests.antt =====
-- A platform for the tests, and links and secrets on it.
use mtproto_checker.Common.{
  Bytes, Option, [], if◌then◌else◌, length, none, ok, refl, replicate, some, ◌++◌, ◌==◌, ◌∷◌, ◌≡◌,
}
use mtproto_checker.Common.Text.{
  atoi, codes, contains, digits, digits_from, has_prefix, is_space, lower, trim_left, trim_right,
}
use mtproto_checker.Proxy.Secret.{Base64, secret_key}
use mtproto_checker.Proxy.Secret.Shape.{length-secret_key}
use mtproto_checker.Proxy.Link.{
  Platform, Target, as_url, check_port, finish, finish_as, from_host_port, new_target, parse,
  parse_port, split_result, tcp,
}
use mtproto_checker.Proxy.Link.Valid.{IsValid, parse-IsValid}

-- Host and port around the first colon.
abbrev cut_colon : Bytes → Option (Bytes × Bytes)
cut_colon [] = none
cut_colon (c ∷ s) =
    let rest = cut_colon s in
    if c == b':'
    then some ([], s)
    else elim rest [ none ↦ none | some (host, port) ↦ some (c ∷ host, port) ]

abbrev no_base64 : Base64
no_base64 = record { raw_url = λ s. none; raw_std = λ s. none }

-- It reads no URLs and no base64, escapes nothing, and prints every port as 1.
abbrev pub os : Platform
os = record {
  parse_url = λ s. none;
  query_escape = λ s. s;
  split_host_port = cut_colon;
  join_host_port = λ host port. host ++ b':' ∷ port;
  itoa = λ n. codes "1";
  base64 = no_base64;
}

abbrev pub link : Bytes
link = codes "a:1"

abbrev pub target : Target
target = new_target link tcp (codes "a") 1 [] [] [] []

pub parse-link : parse os link ≡ ok target
unfolding parse trim_left trim_right is_space as_url contains has_prefix lower from_host_port
    split_result parse_port check_port atoi digits digits_from finish finish_as
parse-link = refl

parse-IsValid_example : IsValid target
parse-IsValid_example = parse-IsValid os link target parse-link

-- Sixteen bytes in hexadecimal.
abbrev secret_text : Bytes
secret_text = replicate 32 b'1'

abbrev raw16 : Bytes
raw16 = replicate 16 0x11

abbrev key16 : Bytes
key16 = replicate 16 7

length-secret_key_test : length (secret_key (0xDD ∷ key16)) ≡ 16
length-secret_key_test = length-secret_key (0xDD ∷ key16)
