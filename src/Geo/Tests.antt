-- ===== src/Geo/Tests.antt =====
-- A net that knows one address.
use mtproto_checker.Common.{[], length, equal, none, ok, refl, some, ◌∷◌, ◌≡◌}
use mtproto_checker.Common.Text.{codes, pos}
use mtproto_checker.Geo.{
  Lookups, Net, begin_lookup, end_lookup, answer_lookup, address_of, cached, fill, flag, letters,
  look_up, refused,
}
use mtproto_checker.Geo.Cache.{IsFaithful, Reach-IsFaithful, begin, here, later, return, start}

abbrev net : Net
net = record {
  parse_ip = λ host. none;
  resolve = λ host. some (1 ∷ []);
  fetch = λ ip. ok (record {
    success = none;
    message = [];
    country = codes "Finland";
    code = codes "FI";
    city = [];
    asn = pos 24940;
    org = [];
    isp = codes "Hetzner";
  });
}

flag_test :
    flag (some (look_up net (codes "a")))
    ≡ 0xF0 ∷ 0x9F ∷ 0x87 ∷ 0xAB ∷ 0xF0 ∷ 0x9F ∷ 0x87 ∷ 0xAE ∷ []
unfolding flag letters look_up fill address_of refused
flag_test = refl

-- Two lookups of one host at a time, and a third when the first has come back.
abbrev run : Lookups
run = begin_lookup (codes "a") (
    answer_lookup net (codes "a") (codes "a" ∷ [])
      (begin_lookup (codes "a") (begin_lookup (codes "a") start)))

run_test : length run.answers ≡ 2
unfolding begin_lookup answer_lookup end_lookup cached equal
run_test = refl

Reach-IsFaithful_example : IsFaithful run
unfolding begin_lookup answer_lookup end_lookup cached equal
Reach-IsFaithful_example = Reach-IsFaithful (
    later
      (later (later (later here (begin (codes "a"))) (begin (codes "a")))
        (return net (codes "a") [] (codes "a" ∷ []) refl))
      (begin (codes "a")))
