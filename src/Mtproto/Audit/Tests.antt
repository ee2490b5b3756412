-- ===== src/Mtproto/Audit/Tests.antt =====
-- A FakeTLS target and its decoy, and a held session, on a platform that knows one link.
use mtproto_checker.Common.{
  Bytes, if◌then◌else◌, ltb, [], arith, err, false, none, ok, refl, replicate, some, true, ℕ, ◌++◌,
  ◌+◌, ◌∷◌, ◌≡◌, ◌≤◌, ◌↔◌, ◌⊎◌,
}
use mtproto_checker.Common.Text.{atoi, codes, digits, digits_from, is_space}
use mtproto_checker.Proxy.Secret.{secret_mode, secret_sni}
use mtproto_checker.Proxy.Link.{Platform, Target, mtproto, new_target}
use mtproto_checker.Proxy.Link.Tests
use mtproto_checker.Proxy.Link.Valid.{IsValid}
use mtproto_checker.Mtproto.Probe.{World, candidates_of}
use mtproto_checker.Mtproto.Probe.Candidates.{IsFirst}
use mtproto_checker.Mtproto.Audit.{check_open_secret, decoy_secret, decoy_target}
use mtproto_checker.Mtproto.Audit.Decoy.{IsDecoy, check_open_secret-IsOpen, decoy_target-IsDecoy}
use mtproto_checker.Mtproto.Audit.Decoy.Links.{decoy_url}
use mtproto_checker.Mtproto.Audit.Decoy.ReadBack.{Reads}
use mtproto_checker.Mtproto.Audit.Hold.{Held, IsClock, IsCounted, Line, hold, hold-ends}

abbrev domain : Bytes
domain = codes "a.bc"

abbrev key : Bytes
key = replicate 16 7

abbrev secret : Bytes
secret = 0xEE ∷ (replicate 16 1 ++ domain)

abbrev target : Target
target = record (new_target [] mtproto (codes "a") 1 [] [] [] []) { secret_bytes = secret }

abbrev text : Bytes
text = decoy_secret (secret_mode secret) (secret_sni secret) key

abbrev os : Platform
os = record Tests.os { parse_url = λ s. some (decoy_url (codes "a") (codes "1") text) }

target-IsValid : IsValid target
target-IsValid = record {
  port_low = omega arith;
  port_high = omega arith;
  host_given = λ e. cc;
  secret_fits = omega arith;
}

reads : Reads os (codes "a") 1 text
unfolding atoi digits digits_from is_space
reads = record { printed = (refl, tt); port_given = refl; read_back = refl; parsed = refl }

decoy_target-IsDecoy_test :
    (d : Target) × (decoy_target os (some key) target ≡ ok d) × IsDecoy target key d
unfolding is_space
decoy_target-IsDecoy_test =
    decoy_target-IsDecoy os target key refl target-IsValid (refl, tt) refl (omega arith) reads

-- Every attempt at every target succeeds.
abbrev world : Target → World ℕ
world d = record {
  attempt = λ i c. ok i;
  late = λ j. false;
  ended = λ j. none;
  problem = λ c e. [];
}

check_open_secret-IsOpen_example :
    (d : Target) × IsDecoy target key d
    × ((check_open_secret os world (some key) target ≡ ok true)
        ↔ ((o : ℕ) × IsFirst (world d) o 0 (candidates_of (secret_mode secret) 2)))
unfolding is_space
check_open_secret-IsOpen_example =
    check_open_secret-IsOpen os target key refl target-IsValid (refl, tt) refl (omega arith) reads
      world (λ d j. refl)

-- A clock that a sleep moves on by what was asked for, and pings that are answered for a while.
abbrev line : Line ℕ Bytes
line = record {
  now = λ w. (w, w);
  sleep = λ d w. w + d;
  ping = λ w. (if ltb w 9 then ok 1 else err [], w);
}

line-IsClock : IsClock line (λ w. w)
line-IsClock = record {
  reads = λ w. refl;
  read_on = λ w. omega arith;
  sleeps = λ d w. omega arith;
  ping_on = λ w. omega arith;
}

hold-ends_example :
    (h : Held) × (w' : ℕ) × (hold line 21 20 4 0 ≡ some (h, w'))
    × IsCounted h
    × ((h.survived ≡ false) ⊎ (0 + 20 ≤ w'))
hold-ends_example = hold-ends line (λ w. w) line-IsClock 20 4 0
