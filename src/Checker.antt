-- ===== src/Checker.antt =====
-- Package checker (internal/checker/checker.go): the options, the attempts at one proxy, and the
-- counts of a run. Durations are nanoseconds. What a probe measures, and the rating in floating
-- point that is made of it, are not part of the model.
pub mod Attempts
pub mod Summaries
pub mod Workers
pub mod Sorting
mod Tests
use mtproto_checker.Common.{
  Bool, Bytes, List, Option, Result, [], err, false, get_or, if◌then◌else◌, leb, length, ltb, none,
  ok, some, suc, true, zero, ℕ, ◌%◌, ◌&&◌, ◌*◌, ◌+◌, ◌-◌, ◌/◌, ◌==◌, ◌^◌, ◌||◌, ◌∷◌,
}
use mtproto_checker.Common.Text.{codes, negsuc, pos, ℤ}
use mtproto_checker.Proxy.Link.{Kind, Platform, Target, mtproto, parse, socks5, tcp, web_proxy}
use mtproto_checker.Proxy.Secret.{
  SecretMode, mode_fake_tls, mode_none, mode_plain, mode_secure, secret_key, secret_mode,
  secret_sni,
}
use mtproto_checker.Proxy.Errors
use mtproto_checker.Proxy.Link

pub data Status : Type 0 where
  status_live status_dead status_invalid : Status

-- The fields of `Options` that `Defaults` sets; the others do not bear on the attempts.
pub record Options : Type 0 where
  pub timeout : ℤ
  pub concurrency : ℤ
  pub attempts : ℤ
  pub min_successes : ℤ
  pub retry_delay : ℤ

-- `if value <= 0 { value = fallback }`
unfoldable pub or_default : ℤ → ℕ → ℕ
or_default (pos zero) fallback = fallback
or_default (pos (suc n)) fallback = suc n
or_default (negsuc n) fallback = fallback

-- `Defaults`, all of whose results are positive.
unfoldable pub defaults : Options → Options
unfolding or_default
defaults o =
    let attempts = or_default o.attempts 2 in
    let wanted = or_default o.min_successes 1 in
    record {
      timeout = pos (or_default o.timeout (10 * 10 ^ 9));
      concurrency = pos (or_default o.concurrency 16);
      attempts = pos attempts;
      min_successes = pos (if ltb attempts wanted then attempts else wanted);
      retry_delay = pos (or_default o.retry_delay (250 * 10 ^ 6));
    }

abbrev pub max_retry_delay : ℕ
max_retry_delay = 2 * 10 ^ 9

-- The delay of `sleepBackoff` before its jitter, for a base that is not negative: the shift wraps
-- around at 64 bits and is positive below 2 ^ 63.
unfoldable pub backoff_delay : ℕ → ℕ → ℕ
backoff_delay base attempt =
    let scaled = base * 2 ^ (attempt - 2) % 2 ^ 64 in
    let shifts = leb 2 attempt && ltb (attempt - 2) 32 in
    let fits = ltb 0 scaled && ltb scaled (2 ^ 63) && ltb scaled max_retry_delay in
    let delay = if shifts && fits then scaled else max_retry_delay in
    if delay == 0 then 10 ^ 6 else delay

-- `random` is what the generator gives below its bound.
unfoldable pub backoff : (ℕ → ℕ) → ℕ → ℕ → ℕ
unfolding backoff_delay
backoff random base attempt =
    let delay = backoff_delay base attempt in delay + random (delay / 2 + 1)

-- The digits of `hexString`.
abbrev pub hex_digits : Bytes
hex_digits = codes "0123456789abcdef"

unfoldable pub hex_string : Bytes → Bytes
hex_string [] = []
hex_string (c ∷ b) = get_or hex_digits (c / 16) 0 ∷ get_or hex_digits (c % 16) 0 ∷ hex_string b

-- `Domain` is empty but for FakeTLS.
pub record SecretInfo : Type 0 where
  pub mode : SecretMode
  pub domain : Bytes
  pub key_hex : Bytes
  pub size : ℕ

abbrev domain_of : SecretMode → Bytes → Bytes
domain_of mode_fake_tls secret = secret_sni secret
domain_of mode_plain secret = []
domain_of mode_secure secret = []
domain_of mode_none secret = []

unfoldable pub secret_info : Kind → Bytes → Option SecretInfo
unfolding hex_string
secret_info mtproto secret = some (record {
  mode = secret_mode secret;
  domain = domain_of (secret_mode secret) secret;
  key_hex = hex_string (secret_key secret);
  size = length secret;
})
secret_info socks5 secret = none
secret_info web_proxy secret = none
secret_info tcp secret = none

-- An error of a probe: whether its stage is the dialling, and its text.
pub record ProbeError : Type 0 where
  pub is_dial : Bool
  pub text : Bytes

-- What the loop has learnt: `found` is the outcome of the fastest probe yet, and `best` its time,
-- 0 before the first.
pub record Progress (Outcome : Type 0) : Type 0 where
  pub tried : ℕ
  pub successes : ℕ
  pub last_err : Option Bytes
  pub best : ℕ
  pub found : Option Outcome

abbrev pub start : {Outcome : Type 0} → Progress Outcome
start = record { tried = 0; successes = 0; last_err = none; best = 0; found = none }

-- The network and the clock in a state of type `W`: whether the pause was slept through, the
-- context's error, and one probe of the target, whose time is not negative.
pub record Net (W Outcome : Type 0) : Type 0 where
  pub sleep_backoff : ℕ → W → Bool × W
  pub ctx_err : W → Option Bytes
  pub probe : Target → W → (Result ProbeError Outcome × ℕ) × W

-- The two assignments behind `best == 0 || elapsed < best`.
unfoldable pub keep_best : {Outcome : Type 0} → Progress Outcome → Outcome → ℕ → Progress Outcome
keep_best p outcome elapsed =
    if p.best == 0 || ltb elapsed p.best
    then record p { best = elapsed; found = some outcome }
    else p

module _ {W Outcome : Type 0} (net : Net W Outcome) (min_successes : ℕ) (target : Target) where
  -- The body of the loop behind the probe; `again` is the loop's next round.
  unfoldable pub after_probe :
      (Progress Outcome → W → Progress Outcome)
      → Progress Outcome
      → (Result ProbeError Outcome × ℕ) × W
      → Progress Outcome
  unfolding keep_best
  after_probe again p ((err e, elapsed), w) =
      let failed : Progress Outcome = record p { last_err = some e.text } in
      if e.is_dial then failed else again failed w
  after_probe again p ((ok outcome, elapsed), w) =
      let counted = keep_best (record p { successes = suc p.successes }) outcome elapsed in
      if leb min_successes counted.successes then counted else again counted w

  -- The body of the loop behind the pause.
  unfoldable pub after_pause :
      (Progress Outcome → W → Progress Outcome) → ℕ → Progress Outcome → Bool × W → Progress Outcome
  unfolding after_probe
  after_pause again attempt p (false, w) = p
  after_pause again attempt p (true, w) = elim (net.ctx_err w) [
    | some e ↦ record p { last_err = some e }
    | none ↦ after_probe again (record p { tried = attempt }) (net.probe target w)
  ]

  -- The loop from `attempt` on, with `n` attempts left.
  unfoldable pub attempts_from : ℕ → ℕ → Progress Outcome → W → Progress Outcome
  attempts_from zero attempt p w = p
  attempts_from (suc n) attempt p w =
      let again = attempts_from n (suc attempt) in
      after_pause again attempt p (if ltb 1 attempt then net.sleep_backoff attempt w else (true, w))

-- `Result`, but for what the probe and the audit found out.
pub record Report (Outcome : Type 0) : Type 0 where
  pub input : Bytes
  pub canonical : Bytes
  pub target : Option Target
  pub status : Status
  pub progress : Progress Outcome
  pub error : Bytes
  pub secret : Option SecretInfo

-- `errorText`, for an error's text.
unfoldable pub error_text : Option Bytes → ℕ → Bytes
error_text (some text) min_successes = text
error_text none min_successes =
    if ltb 1 min_successes
    then codes "not enough successful attempts"
    else codes "no valid Telegram response"

abbrev pub natural : ℤ → ℕ
natural (pos n) = n
natural (negsuc n) = 0

module _ {W Outcome : Type 0} (os : Platform) (net : Net W Outcome) where
  unfoldable pub verdict : Bytes → ℕ → Target → Progress Outcome → Report Outcome
  unfolding error_text secret_info
  verdict input min_successes t p =
      let live = leb min_successes p.successes in
      record {
        input = input;
        canonical = Link.canonical os t;
        target = some t;
        status = if live then status_live else status_dead;
        progress = p;
        error = if live then [] else error_text p.last_err min_successes;
        secret = secret_info t.kind t.secret_bytes;
      }

  -- `check`; `describe` is the text of a parse error.
  unfoldable pub check : (Errors.Error → Bytes) → Bytes → Options → W → Report Outcome
  unfolding verdict attempts_from
  check describe input opts w = elim (parse os input) [
    | err e ↦ record {
      input = input;
      canonical = [];
      target = none;
      status = status_invalid;
      progress = start;
      error = describe e;
      secret = none;
    }
    | ok t ↦
        let wanted = natural opts.min_successes in
        verdict input wanted t (attempts_from net wanted t (natural opts.attempts) 1 start w)
  ]

pub record Summary : Type 0 where
  pub total : ℕ
  pub live : ℕ
  pub dead : ℕ
  pub invalid : ℕ

-- The `switch` of `Summarize`.
unfoldable pub count_status : Status → Summary → Summary
count_status status_live s = record s { live = suc s.live }
count_status status_dead s = record s { dead = suc s.dead }
count_status status_invalid s = record s { invalid = suc s.invalid }

unfoldable pub count_all : List Status → Summary → Summary
unfolding count_status
count_all [] s = s
count_all (r ∷ results) s = count_all results (count_status r s)

-- `Summarize`, of the results' statuses.
unfoldable pub summarize : List Status → Summary
unfolding count_all
summarize results =
    count_all results (record { total = length results; live = 0; dead = 0; invalid = 0 })
