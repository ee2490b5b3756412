-- ===== src/Settings.antt =====
-- The flags of the command (cmd/mtproto-checker/main.go): the configuration that they make, the guards
-- on it, and the options of the checker. Package flag is not part of the model.
pub mod Defaults
use mtproto_checker.Common.{
  Bool, Bytes, List, Option, Result, [], drop, equal, err, false, if◌then◌else◌, leb, length, ltb,
  map, none, not, ok, some, suc, take, true, zero, ℕ, ◌&&◌, ◌++◌, ◌-◌, ◌==◌, ◌>>=◌, ◌||◌, ◌∷◌,
}
use mtproto_checker.Common.Sort.{filter}
use mtproto_checker.Common.Text.{codes, is_empty, negsuc, pos, ℤ}
use mtproto_checker.Checker
use mtproto_checker.Checker.{Status, summarize}
use mtproto_checker.Checker.Sorting.{sort_by_latency}
use mtproto_checker.Filter
use mtproto_checker.Filter.{
  Info, Spec, given, load_exclusions, needs_geo, parse_ints, parse_list, split_from,
}
use mtproto_checker.Input.{Patterns, collect}
use mtproto_checker.Mtproto.Probe.{Depth, full, quick}
use mtproto_checker.Proxy.Link.{Platform}
use mtproto_checker.Report.{is_live}

-- `config`, but for `noColor`.
pub record Config : Type 0 where
  pub files : List Bytes
  pub urls : List Bytes
  pub stdin : Bool
  pub timeout : ℤ
  pub concurrency : ℤ
  pub attempts : ℤ
  pub min_successes : ℤ
  pub format : Bytes
  pub out : Bytes
  pub save_live : Bytes
  pub save_dead : Bytes
  pub save_links : Bytes
  pub alive_only : Bool
  pub info : Bool
  pub full_handshake : Bool
  pub pings : ℤ
  pub retry_delay : ℤ
  pub api_id : ℤ
  pub inspect : Bool
  pub speedtest : Bool
  pub hold : ℤ
  pub masking : Bool
  pub open_check : Bool
  pub max_conns : ℤ
  pub excludes : List Bytes
  pub modes : Bytes
  pub ports : Bytes
  pub countries : Bytes
  pub asns : Bytes
  pub sort_latency : Bool
  pub top : ℤ
  pub quiet : Bool
  pub show_version : Bool

-- One constructor for each message; `failed` is an error that the code passes on.
pub data Error : Type 0 where
  too_few_attempts too_many_successes needs_api_id nothing_to_check all_filtered : Error
  no_live_proxies : Error
  bad_port bad_asn unknown_format failed : Bytes → Error
  saving_failed : Bytes → Bytes → Error

-- `value > 0`
abbrev pub positive : ℤ → Bool
positive (pos n) = ltb 0 n
positive (negsuc n) = false

-- `a > b`
abbrev pub exceeds : ℤ → ℤ → Bool
exceeds (pos a) (pos b) = ltb b a
exceeds (pos a) (negsuc b) = true
exceeds (negsuc a) (pos b) = false
exceeds (negsuc a) (negsuc b) = ltb a b

abbrev pub is_zero : ℤ → Bool
is_zero (pos n) = n == 0
is_zero (negsuc n) = false

-- The guards of `parseFlags`, behind the flag package.
unfoldable pub check_flags : Config → Result Error (Unit {0})
check_flags cfg =
    if not (positive cfg.attempts)
    then err too_few_attempts
    else if exceeds cfg.min_successes cfg.attempts
    then err too_many_successes
    else if (cfg.inspect || cfg.speedtest) && is_zero cfg.api_id
    then err needs_api_id
    else ok tt

-- `checker.Options`, as a run sets them.
pub record Chosen : Type 0 where
  pub options : Checker.Options
  pub geo : Bool
  pub depth : Depth
  pub pings : ℤ
  pub api_id : ℤ
  pub inspect : Bool
  pub speedtest : Bool
  pub hold : ℤ
  pub masking : Bool
  pub open_check : Bool
  pub max_conns : ℤ

unfoldable pub options_of : Config → Spec → Chosen
options_of cfg spec = record {
  options = record {
    timeout = cfg.timeout;
    concurrency = cfg.concurrency;
    attempts = cfg.attempts;
    min_successes = cfg.min_successes;
    retry_delay = cfg.retry_delay;
  };
  geo = cfg.info || needs_geo spec;
  depth =
      if cfg.full_handshake || cfg.inspect || cfg.speedtest || positive cfg.hold
      then full
      else quick;
  pings = cfg.pings;
  api_id = cfg.api_id;
  inspect = cfg.inspect;
  speedtest = cfg.speedtest;
  hold = cfg.hold;
  masking = cfg.masking;
  open_check = cfg.open_check;
  max_conns = cfg.max_conns;
}

-- The text of an error becomes an error of the run.
abbrev pub as_error : {A : Type 0} → (Bytes → Error) → Result Bytes A → Result Error A
as_error e (ok a) = ok a
as_error e (err text) = err (e text)

abbrev pub require : Error → Bool → Result Error (Unit {0})
require e true = ok tt
require e false = err e
