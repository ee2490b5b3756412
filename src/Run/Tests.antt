-- ===== src/Run/Tests.antt =====
-- A run whose one proxy is dead, and one whose flags ask for two successes of three attempts.
use mtproto_checker.Common.{Bytes, [], equal, err, false, none, ok, refl, true, ◌≡◌, ◌∷◌}
use mtproto_checker.Common.Text.{codes, pos}
use mtproto_checker.Checker.{defaults, or_default, status_dead}
use mtproto_checker.Filter.{Spec}
use mtproto_checker.Common.Keys
use mtproto_checker.Common.Sort
use mtproto_checker.Common.Text
use mtproto_checker.Checker
use mtproto_checker.Checker.Sorting
use mtproto_checker.Filter
use mtproto_checker.Input
use mtproto_checker.Run
use mtproto_checker.Settings
use mtproto_checker.Proxy.Link.Tests.{link, os}
use mtproto_checker.Run.{Env, Event, exit_code, run}
use mtproto_checker.Settings.{
  positive, exceeds, Chosen, Config, Error, all_filtered, as_error, bad_asn, bad_port, check_flags,
  exceeds, failed, is_zero, needs_api_id, no_live_proxies, nothing_to_check, options_of, positive,
  require, saving_failed, too_few_attempts, too_many_successes, unknown_format,
}
use mtproto_checker.Run.Exit.{IsFruitless, run-IsFruitless}
use mtproto_checker.Settings.Defaults.{IsWanted, check_flags-defaults}

abbrev cfg : Config
cfg = record {
  files = [];
  urls = [];
  stdin = false;
  timeout = pos 8;
  concurrency = pos 32;
  attempts = pos 3;
  min_successes = pos 2;
  format = codes "json";
  out = [];
  save_live = [];
  save_dead = codes "dead.json";
  save_links = [];
  alive_only = true;
  info = false;
  full_handshake = false;
  pings = pos 3;
  retry_delay = pos 250;
  api_id = pos 0;
  inspect = false;
  speedtest = false;
  hold = pos 0;
  masking = false;
  open_check = false;
  max_conns = pos 0;
  excludes = [];
  modes = [];
  ports = [];
  countries = [];
  asns = [];
  sort_latency = true;
  top = pos 0;
  quiet = false;
  show_version = false;
}

-- A result is its link; each proxy is dead, and writing does not fail.
abbrev env : Env Bytes
env = record {
  os = os;
  patterns = record { find_links = λ line. []; is_host_port = λ b. true; replace = λ b. b };
  read_file = λ path. err (codes "no such file");
  lines = λ files urls stdin. ok [];
  check_all = λ links chosen. links;
  status = λ r. status_dead;
  latency = λ r. 0;
  geo = λ r. none;
  print = λ w rows. none;
  to_file = λ path rows w. none;
}

dead_run : exit_code (run env (ok (cfg, link ∷ []))).0 ≡ 1
unfolding run check_flags Run.prepare Input.collect Run.build_filter Filter.parse_ints
    Filter.parse_list Filter.all_ints Filter.tidy Filter.split_from Run.exclusion_lines Filter.links
    Run.run_checks Run.results_of Settings.options_of Run.shown_of Run.emit Run.show_results
    Run.save_all Run.finish Input.extract_strict Input.extract Input.dedup Input.dedup_from equal
    Text.trim_left Text.trim_right Text.is_space Checker.summarize Checker.count_all
    Checker.count_status Filter.results Filter.needs_geo Run.print_as Sort.filter
    Sorting.sort_by_latency Sort.sort_stable Sort.insert Keys.member
dead_run = refl

run-IsFruitless_example : IsFruitless env cfg (link ∷ [])
run-IsFruitless_example = (run-IsFruitless env cfg (link ∷ [])).0 dead_run

abbrev spec : Spec
spec = record { modes = []; ports = []; countries = []; asns = []; exclude = [] }

check_flags-defaults_example :
    ((defaults (options_of cfg spec).options).attempts ≡ cfg.attempts)
    × (positive cfg.attempts ≡ true)
    × IsWanted cfg.min_successes (defaults (options_of cfg spec).options).min_successes
    × (exceeds (defaults (options_of cfg spec).options).min_successes cfg.attempts ≡ false)
unfolding check_flags
check_flags-defaults_example = check_flags-defaults cfg spec refl
