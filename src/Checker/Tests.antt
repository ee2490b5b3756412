-- ===== src/Checker/Tests.antt =====
-- A proxy that answers at once, and one that asks for too many successes.
use mathlib.Core.List.{Perm}
use mtproto_checker.Common.Sort.{filter}
use mtproto_checker.Common.Sort.{IsRanked}
use mtproto_checker.Checker.Sorting.{MayPrecede, sort_by_latency, sort_by_latency_lem}
use mtproto_checker.Common.{
  Bytes, List, [], ltb, none, not, ok, true, ℕ, ◌&&◌, ◌==◌, ◌^◌, ◌∷◌, ◌≡◌, ◌≤◌,
}
use mtproto_checker.Common.Text.{codes, negsuc, pos}
use mtproto_checker.Proxy.Errors
use mtproto_checker.Checker.{Net, Options, defaults, natural}
use mtproto_checker.Checker.Attempts.{defaults_bounds}

-- Every probe succeeds after a millisecond, and no pause is cut short.
abbrev net : Net (Unit {0}) ℕ
net = record {
  sleep_backoff = λ attempt w. (true, w);
  ctx_err = λ w. none;
  probe = λ t w. ((ok 7, 10 ^ 6), w);
}

abbrev options : Options
options = record {
  timeout = pos 0;
  concurrency = negsuc 3;
  attempts = pos 3;
  min_successes = pos 9;
  retry_delay = pos 1;
}

abbrev describe : Errors.Error → Bytes
describe e = codes "bad link"

defaults_bounds_test :
    (1 ≤ natural (defaults options).min_successes)
    × (natural (defaults options).min_successes ≤ natural (defaults options).attempts)
defaults_bounds_test = defaults_bounds options

-- Latencies, with 0 for a result that is not live.
abbrev sample : List ℕ
sample = 30 ∷ 0 ∷ 20 ∷ 30 ∷ []

sort_by_latency_lem_example :
    Perm (sort_by_latency (ltb 0) (λ n. n) sample) sample
    × IsRanked (MayPrecede (ltb 0) (λ n. n)) (sort_by_latency (ltb 0) (λ n. n) sample)
    × (filter (λ n. not (ltb 0 n)) (sort_by_latency (ltb 0) (λ n. n) sample)
        ≡ filter (λ n. not (ltb 0 n)) sample)
    × ((m : ℕ)
        → filter (λ n. ltb 0 n && n == m) (sort_by_latency (ltb 0) (λ n. n) sample)
          ≡ filter (λ n. ltb 0 n && n == m) sample)
sort_by_latency_lem_example = sort_by_latency_lem (ltb 0) (λ n. n) sample
