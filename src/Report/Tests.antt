-- ===== src/Report/Tests.antt =====
-- Three results of two countries.
use mtproto_checker.Common.{
  All, Bytes, List, [], false, none, refl, some, true, ℕ, ◌∷◌, ◌≡◌, ◌≤◌, ◌⊎◌,
}
use mtproto_checker.Common.Text.{codes, is_empty}
use mtproto_checker.Common.Sort.{IsRanked}
use mtproto_checker.Checker.{Status, status_dead, status_live}
use mtproto_checker.Geo.{nowhere}
use mtproto_checker.Report.{Row, beats, best_from, best_of, by_country, group_by, live}
use mtproto_checker.Report.Best.{IsBest, best_of-IsBest}
use mtproto_checker.Report.Groups.{MayPrecede, count_rows, group_by_lem, sum_of}

abbrev row : Status → ℕ → ℕ → Row
row status score latency = record {
  input = [];
  host = [];
  port = 443;
  canonical = [];
  status = status;
  error_kind = [];
  score = score;
  grade = [];
  latency = latency;
  attempts = 1;
  successes = 1;
  place = some (record (nowhere []) { code = codes "FI" });
}

abbrev rows : List Row
rows = row status_dead 99 1 ∷ row status_live 80 50 ∷ row status_live 80 40 ∷ []

best_of_test : best_of rows ≡ some (row status_live 80 40)
unfolding best_from beats
best_of_test = refl

best_of-IsBest_test :
    ((b : Row) × (best_of rows ≡ some b) × IsBest rows b)
    ⊎ ((best_of rows ≡ none) × All (λ r. live r ≡ false) rows)
best_of-IsBest_test = best_of-IsBest rows

group_by_lem_example :
    ((l : Bytes)
      → is_empty l ≡ false
      → (sum_of l (λ g. g.total) (group_by by_country rows)
          ≡ count_rows by_country l (λ r. true) rows)
        × (sum_of l (λ g. g.living) (group_by by_country rows) ≡ count_rows by_country l live rows)
        × (sum_of l (λ g. 1) (group_by by_country rows) ≤ 1))
    × IsRanked MayPrecede (group_by by_country rows)
group_by_lem_example = group_by_lem by_country rows
