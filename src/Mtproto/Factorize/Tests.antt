-- ===== src/Mtproto/Factorize/Tests.antt =====
-- Factors of small numbers.
use mtproto_checker.Common.{none, ◌≢◌}
use mtproto_checker.Mtproto.Factorize.{Rng, factorize}
use mtproto_checker.Mtproto.Factorize.Total.{factorize-ne-none}

-- A generator that draws the seed and 1.
abbrev rng : Rng
rng seed n = (seed, 1)

factorize-ne-none_example : factorize rng 15 ≢ none
factorize-ne-none_example = factorize-ne-none rng 15
