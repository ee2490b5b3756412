-- ===== src/Mtproto/Auth/Params.antt =====
-- `checkDHParams` of internal/mtproto/auth.go, with the cache of primes as a list of fingerprints.
-- What math/big and crypto/sha256 compute is a parameter.
pub mod Checked
use mtproto_checker.Common.{
  Bool, Bytes, List, Result, err, if◌then◌else◌, leb, ltb, not, ok, reject, ℕ, ◌-◌, ◌/◌, ◌==◌,
  ◌>>=◌, ◌||◌, ◌∷◌,
}
use mtproto_checker.Common.Keys.{member}
use mtproto_checker.Mtproto.Errors.{
  Error, bad_g_a, bad_generator, bad_prime_size, not_prime, not_safe_prime,
}

pub record Big : Type 0 where
  pub bit_len : ℕ → ℕ
  pub bytes : ℕ → Bytes
  pub probably_prime : ℕ → Bool
  pub sha256 : Bytes → Bytes

module _ (big : Big) where
  abbrev pub fingerprint : ℕ → Bytes
  fingerprint dh_prime = big.sha256 (big.bytes dh_prime)

  -- The guards in front of the cache.
  unfoldable pub check_ranges : ℕ → ℕ → ℕ → Result Error (Unit {0})
  check_ranges g dh_prime g_a = do
    _ ← reject (ltb g 2 || ltb 7 g) (bad_generator g)
    _ ← reject (not (big.bit_len dh_prime == 2048)) (bad_prime_size (big.bit_len dh_prime))
    reject (leb g_a 1 || leb (dh_prime - 1) g_a) bad_g_a

  -- The tests of a prime that is not in the cache.
  unfoldable pub check_prime : ℕ → Result Error (Unit {0})
  check_prime dh_prime = do
    _ ← reject (not (big.probably_prime dh_prime)) not_prime
    reject (not (big.probably_prime ((dh_prime - 1) / 2))) not_safe_prime

  -- The result, and the cache that is left.
  unfoldable pub check_dh_params : ℕ → ℕ → ℕ → List Bytes → Result Error (Unit {0}) × List Bytes
  check_dh_params g dh_prime g_a cache = elim (check_ranges g dh_prime g_a) [
    | err e ↦ (err e, cache)
    | ok _ ↦
        if member (fingerprint dh_prime) cache
        then (ok tt, cache)
        else elim (check_prime dh_prime) [
          | err e ↦ (err e, cache)
          | ok _ ↦ (ok tt, fingerprint dh_prime ∷ cache)
        ]
  ]
