-- ===== src/Mtproto/Auth/Params/Checked.antt =====
-- The parameters that are accepted, and what the cache holds.
use mathlib.Core.Path.{subst}
use mtproto_checker.Common.{
  Bool-cases, Bytes, List, Result-cases, arith, equal, equal_iff, inl, inr, leb, ltb, not, ok, refl,
  sym, true, ℕ, ◌-◌, ◌/◌, ◌<◌, ◌==◌, ◌||◌, ◌∷◌, ◌≡◌, ◌≤◌,
}
use mtproto_checker.Common.Guards.{err-ne-ok, past_guard, reject-ok}
use mtproto_checker.Common.Keys.{member}
use mtproto_checker.Mtproto.Errors.{
  bad_g_a, bad_generator, bad_prime_size, not_prime, not_safe_prime,
}
use mtproto_checker.Mtproto.Auth.Params.{
  Big, check_dh_params, check_prime, check_ranges, fingerprint,
}

module _ (big : Big) where
  -- Some number with this fingerprint is a safe prime, as far as the test of primes tells.
  pub record IsSafe (mark : Bytes) : Type 0 where
    pub prime : ℕ
    pub marked : fingerprint big prime ≡ mark
    pub tested : big.probably_prime prime ≡ true
    pub safe : big.probably_prime ((prime - 1) / 2) ≡ true

  -- Every fingerprint in the cache is one of a number that passed the test.
  abbrev pub IsSound : List Bytes → Type 0
  IsSound cache = (mark : Bytes) → member mark cache ≡ true → IsSafe mark

  pub record IsChecked (g dh_prime g_a : ℕ) : Type 0 where
    pub generator : (2 ≤ g) × (g ≤ 7)
    pub size : big.bit_len dh_prime ≡ 2048
    pub half : (1 < g_a) × (g_a < dh_prime - 1)
    pub safe : IsSafe (fingerprint big dh_prime)

  check_ranges-bounds :
      (g dh_prime g_a : ℕ) (u : Unit {0})
      → check_ranges big g dh_prime g_a ≡ ok u
      → ((2 ≤ g) × (g ≤ 7)) × (big.bit_len dh_prime ≡ 2048) × ((1 < g_a) × (g_a < dh_prime - 1))
  unfolding check_ranges
  check_ranges-bounds g dh_prime g_a u e =
      let (a, e1) = past_guard (ltb g 2 || ltb 7 g) (bad_generator g) _ u e in
      let (b, e2) =
        past_guard (not (big.bit_len dh_prime == 2048)) (bad_prime_size (big.bit_len dh_prime)) _ u
          e1 in
      let c = reject-ok (leb g_a 1 || leb (dh_prime - 1) g_a) bad_g_a u e2 in
      (ground (arith, a), ground (arith, b), ground (arith, c))

  check_prime-IsSafe :
      (p : ℕ) (u : Unit {0}) → check_prime big p ≡ ok u → IsSafe (fingerprint big p)
  unfolding check_prime
  check_prime-IsSafe p u e =
      let (a, e1) = past_guard (not (big.probably_prime p)) not_prime _ u e in
      let b = reject-ok (not (big.probably_prime ((p - 1) / 2))) not_safe_prime u e1 in
      record { prime = p; marked = refl; tested = ground (arith, a); safe = ground (arith, b) }

  IsSound-push :
      (mark : Bytes) (cache : List Bytes) → IsSafe mark → IsSound cache → IsSound (mark ∷ cache)
  unfolding member
  IsSound-push mark cache good sound m h = elim (Bool-cases (equal m mark)) [
    | inl same ↦ subst IsSafe (sym ((equal_iff m mark).0 same)) good
    | inr other ↦ sound m (ground (arith, h, other))
  ]

  -- With a sound cache, the parameters that are accepted have a generator from 2 to 7, a prime of
  -- 2048 bits and a half within the range, and a number with the prime's fingerprint has passed the
  -- tests of primes, also where the cache answers. The cache is sound afterwards, whatever the
  -- result was.
  pub check_dh_params-IsSound :
      (g dh_prime g_a : ℕ) (cache : List Bytes)
      → IsSound cache
      → IsSound (check_dh_params big g dh_prime g_a cache).1
        × ((check_dh_params big g dh_prime g_a cache).0 ≡ ok tt → IsChecked g dh_prime g_a)
  unfolding check_dh_params
  check_dh_params-IsSound g dh_prime g_a cache sound =
      let mark = fingerprint big dh_prime in
      elim (Result-cases (check_ranges big g dh_prime g_a)) [
        | inr (x, bad) ↦ rw (check_dh_params, bad) (sound, λ e. absurd (err-ne-ok e))
        | inl (u, fine) ↦
            let (a, b, c) = check_ranges-bounds g dh_prime g_a u fine in
            let checked : IsSafe mark → IsChecked g dh_prime g_a =
              λ good. record { generator = a; size = b; half = c; safe = good } in
            elim (Bool-cases (member mark cache)) [
              | inl held ↦ rw (check_dh_params, fine, held) (sound, λ e. checked (sound mark held))
              | inr fresh ↦ elim (Result-cases (check_prime big dh_prime)) [
                | inr (x, bad) ↦
                    rw (check_dh_params, fine, fresh, bad) (sound, λ e. absurd (err-ne-ok e))
                | inl (v, passed) ↦
                    let good = check_prime-IsSafe dh_prime v passed in
                    rw (check_dh_params, fine, fresh, passed)
                      (IsSound-push mark cache good sound, λ e. checked good)
              ]
            ]
      ]
