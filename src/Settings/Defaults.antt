-- ===== src/Settings/Defaults.antt =====
-- What the checker makes of the counts of flags that the guards accept.
use mathlib.Core.Path.{subst}
use mtproto_checker.Common.{
  Bool-cases, arith, false, inl, inr, ltb, ok, refl, suc, true, zero, ◌≡◌, ◌∙◌, ◌⊎◌, ap, sym,
}
use mtproto_checker.Common.Guards.{err-ne-ok}
use mtproto_checker.Common.Text.{negsuc, pos, ℤ}
use mtproto_checker.Checker.{defaults, or_default}
use mtproto_checker.Filter.{Spec}
use mtproto_checker.Settings.{Config, check_flags, exceeds, options_of, positive}

or_default-positive : (a : ℤ) → positive a ≡ true → pos (or_default a 2) ≡ a
unfolding or_default
or_default-positive (pos zero) h = absurd (ground (arith, h))
or_default-positive (pos (suc n)) h = refl
or_default-positive (negsuc n) h = absurd (ground (arith, h))

or_default-fits :
    (a m : ℤ)
    → positive a ≡ true
    → exceeds m a ≡ false
    → ltb (or_default a 2) (or_default m 1) ≡ false
unfolding or_default
or_default-fits (pos zero) m h k = absurd (ground (arith, h))
or_default-fits (negsuc n) m h k = absurd (ground (arith, h))
or_default-fits (pos (suc n)) (pos zero) h k = ground arith
or_default-fits (pos (suc n)) (pos (suc m)) h k = k
or_default-fits (pos (suc n)) (negsuc m) h k = ground arith

-- The number of successes that is asked for is what it was given as, where it is positive; any other is
-- one.
abbrev pub IsWanted : ℤ → ℤ → Type 0
IsWanted given wanted =
    ((positive given ≡ true) × (wanted ≡ given)) ⊎ ((positive given ≡ false) × (wanted ≡ pos 1))

or_default-IsWanted : (m : ℤ) → IsWanted m (pos (or_default m 1))
unfolding or_default
or_default-IsWanted (pos zero) = inr (refl, refl)
or_default-IsWanted (pos (suc n)) = inl (ground arith, refl)
or_default-IsWanted (negsuc n) = inr (refl, refl)

-- Of flags that the guards accept, the checker takes the number of attempts as it was given, and it is
-- positive; the number of successes it takes as it was given if that is positive, and as one if it is
-- not; and it asks for no more successes than it makes attempts.
pub check_flags-defaults :
    (cfg : Config) (spec : Spec)
    → check_flags cfg ≡ ok tt
    → ((defaults (options_of cfg spec).options).attempts ≡ cfg.attempts)
      × (positive cfg.attempts ≡ true)
      × IsWanted cfg.min_successes (defaults (options_of cfg spec).options).min_successes
      × (exceeds (defaults (options_of cfg spec).options).min_successes cfg.attempts ≡ false)
unfolding check_flags defaults options_of
check_flags-defaults cfg spec e = elim (Bool-cases (positive cfg.attempts)) [
  | inr few ↦ absurd (err-ne-ok (rw (check_flags, few) at e))
  | inl enough ↦ elim (Bool-cases (exceeds cfg.min_successes cfg.attempts)) [
    | inl many ↦ absurd (err-ne-ok (rw (check_flags, enough, many) at e))
    | inr fits ↦
        let same = or_default-positive cfg.attempts enough in
        let least = or_default-fits cfg.attempts cfg.min_successes enough fits in
        let kept : (defaults (options_of cfg spec).options).min_successes
            ≡ pos (or_default cfg.min_successes 1) =
          rw least refl in
        (
          same,
          enough,
          subst (IsWanted cfg.min_successes) (sym kept) (or_default-IsWanted cfg.min_successes),
          ap (λ k. exceeds k cfg.attempts) kept
              ∙ ap (λ k. exceeds (pos (or_default cfg.min_successes 1)) k) (sym same)
              ∙ least,
        )
  ]
]
