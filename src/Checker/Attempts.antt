-- ===== src/Checker/Attempts.antt =====
-- The options after `Defaults`, the pauses, and what the loop of attempts leaves.
use mtproto_checker.Proxy.Errors
use mtproto_checker.Common.{
  Bool, Bool-cases, Bytes, Option, Option-cases, Result, arith, err, false, if◌then◌else◌, inl, inr,
  leb, ltb, none, ok, refl, some, suc, true, zero, ℕ, ◌*◌, ◌+◌, ◌/◌, ◌<◌, ◌==◌, ◌^◌, ◌||◌, ◌↔◌, ◌≡◌,
  ◌≢◌, ◌≤◌,
}
use mtproto_checker.Common.Text.{negsuc, pos, ℤ}
use mtproto_checker.Proxy.Link.{Platform, Target}
use mtproto_checker.Checker.{
  Net, Options, ProbeError, Progress, Report, after_pause, after_probe, attempts_from, backoff,
  backoff_delay, check, defaults, keep_best, max_retry_delay, natural, or_default, start,
  status_invalid, status_live,
}

or_default_bounds : (z : ℤ) (d : ℕ) → 1 ≤ d → 1 ≤ or_default z d
unfolding or_default
or_default_bounds (pos zero) d h = h
or_default_bounds (pos (suc n)) d h = omega arith
or_default_bounds (negsuc n) d h = h

or_default-pos : (n d : ℕ) → 1 ≤ n → or_default (pos n) d ≡ n
unfolding or_default
or_default-pos zero d h = absurd (omega arith)
or_default-pos (suc n) d h = refl

abbrev capped : ℕ → ℕ → ℕ
capped a b = if ltb a b then a else b

capped-capped : (a b : ℕ) → capped a (capped a b) ≡ capped a b
capped-capped a b = ground arith

-- `Defaults` changes nothing that it has set.
pub defaults-defaults : (o : Options) → defaults (defaults o) ≡ defaults o
unfolding defaults
defaults-defaults o =
    let attempts = or_default_bounds o.attempts 2 (omega arith) in
    let wanted = or_default_bounds o.min_successes 1 (omega arith) in
    rw
      (
        or_default-pos (or_default o.timeout (10 * 10 ^ 9)) (10 * 10 ^ 9)
            (or_default_bounds o.timeout _ (omega arith)),
        or_default-pos (or_default o.concurrency 16) 16
            (or_default_bounds o.concurrency 16 (omega arith)),
        or_default-pos (or_default o.attempts 2) 2 attempts,
        or_default-pos (or_default o.retry_delay (250 * 10 ^ 6)) (250 * 10 ^ 6)
            (or_default_bounds o.retry_delay _ (omega arith)),
        or_default-pos (capped (or_default o.attempts 2) (or_default o.min_successes 1)) 1
            (ground arith),
        capped-capped (or_default o.attempts 2) (or_default o.min_successes 1),
      )
      refl

-- After `Defaults`, at least one success is asked for, and at most as many as there are attempts.
pub defaults_bounds :
    (o : Options)
    → (1 ≤ natural (defaults o).min_successes)
      × (natural (defaults o).min_successes ≤ natural (defaults o).attempts)
unfolding defaults
defaults_bounds o = ground (
  arith,
  or_default_bounds o.attempts 2 (omega arith),
  or_default_bounds o.min_successes 1 (omega arith),
)

backoff_delay_bounds :
    (base attempt : ℕ)
    → (1 ≤ backoff_delay base attempt) × (backoff_delay base attempt ≤ max_retry_delay)
unfolding backoff_delay
backoff_delay_bounds base attempt = ground arith

-- Whatever the base and the attempt, a pause is not empty and is at most three seconds, with a
-- generator that keeps below its bound.
pub backoff_bounds :
    (random : ℕ → ℕ) (base attempt : ℕ)
    → ((n : ℕ) → 1 ≤ n → random n < n)
    → (1 ≤ backoff random base attempt) × (backoff random base attempt ≤ 3 * 10 ^ 9)
unfolding backoff
backoff_bounds random base attempt h =
    omega (arith, backoff_delay_bounds base attempt, h (backoff_delay base attempt / 2 + 1))

-- What is known of the loop's state: no more successes than attempts, no more attempts than were
-- allowed, and an outcome as soon as there is a success.
pub record IsSound {Outcome : Type 0} (wanted most : ℕ) (p : Progress Outcome) : Type 0 where
  pub tried_most : p.tried ≤ most
  pub successes_tried : p.successes ≤ p.tried
  pub successes_wanted : p.successes ≤ wanted
  pub best_found : (p.found ≡ none) → (p.best ≡ 0) × (p.successes ≡ 0)

module _ {W Outcome : Type 0} (net : Net W Outcome) (wanted : ℕ) (target : Target) where
  keep_best-IsSound :
      (most : ℕ) (p : Progress Outcome) (outcome : Outcome) (elapsed : ℕ)
      → IsSound wanted most p
      → p.successes < p.tried
      → p.successes < wanted
      → IsSound wanted most (keep_best (record p { successes = suc p.successes }) outcome elapsed)
  unfolding keep_best
  keep_best-IsSound most p outcome elapsed i h w =
      elim (Bool-cases (p.best == 0 || ltb elapsed p.best)) [
        | inl e ↦ rw e (record {
          tried_most = i.tried_most;
          successes_tried = h;
          successes_wanted = w;
          best_found = λ n. absurd (ground arith);
        })
        | inr e ↦ rw e (record {
          tried_most = i.tried_most;
          successes_tried = h;
          successes_wanted = w;
          best_found = λ n. absurd (ground (arith, i.best_found n));
        })
      ]

  keep_best-tried :
      (p : Progress Outcome) (outcome : Outcome) (elapsed : ℕ)
      → ((keep_best p outcome elapsed).tried ≡ p.tried)
        × ((keep_best p outcome elapsed).successes ≡ p.successes)
  unfolding keep_best
  keep_best-tried p outcome elapsed = elim (Bool-cases (p.best == 0 || ltb elapsed p.best)) [
    | inl e ↦ rw e (refl, refl)
    | inr e ↦ rw e (refl, refl)
  ]

  set_error-IsSound :
      (most : ℕ) (p : Progress Outcome) (e : Option Bytes)
      → IsSound wanted most p
      → IsSound wanted most (record p { last_err = e })
  set_error-IsSound most p e i = record {
    tried_most = i.tried_most;
    successes_tried = i.successes_tried;
    successes_wanted = i.successes_wanted;
    best_found = i.best_found;
  }

  -- What the loop's next round keeps.
  abbrev Keeps : ℕ → ℕ → (Progress Outcome → W → Progress Outcome) → Type 0
  Keeps most attempt again =
      (p : Progress Outcome) (w : W)
      → IsSound wanted most p
      → p.tried < attempt
      → p.successes < wanted
      → IsSound wanted most (again p w)

  after_probe-IsSound :
      (most attempt : ℕ) (again : Progress Outcome → W → Progress Outcome) (p : Progress Outcome)
      (r : (Result ProbeError Outcome × ℕ) × W)
      → Keeps most (suc attempt) again
      → IsSound wanted most p
      → p.tried ≡ attempt
      → p.successes < p.tried
      → p.successes < wanted
      → IsSound wanted most (after_probe net wanted target again p r)
  unfolding after_probe
  after_probe-IsSound most attempt again p ((err e, elapsed), w) k i t h l =
      let failed = set_error-IsSound most p (some e.text) i in
      elim (Bool-cases e.is_dial) [
        | inl d ↦ rw d failed
        | inr d ↦ rw d (k (record p { last_err = some e.text }) w failed (omega (arith, t)) l)
      ]
  after_probe-IsSound most attempt again p ((ok outcome, elapsed), w) k i t h l =
      let counted : Progress Outcome =
        keep_best (record p { successes = suc p.successes }) outcome elapsed in
      let sound = keep_best-IsSound most p outcome elapsed i h l in
      let (same, more) =
        keep_best-tried (record p { successes = suc p.successes }) outcome elapsed in
      elim (Bool-cases (leb wanted counted.successes)) [
        | inl e ↦ rw e sound
        | inr e ↦ rw e (k counted w sound (omega (arith, t, same)) (ground arith))
      ]

  after_pause-IsSound :
      (most attempt : ℕ) (again : Progress Outcome → W → Progress Outcome) (p : Progress Outcome)
      (slept : Bool × W)
      → Keeps most (suc attempt) again
      → IsSound wanted most p
      → p.tried < attempt
      → attempt ≤ most
      → p.successes < wanted
      → IsSound wanted most (after_pause net wanted target again attempt p slept)
  unfolding after_pause
  after_pause-IsSound most attempt again p (false, w) k i t b l = i
  after_pause-IsSound most attempt again p (true, w) k i t b l =
      elim (Option-cases (net.ctx_err w)) [
        | inl e ↦
            rw (e, after_pause)
              (after_probe-IsSound most attempt again (record p { tried = attempt })
                (net.probe target w) k
                (record {
                  tried_most = b;
                  successes_tried = omega (arith, i.successes_tried);
                  successes_wanted = i.successes_wanted;
                  best_found = i.best_found;
                })
                refl (omega (arith, i.successes_tried)) l)
        | inr (x, e) ↦ rw (e, after_pause) (set_error-IsSound most p (some x) i)
      ]

  attempts_from-IsSound :
      (n most attempt : ℕ)
      → attempt + n ≤ suc most
      → Keeps most attempt (attempts_from net wanted target n attempt)
  unfolding attempts_from
  attempts_from-IsSound zero most attempt b p w i t l = i
  attempts_from-IsSound (suc n) most attempt b p w i t l =
      after_pause-IsSound most attempt (attempts_from net wanted target n (suc attempt)) p
        (if ltb 1 attempt then net.sleep_backoff attempt w else (true, w))
        (attempts_from-IsSound n most (suc attempt) (omega arith)) i t (omega arith) l

  -- However the network answers, the loop makes at most `most` attempts, counts no more successes
  -- than attempts and than were asked for, and has an outcome as soon as it has a success.
  pub attempts_from_lem :
      (most : ℕ) (w : W)
      → 1 ≤ wanted
      → IsSound wanted most (attempts_from net wanted target most 1 start w)
  attempts_from_lem most w h =
      attempts_from-IsSound most most 1 (omega arith) start w
        (record {
          tried_most = omega arith;
          successes_tried = omega arith;
          successes_wanted = omega arith;
          best_found = λ n. (refl, refl);
        })
        (omega arith) h

module _ {W Outcome : Type 0} (os : Platform) (net : Net W Outcome)
    (describe : Errors.Error → Bytes) where
  abbrev report : Bytes → Options → W → Report Outcome
  report = check os net describe

  -- What the status of a report says of the loop that it comes from.
  abbrev pub IsTrue : ℕ → Report Outcome → Type 0
  IsTrue wanted r =
      ((r.status ≡ status_live) ↔ (r.progress.successes ≡ wanted))
      × (r.status ≡ status_live → r.progress.found ≢ none)
      × (r.status ≢ status_invalid)
