-- ===== src/Mtproto/Factorize/Total.antt =====
-- The loops of `brent` end within the fuel that the model gives them.
use native.Mathlib.Nat.{pow-suc}
use mtproto_checker.Common.{
  Bool-cases, Option-cases, ap, arith, inl, inr, leb, ltb, lt→ltb, min, none, suc, zero, ℕ, ◌%◌,
  ◌&&◌, ◌*◌, ◌+◌, ◌-◌, ◌/◌, ◌<◌, ◌==◌, ◌^◌, ◌≡◌, ◌≢◌, ◌≤◌,
}
use mtproto_checker.Mtproto.Factorize.{
  Rng, Walk, attempts, batch, brent, brent_budget, factorize, finish, first_walk, hunt, leap, next,
  retry, round, search,
}

module _ (n c : ℕ) where
  -- Each round of the second loop makes a step, and the budget stops it.
  retry-ne-none :
      (fuel x ys steps : ℕ)
      → brent_budget + 2 ≤ fuel + steps
      → 0 < fuel
      → retry n c fuel x ys steps ≢ none
  unfolding retry
  retry-ne-none zero x ys steps h p = absurd (omega arith)
  retry-ne-none (suc zero) x ys steps h p =
      rw (lt→ltb brent_budget steps (omega arith), retry) (λ e. cc)
  retry-ne-none (suc (suc fuel)) x ys steps h p =
      ground (arith, retry-ne-none (suc fuel) x (next ys c n) (steps + 1))

  finish-ne-none : (x : ℕ) (w : Walk) → finish n c x w ≢ none
  unfolding finish
  finish-ne-none x w = elim (Bool-cases (w.g == n)) [
    | inl all ↦
        rw (all, finish)
          (retry-ne-none (brent_budget + 2) x w.ys w.steps (omega arith) (omega arith))
    | inr part ↦ rw (part, finish) (λ e. cc)
  ]

  -- No batch takes a step back.
  hunt-steps : (rounds x left : ℕ) (w : Walk) → w.steps ≤ (hunt n c rounds x left w).steps
  unfolding hunt
  hunt-steps zero x left w = omega arith
  hunt-steps (suc rounds) x left w = elim (Bool-cases (w.g == 1)) [
    | inl more ↦
        let b = batch n c x (min 128 left) w in
        let up : w.steps ≤ b.steps = unfold batch in omega arith in
        rw (more, hunt) (omega (arith, up, hunt-steps rounds x (left - 128) b))
    | inr done ↦ rw (done, hunt) (omega arith)
  ]

  round-steps : (r : ℕ) (w : Walk) → w.steps + r ≤ (round n c r w).steps
  unfolding round
  round-steps r w =
      hunt-steps ((r + 127) / 128) w.y r (record w { y = leap n c r w.y; steps = w.steps + r })

  -- `r` doubles, and the steps made so far are at least `r - 1`.
  search-ne-none :
      (fuel r x : ℕ) (w : Walk)
      → r ≤ w.steps + 1
      → brent_budget * 2 ≤ r * 2 ^ fuel
      → search n c (suc fuel) r x w ≢ none
  unfolding search
  search-ne-none zero r x w grown enough = ground (arith, finish-ne-none x w)
  search-ne-none (suc fuel) r x w grown enough = elim (Bool-cases (w.g == 1)) [
    | inl one ↦ elim (Bool-cases (ltb brent_budget w.steps)) [
      | inl over ↦ rw (one, over, search) (λ e. cc)
      | inr under ↦
          let small : w.steps ≤ brent_budget = ground arith in
          let fits : r * 2 % 2 ^ 64 ≡ r * 2 = omega arith in
          let w' = round n c r w in
          let grown' : r * 2 ≤ w'.steps + 1 = omega (arith, round-steps r w) in
          let enough' : brent_budget * 2 ≤ r * 2 * 2 ^ fuel =
            omega (arith, ap (λ (t : ℕ). r * t) (pow-suc 2 fuel)) in
          rw (one, under, search, fits) (search-ne-none fuel (r * 2) w.y w' grown' enough')
    ]
    | inr found ↦ rw (found, search) (finish-ne-none x w)
  ]

-- `brent` returns for every argument, seed and generator.
pub brent-ne-none : (rng : Rng) (n seed : ℕ) → brent rng n seed ≢ none
unfolding brent
brent-ne-none rng n seed = elim (Bool-cases (leb n 3)) [
  | inl tiny ↦ rw (tiny, brent) (λ e. cc)
  | inr large ↦
      let (u, v) = rng seed n in
      rw (large, brent)
        (search-ne-none n (v % (n - 1) + 1) 21 1 0 (first_walk (u % (n - 1) + 1)) (omega arith)
          (omega arith))
]

attempts-ne-none : (rng : Rng) (left attempt n : ℕ) → attempts rng left attempt n ≢ none
unfolding attempts
attempts-ne-none rng zero attempt n = λ e. cc
attempts-ne-none rng (suc left) attempt n = elim (Option-cases (brent rng n (attempt + 1))) [
  | inl stuck ↦ absurd (brent-ne-none rng n (attempt + 1) stuck)
  | inr (f, found) ↦ elim (Bool-cases (ltb 1 f && ltb f n)) [
    | inl good ↦ rw (found, good, attempts) (λ e. cc)
    | inr bad ↦ rw (found, bad, attempts) (attempts-ne-none rng left (attempt + 1) n)
  ]
]

-- `factorize` returns for every number and generator: with two factors, or with its error.
pub factorize-ne-none : (rng : Rng) (n : ℕ) → factorize rng n ≢ none
unfolding factorize
factorize-ne-none rng n = elim (Bool-cases (n % 2 == 0)) [
  | inl even ↦ rw (even, factorize) (λ e. cc)
  | inr odd ↦ rw (odd, factorize) (attempts-ne-none rng 8 0 n)
]
