-- ===== src/Mtproto/Factorize.antt =====
-- internal/mtproto/factorize.go: Brent's variant of Pollard's rho, on uint64.
pub mod Words
pub mod Divisor
pub mod Total
mod Tests
use mathlib.Core.Logic.{dite}
use mathlib.Core.WellFounded.{Acc}
use native.Mathlib.Decide.{dec_lt}
use mtproto_checker.Common.{
  Option, arith, false, if◌then◌else◌, leb, lt_wf, ltb, min, none, not, some, suc, true, zero, ℕ,
  ◌%◌, ◌&&◌, ◌*◌, ◌+◌, ◌-◌, ◌/◌, ◌<◌, ◌==◌, ◌^◌, ◌||◌,
}

-- `sum := a + b; if sum < a || sum >= n { sum -= n }`, all on 64 bits.
unfoldable pub addmod : ℕ → ℕ → ℕ → ℕ
addmod a b n =
    let sum = (a + b) % 2 ^ 64 in
    if ltb sum a || leb n sum then (sum + 2 ^ 64 - n) % 2 ^ 64 else sum

-- bits.Mul64 gives the product in two words, and bits.Div64 divides hi:lo.
unfoldable pub mulmod : ℕ → ℕ → ℕ → ℕ
mulmod a b n = let hi = a * b / 2 ^ 64 in let lo = a * b % 2 ^ 64 in (hi % n * 2 ^ 64 + lo) % n

unfoldable pub diff : ℕ → ℕ → ℕ
diff a b = if ltb b a then a - b else b - a

unfoldable pub next : ℕ → ℕ → ℕ → ℕ
unfolding addmod mulmod
next x c n = addmod (mulmod x x n) c n

pub gcd_shrinks : (a b : ℕ) → 0 < b → a % b < b
gcd_shrinks a b h = omega arith

pub gcd_loop : (a b : ℕ) → Acc ◌<◌ b → ℕ
gcd_loop a b (Acc.intro _ smaller) =
    dite (dec_lt 0 b) (λ h. gcd_loop b (a % b) (smaller (a % b) (gcd_shrinks a b h))) (λ _. a)

unfoldable pub gcd : ℕ → ℕ → ℕ
unfolding gcd_loop gcd_shrinks lt_wf dec_lt
gcd a b = gcd_loop a b (lt_wf.apply b)

abbrev pub brent_budget : ℕ
brent_budget = 2 ^ 20

-- The variables that the loops of `brent` carry; `x` and `r` are arguments beside them.
pub record Walk : Type 0 where
  pub y : ℕ
  pub q : ℕ
  pub ys : ℕ
  pub g : ℕ
  pub steps : ℕ

module _ (n c : ℕ) where
  -- `for range r { y = next(y, c, n) }`
  unfoldable pub leap : ℕ → ℕ → ℕ
  leap zero y = y
  leap (suc k) y = leap k (next y c n)

  -- `for range min(m, r-k) { y = next(y, c, n); q = mulmod(q, diff(x, y), n) }`
  unfoldable pub multiply : ℕ → ℕ → ℕ → ℕ → ℕ × ℕ
  multiply zero x y q = (y, q)
  multiply (suc k) x y q = let y' = next y c n in multiply k x y' (mulmod q (diff x y') n)

  -- The body of the loop over `k`, which makes `count` steps.
  unfoldable pub batch : ℕ → ℕ → Walk → Walk
  batch x count w =
      let (y, q) = multiply count x w.y w.q in
      record { y = y; q = q; ys = w.y; g = gcd q n; steps = w.steps + count }

  -- `for k := uint64(0); k < r && g == 1; k += m`, with `left` for r-k and m = 128. It makes a
  -- round for each 128 of `left`, the last one shorter; `rounds` counts them.
  unfoldable pub hunt : ℕ → ℕ → ℕ → Walk → Walk
  hunt zero x left w = w
  hunt (suc rounds) x left w = elim (w.g == 1) [
    | true ↦ hunt rounds x (left - 128) (batch x (min 128 left) w)
    | false ↦ w
  ]

  -- One round of the outer loop, with `x` set to `y`.
  unfoldable pub round : ℕ → Walk → Walk
  round r w = hunt ((r + 127) / 128) w.y r (record w { y = leap r w.y; steps = w.steps + r })

  -- The loop behind `if g == n`; `none` marks fuel that has run out.
  unfoldable pub retry : ℕ → ℕ → ℕ → ℕ → Option ℕ
  retry zero x ys steps = none
  retry (suc fuel) x ys steps =
      let ys' = next ys c n in
      let g = gcd (diff x ys') n in
      let more = retry fuel x ys' (steps + 1) in
      if ltb brent_budget steps then some 1 else if g == 1 then more else some g

  -- What follows the outer loop. Every step counts towards the budget, so this fuel is enough.
  unfoldable pub finish : ℕ → Walk → Option ℕ
  finish x w = if w.g == n then retry (brent_budget + 2) x w.ys w.steps else some w.g

  -- `for g == 1`, with `x` and `r`.
  unfoldable pub search : ℕ → ℕ → ℕ → Walk → Option ℕ
  search zero r x w = none
  search (suc fuel) r x w =
      let more = search fuel (r * 2 % 2 ^ 64) w.y (round r w) in
      if not (w.g == 1) then finish x w else if ltb brent_budget w.steps then some 1 else more

abbrev pub first_walk : ℕ → Walk
first_walk y = record { y = y; q = 1; ys = 0; g = 1; steps = 0 }

-- The first two outputs of the generator that is seeded with `seed` and `n` (math/rand/v2).
abbrev pub Rng : Type 0
Rng = ℕ → ℕ → ℕ × ℕ

-- A round of the outer loop makes at least one step, and 22 rounds of 1, 2, 4, … steps pass the
-- budget.
unfoldable pub brent : Rng → ℕ → ℕ → Option ℕ
brent rng n seed =
    let (u, v) = rng seed n in
    if leb n 3 then some n else search n (v % (n - 1) + 1) 22 1 0 (first_walk (u % (n - 1) + 1))

-- The attempts left, from number `attempt` on. The result of Go's function is the inner option.
unfoldable pub attempts : Rng → ℕ → ℕ → ℕ → Option (Option (ℕ × ℕ))
attempts rng zero attempt pq = some none
attempts rng (suc left) attempt pq =
    let rest = attempts rng left (attempt + 1) pq in
    elim (brent rng pq (attempt + 1)) [
      | none ↦ none
      | some factor ↦
          let p = factor in
          let q = pq / factor in
          if ltb 1 factor && ltb factor pq
          then some (some (if ltb q p then (q, p) else (p, q)))
          else rest
    ]

unfoldable pub factorize : Rng → ℕ → Option (Option (ℕ × ℕ))
factorize rng pq = if pq % 2 == 0 then some (some (2, pq / 2)) else attempts rng 8 0 pq
