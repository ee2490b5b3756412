-- ===== src/Mtproto/Factorize/Divisor.antt =====
-- What `brent` gives divides its argument, and what `factorize` gives are two factors.
use Prim.Native.Nat.{◌∣◌}
use native.Mathlib.Bridge.{le_prop}
use mathlib.Core.Logic.{dif_pos, dif_neg}
use mathlib.Core.WellFounded.{Acc}
use native.Mathlib.Decide.{dec_lt}
use native.Mathlib.Nat.{dvd_refl, dvd-zero, dvd-mod_iff, one-dvd}
use mtproto_checker.Common.{
  Bool-cases, arith, inl, inr, leb, lt_wf, ltb, min, of_some, some, suc, zero, ℕ, ◌%◌, ◌*◌, ◌+◌,
  ◌-◌, ◌/◌, ◌<◌, ◌==◌, ◌^◌, ◌≡◌, ◌≤◌,
}
use mtproto_checker.Mtproto.Factorize.{
  Rng, Walk, batch, brent, brent_budget, diff, finish, first_walk, gcd, gcd_loop, gcd_shrinks, hunt,
  multiply, next, retry, round, search,
}

gcd_loop-dvd : (a b : ℕ) (w : Acc ◌<◌ b) → (gcd_loop a b w ∣ a) × (gcd_loop a b w ∣ b)
unfolding gcd_loop
gcd_loop-dvd a b (Acc.intro _ smaller) = elim (dec_lt 0 b) [
  | yes p ↦
      let (d, e) = gcd_loop-dvd b (a % b) (smaller (a % b) (gcd_shrinks a b p)) in
      rw (dif_pos (dec_lt 0 b) (λ _ _. le_prop _ _) p) ((dvd-mod_iff _ d).0 e, d)
  | no p ↦
      let e : b ≡ 0 = omega arith in rw (dif_neg (dec_lt 0 b) p) (dvd_refl a, rw e (dvd-zero a))
]

-- `gcd` gives a common divisor.
pub gcd-dvd : (a b : ℕ) → (gcd a b ∣ a) × (gcd a b ∣ b)
unfolding gcd
gcd-dvd a b = gcd_loop-dvd a b (lt_wf.apply b)

module _ (n c : ℕ) where
  hunt-dvd : (rounds x left : ℕ) (w : Walk) → w.g ∣ n → (hunt n c rounds x left w).g ∣ n
  unfolding hunt
  hunt-dvd zero x left w h = h
  hunt-dvd (suc rounds) x left w h = elim (Bool-cases (w.g == 1)) [
    | inl more ↦
        rw (more, hunt)
          (hunt-dvd rounds x (left - 128) (batch n c x (min 128 left) w)
            (unfold batch in (gcd-dvd (multiply n c (min 128 left) x w.y w.q).1 n).1))
    | inr done ↦ rw (done, hunt) h
  ]

  retry-dvd : (fuel x ys steps g : ℕ) → retry n c fuel x ys steps ≡ some g → g ∣ n
  unfolding retry
  retry-dvd zero x ys steps g e = cc
  retry-dvd (suc fuel) x ys steps g e =
      let ys' = next ys c n in
      let d = (gcd-dvd (diff x ys') n).1 in
      elim (Bool-cases (ltb brent_budget steps)) [
        | inl over ↦ of_some (λ k. k ∣ n) (rw (over, retry) at e) (one-dvd n)
        | inr under ↦ elim (Bool-cases (gcd (diff x ys') n == 1)) [
          | inl again ↦ retry-dvd fuel x ys' (steps + 1) g (rw (under, again, retry) at e)
          | inr found ↦ of_some (λ k. k ∣ n) (rw (under, found, retry) at e) d
        ]
      ]

  finish-dvd : (x : ℕ) (w : Walk) (g : ℕ) → w.g ∣ n → finish n c x w ≡ some g → g ∣ n
  unfolding finish
  finish-dvd x w g h e = elim (Bool-cases (w.g == n)) [
    | inl all ↦ retry-dvd (brent_budget + 2) x w.ys w.steps g (rw (all, finish) at e)
    | inr some_part ↦ of_some (λ k. k ∣ n) (rw (some_part, finish) at e) h
  ]

  search-dvd : (fuel r x : ℕ) (w : Walk) (g : ℕ) → w.g ∣ n → search n c fuel r x w ≡ some g → g ∣ n
  unfolding search
  search-dvd zero r x w g h e = cc
  search-dvd (suc fuel) r x w g h e = elim (Bool-cases (w.g == 1)) [
    | inl one ↦ elim (Bool-cases (ltb brent_budget w.steps)) [
      | inl over ↦ of_some (λ k. k ∣ n) (rw (one, over, search) at e) (one-dvd n)
      | inr under ↦
          search-dvd fuel (r * 2 % 2 ^ 64) w.y (round n c r w) g
            (unfold round in (hunt-dvd ((r + 127) / 128) w.y r _ h)) (rw (one, under, search) at e)
    ]
    | inr found ↦ finish-dvd x w g h (rw (found, search) at e)
  ]

-- Whatever the generator gives, a number that `brent` returns divides `n`.
pub brent-dvd : (rng : Rng) (n seed g : ℕ) → brent rng n seed ≡ some g → g ∣ n
unfolding brent
brent-dvd rng n seed g e = elim (Bool-cases (leb n 3)) [
  | inl tiny ↦ of_some (λ k. k ∣ n) (rw (tiny, brent) at e) (dvd_refl n)
  | inr large ↦
      let (u, v) = rng seed n in
      search-dvd n (v % (n - 1) + 1) 22 1 0 (first_walk (u % (n - 1) + 1)) g (one-dvd n)
        (rw (large, brent) at e)
]

-- Two factors of `n`, both proper, the smaller one first.
pub record IsSplit (n : ℕ) (pair : ℕ × ℕ) : Type 0 where
  pub product : pair.0 * pair.1 ≡ n
  pub proper : 1 < pair.0
  pub ordered : pair.0 ≤ pair.1
  pub below : pair.1 < n
