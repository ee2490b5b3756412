-- ===== src/Mtproto/Factorize/Words.antt =====
-- The modular arithmetic on 64-bit words is exact.
use native.Mathlib.Decide.{dec_lt}
use native.Mathlib.Nat.{mul-add-mod_self_left, mod-eq-sub-mod, mod-eq_of_lt, div-add-mod}
use mtproto_checker.Common.{ap, arith, sym, ℕ, ◌%◌, ◌*◌, ◌+◌, ◌-◌, ◌/◌, ◌<◌, ◌^◌, ◌∙◌, ◌≡◌}
use mtproto_checker.Mtproto.Factorize.{addmod, mulmod}

-- For residues below a modulus of 64 bits `addmod` is addition modulo `n`: the carry out of the word
-- is taken into account.
pub addmod_lem : (a b n : ℕ) → a < n → b < n → n < 2 ^ 64 → addmod a b n ≡ (a + b) % n
unfolding addmod
addmod_lem a b n ha hb hn = elim (dec_lt (a + b) n) [
  | yes small ↦ ground (arith, mod-eq_of_lt small)
  | no large ↦
      let over : a + b - n < n = omega arith in
      ground (arith, mod-eq-sub-mod {n = a + b} {m = n} (omega arith), mod-eq_of_lt over)
]

-- The product in two words, reduced in two steps, is the product modulo `n`.
pub mulmod_lem : (a b n : ℕ) → mulmod a b n ≡ a * b % n
unfolding mulmod
mulmod_lem a b n =
    let hi = a * b / 2 ^ 64 in
    let low = hi % n * 2 ^ 64 + a * b % 2 ^ 64 in
    let whole : n * (hi / n * 2 ^ 64) + low ≡ a * b = omega (arith, div-add-mod hi n) in
    sym (mul-add-mod_self_left n (hi / n * 2 ^ 64) low) ∙ ap (λ k. k % n) whole
