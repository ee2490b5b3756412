-- ===== src/Common/Xor.antt =====
-- `bit_xor`, which masks and block chaining undo by a second application.
use Prim.Native.Nat.{
  ℕ, zero, suc, ◌+◌, ◌*◌, ◌/◌, ◌%◌, ◌^◌, ◌≤◌, ◌<◌, bit_xor, digits, bit_xor-bitwise, differ,
}
use mathlib.Core.Path.{◌≡◌, refl, ap}
use native.Mathlib.Omega.{arith}
use native.Mathlib.Nat.{pow-suc}

abbrev xor_digits : ℕ → ℕ → ℕ → ℕ
xor_digits n a b = digits (λ b. b) differ n a b

xor_digits_fuel : (n m a b : ℕ) → a ≤ n → a ≤ m → xor_digits n a b ≡ xor_digits m a b
xor_digits_fuel zero zero a b p q = refl
xor_digits_fuel zero (suc m) zero b p q = refl
xor_digits_fuel zero (suc m) (suc a) b p q = absurd (omega arith)
xor_digits_fuel (suc n) zero zero b p q = refl
xor_digits_fuel (suc n) zero (suc a) b p q = absurd (omega arith)
xor_digits_fuel (suc n) (suc m) zero b p q = refl
xor_digits_fuel (suc n) (suc m) (suc a) b p q =
    omega (arith, xor_digits_fuel n m (suc a / 2) (b / 2) (omega arith) (omega arith))

differ_lem : (x y : ℕ) → x < 2 → y < 2 → differ x y ≡ (x + y) % 2
differ_lem zero y p q = omega arith
differ_lem (suc zero) zero p q = refl
differ_lem (suc zero) (suc zero) p q = refl
differ_lem (suc zero) (suc (suc y)) p q = absurd (omega arith)
differ_lem (suc (suc x)) y p q = absurd (omega arith)

zero-bit_xor : (b : ℕ) → bit_xor 0 b ≡ b
zero-bit_xor b = bit_xor-bitwise 0 b

pub bit_xor_step : (a b : ℕ) → bit_xor a b ≡ bit_xor (a / 2) (b / 2) * 2 + (a % 2 + b % 2) % 2
bit_xor_step zero b = omega (arith, zero-bit_xor b, zero-bit_xor (b / 2))
bit_xor_step (suc a) b = omega (
  arith,
  bit_xor-bitwise (suc a) b,
  bit_xor-bitwise (suc a / 2) (b / 2),
  xor_digits_fuel a (suc a / 2) (suc a / 2) (b / 2) (omega arith) (omega arith),
  differ_lem (suc a % 2) (b % 2) (omega arith) (omega arith),
)

bit_xor_self_fuel : (n b : ℕ) → b ≤ n → bit_xor b b ≡ 0
bit_xor_self_fuel n zero h = zero-bit_xor 0
bit_xor_self_fuel zero (suc b) h = absurd (omega arith)
bit_xor_self_fuel (suc n) (suc b) h =
    omega (arith, bit_xor_step (suc b) (suc b), bit_xor_self_fuel n (suc b / 2) (omega arith))

xor_twice_fuel : (n a b : ℕ) → a ≤ n → bit_xor (bit_xor a b) b ≡ a
xor_twice_fuel n zero b h =
    omega (arith, ap (λ k. bit_xor k b) (zero-bit_xor b), bit_xor_self_fuel b b (omega arith))
xor_twice_fuel zero (suc a) b h = absurd (omega arith)
xor_twice_fuel (suc n) (suc a) b h =
    let x = bit_xor (suc a) b in
    let half : x / 2 ≡ bit_xor (suc a / 2) (b / 2) = omega (arith, bit_xor_step (suc a) b) in
    omega (
      arith,
      bit_xor_step (suc a) b,
      bit_xor_step x b,
      ap (λ k. bit_xor k (b / 2)) half,
      xor_twice_fuel n (suc a / 2) (b / 2) (omega arith),
    )

-- Masking twice by the same number gives the number back.
pub bit_xor-bit_xor : (a b : ℕ) → bit_xor (bit_xor a b) b ≡ a
bit_xor-bit_xor a b = xor_twice_fuel a a b (omega arith)

xor-lt_fuel : (k a b : ℕ) → a < 2 ^ k → b < 2 ^ k → bit_xor a b < 2 ^ k
xor-lt_fuel zero a b p q =
    omega (arith, ap (λ k. bit_xor k b) (let e : a ≡ 0 = omega arith in e), zero-bit_xor b)
xor-lt_fuel (suc k) a b p q = omega (
  arith,
  pow-suc 2 k,
  bit_xor_step a b,
  xor-lt_fuel k (a / 2) (b / 2) (omega (arith, pow-suc 2 k)) (omega (arith, pow-suc 2 k)),
)

-- Two bytes give a byte.
pub bit_xor-byte : (a b : ℕ) → a < 256 → b < 256 → bit_xor a b < 256
bit_xor-byte a b p q = xor-lt_fuel 8 a b p q
