-- ===== src/Checker/Summaries.antt =====
-- The verdict on a proxy, the counts, and the key that a report shows.
use mathlib.Core.Path.{subst}
use mtproto_checker.Common.{
  ==_iff, All, Bool-cases, Bytes, IsByte, List, [], ap, arith, get_or, inl, inr, length, refl, some,
  suc, sym, zero, ℕ, ◌%◌, ◌+◌, ◌/◌, ◌<◌, ◌==◌, ◌∷◌, ◌≡◌,
}
use mtproto_checker.Common.Text.{hex_decode, hex_value}
use mtproto_checker.Checker.{
  Status, Summary, count_all, count_status, hex_digits, hex_string, status_dead, status_invalid,
  status_live, summarize,
}

count_all-total :
    (results : List Status) (s : Summary)
    → (count_all results s).live + (count_all results s).dead + (count_all results s).invalid
      ≡ s.live + s.dead + s.invalid + length results
unfolding count_all count_status
count_all-total [] s = omega arith
count_all-total (status_live ∷ results) s =
    omega (arith, count_all-total results (count_status status_live s))
count_all-total (status_dead ∷ results) s =
    omega (arith, count_all-total results (count_status status_dead s))
count_all-total (status_invalid ∷ results) s =
    omega (arith, count_all-total results (count_status status_invalid s))

count_all-kept : (results : List Status) (s : Summary) → (count_all results s).total ≡ s.total
unfolding count_all count_status
count_all-kept [] s = refl
count_all-kept (status_live ∷ results) s = count_all-kept results _
count_all-kept (status_dead ∷ results) s = count_all-kept results _
count_all-kept (status_invalid ∷ results) s = count_all-kept results _

-- A summary's three counts make up its total, which is the number of results.
pub summarize-total :
    (results : List Status)
    → ((summarize results).total ≡ length results)
      × ((summarize results).live + (summarize results).dead + (summarize results).invalid
          ≡ (summarize results).total)
unfolding summarize
summarize-total results =
    let s : Summary = record { total = length results; live = 0; dead = 0; invalid = 0 } in
    (count_all-kept results s, omega (arith, count_all-total results s, count_all-kept results s))

-- `P` at every number below `n`.
abbrev Each : (ℕ → Type 0) → ℕ → Type 0
Each P zero = Unit {0}
Each P (suc n) = P n × Each P n

each : (P : ℕ → Type 0) (n : ℕ) → Each P n → (d : ℕ) → d < n → P d
each P zero h d l = absurd (omega arith)
each P (suc n) (p, h) d l = elim (Bool-cases (d == n)) [
  | inl e ↦ subst P (sym ((==_iff d n).0 e)) p
  | inr e ↦ each P n h d (ground arith)
]

pub hex_digit-hex_value : (d : ℕ) → d < 16 → hex_value (get_or hex_digits d 0) ≡ some d
unfolding hex_value
hex_digit-hex_value d h =
    each (λ d. hex_value (get_or hex_digits d 0) ≡ some d) 16
      (
        refl,
        (
          refl,
          (
            refl,
            (
              refl,
              (
                refl,
                (
                  refl,
                  (
                    refl,
                    (refl, (refl, (refl, (refl, (refl, (refl, (refl, (refl, (refl, tt))))))))),
                  ),
                ),
              ),
            ),
          ),
        ),
      )
      d h

-- What a report shows of a key is read back as the key.
pub hex_decode-hex_string : (b : Bytes) → All IsByte b → hex_decode (hex_string b) ≡ some b
unfolding hex_decode hex_string
hex_decode-hex_string [] h = refl
hex_decode-hex_string (c ∷ b) (x, h) =
    rw
      (
        hex_digit-hex_value (c / 16) (omega arith),
        hex_digit-hex_value (c % 16) (omega arith),
        hex_decode-hex_string b h,
      )
      (ap (λ n. some (n ∷ b)) (omega arith))
