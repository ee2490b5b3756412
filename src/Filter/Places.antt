-- ===== src/Filter/Places.antt =====
-- Where the results that the filter shows are.
use mtproto_checker.Common.{
  All, Bool, Bool-cases, List, Option, [], ap, arith, false, inl, inr, not, refl, true, ◌&&◌, ◌++◌,
  ◌||◌, ◌∷◌, ◌≡◌, ◌⊎◌,
}
use mtproto_checker.Filter.{
  Info, Spec, given, in_asns, in_countries, keep_results, needs_geo, results, skips_place,
}

-- The country and the network are among those asked for, if any are; a result with no place has none.
abbrev pub IsPlaced : Spec → Option Info → Type 0
IsPlaced s place =
    ((s.countries ≡ []) ⊎ (in_countries s.countries place ≡ true))
    × ((s.asns ≡ []) ⊎ (in_asns s.asns place ≡ true))

asked_false :
    {A : Type 0} (list : List A) (found : Bool)
    → (given list && not found) ≡ false
    → (list ≡ []) ⊎ (found ≡ true)
asked_false [] found h = inl refl
asked_false (x ∷ xs) found h = inr (ground arith)

given_false : {A : Type 0} (list : List A) → given list ≡ false → list ≡ []
given_false [] h = refl
given_false (x ∷ xs) h = absurd (ground arith)

skips_place-IsPlaced :
    (s : Spec) (place : Option Info) → skips_place s place ≡ false → IsPlaced s place
unfolding skips_place
skips_place-IsPlaced s place h = (
  asked_false s.countries (in_countries s.countries place) (ground arith),
  asked_false s.asns (in_asns s.asns place) (ground arith),
)

module _ {R : Type 0} (geo : R → Option Info) where
  keep_results-IsPlaced :
      (s : Spec) (all : List R) → All (λ r. IsPlaced s (geo r)) (keep_results geo s all)
  unfolding keep_results
  keep_results-IsPlaced s [] = tt
  keep_results-IsPlaced s (r ∷ all) = elim (Bool-cases (skips_place s (geo r))) [
    | inl e ↦ rw e (keep_results-IsPlaced s all)
    | inr e ↦ rw e (skips_place-IsPlaced s (geo r) e, keep_results-IsPlaced s all)
  ]

  All-IsPlaced :
      (s : Spec) (all : List R) → s.countries ≡ [] → s.asns ≡ [] → All (λ r. IsPlaced s (geo r)) all
  All-IsPlaced s [] c a = tt
  All-IsPlaced s (r ∷ all) c a = ((inl c, inl a), All-IsPlaced s all c a)

  -- Every result that is kept is in a country and in a network that were asked for, where any were.
  pub results-IsPlaced :
      (s : Spec) (all : List R) → All (λ r. IsPlaced s (geo r)) (results geo s all)
  unfolding results needs_geo
  results-IsPlaced s all = elim (Bool-cases (given s.countries || given s.asns)) [
    | inl e ↦ rw e (keep_results-IsPlaced s all)
    | inr e ↦ rw e (
        All-IsPlaced s all (given_false s.countries (ground arith))
          (given_false s.asns (ground arith)))
  ]

  IsPlaced-skips_place :
      (s : Spec) (place : Option Info) → IsPlaced s place → skips_place s place ≡ false
  unfolding skips_place
  IsPlaced-skips_place s place (inl c, inl a) = rw (c, a) refl
  IsPlaced-skips_place s place (inl c, inr a) = rw (c, a) (ground arith)
  IsPlaced-skips_place s place (inr c, inl a) = rw (c, a) (ground arith)
  IsPlaced-skips_place s place (inr c, inr a) = rw (c, a) (ground arith)

  keep_results-append :
      (s : Spec) (front back : List R)
      → keep_results geo s (front ++ back) ≡ keep_results geo s front ++ keep_results geo s back
  unfolding keep_results
  keep_results-append s [] back = refl
  keep_results-append s (r ∷ front) back = elim (Bool-cases (skips_place s (geo r))) [
    | inl e ↦ rw e (keep_results-append s front back)
    | inr e ↦ rw e (ap (◌∷◌ r) (keep_results-append s front back))
  ]

  keep_results-placed :
      (s : Spec) (back : List R) (r : R)
      → IsPlaced s (geo r)
      → keep_results geo s (r ∷ back) ≡ r ∷ keep_results geo s back
  unfolding keep_results
  keep_results-placed s back r h = rw (IsPlaced-skips_place s (geo r) h) refl

  -- A result that is placed as asked is kept, where it stood: between what is kept of the results
  -- before it and of those behind it.
  pub results-placed :
      (s : Spec) (front back : List R) (r : R)
      → IsPlaced s (geo r)
      → results geo s (front ++ (r ∷ back)) ≡ results geo s front ++ (r ∷ results geo s back)
  unfolding results
  results-placed s front back r h = elim (Bool-cases (needs_geo s)) [
    | inl e ↦ rw (e, keep_results-append s front (r ∷ back), keep_results-placed s back r h) refl
    | inr e ↦ rw e refl
  ]
