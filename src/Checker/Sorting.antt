-- ===== src/Checker/Sorting.antt =====
-- `SortByLatency` of internal/checker/checker.go. A latency is a whole number of tenths of a
-- millisecond, to which the code rounds it.
use mathlib.Core.List.{Perm}
use mtproto_checker.Common.{
  Bool-cases, inl, inr, ◌≤◌, ◌⊎◌, Bool, List, arith, false, if◌then◌else◌, ltb, not, true, ℕ, ◌&&◌,
  ◌==◌, ◌≡◌,
}
use mtproto_checker.Common.Sort.{
  IsOrdered-IsRanked, IsRanked, filter, filter-sort_stable, sort_stable, sort_stable-IsOrdered,
  sort_stable-Perm,
}

module _ {A : Type 0} (live : A → Bool) (latency : A → ℕ) where
  -- The comparison of `sort.SliceStable`.
  unfoldable pub sooner : A → A → Bool
  sooner a b = if live a then (if live b then ltb (latency a) (latency b) else true) else false

  unfoldable pub sort_by_latency : List A → List A
  sort_by_latency = sort_stable sooner

  -- `a` may stand in front of `b`: `b` is not live, or both are and `a` is no slower.
  abbrev pub MayPrecede : A → A → Type 0
  MayPrecede a b = (live b ≡ false) ⊎ ((live a ≡ true) × (latency a ≤ latency b))

  sooner-MayPrecede : (a b : A) → sooner b a ≡ false → MayPrecede a b
  unfolding sooner
  sooner-MayPrecede a b h = elim (Bool-cases (live b)) [
    | inr dead ↦ inl dead
    | inl alive ↦ inr (ground (arith, h, alive))
  ]

  -- The results that are sorted are the ones that were given. Each one in front of another is live and
  -- no slower than it, or the other is not live; so the live ones come first, with the quickest of them
  -- at the front. The results that are not live keep their order, and so do the live ones of one
  -- latency.
  pub sort_by_latency_lem :
      (l : List A)
      → Perm (sort_by_latency l) l
        × IsRanked MayPrecede (sort_by_latency l)
        × (filter (λ a. not (live a)) (sort_by_latency l) ≡ filter (λ a. not (live a)) l)
        × ((n : ℕ)
            → filter (λ a. live a && latency a == n) (sort_by_latency l)
              ≡ filter (λ a. live a && latency a == n) l)
  unfolding sort_by_latency sooner
  sort_by_latency_lem l = (
    sort_stable-Perm sooner l,
    IsOrdered-IsRanked sooner MayPrecede sooner-MayPrecede (sort_stable sooner l) (
        sort_stable-IsOrdered sooner (λ x y h. ground (arith, h))
          (λ x y z h k. ground (arith, h, k)) l),
    filter-sort_stable sooner (λ a. not (live a)) (λ x y h k. ground (arith, h, k)) l,
    λ n.
        filter-sort_stable sooner (λ a. live a && latency a == n) (λ x y h k. ground (arith, h, k))
          l,
  )
