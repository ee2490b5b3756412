-- ===== src/Common/Sort.antt =====
-- `sort.SliceStable` and `sort.Slice`, as insertions in order: an element goes in front of the first
-- one that is not less than it.
use mathlib.Core.List.{Perm}
use mathlib.Core.List.Perm
use mtproto_checker.Common.{
  All, Bool, Bool-cases, List, [], arith, false, if◌then◌else◌, inl, inr, refl, true, ◌∙◌, ◌∷◌, ◌≡◌,
}

module _ {A : Type 0} (less : A → A → Bool) where
  unfoldable pub insert : A → List A → List A
  insert x [] = x ∷ []
  insert x (y ∷ l) = let rest = insert x l in if less y x then y ∷ rest else x ∷ (y ∷ l)

  unfoldable pub sort_stable : List A → List A
  sort_stable [] = []
  sort_stable (x ∷ l) = insert x (sort_stable l)

  -- No element is less than one in front of it.
  abbrev pub IsOrdered : List A → Type 0
  IsOrdered [] = Unit {0}
  IsOrdered (x ∷ l) = All (λ y. less y x ≡ false) l × IsOrdered l

  pub insert-Perm : (x : A) (l : List A) → Perm (insert x l) (x ∷ l)
  unfolding insert
  insert-Perm x [] = Perm.rfl
  insert-Perm x (y ∷ l) = elim (Bool-cases (less y x)) [
    | inl first ↦ rw first (Perm.trans (Perm.cons y (insert-Perm x l)) (Perm.swap x y l))
    | inr stop ↦ rw stop Perm.rfl
  ]

  pub sort_stable-Perm : (l : List A) → Perm (sort_stable l) l
  unfolding sort_stable
  sort_stable-Perm [] = Perm.rfl
  sort_stable-Perm (x ∷ l) =
      Perm.trans (insert-Perm x (sort_stable l)) (Perm.cons x (sort_stable-Perm l))

  All-insert : (P : A → Type 0) (x : A) (l : List A) → P x → All P l → All P (insert x l)
  unfolding insert
  All-insert P x [] px h = (px, tt)
  All-insert P x (y ∷ l) px (py, h) = elim (Bool-cases (less y x)) [
    | inl first ↦ rw first (py, All-insert P x l px h)
    | inr stop ↦ rw stop (px, (py, h))
  ]

  -- What `less` promises, as a strict weak order.
  module _ (asymmetric : (x y : A) → less x y ≡ true → less y x ≡ false)
      (transitive : (x y z : A) → less y x ≡ false → less z y ≡ false → less z x ≡ false) where
    All-above :
        (x y : A) (l : List A)
        → less y x ≡ false
        → All (λ z. less z y ≡ false) l
        → All (λ z. less z x ≡ false) l
    All-above x y [] h all = tt
    All-above x y (z ∷ l) h (hz, all) = (transitive x y z h hz, All-above x y l h all)

    insert-IsOrdered : (x : A) (l : List A) → IsOrdered l → IsOrdered (insert x l)
    unfolding insert
    insert-IsOrdered x [] h = (tt, tt)
    insert-IsOrdered x (y ∷ l) (above, h) = elim (Bool-cases (less y x)) [
      | inl first ↦ rw first (
        All-insert (λ z. less z y ≡ false) x l (asymmetric y x first) above,
        insert-IsOrdered x l h,
      )
      | inr stop ↦ rw stop ((stop, All-above x y l stop above), (above, h))
    ]

    pub sort_stable-IsOrdered : (l : List A) → IsOrdered (sort_stable l)
    unfolding sort_stable
    sort_stable-IsOrdered [] = tt
    sort_stable-IsOrdered (x ∷ l) = insert-IsOrdered x (sort_stable l) (sort_stable-IsOrdered l)

-- Each element may stand in front of every one behind it.
abbrev pub IsRanked : {A : Type 0} → (A → A → Type 0) → List A → Type 0
IsRanked may_precede [] = Unit {0}
IsRanked may_precede (a ∷ l) = All (may_precede a) l × IsRanked may_precede l

-- An order of the comparison, read as a relation.
module _ {A : Type 0} (less : A → A → Bool) (may_precede : A → A → Type 0)
    (read_as : (a b : A) → less b a ≡ false → may_precede a b) where
  All-read_as : (a : A) (l : List A) → All (λ b. less b a ≡ false) l → All (may_precede a) l
  All-read_as a [] h = tt
  All-read_as a (b ∷ l) (first, h) = (read_as a b first, All-read_as a l h)

  pub IsOrdered-IsRanked : (l : List A) → IsOrdered less l → IsRanked may_precede l
  IsOrdered-IsRanked [] h = tt
  IsOrdered-IsRanked (a ∷ l) (above, h) = (All-read_as a l above, IsOrdered-IsRanked l h)

-- The elements that a test picks, in order.
unfoldable pub filter : {A : Type 0} → (A → Bool) → List A → List A
filter keep [] = []
filter keep (x ∷ l) = let rest = filter keep l in if keep x then x ∷ rest else rest

-- A sort is stable: elements of which none is less than another keep their order.
module _ {A : Type 0} (less : A → A → Bool) (keep : A → Bool)
    (alike : (x y : A) → keep x ≡ true → keep y ≡ true → less y x ≡ false) where
  filter-insert : (x : A) (l : List A) → filter keep (insert less x l) ≡ filter keep (x ∷ l)
  unfolding insert filter
  filter-insert x [] = refl
  filter-insert x (y ∷ l) = ground (arith, filter-insert x l, alike x y)

  pub filter-sort_stable : (l : List A) → filter keep (sort_stable less l) ≡ filter keep l
  unfolding sort_stable filter
  filter-sort_stable [] = refl
  filter-sort_stable (x ∷ l) =
      filter-insert x (sort_stable less l) ∙ ground (arith, filter-sort_stable l)
