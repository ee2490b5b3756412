-- ===== src/Common/Lists.antt =====
-- Lists measured and cut by native numbers, under the library's names.
use Prim.Native.Nat.{ℕ, zero, suc, ◌+◌, ◌-◌, ◌≤◌, min}
use mathlib.Core.Path.{◌≡◌, refl, ap, sym, ◌∙◌}
use mathlib.Core.List.{List, [], ◌∷◌, ◌++◌, reverse, reverse-append}
use mathlib.Core.Option.{Option, none, some}
use native.Mathlib.Omega.{arith}

module _ {ℓ} {A : Type ℓ} where
  abbrev pub length : List A → ℕ
  length [] = 0
  length (x ∷ xs) = suc (length xs)

  abbrev pub get_elem? : List A → ℕ → Option A
  get_elem? [] i = none
  get_elem? (x ∷ xs) zero = some x
  get_elem? (x ∷ xs) (suc i) = get_elem? xs i

  abbrev pub get_or : List A → ℕ → A → A
  get_or [] i d = d
  get_or (x ∷ xs) zero d = x
  get_or (x ∷ xs) (suc i) d = get_or xs i d

  abbrev pub take : ℕ → List A → List A
  take zero xs = []
  take (suc n) [] = []
  take (suc n) (x ∷ xs) = x ∷ take n xs

  abbrev pub drop : ℕ → List A → List A
  drop zero xs = xs
  drop (suc n) [] = []
  drop (suc n) (x ∷ xs) = drop n xs

  abbrev pub replicate : ℕ → A → List A
  replicate zero a = []
  replicate (suc n) a = a ∷ replicate n a

  abbrev pub All {κ} : (A → Type κ) → List A → Type κ
  All P [] = Unit {κ}
  All P (x ∷ xs) = P x × All P xs

module _ {ℓ} {A : Type ℓ} where
  -- `xs[a:b]`, where the code has made sure that b ≤ len(xs).
  abbrev pub slice : ℕ → ℕ → List A → List A
  slice a b xs = take (b - a) (drop a xs)

  pub length-append : (xs ys : List A) → length (xs ++ ys) ≡ length xs + length ys
  length-append [] ys = omega arith
  length-append (x ∷ xs) ys = omega (arith, length-append xs ys)

  pub length-take : (n : ℕ) (xs : List A) → length (take n xs) ≡ min n (length xs)
  length-take zero xs = omega arith
  length-take (suc n) [] = omega arith
  length-take (suc n) (x ∷ xs) = omega (arith, length-take n xs)

  pub length-drop : (n : ℕ) (xs : List A) → length (drop n xs) ≡ length xs - n
  length-drop zero xs = omega arith
  length-drop (suc n) [] = omega arith
  length-drop (suc n) (x ∷ xs) = omega (arith, length-drop n xs)

  pub length-replicate : (n : ℕ) (a : A) → length (replicate n a) ≡ n
  length-replicate zero a = refl
  length-replicate (suc n) a = ap suc (length-replicate n a)

  pub take-append : (xs ys : List A) (n : ℕ) → n ≡ length xs → take n (xs ++ ys) ≡ xs
  take-append [] ys zero h = refl
  take-append [] ys (suc n) h = absurd (omega arith)
  take-append (x ∷ xs) ys zero h = absurd (omega arith)
  take-append (x ∷ xs) ys (suc n) h = ap (◌∷◌ x) (take-append xs ys n (omega arith))

  pub drop-append : (xs ys : List A) (n : ℕ) → n ≡ length xs → drop n (xs ++ ys) ≡ ys
  drop-append [] ys zero h = refl
  drop-append [] ys (suc n) h = absurd (omega arith)
  drop-append (x ∷ xs) ys zero h = absurd (omega arith)
  drop-append (x ∷ xs) ys (suc n) h = drop-append xs ys n (omega arith)

  pub take_all : (xs : List A) (n : ℕ) → length xs ≤ n → take n xs ≡ xs
  take_all [] zero h = refl
  take_all [] (suc n) h = refl
  take_all (x ∷ xs) zero h = absurd (omega arith)
  take_all (x ∷ xs) (suc n) h = ap (◌∷◌ x) (take_all xs n (omega arith))

  pub drop_all : (xs : List A) (n : ℕ) → length xs ≤ n → drop n xs ≡ []
  drop_all [] zero h = refl
  drop_all [] (suc n) h = refl
  drop_all (x ∷ xs) zero h = absurd (omega arith)
  drop_all (x ∷ xs) (suc n) h = drop_all xs n (omega arith)

  pub take-append-drop : (n : ℕ) (xs : List A) → take n xs ++ drop n xs ≡ xs
  take-append-drop zero xs = refl
  take-append-drop (suc n) [] = refl
  take-append-drop (suc n) (x ∷ xs) = ap (◌∷◌ x) (take-append-drop n xs)

  pub drop-drop : (n m : ℕ) (xs : List A) → drop n (drop m xs) ≡ drop (m + n) xs
  drop-drop n zero xs = let e : n ≡ 0 + n = omega arith in ap (λ k. drop k xs) e
  drop-drop zero (suc m) [] = sym (drop_all [] (suc m + 0) (omega arith))
  drop-drop (suc n) (suc m) [] = sym (drop_all [] (suc m + suc n) (omega arith))
  drop-drop n (suc m) (x ∷ xs) =
      let e : suc (m + n) ≡ suc m + n = omega arith in
      drop-drop n m xs ∙ ap (λ k. drop k (x ∷ xs)) e

  pub take-append_le : (n : ℕ) (xs ys : List A) → n ≤ length xs → take n (xs ++ ys) ≡ take n xs
  take-append_le zero xs ys h = refl
  take-append_le (suc n) [] ys h = absurd (omega arith)
  take-append_le (suc n) (x ∷ xs) ys h = ap (◌∷◌ x) (take-append_le n xs ys (omega arith))

  pub drop-append_le :
      (n : ℕ) (xs ys : List A) → n ≤ length xs → drop n (xs ++ ys) ≡ drop n xs ++ ys
  drop-append_le zero xs ys h = refl
  drop-append_le (suc n) [] ys h = absurd (omega arith)
  drop-append_le (suc n) (x ∷ xs) ys h = drop-append_le n xs ys (omega arith)

  pub drop-append_ge :
      (n : ℕ) (xs ys : List A) → length xs ≤ n → drop n (xs ++ ys) ≡ drop (n - length xs) ys
  drop-append_ge n [] ys h = let e : n ≡ n - 0 = omega arith in ap (λ k. drop k ys) e
  drop-append_ge zero (x ∷ xs) ys h = absurd (omega arith)
  drop-append_ge (suc n) (x ∷ xs) ys h =
      let e : n - length xs ≡ suc n - suc (length xs) = omega arith in
      drop-append_ge n xs ys (omega arith) ∙ ap (λ k. drop k ys) e

  pub take-take : (m n : ℕ) (xs : List A) → m ≤ n → take m (take n xs) ≡ take m xs
  take-take zero n xs h = refl
  take-take (suc m) zero xs h = absurd (omega arith)
  take-take (suc m) (suc n) [] h = refl
  take-take (suc m) (suc n) (x ∷ xs) h = ap (◌∷◌ x) (take-take m n xs (omega arith))

  pub drop-take : (m n : ℕ) (xs : List A) → m ≤ n → drop m (take n xs) ≡ take (n - m) (drop m xs)
  drop-take zero n xs h = let e : n ≡ n - 0 = omega arith in ap (λ k. take k xs) e
  drop-take (suc m) zero xs h = absurd (omega arith)
  drop-take (suc m) (suc n) [] h = sym (take_all [] (suc n - suc m) (omega arith))
  drop-take (suc m) (suc n) (x ∷ xs) h =
      let e : n - m ≡ suc n - suc m = omega arith in
      drop-take m n xs (omega arith) ∙ ap (λ k. take k (drop m xs)) e

  pub slice-slice :
      (c d a b : ℕ) (xs : List A)
      → c ≤ d
      → a + d ≤ b
      → slice c d (slice a b xs) ≡ slice (a + c) (a + d) xs
  slice-slice c d a b xs h k =
      let e : d - c ≡ a + d - (a + c) = omega arith in
      ap (take (d - c)) (drop-take c (b - a) (drop a xs) (omega arith))
      ∙ take-take (d - c) (b - a - c) (drop c (drop a xs)) (omega arith)
      ∙ ap (take (d - c)) (drop-drop c a xs)
      ∙ ap (λ n. take n (drop (a + c) xs)) e

  -- A slice of the front, and one of the back.
  pub slice-append_le :
      (a b : ℕ) (xs ys : List A) → a ≤ b → b ≤ length xs → slice a b (xs ++ ys) ≡ slice a b xs
  slice-append_le a b xs ys l h =
      ap (take (b - a)) (drop-append_le a xs ys (omega arith))
      ∙ take-append_le (b - a) (drop a xs) ys (omega (arith, length-drop a xs))

  pub slice-append_ge :
      (a b : ℕ) (xs ys : List A)
      → length xs ≤ a
      → slice a b (xs ++ ys) ≡ slice (a - length xs) (b - length xs) ys
  slice-append_ge a b xs ys h =
      let e : b - a ≡ b - length xs - (a - length xs) = omega arith in
      ap (take (b - a)) (drop-append_ge a xs ys h) ∙ ap (λ k. take k (drop (a - length xs) ys)) e

  pub length-slice : (a b : ℕ) (xs : List A) → b ≤ length xs → length (slice a b xs) ≡ b - a
  length-slice a b xs h = omega (arith, length-take (b - a) (drop a xs), length-drop a xs)

  -- A slice between a front of `a` and what follows, and one up to the end.
  pub slice-append :
      (a b : ℕ) (front mid back : List A)
      → a ≡ length front
      → b ≡ a + length mid
      → slice a b (front ++ (mid ++ back)) ≡ mid
  slice-append a b front mid back p q =
      ap (take (b - a)) (drop-append front (mid ++ back) a p)
      ∙ take-append mid back (b - a) (omega (arith, q))

  pub slice-append_end :
      (a b : ℕ) (front mid : List A)
      → a ≡ length front
      → b ≡ a + length mid
      → slice a b (front ++ mid) ≡ mid
  slice-append_end a b front mid p q =
      ap (take (b - a)) (drop-append front mid a p) ∙ take_all mid (b - a) (omega (arith, q))

  pub length-reverse : (xs : List A) → length (reverse xs) ≡ length xs
  length-reverse [] = refl
  length-reverse (x ∷ xs) =
      ap length (reverse-append (x ∷ []) xs)
      ∙ length-append (reverse xs) (x ∷ [])
      ∙ omega (arith, length-reverse xs)

  module _ {κ} (P : A → Type κ) where
    pub All-append : (xs ys : List A) → All P xs → All P ys → All P (xs ++ ys)
    All-append [] ys _ hy = hy
    All-append (x ∷ xs) ys (px, hx) hy = (px, All-append xs ys hx hy)

    pub All-take : (n : ℕ) (xs : List A) → All P xs → All P (take n xs)
    All-take zero xs h = tt
    All-take (suc n) [] h = tt
    All-take (suc n) (x ∷ xs) (p, h) = (p, All-take n xs h)

    pub All-drop : (n : ℕ) (xs : List A) → All P xs → All P (drop n xs)
    All-drop zero xs h = h
    All-drop (suc n) [] h = tt
    All-drop (suc n) (x ∷ xs) (p, h) = All-drop n xs h
