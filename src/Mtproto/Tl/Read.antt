-- ===== src/Mtproto/Tl/Read.antt =====
-- A read that leaves no error behind had none before, and was within the bytes.
use mtproto_checker.Common.{
  Bool-cases, Option-cases, ap, arith, inl, inr, length, length-slice, ltb, none, refl, slice, some,
  ℕ, ◌+◌, ◌∙◌, ◌≡◌, ◌≢◌, ◌≤◌,
}
use mtproto_checker.Mtproto.Tl.Cursor.{Cursor, read}

pub record IsRead (n : ℕ) (c : Cursor) : Type 0 where
  pub no_error : c.error ≡ none
  pub in_range : c.i + n ≤ length c.b
  pub result : read n c ≡ (slice c.i (c.i + n) c.b, record c { i = c.i + n })

pub some-ne-none : {A : Type 0} {x : A} → some x ≢ none
some-ne-none h = cc

pub read-IsRead : (n : ℕ) (c : Cursor) → (read n c).1.error ≡ none → IsRead n c
unfolding read
read-IsRead n c e = elim (Option-cases c.error) [
  | inl calm ↦ elim (Bool-cases (ltb (length c.b) (c.i + n))) [
    | inl short ↦ let wrong = rw (calm, short) at e in absurd (some-ne-none wrong)
    | inr fits ↦ record { no_error = calm; in_range = ground arith; result = rw (calm, fits) refl }
  ]
  | inr (x, bad) ↦ let wrong = rw (bad) at e in absurd (some-ne-none wrong)
]

-- No read changes the bytes, and none goes back.
pub read-keeps : (n : ℕ) (c : Cursor) → ((read n c).1.b ≡ c.b) × (c.i ≤ (read n c).1.i)
unfolding read
read-keeps n c = ground arith

pub length-read : (n : ℕ) (c : Cursor) → (read n c).1.error ≡ none → length (read n c).0 ≡ n
length-read n c e =
    let r = read-IsRead n c e in
    ap (λ k. length k.0) r.result ∙ omega (arith, length-slice c.i (c.i + n) c.b r.in_range)
