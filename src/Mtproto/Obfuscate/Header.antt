-- ===== src/Mtproto/Obfuscate/Header.antt =====
-- Which draw becomes the header, and what the header on the wire avoids.
use mtproto_checker.Common.{
  All, Bool-cases, Bytes, List, Option, [], arith, false, inl, inr, length, map, none, of_ok, ok,
  refl, some, take, true, ◌++◌, ◌∷◌, ◌≡◌, ◌≤◌,
}
use mtproto_checker.Mtproto.Obfuscate.{draw_header, is_taken}

-- The loop ends with the first draw that no guard rejects, if crypto/rand does not fail before it.
pub draw_header-first :
    (rejected : List Bytes) (header : Bytes) (later : List (Option Bytes))
    → All (λ h. is_taken h ≡ true) rejected
    → is_taken header ≡ false
    → draw_header (map some rejected ++ (some header ∷ later)) ≡ ok header
unfolding draw_header
draw_header-first [] header later t h = rw h refl
draw_header-first (r ∷ rejected) header later (t, ts) h =
    rw t (draw_header-first rejected header later ts h)

pub draw_header-free :
    (draws : List (Option Bytes)) (header : Bytes)
    → draw_header draws ≡ ok header
    → is_taken header ≡ false
unfolding draw_header
draw_header-free [] header e = cc
draw_header-free (none ∷ draws) header e = cc
draw_header-free (some h ∷ draws) header e = elim (Bool-cases (is_taken h)) [
  | inl t ↦ draw_header-free draws header (rw (t, draw_header) at e)
  | inr t ↦ of_ok (λ x. is_taken x ≡ false) (rw (t, draw_header) at e) t
]

-- The guards read the first eight bytes only.
pub is_taken-take :
    (header tail : Bytes) → 8 ≤ length header → is_taken (take 56 header ++ tail) ≡ is_taken header
unfolding is_taken
is_taken-take (a ∷ b ∷ c ∷ d ∷ e ∷ f ∷ g ∷ i ∷ header) tail h = refl
is_taken-take _ tail h = absurd (omega arith)
