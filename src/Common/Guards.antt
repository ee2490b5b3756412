-- ===== src/Common/Guards.antt =====
-- What a guard that let the code go on has shown.
use mtproto_checker.Common.{
  Bool, Bytes, Result, arith, equal, equal_iff, err, false, not, ok, refl, reject, true, ◌>>=◌, ◌≡◌,
  ◌≢◌,
}

pub reject-ok : {E : Type 0} (b : Bool) (e : E) (u : Unit {0}) → reject b e ≡ ok u → b ≡ false
reject-ok true e u h = cc
reject-ok false e u h = refl

pub reject-equal :
    {E : Type 0} (x y : Bytes) (e : E) (u : Unit {0}) → reject (not (equal x y)) e ≡ ok u → x ≡ y
reject-equal x y e u h = (equal_iff x y).0 (ground (arith, reject-ok (not (equal x y)) e u h))

-- A chain whose first step is a guard has passed it.
pub past_guard :
    {E A : Type 0} (b : Bool) (e : E) (next : Unit {0} → Result E A) (a : A)
    → (reject b e >>= next) ≡ ok a
    → (b ≡ false) × (next tt ≡ ok a)
past_guard true e next a h = cc
past_guard false e next a h = (refl, h)

pub past_equal :
    {E A : Type 0} (x y : Bytes) (e : E) (next : Unit {0} → Result E A) (a : A)
    → (reject (not (equal x y)) e >>= next) ≡ ok a
    → (x ≡ y) × (next tt ≡ ok a)
past_equal x y e next a h =
    let (passed, go) = past_guard (not (equal x y)) e next a h in
    ((equal_iff x y).0 (ground (arith, passed)), go)

pub err-ne-ok : {E A : Type 0} {e : E} {a : A} → ◌≢◌ {A = Result E A} (err e) (ok a)
err-ne-ok h = cc
