-- ===== src/Common/Keys.antt =====
-- A Go `map[string]bool` as the keys that it holds, and the tests of its members.
use mtproto_checker.Common.{
  Bool, Bytes, List, [], ap, arith, equal, equal_iff, false, not, refl, true, ◌&&◌, ◌++◌, ◌||◌, ◌∷◌,
  ◌≡◌,
}

-- `m[key]`
unfoldable pub member : Bytes → List Bytes → Bool
member key [] = false
member key (k ∷ keys) = equal key k || member key keys

-- No key stands twice.
unfoldable pub distinct : List Bytes → Bool
unfolding member
distinct [] = true
distinct (k ∷ keys) = not (member k keys) && distinct keys

pub equal-member :
    (key k : Bytes) (keys : List Bytes) → equal key k ≡ true → member key keys ≡ member k keys
equal-member key k keys e = ap (λ x. member x keys) ((equal_iff key k).0 e)

pub member-append :
    (key : Bytes) (xs ys : List Bytes) → member key (xs ++ ys) ≡ (member key xs || member key ys)
unfolding member
member-append key [] ys = refl
member-append key (x ∷ xs) ys = ground (arith, member-append key xs ys)
