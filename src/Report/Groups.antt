-- ===== src/Report/Groups.antt =====
-- The groups of a breakdown: each label once, with the number of its rows and of its live ones.
use mtproto_checker.Common.{
  ltb, ◌⊎◌, ◌<◌, Bool, Bool-cases, Bytes, List, [], ap, arith, equal, equal_iff, false,
  if◌then◌else◌, inl, inr, refl, sym, true, ℕ, ◌&&◌, ◌+◌, ◌==◌, ◌∙◌, ◌∷◌, ◌≡◌, ◌≤◌,
}
use mtproto_checker.Common.Text.{is_empty}
use mtproto_checker.Common.Sort.{
  IsOrdered-IsRanked, IsRanked, insert, sort_stable, sort_stable-IsOrdered,
}
use mtproto_checker.Report.{Group, Row, count_in, fuller, group_by, live, tally_from}

-- The number of rows of a label that a test picks.
abbrev pub count_rows : (Row → Bytes) → Bytes → (Row → Bool) → List Row → ℕ
count_rows key l test [] = 0
count_rows key l test (r ∷ rows) =
    (if equal (key r) l && test r then 1 else 0) + count_rows key l test rows

-- The sum of a number of the groups of a label.
abbrev pub sum_of : Bytes → (Group → ℕ) → List Group → ℕ
sum_of l value [] = 0
sum_of l value (g ∷ groups) = (if equal g.label l then value g else 0) + sum_of l value groups

sum_of-insert :
    (l : Bytes) (value : Group → ℕ) (g : Group) (groups : List Group)
    → sum_of l value (insert fuller g groups) ≡ sum_of l value (g ∷ groups)
unfolding insert
sum_of-insert l value g [] = refl
sum_of-insert l value g (x ∷ groups) = ground (arith, sum_of-insert l value g groups)

sum_of-sort_stable :
    (l : Bytes) (value : Group → ℕ) (groups : List Group)
    → sum_of l value (sort_stable fuller groups) ≡ sum_of l value groups
unfolding sort_stable
sum_of-sort_stable l value [] = refl
sum_of-sort_stable l value (g ∷ groups) =
    ground (
      arith,
      sum_of-insert l value g (sort_stable fuller groups),
      sum_of-sort_stable l value groups,
    )

equal_join : (a b c : Bytes) → equal a c ≡ true → equal b c ≡ true → equal a b ≡ true
equal_join a b c h k = (equal_iff a b).1 ((equal_iff a c).0 h ∙ sym ((equal_iff b c).0 k))

equal_left : (a b c : Bytes) → equal a b ≡ true → equal a c ≡ equal b c
equal_left a b c h = ap (λ x. equal x c) ((equal_iff a b).0 h)

total-count_in :
    (l k : Bytes) (alive : Bool) (groups : List Group)
    → sum_of l (λ g. g.total) (count_in k alive groups)
      ≡ (if equal k l then 1 else 0) + sum_of l (λ g. g.total) groups
unfolding count_in
total-count_in l k alive [] = ground arith
total-count_in l k alive (g ∷ groups) = elim (Bool-cases (equal g.label k)) [
  | inl e ↦ ground (arith, e, equal_left g.label k l e)
  | inr e ↦ ground (arith, e, total-count_in l k alive groups)
]

living-count_in :
    (l k : Bytes) (alive : Bool) (groups : List Group)
    → sum_of l (λ g. g.living) (count_in k alive groups)
      ≡ (if equal k l && alive then 1 else 0) + sum_of l (λ g. g.living) groups
unfolding count_in
living-count_in l k alive [] = ground arith
living-count_in l k alive (g ∷ groups) = elim (Bool-cases (equal g.label k)) [
  | inl e ↦ ground (arith, e, equal_left g.label k l e)
  | inr e ↦ ground (arith, e, living-count_in l k alive groups)
]

-- A label that is there stays there once, and a new one is there once.
times-count_in :
    (l k : Bytes) (alive : Bool) (groups : List Group)
    → sum_of l (λ g. 1) (count_in k alive groups)
      ≡ (if equal k l && sum_of l (λ g. 1) groups == 0 then 1 else sum_of l (λ g. 1) groups)
unfolding count_in
times-count_in l k alive [] = ground arith
times-count_in l k alive (g ∷ groups) = elim (Bool-cases (equal g.label k)) [
  | inl e ↦ ground (arith, e, equal_left g.label k l e)
  | inr e ↦ ground (arith, e, equal_join g.label k l, times-count_in l k alive groups)
]

not_label : (k m : Bytes) → is_empty m ≡ false → is_empty k ≡ true → equal k m ≡ false
unfolding equal
not_label [] [] a b = ground (arith, a)
not_label [] (x ∷ m) a b = refl
not_label (x ∷ k) m a b = ground (arith, b)

tally_from-sums :
    (key : Row → Bytes) (l : Bytes) (groups : List Group) (rows : List Row)
    → is_empty l ≡ false
    → sum_of l (λ g. 1) groups ≤ 1
    → (sum_of l (λ g. g.total) (tally_from key groups rows)
        ≡ count_rows key l (λ r. true) rows + sum_of l (λ g. g.total) groups)
      × (sum_of l (λ g. g.living) (tally_from key groups rows)
          ≡ count_rows key l live rows + sum_of l (λ g. g.living) groups)
      × (sum_of l (λ g. 1) (tally_from key groups rows) ≤ 1)
unfolding tally_from
tally_from-sums key l groups [] n h = (omega arith, omega arith, h)
tally_from-sums key l groups (r ∷ rows) n h = elim (Bool-cases (is_empty (key r))) [
  | inl e ↦
      let other = not_label (key r) l n e in
      let (t, v, o) = tally_from-sums key l groups rows n h in
      rw e (ground (arith, other, t), ground (arith, other, v), o)
  | inr e ↦
      let (t, v, o) =
        tally_from-sums key l (count_in (key r) (live r) groups) rows n
          (ground (arith, h, times-count_in l (key r) (live r) groups)) in
      rw e (
        ground (arith, t, total-count_in l (key r) (live r) groups),
        ground (arith, v, living-count_in l (key r) (live r) groups),
        o,
      )
]

-- `g` may stand in front of `h`: it has more live rows, or as many and no fewer rows.
abbrev pub MayPrecede : Group → Group → Type 0
MayPrecede g h = (h.living < g.living) ⊎ ((h.living ≡ g.living) × (h.total ≤ g.total))

fuller-MayPrecede : (g h : Group) → fuller h g ≡ false → MayPrecede g h
unfolding fuller
fuller-MayPrecede g h e = elim (Bool-cases (ltb h.living g.living)) [
  | inl more ↦ inl (ground (arith, more))
  | inr no_more ↦ inr (ground (arith, e, no_more), ground (arith, e, no_more))
]

-- A breakdown has at most one group of a label; for each label but the empty one its groups count
-- the rows of the label and the live ones among them; and the groups with the most live rows, and
-- among those with as many the ones with the most rows, come first.
pub group_by_lem :
    (key : Row → Bytes) (rows : List Row)
    → ((l : Bytes)
        → is_empty l ≡ false
        → (sum_of l (λ g. g.total) (group_by key rows) ≡ count_rows key l (λ r. true) rows)
          × (sum_of l (λ g. g.living) (group_by key rows) ≡ count_rows key l live rows)
          × (sum_of l (λ g. 1) (group_by key rows) ≤ 1))
      × IsRanked MayPrecede (group_by key rows)
unfolding group_by fuller
group_by_lem key rows = (
  λ l n.
      let (t, v, o) = tally_from-sums key l [] rows n (omega arith) in
      (
        ground (arith, t, sum_of-sort_stable l (λ g. g.total) (tally_from key [] rows)),
        ground (arith, v, sum_of-sort_stable l (λ g. g.living) (tally_from key [] rows)),
        ground (arith, o, sum_of-sort_stable l (λ g. 1) (tally_from key [] rows)),
      ),
  IsOrdered-IsRanked fuller MayPrecede fuller-MayPrecede
      (sort_stable fuller (tally_from key [] rows))
      (sort_stable-IsOrdered fuller (λ x y h. ground (arith, h)) (λ x y z h k. ground (arith, h, k))
        (tally_from key [] rows)),
)
