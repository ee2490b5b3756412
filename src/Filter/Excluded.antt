-- ===== src/Filter/Excluded.antt =====
-- What the filter keeps.
use mtproto_checker.Common.{
  Bool, Bool-cases, Bytes, List, Result-cases, [], ap, arith, equal, equal_iff, equal_refl, false,
  inl, inr, not, ok, refl, sym, true, ◌&&◌, ◌||◌, ◌↔◌, ◌∙◌, ◌∷◌, ◌≡◌, ◌⊎◌,
}
use mtproto_checker.Common.Text.{codes, has_prefix, is_empty, pos, to_lower, trim_space}
use mtproto_checker.Common.Keys.{member, member-append}
use mtproto_checker.Proxy.Link.{Platform, Target, key, parse}
use mtproto_checker.Filter.{
  Spec, contains_int, drops, given, keep_links, line_exclusions, links, load_exclusions, mode_of,
  skips,
}

-- What a specification asks of a target.
abbrev pub IsWanted : Platform → Spec → Target → Type 0
IsWanted os s t =
    (member (key os t) s.exclude ≡ false)
    × (member (to_lower t.host) s.exclude ≡ false)
    × ((s.ports ≡ []) ⊎ (contains_int s.ports (pos t.port) ≡ true))
    × ((s.modes ≡ []) ⊎ (member (mode_of t) s.modes ≡ true))

abbrev test_of : {A : Type 0} → List A → Bool → Bool
test_of list found = given list && not found

test_of-false :
    {A : Type 0} (list : List A) (found : Bool)
    → test_of list found ≡ false
    → (list ≡ []) ⊎ (found ≡ true)
test_of-false [] found h = inl refl
test_of-false (x ∷ xs) found h = inr (ground arith)

of-test_of :
    {A : Type 0} (list : List A) (found : Bool)
    → (list ≡ []) ⊎ (found ≡ true)
    → test_of list found ≡ false
of-test_of [] found h = refl
of-test_of (x ∷ xs) found (inl e) = absurd (ground arith)
of-test_of (x ∷ xs) found (inr e) = ap not e

given-empty : {A : Type 0} (list : List A) → given list ≡ false → list ≡ []
given-empty [] h = refl
given-empty (x ∷ xs) h = absurd (ground arith)

member-empty : (k : Bytes) (list : List Bytes) → given list ≡ false → member k list ≡ false
unfolding member
member-empty k [] h = refl
member-empty k (x ∷ xs) h = absurd (ground arith)

module _ (os : Platform) where
  skips-IsWanted : (s : Spec) (t : Target) → skips os s t ≡ false → IsWanted os s t
  unfolding skips
  skips-IsWanted s t h = (
    ground arith,
    ground arith,
    test_of-false s.ports _ (ground arith),
    test_of-false s.modes _ (ground arith),
  )

  IsWanted-skips : (s : Spec) (t : Target) → IsWanted os s t → skips os s t ≡ false
  unfolding skips
  IsWanted-skips s t (k, h, p, m) = rw (k, h, of-test_of s.ports _ p, of-test_of s.modes _ m) refl

  keep_links-member :
      (s : Spec) (link : Bytes) (all : List Bytes)
      → member link (keep_links os s all) ≡ (member link all && not (drops os s link))
  unfolding keep_links member
  keep_links-member s link [] = refl
  keep_links-member s link (x ∷ all) =
      let same : equal link x ≡ true → drops os s link ≡ drops os s x =
        λ e. ap (drops os s) ((equal_iff link x).0 e) in
      elim (Bool-cases (drops os s x)) [
        | inl e ↦ rw (e, keep_links-member s link all) (ground (arith, same))
        | inr e ↦ rw (e, keep_links-member s link all) (ground (arith, same))
      ]

  drops-nothing :
      (s : Spec) (link : Bytes)
      → given s.modes ≡ false
      → given s.ports ≡ false
      → given s.exclude ≡ false
      → drops os s link ≡ false
  unfolding drops
  drops-nothing s link m p x = elim (Result-cases (parse os link)) [
    | inl (t, e) ↦
        rw (e, drops)
          (IsWanted-skips s t (
            member-empty (key os t) s.exclude x,
            member-empty (to_lower t.host) s.exclude x,
            inl (given-empty s.ports p),
            inl (given-empty s.modes m),
          ))
    | inr (x, e) ↦ rw (e, drops) refl
  ]

  -- The early return of `Links` is the loop's result where nothing is asked of a target.
  pub links-member :
      (s : Spec) (link : Bytes) (all : List Bytes)
      → member link (links os s all) ≡ (member link all && not (drops os s link))
  unfolding links
  links-member s link all =
      elim (Bool-cases (not (given s.modes) && not (given s.ports) && not (given s.exclude))) [
        | inl e ↦
            rw e (
              rw (drops-nothing s link (ground arith) (ground arith) (ground arith)) (ground arith))
        | inr e ↦ rw e (keep_links-member s link all)
      ]

  -- A link that names a target is kept exactly if it was given and its target is wanted: neither
  -- its key nor its host excluded, its port and its mode among those asked for, if any are.
  pub links-IsWanted :
      (s : Spec) (link : Bytes) (all : List Bytes) (t : Target)
      → parse os link ≡ ok t
      → (member link (links os s all) ≡ true) ↔ ((member link all ≡ true) × IsWanted os s t)
  unfolding drops skips
  links-IsWanted s link all t e =
      let d : drops os s link ≡ skips os s t = rw (e, drops) refl in
      rw (links-member s link all, d)
        (
          λ h. (ground arith, skips-IsWanted s t (ground arith)),
          λ (m, w). ground (arith, m, IsWanted-skips s t w),
        )

  parse-is_empty : (text : Bytes) (t : Target) → parse os text ≡ ok t → is_empty text ≡ false
  unfolding parse mtproto_checker.Common.Text.trim_left mtproto_checker.Common.Text.trim_right
  parse-is_empty [] t e = ground arith
  parse-is_empty (c ∷ text) t e = refl

  load_exclusions-member :
      (k line : Bytes) (lines : List Bytes) (t : Target)
      → member line lines ≡ true
      → has_prefix (trim_space line) (codes "#") ≡ false
      → parse os (trim_space line) ≡ ok t
      → member k (key os t ∷ to_lower t.host ∷ []) ≡ true
      → member k (load_exclusions os lines) ≡ true
  unfolding load_exclusions line_exclusions member
  load_exclusions-member k line [] t m c e h = absurd (ground arith)
  load_exclusions-member k line (l ∷ lines) t m c e h = elim (Bool-cases (equal line l)) [
    | inl same ↦
        let g : trim_space l ≡ trim_space line = ap trim_space (sym ((equal_iff line l).0 same)) in
        rw (g, parse-is_empty (trim_space line) t e, c)
          (member-append k (line_exclusions os (trim_space line)) _
            ∙ rw (e, line_exclusions) (ground (arith, h)))
    | inr other ↦
        let rest = load_exclusions-member k line lines t (ground arith) c e h in
        elim (Bool-cases (is_empty (trim_space l) || has_prefix (trim_space l) (codes "#"))) [
          | inl skipped ↦ rw skipped rest
          | inr kept ↦ rw kept (
              member-append k (line_exclusions os (trim_space l)) (load_exclusions os lines)
              ∙ ground (arith, rest))
        ]
  ]

  -- A line of the exclusions that names a target, and is no comment, excludes every link to a
  -- target of the same key or of the same host.
  pub load_exclusions-links :
      (line : Bytes) (lines all : List Bytes) (s : Spec) (link : Bytes) (t u : Target)
      → member line lines ≡ true
      → has_prefix (trim_space line) (codes "#") ≡ false
      → parse os (trim_space line) ≡ ok t
      → parse os link ≡ ok u
      → (key os u ≡ key os t) ⊎ (to_lower u.host ≡ to_lower t.host)
      → member link (links os (record s { exclude = load_exclusions os lines }) all) ≡ false
  unfolding member
  load_exclusions-links line lines all s link t u m c e f o =
      let bare : Spec = record s { exclude = load_exclusions os lines } in
      elim (Bool-cases (member link (links os bare all))) [
        | inl kept ↦
            let (given_, wanted) = (links-IsWanted bare link all u f).0 kept in
            absurd (elim o [
              | inl same ↦
                  let found =
                    load_exclusions-member (key os u) line lines t m c e
                      (rw same (ground (arith, equal_refl (key os t)))) in
                  ground arith
              | inr same ↦
                  let found =
                    load_exclusions-member (to_lower u.host) line lines t m c e
                      (rw same (ground (arith, equal_refl (to_lower t.host)))) in
                  ground arith
            ])
        | inr dropped ↦ dropped
      ]
