-- ===== src/Report/Best.antt =====
-- The best result is a live one that none of the others beats.
use mtproto_checker.Common.{
  All, Bool-cases, List, [], arith, false, inl, inr, none, refl, some, true, ◌∷◌, ◌≡◌, ◌⊎◌,
}
use mtproto_checker.Report.{Row, beats, best_from, best_of, live}

abbrev pub IsListed : Row → List Row → Type 0
IsListed b [] = ⊥
IsListed b (r ∷ rows) = (b ≡ r) ⊎ IsListed b rows

-- Not beaten by a live result.
abbrev pub IsUnbeaten : Row → Row → Type 0
IsUnbeaten best r = live r ≡ true → beats r best ≡ false

-- Read as: a row that does not beat the one does not beat the better other.
not_beaten : (a b c : Row) → beats a b ≡ false → beats b c ≡ false → beats a c ≡ false
unfolding beats
not_beaten a b c h k = ground (arith, h, k)

beats_self : (a : Row) → beats a a ≡ false
unfolding beats
beats_self a = ground arith

passed_on : (r b c : Row) → beats r b ≡ true → beats r c ≡ false → beats b c ≡ false
unfolding beats
passed_on r b c h k = ground (arith, h, k)

-- A live row of the list that no live row of the list beats.
pub record IsBest (rows : List Row) (best : Row) : Type 0 where
  pub alive : live best ≡ true
  pub listed : IsListed best rows
  pub unbeaten : All (IsUnbeaten best) rows

-- A row behind the head that changes nothing for the best one.
skip :
    (b0 r b : Row) (rows : List Row)
    → IsUnbeaten b r
    → IsBest (b0 ∷ rows) b
    → IsBest (b0 ∷ (r ∷ rows)) b
skip b0 r b rows h k = record {
  alive = k.alive;
  listed = elim k.listed [ inl e ↦ inl e | inr m ↦ inr (inr m) ];
  unbeaten = (k.unbeaten.0, (h, k.unbeaten.1));
}

best_from-IsBest :
    (b0 : Row) (rows : List Row)
    → live b0 ≡ true
    → (b : Row) × (best_from (some b0) rows ≡ some b) × IsBest (b0 ∷ rows) b
unfolding best_from
best_from-IsBest b0 [] h =
    (b0, refl, record { alive = h; listed = inl refl; unbeaten = (λ _. beats_self b0, tt) })
best_from-IsBest b0 (r ∷ rows) h = elim (Bool-cases (live r)) [
  | inr dead ↦
      let (b, e, k) = best_from-IsBest b0 rows h in
      (b, rw (best_from, dead) e, skip b0 r b rows (λ l. ground (arith, dead, l)) k)
  | inl alive ↦ elim (Bool-cases (beats r b0)) [
    | inl better ↦
        let (b, e, k) = best_from-IsBest r rows alive in
        (
          b,
          rw (best_from, alive, better) e,
          record {
            alive = k.alive;
            listed = inr k.listed;
            unbeaten = (λ _. passed_on r b0 b better (k.unbeaten.0 alive), k.unbeaten);
          },
        )
    | inr worse ↦
        let (b, e, k) = best_from-IsBest b0 rows h in
        (
          b,
          rw (best_from, alive, worse) e,
          skip b0 r b rows (λ _. not_beaten r b0 b worse (k.unbeaten.0 h)) k,
        )
  ]
]

-- `BestOf` gives a live result of the list that no live result of the list beats, on the score and
-- then on the latency; it gives none only if none is live.
pub best_of-IsBest :
    (rows : List Row)
    → ((b : Row) × (best_of rows ≡ some b) × IsBest rows b)
      ⊎ ((best_of rows ≡ none) × All (λ r. live r ≡ false) rows)
unfolding best_from
best_of-IsBest [] = inr (refl, tt)
best_of-IsBest (r ∷ rows) = elim (Bool-cases (live r)) [
  | inl alive ↦ inl (rw (best_from, alive) (best_from-IsBest r rows alive))
  | inr dead ↦ elim (best_of-IsBest rows) [
    | inl (b, e, k) ↦ inl (
      b,
      rw (best_from, dead) e,
      record {
        alive = k.alive;
        listed = inr k.listed;
        unbeaten = (λ l. ground (arith, dead, l), k.unbeaten);
      },
    )
    | inr (e, h) ↦ inr (rw (best_from, dead) e, (dead, h))
  ]
]
