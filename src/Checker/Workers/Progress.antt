-- ===== src/Checker/Workers/Progress.antt =====
-- How a run of the pool of workers goes on and ends (`Run` of internal/checker/checker.go).
use mtproto_checker.Common.{
  suc, zero, ◌==◌, Bool-cases, List, [], ap, arith, if◌then◌else◌, inl, inr, length, ltb, refl, ℕ,
  ◌*◌, ◌+◌, ◌-◌, ◌<◌, ◌∷◌, ◌≡◌, ◌≤◌, ◌⊎◌,
}
use mtproto_checker.Checker.Workers.{
  IsDone, Pool, Reach, Step, cancel, feed, finish, hand_out, close_jobs, leave, later,
}
use mtproto_checker.Checker.Workers.Order.{Reach-IsSound, length_out}

List-cases : {A : Type 0} (l : List A) → (l ≡ []) ⊎ ((x : A) × (rest : List A) × (l ≡ x ∷ rest))
List-cases [] = inl refl
List-cases (x ∷ rest) = inr (x, rest, refl)

module _ {R : Type 0} (inputs workers : ℕ) (outcome : ℕ → R) where
  -- The steps that are left, at most.
  unfoldable pub measure : Pool R → ℕ
  measure p =
      3 * (inputs - p.next)
      + 2 * length p.checking
      + length p.reporting
      + (if p.stopped then 0 else 1)
      + (if p.closed then 0 else 1)
      + p.alive

  -- Every step makes this number smaller.
  Step-measure : {p q : Pool R} → Step inputs workers outcome p q → measure q < measure p
  unfolding measure
  Step-measure (feed going more free) = ground (arith, going)
  Step-measure (cancel going more) = ground (arith, going)
  Step-measure (close_jobs over open_yet) = ground (arith, open_yet)
  Step-measure (leave shut free) = omega (arith, free)
  Step-measure {p} (finish i before after e) = omega (arith, length_out i p.checking before after e)
  Step-measure {p} (hand_out i before after e) =
      omega (arith, length_out i p.reporting before after e)

  module _ {unset : R} (w : 1 ≤ workers) where
    -- Where nobody has an index: a worker goes, the loop goes on, or it closes `jobs`.
    idle-progress :
        {p : Pool R}
        → Reach inputs workers outcome unset p
        → length p.checking + length p.reporting ≡ 0
        → IsDone inputs workers outcome p ⊎ ((q : Pool R) × Step inputs workers outcome p q)
    idle-progress {p} r nobody =
        let s = Reach-IsSound inputs workers outcome unset r in
        elim (Bool-cases p.closed) [
          | inl shut ↦ elim (Bool-cases (p.alive == 0)) [
            | inl gone ↦ inl (record { shut = shut; gone = ground (arith, gone) })
            | inr some_left ↦ inr (_, leave shut (ground (arith, some_left, nobody)))
          ]
          | inr open_yet ↦ elim (Bool-cases p.stopped) [
            | inl stop ↦ inr (_, close_jobs (inl stop) open_yet)
            | inr going ↦ elim (Bool-cases (ltb p.next inputs)) [
              | inl more ↦ inr (
                _,
                feed going (ground (arith, more)) (omega (arith, w, nobody, s.all_there open_yet)),
              )
              | inr last ↦ inr (_, close_jobs (inr (ground (arith, last, s.inside))) open_yet)
            ]
          ]
        ]

    Reach-progress :
        {p : Pool R}
        → Reach inputs workers outcome unset p
        → IsDone inputs workers outcome p ⊎ ((q : Pool R) × Step inputs workers outcome p q)
    Reach-progress {p} r = elim (List-cases p.checking) [
      | inr (i, rest, some_checked) ↦ inr (_, finish i [] rest some_checked)
      | inl idle ↦ elim (List-cases p.reporting) [
        | inr (i, rest, some_stored) ↦ inr (_, hand_out i [] rest some_stored)
        | inl silent ↦
            idle-progress r (omega (arith, ap (length {A = ℕ}) idle, ap (length {A = ℕ}) silent))
      ]
    ]

  -- However the run goes on from `p`, it comes to its end: `Run` has returned, or there is a step, and
  -- behind each step that there is the same holds. There is no run without an end in it.
  pub data Ends : Pool R → Type 0 where
    done : {p : Pool R} → IsDone inputs workers outcome p → Ends p
    goes_on :
        {p : Pool R} (q : Pool R)
        → Step inputs workers outcome p q
        → ((s : Pool R) → Step inputs workers outcome p s → Ends s)
        → Ends p

  Ends-measure :
      {unset : R} (n : ℕ) (p : Pool R)
      → 1 ≤ workers
      → measure p < n
      → Reach inputs workers outcome unset p
      → Ends p
  Ends-measure zero p w h r = absurd (omega (arith, h))
  Ends-measure (suc n) p w h r = elim (Reach-progress w r) [
    | inl over ↦ done over
    | inr (q, step) ↦
        goes_on q step (λ s t. Ends-measure n s w (omega (arith, h, Step-measure t)) (later r t))
  ]

  -- With a worker at least, a run ends in whatever order the loop and the workers take their steps,
  -- and wherever the context ends the loop: from every state that it can come to, it is never stuck
  -- before `jobs` is closed and every worker has returned, and it comes there.
  pub Reach-Ends :
      {unset : R} {p : Pool R} → 1 ≤ workers → Reach inputs workers outcome unset p → Ends p
  Reach-Ends {unset} {p} w r = Ends-measure (suc (measure p)) p w (omega arith) r
