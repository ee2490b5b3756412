-- ===== src/Checker/Workers/Order.antt =====
-- Whatever the order of the steps is, every index that was handed out is checked and reported once.
use mtproto_checker.Common.{
  ◌⊎◌, length, length-append, true, List, [], ap, arith, false, if◌then◌else◌, inl, inr, ltb, refl,
  ℕ, ◌++◌, ◌+◌, ◌<◌, ◌==◌, ◌∙◌, ◌∷◌, ◌≡◌, ◌≤◌,
}
use mtproto_checker.Checker.Workers.{
  IsDone, Pool, Reach, Step, cancel, close_jobs, feed, leave, finish, hand_out, here, later, start,
}

-- How often an index stands in a list.
unfoldable pub times : ℕ → List ℕ → ℕ
times i [] = 0
times i (j ∷ l) = (if i == j then 1 else 0) + times i l

times-append : (i : ℕ) (a b : List ℕ) → times i (a ++ b) ≡ times i a + times i b
unfolding times
times-append i [] b = omega arith
times-append i (j ∷ a) b = omega (arith, times-append i a b)

-- Taking one element out of the middle.
times_out :
    (j i : ℕ) (l before after : List ℕ)
    → l ≡ before ++ (i ∷ after)
    → times j l ≡ (if j == i then 1 else 0) + times j (before ++ after)
unfolding times
times_out j i l before after e =
    ap (times j) e ∙ omega (arith, times-append j before (i ∷ after), times-append j before after)

pub length_out :
    (i : ℕ) (l before after : List ℕ)
    → l ≡ before ++ (i ∷ after)
    → length l ≡ 1 + length (before ++ after)
length_out i l before after e =
    ap (length {A = ℕ}) e
    ∙ omega (arith, length-append before (i ∷ after), length-append before after)

times-length : (i : ℕ) (l : List ℕ) → length l ≡ 0 → times i l ≡ 0
unfolding times
times-length i [] h = refl
times-length i (j ∷ l) h = absurd (omega (arith, h))

module _ {R : Type 0} (inputs workers : ℕ) (outcome : ℕ → R) (unset : R) where
  pub record IsSound (p : Pool R) : Type 0 where
    pub inside : p.next ≤ inputs
    -- a worker has one index at most, and none where it has returned
    pub busy : length p.checking + length p.reporting ≤ p.alive
    pub ended : p.closed ≡ true → (p.stopped ≡ true) ⊎ (p.next ≡ inputs)
    pub all_there : p.closed ≡ false → p.alive ≡ workers
    pub once :
        (i : ℕ)
        → times i p.checking + times i p.reporting + times i p.called
          ≡ (if ltb i p.next then 1 else 0)
    pub filled : (i : ℕ) → times i p.checking ≡ 0 → i < p.next → p.results i ≡ outcome i
    pub untouched : (i : ℕ) → p.next ≤ i → p.results i ≡ unset

  start-IsSound : IsSound (start workers unset)
  unfolding times
  start-IsSound = record {
    inside = omega arith;
    busy = omega arith;
    ended = λ h. cc;
    all_there = λ h. refl;
    once = λ i. ground arith;
    filled = λ i t h. absurd (omega arith);
    untouched = λ i h. refl;
  }

  Step-IsSound : {p q : Pool R} → Step inputs workers outcome p q → IsSound p → IsSound q
  unfolding times
  Step-IsSound {p} (feed going more free) s = record {
    inside = omega arith;
    busy = omega (arith, free);
    ended = λ h. absurd (elim (s.ended h) [ inl stop ↦ cc | inr last ↦ omega (arith, last, more) ]);
    all_there = s.all_there;
    once = λ i. ground (arith, s.once i);
    filled = λ i t h. s.filled i (ground arith) (ground (arith, t));
    untouched = λ i h. s.untouched i (omega arith);
  }
  Step-IsSound (cancel going more) s = record {
    inside = s.inside;
    busy = s.busy;
    ended = λ h. inl refl;
    all_there = s.all_there;
    once = s.once;
    filled = s.filled;
    untouched = s.untouched;
  }
  Step-IsSound (close_jobs over open_yet) s = record {
    inside = s.inside;
    busy = s.busy;
    ended = λ h. over;
    all_there = λ h. cc;
    once = s.once;
    filled = s.filled;
    untouched = s.untouched;
  }
  Step-IsSound (leave shut free) s = record {
    inside = s.inside;
    busy = omega (arith, free);
    ended = s.ended;
    all_there = λ h. cc;
    once = s.once;
    filled = s.filled;
    untouched = s.untouched;
  }
  Step-IsSound {p} (finish i before after e) s = record {
    inside = s.inside;
    busy = omega (arith, s.busy, length_out i p.checking before after e);
    ended = s.ended;
    all_there = s.all_there;
    once = λ j. ground (arith, s.once j, times_out j i p.checking before after e);
    filled = λ j t h. ground (arith, s.filled j, times_out j i p.checking before after e);
    untouched =
        λ j h. ground (arith, s.untouched j, s.once i, times_out i i p.checking before after e);
  }
  Step-IsSound {p} (hand_out i before after e) s = record {
    inside = s.inside;
    busy = omega (arith, s.busy, length_out i p.reporting before after e);
    ended = s.ended;
    all_there = s.all_there;
    once = λ j. ground (arith, s.once j, times_out j i p.reporting before after e);
    filled = s.filled;
    untouched = s.untouched;
  }

  pub Reach-IsSound : {p : Pool R} → Reach inputs workers outcome unset p → IsSound p
  Reach-IsSound here = start-IsSound
  Reach-IsSound (later r step) = Step-IsSound step (Reach-IsSound r)

  -- However the workers and the loop interleave, and wherever the context ends the loop: when `Run`
  -- returns, the result of every index that was handed out is the one of its check, and `OnResult`
  -- was called for it exactly once; the other results are unset and were not reported. If the
  -- context has not ended the loop, every index was handed out.
  pub Reach-filled :
      {p : Pool R}
      → Reach inputs workers outcome unset p
      → IsDone inputs workers outcome p
      → ((i : ℕ) → i < p.next → (p.results i ≡ outcome i) × (times i p.called ≡ 1))
        × ((i : ℕ) → p.next ≤ i → (p.results i ≡ unset) × (times i p.called ≡ 0))
        × (p.stopped ≡ false → p.next ≡ inputs)
  unfolding times
  Reach-filled {p} r d =
      let s = Reach-IsSound r in
      let none_left : (i : ℕ) → times i p.checking ≡ 0 =
        λ i. times-length i p.checking (omega (arith, s.busy, d.gone)) in
      let all_said : (i : ℕ) → times i p.reporting ≡ 0 =
        λ i. times-length i p.reporting (omega (arith, s.busy, d.gone)) in
      (
        λ i h. (s.filled i (none_left i) h, ground (arith, s.once i, none_left i, all_said i)),
        λ i h. (s.untouched i h, ground (arith, s.once i, none_left i, all_said i)),
        λ going. elim (s.ended d.shut) [ inl stop ↦ cc | inr all ↦ all ],
      )
