-- ===== src/Checker/Workers/Tests.antt =====
-- Two workers and two inputs, the second of which is done first.
use mtproto_checker.Common.{[], true, arith, false, inr, refl, ℕ, ◌+◌, ◌<◌, ◌∷◌, ◌≡◌, ◌≤◌}
use mtproto_checker.Checker.Workers.{
  Pool, Reach, feed, close_jobs, leave, start, finish, hand_out, here, later, update,
}
use mtproto_checker.Checker.Workers.Order.{Reach-filled, times}
use mtproto_checker.Checker.Workers.Progress.{Ends, Reach-Ends}

abbrev outcome : ℕ → ℕ
outcome i = 10 + i

abbrev last : Pool ℕ
last = record {
  next = 2;
  stopped = false;
  checking = [];
  reporting = [];
  closed = true;
  alive = 0;
  results = update (update (λ i. 0) 1 11) 0 10;
  called = 0 ∷ 1 ∷ [];
}

run : Reach 2 2 outcome 0 last
run =
    later
      (later
        (later
          (later
            (later
              (later
                (later
                  (later (later here (feed refl (omega arith) (omega arith)))
                    (feed refl (omega arith) (omega arith)))
                  (close_jobs (inr refl) refl))
                (finish 1 [] (0 ∷ []) refl))
              (finish 0 [] [] refl))
            (hand_out 1 (0 ∷ []) [] refl))
          (leave refl (omega arith)))
        (hand_out 0 [] [] refl))
      (leave refl (omega arith))

Reach-filled_example :
    ((i : ℕ) → i < 2 → (last.results i ≡ outcome i) × (times i last.called ≡ 1))
    × ((i : ℕ) → 2 ≤ i → (last.results i ≡ 0) × (times i last.called ≡ 0))
    × (last.stopped ≡ false → last.next ≡ 2)
Reach-filled_example = Reach-filled 2 2 outcome 0 run (record { shut = refl; gone = refl })

Reach-Ends_example : Ends 2 2 outcome (start 2 0)
Reach-Ends_example = Reach-Ends 2 2 outcome {unset = 0} (omega arith) here
