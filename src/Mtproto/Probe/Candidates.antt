-- ===== src/Mtproto/Probe/Candidates.antt =====
-- Which candidate a probe answers for.
use mtproto_checker.Common.{
  Bool-cases, Bytes, List, Option, Option-cases, Result-cases, [], arith, err, false, inl, inr, ltb,
  none, ok, ok_cancel, refl, some, suc, ℕ, ◌&&◌, ◌++◌, ◌↔◌, ◌∷◌, ◌≡◌,
}
use mtproto_checker.Proxy.Secret.{SecretMode}
use mtproto_checker.Mtproto.Probe.{
  Candidate, Failure, World, candidates_of, give_up, is_final, probe_mtproto, try_from,
}

-- The first candidate whose attempt succeeds gives `o`: the ones before it failed in a way that lets
-- the loop go on, and the context had not ended behind them.
pub data IsFirst {O : Type 0} (w : World O) (o : O) : ℕ → List Candidate → Type 0 where
  here :
      {i : ℕ} {cand : Candidate} {rest : List Candidate}
      → w.attempt i cand ≡ ok o
      → IsFirst w o i (cand ∷ rest)
  later :
      {i : ℕ} {cand : Candidate} {rest : List Candidate} (e : Failure)
      → w.attempt i cand ≡ err e
      → is_final e ≡ false
      → w.ended i ≡ none
      → IsFirst w o (suc i) rest
      → IsFirst w o i (cand ∷ rest)

module _ {O : Type 0} (w : World O) (o : O) where
  try_from-IsFirst :
      (i : ℕ) (candidates : List Candidate) (problems : List Bytes) (last : Option Failure)
      → try_from w i candidates problems last ≡ ok o
      → IsFirst w o i candidates
  unfolding try_from give_up
  try_from-IsFirst i [] problems last e = cc
  try_from-IsFirst i (cand ∷ candidates) problems last e = elim (Bool-cases (ltb 0 i && w.late i)) [
    | inl late ↦ let wrong = rw (try_from, late) at e in cc
    | inr early ↦ elim (Result-cases (w.attempt i cand)) [
      | inl (got, good) ↦
          let same = ok_cancel got o (rw (try_from, early, good) at e) in
          here (rw (good, same) refl)
      | inr (x, bad) ↦ elim (Bool-cases (is_final x)) [
        | inl last_word ↦ let wrong = rw (try_from, early, bad, last_word) at e in cc
        | inr goes_on ↦ elim (Option-cases (w.ended i)) [
          | inr (y, over) ↦ let wrong = rw (try_from, early, bad, goes_on, over) at e in cc
          | inl going ↦ later x bad goes_on going (
              try_from-IsFirst (suc i) candidates (problems ++ (w.problem cand x ∷ [])) (some x)
                (rw (try_from, early, bad, goes_on, going) at e))
        ]
      ]
    ]
  ]

  try_from-finds :
      (i : ℕ) (candidates : List Candidate) (problems : List Bytes) (last : Option Failure)
      → ((j : ℕ) → w.late j ≡ false)
      → IsFirst w o i candidates
      → try_from w i candidates problems last ≡ ok o
  unfolding try_from
  try_from-finds i [] problems last in_time k = elim k [ ]
  try_from-finds i (cand ∷ rest) problems last in_time (here good) =
      let early : (ltb 0 i && w.late i) ≡ false = ground (arith, in_time i) in
      rw (try_from, early, good) refl
  try_from-finds i (cand ∷ rest) problems last in_time (later e bad goes_on going k) =
      let early : (ltb 0 i && w.late i) ≡ false = ground (arith, in_time i) in
      rw (try_from, early, bad, goes_on, going)
        (try_from-finds (suc i) rest (problems ++ (w.problem cand e ∷ [])) (some e) in_time k)

  -- As long as the window does not pass, a probe succeeds exactly if one of its candidates does, all
  -- before it having failed within the protocol and the context going on; and its outcome is the one
  -- of that candidate.
  pub probe_mtproto-IsFirst :
      (mode : SecretMode) (max_candidates : ℕ)
      → ((j : ℕ) → w.late j ≡ false)
      → (probe_mtproto w mode max_candidates ≡ ok o)
        ↔ IsFirst w o 0 (candidates_of mode max_candidates)
  unfolding probe_mtproto
  probe_mtproto-IsFirst mode max_candidates in_time = (
    try_from-IsFirst 0 (candidates_of mode max_candidates) [] none,
    try_from-finds 0 (candidates_of mode max_candidates) [] none in_time,
  )
