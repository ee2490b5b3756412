-- ===== src/Checker/Workers.antt =====
-- `Run` of internal/checker/checker.go: the loop that hands out the inputs' indices and the workers
-- that check them, as steps that interleave in any order. `outcome i` is what `check` gives for the
-- input of index `i` in this run, and `unset` the zero value of `Result`.
pub mod Order
pub mod Progress
mod Tests
use mtproto_checker.Common.{
  Bool, List, [], false, if◌then◌else◌, length, suc, true, ℕ, ◌++◌, ◌+◌, ◌-◌, ◌<◌, ◌==◌, ◌∷◌, ◌≡◌,
  ◌⊎◌,
}

pub record Pool (R : Type 0) : Type 0 where
  -- the index that the loop offers next, and whether the context has ended the loop
  pub next : ℕ
  pub stopped : Bool
  -- the indices that workers check, and those whose result is stored but not yet handed out
  pub checking : List ℕ
  pub reporting : List ℕ
  pub results : ℕ → R
  -- whether `jobs` is closed, and the workers that have not returned, for which `wg` waits
  pub closed : Bool
  pub alive : ℕ
  -- the calls of `OnResult`, the last one first
  pub called : List ℕ

-- `results[i] = a`
abbrev pub update : {R : Type 0} → (ℕ → R) → ℕ → R → ℕ → R
update f i a j = if i == j then a else f j

abbrev pub start : {R : Type 0} → ℕ → R → Pool R
start workers unset = record {
  next = 0;
  stopped = false;
  checking = [];
  reporting = [];
  results = λ i. unset;
  closed = false;
  alive = workers;
  called = [];
}

module _ {R : Type 0} (inputs workers : ℕ) (outcome : ℕ → R) where
  pub data Step (p : Pool R) : Pool R → Type 0 where
    -- `jobs <- i`: a worker is at the head of its loop and takes it
    feed :
        p.stopped ≡ false
        → p.next < inputs
        → length p.checking + length p.reporting < p.alive
        → Step p (record p { next = suc p.next; checking = p.next ∷ p.checking })
    -- `<-ctx.Done()`
    cancel : p.stopped ≡ false → p.next < inputs → Step p (record p { stopped = true })
    -- `close(jobs)`, behind the loop or where the context has ended it
    close_jobs :
        (p.stopped ≡ true) ⊎ (p.next ≡ inputs)
        → p.closed ≡ false
        → Step p (record p { closed = true })
    -- a worker at the head of its loop finds `jobs` closed, and returns: `wg.Done()`
    leave :
        p.closed ≡ true
        → length p.checking + length p.reporting < p.alive
        → Step p (record p { alive = p.alive - 1 })
    -- `results[i] = check(ctx, inputs[i], opts)`
    finish :
        (i : ℕ) (before after : List ℕ)
        → p.checking ≡ before ++ (i ∷ after)
        → Step p (record p {
          checking = before ++ after;
          reporting = i ∷ p.reporting;
          results = update p.results i (outcome i);
        })
    -- `opts.OnResult(results[i])`
    hand_out :
        (i : ℕ) (before after : List ℕ)
        → p.reporting ≡ before ++ (i ∷ after)
        → Step p (record p { reporting = before ++ after; called = i ∷ p.called })

  -- What `Run` can come to after any number of steps.
  pub data Reach (unset : R) : Pool R → Type 0 where
    here : Reach unset (start workers unset)
    later : {p q : Pool R} → Reach unset p → Step p q → Reach unset q

  -- `Run` returns: `jobs` is closed and `wg.Wait()` has come back, as every worker has returned.
  pub record IsDone (p : Pool R) : Type 0 where
    pub shut : p.closed ≡ true
    pub gone : p.alive ≡ 0
