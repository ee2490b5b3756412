-- ===== src/Run/Exit.antt =====
-- The exit code of a run whose proxies are all dead.
use mtproto_checker.Settings.{check_flags, Config, Error}
use mtproto_checker.Common.{
  ==_iff, Bool, Bool-cases, Bytes, List, Result, Result-cases, [], ap, arith, err, false, inl, inr,
  length, map, ok, refl, true, ◌==◌, ◌+◌, ◌∙◌, ◌∷◌, ◌≡◌, ◌↔◌,
}
use mtproto_checker.Common.Sort.{filter}
use mtproto_checker.Checker.{
  Status, Summary, count_all, count_status, status_dead, status_invalid, status_live, summarize,
}
use mtproto_checker.Filter.{Spec}
use mtproto_checker.Run.{
  Env, Event, after_flags, emit, exit_code, finish, live, prepare, results_of, run, run_checks,
  shown_of,
}
use mtproto_checker.Run.Failures.{Fails, Fails-check_flags, Fails-prepare, Fails-emit}

module _ {R : Type 0} (env : Env R) where
  -- The number of live results is the number that `Summarize` counts.
  count_all-live :
      (rows : List R) (s : Summary)
      → (count_all (map env.status rows) s).live ≡ length (filter (live env) rows) + s.live
  unfolding count_all count_status filter
  count_all-live [] s = omega arith
  count_all-live (r ∷ rows) s = go (λ s. count_all-live rows s) (env.status r) refl
    where
      go :
          ((s : Summary)
            → (count_all (map env.status rows) s).live ≡ length (filter (live env) rows) + s.live)
          → (k : Status) → env.status r ≡ k
          → (count_all (map env.status (r ∷ rows)) s).live
            ≡ length (filter (live env) (r ∷ rows)) + s.live
      go again status_live f =
          rw (f, filter, count_all) (omega (arith, again (count_status status_live s)))
      go again status_dead f =
          rw (f, filter, count_all) (omega (arith, again (count_status status_dead s)))
      go again status_invalid f =
          rw (f, filter, count_all) (omega (arith, again (count_status status_invalid s)))

  -- A run that ends for want of a live proxy: its flags and its filter are good, it checks something,
  -- everything is written, and no result is live.
  pub record IsFruitless (cfg : Config) (args : List Bytes) : Type 0 where
    pub spec : Spec
    pub checked : List Bytes
    pub events : List (Event R)
    pub flags_good : check_flags cfg ≡ ok tt
    pub no_version : cfg.show_version ≡ false
    pub ready : prepare env cfg args ≡ ok (spec, checked)
    pub written :
        emit env cfg
          (shown_of env cfg (results_of env cfg spec checked))
          (results_of env cfg spec checked)
        ≡ (ok tt, events)
    pub none_live : filter (live env) (results_of env cfg spec checked) ≡ []

  none_live_iff :
      (rows : List R)
      → ((summarize (map env.status rows)).live == 0) ≡ true
      → filter (live env) rows ≡ []
  unfolding summarize
  none_live_iff rows h = nothing _ (
      omega (
        arith,
        count_all-live rows
            (record { total = length (map env.status rows); live = 0; dead = 0; invalid = 0 }),
        (==_iff (summarize (map env.status rows)).live 0).0 h,
      ))
    where
      nothing : (l : List R) → length l ≡ 0 → l ≡ []
      nothing [] e = refl
      nothing (x ∷ l) e = absurd (omega (arith, e))

  finish-one :
      (results : List R) (r : Result Error (Unit {0}))
      → Fails r
      → exit_code (finish env results r) ≡ 1
      → (r ≡ ok tt) × (filter (live env) results ≡ [])
  unfolding finish
  finish-one results (err x) h e = absurd (let two = h x refl in ground (arith, two, e))
  finish-one results (ok u) h e =
      elim (Bool-cases ((summarize (map env.status results)).live == 0)) [
        | inl none_there ↦ (refl, none_live_iff results none_there)
        | inr some_there ↦
            absurd (let zero_is_one = rw (finish, some_there) at e in ground (arith, zero_is_one))
      ]

  live-finish :
      (results : List R)
      → filter (live env) results ≡ []
      → exit_code (finish env results (ok tt)) ≡ 1
  unfolding finish summarize
  live-finish results nothing =
      let counted =
        count_all-live results
          (record { total = length (map env.status results); live = 0; dead = 0; invalid = 0 }) in
      let none_there : ((summarize (map env.status results)).live == 0) ≡ true =
        (==_iff (summarize (map env.status results)).live 0).1 (rw nothing at counted) in
      rw (finish, none_there) refl

  run_checks-IsFruitless :
      (cfg : Config) (args : List Bytes) (spec : Spec) (checked : List Bytes)
      → check_flags cfg ≡ ok tt
      → cfg.show_version ≡ false
      → prepare env cfg args ≡ ok (spec, checked)
      → exit_code (run_checks env cfg (spec, checked)).0 ≡ 1
      → IsFruitless cfg args
  unfolding run_checks
  run_checks-IsFruitless cfg args spec checked good plain ready e =
      let results = results_of env cfg spec checked in
      let wrote = emit env cfg (shown_of env cfg results) results in
      let (done, nothing) =
        finish-one results wrote.0 (Fails-emit env cfg (shown_of env cfg results) results) e in
      record {
        spec = spec;
        checked = checked;
        events = wrote.1;
        flags_good = good;
        no_version = plain;
        ready = ready;
        written = λ i. (done i, wrote.1);
        none_live = nothing;
      }

  -- A run of given flags and links ends with exit code 1 exactly if its flags and filter are good and
  -- there is something to check, its results were reported and saved without an error, and none of
  -- them is live.
  pub run-IsFruitless :
      (cfg : Config) (args : List Bytes)
      → (exit_code (run env (ok (cfg, args))).0 ≡ 1) ↔ IsFruitless cfg args
  unfolding run run_checks
  run-IsFruitless cfg args = (there, back)
    where
      there : exit_code (run env (ok (cfg, args))).0 ≡ 1 → IsFruitless cfg args
      there e = elim (Result-cases (check_flags cfg)) [
        | inr (x, f) ↦
            absurd (let one = rw (run, f) at e in ground (arith, Fails-check_flags cfg x f, one))
        | inl (u, f) ↦ after cfg.show_version (prepare env cfg args) refl refl f (rw (run, f) at e)
      ]
        where
          after :
              (b : Bool) (ready : Result Error (Spec × List Bytes))
              → cfg.show_version ≡ b
              → prepare env cfg args ≡ ready
              → check_flags cfg ≡ ok tt
              → exit_code (after_flags env cfg b ready).0 ≡ 1
              → IsFruitless cfg args
          after true ready plain p f e = absurd (omega (arith, e))
          after false (err x) plain p f e =
              absurd (omega (arith, Fails-prepare env cfg args x p, e))
          after false (ok (spec, checked)) plain p f e =
              run_checks-IsFruitless cfg args spec checked f plain p e

      back : IsFruitless cfg args → exit_code (run env (ok (cfg, args))).0 ≡ 1
      back k =
          let ends = λ (b : Bool) (ready : Result Error (Spec × List Bytes)).
            exit_code (after_flags env cfg b ready).0 in
          let results = results_of env cfg k.spec k.checked in
          rw (run, k.flags_good)
            (ap (λ b. ends b (prepare env cfg args)) k.no_version
              ∙ ap (ends false) k.ready
              ∙ ap (λ r. exit_code (finish env results r.0)) k.written
              ∙ live-finish results k.none_live)
