-- ===== src/Run/Failures.antt =====
-- The errors of a run other than the want of a live proxy.
use mtproto_checker.Settings.{
  as_error, bad_asn, bad_port, check_flags, Config, Error, exceeds, failed, is_zero, needs_api_id,
  positive, require, saving_failed, too_few_attempts, too_many_successes, unknown_format,
}
use mtproto_checker.Common.{
  Bool, Bool-cases, Bytes, List, Option-cases, Result, Result-cases, [], ap, err, equal, false,
  if◌then◌else◌, inl, inr, not, ok, refl, sym, true, ◌&&◌, ◌>>=◌, ◌||◌, ◌∙◌, ◌∷◌, ◌≡◌,
}
use mtproto_checker.Common.Guards.{err-ne-ok}
use mtproto_checker.Common.Text.{codes, is_empty}
use mtproto_checker.Filter.{given, parse_ints}
use mtproto_checker.Run.{
  Env, Save, Writer, build_filter, code_of, emit, exclusion_lines, write_json, write_csv,
  write_links, prepare, print_as, save_all, saves_of, show_results,
}

-- A run's end with this result has exit code 2, if it is an error.
abbrev pub Fails : {A : Type 0} → Result Error A → Type 0
Fails r = (e : Error) → r ≡ err e → code_of e ≡ 2

abbrev wrong : {A : Type 0} → Error → Result Error A
wrong e = err e

err_cancel : {A : Type 0} (x y : Error) → wrong {A = A} x ≡ wrong y → x ≡ y
err_cancel x y h = cc

Fails-err : {A : Type 0} (x : Error) → code_of x ≡ 2 → Fails (wrong {A = A} x)
Fails-err x two e h = ap code_of (sym (err_cancel x e h)) ∙ two

Fails-ok : {A : Type 0} (a : A) → Fails (ok a)
Fails-ok a e h = absurd (err-ne-ok (sym h))

Fails-bind :
    {A B : Type 0} (r : Result Error A) (f : A → Result Error B)
    → Fails r
    → ((a : A) → Fails (f a))
    → Fails (r >>= f)
Fails-bind (ok a) f h k e eq = k a e eq
Fails-bind (err x) f h k e eq = h e (ap err (err_cancel x e eq))

Fails-as_error :
    {A : Type 0} (k : Bytes → Error) (r : Result Bytes A)
    → ((text : Bytes) → code_of (k text) ≡ 2)
    → Fails (as_error k r)
Fails-as_error k (ok a) two = Fails-ok a
Fails-as_error k (err text) two = Fails-err (k text) (two text)

Fails-require : (e : Error) (b : Bool) → code_of e ≡ 2 → Fails (require e b)
Fails-require e true two = Fails-ok tt
Fails-require e false two = Fails-err e two

Fails-if :
    {A : Type 0} {r s : Result Error A} (b : Bool) → Fails r → Fails s → Fails (if b then r else s)
Fails-if true h k = h
Fails-if false h k = k

pub Fails-check_flags : (cfg : Config) → Fails (check_flags cfg)
unfolding check_flags
Fails-check_flags cfg = Fails-if (not (positive cfg.attempts)) (Fails-err too_few_attempts refl) (
    Fails-if (exceeds cfg.min_successes cfg.attempts) (Fails-err too_many_successes refl) (
      Fails-if ((cfg.inspect || cfg.speedtest) && is_zero cfg.api_id) (Fails-err needs_api_id refl)
        (Fails-ok tt)))

module _ {R : Type 0} (env : Env R) where
  Fails-exclusion_lines : (paths : List Bytes) → Fails (exclusion_lines env paths)
  unfolding exclusion_lines
  Fails-exclusion_lines [] = Fails-ok []
  Fails-exclusion_lines (path ∷ paths) =
      Fails-bind _ _ (Fails-as_error failed (env.read_file path) (λ text. refl))
        (λ content. Fails-bind _ _ (Fails-exclusion_lines paths) (λ lines. Fails-ok _))

  pub Fails-prepare : (cfg : Config) (args : List Bytes) → Fails (prepare env cfg args)
  unfolding prepare build_filter
  Fails-prepare cfg args =
      Fails-bind _ _ (Fails-as_error failed (env.lines cfg.files cfg.urls cfg.stdin) (λ text. refl))
        (λ lines. Fails-bind _ _ (Fails-require _ _ refl) (λ u.
          Fails-bind _ _ (Fails-build_filter cfg)
            (λ spec. Fails-bind _ _ (Fails-require _ _ refl) (λ u. Fails-ok _))))
    where
      Fails-build_filter : (cfg : Config) → Fails (build_filter env cfg)
      Fails-build_filter cfg =
          Fails-bind _ _ (Fails-as_error bad_port (parse_ints cfg.ports) (λ text. refl)) (λ ports.
            Fails-bind _ _ (Fails-as_error bad_asn (parse_ints cfg.asns) (λ text. refl))
              (λ asns. Fails-bind _ _ (Fails-exclusion_lines cfg.excludes) (λ lines. Fails-ok _)))

  Fails-print_as : (w : Writer) (shown : List R) → Fails (print_as env w shown)
  unfolding print_as
  Fails-print_as w shown e h = elim (Option-cases (env.print w shown)) [
    | inl f ↦ absurd (err-ne-ok (sym (rw (print_as, f) at h)))
    | inr (text, f) ↦ Fails-err (failed text) refl e (rw (print_as, f) at h)
  ]

  Fails-show_results : (cfg : Config) (shown all : List R) → Fails (show_results env cfg shown all)
  unfolding show_results
  Fails-show_results cfg shown all =
      Fails-if (equal cfg.format (codes "text"))
        (Fails-if (not cfg.quiet) (Fails-ok _) (Fails-ok _))
        (Fails-if (equal cfg.format (codes "json")) (Fails-print_as write_json shown) (
          Fails-if (equal cfg.format (codes "csv")) (Fails-print_as write_csv shown) (
            Fails-if (equal cfg.format (codes "links")) (Fails-print_as write_links shown)
              (Fails-err (unknown_format cfg.format) refl))))

  Fails-save_all : (saves : List (Save env)) → Fails ((save_all env saves).0)
  unfolding save_all
  Fails-save_all [] e h = Fails-ok tt e h
  Fails-save_all ((path, (rows, writer)) ∷ saves) e h = elim (Bool-cases (is_empty path)) [
    | inl none_given ↦ Fails-save_all saves e (rw (save_all, none_given) at h)
    | inr given ↦ elim (Option-cases (env.to_file path rows writer)) [
      | inl f ↦ Fails-save_all saves e (rw (save_all, given, f) at h)
      | inr (text, f) ↦ Fails-err (saving_failed path text) refl e (rw (save_all, given, f) at h)
    ]
  ]

  pub Fails-emit : (cfg : Config) (shown all : List R) → Fails ((emit env cfg shown all).0)
  unfolding emit
  Fails-emit cfg shown all e h = elim (Result-cases (show_results env cfg shown all)) [
    | inl (events, f) ↦ Fails-save_all (saves_of env cfg shown all) e (rw (emit, f) at h)
    | inr (x, f) ↦
        Fails-show_results cfg shown all e (f ∙ ap wrong (err_cancel x e (rw (emit, f) at h)))
  ]
