-- ===== src/Run.antt =====
-- The command (cmd/mtproto-checker/main.go): the order of a run, what is reported and saved, and the
-- exit code. Package flag, the files, the terminal and the checks
-- themselves are parameters; the texts on standard error, among them the progress, are left out, and
-- so are the style and the elapsed time.
pub mod Failures
pub mod Exit
mod Tests
use mtproto_checker.Common.{
  Bool, Bytes, List, Option, Result, [], drop, equal, err, false, if◌then◌else◌, leb, length, ltb,
  map, none, not, ok, some, suc, take, true, zero, ℕ, ◌&&◌, ◌++◌, ◌-◌, ◌==◌, ◌>>=◌, ◌||◌, ◌∷◌,
}
use mtproto_checker.Common.Sort.{filter}
use mtproto_checker.Common.Text.{codes, is_empty, negsuc, pos, ℤ}
use mtproto_checker.Checker
use mtproto_checker.Checker.{Status, summarize}
use mtproto_checker.Checker.Sorting.{sort_by_latency}
use mtproto_checker.Filter
use mtproto_checker.Filter.{
  Info, Spec, given, load_exclusions, needs_geo, parse_ints, parse_list, split_from,
}
use mtproto_checker.Input.{Patterns, collect}
use mtproto_checker.Mtproto.Probe.{Depth, full, quick}
use mtproto_checker.Settings.{
  Chosen, Config, Error, all_filtered, as_error, bad_asn, bad_port, check_flags, exceeds, failed,
  is_zero, needs_api_id, no_live_proxies, nothing_to_check, options_of, positive, require,
  saving_failed, too_few_attempts, too_many_successes, unknown_format,
}
use mtproto_checker.Proxy.Link.{Platform}
use mtproto_checker.Report.{is_live}

-- The values of `report.Writer`.
pub data Writer : Type 0 where
  write_json write_csv write_links : Writer

-- strings.HasSuffix
unfoldable pub has_suffix : Bytes → Bytes → Bool
has_suffix s suffix =
    leb (length suffix) (length s) && equal (drop (length s - length suffix) s) suffix

unfoldable pub writer_for : Bytes → Writer
writer_for path =
    if has_suffix path (codes ".csv")
    then write_csv
    else if has_suffix path (codes ".txt")
    then write_links
    else write_json

-- What a run has written: the version, the text report of the shown results and of all of them, the
-- results in another format, or a file.
pub data Event (R : Type 0) : Type 0 where
  versioned : Event R
  told : List R → List R → Event R
  printed : Writer → List R → Event R
  saved : Bytes → List R → Writer → Event R

-- What is not under the command: reading a file, the lines that the sources give, `checker.Run`, what
-- the run reads of a result, and the writing, with its error if it has one.
pub record Env (R : Type 0) : Type 0 where
  pub os : Platform
  pub patterns : Patterns
  pub read_file : Bytes → Result Bytes Bytes
  pub lines : List Bytes → List Bytes → Bool → Result Bytes (List Bytes)
  pub check_all : List Bytes → Chosen → List R
  pub status : R → Status
  pub latency : R → ℕ
  pub geo : R → Option Info
  pub print : Writer → List R → Option Bytes
  pub to_file : Bytes → List R → Writer → Option Bytes

module _ {R : Type 0} (env : Env R) where
  abbrev pub live : R → Bool
  live r = is_live (env.status r)

  -- The loop of `buildFilter` over the files.
  unfoldable pub exclusion_lines : List Bytes → Result Error (List Bytes)
  exclusion_lines [] = ok []
  exclusion_lines (path ∷ paths) =
      let rest = exclusion_lines paths in
      (do
        content ← as_error failed (env.read_file path)
        lines ← rest
        ok (split_from 10 [] content ++ lines))

  unfoldable pub build_filter : Config → Result Error Spec
  build_filter cfg = do
    ports ← as_error bad_port (parse_ints cfg.ports)
    asns ← as_error bad_asn (parse_ints cfg.asns)
    lines ← exclusion_lines cfg.excludes
    ok (record {
      modes = parse_list cfg.modes;
      ports = ports;
      countries = parse_list cfg.countries;
      asns = asns;
      exclude = if given lines then load_exclusions env.os lines else [];
    })

  unfoldable pub print_as : Writer → List R → Result Error (List (Event R))
  print_as w shown = elim (env.print w shown) [
    | some e ↦ err (failed e)
    | none ↦ ok (printed w shown ∷ [])
  ]

  -- What is written on standard output.
  unfoldable pub show_results : Config → List R → List R → Result Error (List (Event R))
  show_results cfg shown all =
      let by = λ (w : Writer). print_as w shown in
      if equal cfg.format (codes "text")
      then if not cfg.quiet then ok (told shown all ∷ []) else ok []
      else if equal cfg.format (codes "json")
      then by write_json
      else if equal cfg.format (codes "csv")
      then by write_csv
      else if equal cfg.format (codes "links")
      then by write_links
      else err (unknown_format cfg.format)

  abbrev pub Save : Type 0
  Save = Bytes × (List R × Writer)

  abbrev pub saves_of : Config → List R → List R → List Save
  saves_of cfg shown all =
      (cfg.out, (shown, writer_for cfg.out))
      ∷ (cfg.save_live, (filter live all, write_json))
      ∷ (cfg.save_dead, (filter (λ r. not (live r)) all, write_json))
      ∷ (cfg.save_links, (filter live all, write_links))
      ∷ []

  -- The loop over the saves: an error ends it, behind the files that were written.
  unfoldable pub save_all : List Save → Result Error (Unit {0}) × List (Event R)
  save_all [] = (ok tt, [])
  save_all ((path, (rows, writer)) ∷ saves) =
      let (done, events) = save_all saves in
      if is_empty path then (done, events) else elim (env.to_file path rows writer) [
        | some e ↦ (err (saving_failed path e), [])
        | none ↦ (done, saved path rows writer ∷ events)
      ]

  unfoldable pub emit : Config → List R → List R → Result Error (Unit {0}) × List (Event R)
  emit cfg shown all = elim (show_results cfg shown all) [
    | err e ↦ (err e, [])
    | ok events ↦ let (done, files) = save_all (saves_of cfg shown all) in (done, events ++ files)
  ]

  -- The links that are checked, and the filter.
  unfoldable pub prepare : Config → List Bytes → Result Error (Spec × List Bytes)
  prepare cfg args = do
    lines ← as_error failed (env.lines cfg.files cfg.urls cfg.stdin)
    let collected = collect env.os env.patterns args lines
    _ ← require nothing_to_check (given collected)
    spec ← build_filter cfg
    let kept = Filter.links env.os spec collected
    _ ← require all_filtered (given kept)
    ok (spec, kept)

  -- All the results of a run, and those that are shown.
  unfoldable pub results_of : Config → Spec → List Bytes → List R
  results_of cfg spec links =
      let checked = env.check_all links (options_of cfg spec) in
      let sorted = if cfg.sort_latency then sort_by_latency live env.latency checked else checked in
      Filter.results env.geo spec sorted

  -- `cfg.top > 0 && len(shown) > cfg.top`
  abbrev pub first_rows : ℤ → List R → List R
  first_rows (pos n) rows = if ltb 0 n && ltb n (length rows) then take n rows else rows
  first_rows (negsuc n) rows = rows

  unfoldable pub shown_of : Config → List R → List R
  shown_of cfg results =
      first_rows cfg.top (if cfg.alive_only then filter live results else results)

  -- The end of a run, behind what it has written.
  unfoldable pub finish : List R → Result Error (Unit {0}) → Result Error (Unit {0})
  finish results (err e) = err e
  finish results (ok _) =
      if (summarize (map env.status results)).live == 0 then err no_live_proxies else ok tt

  unfoldable pub run_checks : Config → Spec × List Bytes → Result Error (Unit {0}) × List (Event R)
  run_checks cfg (spec, links) =
      let results = results_of cfg spec links in
      let (done, events) = emit cfg (shown_of cfg results) results in (finish results done, events)

  -- Behind the flags: whether the version is asked for, and the links and the filter.
  abbrev pub after_flags :
      Config → Bool → Result Error (Spec × List Bytes) → Result Error (Unit {0}) × List (Event R)
  after_flags cfg true ready = (ok tt, versioned ∷ [])
  after_flags cfg false (err e) = (err e, [])
  after_flags cfg false (ok ready) = run_checks cfg ready

  -- `run`, from what the flag package has read.
  unfoldable pub run : Result Bytes (Config × List Bytes) → Result Error (Unit {0}) × List (Event R)
  run (err text) = (err (failed text), [])
  run (ok (cfg, args)) = elim (check_flags cfg) [
    | err e ↦ (err e, [])
    | ok _ ↦ after_flags cfg cfg.show_version (prepare cfg args)
  ]

-- `main`, for an error and for what a run gave.
abbrev pub code_of : Error → ℕ
code_of no_live_proxies = 1
code_of too_few_attempts = 2
code_of too_many_successes = 2
code_of needs_api_id = 2
code_of nothing_to_check = 2
code_of all_filtered = 2
code_of (bad_port text) = 2
code_of (bad_asn text) = 2
code_of (unknown_format text) = 2
code_of (failed text) = 2
code_of (saving_failed path text) = 2

abbrev pub exit_code : Result Error (Unit {0}) → ℕ
exit_code (ok _) = 0
exit_code (err e) = code_of e
