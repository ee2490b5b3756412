-- ===== src/Report.antt =====
-- internal/report/report.go: the choice of the best proxy, the groups of a breakdown, and the short
-- texts of a line. Printing of numbers is a record of functions; latencies are whole tenths of a
-- millisecond. Writing to a file, JSON, and the table of CSV are I/O.
pub mod Best
pub mod Groups
mod Tests
use Prim.Native.String.{String}
use mtproto_checker.Common.{
  Bool, Bytes, List, Option, [], equal, false, if◌then◌else◌, leb, length, ltb, none, some, suc,
  take, true, zero, ℕ, ◌&&◌, ◌++◌, ◌+◌, ◌==◌, ◌||◌, ◌∷◌,
}
use mtproto_checker.Common.Sort.{sort_stable}
use mtproto_checker.Common.Text.{codes, is_empty, negsuc, pos, trim_space, ℤ}
use mtproto_checker.Proxy.Link.{first_non_empty, key}
use mtproto_checker.Checker.{Status, status_dead, status_invalid, status_live}
use mtproto_checker.Geo.{Place, flag}

-- What the functions here read of a `checker.Result`.
pub record Row : Type 0 where
  pub input : Bytes
  pub host : Bytes
  pub port : ℕ
  pub canonical : Bytes
  pub status : Status
  pub error_kind : Bytes
  pub score : ℕ
  pub grade : Bytes
  pub latency : ℕ
  pub attempts : ℕ
  pub successes : ℕ
  pub place : Option Place

-- `Live`
abbrev pub is_live : Status → Bool
is_live status_live = true
is_live status_dead = false
is_live status_invalid = false

abbrev pub live : Row → Bool
live r = is_live r.status

-- `r.Score > best.Score || …`
unfoldable pub beats : Row → Row → Bool
beats r best = ltb best.score r.score || r.score == best.score && ltb r.latency best.latency

-- The loop of `BestOf`, with what was found so far.
unfoldable pub best_from : Option Row → List Row → Option Row
best_from best [] = best
best_from best (r ∷ rows) =
    let taken : Option Row = elim best [
      | none ↦ some r
      | some b ↦ if beats r b then some r else some b
    ] in
    best_from (if live r then taken else best) rows

abbrev pub best_of : List Row → Option Row
best_of = best_from none

pub record Group : Type 0 where
  pub label : Bytes
  pub living : ℕ
  pub total : ℕ

-- The group of a label in the index, made at the end if it is new, and its two counts.
unfoldable pub count_in : Bytes → Bool → List Group → List Group
count_in label alive [] = record { label = label; living = if alive then 1 else 0; total = 1 } ∷ []
count_in label alive (g ∷ groups) =
    let rest = count_in label alive groups in
    if equal g.label label
    then record g { living = g.living + (if alive then 1 else 0); total = g.total + 1 } ∷ groups
    else g ∷ rest

unfoldable pub tally_from : (Row → Bytes) → List Group → List Row → List Group
tally_from key groups [] = groups
tally_from key groups (r ∷ rows) =
    tally_from key (if is_empty (key r) then groups else count_in (key r) (live r) groups) rows

-- The comparison of the sort.
unfoldable pub fuller : Group → Group → Bool
fuller a b = ltb b.living a.living || a.living == b.living && ltb b.total a.total

unfoldable pub group_by : (Row → Bytes) → List Row → List Group
group_by key rows = sort_stable fuller (tally_from key [] rows)

unfoldable pub by_country : Row → Bytes
by_country r = elim r.place [
  | none ↦ []
  | some p ↦ if is_empty p.code then [] else trim_space (flag (some p) ++ (32 ∷ p.code))
]

module _ (itoa : ℤ → Bytes) where
  unfoldable pub network_text : ℤ → Bytes → Bytes
  network_text asn name = trim_space (codes "AS" ++ (itoa asn ++ (32 ∷ name)))

  unfoldable pub by_asn : Row → Bytes
  by_asn r = elim r.place [
    | none ↦ []
    | some p ↦ elim p.asn [
      | pos zero ↦ []
      | pos (suc n) ↦ network_text (pos (suc n)) (first_non_empty (p.org ∷ p.isp ∷ []))
      | negsuc n ↦ network_text (negsuc n) (first_non_empty (p.org ∷ p.isp ∷ []))
    ]
  ]

unfoldable pub by_error_kind : Row → Bytes
by_error_kind r = if live r || is_empty r.error_kind then [] else r.error_kind

-- `if len(groups) > limit && limit > 0`
unfoldable pub first_groups : ℕ → List Group → List Group
first_groups limit groups =
    if ltb limit (length groups) && ltb 0 limit then take limit groups else groups

-- The escape sequences of a terminal.
abbrev pub escape : String → Bytes
escape code = 27 ∷ (91 ∷ codes code)

unfoldable pub paint : Bool → Bytes → Bytes → Bytes
paint color style text = if color then style ++ (text ++ escape "0m") else text

unfoldable pub grade_color : Bytes → Bytes
grade_color g =
    if equal g (codes "A")
    then escape "32m"
    else if equal g (codes "B")
    then escape "36m"
    else if equal g (codes "C")
    then escape "33m"
    else escape "31m"

unfoldable pub grade_text : Row → Bytes
grade_text r = if is_empty r.grade then codes " " else r.grade

module _ (itoa : ℕ → Bytes) where
  unfoldable pub host_port : Row → Bytes
  host_port r = if is_empty r.host then r.input else r.host ++ (codes ":" ++ itoa r.port)

  unfoldable pub attempt_suffix : Row → Bytes
  attempt_suffix r =
      if leb r.attempts 1
      then []
      else codes " (" ++ (itoa r.successes ++ (codes "/" ++ (itoa r.attempts ++ codes ")")))

-- `Links`: one line for each result that has a link.
unfoldable pub links_of : List Row → Bytes
links_of [] = []
links_of (r ∷ rows) =
    let rest = links_of rows in if is_empty r.canonical then rest else r.canonical ++ (10 ∷ rest)
