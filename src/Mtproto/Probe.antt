-- ===== src/Mtproto/Probe.antt =====
-- internal/mtproto/probe.go: the classes of failures, the candidates of a probe and the loop over
-- them, and the order of the steps of a full handshake. One attempt, the clock and the context are
-- arguments; an error of Go is what the code asks of it. Durations are whole numbers.
pub mod Candidates
pub mod Quick
mod Tests
use mtproto_checker.Common.{
  Bool, Bytes, List, Option, Result, [], err, false, if◌then◌else◌, length, ltb, map, none, not, ok,
  some, suc, take, true, ℕ, ◌&&◌, ◌*◌, ◌++◌, ◌+◌, ◌==◌, ◌>>=◌, ◌||◌, ◌∷◌,
}
use mtproto_checker.Common.Text.{codes, contains, ℤ}
use mtproto_checker.Proxy.Secret.{SecretMode, mode_fake_tls, mode_none, mode_plain, mode_secure}
use mtproto_checker.Mtproto.Transport.{Transport, abridged, intermediate, padded_intermediate}

pub data Depth : Type 0 where
  quick full : Depth

pub data Stage : Type 0 where
  stage_dial stage_handshake stage_protocol : Stage

-- `kind_none` is the empty string.
pub data Kind : Type 0 where
  kind_dial_timeout kind_dial_refused kind_dns kind_unreachable kind_secret_rejected : Kind
  kind_handshake kind_timeout kind_closed kind_no_res_pq kind_socks_auth : Kind
  kind_socks_rejected kind_canceled kind_other kind_none : Kind

-- What `errors.Is` and `errors.As` find in an error, and its text.
pub record Fault : Type 0 where
  pub canceled : Bool
  pub dns : Bool
  pub deadline : Bool
  pub timeout : Bool
  pub text : Bytes

-- An error of a probe; `marked` is its `*Error`, if it is one.
pub record Failure : Type 0 where
  pub marked : Option (Stage × Kind)
  pub fault : Fault

-- The answer by the stage alone.
abbrev pub by_stage : Stage → Kind
by_stage stage_dial = kind_unreachable
by_stage stage_handshake = kind_handshake
by_stage stage_protocol = kind_no_res_pq

-- The switch over the text.
unfoldable pub by_text : Stage → Bytes → Kind
by_text stage text =
    if contains (codes "connection refused") text
    then kind_dial_refused
    else if contains (codes "no route to host") text
        || contains (codes "network is unreachable") text
    then kind_unreachable
    else if contains (codes "HMAC mismatch") text
    then kind_secret_rejected
    else if contains (codes "EOF") text || contains (codes "connection reset") text
    then kind_closed
    else by_stage stage

abbrev pub by_timeout : Stage → Kind
by_timeout stage_dial = kind_dial_timeout
by_timeout stage_handshake = kind_timeout
by_timeout stage_protocol = kind_timeout

unfoldable pub classify : Stage → Option Fault → Kind
classify stage none = kind_other
classify stage (some e) =
    if e.canceled
    then kind_canceled
    else if e.dns
    then kind_dns
    else if e.deadline || e.timeout
    then by_timeout stage
    else by_text stage e.text

unfoldable pub kind_of : Option Failure → Kind
kind_of none = kind_none
kind_of (some e) = elim e.marked [ some m ↦ m.1 | none ↦ classify stage_protocol (some e.fault) ]

unfoldable pub fail : Stage → Fault → Failure
fail stage e = record { marked = some (stage, classify stage (some e)); fault = e }

abbrev pub fail_as : Stage → Kind → Fault → Failure
fail_as stage kind e = record { marked = some (stage, kind); fault = e }

-- `errors.New`
abbrev pub plain_fault : Bytes → Fault
plain_fault text = record {
  canceled = false;
  dns = false;
  deadline = false;
  timeout = false;
  text = text;
}

abbrev pub dc_order : List ℕ
dc_order = 2 ∷ 1 ∷ 4 ∷ 3 ∷ 5 ∷ []

pub record Candidate : Type 0 where
  pub dc : ℕ
  pub framing : Transport

abbrev pub order_of : SecretMode → List Transport
order_of mode_plain = intermediate ∷ abridged ∷ padded_intermediate ∷ []
order_of mode_none = intermediate ∷ abridged ∷ padded_intermediate ∷ []
order_of mode_secure = padded_intermediate ∷ intermediate ∷ abridged ∷ []
order_of mode_fake_tls = padded_intermediate ∷ intermediate ∷ abridged ∷ []

unfoldable pub candidates_for : List Transport → List ℕ → List Candidate
candidates_for order [] = []
candidates_for order (dc ∷ dcs) =
    map (λ framing. record { dc = dc; framing = framing }) order ++ candidates_for order dcs

-- `max_candidates` of zero is no bound.
unfoldable pub candidates_of : SecretMode → ℕ → List Candidate
candidates_of mode max_candidates =
    let candidates = candidates_for (order_of mode) dc_order in
    if ltb 0 max_candidates && ltb max_candidates (length candidates)
    then take max_candidates candidates
    else candidates

unfoldable pub joined : List Bytes → Bytes
joined [] = []
joined (p ∷ []) = p
joined (p ∷ (q ∷ problems)) = p ++ (codes "; " ++ joined (q ∷ problems))

unfoldable pub summarize : List Bytes → ℕ → Bytes
summarize [] keep = codes "no valid resPQ from Telegram"
summarize (p ∷ problems) keep =
    if ltb keep (length (p ∷ problems))
    then joined (take keep (p ∷ problems))
    else joined (p ∷ problems)

-- `probeErr.Stage != StageProtocol`, for an error that is a `*Error`.
unfoldable pub is_final : Failure → Bool
is_final e = elim e.marked [
  | none ↦ false
  | some m ↦ elim (m.0) [ stage_dial ↦ true | stage_handshake ↦ true | stage_protocol ↦ false ]
]

-- The world around the loop: one attempt, whether the window has passed before the candidate of an
-- index, the error of the context behind it, and the text of a problem.
pub record World (O : Type 0) : Type 0 where
  pub attempt : ℕ → Candidate → Result Failure O
  pub late : ℕ → Bool
  pub ended : ℕ → Option Fault
  pub problem : Candidate → Failure → Bytes

module _ {O : Type 0} (w : World O) where
  -- Behind the loop.
  unfoldable pub give_up : List Bytes → Option Failure → Result Failure O
  give_up problems last =
      err (fail_as stage_protocol (kind_of last) (plain_fault (summarize problems 3)))

  -- The loop, from the candidate of index `i` on.
  unfoldable pub try_from : ℕ → List Candidate → List Bytes → Option Failure → Result Failure O
  try_from i [] problems last = give_up problems last
  try_from i (cand ∷ candidates) problems last =
      if ltb 0 i && w.late i
      then give_up (problems ++ (codes "candidate budget exhausted" ∷ [])) last
      else elim (w.attempt i cand) [
        | ok outcome ↦ ok outcome
        | err e ↦ if is_final e then err e else elim (w.ended i) [
          | some x ↦ err (fail stage_dial x)
          | none ↦ try_from (suc i) candidates (problems ++ (w.problem cand e ∷ [])) (some e)
        ]
      ]

  unfoldable pub probe_mtproto : SecretMode → ℕ → Result Failure O
  probe_mtproto mode max_candidates = try_from 0 (candidates_of mode max_candidates) [] none

-- `budget`, `candidateWindow` and `TotalBudget`.
pub record Settings : Type 0 where
  pub timeout : ℕ
  pub depth : Depth
  pub pings : ℕ
  pub inspect : Bool
  pub speedtest : Bool
  pub hold : ℕ

unfoldable pub budget : Settings → ℕ
budget c = elim (c.depth) [
  | quick ↦ c.timeout
  | full ↦
      4 * c.timeout
      + (if c.inspect then 2 * c.timeout else 0)
      + (if c.speedtest then 2 * c.timeout else 0)
      + c.hold
]

unfoldable pub candidate_window : Settings → ℕ
candidate_window c = elim (c.depth) [ quick ↦ 2 * c.timeout | full ↦ 3 * c.timeout ]

unfoldable pub total_budget : Settings → ℕ
total_budget c = candidate_window c + budget c + c.timeout

unfoldable pub pings : Settings → ℕ
pings c = if c.pings == 0 then 3 else c.pings

-- What each step of a full handshake would give; the later ones are not taken where an earlier one
-- ends the handshake.
pub record Steps (Nearest Config Speed Stability Stats : Type 0) : Type 0 where
  pub skew : Result Fault ℤ
  pub respq : ℕ
  pub session : Result Fault (Unit {0})
  pub ping : Result Fault Stats
  pub nearest : Result Fault Nearest
  pub config : Result Fault Config
  pub speed : Result Fault Speed
  pub stability : Stability

pub record StageResults (Nearest Config Speed Stability Stats : Type 0) : Type 0 where
  pub skew : ℤ
  pub respq : ℕ
  pub ping : Stats
  pub nearest : Option Nearest
  pub config : Option Config
  pub speed : Option Speed
  pub stability : Option Stability

-- `if …, err := …; err == nil`: the value, where there is one and it is asked for.
unfoldable pub if_asked : {A : Type 0} → Bool → Result Fault A → Option A
if_asked false r = none
if_asked true (ok a) = some a
if_asked true (err e) = none

abbrev pub at_protocol : {A : Type 0} → Result Fault A → Result Failure A
at_protocol (ok a) = ok a
at_protocol (err e) = err (fail stage_protocol e)

-- The nearest data centre is the one inspection whose failure ends the handshake.
unfoldable pub ask_nearest :
    {Nearest : Type 0} → Bool → Result Fault Nearest → Result Failure (Option Nearest)
ask_nearest false r = ok none
ask_nearest true (ok a) = ok (some a)
ask_nearest true (err e) = err (fail stage_protocol e)

module _ {Nearest Config Speed Stability Stats : Type 0} where
  unfoldable pub full_handshake :
      Settings
      → ℕ
      → Steps Nearest Config Speed Stability Stats
      → Result Failure (StageResults Nearest Config Speed Stability Stats)
  full_handshake c api_id s = do
    skew ← at_protocol s.skew
    _ ← at_protocol s.session
    stats ← at_protocol s.ping
    nearest ← ask_nearest (c.inspect && not (api_id == 0)) s.nearest
    ok (record {
      skew = skew;
      respq = s.respq;
      ping = stats;
      nearest = nearest;
      config = if_asked (c.inspect && not (api_id == 0)) s.config;
      speed = if_asked (c.speedtest && not (api_id == 0)) s.speed;
      stability = if ltb 0 c.hold then some s.stability else none;
    })
