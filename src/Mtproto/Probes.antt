-- ===== src/Mtproto/Probes.antt =====
-- What a target is probed with: `Probe`, `probeTCP` and the route of an outcome (internal/mtproto/
-- probe.go), the loop of internal/mtproto/socks5.go over the data centres, and
-- internal/mtproto/webproxy.go. What is behind a connection is an argument, in a state of type `W`;
-- so are the contexts' errors and the texts of numbers. Durations are left out.
pub mod Rejected
mod Tests
use mtproto_checker.Common.{
  Bool, Bytes, List, Option, Result, [], err, false, if◌then◌else◌, length, map, none, not, ok,
  some, take, true, ℕ, ◌&&◌, ◌++◌, ◌==◌, ◌∷◌,
}
use mtproto_checker.Common.Text.{codes, contains, is_empty, ℤ, pos}
use mtproto_checker.Proxy.Link.{Kind, Target, mtproto, socks5, tcp, web_proxy}
use mtproto_checker.Proxy.Secret.{SecretMode, mode_fake_tls, mode_none, mode_plain, mode_secure}
use mtproto_checker.Mtproto.Probe.{
  Candidate, Depth, Failure, Fault, StageResults, fail, fail_as, full, is_final, kind_closed,
  kind_handshake, kind_of, kind_secret_rejected, plain_fault, quick, stage_dial, stage_handshake,
  stage_protocol, summarize,
}
use mtproto_checker.Mtproto.Transport.{Transport, abridged, intermediate, padded_intermediate}
use mtproto_checker.Webproxy.Dial.{Dialled, Page, dial}
use mtproto_checker.Webproxy.Http.{Net}
use mtproto_checker.Webproxy.Steps
use mtproto_checker.Webproxy.Upgrade.{Socket}

-- The field `name`.
abbrev pub name_of : Transport → Bytes
name_of intermediate = codes "intermediate"
name_of abridged = codes "abridged"
name_of padded_intermediate = codes "padded"

pub record Route : Type 0 where
  pub protocol : Bytes
  pub dc : ℕ
  pub transport : Bytes
  pub via : Bytes
  pub depth : Depth
  pub server_time_skew : ℤ

unfoldable pub base : (ℕ → Bytes) → Route → Bytes
base itoa r =
    if not (is_empty r.via)
    then r.protocol ++ (codes " -> " ++ r.via)
    else if not (r.dc == 0)
    then r.protocol ++ (codes " dc" ++ (itoa r.dc ++ (codes "/" ++ r.transport)))
    else r.protocol

-- `Route.String`
unfoldable pub route_text : (ℕ → Bytes) → Route → Bytes
route_text itoa r = base itoa r ++ elim (r.depth) [ full ↦ codes " +authkey" | quick ↦ [] ]

-- The route of a TCP probe; its other fields are left as they are.
abbrev pub tcp_route : Route
tcp_route = record {
  protocol = codes "tcp";
  dc = 0;
  transport = [];
  via = [];
  depth = quick;
  server_time_skew = pos 0;
}

-- `probeTCP`: what the dial, the write and the read of one byte give.
unfoldable pub probe_tcp :
    Result Failure (Unit {0})
    → Result Fault (Unit {0})
    → Result Fault (Unit {0})
    → Result Failure Route
probe_tcp (err e) wrote read = err e
probe_tcp (ok _) (err e) read = err (fail stage_handshake e)
probe_tcp (ok _) (ok _) (ok _) = ok tcp_route
probe_tcp (ok _) (ok _) (err e) =
    if not e.timeout
    then err (
        fail_as stage_handshake kind_closed
          (record e { text = codes "connection closed after TCP probe: " ++ e.text }))
    else ok tcp_route

-- `telegramDCs`
abbrev pub telegram_dcs : List (ℕ × Bytes)
telegram_dcs =
    (2, codes "149.154.167.51:443")
    ∷ (1, codes "149.154.175.53:443")
    ∷ (4, codes "149.154.167.91:443")
    ∷ (3, codes "149.154.175.100:443")
    ∷ (5, codes "91.108.56.130:443")
    ∷ []

-- `probeErr.Stage == StageHandshake`, for an error that is a `*Error`.
abbrev pub at_handshake : Failure → Bool
at_handshake e = elim e.marked [
  | none ↦ false
  | some m ↦ elim (m.0) [ stage_dial ↦ false | stage_handshake ↦ true | stage_protocol ↦ false ]
]

-- The loop of `probeSocks5`: `connect` is `c.dial`, and `attempt` is `socks5Attempt` for the number and
-- the address of a data centre.
module _ {W O : Type 0} (connect : W → Result Failure (Unit {0}) × W)
    (attempt : ℕ → Bytes → W → Result Failure O × W) (ended : W → Option Fault) where
  unfoldable pub socks5_from :
      List (ℕ × Bytes) → List Bytes → Option Failure → W → Result Failure O × W
  socks5_from [] problems last w =
      (err (fail_as stage_protocol (kind_of last) (plain_fault (summarize problems 3))), w)
  socks5_from ((dc, addr) ∷ dcs) problems last w =
      let (dialled, w1) = connect w in
      let (got, w2) = attempt dc addr w1 in
      elim dialled [
        | err e ↦ (err e, w1)
        | ok _ ↦ elim got [
          | ok outcome ↦ (ok outcome, w2)
          | err e ↦ if at_handshake e then (err e, w2) else elim (ended w2) [
            | some x ↦ (err (fail stage_dial x), w2)
            | none ↦
                socks5_from dcs (problems ++ ((addr ++ (codes ": " ++ e.fault.text)) ∷ [])) (some e)
                  w2
          ]
        ]
      ]

  unfoldable pub probe_socks5 : W → Result Failure O × W
  probe_socks5 = socks5_from telegram_dcs [] none

unfoldable pub is_secret_rejection : Fault → Bool
is_secret_rejection e = contains (codes "secret does not match") e.text

-- `webProxyError`; each error of a dial has a stage.
unfoldable pub web_proxy_error : Steps.Failure → Failure
web_proxy_error e = elim e.stage [
  | Steps.stage_bridge ↦
      if is_secret_rejection e.fault
      then fail_as stage_handshake kind_secret_rejected e.fault
      else fail stage_dial e.fault
  | Steps.stage_session ↦ fail_as stage_handshake kind_handshake e.fault
  | Steps.stage_stream ↦ fail stage_protocol e.fault
]

-- The framings, of which the first two are tried.
abbrev pub web_order : SecretMode → List Transport
web_order mode_secure = padded_intermediate ∷ intermediate ∷ abridged ∷ []
web_order mode_plain = intermediate ∷ abridged ∷ padded_intermediate ∷ []
web_order mode_none = intermediate ∷ abridged ∷ padded_intermediate ∷ []
web_order mode_fake_tls = intermediate ∷ abridged ∷ padded_intermediate ∷ []

-- `shake` is `handshake` over the carrier that a dial opened.
module _ {W Nearest Config Speed Stability Stats : Type 0} (depth : Depth) (net : Net W)
    (page : Page) (crypto : Steps.Crypto) (socket : Socket W)
    (shake : Dialled
      → Candidate
      → W
      → Result Failure (StageResults Nearest Config Speed Stability Stats) × W)
    (ended : W → Option Fault) where
  abbrev web_route : Candidate → Dialled → StageResults Nearest Config Speed Stability Stats → Route
  web_route cand d stages = record {
    protocol = codes "webproxy";
    dc = cand.dc;
    transport = name_of cand.framing;
    via = d.mode;
    depth = depth;
    server_time_skew = stages.skew;
  }

  abbrev pub shaken :
      Candidate
      → Dialled
      → Result Failure (StageResults Nearest Config Speed Stability Stats) × W
      → Result Failure (Route × StageResults Nearest Config Speed Stability Stats) × W
  shaken cand d (err e, w) = (err e, w)
  shaken cand d (ok stages, w) = (ok (web_route cand d stages, stages), w)

  abbrev pub over_carrier :
      Candidate
      → Result Steps.Failure Dialled × W
      → Result Failure (Route × StageResults Nearest Config Speed Stability Stats) × W
  over_carrier cand (err e, w) = (err (web_proxy_error e), w)
  over_carrier cand (ok d, w) = shaken cand d (shake d cand w)

  unfoldable pub attempt_web_proxy :
      Target
      → Candidate
      → W
      → Result Failure (Route × StageResults Nearest Config Speed Stability Stats) × W
  attempt_web_proxy t cand w =
      over_carrier cand (dial net page crypto socket t.host t.secret_bytes w)

  unfoldable pub web_proxy_from :
      Target
      → List Transport
      → List Bytes
      → Option Failure
      → W
      → Result Failure (Route × StageResults Nearest Config Speed Stability Stats) × W
  web_proxy_from t [] problems last w =
      (err (fail_as stage_protocol (kind_of last) (plain_fault (summarize problems 2))), w)
  web_proxy_from t (tr ∷ trs) problems last w =
      let (got, w1) = attempt_web_proxy t (record { dc = 2; framing = tr }) w in
      elim got [
        | ok outcome ↦ (ok outcome, w1)
        | err e ↦ if is_final e then (err e, w1) else elim (ended w1) [
          | some x ↦ (err (fail stage_dial x), w1)
          | none ↦
              web_proxy_from t trs (problems ++ ((name_of tr ++ (codes ": " ++ e.fault.text)) ∷ []))
                (some e) w1
        ]
      ]

  unfoldable pub probe_web_proxy :
      Target
      → SecretMode
      → W
      → Result Failure (Route × StageResults Nearest Config Speed Stability Stats) × W
  probe_web_proxy t mode = web_proxy_from t (take 2 (web_order mode)) [] none

-- `Probe`, of what each of the four probes would give.
abbrev pub probe : {A : Type 0} → Kind → A → A → A → A → A
probe web_proxy w s m t = w
probe socks5 w s m t = s
probe mtproto w s m t = m
probe tcp w s m t = t
