-- ===== src/Webproxy/Steps.antt =====
-- What the steps of a dial share (internal/webproxy/carrier.go): their errors, the digests, and steps
-- over a network in a state of type `W`.
use mtproto_checker.Common.{Bytes, Result, err, ok, ◌++◌}
use mtproto_checker.Mtproto.Probe.{Fault}

pub data Stage : Type 0 where
  stage_bridge stage_session stage_stream : Stage

-- `*Error`
pub record Failure : Type 0 where
  pub stage : Stage
  pub fault : Fault

abbrev pub failure : Stage → Fault → Failure
failure stage fault = record { stage = stage; fault = fault }

-- A text in front of a wrapped error.
abbrev pub behind : Bytes → Fault → Fault
behind text e = record e { text = text ++ e.text }

pub record Crypto : Type 0 where
  pub hmac_sha256 : Bytes → Bytes → Bytes
  pub sha1 : Bytes → Bytes
  pub base64_url : Bytes → Bytes
  pub base64_std : Bytes → Bytes

-- A step that may fail, and where it leaves the network.
abbrev pub Step : Type 0 → Type 0 → Type 0
Step W A = W → Result Failure A × W

abbrev pub next : {W A B : Type 0} → (A → Step W B) → Result Failure A × W → Result Failure B × W
next f (ok a, w) = f a w
next f (err e, w) = (err e, w)

infixl 5 ◌>>=◌
abbrev pub ◌>>=◌ : {W A B : Type 0} → Step W A → (A → Step W B) → Step W B
◌>>=◌ m f w = next f (m w)

abbrev pub give : {W A : Type 0} → Result Failure A → Step W A
give r w = (r, w)
