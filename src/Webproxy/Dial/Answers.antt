-- ===== src/Webproxy/Dial/Answers.antt =====
-- What an answer that the dial takes holds (`fetchBridge` and `createSession` of
-- internal/webproxy/carrier.go).
use mathlib.Core.Path.{subst}
use mtproto_checker.Common.{
  ==_iff, Bool-cases, Bytes, List, Option-cases, Result, Result-cases, [], ap, err, false, inl, inr,
  none, ok, ok_cancel, refl, some, true, ◌==◌, ◌∙◌, ◌∷◌, ◌≡◌,
}
use mtproto_checker.Common.Guards.{err-ne-ok}
use mtproto_checker.Common.Text.{codes, is_empty}
use mtproto_checker.Mtproto.Probe.{plain_fault}
use mtproto_checker.Webproxy.Errors
use mtproto_checker.Webproxy.Frame.{Frame, decode_frames, frame_welcome}
use mtproto_checker.Webproxy.Http.{Response}
use mtproto_checker.Webproxy.Steps.{failure, stage_bridge}
use mtproto_checker.Webproxy.Websocket.{max_body_bytes}
use mtproto_checker.Webproxy.Dial.{
  Page, check_welcome, no_token, read_bridge, read_page, read_session, read_token,
}

-- A page of a bridge: the status is 200, and its token stands in the body.
pub record IsBridge (page : Page) (resp : Response) (token : Bytes) : Type 0 where
  pub body : Bytes
  pub status_ok : resp.status_code ≡ 200
  pub came : resp.read max_body_bytes ≡ ok body
  pub has_token : page.bootstrap body ≡ some token

-- The answer that creates a session: the status is 200, the token is not empty, and the body is one
-- WELCOME frame.
pub record IsSession (resp : Response) (session : Bytes) : Type 0 where
  pub body : Bytes
  pub welcome : Frame
  pub status_ok : resp.status_code ≡ 200
  pub came : resp.read max_body_bytes ≡ ok body
  pub token : resp.header (codes "X-Session-Token") ≡ session
  pub token_given : is_empty session ≡ false
  pub frames : decode_frames body ≡ ok (welcome ∷ [])
  pub welcomes : welcome.kind ≡ frame_welcome

read_page-ok :
    (page : Page) (body : Bytes) (r : Bytes × Bytes)
    → read_page page body ≡ ok r
    → page.bootstrap body ≡ some r.0
unfolding read_page
read_page-ok page body r e = elim (Option-cases (page.bootstrap body)) [
  | inl f ↦ absurd (err-ne-ok (rw (f, read_page) at e))
  | inr (token, f) ↦
      let same = ok_cancel _ _ (rw (f, read_page) at e) in
      f ∙ ap (λ (k : Bytes × Bytes). some (k.0)) same
]

pub read_bridge-IsBridge :
    (page : Page) (resp : Response) (r : Bytes × Bytes)
    → read_bridge page resp ≡ ok r
    → IsBridge page resp r.0
unfolding read_bridge
read_bridge-IsBridge page resp r e = elim (Result-cases (resp.read max_body_bytes)) [
  | inr (x, f) ↦ absurd (err-ne-ok (rw (f, read_bridge) at e))
  | inl (body, f) ↦ elim (Bool-cases (resp.status_code == 200)) [
    | inr other ↦ absurd (err-ne-ok (rw (f, other, read_bridge) at e))
    | inl good ↦ record {
      body = body;
      status_ok = (==_iff resp.status_code 200).0 good;
      came = f;
      has_token = read_page-ok page body r (rw (f, good, read_bridge) at e);
    }
  ]
]

check_welcome-ok :
    (page : Page) (body : Bytes) (u : Unit {0})
    → check_welcome page body ≡ ok u
    → (f : Frame) × (decode_frames body ≡ ok (f ∷ [])) × (f.kind ≡ frame_welcome)
unfolding check_welcome
check_welcome-ok page body u e = go (decode_frames body) refl
  where
    go :
        (r : Result Errors.Error (List Frame))
        → decode_frames body ≡ r
        → (f : Frame) × (decode_frames body ≡ ok (f ∷ [])) × (f.kind ≡ frame_welcome)
    go (err x) d = absurd (err-ne-ok (rw (d, check_welcome) at e))
    go (ok []) d = absurd (err-ne-ok (rw (d, check_welcome) at e))
    go (ok (f ∷ [])) d = elim (Bool-cases (f.kind == frame_welcome)) [
      | inl good ↦ (f, d, (==_iff f.kind frame_welcome).0 good)
      | inr other ↦ absurd (err-ne-ok (rw (d, other, check_welcome) at e))
    ]
    go (ok (f ∷ g ∷ fs)) d = absurd (err-ne-ok (rw (d, check_welcome) at e))

read_token-IsSession :
    (page : Page) (mode : Bytes) (resp : Response) (body : Bytes) (r : Bytes × Bytes)
    → resp.status_code ≡ 200
    → resp.read max_body_bytes ≡ ok body
    → read_token page mode resp body ≡ ok r
    → IsSession resp r.0
unfolding read_token
read_token-IsSession page mode resp body r good f e =
    let session = resp.header (codes "X-Session-Token") in
    elim (Bool-cases (is_empty session)) [
      | inl missing ↦ absurd (err-ne-ok (rw (missing, read_token) at e))
      | inr given ↦ elim (Result-cases (check_welcome page body)) [
        | inr (x, w) ↦ absurd (err-ne-ok (rw (given, w, read_token) at e))
        | inl (u, w) ↦
            let (frame, frames, kind) = check_welcome-ok page body u w in
            subst (λ (k : Bytes × Bytes). IsSession resp k.0)
              (ok_cancel _ _ (rw (given, w, read_token) at e))
              (record {
                body = body;
                welcome = frame;
                status_ok = good;
                came = f;
                token = refl;
                token_given = given;
                frames = frames;
                welcomes = kind;
              })
      ]
    ]

pub read_session-IsSession :
    (page : Page) (mode : Bytes) (resp : Response) (r : Bytes × Bytes)
    → read_session page mode resp ≡ ok r
    → IsSession resp r.0
unfolding read_session
read_session-IsSession page mode resp r e = elim (Result-cases (resp.read max_body_bytes)) [
  | inr (x, f) ↦ absurd (err-ne-ok (rw (f, read_session) at e))
  | inl (body, f) ↦ elim (Bool-cases (resp.status_code == 200)) [
    | inr other ↦ absurd (err-ne-ok (rw (f, other, read_session) at e))
    | inl good ↦
        read_token-IsSession page mode resp body r ((==_iff resp.status_code 200).0 good) f
          (rw (f, good, read_session) at e)
  ]
]

pub read_bridge-no_token :
    (page : Page) (resp : Response) (body : Bytes)
    → resp.read max_body_bytes ≡ ok body
    → resp.status_code ≡ 200
    → page.bootstrap body ≡ none
    → read_bridge page resp ≡ err (failure stage_bridge (plain_fault no_token))
unfolding read_bridge read_page
read_bridge-no_token page resp body read good none_there =
    let status : (resp.status_code == 200) ≡ true = (==_iff resp.status_code 200).1 good in
    rw (read_bridge, read, status, read_page, none_there) refl
