-- ===== src/Webproxy/Https/Repeated.antt =====
-- A batch over HTTPS is repeated as it is, under one sequence number.
use mtproto_checker.Common.{
  All, Bool, Bytes, List, Result, [], ap, arith, false, length, none, ok, refl, suc, true, zero, ℕ,
  ◌==◌, ◌∷◌, ◌≡◌, ◌↔◌, ◌≢◌, ◌≤◌, ◌⊎◌, ◌∙◌, inl, inr, err, sym, Bool-cases, ◌||◌, ==_iff,
}
use mtproto_checker.Common.Text.{codes}
use mtproto_checker.Mtproto.Probe.{Fault}
use mtproto_checker.Webproxy.Http.{Net, Request, Response}
use mtproto_checker.Webproxy.Https.{
  HttpCarrier, Sent, bumped, after_pause, after_try, Tried, busy, failed, retry_delay, send,
  send_from, taken, try_once, up_request, answered, uplink_answer,
}

-- The relay took the request within `left` rounds, with a status that says so: it was busy for a
-- while, and each time the timer came before the end of the context.
pub data Taken {W : Type 0} (net : Net W) (r : Request)
    : ℕ → ℕ → W → List Request → W → Type 0 where
  now :
      {left attempt : ℕ} {w w' : W} (resp : Response)
      → net.send_request r w ≡ (ok resp, w')
      → (resp.status_code ≡ 204) ⊎ (resp.status_code ≡ 200)
      → Taken net r (suc left) attempt w (r ∷ []) w'
  again :
      {left attempt : ℕ} {w w1 w2 w' : W} {sent : List Request} (resp : Response)
      → net.send_request r w ≡ (ok resp, w1)
      → resp.status_code ≡ 503
      → net.sleep (retry_delay (resp.header (codes "Retry-After")) attempt) w1 ≡ (true, w2)
      → Taken net r left (suc attempt) w2 sent w'
      → Taken net r (suc left) attempt w (r ∷ sent) w'

uplink_answer-taken :
    (resp : Response)
    → uplink_answer resp ≡ taken
    → (resp.status_code ≡ 204) ⊎ (resp.status_code ≡ 200)
unfolding uplink_answer
uplink_answer-taken resp e = elim (Bool-cases (resp.status_code == 204)) [
  | inl no_content ↦ inl ((==_iff resp.status_code 204).0 no_content)
  | inr other ↦ elim (Bool-cases (resp.status_code == 200)) [
    | inl fine ↦ inr ((==_iff resp.status_code 200).0 fine)
    | inr neither ↦ elim (Bool-cases (resp.status_code == 503)) [
      | inl refused ↦ let wrong = rw (uplink_answer, other, neither, refused) at e in cc
      | inr strange ↦ let wrong = rw (uplink_answer, other, neither, strange) at e in cc
    ]
  ]
]

busy_cancel : (x y : Bytes) → busy x ≡ busy y → x ≡ y
busy_cancel x y e = cc

uplink_answer-busy :
    (resp : Response) (after : Bytes)
    → uplink_answer resp ≡ busy after
    → (resp.status_code ≡ 503) × (resp.header (codes "Retry-After") ≡ after)
unfolding uplink_answer
uplink_answer-busy resp after e =
    elim (Bool-cases (resp.status_code == 204 || resp.status_code == 200)) [
      | inl fine ↦ let wrong = rw (uplink_answer, fine) at e in cc
      | inr other ↦ elim (Bool-cases (resp.status_code == 503)) [
        | inl refused ↦ (
          (==_iff resp.status_code 503).0 refused,
          busy_cancel _ after (rw (uplink_answer, other, refused) at e),
        )
        | inr strange ↦ let wrong = rw (uplink_answer, other, strange) at e in cc
      ]
    ]

taken-uplink_answer :
    (resp : Response)
    → (resp.status_code ≡ 204) ⊎ (resp.status_code ≡ 200)
    → uplink_answer resp ≡ taken
unfolding uplink_answer
taken-uplink_answer resp k = ground (arith, k)

busy-uplink_answer :
    (resp : Response)
    → resp.status_code ≡ 503
    → uplink_answer resp ≡ busy (resp.header (codes "Retry-After"))
unfolding uplink_answer
busy-uplink_answer resp k = ground (arith, k)

module _ {W : Type 0} (net : Net W) (r : Request) where
  -- What a run of the loop has shown.
  pub record IsRun (left attempt : ℕ) (w : W) (run : Result Fault (Unit {0}) × List Request × W)
      : Type 0 where
    pub same : All (λ q. q ≡ r) run.1
    pub few : length run.1 ≤ left
    pub if_taken : run.0 ≡ ok tt → Taken net r left attempt w run.1 run.2

  -- The answer behind a try.
  try_once-answer :
      (w w1 : W) (t : Tried)
      → try_once net r w ≡ (t, w1)
      → ((x : Fault) × (t ≡ failed x))
        ⊎ ((resp : Response) × (net.send_request r w ≡ (ok resp, w1)) × (uplink_answer resp ≡ t))
  unfolding try_once
  try_once-answer w w1 t e = go (net.send_request r w) refl e
    where
      go :
          (got : Result Fault Response × W)
          → net.send_request r w ≡ got
          → answered net got ≡ (t, w1)
          → ((x : Fault) × (t ≡ failed x))
            ⊎ ((resp : Response) × (net.send_request r w ≡ (ok resp, w1))
                × (uplink_answer resp ≡ t))
      go (err x, w2) came h = inl (x, sym (ap (λ k. k.0) h))
      go (ok resp, w2) came h = inr (resp, came ∙ ap (λ k. (ok resp, k.1)) h, ap (λ k. k.0) h)

  Taken-send_from :
      {left attempt : ℕ} {w w' : W} {sent : List Request}
      → Taken net r left attempt w sent w'
      → send_from net left attempt r w ≡ (ok tt, sent, w')
  unfolding send_from after_try after_pause try_once
  Taken-send_from (now resp came good) = rw (came, taken-uplink_answer resp good) refl
  Taken-send_from (again resp came refused slept later) =
      rw (came, busy-uplink_answer resp refused, slept, Taken-send_from later) refl

  after_pause-IsRun :
      (left attempt : ℕ) (w w1 : W) (after : Bytes) (pause : Bool × W)
      → try_once net r w ≡ (busy after, w1)
      → net.sleep (retry_delay after attempt) w1 ≡ pause
      → IsRun left (suc attempt) pause.1 (send_from net left (suc attempt) r pause.1)
      → IsRun (suc left) attempt w (after_pause net (send_from net left (suc attempt) r) r pause)
  unfolding after_pause
  after_pause-IsRun left attempt w w1 after (true, w2) t s k = record {
    same = (refl, k.same);
    few = omega (arith, k.few);
    if_taken = λ e. elim (try_once-answer w w1 (busy after) t) [
      | inl (x, wrong) ↦ cc
      | inr (resp, came, said) ↦
          let (code, header) = uplink_answer-busy resp after said in
          again resp came code (ap (λ a. net.sleep (retry_delay a attempt) w1) header ∙ s)
            (k.if_taken e)
    ];
  }
  after_pause-IsRun left attempt w w1 after (false, w2) t s k = record {
    same = (refl, tt);
    few = omega arith;
    if_taken = λ e. cc;
  }

  after_try-IsRun :
      (left attempt : ℕ) (w : W) (got : Tried × W)
      → try_once net r w ≡ got
      → ((w2 : W) → IsRun left (suc attempt) w2 (send_from net left (suc attempt) r w2))
      → IsRun
          (suc left)
          attempt
          w
          (after_try net (send_from net left (suc attempt) r) attempt r got)
  unfolding after_try
  after_try-IsRun left attempt w (taken, w1) t ih = record {
    same = (refl, tt);
    few = omega arith;
    if_taken = λ e. elim (try_once-answer w w1 taken t) [
      | inl (x, wrong) ↦ cc
      | inr (resp, came, said) ↦ now resp came (uplink_answer-taken resp said)
    ];
  }
  after_try-IsRun left attempt w (failed x, w1) t ih = record {
    same = (refl, tt);
    few = omega arith;
    if_taken = λ e. cc;
  }
  after_try-IsRun left attempt w (busy after, w1) t ih =
      let pause = net.sleep (retry_delay after attempt) w1 in
      after_pause-IsRun left attempt w w1 after pause t refl (ih pause.1)

  send_from-IsRun :
      (left attempt : ℕ) (w : W) → IsRun left attempt w (send_from net left attempt r w)
  unfolding send_from
  send_from-IsRun zero attempt w = record { same = tt; few = omega arith; if_taken = λ e. cc }
  send_from-IsRun (suc left) attempt w =
      after_try-IsRun left attempt w (try_once net r w) refl (send_from-IsRun left (suc attempt))

module _ {W : Type 0} (net : Net W) (itoa : ℕ → Bytes) where
  -- A batch that is not empty, for a URL that is taken, is sent under the next sequence number: in at
  -- most four requests, which are all the same and carry that number and the batch. It is reported as
  -- sent exactly if the relay answered one of them with 200 or 204, having answered each one before it
  -- with 503 and been waited for.
  pub send-IsRepeated :
      (h : HttpCarrier) (frames : Bytes) (w : W)
      → frames ≢ []
      → net.takes_url (up_request itoa (bumped h) (suc h.up_seq) frames).url ≡ none
      → (let r = up_request itoa (bumped h) (suc h.up_seq) frames in
          let (h', (result, sent, w')) = send net itoa h frames w in
          (h' ≡ bumped h)
          × All (λ q. q ≡ r) sent
          × (length sent ≤ 4)
          × ((result ≡ ok tt) ↔ Taken net r 4 0 w sent w'))
  unfolding send
  send-IsRepeated h [] w given url = absurd (given refl)
  send-IsRepeated h (x ∷ frames) w given url =
      let r = up_request itoa (bumped h) (suc h.up_seq) (x ∷ frames) in
      let run = send_from-IsRun net r 4 0 w in
      let some_bytes : (length (x ∷ frames) == 0) ≡ false = ground arith in
      rw (send, some_bytes, url)
        (
          refl,
          run.same,
          run.few,
          (run.if_taken, λ t. ap (λ (s : Sent W). s.0) (Taken-send_from net r t)),
        )
