-- ===== src/Webproxy/Carrier/Bytestream.antt =====
-- What a client reads from the carrier is the bytes that the relay sent for its stream, in order.
use mtproto_checker.Common.{
  Bool-cases, Bytes, List, Option-cases, Result, Result-cases, [], ap, append-nil, append_assoc,
  arith, drop, err, false, if◌then◌else◌, inl, inr, leb, length, none, ok, refl, some, sym, take,
  take-append-drop, true, ℕ, ◌%◌, ◌&&◌, ◌++◌, ◌+◌, ◌==◌, ◌^◌, ◌∙◌, ◌∷◌, ◌≡◌,
}
use mtproto_checker.Webproxy.Errors.{Error, no_more_input, session_closed}
use mtproto_checker.Webproxy.Frame.{
  Frame, decode_frames, encode_frame, frame_bye, frame_data, frame_pong, frame_window,
}
use mtproto_checker.Webproxy.Carrier.{
  Carrier, Received, deliver, end_lane, file_answer, file_frame, file_frames, grant_window, is_none,
  pump, read_from, send_control, stops, stream_id, take_window_grant, window_grant_min,
}
use mtproto_checker.Mtproto.Binary.{uint32_be_bytes}

-- The bytes that a frame brings to the stream.
unfoldable pub arrived : Frame → Bytes
arrived f = if f.kind == frame_data && f.stream == stream_id then f.payload else []

-- Those of the frames up to a `BYE`.
unfoldable pub arrived_all : List Frame → Bytes
arrived_all [] = []
arrived_all (f ∷ fs) = arrived f ++ (if f.kind == frame_bye then [] else arrived_all fs)

-- Those of what the transport gave: none where it failed, or where the frames are malformed.
unfoldable pub received_bytes : Result Error Bytes → Bytes
received_bytes (err e) = []
received_bytes (ok []) = []
received_bytes (ok (x ∷ body)) = elim (decode_frames (x ∷ body)) [
  | ok fs ↦ arrived_all fs
  | err e ↦ []
]

unfoldable pub received_all : List Received → Bytes
received_all [] = []
received_all (r ∷ bodies) = received_bytes r.answer ++ received_all bodies

-- The bytes of one result of `Read`.
unfoldable pub handed : Result Error Bytes → Bytes
handed (ok p) = p
handed (err e) = []

send_control-read_buf : (batch : Bytes) (c : Carrier) → (send_control batch c).read_buf ≡ c.read_buf
unfolding send_control
send_control-read_buf batch c = ground arith

grant_window-read_buf : (c : Carrier) → (grant_window c).read_buf ≡ c.read_buf
unfolding grant_window take_window_grant
grant_window-read_buf c = elim (Bool-cases (leb c.window_debt 0)) [
  | inl none_due ↦ rw none_due (send_control-read_buf [] c)
  | inr due ↦
      let (grant, c1) = take_window_grant 0 c in
      rw due (
        send_control-read_buf (encode_frame frame_window stream_id (uint32_be_bytes c.window_debt))
          (record c { window_debt = 0 }))
]

deliver-read_buf : (n : ℕ) (c : Carrier) → (deliver n c).0 ++ (deliver n c).1.read_buf ≡ c.read_buf
unfolding deliver
deliver-read_buf n c =
    let debt = (c.window_debt + length (take n c.read_buf)) % 2 ^ 32 in
    let c1 : Carrier = record c { read_buf = drop n c.read_buf; window_debt = debt } in
    elim (Bool-cases (leb window_grant_min debt)) [
      | inl due ↦ rw due (
          ap (λ k. take n c.read_buf ++ k) (grant_window-read_buf c1)
          ∙ take-append-drop n c.read_buf)
      | inr early ↦ rw early (take-append-drop n c.read_buf)
    ]

file_frame-read_buf :
    (f : Frame) (c : Carrier) → (file_frame f c).1.read_buf ≡ c.read_buf ++ arrived f
unfolding file_frame arrived
file_frame-read_buf f c =
    ground
      (arith, append-nil c.read_buf, send_control-read_buf (encode_frame frame_pong 0 f.payload) c)

file_frame-bye :
    (f : Frame) (c : Carrier)
    → f.kind == frame_bye ≡ true
    → (file_frame f c).0 ≡ some (session_closed f.payload)
unfolding file_frame
file_frame-bye f c e = ground (arith, e)

file_frame-calm :
    (f : Frame) (c : Carrier) → f.kind == frame_bye ≡ false → (file_frame f c).0 ≡ none
unfolding file_frame
file_frame-calm f c e = ground (arith, e)

file_frames-read_buf :
    (fs : List Frame) (c : Carrier) → (file_frames fs c).1.read_buf ≡ c.read_buf ++ arrived_all fs
unfolding file_frames arrived_all
file_frames-read_buf [] c = sym (append-nil c.read_buf)
file_frames-read_buf (f ∷ fs) c =
    let (e, c1) = file_frame f c in
    let one = file_frame-read_buf f c in
    elim (Bool-cases (f.kind == frame_bye)) [
      | inl last ↦
          rw (file_frames, file_frame-bye f c last, last)
            (one ∙ ap (λ k. c.read_buf ++ k) (sym (append-nil (arrived f))))
      | inr more ↦
          rw (file_frames, file_frame-calm f c more, more)
            (file_frames-read_buf fs c1
              ∙ ap (λ k. k ++ arrived_all fs) one
              ∙ append_assoc c.read_buf (arrived f) (arrived_all fs))
    ]

file_answer-read_buf :
    (r : Result Error Bytes) (c : Carrier)
    → (file_answer r c).1.read_buf ≡ c.read_buf ++ received_bytes r
unfolding file_answer received_bytes
file_answer-read_buf (err e) c = sym (append-nil c.read_buf)
file_answer-read_buf (ok []) c = sym (append-nil c.read_buf)
file_answer-read_buf (ok (x ∷ body)) c = elim (Result-cases (decode_frames (x ∷ body))) [
  | inl (fs, good) ↦ rw (file_answer, received_bytes, good) (file_frames-read_buf fs c)
  | inr (e, bad) ↦ rw (file_answer, received_bytes, bad) (sym (append-nil c.read_buf))
]

-- The end of the lane leaves the bytes that came before it.
end_lane-read_buf : (r : Received) (c : Carrier) → (end_lane r c).read_buf ≡ c.read_buf
unfolding end_lane
end_lane-read_buf r c = ground arith

pump-read_buf :
    (r : Received) (c : Carrier) → (pump r c).1.read_buf ≡ c.read_buf ++ received_bytes r.answer
unfolding pump
pump-read_buf r c =
    file_answer-read_buf r.answer (end_lane r c)
    ∙ ap (λ k. k ++ received_bytes r.answer) (end_lane-read_buf r c)

-- What a read took off the transport, and that no byte is lost or made up.
pub record IsConsumed (bodies rest : List Received) (before after : Bytes)
    (got : Result Error Bytes) : Type 0 where
  pub taken : List Received
  pub split : bodies ≡ taken ++ rest
  pub kept : handed got ++ after ≡ before ++ received_all taken

at_hand :
    (bodies : List Received) (before after : Bytes) (got : Result Error Bytes)
    → handed got ++ after ≡ before
    → IsConsumed bodies bodies before after got
unfolding received_all
at_hand bodies before after got e = record {
  taken = [];
  split = refl;
  kept = e ∙ sym (append-nil before);
}

behind :
    (r : Received) (bodies rest : List Received) (before mid after : Bytes)
    (got : Result Error Bytes)
    → mid ≡ before ++ received_bytes r.answer
    → IsConsumed bodies rest mid after got
    → IsConsumed (r ∷ bodies) rest before after got
unfolding received_all
behind r bodies rest before mid after got e k = record {
  taken = r ∷ k.taken;
  split = ap (◌∷◌ r) k.split;
  kept =
      k.kept
      ∙ ap (λ b. b ++ received_all k.taken) e
      ∙ append_assoc before (received_bytes r.answer) (received_all k.taken);
}

-- `Read` either hands out bytes or fails; what it hands out and what is left in the buffer are the
-- buffer as it was and the bytes that came for the stream meanwhile, in order.
read_from-IsConsumed :
    (n : ℕ) (bodies : List Received) (c : Carrier)
    → IsConsumed bodies
        (read_from n bodies c).2
        c.read_buf
        (read_from n bodies c).1.read_buf
        (read_from n bodies c).0
unfolding read_from handed
read_from-IsConsumed n [] c =
    let (p, c1) = deliver n c in
    elim (Bool-cases (is_none c.read_buf)) [
      | inr some_left ↦
          rw (read_from, some_left)
            (at_hand [] c.read_buf c1.read_buf (ok p) (deliver-read_buf n c))
      | inl empty ↦ elim (Option-cases (stops c)) [
        | inl go ↦
            rw (read_from, empty, go) (at_hand [] c.read_buf c.read_buf (err no_more_input) refl)
        | inr (x, stop) ↦
            rw (read_from, empty, stop) (at_hand [] c.read_buf c.read_buf (err x) refl)
      ]
    ]
read_from-IsConsumed n (r ∷ bodies) c =
    let (p, c1) = deliver n c in
    let (failed, c2) = pump r c in
    let came = pump-read_buf r c in
    elim (Bool-cases (is_none c.read_buf)) [
      | inr some_left ↦
          rw (read_from, some_left)
            (at_hand (r ∷ bodies) c.read_buf c1.read_buf (ok p) (deliver-read_buf n c))
      | inl empty ↦ elim (Option-cases (stops c)) [
        | inr (x, stop) ↦
            rw (read_from, empty, stop) (at_hand (r ∷ bodies) c.read_buf c.read_buf (err x) refl)
        | inl go ↦ elim (Option-cases failed) [
          | inr (x, bad) ↦
              rw (read_from, empty, go, bad)
                (behind r bodies bodies c.read_buf c2.read_buf c2.read_buf (err x) came
                  (at_hand bodies c2.read_buf c2.read_buf (err x) refl))
          | inl fine ↦
              rw (read_from, empty, go, fine)
                (behind r bodies (read_from n bodies c2).2 c.read_buf c2.read_buf
                  (read_from n bodies c2).1.read_buf (read_from n bodies c2).0 came
                  (read_from-IsConsumed n bodies c2))
        ]
      ]
    ]

-- The reads of a client, for slices of the sizes given: the bytes of all, one behind the other.
unfoldable pub read_all : List ℕ → List Received → Carrier → Bytes × Carrier × List Received
read_all [] bodies c = ([], c, bodies)
read_all (n ∷ sizes) bodies c =
    let (got, c1, rest) = read_from n bodies c in
    let (out, c2, last) = read_all sizes rest c1 in (handed got ++ out, c2, last)

received_all-append :
    (r s : List Received) → received_all (r ++ s) ≡ received_all r ++ received_all s
unfolding received_all
received_all-append [] s = refl
received_all-append (x ∷ r) s =
    ap (λ k. received_bytes x.answer ++ k) (received_all-append r s)
    ∙ sym (append_assoc (received_bytes x.answer) (received_all r) (received_all s))

IsConsumed-append :
    (b1 b2 b3 : List Received) (x y z : Bytes) (got : Result Error Bytes) (out : Bytes)
    → IsConsumed b1 b2 x y got
    → IsConsumed b2 b3 y z (ok out)
    → IsConsumed b1 b3 x z (ok (handed got ++ out))
unfolding handed
IsConsumed-append b1 b2 b3 x y z got out k m = record {
  taken = k.taken ++ m.taken;
  split = k.split ∙ ap (λ b. k.taken ++ b) m.split ∙ sym (append_assoc k.taken m.taken b3);
  kept =
      append_assoc (handed got) out z
      ∙ ap (λ b. handed got ++ b) m.kept
      ∙ sym (append_assoc (handed got) y (received_all m.taken))
      ∙ ap (λ b. b ++ received_all m.taken) k.kept
      ∙ append_assoc x (received_all k.taken) (received_all m.taken)
      ∙ ap (λ b. x ++ b) (sym (received_all-append k.taken m.taken));
}

-- The carrier is a stream of bytes: over any sequence of reads, of whatever sizes and however the
-- bodies are cut, the bytes that were handed out and then the buffer are the buffer at the start and
-- then the payloads of the `DATA` frames for the stream in the bodies that were taken, in order. The
-- bodies that are left are the rest of those that were to come.
pub read_all-IsConsumed :
    (sizes : List ℕ) (bodies : List Received) (c : Carrier)
    → IsConsumed bodies
        (read_all sizes bodies c).2
        c.read_buf
        (read_all sizes bodies c).1.read_buf
        (ok (read_all sizes bodies c).0)
unfolding read_all handed
read_all-IsConsumed [] bodies c = at_hand bodies c.read_buf c.read_buf (ok []) refl
read_all-IsConsumed (n ∷ sizes) bodies c =
    let (got, c1, rest) = read_from n bodies c in
    let (out, c2, last) = read_all sizes rest c1 in
    IsConsumed-append bodies rest last c.read_buf c1.read_buf c2.read_buf got out
      (read_from-IsConsumed n bodies c) (read_all-IsConsumed sizes rest c1)
