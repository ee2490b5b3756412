-- ===== src/Webproxy/Frame/RoundTrip.antt =====
-- `decodeFrames` and `encodeFrame` are inverse to each other, and the loop ends on every input.
use mtproto_checker.Common.{
  >>=-eq-ok, All, All-drop, Bytes, IsByte, List, Result-cases, [], ap, arith, drop, drop-append,
  drop-drop, err, inl, inr, length, length-append, length-drop, length-take, ok, refl, suc, take,
  take-append, take-append-drop, zero, ℕ, ◌++◌, ◌+◌, ◌-◌, ◌<◌, ◌^◌, ◌∷◌, ◌≡◌, ◌≢◌, ◌≤◌,
}
use mtproto_checker.Webproxy.Frame.{
  Frame, decode_frames, decode_frames_loop, encode_frame, frame_header_len, max_payload, next_frame,
}
use mtproto_checker.Mtproto.Binary.{uint32_be}
use mtproto_checker.Webproxy.Errors.{stuck}

abbrev pub encode_frames : List Frame → Bytes
encode_frames [] = []
encode_frames (f ∷ fs) = encode_frame f.kind f.stream f.payload ++ encode_frames fs

-- The frames that the format can hold.
abbrev pub Fits : Frame → Type 0
Fits f = (f.stream < 2 ^ 24) × (length f.payload ≤ max_payload)

next_frame-encode_frame :
    (f : Frame) (rest : Bytes)
    → Fits f
    → next_frame (encode_frame f.kind f.stream f.payload ++ rest) ≡ ok (f, rest)
unfolding next_frame encode_frame
next_frame-encode_frame f rest (narrow, short) =
    let n = length f.payload in
    ground (
      arith,
      length-append f.payload rest,
      take-append f.payload rest n refl,
      drop-append f.payload rest n refl,
    )

loop-encode_frames :
    (fs : List Frame) (fuel : ℕ)
    → All Fits fs
    → length (encode_frames fs) ≤ fuel
    → decode_frames_loop fuel (encode_frames fs) ≡ ok fs
unfolding decode_frames_loop encode_frame
loop-encode_frames [] fuel h hf = refl
loop-encode_frames (f ∷ fs) zero h hf = absurd (omega arith)
loop-encode_frames (f ∷ fs) (suc fuel) (h, hs) hf =
    let size = length-append f.payload (encode_frames fs) in
    rw (
      next_frame-encode_frame f (encode_frames fs) h,
      loop-encode_frames fs fuel hs (omega (arith, size)),
    )

-- Decoding the encodings of any frames, one after the other, gives those frames: stream numbers are
-- below 2^24 and payloads at most a mebibyte.
pub decode_frames-encode_frames :
    (fs : List Frame) → All Fits fs → decode_frames (encode_frames fs) ≡ ok fs
unfolding decode_frames
decode_frames-encode_frames fs h = loop-encode_frames fs _ h (omega arith)

-- A frame that was read is what its encoding says, and the rest follows it.
encode_frame-next_frame :
    (body : Bytes) (f : Frame) (rest : Bytes)
    → All IsByte body
    → next_frame body ≡ ok (f, rest)
    → (encode_frame f.kind f.stream f.payload ++ rest ≡ body) × Fits f × All IsByte rest
unfolding next_frame encode_frame
encode_frame-next_frame (a ∷ b ∷ c ∷ d ∷ e ∷ g ∷ h ∷ i ∷ r) f rest bytes p =
    let body : Bytes = a ∷ b ∷ c ∷ d ∷ e ∷ g ∷ h ∷ i ∷ r in
    let n = uint32_be (drop 4 body) in
    let size : 8 + n - 8 ≡ n = omega arith in
    ground (
      arith,
      size,
      ap (λ k. take k r) size,
      drop-drop n 8 body,
      take-append-drop n r,
      length-take n r,
      All-drop IsByte n r (All-drop IsByte 8 body bytes),
    )
encode_frame-next_frame _ f rest bytes p = ground arith

encode_frames-loop :
    (fuel : ℕ) (body : Bytes) (fs : List Frame)
    → All IsByte body
    → decode_frames_loop fuel body ≡ ok fs
    → (encode_frames fs ≡ body) × All Fits fs
unfolding decode_frames_loop
encode_frames-loop fuel [] fs bytes e = ground arith
encode_frames-loop zero (x ∷ xs) fs bytes e = cc
encode_frames-loop (suc fuel) (x ∷ xs) fs bytes e =
    let ((f, rest), parsed, e1) = >>=-eq-ok (next_frame (x ∷ xs)) _ e in
    let (gs, more, e2) = >>=-eq-ok (decode_frames_loop fuel rest) _ e1 in
    let (front, fits, bytes') = encode_frame-next_frame (x ∷ xs) f rest bytes parsed in
    ground (arith, front, fits, encode_frames-loop fuel rest gs bytes' more)

-- Decoding loses nothing: bytes that decode to frames are the encodings of those frames, and each of
-- these has a stream number below 2^24 and a payload of at most a mebibyte.
pub encode_frames-decode_frames :
    (body : Bytes) (fs : List Frame)
    → All IsByte body
    → decode_frames body ≡ ok fs
    → (encode_frames fs ≡ body) × All Fits fs
unfolding decode_frames
encode_frames-decode_frames body fs bytes e = encode_frames-loop _ body fs bytes e

next_frame_shorter :
    (body : Bytes) (f : Frame) (rest : Bytes)
    → next_frame body ≡ ok (f, rest)
    → length rest < length body
unfolding next_frame
next_frame_shorter body f rest e =
    ground (arith, length-drop (frame_header_len + uint32_be (drop 4 body)) body)

next_frame-ne-stuck : (body : Bytes) → next_frame body ≢ err stuck
unfolding next_frame
next_frame-ne-stuck body e = ground arith

loop-ne-stuck :
    (fuel : ℕ) (body : Bytes) → length body ≤ fuel → decode_frames_loop fuel body ≢ err stuck
unfolding decode_frames_loop
loop-ne-stuck fuel [] h = λ e. cc
loop-ne-stuck zero (x ∷ xs) h = absurd (omega arith)
loop-ne-stuck (suc fuel) (x ∷ xs) h = elim (Result-cases (next_frame (x ∷ xs))) [
  | inl ((f, rest), p) ↦
      let ih = loop-ne-stuck fuel rest (omega (arith, next_frame_shorter (x ∷ xs) f rest p)) in
      elim (Result-cases (decode_frames_loop fuel rest)) [
        | inl (fs, q) ↦ rw (p, q) (λ e. cc)
        | inr (e, q) ↦ rw (p, q) (λ r. ground (arith, ih))
      ]
  | inr (e, p) ↦ rw p (λ r. ground (arith, next_frame-ne-stuck (x ∷ xs)))
]

-- The loop of `decodeFrames` ends on every input, well formed or not.
pub decode_frames-ne-stuck : (body : Bytes) → decode_frames body ≢ err stuck
unfolding decode_frames
decode_frames-ne-stuck body = loop-ne-stuck (length body) body (omega arith)
