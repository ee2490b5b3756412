-- ===== src/Webproxy/Carrier/Batches.antt =====
-- What a client writes to the carrier arrives at the relay.
use mtproto_checker.Common.{
  All, Bool, Bool-cases, Bytes, List, Option, [], ap, arith, drop, false, if◌then◌else◌, inl, inr,
  leb, length, length-drop, length-take, none, ok, refl, some, suc, take, take-append-drop, true,
  zero, ℕ, ◌++◌, ◌==◌, ◌∙◌, ◌∷◌, ◌≡◌, ◌≤◌,
}
use mtproto_checker.Mtproto.Binary.{uint32_be_bytes}
use mtproto_checker.Webproxy.Errors.{Error}
use mtproto_checker.Webproxy.Frame.{
  Frame, decode_frames, encode_frame, frame_bye, frame_data, frame_open, frame_window, max_payload,
}
use mtproto_checker.Webproxy.Frame.RoundTrip.{Fits, decode_frames-encode_frames, encode_frames}
use mtproto_checker.Webproxy.Carrier.{
  Carrier, chunk_size, data_frames, stream_id, take_window_grant, write,
}
use mtproto_checker.Webproxy.Carrier.Bytestream.{arrived, arrived_all}

-- A batch that the relay takes apart into frames, and the bytes in it for the stream.
pub record IsBatch (batch p : Bytes) : Type 0 where
  pub frames : List Frame
  pub encoded : batch ≡ encode_frames frames
  pub fit : All Fits frames
  pub carried : arrived_all frames ≡ p

-- One frame in front of a batch.
IsBatch-push :
    (f : Frame) (batch p : Bytes)
    → Fits f
    → f.kind == frame_bye ≡ false
    → IsBatch batch p
    → IsBatch (encode_frame f.kind f.stream f.payload ++ batch) (arrived f ++ p)
unfolding arrived_all
IsBatch-push f batch p fits live b = record {
  frames = f ∷ b.frames;
  encoded = ap (λ k. encode_frame f.kind f.stream f.payload ++ k) b.encoded;
  fit = (fits, b.fit);
  carried = rw (live, b.carried) refl;
}

no_frames : IsBatch [] []
unfolding arrived_all
no_frames = record { frames = []; encoded = refl; fit = tt; carried = refl }

data_frames-IsBatch : (fuel : ℕ) (p : Bytes) → length p ≤ fuel → IsBatch (data_frames fuel p) p
unfolding data_frames arrived
data_frames-IsBatch fuel [] h = no_frames
data_frames-IsBatch zero (x ∷ p) h = absurd (omega arith)
data_frames-IsBatch (suc fuel) (x ∷ p) h =
    let chunk = take chunk_size (x ∷ p) in
    let rest = drop chunk_size (x ∷ p) in
    let f : Frame = record { kind = frame_data; stream = stream_id; payload = chunk } in
    let short : length chunk ≤ max_payload = omega (arith, length-take chunk_size (x ∷ p)) in
    let less : length rest ≤ fuel = omega (arith, length-drop chunk_size (x ∷ p)) in
    let b =
      IsBatch-push f (data_frames fuel rest) rest (omega arith, short) refl
        (data_frames-IsBatch fuel rest less) in
    let whole : chunk ++ rest ≡ x ∷ p = take-append-drop chunk_size (x ∷ p) in
    record { frames = b.frames; encoded = b.encoded; fit = b.fit; carried = b.carried ∙ whole }

-- Behind the opening frame, or none.
write_tail :
    (c : Carrier) (p : Bytes) → IsBatch ((take_window_grant 0 c).0 ++ data_frames (length p) p) p
unfolding take_window_grant arrived
write_tail c p =
    let b = data_frames-IsBatch (length p) p (omega arith) in
    elim (Bool-cases (leb c.window_debt 0)) [
      | inl none_due ↦ rw none_due b
      | inr due ↦
          let f : Frame = record {
            kind = frame_window;
            stream = stream_id;
            payload = uint32_be_bytes c.window_debt;
          } in
          rw due (IsBatch-push f (data_frames (length p) p) p (omega arith, omega arith) refl b)
    ]

opening-IsBatch :
    (is_open : Bool) (tail p : Bytes)
    → IsBatch tail p
    → IsBatch ((if is_open then [] else encode_frame frame_open stream_id []) ++ tail) p
unfolding arrived
opening-IsBatch true tail p b = b
opening-IsBatch false tail p b =
    IsBatch-push (record { kind = frame_open; stream = stream_id; payload = [] }) tail p
      (omega arith, omega arith) refl b

take_window_grant-sent : (c : Carrier) → (take_window_grant 0 c).1.sent ≡ c.sent
unfolding take_window_grant
take_window_grant-sent c = ground arith

written :
    (failed : Option Error) (p : Bytes) (c : Carrier)
    → c.closed ≡ false
    → (write failed p c).1.sent
      ≡ (take_window_grant 0 (record c { opened = true })).1.sent
        ++ (((if c.opened then [] else encode_frame frame_open stream_id [])
              ++ ((take_window_grant 0 (record c { opened = true })).0 ++ data_frames (length p) p))
            ∷ [])
unfolding write
written none p c live = simp live refl
written (some e) p c live = simp live refl

-- As long as the carrier is not closed, `Write` hands the transport one batch, also where sending it
-- fails; the relay takes it apart into frames whose bytes for the stream are what was written, in
-- order, whatever its length is and whether or not the batch also opens the stream or grants credit.
pub write-decode_frames :
    (failed : Option Error) (p : Bytes) (c : Carrier)
    → c.closed ≡ false
    → (frames : List Frame) × ((write failed p c).1.sent ≡ c.sent ++ (encode_frames frames ∷ []))
      × (decode_frames (encode_frames frames) ≡ ok frames)
      × (arrived_all frames ≡ p)
unfolding write
write-decode_frames failed p c live =
    let c0 : Carrier = record c { opened = true } in
    let tail = (take_window_grant 0 c0).0 ++ data_frames (length p) p in
    let b = opening-IsBatch c.opened tail p (write_tail c0 p) in
    let batch = (if c.opened then [] else encode_frame frame_open stream_id []) ++ tail in
    let kept : (take_window_grant 0 c0).1.sent ++ (batch ∷ [])
        ≡ c.sent ++ (encode_frames b.frames ∷ []) =
      ap (λ k. k ++ (batch ∷ [])) (take_window_grant-sent c0)
      ∙ ap (λ k. c.sent ++ (k ∷ [])) b.encoded in
    let back = decode_frames-encode_frames b.frames b.fit in
    (b.frames, written failed p c live ∙ kept, back, b.carried)
