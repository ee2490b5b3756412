-- ===== src/Webproxy/Frame/Tests.antt =====
-- A frame of three bytes.
use mtproto_checker.Common.{[], arith, err, ok, ◌∷◌, ◌≡◌, ◌≢◌}
use mtproto_checker.Webproxy.Errors.{stuck}
use mtproto_checker.Webproxy.Frame.{Frame, decode_frames, frame_data}
use mtproto_checker.Webproxy.Frame.RoundTrip.{
  decode_frames-encode_frames, decode_frames-ne-stuck, encode_frames,
}

abbrev data_frame : Frame
data_frame = record { kind = frame_data; stream = 258; payload = 7 ∷ 8 ∷ 9 ∷ [] }

decode_frames-encode_frames_example :
    decode_frames (encode_frames (data_frame ∷ [])) ≡ ok (data_frame ∷ [])
decode_frames-encode_frames_example =
    decode_frames-encode_frames (data_frame ∷ []) ((omega arith, omega arith), tt)

decode_frames-ne-stuck_test : decode_frames (1 ∷ 2 ∷ []) ≢ err stuck
decode_frames-ne-stuck_test = decode_frames-ne-stuck (1 ∷ 2 ∷ [])
