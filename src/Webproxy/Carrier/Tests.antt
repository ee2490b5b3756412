-- ===== src/Webproxy/Carrier/Tests.antt =====
-- Two bodies, with a ping between the bytes and bytes of another stream.
use mtproto_checker.Common.{Bytes, List, [], false, ok, refl, some, true, ◌++◌, ◌∷◌, ◌≡◌}
use mtproto_checker.Webproxy.Errors.{send_failed}
use mtproto_checker.Webproxy.Frame.{
  Frame, decode_frames, decode_frames_loop, encode_frame, frame_data, frame_ping, next_frame,
}
use mtproto_checker.Webproxy.Carrier.{
  Carrier, Received, deliver, end_lane, file_answer, file_frame, file_frames, grant_window, pump,
  read_from, send_control, stops, take_window_grant, write,
}
use mtproto_checker.Webproxy.Carrier.Bytestream.{
  IsConsumed, arrived_all, handed, read_all, read_all-IsConsumed,
}
use mtproto_checker.Webproxy.Carrier.Batches.{write-decode_frames}
use mtproto_checker.Webproxy.Frame.RoundTrip.{encode_frames}

abbrev fresh : Carrier
fresh = record {
  opened = true;
  closed = false;
  read_buf = [];
  eof = false;
  window_debt = 0;
  sent = [];
}

abbrev came : Bytes → Received
came body = record { answer = ok body; lane_closed = false }

-- The relay ends the lane with a last body, that has bytes too.
abbrev end : Received
end = record { answer = ok (encode_frame frame_data 1 (6 ∷ [])); lane_closed = true }

abbrev bodies : List Received
bodies =
    came (encode_frame frame_data 1 (1 ∷ 2 ∷ 3 ∷ []) ++ encode_frame frame_ping 0 (7 ∷ []))
    ∷ came (encode_frame frame_data 2 (8 ∷ []) ++ encode_frame frame_data 1 (4 ∷ 5 ∷ []))
    ∷ end
    ∷ came []
    ∷ []

-- Behind the end of the lane the bytes are handed out, and nothing more is asked of the transport.
read_all_test : (read_all (2 ∷ 5 ∷ 2 ∷ 1 ∷ 1 ∷ []) bodies fresh).0 ≡ 1 ∷ 2 ∷ 3 ∷ 4 ∷ 5 ∷ 6 ∷ []
unfolding read_all read_from deliver pump end_lane file_answer file_frames file_frame send_control
    stops handed encode_frame decode_frames decode_frames_loop next_frame grant_window
    take_window_grant
read_all_test = refl

read_all-IsConsumed_example :
    IsConsumed bodies (came [] ∷ []) [] [] (ok (1 ∷ 2 ∷ 3 ∷ 4 ∷ 5 ∷ 6 ∷ []))
unfolding read_all read_from deliver pump end_lane file_answer file_frames file_frame send_control
    stops handed encode_frame decode_frames decode_frames_loop next_frame grant_window
    take_window_grant
read_all-IsConsumed_example = read_all-IsConsumed (2 ∷ 5 ∷ 2 ∷ 1 ∷ 1 ∷ []) bodies fresh

write-decode_frames_example :
    (frames : List Frame) × ((write
        (some send_failed)
        (1 ∷ 2 ∷ [])
        (record fresh { opened = false })).1.sent
      ≡ [] ++ (encode_frames frames ∷ []))
    × (decode_frames (encode_frames frames) ≡ ok frames)
    × (arrived_all frames ≡ 1 ∷ 2 ∷ [])
write-decode_frames_example =
    write-decode_frames (some send_failed) (1 ∷ 2 ∷ []) (record fresh { opened = false }) refl
