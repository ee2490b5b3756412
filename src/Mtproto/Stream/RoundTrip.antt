-- ===== src/Mtproto/Stream/RoundTrip.antt =====
-- What one end sends with no encryption, the other receives.
use mtproto_checker.Common.{
  >>=-eq-ok, Bytes, [], arith, equal_refl, false, length, le→ltb_false, ltb, of_ok, ok, refl,
  replicate, slice, slice-append_end, some, ℕ, ◌%◌, ◌++◌, ◌+◌, ◌<◌, ◌^◌, ◌||◌, ◌≡◌, ◌≤◌,
}
use mtproto_checker.Mtproto.Binary.{uint32_le, uint32_le-bytes, uint32_le_bytes, uint64_le_bytes}
use mtproto_checker.Mtproto.Transport.{encode, plain_read}
use mtproto_checker.Mtproto.Transport.RoundTrip
use mtproto_checker.Mtproto.Transport.RoundTrip.{decode-encode}
use mtproto_checker.Mtproto.Stream.{
  Stream, open_unencrypted, recv_unencrypted, send_raw, send_unencrypted, unencrypted,
}

pub length-unencrypted : (id : ℕ) (body : Bytes) → length (unencrypted id body) ≡ 20 + length body
unfolding unencrypted
length-unencrypted id body = omega arith

pub open_unencrypted-unencrypted :
    (id : ℕ) (body : Bytes)
    → 4 ≤ length body
    → length body < 2 ^ 32
    → open_unencrypted (unencrypted id body) ≡ ok body
unfolding open_unencrypted unencrypted
open_unencrypted-unencrypted id body lo hi =
    let n = length body in
    let size : n % 2 ^ 32 ≡ n = omega arith in
    let told : uint32_le (uint32_le_bytes n ++ body) ≡ n = uint32_le-bytes n body hi in
    let whole = length-unencrypted id body in
    let long : ltb (length (unencrypted id body)) 20 ≡ false =
      le→ltb_false (length (unencrypted id body)) 20 (omega (arith, whole)) in
    let fits : (ltb n 4 || ltb (length (unencrypted id body)) (20 + n)) ≡ false =
      ground (arith, whole) in
    let front : Bytes = replicate 8 0 ++ (uint64_le_bytes id ++ uint32_le_bytes n) in
    let cut : slice 20 (20 + n) (front ++ body) ≡ body =
      slice-append_end 20 (20 + n) front body refl refl in
    rw (size, told, equal_refl (replicate 8 0), long, fits, cut) refl

-- With any framing that can carry it, a message that is sent is written behind what was written
-- before, after the tag if that is still due, and the other end receives it as it was and leaves what
-- follows it to be read.
pub recv_unencrypted-send_unencrypted :
    (s sent : Stream) (padding body rest : Bytes) (id : ℕ)
    → RoundTrip.Fits s.tr padding (unencrypted id body)
    → 4 ≤ length body
    → length body < 2 ^ 32
    → send_unencrypted (some padding) id body s ≡ ok sent
    → (packet : Bytes) × (sent.written ≡ s.written ++ (s.tag_first ++ packet))
      × (sent.tag_first ≡ [])
      × (recv_unencrypted plain_read s.tr (packet ++ rest) ≡ ok (body, rest))
unfolding send_unencrypted send_raw recv_unencrypted
recv_unencrypted-send_unencrypted s sent padding body rest id f lo hi e =
    let (packet, made, e1) = >>=-eq-ok (encode s.tr (some padding) (unencrypted id body)) _ e in
    (
      packet,
      of_ok (λ k. k.written ≡ s.written ++ (s.tag_first ++ packet)) e1 refl,
      of_ok (λ k. k.tag_first ≡ []) e1 refl,
      rw
          (
            decode-encode s.tr padding (unencrypted id body) rest packet f made,
            open_unencrypted-unencrypted id body lo hi,
          )
          refl,
    )
