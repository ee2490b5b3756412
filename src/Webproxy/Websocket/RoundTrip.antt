-- ===== src/Webproxy/Websocket/RoundTrip.antt =====
-- What is written is read back.
use mtproto_checker.Common.{
  Bool-cases, Bytes, Option, [], ap, append_assoc, arith, drop-append, get_or, if◌then◌else◌, inl,
  inr, leb, length, length-append, le→ltb_false, ltb, ok, refl, some, suc, sym, take-append, true,
  ℕ, ◌%◌, ◌++◌, ◌+◌, ◌<◌, ◌∷◌, ◌≡◌, ◌≢◌, ◌≤◌,
}
use mtproto_checker.Common.Xor.{bit_xor-bit_xor}
use mtproto_checker.Mtproto.Binary.{uint16_be-bytes, uint64_be-bytes}
use mtproto_checker.Webproxy.Websocket.{
  Conn, mask_from, max_body_bytes, message_header, on_message, op_binary, read_frame, read_full,
  read_head, read_payload, receive, receive_loop, send, write_message,
}

mask_from-mask_from :
    (mask : Bytes) (i : ℕ) (payload : Bytes) → mask_from mask i (mask_from mask i payload) ≡ payload
unfolding mask_from
mask_from-mask_from mask i [] = refl
mask_from-mask_from mask i (c ∷ payload) =
    rw (bit_xor-bit_xor c (get_or mask i 0), mask_from-mask_from mask ((i + 1) % 4) payload)

length-mask_from :
    (mask : Bytes) (i : ℕ) (payload : Bytes) → length (mask_from mask i payload) ≡ length payload
unfolding mask_from
length-mask_from mask i [] = refl
length-mask_from mask i (c ∷ payload) = ap suc (length-mask_from mask ((i + 1) % 4) payload)

read_full-append :
    (xs rest : Bytes) (n : ℕ) → n ≡ length xs → read_full n (xs ++ rest) ≡ ok (xs, rest)
unfolding read_full
read_full-append xs rest n e =
    ground (arith, length-append xs rest, take-append xs rest n e, drop-append xs rest n e)

read_payload-masked :
    (mask payload rest : Bytes)
    → length mask ≡ 4
    → read_payload true (length payload) (mask ++ mask_from mask 0 payload ++ rest)
      ≡ ok (payload, rest)
unfolding read_payload
read_payload-masked mask payload rest h = rw (
  append_assoc mask (mask_from mask 0 payload) rest,
  read_full-append mask (mask_from mask 0 payload ++ rest) 4 (sym h),
  read_full-append (mask_from mask 0 payload) rest (length payload)
      (sym (length-mask_from mask 0 payload)),
  mask_from-mask_from mask 0 payload,
)

-- The second byte of a header.
abbrev second : ℕ → ℕ
second n = if ltb n 126 then 128 + n else if leb n 0xFFFF then 254 else 255

read_head-message_header :
    (opcode n : ℕ) (tail : Bytes)
    → n ≤ max_body_bytes
    → read_head (message_header opcode n ++ tail) ≡ ok ((128 + opcode, second n, n), tail)
unfolding read_head message_header
read_head-message_header opcode n tail h = elim (Bool-cases (ltb n 126)) [
  | inl e ↦ rw e (ground arith)
  | inr e ↦ elim (Bool-cases (leb n 0xFFFF)) [
    | inl f ↦ rw (e, f) (ground (arith, uint16_be-bytes n tail))
    | inr f ↦ rw (e, f) (ground (arith, uint64_be-bytes n tail))
  ]
]

second-masked : (n : ℕ) → leb 128 (second n) ≡ true
second-masked n = ground arith

low_bits : (opcode : ℕ) → opcode < 16 → (128 + opcode) % 16 ≡ opcode
low_bits opcode h = omega arith

high_bit : (opcode : ℕ) → leb 128 (128 + opcode) ≡ true
high_bit opcode = ground arith

-- A message of at most eight mebibytes, with an opcode below 16 and a mask of four bytes, is read
-- back from its frame as a final one, and the bytes behind the frame are left.
pub read_frame-write_message :
    (mask : Bytes) (opcode : ℕ) (payload rest : Bytes)
    → length mask ≡ 4
    → opcode < 16
    → length payload ≤ max_body_bytes
    → read_frame (write_message mask opcode payload ++ rest)
      ≡ ok (record { opcode = opcode; payload = payload; final = true }, rest)
unfolding read_frame write_message
read_frame-write_message mask opcode payload rest m o h =
    let n = length payload in
    rw
      (
        append_assoc (message_header opcode n) (mask ++ mask_from mask 0 payload) rest,
        read_head-message_header opcode n (mask ++ mask_from mask 0 payload ++ rest) h,
      )
      (rw
        (
          le→ltb_false max_body_bytes n h,
          second-masked n,
          read_payload-masked mask payload rest m,
          low_bits opcode o,
          high_bit opcode,
        )
        refl)

receive-binary :
    (mask frames rest : Bytes) (draw : Option Bytes) (written : Bytes)
    → length mask ≡ 4
    → length frames ≤ max_body_bytes
    → receive draw
        (record { inbox = write_message mask op_binary frames ++ rest; written = written })
      ≡ ok (frames, record { inbox = rest; written = written })
unfolding receive receive_loop on_message
receive-binary mask frames rest draw written m h =
    rw (read_frame-write_message mask op_binary frames rest m (omega arith) h) refl

-- What the peer sends with `send`, in a message of at most eight mebibytes, is what `receive`
-- gives, and the bytes behind it are left for the next call.
pub receive-send :
    (mask frames rest : Bytes) (draw : Option Bytes) (written : Bytes)
    → length mask ≡ 4
    → frames ≢ []
    → length frames ≤ max_body_bytes
    → (sent : Conn) × (send (some mask) frames (record { inbox = []; written = [] }) ≡ ok sent)
      × (receive draw (record { inbox = sent.written ++ rest; written = written })
          ≡ ok (frames, record { inbox = rest; written = written }))
unfolding send
receive-send mask [] rest draw written m n h = absurd (n refl)
receive-send mask (b ∷ frames) rest draw written m n h = (
  record { inbox = []; written = write_message mask op_binary (b ∷ frames) },
  refl,
  receive-binary mask (b ∷ frames) rest draw written m h,
)
