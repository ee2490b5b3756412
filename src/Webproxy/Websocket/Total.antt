-- ===== src/Webproxy/Websocket/Total.antt =====
-- `receive` ends on every input: a frame takes two bytes of it at least.
use mtproto_checker.Common.{
  >>=-eq-ok, Bool, Bool-cases, Bytes, Option, Result, Result-cases, [], ap, arith, err, false,
  get_or, inl, inr, leb, length, length-drop, ltb, none, ok, refl, reject, some, suc, true, zero, ℕ,
  ◌%◌, ◌++◌, ◌+◌, ◌<◌, ◌==◌, ◌>>=◌, ◌≡◌, ◌≢◌, ◌≤◌,
}
use mtproto_checker.Webproxy.Errors.{Error, message_too_large, stuck}
use mtproto_checker.Webproxy.Websocket.{
  Conn, Message, max_body_bytes, on_message, op_ping, pong, read_frame, read_full, read_head,
  read_length, read_payload, receive, receive_loop,
}

read_full-rest :
    (n : ℕ) (s p rest : Bytes) → read_full n s ≡ ok (p, rest) → length rest + n ≡ length s
unfolding read_full
read_full-rest n s p rest e = ground (arith, length-drop n s)

read_length-rest :
    (code : ℕ) (s : Bytes) (n : ℕ) (rest : Bytes)
    → read_length code s ≡ ok (n, rest)
    → length rest ≤ length s
unfolding read_length read_full
read_length-rest code s n rest e = ground (arith, length-drop 2 s, length-drop 8 s)

read_payload-rest :
    (masked : Bool) (n : ℕ) (s p rest : Bytes)
    → read_payload masked n s ≡ ok (p, rest)
    → length rest ≤ length s
unfolding read_payload
read_payload-rest true n s p rest e =
    let ((mask, s1), r, e1) = >>=-eq-ok (read_full 4 s) _ e in
    let ((q, s2), r2, e2) = >>=-eq-ok (read_full n s1) _ e1 in
    ground (arith, read_full-rest 4 s mask s1 r, read_full-rest n s1 q s2 r2)
read_payload-rest false n s p rest e = ground (arith, read_full-rest n s p rest e)

read_head-rest :
    (s : Bytes) (h : ℕ × ℕ × ℕ) (rest : Bytes) → read_head s ≡ ok (h, rest) → length rest < length s
unfolding read_head
read_head-rest s h rest e =
    let ((header, s1), r, e1) = >>=-eq-ok (read_full 2 s) _ e in
    let ((n, s2), r2, e2) = >>=-eq-ok (read_length (get_or header 1 0 % 128) s1) _ e1 in
    ground
      (arith, read_full-rest 2 s header s1 r, read_length-rest (get_or header 1 0 % 128) s1 n s2 r2)

read_frame-rest :
    (s : Bytes) (m : Message) (rest : Bytes) → read_frame s ≡ ok (m, rest) → length rest < length s
unfolding read_frame
read_frame-rest s m rest e =
    let (((first, second, n), s1), r, e1) = >>=-eq-ok (read_head s) _ e in
    let (u, g, e2) = >>=-eq-ok (reject (ltb max_body_bytes n) (message_too_large n)) _ e1 in
    let ((payload, s2), r2, e3) = >>=-eq-ok (read_payload (leb 128 second) n s1) _ e2 in
    ground (
      arith,
      read_head-rest s (first, second, n) s1 r,
      read_payload-rest (leb 128 second) n s1 payload s2 r2,
    )

>>=-ne-stuck :
    {A B : Type 0} (m : Result Error A) (f : A → Result Error B)
    → m ≢ err stuck
    → ((a : A) → f a ≢ err stuck)
    → (m >>= f) ≢ err stuck
>>=-ne-stuck (ok a) f h k = k a
>>=-ne-stuck (err x) f h k = λ e. h (ground arith)

read_full-ne-stuck : (n : ℕ) (s : Bytes) → read_full n s ≢ err stuck
unfolding read_full
read_full-ne-stuck n s e = ground arith

read_length-ne-stuck : (code : ℕ) (s : Bytes) → read_length code s ≢ err stuck
unfolding read_length read_full
read_length-ne-stuck code s e = ground arith

read_payload-ne-stuck : (masked : Bool) (n : ℕ) (s : Bytes) → read_payload masked n s ≢ err stuck
unfolding read_payload
read_payload-ne-stuck true n s =
    >>=-ne-stuck (read_full 4 s) _ (read_full-ne-stuck 4 s) (λ (mask, s1).
      >>=-ne-stuck (read_full n s1) _ (read_full-ne-stuck n s1) (λ _ e. ground arith))
read_payload-ne-stuck false n s = read_full-ne-stuck n s

reject-ne-stuck : (b : Bool) (n : ℕ) → reject b (message_too_large n) ≢ err stuck
reject-ne-stuck true n e = ground arith
reject-ne-stuck false n e = ground arith

read_frame-ne-stuck : (s : Bytes) → read_frame s ≢ err stuck
unfolding read_frame read_head
read_frame-ne-stuck s =
    >>=-ne-stuck (read_head s) _
      (>>=-ne-stuck (read_full 2 s) _ (read_full-ne-stuck 2 s) (λ (header, s1).
        >>=-ne-stuck (read_length (get_or header 1 0 % 128) s1) _
          (read_length-ne-stuck (get_or header 1 0 % 128) s1) (λ _ e. ground arith)))
      (λ ((first, second, n), s1).
        >>=-ne-stuck (reject (ltb max_body_bytes n) (message_too_large n)) _
          (reject-ne-stuck (ltb max_body_bytes n) n)
          (λ _.
            >>=-ne-stuck (read_payload (leb 128 second) n s1) _
              (read_payload-ne-stuck (leb 128 second) n s1) (λ _ e. ground arith)))

pong-ne-stuck :
    (draw : Option Bytes) (payload written : Bytes) → pong draw payload written ≢ err stuck
unfolding pong
pong-ne-stuck none payload written e = ground arith
pong-ne-stuck (some mask) payload written e = ground arith

-- One round of `receive`, with a next round that does not get stuck on a shorter inbox.
on_message-ne-stuck :
    (again : Bytes → Conn → Result Error (Bytes × Conn)) (draw : Option Bytes) (sofar : Bytes)
    (m : Message) (c : Conn)
    → ((x : Bytes) (c' : Conn) → c'.inbox ≡ c.inbox → again x c' ≢ err stuck)
    → on_message again draw sofar m c ≢ err stuck
unfolding on_message
on_message-ne-stuck again draw sofar m c h = elim (Bool-cases (m.opcode == op_ping)) [
  | inl e ↦ rw e (
      >>=-ne-stuck (pong draw m.payload c.written) _ (pong-ne-stuck draw m.payload c.written)
        (λ written. h sofar (record c { written = written }) refl))
  | inr e ↦ rw e (λ s. ground (arith, h sofar c refl, h (sofar ++ m.payload) c refl))
]

receive_loop-ne-stuck :
    (fuel : ℕ) (draw : Option Bytes) (sofar : Bytes) (c : Conn)
    → length c.inbox < fuel
    → receive_loop fuel draw sofar c ≢ err stuck
unfolding receive_loop
receive_loop-ne-stuck zero draw sofar c l = absurd (omega arith)
receive_loop-ne-stuck (suc fuel) draw sofar c l = elim (Result-cases (read_frame c.inbox)) [
  | inl ((m, rest), e) ↦ rw e (
      on_message-ne-stuck (receive_loop fuel draw) draw sofar m (record c { inbox = rest })
        (λ x c' s.
          receive_loop-ne-stuck fuel draw x c'
            (omega (arith, read_frame-rest c.inbox m rest e, ap length s))))
  | inr (x, e) ↦ λ s. read_frame-ne-stuck c.inbox (ground (arith, rw (e, receive_loop) at s))
]

-- Whatever the relay sends, `receive` ends: the model's loop does not run out of fuel.
pub receive-ne-stuck : (draw : Option Bytes) (c : Conn) → receive draw c ≢ err stuck
unfolding receive
receive-ne-stuck draw c = receive_loop-ne-stuck (suc (length c.inbox)) draw [] c (omega arith)
