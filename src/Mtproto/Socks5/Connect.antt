-- ===== src/Mtproto/Socks5/Connect.antt =====
-- What a connection through a SOCKS5 server comes to.
use mtproto_checker.Common.{
  Bool, Bool-cases, Bytes, Result-cases, [], arith, drop-append, err, false, get_or, if◌then◌else◌,
  inl, inr, length, length-append, le→ltb_false, ltb, not, ok, refl, take-append, true, ℕ, ◌++◌,
  ◌==◌, ◌∙◌, ◌∷◌, ◌≡◌, ◌≢◌, ◌⊎◌,
}
use mtproto_checker.Mtproto.Socks5.{
  Conn, Net, SocksError, Step, after_greeting, after_head, and_then, choose_method, connect_request,
  greeting, no_connect_reply, no_greeting_reply, read_full, read_reply, reply_skip, send_request,
  short_address, socks5_connect,
}

-- A server that speaks the protocol: it chooses no login, and answers the request with an IPv4
-- address.
abbrev pub accepts : Bytes → Bytes
accepts bound = (0x05 ∷ 0x00 ∷ 0x05 ∷ 0x00 ∷ 0x00 ∷ 0x01 ∷ []) ++ bound

and_then-written :
    {A B : Type 0} (w : Bytes) (s : Step A) (k : A → Conn → Step B)
    → s.1.written ≡ w
    → ((a : A) (c : Conn) → c.written ≡ w → (k a c).1.written ≡ w)
    → (and_then s k).1.written ≡ w
and_then-written w (ok a, c) k h f = f a c h
and_then-written w (err e, c) k h f = h

if-written :
    {A : Type 0} (w : Bytes) (b : Bool) (x y : Step A)
    → x.1.written ≡ w
    → y.1.written ≡ w
    → (if b then x else y).1.written ≡ w
if-written w true x y p q = p
if-written w false x y p q = q

read_full-written : (e : SocksError) (n : ℕ) (c : Conn) → (read_full e n c).1.written ≡ c.written
unfolding read_full
read_full-written e n c = elim (Bool-cases (ltb (length c.inbox) n)) [
  | inl f ↦ rw f refl
  | inr f ↦ rw f refl
]

reply_skip-written : (kind : ℕ) (c : Conn) → (reply_skip kind c).1.written ≡ c.written
unfolding reply_skip
reply_skip-written kind c = if-written c.written (kind == 1) _ _ refl (
    if-written c.written (kind == 4) _ _ refl (
      if-written c.written (kind == 3) _ _
        (and_then-written c.written (read_full short_address 1 c) _
          (read_full-written short_address 1 c) (λ a c1 h. h))
        refl))

after_head-written : (head : Bytes) (c : Conn) → (after_head head c).1.written ≡ c.written
unfolding after_head
after_head-written head c = if-written c.written (not (get_or head 0 0 == 5)) _ _ refl (
    if-written c.written (not (get_or head 1 0 == 0)) _ _ refl (
      and_then-written c.written (reply_skip (get_or head 3 0) c) _
        (reply_skip-written (get_or head 3 0) c)
        (λ skip c1 h.
          and_then-written c.written (read_full short_address skip c1) _
            (read_full-written short_address skip c1 ∙ h) (λ _ c2 h2. h2))))

-- Reading the answer to a request writes nothing.
read_reply-written : (c : Conn) → (read_reply c).1.written ≡ c.written
unfolding read_reply
read_reply-written c =
    and_then-written c.written (read_full no_connect_reply 4 c) after_head
      (read_full-written no_connect_reply 4 c) (λ head c1 h. after_head-written head c1 ∙ h)

==_false : (a b : ℕ) → a ≢ b → (a == b) ≡ false
==_false a b h = ground arith

read_full-append :
    (e : SocksError) (n : ℕ) (xs rest w : Bytes)
    → n ≡ length xs
    → read_full e n (record { inbox = xs ++ rest; written = w })
      ≡ (ok xs, record { inbox = rest; written = w })
unfolding read_full
read_full-append e n xs rest w h =
    let enough = le→ltb_false (length (xs ++ rest)) n (omega (arith, h, length-append xs rest)) in
    rw (enough, take-append xs rest n h, drop-append xs rest n h) refl

socks5_connect-greeted :
    (net : Net) (username password dst : Bytes) (version method : ℕ) (rest : Bytes)
    → socks5_connect net username password dst
        (record { inbox = version ∷ method ∷ rest; written = [] })
      ≡ after_greeting net username password dst
          (version ∷ method ∷ [])
          (record { inbox = rest; written = greeting username password })
unfolding socks5_connect
socks5_connect-greeted net username password dst version method rest =
    rw
      (read_full-append no_greeting_reply 2 (version ∷ method ∷ []) rest
        (greeting username password) refl)
      refl

-- Where the server does not choose the login method, what has been written when the connection
-- ends, however it ends, is the greeting, with the request behind it or with nothing: neither name
-- nor password is sent.
pub socks5_connect-discreet :
    (net : Net) (username password dst : Bytes) (version method : ℕ) (rest : Bytes)
    → method ≢ 0x02
    → let (r, c) =
        socks5_connect net username password dst
          (record { inbox = version ∷ method ∷ rest; written = [] }) in
      (c.written ≡ greeting username password)
      ⊎ ((request : Bytes) × (connect_request net dst ≡ ok request)
          × (c.written ≡ greeting username password ++ request))
unfolding after_greeting choose_method send_request
socks5_connect-discreet net username password dst version method rest h =
    rw (socks5_connect-greeted net username password dst version method rest)
      (elim (Bool-cases (version == 5)) [
        | inr e ↦ rw e (inl refl)
        | inl e ↦ elim (Bool-cases (method == 0)) [
          | inr f ↦ elim (Bool-cases (method == 0xFF)) [
            | inl g ↦ rw (e, f, ==_false method 2 h, g) (inl refl)
            | inr g ↦ rw (e, f, ==_false method 2 h, g) (inl refl)
          ]
          | inl f ↦ elim (Result-cases (connect_request net dst)) [
            | inl (request, g) ↦ rw (e, f, g) (inr (request, refl, read_reply-written _))
            | inr (x, g) ↦ rw (e, f, g) (inl refl)
          ]
        ]
      ])
