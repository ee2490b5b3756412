-- ===== src/Mtproto/Socks5.antt =====
-- internal/mtproto/socks5.go: the SOCKS5 client, up to the answer to its CONNECT. A connection is
-- what the server has still to say, up to where it closes, and what has been written to it. Writes
-- do not fail.
pub mod Connect
mod Tests
use mtproto_checker.Common.{
  Bytes, Option, Result, [], drop, err, get_elem?, get_or, if◌then◌else◌, length, ltb, none, not,
  ok, some, take, ℕ, ◌%◌, ◌++◌, ◌+◌, ◌-◌, ◌==◌, ◌^◌, ◌||◌, ◌∷◌,
}
use mtproto_checker.Common.Text.{atoi, codes, is_empty, negsuc, pos, ℤ}
use mtproto_checker.Mtproto.Binary.{uint16_be_bytes}

-- The errors with their kinds, one constructor for each message.
pub data SocksError : Type 0 where
  no_greeting_reply rejected_methods credentials_too_long : SocksError
  no_auth_reply credentials_rejected bad_address no_connect_reply short_address : SocksError
  not_socks5 unsupported_method bad_reply_version connect_rejected bad_address_type : ℕ → SocksError

pub record Conn : Type 0 where
  pub inbox : Bytes
  pub written : Bytes

-- A step on a connection: a value or an error, and the connection after it.
abbrev pub Step : Type 0 → Type 0
Step A = Result SocksError A × Conn

abbrev pub write : Bytes → Conn → Conn
write b c = record c { written = c.written ++ b }

-- The steps behind one that may have failed.
abbrev pub and_then : {A B : Type 0} → Step A → (A → Conn → Step B) → Step B
and_then (ok a, c) k = k a c
and_then (err e, c) k = (err e, c)

-- io.ReadFull, which uses up what there is when that is too short; `e` is what the code makes of it.
unfoldable pub read_full : SocksError → ℕ → Conn → Step Bytes
read_full e n c =
    if ltb (length c.inbox) n
    then (err e, record c { inbox = [] })
    else (ok (take n c.inbox), record c { inbox = drop n c.inbox })

-- What the code uses of package net: a host and port apart, and the four or sixteen bytes of an
-- address in text.
pub data Ip : Type 0 where
  ip4 ip6 : Bytes → Ip

pub record Net : Type 0 where
  pub split_host_port : Bytes → Option (Bytes × Bytes)
  pub parse_ip : Bytes → Option Ip

-- The address as a request has it.
abbrev pub address : Bytes → Option Ip → Bytes
address host none = 0x03 ∷ (length host % 256) ∷ host
address host (some (ip4 b)) = 0x01 ∷ b
address host (some (ip6 b)) = 0x04 ∷ b

-- `uint16(port)`
unfoldable pub port_word : ℤ → ℕ
port_word (pos n) = n % 2 ^ 16
port_word (negsuc n) = (2 ^ 16 - 1) - n % 2 ^ 16

unfoldable pub request_for : Net → Bytes → Option ℤ → Result SocksError Bytes
request_for net host none = err bad_address
request_for net host (some port) = ok (
    (0x05 ∷ 0x01 ∷ 0x00 ∷ [])
    ++ (address host (net.parse_ip host) ++ uint16_be_bytes (port_word port)))

unfoldable pub connect_request : Net → Bytes → Result SocksError Bytes
connect_request net dst = elim (net.split_host_port dst) [
  | none ↦ err bad_address
  | some (host, port_text) ↦ request_for net host (atoi port_text)
]

unfoldable pub check_auth : Bytes → Conn → Step (Unit {0})
check_auth reply c =
    if not (get_or reply 0 0 == 0x01) || not (get_or reply 1 0 == 0x00)
    then (err credentials_rejected, c)
    else (ok tt, c)

-- What `socks5Auth` writes.
abbrev pub credentials : Bytes → Bytes → Bytes
credentials username password =
    (0x01 ∷ (length username % 256) ∷ []) ++ (username ++ ((length password % 256) ∷ password))

unfoldable pub socks5_auth : Bytes → Bytes → Conn → Step (Unit {0})
socks5_auth username password c =
    if ltb 255 (length username) || ltb 255 (length password)
    then (err credentials_too_long, c)
    else and_then (read_full no_auth_reply 2 (write (credentials username password) c)) check_auth

-- The `switch` on the address type of a reply: how many bytes are left to skip.
unfoldable pub reply_skip : ℕ → Conn → Step ℕ
reply_skip kind c =
    if kind == 0x01
    then (ok 6, c)
    else if kind == 0x04
    then (ok 18, c)
    else if kind == 0x03
    then and_then (read_full short_address 1 c) (λ n c1. (ok (get_or n 0 0 + 2), c1))
    else (err (bad_address_type kind), c)

unfoldable pub after_head : Bytes → Conn → Step (Unit {0})
after_head head c =
    if not (get_or head 0 0 == 0x05)
    then (err (bad_reply_version (get_or head 0 0)), c)
    else if not (get_or head 1 0 == 0x00)
    then (err (connect_rejected (get_or head 1 0)), c)
    else and_then (reply_skip (get_or head 3 0) c)
        (λ skip c1. and_then (read_full short_address skip c1) (λ _ c2. (ok tt, c2)))

unfoldable pub read_reply : Conn → Step (Unit {0})
read_reply c = and_then (read_full no_connect_reply 4 c) after_head

-- The greeting asks for a login if the target has a name or a password.
unfoldable pub greeting : Bytes → Bytes → Bytes
greeting username password =
    if not (is_empty username) || not (is_empty password)
    then 0x05 ∷ 0x01 ∷ 0x02 ∷ []
    else 0x05 ∷ 0x01 ∷ 0x00 ∷ []

-- The `switch` on the method that the server chose.
unfoldable pub choose_method : Bytes → Bytes → ℕ → Conn → Step (Unit {0})
choose_method username password method c =
    if method == 0x00
    then (ok tt, c)
    else if method == 0x02
    then socks5_auth username password c
    else if method == 0xFF
    then (err rejected_methods, c)
    else (err (unsupported_method method), c)

unfoldable pub send_request : Result SocksError Bytes → Conn → Step (Unit {0})
send_request (err e) c = (err e, c)
send_request (ok request) c = read_reply (write request c)

unfoldable pub after_greeting : Net → Bytes → Bytes → Bytes → Bytes → Conn → Step (Unit {0})
after_greeting net username password dst reply c =
    if not (get_or reply 0 0 == 0x05)
    then (err (not_socks5 (get_or reply 0 0)), c)
    else and_then (choose_method username password (get_or reply 1 0) c)
        (λ _ c1. send_request (connect_request net dst) c1)

unfoldable pub socks5_connect : Net → Bytes → Bytes → Bytes → Conn → Step (Unit {0})
socks5_connect net username password dst c =
    and_then (read_full no_greeting_reply 2 (write (greeting username password) c))
      (after_greeting net username password dst)

-- `socksReplyText`, but for the number in the last case.
unfoldable pub socks_reply_text : ℕ → Option Bytes
socks_reply_text code =
    get_elem?
      (codes "general failure"
        ∷ codes "connection not allowed"
        ∷ codes "network unreachable"
        ∷ codes "host unreachable"
        ∷ codes "connection refused"
        ∷ codes "TTL expired"
        ∷ codes "command not supported"
        ∷ codes "address type not supported"
        ∷ [])
      (if code == 0 then 8 else code - 1)
