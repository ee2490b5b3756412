-- ===== src/Mtproto/Api.antt =====
-- internal/mtproto/api.go: queries to Telegram's API over a session, and what is read from the
-- answers. `gunzip` stands for compress/gzip and io.ReadAll with their limit of 16 MB, `late` for the
-- clock against the deadline. Speeds, which are floating-point numbers, are not part of the model.
pub mod Invoke
pub mod Answer
pub mod Keeps
pub mod Returned
pub mod Container
pub mod Config
mod Tests
use mtproto_checker.Common.{
  Bool, Bytes, Option, Result, drop, err, if◌then◌else◌, leb, length, ltb, none, ok, some, suc,
  take, zero, ℕ, ◌&&◌, ◌-◌, ◌==◌, ◌>>=◌, ◌^◌,
}
use mtproto_checker.Common.Text.{negsuc, pos, ℤ}
use mtproto_checker.Mtproto.Binary.{uint32_le}
use mtproto_checker.Mtproto.Errors.{
  Error, bad_container_entry, bad_container_size, empty_body, query_failed, too_deep,
}
use mtproto_checker.Mtproto.Tl.Cursor.{
  Cursor, new_cursor, read, read_bytes, read_uint32, read_uint64,
}
use mtproto_checker.Mtproto.Session.{
  Session, container_head, ctor_bad_server_salt, ctor_msg_container, ctor_new_session_created,
  ctor_rpc_error, entry_head,
}

abbrev pub ctor_rpc_result : ℕ
ctor_rpc_result = 0xF35C6D01

abbrev pub ctor_gzip_packed : ℕ
ctor_gzip_packed = 0x3072CFA1

abbrev pub ctor_invoke_with_layer : ℕ
ctor_invoke_with_layer = 0xDA9B0D0D

abbrev pub ctor_init_connection : ℕ
ctor_init_connection = 0xC1CD5EA9

abbrev pub ctor_help_get_nearest_dc : ℕ
ctor_help_get_nearest_dc = 0x1FB33026

abbrev pub ctor_nearest_dc : ℕ
ctor_nearest_dc = 0x8E1A1775

abbrev pub ctor_langpack_get_lang_pack : ℕ
ctor_langpack_get_lang_pack = 0xF2F2330A

abbrev pub ctor_lang_pack_difference : ℕ
ctor_lang_pack_difference = 0xF385C1F6

abbrev pub api_layer : ℕ
api_layer = 158

-- `int(int32(v))`
unfoldable pub int32 : ℕ → ℤ
int32 v = if ltb v (2 ^ 31) then pos v else negsuc (2 ^ 32 - 1 - v)

-- What `dispatch` tells of a message: `retry`, `found`, or neither.
pub data Reply : Type 0 where
  nothing retry : Reply
  found : Bytes → Reply

-- `len(body) >= 4 && binary.LittleEndian.Uint32(body[:4]) == ctor`
unfoldable pub starts_with : ℕ → Bytes → Bool
starts_with ctor body = leb 4 (length body) && uint32_le (take 4 body) == ctor

unfoldable pub parse_rpc_error : Bytes → Error
parse_rpc_error payload =
    let c1 = (read 4 (new_cursor payload)).1 in
    let (code, c2) = read_uint32 c1 in
    let (message, c3) = read_bytes c2 in
    elim c3.error [ some e ↦ e | none ↦ query_failed (int32 code) message ]

-- A salt that `dispatch` takes from the session's messages: 8 bytes behind a head of some fields.
unfoldable pub read_salt : Cursor → Session → Option Error × Session
read_salt c s =
    let (salt, c1) = read 8 c in
    elim c1.error [ some e ↦ (some e, s) | none ↦ (none, record s { salt = salt }) ]

unfoldable pub bad_salt : Bytes → Session → Result Error Reply × Session
bad_salt body s =
    let head = (read 4 (read 4 (read 8 (read 4 (new_cursor body)).1).1).1).1 in
    let (failure, s1) = read_salt head s in
    elim failure [ some e ↦ (err e, s1) | none ↦ (ok retry, s1) ]

unfoldable pub new_salt : Bytes → Session → Result Error Reply × Session
new_salt body s = (ok nothing, (read_salt (read 8 (read 8 (read 4 (new_cursor body)).1).1).1 s).1)

-- What follows an entry: nothing, unless the entry was passed over.
unfoldable pub or_next :
    Result Error Reply × Session
    → (Session → Result Error Reply × Session)
    → Result Error Reply × Session
or_next (err e, s) next = (err e, s)
or_next (ok nothing, s) next = next s
or_next (ok retry, s) next = (ok retry, s)
or_next (ok (found x), s) next = (ok (found x), s)

-- The loop over a container; `inner` is `dispatch` of an entry.
unfoldable pub dispatch_entries :
    (Bytes → Session → Result Error Reply × Session)
    → ℕ
    → ℕ
    → Cursor
    → Session
    → Result Error Reply × Session
dispatch_entries inner limit zero c s = (ok nothing, s)
dispatch_entries inner limit (suc count) c s =
    let (size, c1) = entry_head c in
    let (entry, c2) = read size c1 in
    let rest : Session → Result Error Reply × Session =
      λ t. dispatch_entries inner limit count c2 t in
    if ltb limit size
    then (err bad_container_entry, s)
    else elim c2.error [ some e ↦ (err e, s) | none ↦ or_next (inner entry s) rest ]

unfoldable pub dispatch_container :
    (Bytes → Session → Result Error Reply × Session)
    → Bytes
    → Session
    → Result Error Reply × Session
dispatch_container inner body s =
    let (count, c) = container_head body in
    if ltb 64 count
    then (err (bad_container_size count), s)
    else dispatch_entries inner (length body) count c s

module _ (gunzip : Bytes → Result Error Bytes) where
  unfoldable pub unwrap : Bytes → Result Error Bytes
  unwrap body =
      let (packed, c) = read_bytes (read 4 (new_cursor body)).1 in
      if starts_with ctor_gzip_packed body
      then elim c.error [ some e ↦ err e | none ↦ gunzip packed ]
      else ok body

  -- The guard on the answer's payload.
  unfoldable pub refuse_error : Bytes → Result Error Reply
  refuse_error payload =
      if starts_with ctor_rpc_error payload
      then err (parse_rpc_error payload)
      else ok (found payload)

  unfoldable pub read_result : ℕ → Bytes → Result Error Reply
  read_result msg_id body =
      let (answered, c) = read_uint64 (read 4 (new_cursor body)).1 in
      elim c.error [
        | some e ↦ err e
        | none ↦ if answered == msg_id then unwrap (drop c.i body) >>= refuse_error else ok nothing
      ]

  unfoldable pub dispatch_packed :
      (Bytes → Session → Result Error Reply × Session)
      → Bytes
      → Session
      → Result Error Reply × Session
  dispatch_packed inner body s = elim (unwrap body) [
    | err e ↦ (err e, s)
    | ok payload ↦ inner payload s
  ]

  -- One call of `dispatch`, with `inner` for the calls it makes.
  unfoldable pub dispatch_step :
      (Bytes → Session → Result Error Reply × Session)
      → ℕ
      → Bytes
      → Session
      → Result Error Reply × Session
  dispatch_step inner msg_id body s =
      let ctor = uint32_le (take 4 body) in
      if ltb (length body) 4
      then (err empty_body, s)
      else if ctor == ctor_rpc_result
      then (read_result msg_id body, s)
      else if ctor == ctor_gzip_packed
      then dispatch_packed inner body s
      else if ctor == ctor_msg_container
      then dispatch_container inner body s
      else if ctor == ctor_bad_server_salt
      then bad_salt body s
      else if ctor == ctor_new_session_created
      then new_salt body s
      else (ok nothing, s)

  -- The code has no bound on the depth of the messages; `depth` is the number of calls that the
  -- stack has room for, and `too_deep` is none of Go's errors.
  unfoldable pub dispatch : ℕ → ℕ → Bytes → Session → Result Error Reply × Session
  dispatch zero msg_id body s = (err too_deep, s)
  dispatch (suc depth) msg_id body s =
      dispatch_step (λ inner t. dispatch depth msg_id inner t) msg_id body s
