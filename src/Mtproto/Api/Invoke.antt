-- ===== src/Mtproto/Api/Invoke.antt =====
-- The calls of a query: `awaitResult`, `invoke`, and the queries themselves.
use mtproto_checker.Common.{
  Bool, Bytes, Option, Result, [], err, if◌then◌else◌, leb, length, none, not, ok, some, suc, take,
  zero, ℕ, ◌%◌, ◌&&◌, ◌==◌, ◌>>=◌, ◌^◌,
}
use mtproto_checker.Common.Text.{codes, ℤ}
use mtproto_checker.Mtproto.Binary.{uint32_le}
use mtproto_checker.Mtproto.Errors.{
  Error, no_rpc_result, rpc_timed_out, salt_rejected, unexpected_langpack,
}
use mtproto_checker.Mtproto.Tl.Buf.{append_bytes, append_raw, append_uint32}
use mtproto_checker.Mtproto.Tl.Cursor.{expect, new_cursor, read_bytes, read_uint32}
use mtproto_checker.Mtproto.Transport.{Reader, Transport, decode}
use mtproto_checker.Mtproto.Stream.{Stream, send_raw}
use mtproto_checker.Mtproto.Session.{Crypto, Session, decrypt, encrypt}
use mtproto_checker.Mtproto.Api.{
  Reply, api_layer, ctor_help_get_nearest_dc, ctor_init_connection, ctor_invoke_with_layer,
  ctor_lang_pack_difference, ctor_langpack_get_lang_pack, ctor_nearest_dc, dispatch, found, int32,
  nothing, retry,
}

-- `wrapQuery`
unfoldable pub wrap_query : ℕ → Bytes → Bytes
wrap_query api_id query =
    let head =
      append_uint32 (api_id % 2 ^ 32) (append_uint32 0 (append_uint32 ctor_init_connection [])) in
    let device =
      append_bytes (codes "1.0") (append_bytes (codes "Linux") (append_bytes (codes "PC") head)) in
    let texts = append_bytes (codes "en") (append_bytes [] (append_bytes (codes "en") device)) in
    append_raw (append_raw query texts)
      (append_uint32 api_layer (append_uint32 ctor_invoke_with_layer []))

-- What one try of `invoke` draws: the fillers of `encrypt` and of the framing, and the message id.
pub record Draw : Type 0 where
  pub random : ℕ → Option Bytes
  pub padding : Option Bytes
  pub id : ℕ

-- How far a reply or a try has come: the result with what is left to read, or a salt that was
-- refused.
pub data Outcome (S : Type 0) : Type 0 where
  refused : S → Outcome S
  returned : Bytes → S → Outcome S

-- `NearestDC`
pub record NearestDc : Type 0 where
  pub country : Bytes
  pub this_dc : ℤ
  pub nearest_dc : ℤ

-- What `awaitResult` does with a message that `dispatch` has gone through.
unfoldable pub settle :
    {S : Type 0}
    → (Session → S → Result Error (Outcome S) × Session)
    → S
    → Result Error Reply × Session
    → Result Error (Outcome S) × Session
settle next c (err e, s) = (err e, s)
settle next c (ok nothing, s) = next s c
settle next c (ok retry, s) = (ok (refused c), s)
settle next c (ok (found x), s) = (ok (returned x c), s)

-- What `invoke` does with the outcome of a try.
unfoldable pub conclude :
    {S T : Type 0}
    → (S → T → Result Error (Bytes × S) × T)
    → Result Error (Outcome S) × T
    → Result Error (Bytes × S) × T
conclude next (err e, t) = (err e, t)
conclude next (ok (refused c), t) = next c t
conclude next (ok (returned x c), t) = (ok (x, c), t)

unfoldable pub read_nearest_dc : Bytes → Result Error NearestDc
read_nearest_dc payload =
    let (country, c1) = read_bytes (expect ctor_nearest_dc (new_cursor payload)) in
    let (this_dc, c2) = read_uint32 c1 in
    let (nearest, c3) = read_uint32 c2 in
    elim c3.error [
      | some e ↦ err e
      | none ↦
          ok (record { country = country; this_dc = int32 this_dc; nearest_dc = int32 nearest })
    ]

-- The guard of `measureDownload`, which gives the number of bytes.
unfoldable pub download_size : Bytes → Result Error ℕ
download_size payload =
    let ctor = uint32_le (take 4 payload) in
    if leb 4 (length payload) && not (ctor == ctor_lang_pack_difference)
    then err (unexpected_langpack ctor)
    else ok (length payload)

module _ (crypto : Crypto) (gunzip : Bytes → Result Error Bytes) (depth : ℕ) {S : Type 0}
    (read_full : Reader S) (late : S → Bool) where
  unfoldable pub receive_plain : Transport → Session → S → Result Error (Bytes × S)
  receive_plain framing s c = do
    (raw, c1) ← decode read_full framing c
    plain ← decrypt crypto s raw
    ok (plain, c1)

  unfoldable pub await_result : ℕ → ℕ → Transport → Session → S → Result Error (Outcome S) × Session
  await_result zero msg_id framing s c = (err no_rpc_result, s)
  await_result (suc k) msg_id framing s c =
      let rest : Session → S → Result Error (Outcome S) × Session =
        λ t c1. await_result k msg_id framing t c1 in
      let received = receive_plain framing s c in
      if late c then (err rpc_timed_out, s) else elim received [
        | err e ↦ (err e, s)
        | ok (plain, c1) ↦ settle rest c1 (dispatch gunzip depth msg_id plain s)
      ]

  -- One round of the loop of `invoke`, with the 16 replies it waits for.
  unfoldable pub try_query :
      Draw → Bytes → Session → Stream → S → Result Error (Outcome S) × (Session × Stream)
  try_query d query s str c =
      let (packet, s1) = encrypt crypto d.random d.id query s in
      let sent = packet >>= (λ message. send_raw d.padding message str) in
      elim sent [
        | err e ↦ (err e, (s1, str))
        | ok str1 ↦ let (outcome, s2) = await_result 16 d.id str.tr s1 c in (outcome, (s2, str1))
      ]

  -- Both rounds.
  unfoldable pub invoke :
      Draw → Draw → Bytes → Session → Stream → S → Result Error (Bytes × S) × (Session × Stream)
  invoke first second query s str c =
      conclude
        (λ c1 t. conclude (λ c2 u. (err salt_rejected, u)) (try_query second query t.0 t.1 c1))
        (try_query first query s str c)

  unfoldable pub get_nearest_dc :
      Draw → Draw → ℕ → Session → Stream → S → Result Error NearestDc × (Session × Stream)
  get_nearest_dc first second api_id s str c =
      let query = wrap_query api_id (append_uint32 ctor_help_get_nearest_dc []) in
      let (answer, after) = invoke first second query s str c in
      (answer >>= (λ payload. read_nearest_dc payload.0), after)

  -- The query of `measureDownload`, with the size of what came.
  unfoldable pub measure_download :
      Draw → Draw → ℕ → Session → Stream → S → Result Error ℕ × (Session × Stream)
  measure_download first second api_id s str c =
      let pack =
        append_bytes (codes "en")
          (append_bytes (codes "android") (append_uint32 ctor_langpack_get_lang_pack [])) in
      let (answer, after) = invoke first second (wrap_query api_id pack) s str c in
      (answer >>= (λ payload. download_size payload.0), after)
