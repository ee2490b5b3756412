-- ===== src/Mtproto/FakeTls/Records.antt =====
-- TLS records of internal/mtproto/faketls.go: five bytes of header, the last two of them the length.
pub mod Split
use mtproto_checker.Common.{
  Bytes, List, Option, Result, [], drop, err, get_or, if◌then◌else◌, length, ltb, none, not, ok,
  some, suc, take, zero, ℕ, ◌&&◌, ◌++◌, ◌+◌, ◌==◌, ◌>>=◌, ◌||◌, ◌∷◌,
}
use mtproto_checker.Mtproto.Binary.{uint16_be}
use mtproto_checker.Mtproto.Errors.{
  Error, bad_first_record_type, bad_record_type, eof, incomplete_record_header,
  incomplete_record_payload,
}
use mtproto_checker.Mtproto.Transport.{plain_read}

-- `data[offset+3:offset+5]`, over what stands behind `offset`.
abbrev pub record_length : Bytes → ℕ
record_length rest = uint16_be (drop 3 rest)

-- `for offset := 0; offset < len(data);`: a round takes five bytes at least; `none` is no Go value.
unfoldable pub split_loop : ℕ → Bytes → Option (Result Error (List Bytes))
split_loop fuel [] = some (ok [])
split_loop zero (x ∷ xs) = none
split_loop (suc fuel) (x ∷ xs) =
    let rest = x ∷ xs in
    let end = 5 + record_length rest in
    let more = split_loop fuel (drop end rest) in
    if ltb (length rest) 5
    then some (err incomplete_record_header)
    else if ltb (length rest) end
    then some (err incomplete_record_payload)
    else elim more [
      | none ↦ none
      | some (err e) ↦ some (err e)
      | some (ok records) ↦ some (ok (take end rest ∷ records))
    ]

unfoldable pub split_tls_records : Bytes → Option (Result Error (List Bytes))
split_tls_records data' = split_loop (length data') data'

-- The `switch` behind a record that was read; `again` is the loop's next round.
unfoldable pub hello_next :
    (Bytes → Bytes → Result Error (Bytes × Bytes))
    → ℕ
    → Bytes
    → Bytes
    → Result Error (Bytes × Bytes)
hello_next again kind out s =
    if kind == 0x17
    then ok (out, s)
    else if kind == 0x16 || kind == 0x14
    then again out s
    else err (bad_record_type kind)

-- What follows the header of a record.
unfoldable pub hello_payload :
    (Bytes → Bytes → Result Error (Bytes × Bytes))
    → Bytes
    → Bytes
    → Bytes
    → Result Error (Bytes × Bytes)
hello_payload again header out s =
    let kind = get_or header 0 0 in
    if length out == 0 && not (kind == 0x16) then err (bad_first_record_type kind) else (do
      (payload, s1) ← plain_read (record_length header) s
      hello_next again kind ((out ++ header) ++ payload) s1)

-- `readServerHello` over what the peer sends. Each round takes a header, so as many rounds as there
-- are bytes are enough; `out` is what was read before.
unfoldable pub read_server_hello : ℕ → Bytes → Bytes → Result Error (Bytes × Bytes)
read_server_hello zero out s = err eof
read_server_hello (suc fuel) out s = do
  (header, s1) ← plain_read 5 s
  hello_payload (read_server_hello fuel) header out s1
