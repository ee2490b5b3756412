-- ===== src/Mtproto/Api/Tests.antt =====
-- Answers under a digest of zeros and a cipher that keeps its blocks.
use mtproto_checker.Common.{
  Bytes, List, Result, [], arith, equal, err, false, none, not, ok, refl, replicate, some, true,
  ◌&&◌, ◌++◌, ◌∷◌, ◌≡◌, ◌⊎◌,
}
use mtproto_checker.Common.Text.{codes, has_prefix, pos}
use mtproto_checker.Common.Keys.{distinct, member}
use mtproto_checker.Mtproto.Binary.{uint32_le_bytes, uint64_le_bytes}
use mtproto_checker.Mtproto.Errors.{Error, gzip_failed}
use mtproto_checker.Mtproto.Tl.Cursor.{read, read_bytes, read_length, read_uint64, skip_padding}
use mtproto_checker.Mtproto.Transport.{
  decode, decode_intermediate, encode, encode_intermediate, intermediate, plain_read, read_packet,
}
use mtproto_checker.Mtproto.Stream.{Stream, send_raw}
use mtproto_checker.Mtproto.Ige.{
  check_ige, decrypt_blocks, encrypt_blocks, ige_decrypt, ige_encrypt, xor,
}
use mtproto_checker.Mtproto.Session.{
  Crypto, Session, decrypt, decrypt_with, encrypt, message_key, message_keys, open_plain,
  padding_for, plain_text, seal,
}
use mtproto_checker.Mtproto.Api.{
  ctor_rpc_result, dispatch, dispatch_step, read_result, refuse_error, starts_with, unwrap,
}
use mtproto_checker.Mtproto.Api.Invoke.{
  Draw, await_result, conclude, invoke, receive_plain, settle, try_query,
}
use mtproto_checker.Mtproto.Api.Config.{
  DcOption, any_prefix, host_of, is_telegram_address, last_colon, unexpected_addresses,
  unexpected_from,
}
use mtproto_checker.Mtproto.Api.Config.Unexpected.{hosts, unexpected_addresses_lem}
use mtproto_checker.Mtproto.Api.Container.{Message, container_bytes, dispatch-visit, visit}
use mtproto_checker.Mtproto.Api.Returned.{
  IsQueried, IsReturned, invoke-IsQueried, invoke-IsReturned,
}

abbrev crypto : Crypto
crypto = record {
  sha256 = λ m. replicate 32 0;
  new_cipher = λ key. ok (record { encrypt = λ x. x; decrypt = λ x. x });
}

abbrev gunzip : Bytes → Result Error Bytes
gunzip packed = err gzip_failed

abbrev start : Session
start = record {
  auth = record {
    key = replicate 256 1;
    key_id = replicate 8 2;
    salt = replicate 8 3;
    time_offset = pos 0;
  };
  id = replicate 8 4;
  seq_no = 5;
  salt = replicate 8 3;
}

abbrev answer : Bytes
answer = uint32_le_bytes ctor_rpc_result ++ (uint64_le_bytes 77 ++ (7 ∷ 7 ∷ 7 ∷ 7 ∷ []))

-- The server's packet with the answer.
abbrev packet : Bytes
packet = replicate 8 2 ++ (replicate 16 0 ++ (replicate 28 3 ++ (uint32_le_bytes 16 ++ answer)))

decrypt_test : decrypt crypto start packet ≡ ok answer
unfolding decrypt decrypt_with equal ige_decrypt message_keys message_key open_plain decrypt_blocks
    xor
decrypt_test = refl

abbrev stream : Stream
stream = record { tr = intermediate; tag_first = []; written = [] }

abbrev draw : Draw
draw = record { random = λ n. some (replicate n 0); padding = none; id = 77 }

-- The packet in its frame, and what follows it.
abbrev wire : Bytes
wire = uint32_le_bytes 72 ++ (packet ++ (9 ∷ []))

invoke-IsReturned_example :
    IsReturned crypto gunzip 4 plain_read
      (λ c. false)
      start.auth
      intermediate
      77
      (7 ∷ 7 ∷ 7 ∷ 7 ∷ [])
      (9 ∷ [])
    ⊎ IsReturned crypto gunzip 4 plain_read
        (λ c. false)
        start.auth
        intermediate
        77
        (7 ∷ 7 ∷ 7 ∷ 7 ∷ [])
        (9 ∷ [])
unfolding equal invoke conclude try_query encrypt seal ige_encrypt plain_text padding_for
    message_keys send_raw encode await_result receive_plain decode plain_read decrypt decrypt_with
    settle dispatch dispatch_step read_result refuse_error starts_with unwrap check_ige
    decrypt_blocks encrypt_blocks ige_decrypt xor message_key open_plain read read_bytes read_length
    read_uint64 skip_padding decode_intermediate encode_intermediate read_packet
invoke-IsReturned_example =
    invoke-IsReturned crypto gunzip 4 plain_read (λ c. false) draw draw (1 ∷ []) start stream wire
      (7 ∷ 7 ∷ 7 ∷ 7 ∷ []) (9 ∷ []) refl

invoke-IsQueried_test :
    IsQueried start
      (invoke crypto gunzip 4 plain_read (λ c. false) draw draw (1 ∷ []) start stream []).1.0
invoke-IsQueried_test =
    invoke-IsQueried crypto gunzip 4 plain_read (λ c. false) draw draw (1 ∷ []) start stream [] refl

abbrev messages : List Message
messages =
    record { id = 1; seq_no = 1; body = replicate 4 0 }
    ∷ record { id = 2; seq_no = 3; body = answer }
    ∷ []

dispatch-visit_example :
    dispatch gunzip 2 77 (container_bytes messages) start
    ≡ visit (dispatch gunzip 1 77) messages start
dispatch-visit_example = dispatch-visit gunzip 1 77 messages start (omega arith) (omega arith)

abbrev options : List DcOption
options =
    record { id = pos 2; addr = codes "149.154.167.50:443" }
    ∷ record { id = pos 3; addr = codes "10.0.0.1:443" }
    ∷ record { id = pos 3; addr = codes "10.0.0.1:80" }
    ∷ []

unexpected_test : unexpected_addresses options ≡ codes "10.0.0.1" ∷ []
unfolding unexpected_from host_of last_colon any_prefix has_prefix member equal
unexpected_test = refl

unexpected_addresses_lem_example :
    (distinct (unexpected_addresses options) ≡ true)
    × ((k : Bytes)
        → member k (unexpected_addresses options)
          ≡ (member k (hosts options) && not (is_telegram_address k)))
unexpected_addresses_lem_example = unexpected_addresses_lem options
