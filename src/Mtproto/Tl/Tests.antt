-- ===== src/Mtproto/Tl/Tests.antt =====
-- A short byte string in TL.
use mtproto_checker.Common.{[], arith, length, none, ◌++◌, ◌∷◌, ◌≡◌}
use mtproto_checker.Mtproto.Tl.Buf.{append_bytes}
use mtproto_checker.Mtproto.Tl.Cursor.{read_bytes}
use mtproto_checker.Mtproto.Tl.RoundTrip.{read_bytes-append_bytes}

read_bytes-append_bytes_test :
    read_bytes (record { b = append_bytes (1 ∷ 2 ∷ []) (0 ∷ []) ++ 9 ∷ []; i = 1; error = none })
    ≡ (
      1 ∷ 2 ∷ [],
      record {
        b = append_bytes (1 ∷ 2 ∷ []) (0 ∷ []) ++ 9 ∷ [];
        i = length (append_bytes (1 ∷ 2 ∷ []) (0 ∷ []));
        error = none;
      },
    )
read_bytes-append_bytes_test = read_bytes-append_bytes (1 ∷ 2 ∷ []) (0 ∷ []) (9 ∷ []) (omega arith)
