-- ===== src/Mtproto/FakeTls/Conn.antt =====
-- `tlsConn` of internal/mtproto/faketls.go: application data cut into records. The connection is
-- what the peer sends and what was written to it.
pub mod RoundTrip
use mtproto_checker.Common.{
  Bool, Bytes, Result, [], drop, err, false, get_or, if◌then◌else◌, length, ok, suc, take, true,
  zero, ℕ, ◌%◌, ◌++◌, ◌+◌, ◌-◌, ◌/◌, ◌==◌, ◌>>=◌, ◌^◌, ◌∷◌,
}
use mtproto_checker.Mtproto.Errors.{Error, bad_record_type, eof}
use mtproto_checker.Mtproto.Transport.{plain_read}
use mtproto_checker.Mtproto.FakeTls.Records.{record_length}

-- Shut, as nothing should count down from it.
unfoldable pub tls_record_limit : ℕ
tls_record_limit = 16384

abbrev pub change_cipher_spec : Bytes
change_cipher_spec = 0x14 ∷ 0x03 ∷ 0x03 ∷ 0x00 ∷ 0x01 ∷ 0x01 ∷ []

abbrev pub record_header : ℕ → Bytes
record_header n = 0x17 ∷ 0x03 ∷ 0x03 ∷ (n / 2 ^ 8 % 256) ∷ (n % 256) ∷ []

-- `for start := 0; start < len(p); start += tlsRecordLimit`, over what stands behind `start`.
-- There is a round for each 16384 bytes, the last ones fewer.
unfoldable pub write_records : ℕ → Bytes → Bytes
write_records zero p = []
write_records (suc rounds) p =
    let chunk = take tls_record_limit p in
    record_header (length chunk) ++ (chunk ++ write_records rounds (drop tls_record_limit p))

abbrev pub rounds_for : ℕ → ℕ
rounds_for n = (n + (tls_record_limit - 1)) / tls_record_limit

-- The bytes that `Write` hands to the connection; `first` is cleared by it.
unfoldable pub tls_write : Bool → Bytes → Bytes
tls_write true p = change_cipher_spec ++ write_records (rounds_for (length p)) p
tls_write false p = write_records (rounds_for (length p)) p

-- The fields that `Read` uses: what is left of a record, and what the peer sends.
pub record TlsConn : Type 0 where
  pub buf : Bytes
  pub stream : Bytes

-- `for len(t.buf) == 0`: each round takes a header, so one round more than there are bytes is enough.
unfoldable pub fill : ℕ → TlsConn → Result Error TlsConn
fill zero t = err eof
fill (suc fuel) t =
    let next = (do
      (header, s1) ← plain_read 5 t.stream
      (payload, s2) ← plain_read (record_length header) s1
      let kind = get_or header 0 0
      let taken = fill fuel (record { buf = payload; stream = s2 })
      let skipped = fill fuel (record { buf = []; stream = s2 })
      if kind == 0x17
          then taken
          else if kind == 0x14
          then skipped
          else err (bad_record_type kind)) in
    if length t.buf == 0 then next else ok t

-- `Read` into a slice of `n` bytes.
unfoldable pub tls_read : ℕ → TlsConn → Result Error (Bytes × TlsConn)
tls_read n t = do
  filled ← fill (length t.stream + 1) t
  ok (take n filled.buf, record filled { buf = drop n filled.buf })

-- io.ReadFull over `Read`; every round gives a byte at least.
unfoldable pub tls_read_full : ℕ → ℕ → TlsConn → Result Error (Bytes × TlsConn)
tls_read_full zero n t = if n == 0 then ok ([], t) else err eof
tls_read_full (suc fuel) n t =
    let next = (do
      (front, t1) ← tls_read n t
      (back, t2) ← tls_read_full fuel (n - length front) t1
      ok (front ++ back, t2)) in
    if n == 0 then ok ([], t) else next
