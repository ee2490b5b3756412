-- ===== src/Mtproto/FakeTls/Conn/RoundTrip.antt =====
-- A stream of bytes passes through the records unchanged.
use native.Mathlib.Decide.{dec_lt}
use mtproto_checker.Common.{
  Bool, Bytes, [], ap, append_assoc, arith, drop, drop_all, false, length, length-append,
  length-drop, length-take, ok, refl, suc, take, take-append-drop, take_all, true, zero, ℕ, ◌*◌,
  ◌++◌, ◌+◌, ◌-◌, ◌<◌, ◌==◌, ◌∙◌, ◌∷◌, ◌≡◌, ◌≤◌,
}
use mtproto_checker.Mtproto.Transport.RoundTrip.{plain_read-append}
use mtproto_checker.Mtproto.FakeTls.Records.{record_length}
use mtproto_checker.Mtproto.FakeTls.Conn.{
  TlsConn, change_cipher_spec, fill, record_header, rounds_for, tls_read, tls_read_full,
  tls_record_limit, tls_write, write_records,
}

abbrev pub idle : Bytes → TlsConn
idle s = record { buf = []; stream = s }

limit_lem : tls_record_limit ≡ 16384
unfolding tls_record_limit
limit_lem = refl

-- A record of application data fills the buffer; a change-cipher-spec record is passed over.
fill-record :
    (fuel : ℕ) (chunk rest : Bytes)
    → 0 < length chunk
    → length chunk ≤ tls_record_limit
    → fill (suc (suc fuel)) (idle (record_header (length chunk) ++ (chunk ++ rest)))
      ≡ ok (record { buf = chunk; stream = rest })
unfolding fill
fill-record fuel chunk rest lo hi =
    let n = length chunk in
    ground (
      arith,
      plain_read-append (record_header n) (chunk ++ rest) 5 refl,
      plain_read-append chunk rest (record_length (record_header n)) (omega (arith, limit_lem)),
    )

fill-change_cipher_spec :
    (fuel : ℕ) (rest : Bytes)
    → fill (suc fuel) (idle (change_cipher_spec ++ rest)) ≡ fill fuel (idle rest)
unfolding fill
fill-change_cipher_spec fuel rest =
    let head : Bytes = 0x14 ∷ 0x03 ∷ 0x03 ∷ 0x00 ∷ 0x01 ∷ [] in
    let body : Bytes = 0x01 ∷ [] in
    ground (arith, plain_read-append head (body ++ rest) 5 refl, plain_read-append body rest 1 refl)

-- What `Write` puts in front of its records.
abbrev preamble : Bool → Bytes
preamble true = change_cipher_spec
preamble false = []

suc-suc : (n : ℕ) → 2 ≤ n → n ≡ suc (suc (n - 2))
suc-suc n h = omega arith

fill_chunk :
    (first : Bool) (fuel : ℕ) (chunk rest : Bytes)
    → 0 < length chunk
    → length chunk ≤ tls_record_limit
    → 3 ≤ fuel
    → fill fuel (idle (preamble first ++ (record_header (length chunk) ++ (chunk ++ rest))))
      ≡ ok (record { buf = chunk; stream = rest })
fill_chunk true fuel chunk rest lo hi h =
    let e : fuel ≡ suc (suc (suc (fuel - 3))) = omega arith in
    rw e (
      fill-change_cipher_spec (suc (suc (fuel - 3)))
        (record_header (length chunk) ++ (chunk ++ rest))
      ∙ fill-record (fuel - 3) chunk rest lo hi)
fill_chunk false fuel chunk rest lo hi h =
    rw (suc-suc fuel (omega arith)) (fill-record (fuel - 2) chunk rest lo hi)

tls_read_chunk :
    (first : Bool) (n : ℕ) (chunk rest : Bytes)
    → 0 < length chunk
    → length chunk ≤ tls_record_limit
    → length chunk ≤ n
    → tls_read n (idle (preamble first ++ (record_header (length chunk) ++ (chunk ++ rest))))
      ≡ ok (chunk, idle rest)
unfolding tls_read
tls_read_chunk first n chunk rest lo hi fits =
    let s = preamble first ++ (record_header (length chunk) ++ (chunk ++ rest)) in
    let room : 3 ≤ length s + 1 =
      omega
        (arith, length-append (preamble first) (record_header (length chunk) ++ (chunk ++ rest))) in
    rw
      (
        fill_chunk first (length s + 1) chunk rest lo hi room,
        take_all chunk n fits,
        drop_all chunk n fits,
      )
      refl

-- A step of `tls_read_full` that reads a chunk and then the rest.
tls_read_full_step :
    (fuel n : ℕ) (t t1 t2 : TlsConn) (front back : Bytes)
    → 0 < n
    → tls_read n t ≡ ok (front, t1)
    → tls_read_full fuel (n - length front) t1 ≡ ok (back, t2)
    → tls_read_full (suc fuel) n t ≡ ok (front ++ back, t2)
unfolding tls_read_full
tls_read_full_step fuel n t t1 t2 front back lo e1 e2 =
    let more : (n == 0) ≡ false = ground arith in rw (more, e1, e2) refl

tls_read_full_done : (fuel : ℕ) (t : TlsConn) → tls_read_full fuel 0 t ≡ ok ([], t)
unfolding tls_read_full
tls_read_full_done zero t = refl
tls_read_full_done (suc fuel) t = refl

no_rounds : (k l : ℕ) → k * l < l → k ≡ 0
no_rounds zero l h = refl
no_rounds (suc k) l h = absurd (omega arith)

read_nothing :
    (k fuel : ℕ) (tail rest : Bytes)
    → length tail ≡ 0
    → k ≡ 0
    → tls_read_full fuel (length tail) (idle (write_records k tail ++ rest)) ≡ ok (tail, idle rest)
read_nothing zero fuel [] rest h e = unfold write_records in tls_read_full_done fuel (idle rest)
read_nothing (suc k) fuel [] rest h e = absurd (omega arith)
read_nothing k fuel (x ∷ tail) rest h e = absurd (omega arith)

write_records_step :
    (k : ℕ) (p rest : Bytes)
    → write_records (suc k) p ++ rest
      ≡ record_header (length (take tls_record_limit p))
        ++ (take tls_record_limit p ++ (write_records k (drop tls_record_limit p) ++ rest))
unfolding write_records
write_records_step k p rest = simp append_assoc

-- One record, then the others; the last one empties what was written.
read_records :
    (k : ℕ) (first : Bool) (fuel : ℕ) (p rest : Bytes)
    → 0 < length p
    → length p ≤ k * tls_record_limit
    → k * tls_record_limit < length p + tls_record_limit
    → k ≤ fuel
    → tls_read_full fuel (length p) (idle (preamble first ++ (write_records k p ++ rest)))
      ≡ ok (p, idle rest)
read_records zero first fuel p rest lo hi tight h = absurd (omega arith)
read_records (suc k) first zero p rest lo hi tight h = absurd (omega arith)
read_records (suc k) first (suc fuel) p rest lo hi tight h =
    let chunk = take tls_record_limit p in
    let tail = drop tls_record_limit p in
    let n = length-take tls_record_limit p in
    let m = length-drop tls_record_limit p in
    let more = write_records k tail ++ rest in
    let one : tls_read (length p)
          (idle (preamble first ++ (record_header (length chunk) ++ (chunk ++ more))))
        ≡ ok (chunk, idle more) =
      tls_read_chunk first (length p) chunk more (omega (arith, n, limit_lem)) (omega (arith, n))
        (omega (arith, n)) in
    let size : length p - length chunk ≡ length tail = omega (arith, n, m) in
    let others : tls_read_full fuel (length tail) (idle more) ≡ ok (tail, idle rest) =
      elim (dec_lt 0 (length tail)) [
        | yes some_left ↦
            read_records k false fuel tail rest some_left (omega (arith, m)) (omega (arith, m))
              (omega arith)
        | no none_left ↦
            read_nothing k fuel tail rest (omega arith)
              (no_rounds k tls_record_limit (omega (arith, m)))
      ] in
    rw (write_records_step k p rest) (
      tls_read_full_step fuel (length p) _ (idle more) (idle rest) chunk tail lo one
        (rw size others)
      ∙ ap (λ s. ok (s, idle rest)) (take-append-drop tls_record_limit p))

-- Reading as many bytes as were written gives them back, however many records they were cut into and
-- whether or not it is the first write: the reader's buffer is empty and what the peer sends behind
-- them is left. As many rounds as there are bytes are enough.
pub tls_read_full-tls_write :
    (first : Bool) (p rest : Bytes)
    → 0 < length p
    → tls_read_full (length p) (length p) (idle (tls_write first p ++ rest)) ≡ ok (p, idle rest)
unfolding tls_write
tls_read_full-tls_write first p rest lo =
    let k = rounds_for (length p) in
    let l = limit_lem in
    let run =
      read_records k first (length p) p rest lo (omega (arith, l, ap (λ (t : ℕ). k * t) l))
        (omega (arith, l, ap (λ (t : ℕ). k * t) l)) (omega (arith, l, ap (λ (t : ℕ). k * t) l)) in
    written first run
  where
    written :
        (f : Bool)
        → tls_read_full
            (length p)
            (length p)
            (idle (preamble f ++ (write_records (rounds_for (length p)) p ++ rest)))
          ≡ ok (p, idle rest)
        → tls_read_full (length p) (length p) (idle (tls_write f p ++ rest)) ≡ ok (p, idle rest)
    written true run = run
    written false run = run
