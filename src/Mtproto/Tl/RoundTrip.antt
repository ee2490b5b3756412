-- ===== src/Mtproto/Tl/RoundTrip.antt =====
-- The cursor reads back what the writer appended, whatever follows it.
use mathlib.Core.Path.{subst}
use mtproto_checker.Common.{
  Bool-cases, Bytes, [], ap, append_assoc, arith, drop, drop-append, drop-drop, inl, inr, leb,
  length, length-append, length-drop, length-replicate, none, refl, replicate, slice, suc, sym,
  take, take-append, zero, ℕ, ◌%◌, ◌++◌, ◌+◌, ◌-◌, ◌/◌, ◌<◌, ◌^◌, ◌∙◌, ◌∷◌, ◌≡◌, ◌≤◌,
}
use mtproto_checker.Mtproto.Tl.Cursor.{Cursor, read, read_bytes, read_length, skip_padding}
use mtproto_checker.Mtproto.Tl.Buf.{
  append_bytes, append_bytes-encoded_bytes, encoded_bytes, length_prefix, missing,
}

-- The cursor has met no error, and `rest` is what it has not read.
pub record Unread (c : Cursor) (rest : Bytes) : Type 0 where
  pub no_error : c.error ≡ none
  pub in_range : c.i ≤ length c.b
  pub tail : drop c.i c.b ≡ rest

abbrev pub advance : ℕ → Cursor → Cursor
advance n c = record c { i = c.i + n }

-- A read of `n` bytes of which `mid` holds the first: it gives `mid` and leaves what follows.
module _ (c : Cursor) (mid back : Bytes) (u : Unread c (mid ++ back)) where
  left : length c.b ≡ c.i + length mid + length back
  left =
      omega
        (arith, u.in_range, length-drop c.i c.b, ap (length {A = ℕ}) u.tail, length-append mid back)

  pub read-Unread : Unread (advance (length mid) c) back
  read-Unread = record {
    no_error = u.no_error;
    in_range = omega (arith, left);
    tail =
        sym (drop-drop (length mid) c.i c.b)
        ∙ ap (drop (length mid)) u.tail
        ∙ drop-append mid back (length mid) refl;
  }

  pub read_lem : read (length mid) c ≡ (mid, advance (length mid) c)
  unfolding read
  read_lem =
      let e : c.i + length mid - c.i ≡ length mid = omega arith in
      let cut : slice c.i (c.i + length mid) c.b ≡ mid =
        ap (λ k. take k (drop c.i c.b)) e
        ∙ ap (take (length mid)) u.tail
        ∙ take-append mid back (length mid) refl in
      ground (arith, u.no_error, left, cut)

advance-advance : (n m : ℕ) (c : Cursor) → advance n (advance m c) ≡ advance (m + n) c
advance-advance n m c =
    let e : c.i + m + n ≡ c.i + (m + n) = omega arith in ap (λ k. record c { i = k }) e

advance-zero : (c : Cursor) → advance 0 c ≡ c
advance-zero c = let e : c.i + 0 ≡ c.i = omega arith in ap (λ k. record c { i = k }) e

skip_padding-zeros :
    (fuel n : ℕ) (c : Cursor) (back : Bytes)
    → n ≤ fuel
    → n ≡ missing c.i
    → Unread c (replicate n 0 ++ back)
    → skip_padding fuel c ≡ advance n c
unfolding skip_padding
skip_padding-zeros zero zero c back h e u = sym (advance-zero c)
skip_padding-zeros zero (suc n) c back h e u = absurd (omega arith)
skip_padding-zeros (suc fuel) zero c back h e u = ground (arith, u.no_error, advance-zero c)
skip_padding-zeros (suc fuel) (suc n) c back h e u =
    let one : Bytes = 0 ∷ [] in
    ground (
      arith,
      u.no_error,
      read_lem c one (replicate n 0 ++ back) u,
      skip_padding-zeros fuel n (advance 1 c) back (omega arith) (omega arith)
          (read-Unread c one (replicate n 0 ++ back) u),
      advance-advance n 1 c,
    )

-- The prefix gives the payload's length back, for every payload that three bytes can count.
read_length-prefix :
    (n : ℕ) (c : Cursor) (back : Bytes)
    → n < 2 ^ 24
    → Unread c (length_prefix n ++ back)
    → read_length c ≡ (n, advance (length (length_prefix n)) c)
unfolding read_length length_prefix
read_length-prefix n c back h u = elim (Bool-cases (leb n 253)) [
  | inl short ↦ let p : Bytes = (n % 256) ∷ [] in ground (arith, read_lem c p back (rw short at u))
  | inr long ↦
      let mark : Bytes = 254 ∷ [] in
      let size : Bytes = (n % 256) ∷ (n / 2 ^ 8 % 256) ∷ (n / 2 ^ 16 % 256) ∷ [] in
      let u' : Unread c (mark ++ (size ++ back)) = rw long at u in
      ground (
        arith,
        read_lem c mark (size ++ back) u',
        read_lem (advance 1 c) size back (read-Unread c mark (size ++ back) u'),
        advance-advance 3 1 c,
      )
]

-- What `bytes` appended is read back, and the cursor stands behind the padding.
pub read_bytes-encoded_bytes :
    (p : Bytes) (c : Cursor) (back : Bytes)
    → length p < 2 ^ 24
    → Unread c (encoded_bytes c.i p ++ back)
    → (read_bytes c ≡ (p, advance (length (encoded_bytes c.i p)) c))
      × Unread (advance (length (encoded_bytes c.i p)) c) back
unfolding read_bytes encoded_bytes
read_bytes-encoded_bytes p c back h u =
    let pre = length_prefix (length p) in
    let n = missing (c.i + length pre + length p) in
    let zeros : Bytes = replicate n 0 in
    let u0 : Unread c (pre ++ (p ++ (zeros ++ back))) = simp append_assoc at u in
    let u1 = read-Unread c pre (p ++ (zeros ++ back)) u0 in
    let c1 = advance (length pre) c in
    let u2 = read-Unread c1 p (zeros ++ back) u1 in
    let c2 = advance (length p) c1 in
    let z : length zeros ≡ n = length-replicate n 0 in
    let whole = pre ++ (p ++ zeros) in
    let sizes : c.i + length pre + length p + n ≡ c.i + length whole =
      omega (arith, length-append pre (p ++ zeros), length-append p zeros, z) in
    let last : advance n c2 ≡ advance (length whole) c = ap (λ k. record c { i = k }) sizes in
    let all : Unread (advance (length zeros) c2) back = read-Unread c2 zeros back u2 in
    let run : read_bytes c ≡ (p, advance n c2) =
      rw
        (
          read_length-prefix (length p) c _ h u0,
          read_lem c1 p (zeros ++ back) u1,
          skip_padding-zeros 3 n c2 back (omega arith) refl u2,
        )
        refl in
    (run ∙ ap (λ k. (p, k)) last, subst (λ k. Unread k back) (ap (λ k. advance k c2) z ∙ last) all)

-- What `bytes` appended to a slice is read back by a cursor that stands at the slice's end, for a
-- payload below 2^24 bytes; the cursor then stands behind what was appended, and has no error.
pub read_bytes-append_bytes :
    (p b back : Bytes)
    → length p < 2 ^ 24
    → read_bytes (record { b = append_bytes p b ++ back; i = length b; error = none })
      ≡ (p, record { b = append_bytes p b ++ back; i = length (append_bytes p b); error = none })
read_bytes-append_bytes p b back h =
    let e = append_bytes-encoded_bytes p b in
    let c : Cursor = record { b = append_bytes p b ++ back; i = length b; error = none } in
    let code = encoded_bytes (length b) p in
    let whole : append_bytes p b ++ back ≡ b ++ (code ++ back) =
      ap (λ k. k ++ back) e ∙ append_assoc b code back in
    let u : Unread c (code ++ back) = record {
      no_error = refl;
      in_range = omega (arith, ap length whole, length-append b (code ++ back));
      tail = ap (drop (length b)) whole ∙ drop-append b (code ++ back) (length b) refl;
    } in
    let size : length b + length code ≡ length (append_bytes p b) =
      omega (arith, ap length e, length-append b code) in
    (read_bytes-encoded_bytes p c back h u).0 ∙ ap (λ k. (p, record c { i = k })) size
