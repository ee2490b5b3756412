-- ===== src/Mtproto/Obfuscate/Packets.antt =====
-- Packets cross an obfuscated connection.
use mtproto_checker.Common.{
  Bool-cases, Bytes, Result, [], ap, arith, bit_xor, drop, err, if◌then◌else◌, inl, inr, length,
  length-take, ltb, ok, ok_cancel, refl, some, suc, sym, take, zero, ℕ, ◌++◌, ◌+◌, ◌∙◌, ◌∷◌, ◌≡◌,
}
use mtproto_checker.Mtproto.Errors.{Error, eof}
use mtproto_checker.Mtproto.Transport.{Reader, Transport, decode, encode, plain_read}
use mtproto_checker.Mtproto.Transport.RoundTrip
use mtproto_checker.Mtproto.Transport.RoundTrip.{decode-encode}
use mtproto_checker.Mtproto.Transport.Layers.{IsLayer, decode-IsLayer, moved}
use mtproto_checker.Mtproto.Obfuscate.{KeyStream, ObfConn, obf_read_full, xor_key_stream}
use mtproto_checker.Mtproto.Obfuscate.Streams.{length-xor_key_stream, xor_key_stream-xor_key_stream}

-- What the peer sends next, from a place of its stream on, as it arrives at the client `c`.
abbrev pub arriving : ObfConn → ℕ × Bytes → ObfConn × Bytes
arriving c (at, s) = (record c { dec_at = at }, xor_key_stream c.dec at s)

-- io.ReadFull on what the peer sends, which counts the place.
abbrev pub counted_read : Reader (ℕ × Bytes)
counted_read n (at, s) = if ltb (length s) n then err eof else ok (take n s, (at + n, drop n s))

take-xor_key_stream :
    (key : KeyStream) (n at : ℕ) (s : Bytes)
    → take n (xor_key_stream key at s) ≡ xor_key_stream key at (take n s)
unfolding xor_key_stream
take-xor_key_stream key zero at s = refl
take-xor_key_stream key (suc n) at [] = refl
take-xor_key_stream key (suc n) at (x ∷ s) =
    ap (◌∷◌ (bit_xor x (key at))) (take-xor_key_stream key n (suc at) s)

drop-xor_key_stream :
    (key : KeyStream) (n at : ℕ) (s : Bytes)
    → drop n (xor_key_stream key at s) ≡ xor_key_stream key (at + n) (drop n s)
unfolding xor_key_stream
drop-xor_key_stream key zero at s =
    let e : at ≡ at + 0 = omega arith in ap (λ k. xor_key_stream key k s) e
drop-xor_key_stream key (suc n) at [] = refl
drop-xor_key_stream key (suc n) at (x ∷ s) =
    let e : suc at + n ≡ at + suc n = omega arith in
    drop-xor_key_stream key n (suc at) s ∙ ap (λ k. xor_key_stream key k (drop n s)) e

obf_read_full-IsLayer : (c : ObfConn) → IsLayer (arriving c) counted_read (obf_read_full plain_read)
unfolding obf_read_full plain_read
obf_read_full-IsLayer c n (at, s) = elim (Bool-cases (ltb (length s) n)) [
  | inl e ↦ rw (length-xor_key_stream c.dec at s, e) refl
  | inr e ↦
      let size : length (take n s) ≡ n = ground (arith, length-take n s) in
      rw
        (
          length-xor_key_stream c.dec at s,
          e,
          take-xor_key_stream c.dec n at s,
          drop-xor_key_stream c.dec n at s,
          xor_key_stream-xor_key_stream c.dec at (take n s),
          length-xor_key_stream c.dec at (take n s),
          size,
        )
        refl
]

counted_read-IsLayer : IsLayer (λ (p : ℕ × Bytes). p.1) counted_read plain_read
unfolding plain_read
counted_read-IsLayer n (at, s) = elim (Bool-cases (ltb (length s) n)) [
  | inl e ↦ rw e refl
  | inr e ↦ rw e refl
]

-- A result that is moved to a known one was itself a success with that value.
moved-ok :
    {A S T : Type 0} (f : S → T) (r : Result Error (A × S)) (a : A) (t : T)
    → moved f r ≡ ok (a, t)
    → (s : S) × (r ≡ ok (a, s)) × (f s ≡ t)
moved-ok {A} {S} {T} f (ok (b, s)) a t e = (
  s,
  ap (λ k. ok (k, s)) (ap (λ (k : A × T). k.0) (ok_cancel _ _ e)),
  ap (λ (k : A × T). k.1) (ok_cancel _ _ e),
)
moved-ok f (err x) a t e = cc

-- A packet that the peer has encoded and encrypted is decoded by the client as it was meant, and
-- the bytes behind it are still to be read, under the stream's next place.
pub decode-obf_read_full :
    (t : Transport) (padding p rest packet : Bytes) (c : ObfConn)
    → RoundTrip.Fits t padding p
    → encode t (some padding) p ≡ ok packet
    → (at : ℕ) × (decode
          (obf_read_full plain_read)
          t
          (c, xor_key_stream c.dec c.dec_at (packet ++ rest))
        ≡ ok (p, (record c { dec_at = at }, xor_key_stream c.dec at rest)))
decode-obf_read_full t padding p rest packet c f e =
    let start : ℕ × Bytes = (c.dec_at, packet ++ rest) in
    let below =
      sym (
        decode-IsLayer (λ (s : ℕ × Bytes). s.1) counted_read plain_read counted_read-IsLayer t
          start)
      ∙ decode-encode t padding p rest packet f e in
    let ((at, s), done, same) =
      moved-ok (λ (s : ℕ × Bytes). s.1) (decode counted_read t start) p rest below in
    let above =
      decode-IsLayer (arriving c) counted_read (obf_read_full plain_read) (obf_read_full-IsLayer c)
        t start in
    (at, above ∙ ap (moved (arriving c)) done ∙ ap (λ k. ok (p, arriving c (at, k))) same)
