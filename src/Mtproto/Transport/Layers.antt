-- ===== src/Mtproto/Transport/Layers.antt =====
-- A framing reads through any layer that changes the bytes under it.
use mtproto_checker.Common.{
  Bool-cases, Result, Result-cases, err, get_or, inl, inr, ltb, ok, refl, ℕ, ◌*◌, ◌==◌, ◌||◌, ◌≡◌,
}
use mtproto_checker.Mtproto.Binary.{uint32_le}
use mtproto_checker.Mtproto.Errors.{Error}
use mtproto_checker.Mtproto.Transport.{
  Reader, Transport, abridged, decode, decode_abridged, decode_intermediate,
  decode_padded_intermediate, intermediate, max_packet_len, padded_intermediate, read_packet,
  read_words,
}

-- A reader's result in another type of states.
abbrev pub moved : {A S T : Type 0} → (S → T) → Result Error (A × S) → Result Error (A × T)
moved f (ok (a, s)) = ok (a, f s)
moved f (err e) = err e

-- The reader of `T` does at `f s` what the reader of `S` does at `s`.
abbrev pub IsLayer : {S T : Type 0} → (S → T) → Reader S → Reader T → Type 0
IsLayer {S} f read_s read_t = (n : ℕ) (s : S) → read_t n (f s) ≡ moved f (read_s n s)

module _ {S T : Type 0} (f : S → T) (read_s : Reader S) (read_t : Reader T)
    (layer : IsLayer f read_s read_t) where
  read_packet-IsLayer :
      (n : ℕ) (s : S) → read_packet read_t n (f s) ≡ moved f (read_packet read_s n s)
  unfolding read_packet
  read_packet-IsLayer n s = elim (Bool-cases (n == 0 || ltb max_packet_len n)) [
    | inl e ↦ rw e refl
    | inr e ↦ rw e (layer n s)
  ]

  decode_intermediate-IsLayer :
      (s : S) → decode_intermediate read_t (f s) ≡ moved f (decode_intermediate read_s s)
  unfolding decode_intermediate
  decode_intermediate-IsLayer s = elim (Result-cases (read_s 4 s)) [
    | inl ((head, s1), e) ↦ rw (layer 4 s, e) (read_packet-IsLayer (uint32_le head) s1)
    | inr (x, e) ↦ rw (layer 4 s, e) refl
  ]

  read_words-IsLayer :
      (first : ℕ) (s : S) → read_words read_t first (f s) ≡ moved f (read_words read_s first s)
  unfolding read_words
  read_words-IsLayer first s = elim (Bool-cases (first == 0x7F)) [
    | inr e ↦ rw e refl
    | inl e ↦ elim (Result-cases (read_s 3 s)) [
      | inl (r, g) ↦ rw (e, layer 3 s, g) refl
      | inr (x, g) ↦ rw (e, layer 3 s, g) refl
    ]
  ]

  decode_abridged-IsLayer :
      (s : S) → decode_abridged read_t (f s) ≡ moved f (decode_abridged read_s s)
  unfolding decode_abridged
  decode_abridged-IsLayer s = elim (Result-cases (read_s 1 s)) [
    | inr (x, e) ↦ rw (layer 1 s, e) refl
    | inl ((first, s1), e) ↦
        let words = read_words-IsLayer (get_or first 0 0) s1 in
        elim (Result-cases (read_words read_s (get_or first 0 0) s1)) [
          | inr (x, g) ↦ rw (layer 1 s, e, words, g) refl
          | inl ((n, s2), g) ↦ rw (layer 1 s, e, words, g) (read_packet-IsLayer (n * 4) s2)
        ]
  ]

  -- Whatever the framing, decoding through the layer gives what decoding below it gives.
  pub decode-IsLayer : (t : Transport) (s : S) → decode read_t t (f s) ≡ moved f (decode read_s t s)
  unfolding decode decode_padded_intermediate
  decode-IsLayer intermediate s = decode_intermediate-IsLayer s
  decode-IsLayer abridged s = decode_abridged-IsLayer s
  decode-IsLayer padded_intermediate s = elim (Result-cases (decode_intermediate read_s s)) [
    | inl (r, e) ↦ rw (decode_intermediate-IsLayer s, e) refl
    | inr (x, e) ↦ rw (decode_intermediate-IsLayer s, e) refl
  ]
