-- ===== src/Mtproto/Auth/Answers/Bound.antt =====
-- An answer that is accepted belongs to this exchange.
use mtproto_checker.Common.{
  >>=-eq-ok, Bool, Bool-cases, Bytes, Option-cases, ap, arith, drop, equal, equal_iff, false,
  get_or, if◌then◌else◌, inl, inr, length, ltb, none, not, ok, ok_cancel, refl, slice, suc, sym,
  take, true, zero, ℕ, ◌%◌, ◌&&◌, ◌+◌, ◌==◌, ◌||◌, ◌∙◌, ◌≡◌, ◌≤◌,
}
use mtproto_checker.Common.Guards.{past_equal, past_guard, reject-equal}
use mtproto_checker.Mtproto.Binary.{uint32_le}
use mtproto_checker.Mtproto.Errors.{
  Error, hash_mismatch, inner_too_short, nonce_mismatch, server_nonce_mismatch, unexpected_ctor,
}
use mtproto_checker.Mtproto.Tl.Cursor.{
  Cursor, expect, failed, new_cursor, read, read_bytes, read_int128, read_length, read_uint32,
  set_error, skip_padding,
}
use mtproto_checker.Mtproto.Tl.Read.{IsRead, read-IsRead, some-ne-none}
use mtproto_checker.Mtproto.Auth.Answers.{
  Crypto, DhParams, check_cursor, ctor_dh_gen_ok, ctor_server_dh_inner_data,
  ctor_server_dh_params_ok, match_nonce, new_nonce_hash, parse_inner, parse_server_dh_params,
  verify_dh_gen,
}
use mtproto_checker.Mtproto.Ige.{ige_decrypt}

check_cursor-ok : (c : Cursor) (u : Unit {0}) → check_cursor c ≡ ok u → c.error ≡ none
unfolding check_cursor
check_cursor-ok c u e = elim (Option-cases c.error) [
  | inl calm ↦ calm
  | inr (x, bad) ↦ let wrong = rw (check_cursor, bad) at e in cc
]

-- Where the cursor is fine behind a nonce, the nonce was the one that stands there.
match_nonce-ok :
    (nonce : Bytes) (x : Error) (c c1 : Cursor)
    → match_nonce nonce x c ≡ ok c1
    → c1.error ≡ none
    → IsRead 16 c × (c1.i ≡ c.i + 16) × (c1.b ≡ c.b) × (slice c.i (c.i + 16) c.b ≡ nonce)
unfolding match_nonce
match_nonce-ok nonce x c c1 e calm =
    let (got, c2) = read 16 c in
    elim (Bool-cases (not (equal got nonce) && not (failed c2.error))) [
      | inl other ↦ let wrong = rw (match_nonce, other) at e in cc
      | inr same ↦
          let here : c2 ≡ c1 = ok_cancel c2 c1 (rw (match_nonce, same) at e) in
          let fine : c2.error ≡ none = ap (λ k. k.error) here ∙ calm in
          let r = read-IsRead 16 c fine in
          let good : failed c2.error ≡ false = rw fine refl in
          let eq : equal got nonce ≡ true = ground (arith, same, good) in
          (
            r,
            sym (ap (λ k. k.i) here) ∙ ap (λ k. k.1.i) r.result,
            sym (ap (λ k. k.b) here) ∙ ap (λ k. k.1.b) r.result,
            sym (ap (λ k. k.0) r.result) ∙ (equal_iff got nonce).0 eq,
          )
    ]

no_error_set :
    (c : Cursor) (b : Bool) (x : Error)
    → (if failed c.error || b then c else set_error x c).error ≡ none
    → (b ≡ true) × ((if failed c.error || b then c else set_error x c) ≡ c)
no_error_set c true x e = elim (Option-cases c.error) [
  | inl calm ↦ (refl, rw calm refl)
  | inr (y, bad) ↦ (refl, rw bad refl)
]
no_error_set c false x e = elim (Option-cases c.error) [
  | inl calm ↦ let wrong = rw calm at e in absurd (some-ne-none wrong)
  | inr (y, bad) ↦ let wrong = rw bad at e in absurd (some-ne-none wrong)
]

expect-ok :
    (want : ℕ) (c : Cursor)
    → (expect want c).error ≡ none
    → IsRead 4 c
      × ((expect want c).i ≡ c.i + 4)
      × ((expect want c).b ≡ c.b)
      × (uint32_le (slice c.i (c.i + 4) c.b) ≡ want)
unfolding expect read_uint32
expect-ok want c e =
    let c1 = (read 4 c).1 in
    let got = uint32_le (read 4 c).0 in
    let (same, kept) = no_error_set c1 (got == want) (unexpected_ctor got) e in
    let calm : c1.error ≡ none = sym (ap (λ k. k.error) kept) ∙ e in
    let r = read-IsRead 4 c calm in
    (
      r,
      ap (λ k. k.i) kept ∙ ap (λ k. k.1.i) r.result,
      ap (λ k. k.b) kept ∙ ap (λ k. k.1.b) r.result,
      ap uint32_le (sym (ap (λ k. k.0) r.result)) ∙ ground (arith, same),
    )

-- The constructor and the two nonces with which an answer starts.
pub record IsBound (ctor : ℕ) (payload nonce server_nonce : Bytes) : Type 0 where
  pub long : 36 ≤ length payload
  pub named : uint32_le (slice 0 4 payload) ≡ ctor
  pub ours : slice 4 20 payload ≡ nonce
  pub theirs : slice 20 36 payload ≡ server_nonce

heads-IsBound :
    (ctor : ℕ) (payload nonce server_nonce : Bytes) (x y : Error) (c1 c2 : Cursor)
    → match_nonce nonce x (expect ctor (new_cursor payload)) ≡ ok c1
    → match_nonce server_nonce y c1 ≡ ok c2
    → c2.error ≡ none
    → IsBound ctor payload nonce server_nonce × (c2.i ≡ 36) × (c2.b ≡ payload)
heads-IsBound ctor payload nonce server_nonce x y c1 c2 e1 e2 calm =
    let c0 = expect ctor (new_cursor payload) in
    let (r2, i2, b2, n2) = match_nonce-ok server_nonce y c1 c2 e2 calm in
    let (r1, i1, b1, n1) = match_nonce-ok nonce x c0 c1 e1 r2.no_error in
    let (r0, i0, b0, n0) = expect-ok ctor (new_cursor payload) r1.no_error in
    let at0 : c0.i ≡ 4 = i0 in
    let at1 : c1.i ≡ 20 = i1 ∙ ap (λ n. n + 16) at0 in
    let whole1 : c1.b ≡ payload = b1 ∙ b0 in
    let size : length c1.b ≡ length payload = ap (length {A = ℕ}) whole1 in
    (
      record {
        long = omega (arith, r2.in_range, at1, size);
        named = n0;
        ours = cc (n1, at0, b0);
        theirs = cc (n2, at1, whole1);
      },
      i2 ∙ ap (λ n. n + 16) at1,
      b2 ∙ whole1,
    )

-- An answer to the last step that is accepted names `dh_gen_ok`, repeats both nonces of this
-- exchange, and carries the digest of the new nonce and of the key that the client computed: only
-- who knows both can have made it, if the digest is a good one.
pub verify_dh_gen-IsBound :
    (crypto : Crypto) (payload nonce server_nonce new_nonce shared : Bytes) (u : Unit {0})
    → verify_dh_gen crypto payload nonce server_nonce new_nonce shared ≡ ok u
    → IsBound ctor_dh_gen_ok payload nonce server_nonce
      × (slice 36 52 payload ≡ new_nonce_hash crypto new_nonce shared)
unfolding verify_dh_gen
verify_dh_gen-IsBound crypto payload nonce server_nonce new_nonce shared u e =
    let (c1, e1, f1) =
      >>=-eq-ok (match_nonce nonce nonce_mismatch (expect ctor_dh_gen_ok (new_cursor payload))) _
        e in
    let (c2, e2, f2) = >>=-eq-ok (match_nonce server_nonce server_nonce_mismatch c1) _ f1 in
    let (got, c3) = read_int128 c2 in
    let (v, e3, f3) = >>=-eq-ok (check_cursor c3) _ f2 in
    let r3 = read-IsRead 16 c2 (check_cursor-ok c3 v e3) in
    let (bound, at2, whole2) =
      heads-IsBound ctor_dh_gen_ok payload nonce server_nonce nonce_mismatch server_nonce_mismatch
        c1 c2 e1 e2 r3.no_error in
    let same = reject-equal got (new_nonce_hash crypto new_nonce shared) hash_mismatch u f3 in
    let cut : got ≡ slice 36 52 payload = ap (λ k. k.0) r3.result ∙ cc (at2, whole2) in
    (bound, sym cut ∙ same)

-- A later read without an error had none before it.
skip_padding-no_error :
    (fuel : ℕ) (c : Cursor) → (skip_padding fuel c).error ≡ none → c.error ≡ none
unfolding skip_padding
skip_padding-no_error zero c e = e
skip_padding-no_error (suc fuel) c e =
    elim (Bool-cases (not (c.i % 4 == 0) && not (failed c.error))) [
      | inl go ↦
          let later = rw (skip_padding, go) at e in
          (read-IsRead 1 c (skip_padding-no_error fuel (read 1 c).1 later)).no_error
      | inr stop ↦ rw (skip_padding, stop) at e
    ]

read_length-no_error : (c : Cursor) → (read_length c).1.error ≡ none → c.error ≡ none
unfolding read_length
read_length-no_error c e =
    let (first, c1) = read 1 c in
    elim (Bool-cases (get_or first 0 0 == 254)) [
      | inl long ↦
          (read-IsRead 1 c (read-IsRead 3 c1 (rw (read_length, long) at e)).no_error).no_error
      | inr short ↦ (read-IsRead 1 c (rw (read_length, short) at e)).no_error
    ]

read_bytes-no_error : (c : Cursor) → (read_bytes c).1.error ≡ none → c.error ≡ none
unfolding read_bytes
read_bytes-no_error c e =
    let (n, c1) = read_length c in
    let c2 = (read n c1).1 in
    read_length-no_error c (read-IsRead n c1 (skip_padding-no_error 3 c2 e)).no_error

parse_inner-IsBound :
    (crypto : Crypto) (inner nonce server_nonce : Bytes) (found : DhParams)
    → parse_inner crypto inner nonce server_nonce ≡ ok found
    → (size : ℕ) × IsBound ctor_server_dh_inner_data (drop 20 inner) nonce server_nonce
      × (crypto.sha1 (slice 20 (20 + size) inner) ≡ take 20 inner)
unfolding parse_inner read_uint32
parse_inner-IsBound crypto inner nonce server_nonce found e =
    let (long, f0) = past_guard (ltb (length inner) 20) inner_too_short _ found e in
    let (i1, e1, f1) =
      >>=-eq-ok
        (match_nonce nonce nonce_mismatch
          (expect ctor_server_dh_inner_data (new_cursor (drop 20 inner))))
        _ f0 in
    let (i2, e2, f2) = >>=-eq-ok (match_nonce server_nonce server_nonce_mismatch i1) _ f1 in
    let i3 = (read 4 i2).1 in
    let i4 = (read_bytes i3).1 in
    let i5 = (read_bytes i4).1 in
    let i6 = (read 4 i5).1 in
    let (v, e3, f3) = >>=-eq-ok (check_cursor i6) _ f2 in
    let calm5 = (read-IsRead 4 i5 (check_cursor-ok i6 v e3)).no_error in
    let calm3 = read_bytes-no_error i3 (read_bytes-no_error i4 calm5) in
    let calm2 = (read-IsRead 4 i2 calm3).no_error in
    let (bound, at2, whole2) =
      heads-IsBound ctor_server_dh_inner_data (drop 20 inner) nonce server_nonce nonce_mismatch
        server_nonce_mismatch i1 i2 e1 e2 calm2 in
    let (digest, f4) =
      past_equal (crypto.sha1 (slice 20 (20 + i6.i) inner)) (take 20 inner) hash_mismatch _ found
        f3 in
    (i6.i, bound, digest)

-- The parameters that are accepted came in an answer that names `server_DH_params_ok` and repeats
-- both nonces; and the plain text in it has the digest of its inner data in front, and repeats them
-- again.
pub parse_server_dh_params-IsBound :
    (crypto : Crypto) (payload nonce server_nonce tmp_key tmp_iv : Bytes) (found : DhParams)
    → parse_server_dh_params crypto payload nonce server_nonce tmp_key tmp_iv ≡ ok found
    → IsBound ctor_server_dh_params_ok payload nonce server_nonce
      × ((answer : Bytes) × (inner : Bytes) × (size : ℕ) × (ige_decrypt crypto.new_cipher answer
              tmp_key tmp_iv
            ≡ ok inner)
          × IsBound ctor_server_dh_inner_data (drop 20 inner) nonce server_nonce
          × (crypto.sha1 (slice 20 (20 + size) inner) ≡ take 20 inner))
unfolding parse_server_dh_params
parse_server_dh_params-IsBound crypto payload nonce server_nonce tmp_key tmp_iv found e =
    let (c1, e1, f1) =
      >>=-eq-ok
        (match_nonce nonce nonce_mismatch (expect ctor_server_dh_params_ok (new_cursor payload))) _
        e in
    let (c2, e2, f2) = >>=-eq-ok (match_nonce server_nonce server_nonce_mismatch c1) _ f1 in
    let (answer, c3) = read_bytes c2 in
    let (v, e3, f3) = >>=-eq-ok (check_cursor c3) _ f2 in
    let (inner, opened, f4) =
      >>=-eq-ok (ige_decrypt crypto.new_cipher answer tmp_key tmp_iv) _ f3 in
    let calm = read_bytes-no_error c2 (check_cursor-ok c3 v e3) in
    let (bound, at2, whole2) =
      heads-IsBound ctor_server_dh_params_ok payload nonce server_nonce nonce_mismatch
        server_nonce_mismatch c1 c2 e1 e2 calm in
    let (size, within, digest) = parse_inner-IsBound crypto inner nonce server_nonce found f4 in
    (bound, (answer, inner, size, opened, within, digest))
