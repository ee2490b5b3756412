-- ===== src/Mtproto/Api/Answer.antt =====
-- What an answer of `dispatch` has shown.
use mathlib.Core.Path.{subst}
use mtproto_checker.Common.{
  >>=-eq-ok, Bool, Bool-cases, Bytes, Option-cases, Result, Result-cases, ap, arith, drop, err,
  false, inl, inr, length, ltb, ok, slice, suc, sym, take, zero, ℕ, ◌+◌, ◌==◌, ◌∙◌, ◌≡◌, ◌≢◌, ◌≤◌,
  ◌⊎◌,
}
use mtproto_checker.Mtproto.Binary.{uint32_le, uint64_le}
use mtproto_checker.Mtproto.Errors.{Error}
use mtproto_checker.Mtproto.Tl.Cursor.{Cursor, new_cursor, read, read_uint64}
use mtproto_checker.Mtproto.Tl.Read.{read-IsRead, read-keeps}
use mtproto_checker.Mtproto.Session.{
  Session, container_head, ctor_msg_container, ctor_rpc_error, entry_head,
}
use mtproto_checker.Mtproto.Session.Pong.{container_head-keeps, entry_head-keeps}
use mtproto_checker.Mtproto.Api.{
  Reply, bad_salt, ctor_gzip_packed, ctor_rpc_result, dispatch, dispatch_container,
  dispatch_entries, dispatch_packed, dispatch_step, found, new_salt, nothing, or_next, read_result,
  read_salt, refuse_error, retry, starts_with, unwrap,
}

-- A message answers a query with a payload: it is an rpc_result with the query's id, and what it
-- holds unwraps to the payload, which is no rpc_error; or it is packed, and unwraps to such a
-- message; or it is a container, and such a message stands in it.
pub data IsReply (gunzip : Bytes → Result Error Bytes) (msg_id : ℕ) (payload : Bytes)
    : Bytes → Type 0 where
  answer :
      {body : Bytes}
      → uint32_le (take 4 body) ≡ ctor_rpc_result
      → uint64_le (slice 4 12 body) ≡ msg_id
      → 12 ≤ length body
      → unwrap gunzip (drop 12 body) ≡ ok payload
      → starts_with ctor_rpc_error payload ≡ false
      → IsReply gunzip msg_id payload body
  packed :
      {body inner : Bytes}
      → uint32_le (take 4 body) ≡ ctor_gzip_packed
      → unwrap gunzip body ≡ ok inner
      → IsReply gunzip msg_id payload inner
      → IsReply gunzip msg_id payload body
  listed :
      {body : Bytes} (a b : ℕ)
      → uint32_le (take 4 body) ≡ ctor_msg_container
      → b ≤ length body
      → IsReply gunzip msg_id payload (slice a b body)
      → IsReply gunzip msg_id payload body

module _ (gunzip : Bytes → Result Error Bytes) (msg_id : ℕ) (payload : Bytes) where
  refuse_error-found :
      (x : Bytes)
      → refuse_error gunzip x ≡ ok (found payload)
      → (x ≡ payload) × (starts_with ctor_rpc_error payload ≡ false)
  unfolding refuse_error
  refuse_error-found x e = elim (Bool-cases (starts_with ctor_rpc_error x)) [
    | inl bad ↦ let wrong = rw (refuse_error, bad) at e in cc
    | inr fine ↦ let same = rw (refuse_error, fine) at e in (cc, cc)
  ]

  read_result-IsReply :
      (body : Bytes)
      → uint32_le (take 4 body) ≡ ctor_rpc_result
      → read_result gunzip msg_id body ≡ ok (found payload)
      → IsReply gunzip msg_id payload body
  unfolding read_result read_uint64
  read_result-IsReply body named e =
      let c1 = (read 4 (new_cursor body)).1 in
      let c2 = read 8 c1 in
      elim (Option-cases c2.1.error) [
        | inr (x, bad) ↦ let wrong = rw (read_result, read_uint64, bad) at e in cc
        | inl calm ↦
            let r2 = read-IsRead 8 c1 calm in
            let r1 = read-IsRead 4 (new_cursor body) r2.no_error in
            let i1 : c1.i ≡ 4 = ap (λ r. r.1.i) r1.result in
            let b1 : c1.b ≡ body = ap (λ r. r.1.b) r1.result in
            let i2 : c2.1.i ≡ 12 = ap (λ r. r.1.i) r2.result ∙ ap (λ n. n + 8) i1 in
            let got : c2.0 ≡ slice 4 12 body = ap (λ r. r.0) r2.result ∙ cc (i1, b1) in
            let l1 : length c1.b ≡ length body = ap (length {A = ℕ}) b1 in
            elim (Bool-cases (uint64_le c2.0 == msg_id)) [
              | inr other ↦ let wrong = rw (read_result, read_uint64, calm, other) at e in cc
              | inl same ↦
                  let e1 = rw (read_result, read_uint64, calm, same) at e in
                  let (x, unwrapped, e2) = >>=-eq-ok (unwrap gunzip (drop c2.1.i body)) _ e1 in
                  let (is, fine) = refuse_error-found x e2 in
                  answer named (ap uint64_le (sym got) ∙ ground (arith, same))
                    (omega (arith, r2.in_range, i1, l1))
                    (subst (λ k. unwrap gunzip (drop k body) ≡ ok payload) i2
                      (unwrapped ∙ ap ok is))
                    fine
            ]
      ]

or_next-found :
    (r : Result Error Reply × Session) (next : Session → Result Error Reply × Session)
    (payload : Bytes)
    → (or_next r next).0 ≡ ok (found payload)
    → (r.0 ≡ ok (found payload)) ⊎ ((next r.1).0 ≡ ok (found payload))
unfolding or_next
or_next-found (err x, s) next payload e = inl e
or_next-found (ok nothing, s) next payload e = inr e
or_next-found (ok retry, s) next payload e = inl e
or_next-found (ok (found x), s) next payload e = inl e

-- The calls within, and what they have shown of an entry.
module _ (inner : Bytes → Session → Result Error Reply × Session) (payload : Bytes)
    (Shown : Bytes → Type 0)
    (sound : (x : Bytes) (s : Session) → (inner x s).0 ≡ ok (found payload) → Shown x) where
  dispatch_entries-found :
      (limit count : ℕ) (c : Cursor) (s : Session)
      → (dispatch_entries inner limit count c s).0 ≡ ok (found payload)
      → (a b : ℕ) × (b ≤ length c.b) × Shown (slice a b c.b)
  unfolding dispatch_entries
  dispatch_entries-found limit zero c s e = cc
  dispatch_entries-found limit (suc count) c s e =
      let (size, c1) = entry_head c in
      let (entry, c2) = read size c1 in
      let (b1, i1) = entry_head-keeps c in
      let (b2, i2) = read-keeps size c1 in
      let l1 : length c1.b ≡ length c.b = ap (length {A = ℕ}) b1 in
      elim (Bool-cases (ltb limit size)) [
        | inl long ↦ let wrong = rw (dispatch_entries, long) at e in cc
        | inr fits ↦ elim (Option-cases c2.error) [
          | inr (x, bad) ↦ let wrong = rw (dispatch_entries, fits, bad) at e in cc
          | inl calm ↦
              let r = read-IsRead size c1 calm in
              let e1 = rw (dispatch_entries, fits, calm) at e in
              elim (or_next-found (inner entry s) _ payload e1) [
                | inl here ↦
                    let text : entry ≡ slice c1.i (c1.i + size) c.b =
                      ap (λ k. k.0) r.result ∙ ap (slice c1.i (c1.i + size)) b1 in
                    (
                      c1.i,
                      c1.i + size,
                      omega (arith, r.in_range, l1),
                      subst Shown text (sound entry s here),
                    )
                | inr later ↦
                    subst (λ k. (a b : ℕ) × (b ≤ length k) × Shown (slice a b k)) (b2 ∙ b1)
                      (dispatch_entries-found limit count c2 (inner entry s).1 later)
              ]
        ]
      ]

  dispatch_container-found :
      (body : Bytes) (s : Session)
      → 4 ≤ length body
      → (dispatch_container inner body s).0 ≡ ok (found payload)
      → (a b : ℕ) × (b ≤ length body) × Shown (slice a b body)
  unfolding dispatch_container
  dispatch_container-found body s h e =
      let (count, c) = container_head body in
      elim (Bool-cases (ltb 64 count)) [
        | inl many ↦ let wrong = rw (dispatch_container, many) at e in cc
        | inr few ↦
            let e1 = rw (dispatch_container, few) at e in
            subst (λ k. (a b : ℕ) × (b ≤ length k) × Shown (slice a b k))
              (container_head-keeps body h).0 (dispatch_entries-found (length body) count c s e1)
      ]

salts-not-found :
    (body : Bytes) (s : Session) (payload : Bytes)
    → ((bad_salt body s).0 ≢ ok (found payload)) × ((new_salt body s).0 ≢ ok (found payload))
unfolding bad_salt new_salt
salts-not-found body s payload =
    let head = (read 4 (read 4 (read 8 (read 4 (new_cursor body)).1).1).1).1 in
    (
      λ e. elim (Option-cases (read_salt head s).0) [
        | inl calm ↦ let wrong = rw (bad_salt, calm) at e in cc
        | inr (x, bad) ↦ let wrong = rw (bad_salt, bad) at e in cc
      ],
      λ e. cc,
    )

module _ (gunzip : Bytes → Result Error Bytes) (msg_id : ℕ) (payload : Bytes) where
  module _ (inner : Bytes → Session → Result Error Reply × Session)
      (sound : (x : Bytes) (s : Session)
        → (inner x s).0 ≡ ok (found payload)
        → IsReply gunzip msg_id payload x) where
    unpack-IsReply :
        (body : Bytes) (s : Session)
        → uint32_le (take 4 body) ≡ ctor_gzip_packed
        → (dispatch_packed gunzip inner body s).0 ≡ ok (found payload)
        → IsReply gunzip msg_id payload body
    unfolding dispatch_packed
    unpack-IsReply body s named e = elim (Result-cases (unwrap gunzip body)) [
      | inl (x, opened) ↦
          let e1 = rw (dispatch_packed, opened) at e in packed named opened (sound x s e1)
      | inr (x, bad) ↦ let wrong = rw (dispatch_packed, bad) at e in cc
    ]

    dispatch_step-IsReply :
        (body : Bytes) (s : Session)
        → (dispatch_step gunzip inner msg_id body s).0 ≡ ok (found payload)
        → IsReply gunzip msg_id payload body
    unfolding dispatch_step
    dispatch_step-IsReply body s e =
        let is : (ctor : ℕ) → Bool = λ ctor. uint32_le (take 4 body) == ctor in
        elim (Bool-cases (ltb (length body) 4)) [
          | inl short ↦ let wrong = rw (dispatch_step, short) at e in cc
          | inr long ↦ elim (Bool-cases (is ctor_rpc_result)) [
            | inl a ↦
                let e1 = rw (dispatch_step, long, a) at e in
                read_result-IsReply gunzip msg_id payload body (ground (arith, a)) e1
            | inr a ↦ elim (Bool-cases (is ctor_gzip_packed)) [
              | inl b ↦
                  let e1 = rw (dispatch_step, long, a, b) at e in
                  unpack-IsReply body s (ground (arith, b)) e1
              | inr b ↦ elim (Bool-cases (is ctor_msg_container)) [
                | inl d ↦
                    let e1 = rw (dispatch_step, long, a, b, d) at e in
                    let (from, to, h, shown) =
                      dispatch_container-found inner payload (IsReply gunzip msg_id payload) sound
                        body s (ground (arith, long)) e1 in
                    listed from to (ground (arith, d)) h shown
                | inr d ↦
                    let (x, y) = salts-not-found body s payload in
                    let e1 = rw (dispatch_step, long, a, b, d) at e in
                    absurd (ground (arith, x, y, e1))
              ]
            ]
          ]
        ]

  -- A payload that `dispatch` finds in a message answers the query.
  pub dispatch-IsReply :
      (depth : ℕ) (body : Bytes) (s : Session)
      → (dispatch gunzip depth msg_id body s).0 ≡ ok (found payload)
      → IsReply gunzip msg_id payload body
  unfolding dispatch
  dispatch-IsReply zero body s e = cc
  dispatch-IsReply (suc depth) body s e =
      dispatch_step-IsReply (λ x t. dispatch gunzip depth msg_id x t)
        (λ x t. dispatch-IsReply depth x t) body s e
