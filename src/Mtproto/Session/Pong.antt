-- ===== src/Mtproto/Session/Pong.antt =====
-- The search for a pong: it ends, and what it finds is there.
use mathlib.Core.Path.{subst}
use mtproto_checker.Common.{
  Bool, Bool-cases, Bytes, Option-cases, Result, ap, arith, equal, equal_iff, err, false,
  if◌then◌else◌, inl, inr, length, length-slice, le→ltb_false, ltb, none, ok, refl, slice,
  slice-slice, suc, sym, take, true, zero, ℕ, ◌+◌, ◌-◌, ◌<◌, ◌==◌, ◌||◌, ◌∙◌, ◌≡◌, ◌≢◌, ◌≤◌, ◌⊎◌,
}
use mtproto_checker.Mtproto.Binary.{uint32_le}
use mtproto_checker.Mtproto.Errors.{Error, rpc_error}
use mtproto_checker.Mtproto.Tl.Cursor.{Cursor, new_cursor, read, read_uint32}
use mtproto_checker.Mtproto.Tl.Read.{length-read, read-IsRead, read-keeps}
use mtproto_checker.Mtproto.Session.{
  container_head, contains_pong, contains_pong_from, ctor_bad_msg_notification,
  ctor_bad_server_salt, ctor_msg_container, ctor_new_session_created, ctor_pong, ctor_rpc_error,
  entries, entry_head, first_found, pong_step, read_container, read_pong,
}

-- Somewhere in the bytes stand the constructor of a pong, 8 bytes, and the ping's id.
pub record HasPong (ping_id body : Bytes) : Type 0 where
  pub at : ℕ
  pub in_range : at + 20 ≤ length body
  pub named : uint32_le (slice at (at + 4) body) ≡ ctor_pong
  pub answers : slice (at + 12) (at + 20) body ≡ ping_id

pub entry_head-keeps : (c : Cursor) → ((entry_head c).1.b ≡ c.b) × (c.i ≤ (entry_head c).1.i)
unfolding entry_head read_uint32
entry_head-keeps c =
    let c1 = (read 8 c).1 in
    let c2 = (read 4 c1).1 in
    let (b1, i1) = read-keeps 8 c in
    let (b2, i2) = read-keeps 4 c1 in let (b3, i3) = read-keeps 4 c2 in (b3 ∙ b2 ∙ b1, omega arith)

HasPong-slice :
    (ping_id : Bytes) (a b : ℕ) (xs : Bytes)
    → b ≤ length xs
    → HasPong ping_id (slice a b xs)
    → HasPong ping_id xs
HasPong-slice ping_id a b xs h p =
    let size : p.at + 20 ≤ b - a = omega (arith, p.in_range, length-slice a b xs h) in
    let e4 : a + (p.at + 4) ≡ a + p.at + 4 = omega arith in
    let e12 : a + (p.at + 12) ≡ a + p.at + 12 = omega arith in
    let e20 : a + (p.at + 20) ≡ a + p.at + 20 = omega arith in
    let front = slice-slice p.at (p.at + 4) a b xs (omega arith) (omega arith) in
    let last = slice-slice (p.at + 12) (p.at + 20) a b xs (omega arith) (omega arith) in
    record {
      at = a + p.at;
      in_range = omega arith;
      named =
          ap (λ k. uint32_le (slice (a + p.at) k xs)) (sym e4) ∙ ap uint32_le (sym front) ∙ p.named;
      answers = cc (e12, e20, last, p.answers);
    }

read_pong-HasPong :
    (body ping_id : Bytes)
    → uint32_le (take 4 body) ≡ ctor_pong
    → read_pong body ping_id ≡ ok true
    → HasPong ping_id body
unfolding read_pong
read_pong-HasPong body ping_id named e =
    let c1 = (read 4 (new_cursor body)).1 in
    let c2 = (read 8 c1).1 in
    let c3 = read 8 c2 in
    let last : c3.1.error ≡ none → HasPong ping_id body = λ calm.
      let r3 = read-IsRead 8 c2 calm in
      let r2 = read-IsRead 8 c1 r3.no_error in
      let r1 = read-IsRead 4 (new_cursor body) r2.no_error in
      let i1 : c1.i ≡ 4 = ap (λ r. r.1.i) r1.result in
      let b1 : c1.b ≡ body = ap (λ r. r.1.b) r1.result in
      let i2 : c2.i ≡ 12 = ap (λ r. r.1.i) r2.result ∙ ap (λ n. n + 8) i1 in
      let b2 : c2.b ≡ body = ap (λ r. r.1.b) r2.result ∙ b1 in
      let got : c3.0 ≡ slice 12 20 body = ap (λ r. r.0) r3.result ∙ cc (i2, b2) in
      let e1 = rw (read_pong, calm) at e in
      let same : equal c3.0 ping_id ≡ true = ground (arith, e1) in
      let l2 : length c2.b ≡ length body = ap (length {A = ℕ}) b2 in
      record {
        at = 0;
        in_range = omega (arith, r3.in_range, i2, l2);
        named = named;
        answers = sym got ∙ (equal_iff c3.0 ping_id).0 same;
      } in
    elim (Option-cases c3.1.error) [
      | inl calm ↦ last calm
      | inr (x, bad) ↦ let wrong = rw (read_pong, bad) at e in cc
    ]

read_four : (body : Bytes) → 4 ≤ length body → (read 4 (new_cursor body)).1.i ≡ 4
unfolding read
read_four body h =
    let fits : ltb (length body) 4 ≡ false = le→ltb_false (length body) 4 h in rw fits refl

pub container_head-keeps :
    (body : Bytes)
    → 4 ≤ length body
    → ((container_head body).1.b ≡ body) × (1 ≤ (container_head body).1.i)
unfolding container_head read_uint32
container_head-keeps body h =
    let c1 = (read 4 (new_cursor body)).1 in
    let (b1, i1) = read-keeps 4 (new_cursor body) in
    let (b2, i2) = read-keeps 4 c1 in (b2 ∙ b1, omega (arith, read_four body h))

first_found-true :
    (a rest : Result Error Bool) → first_found a rest ≡ ok true → (a ≡ ok true) ⊎ (rest ≡ ok true)
unfolding first_found
first_found-true (ok true) rest e = inl refl
first_found-true (ok false) rest e = inr e
first_found-true (err x) rest e = inr e

module _ (inner : Bytes → Result Error Bool) (ping_id : Bytes)
    (sound : (x : Bytes) → inner x ≡ ok true → HasPong ping_id x) where
  entries-HasPong :
      (limit count : ℕ) (c : Cursor) → entries inner limit count c ≡ ok true → HasPong ping_id c.b
  unfolding entries
  entries-HasPong limit zero c e = cc
  entries-HasPong limit (suc count) c e =
      let (size, c1) = entry_head c in
      let (entry, c2) = read size c1 in
      let (b1, i1) = entry_head-keeps c in
      let (b2, i2) = read-keeps size c1 in
      elim (Bool-cases (ltb limit size)) [
        | inl long ↦ let wrong = rw (entries, long) at e in cc
        | inr fits ↦ elim (Option-cases c2.error) [
          | inr (x, bad) ↦ let wrong = rw (entries, fits, bad) at e in cc
          | inl calm ↦
              let r = read-IsRead size c1 calm in
              let found = rw (entries, fits, calm) at e in
              elim (first_found-true (inner entry) (entries inner limit count c2) found) [
                | inl here ↦ subst (HasPong ping_id) b1 (
                    HasPong-slice ping_id c1.i (c1.i + size) c1.b r.in_range
                      (subst (HasPong ping_id) (ap (λ k. k.0) r.result) (sound entry here)))
                | inr later ↦
                    subst (HasPong ping_id) (b2 ∙ b1) (entries-HasPong limit count c2 later)
              ]
        ]
      ]

-- The code's own equation: a call is one step that makes the calls within.
module _ (f g : Bytes → Result Error Bool) (body : Bytes)
    (agree : (x : Bytes) → length x < length body → f x ≡ g x) where
  entries-same :
      (limit count : ℕ) (c : Cursor)
      → c.b ≡ body
      → 1 ≤ c.i
      → entries f limit count c ≡ entries g limit count c
  unfolding entries
  entries-same limit zero c hb hi = refl
  entries-same limit (suc count) c hb hi =
      let (size, c1) = entry_head c in
      let (entry, c2) = read size c1 in
      let (b1, i1) = entry_head-keeps c in
      let (b2, i2) = read-keeps size c1 in
      let same = entries-same limit count c2 (b2 ∙ b1 ∙ hb) (omega arith) in
      elim (Option-cases c2.error) [
        | inl calm ↦
            let r = read-IsRead size c1 calm in
            let long : length entry ≡ size = length-read size c1 calm in
            let lb : length c1.b ≡ length body = ap (length {A = ℕ}) (b1 ∙ hb) in
            let ag : f entry ≡ g entry = agree entry (omega arith) in rw (calm, ag, same) refl
        | inr (x, bad) ↦ rw bad refl
      ]

  read_container-same : 4 ≤ length body → read_container f body ≡ read_container g body
  unfolding read_container
  read_container-same h =
      let (count, c) = container_head body in
      let (hb, hi) = container_head-keeps body h in
      rw (entries-same (length body) count c hb hi) refl

  pong_step-same : (ping_id : Bytes) → pong_step f ping_id body ≡ pong_step g ping_id body
  unfolding pong_step
  pong_step-same ping_id = elim (Bool-cases (ltb (length body) 4)) [
    | inl short ↦ rw short refl
    | inr long ↦ rw (read_container-same (ground arith)) refl
  ]

contains_pong_from-same :
    (k m : ℕ) (ping_id body : Bytes)
    → length body < k
    → length body < m
    → contains_pong_from k ping_id body ≡ contains_pong_from m ping_id body
unfolding contains_pong_from
contains_pong_from-same zero m ping_id body hk hm = absurd (omega arith)
contains_pong_from-same (suc k) zero ping_id body hk hm = absurd (omega arith)
contains_pong_from-same (suc k) (suc m) ping_id body hk hm =
    pong_step-same (λ x. contains_pong_from k ping_id x) (λ x. contains_pong_from m ping_id x) body
      (λ x h. contains_pong_from-same k m ping_id x (omega arith) (omega arith)) ping_id

-- `containsPong` satisfies the equation that its body is: what it gives for a body is one pass over
-- that body with `containsPong` itself for the entries. So the recursion ends, and the depth that it
-- is given here is never what stops it.
pub contains_pong-pong_step :
    (ping_id body : Bytes)
    → contains_pong body ping_id ≡ pong_step (λ x. contains_pong x ping_id) ping_id body
unfolding contains_pong contains_pong_from
contains_pong-pong_step ping_id body =
    pong_step-same (λ x. contains_pong_from (length body) ping_id x)
      (λ x. contains_pong_from (suc (length x)) ping_id x) body
      (λ x h. contains_pong_from-same (length body) (suc (length x)) ping_id x h (omega arith))
      ping_id

quiet : (a b : Bool) → (if a then ok false else if b then err rpc_error else ok false) ≢ ok true
quiet true b e = cc
quiet false true e = cc
quiet false false e = cc

module _ (inner : Bytes → Result Error Bool) (ping_id body : Bytes)
    (sound : (x : Bytes) → inner x ≡ ok true → HasPong ping_id x) where
  read_container-HasPong :
      4 ≤ length body → read_container inner body ≡ ok true → HasPong ping_id body
  unfolding read_container
  read_container-HasPong h e =
      let (count, c) = container_head body in
      let (hb, hi) = container_head-keeps body h in
      elim (Bool-cases (ltb 64 count)) [
        | inl many ↦ let wrong = rw (read_container, many) at e in cc
        | inr few ↦ subst (HasPong ping_id) hb (
            entries-HasPong inner ping_id sound (length body) count c
              (rw (read_container, few) at e))
      ]

  pong_step-HasPong : pong_step inner ping_id body ≡ ok true → HasPong ping_id body
  unfolding pong_step
  pong_step-HasPong e =
      let ctor = uint32_le (take 4 body) in
      elim (Bool-cases (ltb (length body) 4)) [
        | inl short ↦ let wrong = rw (pong_step, short) at e in cc
        | inr long ↦ elim (Bool-cases (ctor == ctor_pong)) [
          | inl pong ↦
              read_pong-HasPong body ping_id (ground (arith, pong))
                (rw (pong_step, long, pong) at e)
          | inr other ↦ elim (Bool-cases (ctor == ctor_msg_container)) [
            | inl container ↦
                read_container-HasPong (ground (arith, long))
                  (rw (pong_step, long, other, container) at e)
            | inr neither ↦ absurd (
                quiet
                  (ctor == ctor_new_session_created
                    || ctor == ctor_bad_server_salt
                    || ctor == ctor_bad_msg_notification)
                  (ctor == ctor_rpc_error) (rw (pong_step, long, other, neither) at e))
          ]
        ]
      ]

contains_pong_from-HasPong :
    (k : ℕ) (ping_id body : Bytes)
    → contains_pong_from k ping_id body ≡ ok true
    → HasPong ping_id body
unfolding contains_pong_from
contains_pong_from-HasPong zero ping_id body e = cc
contains_pong_from-HasPong (suc k) ping_id body e =
    pong_step-HasPong (λ x. contains_pong_from k ping_id x) ping_id body
      (λ x. contains_pong_from-HasPong k ping_id x) e

-- A pong is only found where there is one: somewhere in the body, however deep the containers are
-- nested, stand the constructor of a pong, 8 bytes, and the id of the ping that was sent.
pub contains_pong-HasPong :
    (ping_id body : Bytes) → contains_pong body ping_id ≡ ok true → HasPong ping_id body
unfolding contains_pong
contains_pong-HasPong ping_id body e = contains_pong_from-HasPong (suc (length body)) ping_id body e
