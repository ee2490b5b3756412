-- ===== src/Mtproto/Api/Keeps.antt =====
-- What the messages of a session change of it.
use mtproto_checker.Common.{
  Bool-cases, Bytes, Option-cases, Result, Result-cases, arith, err, inl, inr, length, ltb, ok,
  refl, suc, zero, ℕ, ◌∙◌, ◌≡◌,
}
use mtproto_checker.Mtproto.Errors.{Error}
use mtproto_checker.Mtproto.Tl.Cursor.{Cursor, new_cursor, read}
use mtproto_checker.Mtproto.Tl.Read.{length-read}
use mtproto_checker.Mtproto.Session.{Session, container_head, entry_head}
use mtproto_checker.Mtproto.Api.{
  Reply, bad_salt, dispatch, dispatch_container, dispatch_entries, dispatch_packed, dispatch_step,
  found, new_salt, nothing, or_next, read_salt, retry, unwrap,
}

-- A session that has only got another salt, of 8 bytes if the first has 8.
pub record IsResalted (s t : Session) : Type 0 where
  pub same_auth : t.auth ≡ s.auth
  pub same_id : t.id ≡ s.id
  pub same_seq_no : t.seq_no ≡ s.seq_no
  pub eight : length s.salt ≡ 8 → length t.salt ≡ 8

pub IsResalted-refl : (s : Session) → IsResalted s s
IsResalted-refl s = record { same_auth = refl; same_id = refl; same_seq_no = refl; eight = λ h. h }

pub IsResalted-trans : (s t u : Session) → IsResalted s t → IsResalted t u → IsResalted s u
IsResalted-trans s t u h k = record {
  same_auth = k.same_auth ∙ h.same_auth;
  same_id = k.same_id ∙ h.same_id;
  same_seq_no = k.same_seq_no ∙ h.same_seq_no;
  eight = λ e. k.eight (h.eight e);
}

read_salt-IsResalted : (c : Cursor) (s : Session) → IsResalted s (read_salt c s).1
unfolding read_salt
read_salt-IsResalted c s = elim (Option-cases (read 8 c).1.error) [
  | inl calm ↦
      rw (read_salt, calm)
        (record {
          same_auth = refl;
          same_id = refl;
          same_seq_no = refl;
          eight = λ _. length-read 8 c calm;
        })
  | inr (x, bad) ↦ rw (read_salt, bad) (IsResalted-refl s)
]

bad_salt-IsResalted : (body : Bytes) (s : Session) → IsResalted s (bad_salt body s).1
unfolding bad_salt
bad_salt-IsResalted body s =
    let head = (read 4 (read 4 (read 8 (read 4 (new_cursor body)).1).1).1).1 in
    elim (Option-cases (read_salt head s).0) [
      | inl calm ↦ rw (bad_salt, calm) (read_salt-IsResalted head s)
      | inr (x, bad) ↦ rw (bad_salt, bad) (read_salt-IsResalted head s)
    ]

or_next-IsResalted :
    (s : Session) (r : Result Error Reply × Session) (next : Session → Result Error Reply × Session)
    → IsResalted s r.1
    → ((t : Session) → IsResalted t (next t).1)
    → IsResalted s (or_next r next).1
unfolding or_next
or_next-IsResalted s (err x, t) next h k = h
or_next-IsResalted s (ok nothing, t) next h k = IsResalted-trans s t (next t).1 h (k t)
or_next-IsResalted s (ok retry, t) next h k = h
or_next-IsResalted s (ok (found x), t) next h k = h

-- The calls within keep a session.
module _ (inner : Bytes → Session → Result Error Reply × Session)
    (keeps : (x : Bytes) (s : Session) → IsResalted s (inner x s).1) where
  dispatch_entries-IsResalted :
      (limit count : ℕ) (c : Cursor) (s : Session)
      → IsResalted s (dispatch_entries inner limit count c s).1
  unfolding dispatch_entries
  dispatch_entries-IsResalted limit zero c s = IsResalted-refl s
  dispatch_entries-IsResalted limit (suc count) c s =
      let (size, c1) = entry_head c in
      let (entry, c2) = read size c1 in
      elim (Bool-cases (ltb limit size)) [
        | inl long ↦ rw (dispatch_entries, long) (IsResalted-refl s)
        | inr fits ↦ elim (Option-cases c2.error) [
          | inr (x, bad) ↦ rw (dispatch_entries, fits, bad) (IsResalted-refl s)
          | inl calm ↦
              rw (dispatch_entries, fits, calm)
                (or_next-IsResalted s (inner entry s) _ (keeps entry s)
                  (λ t. dispatch_entries-IsResalted limit count c2 t))
        ]
      ]

  dispatch_container-IsResalted :
      (body : Bytes) (s : Session) → IsResalted s (dispatch_container inner body s).1
  unfolding dispatch_container
  dispatch_container-IsResalted body s =
      let (count, c) = container_head body in
      elim (Bool-cases (ltb 64 count)) [
        | inl many ↦ rw (dispatch_container, many) (IsResalted-refl s)
        | inr few ↦
            rw (dispatch_container, few) (dispatch_entries-IsResalted (length body) count c s)
      ]

  module _ (gunzip : Bytes → Result Error Bytes) (msg_id : ℕ) where
    dispatch_packed-IsResalted :
        (body : Bytes) (s : Session) → IsResalted s (dispatch_packed gunzip inner body s).1
    unfolding dispatch_packed
    dispatch_packed-IsResalted body s = elim (Result-cases (unwrap gunzip body)) [
      | inl (x, opened) ↦ rw (dispatch_packed, opened) (keeps x s)
      | inr (x, bad) ↦ rw (dispatch_packed, bad) (IsResalted-refl s)
    ]

    dispatch_step-IsResalted :
        (body : Bytes) (s : Session) → IsResalted s (dispatch_step gunzip inner msg_id body s).1
    unfolding dispatch_step new_salt
    dispatch_step-IsResalted body s =
        let head = (read 8 (read 8 (read 4 (new_cursor body)).1).1).1 in
        ground (
          arith,
          IsResalted-refl s,
          dispatch_packed-IsResalted body s,
          dispatch_container-IsResalted body s,
          bad_salt-IsResalted body s,
          read_salt-IsResalted head s,
        )

module _ (gunzip : Bytes → Result Error Bytes) (msg_id : ℕ) where
  -- Whatever a message holds, `dispatch` changes nothing of the session but its salt, and a salt of 8
  -- bytes stays one.
  pub dispatch-IsResalted :
      (depth : ℕ) (body : Bytes) (s : Session)
      → IsResalted s (dispatch gunzip depth msg_id body s).1
  unfolding dispatch
  dispatch-IsResalted zero body s = IsResalted-refl s
  dispatch-IsResalted (suc depth) body s =
      dispatch_step-IsResalted (λ x t. dispatch gunzip depth msg_id x t)
        (λ x t. dispatch-IsResalted depth x t) gunzip msg_id body s
