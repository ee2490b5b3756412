-- ===== src/Mtproto/Api/Container.antt =====
-- `dispatch` on the container that a server writes.
use mathlib.Core.Path.{fun_ext}
use mtproto_checker.Common.{
  Bytes, List, Result, [], ap, append-nil, arith, err, false, if◌then◌else◌, length, length-append,
  ltb, none, ok, refl, some, suc, sym, ℕ, ◌++◌, ◌+◌, ◌<◌, ◌^◌, ◌∙◌, ◌∷◌, ◌≡◌, ◌≤◌,
}
use mtproto_checker.Mtproto.Binary.{uint32_le, uint32_le-bytes, uint32_le_bytes, uint64_le_bytes}
use mtproto_checker.Mtproto.Errors.{Error, bad_container_entry}
use mtproto_checker.Mtproto.Tl.Cursor.{Cursor, new_cursor, read, read_uint32}
use mtproto_checker.Mtproto.Tl.RoundTrip.{Unread, advance, read-Unread, read_lem}
use mtproto_checker.Mtproto.Session.{Session, container_head, ctor_msg_container, entry_head}
use mtproto_checker.Mtproto.Api.{
  Reply, dispatch, dispatch_container, dispatch_entries, dispatch_step, nothing, or_next,
}

-- A message with its id and its sequence number, as it stands in a container.
pub record Message : Type 0 where
  pub id : ℕ
  pub seq_no : ℕ
  pub body : Bytes

abbrev pub message_bytes : Message → Bytes → Bytes
message_bytes m back =
    uint64_le_bytes m.id
    ++ (uint32_le_bytes m.seq_no ++ (uint32_le_bytes (length m.body) ++ (m.body ++ back)))

abbrev pub messages_bytes : List Message → Bytes
messages_bytes [] = []
messages_bytes (m ∷ ms) = message_bytes m (messages_bytes ms)

abbrev pub container_bytes : List Message → Bytes
container_bytes ms =
    uint32_le_bytes ctor_msg_container ++ (uint32_le_bytes (length ms) ++ messages_bytes ms)

-- One message after the other, up to the first that fails, that is the answer, or that brings
-- another salt.
abbrev pub visit :
    (Bytes → Session → Result Error Reply × Session)
    → List Message
    → Session
    → Result Error Reply × Session
visit inner [] s = (ok nothing, s)
visit inner (m ∷ ms) s = or_next (inner m.body s) (visit inner ms)

read_uint32_lem :
    (n : ℕ) (c : Cursor) (back : Bytes)
    → n < 2 ^ 32
    → Unread c (uint32_le_bytes n ++ back)
    → (read_uint32 c ≡ (n, advance 4 c)) × Unread (advance 4 c) back
unfolding read_uint32
read_uint32_lem n c back h u =
    let e = read_lem c (uint32_le_bytes n) back u in
    (
      ap (λ r. (uint32_le r.0, r.1)) e
          ∙ ap (λ k. (k, advance 4 c))
              (ap uint32_le (sym (append-nil (uint32_le_bytes n))) ∙ uint32_le-bytes n [] h),
      read-Unread c (uint32_le_bytes n) back u,
    )

entry_head_lem :
    (m : Message) (c : Cursor) (back : Bytes)
    → length m.body < 2 ^ 32
    → Unread c (message_bytes m back)
    → (entry_head c ≡ (length m.body, advance 4 (advance 4 (advance 8 c))))
      × Unread (advance 4 (advance 4 (advance 8 c))) (m.body ++ back)
unfolding entry_head
entry_head_lem m c back h u =
    let rest = uint32_le_bytes (length m.body) ++ (m.body ++ back) in
    let e1 = read_lem c (uint64_le_bytes m.id) (uint32_le_bytes m.seq_no ++ rest) u in
    let u1 = read-Unread c (uint64_le_bytes m.id) (uint32_le_bytes m.seq_no ++ rest) u in
    let e2 = read_lem (advance 8 c) (uint32_le_bytes m.seq_no) rest u1 in
    let u2 = read-Unread (advance 8 c) (uint32_le_bytes m.seq_no) rest u1 in
    let (e3, u3) =
      read_uint32_lem (length m.body) (advance 4 (advance 8 c)) (m.body ++ back) h u2 in
    (ap (λ r. read_uint32 (read 4 r.1).1) e1 ∙ ap (λ r. read_uint32 r.1) e2 ∙ e3, u3)

module _ (inner : Bytes → Session → Result Error Reply × Session) where
  -- A round of the loop, when its entry has been read.
  entries_next :
      (limit count size : ℕ) (c c1 c2 : Cursor) (entry : Bytes) (s : Session)
      → entry_head c ≡ (size, c1)
      → read size c1 ≡ (entry, c2)
      → ltb limit size ≡ false
      → c2.error ≡ none
      → dispatch_entries inner limit (suc count) c s
        ≡ or_next (inner entry s) (λ t. dispatch_entries inner limit count c2 t)
  unfolding dispatch_entries
  entries_next limit count size c c1 c2 entry s e1 e2 fits calm =
      let then_read : Bytes × Cursor → Result Error Reply × Session = λ r. elim r.1.error [
        | some e ↦ (err e, s)
        | none ↦ or_next (inner r.0 s) (λ t. dispatch_entries inner limit count r.1 t)
      ] in
      let round : ℕ × Cursor → Result Error Reply × Session =
        λ h. if ltb limit h.0 then (err bad_container_entry, s) else then_read (read h.0 h.1) in
      ap round e1
      ∙ ap (λ r. if ltb limit size then (err bad_container_entry, s) else then_read r) e2
      ∙ simp (fits, calm)

  dispatch_entries-visit :
      (limit : ℕ) (ms : List Message) (c : Cursor) (s : Session)
      → limit < 2 ^ 32
      → length (messages_bytes ms) ≤ limit
      → Unread c (messages_bytes ms)
      → dispatch_entries inner limit (length ms) c s ≡ visit inner ms s
  unfolding dispatch_entries or_next
  dispatch_entries-visit limit [] c s h k u = refl
  dispatch_entries-visit limit (m ∷ ms) c s h k u =
      let back = messages_bytes ms in
      let size : length (message_bytes m back) ≡ 16 + length m.body + length back =
        omega (arith, length-append m.body back) in
      let (e1, u1) = entry_head_lem m c back (omega (arith, k, h, size)) u in
      let c1 = advance 4 (advance 4 (advance 8 c)) in
      let e2 = read_lem c1 m.body back u1 in
      let u2 = read-Unread c1 m.body back u1 in
      let short : ltb limit (length m.body) ≡ false = ground (arith, k, size) in
      let same : (λ t. dispatch_entries inner limit (length ms) (advance (length m.body) c1) t)
          ≡ visit inner ms =
        fun_ext (λ t.
          dispatch_entries-visit limit ms (advance (length m.body) c1) t h (omega (arith, k, size))
            u2) in
      entries_next limit (length ms) (length m.body) c c1 (advance (length m.body) c1) m.body s e1
        e2 short u.no_error
      ∙ ap (or_next (inner m.body s)) same

container_head_lem :
    (ms : List Message)
    → length ms ≤ 64
    → (container_head (container_bytes ms)
        ≡ (length ms, record { b = container_bytes ms; i = 8; error = none }))
      × Unread (record { b = container_bytes ms; i = 8; error = none }) (messages_bytes ms)
unfolding container_head
container_head_lem ms h =
    let c = new_cursor (container_bytes ms) in
    let back = uint32_le_bytes (length ms) ++ messages_bytes ms in
    let u : Unread c (uint32_le_bytes ctor_msg_container ++ back) = record {
      no_error = refl;
      in_range = omega arith;
      tail = refl;
    } in
    let e1 = read_lem c (uint32_le_bytes ctor_msg_container) back u in
    let u1 = read-Unread c (uint32_le_bytes ctor_msg_container) back u in
    let (e2, u2) =
      read_uint32_lem (length ms) (advance 4 c) (messages_bytes ms) (omega (arith, h)) u1 in
    (ap (λ r. read_uint32 r.1) e1 ∙ e2, u2)

-- A container of at most 64 messages, and of less than 4 GB, does to the session and to the query
-- what its messages do one after the other, up to the first that fails, that is the answer, or that
-- brings another salt.
pub dispatch-visit :
    (gunzip : Bytes → Result Error Bytes) (depth msg_id : ℕ) (ms : List Message) (s : Session)
    → length ms ≤ 64
    → length (container_bytes ms) < 2 ^ 32
    → dispatch gunzip (suc depth) msg_id (container_bytes ms) s
      ≡ visit (dispatch gunzip depth msg_id) ms s
unfolding dispatch dispatch_step dispatch_container
dispatch-visit gunzip depth msg_id ms s few h =
    let (e, u) = container_head_lem ms few in
    let body = container_bytes ms in
    let main =
      dispatch_entries-visit (dispatch gunzip depth msg_id) (length body) ms
        (record { b = body; i = 8; error = none }) s h (omega arith) u in
    let less : ltb 64 (length ms) ≡ false = ground (arith, few) in
    let long : ltb (length body) 4 ≡ false = ground arith in
    rw (dispatch_container, e, less, long) main
