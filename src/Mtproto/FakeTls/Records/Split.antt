-- ===== src/Mtproto/FakeTls/Records/Split.antt =====
-- Cutting into records is exact, and never fails on what `readServerHello` has read.
use mtproto_checker.Common.{
  ==_iff, >>=-eq-ok, All, Bool-cases, Bytes, List, Option-cases, Result, Result-cases, [], ap,
  append-nil, append_assoc, arith, drop, drop-append, get_or, inl, inr, length, length-append,
  length-drop, length-take, le→ltb_false, ltb, none, not, of_ok, ok, refl, some, suc, sym,
  take-append, take-append-drop, zero, ℕ, ◌&&◌, ◌++◌, ◌+◌, ◌==◌, ◌||◌, ◌∙◌, ◌∷◌, ◌≡◌, ◌≢◌, ◌≤◌, ◌⊎◌,
}
use mtproto_checker.Mtproto.Errors.{Error}
use mtproto_checker.Mtproto.Transport.{plain_read}
use mtproto_checker.Mtproto.FakeTls.Records.{
  hello_next, hello_payload, read_server_hello, record_length, split_loop, split_tls_records,
}

abbrev pub join : List Bytes → Bytes
join [] = []
join (r ∷ rs) = r ++ join rs

-- A header and as many bytes as it says.
pub record IsRecord (r : Bytes) : Type 0 where
  pub has_header : 5 ≤ length r
  pub complete : length r ≡ 5 + record_length r

pub record_length-append :
    (r rest : Bytes) → 5 ≤ length r → record_length (r ++ rest) ≡ record_length r
record_length-append (a ∷ b ∷ c ∷ d ∷ e ∷ p) rest h = refl
record_length-append _ rest h = absurd (omega arith)

split_step :
    (fuel : ℕ) (r rest : Bytes) (records : List Bytes)
    → IsRecord r
    → split_loop fuel rest ≡ some (ok records)
    → split_loop (suc fuel) (r ++ rest) ≡ some (ok (r ∷ records))
unfolding split_loop
split_step fuel [] rest records h e = absurd (omega (arith, h.has_header))
split_step fuel (x ∷ xs) rest records h e =
    let r : Bytes = x ∷ xs in
    let end = 5 + record_length (r ++ rest) in
    let same : end ≡ length r =
      omega (arith, h.complete, record_length-append r rest h.has_header) in
    let cut = take-append r rest end same in
    let left = drop-append r rest end same in
    rw
      (
        le→ltb_false (length (r ++ rest)) 5 (omega (arith, length-append r rest, h.has_header)),
        le→ltb_false (length (r ++ rest)) end (omega (arith, length-append r rest, same)),
        left,
        e,
        cut,
      )
      refl

pub split-join :
    (rs : List Bytes) (fuel : ℕ)
    → All IsRecord rs
    → length (join rs) ≤ fuel
    → split_loop fuel (join rs) ≡ some (ok rs)
split-join [] fuel h hf = unfold split_loop in refl
split-join (r ∷ rs) zero (h, hs) hf =
    absurd (omega (arith, length-append r (join rs), h.has_header))
split-join (r ∷ rs) (suc fuel) (h, hs) hf =
    split_step fuel r (join rs) rs h
      (split-join rs fuel hs (omega (arith, length-append r (join rs), h.has_header)))

-- A read of the network that succeeds takes its bytes off the front.
pub plain_read_ok :
    (n : ℕ) (s p s' : Bytes) → plain_read n s ≡ ok (p, s') → (s ≡ p ++ s') × (length p ≡ n)
unfolding plain_read
plain_read_ok n s p s' e = ground (arith, take-append-drop n s, length-take n s)

-- The last record's type.
abbrev pub last_kind : List Bytes → ℕ
last_kind [] = 0
last_kind (r ∷ []) = get_or r 0 0
last_kind (r ∷ x ∷ rs) = last_kind (x ∷ rs)

-- The records that `readServerHello` took off `s` and appended to `out`.
pub record Taken (out s out' s' : Bytes) : Type 0 where
  pub records : List Bytes
  pub appended : out' ≡ out ++ join records
  pub taken : s ≡ join records ++ s'
  pub are_records : All IsRecord records
  pub given : records ≢ []
  pub handoff : last_kind records ≡ 0x17

kind-append : (r rest : Bytes) → 5 ≤ length r → get_or (r ++ rest) 0 0 ≡ get_or r 0 0
kind-append [] rest h = absurd (omega arith)
kind-append (x ∷ r) rest h = refl

last_kind-cons : (r : Bytes) (rs : List Bytes) → rs ≢ [] → last_kind (r ∷ rs) ≡ last_kind rs
last_kind-cons r [] h = absurd (h refl)
last_kind-cons r (x ∷ rs) h = refl

module _ (out s header s1 payload s2 : Bytes) (h : plain_read 5 s ≡ ok (header, s1))
    (p : plain_read (record_length header) s1 ≡ ok (payload, s2)) where
  whole : Bytes
  whole = header ++ payload

  IsRecord-taken : (s ≡ whole ++ s2) × IsRecord whole × (get_or whole 0 0 ≡ get_or header 0 0)
  unfolding whole
  IsRecord-taken =
      let (eh, lh) = plain_read_ok 5 s header s1 h in
      let (ep, lp) = plain_read_ok (record_length header) s1 payload s2 p in
      let n = length-append header payload in
      let five : 5 ≤ length header = omega (arith, lh) in
      (
        eh ∙ ap (λ k. header ++ k) ep ∙ sym (append_assoc header payload s2),
        record {
          has_header = omega (arith, n, lh);
          complete = omega (arith, n, lh, lp, record_length-append header payload five);
        },
        kind-append header payload five,
      )

  Taken-one : get_or header 0 0 ≡ 0x17 → Taken out s ((out ++ header) ++ payload) s2
  unfolding whole
  Taken-one k =
      let (e, r, same) = IsRecord-taken in
      record {
        records = whole ∷ [];
        appended = append_assoc out header payload ∙ ap (λ t. out ++ t) (sym (append-nil whole));
        taken = e ∙ ap (λ t. t ++ s2) (sym (append-nil whole));
        are_records = (r, tt);
        given = λ bad. cc;
        handoff = same ∙ k;
      }

  Taken-more :
      (out' s' : Bytes) → Taken ((out ++ header) ++ payload) s2 out' s' → Taken out s out' s'
  unfolding whole
  Taken-more out' s' t =
      let (e, r, same) = IsRecord-taken in
      record {
        records = whole ∷ t.records;
        appended = t.appended ∙ simp append_assoc;
        taken = e ∙ ap (λ k. whole ++ k) t.taken ∙ sym (append_assoc whole (join t.records) s');
        are_records = (r, t.are_records);
        given = λ bad. cc;
        handoff = last_kind-cons whole t.records t.given ∙ t.handoff;
      }

hello_next-cases :
    (again : Bytes → Bytes → Result Error (Bytes × Bytes)) (kind : ℕ) (out s : Bytes)
    (r : Bytes × Bytes)
    → hello_next again kind out s ≡ ok r
    → ((kind ≡ 0x17) × ◌≡◌ {A = Result Error (Bytes × Bytes)} (ok (out, s)) (ok r))
      ⊎ (again out s ≡ ok r)
unfolding hello_next
hello_next-cases again kind out s r e = elim (Bool-cases (kind == 0x17)) [
  | inl last ↦ inl ((==_iff kind 0x17).0 last, rw last at e)
  | inr more ↦ elim (Bool-cases (kind == 0x16 || kind == 0x14)) [
    | inl on ↦ inr (rw (more, on) at e)
    | inr stop ↦ let no_way = rw (more, stop) at e in cc
  ]
]

hello_payload-ok :
    (again : Bytes → Bytes → Result Error (Bytes × Bytes)) (header out s : Bytes)
    (r : Bytes × Bytes)
    → hello_payload again header out s ≡ ok r
    → (payload : Bytes) × (s1 : Bytes) × (plain_read (record_length header) s ≡ ok (payload, s1))
      × (hello_next again (get_or header 0 0) ((out ++ header) ++ payload) s1 ≡ ok r)
unfolding hello_payload
hello_payload-ok again header out s r e =
    elim (Bool-cases (length out == 0 && not (get_or header 0 0 == 0x16))) [
      | inl bad ↦ let no_way = rw bad at e in cc
      | inr fine ↦
          let ((payload, s1), p, e1) =
            >>=-eq-ok (plain_read (record_length header) s) _ (rw fine at e) in
          (payload, s1, p, e1)
    ]

read-Taken :
    (fuel : ℕ) (out s out' s' : Bytes)
    → read_server_hello fuel out s ≡ ok (out', s')
    → Taken out s out' s'
unfolding read_server_hello
read-Taken zero out s out' s' e = cc
read-Taken (suc fuel) out s out' s' e =
    let ((header, s1), h, e1) = >>=-eq-ok (plain_read 5 s) _ e in
    let (payload, s2, p, e2) = hello_payload-ok _ header out s1 (out', s') e1 in
    elim (hello_next-cases _ (get_or header 0 0) ((out ++ header) ++ payload) s2 (out', s') e2) [
      | inl (k, e3) ↦
          of_ok (λ (r : Bytes × Bytes). Taken out s r.0 r.1) e3
            (Taken-one out s header s1 payload s2 h p k)
      | inr e3 ↦
          Taken-more out s header s1 payload s2 h p out' s'
            (read-Taken fuel ((out ++ header) ++ payload) s2 out' s' e3)
    ]

-- What `readServerHello` reads is taken off the front of the stream, and `splitTLSRecords` cuts it
-- into records without an error: at least one, the last of them application data.
pub split-read_server_hello :
    (s out s' : Bytes)
    → read_server_hello (length s) [] s ≡ ok (out, s')
    → (records : List Bytes) × (split_tls_records out ≡ some (ok records))
      × (s ≡ out ++ s')
      × (records ≢ [])
      × (last_kind records ≡ 0x17)
unfolding split_tls_records
split-read_server_hello s out s' e =
    let t = read-Taken (length s) [] s out s' e in
    (
      t.records,
      rw t.appended (split-join t.records (length (join t.records)) t.are_records (omega arith)),
      t.taken ∙ ap (λ k. k ++ s') (sym t.appended),
      t.given,
      t.handoff,
    )

split_loop-ne-none : (fuel : ℕ) (s : Bytes) → length s ≤ fuel → split_loop fuel s ≢ none
unfolding split_loop
split_loop-ne-none fuel [] h = λ e. cc
split_loop-ne-none zero (x ∷ xs) h = absurd (omega arith)
split_loop-ne-none (suc fuel) (x ∷ xs) h =
    let rest : Bytes = x ∷ xs in
    let end = 5 + record_length rest in
    elim (Bool-cases (ltb (length rest) 5)) [
      | inl short ↦ rw short (λ e. cc)
      | inr head ↦ elim (Bool-cases (ltb (length rest) end)) [
        | inl short ↦ rw (head, short) (λ e. cc)
        | inr fits ↦ elim (Option-cases (split_loop fuel (drop end rest))) [
          | inl stuck ↦
              absurd (
                split_loop-ne-none fuel (drop end rest) (omega (arith, length-drop end rest)) stuck)
          | inr (r, e) ↦ elim (Result-cases r) [
            | inl (rs, g) ↦ rw (head, fits, e, g) (λ e. cc)
            | inr (x, g) ↦ rw (head, fits, e, g) (λ e. cc)
          ]
        ]
      ]
    ]

-- The loop of `splitTLSRecords` ends on every input.
pub split_tls_records-ne-none : (s : Bytes) → split_tls_records s ≢ none
unfolding split_tls_records
split_tls_records-ne-none s = split_loop-ne-none (length s) s (omega arith)
