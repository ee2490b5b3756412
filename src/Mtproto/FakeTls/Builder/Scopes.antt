-- ===== src/Mtproto/FakeTls/Builder/Scopes.antt =====
-- What a scope that is opened and closed writes.
use mtproto_checker.Common.{
  Bytes, [], ap, append_assoc, arith, drop, drop-append, length, length-append, length-drop,
  length-take, refl, sym, take, take-append, ℕ, ◌%◌, ◌++◌, ◌+◌, ◌-◌, ◌<◌, ◌^◌, ◌∙◌, ◌∷◌, ◌≡◌, ◌≤◌,
}
use mtproto_checker.Mtproto.Binary.{uint16_be_bytes}
use mtproto_checker.Mtproto.FakeTls.Builder.{
  Builder, close, close_at, open_scope, overwrite_bytes, put,
}

-- Closing a scope writes the length of what was put since it was opened in front of it, and nothing
-- else changes: `body` stands for all that was put, inner scopes included, and is below 64 KiB.
pub close-open_scope :
    (b : Builder) (body : Bytes)
    → length body < 2 ^ 16
    → close (record { buf = (open_scope b).buf ++ body; scopes = (open_scope b).scopes })
      ≡ record { buf = b.buf ++ (uint16_be_bytes (length body) ++ body); scopes = b.scopes }
unfolding close open_scope close_at overwrite_bytes
close-open_scope b body h =
    let two : Bytes = 0 ∷ 0 ∷ [] in
    let whole = (b.buf ++ two) ++ body in
    let n : length whole ≡ length b.buf + 2 + length body =
      length-append (b.buf ++ two) body ∙ ap (λ k. k + length body) (length-append b.buf two) in
    let size : (length whole - length b.buf - 2) % 2 ^ 16 ≡ length body = omega (arith, n) in
    let front : take (length b.buf) whole ≡ b.buf =
      ap (take (length b.buf)) (append_assoc b.buf two body)
      ∙ take-append b.buf (two ++ body) (length b.buf) refl in
    let back : drop (length b.buf + 2) whole ≡ body =
      drop-append (b.buf ++ two) body (length b.buf + 2) (sym (length-append b.buf two)) in
    rw (size, front, back) refl

-- The length of what a builder holds after each operation.
pub length-put : (p : Bytes) (b : Builder) → length (put p b).buf ≡ length b.buf + length p
unfolding put
length-put p b = length-append b.buf p

pub length-open_scope : (b : Builder) → length (open_scope b).buf ≡ length b.buf + 2
unfolding open_scope
length-open_scope b = length-append b.buf (0 ∷ 0 ∷ [])

pub length-overwrite_bytes :
    (at : ℕ) (p buf : Bytes)
    → at + length p ≤ length buf
    → length (overwrite_bytes at p buf) ≡ length buf
unfolding overwrite_bytes
length-overwrite_bytes at p buf h = omega (
  arith,
  length-append (take at buf) (p ++ drop (at + length p) buf),
  length-append p (drop (at + length p) buf),
  length-take at buf,
  length-drop (at + length p) buf,
)
