-- ===== src/Mtproto/Tl/Buf.antt =====
-- `buf` of internal/mtproto/tl.go: a growing byte slice. A method takes the slice and returns it.
use mtproto_checker.Common.{
  Bytes, [], ap, append-nil, append_assoc, arith, if◌then◌else◌, leb, length, length-append, refl,
  replicate, suc, sym, zero, ℕ, ◌%◌, ◌++◌, ◌+◌, ◌-◌, ◌/◌, ◌==◌, ◌^◌, ◌∙◌, ◌∷◌, ◌≡◌, ◌≤◌,
}
use mtproto_checker.Mtproto.Binary.{uint32_le_bytes, uint64_le_bytes}

unfoldable pub append_uint32 : ℕ → Bytes → Bytes
append_uint32 v b = b ++ uint32_le_bytes v

unfoldable pub append_uint64 : ℕ → Bytes → Bytes
append_uint64 v b = b ++ uint64_le_bytes v

unfoldable pub append_raw : Bytes → Bytes → Bytes
append_raw p b = b ++ p

-- What `bytes` writes in front of `p`: one byte up to 253, else the mark 254 and three bytes.
unfoldable pub length_prefix : ℕ → Bytes
length_prefix n =
    if leb n 253
    then (n % 256) ∷ []
    else 254 ∷ (n % 256) ∷ (n / 2 ^ 8 % 256) ∷ (n / 2 ^ 16 % 256) ∷ []

-- `for len(b.b)%4 != 0`. Three rounds are enough, whatever the length.
unfoldable pub pad_words : ℕ → Bytes → Bytes
pad_words zero b = b
pad_words (suc fuel) b = if length b % 4 == 0 then b else pad_words fuel (b ++ 0 ∷ [])

unfoldable pub append_bytes : Bytes → Bytes → Bytes
unfolding length_prefix pad_words
append_bytes p b = pad_words 3 (b ++ length_prefix (length p) ++ p)

-- How many zero bytes a slice of `n` bytes lacks to a multiple of four.
abbrev pub missing : ℕ → ℕ
missing n = (4 - n % 4) % 4

replicate-snoc : (n : ℕ) (b : Bytes) → (b ++ 0 ∷ []) ++ replicate n 0 ≡ b ++ replicate (suc n) 0
replicate-snoc n b = append_assoc b (0 ∷ []) (replicate n 0)

pad_words-replicate :
    (fuel n : ℕ) (b : Bytes)
    → n ≤ fuel
    → n ≡ missing (length b)
    → pad_words fuel b ≡ b ++ replicate n 0
unfolding pad_words
pad_words-replicate zero zero b h e = sym (append-nil b)
pad_words-replicate zero (suc n) b h e = absurd (omega arith)
pad_words-replicate (suc fuel) zero b h e = ground (arith, append-nil b)
pad_words-replicate (suc fuel) (suc n) b h e =
    ground (
      arith,
      length-append b (0 ∷ []),
      pad_words-replicate fuel n (b ++ 0 ∷ []),
      replicate-snoc n b,
    )

pub pad_words_three : (b : Bytes) → pad_words 3 b ≡ b ++ replicate (missing (length b)) 0
pad_words_three b = pad_words-replicate 3 (missing (length b)) b (omega arith) refl

-- What `bytes` appends to a slice of `n` bytes: the prefix, the payload, and zeros up to a word.
unfoldable pub encoded_bytes : ℕ → Bytes → Bytes
encoded_bytes n p =
    let pre = length_prefix (length p) in
    pre ++ (p ++ replicate (missing (n + length pre + length p)) 0)

pub append_bytes-encoded_bytes : (p b : Bytes) → append_bytes p b ≡ b ++ encoded_bytes (length b) p
unfolding append_bytes encoded_bytes
append_bytes-encoded_bytes p b =
    let pre = length_prefix (length p) in
    let n : length (b ++ pre ++ p) ≡ length b + length pre + length p =
      length-append (b ++ pre) p ∙ ap (λ k. k + length p) (length-append b pre) in
    pad_words_three (b ++ pre ++ p)
    ∙ ap (λ k. (b ++ pre ++ p) ++ replicate (missing k) 0) n
    ∙ simp append_assoc
