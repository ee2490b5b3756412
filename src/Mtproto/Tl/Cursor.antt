-- ===== src/Mtproto/Tl/Cursor.antt =====
-- `cursor` of internal/mtproto/tl.go: a position in a slice and the first error met. A method takes
-- the cursor and returns its value with the cursor that it leaves.
use mtproto_checker.Common.{
  Bool, Bytes, List, Option, [], false, get_or, if◌then◌else◌, length, ltb, none, not, replicate,
  slice, some, suc, true, zero, ℕ, ◌%◌, ◌&&◌, ◌*◌, ◌+◌, ◌==◌, ◌^◌, ◌||◌, ◌∷◌,
}
use mtproto_checker.Mtproto.Binary.{uint32_le, uint64_le}
use mtproto_checker.Mtproto.Errors.{Error, eof, implausible_vector, not_a_vector, unexpected_ctor}

pub record Cursor : Type 0 where
  pub b : Bytes
  pub i : ℕ
  pub error : Option Error

abbrev pub new_cursor : Bytes → Cursor
new_cursor b = record { b = b; i = 0; error = none }

-- `c.err != nil`
abbrev pub failed : Option Error → Bool
failed none = false
failed (some e) = true

-- `if c.err == nil { c.err = e }`, the guard being at each call.
abbrev pub set_error : Error → Cursor → Cursor
set_error e c = record c { error = some e }

-- After an error a read gives zeros and moves nothing.
unfoldable pub read : ℕ → Cursor → Bytes × Cursor
read n c =
    if failed c.error
    then (replicate n 0, c)
    else if ltb (length c.b) (c.i + n)
    then (replicate n 0, set_error eof c)
    else (slice c.i (c.i + n) c.b, record c { i = c.i + n })

unfoldable pub read_uint32 : Cursor → ℕ × Cursor
read_uint32 c = let (p, c1) = read 4 c in (uint32_le p, c1)

unfoldable pub read_uint64 : Cursor → ℕ × Cursor
read_uint64 c = let (p, c1) = read 8 c in (uint64_le p, c1)

abbrev pub read_int128 : Cursor → Bytes × Cursor
read_int128 = read 16

-- `for (c.i)%4 != 0 && c.err == nil { c.take(1) }`: every round moves `i` by one or sets the
-- error, so three rounds are enough.
unfoldable pub skip_padding : ℕ → Cursor → Cursor
skip_padding zero c = c
skip_padding (suc fuel) c =
    let rest = skip_padding fuel (read 1 c).1 in
    if not (c.i % 4 == 0) && not (failed c.error) then rest else c

-- The length of the payload: the first byte, or the three bytes behind the mark 254.
unfoldable pub read_length : Cursor → ℕ × Cursor
read_length c =
    let (first, c1) = read 1 c in
    let (size, c2) = read 3 c1 in
    if get_or first 0 0 == 254
    then (get_or size 0 0 + get_or size 1 0 * 2 ^ 8 + get_or size 2 0 * 2 ^ 16, c2)
    else (get_or first 0 0, c1)

unfoldable pub read_bytes : Cursor → Bytes × Cursor
read_bytes c = let (n, c1) = read_length c in let (out, c2) = read n c1 in (out, skip_padding 3 c2)

-- `for range count { out = append(out, c.uint64()) }`
unfoldable pub read_longs : ℕ → Cursor → List ℕ × Cursor
read_longs zero c = ([], c)
read_longs (suc k) c = let (v, c1) = read_uint64 c in let (vs, c2) = read_longs k c1 in (v ∷ vs, c2)

abbrev pub ctor_vector : ℕ
ctor_vector = 0x1CB5C415

unfoldable pub read_vector_long : Cursor → List ℕ × Cursor
read_vector_long c =
    let (ctor, c1) = read_uint32 c in
    let (count, c2) = read_uint32 c1 in
    if not (ctor == ctor_vector) && not (failed c1.error)
    then ([], set_error (not_a_vector ctor) c1)
    else if ltb 64 count
    then ([], if failed c2.error then c2 else set_error (implausible_vector count) c2)
    else read_longs count c2

unfoldable pub expect : ℕ → Cursor → Cursor
expect want c =
    let (got, c1) = read_uint32 c in
    if failed c1.error || got == want then c1 else set_error (unexpected_ctor got) c1
