-- ===== src/Mtproto/FakeTls/Builder.antt =====
-- `helloBuilder` of internal/mtproto/faketls.go: bytes with nested two-byte lengths.
pub mod Scopes
use mtproto_checker.Common.{Bytes, List, [], drop, length, take, ℕ, ◌%◌, ◌++◌, ◌+◌, ◌-◌, ◌^◌, ◌∷◌}
use mtproto_checker.Mtproto.Binary.{uint16_be_bytes}

-- `scopes` is the stack of the open lengths' places, the innermost first.
pub record Builder : Type 0 where
  pub buf : Bytes
  pub scopes : List ℕ

abbrev pub empty_builder : Builder
empty_builder = record { buf = []; scopes = [] }

unfoldable pub put : Bytes → Builder → Builder
put p b = record b { buf = b.buf ++ p }

-- `copy(b.buf[at:at+len(p)], p)`
unfoldable pub overwrite_bytes : ℕ → Bytes → Bytes → Bytes
overwrite_bytes at p buf = take at buf ++ (p ++ drop (at + length p) buf)

unfoldable pub overwrite : ℕ → Bytes → Builder → Builder
overwrite at p b = record b { buf = overwrite_bytes at p b.buf }

unfoldable pub open_scope : Builder → Builder
open_scope b = record { buf = b.buf ++ (0 ∷ 0 ∷ []); scopes = length b.buf ∷ b.scopes }

-- `close` with the stack taken apart; with no open scope Go panics, and the model does nothing.
unfoldable pub close_at : List ℕ → Bytes → Builder
close_at [] buf = record { buf = buf; scopes = [] }
close_at (start ∷ scopes) buf = record {
  buf = overwrite_bytes start (uint16_be_bytes ((length buf - start - 2) % 2 ^ 16)) buf;
  scopes = scopes;
}

unfoldable pub close : Builder → Builder
close b = close_at b.scopes b.buf
