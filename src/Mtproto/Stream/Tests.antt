-- ===== src/Mtproto/Stream/Tests.antt =====
-- A message of 8 bytes in the abridged framing, behind its tag.
use mtproto_checker.Common.{Bytes, [], ◌∷◌}
use mtproto_checker.Mtproto.Transport.{abridged}
use mtproto_checker.Mtproto.Stream.{Stream, unencrypted}

abbrev body : Bytes
body = 1 ∷ 2 ∷ 3 ∷ 4 ∷ 5 ∷ 6 ∷ 7 ∷ 8 ∷ []

abbrev fresh : Stream
fresh = record { tr = abridged; tag_first = 0xEF ∷ []; written = [] }

abbrev packet : Bytes
packet = 7 ∷ unencrypted 99 body
